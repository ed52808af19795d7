-- ===== src/Prelude/Bits.antt =====
-- Laws of `|` and of `&` with a mask, at every width: the native operations have none.
use Prim.Native.Nat.{
  ℕ, zero, suc, ◌+◌, ◌-◌, ◌*◌, ◌/◌, ◌%◌, ◌^◌, ◌≤◌, ◌<◌, min, max, bit_and, bit_or, digits,
  bit_and-bitwise, bit_or-bitwise,
}
use mathlib.Core.Path.{◌≡◌, refl, sym, ap, ◌∙◌}
use native.Mathlib.Nat.{pow-suc, div-div-eq-div-mul, mod-eq-sub-div-mul, div-mul-le_self}
use native.Mathlib.Omega.{arith}

-- A native operation, which is `f` on each two binary digits and `z` where the left ones end.
module _ (z : ℕ → ℕ) (f : ℕ → ℕ → ℕ) where
  -- Rounds past the last digit change nothing.
  one_more : (b a n : ℕ) → a ≤ n → digits z f n a b ≡ digits z f (suc n) a b
  one_more b (suc a) (suc n) h = omega (arith, one_more (b / 2) (suc a / 2) n (omega arith))
  one_more b zero (suc n) h = refl
  one_more b zero zero h = refl
  one_more b (suc a) zero h = absurd (omega arith)

  more : (extra b a : ℕ) → digits z f (a + extra) a b ≡ digits z f a a b
  more zero b a = ap (λ n. digits z f n a b) (omega arith)
  more (suc extra) b a =
      let next : a + suc extra ≡ suc (a + extra) = omega arith in
      ap (λ n. digits z f n a b) next
      ∙ sym (one_more b a (a + extra) (omega arith))
      ∙ more extra b a

  by_halves :
      (op : ℕ → ℕ → ℕ)
      → ((a b : ℕ) → op a b ≡ digits z f a a b)
      → (a b : ℕ) → op (suc a) b ≡ op (suc a / 2) (b / 2) * 2 + f (suc a % 2) (b % 2)
  by_halves op law a b =
      let half = suc a / 2 in
      let whole : half + (a - half) ≡ a = omega arith in
      let rounds : digits z f a half (b / 2) ≡ digits z f half half (b / 2) =
        ap (λ n. digits z f n half (b / 2)) (sym whole) ∙ more (a - half) (b / 2) half in
      omega (arith, rounds, law (suc a) b, law half (b / 2))

bit_or_step : (x y : ℕ) → bit_or x y ≡ bit_or (x / 2) (y / 2) * 2 + max (x % 2) (y % 2)
bit_or_step (suc n) y = by_halves (λ d. d) max bit_or bit_or-bitwise n y
bit_or_step zero y = omega (bit_or-bitwise 0 (y / 2), bit_or-bitwise 0 y, arith)

bit_and_step : (x y : ℕ) → bit_and x y ≡ bit_and (x / 2) (y / 2) * 2 + min (x % 2) (y % 2)
bit_and_step (suc n) y = by_halves (λ d. 0) min bit_and bit_and-bitwise n y
bit_and_step zero y = omega (bit_and-bitwise 0 (y / 2), bit_and-bitwise 0 y, arith)

-- An operation that leaves the left digits as they are, or none of them, against 0.
bit_or-zero_below : (bound x : ℕ) → x ≤ bound → (bit_or x 0 ≡ x) × (bit_and x 0 ≡ 0)
bit_or-zero_below bound zero small = (refl, refl)
bit_or-zero_below (suc bound) (suc x) small =
    let ih = bit_or-zero_below bound (suc x / 2) (omega arith) in
    (omega (ih.0, bit_or_step (suc x) 0, arith), omega (ih.1, bit_and_step (suc x) 0, arith))
bit_or-zero_below zero (suc x) small = absurd (omega arith)

pub pow_two_pos : (k : ℕ) → 0 < 2 ^ k
pow_two_pos zero = omega arith
pow_two_pos (suc k) = omega (arith, pow-suc 2 k, pow_two_pos k)

-- `low | high << k`, where the two do not overlap.
pub bit_or_high : (k x y : ℕ) → x < 2 ^ k → bit_or x (y * 2 ^ k) ≡ x + y * 2 ^ k
bit_or_high zero x y h =
    let e : x ≡ 0 = omega arith in
    let nothing : bit_or 0 (y * 1) ≡ y * 1 = bit_or-bitwise 0 (y * 1) in
    rw e (omega (arith, nothing))
bit_or_high (suc k) x y h =
    let p = pow-suc 2 k in
    let half : y * 2 ^ suc k / 2 ≡ y * 2 ^ k = omega (arith, p, ap (λ t. y * t) p) in
    let even : y * 2 ^ suc k % 2 ≡ 0 = omega (arith, p, ap (λ t. y * t) p) in
    let ih = bit_or_high k (x / 2) y (omega (arith, p)) in
    let step : bit_or x (y * 2 ^ suc k)
        ≡ bit_or (x / 2) (y * 2 ^ k) * 2 + max (x % 2) (y * 2 ^ suc k % 2) =
      bit_or_step x (y * 2 ^ suc k)
      ∙ ap (λ t. bit_or (x / 2) t * 2 + max (x % 2) (y * 2 ^ suc k % 2)) half in
    omega (arith, step, ih, even, ap (λ t. y * t) p)

-- `high << k | low`, likewise.
pub bit_or_low : (k x y : ℕ) → x < 2 ^ k → bit_or (y * 2 ^ k) x ≡ y * 2 ^ k + x
bit_or_low zero x y h =
    let e : x ≡ 0 = omega arith in
    rw e ((bit_or-zero_below (y * 1) (y * 1) (omega arith)).0 ∙ omega arith)
bit_or_low (suc k) x y h =
    let p = pow-suc 2 k in
    let half : y * 2 ^ suc k / 2 ≡ y * 2 ^ k = omega (arith, p, ap (λ t. y * t) p) in
    let even : y * 2 ^ suc k % 2 ≡ 0 = omega (arith, p, ap (λ t. y * t) p) in
    let ih = bit_or_low k (x / 2) y (omega (arith, p)) in
    let step : bit_or (y * 2 ^ suc k) x
        ≡ bit_or (y * 2 ^ k) (x / 2) * 2 + max (y * 2 ^ suc k % 2) (x % 2) =
      bit_or_step (y * 2 ^ suc k) x
      ∙ ap (λ t. bit_or t (x / 2) * 2 + max (y * 2 ^ suc k % 2) (x % 2)) half in
    omega (arith, step, ih, even, ap (λ t. y * t) p)

mod_double : (x m : ℕ) → x % (m * 2) ≡ x / 2 % m * 2 + x % 2
mod_double x m =
    let q = x / 2 / m in
    let same : x / (m * 2) ≡ q = ap (λ t. x / t) (omega arith) ∙ sym (div-div-eq-div-mul x 2 m) in
    let whole : x % (m * 2) ≡ x - q * (m * 2) =
      mod-eq-sub-div-mul x (m * 2) ∙ ap (λ t. x - t * (m * 2)) same in
    let half : x / 2 % m ≡ x / 2 - q * m = mod-eq-sub-div-mul (x / 2) m in
    omega (arith, whole, half, div-mul-le_self (x / 2) m)

-- `x & (2^k - 1)`
pub bit_and_mask : (k x : ℕ) → bit_and x (2 ^ k - 1) ≡ x % 2 ^ k
bit_and_mask zero x = omega (arith, (bit_or-zero_below x x (omega arith)).1)
bit_and_mask (suc k) x =
    let p = pow-suc 2 k in
    let pos = pow_two_pos k in
    let half : (2 ^ suc k - 1) / 2 ≡ 2 ^ k - 1 = omega (arith, p, pos) in
    let odd : (2 ^ suc k - 1) % 2 ≡ 1 = omega (arith, p, pos) in
    let step : bit_and x (2 ^ suc k - 1)
        ≡ bit_and (x / 2) (2 ^ k - 1) * 2 + min (x % 2) ((2 ^ suc k - 1) % 2) =
      bit_and_step x (2 ^ suc k - 1)
      ∙ ap (λ t. bit_and (x / 2) t * 2 + min (x % 2) ((2 ^ suc k - 1) % 2)) half in
    rw p (omega (arith, rw p at step, rw p at odd, bit_and_mask k (x / 2), mod_double x (2 ^ k)))

-- `(a & b) >> k`
pub bit_and-shift : (k a b : ℕ) → bit_and a b / 2 ^ k ≡ bit_and (a / 2 ^ k) (b / 2 ^ k)
bit_and-shift zero a b =
    let whole : (x : ℕ) → x / 2 ^ 0 ≡ x = λ x. omega arith in
    whole (bit_and a b)
    ∙ ap (λ t. bit_and t b) (sym (whole a))
    ∙ ap (λ t. bit_and (a / 2 ^ 0) t) (sym (whole b))
bit_and-shift (suc k) a b =
    let first : bit_and a b / 2 ≡ bit_and (a / 2) (b / 2) = omega (arith, bit_and_step a b) in
    let split : (x : ℕ) → x / 2 ^ suc k ≡ x / 2 / 2 ^ k =
      λ x. ap (λ t. x / t) (pow-suc 2 k ∙ omega arith) ∙ sym (div-div-eq-div-mul x 2 (2 ^ k)) in
    split (bit_and a b)
    ∙ ap (λ t. t / 2 ^ k) first
    ∙ bit_and-shift k (a / 2) (b / 2)
    ∙ ap (λ t. bit_and t (b / 2 / 2 ^ k)) (sym (split a))
    ∙ ap (λ t. bit_and (a / 2 ^ suc k) t) (sym (split b))

bit_and-le_below : (bound a b : ℕ) → b ≤ bound → bit_and a b ≤ b
bit_and-le_below zero a b h =
    let e : b ≡ 0 = omega arith in rw e (omega ((bit_or-zero_below a a (omega arith)).1, arith))
bit_and-le_below (suc bound) a zero h = omega ((bit_or-zero_below a a (omega arith)).1, arith)
bit_and-le_below (suc bound) a (suc b) h =
    omega (arith, bit_and_step a (suc b), bit_and-le_below bound (a / 2) (suc b / 2) (omega arith))

-- Masking gives no more than the mask.
pub bit_and-le : (a b : ℕ) → bit_and a b ≤ b
bit_and-le a b = bit_and-le_below b a b (omega arith)
