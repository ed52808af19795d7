-- ===== src/Util/Digits.antt =====
-- The loops of `ll2string` and `string2ll` in redis-stable/src/util.c, on a number without sign.
use mathlib.Core.Option.{some_inj}
use better_efisis.Prelude.{
  ℕ, zero, suc, ◌+◌, ◌-◌, ◌*◌, ◌/◌, ◌%◌, ◌^◌, ◌≤◌, ◌<◌, ◌≡◌, refl, sym, ap, ◌∙◌, Option, none, some,
  List, [], ◌∷◌, ◌++◌, append-nil, arith, if◌then◌else◌, ◌==◌, leb, ◌&&◌, length, Bool-cases, inl,
  inr,
}
use better_efisis.Util.{digits_loop, scan}

-- A last digit that is not the only one is written in front of the characters that follow.
digits_loop_step :
    (f a d : ℕ) (buf : List ℕ)
    → 0 < a
    → d < 10
    → digits_loop (suc f) (a * 10 + d) buf ≡ digits_loop f a ((b'0' + d) ∷ buf)
unfolding digits_loop
digits_loop_step f a d buf ha hd =
    let high : (a * 10 + d) / 10 ≡ a = omega arith in
    let low : (a * 10 + d) % 10 ≡ d = omega arith in rw (high, low) (ground arith)

-- Fuel for the digits of the number is enough.
digits_loop_fuel :
    (f g v : ℕ) (buf : List ℕ)
    → v < 10 ^ suc f
    → f ≤ g
    → digits_loop (suc g) v buf ≡ digits_loop (suc f) v buf
unfolding digits_loop
digits_loop_fuel zero g v buf h le = ground arith
digits_loop_fuel (suc f) zero v buf h le = absurd (omega arith)
digits_loop_fuel (suc f) (suc g) v buf h le =
    let small : v / 10 < 10 ^ suc f = omega arith in
    ap (λ l. if v / 10 == 0 then (b'0' + v % 10) ∷ buf else l)
      (digits_loop_fuel f g (v / 10) ((b'0' + v % 10) ∷ buf) small (omega arith))

pub length-digits_loop :
    (f v n : ℕ) (buf : List ℕ) → v < 10 ^ suc n → length (digits_loop f v buf) ≤ suc n + length buf
unfolding digits_loop
length-digits_loop zero v n buf h = omega arith
length-digits_loop (suc f) v zero buf h = ground arith
length-digits_loop (suc f) v (suc n) buf h =
    let small : v / 10 < 10 ^ suc n = omega arith in
    ground (arith, length-digits_loop f (v / 10) n ((b'0' + v % 10) ∷ buf) small)

-- What `unsigned_part` does with its characters, before it looks at the sign.
unfoldable pub leading : List ℕ → Option (ℕ × List ℕ)
leading [] = none
leading (c ∷ cs) = if leb b'1' c && leb c b'9' then scan (c - b'0') cs else none

scan_digit :
    (a d : ℕ) (cs : List ℕ)
    → d < 10
    → a * 10 + d < 2 ^ 64
    → scan a ((b'0' + d) ∷ cs) ≡ scan (a * 10 + d) cs
unfolding scan
scan_digit a d cs hd top = let e : b'0' + d - b'0' ≡ d = omega arith in rw e (ground arith)

-- The digits of a number are read as the number.
leading-digits_loop :
    (f v : ℕ) (buf : List ℕ)
    → 0 < v
    → v < 10 ^ suc f
    → v < 2 ^ 64
    → leading (digits_loop (suc f) v buf) ≡ scan v buf
unfolding digits_loop leading
leading-digits_loop zero v buf h low top =
    let e : v / 10 ≡ 0 = omega arith in
    let e' : b'0' + v % 10 - b'0' ≡ v = omega arith in rw (e, e') (ground arith)
leading-digits_loop (suc f) v buf h low top = elim (Bool-cases (v / 10 == 0)) [
  | inl last ↦ let e' : b'0' + v % 10 - b'0' ≡ v = ground arith in rw (last, e') (ground arith)
  | inr more ↦
      let whole : v / 10 * 10 + v % 10 ≡ v = omega arith in
      rw (more, leading)
        (leading-digits_loop f (v / 10) ((b'0' + v % 10) ∷ buf) (ground arith) (omega arith)
            (omega arith)
          ∙ scan_digit (v / 10) (v % 10) buf (omega arith) (omega arith)
          ∙ ap (λ n. scan n buf) whole)
]

scan_cases :
    (a c : ℕ) (cs : List ℕ) (v : ℕ)
    → scan a (c ∷ cs) ≡ some (v, [])
    → (b'0' ≤ c)
      × (c - b'0' < 10)
      × (a * 10 + (c - b'0') < 2 ^ 64)
      × (scan (a * 10 + (c - b'0')) cs ≡ some (v, []))
unfolding scan
scan_cases a c cs v e = ground arith

-- A number that was read up to the end has the digits that were read.
digits_loop-scan :
    (cs : List ℕ) (f g a v : ℕ) (buf : List ℕ)
    → 0 < a
    → a < 2 ^ 64
    → g ≡ f + length cs
    → scan a cs ≡ some (v, [])
    → (v < 2 ^ 64) × (0 < v) × (digits_loop g v buf ≡ digits_loop f a (cs ++ buf))
unfolding scan
digits_loop-scan [] f g a v buf h top n e =
    let same : a ≡ v = ap (λ p. p.0) (some_inj.0 e) in
    (
      omega arith,
      omega arith,
      ap (λ k. digits_loop k v buf) (n ∙ omega arith) ∙ ap (λ b. digits_loop f b buf) (sym same),
    )
digits_loop-scan (c ∷ cs) f g a v buf h top n e =
    let (low, digit, fits, more) = scan_cases a c cs v e in
    let (t, l, w) =
      digits_loop-scan cs (suc f) g (a * 10 + (c - b'0')) v buf (omega arith) fits (omega arith)
        more in
    let char : b'0' + (c - b'0') ≡ c = omega arith in
    (
      t,
      l,
      w
          ∙ digits_loop_step f a (c - b'0') (cs ++ buf) h digit
          ∙ ap (λ b. digits_loop f a (b ∷ (cs ++ buf))) char,
    )

pub leading-text : (n : ℕ) → 0 < n → n < 2 ^ 64 → leading (digits_loop 32 n []) ≡ some (n, [])
unfolding scan
leading-text n h top = leading-digits_loop 31 n [] h (omega arith) top

pub leading_cases :
    (c : ℕ) (cs : List ℕ) (r : ℕ × List ℕ)
    → leading (c ∷ cs) ≡ some r
    → (b'1' ≤ c) × (c ≤ b'9') × (scan (c - b'0') cs ≡ some r)
unfolding leading
leading_cases c cs r e = ground arith

pub text-leading :
    (l : List ℕ) (n : ℕ)
    → leading l ≡ some (n, [])
    → (0 < n) × (n < 2 ^ 64) × (digits_loop 32 n [] ≡ l)
unfolding leading digits_loop
text-leading [] n e = ground arith
text-leading (c ∷ cs) n e =
    let (low, high, more) = leading_cases c cs (n, []) e in
    let last : digits_loop 32 (c - b'0') (cs ++ []) ≡ c ∷ cs = rw append-nil (ground arith) in
    let (top, pos_n, w) =
      digits_loop-scan cs 32 (32 + length cs) (c - b'0') n [] (omega arith) (omega arith) refl
        more in
    let fuel : suc (31 + length cs) ≡ 32 + length cs = omega arith in
    let enough = digits_loop_fuel 31 (31 + length cs) n [] (omega arith) (omega arith) in
    (pos_n, top, sym enough ∙ ap (λ f. digits_loop f n []) fuel ∙ w ∙ last)
