-- ===== src/Blob.antt =====
-- An allocated block of bytes, as the C code reads and writes it through casted pointers on a
-- little-endian machine, where the `memrev*ifbe` and `intrev*ifbe` macros of
-- redis-stable/src/endianconv.h do nothing. A read out of bounds gives 0 and a write out of bounds
-- is lost.
use native.Mathlib.Nat.{pow-suc}
use better_efisis.Prelude.{
  ℕ, zero, suc, ◌+◌, ◌-◌, ◌*◌, ◌/◌, ◌%◌, ◌^◌, ◌≤◌, ◌<◌, ◌≡◌, refl, ◌⊎◌, ◌&&◌, arith, ltb, leb, ◌==◌,
  if◌then◌else◌,
}

pub record Blob : Type 0 where
  pub size : ℕ
  pub cell : ℕ → ℕ

unfoldable pub read : Blob → ℕ → ℕ
read b a = if ltb a b.size then b.cell a else 0

unfoldable pub write : Blob → ℕ → ℕ → Blob
write b a v = if ltb a b.size then record b { cell = λ i. if i == a then v else b.cell i } else b

-- `n` bytes from address `a` on, the low byte first.
unfoldable pub load : Blob → ℕ → ℕ → ℕ
unfolding read
load b a zero = 0
load b a (suc n) = read b a + 256 * load b (a + 1) n

unfoldable pub store : Blob → ℕ → ℕ → ℕ → Blob
unfolding write
store b a zero v = b
store b a (suc n) v = store (write b a (v % 256)) (a + 1) n (v / 256)

-- `realloc`: the bytes that both sizes have stay.
unfoldable pub realloc : Blob → ℕ → Blob
realloc b n = record b { size = n }

-- `memmove` of `n` bytes, from `src` to `dst`; the two may overlap.
unfoldable pub memmove : Blob → ℕ → ℕ → ℕ → Blob
unfolding read
memmove b dst src n = record b {
  cell = λ i. if leb dst i && ltb i (dst + n) then read b (src + (i - dst)) else b.cell i;
}

-- Byte ranges that do not meet.
abbrev pub Apart : ℕ → ℕ → ℕ → ℕ → Type 0
Apart a n c m = (a + n ≤ c) ⊎ (c + m ≤ a)

pub size-store : (b : Blob) (a n v : ℕ) → (store b a n v).size ≡ b.size
unfolding store
size-store b a zero v = refl
size-store b a (suc n) v = ground (arith, size-store (write b a (v % 256)) (a + 1) n (v / 256))

read-store-Apart :
    (n : ℕ) (b : Blob) (a v c : ℕ) → Apart a n c 1 → read (store b a n v) c ≡ read b c
unfolding store read
read-store-Apart zero b a v c h = refl
read-store-Apart (suc n) b a v c h =
    ground (arith, read-store-Apart n (write b a (v % 256)) (a + 1) (v / 256) c)

pub load-store-Apart :
    (m : ℕ) (b : Blob) (a n v c : ℕ) → Apart a n c m → load (store b a n v) c m ≡ load b c m
unfolding load
load-store-Apart zero b a n v c h = refl
load-store-Apart (suc m) b a n v c h =
    ground (arith, read-store-Apart n b a v c, load-store-Apart m b a n v (c + 1))

-- A value that fits in `n` bytes is read back as it was stored.
pub load-store_self :
    (n : ℕ) (b : Blob) (a v : ℕ) → a + n ≤ b.size → v < 256 ^ n → load (store b a n v) a n ≡ v
unfolding load store
load-store_self zero b a v h fits = omega arith
load-store_self (suc n) b a v h fits =
    let b' = write b a (v % 256) in
    let low : read (store b' (a + 1) n (v / 256)) a ≡ v % 256 =
      rw (read-store-Apart n b' (a + 1) (v / 256) a (omega arith)) (ground arith) in
    let high : load (store b' (a + 1) n (v / 256)) (a + 1) n ≡ v / 256 =
      load-store_self n b' (a + 1) (v / 256) (ground arith)
        (let e : 256 ^ suc n ≡ 256 ^ n * 256 = pow-suc 256 n in omega (arith, e)) in
    omega (arith, low, high)

-- Inside the destination the bytes of the source are read, outside it those that were there.
pub load-memmove_inside :
    (m : ℕ) (b : Blob) (dst src n k : ℕ)
    → k + m ≤ n
    → dst + n ≤ b.size
    → load (memmove b dst src n) (dst + k) m ≡ load b (src + k) m
unfolding load memmove
load-memmove_inside zero b dst src n k h t = refl
load-memmove_inside (suc m) b dst src n k h t =
    let here : read (memmove b dst src n) (dst + k) ≡ read b (src + k) =
      let e : dst + k - dst ≡ k = omega arith in ground (arith, e) in
    let e : dst + k + 1 ≡ dst + (k + 1) = omega arith in
    let e' : src + k + 1 ≡ src + (k + 1) = omega arith in
    ground (arith, here, e, e', load-memmove_inside m b dst src n (k + 1))

pub load-memmove-Apart :
    (m : ℕ) (b : Blob) (dst src n a : ℕ)
    → Apart dst n a m
    → load (memmove b dst src n) a m ≡ load b a m
unfolding load memmove
load-memmove-Apart zero b dst src n a h = refl
load-memmove-Apart (suc m) b dst src n a h =
    ground (arith, load-memmove-Apart m b dst src n (a + 1))

-- What lies within both sizes outlives a `realloc`.
pub load-realloc :
    (m : ℕ) (b : Blob) (n a : ℕ) → a + m ≤ b.size → a + m ≤ n → load (realloc b n) a m ≡ load b a m
unfolding load realloc
load-realloc zero b n a h k = refl
load-realloc (suc m) b n a h k = ground (arith, load-realloc m b n (a + 1))
