-- ===== src/Rdb/Length.antt =====
-- `rdbSaveLen` and `rdbLoadLen` of redis-stable/src/rdb.c: the three forms of a length.
use Prim.Native.Nat.{bit_and, bit_or}
use better_efisis.Prelude.{
  ℕ, ◌+◌, ◌*◌, ◌/◌, ◌%◌, ◌^◌, ◌≤◌, ◌<◌, ◌≡◌, ◌⊎◌, ap, ◌∙◌, false, some, List, [], ◌∷◌, ◌++◌, arith,
  ltb, if◌then◌else◌, length, inl, inr, lt→ltb, le→not_ltb,
}
use better_efisis.Prelude.Bits.{bit_or_high, bit_or_low, bit_and_mask, bit_and-shift}
use better_efisis.Rio.{Rio, Buffer, buffer_backend}
use better_efisis.Rio.Chunks.{
  IsChunkwise, written, written-append, write-written, advanced, advanced-advanced, Ahead,
  read-Ahead,
}
use better_efisis.Rdb.{tagged, big_endian, write_raw, save_len, load_len}

-- The stored form of a length: one byte below 64, two below 16384, else five.
abbrev pub len_bytes : ℕ → List ℕ
len_bytes len =
    if ltb len 64
    then len ∷ []
    else if ltb len 16384
    then (64 + len / 256) ∷ len % 256 ∷ []
    else 128 ∷ big_endian len

mask_byte : (x : ℕ) → bit_and x 0xff ≡ x % 256
mask_byte x = bit_and_mask 8 x

mask_low : (x : ℕ) → bit_and x 0x3f ≡ x % 64
mask_low x = bit_and_mask 6 x

-- The two high bits of a byte.
high_bits : (b : ℕ) → b < 256 → bit_and b 0xc0 / 64 ≡ b / 64
high_bits b h = bit_and-shift 6 b 0xc0 ∙ bit_and_mask 2 (b / 64) ∙ omega arith

write_raw-written :
    (r : Rio Buffer) (buf : List ℕ)
    → IsChunkwise r.update_cksum
    → write_raw buffer_backend r buf ≡ some (length buf, written r buf)
unfolding write_raw
write_raw-written r buf law = rw (write-written r buf law, write_raw)

len_cases : (len : ℕ) → (len < 64) ⊎ ((64 ≤ len) × (len < 16384)) ⊎ (16384 ≤ len)
len_cases len = ground arith

-- `rdbSaveLen` appends the stored form.
save_len-written :
    (r : Rio Buffer) (len : ℕ)
    → IsChunkwise r.update_cksum
    → save_len buffer_backend r len ≡ some (length (len_bytes len), written r (len_bytes len))
unfolding save_len
save_len-written r len law = elim (len_cases len) [
  | inl small ↦
      let low : tagged (bit_and len 0xff) 0 ≡ len =
        rw (mask_byte len) (bit_or_high 6 (len % 256) 0 (omega arith) ∙ omega arith) in
      rw (lt→ltb len 64 small, low, save_len) (write_raw-written r (len ∷ []) law)
  | inr (inl (over, small)) ↦
      let high : tagged (bit_and (len / 256) 0xff) 1 ≡ 64 + len / 256 =
        rw (mask_byte (len / 256))
          (bit_or_high 6 (len / 256 % 256) 1 (omega arith) ∙ omega arith) in
      rw (le→not_ltb len 64 over, lt→ltb len 16384 small, high, mask_byte len, save_len)
        (write_raw-written r ((64 + len / 256) ∷ len % 256 ∷ []) law)
  | inr (inr over) ↦
      let first = write_raw-written r (128 ∷ []) law in
      let second = write_raw-written (written r (128 ∷ [])) (big_endian len) law in
      rw (le→not_ltb len 64 (omega arith), le→not_ltb len 16384 over, first, second, save_len)
        (ap (λ q. some (5, q)) (written-append r (128 ∷ []) (big_endian len) law))
]

module _ (s : Rio Buffer) (law : IsChunkwise s.update_cksum) (rest : List ℕ) where
  load_small :
      (b : ℕ) → b < 64 → Ahead s (b ∷ rest) → load_len buffer_backend s ≡ (b, false, advanced s 1)
  unfolding load_len
  load_small b h a =
      let type : bit_and b 0xc0 / 64 ≡ 0 = high_bits b (omega arith) ∙ omega arith in
      let low : bit_and b 0x3f ≡ b = mask_low b ∙ omega arith in
      rw ((read-Ahead s (b ∷ []) rest a law).0, type, low, load_len)

  load_medium :
      (b c : ℕ)
      → b < 64
      → c < 256
      → Ahead s ((64 + b) ∷ c ∷ rest)
      → load_len buffer_backend s ≡ (b * 256 + c, false, advanced s 2)
  unfolding load_len
  load_medium b c h k a =
      let type : bit_and (64 + b) 0xc0 / 64 ≡ 1 = high_bits (64 + b) (omega arith) ∙ omega arith in
      let low : bit_and (64 + b) 0x3f ≡ b = mask_low (64 + b) ∙ omega arith in
      let join : bit_or (b * 256) c ≡ b * 256 + c = bit_or_low 8 c b k in
      let one = read-Ahead s ((64 + b) ∷ []) (c ∷ rest) a law in
      let two = read-Ahead (advanced s 1) (c ∷ []) rest one.1 law in
      rw (one.0, type, two.0, low, join, load_len)
        (ap (λ q. (b * 256 + c, false, q)) (advanced-advanced s 1 1 law))

  load_large :
      (w x y z : ℕ)
      → Ahead s (128 ∷ w ∷ x ∷ y ∷ z ∷ rest)
      → load_len buffer_backend s ≡ (w * 2 ^ 24 + x * 2 ^ 16 + y * 2 ^ 8 + z, false, advanced s 5)
  unfolding load_len
  load_large w x y z a =
      let one = read-Ahead s (128 ∷ []) (w ∷ x ∷ y ∷ z ∷ rest) a law in
      let two = read-Ahead (advanced s 1) (w ∷ x ∷ y ∷ z ∷ []) rest one.1 law in
      rw (one.0, two.0, load_len)
        (ap (λ q. (w * 2 ^ 24 + x * 2 ^ 16 + y * 2 ^ 8 + z, false, q))
          (advanced-advanced s 1 4 law))

  load_len-len_bytes :
      (len : ℕ)
      → len < 2 ^ 32
      → Ahead s (len_bytes len ++ rest)
      → load_len buffer_backend s ≡ (len, false, advanced s (length (len_bytes len)))
  load_len-len_bytes len h = elim (len_cases len) [
    | inl small ↦ rw (lt→ltb len 64 small) (load_small len small)
    | inr (inl (over, small)) ↦
        let value : len / 256 * 256 + len % 256 ≡ len = omega arith in
        rw (le→not_ltb len 64 over, lt→ltb len 16384 small)
          (λ a.
            load_medium (len / 256) (len % 256) (omega arith) (omega arith) a
            ∙ ap (λ n. (n, false, advanced s 2)) value)
    | inr (inr over) ↦
        let value : len / 2 ^ 24 % 256 * 2 ^ 24
              + len / 2 ^ 16 % 256 * 2 ^ 16
              + len / 2 ^ 8 % 256 * 2 ^ 8
              + len % 256
            ≡ len =
          omega arith in
        rw (le→not_ltb len 64 (omega arith), le→not_ltb len 16384 over)
          (λ a.
            load_large (len / 2 ^ 24 % 256) (len / 2 ^ 16 % 256) (len / 2 ^ 8 % 256) (len % 256) a
            ∙ ap (λ n. (n, false, advanced s 5)) value)
  ]

-- A length below 2^32 that `rdbSaveLen` stores in a memory stream is what `rdbLoadLen` gives, as no
-- encoding type, where the stored bytes come next. The loading moves past exactly as many bytes as
-- the saving appended and counted: one for a length below 64, two below 16384, else five.
pub load_len-save_len :
    (r s : Rio Buffer) (len : ℕ) (rest : List ℕ)
    → IsChunkwise r.update_cksum
    → IsChunkwise s.update_cksum
    → len < 2 ^ 32
    → Ahead s (len_bytes len ++ rest)
    → (save_len buffer_backend r len ≡ some (length (len_bytes len), written r (len_bytes len)))
      × (load_len buffer_backend s ≡ (len, false, advanced s (length (len_bytes len))))
load_len-save_len r s len rest law law' h a =
    (save_len-written r len law, load_len-len_bytes s law' rest len h a)
