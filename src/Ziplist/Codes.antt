-- ===== src/Ziplist/Codes.antt =====
-- redis-stable/src/ziplist.c: the parts of an entry are read back as they were written.
use better_efisis.Prelude.{
  ℕ, ◌+◌, ◌-◌, ◌^◌, ◌<◌, ◌≤◌, ◌≡◌, refl, true, false, some, List, [], ◌++◌, leb, if◌then◌else◌,
  length, if_cases, arith,
}
use better_efisis.Prelude.Int.{ℤ, pos, negsuc, InBits}
use better_efisis.Prelude.Bits.{pow_two_pos}
use better_efisis.Ziplist.{
  is_str, int_size, encode_length, decode_length, encode_prev, decode_prev, within, encoding_for,
  save_value, load_value,
}

pub decode_prev-encode_prev :
    (n : ℕ) (rest : List ℕ)
    → n < 2 ^ 32
    → decode_prev (encode_prev n ++ rest) ≡ some (length (encode_prev n), n)
unfolding decode_prev encode_prev
decode_prev-encode_prev n rest h = ground arith

-- The encoding of a string of length `n`.
abbrev pub str_encoding : ℕ → ℕ
str_encoding n = if leb n 0x3f then 0 else if leb n 0x3fff then 64 else 128

pub decode_length-str :
    (n : ℕ) (rest : List ℕ)
    → n < 2 ^ 32
    → decode_length (encode_length 0 n ++ rest)
      ≡ some (str_encoding n, length (encode_length 0 n), n)
unfolding decode_length encode_length
decode_length-str n rest h = ground arith

pub encoding_for-int : (v : ℤ) → is_str (encoding_for v) ≡ false
unfolding encoding_for
encoding_for-int (pos n) = ground arith
encoding_for-int (negsuc n) = ground arith

pub decode_length-int :
    (enc n : ℕ) (rest : List ℕ)
    → is_str enc ≡ false
    → decode_length (encode_length enc n ++ rest)
      ≡ some (enc, length (encode_length enc n), int_size enc)
unfolding decode_length encode_length
decode_length-int enc n rest h = ground arith

-- The bytes of `v` in the encoding, with what is read where they are followed by `rest`.
abbrev pub Stored : ℤ → ℕ → List ℕ → Type 0
Stored v enc rest =
    (b : List ℕ) × (save_value v enc ≡ some b)
    × (length b ≡ int_size enc)
    × (load_value (b ++ rest) enc ≡ some v)

stored_8 : (v : ℤ) (rest : List ℕ) → InBits 8 v → Stored v 0xfe rest
unfolding save_value load_value
stored_8 (pos n) rest h = (_, refl, refl, ground arith)
stored_8 (negsuc n) rest h = (_, refl, refl, ground arith)

stored_16 : (v : ℤ) (rest : List ℕ) → InBits 16 v → Stored v 0xc0 rest
unfolding save_value load_value
stored_16 (pos n) rest h = (_, refl, refl, ground arith)
stored_16 (negsuc n) rest h = (_, refl, refl, ground arith)

stored_24 : (v : ℤ) (rest : List ℕ) → InBits 24 v → Stored v 0xf0 rest
unfolding save_value load_value
stored_24 (pos n) rest h = (_, refl, refl, ground arith)
stored_24 (negsuc n) rest h = (_, refl, refl, ground arith)

stored_32 : (v : ℤ) (rest : List ℕ) → InBits 32 v → Stored v 0xd0 rest
unfolding save_value load_value
stored_32 (pos n) rest h = (_, refl, refl, ground arith)
stored_32 (negsuc n) rest h = (_, refl, refl, ground arith)

stored_64 : (v : ℤ) (rest : List ℕ) → InBits 64 v → Stored v 0xe0 rest
unfolding save_value load_value
stored_64 (pos n) rest h = (_, refl, refl, ground arith)
stored_64 (negsuc n) rest h = (_, refl, refl, ground arith)

stored_imm : (n : ℕ) (rest : List ℕ) → n ≤ 12 → Stored (pos n) (0xf1 + n) rest
unfolding save_value load_value
stored_imm n rest h = ([], ground arith, ground arith, ground arith)

within_bits :
    (k : ℕ) (v : ℤ)
    → within (negsuc (2 ^ (k - 1) - 1)) (pos (2 ^ (k - 1) - 1)) v ≡ true
    → InBits k v
within_bits k (pos n) t = ground (arith, pow_two_pos (k - 1))
within_bits k (negsuc n) t = ground (arith, pow_two_pos (k - 1))

sized :
    (v : ℤ) (rest : List ℕ)
    → InBits 64 v
    → Stored v
        (if within (negsuc (2 ^ 7 - 1)) (pos (2 ^ 7 - 1)) v
          then 0xfe
          else if within (negsuc (2 ^ 15 - 1)) (pos (2 ^ 15 - 1)) v
          then 0xc0
          else if within (negsuc (2 ^ 23 - 1)) (pos (2 ^ 23 - 1)) v
          then 0xf0
          else if within (negsuc (2 ^ 31 - 1)) (pos (2 ^ 31 - 1)) v
          then 0xd0
          else 0xe0)
        rest
sized v rest h =
    let P : ℕ → Type 0 = λ e. Stored v e rest in
    if_cases P (within (negsuc (2 ^ 7 - 1)) (pos (2 ^ 7 - 1)) v) 0xfe _
      (λ t. stored_8 v rest (within_bits 8 v t))
      (λ f.
        if_cases P (within (negsuc (2 ^ 15 - 1)) (pos (2 ^ 15 - 1)) v) 0xc0 _
          (λ t. stored_16 v rest (within_bits 16 v t))
          (λ g.
            if_cases P (within (negsuc (2 ^ 23 - 1)) (pos (2 ^ 23 - 1)) v) 0xf0 _
              (λ t. stored_24 v rest (within_bits 24 v t))
              (λ i.
                if_cases P (within (negsuc (2 ^ 31 - 1)) (pos (2 ^ 31 - 1)) v) 0xd0 0xe0
                  (λ t. stored_32 v rest (within_bits 32 v t)) (λ j. stored_64 v rest h))))

pub stored : (v : ℤ) (rest : List ℕ) → InBits 64 v → Stored v (encoding_for v) rest
unfolding encoding_for
stored (pos n) rest h =
    if_cases (λ e. Stored (pos n) e rest) (within (pos 0) (pos 12) (pos n)) (0xf1 + n) _
      (λ t. stored_imm n rest (ground arith)) (λ f. sized (pos n) rest h)
stored (negsuc n) rest h =
    if_cases (λ e. Stored (negsuc n) e rest) (within (pos 0) (pos 12) (negsuc n)) 0 _
      (λ t. absurd (ground arith)) (λ f. sized (negsuc n) rest h)
