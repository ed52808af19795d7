-- ===== src/Rdb/Integer.antt =====
-- `rdbEncodeInteger` and `rdbLoadIntegerObject` of redis-stable/src/rdb.c: small integers in two,
-- three or five bytes.
use Prim.Native.Nat.{bit_and, bit_or}
use better_efisis.Prelude.{
  ℕ, ◌+◌, ◌*◌, ◌/◌, ◌%◌, ◌^◌, ◌<◌, ◌≡◌, ◌⊎◌, refl, ap, true, List, [], ◌∷◌, ◌++◌, arith, length,
  inl, inr,
}
use better_efisis.Prelude.Int.{ℤ, pos, negsuc, to_word, of_word, InBits}
use better_efisis.Prelude.Bits.{bit_or_high, bit_and_mask}
use better_efisis.Rio.{Rio, Buffer, buffer_backend}
use better_efisis.Rio.Chunks.{IsChunkwise, advanced, advanced-advanced, Ahead, read-Ahead}
use better_efisis.Rdb.{encode_integer, load_len, load_integer, value, int16_of, int32_of}

mask_byte : (x : ℕ) → bit_and x 0xff ≡ x % 256
mask_byte x = bit_and_mask 8 x

byte_of : ℕ → ℤ → ℕ
byte_of k v = to_word 64 v / 2 ^ k % 256

low_byte : ℤ → ℕ
low_byte v = to_word 64 v % 256

size_cases :
    (v : ℤ)
    → InBits 8 v
      ⊎ ((¬ InBits 8 v) × InBits 16 v)
      ⊎ ((¬ InBits 16 v) × InBits 32 v)
      ⊎ (¬ InBits 32 v)
size_cases (pos n) = ground arith
size_cases (negsuc n) = ground arith

encode_8 : (v : ℤ) → InBits 8 v → encode_integer v ≡ 192 ∷ low_byte v ∷ []
unfolding encode_integer low_byte
encode_8 (pos n) h = rw (← mask_byte (to_word 64 (pos n))) (ground arith)
encode_8 (negsuc n) h = rw (← mask_byte (to_word 64 (negsuc n))) (ground arith)

encode_16 :
    (v : ℤ) → ¬ InBits 8 v → InBits 16 v → encode_integer v ≡ 193 ∷ low_byte v ∷ byte_of 8 v ∷ []
unfolding encode_integer low_byte byte_of
encode_16 (pos n) o h =
    ground (arith, mask_byte (to_word 64 (pos n)), mask_byte (to_word 64 (pos n) / 2 ^ 8))
encode_16 (negsuc n) o h =
    ground (arith, mask_byte (to_word 64 (negsuc n)), mask_byte (to_word 64 (negsuc n) / 2 ^ 8))

encode_32 :
    (v : ℤ)
    → ¬ InBits 16 v
    → InBits 32 v
    → encode_integer v ≡ 194 ∷ low_byte v ∷ byte_of 8 v ∷ byte_of 16 v ∷ byte_of 24 v ∷ []
unfolding encode_integer low_byte byte_of
encode_32 (pos n) o h =
    let w = to_word 64 (pos n) in
    ground
      (arith, mask_byte w, mask_byte (w / 2 ^ 8), mask_byte (w / 2 ^ 16), mask_byte (w / 2 ^ 24))
encode_32 (negsuc n) o h =
    let w = to_word 64 (negsuc n) in
    ground
      (arith, mask_byte w, mask_byte (w / 2 ^ 8), mask_byte (w / 2 ^ 16), mask_byte (w / 2 ^ 24))

decode_8 : (v : ℤ) → InBits 8 v → of_word 8 (low_byte v) ≡ v
unfolding low_byte
decode_8 (pos n) h = ground arith
decode_8 (negsuc n) h = ground arith

decode_16 : (v : ℤ) → InBits 16 v → int16_of (low_byte v ∷ byte_of 8 v ∷ []) ≡ v
unfolding low_byte byte_of
decode_16 (pos n) h =
    rw (bit_or_high 8 (to_word 64 (pos n) % 256) (to_word 64 (pos n) / 256 % 256) (omega arith))
      (ground arith)
decode_16 (negsuc n) h =
    rw
      (bit_or_high 8 (to_word 64 (negsuc n) % 256) (to_word 64 (negsuc n) / 256 % 256)
        (omega arith))
      (ground arith)

four_bytes :
    (a b c d : ℕ)
    → a < 256
    → b < 256
    → c < 256
    → bit_or (bit_or (bit_or a (b * 2 ^ 8)) (c * 2 ^ 16)) (d * 2 ^ 24)
      ≡ a + b * 2 ^ 8 + c * 2 ^ 16 + d * 2 ^ 24
four_bytes a b c d ha hb hc =
    let one = bit_or_high 8 a b ha in
    let two = bit_or_high 16 (a + b * 2 ^ 8) c (omega arith) in
    let three = bit_or_high 24 (a + b * 2 ^ 8 + c * 2 ^ 16) d (omega arith) in rw (one, two, three)

below_256 : (v : ℤ) (k : ℕ) → (low_byte v < 256) × (byte_of k v < 256)
unfolding low_byte byte_of
below_256 v k = omega arith

together :
    (v : ℤ)
    → InBits 32 v
    → of_word 32 (low_byte v + byte_of 8 v * 2 ^ 8 + byte_of 16 v * 2 ^ 16 + byte_of 24 v * 2 ^ 24)
      ≡ v
unfolding low_byte byte_of
together (pos n) h = ground arith
together (negsuc n) h = ground arith

decode_32 :
    (v : ℤ)
    → InBits 32 v
    → int32_of (low_byte v ∷ byte_of 8 v ∷ byte_of 16 v ∷ byte_of 24 v ∷ []) ≡ v
decode_32 v h =
    rw
      (four_bytes (low_byte v) (byte_of 8 v) (byte_of 16 v) (byte_of 24 v) (below_256 v 8).0
        (below_256 v 8).1 (below_256 v 16).1)
      (together v h)

module _ (s : Rio Buffer) (law : IsChunkwise s.update_cksum) (rest : List ℕ) where
  -- The first byte is an encoding type.
  load_type_byte :
      (b t : ℕ) (bytes : List ℕ)
      → bit_and b 0xc0 / 2 ^ 6 ≡ 3
      → bit_and b 0x3f ≡ t
      → Ahead s (b ∷ bytes)
      → (load_len buffer_backend s ≡ (t, true, advanced s 1)) × Ahead (advanced s 1) bytes
  unfolding load_len
  load_type_byte b t bytes tag low a =
      let one = read-Ahead s (b ∷ []) bytes a law in (rw (one.0, tag, low, load_len), one.1)

  -- The two loads give `v` and move past `bytes`.
  abbrev Loads : ℤ → List ℕ → Type 0
  Loads v bytes =
      ((load_len buffer_backend s).1 ≡ true)
      × (load_integer buffer_backend (load_len buffer_backend s).2 (load_len buffer_backend s).0
          ≡ value v (advanced s (length bytes)))

  load_8 : (v : ℤ) (x : ℕ) → of_word 8 x ≡ v → Ahead s (192 ∷ x ∷ rest) → Loads v (192 ∷ x ∷ [])
  unfolding load_integer
  load_8 v x e a =
      let (first, a') = load_type_byte 192 0 (x ∷ rest) refl refl a in
      let second = read-Ahead (advanced s 1) (x ∷ []) rest a' law in
      rw first (refl, rw (second.0, e, load_integer) (ap (value v) (advanced-advanced s 1 1 law)))

  load_16 :
      (v : ℤ) (x y : ℕ)
      → int16_of (x ∷ y ∷ []) ≡ v
      → Ahead s (193 ∷ x ∷ y ∷ rest)
      → Loads v (193 ∷ x ∷ y ∷ [])
  unfolding load_integer
  load_16 v x y e a =
      let (first, a') = load_type_byte 193 1 (x ∷ y ∷ rest) refl refl a in
      let second = read-Ahead (advanced s 1) (x ∷ y ∷ []) rest a' law in
      rw first (refl, rw (second.0, e, load_integer) (ap (value v) (advanced-advanced s 1 2 law)))

  load_32 :
      (v : ℤ) (x y z w : ℕ)
      → int32_of (x ∷ y ∷ z ∷ w ∷ []) ≡ v
      → Ahead s (194 ∷ x ∷ y ∷ z ∷ w ∷ rest)
      → Loads v (194 ∷ x ∷ y ∷ z ∷ w ∷ [])
  unfolding load_integer
  load_32 v x y z w e a =
      let (first, a') = load_type_byte 194 2 (x ∷ y ∷ z ∷ w ∷ rest) refl refl a in
      let second = read-Ahead (advanced s 1) (x ∷ y ∷ z ∷ w ∷ []) rest a' law in
      rw first (refl, rw (second.0, e, load_integer) (ap (value v) (advanced-advanced s 1 4 law)))

  loads : (v : ℤ) → InBits 32 v → Ahead s (encode_integer v ++ rest) → Loads v (encode_integer v)
  loads v h = elim (size_cases v) [
    | inl small ↦ rw (encode_8 v small) (load_8 v (low_byte v) (decode_8 v small))
    | inr (inl (over, small)) ↦
        rw (encode_16 v over small) (load_16 v (low_byte v) (byte_of 8 v) (decode_16 v small))
    | inr (inr (inl (over, small))) ↦
        rw (encode_32 v over small)
          (load_32 v (low_byte v) (byte_of 8 v) (byte_of 16 v) (byte_of 24 v) (decode_32 v small))
    | inr (inr (inr over)) ↦ absurd (over h)
  ]

-- A value of 32 bits is loaded again where the bytes that `rdbEncodeInteger` gave come next:
-- `rdbLoadLen` gives an encoding type, with which `rdbLoadIntegerObject` gives the value, past
-- exactly these bytes.
pub load_integer-encode_integer :
    (s : Rio Buffer) (v : ℤ) (rest : List ℕ)
    → IsChunkwise s.update_cksum
    → InBits 32 v
    → Ahead s (encode_integer v ++ rest)
    → ((load_len buffer_backend s).1 ≡ true)
      × (load_integer buffer_backend (load_len buffer_backend s).2 (load_len buffer_backend s).0
          ≡ value v (advanced s (length (encode_integer v))))
load_integer-encode_integer s v rest law h a = loads s law rest v h a
