-- ===== src/Rdb.antt =====
-- redis-stable/src/rdb.c: types, lengths and integers in an RDB stream. A return value of -1 (or of
-- 0 from `rioRead`) is `none`; `htonl` and `ntohl` are the bytes of a word, the high one first.
pub mod Length
pub mod Integer
mod Tests
use Prim.Native.Nat.{bit_and, bit_or}
use better_efisis.Prelude.{
  ℕ, ◌+◌, ◌-◌, ◌*◌, ◌/◌, ◌%◌, ◌^◌, Bool, true, false, not, ◌&&◌, Option, none, some, List, [], ◌∷◌,
  ltb, ◌==◌, if◌then◌else◌, length,
}
use better_efisis.Prelude.Int.{ℤ, pos, negsuc, ltb_ℤ, to_word, of_word}
use better_efisis.Rio
use better_efisis.Rio.{Rio, Backend}

-- REDIS_RDB_LENERR
abbrev pub lenerr : ℕ
lenerr = 2 ^ 32 - 1

-- A byte with the encoding type in its two high bits.
abbrev pub tagged : ℕ → ℕ → ℕ
tagged low tag = bit_or low (tag * 2 ^ 6)

-- REDIS_RDB_ENCVAL<<6 | enc
abbrev pub encval : ℕ → ℕ
encval enc = bit_or (3 * 2 ^ 6) enc

-- `htonl`: a word as four bytes, the high one first.
abbrev pub big_endian : ℕ → List ℕ
big_endian w = w / 2 ^ 24 % 256 ∷ w / 2 ^ 16 % 256 ∷ w / 2 ^ 8 % 256 ∷ w % 256 ∷ []

-- `ntohl`
abbrev pub of_big_endian : List ℕ → ℕ
of_big_endian (a ∷ b ∷ c ∷ d ∷ []) = a * 2 ^ 24 + b * 2 ^ 16 + c * 2 ^ 8 + d
of_big_endian _ = 0

-- `rdbEncodeInteger`: what it stores in `enc`, as many bytes as it returns; none for 0. The word
-- is the value in two's complement, so that its shifts keep the bits that are stored.
unfoldable pub encode_integer : ℤ → List ℕ
encode_integer value =
    let w = to_word 64 value in
    if not (ltb_ℤ value (negsuc (2 ^ 7 - 1))) && not (ltb_ℤ (pos (2 ^ 7 - 1)) value)
    then encval 0 ∷ bit_and w 0xff ∷ []
    else if not (ltb_ℤ value (negsuc (2 ^ 15 - 1))) && not (ltb_ℤ (pos (2 ^ 15 - 1)) value)
    then encval 1 ∷ bit_and w 0xff ∷ bit_and (w / 2 ^ 8) 0xff ∷ []
    else if not (ltb_ℤ value (negsuc (2 ^ 31 - 1))) && not (ltb_ℤ (pos (2 ^ 31 - 1)) value)
    then encval 2
      ∷ bit_and w 0xff
      ∷ bit_and (w / 2 ^ 8) 0xff
      ∷ bit_and (w / 2 ^ 16) 0xff
      ∷ bit_and (w / 2 ^ 24) 0xff
      ∷ []
    else []

-- What `rdbLoadIntegerObject` ends in: the value of the object, NULL, or the panic.
pub data Loaded (S : Type 0) : Type 0 where
  value : ℤ → Rio S → Loaded S
  null : Loaded S
  panic : Loaded S

-- `(signed char)enc[0]`, and the words put together from the bytes that were read.
abbrev pub int8_of : List ℕ → ℤ
int8_of (a ∷ []) = of_word 8 a
int8_of _ = pos 0

abbrev pub int16_of : List ℕ → ℤ
int16_of (a ∷ b ∷ []) = of_word 16 (bit_or a (b * 2 ^ 8))
int16_of _ = pos 0

abbrev pub int32_of : List ℕ → ℤ
int32_of (a ∷ b ∷ c ∷ d ∷ []) =
    of_word 32 (bit_or (bit_or (bit_or a (b * 2 ^ 8)) (c * 2 ^ 16)) (d * 2 ^ 24))
int32_of _ = pos 0

module _ {S : Type 0} (backend : Backend S) where
  -- `rdbWriteRaw`, for a stream that is not NULL.
  unfoldable pub write_raw : Rio S → List ℕ → Option (ℕ × Rio S)
  write_raw r p = elim (Rio.write backend r p) [ none ↦ none | some r' ↦ some (length p, r') ]

  -- `rdbSaveType` and `rdbLoadType`
  unfoldable pub save_type : Rio S → ℕ → Option (ℕ × Rio S)
  unfolding write_raw
  save_type r type = write_raw r (type ∷ [])

  unfoldable pub load_type : Rio S → Option (List ℕ × Rio S)
  load_type r = Rio.read backend r 1

  -- `rdbSaveLen`
  unfoldable pub save_len : Rio S → ℕ → Option (ℕ × Rio S)
  unfolding write_raw
  save_len r len =
      if ltb len (2 ^ 6)
      then write_raw r (tagged (bit_and len 0xff) 0 ∷ [])
      else if ltb len (2 ^ 14)
      then write_raw r (tagged (bit_and (len / 2 ^ 8) 0xff) 1 ∷ bit_and len 0xff ∷ [])
      else elim (write_raw r (2 * 2 ^ 6 ∷ [])) [
        | none ↦ none
        | some (_, r') ↦ elim (write_raw r' (big_endian len)) [
          | none ↦ none
          | some (_, r'') ↦ some (1 + 4, r'')
        ]
      ]

  -- The branches of `rdbLoadLen` on the two high bits of the first byte.
  unfoldable pub load_len_by : ℕ → Rio S → ℕ × Bool × Rio S
  load_len_by b r =
      let type = bit_and b 0xc0 / 2 ^ 6 in
      if type == 3
      then (bit_and b 0x3f, true, r)
      else if type == 0
      then (bit_and b 0x3f, false, r)
      else if type == 1
      then elim (Rio.read backend r 1) [
        | some (c ∷ [], r') ↦ (bit_or (bit_and b 0x3f * 2 ^ 8) c, false, r')
        | _ ↦ (lenerr, false, r)
      ]
      else elim (Rio.read backend r 4) [
        | some (bs, r') ↦ (of_big_endian bs, false, r')
        | none ↦ (lenerr, false, r)
      ]

  -- `rdbLoadLen`, with `*isencoded`. After a failed read the stream is given as it was before.
  unfoldable pub load_len : Rio S → ℕ × Bool × Rio S
  unfolding load_len_by
  load_len r = elim (Rio.read backend r 1) [
    | some (b ∷ [], r') ↦ load_len_by b r'
    | _ ↦ (lenerr, false, r)
  ]

  -- `rdbLoadIntegerObject`, up to the object that it makes of the value.
  unfoldable pub load_integer : Rio S → ℕ → Loaded S
  load_integer r enctype =
      if enctype == 0
      then elim (Rio.read backend r 1) [ none ↦ null | some (bs, r') ↦ value (int8_of bs) r' ]
      else if enctype == 1
      then elim (Rio.read backend r 2) [ none ↦ null | some (bs, r') ↦ value (int16_of bs) r' ]
      else if enctype == 2
      then elim (Rio.read backend r 4) [ none ↦ null | some (bs, r') ↦ value (int32_of bs) r' ]
      else panic
