-- ===== src/Ziplist.antt =====
-- redis-stable/src/ziplist.c: how an entry of a ziplist is written and read. Bytes are numbers; where
-- the source joins bits that do not overlap, or keeps the low ones, the model adds and takes `%`.
pub mod Codes
pub mod Entries
mod Tests
use mathlib.Core.Option
use better_efisis.Prelude.{
  ℕ, zero, suc, ◌+◌, ◌-◌, ◌*◌, ◌/◌, ◌%◌, ◌^◌, Bool, true, false, not, ◌&&◌, ◌||◌, Option, none,
  some, List, [], ◌∷◌, ◌++◌, ltb, leb, ◌==◌, if◌then◌else◌, length, take, drop,
}
use better_efisis.Prelude.Int.{ℤ, pos, negsuc, ltb_ℤ, to_word, of_word}
use better_efisis.Util.{string2ll}

-- The bytes of a word as they lie in memory, the low one first, and the word of as many bytes.
abbrev pub bytes_of : ℕ → ℕ → List ℕ
bytes_of zero w = []
bytes_of (suc k) w = w % 256 ∷ bytes_of k (w / 256)

abbrev pub word_of : ℕ → List ℕ → ℕ
word_of zero p = 0
word_of (suc k) [] = 0
word_of (suc k) (b ∷ p) = b + 256 * word_of k p

-- ZIP_IS_STR
abbrev pub is_str : ℕ → Bool
is_str enc = ltb (enc / 64) 3

-- ZIP_ENTRY_ENCODING, of the first byte
abbrev pub entry_encoding : ℕ → ℕ
entry_encoding b = if ltb b 0xc0 then b / 64 * 64 else b

-- `zipIntSize`
abbrev pub int_size : ℕ → ℕ
int_size enc =
    if enc == 0xfe
    then 1
    else if enc == 0xc0
    then 2
    else if enc == 0xf0
    then 3
    else if enc == 0xd0
    then 4
    else if enc == 0xe0
    then 8
    else 0

-- `zipEncodeLength`
unfoldable pub encode_length : ℕ → ℕ → List ℕ
encode_length enc rawlen =
    if is_str enc
    then (if leb rawlen 0x3f
        then rawlen ∷ []
        else if leb rawlen 0x3fff
        then (64 + rawlen / 256 % 64) ∷ rawlen % 256 ∷ []
        else 128
          ∷ rawlen / 2 ^ 24 % 256
          ∷ rawlen / 2 ^ 16 % 256
          ∷ rawlen / 2 ^ 8 % 256
          ∷ rawlen % 256
          ∷ [])
    else enc ∷ []

-- ZIP_DECODE_LENGTH: the encoding, `lensize` and `len`; none is a failed assertion or a read past the
-- end.
unfoldable pub decode_length : List ℕ → Option (ℕ × ℕ × ℕ)
decode_length [] = none
decode_length (b ∷ p) =
    let enc = entry_encoding b in
    if ltb enc 0xc0
    then (if enc == 0
        then some (enc, 1, b % 64)
        else if enc == 64
        then elim p [ [] ↦ none | c ∷ _ ↦ some (enc, 2, b % 64 * 256 + c) ]
        else if enc == 128
        then elim p [
          | c ∷ d ∷ e ∷ f ∷ _ ↦ some (enc, 5, c * 2 ^ 24 + d * 2 ^ 16 + e * 2 ^ 8 + f)
          | _ ↦ none
        ]
        else none)
    else some (enc, 1, int_size enc)

-- `zipPrevEncodeLength`, with ZIP_BIGLEN for 254
unfoldable pub encode_prev : ℕ → List ℕ
encode_prev len = if ltb len 254 then len ∷ [] else 254 ∷ bytes_of 4 len

-- ZIP_DECODE_PREVLEN: `prevlensize` and `prevlen`
unfoldable pub decode_prev : List ℕ → Option (ℕ × ℕ)
decode_prev [] = none
decode_prev (b ∷ p) = if ltb b 254 then some (1, b) else some (5, word_of 4 p)

abbrev within : ℤ → ℤ → ℤ → Bool
within low high v = not (ltb_ℤ v low) && not (ltb_ℤ high v)

-- The encoding that `zipTryEncoding` picks for a value.
unfoldable pub encoding_for : ℤ → ℕ
encoding_for v =
    if within (pos 0) (pos 12) v
    then elim v [ pos n ↦ 0xf1 + n | negsuc n ↦ 0 ]
    else if within (negsuc (2 ^ 7 - 1)) (pos (2 ^ 7 - 1)) v
    then 0xfe
    else if within (negsuc (2 ^ 15 - 1)) (pos (2 ^ 15 - 1)) v
    then 0xc0
    else if within (negsuc (2 ^ 23 - 1)) (pos (2 ^ 23 - 1)) v
    then 0xf0
    else if within (negsuc (2 ^ 31 - 1)) (pos (2 ^ 31 - 1)) v
    then 0xd0
    else 0xe0

-- `zipTryEncoding`
unfoldable pub try_encoding : List ℕ → Option (ℤ × ℕ)
try_encoding s =
    if leb 32 (length s) || length s == 0
    then none
    else elim (string2ll s) [ none ↦ none | some v ↦ some (v, encoding_for v) ]

abbrev pub is_imm : ℕ → Bool
is_imm enc = leb 0xf1 enc && leb enc 0xfd

-- `zipSaveInteger`; none is a failed assertion.
unfoldable pub save_value : ℤ → ℕ → Option (List ℕ)
save_value v enc =
    if enc == 0xfe
    then some (bytes_of 1 (to_word 8 v))
    else if enc == 0xc0
    then some (bytes_of 2 (to_word 16 v))
    else if enc == 0xf0
    then some (drop 1 (bytes_of 4 (to_word 32 v * 2 ^ 8 % 2 ^ 32)))
    else if enc == 0xd0
    then some (bytes_of 4 (to_word 32 v))
    else if enc == 0xe0
    then some (bytes_of 8 (to_word 64 v))
    else if is_imm enc
    then some []
    else none

-- An arithmetic shift to the right by 8.
abbrev pub shift_byte : ℤ → ℤ
shift_byte (pos n) = pos (n / 2 ^ 8)
shift_byte (negsuc n) = negsuc (n / 2 ^ 8)

-- `zipLoadInteger`
unfoldable pub load_value : List ℕ → ℕ → Option ℤ
load_value p enc =
    if enc == 0xfe
    then some (of_word 8 (word_of 1 p))
    else if enc == 0xc0
    then some (of_word 16 (word_of 2 p))
    else if enc == 0xd0
    then some (of_word 32 (word_of 4 p))
    else if enc == 0xf0
    then some (shift_byte (of_word 32 (word_of 4 (0 ∷ p))))
    else if enc == 0xe0
    then some (of_word 64 (word_of 8 p))
    else if is_imm enc
    then some (pos (enc % 16 - 1))
    else none

-- `zlentry`, without the sum and the pointer.
pub record Zlentry : Type 0 where
  pub prevrawlensize : ℕ
  pub prevrawlen : ℕ
  pub lensize : ℕ
  pub len : ℕ
  pub encoding : ℕ

-- `zipEntry`
unfoldable pub zip_entry : List ℕ → Option Zlentry
zip_entry p = elim (decode_prev p) [
  | none ↦ none
  | some (n, prev) ↦ elim (decode_length (drop n p)) [
    | none ↦ none
    | some (enc, m, l) ↦
        some
          (record { prevrawlensize = n; prevrawlen = prev; lensize = m; len = l; encoding = enc })
  ]
]

-- `zipRawEntryLength`
unfoldable pub raw_entry_length : List ℕ → Option ℕ
raw_entry_length p =
    Option.map (λ (e : Zlentry). (e.prevrawlensize + e.lensize + e.len) % 2 ^ 32) (zip_entry p)

abbrev pub first_byte : List ℕ → ℕ
first_byte [] = 255
first_byte (b ∷ p) = b

-- What `ziplistGet` finds: a string or an integer.
pub data Content : Type 0 where
  str : List ℕ → Content
  int : ℤ → Content

-- `ziplistGet`; none for the end, a failed assertion and a read past the end.
unfoldable pub ziplist_get : List ℕ → Option Content
ziplist_get p = elim (zip_entry p) [
  | none ↦ none
  | some e ↦
      let q = drop (e.prevrawlensize + e.lensize) p in
      if first_byte p == 255
      then none
      else if is_str e.encoding
      then some (str (take e.len q))
      else Option.map int (load_value q e.encoding)
]

-- What `__ziplistInsert` writes for an entry, and `reqlen`, the length that it makes room for.
unfoldable pub write_entry : ℕ → List ℕ → Option (List ℕ)
write_entry prevlen s = elim (try_encoding s) [
  | none ↦ some (encode_prev prevlen ++ (encode_length 0 (length s) ++ s))
  | some (v, enc) ↦
      Option.map (λ b. encode_prev prevlen ++ (encode_length enc (length s) ++ b))
        (save_value v enc)
]

unfoldable pub required_length : ℕ → List ℕ → ℕ
required_length prevlen s = elim (try_encoding s) [
  | none ↦ (length s + length (encode_prev prevlen) + length (encode_length 0 (length s))) % 2 ^ 32
  | some (v, enc) ↦
      (int_size enc + length (encode_prev prevlen) + length (encode_length enc (length s))) % 2 ^ 32
]
