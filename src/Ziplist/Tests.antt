-- ===== src/Ziplist/Tests.antt =====
-- Entries of redis-stable/src/ziplist.c after one of 300 bytes, before the end of the list.
use better_efisis.Prelude.{ℕ, ◌≡◌, refl, none, some, List, [], ◌∷◌, length, arith}
use better_efisis.Util.{string2ll, unsigned_part}
use better_efisis.Ziplist.{
  encode_prev, encode_length, encoding_for, try_encoding, save_value, write_entry, required_length,
}
use better_efisis.Ziplist.Entries.{Reads, write_entry-Reads}

abbrev number : List ℕ
number = b'-' ∷ b'9' ∷ b'9' ∷ b'9' ∷ []

abbrev ending : List ℕ
ending = 255 ∷ []

is_short : try_encoding (b'h' ∷ b'i' ∷ []) ≡ none
unfolding try_encoding string2ll unsigned_part
is_short = refl

-- A length of 300 takes five bytes, and -999 two.
takes_two : write_entry 300 number ≡ some (254 ∷ 44 ∷ 1 ∷ 0 ∷ 0 ∷ 0xc0 ∷ 25 ∷ 252 ∷ [])
unfolding write_entry try_encoding string2ll encode_prev encode_length encoding_for save_value
    unsigned_part
takes_two = refl

write_entry-Reads_example :
    (bs : List ℕ) × (write_entry 300 number ≡ some bs)
    × (length bs ≡ required_length 300 number)
    × Reads bs ending 300 number
write_entry-Reads_example = write_entry-Reads 300 number ending (omega arith) (omega arith)
