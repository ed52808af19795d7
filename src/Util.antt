-- ===== src/Util.antt =====
-- redis-stable/src/util.c: numbers as text. A `char` is a number below 256; the comparisons of the
-- source with digits do not depend on its sign.
mod Digits
pub mod Numbers
mod Tests
use better_efisis.Prelude.{
  ℕ, zero, suc, ◌+◌, ◌-◌, ◌*◌, ◌/◌, ◌%◌, ◌^◌, Bool, true, false, not, ◌&&◌, Option, none, some,
  List, [], ◌∷◌, ltb, leb, ◌==◌, if◌then◌else◌, length, take,
}
use better_efisis.Prelude.Int.{ℤ, pos, negsuc, ltb_ℤ}

-- The loop of `ll2string` in front of the characters that are already in `buf`.
unfoldable pub digits_loop : ℕ → ℕ → List ℕ → List ℕ
digits_loop zero v buf = buf
digits_loop (suc fuel) v buf =
    let more = digits_loop fuel (v / 10) ((b'0' + v % 10) ∷ buf) in
    if v / 10 == 0 then (b'0' + v % 10) ∷ buf else more

-- The text of `ll2string` in `buf`, which has 32 characters.
unfoldable pub text : ℤ → List ℕ
text (pos n) = digits_loop 32 n []
text (negsuc n) = b'-' ∷ digits_loop 32 (suc n) []

-- `ll2string`: the characters in front of the final 0, as many as it returns.
unfoldable pub ll2string : ℕ → ℤ → List ℕ
unfolding text
ll2string len value =
    let l = length (text value) in
    if len == 0 then [] else take (if ltb len (l + 1) then len - 1 else l) (text value)

abbrev pub is_digit : ℕ → Bool
is_digit c = leb b'0' c && leb c b'9'

abbrev pub ullong_max : ℕ
ullong_max = 2 ^ 64 - 1

-- The loop of `string2ll`: the number and the characters that were not read; none on overflow.
unfoldable pub scan : ℕ → List ℕ → Option (ℕ × List ℕ)
scan v [] = some (v, [])
scan v (c ∷ cs) =
    let rest = scan (v * 10 + (c - b'0')) cs in
    if is_digit c
    then if ltb (ullong_max / 10) v
      then none
      else if ltb (ullong_max - (c - b'0')) (v * 10)
      then none
      else rest
    else some (v, c ∷ cs)

-- The end of `string2ll`. `-v` of an unsigned number is stored in a signed one.
unfoldable pub signed : Bool → ℕ × List ℕ → Option ℤ
signed negative (v, c ∷ cs) = none
signed true (v, []) =
    if ltb (2 ^ 63 - 1 + 1) v then none else some (if v == 0 then pos 0 else negsuc (v - 1))
signed false (v, []) = if ltb (2 ^ 63 - 1) v then none else some (pos v)

-- `string2ll` from the first digit on.
unfoldable pub unsigned_part : Bool → ℕ → List ℕ → Option ℤ
unfolding scan signed
unsigned_part negative slen [] = none
unsigned_part negative slen (c ∷ cs) =
    if leb b'1' c && leb c b'9'
    then elim (scan (c - b'0') cs) [ none ↦ none | some r ↦ signed negative r ]
    else if c == b'0' && slen == 1
    then some (pos 0)
    else none

-- `string2ll`: the value that it stores; none for the result 0.
unfoldable pub string2ll : List ℕ → Option ℤ
string2ll [] = none
string2ll (c ∷ cs) =
    let slen = length (c ∷ cs) in
    if slen == 1 && c == b'0'
    then some (pos 0)
    else if c == b'-'
    then unsigned_part true slen cs
    else unsigned_part false slen (c ∷ cs)

-- `string2l`, where a `long` has 64 bits.
unfoldable pub string2l : List ℕ → Option ℤ
string2l s = elim (string2ll s) [
  | none ↦ none
  | some v ↦
      if ltb_ℤ v (negsuc (2 ^ 63 - 1))
      then none
      else if ltb_ℤ (pos (2 ^ 63 - 1)) v
      then none
      else some v
]
