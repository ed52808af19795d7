-- ===== src/Util/Tests.antt =====
-- The number -120 of redis-stable/src/util.c as text.
use better_efisis.Prelude.{ℕ, ◌≡◌, ◌↔◌, refl, some, none, List, [], ◌∷◌, arith}
use better_efisis.Prelude.Int.{negsuc, InBits}
use better_efisis.Util.{digits_loop, text, ll2string, scan, signed, unsigned_part, string2ll}
use better_efisis.Util.Numbers.{string2ll-ll2string}

abbrev minus_120 : List ℕ
minus_120 = b'-' ∷ b'1' ∷ b'2' ∷ b'0' ∷ []

reads : string2ll minus_120 ≡ some (negsuc 119)
unfolding string2ll unsigned_part scan signed
reads = refl

writes : ll2string 21 (negsuc 119) ≡ minus_120
unfolding ll2string text digits_loop
writes = refl

leading_zero : string2ll (b'0' ∷ b'1' ∷ []) ≡ none
unfolding string2ll unsigned_part
leading_zero = refl

string2ll-ll2string_example :
    (string2ll minus_120 ≡ some (negsuc 119))
    ↔ (InBits 64 (negsuc 119) × (ll2string 21 (negsuc 119) ≡ minus_120))
string2ll-ll2string_example = string2ll-ll2string 21 minus_120 (negsuc 119) (omega arith)
