-- ===== src/Intset/Tests.antt =====
-- Runs of the functions of redis-stable/src/intset.c, and the theorems at concrete sets.
use better_efisis.Prelude.{◌≡◌, refl, ◌↔◌, true, false, some, none, arith}
use better_efisis.Prelude.Int.{pos, negsuc}
use better_efisis.Blob.{load, store, realloc, memmove}
use better_efisis.Intset.{
  Intset, get, value_encoding, new, search, upgrade_and_add, insert_at, add, delete_at, remove,
  find, get_at, blob_len, set, resize, get_encoded, move_tail, upgrade_loop, search_loop,
}
use better_efisis.Intset.Shape.{IsValid, IsMember}
use better_efisis.Intset.Ops.{new-IsValid, Added, add-Added, Removed, remove-Removed, find_iff}

program : Unit {0}
unfolding load store realloc memmove value_encoding get search upgrade_and_add insert_at delete_at
    add remove find new get_at blob_len set resize get_encoded move_tail upgrade_loop search_loop
program = tt

abbrev five : Intset
five = (add new (pos 5)).0

abbrev pair : Intset
pair = (add five (negsuc 6)).0

-- 70000 needs slots of four bytes.
abbrev wide : Intset
wide = (add pair (pos 70000)).0

wide_values :
    (wide.encoding ≡ 4)
    × (get_at wide 0 ≡ some (negsuc 6))
    × (get_at wide 1 ≡ some (pos 5))
    × (get_at wide 2 ≡ some (pos 70000))
    × (get_at wide 3 ≡ none)
    × (blob_len wide ≡ 20)
unfolding program
wide_values = (refl, refl, refl, refl, refl, refl)

remove_middle : find (remove wide (pos 5)).0 (pos 5) ≡ false
unfolding program
remove_middle = refl

five-IsValid : IsValid five
unfolding new
five-IsValid = (add-Added new (pos 5) new-IsValid.0 (omega arith) (omega arith)).valid

pair-IsValid : IsValid pair
unfolding program
pair-IsValid = (add-Added five (negsuc 6) five-IsValid (omega arith) (omega arith)).valid

add-Added_example : Added pair (pos 70000) (add pair (pos 70000))
unfolding program
add-Added_example = add-Added pair (pos 70000) pair-IsValid (omega arith) (omega arith)

remove-Removed_example : Removed pair (pos 5) (remove pair (pos 5))
remove-Removed_example = remove-Removed pair (pos 5) pair-IsValid (omega arith)

find_iff_example : (find pair (pos 5) ≡ true) ↔ IsMember pair (pos 5)
find_iff_example = find_iff pair (pos 5) pair-IsValid (omega arith)
