-- ===== src/Dict/Tests.antt =====
-- Small dictionaries of redis-stable/src/dict.c with numbers as keys, one while it is rehashed.
use better_efisis.Prelude.{not, ℕ, ◌≡◌, ◌↔◌, refl, true, false, none, some, arith, ◌==◌}
use better_efisis.Dict.{
  key_index, DictType, Dict, create, expand, next_power, next_power_loop, skip_empty, index, push,
  move, rehash_bucket, rehash_loop, rehash, stepped, lookup, find_in, put, expand_if_needed, add,
  delete, replace, is_rehashing,
}
use better_efisis.Dict.Moving.{IsValid}
use better_efisis.Dict.Rehash.{rehash_ends, create-IsValid}
use better_efisis.Dict.Ops.{Updated, is_found, rehash-lookup, add-Updated}
use better_efisis.Dict.Change.{delete-Updated}
use better_efisis.Dict.Replace.{replace-Updated}

eq_iff : (a b : ℕ) → ((a == b) ≡ true) ↔ (a ≡ b)
eq_iff a b = (λ h. ground arith, λ h. ground arith)

-- Numbers that are their own hash.
abbrev numbers : DictType ℕ
numbers = record { hash_function = λ n. n; key_compare = ◌==◌; key_compare_iff = eq_iff }

-- One entry, four entries, and a fifth that starts a rehashing.
abbrev one : Dict ℕ ℕ
one = (add numbers true create 1 10).0

one-IsValid : IsValid numbers one
one-IsValid = (add-Updated numbers true create 1 10 (create-IsValid numbers)).0.valid

abbrev five : Dict ℕ ℕ
five =
    (add numbers true
      (add numbers true (add numbers true (add numbers true one 2 20).0 3 30).0 4 40).0 6 60).0

five-IsValid : IsValid numbers five
five-IsValid =
    let two = add-Updated numbers true one 2 20 one-IsValid in
    let three = add-Updated numbers true (add numbers true one 2 20).0 3 30 two.0.valid in
    let four =
      add-Updated numbers true (add numbers true (add numbers true one 2 20).0 3 30).0 4 40
        three.0.valid in
    (add-Updated numbers true
      (add numbers true (add numbers true (add numbers true one 2 20).0 3 30).0 4 40).0 6 60
      four.0.valid).0.valid

five-is_rehashing : is_rehashing five ≡ true
unfolding create add key_index stepped rehash rehash_loop expand_if_needed expand next_power
    next_power_loop lookup find_in put push index rehash_bucket skip_empty move
five-is_rehashing = refl

five_used : five.ht0.used ≡ 4
unfolding create add key_index stepped rehash rehash_loop expand_if_needed expand next_power
    next_power_loop lookup find_in put push index rehash_bucket skip_empty move
five_used = refl

add-Updated_example :
    Updated numbers five (add numbers false five 2 25).0 2 (some 20)
    × ((add numbers false five 2 25).1 ≡ false)
unfolding create add key_index stepped rehash rehash_loop expand_if_needed expand next_power
    next_power_loop lookup find_in put push index rehash_bucket skip_empty move
add-Updated_example = add-Updated numbers false five 2 25 five-IsValid

rehash-lookup_example :
    IsValid numbers (rehash numbers five 2).0
    × (lookup numbers (rehash numbers five 2).0 4 ≡ lookup numbers five 4)
rehash-lookup_example = rehash-lookup numbers five 2 4 five-IsValid

rehash_ends_example :
    (is_rehashing (rehash numbers five 5).0 ≡ false) × ((rehash numbers five 5).1 ≡ false)
rehash_ends_example = rehash_ends numbers five 5 five-IsValid (omega (arith, five_used))

delete-Updated_example :
    Updated numbers five (delete numbers five 3).0 3 none
    × ((delete numbers five 3).1 ≡ is_found (lookup numbers five 3))
delete-Updated_example = delete-Updated numbers five 3 five-IsValid

replace-Updated_example :
    Updated numbers five (replace numbers true five 2 25).0 2 (some 25)
    × ((replace numbers true five 2 25).1 ≡ not (is_found (lookup numbers five 2)))
replace-Updated_example = replace-Updated numbers true five 2 25 five-IsValid
