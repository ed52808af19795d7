-- ===== src/Dict/Rewrite.antt =====
-- One table of redis-stable/src/dict.c where an entry is taken out, or its value set.
use mathlib.Core.Path.{subst}
use better_efisis.Prelude.{
  ◌+◌, ◌-◌, ◌<◌, ◌≡◌, sym, ◌∙◌, Bool, false, ◌∷◌, arith, if◌then◌else◌, length, drop, Bool-cases,
  inl, inr,
}
use better_efisis.Dict.{DictType, HashTable, index, bucket, unlink, set_val, remove_from, at_bucket}
use better_efisis.Dict.Hits.{
  hits-unlink, hits-unlink_other, hits-set_val, hits-set_val_other, length-unlink, length-set_val,
}
use better_efisis.Dict.Table.{
  length-get_or-le, shown, values, IsTable, compare_apart, written-IsTable, written_self,
  written_other, room_of_shown,
}

module _ {ℓ} {K V : Type ℓ} (type : DictType K) where
  -- The entry of a key that has one is taken out, or gets another value.
  module _ (t : HashTable K V) (k : K) (v : IsTable type t)
      (there : 0 < length (shown type t k)) where
    abbrev same : K → Bool
    same = type.key_compare k

    removed_others :
        (q : K)
        → type.key_compare q k ≡ false
        → values type q (unlink same (bucket type t k)) ≡ values type q (bucket type t k)
    removed_others q ne =
        hits-unlink_other same (type.key_compare q) (compare_apart type k q ne) (bucket type t k)

    removed_sum :
        t.used - 1 + length (bucket type t k) ≡ t.used + length (unlink same (bucket type t k))
    removed_sum = omega (
      arith,
      length-unlink same (bucket type t k) there,
      v.counted,
      length-get_or-le t.table (index type t k),
    )

    pub removed-IsTable : IsTable type (remove_from type t k)
    removed-IsTable =
        written-IsTable type t k (unlink same (bucket type t k)) (t.used - 1)
          (room_of_shown type t k there) v removed_others removed_sum

    pub shown-removed :
        (q : K)
        → shown type (remove_from type t k) q
          ≡ (if type.key_compare q k then drop 1 (shown type t q) else shown type t q)
    shown-removed q = elim (Bool-cases (type.key_compare q k)) [
      | inl eq ↦ rw eq (
          subst (λ j. shown type (remove_from type t k) j ≡ drop 1 (shown type t j))
            (sym ((type.key_compare_iff q k).0 eq))
            (written_self type t k (unlink same (bucket type t k)) (t.used - 1)
                (room_of_shown type t k there) v removed_others removed_sum
              ∙ hits-unlink same (bucket type t k)))
      | inr ne ↦ rw ne (
          written_other type t k (unlink same (bucket type t k)) (t.used - 1)
            (room_of_shown type t k there) v removed_others removed_sum q ne)
    ]

    module _ (w : V) where
      changed_others :
          (q : K)
          → type.key_compare q k ≡ false
          → values type q (set_val same w (bucket type t k)) ≡ values type q (bucket type t k)
      changed_others q ne =
          hits-set_val_other same (type.key_compare q) (compare_apart type k q ne) w
            (bucket type t k)

      changed_sum :
          t.used + length (bucket type t k) ≡ t.used + length (set_val same w (bucket type t k))
      changed_sum = omega (arith, length-set_val same w (bucket type t k))

      abbrev pub changed : HashTable K V
      changed = at_bucket type t k (set_val same w (bucket type t k))

      pub changed-IsTable : IsTable type changed
      changed-IsTable =
          written-IsTable type t k (set_val same w (bucket type t k)) t.used
            (room_of_shown type t k there) v changed_others changed_sum

      pub shown-changed :
          (q : K)
          → shown type changed q
            ≡ (if type.key_compare q k then w ∷ drop 1 (shown type t q) else shown type t q)
      shown-changed q = elim (Bool-cases (type.key_compare q k)) [
        | inl eq ↦ rw eq (
            subst (λ j. shown type changed j ≡ w ∷ drop 1 (shown type t j))
              (sym ((type.key_compare_iff q k).0 eq))
              (written_self type t k (set_val same w (bucket type t k)) t.used
                  (room_of_shown type t k there) v changed_others changed_sum
                ∙ hits-set_val same w (bucket type t k) there))
        | inr ne ↦ rw ne (
            written_other type t k (set_val same w (bucket type t k)) t.used
              (room_of_shown type t k there) v changed_others changed_sum q ne)
      ]
