-- ===== src/Dict/Replace.antt =====
-- `dictReplace` of redis-stable/src/dict.c, as an operation of a map.
use mathlib.Core.Path.{subst}
use better_efisis.Prelude.{
  Option-cases, ◌≡◌, sym, ap, ◌∙◌, Bool, true, false, not, Option, some, arith, if◌then◌else◌, inl,
  inr,
}
use better_efisis.Dict.{DictType, Dict, lookup, find, add, overwrite, replace}
use better_efisis.Dict.Table.{compare_self}
use better_efisis.Dict.Moving.{IsValid}
use better_efisis.Dict.Ops.{is_found, or_else, Updated, add-Updated}
use better_efisis.Dict.Change.{overwrite-Updated, find-lookup}

module _ {ℓ} {K V : Type ℓ} (type : DictType K) where
  at_key : (d e : Dict K V) (k : K) (r : Option V) → Updated type d e k r → lookup type e k ≡ r
  at_key d e k r u = u.lookups k ∙ ap (λ b. if b then r else lookup type d k) (compare_self type k)

  Updated-trans :
      (d e f : Dict K V) (k : K) (r r' : Option V)
      → Updated type d e k r
      → Updated type e f k r'
      → Updated type d f k r'
  Updated-trans d e f k r r' u u' = record {
    valid = u'.valid;
    lookups = λ q. ground (arith, u.lookups q, u'.lookups q);
  }

  -- `dictReplace` on a valid dictionary gives a valid one in which the key has the value, and returns
  -- whether the key is new; all other keys keep their values.
  pub replace-Updated :
      (can_resize : Bool) (d : Dict K V) (k : K) (w : V)
      → IsValid type d
      → Updated type d (replace type can_resize d k w).0 k (some w)
        × ((replace type can_resize d k w).1 ≡ not (is_found (lookup type d k)))
  unfolding replace
  replace-Updated can_resize d k w v =
      let a = add type can_resize d k w in
      let (u, added) = add-Updated type can_resize d k w v in
      elim (Option-cases (lookup type d k)) [
        | inl absent ↦
            let new : a.1 ≡ true = added ∙ ap (λ o. not (is_found o)) absent in
            let r : or_else (lookup type d k) w ≡ w = ap (λ o. or_else o w) absent in
            rw (new, replace)
              (
                subst (λ x. Updated type d a.0 k (some x)) r u,
                sym (ap (λ o. not (is_found o)) absent),
              )
        | inr (old, present) ↦
            let there : a.1 ≡ false = added ∙ ap (λ o. not (is_found o)) present in
            let f = find type a.0 k in
            let (g, same_value) = find-lookup type a.0 k u.valid in
            let seen : lookup type f.0 k ≡ some (or_else (lookup type d k) w) =
              at_key a.0 f.0 k (lookup type a.0 k) g
              ∙ at_key d a.0 k (some (or_else (lookup type d k) w)) u in
            let changed_value = overwrite-Updated type f.0 k g.valid w (ap is_found seen) in
            rw (there, replace)
              (
                Updated-trans d a.0 (overwrite type f.0 k w) k (some (or_else (lookup type d k) w))
                    (some w) u
                    (Updated-trans a.0 f.0 (overwrite type f.0 k w) k (lookup type a.0 k) (some w) g
                      changed_value),
                sym (ap (λ o. not (is_found o)) present),
              )
      ]
