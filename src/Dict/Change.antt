-- ===== src/Dict/Change.antt =====
-- `dictDelete` and `dictFind` of redis-stable/src/dict.c, as operations of a map.
use mathlib.Core.Path.{subst}
use mathlib.Core.Bool.{false≢true}
use better_efisis.Prelude.{
  ℕ, ◌-◌, ◌≤◌, ◌<◌, ◌≡◌, refl, sym, ap, ◌∙◌, Bool, true, false, none, some, List, [], ◌∷◌, ◌++◌,
  arith, if◌then◌else◌, ◌==◌, length, get_or, set, length-set, get_or-set_ne, append-nil,
  Bool-cases, inl, inr, eq_cases,
}
use better_efisis.Dict.{
  DictType, HashTable, Dict, is_rehashing, find_in, index, bucket, unlink, set_val, stepped, second,
  lookup, find, delete, delete_found, overwrite,
}
use better_efisis.Dict.Hits.{first, find_in-hits, empty_of_length, length-hits}
use better_efisis.Dict.Table.{shown, IsTable, room_of_shown}
use better_efisis.Dict.Rewrite.{removed-IsTable, shown-removed, changed-IsTable, shown-changed}
use better_efisis.Dict.Moving.{IsValid}
use better_efisis.Dict.Rehash.{Same, stepped-Same}
use better_efisis.Dict.Grow.{no_second}
use better_efisis.Dict.Ops.{
  is_found, Updated, updated, unchanged, Updated-Same, shown_cases, lookup-view, lookup-Same,
}

second-none {ℓ} : {V : Type ℓ} (b : Bool) → second {V = V} b none ≡ none
second-none true = refl
second-none false = refl

module _ {ℓ} {K V : Type ℓ} (type : DictType K) where
  -- No table, no value.
  lookup_no_table :
      (d : Dict K V) (k : K) → IsValid type d → length d.ht0.table ≡ 0 → lookup type d k ≡ none
  lookup_no_table d k v none_yet = elim (Bool-cases (is_rehashing d)) [
    | inl busy ↦ absurd (omega (arith, v.old_there busy))
    | inr idle ↦
        let here : shown type d.ht0 k ≡ [] = elim (shown_cases (shown type d.ht0 k)) [
          | inl e ↦ e
          | inr (w, ws, e) ↦
              absurd (omega (arith, room_of_shown type d.ht0 k (omega (arith, ap length e))))
        ] in
        lookup-view type d k v
        ∙ ap first (ap (λ l. l ++ shown type d.ht1 k) here ∙ no_second type d v idle k)
  ]

  -- The bucket of a key that the old table has is rewritten, so that the table has `r` for it.
  module _ (d : Dict K V) (k : K) (v : IsValid type d) (b : List (K × V)) (n : ℕ) (r : List V)
      (there : 0 < length (shown type d.ht0 k)) (fits : length r ≤ 1) where
    abbrev t : HashTable K V
    t = record { table = set d.ht0.table (index type d.ht0 k) b; used = n }

    in_old :
        IsTable type t
        → ((q : K) → shown type t q ≡ (if type.key_compare q k then r else shown type d.ht0 q))
        → Updated type d (record d { ht0 = t }) k (first r)
    in_old w show =
        updated type d (record d { ht0 = t }) k r v
          (record {
            table0 = w;
            table1 = v.table1;
            once = λ q. ground (arith, v.once q, show q, only q);
            idle = v.idle;
            ready = v.ready;
            old_there =
                λ e. omega (arith, v.old_there e, length-set d.ht0.table (index type d.ht0 k) b);
            swept = λ m i e lt. elim (eq_cases i (index type d.ht0 k)) [
              | inl here ↦ absurd (
                  omega (
                    arith,
                    length-hits (type.key_compare k) (bucket type d.ht0 k),
                    ap length (ap (λ j. get_or d.ht0.table j []) (sym here) ∙ v.swept m i e lt),
                  ))
              | inr ne ↦ get_or-set_ne d.ht0.table (index type d.ht0 k) i b [] ne ∙ v.swept m i e lt
            ];
          })
          (λ q. ground (arith, show q, only q, append-nil r))
      where
        only : (q : K) → type.key_compare q k ≡ true → shown type d.ht1 q ≡ []
        only q eq =
            let e = (type.key_compare_iff q k).0 eq in
            ap (shown type d.ht1) e ∙ empty_of_length (shown type d.ht1 k) (omega (arith, v.once k))

  -- The same for a key that only the new table has.
  module _ (d : Dict K V) (k : K) (v : IsValid type d) (b : List (K × V)) (n : ℕ) (r : List V)
      (there : 0 < length (shown type d.ht1 k)) (fits : length r ≤ 1) where
    abbrev u : HashTable K V
    u = record { table = set d.ht1.table (index type d.ht1 k) b; used = n }

    in_new :
        IsTable type u
        → ((q : K) → shown type u q ≡ (if type.key_compare q k then r else shown type d.ht1 q))
        → Updated type d (record d { ht1 = u }) k (first r)
    in_new w show =
        updated type d (record d { ht1 = u }) k r v
          (record {
            table0 = v.table0;
            table1 = w;
            once = λ q. ground (arith, v.once q, show q, only q);
            idle = λ e. absurd (omega (arith, there, ap length (no_second type d v e k)));
            ready = λ e. omega (arith, v.ready e, length-set d.ht1.table (index type d.ht1 k) b);
            old_there = v.old_there;
            swept = v.swept;
          })
          (λ q. ground (arith, show q, only q))
      where
        only : (q : K) → type.key_compare q k ≡ true → shown type d.ht0 q ≡ []
        only q eq =
            let e = (type.key_compare_iff q k).0 eq in
            ap (shown type d.ht0) e ∙ empty_of_length (shown type d.ht0 k) (omega (arith, v.once k))

  itself : (d : Dict K V) → IsValid type d → Same type d d
  itself d v = record { valid = v; views = λ q. refl; iterators = refl }

  -- Where the value of a key stands.
  data Where (d : Dict K V) (k : K) : Type ℓ where
    old_table : (w : V) → shown type d.ht0 k ≡ w ∷ [] → Where d k
    new_table : (w : V) → shown type d.ht0 k ≡ [] → shown type d.ht1 k ≡ w ∷ [] → Where d k
    nowhere : shown type d.ht0 k ≡ [] → shown type d.ht1 k ≡ [] → Where d k

  one_value : (l : List V) (w : V) (ws : List V) → l ≡ w ∷ ws → length l ≤ 1 → l ≡ w ∷ []
  one_value l w [] e h = e
  one_value l w (x ∷ ws) e h = absurd (omega (arith, ap length e))

  find-Where : (d : Dict K V) (k : K) → IsValid type d → Where d k
  find-Where d k v = elim (shown_cases (shown type d.ht0 k)) [
    | inr (w, ws, e) ↦
        Where.old_table w (one_value (shown type d.ht0 k) w ws e (omega (arith, v.once k)))
    | inl e ↦ elim (shown_cases (shown type d.ht1 k)) [
      | inr (w, ws, f) ↦
          Where.new_table w e (one_value (shown type d.ht1 k) w ws f (omega (arith, v.once k)))
      | inl f ↦ Where.nowhere e f
    ]
  ]

  busy_of :
      (d : Dict K V) (k : K) (w : V)
      → IsValid type d
      → shown type d.ht1 k ≡ w ∷ []
      → is_rehashing d ≡ true
  busy_of d k w v e = elim (Bool-cases (is_rehashing d)) [
    | inl busy ↦ busy
    | inr idle ↦ absurd (omega (arith, ap length (sym e ∙ no_second type d v idle k)))
  ]

  module _ (d : Dict K V) (k : K) (v : IsValid type d) where
    -- The one value of `k` in a table, seen at an equal key.
    single :
        (t : HashTable K V) (w : V)
        → shown type t k ≡ w ∷ []
        → (q : K) → type.key_compare q k ≡ true
        → shown type t q ≡ w ∷ []
    single t w e q eq = ap (shown type t) ((type.key_compare_iff q k).0 eq) ∙ e

    in_first :
        (w : V)
        → shown type d.ht0 k ≡ w ∷ []
        → (find_in (type.key_compare k) (bucket type d.ht0 k) ≡ some w) × (lookup type d k ≡ some w)
    in_first w e = (
      find_in-hits (type.key_compare k) (bucket type d.ht0 k) ∙ ap first e,
      lookup-view type d k v ∙ ap first (ap (λ l. l ++ shown type d.ht1 k) e),
    )

    in_second :
        (l : List V)
        → shown type d.ht0 k ≡ []
        → shown type d.ht1 k ≡ l
        → (find_in (type.key_compare k) (bucket type d.ht0 k) ≡ none)
          × (find_in (type.key_compare k) (bucket type d.ht1 k) ≡ first l)
          × (lookup type d k ≡ first l)
    in_second l e f = (
      find_in-hits (type.key_compare k) (bucket type d.ht0 k) ∙ ap first e,
      find_in-hits (type.key_compare k) (bucket type d.ht1 k) ∙ ap first f,
      lookup-view type d k v ∙ ap first (ap (λ l. l ++ shown type d.ht1 k) e) ∙ ap first f,
    )

    delete_found-Updated :
        Updated type d (delete_found type d k).0 k none
        × ((delete_found type d k).1 ≡ is_found (lookup type d k))
    unfolding delete_found
    delete_found-Updated = elim (find-Where d k v) [
      | Where.old_table w e ↦
          let there : 0 < length (shown type d.ht0 k) = omega (arith, ap length e) in
          let (found, looked) = in_first w e in
          rw (found, looked, delete_found)
            (
              in_old d k v (unlink (type.key_compare k) (bucket type d.ht0 k)) (d.ht0.used - 1) []
                  there (omega arith) (removed-IsTable type d.ht0 k v.table0 there)
                  (λ q.
                    ground
                      (arith, shown-removed type d.ht0 k v.table0 there q, single d.ht0 w e q)),
              refl,
            )
      | Where.new_table w e f ↦
          let there : 0 < length (shown type d.ht1 k) = omega (arith, ap length f) in
          let (missed, found, looked) = in_second (w ∷ []) e f in
          rw (missed, busy_of d k w v f, found, looked, delete_found)
            (
              in_new d k v (unlink (type.key_compare k) (bucket type d.ht1 k)) (d.ht1.used - 1) []
                  there (omega arith) (removed-IsTable type d.ht1 k v.table1 there)
                  (λ q.
                    ground
                      (arith, shown-removed type d.ht1 k v.table1 there q, single d.ht1 w f q)),
              refl,
            )
      | Where.nowhere e f ↦
          let (missed, found, looked) = in_second [] e f in
          let nothing : second (is_rehashing d) (find_in (type.key_compare k) (bucket type d.ht1 k))
              ≡ none =
            ap (second (is_rehashing d)) found ∙ second-none (is_rehashing d) in
          rw (missed, nothing, looked, delete_found)
            (subst (Updated type d d k) looked (unchanged type d d k v (itself d v)), refl)
    ]

    -- The value is set where the key is found.
    pub overwrite-Updated :
        (w : V)
        → is_found (lookup type d k) ≡ true
        → Updated type d (overwrite type d k w) k (some w)
    unfolding overwrite
    overwrite-Updated w present = elim (find-Where d k v) [
      | Where.old_table u e ↦
          let there : 0 < length (shown type d.ht0 k) = omega (arith, ap length e) in
          let (found, looked) = in_first u e in
          rw (found, overwrite)
            (in_old d k v (set_val (type.key_compare k) w (bucket type d.ht0 k)) d.ht0.used (w ∷ [])
              there (omega arith) (changed-IsTable type d.ht0 k v.table0 there w)
              (λ q.
                ground (arith, shown-changed type d.ht0 k v.table0 there w q, single d.ht0 u e q)))
      | Where.new_table u e f ↦
          let there : 0 < length (shown type d.ht1 k) = omega (arith, ap length f) in
          let (missed, found, looked) = in_second (u ∷ []) e f in
          rw (missed, overwrite)
            (in_new d k v (set_val (type.key_compare k) w (bucket type d.ht1 k)) d.ht1.used (w ∷ [])
              there (omega arith) (changed-IsTable type d.ht1 k v.table1 there w)
              (λ q.
                ground (arith, shown-changed type d.ht1 k v.table1 there w q, single d.ht1 u f q)))
      | Where.nowhere e f ↦
          let (missed, found, looked) = in_second [] e f in
          absurd (false≢true (sym (ap is_found looked) ∙ present))
    ]

  -- `dictDelete` on a valid dictionary gives a valid one without the key, and returns whether the key
  -- was there; all other keys keep their values.
  pub delete-Updated :
      (d : Dict K V) (k : K)
      → IsValid type d
      → Updated type d (delete type d k).0 k none
        × ((delete type d k).1 ≡ is_found (lookup type d k))
  unfolding delete
  delete-Updated d k v = elim (Bool-cases (length d.ht0.table == 0)) [
    | inl none_yet ↦
        let absent = lookup_no_table d k v (ground arith) in
        rw (none_yet, absent, delete)
          (subst (Updated type d d k) absent (unchanged type d d k v (itself d v)), refl)
    | inr some_table ↦
        let s = stepped-Same type d v in
        let done = delete_found-Updated (stepped type d) k s.valid in
        rw (some_table, delete)
          (
            Updated-Same type d (stepped type d) (delete_found type (stepped type d) k).0 k none v s
                done.0,
            done.1 ∙ ap is_found (lookup-Same type d (stepped type d) v s k),
          )
  ]

  -- `dictFind` gives the key's value and changes none.
  pub find-lookup :
      (d : Dict K V) (k : K)
      → IsValid type d
      → Updated type d (find type d k).0 k (lookup type d k) × ((find type d k).1 ≡ lookup type d k)
  unfolding find
  find-lookup d k v = elim (Bool-cases (length d.ht0.table == 0)) [
    | inl none_yet ↦
        rw (none_yet, find)
          (unchanged type d d k v (itself d v), sym (lookup_no_table d k v (ground arith)))
    | inr some_table ↦
        let s = stepped-Same type d v in
        rw (some_table, find)
          (unchanged type d (stepped type d) k v s, lookup-Same type d (stepped type d) v s k)
  ]
