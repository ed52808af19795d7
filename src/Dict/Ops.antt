-- ===== src/Dict/Ops.antt =====
-- The operations of redis-stable/src/dict.c as those of a finite map, whatever the state of the
-- rehashing: `lookup` is what `dictFind` finds.
use mathlib.Core.Path.{subst}
use mathlib.Core.Bool.{false≢true}
use better_efisis.Prelude.{
  length-append, ℕ, ◌<◌, ◌≡◌, ◌⊎◌, refl, sym, ap, ◌∙◌, Bool, true, false, not, Option, none, some,
  List, [], ◌∷◌, arith, if◌then◌else◌, length, Bool-cases, Option-cases, inl, inr,
}
use better_efisis.Dict.{
  key_index, DictType, Dict, is_rehashing, is_some, bucket, push, stepped, lookup, put, add, rehash,
}
use better_efisis.Dict.Hits.{first, find_in-hits, empty_of_length}
use better_efisis.Dict.Table.{shown, push-IsTable, shown-push, length-push}
use better_efisis.Dict.Moving.{IsValid, view}
use better_efisis.Dict.Rehash.{Same, Same-trans, stepped-Same, rehash-Same}
use better_efisis.Dict.Grow.{target, expand_if_needed-Grown, no_second}

module _ {ℓ} {V : Type ℓ} where
  abbrev pub is_found : Option V → Bool
  is_found none = false
  is_found (some v) = true

  abbrev pub or_else : Option V → V → V
  or_else none w = w
  or_else (some v) w = v

  pub shown_cases : (vs : List V) → (vs ≡ []) ⊎ ((v : V) × (ws : List V) × (vs ≡ v ∷ ws))
  shown_cases [] = inl refl
  shown_cases (v ∷ ws) = inr (v, ws, refl)

  pub first-none : (vs : List V) → first vs ≡ none → vs ≡ []
  first-none [] h = refl
  first-none (w ∷ vs) h = cc

module _ {ℓ} {K V : Type ℓ} (type : DictType K) where
  pub lookup-view :
      (d : Dict K V) (k : K) → IsValid type d → lookup type d k ≡ first (view type d k)
  unfolding lookup
  lookup-view d k v =
      let here = find_in-hits (type.key_compare k) (bucket type d.ht0 k) in
      let there = find_in-hits (type.key_compare k) (bucket type d.ht1 k) in
      elim (shown_cases (shown type d.ht0 k)) [
        | inr (w, ws, e) ↦ rw (here, e, lookup)
        | inl e ↦ elim (Bool-cases (is_rehashing d)) [
          | inl busy ↦ rw (here, e, busy, there, lookup)
          | inr idle ↦ rw (here, e, idle, no_second type d v idle k, lookup)
        ]
      ]

  pub lookup-Same :
      (d e : Dict K V)
      → IsValid type d
      → Same type d e
      → (k : K) → lookup type e k ≡ lookup type d k
  lookup-Same d e v s k = lookup-view e k s.valid ∙ ap first (s.views k) ∙ sym (lookup-view d k v)

  -- What an operation at `k` makes of the dictionary: a valid one that has `r` for `k`, and for every
  -- other key what it had.
  pub record Updated (d d' : Dict K V) (k : K) (r : Option V) : Type ℓ where
    pub valid : IsValid type d'
    pub lookups : (q : K) → lookup type d' q ≡ (if type.key_compare q k then r else lookup type d q)

  -- Rehashing a valid dictionary in any number of steps keeps it valid, and every key its value.
  pub rehash-lookup :
      (d : Dict K V) (n : ℕ) (q : K)
      → IsValid type d
      → IsValid type (rehash type d n).0 × (lookup type (rehash type d n).0 q ≡ lookup type d q)
  rehash-lookup d n q v =
      let s = rehash-Same type d n v in (s.valid, lookup-Same d (rehash type d n).0 v s q)

  pub unchanged :
      (d d' : Dict K V) (k : K) → IsValid type d → Same type d d' → Updated d d' k (lookup type d k)
  unchanged d d' k v s = record {
    valid = s.valid;
    lookups = λ q. elim (Bool-cases (type.key_compare q k)) [
      | inl eq ↦
          rw eq (lookup-Same d d' v s q ∙ ap (lookup type d) ((type.key_compare_iff q k).0 eq))
      | inr ne ↦ rw ne (lookup-Same d d' v s q)
    ];
  }

  -- A new state given by what it has for each key.
  pub updated :
      (d d' : Dict K V) (k : K) (r : List V)
      → IsValid type d
      → IsValid type d'
      → ((q : K) → view type d' q ≡ (if type.key_compare q k then r else view type d q))
      → Updated d d' k (first r)
  updated d d' k r v v' h = record {
    valid = v';
    lookups = λ q. elim (Bool-cases (type.key_compare q k)) [
      | inl eq ↦ rw eq (lookup-view d' q v' ∙ ap first (rw eq at (h q)))
      | inr ne ↦ rw ne (lookup-view d' q v' ∙ ap first (rw ne at (h q)) ∙ sym (lookup-view d q v))
    ];
  }

  module _ (d : Dict K V) (k : K) (w : V) (v : IsValid type d)
      (room : 0 < length (target type d).table) (new : view type d k ≡ []) where
    absent :
        (q : K)
        → type.key_compare q k ≡ true
        → (shown type d.ht0 q ≡ []) × (shown type d.ht1 q ≡ [])
    absent q eq =
        let e = (type.key_compare_iff q k).0 eq in
        let both : view type d q ≡ [] = ap (view type d) e ∙ new in
        let sum = length-append (shown type d.ht0 q) (shown type d.ht1 q) in
        (
          empty_of_length (shown type d.ht0 q) (omega (arith, sum, ap length both)),
          empty_of_length (shown type d.ht1 q) (omega (arith, sum, ap length both)),
        )

    put_busy :
        is_rehashing d ≡ true → Updated d (record d { ht1 = push type d.ht1 (k, w) }) k (some w)
    put_busy busy =
        let size : 0 < length d.ht1.table = rw busy at room in
        let show = shown-push type d.ht1 (k, w) size v.table1 in
        updated d (record d { ht1 = push type d.ht1 (k, w) }) k (w ∷ []) v
          (record {
            table0 = v.table0;
            table1 = push-IsTable type d.ht1 (k, w) size v.table1;
            once = λ q. ground (arith, v.once q, show q, absent q);
            idle = λ e. absurd (false≢true (sym e ∙ busy));
            ready = λ e. omega (arith, length-push type d.ht1 (k, w));
            old_there = v.old_there;
            swept = v.swept;
          })
          (λ q. ground (arith, show q, absent q))

    put_idle :
        is_rehashing d ≡ false → Updated d (record d { ht0 = push type d.ht0 (k, w) }) k (some w)
    put_idle idle =
        let size : 0 < length d.ht0.table = rw idle at room in
        let show = shown-push type d.ht0 (k, w) size v.table0 in
        updated d (record d { ht0 = push type d.ht0 (k, w) }) k (w ∷ []) v
          (record {
            table0 = push-IsTable type d.ht0 (k, w) size v.table0;
            table1 = v.table1;
            once = λ q. ground (arith, v.once q, show q, absent q);
            idle = v.idle;
            ready = λ e. absurd (false≢true (sym idle ∙ e));
            old_there = λ e. absurd (false≢true (sym idle ∙ e));
            swept = λ n i e lt. absurd (false≢true (sym idle ∙ ap is_some e));
          })
          (λ q. ground (arith, show q, absent q))

    put-Updated : Updated d (put type d (k, w)) k (some w)
    unfolding put
    put-Updated = elim (Bool-cases (is_rehashing d)) [
      | inl busy ↦ rw busy (put_busy busy)
      | inr idle ↦ rw idle (put_idle idle)
    ]

  pub Updated-Same :
      (d e f : Dict K V) (k : K) (r : Option V)
      → IsValid type d
      → Same type d e
      → Updated e f k r
      → Updated d f k r
  Updated-Same d e f k r v s u = record {
    valid = u.valid;
    lookups =
        λ q. u.lookups q ∙ ap (λ l. if type.key_compare q k then r else l) (lookup-Same d e v s q);
  }

  -- `dictAdd` on a valid dictionary gives a valid one. If the key was absent it is added with the
  -- value, else nothing changes, and the result says which; all other keys keep their values.
  pub add-Updated :
      (can_resize : Bool) (d : Dict K V) (k : K) (w : V)
      → IsValid type d
      → Updated d (add type can_resize d k w).0 k (some (or_else (lookup type d k) w))
        × ((add type can_resize d k w).1 ≡ not (is_found (lookup type d k)))
  unfolding add key_index
  add-Updated can_resize d k w v =
      let s = stepped-Same type d v in
      let (g, grows, grown) = expand_if_needed-Grown type can_resize (stepped type d) s.valid in
      let t = Same-trans type s grown.same in
      let old = lookup-Same d g v t k in
      elim (Option-cases (lookup type d k)) [
        | inl absent ↦
            let new = first-none (view type g k) (sym (lookup-view g k t.valid) ∙ old ∙ absent) in
            let slot : key_index type can_resize (stepped type d) k ≡ (g, true) =
              rw (grows, old ∙ absent, key_index) in
            rw (slot, absent, add)
              (
                Updated-Same d g (put type g (k, w)) k (some w) v t
                    (put-Updated g k w t.valid grown.room new),
                refl,
              )
        | inr (u, present) ↦
            let slot : key_index type can_resize (stepped type d) k ≡ (g, false) =
              rw (grows, old ∙ present, key_index) in
            rw (slot, present, add) (subst (Updated d g k) present (unchanged d g k v t), refl)
      ]
