-- ===== src/Dict/Rehash.antt =====
-- `dictRehash` of redis-stable/src/dict.c: moving buckets to the new table changes nothing of what
-- the dictionary has for any key, and comes to an end.
use mathlib.Core.Option.{some_inj}
use better_efisis.Prelude.{
  ℕ, zero, suc, ◌+◌, ◌≤◌, ◌<◌, ◌≡◌, refl, sym, ap, ◌∙◌, false, Option, none, some, List, [], ◌∷◌,
  ◌++◌, arith, ◌==◌, length, get_or, set, length-set, get_or-set_ne, append-nil, length-append,
  eq_cases, lt_cases, Bool-cases, inl, inr,
}
use better_efisis.Dict.{
  create, DictType, HashTable, Dict, empty_table, is_rehashing, is_some, skip_empty, index, bucket,
  move, rehash_bucket, finish, rehash_loop, rehash, stepped,
}
use better_efisis.Dict.Hits.{hits, empty_of_length, length-hits}
use better_efisis.Dict.Table.{length-get_or-le, values, shown, IsTable}
use better_efisis.Dict.Moving.{
  IsValid, view, Lands, skip_empty-Lands, Moved, move-Moved, cleared, cleared-IsTable,
  shown-cleared, cleared_here,
}

module _ {ℓ} {K V : Type ℓ} (type : DictType K) where
  few_first :
      (xs ys zs : List V) → length (xs ++ ys) + length zs ≤ 1 → ys ++ (xs ++ zs) ≡ (xs ++ ys) ++ zs
  few_first [] ys zs h = refl
  few_first (x ∷ xs) [] zs h = ap (λ l. (x ∷ l) ++ zs) (sym (append-nil xs))
  few_first (x ∷ xs) (y ∷ ys) zs h = absurd (omega (arith, length-append xs (y ∷ ys)))

  -- A state that has the same for every key.
  pub record Same (d d' : Dict K V) : Type ℓ where
    pub valid : IsValid type d'
    pub views : (q : K) → view type d' q ≡ view type d q
    pub iterators : d'.iterators ≡ d.iterators

  pub Same-trans : {c d e : Dict K V} → Same c d → Same d e → Same c e
  Same-trans s t = record {
    valid = t.valid;
    views = λ q. t.views q ∙ s.views q;
    iterators = t.iterators ∙ s.iterators;
  }

  module _ (d : Dict K V) (idx : ℕ) (v : IsValid type d) (at : d.rehashidx ≡ some idx)
      (left : 0 < d.ht0.used) where
    abbrev place : ℕ
    place = skip_empty (length d.ht0.table) d.ht0.table idx

    lands : Lands d.ht0.table place
    lands =
        skip_empty-Lands (length d.ht0.table) d.ht0.table idx (λ j lt. v.swept idx j at lt)
          (omega (arith, v.table0.counted)) (omega arith)

    -- The assertion of `dictRehash` holds: `rehashidx` is below the size of the old table.
    rehashidx_inside : idx < length d.ht0.table
    rehashidx_inside = elim (lt_cases idx (length d.ht0.table)) [
      | inl lt ↦ lt
      | inr ge ↦
          let swept = v.swept idx place at (omega (arith, lands.inside)) in
          absurd (omega (arith, lands.entries, ap length swept))
    ]

    abbrev chain : List (K × V)
    chain = get_or d.ht0.table place []

    old :
        (q : K)
        → shown type d.ht0 q
          ≡ values type q chain ++ shown type (cleared type d.ht0 place v.table0 lands.inside) q
    old = shown-cleared type d.ht0 place v.table0 lands.inside

    moved : Moved type chain d.ht1 (move type chain d.ht1)
    moved = move-Moved type chain d.ht1 (v.ready (ap is_some at)) v.table1 (λ q. omega (
      arith,
      v.once q,
      ap length (old q),
      length-append (values type q chain)
          (shown type (cleared type d.ht0 place v.table0 lands.inside) q),
    ))

    rehash_bucket-view : (q : K) → view type (rehash_bucket type d idx) q ≡ view type d q
    unfolding rehash_bucket
    rehash_bucket-view q =
        ap (λ l. shown type (cleared type d.ht0 place v.table0 lands.inside) q ++ l) (moved.shows q)
        ∙ few_first (values type q chain)
            (shown type (cleared type d.ht0 place v.table0 lands.inside) q) (shown type d.ht1 q)
            (omega (arith, v.once q, ap length (old q)))
        ∙ ap (λ l. l ++ shown type d.ht1 q) (sym (old q))

    rehash_bucket-IsValid : IsValid type (rehash_bucket type d idx)
    unfolding rehash_bucket
    rehash_bucket-IsValid = record {
      table0 = cleared-IsTable type d.ht0 place v.table0 lands.inside;
      table1 = moved.valid;
      once = λ q. omega (
        arith,
        v.once q,
        ap length (old q),
        ap length (moved.shows q),
        length-append (values type q chain)
            (shown type (cleared type d.ht0 place v.table0 lands.inside) q),
        length-append (values type q chain) (shown type d.ht1 q),
      );
      idle = λ e. cc;
      ready = λ e. omega (arith, moved.size, v.ready (ap is_some at));
      old_there = λ e. omega (arith, lands.inside, length-set d.ht0.table place []);
      swept = λ n i e lt. elim (eq_cases i place) [
        | inl here ↦
            ap (λ j. get_or (set d.ht0.table place []) j []) here
            ∙ cleared_here type d.ht0 place v.table0 lands.inside
        | inr ne ↦
            let next : place + 1 ≡ n = some_inj.0 e in
            get_or-set_ne d.ht0.table place i [] [] ne ∙ lands.before i (omega (arith, next))
      ];
    }

    rehash_bucket-Same : Same d (rehash_bucket type d idx)
    unfolding rehash_bucket
    rehash_bucket-Same = record {
      valid = rehash_bucket-IsValid;
      views = rehash_bucket-view;
      iterators = refl;
    }

    used-rehash_bucket : (rehash_bucket type d idx).ht0.used < d.ht0.used
    unfolding rehash_bucket
    used-rehash_bucket =
        omega (arith, lands.entries, v.table0.counted, length-get_or-le d.ht0.table place)

  empty-IsTable : IsTable {V = V} type empty_table
  unfolding hits
  empty-IsTable = record { placed = λ q i ne. refl; counted = refl }

  pub nothing_left :
      (t : HashTable K V) → IsTable type t → t.used ≡ 0 → (q : K) → shown type t q ≡ []
  nothing_left t v none_used q = empty_of_length (shown type t q) (
      omega (
        arith,
        v.counted,
        length-hits (type.key_compare q) (bucket type t q),
        length-get_or-le t.table (index type t q),
      ))

  shown-empty : (q : K) → shown {V = V} type empty_table q ≡ []
  unfolding hits
  shown-empty q = refl

  finish-Same : (d : Dict K V) → IsValid type d → d.ht0.used ≡ 0 → Same d (finish type d)
  finish-Same d v none_used = record {
    valid = record {
      table0 = v.table1;
      table1 = empty-IsTable;
      once = λ q. omega (arith, v.once q, ap length (shown-empty q));
      idle = λ e. refl;
      ready = λ e. cc;
      old_there = λ e. cc;
      swept = λ n i e lt. absurd (cc);
    };
    views = λ q.
        ap (λ l. shown type d.ht1 q ++ l) (shown-empty q)
        ∙ append-nil (shown type d.ht1 q)
        ∙ ap (λ l. l ++ shown type d.ht1 q) (sym (nothing_left d.ht0 v.table0 none_used q));
    iterators = refl;
  }

  rehash_loop-Same :
      (n : ℕ) (o : Option ℕ) (d : Dict K V)
      → d.rehashidx ≡ o
      → IsValid type d
      → Same d (rehash_loop type n o d).0
  unfolding rehash_loop
  rehash_loop-Same n none d at v = record { valid = v; views = λ q. refl; iterators = refl }
  rehash_loop-Same zero (some idx) d at v = record {
    valid = v;
    views = λ q. refl;
    iterators = refl;
  }
  rehash_loop-Same (suc n) (some idx) d at v = elim (Bool-cases (d.ht0.used == 0)) [
    | inl done ↦ rw (done, rehash_loop) (finish-Same d v (ground arith))
    | inr more ↦
        let one = rehash_bucket-Same d idx v at (ground arith) in
        rw (more, rehash_loop)
          (Same-trans one (
            rehash_loop-Same n (rehash_bucket type d idx).rehashidx (rehash_bucket type d idx) refl
              one.valid))
  ]

  rehash_loop_ends :
      (n : ℕ) (o : Option ℕ) (d : Dict K V)
      → d.rehashidx ≡ o
      → IsValid type d
      → d.ht0.used < n
      → (is_rehashing (rehash_loop type n o d).0 ≡ false) × ((rehash_loop type n o d).1 ≡ false)
  unfolding rehash_loop
  rehash_loop_ends n none d at v h = (ap is_some at, refl)
  rehash_loop_ends zero (some idx) d at v h = absurd (omega arith)
  rehash_loop_ends (suc n) (some idx) d at v h = elim (Bool-cases (d.ht0.used == 0)) [
    | inl done ↦ rw (done, rehash_loop) (refl, refl)
    | inr more ↦
        let some_used : 0 < d.ht0.used = ground arith in
        let one = rehash_bucket-Same d idx v at some_used in
        rw (more, rehash_loop)
          (rehash_loop_ends n (rehash_bucket type d idx).rehashidx (rehash_bucket type d idx) refl
            one.valid (omega (arith, used-rehash_bucket d idx v at some_used)))
  ]

  pub rehash-Same : (d : Dict K V) (n : ℕ) → IsValid type d → Same d (rehash type d n).0
  unfolding rehash
  rehash-Same d n v = rehash_loop-Same n d.rehashidx d refl v

  pub stepped-Same : (d : Dict K V) → IsValid type d → Same d (stepped type d)
  unfolding stepped
  stepped-Same d v = elim (Bool-cases (d.iterators == 0)) [
    | inl free ↦ rw (free, stepped) (rehash-Same d 1 v)
    | inr bound ↦ rw (bound, stepped) (record { valid = v; views = λ q. refl; iterators = refl })
  ]

  -- Rehashing a valid dictionary ends: after more steps than there are entries in the old table,
  -- rehashing is over and the return value is 0.
  pub rehash_ends :
      (d : Dict K V) (n : ℕ)
      → IsValid type d
      → d.ht0.used < n
      → (is_rehashing (rehash type d n).0 ≡ false) × ((rehash type d n).1 ≡ false)
  unfolding rehash
  rehash_ends d n v h = rehash_loop_ends n d.rehashidx d refl v h

  -- A new dictionary is valid.
  pub create-IsValid : IsValid {V = V} type create
  unfolding create hits
  create-IsValid = record {
    table0 = empty-IsTable;
    table1 = empty-IsTable;
    once = λ q. omega arith;
    idle = λ e. refl;
    ready = λ e. cc;
    old_there = λ e. cc;
    swept = λ n i e lt. refl;
  }
