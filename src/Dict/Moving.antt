-- ===== src/Dict/Moving.antt =====
-- The moving of one bucket in `dictRehash` of redis-stable/src/dict.c: what the two tables have
-- afterwards, and what a valid dictionary is.
use better_efisis.Prelude.{
  ℕ, zero, suc, ◌+◌, ◌-◌, ◌≤◌, ◌<◌, ◌≡◌, ◌≢◌, ◌⊎◌, refl, sym, ap, ◌∙◌, true, false, some, List, [],
  ◌∷◌, ◌++◌, arith, length, get_or, set, length-set, get_or-set_self, get_or-set_ne, append-nil,
  eq_cases, lt_cases, inl, inr,
}
use better_efisis.Dict.{
  DictType, HashTable, Dict, empty_table, is_rehashing, skip_empty, index, push, move,
}
use better_efisis.Dict.Hits.{hits}
use better_efisis.Dict.Table.{
  total, total-set, length-get_or-le, values, shown, IsTable, index_congr, push-IsTable, shown-push,
  length-push,
}

module _ {ℓ} {A : Type ℓ} where
  beyond : (bs : List (List A)) (i : ℕ) → length bs ≤ i → get_or bs i [] ≡ []
  beyond [] i h = refl
  beyond (b ∷ bs) zero h = absurd (omega arith)
  beyond (b ∷ bs) (suc i) h = beyond bs i (omega arith)

  all_empty : (bs : List (List A)) → ((i : ℕ) → get_or bs i [] ≡ []) → total bs ≡ 0
  all_empty [] h = refl
  all_empty (b ∷ bs) h = omega (arith, ap length (h 0), all_empty bs (λ i. h (suc i)))

  Entry-cases : (b : List A) → (b ≡ []) ⊎ ((e : A) × (r : List A) × (b ≡ e ∷ r))
  Entry-cases [] = inl refl
  Entry-cases (e ∷ r) = inr (e, r, refl)

module _ {ℓ} {K V : Type ℓ} where
  -- The first bucket from `i` on that has an entry.
  pub record Lands (table : List (List (K × V))) (r : ℕ) : Type ℓ where
    pub inside : r < length table
    pub entries : 0 < length (get_or table r [])
    pub before : (j : ℕ) → j < r → get_or table j [] ≡ []

  pub skip_empty-Lands :
      (fuel : ℕ) (table : List (List (K × V))) (i : ℕ)
      → ((j : ℕ) → j < i → get_or table j [] ≡ [])
      → 0 < total table
      → length table ≤ fuel + i
      → Lands table (skip_empty fuel table i)
  unfolding skip_empty
  skip_empty-Lands zero table i before some_left h =
      let nothing = all_empty table (λ j. elim (lt_cases j i) [
        | inl lt ↦ before j lt
        | inr ge ↦ beyond table j (omega arith)
      ]) in
      absurd (omega arith)
  skip_empty-Lands (suc fuel) table i before some_left h = elim (Entry-cases (get_or table i [])) [
    | inl none_here ↦
        rw (none_here, skip_empty)
          (skip_empty-Lands fuel table (i + 1)
            (λ j lt. elim (eq_cases j i) [
              | inl e ↦ ap (λ k. get_or table k []) e ∙ none_here
              | inr ne ↦ before j (omega arith)
            ])
            some_left (omega arith))
    | inr (e, r, found) ↦
        rw (found, skip_empty)
          (record {
            inside = elim (lt_cases i (length table)) [
              | inl lt ↦ lt
              | inr ge ↦ absurd (omega (arith, ap length (sym found ∙ beyond table i ge)))
            ];
            entries = omega (arith, ap length found);
            before = before;
          })
  ]

module _ {ℓ} {K V : Type ℓ} (type : DictType K) where
  -- What a dictionary has for a key, in both tables.
  abbrev pub view : Dict K V → K → List V
  view d q = shown type d.ht0 q ++ shown type d.ht1 q

  pub record IsValid (d : Dict K V) : Type ℓ where
    pub table0 : IsTable type d.ht0
    pub table1 : IsTable type d.ht1
    pub once : (q : K) → length (shown type d.ht0 q) + length (shown type d.ht1 q) ≤ 1
    pub idle : is_rehashing d ≡ false → d.ht1 ≡ empty_table
    pub ready : is_rehashing d ≡ true → 0 < length d.ht1.table
    pub old_there : is_rehashing d ≡ true → 0 < length d.ht0.table
    pub swept : (n i : ℕ) → d.rehashidx ≡ some n → i < n → get_or d.ht0.table i [] ≡ []

  -- What the new table has after a bucket has moved.
  pub record Moved (b : List (K × V)) (t u : HashTable K V) : Type ℓ where
    pub valid : IsTable type u
    pub size : length u.table ≡ length t.table
    pub shows : (q : K) → shown type u q ≡ values type q b ++ shown type t q

  one_of : (vs ws : List V) (v : V) → length (v ∷ vs) + length ws ≤ 1 → vs ++ v ∷ ws ≡ v ∷ vs ++ ws
  one_of [] ws v h = refl
  one_of (x ∷ vs) ws v h = absurd (omega arith)

  pub move-Moved :
      (b : List (K × V)) (t : HashTable K V)
      → 0 < length t.table
      → IsTable type t
      → ((q : K) → length (values type q b) + length (shown type t q) ≤ 1)
      → Moved b t (move type b t)
  unfolding move hits
  move-Moved [] t size v few = record { valid = v; size = refl; shows = λ q. refl }
  move-Moved ((k, w) ∷ b) t size v few =
      let e : K × V = (k, w) in
      let len = length-push type t e in
      let show = shown-push type t e size v in
      let rest =
        move-Moved b (push type t e) (omega (arith, len)) (push-IsTable type t e size v)
          (λ q. ground (arith, few q, show q)) in
      record {
        valid = rest.valid;
        size = rest.size ∙ len;
        shows = λ q.
            rest.shows q
            ∙ ground (arith, few q, show q, one_of (values type q b) (shown type t q) w);
      }

  -- One bucket of the old table is emptied.
  module _ (t : HashTable K V) (i : ℕ) (v : IsTable type t) (inside : i < length t.table) where
    abbrev pub cleared : HashTable K V
    cleared = record { table = set t.table i []; used = t.used - length (get_or t.table i []) }

    cleared_index : (q : K) → index type cleared q ≡ index type t q
    cleared_index q = index_congr type cleared t q (length-set t.table i [])

    pub cleared_bucket : (q : K) (j : ℕ) → j ≢ i → get_or cleared.table j [] ≡ get_or t.table j []
    cleared_bucket q j ne = get_or-set_ne t.table i j [] [] ne

    pub cleared_here : get_or cleared.table i [] ≡ []
    cleared_here = get_or-set_self t.table i [] [] inside

    no_values : (q : K) → values {V = V} type q [] ≡ []
    unfolding hits
    no_values q = refl

    pub cleared-IsTable : IsTable type cleared
    cleared-IsTable = record {
      placed = λ q j away. elim (eq_cases j i) [
        | inl e ↦
            ap (λ j. values type q (get_or cleared.table j [])) e
            ∙ ap (values type q) cleared_here
            ∙ no_values q
        | inr ne ↦
            ap (values type q) (cleared_bucket q j ne)
            ∙ v.placed q j (λ h. away (h ∙ sym (cleared_index q)))
      ];
      counted = omega (arith, v.counted, total-set t.table i [] inside, length-get_or-le t.table i);
    }

    -- What the old table had for a key, it has still or it was in that bucket.
    pub shown-cleared :
        (q : K) → shown type t q ≡ values type q (get_or t.table i []) ++ shown type cleared q
    shown-cleared q = elim (eq_cases (index type t q) i) [
      | inl e ↦
          let gone : shown type cleared q ≡ [] =
            ap (λ j. values type q (get_or cleared.table j [])) (cleared_index q ∙ e)
            ∙ ap (values type q) cleared_here
            ∙ no_values q in
          ap (λ j. values type q (get_or t.table j [])) e
          ∙ sym (append-nil (values type q (get_or t.table i [])))
          ∙ ap (λ l. values type q (get_or t.table i []) ++ l) (sym gone)
      | inr ne ↦
          let stays : shown type cleared q ≡ shown type t q =
            ap (λ j. values type q (get_or cleared.table j [])) (cleared_index q)
            ∙ ap (values type q) (cleared_bucket q (index type t q) ne) in
          let none_there = v.placed q i (λ e. ne (sym e)) in
          sym stays ∙ ap (λ l. l ++ shown type cleared q) (sym none_there)
    ]
