-- ===== src/Dict/Grow.antt =====
-- `dictExpand` and `_dictExpandIfNeeded` of redis-stable/src/dict.c: a larger table changes nothing
-- of what the dictionary has, and there is a table for the next entry.
use mathlib.Core.Option.{some_inj}
use mathlib.Core.Bool.{false≢true}
use better_efisis.Prelude.{
  ℕ, zero, suc, ◌*◌, ◌/◌, ◌≤◌, ◌<◌, ◌≡◌, refl, sym, ap, ◌∙◌, Bool, false, ◌&&◌, ◌||◌, some, List,
  [], ◌∷◌, ◌++◌, arith, if◌then◌else◌, ltb, leb, ◌==◌, length, get_or, replicate, length-replicate,
  get_or-replicate, Bool-cases, inl, inr,
}
use better_efisis.Dict.{
  DictType, HashTable, Dict, is_rehashing, next_power_loop, next_power, long_max, expand,
  expand_if_needed, index,
}
use better_efisis.Dict.Hits.{hits}
use better_efisis.Dict.Table.{total, values, shown, IsTable}
use better_efisis.Dict.Moving.{IsValid}
use better_efisis.Dict.Rehash.{Same, nothing_left}

next_power_loop_pos : (fuel size i : ℕ) → 0 < i → 0 < next_power_loop fuel size i
unfolding next_power_loop
next_power_loop_pos zero size i h = h
next_power_loop_pos (suc fuel) size i h = ground (arith, next_power_loop_pos fuel size (i * 2))

next_power_pos : (size : ℕ) → 0 < next_power size
unfolding next_power
next_power_pos size = elim (Bool-cases (leb long_max size)) [
  | inl huge ↦ rw (huge, next_power) (omega arith)
  | inr fits ↦ rw (fits, next_power) (next_power_loop_pos 63 size 4 (omega arith))
]

total-replicate {ℓ} : (A : Type ℓ) (n : ℕ) → total {A = A} (replicate n []) ≡ 0
total-replicate A zero = refl
total-replicate A (suc n) = omega (arith, total-replicate A n)

module _ {ℓ} {A : Type ℓ} where
  total_none : (bs : List (List A)) → length bs ≡ 0 → total bs ≡ 0
  total_none [] h = refl
  total_none (b ∷ bs) h = absurd (omega arith)

module _ {ℓ} {K V : Type ℓ} (type : DictType K) where
  abbrev fresh : ℕ → HashTable K V
  fresh n = record { table = replicate n []; used = 0 }

  nowhere : (n i : ℕ) (q : K) → values type q (get_or (fresh n).table i []) ≡ []
  unfolding hits
  nowhere n i q = ap (values type q) (get_or-replicate n [] i)

  fresh-IsTable : (n : ℕ) → IsTable type (fresh n)
  fresh-IsTable n = record {
    placed = λ q i ne. nowhere n i q;
    counted = sym (total-replicate (K × V) n);
  }

  shown-fresh : (n : ℕ) (q : K) → shown type (fresh n) q ≡ []
  shown-fresh n q = nowhere n (index type (fresh n) q) q

  module _ (d : Dict K V) (v : IsValid type d) (idle : is_rehashing d ≡ false) where
    pub no_second : (q : K) → shown type d.ht1 q ≡ []
    no_second q =
        nothing_left type d.ht1 v.table1 (ap (λ (t : HashTable K V). t.used) (v.idle idle)) q

    first-Same : (n : ℕ) → length d.ht0.table ≡ 0 → Same type d (record d { ht0 = fresh n })
    first-Same n none_yet =
        let gone =
          nothing_left type d.ht0 v.table0 (v.table0.counted ∙ total_none d.ht0.table none_yet) in
        record {
          valid = record {
            table0 = fresh-IsTable n;
            table1 = v.table1;
            once = λ q. omega (arith, ap length (shown-fresh n q), ap length (no_second q));
            idle = v.idle;
            ready = v.ready;
            old_there = λ e. absurd (false≢true (sym idle ∙ e));
            swept = λ m i e lt. get_or-replicate n [] i;
          };
          views = λ q. ap (λ l. l ++ shown type d.ht1 q) (shown-fresh n q ∙ sym (gone q));
          iterators = refl;
        }

    second-Same :
        (n : ℕ)
        → 0 < n
        → 0 < length d.ht0.table
        → Same type d (record d { ht1 = fresh n; rehashidx = some 0 })
    second-Same n pos some_table = record {
      valid = record {
        table0 = v.table0;
        table1 = fresh-IsTable n;
        once = λ q. omega (arith, v.once q, ap length (shown-fresh n q));
        idle = λ e. cc;
        ready = λ e. omega (arith, length-replicate {A = List (K × V)} n []);
        old_there = λ e. some_table;
        swept = λ m i e lt. let here : 0 ≡ m = some_inj.0 e in absurd (omega (arith, here));
      };
      views = λ q. ap (λ l. shown type d.ht0 q ++ l) (shown-fresh n q ∙ sym (no_second q));
      iterators = refl;
    }

  -- The table that takes new entries.
  abbrev pub target : Dict K V → HashTable K V
  target d = if is_rehashing d then d.ht1 else d.ht0

  pub record Grown (d g : Dict K V) : Type ℓ where
    pub same : Same type d g
    pub room : 0 < length (target g).table

  expand-Grown :
      (d : Dict K V) (size : ℕ)
      → IsValid type d
      → is_rehashing d ≡ false
      → d.ht0.used ≤ size
      → (g : Dict K V) × (expand d size ≡ some g) × Grown d g
  unfolding expand
  expand-Grown d size v idle fits =
      let n = next_power size in
      let len = length-replicate {A = List (K × V)} n [] in
      let accepted : (is_rehashing d || ltb size d.ht0.used) ≡ false = ground (arith, idle) in
      elim (Bool-cases (length d.ht0.table == 0)) [
        | inl none_yet ↦ (
          record d { ht0 = fresh n },
          rw (accepted, none_yet, expand),
          record {
            same = first-Same d v idle n (ground arith);
            room = rw idle (omega (arith, len, next_power_pos size));
          },
        )
        | inr some_table ↦ (
          record d { ht1 = fresh n; rehashidx = some 0 },
          rw (accepted, some_table, expand),
          record {
            same = second-Same d v idle n (next_power_pos size) (ground arith);
            room = omega (arith, len, next_power_pos size);
          },
        )
      ]

  -- In a valid dictionary growing does not fail.
  pub expand_if_needed-Grown :
      (can_resize : Bool) (d : Dict K V)
      → IsValid type d
      → (g : Dict K V) × (expand_if_needed can_resize d ≡ some g) × Grown d g
  unfolding expand_if_needed
  expand_if_needed-Grown can_resize d v = elim (Bool-cases (is_rehashing d)) [
    | inl busy ↦ (
      d,
      rw (busy, expand_if_needed),
      record {
        same = record { valid = v; views = λ q. refl; iterators = refl };
        room = rw busy (v.ready busy);
      },
    )
    | inr idle ↦ elim (Bool-cases (length d.ht0.table == 0)) [
      | inl none_yet ↦
          let (g, e, grown) =
            expand-Grown d 4 v idle
              (omega (arith, v.table0.counted, total_none d.ht0.table (ground arith))) in
          (g, rw (idle, none_yet, expand_if_needed) e, grown)
      | inr some_table ↦
          elim (Bool-cases (
            leb (length d.ht0.table) d.ht0.used
            && (can_resize || ltb 5 (d.ht0.used / length d.ht0.table)))) [
              | inl full ↦
                  let (g, e, grown) = expand-Grown d (d.ht0.used * 2) v idle (omega arith) in
                  (g, rw (idle, some_table, full, expand_if_needed) e, grown)
              | inr roomy ↦ (
                d,
                rw (idle, some_table, roomy, expand_if_needed),
                record {
                  same = record { valid = v; views = λ q. refl; iterators = refl };
                  room = rw idle (ground arith);
                },
              )
            ]
    ]
  ]
