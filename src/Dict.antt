-- ===== src/Dict.antt =====
-- redis-stable/src/dict.c: hash tables that grow by incremental rehashing. A table is the list of
-- its buckets, so `size` is its length, a NULL table the empty list and a NULL bucket too.
pub mod Hits
pub mod Table
pub mod Rewrite
pub mod Moving
pub mod Rehash
pub mod Grow
pub mod Ops
pub mod Change
pub mod Replace
mod Tests
use Prim.Native.Nat.{bit_and}
use better_efisis.Prelude.{
  ℕ, zero, suc, ◌+◌, ◌-◌, ◌*◌, ◌/◌, ◌^◌, ◌≡◌, ◌↔◌, Bool, true, false, not, ◌&&◌, ◌||◌, Option, none,
  some, List, [], ◌∷◌, ltb, leb, ◌==◌, if◌then◌else◌, length, get_or, set, replicate,
}

-- The callbacks of `dictType` that find keys. Comparing is what tells keys apart.
pub record DictType {ℓ} (K : Type ℓ) : Type ℓ where
  pub hash_function : K → ℕ
  pub key_compare : K → K → Bool
  pub key_compare_iff : (a b : K) → (key_compare a b ≡ true) ↔ (a ≡ b)

pub record HashTable {ℓ} (K V : Type ℓ) : Type ℓ where
  pub table : List (List (K × V))
  pub used : ℕ

-- `rehashidx` is none for -1.
pub record Dict {ℓ} (K V : Type ℓ) : Type ℓ where
  pub ht0 : HashTable K V
  pub ht1 : HashTable K V
  pub rehashidx : Option ℕ
  pub iterators : ℕ

-- The loop of `_dictNextPower`; 63 doublings pass any `unsigned long` that is below LONG_MAX.
unfoldable pub next_power_loop : ℕ → ℕ → ℕ → ℕ
next_power_loop zero size i = i
next_power_loop (suc fuel) size i =
    let next = next_power_loop fuel size (i * 2) in if leb size i then i else next

abbrev pub long_max : ℕ
long_max = 2 ^ 63 - 1

-- `_dictNextPower`
unfoldable pub next_power : ℕ → ℕ
next_power size = if leb long_max size then long_max else next_power_loop 63 size 4

abbrev pub is_some : Option ℕ → Bool
is_some none = false
is_some (some i) = true

abbrev pub second {ℓ} : {V : Type ℓ} → Bool → Option V → Option V
second true v = v
second false v = none

module _ {ℓ} {K V : Type ℓ} where
  -- `_dictReset`
  abbrev pub empty_table : HashTable K V
  empty_table = record { table = []; used = 0 }

  -- `_dictInit`
  unfoldable pub create : Dict K V
  create = record { ht0 = empty_table; ht1 = empty_table; rehashidx = none; iterators = 0 }

  -- `dictIsRehashing`
  abbrev pub is_rehashing : Dict K V → Bool
  is_rehashing d = is_some d.rehashidx

  -- `dictExpand`; none is DICT_ERR.
  unfoldable pub expand : Dict K V → ℕ → Option (Dict K V)
  expand d size =
      let n : HashTable K V = record { table = replicate (next_power size) []; used = 0 } in
      if is_rehashing d || ltb size d.ht0.used
      then none
      else if length d.ht0.table == 0
      then some (record d { ht0 = n })
      else some (record d { ht1 = n; rehashidx = some 0 })

  -- `dictResize`, with the global `dict_can_resize`.
  unfoldable pub resize : Bool → Dict K V → Option (Dict K V)
  unfolding expand
  resize can_resize d =
      if not can_resize || is_rehashing d
      then none
      else expand d (if ltb d.ht0.used 4 then 4 else d.ht0.used)

  -- `_dictExpandIfNeeded`
  unfoldable pub expand_if_needed : Bool → Dict K V → Option (Dict K V)
  expand_if_needed can_resize d =
      let size = length d.ht0.table in
      if is_rehashing d
      then some d
      else if size == 0
      then expand d 4
      else if leb size d.ht0.used && (can_resize || ltb 5 (d.ht0.used / size))
      then expand d (d.ht0.used * 2)
      else some d

  -- `while (table[rehashidx] == NULL) rehashidx++;`. The fuel is the number of buckets.
  unfoldable pub skip_empty : ℕ → List (List (K × V)) → ℕ → ℕ
  skip_empty zero table i = i
  skip_empty (suc fuel) table i = elim (get_or table i []) [
    | [] ↦ skip_empty fuel table (i + 1)
    | e ∷ b ↦ i
  ]

  -- A bucket in which one entry has been taken out of its chain, none if no key is the same.
  module _ (same : K → Bool) where
    unfoldable pub find_in : List (K × V) → Option V
    find_in [] = none
    find_in ((j, v) ∷ b) = if same j then some v else find_in b

    unfoldable pub unlink : List (K × V) → List (K × V)
    unlink [] = []
    unlink ((j, v) ∷ b) = if same j then b else (j, v) ∷ unlink b

    unfoldable pub set_val : V → List (K × V) → List (K × V)
    set_val w [] = []
    set_val w ((j, v) ∷ b) = if same j then (j, w) ∷ b else (j, v) ∷ set_val w b

  module _ (type : DictType K) where
    -- `dictHashKey(d, key) & sizemask`
    unfoldable pub index : HashTable K V → K → ℕ
    index t k = bit_and (type.hash_function k) (length t.table - 1)

    abbrev pub bucket : HashTable K V → K → List (K × V)
    bucket t k = get_or t.table (index t k) []

    -- An entry is put in front of its bucket.
    unfoldable pub push : HashTable K V → K × V → HashTable K V
    push t e = record { table = set t.table (index t e.0) (e ∷ bucket t e.0); used = t.used + 1 }

    -- The inner loop of `dictRehash`: a bucket's entries move to the new table.
    unfoldable pub move : List (K × V) → HashTable K V → HashTable K V
    move [] t = t
    move (e ∷ b) t = move b (push t e)

    -- One round of the loop of `dictRehash` where the old table has entries left. Its assertion, that
    -- `rehashidx` is below the size, is left out: `rehashidx_inside` of Dict/Rehash.antt is that it
    -- holds in a valid dictionary.
    unfoldable pub rehash_bucket : Dict K V → ℕ → Dict K V
    rehash_bucket d idx =
        let i = skip_empty (length d.ht0.table) d.ht0.table idx in
        let b = get_or d.ht0.table i [] in
        record d {
          ht0 = record { table = set d.ht0.table i []; used = d.ht0.used - length b };
          ht1 = move b d.ht1;
          rehashidx = some (i + 1);
        }

    -- The old table is empty: the new one takes its place.
    abbrev pub finish : Dict K V → Dict K V
    finish d = record d { ht0 = d.ht1; ht1 = empty_table; rehashidx = none }

    -- `dictRehash`, by the steps left and `rehashidx`; it returns whether keys are left to move.
    unfoldable pub rehash_loop : ℕ → Option ℕ → Dict K V → Dict K V × Bool
    rehash_loop n none d = (d, false)
    rehash_loop zero (some idx) d = (d, true)
    rehash_loop (suc n) (some idx) d =
        let d' = rehash_bucket d idx in
        let rest = rehash_loop n d'.rehashidx d' in
        if d.ht0.used == 0 then (finish d, false) else rest

    unfoldable pub rehash : Dict K V → ℕ → Dict K V × Bool
    unfolding rehash_loop
    rehash d n = rehash_loop n d.rehashidx d

    -- `if (dictIsRehashing(d)) _dictRehashStep(d);`
    unfoldable pub stepped : Dict K V → Dict K V
    stepped d = if d.iterators == 0 then (rehash d 1).0 else d

    -- The search of `dictFind`, in one table or in both.
    unfoldable pub lookup : Dict K V → K → Option V
    lookup d k = elim (find_in (type.key_compare k) (bucket d.ht0 k)) [
      | some v ↦ some v
      | none ↦ second (is_rehashing d) (find_in (type.key_compare k) (bucket d.ht1 k))
    ]

    -- `dictFind`, up to the value of the entry.
    unfoldable pub find : Dict K V → K → Dict K V × Option V
    find d k =
        if length d.ht0.table == 0 then (d, none) else let d' = stepped d in (d', lookup d' k)

    -- The end of `dictAddRaw` at a free slot.
    unfoldable pub put : Dict K V → K × V → Dict K V
    put d e =
        if is_rehashing d then record d { ht1 = push d.ht1 e } else record d { ht0 = push d.ht0 e }

    -- `_dictKeyIndex`: the dictionary with its table grown, and whether there is a slot for the key;
    -- -1 says that there is none. The slot is that of `push` in the table that takes new entries.
    unfoldable pub key_index : Bool → Dict K V → K → Dict K V × Bool
    key_index can_resize d k = elim (expand_if_needed can_resize d) [
      | none ↦ (d, false)
      | some g ↦ elim (lookup g k) [ some old ↦ (g, false) | none ↦ (g, true) ]
    ]

    -- `dictAdd`, whose result is whether it returns DICT_OK.
    unfoldable pub add : Bool → Dict K V → K → V → Dict K V × Bool
    add can_resize d k v =
        let (g, free) = key_index can_resize (stepped d) k in
        if free then (put g (k, v), true) else (g, false)

    -- A table in which the bucket of `k` has been rewritten.
    abbrev pub at_bucket : HashTable K V → K → List (K × V) → HashTable K V
    at_bucket t k b = record t { table = set t.table (index t k) b }

    -- The loop of `dictGenericDelete`, in one table.
    abbrev pub remove_from : HashTable K V → K → HashTable K V
    remove_from t k = record {
      table = set t.table (index t k) (unlink (type.key_compare k) (bucket t k));
      used = t.used - 1;
    }

    -- `dictGenericDelete` after the rehashing step; the result is whether it returns DICT_OK.
    unfoldable pub delete_found : Dict K V → K → Dict K V × Bool
    delete_found d k = elim (find_in (type.key_compare k) (bucket d.ht0 k)) [
      | some v ↦ (record d { ht0 = remove_from d.ht0 k }, true)
      | none ↦ elim (second (is_rehashing d) (find_in (type.key_compare k) (bucket d.ht1 k))) [
        | some v ↦ (record d { ht1 = remove_from d.ht1 k }, true)
        | none ↦ (d, false)
      ]
    ]

    -- `dictDelete`
    unfoldable pub delete : Dict K V → K → Dict K V × Bool
    delete d k = if length d.ht0.table == 0 then (d, false) else delete_found (stepped d) k

    -- The value of the entry that `dictFind` gives is set.
    unfoldable pub overwrite : Dict K V → K → V → Dict K V
    overwrite d k v = elim (find_in (type.key_compare k) (bucket d.ht0 k)) [
      | some old ↦ record d {
        ht0 = at_bucket d.ht0 k (set_val (type.key_compare k) v (bucket d.ht0 k));
      }
      | none ↦ record d {
        ht1 = at_bucket d.ht1 k (set_val (type.key_compare k) v (bucket d.ht1 k));
      }
    ]

    -- `dictReplace`; the result is whether the key was added.
    unfoldable pub replace : Bool → Dict K V → K → V → Dict K V × Bool
    replace can_resize d k v =
        let (d', added) = add can_resize d k v in
        if added then (d', true) else (overwrite (find d' k).0 k v, false)
