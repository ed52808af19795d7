-- ===== src/Dict/Table.antt =====
-- One hash table of redis-stable/src/dict.c: entries stand in the bucket of their key, and rewriting
-- the bucket of one key does not change what the table has for another.
use mathlib.Core.Path.{subst}
use better_efisis.Prelude.{
  ℕ, zero, suc, ◌+◌, ◌-◌, ◌≤◌, ◌<◌, ◌≡◌, ◌≢◌, refl, sym, ap, ◌∙◌, true, false, List, [], ◌∷◌, arith,
  if◌then◌else◌, length, get_or, set, length-set, get_or-set_self, get_or-set_ne, eq_cases,
  Bool-cases, inl, inr,
}
use better_efisis.Prelude.Bits.{bit_and-le}
use better_efisis.Dict.{DictType, HashTable, index, bucket, push}
use better_efisis.Dict.Hits.{hits}

module _ {ℓ} {A : Type ℓ} where
  abbrev pub total : List (List A) → ℕ
  total [] = 0
  total (b ∷ bs) = length b + total bs

  pub total-set :
      (bs : List (List A)) (i : ℕ) (b : List A)
      → i < length bs
      → total (set bs i b) + length (get_or bs i []) ≡ total bs + length b
  total-set [] i b h = absurd (omega arith)
  total-set (c ∷ bs) zero b h = omega arith
  total-set (c ∷ bs) (suc i) b h = omega (arith, total-set bs i b (omega arith))

  pub length-get_or-le : (bs : List (List A)) (i : ℕ) → length (get_or bs i []) ≤ total bs
  length-get_or-le [] i = omega arith
  length-get_or-le (c ∷ bs) zero = omega arith
  length-get_or-le (c ∷ bs) (suc i) = omega (arith, length-get_or-le bs i)

module _ {ℓ} {K : Type ℓ} (type : DictType K) where
  pub compare_self : (k : K) → type.key_compare k k ≡ true
  compare_self k = (type.key_compare_iff k k).1 refl

  pub compare_apart :
      (k q : K)
      → type.key_compare q k ≡ false
      → (j : K) → type.key_compare k j ≡ true
      → type.key_compare q j ≡ false
  compare_apart k q h j e = ap (type.key_compare q) (sym ((type.key_compare_iff k j).0 e)) ∙ h

module _ {ℓ} {K V : Type ℓ} (type : DictType K) where
  abbrev pub values : K → List (K × V) → List V
  values q b = hits (type.key_compare q) b

  -- What a table has for a key.
  abbrev pub shown : HashTable K V → K → List V
  shown t q = values q (bucket type t q)

  pub record IsTable (t : HashTable K V) : Type ℓ where
    pub placed : (q : K) (i : ℕ) → i ≢ index type t q → values q (get_or t.table i []) ≡ []
    pub counted : t.used ≡ total t.table

  pub index-lt : (t : HashTable K V) (k : K) → 0 < length t.table → index type t k < length t.table
  unfolding index
  index-lt t k h = omega (arith, bit_and-le (type.hash_function k) (length t.table - 1))

  pub index_congr :
      (t u : HashTable K V) (k : K)
      → length t.table ≡ length u.table
      → index type t k ≡ index type u k
  unfolding index
  index_congr t u k e = rw e

  -- The bucket of `k` is replaced by one that has the same for all other keys.
  module _ (t : HashTable K V) (k : K) (b : List (K × V)) (n : ℕ) (size : 0 < length t.table)
      (v : IsTable t)
      (others : (q : K) → type.key_compare q k ≡ false → values q b ≡ values q (bucket type t k))
      (sum : n + length (bucket type t k) ≡ t.used + length b) where
    abbrev written : HashTable K V
    written = record { table = set t.table (index type t k) b; used = n }

    same_index : (q : K) → index type written q ≡ index type t q
    same_index q = index_congr written t q (length-set t.table (index type t k) b)

    pub written_self : shown written k ≡ values k b
    written_self =
        ap (λ i. values k (get_or written.table i [])) (same_index k)
        ∙ ap (values k) (get_or-set_self t.table (index type t k) b [] (index-lt t k size))

    -- A bucket for a key that is not `k`.
    elsewhere :
        (q : K) (i : ℕ)
        → type.key_compare q k ≡ false
        → values q (get_or written.table i []) ≡ values q (get_or t.table i [])
    elsewhere q i ne = elim (eq_cases i (index type t k)) [
      | inl here ↦
          ap (λ j. values q (get_or written.table j [])) here
          ∙ ap (values q) (get_or-set_self t.table (index type t k) b [] (index-lt t k size))
          ∙ others q ne
          ∙ ap (λ j. values q (get_or t.table j [])) (sym here)
      | inr away ↦ ap (values q) (get_or-set_ne t.table (index type t k) i b [] away)
    ]

    pub written_other : (q : K) → type.key_compare q k ≡ false → shown written q ≡ shown t q
    written_other q ne =
        ap (λ i. values q (get_or written.table i [])) (same_index q)
        ∙ elsewhere q (index type t q) ne

    written_placed :
        (q : K) (i : ℕ) → i ≢ index type written q → values q (get_or written.table i []) ≡ []
    written_placed q i away =
        let away' : i ≢ index type t q = λ e. away (e ∙ sym (same_index q)) in
        elim (Bool-cases (type.key_compare q k)) [
          | inl same ↦
              let e = (type.key_compare_iff q k).0 same in
              ap (values q) (
                get_or-set_ne t.table (index type t k) i b []
                  (λ h. away' (h ∙ ap (index type t) (sym e))))
              ∙ v.placed q i away'
          | inr ne ↦ elsewhere q i ne ∙ v.placed q i away'
        ]

    pub written-IsTable : IsTable written
    written-IsTable = record {
      placed = written_placed;
      counted =
          omega (arith, v.counted, sum, total-set t.table (index type t k) b (index-lt t k size));
    }

  -- A new entry in front.
  module _ (t : HashTable K V) (e : K × V) (size : 0 < length t.table) (v : IsTable t) where
    push_others :
        (q : K)
        → type.key_compare q e.0 ≡ false
        → values q (e ∷ bucket type t e.0) ≡ values q (bucket type t e.0)
    unfolding hits
    push_others q ne = ground arith

    push_sum : t.used + 1 + length (bucket type t e.0) ≡ t.used + length (e ∷ bucket type t e.0)
    push_sum = omega arith

    pub push-IsTable : IsTable (push type t e)
    unfolding push
    push-IsTable =
        written-IsTable t e.0 (e ∷ bucket type t e.0) (t.used + 1) size v push_others push_sum

    pub shown-push :
        (q : K)
        → shown (push type t e) q ≡ (if type.key_compare q e.0 then e.1 ∷ shown t q else shown t q)
    unfolding push hits
    shown-push q = elim (Bool-cases (type.key_compare q e.0)) [
      | inl same ↦
          let eq = (type.key_compare_iff q e.0).0 same in
          let self =
            written_self t e.0 (e ∷ bucket type t e.0) (t.used + 1) size v push_others push_sum in
          rw same (
            subst (λ k. shown (push type t e) k ≡ e.1 ∷ shown t k) (sym eq)
              (self ∙ ground (arith, compare_self type e.0)))
      | inr ne ↦ rw ne (
          written_other t e.0 (e ∷ bucket type t e.0) (t.used + 1) size v push_others push_sum q ne)
    ]

  pub length-push : (t : HashTable K V) (e : K × V) → length (push type t e).table ≡ length t.table
  unfolding push
  length-push t e = length-set t.table (index type t e.0) (e ∷ bucket type t e.0)

  -- Where a key has a value, there is a bucket.
  pub room_of_shown : (t : HashTable K V) (k : K) → 0 < length (shown t k) → 0 < length t.table
  unfolding hits
  room_of_shown t k h = go t.table (index type t k) h
    where
      go :
          (bs : List (List (K × V))) (i : ℕ)
          → 0 < length (values k (get_or bs i []))
          → 0 < length bs
      go [] i h = h
      go (b ∷ bs) i h = omega arith
