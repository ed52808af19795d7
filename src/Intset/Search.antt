-- ===== src/Intset/Search.antt =====
-- `intsetSearch` of redis-stable/src/intset.c: the binary search finds the value, or the place at
-- which it belongs.
use better_efisis.Prelude.{
  ℕ, zero, suc, ◌+◌, ◌-◌, ◌/◌, ◌^◌, ◌≤◌, ◌<◌, ◌≡◌, ◌⊎◌, inl, inr, ◌≢◌, Bool, true, false, arith,
  Bool-cases, sym, leb, ◌==◌, if◌then◌else◌,
}
use better_efisis.Prelude.Int.{ℤ, negsuc, ◌<ℤ◌, eq_of_parts, ltb_ℤ}
use better_efisis.Intset.{Intset, get, search_loop, search_result, search, eqb_ℤ}

-- Slots hold ascending values.
abbrev pub IsSorted : Intset → Type 0
IsSorted s = (i j : ℕ) → i < j → j < s.length → get s i <ℤ get s j

-- The value stands at the slot that the search names, or belongs exactly there.
abbrev pub Located : Intset → ℤ → Bool × ℕ → Type 0
Located s v (true, p) = (p < s.length) × (get s p ≡ v)
Located s v (false, p) =
    (p ≤ s.length)
    × ((i : ℕ) → i < p → get s i <ℤ v)
    × ((i : ℕ) → p ≤ i → i < s.length → v <ℤ get s i)

eqb_refl : (a : ℤ) → eqb_ℤ a a ≡ true
eqb_refl a = ground arith

eqb_of_ne : (a b : ℤ) → a ≢ b → eqb_ℤ a b ≡ false
eqb_of_ne a b ne = ground (arith, eq_of_parts a b)

ne_of_lt : (a b : ℤ) → a <ℤ b → a ≢ b
ne_of_lt a b h e = ground arith

order_cases :
    (a b : ℤ)
    → ((ltb_ℤ a b ≡ true) × (a <ℤ b))
      ⊎ ((ltb_ℤ a b ≡ false) × (ltb_ℤ b a ≡ true) × (b <ℤ a))
      ⊎ ((ltb_ℤ a b ≡ false) × (ltb_ℤ b a ≡ false) × (a ≡ b))
order_cases a b = ground (arith, eq_of_parts a b)

ended : (lo hi : ℕ) (cur : ℤ) {v : ℤ} → hi ≤ lo → (lo < hi) ⊎ (cur ≢ v) → cur ≢ v
ended lo hi cur h (inl lt) = absurd (omega arith)
ended lo hi cur h (inr ne) = ne

module _ (s : Intset) (v : ℤ) (sorted : IsSorted s) where
  le_of_sorted : (i j : ℕ) → i ≤ j → j < s.length → (get s i <ℤ get s j) ⊎ (i ≡ j)
  le_of_sorted i j h k = grind (arith, sorted i j)

  below_all : (m i : ℕ) → m < s.length → get s m <ℤ v → i < m + 1 → get s i <ℤ v
  below_all m i hm lt h = ground (arith, sorted i m)

  above_all : (m i : ℕ) → v <ℤ get s m → m ≤ i → i < s.length → v <ℤ get s i
  above_all m i lt h hi = ground (arith, sorted m i)

  -- What the loop knows of its variables.
  record Inv (fuel lo hi : ℕ) (cur : ℤ) : Type 0 where
    ordered : lo ≤ hi
    within : hi ≤ s.length
    fuel_left : hi ≤ lo + fuel
    left : (i : ℕ) → i < lo → get s i <ℤ v
    right : (i : ℕ) → hi ≤ i → i < s.length → v <ℤ get s i
    unseen : (lo < hi) ⊎ (cur ≢ v)

  -- The loop ends by its test, or by its `break`.
  not_found :
      (lo hi mid : ℕ) (cur : ℤ)
      → hi ≤ lo
      → cur ≢ v
      → {fuel : ℕ} → Inv fuel lo hi cur
      → Located s v (search_result v (lo, mid, cur))
  not_found lo hi mid cur end ne inv = rw (eqb_of_ne v cur (λ e. ne (sym e))) (
    omega (arith, inv.within, inv.ordered),
    inv.left,
    λ i h k. inv.right i (omega (arith, inv.ordered)) k,
  )

  found : (lo m : ℕ) → m < s.length → get s m ≡ v → Located s v (search_result v (lo, m, get s m))
  found lo m h e = rw (e, eqb_refl v) (h, e)

  search_loop-Located :
      (fuel lo hi mid : ℕ) (cur : ℤ)
      → Inv fuel lo hi cur
      → Located s v (search_result v (search_loop fuel s v lo hi mid cur))
  unfolding search_loop
  search_loop-Located zero lo hi mid cur inv =
      not_found lo hi mid cur (omega arith) (ended lo hi cur (omega arith) inv.unseen) inv
  search_loop-Located (suc fuel) lo hi mid cur inv = elim (Bool-cases (leb hi lo)) [
    | inl end ↦
        rw end
          (not_found lo hi mid cur (ground arith) (ended lo hi cur (ground arith) inv.unseen) inv)
    | inr more ↦
        let m = (lo + (hi - 1)) / 2 in
        let lt : lo < hi = ground arith in
        let hm : m < s.length = omega (arith, inv.within) in
        elim (order_cases (get s m) v) [
          | inl (up, less) ↦
              rw (more, up)
                (search_loop-Located fuel (m + 1) hi m (get s m) (record {
                  ordered = omega arith;
                  within = inv.within;
                  fuel_left = omega (arith, inv.fuel_left);
                  left = λ i h. below_all m i hm less h;
                  right = inv.right;
                  unseen = inr (ne_of_lt _ _ less);
                }))
          | inr (inl (not_up, down, greater)) ↦
              rw (more, not_up, down)
                (search_loop-Located fuel lo m m (get s m) (record {
                  ordered = omega arith;
                  within = omega (arith, inv.within);
                  fuel_left = omega (arith, inv.fuel_left);
                  left = inv.left;
                  right = λ i h k. above_all m i greater h k;
                  unseen = inr (λ e. ne_of_lt _ _ greater (sym e));
                }))
          | inr (inr (not_up, not_down, same)) ↦ rw (more, not_up, not_down) (found lo m hm same)
        ]
  ]

  whole : 0 < s.length → Inv s.length 0 s.length (negsuc 0)
  whole h = record {
    ordered = omega arith;
    within = omega arith;
    fuel_left = omega arith;
    left = λ i k. absurd (omega arith);
    right = λ i k l. absurd (omega arith);
    unseen = inl h;
  }

  -- The search past the test of the last slot.
  from_first :
      0 < s.length
      → Located s v (
          if ltb_ℤ v (get s 0)
          then (false, 0)
          else search_result v (search_loop s.length s v 0 s.length (2 ^ 32 - 1) (negsuc 0)))
  from_first h = elim (Bool-cases (ltb_ℤ v (get s 0))) [
    | inl before ↦ rw before (
      omega arith,
      λ i k. absurd (omega arith),
      λ i k l. above_all 0 i (ground arith) (omega arith) l,
    )
    | inr inside ↦
        rw inside (search_loop-Located s.length 0 s.length (2 ^ 32 - 1) (negsuc 0) (whole h))
  ]

  -- `intsetSearch` answers whether the value is in a sorted set. If so, `*pos` is its slot;
  -- otherwise all slots before `*pos` hold smaller values and all from `*pos` on larger ones.
  pub search-Located : Located s v (search s v)
  unfolding search
  search-Located = elim (Bool-cases (s.length == 0)) [
    | inl empty ↦
        rw empty (omega arith, λ i h. absurd (omega arith), λ i h k. absurd (ground arith))
    | inr some_slot ↦
        let last = s.length - 1 in
        let hl : last < s.length = ground arith in
        elim (order_cases (get s last) v) [
          | inl (after, less) ↦
              rw (some_slot, after)
                (
                  omega arith,
                  λ i h. below_all last i hl less (omega arith),
                  λ i h k. absurd (omega arith),
                )
          | inr (inl (not_after, _, _)) ↦ rw (some_slot, not_after) (from_first (ground arith))
          | inr (inr (not_after, _, _)) ↦ rw (some_slot, not_after) (from_first (ground arith))
        ]
  ]
