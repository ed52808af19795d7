-- ===== src/Intset/Ops.antt =====
-- The operations of redis-stable/src/intset.c keep the invariant and act as those of a set.
use better_efisis.Prelude.{
  ℕ, ◌+◌, ◌-◌, ◌^◌, ◌≤◌, ◌<◌, ◌≡◌, refl, sym, ◌∙◌, ◌⊎◌, inl, inr, ◌↔◌, ◌≢◌, Bool, true, false,
  arith, Bool-cases, lt_cases, ltb, if◌then◌else◌,
}
use mathlib.Core.Path.{subst}
use better_efisis.Prelude.Int.{ℤ, pos, InBits, ltb_ℤ}
use better_efisis.Intset.{
  Intset, get, value_encoding, new, search, upgrade_and_add, insert_at, add, delete_at, remove,
  find,
}
use better_efisis.Intset.Slots.{IsWidth, FitsIn}
use better_efisis.Intset.Width.{
  value_encoding-IsWidth, FitsIn-iff, FitsIn-mono, outside_below, outside_above,
}
use better_efisis.Intset.Search.{Located, search-Located}
use better_efisis.Intset.Shape.{
  IsValid, IsMember, Inserted, Inserted-value, Inserted-IsSorted, IsMember-Inserted, Deleted,
  Deleted-value, Deleted-IsSorted, IsMember-Deleted,
}
use better_efisis.Intset.Insert.{Fills, insert_at-Inserted, delete_at-Deleted}
use better_efisis.Intset.Prepend.{upgrade_place, upgrade_and_add-Inserted}

-- `intsetNew` gives a valid set with no member.
pub new-IsValid : IsValid new × ((x : ℤ) → ¬ IsMember new x)
unfolding new
new-IsValid = (
  record {
    width = inl refl;
    full = refl;
    short = omega arith;
    sorted = λ i j h k. absurd (omega arith);
    fits = λ i h. absurd (omega arith);
  },
  λ x m. absurd (omega (arith, m.1)),
)

Inserted-IsValid :
    {s t : Intset} {p e : ℕ} {v : ℤ}
    → IsValid s
    → IsWidth e
    → s.encoding ≤ e
    → FitsIn e v
    → s.length + 1 < 2 ^ 29
    → Located s v (false, p)
    → Inserted s p v t
    → Fills e (s.length + 1) t
    → IsValid t
Inserted-IsValid {s} {t} {p} {e} {v} valid we wider fits short loc ins fill = record {
  width = rw fill.encoding we;
  full = fill.size ∙ (rw (fill.encoding, ins.longer));
  short = rw ins.longer short;
  sorted = Inserted-IsSorted valid.sorted loc ins;
  fits = λ i h. subst (λ k. FitsIn k (get t i)) (sym fill.encoding) (fits_at i h);
}
  where
    old : (i : ℕ) → i < s.length → FitsIn e (get s i)
    old i h = FitsIn-mono s.encoding e (get s i) valid.width we wider (valid.fits i h)

    fits_at : (i : ℕ) → i < t.length → FitsIn e (get t i)
    fits_at i h = elim (Inserted-value i ins h) [
      | inl (a, f) ↦ rw f (old i (omega (arith, ins.place)))
      | inr (inl (a, f)) ↦ rw f fits
      | inr (inr (a, f)) ↦ rw f (old (i - 1) (omega (arith, ins.longer)))
    ]

-- A value too wide for the slots belongs where `intsetUpgradeAndAdd` puts it.
upgrade-Located :
    (s : Intset) (v : ℤ)
    → IsValid s
    → s.encoding < value_encoding v
    → Located s v (false, upgrade_place s v)
upgrade-Located s v valid wider = elim (Bool-cases (ltb_ℤ v (pos 0))) [
  | inl negative ↦ rw negative (
    omega arith,
    λ i h. absurd (omega arith),
    λ i h k. outside_below s.encoding v (get s i) valid.width (valid.fits i k) wider (ground arith),
  )
  | inr other ↦ rw other (
    omega arith,
    λ i h. outside_above s.encoding v (get s i) valid.width (valid.fits i h) wider (ground arith),
    λ i h k. absurd (omega arith),
  )
]

-- What `intsetAdd` promises of its result and of `*success`.
pub record Added (s : Intset) (v : ℤ) (r : Intset × Bool) : Type 0 where
  pub valid : IsValid r.0
  pub members : (x : ℤ) → IsMember r.0 x ↔ ((x ≡ v) ⊎ IsMember s x)
  pub success : (r.1 ≡ true) ↔ (¬ IsMember s v)

not-IsMember : (s : Intset) (v : ℤ) (p : ℕ) → Located s v (false, p) → ¬ IsMember s v
not-IsMember s v p (_, less, greater) (i, h, e) = elim (lt_cases i p) [
  | inl a ↦ ground (arith, less i a)
  | inr a ↦ ground (arith, greater i a h)
]

module _ (s : Intset) (v : ℤ) (valid : IsValid s) (bits : InBits 64 v) where
  Inserted-Added :
      (p e : ℕ) (t : Intset)
      → IsWidth e
      → s.encoding ≤ e
      → FitsIn e v
      → s.length + 1 < 2 ^ 29
      → Located s v (false, p)
      → Inserted s p v t × Fills e (s.length + 1) t
      → Added s v (t, true)
  Inserted-Added p e t we wider fits short loc (ins, fill) = record {
    valid = Inserted-IsValid valid we wider fits short loc ins fill;
    members = λ x. IsMember-Inserted x ins;
    success = (λ _. not-IsMember s v p loc, λ _. refl);
  }

  fits_narrow : ltb s.encoding (value_encoding v) ≡ false → FitsIn s.encoding v
  fits_narrow h = (FitsIn-iff s.encoding v valid.width bits).1 (ground arith)

  add_by_search :
      (r : Bool × ℕ)
      → FitsIn s.encoding v
      → s.length + 1 < 2 ^ 29
      → Located s v r
      → Added s v (if r.0 then (s, false) else (insert_at s r.1 v, true))
  add_by_search (true, p) fits short loc = record {
    valid = valid;
    members = λ x. (inr, elim [ inl e ↦ (p, loc.0, loc.1 ∙ sym e) | inr m ↦ m ]);
    success = (λ e. cc, λ n. absurd (n (p, loc.0, loc.1)));
  }
  add_by_search (false, p) fits short loc =
      Inserted-Added p s.encoding (insert_at s p v) valid.width (omega arith) fits short loc
        (insert_at-Inserted s valid short p v loc.0 fits)

  -- `intsetAdd` of any 64-bit value to a valid set of fewer than 2^29 - 1 values gives a valid
  -- set, whether it widens the slots or not. The members are the value and the members there were,
  -- and `*success` is set exactly if the value was no member.
  pub add-Added : s.length + 1 < 2 ^ 29 → Added s v (add s v)
  unfolding add
  add-Added short = elim (Bool-cases (ltb s.encoding (value_encoding v))) [
    | inl wider ↦ rw wider (
        Inserted-Added (upgrade_place s v) (value_encoding v) (upgrade_and_add s v)
          (value_encoding-IsWidth v) (ground arith)
          ((FitsIn-iff (value_encoding v) v (value_encoding-IsWidth v) bits).1 (omega arith)) short
          (upgrade-Located s v valid (ground arith))
          (upgrade_and_add-Inserted s v valid bits (ground arith) short))
    | inr narrow ↦
        rw narrow
          (add_by_search (search s v) (fits_narrow narrow) short (search-Located s v valid.sorted))
  ]

-- What `intsetRemove` promises of its result and of `*success`.
pub record Removed (s : Intset) (v : ℤ) (r : Intset × Bool) : Type 0 where
  pub valid : IsValid r.0
  pub members : (x : ℤ) → IsMember r.0 x ↔ ((x ≢ v) × IsMember s x)
  pub success : (r.1 ≡ true) ↔ IsMember s v

Deleted-IsValid :
    {s t : Intset} {p : ℕ}
    → IsValid s
    → Deleted s p t
    → Fills s.encoding (s.length - 1) t
    → IsValid t
Deleted-IsValid {s} {t} {p} valid del fill = record {
  width = rw fill.encoding valid.width;
  full =
      fill.size
      ∙ (let e : t.length ≡ s.length - 1 = omega (arith, del.shorter) in rw (fill.encoding, e));
  short = omega (arith, del.shorter, valid.short);
  sorted = Deleted-IsSorted valid.sorted del;
  fits = λ i h.
      subst (λ k. FitsIn k (get t i)) (sym fill.encoding)
        (elim (Deleted-value i del h) [
          | inl (a, f) ↦ rw f (valid.fits i (omega (arith, del.shorter)))
          | inr (a, f) ↦ rw f (valid.fits (i + 1) (omega (arith, del.shorter)))
        ]);
}

module _ (s : Intset) (v : ℤ) (valid : IsValid s) where
  too_wide : InBits 64 v → s.encoding < value_encoding v → ¬ IsMember s v
  too_wide bits wider (i, h, e) =
      omega (arith, (FitsIn-iff s.encoding v valid.width bits).0 (rw e at (valid.fits i h)))

  untouched : ¬ IsMember s v → Removed s v (s, false)
  untouched absent = record {
    valid = valid;
    members = λ x. (λ m. (λ e. absent (rw e at m), m), λ q. q.1);
    success = (λ e. cc, λ m. absurd (absent m));
  }

  remove_by_search :
      (r : Bool × ℕ)
      → Located s v r
      → Removed s v (if r.0 then (delete_at s r.1, true) else (s, false))
  remove_by_search (true, p) loc =
      let d = delete_at-Deleted s valid p loc.0 in
      record {
        valid = Deleted-IsValid valid d.0 d.1;
        members = λ x. rw loc.1 at (IsMember-Deleted valid.sorted x d.0);
        success = (λ _. (p, loc.0, loc.1), λ _. refl);
      }
  remove_by_search (false, p) loc = untouched (not-IsMember s v p loc)

  -- `intsetRemove` of a 64-bit value from a valid set gives a valid set, whose members are the
  -- members there were but the value; `*success` is set exactly if the value was a member.
  pub remove-Removed : InBits 64 v → Removed s v (remove s v)
  unfolding remove
  remove-Removed bits = elim (Bool-cases (ltb s.encoding (value_encoding v))) [
    | inl wider ↦ rw wider (untouched (too_wide bits (ground arith)))
    | inr narrow ↦ rw narrow (remove_by_search (search s v) (search-Located s v valid.sorted))
  ]

  find_by_search : (r : Bool × ℕ) → Located s v r → (r.0 ≡ true) ↔ IsMember s v
  find_by_search (true, p) loc = (λ _. (p, loc.0, loc.1), λ _. refl)
  find_by_search (false, p) loc = (λ e. cc, λ m. absurd (not-IsMember s v p loc m))

  -- `intsetFind` of a 64-bit value in a valid set answers whether the value is a member.
  pub find_iff : InBits 64 v → (find s v ≡ true) ↔ IsMember s v
  unfolding find
  find_iff bits = elim (Bool-cases (ltb s.encoding (value_encoding v))) [
    | inl wider ↦ rw wider (λ e. cc, λ m. absurd (too_wide bits (ground arith) m))
    | inr narrow ↦ rw narrow (find_by_search (search s v) (search-Located s v valid.sorted))
  ]
