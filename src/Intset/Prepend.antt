-- ===== src/Intset/Prepend.antt =====
-- `intsetUpgradeAndAdd` of redis-stable/src/intset.c as a whole: the new value goes before all
-- others or behind them.
use better_efisis.Prelude.{
  ℕ, ◌+◌, ◌-◌, ◌*◌, ◌%◌, ◌^◌, ◌≤◌, ◌<◌, ◌≡◌, refl, sym, ap, ◌∙◌, ◌⊎◌, ◌≢◌, inl, inr, arith,
  Bool-cases, if◌then◌else◌,
}
use mathlib.Core.Path.{subst}
use better_efisis.Prelude.Int.{ℤ, pos, ltb_ℤ, InBits}
use better_efisis.Intset.{
  Intset, get, get_encoded, set, resize, upgrade_loop, upgrade_and_add, value_encoding,
}
use better_efisis.Intset.Slots.{IsWidth, FitsIn, shape-set, get_encoded-resize}
use better_efisis.Intset.Width.{value_encoding-IsWidth, FitsIn-iff, FitsIn-mono}
use better_efisis.Intset.Shape.{
  IsValid, Inserted, slot_within, size_no_wrap, get-set_self, get-set_ne, get_at_width,
}
use better_efisis.Intset.Upgrade.{mul_mono, Widened, upgrade_loop-Widened, shape-upgrade_loop}
use better_efisis.Intset.Insert.{Fills, get-relength, size_resized}

mul_le_mul : (e m n : ℕ) → m ≤ n → m * e ≤ n * e
mul_le_mul e m n h = grind arith

module _ (s : Intset) (e : ℕ) where
  -- The array in its larger block, before the loop; after it; and at the end.
  abbrev enlarged : Intset
  enlarged = resize (record s { encoding = e }) (s.length + 1)

  abbrev widened : ℕ → Intset
  widened d = upgrade_loop s.length d s.encoding enlarged

  abbrev finished : ℕ → ℕ → ℤ → Intset
  finished d q v = let u = set (widened d) q v in record u { length = (u.length + 1) % 2 ^ 32 }

get_reencoded :
    (s : Intset) (e i : ℕ) → get_encoded (record s { encoding = e }) i s.encoding ≡ get s i
unfolding get get_encoded
get_reencoded s e i = refl

module _ (s : Intset) (valid : IsValid s) (e : ℕ) (we : IsWidth e) (wider : s.encoding < e) where
  module _ (short : s.length + 1 < 2 ^ 29) where
    enlarged_size : (enlarged s e).contents.size ≡ (s.length + 1) * e
    enlarged_size = size_resized (record s { encoding = e }) e (s.length + 1) we refl short

    enlarged-Widened :
        (d : ℕ)
        → d ≤ 1
        → Widened (get s) s.encoding d e valid.width we wider s.length s.length (enlarged s e)
    enlarged-Widened d h = record {
      encoding = (unfold resize in refl);
      room = rw enlarged_size (mul_le_mul e (s.length + d) (s.length + 1) (omega arith));
      narrow = λ i k.
          get_encoded-resize (record s { encoding = e }) (s.length + 1) i s.encoding valid.width
            (rw valid.full (slot_within s.encoding i s.length valid.width k))
            (rw (size_no_wrap e (s.length + 1) we short) (
              omega (
                arith,
                mul_mono s.encoding e i valid.width we wider,
                slot_within e i (s.length + 1) we (omega arith),
              )))
          ∙ get_reencoded s e i;
      wide = λ i k l. absurd (omega arith);
    }

    -- The value `v` is written at `q`, before the others or behind them.
    finish-Inserted :
        (d q : ℕ) (v : ℤ)
        → ((d ≡ 1) × (q ≡ 0)) ⊎ ((d ≡ 0) × (q ≡ s.length))
        → FitsIn e v
        → Inserted s q v (finished s e d q v) × Fills e (s.length + 1) (finished s e d q v)
    finish-Inserted d q v side fits =
        let t = widened s e d in
        let start = enlarged-Widened d (omega (arith, side)) in
        let wide =
          upgrade_loop-Widened (get s) s.encoding d e valid.width we wider s.length s.length
            (enlarged s e) (omega arith)
            (λ i k.
              FitsIn-mono s.encoding e (get s i) valid.width we (omega arith) (valid.fits i k))
            start in
        let wt : IsWidth t.encoding = rw wide.encoding we in
        let shape = shape-set t q v in
        let size : t.contents.size ≡ (s.length + 1) * e =
          (shape-upgrade_loop s.length d s.encoding (enlarged s e)).1 ∙ enlarged_size in
        let count : t.length ≡ s.length =
          (shape-upgrade_loop s.length d s.encoding (enlarged s e)).0 ∙ (unfold resize in refl) in
        let place : q ≤ s.length = omega (arith, side) in
        let other : (i j : ℕ)
            → j ≢ q
            → j ≡ i + d
            → i < s.length
            → get (finished s e d q v) j ≡ get s i =
          λ i j ne at k.
            get-relength (set t q v) _ j
            ∙ get-set_ne t wt q j v (λ h. ne (sym h))
            ∙ get_at_width t j e wide.encoding
            ∙ ap (λ m. get_encoded t m e) at
            ∙ wide.wide i (omega arith) k in
        (
          record {
            place = place;
            longer = omega (arith, shape.1, count, short);
            before = λ i k. other i i (omega arith) (omega (arith, side)) (omega arith);
            here =
                get-relength (set t q v) _ q
                ∙ get-set_self t wt q v
                    (rw (wide.encoding, size) (slot_within e q (s.length + 1) we (omega arith)))
                    (rw wide.encoding fits);
            after = λ i k l. other (i - 1) i (omega arith) (omega (arith, side)) (omega arith);
          },
          record { encoding = shape.0 ∙ wide.encoding; size = shape.2 ∙ size },
        )

-- `upgrade_and_add` puts a negative value before all others, and any other value behind them.
abbrev pub upgrade_place : Intset → ℤ → ℕ
upgrade_place s v = if ltb_ℤ v (pos 0) then 0 else s.length

pub upgrade_and_add-Inserted :
    (s : Intset) (v : ℤ)
    → IsValid s
    → InBits 64 v
    → s.encoding < value_encoding v
    → s.length + 1 < 2 ^ 29
    → Inserted s (upgrade_place s v) v (upgrade_and_add s v)
      × Fills (value_encoding v) (s.length + 1) (upgrade_and_add s v)
unfolding upgrade_and_add
upgrade_and_add-Inserted s v valid bits wider short = elim (Bool-cases (ltb_ℤ v (pos 0))) [
  | inl negative ↦ rw negative (finish 1 0 v (inl (refl, refl)) fits)
  | inr other ↦
      let t = widened s (value_encoding v) 0 in
      let count : t.length ≡ s.length =
        (shape-upgrade_loop s.length 0 s.encoding (enlarged s (value_encoding v))).0
        ∙ (unfold resize in refl) in
      let r = finish 0 t.length v (inr (refl, count)) fits in
      rw other
        (subst (λ p. Inserted s p v (finished s (value_encoding v) 0 t.length v)) count r.0, r.1)
]
  where
    fits : FitsIn (value_encoding v) v
    fits = (FitsIn-iff (value_encoding v) v (value_encoding-IsWidth v) bits).1 (omega arith)

    finish :
        (d q : ℕ) (v' : ℤ)
        → ((d ≡ 1) × (q ≡ 0)) ⊎ ((d ≡ 0) × (q ≡ s.length))
        → FitsIn (value_encoding v) v'
        → Inserted s q v' (finished s (value_encoding v) d q v')
          × Fills (value_encoding v) (s.length + 1) (finished s (value_encoding v) d q v')
    finish = finish-Inserted s valid (value_encoding v) (value_encoding-IsWidth v) wider short
