-- ===== src/Intset/Upgrade.antt =====
-- `intsetUpgradeAndAdd` of redis-stable/src/intset.c: slots are widened in place, from the last to
-- the first, and no slot is overwritten before it is read.
use better_efisis.Prelude.{
  ℕ, zero, suc, ◌+◌, ◌*◌, ◌≤◌, ◌<◌, ◌≡◌, refl, ◌∙◌, inl, inr, arith, eq_cases,
}
use better_efisis.Prelude.Int.{ℤ}
use better_efisis.Intset.{Intset, get_encoded, set, upgrade_loop}
use better_efisis.Intset.Slots.{
  IsWidth, FitsIn, shape-set, get_encoded-set_self, get_encoded-set-Apart,
}
use better_efisis.Intset.Shape.{slot_within}

pub mul_mono : (c e i : ℕ) → IsWidth c → IsWidth e → c < e → i * c + c ≤ i * e + e
mul_mono c e i wc we h = ground arith

-- Widening `n` slots of `c` bytes: the values `g i` come to stand in slots of `s.encoding` bytes,
-- `d` places on (`d` is 0 or 1).
module _ (g : ℕ → ℤ) (c d e : ℕ) (wc : IsWidth c) (we : IsWidth e) (wider : c < e) where
  -- A wide slot does not meet the narrow slots before it.
  widened_apart : (i n : ℕ) → i < n → (i * c + c ≤ (n + d) * e)
  widened_apart i n h =
      omega (arith, mul_mono c e i wc we wider, slot_within e i (n + d) we (omega arith))

  pub record Widened (n total : ℕ) (s : Intset) : Type 0 where
    pub encoding : s.encoding ≡ e
    pub room : (total + d) * e ≤ s.contents.size
    pub narrow : (i : ℕ) → i < n → get_encoded s i c ≡ g i
    pub wide : (i : ℕ) → n ≤ i → i < total → get_encoded s (i + d) e ≡ g i

  step-Widened :
      (n total : ℕ) (s : Intset) (v : ℤ)
      → n < total
      → FitsIn e v
      → v ≡ g n
      → Widened (suc n) total s
      → Widened n total (set s (n + d) v)
  step-Widened n total s v h fits value w = record {
    encoding = (shape-set s (n + d) v).0 ∙ w.encoding;
    room = rw (shape-set s (n + d) v).2 w.room;
    narrow = λ i k.
        get_encoded-set-Apart s e we w.encoding (n + d) i c v wc (inr (widened_apart i n k))
        ∙ w.narrow i (omega arith);
    wide = λ i k l. elim (eq_cases i n) [
      | inl same ↦ rw same (
          get_encoded-set_self s e we w.encoding (n + d) v
            (omega (arith, w.room, slot_within e (n + d) (total + d) we (omega arith))) fits
          ∙ value)
      | inr other ↦
          get_encoded-set-Apart s e we w.encoding (n + d) (i + d) e v we
            (inl (slot_within e (n + d) (i + d) we (omega arith)))
          ∙ w.wide i (omega arith) l
    ];
  }

  -- After the loop all values stand in wide slots.
  pub upgrade_loop-Widened :
      (n total : ℕ) (s : Intset)
      → n ≤ total
      → ((i : ℕ) → i < total → FitsIn e (g i))
      → Widened n total s
      → Widened 0 total (upgrade_loop n d c s)
  unfolding upgrade_loop
  upgrade_loop-Widened zero total s h fits w = w
  upgrade_loop-Widened (suc n) total s h fits w =
      let value = w.narrow n (omega arith) in
      upgrade_loop-Widened n total (set s (n + d) (get_encoded s n c)) (omega arith) fits
        (step-Widened n total s (get_encoded s n c) h (rw value (fits n h)) value w)

pub shape-upgrade_loop :
    (n d c : ℕ) (s : Intset)
    → ((upgrade_loop n d c s).length ≡ s.length)
      × ((upgrade_loop n d c s).contents.size ≡ s.contents.size)
unfolding upgrade_loop
shape-upgrade_loop zero d c s = (refl, refl)
shape-upgrade_loop (suc n) d c s =
    let v = get_encoded s n c in
    let t = set s (n + d) v in
    (
      (shape-upgrade_loop n d c t).0 ∙ (shape-set s (n + d) v).1,
      (shape-upgrade_loop n d c t).1 ∙ (shape-set s (n + d) v).2,
    )
