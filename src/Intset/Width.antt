-- ===== src/Intset/Width.antt =====
-- `_intsetValueEncoding` of redis-stable/src/intset.c: the narrowest slot for a value.
use better_efisis.Prelude.{ℕ, ◌≤◌, ◌<◌, inl, inr, ◌↔◌, arith}
use better_efisis.Prelude.Int.{ℤ, pos, negsuc, InBits, ◌<ℤ◌, ◌≤ℤ◌}
use better_efisis.Intset.{value_encoding}
use better_efisis.Intset.Slots.{IsWidth, FitsIn}

pub value_encoding-IsWidth : (v : ℤ) → IsWidth (value_encoding v)
unfolding value_encoding
value_encoding-IsWidth v = ground arith

value_encoding_at :
    (v : ℤ)
    → InBits 64 v
    → (FitsIn 2 v ↔ (value_encoding v ≤ 2)) × (FitsIn 4 v ↔ (value_encoding v ≤ 4)) × (FitsIn 8 v)
unfolding value_encoding
value_encoding_at (pos n) h = ground arith
value_encoding_at (negsuc n) h = ground arith

value_encoding-le : (v : ℤ) → value_encoding v ≤ 8
unfolding value_encoding
value_encoding-le v = ground arith

-- A 64-bit value fits in slots of `e` bytes exactly if `e` is at least the width that
-- `_intsetValueEncoding` gives.
pub FitsIn-iff : (e : ℕ) (v : ℤ) → IsWidth e → InBits 64 v → FitsIn e v ↔ (value_encoding v ≤ e)
FitsIn-iff e v (inl h) b = rw h (value_encoding_at v b).0
FitsIn-iff e v (inr (inl h)) b = rw h (value_encoding_at v b).1
FitsIn-iff e v (inr (inr h)) b = rw h (λ _. value_encoding-le v, λ _. (value_encoding_at v b).2)

mono_at : (v : ℤ) → (FitsIn 2 v → FitsIn 4 v) × (FitsIn 4 v → FitsIn 8 v)
mono_at (pos n) = (λ h. omega (arith, h), λ h. omega (arith, h))
mono_at (negsuc n) = (λ h. omega (arith, h), λ h. omega (arith, h))

-- What fits in a slot fits in a wider one.
pub FitsIn-mono : (c e : ℕ) (v : ℤ) → IsWidth c → IsWidth e → c ≤ e → FitsIn c v → FitsIn e v
FitsIn-mono c e v (inl p) (inl q) h f = rw q (rw p at f)
FitsIn-mono c e v (inl p) (inr (inl q)) h f = rw q ((mono_at v).0 (rw p at f))
FitsIn-mono c e v (inl p) (inr (inr q)) h f = rw q ((mono_at v).1 ((mono_at v).0 (rw p at f)))
FitsIn-mono c e v (inr (inl p)) (inl q) h f = absurd (omega arith)
FitsIn-mono c e v (inr (inl p)) (inr (inl q)) h f = rw q (rw p at f)
FitsIn-mono c e v (inr (inl p)) (inr (inr q)) h f = rw q ((mono_at v).1 (rw p at f))
FitsIn-mono c e v (inr (inr p)) (inl q) h f = absurd (omega arith)
FitsIn-mono c e v (inr (inr p)) (inr (inl q)) h f = absurd (omega arith)
FitsIn-mono c e v (inr (inr p)) (inr (inr q)) h f = rw q (rw p at f)

below_2 : (v x : ℤ) → FitsIn 2 x → 2 < value_encoding v → v <ℤ pos 0 → v <ℤ x
unfolding value_encoding
below_2 v (pos n) f h k = ground arith
below_2 v (negsuc n) f h k = ground arith

below_4 : (v x : ℤ) → FitsIn 4 x → 4 < value_encoding v → v <ℤ pos 0 → v <ℤ x
unfolding value_encoding
below_4 v (pos n) f h k = ground arith
below_4 v (negsuc n) f h k = ground arith

above_2 : (v x : ℤ) → FitsIn 2 x → 2 < value_encoding v → pos 0 ≤ℤ v → x <ℤ v
unfolding value_encoding
above_2 v (pos n) f h k = ground arith
above_2 v (negsuc n) f h k = ground arith

above_4 : (v x : ℤ) → FitsIn 4 x → 4 < value_encoding v → pos 0 ≤ℤ v → x <ℤ v
unfolding value_encoding
above_4 v (pos n) f h k = ground arith
above_4 v (negsuc n) f h k = ground arith

-- A value that needs a wider slot lies outside all values that fit, on the side of its sign.
pub outside_below :
    (c : ℕ) (v x : ℤ) → IsWidth c → FitsIn c x → c < value_encoding v → v <ℤ pos 0 → v <ℤ x
outside_below c v x (inl p) f h neg = below_2 v x (rw p at f) (rw p at h) neg
outside_below c v x (inr (inl p)) f h neg = below_4 v x (rw p at f) (rw p at h) neg
outside_below c v x (inr (inr p)) f h neg = absurd (omega (arith, value_encoding-le v))

pub outside_above :
    (c : ℕ) (v x : ℤ) → IsWidth c → FitsIn c x → c < value_encoding v → pos 0 ≤ℤ v → x <ℤ v
outside_above c v x (inl p) f h nonneg = above_2 v x (rw p at f) (rw p at h) nonneg
outside_above c v x (inr (inl p)) f h nonneg = above_4 v x (rw p at f) (rw p at h) nonneg
outside_above c v x (inr (inr p)) f h nonneg = absurd (omega (arith, value_encoding-le v))
