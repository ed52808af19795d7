-- ===== src/Intset/Insert.antt =====
-- `intsetAdd` and `intsetRemove` of redis-stable/src/intset.c past the search: one slot is opened or
-- closed, and the others keep their values.
use better_efisis.Prelude.{
  ℕ, ◌+◌, ◌-◌, ◌*◌, ◌%◌, ◌^◌, ◌≤◌, ◌<◌, ◌≡◌, refl, ap, ◌∙◌, inl, inr, arith, Bool-cases, ltb,
  if◌then◌else◌,
}
use better_efisis.Prelude.Int.{ℤ}
use better_efisis.Blob.{realloc}
use better_efisis.Intset.{Intset, get, get_encoded, set, resize, move_tail, insert_at, delete_at}
use better_efisis.Intset.Slots.{IsWidth, FitsIn, shape-set, shape-move_tail}
use better_efisis.Intset.Shape.{
  IsValid, Inserted, Deleted, slot_within, size_no_wrap, get-set_self, get-set_ne, get-resize,
  get-move_tail_inside, get-move_tail_before,
}

-- Slots are read through the encoding and the contents alone.
pub get-relength : (t : Intset) (n i : ℕ) → get (record t { length = n }) i ≡ get t i
unfolding get get_encoded
get-relength t n i = refl

-- The block is as large as its slots need.
pub record Fills (e n : ℕ) (t : Intset) : Type 0 where
  pub encoding : t.encoding ≡ e
  pub size : t.contents.size ≡ n * e

shrunk_le : (e n : ℕ) → (n - 1) * e ≤ n * e
shrunk_le e n = grind arith

pub size_resized :
    (t : Intset) (e n : ℕ)
    → IsWidth e
    → t.encoding ≡ e
    → n < 2 ^ 29
    → (resize t n).contents.size ≡ n * e
unfolding resize realloc
size_resized t e n w q short = ap (λ k. n * k % 2 ^ 32) q ∙ size_no_wrap e n w short

module _ (s : Intset) (valid : IsValid s) where
  -- The slot `p` of an array that was enlarged by one is opened.
  opened : ℕ → Intset
  opened p =
      if ltb p s.length
      then move_tail (resize s (s.length + 1)) p (p + 1)
      else resize s (s.length + 1)

  record Opened (p : ℕ) (t : Intset) : Type 0 where
    encoding : t.encoding ≡ s.encoding
    size : t.contents.size ≡ (s.length + 1) * s.encoding
    count : t.length ≡ s.length
    before : (i : ℕ) → i < p → get t i ≡ get s i
    after : (i : ℕ) → p < i → i < s.length + 1 → get t i ≡ get s (i - 1)

  module _ (short : s.length + 1 < 2 ^ 29) where
    resized : (i : ℕ) → i < s.length → get (resize s (s.length + 1)) i ≡ get s i
    resized i h =
        get-resize s valid.width (s.length + 1) i short (omega arith)
          (rw valid.full (slot_within s.encoding i s.length valid.width h))

    resized_size : (resize s (s.length + 1)).contents.size ≡ (s.length + 1) * s.encoding
    resized_size = size_resized s s.encoding (s.length + 1) valid.width refl short

    moved : (p : ℕ) → p < s.length → Opened p (move_tail (resize s (s.length + 1)) p (p + 1))
    unfolding resize realloc
    moved p h =
        let r = resize s (s.length + 1) in
        let shape = shape-move_tail r p (p + 1) in
        record {
          encoding = shape.0;
          size = shape.2 ∙ resized_size;
          count = shape.1;
          before = λ i k.
              get-move_tail_before r valid.width p (p + 1) i (omega arith)
              ∙ resized i (omega arith);
          after = λ i k l.
              get-move_tail_inside r valid.width p (p + 1) i (omega arith) (omega arith) (
                let e : p + 1 + (s.length - p) ≡ s.length + 1 = omega arith in
                rw (e, resized_size) (omega arith))
              ∙ ap (get r) (omega arith)
              ∙ resized (i - 1) (omega arith);
        }

    kept : (p : ℕ) → p ≡ s.length → Opened p (resize s (s.length + 1))
    unfolding resize realloc
    kept p h = record {
      encoding = refl;
      size = resized_size;
      count = refl;
      before = λ i k. resized i (omega arith);
      after = λ i k l. absurd (omega arith);
    }

    opened-Opened : (p : ℕ) → p ≤ s.length → Opened p (opened p)
    unfolding opened
    opened-Opened p h = elim (Bool-cases (ltb p s.length)) [
      | inl inside ↦ rw inside (moved p (ground arith))
      | inr end ↦ rw end (kept p (ground arith))
    ]

    -- `insert_at` puts the value before the slot `p` of the array.
    pub insert_at-Inserted :
        (p : ℕ) (v : ℤ)
        → p ≤ s.length
        → FitsIn s.encoding v
        → Inserted s p v (insert_at s p v) × Fills s.encoding (s.length + 1) (insert_at s p v)
    unfolding insert_at opened resize
    insert_at-Inserted p v h fits =
        let o = opened-Opened p h in
        let t = opened p in
        let w : IsWidth t.encoding = rw o.encoding valid.width in
        let u = set t p v in
        let shape = shape-set t p v in
        let room : p * t.encoding + t.encoding ≤ t.contents.size =
          rw (o.encoding, o.size)
            (slot_within s.encoding p (s.length + 1) valid.width (omega arith)) in
        let fits' : FitsIn t.encoding v = rw o.encoding fits in
        (
          record {
            place = h;
            longer = omega (arith, shape.1, o.count);
            before = λ i k. get-relength u _ i ∙ get-set_ne t w p i v (omega arith) ∙ o.before i k;
            here = get-relength u _ p ∙ get-set_self t w p v room fits';
            after =
                λ i k l. get-relength u _ i ∙ get-set_ne t w p i v (omega arith) ∙ o.after i k l;
          },
          record { encoding = shape.0 ∙ o.encoding; size = shape.2 ∙ o.size },
        )

  -- The slots from `p + 1` on move down over the slot `p`.
  record Closed (p : ℕ) (t : Intset) : Type 0 where
    encoding : t.encoding ≡ s.encoding
    size : t.contents.size ≡ s.contents.size
    before : (i : ℕ) → i < p → get t i ≡ get s i
    after : (i : ℕ) → p ≤ i → i + 1 < s.length → get t i ≡ get s (i + 1)

  closed : ℕ → Intset
  closed p = if ltb p (s.length - 1) then move_tail s (p + 1) p else s

  closed-Closed : (p : ℕ) → p < s.length → Closed p (closed p)
  unfolding closed
  closed-Closed p h = elim (Bool-cases (ltb p (s.length - 1))) [
    | inl inside ↦
        let shape = shape-move_tail s (p + 1) p in
        rw inside (record {
          encoding = shape.0;
          size = shape.2;
          before = λ i k. get-move_tail_before s valid.width (p + 1) p i k;
          after = λ i k l.
              get-move_tail_inside s valid.width (p + 1) p i k (omega arith) (
                let e : p + (s.length - (p + 1)) ≡ s.length - 1 = omega arith in
                rw (e, valid.full) (shrunk_le s.encoding s.length))
              ∙ ap (get s) (omega arith);
        })
    | inr end ↦ rw end (record {
      encoding = refl;
      size = refl;
      before = λ i k. refl;
      after = λ i k l. absurd (ground arith);
    })
  ]

  -- `delete_at` closes the slot `p`.
  pub delete_at-Deleted :
      (p : ℕ)
      → p < s.length
      → Deleted s p (delete_at s p) × Fills s.encoding (s.length - 1) (delete_at s p)
  unfolding delete_at closed
  delete_at-Deleted p h =
      let c = closed-Closed p h in
      let t = closed p in
      let u = resize t (s.length - 1) in
      let w : IsWidth t.encoding = rw c.encoding valid.width in
      let small : s.length - 1 < 2 ^ 29 = omega (arith, valid.short) in
      let kept : (i : ℕ) → i < s.length - 1 → get u i ≡ get t i = λ i k.
        get-resize t w (s.length - 1) i small k (
          rw (c.encoding, c.size, valid.full)
            (slot_within s.encoding i s.length valid.width (omega arith))) in
      (
        record {
          place = h;
          shorter = omega arith;
          before = λ i k. get-relength u _ i ∙ kept i (omega arith) ∙ c.before i k;
          after = λ i k l. get-relength u _ i ∙ kept i l ∙ c.after i k (omega arith);
        },
        record {
          encoding = (unfold resize in c.encoding);
          size = size_resized t s.encoding (s.length - 1) valid.width c.encoding small;
        },
      )
