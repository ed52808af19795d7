-- ===== src/Intset/Shape.antt =====
-- The invariant of an intset, and what inserting and deleting one slot does to its values.
use better_efisis.Prelude.{
  ℕ, ◌+◌, ◌-◌, ◌*◌, ◌%◌, ◌^◌, ◌≤◌, ◌<◌, ◌≡◌, refl, sym, ap, ◌∙◌, ◌⊎◌, inl, inr, ◌↔◌, ◌≢◌, false,
  arith, lt_cases, eq_cases,
}
use native.Mathlib.Nat.{add-mul}
use better_efisis.Prelude.Int.{ℤ}
use better_efisis.Intset.{Intset, get, get_encoded, set, resize, move_tail}
use better_efisis.Intset.Slots.{
  IsWidth, FitsIn, shape-set, shape-move_tail, get_encoded-set_self, get_encoded-set-Apart,
  get_encoded-resize, get_encoded-move_tail_inside, get_encoded-move_tail-Apart,
}
use better_efisis.Intset.Search.{IsSorted, Located}

-- A sorted array that fills its block, in slots wide enough for its values.
pub record IsValid (s : Intset) : Type 0 where
  pub width : IsWidth s.encoding
  pub full : s.contents.size ≡ s.length * s.encoding
  pub short : s.length < 2 ^ 29
  pub sorted : IsSorted s
  pub fits : (i : ℕ) → i < s.length → FitsIn s.encoding (get s i)

-- The abstract set.
abbrev pub IsMember : Intset → ℤ → Type 0
IsMember s x = (i : ℕ) × (i < s.length) × (get s i ≡ x)

pub slot_within : (e i n : ℕ) → IsWidth e → i < n → i * e + e ≤ n * e
slot_within e i n (inl h) k = rw h (omega arith)
slot_within e i n (inr (inl h)) k = rw h (omega arith)
slot_within e i n (inr (inr h)) k = rw h (omega arith)

pub size_no_wrap : (e n : ℕ) → IsWidth e → n < 2 ^ 29 → n * e % 2 ^ 32 ≡ n * e
size_no_wrap e n (inl h) k = rw h (omega arith)
size_no_wrap e n (inr (inl h)) k = rw h (omega arith)
size_no_wrap e n (inr (inr h)) k = rw h (omega arith)

pub get_at_width : (t : Intset) (j e : ℕ) → t.encoding ≡ e → get t j ≡ get_encoded t j e
unfolding get
get_at_width t j e h = ap (get_encoded t j) h

-- The writes, read back through `_intsetGet`.
module _ (s : Intset) (w : IsWidth s.encoding) where
  pub get-set_self :
      (i : ℕ) (v : ℤ)
      → i * s.encoding + s.encoding ≤ s.contents.size
      → FitsIn s.encoding v
      → get (set s i v) i ≡ v
  unfolding get
  get-set_self i v room fits =
      get_at_width (set s i v) i s.encoding (shape-set s i v).0
      ∙ get_encoded-set_self s s.encoding w refl i v room fits

  pub get-set_ne : (i j : ℕ) (v : ℤ) → i ≢ j → get (set s i v) j ≡ get s j
  unfolding get
  get-set_ne i j v ne =
      get_at_width (set s i v) j s.encoding (shape-set s i v).0
      ∙ get_encoded-set-Apart s s.encoding w refl i j s.encoding v w apart
    where
      apart :
          (i * s.encoding + s.encoding ≤ j * s.encoding)
          ⊎ (j * s.encoding + s.encoding ≤ i * s.encoding)
      apart = elim (lt_cases i j) [
        | inl h ↦ inl (slot_within s.encoding i j w h)
        | inr h ↦ inr (slot_within s.encoding j i w (omega arith))
      ]

  pub get-resize :
      (n j : ℕ)
      → n < 2 ^ 29
      → j < n
      → j * s.encoding + s.encoding ≤ s.contents.size
      → get (resize s n) j ≡ get s j
  unfolding get resize
  get-resize n j short h room =
      get_encoded-resize s n j s.encoding w room
        (rw (size_no_wrap s.encoding n w short) (slot_within s.encoding j n w h))

  pub get-move_tail_inside :
      (from to j : ℕ)
      → to ≤ j
      → j < to + (s.length - from)
      → (to + (s.length - from)) * s.encoding ≤ s.contents.size
      → get (move_tail s from to) j ≡ get s (from + (j - to))
  get-move_tail_inside from to j h k room =
      let e = s.encoding in
      let place : to + (j - to) ≡ j = omega arith in
      get_at_width (move_tail s from to) j e (shape-move_tail s from to).0
      ∙ ap (λ i. get_encoded (move_tail s from to) i e) (sym place)
      ∙ get_encoded-move_tail_inside s s.encoding w refl from to (j - to)
          (slot_within e (j - to) (s.length - from) w (omega arith))
          (rw (add-mul to (s.length - from) e) at room)
      ∙ sym (get_at_width s (from + (j - to)) e refl)

  pub get-move_tail_before : (from to j : ℕ) → j < to → get (move_tail s from to) j ≡ get s j
  get-move_tail_before from to j h =
      get_at_width (move_tail s from to) j s.encoding (shape-move_tail s from to).0
      ∙ get_encoded-move_tail-Apart s s.encoding w refl from to j
          (inr (slot_within s.encoding j to w h))
      ∙ sym (get_at_width s j s.encoding refl)

-- `t` is `s` with `v` put before the slot `p`.
pub record Inserted (s : Intset) (p : ℕ) (v : ℤ) (t : Intset) : Type 0 where
  pub place : p ≤ s.length
  pub longer : t.length ≡ s.length + 1
  pub before : (i : ℕ) → i < p → get t i ≡ get s i
  pub here : get t p ≡ v
  pub after : (i : ℕ) → p < i → i < s.length + 1 → get t i ≡ get s (i - 1)

-- `t` is `s` without its slot `p`.
pub record Deleted (s : Intset) (p : ℕ) (t : Intset) : Type 0 where
  pub place : p < s.length
  pub shorter : t.length + 1 ≡ s.length
  pub before : (i : ℕ) → i < p → get t i ≡ get s i
  pub after : (i : ℕ) → p ≤ i → i < t.length → get t i ≡ get s (i + 1)

sorted_apart :
    (s : Intset) → IsSorted s → (i j : ℕ) → i < s.length → j < s.length → i ≢ j → get s i ≢ get s j
sorted_apart s sorted i j h k ne e = elim (lt_cases i j) [
  | inl a ↦ ground (arith, sorted i j a k)
  | inr a ↦ ground (arith, sorted j i (omega arith) h)
]

module _ {s t : Intset} {p : ℕ} where
  pub Inserted-value :
      {v : ℤ} (i : ℕ)
      → Inserted s p v t
      → i < t.length
      → ((i < p) × (get t i ≡ get s i))
        ⊎ ((i ≡ p) × (get t i ≡ v))
        ⊎ ((p < i) × (get t i ≡ get s (i - 1)))
  Inserted-value i ins h = elim (lt_cases i p) [
    | inl b ↦ inl (b, ins.before i b)
    | inr b ↦ elim (eq_cases i p) [
      | inl e ↦ inr (inl (e, ap (get t) e ∙ ins.here))
      | inr ne ↦ inr (inr (omega arith, ins.after i (omega arith) (omega (arith, ins.longer))))
    ]
  ]

  pub Inserted-IsSorted :
      {v : ℤ} → IsSorted s → Located s v (false, p) → Inserted s p v t → IsSorted t
  Inserted-IsSorted sorted (_, less, greater) ins i j h k =
      elim (Inserted-value i ins (omega arith)) [
        | inl (a, e) ↦ elim (Inserted-value j ins k) [
          | inl (b, f) ↦ rw (e, f) (sorted i j h (omega (arith, ins.place)))
          | inr (inl (b, f)) ↦ rw (e, f) (less i a)
          | inr (inr (b, f)) ↦
              rw (e, f) (sorted i (j - 1) (omega arith) (omega (arith, ins.longer)))
        ]
        | inr (inl (a, e)) ↦ elim (Inserted-value j ins k) [
          | inl (b, f) ↦ absurd (omega arith)
          | inr (inl (b, f)) ↦ absurd (omega arith)
          | inr (inr (b, f)) ↦ rw (e, f) (greater (j - 1) (omega arith) (omega (arith, ins.longer)))
        ]
        | inr (inr (a, e)) ↦ elim (Inserted-value j ins k) [
          | inl (b, f) ↦ absurd (omega arith)
          | inr (inl (b, f)) ↦ absurd (omega arith)
          | inr (inr (b, f)) ↦
              rw (e, f) (sorted (i - 1) (j - 1) (omega arith) (omega (arith, ins.longer)))
        ]
      ]

  pub IsMember-Inserted :
      {v : ℤ} (x : ℤ) → Inserted s p v t → IsMember t x ↔ ((x ≡ v) ⊎ IsMember s x)
  IsMember-Inserted {v} x ins = (into, out)
    where
      into : IsMember t x → (x ≡ v) ⊎ IsMember s x
      into (i, h, e) = elim (Inserted-value i ins h) [
        | inl (a, f) ↦ inr (i, omega (arith, ins.place), sym f ∙ e)
        | inr (inl (a, f)) ↦ inl (sym e ∙ f)
        | inr (inr (a, f)) ↦ inr (i - 1, omega (arith, ins.longer), sym f ∙ e)
      ]

      out : (x ≡ v) ⊎ IsMember s x → IsMember t x
      out (inl e) = (p, omega (arith, ins.place, ins.longer), ins.here ∙ sym e)
      out (inr (i, h, e)) = elim (lt_cases i p) [
        | inl a ↦ (i, omega (arith, ins.longer), ins.before i a ∙ e)
        | inr a ↦ (
          i + 1,
          omega (arith, ins.longer),
          ins.after (i + 1) (omega arith) (omega arith) ∙ ap (get s) (omega arith) ∙ e,
        )
      ]

  pub Deleted-value :
      (i : ℕ)
      → Deleted s p t
      → i < t.length
      → ((i < p) × (get t i ≡ get s i)) ⊎ ((p ≤ i) × (get t i ≡ get s (i + 1)))
  Deleted-value i del h = elim (lt_cases i p) [
    | inl b ↦ inl (b, del.before i b)
    | inr b ↦ inr (b, del.after i b h)
  ]

  pub Deleted-IsSorted : IsSorted s → Deleted s p t → IsSorted t
  Deleted-IsSorted sorted del i j h k = elim (Deleted-value i del (omega arith)) [
    | inl (a, e) ↦ elim (Deleted-value j del k) [
      | inl (b, f) ↦ rw (e, f) (sorted i j h (omega (arith, del.place)))
      | inr (b, f) ↦ rw (e, f) (sorted i (j + 1) (omega arith) (omega (arith, del.shorter)))
    ]
    | inr (a, e) ↦ elim (Deleted-value j del k) [
      | inl (b, f) ↦ absurd (omega arith)
      | inr (b, f) ↦ rw (e, f) (sorted (i + 1) (j + 1) (omega arith) (omega (arith, del.shorter)))
    ]
  ]

  -- In a sorted array the deleted value does not stand in another slot.
  pub IsMember-Deleted :
      IsSorted s → (x : ℤ) → Deleted s p t → IsMember t x ↔ ((x ≢ get s p) × IsMember s x)
  IsMember-Deleted sorted x del = (into, out)
    where
      into : IsMember t x → (x ≢ get s p) × IsMember s x
      into (i, h, e) = elim (Deleted-value i del h) [
        | inl (a, f) ↦ (
          λ g.
              sorted_apart s sorted i p (omega (arith, del.place)) del.place (omega arith)
                (sym f ∙ e ∙ g),
          (i, omega (arith, del.place), sym f ∙ e),
        )
        | inr (a, f) ↦ (
          λ g.
              sorted_apart s sorted (i + 1) p (omega (arith, del.shorter)) del.place (omega arith)
                (sym f ∙ e ∙ g),
          (i + 1, omega (arith, del.shorter), sym f ∙ e),
        )
      ]

      out : (x ≢ get s p) × IsMember s x → IsMember t x
      out (ne, (i, h, e)) = elim (lt_cases i p) [
        | inl a ↦ (i, omega (arith, del.shorter, del.place), del.before i a ∙ e)
        | inr a ↦
            let apart : i ≢ p = λ q. ne (sym e ∙ ap (get s) q) in
            (
              i - 1,
              omega (arith, del.shorter),
              del.after (i - 1) (omega arith) (omega (arith, del.shorter))
                  ∙ ap (get s) (omega arith)
                  ∙ e,
            )
      ]
