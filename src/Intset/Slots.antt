-- ===== src/Intset/Slots.antt =====
-- What reading a slot gives after each of the writes of intset.c, at the three widths.
use better_efisis.Prelude.{
  ℕ, ◌+◌, ◌-◌, ◌*◌, ◌^◌, ◌≤◌, ◌<◌, ◌≡◌, ◌⊎◌, inl, inr, arith, sym, ap, ◌∙◌, ◌%◌,
}
use native.Mathlib.Nat.{add-mul}
use better_efisis.Prelude.Int.{ℤ, pos, negsuc, to_word, of_word, InBits}
use better_efisis.Blob.{
  Blob, load, store, load-store_self, load-store-Apart, size-store, memmove, load-memmove_inside,
  load-memmove-Apart, Apart, realloc, load-realloc,
}
use better_efisis.Intset.{Intset, get_encoded, set, move_tail, resize}

-- The widths that a slot can have.
abbrev pub IsWidth : ℕ → Type 0
IsWidth e = (e ≡ 2) ⊎ (e ≡ 4) ⊎ (e ≡ 8)

-- The values that a slot of `e` bytes can hold.
abbrev pub FitsIn : ℕ → ℤ → Type 0
FitsIn e v = InBits (8 * e) v

abbrev slot : Blob → ℕ → ℕ → ℤ
slot b e i = of_word (8 * e) (load b (i * e) e)

get_encoded-slot : (s : Intset) (i e : ℕ) → IsWidth e → get_encoded s i e ≡ slot s.contents e i
unfolding get_encoded
get_encoded-slot s i e (inl h) = rw h
get_encoded-slot s i e (inr (inl h)) = rw h
get_encoded-slot s i e (inr (inr h)) = rw h

pub contents-set :
    (s : Intset) (i : ℕ) (v : ℤ) (e : ℕ)
    → IsWidth e
    → s.encoding ≡ e
    → (set s i v).contents ≡ store s.contents (i * e) e (to_word (8 * e) v)
unfolding set
contents-set s i v e (inl h) q = rw h (ground arith)
contents-set s i v e (inr (inl h)) q = rw h (ground arith)
contents-set s i v e (inr (inr h)) q = rw h (ground arith)

pub contents-move_tail :
    (s : Intset) (from to e : ℕ)
    → IsWidth e
    → s.encoding ≡ e
    → (move_tail s from to).contents
      ≡ memmove s.contents (to * e) (from * e) ((s.length - from) * e)
unfolding move_tail
contents-move_tail s from to e (inl h) q = rw h (ground arith)
contents-move_tail s from to e (inr (inl h)) q = rw h (ground arith)
contents-move_tail s from to e (inr (inr h)) q = rw h (ground arith)

pub shape-set :
    (s : Intset) (i : ℕ) (v : ℤ)
    → ((set s i v).encoding ≡ s.encoding)
      × ((set s i v).length ≡ s.length)
      × ((set s i v).contents.size ≡ s.contents.size)
unfolding set
shape-set s i v = ground (
  arith,
  size-store s.contents (i * 8) 8 (to_word 64 v),
  size-store s.contents (i * 4) 4 (to_word 32 v),
  size-store s.contents (i * 2) 2 (to_word 16 v),
)

pub shape-move_tail :
    (s : Intset) (from to : ℕ)
    → ((move_tail s from to).encoding ≡ s.encoding)
      × ((move_tail s from to).length ≡ s.length)
      × ((move_tail s from to).contents.size ≡ s.contents.size)
unfolding move_tail memmove
shape-move_tail s from to = ground arith

-- A value of the type survives its trip through the word.
to_word-lt : (e : ℕ) (v : ℤ) → IsWidth e → to_word (8 * e) v < 256 ^ e
to_word-lt e (pos n) (inl h) = rw h (omega arith)
to_word-lt e (pos n) (inr (inl h)) = rw h (omega arith)
to_word-lt e (pos n) (inr (inr h)) = rw h (omega arith)
to_word-lt e (negsuc n) (inl h) = rw h (omega arith)
to_word-lt e (negsuc n) (inr (inl h)) = rw h (omega arith)
to_word-lt e (negsuc n) (inr (inr h)) = rw h (omega arith)

of_word-to_word_at :
    (v : ℤ)
    → (FitsIn 2 v → of_word 16 (to_word 16 v) ≡ v)
      × (FitsIn 4 v → of_word 32 (to_word 32 v) ≡ v)
      × (FitsIn 8 v → of_word 64 (to_word 64 v) ≡ v)
of_word-to_word_at (pos n) = (λ h. ground arith, λ h. ground arith, λ h. ground arith)
of_word-to_word_at (negsuc n) = (λ h. ground arith, λ h. ground arith, λ h. ground arith)

of_word-to_word : (e : ℕ) (v : ℤ) → IsWidth e → FitsIn e v → of_word (8 * e) (to_word (8 * e) v) ≡ v
of_word-to_word e v (inl h) = rw h (of_word-to_word_at v).0
of_word-to_word e v (inr (inl h)) = rw h (of_word-to_word_at v).1
of_word-to_word e v (inr (inr h)) = rw h (of_word-to_word_at v).2

module _ (s : Intset) (e : ℕ) (w : IsWidth e) (q : s.encoding ≡ e) where
  pub get_encoded-set_self :
      (i : ℕ) (v : ℤ) → i * e + e ≤ s.contents.size → FitsIn e v → get_encoded (set s i v) i e ≡ v
  get_encoded-set_self i v room fits =
      get_encoded-slot (set s i v) i e w
      ∙ ap (λ b. slot b e i) (contents-set s i v e w q)
      ∙ ap (of_word (8 * e))
          (load-store_self e s.contents (i * e) (to_word (8 * e) v) room (to_word-lt e v w))
      ∙ of_word-to_word e v w fits

  -- A slot of any width `d` that does not meet the written one is as it was.
  pub get_encoded-set-Apart :
      (i j d : ℕ) (v : ℤ)
      → IsWidth d
      → Apart (i * e) e (j * d) d
      → get_encoded (set s i v) j d ≡ get_encoded s j d
  get_encoded-set-Apart i j d v wd apart =
      get_encoded-slot (set s i v) j d wd
      ∙ ap (λ b. slot b d j) (contents-set s i v e w q)
      ∙ ap (of_word (8 * d))
          (load-store-Apart d s.contents (i * e) e (to_word (8 * e) v) (j * d) apart)
      ∙ sym (get_encoded-slot s j d wd)

  -- The slots that `intsetMoveTail` moves.
  pub get_encoded-move_tail_inside :
      (from to k : ℕ)
      → k * e + e ≤ (s.length - from) * e
      → to * e + (s.length - from) * e ≤ s.contents.size
      → get_encoded (move_tail s from to) (to + k) e ≡ get_encoded s (from + k) e
  get_encoded-move_tail_inside from to k inside room =
      get_encoded-slot (move_tail s from to) (to + k) e w
      ∙ ap (λ b. slot b e (to + k)) (contents-move_tail s from to e w q)
      ∙ ap (of_word (8 * e)) (
          rw (add-mul to k e, add-mul from k e)
            (load-memmove_inside e s.contents (to * e) (from * e) ((s.length - from) * e) (k * e)
              inside room))
      ∙ sym (get_encoded-slot s (from + k) e w)

  pub get_encoded-move_tail-Apart :
      (from to j : ℕ)
      → Apart (to * e) ((s.length - from) * e) (j * e) e
      → get_encoded (move_tail s from to) j e ≡ get_encoded s j e
  get_encoded-move_tail-Apart from to j apart =
      get_encoded-slot (move_tail s from to) j e w
      ∙ ap (λ b. slot b e j) (contents-move_tail s from to e w q)
      ∙ ap (of_word (8 * e)) (
          load-memmove-Apart e s.contents (to * e) (from * e) ((s.length - from) * e) (j * e) apart)
      ∙ sym (get_encoded-slot s j e w)

pub get_encoded-resize :
    (s : Intset) (n j d : ℕ)
    → IsWidth d
    → j * d + d ≤ s.contents.size
    → j * d + d ≤ n * s.encoding % 2 ^ 32
    → get_encoded (resize s n) j d ≡ get_encoded s j d
unfolding resize realloc
get_encoded-resize s n j d wd old new =
    get_encoded-slot (resize s n) j d wd
    ∙ ap (of_word (8 * d)) (load-realloc d s.contents (n * s.encoding % 2 ^ 32) (j * d) old new)
    ∙ sym (get_encoded-slot s j d wd)
