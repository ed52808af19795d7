-- ===== src/Backlog/Window.antt =====
-- What the circular buffer of redis-stable/src/replication.c holds of a stream of bytes, and the
-- arithmetic of indices that go round.
use native.Mathlib.Nat.{mod-lt, mod-eq_of_lt, mod_self, mod-add-mod, mod-eq-sub-mod}
use better_efisis.Prelude.{
  ℕ, zero, suc, ◌+◌, ◌-◌, ◌%◌, ◌≤◌, ◌<◌, ◌≡◌, ◌≢◌, refl, sym, ap, ◌∙◌, true, List, [], ◌∷◌, ◌++◌,
  length, drop, take, get_or, min, arith, lt_cases, inl, inr,
}
use better_efisis.Backlog.{Server, slice}

-- An index before the end goes on without a turn.
pub mod-add_lt : (m size i : ℕ) → m % size + i < size → (m + i) % size ≡ m % size + i
mod-add_lt m size i h = sym (mod-add-mod m size i) ∙ mod-eq_of_lt h

-- At the end it turns to 0.
pub mod-add_turn : (m size i : ℕ) → m % size + i ≡ size → (m + i) % size ≡ 0
mod-add_turn m size i h = sym (mod-add-mod m size i) ∙ ap (λ t. t % size) h ∙ mod_self size

-- Fewer than `size` steps do not lead back.
pub mod-add_ne : (k size d : ℕ) → 0 < d → d < size → (k + d) % size ≢ k % size
mod-add_ne k size d pos small = elim (lt_cases (k % size + d) size) [
  | inl here ↦ omega (arith, mod-add_lt k size d here)
  | inr over ↦
      let bound = mod-lt k {m = size} (omega arith) in
      let e : (k + d) % size ≡ (k % size + d - size) % size =
        sym (mod-add-mod k size d) ∙ mod-eq-sub-mod over in
      let f : (k % size + d - size) % size ≡ k % size + d - size =
        mod-eq_of_lt (omega (arith, bound)) in
      omega (arith, e, f)
]

-- The buffer has the last bytes of the stream, each where its position in the stream turns to.
pub record Recent (stream : List ℕ) (s : Server) : Type 0 where
  pub positive : 0 < s.size
  pub index : s.idx ≡ length stream % s.size
  pub cells :
      (k : ℕ)
      → k < length stream
      → length stream ≤ k + s.size
      → s.cell (k % s.size) ≡ get_or stream k 0

-- The backlog is that of a stream whose first byte has the replication offset `base`.
pub record Holds (base : ℕ) (stream : List ℕ) (s : Server) : Type 0 where
  pub there : s.exists ≡ true
  pub begun : 0 < base
  pub recent : Recent stream s
  pub history : s.histlen ≡ min (length stream) s.size
  pub offset : s.off + s.histlen ≡ base + length stream
  pub master : s.master_offset + 1 ≡ base + length stream

pub get_or-drop : (m : ℕ) (l : List ℕ) (i : ℕ) → get_or (drop m l) i 0 ≡ get_or l (m + i) 0
get_or-drop zero l i = ap (λ k. get_or l k 0) (omega arith)
get_or-drop (suc m) [] i = refl
get_or-drop (suc m) (x ∷ l) i =
    let e : suc (m + i) ≡ suc m + i = omega arith in
    get_or-drop m l i ∙ ap (λ k. get_or (x ∷ l) k 0) e

pub get_or-append_left : (l r : List ℕ) (k : ℕ) → k < length l → get_or (l ++ r) k 0 ≡ get_or l k 0
get_or-append_left [] r k h = absurd (omega arith)
get_or-append_left (x ∷ l) r zero h = refl
get_or-append_left (x ∷ l) r (suc k) h = get_or-append_left l r k (omega arith)

pub get_or-append_right : (l r : List ℕ) (k : ℕ) → get_or (l ++ r) (length l + k) 0 ≡ get_or r k 0
get_or-append_right [] r k = ap (λ t. get_or r t 0) (omega arith)
get_or-append_right (x ∷ l) r k =
    let e : suc (length l) + k ≡ suc (length l + k) = omega arith in
    ap (λ t. get_or (x ∷ l ++ r) t 0) e ∙ get_or-append_right l r k

pub get_or-take : (n : ℕ) (l : List ℕ) (k : ℕ) → k < n → get_or (take n l) k 0 ≡ get_or l k 0
get_or-take zero l k h = absurd (omega arith)
get_or-take (suc n) [] k h = refl
get_or-take (suc n) (x ∷ l) zero h = refl
get_or-take (suc n) (x ∷ l) (suc k) h = get_or-take n l k (omega arith)

pub slice-take :
    (buf : ℕ → ℕ) (n j : ℕ) (l : List ℕ)
    → n ≤ length l
    → ((i : ℕ) → i < n → buf (j + i) ≡ get_or l i 0)
    → slice buf j n ≡ take n l
unfolding slice
slice-take buf zero j l h same = refl
slice-take buf (suc n) j [] h same = absurd (omega arith)
slice-take buf (suc n) j (x ∷ l) h same =
    let here : buf j ≡ x = ap buf (omega arith) ∙ same 0 (omega arith) in
    let rest = slice-take buf n (j + 1) l (omega arith) (λ i lt.
      let e : j + 1 + i ≡ j + suc i = omega arith in ap buf e ∙ same (suc i) (omega arith)) in
    ap (λ y. y ∷ slice buf (j + 1) n) here ∙ ap (λ t. x ∷ t) rest
