-- ===== src/Multi/Watching.antt =====
-- The lists behind WATCH in redis-stable/src/multi.c: how often a client or a key stands in one.
use mathlib.Core.Logic.{ite}
use better_efisis.Prelude.{
  ℕ, ◌+◌, ◌<◌, ◌≡◌, refl, true, false, some, List, [], ◌∷◌, ◌++◌, arith, if◌then◌else◌, ◌==◌,
  Bool-cases, inl, inr,
}
use better_efisis.Multi.{delete_node, is_watched, set_watchers, unwatch_loop}

-- How often a client stands in a list of clients.
unfoldable pub times : ℕ → List ℕ → ℕ
times c [] = 0
times c (x ∷ xs) = (if x == c then 1 else 0) + times c xs

pub times-append : (c : ℕ) (xs ys : List ℕ) → times c (xs ++ ys) ≡ times c xs + times c ys
unfolding times
times-append c [] ys = omega arith
times-append c (x ∷ xs) ys = omega (arith, times-append c xs ys)

-- A client in the list is found, and taken out once.
pub delete_node-times :
    (c : ℕ) (l : List ℕ)
    → 0 < times c l
    → (l' : List ℕ) × (delete_node c l ≡ some l')
      × ((i : ℕ) → times i l' + (if i == c then 1 else 0) ≡ times i l)
unfolding delete_node times
delete_node-times c [] h = absurd (omega arith)
delete_node-times c (x ∷ xs) h = elim (Bool-cases (x == c)) [
  | inl here ↦ (xs, rw here, λ i. ground arith)
  | inr later ↦
      let (ys, e, f) = delete_node-times c xs (ground arith) in
      (x ∷ ys, rw (later, e), λ i. ground (arith, f i))
]

module _ {K : Type 0} (dec : Discrete K) where
  -- How often a key stands in a client's list.
  unfoldable pub occurs : K → List K → ℕ
  occurs k [] = 0
  occurs k (j ∷ js) = ite (dec k j) 1 0 + occurs k js

  pub occurs-append : (k : K) (xs ys : List K) → occurs k (xs ++ ys) ≡ occurs k xs + occurs k ys
  unfolding occurs
  occurs-append k [] ys = omega arith
  occurs-append k (x ∷ xs) ys = omega (arith, occurs-append k xs ys)

  pub is_watched-occurs :
      (k : K) (js : List K) → is_watched dec k js ≡ (if occurs k js == 0 then false else true)
  unfolding is_watched occurs
  is_watched-occurs k [] = refl
  is_watched-occurs k (j ∷ js) = ground (arith, is_watched-occurs k js)

  -- Where a client stands in the list of each key that it watches, as often as the key in its own
  -- list, unwatching does not fail, takes it out of all lists and leaves all others there.
  pub unwatch_loop-times :
      (c : ℕ) (ks : List K) (f : K → List ℕ)
      → ((k : K) → occurs k ks ≡ times c (f k))
      → (g : K → List ℕ) × (unwatch_loop dec c ks f ≡ some g)
        × ((k : K) (i : ℕ) → times i (g k) ≡ (if i == c then 0 else times i (f k)))
  unfolding unwatch_loop occurs
  unwatch_loop-times c [] f h = (f, refl, λ k i. ground (arith, h k))
  unwatch_loop-times c (k ∷ ks) f h =
      let here : 0 < times c (f k) = ground (arith, h k) in
      let (l, e, left) = delete_node-times c (f k) here in
      let (g, e', rest) =
        unwatch_loop-times c ks (set_watchers dec f k l) (λ j. ground (arith, h j, left c)) in
      (g, rw (e, unwatch_loop) e', λ j i. ground (arith, rest j i, left i))
