-- ===== src/Sentinel/Election.antt =====
-- redis-stable/src/sentinel.c: whom `sentinelGetLeader` can elect.
use mathlib.Core.Logic.{ite}
use mathlib.Core.Path.{subst}
use better_efisis.Prelude.{
  ℕ, ◌+◌, ◌/◌, ◌≤◌, ◌<◌, ◌≡◌, ◌⊎◌, ◌≢◌, inl, inr, refl, sym, ap, ◌∙◌, true, false, ◌&&◌, ◌||◌,
  Option, none, some, List, [], ◌∷◌, ltb, ◌==◌, if◌then◌else◌, length, Bool-cases, arith,
}
use better_efisis.Prelude.Int.{ℤ}
use better_efisis.Sentinel.{
  Peer, Sentinel, raise_epoch, vote_leader, leader_incr, count_vote, count_votes, most_voted,
  add_vote, elected, counters, best_of_others, winner_or, get_leader,
}

abbrev pub In : {A : Type 0} → A → List A → Type 0
In x [] = ⊥
In x (y ∷ ys) = (x ≡ y) ⊎ In x ys

module _ {R : Type 0} (dec : Discrete R) where
  abbrev pub is_for : R → Option R → ℕ
  is_for r none = 0
  is_for r (some w) = ite (dec w r) 1 0

  -- The votes for `r` that the other sentinels told for an epoch.
  unfoldable pub told : ℕ → R → List (Peer R) → ℕ
  told epoch r [] = 0
  told epoch r (p ∷ ps) =
      (if p.leader_epoch == epoch then is_for r p.leader else 0) + told epoch r ps

  -- What the counters hold for `r`.
  unfoldable held : R → List (R × ℕ) → ℕ
  held r [] = 0
  held r ((k, n) ∷ c) = ite (dec k r) n 0 + held r c

  held-incr :
      (r w : R) (c : List (R × ℕ)) → held r (leader_incr dec w c).0 ≡ held r c + is_for r (some w)
  unfolding held leader_incr
  held-incr r w [] = ground arith
  held-incr r w ((k, n) ∷ c) = ground (arith, held-incr r w c)

  incr_le : (w : R) (c : List (R × ℕ)) → (leader_incr dec w c).1 ≤ held w c + 1
  unfolding held leader_incr
  incr_le w [] = omega arith
  incr_le w ((k, n) ∷ c) = ground (arith, incr_le w c)

  held-count_vote :
      (epoch : ℕ) (r : R) (v : Option R) (at : ℕ) (c : List (R × ℕ))
      → held r (count_vote dec epoch v at c) ≡ held r c + (if at == epoch then is_for r v else 0)
  unfolding count_vote
  held-count_vote epoch r none at c = ground arith
  held-count_vote epoch r (some w) at c = ground (arith, held-incr r w c)

  held-count :
      (epoch : ℕ) (r : R) (ps : List (Peer R)) (c : List (R × ℕ))
      → held r (count_votes dec epoch ps c) ≡ held r c + told epoch r ps
  unfolding count_votes told
  held-count epoch r [] c = omega arith
  held-count epoch r (p ∷ ps) c =
      let d = count_vote dec epoch p.leader p.leader_epoch c in
      omega (arith, held-count epoch r ps d, held-count_vote epoch r p.leader p.leader_epoch c)

  le-held : (k : R) (n : ℕ) (c : List (R × ℕ)) → In (k, n) c → n ≤ held k c
  unfolding held
  le-held k n [] i = elim i [ ]
  le-held k n ((j, m) ∷ c) (inl e) =
      let q : k ≡ j = ap (λ (x : R × ℕ). x.0) e in
      let h : n ≡ m = ap (λ (x : R × ℕ). x.1) e in ground arith
  le-held k n ((j, m) ∷ c) (inr i) = omega (arith, le-held k n c i)

  -- A winner has at most what `f` counts for it.
  abbrev Backed : (R → ℕ) → Option R × ℕ → Type 0
  Backed f (none, n) = n ≡ 0
  Backed f (some r, n) = n ≤ f r

  most_voted-Backed :
      (c l : List (R × ℕ)) (winner : Option R) (max : ℕ)
      → ((x : R × ℕ) → In x l → In x c)
      → Backed (λ r. held r c) (winner, max)
      → Backed (λ r. held r c) (most_voted l winner max)
  unfolding most_voted
  most_voted-Backed c [] winner max sub b = b
  most_voted-Backed c ((k, n) ∷ l) winner max sub b =
      most_voted-Backed c l (if ltb max n then some k else winner) (if ltb max n then n else max)
        (λ x i. sub x (inr i))
        (elim (ltb max n)
          as (λ t.
            Backed (λ r. held r c) ((if t then some k else winner), (if t then n else max))) [
              | true ↦ le-held k n c (sub (k, n) (inl refl))
              | false ↦ b
            ])

  -- The votes for `r` that the sentinel in state `s` counts for `epoch`, where `t` is its state after
  -- it voted itself.
  abbrev pub votes : ℕ → Sentinel R → Sentinel R → R → ℕ
  votes epoch s t r =
      told s.current_epoch r s.master.sentinels
      + (if t.master.leader_epoch == epoch then is_for r t.master.leader else 0)

  Backed-le : (f g : R → ℕ) (x : Option R × ℕ) → ((r : R) → f r ≤ g r) → Backed f x → Backed g x
  Backed-le f g (none, n) le b = b
  Backed-le f g (some r, n) le b = omega (arith, le r)

  add_vote-Backed :
      (epoch : ℕ) (v : Option R) (at : ℕ) (c : List (R × ℕ)) (x : Option R × ℕ)
      → Backed (λ r. held r c) x
      → Backed
          (λ r. held r c + (if at == epoch then is_for r v else 0))
          (add_vote dec epoch v at c x)
  unfolding add_vote
  add_vote-Backed epoch none at c x b = Backed-le _ _ x (λ r. ground arith) b
  add_vote-Backed epoch (some w) at c x b =
      elim (Bool-cases (at == epoch && ltb x.1 (leader_incr dec w c).1)) [
        | inl e ↦ rw e (ground (arith, incr_le w c))
        | inr e ↦ rw e (Backed-le _ _ x (λ r. ground arith) b)
      ]

  elected-Backed :
      (f : R → ℕ) (voters quorum : ℕ) (x : Option R × ℕ) (w : R)
      → Backed f x
      → elected voters quorum x ≡ some w
      → (voters / 2 + 1 ≤ f w) × (quorum ≤ f w)
  unfolding elected
  elected-Backed f voters quorum (none, n) w b e = ground arith
  elected-Backed f voters quorum (some r, n) w b e =
      elim (Bool-cases (ltb n (voters / 2 + 1) || ltb n quorum)) [
        | inl t ↦ ground arith
        | inr t ↦ let q : r ≡ w = ground arith in let h : f r ≡ f w = ap f q in ground arith
      ]

-- The votes for a run ID in a list of all that were cast.
module _ {R : Type 0} (dec : Discrete R) where
  abbrev pub cast : R → List (Option R) → ℕ
  cast r [] = 0
  cast r (v ∷ vs) = is_for dec r v + cast r vs

  cast_disjoint : (v w : R) (bs : List (Option R)) → v ≢ w → cast v bs + cast w bs ≤ length bs
  cast_disjoint v w [] ne = omega arith
  cast_disjoint v w (none ∷ bs) ne = omega (arith, cast_disjoint v w bs ne)
  cast_disjoint v w (some r ∷ bs) ne = elim (dec r v) [
    | yes e ↦ elim (dec r w) [
      | yes f ↦ absurd (ne (sym e ∙ f))
      | no f ↦ ground (arith, cast_disjoint v w bs ne)
    ]
    | no e ↦ ground (arith, cast_disjoint v w bs ne)
  ]

some_pair :
    {A B : Type 0} {a x : A} {b y : B}
    → ◌≡◌ {A = Option (A × B)} (some (a, b)) (some (x, y))
    → (a ≡ x) × (b ≡ y)
some_pair e = ground arith

module _ {R : Type 0} (casecmp : R → R → ℤ) (dec : Discrete R) (order : List (R × ℕ) → List (R × ℕ))
    (entries : (x : R × ℕ) (c : List (R × ℕ)) → In x (order c) → In x c) where
  -- Whom `sentinelGetLeader` elects has the votes of more than half of the sentinels, itself counted,
  -- and at least as many as the quorum.
  pub get_leader-votes :
      (epoch : ℕ) (s t : Sentinel R) (w : R)
      → get_leader casecmp dec order epoch s ≡ some (t, some w)
      → ((length s.master.sentinels + 1) / 2 + 1 ≤ votes dec epoch s t w)
        × (s.master.quorum ≤ votes dec epoch s t w)
  unfolding get_leader held told
  get_leader-votes epoch s t w e =
      let l = s.master.sentinels in
      let n = length l + 1 in
      let c = counters dec s in
      let x = best_of_others dec order s in
      let u = vote_leader casecmp epoch (winner_or x.0 s.my_runid) s in
      let b : Backed dec (λ r. held dec r c) x =
        most_voted-Backed dec c (order c) none 0 (λ y. entries y c) refl in
      let d : Backed dec (votes dec epoch s u)
          (add_vote dec epoch u.master.leader u.master.leader_epoch c x) =
        Backed-le dec _ _ _ (λ r. omega (arith, held-count dec s.current_epoch r l []))
          (add_vote-Backed dec epoch u.master.leader u.master.leader_epoch c x b) in
      elim (Bool-cases (s.master.o_down || s.master.in_progress)) [
        | inl open_ ↦
            let (same, won) = some_pair (rw open_ at e) in
            subst
              (λ v. (n / 2 + 1 ≤ votes dec epoch s v w) × (s.master.quorum ≤ votes dec epoch s v w))
              same (elected-Backed dec (votes dec epoch s u) n s.master.quorum _ w d won)
        | inr shut ↦ ground arith
      ]

  -- In an epoch, two sentinels that know all the sentinels, and that count for nobody more votes than
  -- were cast, elect no two leaders.
  pub get_leader_unique :
      (epoch : ℕ) (s t s' t' : Sentinel R) (w w' : R) (ballots : List (Option R))
      → get_leader casecmp dec order epoch s ≡ some (t, some w)
      → get_leader casecmp dec order epoch s' ≡ some (t', some w')
      → length ballots ≡ length s.master.sentinels + 1
      → length ballots ≡ length s'.master.sentinels + 1
      → ((r : R) → votes dec epoch s t r ≤ cast dec r ballots)
      → ((r : R) → votes dec epoch s' t' r ≤ cast dec r ballots)
      → w ≡ w'
  get_leader_unique epoch s t s' t' w w' ballots e e' n n' h h' = elim (dec w w') [
    | yes q ↦ q
    | no q ↦
        let (a, b) = get_leader-votes epoch s t w e in
        let (a', b') = get_leader-votes epoch s' t' w' e' in
        absurd (omega (arith, h w, h' w', cast_disjoint dec w w' ballots q))
  ]

vote_leader_old :
    {R : Type 0} (casecmp : R → R → ℤ) (epoch : ℕ) (r : R) (s : Sentinel R)
    → epoch < s.current_epoch
    → vote_leader casecmp epoch r s ≡ s
unfolding vote_leader raise_epoch
vote_leader_old casecmp epoch r s h = ground arith

add_vote_other :
    {R : Type 0} (dec : Discrete R) (epoch at : ℕ) (v : Option R) (c : List (R × ℕ))
    (x : Option R × ℕ)
    → at ≢ epoch
    → add_vote dec epoch v at c x ≡ x
unfolding add_vote
add_vote_other dec epoch at none c x h = refl
add_vote_other dec epoch at (some r) c x h = ground arith

module _ {R : Type 0} (casecmp : R → R → ℤ) (dec : Discrete R)
    (order : List (R × ℕ) → List (R × ℕ)) where
  get_leader_newer :
      (epoch : ℕ) (s : Sentinel R)
      → epoch < s.current_epoch
      → s.master.leader_epoch ≢ epoch
      → get_leader casecmp dec order epoch s ≡ (
          if s.master.o_down || s.master.in_progress
          then some (
            s,
            elected (length s.master.sentinels + 1) s.master.quorum (best_of_others dec order s),
          )
          else none)
  unfolding get_leader
  get_leader_newer epoch s h q =
      let r = winner_or (best_of_others dec order s).0 s.my_runid in
      rw (vote_leader_old casecmp epoch r s h) (
        rw
          (add_vote_other dec epoch s.master.leader_epoch s.master.leader (counters dec s)
            (best_of_others dec order s) q)
          refl)

  -- Where a newer epoch than the ones asked for is known, and neither is that of the last vote, the
  -- epoch asked for makes no difference to `sentinelGetLeader`: the votes of the newer epoch elect.
  pub get_leader-stale :
      (epoch epoch' : ℕ) (s : Sentinel R)
      → epoch < s.current_epoch
      → epoch' < s.current_epoch
      → s.master.leader_epoch ≢ epoch
      → s.master.leader_epoch ≢ epoch'
      → get_leader casecmp dec order epoch s ≡ get_leader casecmp dec order epoch' s
  get_leader-stale epoch epoch' s h h' q q' =
      get_leader_newer epoch s h q ∙ sym (get_leader_newer epoch' s h' q')
