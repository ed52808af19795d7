-- ===== src/Sentinel/Votes.antt =====
-- redis-stable/src/sentinel.c: the votes of a sentinel while it runs.
use mathlib.Core.Path.{subst}
use better_efisis.Prelude.{
  ℕ, ◌≤◌, ◌≡◌, ◌⊎◌, inl, inr, refl, ◌∙◌, Bool, true, false, ◌||◌, Option, none, some, List, [], ◌∷◌,
  Bool-cases, Option-cases, if_elim, arith,
}
use better_efisis.Prelude.Int.{ℤ}
use better_efisis.Sentinel.{
  Slave, Sentinel, raise_epoch, vote_leader, winner_or, best_of_others, get_leader,
  check_subjectively_down, check_objectively_down, start_failover, start_failover_if_needed,
}
use better_efisis.Sentinel.Steps.{
  Same, Step, asked, heard, replied, handled, promoted, commanded, cleared, observed, Run, here,
  then_,
}
use better_efisis.Sentinel.Failover.{
  abort_failover, abort_after, wait_or_go, failover_select_slave, failover_send_slaveof_noone,
  failover_wait_promotion, slave_says_master, reset_master, failover_detect_end, follow, find_slave,
  end_failover, detected, reconf, send_all, is_null, failover_reconf_next_slave,
  failover_wait_start, failover_state_machine, handle_master, failover_command,
}

module _ {R : Type 0} where
  -- A vote is not taken back but by a reset, and no other is cast in its epoch.
  abbrev pub Keeps : Sentinel R → Sentinel R → Type 0
  Keeps s t =
      (s.master.leader_epoch ≤ t.master.leader_epoch)
      × (t.master.leader_epoch ≡ s.master.leader_epoch
          → (t.master.leader ≡ s.master.leader) ⊎ (t.master.leader ≡ none))

  abbrev SameAfter : Sentinel R → Option (Sentinel R) → Type 0
  SameAfter s none = Unit {0}
  SameAfter s (some t) = Same s t

  abbrev KeepsAfter : Sentinel R → Option (Sentinel R) → Type 0
  KeepsAfter s none = Unit {0}
  KeepsAfter s (some t) = Keeps s t

  Same-Keeps : (s t : Sentinel R) → Same s t → Keeps s t
  Same-Keeps s t (l, e) = (omega arith, λ _. inl l)

  Keeps-Same :
      (s t : Sentinel R) (o : Option (Sentinel R)) → Keeps s t → SameAfter t o → KeepsAfter s o
  Keeps-Same s t none k m = tt
  Keeps-Same s t (some u) (le, k) (l, e) =
      (omega arith, λ q. elim (k (omega arith)) [ inl a ↦ inl (l ∙ a) | inr a ↦ inr (l ∙ a) ])

  alone : (s : Sentinel R) (o : Option (Sentinel R)) → SameAfter s o → KeepsAfter s o
  alone s none m = tt
  alone s (some t) m = Same-Keeps s t m

  after_judging :
      (s t : Sentinel R) (o : Option (Sentinel R)) → Same s t → KeepsAfter t o → KeepsAfter s o
  after_judging s t none m k = tt
  after_judging s t (some u) (l, e) (le, k) =
      (omega arith, λ q. elim (k (omega arith)) [ inl a ↦ inl (a ∙ l) | inr a ↦ inr a ])

  Keeps-trans : (s t u : Sentinel R) → Keeps s t → Keeps t u → Keeps s u
  Keeps-trans s t u (le, k) (le', k') = (
    omega arith,
    λ q. elim (k' (omega arith)) [
      | inl a ↦ elim (k (omega arith)) [ inl b ↦ inl (a ∙ b) | inr b ↦ inr (a ∙ b) ]
      | inr a ↦ inr a
    ],
  )

  abort_failover-Same : (s : Sentinel R) → SameAfter s (abort_failover s)
  unfolding abort_failover
  abort_failover-Same s = ground arith

  abort_after-Same : (time : ℕ) (s : Sentinel R) → SameAfter s (abort_after time s)
  abort_after-Same time s = ground (arith, abort_failover-Same s)

  wait_or_go-Same : (s : Sentinel R) (b : Bool) → SameAfter s (wait_or_go s b)
  unfolding wait_or_go
  wait_or_go-Same s b = ground (arith, abort_failover-Same s)

  follow-Same :
      (s : Sentinel R) (o : Option ℕ) (vs : List (Slave R)) (k : ℕ → Slave R → Option (Sentinel R))
      → ((n : ℕ) (v : Slave R) → SameAfter s (k n v))
      → SameAfter s (follow o vs k)
  unfolding follow
  follow-Same s none vs k h = tt
  follow-Same s (some n) vs k h = elim (Option-cases (find_slave n vs)) [
    | inl e ↦ rw (e, follow) tt
    | inr (v, e) ↦ rw (e, follow) (h n v)
  ]

  ended-Same :
      (late all_done : Bool) (p : ℕ) (s : Sentinel R) → Same s (end_failover late all_done p s)
  ended-Same true all_done p s = (refl, refl)
  ended-Same false true p s = (refl, refl)
  ended-Same false false p s = (refl, refl)

  failover_detect_end-Same : (s : Sentinel R) → SameAfter s (failover_detect_end s)
  unfolding failover_detect_end
  failover_detect_end-Same s =
      let m = s.master in
      if_elim (SameAfter s) (is_null m.promoted_slave) (some s)
        (follow m.promoted_slave m.slaves (detected s)) (refl, refl)
        (follow-Same s m.promoted_slave m.slaves (detected s)
          λ n v. if_elim (SameAfter s) v.s_down (some s) _ (refl, refl) (ended-Same _ _ n s))

  failover_reconf-Same : (s : Sentinel R) → SameAfter s (failover_reconf_next_slave s)
  unfolding failover_reconf_next_slave
  failover_reconf-Same s =
      elim (reconf s).1
        as (λ ns. SameAfter s (elim ns [
          | [] ↦ failover_detect_end (send_all 0 (reconf s) s)
          | _ ∷ _ ↦
              follow s.master.promoted_slave s.master.slaves
                λ n v. failover_detect_end (send_all n (reconf s) s)
        ])) [
          | [] ↦ failover_detect_end-Same (send_all 0 (reconf s) s)
          | _ ∷ _ ↦ follow-Same s _ _ _ λ n v. failover_detect_end-Same (send_all n (reconf s) s)
        ]

  failover_send-Same : (s : Sentinel R) → SameAfter s (failover_send_slaveof_noone s)
  unfolding failover_send_slaveof_noone
  failover_send-Same s =
      follow-Same s _ _ _ λ n v. ground (arith, abort_after-Same s.master.state_change_time s)

  failover_select-Same :
      (sort : List (Slave R) → List (Slave R)) (s : Sentinel R)
      → SameAfter s (failover_select_slave sort s)
  unfolding failover_select_slave
  failover_select-Same sort s = ground (arith, abort_failover-Same s)

  judged-Same :
      (s : Sentinel R)
      → Same s (start_failover_if_needed (check_objectively_down (check_subjectively_down s))).1
  unfolding start_failover_if_needed start_failover check_objectively_down check_subjectively_down
  judged-Same s = ground arith

module _ {R : Type 0} (casecmp : R → R → ℤ) where
  vote_leader-Keeps : (e : ℕ) (r : R) (s : Sentinel R) → Keeps s (vote_leader casecmp e r s)
  unfolding vote_leader raise_epoch
  vote_leader-Keeps e r s = ground arith

module _ {R : Type 0} (casecmp : R → R → ℤ) (dec : Discrete R)
    (order : List (R × ℕ) → List (R × ℕ)) where
  failover_wait_start-Keeps :
      (s : Sentinel R) → KeepsAfter s (failover_wait_start casecmp dec order s)
  unfolding failover_wait_start get_leader
  failover_wait_start-Keeps s =
      let e = s.master.failover_epoch in
      let r = winner_or (best_of_others dec order s).0 s.my_runid in
      elim (Bool-cases (s.master.o_down || s.master.in_progress)) [
        | inl q ↦ rw q (
            Keeps-Same s (vote_leader casecmp e r s) (wait_or_go (vote_leader casecmp e r s) _)
              (vote_leader-Keeps casecmp e r s) (wait_or_go-Same (vote_leader casecmp e r s) _))
        | inr q ↦ rw q tt
      ]

module _ {R : Type 0} (casecmp : R → R → ℤ) (dec : Discrete R) (order : List (R × ℕ) → List (R × ℕ))
    (sort : List (Slave R) → List (Slave R)) where
  machine-Keeps : (s : Sentinel R) → KeepsAfter s (failover_state_machine casecmp dec order sort s)
  unfolding failover_state_machine failover_wait_promotion
  machine-Keeps s = ground (
    arith,
    failover_wait_start-Keeps casecmp dec order s,
    alone s (failover_select_slave sort s) (failover_select-Same sort s),
    alone s (failover_send_slaveof_noone s) (failover_send-Same s),
    alone s (abort_after s.master.state_change_time s)
        (abort_after-Same s.master.state_change_time s),
    alone s (failover_reconf_next_slave s) (failover_reconf-Same s),
  )

  handle_master-Keeps : (s : Sentinel R) → KeepsAfter s (handle_master casecmp dec order sort s)
  unfolding handle_master
  handle_master-Keeps s =
      let u : Sentinel R = record s { tilt = false } in
      let t = (start_failover_if_needed (check_objectively_down (check_subjectively_down u))).1 in
      ground (
        arith,
        after_judging s t (failover_state_machine casecmp dec order sort t) (judged-Same u)
            (machine-Keeps t),
      )

  Step-Keeps : {s t : Sentinel R} → Step casecmp dec order sort s t → Keeps s t
  unfolding failover_command slave_says_master reset_master raise_epoch start_failover
  Step-Keeps (asked s e r) = vote_leader-Keeps casecmp e r s
  Step-Keeps (heard s e) = ground arith
  Step-Keeps (replied s i down v e) = ground arith
  Step-Keeps (handled {s} {t} e) = subst (KeepsAfter s) e (handle_master-Keeps s)
  Step-Keeps (promoted s) = ground arith
  Step-Keeps (commanded s) = ground arith
  Step-Keeps (cleared s keep_sentinels) = ground arith
  Step-Keeps (observed {s} {t} e f) = Same-Keeps s t e

  Run-Keeps : {s t : Sentinel R} → Run casecmp dec order sort s t → Keeps s t
  Run-Keeps {s} here = Same-Keeps s s (refl, refl)
  Run-Keeps {s} (then_ {t} {u} r st) = Keeps-trans s t u (Run-Keeps r) (Step-Keeps st)

  -- Whatever happens to a sentinel between two times at which its last vote is of the same epoch, the
  -- vote is the same, or a reset took it back.
  pub Run-vote :
      {s t : Sentinel R}
      → Run casecmp dec order sort s t
      → t.master.leader_epoch ≡ s.master.leader_epoch
      → (t.master.leader ≡ s.master.leader) ⊎ (t.master.leader ≡ none)
  Run-vote r e = (Run-Keeps r).1 e

  -- The epoch of a sentinel's last vote does not fall.
  pub Run-leader_epoch :
      {s t : Sentinel R}
      → Run casecmp dec order sort s t
      → s.master.leader_epoch ≤ t.master.leader_epoch
  Run-leader_epoch r = (Run-Keeps r).0
