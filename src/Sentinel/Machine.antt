-- ===== src/Sentinel/Machine.antt =====
-- redis-stable/src/sentinel.c: the failover in the states that a sentinel can reach.
use better_efisis.Prelude.{
  ℕ, ◌+◌, ◌≡◌, inl, inr, refl, ap, ◌∙◌, Bool, true, false, not, ◌&&◌, Option, none, some, List, [],
  ◌∷◌, ltb, ◌==◌, Bool-cases, Option-cases, if_elim, min, arith,
}
use better_efisis.Sentinel.{
  Slave, Phase, idle, wait_start, select_slave, send_slaveof_noone, reconf_slaves, Sentinel,
  with_master,
}
use better_efisis.Sentinel.Select.{choose_slave, suitable, is_suitable, first}
use better_efisis.Sentinel.Steps.{found}
use better_efisis.Sentinel.Election.{In}
use better_efisis.Sentinel.Failover.{
  abort_failover, abort_after, wait_or_go, failover_select_slave, find_slave, may_abort,
  set_promoted, failover_send_slaveof_noone, give_up, reconf_loop, count_in_progress, count_left,
  follow, end_failover, detected, is_null, reconf, send_best_effort, send_all, enter,
  failover_detect_end, failover_reconf_next_slave,
}

module _ {R : Type 0} where
  abbrev pub Leads : Option ℕ → List (Slave R) → Type 0
  Leads none vs = ⊥
  Leads (some n) vs = found n vs ≡ true

  -- A failover is in progress exactly in a state other than the first, and a slave that is known is
  -- promoted from the fourth on.
  abbrev pub Fits : Phase → Bool → Option ℕ → List (Slave R) → Type 0
  Fits idle b p vs = (b ≡ false) × (p ≡ none)
  Fits wait_start b p vs = (b ≡ true) × (p ≡ none)
  Fits select_slave b p vs = (b ≡ true) × (p ≡ none)
  Fits _ b p vs = (b ≡ true) × Leads p vs

  abbrev pub IsValid : Sentinel R → Type 0
  IsValid s = Fits s.master.phase s.master.in_progress s.master.promoted_slave s.master.slaves

  -- No assertion fails, no pointer leads nowhere, and the state is valid afterwards.
  abbrev pub EndsValid : Option (Sentinel R) → Type 0
  EndsValid none = ⊥
  EndsValid (some t) = IsValid t

  pub found-find :
      (n : ℕ) (vs : List (Slave R)) → found n vs ≡ true → (v : Slave R) × (find_slave n vs ≡ some v)
  unfolding found find_slave
  found-find n [] h = cc
  found-find n (v ∷ vs) h = elim (Bool-cases (v.name == n)) [
    | inl e ↦ (v, rw e)
    | inr e ↦ rw e (found-find n vs (rw e at h))
  ]

  pub found-set_promoted :
      (b : Bool) (k n : ℕ) (vs : List (Slave R)) → found n (set_promoted b k vs) ≡ found n vs
  unfolding found set_promoted
  found-set_promoted b k n [] = refl
  found-set_promoted b k n (v ∷ vs) = ground (arith, found-set_promoted b k n vs)

  pub found-reconf_loop :
      (now : ℕ) (accepts : ℕ → Bool) (limit k n : ℕ) (vs : List (Slave R))
      → found n (reconf_loop now accepts limit k vs).0 ≡ found n vs
  unfolding found reconf_loop give_up
  found-reconf_loop now accepts limit k n [] = refl
  found-reconf_loop now accepts limit k n (v ∷ vs) = ground (
    arith,
    found-reconf_loop now accepts limit k n vs,
    found-reconf_loop now accepts limit (k + 1) n vs,
  )

  found-send_best_effort :
      (accepts : ℕ → Bool) (n : ℕ) (vs : List (Slave R))
      → found n (send_best_effort accepts vs).0 ≡ found n vs
  unfolding found send_best_effort
  found-send_best_effort accepts n [] = refl
  found-send_best_effort accepts n (v ∷ vs) = ground (arith, found-send_best_effort accepts n vs)

  found-In : (v : Slave R) (vs : List (Slave R)) → In v vs → found v.name vs ≡ true
  unfolding found
  found-In v (w ∷ vs) (inl e) =
      let q : v.name ≡ w.name = ap (λ (x : Slave R). x.name) e in ground arith
  found-In v (w ∷ vs) (inr i) = ground (arith, found-In v vs i)
  found-In v [] i = elim i [ ]

  pub suitable-In :
      (s : Sentinel R) (v : Slave R) (vs : List (Slave R)) → In v (suitable s vs) → In v vs
  unfolding suitable
  suitable-In s v [] i = elim i [ ]
  suitable-In s v (w ∷ vs) i = elim (Bool-cases (is_suitable s w)) [
    | inl e ↦ elim (rw e at i) [ inl q ↦ inl q | inr q ↦ inr (suitable-In s v vs q) ]
    | inr e ↦ inr (suitable-In s v vs (rw e at i))
  ]

  pub abort_failover-EndsValid :
      (s : Sentinel R)
      → s.master.in_progress ≡ true
      → may_abort s.master.phase ≡ true
      → EndsValid (abort_failover s)
  unfolding abort_failover
  abort_failover-EndsValid s b p = rw (b, p) (refl, refl)

  pub abort_after-EndsValid :
      (time : ℕ) (s : Sentinel R)
      → IsValid s
      → s.master.in_progress ≡ true
      → may_abort s.master.phase ≡ true
      → EndsValid (abort_after time s)
  abort_after-EndsValid time s i b p =
      if_elim EndsValid (ltb (time + s.master.failover_timeout) s.now) (abort_failover s) (some s)
        (abort_failover-EndsValid s b p) i

  pub wait_or_go-EndsValid :
      (s : Sentinel R) (b : Bool)
      → s.master.phase ≡ wait_start
      → s.master.in_progress ≡ true
      → s.master.promoted_slave ≡ none
      → EndsValid (wait_or_go s b)
  unfolding wait_or_go
  wait_or_go-EndsValid s b p i n =
      let ends : EndsValid (abort_failover s) = abort_failover-EndsValid s i (rw p refl) in
      let stays : IsValid s = rw p (i, n) in
      if_elim EndsValid (not b && not s.master.force) _
        (some (with_master s (enter select_slave s.master s.now)))
        (if_elim EndsValid
          (ltb (s.master.failover_start_time + min 10000 s.master.failover_timeout) s.now)
          (abort_failover s) (some s) ends stays)
        (i, n)

  pub first-In : (v : Slave R) (l : List (Slave R)) → first l ≡ some v → In v l
  first-In v [] e = cc
  first-In v (w ∷ l) e = inl (ground arith)

  chosen :
      (sort : List (Slave R) → List (Slave R)) (s : Sentinel R)
      → ((v : Slave R) (l : List (Slave R)) → In v (sort l) → In v l)
      → (v : Slave R) → choose_slave sort s ≡ some v
      → found v.name (set_promoted true v.name s.master.slaves) ≡ true
  unfolding choose_slave
  chosen sort s members v e =
      let l = s.master.slaves in
      found-set_promoted true v.name v.name l
      ∙ found-In v l
          (suitable-In s v l (members v (suitable s l) (first-In v (sort (suitable s l)) e)))

  pub select_slave-EndsValid :
      (sort : List (Slave R) → List (Slave R)) (s : Sentinel R)
      → ((v : Slave R) (l : List (Slave R)) → In v (sort l) → In v l)
      → s.master.phase ≡ select_slave
      → s.master.in_progress ≡ true
      → EndsValid (failover_select_slave sort s)
  unfolding failover_select_slave
  select_slave-EndsValid sort s members p i = elim (Option-cases (choose_slave sort s)) [
    | inl e ↦ rw (e, failover_select_slave) (abort_failover-EndsValid s i (rw p refl))
    | inr (v, e) ↦ rw (e, failover_select_slave) (i, chosen sort s members v e)
  ]

  follow-EndsValid :
      (o : Option ℕ) (vs : List (Slave R)) (k : ℕ → Slave R → Option (Sentinel R))
      → Leads o vs
      → ((n : ℕ) (v : Slave R) → EndsValid (k n v))
      → EndsValid (follow o vs k)
  unfolding follow
  follow-EndsValid none vs k l h = elim l [ ]
  follow-EndsValid (some n) vs k l h = let (v, e) = found-find n vs l in rw (e, follow) (h n v)

  pub send-EndsValid :
      (s : Sentinel R)
      → s.master.phase ≡ send_slaveof_noone
      → s.master.in_progress ≡ true
      → Leads s.master.promoted_slave s.master.slaves
      → EndsValid (failover_send_slaveof_noone s)
  unfolding failover_send_slaveof_noone
  send-EndsValid s p i l =
      let stays : IsValid s = rw p (i, l) in
      follow-EndsValid s.master.promoted_slave s.master.slaves _ l λ n v.
        if_elim EndsValid v.disconnected (abort_after s.master.state_change_time s) _
          (abort_after-EndsValid s.master.state_change_time s stays i (rw p refl))
          (if_elim EndsValid (s.accepts n) _ (some s) (i, l) stays)

  pub Leads-kept :
      (o : Option ℕ) (vs ws : List (Slave R))
      → ((n : ℕ) → found n ws ≡ found n vs)
      → Leads o vs
      → Leads o ws
  Leads-kept none vs ws h l = l
  Leads-kept (some n) vs ws h l = h n ∙ l

  ended-IsValid :
      (late all_done : Bool) (n : ℕ) (s : Sentinel R)
      → s.master.phase ≡ reconf_slaves
      → s.master.in_progress ≡ true
      → Leads s.master.promoted_slave s.master.slaves
      → Leads s.master.promoted_slave (send_best_effort s.accepts s.master.slaves).0
      → IsValid (end_failover late all_done n s)
  ended-IsValid true all_done n s p i l k = (i, k)
  ended-IsValid false true n s p i l k = (i, l)
  ended-IsValid false false n s p i l k = rw p (i, l)

  detect_end-EndsValid :
      (s : Sentinel R)
      → s.master.phase ≡ reconf_slaves
      → s.master.in_progress ≡ true
      → Leads s.master.promoted_slave s.master.slaves
      → EndsValid (failover_detect_end s)
  unfolding failover_detect_end
  detect_end-EndsValid s p i l =
      let stays : IsValid s = rw p (i, l) in
      let late = ltb (s.master.state_change_time + s.master.failover_timeout) s.now in
      let kept =
        Leads-kept s.master.promoted_slave s.master.slaves
          (send_best_effort s.accepts s.master.slaves).0
          (λ n. found-send_best_effort s.accepts n s.master.slaves) l in
      if_elim EndsValid (is_null s.master.promoted_slave) (some s)
        (follow s.master.promoted_slave s.master.slaves (detected s)) stays
        (follow-EndsValid s.master.promoted_slave s.master.slaves (detected s) l λ n v.
          if_elim EndsValid v.s_down (some s) _ stays
            (ended-IsValid late (count_left s.master.slaves == 0) n s p i l kept))

  pub reconf-EndsValid :
      (s : Sentinel R)
      → s.master.phase ≡ reconf_slaves
      → s.master.in_progress ≡ true
      → Leads s.master.promoted_slave s.master.slaves
      → EndsValid (failover_reconf_next_slave s)
  unfolding failover_reconf_next_slave
  reconf-EndsValid s p i l =
      let kept =
        Leads-kept s.master.promoted_slave s.master.slaves (reconf s).0
          (λ n.
            found-reconf_loop s.now s.accepts s.master.parallel_syncs
              (count_in_progress s.master.slaves) n s.master.slaves)
          l in
      elim (reconf s).1
        as (λ ns. EndsValid (elim ns [
          | [] ↦ failover_detect_end (send_all 0 (reconf s) s)
          | _ ∷ _ ↦
              follow s.master.promoted_slave s.master.slaves
                λ n v. failover_detect_end (send_all n (reconf s) s)
        ])) [
          | [] ↦ detect_end-EndsValid (send_all 0 (reconf s) s) p i kept
          | _ ∷ _ ↦
              follow-EndsValid s.master.promoted_slave s.master.slaves _ l
                λ n v. detect_end-EndsValid (send_all n (reconf s) s) p i kept
        ]
