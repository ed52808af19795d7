-- ===== src/Sentinel/Safe.antt =====
-- redis-stable/src/sentinel.c: no assertion of the failover fails in the states that a sentinel can reach.
use mathlib.Core.Path.{subst}
use better_efisis.Prelude.{
  ℕ, ◌+◌, ◌*◌, ◌≡◌, refl, sym, ◌∙◌, Bool, true, false, not, ◌&&◌, ◌||◌, Option, none, some, List,
  ltb, if◌then◌else◌, if_elim, if_cases, arith,
}
use better_efisis.Prelude.Int.{ℤ}
use better_efisis.Sentinel.{
  Slave, Phase, idle, wait_start, select_slave, send_slaveof_noone, wait_promotion, reconf_slaves,
  update_config, Sentinel, with_master, raise_epoch, vote_leader, get_leader, winner_or,
  best_of_others, check_subjectively_down, check_objectively_down, start_failover,
  start_failover_if_needed,
}
use better_efisis.Sentinel.Select.{choose_slave}
use better_efisis.Sentinel.Steps.{
  found, SameFailover, Step, asked, heard, replied, handled, promoted, commanded, cleared, observed,
  Run, here, then_,
}
use better_efisis.Sentinel.Election.{In}
use better_efisis.Sentinel.Machine.{
  Leads, Fits, IsValid, EndsValid, abort_after-EndsValid, wait_or_go-EndsValid,
  select_slave-EndsValid, send-EndsValid, reconf-EndsValid,
}
use better_efisis.Sentinel.Failover.{
  failover_select_slave, failover_send_slaveof_noone, failover_wait_promotion, slave_says_master,
  reset_master, enter, failover_reconf_next_slave, failover_wait_start, failover_state_machine,
  handle_master, failover_command,
}

-- What a vote leaves alone.
pub vote_leader-failover :
    {R : Type 0} (casecmp : R → R → ℤ) (e : ℕ) (r : R) (s : Sentinel R)
    → (let t = vote_leader casecmp e r s in
        (t.master.phase ≡ s.master.phase)
        × (t.master.in_progress ≡ s.master.in_progress)
        × (t.master.promoted_slave ≡ s.master.promoted_slave)
        × (t.master.slaves ≡ s.master.slaves))
unfolding vote_leader raise_epoch
vote_leader-failover casecmp e r s = ground arith

check_subjectively-IsValid :
    {R : Type 0} (s : Sentinel R) → IsValid s → IsValid (check_subjectively_down s)
unfolding check_subjectively_down
check_subjectively-IsValid s h = if_elim IsValid _ _ _ (if_elim IsValid s.master.s_down s _ h h) h

check_objectively-IsValid :
    {R : Type 0} (s : Sentinel R) → IsValid s → IsValid (check_objectively_down s)
unfolding check_objectively_down
check_objectively-IsValid s h = if_elim IsValid _ _ _ (if_elim IsValid s.master.o_down s _ h h) h

-- Where no failover is in progress, no slave is promoted.
Fits-unpromoted :
    {R : Type 0} (p : Phase) (b : Bool) (o : Option ℕ) (vs : List (Slave R))
    → Fits p b o vs
    → b ≡ false
    → o ≡ none
Fits-unpromoted idle b o vs (e, f) q = f
Fits-unpromoted wait_start b o vs (e, f) q = f
Fits-unpromoted select_slave b o vs (e, f) q = f
Fits-unpromoted send_slaveof_noone b o vs (e, f) q = cc
Fits-unpromoted wait_promotion b o vs (e, f) q = cc
Fits-unpromoted reconf_slaves b o vs (e, f) q = cc
Fits-unpromoted update_config b o vs (e, f) q = cc

start_failover-IsValid :
    {R : Type 0} (s : Sentinel R)
    → IsValid s
    → s.master.in_progress ≡ false
    → IsValid (start_failover s)
unfolding start_failover
start_failover-IsValid s h e = (
  refl,
  Fits-unpromoted s.master.phase s.master.in_progress s.master.promoted_slave s.master.slaves h e,
)

start_if_needed-IsValid :
    {R : Type 0} (s : Sentinel R) → IsValid s → IsValid (start_failover_if_needed s).1
unfolding start_failover_if_needed
start_if_needed-IsValid {R} s h =
    let P : Bool × Sentinel R → Type 0 = λ x. IsValid x.1 in
    if_elim P (not s.master.o_down) (false, s) _ h
      (if_cases P s.master.in_progress (false, s) _ (λ e. h)
        (λ e.
          if_elim P (ltb s.now (s.master.failover_start_time + s.master.failover_timeout * 2))
            (false, s) (true, start_failover s) h (start_failover-IsValid s h e)))

Leads-more :
    {R : Type 0} (o : Option ℕ) (vs ws : List (Slave R))
    → ((n : ℕ) → found n vs ≡ true → found n ws ≡ true)
    → Leads o vs
    → Leads o ws
Leads-more none vs ws k l = l
Leads-more (some n) vs ws k l = k n l

Fits-more :
    {R : Type 0} (p : Phase) (b : Bool) (o : Option ℕ) (vs ws : List (Slave R))
    → ((n : ℕ) → found n vs ≡ true → found n ws ≡ true)
    → Fits p b o vs
    → Fits p b o ws
Fits-more idle b o vs ws k h = h
Fits-more wait_start b o vs ws k h = h
Fits-more select_slave b o vs ws k h = h
Fits-more send_slaveof_noone b o vs ws k (e, l) = (e, Leads-more o vs ws k l)
Fits-more wait_promotion b o vs ws k (e, l) = (e, Leads-more o vs ws k l)
Fits-more reconf_slaves b o vs ws k (e, l) = (e, Leads-more o vs ws k l)
Fits-more update_config b o vs ws k (e, l) = (e, Leads-more o vs ws k l)

SameFailover-IsValid : {R : Type 0} (s t : Sentinel R) → SameFailover s t → IsValid s → IsValid t
SameFailover-IsValid s t f h =
    let vs = t.master.slaves in
    let more =
      Fits-more s.master.phase s.master.in_progress s.master.promoted_slave s.master.slaves vs
        f.known h in
    subst (λ p. Fits p t.master.in_progress t.master.promoted_slave vs) (sym f.phase)
      (subst (λ b. Fits s.master.phase b t.master.promoted_slave vs) (sym f.in_progress)
        (subst (λ o. Fits s.master.phase s.master.in_progress o vs) (sym f.promoted_slave) more))

slave_says-IsValid : {R : Type 0} (s : Sentinel R) → IsValid s → IsValid (slave_says_master s)
unfolding slave_says_master
slave_says-IsValid {R} s h =
    let m = s.master in
    let t : Sentinel R =
      with_master s (enter reconf_slaves (record m { config_epoch = m.failover_epoch }) s.now) in
    elim m.phase
        as (λ q.
          m.phase ≡ q
          → IsValid (elim q [ wait_promotion ↦ if m.in_progress then t else s | _ ↦ s ])) [
            | wait_promotion ↦ λ e.
                let (i, l) = subst (λ q. Fits q m.in_progress m.promoted_slave m.slaves) e h in
                if_elim IsValid m.in_progress t s (i, l) h
            | _ ↦ λ e. h
          ]
      refl

failover_command-IsValid :
    {R : Type 0} (sort : List (Slave R) → List (Slave R)) (s : Sentinel R)
    → IsValid s
    → IsValid (failover_command sort s)
unfolding failover_command
failover_command-IsValid sort s h =
    if_cases IsValid s.master.in_progress s _ (λ e. h)
      (λ e.
        elim (choose_slave sort s)
          as (λ o. IsValid (elim o [
            | none ↦ s
            | some v ↦
                with_master (start_failover s) (record (start_failover s).master { force = true })
          ])) [ none ↦ h | some v ↦ start_failover-IsValid s h e ])

module _ {R : Type 0} (casecmp : R → R → ℤ) (dec : Discrete R) (order : List (R × ℕ) → List (R × ℕ))
    (sort : List (Slave R) → List (Slave R))
    (members : (v : Slave R) (l : List (Slave R)) → In v (sort l) → In v l) where
  wait_start-EndsValid :
      (s : Sentinel R)
      → s.master.phase ≡ wait_start
      → s.master.in_progress ≡ true
      → s.master.promoted_slave ≡ none
      → EndsValid (failover_wait_start casecmp dec order s)
  unfolding failover_wait_start get_leader
  wait_start-EndsValid s p i n =
      let e = s.master.failover_epoch in
      let r = winner_or (best_of_others dec order s).0 s.my_runid in
      let t = vote_leader casecmp e r s in
      let (p', i', n', v') = vote_leader-failover casecmp e r s in
      let open_ : (s.master.o_down || s.master.in_progress) ≡ true = ground arith in
      rw open_ (wait_or_go-EndsValid t _ (p' ∙ p) (i' ∙ i) (n' ∙ n))

  machine-EndsValid :
      (s : Sentinel R) → IsValid s → EndsValid (failover_state_machine casecmp dec order sort s)
  unfolding failover_state_machine failover_wait_promotion
  machine-EndsValid s h =
      let b = s.master.in_progress in
      let o = s.master.promoted_slave in
      let vs = s.master.slaves in
      if_elim EndsValid (not b) (some s) _ h (
        elim s.master.phase
            as (λ q.
              s.master.phase ≡ q
              → EndsValid (elim q [
                | wait_start ↦ failover_wait_start casecmp dec order s
                | select_slave ↦ failover_select_slave sort s
                | send_slaveof_noone ↦ failover_send_slaveof_noone s
                | wait_promotion ↦ failover_wait_promotion s
                | reconf_slaves ↦ failover_reconf_next_slave s
                | _ ↦ some s
              ])) [
                | idle ↦ λ e. h
                | wait_start ↦
                    λ e. let (i, n) = subst (λ q. Fits q b o vs) e h in wait_start-EndsValid s e i n
                | select_slave ↦ λ e.
                    let (i, n) = subst (λ q. Fits q b o vs) e h in
                    select_slave-EndsValid sort s members e i
                | send_slaveof_noone ↦
                    λ e. let (i, l) = subst (λ q. Fits q b o vs) e h in send-EndsValid s e i l
                | wait_promotion ↦ λ e.
                    let (i, l) = subst (λ q. Fits q b o vs) e h in
                    abort_after-EndsValid s.master.state_change_time s h i (rw e refl)
                | reconf_slaves ↦
                    λ e. let (i, l) = subst (λ q. Fits q b o vs) e h in reconf-EndsValid s e i l
                | update_config ↦ λ e. h
              ]
          refl)

  pub handle_master-EndsValid :
      (s : Sentinel R) → IsValid s → EndsValid (handle_master casecmp dec order sort s)
  unfolding handle_master
  handle_master-EndsValid s h =
      let t : Sentinel R = record s { tilt = false } in
      if_elim EndsValid (s.tilt && ltb s.now (s.tilt_start_time + 1000 * 30)) (some s) _ h (
        machine-EndsValid _ (
          start_if_needed-IsValid _ (check_objectively-IsValid _ (check_subjectively-IsValid t h))))

  Step-IsValid : {s t : Sentinel R} → Step casecmp dec order sort s t → IsValid s → IsValid t
  unfolding failover_command slave_says_master reset_master raise_epoch
  Step-IsValid (asked s e r) h =
      let (p, i, n, v) = vote_leader-failover casecmp e r s in
      SameFailover-IsValid s (vote_leader casecmp e r s)
        (record { in_progress = i; phase = p; promoted_slave = n; known = λ m x. rw v x }) h
  Step-IsValid (heard s e) h = if_elim IsValid _ _ _ h h
  Step-IsValid (replied s i down v e) h = h
  Step-IsValid (handled {s} {t} e) h = subst EndsValid e (handle_master-EndsValid s h)
  Step-IsValid (promoted s) h = slave_says-IsValid s h
  Step-IsValid (commanded s) h = failover_command-IsValid sort s h
  Step-IsValid (cleared s keep_sentinels) h = (refl, refl)
  Step-IsValid (observed {s} {t} e f) h = SameFailover-IsValid s t f h

  Run-IsValid : {s t : Sentinel R} → Run casecmp dec order sort s t → IsValid s → IsValid t
  Run-IsValid here h = h
  Run-IsValid (then_ r st) h = Step-IsValid st (Run-IsValid r h)

  -- Whatever happens to a sentinel whose failover is valid at first, its timer finds the failover in a
  -- valid state: no assertion fails, no pointer leads nowhere, and it stays valid.
  pub Run-EndsValid :
      {s t : Sentinel R}
      → Run casecmp dec order sort s t
      → IsValid s
      → EndsValid (handle_master casecmp dec order sort t)
  Run-EndsValid {s} {t} r h = handle_master-EndsValid t (Run-IsValid r h)
