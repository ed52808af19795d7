-- ===== src/Sentinel/Failover.antt =====
-- redis-stable/src/sentinel.c: the states of a failover.
use better_efisis.Prelude.{
  ℕ, ◌+◌, ◌*◌, Bool, true, false, not, ◌&&◌, ◌||◌, Option, none, some, List, [], ◌∷◌, ◌++◌, ltb,
  ◌==◌, if◌then◌else◌, min,
}
use better_efisis.Prelude.Int.{ℤ}
use better_efisis.Sentinel.Select.{choose_slave}
use better_efisis.Sentinel.{
  Slave, Phase, idle, wait_start, select_slave, send_slaveof_noone, wait_promotion, reconf_slaves,
  update_config, Master, Sentinel, is_zero, with_master, get_leader, check_subjectively_down,
  check_objectively_down, start_failover, start_failover_if_needed,
}

infixl 5 ◌>>=◌
abbrev pub ◌>>=◌ : {A B : Type 0} → Option A → (A → Option B) → Option B
none >>= f = none
some a >>= f = f a

abbrev pub is_null : Option ℕ → Bool
is_null none = true
is_null (some p) = false

-- SLAVEOF for each of the names.
abbrev pub orders : ℕ → List ℕ → List (ℕ × Option ℕ)
orders p [] = []
orders p (n ∷ ns) = (n, some p) ∷ orders p ns

-- `failover_state <= SENTINEL_FAILOVER_STATE_WAIT_PROMOTION`
abbrev pub may_abort : Phase → Bool
may_abort reconf_slaves = false
may_abort update_config = false
may_abort _ = true

module _ {R : Type 0} where
  -- The slave that a pointer leads to, and a write through it.
  unfoldable pub find_slave : ℕ → List (Slave R) → Option (Slave R)
  find_slave n [] = none
  find_slave n (v ∷ vs) = let rest = find_slave n vs in if v.name == n then some v else rest

  unfoldable pub set_promoted : Bool → ℕ → List (Slave R) → List (Slave R)
  set_promoted b n [] = []
  set_promoted b n (v ∷ vs) =
      (if v.name == n then record v { promoted = b } else v) ∷ set_promoted b n vs

  abbrev pub unpromoted : Option ℕ → List (Slave R) → List (Slave R)
  unpromoted none vs = vs
  unpromoted (some p) vs = set_promoted false p vs

  -- `sentinelAbortFailover`: none is a failed assertion.
  unfoldable pub abort_failover : Sentinel R → Option (Sentinel R)
  abort_failover s =
      let m = s.master in
      if m.in_progress && may_abort m.phase
      then some (
          with_master s (record m {
            in_progress = false;
            force = false;
            phase = idle;
            state_change_time = s.now;
            slaves = unpromoted m.promoted_slave m.slaves;
            promoted_slave = none;
          }))
      else none

  abbrev pub enter : Phase → Master R → ℕ → Master R
  enter p m now = record m { phase = p; state_change_time = now }

  -- `sentinelFailoverWaitStart` once it is known whether this sentinel is the leader.
  unfoldable pub wait_or_go : Sentinel R → Bool → Option (Sentinel R)
  wait_or_go t leads =
      let m = t.master in
      if not leads && not m.force
      then (if ltb (m.failover_start_time + min 10000 m.failover_timeout) t.now
          then abort_failover t
          else some t)
      else some (with_master t (enter select_slave m t.now))

  -- `sentinelFailoverSelectSlave`
  unfoldable pub failover_select_slave :
      (List (Slave R) → List (Slave R)) → Sentinel R → Option (Sentinel R)
  failover_select_slave sort s = elim (choose_slave sort s) [
    | none ↦ abort_failover s
    | some v ↦ some (
        with_master s (
          enter send_slaveof_noone
            (record s.master {
              slaves = set_promoted true v.name s.master.slaves;
              promoted_slave = some v.name;
            })
            s.now))
  ]

  -- What a state does that waits: nothing, or the end of the failover.
  abbrev pub abort_after : ℕ → Sentinel R → Option (Sentinel R)
  abort_after time s =
      if ltb (time + s.master.failover_timeout) s.now then abort_failover s else some s

  -- Follows the pointer `promoted_slave`: none if it leads nowhere.
  unfoldable pub follow :
      Option ℕ → List (Slave R) → (ℕ → Slave R → Option (Sentinel R)) → Option (Sentinel R)
  follow none vs k = none
  follow (some p) vs k = elim (find_slave p vs) [ none ↦ none | some v ↦ k p v ]

  -- `sentinelFailoverSendSlaveOfNoOne`
  unfoldable pub failover_send_slaveof_noone : Sentinel R → Option (Sentinel R)
  failover_send_slaveof_noone s = follow s.master.promoted_slave s.master.slaves λ p v.
      if v.disconnected
      then abort_after s.master.state_change_time s
      else if s.accepts p
      then some (record s {
        master = enter wait_promotion s.master s.now;
        sent = s.sent ++ (p, none) ∷ [];
      })
      else some s

  -- `sentinelFailoverWaitPromotion`
  unfoldable pub failover_wait_promotion : Sentinel R → Option (Sentinel R)
  failover_wait_promotion s = abort_after s.master.state_change_time s

  -- What `sentinelRefreshInstanceInfo` does when a slave says that it is a master, outside of TILT, in
  -- a failover that waits for it.
  unfoldable pub slave_says_master : Sentinel R → Sentinel R
  slave_says_master s =
      let m = s.master in
      elim m.phase [
        | wait_promotion ↦
            if m.in_progress
            then with_master s
                (enter reconf_slaves (record m { config_epoch = m.failover_epoch }) s.now)
            else s
        | _ ↦ s
      ]

  -- `sentinelResetMaster`
  unfoldable pub reset_master : Bool → Sentinel R → Sentinel R
  reset_master keep_sentinels s = with_master s (record s.master {
    s_down = false;
    o_down = false;
    in_progress = false;
    force = false;
    last_ping_time = s.now;
    reports_slave = false;
    role_reported_time = s.now;
    sentinels = if keep_sentinels then s.master.sentinels else [];
    slaves = [];
    leader = none;
    phase = idle;
    state_change_time = 0;
    failover_start_time = 0;
    promoted_slave = none;
  })

  unfoldable pub count_in_progress : List (Slave R) → ℕ
  count_in_progress [] = 0
  count_in_progress (v ∷ vs) =
      (if v.reconf_sent || v.reconf_inprog then 1 else 0) + count_in_progress vs

  -- A slave that did not go on after SLAVEOF for too long is taken to be done.
  unfoldable pub give_up : ℕ → Slave R → Slave R
  give_up now v =
      if v.reconf_sent && ltb (v.reconf_sent_time + 10000) now
      then record v { reconf_sent = false; reconf_done = true }
      else v

  -- The second loop of `sentinelFailoverReconfNextSlave`, with the room that `parallel_syncs` leaves:
  -- the slaves and the names of those that were sent SLAVEOF.
  unfoldable pub reconf_loop : ℕ → (ℕ → Bool) → ℕ → ℕ → List (Slave R) → List (Slave R) × List ℕ
  reconf_loop now accepts limit n [] = ([], [])
  reconf_loop now accepts limit n (v ∷ vs) =
      let w = give_up now v in
      let skipped = reconf_loop now accepts limit n vs in
      let sent = reconf_loop now accepts limit (n + 1) vs in
      if not (ltb n limit)
      then (v ∷ vs, [])
      else if v.promoted || v.reconf_done
      then (v ∷ skipped.0, skipped.1)
      else if w.disconnected || w.reconf_sent || w.reconf_inprog || not (accepts w.name)
      then (w ∷ skipped.0, skipped.1)
      else (record w { reconf_sent = true; reconf_sent_time = now } ∷ sent.0, w.name ∷ sent.1)

  unfoldable pub count_left : List (Slave R) → ℕ
  count_left [] = 0
  count_left (v ∷ vs) = (if v.promoted || v.reconf_done || v.s_down then 0 else 1) + count_left vs

  -- The last loop of `sentinelFailoverDetectEnd`.
  unfoldable pub send_best_effort : (ℕ → Bool) → List (Slave R) → List (Slave R) × List ℕ
  send_best_effort accepts [] = ([], [])
  send_best_effort accepts (v ∷ vs) =
      let rest = send_best_effort accepts vs in
      if v.reconf_done || v.reconf_sent || v.disconnected || not (accepts v.name)
      then (v ∷ rest.0, rest.1)
      else (record v { reconf_sent = true } ∷ rest.0, v.name ∷ rest.1)

  abbrev pub send_all : ℕ → List (Slave R) × List ℕ → Sentinel R → Sentinel R
  send_all p r s = record s {
    master = record s.master { slaves = r.0 };
    sent = s.sent ++ orders p r.1;
  }

  -- What `sentinelFailoverDetectEnd` does, by whether the failover timed out and nothing is left.
  abbrev pub end_failover : Bool → Bool → ℕ → Sentinel R → Sentinel R
  end_failover late all_done p s =
      let t = if late || all_done then with_master s (enter update_config s.master s.now) else s in
      if late then send_all p (send_best_effort s.accepts s.master.slaves) t else t

  abbrev pub detected : Sentinel R → ℕ → Slave R → Option (Sentinel R)
  detected s p v =
      let m = s.master in
      if v.s_down
      then some s
      else some (
          end_failover (ltb (m.state_change_time + m.failover_timeout) s.now)
            (count_left m.slaves == 0) p s)

  -- `sentinelFailoverDetectEnd`
  unfoldable pub failover_detect_end : Sentinel R → Option (Sentinel R)
  failover_detect_end s =
      let m = s.master in
      if is_null m.promoted_slave then some s else follow m.promoted_slave m.slaves (detected s)

  -- The second loop of `sentinelFailoverReconfNextSlave`, from the count of its first one.
  abbrev pub reconf : Sentinel R → List (Slave R) × List ℕ
  reconf s =
      let m = s.master in
      reconf_loop s.now s.accepts m.parallel_syncs (count_in_progress m.slaves) m.slaves

  -- `sentinelFailoverReconfNextSlave`: a command needs the address of the promoted slave.
  unfoldable pub failover_reconf_next_slave : Sentinel R → Option (Sentinel R)
  failover_reconf_next_slave s = elim (reconf s).1 [
    | [] ↦ failover_detect_end (send_all 0 (reconf s) s)
    | _ ∷ _ ↦
        follow s.master.promoted_slave s.master.slaves
          λ p v. failover_detect_end (send_all p (reconf s) s)
  ]

abbrev pub is_me : {R : Type 0} → (R → R → ℤ) → Sentinel R → Option R → Bool
is_me casecmp s none = false
is_me casecmp s (some r) = is_zero (casecmp r s.my_runid)

module _ {R : Type 0} (casecmp : R → R → ℤ) (dec : Discrete R)
    (order : List (R × ℕ) → List (R × ℕ)) where
  -- `sentinelFailoverWaitStart`
  unfoldable pub failover_wait_start : Sentinel R → Option (Sentinel R)
  failover_wait_start s = do
    (t, leader) ← get_leader casecmp dec order s.master.failover_epoch s
    wait_or_go t (is_me casecmp t leader)

module _ {R : Type 0} (casecmp : R → R → ℤ) (dec : Discrete R) (order : List (R × ℕ) → List (R × ℕ))
    (sort : List (Slave R) → List (Slave R)) where
  -- `sentinelFailoverStateMachine`
  unfoldable pub failover_state_machine : Sentinel R → Option (Sentinel R)
  failover_state_machine s = if not s.master.in_progress then some s else elim s.master.phase [
    | wait_start ↦ failover_wait_start casecmp dec order s
    | select_slave ↦ failover_select_slave sort s
    | send_slaveof_noone ↦ failover_send_slaveof_noone s
    | wait_promotion ↦ failover_wait_promotion s
    | reconf_slaves ↦ failover_reconf_next_slave s
    | _ ↦ some s
  ]

  -- `sentinelHandleRedisInstance` of a master, as far as it acts.
  unfoldable pub handle_master : Sentinel R → Option (Sentinel R)
  handle_master s =
      let t = record s { tilt = false } in
      if s.tilt && ltb s.now (s.tilt_start_time + 1000 * 30)
      then some s
      else failover_state_machine
          (start_failover_if_needed (check_objectively_down (check_subjectively_down t))).1

-- SENTINEL FAILOVER, of `sentinelCommand`.
unfoldable pub failover_command :
    {R : Type 0} → (List (Slave R) → List (Slave R)) → Sentinel R → Sentinel R
failover_command sort s = if s.master.in_progress then s else elim (choose_slave sort s) [
  | none ↦ s
  | some v ↦ let t = start_failover s in with_master t (record t.master { force = true })
]
