-- ===== src/Sentinel/Starts.antt =====
-- redis-stable/src/sentinel.c: when a failover starts.
use better_efisis.Prelude.{
  ℕ, ◌+◌, ◌*◌, ◌≤◌, ◌≡◌, ◌≢◌, ◌⊎◌, inl, inr, refl, ◌∙◌, true, false, ◌&&◌, none, some, List, ltb,
  Bool-cases, Option-cases, arith,
}
use better_efisis.Prelude.Int.{ℤ}
use better_efisis.Sentinel.{
  Slave, Sentinel, raise_epoch, count_down, check_subjectively_down, check_objectively_down,
  start_failover, start_failover_if_needed,
}
use better_efisis.Sentinel.Select.{choose_slave}
use better_efisis.Sentinel.Steps.{
  Step, asked, heard, replied, handled, promoted, commanded, cleared, observed,
}
use better_efisis.Sentinel.Safe.{vote_leader-failover}
use better_efisis.Sentinel.Failover.{
  slave_says_master, reset_master, failover_state_machine, handle_master, failover_command,
}

module _ {R : Type 0} where
  -- When a sentinel may start a failover on its timer: it is not in TILT, it finds the master down,
  -- with it as many sentinels as the quorum do, and the last failover started twice the timeout ago.
  pub record Agreed (s : Sentinel R) : Type 0 where
    pub calm : (s.tilt && ltb s.now (s.tilt_start_time + 1000 * 30)) ≡ false
    pub down : (check_subjectively_down (record s { tilt = false })).master.s_down ≡ true
    pub quorum : s.master.quorum ≤ 1 + count_down s.master.sentinels
    pub rested : s.master.failover_start_time + s.master.failover_timeout * 2 ≤ s.now

  -- SENTINEL FAILOVER leads to the state `t`: there is a slave to promote, and the failover is marked
  -- as forced.
  pub record Forced (sort : List (Slave R) → List (Slave R)) (s t : Sentinel R) : Type 0 where
    pub commanded_ : t ≡ failover_command sort s
    pub has_slave : choose_slave sort s ≢ none
    pub forced : t.master.force ≡ true

  start_if_needed-agreed :
      (s : Sentinel R)
      → (start_failover_if_needed (check_objectively_down s)).0 ≡ true
      → (s.master.s_down ≡ true)
        × (s.master.quorum ≤ 1 + count_down s.master.sentinels)
        × (s.master.failover_start_time + s.master.failover_timeout * 2 ≤ s.now)
  unfolding start_failover_if_needed check_objectively_down
  start_if_needed-agreed s e = ground arith

  start_if_needed-rests :
      (s : Sentinel R)
      → (start_failover_if_needed (check_objectively_down s)).0 ≡ false
      → (start_failover_if_needed (check_objectively_down s)).1.master.in_progress
        ≡ s.master.in_progress
  unfolding start_failover_if_needed check_objectively_down
  start_if_needed-rests s e = ground arith

  check_subjectively-keeps :
      (s : Sentinel R)
      → (let t = check_subjectively_down s in
          (t.now ≡ s.now)
          × (t.master.quorum ≡ s.master.quorum)
          × (t.master.sentinels ≡ s.master.sentinels)
          × (t.master.in_progress ≡ s.master.in_progress)
          × (t.master.failover_start_time ≡ s.master.failover_start_time)
          × (t.master.failover_timeout ≡ s.master.failover_timeout))
  unfolding check_subjectively_down
  check_subjectively-keeps s = ground arith

  in_progress-some :
      (s t : Sentinel R) → some s ≡ some t → s.master.in_progress ≡ t.master.in_progress
  in_progress-some s t e = ground arith

module _ {R : Type 0} (casecmp : R → R → ℤ) (dec : Discrete R) (order : List (R × ℕ) → List (R × ℕ))
    (sort : List (Slave R) → List (Slave R)) where
  handle_master-start :
      (s t : Sentinel R)
      → handle_master casecmp dec order sort s ≡ some t
      → s.master.in_progress ≡ false
      → t.master.in_progress ≡ true
      → Agreed s
  unfolding handle_master failover_state_machine
  handle_master-start s t e off on =
      let d = check_subjectively_down (record s { tilt = false }) in
      let r = start_failover_if_needed (check_objectively_down d) in
      let (n, q, p, i, b, w) = check_subjectively-keeps (record s { tilt = false }) in
      elim (Bool-cases (s.tilt && ltb s.now (s.tilt_start_time + 1000 * 30))) [
        | inl tilted ↦ let same = in_progress-some s t (rw tilted at e) in absurd (ground arith)
        | inr calm ↦ elim (Bool-cases r.0) [
          | inl starts ↦
              let (down, votes, rested) = start_if_needed-agreed d starts in
              record { calm = calm; down = down; quorum = ground arith; rested = ground arith }
          | inr rests ↦
              let off' : r.1.master.in_progress ≡ false = start_if_needed-rests d rests ∙ i ∙ off in
              let same = in_progress-some r.1 t (rw off' at (rw calm at e)) in absurd (ground arith)
        ]
      ]

  failover_command-start :
      (s : Sentinel R)
      → s.master.in_progress ≡ false
      → (failover_command sort s).master.in_progress ≡ true
      → Forced sort s (failover_command sort s)
  unfolding failover_command start_failover
  failover_command-start s off on = elim (Option-cases (choose_slave sort s)) [
    | inl e ↦ absurd (ground (arith, e))
    | inr (v, e) ↦ record {
      commanded_ = refl;
      has_slave = λ n. ground (arith, e, n);
      forced = ground (arith, e, off);
    }
  ]

  -- A step of a sentinel (a request for its vote, a hello message, a reply of a peer, its timer, the
  -- report of a slave, a command, a reset, or a change that leaves the failover alone) that begins
  -- without a failover in progress and ends with one is of one of two kinds. In the first, the
  -- sentinel finds the master down, with it as many sentinels as the quorum do, at least twice the
  -- failover timeout after the last start and outside of TILT. In the second, it ends as SENTINEL
  -- FAILOVER does, where there is a slave to promote, and the failover is marked as forced.
  pub Step-start :
      {s t : Sentinel R}
      → Step casecmp dec order sort s t
      → s.master.in_progress ≡ false
      → t.master.in_progress ≡ true
      → Agreed s ⊎ Forced sort s t
  unfolding slave_says_master reset_master raise_epoch
  Step-start (asked s e r) off on =
      let (p, i, n, v) = vote_leader-failover casecmp e r s in absurd (ground arith)
  Step-start (heard s e) off on = absurd (ground arith)
  Step-start (replied s i down v e) off on = absurd (ground arith)
  Step-start (handled {s} {t} e) off on = inl (handle_master-start s t e off on)
  Step-start (promoted s) off on = absurd (ground arith)
  Step-start (commanded s) off on = inr (failover_command-start s off on)
  Step-start (cleared s keep_sentinels) off on = absurd (ground arith)
  Step-start (observed {s} {t} e f) off on = let same = f.in_progress in absurd (ground arith)
