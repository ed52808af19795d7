-- ===== src/Sentinel/Limits.antt =====
-- redis-stable/src/sentinel.c: how many slaves a failover sends on at a time.
use better_efisis.Prelude.{
  ℕ, ◌+◌, ◌≤◌, ◌≡◌, ◌⊎◌, inl, inr, refl, sym, ap, ◌∙◌, Bool, true, false, Option, none, some, List,
  [], ◌∷◌, ltb, ◌==◌, length, Bool-cases, if_elim, arith,
}
use mathlib.Core.Path.{subst}
use better_efisis.Sentinel.{Slave, Sentinel, reconf_slaves}
use better_efisis.Sentinel.Machine.{Leads, Fits, IsValid, found-find, found-reconf_loop, Leads-kept}
use better_efisis.Sentinel.Choice.{follow_found}
use better_efisis.Sentinel.Failover.{
  find_slave, give_up, reconf_loop, reconf, count_in_progress, count_left, follow, end_failover,
  detected, send_all, failover_detect_end, failover_reconf_next_slave,
}

module _ {R : Type 0} where
  reconf_loop-sent :
      (now : ℕ) (accepts : ℕ → Bool) (limit n : ℕ) (vs : List (Slave R))
      → (let r = reconf_loop now accepts limit n vs in
          (count_in_progress r.0 ≤ count_in_progress vs + length r.1)
          × ((length r.1 ≡ 0) ⊎ (n + length r.1 ≤ limit)))
  unfolding reconf_loop count_in_progress give_up
  reconf_loop-sent now accepts limit n [] = (omega arith, inl refl)
  reconf_loop-sent now accepts limit n (v ∷ vs) = ground (
    arith,
    reconf_loop-sent now accepts limit n vs,
    reconf_loop-sent now accepts limit (n + 1) vs,
  )

  reconf_bounds :
      (s : Sentinel R)
      → count_in_progress s.master.slaves ≤ s.master.parallel_syncs
      → count_in_progress (reconf s).0 ≤ s.master.parallel_syncs
  reconf_bounds s h =
      let vs = s.master.slaves in
      ground
        (arith, reconf_loop-sent s.now s.accepts s.master.parallel_syncs (count_in_progress vs) vs)

  detected_down : (s : Sentinel R) (p : ℕ) (v : Slave R) → v.s_down ≡ true → detected s p v ≡ some s
  detected_down s p v u = rw u refl

  detected_early :
      (s : Sentinel R) (p : ℕ) (v : Slave R)
      → v.s_down ≡ false
      → ltb (s.master.state_change_time + s.master.failover_timeout) s.now ≡ false
      → detected s p v ≡ some (end_failover false (count_left s.master.slaves == 0) p s)
  detected_early s p v u l = rw (u, l) refl

  Leads-find :
      (o : Option ℕ) (vs : List (Slave R))
      → Leads o vs
      → (p : ℕ) × (v : Slave R) × (o ≡ some p) × (find_slave p vs ≡ some v)
  Leads-find none vs l = elim l [ ]
  Leads-find (some p) vs l = let (v, e) = found-find p vs l in (p, v, refl, e)

  -- Before its timeout, the end of a failover leaves the slaves alone.
  detect_end-slaves :
      (s : Sentinel R)
      → Leads s.master.promoted_slave s.master.slaves
      → ltb (s.master.state_change_time + s.master.failover_timeout) s.now ≡ false
      → (t : Sentinel R) × (failover_detect_end s ≡ some t) × (t.master.slaves ≡ s.master.slaves)
  unfolding failover_detect_end
  detect_end-slaves s l early =
      let (p, v, e, f) = Leads-find s.master.promoted_slave s.master.slaves l in
      let all_done = count_left s.master.slaves == 0 in
      let same : (end_failover false all_done p s).master.slaves ≡ s.master.slaves =
        if_elim (λ (t : Sentinel R). t.master.slaves ≡ s.master.slaves) all_done _ s refl refl in
      let q = follow_found s s.master.promoted_slave s.master.slaves (detected s) p v e f in
      elim (Bool-cases v.s_down) [
        | inl down ↦ (s, q ∙ detected_down s p v down, refl)
        | inr up ↦ (end_failover false all_done p s, q ∙ detected_early s p v up early, same)
      ]

  follow_at :
      (o : Option ℕ) (vs : List (Slave R)) (k : ℕ → Slave R → Option (Sentinel R)) (p : ℕ)
      (v : Slave R)
      → o ≡ some p
      → find_slave p vs ≡ some v
      → follow o vs k ≡ k p v
  unfolding follow
  follow_at o vs k p v e f = rw (e, f, follow) refl

  -- A result with at most so many slaves that synchronise.
  abbrev EndsWithin : ℕ → Option (Sentinel R) → Type 0
  EndsWithin n o = (t : Sentinel R) × (o ≡ some t) × (count_in_progress t.master.slaves ≤ n)

  -- In a valid failover that sends its slaves on, that has not timed out, and in which no more than
  -- `parallel_syncs` slaves synchronise, sentinelFailoverReconfNextSlave fails nowhere, and no more than
  -- `parallel_syncs` slaves synchronise afterwards.
  pub failover_reconf-bounds :
      (s : Sentinel R)
      → IsValid s
      → s.master.phase ≡ reconf_slaves
      → s.now ≤ s.master.state_change_time + s.master.failover_timeout
      → count_in_progress s.master.slaves ≤ s.master.parallel_syncs
      → (t : Sentinel R) × (failover_reconf_next_slave s ≡ some t)
        × (count_in_progress t.master.slaves ≤ s.master.parallel_syncs)
  unfolding failover_reconf_next_slave
  failover_reconf-bounds s valid phase soon few =
      let m = s.master in
      let vs = m.slaves in
      let l : Leads m.promoted_slave vs =
        (subst (λ q. Fits q m.in_progress m.promoted_slave vs) phase valid).1 in
      let kept =
        Leads-kept m.promoted_slave vs (reconf s).0
          (λ n. found-reconf_loop s.now s.accepts m.parallel_syncs (count_in_progress vs) n vs) l in
      let (p, v, e, f) = Leads-find m.promoted_slave vs l in
      let ends : (n : ℕ)
          → EndsWithin m.parallel_syncs (failover_detect_end (send_all n (reconf s) s)) =
        λ n.
          let (t, got, same) = detect_end-slaves (send_all n (reconf s) s) kept (ground arith) in
          (t, got, ground (arith, ap count_in_progress same, reconf_bounds s few)) in
      elim (reconf s).1
        as (λ ns. EndsWithin m.parallel_syncs (elim ns [
          | [] ↦ failover_detect_end (send_all 0 (reconf s) s)
          | _ ∷ _ ↦ follow m.promoted_slave vs λ n v. failover_detect_end (send_all n (reconf s) s)
        ])) [
          | [] ↦ ends 0
          | _ ∷ _ ↦
              subst (EndsWithin m.parallel_syncs) (sym (follow_at m.promoted_slave vs _ p v e f))
                (ends p)
        ]
