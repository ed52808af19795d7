-- ===== src/Sentinel/Choice.antt =====
-- redis-stable/src/sentinel.c: which slave is promoted, and which are sent SLAVEOF at a timeout.
use better_efisis.Prelude.{
  ℕ, ◌+◌, ◌≤◌, ◌<◌, ◌≡◌, ◌≢◌, ◌⊎◌, inl, inr, refl, sym, ap, ◌∙◌, Bool, true, false, not, ◌||◌,
  Option, none, some, List, [], ◌∷◌, ◌++◌, ltb, ◌==◌, if◌then◌else◌, Bool-cases, if_elim, arith,
}
use better_efisis.Prelude.Int.{ℤ, pos_part}
use better_efisis.Sentinel.{Slave, Sentinel}
use better_efisis.Sentinel.Select.{choose_slave, suitable, is_suitable, first, compare_slaves}
use better_efisis.Sentinel.Election.{In}
use better_efisis.Sentinel.Machine.{first-In, suitable-In}
use better_efisis.Sentinel.Failover.{
  find_slave, count_left, send_best_effort, orders, follow, end_failover, detected, is_null,
  failover_detect_end,
}

In-orders : (p n : ℕ) (ns : List ℕ) → In n ns → In (n, some p) (orders p ns)
In-orders p n [] i = elim i [ ]
In-orders p n (m ∷ ns) (inl e) = inl (ap (λ k. (k, some p)) e)
In-orders p n (m ∷ ns) (inr i) = inr (In-orders p n ns i)

In-append : {A : Type 0} (x : A) (xs ys : List A) → In x ys → In x (xs ++ ys)
In-append x [] ys i = i
In-append x (y ∷ xs) ys i = inr (In-append x xs ys i)

module _ {R : Type 0} where
  In-best_effort :
      (accepts : ℕ → Bool) (p : ℕ) (v : Slave R) (vs : List (Slave R))
      → find_slave p vs ≡ some v
      → v.reconf_done ≡ false
      → v.reconf_sent ≡ false
      → v.disconnected ≡ false
      → accepts p ≡ true
      → In p (send_best_effort accepts vs).1
  unfolding find_slave send_best_effort
  In-best_effort accepts p v [] e d x c a = cc
  In-best_effort accepts p v (w ∷ vs) e d x c a =
      let rest = send_best_effort accepts vs in
      elim (Bool-cases (w.name == p)) [
        | inl q ↦
            let same : w ≡ v = ground arith in
            let name : w.name ≡ p = ground arith in
            let skips : (w.reconf_done || w.reconf_sent || w.disconnected || not (accepts w.name))
                ≡ false =
              let d' = ap (λ (y : Slave R). y.reconf_done) same ∙ d in
              let x' = ap (λ (y : Slave R). y.reconf_sent) same ∙ x in
              let c' = ap (λ (y : Slave R). y.disconnected) same ∙ c in
              let a' = ap accepts name ∙ a in ground arith in
            rw skips (inl (sym name))
        | inr q ↦
            let i = In-best_effort accepts p v vs (rw q at e) d x c a in
            if_elim {A = List (Slave R) × List ℕ} (λ r. In p r.1)
              (w.reconf_done || w.reconf_sent || w.disconnected || not (accepts w.name))
              (w ∷ rest.0, rest.1) (record w { reconf_sent = true } ∷ rest.0, w.name ∷ rest.1) i
              (inr i)
      ]

  pub follow_found :
      (s : Sentinel R) (o : Option ℕ) (vs : List (Slave R)) (k : ℕ → Slave R → Option (Sentinel R))
      (p : ℕ) (v : Slave R)
      → o ≡ some p
      → find_slave p vs ≡ some v
      → (if is_null o then some s else follow o vs k) ≡ k p v
  unfolding follow
  follow_found s o vs k p v e f = rw (e, f, follow) refl

  detected_late :
      (s : Sentinel R) (p : ℕ) (v : Slave R)
      → v.s_down ≡ false
      → ltb (s.master.state_change_time + s.master.failover_timeout) s.now ≡ true
      → detected s p v ≡ some (end_failover true (count_left s.master.slaves == 0) p s)
  detected_late s p v u l = rw (u, l) refl

  -- Where a failover ends by its timeout, SLAVEOF with the address of the promoted slave is sent to
  -- the promoted slave too, if it is connected and was not sent it before.
  pub failover_detect_end-promoted :
      (s : Sentinel R) (p : ℕ) (v : Slave R)
      → s.master.promoted_slave ≡ some p
      → find_slave p s.master.slaves ≡ some v
      → v.s_down ≡ false
      → v.reconf_done ≡ false
      → v.reconf_sent ≡ false
      → v.disconnected ≡ false
      → s.accepts p ≡ true
      → s.master.state_change_time + s.master.failover_timeout < s.now
      → (t : Sentinel R) × (failover_detect_end s ≡ some t) × In (p, some p) t.sent
  unfolding failover_detect_end
  failover_detect_end-promoted s p v e f u d x c a late =
      let b = count_left s.master.slaves == 0 in
      let l : ltb (s.master.state_change_time + s.master.failover_timeout) s.now ≡ true =
        ground arith in
      (
        end_failover true b p s,
        follow_found s s.master.promoted_slave s.master.slaves (detected s) p v e f
            ∙ detected_late s p v u l,
        In-append (p, some p) s.sent _
            (In-orders p p _ (In-best_effort s.accepts p v s.master.slaves f d x c a)),
      )

module _ {R : Type 0} (casecmp : R → R → ℤ) (sort : List (Slave R) → List (Slave R))
    (members : (v : Slave R) (l : List (Slave R)) → In v (sort l) → In v l)
    (first_least : (l : List (Slave R)) (v w : Slave R)
      → first (sort l) ≡ some v
      → In w l
      → pos_part (compare_slaves casecmp v w) ≡ 0)
    (keeps : (l : List (Slave R)) (w : Slave R) → In w l → first (sort l) ≢ none) where
  suitable_all :
      (s : Sentinel R) (v : Slave R) (vs : List (Slave R))
      → In v (suitable s vs)
      → is_suitable s v ≡ true
  unfolding suitable
  suitable_all s v [] i = elim i [ ]
  suitable_all s v (w ∷ vs) i = elim (Bool-cases (is_suitable s w)) [
    | inl e ↦ elim (rw e at i) [ inl q ↦ ap (is_suitable s) q ∙ e | inr q ↦ suitable_all s v vs q ]
    | inr e ↦ suitable_all s v vs (rw e at i)
  ]

  In-suitable :
      (s : Sentinel R) (v : Slave R) (vs : List (Slave R))
      → In v vs
      → is_suitable s v ≡ true
      → In v (suitable s vs)
  unfolding suitable
  In-suitable s v [] i h = elim i [ ]
  In-suitable s v (w ∷ vs) (inl e) h =
      let q : is_suitable s w ≡ true = ap (is_suitable s) (sym e) ∙ h in rw q (inl e)
  In-suitable s v (w ∷ vs) (inr i) h =
      if_elim (In v) (is_suitable s w) (w ∷ suitable s vs) (suitable s vs)
        (inr (In-suitable s v vs i h)) (In-suitable s v vs i h)

  compare_order :
      (v w : Slave R)
      → pos_part (compare_slaves casecmp v w) ≡ 0
      → (v.priority < w.priority) ⊎ ((v.priority ≡ w.priority) × (w.repl_offset ≤ v.repl_offset))
  unfolding compare_slaves
  compare_order v w h = elim (Bool-cases (ltb v.priority w.priority)) [
    | inl e ↦ inl (ground arith)
    | inr e ↦ inr (ground arith, ground arith)
  ]

  -- The slave that is chosen is a suitable one of the master, and each suitable one has a higher
  -- priority number, or the same and no greater replication offset. `sort` gives back slaves of the
  -- list, one at least for each list with one, and first one that compares as at most each of them.
  pub choose_slave-best :
      (s : Sentinel R) (v w : Slave R)
      → choose_slave sort s ≡ some v
      → In w s.master.slaves
      → is_suitable s w ≡ true
      → In v s.master.slaves
        × (is_suitable s v ≡ true)
        × ((v.priority < w.priority)
            ⊎ ((v.priority ≡ w.priority) × (w.repl_offset ≤ v.repl_offset)))
  unfolding choose_slave
  choose_slave-best s v w e j h =
      let l = suitable s s.master.slaves in
      let i : In v l = members v l (first-In v (sort l) e) in
      (
        suitable-In s v s.master.slaves i,
        suitable_all s v s.master.slaves i,
        compare_order v w (first_least l v w e (In-suitable s w s.master.slaves j h)),
      )

  pub choose_slave-none :
      (s : Sentinel R) (w : Slave R)
      → choose_slave sort s ≡ none
      → In w s.master.slaves
      → is_suitable s w ≡ false
  unfolding choose_slave
  choose_slave-none s w e i = elim (Bool-cases (is_suitable s w)) [
    | inl h ↦ absurd (keeps (suitable s s.master.slaves) w (In-suitable s w s.master.slaves i h) e)
    | inr h ↦ h
  ]
