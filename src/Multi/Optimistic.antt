-- ===== src/Multi/Optimistic.antt =====
-- Optimistic locking by redis-stable/src/multi.c: after a watched key was modified, EXEC does not run
-- the transaction, whatever commands came in between.
use mathlib.Core.Option.{some_inj}
use mathlib.Core.Path.{subst}
use better_efisis.Prelude.{
  ℕ, ◌≡◌, ◌≢◌, ◌⊎◌, refl, sym, ap, ◌∙◌, true, false, some, List, [], ◌∷◌, arith, if◌then◌else◌, inl,
  inr, eq_cases,
}
use better_efisis.Multi.{
  watch_command, multi_command, unwatch, other, Command, watch, multi, discard, exec, plain,
  refused, Reply, exec_abort, null_multi_bulk, result, State, touch_all, flag_transaction,
  queue_command, watch_for_key, watch_keys, call, exec_command, process, run, start,
}
use better_efisis.Multi.Watching.{occurs, times}
use better_efisis.Multi.Clients.{IsLinked, Becomes, discarded, discard_transaction-Becomes}
use better_efisis.Multi.Requests.{any_watched, touch_all-client, process-Runs}

module _ {K A : Type 0} (dec : Discrete K) where
  pub start-IsLinked : IsLinked {A = A} dec start
  unfolding occurs times
  start-IsLinked = record { mirrored = λ c k. refl; once = λ c k. omega arith }

  -- All but the commands by which a client gives its watched keys up.
  abbrev pub IsQuiet : Command K A → Type 0
  IsQuiet exec = ⊥
  IsQuiet discard = ⊥
  IsQuiet (plain unwatch) = ⊥
  IsQuiet _ = Unit

  abbrev pub AllQuiet : ℕ → List (ℕ × Command K A) → Type 0
  AllQuiet c [] = Unit
  AllQuiet c ((i, cmd) ∷ rs) = ((i ≢ c) ⊎ IsQuiet cmd) × AllQuiet c rs

  watch_keys-dirty :
      (s : State K A) (c : ℕ) (ks : List K)
      → ((watch_keys dec s c ks).client c).dirty_cas ≡ (s.client c).dirty_cas
  unfolding watch_keys watch_for_key
  watch_keys-dirty s c [] = refl
  watch_keys-dirty s c (k ∷ ks) = watch_keys-dirty (watch_for_key dec s c k) c ks ∙ ground arith

  module _ (modifies : A → List K) where
    -- A client that is marked dirty stays so while it sends quiet commands.
    own_command :
        (s t : State K A) (c : ℕ) (cmd : Command K A) (r : List (Reply A))
        → IsLinked dec s
        → IsQuiet cmd
        → (s.client c).dirty_cas ≡ true
        → process dec modifies s c cmd ≡ some (t, r)
        → (t.client c).dirty_cas ≡ true
    unfolding process watch_command multi_command call queue_command flag_transaction
    own_command s t c (watch ks) r v quiet dirty e = ground (arith, watch_keys-dirty s c ks)
    own_command s t c multi r v quiet dirty e = ground arith
    own_command s t c (plain (other a)) r v quiet dirty e =
        ground (arith, touch_all-client dec (modifies a) s c v)
    own_command s t c refused r v quiet dirty e = ground arith
    own_command s t c (plain unwatch) r v quiet dirty e = absurd quiet
    own_command s t c exec r v quiet dirty e = absurd quiet
    own_command s t c discard r v quiet dirty e = absurd quiet

    own-IsQuiet : (c i : ℕ) (cmd : Command K A) → (i ≢ c) ⊎ IsQuiet cmd → i ≡ c → IsQuiet cmd
    own-IsQuiet c i cmd (inl ne) e = absurd (ne e)
    own-IsQuiet c i cmd (inr quiet) e = quiet

    stays_dirty :
        (s t : State K A) (c i : ℕ) (cmd : Command K A) (r : List (Reply A))
        → IsLinked dec s
        → (i ≢ c) ⊎ IsQuiet cmd
        → (s.client c).dirty_cas ≡ true
        → process dec modifies s i cmd ≡ some (t, r)
        → IsLinked dec t × ((t.client c).dirty_cas ≡ true)
    stays_dirty s t c i cmd r v allowed dirty e =
        let (t', r', e', f) = process-Runs dec modifies s i cmd v in
        let same : t' ≡ t = ap (λ p. p.0) (some_inj.0 (sym e' ∙ e)) in
        (
          subst (IsLinked dec) same f.linked,
          elim (eq_cases i c) [
            | inl own ↦
                ap (λ j. (t.client j).dirty_cas) (sym own)
                ∙ own_command s t i cmd r v (own-IsQuiet c i cmd allowed own)
                    (ap (λ j. (s.client j).dirty_cas) own ∙ dirty) e
            | inr ne ↦
                ap (λ (u : State K A). (u.client c).dirty_cas) (sym same)
                ∙ (f.others c (λ h. ne (sym h))).dirty_cas dirty
          ],
        )

    -- From a state whose lists agree, no sequence of commands fails an assertion, and they agree
    -- afterwards.
    run-IsLinked :
        (rs : List (ℕ × Command K A)) (s : State K A)
        → IsLinked dec s
        → (t : State K A) × (run dec modifies s rs ≡ some t) × IsLinked dec t
    unfolding run
    run-IsLinked [] s v = (s, refl, v)
    run-IsLinked ((c, cmd) ∷ rs) s v =
        let (t, r, e, f) = process-Runs dec modifies s c cmd v in
        let (u, e', v') = run-IsLinked rs t f.linked in (u, rw (e, run) e', v')

    -- EXEC of a client that is marked dirty runs nothing: the reply is the null one, or the error if
    -- a command was refused before, the client's transaction and watched keys are gone, and no other
    -- client changes.
    exec-aborted :
        (s : State K A) (c : ℕ)
        → IsLinked dec s
        → (s.client c).in_multi ≡ true
        → (s.client c).dirty_cas ≡ true
        → (t : State K A) × (process dec modifies s c exec
            ≡ some (t, (if (s.client c).dirty_exec then exec_abort else null_multi_bulk) ∷ []))
          × Becomes dec s c discarded t
    unfolding process exec_command
    exec-aborted s c v inside dirty =
        let (t, e, b) = discard_transaction-Becomes dec s c v in
        (t, rw (inside, dirty, e, exec_command), b)

    run_stays_dirty :
        (rs : List (ℕ × Command K A)) (s u : State K A) (c : ℕ)
        → IsLinked dec s
        → AllQuiet c rs
        → (s.client c).dirty_cas ≡ true
        → run dec modifies s rs ≡ some u
        → IsLinked dec u × ((u.client c).dirty_cas ≡ true)
    unfolding run
    run_stays_dirty [] s u c v quiet dirty e =
        let same : s ≡ u = some_inj.0 e in
        (
          subst (IsLinked dec) same v,
          ap (λ (t : State K A). (t.client c).dirty_cas) (sym same) ∙ dirty,
        )
    run_stays_dirty ((i, cmd) ∷ rs) s u c v quiet dirty e =
        let (t, r, e', f) = process-Runs dec modifies s i cmd v in
        let next = stays_dirty s t c i cmd r v quiet.0 dirty e' in
        run_stays_dirty rs t u c next.0 quiet.1 next.1 (rw (e', run) at e)

    -- In a state whose lists agree, let client `c` watch a key that a command modifies, which another
    -- or the same client runs outside a transaction, and let any commands follow, of which those of
    -- `c` do not give its watched keys up. If `c` is in a transaction then, EXEC runs nothing of it:
    -- the reply is the null one, or the error if a command was refused before, and no other client
    -- changes.
    pub exec-modified :
        (s u : State K A) (c c' : ℕ) (a : A) (rs : List (ℕ × Command K A))
        → IsLinked dec s
        → (s.client c').in_multi ≡ false
        → any_watched dec (modifies a) (s.client c).watched_keys ≡ true
        → AllQuiet c rs
        → run dec modifies s ((c', plain (other a)) ∷ rs) ≡ some u
        → (u.client c).in_multi ≡ true
        → (t : State K A) × (process dec modifies u c exec
            ≡ some (t, (if (u.client c).dirty_exec then exec_abort else null_multi_bulk) ∷ []))
          × Becomes dec u c discarded t
    unfolding run process call
    exec-modified s u c c' a rs v outside watched quiet e inside =
        let t = touch_all (modifies a) s in
        let ran : process dec modifies s c' (plain (other a)) ≡ some (t, result a ∷ []) =
          rw (outside, process, call) in
        let (t', r', e', f) = process-Runs dec modifies s c' (plain (other a)) v in
        let same : t' ≡ t = ap (λ p. p.0) (some_inj.0 (sym e' ∙ ran)) in
        let dirty : (t.client c).dirty_cas ≡ true =
          ground (arith, touch_all-client dec (modifies a) s c v) in
        let last =
          run_stays_dirty rs t u c (subst (IsLinked dec) same f.linked) quiet dirty
            (rw (ran, run) at e) in
        exec-aborted u c last.0 inside last.1
