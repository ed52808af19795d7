-- ===== src/Multi/Tests.antt =====
-- Two clients and the keys 1 and 2 of redis-stable/src/multi.c. A command is the key that it sets.
use better_efisis.Prelude.{
  ℕ, ◌≡◌, refl, true, false, some, none, Option, List, [], ◌∷◌, arith, if◌then◌else◌, inr, inl,
}
use native.Mathlib.Decide.{ℕ_discrete}
use better_efisis.Multi.{
  multi_command, other, Command, multi, exec, plain, Reply, null_multi_bulk, exec_abort, State,
  start, run, process, call, queue_command, touch, touch_all, mark_dirty, watch_keys, watch_for_key,
  is_watched,
}
use better_efisis.Multi.Clients.{IsLinked, Becomes, discarded, watch_keys-IsLinked}
use better_efisis.Multi.Requests.{process-Runs, Follows, any_watched}
use better_efisis.Multi.Optimistic.{start-IsLinked, exec-modified}

abbrev sets : ℕ → List ℕ
sets k = k ∷ []

-- Client 7 watches key 1.
abbrev watching : State ℕ ℕ
watching = watch_keys ℕ_discrete start 7 (1 ∷ [])

watching-IsLinked : IsLinked ℕ_discrete watching
watching-IsLinked = watch_keys-IsLinked ℕ_discrete start 7 (1 ∷ []) (start-IsLinked ℕ_discrete)

-- Client 8 sets the key, then client 7 queues a command.
abbrev requests : List (ℕ × Command ℕ ℕ)
requests = (7, multi) ∷ (8, plain (other 2)) ∷ (7, plain (other 2)) ∷ []

abbrev last_state : Option (State ℕ ℕ)
last_state = run ℕ_discrete sets watching ((8, plain (other 1)) ∷ requests)

abbrev state_of : Option (State ℕ ℕ) → State ℕ ℕ
state_of none = start
state_of (some s) = s

last_state-some : last_state ≡ some (state_of last_state)
unfolding run process multi_command call touch_all touch mark_dirty queue_command watch_keys
    watch_for_key is_watched ℕ_discrete
last_state-some = refl

in_transaction : ((state_of last_state).client 7).in_multi ≡ true
unfolding run process multi_command call touch_all touch mark_dirty queue_command watch_keys
    watch_for_key is_watched ℕ_discrete
in_transaction = refl

is_outside : (watching.client 8).in_multi ≡ false
unfolding watch_keys watch_for_key is_watched ℕ_discrete
is_outside = refl

is_watching : any_watched ℕ_discrete (sets 1) (watching.client 7).watched_keys ≡ true
unfolding watch_keys watch_for_key is_watched ℕ_discrete
is_watching = refl

exec-modified_example :
    (t : State ℕ ℕ) × (process ℕ_discrete sets (state_of last_state) 7 exec
      ≡ some (
        t,
        (if ((state_of last_state).client 7).dirty_exec then exec_abort else null_multi_bulk) ∷ [],
      ))
    × Becomes ℕ_discrete (state_of last_state) 7 discarded t
exec-modified_example =
    exec-modified ℕ_discrete sets watching (state_of last_state) 7 8 1 requests watching-IsLinked
      is_outside is_watching (inr tt, (inl (omega arith), (inr tt, tt))) last_state-some
      in_transaction

process-Runs_example :
    (t : State ℕ ℕ) × (r : List (Reply ℕ)) × (process ℕ_discrete sets watching 8 (plain (other 1))
      ≡ some (t, r))
    × Follows ℕ_discrete watching 8 t
process-Runs_example = process-Runs ℕ_discrete sets watching 8 (plain (other 1)) watching-IsLinked
