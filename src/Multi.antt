-- ===== src/Multi.antt =====
-- redis-stable/src/multi.c: transactions and WATCH, with the branch of `processCommand` in
-- redis-stable/src/redis.c that queues. `K` is a key together with its database. `A` is a command of
-- another file; what the transactions see of it is which keys it signals as modified.
pub mod Watching
pub mod Clients
pub mod Requests
pub mod Optimistic
mod Tests
use mathlib.Core.Logic.{ite}
use better_efisis.Prelude.{
  ℕ, zero, suc, ◌+◌, Bool, true, false, not, ◌&&◌, ◌||◌, Option, none, some, List, [], ◌∷◌, ◌++◌,
  ◌==◌, if◌then◌else◌, length,
}

-- A command that can be queued: UNWATCH, or one of another file.
pub data Queued (A : Type 0) : Type 0 where
  unwatch : Queued A
  other : A → Queued A

pub data Command (K A : Type 0) : Type 0 where
  watch : List K → Command K A
  multi : Command K A
  discard : Command K A
  exec : Command K A
  plain : Queued A → Command K A
  -- One that `processCommand` refuses with a call of `flagTransaction`.
  refused : Command K A

pub data Reply (A : Type 0) : Type 0 where
  ok : Reply A
  queued : Reply A
  error : Reply A
  exec_abort : Reply A
  null_multi_bulk : Reply A
  multi_bulk : ℕ → Reply A
  result : A → Reply A

-- The flags REDIS_MULTI, REDIS_DIRTY_CAS and REDIS_DIRTY_EXEC, `mstate` and `watched_keys`.
pub record Client (K A : Type 0) : Type 0 where
  pub in_multi : Bool
  pub dirty_cas : Bool
  pub dirty_exec : Bool
  pub commands : List (Queued A)
  pub watched_keys : List K

-- The clients by number, and the databases' `watched_keys`: the list for a key, [] if it has none.
pub record State (K A : Type 0) : Type 0 where
  pub client : ℕ → Client K A
  pub watchers : K → List ℕ

module _ {K A : Type 0} where
  abbrev pub set_client : State K A → ℕ → Client K A → State K A
  set_client s c x = record s { client = λ i. if i == c then x else s.client i }

-- `listDelNode(clients,listSearchKey(clients,c))`, none if the client is not there.
unfoldable pub delete_node : ℕ → List ℕ → Option (List ℕ)
delete_node c [] = none
delete_node c (x ∷ xs) =
    let rest = delete_node c xs in
    if x == c then some xs else elim rest [ none ↦ none | some ys ↦ some (x ∷ ys) ]

-- Whether a client watches a key that a flush removes.
module _ {K : Type 0} where
  unfoldable pub any_gone : (K → Bool) → List K → Bool
  any_gone gone [] = false
  any_gone gone (k ∷ ks) = gone k || any_gone gone ks

-- The loop of `touchWatchedKey` over the clients that watch the key.
module _ {K A : Type 0} where
  unfoldable pub mark_dirty : List ℕ → State K A → State K A
  mark_dirty [] s = s
  mark_dirty (c ∷ cs) s = mark_dirty cs (set_client s c (record (s.client c) { dirty_cas = true }))

  -- `touchWatchedKey`
  unfoldable pub touch : State K A → K → State K A
  touch s k = mark_dirty (s.watchers k) s

  -- `signalModifiedKey` for each of the keys.
  unfoldable pub touch_all : List K → State K A → State K A
  touch_all [] s = s
  touch_all (k ∷ ks) s = touch_all ks (touch s k)

  -- `touchWatchedKeysOnFlush` over the server's clients. `gone` says of a key whether it stands in a
  -- database that is flushed, and exists.
  unfoldable pub touch_on_flush : (K → Bool) → List ℕ → State K A → State K A
  unfolding any_gone
  touch_on_flush gone [] s = s
  touch_on_flush gone (c ∷ cs) s = touch_on_flush gone cs (
      if any_gone gone (s.client c).watched_keys
      then set_client s c (record (s.client c) { dirty_cas = true })
      else s)

  -- `flagTransaction`
  unfoldable pub flag_transaction : State K A → ℕ → State K A
  flag_transaction s c =
      let x = s.client c in
      if x.in_multi then set_client s c (record x { dirty_exec = true }) else s

  -- `queueMultiCommand`
  unfoldable pub queue_command : State K A → ℕ → Queued A → State K A
  queue_command s c q =
      let x = s.client c in set_client s c (record x { commands = x.commands ++ (q ∷ []) })

module _ {K : Type 0} (dec : Discrete K) where
  -- The search of `watchForKey` in the client's list.
  unfoldable pub is_watched : K → List K → Bool
  is_watched k [] = false
  is_watched k (j ∷ js) = ite (dec k j) true (is_watched k js)

  abbrev pub set_watchers : (K → List ℕ) → K → List ℕ → K → List ℕ
  set_watchers f k l = λ j. ite (dec j k) l (f j)

  -- The loop of `unwatchAllKeys`; none if its assertion fails or the client is not in a list.
  unfoldable pub unwatch_loop : ℕ → List K → (K → List ℕ) → Option (K → List ℕ)
  unwatch_loop c [] f = some f
  unwatch_loop c (k ∷ ks) f = elim (delete_node c (f k)) [
    | none ↦ none
    | some l ↦ unwatch_loop c ks (set_watchers f k l)
  ]

module _ {K A : Type 0} (dec : Discrete K) where
  -- `watchForKey`
  unfoldable pub watch_for_key : State K A → ℕ → K → State K A
  watch_for_key s c k =
      let x = s.client c in
      if is_watched dec k x.watched_keys
      then s
      else record (set_client s c (record x { watched_keys = x.watched_keys ++ (k ∷ []) })) {
        watchers = set_watchers dec s.watchers k (s.watchers k ++ (c ∷ []));
      }

  unfoldable pub watch_keys : State K A → ℕ → List K → State K A
  watch_keys s c [] = s
  watch_keys s c (k ∷ ks) = watch_keys (watch_for_key s c k) c ks

  -- `unwatchAllKeys`
  unfoldable pub unwatch_all : State K A → ℕ → Option (State K A)
  unwatch_all s c = elim (unwatch_loop dec c (s.client c).watched_keys s.watchers) [
    | none ↦ none
    | some f ↦
        some (record (set_client s c (record (s.client c) { watched_keys = [] })) { watchers = f })
  ]

  -- `discardTransaction`
  unfoldable pub discard_transaction : State K A → ℕ → Option (State K A)
  discard_transaction s c =
      unwatch_all
        (set_client s c (record (s.client c) {
          commands = [];
          in_multi = false;
          dirty_cas = false;
          dirty_exec = false;
        }))
        c

  -- `unwatchCommand`
  unfoldable pub unwatch_command : State K A → ℕ → Option (State K A)
  unwatch_command s c = elim (unwatch_all s c) [
    | none ↦ none
    | some t ↦ some (set_client t c (record (t.client c) { dirty_cas = false }))
  ]

  module _ (modifies : A → List K) where
    -- `call` for a command that can be queued, with its replies.
    unfoldable pub call : State K A → ℕ → Queued A → Option (State K A × List (Reply A))
    call s c unwatch = elim (unwatch_command s c) [ none ↦ none | some t ↦ some (t, ok ∷ []) ]
    call s c (other a) = some (touch_all (modifies a) s, result a ∷ [])

    -- The loop of `execCommand`.
    unfoldable pub call_all : State K A → ℕ → List (Queued A) → Option (State K A × List (Reply A))
    call_all s c [] = some (s, [])
    call_all s c (q ∷ qs) = elim (call s c q) [
      | none ↦ none
      | some (t, r) ↦ elim (call_all t c qs) [ none ↦ none | some (u, rs) ↦ some (u, r ++ rs) ]
    ]

    abbrev pub with_reply :
        List (Reply A) → Option (State K A) → Option (State K A × List (Reply A))
    with_reply r none = none
    with_reply r (some s) = some (s, r)

    -- The part of `execCommand` that runs the queue.
    unfoldable pub exec_queue : State K A → ℕ → Option (State K A × List (Reply A))
    exec_queue s c = elim (unwatch_all s c) [
      | none ↦ none
      | some t ↦ elim (call_all t c (t.client c).commands) [
        | none ↦ none
        | some (u, rs) ↦
            with_reply (multi_bulk (length (t.client c).commands) ∷ rs) (discard_transaction u c)
      ]
    ]

    -- `execCommand`
    unfoldable pub exec_command : State K A → ℕ → Option (State K A × List (Reply A))
    exec_command s c =
        let x = s.client c in
        if not x.in_multi
        then some (s, error ∷ [])
        else if x.dirty_cas || x.dirty_exec
        then with_reply ((if x.dirty_exec then exec_abort else null_multi_bulk) ∷ [])
            (discard_transaction s c)
        else exec_queue s c

    -- `watchCommand`, `multiCommand` and `discardCommand`
    unfoldable pub watch_command : State K A → ℕ → List K → Option (State K A × List (Reply A))
    watch_command s c ks =
        if (s.client c).in_multi then some (s, error ∷ []) else some (watch_keys s c ks, ok ∷ [])

    unfoldable pub multi_command : State K A → ℕ → Option (State K A × List (Reply A))
    multi_command s c =
        if (s.client c).in_multi
        then some (s, error ∷ [])
        else some (set_client s c (record (s.client c) { in_multi = true }), ok ∷ [])

    unfoldable pub discard_command : State K A → ℕ → Option (State K A × List (Reply A))
    discard_command s c =
        if (s.client c).in_multi
        then with_reply (ok ∷ []) (discard_transaction s c)
        else some (s, error ∷ [])

    -- What `processCommand` does with a command of client `c`.
    unfoldable pub process : State K A → ℕ → Command K A → Option (State K A × List (Reply A))
    unfolding watch_command multi_command discard_command
    process s c (watch ks) = watch_command s c ks
    process s c multi = multi_command s c
    process s c discard = discard_command s c
    process s c exec = exec_command s c
    process s c (plain q) =
        if (s.client c).in_multi then some (queue_command s c q, queued ∷ []) else call s c q
    process s c refused = some (flag_transaction s c, error ∷ [])

    -- Commands of several clients, in the order in which the server reads them.
    unfoldable pub run : State K A → List (ℕ × Command K A) → Option (State K A)
    run s [] = some s
    run s ((c, cmd) ∷ rs) = elim (process s c cmd) [ none ↦ none | some (t, r) ↦ run t rs ]

-- No client has done anything.
abbrev pub idle_client : {K A : Type 0} → Client K A
idle_client = record {
  in_multi = false;
  dirty_cas = false;
  dirty_exec = false;
  commands = [];
  watched_keys = [];
}

abbrev pub start : {K A : Type 0} → State K A
start = record { client = λ c. idle_client; watchers = λ k. [] }
