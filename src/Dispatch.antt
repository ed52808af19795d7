-- ===== src/Dispatch.antt =====
-- redis-stable/src/redis.c: the tests of `processCommand` before a command is run or queued.
pub mod Policy
mod Tests
use better_efisis.Prelude.{
  ℕ, ◌+◌, Bool, true, false, not, ◌&&◌, ◌||◌, Option, none, some, ltb, ◌==◌, if◌then◌else◌,
}
use better_efisis.Prelude.Int.{ℤ, pos, negsuc}

-- The commands that `processCommand` tells from others.
pub data Proc : Type 0 where
  auth replconf shutdown script ping subscribe unsubscribe psubscribe punsubscribe : Proc
  exec discard multi watch other : Proc

-- An entry of the command table, with the flags that are tested.
pub record Command : Type 0 where
  pub proc : Proc
  pub arity : ℤ
  pub write : Bool
  pub denyoom : Bool
  pub stale : Bool
  pub loading : Bool

-- The fields of `server`. `memory_freed` says that `freeMemoryIfNeeded` does not return REDIS_ERR.
pub record Server : Type 0 where
  pub requirepass : Bool
  pub maxmemory : Bool
  pub memory_freed : Bool
  pub stop_writes_on_bgsave_err : Bool
  pub saveparamslen : ℕ
  pub bgsave_failed : Bool
  pub aof_write_failed : Bool
  pub is_slave : Bool
  pub min_slaves_to_write : ℕ
  pub min_slaves_max_lag : ℕ
  pub good_slaves_count : ℕ
  pub slave_ro : Bool
  pub master_connected : Bool
  pub serve_stale_data : Bool
  pub loading : Bool
  pub lua_timedout : Bool

-- The client and its request: `letter` is the first character of the second argument, in lower case.
pub record Request : Type 0 where
  pub authenticated : Bool
  pub is_master : Bool
  pub in_multi : Bool
  pub channels : ℕ
  pub patterns : ℕ
  pub is_quit : Bool
  pub cmd : Option Command
  pub argc : ℕ
  pub letter : ℕ

pub data Reason : Type 0 where
  unknown_command wrong_arity no_auth out_of_memory bgsave_error aof_error : Reason
  no_replicas read_only_slave pubsub_context master_down is_loading slow_script : Reason

-- `refused` says whether `flagTransaction` is called.
pub data Outcome : Type 0 where
  quit : Outcome
  refused : Reason → Bool → Outcome
  queued : Outcome
  called : Outcome

abbrev pub is_auth : Proc → Bool
is_auth auth = true
is_auth _ = false

abbrev pub is_ping : Proc → Bool
is_ping ping = true
is_ping _ = false

abbrev pub is_subscription : Proc → Bool
is_subscription subscribe = true
is_subscription unsubscribe = true
is_subscription psubscribe = true
is_subscription punsubscribe = true
is_subscription _ = false

-- The commands that are run inside a transaction.
abbrev pub is_transaction : Proc → Bool
is_transaction exec = true
is_transaction discard = true
is_transaction multi = true
is_transaction watch = true
is_transaction _ = false

-- What is run while a script is too slow, of a command with `argc` words and `letter`.
abbrev pub is_for_slow_script : Proc → ℕ → ℕ → Bool
is_for_slow_script auth argc letter = true
is_for_slow_script replconf argc letter = true
is_for_slow_script shutdown argc letter = argc == 2 && letter == b'n'
is_for_slow_script script argc letter = argc == 2 && letter == b'k'
is_for_slow_script _ argc letter = false

-- A positive arity is exact, a negative one a lower bound.
abbrev pub bad_arity : ℤ → ℕ → Bool
bad_arity (pos n) argc = ltb 0 n && not (n == argc)
bad_arity (negsuc n) argc = ltb argc (n + 1)

unfoldable pub refuse_if : Bool → Reason → Bool → Outcome → Outcome
refuse_if b why flagged next = if b then refused why flagged else next

-- `processCommand` from the check of the number of replicas on.
unfoldable pub check_replication : Server → Request → Command → Outcome
check_replication s r c =
    refuse_if
      (ltb 0 s.min_slaves_to_write
        && ltb 0 s.min_slaves_max_lag
        && c.write
        && ltb s.good_slaves_count s.min_slaves_to_write)
      no_replicas true
      (refuse_if (s.is_slave && s.slave_ro && not r.is_master && c.write) read_only_slave false (
        refuse_if ((ltb 0 r.channels || ltb 0 r.patterns) && not (is_subscription c.proc))
          pubsub_context false
          (refuse_if (s.is_slave && not s.master_connected && not s.serve_stale_data && not c.stale)
            master_down true
            (refuse_if (s.loading && not c.loading) is_loading false (
              refuse_if (s.lua_timedout && not (is_for_slow_script c.proc r.argc r.letter))
                slow_script true
                (if r.in_multi && not (is_transaction c.proc) then queued else called))))))

-- `processCommand` from the check of the number of words on, for a command of the table.
unfoldable pub check_request : Server → Request → Command → Outcome
check_request s r c = refuse_if (bad_arity c.arity r.argc) wrong_arity true (
    refuse_if (s.requirepass && not r.authenticated && not (is_auth c.proc)) no_auth true (
      refuse_if (s.maxmemory && c.denyoom && not s.memory_freed) out_of_memory true (
        refuse_if
          ((s.stop_writes_on_bgsave_err && ltb 0 s.saveparamslen && s.bgsave_failed
              || s.aof_write_failed)
            && not s.is_slave
            && (c.write || is_ping c.proc))
          (if s.aof_write_failed then aof_error else bgsave_error) true (check_replication s r c))))

-- `processCommand`
unfoldable pub process_command : Server → Request → Outcome
process_command s r =
    if r.is_quit
    then quit
    else elim r.cmd [ none ↦ refused unknown_command true | some c ↦ check_request s r c ]
