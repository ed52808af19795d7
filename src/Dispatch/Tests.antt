-- ===== src/Dispatch/Tests.antt =====
-- A server of redis-stable/src/redis.c with a password, a memory limit and one replica, and requests
-- of a client in a transaction.
use better_efisis.Prelude.{true, false, some, ◌≡◌, refl, ap}
use better_efisis.Prelude.Int.{pos, negsuc}
use better_efisis.Dispatch.{
  exec, other, Command, Server, Request, no_auth, no_replicas, read_only_slave, refused, queued,
  called, process_command, check_request, check_replication, refuse_if,
}
use better_efisis.Dispatch.Policy.{
  is_accepted, Allowed, Flags, process_command-Allowed, process_command-Flags,
}

abbrev server : Server
server = record {
  requirepass = true;
  maxmemory = true;
  memory_freed = true;
  stop_writes_on_bgsave_err = true;
  saveparamslen = 3;
  bgsave_failed = false;
  aof_write_failed = false;
  is_slave = false;
  min_slaves_to_write = 1;
  min_slaves_max_lag = 10;
  good_slaves_count = 1;
  slave_ro = true;
  master_connected = false;
  serve_stale_data = true;
  loading = false;
  lua_timedout = false;
}

-- SET, with at least three words.
abbrev set : Command
set = record {
  proc = other;
  arity = negsuc 2;
  write = true;
  denyoom = true;
  stale = false;
  loading = false;
}

abbrev request : Request
request = record {
  authenticated = true;
  is_master = false;
  in_multi = true;
  channels = 0;
  patterns = 0;
  is_quit = false;
  cmd = some set;
  argc = 3;
  letter = b'k';
}

is_queued : process_command server request ≡ queued
unfolding process_command check_request check_replication refuse_if
is_queued = refl

runs_exec :
    process_command server
      (record request { cmd = some (record set { proc = exec; arity = pos 3 }) })
    ≡ called
unfolding process_command check_request check_replication refuse_if
runs_exec = refl

lacks_password :
    process_command server (record request { authenticated = false }) ≡ refused no_auth true
unfolding process_command check_request check_replication refuse_if
lacks_password = refl

lacks_replicas :
    process_command (record server { good_slaves_count = 0 }) request ≡ refused no_replicas true
unfolding process_command check_request check_replication refuse_if
lacks_replicas = refl

is_read_only :
    process_command (record server { is_slave = true }) request ≡ refused read_only_slave false
unfolding process_command check_request check_replication refuse_if
is_read_only = refl

process_command-Allowed_example : Allowed server request set
process_command-Allowed_example =
    process_command-Allowed server request set refl (ap is_accepted is_queued)

process_command-Flags_example : Flags (process_command (record server { is_slave = true }) request)
process_command-Flags_example = process_command-Flags (record server { is_slave = true }) request
