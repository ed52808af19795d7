-- ===== src/Keyspace/Tests.antt =====
-- Keys 1 and 2 of redis-stable/src/db.c on a master, at time 1000.
use mathlib.Core.Logic.{ite}
use native.Mathlib.Decide.{ℕ_discrete}
use better_efisis.Prelude.{ℕ, ◌≡◌, refl, arith, false, Option, some, none, [], if◌then◌else◌}
use better_efisis.Prelude.Int.{pos}
use better_efisis.Keyspace.{Db, Object, cone, set_key, lookup_key_write, expire_at, persist_command}
use better_efisis.Keyspace.Closed.{IsClosed, live, lifetime}
use better_efisis.Keyspace.Lookup.{Looked, lookup_key_write-Looked}
use better_efisis.Keyspace.Commands.{Set, set_key-Set, persist-revives}
use better_efisis.Keyspace.Lifetime.{deletes, expire_at-Set}

-- Key 1 has the value 7, and key 2 the value 8, until time 900.
abbrev two_keys : Db ℕ ℕ
two_keys = record {
  dict = λ k.
      ite (ℕ_discrete k 1) (some (record { value = 7; lru = 3 }))
        (ite (ℕ_discrete k 2) (some (record { value = 8; lru = 4 })) none);
  expires = λ k. ite (ℕ_discrete k 2) (some (pos 900)) none;
  loading = false;
  is_slave = false;
  saving = false;
  lua_caller = false;
  lua_time_start = pos 0;
  time = pos 1000;
  lruclock = 5;
  hits = 0;
  misses = 0;
  expired_keys = 0;
  dirty = 0;
  effects = [];
}

two_keys-IsClosed : IsClosed two_keys
two_keys-IsClosed k h = ground arith

-- Key 2 has expired.
key_two_expired : live two_keys 2 ≡ none
unfolding ℕ_discrete
key_two_expired = refl

key_one_there : live two_keys 1 ≡ some 7
unfolding ℕ_discrete
key_one_there = refl

lookup_key_write-Looked_example :
    (o : Option (Object ℕ)) × (t : Db ℕ ℕ) × (lookup_key_write ℕ_discrete 2 two_keys ≡ some (o, t))
    × Looked ℕ_discrete two_keys 2 o t
lookup_key_write-Looked_example = lookup_key_write-Looked ℕ_discrete 2 two_keys two_keys-IsClosed

set_key-Set_example :
    (t : Db ℕ ℕ) × (set_key ℕ_discrete 2 (record { value = 9; lru = 5 }) two_keys ≡ some (tt, t))
    × Set ℕ_discrete two_keys t 2 (some 9) none
set_key-Set_example =
    set_key-Set ℕ_discrete 2 (record { value = 9; lru = 5 }) two_keys two_keys-IsClosed

expire_at-Set_example :
    (u : Db ℕ ℕ) × (expire_at ℕ_discrete 1 (pos 1500) two_keys ≡ some (cone, u))
    × Set ℕ_discrete two_keys u 1
        (if deletes two_keys (pos 1500) then none else some 7)
        (if deletes two_keys (pos 1500) then none else some (pos 1500))
expire_at-Set_example =
    expire_at-Set ℕ_discrete 1 (pos 1500) two_keys 7 two_keys-IsClosed key_one_there refl

-- At time 100, key 2 has 800 ms left.
abbrev early : Db ℕ ℕ
early = record two_keys { time = pos 100 }

persist-revives_example :
    (t : Db ℕ ℕ) × (persist_command ℕ_discrete 2 two_keys ≡ some (cone, t))
    × (live two_keys 2 ≡ none)
    × (live t 2 ≡ some 8)
    × (lifetime t 2 ≡ none)
unfolding ℕ_discrete
persist-revives_example =
    persist-revives ℕ_discrete 2 two_keys (record { value = 8; lru = 4 }) refl refl
