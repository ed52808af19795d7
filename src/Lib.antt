-- ===== src/Lib.antt =====
-- Redis 2.8.9, as the repository carries it under redis-stable/src: compact data and storage.
--
-- Parts and files. Each part's module has the state and the operations, its child modules the
-- proofs, and its Tests concrete runs.
--   Prelude   Boolean tests, native lists, signed integers as words (Int), laws of | and & (Bits).
--   Blob      an allocated block as C reads it through casted pointers: `realloc`, `memmove` and
--             little-endian loads and stores of n bytes.
--   Intset    redis-stable/src/intset.c: a sorted array of integers in slots of 2, 4 or 8 bytes that
--             are widened when a value does not fit. `add` is intsetAdd, `upgrade_and_add`
--             intsetUpgradeAndAdd, `search` intsetSearch, `move_tail` intsetMoveTail, and so on. The
--             contents are a Blob; Slots, Width, Search, Upgrade, Prepend and Insert follow the
--             functions, Shape has the invariant, Ops the operations as set operations.
--   Crc64     redis-stable/src/crc64.c: the table and the loop.
--   Rio       redis-stable/src/rio.h and rio.c: streams over a backend, which is a parameter; the
--             memory buffer is the backend that is modelled. `write` is rioWrite, `read` rioRead.
--   Rdb       redis-stable/src/rdb.c: lengths (`save_len`, `load_len`) and integers
--             (`encode_integer`, `load_integer`) in a stream of Rio.
--   Backlog   redis-stable/src/replication.c: the circular backlog. `feed` is
--             feedReplicationBacklog, `add_reply` addReplyReplicationBacklog, `partial_resync` the
--             part of masterTryPartialResynchronization behind the test of the run id. Window says
--             what the buffer holds, Feed and Reply are about the two operations.
--   Slowlog   redis-stable/src/slowlog.c: the log of slow commands. `create_entry` is
--             slowlogCreateEntry, `push_if_needed` slowlogPushEntryIfNeeded.
--   Notify    redis-stable/src/notify.c: `string_to_flags` is keyspaceEventsStringToFlags,
--             `flags_to_string` keyspaceEventsFlagsToString.
--   Dict      redis-stable/src/dict.c: hash tables with chains, rehashed step by step. The record
--             DictType is the callbacks that hash and compare keys, a parameter. `add`, `find`,
--             `delete`, `replace` and `rehash` are dictAdd, dictFind, dictDelete, dictReplace and
--             dictRehash, `lookup` the search of dictFind. Hits counts a key's entries, Table and
--             Moving are about a single table and the two, Rewrite about changing a chain, Grow,
--             Rehash, Ops, Change and Replace about the operations.
--   Multi     redis-stable/src/multi.c: transactions and WATCH. `process` is the branch of
--             processCommand (redis.c) that queues, `exec_command` execCommand, `touch`
--             touchWatchedKey. A key K comes with its database; a command A of another file is a
--             parameter, of which the keys that it signals are known. Watching is about the lists,
--             Clients about the clients, Requests about all commands, Optimistic about EXEC.
--   Keyspace  redis-stable/src/db.c: the keys of a database and their times of expiry. `lookup_key`,
--             `expire_if_needed`, `set_key` and so on are lookupKey, expireIfNeeded and setKey; `none`
--             is an assertion that fails. Closed has what a client may see of a key (`live`,
--             `lifetime`), Lookup the lookups, Commands and Lifetime the operations.
--   Protocol  redis-stable/src/networking.c and aof.c: `process_multibulk` is processMultibulkBuffer,
--             `cat_command` catAppendOnlyGenericCommand. Lines is about a line with a number, Requests
--             about whole commands, Bounds about any input.
--   Dispatch  redis-stable/src/redis.c: `process_command` is processCommand as far as its tests go, to
--             the choice between call, queueMultiCommand and an error; `check_request` and
--             `check_replication` are its parts. What a call then does, the replies and the memory
--             that freeMemoryIfNeeded frees are left out: whether it succeeds is a field.
--   Pubsub    redis-stable/src/pubsub.c: the tables of the clients and of the server, `publish` is
--             pubsubPublishMessage. stringmatchlen is a parameter. Subscribed and Patterns are about
--             channels and patterns, Leaving about giving all channels up, Publish about what is sent.
--   Util      redis-stable/src/util.c: numbers as text, `ll2string` and `string2ll`. Digits is about
--             their loops, Numbers about the functions.
--   Sentinel  redis-stable/src/sentinel.c: a sentinel with one master. `vote_leader` is
--             sentinelVoteLeader, `get_leader` sentinelGetLeader. Select has the choice of a slave,
--             Failover the states of a failover and `handle_master`, which is
--             sentinelHandleRedisInstance. Steps has what can happen, Votes and Safe are about any
--             sequence of it, Election about who is elected, Machine about each state,
--             Starts about what starts a failover, Choice about the slave that is chosen and about a
--             timeout, Limits about how many slaves are sent on. The order of a dict, qsort and
--             strcasecmp are parameters; links, events and scripts are left out.
--   Ziplist   redis-stable/src/ziplist.c: the bytes of one entry. `write_entry` is what
--             __ziplistInsert writes, `zip_entry` and `ziplist_get` read it. Codes is about its
--             parts, Entries about the whole.
-- Protocol and Ziplist use the numbers of Util. Keyspace takes a dict for the map that Dict shows it to be. Pubsub uses the lists of Multi.
-- Rdb uses Rio, whose checksum is Crc64's when a file is saved; Intset stands on Blob.
--
-- State and numbers. A struct is a record and a function that changes it returns the new one; a
-- pointer argument that is written is a further result; NULL, 0 or -1 for a failure is `none`. Words
-- keep their wrap-around (`% 2 ^ 32` for uint32_t). The machine is little-endian, so that the macros
-- of endianconv.h do nothing; `htonl` is the list of a word's bytes. Memory that malloc returns is
-- given as a function of the index, and an allocation does not fail. The replication offsets are
-- 64-bit integers that are not taken to overflow.
--
-- Fuel. The loops of rioWrite, rioRead, feedReplicationBacklog and addReplyReplicationBacklog move
-- at least one byte a round, so their fuel is the number of bytes; the binary search of intsetSearch
-- narrows its range each round, so its fuel is the number of slots; the slow log's removal of old
-- entries removes one a round, so its fuel is their number. The search of dictRehash for a bucket
-- that is not empty looks at most at all buckets; _dictNextPower doubles at most 63 times;
-- ll2string has at most the 32 characters of its buffer. The loop of processMultibulkBuffer
-- has a round for each argument that is left, and needs no fuel. The theorems give the result of
-- the call, so they also show that the fuel suffices.
--
-- Not modelled: strings, the other value types, the table of commands, inline requests, replies
-- and sockets, the event loop, what a sentinel sends and parses, scripting and configuration; the iterators and dictScan of
-- dict.c, the moves of entries in ziplist.c, random keys, SCAN, flushing and MOVE of db.c, what multi.c sends to slaves, unsubscribing
-- from all patterns, the patterns of util.c, the file backend of rio.c, objects and the file loop of
-- rdb.c, and the slave's side of replication.c. The vendored libraries under redis-stable/deps and
-- the Ruby application are no part of it.
pub mod Prelude
pub mod Blob
pub mod Crc64
pub mod Rio
pub mod Rdb
pub mod Intset
pub mod Backlog
pub mod Slowlog
pub mod Notify
pub mod Dict
pub mod Multi
pub mod Util
pub mod Pubsub
pub mod Keyspace
pub mod Protocol
pub mod Dispatch
pub mod Sentinel
pub mod Ziplist
