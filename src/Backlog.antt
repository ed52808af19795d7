-- ===== src/Backlog.antt =====
-- The replication backlog of redis-stable/src/replication.c: a circular buffer of the last bytes
-- that were sent to the slaves, from which a slave that comes back is served.
pub mod Window
pub mod Feed
pub mod Reply
mod Tests
use better_efisis.Prelude.{
  ℕ, zero, suc, ◌+◌, ◌-◌, ◌%◌, Bool, true, false, not, ◌&&◌, ◌||◌, Option, none, some, List, [],
  ◌∷◌, ltb, leb, ◌==◌, if◌then◌else◌, length, drop, get_or, ◌*◌,
}

-- The backlog's fields of `server`. `exists` is `repl_backlog != NULL`, `cell` its bytes by index,
-- and `slaves` the length of the list of slaves.
pub record Server : Type 0 where
  pub exists : Bool
  pub cell : ℕ → ℕ
  pub size : ℕ
  pub histlen : ℕ
  pub idx : ℕ
  pub off : ℕ
  pub master_offset : ℕ
  pub slaves : ℕ

-- REDIS_REPL_BACKLOG_MIN_SIZE
abbrev pub min_size : ℕ
min_size = 1024 * 16

-- `createReplicationBacklog`, none if its assertion fails. `fresh` is what `zmalloc` returns.
unfoldable pub create : Server → (ℕ → ℕ) → Option Server
create s fresh =
    if s.exists
    then none
    else some (record s {
      exists = true;
      cell = fresh;
      histlen = 0;
      idx = 0;
      master_offset = s.master_offset + 1;
      off = s.master_offset + 1 + 1;
    })

-- `resizeReplicationBacklog`
unfoldable pub resize : Server → ℕ → (ℕ → ℕ) → Server
resize s requested fresh =
    let newsize = if ltb requested min_size then min_size else requested in
    if s.size == newsize
    then s
    else if s.exists
    then record s { size = newsize; cell = fresh; histlen = 0; idx = 0; off = s.master_offset + 1 }
    else record s { size = newsize }

-- `freeReplicationBacklog`, none if its assertion fails.
unfoldable pub free : Server → Option Server
free s = if s.slaves == 0 then some (record s { exists = false }) else none

-- `memcpy(buf+at,src,n)`
unfoldable pub copy : (ℕ → ℕ) → ℕ → List ℕ → ℕ → ℕ → ℕ
copy buf at src n i = if leb at i && ltb i (at + n) then get_or src (i - at) 0 else buf i

-- The loop of `feedReplicationBacklog`. Each round writes at least one byte, so that the length is
-- fuel enough.
unfoldable pub feed_loop : ℕ → Server → List ℕ → Server
feed_loop zero s p = s
feed_loop (suc fuel) s [] = s
feed_loop (suc fuel) s (x ∷ xs) =
    let len = length (x ∷ xs) in
    let room = s.size - s.idx in
    let thislen = if ltb len room then len else room in
    let next = s.idx + thislen in
    feed_loop fuel
      (record s {
        cell = copy s.cell s.idx (x ∷ xs) thislen;
        idx = if next == s.size then 0 else next;
        histlen = s.histlen + thislen;
      })
      (drop thislen (x ∷ xs))

-- `feedReplicationBacklog`
unfoldable pub feed : Server → List ℕ → Server
feed s p =
    let t = feed_loop (length p) (record s { master_offset = s.master_offset + length p }) p in
    let histlen = if ltb t.size t.histlen then t.size else t.histlen in
    record t { histlen = histlen; off = t.master_offset - histlen + 1 }

-- The `n` bytes from index `j` on.
unfoldable pub slice : (ℕ → ℕ) → ℕ → ℕ → List ℕ
slice buf j zero = []
slice buf j (suc n) = buf j ∷ slice buf (j + 1) n

-- The loop of `addReplyReplicationBacklog`: the pieces of the reply.
unfoldable pub reply_loop : ℕ → Server → ℕ → ℕ → List (List ℕ)
reply_loop zero s j len = []
reply_loop (suc fuel) s j zero = []
reply_loop (suc fuel) s j (suc len) =
    let thislen = if ltb (s.size - j) (suc len) then s.size - j else suc len in
    slice s.cell j thislen ∷ reply_loop fuel s 0 (suc len - thislen)

-- `addReplyReplicationBacklog`: the pieces and the returned length. The caller has made sure that
-- `off` is at most `offset` and that no more than `histlen` bytes are skipped.
unfoldable pub add_reply : Server → ℕ → List (List ℕ) × ℕ
add_reply s offset =
    let skip = offset - s.off in
    let first = (s.idx + (s.size - s.histlen)) % s.size in
    let j = (first + skip) % s.size in
    let len = s.histlen - skip in if s.histlen == 0 then ([], 0) else (reply_loop len s j len, len)

-- `masterTryPartialResynchronization` where the run id is the server's: none for a full resync. A
-- negative offset is refused like any other below `off`.
unfoldable pub partial_resync : Server → ℕ → Option (List (List ℕ) × ℕ)
partial_resync s offset =
    if not s.exists || ltb offset s.off || ltb (s.off + s.histlen) offset
    then none
    else some (add_reply s offset)
