-- ===== src/Rio.antt =====
-- redis-stable/src/rio.h and rio.c: streams over a backend, written and read in chunks, with an
-- optional checksum of all that went through. The backend's `read` and `write` are given; those of
-- the memory buffer are `buffer_read` and `buffer_write`.
pub mod Chunks
mod Tests
use better_efisis.Prelude.{
  ℕ, zero, suc, ◌+◌, ◌-◌, Bool, not, ◌&&◌, Option, none, some, List, [], ◌∷◌, ◌++◌, ltb, ◌==◌,
  if◌then◌else◌, length, take, drop,
}

-- `none` is a return value of 0.
pub record Backend (S : Type 0) : Type 0 where
  pub write : S → List ℕ → Option S
  pub read : S → ℕ → Option (List ℕ × S)

-- `update_cksum` takes the old checksum and the block.
pub record Rio (S : Type 0) : Type 0 where
  pub io : S
  pub update_cksum : Option (ℕ → List ℕ → ℕ)
  pub cksum : ℕ
  pub processed_bytes : ℕ
  pub max_processing_chunk : ℕ

-- `bytes_to_write` and `bytes_to_read`.
unfoldable pub chunk_size : ℕ → ℕ → ℕ
chunk_size chunk len = if not (chunk == 0) && ltb chunk len then chunk else len

unfoldable pub checksum : Option (ℕ → List ℕ → ℕ) → ℕ → List ℕ → ℕ
checksum none cksum buf = cksum
checksum (some update) cksum buf = update cksum buf

module _ {S : Type 0} (backend : Backend S) where
  -- The loop of `rioWrite`. Each round writes at least one byte, so the length is fuel enough.
  unfoldable pub write_loop : ℕ → Rio S → List ℕ → Option (Rio S)
  write_loop fuel r [] = some r
  write_loop zero r (x ∷ xs) = none
  write_loop (suc fuel) r (x ∷ xs) =
      let n = chunk_size r.max_processing_chunk (length (x ∷ xs)) in
      let now = take n (x ∷ xs) in
      let sum = checksum r.update_cksum r.cksum now in
      elim (backend.write r.io now) [
        | none ↦ none
        | some io' ↦
            write_loop fuel
              (record r { io = io'; cksum = sum; processed_bytes = r.processed_bytes + n })
              (drop n (x ∷ xs))
      ]

  -- `rioWrite`
  unfoldable pub write : Rio S → List ℕ → Option (Rio S)
  write r buf = write_loop (length buf) r buf

  -- The loop of `rioRead`; `got` is what stands in the caller's buffer so far.
  unfoldable pub read_loop : ℕ → Rio S → ℕ → List ℕ → Option (List ℕ × Rio S)
  read_loop fuel r zero got = some (got, r)
  read_loop zero r (suc len) got = none
  read_loop (suc fuel) r (suc len) got =
      let n = chunk_size r.max_processing_chunk (suc len) in
      elim (backend.read r.io n) [
        | none ↦ none
        | some (now, io') ↦
            read_loop fuel
              (record r {
                io = io';
                cksum = checksum r.update_cksum r.cksum now;
                processed_bytes = r.processed_bytes + n;
              })
              (suc len - n) (got ++ now)
      ]

  -- `rioRead`
  unfoldable pub read : Rio S → ℕ → Option (List ℕ × Rio S)
  read r len = read_loop len r len []

-- The memory buffer: its contents and the position.
pub record Buffer : Type 0 where
  pub ptr : List ℕ
  pub pos : ℕ

-- `rioBufferWrite`, which cannot fail.
unfoldable pub buffer_write : Buffer → List ℕ → Option Buffer
buffer_write b buf = some (record { ptr = b.ptr ++ buf; pos = b.pos + length buf })

-- `rioBufferRead`. The position never passes the end, so the difference is the true one.
unfoldable pub buffer_read : Buffer → ℕ → Option (List ℕ × Buffer)
buffer_read b len =
    if ltb (length b.ptr - b.pos) len
    then none
    else some (take len (drop b.pos b.ptr), record b { pos = b.pos + len })

-- `rioBufferIO`
abbrev pub buffer_backend : Backend Buffer
buffer_backend = record { write = buffer_write; read = buffer_read }

-- `rioInitWithBuffer`
unfoldable pub init_with_buffer : List ℕ → Rio Buffer
init_with_buffer s = record {
  io = record { ptr = s; pos = 0 };
  update_cksum = none;
  cksum = 0;
  processed_bytes = 0;
  max_processing_chunk = 0;
}
