-- ===== src/Rio/Chunks.antt =====
-- The chunk loops of redis-stable/src/rio.h: over the memory buffer they transfer the block as one
-- piece, whatever the chunk size.
use better_efisis.Prelude.{
  take-append, drop-append, ℕ, zero, suc, ◌+◌, ◌-◌, ◌≤◌, ◌<◌, ◌≡◌, refl, sym, ap, ◌∙◌, Option, none,
  some, List, [], ◌∷◌, ◌++◌, append-nil, append_assoc, arith, length, take, drop, length-append,
  length-take, length-drop, take-append-drop, take-add, drop-add, le→not_ltb, Bool-cases, inl, inr,
  ltb,
}
use mathlib.Core.Path.{ap₂}
use better_efisis.Rio.{
  Rio, Buffer, chunk_size, checksum, write_loop, write, read_loop, read, buffer_write, buffer_read,
  buffer_backend,
}

-- What the checksum function must satisfy: no block, no change, and chunks add up.
abbrev pub IsChunkwise : Option (ℕ → List ℕ → ℕ) → Type 0
IsChunkwise update =
    ((c : ℕ) → checksum update c [] ≡ c)
    × ((c : ℕ) (s t : List ℕ)
        → checksum update c (s ++ t) ≡ checksum update (checksum update c s) t)

chunk_size_bounds :
    (chunk len : ℕ) → 0 < len → (0 < chunk_size chunk len) × (chunk_size chunk len ≤ len)
unfolding chunk_size
chunk_size_bounds chunk len h = ground arith

-- The stream after the block was written in one piece.
abbrev pub written : Rio Buffer → List ℕ → Rio Buffer
written r buf = record r {
  io = record { ptr = r.io.ptr ++ buf; pos = r.io.pos + length buf };
  cksum = checksum r.update_cksum r.cksum buf;
  processed_bytes = r.processed_bytes + length buf;
}

written_nil : (r : Rio Buffer) → IsChunkwise r.update_cksum → written r [] ≡ r
written_nil r law = ground (arith, append-nil r.io.ptr, law.0 r.cksum)

pub written-append :
    (r : Rio Buffer) (s t : List ℕ)
    → IsChunkwise r.update_cksum
    → written (written r s) t ≡ written r (s ++ t)
written-append r s t law =
    ground (arith, append_assoc r.io.ptr s t, law.1 r.cksum s t, length-append s t)

write_loop-written :
    (fuel : ℕ) (r : Rio Buffer) (buf : List ℕ)
    → length buf ≤ fuel
    → IsChunkwise r.update_cksum
    → write_loop buffer_backend fuel r buf ≡ some (written r buf)
unfolding write_loop buffer_write
write_loop-written fuel r [] h law = ap some (sym (written_nil r law))
write_loop-written zero r (x ∷ xs) h law = absurd (omega arith)
write_loop-written (suc fuel) r (x ∷ xs) h law =
    let buf = x ∷ xs in
    let n = chunk_size r.max_processing_chunk (length buf) in
    let bounds = chunk_size_bounds r.max_processing_chunk (length buf) (omega arith) in
    let size : length (take n buf) ≡ n = omega (arith, length-take n buf, bounds) in
    ap
      (λ k.
        write_loop buffer_backend fuel
          (record (written r (take n buf)) { processed_bytes = r.processed_bytes + k })
          (drop n buf))
      (sym size)
    ∙ write_loop-written fuel (written r (take n buf)) (drop n buf)
        (omega (arith, length-drop n buf, bounds)) law
    ∙ ap some (written-append r (take n buf) (drop n buf) law)
    ∙ ap (λ b. some (written r b)) (take-append-drop n buf)

-- `rioWrite` to a memory buffer never fails. Whatever the chunk size, it appends the block, moves
-- the position and the count of bytes by its length, and checksums it as one piece.
pub write-written :
    (r : Rio Buffer) (buf : List ℕ)
    → IsChunkwise r.update_cksum
    → write buffer_backend r buf ≡ some (written r buf)
unfolding write
write-written r buf law = write_loop-written (length buf) r buf (omega arith) law

-- The block of `len` bytes at the position, and the stream after it was read in one piece.
abbrev pub block : Rio Buffer → ℕ → List ℕ
block r len = take len (drop r.io.pos r.io.ptr)

abbrev pub advanced : Rio Buffer → ℕ → Rio Buffer
advanced r len = record r {
  io = record { ptr = r.io.ptr; pos = r.io.pos + len };
  cksum = checksum r.update_cksum r.cksum (block r len);
  processed_bytes = r.processed_bytes + len;
}

advanced_zero : (r : Rio Buffer) → IsChunkwise r.update_cksum → advanced r 0 ≡ r
advanced_zero r law = ground (arith, law.0 r.cksum)

block-add : (r : Rio Buffer) (n m : ℕ) → block r n ++ block (advanced r n) m ≡ block r (n + m)
block-add r n m =
    ap (λ l. block r n ++ take m l) (sym (drop-add r.io.pos n r.io.ptr))
    ∙ sym (take-add n m (drop r.io.pos r.io.ptr))

pub advanced-advanced :
    (r : Rio Buffer) (n m : ℕ)
    → IsChunkwise r.update_cksum
    → advanced (advanced r n) m ≡ advanced r (n + m)
advanced-advanced r n m law =
    ground (arith, law.1 r.cksum (block r n) (block (advanced r n) m), block-add r n m)

nothing :
    (r : Rio Buffer) (got : List ℕ)
    → IsChunkwise r.update_cksum
    → ◌≡◌ {A = Option (List ℕ × Rio Buffer)} (some (got, r)) (some (got ++ block r 0, advanced r 0))
nothing r got law = ap some (ap₂ (λ l q. (l, q)) (sym (append-nil got)) (sym (advanced_zero r law)))

read_loop-advanced :
    (fuel : ℕ) (r : Rio Buffer) (len : ℕ) (got : List ℕ)
    → len ≤ fuel
    → r.io.pos + len ≤ length r.io.ptr
    → IsChunkwise r.update_cksum
    → read_loop buffer_backend fuel r len got ≡ some (got ++ block r len, advanced r len)
unfolding read_loop buffer_read
read_loop-advanced zero r zero got h room law = nothing r got law
read_loop-advanced (suc fuel) r zero got h room law = nothing r got law
read_loop-advanced zero r (suc len) got h room law = absurd (omega arith)
read_loop-advanced (suc fuel) r (suc len) got h room law =
    let n = chunk_size r.max_processing_chunk (suc len) in
    let bounds = chunk_size_bounds r.max_processing_chunk (suc len) (omega arith) in
    let whole : n + (suc len - n) ≡ suc len = omega (arith, bounds) in
    rw (le→not_ltb (length r.io.ptr - r.io.pos) n (omega (arith, bounds)), read_loop)
      (read_loop-advanced fuel (advanced r n) (suc len - n) (got ++ block r n)
          (omega (arith, bounds)) (omega (arith, bounds)) law
        ∙ ap some (
            ap₂ (λ l q. (l, q))
              (append_assoc got (block r n) (block (advanced r n) (suc len - n))
                ∙ ap (λ l. got ++ l) (block-add r n (suc len - n))
                ∙ ap (λ k. got ++ block r k) whole)
              (advanced-advanced r n (suc len - n) law ∙ ap (advanced r) whole)))

-- `rioRead` of at most what is left in a memory buffer succeeds. Whatever the chunk size, it gives
-- the block at the position, moves the position and the count of bytes by its length, and checksums
-- it as one piece.
pub read-advanced :
    (r : Rio Buffer) (len : ℕ)
    → r.io.pos + len ≤ length r.io.ptr
    → IsChunkwise r.update_cksum
    → read buffer_backend r len ≡ some (block r len, advanced r len)
unfolding read
read-advanced r len room law = read_loop-advanced len r len [] (omega arith) room law

read_loop-none :
    (fuel : ℕ) (r : Rio Buffer) (len : ℕ) (got : List ℕ)
    → length r.io.ptr < r.io.pos + len
    → r.io.pos ≤ length r.io.ptr
    → read_loop buffer_backend fuel r len got ≡ none
unfolding read_loop buffer_read
read_loop-none zero r zero got short h = absurd (omega arith)
read_loop-none (suc fuel) r zero got short h = absurd (omega arith)
read_loop-none zero r (suc len) got short h = refl
read_loop-none (suc fuel) r (suc len) got short h =
    let n = chunk_size r.max_processing_chunk (suc len) in
    let bounds = chunk_size_bounds r.max_processing_chunk (suc len) (omega arith) in
    elim (Bool-cases (ltb (length r.io.ptr - r.io.pos) n)) [
      | inl over ↦ rw (over, read_loop)
      | inr room ↦
          rw (room, read_loop)
            (read_loop-none fuel (advanced r n) (suc len - n) (got ++ block r n)
              (omega (arith, bounds)) (ground arith))
    ]

-- `rioRead` of more than what is left in a memory buffer fails.
pub read-none :
    (r : Rio Buffer) (len : ℕ)
    → length r.io.ptr < r.io.pos + len
    → r.io.pos ≤ length r.io.ptr
    → read buffer_backend r len ≡ none
unfolding read
read-none r len short h = read_loop-none len r len [] short h

-- What is left to read.
pub record Ahead (r : Rio Buffer) (bytes : List ℕ) : Type 0 where
  pub within : r.io.pos ≤ length r.io.ptr
  pub left : drop r.io.pos r.io.ptr ≡ bytes

pub length-Ahead :
    (r : Rio Buffer) (bytes : List ℕ) → Ahead r bytes → r.io.pos + length bytes ≡ length r.io.ptr
length-Ahead r bytes a = omega (arith, a.within, ap length a.left, length-drop r.io.pos r.io.ptr)

-- Reading as many bytes as a prefix has gives that prefix, and leaves the rest.
pub read-Ahead :
    (r : Rio Buffer) (xs ys : List ℕ)
    → Ahead r (xs ++ ys)
    → IsChunkwise r.update_cksum
    → (read buffer_backend r (length xs) ≡ some (xs, advanced r (length xs)))
      × Ahead (advanced r (length xs)) ys
read-Ahead r xs ys a law =
    let total : r.io.pos + (length xs + length ys) ≡ length r.io.ptr =
      omega (arith, length-Ahead r (xs ++ ys) a, length-append xs ys) in
    (
      read-advanced r (length xs) (omega (arith, total)) law
          ∙ ap (λ b. some (b, advanced r (length xs)))
              (ap (take (length xs)) a.left ∙ take-append xs ys),
      record {
        within = omega (arith, total);
        left =
            sym (drop-add r.io.pos (length xs) r.io.ptr)
            ∙ ap (drop (length xs)) a.left
            ∙ drop-append xs ys;
      },
    )
