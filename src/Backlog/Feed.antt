-- ===== src/Backlog/Feed.antt =====
-- `feedReplicationBacklog` of redis-stable/src/replication.c appends to the stream; creating and
-- resizing the backlog begins a new one.
use native.Mathlib.Nat.{mod-lt, zero-mod}
use mathlib.Core.Path.{subst}
use Prim.Native.Nat.{max}
use mathlib.Core.Option.{some_inj}
use better_efisis.Prelude.{
  Bool-cases, ℕ, zero, suc, ◌+◌, ◌-◌, ◌%◌, ◌≤◌, ◌<◌, ◌≡◌, ◌≢◌, refl, sym, ap, ◌∙◌, true, false,
  some, List, [], ◌∷◌, ◌++◌, length, drop, take, get_or, min, arith, lt_cases, eq_cases, inl, inr,
  ltb, ◌==◌, if◌then◌else◌, length-append, length-take, length-drop, take-append-drop, append_assoc,
  append-nil,
}
use better_efisis.Backlog.{Server, copy, feed_loop, feed, create, resize, min_size}
use better_efisis.Backlog.Window.{
  Recent, Holds, mod-add_lt, mod-add_turn, mod-add_ne, get_or-append_left, get_or-append_right,
  get_or-take,
}

-- One round of the loop.
abbrev stepped : Server → List ℕ → ℕ → Server
stepped s p t = record s {
  cell = copy s.cell s.idx p t;
  idx = if s.idx + t == s.size then 0 else s.idx + t;
  histlen = s.histlen + t;
}

copy-inside :
    (buf : ℕ → ℕ) (at : ℕ) (src : List ℕ) (n i : ℕ)
    → i < n
    → copy buf at src n (at + i) ≡ get_or src i 0
unfolding copy
copy-inside buf at src n i h =
    let e : at + i - at ≡ i = omega arith in ground (arith, ap (λ k. get_or src k 0) e)

copy-outside :
    (buf : ℕ → ℕ) (at : ℕ) (src : List ℕ) (n i : ℕ)
    → ((m : ℕ) → m < n → i ≢ at + m)
    → copy buf at src n i ≡ buf i
unfolding copy
copy-outside buf at src n i away = elim (lt_cases i at) [
  | inl before ↦ ground arith
  | inr from ↦ elim (lt_cases i (at + n)) [
    | inl inside ↦ absurd (away (i - at) (omega arith) (omega arith))
    | inr after ↦ ground arith
  ]
]

module _ (stream : List ℕ) (s : Server) (r : Recent stream s) (p : List ℕ) (t : ℕ)
    (some_of : t ≤ length p) (room : s.idx + t ≤ s.size) where
  length-stepped : length (stream ++ take t p) ≡ length stream + t
  length-stepped = omega (arith, length-append stream (take t p), length-take t p)

  stepped-index : (stepped s p t).idx ≡ (length stream + t) % s.size
  stepped-index = elim (eq_cases (s.idx + t) s.size) [
    | inl end ↦ ground (arith, mod-add_turn (length stream) s.size t, r.index)
    | inr more ↦ ground (arith, mod-add_lt (length stream) s.size t, r.index)
  ]

  -- A byte that the round writes.
  stepped-new :
      (i : ℕ)
      → i < t
      → (stepped s p t).cell ((length stream + i) % s.size)
        ≡ get_or (stream ++ take t p) (length stream + i) 0
  stepped-new i h =
      let at : (length stream + i) % s.size ≡ s.idx + i =
        mod-add_lt (length stream) s.size i (omega (arith, r.index))
        ∙ ap (λ k. k + i) (sym r.index) in
      ap (copy s.cell s.idx p t) at
      ∙ copy-inside s.cell s.idx p t i h
      ∙ sym (get_or-take t p i h)
      ∙ sym (get_or-append_right stream (take t p) i)

  -- A byte that the round must leave.
  stepped-old :
      (k : ℕ)
      → k < length stream
      → length stream + t ≤ k + s.size
      → (stepped s p t).cell (k % s.size) ≡ get_or (stream ++ take t p) k 0
  stepped-old k h near =
      copy-outside s.cell s.idx p t (k % s.size) (λ m lt e.
        let d = length stream + m - k in
        let whole : k + d ≡ length stream + m = omega arith in
        let at : (length stream + m) % s.size ≡ s.idx + m =
          mod-add_lt (length stream) s.size m (omega (arith, r.index))
          ∙ ap (λ x. x + m) (sym r.index) in
        mod-add_ne k s.size d (omega arith) (omega arith) (ap (λ x. x % s.size) whole ∙ at ∙ sym e))
      ∙ r.cells k h (omega arith)
      ∙ sym (get_or-append_left stream (take t p) k h)

  stepped-Recent : Recent (stream ++ take t p) (stepped s p t)
  stepped-Recent = record {
    positive = r.positive;
    index = stepped-index ∙ ap (λ n. n % s.size) (sym length-stepped);
    cells = λ k h near. elim (lt_cases k (length stream)) [
      | inl old ↦ stepped-old k old (omega (arith, length-stepped))
      | inr new ↦
          let e : length stream + (k - length stream) ≡ k = omega arith in
          ap (λ x. copy s.cell s.idx p t (x % s.size)) (sym e)
          ∙ stepped-new (k - length stream) (omega (arith, length-stepped))
          ∙ ap (λ x. get_or (stream ++ take t p) x 0) e
    ];
  }

-- What the loop does from `s` to `t` with the bytes `p`.
record Fed (stream p : List ℕ) (s t : Server) : Type 0 where
  recent : Recent (stream ++ p) t
  histlen : t.histlen ≡ s.histlen + length p
  exists : t.exists ≡ s.exists
  size : t.size ≡ s.size
  master_offset : t.master_offset ≡ s.master_offset

nothing-Fed : (stream : List ℕ) (s : Server) → Recent stream s → Fed stream [] s s
nothing-Fed stream s r = record {
  recent = subst (λ l. Recent l s) (sym (append-nil stream)) r;
  histlen = omega arith;
  exists = refl;
  size = refl;
  master_offset = refl;
}

feed_loop-Fed :
    (fuel : ℕ) (stream p : List ℕ) (s : Server)
    → length p ≤ fuel
    → Recent stream s
    → Fed stream p s (feed_loop fuel s p)
unfolding feed_loop
feed_loop-Fed zero stream [] s h r = nothing-Fed stream s r
feed_loop-Fed (suc fuel) stream [] s h r = nothing-Fed stream s r
feed_loop-Fed zero stream (x ∷ xs) s h r = absurd (omega arith)
feed_loop-Fed (suc fuel) stream (x ∷ xs) s h r =
    let p = x ∷ xs in
    let t = if ltb (length p) (s.size - s.idx) then length p else s.size - s.idx in
    let inside : s.idx < s.size =
      omega (arith, r.index, mod-lt (length stream) {m = s.size} r.positive) in
    let bounds : (0 < t) × (t ≤ length p) × (s.idx + t ≤ s.size) = ground arith in
    let first = stepped-Recent stream s r p t bounds.1 bounds.2 in
    let left = length-drop t p in
    let rest =
      feed_loop-Fed fuel (stream ++ take t p) (drop t p) (stepped s p t)
        (omega (arith, left, bounds)) first in
    let all : (stream ++ take t p) ++ drop t p ≡ stream ++ p =
      append_assoc stream (take t p) (drop t p) ∙ ap (λ l. stream ++ l) (take-append-drop t p) in
    record {
      recent = subst (λ l. Recent l (feed_loop fuel (stepped s p t) (drop t p))) all rest.recent;
      histlen = omega (arith, rest.histlen, left, bounds);
      exists = rest.exists;
      size = rest.size;
      master_offset = rest.master_offset;
    }

-- Feeding a backlog that holds a stream gives one that holds the stream with the bytes behind it:
-- the buffer has the last bytes, as many as fit, and `off` is the replication offset of the first of
-- them.
pub feed-Holds :
    (base : ℕ) (stream p : List ℕ) (s : Server)
    → Holds base stream s
    → Holds base (stream ++ p) (feed s p)
unfolding feed
feed-Holds base stream p s v =
    let s' = record s { master_offset = s.master_offset + length p } in
    let start : Recent stream s' = record {
      positive = v.recent.positive;
      index = v.recent.index;
      cells = v.recent.cells;
    } in
    let f = feed_loop-Fed (length p) stream p s' (omega arith) start in
    let t = feed_loop (length p) s' p in
    let len = length-append stream p in
    let hist : (if ltb t.size t.histlen then t.size else t.histlen)
        ≡ min (length (stream ++ p)) t.size =
      ground (arith, f.histlen, f.size, v.history, len) in
    record {
      there = f.exists ∙ v.there;
      begun = v.begun;
      recent = record {
        positive = f.recent.positive;
        index = f.recent.index;
        cells = f.recent.cells;
      };
      history = hist;
      offset = grind (arith, v.begun, hist, f.master_offset, v.master, len);
      master = omega (arith, f.master_offset, v.master, len);
    }

no_bytes : (s : Server) → 0 < s.size → s.idx ≡ 0 → Recent [] s
no_bytes s pos e = record {
  positive = pos;
  index = e ∙ sym (zero-mod s.size);
  cells = λ k h near. absurd (omega arith);
}

-- Where no backlog exists, creating one of a positive size skips a replication offset, and the new
-- backlog holds the empty stream.
pub create-Holds :
    (s t : Server) (fresh : ℕ → ℕ)
    → 0 < s.size
    → create s fresh ≡ some t
    → Holds (s.master_offset + 2) [] t
unfolding create
create-Holds s t fresh pos e = elim (Bool-cases s.exists) [
  | inl old ↦ absurd (ground (arith, rw (old, create) at e))
  | inr new ↦
      let made = some_inj.0 (rw (new, create) at e) in
      subst (λ t. Holds (s.master_offset + 2) [] t) made
        (record {
          there = refl;
          begun = omega arith;
          recent = no_bytes _ pos refl;
          history = omega arith;
          offset = omega arith;
          master = omega arith;
        })
]

-- Resizing an existing backlog to another size, raised to the smallest size where the request is
-- below it, drops what the backlog held: it holds the empty stream from the next offset on.
pub resize-Holds :
    (s : Server) (n : ℕ) (fresh : ℕ → ℕ)
    → s.exists ≡ true
    → s.size ≢ max n min_size
    → Holds (s.master_offset + 1) [] (resize s n fresh)
unfolding resize
resize-Holds s n fresh there other =
    let newsize = if ltb n min_size then min_size else n in
    let size : newsize ≡ max n min_size = ground arith in
    let differs : (s.size == newsize) ≡ false = ground (arith, size) in
    rw (differs, there, resize)
      (record {
        there = refl;
        begun = omega arith;
        recent = no_bytes _ (omega (arith, size)) refl;
        history = omega arith;
        offset = omega arith;
        master = omega arith;
      })
