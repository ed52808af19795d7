-- ===== src/Backlog/Reply.antt =====
-- `addReplyReplicationBacklog` of redis-stable/src/replication.c: a slave that asks for an offset
-- in the backlog gets all that was fed from there on.
use native.Mathlib.Nat.{mod-lt, mod-eq_of_lt, mod-add-mod, mod-eq-sub-mod, mod_self}
use better_efisis.Prelude.{
  Bool-cases, ◌⊎◌, ℕ, zero, suc, ◌+◌, ◌-◌, ◌%◌, ◌≤◌, ◌<◌, ◌≡◌, refl, sym, ap, ◌∙◌, false, some,
  none, List, [], ◌∷◌, ◌++◌, length, drop, take, min, arith, lt_cases, eq_cases, inl, inr, ltb,
  ◌==◌, if◌then◌else◌, not, ◌||◌, length-drop, take-append-drop, drop-add, drop_all,
}
use better_efisis.Backlog.{Server, slice, reply_loop, add_reply, partial_resync}
use better_efisis.Backlog.Window.{Recent, Holds, mod-add_lt, mod-add_turn, get_or-drop, slice-take}

abbrev pub concat : List (List ℕ) → List ℕ
concat [] = []
concat (l ∷ ls) = l ++ concat ls

nothing : (fuel : ℕ) (s : Server) (j : ℕ) → concat (reply_loop fuel s j 0) ≡ []
unfolding reply_loop
nothing zero s j = refl
nothing (suc fuel) s j = refl

module _ (stream : List ℕ) (s : Server) (r : Recent stream s) where
  -- A piece is what the stream has from its `m`-th byte on.
  piece :
      (m n : ℕ)
      → m + n ≤ length stream
      → length stream ≤ m + s.size
      → m % s.size + n ≤ s.size
      → slice s.cell (m % s.size) n ≡ take n (drop m stream)
  piece m n h near room =
      slice-take s.cell n (m % s.size) (drop m stream) (omega (arith, length-drop m stream))
        (λ i lt.
          ap s.cell (sym (mod-add_lt m s.size i (omega arith)))
          ∙ r.cells (m + i) (omega arith) (omega arith)
          ∙ sym (get_or-drop m stream i))

  pieces :
      (fuel m len : ℕ)
      → len ≤ fuel
      → m + len ≡ length stream
      → length stream ≤ m + s.size
      → concat (reply_loop fuel s (m % s.size) len) ≡ drop m stream
  unfolding reply_loop
  pieces zero m zero h e near = sym (drop_all m stream (omega arith))
  pieces (suc fuel) m zero h e near = sym (drop_all m stream (omega arith))
  pieces zero m (suc len) h e near = absurd (omega arith)
  pieces (suc fuel) m (suc len) h e near =
      let j = m % s.size in
      let inside : j < s.size = mod-lt m {m = s.size} r.positive in
      let n = if ltb (s.size - j) (suc len) then s.size - j else suc len in
      let bounds : (0 < n) × (n ≤ suc len) × (j + n ≤ s.size) = ground (arith, inside) in
      let now = piece m n (omega (arith, bounds)) near (omega (arith, bounds)) in
      let later : concat (reply_loop fuel s 0 (suc len - n)) ≡ drop (m + n) stream =
        elim (eq_cases (j + n) s.size) [
          | inl end ↦
              ap (λ i. concat (reply_loop fuel s i (suc len - n)))
                (sym (mod-add_turn m s.size n end))
              ∙ pieces fuel (m + n) (suc len - n) (omega (arith, bounds)) (omega (arith, bounds))
                  (omega arith)
          | inr more ↦
              let none_left : suc len - n ≡ 0 = ground (arith, inside) in
              ap (λ l. concat (reply_loop fuel s 0 l)) none_left
              ∙ nothing fuel s 0
              ∙ sym (drop_all (m + n) stream (omega (arith, none_left)))
        ] in
      ap (λ l. l ++ concat (reply_loop fuel s 0 (suc len - n))) now
      ∙ ap (λ l. take n (drop m stream) ++ l) (later ∙ sym (drop-add m n stream))
      ∙ take-append-drop n (drop m stream)

-- The index of the oldest byte.
first_index :
    (n size idx histlen : ℕ)
    → 0 < size
    → idx ≡ n % size
    → histlen ≡ min n size
    → (idx + (size - histlen)) % size ≡ (n - histlen) % size
first_index n size idx histlen pos at hist = elim (lt_cases n size) [
  | inl few ↦
      let full : idx + (size - histlen) ≡ size = omega (arith, at, mod-eq_of_lt few) in
      let old : n - histlen ≡ 0 = omega arith in
      ap (λ t. t % size) full
      ∙ mod_self size
      ∙ sym (mod-eq_of_lt pos)
      ∙ ap (λ t. t % size) (sym old)
  | inr many ↦
      let whole : idx + (size - histlen) ≡ n % size = omega (arith, at) in
      let old : n - histlen ≡ n - size = omega arith in
      ap (λ t. t % size) whole
      ∙ mod-eq_of_lt (mod-lt n {m = size} pos)
      ∙ mod-eq-sub-mod many
      ∙ ap (λ t. t % size) (sym old)
]

-- The reply of a backlog that is asked for an offset it has, or for the one behind its last byte.
add_reply-rest :
    (base : ℕ) (stream : List ℕ) (s : Server) (offset : ℕ)
    → Holds base stream s
    → s.off ≤ offset
    → offset ≤ base + length stream
    → (concat (add_reply s offset).0 ≡ drop (offset - base) stream)
      × ((add_reply s offset).1 ≡ length (drop (offset - base) stream))
unfolding add_reply
add_reply-rest base stream s offset v from to =
    let n = length stream in
    let m = offset - base in
    let left = length-drop m stream in
    let first = (s.idx + (s.size - s.histlen)) % s.size in
    let skip = offset - s.off in
    let len = s.histlen - skip in
    let oldest = first_index n s.size s.idx s.histlen v.recent.positive v.recent.index v.history in
    let sum : n - s.histlen + skip ≡ m = omega (arith, v.offset, v.history) in
    let j : (first + skip) % s.size ≡ m % s.size =
      ap (λ t. (t + skip) % s.size) oldest
      ∙ mod-add-mod (n - s.histlen) s.size skip
      ∙ ap (λ t. t % s.size) sum in
    let total : m + len ≡ n = omega (arith, v.offset, v.history) in
    elim (Bool-cases (s.histlen == 0)) [
      | inl none_yet ↦
          let empty : n ≡ 0 = ground (arith, v.history, v.recent.positive) in
          rw (none_yet, add_reply) (sym (drop_all m stream (omega arith)), omega (arith, left))
      | inr some_bytes ↦
          rw (some_bytes, add_reply)
            (
              ap (λ i. concat (reply_loop len s i len)) j
                  ∙ pieces stream s v.recent len m len (omega arith) total
                      (omega (arith, v.offset, v.history)),
              omega (arith, left),
            )
    ]

-- A backlog that holds the stream from replication offset `base` on accepts an offset from that of
-- its oldest byte to the one behind its newest. The pieces of the reply, one after the other, are
-- then all bytes of the stream from that offset on, and the returned length is theirs.
pub partial_resync-rest :
    (base : ℕ) (stream : List ℕ) (s : Server) (offset : ℕ)
    → Holds base stream s
    → s.off ≤ offset
    → offset ≤ base + length stream
    → (partial_resync s offset ≡ some (add_reply s offset))
      × (concat (add_reply s offset).0 ≡ drop (offset - base) stream)
      × ((add_reply s offset).1 ≡ length (drop (offset - base) stream))
unfolding partial_resync
partial_resync-rest base stream s offset v from to =
    let accepted : (not s.exists || ltb offset s.off || ltb (s.off + s.histlen) offset) ≡ false =
      ground (arith, v.there, v.offset) in
    let rest = add_reply-rest base stream s offset v from to in
    (rw (accepted, partial_resync), rest.0, rest.1)

-- It refuses an offset whose byte is no longer there, and one that was not reached yet.
pub partial_resync-none :
    (base : ℕ) (stream : List ℕ) (s : Server) (offset : ℕ)
    → Holds base stream s
    → (offset < s.off) ⊎ (base + length stream < offset)
    → partial_resync s offset ≡ none
unfolding partial_resync
partial_resync-none base stream s offset v (inl early) = ground (arith, v.there)
partial_resync-none base stream s offset v (inr late) = ground (arith, v.there, v.offset)
