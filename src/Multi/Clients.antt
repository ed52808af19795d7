-- ===== src/Multi/Clients.antt =====
-- The clients' lists of watched keys and the databases' lists of watching clients in
-- redis-stable/src/multi.c say the same, and touching a key reaches the clients that watch it.
use better_efisis.Prelude.{
  ℕ, ◌≤◌, ◌≡◌, refl, Bool, true, false, ◌||◌, ◌&&◌, some, List, [], ◌∷◌, arith, if◌then◌else◌, ◌==◌,
  ltb, Bool-cases, inl, inr,
}
use better_efisis.Multi.{
  touch_on_flush, any_gone, Client, State, set_client, mark_dirty, touch, is_watched, watch_for_key,
  watch_keys, unwatch_all, discard_transaction, unwatch_command,
}
use better_efisis.Multi.Watching.{
  times, times-append, occurs, occurs-append, is_watched-occurs, unwatch_loop-times,
}

module _ {K A : Type 0} where
  -- A client after a key was touched, which it watches or not.
  abbrev pub marked : Client K A → Bool → Client K A
  marked x b = record x { dirty_cas = x.dirty_cas || b }

  -- What DISCARD and EXEC leave of a client.
  abbrev pub discarded : Client K A
  discarded = record {
    in_multi = false;
    dirty_cas = false;
    dirty_exec = false;
    commands = [];
    watched_keys = [];
  }

  mark_dirty-client :
      (cs : List ℕ) (s : State K A) (i : ℕ)
      → (mark_dirty cs s).client i ≡ marked (s.client i) (ltb 0 (times i cs))
  unfolding mark_dirty times
  mark_dirty-client [] s i = ground arith
  mark_dirty-client (c ∷ cs) s i =
      ground
        (arith, mark_dirty-client cs (set_client s c (record (s.client c) { dirty_cas = true })) i)

  -- A flush marks the listed clients that watch a key which it removes, and nothing else changes.
  pub touch_on_flush-client :
      (gone : K → Bool) (cs : List ℕ) (s : State K A) (i : ℕ)
      → (touch_on_flush gone cs s).client i
        ≡ marked (s.client i) (ltb 0 (times i cs) && any_gone gone (s.client i).watched_keys)
  unfolding touch_on_flush times
  touch_on_flush-client gone [] s i = ground arith
  touch_on_flush-client gone (c ∷ cs) s i =
      elim (Bool-cases (any_gone gone (s.client c).watched_keys)) [
        | inl hit ↦
            rw (hit, touch_on_flush)
              (ground (
                arith,
                hit,
                touch_on_flush-client gone cs
                    (set_client s c (record (s.client c) { dirty_cas = true })) i,
              ))
        | inr missed ↦
            rw (missed, touch_on_flush) (ground (arith, missed, touch_on_flush-client gone cs s i))
      ]

  watchers-mark_dirty : (cs : List ℕ) (s : State K A) → (mark_dirty cs s).watchers ≡ s.watchers
  unfolding mark_dirty
  watchers-mark_dirty [] s = refl
  watchers-mark_dirty (c ∷ cs) s =
      watchers-mark_dirty cs (set_client s c (record (s.client c) { dirty_cas = true }))

module _ {K A : Type 0} (dec : Discrete K) where
  -- A client stands in the list of a key exactly if the key stands in its list, and once.
  pub record IsLinked (s : State K A) : Type 0 where
    pub mirrored : (c : ℕ) (k : K) → occurs dec k (s.client c).watched_keys ≡ times c (s.watchers k)
    pub once : (c : ℕ) (k : K) → times c (s.watchers k) ≤ 1

  pub set_client-IsLinked :
      (s : State K A) (c : ℕ) (x : Client K A)
      → x.watched_keys ≡ (s.client c).watched_keys
      → IsLinked s
      → IsLinked (set_client s c x)
  set_client-IsLinked s c x e v = record {
    mirrored = λ i k. ground (arith, v.mirrored i k, e);
    once = v.once;
  }

  pub watch_for_key-IsLinked :
      (s : State K A) (c : ℕ) (k : K) → IsLinked s → IsLinked (watch_for_key dec s c k)
  unfolding watch_for_key occurs times
  watch_for_key-IsLinked s c k v = elim (Bool-cases (is_watched dec k (s.client c).watched_keys)) [
    | inl old ↦ rw (old, watch_for_key) v
    | inr new ↦
        let not_yet : times c (s.watchers k) ≡ 0 =
          ground (arith, is_watched-occurs dec k (s.client c).watched_keys, v.mirrored c k) in
        rw (new, watch_for_key)
          (record {
            mirrored = λ i j. ground (
              arith,
              v.mirrored i j,
              occurs-append dec j (s.client c).watched_keys (k ∷ []),
              times-append i (s.watchers k) (c ∷ []),
            );
            once =
                λ i j. ground (arith, v.once i j, not_yet, times-append i (s.watchers k) (c ∷ []));
          })
  ]

  pub watch_keys-IsLinked :
      (s : State K A) (c : ℕ) (ks : List K) → IsLinked s → IsLinked (watch_keys dec s c ks)
  unfolding watch_keys
  watch_keys-IsLinked s c [] v = v
  watch_keys-IsLinked s c (k ∷ ks) v =
      watch_keys-IsLinked (watch_for_key dec s c k) c ks (watch_for_key-IsLinked s c k v)

  -- Client `c` has become `x`, no other client has changed.
  pub record Becomes (s : State K A) (c : ℕ) (x : Client K A) (t : State K A) : Type 0 where
    pub linked : IsLinked t
    pub clients : (i : ℕ) → t.client i ≡ (if i == c then x else s.client i)

  pub unwatch_all-Becomes :
      (s : State K A) (c : ℕ)
      → IsLinked s
      → (t : State K A) × (unwatch_all dec s c ≡ some t)
        × Becomes s c (record (s.client c) { watched_keys = [] }) t
  unfolding unwatch_all occurs
  unwatch_all-Becomes s c v =
      let (g, e, left) =
        unwatch_loop-times dec c (s.client c).watched_keys s.watchers (v.mirrored c) in
      (
        record (set_client s c (record (s.client c) { watched_keys = [] })) { watchers = g },
        rw (e, unwatch_all),
        record {
          linked = record {
            mirrored = λ i k. ground (arith, v.mirrored i k, left k i);
            once = λ i k. ground (arith, v.once i k, left k i);
          };
          clients = λ i. refl;
        },
      )

  pub discard_transaction-Becomes :
      (s : State K A) (c : ℕ)
      → IsLinked s
      → (t : State K A) × (discard_transaction dec s c ≡ some t) × Becomes s c discarded t
  unfolding discard_transaction
  discard_transaction-Becomes s c v =
      let x = record (s.client c) {
        commands = [];
        in_multi = false;
        dirty_cas = false;
        dirty_exec = false;
      } in
      let (t, e, b) = unwatch_all-Becomes (set_client s c x) c (set_client-IsLinked s c x refl v) in
      (t, e, record { linked = b.linked; clients = λ i. ground (arith, b.clients i) })

  pub unwatch_command-Becomes :
      (s : State K A) (c : ℕ)
      → IsLinked s
      → (t : State K A) × (unwatch_command dec s c ≡ some t)
        × Becomes s c (record (s.client c) { watched_keys = []; dirty_cas = false }) t
  unfolding unwatch_command
  unwatch_command-Becomes s c v =
      let (t, e, b) = unwatch_all-Becomes s c v in
      (
        set_client t c (record (t.client c) { dirty_cas = false }),
        rw (e, unwatch_command),
        record {
          linked =
              set_client-IsLinked t c (record (t.client c) { dirty_cas = false }) refl b.linked;
          clients = λ i. ground (arith, b.clients i, b.clients c);
        },
      )

  -- Touching a key marks exactly the clients that watch it, and nothing else changes.
  pub touch-client :
      (s : State K A) (k : K) (i : ℕ)
      → IsLinked s
      → (touch s k).client i ≡ marked (s.client i) (is_watched dec k (s.client i).watched_keys)
  unfolding touch
  touch-client s k i v = ground (
    arith,
    mark_dirty-client (s.watchers k) s i,
    is_watched-occurs dec k (s.client i).watched_keys,
    v.mirrored i k,
  )

  pub touch-IsLinked : (s : State K A) (k : K) → IsLinked s → IsLinked (touch s k)
  unfolding touch
  touch-IsLinked s k v = record {
    mirrored = λ c j. ground (
      arith,
      v.mirrored c j,
      mark_dirty-client (s.watchers k) s c,
      watchers-mark_dirty (s.watchers k) s,
    );
    once = λ c j. ground (arith, v.once c j, watchers-mark_dirty (s.watchers k) s);
  }
