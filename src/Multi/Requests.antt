-- ===== src/Multi/Requests.antt =====
-- Sequences of commands from several clients through redis-stable/src/multi.c: no assertion fails,
-- and a transaction whose watched key was modified in between does not run.
use better_efisis.Prelude.{
  ℕ, ◌≡◌, ◌≢◌, refl, ap, ◌∙◌, Bool, true, false, ◌||◌, Option, some, List, [], ◌∷◌, ◌++◌, arith,
  if◌then◌else◌, length, Bool-cases, inl, inr,
}
use better_efisis.Multi.{
  watch_command, multi_command, discard_command, Queued, unwatch, other, Command, watch, multi,
  discard, exec, plain, refused, Reply, ok, queued, error, exec_abort, null_multi_bulk, multi_bulk,
  result, Client, State, set_client, touch, touch_all, flag_transaction, queue_command, is_watched,
  watch_for_key, watch_keys, discard_transaction, call, call_all, with_reply, exec_queue,
  exec_command, process,
}
use better_efisis.Multi.Clients.{
  marked, IsLinked, set_client-IsLinked, watch_keys-IsLinked, Becomes, unwatch_all-Becomes,
  discarded, discard_transaction-Becomes, unwatch_command-Becomes, touch-client, touch-IsLinked,
}

module _ {K : Type 0} (dec : Discrete K) where
  -- Whether one of the keys is watched.
  abbrev pub any_watched : List K → List K → Bool
  any_watched [] js = false
  any_watched (k ∷ ks) js = is_watched dec k js || any_watched ks js

module _ {K A : Type 0} (dec : Discrete K) where
  touch_all-IsLinked :
      (ks : List K) (s : State K A) → IsLinked dec s → IsLinked dec (touch_all ks s)
  unfolding touch_all
  touch_all-IsLinked [] s v = v
  touch_all-IsLinked (k ∷ ks) s v = touch_all-IsLinked ks (touch s k) (touch-IsLinked dec s k v)

  pub touch_all-client :
      (ks : List K) (s : State K A) (i : ℕ)
      → IsLinked dec s
      → (touch_all ks s).client i
        ≡ marked (s.client i) (any_watched dec ks (s.client i).watched_keys)
  unfolding touch_all
  touch_all-client [] s i v = ground arith
  touch_all-client (k ∷ ks) s i v = ground (
    arith,
    touch-client dec s k i v,
    touch_all-client ks (touch s k) i (touch-IsLinked dec s k v),
  )

  -- What the commands of others can do to a client: mark it dirty, and no more.
  pub record Keeps (x y : Client K A) : Type 0 where
    pub in_multi : y.in_multi ≡ x.in_multi
    pub dirty_exec : y.dirty_exec ≡ x.dirty_exec
    pub commands : y.commands ≡ x.commands
    pub watched_keys : y.watched_keys ≡ x.watched_keys
    pub dirty_cas : x.dirty_cas ≡ true → y.dirty_cas ≡ true

  Keeps-refl : (x : Client K A) → Keeps x x
  Keeps-refl x = record {
    in_multi = refl;
    dirty_exec = refl;
    commands = refl;
    watched_keys = refl;
    dirty_cas = λ e. e;
  }

  Keeps-trans : {x y z : Client K A} → Keeps x y → Keeps y z → Keeps x z
  Keeps-trans p q = record {
    in_multi = q.in_multi ∙ p.in_multi;
    dirty_exec = q.dirty_exec ∙ p.dirty_exec;
    commands = q.commands ∙ p.commands;
    watched_keys = q.watched_keys ∙ p.watched_keys;
    dirty_cas = λ e. q.dirty_cas (p.dirty_cas e);
  }

  marked-Keeps : (x y : Client K A) (b : Bool) → y ≡ marked x b → Keeps x y
  marked-Keeps x y b e = record {
    in_multi = ap (λ (c : Client K A). c.in_multi) e;
    dirty_exec = ap (λ (c : Client K A). c.dirty_exec) e;
    commands = ap (λ (c : Client K A). c.commands) e;
    watched_keys = ap (λ (c : Client K A). c.watched_keys) e;
    dirty_cas = λ h. ground (arith, ap (λ (c : Client K A). c.dirty_cas) e);
  }

  -- A command of client `c` leads from `s` to `t`.
  pub record Follows (s : State K A) (c : ℕ) (t : State K A) : Type 0 where
    pub linked : IsLinked dec t
    pub others : (i : ℕ) → i ≢ c → Keeps (s.client i) (t.client i)

  Becomes-Follows : (s t : State K A) (c : ℕ) (x : Client K A) → Becomes dec s c x t → Follows s c t
  Becomes-Follows s t c x b = record {
    linked = b.linked;
    others = λ i ne. marked-Keeps (s.client i) (t.client i) false (ground (arith, b.clients i));
  }

  set_client-Follows :
      (s : State K A) (c : ℕ) (x : Client K A)
      → x.watched_keys ≡ (s.client c).watched_keys
      → IsLinked dec s
      → Follows s c (set_client s c x)
  set_client-Follows s c x e v = record {
    linked = set_client-IsLinked dec s c x e v;
    others = λ i ne. marked-Keeps (s.client i) ((set_client s c x).client i) false (ground arith);
  }

  itself-Follows : (s : State K A) (c : ℕ) → IsLinked dec s → Follows s c s
  itself-Follows s c v = record { linked = v; others = λ i ne. Keeps-refl (s.client i) }

  Follows-trans : (s t u : State K A) (c : ℕ) → Follows s c t → Follows t c u → Follows s c u
  Follows-trans s t u c p q = record {
    linked = q.linked;
    others = λ i ne. Keeps-trans (p.others i ne) (q.others i ne);
  }

  watch_keys-others :
      (s : State K A) (c : ℕ) (ks : List K) (i : ℕ)
      → i ≢ c
      → (watch_keys dec s c ks).client i ≡ s.client i
  unfolding watch_keys watch_for_key
  watch_keys-others s c [] i ne = refl
  watch_keys-others s c (k ∷ ks) i ne =
      watch_keys-others (watch_for_key dec s c k) c ks i ne ∙ ground arith

  module _ (modifies : A → List K) where
    -- An action that does not fail.
    abbrev Runs : State K A → ℕ → Option (State K A × List (Reply A)) → Type 0
    Runs s c o = (t : State K A) × (r : List (Reply A)) × (o ≡ some (t, r)) × Follows s c t

    call-Runs :
        (s : State K A) (c : ℕ) (q : Queued A) → IsLinked dec s → Runs s c (call dec modifies s c q)
    unfolding call
    call-Runs s c unwatch v =
        let (t, e, b) = unwatch_command-Becomes dec s c v in
        (
          t,
          ok ∷ [],
          rw (e, call),
          Becomes-Follows s t c (record (s.client c) { watched_keys = []; dirty_cas = false }) b,
        )
    call-Runs s c (other a) v = (
      touch_all (modifies a) s,
      result a ∷ [],
      refl,
      record {
        linked = touch_all-IsLinked (modifies a) s v;
        others = λ i ne.
            marked-Keeps (s.client i) ((touch_all (modifies a) s).client i)
              (any_watched dec (modifies a) (s.client i).watched_keys)
              (touch_all-client (modifies a) s i v);
      },
    )

    call_all-Runs :
        (qs : List (Queued A)) (s : State K A) (c : ℕ)
        → IsLinked dec s
        → Runs s c (call_all dec modifies s c qs)
    unfolding call_all
    call_all-Runs [] s c v = (s, [], refl, itself-Follows s c v)
    call_all-Runs (q ∷ qs) s c v =
        let (t, r, e, f) = call-Runs s c q v in
        let (u, rs, e', f') = call_all-Runs qs t c f.linked in
        (u, r ++ rs, rw (e, e', call_all), Follows-trans s t u c f f')

    discard-Runs :
        (s : State K A) (c : ℕ) (r : List (Reply A))
        → IsLinked dec s
        → Runs s c (with_reply dec modifies r (discard_transaction dec s c))
    discard-Runs s c r v =
        let (t, e, b) = discard_transaction-Becomes dec s c v in
        (t, r, rw e, Becomes-Follows s t c discarded b)

    exec_queue-Runs :
        (s : State K A) (c : ℕ) → IsLinked dec s → Runs s c (exec_queue dec modifies s c)
    unfolding exec_queue
    exec_queue-Runs s c v =
        let (t, e, b) = unwatch_all-Becomes dec s c v in
        let f = Becomes-Follows s t c (record (s.client c) { watched_keys = [] }) b in
        let (u, rs, e', f') = call_all-Runs (t.client c).commands t c b.linked in
        let (w, r, e'', f'') =
          discard-Runs u c (multi_bulk (length (t.client c).commands) ∷ rs) f'.linked in
        (w, r, rw (e, e', exec_queue) e'', Follows-trans s t w c f (Follows-trans t u w c f' f''))

    exec_command-Runs :
        (s : State K A) (c : ℕ) → IsLinked dec s → Runs s c (exec_command dec modifies s c)
    unfolding exec_command
    exec_command-Runs s c v = elim (Bool-cases (s.client c).in_multi) [
      | inr outside ↦ (s, error ∷ [], rw (outside, exec_command), itself-Follows s c v)
      | inl inside ↦ elim (Bool-cases ((s.client c).dirty_cas || (s.client c).dirty_exec)) [
        | inl dirty ↦
            rw (inside, dirty, exec_command)
              (discard-Runs s c
                ((if (s.client c).dirty_exec then exec_abort else null_multi_bulk) ∷ []) v)
        | inr clean ↦ rw (inside, clean, exec_command) (exec_queue-Runs s c v)
      ]
    ]

    -- In a state whose lists agree, no command of any client fails an assertion. The lists agree
    -- afterwards, and to another client no more happens than being marked dirty.
    pub process-Runs :
        (s : State K A) (c : ℕ) (cmd : Command K A)
        → IsLinked dec s
        → (t : State K A) × (r : List (Reply A)) × (process dec modifies s c cmd ≡ some (t, r))
          × Follows s c t
    unfolding process watch_command multi_command discard_command queue_command flag_transaction
    process-Runs s c (watch ks) v = elim (Bool-cases (s.client c).in_multi) [
      | inl inside ↦ (s, error ∷ [], rw (inside, watch_command, process), itself-Follows s c v)
      | inr outside ↦ (
        watch_keys dec s c ks,
        ok ∷ [],
        rw (outside, watch_command, process),
        record {
          linked = watch_keys-IsLinked dec s c ks v;
          others = λ i ne.
              marked-Keeps (s.client i) ((watch_keys dec s c ks).client i) false
                (watch_keys-others s c ks i ne ∙ ground arith);
        },
      )
    ]
    process-Runs s c multi v = elim (Bool-cases (s.client c).in_multi) [
      | inl inside ↦ (s, error ∷ [], rw (inside, multi_command, process), itself-Follows s c v)
      | inr outside ↦
          let x = record (s.client c) { in_multi = true } in
          (
            set_client s c x,
            ok ∷ [],
            rw (outside, multi_command, process),
            set_client-Follows s c x refl v,
          )
    ]
    process-Runs s c discard v = elim (Bool-cases (s.client c).in_multi) [
      | inl inside ↦ rw (inside, discard_command, process) (discard-Runs s c (ok ∷ []) v)
      | inr outside ↦ (s, error ∷ [], rw (outside, discard_command, process), itself-Follows s c v)
    ]
    process-Runs s c exec v = exec_command-Runs s c v
    process-Runs s c (plain q) v = elim (Bool-cases (s.client c).in_multi) [
      | inl inside ↦
          let x = record (s.client c) { commands = (s.client c).commands ++ (q ∷ []) } in
          (set_client s c x, queued ∷ [], rw (inside, process), set_client-Follows s c x refl v)
      | inr outside ↦ rw (outside, process) (call-Runs s c q v)
    ]
    process-Runs s c refused v = elim (Bool-cases (s.client c).in_multi) [
      | inl inside ↦
          let x = record (s.client c) { dirty_exec = true } in
          (set_client s c x, error ∷ [], rw (inside, process), set_client-Follows s c x refl v)
      | inr outside ↦ (s, error ∷ [], rw (outside, process), itself-Follows s c v)
    ]
