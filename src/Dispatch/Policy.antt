-- ===== src/Dispatch/Policy.antt =====
-- redis-stable/src/redis.c: what holds of a command that passes `processCommand`, and which refusals
-- mark a transaction.
use better_efisis.Prelude.{
  ℕ, Bool, true, false, not, ◌&&◌, ◌||◌, none, some, if◌then◌else◌, ◌≡◌, ◌<◌, ◌≤◌, refl, sym, ap,
  ◌∙◌, arith,
}
use better_efisis.Prelude.Int.{ℤ, pos, negsuc}
use better_efisis.Dispatch.{
  Command, Server, Request, Reason, read_only_slave, pubsub_context, is_loading, Outcome, refused,
  queued, called, quit, unknown_command, aof_error, bgsave_error, is_auth, is_ping,
  is_for_slow_script, bad_arity, is_subscription, is_transaction, refuse_if, check_replication,
  check_request, process_command,
}

abbrev pub is_accepted : Outcome → Bool
is_accepted queued = true
is_accepted called = true
is_accepted _ = false

-- What the server promises of a command that it runs or queues.
pub record Allowed (s : Server) (r : Request) (c : Command) : Type 0 where
  pub exact : (n : ℕ) → c.arity ≡ pos n → 0 < n → r.argc ≡ n
  pub least : (n : ℕ) → c.arity ≡ negsuc n → n < r.argc
  pub authenticated : s.requirepass ≡ true → is_auth c.proc ≡ false → r.authenticated ≡ true
  pub memory : s.maxmemory ≡ true → c.denyoom ≡ true → s.memory_freed ≡ true
  pub aof : (c.write || is_ping c.proc) ≡ true → s.is_slave ≡ false → s.aof_write_failed ≡ false
  pub saved :
      (c.write || is_ping c.proc) ≡ true
      → s.is_slave ≡ false
      → s.stop_writes_on_bgsave_err ≡ true
      → 0 < s.saveparamslen
      → s.bgsave_failed ≡ false
  pub replicas :
      c.write ≡ true
      → 0 < s.min_slaves_to_write
      → 0 < s.min_slaves_max_lag
      → s.min_slaves_to_write ≤ s.good_slaves_count
  pub read_only : c.write ≡ true → s.is_slave ≡ true → s.slave_ro ≡ true → r.is_master ≡ true
  pub subscribed : is_subscription c.proc ≡ false → (r.channels ≡ 0) × (r.patterns ≡ 0)
  pub stale :
      s.is_slave ≡ true → s.serve_stale_data ≡ false → c.stale ≡ false → s.master_connected ≡ true
  pub loaded : s.loading ≡ true → c.loading ≡ true
  pub scripts : s.lua_timedout ≡ true → is_for_slow_script c.proc r.argc r.letter ≡ true
  pub in_order : r.in_multi ≡ true → is_transaction c.proc ≡ false → process_command s r ≡ queued
  pub runs : r.in_multi ≡ false → process_command s r ≡ called
  pub runs_now : is_transaction c.proc ≡ true → process_command s r ≡ called

refuse_if-accepted :
    (t : Bool) (why : Reason) (flagged : Bool) (next : Outcome)
    → is_accepted (refuse_if t why flagged next) ≡ true
    → (t ≡ false) × (is_accepted next ≡ true) × (refuse_if t why flagged next ≡ next)
unfolding refuse_if
refuse_if-accepted true why flagged next e = ground arith
refuse_if-accepted false why flagged next e = (refl, e, refl)

-- What `check_replication` says of a command that it accepts.
record Replicated (s : Server) (r : Request) (c : Command) : Type 0 where
  replicas :
      c.write ≡ true
      → 0 < s.min_slaves_to_write
      → 0 < s.min_slaves_max_lag
      → s.min_slaves_to_write ≤ s.good_slaves_count
  read_only : c.write ≡ true → s.is_slave ≡ true → s.slave_ro ≡ true → r.is_master ≡ true
  subscribed : is_subscription c.proc ≡ false → (r.channels ≡ 0) × (r.patterns ≡ 0)
  stale :
      s.is_slave ≡ true → s.serve_stale_data ≡ false → c.stale ≡ false → s.master_connected ≡ true
  loaded : s.loading ≡ true → c.loading ≡ true
  scripts : s.lua_timedout ≡ true → is_for_slow_script c.proc r.argc r.letter ≡ true
  in_order : r.in_multi ≡ true → is_transaction c.proc ≡ false → check_replication s r c ≡ queued
  runs : r.in_multi ≡ false → check_replication s r c ≡ called
  runs_now : is_transaction c.proc ≡ true → check_replication s r c ≡ called

check_replication-Replicated :
    (s : Server) (r : Request) (c : Command)
    → is_accepted (check_replication s r c) ≡ true
    → Replicated s r c
unfolding check_replication
check_replication-Replicated s r c e =
    let (no_lack, e1, q1) = refuse_if-accepted _ _ _ _ e in
    let (not_read_only, e2, q2) = refuse_if-accepted _ _ _ _ e1 in
    let (not_context, e3, q3) = refuse_if-accepted _ _ _ _ e2 in
    let (not_down, e4, q4) = refuse_if-accepted _ _ _ _ e3 in
    let (not_loading, e5, q5) = refuse_if-accepted _ _ _ _ e4 in
    let (not_slow, e6, q6) = refuse_if-accepted _ _ _ _ e5 in
    let passed = q1 ∙ q2 ∙ q3 ∙ q4 ∙ q5 ∙ q6 in
    record {
      replicas = λ w t l. ground arith;
      read_only = λ w v o. ground arith;
      subscribed = λ u. (ground arith, ground arith);
      stale = λ v d a. ground arith;
      loaded = λ l. ground arith;
      scripts = λ l. ground arith;
      in_order = λ m u. passed ∙ rw (m, u) refl;
      runs = λ m. passed ∙ rw m refl;
      runs_now = λ u. passed ∙ ground (arith, u);
    }

arity_exact : (a : ℤ) (n argc : ℕ) → bad_arity a argc ≡ false → a ≡ pos n → 0 < n → argc ≡ n
arity_exact a n argc h e l =
    let good : bad_arity (pos n) argc ≡ false = sym (ap (λ x. bad_arity x argc) e) ∙ h in
    ground arith

arity_least : (a : ℤ) (n argc : ℕ) → bad_arity a argc ≡ false → a ≡ negsuc n → n < argc
arity_least a n argc h e =
    let good : bad_arity (negsuc n) argc ≡ false = sym (ap (λ x. bad_arity x argc) e) ∙ h in
    ground arith

-- What `check_request` says of a command that it accepts.
record Requested (s : Server) (r : Request) (c : Command) : Type 0 where
  exact : (n : ℕ) → c.arity ≡ pos n → 0 < n → r.argc ≡ n
  least : (n : ℕ) → c.arity ≡ negsuc n → n < r.argc
  authenticated : s.requirepass ≡ true → is_auth c.proc ≡ false → r.authenticated ≡ true
  memory : s.maxmemory ≡ true → c.denyoom ≡ true → s.memory_freed ≡ true
  aof : (c.write || is_ping c.proc) ≡ true → s.is_slave ≡ false → s.aof_write_failed ≡ false
  saved :
      (c.write || is_ping c.proc) ≡ true
      → s.is_slave ≡ false
      → s.stop_writes_on_bgsave_err ≡ true
      → 0 < s.saveparamslen
      → s.bgsave_failed ≡ false
  replicated : Replicated s r c
  same : check_request s r c ≡ check_replication s r c

check_request-Requested :
    (s : Server) (r : Request) (c : Command)
    → is_accepted (check_request s r c) ≡ true
    → Requested s r c
unfolding check_request
check_request-Requested s r c e =
    let (right_arity, e1, q1) = refuse_if-accepted _ _ _ _ e in
    let (not_unknown, e2, q2) = refuse_if-accepted _ _ _ _ e1 in
    let (not_full, e3, q3) = refuse_if-accepted _ _ _ _ e2 in
    let (not_broken, e4, q4) = refuse_if-accepted _ _ _ _ e3 in
    let t : Requested s r c = record {
      exact = λ n a l. arity_exact c.arity n r.argc right_arity a l;
      least = λ n a. arity_least c.arity n r.argc right_arity a;
      authenticated = λ p a. ground arith;
      memory = λ m d. ground arith;
      aof = λ w v. ground arith;
      saved = λ w v b l. ground arith;
      replicated = check_replication-Replicated s r c e4;
      same = q1 ∙ q2 ∙ q3 ∙ q4;
    } in
    t

-- A command that `processCommand` runs or queues is allowed: it has the number of words that its arity
-- says, its client is authenticated where a password is set, and there is memory for it. On a server
-- that is no slave, a write or a PING meets no failed write of the AOF, and no failed background save
-- where saves are configured and such a failure is to stop writes. A write meets enough replicas and
-- comes from the master on a read-only slave, a subscriber sends only subscriptions, a slave without
-- its master serves only what is fit for stale data, a server that loads only what is fit for that,
-- and one with a slow script only what is fit for that. In a transaction it is queued, unless it is
-- EXEC, DISCARD, MULTI or WATCH; such a command, and any outside of a transaction, is run.
pub process_command-Allowed :
    (s : Server) (r : Request) (c : Command)
    → r.cmd ≡ some c
    → is_accepted (process_command s r) ≡ true
    → Allowed s r c
unfolding process_command
process_command-Allowed s r c f e =
    elim r.is_quit as (λ b. r.is_quit ≡ b → Allowed s r c) [
      | true ↦ λ q. ground arith
      | false ↦ λ q.
          let t : Requested s r c = check_request-Requested s r c (ground arith) in
          record {
            exact = t.exact;
            least = t.least;
            authenticated = t.authenticated;
            memory = t.memory;
            aof = t.aof;
            saved = t.saved;
            replicas = t.replicated.replicas;
            read_only = t.replicated.read_only;
            subscribed = t.replicated.subscribed;
            stale = t.replicated.stale;
            loaded = t.replicated.loaded;
            scripts = t.replicated.scripts;
            in_order = λ m u. rw (q, f) (t.same ∙ t.replicated.in_order m u);
            runs = λ m. rw (q, f) (t.same ∙ t.replicated.runs m);
            runs_now = λ u. rw (q, f) (t.same ∙ t.replicated.runs_now u);
          }
    ]
      refl

-- Whether a refusal for this reason calls `flagTransaction`.
abbrev pub is_flagged : Reason → Bool
is_flagged read_only_slave = false
is_flagged pubsub_context = false
is_flagged is_loading = false
is_flagged _ = true

abbrev pub Flags : Outcome → Type 0
Flags (refused why flagged) = flagged ≡ is_flagged why
Flags _ = Unit {0}

refuse_if-Flags :
    (t : Bool) (why : Reason) (flagged : Bool) (next : Outcome)
    → flagged ≡ is_flagged why
    → Flags next
    → Flags (refuse_if t why flagged next)
unfolding refuse_if
refuse_if-Flags true why flagged next e n = e
refuse_if-Flags false why flagged next e n = n

check_replication-Flags : (s : Server) (r : Request) (c : Command) → Flags (check_replication s r c)
unfolding check_replication
check_replication-Flags s r c = refuse_if-Flags _ _ _ _ refl (
    refuse_if-Flags _ _ _ _ refl (
      refuse_if-Flags _ _ _ _ refl (
        refuse_if-Flags _ _ _ _ refl (
          refuse_if-Flags _ _ _ _ refl (
            refuse_if-Flags _ _ _ _ refl
              (elim (r.in_multi && not (is_transaction c.proc))
                as (λ b. Flags (if b then queued else called)) [ true ↦ tt | false ↦ tt ]))))))

check_request-Flags : (s : Server) (r : Request) (c : Command) → Flags (check_request s r c)
unfolding check_request
check_request-Flags s r c = refuse_if-Flags _ _ _ _ refl (
    refuse_if-Flags _ _ _ _ refl (
      refuse_if-Flags _ _ _ _ refl (
        refuse_if-Flags _ _ _ _
          (elim s.aof_write_failed
            as (λ b. true ≡ is_flagged (if b then aof_error else bgsave_error)) [
              | true ↦ refl
              | false ↦ refl
            ])
          (check_replication-Flags s r c))))

-- Whatever the server and the request are, each refusal of `processCommand` marks the transaction of
-- the client, but for the three of a write on a read-only slave, of a command of a subscriber and of a
-- command while the data are loaded.
pub process_command-Flags : (s : Server) (r : Request) → Flags (process_command s r)
unfolding process_command
process_command-Flags s r =
    elim r.is_quit
      as (λ b. Flags (
        if b
        then quit
        else (elim r.cmd [ none ↦ refused unknown_command true | some c ↦ check_request s r c ]))) [
          | true ↦ tt
          | false ↦
              elim r.cmd
                as (λ m.
                  Flags (elim m [
                    | none ↦ refused unknown_command true
                    | some c ↦ check_request s r c
                  ])) [ none ↦ refl | some c ↦ check_request-Flags s r c ]
        ]
