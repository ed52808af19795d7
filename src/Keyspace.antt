-- ===== src/Keyspace.antt =====
-- redis-stable/src/db.c: the keys of a database with their times of expiry. A `dict` is the function
-- that `dictFind` is, so that the tests whether it is empty, which save a search, have no counterpart.
pub mod Closed
pub mod Lookup
pub mod Lifetime
pub mod Commands
mod Tests
use mathlib.Core.Logic.{ite}
use better_efisis.Prelude.{
  ℕ, suc, ◌+◌, ◌-◌, ◌*◌, ◌/◌, ◌^◌, ◌≡◌, Bool, true, false, not, ◌&&◌, ◌||◌, Option, none, some,
  List, [], ◌∷◌, ◌++◌, ltb, ◌==◌, if◌then◌else◌,
}
use better_efisis.Prelude.Int.{
  ℤ, pos, negsuc, pos_part, neg_part, ltb_ℤ, to_word, of_word, sub_ℕ, ◌+ℤ◌, ◌-ℤ◌, ◌*ℤ◌,
}

-- A value with its access time.
pub record Object (V : Type 0) : Type 0 where
  pub value : V
  pub lru : ℕ

-- What other parts of the server are told, in order.
pub data Event : Type 0 where
  del expired expire rename_from rename_to : Event

pub data Effect (K : Type 0) : Type 0 where
  modified : K → Effect K
  notify : Event → K → Effect K
  propagate_del : K → Effect K
  rewrite_del : K → Effect K

-- A database, with the fields of `server` that its functions use. `time` is what `mstime` gives
-- during a command; `saving` says that a child process saves or rewrites.
pub record Db (K V : Type 0) : Type 0 where
  pub dict : K → Option (Object V)
  pub expires : K → Option ℤ
  pub loading : Bool
  pub is_slave : Bool
  pub saving : Bool
  pub lua_caller : Bool
  pub lua_time_start : ℤ
  pub time : ℤ
  pub lruclock : ℕ
  pub hits : ℕ
  pub misses : ℕ
  pub expired_keys : ℕ
  pub dirty : ℕ
  pub effects : List (Effect K)

pub data Reply : Type 0 where
  ok czero cone nokeyerr sameobjecterr : Reply
  integer : ℤ → Reply

-- `none` is an assertion that fails.
abbrev pub M : (K V A : Type 0) → Type 0
M K V A = Db K V → Option (A × Db K V)

abbrev pub pure : {K V A : Type 0} → A → M K V A
pure a s = some (a, s)

infixl 5 ◌>>=◌ ◌>>◌
abbrev pub ◌>>=◌ : {K V A B : Type 0} → M K V A → (A → M K V B) → M K V B
◌>>=◌ m f s = elim (m s) [ none ↦ none | some (a, t) ↦ f a t ]

abbrev pub ◌>>◌ : {K V B : Type 0} → M K V (Unit {0}) → M K V B → M K V B
m >> k = m >>= λ _. k

abbrev pub is_some : {A : Type 0} → Option A → Bool
is_some none = false
is_some (some a) = true

module _ {K V : Type 0} where
  abbrev pub put_effects : List (Effect K) → M K V (Unit {0})
  put_effects l s = some (tt, record s { effects = s.effects ++ l })

  abbrev pub set_dirty : M K V (Unit {0})
  set_dirty s = some (tt, record s { dirty = s.dirty + 1 })

module _ {K : Type 0} (dec : Discrete K) where
  -- A table with another content for one key.
  abbrev pub set_at : {A : Type 0} → (K → Option A) → K → Option A → K → Option A
  set_at f k o = λ j. ite (dec j k) o (f j)

module _ {K V : Type 0} (dec : Discrete K) where
  -- `lookupKey`
  unfoldable pub lookup_key : K → M K V (Option (Object V))
  lookup_key k s = elim (s.dict k) [
    | none ↦ some (none, s)
    | some o ↦
        let o' = if s.saving then o else record o { lru = s.lruclock } in
        some (some o', record s { dict = set_at dec s.dict k (some o') })
  ]

  -- `dbExists`
  unfoldable pub db_exists : K → M K V Bool
  db_exists k s = some (is_some (s.dict k), s)

  -- `dbAdd`
  unfoldable pub db_add : K → Object V → M K V (Unit {0})
  db_add k o s = elim (s.dict k) [
    | none ↦ some (tt, record s { dict = set_at dec s.dict k (some o) })
    | some _ ↦ none
  ]

  -- `dbOverwrite`
  unfoldable pub db_overwrite : K → Object V → M K V (Unit {0})
  db_overwrite k o s = elim (s.dict k) [
    | none ↦ none
    | some _ ↦ some (tt, record s { dict = set_at dec s.dict k (some o) })
  ]

  -- `dbDelete`
  unfoldable pub db_delete : K → M K V Bool
  db_delete k s = some (
    is_some (s.dict k),
    record s { dict = set_at dec s.dict k none; expires = set_at dec s.expires k none },
  )

  -- `removeExpire`
  unfoldable pub remove_expire : K → M K V Bool
  remove_expire k s = elim (s.dict k) [
    | none ↦ none
    | some _ ↦ some (is_some (s.expires k), record s { expires = set_at dec s.expires k none })
  ]

  -- `setExpire`
  unfoldable pub set_expire : K → ℤ → M K V (Unit {0})
  set_expire k t s = elim (s.dict k) [
    | none ↦ none
    | some _ ↦ some (tt, record s { expires = set_at dec s.expires k (some t) })
  ]

  -- `getExpire`
  unfoldable pub get_expire : K → M K V ℤ
  get_expire k s = elim (s.expires k) [
    | none ↦ some (negsuc 0, s)
    | some t ↦ elim (s.dict k) [ none ↦ none | some _ ↦ some (t, s) ]
  ]

  -- The end of `expireIfNeeded`: the key is deleted.
  unfoldable pub expire_key : K → M K V Bool
  expire_key k s = db_delete k (record s {
    expired_keys = s.expired_keys + 1;
    effects = s.effects ++ (propagate_del k ∷ notify expired k ∷ []);
  })

  -- `expireIfNeeded`
  unfoldable pub expire_if_needed : K → M K V Bool
  expire_if_needed k = do
    t ← get_expire k
    λ s.
        let now = if s.lua_caller then s.lua_time_start else s.time in
        if ltb_ℤ t (pos 0)
        then some (false, s)
        else if s.loading
        then some (false, s)
        else if s.is_slave
        then some (ltb_ℤ t now, s)
        else if not (ltb_ℤ t now)
        then some (false, s)
        else expire_key k s

  -- `lookupKeyRead` and `lookupKeyWrite`
  unfoldable pub lookup_key_read : K → M K V (Option (Object V))
  lookup_key_read k = do
    _ ← expire_if_needed k
    o ← lookup_key k
    λ s. some (
      o,
      if is_some o then record s { hits = s.hits + 1 } else record s { misses = s.misses + 1 },
    )

  unfoldable pub lookup_key_write : K → M K V (Option (Object V))
  lookup_key_write k = do _ ← expire_if_needed k; lookup_key k

  -- `setKey`
  unfoldable pub set_key : K → Object V → M K V (Unit {0})
  set_key k o = do
    old ← lookup_key_write k
    elim old [ none ↦ db_add k o | some _ ↦ db_overwrite k o ]
    _ ← remove_expire k
    put_effects (modified k ∷ [])

-- The arithmetic of `long long` wraps around.
abbrev pub wrap64 : ℤ → ℤ
wrap64 v = of_word 64 (to_word 64 v)

-- `when` of `expireGenericCommand`, for a number that was read from the argument.
abbrev pub deadline : ℤ → Bool → ℤ → ℤ
deadline basetime seconds param =
    wrap64 ((if seconds then wrap64 (param *ℤ 1000) else param) +ℤ basetime)

-- The quotient of `long long` values is rounded towards 0.
abbrev pub thousandth : ℤ → ℤ
thousandth (pos n) = pos (n / 1000)
thousandth (negsuc n) = sub_ℕ 0 ((n + 1) / 1000)

-- The reply of `ttlGenericCommand` for what `getExpire` gives: a `ttl` below 0 is set to 0.
abbrev pub ttl_reply : Bool → ℤ → ℤ → Reply
ttl_reply output_ms time t =
    let ttl = pos_part (wrap64 (t -ℤ time)) in
    if pos_part t == 0 && neg_part t == 1
    then integer (negsuc 0)
    else integer (if output_ms then pos ttl else thousandth (wrap64 (pos (ttl + 500))))

module _ {K V : Type 0} (dec : Discrete K) where
  -- `existsCommand`
  unfoldable pub exists_command : K → M K V Reply
  exists_command k = do
    _ ← expire_if_needed dec k
    b ← db_exists dec k
    pure (if b then cone else czero)

  -- The loop of `delCommand`, with `deleted`.
  unfoldable pub del_loop : List K → ℕ → M K V ℕ
  del_loop [] deleted = pure deleted
  del_loop (k ∷ ks) deleted = do
    there ← db_delete dec k
    (if there then put_effects (modified k ∷ notify del k ∷ []) >> set_dirty else pure tt)
    del_loop ks (if there then deleted + 1 else deleted)

  unfoldable pub del_command : List K → M K V Reply
  del_command ks = do n ← del_loop ks 0; pure (integer (pos n))

  -- The part of `renameGenericCommand` that moves the object.
  unfoldable pub rename_object : Bool → K → K → Object V → ℤ → M K V Reply
  rename_object nx src dst o t = do
    db_add dec dst o
    (if pos_part t == 0 && neg_part t == 1 then pure tt else set_expire dec dst t)
    _ ← db_delete dec src
    put_effects (modified src ∷ modified dst ∷ notify rename_from src ∷ notify rename_to dst ∷ [])
    set_dirty
    pure (if nx then cone else ok)

  -- `renameGenericCommand`
  unfoldable pub rename_generic : Bool → K → K → M K V Reply
  rename_generic nx src dst = ite (dec src dst) (pure sameobjecterr) (do
    found ← lookup_key_write dec src
    elim found [
      | none ↦ pure nokeyerr
      | some o ↦ do
        t ← get_expire dec src
        other ← lookup_key_write dec dst
        elim other [
          | none ↦ rename_object nx src dst o t
          | some _ ↦
              if nx then pure czero else db_delete dec dst >>= λ _. rename_object nx src dst o t
        ]
    ])

  -- The two branches of `expireGenericCommand`.
  unfoldable pub delete_past : K → M K V Reply
  delete_past k = do
    there ← db_delete dec k
    (if there then pure tt else λ u. none)
    set_dirty
    put_effects (rewrite_del k ∷ modified k ∷ notify del k ∷ [])
    pure cone

  unfoldable pub set_deadline : K → ℤ → M K V Reply
  set_deadline k t = do
    set_expire dec k t
    put_effects (modified k ∷ notify expire k ∷ [])
    set_dirty
    pure cone

  -- `expireGenericCommand` from the lookup on.
  unfoldable pub expire_at : K → ℤ → M K V Reply
  expire_at k t = do
    found ← lookup_key_read dec k
    elim found [
      | none ↦ pure czero
      | some _ ↦ λ s.
          if not (ltb_ℤ s.time t) && not s.loading && not s.is_slave
          then delete_past k s
          else set_deadline k t s
    ]

  -- `expireCommand`, `pexpireCommand`, `expireatCommand` and `pexpireatCommand`
  unfoldable pub expire_command : Bool → Bool → K → ℤ → M K V Reply
  expire_command relative seconds k param =
      λ s. expire_at k (deadline (if relative then s.time else pos 0) seconds param) s

  -- `ttlGenericCommand`
  unfoldable pub ttl_generic : Bool → K → M K V Reply
  ttl_generic output_ms k = do
    found ← lookup_key_read dec k
    elim found [
      | none ↦ pure (integer (negsuc 1))
      | some _ ↦ do t ← get_expire dec k; λ s. some (ttl_reply output_ms s.time t, s)
    ]

  -- `persistCommand`
  unfoldable pub persist_command : K → M K V Reply
  persist_command k = λ s. elim (s.dict k) [
    | none ↦ some (czero, s)
    | some _ ↦
        (do removed ← remove_expire dec k; if removed then set_dirty >> pure cone else pure czero) s
  ]
