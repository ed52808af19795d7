-- ===== src/Keyspace/Closed.antt =====
-- Expiry on access in redis-stable/src/db.c: what `expireIfNeeded`, `lookupKeyRead` and
-- `lookupKeyWrite` leave of a database.
use mathlib.Core.Logic.{ite}
use better_efisis.Prelude.{
  ◌+◌, ◌≡◌, refl, ap, ◌∙◌, Bool, true, false, not, ◌&&◌, Option, none, some, [], ◌∷◌, ◌++◌, arith,
  if◌then◌else◌, Bool-cases, Option-cases, inl, inr,
}
use better_efisis.Prelude.Int.{ℤ, pos, negsuc, ltb_ℤ}
use better_efisis.Keyspace.{
  Db, Object, M, ◌>>=◌, is_some, propagate_del, notify, expired, get_expire, db_delete, expire_key,
  expire_if_needed,
}

abbrev pub value_of : {V : Type 0} → Option (Object V) → Option V
value_of none = none
value_of (some o) = some o.value

-- Whether a time of expiry makes the server delete a key, or a slave take it for expired.
abbrev pub is_late : Bool → ℤ → Option ℤ → Bool
is_late loading now none = false
is_late loading now (some t) = not (ltb_ℤ t (pos 0)) && not loading && ltb_ℤ t now

-- What `getExpire` returns.
abbrev pub time_of : Option ℤ → ℤ
time_of none = negsuc 0
time_of (some t) = t

pub >>=-some :
    {K V A B : Type 0} (m : M K V A) (f : A → M K V B) {s t : Db K V} {a : A}
    → m s ≡ some (a, t)
    → (m >>= f) s ≡ f a t
>>=-some {B = B} m f e =
    ap (λ o. elim o as (λ _. Option (B × Db _ _)) [ none ↦ none | some (a, t) ↦ f a t ]) e

module _ {K V : Type 0} where
  -- Only keys that exist have a time of expiry.
  abbrev pub IsClosed : Db K V → Type 0
  IsClosed s = (k : K) → s.dict k ≡ none → s.expires k ≡ none

  abbrev pub now : Db K V → ℤ
  now s = if s.lua_caller then s.lua_time_start else s.time

  abbrev pub is_due : Db K V → K → Bool
  is_due s k = is_late s.loading (now s) (s.expires k) && not s.is_slave

  -- What a client may see of a key: its value, and its time of expiry.
  abbrev pub live : Db K V → K → Option V
  live s k = if is_due s k then none else value_of (s.dict k)

  abbrev pub lifetime : Db K V → K → Option ℤ
  lifetime s k = if is_due s k then none else s.expires k

  -- `t` shows a client what `s` shows.
  pub record Agrees (s t : Db K V) : Type 0 where
    pub closed : IsClosed t
    pub loading : t.loading ≡ s.loading
    pub is_slave : t.is_slave ≡ s.is_slave
    pub now : now t ≡ now s
    pub time : t.time ≡ s.time
    pub live : (j : K) → live t j ≡ live s j
    pub lifetime : (j : K) → lifetime t j ≡ lifetime s j

  pub Agrees-trans : (s t u : Db K V) → Agrees s t → Agrees t u → Agrees s u
  Agrees-trans s t u p q = record {
    closed = q.closed;
    loading = q.loading ∙ p.loading;
    is_slave = q.is_slave ∙ p.is_slave;
    now = q.now ∙ p.now;
    time = q.time ∙ p.time;
    live = λ j. q.live j ∙ p.live j;
    lifetime = λ j. q.lifetime j ∙ p.lifetime j;
  }

module _ {K V : Type 0} (dec : Discrete K) where
  -- The state that `expireIfNeeded` leaves.
  unfoldable pub after_if : Bool → Db K V → K → Db K V
  after_if d s k = record s {
    dict = λ j. if d then ite (dec j k) none (s.dict j) else s.dict j;
    expires = λ j. if d then ite (dec j k) none (s.expires j) else s.expires j;
    expired_keys = if d then s.expired_keys + 1 else s.expired_keys;
    effects = if d then s.effects ++ (propagate_del k ∷ notify expired k ∷ []) else s.effects;
  }

  unfoldable pub after : Db K V → K → Db K V
  after s k = after_if (is_due s k) s k

  pub get_expire-time_of :
      (k : K) (s : Db K V) → IsClosed s → get_expire dec k s ≡ some (time_of (s.expires k), s)
  unfolding get_expire
  get_expire-time_of k s v = elim (Option-cases (s.expires k)) [
    | inl e ↦ rw (e, get_expire) refl
    | inr (t, e) ↦ elim (Option-cases (s.dict k)) [
      | inl missing ↦ absurd (ground (arith, v k))
      | inr (o, there) ↦ rw (e, there, get_expire) refl
    ]
  ]

  -- The tests of `expireIfNeeded` for a key with a time of expiry.
  by_tests :
      (never load slave past : Bool) (k : K) (s : Db K V)
      → is_some (s.dict k) ≡ true
      → ◌≡◌ {A = Option (Bool × Db K V)}
          (if never
            then some (false, s)
            else if load
            then some (false, s)
            else if slave
            then some (past, s)
            else if not past
            then some (false, s)
            else expire_key dec k s)
          (some (
            not never && not load && past,
            after_if (not never && not load && past && not slave) s k,
          ))
  unfolding expire_key db_delete after_if
  by_tests true load slave past k s there = refl
  by_tests false true slave past k s there = refl
  by_tests false false true true k s there = refl
  by_tests false false true false k s there = refl
  by_tests false false false true k s there = rw (there, expire_key, db_delete, after_if) refl
  by_tests false false false false k s there = refl

  pub expire_if_needed-after :
      (k : K) (s : Db K V)
      → IsClosed s
      → expire_if_needed dec k s ≡ some (is_late s.loading (now s) (s.expires k), after s k)
  unfolding expire_if_needed after after_if
  expire_if_needed-after k s v =
      rw (get_expire-time_of k s v, expire_if_needed, ◌>>=◌)
        (elim (Option-cases (s.expires k)) [
          | inl e ↦ rw (e, after) refl
          | inr (t, e) ↦
              rw (e, after)
                (by_tests (ltb_ℤ t (pos 0)) s.loading s.is_slave (ltb_ℤ t (now s)) k s
                  (ground (arith, v k)))
        ])

  pub after-Agrees : (k : K) (s : Db K V) → IsClosed s → Agrees s (after s k)
  unfolding after after_if
  after-Agrees k s v = elim (Bool-cases (is_due s k)) [
    | inl due ↦ record {
      closed = λ j h. ground (arith, due, v j, h);
      loading = refl;
      is_slave = refl;
      now = refl;
      time = refl;
      live = λ j. ground (arith, due, ap s.dict {x = j} {y = k}, ap s.expires {x = j} {y = k});
      lifetime = λ j. ground (arith, due, ap s.expires {x = j} {y = k});
    }
    | inr kept ↦ record {
      closed = λ j h. ground (arith, kept, v j, h);
      loading = refl;
      is_slave = refl;
      now = refl;
      time = refl;
      live = λ j. ground (arith, kept);
      lifetime = λ j. ground (arith, kept);
    }
  ]

  pub after-fresh : (s : Db K V) (k : K) → is_due (after s k) k ≡ false
  unfolding after after_if
  after-fresh s k = elim (Bool-cases (is_due s k)) [
    | inl due ↦ ground (arith, due)
    | inr kept ↦ ground (arith, kept)
  ]
