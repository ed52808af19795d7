-- ===== src/Keyspace/Lifetime.antt =====
-- EXPIRE, TTL and their variants in redis-stable/src/db.c.
use mathlib.Core.Path.{subst}
use better_efisis.Prelude.{
  ℕ, ◌+◌, ◌/◌, ◌^◌, ◌<◌, ◌==◌, ◌≡◌, refl, ap, ◌∙◌, Bool, false, not, ◌&&◌, Option, none, some, List,
  [], ◌∷◌, ◌++◌, arith, if◌then◌else◌, Bool-cases, Option-cases, inl, inr,
}
use better_efisis.Prelude.Int.{ℤ, pos, negsuc, ltb_ℤ, pos_part, neg_part, InBits, ◌-ℤ◌}
use better_efisis.Keyspace.{
  Db, Object, Effect, ◌>>=◌, ◌>>◌, set_at, modified, set_expire, delete_past, set_deadline,
  expire_at, db_delete, Reply, cone, integer, rewrite_del, notify, del, expire,
}
use better_efisis.Keyspace.Lookup.{Looked, lookup_key_read-Looked}
use better_efisis.Keyspace.Closed.{IsClosed, now, is_late, live, lifetime}
use better_efisis.Keyspace.Commands.{Set, written}

-- What TTL or PTTL replies.
abbrev pub remaining : {V : Type 0} → Bool → ℤ → Option V → Option ℤ → Reply
remaining output_ms time none e = integer (negsuc 1)
remaining output_ms time (some x) none = integer (negsuc 0)
remaining output_ms time (some x) (some t) =
    let left = pos_part (t -ℤ time) in
    if pos_part t == 0 && neg_part t == 1
    then integer (negsuc 0)
    else integer (pos (if output_ms then left else (left + 500) / 1000))

-- The time that is left, and 500 ms more, which TTL adds to round, fit into a `long long`.
abbrev pub FitsTtl : ℤ → Option ℤ → Type 0
FitsTtl time none = Unit {0}
FitsTtl time (some t) = InBits 64 (t -ℤ time) × (pos_part (t -ℤ time) + 500 < 2 ^ 63)

module _ {K V : Type 0} where
  -- Whether EXPIRE deletes the key at once.
  abbrev pub deletes : Db K V → ℤ → Bool
  deletes s t = not (ltb_ℤ s.time t) && not s.loading && not s.is_slave

module _ {K V : Type 0} (dec : Discrete K) where
  delete_past_lem :
      (k : K) (u : Db K V) {o : Object V}
      → u.dict k ≡ some o
      → delete_past dec k u
        ≡ some (
          cone,
          record u {
            dict = set_at dec u.dict k none;
            expires = set_at dec u.expires k none;
            dirty = u.dirty + 1;
            effects = u.effects ++ (rewrite_del k ∷ modified k ∷ notify del k ∷ []);
          },
        )
  unfolding delete_past db_delete
  delete_past_lem k u e = rw (e, delete_past, db_delete) refl

  set_deadline_lem :
      (k : K) (t : ℤ) (u : Db K V) {o : Object V}
      → u.dict k ≡ some o
      → set_deadline dec k t u
        ≡ some (
          cone,
          record u {
            dict = u.dict;
            expires = set_at dec u.expires k (some t);
            dirty = u.dirty + 1;
            effects = u.effects ++ (modified k ∷ notify expire k ∷ []);
          },
        )
  unfolding set_deadline set_expire
  set_deadline_lem k t u e = rw (e, set_deadline, set_expire, ◌>>=◌, ◌>>◌) refl

  -- Writing only the time of expiry of a key that was looked up.
  dated :
      (s u : Db K V) (k : K) (o : Object V) (t : ℤ) (x : V) (n : ℕ) (l : List (Effect K))
      → Looked dec s k (some o) u
      → some o.value ≡ some x
      → is_late u.loading (now u) (some t) && not u.is_slave ≡ false
      → Set dec s
          (record u { expires = set_at dec u.expires k (some t); dirty = n; effects = l })
          k
          (some x)
          (some t)
  dated s u k o t x n l q same fresh = record {
    closed = λ j a. ground (arith, q.here, q.agrees.closed j, a, ap u.dict {x = j} {y = k});
    live = λ j. ground (arith, fresh, same, q.here, q.agrees.live j, ap u.dict {x = j} {y = k});
    lifetime = λ j. ground (arith, fresh, q.agrees.lifetime j);
  }

  -- Where the key is there, EXPIRE fails no assertion. A time that lies in the past deletes the key,
  -- except on a slave and while loading; any other becomes its time of expiry.
  pub expire_at-Set :
      (k : K) (t : ℤ) (s : Db K V) (x : V)
      → IsClosed s
      → live s k ≡ some x
      → now s ≡ s.time
      → (u : Db K V) × (expire_at dec k t s ≡ some (cone, u))
        × Set dec s u k
            (if deletes s t then none else some x)
            (if deletes s t then none else some t)
  unfolding expire_at
  expire_at-Set k t s x v there clock =
      let (old, u, e, l) = lookup_key_read-Looked dec k s v in
      elim (Option-cases old) [
        | inl missing ↦ absurd (ground (arith, missing, l.found, there))
        | inr (o, found) ↦
            let l' : Looked dec s k (some o) u = subst (λ a. Looked dec s k a u) found l in
            let same : deletes u t ≡ deletes s t =
              ground (arith, l.agrees.time, l.agrees.loading, l.agrees.is_slave) in
            elim (Bool-cases (deletes s t)) [
              | inl past ↦ (
                record u {
                  dict = set_at dec u.dict k none;
                  expires = set_at dec u.expires k none;
                  dirty = u.dirty + 1;
                  effects = u.effects ++ (rewrite_del k ∷ modified k ∷ notify del k ∷ []);
                },
                rw (e, found, same, past, expire_at, ◌>>=◌) (delete_past_lem k u l'.here),
                rw past (written dec s u k (some o) none none (u.dirty + 1) _ l' (λ h. refl) refl),
              )
              | inr later ↦ (
                record u {
                  dict = u.dict;
                  expires = set_at dec u.expires k (some t);
                  dirty = u.dirty + 1;
                  effects = u.effects ++ (modified k ∷ notify expire k ∷ []);
                },
                rw (e, found, same, later, expire_at, ◌>>=◌) (set_deadline_lem k t u l'.here),
                rw later (
                    dated s u k o t x (u.dirty + 1)
                      (u.effects ++ (modified k ∷ notify expire k ∷ [])) l' (l'.found ∙ there)
                      (ground
                        (arith, later, clock, l.agrees.now, l.agrees.loading, l.agrees.is_slave))),
              )
            ]
      ]
