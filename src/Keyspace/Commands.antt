-- ===== src/Keyspace/Commands.antt =====
-- The operations of redis-stable/src/db.c as changes of what a client may see.
use mathlib.Core.Logic.{ite, if_pos}
use better_efisis.Prelude.{
  ℕ, ◌+◌, ◌≡◌, refl, true, false, not, ◌&&◌, Option, none, some, List, [], ◌∷◌, ◌++◌, arith,
}
use better_efisis.Prelude.Int.{ℤ}
use better_efisis.Keyspace.{
  Db, Object, Effect, M, ◌>>=◌, ◌>>◌, is_some, set_at, modified, db_add, db_overwrite,
  remove_expire, set_key, persist_command, cone,
}
use better_efisis.Keyspace.Lookup.{Looked, lookup_key_write-Looked}
use better_efisis.Keyspace.Closed.{IsClosed, now, is_late, is_due, value_of, live, lifetime}

module _ {K A : Type 0} (dec : Discrete K) where
  pub set_at_self : (f : K → Option A) (k : K) (o : Option A) → set_at dec f k o k ≡ o
  set_at_self f k o = if_pos (dec k k) refl _ _

module _ {K V : Type 0} (dec : Discrete K) where
  -- From `s` to `t`, a client sees another value and time of expiry for `k`, and nothing else.
  pub record Set (s t : Db K V) (k : K) (o : Option V) (e : Option ℤ) : Type 0 where
    pub closed : IsClosed t
    pub live : (j : K) → live t j ≡ ite (dec j k) o (live s j)
    pub lifetime : (j : K) → lifetime t j ≡ ite (dec j k) e (lifetime s j)

  store_object :
      (k : K) (o : Object V) (old : Option (Object V)) (u : Db K V)
      → u.dict k ≡ old
      → (elim old as (λ _. M K V (Unit {0})) [
        | none ↦ db_add dec k o
        | some _ ↦ db_overwrite dec k o
      ])
          u
        ≡ some (tt, record u { dict = set_at dec u.dict k (some o) })
  unfolding db_add db_overwrite
  store_object k o none u e = rw (e, db_add) refl
  store_object k o (some _) u e = rw (e, db_overwrite) refl

  pub remove_expire_lem :
      (k : K) (u : Db K V) {o : Object V}
      → u.dict k ≡ some o
      → remove_expire dec k u
        ≡ some (is_some (u.expires k), record u { expires = set_at dec u.expires k none })
  unfolding remove_expire
  remove_expire_lem k u e = rw (e, remove_expire) refl

  -- Writing a key after it was looked up.
  pub written :
      (s u : Db K V) (k : K) (old o : Option (Object V)) (e : Option ℤ) (n : ℕ)
      (l : List (Effect K))
      → Looked dec s k old u
      → (o ≡ none → e ≡ none)
      → is_late u.loading (now u) e && not u.is_slave ≡ false
      → Set s
          (record u {
            dict = set_at dec u.dict k o;
            expires = set_at dec u.expires k e;
            dirty = n;
            effects = l;
          })
          k
          (value_of o)
          e
  written s u k old o e n l q h fresh = record {
    closed = λ j a. ground (arith, h, q.agrees.closed j, a);
    live = λ j. ground (arith, fresh, q.agrees.live j);
    lifetime = λ j. ground (arith, fresh, q.agrees.lifetime j);
  }

  -- `setKey` fails no assertion. It gives the key the value, with no time of expiry, whatever was
  -- there, and changes no other key.
  pub set_key-Set :
      (k : K) (o : Object V) (s : Db K V)
      → IsClosed s
      → (t : Db K V) × (set_key dec k o s ≡ some (tt, t)) × Set s t k (some o.value) none
  unfolding set_key
  set_key-Set k o s v =
      let (old, u, e, l) = lookup_key_write-Looked dec k s v in
      let t = record u {
        dict = set_at dec u.dict k (some o);
        expires = set_at dec u.expires k none;
        effects = u.effects ++ (modified k ∷ []);
      } in
      (
        t,
        rw (e, set_key, ◌>>=◌)
            (rw (store_object k o old u l.here, ◌>>=◌)
              (rw
                (
                  remove_expire_lem k (record u { dict = set_at dec u.dict k (some o) })
                      (set_at_self dec u.dict k (some o)),
                  ◌>>=◌,
                )
                refl)),
        written s u k old (some o) none u.dirty (u.effects ++ (modified k ∷ [])) l (λ h. refl) refl,
      )

  -- PERSIST does not look whether the time of expiry has passed: a key that has expired, but was not
  -- deleted yet, is there for clients again, and stays for good.
  pub persist-revives :
      (k : K) (s : Db K V) (o : Object V)
      → s.dict k ≡ some o
      → is_due s k ≡ true
      → (t : Db K V) × (persist_command dec k s ≡ some (cone, t))
        × (live s k ≡ none)
        × (live t k ≡ some o.value)
        × (lifetime t k ≡ none)
  unfolding persist_command
  persist-revives k s o there due =
      let dated : is_some (s.expires k) ≡ true = ground (arith, due) in
      (
        record s { expires = set_at dec s.expires k none; dirty = s.dirty + 1 },
        rw (there, remove_expire_lem k s there, dated, persist_command, ◌>>=◌, ◌>>◌) refl,
        rw due refl,
        rw (there, set_at_self dec s.expires k none) refl,
        rw (set_at_self dec s.expires k none) refl,
      )
