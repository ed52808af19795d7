-- ===== src/Keyspace/Lookup.antt =====
-- `lookupKey`, `lookupKeyRead` and `lookupKeyWrite` of redis-stable/src/db.c.
use mathlib.Core.Logic.{ite, if_pos, if_neg}
use better_efisis.Prelude.{
  ℕ, ◌+◌, ◌≡◌, refl, sym, ap, ◌∙◌, Bool, true, false, Option, none, some, arith, if◌then◌else◌,
  Option-cases, inl, inr,
}
use better_efisis.Keyspace.{
  Db, Object, ◌>>=◌, is_some, set_at, lookup_key, expire_if_needed, lookup_key_read,
  lookup_key_write,
}
use better_efisis.Keyspace.Closed.{
  IsClosed, is_due, value_of, live, after, expire_if_needed-after, >>=-some, Agrees, Agrees-trans,
  after-Agrees, after-fresh,
}

module _ {K V : Type 0} (dec : Discrete K) where
  -- An object that is looked up gets a new access time, unless a child process saves.
  abbrev pub seen : Db K V → Option (Object V) → Option (Object V)
  seen s none = none
  seen s (some o) = some (if s.saving then o else record o { lru = s.lruclock })

  unfoldable pub touched : Db K V → K → Db K V
  touched s k = record s {
    dict = elim (s.dict k) [ none ↦ s.dict | some o ↦ set_at dec s.dict k (seen s (some o)) ];
  }

  pub lookup_key-touched :
      (k : K) (s : Db K V) → lookup_key dec k s ≡ some (seen s (s.dict k), touched s k)
  unfolding lookup_key touched
  lookup_key-touched k s = elim (Option-cases (s.dict k)) [
    | inl e ↦ rw (e, lookup_key, touched) refl
    | inr (o, e) ↦ rw (e, lookup_key, touched) refl
  ]

  touched-dict :
      (s : Db K V) (k j : K) → (touched s k).dict j ≡ ite (dec j k) (seen s (s.dict k)) (s.dict j)
  unfolding touched
  touched-dict s k j = elim (Option-cases (s.dict k)) [
    | inl e ↦ rw (e, touched) (ground (arith, e, ap s.dict {x = j} {y = k}))
    | inr (o, e) ↦ rw (e, touched) refl
  ]

  -- A lookup of `k` in `s` that found `o` and left `t`.
  pub record Looked (s : Db K V) (k : K) (o : Option (Object V)) (t : Db K V) : Type 0 where
    pub agrees : Agrees s t
    pub found : value_of o ≡ live s k
    pub here : t.dict k ≡ o
    pub fresh : is_due t k ≡ false

  value_of-seen : (s : Db K V) (o : Option (Object V)) → value_of (seen s o) ≡ value_of o
  value_of-seen s none = refl
  value_of-seen s (some o) = ground arith

  none_of_value : (o : Option (Object V)) → value_of o ≡ none → o ≡ none
  none_of_value none h = refl
  none_of_value (some o) h = cc

  touched-value : (s : Db K V) (k j : K) → value_of ((touched s k).dict j) ≡ value_of (s.dict j)
  touched-value s k j = elim (dec j k) [
    | yes same ↦
        ap value_of (touched-dict s k j ∙ if_pos (dec j k) same _ _)
        ∙ value_of-seen s (s.dict k)
        ∙ ap (λ i. value_of (s.dict i)) (sym same)
    | no ne ↦ ap value_of (touched-dict s k j ∙ if_neg (dec j k) ne _ _)
  ]

  touched-Agrees : (k : K) (s : Db K V) → IsClosed s → Agrees s (touched s k)
  unfolding touched
  touched-Agrees k s v = record {
    closed = λ j h. v j (none_of_value (s.dict j) (sym (touched-value s k j) ∙ ap value_of h));
    loading = refl;
    is_slave = refl;
    now = refl;
    time = refl;
    live = λ j. rw (touched-value s k j) refl;
    lifetime = λ j. refl;
  }

  is_due-touched : (s : Db K V) (k : K) → is_due (touched s k) k ≡ is_due s k
  unfolding touched
  is_due-touched s k = refl

  pub lookup-Looked :
      (k : K) (s : Db K V)
      → IsClosed s
      → Looked s k (seen (after dec s k) ((after dec s k).dict k)) (touched (after dec s k) k)
  lookup-Looked k s v =
      let u = after dec s k in
      let a = after-Agrees dec k s v in
      record {
        agrees = Agrees-trans s u (touched u k) a (touched-Agrees k u a.closed);
        found =
            value_of-seen u (u.dict k)
            ∙ sym (ap (λ b. if b then none else value_of (u.dict k)) (after-fresh dec s k))
            ∙ a.live k;
        here = touched-dict u k k ∙ if_pos (dec k k) refl _ _;
        fresh = is_due-touched u k ∙ after-fresh dec s k;
      }

  -- `lookupKeyWrite`, and `lookupKeyRead` up to its statistics.
  pub lookup_key_write-Looked :
      (k : K) (s : Db K V)
      → IsClosed s
      → (o : Option (Object V)) × (t : Db K V) × (lookup_key_write dec k s ≡ some (o, t))
        × Looked s k o t
  unfolding lookup_key_write
  lookup_key_write-Looked k s v = (
    seen (after dec s k) ((after dec s k).dict k),
    touched (after dec s k) k,
    >>=-some (expire_if_needed dec k) (λ _. lookup_key dec k) (expire_if_needed-after dec k s v)
        ∙ lookup_key-touched k (after dec s k),
    lookup-Looked k s v,
  )

  counted :
      (b : Bool) (u : Db K V)
      → (if b then record u { hits = u.hits + 1 } else record u { misses = u.misses + 1 })
        ≡ record u {
          hits = if b then u.hits + 1 else u.hits;
          misses = if b then u.misses else u.misses + 1;
        }
  counted true u = refl
  counted false u = refl

  recounted :
      (s u : Db K V) (k : K) (o : Option (Object V)) (h m : ℕ)
      → Looked s k o u
      → Looked s k o (record u { hits = h; misses = m })
  recounted s u k o h m l = record {
    agrees = record {
      closed = l.agrees.closed;
      loading = l.agrees.loading;
      is_slave = l.agrees.is_slave;
      now = l.agrees.now;
      time = l.agrees.time;
      live = l.agrees.live;
      lifetime = l.agrees.lifetime;
    };
    found = l.found;
    here = l.here;
    fresh = l.fresh;
  }

  pub lookup_key_read-Looked :
      (k : K) (s : Db K V)
      → IsClosed s
      → (o : Option (Object V)) × (t : Db K V) × (lookup_key_read dec k s ≡ some (o, t))
        × Looked s k o t
  unfolding lookup_key_read
  lookup_key_read-Looked k s v =
      let u = touched (after dec s k) k in
      let o = seen (after dec s k) ((after dec s k).dict k) in
      let l = lookup-Looked k s v in
      (
        o,
        record u {
          hits = if is_some o then u.hits + 1 else u.hits;
          misses = if is_some o then u.misses else u.misses + 1;
        },
        rw (expire_if_needed-after dec k s v, lookup_key_read, ◌>>=◌)
            (rw (lookup_key-touched k (after dec s k), ◌>>=◌)
              (ap (λ w. some (o, w)) (counted (is_some o) u))),
        recounted s u k o _ _ l,
      )
