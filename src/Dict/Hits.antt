-- ===== src/Dict/Hits.antt =====
-- What a chain of redis-stable/src/dict.c has for one key: the values of its entries with that key.
use better_efisis.Prelude.{
  ◌+◌, ◌≤◌, ◌<◌, ◌≡◌, refl, Bool, true, false, Option, none, some, List, [], ◌∷◌, arith,
  if◌then◌else◌, length, drop,
}
use better_efisis.Dict.{find_in, unlink, set_val}

module _ {ℓ} {V : Type ℓ} where
  abbrev pub first : List V → Option V
  first [] = none
  first (v ∷ vs) = some v

  pub empty_of_length : (vs : List V) → length vs ≤ 0 → vs ≡ []
  empty_of_length [] h = refl
  empty_of_length (v ∷ vs) h = absurd (omega arith)

module _ {ℓ} {K V : Type ℓ} (same : K → Bool) where
  unfoldable pub hits : List (K × V) → List V
  hits [] = []
  hits ((j, v) ∷ b) = if same j then v ∷ hits b else hits b

  pub find_in-hits : (b : List (K × V)) → find_in same b ≡ first (hits b)
  unfolding find_in hits
  find_in-hits [] = refl
  find_in-hits ((j, v) ∷ b) = ground (arith, find_in-hits b)

  pub hits-unlink : (b : List (K × V)) → hits (unlink same b) ≡ drop 1 (hits b)
  unfolding unlink hits
  hits-unlink [] = refl
  hits-unlink ((j, v) ∷ b) = ground (arith, hits-unlink b)

  pub length-unlink :
      (b : List (K × V)) → 0 < length (hits b) → length (unlink same b) + 1 ≡ length b
  unfolding unlink hits
  length-unlink [] h = absurd (omega arith)
  length-unlink ((j, v) ∷ b) h = ground (arith, length-unlink b)

  pub length-hits : (b : List (K × V)) → length (hits b) ≤ length b
  unfolding hits
  length-hits [] = omega arith
  length-hits ((j, v) ∷ b) = ground (arith, length-hits b)

  pub hits-set_val :
      (w : V) (b : List (K × V))
      → 0 < length (hits b)
      → hits (set_val same w b) ≡ w ∷ drop 1 (hits b)
  unfolding set_val hits
  hits-set_val w [] h = absurd (omega arith)
  hits-set_val w ((j, v) ∷ b) h = ground (arith, hits-set_val w b)

  pub length-set_val : (w : V) (b : List (K × V)) → length (set_val same w b) ≡ length b
  unfolding set_val
  length-set_val w [] = refl
  length-set_val w ((j, v) ∷ b) = ground (arith, length-set_val w b)

-- Changes for one key do not show at another.
module _ {ℓ} {K V : Type ℓ} (same other : K → Bool)
    (apart : (j : K) → same j ≡ true → other j ≡ false) where
  pub hits-unlink_other : (b : List (K × V)) → hits other (unlink same b) ≡ hits other b
  unfolding unlink hits
  hits-unlink_other [] = refl
  hits-unlink_other ((j, v) ∷ b) = ground (arith, hits-unlink_other b, apart j)

  pub hits-set_val_other : (w : V) (b : List (K × V)) → hits other (set_val same w b) ≡ hits other b
  unfolding set_val hits
  hits-set_val_other w [] = refl
  hits-set_val_other w ((j, v) ∷ b) = ground (arith, hits-set_val_other w b, apart j)
