-- ===== src/Pubsub/Patterns.antt =====
-- Subscribing to a pattern and unsubscribing from it in redis-stable/src/pubsub.c.
use better_efisis.Prelude.{
  ℕ, ◌-◌, ◌≡◌, refl, Bool, some, List, [], ◌∷◌, arith, if◌then◌else◌, Bool-cases, inl, inr,
}
use better_efisis.Multi.{is_watched}
use better_efisis.Multi.Watching.{occurs, occurs-append, is_watched-occurs}
use better_efisis.Pubsub.{
  Pubsub, Notice, drop_key, subscribe_pattern, unsubscribe_pattern, subscriptions, set_at,
}
use better_efisis.Pubsub.{punsubscribe}
use better_efisis.Pubsub.Subscribed.{
  listed, listed-append, occurs-drop_key, drop_pattern-listed, IsAgreed, PatternSet,
}

module _ {K P : Type 0} (dec : Discrete K) (dec_p : Discrete P) (M : Type 0) where
  -- Where the tables agree, subscribing to a pattern adds the client to it and nothing else; the
  -- result is 1 if it was not there.
  pub subscribe_pattern-Set :
      (s : Pubsub K P) (c : ℕ) (p : P)
      → IsAgreed dec dec_p s
      → PatternSet dec dec_p s (subscribe_pattern {M = M} dec_p s c p).0 c p 1
        × ((subscribe_pattern {M = M} dec_p s c p).1 ≡ 1 - listed dec_p c p s.pattern_list)
  unfolding subscribe_pattern occurs listed
  subscribe_pattern-Set s c p v =
      let member = is_watched-occurs dec_p p (s.patterns c) in
      elim (Bool-cases (is_watched dec_p p (s.patterns c))) [
        | inl old ↦
            rw (old, subscribe_pattern)
              (
                record {
                  agreed = v;
                  patterns =
                      λ i q. ground (arith, member, old, v.patterns c p, v.patterns_once c p);
                  channels = λ j. refl;
                },
                ground (arith, member, old, v.patterns c p, v.patterns_once c p),
              )
        | inr new ↦
            rw (new, subscribe_pattern)
              (
                record {
                  agreed = record {
                    channels = v.channels;
                    channels_once = v.channels_once;
                    patterns = λ i q. ground (
                      arith,
                      v.patterns i q,
                      occurs-append dec_p q (s.patterns c) (p ∷ []),
                      listed-append dec_p i q s.pattern_list ((c, p) ∷ []),
                    );
                    patterns_once = λ i q. ground (
                      arith,
                      member,
                      new,
                      v.patterns c p,
                      v.patterns_once i q,
                      listed-append dec_p i q s.pattern_list ((c, p) ∷ []),
                    );
                  };
                  patterns = λ i q. ground (
                    arith,
                    member,
                    new,
                    v.patterns c p,
                    listed-append dec_p i q s.pattern_list ((c, p) ∷ []),
                  );
                  channels = λ j. refl;
                },
                ground (arith, member, new, v.patterns c p),
              )
      ]

  -- Where the tables agree, unsubscribing from a pattern finds the server's node if the client has
  -- the pattern, removes the client from it and changes nothing else; the result is 1 if it was there.
  pub unsubscribe_pattern-Set :
      (s : Pubsub K P) (c : ℕ) (p : P) (notify : Bool)
      → IsAgreed dec dec_p s
      → (t : Pubsub K P) × (r : List (Notice K P M)) × (unsubscribe_pattern dec_p s c p notify
          ≡ some (t, listed dec_p c p s.pattern_list, r))
        × PatternSet dec dec_p s t c p 0
  unfolding unsubscribe_pattern occurs
  unsubscribe_pattern-Set s c p notify v =
      let member = is_watched-occurs dec_p p (s.patterns c) in
      elim (Bool-cases (is_watched dec_p p (s.patterns c))) [
        | inl old ↦
            let once : listed dec_p c p s.pattern_list ≡ 1 =
              ground (arith, member, old, v.patterns c p, v.patterns_once c p) in
            let (l, e, left) = drop_pattern-listed dec_p c p s.pattern_list (omega arith) in
            let t = record s {
              patterns = set_at s.patterns c (drop_key dec_p p (s.patterns c));
              pattern_list = l;
            } in
            (
              t,
              if notify then punsubscribe p (subscriptions t c) ∷ [] else [],
              rw (old, e, once, unsubscribe_pattern) refl,
              record {
                agreed = record {
                  channels = v.channels;
                  channels_once = v.channels_once;
                  patterns = λ i q. ground (
                    arith,
                    old,
                    v.patterns i q,
                    occurs-drop_key dec_p p q (s.patterns c),
                    left i q,
                  );
                  patterns_once = λ i q. ground (arith, v.patterns_once i q, left i q);
                };
                patterns = λ i q. ground (arith, once, left i q);
                channels = λ j. refl;
              },
            )
        | inr new ↦
            let absent : listed dec_p c p s.pattern_list ≡ 0 =
              ground (arith, member, new, v.patterns c p) in
            (
              s,
              if notify then punsubscribe p (subscriptions s c) ∷ [] else [],
              rw (new, absent, unsubscribe_pattern) refl,
              record { agreed = v; patterns = λ i q. ground (arith, absent); channels = λ j. refl },
            )
      ]
