-- ===== src/Pubsub/Subscribed.antt =====
-- The clients' tables and the server's tables of redis-stable/src/pubsub.c say the same.
use mathlib.Core.Logic.{ite}
use better_efisis.Prelude.{
  ℕ, ◌+◌, ◌-◌, ◌≤◌, ◌<◌, ◌≡◌, refl, Bool, true, false, ◌&&◌, some, List, [], ◌∷◌, ◌++◌, arith,
  if◌then◌else◌, ◌==◌, Bool-cases, inl, inr,
}
use better_efisis.Multi.{is_watched, set_watchers}
use better_efisis.Multi.Watching.{
  times, times-append, delete_node-times, occurs, occurs-append, is_watched-occurs,
}
use better_efisis.Pubsub.{
  Pubsub, Notice, drop_key, drop_pattern, subscribe_channel, unsubscribe_channel, reply_if,
  unsubscribe, subscriptions, set_at,
}

module _ {A : Type 0} (dec : Discrete A) where
  -- How often a client stands in the server's list with a pattern.
  unfoldable pub listed : ℕ → A → List (ℕ × A) → ℕ
  listed c p [] = 0
  listed c p ((d, q) ∷ ps) = (if d == c then ite (dec p q) 1 0 else 0) + listed c p ps

  pub listed-append :
      (c : ℕ) (p : A) (xs ys : List (ℕ × A)) → listed c p (xs ++ ys) ≡ listed c p xs + listed c p ys
  unfolding listed
  listed-append c p [] ys = omega arith
  listed-append c p ((d, q) ∷ xs) ys = omega (arith, listed-append c p xs ys)

  pub occurs-drop_key :
      (k j : A) (ks : List A)
      → occurs dec j (drop_key dec k ks) + (if is_watched dec k ks then ite (dec j k) 1 0 else 0)
        ≡ occurs dec j ks
  unfolding occurs drop_key is_watched
  occurs-drop_key k j [] = ground arith
  occurs-drop_key k j (x ∷ xs) = ground (arith, occurs-drop_key k j xs)

  pub drop_pattern-listed :
      (c : ℕ) (p : A) (l : List (ℕ × A))
      → 0 < listed c p l
      → (l' : List (ℕ × A)) × (drop_pattern dec c p l ≡ some l')
        × ((i : ℕ) (q : A)
            → listed i q l' + (if i == c then ite (dec q p) 1 0 else 0) ≡ listed i q l)
  unfolding drop_pattern listed
  drop_pattern-listed c p [] h = absurd (omega arith)
  drop_pattern-listed c p ((d, x) ∷ xs) h = elim (Bool-cases (d == c && ite (dec p x) true false)) [
    | inl here ↦ (xs, rw here, λ i q. ground arith)
    | inr later ↦
        let (ys, e, f) = drop_pattern-listed c p xs (ground arith) in
        ((d, x) ∷ ys, rw (later, e), λ i q. ground (arith, f i q))
  ]

module _ {K P : Type 0} (dec : Discrete K) (dec_p : Discrete P) where
  -- A channel or a pattern stands in a client's table exactly if the client stands in the server's
  -- table for it, and once.
  pub record IsAgreed (s : Pubsub K P) : Type 0 where
    pub channels : (c : ℕ) (k : K) → occurs dec k (s.channels c) ≡ times c (s.subscribers k)
    pub channels_once : (c : ℕ) (k : K) → times c (s.subscribers k) ≤ 1
    pub patterns : (c : ℕ) (p : P) → occurs dec_p p (s.patterns c) ≡ listed dec_p c p s.pattern_list
    pub patterns_once : (c : ℕ) (p : P) → listed dec_p c p s.pattern_list ≤ 1

  -- The tables of `t` agree. It has `n` for client `c` and channel `k`, all else is as in `s`.
  pub record ChannelSet (s t : Pubsub K P) (c : ℕ) (k : K) (n : ℕ) : Type 0 where
    pub agreed : IsAgreed t
    pub channels :
        (i : ℕ) (j : K)
        → times i (t.subscribers j) ≡ (
            if i == c
            then ite (dec j k) n (times i (s.subscribers j))
            else times i (s.subscribers j))
    pub patterns : t.pattern_list ≡ s.pattern_list

  pub record PatternSet (s t : Pubsub K P) (c : ℕ) (p : P) (n : ℕ) : Type 0 where
    pub agreed : IsAgreed t
    pub patterns :
        (i : ℕ) (q : P)
        → listed dec_p i q t.pattern_list ≡ (
            if i == c
            then ite (dec_p q p) n (listed dec_p i q s.pattern_list)
            else listed dec_p i q s.pattern_list)
    pub channels : (j : K) → t.subscribers j ≡ s.subscribers j

  module _ (M : Type 0) where
    -- Where the tables agree, subscribing to a channel adds the client to it and nothing else; the
    -- result is 1 if it was not there.
    pub subscribe_channel-Set :
        (s : Pubsub K P) (c : ℕ) (k : K)
        → IsAgreed s
        → ChannelSet s (subscribe_channel {M = M} dec s c k).0 c k 1
          × ((subscribe_channel {M = M} dec s c k).1 ≡ 1 - times c (s.subscribers k))
    unfolding subscribe_channel occurs times
    subscribe_channel-Set s c k v =
        let member = is_watched-occurs dec k (s.channels c) in
        elim (Bool-cases (is_watched dec k (s.channels c))) [
          | inl old ↦
              rw (old, subscribe_channel)
                (
                  record {
                    agreed = v;
                    channels =
                        λ i j. ground (arith, member, old, v.channels c k, v.channels_once c k);
                    patterns = refl;
                  },
                  ground (arith, member, old, v.channels c k, v.channels_once c k),
                )
          | inr new ↦
              rw (new, subscribe_channel)
                (
                  record {
                    agreed = record {
                      channels = λ i j. ground (
                        arith,
                        v.channels i j,
                        occurs-append dec j (s.channels c) (k ∷ []),
                        times-append i (s.subscribers k) (c ∷ []),
                      );
                      channels_once = λ i j. ground (
                        arith,
                        member,
                        new,
                        v.channels c k,
                        v.channels_once i j,
                        times-append i (s.subscribers k) (c ∷ []),
                      );
                      patterns = v.patterns;
                      patterns_once = v.patterns_once;
                    };
                    channels = λ i j. ground (
                      arith,
                      member,
                      new,
                      v.channels c k,
                      times-append i (s.subscribers k) (c ∷ []),
                    );
                    patterns = refl;
                  },
                  ground (arith, member, new, v.channels c k),
                )
        ]

    -- Where the tables agree, unsubscribing from a channel fails no assertion, removes the client
    -- from it and changes nothing else; the result is 1 if it was there.
    pub unsubscribe_channel-Set :
        (s : Pubsub K P) (c : ℕ) (k : K) (notify : Bool)
        → IsAgreed s
        → (t : Pubsub K P) × (r : List (Notice K P M)) × (unsubscribe_channel dec s c k notify
            ≡ some (t, times c (s.subscribers k), r))
          × ChannelSet s t c k 0
    unfolding unsubscribe_channel occurs times
    unsubscribe_channel-Set s c k notify v =
        let member = is_watched-occurs dec k (s.channels c) in
        elim (Bool-cases (is_watched dec k (s.channels c))) [
          | inl old ↦
              let once : times c (s.subscribers k) ≡ 1 =
                ground (arith, member, old, v.channels c k, v.channels_once c k) in
              let (l, e, left) = delete_node-times c (s.subscribers k) (omega arith) in
              let t = record s {
                channels = set_at s.channels c (drop_key dec k (s.channels c));
                subscribers = set_watchers dec s.subscribers k l;
              } in
              (
                t,
                reply_if {P = P} dec notify (unsubscribe k (subscriptions t c)),
                rw (old, e, once, unsubscribe_channel) refl,
                record {
                  agreed = record {
                    channels = λ i j. ground (
                      arith,
                      old,
                      v.channels i j,
                      occurs-drop_key dec k j (s.channels c),
                      left i,
                    );
                    channels_once = λ i j. ground (arith, v.channels_once i j, left i);
                    patterns = v.patterns;
                    patterns_once = v.patterns_once;
                  };
                  channels = λ i j. ground (arith, once, left i);
                  patterns = refl;
                },
              )
          | inr new ↦
              let absent : times c (s.subscribers k) ≡ 0 =
                ground (arith, member, new, v.channels c k) in
              (
                s,
                reply_if {P = P} dec notify (unsubscribe k (subscriptions s c)),
                rw (new, absent, unsubscribe_channel) refl,
                record { agreed = v; channels = λ i j. ground (arith, absent); patterns = refl },
              )
        ]
