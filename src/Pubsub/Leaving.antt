-- ===== src/Pubsub/Leaving.antt =====
-- `pubsubUnsubscribeAllChannels` of redis-stable/src/pubsub.c.
use better_efisis.Prelude.{
  ℕ, suc, ◌+◌, ◌≡◌, refl, ap, ◌∙◌, Bool, ◌&&◌, some, List, [], ◌∷◌, ◌++◌, arith, if◌then◌else◌,
  ◌==◌, length,
}
use better_efisis.Multi.Watching.{times, occurs}
use better_efisis.Pubsub.{
  Pubsub, Notice, unsubscribe_channels, unsubscribe_all_channels, unsubscribe_null, subscriptions,
}
use better_efisis.Pubsub.Subscribed.{IsAgreed, unsubscribe_channel-Set}

module _ {K P : Type 0} (dec : Discrete K) (dec_p : Discrete P) where
  -- The tables of `t` agree. It has no channel for client `c`, all else is as in `s`.
  pub record HasLeft (s t : Pubsub K P) (c : ℕ) : Type 0 where
    pub agreed : IsAgreed dec dec_p t
    pub channels :
        (i : ℕ) (j : K)
        → times i (t.subscribers j) ≡ (if i == c then 0 else times i (s.subscribers j))
    pub patterns : t.pattern_list ≡ s.pattern_list

  module _ (M : Type 0) where
    unsubscribe_channels-HasLeft :
        (ks : List K) (s : Pubsub K P) (c : ℕ) (notify : Bool)
        → IsAgreed dec dec_p s
        → ((j : K) → occurs dec j ks ≡ times c (s.subscribers j))
        → (t : Pubsub K P) × (r : List (Notice K P M)) × (unsubscribe_channels dec s c ks notify
            ≡ some (t, length ks, r))
          × HasLeft s t c
    unfolding unsubscribe_channels occurs
    unsubscribe_channels-HasLeft [] s c notify v h =
        (s, [], refl, record { agreed = v; channels = λ i j. ground (arith, h j); patterns = refl })
    unsubscribe_channels-HasLeft (k ∷ ks) s c notify v h =
        let (t, r, e, f) = unsubscribe_channel-Set dec dec_p M s c k notify v in
        let one_more : 1 + length ks ≡ suc (length ks) = omega arith in
        let once : times c (s.subscribers k) ≡ 1 = ground (arith, h k, v.channels_once c k) in
        let (u, r', e', g) =
          unsubscribe_channels-HasLeft ks t c notify f.agreed
            (λ j. ground (arith, h j, h k, v.channels_once c k, f.channels c j)) in
        (
          u,
          r ++ r',
          rw (e, e', once, unsubscribe_channels) (ap (λ n. some (u, n, r ++ r')) one_more),
          record {
            agreed = g.agreed;
            channels = λ i j. ground (arith, g.channels i j, f.channels i j);
            patterns = g.patterns ∙ f.patterns;
          },
        )

    -- Where the tables agree, unsubscribing from all channels fails no assertion, takes the client
    -- off every channel and changes nothing else; the tables agree afterwards, and the result is the
    -- number of the client's channels.
    pub unsubscribe_all_channels-HasLeft :
        (s : Pubsub K P) (c : ℕ) (notify : Bool)
        → IsAgreed dec dec_p s
        → (t : Pubsub K P) × (r : List (Notice K P M)) × (unsubscribe_all_channels dec s c notify
            ≡ some (t, length (s.channels c), r))
          × HasLeft s t c
    unfolding unsubscribe_all_channels
    unsubscribe_all_channels-HasLeft s c notify v =
        let (t, r, e, f) =
          unsubscribe_channels-HasLeft (s.channels c) s c notify v (v.channels c) in
        (
          t,
          if notify && length (s.channels c) == 0
              then r ++ (unsubscribe_null (subscriptions t c) ∷ [])
              else r,
          rw (e, unsubscribe_all_channels) refl,
          f,
        )
