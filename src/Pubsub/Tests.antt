-- ===== src/Pubsub/Tests.antt =====
-- Clients 7 and 8 of redis-stable/src/pubsub.c. Channels and patterns are numbers, and a pattern
-- matches what is not below it.
use native.Mathlib.Decide.{ℕ_discrete}
use better_efisis.Prelude.{
  ℕ, ◌≡◌, true, refl, some, List, [], ◌∷◌, arith, leb, if◌then◌else◌, length,
}
use better_efisis.Multi.Watching.{times, occurs}
use better_efisis.Multi.{is_watched}
use better_efisis.Pubsub.{
  Pubsub, Notice, subscribe_channel, unsubscribe_channel, unsubscribe_all_channels,
  subscribe_pattern, publish, to_subscribers, to_patterns, message, pmessage,
}
use better_efisis.Pubsub.Subscribed.{
  listed, IsAgreed, ChannelSet, subscribe_channel-Set, unsubscribe_channel-Set,
}
use better_efisis.Pubsub.Leaving.{HasLeft, unsubscribe_all_channels-HasLeft}
use better_efisis.Pubsub.Patterns.{subscribe_pattern-Set}
use better_efisis.Pubsub.Publish.{messages, pmessages, publish-Delivered}

abbrev nobody : Pubsub ℕ ℕ
nobody = record { channels = λ c. []; subscribers = λ k. []; patterns = λ c. []; pattern_list = [] }

nobody-IsAgreed : IsAgreed ℕ_discrete ℕ_discrete nobody
unfolding occurs times listed
nobody-IsAgreed = record {
  channels = λ c k. refl;
  channels_once = λ c k. omega arith;
  patterns = λ c p. refl;
  patterns_once = λ c p. omega arith;
}

-- Client 7 has channel 5, then also pattern 2.
abbrev one_channel : Pubsub ℕ ℕ
one_channel = (subscribe_channel {M = ℕ} ℕ_discrete nobody 7 5).0

one_channel-IsAgreed : IsAgreed ℕ_discrete ℕ_discrete one_channel
one_channel-IsAgreed =
    (subscribe_channel-Set ℕ_discrete ℕ_discrete ℕ nobody 7 5 nobody-IsAgreed).0.agreed

abbrev with_pattern : Pubsub ℕ ℕ
with_pattern = (subscribe_pattern {M = ℕ} ℕ_discrete one_channel 7 2).0

with_pattern-IsAgreed : IsAgreed ℕ_discrete ℕ_discrete with_pattern
with_pattern-IsAgreed =
    (subscribe_pattern-Set ℕ_discrete ℕ_discrete ℕ one_channel 7 2 one_channel-IsAgreed).0.agreed

sends :
    publish {M = ℕ} leb with_pattern 5 100 ≡ ((7, message 5 100) ∷ (7, pmessage 2 5 100) ∷ [], 2)
unfolding publish to_subscribers to_patterns subscribe_channel subscribe_pattern is_watched
    ℕ_discrete
sends = refl

unsubscribe_channel-Set_example :
    (t : Pubsub ℕ ℕ) × (r : List (Notice ℕ ℕ ℕ)) × (unsubscribe_channel ℕ_discrete with_pattern 7 5
        true
      ≡ some (t, times 7 (with_pattern.subscribers 5), r))
    × ChannelSet ℕ_discrete ℕ_discrete with_pattern t 7 5 0
unsubscribe_channel-Set_example =
    unsubscribe_channel-Set ℕ_discrete ℕ_discrete ℕ with_pattern 7 5 true with_pattern-IsAgreed

publish-Delivered_example :
    (messages {M = ℕ} ℕ_discrete 7 (publish {M = ℕ} leb with_pattern 5 100).0
      ≡ occurs ℕ_discrete 5 (with_pattern.channels 7))
    × (pmessages {M = ℕ} ℕ_discrete 7 2 (publish {M = ℕ} leb with_pattern 5 100).0
        ≡ (if leb 2 5 then occurs ℕ_discrete 2 (with_pattern.patterns 7) else 0))
    × ((publish {M = ℕ} leb with_pattern 5 100).1
        ≡ length (publish {M = ℕ} leb with_pattern 5 100).0)
publish-Delivered_example =
    publish-Delivered ℕ_discrete ℕ_discrete leb with_pattern 5 100 7 2 with_pattern-IsAgreed

unsubscribe_all_channels-HasLeft_example :
    (t : Pubsub ℕ ℕ) × (r : List (Notice ℕ ℕ ℕ)) × (unsubscribe_all_channels ℕ_discrete with_pattern
        7 true
      ≡ some (t, length (with_pattern.channels 7), r))
    × HasLeft ℕ_discrete ℕ_discrete with_pattern t 7
unsubscribe_all_channels-HasLeft_example =
    unsubscribe_all_channels-HasLeft ℕ_discrete ℕ_discrete ℕ with_pattern 7 true
      with_pattern-IsAgreed
