-- ===== src/Pubsub.antt =====
-- redis-stable/src/pubsub.c: who is subscribed to which channels and patterns, and publishing. `K` is
-- a channel and `P` a pattern; `matches` is `stringmatchlen` of redis-stable/src/util.c.
pub mod Subscribed
pub mod Leaving
pub mod Patterns
pub mod Publish
mod Tests
use mathlib.Core.Logic.{ite}
use better_efisis.Prelude.{
  ℕ, zero, suc, ◌+◌, Bool, true, false, ◌&&◌, Option, none, some, List, [], ◌∷◌, ◌++◌, ◌==◌,
  if◌then◌else◌, length,
}
use better_efisis.Multi.{delete_node, is_watched, set_watchers}

-- What a client is sent, with the number of its subscriptions or the message.
pub data Notice (K P M : Type 0) : Type 0 where
  subscribe : K → ℕ → Notice K P M
  unsubscribe : K → ℕ → Notice K P M
  psubscribe : P → ℕ → Notice K P M
  punsubscribe : P → ℕ → Notice K P M
  -- The reply to a client that unsubscribes from all channels and has none.
  unsubscribe_null : ℕ → Notice K P M
  message : K → M → Notice K P M
  pmessage : P → K → M → Notice K P M

-- The clients' `pubsub_channels` and `pubsub_patterns` by the client's number, and the server's. A
-- channel without clients is not in the server's table, which the empty list says.
pub record Pubsub (K P : Type 0) : Type 0 where
  pub channels : ℕ → List K
  pub subscribers : K → List ℕ
  pub patterns : ℕ → List P
  pub pattern_list : List (ℕ × P)

module _ {A : Type 0} where
  abbrev pub set_at : (ℕ → A) → ℕ → A → ℕ → A
  set_at f c x = λ i. if i == c then x else f i

module _ {A : Type 0} (dec : Discrete A) where
  -- `dictDelete` from a client's table, `listDelNode` from its list.
  unfoldable pub drop_key : A → List A → List A
  drop_key k [] = []
  drop_key k (j ∷ js) = ite (dec k j) js (j ∷ drop_key k js)

  -- `listSearchKey` with `listMatchPubsubPattern`, and `listDelNode`; none if it is not there.
  unfoldable pub drop_pattern : ℕ → A → List (ℕ × A) → Option (List (ℕ × A))
  drop_pattern c p [] = none
  drop_pattern c p ((d, q) ∷ ps) =
      let rest = drop_pattern c p ps in
      if d == c && ite (dec p q) true false
      then some ps
      else elim rest [ none ↦ none | some qs ↦ some ((d, q) ∷ qs) ]

module _ {K P : Type 0} where
  -- `dictSize(c->pubsub_channels)+listLength(c->pubsub_patterns)`
  unfoldable pub subscriptions : Pubsub K P → ℕ → ℕ
  subscriptions s c = length (s.channels c) + length (s.patterns c)

module _ {K P M : Type 0} (dec : Discrete K) where
  -- `pubsubSubscribeChannel`: the state, the return value and the reply.
  unfoldable pub subscribe_channel : Pubsub K P → ℕ → K → Pubsub K P × ℕ × Notice K P M
  unfolding subscriptions
  subscribe_channel s c k =
      if is_watched dec k (s.channels c)
      then (s, 0, subscribe k (subscriptions s c))
      else let t = record s {
        channels = set_at s.channels c (s.channels c ++ (k ∷ []));
        subscribers = set_watchers dec s.subscribers k (s.subscribers k ++ (c ∷ []));
      } in
        (t, 1, subscribe k (subscriptions t c))

  -- The reply of an unsubscription, where one is asked for.
  abbrev pub reply_if : Bool → Notice K P M → List (Notice K P M)
  reply_if notify x = if notify then x ∷ [] else []

  -- `pubsubUnsubscribeChannel`; none if an assertion fails.
  unfoldable pub unsubscribe_channel :
      Pubsub K P → ℕ → K → Bool → Option (Pubsub K P × ℕ × List (Notice K P M))
  unfolding subscriptions
  unsubscribe_channel s c k notify =
      if is_watched dec k (s.channels c)
      then elim (delete_node c (s.subscribers k)) [
        | none ↦ none
        | some l ↦
            let t = record s {
              channels = set_at s.channels c (drop_key dec k (s.channels c));
              subscribers = set_watchers dec s.subscribers k l;
            } in
            some (t, 1, reply_if notify (unsubscribe k (subscriptions t c)))
      ]
      else some (s, 0, reply_if notify (unsubscribe k (subscriptions s c)))

module _ {K P M : Type 0} (dec : Discrete K) where
  -- The loop of `pubsubUnsubscribeAllChannels` over the client's channels, with `count`.
  unfoldable pub unsubscribe_channels :
      Pubsub K P → ℕ → List K → Bool → Option (Pubsub K P × ℕ × List (Notice K P M))
  unsubscribe_channels s c [] notify = some (s, 0, [])
  unsubscribe_channels s c (k ∷ ks) notify = elim (unsubscribe_channel {M = M} dec s c k notify) [
    | none ↦ none
    | some (t, n, r) ↦ elim (unsubscribe_channels t c ks notify) [
      | none ↦ none
      | some (u, n', r') ↦ some (u, n + n', r ++ r')
    ]
  ]

  -- `pubsubUnsubscribeAllChannels`. The client's list has the order of its hash table.
  unfoldable pub unsubscribe_all_channels :
      Pubsub K P → ℕ → Bool → Option (Pubsub K P × ℕ × List (Notice K P M))
  unfolding subscriptions
  unsubscribe_all_channels s c notify = elim (unsubscribe_channels s c (s.channels c) notify) [
    | none ↦ none
    | some (t, count, r) ↦ some (
      t,
      count,
      if notify && count == 0 then r ++ (unsubscribe_null (subscriptions t c) ∷ []) else r,
    )
  ]

module _ {K P M : Type 0} (dec : Discrete P) where
  -- `pubsubSubscribePattern`
  unfoldable pub subscribe_pattern : Pubsub K P → ℕ → P → Pubsub K P × ℕ × Notice K P M
  unfolding subscriptions
  subscribe_pattern s c p =
      if is_watched dec p (s.patterns c)
      then (s, 0, psubscribe p (subscriptions s c))
      else let t = record s {
        patterns = set_at s.patterns c (s.patterns c ++ (p ∷ []));
        pattern_list = s.pattern_list ++ ((c, p) ∷ []);
      } in
        (t, 1, psubscribe p (subscriptions t c))

  -- `pubsubUnsubscribePattern`; none if `listDelNode` gets no node.
  unfoldable pub unsubscribe_pattern :
      Pubsub K P → ℕ → P → Bool → Option (Pubsub K P × ℕ × List (Notice K P M))
  unfolding subscriptions
  unsubscribe_pattern s c p notify =
      if is_watched dec p (s.patterns c)
      then elim (drop_pattern dec c p s.pattern_list) [
        | none ↦ none
        | some l ↦
            let t = record s {
              patterns = set_at s.patterns c (drop_key dec p (s.patterns c));
              pattern_list = l;
            } in
            some (t, 1, if notify then punsubscribe p (subscriptions t c) ∷ [] else [])
      ]
      else some (s, 0, if notify then punsubscribe p (subscriptions s c) ∷ [] else [])

module _ {K P M : Type 0} (matches : P → K → Bool) where
  -- The loops of `pubsubPublishMessage`: whom what is sent to, in order.
  unfoldable pub to_subscribers : K → M → List ℕ → List (ℕ × Notice K P M)
  to_subscribers k m [] = []
  to_subscribers k m (c ∷ cs) = (c, message k m) ∷ to_subscribers k m cs

  unfoldable pub to_patterns : K → M → List (ℕ × P) → List (ℕ × Notice K P M)
  to_patterns k m [] = []
  to_patterns k m ((c, p) ∷ ps) =
      let rest = to_patterns k m ps in if matches p k then (c, pmessage p k m) ∷ rest else rest

  -- `pubsubPublishMessage`: what is sent, and `receivers`.
  unfoldable pub publish : Pubsub K P → K → M → List (ℕ × Notice K P M) × ℕ
  unfolding to_subscribers to_patterns
  publish s k m =
      let direct = to_subscribers k m (s.subscribers k) in
      let matched = to_patterns k m s.pattern_list in
      (direct ++ matched, length direct + length matched)
