-- ===== src/Pubsub/Publish.antt =====
-- `pubsubPublishMessage` of redis-stable/src/pubsub.c.
use mathlib.Core.Logic.{ite}
use better_efisis.Prelude.{
  ℕ, ◌+◌, ◌≡◌, refl, sym, ap, Bool, true, false, ◌&&◌, List, [], ◌∷◌, ◌++◌, arith, if◌then◌else◌,
  ◌==◌, length, length-append, Bool-cases, inl, inr,
}
use better_efisis.Multi.Watching.{times, occurs}
use better_efisis.Pubsub.{Pubsub, Notice, message, pmessage, to_subscribers, to_patterns, publish}
use better_efisis.Pubsub.Subscribed.{listed, IsAgreed}

module _ {K P M : Type 0} (dec_p : Discrete P) where
  abbrev is_message : Notice K P M → Bool
  is_message (message k m) = true
  is_message _ = false

  abbrev is_pmessage : P → Notice K P M → Bool
  is_pmessage q (pmessage p k m) = ite (dec_p q p) true false
  is_pmessage q _ = false

  -- How often a client is sent the message itself, and how often for a pattern.
  unfoldable pub messages : ℕ → List (ℕ × Notice K P M) → ℕ
  messages i [] = 0
  messages i ((c, n) ∷ l) = (if c == i && is_message n then 1 else 0) + messages i l

  unfoldable pub pmessages : ℕ → P → List (ℕ × Notice K P M) → ℕ
  pmessages i q [] = 0
  pmessages i q ((c, n) ∷ l) = (if c == i && is_pmessage q n then 1 else 0) + pmessages i q l

  messages-append :
      (i : ℕ) (xs ys : List (ℕ × Notice K P M))
      → messages i (xs ++ ys) ≡ messages i xs + messages i ys
  unfolding messages
  messages-append i [] ys = omega arith
  messages-append i ((c, n) ∷ xs) ys = omega (arith, messages-append i xs ys)

  pmessages-append :
      (i : ℕ) (q : P) (xs ys : List (ℕ × Notice K P M))
      → pmessages i q (xs ++ ys) ≡ pmessages i q xs + pmessages i q ys
  unfolding pmessages
  pmessages-append i q [] ys = omega arith
  pmessages-append i q ((c, n) ∷ xs) ys = omega (arith, pmessages-append i q xs ys)

  module _ (matches : P → K → Bool) (k : K) (m : M) where
    sent-to_subscribers :
        (i : ℕ) (q : P) (cs : List ℕ)
        → (messages i (to_subscribers matches k m cs) ≡ times i cs)
          × (pmessages i q (to_subscribers matches k m cs) ≡ 0)
    unfolding to_subscribers messages pmessages times
    sent-to_subscribers i q [] = (refl, refl)
    sent-to_subscribers i q (c ∷ cs) =
        let (a, b) = sent-to_subscribers i q cs in (ground (arith, a), ground (arith, b))

    sent-to_patterns :
        (i : ℕ) (q : P) (ps : List (ℕ × P))
        → (messages i (to_patterns matches k m ps) ≡ 0)
          × (pmessages i q (to_patterns matches k m ps)
              ≡ (if matches q k then listed dec_p i q ps else 0))
    unfolding to_patterns messages pmessages listed
    sent-to_patterns i q [] = (refl, ground arith)
    sent-to_patterns i q ((c, p) ∷ ps) =
        let (a, b) = sent-to_patterns i q ps in
        (
          elim (Bool-cases (matches p k)) [
            | inl hit ↦ rw (hit, to_patterns) (ground (arith, a))
            | inr miss ↦ rw (miss, to_patterns) a
          ],
          elim (dec_p q p) [
            | yes e ↦ ground (arith, b, ap (λ x. matches x k) e)
            | no ne ↦ ground (arith, b)
          ],
        )

-- Where the tables agree, publishing sends a client the message once if it is subscribed to the
-- channel, and once for each of its patterns that matches; the result is how many are sent.
pub publish-Delivered :
    {K P M : Type 0} (dec : Discrete K) (dec_p : Discrete P) (matches : P → K → Bool)
    (s : Pubsub K P) (k : K) (m : M) (i : ℕ) (q : P)
    → IsAgreed dec dec_p s
    → (messages dec_p i (publish matches s k m).0 ≡ occurs dec k (s.channels i))
      × (pmessages dec_p i q (publish matches s k m).0
          ≡ (if matches q k then occurs dec_p q (s.patterns i) else 0))
      × ((publish matches s k m).1 ≡ length (publish matches s k m).0)
unfolding publish
publish-Delivered dec dec_p matches s k m i q v =
    let direct = to_subscribers matches k m (s.subscribers k) in
    let matched = to_patterns matches k m s.pattern_list in
    let (a, b) = sent-to_subscribers dec_p matches k m i q (s.subscribers k) in
    let (a', b') = sent-to_patterns dec_p matches k m i q s.pattern_list in
    (
      ground (arith, a, a', messages-append dec_p i direct matched, v.channels i k),
      ground (arith, b, b', pmessages-append dec_p i q direct matched, v.patterns i q),
      sym (length-append direct matched),
    )
