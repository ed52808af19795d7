-- ===== src/Sentinel/Steps.antt =====
-- redis-stable/src/sentinel.c: what can happen to a sentinel, in any order.
use better_efisis.Prelude.{ℕ, ◌≡◌, Bool, true, false, ◌||◌, Option, some, List, [], ◌∷◌, ◌==◌}
use better_efisis.Prelude.Int.{ℤ}
use better_efisis.Sentinel.{
  Slave, Sentinel, with_master, raise_epoch, vote_leader, receive_reply, at_peer,
}
use better_efisis.Sentinel.Failover.{
  slave_says_master, reset_master, handle_master, failover_command,
}

module _ {R : Type 0} where
  -- The vote is left alone.
  abbrev pub Same : Sentinel R → Sentinel R → Type 0
  Same s t = (t.master.leader ≡ s.master.leader) × (t.master.leader_epoch ≡ s.master.leader_epoch)

  -- Whether a slave has this name.
  unfoldable pub found : ℕ → List (Slave R) → Bool
  found n [] = false
  found n (v ∷ vs) = v.name == n || found n vs

  -- The failover is left alone, and no slave is forgotten.
  pub record SameFailover (s t : Sentinel R) : Type 0 where
    pub in_progress : t.master.in_progress ≡ s.master.in_progress
    pub phase : t.master.phase ≡ s.master.phase
    pub promoted_slave : t.master.promoted_slave ≡ s.master.promoted_slave
    pub known : (n : ℕ) → found n s.master.slaves ≡ true → found n t.master.slaves ≡ true

module _ {R : Type 0} (casecmp : R → R → ℤ) (dec : Discrete R) (order : List (R × ℕ) → List (R × ℕ))
    (sort : List (Slave R) → List (Slave R)) where
  -- What happens to a sentinel: requests for votes, hello messages, replies of its peers, its timer,
  -- commands, and changes that leave its vote
  -- and its failover alone.
  pub data Step : Sentinel R → Sentinel R → Type 0 where
    asked : (s : Sentinel R) (e : ℕ) (r : R) → Step s (vote_leader casecmp e r s)
    heard : (s : Sentinel R) (e : ℕ) → Step s (raise_epoch e s)
    replied :
        (s : Sentinel R) (i : ℕ) (down : Bool) (v : Option R) (e : ℕ)
        → Step s (
            with_master s (record s.master {
              sentinels = at_peer i (receive_reply down v e) s.master.sentinels;
            }))
    handled : {s t : Sentinel R} → handle_master casecmp dec order sort s ≡ some t → Step s t
    promoted : (s : Sentinel R) → Step s (slave_says_master s)
    commanded : (s : Sentinel R) → Step s (failover_command sort s)
    cleared : (s : Sentinel R) (keep_sentinels : Bool) → Step s (reset_master keep_sentinels s)
    observed : {s t : Sentinel R} → Same s t → SameFailover s t → Step s t

  pub data Run (s : Sentinel R) : Sentinel R → Type 0 where
    here : Run s s
    then_ : {t u : Sentinel R} → Run s t → Step t u → Run s u
