-- ===== src/Sentinel.antt =====
-- redis-stable/src/sentinel.c: how a sentinel judges a master, votes and runs its failover.
pub mod Select
pub mod Failover
pub mod Election
pub mod Steps
pub mod Votes
pub mod Machine
pub mod Safe
pub mod Choice
pub mod Starts
pub mod Limits
mod Tests
use better_efisis.Prelude.{
  ℕ, zero, suc, ◌+◌, ◌*◌, ◌/◌, ◌%◌, ◌^◌, ◌≡◌, Bool, true, false, not, ◌&&◌, ◌||◌, Option, none,
  some, List, [], ◌∷◌, ltb, leb, ◌==◌, if◌then◌else◌, length, min,
}
use better_efisis.Prelude.Int.{ℤ, pos, negsuc}

-- An instance that is a sentinel too: SRI_MASTER_DOWN, and the vote that it told.
pub record Peer (R : Type 0) : Type 0 where
  pub master_down : Bool
  pub leader : Option R
  pub leader_epoch : ℕ

-- An instance that is a slave, with the flags SRI_...; `R` is the type of run IDs.
pub record Slave (R : Type 0) : Type 0 where
  pub name : ℕ
  pub s_down : Bool
  pub o_down : Bool
  pub disconnected : Bool
  pub promoted : Bool
  pub reconf_sent : Bool
  pub reconf_inprog : Bool
  pub reconf_done : Bool
  pub last_avail_time : ℕ
  pub info_refresh : ℕ
  pub priority : ℕ
  pub repl_offset : ℕ
  pub runid : Option R
  pub master_link_down_time : ℕ
  pub reconf_sent_time : ℕ

-- SENTINEL_FAILOVER_STATE_...
pub data Phase : Type 0 where
  idle wait_start select_slave send_slaveof_noone : Phase
  wait_promotion reconf_slaves update_config : Phase

-- An instance that is a master. `sentinels` and `slaves` are in the order in which their dict yields
-- them. `promoted_slave` is the name of the slave that the pointer leads to.
pub record Master (R : Type 0) : Type 0 where
  pub s_down : Bool
  pub o_down : Bool
  pub in_progress : Bool
  pub force : Bool
  pub last_ping_time : ℕ
  pub down_after_period : ℕ
  pub reports_slave : Bool
  pub role_reported_time : ℕ
  pub s_down_since_time : ℕ
  pub o_down_since_time : ℕ
  pub sentinels : List (Peer R)
  pub slaves : List (Slave R)
  pub quorum : ℕ
  pub parallel_syncs : ℕ
  pub leader : Option R
  pub leader_epoch : ℕ
  pub config_epoch : ℕ
  pub failover_epoch : ℕ
  pub phase : Phase
  pub state_change_time : ℕ
  pub failover_start_time : ℕ
  pub failover_timeout : ℕ
  pub promoted_slave : Option ℕ

-- The `sentinel` with one master. `now` is what `mstime` gives during a call and `random` what `rand`
-- does; `accepts` says to which slaves the connection takes a command. `sent` has each SLAVEOF that
-- was taken, with the name of the slave whose address it gives, none for NO ONE.
pub record Sentinel (R : Type 0) : Type 0 where
  pub current_epoch : ℕ
  pub my_runid : R
  pub now : ℕ
  pub random : ℕ
  pub accepts : ℕ → Bool
  pub tilt : Bool
  pub tilt_start_time : ℕ
  pub master : Master R
  pub sent : List (ℕ × Option ℕ)

-- Whether `strcasecmp` says that two texts are equal.
abbrev pub is_zero : ℤ → Bool
is_zero (pos n) = n == 0
is_zero (negsuc n) = false

module _ {R : Type 0} where
  abbrev pub with_master : Sentinel R → Master R → Sentinel R
  with_master s m = record s { master = m }

  -- What both a vote and a hello message do with an epoch that is newer.
  unfoldable pub raise_epoch : ℕ → Sentinel R → Sentinel R
  raise_epoch e s = if ltb s.current_epoch e then record s { current_epoch = e } else s

  -- `sentinelCheckSubjectivelyDown` of a master, without the two links.
  unfoldable pub check_subjectively_down : Sentinel R → Sentinel R
  check_subjectively_down s =
      let m = s.master in
      if (not (m.last_ping_time == 0) && ltb (m.last_ping_time + m.down_after_period) s.now)
        || (m.reports_slave && ltb (m.role_reported_time + (m.down_after_period + 10000 * 2)) s.now)
      then (if m.s_down
          then s
          else with_master s (record m { s_down_since_time = s.now; s_down = true }))
      else with_master s (record m { s_down = false })

  unfoldable pub count_down : List (Peer R) → ℕ
  count_down [] = 0
  count_down (p ∷ ps) = (if p.master_down then 1 else 0) + count_down ps

  -- `sentinelCheckObjectivelyDown`
  unfoldable pub check_objectively_down : Sentinel R → Sentinel R
  check_objectively_down s =
      let m = s.master in
      if m.s_down && leb m.quorum (1 + count_down m.sentinels)
      then (if m.o_down
          then s
          else with_master s (record m { o_down = true; o_down_since_time = s.now }))
      else with_master s (record m { o_down = false })

  -- `sentinelReceiveIsMasterDownReply`, once the reply has its form: `vote` is none for "*".
  unfoldable pub receive_reply : Bool → Option R → ℕ → Peer R → Peer R
  receive_reply down none epoch p = record p { master_down = down }
  receive_reply down (some r) epoch p = record p {
    master_down = down;
    leader = some r;
    leader_epoch = epoch;
  }

  -- A reply of the peer at a position.
  unfoldable pub at_peer : ℕ → (Peer R → Peer R) → List (Peer R) → List (Peer R)
  at_peer i f [] = []
  at_peer zero f (p ∷ ps) = f p ∷ ps
  at_peer (suc i) f (p ∷ ps) = p ∷ at_peer i f ps

  -- `sentinelStartFailover`
  unfoldable pub start_failover : Sentinel R → Sentinel R
  start_failover s =
      let e = (s.current_epoch + 1) % 2 ^ 64 in
      record s {
        current_epoch = e;
        master = record s.master {
          phase = wait_start;
          in_progress = true;
          failover_epoch = e;
          failover_start_time = s.now + s.random % 1000;
          state_change_time = s.now;
        };
      }

  -- `sentinelStartFailoverIfNeeded`
  unfoldable pub start_failover_if_needed : Sentinel R → Bool × Sentinel R
  start_failover_if_needed s =
      let m = s.master in
      if not m.o_down
      then (false, s)
      else if m.in_progress
      then (false, s)
      else if ltb s.now (m.failover_start_time + m.failover_timeout * 2)
      then (false, s)
      else (true, start_failover s)

module _ {R : Type 0} (casecmp : R → R → ℤ) where
  -- `sentinelVoteLeader`: the vote is the leader with the epoch.
  unfoldable pub vote_leader : ℕ → R → Sentinel R → Sentinel R
  unfolding raise_epoch
  vote_leader e runid s =
      let t = raise_epoch e s in
      let m = t.master in
      if ltb m.leader_epoch e && leb t.current_epoch e
      then with_master t (record m {
        leader = some runid;
        leader_epoch = t.current_epoch;
        failover_start_time =
            if is_zero (casecmp runid t.my_runid)
            then m.failover_start_time
            else t.now + t.random % 1000;
      })
      else t

module _ {R : Type 0} (dec : Discrete R) where
  -- `sentinelLeaderIncr`: the counters and the new value.
  unfoldable pub leader_incr : R → List (R × ℕ) → List (R × ℕ) × ℕ
  leader_incr r [] = ((r, 1) ∷ [], 1)
  leader_incr r ((k, n) ∷ c) =
      let rest = leader_incr r c in
      elim (dec k r) [ yes _ ↦ ((k, n + 1) ∷ c, n + 1) | no _ ↦ ((k, n) ∷ rest.0, rest.1) ]

  -- A peer's vote for `r` that was told for the epoch `at`.
  unfoldable pub count_vote : ℕ → Option R → ℕ → List (R × ℕ) → List (R × ℕ)
  count_vote epoch none at c = c
  count_vote epoch (some r) at c = if at == epoch then (leader_incr r c).0 else c

  -- The first loop of `sentinelGetLeader`.
  unfoldable pub count_votes : ℕ → List (Peer R) → List (R × ℕ) → List (R × ℕ)
  count_votes epoch [] c = c
  count_votes epoch (p ∷ ps) c = count_votes epoch ps (count_vote epoch p.leader p.leader_epoch c)

  -- The sentinel's own vote, with its epoch, among the others.
  unfoldable pub add_vote : ℕ → Option R → ℕ → List (R × ℕ) → Option R × ℕ → Option R × ℕ
  add_vote epoch none at c best = best
  add_vote epoch (some r) at c best =
      let votes = (leader_incr r c).1 in
      if at == epoch && ltb best.1 votes then (some r, votes) else best

module _ {R : Type 0} where
  -- The second loop of `sentinelGetLeader`, over the counters.
  unfoldable pub most_voted : List (R × ℕ) → Option R → ℕ → Option R × ℕ
  most_voted [] winner max = (winner, max)
  most_voted ((k, n) ∷ c) winner max =
      most_voted c (if ltb max n then some k else winner) (if ltb max n then n else max)

  -- The winner of `voters`, none without a majority and the quorum.
  unfoldable pub elected : ℕ → ℕ → Option R × ℕ → Option R
  elected voters quorum best =
      if ltb best.1 (voters / 2 + 1) || ltb best.1 quorum then none else best.0

abbrev pub winner_or : {R : Type 0} → Option R → R → R
winner_or none r = r
winner_or (some w) r = w

module _ {R : Type 0} (dec : Discrete R) where
  -- What the other sentinels told for the current epoch.
  abbrev pub counters : Sentinel R → List (R × ℕ)
  counters s = count_votes dec s.current_epoch s.master.sentinels []

  -- The one of them with the most votes, in an order of the dict's entries.
  abbrev pub best_of_others : (List (R × ℕ) → List (R × ℕ)) → Sentinel R → Option R × ℕ
  best_of_others order s = most_voted (order (counters s)) none 0

-- `sentinelGetLeader`: none is a failed assertion. `order` is the order of a dict's entries.
module _ {R : Type 0} (casecmp : R → R → ℤ) (dec : Discrete R)
    (order : List (R × ℕ) → List (R × ℕ)) where
  unfoldable pub get_leader : ℕ → Sentinel R → Option (Sentinel R × Option R)
  get_leader epoch s =
      let best = best_of_others dec order s in
      let t = vote_leader casecmp epoch (winner_or best.0 s.my_runid) s in
      if s.master.o_down || s.master.in_progress
      then some (
        t,
        elected (length s.master.sentinels + 1) s.master.quorum
            (add_vote dec epoch t.master.leader t.master.leader_epoch (counters dec s) best),
      )
      else none
