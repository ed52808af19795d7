-- ===== src/Sentinel/Tests.antt =====
-- Three sentinels, a master that is down and two slaves, for redis-stable/src/sentinel.c. Run IDs are
-- numbers, and qsort is taken to put the best slave first.
use mathlib.Core.Path.{subst}
use native.Mathlib.Decide.{ℕ_discrete}
use better_efisis.Prelude.{
  ℕ, ◌-◌, ◌≤◌, ◌<◌, ◌≡◌, ◌≢◌, ◌⊎◌, inl, inr, refl, sym, ◌∙◌, true, false, Option, none, some, List,
  [], ◌∷◌, ltb, if◌then◌else◌, if_cases, arith,
}
use better_efisis.Prelude.Int.{ℤ, pos, negsuc, pos_part}
use better_efisis.Sentinel.{
  Peer, Slave, idle, wait_start, reconf_slaves, Master, Sentinel, vote_leader, raise_epoch,
  leader_incr, count_vote, count_votes, most_voted, add_vote, elected, get_leader, start_failover,
  start_failover_if_needed, check_subjectively_down, check_objectively_down, count_down,
}
use better_efisis.Sentinel.Select.{compare_slaves, choose_slave, suitable, is_suitable, first}
use better_efisis.Sentinel.Election.{
  In, told, votes, cast, get_leader-votes, get_leader_unique, get_leader-stale,
}
use better_efisis.Sentinel.Steps.{found, asked, handled, Run, here, then_}
use better_efisis.Sentinel.Votes.{Run-vote}
use better_efisis.Sentinel.Machine.{IsValid, EndsValid}
use better_efisis.Sentinel.Safe.{Run-EndsValid}
use better_efisis.Sentinel.Failover.{
  count_in_progress, find_slave, failover_detect_end, handle_master, wait_or_go,
  failover_reconf_next_slave, failover_wait_start, failover_state_machine,
}
use better_efisis.Sentinel.Starts.{Agreed, Forced, Step-start}
use better_efisis.Sentinel.Limits.{failover_reconf-bounds}
use better_efisis.Sentinel.Choice.{failover_detect_end-promoted, choose_slave-best}

casecmp : ℕ → ℕ → ℤ
casecmp a b = if ltb a b then negsuc (b - a - 1) else pos (a - b)

abbrev order : List (ℕ × ℕ) → List (ℕ × ℕ)
order c = c

better : Slave ℕ → Slave ℕ → Slave ℕ
better v w = if ltb 0 (pos_part (compare_slaves casecmp v w)) then w else v

best : Slave ℕ → List (Slave ℕ) → Slave ℕ
best v [] = v
best v (w ∷ ws) = best (better v w) ws

sort : List (Slave ℕ) → List (Slave ℕ)
sort [] = []
sort (v ∷ vs) = best v vs ∷ v ∷ vs

abbrev AtMost : Slave ℕ → Slave ℕ → Type 0
AtMost v w = pos_part (compare_slaves casecmp v w) ≡ 0

AtMost-trans : (u v w : Slave ℕ) → AtMost u v → AtMost v w → AtMost u w
unfolding compare_slaves casecmp
AtMost-trans u v w a b = ground arith

AtMost-refl : (u : Slave ℕ) → AtMost u u
unfolding compare_slaves casecmp
AtMost-refl u = ground arith

AtMost-flip : (u v : Slave ℕ) → ltb 0 (pos_part (compare_slaves casecmp u v)) ≡ true → AtMost v u
unfolding compare_slaves casecmp
AtMost-flip u v h = ground arith

better_least : (v w : Slave ℕ) → AtMost (better v w) v × AtMost (better v w) w
unfolding better
better_least v w =
    if_cases (λ b. AtMost b v × AtMost b w) (ltb 0 (pos_part (compare_slaves casecmp v w))) w v
      (λ h. (AtMost-flip v w h, AtMost-refl w)) (λ h. (AtMost-refl v, ground arith))

better-In : (v w : Slave ℕ) → (better v w ≡ v) ⊎ (better v w ≡ w)
unfolding better
better-In v w =
    if_cases (λ b. (b ≡ v) ⊎ (b ≡ w)) (ltb 0 (pos_part (compare_slaves casecmp v w))) w v
      (λ h. inr refl) (λ h. inl refl)

best_least :
    (v : Slave ℕ) (ws : List (Slave ℕ))
    → AtMost (best v ws) v × ((w : Slave ℕ) → In w ws → AtMost (best v ws) w)
unfolding best
best_least v [] = (AtMost-refl v, λ w i. elim i [ ])
best_least v (w ∷ ws) =
    let b = better v w in
    let (l, m) = best_least b ws in
    let (p, q) = better_least v w in
    (
      AtMost-trans (best b ws) b v l p,
      λ u i. elim i [
        | inl e ↦ subst (AtMost (best b ws)) (sym e) (AtMost-trans (best b ws) b w l q)
        | inr j ↦ m u j
      ],
    )

best-In : (v : Slave ℕ) (ws : List (Slave ℕ)) → In (best v ws) (v ∷ ws)
unfolding best
best-In v [] = inl refl
best-In v (w ∷ ws) = elim (best-In (better v w) ws) [
  | inl e ↦ elim (better-In v w) [ inl f ↦ inl (e ∙ f) | inr f ↦ inr (inl (e ∙ f)) ]
  | inr i ↦ inr (inr i)
]

sort_members : (v : Slave ℕ) (l : List (Slave ℕ)) → In v (sort l) → In v l
unfolding sort
sort_members v [] i = i
sort_members v (w ∷ ws) (inl e) = subst (λ x. In x (w ∷ ws)) (sym e) (best-In w ws)
sort_members v (w ∷ ws) (inr i) = i

sort_least : (l : List (Slave ℕ)) (v w : Slave ℕ) → first (sort l) ≡ some v → In w l → AtMost v w
unfolding sort
sort_least [] v w e i = cc
sort_least (u ∷ us) v w e i =
    let q : best u us ≡ v = ground arith in
    let (l, m) = best_least u us in
    subst (λ x. AtMost x w) q
      (elim i [ inl f ↦ subst (AtMost (best u us)) (sym f) l | inr j ↦ m w j ])

sort_keeps : (l : List (Slave ℕ)) (w : Slave ℕ) → In w l → first (sort l) ≢ none
unfolding sort
sort_keeps [] w i e = i
sort_keeps (u ∷ us) w i e = cc

abbrev slave : ℕ → ℕ → Slave ℕ
slave n offset = record {
  name = n;
  s_down = false;
  o_down = false;
  disconnected = false;
  promoted = false;
  reconf_sent = false;
  reconf_inprog = false;
  reconf_done = false;
  last_avail_time = 99000;
  info_refresh = 99000;
  priority = 100;
  repl_offset = offset;
  runid = some n;
  master_link_down_time = 5000;
  reconf_sent_time = 0;
}

abbrev peer : Peer ℕ
peer = record { master_down = true; leader = some 1; leader_epoch = 7 }

-- The sentinel 1 in epoch 7 waits to be elected.
abbrev master : Master ℕ
master = record {
  s_down = true;
  o_down = true;
  in_progress = true;
  force = false;
  last_ping_time = 60000;
  down_after_period = 30000;
  reports_slave = false;
  role_reported_time = 0;
  s_down_since_time = 90000;
  o_down_since_time = 91000;
  sentinels = peer ∷ peer ∷ [];
  slaves = slave 11 500 ∷ slave 12 700 ∷ [];
  quorum = 2;
  parallel_syncs = 1;
  leader = none;
  leader_epoch = 6;
  config_epoch = 3;
  failover_epoch = 7;
  phase = wait_start;
  state_change_time = 99000;
  failover_start_time = 99000;
  failover_timeout = 180000;
  promoted_slave = none;
}

abbrev sentinel : Sentinel ℕ
sentinel = record {
  current_epoch = 7;
  my_runid = 1;
  now = 100000;
  random = 12345;
  accepts = λ n. true;
  tilt = false;
  tilt_start_time = 0;
  master = master;
  sent = [];
}

abbrev voted : Sentinel ℕ
voted = record sentinel { master = record master { leader = some 1; leader_epoch = 7 } }

is_elected : get_leader casecmp ℕ_discrete order 7 sentinel ≡ some (voted, some 1)
unfolding get_leader vote_leader raise_epoch count_votes count_vote leader_incr most_voted add_vote
    elected casecmp ℕ_discrete
is_elected = refl

get_leader-votes_example :
    (2 ≤ votes ℕ_discrete 7 sentinel voted 1) × (2 ≤ votes ℕ_discrete 7 sentinel voted 1)
get_leader-votes_example =
    get_leader-votes casecmp ℕ_discrete order (λ x c i. i) 7 sentinel voted 1 is_elected

abbrev rival : Sentinel ℕ
rival = record sentinel { my_runid = 2 }

abbrev rival_voted : Sentinel ℕ
rival_voted = record voted {
  my_runid = 2;
  master = record voted.master { failover_start_time = 100345 };
}

rival_is_elected : get_leader casecmp ℕ_discrete order 7 rival ≡ some (rival_voted, some 1)
unfolding get_leader vote_leader raise_epoch count_votes count_vote leader_incr most_voted add_vote
    elected casecmp ℕ_discrete
rival_is_elected = refl

abbrev ballots : List (Option ℕ)
ballots = some 1 ∷ some 1 ∷ some 1 ∷ []

no_more : (r : ℕ) → votes ℕ_discrete 7 sentinel voted r ≤ cast ℕ_discrete r ballots
unfolding told
no_more r = omega arith

no_more_rival : (r : ℕ) → votes ℕ_discrete 7 rival rival_voted r ≤ cast ℕ_discrete r ballots
unfolding told
no_more_rival r = omega arith

get_leader_unique_example : ◌≡◌ {A = ℕ} 1 1
get_leader_unique_example =
    get_leader_unique casecmp ℕ_discrete order (λ x c i. i) 7 sentinel voted rival rival_voted 1 1
      ballots is_elected rival_is_elected refl refl no_more no_more_rival

get_leader-stale_example :
    get_leader casecmp ℕ_discrete order 4 sentinel ≡ get_leader casecmp ℕ_discrete order 5 sentinel
get_leader-stale_example =
    get_leader-stale casecmp ℕ_discrete order 4 5 sentinel (omega arith) (omega arith) (omega arith)
      (omega arith)

-- It votes for another sentinel and is asked again in the same epoch.
abbrev asked_twice :
    Run casecmp ℕ_discrete order sort sentinel
      (vote_leader casecmp 8 3 (vote_leader casecmp 8 2 sentinel))
asked_twice = then_ (then_ here (asked sentinel 8 2)) (asked (vote_leader casecmp 8 2 sentinel) 8 3)

-- It votes for 2 in epoch 8, and is then asked for 3 in it.
abbrev once : Sentinel ℕ
once = vote_leader casecmp 8 2 sentinel

abbrev again : Run casecmp ℕ_discrete order sort once (vote_leader casecmp 8 3 once)
again = then_ here (asked once 8 3)

same_epoch : (vote_leader casecmp 8 3 once).master.leader_epoch ≡ once.master.leader_epoch
unfolding vote_leader raise_epoch
same_epoch = refl

Run-vote_example :
    ((vote_leader casecmp 8 3 once).master.leader ≡ once.master.leader)
    ⊎ ((vote_leader casecmp 8 3 once).master.leader ≡ none)
Run-vote_example = Run-vote casecmp ℕ_discrete order sort again same_epoch

Run-EndsValid_example : EndsValid (
    handle_master casecmp ℕ_discrete order sort
      (vote_leader casecmp 8 3 (vote_leader casecmp 8 2 sentinel)))
Run-EndsValid_example =
    Run-EndsValid casecmp ℕ_discrete order sort sort_members asked_twice (refl, refl)

abbrev calm : Sentinel ℕ
calm = record sentinel {
  now = 500000;
  master = record master { in_progress = false; phase = idle };
}

-- Its timer starts a failover in epoch 8, for which it has only its own vote yet.
abbrev started : Sentinel ℕ
started = record calm {
  current_epoch = 8;
  master = record calm.master {
    in_progress = true;
    phase = wait_start;
    failover_epoch = 8;
    failover_start_time = 500345;
    state_change_time = 500000;
    leader = some 1;
    leader_epoch = 8;
  };
}

calm_starts : handle_master casecmp ℕ_discrete order sort calm ≡ some started
unfolding handle_master check_subjectively_down check_objectively_down count_down
    start_failover_if_needed start_failover failover_state_machine failover_wait_start wait_or_go
    get_leader vote_leader raise_epoch count_votes count_vote leader_incr most_voted add_vote
    elected casecmp ℕ_discrete
calm_starts = refl

Step-start_example : Agreed calm ⊎ Forced sort calm started
Step-start_example =
    Step-start casecmp ℕ_discrete order sort (handled {s = calm} {t = started} calm_starts) refl
      refl

abbrev late : Sentinel ℕ
late = record calm {
  master = record master {
    phase = reconf_slaves;
    promoted_slave = some 12;
    slaves = slave 11 500 ∷ record (slave 12 700) { promoted = true } ∷ [];
  };
}

finds : find_slave 12 late.master.slaves ≡ some (record (slave 12 700) { promoted = true })
unfolding find_slave
finds = refl

chooses : choose_slave sort sentinel ≡ some (slave 12 700)
unfolding choose_slave sort best better compare_slaves suitable is_suitable casecmp
chooses = refl

suits : is_suitable sentinel (slave 11 500) ≡ true
unfolding is_suitable
suits = refl

-- At the time of the promotion, 11 is still to be sent on.
abbrev soon : Sentinel ℕ
soon = record late { now = 100000 }

soon-IsValid : IsValid soon
unfolding found
soon-IsValid = (refl, refl)

no_sync : count_in_progress soon.master.slaves ≤ 1
unfolding count_in_progress
no_sync = omega arith

failover_reconf-bounds_example :
    (t : Sentinel ℕ) × (failover_reconf_next_slave soon ≡ some t)
    × (count_in_progress t.master.slaves ≤ 1)
failover_reconf-bounds_example = failover_reconf-bounds soon soon-IsValid refl (omega arith) no_sync

failover_detect_end-promoted_example :
    (t : Sentinel ℕ) × (failover_detect_end late ≡ some t) × In (12, some 12) t.sent
failover_detect_end-promoted_example =
    failover_detect_end-promoted late 12 (record (slave 12 700) { promoted = true }) refl finds refl
      refl refl refl refl (omega arith)

choose_slave-best_example :
    In (slave 12 700) sentinel.master.slaves
    × (is_suitable sentinel (slave 12 700) ≡ true)
    × ((100 < 100) ⊎ ((◌≡◌ {A = ℕ} 100 100) × (500 ≤ 700)))
choose_slave-best_example =
    choose_slave-best casecmp sort sort_members sort_least sort_keeps sentinel (slave 12 700)
      (slave 11 500) chooses (inl refl) suits
