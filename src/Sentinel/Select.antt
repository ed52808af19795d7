-- ===== src/Sentinel/Select.antt =====
-- redis-stable/src/sentinel.c: which slave is promoted.
use better_efisis.Prelude.{
  ◌+◌, ◌-◌, ◌*◌, Bool, not, ◌&&◌, ◌||◌, Option, none, some, List, [], ◌∷◌, ltb, leb, ◌==◌,
  if◌then◌else◌,
}
use better_efisis.Prelude.Int.{ℤ, pos, negsuc}
use better_efisis.Sentinel.{Slave, Sentinel}

module _ {R : Type 0} (casecmp : R → R → ℤ) where
  abbrev compare_runids : Option R → Option R → ℤ
  compare_runids none none = pos 0
  compare_runids none (some b) = pos 1
  compare_runids (some a) none = negsuc 0
  compare_runids (some a) (some b) = casecmp a b

  -- `compareSlavesForPromotion`
  unfoldable pub compare_slaves : Slave R → Slave R → ℤ
  compare_slaves a b =
      if ltb a.priority b.priority
      then negsuc (b.priority - a.priority - 1)
      else if ltb b.priority a.priority
      then pos (a.priority - b.priority)
      else if ltb b.repl_offset a.repl_offset
      then negsuc 0
      else if ltb a.repl_offset b.repl_offset
      then pos 1
      else compare_runids a.runid b.runid

module _ {R : Type 0} where
  -- The tests of the loop of `sentinelSelectSlave`.
  unfoldable pub is_suitable : Sentinel R → Slave R → Bool
  is_suitable s v =
      let m = s.master in
      not (v.s_down || v.o_down || v.disconnected)
      && leb s.now (v.last_avail_time + 1000 * 5)
      && not (v.priority == 0)
      && leb s.now (v.info_refresh + (if m.s_down then 1000 * 5 else 10000 * 3))
      && leb (v.master_link_down_time + (if m.s_down then m.s_down_since_time else 0))
          ((if m.s_down then s.now else 0) + m.down_after_period * 10)

  unfoldable pub suitable : Sentinel R → List (Slave R) → List (Slave R)
  suitable s [] = []
  suitable s (v ∷ vs) = let rest = suitable s vs in if is_suitable s v then v ∷ rest else rest

  abbrev pub first : List (Slave R) → Option (Slave R)
  first [] = none
  first (v ∷ vs) = some v

  -- `sentinelSelectSlave`; `sort` is qsort with `compareSlavesForPromotion`.
  unfoldable pub choose_slave : (List (Slave R) → List (Slave R)) → Sentinel R → Option (Slave R)
  choose_slave sort s = first (sort (suitable s s.master.slaves))
