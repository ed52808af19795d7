-- ===== src/Slowlog/Tests.antt =====
-- Small logs of redis-stable/src/slowlog.c. The decimal print is that of one digit.
use better_efisis.Prelude.{ℕ, ◌+◌, ◌≡◌, refl, List, [], ◌∷◌}
use better_efisis.Prelude.Int.{pos}
use better_efisis.Slowlog.{Object, Entry, Log, raw, other, create_entry, push_if_needed}
use better_efisis.Slowlog.Entries.{Numbered, push_if_needed-kept}

abbrev digit : ℕ → List ℕ
digit n = (48 + n) ∷ []

abbrev old : Entry
old = record { argv = other 1 ∷ []; id = 6; duration = pos 20; time = 100 }

abbrev older : Entry
older = record { argv = other 2 ∷ []; id = 5; duration = pos 30; time = 99 }

abbrev log : Log
log = record { entries = old ∷ older ∷ []; entry_id = 7; slower_than = pos 10; max_len = 2 }

abbrev command : List Object
command = raw (b'g' ∷ b'e' ∷ b't' ∷ []) ∷ other 3 ∷ []

push_if_needed-kept_example :
    ((push_if_needed digit log command (pos 12) 101).entries
      ≡ create_entry digit command (pos 12) 101 7 ∷ old ∷ [])
    × Numbered
        (push_if_needed digit log command (pos 12) 101).entry_id
        (push_if_needed digit log command (pos 12) 101).entries
push_if_needed-kept_example = push_if_needed-kept digit log command (pos 12) 101 (refl, (refl, tt))
