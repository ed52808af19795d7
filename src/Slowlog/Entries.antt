-- ===== src/Slowlog/Entries.antt =====
-- Which entries redis-stable/src/slowlog.c keeps, and what it keeps of a command's arguments.
use mathlib.Core.List.{map}
use better_efisis.Prelude.{
  ℕ, zero, suc, ◌+◌, ◌-◌, ◌≤◌, ◌<◌, ◌≡◌, refl, sym, ap, ◌∙◌, List, [], ◌∷◌, ◌++◌, arith, ltb,
  if◌then◌else◌, length, take, take_all, Bool-cases, lt_cases, inl, inr, le→not_ltb, lt→ltb,
}
use better_efisis.Prelude.Int.{ℤ, pos, ltb_ℤ}
use better_efisis.Slowlog.{
  Object, Entry, Log, more_arguments, trimmed, arguments_loop, create_entry, delete_last,
  remove_old, push_if_needed, reset,
}

length-delete_last : (x : Entry) (es : List Entry) → length (delete_last (x ∷ es)) ≡ length es
unfolding delete_last
length-delete_last x [] = refl
length-delete_last x (y ∷ es) = ap suc (length-delete_last y es)

-- All but the last.
take-delete_last : (n : ℕ) (es : List Entry) → n < length es → take n (delete_last es) ≡ take n es
unfolding delete_last
take-delete_last n [] h = absurd (omega arith)
take-delete_last zero (x ∷ []) h = refl
take-delete_last (suc n) (x ∷ []) h = absurd (omega arith)
take-delete_last zero (x ∷ y ∷ es) h = refl
take-delete_last (suc n) (x ∷ y ∷ es) h =
    ap (λ l. x ∷ l) (take-delete_last n (y ∷ es) (omega arith))

remove_old-take :
    (fuel max_len : ℕ) (es : List Entry)
    → length es ≤ fuel
    → remove_old fuel max_len es ≡ take max_len es
unfolding remove_old
remove_old-take zero max_len es h = sym (take_all max_len es (omega arith))
remove_old-take (suc fuel) max_len [] h =
    rw (le→not_ltb max_len 0 (omega arith), remove_old) (sym (take_all max_len [] (omega arith)))
remove_old-take (suc fuel) max_len (x ∷ es) h = elim (Bool-cases (ltb max_len (length (x ∷ es)))) [
  | inl over ↦
      let short = length-delete_last x es in
      rw (over, remove_old)
        (remove_old-take fuel max_len (delete_last (x ∷ es)) (omega (arith, short))
          ∙ take-delete_last max_len (x ∷ es) (ground arith))
  | inr within ↦ rw (within, remove_old) (sym (take_all max_len (x ∷ es) (ground arith)))
]

-- The ids of the entries go down one by one from the next id.
abbrev pub Numbered : ℕ → List Entry → Type 0
Numbered next [] = Unit
Numbered next (e ∷ es) = (e.id + 1 ≡ next) × Numbered e.id es

take-Numbered : (n next : ℕ) (es : List Entry) → Numbered next es → Numbered next (take n es)
take-Numbered zero next es v = tt
take-Numbered (suc n) next [] v = tt
take-Numbered (suc n) next (e ∷ es) v = (v.0, take-Numbered n e.id es v.1)

module _ (decimal : ℕ → List ℕ) where
  -- What is in the log after a command: the same if the log is disabled, which it is
  -- by a negative threshold, else the newest entries stay, up to the configured number, with the new
  -- entry in front if the command took no less time than the threshold.
  abbrev pub kept : Log → List Object → ℤ → ℕ → List Entry
  kept log argv duration now =
      if ltb_ℤ log.slower_than (pos 0)
      then log.entries
      else if ltb_ℤ duration log.slower_than
      then take log.max_len log.entries
      else take log.max_len (create_entry decimal argv duration now log.entry_id ∷ log.entries)

  numbered :
      (log : Log) (argv : List Object) (duration : ℤ) (now : ℕ)
      → Numbered log.entry_id log.entries
      → Numbered
          (log.entry_id + 1)
          (create_entry decimal argv duration now log.entry_id ∷ log.entries)
  unfolding create_entry
  numbered log argv duration now v = (refl, v)

  -- In a log whose ids go down one by one from the next id, logging leaves the newest entries, up to
  -- the configured number, with an entry for the command in front exactly if the command took at
  -- least the threshold; with a negative threshold the entries stay as they are. The ids go down one
  -- by one from the next id afterwards.
  pub push_if_needed-kept :
      (log : Log) (argv : List Object) (duration : ℤ) (now : ℕ)
      → Numbered log.entry_id log.entries
      → ((push_if_needed decimal log argv duration now).entries ≡ kept log argv duration now)
        × Numbered
            (push_if_needed decimal log argv duration now).entry_id
            (push_if_needed decimal log argv duration now).entries
  unfolding push_if_needed
  push_if_needed-kept log argv duration now v = elim (Bool-cases (ltb_ℤ log.slower_than (pos 0))) [
    | inl off ↦ rw (off, push_if_needed) (refl, v)
    | inr on ↦ elim (Bool-cases (ltb_ℤ duration log.slower_than)) [
      | inl quick ↦
          let e = remove_old-take (length log.entries) log.max_len log.entries (omega arith) in
          rw (on, quick, push_if_needed, e)
            (refl, take-Numbered log.max_len log.entry_id log.entries v)
      | inr slow ↦
          let es = create_entry decimal argv duration now log.entry_id ∷ log.entries in
          let e = remove_old-take (length es) log.max_len es (omega arith) in
          rw (on, slow, push_if_needed, e)
            (
              refl,
              take-Numbered log.max_len (log.entry_id + 1) es (numbered log argv duration now v),
            )
    ]
  ]

  -- The loop on a command that is not cut.
  loop_all :
      (argc j : ℕ) (argv : List Object)
      → j + length argv ≡ argc
      → arguments_loop decimal argc argc j argv ≡ map (trimmed decimal) argv
  unfolding arguments_loop
  loop_all argc j [] h = refl
  loop_all argc j (x ∷ xs) h = ground (arith, loop_all argc (j + 1) xs)

  loop_end :
      (argc slargc j : ℕ) (argv : List Object)
      → slargc ≤ j
      → arguments_loop decimal argc slargc j argv ≡ []
  unfolding arguments_loop
  loop_end argc slargc j [] h = refl
  loop_end argc slargc j (x ∷ xs) h = ground arith

  -- The loop on one that is cut, with `n` arguments before the last place.
  loop_cut :
      (argc slargc n j : ℕ) (argv : List Object)
      → slargc < argc
      → j + n + 1 ≡ slargc
      → n < length argv
      → arguments_loop decimal argc slargc j argv
        ≡ map (trimmed decimal) (take n argv) ++ (more_arguments decimal (argc - slargc + 1) ∷ [])
  unfolding arguments_loop
  loop_cut argc slargc n j [] h e k = absurd (omega arith)
  loop_cut argc slargc zero j (x ∷ xs) h e k = ground (arith, loop_end argc slargc (j + 1) xs)
  loop_cut argc slargc (suc n) j (x ∷ xs) h e k = ground (arith, loop_cut argc slargc n (j + 1) xs)

  -- The arguments of an entry: of at most 32, all are stored, long strings shortened; of more, the
  -- first 31 are, and in place of the 32nd stands a note that counts all that follow these 31.
  pub create_entry-argv :
      (argv : List Object) (duration : ℤ) (now id : ℕ)
      → (create_entry decimal argv duration now id).argv ≡ (
          if ltb 32 (length argv)
          then map (trimmed decimal) (take 31 argv)
            ++ (more_arguments decimal (length argv - 31) ∷ [])
          else map (trimmed decimal) argv)
  unfolding create_entry
  create_entry-argv argv duration now id = elim (lt_cases 32 (length argv)) [
    | inl many ↦
        let count : length argv - 32 + 1 ≡ length argv - 31 = omega arith in
        rw (lt→ltb 32 (length argv) many, create_entry)
          (loop_cut (length argv) 32 31 0 argv many refl (omega arith)
            ∙ ap (λ n. map (trimmed decimal) (take 31 argv) ++ (more_arguments decimal n ∷ []))
                count)
    | inr few ↦
        rw (le→not_ltb 32 (length argv) few, create_entry)
          (loop_all (length argv) 0 argv (omega arith))
  ]

-- `slowlogReset` empties the log and keeps the next id.
reset-nil : (log : Log) → reset log ≡ record log { entries = [] }
unfolding reset
reset-nil log =
    ap (λ es. record log { entries = es })
      (remove_old-take (length log.entries) 0 log.entries (omega arith))
