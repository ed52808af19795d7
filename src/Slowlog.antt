-- ===== src/Slowlog.antt =====
-- redis-stable/src/slowlog.c: the log of the commands that took too long, the newest first.
pub mod Entries
mod Tests
use better_efisis.Prelude.{
  ℕ, zero, suc, ◌+◌, ◌-◌, not, ◌&&◌, List, [], ◌∷◌, ◌++◌, ltb, ◌==◌, if◌then◌else◌, length, take,
}
use better_efisis.Prelude.Int.{ℤ, pos, ltb_ℤ}

-- SLOWLOG_ENTRY_MAX_ARGC and SLOWLOG_ENTRY_MAX_STRING
abbrev pub max_argc : ℕ
max_argc = 32

abbrev pub max_string : ℕ
max_string = 128

-- An argument: a string in raw encoding, or any other object, by its reference.
pub data Object : Type 0 where
  raw : List ℕ → Object
  other : ℕ → Object

pub record Entry : Type 0 where
  pub argv : List Object
  pub id : ℕ
  pub duration : ℤ
  pub time : ℕ

-- The fields of `server` that the log uses.
pub record Log : Type 0 where
  pub entries : List Entry
  pub entry_id : ℕ
  pub slower_than : ℤ
  pub max_len : ℕ

-- `printf` of an unsigned number is the C library's.
module _ (decimal : ℕ → List ℕ) where
  -- "... (%d more arguments)"
  unfoldable pub more_arguments : ℕ → Object
  more_arguments n = raw (
      (b'.' ∷ b'.' ∷ b'.' ∷ b' ' ∷ b'(' ∷ [])
      ++ decimal n
      ++ (b' ' ∷ b'm' ∷ b'o' ∷ b'r' ∷ b'e' ∷ b' ' ∷ b'a' ∷ b'r' ∷ b'g' ∷ b'u' ∷ b'm' ∷ b'e' ∷ b'n'
          ∷ b't' ∷ b's' ∷ b')' ∷ []))

  -- What is kept of an argument: a long string ends in "... (%lu more bytes)".
  unfoldable pub trimmed : Object → Object
  trimmed (other o) = other o
  trimmed (raw s) =
      if ltb max_string (length s)
      then raw (
          take max_string s
          ++ (b'.' ∷ b'.' ∷ b'.' ∷ b' ' ∷ b'(' ∷ [])
          ++ decimal (length s - max_string)
          ++ (b' ' ∷ b'm' ∷ b'o' ∷ b'r' ∷ b'e' ∷ b' ' ∷ b'b' ∷ b'y' ∷ b't' ∷ b'e' ∷ b's' ∷ b')'
              ∷ []))
      else raw s

  -- The loop of `slowlogCreateEntry` from argument `j` on.
  unfoldable pub arguments_loop : ℕ → ℕ → ℕ → List Object → List Object
  arguments_loop argc slargc j [] = []
  arguments_loop argc slargc j (x ∷ xs) =
      let rest = arguments_loop argc slargc (j + 1) xs in
      if ltb j slargc
      then (if not (slargc == argc) && j == slargc - 1
          then more_arguments (argc - slargc + 1)
          else trimmed x)
        ∷ rest
      else []

  -- `slowlogCreateEntry` with the arguments it stores; `now` is what `time(NULL)` returns.
  unfoldable pub create_entry : List Object → ℤ → ℕ → ℕ → Entry
  create_entry argv duration now id =
      let argc = length argv in
      let slargc = if ltb max_argc argc then max_argc else argc in
      record { argv = arguments_loop argc slargc 0 argv; id = id; duration = duration; time = now }

-- `listDelNode` of `listLast`
unfoldable pub delete_last : List Entry → List Entry
delete_last [] = []
delete_last (x ∷ []) = []
delete_last (x ∷ y ∷ ys) = x ∷ delete_last (y ∷ ys)

-- The loop that removes old entries. Each round removes one, so the length is fuel enough.
unfoldable pub remove_old : ℕ → ℕ → List Entry → List Entry
remove_old zero max_len es = es
remove_old (suc fuel) max_len es =
    let rest = remove_old fuel max_len (delete_last es) in
    if ltb max_len (length es) then rest else es

-- `slowlogPushEntryIfNeeded`
unfoldable pub push_if_needed : (ℕ → List ℕ) → Log → List Object → ℤ → ℕ → Log
push_if_needed decimal log argv duration now =
    let new = create_entry decimal argv duration now log.entry_id in
    let t =
      if ltb_ℤ duration log.slower_than
      then log
      else record log { entries = new ∷ log.entries; entry_id = log.entry_id + 1 } in
    if ltb_ℤ log.slower_than (pos 0)
    then log
    else record t { entries = remove_old (length t.entries) t.max_len t.entries }

-- `slowlogReset`, whose loop is that of `remove_old` with 0.
unfoldable pub reset : Log → Log
reset log = record log { entries = remove_old (length log.entries) 0 log.entries }
