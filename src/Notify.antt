-- ===== src/Notify.antt =====
-- redis-stable/src/notify.c: classes of keyspace events, as the characters of the configuration and
-- as the flags of the server.
pub mod Classes
mod Tests
use Prim.Native.Nat.{bit_and, bit_or}
use better_efisis.Prelude.{
  ℕ, ◌^◌, not, Option, none, some, List, [], ◌∷◌, ◌++◌, ◌==◌, if◌then◌else◌,
}

-- REDIS_NOTIFY_ALL
abbrev pub all_classes : ℕ
all_classes = bit_or (2 ^ 2) (
    bit_or (2 ^ 3)
      (bit_or (2 ^ 4) (bit_or (2 ^ 5) (bit_or (2 ^ 6) (bit_or (2 ^ 7) (bit_or (2 ^ 8) (2 ^ 9)))))))

-- The flag of a character.
unfoldable pub class_flag : ℕ → Option ℕ
class_flag c =
    if c == b'A'
    then some all_classes
    else if c == b'g'
    then some (2 ^ 2)
    else if c == b'$'
    then some (2 ^ 3)
    else if c == b'l'
    then some (2 ^ 4)
    else if c == b's'
    then some (2 ^ 5)
    else if c == b'h'
    then some (2 ^ 6)
    else if c == b'z'
    then some (2 ^ 7)
    else if c == b'x'
    then some (2 ^ 8)
    else if c == b'e'
    then some (2 ^ 9)
    else if c == b'K'
    then some (2 ^ 0)
    else if c == b'E'
    then some (2 ^ 1)
    else none

-- The loop of `keyspaceEventsStringToFlags`, with its variable `flags`; -1 is none.
unfoldable pub flags_loop : ℕ → List ℕ → Option ℕ
flags_loop flags [] = some flags
flags_loop flags (c ∷ p) = elim (class_flag c) [
  | none ↦ none
  | some flag ↦ flags_loop (bit_or flags flag) p
]

unfoldable pub string_to_flags : List ℕ → Option ℕ
string_to_flags classes = flags_loop 0 classes

-- A character that stands for a flag which is set.
unfoldable pub char_if : ℕ → ℕ → ℕ → List ℕ
char_if flags flag c = if bit_and flags flag == 0 then [] else c ∷ []

-- `keyspaceEventsFlagsToString`
unfoldable pub flags_to_string : ℕ → List ℕ
flags_to_string flags =
    (if bit_and flags all_classes == all_classes
      then b'A' ∷ []
      else char_if flags (2 ^ 2) b'g'
        ++ char_if flags (2 ^ 3) b'$'
        ++ char_if flags (2 ^ 4) b'l'
        ++ char_if flags (2 ^ 5) b's'
        ++ char_if flags (2 ^ 6) b'h'
        ++ char_if flags (2 ^ 7) b'z'
        ++ char_if flags (2 ^ 8) b'x'
        ++ char_if flags (2 ^ 9) b'e')
    ++ char_if flags (2 ^ 0) b'K'
    ++ char_if flags (2 ^ 1) b'E'
