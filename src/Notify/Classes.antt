-- ===== src/Notify/Classes.antt =====
-- The two conversions of redis-stable/src/notify.c undo each other on flags.
use better_efisis.Prelude.{
  ℕ, zero, suc, ◌≡◌, ◌<◌, Bool, true, false, refl, some, none, ◌==◌, if◌then◌else◌, arith, Option,
}
use better_efisis.Notify.{class_flag, flags_loop, string_to_flags, char_if, flags_to_string}

same : ℕ → Option ℕ → Bool
same n none = false
same n (some m) = m == n

same_sound : (n : ℕ) (o : Option ℕ) → same n o ≡ true → o ≡ some n
unfolding same
same_sound n none e = absurd (ground arith)
same_sound n (some m) e = ground arith

-- The round trip of each of the first `count` flags.
round_trips : ℕ → Bool
unfolding same
round_trips zero = true
round_trips (suc count) =
    if same count (string_to_flags (flags_to_string count)) then round_trips count else false

round_trips_each :
    (count flags : ℕ)
    → flags < count
    → round_trips count ≡ true
    → same flags (string_to_flags (flags_to_string flags)) ≡ true
unfolding round_trips
round_trips_each zero flags h e = absurd (omega arith)
round_trips_each (suc count) flags h e = ground (arith, round_trips_each count flags)

all_trips : round_trips 1024 ≡ true
unfolding round_trips same string_to_flags flags_to_string flags_loop class_flag char_if
all_trips = refl

-- Any combination of the ten flags is read again from the string that stands for it.
pub string_to_flags-flags_to_string :
    (flags : ℕ) → flags < 1024 → string_to_flags (flags_to_string flags) ≡ some flags
string_to_flags-flags_to_string flags h =
    same_sound flags (string_to_flags (flags_to_string flags))
      (round_trips_each 1024 flags h all_trips)
