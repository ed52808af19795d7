-- ===== src/Notify/Tests.antt =====
-- The classes "lK" of redis-stable/src/notify.c.
use better_efisis.Prelude.{◌≡◌, some, arith}
use better_efisis.Notify.{string_to_flags, flags_to_string}
use better_efisis.Notify.Classes.{string_to_flags-flags_to_string}

string_to_flags-flags_to_string_example : string_to_flags (flags_to_string 17) ≡ some 17
string_to_flags-flags_to_string_example = string_to_flags-flags_to_string 17 (omega arith)
