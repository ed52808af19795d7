-- ===== src/Protocol/Tests.antt =====
-- The command GET k of redis-stable/src/networking.c, whole and cut off.
use better_efisis.Prelude.{ℕ, ◌≡◌, refl, true, false, none, some, List, [], ◌∷◌, ◌++◌, arith}
use better_efisis.Util.{string2ll, unsigned_part, scan, signed}
use better_efisis.Protocol.{
  Client, expected_dollar, find_cr, process_multibulk, read_args, bulk_length, cat_command,
  reset_client, protocol_error,
}
use better_efisis.Protocol.Requests.{process_multibulk-cat_command}
use better_efisis.Protocol.Bounds.{EndsBounded, process_multibulk-EndsBounded}

abbrev get_k : List (List ℕ)
get_k = (b'G' ∷ b'E' ∷ b'T' ∷ []) ∷ (b'k' ∷ []) ∷ []

abbrev new_client : Client
new_client = record {
  querybuf = [];
  multibulklen = 0;
  bulklen = none;
  argv = [];
  closing = false;
  errors = [];
}

-- "*2\r\n$3\r\nG", with the rest of the command still to come.
abbrev half_request : List ℕ
half_request = b'*' ∷ b'2' ∷ b'\r' ∷ b'\n' ∷ b'$' ∷ b'3' ∷ b'\r' ∷ b'\n' ∷ b'G' ∷ []

half_read :
    process_multibulk (record new_client { querybuf = half_request })
    ≡ some (false, record new_client { querybuf = b'G' ∷ []; multibulklen = 2; bulklen = some 3 })
unfolding process_multibulk find_cr read_args bulk_length string2ll unsigned_part scan signed
half_read = refl

abbrev no_dollar : List ℕ
no_dollar = b'*' ∷ b'1' ∷ b'\r' ∷ b'\n' ∷ b'x' ∷ b'\r' ∷ b'\n' ∷ []

refused :
    process_multibulk (record new_client { querybuf = no_dollar })
    ≡ some (
      false,
      record new_client {
        querybuf = b'x' ∷ b'\r' ∷ b'\n' ∷ [];
        multibulklen = 1;
        closing = true;
        errors = expected_dollar b'x' ∷ [];
      },
    )
unfolding process_multibulk find_cr read_args bulk_length string2ll unsigned_part scan signed
    protocol_error
refused = refl

process_multibulk-cat_command_example :
    process_multibulk
      (record (reset_client new_client) { querybuf = cat_command [] get_k ++ half_request })
    ≡ some (true, record (reset_client new_client) { querybuf = half_request; argv = get_k })
process_multibulk-cat_command_example =
    process_multibulk-cat_command get_k half_request new_client (omega arith) (omega arith)

process_multibulk-EndsBounded_example :
    EndsBounded (process_multibulk (record new_client { querybuf = half_request }))
process_multibulk-EndsBounded_example =
    process_multibulk-EndsBounded (record new_client { querybuf = half_request })
      (record { count = omega arith; arguments = tt; next = tt }) (λ h. (refl, refl))
