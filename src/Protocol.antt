-- ===== src/Protocol.antt =====
-- The request protocol: `processMultibulkBuffer` of redis-stable/src/networking.c reads commands, and
-- `catAppendOnlyGenericCommand` of redis-stable/src/aof.c writes them.
pub mod Lines
pub mod Requests
pub mod Bounds
mod Tests
use better_efisis.Prelude.{
  ℕ, zero, suc, ◌+◌, ◌-◌, ◌*◌, ◌≤◌, Bool, true, false, not, ◌&&◌, ◌||◌, ◌⊎◌, inl, inr, Option, none,
  some, List, [], ◌∷◌, ◌++◌, ltb, leb, ◌==◌, if◌then◌else◌, length, take, drop, get_or,
}
use better_efisis.Prelude.Int.{ℤ, pos, negsuc}
use better_efisis.Util.{string2ll, ll2string}

-- REDIS_INLINE_MAX_SIZE and REDIS_MBULK_BIG_ARG
abbrev pub inline_max_size : ℕ
inline_max_size = 1024 * 64

abbrev pub mbulk_big_arg : ℕ
mbulk_big_arg = 1024 * 32

-- The "Protocol error" that a client is sent.
pub data Error : Type 0 where
  too_big_mbulk_count : Error
  invalid_multibulk_length : Error
  too_big_bulk_count : Error
  expected_dollar : ℕ → Error
  invalid_bulk_length : Error

-- `bulklen` is none for -1; `closing` is REDIS_CLOSE_AFTER_REPLY.
pub record Client : Type 0 where
  pub querybuf : List ℕ
  pub multibulklen : ℕ
  pub bulklen : Option ℕ
  pub argv : List (List ℕ)
  pub closing : Bool
  pub errors : List Error

-- `strchr` for '\r', which ends at a zero byte.
unfoldable pub find_cr : List ℕ → Option ℕ
find_cr [] = none
find_cr (c ∷ cs) =
    let rest = find_cr cs in
    if c == b'\r'
    then some 0
    else if c == 0
    then none
    else elim rest [ none ↦ none | some i ↦ some (suc i) ]

-- `addReplyError` and `setProtocolError`; the query buffer is trimmed by the caller.
unfoldable pub protocol_error : Error → Client → Client
protocol_error e c = record c { closing = true; errors = c.errors ++ (e ∷ []) }

-- `resetClient`
unfoldable pub reset_client : Client → Client
reset_client c = record c { argv = []; multibulklen = 0; bulklen = none }

-- What follows a line's first character, up to the '\r' at `i`.
abbrev pub line_number : ℕ → List ℕ → Option ℤ
line_number i q = string2ll (take (i - 1) (drop 1 q))

-- The length that a bulk's line gives, if it is valid.
abbrev pub bulk_size : Option ℤ → Option ℕ
bulk_size (some (pos n)) = if ltb (512 * 1024 * 1024) n then none else some n
bulk_size _ = none

-- The part of the loop of `processMultibulkBuffer` that reads a bulk's length: a client for which
-- the loop ends, or the length. `querybuf` is the buffer from `pos` on, whose front is trimmed in
-- the end.
unfoldable pub bulk_length : ℕ → Client → Client ⊎ (ℕ × ℕ × Client)
bulk_length at c = elim c.bulklen [
  | some l ↦ inr (l, at, c)
  | none ↦ elim (find_cr c.querybuf) [
    | none ↦ inl (
        if ltb inline_max_size (at + length c.querybuf)
        then protocol_error too_big_bulk_count c
        else c)
    | some i ↦
        if ltb (length c.querybuf) (i + 2)
        then inl c
        else if not (get_or c.querybuf 0 0 == b'$')
        then inl (protocol_error (expected_dollar (get_or c.querybuf 0 0)) c)
        else elim (bulk_size (line_number i c.querybuf)) [
          | none ↦ inl (protocol_error invalid_bulk_length c)
          | some l ↦ inr (
            l,
            if leb mbulk_big_arg l then 0 else at + i + 2,
            record c { querybuf = drop (i + 2) c.querybuf; bulklen = some l },
          )
        ]
  ]
]

-- The loop of `processMultibulkBuffer` with the rounds that are left, and its result.
unfoldable pub read_args : ℕ → ℕ → Client → Bool × Client
read_args zero at c = (true, record c { multibulklen = 0 })
read_args (suc n) at c = elim (bulk_length at c) [
  | inl d ↦ (false, record d { multibulklen = suc n })
  | inr (l, at', d) ↦ elim (ltb (length d.querybuf) (l + 2)) [
    | true ↦ (false, record d { multibulklen = suc n })
    | false ↦
        read_args n
          (if at' == 0 && leb mbulk_big_arg l && length d.querybuf == l + 2 then 0 else at' + l + 2)
          (record d {
            argv = d.argv ++ (take l d.querybuf ∷ []);
            querybuf = drop (l + 2) d.querybuf;
            bulklen = none;
          })
  ]
]

abbrev pub is_empty : List (List ℕ) → Bool
is_empty [] = true
is_empty _ = false

-- `processMultibulkBuffer`: whether it returns REDIS_OK, and the client; none if an assertion fails.
-- The assertion before the arguments are read, that some are expected, holds by the tests before it.
unfoldable pub process_multibulk : Client → Option (Bool × Client)
process_multibulk c =
    if not (c.multibulklen == 0)
    then some (read_args c.multibulklen 0 c)
    else if not (is_empty c.argv)
    then none
    else elim (find_cr c.querybuf) [
      | none ↦ some (
        false,
        if ltb inline_max_size (length c.querybuf) then protocol_error too_big_mbulk_count c else c,
      )
      | some i ↦
          if ltb (length c.querybuf) (i + 2)
          then some (false, c)
          else if not (get_or c.querybuf 0 0 == b'*')
          then none
          else elim (line_number i c.querybuf) [
            | none ↦ some (false, protocol_error invalid_multibulk_length c)
            | some (negsuc n) ↦ some (true, record c { querybuf = drop (i + 2) c.querybuf })
            | some (pos n) ↦
                if ltb (1024 * 1024) n
                then some (false, protocol_error invalid_multibulk_length c)
                else if n == 0
                then some (true, record c { querybuf = drop (i + 2) c.querybuf })
                else some (
                    read_args n (i + 2)
                      (record c { querybuf = drop (i + 2) c.querybuf; multibulklen = n }))
          ]
    ]

-- A line of `catAppendOnlyGenericCommand`: a character and a number, in a buffer of 32 bytes.
unfoldable pub number_line : ℕ → ℕ → List ℕ
number_line c n = c ∷ (ll2string 31 (pos n) ++ (b'\r' ∷ b'\n' ∷ []))

-- The loop of `catAppendOnlyGenericCommand`, and the function.
unfoldable pub cat_args : List ℕ → List (List ℕ) → List ℕ
cat_args dst [] = dst
cat_args dst (o ∷ os) =
    cat_args (((dst ++ number_line b'$' (length o)) ++ o) ++ (b'\r' ∷ b'\n' ∷ [])) os

unfoldable pub cat_command : List ℕ → List (List ℕ) → List ℕ
cat_command dst argv = cat_args (dst ++ number_line b'*' (length argv)) argv
