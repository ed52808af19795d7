-- ===== src/Protocol/Bounds.antt =====
-- What a client can make redis-stable/src/networking.c hold, whatever it sends.
use mathlib.Core.Path.{subst}
use better_efisis.Prelude.{
  ◌⊎◌, ℕ, zero, suc, ◌+◌, ◌*◌, ◌≤◌, ◌≡◌, refl, sym, ap, Bool, true, false, Option, none, some, List,
  [], ◌∷◌, ◌++◌, arith, if◌then◌else◌, ◌==◌, ltb, length, length-append, length-take, take, drop,
  get_or, inl, inr, Bool-cases, Option-cases,
}
use better_efisis.Prelude.Int.{ℤ, pos, negsuc}
use better_efisis.Protocol.{
  Client, Error, too_big_mbulk_count, invalid_multibulk_length, find_cr, line_number, bulk_length,
  bulk_size, read_args, process_multibulk, protocol_error, inline_max_size, is_empty,
}
use better_efisis.Protocol.Requests.{AllFit}

abbrev pub Fits : Option ℕ → Type 0
Fits none = Unit {0}
Fits (some l) = l ≤ 512 * 1024 * 1024

-- At most 1024 * 1024 arguments, read or to come, and none longer than 512 MB.
pub record IsBounded (c : Client) : Type 0 where
  pub count : length c.argv + c.multibulklen ≤ 1024 * 1024
  pub arguments : AllFit c.argv
  pub next : Fits c.bulklen

AllFit-append :
    (xs : List (List ℕ)) (x : List ℕ)
    → AllFit xs
    → length x ≤ 512 * 1024 * 1024
    → AllFit (xs ++ (x ∷ []))
AllFit-append [] x h k = (k, tt)
AllFit-append (y ∷ xs) x h k = (h.0, AllFit-append xs x h.1 k)

bulk_size-Fits : (o : Option ℤ) → Fits (bulk_size o)
bulk_size-Fits none = tt
bulk_size-Fits (some (negsuc n)) = tt
bulk_size-Fits (some (pos n)) = ground arith

-- What reading a length leaves of the arguments.
abbrev Read : Client → (Client ⊎ (ℕ × ℕ × Client)) → Type 0
Read c (inl d) = (d.argv ≡ c.argv) × Fits d.bulklen
Read c (inr (l, at, d)) = (l ≤ 512 * 1024 * 1024) × (d.argv ≡ c.argv) × (d.bulklen ≡ some l)

bulk_length-Read : (at : ℕ) (c : Client) → Fits c.bulklen → Read c (bulk_length at c)
unfolding bulk_length protocol_error
bulk_length-Read at c h = elim (Option-cases c.bulklen) [
  | inr (l, e) ↦ rw (e, bulk_length) (subst Fits e h, refl, e)
  | inl e ↦ elim (Option-cases (find_cr c.querybuf)) [
    | inl f ↦ elim (Bool-cases (ltb inline_max_size (at + length c.querybuf))) [
      | inl g ↦ rw (e, f, g, bulk_length) (refl, h)
      | inr g ↦ rw (e, f, g, bulk_length) (refl, h)
    ]
    | inr (i, f) ↦ elim (Bool-cases (ltb (length c.querybuf) (i + 2))) [
      | inl g ↦ rw (e, f, g, bulk_length) (refl, h)
      | inr g ↦ elim (Bool-cases (get_or c.querybuf 0 0 == b'$')) [
        | inr d ↦ rw (e, f, g, d, bulk_length) (refl, h)
        | inl d ↦ elim (Option-cases (bulk_size (line_number i c.querybuf))) [
          | inl b ↦ rw (e, f, g, d, b, bulk_length) (refl, h)
          | inr (l, b) ↦
              rw (e, f, g, d, b, bulk_length)
                (subst Fits b (bulk_size-Fits (line_number i c.querybuf)), refl, refl)
        ]
      ]
    ]
  ]
]

round_cases :
    (r : Client ⊎ (ℕ × ℕ × Client))
    → ((d : Client) × (r ≡ inl d)) ⊎ ((l at : ℕ) × (d : Client) × (r ≡ inr (l, at, d)))
round_cases (inl d) = inl (d, refl)
round_cases (inr (l, at, d)) = inr (l, at, d, refl)

read_args-IsBounded :
    (n at : ℕ) (c : Client)
    → length c.argv + n ≤ 1024 * 1024
    → AllFit c.argv
    → Fits c.bulklen
    → IsBounded (read_args n at c).1
unfolding read_args
read_args-IsBounded zero at c h a b = record { count = h; arguments = a; next = b }
read_args-IsBounded (suc n) at c h a b = elim (round_cases (bulk_length at c)) [
  | inl (d, e) ↦
      let (same, next) : Read c (inl d) = subst (Read c) e (bulk_length-Read at c b) in
      rw (e, read_args)
        (record {
          count = omega (arith, h, ap length same);
          arguments = subst AllFit (sym same) a;
          next = next;
        })
  | inr (l, at', d, e) ↦
      let (fits, same, next) : Read c (inr (l, at', d)) =
        subst (Read c) e (bulk_length-Read at c b) in
      let args = subst AllFit (sym same) a in
      elim (Bool-cases (ltb (length d.querybuf) (l + 2))) [
        | inl short ↦
            rw (e, short, read_args)
              (record {
                count = omega (arith, h, ap length same);
                arguments = args;
                next = subst Fits (sym next) fits;
              })
        | inr enough ↦
            rw (e, enough, read_args)
              (read_args-IsBounded n _
                (record d {
                  argv = d.argv ++ (take l d.querybuf ∷ []);
                  querybuf = drop (l + 2) d.querybuf;
                  bulklen = none;
                })
                (omega (arith, h, ap length same, length-append d.argv (take l d.querybuf ∷ [])))
                (AllFit-append d.argv (take l d.querybuf) args
                  (omega (arith, fits, length-take l d.querybuf)))
                tt)
      ]
]

-- No assertion failed, and the client is bounded.
abbrev pub EndsBounded : Option (Bool × Client) → Type 0
EndsBounded none = ⊥
EndsBounded (some (ok, d)) = IsBounded d

refuse-IsBounded : (e : Error) (c : Client) → IsBounded c → IsBounded (protocol_error e c)
unfolding protocol_error
refuse-IsBounded e c v = record { count = v.count; arguments = v.arguments; next = v.next }

skip-IsBounded : (q : List ℕ) (c : Client) → IsBounded c → IsBounded (record c { querybuf = q })
skip-IsBounded q c v = record { count = v.count; arguments = v.arguments; next = v.next }

-- What is done with the number of arguments.
by_number :
    (c : Client)
    → IsBounded c
    → c.argv ≡ []
    → (i : ℕ) (o : Option ℤ)
    → EndsBounded (elim o as (λ _. Option (Bool × Client)) [
      | none ↦ some (false, protocol_error invalid_multibulk_length c)
      | some (negsuc n) ↦ some (true, record c { querybuf = drop (i + 2) c.querybuf })
      | some (pos n) ↦
          if ltb (1024 * 1024) n
          then some (false, protocol_error invalid_multibulk_length c)
          else if n == 0
          then some (true, record c { querybuf = drop (i + 2) c.querybuf })
          else some (
              read_args n
                (i + 2)
                (record c { querybuf = drop (i + 2) c.querybuf; multibulklen = n }))
    ])
by_number c v e i none = refuse-IsBounded invalid_multibulk_length c v
by_number c v e i (some (negsuc n)) = skip-IsBounded (drop (i + 2) c.querybuf) c v
by_number c v e i (some (pos n)) = elim (Bool-cases (ltb (1024 * 1024) n)) [
  | inl big ↦ rw big (refuse-IsBounded invalid_multibulk_length c v)
  | inr fits ↦ elim (Bool-cases (n == 0)) [
    | inl nothing ↦ rw (fits, nothing) (skip-IsBounded (drop (i + 2) c.querybuf) c v)
    | inr some_args ↦
        rw (fits, some_args)
          (read_args-IsBounded n (i + 2)
            (record c { querybuf = drop (i + 2) c.querybuf; multibulklen = n })
            (ground (arith, fits, ap length e)) v.arguments v.next)
  ]
]

-- Whatever bytes the buffer holds, `processMultibulkBuffer` keeps the bounds on what a client has
-- sent of a command. It fails no assertion if, where no command is begun, there are no arguments yet
-- and the buffer begins with '*'.
pub process_multibulk-EndsBounded :
    (c : Client)
    → IsBounded c
    → (c.multibulklen ≡ 0 → (c.argv ≡ []) × (get_or c.querybuf 0 0 ≡ b'*'))
    → EndsBounded (process_multibulk c)
unfolding process_multibulk
process_multibulk-EndsBounded c v start = elim (Bool-cases (c.multibulklen == 0)) [
  | inr inside ↦
      rw (inside, process_multibulk)
        (read_args-IsBounded c.multibulklen 0 c v.count v.arguments v.next)
  | inl outside ↦
      let (no_args, star) = start (ground (arith, outside)) in
      let empty : is_empty c.argv ≡ true = subst (λ l. is_empty l ≡ true) (sym no_args) refl in
      let first : (get_or c.querybuf 0 0 == b'*') ≡ true = ground (arith, star) in
      elim (Option-cases (find_cr c.querybuf)) [
        | inl f ↦ elim (Bool-cases (ltb inline_max_size (length c.querybuf))) [
          | inl g ↦
              rw (outside, empty, f, g, process_multibulk)
                (refuse-IsBounded too_big_mbulk_count c v)
          | inr g ↦ rw (outside, empty, f, g, process_multibulk) v
        ]
        | inr (i, f) ↦ elim (Bool-cases (ltb (length c.querybuf) (i + 2))) [
          | inl g ↦ rw (outside, empty, f, g, process_multibulk) v
          | inr g ↦
              rw (outside, empty, f, g, first, process_multibulk)
                (by_number c v no_args i (line_number i c.querybuf))
        ]
      ]
]
