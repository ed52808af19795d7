-- ===== src/Protocol/Requests.antt =====
-- Whole commands: redis-stable/src/networking.c reads what redis-stable/src/aof.c writes.
use better_efisis.Prelude.{
  ℕ, suc, ◌+◌, ◌*◌, ◌≤◌, ◌≡◌, refl, sym, ap, ◌∙◌, Bool, true, false, Option, none, some, List, [],
  ◌∷◌, ◌++◌, append-nil, append_assoc, arith, if◌then◌else◌, ◌==◌, ltb, leb, length, length-append,
  drop, take-append, inr,
}
use better_efisis.Prelude.Int.{pos}
use better_efisis.Protocol.{
  Client, number_line, bulk_length, bulk_size, read_args, process_multibulk, cat_args, cat_command,
  reset_client, mbulk_big_arg,
}
use better_efisis.Protocol.Lines.{IsLine, number_line-IsLine}

-- The longest argument that is read has 512 MB.
abbrev pub AllFit : List (List ℕ) → Type 0
AllFit [] = Unit {0}
AllFit (o ∷ os) = (length o ≤ 512 * 1024 * 1024) × AllFit os

-- The arguments as they are written.
unfoldable pub written_args : List (List ℕ) → List ℕ
written_args [] = []
written_args (o ∷ os) = number_line b'$' (length o) ++ (o ++ (b'\r' ∷ b'\n' ∷ written_args os))

cat_args-written_args :
    (os : List (List ℕ)) (dst : List ℕ) → cat_args dst os ≡ dst ++ written_args os
unfolding cat_args written_args
cat_args-written_args [] dst = sym (append-nil dst)
cat_args-written_args (o ∷ os) dst =
    cat_args-written_args os (((dst ++ number_line b'$' (length o)) ++ o) ++ (b'\r' ∷ b'\n' ∷ []))
    ∙ simp (append_assoc)

-- A client with a buffer and arguments.
abbrev with_input : Client → List ℕ → List (List ℕ) → Client
with_input c q args = record c { querybuf = q; bulklen = none; argv = args }

bulk_length-IsLine :
    (at n : ℕ) (c : Client) (q rest : List ℕ) (args : List (List ℕ))
    → IsLine q b'$' n rest
    → n ≤ 512 * 1024 * 1024
    → (at' : ℕ) × (bulk_length at (with_input c q args)
        ≡ inr (n, at', record c { querybuf = rest; bulklen = some n; argv = args }))
unfolding bulk_length
bulk_length-IsLine at n c q rest args l h =
    let long : ltb (length q) (l.end + 2) ≡ false = ground (arith, l.whole) in
    let fits : bulk_size (some (pos n)) ≡ some n = ground arith in
    (
      if leb mbulk_big_arg n then 0 else at + l.end + 2,
      rw (l.cr, long, l.head, l.number, fits, l.after, bulk_length) refl,
    )

drop_bulk : (o more : List ℕ) → drop (length o + 2) (o ++ (b'\r' ∷ b'\n' ∷ more)) ≡ more
drop_bulk [] more = refl
drop_bulk (x ∷ o) more =
    let e : suc (length o) + 2 ≡ suc (length o + 2) = omega arith in
    ap (λ k. drop k (x ∷ (o ++ (b'\r' ∷ b'\n' ∷ more)))) e ∙ drop_bulk o more

read_args-written_args :
    (os : List (List ℕ)) (at : ℕ) (c : Client) (rest : List ℕ) (args : List (List ℕ))
    → AllFit os
    → read_args (length os) at (with_input c (written_args os ++ rest) args)
      ≡ (true, record (with_input c rest (args ++ os)) { multibulklen = 0 })
unfolding read_args written_args
read_args-written_args [] at c rest args h =
    ap (λ l. (true, record (with_input c rest l) { multibulklen = 0 })) (sym (append-nil args))
read_args-written_args (o ∷ os) at c rest args h =
    let more = written_args os ++ rest in
    let line =
      number_line-IsLine b'$' (length o) (o ++ (b'\r' ∷ b'\n' ∷ more)) (omega (arith, h.0)) refl
        refl in
    let (at', e) =
      bulk_length-IsLine at (length o) c _ (o ++ (b'\r' ∷ b'\n' ∷ more)) args line h.0 in
    let enough : ltb (length (o ++ (b'\r' ∷ b'\n' ∷ more))) (length o + 2) ≡ false =
      ground (arith, length-append o (b'\r' ∷ b'\n' ∷ more)) in
    ap (λ q. read_args (suc (length os)) at (with_input c q args))
      (append_assoc (number_line b'$' (length o)) (o ++ (b'\r' ∷ b'\n' ∷ written_args os)) rest
        ∙ ap (λ q. number_line b'$' (length o) ++ q)
            (append_assoc o (b'\r' ∷ b'\n' ∷ written_args os) rest))
    ∙ rw (e, enough, take-append o (b'\r' ∷ b'\n' ∷ more), drop_bulk o more, read_args)
        (read_args-written_args os _ c rest (args ++ (o ∷ [])) h.1
          ∙ ap (λ l. (true, record (with_input c rest l) { multibulklen = 0 }))
              (append_assoc args (o ∷ []) os))

all_read :
    (argv : List (List ℕ)) (at : ℕ) (rest : List ℕ) (c : Client)
    → AllFit argv
    → ◌≡◌ {A = Option (Bool × Client)}
        (if length argv == 0
          then some
              (true, with_input (record c { multibulklen = 0 }) (written_args argv ++ rest) [])
          else some (
              read_args (length argv) at (
                with_input
                  (record c { multibulklen = length argv })
                  (written_args argv ++ rest)
                  [])))
        (some (true, with_input (record c { multibulklen = 0 }) rest argv))
unfolding written_args
all_read [] at rest c fit = refl
all_read (o ∷ os) at rest c fit =
    let more : (length (o ∷ os) == 0) ≡ false = ground arith in
    rw more (
      ap some (
        read_args-written_args (o ∷ os) at (record c { multibulklen = length (o ∷ os) }) rest []
          fit))

-- `processMultibulkBuffer` reads a command of up to 1024 * 1024 arguments of up to 512 MB as
-- `catAppendOnlyGenericCommand` wrote it, whatever bytes they hold, and leaves what follows.
pub process_multibulk-cat_command :
    (argv : List (List ℕ)) (rest : List ℕ) (c : Client)
    → length argv ≤ 1024 * 1024
    → AllFit argv
    → process_multibulk (record (reset_client c) { querybuf = cat_command [] argv ++ rest })
      ≡ some (true, record (reset_client c) { querybuf = rest; argv = argv })
unfolding process_multibulk cat_command reset_client
process_multibulk-cat_command argv rest c h fit =
    let more = written_args argv ++ rest in
    let l = number_line-IsLine b'*' (length argv) more (omega arith) refl refl in
    let long : ltb (length (number_line b'*' (length argv) ++ more)) (l.end + 2) ≡ false =
      ground (arith, l.whole) in
    let few : ltb (1024 * 1024) (length argv) ≡ false = ground arith in
    ap (λ q. process_multibulk (with_input (reset_client c) q []))
      (ap (λ q. q ++ rest) (cat_args-written_args argv (number_line b'*' (length argv)))
        ∙ append_assoc (number_line b'*' (length argv)) (written_args argv) rest)
    ∙ rw (l.cr, long, l.head, l.number, few, l.after, process_multibulk)
        (all_read argv _ rest c fit)
