-- ===== src/Protocol/Lines.antt =====
-- A line of the request protocol: what redis-stable/src/aof.c writes as a number is read back by
-- redis-stable/src/networking.c.
use mathlib.Core.Path.{subst}
use better_efisis.Prelude.{
  ℕ, zero, suc, ◌+◌, ◌-◌, ◌/◌, ◌%◌, ◌^◌, ◌≤◌, ◌<◌, ◌≡◌, refl, sym, ap, ◌∙◌, true, false, some, List,
  [], ◌∷◌, ◌++◌, append_assoc, arith, if◌then◌else◌, ◌==◌, length, length-append, take, drop,
  get_or, take-append, drop-append,
}
use better_efisis.Prelude.Int.{pos}
use better_efisis.Util.{digits_loop, text, string2ll, is_digit}
use better_efisis.Util.Numbers.{string2ll-text, ll2string-text}
use better_efisis.Protocol.{find_cr, line_number, number_line}

-- No character ends a search for '\r' but the one sought.
abbrev AllDigits : List ℕ → Type 0
AllDigits [] = Unit {0}
AllDigits (c ∷ cs) = (is_digit c ≡ true) × AllDigits cs

digits_loop-AllDigits : (f v : ℕ) (buf : List ℕ) → AllDigits buf → AllDigits (digits_loop f v buf)
unfolding digits_loop
digits_loop-AllDigits zero v buf h = h
digits_loop-AllDigits (suc f) v buf h =
    let first : is_digit (b'0' + v % 10) ≡ true = ground arith in
    elim (v / 10 == 0)
      as (λ b.
        AllDigits
          (if b then (b'0' + v % 10) ∷ buf else digits_loop f (v / 10) ((b'0' + v % 10) ∷ buf))) [
            | true ↦ (first, h)
            | false ↦ digits_loop-AllDigits f (v / 10) ((b'0' + v % 10) ∷ buf) (first, h)
          ]

find_cr-AllDigits :
    (ds rest : List ℕ) → AllDigits ds → find_cr (ds ++ (b'\r' ∷ rest)) ≡ some (length ds)
unfolding find_cr
find_cr-AllDigits [] rest h = refl
find_cr-AllDigits (d ∷ ds) rest h = ground (arith, find_cr-AllDigits ds rest h.1)

-- What a line looks like to the reader, whatever follows it.
pub record IsLine (q : List ℕ) (first n : ℕ) (rest : List ℕ) : Type 0 where
  pub end : ℕ
  pub cr : find_cr q ≡ some end
  pub whole : end + 2 ≤ length q
  pub head : get_or q 0 0 ≡ first
  pub number : line_number end q ≡ some (pos n)
  pub after : drop (end + 2) q ≡ rest

text-IsLine :
    (first n : ℕ) (rest : List ℕ)
    → n < 2 ^ 63
    → first == b'\r' ≡ false
    → first == 0 ≡ false
    → IsLine (first ∷ (text (pos n) ++ (b'\r' ∷ b'\n' ∷ rest))) first n rest
unfolding find_cr text
text-IsLine first n rest h not_cr not_zero =
    let t = digits_loop 32 n [] in
    let size = length-append t (b'\r' ∷ b'\n' ∷ rest) in
    let two : length t + 2 ≡ length (t ++ (b'\r' ∷ b'\n' ∷ [])) =
      omega (arith, length-append t (b'\r' ∷ b'\n' ∷ [])) in
    let one_less : suc (length t) - 1 ≡ length t = omega arith in
    let one_more : suc (length t) + 2 ≡ suc (length t + 2) = omega arith in
    record {
      end = suc (length t);
      cr =
          rw
            (
              not_cr,
              not_zero,
              find_cr-AllDigits t (b'\n' ∷ rest) (digits_loop-AllDigits 32 n [] tt),
              find_cr,
            )
            refl;
      whole = omega (arith, size);
      head = refl;
      number =
          ap (λ k. string2ll (take k (t ++ (b'\r' ∷ b'\n' ∷ rest)))) one_less
          ∙ ap string2ll (take-append t (b'\r' ∷ b'\n' ∷ rest))
          ∙ string2ll-text (pos n) h;
      after =
          ap (λ k. drop k (first ∷ (t ++ (b'\r' ∷ b'\n' ∷ rest)))) one_more
          ∙ ap (λ k. drop k (t ++ (b'\r' ∷ b'\n' ∷ rest))) two
          ∙ ap (drop (length (t ++ (b'\r' ∷ b'\n' ∷ []))))
              (sym (append_assoc t (b'\r' ∷ b'\n' ∷ []) rest))
          ∙ drop-append (t ++ (b'\r' ∷ b'\n' ∷ [])) rest;
    }

pub number_line-IsLine :
    (first n : ℕ) (rest : List ℕ)
    → n < 2 ^ 63
    → first == b'\r' ≡ false
    → first == 0 ≡ false
    → IsLine (number_line first n ++ rest) first n rest
unfolding number_line
number_line-IsLine first n rest h not_cr not_zero =
    subst (λ q. IsLine q first n rest)
      (ap (λ t. first ∷ t)
        (sym (append_assoc (text (pos n)) (b'\r' ∷ b'\n' ∷ []) rest)
          ∙ ap (λ t. (t ++ (b'\r' ∷ b'\n' ∷ [])) ++ rest)
              (sym (ll2string-text 31 (pos n) (omega arith) h))))
      (text-IsLine first n rest h not_cr not_zero)
