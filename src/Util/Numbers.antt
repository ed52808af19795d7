-- ===== src/Util/Numbers.antt =====
-- `ll2string` and `string2ll` of redis-stable/src/util.c are inverse to each other.
use mathlib.Core.Path.{subst}
use better_efisis.Prelude.{
  ℕ, zero, suc, ◌+◌, ◌-◌, ◌^◌, ◌≤◌, ◌<◌, ◌≡◌, ◌↔◌, refl, sym, ap, ◌∙◌, Bool, true, false, none,
  some, List, [], ◌∷◌, arith, if◌then◌else◌, ◌==◌, ltb, leb, ◌&&◌, length, take, Bool-cases,
  Option-cases, inl, inr, take_all, length-take,
}
use better_efisis.Prelude.Int.{ℤ, pos, negsuc, InBits, ltb_ℤ}
use better_efisis.Util.{
  digits_loop, text, ll2string, scan, signed, unsigned_part, string2ll, string2l,
}
use better_efisis.Util.Digits.{
  leading, leading_cases, leading-text, text-leading, length-digits_loop,
}

-- `string2ll` of digits, and of digits behind a sign.
string2ll-leading :
    (l : List ℕ) (r : ℕ × List ℕ)
    → leading l ≡ some r
    → (string2ll l ≡ signed false r) × (string2ll (b'-' ∷ l) ≡ signed true r)
unfolding leading string2ll unsigned_part
string2ll-leading [] r e = ground arith
string2ll-leading (c ∷ cs) r e =
    let (low, high, more) = leading_cases c cs r e in
    (rw more (ground arith), rw more (ground arith))

pub string2ll-text : (v : ℤ) → InBits 64 v → string2ll (text v) ≡ some v
unfolding text signed digits_loop string2ll
string2ll-text (pos zero) h = refl
string2ll-text (pos (suc n)) h =
    (string2ll-leading (digits_loop 32 (suc n) []) (suc n, [])
      (leading-text (suc n) (omega arith) (omega arith))).0
    ∙ ground arith
string2ll-text (negsuc n) h =
    (string2ll-leading (digits_loop 32 (suc n) []) (suc n, [])
      (leading-text (suc n) (omega arith) (omega arith))).1
    ∙ ground arith

-- What a text that `unsigned_part` takes looks like, but for the text of 0.
unsigned_part_cases :
    (negative : Bool) (slen c : ℕ) (cs : List ℕ) (v : ℤ)
    → slen == 1 && c == b'0' ≡ false
    → unsigned_part negative slen (c ∷ cs) ≡ some v
    → (r : ℕ × List ℕ) × (leading (c ∷ cs) ≡ some r) × (signed negative r ≡ some v)
unfolding unsigned_part leading
unsigned_part_cases negative slen c cs v h e =
    elim (scan (c - b'0') cs)
        as (λ o.
          (if leb b'1' c && leb c b'9'
              then elim o [ none ↦ none | some r ↦ signed negative r ]
              else if c == b'0' && slen == 1
              then some (pos 0)
              else none)
            ≡ some v
          → (r : ℕ × List ℕ) × ((if leb b'1' c && leb c b'9' then o else none) ≡ some r)
            × (signed negative r ≡ some v)) [
              | none ↦ λ e'. absurd (ground arith)
              | some r ↦ λ e'. (r, ground arith, ground arith)
            ]
      e

signed_end :
    (negative : Bool) (n : ℕ) (l : List ℕ) (v : ℤ) → signed negative (n, l) ≡ some v → l ≡ []
unfolding signed
signed_end negative n [] v e = refl
signed_end negative n (c ∷ cs) v e = absurd (ground arith)

signed-text :
    (negative : Bool) (n : ℕ) (v : ℤ)
    → 0 < n
    → signed negative (n, []) ≡ some v
    → InBits 64 v
      × (text v ≡ (if negative then b'-' ∷ digits_loop 32 n [] else digits_loop 32 n []))
unfolding signed text
signed-text true zero v h e = absurd (omega arith)
signed-text true (suc n) v h e =
    let (fits, same) : (n < 2 ^ 63) × (v ≡ negsuc n) = ground arith in
    (subst (InBits 64) (sym same) fits, ap text same)
signed-text false n v h e =
    let (fits, same) : (n < 2 ^ 63) × (v ≡ pos n) = ground arith in
    (subst (InBits 64) (sym same) fits, ap text same)

-- What `unsigned_part` takes is the text of the number without its sign.
unsigned_part-text :
    (negative : Bool) (slen c : ℕ) (cs : List ℕ) (v : ℤ)
    → slen == 1 && c == b'0' ≡ false
    → unsigned_part negative slen (c ∷ cs) ≡ some v
    → InBits 64 v × (text v ≡ (if negative then b'-' ∷ c ∷ cs else c ∷ cs))
unsigned_part-text negative slen c cs v h e =
    let ((n, l), lead, sign) = unsigned_part_cases negative slen c cs v h e in
    let end = signed_end negative n l v sign in
    let (low, high, digits) =
      text-leading (c ∷ cs) n (subst (λ t. leading (c ∷ cs) ≡ some (n, t)) end lead) in
    let (fits, w) =
      signed-text negative n v low (subst (λ t. signed negative (n, t) ≡ some v) end sign) in
    (fits, w ∙ ap (λ t. if negative then b'-' ∷ t else t) digits)

zero-text :
    (c : ℕ) (cs : List ℕ) (v : ℤ)
    → length (c ∷ cs) == 1 && c == b'0' ≡ true
    → string2ll (c ∷ cs) ≡ some v
    → InBits 64 v × (text v ≡ c ∷ cs)
unfolding string2ll text digits_loop
zero-text c [] v h e =
    let (same, char) : (v ≡ pos 0) × (c ≡ b'0') = ground arith in
    (subst (InBits 64) (sym same) (omega arith), ap text same ∙ ap (λ d. d ∷ []) (sym char))
zero-text c (d ∷ cs) v h e = absurd (ground arith)

sign_alone : (v : ℤ) → ¬ (string2ll (b'-' ∷ []) ≡ some v)
unfolding string2ll unsigned_part
sign_alone v e = ground arith

minus-text :
    (c : ℕ) (cs : List ℕ) (v : ℤ)
    → c ≡ b'-'
    → string2ll (c ∷ cs) ≡ some v
    → InBits 64 v × (text v ≡ c ∷ cs)
unfolding string2ll
minus-text c [] v h e = absurd (sign_alone v (subst (λ d. string2ll (d ∷ []) ≡ some v) h e))
minus-text c (d ∷ cs) v h e =
    let (fits, w) =
      unsigned_part-text true (length (c ∷ d ∷ cs)) d cs v (ground arith) (ground arith) in
    (fits, w ∙ ap (λ b. b ∷ d ∷ cs) (sym h))

-- What `string2ll` takes is the text of a 64-bit number.
string2ll-Text : (s : List ℕ) (v : ℤ) → string2ll s ≡ some v → InBits 64 v × (text v ≡ s)
unfolding string2ll
string2ll-Text [] v e = absurd (ground arith)
string2ll-Text (c ∷ cs) v e = elim (Bool-cases (length (c ∷ cs) == 1 && c == b'0')) [
  | inl zero_only ↦ zero-text c cs v zero_only e
  | inr h ↦ elim (Bool-cases (c == b'-')) [
    | inl minus ↦ minus-text c cs v (ground arith) e
    | inr plus ↦ unsigned_part-text false (length (c ∷ cs)) c cs v h (ground arith)
  ]
]

pub length-text : (v : ℤ) → InBits 64 v → length (text v) ≤ 20
unfolding text
length-text (pos n) h = omega (arith, length-digits_loop 32 n 18 [] (omega arith))
length-text (negsuc n) h = omega (arith, length-digits_loop 32 (suc n) 18 [] (omega arith))

pub ll2string-text : (len : ℕ) (v : ℤ) → 21 ≤ len → InBits 64 v → ll2string len v ≡ text v
unfolding ll2string
ll2string-text len v h fits =
    let short = length-text v fits in
    let some_room : (len == 0) ≡ false = ground arith in
    let enough : ltb len (length (text v) + 1) ≡ false = ground arith in
    rw (some_room, enough) (take_all (length (text v)) (text v) (omega arith))

-- A string is read as a number exactly if it is what `ll2string` writes of a 64-bit value into 21
-- bytes or more, and it is read as that value.
pub string2ll-ll2string :
    (len : ℕ) (s : List ℕ) (v : ℤ)
    → 21 ≤ len
    → (string2ll s ≡ some v) ↔ (InBits 64 v × (ll2string len v ≡ s))
string2ll-ll2string len s v h = (
  λ e. let (fits, w) = string2ll-Text s v e in (fits, ll2string-text len v h fits ∙ w),
  λ p. let e = ll2string-text len v h p.0 in ap string2ll (sym p.1 ∙ e) ∙ string2ll-text v p.0,
)

-- `ll2string` with a buffer of `len` bytes, of which there is one, writes a prefix of the text and
-- leaves room for the final 0.
pub ll2string_fits :
    (len : ℕ) (v : ℤ)
    → 0 < len
    → (length (ll2string len v) < len) × (ll2string len v ≡ take (len - 1) (text v))
unfolding ll2string
ll2string_fits len v h =
    let some_room : (len == 0) ≡ false = ground arith in
    elim (Bool-cases (ltb len (length (text v) + 1))) [
      | inl cut ↦
          rw (some_room, cut, ll2string) (ground (arith, length-take (len - 1) (text v)), refl)
      | inr enough ↦
          let all = take_all (length (text v)) (text v) (omega arith) in
          rw (some_room, enough, all, ll2string)
            (ground arith, sym (take_all (len - 1) (text v) (ground arith)))
    ]

in_range :
    (v : ℤ)
    → InBits 64 v
    → (if ltb_ℤ v (negsuc (2 ^ 63 - 1))
        then none
        else if ltb_ℤ (pos (2 ^ 63 - 1)) v
        then none
        else some v)
      ≡ some v
in_range (pos n) h = ground arith
in_range (negsuc n) h = ground arith

-- Where a `long` has 64 bits, `string2l` takes what `string2ll` takes.
pub string2l-string2ll : (s : List ℕ) → string2l s ≡ string2ll s
unfolding string2l
string2l-string2ll s = elim (Option-cases (string2ll s)) [
  | inl e ↦ rw (e, string2l) refl
  | inr (v, e) ↦ rw (e, string2l) (in_range v (string2ll-Text s v e).0)
]
