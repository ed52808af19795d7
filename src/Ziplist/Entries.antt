-- ===== src/Ziplist/Entries.antt =====
-- redis-stable/src/ziplist.c: an entry is read back as it was written.
use mathlib.Core.Option
use mathlib.Core.Path.{subst}
use better_efisis.Prelude.{
  ℕ, ◌+◌, ◌%◌, ◌^◌, ◌<◌, ◌≤◌, ◌≡◌, inl, inr, refl, sym, ap, ◌∙◌, true, false, some, List, ◌++◌,
  append_assoc, ◌==◌, if◌then◌else◌, length, length-append, take, drop, drop-append, drop-add,
  take-append, Option-cases, arith,
}
use better_efisis.Prelude.Int.{ℤ}
use better_efisis.Util.{string2ll, ll2string}
use better_efisis.Util.Numbers.{string2ll-ll2string}
use better_efisis.Ziplist.{
  is_str, int_size, encode_length, decode_length, encode_prev, encoding_for, try_encoding,
  load_value, Zlentry, zip_entry, raw_entry_length, Content, str, int, first_byte, ziplist_get,
  write_entry, required_length,
}
use better_efisis.Ziplist.Codes.{
  decode_prev-encode_prev, str_encoding, decode_length-str, encoding_for-int, decode_length-int,
  Stored, stored,
}

-- A content as text, as `addReplyBulkLongLong` and others give an integer.
abbrev pub text_of : Content → List ℕ
text_of (str s) = s
text_of (int v) = ll2string 32 v

-- An entry is read after `head`, its two lengths.
zip_entry_lem :
    (prev enc m l : ℕ) (code rest : List ℕ)
    → prev < 2 ^ 32
    → decode_length (code ++ rest) ≡ some (enc, m, l)
    → zip_entry (encode_prev prev ++ (code ++ rest))
      ≡ some (record {
        prevrawlensize = length (encode_prev prev);
        prevrawlen = prev;
        lensize = m;
        len = l;
        encoding = enc;
      })
unfolding zip_entry
zip_entry_lem prev enc m l code rest h e =
    rw
      (
        decode_prev-encode_prev prev (code ++ rest) h,
        drop-append (encode_prev prev) (code ++ rest),
        e,
        zip_entry,
      )
      refl

first_byte_lem : (prev : ℕ) (rest : List ℕ) → (first_byte (encode_prev prev ++ rest) == 255) ≡ false
unfolding encode_prev
first_byte_lem prev rest = ground arith

-- What is read of an entry of `bs` that is followed by `rest`: its size, the previous length, and the
-- text.
pub record Reads (bs rest : List ℕ) (prev : ℕ) (s : List ℕ) : Type 0 where
  pub size : raw_entry_length (bs ++ rest) ≡ some (length bs)
  pub previous : Option.map (λ (e : Zlentry). e.prevrawlen) (zip_entry (bs ++ rest)) ≡ some prev
  pub string : Option.map text_of (ziplist_get (bs ++ rest)) ≡ some s

-- The codes before the content take ten bytes at most, and an integer eight.
short_prev : (prev : ℕ) → length (encode_prev prev) ≤ 5
unfolding encode_prev
short_prev prev = ground arith

short_code : (enc n : ℕ) → length (encode_length enc n) ≤ 5
unfolding encode_length
short_code enc n = ground arith

short_int : (enc : ℕ) → int_size enc ≤ 8
short_int enc = ground arith

-- The same for the two lengths `head` and `body` of a payload `b`.
reads_lem :
    (prev enc m l : ℕ) (code b rest s : List ℕ) (c : Content)
    → prev < 2 ^ 32
    → decode_length (code ++ (b ++ rest)) ≡ some (enc, m, l)
    → m ≡ length code
    → l ≡ length b
    → length (encode_prev prev ++ (code ++ b)) < 2 ^ 32
    → text_of c ≡ s
    → (if is_str enc
        then some (str (take l (b ++ rest)))
        else Option.map int (load_value (b ++ rest) enc))
      ≡ some c
    → Reads (encode_prev prev ++ (code ++ b)) rest prev s
unfolding raw_entry_length ziplist_get
reads_lem prev enc m l code b rest s c h e em el fits t g =
    let p = encode_prev prev in
    let whole = p ++ (code ++ (b ++ rest)) in
    let q : (p ++ (code ++ b)) ++ rest ≡ whole =
      append_assoc p (code ++ b) rest ∙ ap (λ x. p ++ x) (append_assoc code b rest) in
    let entry : Zlentry = record {
      prevrawlensize = length p;
      prevrawlen = prev;
      lensize = m;
      len = l;
      encoding = enc;
    } in
    let z : zip_entry whole ≡ some entry = zip_entry_lem prev enc m l code (b ++ rest) h e in
    let zq : zip_entry ((p ++ (code ++ b)) ++ rest) ≡ some entry = ap zip_entry q ∙ z in
    let payload : drop (length p + m) whole ≡ b ++ rest =
      sym (drop-add (length p) m whole)
      ∙ ap (drop m) (drop-append p (code ++ (b ++ rest)))
      ∙ ap (λ k. drop k (code ++ (b ++ rest))) em
      ∙ drop-append code (b ++ rest) in
    let sizes : (length p + m + l) % 2 ^ 32 ≡ length (p ++ (code ++ b)) =
      omega (arith, fits, length-append p (code ++ b), length-append code b) in
    let got : ziplist_get whole ≡ some c =
      rw (z, ziplist_get) (rw (first_byte_lem prev (code ++ (b ++ rest)), payload) g) in
    record {
      size =
          ap (Option.map (λ (x : Zlentry). (x.prevrawlensize + x.lensize + x.len) % 2 ^ 32)) zq
          ∙ ap some sizes;
      previous = ap (Option.map (λ (x : Zlentry). x.prevrawlen)) zq;
      string =
          ap (λ x. Option.map text_of (ziplist_get x)) q ∙ ap (Option.map text_of) got ∙ ap some t;
    }

str_encoding_lem : (n : ℕ) → is_str (str_encoding n) ≡ true
str_encoding_lem n = ground arith

try_encoding_lem :
    (s : List ℕ) (v : ℤ) (enc : ℕ)
    → try_encoding s ≡ some (v, enc)
    → (string2ll s ≡ some v) × (enc ≡ encoding_for v)
unfolding try_encoding
try_encoding_lem s v enc e = ground arith

-- An entry of a text shorter than 2 ^ 32 - 10 bytes, that is written after one of `prev` bytes,
-- whatever follows it, takes the room that is made for it, and is read back with its size, with
-- `prev`, and with its text, also where it is kept as an integer.
pub write_entry-Reads :
    (prev : ℕ) (s rest : List ℕ)
    → prev < 2 ^ 32
    → length s + 10 < 2 ^ 32
    → (bs : List ℕ) × (write_entry prev s ≡ some bs)
      × (length bs ≡ required_length prev s)
      × Reads bs rest prev s
unfolding write_entry required_length
write_entry-Reads prev s rest h k = elim (Option-cases (try_encoding s)) [
  | inl e ↦
      let n = length s in
      let p = encode_prev prev in
      let code = encode_length 0 n in
      let room : length (p ++ (code ++ s)) ≡ n + length p + length code =
        omega (arith, length-append p (code ++ s), length-append code s) in
      let fits : n + length p + length code < 2 ^ 32 =
        omega (arith, k, short_prev prev, short_code 0 n) in
      (
        p ++ (code ++ s),
        rw (e, write_entry) refl,
        rw (e, required_length) (omega (arith, room, fits)),
        reads_lem prev (str_encoding n) (length code) n code s rest s (str s) h
            (decode_length-str n (s ++ rest) (omega (arith, k))) refl refl
            (omega (arith, room, fits)) refl (rw (str_encoding_lem n, take-append s rest) refl),
      )
  | inr ((v, enc), e) ↦
      let (is, same) = try_encoding_lem s v enc e in
      let (fits_int, prints) = (string2ll-ll2string 32 s v (omega arith)).0 is in
      let (b, saved, size, read) =
        subst (λ x. Stored v x rest) (sym same) (stored v rest fits_int) in
      let int_code : is_str enc ≡ false = ap is_str same ∙ encoding_for-int v in
      let n = length s in
      let p = encode_prev prev in
      let code = encode_length enc n in
      let room : length (p ++ (code ++ b)) ≡ int_size enc + length p + length code =
        omega (arith, length-append p (code ++ b), length-append code b, size) in
      let fits : int_size enc + length p + length code < 2 ^ 32 =
        omega (arith, short_int enc, short_prev prev, short_code enc n) in
      (
        p ++ (code ++ b),
        rw (e, write_entry, saved) refl,
        rw (e, required_length) (omega (arith, room, fits)),
        reads_lem prev enc (length code) (int_size enc) code b rest s (int v) h
            (decode_length-int enc n (b ++ rest) int_code) refl (sym size)
            (omega (arith, room, fits)) prints (rw (int_code, read) refl),
      )
]
