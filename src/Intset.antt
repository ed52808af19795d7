-- ===== src/Intset.antt =====
-- redis-stable/src/intset.c: a set of 64-bit integers as a sorted array whose slots have 2, 4 or 8
-- bytes, as wide as the widest value asks. `contents` is the flexible array behind the struct;
-- `encoding` is the width of a slot. A slot number that C keeps in an `int` is a natural number.
pub mod Slots
pub mod Width
pub mod Search
pub mod Shape
pub mod Upgrade
pub mod Insert
pub mod Prepend
pub mod Ops
mod Tests
use better_efisis.Prelude.{
  ℕ, zero, suc, ◌+◌, ◌-◌, ◌*◌, ◌/◌, ◌%◌, ◌^◌, Bool, true, false, ◌||◌, Option, none, some, ltb, leb,
  ◌==◌, if◌then◌else◌,
}
use better_efisis.Prelude.Int.{ℤ, pos, negsuc, pos_part, neg_part, ltb_ℤ, to_word, of_word}
use better_efisis.Blob.{Blob, load, store, realloc, memmove}

pub record Intset : Type 0 where
  pub encoding : ℕ
  pub length : ℕ
  pub contents : Blob

abbrev pub eqb_ℤ : ℤ → ℤ → Bool
eqb_ℤ a b = pos_part a + neg_part b == pos_part b + neg_part a

-- `_intsetValueEncoding`
unfoldable pub value_encoding : ℤ → ℕ
value_encoding v =
    if ltb_ℤ v (negsuc (2 ^ 31 - 1)) || ltb_ℤ (pos (2 ^ 31 - 1)) v
    then 8
    else if ltb_ℤ v (negsuc (2 ^ 15 - 1)) || ltb_ℤ (pos (2 ^ 15 - 1)) v
    then 4
    else 2

-- `_intsetGetEncoded`
unfoldable pub get_encoded : Intset → ℕ → ℕ → ℤ
get_encoded s i enc =
    if enc == 8
    then of_word 64 (load s.contents (i * 8) 8)
    else if enc == 4
    then of_word 32 (load s.contents (i * 4) 4)
    else of_word 16 (load s.contents (i * 2) 2)

-- `_intsetGet`
unfoldable pub get : Intset → ℕ → ℤ
get s i = get_encoded s i s.encoding

-- `_intsetSet`
unfoldable pub set : Intset → ℕ → ℤ → Intset
set s i v =
    if s.encoding == 8
    then record s { contents = store s.contents (i * 8) 8 (to_word 64 v) }
    else if s.encoding == 4
    then record s { contents = store s.contents (i * 4) 4 (to_word 32 v) }
    else record s { contents = store s.contents (i * 2) 2 (to_word 16 v) }

-- `intsetNew`
unfoldable pub new : Intset
new = record { encoding = 2; length = 0; contents = record { size = 0; cell = λ _. 0 } }

-- `intsetResize`; the size is an `uint32_t`.
unfoldable pub resize : Intset → ℕ → Intset
resize s len = record s { contents = realloc s.contents (len * s.encoding % 2 ^ 32) }

-- The `while` loop of `intsetSearch`, with its variables `min`, `max + 1`, `mid` and `cur`; it
-- gives `min`, `mid` and `cur` as they are when the loop ends. Each round narrows the range, so its
-- width is fuel enough.
unfoldable pub search_loop : ℕ → Intset → ℤ → ℕ → ℕ → ℕ → ℤ → ℕ × ℕ × ℤ
search_loop zero s value lo hi mid cur = (lo, mid, cur)
search_loop (suc fuel) s value lo hi mid cur =
    let m = (lo + (hi - 1)) / 2 in
    let c = get s m in
    let above = search_loop fuel s value (m + 1) hi m c in
    let below = search_loop fuel s value lo m m c in
    if leb hi lo
    then (lo, mid, cur)
    else if ltb_ℤ c value
    then above
    else if ltb_ℤ value c
    then below
    else (lo, m, c)

-- The end of `intsetSearch`.
abbrev pub search_result : ℤ → ℕ × ℕ × ℤ → Bool × ℕ
search_result value (lo, mid, cur) = if eqb_ℤ value cur then (true, mid) else (false, lo)

-- `intsetSearch`: whether the value is there, and `*pos`. `mid` starts as the `int` -1.
unfoldable pub search : Intset → ℤ → Bool × ℕ
search s value =
    if s.length == 0
    then (false, 0)
    else if ltb_ℤ (get s (s.length - 1)) value
    then (false, s.length)
    else if ltb_ℤ value (get s 0)
    then (false, 0)
    else search_result value (search_loop s.length s value 0 s.length (2 ^ 32 - 1) (negsuc 0))

-- The `while` loop of `intsetUpgradeAndAdd`: slots are widened from the last to the first.
unfoldable pub upgrade_loop : ℕ → ℕ → ℕ → Intset → Intset
upgrade_loop zero prepend curenc s = s
upgrade_loop (suc n) prepend curenc s =
    upgrade_loop n prepend curenc (set s (n + prepend) (get_encoded s n curenc))

-- `intsetUpgradeAndAdd`
unfoldable pub upgrade_and_add : Intset → ℤ → Intset
upgrade_and_add s value =
    let prepend = if ltb_ℤ value (pos 0) then 1 else 0 in
    let wide = resize (record s { encoding = value_encoding value }) (s.length + 1) in
    let t = upgrade_loop s.length prepend s.encoding wide in
    let u = set t (if prepend == 1 then 0 else t.length) value in
    record u { length = (u.length + 1) % 2 ^ 32 }

-- `intsetMoveTail`
unfoldable pub move_tail : Intset → ℕ → ℕ → Intset
move_tail s from to =
    let count = s.length - from in
    if s.encoding == 8
    then record s { contents = memmove s.contents (to * 8) (from * 8) (count * 8) }
    else if s.encoding == 4
    then record s { contents = memmove s.contents (to * 4) (from * 4) (count * 4) }
    else record s { contents = memmove s.contents (to * 2) (from * 2) (count * 2) }

-- `intsetAdd` past the search: a slot is opened at `p` and written.
unfoldable pub insert_at : Intset → ℕ → ℤ → Intset
insert_at s p value =
    let r = resize s (s.length + 1) in
    let t = if ltb p r.length then move_tail r p (p + 1) else r in
    let u = set t p value in record u { length = (u.length + 1) % 2 ^ 32 }

-- `intsetAdd`, with `*success`.
unfoldable pub add : Intset → ℤ → Intset × Bool
add s value =
    if ltb s.encoding (value_encoding value)
    then (upgrade_and_add s value, true)
    else let (found, p) = search s value in
      if found then (s, false) else (insert_at s p value, true)

-- `intsetRemove` past the search. The value stands at `p`, so the length is not 0.
unfoldable pub delete_at : Intset → ℕ → Intset
delete_at s p =
    let len = s.length in
    let t = if ltb p (len - 1) then move_tail s (p + 1) p else s in
    let u = resize t (len - 1) in record u { length = len - 1 }

-- `intsetRemove`, with `*success`.
unfoldable pub remove : Intset → ℤ → Intset × Bool
remove s value =
    if ltb s.encoding (value_encoding value)
    then (s, false)
    else let (found, p) = search s value in if found then (delete_at s p, true) else (s, false)

-- `intsetFind`
unfoldable pub find : Intset → ℤ → Bool
find s value = if ltb s.encoding (value_encoding value) then false else (search s value).0

-- `intsetGet`
unfoldable pub get_at : Intset → ℕ → Option ℤ
get_at s i = if ltb i s.length then some (get s i) else none

-- `intsetRandom`, given what `rand()` returned.
unfoldable pub random : Intset → ℕ → ℤ
random s rand = get s (rand % s.length)

-- `intsetLen` and `intsetBlobLen`; the struct before the contents has 8 bytes.
unfoldable pub len : Intset → ℕ
len s = s.length

unfoldable pub blob_len : Intset → ℕ
blob_len s = 8 + s.length * s.encoding
