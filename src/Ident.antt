-- ===== src/Ident.antt =====
-- id.go: the 16-byte identifiers of spans, their parsing and their printing.
pub mod Text
pub mod Parse
pub mod Panics
pub mod Print
mod Runs
use tlog.Base.{ℕ, zero, suc, ◌+◌, ◌-◌, ◌*◌, ◌/◌, ◌%◌, ◌<◌, min, bit_and, bit_or, ◌≡◌}
use tlog.Base.{Bool, true, false, ◌&&◌, ◌||◌, Option, none, some, List, [], ◌∷◌, ◌++◌}
use tlog.Base.{ltb, leb, ◌==◌, if◌then◌else◌, length, get_elem?, set, take, drop, replicate, All}
use tlog.Base.Bits.{Bytes, IsByte}
use tlog.Base.Outcome.{Outcome, ok, panic, ◌>>=◌}

-- `type ID [16]byte`: a list of bytes whose length is 16.
pub record IsIdent (id : Bytes) : Type 0 where
  pub sized : length id ≡ 16
  pub bytes : All IsByte id

-- The errors that the parsers return; `short_id` is `ShortIDError` with its field.
pub data IdentError : Type 0 where
  short_id : ℕ → IdentError
  invalid_byte : ℕ → IdentError
  bad_id bad_id_encoding : IdentError

abbrev pub empty_id : Bytes
empty_id = replicate 16 0

-- `n := copy(id[:], b)`
unfoldable pub from_bytes : Bytes → Bytes × Option IdentError
from_bytes b =
    let n = min 16 (length b) in
    (take n b ++ drop n empty_id, if ltb n 16 then some (short_id n) else none)

-- What the `switch` of `IDFromString` makes of one byte of the text.
pub data Digit : Type 0 where
  value : ℕ → Digit
  skipped : Digit
  invalid : Digit

unfoldable pub classify : ℕ → Digit
classify c =
    if leb b'0' c && leb c b'9'
    then value (c - b'0')
    else if leb b'a' c && leb c b'f'
    then value (c - b'a' + 10)
    else if leb b'A' c && leb c b'F'
    then value (c - b'A' + 10)
    else if c == b'-'
    then skipped
    else if c == b'_'
    then value 0
    else invalid

-- `c <<= (4 * (1 - j&1)); id[j/2] |= c`, on a byte that is an array element: out of range it panics.
unfoldable pub or_nibble : Bytes → ℕ → ℕ → Outcome Bytes
or_nibble id j c = elim (get_elem? id (j / 2)) [
  | none ↦ panic
  | some x ↦ ok (set id (j / 2) (bit_or x (if j % 2 == 0 then c * 16 % 256 else c)))
]

-- The loop of `IDFromString` over what is left of the text, and what follows it.
unfoldable pub from_string_loop : Bytes → Bytes → ℕ → Outcome (Bytes × Option IdentError)
from_string_loop [] id j = ok (id, if j == 32 then none else some (short_id (j / 2)))
from_string_loop (c ∷ s) id j = elim (classify c) [
  | value d ↦ elim (or_nibble id j d) [ panic ↦ panic | ok id' ↦ from_string_loop s id' (j + 1) ]
  | skipped ↦ from_string_loop s id j
  | invalid ↦ ok (id, some (invalid_byte c))
]

unfoldable pub from_string : Bytes → Outcome (Bytes × Option IdentError)
from_string s = from_string_loop s empty_id 0

-- The verbs of `FormatTo` that its code tells apart; `lower_hex` is any other.
pub data Verb : Type 0 where
  lower_v upper_v lower_u upper_u upper_x lower_hex : Verb

unfoldable pub is_uuid : Verb → Bool
is_uuid lower_u = true
is_uuid upper_u = true
is_uuid _ = false

unfoldable pub is_upper : Verb → Bool
is_upper upper_x = true
is_upper upper_v = true
is_upper upper_u = true
is_upper _ = false

-- `dg[d]` for `digitsx` and `digitsX`
unfoldable pub digit : Bool → ℕ → ℕ
digit upper d = if ltb d 10 then b'0' + d else (if upper then b'A' else b'a') + d - 10

abbrev pub dash : ℕ
dash = b'-'

-- The constants that `FormatTo` copies for the zero identifier.
unfoldable pub zero_text : Verb → Bytes
zero_text lower_v = replicate 32 b'_'
zero_text upper_v = replicate 32 b'_'
zero_text lower_u =
    replicate 8 b'0'
    ++ (dash ∷ replicate 4 b'0')
    ++ (dash ∷ replicate 4 b'0')
    ++ (dash ∷ replicate 4 b'0')
    ++ (dash ∷ replicate 12 b'0')
zero_text upper_u =
    replicate 8 b'0'
    ++ (dash ∷ replicate 4 b'0')
    ++ (dash ∷ replicate 4 b'0')
    ++ (dash ∷ replicate 4 b'0')
    ++ (dash ∷ replicate 12 b'0')
zero_text _ = replicate 32 b'0'

-- `id == (ID{})`
unfoldable pub is_zero : Bytes → Bool
is_zero [] = true
is_zero (x ∷ id) = x == 0 && is_zero id

-- `copy(b[i:], text)` for `i <= len(b)`
unfoldable pub copy_at : Bytes → ℕ → Bytes → Bytes
copy_at b i text =
    let n = min (length b - i) (length text) in take i b ++ (take n text ++ drop (i + n) b)

unfoldable pub dash_before : ℕ → Bool
dash_before j = j == 4 || j == 6 || j == 8 || j == 10

-- A round of the loop of `FormatTo` after its dash, with an exit before each digit; `next` is the
-- next round. `id[j]` panics out of range.
unfoldable pub write_digits :
    Bool → Bytes → ℕ → ℕ → (Bytes → ℕ → Outcome (Bytes × ℕ)) → Bytes → ℕ → Outcome (Bytes × ℕ)
write_digits upper id limit j next b i = if i == limit then ok (b, i) else elim (get_elem? id j) [
  | none ↦ panic
  | some x ↦
      let b₁ = set b i (digit upper (x / 16)) in
      if i + 1 == limit
      then ok (b₁, i + 1)
      else next (set b₁ (i + 1) (digit upper (bit_and x 0xf))) (i + 2)
]

-- The loop `for i < limit` of `FormatTo`. It writes at least one byte each round, so `limit - i` rounds
-- are enough; with no fuel left the loop would go on, and the model panics.
unfoldable pub format_loop : ℕ → Bool → Bool → Bytes → ℕ → Bytes → ℕ → ℕ → Outcome (Bytes × ℕ)
format_loop zero uuid upper id limit b i j = if ltb i limit then panic else ok (b, i)
format_loop (suc fuel) uuid upper id limit b i j =
    let next = λ (b' : Bytes) (i' : ℕ). format_loop fuel uuid upper id limit b' i' (j + 1) in
    if ltb i limit
    then (if uuid && dash_before j
        then write_digits upper id limit j next (set b i dash) (i + 1)
        else write_digits upper id limit j next b i)
    else ok (b, i)

-- `FormatTo`: the buffer and the position after the text. `b[i:]` panics for `i > len(b)`.
unfoldable pub format_to : Bytes → Bytes → ℕ → Verb → Outcome (Bytes × ℕ)
format_to id b i f =
    if ltb (length b) i
    then panic
    else if is_zero id
    then (let text = zero_text f in ok (copy_at b i text, i + min (length b - i) (length text)))
    else (let room = min (length b - i) (if is_uuid f then 36 else 32) in
        format_loop room (is_uuid f) (is_upper f) id (i + room) b i 0)

abbrev format_new : Bytes → ℕ → Verb → Outcome Bytes
format_new id n f = do (b, _) ← format_to id (replicate n 0) 0 f; ok b

unfoldable pub string : Bytes → Outcome Bytes
string id = format_new id 8 Verb.lower_v

unfoldable pub string_full : Bytes → Outcome Bytes
string_full id = format_new id 32 Verb.lower_v

unfoldable pub string_uuid : Bytes → Outcome Bytes
string_uuid id = format_new id 36 Verb.lower_u

-- `Format`: the width (8 by default, the `+` flag takes the full text) and what is written. The
-- buffer holds 36 bytes, and `buf[:w]` panics past its capacity.
unfoldable pub format_width : Option ℕ → Bool → Verb → ℕ
format_width width plus c =
    if plus then (if is_uuid c then 36 else 32) else elim width [ none ↦ 8 | some w ↦ w ]

unfoldable pub format : Bytes → Option ℕ → Bool → Verb → Outcome Bytes
format id width plus c =
    let w = format_width width plus c in
    if ltb 36 w then panic else do (buf, i) ← format_to id (replicate w 0) 0 c; ok (take i buf)

abbrev quote_char : ℕ
quote_char = 34

-- `MarshalJSON`: `b` is a `[38]byte`. `b[i] = '"'` after the text panics out of range.
unfoldable pub marshal_json : Bytes → Outcome Bytes
marshal_json id = do
  (b, i) ← format_to id (quote_char ∷ replicate 37 0) 1 Verb.lower_u
  if ltb i 38 then ok (take (i + 1) (set b i quote_char)) else panic

-- `UnmarshalJSON`: `inl` is the error that it returns, `inr` the new value of `*id`.
unfoldable pub last_byte : Bytes → ℕ
last_byte [] = 0
last_byte (x ∷ []) = x
last_byte (x ∷ y ∷ s) = last_byte (y ∷ s)

abbrev first_byte : Bytes → ℕ
first_byte [] = 0
first_byte (x ∷ s) = x

pub data Decoded : Type 0 where
  decoded : Bytes → Decoded
  failed : IdentError → Decoded

abbrev keep_error : Bytes × Option IdentError → Decoded
keep_error (id, none) = decoded id
keep_error (id, some e) = failed e

unfoldable pub unmarshal_json : Bytes → Outcome Decoded
unmarshal_json b =
    if ltb (length b) 4
    then ok (failed bad_id)
    else if first_byte b == quote_char && last_byte b == quote_char
    then (do r ← from_string (take (length b - 2) (drop 1 b)); ok (keep_error r))
    else ok (failed bad_id_encoding)

-- `MustID` panics on an error and `ShouldID` drops it.
unfoldable pub must_id : Bytes × Option IdentError → Outcome Bytes
must_id (id, none) = ok id
must_id (id, some e) = panic

unfoldable pub should_id : Bytes × Option IdentError → Bytes
should_id r = r.0

-- `b[i]` for an index that the array has.
abbrev byte_at : Bytes → ℕ → ℕ
byte_at b i = elim (get_elem? b i) [ none ↦ 0 | some x ↦ x ]

-- `UUID`: the value made from the 16 bytes that the random source read; the version and the variant.
unfoldable pub uuid_of : Bytes → Bytes
uuid_of id =
    let id₁ = set id 6 (bit_or (bit_and (byte_at id 6) 0x0f) 0x40) in
    set id₁ 8 (bit_or (bit_and (byte_at id₁ 8) 0x3f) 0x80)
