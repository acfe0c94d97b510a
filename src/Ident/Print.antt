-- ===== src/Ident/Print.antt =====
-- The printers of id.go that stand on `FormatTo`, and what their texts are read back as.
use tlog.Base.{ℕ, zero, suc, ◌+◌, ◌-◌, ◌≤◌, min, ◌≡◌, refl, ap, ◌∙◌}
use tlog.Base.{Bool, false, Option, none, some, [], ◌∷◌, ◌++◌, append-nil}
use tlog.Base.{ltb, if◌then◌else◌, length, set, take, drop, replicate, All, arith}
use tlog.Base.{inl, inr, Bool-cases, length-take, length-replicate, take-all}
use tlog.Base.{set-append, length-append_one, drop-all, take_exact, take-min}
use tlog.Base.Bits.{Bytes, IsByte}
use tlog.Base.Outcome.{Outcome, ok, panic, ◌>>=◌}
use tlog.Ident.{IsIdent, short_id, Verb, is_uuid, is_upper, format_to, string, string_full}
use tlog.Ident.{string_uuid, format, format_width, marshal_json, unmarshal_json, decoded}
use tlog.Ident.{
  quote_char, last_byte, from_string, from_string_loop, classify, or_nibble, is_zero, zero_text,
}
use tlog.Ident.Text.{text, text_size, length-text, format_to_writes, hex_text}
use tlog.Ident.Parse.{from_string-text, from_string_loop-hex_text, is_zero-empty_id}

-- A new buffer takes as much of the text as it has room for.
format_to_new :
    (id : Bytes) (n : ℕ) (f : Verb)
    → IsIdent id
    → n ≤ text_size f
    → format_to id (replicate n 0) 0 f ≡ ok (take n (text f id), n)
format_to_new id n f v h =
    let size : min (n - 0) (text_size f) ≡ n = omega arith in
    let past : drop (0 + n) (replicate {A = ℕ} n 0) ≡ [] =
      drop-all (replicate {A = ℕ} n 0) (0 + n) (omega (arith, length-replicate {A = ℕ} n 0)) in
    format_to_writes id (replicate n 0) 0 f v (omega arith)
    ∙ rw (length-replicate {A = ℕ} n 0, size, past, append-nil)
        (ap {B = Outcome (Bytes × ℕ)} (λ m. ok (take n (text f id), m)) (omega arith))

string_full-text : (id : Bytes) → IsIdent id → string_full id ≡ ok (text Verb.lower_v id)
unfolding string_full is_uuid
string_full-text id v = rw (
  format_to_new id 32 Verb.lower_v v (omega arith),
  take-all (text Verb.lower_v id) 32 (omega (arith, length-text Verb.lower_v id v.sized)),
)

string_uuid-text : (id : Bytes) → IsIdent id → string_uuid id ≡ ok (text Verb.lower_u id)
unfolding string_uuid is_uuid
string_uuid-text id v = rw (
  format_to_new id 36 Verb.lower_u v (omega arith),
  take-all (text Verb.lower_u id) 36 (omega (arith, length-text Verb.lower_u id v.sized)),
)

-- What `StringFull` and `StringUUID` print is parsed back to the identifier with no error.
pub from_string-string :
    (id : Bytes)
    → IsIdent id
    → ((string_full id >>= from_string) ≡ ok (id, none))
      × ((string_uuid id >>= from_string) ≡ ok (id, none))
from_string-string id v = (
  rw (string_full-text id v) (from_string-text Verb.lower_v id v),
  rw (string_uuid-text id v) (from_string-text Verb.lower_u id v),
)

-- The first eight digits are those of the first four bytes.
take-hex_text :
    (upper : Bool) (id : Bytes)
    → 4 ≤ length id
    → take 8 (hex_text false upper id 0) ≡ hex_text false upper (take 4 id) 0
unfolding hex_text
take-hex_text upper (a ∷ b ∷ c ∷ d ∷ id) h = refl
take-hex_text upper _ h = absurd (omega arith)

All-take : (n : ℕ) (id : Bytes) → All IsByte id → All IsByte (take n id)
All-take zero id h = tt
All-take (suc n) [] h = tt
All-take (suc n) (x ∷ id) h = (h.0, All-take n id h.1)

from_string-prefix :
    (upper : Bool) (id : Bytes)
    → IsIdent id
    → from_string (hex_text false upper (take 4 id) 0)
      ≡ ok (take 4 id ++ replicate 12 0, some (short_id 4))
unfolding from_string
from_string-prefix upper id v =
    let four : length (take 4 id) ≡ 4 = omega (arith, length-take 4 id) in
    rw (append-nil, four) at
      (from_string_loop-hex_text false upper (take 4 id) [] (replicate 12 0) [] 0 0
        (All-take 4 id v.bytes) (omega arith))
    ∙ (unfold from_string_loop in refl)

from_string-underscores : from_string (replicate 8 b'_') ≡ ok (replicate 16 0, some (short_id 4))
unfolding from_string from_string_loop classify or_nibble
from_string-underscores = refl

-- `String` prints a prefix: it is parsed to the first four bytes, with zeros behind them, and with a
-- `ShortIDError` that says that four bytes were read.
pub from_string-string_short :
    (id : Bytes)
    → IsIdent id
    → (string id >>= from_string) ≡ ok (take 4 id ++ replicate 12 0, some (short_id 4))
unfolding string is_uuid text zero_text
from_string-string_short id v =
    rw (format_to_new id 8 Verb.lower_v v (omega arith)) (elim (Bool-cases (is_zero id)) [
      | inl z ↦ rw (z, is_zero-empty_id id z, v.sized) from_string-underscores
      | inr n ↦
          rw (n, take-hex_text (is_upper Verb.lower_v) id (omega arith))
            (from_string-prefix (is_upper Verb.lower_v) id v)
    ])

format_to_taken :
    (id : Bytes) (w : ℕ) (c : Verb)
    → IsIdent id
    → (format_to id (replicate w 0) 0 c >>= λ r. ok (take r.1 r.0)) ≡ ok (take w (text c id))
format_to_taken id w c v =
    let n : ℕ = min (w - 0) (text_size c) in
    let size : length (text c id) ≡ text_size c = length-text c id v.sized in
    let short : length (take n (text c id)) ≡ 0 + n = omega (arith, length-take n (text c id)) in
    let whole : take n (text c id) ≡ take w (text c id) =
      rw size at (take-min (w - 0) (text c id)) ∙ ap (λ m. take m (text c id)) (omega arith) in
    rw (format_to_writes id (replicate w 0) 0 c v (omega arith), length-replicate {A = ℕ} w 0)
      (ap (λ t. ok t) (take_exact (take n (text c id)) _ (0 + n) short ∙ whole))

-- `Format` writes the first `w` bytes of the text for a width `w` of at most 36, and panics for a greater
-- width, which does not fit its buffer.
pub format_lem :
    (id : Bytes) (width : Option ℕ) (plus : Bool) (c : Verb)
    → IsIdent id
    → format id width plus c ≡ (
        if ltb 36 (format_width width plus c)
        then panic
        else ok (take (format_width width plus c) (text c id)))
unfolding format
format_lem id width plus c v = elim (Bool-cases (ltb 36 (format_width width plus c))) [
  | inl wide ↦ rw wide
  | inr fits ↦ rw fits (format_to_taken id (format_width width plus c) c v)
]

abbrev quoted : Bytes → Bytes
quoted t = quote_char ∷ (t ++ (quote_char ∷ []))

close_quote :
    (t : Bytes)
    → length t ≡ 36
    → take 37 (set (t ++ (0 ∷ [])) 36 quote_char) ≡ t ++ (quote_char ∷ [])
close_quote t e =
    rw (← e, set-append t [] 0 quote_char)
      (take-all (t ++ (quote_char ∷ [])) 37 (omega (arith, length-append_one t quote_char)))

-- `MarshalJSON` quotes the UUID text.
marshal_json-text : (id : Bytes) → IsIdent id → marshal_json id ≡ ok (quoted (text Verb.lower_u id))
unfolding marshal_json is_uuid
marshal_json-text id v =
    let size : length (text Verb.lower_u id) ≡ 36 = length-text Verb.lower_u id v.sized in
    let whole : take 36 (text Verb.lower_u id) ≡ text Verb.lower_u id =
      take-all (text Verb.lower_u id) 36 (omega arith) in
    rw (format_to_writes id (quote_char ∷ replicate 37 0) 1 Verb.lower_u v (omega arith))
      (rw whole (ap (λ t. ok (quote_char ∷ t)) (close_quote (text Verb.lower_u id) size)))

last_byte-append : (t : Bytes) (x y : ℕ) → last_byte (x ∷ (t ++ (y ∷ []))) ≡ y
unfolding last_byte
last_byte-append [] x y = refl
last_byte-append (z ∷ t) x y = last_byte-append t z y

-- `UnmarshalJSON` restores the identifier that `MarshalJSON` wrote.
pub unmarshal_json-marshal_json :
    (id : Bytes) → IsIdent id → (marshal_json id >>= unmarshal_json) ≡ ok (decoded id)
unfolding unmarshal_json
unmarshal_json-marshal_json id v =
    let t : Bytes = text Verb.lower_u id in
    let size : length t ≡ 36 = unfold is_uuid in length-text Verb.lower_u id v.sized in
    let long : length (quoted t) ≡ 38 = omega (arith, length-append_one t quote_char) in
    rw (
      marshal_json-text id v,
      long,
      last_byte-append t quote_char quote_char,
      take_exact t (quote_char ∷ []) 36 size,
      from_string-text Verb.lower_u id v,
    )
