-- ===== src/Kvs.antt =====
-- wire.go: keys and values, as `Printw` and its like get them, in the bytes of an event.
pub mod Pairs
pub mod Layout
pub mod Labels
pub mod Values
pub mod Samples
mod Runs
use tlog.Base.{
  ℕ, suc, ◌+◌, ◌-◌, ◌*◌, ◌/◌, ◌%◌, ◌==◌, ltb, leb, if◌then◌else◌, bit_or, Bool, true, false, ◌&&◌,
  ◌||◌, not,
}
use tlog.Base.{Option, none, some, List, [], ◌∷◌, ◌++◌, length}
use tlog.Base.Bits.{Bytes}
use tlog.Verbosity.{same_text}
use tlog.Wire.{Consts}
use tlog.Wire.Int64.{ℤ}

-- A value in an `interface{}`, by the types that wire.go tells apart. `appender` is a `tlwire.TlogAppender`
-- of another package, with the bytes that it appends; `other` is any other value.
pub data Any : Type 0 where
  str : Bytes → Any
  int : ℤ → Any
  bytes : Bytes → Any
  raw_message : Bytes → Any
  modify : Bytes → Any
  format_next : Bytes → Any
  ident : Bytes → Any
  log_level : ℤ → Any
  event_kind : ℕ → Any
  pc : ℕ → Any
  pcs : List ℕ → Any
  tag : Bytes → Any
  tags : List Bytes → Any
  appender : Bytes → Any
  other : ℕ → Any

-- The encoders that are called: each appends the bytes that stand here. The first five are of
-- nikand.dev/go/cbor, `append_value` and `append_formatf` those of tlwire, which are reflection and fmt.
pub record Encoder : Type 0 where
  pub append_string : Bytes → Bytes
  pub append_bytes : Bytes → Bytes
  pub append_int : ℤ → Bytes
  pub append_label : ℕ → Bytes
  pub append_array : ℕ → Bytes
  pub append_value : Any → Bytes
  pub append_formatf : Bytes → Any → Bytes

-- `WireLabel` and the numbers after it.
abbrev pub wire_label : ℕ
wire_label = 10

abbrev pub wire_id : ℕ
wire_id = 11

abbrev pub wire_message : ℕ
wire_message = 12

abbrev pub wire_event_kind : ℕ
wire_event_kind = 13

abbrev pub wire_log_level : ℕ
wire_log_level = 14

abbrev pub wire_tag : ℕ
wire_tag = 15

-- `string(r)` for a rune: its bytes in UTF-8, or those of U+FFFD where it is none.
unfoldable pub rune_text : ℕ → Bytes
rune_text r =
    if ltb r 0x80
    then r ∷ []
    else if ltb r 0x800
    then (0xc0 + r / 64) ∷ (0x80 + r % 64) ∷ []
    else if ltb 0x10ffff r || leb 0xd800 r && leb r 0xdfff
    then 0xef ∷ 0xbf ∷ 0xbd ∷ []
    else if ltb r 0x10000
    then (0xe0 + r / 4096) ∷ (0x80 + r / 64 % 64) ∷ (0x80 + r % 64) ∷ []
    else (0xf0 + r / 262144) ∷ (0x80 + r / 4096 % 64) ∷ (0x80 + r / 64 % 64) ∷ (0x80 + r % 64) ∷ []

-- `len(kvs) == 1` in `autoKey`, and the types of `kvs[1]`.
unfoldable pub auto_key : Bytes → List Any → Bytes
auto_key next_as_message [] =
    b'M' ∷ b'I' ∷ b'S' ∷ b'S' ∷ b'I' ∷ b'N' ∷ b'G' ∷ b'_' ∷ b'V' ∷ b'A' ∷ b'L' ∷ b'U' ∷ b'E' ∷ []
auto_key next_as_message (a ∷ rest) = elim a [
  | modify m ↦ if same_text m next_as_message then b'_' ∷ b'm' ∷ [] else unsupported
  | ident id ↦ b'_' ∷ b's' ∷ []
  | log_level l ↦ b'_' ∷ b'l' ∷ []
  | event_kind r ↦ b'_' ∷ b'k' ∷ []
  | pc p ↦ b'_' ∷ b'c' ∷ []
  | pcs p ↦ b'_' ∷ b'c' ∷ []
  | tag t ↦ b'_' ∷ b'T' ∷ []
  | tags ts ↦ b'_' ∷ b'T' ∷ []
  | _ ↦ unsupported
]
  where
    unsupported : Bytes
    unsupported =
        b'U' ∷ b'N' ∷ b'S' ∷ b'U' ∷ b'P' ∷ b'P' ∷ b'O' ∷ b'R' ∷ b'T' ∷ b'E' ∷ b'D' ∷ b'_' ∷ b'A'
        ∷ b'U' ∷ b'T' ∷ b'O' ∷ b'_' ∷ b'K' ∷ b'E' ∷ b'Y' ∷ []

abbrev pub missing_key : Bytes
missing_key = b'M' ∷ b'I' ∷ b'S' ∷ b'S' ∷ b'I' ∷ b'N' ∷ b'G' ∷ b'_' ∷ b'K' ∷ b'E' ∷ b'Y' ∷ []

-- Where the loop of `appendKVs` stands: before a key, before a value, or before the argument of a format.
pub data At : Type 0 where
  key : At
  value : At
  formatted : Bytes → At

-- `byte(tlwire.Semantic|n)`
unfoldable pub semantic : Consts → ℕ → ℕ
semantic k n = bit_or k.tag_semantic n

module _ (k : Consts) (e : Encoder) where
  abbrev pub undefined : ℕ
  undefined = bit_or k.tag_special k.special_undefined

  -- `Tags.TlogAppend`
  unfoldable pub append_tags : List Bytes → Bytes
  append_tags [] = []
  append_tags (t ∷ ts) = e.append_string t ++ append_tags ts

  unfoldable pub tags_append : List Bytes → Bytes
  tags_append [] = []
  tags_append (t ∷ ts) =
      e.append_label wire_tag ++ (e.append_array (length (t ∷ ts)) ++ append_tags (t ∷ ts))

  -- The `TlogAppend` of the types that have one.
  unfoldable pub tlog_append : Any → Option Bytes
  tlog_append (raw_message r) = some r
  tlog_append (ident id) = some (semantic k wire_id ∷ e.append_bytes id)
  tlog_append (log_level l) = some (semantic k wire_log_level ∷ e.append_int l)
  tlog_append (event_kind r) = some (semantic k wire_event_kind ∷ e.append_string (rune_text r))
  tlog_append (tag t) = some (e.append_label wire_tag ++ e.append_string t)
  tlog_append (tags ts) = some (tags_append ts)
  tlog_append (appender b) = some b
  tlog_append _ = none

  unfoldable pub auto_or : Bytes → List Any → Bytes
  auto_or [] rest = auto_key (semantic k wire_message ∷ []) rest
  auto_or (c ∷ s) rest = c ∷ s

  -- The `switch` at `value`.
  unfoldable pub append_arg : Any → (At → Bytes) → Bytes
  append_arg (int v) next = e.append_int v ++ next key
  append_arg (str v) next = e.append_string v ++ next key
  append_arg (bytes v) next = e.append_bytes v ++ next key
  append_arg (raw_message v) next = v ++ next key
  append_arg (modify v) next = v ++ next value
  append_arg (format_next f) next = next (formatted f)
  append_arg v next = e.append_value v ++ next key

  -- The `switch` on the key: a `TlogAppender` is no key, and a value with no key gets one.
  unfoldable pub append_other : Any → Option Bytes → (At → Bytes) → Bytes
  append_other a (some b) next = b ++ next key
  append_other a none next = e.append_string missing_key ++ append_arg a next

  unfoldable pub append_key : Any → List Any → (At → Bytes) → Bytes
  append_key (str s) rest next = e.append_string (auto_or s rest) ++ next value
  append_key a rest next = append_other a (tlog_append a) next

  -- `appendKVs`, from its place in the loop.
  unfoldable pub append_from : At → List Any → Bytes
  append_from key [] = []
  append_from value [] = undefined ∷ []
  append_from (formatted f) [] = undefined ∷ []
  append_from key (a ∷ rest) = append_key a rest (λ at. append_from at rest)
  append_from value (a ∷ rest) = append_arg a (λ at. append_from at rest)
  append_from (formatted f) (a ∷ rest) = e.append_formatf f a ++ append_from key rest

  unfoldable pub append_kvs : List Any → Bytes
  append_kvs kvs = append_from key kvs
