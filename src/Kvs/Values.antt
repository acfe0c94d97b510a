-- ===== src/Kvs/Values.antt =====
-- wire.go: `TlogAppend` and `TlogParse` of identifiers, event kinds and levels.
mod Runs
use tlog.Base.{
  ℕ, suc, ◌+◌, ◌-◌, ◌*◌, ◌/◌, ◌%◌, ◌<◌, ◌≤◌, ◌≡◌, refl, sym, ap, ◌∙◌, arith, ◌==◌, ltb, leb,
  if◌then◌else◌,
}
use tlog.Base.{Bool, true, false, not, ◌&&◌, ◌||◌, Option, none, some, List, [], ◌∷◌, ◌++◌}
use tlog.Base.{
  length, get_elem?, take, drop, length-append, length-take, drop-all, append-nil, get_elem?-append,
}
use tlog.Base.{append_shift, length-append_one, drop-append, drop-drop, take-append}
use tlog.Base.Bits.{Bytes}
use tlog.Base.Outcome.{Outcome, ok, panic, ◌>>=◌}
use tlog.Wire.{rfc8949}
use tlog.Wire.Int64.{ℤ}
use tlog.Kvs.Pairs.{Never}
use tlog.Kvs.{
  Any, ident, log_level, event_kind, Encoder, semantic, tlog_append, rune_text, wire_id,
  wire_event_kind, wire_log_level,
}

-- The decoders of nikand.dev/go/cbor that are called.
pub record Decoder : Type 0 where
  pub read_bytes : Bytes → ℕ → Outcome (Bytes × ℕ)
  pub read_signed : Bytes → ℕ → Outcome (ℤ × ℕ)

-- A byte from 0x80 to 0xbf, or in a smaller range.
unfoldable pub in_range : ℕ → ℕ → ℕ → Bool
in_range lo hi c = leb lo c && leb c hi

-- The range of the second byte of a rune, by the first.
unfoldable pub low_second : ℕ → ℕ
low_second c = if c == 0xe0 then 0xa0 else if c == 0xf0 then 0x90 else 0x80

unfoldable pub high_second : ℕ → ℕ
high_second c = if c == 0xed then 0x9f else if c == 0xf4 then 0x8f else 0xbf

-- `utf8.DecodeRune`: the rune and its width.
unfoldable pub decode_rune : Bytes → ℕ × ℕ
unfolding in_range low_second high_second
decode_rune [] = (0xfffd, 0)
decode_rune (c ∷ []) = if ltb c 0x80 then (c, 1) else (0xfffd, 1)
decode_rune (c ∷ d ∷ []) =
    if ltb c 0x80
    then (c, 1)
    else if in_range 0xc2 0xdf c && in_range 0x80 0xbf d
    then ((c - 0xc0) * 64 + (d - 0x80), 2)
    else (0xfffd, 1)
decode_rune (c ∷ d ∷ f ∷ []) =
    if ltb c 0x80
    then (c, 1)
    else if in_range 0xc2 0xdf c && in_range 0x80 0xbf d
    then ((c - 0xc0) * 64 + (d - 0x80), 2)
    else if in_range 0xe0 0xef c
        && in_range (low_second c) (high_second c) d
        && in_range 0x80 0xbf f
    then ((c - 0xe0) * 4096 + (d - 0x80) * 64 + (f - 0x80), 3)
    else (0xfffd, 1)
decode_rune (c ∷ d ∷ f ∷ g ∷ s) =
    if ltb c 0x80
    then (c, 1)
    else if in_range 0xc2 0xdf c && in_range 0x80 0xbf d
    then ((c - 0xc0) * 64 + (d - 0x80), 2)
    else if in_range 0xe0 0xef c
        && in_range (low_second c) (high_second c) d
        && in_range 0x80 0xbf f
    then ((c - 0xe0) * 4096 + (d - 0x80) * 64 + (f - 0x80), 3)
    else if in_range 0xf0 0xf4 c
        && in_range (low_second c) (high_second c) d
        && in_range 0x80 0xbf f
        && in_range 0x80 0xbf g
    then ((c - 0xf0) * 262144 + (d - 0x80) * 4096 + (f - 0x80) * 64 + (g - 0x80), 4)
    else (0xfffd, 1)

-- `if p[i] != x { panic }`
unfoldable pub expected : Option ℕ → ℕ → ℕ → Outcome ℕ
expected none i x = panic
expected (some c) i x = if c == x then ok (i + 1) else panic

unfoldable pub expect : Bytes → ℕ → ℕ → Outcome ℕ
expect p i x = expected (get_elem? p i) i x

-- `copy(dst, src)` for all of `dst`
unfoldable pub copy_over : Bytes → Bytes → Bytes
copy_over dst src = take (length dst) src ++ drop (length src) dst

-- `ID.TlogParse` on the identifier before it
unfoldable pub id_parse : Bytes → Bytes → ℕ → Outcome (Bytes × ℕ)
id_parse id p i = expect p i (semantic rfc8949 wire_id) >>= λ i'. expect p i' 0x50 >>= λ i''.
    ok (copy_over id (drop i'' p), i'' + length (take (length id) (drop i'' p)))

-- The check compares the width of the rune with `utf8.RuneError`.
unfoldable pub kind_of : Bytes → ℕ × ℕ → ℕ → Outcome (ℕ × ℕ)
kind_of v (r, w) i = if w == 0xfffd || not (w == length v) then panic else ok (r, i)

module _ (d : Decoder) where
  -- `EventKind.TlogParse` and `LogLevel.TlogParse`
  unfoldable pub kind_parse : Bytes → ℕ → Outcome (ℕ × ℕ)
  kind_parse p i = expect p i (semantic rfc8949 wire_event_kind) >>= λ i'.
      d.read_bytes p i' >>= λ (v, i''). kind_of v (decode_rune v) i''

  unfoldable pub level_parse : Bytes → ℕ → Outcome (ℤ × ℕ)
  level_parse p i = expect p i (semantic rfc8949 wire_log_level) >>= λ i'. d.read_signed p i'

  -- The `TlogParse` of a receiver; the other types have none.
  unfoldable pub parse_as : Any → Bytes → ℕ → Outcome (Any × ℕ)
  parse_as (ident id) p i = id_parse id p i >>= λ (v, i'). ok (ident v, i')
  parse_as (event_kind r) p i = kind_parse p i >>= λ (v, i'). ok (event_kind v, i')
  parse_as (log_level l) p i = level_parse p i >>= λ (v, i'). ok (log_level v, i')
  parse_as _ p i = panic

-- A rune that has a text of its own: a number that Unicode allows, and no half of a surrogate pair.
abbrev pub IsRune : ℕ → Type 0
IsRune r = (r < 0x110000) × ((leb 0xd800 r && leb r 0xdfff) ≡ false)

pub decode_rune-rune_text :
    (r : ℕ) → IsRune r → decode_rune (rune_text r) ≡ (r, length (rune_text r))
unfolding decode_rune rune_text
decode_rune-rune_text r h = ground (arith, h)

-- What the decoders promise of what the encoders append: `append_bytes` puts the length of a short text in its
-- first byte.
pub record Decodes (e : Encoder) (d : Decoder) : Type 0 where
  pub short_bytes : (s : Bytes) → length s < 24 → e.append_bytes s ≡ (0x40 + length s) ∷ s
  pub reads_string :
      (s pre rest : Bytes)
      → d.read_bytes (pre ++ (e.append_string s ++ rest)) (length pre)
        ≡ ok (s, length pre + length (e.append_string s))
  pub reads_int :
      (v : ℤ) (pre rest : Bytes)
      → d.read_signed (pre ++ (e.append_int v ++ rest)) (length pre)
        ≡ ok (v, length pre + length (e.append_int v))

-- A receiver and a value of its type: identifiers of 16 bytes, runes, any levels.
abbrev pub Parsable : Any → Any → Type 0
Parsable (ident old) (ident id) = (length old ≡ 16) × (length id ≡ 16)
Parsable (event_kind q) (event_kind r) = IsRune r
Parsable (log_level q) (log_level l) = Unit
Parsable _ _ = Never

pub expect-here :
    (pre rest : Bytes) (x : ℕ) → expect (pre ++ (x ∷ rest)) (length pre) x ≡ ok (length pre + 1)
unfolding expect expected
expect-here pre rest x = rw (get_elem?-append pre rest x) (ground arith)

length-one_more : (pre : Bytes) (x : ℕ) → length (pre ++ (x ∷ [])) ≡ length pre + 1
length-one_more pre x = omega (arith, length-append_one pre x)

expect-next :
    (pre rest : Bytes) (x y : ℕ)
    → expect (pre ++ (x ∷ y ∷ rest)) (length pre + 1) y ≡ ok (length pre + 1 + 1)
expect-next pre rest x y =
    rw (← append_shift pre (y ∷ rest) x, length-one_more pre x) at
      (expect-here (pre ++ (x ∷ [])) rest y)

copy_over-append : (old id rest : Bytes) → length old ≡ length id → copy_over old (id ++ rest) ≡ id
unfolding copy_over
copy_over-append old id rest e =
    let none_left : drop (length (id ++ rest)) old ≡ [] =
      drop-all old (length (id ++ rest)) (omega (arith, e, length-append id rest)) in
    rw (e, take-append id rest, none_left) (append-nil id)

drop_two : (pre s : Bytes) (x y : ℕ) → drop (length pre + 1 + 1) (pre ++ (x ∷ y ∷ s)) ≡ s
drop_two pre s x y =
    let n : length pre + 1 + 1 ≡ length pre + 2 = omega arith in
    rw (n, ← drop-drop (length pre) 2 (pre ++ (x ∷ y ∷ s)), drop-append pre (x ∷ y ∷ s)) refl

id_parse-append :
    (id old pre rest : Bytes)
    → length old ≡ 16
    → length id ≡ 16
    → id_parse old (pre ++ (semantic rfc8949 wire_id ∷ 0x50 ∷ (id ++ rest))) (length pre)
      ≡ ok (id, length pre + 18)
unfolding id_parse
id_parse-append id old pre rest m n =
    let x = semantic rfc8949 wire_id in
    let size : length pre + 1 + 1 + length (take 16 (id ++ rest)) ≡ length pre + 18 =
      omega (arith, length-take 16 (id ++ rest), length-append id rest, n) in
    let copied = copy_over-append old id rest (m ∙ sym n) in
    rw
      (
        expect-here pre (0x50 ∷ (id ++ rest)) x,
        expect-next pre (id ++ rest) x 0x50,
        drop_two pre (id ++ rest) x 0x50,
        copied,
        m,
        size,
      )
      refl

module _ (e : Encoder) (d : Decoder) (h : Decodes e d) where
  kind_parse-append :
      (r : ℕ) (pre rest : Bytes)
      → IsRune r
      → kind_parse d
          (pre ++ (semantic rfc8949 wire_event_kind ∷ (e.append_string (rune_text r) ++ rest)))
          (length pre)
        ≡ ok (r, length pre + 1 + length (e.append_string (rune_text r)))
  unfolding kind_parse kind_of rune_text
  kind_parse-append r pre rest v =
      let x = semantic rfc8949 wire_event_kind in
      let s = e.append_string (rune_text r) in
      let read : d.read_bytes (pre ++ (x ∷ (s ++ rest))) (length pre + 1)
          ≡ ok (rune_text r, length pre + 1 + length s) =
        rw (← append_shift pre (s ++ rest) x, length-one_more pre x) at
          (h.reads_string (rune_text r) (pre ++ (x ∷ [])) rest) in
      rw (expect-here pre (s ++ rest) x, read, decode_rune-rune_text r v) (ground arith)

  level_parse-append :
      (l : ℤ) (pre rest : Bytes)
      → level_parse d
          (pre ++ (semantic rfc8949 wire_log_level ∷ (e.append_int l ++ rest)))
          (length pre)
        ≡ ok (l, length pre + 1 + length (e.append_int l))
  unfolding level_parse
  level_parse-append l pre rest =
      let x = semantic rfc8949 wire_log_level in
      let s = e.append_int l in
      let read : d.read_signed (pre ++ (x ∷ (s ++ rest))) (length pre + 1)
          ≡ ok (l, length pre + 1 + length s) =
        rw (← append_shift pre (s ++ rest) x, length-one_more pre x) at
          (h.reads_int l (pre ++ (x ∷ [])) rest) in
      rw (expect-here pre (s ++ rest) x, read) refl

  -- `TlogParse` reads back what `TlogAppend` appended, whatever stands before and behind it, and returns the
  -- index behind it: for identifiers of 16 bytes, event kinds that are runes, and levels.
  pub parse_as-tlog_append :
      (old a : Any) (b pre rest : Bytes)
      → Parsable old a
      → tlog_append rfc8949 e a ≡ some b
      → parse_as d old (pre ++ (b ++ rest)) (length pre) ≡ ok (a, length pre + length b)
  unfolding parse_as tlog_append
  parse_as-tlog_append (ident old) (ident id) b pre rest (m, n) s =
      let short = h.short_bytes id (omega (arith, n)) in
      let first : 0x40 + length id ≡ 0x50 = omega (arith, n) in
      let bytes : semantic rfc8949 wire_id ∷ 0x50 ∷ id ≡ b = cc (s, short, first) in
      let size : length pre + 18 ≡ length pre + length (semantic rfc8949 wire_id ∷ 0x50 ∷ id) =
        omega (arith, n) in
      rw (← bytes, id_parse-append id old pre rest m n, size) refl
  parse_as-tlog_append (event_kind q) (event_kind r) b pre rest v s =
      let x = semantic rfc8949 wire_event_kind in
      let bytes : x ∷ e.append_string (rune_text r) ≡ b = cc s in
      let size : length pre + 1 + length (e.append_string (rune_text r))
          ≡ length pre + length (x ∷ e.append_string (rune_text r)) =
        omega arith in
      rw (← bytes, kind_parse-append r pre rest v, size) refl
  parse_as-tlog_append (log_level q) (log_level l) b pre rest v s =
      let x = semantic rfc8949 wire_log_level in
      let bytes : x ∷ e.append_int l ≡ b = cc s in
      let size : length pre + 1 + length (e.append_int l)
          ≡ length pre + length (x ∷ e.append_int l) =
        omega arith in
      rw (← bytes, level_parse-append l pre rest, size) refl
  parse_as-tlog_append _ _ b pre rest v s = absurd (cc v)
