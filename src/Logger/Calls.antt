-- ===== src/Logger/Calls.antt =====
-- The calls of a logger of tlog.go, one after the other, and the events that they write.
use tlog.Base.{ℕ, ◌+◌, ◌*◌, ◌^◌, ◌<◌, ◌≡◌, refl, ap, ◌∙◌, arith, if◌then◌else◌}
use tlog.Base.{Bool, true, false, not, Option, none, some, List, [], ◌∷◌, ◌++◌, length}
use tlog.Base.Bits.{Bytes}
use tlog.Ident.{is_zero}
use tlog.Wire.{rfc8949}
use tlog.Wire.Int64.{ℤ, pos, negsuc}
use tlog.Wire.Scan.Grammar.{Width, open_map, labelled, head, encode, IsItem}
use tlog.Kvs.{Any, ident, event_kind, key, semantic, tlog_append, rune_text}
use tlog.Kvs.Layout.{append_kvs-PairBytes}
use tlog.Kvs.Pairs.{Event, PairBytes, IsPrefix, Encodes, Whole, one_pair, pairs_then, no_pairs}
use tlog.Logger.{
  LogEncoder, Env, Logger, Span, Message, no_message, string_message, bytes_message, format_message,
  any_message, append_key_text, append_timestamp, append_duration, append_caller, appended,
  value_of, string_key, id_pair, time_pair, message_caller, span_caller, message_text, message_pair,
  append_format, append_formatf, event_map, Written, message_at, message, name_pair, newspan_at,
  newspan, elapsed_pair, finish_at, finish_span, event,
}

-- What the encoders promise: one event each, and the head of a tag; what is printed is below 2 ^ 63 bytes.
pub record LogEncodes (e : LogEncoder) : Type 0 where
  pub kvs_encodes : Encodes e.kvs
  pub map_byte : e.append_map ≡ 0xbf ∷ []
  pub break_byte : e.append_break ≡ 0xff ∷ []
  pub text_event : (s : Bytes) → length s < 2 ^ 63 → Event (e.append_tag_string (length s) ++ s)
  pub int64_event : (v : ℤ) → Event (e.append_int64 v)
  pub pc_event : (pc : ℕ) → Event (e.append_pc pc)
  pub insert_event : (s : Bytes) → length s < 2 ^ 63 → Event (e.insert_len 96 s)
  pub print_short : (a : Any) → length (e.print a) < 2 ^ 63
  pub printf_short : (f : Bytes) (args : List Any) → length (e.printf f args) < 2 ^ 63
  pub label_prefix : (n : ℕ) → IsPrefix (e.kvs.append_label n)

-- A message given as bytes is below 2 ^ 63 of them, as every slice of Go is.
abbrev pub IsShort : Message → Type 0
IsShort (bytes_message s) = length s < 2 ^ 63
IsShort _ = Unit

-- An event under a tag.
tag_event : {m b : Bytes} → IsPrefix m → Event b → Event (m ++ b)
unfolding encode IsItem
tag_event {m} {b} (w, n, f, e) x = record {
  item = labelled w n x.item;
  is_item = (f, x.is_item);
  bytes_are = ap (λ s. s ++ b) e ∙ ap (λ s. head 6 w n ++ s) x.bytes_are;
}

byte_prefix : (n : ℕ) → n < 24 → IsPrefix ((6 * 32 + n) ∷ [])
unfolding head
byte_prefix n h = (Width.direct, n, h, refl)

map_event : {b : Bytes} → PairBytes b → Event (0xbf ∷ (b ++ (0xff ∷ [])))
unfolding encode IsItem
map_event p = record {
  item = open_map p.pairs;
  is_item = p.are_pairs;
  bytes_are = ap (λ s. 0xbf ∷ (s ++ (0xff ∷ []))) p.bytes_are;
}

pairs_if : {b : Bytes} (c : Bool) → PairBytes b → PairBytes (if c then b else [])
pairs_if true p = p
pairs_if false p = no_pairs

module _ (e : LogEncoder) (env : Env) (h : LogEncodes e) where
  string_key-Event : (c : ℕ) → Event (string_key rfc8949 e env c)
  unfolding string_key
  string_key-Event c = h.kvs_encodes.string_event _

  text_key-Event : (c : ℕ) → Event (append_key_text rfc8949 e env (b'_' ∷ c ∷ []))
  unfolding append_key_text
  text_key-Event c = h.text_event (b'_' ∷ c ∷ []) (omega arith)

  ident-Event : (id : Bytes) → Event (value_of rfc8949 e env (ident id))
  unfolding value_of appended tlog_append semantic
  ident-Event id = tag_event (byte_prefix 11 (omega arith)) (h.kvs_encodes.bytes_event id)

  kind-Event : (r : ℕ) → Event (value_of rfc8949 e env (event_kind r))
  unfolding value_of appended tlog_append semantic
  kind-Event r = tag_event (byte_prefix 13 (omega arith)) (h.kvs_encodes.string_event (rune_text r))

  id_pair-PairBytes : (c : ℕ) (id : Bytes) → PairBytes (id_pair rfc8949 e env c id)
  unfolding id_pair
  id_pair-PairBytes c id =
      pairs_if (not (is_zero id)) (one_pair (string_key-Event c) (ident-Event id))

  timestamp-Event : (t : ℤ) → Event (append_timestamp rfc8949 e env t)
  unfolding append_timestamp semantic
  timestamp-Event t = tag_event (byte_prefix 2 (omega arith)) (h.int64_event t)

  time_pair-PairBytes :
      (has : Bool) (r : env.State × ℤ) (st : env.State)
      → let (st', t, b) = time_pair rfc8949 e env has r st in PairBytes b
  unfolding time_pair
  time_pair-PairBytes true (after, t) st = one_pair (string_key-Event b't') (timestamp-Event t)
  time_pair-PairBytes false (after, t) st = no_pairs

  caller-PairBytes :
      (pc : ℕ)
      → PairBytes
          (append_key_text rfc8949 e env (b'_' ∷ b'c' ∷ []) ++ append_caller rfc8949 e env pc)
  unfolding append_caller semantic
  caller-PairBytes pc =
      one_pair (text_key-Event _) (tag_event (byte_prefix 5 (omega arith)) (h.pc_event pc))

  message_caller-PairBytes : (l : Logger) (d : ℤ) → PairBytes (message_caller rfc8949 e env l d)
  unfolding message_caller
  message_caller-PairBytes l (negsuc d) = no_pairs
  message_caller-PairBytes l (pos d) = pairs_if _ (caller-PairBytes _)

  span_caller-PairBytes : (d : ℤ) → PairBytes (span_caller rfc8949 e env d)
  unfolding span_caller
  span_caller-PairBytes (negsuc d) = no_pairs
  span_caller-PairBytes (pos d) = caller-PairBytes _

  message_pair-of :
      {b : Bytes}
      → Event b
      → PairBytes (append_key_text rfc8949 e env (b'_' ∷ b'm' ∷ []) ++ (e.kvs.append_label 12 ++ b))
  message_pair-of x = one_pair (text_key-Event _) (tag_event (h.label_prefix 12) x)

  message_pair-PairBytes : (m : Message) → IsShort m → PairBytes (message_pair rfc8949 e env m)
  unfolding message_pair message_text append_format append_formatf
  message_pair-PairBytes no_message short = no_pairs
  message_pair-PairBytes (string_message s) short = message_pair-of (h.kvs_encodes.string_event s)
  message_pair-PairBytes (bytes_message s) short = message_pair-of (h.text_event s short)
  message_pair-PairBytes (format_message f args) short =
      message_pair-of (h.insert_event _ (h.printf_short f args))
  message_pair-PairBytes (any_message a) short =
      message_pair-of (h.insert_event _ (h.print_short a))

  name_pair-PairBytes : (n : Bytes) → PairBytes (name_pair rfc8949 e env n)
  unfolding name_pair
  name_pair-PairBytes [] = no_pairs
  name_pair-PairBytes (c ∷ n) =
      one_pair (string_key-Event b'm')
        (tag_event (h.label_prefix 12) (h.kvs_encodes.string_event (c ∷ n)))

  elapsed_pair-PairBytes :
      (has : Bool) (t started : ℤ) → PairBytes (elapsed_pair rfc8949 e env has t started)
  unfolding elapsed_pair append_duration semantic
  elapsed_pair-PairBytes has t started =
      pairs_if has (
        one_pair (string_key-Event b'e')
          (tag_event (byte_prefix 3 (omega arith)) (h.int64_event _)))

  event_map-Event :
      {own ls : Bytes} (kvs : List Any)
      → PairBytes own
      → Whole key kvs
      → PairBytes ls
      → Event (event_map rfc8949 e env own kvs ls)
  unfolding event_map
  event_map-Event kvs own w ls =
      rw (h.map_byte, h.break_byte)
        (map_event
          (pairs_then own (pairs_then (append_kvs-PairBytes e.kvs h.kvs_encodes kvs w) ls)))

  -- A write of one event, or no write where there is no logger.
  abbrev pub One : Option Logger → Written rfc8949 e env → Type 0
  One none (st, w) = w ≡ none
  One (some l) (st, w) = (b : Bytes) × (w ≡ some b) × Event b

  abbrev pub Labelled : Option Logger → Type 0
  Labelled none = Unit
  Labelled (some l) = PairBytes l.ls

  pub message-One :
      (l : Option Logger) (id : Bytes) (d : ℤ) (m : Message) (kvs : List Any) (st : env.State)
      → Labelled l
      → IsShort m
      → Whole key kvs
      → One l (message rfc8949 e env l id d m kvs st)
  unfolding message message_at
  message-One none id d m kvs st p short w = refl
  message-One (some l) id d m kvs st p short w = (
    _,
    refl,
    event_map-Event kvs
        (pairs_then (id_pair-PairBytes b's' id) (
          pairs_then (time_pair-PairBytes l.has_nano (env.nano st) st)
            (pairs_then (message_caller-PairBytes l d) (message_pair-PairBytes m short))))
        w p,
  )

  pub newspan-One :
      (l : Option Logger) (par : Bytes) (d : ℤ) (n : Bytes) (kvs : List Any) (st : env.State)
      → Labelled l
      → Whole key kvs
      → One l (newspan rfc8949 e env l par d n kvs st).0
  unfolding newspan newspan_at
  newspan-One none par d n kvs st p w = refl
  newspan-One (some l) par d n kvs st p w =
      let (st', id) = env.new_id st in
      (
        _,
        refl,
        event_map-Event kvs
            (pairs_then (one_pair (string_key-Event b's') (ident-Event id)) (
              pairs_then (time_pair-PairBytes l.has_now (env.now st') st') (
                pairs_then (span_caller-PairBytes d) (
                  pairs_then (one_pair (string_key-Event b'k') (kind-Event b's'))
                    (pairs_then (id_pair-PairBytes b'p' par) (name_pair-PairBytes n))))))
            w p,
      )

  pub finish_span-One :
      (l : Option Logger) (s : Span) (kvs : List Any) (st : env.State)
      → Labelled l
      → Whole key kvs
      → One l (finish_span rfc8949 e env l s kvs st)
  unfolding finish_span finish_at
  finish_span-One none s kvs st p w = refl
  finish_span-One (some l) s kvs st p w = (
    _,
    refl,
    event_map-Event kvs
        (pairs_then (id_pair-PairBytes b's' s.id) (
          pairs_then (time_pair-PairBytes l.has_now (env.now st) st) (
            pairs_then (one_pair (string_key-Event b'k') (kind-Event b'f'))
              (elapsed_pair-PairBytes l.has_now _ s.started_at))))
        w p,
  )

  pub event-One :
      (l : Option Logger) (id : Bytes) (kvs : List Any) (st : env.State)
      → Labelled l
      → Whole key kvs
      → One l (event rfc8949 e env l id kvs st)
  unfolding event
  event-One none id kvs st p w = refl
  event-One (some l) id kvs st p w = (_, refl, event_map-Event kvs (id_pair-PairBytes b's' id) w p)
