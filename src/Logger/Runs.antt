-- ===== src/Logger/Runs.antt =====
-- Runs of tlog.go: the calls of one logger at concrete arguments.
use tlog.Base.{ℕ, ◌+◌, ◌^◌, ◌<◌, ◌≡◌, refl, arith, ltb, ltb→lt, if◌then◌else◌}
use tlog.Base.{true, false, none, some, List, [], ◌∷◌, All, length}
use tlog.Base.{Bool-cases, inl, inr}
use tlog.Base.Bits.{Bytes}
use tlog.Base.Io.{Writer, write_all}
use tlog.Base.Outcome.{panic}
use tlog.Ident.{is_zero}
use tlog.Wire.{rfc8949}
use tlog.Wire.Int64.{ℤ, pos, negsuc}
use tlog.Wire.Reader.{Reader, ret, io_eof, read_error, write_to}
use tlog.Wire.Reader.Copy.{TakesAll}
use tlog.Wire.Reader.Stream.{Streams}
use tlog.Wire.Scan.Grammar.{
  Width, number, text, Pairs, end, pair, head, encode, count_pairs, IsItem,
}
use tlog.Kvs.{Any, str, int, append_kvs, append_from, append_arg, append_key, auto_or}
use tlog.Kvs.Pairs.{Event, IsPrefix, no_pairs}
use tlog.Kvs.Samples.{
  nil_item, small_number, small_encoder, small_encoder-Encodes, scan_skip, scan_skip-Skips,
  six_spaces,
}
use tlog.Logger.{
  LogEncoder, Env, Logger, Span, no_id, string_message, dump_writer, dump_context, event, event_map,
  id_pair,
}
use tlog.Logger.Calls.{LogEncodes}
use tlog.Logger.Sequence.{
  Call, message_call, span_call, finish_call, event_call, labels_call, io_call, dump_call, raw_call,
  callers_call, IsCall, Events, writes, writing, after_write, joined, writes-Events,
  write_to-writes,
}

-- A text with its length in the first byte, or in eight bytes behind it.
abbrev text_width : ℕ → Width
text_width n = if ltb n 24 then Width.direct else Width.eight

abbrev run_encoder : LogEncoder
run_encoder = record {
  kvs = small_encoder;
  append_map = 0xbf ∷ [];
  append_break = 0xff ∷ [];
  append_tag_string = λ n. head 3 (text_width n) n;
  append_int64 = λ v. encode (small_number v);
  append_pc = λ pc. encode nil_item;
  insert_len = λ tag s. encode (text true (text_width (length s)) s);
  print = λ a. [];
  printf = λ f args. [];
}

run_text-IsItem : (s : Bytes) → length s < 2 ^ 63 → IsItem (text true (text_width (length s)) s)
unfolding IsItem
run_text-IsItem s h = elim (Bool-cases (ltb (length s) 24)) [
  | inl y ↦ rw y (ltb→lt (length s) 24 y)
  | inr n ↦ rw n (omega (arith, h))
]

small_event : (v : ℤ) → Event (encode (small_number v))
small_event v = small_encoder-Encodes.int_event v

nil_event : Event (encode nil_item)
unfolding IsItem
nil_event = record { item = nil_item; is_item = tt; bytes_are = refl }

small_label : (n : ℕ) → IsPrefix (head 6 Width.direct (if ltb n 24 then n else 0))
small_label n = elim (Bool-cases (ltb n 24)) [
  | inl y ↦ rw y (Width.direct, n, ltb→lt n 24 y, refl)
  | inr m ↦ rw m (Width.direct, 0, omega arith, refl)
]

run_encoder-LogEncodes : LogEncodes run_encoder
unfolding encode
run_encoder-LogEncodes = record {
  kvs_encodes = small_encoder-Encodes;
  map_byte = refl;
  break_byte = refl;
  text_event = λ s h. record {
    item = text true (text_width (length s)) s;
    is_item = run_text-IsItem s h;
    bytes_are = refl;
  };
  int64_event = small_event;
  pc_event = λ pc. nil_event;
  insert_event = λ s h. record {
    item = text true (text_width (length s)) s;
    is_item = run_text-IsItem s h;
    bytes_are = refl;
  };
  print_short = λ a. omega arith;
  printf_short = λ f args. omega arith;
  label_prefix = small_label;
}

-- A clock that ticks, and identifiers and callers of one byte.
abbrev ticking : Env
ticking = record {
  State = ℕ;
  nano = λ n. (n + 1, pos n);
  now = λ n. (n + 1, pos n);
  since = λ t u. pos 1;
  new_id = λ n. (n + 1, 7 ∷ []);
  callers = λ skip. (1, 9);
  caller1 = λ skip. 9;
  skip = scan_skip;
  spaces = six_spaces;
}

abbrev plain_logger : Logger
plain_logger = record {
  has_nano = true;
  has_now = true;
  has_callers = true;
  callers_skip = pos 0;
  ls = [];
}

abbrev a_kvs : List Any
a_kvs = str (b'a' ∷ []) ∷ int (pos 1) ∷ []

abbrev a_span : Span
a_span = record { logger = none; id = 7 ∷ []; started_at = pos 3 }

abbrev a_pairs : Pairs
a_pairs = pair (text true Width.direct (b'a' ∷ [])) (number false Width.direct 1) end

abbrev some_calls : List Call
some_calls =
    message_call no_id (pos 0) (string_message (b'h' ∷ b'i' ∷ [])) a_kvs
    ∷ labels_call a_kvs
    ∷ span_call no_id (pos 0) (b's' ∷ []) []
    ∷ io_call a_span (negsuc 0) (b'x' ∷ [])
    ∷ dump_call a_span (pos 0) (b'd' ∷ []) (b'k' ∷ []) a_kvs (b'p' ∷ [])
    ∷ event_call no_id a_kvs
    ∷ callers_call (pos 1) true
    ∷ raw_call (encode nil_item)
    ∷ finish_call a_span []
    ∷ []

some_calls-All : All (IsCall run_encoder ticking) some_calls
some_calls-All = (
  (tt, (tt, tt)),
  (
    (
      a_pairs,
      unfold append_kvs append_from append_arg append_key auto_or encode head in refl,
      unfold IsItem in (omega arith, omega arith, tt),
      unfold count_pairs in omega arith,
      omega arith,
      unfold encode head in omega arith,
    ),
    (tt, (omega arith, ((tt, tt), ((tt, tt), (tt, (nil_event, (tt, tt))))))),
  ),
)

writes-Events_example :
    Events
      (writes run_encoder ticking plain_logger some_calls 0)
      (writing run_encoder ticking some_calls)
writes-Events_example =
    writes-Events run_encoder ticking run_encoder-LogEncodes scan_skip-Skips some_calls plain_logger
      0 no_pairs some_calls-All

abbrev two_calls : List Call
two_calls = event_call no_id [] ∷ event_call no_id [] ∷ []

-- The bytes of the two events in two answers, the first of which ends inside the first event.
abbrev cut_events : Reader
cut_events = record {
  buf = [];
  i = 0;
  boff = 0;
  source =
      record { bytes = 0xbf ∷ []; err = none }
      ∷ record { bytes = 0xff ∷ 0xbf ∷ 0xff ∷ []; err = some io_eof }
      ∷ [];
}

cut_events-Streams :
    Streams cut_events (joined (writes run_encoder ticking plain_logger two_calls 0))
unfolding joined writes after_write event event_map id_pair append_kvs append_from read_error
    is_zero
cut_events-Streams = record { within = omega arith; stream = refl; clean = (refl, (refl, tt)) }

-- A writer that keeps the slices it was handed.
abbrev slices : Writer
slices = record { State = List Bytes; write = λ w b. (b ∷ w, length b, none) }

slices-TakesAll : TakesAll slices
slices-TakesAll = record { takes = λ w b. (refl, refl) }

write_to-writes_example :
    (d' : Reader) × (write_to rfc8949 slices cut_events []
      ≡ ret (d', (0xbf ∷ 0xff ∷ []) ∷ (0xbf ∷ 0xff ∷ []) ∷ [], 4, none))
unfolding joined writes after_write event event_map id_pair append_kvs append_from write_all is_zero
write_to-writes_example =
    write_to-writes run_encoder ticking run_encoder-LogEncodes scan_skip-Skips slices
      slices-TakesAll two_calls plain_logger 0 no_pairs (tt, (tt, tt)) cut_events [] (omega arith)
      cut_events-Streams

-- `DumpWriter` of a span with no logger panics, where the other calls do nothing.
dump_writer_none : dump_writer rfc8949 run_encoder ticking a_span a_kvs ≡ panic
unfolding dump_writer dump_context
dump_writer_none = refl
