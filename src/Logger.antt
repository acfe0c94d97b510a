-- ===== src/Logger.antt =====
-- tlog.go: the logger and its spans, and what each call writes.
pub mod Calls
pub mod Setup
pub mod Times
pub mod Sequence
mod Runs
use tlog.Base.{ℕ, suc, ◌+◌, ◌==◌, if◌then◌else◌, Bool, true, false, ◌&&◌, not}
use tlog.Base.{Option, none, some, List, [], ◌∷◌, ◌++◌, length}
use tlog.Base.Bits.{Bytes}
use tlog.Base.Outcome.{Outcome, ok, panic}
use tlog.Ident.{is_zero}
use tlog.Wire.{Consts}
use tlog.Wire.Int64.{ℤ, pos, negsuc, add_int64}
use tlog.Kvs.{
  Any, str, bytes, ident, event_kind, appender, Encoder, semantic, tlog_append, append_kvs,
  wire_message,
}
use tlog.Kvs.Labels.{append_labels}

-- The encoders that tlog.go calls besides those of wire.go: of nikand.dev/go/cbor, of hfmt, and the locations
-- of tlwire with their cache.
pub record LogEncoder : Type 0 where
  pub kvs : Encoder
  pub append_map : Bytes
  pub append_break : Bytes
  pub append_tag_string : ℕ → Bytes
  pub append_int64 : ℤ → Bytes
  pub append_pc : ℕ → Bytes
  pub insert_len : ℕ → Bytes → Bytes
  pub print : Any → Bytes
  pub printf : Bytes → List Any → Bytes

-- What a logger stands on: the clock and the random identifiers, which may change a state, and the callers:
-- how many were found, and the first.
pub record Env : Type 1 where
  pub State : Type 0
  pub nano : State → State × ℤ
  pub now : State → State × ℤ
  pub since : ℤ → ℤ → ℤ
  pub new_id : State → State × Bytes
  pub callers : ℤ → ℕ × ℕ
  pub caller1 : ℕ → ℕ
  pub skip : Bytes → ℕ → Outcome ℕ
  pub spaces : Bytes

-- The fields of a `Logger`: whether the functions are there, and the labels. The buffer `b` is emptied before
-- each use.
pub record Logger : Type 0 where
  pub has_nano : Bool
  pub has_now : Bool
  pub has_callers : Bool
  pub callers_skip : ℤ
  pub ls : Bytes

pub record Span : Type 0 where
  pub logger : Option Logger
  pub id : Bytes
  pub started_at : ℤ

-- `msg interface{}`; `no_message` is nil.
pub data Message : Type 0 where
  no_message : Message
  string_message : Bytes → Message
  bytes_message : Bytes → Message
  format_message : Bytes → List Any → Message
  any_message : Any → Message

abbrev pub no_id : Bytes
no_id = 0 ∷ 0 ∷ 0 ∷ 0 ∷ 0 ∷ 0 ∷ 0 ∷ 0 ∷ 0 ∷ 0 ∷ 0 ∷ 0 ∷ 0 ∷ 0 ∷ 0 ∷ 0 ∷ []

abbrev pub key_text : ℕ → Bytes
key_text c = b'_' ∷ c ∷ []

-- `tlwire.Time`, `tlwire.Duration` and `tlwire.Caller`
abbrev pub wire_time : ℕ
wire_time = 2

abbrev pub wire_duration : ℕ
wire_duration = 3

abbrev pub wire_caller : ℕ
wire_caller = 5

module _ (k : Consts) (e : LogEncoder) (env : Env) where
  open env use {State, nano, now, since, new_id, callers, caller1, skip, spaces}

  -- `Encoder.AppendKey`, `AppendTimestamp`, `AppendDuration` and `AppendCaller` of tlwire
  unfoldable pub append_key_text : Bytes → Bytes
  append_key_text s = e.append_tag_string (length s) ++ s

  unfoldable pub append_timestamp : ℤ → Bytes
  append_timestamp t = semantic k wire_time ∷ e.append_int64 t

  unfoldable pub append_duration : ℤ → Bytes
  append_duration d = semantic k wire_duration ∷ e.append_int64 d

  unfoldable pub append_caller : ℕ → Bytes
  append_caller pc = semantic k wire_caller ∷ e.append_pc pc

  -- `Encoder.InsertLen`, `AppendFormat` and `AppendFormatf`, with the length put in front of what is printed
  unfoldable pub append_format : Any → Bytes
  append_format a = e.insert_len k.tag_string (e.print a)

  unfoldable pub append_formatf : Bytes → List Any → Bytes
  append_formatf f args = e.insert_len k.tag_string (e.printf f args)

  unfoldable pub appended : Option Bytes → Bytes
  appended none = []
  appended (some b) = b

  unfoldable pub value_of : Any → Bytes
  value_of a = appended (tlog_append k e.kvs a)

  unfoldable pub string_key : ℕ → Bytes
  string_key c = e.kvs.append_string (key_text c)

  -- `if id != (ID{}) { .. }` with the key of the identifier
  unfoldable pub id_pair : ℕ → Bytes → Bytes
  id_pair c id = if not (is_zero id) then string_key c ++ value_of (ident id) else []

  unfoldable pub time_pair : Bool → State × ℤ → State → State × ℤ × Bytes
  time_pair has (after, t) st =
      if has then (after, t, string_key b't' ++ append_timestamp t) else (st, pos 0, [])

  unfoldable pub message_caller : Logger → ℤ → Bytes
  message_caller l (negsuc d) = []
  message_caller l (pos d) =
      let (n, c) = callers (add_int64 (2 + d) l.callers_skip) in
      if l.has_callers && not (n == 0)
      then append_key_text (key_text b'c') ++ append_caller c
      else []

  unfoldable pub span_caller : ℤ → Bytes
  span_caller (negsuc d) = []
  span_caller (pos d) = append_key_text (key_text b'c') ++ append_caller (caller1 (2 + d))

  unfoldable pub message_text : Message → Bytes
  message_text no_message = []
  message_text (string_message s) = e.kvs.append_string s
  message_text (bytes_message s) = e.append_tag_string (length s) ++ s
  message_text (format_message f args) = append_formatf f args
  message_text (any_message a) = append_format a

  unfoldable pub message_pair : Message → Bytes
  message_pair no_message = []
  message_pair m =
      append_key_text (key_text b'm') ++ (e.kvs.append_label wire_message ++ message_text m)

  -- The map of an event: its own pairs, those of the call and the labels.
  unfoldable pub event_map : Bytes → List Any → Bytes → Bytes
  event_map own kvs ls = e.append_map ++ ((own ++ (append_kvs k e.kvs kvs ++ ls)) ++ e.append_break)

  -- What a call leaves and what it hands to `Writer.Write`.
  abbrev pub Written : Type 0
  Written = State × Option Bytes

  unfoldable pub message_at : Logger → Bytes → ℤ → Message → List Any → State × ℤ × Bytes → Written
  message_at l id d msg kvs (st, t, ts) = (
    st,
    some (event_map (id_pair b's' id ++ (ts ++ (message_caller l d ++ message_pair msg))) kvs l.ls),
  )

  unfoldable pub message : Option Logger → Bytes → ℤ → Message → List Any → State → Written
  message none id d msg kvs st = (st, none)
  message (some l) id d msg kvs st = message_at l id d msg kvs (time_pair l.has_nano (nano st) st)

  unfoldable pub name_pair : Bytes → Bytes
  name_pair [] = []
  name_pair (c ∷ n) =
      string_key b'm' ++ (e.kvs.append_label wire_message ++ e.kvs.append_string (c ∷ n))

  abbrev pub kind_pair : ℕ → Bytes
  kind_pair r = string_key b'k' ++ value_of (event_kind r)

  -- `newspan`, with the span that it returns
  unfoldable pub newspan_at :
      Logger → Bytes → ℤ → Bytes → List Any → Bytes → State × ℤ × Bytes → Written × Span
  newspan_at l par d n kvs id (st, t, ts) = (
    (
      st,
      some (
          event_map
            ((string_key b's' ++ value_of (ident id))
              ++ (ts ++ (span_caller d ++ (kind_pair b's' ++ (id_pair b'p' par ++ name_pair n)))))
            kvs l.ls),
    ),
    record { logger = some l; id = id; started_at = t },
  )

  unfoldable pub newspan : Option Logger → Bytes → ℤ → Bytes → List Any → State → Written × Span
  newspan none par d n kvs st =
      ((st, none), record { logger = none; id = no_id; started_at = pos 0 })
  newspan (some l) par d n kvs st =
      let (st', id) = new_id st in newspan_at l par d n kvs id (time_pair l.has_now (now st') st')

  unfoldable pub elapsed_pair : Bool → ℤ → ℤ → Bytes
  elapsed_pair has t started =
      if has then string_key b'e' ++ append_duration (since t started) else []

  unfoldable pub finish_at : Logger → Span → List Any → State × ℤ × Bytes → Written
  finish_at l s kvs (st, t, ts) = (
    st,
    some (
        event_map
          (id_pair b's' s.id ++ (ts ++ (kind_pair b'f' ++ elapsed_pair l.has_now t s.started_at)))
          kvs l.ls),
  )

  -- `Span.Finish`
  unfoldable pub finish_span : Option Logger → Span → List Any → State → Written
  finish_span none s kvs st = (st, none)
  finish_span (some l) s kvs st = finish_at l s kvs (time_pair l.has_now (now st) st)

  -- `Logger.Event` and `Span.Event`, the first with no identifier.
  unfoldable pub event : Option Logger → Bytes → List Any → State → Written
  event none id kvs st = (st, none)
  event (some l) id kvs st = (st, some (event_map (id_pair b's' id) kvs l.ls))

  -- `Logger.SetLabels`; a run of `AppendLabels` with no end and a panic leave nothing.
  unfoldable pub with_labels : Logger → Option (Outcome Bytes) → Option (Outcome Logger)
  with_labels l none = none
  with_labels l (some panic) = some panic
  with_labels l (some (ok ls)) = some (ok (record l { ls = ls }))

  unfoldable pub set_labels : Logger → List Any → Option (Outcome Logger)
  set_labels l kvs = with_labels l (append_labels k skip e.kvs spaces [] kvs)

  unfoldable pub dump_context : Option Logger → List Any → Outcome Bytes
  dump_context none kvs = panic
  dump_context (some l) kvs = ok (append_kvs k e.kvs kvs)

  -- `writeWrapper.Write` and `dumpWrapper.Write`
  unfoldable pub wrapper_write : Span → ℤ → Bytes → State → Written × ℕ
  wrapper_write s d p st = (message s.logger s.id d (bytes_message p) [] st, length p)

  -- `Span.DumpWriter`: the pairs that each dump repeats, or a panic where there is no logger.
  unfoldable pub dump_writer : Span → List Any → Outcome Bytes
  dump_writer s kvs = dump_context s.logger kvs

  unfoldable pub dump_write : Span → ℤ → Bytes → Bytes → Bytes → Bytes → State → Written × ℕ
  dump_write s d msg key ctx p st = (
    message s.logger s.id d (string_message msg) (appender ctx ∷ str key ∷ bytes p ∷ []) st,
    length p,
  )
