-- ===== src/Logger/Setup.antt =====
-- tlog.go: how loggers and spans are made, copied, chosen and set up, and `Logger.Write`.
use tlog.Base.{Bool, true, false, Option, none, some, [], if◌then◌else◌}
use tlog.Base.Bits.{Bytes}
use tlog.Base.Outcome.{Outcome, ok, panic}
use tlog.Wire.Int64.{ℤ, pos, add_int64}
use tlog.Logger.{Logger, Span, no_id}

unfoldable pub new_logger : Logger
new_logger = record {
  has_nano = true;
  has_now = true;
  has_callers = true;
  callers_skip = pos 0;
  ls = [];
}

-- `Logger.Copy`, which reads the fields of a logger that may be nil, and leaves the labels behind.
unfoldable pub copy_logger : Option Logger → Outcome Logger
copy_logger none = panic
copy_logger (some l) = ok (record l { ls = [] })

unfoldable pub with_copy : Span → Outcome Logger → Outcome Span
with_copy s panic = panic
with_copy s (ok l) = ok (record s { logger = some l })

-- `Span.Copy`
unfoldable pub copy_span : Span → Outcome Span
copy_span s = with_copy s (copy_logger s.logger)

-- `Logger.Root`, and `Logger.Or` and `Span.Or`
unfoldable pub root : Option Logger → Span
root l = record { logger = l; id = no_id; started_at = pos 0 }

unfoldable pub or_logger : Option Logger → Option Logger → Option Logger
or_logger none l = l
or_logger (some l) l' = some l

unfoldable pub is_present : Option Logger → Bool
is_present none = false
is_present (some l) = true

-- `Logger.OK` and `Span.OK`
unfoldable pub span_ok : Span → Bool
span_ok s = is_present s.logger

unfoldable pub or_span : Span → Span → Span
or_span s s' = if span_ok s then s else s'

-- `Logger.Write`: what it hands on where there is a logger and it has a writer, and else the length of the
-- slice, with no error.
unfoldable pub raw_write : Option Logger → Bool → Bytes → Option Bytes
raw_write none has_writer p = none
raw_write (some l) has_writer p = if has_writer then some p else none

-- `LoggerSetTimeNow` and `LoggerSetCallers`, of which the skip is the one of an `int`.
unfoldable pub set_time_now : Logger → Bool → Bool → Logger
set_time_now l now nano = record l { has_now = now; has_nano = nano }

unfoldable pub set_callers : Logger → ℤ → Bool → Logger
set_callers l skip callers = record l { has_callers = callers; callers_skip = add_int64 1 skip }
