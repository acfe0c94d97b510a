-- ===== src/Lib.antt =====
-- tlog: structured logging with a binary wire format. A logger or a span encodes an event as a map in
-- a CBOR-like format (tlwire) and hands it to an io.Writer; writers of tlio and rotating pass it on to
-- files and consoles, and tlwire.Reader cuts a stream of such events apart again.
--
-- Which file models what:
--   - Base: names shared by all parts: lists, options and tests on the native numbers, bytes and their
--     bits (Base/Bits), calls that may panic (Base/Outcome), Go's io.Writer (Base/Io).
--   - Ident: id.go. An `ID` is a list of 16 bytes; `from_string` is `IDFromString`, `format_to` is
--     `FormatTo`, and the other functions have their names of the source. Ident/Text describes the text
--     of an identifier with no buffer in it.
--   - Wire/Scan: `skip` and `readTag` of tlwire/reader.go. Wire/Scan/Grammar describes the events as trees
--     and their bytes with no reading in it; Wire/Scan/View what a buffer knows of a stream.
--   - Wire/Reader: `Reader` of tlwire/reader.go over an `io.Reader` that is the list of the answers it will
--     give, and `WriteTo` into an `io.Writer` that is a state and a function.
--   - Tlio/Ring: `RingWriter` and `TailWriter` of tlio/writers.go; Tlio/Writers: most of its other writers
--     and the closers of tlio/closers.go; Tlio/ReReader: `ReReader` of tlio/readers.go. What they stand on is a
--     parameter: a state and its functions, or references into a world where a writer is held by reference.
--   - Rotating: rotating/file.go. Rotating itself has `filesToRemove`, Rotating/Current the names
--     (`splitPattern`, `parseName`, `findMaxNum`), Rotating/Writing `Write`, `rotate`, `Close` and `removeOld`
--     over an `Env` of the file system and the clock.
--   - Verbosity: verbosity_filter.go. Verbosity/Goroutines runs `match` of several goroutines in the order of a
--     schedule, with one turn for each lock.
--   - Escape: low/safeadd.go. Escape/Unescape describes a reader of escaped text.
--   - Agent: `writeFile` and `padFile` of agent/agent.go over an `Env` of the compressor and the files, in
--     Agent/Streams the choice of the stream, in Agent/Places where in its file the
--     next write goes, and in Agent/Subs the subscriptions of agent/query.go.
--   - Flags: ext/tlflag/flag.go. Flags/Sizes is `ParseBytes`, Flags/Options the flags in a query, Flags/Paths
--     `ParseURL` and the loop over the extensions, Flags/Writing `OpenWriter` and Flags/Reading `OpenReader`
--     with what they call. What is opened has a number, and a `World` keeps the openings and the closings in
--     their order.
--   - Kvs: wire.go. An interface value is an `Any`, one of the types that the code tells apart; `append_kvs`
--     is `appendKVs`, Kvs/Labels is `AppendLabels` in its buffer, and Kvs/Values has `TlogAppend` and
--     `TlogParse`. Kvs/Layout has the pairs that the arguments of `appendKVs` stand for. The encoders and
--     decoders of nikand.dev/go/cbor are parameters.
--   - Labels: `ParseLabels` of labels.go.
--   - Logger: tlog.go. `message`, `newspan`, `finish_span`, `event` and `set_labels` are the calls of the
--     source, over an `Env` of the clock, the identifiers and the callers, with what they hand to
--     `Writer.Write`, and Logger/Setup has what makes, copies and sets up loggers; Logger/Sequence runs
--     calls of one logger and a `Reader` of tlwire on what they wrote, and Logger/Times is `Timestamp` and
--     `Duration` of tlwire/decoder.go. A time is its nanoseconds, and 0 also
--     stands for the zero time.
--   - Renamer: `KeyRenamer` of convert/rewriter.go. Renamer/Ordering is the order of paths, Renamer/Search the
--     binary search and the rule it finds.
--
-- Bounds and fuel: `skip` takes fuel for its depth and its rounds, one more than the bytes of the buffer,
-- which is enough for every buffer that begins with an event; where it is not enough the result is `none`,
-- since the code can in fact run for ever. `AppendSafeString` takes a round for each byte and one more.
-- `WriteTo` takes as much fuel as there are bytes to come, and one more, since each event has one byte at
-- least. The loop of `AppendLabels` takes one round more than the buffer has bytes, and each round is a
-- pair. The loop over the extensions of a path takes one round more than the path has bytes. `sort.Search`
-- takes one round more than there are rules. The position of a `RingWriter` is a natural number, as it
-- stays below 2^63 in any run. Indexes are natural numbers; a length is an `int64` that wraps around, and
-- events end below 2^63.
--
-- Not modelled: nikand.dev/go/cbor, whose constants are the parameter `Consts` of Wire; formatting with
-- fmt, regular expressions, reflection, times, the file system and the network. Of tlio `DeLabels`,
-- `SandwichWriter` and `DumpReader`; of the agent the header of an event; of the rest of the repository
-- most of the encoder and decoder of tlwire, the console writer, the converters but the renamer of keys,
-- the extensions and the commands. The capacity of slices shows nowhere but in how much one answer of an
-- `io.Reader` can hold.
pub mod Base
pub mod Agent
pub mod Escape
pub mod Flags
pub mod Ident
pub mod Kvs
pub mod Labels
pub mod Logger
pub mod Renamer
pub mod Rotating
pub mod Tlio
pub mod Verbosity
pub mod Wire
