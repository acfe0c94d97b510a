-- ===== src/Wire/Reader/Runs.antt =====
-- Runs of tlwire/reader.go, and the theorems about it at concrete inputs.
use tlog.Base.{◌≤◌, ◌≡◌, refl, arith, true, false, none, some, [], ◌∷◌, ◌++◌, inl, List, length}
use tlog.Base.Bits.{Bytes}
use tlog.Base.Io.{Writer}
use tlog.Wire.{rfc8949}
use tlog.Wire.Int64.{to_int64, add_int64}
use tlog.Wire.Scan.{skip, skip_within}
use tlog.Wire.Reader.{Reader, ret, io_eof, read_one, read}
use tlog.Wire.Scan.{skip_tagged, read_tag, read_length}
use tlog.Wire.Reader.{write_to}
use tlog.Wire.Scan.{finish, proceed, skip_elements, is_open, below_sub}
use tlog.Wire.Reader.{read_error}
use tlog.Wire.Reader.{skip_read, skip_read_loop, skip_read_next, take_event}
use tlog.Wire.Scan.Grammar.{Item, Width, Literal, number, text, array, open_map, literal, cons, nil}
use tlog.Wire.Scan.Grammar.{
  pair, end, encode, encode_items, encode_pairs, head, to_bytes, count_items, count_pairs, IsItem,
}
use tlog.Wire.Scan.Steps.{upto}
use tlog.Wire.Scan.Events.{skip-encode}
use tlog.Wire.Reader.Stream.{Streams, read_one-encode, read-encode}
use tlog.Wire.Reader.Copy.{stream_of, write_each, write_to-stream, TakesAll}
use tlog.Wire.Scan.Endless.{skip_within-open_string}

-- `[7, "ab"]` with a number in a byte of its own, and `{_ "k": nil}`.
abbrev two_fields : Item
two_fields =
    array Width.direct
      (cons (number false Width.one 7) (cons (text true Width.direct (b'a' ∷ b'b' ∷ [])) nil))

abbrev labels : Item
labels = open_map (pair (text true Width.direct (b'k' ∷ [])) (literal Literal.lit_nil) end)

abbrev two_fields_bytes : Bytes
two_fields_bytes = 0x82 ∷ 0x18 ∷ 7 ∷ 0x62 ∷ b'a' ∷ b'b' ∷ []

abbrev labels_bytes : Bytes
labels_bytes = 0xbf ∷ 0x61 ∷ b'k' ∷ 0xf6 ∷ 0xff ∷ []

two_fields-encode : encode two_fields ≡ two_fields_bytes
unfolding encode head to_bytes count_items encode_items
two_fields-encode = refl

two_fields-IsItem : IsItem two_fields
unfolding IsItem count_items
two_fields-IsItem = (omega arith, (omega arith, (omega arith, tt)))

labels-IsItem : IsItem labels
unfolding IsItem
labels-IsItem = (omega arith, tt, tt)

-- The first event comes in two answers of the underlying reader, the second with the end of the first.
abbrev cut_stream : Reader
cut_stream = record {
  buf = 0x82 ∷ 0x18 ∷ [];
  i = 0;
  boff = 0;
  source =
      record { bytes = 7 ∷ 0x62 ∷ []; err = none }
      ∷ record { bytes = b'a' ∷ b'b' ∷ 0xbf ∷ 0x61 ∷ []; err = none }
      ∷ record { bytes = b'k' ∷ 0xf6 ∷ 0xff ∷ []; err = some io_eof }
      ∷ [];
}

cut_stream-Streams : Streams cut_stream (two_fields_bytes ++ labels_bytes)
unfolding read_error
cut_stream-Streams = record {
  within = omega arith;
  stream = refl;
  clean = (refl, (refl, (refl, tt)));
}

reads_the_first :
    read_one rfc8949 cut_stream
    ≡ ret (
      record {
        buf = two_fields_bytes ++ (0xbf ∷ 0x61 ∷ []);
        i = 6;
        boff = 0;
        source = record { bytes = b'k' ∷ 0xf6 ∷ 0xff ∷ []; err = some io_eof } ∷ [];
      },
      inl two_fields_bytes,
    )
unfolding read_one skip_read skip_read_loop skip_read_next take_event skip skip_within skip_tagged
    read_tag skip_elements is_open below_sub proceed read_length read_error finish add_int64
    to_int64
reads_the_first = refl

-- A buffer with a byte in front of the first event and a part of the second behind it.
abbrev window : Bytes
window = 0 ∷ (two_fields_bytes ++ (0xbf ∷ []))

skip-encode_example : skip rfc8949 window 1 ≡ some (upto window 1 6)
unfolding encode head to_bytes count_items encode_items
skip-encode_example =
    skip-encode rfc8949 two_fields window (0xbf ∷ []) 1 refl two_fields-IsItem (omega arith)
      (record { rest = []; agrees = refl; within = omega arith })

read_one-encode_example :
    (d' : Reader) × (read_one rfc8949 cut_stream ≡ ret (d', inl two_fields_bytes))
    × Streams d' labels_bytes
    × (d'.i ≤ 6)
unfolding encode head to_bytes count_items encode_items
read_one-encode_example =
    read_one-encode rfc8949 refl two_fields labels_bytes two_fields-IsItem cut_stream (omega arith)
      cut_stream-Streams

read-encode_example :
    (d' : Reader) × (read rfc8949 100 cut_stream ≡ ret (d', inl (two_fields_bytes, 100)))
    × Streams d' labels_bytes
unfolding encode head to_bytes count_items encode_items
read-encode_example =
    read-encode rfc8949 refl two_fields labels_bytes two_fields-IsItem cut_stream 100 (omega arith)
      cut_stream-Streams (omega arith)

abbrev at_end : Reader
at_end = record { buf = 5 ∷ []; i = 1; boff = 40; source = record { bytes = []; err = none } ∷ [] }

-- A writer that keeps the slices it was handed.
abbrev keeper : Writer
keeper = record { State = List Bytes; write = λ w b. (b ∷ w, length b, none) }

keeper-TakesAll : TakesAll keeper
keeper-TakesAll = record { takes = λ w b. (refl, refl) }

write_to-stream_example :
    (d' : Reader) × (write_to rfc8949 keeper cut_stream []
      ≡ ret (d', labels_bytes ∷ two_fields_bytes ∷ [], 11, none))
unfolding encode head to_bytes count_items count_pairs encode_items encode_pairs stream_of
    write_each
write_to-stream_example =
    write_to-stream rfc8949 keeper refl keeper-TakesAll (two_fields ∷ labels ∷ []) cut_stream []
      (two_fields-IsItem, (labels-IsItem, tt)) (omega arith) cut_stream-Streams

skip_within-open_string_example : skip_within rfc8949 1000 (0x9f ∷ 0x7f ∷ 0xff ∷ 0xff ∷ []) 0 ≡ none
skip_within-open_string_example = skip_within-open_string (0xff ∷ 0xff ∷ []) 1000
