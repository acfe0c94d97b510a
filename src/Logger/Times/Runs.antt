-- ===== src/Logger/Times/Runs.antt =====
-- Runs of `Timestamp` of tlwire/decoder.go.
use tlog.Base.{ℕ, ◌+◌, ◌≤◌, ◌≡◌, refl, ◌∙◌, arith, [], ◌∷◌, ◌++◌, length}
use tlog.Base.{drop, drop-append, length-append, append-nil}
use tlog.Base.Bits.{Bytes}
use tlog.Base.Outcome.{Outcome, ok, panic}
use tlog.Wire.{rfc8949}
use tlog.Wire.Int64.{ℤ, pos, negsuc, to_int64}
use tlog.Wire.Scan.{read_tag}
use tlog.Wire.Scan.View.{View}
use tlog.Wire.Scan.Tags.{read_tag-head}
use tlog.Wire.Scan.Grammar.{Width, head, to_bytes}
use tlog.Kvs.Samples.{small_encoder, scan_skip, six_spaces}
use tlog.Kvs.{semantic}
use tlog.Logger.{LogEncoder, Env, append_timestamp}
use tlog.Logger.Times.{TimeDecoder, ReadsInts, timestamp, time_read, timestamp-append_timestamp}

-- Integers in eight bytes.
abbrev eight_bytes : ℤ → Bytes
eight_bytes (pos n) = head 0 Width.eight n
eight_bytes (negsuc n) = head 1 Width.eight n

abbrev eight_encoder : LogEncoder
eight_encoder = record {
  kvs = small_encoder;
  append_map = 0xbf ∷ [];
  append_break = 0xff ∷ [];
  append_tag_string = λ n. head 3 Width.eight n;
  append_int64 = eight_bytes;
  append_pc = λ pc. 0xf6 ∷ [];
  insert_len = λ tag s. head 3 Width.eight (length s) ++ s;
  print = λ a. [];
  printf = λ f args. [];
}

-- A clock that stands still.
abbrev still : Env
still = record {
  State = ℕ;
  nano = λ n. (n, pos 258);
  now = λ n. (n, pos 258);
  since = λ t u. pos 0;
  new_id = λ n. (n, []);
  callers = λ skip. (0, 0);
  caller1 = λ skip. 0;
  skip = scan_skip;
  spaces = six_spaces;
}

-- `readTag` of tlwire as the iterator, and a decoder that reads no fields.
abbrev tag_read : ℕ × ℤ × ℤ → Outcome (ℕ × ℤ × ℕ)
tag_read (tag, v, pos i) = ok (tag, v, i)
tag_read (tag, v, negsuc i) = panic

abbrev time_decoder : TimeDecoder
time_decoder = record {
  read_tag = λ p i. tag_read (read_tag rfc8949 p i);
  read_bytes = λ p i. panic;
  signed = λ p i. panic;
  skip = λ p i. panic;
}

head_View : (pre xs rest : Bytes) → View (pre ++ (xs ++ rest)) (length pre) (xs ++ rest)
head_View pre xs rest = record {
  rest = [];
  agrees = append-nil (drop (length pre) (pre ++ (xs ++ rest))) ∙ drop-append pre (xs ++ rest);
  within = omega (arith, length-append pre (xs ++ rest));
}

head_inside : (pre xs rest : Bytes) → length pre + length xs ≤ length (pre ++ (xs ++ rest))
head_inside pre xs rest = omega (arith, length-append pre (xs ++ rest), length-append xs rest)

time_decoder-ReadsInts : ReadsInts eight_encoder time_decoder
unfolding to_int64
time_decoder-ReadsInts (pos n) pre rest small =
    let xs = head 0 Width.eight n in
    rw
      (read_tag-head (pre ++ (xs ++ rest)) rest (length pre) 0 Width.eight n (omega arith)
        (omega (arith, small)) (head_View pre xs rest) (head_inside pre xs rest))
      (ground (arith, small))
time_decoder-ReadsInts (negsuc n) pre rest small =
    let xs = head 1 Width.eight n in
    rw
      (read_tag-head (pre ++ (xs ++ rest)) rest (length pre) 1 Width.eight n (omega arith)
        (omega (arith, small)) (head_View pre xs rest) (head_inside pre xs rest))
      (to_int64 n, refl)

timestamp-append_timestamp_example :
    timestamp time_decoder (1 ∷ 0xc2 ∷ 0x1b ∷ 0 ∷ 0 ∷ 0 ∷ 0 ∷ 0 ∷ 0 ∷ 1 ∷ 2 ∷ []) 1
    ≡ ok (pos 258, 11)
unfolding append_timestamp head to_bytes time_read semantic
timestamp-append_timestamp_example =
    timestamp-append_timestamp eight_encoder still time_decoder time_decoder-ReadsInts (pos 258)
      (1 ∷ []) [] (omega arith)
