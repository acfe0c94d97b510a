-- ===== src/Kvs/Values/Runs.antt =====
-- `TlogAppend` and `TlogParse` of wire.go on concrete values.
use tlog.Base.{ℕ, zero, suc, ◌+◌, ◌≡◌, refl, arith, Option, none, some, [], ◌∷◌, ◌++◌}
use tlog.Base.{length, get_elem?, take, drop, append_shift, length-append_one}
use tlog.Base.{take-append, drop-append, get_elem?-append}
use tlog.Base.Bits.{Bytes}
use tlog.Base.Outcome.{Outcome, ok, panic}
use tlog.Wire.Int64.{ℤ, pos, negsuc}
use tlog.Kvs.{event_kind, Encoder, semantic, tlog_append, rune_text}
use tlog.Kvs.Values.{
  Decoder, Decodes, expect, expected, kind_parse, kind_of, decode_rune, parse_as,
  parse_as-tlog_append,
}

-- The length of a text before it, and the sign of a number before it.
abbrev with_sign : ℤ → Bytes
with_sign (pos n) = 0 ∷ n ∷ []
with_sign (negsuc n) = 1 ∷ n ∷ []

abbrev plain_encoder : Encoder
plain_encoder = record {
  append_string = λ s. length s ∷ s;
  append_bytes = λ s. (0x40 + length s) ∷ s;
  append_int = with_sign;
  append_label = λ n. [];
  append_array = λ n. [];
  append_value = λ a. [];
  append_formatf = λ f a. [];
}

abbrev text_at : Bytes → ℕ → Option ℕ → Outcome (Bytes × ℕ)
text_at p i none = panic
text_at p i (some n) = ok (take n (drop (i + 1) p), i + suc n)

abbrev number_at : ℕ → Option ℕ → Option ℕ → Outcome (ℤ × ℕ)
number_at i (some zero) (some n) = ok (pos n, i + 2)
number_at i (some (suc m)) (some n) = ok (negsuc n, i + 2)
number_at i _ _ = panic

abbrev plain_decoder : Decoder
plain_decoder = record {
  read_bytes = λ p i. text_at p i (get_elem? p i);
  read_signed = λ p i. number_at i (get_elem? p i) (get_elem? p (i + 1));
}

length_one_more : (pre : Bytes) (x : ℕ) → length (pre ++ (x ∷ [])) ≡ length pre + 1
length_one_more pre x = omega (arith, length-append_one pre x)

drop_one : (pre s : Bytes) (x : ℕ) → drop (length pre + 1) (pre ++ (x ∷ s)) ≡ s
drop_one pre s x =
    rw (← append_shift pre s x, length_one_more pre x) at (drop-append (pre ++ (x ∷ [])) s)

second_byte : (pre s : Bytes) (x y : ℕ) → get_elem? (pre ++ (x ∷ y ∷ s)) (length pre + 1) ≡ some y
second_byte pre s x y =
    rw (← append_shift pre (y ∷ s) x, length_one_more pre x) at
      (get_elem?-append (pre ++ (x ∷ [])) s y)

plain_decoder-Decodes : Decodes plain_encoder plain_decoder
plain_decoder-Decodes = record {
  short_bytes = λ s h. refl;
  reads_string = λ s pre rest.
      rw
        (
          get_elem?-append pre (s ++ rest) (length s),
          drop_one pre (s ++ rest) (length s),
          take-append s rest,
        )
        refl;
  reads_int = λ v pre rest. reads v pre rest;
}
  where
    reads :
        (v : ℤ) (pre rest : Bytes)
        → plain_decoder.read_signed (pre ++ (with_sign v ++ rest)) (length pre)
          ≡ ok (v, length pre + length (with_sign v))
    reads (pos n) pre rest = rw (get_elem?-append pre (n ∷ rest) 0, second_byte pre rest 0 n) refl
    reads (negsuc n) pre rest =
        rw (get_elem?-append pre (n ∷ rest) 1, second_byte pre rest 1 n) refl

-- The kind of the end of a span, f, and the euro sign as a rune of three bytes.
parse_as-tlog_append_example :
    parse_as plain_decoder (event_kind 0) (7 ∷ 0xcd ∷ 3 ∷ 0xe2 ∷ 0x82 ∷ 0xac ∷ 9 ∷ []) 1
    ≡ ok (event_kind 0x20ac, 6)
parse_as-tlog_append_example =
    parse_as-tlog_append plain_encoder plain_decoder plain_decoder-Decodes (event_kind 0)
      (event_kind 0x20ac) (0xcd ∷ 3 ∷ 0xe2 ∷ 0x82 ∷ 0xac ∷ []) (7 ∷ []) (9 ∷ []) (omega arith, refl)
      (unfold tlog_append rune_text semantic in refl)

-- A byte that is no rune is read as U+FFFD, with no panic.
bad_rune : kind_parse plain_decoder (0xcd ∷ 1 ∷ 0xff ∷ []) 0 ≡ ok (0xfffd, 3)
unfolding kind_parse kind_of decode_rune expect expected semantic
bad_rune = refl
