-- ===== src/Labels/Runs.antt =====
-- `ParseLabels` of labels.go on a concrete list.
use tlog.Base.{ℕ, ◌≡◌, refl, Option, none, some, List, [], ◌∷◌, map, All}
use tlog.Base.Bits.{Bytes}
use tlog.Verbosity.{split, glue, index_byte, same_text}
use tlog.Verbosity.Clauses.{join}
use tlog.Wire.Int64.{negsuc}
use tlog.Base.{if◌then◌else◌}
use tlog.Labels.{
  text, number, auto, digits_value, int64_range, ranged, unsigned, atoi, number_or_text, auto_value,
  label_of, labels_loop, parse_labels,
}
use tlog.Labels.Numerals.{spelled, decimal, place, minus, IsNumeral, NoNumeral, spelled-NoNumeral}
use tlog.Base.{arith}
use tlog.Labels.Means.{
  Part, blank, bare, numbered, texted, shown, IsPart, meanings, parse_labels-join,
}

-- One automatic label, _pid.
abbrev pid : Bytes
pid = b'_' ∷ b'p' ∷ b'i' ∷ b'd' ∷ []

abbrev one_auto : Bytes → Option ℕ
one_auto k = if same_text k pid then some 0 else none

-- _pid,,n=-12,s=a=b
abbrev some_parts : List Part
some_parts =
    bare pid
    ∷ blank
    ∷ numbered (b'n' ∷ []) minus (b'1' ∷ b'2' ∷ [])
    ∷ texted (b's' ∷ []) (b'a' ∷ b'=' ∷ b'b' ∷ [])
    ∷ []

twelve : IsNumeral minus (b'1' ∷ b'2' ∷ [])
unfolding decimal place
twelve = record {
  digits = ((omega arith, omega arith), ((omega arith, omega arith), tt));
  some_digits = cc;
  in_range = omega arith;
}

no_numeral : NoNumeral (b'a' ∷ b'=' ∷ b'b' ∷ [])
no_numeral = spelled-NoNumeral b'a' (b'=' ∷ b'b' ∷ []) (omega arith)

some_parts-IsPart : All IsPart some_parts
some_parts-IsPart = (
  (cc, (refl, (refl, (refl, (refl, tt)))), (refl, (refl, (refl, (refl, tt))))),
  (
    tt,
    (
      ((refl, tt), (refl, tt), twelve),
      (((refl, tt), (refl, tt), (refl, (refl, (refl, tt))), no_numeral), tt),
    ),
  ),
)

parse_labels-join_example :
    parse_labels one_auto (join b',' (map shown some_parts)) ≡ meanings one_auto some_parts
parse_labels-join_example = parse_labels-join one_auto some_parts some_parts-IsPart

some_labels :
    parse_labels one_auto (join b',' (map shown some_parts))
    ≡ (pid, auto 0)
      ∷ (b'n' ∷ [], number (negsuc 11))
      ∷ (b's' ∷ [], text (b'a' ∷ b'=' ∷ b'b' ∷ []))
      ∷ []
unfolding parse_labels labels_loop label_of auto_value number_or_text atoi unsigned ranged
    int64_range digits_value split glue index_byte join shown spelled same_text
some_labels = refl
