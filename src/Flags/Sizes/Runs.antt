-- ===== src/Flags/Sizes/Runs.antt =====
-- `ParseBytes` of ext/tlflag/flag.go on concrete texts.
use tlog.Base.{◌↔◌, ◌≡◌, refl, true, [], ◌∷◌}
use tlog.Base.Bits.{Bytes}
use tlog.Verbosity.{same_text}
use tlog.Wire.Int64.{pos, negsuc, to_int64}
use tlog.Flags.Sizes.{
  size, bad_size, unsupported_suffix, signs, number_base, in_number, digits_of, lower_first,
  to_lower, unit_in, number_value, scaled, in_int64, with_unit, with_digits, after_signs,
  parse_bytes,
}
use tlog.Flags.Sizes.Grammar.{Spelling, IsSpelling, spelled}
use tlog.Flags.Sizes.Sound.{Means, parse_bytes-Means}

-- -0x1FkiB
abbrev small : Spelling
small = record {
  minuses = 1;
  hex = true;
  digits = b'1' ∷ b'F' ∷ [];
  suffix = b'k' ∷ b'i' ∷ b'B' ∷ [];
}

small-IsSpelling : IsSpelling small 1024
unfolding in_number unit_in to_lower lower_first same_text
small-IsSpelling = record {
  all_digits = (refl, (refl, tt));
  some_digits = cc;
  ends = refl;
  unit = refl;
}

small_value : parse_bytes (spelled small) ≡ size (negsuc 31743)
unfolding parse_bytes spelled signs number_base digits_of in_number with_digits with_unit
    after_signs unit_in to_lower lower_first same_text number_value in_int64 scaled to_int64
small_value = refl

abbrev ten_k : Bytes
ten_k = b'1' ∷ b'0' ∷ b'k' ∷ []

ten_k_value : parse_bytes ten_k ≡ size (pos 10000)
unfolding parse_bytes signs number_base digits_of in_number with_digits with_unit after_signs
    unit_in to_lower lower_first same_text number_value in_int64 scaled to_int64
ten_k_value = refl

parse_bytes-Means_example : (parse_bytes ten_k ≡ size (pos 10000)) ↔ Means ten_k (pos 10000)
parse_bytes-Means_example = parse_bytes-Means ten_k (pos 10000)

-- 9223373T is more than an `int64` holds, and wraps to a negative size.
too_large :
    parse_bytes (b'9' ∷ b'2' ∷ b'2' ∷ b'3' ∷ b'3' ∷ b'7' ∷ b'3' ∷ b'T' ∷ [])
    ≡ size (negsuc 9223371073709551615)
unfolding parse_bytes signs number_base digits_of in_number with_digits with_unit after_signs
    unit_in to_lower lower_first same_text number_value in_int64 scaled to_int64
too_large = refl

no_unit : parse_bytes (b'1' ∷ b'x' ∷ []) ≡ unsupported_suffix (b'x' ∷ [])
unfolding parse_bytes signs number_base digits_of in_number with_digits with_unit after_signs
    unit_in to_lower lower_first same_text
no_unit = refl

no_number : parse_bytes (b'-' ∷ []) ≡ bad_size
unfolding parse_bytes signs number_base digits_of with_digits after_signs
no_number = refl
