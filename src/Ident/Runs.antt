-- ===== src/Ident/Runs.antt =====
-- Runs of id.go, and the theorems about it at concrete inputs.
use tlog.Base.{◌<◌, ◌≡◌, refl, ◌↔◌, none, some, [], ◌∷◌, ◌++◌}
use tlog.Base.{false, ltb, if◌then◌else◌, take, replicate, arith}
use tlog.Base.Bits.{Bytes}
use tlog.Base.Outcome.{ok, panic, ◌>>=◌}
use tlog.Ident.{
  IsIdent, short_id, invalid_byte, Verb, classify, or_nibble, from_string_loop, from_string,
}
use tlog.Ident.{from_bytes, format_to, format_loop, write_digits, digit, string}
use tlog.Ident.{
  format, format_width, marshal_json, unmarshal_json, decoded, uuid_of, is_zero, dash_before,
}
use tlog.Ident.{is_uuid, is_upper}
use tlog.Ident.Text.{text}
use tlog.Ident.Parse.{from_string-text}
use tlog.Ident.Panics.{digits_in, from_string_panics}
use tlog.Ident.Print.{format_lem}
use tlog.Ident.Print.{unmarshal_json-marshal_json}

abbrev sample : Bytes
sample = 0x0a ∷ 0xb1 ∷ 2 ∷ 3 ∷ 4 ∷ 5 ∷ 6 ∷ 7 ∷ 8 ∷ 9 ∷ 10 ∷ 11 ∷ 12 ∷ 13 ∷ 14 ∷ 0xff ∷ []

sample-IsIdent : IsIdent sample
sample-IsIdent = record { sized = refl; bytes = omega arith }

ids_print : string sample ≡ ok (b'0' ∷ b'a' ∷ b'b' ∷ b'1' ∷ b'0' ∷ b'2' ∷ b'0' ∷ b'3' ∷ [])
unfolding string format_to format_loop write_digits digit is_zero dash_before is_uuid is_upper
ids_print = refl

stops_at_other_bytes :
    from_string (b'1' ∷ b'g' ∷ []) ≡ ok (16 ∷ replicate 15 0, some (invalid_byte b'g'))
unfolding from_string from_string_loop classify or_nibble
stops_at_other_bytes = refl

copies_a_prefix : from_bytes (1 ∷ 2 ∷ []) ≡ (1 ∷ 2 ∷ replicate 14 0, some (short_id 2))
unfolding from_bytes
copies_a_prefix = refl

sets_the_version :
    uuid_of (replicate 16 0xff) ≡ replicate 6 0xff ++ (0x4f ∷ 0xff ∷ 0xbf ∷ replicate 7 0xff)
unfolding uuid_of
sets_the_version = refl

from_string-text_example : from_string (text Verb.upper_u sample) ≡ ok (sample, none)
from_string-text_example = from_string-text Verb.upper_u sample sample-IsIdent

from_string_panics_example :
    (from_string (replicate 33 b'7') ≡ panic) ↔ (32 < digits_in (replicate 33 b'7'))
from_string_panics_example = from_string_panics (replicate 33 b'7')

format_lem_example : format sample (some 40) false Verb.lower_hex ≡ (
    if ltb 36 (format_width (some 40) false Verb.lower_hex)
    then panic
    else ok (take (format_width (some 40) false Verb.lower_hex) (text Verb.lower_hex sample)))
format_lem_example = format_lem sample (some 40) false Verb.lower_hex sample-IsIdent

unmarshal_json-marshal_json_example : (marshal_json sample >>= unmarshal_json) ≡ ok (decoded sample)
unmarshal_json-marshal_json_example = unmarshal_json-marshal_json sample sample-IsIdent
