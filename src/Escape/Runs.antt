-- ===== src/Escape/Runs.antt =====
-- Runs of low/safeadd.go, and the theorems about it at concrete inputs.
use tlog.Base.{inl, ◌≡◌, refl, arith, [], ◌∷◌, drop}
use tlog.Base.Bits.{Bytes}
use tlog.Escape.{
  is_plain, plain_count, escape_letter, continues, char_width, hex_digit, decoded, hard_way,
  lettered, escape_rest,
}
use tlog.Escape.{escape_loop, append_safe_string, append_quote_string}
use tlog.Escape.Unescape.{unescape, outside, append_safe_string-unescape}
use tlog.Escape.Controls.{append_safe_string_control}

-- `a"`, a line feed, a byte that begins no character, and the two bytes of one.
abbrev sample : Bytes
sample = b'a' ∷ 34 ∷ 10 ∷ 0xff ∷ 0xd0 ∷ 0x96 ∷ []

escapes_the_sample :
    append_quote_string [] sample
    ≡ 34 ∷ b'a' ∷ 92 ∷ 34 ∷ 92 ∷ b'n' ∷ 92 ∷ b'x' ∷ b'f' ∷ b'f' ∷ 0xd0 ∷ 0x96 ∷ 34 ∷ []
unfolding append_quote_string append_safe_string escape_loop escape_rest lettered escape_letter
    hard_way decoded plain_count is_plain char_width continues hex_digit
escapes_the_sample = refl

append_safe_string-unescape_example :
    unescape outside (drop 1 (append_safe_string (b'k' ∷ []) sample)) ≡ sample
append_safe_string-unescape_example = append_safe_string-unescape (b'k' ∷ []) sample (omega arith)

append_safe_string_control_example :
    append_safe_string (b'k' ∷ []) (1 ∷ 10 ∷ []) ≡ append_safe_string (b'k' ∷ 1 ∷ []) (10 ∷ [])
append_safe_string_control_example =
    append_safe_string_control (b'k' ∷ []) 1 (10 ∷ []) (omega arith) (inl (omega arith))
