-- ===== src/Escape.antt =====
-- low/safeadd.go: text escaped for a string in quotes.
pub mod Unescape
pub mod Controls
mod Runs
use tlog.Base.{
  ℕ, zero, suc, ◌+◌, ◌-◌, ◌/◌, bit_and, ◌==◌, leb, ltb, if◌then◌else◌, Bool, true, false, ◌&&◌,
  ◌||◌, not,
}
use tlog.Base.{Option, none, some, List, [], ◌∷◌, ◌++◌, length, take, drop}
use tlog.Base.Bits.{Bytes}

abbrev pub backslash : ℕ
backslash = 92

abbrev pub quote_mark : ℕ
quote_mark = 34

-- The bytes that are copied as they are.
unfoldable pub is_plain : ℕ → Bool
is_plain c = not (c == quote_mark || c == backslash || ltb c 0x20 || ltb 0x7e c)

-- The loop that looks for the first byte that is not.
unfoldable pub plain_count : Bytes → ℕ
plain_count [] = 0
plain_count (c ∷ s) = let rest = plain_count s in if is_plain c then suc rest else 0

-- The letter behind the backslash, for the bytes of the `switch` that have one.
unfoldable pub escape_letter : ℕ → Option ℕ
escape_letter c =
    if c == quote_mark || c == backslash
    then some c
    else if c == 10
    then some b'n'
    else if c == 9
    then some b't'
    else if c == 11
    then some b'v'
    else if c == 13
    then some b'r'
    else if c == 7
    then some b'a'
    else if c == 8
    then some b'b'
    else if c == 12
    then some b'f'
    else none

-- `utf8.DecodeRuneInString`: the length of the first character, or `none` for an error of width 1.
unfoldable pub continues : ℕ → ℕ → Bytes → ℕ → Bool
continues lo hi [] n = false
continues lo hi (x ∷ s) zero = leb lo x && leb x hi
continues lo hi (x ∷ s) (suc n) = leb lo x && leb x hi && continues 0x80 0xbf s n

unfoldable pub char_width : Bytes → Option ℕ
char_width [] = none
char_width (c ∷ s) =
    if ltb c 0x80
    then some 1
    else if ltb c 0xc2
    then none
    else if ltb c 0xe0
    then (if continues 0x80 0xbf s 0 then some 2 else none)
    else if ltb c 0xf0
    then (if continues (if c == 0xe0 then 0xa0 else 0x80) (if c == 0xed then 0x9f else 0xbf) s 1
        then some 3
        else none)
    else if ltb c 0xf5
    then (if continues (if c == 0xf0 then 0x90 else 0x80) (if c == 0xf4 then 0x8f else 0xbf) s 2
        then some 4
        else none)
    else none

-- `tohex[d]`
unfoldable pub hex_digit : ℕ → ℕ
hex_digit d = if ltb d 10 then b'0' + d else b'a' + d - 10

-- `hardway`: the character as it is, or the byte in hexadecimal, and how much of the text it takes.
unfoldable pub decoded : ℕ → Bytes → Option ℕ → Bytes × ℕ
decoded c s none = (backslash ∷ b'x' ∷ hex_digit (c / 16) ∷ hex_digit (bit_and c 0xf) ∷ [], 1)
decoded c s (some w) = (take w (c ∷ s), w)

unfoldable pub hard_way : ℕ → Bytes → Bytes × ℕ
hard_way c s = decoded c s (char_width (c ∷ s))

-- What the first byte that is not plain becomes, and how much of the text it takes.
unfoldable pub lettered : ℕ → Bytes → Option ℕ → Bytes × ℕ
lettered c s none = hard_way c s
lettered c s (some e) = (backslash ∷ e ∷ [], 1)

-- The end of a round, at the first byte that is not plain, and the rounds that follow.
unfoldable pub escape_rest : (Bytes → Bytes) → Bytes → Bytes
escape_rest again [] = []
escape_rest again (c ∷ s) =
    let (out, w) = lettered c s (escape_letter c) in out ++ again (drop w (c ∷ s))

-- The rounds of `AppendSafeString`, with what they append. Each takes a byte at least, so as many rounds as
-- there are bytes are enough.
unfoldable pub escape_loop : ℕ → Bytes → Bytes
escape_loop zero s = []
escape_loop (suc rounds) s =
    take (plain_count s) s ++ escape_rest (escape_loop rounds) (drop (plain_count s) s)

unfoldable pub append_safe_string : Bytes → Bytes → Bytes
append_safe_string b s = b ++ escape_loop (suc (length s)) s

unfoldable pub append_quote_string : Bytes → Bytes → Bytes
append_quote_string b s = append_safe_string (b ++ (quote_mark ∷ [])) s ++ (quote_mark ∷ [])
