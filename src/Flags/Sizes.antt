-- ===== src/Flags/Sizes.antt =====
-- `ParseBytes` of ext/tlflag/flag.go: a size with a unit.
pub mod Grammar
pub mod Cases
pub mod Meaning
pub mod Products
pub mod Sound
pub mod Exact
mod Runs
use tlog.Base.{
  ℕ, ◌+◌, ◌-◌, ◌*◌, ◌%◌, ◌^◌, ltb, leb, ◌==◌, if◌then◌else◌, Bool, true, false, ◌&&◌, ◌||◌, not,
}
use tlog.Base.{Option, none, some, List, [], ◌∷◌, ◌++◌, drop}
use tlog.Base.Bits.{Bytes}
use tlog.Verbosity.{same_text}
use tlog.Wire.Int64.{ℤ, pos, to_int64}

-- What `ParseBytes` returns; `out_of_range` is the error of `strconv.ParseInt`.
pub data Size : Type 0 where
  size : ℤ → Size
  bad_size : Size
  unsupported_suffix : Bytes → Size
  out_of_range : Size

-- `for strings.HasPrefix(s, "-") { neg = !neg; s = s[1:] }`
unfoldable pub signs : Bool → Bytes → Bool × Bytes
signs neg [] = (neg, [])
signs neg (c ∷ s) = let rest = signs (not neg) s in if c == b'-' then rest else (neg, c ∷ s)

-- `if strings.HasPrefix(s, "0x") { s = s[2:]; base = 16 }`
unfoldable pub number_base : Bytes → ℕ × Bytes
number_base [] = (10, [])
number_base (c ∷ []) = (10, c ∷ [])
number_base (c ∷ d ∷ s) = if c == b'0' && d == b'x' then (16, s) else (10, c ∷ d ∷ s)

-- The condition of the loop over the digits.
unfoldable pub in_number : ℕ → ℕ → Bool
in_number base c =
    leb b'0' c
    && (leb c b'9' || base == 16 && (leb b'a' c && leb c b'f' || leb b'A' c && leb c b'F'))

-- `s[:l]` and `s[l:]`
unfoldable pub digits_of : ℕ → Bytes → Bytes × Bytes
digits_of base [] = ([], [])
digits_of base (c ∷ s) =
    let (ds, rest) = digits_of base s in if in_number base c then (c ∷ ds, rest) else ([], c ∷ s)

-- `strings.ToLower`, as far as it can give a text in ASCII: the letters of ASCII, the sign for kelvin
-- (e2 84 aa), which becomes k, and the capital i with a dot (c4 b0), which becomes i. What becomes of
-- other bytes is not in ASCII either.
unfoldable pub to_lower_ascii : ℕ → ℕ
to_lower_ascii c = if leb b'A' c && leb c b'Z' then c + 32 else c

abbrev pub starts_kelvin : ℕ → Bytes → Bool
starts_kelvin c (d ∷ e ∷ s) = c == 0xe2 && d == 0x84 && e == 0xaa
starts_kelvin c _ = false

abbrev pub starts_dotted : ℕ → Bytes → Bool
starts_dotted c (d ∷ s) = c == 0xc4 && d == 0xb0
starts_dotted c _ = false

-- The first byte of a text before the rest, which is in lower case already.
unfoldable pub lower_first : ℕ → Bytes → Bytes
unfolding to_lower_ascii
lower_first c s =
    if starts_kelvin c s
    then b'k' ∷ drop 2 s
    else if starts_dotted c s
    then b'i' ∷ drop 1 s
    else to_lower_ascii c ∷ s

unfoldable pub to_lower : Bytes → Bytes
to_lower [] = []
to_lower (c ∷ s) = lower_first c (to_lower s)

-- The `switch` on the suffix, its cases in their order.
abbrev pub units : List (Bytes × ℕ)
units =
    (b'b' ∷ [], 1)
    ∷ ([], 1)
    ∷ (b'k' ∷ b'b' ∷ [], 1000)
    ∷ (b'k' ∷ [], 1000)
    ∷ (b'k' ∷ b'i' ∷ b'b' ∷ [], 1024)
    ∷ (b'k' ∷ b'i' ∷ [], 1024)
    ∷ (b'm' ∷ b'b' ∷ [], 1000000)
    ∷ (b'm' ∷ [], 1000000)
    ∷ (b'm' ∷ b'i' ∷ b'b' ∷ [], 2 ^ 20)
    ∷ (b'm' ∷ b'i' ∷ [], 2 ^ 20)
    ∷ (b'g' ∷ b'b' ∷ [], 1000000000)
    ∷ (b'g' ∷ [], 1000000000)
    ∷ (b'g' ∷ b'i' ∷ b'b' ∷ [], 2 ^ 30)
    ∷ (b'g' ∷ b'i' ∷ [], 2 ^ 30)
    ∷ (b't' ∷ b'b' ∷ [], 1000000000000)
    ∷ (b't' ∷ [], 1000000000000)
    ∷ (b't' ∷ b'i' ∷ b'b' ∷ [], 2 ^ 40)
    ∷ (b't' ∷ b'i' ∷ [], 2 ^ 40)
    ∷ []

unfoldable pub unit_in : List (Bytes × ℕ) → Bytes → Option ℕ
unit_in [] s = none
unit_in ((u, m) ∷ us) s = if same_text u s then some m else unit_in us s

-- `strconv.ParseInt` on digits of the base with no sign: the value of the digits.
unfoldable pub digit_value : ℕ → ℕ
digit_value c = if leb c b'9' then c - b'0' else if leb b'a' c then c - b'a' + 10 else c - b'A' + 10

unfoldable pub number_value : ℕ → ℕ → Bytes → ℕ
unfolding digit_value
number_value base n [] = n
number_value base n (c ∷ ds) = number_value base (n * base + digit_value c) ds

-- `if neg { x = -x }; return x * m` in `int64`, for an `x` that is not negative.
unfoldable pub scaled : Bool → ℕ → ℕ → ℤ
scaled neg x m = let p = x * m % 2 ^ 64 in to_int64 (if neg then (2 ^ 64 - p) % 2 ^ 64 else p)

unfoldable pub in_int64 : Bool → ℕ → ℕ → Size
in_int64 neg m x = if ltb x (2 ^ 63) then size (scaled neg x m) else out_of_range

unfoldable pub with_unit : Bool → ℕ → Bytes → Bytes → Option ℕ → Size
with_unit neg base ds rest none = unsupported_suffix rest
with_unit neg base ds rest (some m) = in_int64 neg m (number_value base 0 ds)

unfoldable pub with_digits : Bool → ℕ → Bytes × Bytes → Size
with_digits neg base ([], rest) = bad_size
with_digits neg base (d ∷ ds, rest) =
    with_unit neg base (d ∷ ds) rest (unit_in units (to_lower rest))

unfoldable pub after_signs : Bool × Bytes → Size
after_signs (neg, s) =
    let (base, digits) = number_base s in with_digits neg base (digits_of base digits)

unfoldable pub parse_bytes : Bytes → Size
parse_bytes s = after_signs (signs false s)
