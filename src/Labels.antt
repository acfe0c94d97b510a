-- ===== src/Labels.antt =====
-- labels.go: the labels of a flag.
pub mod Numerals
pub mod Means
mod Runs
use tlog.Base.{
  ℕ, zero, suc, ◌+◌, ◌-◌, ◌*◌, ◌^◌, ◌==◌, ltb, leb, if◌then◌else◌, Bool, true, false, ◌&&◌, ◌||◌,
}
use tlog.Base.{Option, none, some, List, [], ◌∷◌, ◌++◌, take, drop}
use tlog.Base.Bits.{Bytes}
use tlog.Verbosity.{split, index_byte}
use tlog.Wire.Int64.{ℤ, pos, negsuc}

-- What a label has for a value: a text, a number, or what a function of `AutoLabels` returns.
pub data Value : Type 0 where
  text : Bytes → Value
  number : ℤ → Value
  auto : ℕ → Value

-- `strconv.Atoi` on a 64-bit machine: a sign or none, digits, and the range of an `int64`.
unfoldable pub digits_value : ℕ → Bytes → Option ℕ
digits_value n [] = some n
digits_value n (c ∷ s) =
    let rest = digits_value (n * 10 + (c - b'0')) s in
    if leb b'0' c && leb c b'9' then rest else none

unfoldable pub int64_range : Bool → ℕ → Option ℤ
int64_range neg n =
    if neg
    then (if leb n (2 ^ 63) then some (negated n) else none)
    else if ltb n (2 ^ 63)
    then some (pos n)
    else none
  where
    negated : ℕ → ℤ
    negated zero = pos 0
    negated (suc n) = negsuc n

unfoldable pub ranged : Bool → Option ℕ → Option ℤ
ranged neg none = none
ranged neg (some n) = int64_range neg n

unfoldable pub unsigned : Bool → Bytes → Option ℤ
unsigned neg [] = none
unsigned neg (c ∷ s) = ranged neg (digits_value 0 (c ∷ s))

unfoldable pub atoi : Bytes → Option ℤ
atoi [] = none
atoi (c ∷ s) =
    if c == b'-'
    then unsigned true s
    else if c == b'+'
    then unsigned false s
    else unsigned false (c ∷ s)

unfoldable pub number_or_text : Bytes → Option ℤ → Value
number_or_text v none = text v
number_or_text v (some x) = number x

-- `AutoLabels` is a parameter: the functions that look at the machine.
module _ (auto_labels : Bytes → Option ℕ) where
  unfoldable pub auto_value : Option ℕ → Value
  auto_value none = text []
  auto_value (some f) = auto f

  -- One part of the list, by where its `=` stands.
  unfoldable pub label_of : Bytes → Option ℕ → Bytes × Value
  label_of l none = (l, auto_value (auto_labels l))
  label_of l (some p) = (take p l, number_or_text (drop (p + 1) l) (atoi (drop (p + 1) l)))

  unfoldable pub labels_loop : List Bytes → List (Bytes × Value)
  labels_loop [] = []
  labels_loop ([] ∷ ls) = labels_loop ls
  labels_loop ((c ∷ l) ∷ ls) = label_of (c ∷ l) (index_byte (c ∷ l) b'=') ∷ labels_loop ls

  -- `ParseLabels`; a key and a value of the result stand together here.
  unfoldable pub parse_labels : Bytes → List (Bytes × Value)
  parse_labels s = labels_loop (split b',' s)
