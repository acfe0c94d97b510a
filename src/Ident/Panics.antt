-- ===== src/Ident/Panics.antt =====
-- When `IDFromString` of id.go panics: `id[j/2]` is out of range at the 33rd digit.
use tlog.Base.{
  if◌then◌else◌, ◌==◌, bit_or, ℕ, ◌+◌, ◌*◌, ◌/◌, ◌%◌, ◌<◌, ◌≤◌, ◌≡◌, refl, ◌↔◌, ◌≢◌, ◌∙◌, ◌⊎◌, ltb,
  ltb→lt, Bool-cases, leb, ◌&&◌, ◌||◌, Bool, true, false,
}
use tlog.Base.{[], ◌∷◌, inl, inr, arith}
use tlog.Base.{length, set, get_elem?-none, get_elem?-some, length-set}
use tlog.Base.Bits.{Bytes}
use tlog.Base.Outcome.{ok, panic}
use tlog.Ident.{Digit, value, skipped, invalid, classify, or_nibble, from_string_loop}
use tlog.Ident.{from_string, empty_id}

-- A hexadecimal digit, or `_`, which the parser takes for a 0.
unfoldable pub is_digit : ℕ → Bool
is_digit c =
    leb b'0' c && leb c b'9' || leb b'a' c && leb c b'f' || leb b'A' c && leb c b'F' || c == b'_'

-- The digits of a text before its first byte that is neither a digit nor a dash.
pub digits_in : Bytes → ℕ
digits_in [] = 0
digits_in (c ∷ s) = let n = digits_in s in if is_digit c then n + 1 else if c == b'-' then n else 0

Digit-cases : (g : Digit) → ((d : ℕ) × (g ≡ value d)) ⊎ ((g ≡ skipped) ⊎ (g ≡ invalid))
Digit-cases (value d) = inl (d, refl)
Digit-cases skipped = inr (inl refl)
Digit-cases invalid = inr (inr refl)

value_digit : (c d : ℕ) → classify c ≡ value d → is_digit c ≡ true
unfolding classify is_digit
value_digit c d v = ground (arith, v)

skipped_dash : (c : ℕ) → classify c ≡ skipped → (is_digit c ≡ false) × ((c == b'-') ≡ true)
unfolding classify is_digit
skipped_dash c v = (ground (arith, v), ground (arith, v))

invalid_byte_lem : (c : ℕ) → classify c ≡ invalid → (is_digit c ≡ false) × ((c == b'-') ≡ false)
unfolding classify is_digit
invalid_byte_lem c v = (ground (arith, v), ground (arith, v))

-- The digits of a text by what the parser makes of its first byte.
digits_in-value : (c d : ℕ) (s : Bytes) → classify c ≡ value d → digits_in (c ∷ s) ≡ digits_in s + 1
unfolding digits_in
digits_in-value c d s v = rw (value_digit c d v) refl

digits_in-skipped : (c : ℕ) (s : Bytes) → classify c ≡ skipped → digits_in (c ∷ s) ≡ digits_in s
unfolding digits_in
digits_in-skipped c s v = let (n, dash) = skipped_dash c v in rw (n, dash) refl

digits_in-invalid : (c : ℕ) (s : Bytes) → classify c ≡ invalid → digits_in (c ∷ s) ≡ 0
unfolding digits_in
digits_in-invalid c s v = let (n, other) = invalid_byte_lem c v in rw (n, other) refl

or_nibble_fits :
    (id : Bytes) (j d : ℕ)
    → length id ≡ 16
    → j < 32
    → (id' : Bytes) × (or_nibble id j d ≡ ok id') × (length id' ≡ 16)
unfolding or_nibble
or_nibble_fits id j d h hj =
    let (x, e) = get_elem?-some id (j / 2) (omega arith) in
    let y : ℕ = bit_or x (if j % 2 == 0 then d * 16 % 256 else d) in
    (set id (j / 2) y, rw (e, or_nibble), length-set id (j / 2) y ∙ h)

or_nibble_panics : (id : Bytes) (j d : ℕ) → length id ≡ 16 → 32 ≤ j → or_nibble id j d ≡ panic
unfolding or_nibble
or_nibble_panics id j d h hj = ground (arith, get_elem?-none id (j / 2))

from_string_loop_total :
    (s id : Bytes) (j : ℕ) → length id ≡ 16 → j + digits_in s ≤ 32 → from_string_loop s id j ≢ panic
unfolding from_string_loop
from_string_loop_total [] id j h hj e = cc
from_string_loop_total (c ∷ s) id j h hj e = elim (Digit-cases (classify c)) [
  | inl (d, v) ↦
      let more = digits_in-value c d s v in
      let (id', o, h') = or_nibble_fits id j d h (ground arith) in
      from_string_loop_total s id' (j + 1) h' (ground arith) (ground arith)
  | inr (inl v) ↦
      let even = digits_in-skipped c s v in
      from_string_loop_total s id j h (ground arith) (ground arith)
  | inr (inr v) ↦ ground arith
]

from_string_loop_panics :
    (s id : Bytes) (j : ℕ)
    → length id ≡ 16
    → j ≤ 32
    → 32 < j + digits_in s
    → from_string_loop s id j ≡ panic
unfolding from_string_loop
from_string_loop_panics [] id j h hj hs = absurd (unfold digits_in in omega (arith, hs))
from_string_loop_panics (c ∷ s) id j h hj hs = elim (Digit-cases (classify c)) [
  | inl (d, v) ↦
      let more = digits_in-value c d s v in
      elim (Bool-cases (ltb j 32)) [
        | inl room ↦
            let (id', o, h') = or_nibble_fits id j d h (ltb→lt j 32 room) in
            ground (arith, from_string_loop_panics s id' (j + 1) h')
        | inr full ↦ ground (arith, or_nibble_panics id j d h)
      ]
  | inr (inl v) ↦
      let even = digits_in-skipped c s v in ground (arith, from_string_loop_panics s id j h)
  | inr (inr v) ↦
      let none_left = digits_in-invalid c s v in absurd (omega (arith, none_left, hs, hj))
]

-- `IDFromString` panics on exactly the texts with more than 32 digits before their first byte that is
-- neither a digit nor a dash, where `_` counts as a digit; on every other text it returns.
pub from_string_panics : (s : Bytes) → (from_string s ≡ panic) ↔ (32 < digits_in s)
unfolding from_string
from_string_panics s = (
  λ e. elim (Bool-cases (ltb 32 (digits_in s))) [
    | inl more ↦ ltb→lt 32 (digits_in s) more
    | inr few ↦ absurd (from_string_loop_total s empty_id 0 refl (ground arith) e)
  ],
  λ h. from_string_loop_panics s empty_id 0 refl (omega arith) (omega arith),
)
