-- ===== src/Labels/Numerals.antt =====
-- The texts that `strconv.Atoi` takes in labels.go, and their values.
use tlog.Base.{ℕ, zero, suc, ◌+◌, ◌-◌, ◌*◌, ◌^◌, ◌<◌, ◌≤◌, ◌≡◌, ◌≢◌, refl, sym, ap, ◌∙◌, arith}
use tlog.Base.{◌==◌, ==_iff, ltb, leb, ltb→lt, Bool, true, false, ◌&&◌, Bool-cases}
use tlog.Base.{none, some, Option-cases, inl, inr, [], ◌∷◌, All}
use tlog.Base.Bits.{Bytes}
use tlog.Wire.Int64.{ℤ, pos, negsuc}
use tlog.Labels.{digits_value, int64_range, ranged, unsigned, atoi}

pub data Sign : Type 0 where
  unmarked : Sign
  plus : Sign
  minus : Sign

unfoldable pub spelled : Sign → Bytes → Bytes
spelled unmarked ds = ds
spelled plus ds = b'+' ∷ ds
spelled minus ds = b'-' ∷ ds

-- The value of digits, each by its place.
unfoldable pub place : Bytes → ℕ
place [] = 1
place (c ∷ ds) = 10 * place ds

unfoldable pub decimal : Bytes → ℕ
decimal [] = 0
decimal (c ∷ ds) = (c - b'0') * place ds + decimal ds

unfoldable pub signed : Sign → ℕ → ℤ
signed minus zero = pos 0
signed minus (suc n) = negsuc n
signed _ n = pos n

abbrev pub InRange : Sign → ℕ → Type 0
InRange minus n = n ≤ 2 ^ 63
InRange _ n = n < 2 ^ 63

-- Digits of an `int64`, one at least.
pub record IsNumeral (g : Sign) (ds : Bytes) : Type 0 where
  pub digits : All (λ c. (b'0' ≤ c) × (c ≤ b'9')) ds
  pub some_digits : ds ≢ []
  pub in_range : InRange g (decimal ds)

abbrev pub NoNumeral : Bytes → Type 0
NoNumeral v = (g : Sign) (ds : Bytes) → IsNumeral g ds → v ≢ spelled g ds

digits_value-decimal :
    (n : ℕ) (ds : Bytes)
    → All (λ c. (b'0' ≤ c) × (c ≤ b'9')) ds
    → digits_value n ds ≡ some (n * place ds + decimal ds)
unfolding digits_value place decimal
digits_value-decimal n [] h = ap some (omega arith)
digits_value-decimal n (c ∷ ds) h =
    let rest = digits_value-decimal (n * 10 + (c - b'0')) ds h.1 in
    let here : (leb b'0' c && leb c b'9') ≡ true = ground (arith, h.0.0, h.0.1) in
    let sum : (n * 10 + (c - b'0')) * place ds + decimal ds
        ≡ n * (10 * place ds) + ((c - b'0') * place ds + decimal ds) =
      grind arith in
    rw here (rest ∙ ap some sum)

digits_value-All :
    (n m : ℕ) (s : Bytes) → digits_value n s ≡ some m → All (λ c. (b'0' ≤ c) × (c ≤ b'9')) s
unfolding digits_value
digits_value-All n m [] e = tt
digits_value-All n m (c ∷ s) e = elim (Bool-cases (leb b'0' c && leb c b'9')) [
  | inl y ↦ (
    (ground (arith, y), ground (arith, y)),
    digits_value-All (n * 10 + (c - b'0')) m s (rw y at e),
  )
  | inr o ↦ absurd (cc (rw o at e))
]

negative_range : (n : ℕ) → n ≤ 2 ^ 63 → int64_range true n ≡ some (signed minus n)
unfolding int64_range signed
negative_range zero h = ground arith
negative_range (suc n) h = ground (arith, h)

positive_range : (n : ℕ) → n < 2 ^ 63 → int64_range false n ≡ some (pos n)
unfolding int64_range
positive_range n h = ground (arith, h)

negative_bound : (n : ℕ) {x : ℤ} → int64_range true n ≡ some x → n ≤ 2 ^ 63
unfolding int64_range
negative_bound n e = elim (Bool-cases (leb n (2 ^ 63))) [
  | inl y ↦ ground (arith, y)
  | inr o ↦ absurd (cc (rw o at e))
]

positive_bound : (n : ℕ) {x : ℤ} → int64_range false n ≡ some x → n < 2 ^ 63
unfolding int64_range
positive_bound n e = elim (Bool-cases (ltb n (2 ^ 63))) [
  | inl y ↦ ltb→lt n (2 ^ 63) y
  | inr o ↦ absurd (cc (rw o at e))
]

unsigned-decimal :
    (neg : Bool) (ds : Bytes)
    → All (λ c. (b'0' ≤ c) × (c ≤ b'9')) ds
    → ds ≢ []
    → unsigned neg ds ≡ int64_range neg (decimal ds)
unfolding unsigned ranged
unsigned-decimal neg [] h n = absurd (n refl)
unsigned-decimal neg (c ∷ ds) h n =
    let same : 0 * place (c ∷ ds) + decimal (c ∷ ds) ≡ decimal (c ∷ ds) = omega arith in
    rw (digits_value-decimal 0 (c ∷ ds) h, same) refl

unsigned_digits :
    (neg : Bool) (ds : Bytes) {x : ℤ}
    → unsigned neg ds ≡ some x
    → All (λ c. (b'0' ≤ c) × (c ≤ b'9')) ds × (ds ≢ [])
unfolding unsigned ranged
unsigned_digits neg [] e = absurd (cc e)
unsigned_digits neg (c ∷ ds) e = elim (Option-cases (digits_value 0 (c ∷ ds))) [
  | inl lost ↦ absurd (cc (rw lost at e))
  | inr (m, v) ↦ (digits_value-All 0 m (c ∷ ds) v, cc)
]

-- `Atoi` gives a numeral its value.
pub atoi-spelled :
    (g : Sign) (ds : Bytes) → IsNumeral g ds → atoi (spelled g ds) ≡ some (signed g (decimal ds))
unfolding atoi spelled signed
atoi-spelled plus ds h =
    unsigned-decimal false ds h.digits h.some_digits ∙ positive_range _ h.in_range
atoi-spelled minus ds h =
    unsigned-decimal true ds h.digits h.some_digits ∙ negative_range _ h.in_range
atoi-spelled unmarked [] h = absurd (h.some_digits refl)
atoi-spelled unmarked (c ∷ ds) h =
    let no_minus : (c == b'-') ≡ false = ground (arith, h.digits.0.0) in
    let no_plus : (c == b'+') ≡ false = ground (arith, h.digits.0.0) in
    rw (no_minus, no_plus)
      (unsigned-decimal false (c ∷ ds) h.digits h.some_digits ∙ positive_range _ h.in_range)

unsigned-IsNumeral :
    (g : Sign) (neg : Bool) (ds : Bytes) {x : ℤ}
    → unsigned neg ds ≡ some x
    → (int64_range neg (decimal ds) ≡ some x → InRange g (decimal ds))
    → IsNumeral g ds
unsigned-IsNumeral g neg ds e bound =
    let (digits, n) = unsigned_digits neg ds e in
    record {
      digits = digits;
      some_digits = n;
      in_range = bound (sym (unsigned-decimal neg ds digits n) ∙ e);
    }

-- It takes nothing else.
atoi_some :
    (v : Bytes) {x : ℤ}
    → atoi v ≡ some x
    → (g : Sign) × (ds : Bytes) × IsNumeral g ds × (v ≡ spelled g ds)
unfolding atoi spelled
atoi_some [] e = absurd (cc e)
atoi_some (c ∷ s) e = elim (Bool-cases (c == b'-')) [
  | inl m ↦ (
    minus,
    s,
    unsigned-IsNumeral minus true s (rw m at e) (negative_bound _),
    ap (λ d. d ∷ s) ((==_iff c b'-').0 m),
  )
  | inr no_minus ↦ elim (Bool-cases (c == b'+')) [
    | inl p ↦ (
      plus,
      s,
      unsigned-IsNumeral plus false s (rw (no_minus, p) at e) (positive_bound _),
      ap (λ d. d ∷ s) ((==_iff c b'+').0 p),
    )
    | inr no_plus ↦ (
      unmarked,
      c ∷ s,
      unsigned-IsNumeral unmarked false (c ∷ s) (rw (no_minus, no_plus) at e) (positive_bound _),
      refl,
    )
  ]
]

pub atoi-none : (v : Bytes) → NoNumeral v → atoi v ≡ none
atoi-none v h = elim (Option-cases (atoi v)) [
  | inl e ↦ e
  | inr (x, e) ↦ let (g, ds, numeral, same) = atoi_some v e in absurd (h g ds numeral same)
]

spelled_first :
    (g : Sign) (ds : Bytes) (c : ℕ) (s : Bytes)
    → All (λ c. (b'0' ≤ c) × (c ≤ b'9')) ds
    → ds ≢ []
    → c ∷ s ≡ spelled g ds
    → c ≤ b'9'
unfolding spelled
spelled_first minus ds c s h n e = let first : c ≡ b'-' = cc e in omega (arith, first)
spelled_first plus ds c s h n e = let first : c ≡ b'+' = cc e in omega (arith, first)
spelled_first unmarked [] c s h n e = absurd (n refl)
spelled_first unmarked (d ∷ ds) c s h n e = let first : c ≡ d = cc e in omega (arith, first, h.0.1)

-- A text that begins with a byte behind the digits of ASCII is none.
pub spelled-NoNumeral : (c : ℕ) (s : Bytes) → b'9' < c → NoNumeral (c ∷ s)
spelled-NoNumeral c s h g ds numeral e =
    absurd (omega (arith, h, spelled_first g ds c s numeral.digits numeral.some_digits e))
