-- ===== src/Flags/Sizes/Grammar.antt =====
-- The texts that `ParseBytes` of ext/tlflag/flag.go takes, as their parts.
use tlog.Base.{ℕ, zero, suc, ◌≡◌, ◌≢◌, refl, ap, ◌∙◌, arith, ◌==◌, if◌then◌else◌}
use tlog.Base.{Bool, true, false, not, none, some, [], ◌∷◌, ◌++◌, All, Bool-cases}
use tlog.Base.{replicate, inl, inr}
use tlog.Base.Bits.{Bytes}
use tlog.Verbosity.{same_text}
use tlog.Flags.Sizes.{
  signs, number_base, in_number, digits_of, lower_first, to_lower, unit_in, units, number_value,
  in_int64, with_unit, with_digits, after_signs, parse_bytes,
}

-- A text: its signs, whether it is hexadecimal, its digits and its unit.
pub record Spelling : Type 0 where
  pub minuses : ℕ
  pub hex : Bool
  pub digits : Bytes
  pub suffix : Bytes

abbrev pub base : Spelling → ℕ
base p = if p.hex then 16 else 10

abbrev pub prefix : Bool → Bytes
prefix hex = if hex then b'0' ∷ b'x' ∷ [] else []

unfoldable pub spelled : Spelling → Bytes
spelled p = replicate p.minuses b'-' ++ (prefix p.hex ++ (p.digits ++ p.suffix))

unfoldable pub is_odd : ℕ → Bool
is_odd zero = false
is_odd (suc n) = not (is_odd n)

abbrev pub Ends : ℕ → Bytes → Type 0
Ends base [] = Unit
Ends base (c ∷ s) = in_number base c ≡ false

-- The digits are digits of the base, one at least, and the unit is one of the table, in any case.
pub record IsSpelling (p : Spelling) (m : ℕ) : Type 0 where
  pub all_digits : All (λ c. in_number (base p) c ≡ true) p.digits
  pub some_digits : p.digits ≢ []
  pub ends : Ends (base p) p.suffix
  pub unit : unit_in units (to_lower p.suffix) ≡ some m

abbrev NoSign : Bytes → Type 0
NoSign [] = Unit
NoSign (c ∷ s) = (c == b'-') ≡ false

signs-rest : (neg : Bool) (s : Bytes) → NoSign s → signs neg s ≡ (neg, s)
unfolding signs
signs-rest neg [] h = refl
signs-rest neg (c ∷ s) h = rw h refl

unfoldable pub flips : ℕ → Bool → Bool
flips zero neg = neg
flips (suc k) neg = flips k (not neg)

signs-replicate :
    (k : ℕ) (neg : Bool) (s : Bytes)
    → NoSign s
    → signs neg (replicate k b'-' ++ s) ≡ (flips k neg, s)
unfolding signs flips
signs-replicate zero neg s h = signs-rest neg s h
signs-replicate (suc k) neg s h = signs-replicate k (not neg) s h

not_twice : (b : Bool) → not (not b) ≡ b
not_twice true = refl
not_twice false = refl

flips-not : (k : ℕ) (b : Bool) → flips k (not b) ≡ not (flips k b)
unfolding flips
flips-not zero b = refl
flips-not (suc k) b = flips-not k (not b)

pub flips-is_odd : (k : ℕ) → flips k false ≡ is_odd k
unfolding flips is_odd
flips-is_odd zero = refl
flips-is_odd (suc k) = flips-not k false ∙ ap not (flips-is_odd k)

digits_of-append :
    (b : ℕ) (ds s : Bytes)
    → All (λ c. in_number b c ≡ true) ds
    → Ends b s
    → digits_of b (ds ++ s) ≡ (ds, s)
unfolding digits_of
digits_of-append b [] [] h e = refl
digits_of-append b [] (c ∷ s) h e = rw e refl
digits_of-append b (c ∷ ds) s h e = rw (h.0, digits_of-append b ds s h.1 e) refl

lower_first-x : (s : Bytes) → lower_first b'x' s ≡ b'x' ∷ s
unfolding lower_first
lower_first-x [] = refl
lower_first-x (d ∷ []) = refl
lower_first-x (d ∷ e ∷ s) = refl

-- No unit begins with x.
unit_in-x : (s : Bytes) → unit_in units (to_lower (b'x' ∷ s)) ≡ none
unfolding unit_in to_lower same_text
unit_in-x s = rw (lower_first-x (to_lower s)) refl

-- Digits and a unit do not look like the prefix of a hexadecimal number.
number_base-decimal :
    (ds s : Bytes) {m : ℕ}
    → All (λ c. in_number 10 c ≡ true) ds
    → ds ≢ []
    → unit_in units (to_lower s) ≡ some m
    → number_base (ds ++ s) ≡ (10, ds ++ s)
unfolding number_base in_number
number_base-decimal [] s h n u = absurd (n refl)
number_base-decimal (c ∷ []) [] h n u = refl
number_base-decimal (c ∷ []) (d ∷ s) h n u = elim (Bool-cases (d == b'x')) [
  | inl x ↦ absurd (ground (arith, x, unit_in-x s))
  | inr o ↦ ground (arith, o)
]
number_base-decimal (c ∷ d ∷ ds) s h n u = ground (arith, h.1.0)

number_base-prefix :
    (hex : Bool) (ds s : Bytes) {m : ℕ}
    → All (λ c. in_number (if hex then 16 else 10) c ≡ true) ds
    → ds ≢ []
    → unit_in units (to_lower s) ≡ some m
    → number_base (prefix hex ++ (ds ++ s)) ≡ (if hex then 16 else 10, ds ++ s)
number_base-prefix true ds s h n u = unfold number_base in refl
number_base-prefix false ds s h n u = number_base-decimal ds s h n u

NoSign-prefix :
    (hex : Bool) (ds s : Bytes)
    → All (λ c. in_number (if hex then 16 else 10) c ≡ true) ds
    → ds ≢ []
    → NoSign (prefix hex ++ (ds ++ s))
unfolding in_number
NoSign-prefix true ds s h n = refl
NoSign-prefix false [] s h n = absurd (n refl)
NoSign-prefix false (c ∷ ds) s h n = ground (arith, h.0)

with_digits-unit :
    (neg : Bool) (b : ℕ) (ds s : Bytes) {m : ℕ}
    → ds ≢ []
    → unit_in units (to_lower s) ≡ some m
    → with_digits neg b (ds, s) ≡ in_int64 neg m (number_value b 0 ds)
unfolding with_digits with_unit
with_digits-unit neg b [] s n u = absurd (n refl)
with_digits-unit neg b (d ∷ ds) s n u = rw u refl

-- `ParseBytes` takes any number of minuses, an optional 0x, digits of the base and a unit in any case,
-- and returns the product of the number and the unit in an `int64`, negated where the number of minuses is
-- odd; a number of 2 ^ 63 or more is out of range.
pub parse_bytes-spelled :
    (p : Spelling) {m : ℕ}
    → IsSpelling p m
    → parse_bytes (spelled p) ≡ in_int64 (is_odd p.minuses) m (number_value (base p) 0 p.digits)
unfolding parse_bytes spelled after_signs
parse_bytes-spelled p h =
    rw
      (
        signs-replicate p.minuses false (prefix p.hex ++ (p.digits ++ p.suffix))
            (NoSign-prefix p.hex p.digits p.suffix h.all_digits h.some_digits),
        number_base-prefix p.hex p.digits p.suffix h.all_digits h.some_digits h.unit,
        digits_of-append (base p) p.digits p.suffix h.all_digits h.ends,
        flips-is_odd p.minuses,
      )
      (with_digits-unit (is_odd p.minuses) (base p) p.digits p.suffix h.some_digits h.unit)
