-- ===== src/Flags/Sizes/Meaning.antt =====
-- What the texts of `ParseBytes` in ext/tlflag/flag.go mean: digits, units and 64-bit products.
use tlog.Base.{ℕ, ◌+◌, ◌-◌, ◌*◌, ◌≡◌, refl, ◌∙◌, arith}
use tlog.Base.{ltb, leb, if◌then◌else◌, Bool, true, false, ◌&&◌, ◌||◌, Bool-cases}
use tlog.Base.{some, List, [], ◌∷◌, ◌++◌, All, inl, inr}
use tlog.Base.Bits.{Bytes}
use tlog.Verbosity.{same_text}
use tlog.Flags.Sizes.Cases.{AreSmall}
use tlog.Flags.Sizes.{in_number, unit_in, units, digit_value, number_value}

unfoldable pub is_between : ℕ → ℕ → ℕ → Bool
is_between lo hi c = leb lo c && leb c hi

unfoldable pub is_digit : Bool → ℕ → Bool
is_digit true c = is_between b'0' b'9' c || is_between b'a' b'f' c || is_between b'A' b'F' c
is_digit false c = is_between b'0' b'9' c

pub in_number-is_digit :
    (hex : Bool) (c : ℕ) → in_number (if hex then 16 else 10) c ≡ is_digit hex c
unfolding in_number is_digit is_between
in_number-is_digit true c = ground arith
in_number-is_digit false c = ground arith

-- The value of a digit, and of digits, each by its place.
unfoldable pub worth : ℕ → ℕ
worth c = if ltb b'F' c then c - 87 else if ltb b'9' c then c - 55 else c - 48

unfoldable pub place : ℕ → Bytes → ℕ
place base [] = 1
place base (c ∷ ds) = base * place base ds

unfoldable pub numeral : ℕ → Bytes → ℕ
numeral base [] = 0
numeral base (c ∷ ds) = worth c * place base ds + numeral base ds

digit_value-worth : (hex : Bool) (c : ℕ) → is_digit hex c ≡ true → digit_value c ≡ worth c
unfolding digit_value worth is_digit is_between
digit_value-worth true c h = ground (arith, h)
digit_value-worth false c h = ground (arith, h)

number_value-numeral :
    (hex : Bool) (base n : ℕ) (ds : Bytes)
    → All (λ c. is_digit hex c ≡ true) ds
    → number_value base n ds ≡ n * place base ds + numeral base ds
unfolding number_value place numeral
number_value-numeral hex base n [] h = omega arith
number_value-numeral hex base n (c ∷ ds) h =
    let rest = number_value-numeral hex base (n * base + worth c) ds h.1 in
    let sum : (n * base + worth c) * place base ds + numeral base ds
        ≡ n * (base * place base ds) + (worth c * place base ds + numeral base ds) =
      grind arith in
    rw (digit_value-worth hex c h.0) (rest ∙ sum)

pub number_value-whole :
    (hex : Bool) (base : ℕ) (ds : Bytes)
    → All (λ c. is_digit hex c ≡ true) ds
    → number_value base 0 ds ≡ numeral base ds
number_value-whole hex base ds h = number_value-numeral hex base 0 ds h ∙ omega arith

-- A unit: its power of a thousand, or of 1024 with an i, and with a b or without.
pub data Scale : Type 0 where
  whole kilo mega giga tera : Scale

unfoldable pub letter : Scale → Bytes
letter whole = []
letter kilo = b'k' ∷ []
letter mega = b'm' ∷ []
letter giga = b'g' ∷ []
letter tera = b't' ∷ []

unfoldable pub power : ℕ → Scale → ℕ
power k whole = 1
power k kilo = k
power k mega = k * k
power k giga = k * k * k
power k tera = k * k * k * k

pub record SizeUnit : Type 0 where
  pub scale : Scale
  pub binary : Bool
  pub with_b : Bool

-- There is no i with no letter before it.
abbrev pub IsUnit : SizeUnit → Type 0
IsUnit u = elim u.scale [
  | whole ↦ u.binary ≡ false
  | kilo ↦ true ≡ true
  | mega ↦ true ≡ true
  | giga ↦ true ≡ true
  | tera ↦ true ≡ true
]

unfoldable pub unit_text : SizeUnit → Bytes
unit_text u =
    letter u.scale ++ ((if u.binary then b'i' ∷ [] else []) ++ (if u.with_b then b'b' ∷ [] else []))

unfoldable pub factor : SizeUnit → ℕ
factor u = power (if u.binary then 1024 else 1000) u.scale

abbrev InUnits : SizeUnit → Type 0
InUnits u = unit_in units (unit_text u) ≡ some (factor u)

abbrev unit_of : Scale → Bool → Bool → SizeUnit
unit_of k i b = record { scale = k; binary = i; with_b = b }

unit_in_parts : (k : Scale) (i b : Bool) → IsUnit (unit_of k i b) → InUnits (unit_of k i b)
unfolding unit_in unit_text letter factor power same_text
unit_in_parts whole false true h = refl
unit_in_parts whole false false h = refl
unit_in_parts whole true b h = absurd (cc h)
unit_in_parts kilo true true h = refl
unit_in_parts kilo true false h = refl
unit_in_parts kilo false true h = refl
unit_in_parts kilo false false h = refl
unit_in_parts mega true true h = refl
unit_in_parts mega true false h = refl
unit_in_parts mega false true h = refl
unit_in_parts mega false false h = refl
unit_in_parts giga true true h = refl
unit_in_parts giga true false h = refl
unit_in_parts giga false true h = refl
unit_in_parts giga false false h = refl
unit_in_parts tera true true h = refl
unit_in_parts tera true false h = refl
unit_in_parts tera false true h = refl
unit_in_parts tera false false h = refl

pub unit_in-unit_text : (u : SizeUnit) → IsUnit u → unit_in units (unit_text u) ≡ some (factor u)
unit_in-unit_text u h = unit_in_parts u.scale u.binary u.with_b h

abbrev pub Named : Bytes × ℕ → Type 0
Named (t, m) = (u : SizeUnit) × IsUnit u × (t ≡ unit_text u) × (m ≡ factor u)

units-Named : All Named units
unfolding unit_text letter factor power
units-Named = (
  named whole false true refl,
  (
    named whole false false refl,
    (
      named kilo false true refl,
      (
        named kilo false false refl,
        (
          named kilo true true refl,
          (
            named kilo true false refl,
            (
              named mega false true refl,
              (
                named mega false false refl,
                (
                  named mega true true refl,
                  (
                    named mega true false refl,
                    (
                      named giga false true refl,
                      (
                        named giga false false refl,
                        (
                          named giga true true refl,
                          (
                            named giga true false refl,
                            (
                              named tera false true refl,
                              (
                                named tera false false refl,
                                (named tera true true refl, (named tera true false refl, tt)),
                              ),
                            ),
                          ),
                        ),
                      ),
                    ),
                  ),
                ),
              ),
            ),
          ),
        ),
      ),
    ),
  ),
)
  where
    named :
        (k : Scale) (i b : Bool)
        → IsUnit (unit_of k i b)
        → Named (unit_text (unit_of k i b), factor (unit_of k i b))
    named k i b h = (unit_of k i b, h, refl, refl)

same_text_is : (a b : Bytes) → same_text a b ≡ true → a ≡ b
unfolding same_text
same_text_is [] [] e = refl
same_text_is [] (y ∷ b) e = absurd (cc e)
same_text_is (x ∷ a) [] e = absurd (cc e)
same_text_is (x ∷ a) (y ∷ b) e =
    let first : x ≡ y = ground (arith, e) in
    let rest : same_text a b ≡ true = ground (arith, e) in cc (first, same_text_is a b rest)

unit_in-Named :
    (us : List (Bytes × ℕ)) (t : Bytes) (m : ℕ)
    → All Named us
    → unit_in us t ≡ some m
    → Named (t, m)
unfolding unit_in
unit_in-Named [] t m h e = absurd (cc e)
unit_in-Named ((v, k) ∷ us) t m h e = elim (Bool-cases (same_text v t)) [
  | inl y ↦
      let same : v ≡ t = same_text_is v t y in
      let value : k ≡ m = cc (rw y at e) in
      let (u, is, text, worth) = h.0 in (u, is, rw (← same) text, rw (← value) worth)
  | inr o ↦ unit_in-Named us t m h.1 (rw o at e)
]

pub units-SizeUnit : (t : Bytes) (m : ℕ) → unit_in units t ≡ some m → Named (t, m)
units-SizeUnit t m e = unit_in-Named units t m units-Named e

small_letters : (k : Scale) (i b : Bool) → AreSmall (unit_text (unit_of k i b))
unfolding unit_text letter
small_letters k i b =
    join_small (letter k) _ (letter_small k) (join_small _ _ (i_small i) (b_small b))
  where
    join_small : (s t : Bytes) → AreSmall s → AreSmall t → AreSmall (s ++ t)
    join_small [] t h g = g
    join_small (c ∷ s) t h g = (h.0, join_small s t h.1 g)

    letter_small : (k : Scale) → AreSmall (letter k)
    letter_small whole = tt
    letter_small kilo = ((omega arith, omega arith), tt)
    letter_small mega = ((omega arith, omega arith), tt)
    letter_small giga = ((omega arith, omega arith), tt)
    letter_small tera = ((omega arith, omega arith), tt)

    i_small : (i : Bool) → AreSmall (if i then b'i' ∷ [] else [])
    i_small true = ((omega arith, omega arith), tt)
    i_small false = tt

    b_small : (b : Bool) → AreSmall (if b then b'b' ∷ [] else [])
    b_small true = ((omega arith, omega arith), tt)
    b_small false = tt

pub unit_text-AreSmall : (u : SizeUnit) → AreSmall (unit_text u)
unit_text-AreSmall u = small_letters u.scale u.binary u.with_b
