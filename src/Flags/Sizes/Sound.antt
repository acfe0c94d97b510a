-- ===== src/Flags/Sizes/Sound.antt =====
-- `ParseBytes` of ext/tlflag/flag.go takes no other text.
use tlog.Base.{sym, ◌∙◌, ◌↔◌, ℕ, suc, ◌≡◌, ◌≢◌, refl, ap, arith, ◌==◌, if◌then◌else◌, ==_iff}
use tlog.Base.{Bool, true, false, not, ◌&&◌, some, [], ◌∷◌, ◌++◌, All, Bool-cases}
use tlog.Base.{replicate, inl, inr, Option-cases}
use tlog.Base.Bits.{Bytes}
use tlog.Wire.Int64.{ℤ}
use tlog.Flags.Sizes.{
  in_int64, size, signs, number_base, in_number, digits_of, to_lower, unit_in, units, with_unit,
  with_digits, after_signs, parse_bytes,
}
use tlog.Flags.Sizes.Cases.{InCase, to_lower-InCase}
use tlog.Flags.Sizes.Meaning.{
  unit_text-AreSmall, is_digit, in_number-is_digit, numeral, number_value-whole, SizeUnit, IsUnit,
  unit_text, factor, unit_in-unit_text, units-SizeUnit,
}
use tlog.Flags.Sizes.Products.{IsProduct, in_int64-IsProduct}
use tlog.Flags.Sizes.Grammar.{
  base, is_odd, parse_bytes-spelled, Spelling, IsSpelling, spelled, prefix, Ends, flips,
}

signs_cut :
    (neg : Bool) (s : Bytes)
    → (k : ℕ) × (rest : Bytes) × (s ≡ replicate k b'-' ++ rest)
      × (signs neg s ≡ (flips k neg, rest))
unfolding signs flips
signs_cut neg [] = (0, [], refl, refl)
signs_cut neg (c ∷ s) = elim (Bool-cases (c == b'-')) [
  | inl e ↦
      let (k, rest, cut, run) = signs_cut (not neg) s in
      (suc k, rest, cc ((==_iff c b'-').0 e, cut), rw (e, run) refl)
  | inr o ↦ (0, c ∷ s, refl, rw o refl)
]

number_base_cut :
    (s : Bytes)
    → (hex : Bool) × (rest : Bytes) × (s ≡ prefix hex ++ rest)
      × (number_base s ≡ (if hex then 16 else 10, rest))
unfolding number_base
number_base_cut [] = (false, [], refl, refl)
number_base_cut (c ∷ []) = (false, c ∷ [], refl, refl)
number_base_cut (c ∷ d ∷ s) = elim (Bool-cases (c == b'0' && d == b'x')) [
  | inl e ↦
      let hc : c ≡ b'0' = ground (arith, e) in
      let hd : d ≡ b'x' = ground (arith, e) in (true, s, cc (hc, hd), rw e refl)
  | inr o ↦ (false, c ∷ d ∷ s, refl, rw o refl)
]

record Cut (b : ℕ) (s : Bytes) : Type 0 where
  digits : Bytes
  rest : Bytes
  whole : s ≡ digits ++ rest
  all_digits : All (λ c. in_number b c ≡ true) digits
  ends : Ends b rest
  run : digits_of b s ≡ (digits, rest)

digits_of-Cut : (b : ℕ) (s : Bytes) → Cut b s
unfolding digits_of
digits_of-Cut b [] = record {
  digits = [];
  rest = [];
  whole = refl;
  all_digits = tt;
  ends = tt;
  run = refl;
}
digits_of-Cut b (c ∷ s) = elim (Bool-cases (in_number b c)) [
  | inl e ↦
      let t = digits_of-Cut b s in
      record {
        digits = c ∷ t.digits;
        rest = t.rest;
        whole = ap (λ x. c ∷ x) t.whole;
        all_digits = (e, t.all_digits);
        ends = t.ends;
        run = rw (e, t.run) refl;
      }
  | inr o ↦ record {
    digits = [];
    rest = c ∷ s;
    whole = refl;
    all_digits = tt;
    ends = o;
    run = rw o refl;
  }
]

-- With a number that is there, the unit is one of the table.
with_digits_unit :
    (neg : Bool) (b : ℕ) (ds rest : Bytes) {v : ℤ}
    → with_digits neg b (ds, rest) ≡ size v
    → (ds ≢ []) × ((m : ℕ) × (unit_in units (to_lower rest) ≡ some m))
unfolding with_digits with_unit
with_digits_unit neg b [] rest e = absurd (cc e)
with_digits_unit neg b (d ∷ ds) rest e = elim (Option-cases (unit_in units (to_lower rest))) [
  | inl n ↦ absurd (ground (arith, rw n at e))
  | inr (m, u) ↦ (cc, (m, u))
]

parse_bytes-IsSpelling :
    (s : Bytes) {v : ℤ}
    → parse_bytes s ≡ size v
    → (p : Spelling) × (m : ℕ) × IsSpelling p m × (s ≡ spelled p)
unfolding parse_bytes after_signs spelled
parse_bytes-IsSpelling s e =
    let (k, r, cut, run) = signs_cut false s in
    let (hex, r', cut', run') = number_base_cut r in
    let t = digits_of-Cut (if hex then 16 else 10) r' in
    let (nonempty, (m, u)) =
      with_digits_unit (flips k false) (if hex then 16 else 10) t.digits t.rest
        (rw (run, run', t.run) at e) in
    (
      record { minuses = k; hex = hex; digits = t.digits; suffix = t.rest },
      m,
      record { all_digits = t.all_digits; some_digits = nonempty; ends = t.ends; unit = u },
      rw (← t.whole, ← cut') cut,
    )

abbrev pub Stops : Bool → Bytes → Type 0
Stops hex [] = Unit
Stops hex (c ∷ s) = is_digit hex c ≡ false

-- A spelling with a unit: digits of the base, one at least, that do not go on in the suffix, which is the text of
-- the unit in any case.
pub record IsSized (p : Spelling) (u : SizeUnit) : Type 0 where
  pub all_digits : All (λ c. is_digit p.hex c ≡ true) p.digits
  pub some_digits : p.digits ≢ []
  pub ends : Stops p.hex p.suffix
  pub is_unit : IsUnit u
  pub unit : InCase p.suffix (unit_text u)

-- What a text means: its parts, the unit, and the product of the number and the unit.
abbrev pub Means : Bytes → ℤ → Type 0
Means s v =
    (p : Spelling) × (u : SizeUnit) × (s ≡ spelled p)
    × IsSized p u
    × IsProduct (is_odd p.minuses) (numeral (base p) p.digits) (factor u) v

digits-All :
    (hex : Bool) (ds : Bytes)
    → All (λ c. in_number (if hex then 16 else 10) c ≡ true) ds
    → All (λ c. is_digit hex c ≡ true) ds
digits-All hex [] h = tt
digits-All hex (c ∷ ds) h = (sym (in_number-is_digit hex c) ∙ h.0, digits-All hex ds h.1)

All-digits :
    (hex : Bool) (ds : Bytes)
    → All (λ c. is_digit hex c ≡ true) ds
    → All (λ c. in_number (if hex then 16 else 10) c ≡ true) ds
All-digits hex [] h = tt
All-digits hex (c ∷ ds) h = (in_number-is_digit hex c ∙ h.0, All-digits hex ds h.1)

Ends-Stops : (hex : Bool) (s : Bytes) → Ends (if hex then 16 else 10) s → Stops hex s
Ends-Stops hex [] h = tt
Ends-Stops hex (c ∷ s) h = sym (in_number-is_digit hex c) ∙ h

Stops-Ends : (hex : Bool) (s : Bytes) → Stops hex s → Ends (if hex then 16 else 10) s
Stops-Ends hex [] h = tt
Stops-Ends hex (c ∷ s) h = in_number-is_digit hex c ∙ h

IsSpelling-IsSized :
    (p : Spelling) (m : ℕ) → IsSpelling p m → (u : SizeUnit) × (m ≡ factor u) × IsSized p u
IsSpelling-IsSized p m h =
    let (u, is, text, worth) = units-SizeUnit (to_lower p.suffix) m h.unit in
    (
      u,
      worth,
      record {
        all_digits = digits-All p.hex p.digits h.all_digits;
        some_digits = h.some_digits;
        ends = Ends-Stops p.hex p.suffix h.ends;
        is_unit = is;
        unit = (to_lower-InCase p.suffix (unit_text u) (unit_text-AreSmall u)).0 text;
      },
    )

IsSized-IsSpelling : (p : Spelling) (u : SizeUnit) → IsSized p u → IsSpelling p (factor u)
IsSized-IsSpelling p u h = record {
  all_digits = All-digits p.hex p.digits h.all_digits;
  some_digits = h.some_digits;
  ends = Stops-Ends p.hex p.suffix h.ends;
  unit =
      ap (unit_in units) ((to_lower-InCase p.suffix (unit_text u) (unit_text-AreSmall u)).1 h.unit)
      ∙ unit_in-unit_text u h.is_unit;
}

-- The result on a spelling, by the values of its digits.
parse_bytes-IsSized :
    (p : Spelling) (u : SizeUnit)
    → IsSized p u
    → parse_bytes (spelled p) ≡ in_int64 (is_odd p.minuses) (factor u) (numeral (base p) p.digits)
parse_bytes-IsSized p u h =
    parse_bytes-spelled p (IsSized-IsSpelling p u h)
    ∙ ap (in_int64 (is_odd p.minuses) (factor u))
        (number_value-whole p.hex (base p) p.digits h.all_digits)

-- `ParseBytes` returns a value exactly for the texts that are any number of minuses, an optional 0x, one
-- digit of the base at least and a unit in any case, with a number below 2 ^ 63. A unit is a power of 1000 by the
-- letters k, m, g and t, or of 1024 with an i behind the letter, with a b or without, or it is a b or nothing; the
-- sign for kelvin stands for a k, and the capital i with a dot for an i. The
-- value is the `int64` that has the residue of the product of number and unit modulo 2 ^ 64, or where the number of
-- minuses is odd, that gives 0 with it.
pub parse_bytes-Means : (s : Bytes) (v : ℤ) → (parse_bytes s ≡ size v) ↔ Means s v
parse_bytes-Means s v = (
  (λ e.
      let (p, m, h, w) = parse_bytes-IsSpelling s e in
      let (u, worth, sized) = IsSpelling-IsSized p m h in
      let run = sym (parse_bytes-IsSized p u sized) ∙ sym (ap parse_bytes w) ∙ e in
      (p, u, w, sized, (in_int64-IsProduct _ _ _ v).0 run)),
  (λ d.
      let (p, u, w, sized, product) = d in
      ap parse_bytes w ∙ parse_bytes-IsSized p u sized ∙ (in_int64-IsProduct _ _ _ v).1 product),
)
