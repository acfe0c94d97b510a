-- ===== src/Flags/Sizes/Exact.antt =====
-- `ParseBytes` of ext/tlflag/flag.go on sizes that an `int64` holds.
use tlog.Base.{ℕ, zero, suc, ◌-◌, ◌*◌, ◌%◌, ◌^◌, ◌<◌, ◌≡◌, refl, ◌∙◌, arith, lt→ltb, if◌then◌else◌}
use tlog.Base.{Bool, true, false}
use tlog.Wire.Int64.{ℤ, pos, negsuc, to_int64}
use tlog.Flags.Sizes.{size, number_value, scaled, in_int64, parse_bytes}
use tlog.Flags.Sizes.Grammar.{Spelling, IsSpelling, spelled, base, is_odd, parse_bytes-spelled}

unfoldable pub negated : ℕ → ℤ
negated zero = pos 0
negated (suc n) = negsuc n

unfoldable pub signed : Bool → ℕ → ℤ
signed neg n = if neg then negated n else pos n

-- An `int64` that is not negative, and one that is.
to_int64-signed :
    (neg : Bool) (n : ℕ)
    → n < 2 ^ 63
    → to_int64 (if neg then (2 ^ 64 - n) % 2 ^ 64 else n) ≡ signed neg n
unfolding to_int64 signed negated
to_int64-signed false n h = ground arith
to_int64-signed true zero h = refl
to_int64-signed true (suc n) h =
    let e : (2 ^ 64 - suc n) % 2 ^ 64 ≡ 2 ^ 64 - suc n = omega arith in rw e (ground arith)

in_int64-signed :
    (neg : Bool) (m x : ℕ)
    → x < 2 ^ 63
    → x * m < 2 ^ 63
    → in_int64 neg m x ≡ size (signed neg (x * m))
unfolding in_int64 scaled
in_int64-signed neg m x hx h =
    let e : x * m % 2 ^ 64 ≡ x * m = omega arith in
    rw (lt→ltb x (2 ^ 63) hx, e, to_int64-signed neg (x * m) h) refl

-- Where the number and its product with the unit are below 2 ^ 63, `ParseBytes` returns the product with
-- its sign, exactly.
pub parse_bytes_exact :
    (p : Spelling) {m : ℕ}
    → IsSpelling p m
    → number_value (base p) 0 p.digits < 2 ^ 63
    → number_value (base p) 0 p.digits * m < 2 ^ 63
    → parse_bytes (spelled p)
      ≡ size (signed (is_odd p.minuses) (number_value (base p) 0 p.digits * m))
parse_bytes_exact p h hx hm =
    parse_bytes-spelled p h
    ∙ in_int64-signed (is_odd p.minuses) _ (number_value (base p) 0 p.digits) hx hm
