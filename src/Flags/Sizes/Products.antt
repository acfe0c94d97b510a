-- ===== src/Flags/Sizes/Products.antt =====
-- The products that `ParseBytes` of ext/tlflag/flag.go returns in an `int64`.
use tlog.Base.{ℕ, ◌+◌, ◌-◌, ◌*◌, ◌%◌, ◌^◌, ◌<◌, ◌≡◌, refl, ap, arith}
use tlog.Base.{ltb, ltb→lt, lt→ltb, if◌then◌else◌, Bool, true, false, Bool-cases}
use tlog.Base.{inl, inr, ◌↔◌}
use tlog.Wire.Int64.{ℤ, pos, negsuc, to_int64}
use tlog.Flags.Sizes.{size, scaled, in_int64}

-- The number of 64 bits that an `int64` stands for.
unfoldable pub residue : ℤ → ℕ
residue (pos n) = n
residue (negsuc n) = 2 ^ 64 - 1 - n

abbrev pub IsInt64 : ℤ → Type 0
IsInt64 (pos n) = n < 2 ^ 63
IsInt64 (negsuc n) = n < 2 ^ 63

-- The product of `x` and `m`, or what gives 0 with it, as an `int64`, of an `x` that is one.
pub record IsProduct (neg : Bool) (x m : ℕ) (v : ℤ) : Type 0 where
  pub small : x < 2 ^ 63
  pub wrapped : IsInt64 v
  pub product :
      (if neg then (residue v + x * m) % 2 ^ 64 else residue v)
      ≡ (if neg then 0 else x * m % 2 ^ 64)

to_int64-residue : (n : ℕ) → n < 2 ^ 64 → (residue (to_int64 n) ≡ n) × IsInt64 (to_int64 n)
unfolding to_int64 residue
to_int64-residue n h = elim (Bool-cases (ltb n (2 ^ 63))) [
  | inl y ↦ rw y (refl, ltb→lt n (2 ^ 63) y)
  | inr o ↦ rw o (omega (arith, h), ground (arith, o, h))
]

residue_small : (v : ℤ) → IsInt64 v → residue v < 2 ^ 64
unfolding residue
residue_small (pos n) h = omega (arith, h)
residue_small (negsuc n) h = omega (arith, h)

residue-to_int64 : (v : ℤ) (n : ℕ) → IsInt64 v → residue v ≡ n → to_int64 n ≡ v
unfolding to_int64 residue
residue-to_int64 (pos k) n h e = ground (arith, h, e)
residue-to_int64 (negsuc k) n h e =
    let off : ltb n (2 ^ 63) ≡ false = ground (arith, h, e) in
    rw off (ap negsuc (omega (arith, h, e)))

scaled-IsProduct : (neg : Bool) (x m : ℕ) → x < 2 ^ 63 → IsProduct neg x m (scaled neg x m)
unfolding scaled
scaled-IsProduct false x m h =
    let (r, w) = to_int64-residue (x * m % 2 ^ 64) (omega arith) in
    record { small = h; wrapped = w; product = r }
scaled-IsProduct true x m h =
    let (r, w) = to_int64-residue ((2 ^ 64 - x * m % 2 ^ 64) % 2 ^ 64) (omega arith) in
    record { small = h; wrapped = w; product = rw r (omega arith) }

IsProduct-scaled : (neg : Bool) (x m : ℕ) (v : ℤ) → IsProduct neg x m v → scaled neg x m ≡ v
unfolding scaled
IsProduct-scaled false x m v h = residue-to_int64 v _ h.wrapped h.product
IsProduct-scaled true x m v h =
    residue-to_int64 v _ h.wrapped (omega (arith, residue_small v h.wrapped, h.product))

pub in_int64-IsProduct :
    (neg : Bool) (x m : ℕ) (v : ℤ) → (in_int64 neg m x ≡ size v) ↔ IsProduct neg x m v
unfolding in_int64
in_int64-IsProduct neg x m v = (
  (λ e. elim (Bool-cases (ltb x (2 ^ 63))) [
    | inl y ↦
        let same : scaled neg x m ≡ v = cc (rw y at e) in
        rw same at (scaled-IsProduct neg x m (ltb→lt x (2 ^ 63) y))
    | inr o ↦ absurd (cc (rw o at e))
  ]),
  (λ h. rw (lt→ltb x (2 ^ 63) h.small, IsProduct-scaled neg x m v h) refl),
)
