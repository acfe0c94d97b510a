-- ===== src/Base/Bits.antt =====
-- Masks on one byte as arithmetic; each is a table of at most 256 rows, checked by evaluation.
use Prim.Native.Nat.{ℕ, zero, suc, ◌+◌, ◌*◌, ◌/◌, ◌%◌, ◌<◌, bit_and, bit_or}
use mathlib.Core.Path.{◌≡◌, refl}
use mathlib.Core.Bool.{Bool, true, ◌&&◌}
use mathlib.Core.List.{List}
use native.Mathlib.Omega.{arith}
use package.tlog.Base.Tests.{◌==◌, ==_iff}

abbrev pub IsByte : ℕ → Type 0
IsByte b = b < 256

abbrev pub Bytes : Type 0
Bytes = List ℕ

-- Every value below a bound passes a test.
unfoldable pub every_below : ℕ → (ℕ → Bool) → Bool
every_below zero test = true
every_below (suc n) test = test n && every_below n test

every_below_sound :
    (n : ℕ) (test : ℕ → Bool) (x : ℕ) → every_below n test ≡ true → x < n → test x ≡ true
unfolding every_below
every_below_sound zero test x h lt = absurd (omega arith)
every_below_sound (suc n) test x h lt = ground (arith, every_below_sound n test x)

module _ (f g : ℕ → ℕ) where
  pub agree_below : (n : ℕ) → every_below n (λ x. f x == g x) ≡ true → (x : ℕ) → x < n → f x ≡ g x
  agree_below n e x h = (==_iff (f x) (g x)).0 (every_below_sound n (λ y. f y == g y) x e h)

pub high_three : (b : ℕ) → b < 256 → bit_and b 0xe0 ≡ b / 32 * 32
unfolding every_below
high_three = agree_below (λ b. bit_and b 0xe0) (λ b. b / 32 * 32) 256 refl

pub low_five : (b : ℕ) → b < 256 → bit_and b 0x1f ≡ b % 32
unfolding every_below
low_five = agree_below (λ b. bit_and b 0x1f) (λ b. b % 32) 256 refl

pub low_four : (b : ℕ) → b < 256 → bit_and b 0xf ≡ b % 16
unfolding every_below
low_four = agree_below (λ b. bit_and b 0xf) (λ b. b % 16) 256 refl

-- A nibble joined to the other half of its byte.
pub join_nibbles : (h l : ℕ) → h < 16 → l < 16 → bit_or (h * 16) l ≡ h * 16 + l
unfolding every_below
join_nibbles h l hh hl =
    let t : bit_or ((h * 16 + l) / 16 * 16) ((h * 16 + l) % 16) ≡ h * 16 + l =
      agree_below (λ b. bit_or (b / 16 * 16) (b % 16)) (λ b. b) 256 refl (h * 16 + l)
        (omega arith) in
    let e : (h * 16 + l) / 16 ≡ h = omega arith in
    let r : (h * 16 + l) % 16 ≡ l = omega arith in rw (e, r) at t

pub high_nibble : (d : ℕ) → d < 16 → bit_or 0 (d * 16 % 256) ≡ d * 16
unfolding every_below
high_nibble = agree_below (λ d. bit_or 0 (d * 16 % 256)) (λ d. d * 16) 16 refl
