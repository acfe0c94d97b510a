-- ===== src/Wire/Scan/Endless.antt =====
-- `skip` of tlwire/reader.go on a string with the low bits of a break: the index moves back onto the string.
use tlog.Base.{ℕ, zero, suc, ◌+◌, ◌≡◌, refl, arith, false, none, some, ◌∷◌}
use tlog.Base.Bits.{Bytes}
use tlog.Wire.{rfc8949}
use tlog.Wire.Int64.{pos, negsuc, add_int64}
use tlog.Wire.Scan.{
  skip_within, skip_elements, skip_tagged, read_tag, is_open, is_break, proceed, below_sub, finish,
}

-- An array of indefinite length whose first element is such a string.
abbrev pub open_string : Bytes → Bytes
open_string rest = 0x9f ∷ 0x7f ∷ rest

module _ (rest : Bytes) where
  -- The string "ends" where it begins.
  string_stays : (fuel : ℕ) → skip_within rfc8949 (suc fuel) (open_string rest) 1 ≡ some (pos 1)
  unfolding skip_within skip_tagged read_tag finish add_int64
  string_stays fuel = ground arith

  array_spins :
      (rounds fuel el : ℕ)
      → skip_elements rfc8949 rounds
          (skip_within rfc8949 fuel (open_string rest))
          (open_string rest)
          false
          (negsuc 0)
          el
          1
        ≡ none
  unfolding skip_elements is_open is_break proceed skip_within below_sub
  array_spins zero fuel el = refl
  array_spins (suc rounds) zero el = ground arith
  array_spins (suc rounds) (suc fuel) el =
      ground (arith, string_stays fuel, array_spins rounds (suc fuel) (el + 1))

  -- On an array of indefinite length whose first element is a string with the low bits of a break, `skip` never
  -- returns, whatever follows: no fuel is enough.
  pub skip_within-open_string : (fuel : ℕ) → skip_within rfc8949 fuel (open_string rest) 0 ≡ none
  unfolding skip_within skip_tagged read_tag
  skip_within-open_string zero = refl
  skip_within-open_string (suc fuel) = array_spins fuel fuel 0
