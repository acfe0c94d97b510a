-- ===== src/Flags/Options/Letters.antt =====
-- ext/tlflag/flag.go: what the letters of a query do to the flags.
use tlog.Base.{ℕ, ◌+◌, ◌%◌, ◌<◌, ◌≡◌, refl, arith, ◌==◌, bit_and, bit_or}
use tlog.Base.{if◌then◌else◌, Bool, true, false, ◌||◌, [], ◌∷◌, Bool-cases, inl, inr}
use tlog.Base.Bits.{Bytes, agree_below, every_below}
use tlog.Flags.Options.{
  o_trunc, update_file_flags, l_shortfile, l_longfile, l_det_flags, bit_clear, console_letter,
  update_console_flags,
}

unfoldable pub has_zero : Bytes → Bool
has_zero [] = false
has_zero (c ∷ q) = c == b'0' || has_zero q

trunc_twice : (fl : ℕ) → fl < 2048 → bit_or (bit_or fl o_trunc) o_trunc ≡ bit_or fl o_trunc
unfolding every_below
trunc_twice =
    agree_below (λ fl. bit_or (bit_or fl o_trunc) o_trunc) (λ fl. bit_or fl o_trunc) 2048 refl

trunc_small : (fl : ℕ) → fl < 2048 → bit_or fl o_trunc < 2048
unfolding every_below
trunc_small fl h =
    let e : bit_or fl o_trunc ≡ bit_or fl o_trunc % 2048 =
      agree_below (λ x. bit_or x o_trunc) (λ x. bit_or x o_trunc % 2048) 2048 refl fl h in
    omega (arith, e)

-- A file is truncated exactly where the query holds the digit 0, wherever in the query it stands, for
-- flags below 2048.
pub update_file_flags-has_zero :
    (q : Bytes) (fl : ℕ)
    → fl < 2048
    → update_file_flags fl q ≡ (if has_zero q then bit_or fl o_trunc else fl)
unfolding update_file_flags has_zero
update_file_flags-has_zero [] fl h = refl
update_file_flags-has_zero (c ∷ q) fl h = elim (Bool-cases (c == b'0')) [
  | inl e ↦
      rw (e, update_file_flags-has_zero q (bit_or fl o_trunc) (trunc_small fl h)) (again q fl h)
  | inr o ↦ rw o (update_file_flags-has_zero q fl h)
]
  where
    again :
        (q : Bytes) (fl : ℕ)
        → fl < 2048
        → (if has_zero q then bit_or (bit_or fl o_trunc) o_trunc else bit_or fl o_trunc)
          ≡ bit_or fl o_trunc
    again q fl h = elim (Bool-cases (has_zero q)) [
      | inl e ↦ rw e (trunc_twice fl h)
      | inr o ↦ rw o refl
    ]

-- The bits for the short and for the long name of a file.
unfoldable pub file_bits : ℕ → ℕ
file_bits ff = bit_and ff (l_shortfile + l_longfile)

-- What each letter does to these two bits.
unfoldable pub file_bits_after : ℕ → ℕ → ℕ
file_bits_after bits c =
    if c == b'd'
    then bit_or bits l_shortfile
    else if c == b'f'
    then l_shortfile
    else if c == b'F'
    then l_longfile
    else bits

-- The letters joined in order.
unfoldable pub file_bits_after_all : ℕ → Bytes → ℕ
file_bits_after_all bits [] = bits
file_bits_after_all bits (c ∷ s) = file_bits_after_all (file_bits_after bits c) s

module _ (ff : ℕ) (h : ff < 2048) where
  det_bits : file_bits (bit_or ff l_det_flags) ≡ bit_or (file_bits ff) l_shortfile
  unfolding every_below file_bits
  det_bits =
      agree_below (λ x. file_bits (bit_or x l_det_flags)) (λ x. bit_or (file_bits x) l_shortfile)
        2048 refl ff h

  bits_8 : file_bits (bit_or ff 8) ≡ file_bits ff
  unfolding every_below file_bits
  bits_8 = agree_below (λ x. file_bits (bit_or x 8)) file_bits 2048 refl ff h

  bits_16 : file_bits (bit_or ff 16) ≡ file_bits ff
  unfolding every_below file_bits
  bits_16 = agree_below (λ x. file_bits (bit_or x 16)) file_bits 2048 refl ff h

  bits_256 : file_bits (bit_or ff 256) ≡ file_bits ff
  unfolding every_below file_bits
  bits_256 = agree_below (λ x. file_bits (bit_or x 256)) file_bits 2048 refl ff h

  bits_512 : file_bits (bit_or ff 512) ≡ file_bits ff
  unfolding every_below file_bits
  bits_512 = agree_below (λ x. file_bits (bit_or x 512)) file_bits 2048 refl ff h

  short_bits : file_bits (bit_or (bit_clear ff l_longfile) l_shortfile) ≡ l_shortfile
  unfolding every_below file_bits bit_clear
  short_bits =
      agree_below (λ x. file_bits (bit_or (bit_clear x l_longfile) l_shortfile)) (λ x. l_shortfile)
        2048 refl ff h

  long_bits : file_bits (bit_or (bit_clear ff l_shortfile) l_longfile) ≡ l_longfile
  unfolding every_below file_bits bit_clear
  long_bits =
      agree_below (λ x. file_bits (bit_or (bit_clear x l_shortfile) l_longfile)) (λ x. l_longfile)
        2048 refl ff h

  console_letter-file_bits :
      (c : ℕ) → file_bits (console_letter ff c) ≡ file_bits_after (file_bits ff) c
  unfolding console_letter file_bits_after
  console_letter-file_bits c =
      ground (arith, det_bits, bits_8, bits_16, bits_256, bits_512, short_bits, long_bits)

  console_letter_small : (c : ℕ) → console_letter ff c < 2048
  unfolding console_letter every_below bit_clear
  console_letter_small c = ground (
    arith,
    below l_det_flags refl,
    below 8 refl,
    below 16 refl,
    below 256 refl,
    below 512 refl,
    both,
  )
    where
      below :
          (n : ℕ)
          → every_below 2048 (λ x. bit_or x n == bit_or x n % 2048) ≡ true
          → bit_or ff n < 2048
      below n t =
          let e : bit_or ff n ≡ bit_or ff n % 2048 =
            agree_below (λ x. bit_or x n) (λ x. bit_or x n % 2048) 2048 t ff h in
          omega (arith, e)

      both :
          (bit_or (bit_clear ff l_longfile) l_shortfile < 2048)
          × (bit_or (bit_clear ff l_shortfile) l_longfile < 2048)
      both =
          let e : bit_or (bit_clear ff l_longfile) l_shortfile
              ≡ bit_or (bit_clear ff l_longfile) l_shortfile % 2048 =
            agree_below (λ x. bit_or (bit_clear x l_longfile) l_shortfile)
              (λ x. bit_or (bit_clear x l_longfile) l_shortfile % 2048) 2048 refl ff h in
          let e' : bit_or (bit_clear ff l_shortfile) l_longfile
              ≡ bit_or (bit_clear ff l_shortfile) l_longfile % 2048 =
            agree_below (λ x. bit_or (bit_clear x l_shortfile) l_longfile)
              (λ x. bit_or (bit_clear x l_shortfile) l_longfile % 2048) 2048 refl ff h in
          (omega (arith, e), omega (arith, e'))

-- Of the letters of `console=`, only `f` and `F` choose between the short and the long name of the file,
-- the last of them wins, and `d` adds the short one, for flags below 2048.
pub update_console_flags-file_bits :
    (flags : Bytes) (ff : ℕ)
    → ff < 2048
    → file_bits (update_console_flags ff flags) ≡ file_bits_after_all (file_bits ff) flags
unfolding update_console_flags file_bits_after_all
update_console_flags-file_bits [] ff h = refl
update_console_flags-file_bits (c ∷ flags) ff h =
    rw (← console_letter-file_bits ff h c)
      (update_console_flags-file_bits flags (console_letter ff c) (console_letter_small ff h c))
