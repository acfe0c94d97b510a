-- ===== src/Flags/Options/Runs.antt =====
-- The flags of ext/tlflag/flag.go on concrete queries.
use tlog.Base.{◌≡◌, refl, arith, [], ◌∷◌, bit_or, if◌then◌else◌}
use tlog.Base.Bits.{Bytes}
use tlog.Flags.Options.{
  o_trunc, update_file_flags, l_std_flags, bit_clear, console_letter, update_console_flags,
}
use tlog.Flags.Options.Letters.{has_zero, update_file_flags-has_zero}

-- rotating_min_age=10s
abbrev ten : Bytes
ten = b'=' ∷ b'1' ∷ b'0' ∷ b's' ∷ []

update_file_flags-has_zero_example :
    update_file_flags 0x441 ten ≡ (if has_zero ten then bit_or 0x441 o_trunc else 0x441)
update_file_flags-has_zero_example = update_file_flags-has_zero ten 0x441 (omega arith)

-- The 0 of a number truncates the file.
ten_truncates : update_file_flags 0x441 ten ≡ 0x641
unfolding update_file_flags
ten_truncates = refl

abbrev det_long : Bytes
det_long = b'd' ∷ b'F' ∷ b'm' ∷ []

det_long_value : update_console_flags l_std_flags det_long ≡ 0x45b
unfolding update_console_flags console_letter bit_clear
det_long_value = refl
