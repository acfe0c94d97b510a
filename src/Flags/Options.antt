-- ===== src/Flags/Options.antt =====
-- ext/tlflag/flag.go: the flags of files and of the console that a query sets.
pub mod Letters
mod Runs
use tlog.Base.{ℕ, ◌+◌, ◌-◌, bit_and, bit_or, ◌==◌, if◌then◌else◌, List, [], ◌∷◌}
use tlog.Base.Bits.{Bytes}

-- The flags of `os.OpenFile` on Linux.
abbrev pub o_wronly : ℕ
o_wronly = 0x1

abbrev pub o_create : ℕ
o_create = 0x40

abbrev pub o_trunc : ℕ
o_trunc = 0x200

abbrev pub o_append : ℕ
o_append = 0x400

-- `updateFileFlags`
unfoldable pub update_file_flags : ℕ → Bytes → ℕ
update_file_flags fl [] = fl
update_file_flags fl (c ∷ q) = update_file_flags (if c == b'0' then bit_or fl o_trunc else fl) q

-- The flags of `ConsoleWriter`: bit 0 is the date, bit 10 the level.
abbrev pub l_milliseconds : ℕ
l_milliseconds = 8

abbrev pub l_microseconds : ℕ
l_microseconds = 16

abbrev pub l_shortfile : ℕ
l_shortfile = 32

abbrev pub l_longfile : ℕ
l_longfile = 64

abbrev pub l_funcname : ℕ
l_funcname = 256

abbrev pub l_utc : ℕ
l_utc = 512

abbrev pub l_std_flags : ℕ
l_std_flags = 3

abbrev pub l_det_flags : ℕ
l_det_flags = 0x433

-- `ff &^ bits`
unfoldable pub bit_clear : ℕ → ℕ → ℕ
bit_clear ff bits = ff - bit_and ff bits

-- One letter of `console=`.
unfoldable pub console_letter : ℕ → ℕ → ℕ
console_letter ff c =
    if c == b'd'
    then bit_or ff l_det_flags
    else if c == b'm'
    then bit_or ff l_milliseconds
    else if c == b'M'
    then bit_or ff l_microseconds
    else if c == b'n'
    then bit_or ff l_funcname
    else if c == b'f'
    then bit_or (bit_clear ff l_longfile) l_shortfile
    else if c == b'F'
    then bit_or (bit_clear ff l_shortfile) l_longfile
    else if c == b'U'
    then bit_or ff l_utc
    else ff

-- `updateConsoleFlags` on the value of `console`
unfoldable pub update_console_flags : ℕ → Bytes → ℕ
update_console_flags ff [] = ff
update_console_flags ff (c ∷ flags) = update_console_flags (console_letter ff c) flags
