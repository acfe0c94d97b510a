-- ===== src/Flags/Reading/Runs.antt =====
-- `OpenReader` of ext/tlflag/flag.go on concrete addresses.
use tlog.Base.{ℕ, zero, suc, ◌≡◌, refl, none, some, [], ◌∷◌, ◌++◌, inl, false}
use tlog.Base.Bits.{Bytes}
use tlog.Rotating.{bytes_eq, has_suffix}
use tlog.Verbosity.{same_text}
use tlog.Flags.Paths.{
  parsed, parse_url, is_local, is_empty, has_slash, path_ext, trim_suffix, chosen, collect, formats,
  reader_choice, is_one_of,
}
use tlog.Flags.Writing.{opened, World, seek_failed, good, failed, same_id}
use tlog.Flags.Reading.{
  os_file, re_reader, eazy, read_closer, Env, id_of, same, opened_next, open_result, is_closer,
  closing, os_open_file, re_readable, re_read, open_file_reader, openrfile, openrurl, parts,
  openreader, wrap_all, read_closer_of, wrapped_up, after_collecting, openr, read_closer_or_nop,
  open_parsed, open_reader,
}
use tlog.Flags.Reading.Closing.{Owned, open_reader-Owned}

-- Addresses are paths; the file of number 1 cannot seek.
abbrev plain_env : Env
plain_env = record {
  url_parse = λ d. inl (record { scheme = []; opaque = []; host = []; path = d; raw_query = [] });
  join = λ a b. a ++ b;
  open_file = λ n name. none;
  seek_current = λ n. elim n [ zero ↦ none | suc n ↦ some 29 ];
  eazy_is_closer = false;
}

abbrev at_number : ℕ → World
at_number n = record { next = n; events = [] }

-- a.ez
abbrev a_ez : Bytes
a_ez = b'a' ∷ b'.' ∷ b'e' ∷ b'z' ∷ []

open_reader-Owned_example : Owned plain_env (at_number 0) (open_reader plain_env (at_number 0) a_ez)
open_reader-Owned_example = open_reader-Owned plain_env (at_number 0) a_ez

opens_a_file : open_reader plain_env (at_number 0) a_ez ≡ (
  record { next = 1; events = opened 0 ∷ [] },
  good (read_closer (eazy (re_reader 0)) (os_file 0)),
)
unfolding open_reader open_parsed read_closer_or_nop openr after_collecting wrapped_up wrap_all
    openreader parts openrurl openrfile open_file_reader os_open_file re_read re_readable
    open_result opened_next is_closer closing read_closer_of same same_id id_of parsed parse_url
    is_local is_empty same_text formats collect chosen path_ext trim_suffix has_suffix bytes_eq
    has_slash reader_choice is_one_of
opens_a_file = refl

-- The file that cannot seek is not closed.
keeps_a_file :
    open_reader plain_env (at_number 1) a_ez
    ≡ (record { next = 2; events = opened 1 ∷ [] }, failed (seek_failed 29))
unfolding open_reader open_parsed read_closer_or_nop openr after_collecting wrapped_up wrap_all
    openreader parts openrurl openrfile open_file_reader os_open_file re_read re_readable
    open_result opened_next is_closer closing read_closer_of same same_id id_of parsed parse_url
    is_local is_empty same_text formats collect chosen path_ext trim_suffix has_suffix bytes_eq
    has_slash reader_choice is_one_of
keeps_a_file = refl
