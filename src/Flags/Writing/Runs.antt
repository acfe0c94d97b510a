-- ===== src/Flags/Writing/Runs.antt =====
-- `OpenWriter` of ext/tlflag/flag.go on concrete addresses.
use tlog.Base.{◌≡◌, refl, false}
use tlog.Base.{none, [], ◌∷◌, ◌++◌, inl}
use tlog.Base.Bits.{Bytes}
use tlog.Rotating.{bytes_eq, has_suffix, has_prefix}
use tlog.Rotating.Current.{is_pattern, find_pattern, find_pattern_loop, later_of, last_index}
use tlog.Verbosity.{same_text, split, glue}
use tlog.Flags.Options.{update_file_flags}
use tlog.Flags.Paths.{
  parsed, parse_url, is_local, is_empty, has_slash, path_ext, trim_suffix, without_slashes,
  after_slash, path_base, chosen, collect, formats, writer_choice, is_one_of,
}
use tlog.Flags.Writing.{
  stdout, os_file, json, nop_closer, write_closer, made, opened, closed, World, good, failed,
  unknown_format, Env, id_of, same_id, same, is_closer, closing, write_closer_of, add_event,
  wrapped, wrap_all, file_opened, is_rotating, openwfile, with_closer, openwriter, finished,
  wrapped_up, after_collecting, openw, close_sink, close_sinks, next_round, round, open_loop, multi,
  output, returned, open_writer, write_flags,
}
use tlog.Flags.Writing.Balance.{Settled, open_writer-Settled}

-- Addresses are paths, there is no query, and every file opens.
abbrev plain_env : Env
plain_env = record {
  url_parse = λ d. inl (record { scheme = []; opaque = []; host = []; path = d; raw_query = [] });
  join = λ a b. a ++ b;
  query_get = λ q k. [];
  open_file = λ n name fl mode. none;
  parse_duration = λ s. none;
  atoi = λ s. none;
  eazy_is_closer = false;
}

abbrev start : World
start = record { next = 0; events = [] }

-- a.tl
abbrev a_tl : Bytes
a_tl = b'a' ∷ b'.' ∷ b't' ∷ b'l' ∷ []

-- a.tl,-.tl,b.json
abbrev three : Bytes
three =
    a_tl ++ (b',' ∷ b'-' ∷ b'.' ∷ b't' ∷ b'l' ∷ b',' ∷ b'b' ∷ b'.' ∷ b'j' ∷ b's' ∷ b'o' ∷ b'n' ∷ [])

open_writer-Settled_example : Settled plain_env start (open_writer plain_env start three)
open_writer-Settled_example = open_writer-Settled plain_env start three

opens_three : open_writer plain_env start three ≡ (
  record { next = 2; events = opened 0 ∷ opened 1 ∷ [] },
  good (multi (os_file 0 ∷ nop_closer stdout ∷ write_closer (json (os_file 1)) (os_file 1) ∷ [])),
)
unfolding open_writer open_loop round next_round returned output parsed parse_url is_local openw
    after_collecting wrapped_up finished wrapped wrap_all openwriter with_closer openwfile
    is_rotating file_opened add_event write_flags update_file_flags is_closer closing
    write_closer_of same same_id id_of split glue same_text formats collect chosen path_ext
    trim_suffix has_suffix bytes_eq is_empty has_slash writer_choice is_one_of is_pattern
    find_pattern find_pattern_loop later_of last_index has_prefix without_slashes after_slash
    path_base
opens_three = refl

-- a.tl,b.x: the second format is unknown, and the first file is closed.
closes_again : open_writer plain_env start (a_tl ++ (b',' ∷ b'b' ∷ b'.' ∷ b'x' ∷ [])) ≡ (
  record { next = 1; events = opened 0 ∷ closed (made 0) ∷ [] },
  failed (unknown_format (b'.' ∷ b'x' ∷ [])),
)
unfolding open_writer open_loop round next_round returned output parsed parse_url is_local openw
    after_collecting wrapped_up finished wrapped wrap_all openwriter with_closer openwfile
    is_rotating file_opened add_event write_flags update_file_flags is_closer closing
    write_closer_of same same_id id_of split glue same_text formats collect chosen path_ext
    trim_suffix has_suffix bytes_eq is_empty has_slash writer_choice is_one_of is_pattern
    find_pattern find_pattern_loop later_of last_index has_prefix without_slashes after_slash
    path_base close_sinks close_sink
closes_again = refl
