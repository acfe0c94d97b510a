-- ===== src/Flags/Reading.antt =====
-- ext/tlflag/flag.go: the reader that an address opens.
pub mod Closing
mod Runs
use tlog.Base.{ℕ, suc, ◌==◌, if◌then◌else◌, Bool, true, false, ◌&&◌, ◌||◌, not}
use tlog.Base.{Option, none, some, List, [], ◌∷◌, ◌++◌, map, ◌⊎◌, inl, inr}
use tlog.Base.Bits.{Bytes}
use tlog.Verbosity.{same_text}
use tlog.Flags.Paths.{
  Url, UrlError, parse_url, is_empty, file_text, pipe_text, fifo_text, Wrapper, Collected,
  collected, unsupported_format, out_of_fuel, formats, reader_choice,
}
use tlog.Flags.Writing.{
  Handle, made, Event, opened, closed, World, FlagError, unknown_format, unsupported_scheme,
  open_failed, seek_failed, parse_failed, endless, Result, good, failed, same_id,
}

-- The readers; a file has a number. `re_reader` is the `tlio.ReReader` on a file.
pub data Source : Type 0 where
  stdin : Source
  os_file : ℕ → Source
  re_reader : ℕ → Source
  eazy : Source → Source
  nop_closer : Source → Source
  read_closer : Source → Source → Source

-- What the code stands on: net/url, path, `os.OpenFile` and the `Seek` of the file that it opens (their
-- errors, where they have one), and whether an `eazy.Reader` is an `io.Closer`.
pub record Env : Type 0 where
  pub url_parse : Bytes → Url ⊎ ℕ
  pub join : Bytes → Bytes → Bytes
  pub open_file : ℕ → Bytes → Option ℕ
  pub seek_current : ℕ → Option ℕ
  pub eazy_is_closer : Bool

unfoldable pub id_of : Source → Option ℕ
id_of (os_file i) = some i
id_of _ = none

-- `r.(interface{}) == c.(interface{})`
unfoldable pub same : Source → Source → Bool
same r c = same_id (id_of r) (id_of c)

unfoldable pub opened_next : World → World
opened_next wd = record wd { next = suc wd.next; events = wd.events ++ (opened wd.next ∷ []) }

unfoldable pub open_result : World → Option ℕ → World × Result Source
open_result wd none = (opened_next wd, good (os_file wd.next))
open_result wd (some e) = (wd, failed (open_failed e))

module _ (env : Env) where
  open env use {url_parse, join, open_file, seek_current, eazy_is_closer}

  unfoldable pub is_closer : Source → Bool
  is_closer stdin = true
  is_closer (os_file i) = true
  is_closer (re_reader i) = false
  is_closer (eazy r) = eazy_is_closer
  is_closer (nop_closer r) = true
  is_closer (read_closer r c) = true

  -- The files and the stdin that a `Close` closes; `os.Stdin` is a file too, which a `NopCloser` keeps open.
  unfoldable pub closing : Source → List Source
  closing stdin = stdin ∷ []
  closing (os_file i) = os_file i ∷ []
  closing (read_closer r c) = closing c
  closing (eazy r) = closing r
  closing _ = []

  -- `OSOpenFile`
  unfoldable pub os_open_file : World → Bytes → World × Result Source
  os_open_file wd name = open_result wd (open_file wd.next name)

  -- `NewReReader` on a file, and what `OpenFileReReader` returns.
  unfoldable pub re_readable : World → Source → Option ℕ → World × Result Source
  re_readable wd (os_file i) none = (wd, good (read_closer (re_reader i) (os_file i)))
  re_readable wd f none = (wd, good f)
  re_readable wd f (some e) = (wd, failed (seek_failed e))

  unfoldable pub re_read : World × Result Source → ℕ → World × Result Source
  re_read (wd, failed e) i = (wd, failed e)
  re_read (wd, good f) i = re_readable wd f (seek_current i)

  -- `OpenFileReReader(OSOpenFile)`, the value of `OpenFileReader`
  unfoldable pub open_file_reader : World → Bytes → World × Result Source
  open_file_reader wd name = re_read (os_open_file wd name) wd.next

  unfoldable pub openrfile : World → Url → World × Result Source
  openrfile wd u = open_file_reader wd u.path

  unfoldable pub openrurl : World → Url → World × Result Source
  openrurl wd u =
      if same_text u.scheme file_text
      then openrfile wd u
      else if same_text u.scheme pipe_text || same_text u.scheme fifo_text
      then os_open_file wd u.path
      else (wd, failed (unsupported_scheme u.scheme))

  -- The two parts of a `tlio.ReadCloser`, or a reader that may be a closer.
  unfoldable pub parts : World × Result Source → World × Result (Source × Option Source)
  parts (wd, failed e) = (wd, failed e)
  parts (wd, good (read_closer r c)) = (wd, good (r, some c))
  parts (wd, good r) = (wd, good (r, if is_closer r then some r else none))

  abbrev stdin_text : Bytes
  stdin_text = b's' ∷ b't' ∷ b'd' ∷ b'i' ∷ b'n' ∷ []

  unfoldable pub openreader : World → Url → Bytes → World × Result (Source × Option Source)
  openreader wd u base =
      if same_text base (b'-' ∷ []) || is_empty base || same_text base stdin_text
      then (wd, good (stdin, none))
      else parts (if not (is_empty u.scheme) then openrurl wd u else openrfile wd u)

  -- Every function in `wrap` is a decompressor.
  unfoldable pub wrap_all : List Wrapper → Source → Source
  wrap_all [] r = r
  wrap_all (f ∷ fs) r = wrap_all fs (eazy r)

  -- The end of `openr`.
  unfoldable pub read_closer_of : Source → Option Source → Source
  read_closer_of r none = if is_closer r then nop_closer r else r
  read_closer_of r (some c) = if same r c then r else read_closer r c

  unfoldable pub wrapped_up :
      List Wrapper → World × Result (Source × Option Source) → World × Result Source
  wrapped_up fs (wd, failed e) = (wd, failed e)
  wrapped_up fs (wd, good (r, c)) = (wd, good (read_closer_of (wrap_all fs r) c))

  unfoldable pub after_collecting : World → Url → Collected → World × Result Source
  after_collecting wd u (collected fs base) = wrapped_up fs (openreader wd u base)
  after_collecting wd u (unsupported_format ext) = (wd, failed (unknown_format ext))
  after_collecting wd u out_of_fuel = (wd, failed endless)

  -- `openr` and `openrc`
  unfoldable pub openr : World → Url → World × Result Source
  openr wd u = after_collecting wd u (formats reader_choice u.path)

  -- `rc, ok = r.(io.ReadCloser)`, or a `NopCloser`
  unfoldable pub read_closer_or_nop : World × Result Source → World × Result Source
  read_closer_or_nop (wd, failed e) = (wd, failed e)
  read_closer_or_nop (wd, good r) = (wd, good (if is_closer r then r else nop_closer r))

  unfoldable pub open_parsed : World → Url ⊎ UrlError → World × Result Source
  open_parsed wd (inr e) = (wd, failed (parse_failed e))
  open_parsed wd (inl u) = read_closer_or_nop (openr wd u)

  unfoldable pub open_reader : World → Bytes → World × Result Source
  open_reader wd src = open_parsed wd (parse_url join url_parse src)
