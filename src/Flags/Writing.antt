-- ===== src/Flags/Writing.antt =====
-- ext/tlflag/flag.go: the writers that a list of addresses opens.
pub mod Closing
pub mod Balance
mod Runs
use tlog.Base.{ℕ, suc, ◌+◌, ◌*◌, bit_or, ◌==◌, if◌then◌else◌, Bool, true, false, ◌&&◌, ◌||◌, not}
use tlog.Base.{Option, none, some, List, [], ◌∷◌, ◌++◌, map, ◌⊎◌, inl, inr}
use tlog.Base.Bits.{Bytes}
use tlog.Rotating.Current.{is_pattern}
use tlog.Verbosity.{same_text, split}
use tlog.Wire.Int64.{ℤ, pos}
use tlog.Flags.Options.{
  o_wronly, o_create, o_append, l_std_flags, update_file_flags, update_console_flags,
}
use tlog.Flags.Paths.{
  Url, UrlError, parse_url, is_empty, path_base, file_text, unix_text, unixgram_text, Wrapper, dump,
  lines, compressed, as_json, as_logfmt, page, compressed_dump, Collected, collected,
  unsupported_format, out_of_fuel, formats, writer_choice,
}
use tlog.Flags.Sizes.{Size, size, bad_size, unsupported_suffix, out_of_range, parse_bytes}

-- The fields of a `rotating.File` that are set, and how often its `OpenFile` was wrapped by
-- `RotatedTLZFileOpener`.
pub record Rotation : Type 0 where
  pub name : Bytes
  pub flags : ℕ
  pub mode : ℕ
  pub max_file_size : ℤ
  pub max_file_age : ℤ
  pub max_total_size : ℤ
  pub max_total_age : ℤ
  pub max_total_files : ℤ
  pub min_age : ℤ
  pub zipped : ℕ

-- The writers; those that are made while the program runs and hold something to close have a number.
pub data Sink : Type 0 where
  stdout stderr discard : Sink
  os_file : ℕ → Sink
  rotating : ℕ → Rotation → Sink
  rewriter : ℕ → Bytes → Bytes → Sink
  dumper : Sink → Sink
  console : ℕ → Sink → Sink
  eazy : Sink → Sink
  eazy_dumper : Sink → Sink
  json : Sink → Sink
  logfmt : Sink → Sink
  web : ℕ → Sink → Sink
  nop_closer : Sink → Sink
  write_closer : Sink → Sink → Sink

-- What a `Close` reaches.
pub data Handle : Type 0 where
  std_out std_err : Handle
  made : ℕ → Handle

pub data Event : Type 0 where
  opened : ℕ → Event
  closed : Handle → Event

pub record World : Type 0 where
  pub next : ℕ
  pub events : List Event

pub data FlagError : Type 0 where
  unknown_format : Bytes → FlagError
  unsupported_scheme : Bytes → FlagError
  open_failed seek_failed : ℕ → FlagError
  parse_failed : UrlError → FlagError
  endless : FlagError

pub data Result {ℓ} (A : Type ℓ) : Type ℓ where
  good : A → Result A
  failed : FlagError → Result A

-- What the code stands on: net/url, path, `OpenFileWriter` (the error of the open with a number, if there
-- is one), `time.ParseDuration`, `strconv.Atoi`, and whether an `eazy.Writer` is an `io.Closer`.
pub record Env : Type 0 where
  pub url_parse : Bytes → Url ⊎ ℕ
  pub join : Bytes → Bytes → Bytes
  pub query_get : Bytes → Bytes → Bytes
  pub open_file : ℕ → Bytes → ℕ → ℕ → Option ℕ
  pub parse_duration : Bytes → Option ℤ
  pub atoi : Bytes → Option ℤ
  pub eazy_is_closer : Bool

abbrev pub day : ℕ
day = 24 * 3600 * 1000000000

-- `rotating.Create`, and the three fields that `openwfile` sets next.
unfoldable pub rotation_new : Bytes → ℕ → ℕ → Rotation
rotation_new fname fl mode = record {
  name = fname;
  flags = fl;
  mode = mode;
  max_file_size = pos (128 * 1048576);
  max_file_age = pos (7 * day);
  max_total_size = pos (128 * 1073741824);
  max_total_age = pos (28 * day);
  max_total_files = pos 20;
  min_age = pos (3 * day);
  zipped = 0;
}

unfoldable pub size_value : Size → Option ℤ
size_value (size x) = some x
size_value bad_size = none
size_value (unsupported_suffix s) = none
size_value out_of_range = none

-- `if v := q.Get(..); v != "" { x, err := parse(v); if err == nil { f.field = x } }`
unfoldable pub put_value : Option ℤ → (ℤ → Rotation → Rotation) → Rotation → Rotation
put_value none put f = f
put_value (some x) put f = put x f

unfoldable pub set_field :
    Bytes → (Bytes → Option ℤ) → (ℤ → Rotation → Rotation) → Rotation → Rotation
set_field v parse put f = if not (is_empty v) then put_value (parse v) put f else f

abbrev rotating_text : Bytes
rotating_text = b'r' ∷ b'o' ∷ b't' ∷ b'a' ∷ b't' ∷ b'i' ∷ b'n' ∷ b'g' ∷ []

abbrev key : Bytes → Bytes
key s = rotating_text ++ (b'_' ∷ s)

abbrev max_file : Bytes
max_file = b'm' ∷ b'a' ∷ b'x' ∷ b'_' ∷ b'f' ∷ b'i' ∷ b'l' ∷ b'e' ∷ b'_' ∷ []

abbrev max_total : Bytes
max_total = b'm' ∷ b'a' ∷ b'x' ∷ b'_' ∷ b't' ∷ b'o' ∷ b't' ∷ b'a' ∷ b'l' ∷ b'_' ∷ []

abbrev size_text : Bytes
size_text = b's' ∷ b'i' ∷ b'z' ∷ b'e' ∷ []

abbrev age_text : Bytes
age_text = b'a' ∷ b'g' ∷ b'e' ∷ []

abbrev files_text : Bytes
files_text = b'f' ∷ b'i' ∷ b'l' ∷ b'e' ∷ b's' ∷ []

abbrev min_text : Bytes
min_text = b'm' ∷ b'i' ∷ b'n' ∷ b'_' ∷ []

abbrev console_text : Bytes
console_text = b'c' ∷ b'o' ∷ b'n' ∷ b's' ∷ b'o' ∷ b'l' ∷ b'e' ∷ []

abbrev pub file_mode : ℕ
file_mode = 0x1a4

-- `w.(io.Closer)` has it, `w == c` for two of the writers, and what a `Close` of a writer closes.
unfoldable pub id_of : Sink → Option ℕ
id_of (os_file i) = some i
id_of (rotating i f) = some i
id_of (rewriter i s p) = some i
id_of (web i w) = some i
id_of _ = none

unfoldable pub same_id : Option ℕ → Option ℕ → Bool
same_id (some i) (some j) = i == j
same_id _ _ = false

unfoldable pub same : Sink → Sink → Bool
unfolding same_id
same w c = same_id (id_of w) (id_of c)

-- `f.OpenFile = RotatedTLZFileOpener(f.OpenFile)` on the file that a closer may be, too.
unfoldable pub zip_rotation : Rotation → Rotation
zip_rotation f = record f { zipped = suc f.zipped }

unfoldable pub aliased : ℕ → Sink → Sink
aliased i (rotating j f) = if i == j then rotating j (zip_rotation f) else rotating j f
aliased i c = c

unfoldable pub aliased_closer : ℕ → Option Sink → Option Sink
aliased_closer i none = none
aliased_closer i (some c) = some (aliased i c)

module _ (env : Env) where
  open env use {url_parse, join, query_get, open_file, parse_duration, atoi, eazy_is_closer}

  unfoldable pub is_closer : Sink → Bool
  is_closer stdout = true
  is_closer stderr = true
  is_closer (os_file i) = true
  is_closer (rotating i f) = true
  is_closer (rewriter i s p) = true
  is_closer (eazy w) = eazy_is_closer
  is_closer (web i w) = true
  is_closer (nop_closer w) = true
  is_closer (write_closer w c) = true
  is_closer _ = false

  -- The `Close` of an `eazy.Writer`, if it has one, would close what is below.
  unfoldable pub closing : Sink → List Handle
  closing stdout = std_out ∷ []
  closing stderr = std_err ∷ []
  closing (os_file i) = made i ∷ []
  closing (rotating i f) = made i ∷ []
  closing (rewriter i s p) = made i ∷ []
  closing (eazy w) = let below = closing w in if is_closer w then below else []
  closing (web i w) = let below = closing w in if is_closer w then below else []
  closing (write_closer w c) = closing c
  closing _ = []

  -- `writeCloser`
  unfoldable pub write_closer_of : Sink → Option Sink → Sink
  write_closer_of w none = if is_closer w then nop_closer w else w
  write_closer_of w (some c) = if same w c then w else write_closer w c

  abbrev pub Made : Type 0
  Made = World × Sink × Option Sink

  -- The object with the next number.
  unfoldable pub add_event : World → World
  add_event wd = record wd { next = suc wd.next; events = wd.events ++ (opened wd.next ∷ []) }

  unfoldable pub used_number : World → World
  used_number wd = record wd { next = suc wd.next }

  unfoldable pub eazy_on : World → Sink → Option Sink → Made
  eazy_on wd (rotating i f) c = (wd, rotating i (zip_rotation f), aliased_closer i c)
  eazy_on wd w c = (wd, eazy w, c)

  -- The functions of `wrap`.
  unfoldable pub wrapped : Url → Wrapper → World → Sink → Option Sink → Made
  wrapped u dump wd w c = (wd, dumper w, c)
  wrapped u lines wd w c =
      (wd, console (update_console_flags l_std_flags (query_get u.raw_query console_text)) w, c)
  wrapped u compressed wd w c = eazy_on wd w c
  wrapped u as_json wd w c = (wd, json w, c)
  wrapped u as_logfmt wd w c = (wd, logfmt w, c)
  wrapped u page wd w c = let p = web wd.next (write_closer_of w c) in (used_number wd, p, some p)
  wrapped u compressed_dump wd w c = (wd, eazy (eazy_dumper w), c)

  unfoldable pub wrap_all : Url → List Wrapper → World → Sink → Option Sink → Made
  wrap_all u [] wd w c = (wd, w, c)
  wrap_all u (f ∷ fs) wd w c = let (wd', w', c') = wrapped u f wd w c in wrap_all u fs wd' w' c'

  unfoldable pub file_opened : World → Option ℕ → World × Result Sink
  file_opened wd (some e) = (used_number wd, failed (open_failed e))
  file_opened wd none = (add_event wd, good (os_file wd.next))

  -- The six settings of `openwfile`.
  unfoldable pub rotation_of : Url → ℕ → Rotation
  rotation_of u fl =
      let get = query_get u.raw_query in
      let sizes = λ (v : Bytes). size_value (parse_bytes v) in
      let f1 =
        set_field (get (key (max_file ++ size_text))) sizes (λ x f. record f { max_file_size = x })
          (rotation_new u.path fl file_mode) in
      let f2 =
        set_field (get (key (max_file ++ age_text))) parse_duration
          (λ x f. record f { max_file_age = x }) f1 in
      let f3 =
        set_field (get (key (max_total ++ size_text))) sizes
          (λ x f. record f { max_total_size = x }) f2 in
      let f4 =
        set_field (get (key (max_total ++ age_text))) parse_duration
          (λ x f. record f { max_total_age = x }) f3 in
      let f5 =
        set_field (get (key (max_total ++ files_text))) atoi
          (λ x f. record f { max_total_files = x }) f4 in
      set_field (get (key (min_text ++ age_text))) parse_duration (λ x f. record f { min_age = x })
        f5

  unfoldable pub write_flags : Url → ℕ
  write_flags u = update_file_flags (bit_or (bit_or o_append o_wronly) o_create) u.raw_query

  unfoldable pub is_rotating : Url → Bool
  is_rotating u =
      is_pattern (path_base u.path) || not (is_empty (query_get u.raw_query rotating_text))

  unfoldable pub openwfile : World → Url → World × Result Sink
  openwfile wd u =
      if is_rotating u
      then (add_event wd, good (rotating wd.next (rotation_of u (write_flags u))))
      else file_opened wd (open_file wd.next u.path (write_flags u) file_mode)

  unfoldable pub openwurl : World → Url → World × Result Sink
  openwurl wd u =
      if same_text u.scheme file_text
      then openwfile wd u
      else if same_text u.scheme unix_text || same_text u.scheme unixgram_text
      then (add_event wd, good (rewriter wd.next u.scheme u.path))
      else (wd, failed (unsupported_scheme u.scheme))

  -- `w = f.(io.Writer); c, _ = f.(io.Closer)`
  unfoldable pub with_closer : World × Result Sink → World × Result (Sink × Option Sink)
  with_closer (wd, failed e) = (wd, failed e)
  with_closer (wd, good w) = (wd, good (w, if is_closer w then some w else none))

  abbrev stdout_text : Bytes
  stdout_text = b's' ∷ b't' ∷ b'd' ∷ b'o' ∷ b'u' ∷ b't' ∷ []

  abbrev stderr_text : Bytes
  stderr_text = b's' ∷ b't' ∷ b'd' ∷ b'e' ∷ b'r' ∷ b'r' ∷ []

  abbrev discard_text : Bytes
  discard_text = b'd' ∷ b'i' ∷ b's' ∷ b'c' ∷ b'a' ∷ b'r' ∷ b'd' ∷ []

  unfoldable pub openwriter : World → Url → Bytes → World × Result (Sink × Option Sink)
  openwriter wd u base =
      if same_text base (b'-' ∷ []) || same_text base stdout_text
      then (wd, good (stdout, none))
      else if is_empty base || same_text base stderr_text
      then (wd, good (stderr, none))
      else if same_text base discard_text
      then (wd, good (discard, none))
      else with_closer (if not (is_empty u.scheme) then openwurl wd u else openwfile wd u)

  unfoldable pub finished : Made → World × Result Sink
  finished (wd, w, c) = (wd, good (write_closer_of w c))

  -- The end of `openwc`, with the call of `writeCloser` in `openw`.
  unfoldable pub wrapped_up :
      Url → List Wrapper → World × Result (Sink × Option Sink) → World × Result Sink
  wrapped_up u fs (wd, failed e) = (wd, failed e)
  wrapped_up u fs (wd, good (w, c)) = finished (wrap_all u fs wd w c)

  unfoldable pub after_collecting : World → Url → Collected → World × Result Sink
  after_collecting wd u (collected fs base) = wrapped_up u fs (openwriter wd u base)
  after_collecting wd u (unsupported_format ext) = (wd, failed (unknown_format ext))
  after_collecting wd u out_of_fuel = (wd, failed endless)

  -- `openw` and `openwc`
  unfoldable pub openw : World → Url → World × Result Sink
  openw wd u = after_collecting wd u (formats writer_choice u.path)

  -- The `Close` of the writers of a `MultiWriter` that are closers.
  unfoldable pub close_sink : World → Sink → World
  close_sink wd w =
      if is_closer w then record wd { events = wd.events ++ map closed (closing w) } else wd

  unfoldable pub close_sinks : World → List Sink → World
  close_sinks wd [] = wd
  close_sinks wd (w ∷ ws) = close_sinks (close_sink wd w) ws

  -- One round of the loop of `OpenWriter`: its end, or the next round with one writer more.
  abbrev pub Opened : Type 0
  Opened = World × List Sink × Option FlagError

  unfoldable pub next_round :
      List Sink → World × Result Sink → (World → List Sink → Opened) → Opened
  next_round ws (wd, failed e) more = (wd, ws, some e)
  next_round ws (wd, good w) more = more wd (ws ++ (w ∷ []))

  unfoldable pub round : World → List Sink → Url ⊎ UrlError → (World → List Sink → Opened) → Opened
  round wd ws (inr e) more = (wd, ws, some (parse_failed e))
  round wd ws (inl u) more = next_round ws (openw wd u) more

  unfoldable pub open_loop : World → List Sink → List Bytes → Opened
  open_loop wd ws [] = (wd, ws, none)
  open_loop wd ws ([] ∷ ds) = open_loop wd ws ds
  open_loop wd ws ((x ∷ d) ∷ ds) =
      round wd ws (parse_url join url_parse (x ∷ d)) (λ wd' ws'. open_loop wd' ws' ds)

  -- What `OpenWriter` returns: the one writer that is a closer, or a `MultiWriter`.
  pub data Output : Type 0 where
    single : Sink → Output
    multi : List Sink → Output

  unfoldable pub output : List Sink → Output
  output (w ∷ []) = if is_closer w then single w else multi (w ∷ [])
  output ws = multi ws

  unfoldable pub returned : Opened → World × Result Output
  returned (wd, ws, some e) = (close_sinks wd ws, failed e)
  returned (wd, ws, none) = (wd, good (output ws))

  unfoldable pub open_writer : World → Bytes → World × Result Output
  open_writer wd dst = returned (open_loop wd [] (split b',' dst))

  -- The `Close` of what `OpenWriter` returned.
  unfoldable pub close_output : World → Output → World
  close_output wd (single w) = close_sink wd w
  close_output wd (multi ws) = close_sinks wd ws
