-- ===== src/Flags/Paths.antt =====
-- ext/tlflag/flag.go: the addresses, and the formats that the extensions of a path ask for.
pub mod Formats
mod Runs
use tlog.Base.{ℕ, zero, suc, ◌-◌, ◌==◌, if◌then◌else◌, Bool, true, false, ◌&&◌, ◌||◌, not}
use tlog.Base.{List, [], ◌∷◌, ◌++◌, ◌⊎◌, inl, inr, length, take}
use tlog.Base.Bits.{Bytes}
use tlog.Rotating.{has_suffix}
use tlog.Verbosity.{same_text}

-- The fields of `url.URL` that are read.
pub record Url : Type 0 where
  pub scheme : Bytes
  pub opaque : Bytes
  pub host : Bytes
  pub path : Bytes
  pub raw_query : Bytes

unfoldable pub is_empty : Bytes → Bool
is_empty [] = true
is_empty (c ∷ s) = false

pub data UrlError : Type 0 where
  bad_url : ℕ → UrlError
  unexpected_opaque_url : UrlError

abbrev pub file_text : Bytes
file_text = b'f' ∷ b'i' ∷ b'l' ∷ b'e' ∷ []

abbrev pub unix_text : Bytes
unix_text = b'u' ∷ b'n' ∷ b'i' ∷ b'x' ∷ []

abbrev pub unixgram_text : Bytes
unixgram_text = b'u' ∷ b'n' ∷ b'i' ∷ b'x' ∷ b'g' ∷ b'r' ∷ b'a' ∷ b'm' ∷ []

abbrev pub pipe_text : Bytes
pipe_text = b'p' ∷ b'i' ∷ b'p' ∷ b'e' ∷ []

abbrev pub fifo_text : Bytes
fifo_text = b'f' ∷ b'i' ∷ b'f' ∷ b'o' ∷ []

unfoldable pub is_local : Bytes → Bool
is_local scheme =
    same_text scheme file_text
    || same_text scheme unix_text
    || same_text scheme unixgram_text
    || same_text scheme pipe_text
    || same_text scheme fifo_text

-- `ParseURL`, with `url.Parse` and `path.Join`.
module _ (join : Bytes → Bytes → Bytes) where
  unfoldable pub parsed : Url ⊎ ℕ → Url ⊎ UrlError
  parsed (inr e) = inr (bad_url e)
  parsed (inl u) =
      if not (is_empty u.opaque)
      then inr unexpected_opaque_url
      else if is_local u.scheme && not (is_empty u.host)
      then inl (record u { path = join u.host u.path; host = [] })
      else inl u

  unfoldable pub parse_url : (Bytes → Url ⊎ ℕ) → Bytes → Url ⊎ UrlError
  parse_url parse d = parsed (parse d)

unfoldable pub has_slash : Bytes → Bool
has_slash [] = false
has_slash (c ∷ s) = c == b'/' || has_slash s

-- `filepath.Ext`
unfoldable pub path_ext : Bytes → Bytes
path_ext [] = []
path_ext (c ∷ s) =
    let e = path_ext s in
    if not (is_empty e) then e else if c == b'.' && not (has_slash s) then c ∷ s else []

-- `strings.TrimSuffix`
unfoldable pub trim_suffix : Bytes → Bytes → Bytes
trim_suffix s x = if has_suffix s x then take (length s - length x) s else s

-- `filepath.Base`: the slashes at the end go away, then all up to the last slash.
unfoldable pub without_slashes : Bytes → Bytes
without_slashes [] = []
without_slashes (c ∷ s) = let r = without_slashes s in if is_empty r && c == b'/' then [] else c ∷ r

unfoldable pub after_slash : Bytes → Bytes
after_slash [] = []
after_slash (c ∷ s) =
    let r = after_slash s in if has_slash s then r else if c == b'/' then s else c ∷ s

unfoldable pub path_base : Bytes → Bytes
path_base [] = b'.' ∷ []
path_base (c ∷ s) =
    let r = after_slash (without_slashes (c ∷ s)) in if is_empty r then b'/' ∷ [] else r

-- The functions that `openwc` and `openrc` collect in `wrap`, named for what they put on a stream.
pub data Wrapper : Type 0 where
  dump lines compressed as_json as_logfmt page compressed_dump : Wrapper

-- What an extension asks for: nothing more, one format, one format and another look, or an error.
pub data Choice : Type 0 where
  plain : Choice
  last : Wrapper → Choice
  again : Wrapper → Choice
  unsupported : Choice

unfoldable pub is_one_of : Bytes → List Bytes → Bool
is_one_of s [] = false
is_one_of s (t ∷ ts) = same_text s t || is_one_of s ts

abbrev tlog_exts : List Bytes
tlog_exts = (b'.' ∷ b't' ∷ b'l' ∷ b'o' ∷ b'g' ∷ []) ∷ (b'.' ∷ b't' ∷ b'l' ∷ []) ∷ []

abbrev dump_exts : List Bytes
dump_exts =
    (b'.' ∷ b't' ∷ b'l' ∷ b'o' ∷ b'g' ∷ b'd' ∷ b'u' ∷ b'm' ∷ b'p' ∷ [])
    ∷ (b'.' ∷ b't' ∷ b'l' ∷ b'd' ∷ b'u' ∷ b'm' ∷ b'p' ∷ [])
    ∷ []

abbrev log_exts : List Bytes
log_exts = (b'.' ∷ b'l' ∷ b'o' ∷ b'g' ∷ []) ∷ [] ∷ []

abbrev pub tlz_ext : Bytes
tlz_ext = b'.' ∷ b't' ∷ b'l' ∷ b'z' ∷ []

-- `ext == ".eazy" || ext == ".ez"`
abbrev pub eazy_ext : Bytes
eazy_ext = b'.' ∷ b'e' ∷ b'a' ∷ b'z' ∷ b'y' ∷ []

abbrev pub ez_ext : Bytes
ez_ext = b'.' ∷ b'e' ∷ b'z' ∷ []

abbrev eazy_exts : List Bytes
eazy_exts = eazy_ext ∷ ez_ext ∷ []

abbrev eazy_dump_exts : List Bytes
eazy_dump_exts =
    (b'.' ∷ b'e' ∷ b'a' ∷ b'z' ∷ b'y' ∷ b'd' ∷ b'u' ∷ b'm' ∷ b'p' ∷ [])
    ∷ (b'.' ∷ b'e' ∷ b'z' ∷ b'd' ∷ b'u' ∷ b'm' ∷ b'p' ∷ [])
    ∷ []

-- The `switch ext` of `openwc`.
unfoldable pub writer_choice : Bytes → Choice
writer_choice ext =
    if is_one_of ext tlog_exts
    then plain
    else if is_one_of ext dump_exts
    then last dump
    else if is_one_of ext log_exts
    then last lines
    else if same_text ext tlz_ext
    then last compressed
    else if is_one_of ext eazy_exts
    then again compressed
    else if same_text ext (b'.' ∷ b'j' ∷ b's' ∷ b'o' ∷ b'n' ∷ [])
    then last as_json
    else if same_text ext (b'.' ∷ b'l' ∷ b'o' ∷ b'g' ∷ b'f' ∷ b'm' ∷ b't' ∷ [])
    then last as_logfmt
    else if same_text ext (b'.' ∷ b'h' ∷ b't' ∷ b'm' ∷ b'l' ∷ [])
    then last page
    else if is_one_of ext eazy_dump_exts
    then last compressed_dump
    else unsupported

-- The `switch ext` of `openrc`.
unfoldable pub reader_choice : Bytes → Choice
reader_choice ext =
    if is_one_of ext tlog_exts || is_empty ext
    then plain
    else if same_text ext tlz_ext
    then last compressed
    else if is_one_of ext eazy_exts
    then again compressed
    else unsupported

-- What the loop at `more` leaves: the formats in `wrap` and the rest of the path, or the extension that it
-- does not know.
pub data Collected : Type 0 where
  collected : List Wrapper → Bytes → Collected
  unsupported_format : Bytes → Collected
  out_of_fuel : Collected

unfoldable pub chosen :
    List Wrapper → Bytes → Bytes → Choice → (List Wrapper → Collected) → Collected
chosen wrap base ext plain more = collected wrap base
chosen wrap base ext (last f) more = collected (wrap ++ (f ∷ [])) base
chosen wrap base ext (again f) more = more (wrap ++ (f ∷ []))
chosen wrap base ext unsupported more = unsupported_format ext

module _ (choice : Bytes → Choice) where
  -- The loop on fuel for its jumps to `more`.
  unfoldable pub collect : ℕ → List Wrapper → Bytes → Collected
  collect zero wrap base = out_of_fuel
  collect (suc fuel) wrap base =
      let ext = path_ext base in
      let base' = trim_suffix base ext in
      chosen wrap base' ext (choice ext) (λ wrap'. collect fuel wrap' base')

  unfoldable pub formats : Bytes → Collected
  formats base = collect (suc (length base)) [] base
