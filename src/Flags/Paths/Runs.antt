-- ===== src/Flags/Paths/Runs.antt =====
-- The formats of ext/tlflag/flag.go on concrete paths.
use tlog.Base.{◌≡◌, ◌≢◌, refl, [], ◌∷◌, ◌++◌, replicate}
use tlog.Base.Bits.{Bytes}
use tlog.Rotating.{bytes_eq, has_suffix}
use tlog.Verbosity.{same_text}
use tlog.Flags.Paths.{
  is_empty, has_slash, path_ext, trim_suffix, without_slashes, after_slash, path_base, compressed,
  as_json, collected, unsupported_format, out_of_fuel, chosen, collect, formats, writer_choice,
  reader_choice, is_one_of,
}
use tlog.Flags.Paths.Formats.{formats-ends, zipped, formats-zipped}

abbrev json : Bytes
json = b'j' ∷ b's' ∷ b'o' ∷ b'n' ∷ []

-- a/b.json.ez.ez
abbrev long_path : Bytes
long_path =
    b'a' ∷ b'/' ∷ b'b' ∷ b'.' ∷ b'j' ∷ b's' ∷ b'o' ∷ b'n' ∷ b'.' ∷ b'e' ∷ b'z' ∷ b'.' ∷ b'e' ∷ b'z'
    ∷ []

formats-ends_example :
    (formats writer_choice long_path ≢ out_of_fuel)
    × (formats reader_choice long_path ≢ out_of_fuel)
formats-ends_example = formats-ends long_path

formats-zipped_example :
    formats writer_choice (zipped 2 ((b'a' ∷ b'/' ∷ b'b' ∷ []) ++ (b'.' ∷ json)))
    ≡ collected (replicate 2 compressed ++ (as_json ∷ [])) (b'a' ∷ b'/' ∷ b'b' ∷ [])
formats-zipped_example =
    formats-zipped 2 (b'a' ∷ b'/' ∷ b'b' ∷ []) json as_json
      ((refl, refl), ((refl, refl), ((refl, refl), ((refl, refl), tt))))
      (unfold writer_choice is_one_of same_text in refl)

json_ez_ez :
    formats writer_choice long_path
    ≡ collected (compressed ∷ compressed ∷ as_json ∷ []) (b'a' ∷ b'/' ∷ b'b' ∷ [])
unfolding formats collect chosen path_ext trim_suffix has_suffix bytes_eq is_empty has_slash
    writer_choice is_one_of same_text
json_ez_ez = refl

-- A reader knows no json.
long_path_read : formats reader_choice long_path ≡ unsupported_format (b'.' ∷ json)
unfolding formats collect chosen path_ext trim_suffix has_suffix bytes_eq is_empty has_slash
    reader_choice is_one_of same_text
long_path_read = refl

base_of_path : path_base (b'a' ∷ b'/' ∷ b'b' ∷ b'/' ∷ []) ≡ b'b' ∷ []
unfolding path_base without_slashes after_slash is_empty has_slash
base_of_path = refl
