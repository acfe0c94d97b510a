-- ===== src/Rotating/Current.antt =====
-- rotating/file.go: the names of the files, and `Write` and `rotate` on the file that is written to.
use tlog.Base.{Bool, true, false}
use tlog.Base.{ℕ, zero, suc, ◌+◌, ◌-◌, ◌==◌, ltb, if◌then◌else◌, ◌||◌, not}
use tlog.Base.{Option, none, some, List, [], ◌∷◌, ◌++◌, length, get_elem?, take, drop}
use tlog.Base.Bits.{Bytes}
use tlog.Base.Outcome.{Outcome, ok, panic}
use tlog.Rotating.{bytes_eq, has_prefix, has_suffix}

-- A format `%0<width><letter>` for the number of a file.
pub record Format : Type 0 where
  pub width : ℕ
  pub letter : ℕ

-- `strings.LastIndex` for a string that is not empty.
unfoldable pub last_index : Bytes → Bytes → Option ℕ
last_index [] pat = none
last_index (x ∷ s) pat = elim (last_index s pat) [
  | some k ↦ some (suc k)
  | none ↦ if has_prefix (x ∷ s) pat then some 0 else none
]

abbrev pub patterns : List Bytes
patterns = (b'x' ∷ b'x' ∷ b'x' ∷ []) ∷ (b'X' ∷ b'X' ∷ b'X' ∷ []) ∷ (b'd' ∷ b'd' ∷ b'd' ∷ []) ∷ []

-- `findPattern`: the pattern that stands last, and its position.
unfoldable pub later_of : Option (Bytes × ℕ) → Bytes → Option ℕ → Option (Bytes × ℕ)
later_of best pat none = best
later_of none pat (some p) = some (pat, p)
later_of (some (b, pos)) pat (some p) = if ltb pos p then some (pat, p) else some (b, pos)

unfoldable pub find_pattern_loop : Option (Bytes × ℕ) → List Bytes → Bytes → Option (Bytes × ℕ)
find_pattern_loop best [] name = best
find_pattern_loop best (pat ∷ pats) name =
    find_pattern_loop (later_of best pat (last_index name pat)) pats name

unfoldable pub find_pattern : Bytes → Option (Bytes × ℕ)
find_pattern name = find_pattern_loop none patterns name

-- `IsPattern`
unfoldable pub is_pattern : Bytes → Bool
is_pattern name = elim (find_pattern name) [ none ↦ false | some r ↦ true ]

-- `for pos > 0 && base[pos-1] == pattern[0] { pos--; l++ }`
unfoldable pub widen : Bytes → ℕ → ℕ → ℕ → ℕ × ℕ
widen base c zero l = (0, l)
widen base c (suc pos) l = elim (get_elem? base pos) [
  | none ↦ (suc pos, l)
  | some x ↦ if x == c then widen base c pos (suc l) else (suc pos, l)
]

-- `filepath.Ext` of a name with no slash.
unfoldable pub extension : Bytes → Bytes
extension base = elim (last_index base (b'.' ∷ [])) [ none ↦ [] | some i ↦ drop i base ]

-- `splitPattern` on the last element of the name: the prefix, the suffix and the format.
unfoldable pub split_base : Bytes → Bytes × Bytes × Format
split_base base = elim (find_pattern base) [
  | none ↦
      let suff = extension base in
      (take (length base - length suff) base, suff, record { width = 4; letter = b'X' })
  | some r ↦
      let c : ℕ = elim (get_elem? r.0 0) [ none ↦ 0 | some x ↦ x ] in
      let (pos, l) = widen base c r.1 (length r.0) in
      (take pos base, drop (pos + l) base, record { width = l; letter = c })
]

abbrev pub latest : Bytes
latest = b'L' ∷ b'A' ∷ b'T' ∷ b'E' ∷ b'S' ∷ b'T' ∷ []

-- `fmt.Sprintf` and `fmt.Sscanf` with such a format.
pub record Numbers : Type 0 where
  pub print : Format → ℕ → Bytes
  pub scan : Format → Bytes → Option ℕ

module _ (nums : Numbers) where
  open nums use {print, scan}

  unfoldable pub file_name : Bytes → Bytes → Format → ℕ → Bytes
  file_name pref suff format num = pref ++ (print format num ++ suff)

  -- `parseName`: the slice between prefix and suffix panics where they overlap.
  unfoldable pub parse_name : Bytes → Bytes → Bytes → Format → Outcome (Option ℕ)
  parse_name n pref suff format =
      if not (has_prefix n pref) || not (has_suffix n suff) || bytes_eq n (pref ++ (latest ++ suff))
      then ok none
      else if ltb (length n - length suff) (length pref)
      then panic
      else ok (scan format (take (length n - length suff - length pref) (drop (length pref) n)))

  -- `findMaxNum` on the entries of the directory: what one of them does to the number, and all of them.
  unfoldable pub counted : Outcome (Option ℕ) → ℕ → (ℕ → Outcome ℕ) → Outcome ℕ
  counted panic num next = panic
  counted (ok none) num next = next num
  counted (ok (some m)) num next = next (if ltb num m then m else num)

  unfoldable pub max_num : Bytes → Bytes → Format → List Bytes → ℕ → Outcome ℕ
  max_num pref suff format [] num = ok num
  max_num pref suff format (n ∷ ns) num =
      counted (parse_name n pref suff format) num (max_num pref suff format ns)

  -- `matchingFiles`
  unfoldable pub matching_files : List Bytes → Bytes → Bytes → Format → Outcome (List Bytes)
  matching_files [] pref suff format = ok []
  matching_files (n ∷ ns) pref suff format = elim (parse_name n pref suff format) [
    | panic ↦ panic
    | ok none ↦ matching_files ns pref suff format
    | ok (some m) ↦ elim (matching_files ns pref suff format) [ panic ↦ panic | ok r ↦ ok (n ∷ r) ]
  ]
