-- ===== src/Rotating.antt =====
-- rotating/file.go: a writer that goes on to a new file and removes the old ones.
pub mod Current
pub mod Names
pub mod Writing
pub mod Limit
pub mod Before
pub mod Old
mod Runs
use tlog.Base.{
  ℕ, zero, suc, ◌+◌, ◌-◌, ◌==◌, leb, ltb, if◌then◌else◌, Bool, true, false, ◌&&◌, ◌||◌, not,
}
use tlog.Base.{
  Option, none, some, List, [], ◌∷◌, ◌++◌, ◌⊎◌, inl, inr, length, get_elem?, take, drop,
}
use tlog.Base.Bits.{Bytes}
use tlog.Base.Outcome.{Outcome, ok, panic}

-- `a <= b` of Go's strings
unfoldable pub bytes_leb : Bytes → Bytes → Bool
bytes_leb [] b = true
bytes_leb (x ∷ a) [] = false
bytes_leb (x ∷ a) (y ∷ b) = ltb x y || (x == y && bytes_leb a b)

unfoldable pub bytes_eq : Bytes → Bytes → Bool
bytes_eq [] [] = true
bytes_eq [] (y ∷ b) = false
bytes_eq (x ∷ a) [] = false
bytes_eq (x ∷ a) (y ∷ b) = x == y && bytes_eq a b

-- `strings.HasPrefix`, and `strings.HasSuffix` by the rest of the string.
unfoldable pub has_prefix : Bytes → Bytes → Bool
has_prefix b [] = true
has_prefix [] (x ∷ p) = false
has_prefix (y ∷ b) (x ∷ p) = x == y && has_prefix b p

unfoldable pub has_suffix : Bytes → Bytes → Bool
has_suffix b s = leb (length s) (length b) && bytes_eq (drop (length b - length s) b) s

-- The limits of a `File`; times are nanoseconds, and 0 is no limit.
pub record Limits : Type 0 where
  pub max_file_size : ℕ
  pub max_file_age : ℕ
  pub min_age : ℕ
  pub max_total_size : ℕ
  pub max_total_age : ℕ
  pub max_total_files : ℕ

-- What `fstat` says of a file: its size, and the time of its inode where the system has one.
pub record Info : Type 0 where
  pub size : ℕ
  pub ctime : Option ℕ

-- `now.Sub(ctime(inf, time.Time{})) <= min`: with no time the age is the largest of all.
unfoldable pub is_young : ℕ → Info → ℕ → Bool
is_young now inf min = elim inf.ctime [ none ↦ false | some c ↦ leb now (c + min) ]

-- `now.Sub(ctime(inf, now)) > max`: with no time the age is 0.
unfoldable pub is_old : ℕ → Info → ℕ → Bool
is_old now inf max = elim inf.ctime [ none ↦ false | some c ↦ ltb (c + max) now ]

-- `for p > 0 && files[p-1] >= base { p-- }`; `files[p-1]` panics out of range.
unfoldable pub before : Bytes → List Bytes → ℕ → Outcome ℕ
before base files zero = ok 0
before base files (suc prev) = elim (get_elem? files prev) [
  | none ↦ panic
  | some n ↦ if bytes_leb base n then before base files prev else ok (suc prev)
]

-- What `filesToRemove` returns: the files, or the one for which `fstat` failed.
pub data Removal : Type 0 where
  remove_up_to : ℕ → Removal
  stat_failed : Bytes → Removal

module _ (l : Limits) (stat : Bytes → Option Info) (now : ℕ) where
  -- The tests of the loop of `filesToRemove` for `files[prev]`, with the size that includes it: whether the
  -- loop goes on.
  unfoldable pub goes_on : ℕ → ℕ → Info → ℕ → Bool
  goes_on count prev inf size =
      if not (l.max_total_size == 0) && ltb l.max_total_size size
      then false
      else if not (l.min_age == 0) && is_young now inf l.min_age
      then true
      else if not (l.max_total_age == 0) && is_old now inf l.max_total_age
      then false
      else if not (l.max_total_files == 0) && ltb l.max_total_files (count - prev + 1)
      then false
      else true

  -- The loop of `filesToRemove`, over the files before position `p`, newest first.
  unfoldable pub removal_loop : List Bytes → ℕ → ℕ → Outcome Removal
  removal_loop files zero size = ok (remove_up_to 0)
  removal_loop files (suc prev) size = elim (get_elem? files prev) [
    | none ↦ panic
    | some n ↦ elim (stat n) [
      | none ↦ ok (stat_failed n)
      | some inf ↦
          let rest = removal_loop files prev (size + inf.size) in
          if goes_on (length files) prev inf (size + inf.size)
          then rest
          else ok (remove_up_to (suc prev))
    ]
  ]

  -- `filesToRemove`: the loop runs over `files[:p]`.
  unfoldable pub files_to_remove : Bytes → List Bytes → Outcome (List Bytes ⊎ Bytes)
  files_to_remove base files = elim (before base files (length files)) [
    | panic ↦ panic
    | ok p ↦ elim (removal_loop (take p files) p 0) [
      | panic ↦ panic
      | ok (remove_up_to q) ↦ ok (inl (take q (take p files)))
      | ok (stat_failed n) ↦ ok (inr n)
    ]
  ]
