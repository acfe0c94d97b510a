-- ===== src/Rotating/Runs.antt =====
-- Runs of rotating/file.go, and the theorems about it at concrete inputs.
use tlog.Base.{◌<◌}
use tlog.Base.{ℕ, zero, suc, ◌+◌, ◌-◌, ◌%◌, ◌≤◌, ◌≡◌, ◌≢◌, refl, arith}
use tlog.Base.{true, false, Option, none, some, List, [], ◌∷◌, inl}
use tlog.Base.{length, get_elem?, take}
use tlog.Base.Bits.{Bytes}
use tlog.Base.Outcome.{ok, panic}
use tlog.Rotating.{
  bytes_leb, bytes_eq, has_prefix, has_suffix, Limits, Info, is_young, is_old, before, goes_on,
  removal_loop,
}
use tlog.Rotating.{files_to_remove}
use tlog.Rotating.Current.{
  Format, Numbers, last_index, later_of, find_pattern_loop, find_pattern, widen, extension,
}
use tlog.Rotating.Current.{split_base, file_name, parse_name, counted, max_num}
use tlog.Rotating.Current.{is_pattern}
use tlog.Rotating.Names.{Reads, max_num-fresh}
use tlog.Rotating.Old.{Parted, files_to_remove-Parted}
use tlog.Rotating.Writing.{
  Plan, Env, File, file_write, rotate, rotate_from, planned, numbered, open_next, opened, close_old,
}
use tlog.Rotating.Writing.{
  plan_of, needs_rotation, is_open, put, put_rotated, grown, has_total_limit,
}
use tlog.Rotating.Limit.{file_writes, file_writes-bound}

-- `a.XXX.b` and `ab.log`
splits_a_pattern :
    split_base (b'a' ∷ b'.' ∷ b'X' ∷ b'X' ∷ b'X' ∷ b'X' ∷ b'.' ∷ b'b' ∷ [])
    ≡ (b'a' ∷ b'.' ∷ [], b'.' ∷ b'b' ∷ [], record { width = 4; letter = b'X' })
unfolding split_base find_pattern find_pattern_loop later_of last_index has_prefix widen
splits_a_pattern = refl

splits_an_extension :
    split_base (b'a' ∷ b'b' ∷ b'.' ∷ b'l' ∷ b'o' ∷ b'g' ∷ [])
    ≡ (b'a' ∷ b'b' ∷ [], b'.' ∷ b'l' ∷ b'o' ∷ b'g' ∷ [], record { width = 4; letter = b'X' })
unfolding split_base find_pattern find_pattern_loop later_of last_index has_prefix extension
splits_an_extension = refl

-- One decimal digit.
abbrev digits : Numbers
digits = record {
  print = λ f n. (b'0' + n % 10) ∷ [];
  scan = λ f b. elim b [ [] ↦ none | x ∷ _ ↦ some (x - b'0') ];
}

abbrev one_digit : Format
one_digit = record { width = 1; letter = b'd' }

abbrev log_suffix : Bytes
log_suffix = b'.' ∷ b'l' ∷ []

three-Reads : Reads digits one_digit 3
three-Reads = record { back = refl; apart = λ e. ground (arith, e) }

-- A prefix and a suffix that overlap in the name of a file.
overlap_panics : parse_name digits (b'a' ∷ []) (b'a' ∷ []) (b'a' ∷ []) one_digit ≡ panic
unfolding parse_name has_prefix has_suffix bytes_eq
overlap_panics = refl

abbrev entries : List Bytes
entries = (b'a' ∷ b'1' ∷ b'.' ∷ b'l' ∷ []) ∷ (b'a' ∷ b'2' ∷ b'.' ∷ b'l' ∷ []) ∷ (b'z' ∷ []) ∷ []

max_num-fresh_example :
    (b'a' ∷ b'2' ∷ b'.' ∷ b'l' ∷ []) ≢ file_name digits (b'a' ∷ []) log_suffix one_digit 3
unfolding max_num counted parse_name has_prefix has_suffix bytes_eq
max_num-fresh_example =
    max_num-fresh digits one_digit entries (b'a' ∷ []) log_suffix 2 1
      (b'a' ∷ b'2' ∷ b'.' ∷ b'l' ∷ []) refl three-Reads refl

abbrev limits : Limits
limits = record {
  max_file_size = 4;
  max_file_age = 0;
  min_age = 5;
  max_total_size = 0;
  max_total_age = 0;
  max_total_files = 2;
}

-- Every file has 10 bytes and is of time 0.
abbrev all_old : Bytes → Option Info
all_old n = some (record { size = 10; ctime = some 0 })

removes_the_first :
    files_to_remove limits all_old 100 (b'3' ∷ []) ((b'1' ∷ []) ∷ (b'2' ∷ []) ∷ (b'3' ∷ []) ∷ [])
    ≡ ok (inl ((b'1' ∷ []) ∷ []))
unfolding files_to_remove before bytes_leb removal_loop goes_on is_young is_old
removes_the_first = refl

abbrev two_files : List Bytes
two_files = (b'1' ∷ []) ∷ (b'2' ∷ []) ∷ []

two_files-Sorted :
    (i j : ℕ) (a b : Bytes)
    → i ≤ j
    → get_elem? two_files i ≡ some a
    → get_elem? two_files j ≡ some b
    → bytes_leb a b ≡ true
unfolding bytes_leb
two_files-Sorted zero zero a b h e f =
    let ea : b'1' ∷ [] ≡ a = cc e in let eb : b'1' ∷ [] ≡ b = cc f in rw (← ea, ← eb) refl
two_files-Sorted zero (suc zero) a b h e f =
    let ea : b'1' ∷ [] ≡ a = cc e in let eb : b'2' ∷ [] ≡ b = cc f in rw (← ea, ← eb) refl
two_files-Sorted zero (suc (suc j)) a b h e f = ground (arith, f)
two_files-Sorted (suc i) zero a b h e f = absurd (omega arith)
two_files-Sorted (suc zero) (suc zero) a b h e f =
    let ea : b'2' ∷ [] ≡ a = cc e in let eb : b'2' ∷ [] ≡ b = cc f in rw (← ea, ← eb) refl
two_files-Sorted (suc (suc i)) (suc zero) a b h e f = absurd (omega arith)
two_files-Sorted (suc i) (suc (suc j)) a b h e f = ground (arith, f)

files_to_remove-Parted_example :
    (p q : ℕ) × (p ≤ 2)
    × ((i : ℕ) (a : Bytes)
        → get_elem? two_files i ≡ some a
        → i < p
        → bytes_leb (b'2' ∷ []) a ≡ false)
    × ((i : ℕ) (a : Bytes)
        → get_elem? two_files i ≡ some a
        → p ≤ i
        → bytes_leb (b'2' ∷ []) a ≡ true)
    × (files_to_remove limits all_old 100 (b'2' ∷ []) two_files
        ≡ ok (inl (take q (take p two_files))))
    × Parted limits all_old 100 (take p two_files) p q
files_to_remove-Parted_example =
    files_to_remove-Parted limits all_old 100 (b'2' ∷ []) two_files (λ j n e s. ground (arith, s))
      two_files-Sorted

-- A world that counts the opened files, where a file takes everything and a name is its own directory.
abbrev counting_env : Env
counting_env = record {
  World = ℕ;
  Ref = ℕ;
  now = λ wd. wd;
  write = λ wd h p. (wd, length p, none);
  open_file = λ wd n. (suc wd, some wd, none);
  close = λ wd h. (wd, none);
  read_dir = λ wd n. inl entries;
  stat = λ wd n. none;
  remove = λ wd n. (wd, none);
  link = λ wd b n. wd;
  spawn_removal = λ wd pl b t. wd;
  join = λ d n. n;
  dir_of = λ n. [];
  base_of = λ n. n;
}

abbrev new_file : File ℕ
new_file = record {
  w = none;
  name = b'a' ∷ b'd' ∷ b'd' ∷ b'd' ∷ b'.' ∷ b'l' ∷ [];
  current = [];
  plan = none;
  num = 0;
  size = 0;
  start = 0;
}

abbrev third_plan : Plan
third_plan = record {
  dir = [];
  pref = b'a' ∷ [];
  suff = log_suffix;
  format = record { width = 3; letter = b'd' };
}

abbrev third_file : File ℕ
third_file = record new_file {
  w = some 7;
  current = b'a' ∷ b'3' ∷ b'.' ∷ b'l' ∷ [];
  plan = some third_plan;
  num = 3;
  size = 2;
  start = 8;
}

opens_the_third :
    file_write counting_env digits limits 7 new_file (1 ∷ 2 ∷ []) ≡ ok (8, third_file, 2, none)
unfolding file_write needs_rotation is_open rotate rotate_from plan_of split_base put_rotated
    planned numbered max_num counted parse_name has_prefix find_pattern find_pattern_loop later_of
    last_index widen has_suffix bytes_eq open_next opened put extension file_name close_old grown
    has_total_limit
opens_the_third = refl

abbrev fourth_file : File ℕ
fourth_file = record third_file {
  w = some 8;
  current = b'a' ∷ b'4' ∷ b'.' ∷ b'l' ∷ [];
  num = 4;
  size = 3;
  start = 9;
}

goes_on_to_the_fourth :
    file_write counting_env digits limits 8 third_file (1 ∷ 2 ∷ 3 ∷ [])
    ≡ ok (9, fourth_file, 3, none)
unfolding file_write needs_rotation is_open rotate rotate_from open_next close_old opened file_name
    has_total_limit put_rotated put grown
goes_on_to_the_fourth = refl

one_write :
    file_writes counting_env digits limits 8 third_file ((1 ∷ 2 ∷ 3 ∷ []) ∷ [])
    ≡ ok (9, fourth_file)
unfolding file_writes
one_write = rw goes_on_to_the_fourth refl

file_writes-bound_example : 3 ≤ 4
file_writes-bound_example =
    file_writes-bound counting_env digits limits ((1 ∷ 2 ∷ 3 ∷ []) ∷ []) 8 9 third_file fourth_file
      4 (λ e. ground (arith, e)) (λ wd h p. omega arith) (omega arith) (omega arith) (omega arith)
      one_write

knows_a_pattern : is_pattern (b'a' ∷ b'd' ∷ b'd' ∷ b'd' ∷ []) ≡ true
unfolding is_pattern find_pattern find_pattern_loop later_of last_index has_prefix
knows_a_pattern = refl
