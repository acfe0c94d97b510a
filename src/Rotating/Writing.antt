-- ===== src/Rotating/Writing.antt =====
-- rotating/file.go: `Write`, `rotate`, `Close` and `removeOld`.
use tlog.Base.{ℕ, suc, ◌+◌, ◌==◌, ltb, if◌then◌else◌, Bool, true, false, ◌&&◌, ◌||◌, not}
use tlog.Base.{Option, none, some, List, [], ◌∷◌, ◌++◌, ◌⊎◌, inl, inr, length}
use tlog.Base.Bits.{Bytes}
use tlog.Base.Outcome.{Outcome, ok, panic}
use tlog.Rotating.{Limits, Info, files_to_remove}
use tlog.Rotating.Current.{Format, Numbers, split_base, file_name, max_num, matching_files, latest}

-- `dir`, `pref`, `suff` and `format` of a `File`.
pub record Plan : Type 0 where
  pub dir : Bytes
  pub pref : Bytes
  pub suff : Bytes
  pub format : Format

-- The file system, the clock and the goroutines, and `filepath`. `open_file` returns the writer that the
-- interface holds, which may be there next to an error; `close` does nothing on a writer that is no closer.
pub record Env : Type 1 where
  pub World : Type 0
  pub Ref : Type 0
  pub now : World → ℕ
  pub write : World → Ref → Bytes → World × ℕ × Option ℕ
  pub open_file : World → Bytes → World × Option Ref × Option ℕ
  pub close : World → Ref → World × Option ℕ
  pub read_dir : World → Bytes → List Bytes ⊎ ℕ
  pub stat : World → Bytes → Option Info
  pub remove : World → Bytes → World × Option ℕ
  pub link : World → Bytes → Bytes → World
  pub spawn_removal : World → Plan → Bytes → ℕ → World
  pub join : Bytes → Bytes → Bytes
  pub dir_of : Bytes → Bytes
  pub base_of : Bytes → Bytes

-- `File`, less its limits; `plan` is `none` where `format` is the empty string.
pub record File (Ref : Type 0) : Type 0 where
  pub w : Option Ref
  pub name : Bytes
  pub current : Bytes
  pub plan : Option Plan
  pub num : ℕ
  pub size : ℕ
  pub start : ℕ

pub data RotateError : Type 0 where
  find_failed : ℕ → RotateError
  open_failed : ℕ → RotateError

pub data WriteError : Type 0 where
  rotate_failed : RotateError → WriteError
  write_failed : ℕ → WriteError

module _ (env : Env) (nums : Numbers) (l : Limits) where
  open env use {
    World, Ref, now, write, open_file, close, read_dir, stat, remove, link, spawn_removal, join,
  }

  abbrev pub Rotated : Type 0
  Rotated = World × File Ref × Option RotateError

  -- `if c, ok := f.w.(io.Closer); ok { _ = c.Close() }`
  unfoldable pub close_old : World → Option Ref → World
  close_old wd none = wd
  close_old wd (some h) = (close wd h).0

  unfoldable pub has_total_limit : Bool
  has_total_limit =
      not (l.max_total_size == 0) || not (l.max_total_age == 0) || not (l.max_total_files == 0)

  -- `rotate` from `f.OpenFile` on, with what it returned.
  unfoldable pub opened : Plan → Bytes → Bytes → File Ref → World × Option Ref × Option ℕ → Rotated
  opened pl base fname f (wd, w, some e) = (wd, record f { w = w }, some (open_failed e))
  opened pl base fname f (wd, w, none) =
      let t = now wd in
      let wd' = link wd base (join pl.dir (pl.pref ++ (latest ++ pl.suff))) in
      (
        if has_total_limit then spawn_removal wd' pl base t else wd',
        record f { w = w; current = fname; size = 0; start = t },
        none,
      )

  -- `rotate` once the plan is there: the next number, and its file.
  unfoldable pub open_next : World → Plan → File Ref → Rotated
  open_next wd pl f =
      let num = suc f.num in
      let base = file_name nums pl.pref pl.suff pl.format num in
      let fname = join pl.dir base in
      opened pl base fname (record f { num = num }) (open_file (close_old wd f.w) fname)

  -- The number that `findMaxNum` found, and the rest of `rotate`.
  unfoldable pub numbered : World → Plan → File Ref → Outcome ℕ → Outcome Rotated
  numbered wd pl f panic = panic
  numbered wd pl f (ok top) = ok (open_next wd pl (record f { plan = some pl; num = top }))

  -- The first call of `rotate` makes the plan and looks for the last number. Where the directory cannot be
  -- read the plan stays, with the number 0.
  unfoldable pub planned : World → Plan → File Ref → List Bytes ⊎ ℕ → Outcome Rotated
  planned wd pl f (inr e) = ok (wd, record f { plan = some pl; num = 0 }, some (find_failed e))
  planned wd pl f (inl ns) = numbered wd pl f (max_num nums pl.pref pl.suff pl.format ns 0)

  unfoldable pub plan_of : Bytes → Plan
  plan_of name =
      let (pref, suff, format) = split_base (env.base_of name) in
      record { dir = env.dir_of name; pref = pref; suff = suff; format = format }

  unfoldable pub rotate_from : Option Plan → World → File Ref → Outcome Rotated
  rotate_from none wd f = let pl = plan_of f.name in planned wd pl f (read_dir wd pl.dir)
  rotate_from (some pl) wd f = ok (open_next wd pl f)

  unfoldable pub rotate : World → File Ref → Outcome Rotated
  rotate wd f = rotate_from f.plan wd f

  abbrev pub Wrote : Type 0
  Wrote = World × File Ref × ℕ × Option WriteError

  -- The condition of `Write` for a rotation.
  unfoldable pub is_open : Option Ref → Bool
  is_open none = false
  is_open (some h) = true

  unfoldable pub needs_rotation : World → File Ref → ℕ → Bool
  needs_rotation wd f size =
      not (is_open f.w)
      || (not (f.size == 0)
          && ((not (l.max_file_size == 0) && ltb l.max_file_size (f.size + size))
              || (not (l.max_file_age == 0) && ltb (f.start + l.max_file_age) (now wd))))

  unfoldable pub grown : File Ref → World × ℕ × Option ℕ → Wrote
  grown f (wd, n, e) = (
    wd,
    record f { size = f.size + n },
    n,
    elim e [ none ↦ none | some x ↦ some (write_failed x) ],
  )

  -- `f.w.Write(p)` on a nil writer panics.
  unfoldable pub put : Bytes → World → File Ref → Option Ref → Outcome Wrote
  put p wd f none = panic
  put p wd f (some h) = ok (grown f (write wd h p))

  unfoldable pub put_rotated : Bytes → Outcome Rotated → Outcome Wrote
  put_rotated p panic = panic
  put_rotated p (ok (wd, f, some e)) = ok (wd, f, 0, some (rotate_failed e))
  put_rotated p (ok (wd, f, none)) = put p wd f f.w

  unfoldable pub file_write : World → File Ref → Bytes → Outcome Wrote
  file_write wd f p =
      if needs_rotation wd f (length p) then put_rotated p (rotate wd f) else put p wd f f.w

  -- `Close`
  unfoldable pub file_close : World → File Ref → World × File Ref × Option ℕ
  file_close wd f = elim f.w [
    | none ↦ (wd, f, none)
    | some h ↦ (let (wd', e) = close wd h in (wd', record f { w = none }, e))
  ]

  -- The last loop of `removeOld`: its errors are dropped.
  unfoldable pub remove_each : Bytes → World → List Bytes → World
  remove_each dir wd [] = wd
  remove_each dir wd (n ∷ ns) = remove_each dir (remove wd (join dir n)).0 ns

  -- `removeOld`, for one that runs alone: the world, or the error of one of its steps.
  unfoldable pub removed : Bytes → World → Outcome (List Bytes ⊎ Bytes) → Outcome World
  removed dir wd panic = panic
  removed dir wd (ok (inr n)) = ok wd
  removed dir wd (ok (inl ns)) = ok (remove_each dir wd ns)

  unfoldable pub matched : Plan → Bytes → ℕ → World → Outcome (List Bytes) → Outcome World
  matched pl base t wd panic = panic
  matched pl base t wd (ok files) =
      removed pl.dir wd (files_to_remove l (λ n. stat wd (join pl.dir n)) t base files)

  unfoldable pub remove_old : World → Plan → Bytes → ℕ → Outcome World
  remove_old wd pl base t = elim (read_dir wd pl.dir) [
    | inr e ↦ ok wd
    | inl ns ↦ matched pl base t wd (matching_files nums ns pl.pref pl.suff pl.format)
  ]
