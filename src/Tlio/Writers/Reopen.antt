-- ===== src/Tlio/Writers/Reopen.antt =====
-- `ReWriter` of tlio/writers.go: when it panics, and what `Open` learns.
use tlog.Base.{ℕ, ◌≡◌, ◌≢◌, refl, arith, Option, none, some}
use tlog.Base.Bits.{Bytes}
use tlog.Base.Outcome.{panic}
use tlog.Tlio.Writers.{Openers, ReWriter, write_again, opened, first_write}
use tlog.Tlio.Writers.{rewriter_write, closer_of}

module _ (o : Openers) where
  open o use {World, Ref, write, open_writer}

  -- `Open` returns a writer wherever it returns no error.
  abbrev pub Opens : World × Option Ref × Option ℕ → Type 0
  Opens r = r.2 ≡ none → r.1 ≢ none

  opened_ok :
      (p : Bytes) (n : ℕ) (c : Option Ref) (r : World × Option Ref × Option ℕ)
      → Opens r
      → opened o p n c r ≢ panic
  unfolding opened write_again
  opened_ok p n c (wd, w, some e) h = ground arith
  opened_ok p n c (wd, none, none) h = absurd (h refl refl)
  opened_ok p n c (wd, some x, none) h = ground arith

  first_ok :
      (p : Bytes) (r : ReWriter Ref) (h : Ref) (t : World × ℕ × Option ℕ)
      → ((wd : World) (w : Option Ref) → Opens (open_writer wd w none))
      → first_write o p r h t ≢ panic
  unfolding first_write
  first_ok p r h (wd, n, none) opens = ground arith
  first_ok p r h (wd, n, some e) opens =
      opened_ok p n r.closer (open_writer wd r.w none) (opens wd r.w)

  write_returns :
      (wd : World) (w closer : Option Ref) (p : Bytes)
      → ((wd : World) (w : Option Ref) → Opens (open_writer wd w none))
      → rewriter_write o wd (record { w = w; closer = closer }) p ≢ panic
  unfolding rewriter_write
  write_returns wd none closer p opens =
      opened_ok p 0 closer (open_writer wd none none) (opens wd none)
  write_returns wd (some h) closer p opens =
      first_ok p (record { w = some h; closer = closer }) h (write wd h p) opens

  -- `ReWriter.Write` panics on no state and no slice, whatever fails, given an `Open` that returns a writer
  -- wherever it returns no error.
  pub rewriter_write_returns :
      (wd : World) (r : ReWriter Ref) (p : Bytes)
      → ((wd : World) (w : Option Ref) → Opens (open_writer wd w none))
      → rewriter_write o wd r p ≢ panic
  rewriter_write_returns wd r p opens = write_returns wd r.w r.closer p opens

  opened_same :
      (open' : World → Option Ref → Option ℕ → World × Option Ref × Option ℕ) (p : Bytes) (n : ℕ)
      (c : Option Ref) (t : World × Option Ref × Option ℕ)
      → opened (record o { open_writer = open' }) p n c t ≡ opened o p n c t
  unfolding opened write_again closer_of
  opened_same open' p n c (wd, w, some e) = refl
  opened_same open' p n c (wd, none, none) = refl
  opened_same open' p n c (wd, some h, none) = refl

  first_write-open :
      (open' : World → Option Ref → Option ℕ → World × Option Ref × Option ℕ) (p : Bytes)
      (r : ReWriter Ref) (h : Ref) (t : World × ℕ × Option ℕ)
      → ((wd : World) (w : Option Ref) → open' wd w none ≡ open_writer wd w none)
      → first_write (record o { open_writer = open' }) p r h t ≡ first_write o p r h t
  unfolding first_write opened write_again closer_of
  first_write-open open' p r h (wd, n, none) same = refl
  first_write-open open' p r h (wd, n, some e) same =
      rw (same wd r.w) (opened_same open' p n r.closer (open_writer wd r.w none))

  write_open :
      (open' : World → Option Ref → Option ℕ → World × Option Ref × Option ℕ) (wd : World)
      (w closer : Option Ref) (p : Bytes)
      → ((wd : World) (w : Option Ref) → open' wd w none ≡ open_writer wd w none)
      → rewriter_write (record o { open_writer = open' }) wd (record { w = w; closer = closer }) p
        ≡ rewriter_write o wd (record { w = w; closer = closer }) p
  unfolding rewriter_write
  write_open open' wd none closer p same =
      rw (same wd none) (opened_same open' p 0 closer (open_writer wd none none))
  write_open open' wd (some h) closer p same =
      first_write-open open' p (record { w = some h; closer = closer }) h (write wd h p) same

  -- `Open` never learns which error the write failed with: two `Open`s that do the same when they are handed
  -- no error make the same `ReWriter`.
  pub rewriter_write-open :
      (open' : World → Option Ref → Option ℕ → World × Option Ref × Option ℕ) (wd : World)
      (r : ReWriter Ref) (p : Bytes)
      → ((wd : World) (w : Option Ref) → open' wd w none ≡ open_writer wd w none)
      → rewriter_write (record o { open_writer = open' }) wd r p ≡ rewriter_write o wd r p
  rewriter_write-open open' wd r p same = write_open open' wd r.w r.closer p same
