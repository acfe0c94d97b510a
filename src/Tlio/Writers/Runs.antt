-- ===== src/Tlio/Writers/Runs.antt =====
-- Runs of the writers of tlio/writers.go and the closers of tlio/closers.go, and the theorems about them at
-- concrete inputs.
use tlog.Base.{ℕ, suc, ◌≡◌, ◌≢◌, refl, arith, true, Option, none, some, List, [], ◌∷◌}
use tlog.Base.{length, if◌then◌else◌, ◌==◌}
use tlog.Base.Bits.{Bytes}
use tlog.Base.Io.{Writer}
use tlog.Base.Outcome.{ok, panic}
use tlog.Tlio.Writers.{first_of, single, tee, append, multi_write}
use tlog.Tlio.Writers.{Openers, rewriter_write, first_write, opened, write_again}
use tlog.Tlio.Writers.{closer_of, CloseError, plain, wrapped, multi_close, close_wrap}
use tlog.Tlio.Writers.{named}
use tlog.Tlio.Writers.{multi_writer_close, multi_writer_close_loop}
use tlog.Base.{ltb}
use tlog.Tlio.Writers.Multi.{writers_of, first_count, first_error, multi_write-append}
use tlog.Tlio.Writers.Reopen.{rewriter_write_returns, rewriter_write-open}
use tlog.Tlio.Writers.Closers.{close_each, first_wrapped, multi_close-close_each}

-- A writer of a number that it fails with, unless that is 0, and of the slices that it took.
abbrev moody : Writer
moody = record {
  State = ℕ × List Bytes;
  write = λ w b. ((w.0, b ∷ w.1), length b, if w.0 == 0 then none else some w.0);
}

abbrev fresh : ℕ → ℕ × List Bytes
fresh e = (e, [])

multi_write-append_example :
    multi_write moody
      (append
        (fresh 9 ∷ [])
        (none ∷ some (single (fresh 0)) ∷ some (tee (fresh 4 ∷ fresh 5 ∷ [])) ∷ []))
      (1 ∷ 2 ∷ [])
    ≡ ((0, (1 ∷ 2 ∷ []) ∷ []) ∷ (4, (1 ∷ 2 ∷ []) ∷ []) ∷ (5, (1 ∷ 2 ∷ []) ∷ []) ∷ [], 2, some 4)
unfolding writers_of first_count first_error
multi_write-append_example =
    multi_write-append moody (fresh 9 ∷ [])
      (none ∷ some (single (fresh 0)) ∷ some (tee (fresh 4 ∷ fresh 5 ∷ [])) ∷ []) (1 ∷ 2 ∷ [])

-- The world counts the opened files; a write to any but the newest fails.
abbrev files : Openers
files = record {
  World = ℕ;
  Ref = ℕ;
  write = λ wd h p. (wd, length p, if h == wd then none else some 5);
  open_writer = λ wd w e. (suc wd, some (suc wd), none);
  is_closer = λ h. true;
  close = λ wd h. (wd, none);
}

opens_again :
    rewriter_write files 3 (record { w = some 2; closer = none }) (7 ∷ [])
    ≡ ok (4, record { w = some 4; closer = some 4 }, 1, none)
unfolding rewriter_write first_write opened write_again closer_of
opens_again = refl

rewriter_write_returns_example :
    rewriter_write files 3 (record { w = some 2; closer = none }) (7 ∷ []) ≢ panic
rewriter_write_returns_example =
    rewriter_write_returns files 3 (record { w = some 2; closer = none }) (7 ∷ [])
      (λ wd w e n. ground (arith, n))

-- An `Open` that would fail if it learnt of an error.
abbrev careful : ℕ → Option ℕ → Option ℕ → ℕ × Option ℕ × Option ℕ
careful wd w none = (suc wd, some (suc wd), none)
careful wd w (some e) = (wd, none, some e)

rewriter_write-open_example :
    rewriter_write
      (record files { open_writer = careful })
      3
      (record { w = some 2; closer = none })
      (7 ∷ [])
    ≡ rewriter_write files 3 (record { w = some 2; closer = none }) (7 ∷ [])
rewriter_write-open_example =
    rewriter_write-open files careful 3 (record { w = some 2; closer = none }) (7 ∷ [])
      (λ wd w. refl)

-- A world that counts the calls, and closers that fail with their number, unless that is 0.
abbrev fails_with : ℕ → ℕ → ℕ × Option CloseError
fails_with wd e = (suc wd, if e == 0 then none else some (plain e))

closes_with_a_message : close_wrap fails_with 0 (some 4) none ≡ (1, some (named (plain 4)))
unfolding close_wrap first_of
closes_with_a_message = refl

multi_close-close_each_example :
    multi_close fails_with (0 ∷ 8 ∷ 9 ∷ []) 0 ≡ (3, some (wrapped 1 (plain 8)))
unfolding close_each first_wrapped
multi_close-close_each_example = multi_close-close_each fails_with (0 ∷ 8 ∷ 9 ∷ []) 0

-- A world that counts the calls; only the writers above 1 are closers, and they fail with their number.
closes_the_closers :
    multi_writer_close (λ w. ltb 1 w) (λ (wd w : ℕ). (suc wd, some w)) (1 ∷ 8 ∷ 0 ∷ 9 ∷ []) 0
    ≡ (2, some 8)
unfolding multi_writer_close multi_writer_close_loop first_of
closes_the_closers = refl
