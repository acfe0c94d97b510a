-- ===== src/Tlio/ReReader/Runs.antt =====
-- Runs of `ReReader`, and the theorems about it at concrete inputs.
use tlog.Base.{ℕ, ◌+◌, ◌-◌, ◌≡◌, refl, arith, min, ◌==◌, if◌then◌else◌, Option, none, some}
use tlog.Tlio.ReReader.{
  ReadSeeker, SeekError, eof, Whence, seek_start, seek_current, seek_end, is_eof,
}
use tlog.Tlio.ReReader.{restart, at_end, after_read, reread, new_rereader}
use tlog.Tlio.ReReader.Follow.{IsFile, Follows, reread-Follows}

-- A file as its size and the offset in it.
abbrev go_to : ℕ × ℕ → ℕ → Whence → (ℕ × ℕ) × ℕ × Option SeekError
go_to f x seek_start = ((f.0, x), x, none)
go_to f x seek_current = ((f.0, f.1 + x), f.1 + x, none)
go_to f x seek_end = ((f.0, f.0 + x), f.0 + x, none)

abbrev sized : ReadSeeker
sized = record {
  State = ℕ × ℕ;
  read = λ f k. let n = min k (f.0 - f.1) in ((f.0, f.1 + n), n, if n == 0 then some eof else none);
  seek = go_to;
}

abbrev sized_laws : IsFile sized
sized_laws = record {
  size = λ f. f.0;
  offset = λ f. f.1;
  read_moves = λ f k. refl;
  to_end = λ f e. let z : f.0 + 0 ≡ f.0 = omega arith in (z, z);
  to_start = λ f x e. (refl, refl);
}

reads_on :
    reread sized (10, 4) 4 100
    ≡ record { file = (10, 10); pos = 10; n = 6; err = none; hook = none }
unfolding reread after_read is_eof
reads_on = refl

starts_again :
    reread sized (3, 10) 10 100
    ≡ record { file = (3, 0); pos = 0; n = 0; err = some eof; hook = some (10, 3) }
unfolding reread after_read is_eof at_end restart
starts_again = refl

begins_at_the_offset : new_rereader sized (10, 4) ≡ ((10, 4), 4, none)
unfolding new_rereader
begins_at_the_offset = refl

reread-Follows_example : Follows sized sized_laws 4 10 none (reread sized (10, 4) 4 100)
reread-Follows_example = reread-Follows sized sized_laws (10, 4) 4 100 refl
