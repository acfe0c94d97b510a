-- ===== src/Tlio/ReReader.antt =====
-- tlio/readers.go: `ReReader`, which follows a file that grows and starts again when it was cut.
pub mod Follow
mod Runs
use tlog.Base.{ℕ, ◌+◌, ◌&&◌, ◌==◌, ltb, if◌then◌else◌, Bool, true, false, Option, none, some}

pub data Whence : Type 0 where
  seek_start seek_current seek_end : Whence

-- The errors that the calls return; `seek_failed` and `seek_back_failed` say what failed.
pub data SeekError : Type 0 where
  eof : SeekError
  other : ℕ → SeekError
  seek_failed : SeekError → SeekError
  seek_back_failed : SeekError → SeekError

-- `ReadSeeker` as a state and its functions: `Read` for a buffer of a size, `Seek` for an offset.
pub record ReadSeeker : Type 1 where
  pub State : Type 0
  pub read : State → ℕ → State × ℕ × Option SeekError
  pub seek : State → ℕ → Whence → State × ℕ × Option SeekError

-- `errors.Is(err, io.EOF)`
unfoldable pub is_eof : Option SeekError → Bool
is_eof none = false
is_eof (some eof) = true
is_eof (some (other e)) = false
is_eof (some (seek_failed e)) = is_eof (some e)
is_eof (some (seek_back_failed e)) = is_eof (some e)

module _ (s : ReadSeeker) where
  open s use {State, read, seek}

  -- The state behind a `ReReader`, its `pos`, what `Read` returns, and the call of `Hook`, where there is one.
  pub record Reread : Type 0 where
    pub file : State
    pub pos : ℕ
    pub n : ℕ
    pub err : Option SeekError
    pub hook : Option (ℕ × ℕ)

  -- `NewReReader`: the position, or the error.
  unfoldable pub new_rereader : State → State × ℕ × Option SeekError
  new_rereader f =
      let (f', cur, e) = seek f 0 seek_current in
      elim e [ none ↦ (f', cur, none) | some x ↦ (f', 0, some (seek_failed x)) ]

  -- The case `end < r.pos`: the hook, and what the seek to the start returned.
  unfoldable pub restart : State × ℕ × Option SeekError → ℕ → ℕ → ℕ → Option SeekError → Reread
  restart (f, start, none) n pos end err = record {
    file = f;
    pos = start;
    n = n;
    err = err;
    hook = some (pos, end);
  }
  restart (f, start, some x) n pos end err = record {
    file = f;
    pos = pos;
    n = n;
    err = some (seek_failed x);
    hook = some (pos, end);
  }

  -- The case `end > r.pos`: what the seek back to where the reading stopped returned.
  unfoldable pub go_back : State × ℕ × Option SeekError → ℕ → ℕ → Option SeekError → Reread
  go_back (f, _, none) n pos err = record { file = f; pos = pos; n = n; err = err; hook = none }
  go_back (f, _, some x) n pos err = record {
    file = f;
    pos = pos;
    n = n;
    err = some (seek_back_failed x);
    hook = none;
  }

  -- What `Read` does at an end of file, with the end that `Seek` found. The error of `Read` is returned in
  -- every case but those of a failed seek.
  unfoldable pub at_end : State × ℕ × Option SeekError → ℕ → ℕ → Option SeekError → Reread
  at_end (f, end, some x) n pos err = record {
    file = f;
    pos = pos;
    n = n;
    err = some (seek_failed x);
    hook = none;
  }
  at_end (f, end, none) n pos err =
      if ltb end pos
      then restart (seek f 0 seek_start) n pos end err
      else if ltb pos end
      then go_back (seek f pos seek_start) n pos err
      else record { file = f; pos = pos; n = n; err = err; hook = none }

  -- What `Read` makes of the result of the underlying `Read`.
  unfoldable pub after_read : State × ℕ × Option SeekError → ℕ → Reread
  after_read (f, n, err) pos =
      if n == 0 && is_eof err
      then at_end (seek f 0 seek_end) n (pos + n) err
      else record { file = f; pos = pos + n; n = n; err = err; hook = none }

  unfoldable pub reread : State → ℕ → ℕ → Reread
  reread f pos size = after_read (read f size) pos
