-- ===== src/Wire/Reader.antt =====
-- tlwire/reader.go: the reading of events one by one.
pub mod Stream
pub mod Copy
mod Runs
use tlog.Base.{
  ℕ, zero, suc, ◌+◌, ◌-◌, ◌*◌, ◌≤◌, ◌⊎◌, inl, inr, bit_and, bit_or, Bool, true, false, ◌&&◌, ◌||◌,
  not,
}
use tlog.Base.{
  Option, none, some, List, [], ◌∷◌, ◌++◌, ltb, ◌==◌, if◌then◌else◌, length, get_elem?, take, drop,
}
use tlog.Base.Bits.{Bytes}
use tlog.Base.Io.{Writer}
use tlog.Wire.{Consts}
use tlog.Wire.Int64.{ℤ, pos, negsuc, to_int64, add_int64}
use tlog.Wire.Scan.{skip}

-- What the underlying `io.Reader` may fail with, and what `Reader` returns.
pub data ReadError : Type 0 where
  io_eof : ReadError
  io_other : ℕ → ReadError
  bad_format : ReadError
  short_buffer : ReadError

-- One answer of the underlying `Read`: what it put into the buffer, and its error.
pub record Chunk : Type 0 where
  pub bytes : Bytes
  pub err : Option ReadError

-- `Reader`, with the answers that its `io.Reader` will give; after the last it answers `0, io.EOF`.
pub record Reader : Type 0 where
  pub buf : Bytes
  pub i : ℕ
  pub boff : ℕ
  pub source : List Chunk

-- A call returns, panics on a slice out of range, or goes on for ever.
pub data Run {ℓ} (A : Type ℓ) : Type ℓ where
  ret : A → Run A
  panicked : Run A
  diverged : Run A

pub data Found : Type 0 where
  end_at : ℕ → Found
  failed : ReadError → Found

-- `if n != 0 && errors.Is(err, io.EOF) { err = nil }`
unfoldable pub read_error : Chunk → Option ReadError
read_error c = elim c.err [
  | none ↦ none
  | some io_eof ↦ elim c.bytes [ [] ↦ some io_eof | _ ∷ _ ↦ none ]
  | some e ↦ some e
]

-- The buffer of `more` before it reads: what is behind `d.i`, moved to the front.
unfoldable pub shifted : Bytes → ℕ → ℕ → List Chunk → Reader
shifted b i boff src = record { buf = drop i b; i = 0; boff = boff + i; source = src }

-- What `skipRead` makes of the result of `skip`: the end, or `more` and another round, or an error.
unfoldable pub skip_read_next : Option ℤ → Reader → Run (Reader × Found) → Run (Reader × Found)
skip_read_next none d more = diverged
skip_read_next (some (pos zero)) d more = more
skip_read_next (some (pos (suc e))) d more = ret (d, end_at (suc e))
skip_read_next (some (negsuc zero)) d more = more
skip_read_next (some (negsuc (suc e))) d more = ret (d, failed bad_format)

-- `ReadOne`: the event, as `d.b[st:end:end]`, or the error.
unfoldable pub take_event : Reader × Found → Run (Reader × (Bytes ⊎ ReadError))
take_event (d, failed e) = ret (d, inr e)
take_event (d, end_at end) =
    if ltb end d.i
    then panicked
    else ret (record d { i = end }, inl (take (end - d.i) (drop d.i d.buf)))

-- `Read` into a buffer of `size` bytes: what it copies to its front, and the count that it returns.
unfoldable pub copy_event : ℕ → Reader × Found → Run (Reader × ((Bytes × ℕ) ⊎ ReadError))
copy_event size (d, failed e) = ret (d, inr e)
copy_event size (d, end_at end) =
    if ltb size (end - d.i)
    then ret (d, inr short_buffer)
    else if ltb end d.i
    then panicked
    else ret (record d { i = end }, inl (take (end - d.i) (drop d.i d.buf), size))

module _ (k : Consts) where
  -- `skipRead` with `more`: one answer of the underlying reader for each round.
  unfoldable pub skip_read_loop : Bytes → ℕ → ℕ → List Chunk → Run (Reader × Found)
  skip_read_loop b i boff [] =
      skip_read_next (skip k b i) (record { buf = b; i = i; boff = boff; source = [] })
        (ret (shifted b i boff [], failed io_eof))
  skip_read_loop b i boff (c ∷ src) =
      let again = skip_read_loop (drop i b ++ c.bytes) 0 (boff + i) src in
      skip_read_next (skip k b i) (record { buf = b; i = i; boff = boff; source = c ∷ src })
        (elim (read_error c) [
          | none ↦ again
          | some e ↦ ret (record (shifted b i boff src) { buf = drop i b ++ c.bytes }, failed e)
        ])

  unfoldable pub skip_read : Reader → Run (Reader × Found)
  skip_read d = skip_read_loop d.buf d.i d.boff d.source

  unfoldable pub read_one : Reader → Run (Reader × (Bytes ⊎ ReadError))
  read_one d = elim (skip_read d) [
    | ret r ↦ take_event r
    | panicked ↦ panicked
    | diverged ↦ diverged
  ]

  unfoldable pub read : ℕ → Reader → Run (Reader × ((Bytes × ℕ) ⊎ ReadError))
  read size d = elim (skip_read d) [
    | ret r ↦ copy_event size r
    | panicked ↦ panicked
    | diverged ↦ diverged
  ]

-- The errors of `WriteTo`, by what they wrap.
pub data WriteToError : Type 0 where
  decode_error : ReadError → WriteToError
  write_error : ℕ → WriteToError

-- How many bytes the buffer and the answers to come hold.
unfoldable pub pending : List Chunk → ℕ
pending [] = 0
pending (c ∷ src) = length c.bytes + pending src

module _ (k : Consts) (wr : Writer) where
  open wr use {State, write}

  abbrev pub Written : Type 0
  Written = Reader × State × ℕ × Option WriteToError

  -- The end of a round of `WriteTo`: the next round, or the result.
  unfoldable pub written :
      ℕ → Reader → State × ℕ × Option ℕ → (ℕ → State → Run Written) → Run Written
  written n d (w, m, none) next = next (n + m) w
  written n d (w, m, some e) next = ret (d, w, n + m, some (write_error e))

  unfoldable pub write_event :
      ℕ → State → Reader × (Bytes ⊎ ReadError) → (Reader → ℕ → State → Run Written) → Run Written
  write_event n w (d, inl b) next = written n d (write w b) (next d)
  write_event n w (d, inr io_eof) next = ret (d, w, n, none)
  write_event n w (d, inr e) next = ret (d, w, n, some (decode_error e))

  -- The loop of `WriteTo`; `fuel` bounds the events.
  unfoldable pub write_to_loop : ℕ → Reader → ℕ → State → Run Written
  write_to_loop zero d n w = diverged
  write_to_loop (suc fuel) d n w = elim (read_one k d) [
    | ret r ↦ write_event n w r (write_to_loop fuel)
    | panicked ↦ panicked
    | diverged ↦ diverged
  ]

  -- `WriteTo`: each event takes a byte at least of those that are there or still come.
  unfoldable pub write_to : Reader → State → Run Written
  write_to d w = write_to_loop (length d.buf + pending d.source + 1) d 0 w
