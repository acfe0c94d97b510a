-- ===== src/Tlio/ReReader/Follow.antt =====
-- `ReReader` of tlio/readers.go on a file that others write to and cut between its calls.
use tlog.Base.{
  ℕ, zero, suc, ◌+◌, ◌<◌, ◌≡◌, refl, sym, ap, ◌∙◌, arith, ◌⊎◌, inl, inr, ◌&&◌, ◌==◌, ltb, ltb→lt,
}
use tlog.Base.{Bool-cases, Option, none, some}
use tlog.Tlio.ReReader.{
  ReadSeeker, SeekError, seek_failed, seek_back_failed, Whence, is_eof, Reread, restart, go_back,
  at_end, reread, after_read,
}

-- What a file promises: `Read` moves the offset by what it read, and a `Seek` with no error goes where it is
-- told. The size may change in any call.
pub record IsFile (s : ReadSeeker) : Type 0 where
  pub size : s.State → ℕ
  pub offset : s.State → ℕ
  pub read_moves : (f : s.State) (k : ℕ) → offset (s.read f k).0 ≡ offset f + (s.read f k).1
  pub to_end :
      (f : s.State)
      → (s.seek f 0 Whence.seek_end).2 ≡ none
      → ((s.seek f 0 Whence.seek_end).1 ≡ size f) × (offset (s.seek f 0 Whence.seek_end).0 ≡ size f)
  pub to_start :
      (f : s.State) (x : ℕ)
      → (s.seek f x Whence.seek_start).2 ≡ none
      → ((s.seek f x Whence.seek_start).1 ≡ x) × (offset (s.seek f x Whence.seek_start).0 ≡ x)

module _ (s : ReadSeeker) (file : IsFile s) where
  open s use {State, read, seek}
  open file use {size, offset, read_moves, to_end, to_start}

  -- A `Seek` that failed with an error, which is wrapped in the one that is returned.
  abbrev pub SeekFailed : Option SeekError → Type 0
  SeekFailed err =
      (g : State) × (o : ℕ) × (w : Whence) × (x : SeekError) × ((seek g o w).2 ≡ some x)
      × ((err ≡ some (seek_failed x)) ⊎ (err ≡ some (seek_back_failed x)))

  -- What a `Read` from position `pos` may have done, where the underlying one returned `err`. It went on by what it
  -- read; or it found that the file, of which `cur` bytes are there, was cut before `pos`, and went to the start;
  -- or a `Seek` failed, and the position is the old one.
  abbrev pub Follows : ℕ → ℕ → Option SeekError → Reread s → Type 0
  Follows pos cur err r =
      ((offset r.file ≡ r.pos) × (r.hook ≡ none) × (r.pos ≡ pos + r.n) × (r.err ≡ err))
      ⊎ (((offset r.file ≡ r.pos)
            × (r.hook ≡ some (pos, cur))
            × (r.pos ≡ 0)
            × (r.n ≡ 0)
            × (cur < pos)
            × (r.err ≡ err))
          ⊎ ((r.pos ≡ pos) × (r.n ≡ 0) × SeekFailed r.err))

  restart-Follows :
      (f : State) (pos cur : ℕ) (err : Option SeekError) (r : State × ℕ × Option SeekError)
      → seek f 0 Whence.seek_start ≡ r
      → cur < pos
      → Follows pos cur err (restart s r 0 pos cur err)
  unfolding restart
  restart-Follows f pos cur err (f', start, none) go cut =
      let (at, there) = to_start f 0 (rw go refl) in
      inr (inl (rw go at (there ∙ sym (rw go at at)), refl, rw go at at, refl, cut, refl))
  restart-Follows f pos cur err (f', start, some x) go cut =
      inr (inr (refl, refl, (f, 0, Whence.seek_start, x, rw go refl, inl refl)))

  go_back-Follows :
      (f : State) (pos cur : ℕ) (err : Option SeekError) (r : State × ℕ × Option SeekError)
      → seek f pos Whence.seek_start ≡ r
      → Follows pos cur err (go_back s r 0 pos err)
  unfolding go_back
  go_back-Follows f pos cur err (f', at, none) go =
      let (_, there) = to_start f pos (rw go refl) in inl (rw go at there, refl, omega arith, refl)
  go_back-Follows f pos cur err (f', at, some x) go =
      inr (inr (refl, refl, (f, pos, Whence.seek_start, x, rw go refl, inr refl)))

  sized-Follows :
      (f : State) (pos cur : ℕ) (err : Option SeekError)
      → offset f ≡ cur
      → Follows pos cur err (at_end s (f, cur, none) 0 pos err)
  unfolding at_end
  sized-Follows f pos cur err here = elim (Bool-cases (ltb cur pos)) [
    | inl cut ↦ rw cut (restart-Follows f pos cur err _ refl (ltb→lt cur pos cut))
    | inr more ↦ elim (Bool-cases (ltb pos cur)) [
      | inl grown ↦ rw (more, grown) (go_back-Follows f pos cur err _ refl)
      | inr same ↦
          let all : cur ≡ pos = ground (arith, more, same) in
          rw (more, same) (inl (here ∙ all, refl, omega arith, refl))
    ]
  ]

  ended-Follows :
      (f : State) (pos : ℕ) (err : Option SeekError) (r : State × ℕ × Option SeekError)
      → seek f 0 Whence.seek_end ≡ r
      → Follows pos (size f) err (at_end s r 0 pos err)
  ended-Follows f pos err (f', end, none) go =
      let (at, there) = to_end f (rw go refl) in
      let at' : end ≡ size f = rw go at at in
      rw at' (sized-Follows f' pos (size f) err (rw go at there))
  ended-Follows f pos err (f', end, some x) go =
      unfold at_end in inr (inr (refl, refl, (f, 0, Whence.seek_end, x, rw go refl, inl refl)))

  at_end-Follows :
      (f : State) (n pos : ℕ) (err : Option SeekError)
      → n ≡ 0
      → Follows pos (size f) err (at_end s (seek f 0 Whence.seek_end) n (pos + n) err)
  at_end-Follows f zero pos err e =
      let same : pos + 0 ≡ pos = omega arith in rw same (ended-Follows f pos err _ refl)
  at_end-Follows f (suc n) pos err e = absurd (omega arith)

  after_read-Follows :
      (f : State) (n pos : ℕ) (err : Option SeekError)
      → offset f ≡ pos + n
      → Follows pos (size f) err (after_read s (f, n, err) pos)
  unfolding after_read
  after_read-Follows f n pos err moved = elim (Bool-cases (n == 0 && is_eof err)) [
    | inl stopped ↦ rw stopped (at_end-Follows f n pos err (ground (arith, stopped)))
    | inr going ↦ rw going (inl (moved, refl, refl, refl))
  ]

  -- A `Read` of a `ReReader` whose position is the offset of its file leaves it so, unless a `Seek` fails. It goes
  -- on by what it read, with no call of the hook; or it has read nothing, the file ends before the position, the
  -- hook is called with the position and the size, and reading starts again at 0: in both cases it returns the
  -- error of the underlying `Read`. Where a `Seek` fails, it has read nothing, the position is the old one, and it
  -- returns the error of the `Seek`, wrapped. The size of the file may change before the `Read` and between its
  -- calls.
  pub reread-Follows :
      (f : State) (pos k : ℕ)
      → offset f ≡ pos
      → Follows pos (size (read f k).0) (read f k).2 (reread s f pos k)
  unfolding reread
  reread-Follows f pos k here =
      after_read-Follows (read f k).0 (read f k).1 pos (read f k).2
        (read_moves f k ∙ ap (λ u. u + (read f k).1) here)
