-- ===== src/Wire/Reader/Stream.antt =====
-- `ReadOne`, `Read` of tlwire/reader.go on a stream of events, however the underlying reader cuts it.
use tlog.Base.{ℕ, ◌+◌, ◌-◌, ◌^◌, ◌<◌, ◌≤◌, ◌≡◌, refl, ap, sym, ◌∙◌, arith, false}
use tlog.Base.{none, some, List, [], ◌∷◌, ◌++◌, inl, inr, length, leb, ltb, take, drop}
use tlog.Base.{Bool-cases, leb→le, length-append, append-nil, append_assoc, All}
use tlog.Base.{length-drop, ltb-false}
use tlog.Base.Bits.{Bytes}
use tlog.Wire.{Consts, rfc8949}
use tlog.Wire.Int64.{negsuc}
use tlog.Wire.Reader.{io_eof, Chunk, Reader, Run, ret, Found, end_at, failed, read_error, shifted}
use tlog.Wire.Scan.{skip}
use tlog.Wire.Reader.{
  skip_read_next, skip_read_loop, skip_read, take_event, read_one, read, copy_event,
}
use tlog.Wire.Scan.Grammar.{Item, encode, IsItem}
use tlog.Wire.Scan.View.{View, View-take, drop_stream}
use tlog.Wire.Scan.Skip.{encode_nonempty, skip_cut}
use tlog.Wire.Scan.Tags.{read_tag_end}
use tlog.Wire.Scan.Events.{skip-encode}

-- All the bytes that the underlying reader is still to give.
abbrev pub contents : List Chunk → Bytes
contents [] = []
contents (c ∷ src) = c.bytes ++ contents src

-- An answer with no error that `more` passes on: no error, or the end of file with the last bytes.
abbrev pub IsClean : Chunk → Type 0
IsClean c = read_error c ≡ none

-- What the reader has in its buffer and what it is still to be given make up the stream `s`.
pub record Streams (d : Reader) (s : Bytes) : Type 0 where
  pub within : d.i ≤ length d.buf
  pub stream : drop d.i d.buf ++ contents d.source ≡ s
  pub clean : All IsClean d.source

-- The reader stands at an event, at an index of at most `m`.
record Stands (x : Item) (s : Bytes) (m : ℕ) (r : Reader × Found) : Type 0 where
  found : r.1 ≡ end_at (r.0.i + length (encode x))
  holds : r.0.i + length (encode x) ≤ length r.0.buf
  view : View r.0.buf r.0.i (encode x ++ s)
  rest : drop r.0.i r.0.buf ++ contents r.0.source ≡ encode x ++ s
  clean : All IsClean r.0.source
  early : r.0.i ≤ m

module _ (k : Consts) (e : k ≡ rfc8949) (x : Item) (s : Bytes) (h : IsItem x) where
  found_now :
      (b : Bytes) (i boff : ℕ) (src : List Chunk) (more : Run (Reader × Found))
      → i + length (encode x) < 2 ^ 63
      → View b i (encode x ++ s)
      → i + length (encode x) ≤ length b
      → skip_read_next (skip k b i) (record { buf = b; i = i; boff = boff; source = src }) more
        ≡ ret (record { buf = b; i = i; boff = boff; source = src }, end_at (i + length (encode x)))
  unfolding skip_read_next
  found_now b i boff src more bound v fits =
      ground (arith, skip-encode k x b s i e h bound v, encode_nonempty x h)

  not_yet :
      (b : Bytes) (i : ℕ) (d : Reader) (more : Run (Reader × Found))
      → i + length (encode x) < 2 ^ 63
      → View b i (encode x ++ s)
      → length b < i + length (encode x)
      → skip_read_next (skip k b i) d more ≡ more
  unfolding skip_read_next
  not_yet b i d more bound v short = ground (arith, skip-encode k x b s i e h bound v)

  Stands-now :
      (b : Bytes) (i boff m : ℕ) (src : List Chunk)
      → i ≤ m
      → i ≤ length b
      → i + length (encode x) ≤ length b
      → drop i b ++ contents src ≡ encode x ++ s
      → All IsClean src
      → Stands x s m
          (record { buf = b; i = i; boff = boff; source = src }, end_at (i + length (encode x)))
  Stands-now b i boff m src early hi fits rest clean = record {
    found = refl;
    holds = fits;
    view = record { rest = contents src; agrees = rest; within = hi };
    rest = rest;
    clean = clean;
    early = early;
  }

  loop-Stands :
      (src : List Chunk) (b : Bytes) (i boff m : ℕ)
      → i ≤ m
      → i + length (encode x) < 2 ^ 63
      → i ≤ length b
      → drop i b ++ contents src ≡ encode x ++ s
      → All IsClean src
      → (r : Reader × Found) × (skip_read_loop k b i boff src ≡ ret r) × Stands x s m r
  unfolding skip_read_loop
  loop-Stands [] b i boff m early bound hi rest clean =
      let all : drop i b ≡ encode x ++ s = sym (append-nil (drop i b)) ∙ rest in
      let fits : i + length (encode x) ≤ length b = omega (
        arith,
        ap {B = ℕ} (λ u. length u) all,
        length-append (encode x) s,
        length-drop i b,
        encode_nonempty x h,
      ) in
      (
        _,
        found_now b i boff [] _ bound (record { rest = []; agrees = rest; within = hi }) fits,
        Stands-now b i boff m [] early hi fits rest clean,
      )
  loop-Stands (c ∷ src) b i boff m early bound hi rest clean =
      let v : View b i (encode x ++ s) = record {
        rest = contents (c ∷ src);
        agrees = rest;
        within = hi;
      } in
      elim (Bool-cases (leb (i + length (encode x)) (length b))) [
        | inl whole ↦
            let fits : i + length (encode x) ≤ length b = leb→le _ _ whole in
            (
              _,
              found_now b i boff (c ∷ src) _ bound v fits,
              Stands-now b i boff m (c ∷ src) early hi fits rest clean,
            )
        | inr cut ↦
            let (r, go, st) =
              loop-Stands src (drop i b ++ c.bytes) 0 (boff + i) m (omega arith) (omega arith)
                (omega arith) (append_assoc (drop i b) c.bytes (contents src) ∙ rest) clean.1 in
            (r, not_yet b i _ _ bound v (ground arith) ∙ rw clean.0 go, st)
      ]

  -- The slice from the event's first byte to its end is the event.
  slice-Stands :
      (d : Reader) (f : Found) (m : ℕ)
      → Stands x s m (d, f)
      → (ltb (d.i + length (encode x)) d.i ≡ false)
        × (d.i + length (encode x) - d.i ≡ length (encode x))
        × (take (length (encode x)) (drop d.i d.buf) ≡ encode x)
  slice-Stands d f m t = (ground arith, omega arith, View-take (encode x) s t.view t.holds)

  after :
      (d : Reader) (f : Found) (m : ℕ)
      → Stands x s m (d, f)
      → Streams (record d { i = d.i + length (encode x) }) s
  after d f m t = record {
    within = t.holds;
    stream = drop_stream d.buf (contents d.source) (encode x) s d.i t.rest t.holds;
    clean = t.clean;
  }

  taken :
      (r : Reader × Found) (m : ℕ)
      → Stands x s m r
      → (d' : Reader) × (take_event r ≡ ret (d', inl (encode x)))
        × Streams d' s
        × (d'.i ≤ m + length (encode x))
  unfolding take_event
  taken (d, f) m t =
      let (past, size, bytes) = slice-Stands d f m t in
      (
        record d { i = d.i + length (encode x) },
        rw (t.found, past, size, bytes),
        after d f m t,
        omega (arith, t.early),
      )

  -- On a stream that begins with an event, cut into answers of the underlying reader in any way,
  -- `ReadOne` returns the bytes of that event, what follows is the rest of the stream, and the index moves by
  -- the length of the event at most.
  pub read_one-encode :
      (d : Reader)
      → d.i + length (encode x) < 2 ^ 63
      → Streams d (encode x ++ s)
      → (d' : Reader) × (read_one k d ≡ ret (d', inl (encode x)))
        × Streams d' s
        × (d'.i ≤ d.i + length (encode x))
  unfolding read_one skip_read
  read_one-encode d bound st =
      let (r, go, t) =
        loop-Stands d.source d.buf d.i d.boff d.i (omega arith) bound st.within st.stream
          st.clean in
      let (d', ends, st', low) = taken r d.i t in (d', rw (go, read_one) ends, st', low)

  copied :
      (size : ℕ) (r : Reader × Found) (m : ℕ)
      → length (encode x) ≤ size
      → Stands x s m r
      → (d' : Reader) × (copy_event size r ≡ ret (d', inl (encode x, size))) × Streams d' s
  unfolding copy_event
  copied size (d, f) m room t =
      let (past, same, bytes) = slice-Stands d f m t in
      (
        record d { i = d.i + length (encode x) },
        rw (t.found, past, same, bytes, ltb-false size (length (encode x)) room),
        after d f m t,
      )

  -- `Read` into a buffer with room for the event copies the event, and returns the size of the buffer as
  -- the count, however short the event is.
  pub read-encode :
      (d : Reader) (size : ℕ)
      → d.i + length (encode x) < 2 ^ 63
      → Streams d (encode x ++ s)
      → length (encode x) ≤ size
      → (d' : Reader) × (read k size d ≡ ret (d', inl (encode x, size))) × Streams d' s
  unfolding read skip_read
  read-encode d size bound st room =
      let (r, go, t) =
        loop-Stands d.source d.buf d.i d.boff d.i (omega arith) bound st.within st.stream
          st.clean in
      let (d', ends, st') = copied size r d.i room t in (d', rw (go, read) ends, st')

module _ (k : Consts) (e : k ≡ rfc8949) where
  -- At the end of the buffer `skip` asks for more.
  skip_end : (b : Bytes) → skip k b (length b) ≡ some (negsuc 0)
  unfolding skip
  skip_end b = rw e (skip_cut b (length b) (length b) 0 (read_tag_end b (length b) (omega arith)))

  stall :
      (src : List Chunk) (b : Bytes) (i : ℕ)
      → i ≤ length b
      → drop i b ++ contents src ≡ []
      → skip k b i ≡ some (negsuc 0)
  stall src b i hi none_left =
      let end : i ≡ length b = omega (
        arith,
        ap {B = ℕ} (λ u. length u) none_left,
        length-append (drop i b) (contents src),
        length-drop i b,
      ) in
      rw end (skip_end b)

  loop_end :
      (src : List Chunk) (b : Bytes) (i boff : ℕ)
      → i ≤ length b
      → drop i b ++ contents src ≡ []
      → All IsClean src
      → (d' : Reader) × (skip_read_loop k b i boff src ≡ ret (d', failed io_eof))
  unfolding skip_read_loop skip_read_next
  loop_end [] b i boff hi none_left clean = (shifted b i boff [], rw (stall [] b i hi none_left))
  loop_end (c ∷ src) b i boff hi none_left clean =
      let (d', go) =
        loop_end src (drop i b ++ c.bytes) 0 (boff + i) (omega arith)
          (append_assoc (drop i b) c.bytes (contents src) ∙ none_left) clean.1 in
      (d', rw (stall (c ∷ src) b i hi none_left, clean.0) go)

  -- At the end of the stream `ReadOne` returns `io.EOF`.
  pub read_one_end :
      (d : Reader) → Streams d [] → (d' : Reader) × (read_one k d ≡ ret (d', inr io_eof))
  unfolding read_one skip_read take_event loop_end
  read_one_end d st =
      let (d', go) = loop_end d.source d.buf d.i d.boff st.within st.stream st.clean in
      (d', rw (go, read_one))
