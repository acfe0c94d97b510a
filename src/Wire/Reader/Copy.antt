-- ===== src/Wire/Reader/Copy.antt =====
-- `WriteTo` of tlwire/reader.go passes a stream of events on, one `Write` for each.
use tlog.Base.{ℕ, zero, suc, ◌+◌, ◌^◌, ◌<◌, ◌≡◌, refl, ap, ◌∙◌, arith}
use tlog.Base.{Option, none, some, List, [], ◌∷◌, ◌++◌, inl, length, drop, All, length-append}
use tlog.Base.{length-drop}
use tlog.Base.Bits.{Bytes}
use tlog.Base.Io.{Writer}
use tlog.Wire.{Consts, rfc8949}
use tlog.Wire.Reader.{
  Chunk, Reader, Run, ret, Written, written, write_event, write_to_loop, write_to,
}
use tlog.Wire.Reader.{pending}
use tlog.Wire.Scan.Grammar.{Item, encode, IsItem}
use tlog.Wire.Reader.Stream.{Streams, contents, read_one-encode, read_one_end}
use tlog.Wire.Scan.Skip.{encode_nonempty}

-- The bytes of events, one after the other.
unfoldable pub stream_of : List Item → Bytes
stream_of [] = []
stream_of (x ∷ xs) = encode x ++ stream_of xs

module _ (wr : Writer) where
  open wr use {State, write}

  -- The writer after one `Write` for each event.
  unfoldable pub write_each : State → List Item → State
  write_each w [] = w
  write_each w (x ∷ xs) = write_each (write w (encode x)).0 xs

  -- A writer that takes every slice whole.
  pub record TakesAll : Type 0 where
    pub takes : (w : State) (b : Bytes) → ((write w b).1 ≡ length b) × ((write w b).2 ≡ none)

pub pending-contents : (src : List Chunk) → pending src ≡ length (contents src)
unfolding pending
pending-contents [] = refl
pending-contents (c ∷ src) =
    omega (arith, pending-contents src, length-append c.bytes (contents src))

module _ (k : Consts) (wr : Writer) where
  open wr use {State, write}

  written-none :
      (r : State × ℕ × Option ℕ) (n m : ℕ) (d : Reader) (next : ℕ → State → Run (Written k wr))
      → r.1 ≡ m
      → r.2 ≡ none
      → written k wr n d r next ≡ next (n + m) r.0
  unfolding written
  written-none (w, m', none) n m d next same ok = ap (λ u. next (n + u) w) same
  written-none (w, m', some e) n m d next same ok = ground (arith, ok)

module _ (k : Consts) (wr : Writer) (e : k ≡ rfc8949) (all : TakesAll wr) where
  open wr use {State, write}
  open all use {takes}

  write_event-encode :
      (x : Item) (d : Reader) (n : ℕ) (w : State) (next : Reader → ℕ → State → Run (Written k wr))
      → write_event k wr n w (d, inl (encode x)) next
        ≡ next d (n + length (encode x)) (write w (encode x)).0
  unfolding write_event
  write_event-encode x d n w next =
      written-none k wr (write w (encode x)) n (length (encode x)) d (next d) (takes w (encode x)).0
        (takes w (encode x)).1

  write_to_loop-stream :
      (xs : List Item) (fuel : ℕ) (d : Reader) (n : ℕ) (w : State)
      → All IsItem xs
      → length (stream_of xs) < fuel
      → d.i + length (stream_of xs) < 2 ^ 63
      → Streams d (stream_of xs)
      → (d' : Reader) × (write_to_loop k wr fuel d n w
          ≡ ret (d', write_each wr w xs, n + length (stream_of xs), none))
  unfolding write_to_loop write_event stream_of write_each
  write_to_loop-stream xs zero d n w h hf hs st = absurd (omega arith)
  write_to_loop-stream [] (suc fuel) d n w h hf hs st =
      let same : n + 0 ≡ n = omega arith in
      let (d', go) = read_one_end k e d st in (d', rw (go, write_to_loop) (rw same refl))
  write_to_loop-stream (x ∷ xs) (suc fuel) d n w h hf hs st =
      let size : length (encode x ++ stream_of xs) ≡ length (encode x) + length (stream_of xs) =
        length-append (encode x) (stream_of xs) in
      let (d1, go, st1, low) = read_one-encode k e x (stream_of xs) h.0 d (omega arith) st in
      let (d', ends) =
        write_to_loop-stream xs fuel d1 (n + length (encode x)) (write w (encode x)).0 h.1
          (omega (arith, encode_nonempty x h.0)) (omega arith) st1 in
      let total : n + length (encode x) + length (stream_of xs)
          ≡ n + length (encode x ++ stream_of xs) =
        omega arith in
      (
        d',
        rw (go, write_to_loop, write_event-encode x d1 n w (write_to_loop k wr fuel))
            (ends ∙ rw total refl),
      )

  -- `WriteTo` on a stream of events, cut into answers in any way, hands the writer the events one by one,
  -- each in a `Write` of its own, and returns the number of all their bytes and no error, given a writer
  -- that takes every slice whole. The fuel of `write_to` is enough.
  pub write_to-stream :
      (xs : List Item) (d : Reader) (w : State)
      → All IsItem xs
      → d.i + length (stream_of xs) < 2 ^ 63
      → Streams d (stream_of xs)
      → (d' : Reader) × (write_to k wr d w
          ≡ ret (d', write_each wr w xs, length (stream_of xs), none))
  unfolding write_to
  write_to-stream xs d w h hs st =
      let none_yet : 0 + length (stream_of xs) ≡ length (stream_of xs) = omega arith in
      let (d', go) =
        write_to_loop-stream xs (length d.buf + pending d.source + 1) d 0 w h
          (omega (
            arith,
            pending-contents d.source,
            st.within,
            ap {B = ℕ} (λ u. length u) st.stream,
            length-append (drop d.i d.buf) (contents d.source),
            length-drop d.i d.buf,
          ))
          hs st in
      (d', go ∙ rw none_yet refl)
