-- ===== src/Tlio/Ring/Tail.antt =====
-- `TailWriter` of tlio/writers.go.
use tlog.Base.{ℕ, ◌≡◌, refl, Option, none, some, List, [], ◌∷◌}
use tlog.Base.Bits.{Bytes}
use tlog.Base.Io.{Writer, write_all}
use tlog.Base.Outcome.{Outcome, ok, panic}
use tlog.Tlio.Ring.{Ring, Sent, ring_write_to_loop, ring_write_to, ring_reset}

module _ (wr : Writer) where
  open wr use {State, write}

  pub record Tail : Type 0 where
    pub w : State
    pub ring : Ring

  -- `NewTailWriter`: the ring is the zero `RingWriter{}`, whatever `n` is.
  unfoldable pub tail_new : State → ℕ → Tail
  tail_new w n = record { w = w; ring = record { n = 0; i = 0; buf = [] } }

  -- `Write` is that of the embedded `io.Writer`.
  unfoldable pub tail_write : Tail → Bytes → Tail × ℕ × Option ℕ
  tail_write t p = let (w', m, e) = write t.w p in (record t { w = w' }, m, e)

  -- `Flush` of the writer, where it is a `Flusher`.
  unfoldable pub flush_writer : Option (State → State × Option ℕ) → State → State × Option ℕ
  flush_writer none w = (w, none)
  flush_writer (some flush) w = flush w

  -- What `TailWriter.Flush` does after the ring was written.
  unfoldable pub tail_sent : Option (State → State × Option ℕ) → Ring → Sent wr → Tail × Option ℕ
  tail_sent fl r (w, n, some e) = (record { w = w; ring = r }, some e)
  tail_sent fl r (w, n, none) =
      let (w', e) = flush_writer fl w in (record { w = w'; ring = ring_reset r }, e)

  unfoldable pub tail_flush : Option (State → State × Option ℕ) → Tail → Outcome (Tail × Option ℕ)
  tail_flush fl t = elim (ring_write_to wr t.ring t.w) [
    | panic ↦ panic
    | ok s ↦ ok (tail_sent fl t.ring s)
  ]

  unfoldable pub tail_writes : Tail → List Bytes → Tail
  tail_writes t [] = t
  tail_writes t (p ∷ ps) = tail_writes (tail_write t p).0 ps

  tail_writes-write_all :
      (t : Tail) (ps : List Bytes)
      → tail_writes t ps ≡ record { w = write_all wr t.w ps; ring = t.ring }
  unfolding tail_writes tail_write write_all
  tail_writes-write_all t [] = refl
  tail_writes-write_all t (p ∷ ps) = tail_writes-write_all (tail_write t p).0 ps

  -- A `TailWriter` keeps nothing back, whatever number of writes it was made for: every `Write` goes to the
  -- writer at once, and `Flush` writes nothing and only flushes the writer, where it can be flushed.
  pub tail_flush-tail_writes :
      (fl : Option (State → State × Option ℕ)) (n : ℕ) (w : State) (ps : List Bytes)
      → tail_flush fl (tail_writes (tail_new w n) ps) ≡ (
          let (w', e) = flush_writer fl (write_all wr w ps) in
          ok (record { w = w'; ring = record { n = 0; i = 0; buf = [] } }, e))
  unfolding tail_flush tail_sent ring_write_to ring_write_to_loop ring_reset tail_new
  tail_flush-tail_writes fl n w ps = rw (tail_writes-write_all (tail_new w n) ps) refl
