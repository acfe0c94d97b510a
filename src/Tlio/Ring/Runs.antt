-- ===== src/Tlio/Ring/Runs.antt =====
-- Runs of `RingWriter` and `TailWriter`, and the theorems about them at concrete inputs.
use tlog.Base.{◌≡◌, refl, arith, none, some, List, [], ◌∷◌, length}
use tlog.Base.Bits.{Bytes}
use tlog.Base.Io.{Writer, write_all}
use tlog.Base.Outcome.{ok, panic}
use tlog.Tlio.Ring.{Ring, ring_new, slot, store, ring_write, ring_writes, ring_write_to}
use tlog.Tlio.Ring.Recent.{kept, send_each, go_on, ring_write_to-recent}
use tlog.Tlio.Ring.Tail.{tail_new, tail_writes, tail_flush, flush_writer, tail_flush-tail_writes}

-- A writer that keeps the slices, and fails on a slice of three bytes.
abbrev keeper : Writer
keeper = record {
  State = List Bytes;
  write = λ w b. (b ∷ w, length b, elim b [ _ ∷ _ ∷ _ ∷ [] ↦ some 7 | _ ↦ none ]);
}

abbrev four_writes : List Bytes
four_writes = (1 ∷ []) ∷ (2 ∷ []) ∷ [] ∷ (3 ∷ 4 ∷ []) ∷ []

three_slots :
    ring_writes (ring_new 3) four_writes
    ≡ ok (record { n = 3; i = 4; buf = (3 ∷ 4 ∷ []) ∷ (2 ∷ []) ∷ [] ∷ [] })
unfolding ring_writes ring_new ring_write slot store
three_slots = refl

no_slots : ring_write (ring_new 0) (1 ∷ []) ≡ panic
unfolding ring_write ring_new slot
no_slots = refl

ring_write_to-recent_example :
    (r : Ring) × (ring_writes (ring_new 3) four_writes ≡ ok r)
    × (ring_write_to keeper r [] ≡ ok ((3 ∷ 4 ∷ []) ∷ (2 ∷ []) ∷ [], 3, none))
unfolding send_each kept go_on
ring_write_to-recent_example = ring_write_to-recent keeper 3 four_writes [] (omega arith)

tail_flush-tail_writes_example :
    tail_flush keeper none (tail_writes keeper (tail_new keeper [] 2) four_writes)
    ≡ ok (
      record {
        w = (3 ∷ 4 ∷ []) ∷ [] ∷ (2 ∷ []) ∷ (1 ∷ []) ∷ [];
        ring = record { n = 0; i = 0; buf = [] };
      },
      none,
    )
unfolding write_all flush_writer
tail_flush-tail_writes_example = tail_flush-tail_writes keeper none 2 [] four_writes
