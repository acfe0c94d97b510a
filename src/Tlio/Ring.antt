-- ===== src/Tlio/Ring.antt =====
-- tlio/writers.go: `RingWriter`, which keeps the last writes, and `TailWriter`, which stands on it.
pub mod Mod
pub mod Recent
pub mod Tail
mod Runs
use tlog.Base.{ℕ, zero, suc, ◌+◌, ◌%◌, ◌==◌, if◌then◌else◌, Option, none, some, List, [], ◌∷◌}
use tlog.Base.{length, get_elem?, set, replicate, map}
use tlog.Base.Bits.{Bytes}
use tlog.Base.Io.{Writer}
use tlog.Base.Outcome.{Outcome, ok, panic, ◌>>=◌}

pub record Ring : Type 0 where
  pub n : ℕ
  pub i : ℕ
  pub buf : List Bytes

-- `NewRingWriter`
unfoldable pub ring_new : ℕ → Ring
ring_new n = record { n = n; i = 0; buf = replicate n [] }

-- `i := w.i % w.n`: a remainder by zero panics.
unfoldable pub slot : ℕ → ℕ → Outcome ℕ
slot i zero = panic
slot i (suc m) = ok (i % suc m)

-- `RingWriter.Write`: the state and the count. `w.buf[i]` panics out of range.
unfoldable pub store : Ring → Bytes → ℕ → Outcome (Ring × ℕ)
store r p i = elim (get_elem? r.buf i) [
  | none ↦ panic
  | some _ ↦ ok (record r { i = suc r.i; buf = set r.buf i p }, length p)
]

unfoldable pub ring_write : Ring → Bytes → Outcome (Ring × ℕ)
ring_write r p = elim (slot r.i r.n) [ panic ↦ panic | ok i ↦ store r p i ]

-- `RingWriter.Reset`: the slices are cut to length 0, the position stays.
unfoldable pub ring_reset : Ring → Ring
ring_reset r = record r { buf = map (λ b. []) r.buf }

module _ (wr : Writer) where
  open wr use {State, write}

  abbrev pub Sent : Type 0
  Sent = State × ℕ × Option ℕ

  -- The end of a round of `RingWriter.WriteTo`: the next round, or the result.
  unfoldable pub sent : ℕ → State × ℕ × Option ℕ → (State → ℕ → Outcome Sent) → Outcome Sent
  sent total (w, m, none) next = next w (total + m)
  sent total (w, m, some e) next = ok (w, total + m, some e)

  -- A round of `RingWriter.WriteTo`, for the slice of its slot.
  unfoldable pub send : Bytes → State → ℕ → (State → ℕ → Outcome Sent) → Outcome Sent
  send [] w total next = next w total
  send (x ∷ b) w total next = sent total (write w (x ∷ b)) next

  -- The loop of `RingWriter.WriteTo` for the `rounds` positions from `i` on.
  unfoldable pub ring_write_to_loop : ℕ → ℕ → Ring → State → ℕ → Outcome Sent
  ring_write_to_loop zero i r w total = ok (w, total, none)
  ring_write_to_loop (suc rounds) i r w total = elim (slot i r.n) [
    | panic ↦ panic
    | ok j ↦ elim (get_elem? r.buf j) [
      | none ↦ panic
      | some b ↦ send b w total (ring_write_to_loop rounds (suc i) r)
    ]
  ]

  unfoldable pub ring_write_to : Ring → State → Outcome Sent
  ring_write_to r w = ring_write_to_loop r.n r.i r w 0

-- The states of a `RingWriter` after a list of writes.
unfoldable pub ring_writes : Ring → List Bytes → Outcome Ring
ring_writes r [] = ok r
ring_writes r (p ∷ ps) = ring_write r p >>= (λ (s : Ring × ℕ). ring_writes s.0 ps)
