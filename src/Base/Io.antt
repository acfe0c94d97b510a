-- ===== src/Base/Io.antt =====
-- The interfaces of Go's io package that the parts stand on, as a state and its functions.
use Prim.Native.Nat.{ℕ}
use mathlib.Core.Option.{Option}
use mathlib.Core.List.{List, [], ◌∷◌}
use tlog.Base.Bits.{Bytes}

-- An `io.Writer` as its state and its `Write`, which returns a count and an error.
pub record Writer : Type 1 where
  pub State : Type 0
  pub write : State → Bytes → State × ℕ × Option ℕ

-- The state of a writer after a `Write` for each slice of a list, whatever the writes return.
module _ (wr : Writer) where
  open wr use {State, write}

  unfoldable pub write_all : State → List Bytes → State
  write_all w [] = w
  write_all w (b ∷ bs) = write_all (write w b).0 bs
