-- ===== src/Wire/Int64.antt =====
-- Go's `int64` (and `int`, on a 64-bit machine) as integers over the native numbers.
use tlog.Base.{ℕ, ◌+◌, ◌-◌, ◌^◌, ltb, if◌then◌else◌}

-- `negsuc n` is -(n + 1), as in the library, whose ℤ stands on another ℕ.
pub data ℤ : Type 0 where
  pos : ℕ → ℤ
  negsuc : ℕ → ℤ

-- `int64(x)` for a `uint64`
unfoldable pub to_int64 : ℕ → ℤ
to_int64 x = if ltb x (2 ^ 63) then pos x else negsuc (2 ^ 64 - 1 - x)

-- `i + int(l)` for an index `i` below 2 ^ 63: the sum wraps.
unfoldable pub add_int64 : ℕ → ℤ → ℤ
add_int64 i (pos n) = to_int64 (i + n)
add_int64 i (negsuc n) = if ltb n i then pos (i - n - 1) else negsuc (n - i)
