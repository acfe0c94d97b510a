-- ===== src/Tlio/Writers/Count.antt =====
-- `CountingIODiscard` of tlio/writers.go under writes of two goroutines.
use tlog.Base.{ℕ, suc, ◌+◌, ◌%◌, ◌^◌, ◌<◌, ◌≡◌, refl, ◌∙◌, arith, List, [], ◌∷◌, length}
use tlog.Base.Bits.{Bytes}
use tlog.Tlio.Writers.{Counting, counting_write}

-- `zs` is a run of the writes `xs` of one goroutine and `ys` of another, each in its order. A write adds to
-- both counters, and no order of the additions shows afterwards.
pub data Interleaving : List Bytes → List Bytes → List Bytes → Type 0 where
  done : Interleaving [] [] []
  left :
      {p : Bytes} {xs ys zs : List Bytes}
      → Interleaving xs ys zs
      → Interleaving (p ∷ xs) ys (p ∷ zs)
  right :
      {p : Bytes} {xs ys zs : List Bytes}
      → Interleaving xs ys zs
      → Interleaving xs (p ∷ ys) (p ∷ zs)

unfoldable pub counting_writes : Counting → List Bytes → Counting
counting_writes c [] = c
counting_writes c (p ∷ ps) = counting_writes (counting_write c p).0 ps

unfoldable pub total : List Bytes → ℕ
total [] = 0
total (p ∷ ps) = length p + total ps

writes_total :
    (c : Counting) (ps : List Bytes)
    → c.bytes < 2 ^ 64
    → c.writes < 2 ^ 64
    → counting_writes c ps
      ≡ record { bytes = (c.bytes + total ps) % 2 ^ 64; writes = (c.writes + length ps) % 2 ^ 64 }
unfolding counting_writes counting_write total
writes_total c [] hb hw =
    let b : (c.bytes + 0) % 2 ^ 64 ≡ c.bytes = omega arith in
    let w : (c.writes + 0) % 2 ^ 64 ≡ c.writes = omega arith in rw (b, w) refl
writes_total c (p ∷ ps) hb hw =
    let b : ((c.bytes + length p) % 2 ^ 64 + total ps) % 2 ^ 64
        ≡ (c.bytes + (length p + total ps)) % 2 ^ 64 =
      omega arith in
    let w : ((c.writes + 1) % 2 ^ 64 + length ps) % 2 ^ 64 ≡ (c.writes + suc (length ps)) % 2 ^ 64 =
      omega arith in
    writes_total (counting_write c p).0 ps (omega arith) (omega arith) ∙ rw (b, w) refl

Interleaving-total :
    {xs ys zs : List Bytes}
    → Interleaving xs ys zs
    → (total zs ≡ total xs + total ys) × (length zs ≡ length xs + length ys)
unfolding total
Interleaving-total done = (refl, refl)
Interleaving-total (left i) = let (t, l) = Interleaving-total i in (omega arith, omega arith)
Interleaving-total (right i) = let (t, l) = Interleaving-total i in (omega arith, omega arith)

-- Whatever the order in which the writes of two goroutines come, a new `CountingIODiscard` ends with the
-- number of all their bytes and the number of all their writes, each modulo 2 ^ 64.
pub counting_writes-Interleaving :
    (xs ys zs : List Bytes)
    → Interleaving xs ys zs
    → counting_writes (record { bytes = 0; writes = 0 }) zs
      ≡ record { bytes = (total xs + total ys) % 2 ^ 64; writes = (length xs + length ys) % 2 ^ 64 }
counting_writes-Interleaving xs ys zs i =
    let (t, l) = Interleaving-total i in
    let b : (0 + total zs) % 2 ^ 64 ≡ (total xs + total ys) % 2 ^ 64 = omega (arith, t) in
    let w : (0 + length zs) % 2 ^ 64 ≡ (length xs + length ys) % 2 ^ 64 = omega (arith, l) in
    writes_total (record { bytes = 0; writes = 0 }) zs (omega arith) (omega arith) ∙ rw (b, w) refl
