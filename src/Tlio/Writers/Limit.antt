-- ===== src/Tlio/Writers/Limit.antt =====
-- `HeadWriter` of tlio/writers.go over a list of writes.
use tlog.Base.{ℕ, zero, suc, ◌-◌, ◌≤◌, ◌≡◌, refl, ap, arith, none, List, [], ◌∷◌, length, take}
use tlog.Base.Bits.{Bytes}
use tlog.Base.Io.{Writer, write_all}
use tlog.Tlio.Writers.{Head, head_turn, head_write}

module _ (wr : Writer) where
  open wr use {State, write}

  unfoldable pub head_writes : Head wr → List Bytes → Head wr
  head_writes h [] = h
  head_writes h (p ∷ ps) = head_writes (head_write wr h p).0 ps

  writes_none :
      (w : State) (ps : List Bytes)
      → head_writes (record { w = w; n = 0 }) ps ≡ record { w = w; n = 0 }
  unfolding head_writes head_write head_turn
  writes_none w [] = refl
  writes_none w (p ∷ ps) = writes_none w ps

  head_writes-take :
      (n : ℕ) (w : State) (ps : List Bytes)
      → head_writes (record { w = w; n = n }) ps
        ≡ record { w = write_all wr w (take n ps); n = n - length ps }
  unfolding head_writes head_write head_turn write_all
  head_writes-take zero w ps = let z : 0 - length ps ≡ 0 = omega arith in rw z (writes_none w ps)
  head_writes-take (suc n) w [] = let z : suc n - 0 ≡ suc n = omega arith in rw z refl
  head_writes-take (suc n) w (p ∷ ps) =
      let one : suc n - suc (length ps) ≡ n - length ps = omega arith in
      rw one (head_writes-take n (write w p).0 ps)

  -- A `HeadWriter` for `n` writes passes on the first `n` of the slices that it is handed and drops the
  -- others; when `n` were passed on, the next is reported as written whole, and changes nothing.
  pub head_writes_lem :
      (n : ℕ) (w : State) (ps : List Bytes) (p : Bytes)
      → ((head_writes (record { w = w; n = n }) ps).w ≡ write_all wr w (take n ps))
        × (n ≤ length ps
            → head_write wr (head_writes (record { w = w; n = n }) ps) p
              ≡ (record { w = write_all wr w (take n ps); n = 0 }, length p, none))
  unfolding head_write head_turn
  head_writes_lem n w ps p = (
    ap (λ (h : Head wr). h.w) (head_writes-take n w ps),
    λ all. let spent : n - length ps ≡ 0 = omega arith in rw (head_writes-take n w ps, spent) refl,
  )
