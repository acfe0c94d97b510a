-- ===== src/Tlio/Writers/Closers.antt =====
-- `MultiCloser` of tlio/closers.go.
use tlog.Base.{ℕ, suc, ◌≡◌, refl, Option, none, some, List, [], ◌∷◌}
use tlog.Tlio.Writers.{first_of, CloseError, wrapped, multi_close_loop, multi_close}

module _ {World Ref : Type 0} (close : World → Ref → World × Option CloseError) where
  -- All closers closed, one after the other, with what each returned.
  unfoldable pub close_each : World → List Ref → World × List (Option CloseError)
  close_each wd [] = (wd, [])
  close_each wd (c ∷ cs) =
      let (wd', e) = close wd c in let (end, es) = close_each wd' cs in (end, e ∷ es)

  -- The first error of the results from the `i`-th on, with its number.
  unfoldable pub first_wrapped : ℕ → List (Option CloseError) → Option CloseError
  first_wrapped i [] = none
  first_wrapped i (none ∷ es) = first_wrapped (suc i) es
  first_wrapped i (some e ∷ es) = some (wrapped i e)

  first_of-first_wrapped :
      (i : ℕ) (err e : Option CloseError) (es : List (Option CloseError))
      → first_of
          (first_of err (elim e [ none ↦ none | some x ↦ some (wrapped i x) ]))
          (first_wrapped (suc i) es)
        ≡ first_of err (first_wrapped i (e ∷ es))
  unfolding first_of first_wrapped
  first_of-first_wrapped i none none es = refl
  first_of-first_wrapped i none (some e) es = refl
  first_of-first_wrapped i (some err) e es = refl

  loop-close_each :
      (i : ℕ) (cs : List Ref) (wd : World) (err : Option CloseError)
      → multi_close_loop close i cs wd err
        ≡ ((close_each wd cs).0, first_of err (first_wrapped i (close_each wd cs).1))
  unfolding multi_close_loop close_each first_wrapped first_of
  loop-close_each i [] wd none = refl
  loop-close_each i [] wd (some e) = refl
  loop-close_each i (c ∷ cs) wd err =
      let (wd', e) = close wd c in
      rw
        (
          loop-close_each (suc i) cs wd'
              (first_of err (elim e [ none ↦ none | some x ↦ some (wrapped i x) ])),
          first_of-first_wrapped i err e (close_each wd' cs).1,
        )
        refl

  -- `MultiCloser.Close` closes every closer once and in order, whatever fails, and returns the first error,
  -- with the number of its closer.
  pub multi_close-close_each :
      (cs : List Ref) (wd : World)
      → multi_close close cs wd ≡ ((close_each wd cs).0, first_wrapped 0 (close_each wd cs).1)
  unfolding multi_close first_wrapped first_of
  multi_close-close_each cs wd = loop-close_each 0 cs wd none
