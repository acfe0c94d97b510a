-- ===== src/Tlio/Writers/Multi.antt =====
-- `MultiWriter` of tlio/writers.go: every writer gets every slice.
use tlog.Base.{
  ℕ, suc, ◌==◌, ◌≡◌, refl, sym, ◌∙◌, arith, false, Option, none, some, List, [], ◌∷◌, ◌++◌, map,
}
use tlog.Base.{append_assoc, append-nil, append_shift}
use tlog.Base.Bits.{Bytes}
use tlog.Base.Io.{Writer}
use tlog.Tlio.Writers.{
  first_of, Arg, single, tee, append_loop, append, multi_write_loop, multi_write,
}

-- The writers of a list of arguments.
unfoldable pub writers_of {ℓ} : {A : Type ℓ} → List (Option (Arg A)) → List A
writers_of [] = []
writers_of (none ∷ ws) = writers_of ws
writers_of (some (single s) ∷ ws) = s ∷ writers_of ws
writers_of (some (tee t) ∷ ws) = t ++ writers_of ws

append_loop-writers_of {ℓ} :
    {A : Type ℓ} (w : List A) (ws : List (Option (Arg A))) → append_loop w ws ≡ w ++ writers_of ws
unfolding append_loop writers_of
append_loop-writers_of w [] = sym (append-nil w)
append_loop-writers_of w (none ∷ ws) = append_loop-writers_of w ws
append_loop-writers_of w (some (single s) ∷ ws) =
    append_loop-writers_of (w ++ (s ∷ [])) ws ∙ sym (append_shift w (writers_of ws) s)
append_loop-writers_of w (some (tee t) ∷ ws) =
    append_loop-writers_of (w ++ t) ws ∙ append_assoc w t (writers_of ws)

-- The first error of a list of results.
unfoldable pub first_error : List (Option ℕ) → Option ℕ
first_error [] = none
first_error (none ∷ es) = first_error es
first_error (some e ∷ es) = some e

first_of-first_error :
    (err e : Option ℕ) (es : List (Option ℕ))
    → first_of (first_of err e) (first_error es) ≡ first_of err (first_error (e ∷ es))
unfolding first_of first_error
first_of-first_error none none es = refl
first_of-first_error none (some e) es = refl
first_of-first_error (some err) e es = refl

later : (i : ℕ) → (suc i == 0) ≡ false
later i = ground arith

module _ (wr : Writer) where
  open wr use {State, write}

  -- The count of the first writer, or `n` where there is none.
  unfoldable pub first_count : ℕ → List State → Bytes → ℕ
  first_count n [] p = n
  first_count n (w ∷ ws) p = (write w p).1

  loop_rest :
      (i : ℕ) (ws : List State) (p : Bytes) (n : ℕ) (err : Option ℕ)
      → multi_write_loop wr (suc i) ws p n err
        ≡ (map (λ w. (write w p).0) ws, n, first_of err (first_error (map (λ w. (write w p).2) ws)))
  unfolding multi_write_loop first_of first_error
  loop_rest i [] p n none = refl
  loop_rest i [] p n (some e) = refl
  loop_rest i (w ∷ ws) p n err =
      let (w', m, e) = write w p in
      rw
        (
          later i,
          loop_rest (suc i) ws p n (first_of err e),
          first_of-first_error err e (map (λ w. (write w p).2) ws),
        )
        refl

  write_first :
      (ws : List State) (p : Bytes)
      → multi_write_loop wr 0 ws p 0 none ≡ (
        map (λ w. (write w p).0) ws,
        first_count 0 ws p,
        first_error (map (λ w. (write w p).2) ws),
      )
  unfolding multi_write_loop first_of first_error first_count
  write_first [] p = refl
  write_first (w ∷ ws) p =
      let (w', m, e) = write w p in
      rw (loop_rest 0 ws p m e, first_of-first_error none e (map (λ w. (write w p).2) ws)) refl

  -- `MultiWriter.Write` on the writers that `Append` collected: whatever fails, each of them gets the slice
  -- once, the count is that of the first, and the error is the first there was. The writers that the
  -- receiver of `Append` had before get nothing.
  pub multi_write-append :
      (old : List State) (ws : List (Option (Arg State))) (p : Bytes)
      → multi_write wr (append old ws) p ≡ (
        map (λ w. (write w p).0) (writers_of ws),
        first_count 0 (writers_of ws) p,
        first_error (map (λ w. (write w p).2) (writers_of ws)),
      )
  unfolding multi_write append
  multi_write-append old ws p = rw (append_loop-writers_of [] ws) (write_first (writers_of ws) p)
