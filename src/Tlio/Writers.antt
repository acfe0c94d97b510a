-- ===== src/Tlio/Writers.antt =====
-- tlio/writers.go and tlio/closers.go: the writers that pass on, limit, count or open again.
pub mod Multi
pub mod Limit
pub mod Reopen
pub mod Count
pub mod Closers
mod Runs
use tlog.Base.{
  ℕ, zero, suc, ◌+◌, ◌%◌, ◌^◌, ◌==◌, if◌then◌else◌, Bool, true, false, Option, none, some,
}
use tlog.Base.{List, [], ◌∷◌, ◌++◌, length}
use tlog.Base.Bits.{Bytes}
use tlog.Base.Io.{Writer}
use tlog.Base.Outcome.{Outcome, ok, panic}

-- `if err == nil { err = e }`
unfoldable pub first_of {ℓ} : {E : Type ℓ} → Option E → Option E → Option E
first_of none e = e
first_of (some e) e' = some e

-- An argument of `Append`: a writer, or a `MultiWriter`, whose writers are taken over.
pub data Arg {ℓ} (A : Type ℓ) : Type ℓ where
  single : A → Arg A
  tee : List A → Arg A

-- `MultiWriter.Append`: the writers of the arguments that are not nil. The receiver `w` is overwritten.
unfoldable pub append_loop {ℓ} : {A : Type ℓ} → List A → List (Option (Arg A)) → List A
append_loop w [] = w
append_loop w (none ∷ ws) = append_loop w ws
append_loop w (some (single s) ∷ ws) = append_loop (w ++ (s ∷ [])) ws
append_loop w (some (tee t) ∷ ws) = append_loop (w ++ t) ws

unfoldable pub append {ℓ} : {A : Type ℓ} → List A → List (Option (Arg A)) → List A
append w ws = append_loop [] ws

unfoldable pub new_multi_writer {ℓ} : {A : Type ℓ} → List (Option (Arg A)) → List A
new_multi_writer ws = append [] ws

module _ (wr : Writer) where
  open wr use {State, write}

  -- The loop of `MultiWriter.Write` from writer `i` on, with the results so far. No two of the writers
  -- share their state.
  unfoldable pub multi_write_loop :
      ℕ → List State → Bytes → ℕ → Option ℕ → List State × ℕ × Option ℕ
  multi_write_loop i [] p n err = ([], n, err)
  multi_write_loop i (w ∷ ws) p n err =
      let (w', m, e) = write w p in
      let (ws', n', err') =
        multi_write_loop (suc i) ws p (if i == 0 then m else n) (first_of err e) in
      (w' ∷ ws', n', err')

  unfoldable pub multi_write : List State → Bytes → List State × ℕ × Option ℕ
  multi_write ws p = multi_write_loop 0 ws p 0 none

  -- `HeadWriter`, for an `N` that is not negative.
  pub record Head : Type 0 where
    pub w : State
    pub n : ℕ

  -- `NewHeadWriter`
  unfoldable pub head_new : State → ℕ → Head
  head_new w n = record { w = w; n = n }

  unfoldable pub head_turn : ℕ → State → Bytes → Head × ℕ × Option ℕ
  head_turn zero w p = (record { w = w; n = 0 }, length p, none)
  head_turn (suc n) w p = let (w', m, e) = write w p in (record { w = w'; n = n }, m, e)

  unfoldable pub head_write : Head → Bytes → Head × ℕ × Option ℕ
  head_write h p = head_turn h.n h.w p

-- `CountingIODiscard`: two `atomic.Int64`, as numbers below 2 ^ 64.
pub record Counting : Type 0 where
  pub bytes : ℕ
  pub writes : ℕ

unfoldable pub counting_write : Counting → Bytes → Counting × ℕ
counting_write c p =
    (record { bytes = (c.bytes + length p) % 2 ^ 64; writes = (c.writes + 1) % 2 ^ 64 }, length p)

-- What a `ReWriter` stands on: writers that it holds by reference, and the `Open` it was made with.
pub record Openers : Type 1 where
  pub World : Type 0
  pub Ref : Type 0
  pub write : World → Ref → Bytes → World × ℕ × Option ℕ
  pub open_writer : World → Option Ref → Option ℕ → World × Option Ref × Option ℕ
  pub is_closer : Ref → Bool
  pub close : World → Ref → World × Option ℕ

pub data ReError : Type 0 where
  open_failed : ℕ → ReError
  write_failed : ℕ → ReError

pub record ReWriter (Ref : Type 0) : Type 0 where
  pub w : Option Ref
  pub closer : Option Ref

module _ (o : Openers) where
  open o use {World, Ref, write, open_writer, is_closer, close}

  abbrev pub Rewritten : Type 0
  Rewritten = World × ReWriter Ref × ℕ × Option ReError

  -- `NewReWriter`: no writer yet.
  unfoldable pub rewriter_new : ReWriter Ref
  rewriter_new = record { w = none; closer = none }

  -- `w.Closer, _ = w.Writer.(io.Closer)`
  unfoldable pub closer_of : Option Ref → Option Ref
  closer_of none = none
  closer_of (some h) = if is_closer h then some h else none

  -- The second `Write`, after `open`; on a nil writer it panics.
  unfoldable pub write_again : Bytes → World → Option Ref → Outcome Rewritten
  write_again p wd none = panic
  write_again p wd (some h) =
      let (wd', m, e) = write wd h p in
      ok (
        wd',
        record { w = some h; closer = closer_of (some h) },
        m,
        elim e [ none ↦ none | some e' ↦ some (write_failed e') ],
      )

  -- `open` and what follows it: `n` is the count of the write that failed. The error that `Open` is given
  -- is the result variable of `open`, which is nil.
  unfoldable pub opened : Bytes → ℕ → Option Ref → World × Option Ref × Option ℕ → Outcome Rewritten
  opened p n closer (wd, w, some e) =
      ok (wd, record { w = w; closer = closer }, n, some (open_failed e))
  opened p n closer (wd, w, none) = write_again p wd w

  unfoldable pub first_write : Bytes → ReWriter Ref → Ref → World × ℕ × Option ℕ → Outcome Rewritten
  first_write p r h (wd, n, none) = ok (wd, r, n, none)
  first_write p r h (wd, n, some e) = opened p n r.closer (open_writer wd r.w none)

  unfoldable pub rewriter_write : World → ReWriter Ref → Bytes → Outcome Rewritten
  rewriter_write wd r p = elim r.w [
    | none ↦ opened p 0 r.closer (open_writer wd none none)
    | some h ↦ first_write p r h (write wd h p)
  ]

  unfoldable pub rewriter_close : World → ReWriter Ref → World × Option ℕ
  rewriter_close wd r = elim r.closer [ none ↦ (wd, none) | some h ↦ close wd h ]

-- The errors of closers.go: `wrapped i e` is the error of closer `i` of a `MultiCloser`, `named e` one
-- with the message of a `WrappedCloser` or of `CloseWrap`.
pub data CloseError : Type 0 where
  plain : ℕ → CloseError
  wrapped : ℕ → CloseError → CloseError
  named : CloseError → CloseError

module _ {World Ref : Type 0} (close : World → Ref → World × Option CloseError) where
  -- The loop of `MultiCloser.Close` from closer `i` on.
  unfoldable pub multi_close_loop :
      ℕ → List Ref → World → Option CloseError → World × Option CloseError
  multi_close_loop i [] wd err = (wd, err)
  multi_close_loop i (c ∷ cs) wd err =
      let (wd', e) = close wd c in
      multi_close_loop (suc i) cs wd'
        (first_of err (elim e [ none ↦ none | some x ↦ some (wrapped i x) ]))

  unfoldable pub multi_close : List Ref → World → World × Option CloseError
  multi_close cs wd = multi_close_loop 0 cs wd none

  -- `WrappedCloser.Close`
  unfoldable pub wrapped_close : World → Ref → World × Option CloseError
  wrapped_close wd c =
      let (wd', e) = close wd c in (wd', elim e [ none ↦ none | some x ↦ some (named x) ])

  -- `CloseWrap`, with the error that `errp` points to; `none` is a value that is no `io.Closer`.
  unfoldable pub close_wrap : World → Option Ref → Option CloseError → World × Option CloseError
  close_wrap wd none err = (wd, err)
  close_wrap wd (some c) err =
      let (wd', e) = close wd c in
      (wd', first_of err (elim e [ none ↦ none | some x ↦ some (named x) ]))

-- `MultiWriter.Close` over writers that are references, with those that are closers told apart.
module _ {World Ref : Type 0} (is_closer : Ref → Bool)
    (close : World → Ref → World × Option ℕ) where
  unfoldable pub multi_writer_close_loop : List Ref → World → Option ℕ → World × Option ℕ
  multi_writer_close_loop [] wd err = (wd, err)
  multi_writer_close_loop (w ∷ ws) wd err =
      let (wd', e) = close wd w in
      let closed = multi_writer_close_loop ws wd' (first_of err e) in
      let passed = multi_writer_close_loop ws wd err in if is_closer w then closed else passed

  unfoldable pub multi_writer_close : List Ref → World → World × Option ℕ
  multi_writer_close ws wd = multi_writer_close_loop ws wd none
