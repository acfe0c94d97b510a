-- ===== src/Wire/Scan/Steps.antt =====
-- One round of the loop of `skip`, and what its rounds add up to.
use tlog.Base.{ℕ, suc, ◌+◌, ◌<◌, ◌≤◌, ◌≡◌, ap, ◌∙◌, arith, Bool, true, false}
use tlog.Base.{Option, some, [], ◌∷◌, ◌++◌, inl, inr, length, leb, ltb}
use tlog.Base.{if◌then◌else◌, Bool-cases, ◌||◌, leb→le, ltb→lt}
use tlog.Base.Bits.{Bytes}
use tlog.Wire.{rfc8949}
use tlog.Wire.Int64.{ℤ, pos, negsuc}
use tlog.Wire.Scan.{skip_elements, proceed, finish, is_open, below_sub, is_break, e_unexpected_eof}
use tlog.Wire.Scan.View.{View, View-head}

-- The end of `m` bytes from `i`, or the wish for more where the buffer ends before.
abbrev pub upto : Bytes → ℕ → ℕ → ℤ
upto b i m = if leb (i + m) (length b) then pos (i + m) else e_unexpected_eof

pub finish-upto : (b : Bytes) (i m : ℕ) → finish b (pos (i + m)) ≡ upto b i m
unfolding finish
finish-upto b i m = ground arith

-- Two stretches, one after the other.
pub proceed-upto :
    (b : Bytes) (i m n : ℕ) (next : ℕ → Option ℤ)
    → (i + m ≤ length b → next (i + m) ≡ some (upto b (i + m) n))
    → proceed (some (upto b i m)) next ≡ some (upto b i (m + n))
unfolding proceed
proceed-upto b i m n next h = elim (Bool-cases (leb (i + m) (length b))) [
  | inl fits ↦ ground (arith, h (leb→le _ _ fits))
  | inr cut ↦ ground arith
]

-- What `sub` says of the elements that are to come, and the bytes that close them.
abbrev pub Closes : Bool → ℤ → ℕ → ℕ → Bytes → Type 0
Closes true sub el n closing = (sub ≡ negsuc 0) × (closing ≡ 0xff ∷ [])
Closes false sub el n closing = (sub ≡ pos (el + n)) × (closing ≡ [])

pub Closes-next :
    (o : Bool) (sub : ℤ) (el n : ℕ) (closing : Bytes)
    → Closes o sub el (suc n) closing
    → Closes o sub (el + 1) n closing
Closes-next true sub el n closing h = h
Closes-next false sub el n closing h = (h.0 ∙ ap (λ (m : ℕ). pos m) (omega arith), h.1)

module _ (b s : Bytes) (i : ℕ) (rounds : ℕ) (skip : ℕ → Option ℤ) where
  pub elements_end :
      (is_map o : Bool) (sub : ℤ) (el : ℕ) (closing : Bytes)
      → Closes o sub el 0 closing
      → View b i (closing ++ s)
      → skip_elements rfc8949 (suc rounds) skip b is_map sub el i ≡ some (upto b i (length closing))
  unfolding skip_elements is_open below_sub is_break finish
  elements_end is_map true sub el closing (p, q) v =
      let w : View b i (0xff ∷ s) = rw q at v in
      elim (Bool-cases (ltb i (length b))) [
        | inl more ↦ ground (arith, View-head 0xff s w (ltb→lt i (length b) more))
        | inr end ↦ ground arith
      ]
  elements_end is_map false sub el closing (p, q) v = ground arith

  open_test :
      (o : Bool) (sub : ℤ) (el n : ℕ) (closing : Bytes)
      → Closes o sub el n closing
      → is_open sub ≡ o
  unfolding is_open
  open_test true sub el n closing (p, q) = rw p
  open_test false sub el n closing (p, q) = rw p

  more_test :
      (o : Bool) (sub : ℤ) (el n : ℕ) (closing : Bytes)
      → Closes o sub el (suc n) closing
      → (is_open sub || below_sub el sub) ≡ true
  unfolding is_open below_sub
  more_test true sub el n closing (p, q) = rw p
  more_test false sub el n closing (p, q) = ground arith

  -- With an element to come, the end of the buffer asks for more.
  pub elements_cut :
      (is_map o : Bool) (sub : ℤ) (el n : ℕ) (closing : Bytes)
      → Closes o sub el (suc n) closing
      → length b ≡ i
      → skip_elements rfc8949 (suc rounds) skip b is_map sub el i ≡ some e_unexpected_eof
  unfolding skip_elements
  elements_cut is_map o sub el n closing h e = ground (arith, more_test o sub el n closing h)

  no_break : (x : ℕ) → View b i (x ∷ s) → i < length b → x < 0xff → is_break rfc8949 b i ≡ false
  unfolding is_break
  no_break x v h hx = ground (arith, View-head x s v h)

  pub elements_next :
      (o : Bool) (sub : ℤ) (el n x : ℕ) (closing : Bytes)
      → Closes o sub el (suc n) closing
      → View b i (x ∷ s)
      → i < length b
      → x < 0xff
      → skip_elements rfc8949 (suc rounds) skip b false sub el i
        ≡ proceed (skip i) (skip_elements rfc8949 rounds skip b false sub (el + 1))
  unfolding skip_elements
  elements_next o sub el n x closing h v hi hx =
      ground (arith, more_test o sub el n closing h, no_break x v hi hx)

  pub pairs_next :
      (o : Bool) (sub : ℤ) (el n x : ℕ) (closing : Bytes)
      → Closes o sub el (suc n) closing
      → View b i (x ∷ s)
      → i < length b
      → x < 0xff
      → skip_elements rfc8949 (suc rounds) skip b true sub el i
        ≡ proceed
            (skip i)
            (λ i'. proceed (skip i') (skip_elements rfc8949 rounds skip b true sub (el + 1)))
  unfolding skip_elements
  pairs_next o sub el n x closing h v hi hx =
      ground (arith, more_test o sub el n closing h, no_break x v hi hx)
