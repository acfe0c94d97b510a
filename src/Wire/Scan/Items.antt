-- ===== src/Wire/Scan/Items.antt =====
-- `skip` of tlwire/reader.go on the elements of arrays and maps, and on every event.
use tlog.Base.{ℕ, suc, ◌+◌, ◌<◌, ◌≤◌, ◌≡◌, ap, sym, ◌∙◌, arith, Bool, true, false}
use tlog.Base.{Option, some, ◌∷◌, ◌++◌, inl, inr, length, ltb, append_assoc}
use tlog.Base.{Bool-cases, ltb→lt, length-append}
use tlog.Base.Bits.{Bytes}
use tlog.Wire.{rfc8949}
use tlog.Wire.Int64.{ℤ}
use tlog.Wire.Scan.{skip_elements, e_unexpected_eof}
use tlog.Wire.Scan.Grammar.{Item, Items, Pairs}
use tlog.Wire.Scan.Grammar.{nil, cons, end, pair}
use tlog.Wire.Scan.Grammar.{encode, encode_items, encode_pairs}
use tlog.Wire.Scan.Grammar.{count_items, count_pairs, IsItem, AreItems, ArePairs}
use tlog.Wire.Scan.View.{View}
use tlog.Wire.Scan.Steps.{upto, proceed-upto, Closes, elements_cut}
use tlog.Wire.Scan.Steps.{elements_next, pairs_next}
use tlog.Wire.Scan.Skip.{encode_starts, encode_nonempty}

View-start :
    (b : Bytes) (i y : ℕ) (a t s : Bytes) → a ≡ y ∷ t → View b i (a ++ s) → View b i (y ∷ (t ++ s))
View-start b i y a t s e v = rw e at v

pub View-regroup :
    (b : Bytes) (i : ℕ) (a c s : Bytes) → View b i ((a ++ c) ++ s) → View b i (a ++ (c ++ s))
View-regroup b i a c s v = rw append_assoc at v

upto_end : (b : Bytes) (i m : ℕ) → length b ≤ i → 0 < m → upto b i m ≡ e_unexpected_eof
upto_end b i m h p = ground arith

module _ (b s closing : Bytes) (i r el n : ℕ) (sk : ℕ → Option ℤ) (o : Bool) (sub : ℤ)
    (closes : Closes o sub el (suc n) closing) where
  pub items_cons :
      (x : Item) (m : ℕ)
      → IsItem x
      → View b i (encode x ++ s)
      → sk i ≡ some (upto b i (length (encode x)))
      → (i + length (encode x) ≤ length b
          → skip_elements rfc8949 r sk b false sub (el + 1) (i + length (encode x))
            ≡ some (upto b (i + length (encode x)) m))
      → skip_elements rfc8949 (suc r) sk b false sub el i ≡ some (upto b i (length (encode x) + m))
  items_cons x m hx v one rest =
      let (y, t, e, hy) = encode_starts x hx in
      elim (Bool-cases (ltb i (length b))) [
        | inl more ↦
            elements_next b (t ++ s) i r sk o sub el n y closing closes
              (View-start b i y (encode x) t s e v) (ltb→lt i (length b) more) hy
            ∙ rw one (proceed-upto b i (length (encode x)) m _ rest)
        | inr stop ↦
            elements_cut b s i r sk false o sub el n closing closes (ground arith)
            ∙ ap (λ z. some z)
                (sym (upto_end b i _ (ground arith) (omega (arith, encode_nonempty x hx))))
      ]

  pub pairs_cons :
      (x y : Item) (m : ℕ)
      → IsItem x
      → View b i (encode x ++ s)
      → sk i ≡ some (upto b i (length (encode x)))
      → (i + length (encode x) ≤ length b
          → sk (i + length (encode x)) ≡ some (upto b (i + length (encode x)) (length (encode y))))
      → (i + length (encode x) + length (encode y) ≤ length b
          → skip_elements rfc8949 r sk b true sub
              (el + 1)
              (i + length (encode x) + length (encode y))
            ≡ some (upto b (i + length (encode x) + length (encode y)) m))
      → skip_elements rfc8949 (suc r) sk b true sub el i
        ≡ some (upto b i (length (encode x) + (length (encode y) + m)))
  pairs_cons x y m hx v one two rest =
      let (z, t, e, hz) = encode_starts x hx in
      elim (Bool-cases (ltb i (length b))) [
        | inl more ↦
            pairs_next b (t ++ s) i r sk o sub el n z closing closes
              (View-start b i z (encode x) t s e v) (ltb→lt i (length b) more) hz
            ∙ rw one (
                proceed-upto b i (length (encode x)) (length (encode y) + m) _
                  (λ fits. rw (two fits) (proceed-upto b _ (length (encode y)) m _ rest)))
        | inr stop ↦
            elements_cut b s i r sk true o sub el n closing closes (ground arith)
            ∙ ap (λ u. some u)
                (sym (upto_end b i _ (ground arith) (omega (arith, encode_nonempty x hx))))
      ]

-- Each element takes a byte at least.
pub count_items-le : (xs : Items) → AreItems xs → count_items xs ≤ length (encode_items xs)
unfolding count_items encode IsItem
count_items-le nil h = omega arith
count_items-le (cons x xs) h = omega (
  arith,
  encode_nonempty x h.0,
  count_items-le xs h.1,
  length-append (encode x) (encode_items xs),
)

pub count_pairs-le : (xs : Pairs) → ArePairs xs → count_pairs xs ≤ length (encode_pairs xs)
unfolding count_pairs encode IsItem
count_pairs-le end h = omega arith
count_pairs-le (pair x y xs) h = omega (
  arith,
  encode_nonempty x h.0,
  count_pairs-le xs h.2,
  length-append (encode x) (encode y ++ encode_pairs xs),
  length-append (encode y) (encode_pairs xs),
)
