-- ===== src/Wire/Scan/Events.antt =====
-- `skip` of tlwire/reader.go finds the end of every event, or asks for more.
use tlog.Base.{ℕ, zero, suc, ◌+◌, ◌*◌, ◌^◌, ◌<◌, ◌≤◌, ◌≡◌, refl, ap, ◌∙◌, arith, Bool, true, false}
use tlog.Base.{Option, some, [], ◌∷◌, ◌++◌, length}
use tlog.Base.{if◌then◌else◌, length-append}
use tlog.Base.Bits.{Bytes}
use tlog.Wire.{Consts, rfc8949}
use tlog.Wire.Int64.{ℤ, pos, negsuc}
use tlog.Wire.Scan.{skip_elements, skip_within, skip}
use tlog.Wire.Scan.Grammar.{Item, Items, Pairs, number, text, array, open_array, map}
use tlog.Wire.Scan.Grammar.{
  open_map, labelled, literal, float, nil, cons, end, pair, Literal, FloatSize,
}
use tlog.Wire.Scan.Grammar.{
  head, literal_code, float_code, float_size, encode, encode_items, encode_pairs,
}
use tlog.Wire.Scan.Grammar.{count_items, count_pairs, IsItem, AreItems, ArePairs}
use tlog.Wire.Scan.View.{View, View-drop}
use tlog.Wire.Scan.Steps.{upto, Closes, Closes-next, elements_end}
use tlog.Wire.Scan.Skip.{
  head_then, byte_then, skip_number, skip_text, special_literal, special_float,
}
use tlog.Wire.Scan.Skip.{
  skip_special_byte, to_int64-small, encode_nonempty, tagged_array, tagged_map,
}
use tlog.Wire.Scan.Skip.{tagged_semantic}
use tlog.Wire.Scan.Tags.{length-head, read_tag_open}
use tlog.Wire.Scan.Items.{View-regroup, items_cons, pairs_cons, count_items-le, count_pairs-le}

literal_fits : (l : Literal) → literal_code l < 32
literal_fits Literal.lit_false = omega arith
literal_fits _ = omega arith

float_fits : (f : FloatSize) → float_code f < 32
float_fits FloatSize.f8 = omega arith
float_fits _ = omega arith

at_length :
    (r : Option ℤ) (b : Bytes) (i m n : ℕ) → m ≡ n → r ≡ some (upto b i m) → r ≡ some (upto b i n)
at_length r b i m n e h = rw (← e) h

from_zero : (n : ℕ) → pos n ≡ pos (0 + n)
from_zero n = ap (λ (m : ℕ). pos m) (omega arith)

mutual
  unfolding encode IsItem count_items count_pairs

  skip_item :
      (x : Item) (fuel i : ℕ) (b s : Bytes)
      → IsItem x
      → length b < i + fuel
      → i + length (encode x) < 2 ^ 63
      → View b i (encode x ++ s)
      → skip_within rfc8949 fuel b i ≡ some (upto b i (length (encode x)))
  skip_item x zero i b s h hf hs v = absurd (omega arith)
  skip_item (number neg w n) (suc fuel) i b s h hf hs v =
      at_length _ b i _ _ (omega arith) (skip_number b s i fuel neg w n h v)
  skip_item (text is_string w t) (suc fuel) i b s h hf hs v =
      let size = length-append (head (if is_string then 3 else 2) w (length t)) t in
      at_length _ b i _ _ (omega (arith, size)) (
        skip_text b t (t ++ s) i fuel is_string w h (omega (arith, size))
          (View-regroup b i _ t s v))
  skip_item (array w xs) (suc fuel) i b s h hf hs v =
      let first = head 4 w (count_items xs) in
      let size = length-append first (encode_items xs) in
      let least = count_items-le xs h.1 in
      let one = length-head 4 w (count_items xs) in
      at_length _ b i _ _ (omega (arith, size)) (
        head_then b (encode_items xs ++ s) i fuel 4 (length (encode_items xs)) w (count_items xs)
          (omega arith) h.0 (View-regroup b i first (encode_items xs) s v)
          (λ fits.
            tagged_array fuel _ b i _ _
            ∙ rw (to_int64-small (count_items xs) (omega (arith, size, least, one))) (
                at_length _ b _ _ _ (omega arith) (
                  skip_items xs fuel fuel 0 (i + length first) false (pos (count_items xs)) [] b s
                    h.1 (omega (arith, one)) (omega (arith, one)) (omega (arith, size))
                    (from_zero (count_items xs), refl)
                    (View-drop first (encode_items xs ++ s)
                      (View-regroup b i first (encode_items xs) s v) fits)))))
  skip_item (open_array xs) (suc fuel) i b s h hf hs v =
      let size = length-append (encode_items xs) (0xff ∷ []) in
      let inner = View-regroup b i (0x9f ∷ encode_items xs) (0xff ∷ []) s v in
      at_length _ b i _ _ (omega (arith, size)) (
        byte_then b i fuel (length (encode_items xs) + 1) (4 * 32) (negsuc 0)
          (λ hi. read_tag_open b _ i 4 (omega arith) inner hi)
          (λ fits.
            tagged_array fuel _ b i _ _
            ∙ skip_items xs fuel fuel 0 (i + 1) true (negsuc 0) (0xff ∷ []) b s h (omega arith)
                (omega arith) (omega (arith, size)) (refl, refl)
                (View-drop (0x9f ∷ []) (encode_items xs ++ (0xff ∷ s)) inner fits)))
  skip_item (map w xs) (suc fuel) i b s h hf hs v =
      let first = head 5 w (count_pairs xs) in
      let size = length-append first (encode_pairs xs) in
      let least = count_pairs-le xs h.1 in
      let one = length-head 5 w (count_pairs xs) in
      at_length _ b i _ _ (omega (arith, size)) (
        head_then b (encode_pairs xs ++ s) i fuel 5 (length (encode_pairs xs)) w (count_pairs xs)
          (omega arith) h.0 (View-regroup b i first (encode_pairs xs) s v)
          (λ fits.
            tagged_map fuel _ b i _ _
            ∙ rw (to_int64-small (count_pairs xs) (omega (arith, size, least, one))) (
                at_length _ b _ _ _ (omega arith) (
                  skip_pairs xs fuel fuel 0 (i + length first) false (pos (count_pairs xs)) [] b s
                    h.1 (omega (arith, one)) (omega (arith, one)) (omega (arith, size))
                    (from_zero (count_pairs xs), refl)
                    (View-drop first (encode_pairs xs ++ s)
                      (View-regroup b i first (encode_pairs xs) s v) fits)))))
  skip_item (open_map xs) (suc fuel) i b s h hf hs v =
      let size = length-append (encode_pairs xs) (0xff ∷ []) in
      let inner = View-regroup b i (0xbf ∷ encode_pairs xs) (0xff ∷ []) s v in
      at_length _ b i _ _ (omega (arith, size)) (
        byte_then b i fuel (length (encode_pairs xs) + 1) (5 * 32) (negsuc 0)
          (λ hi. read_tag_open b _ i 5 (omega arith) inner hi)
          (λ fits.
            tagged_map fuel _ b i _ _
            ∙ skip_pairs xs fuel fuel 0 (i + 1) true (negsuc 0) (0xff ∷ []) b s h (omega arith)
                (omega arith) (omega (arith, size)) (refl, refl)
                (View-drop (0xbf ∷ []) (encode_pairs xs ++ (0xff ∷ s)) inner fits)))
  skip_item (labelled w n x) (suc fuel) i b s h hf hs v =
      let first = head 6 w n in
      let size = length-append first (encode x) in
      let one = length-head 6 w n in
      at_length _ b i _ _ (omega (arith, size)) (
        head_then b (encode x ++ s) i fuel 6 (length (encode x)) w n (omega arith) h.0
          (View-regroup b i first (encode x) s v)
          (λ fits.
            tagged_semantic fuel _ b i _ _
            ∙ skip_item x fuel (i + length first) b s h.1 (omega (arith, one)) (omega (arith, size))
                (View-drop first (encode x ++ s) (View-regroup b i first (encode x) s v) fits)))
  skip_item (literal l) (suc fuel) i b s h hf hs v =
      skip_special_byte b s i fuel (literal_code l) 0 (literal_fits l) v
        (special_literal b (i + 1) l)
  skip_item (float f t) (suc fuel) i b s h hf hs v = at_length _ b i _ _ (omega arith) (
      skip_special_byte b (t ++ s) i fuel (float_code f) (float_size f) (float_fits f) v
        (special_float b (i + 1) f))

  skip_items :
      (xs : Items) (fuel rounds el i : ℕ) (o : Bool) (sub : ℤ) (closing b s : Bytes)
      → AreItems xs
      → length b < i + rounds
      → length b < i + fuel
      → i + length (encode_items xs) < 2 ^ 63
      → Closes o sub el (count_items xs) closing
      → View b i (encode_items xs ++ (closing ++ s))
      → skip_elements rfc8949 rounds (skip_within rfc8949 fuel b) b false sub el i
        ≡ some (upto b i (length (encode_items xs) + length closing))
  skip_items xs fuel zero el i o sub closing b s h hr hf hs hc v = absurd (omega arith)
  skip_items nil fuel (suc r) el i o sub closing b s h hr hf hs hc v =
      at_length _ b i _ _ (omega arith)
        (elements_end b s i r (skip_within rfc8949 fuel b) false o sub el closing hc v)
  skip_items (cons x xs) fuel (suc r) el i o sub closing b s h hr hf hs hc v =
      let size = length-append (encode x) (encode_items xs) in
      let w = View-regroup b i (encode x) (encode_items xs) (closing ++ s) v in
      let one = encode_nonempty x h.0 in
      at_length _ b i _ _ (omega (arith, size)) (
        items_cons b (encode_items xs ++ (closing ++ s)) closing i r el (count_items xs)
          (skip_within rfc8949 fuel b) o sub hc x (length (encode_items xs) + length closing) h.0 w
          (skip_item x fuel i b _ h.0 (omega arith) (omega (arith, size)) w)
          (λ fits.
            skip_items xs fuel r (el + 1) (i + length (encode x)) o sub closing b s h.1
              (omega (arith, one)) (omega arith) (omega (arith, size))
              (Closes-next o sub el _ closing hc) (View-drop (encode x) _ w fits)))

  skip_pairs :
      (xs : Pairs) (fuel rounds el i : ℕ) (o : Bool) (sub : ℤ) (closing b s : Bytes)
      → ArePairs xs
      → length b < i + rounds
      → length b < i + fuel
      → i + length (encode_pairs xs) < 2 ^ 63
      → Closes o sub el (count_pairs xs) closing
      → View b i (encode_pairs xs ++ (closing ++ s))
      → skip_elements rfc8949 rounds (skip_within rfc8949 fuel b) b true sub el i
        ≡ some (upto b i (length (encode_pairs xs) + length closing))
  skip_pairs xs fuel zero el i o sub closing b s h hr hf hs hc v = absurd (omega arith)
  skip_pairs end fuel (suc r) el i o sub closing b s h hr hf hs hc v =
      at_length _ b i _ _ (omega arith)
        (elements_end b s i r (skip_within rfc8949 fuel b) true o sub el closing hc v)
  skip_pairs (pair x y xs) fuel (suc r) el i o sub closing b s h hr hf hs hc v =
      let rest = encode y ++ encode_pairs xs in
      let size = length-append (encode x) rest in
      let size' = length-append (encode y) (encode_pairs xs) in
      let w = View-regroup b i (encode x) rest (closing ++ s) v in
      let one = encode_nonempty x h.0 in
      let second = λ (fits : i + length (encode x) ≤ length b).
        View-regroup b (i + length (encode x)) (encode y) (encode_pairs xs) (closing ++ s)
          (View-drop (encode x) (rest ++ (closing ++ s)) w fits) in
      at_length _ b i _ _ (omega (arith, size, size')) (
        pairs_cons b (rest ++ (closing ++ s)) closing i r el (count_pairs xs)
          (skip_within rfc8949 fuel b) o sub hc x y (length (encode_pairs xs) + length closing) h.0
          w (skip_item x fuel i b _ h.0 (omega arith) (omega (arith, size)) w)
          (λ fits.
            skip_item y fuel (i + length (encode x)) b _ h.1 (omega arith)
              (omega (arith, size, size')) (second fits))
          (λ fits.
            skip_pairs xs fuel r (el + 1) (i + length (encode x) + length (encode y)) o sub closing
              b s h.2 (omega (arith, one)) (omega arith) (omega (arith, size, size'))
              (Closes-next o sub el _ closing hc)
              (View-drop (encode y) _ (second (omega arith)) fits)))

-- The fuel of `skip` is enough on every buffer that holds the beginning of an event: `skip` returns the
-- index behind the event if the buffer holds all of it, and `eUnexpectedEOF` if it ends before.
pub skip-encode :
    (k : Consts) (x : Item) (b s : Bytes) (i : ℕ)
    → k ≡ rfc8949
    → IsItem x
    → i + length (encode x) < 2 ^ 63
    → View b i (encode x ++ s)
    → skip k b i ≡ some (upto b i (length (encode x)))
unfolding skip
skip-encode k x b s i e h hs v = rw e (skip_item x (suc (length b)) i b s h (omega arith) hs v)
