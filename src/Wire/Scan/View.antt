-- ===== src/Wire/Scan/View.antt =====
-- A buffer that holds the first bytes of a stream from an index on, as `Reader.b` does: the stream may
-- go on past the end of the buffer.
use tlog.Base.{ℕ, zero, suc, ◌+◌, ◌<◌, ◌≤◌, ◌≡◌, refl, arith, none, some}
use tlog.Base.{[], ◌∷◌, ◌++◌, length, get_elem?, take, drop, length-drop, drop-drop, get_elem?-none}
use tlog.Base.Bits.{Bytes}

pub record View (b : Bytes) (i : ℕ) (s : Bytes) : Type 0 where
  pub rest : Bytes
  pub agrees : drop i b ++ rest ≡ s
  pub within : i ≤ length b

append_split :
    (a r xs s : Bytes)
    → a ++ r ≡ xs ++ s
    → length xs ≤ length a
    → (take (length xs) a ≡ xs) × (drop (length xs) a ++ r ≡ s)
append_split a r [] s e h = (refl, e)
append_split [] r (x ∷ xs) s e h = absurd (omega arith)
append_split (y ∷ a) r (x ∷ xs) s e h =
    let (t, d) = append_split a r xs s (cc e) (omega arith) in (cc (e, t), d)

get_elem?-take_one : (b : Bytes) (i x : ℕ) → take 1 (drop i b) ≡ x ∷ [] → get_elem? b i ≡ some x
get_elem?-take_one [] zero x e = cc
get_elem?-take_one [] (suc i) x e = cc
get_elem?-take_one (y ∷ b) zero x e = cc
get_elem?-take_one (y ∷ b) (suc i) x e = get_elem?-take_one b i x e

module _ {b : Bytes} {i : ℕ} where
  pub View-take :
      (xs s : Bytes)
      → View b i (xs ++ s)
      → i + length xs ≤ length b
      → take (length xs) (drop i b) ≡ xs
  View-take xs s v h =
      (append_split (drop i b) v.rest xs s v.agrees (omega (arith, length-drop i b))).0

  pub View-drop :
      (xs s : Bytes) → View b i (xs ++ s) → i + length xs ≤ length b → View b (i + length xs) s
  View-drop xs s v h = record {
    rest = v.rest;
    agrees =
        rw (← drop-drop i (length xs) b)
          (append_split (drop i b) v.rest xs s v.agrees (omega (arith, length-drop i b))).1;
    within = h;
  }

  pub View-head : (x : ℕ) (s : Bytes) → View b i (x ∷ s) → i < length b → get_elem? b i ≡ some x
  View-head x s v h = get_elem?-take_one b i x (View-take (x ∷ []) s v (omega arith))

  pub View-empty : (s : Bytes) → View b i s → length b ≤ i → get_elem? b i ≡ none
  View-empty s v h = get_elem?-none b i h

-- The stream behind `xs`, with the same bytes still to come.
pub drop_stream :
    (b r xs s : Bytes) (i : ℕ)
    → drop i b ++ r ≡ xs ++ s
    → i + length xs ≤ length b
    → drop (i + length xs) b ++ r ≡ s
drop_stream b r xs s i e h =
    rw (← drop-drop i (length xs) b)
      (append_split (drop i b) r xs s e (omega (arith, length-drop i b))).1
