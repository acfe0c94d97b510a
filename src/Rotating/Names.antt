-- ===== src/Rotating/Names.antt =====
-- The names of rotating/file.go: the name of a number is read back, and the next name is new.
use tlog.Base.{
  ℕ, zero, suc, ◌+◌, ◌-◌, ◌≤◌, ◌≡◌, ◌≢◌, refl, ap, sym, ◌∙◌, arith, ltb, le→leb, ltb-false,
}
use tlog.Base.{
  if◌then◌else◌, true, false, Bool-cases, ◌⊎◌, inl, inr, Option, none, some, List, [], ◌∷◌, ◌++◌,
}
use tlog.Base.{length, get_elem?, take, drop, length-append, drop-append, take_exact, append_assoc}
use tlog.Base.Bits.{Bytes}
use tlog.Base.Outcome.{Outcome, ok, panic}
use tlog.Rotating.{bytes_eq, has_prefix, has_suffix}
use tlog.Rotating.Current.{Format, Numbers, latest, file_name, parse_name, counted, max_num}

pub bytes_eq_refl : (b : Bytes) → bytes_eq b b ≡ true
unfolding bytes_eq
bytes_eq_refl [] = refl
bytes_eq_refl (x ∷ b) = ground (arith, bytes_eq_refl b)

bytes_eq-true : (a b : Bytes) → bytes_eq a b ≡ true → a ≡ b
unfolding bytes_eq
bytes_eq-true [] [] h = refl
bytes_eq-true [] (y ∷ b) h = ground (arith, h)
bytes_eq-true (x ∷ a) [] h = ground (arith, h)
bytes_eq-true (x ∷ a) (y ∷ b) h =
    let head : x ≡ y = ground (arith, h) in
    let tail : a ≡ b = bytes_eq-true a b (ground (arith, h)) in cc (head, tail)

has_prefix-append : (p s : Bytes) → has_prefix (p ++ s) p ≡ true
unfolding has_prefix
has_prefix-append [] [] = refl
has_prefix-append [] (x ∷ s) = refl
has_prefix-append (x ∷ p) s = ground (arith, has_prefix-append p s)

pub has_suffix-append : (p s : Bytes) → has_suffix (p ++ s) s ≡ true
unfolding has_suffix
has_suffix-append p s =
    let back : length (p ++ s) - length s ≡ length p = omega (arith, length-append p s) in
    rw
      (
        back,
        drop-append p s,
        le→leb (length s) (length (p ++ s)) (omega (arith, length-append p s)),
        bytes_eq_refl s,
      )
      refl

append-cancel : (p a b : Bytes) → p ++ a ≡ p ++ b → a ≡ b
append-cancel p a b e = sym (drop-append p a) ∙ ap (drop (length p)) e ∙ drop-append p b

append-cancel_right : (a b s : Bytes) → a ++ s ≡ b ++ s → a ≡ b
append-cancel_right a b s e =
    let same : length a ≡ length b =
      omega (arith, length-append a s, length-append b s, ap {B = ℕ} (λ t. length t) e) in
    sym (take_exact a s (length a) refl)
    ∙ ap (take (length a)) e
    ∙ take_exact b s (length a) (sym same)

entry-cases :
    (x : Bytes) (xs : List Bytes) (i : ℕ) (n : Bytes)
    → get_elem? (x ∷ xs) i ≡ some n
    → (x ≡ n) ⊎ ((j : ℕ) × (get_elem? xs j ≡ some n))
entry-cases x xs zero n e = inl (cc e)
entry-cases x xs (suc j) n e = inr (j, e)

module _ (nums : Numbers) (format : Format) where
  open nums use {print, scan}

  -- What `fmt` promises of a number that fits the width: it is read back, and it is not the word `LATEST`.
  pub record Reads (num : ℕ) : Type 0 where
    pub back : scan format (print format num) ≡ some num
    pub apart : print format num ≢ latest

  -- `parseName` reads the number back from the name that `rotate` makes of it, if `fmt` does.
  pub parse_name-file_name :
      (pref suff : Bytes) (num : ℕ)
      → Reads num
      → parse_name nums (file_name nums pref suff format num) pref suff format ≡ ok (some num)
  unfolding parse_name file_name
  parse_name-file_name pref suff num r =
      let shown = print format num in
      let size : length (pref ++ (shown ++ suff)) ≡ length pref + (length shown + length suff) =
        omega (arith, length-append pref (shown ++ suff), length-append shown suff) in
      let middle : length (pref ++ (shown ++ suff)) - length suff - length pref ≡ length shown =
        omega (arith, size) in
      let ends : has_suffix (pref ++ (shown ++ suff)) suff ≡ true =
        rw (sym (append_assoc pref shown suff)) (has_suffix-append (pref ++ shown) suff) in
      let other : bytes_eq (pref ++ (shown ++ suff)) (pref ++ (latest ++ suff)) ≡ false =
        elim (Bool-cases (bytes_eq (pref ++ (shown ++ suff)) (pref ++ (latest ++ suff)))) [
          | inl same ↦ absurd (
              r.apart (
                append-cancel_right shown latest suff
                  (append-cancel pref (shown ++ suff) (latest ++ suff) (bytes_eq-true _ _ same))))
          | inr apart ↦ apart
        ] in
      rw
        (
          has_prefix-append pref (shown ++ suff),
          ends,
          other,
          ltb-false (length (pref ++ (shown ++ suff)) - length suff) (length pref)
              (omega (arith, size)),
          drop-append pref (shown ++ suff),
          middle,
          take_exact shown suff (length shown) refl,
          r.back,
        )
        refl

  counted-bound :
      (p : Outcome (Option ℕ)) (num top : ℕ) (next : ℕ → Outcome ℕ)
      → counted nums p num next ≡ ok top
      → (now : ℕ) × (next now ≡ ok top) × (num ≤ now) × ((m : ℕ) → p ≡ ok (some m) → m ≤ now)
  unfolding counted
  counted-bound panic num top next e = ground (arith, e)
  counted-bound (ok none) num top next e = (num, e, omega arith, λ m q. ground (arith, q))
  counted-bound (ok (some x)) num top next e = (
    if ltb num x then x else num,
    e,
    ground arith,
    λ m q. let same : x ≡ m = cc q in ground (arith, same),
  )

  max_num-bound :
      (ns : List Bytes) (pref suff : Bytes) (num top : ℕ)
      → max_num nums pref suff format ns num ≡ ok top
      → (num ≤ top)
        × ((i m : ℕ) (n : Bytes)
            → get_elem? ns i ≡ some n
            → parse_name nums n pref suff format ≡ ok (some m)
            → m ≤ top)
  unfolding max_num
  max_num-bound [] pref suff num top e = (ground (arith, e), λ i m n there q. ground (arith, there))
  max_num-bound (x ∷ ns) pref suff num top e =
      let (now, go, lo, seen) = counted-bound (parse_name nums x pref suff format) num top _ e in
      let (up, rest) = max_num-bound ns pref suff now top go in
      (
        omega arith,
        λ i m n there q. elim (entry-cases x ns i n there) [
          | inl first ↦ omega (arith, seen m (rw first q))
          | inr (j, later) ↦ rest j m n later q
        ],
      )

  -- The number that `findMaxNum` finds makes the next name new: no entry of the directory has it, if `fmt`
  -- reads that name back.
  pub max_num-fresh :
      (ns : List Bytes) (pref suff : Bytes) (top i : ℕ) (n : Bytes)
      → max_num nums pref suff format ns 0 ≡ ok top
      → Reads (suc top)
      → get_elem? ns i ≡ some n
      → n ≢ file_name nums pref suff format (suc top)
  max_num-fresh ns pref suff top i n e r there same =
      let (lo, seen) = max_num-bound ns pref suff 0 top e in
      let over : suc top ≤ top =
        seen i (suc top) n there (rw same (parse_name-file_name pref suff (suc top) r)) in
      omega arith
