-- ===== src/Renamer/Ordering.antt =====
-- The order of paths in convert/rewriter.go.
use tlog.Base.{◌≡◌, ◌⊎◌, inl, inr, refl, sym, ap, ap₂, ◌∙◌, arith}
use tlog.Base.{List, [], ◌∷◌}
use tlog.Renamer.{
  Order, below, same, above, first_order, compare_by, compare_byte, compare_bytes, compare_paths,
}

pub Order-cases : (o : Order) → (o ≡ below) ⊎ ((o ≡ same) ⊎ (o ≡ above))
Order-cases below = inl refl
Order-cases same = inr (inl refl)
Order-cases above = inr (inr refl)

-- A comparison that is a strict order and finds equal only what is.
pub record Compares {ℓ} {A : Type ℓ} (cmp : A → A → Order) : Type ℓ where
  pub itself : (x : A) → cmp x x ≡ same
  pub same_are : (x y : A) → cmp x y ≡ same → x ≡ y
  pub trans_below : (x y z : A) → cmp x y ≡ below → cmp y z ≡ below → cmp x z ≡ below

compare_byte-Compares : Compares compare_byte
unfolding compare_byte
compare_byte-Compares = record {
  itself = λ x. ground arith;
  same_are = λ x y e. ground arith;
  trans_below = λ x y z e f. ground arith;
}

first_order-same : (a b : Order) → first_order a b ≡ same → (a ≡ same) × (b ≡ same)
unfolding first_order
first_order-same same b e = (refl, e)
first_order-same below b e = absurd (cc)
first_order-same above b e = absurd (cc)

first_order-below :
    (a b : Order) → first_order a b ≡ below → (a ≡ below) ⊎ ((a ≡ same) × (b ≡ below))
unfolding first_order
first_order-below below b e = inl refl
first_order-below same b e = inr (refl, e)
first_order-below above b e = absurd (cc)

first_below : (a b : Order) → a ≡ below → first_order a b ≡ below
unfolding first_order
first_below below b e = refl
first_below same b e = absurd (cc)
first_below above b e = absurd (cc)

first_same : (a b : Order) → a ≡ same → first_order a b ≡ b
unfolding first_order
first_same same b e = refl
first_same below b e = absurd (cc)
first_same above b e = absurd (cc)

module _ {ℓ} {A : Type ℓ} (cmp : A → A → Order) (h : Compares cmp) where
  compare_by-itself : (xs : List A) → compare_by cmp xs xs ≡ same
  unfolding compare_by
  compare_by-itself [] = refl
  compare_by-itself (x ∷ xs) = first_same _ _ (h.itself x) ∙ compare_by-itself xs

  compare_by-same : (xs ys : List A) → compare_by cmp xs ys ≡ same → xs ≡ ys
  unfolding compare_by
  compare_by-same [] [] e = refl
  compare_by-same [] (y ∷ ys) e = absurd (cc)
  compare_by-same (x ∷ xs) [] e = absurd (cc)
  compare_by-same (x ∷ xs) (y ∷ ys) e =
      let (a, b) = first_order-same _ _ e in
      ap₂ (λ u v. u ∷ v) (h.same_are x y a) (compare_by-same xs ys b)

  compare_by_trans :
      (xs ys zs : List A)
      → compare_by cmp xs ys ≡ below
      → compare_by cmp ys zs ≡ below
      → compare_by cmp xs zs ≡ below
  unfolding compare_by
  compare_by_trans xs [] [] e f = absurd (cc)
  compare_by_trans [] [] (z ∷ zs) e f = refl
  compare_by_trans (x ∷ xs) [] (z ∷ zs) e f = absurd (cc)
  compare_by_trans xs (y ∷ ys) [] e f = absurd (cc)
  compare_by_trans [] (y ∷ ys) (z ∷ zs) e f = refl
  compare_by_trans (x ∷ xs) (y ∷ ys) (z ∷ zs) e f =
      let rest = compare_by_trans xs ys zs in
      elim (first_order-below _ _ e) [
        | inl xy ↦ elim (first_order-below _ _ f) [
          | inl yz ↦ first_below _ _ (h.trans_below x y z xy yz)
          | inr (yz, s) ↦ first_below _ _ (ap (cmp x) (sym (h.same_are y z yz)) ∙ xy)
        ]
        | inr (xy, r) ↦ elim (first_order-below _ _ f) [
          | inl yz ↦ first_below _ _ (ap (λ v. cmp v z) (h.same_are x y xy) ∙ yz)
          | inr (yz, s) ↦ first_same _ _ (ap (λ v. cmp v z) (h.same_are x y xy) ∙ yz) ∙ rest r s
        ]
      ]

  pub compare_by-Compares : Compares (compare_by cmp)
  compare_by-Compares = record {
    itself = compare_by-itself;
    same_are = compare_by-same;
    trans_below = compare_by_trans;
  }

pub compare_paths-Compares : Compares compare_paths
compare_paths-Compares =
    compare_by-Compares compare_bytes (compare_by-Compares compare_byte compare_byte-Compares)
