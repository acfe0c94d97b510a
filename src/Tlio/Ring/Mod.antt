-- ===== src/Tlio/Ring/Mod.antt =====
-- Positions of a ring: different positions of a window have different slots.
use tlog.Base.{ℕ, zero, suc, ◌+◌, ◌-◌, ◌%◌, ◌<◌, ◌≤◌, ◌≡◌, ◌≢◌, inl, inr, refl, ap, ◌∙◌, arith}
use tlog.Base.{Bool-cases, ltb, ltb→lt, List, [], ◌∷◌, get_elem?, set, some, length}
use native.Mathlib.Nat.{mod-add-mod, mod-eq_of_lt, mod-eq-sub-mod, mod-lt}

wrapped : (r d n : ℕ) → r < n → 0 < d → d < n → (r + d) % n ≢ r
wrapped r d n hr hd hn e = elim (Bool-cases (ltb (r + d) n)) [
  | inl below ↦ omega (arith, mod-eq_of_lt (ltb→lt (r + d) n below))
  | inr past ↦
      let over : n ≤ r + d = ground (arith, past) in
      omega (arith, mod-eq-sub-mod over, mod-eq_of_lt (let b : r + d - n < n = omega arith in b))
]

pub mod-add_apart : (i d n : ℕ) → 0 < d → d < n → (i + d) % n ≢ i % n
mod-add_apart i d n hd hn e =
    wrapped (i % n) d n (mod-lt i (omega arith)) hd hn (mod-add-mod i n d ∙ e)

module _ {ℓ} {A : Type ℓ} where
  pub get_elem?-set_same :
      (xs : List A) (i : ℕ) (v : A) → i < length xs → get_elem? (set xs i v) i ≡ some v
  get_elem?-set_same [] i v h = absurd (omega arith)
  get_elem?-set_same (x ∷ xs) zero v h = refl
  get_elem?-set_same (x ∷ xs) (suc i) v h = get_elem?-set_same xs i v (omega arith)

  pub get_elem?-set_other :
      (xs : List A) (i j : ℕ) (v : A) → i ≢ j → get_elem? (set xs i v) j ≡ get_elem? xs j
  get_elem?-set_other [] i j v h = refl
  get_elem?-set_other (x ∷ xs) zero zero v h = absurd (h refl)
  get_elem?-set_other (x ∷ xs) zero (suc j) v h = refl
  get_elem?-set_other (x ∷ xs) (suc i) zero v h = refl
  get_elem?-set_other (x ∷ xs) (suc i) (suc j) v h =
      get_elem?-set_other xs i j v (λ e. h (ap suc e))
