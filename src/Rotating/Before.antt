-- ===== src/Rotating/Before.antt =====
-- The names in a directory, in order, and the files that `filesToRemove` of rotating/file.go looks at.
use tlog.Base.{ℕ, zero, suc, ◌-◌, ◌<◌, ◌≤◌, ◌≡◌, refl, arith}
use tlog.Base.{ltb, ltb→lt, true, false, Bool-cases, some, ◌⊎◌, inl, inr}
use tlog.Base.{List, [], ◌∷◌, length, get_elem?, take, get_elem?-some}
use tlog.Base.Bits.{Bytes}
use tlog.Base.Outcome.{ok}
use tlog.Rotating.{bytes_leb, before}

bytes_leb_trans :
    (a b c : Bytes) → bytes_leb a b ≡ true → bytes_leb b c ≡ true → bytes_leb a c ≡ true
unfolding bytes_leb
bytes_leb_trans [] b c h g = refl
bytes_leb_trans (x ∷ a) [] c h g = ground (arith, h)
bytes_leb_trans (x ∷ a) (y ∷ b) [] h g = ground (arith, g)
bytes_leb_trans (x ∷ a) (y ∷ b) (z ∷ c) h g = ground (arith, bytes_leb_trans a b c)

-- The names in a directory, in order.
abbrev pub Sorted : List Bytes → Type 0
Sorted files =
    (i j : ℕ) (a b : Bytes)
    → i ≤ j
    → get_elem? files i ≡ some a
    → get_elem? files j ≡ some b
    → bytes_leb a b ≡ true

pub get_elem?-take :
    (p : ℕ) (files : List Bytes) (i : ℕ) (a : Bytes)
    → get_elem? (take p files) i ≡ some a
    → get_elem? files i ≡ some a
get_elem?-take zero files i a e = ground (arith, e)
get_elem?-take (suc p) [] i a e = e
get_elem?-take (suc p) (x ∷ files) zero a e = e
get_elem?-take (suc p) (x ∷ files) (suc i) a e = get_elem?-take p files i a e

pub get_elem?-bound :
    (files : List Bytes) (i : ℕ) (a : Bytes) → get_elem? files i ≡ some a → i < length files
get_elem?-bound [] i a e = ground (arith, e)
get_elem?-bound (x ∷ files) zero a e = omega arith
get_elem?-bound (x ∷ files) (suc i) a e = omega (arith, get_elem?-bound files i a e)

-- Where `before` stops: at the oldest files, or behind one before `base`.
pub Last : Bytes → List Bytes → ℕ → Type 0
Last base files p =
    (p ≡ 0) ⊎ ((n : Bytes) × (get_elem? files (p - 1) ≡ some n) × (bytes_leb base n ≡ false))

-- One more file that is not before `base`.
from_prev :
    (base : Bytes) (files : List Bytes) (prev q : ℕ) (n : Bytes)
    → get_elem? files prev ≡ some n
    → bytes_leb base n ≡ true
    → ((i : ℕ) (a : Bytes)
        → get_elem? files i ≡ some a
        → q ≤ i
        → i < prev
        → bytes_leb base a ≡ true)
    → (i : ℕ) (a : Bytes) → get_elem? files i ≡ some a
    → q ≤ i
    → i < suc prev
    → bytes_leb base a ≡ true
from_prev base files prev q n e later from i a g lo hi = elim (Bool-cases (ltb i prev)) [
  | inl below ↦ from i a g lo (ltb→lt i prev below)
  | inr here ↦
      let same : i ≡ prev = ground (arith, here) in
      let there : get_elem? files prev ≡ some a = rw (← same) g in ground (arith, there, e, later)
]

pub before_is :
    (base : Bytes) (files : List Bytes) (p : ℕ)
    → p ≤ length files
    → (q : ℕ) × (before base files p ≡ ok q)
      × (q ≤ p)
      × Last base files q
      × ((i : ℕ) (a : Bytes) → get_elem? files i ≡ some a → q ≤ i → i < p → bytes_leb base a ≡ true)
unfolding before Last
before_is base files zero h = (0, refl, omega arith, inl refl, λ i a e lo hi. absurd (omega arith))
before_is base files (suc prev) h =
    let (n, e) = get_elem?-some files prev (omega arith) in
    elim (Bool-cases (bytes_leb base n)) [
      | inl later ↦
          let (q, go, lo, last, from) = before_is base files prev (omega arith) in
          (
            q,
            rw (e, later, before) go,
            omega arith,
            last,
            from_prev base files prev q n e later from,
          )
      | inr earlier ↦
          let back : suc prev - 1 ≡ prev = omega arith in
          (
            suc prev,
            rw (e, earlier, before) refl,
            omega arith,
            inr (n, rw back e, earlier),
            λ i a g lo hi. absurd (omega arith),
          )
    ]

-- Every file up to there is before `base`.
pub Last-before :
    (base : Bytes) (files : List Bytes) (p i : ℕ) (a : Bytes)
    → Sorted files
    → Last base files p
    → i < p
    → get_elem? files i ≡ some a
    → bytes_leb base a ≡ false
unfolding Last
Last-before base files p i a sorted (inl z) hi e = absurd (omega arith)
Last-before base files p i a sorted (inr (n, there, earlier)) hi e =
    elim (Bool-cases (bytes_leb base a)) [
      | inl later ↦ absurd (
          ground (
            arith,
            bytes_leb_trans base a n later (sorted i (p - 1) a n (omega arith) e there),
            earlier,
          ))
      | inr sooner ↦ sooner
    ]
