-- ===== src/Flags/Sizes/Cases.antt =====
-- `strings.ToLower` in `ParseBytes` of ext/tlflag/flag.go, on what becomes letters of ASCII.
use tlog.Base.{ℕ, ◌-◌, ◌<◌, ◌≤◌, ◌≡◌, ◌⊎◌, inl, inr, refl, ap, ◌∙◌, ◌↔◌, arith}
use tlog.Base.{◌==◌, leb, true, false, ◌&&◌, Bool-cases}
use tlog.Base.{[], ◌∷◌, ◌++◌, drop, All}
use tlog.Base.Bits.{Bytes}
use tlog.Flags.Sizes.{to_lower_ascii, lower_first, to_lower, starts_kelvin, starts_dotted}

-- A small letter, its capital, the sign for kelvin for a k, and the capital i with a dot for an i.
abbrev pub IsForm : ℕ → Bytes → Type 0
IsForm c f =
    (f ≡ c ∷ [])
    ⊎ ((f ≡ (c - 32) ∷ [])
        ⊎ (((c ≡ b'k') × (f ≡ 0xe2 ∷ 0x84 ∷ 0xaa ∷ [])) ⊎ ((c ≡ b'i') × (f ≡ 0xc4 ∷ 0xb0 ∷ []))))

-- A text in any case.
pub InCase : Bytes → Bytes → Type 0
InCase s [] = s ≡ []
InCase s (c ∷ t) = (f r : Bytes) × (s ≡ f ++ r) × IsForm c f × InCase r t

abbrev pub AreSmall : Bytes → Type 0
AreSmall t = All (λ c. (b'a' ≤ c) × (c ≤ b'z')) t

-- A byte that begins no character with a small letter in ASCII.
lower_first-plain :
    (c : ℕ) (s : Bytes)
    → (c == 0xe2) ≡ false
    → (c == 0xc4) ≡ false
    → lower_first c s ≡ to_lower_ascii c ∷ s
unfolding lower_first
lower_first-plain c [] h g = refl
lower_first-plain c (d ∷ []) h g = rw g refl
lower_first-plain c (d ∷ e ∷ s) h g = rw (h, g) refl

small-InCase :
    (c : ℕ) (s t : Bytes) → b'a' ≤ c → c ≤ b'z' → to_lower s ≡ t → to_lower (c ∷ s) ≡ c ∷ t
unfolding to_lower to_lower_ascii
small-InCase c s t lo hi e =
    lower_first-plain c (to_lower s) (ground arith) (ground arith)
    ∙ rw e (ap (λ x. x ∷ t) (ground arith))

capital-InCase :
    (c : ℕ) (s t : Bytes) → b'a' ≤ c → c ≤ b'z' → to_lower s ≡ t → to_lower ((c - 32) ∷ s) ≡ c ∷ t
unfolding to_lower to_lower_ascii
capital-InCase c s t lo hi e =
    lower_first-plain (c - 32) (to_lower s) (ground arith) (ground arith)
    ∙ rw e (ap (λ x. x ∷ t) (ground arith))

kelvin_lower : (s : Bytes) → to_lower (0xe2 ∷ 0x84 ∷ 0xaa ∷ s) ≡ b'k' ∷ to_lower s
unfolding to_lower lower_first
kelvin_lower s =
    rw (lower_first-plain 0xaa (to_lower s) refl refl, lower_first-plain 0x84 _ refl refl) refl

dotted_first : (t : Bytes) → lower_first 0xc4 (0xb0 ∷ t) ≡ b'i' ∷ t
unfolding lower_first
dotted_first [] = refl
dotted_first (d ∷ t) = refl

dotted_lower : (s : Bytes) → to_lower (0xc4 ∷ 0xb0 ∷ s) ≡ b'i' ∷ to_lower s
unfolding to_lower to_lower_ascii
dotted_lower s = rw (lower_first-plain 0xb0 (to_lower s) refl refl) (dotted_first (to_lower s))

InCase-to_lower : (t s : Bytes) → AreSmall t → InCase s t → to_lower s ≡ t
unfolding InCase
InCase-to_lower [] s h e = rw e (unfold to_lower in refl)
InCase-to_lower (c ∷ t) s h (f, r, cut, inl same, rest) =
    rw (cut, same) (small-InCase c r t h.0.0 h.0.1 (InCase-to_lower t r h.1 rest))
InCase-to_lower (c ∷ t) s h (f, r, cut, inr (inl same), rest) =
    rw (cut, same) (capital-InCase c r t h.0.0 h.0.1 (InCase-to_lower t r h.1 rest))
InCase-to_lower (c ∷ t) s h (f, r, cut, inr (inr (inl (k, same))), rest) =
    rw (cut, same, k) (kelvin_lower r ∙ ap (λ x. b'k' ∷ x) (InCase-to_lower t r h.1 rest))
InCase-to_lower (c ∷ t) s h (f, r, cut, inr (inr (inr (i, same))), rest) =
    rw (cut, same, i) (dotted_lower r ∙ ap (λ x. b'i' ∷ x) (InCase-to_lower t r h.1 rest))

starts_kelvin_is :
    (c : ℕ) (s : Bytes) → starts_kelvin c s ≡ true → (c ≡ 0xe2) × (s ≡ 0x84 ∷ 0xaa ∷ drop 2 s)
starts_kelvin_is c [] e = absurd (cc e)
starts_kelvin_is c (x ∷ []) e = absurd (cc e)
starts_kelvin_is c (x ∷ y ∷ s) e =
    let a : c ≡ 0xe2 = ground (arith, e) in
    let b : x ≡ 0x84 = ground (arith, e) in let d : y ≡ 0xaa = ground (arith, e) in (a, cc (b, d))

starts_dotted_is :
    (c : ℕ) (s : Bytes) → starts_dotted c s ≡ true → (c ≡ 0xc4) × (s ≡ 0xb0 ∷ drop 1 s)
starts_dotted_is c [] e = absurd (cc e)
starts_dotted_is c (x ∷ s) e =
    let a : c ≡ 0xc4 = ground (arith, e) in let b : x ≡ 0xb0 = ground (arith, e) in (a, cc b)

-- Which of its branches `lower_first` took.
Branch : ℕ → Bytes → ℕ → Bytes → Type 0
Branch c s x t =
    ((c ≡ 0xe2) × (s ≡ 0x84 ∷ 0xaa ∷ t) × (x ≡ b'k'))
    ⊎ (((c ≡ 0xc4) × (s ≡ 0xb0 ∷ t) × (x ≡ b'i')) ⊎ ((x ≡ to_lower_ascii c) × (s ≡ t)))

lower_first-Branch :
    (c : ℕ) (s : Bytes) (x : ℕ) (t : Bytes) → lower_first c s ≡ x ∷ t → Branch c s x t
unfolding lower_first Branch
lower_first-Branch c s x t e = elim (Bool-cases (starts_kelvin c s)) [
  | inl y ↦
      let (a, cut) = starts_kelvin_is c s y in
      let run : b'k' ∷ drop 2 s ≡ x ∷ t = rw y at e in
      let rest : drop 2 s ≡ t = cc run in inl (a, (rw rest at cut), cc run)
  | inr n ↦ elim (Bool-cases (starts_dotted c s)) [
    | inl y ↦
        let (a, cut) = starts_dotted_is c s y in
        let run : b'i' ∷ drop 1 s ≡ x ∷ t = rw (n, y) at e in
        let rest : drop 1 s ≡ t = cc run in inr (inl (a, (rw rest at cut), cc run))
    | inr m ↦ let run : to_lower_ascii c ∷ s ≡ x ∷ t = rw (n, m) at e in inr (inr (cc run, cc run))
  ]
]

-- A byte that is no ASCII stays, and what stands before it becomes no such byte.
to_lower_high :
    (s : Bytes) (x : ℕ) (t : Bytes)
    → 0x7f < x
    → to_lower s ≡ x ∷ t
    → (r : Bytes) × (s ≡ x ∷ r) × (to_lower r ≡ t)
unfolding to_lower Branch
to_lower_high [] x t h e = absurd (cc e)
to_lower_high (c ∷ s) x t h e = elim (lower_first-Branch c (to_lower s) x t e) [
  | inl (a, b, k) ↦ absurd (omega (arith, h, k))
  | inr (inl (a, b, i)) ↦ absurd (omega (arith, h, i))
  | inr (inr (l, rest)) ↦
      let same : c ≡ x = unfold to_lower_ascii in ground (arith, l, h) in (s, cc same, rest)
]

-- The first character, and what follows it.
to_lower_first :
    (s : Bytes) (x : ℕ) (t : Bytes)
    → b'a' ≤ x
    → x ≤ b'z'
    → to_lower s ≡ x ∷ t
    → (f r : Bytes) × (s ≡ f ++ r) × IsForm x f × (to_lower r ≡ t)
unfolding to_lower Branch
to_lower_first [] x t lo hi e = absurd (cc e)
to_lower_first (c ∷ s) x t lo hi e = elim (lower_first-Branch c (to_lower s) x t e) [
  | inl (a, b, k) ↦
      let (r, cut, rest) = to_lower_high s 0x84 (0xaa ∷ t) (omega arith) b in
      let (r', cut', rest') = to_lower_high r 0xaa t (omega arith) rest in
      (0xe2 ∷ 0x84 ∷ 0xaa ∷ [], r', cc (a, cut, cut'), inr (inr (inl (k, refl))), rest')
  | inr (inl (a, b, i)) ↦
      let (r, cut, rest) = to_lower_high s 0xb0 t (omega arith) b in
      (0xc4 ∷ 0xb0 ∷ [], r, cc (a, cut), inr (inr (inr (i, refl))), rest)
  | inr (inr (l, rest)) ↦ elim (Bool-cases (leb b'A' c && leb c b'Z')) [
    | inl y ↦
        let same : c ≡ x - 32 = unfold to_lower_ascii in ground (arith, l, y) in
        (c ∷ [], s, refl, inr (inl (ap (λ d. d ∷ []) same)), rest)
    | inr n ↦
        let same : c ≡ x = unfold to_lower_ascii in ground (arith, l, n) in
        (c ∷ [], s, refl, inl (ap (λ d. d ∷ []) same), rest)
  ]
]

to_lower_empty : (s : Bytes) → to_lower s ≡ [] → s ≡ []
unfolding to_lower lower_first
to_lower_empty [] e = refl
to_lower_empty (c ∷ s) e = elim (Bool-cases (starts_kelvin c (to_lower s))) [
  | inl y ↦ absurd (cc (rw y at e))
  | inr n ↦ elim (Bool-cases (starts_dotted c (to_lower s))) [
    | inl y ↦ absurd (cc (rw (n, y) at e))
    | inr m ↦ absurd (cc (rw (n, m) at e))
  ]
]

to_lower_only : (t s : Bytes) → AreSmall t → to_lower s ≡ t → InCase s t
unfolding InCase
to_lower_only [] s h e = to_lower_empty s e
to_lower_only (x ∷ t) s h e =
    let (f, r, cut, form, rest) = to_lower_first s x t h.0.0 h.0.1 e in
    (f, r, cut, form, to_lower_only t r h.1 rest)

-- `ToLower` makes small letters of exactly the texts that are these letters in any case.
pub to_lower-InCase : (s t : Bytes) → AreSmall t → (to_lower s ≡ t) ↔ InCase s t
to_lower-InCase s t h = (to_lower_only t s h, InCase-to_lower t s h)
