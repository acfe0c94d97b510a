-- ===== src/Agent/Subs.antt =====
-- agent/query.go: the subscriptions of an agent.
use tlog.Base.{ℕ, suc, ◌<◌, ◌≤◌, ◌≡◌, refl, ◌∙◌, arith, ◌==◌, ltb, if◌then◌else◌}
use tlog.Base.{
  Bool, true, false, ◌||◌, Bool-cases, Option, none, some, List, [], ◌∷◌, ◌++◌, inl, inr, get_elem?,
  take, drop,
}

-- `subid` and `subs` of an `Agent`: the last number given, and the subscribers with their numbers.
pub record Subs (W : Type 0) : Type 0 where
  pub last : ℕ
  pub subs : List (ℕ × W)

module _ {W : Type 0} where
  unfoldable pub subscribe : Subs W → W → Subs W × ℕ
  subscribe s w =
      (record { last = suc s.last; subs = s.subs ++ ((suc s.last, w) ∷ []) }, suc s.last)

  -- `for i < len(a.subs) && a.subs[i].id < id { i++ }`
  unfoldable pub position : ℕ → List (ℕ × W) → ℕ
  position id [] = 0
  position id (x ∷ xs) = let rest = position id xs in if ltb x.0 id then suc rest else 0

  -- `a.subs` without element `i`, if its number is `id`.
  unfoldable pub cut_at : ℕ → List (ℕ × W) → ℕ → Option (ℕ × W) → Option (List (ℕ × W))
  cut_at id xs i none = none
  cut_at id xs i (some x) = if x.0 == id then some (take i xs ++ drop (suc i) xs) else none

  unfoldable pub cut : ℕ → List (ℕ × W) → Option (List (ℕ × W))
  cut id xs = let i = position id xs in cut_at id xs i (get_elem? xs i)

  -- `Unsubscribe`; `none` is `ErrUnknownSubscription`.
  unfoldable pub unsubscribe : Subs W → ℕ → Option (Subs W)
  unsubscribe s id = elim (cut id s.subs) [ none ↦ none | some xs ↦ some (record s { subs = xs }) ]

  -- The numbers grow from `lo` on and are at most `hi`.
  unfoldable pub Grows : ℕ → ℕ → List (ℕ × W) → Type 0
  Grows lo hi [] = lo ≤ hi
  Grows lo hi (x ∷ xs) = (lo < x.0) × Grows x.0 hi xs

  abbrev pub Ordered : Subs W → Type 0
  Ordered s = Grows 0 s.last s.subs

  -- Whether a number is there, and the subscribers with another.
  unfoldable pub has : ℕ → List (ℕ × W) → Bool
  has id [] = false
  has id (x ∷ xs) = (x.0 == id) || has id xs

  unfoldable pub without : ℕ → List (ℕ × W) → List (ℕ × W)
  without id [] = []
  without id (x ∷ xs) = let rest = without id xs in if x.0 == id then rest else x ∷ rest

  above :
      (id lo hi : ℕ) (xs : List (ℕ × W))
      → Grows lo hi xs
      → id ≤ lo
      → (has id xs ≡ false) × (without id xs ≡ xs)
  unfolding Grows has without
  above id lo hi [] g h = (refl, refl)
  above id lo hi (x ∷ xs) g h =
      let (a, b) = above id x.0 hi xs g.1 (omega (arith, g.0)) in
      (ground (arith, g.0, a), ground (arith, g.0, b))

  cons_cut :
      (id : ℕ) (x : ℕ × W) (xs : List (ℕ × W)) (i : ℕ) (o : Option (ℕ × W))
      → cut_at id (x ∷ xs) (suc i) o
        ≡ elim (cut_at id xs i o) [ none ↦ none | some r ↦ some (x ∷ r) ]
  unfolding cut_at
  cons_cut id x xs i none = refl
  cons_cut id x xs i (some y) = elim (Bool-cases (y.0 == id)) [
    | inl same ↦ rw same refl
    | inr other ↦ rw other refl
  ]

  kept_first :
      (b : Bool) (x : ℕ × W) (r : List (ℕ × W))
      → (elim (if b then some r else none) as (λ o. Option (List (ℕ × W))) [
        | none ↦ none
        | some t ↦ some (x ∷ t)
      ])
        ≡ (if b then some (x ∷ r) else none)
  kept_first true x r = refl
  kept_first false x r = refl

  cut_lem :
      (id lo hi : ℕ) (xs : List (ℕ × W))
      → Grows lo hi xs
      → cut id xs ≡ (if has id xs then some (without id xs) else none)
  unfolding cut position has without Grows
  cut_lem id lo hi [] g = unfold cut_at in refl
  cut_lem id lo hi (x ∷ xs) g = elim (Bool-cases (ltb x.0 id)) [
    | inl before ↦
        let apart : (x.0 == id) ≡ false = ground (arith, before) in
        let step : cut id (x ∷ xs) ≡ (elim (cut id xs) as (λ o. Option (List (ℕ × W))) [
          | none ↦ none
          | some t ↦ some (x ∷ t)
        ]) =
          rw before (cons_cut id x xs (position id xs) (get_elem? xs (position id xs))) in
        step ∙ rw (cut_lem id x.0 hi xs g.1, apart) (kept_first (has id xs) x (without id xs))
    | inr here ↦
        let (gone, same) = above id x.0 hi xs g.1 (ground (arith, here)) in
        elim (Bool-cases (x.0 == id)) [
          | inl found ↦ rw (here, found, same) (unfold cut_at in rw found refl)
          | inr other ↦ rw (here, other, gone) (unfold cut_at in rw other refl)
        ]
  ]

  -- `Unsubscribe` takes away the subscription with the number, if it is there, and leaves the others in their
  -- order; if it is not, the error says so. It is given that the numbers grow.
  pub unsubscribe_lem :
      (s : Subs W) (id : ℕ)
      → Ordered s
      → unsubscribe s id
        ≡ (if has id s.subs then some (record s { subs = without id s.subs }) else none)
  unfolding unsubscribe
  unsubscribe_lem s id g =
      rw (cut_lem id 0 s.last s.subs g, unsubscribe)
        (elim (Bool-cases (has id s.subs)) [ inl there ↦ rw there refl | inr gone ↦ rw gone refl ])

  Grows-lower : (lo lo' hi : ℕ) (xs : List (ℕ × W)) → lo ≤ lo' → Grows lo' hi xs → Grows lo hi xs
  unfolding Grows
  Grows-lower lo lo' hi [] h g = omega arith
  Grows-lower lo lo' hi (x ∷ xs) h g = (omega (arith, g.0), g.1)

  Grows-without : (id lo hi : ℕ) (xs : List (ℕ × W)) → Grows lo hi xs → Grows lo hi (without id xs)
  unfolding Grows without
  Grows-without id lo hi [] g = g
  Grows-without id lo hi (x ∷ xs) g = elim (Bool-cases (x.0 == id)) [
    | inl gone ↦ rw gone (
        Grows-lower lo x.0 hi (without id xs) (omega (arith, g.0)) (Grows-without id x.0 hi xs g.1))
    | inr stays ↦ rw stays (g.0, Grows-without id x.0 hi xs g.1)
  ]

  Grows-append :
      (lo hi : ℕ) (w : W) (xs : List (ℕ × W))
      → Grows lo hi xs
      → Grows lo (suc hi) (xs ++ ((suc hi, w) ∷ []))
  unfolding Grows
  Grows-append lo hi w [] g = (omega arith, omega arith)
  Grows-append lo hi w (x ∷ xs) g = (g.0, Grows-append x.0 hi w xs g.1)

-- A call of `Subscribe` or `Unsubscribe`.
pub data Call (W : Type 0) : Type 0 where
  joins : W → Call W
  leaves : ℕ → Call W

module _ {W : Type 0} where
  unfoldable pub or_else : Subs W → Option (Subs W) → Subs W
  or_else s none = s
  or_else s (some t) = t

  -- The state after calls; an `Unsubscribe` with an unknown number changes nothing.
  unfoldable pub after_call : Subs W → Call W → Subs W
  after_call s (joins w) = (subscribe s w).0
  after_call s (leaves id) = or_else s (unsubscribe s id)

  unfoldable pub calls : Subs W → List (Call W) → Subs W
  calls s [] = s
  calls s (c ∷ cs) = calls (after_call s c) cs

  after_call-Ordered : (s : Subs W) (c : Call W) → Ordered s → Ordered (after_call s c)
  unfolding after_call subscribe or_else
  after_call-Ordered s (joins w) g = Grows-append 0 s.last w s.subs g
  after_call-Ordered s (leaves id) g = elim (Bool-cases (has id s.subs)) [
    | inl there ↦ rw (unsubscribe_lem s id g, there) (Grows-without id 0 s.last s.subs g)
    | inr gone ↦ rw (unsubscribe_lem s id g, gone) g
  ]

  -- After any calls of `Subscribe` and `Unsubscribe` the numbers of the subscriptions grow along the list, so that
  -- no two are the same, and none is above the last number that was given, if that was so before.
  pub calls-Ordered : (s : Subs W) (cs : List (Call W)) → Ordered s → Ordered (calls s cs)
  unfolding calls
  calls-Ordered s [] g = g
  calls-Ordered s (c ∷ cs) g = calls-Ordered (after_call s c) cs (after_call-Ordered s c g)
