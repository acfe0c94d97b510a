-- ===== src/Renamer/Search.antt =====
-- `sort.Search` as convert/rewriter.go uses it, and what it finds among rules in the order of their paths.
use tlog.Base.{ℕ, zero, suc, ◌+◌, ◌/◌, ◌≤◌, ◌<◌, ◌≡◌, ◌≢◌, inl, inr, refl, sym, subst}
use tlog.Base.{arith, ltb, ltb→lt, if◌then◌else◌, Bool, true, false, Bool-cases, All}
use tlog.Base.{Option, none, some, List, [], ◌∷◌, ◌++◌, length, get_elem?}
use tlog.Base.Bits.{Bytes}
use tlog.Wire.Int64.{ℤ}
use tlog.Renamer.{
  below, above, compare_paths, RenameRule, Wiring, KeyRenamer, search, is_above, is_same, not_after,
  rule_for, lookup_rule, append_rules, rewrite_by, rewrite,
}
use tlog.Renamer.Ordering.{Order-cases, compare_paths-Compares}

-- An index below which the answer is no, and at which it is yes, if it is one.
abbrev pub IsFirst : (ℕ → Bool) → ℕ → ℕ → Type 0
IsFirst f n i = ((k : ℕ) → k < i → f k ≡ false) × (i < n → f i ≡ true) × (i ≤ n)

-- Once yes, always yes.
abbrev pub IsUpward : (ℕ → Bool) → ℕ → Type 0
IsUpward f n = (a b : ℕ) → a ≤ b → b < n → f a ≡ true → f b ≡ true

-- The binary search ends with the first index that answers yes, or the length, on enough fuel.
pub search-IsFirst :
    (fuel : ℕ) (f : ℕ → Bool) (n i j : ℕ)
    → IsUpward f n
    → j < i + fuel
    → i ≤ j
    → j ≤ n
    → ((k : ℕ) → k < i → f k ≡ false)
    → (j < n → f j ≡ true)
    → IsFirst f n (search fuel f i j)
unfolding search
search-IsFirst zero f n i j up few ij jn below_no at_yes = absurd (omega arith)
search-IsFirst (suc fuel) f n i j up few ij jn below_no at_yes =
    let h = (i + j) / 2 in
    let before = search-IsFirst fuel f n i h up in
    let after = search-IsFirst fuel f n (h + 1) j up in
    elim (Bool-cases (ltb i j)) [
      | inl lt ↦
          let less : i < j = ltb→lt i j lt in
          elim (Bool-cases (f h)) [
            | inl y ↦
                rw (lt, y) (before (omega arith) (omega arith) (omega arith) below_no (λ small. y))
            | inr m ↦
                rw (lt, m)
                  (after (omega arith) (omega arith) jn
                    (λ k small. elim (Bool-cases (f k)) [
                      | inl t ↦ absurd (let t' = up k h (omega arith) (omega arith) t in cc)
                      | inr g ↦ g
                    ])
                    at_yes)
          ]
      | inr ge ↦
          let same_index : j ≡ i = ground arith in
          rw ge (
            below_no,
            (λ small.
                subst (λ v. f v ≡ true) same_index (at_yes (omega (arith, small, same_index)))),
            omega arith,
          )
    ]

-- Each rule is before or like all that follow it, as `sort.Slice` leaves them.
abbrev pub AreSorted : List RenameRule → Type 0
AreSorted [] = Unit
AreSorted (r ∷ rs) = All (λ x. compare_paths r.path x.path ≢ above) rs × AreSorted rs

-- The first rule of a path, looked for one by one.
unfoldable pub first_rule : List Bytes → List RenameRule → Option RenameRule
first_rule path [] = none
first_rule path (r ∷ rs) =
    if is_same (compare_paths path r.path) then some r else first_rule path rs

below_then :
    (x y z : List Bytes)
    → compare_paths x y ≢ above
    → compare_paths y z ≢ above
    → compare_paths x z ≢ above
below_then x y z e f =
    let laws = compare_paths-Compares in
    elim (Order-cases (compare_paths x y)) [
      | inl xy ↦ elim (Order-cases (compare_paths y z)) [
        | inl yz ↦ λ xz. let t = laws.trans_below x y z xy yz in absurd (cc)
        | inr (inl yz) ↦ subst (λ v. compare_paths x v ≢ above) (laws.same_are y z yz) e
        | inr (inr yz) ↦ absurd (f yz)
      ]
      | inr (inl xy) ↦ subst (λ v. compare_paths v z ≢ above) (sym (laws.same_are x y xy)) f
      | inr (inr xy) ↦ absurd (e xy)
    ]

below_not_same :
    (x y z : List Bytes)
    → compare_paths x y ≡ below
    → compare_paths y z ≢ above
    → compare_paths x z ≡ below
below_not_same x y z xy f =
    let laws = compare_paths-Compares in
    elim (Order-cases (compare_paths y z)) [
      | inl yz ↦ laws.trans_below x y z xy yz
      | inr (inl yz) ↦ subst (λ v. compare_paths x v ≡ below) (laws.same_are y z yz) xy
      | inr (inr yz) ↦ absurd (f yz)
    ]

-- No rule of a path where all are after it.
first_rule-none :
    (path : List Bytes) (r : RenameRule) (rs : List RenameRule)
    → compare_paths path r.path ≡ below
    → All (λ x. compare_paths r.path x.path ≢ above) rs
    → first_rule path rs ≡ none
unfolding first_rule is_same
first_rule-none path r [] e h = refl
first_rule-none path r (x ∷ rs) e h =
    let rest = first_rule-none path r rs e h.1 in rw (below_not_same path r.path x.path e h.0) rest

abbrev asks : List RenameRule → List Bytes → ℕ → Bool
asks rules path i = not_after path (get_elem? rules i)

says_no :
    (path : List Bytes) (r : RenameRule)
    → compare_paths path r.path ≡ above
    → not_after path (some r) ≡ false
unfolding not_after is_above
says_no path r e = rw e refl

says_yes :
    (path : List Bytes) (r : RenameRule)
    → compare_paths path r.path ≢ above
    → not_after path (some r) ≡ true
unfolding not_after is_above
says_yes path r n = elim (Order-cases (compare_paths path r.path)) [
  | inl e ↦ rw e refl
  | inr (inl e) ↦ rw e refl
  | inr (inr e) ↦ absurd (n e)
]

yes_means :
    (path : List Bytes) (r : RenameRule)
    → not_after path (some r) ≡ true
    → compare_paths path r.path ≢ above
yes_means path r y e = let n = says_no path r e in absurd (cc)

-- Where the search ends is the first rule of the path, or no rule of it.
rule_for-first_rule :
    (rules : List RenameRule) (path : List Bytes) (i : ℕ)
    → AreSorted rules
    → IsFirst (asks rules path) (length rules) i
    → rule_for path (get_elem? rules i) ≡ first_rule path rules
unfolding rule_for first_rule not_after is_above is_same
rule_for-first_rule [] path i s h = refl
rule_for-first_rule (r ∷ rs) path zero s h =
    let at = h.1 (omega arith) in
    elim (Order-cases (compare_paths path r.path)) [
      | inl e ↦ rw e (sym (first_rule-none path r rs e s.0))
      | inr (inl e) ↦ rw e refl
      | inr (inr e) ↦ absurd (yes_means path r at e)
    ]
rule_for-first_rule (r ∷ rs) path (suc i) s h =
    let at = h.0 0 (omega arith) in
    let rest = rule_for-first_rule rs path i s.1 (
      (λ k small. h.0 (suc k) (omega (arith, small))),
      (λ small. h.1 (omega (arith, small))),
      omega (arith, h.2),
    ) in
    elim (Order-cases (compare_paths path r.path)) [
      | inl e ↦ let y = says_yes path r (λ f. absurd (cc)) in absurd (cc)
      | inr (inl e) ↦ let y = says_yes path r (λ f. absurd (cc)) in absurd (cc)
      | inr (inr e) ↦ rw e rest
    ]

follows :
    (path : List Bytes) (r : RenameRule) (rs : List RenameRule) (b : ℕ)
    → compare_paths path r.path ≢ above
    → b < length rs
    → All (λ x. compare_paths r.path x.path ≢ above) rs
    → not_after path (get_elem? rs b) ≡ true
follows path r [] b n small h = absurd (omega (arith, small))
follows path r (x ∷ rs) zero n small h = says_yes path x (below_then path r.path x.path n h.0)
follows path r (x ∷ rs) (suc b) n small h = follows path r rs b n (omega (arith, small)) h.1

asks-IsUpward :
    (rules : List RenameRule) (path : List Bytes)
    → AreSorted rules
    → IsUpward (asks rules path) (length rules)
asks-IsUpward [] path s a b ab small y = absurd (omega (arith, small))
asks-IsUpward (r ∷ rs) path s zero zero ab small y = y
asks-IsUpward (r ∷ rs) path s zero (suc b) ab small y =
    follows path r rs b (yes_means path r y) (omega (arith, small)) s.0
asks-IsUpward (r ∷ rs) path s (suc a) zero ab small y = absurd (omega (arith, ab))
asks-IsUpward (r ∷ rs) path s (suc a) (suc b) ab small y =
    asks-IsUpward rs path s.1 a b (omega (arith, ab)) (omega (arith, small)) y

lookup_rule-first_rule :
    (rules : List RenameRule) (path : List Bytes)
    → AreSorted rules
    → lookup_rule rules path ≡ first_rule path rules
unfolding lookup_rule
lookup_rule-first_rule rules path s = rule_for-first_rule rules path _ s (
    search-IsFirst (length rules + 1) (asks rules path) (length rules) 0 (length rules)
      (asks-IsUpward rules path s) (omega arith) (omega arith) (omega arith)
      (λ k small. absurd (omega (arith, small))) (λ small. absurd (omega (arith, small))))

-- `KeyRenamer.Rewrite`, on rules that `Append` added and put in order, does what the first rule of the path
-- says, as if the rules were looked at one by one, and what the fallback says where no rule has the path.
pub rewrite-first_rule :
    (w : Wiring) (r : KeyRenamer) (new : List RenameRule)
    → AreSorted (w.sort_rules (r.rules ++ new))
    → (b p : Bytes) (path : List Bytes) (kst : ℤ) (st : ℕ)
    → rewrite w (append_rules w r new) b p path kst st
      ≡ rewrite_by w
          (append_rules w r new)
          (first_rule path (append_rules w r new).rules)
          b
          p
          path
          kst
          st
unfolding rewrite append_rules
rewrite-first_rule w r new s b p path kst st =
    rw (lookup_rule-first_rule (w.sort_rules (r.rules ++ new)) path s) refl
