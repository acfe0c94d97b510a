-- ===== src/Verbosity/Goroutines.antt =====
-- The cache of verbosity_filter.go under goroutines that take turns in `match`.
use tlog.Base.{ℕ, zero, suc, ◌≡◌, refl, ap, ap₂, subst, sym, ◌∙◌, arith, Bool, true, Bool-cases}
use tlog.Base.{Option, none, some, List, [], ◌∷◌, get_elem?, set, All, inl, inr}
use tlog.Base.Bits.{Bytes}
use tlog.Verbosity.{
  same_text, Place, Key, same_key, Cache, lookup, Phase, started, missed, answered, verdict,
}
use tlog.Verbosity.{looked, entered, first_look, second_look, turn}

-- `filter.c`, and the goroutines that are in `match` with their keys.
pub record Calls : Type 0 where
  pub cache : Cache
  pub calls : List (Key × Phase)

same_text-true : (a b : Bytes) → same_text a b ≡ true → a ≡ b
unfolding same_text
same_text-true [] [] h = refl
same_text-true [] (y ∷ b) h = ground (arith, h)
same_text-true (x ∷ a) [] h = ground (arith, h)
same_text-true (x ∷ a) (y ∷ b) h =
    let head : x ≡ y = ground (arith, h) in
    let tail : a ≡ b = same_text-true a b (ground (arith, h)) in cc (head, tail)

same_key-true : (a b : Key) → same_key a b ≡ true → a ≡ b
unfolding same_key
same_key-true a b h =
    let pc : a.pc ≡ b.pc = ground (arith, h) in
    let topics : a.topics ≡ b.topics = same_text-true a.topics b.topics (ground (arith, h)) in
    ap₂ {C = Key} (λ p t. record { pc = p; topics = t }) pc topics

module _ (match_place : Bytes → Place → Bool) (place_of : ℕ → Place) (f : Bytes) where
  -- Every entry of the cache is what `matchPattern` says.
  unfoldable pub Sound : Cache → Type 0
  Sound [] = Unit
  Sound ((k, r) ∷ c) = (r ≡ verdict match_place place_of f k) × Sound c

  -- An answer, where there is one, is what `matchPattern` says.
  abbrev pub Right : Key × Phase → Type 0
  Right (k, started) = Unit
  Right (k, missed) = Unit
  Right (k, answered r) = r ≡ verdict match_place place_of f k

  pub lookup-Sound :
      (c : Cache) (k : Key) (r : Bool)
      → Sound c
      → lookup c k ≡ some r
      → r ≡ verdict match_place place_of f k
  unfolding lookup Sound
  lookup-Sound [] k r h e = ground (arith, e)
  lookup-Sound ((k', r') ∷ c) k r h e = elim (Bool-cases (same_key k' k)) [
    | inl here ↦
        let same : r' ≡ r = ground (arith, e, here) in
        sym same ∙ h.0 ∙ ap (verdict match_place place_of f) (same_key-true k' k here)
    | inr on ↦ lookup-Sound c k r h.1 (rw on at e)
  ]

  looked-Sound :
      (c : Cache) (k : Key) (o : Option Bool)
      → Sound c
      → ((r : Bool) → o ≡ some r → r ≡ verdict match_place place_of f k)
      → Sound (looked match_place place_of c o).0 × Right (k, (looked match_place place_of c o).1)
  unfolding looked
  looked-Sound c k none h q = (h, tt)
  looked-Sound c k (some r) h q = (h, q r refl)

  entered-Sound :
      (c : Cache) (k : Key) (o : Option Bool)
      → Sound c
      → ((r : Bool) → o ≡ some r → r ≡ verdict match_place place_of f k)
      → Sound (entered match_place place_of f c k o).0
        × Right (k, (entered match_place place_of f c k o).1)
  unfolding entered Sound
  entered-Sound c k none h q = ((refl, h), refl)
  entered-Sound c k (some r) h q = (h, q r refl)

  turn-Sound :
      (c : Cache) (k : Key) (p : Phase)
      → Sound c
      → Right (k, p)
      → Sound (turn match_place place_of f c k p).0
        × Right (k, (turn match_place place_of f c k p).1)
  unfolding turn first_look second_look
  turn-Sound c k started h q = looked-Sound c k (lookup c k) h (λ r e. lookup-Sound c k r h e)
  turn-Sound c k missed h q = entered-Sound c k (lookup c k) h (λ r e. lookup-Sound c k r h e)
  turn-Sound c k (answered r) h q = (h, q)

  -- Goroutine `i` takes its next step.
  unfoldable pub advanced : Calls → ℕ → Option (Key × Phase) → Calls
  advanced s i none = s
  advanced s i (some g) =
      let (c, p) = turn match_place place_of f s.cache g.0 g.1 in
      record { cache = c; calls = set s.calls i (g.0, p) }

  unfoldable pub advance : Calls → ℕ → Calls
  advance s i = advanced s i (get_elem? s.calls i)

  -- The goroutines take turns in the order of a schedule.
  unfoldable pub run : Calls → List ℕ → Calls
  run s [] = s
  run s (i ∷ is) = run (advance s i) is

  All-get :
      (gs : List (Key × Phase)) (i : ℕ) (g : Key × Phase)
      → All Right gs
      → get_elem? gs i ≡ some g
      → Right g
  All-get [] i g h e = ground (arith, e)
  All-get (x ∷ gs) zero g h e = let same : x ≡ g = cc e in subst Right same h.0
  All-get (x ∷ gs) (suc i) g h e = All-get gs i g h.1 e

  All-set :
      (gs : List (Key × Phase)) (i : ℕ) (g : Key × Phase)
      → All Right gs
      → Right g
      → All Right (set gs i g)
  All-set [] i g h r = tt
  All-set (x ∷ gs) zero g h r = (r, h.1)
  All-set (x ∷ gs) (suc i) g h r = (h.0, All-set gs i g h.1 r)

  advanced-Sound :
      (s : Calls) (i : ℕ) (o : Option (Key × Phase))
      → Sound s.cache
      → All Right s.calls
      → ((g : Key × Phase) → o ≡ some g → Right g)
      → Sound (advanced s i o).cache × All Right (advanced s i o).calls
  unfolding advanced
  advanced-Sound s i none h r q = (h, r)
  advanced-Sound s i (some g) h r q =
      let (h', r') = turn-Sound s.cache g.0 g.1 h (q g refl) in
      (h', All-set s.calls i (g.0, _) r r')

  advance-Sound :
      (s : Calls) (i : ℕ)
      → Sound s.cache
      → All Right s.calls
      → Sound (advance s i).cache × All Right (advance s i).calls
  unfolding advance
  advance-Sound s i h r =
      advanced-Sound s i (get_elem? s.calls i) h r (λ g e. All-get s.calls i g r e)

  -- In every order in which the goroutines take their turns, each of them that is back from `match` has the answer
  -- of `matchPattern` for its place and topics, and the cache holds nothing else, if that was so before.
  pub run-Sound :
      (s : Calls) (is : List ℕ)
      → Sound s.cache
      → All Right s.calls
      → Sound (run s is).cache × All Right (run s is).calls
  unfolding run
  run-Sound s [] h r = (h, r)
  run-Sound s (i ∷ is) h r =
      let (h', r') = advance-Sound s i h r in run-Sound (advance s i) is h' r'
