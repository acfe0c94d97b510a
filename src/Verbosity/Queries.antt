-- ===== src/Verbosity/Queries.antt =====
-- What a logger answers to a list of queries, whatever its cache holds by then.
use tlog.Base.{
  ℕ, ◌≡◌, refl, ap, arith, if◌then◌else◌, Bool, true, false, Bool-cases, none, some, Option-cases,
}
use tlog.Base.{List, [], ◌∷◌, inl, inr}
use tlog.Base.Bits.{Bytes}
use tlog.Verbosity.{
  same_text, star, Place, Key, Cache, lookup, Phase, answered, started, missed, verdict, looked,
  entered, first_look,
}
use tlog.Verbosity.{second_look, turn, match, Filter, set_verbosity, said, ifv}
use tlog.Verbosity.Goroutines.{Sound, lookup-Sound}

module _ (match_place : Bytes → Place → Bool) (place_of : ℕ → Place) where
  -- Whether a filter lets a query through, with no cache.
  unfoldable pub enabled : Bytes → Key → Bool
  enabled [] k = false
  enabled (x ∷ v) k =
      if same_text (x ∷ v) star then true else verdict match_place place_of (x ∷ v) k

  abbrev Answers : Bytes → Key → Cache × Phase → Type 0
  Answers f k r =
      Sound match_place place_of f r.0 × (r.1 ≡ answered (verdict match_place place_of f k))

  match_hit :
      (f : Bytes) (c : Cache) (k : Key) (r : Bool)
      → lookup c k ≡ some r
      → match match_place place_of f c k ≡ (c, answered r)
  unfolding match first_look turn looked
  match_hit f c k r there = rw (there, match) refl

  match_miss :
      (f : Bytes) (c : Cache) (k : Key)
      → lookup c k ≡ none
      → match match_place place_of f c k
        ≡ ((k, verdict match_place place_of f k) ∷ c, answered (verdict match_place place_of f k))
  unfolding match first_look turn looked second_look entered
  match_miss f c k absent = rw (absent, match) (rw absent refl)

  match-Answers :
      (f : Bytes) (c : Cache) (k : Key)
      → Sound match_place place_of f c
      → Answers f k (match match_place place_of f c k)
  unfolding Sound
  match-Answers f c k h = elim (Option-cases (lookup c k)) [
    | inl absent ↦ rw (match_miss f c k absent) ((refl, h), refl)
    | inr (r, there) ↦
        rw (match_hit f c k r there)
          (h, ap answered (lookup-Sound match_place place_of f c k r h there))
  ]

  -- The filter text of a logger stays, and its cache stays sound.
  Keeps : Bytes → Filter match_place place_of → Type 0
  Keeps [] none = Unit
  Keeps (x ∷ v) none = ⊥
  Keeps [] (some (f, c)) = ⊥
  Keeps (x ∷ v) (some (f, c)) = (f ≡ x ∷ v) × Sound match_place place_of (x ∷ v) c

  set_verbosity-Keeps : (v : Bytes) → Keeps v (set_verbosity match_place place_of v)
  unfolding set_verbosity Keeps Sound
  set_verbosity-Keeps [] = tt
  set_verbosity-Keeps (x ∷ v) = (refl, tt)

  said-Keeps :
      (x : ℕ) (v : Bytes) (k : Key) (r : Cache × Phase)
      → Answers (x ∷ v) k r
      → Keeps (x ∷ v) (said match_place place_of (x ∷ v) r).0
        × ((said match_place place_of (x ∷ v) r).1 ≡ verdict match_place place_of (x ∷ v) k)
  unfolding said Keeps
  said-Keeps x v k (c, answered r) (h, e) = ((refl, h), cc e)
  said-Keeps x v k (c, started) (h, e) = absurd (ground (arith, e))
  said-Keeps x v k (c, missed) (h, e) = absurd (ground (arith, e))

  ifv-Keeps :
      (v : Bytes) (l : Filter match_place place_of) (k : Key)
      → Keeps v l
      → Keeps v (ifv match_place place_of l k).0 × ((ifv match_place place_of l k).1 ≡ enabled v k)
  unfolding ifv enabled Keeps
  ifv-Keeps [] none k h = (tt, refl)
  ifv-Keeps [] (some l) k h = absurd h
  ifv-Keeps (x ∷ v) none k h = absurd h
  ifv-Keeps (x ∷ v) (some (f, c)) k (e, h) = elim (Bool-cases (same_text (x ∷ v) star)) [
    | inl all ↦ rw (e, all) ((refl, h), refl)
    | inr part ↦ rw (e, part) (said-Keeps x v k _ (match-Answers (x ∷ v) c k h))
  ]

  -- The filter of a logger after a list of queries.
  unfoldable pub asked : Filter match_place place_of → List Key → Filter match_place place_of
  asked l [] = l
  asked l (q ∷ qs) = asked (ifv match_place place_of l q).0 qs

  asked-Keeps :
      (qs : List Key) (v : Bytes) (l : Filter match_place place_of)
      → Keeps v l
      → Keeps v (asked l qs)
  unfolding asked
  asked-Keeps [] v l h = h
  asked-Keeps (q ∷ qs) v l h =
      asked-Keeps qs v (ifv match_place place_of l q).0 (ifv-Keeps v l q h).0

  -- After `SetVerbosity` and any queries, a logger answers a query as with no cache: no for the empty filter, yes for
  -- the filter `*`, and what `matchPattern` says for any other.
  pub ifv-asked :
      (v : Bytes) (qs : List Key) (k : Key)
      → (ifv match_place place_of (asked (set_verbosity match_place place_of v) qs) k).1
        ≡ enabled v k
  ifv-asked v qs k =
      (ifv-Keeps v _ k
        (asked-Keeps qs v (set_verbosity match_place place_of v) (set_verbosity-Keeps v))).1
