-- ===== src/Verbosity/Clauses.antt =====
-- `matchPattern` of verbosity_filter.go: the last clause that accepts decides.
use tlog.Base.{ℕ, ◌≡◌, ◌≢◌, refl, ap, ◌∙◌, arith, ◌==◌, if◌then◌else◌, Bool, not, Bool-cases}
use tlog.Base.{Option, none, some, List, [], ◌∷◌, ◌++◌, All, inl, inr}
use tlog.Base.Bits.{Bytes}
use tlog.Verbosity.{
  glue, split, is_negated, trim_bang, Place, accepts, match_clauses, match_pattern,
}

-- The parts joined by the byte.
unfoldable pub join : ℕ → List Bytes → Bytes
join sep [] = []
join sep (p ∷ []) = p
join sep (p ∷ q ∷ ps) = p ++ (sep ∷ join sep (q ∷ ps))

join-glue :
    (sep c : ℕ) (p : Bytes) (ps : List Bytes) → join sep (glue c (p ∷ ps)) ≡ c ∷ join sep (p ∷ ps)
unfolding join glue
join-glue sep c p [] = refl
join-glue sep c p (q ∷ ps) = refl

glue-join : (sep c : ℕ) (ps : List Bytes) → ps ≢ [] → join sep (glue c ps) ≡ c ∷ join sep ps
glue-join sep c [] h = absurd (h refl)
glue-join sep c (p ∷ ps) h = join-glue sep c p ps

glue_nonempty : (c : ℕ) (ps : List Bytes) → glue c ps ≢ []
unfolding glue
glue_nonempty c [] e = ground (arith, e)
glue_nonempty c (p ∷ ps) e = ground (arith, e)

split_nonempty : (sep : ℕ) (s : Bytes) → split sep s ≢ []
unfolding split glue
split_nonempty sep [] e = ground (arith, e)
split_nonempty sep (c ∷ s) e = elim (Bool-cases (c == sep)) [
  | inl here ↦ ground (arith, here, e)
  | inr on ↦ glue_nonempty c (split sep s) (rw on at e)
]

join_nil : (sep : ℕ) (ps : List Bytes) → ps ≢ [] → join sep ([] ∷ ps) ≡ sep ∷ join sep ps
unfolding join
join_nil sep [] h = absurd (h refl)
join_nil sep (p ∷ ps) h = refl

-- `strings.Split` loses nothing: its parts, joined by the byte, are the text.
pub join-split : (sep : ℕ) (s : Bytes) → join sep (split sep s) ≡ s
unfolding split
join-split sep [] = unfold join in refl
join-split sep (c ∷ s) = elim (Bool-cases (c == sep)) [
  | inl here ↦
      let same : c ≡ sep = ground (arith, here) in
      rw here (join_nil sep (split sep s) (split_nonempty sep s) ∙ rw (same, join-split sep s) refl)
  | inr on ↦
      rw on
        (glue-join sep c (split sep s) (split_nonempty sep s) ∙ ap (λ t. c ∷ t) (join-split sep s))
]

module _ (match_place : Bytes → Place → Bool) where
  -- What a clause says: nothing where it is empty or does not accept, or agrees, or no for one with a `!`.
  unfoldable pub says : Place → List Bytes → Bytes → Option Bool
  says at ts [] = none
  says at ts (x ∷ ff) =
      if accepts match_place (trim_bang (x ∷ ff)) at ts
      then some (not (is_negated (x ∷ ff)))
      else none

  step-says :
      (ff : Bytes) (ffs : List Bytes) (at : Place) (ts : List Bytes) (r : Bool)
      → match_clauses match_place (ff ∷ ffs) at ts r
        ≡ match_clauses match_place ffs at ts (elim (says at ts ff) [ none ↦ r | some a ↦ a ])
  unfolding match_clauses says
  step-says [] ffs at ts r = refl
  step-says (x ∷ ff) ffs at ts r =
      elim (Bool-cases (accepts match_place (trim_bang (x ∷ ff)) at ts)) [
        | inl accepted ↦ rw (accepted, says) refl
        | inr other ↦ rw (other, says) refl
      ]

  silent :
      (ffs : List Bytes) (at : Place) (ts : List Bytes) (r : Bool)
      → All (λ g. says at ts g ≡ none) ffs
      → match_clauses match_place ffs at ts r ≡ r
  unfolding match_clauses
  silent [] at ts r h = refl
  silent (ff ∷ ffs) at ts r h = step-says ff ffs at ts r ∙ rw h.0 (silent ffs at ts r h.1)

  decided :
      (before after : List Bytes) (ff : Bytes) (at : Place) (ts : List Bytes) (r a : Bool)
      → says at ts ff ≡ some a
      → All (λ g. says at ts g ≡ none) after
      → match_clauses match_place (before ++ (ff ∷ after)) at ts r ≡ a
  decided [] after ff at ts r a agrees h =
      step-says ff after at ts r ∙ rw agrees (silent after at ts a h)
  decided (g ∷ before) after ff at ts r a agrees h =
      step-says g (before ++ (ff ∷ after)) at ts r ∙ decided before after ff at ts _ a agrees h

  -- The last clause of a filter that accepts decides: with what it says `matchPattern` answers, whatever the
  -- clauses before it say.
  pub match_pattern_last :
      (f topics : Bytes) (at : Place) (before after : List Bytes) (ff : Bytes) (a : Bool)
      → split b',' f ≡ before ++ (ff ∷ after)
      → says at (split b',' topics) ff ≡ some a
      → All (λ g. says at (split b',' topics) g ≡ none) after
      → match_pattern match_place f at topics ≡ a
  unfolding match_pattern
  match_pattern_last f topics at before after ff a cut agrees h =
      rw cut (decided before after ff at (split b',' topics) (is_negated f) a agrees h)

  -- Where no clause accepts, `matchPattern` answers yes if the filter begins with a `!` and no if it does not.
  pub match_pattern_default :
      (f topics : Bytes) (at : Place)
      → All (λ g. says at (split b',' topics) g ≡ none) (split b',' f)
      → match_pattern match_place f at topics ≡ is_negated f
  unfolding match_pattern
  match_pattern_default f topics at h =
      silent (split b',' f) at (split b',' topics) (is_negated f) h
