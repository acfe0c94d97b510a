-- ===== src/Agent/Streams.antt =====
-- agent/agent.go: the stream that an event belongs to, by its labels.
use tlog.Base.{ℕ, suc, ◌≡◌, refl, arith, ◌==◌, Bool, true, false, ◌&&◌}
use tlog.Base.{Option, none, some, Option-cases, List, [], ◌∷◌, ◌++◌, inl, inr, length}
use tlog.Base.Bits.{Bytes}
use tlog.Rotating.{bytes_eq}
use tlog.Rotating.Names.{bytes_eq_refl}

-- `labels` and `sum` of a `stream`, and what else it has.
pub record Labelled (A : Type 0) : Type 0 where
  pub labels : Bytes
  pub sum : ℕ
  pub rest : A

-- The checksum of the labels, `crc32.ChecksumIEEE`, is a parameter; so is what a new stream begins with.
module _ {A : Type 0} (checksum : Bytes → ℕ) (begin : A) where
  unfoldable pub is_stream : Bytes → Labelled A → Bool
  is_stream labels s = s.sum == checksum labels && bytes_eq s.labels labels

  -- A round of the loop of `file`, with what the rounds after it find.
  unfoldable pub found : Bool → Option ℕ → Option ℕ
  found true o = some 0
  found false none = none
  found false (some i) = some (suc i)

  -- The loop of `file`: the index of the first stream with the labels.
  unfoldable pub find_stream : Bytes → List (Labelled A) → Option ℕ
  find_stream labels [] = none
  find_stream labels (s ∷ ss) = found (is_stream labels s) (find_stream labels ss)

  unfoldable pub or_new : Bytes → List (Labelled A) → Option ℕ → ℕ × List (Labelled A)
  or_new labels ss none =
      (length ss, ss ++ (record { labels = labels; sum = checksum labels; rest = begin } ∷ []))
  or_new labels ss (some i) = (i, ss)

  -- `file`: the index of the stream, and the streams.
  unfoldable pub choose : List (Labelled A) → Bytes → ℕ × List (Labelled A)
  choose ss labels = or_new labels ss (find_stream labels ss)

  found_none : (t : Bool) (o : Option ℕ) → found t o ≡ none → (t ≡ false) × (o ≡ none)
  unfolding found
  found_none true o e = ground (arith, e)
  found_none false none e = (refl, refl)
  found_none false (some i) e = ground (arith, e)

  is_stream_new :
      (labels : Bytes)
      → is_stream labels (record { labels = labels; sum = checksum labels; rest = begin }) ≡ true
  unfolding is_stream
  is_stream_new labels = ground (arith, bytes_eq_refl labels)

  find_new :
      (labels : Bytes) (ss : List (Labelled A))
      → find_stream labels ss ≡ none
      → find_stream labels
          (ss ++ (record { labels = labels; sum = checksum labels; rest = begin } ∷ []))
        ≡ some (length ss)
  unfolding find_stream found
  find_new labels [] e = rw (is_stream_new labels) refl
  find_new labels (s ∷ ss) e =
      let (other, later) = found_none (is_stream labels s) (find_stream labels ss) e in
      rw (other, find_new labels ss later) refl

  -- An event with labels that were seen before goes to the stream that they chose then, and makes no new one.
  pub choose-choose :
      (ss : List (Labelled A)) (labels : Bytes)
      → choose (choose ss labels).1 labels ≡ choose ss labels
  unfolding choose or_new
  choose-choose ss labels = elim (Option-cases (find_stream labels ss)) [
    | inl new ↦ rw (new, find_new labels ss new) refl
    | inr (i, old) ↦ rw (old, old) refl
  ]
