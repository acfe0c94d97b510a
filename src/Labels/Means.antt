-- ===== src/Labels/Means.antt =====
-- `ParseLabels` of labels.go on a list of parts, each of them a key, a key with a value, or empty.
use tlog.Base.{◌≤◌, ℕ, ◌+◌, ◌≡◌, ◌≢◌, refl, sym, ap, ◌∙◌, arith, ◌==◌, false}
use tlog.Base.{Option, none, some, List, [], ◌∷◌, ◌++◌, map, All}
use tlog.Base.{length, drop, take-append, drop-append, drop-drop}
use tlog.Base.Bits.{Bytes}
use tlog.Verbosity.{split, glue, index_byte}
use tlog.Verbosity.Clauses.{join}
use tlog.Labels.Numerals.{
  Sign, unmarked, plus, minus, spelled, decimal, signed, IsNumeral, NoNumeral, atoi-spelled,
  atoi-none,
}
use tlog.Labels.{
  Value, text, number, auto, atoi, number_or_text, auto_value, label_of, labels_loop, parse_labels,
}

pub data Part : Type 0 where
  blank : Part
  bare : Bytes → Part
  numbered : Bytes → Sign → Bytes → Part
  texted : Bytes → Bytes → Part

abbrev pub Without : ℕ → Bytes → Type 0
Without sep s = All (λ c. (c == sep) ≡ false) s

-- No part has a comma, and no key has `=`; a bare key is not empty, and a text is no numeral.
abbrev pub IsPart : Part → Type 0
IsPart blank = Unit
IsPart (bare k) = (k ≢ []) × Without b',' k × Without b'=' k
IsPart (numbered k g ds) = Without b',' k × Without b'=' k × IsNumeral g ds
IsPart (texted k v) = Without b',' k × Without b'=' k × Without b',' v × NoNumeral v

unfoldable pub shown : Part → Bytes
shown blank = []
shown (bare k) = k
shown (numbered k g ds) = k ++ (b'=' ∷ spelled g ds)
shown (texted k v) = k ++ (b'=' ∷ v)

split-last : (sep : ℕ) (p : Bytes) → Without sep p → split sep p ≡ p ∷ []
unfolding split glue
split-last sep [] h = refl
split-last sep (c ∷ p) h = rw (h.0, split-last sep p h.1) refl

split-part : (sep : ℕ) (p s : Bytes) → Without sep p → split sep (p ++ (sep ∷ s)) ≡ p ∷ split sep s
unfolding split glue
split-part sep [] s h = ground arith
split-part sep (c ∷ p) s h = rw (h.0, split-part sep p s h.1) refl

split-join :
    (sep : ℕ) (p : Bytes) (ps : List Bytes)
    → All (Without sep) (p ∷ ps)
    → split sep (join sep (p ∷ ps)) ≡ p ∷ ps
unfolding join
split-join sep p [] h = split-last sep p h.0
split-join sep p (q ∷ ps) h =
    split-part sep p (join sep (q ∷ ps)) h.0 ∙ ap (λ t. p ∷ t) (split-join sep q ps h.1)

index_byte-none : (c : ℕ) (s : Bytes) → Without c s → index_byte s c ≡ none
unfolding index_byte
index_byte-none c [] h = refl
index_byte-none c (x ∷ s) h = rw (h.0, index_byte-none c s h.1) refl

index_byte-append :
    (c : ℕ) (k v : Bytes) → Without c k → index_byte (k ++ (c ∷ v)) c ≡ some (length k)
unfolding index_byte
index_byte-append c [] v h = ground arith
index_byte-append c (x ∷ k) v h = rw (h.0, index_byte-append c k v h.1) refl

Without-append :
    (sep : ℕ) (k v : Bytes) (c : ℕ)
    → Without sep k
    → (c == sep) ≡ false
    → Without sep v
    → Without sep (k ++ (c ∷ v))
Without-append sep [] v c h e g = (e, g)
Without-append sep (x ∷ k) v c h e g = (h.0, Without-append sep k v c h.1 e g)

digits-Without : (ds : Bytes) → All (λ c. (b'0' ≤ c) × (c ≤ b'9')) ds → Without b',' ds
digits-Without [] h = tt
digits-Without (c ∷ ds) h = (ground (arith, h.0.0), digits-Without ds h.1)

spelled-Without : (g : Sign) (ds : Bytes) → IsNumeral g ds → Without b',' (spelled g ds)
unfolding spelled
spelled-Without unmarked ds h = digits-Without ds h.digits
spelled-Without plus ds h = (refl, digits-Without ds h.digits)
spelled-Without minus ds h = (refl, digits-Without ds h.digits)

shown-Without : (p : Part) → IsPart p → Without b',' (shown p)
unfolding shown
shown-Without blank h = tt
shown-Without (bare k) h = h.1
shown-Without (numbered k g ds) h =
    Without-append b',' k (spelled g ds) b'=' h.0 refl (spelled-Without g ds h.2)
shown-Without (texted k v) h = Without-append b',' k v b'=' h.0 refl h.2

shown_parts : (ps : List Part) → All IsPart ps → All (Without b',') (map shown ps)
shown_parts [] h = tt
shown_parts (p ∷ ps) h = (shown-Without p h.0, shown_parts ps h.1)

drop_past : (k v : Bytes) (c : ℕ) → drop (length k + 1) (k ++ (c ∷ v)) ≡ v
drop_past k v c = sym (drop-drop (length k) 1 (k ++ (c ∷ v))) ∙ ap (drop 1) (drop-append k (c ∷ v))

module _ (auto_labels : Bytes → Option ℕ) where
  -- What a bare key has for a value.
  unfoldable pub by_default : Option ℕ → Value
  by_default (some f) = auto f
  by_default none = text []

  -- What the parts are to mean: nothing, an automatic value or the empty text, a number, or a text.
  unfoldable pub meanings : List Part → List (Bytes × Value)
  meanings [] = []
  meanings (blank ∷ ps) = meanings ps
  meanings (bare k ∷ ps) = (k, by_default (auto_labels k)) ∷ meanings ps
  meanings (numbered k g ds ∷ ps) = (k, number (signed g (decimal ds))) ∷ meanings ps
  meanings (texted k v ∷ ps) = (k, text v) ∷ meanings ps

  auto_value-by_default : (f : Option ℕ) → auto_value auto_labels f ≡ by_default f
  unfolding auto_value by_default
  auto_value-by_default none = refl
  auto_value-by_default (some f) = refl

  labels_loop-assigned :
      (k v : Bytes) (ls : List Bytes)
      → Without b'=' k
      → labels_loop auto_labels ((k ++ (b'=' ∷ v)) ∷ ls)
        ≡ (k, number_or_text v (atoi v)) ∷ labels_loop auto_labels ls
  unfolding labels_loop label_of
  labels_loop-assigned [] v ls h = unfold index_byte in refl
  labels_loop-assigned (c ∷ k) v ls h =
      rw
        (
          index_byte-append b'=' (c ∷ k) v h,
          take-append (c ∷ k) (b'=' ∷ v),
          drop_past (c ∷ k) v b'=',
        )
        refl

  labels_loop-meanings :
      (ps : List Part) → All IsPart ps → labels_loop auto_labels (map shown ps) ≡ meanings ps
  unfolding labels_loop meanings shown label_of number_or_text
  labels_loop-meanings [] h = refl
  labels_loop-meanings (blank ∷ ps) h = labels_loop-meanings ps h.1
  labels_loop-meanings (bare [] ∷ ps) h = absurd (h.0.0 refl)
  labels_loop-meanings (bare (c ∷ k) ∷ ps) h =
      rw
        (
          index_byte-none b'=' (c ∷ k) h.0.2,
          auto_value-by_default (auto_labels (c ∷ k)),
          labels_loop-meanings ps h.1,
        )
        refl
  labels_loop-meanings (numbered k g ds ∷ ps) h =
      labels_loop-assigned k (spelled g ds) (map shown ps) h.0.1
      ∙ rw (atoi-spelled g ds h.0.2, labels_loop-meanings ps h.1) refl
  labels_loop-meanings (texted k v ∷ ps) h =
      labels_loop-assigned k v (map shown ps) h.0.1
      ∙ rw (atoi-none v h.0.3, labels_loop-meanings ps h.1) refl

  -- `ParseLabels` reads the parts of a list with commas in their order: an empty part is left out, a key alone
  -- gets the value of its automatic label or the empty text, a value that is a numeral of an `int64`, with a sign or
  -- none, is that number, and any other value is a text, with any `=` in it. No part has a comma and no key an `=`.
  pub parse_labels-join :
      (ps : List Part)
      → All IsPart ps
      → parse_labels auto_labels (join b',' (map shown ps)) ≡ meanings ps
  unfolding parse_labels
  parse_labels-join [] h = unfold join split labels_loop meanings in refl
  parse_labels-join (p ∷ ps) h =
      rw (split-join b',' (shown p) (map shown ps) (shown_parts (p ∷ ps) h))
        (labels_loop-meanings (p ∷ ps) h)
