-- ===== src/Kvs/Labels/Labelled/Loop.antt =====
-- The loop of `AppendLabels` of wire.go on whole pairs.
use tlog.Base.{ℕ, ◌+◌, ◌^◌, ◌≤◌, ◌<◌, ◌≡◌, refl, sym, ap, ◌∙◌, arith, ltb, lt→ltb}
use tlog.Base.{true, some, [], ◌∷◌, ◌++◌, append_assoc}
use tlog.Base.{
  length, get_elem?, length-append, set-append, get_elem?-append, append_shift, length-append_one,
  Bool-cases, inl, inr,
}
use tlog.Base.Bits.{Bytes}
use tlog.Base.Outcome.{Outcome, ok}
use tlog.Wire.{rfc8949}
use tlog.Wire.Scan.Grammar.{Item, encode, IsItem}
use tlog.Kvs.{semantic}
use tlog.Kvs.Labels.{Labelling, and_then, moved_to, put_tag, tagged, tag_and_move, LabelRun}
use tlog.Kvs.Labels.Moves.{state, same_state, gap_after, length-gap_after, move-state}
use tlog.Kvs.Labels.Labelled.{is_label, label, encode-FirstByte, encode-label}

-- What `Skip` promises: the index behind an event that starts at the index, in a buffer below 2 ^ 63.
abbrev pub Skips : (Bytes → ℕ → Outcome ℕ) → Type 0
Skips skip =
    (x : Item) (pre s : Bytes)
    → IsItem x
    → length (pre ++ (encode x ++ s)) < 2 ^ 63
    → skip (pre ++ (encode x ++ s)) (length pre) ≡ ok (length pre + length (encode x))

module _ (skip : Bytes → ℕ → Outcome ℕ) (skips : Skips skip) where
  pub length-state : (p gap s : Bytes) → length (p ++ (gap ++ s)) ≡ length p + length gap + length s
  length-state p gap s = omega (arith, length-append p (gap ++ s), length-append gap s)

  skip-state :
      (x : Item) (p gap s : Bytes)
      → IsItem x
      → length p + length gap + length (encode x ++ s) < 2 ^ 63
      → skip (p ++ (gap ++ (encode x ++ s))) (length p + length gap)
        ≡ ok (length p + length gap + length (encode x))
  skip-state x p gap s h small =
      rw (append_assoc p gap (encode x ++ s), length-append p gap) at
        (skips x (p ++ gap) s h
          (omega (arith, length-append (p ++ gap) (encode x ++ s), length-append p gap, small)))

  put_tag-state :
      (p gap s : Bytes) (j : ℕ)
      → put_tag rfc8949 skip (state p (j ∷ gap) s) ≡ ok (state (p ++ (0xca ∷ [])) gap s)
  unfolding put_tag semantic
  put_tag-state p gap s j =
      let within : ltb (length p) (length (p ++ (j ∷ (gap ++ s)))) ≡ true =
        lt→ltb _ _ (omega (arith, length-append p (j ∷ (gap ++ s)))) in
      rw within (
        ap ok (
          same_state _ _ (set-append p (gap ++ s) j 0xca ∙ append_shift p (gap ++ s) 0xca)
            (omega (arith, length-append_one p 0xca)) (omega (arith, length-append_one p 0xca))))

  -- The byte where the value starts.
  get_elem?-state :
      (p gap b t s : Bytes) (c : ℕ)
      → b ≡ c ∷ t
      → get_elem? (p ++ (gap ++ (b ++ s))) (length p + length gap) ≡ some c
  get_elem?-state p gap b t s c e = rw e (
      rw (append_assoc p gap (c ∷ (t ++ s)), length-append p gap) at
        (get_elem?-append (p ++ gap) (t ++ s) c))

  -- The tag of a value: the gap is smaller by one where it was not there.
  record Tagged (x : Item) (p gap s : Bytes) : Type 0 where
    gap' : Bytes
    p' : Bytes
    runs :
        tagged rfc8949 skip
          (state p gap (encode x ++ s))
          (get_elem? (p ++ (gap ++ (encode x ++ s))) (length p + length gap))
        ≡ ok (state p' gap' (encode x ++ s))
    same_end : length p' + length gap' ≡ length p + length gap
    smaller : length gap ≤ length gap' + 1
    whole : p' ++ encode x ≡ p ++ encode (label x)

  tag_state : (x : Item) (p gap s : Bytes) → IsItem x → 0 < length gap → Tagged x p gap s
  unfolding tagged semantic
  tag_state x p [] s h one = absurd (omega (arith, one))
  tag_state x p (j ∷ gap) s h one =
      let (c, t, e, first) = encode-FirstByte x h in
      let at = get_elem?-state p (j ∷ gap) (encode x) t s c e in
      elim (Bool-cases (is_label x)) [
        | inl y ↦ record {
          gap' = j ∷ gap;
          p' = p;
          runs = rw (at, first, y) refl;
          same_end = refl;
          smaller = omega arith;
          whole = ap (λ s. p ++ s) (sym (rw y at (encode-label x)));
        }
        | inr n ↦ record {
          gap' = gap;
          p' = p ++ (0xca ∷ []);
          runs = rw (at, first, n) (put_tag-state p gap (encode x ++ s) j);
          same_end = omega (arith, length-append_one p 0xca);
          smaller = omega arith;
          whole =
              append_assoc p (0xca ∷ []) (encode x)
              ∙ ap (λ s. p ++ s) (sym (rw n at (encode-label x)));
        }
      ]

  -- One round: a key and a value.
  pub record Round (x y : Item) (p gap s : Bytes) (next : Labelling → LabelRun) : Type 0 where
    pub gap' : Bytes
    pub runs :
        moved_to
          (state p gap (encode x ++ (encode y ++ s)))
          (skip (p ++ (gap ++ (encode x ++ (encode y ++ s)))) (length p + length gap))
          (λ s'. tag_and_move rfc8949 skip s' (skip s'.buf s'.r) next)
        ≡ next (state (p ++ (encode x ++ encode (label y))) gap' s)
    pub smaller : length gap ≤ length gap' + 1
    pub same_size :
        length p + length gap + length (encode x ++ (encode y ++ s))
        ≡ length (p ++ (encode x ++ encode (label y))) + length gap' + length s

  value_moves :
      (y : Item) (p gap s : Bytes) (t : Tagged y p gap s) (next : Labelling → LabelRun)
      → IsItem y
      → length p + length gap + length (encode y ++ s) < 2 ^ 63
      → tag_and_move rfc8949 skip
          (state p gap (encode y ++ s))
          (skip (p ++ (gap ++ (encode y ++ s))) (length p + length gap))
          next
        ≡ next (state (t.p' ++ encode y) (gap_after t.gap' (encode y)) s)
  unfolding tag_and_move and_then
  value_moves y p gap s t next h small =
      rw
        (
          skip-state y p gap s h small,
          t.runs,
          move-state t.p' t.gap' (encode y) s (length p + length gap + length (encode y))
              (omega (arith, t.same_end)),
        )
        refl

  pub pair_moves :
      (x y : Item) (p gap s : Bytes) (next : Labelling → LabelRun)
      → IsItem x
      → IsItem y
      → 0 < length gap
      → length p + length gap + length (encode x ++ (encode y ++ s)) < 2 ^ 63
      → Round x y p gap s next
  unfolding moved_to and_then
  pair_moves x y p gap s next hx hy one small =
      let g = gap_after gap (encode x) in
      let g_length = length-gap_after gap (encode x) in
      let sizes : length (encode x ++ (encode y ++ s))
          ≡ length (encode x) + length (encode y) + length s =
        omega (arith, length-append (encode x) (encode y ++ s), length-append (encode y) s) in
      let px = length-append p (encode x) in
      let t = tag_state y (p ++ encode x) g s hy (omega (arith, g_length, one)) in
      let moved =
        value_moves y (p ++ encode x) g s t next hy
          (omega (arith, small, g_length, px, sizes, length-append (encode y) s)) in
      let out : t.p' ++ encode y ≡ p ++ (encode x ++ encode (label y)) =
        t.whole ∙ append_assoc p (encode x) (encode (label y)) in
      record {
        gap' = gap_after t.gap' (encode y);
        runs =
            rw
              (
                skip-state x p gap (encode y ++ s) hx small,
                move-state p gap (encode x) (encode y ++ s)
                    (length p + length gap + length (encode x)) refl,
                ← out,
              )
              moved;
        smaller = omega (arith, t.smaller, g_length, length-gap_after t.gap' (encode y));
        same_size = rw (← out) (
            omega (
              arith,
              sizes,
              length-append t.p' (encode y),
              t.same_end,
              g_length,
              px,
              length-gap_after t.gap' (encode y),
            ));
      }
