-- ===== src/Kvs/Labels/Labelled/Whole.antt =====
-- `AppendLabels` of wire.go as a whole.
use tlog.Base.{
  ℕ, zero, suc, ◌+◌, ◌/◌, ◌^◌, ◌≤◌, ◌<◌, ◌≡◌, refl, ap, ◌∙◌, arith, ltb, lt→ltb, le→leb, ltb-false,
}
use tlog.Base.{true, some, List, [], ◌++◌, append_assoc, append-nil}
use tlog.Base.{length, take, length-append, take-append, length-take}
use tlog.Base.Bits.{Bytes}
use tlog.Base.Outcome.{Outcome, ok}
use tlog.Wire.{rfc8949}
use tlog.Wire.Scan.Grammar.{
  Item, Pairs, end, pair, count_pairs, encode, encode_pairs, IsItem, ArePairs,
}
use tlog.Wire.Scan.Skip.{encode_nonempty}
use tlog.Wire.Scan.Items.{count_pairs-le}
use tlog.Kvs.{Any, Encoder, append_kvs}
use tlog.Kvs.Labels.{LabelRun, done, label_loop, cut_off, append_labels, tag_and_move, moved_to}
use tlog.Kvs.Labels.Moves.{state}
use tlog.Kvs.Labels.Labelled.{label, label_pairs}
use tlog.Kvs.Labels.Labelled.Loop.{Skips, pair_moves, length-state}

module _ (skip : Bytes → ℕ → Outcome ℕ) (skips : Skips skip) where
  label_loop-end :
      (fuel : ℕ) (p gap : Bytes)
      → label_loop rfc8949 skip (suc fuel) (state p gap []) ≡ done (p ++ (gap ++ [])) (length p)
  unfolding label_loop
  label_loop-end fuel p gap =
      rw
        (ltb-false (length p + length gap) (length (p ++ (gap ++ [])))
          (omega (arith, length-state skip skips p gap [])))
        refl

  label_loop-more :
      (fuel : ℕ) (x : Item) (p gap s : Bytes) (next : LabelRun)
      → IsItem x
      → moved_to
          (state p gap (encode x ++ s))
          (skip (p ++ (gap ++ (encode x ++ s))) (length p + length gap))
          (λ s'. tag_and_move rfc8949 skip s' (skip s'.buf s'.r) (label_loop rfc8949 skip fuel))
        ≡ next
      → label_loop rfc8949 skip (suc fuel) (state p gap (encode x ++ s)) ≡ next
  unfolding label_loop
  label_loop-more fuel x p gap s next h runs =
      let more : ltb (length p + length gap) (length (p ++ (gap ++ (encode x ++ s)))) ≡ true =
        lt→ltb _ _ (
          omega (
            arith,
            length-state skip skips p gap (encode x ++ s),
            length-append (encode x) s,
            encode_nonempty x h,
          )) in
      rw more runs

  label_loop-pairs :
      (ps : Pairs) (fuel : ℕ) (p gap : Bytes)
      → ArePairs ps
      → count_pairs ps ≤ length gap
      → count_pairs ps < fuel
      → length p + length gap + length (encode_pairs ps) < 2 ^ 63
      → (gap' : Bytes) × (label_loop rfc8949 skip fuel (state p gap (encode_pairs ps))
          ≡ done
              ((p ++ encode_pairs (label_pairs ps)) ++ gap')
              (length (p ++ encode_pairs (label_pairs ps))))
  unfolding label_pairs encode IsItem count_pairs
  label_loop-pairs ps zero p gap h room f small = absurd (omega arith)
  label_loop-pairs end (suc fuel) p gap h room f small =
      (gap ++ [], rw (append-nil p) (label_loop-end fuel p gap))
  label_loop-pairs (pair x y ps) (suc fuel) p gap h room f small =
      let r =
        pair_moves skip skips x y p gap (encode_pairs ps) (label_loop rfc8949 skip fuel) h.0 h.1
          (omega (arith, room)) small in
      let (gap', rest) =
        label_loop-pairs ps fuel (p ++ (encode x ++ encode (label y))) r.gap' h.2
          (omega (arith, room, r.smaller)) (omega (arith, f)) (omega (arith, small, r.same_size)) in
      let out : (p ++ (encode x ++ encode (label y))) ++ encode_pairs (label_pairs ps)
          ≡ p ++ (encode x ++ (encode (label y) ++ encode_pairs (label_pairs ps))) =
        append_assoc p (encode x ++ encode (label y)) (encode_pairs (label_pairs ps))
        ∙ ap (λ s. p ++ s)
            (append_assoc (encode x) (encode (label y)) (encode_pairs (label_pairs ps))) in
      (
        gap',
        label_loop-more fuel x p gap (encode y ++ encode_pairs ps) _ h.0
            (r.runs ∙ (rw out at rest)),
      )

  cut_off-done : (p gap : Bytes) → cut_off rfc8949 skip (done (p ++ gap) (length p)) ≡ some (ok p)
  unfolding cut_off
  cut_off-done p gap =
      rw
        (
          le→leb (length p) (length (p ++ gap)) (omega (arith, length-append p gap)),
          take-append p gap,
        )
        refl

  -- `AppendLabels` appends the pairs of `appendKVs` with the tag of a label on each value that has none, and
  -- leaves what the buffer held, where `appendKVs` appends whole pairs, no more of them than half of the
  -- arguments and one, the buffer stays below 2 ^ 63 bytes, and `low.Spaces` is long enough.
  pub append_labels-label_pairs :
      (e : Encoder) (spaces b : Bytes) (kvs : List Any) (ps : Pairs)
      → append_kvs rfc8949 e kvs ≡ encode_pairs ps
      → ArePairs ps
      → count_pairs ps ≤ length kvs / 2 + 1
      → length kvs / 2 + 1 ≤ length spaces
      → length b + (length kvs / 2 + 1) + length (encode_pairs ps) < 2 ^ 63
      → append_labels rfc8949 skip e spaces b kvs ≡ some (ok (b ++ encode_pairs (label_pairs ps)))
  unfolding append_labels
  append_labels-label_pairs e spaces b kvs ps same h room long small =
      let n = length kvs / 2 + 1 in
      let gap = take n spaces in
      let gap_length : length gap ≡ n = omega (arith, length-take n spaces, long) in
      let (gap', run) =
        label_loop-pairs ps (suc (length (b ++ (gap ++ encode_pairs ps)))) b gap h
          (omega (arith, gap_length, room))
          (omega (arith, count_pairs-le ps h, length-state skip skips b gap (encode_pairs ps)))
          (omega (arith, gap_length, small)) in
      rw
        (
          same,
          ltb-false (length spaces) n long,
          append_assoc b gap (encode_pairs ps),
          length-append b gap,
          run,
        )
        (cut_off-done (b ++ encode_pairs (label_pairs ps)) gap')
