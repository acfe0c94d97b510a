-- ===== src/Kvs/Labels/Moves.antt =====
-- The moves of `AppendLabels` of wire.go in a buffer of parts: what is done, a gap, and what is left.
use tlog.Base.{ℕ, ◌+◌, ◌-◌, ◌≡◌, refl, sym, ap, ◌∙◌, arith, ltb, ltb-false, min}
use tlog.Base.{false, ◌++◌, append_assoc}
use tlog.Base.{
  take-append-drop, length-take, length, take, drop, length-append, length-drop, drop-append,
  drop-drop, take-append, take-all,
}
use tlog.Base.Bits.{Bytes}
use tlog.Base.Outcome.{ok}
use tlog.Kvs.Labels.{copy_into, slice, Labelling, move}

-- The state with `done` behind it, a gap, and `left` to come.
abbrev pub state : Bytes → Bytes → Bytes → Labelling
state done gap left = record {
  buf = done ++ (gap ++ left);
  w = length done;
  r = length done + length gap;
}

pub same_state : (s t : Labelling) → s.buf ≡ t.buf → s.w ≡ t.w → s.r ≡ t.r → s ≡ t
same_state s t b w r = cc (b, w, r)

copy_into-append :
    (p m rest xs : Bytes)
    → length xs ≡ length m
    → copy_into (p ++ (m ++ rest)) (length p) xs ≡ p ++ (xs ++ rest)
unfolding copy_into
copy_into-append p m rest xs e =
    let size : length (p ++ (m ++ rest)) - length p ≡ length m + length rest =
      omega (arith, length-append p (m ++ rest), length-append m rest) in
    let n : min (length xs) (length m + length rest) ≡ length xs = omega (arith, e) in
    let behind : drop (length p + length xs) (p ++ (m ++ rest)) ≡ rest =
      sym (drop-drop (length p) (length xs) (p ++ (m ++ rest)))
      ∙ ap (drop (length xs)) (drop-append p (m ++ rest))
      ∙ ap (λ i. drop i (m ++ rest)) e
      ∙ drop-append m rest in
    rw (size, n, take-append p (m ++ rest), take-all xs (length xs) (omega arith), behind) refl

slice-append :
    (p gap xs rest : Bytes) (i end : ℕ)
    → i ≡ length p + length gap
    → end ≡ i + length xs
    → slice (p ++ (gap ++ (xs ++ rest))) i end ≡ xs
unfolding slice
slice-append p gap xs rest i end hi he =
    let size : end - i ≡ length xs = omega (arith, he) in
    let from : drop i (p ++ (gap ++ (xs ++ rest))) ≡ xs ++ rest =
      ap (λ j. drop j (p ++ (gap ++ (xs ++ rest)))) hi
      ∙ sym (drop-drop (length p) (length gap) (p ++ (gap ++ (xs ++ rest))))
      ∙ ap (drop (length gap)) (drop-append p (gap ++ (xs ++ rest)))
      ∙ drop-append gap (xs ++ rest) in
    rw (size, from) (take-append xs rest)

-- The gap behind a copy of `xs`: what was in the two, without as many bytes as were copied.
abbrev pub gap_after : Bytes → Bytes → Bytes
gap_after gap xs = drop (length xs) (gap ++ xs)

pub length-gap_after : (gap xs : Bytes) → length (gap_after gap xs) ≡ length gap
length-gap_after gap xs = omega (arith, length-drop (length xs) (gap ++ xs), length-append gap xs)

-- The bytes of the gap and of `xs`, cut where the copy ends.
gap_cut :
    (gap xs rest : Bytes)
    → gap ++ (xs ++ rest) ≡ take (length xs) (gap ++ xs) ++ (gap_after gap xs ++ rest)
gap_cut gap xs rest =
    sym (append_assoc gap xs rest)
    ∙ ap (λ t. t ++ rest) (sym (take-append-drop (length xs) (gap ++ xs)))
    ∙ append_assoc (take (length xs) (gap ++ xs)) (gap_after gap xs) rest

-- What is skipped is moved to the front of the gap.
pub move-state :
    (p gap xs rest : Bytes) (end : ℕ)
    → end ≡ length p + length gap + length xs
    → move (state p gap (xs ++ rest)) end ≡ ok (state (p ++ xs) (gap_after gap xs) rest)
unfolding move
move-state p gap xs rest end he =
    let part = take (length xs) (gap ++ xs) in
    let size : length (p ++ (gap ++ (xs ++ rest)))
        ≡ length p + length gap + length xs + length rest =
      omega (
        arith,
        length-append p (gap ++ (xs ++ rest)),
        length-append gap (xs ++ rest),
        length-append xs rest,
      ) in
    let within : ltb (length (p ++ (gap ++ (xs ++ rest)))) (length p) ≡ false =
      ltb-false _ _ (omega (arith, size)) in
    let count : min (length xs) (length (p ++ (gap ++ (xs ++ rest))) - length p) ≡ length xs =
      omega (arith, size) in
    let sliced = slice-append p gap xs rest (length p + length gap) end refl he in
    let part_length : length xs ≡ length part =
      omega (arith, length-take (length xs) (gap ++ xs), length-append gap xs) in
    let copied : copy_into (p ++ (gap ++ (xs ++ rest))) (length p) xs
        ≡ (p ++ xs) ++ (gap_after gap xs ++ rest) =
      ap (λ t. copy_into (p ++ t) (length p) xs) (gap_cut gap xs rest)
      ∙ copy_into-append p part (gap_after gap xs ++ rest) xs part_length
      ∙ sym (append_assoc p xs (gap_after gap xs ++ rest)) in
    rw (within, sliced, count)
      (ap ok (
        same_state _ _ copied (sym (length-append p xs))
          (omega (arith, he, length-append p xs, length-gap_after gap xs))))
