-- ===== src/Kvs/Labels.antt =====
-- `AppendLabels` of wire.go, which makes labels of the values in place.
pub mod Moves
pub mod Labelled
use tlog.Base.{
  ℕ, zero, suc, ◌+◌, ◌-◌, ◌/◌, ◌==◌, ltb, leb, min, if◌then◌else◌, Bool, true, false, not,
}
use tlog.Base.{Option, none, some, List, [], ◌∷◌, ◌++◌, length, get_elem?, set, take, drop}
use tlog.Base.Bits.{Bytes}
use tlog.Base.Outcome.{Outcome, ok, panic}
use tlog.Wire.{Consts}
use tlog.Kvs.{Any, Encoder, semantic, append_kvs, wire_label}

-- `copy(b[w:], xs)`
unfoldable pub copy_into : Bytes → ℕ → Bytes → Bytes
copy_into b w xs =
    let n = min (length xs) (length b - w) in take w b ++ (take n xs ++ drop (w + n) b)

-- `b[st:end]`
unfoldable pub slice : Bytes → ℕ → ℕ → Bytes
slice b st end = take (end - st) (drop st b)

-- A run of the loop: the buffer and `w`; `endless` has no counterpart in the code.
pub data LabelRun : Type 0 where
  done : Bytes → ℕ → LabelRun
  panicked : LabelRun
  endless : LabelRun

-- The state of the loop: the buffer, `w` and `r`.
pub record Labelling : Type 0 where
  pub buf : Bytes
  pub w : ℕ
  pub r : ℕ

-- `w += copy(b[w:], b[r:end]); r = end`; the slice `b[w:]` panics past the end of the buffer.
unfoldable pub move : Labelling → ℕ → Outcome Labelling
move s end =
    let xs = slice s.buf s.r end in
    if ltb (length s.buf) s.w
    then panic
    else ok (record {
      buf = copy_into s.buf s.w xs;
      w = s.w + min (length xs) (length s.buf - s.w);
      r = end;
    })

unfoldable pub and_then : Outcome Labelling → (Labelling → LabelRun) → LabelRun
and_then panic next = panicked
and_then (ok s) next = next s

-- `end := d.Skip(b, r)`, and the copy of what was skipped.
unfoldable pub moved_to : Labelling → Outcome ℕ → (Labelling → LabelRun) → LabelRun
moved_to s panic next = panicked
moved_to s (ok end) next = and_then (move s end) next

-- `d.Skip` of nikand.dev/go/cbor is a parameter; what it returns is not past the end of the buffer.
module _ (k : Consts) (skip : Bytes → ℕ → Outcome ℕ) where
  -- `if b[r] != byte(tag) { b[w] = byte(tag); w++ }`
  unfoldable pub put_tag : Labelling → Outcome Labelling
  put_tag s =
      if ltb s.w (length s.buf)
      then ok (record s { buf = set s.buf s.w (semantic k wire_label); w = s.w + 1 })
      else panic

  unfoldable pub tagged : Labelling → Option ℕ → Outcome Labelling
  tagged s none = panic
  tagged s (some x) = if not (x == semantic k wire_label) then put_tag s else ok s

  -- The value: its end, its tag and its copy.
  unfoldable pub tag_and_move : Labelling → Outcome ℕ → (Labelling → LabelRun) → LabelRun
  tag_and_move s panic next = panicked
  tag_and_move s (ok end) next =
      and_then (tagged s (get_elem? s.buf s.r)) (λ s'. and_then (move s' end) next)

  -- The loop, on fuel for its rounds.
  unfoldable pub label_loop : ℕ → Labelling → LabelRun
  label_loop zero s = endless
  label_loop (suc fuel) s =
      let round =
        moved_to s (skip s.buf s.r)
          (λ s'. tag_and_move s' (skip s'.buf s'.r) (λ s''. label_loop fuel s'')) in
      if ltb s.r (length s.buf) then round else done s.buf s.w

  -- `b[:w]`
  unfoldable pub cut_off : LabelRun → Option (Outcome Bytes)
  cut_off endless = none
  cut_off panicked = some panic
  cut_off (done b w) = if leb w (length b) then some (ok (take w b)) else some panic

  -- `AppendLabels`; `spaces` is `low.Spaces`, which is to be long enough.
  unfoldable pub append_labels : Encoder → Bytes → Bytes → List Any → Option (Outcome Bytes)
  append_labels e spaces b kvs =
      let n = length kvs / 2 + 1 in
      let gap = b ++ take n spaces in
      let whole = gap ++ append_kvs k e kvs in
      if ltb (length spaces) n
      then some panic
      else cut_off
          (label_loop (suc (length whole)) (record { buf = whole; w = length b; r = length gap }))
