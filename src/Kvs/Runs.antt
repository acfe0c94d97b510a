-- ===== src/Kvs/Runs.antt =====
-- `appendKVs` and `AppendLabels` of wire.go on concrete arguments.
use tlog.Base.{◌≡◌, refl, arith}
use tlog.Base.{true, false, some, List, [], ◌∷◌, ◌++◌}
use tlog.Base.Bits.{Bytes}
use tlog.Base.Outcome.{ok}
use tlog.Verbosity.{same_text}
use tlog.Wire.{rfc8949}
use tlog.Wire.Int64.{pos, to_int64, add_int64}
use tlog.Wire.Scan
use tlog.Wire.Scan.Grammar.{
  Width, number, text, Pairs, end, pair, head, encode, encode_pairs, count_pairs, IsItem,
}
use tlog.Kvs.{
  Any, str, int, modify, tags, key, auto_or, auto_key, append_arg, append_other, append_key,
  append_from, append_kvs, missing_key, tlog_append, tags_append, semantic,
}
use tlog.Kvs.Samples.{small_encoder, small_encoder-Encodes, scan_skip, scan_skip-Skips, six_spaces}
use tlog.Kvs.Layout.{layout_at, append_kvs-layout_at}
use tlog.Wire.Scan.Grammar.{ArePairs}
use tlog.Kvs.Pairs.{Whole}
use tlog.Kvs.Labels.{
  copy_into, slice, move, and_then, moved_to, put_tag, tagged, tag_and_move, label_loop, cut_off,
  append_labels,
}
use tlog.Kvs.Labels.Labelled.{label_pairs}
use tlog.Kvs.Labels.Labelled.Whole.{append_labels-label_pairs}

-- "a", 1, "", a message
abbrev some_kvs : List Any
some_kvs = str (b'a' ∷ []) ∷ int (pos 1) ∷ str [] ∷ modify (0xcc ∷ []) ∷ str (b'm' ∷ []) ∷ []

some_kvs-Whole : Whole key some_kvs
unfolding head
some_kvs-Whole = (tt, ((Width.direct, 12, omega arith, refl), (tt, tt)))

append_kvs-layout_at_example :
    (append_kvs rfc8949 small_encoder some_kvs
      ≡ encode_pairs (layout_at small_encoder small_encoder-Encodes key some_kvs some_kvs-Whole))
    × ArePairs (layout_at small_encoder small_encoder-Encodes key some_kvs some_kvs-Whole)
append_kvs-layout_at_example =
    append_kvs-layout_at small_encoder small_encoder-Encodes some_kvs some_kvs-Whole

some_kvs_bytes :
    append_kvs rfc8949 small_encoder some_kvs
    ≡ 0x61 ∷ b'a' ∷ 1 ∷ 0x62 ∷ b'_' ∷ b'm' ∷ 0xcc ∷ 0x61 ∷ b'm' ∷ []
unfolding append_kvs append_from append_key append_arg auto_or auto_key semantic encode head
    same_text
some_kvs_bytes = refl

abbrev one_pair : Pairs
one_pair = pair (text true Width.direct (b'a' ∷ [])) (number false Width.direct 1) end

append_labels-label_pairs_example :
    append_labels rfc8949 scan_skip small_encoder six_spaces
      (9 ∷ [])
      (str (b'a' ∷ []) ∷ int (pos 1) ∷ [])
    ≡ some (ok (9 ∷ encode_pairs (label_pairs one_pair)))
append_labels-label_pairs_example =
    append_labels-label_pairs scan_skip scan_skip-Skips small_encoder six_spaces (9 ∷ [])
      (str (b'a' ∷ []) ∷ int (pos 1) ∷ []) one_pair
      (unfold append_kvs append_from append_key append_arg auto_or encode head in refl)
      (unfold IsItem in (omega arith, omega arith, tt)) (unfold count_pairs in omega arith)
      (omega arith) (unfold encode head in omega arith)

-- An empty `Tags` appends nothing, so that its key would have no value.
no_tags : tlog_append rfc8949 small_encoder (tags []) ≡ some []
unfolding tlog_append tags_append
no_tags = refl

abbrev labelled_key : Bytes
labelled_key = (0x6b ∷ missing_key) ++ (0xca ∷ [])

-- Three values with no key are three pairs, and the room is for two tags: the third value is lost under
-- its tag.
three_values :
    append_labels rfc8949 scan_skip small_encoder six_spaces []
      (int (pos 5) ∷ int (pos 6) ∷ int (pos 7) ∷ [])
    ≡ some (ok (labelled_key ++ (5 ∷ (labelled_key ++ (6 ∷ labelled_key)))))
unfolding append_labels label_loop moved_to tag_and_move tagged put_tag and_then move copy_into
    slice cut_off append_kvs append_from append_key append_other append_arg tlog_append auto_or
    encode head semantic
three_values =
    unfold Scan.skip Scan.skip_within Scan.skip_tagged Scan.skip_special Scan.first_sub
      Scan.skip_elements Scan.read_tag Scan.finish Scan.read_length to_int64 add_int64 in
    refl
