-- ===== src/Kvs/Layout.antt =====
-- `appendKVs` of wire.go appends pairs of a key and a value, whatever it is given, and which.
use tlog.Base.{◌≡◌, refl, sym, ap₂, ◌∙◌, List, [], ◌∷◌, ◌++◌, append_assoc}
use tlog.Base.Bits.{Bytes}
use tlog.Wire.{rfc8949}
use tlog.Wire.Scan.Grammar.{
  Literal, Item, labelled, literal, Pairs, end, pair, head, encode, encode_pairs, IsItem, ArePairs,
}
use tlog.Kvs.{
  Any, str, int, bytes, raw_message, modify, format_next, ident, log_level, event_kind, pc, pcs,
  tag, tags, appender, other, Encoder, missing_key, At, key, value, formatted, tlog_append, auto_or,
  auto_key, semantic, append_arg, append_other, append_key, append_from, append_kvs,
}
use tlog.Kvs.Pairs.{
  Event, PairBytes, IsPrefix, Encodes, WholeValue, WholeKey, Whole, pairs_join, pairs_join-ArePairs,
  encode_pairs-pairs_join,
}

-- From a place on: pairs, or the value of a pair and more pairs.
abbrev pub Rest : At → Type 0
Rest key = Pairs
Rest value = Item × Pairs
Rest (formatted f) = Item × Pairs

abbrev undefined_item : Item
undefined_item = literal Literal.lit_undefined

module _ (e : Encoder) (h : Encodes e) where
  -- An argument in the place of a value: a `Modify` is a tag on the value that follows, and a format takes the
  -- argument that follows.
  unfoldable pub as_value :
      (a : Any) (whole : At → Type 0)
      → ((at : At) → whole at → Rest at)
      → WholeValue a whole
      → Item × Pairs
  as_value (int v) whole next w = ((h.int_event v).item, next key w.1)
  as_value (str s) whole next w = ((h.string_event s).item, next key w.1)
  as_value (bytes s) whole next w = ((h.bytes_event s).item, next key w.1)
  as_value (raw_message r) whole next w = (w.0.item, next key w.1)
  as_value (modify m) whole next ((k, n, f, is), w) =
      let (y, ps) = next value w in (labelled k n y, ps)
  as_value (format_next f) whole next w = next (formatted f) w
  as_value (ident id) whole next w = ((h.value_event (ident id) w.0).item, next key w.1)
  as_value (log_level l) whole next w = ((h.value_event (log_level l) w.0).item, next key w.1)
  as_value (event_kind r) whole next w = ((h.value_event (event_kind r) w.0).item, next key w.1)
  as_value (pc p) whole next w = ((h.value_event (pc p) w.0).item, next key w.1)
  as_value (pcs p) whole next w = ((h.value_event (pcs p) w.0).item, next key w.1)
  as_value (tag t) whole next w = ((h.value_event (tag t) w.0).item, next key w.1)
  as_value (tags ts) whole next w = ((h.value_event (tags ts) w.0).item, next key w.1)
  as_value (appender b) whole next w = ((h.value_event (appender b) w.0).item, next key w.1)
  as_value (other n) whole next w = ((h.value_event (other n) w.0).item, next key w.1)

  -- An argument in the place of a key: a text is the key of the value that follows, one that appends itself is
  -- pairs, and any other is a value with the key for those that have none.
  unfoldable pub as_key :
      (a : Any) (rest : List Any) (whole : At → Type 0)
      → ((at : At) → whole at → Rest at)
      → WholeKey a whole
      → Pairs
  as_key (str []) rest whole next w =
      let (y, ps) = next value w in pair (h.string_event (auto_key (0xcc ∷ []) rest)).item y ps
  as_key (str (c ∷ s)) rest whole next w =
      let (y, ps) = next value w in pair (h.string_event (c ∷ s)).item y ps
  as_key (raw_message r) rest whole next w = pairs_join w.0.pairs (next key w.1)
  as_key (appender b) rest whole next w = pairs_join w.0.pairs (next key w.1)
  as_key (ident id) rest whole next w = end
  as_key (log_level l) rest whole next w = end
  as_key (event_kind r) rest whole next w = end
  as_key (tag t) rest whole next w = end
  as_key (tags ts) rest whole next w = end
  as_key (int v) rest whole next w =
      let (y, ps) = as_value (int v) whole next w in pair (h.string_event missing_key).item y ps
  as_key (bytes s) rest whole next w =
      let (y, ps) = as_value (bytes s) whole next w in pair (h.string_event missing_key).item y ps
  as_key (modify m) rest whole next w =
      let (y, ps) = as_value (modify m) whole next w in pair (h.string_event missing_key).item y ps
  as_key (format_next f) rest whole next w =
      let (y, ps) = as_value (format_next f) whole next w in
      pair (h.string_event missing_key).item y ps
  as_key (pc p) rest whole next w =
      let (y, ps) = as_value (pc p) whole next w in pair (h.string_event missing_key).item y ps
  as_key (pcs p) rest whole next w =
      let (y, ps) = as_value (pcs p) whole next w in pair (h.string_event missing_key).item y ps
  as_key (other n) rest whole next w =
      let (y, ps) = as_value (other n) whole next w in pair (h.string_event missing_key).item y ps

  -- The pairs of arguments: where the value is missing at the end, it is undefined.
  unfoldable pub layout_at : (at : At) (kvs : List Any) → Whole at kvs → Rest at
  layout_at key [] w = end
  layout_at value [] w = (undefined_item, end)
  layout_at (formatted f) [] w = (undefined_item, end)
  layout_at key (a ∷ rest) w = as_key a rest (λ at. Whole at rest) (λ at. layout_at at rest) w
  layout_at value (a ∷ rest) w = as_value a (λ at. Whole at rest) (λ at. layout_at at rest) w
  layout_at (formatted f) (a ∷ rest) w = ((h.format_event f a).item, layout_at key rest w)

-- Bytes that are these pairs, or this value and pairs.
abbrev Spells : (at : At) → Bytes → Rest at → Type 0
Spells key b ps = (b ≡ encode_pairs ps) × ArePairs ps
Spells value b (y, ps) = (b ≡ encode y ++ encode_pairs ps) × IsItem y × ArePairs ps
Spells (formatted f) b (y, ps) = (b ≡ encode y ++ encode_pairs ps) × IsItem y × ArePairs ps

value-Spells :
    {a b : Bytes} (ps : Pairs) (x : Event a) → Spells key b ps → Spells value (a ++ b) (x.item, ps)
value-Spells ps x (same, are) = (ap₂ (λ s t. s ++ t) x.bytes_are same, x.is_item, are)

key-Spells :
    {a b : Bytes} (r : Rest value) (x : Event a)
    → Spells value b r
    → Spells key (a ++ b) (pair x.item r.0 r.1)
unfolding encode IsItem
key-Spells r x (same, is, are) = (ap₂ (λ s t. s ++ t) x.bytes_are same, (x.is_item, is, are))

tag-Spells :
    {m b : Bytes} (r : Rest value) (p : IsPrefix m)
    → Spells value b r
    → Spells value (m ++ b) (labelled p.0 p.1 r.0, r.1)
unfolding encode IsItem
tag-Spells r (w, n, f, is) (same, y, are) = (
  ap₂ (λ s t. s ++ t) is same ∙ sym (append_assoc (head 6 w n) (encode r.0) (encode_pairs r.1)),
  (f, y),
  are,
)

join-Spells :
    {a b : Bytes} (qs : Pairs) (p : PairBytes a)
    → Spells key b qs
    → Spells key (a ++ b) (pairs_join p.pairs qs)
join-Spells qs p (same, are) = (
  ap₂ (λ s t. s ++ t) p.bytes_are same ∙ sym (encode_pairs-pairs_join p.pairs qs),
  pairs_join-ArePairs p.pairs qs p.are_pairs are,
)

undefined-Spells : Spells value (0xf7 ∷ []) (undefined_item, end)
unfolding encode IsItem
undefined-Spells = (refl, tt, tt)

module _ (e : Encoder) (h : Encodes e) where
  append_arg-Spells :
      (a : Any) (next : At → Bytes) (whole : At → Type 0) (rest : (at : At) → whole at → Rest at)
      → ((at : At) (w : whole at) → Spells at (next at) (rest at w))
      → (w : WholeValue a whole)
      → Spells value (append_arg rfc8949 e a next) (as_value e h a whole rest w)
  unfolding append_arg as_value
  append_arg-Spells (int v) next whole rest go w = value-Spells _ (h.int_event v) (go key w.1)
  append_arg-Spells (str s) next whole rest go w = value-Spells _ (h.string_event s) (go key w.1)
  append_arg-Spells (bytes s) next whole rest go w = value-Spells _ (h.bytes_event s) (go key w.1)
  append_arg-Spells (raw_message r) next whole rest go w = value-Spells _ w.0 (go key w.1)
  append_arg-Spells (modify m) next whole rest go w = tag-Spells _ w.0 (go value w.1)
  append_arg-Spells (format_next f) next whole rest go w = go (formatted f) w
  append_arg-Spells (ident id) next whole rest go w =
      value-Spells _ (h.value_event (ident id) w.0) (go key w.1)
  append_arg-Spells (log_level l) next whole rest go w =
      value-Spells _ (h.value_event (log_level l) w.0) (go key w.1)
  append_arg-Spells (event_kind r) next whole rest go w =
      value-Spells _ (h.value_event (event_kind r) w.0) (go key w.1)
  append_arg-Spells (pc p) next whole rest go w =
      value-Spells _ (h.value_event (pc p) w.0) (go key w.1)
  append_arg-Spells (pcs p) next whole rest go w =
      value-Spells _ (h.value_event (pcs p) w.0) (go key w.1)
  append_arg-Spells (tag t) next whole rest go w =
      value-Spells _ (h.value_event (tag t) w.0) (go key w.1)
  append_arg-Spells (tags ts) next whole rest go w =
      value-Spells _ (h.value_event (tags ts) w.0) (go key w.1)
  append_arg-Spells (appender b) next whole rest go w =
      value-Spells _ (h.value_event (appender b) w.0) (go key w.1)
  append_arg-Spells (other n) next whole rest go w =
      value-Spells _ (h.value_event (other n) w.0) (go key w.1)

  append_key-Spells :
      (a : Any) (args : List Any) (next : At → Bytes) (whole : At → Type 0)
      (rest : (at : At) → whole at → Rest at)
      → ((at : At) (w : whole at) → Spells at (next at) (rest at w))
      → (w : WholeKey a whole)
      → Spells key (append_key rfc8949 e a args next) (as_key e h a args whole rest w)
  unfolding append_key append_other tlog_append as_key auto_or semantic
  append_key-Spells (str []) args next whole rest go w =
      key-Spells _ (h.string_event _) (go value w)
  append_key-Spells (str (c ∷ s)) args next whole rest go w =
      key-Spells _ (h.string_event _) (go value w)
  append_key-Spells (raw_message r) args next whole rest go w = join-Spells _ w.0 (go key w.1)
  append_key-Spells (appender b) args next whole rest go w = join-Spells _ w.0 (go key w.1)
  append_key-Spells (ident id) args next whole rest go w = absurd (cc w)
  append_key-Spells (log_level l) args next whole rest go w = absurd (cc w)
  append_key-Spells (event_kind r) args next whole rest go w = absurd (cc w)
  append_key-Spells (tag t) args next whole rest go w = absurd (cc w)
  append_key-Spells (tags ts) args next whole rest go w = absurd (cc w)
  append_key-Spells (int v) args next whole rest go w =
      key-Spells _ (h.string_event missing_key) (append_arg-Spells (int v) next whole rest go w)
  append_key-Spells (bytes s) args next whole rest go w =
      key-Spells _ (h.string_event missing_key) (append_arg-Spells (bytes s) next whole rest go w)
  append_key-Spells (modify m) args next whole rest go w =
      key-Spells _ (h.string_event missing_key) (append_arg-Spells (modify m) next whole rest go w)
  append_key-Spells (format_next f) args next whole rest go w =
      key-Spells _ (h.string_event missing_key)
        (append_arg-Spells (format_next f) next whole rest go w)
  append_key-Spells (pc p) args next whole rest go w =
      key-Spells _ (h.string_event missing_key) (append_arg-Spells (pc p) next whole rest go w)
  append_key-Spells (pcs p) args next whole rest go w =
      key-Spells _ (h.string_event missing_key) (append_arg-Spells (pcs p) next whole rest go w)
  append_key-Spells (other n) args next whole rest go w =
      key-Spells _ (h.string_event missing_key) (append_arg-Spells (other n) next whole rest go w)

  append_from-Spells :
      (kvs : List Any) (at : At) (w : Whole at kvs)
      → Spells at (append_from rfc8949 e at kvs) (layout_at e h at kvs w)
  unfolding append_from layout_at
  append_from-Spells [] key w = unfold encode IsItem in (refl, tt)
  append_from-Spells [] value w = undefined-Spells
  append_from-Spells [] (formatted f) w = undefined-Spells
  append_from-Spells (a ∷ rest) key w =
      append_key-Spells a rest _ (λ at. Whole at rest) _ (append_from-Spells rest) w
  append_from-Spells (a ∷ rest) value w =
      append_arg-Spells a _ (λ at. Whole at rest) _ (append_from-Spells rest) w
  append_from-Spells (a ∷ rest) (formatted f) w =
      value-Spells _ (h.format_event f a) (append_from-Spells rest key w)

  -- `appendKVs` appends the pairs that the arguments stand for, each a key and a value that are one event: a text
  -- and the value that follows it, where an empty text is the key that `autoKey` gives, a value that has no key with MISSING_KEY, and undefined where a key, a `Modify`
  -- or a format is the last argument. What is given as a message is to be one event, a `Modify` the head of a tag, a
  -- `TlogAppender` in the place of a key pairs, and no value an empty `Tags`; no other type with a `TlogAppend` is
  -- in the place of a key; the encoders append one event each.
  pub append_kvs-layout_at :
      (kvs : List Any) (w : Whole key kvs)
      → (append_kvs rfc8949 e kvs ≡ encode_pairs (layout_at e h key kvs w))
        × ArePairs (layout_at e h key kvs w)
  unfolding append_kvs
  append_kvs-layout_at kvs w = append_from-Spells kvs key w

  pub append_kvs-PairBytes : (kvs : List Any) → Whole key kvs → PairBytes (append_kvs rfc8949 e kvs)
  append_kvs-PairBytes kvs w =
      let (same, are) = append_kvs-layout_at kvs w in
      record { pairs = layout_at e h key kvs w; are_pairs = are; bytes_are = same }
