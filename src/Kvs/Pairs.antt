-- ===== src/Kvs/Pairs.antt =====
-- Bytes that are events and pairs of a key and a value, and the arguments of `appendKVs` in wire.go.
use tlog.Base.{ℕ, ◌≡◌, refl, sym, ap, ap₂, ◌∙◌, false, true}
use tlog.Base.{List, [], ◌∷◌, ◌++◌, append_assoc, append-nil}
use tlog.Base.Bits.{Bytes}
use tlog.Wire.Int64.{ℤ}
use tlog.Wire.Scan.Grammar.{
  Width, Item, Pairs, end, pair, head, encode, encode_pairs, Fits, IsItem, ArePairs,
}
use tlog.Kvs.{
  Any, str, raw_message, modify, format_next, ident, log_level, event_kind, tag, tags, appender,
  Encoder, At, key, value, formatted,
}

-- The bytes of one event, and of pairs.
pub record Event (b : Bytes) : Type 0 where
  pub item : Item
  pub is_item : IsItem item
  pub bytes_are : b ≡ encode item

pub record PairBytes (b : Bytes) : Type 0 where
  pub pairs : Pairs
  pub are_pairs : ArePairs pairs
  pub bytes_are : b ≡ encode_pairs pairs

-- The head of a semantic tag, as the values of `Modify` are.
abbrev pub IsPrefix : Bytes → Type 0
IsPrefix m = (w : Width) × (n : ℕ) × Fits w n × (m ≡ head 6 w n)

abbrev pub Never : Type 0
Never = true ≡ false

-- What `AppendValue` encodes as one event: not an empty `Tags`, for which it appends nothing.
abbrev pub IsValue : Any → Type 0
IsValue (tags []) = Never
IsValue (appender b) = Event b
IsValue _ = Unit

-- What the encoders promise.
pub record Encodes (e : Encoder) : Type 0 where
  pub string_event : (s : Bytes) → Event (e.append_string s)
  pub bytes_event : (s : Bytes) → Event (e.append_bytes s)
  pub int_event : (v : ℤ) → Event (e.append_int v)
  pub value_event : (a : Any) → IsValue a → Event (e.append_value a)
  pub format_event : (f : Bytes) (a : Any) → Event (e.append_formatf f a)

-- The arguments, from a place of the loop on: what stands for a value is one event, a `Modify` is the head of
-- a tag, and what stands for a key and is a `TlogAppender` appends whole pairs.
abbrev pub WholeValue : Any → (At → Type 0) → Type 0
WholeValue (raw_message r) next = Event r × next key
WholeValue (modify m) next = IsPrefix m × next value
WholeValue (format_next f) next = next (formatted f)
WholeValue a next = IsValue a × next key

abbrev pub WholeKey : Any → (At → Type 0) → Type 0
WholeKey (str s) next = next value
WholeKey (raw_message r) next = PairBytes r × next key
WholeKey (appender b) next = PairBytes b × next key
WholeKey (ident id) next = Never
WholeKey (log_level l) next = Never
WholeKey (event_kind r) next = Never
WholeKey (tag t) next = Never
WholeKey (tags ts) next = Never
WholeKey a next = WholeValue a next

abbrev pub Whole : At → List Any → Type 0
Whole at [] = Unit
Whole key (a ∷ rest) = WholeKey a (λ at. Whole at rest)
Whole value (a ∷ rest) = WholeValue a (λ at. Whole at rest)
Whole (formatted f) (a ∷ rest) = Whole key rest

-- The bytes from a place on: pairs, or the value of a pair and more pairs.
record ValueBytes (b : Bytes) : Type 0 where
  first : Item
  first_item : IsItem first
  pairs : Pairs
  are_pairs : ArePairs pairs
  bytes_are : b ≡ encode first ++ encode_pairs pairs

value_then : {a b : Bytes} → Event a → PairBytes b → ValueBytes (a ++ b)
value_then v p = record {
  first = v.item;
  first_item = v.is_item;
  pairs = p.pairs;
  are_pairs = p.are_pairs;
  bytes_are = ap₂ (λ s t. s ++ t) v.bytes_are p.bytes_are;
}

key_then : {a b : Bytes} → Event a → ValueBytes b → PairBytes (a ++ b)
unfolding encode IsItem
key_then k v = record {
  pairs = pair k.item v.first v.pairs;
  are_pairs = (k.is_item, v.first_item, v.are_pairs);
  bytes_are = ap₂ (λ s t. s ++ t) k.bytes_are v.bytes_are;
}

unfoldable pub pairs_join : Pairs → Pairs → Pairs
pairs_join end qs = qs
pairs_join (pair x y ps) qs = pair x y (pairs_join ps qs)

pub pairs_join-ArePairs : (ps qs : Pairs) → ArePairs ps → ArePairs qs → ArePairs (pairs_join ps qs)
unfolding pairs_join IsItem
pairs_join-ArePairs end qs h g = g
pairs_join-ArePairs (pair x y ps) qs h g = (h.0, h.1, pairs_join-ArePairs ps qs h.2 g)

pub encode_pairs-pairs_join :
    (ps qs : Pairs) → encode_pairs (pairs_join ps qs) ≡ encode_pairs ps ++ encode_pairs qs
unfolding pairs_join encode
encode_pairs-pairs_join end qs = refl
encode_pairs-pairs_join (pair x y ps) qs =
    ap (λ t. encode x ++ (encode y ++ t)) (encode_pairs-pairs_join ps qs)
    ∙ ap (λ t. encode x ++ t) (sym (append_assoc (encode y) (encode_pairs ps) (encode_pairs qs)))
    ∙ sym (append_assoc (encode x) (encode y ++ encode_pairs ps) (encode_pairs qs))

pub pairs_then : {a b : Bytes} → PairBytes a → PairBytes b → PairBytes (a ++ b)
pairs_then p q = record {
  pairs = pairs_join p.pairs q.pairs;
  are_pairs = pairs_join-ArePairs p.pairs q.pairs p.are_pairs q.are_pairs;
  bytes_are =
      ap₂ (λ s t. s ++ t) p.bytes_are q.bytes_are ∙ sym (encode_pairs-pairs_join p.pairs q.pairs);
}

pub no_pairs : PairBytes []
unfolding encode IsItem
no_pairs = record { pairs = end; are_pairs = tt; bytes_are = refl }

-- One pair.
pub one_pair : {a b : Bytes} → Event a → Event b → PairBytes (a ++ b)
one_pair {a} {b} x y = rw (append-nil b) at (key_then x (value_then y no_pairs))
