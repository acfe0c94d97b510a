-- ===== src/Kvs/Samples.antt =====
-- Encoders and a `Skip` for runs of wire.go and tlog.go.
use tlog.Base.{ℕ, ◌+◌, ◌≡◌, refl, ◌∙◌, arith, ltb, ltb→lt, if◌then◌else◌}
use tlog.Base.{Bool, true, false, Option, some, [], ◌∷◌, ◌++◌, append-nil, length}
use tlog.Base.{drop, drop-append, length-append, Bool-cases, inl, inr}
use tlog.Base.Bits.{Bytes}
use tlog.Base.Outcome.{Outcome, ok, panic}
use tlog.Wire.{rfc8949}
use tlog.Wire.Int64.{ℤ, pos, negsuc}
use tlog.Wire.Scan
use tlog.Wire.Scan.Events.{skip-encode}
use tlog.Wire.Scan.View.{View}
use tlog.Wire.Scan.Grammar.{Width, Literal, Item, number, text, literal, head, encode, IsItem}
use tlog.Kvs.{Encoder}
use tlog.Kvs.Pairs.{Encodes}
use tlog.Kvs.Labels.Labelled.Loop.{Skips}

-- An encoder for short texts and small numbers; all else is nil.
abbrev pub nil_item : Item
nil_item = literal Literal.lit_nil

abbrev pub short_text : Bool → Bytes → Item
short_text is_string s = if ltb (length s) 24 then text is_string Width.direct s else nil_item

abbrev pub small_number : ℤ → Item
small_number (pos n) = if ltb n 24 then number false Width.direct n else nil_item
small_number (negsuc n) = nil_item

abbrev pub small_encoder : Encoder
small_encoder = record {
  append_string = λ s. encode (short_text true s);
  append_bytes = λ s. encode (short_text false s);
  append_int = λ v. encode (small_number v);
  append_label = λ n. head 6 Width.direct (if ltb n 24 then n else 0);
  append_array = λ n. [];
  append_value = λ a. encode nil_item;
  append_formatf = λ f a. encode nil_item;
}

short_text-IsItem : (b : Bool) (s : Bytes) → IsItem (short_text b s)
unfolding IsItem
short_text-IsItem b s = elim (Bool-cases (ltb (length s) 24)) [
  | inl y ↦ rw y (ltb→lt (length s) 24 y)
  | inr n ↦ rw n tt
]

small_number-IsItem : (v : ℤ) → IsItem (small_number v)
unfolding IsItem
small_number-IsItem (negsuc n) = tt
small_number-IsItem (pos n) = elim (Bool-cases (ltb n 24)) [
  | inl y ↦ rw y (ltb→lt n 24 y)
  | inr m ↦ rw m tt
]

pub small_encoder-Encodes : Encodes small_encoder
unfolding IsItem
small_encoder-Encodes = record {
  string_event = λ s. record {
    item = short_text true s;
    is_item = short_text-IsItem true s;
    bytes_are = refl;
  };
  bytes_event = λ s. record {
    item = short_text false s;
    is_item = short_text-IsItem false s;
    bytes_are = refl;
  };
  int_event =
      λ v. record { item = small_number v; is_item = small_number-IsItem v; bytes_are = refl };
  value_event = λ a h. record { item = nil_item; is_item = tt; bytes_are = refl };
  format_event = λ f a. record { item = nil_item; is_item = tt; bytes_are = refl };
}

-- `skip` of tlwire as a `Skip`.
abbrev pub to_outcome : Option ℤ → Outcome ℕ
to_outcome (some (pos i)) = ok i
to_outcome _ = panic

abbrev pub scan_skip : Bytes → ℕ → Outcome ℕ
scan_skip b st = to_outcome (Scan.skip rfc8949 b st)

pub scan_skip-Skips : Skips scan_skip
scan_skip-Skips x pre s h small =
    let b = pre ++ (encode x ++ s) in
    let size : length b ≡ length pre + length (encode x) + length s =
      omega (arith, length-append pre (encode x ++ s), length-append (encode x) s) in
    let v : View b (length pre) (encode x ++ s) = record {
      rest = [];
      agrees = append-nil (drop (length pre) b) ∙ drop-append pre (encode x ++ s);
      within = omega (arith, size);
    } in
    rw (skip-encode rfc8949 x b s (length pre) refl h (omega (arith, size, small)) v)
      (ground (arith, size))

abbrev pub six_spaces : Bytes
six_spaces = b' ' ∷ b' ' ∷ b' ' ∷ b' ' ∷ b' ' ∷ b' ' ∷ []
