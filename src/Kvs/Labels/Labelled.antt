-- ===== src/Kvs/Labels/Labelled.antt =====
-- What `AppendLabels` of wire.go makes of the pairs of `appendKVs`.
pub mod Loop
pub mod Whole
use tlog.Base.{ℕ, suc, ◌+◌, ◌*◌, ◌<◌, ◌≡◌, refl, sym, ap, ◌∙◌, arith, ◌==◌, if◌then◌else◌}
use tlog.Base.{Bool, true, false, not, List, [], ◌∷◌, ◌++◌, length, Bool-cases, inl, inr}
use tlog.Base.Bits.{Bytes}
use tlog.Wire.Scan.Grammar.{
  Width, Literal, FloatSize, Item, number, text, array, open_array, map, open_map, labelled,
  literal, float, Pairs, end, pair, head, width_code, width_size, literal_code, float_code,
  to_bytes, count_items, count_pairs, encode, encode_pairs, Fits, IsItem, ArePairs,
}
use tlog.Kvs.{wire_label}

abbrev low_bits : Width → ℕ → ℕ
low_bits Width.direct n = n
low_bits w n = width_code w

-- An event that has the tag of a label, in the one byte that `AppendLabels` looks for.
unfoldable pub is_label : Item → Bool
is_label (labelled w n x) = low_bits w n == wire_label
is_label _ = false

-- A label as it is, and any other event under the tag.
unfoldable pub label : Item → Item
label x = if is_label x then x else labelled Width.direct wire_label x

unfoldable pub label_pairs : Pairs → Pairs
label_pairs end = end
label_pairs (pair x y ps) = pair x (label y) (label_pairs ps)

abbrev label_byte : ℕ
label_byte = 0xca

head-low_bits :
    (major : ℕ) (w : Width) (n : ℕ)
    → Fits w n
    → (t : Bytes) × (head major w n ≡ (major * 32 + low_bits w n) ∷ t) × (low_bits w n < 32)
unfolding head
head-low_bits major Width.direct n h = ([], refl, omega (arith, h))
head-low_bits major Width.one n h = (to_bytes 1 n, refl, omega arith)
head-low_bits major Width.two n h = (to_bytes 2 n, refl, omega arith)
head-low_bits major Width.four n h = (to_bytes 4 n, refl, omega arith)
head-low_bits major Width.eight n h = (to_bytes 8 n, refl, omega arith)

-- The first byte of an event tells whether it is a label.
abbrev pub FirstByte : Item → Type 0
FirstByte x = (c : ℕ) × (t : Bytes) × (encode x ≡ c ∷ t) × ((c == label_byte) ≡ is_label x)

head-FirstByte :
    (major : ℕ) (w : Width) (n : ℕ) (s : Bytes)
    → Fits w n
    → (major == 6) ≡ false
    → (c : ℕ) × (t : Bytes) × (head major w n ++ s ≡ c ∷ t) × ((c == label_byte) ≡ false)
head-FirstByte major w n s h m =
    let (t, e, small) = head-low_bits major w n h in
    (major * 32 + low_bits w n, t ++ s, ap (λ x. x ++ s) e, ground (arith, small, m))

pub encode-FirstByte : (x : Item) → IsItem x → FirstByte x
unfolding encode IsItem is_label
encode-FirstByte (number true w n) h =
    let (t, e, small) = head-low_bits 1 w n h in (32 + low_bits w n, t, e, ground (arith, small))
encode-FirstByte (number false w n) h =
    let (t, e, small) = head-low_bits 0 w n h in
    (0 * 32 + low_bits w n, t, e, ground (arith, small))
encode-FirstByte (text true w s) h = head-FirstByte 3 w (length s) s h refl
encode-FirstByte (text false w s) h = head-FirstByte 2 w (length s) s h refl
encode-FirstByte (array w xs) h = head-FirstByte 4 w (count_items xs) _ h.0 refl
encode-FirstByte (open_array xs) h = (0x9f, _, refl, refl)
encode-FirstByte (map w xs) h = head-FirstByte 5 w (count_pairs xs) _ h.0 refl
encode-FirstByte (open_map xs) h = (0xbf, _, refl, refl)
encode-FirstByte (labelled w n x) h =
    let (t, e, small) = head-low_bits 6 w n h.0 in
    (192 + low_bits w n, t ++ encode x, ap (λ s. s ++ encode x) e, ground (arith, small))
encode-FirstByte (literal Literal.lit_false) h = (0xf4, [], refl, refl)
encode-FirstByte (literal Literal.lit_true) h = (0xf5, [], refl, refl)
encode-FirstByte (literal Literal.lit_nil) h = (0xf6, [], refl, refl)
encode-FirstByte (literal Literal.lit_undefined) h = (0xf7, [], refl, refl)
encode-FirstByte (float FloatSize.f8 s) h = (0xf8, s, refl, refl)
encode-FirstByte (float FloatSize.f16 s) h = (0xf9, s, refl, refl)
encode-FirstByte (float FloatSize.f32 s) h = (0xfa, s, refl, refl)
encode-FirstByte (float FloatSize.f64 s) h = (0xfb, s, refl, refl)

-- The bytes of an event under the tag.
pub encode-label :
    (x : Item) → encode (label x) ≡ (if is_label x then encode x else label_byte ∷ encode x)
unfolding label encode head
encode-label x = elim (Bool-cases (is_label x)) [ inl y ↦ rw y refl | inr n ↦ rw n refl ]
