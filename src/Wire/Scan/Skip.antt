-- ===== src/Wire/Scan/Skip.antt =====
-- `skip` of tlwire/reader.go on the events of the grammar.
use tlog.Base.{ℕ, suc, ◌+◌, ◌*◌, ◌^◌, ◌<◌, ◌≤◌, ◌≡◌, refl, ap, sym, ◌∙◌, arith, Bool, true, false}
use tlog.Base.{Option, some, ◌∷◌, ◌++◌, inl, inr, length, leb}
use tlog.Base.{if◌then◌else◌, Bool-cases, leb→le}
use tlog.Base.Bits.{Bytes, low_five}
use tlog.Wire.{rfc8949}
use tlog.Wire.Int64.{ℤ, pos, to_int64, add_int64}
use tlog.Wire.Scan.{skip_elements, skip_tagged, skip_within, skip_special, first_sub, finish}
use tlog.Wire.Scan.{read_tag, e_unexpected_eof}
use tlog.Wire.Scan.Grammar.{Width, Fits, head, Item, number, text, array, open_array, map}
use tlog.Wire.Scan.Grammar.{open_map, labelled, literal, float, Literal, FloatSize}
use tlog.Wire.Scan.Grammar.{literal_code, float_code, float_size, encode}
use tlog.Wire.Scan.Grammar.{count_items, count_pairs, IsItem}
use tlog.Wire.Scan.View.{View, View-head}
use tlog.Wire.Scan.Tags.{read_tag_special, read_tag-head, read_tag_cut, read_tag_end}
use tlog.Wire.Scan.Steps.{upto, finish-upto}

-- Every event begins with a byte that is no break.
head_starts :
    (major : ℕ) (w : Width) (n : ℕ)
    → major < 7
    → Fits w n
    → (x : ℕ) × (t : Bytes) × (head major w n ≡ x ∷ t) × (x < 0xff)
unfolding head
head_starts major Width.direct n hm f = (_, _, refl, omega arith)
head_starts major Width.one n hm f = (_, _, refl, omega arith)
head_starts major _ n hm f = (_, _, refl, omega arith)

starts_with :
    (a s : Bytes)
    → (x : ℕ) × (t : Bytes) × (a ≡ x ∷ t) × (x < 0xff)
    → (x : ℕ) × (t : Bytes) × (a ++ s ≡ x ∷ t) × (x < 0xff)
starts_with a s (x, t, e, h) = (x, t ++ s, ap (λ u. u ++ s) e, h)

pub encode_starts : (x : Item) → IsItem x → (y : ℕ) × (t : Bytes) × (encode x ≡ y ∷ t) × (y < 0xff)
unfolding encode IsItem
encode_starts (number true w n) h = head_starts 1 w n (omega arith) h
encode_starts (number false w n) h = head_starts 0 w n (omega arith) h
encode_starts (text true w s) h = starts_with _ s (head_starts 3 w (length s) (omega arith) h)
encode_starts (text false w s) h = starts_with _ s (head_starts 2 w (length s) (omega arith) h)
encode_starts (array w xs) h = starts_with _ _ (head_starts 4 w (count_items xs) (omega arith) h.0)
encode_starts (open_array xs) h = (_, _, refl, omega arith)
encode_starts (map w xs) h = starts_with _ _ (head_starts 5 w (count_pairs xs) (omega arith) h.0)
encode_starts (open_map xs) h = (_, _, refl, omega arith)
encode_starts (labelled w n x) h = starts_with _ _ (head_starts 6 w n (omega arith) h.0)
encode_starts (literal Literal.lit_false) h = (_, _, refl, omega arith)
encode_starts (literal Literal.lit_true) h = (_, _, refl, omega arith)
encode_starts (literal Literal.lit_nil) h = (_, _, refl, omega arith)
encode_starts (literal Literal.lit_undefined) h = (_, _, refl, omega arith)
encode_starts (float FloatSize.f8 s) h = (_, _, refl, omega arith)
encode_starts (float FloatSize.f16 s) h = (_, _, refl, omega arith)
encode_starts (float FloatSize.f32 s) h = (_, _, refl, omega arith)
encode_starts (float FloatSize.f64 s) h = (_, _, refl, omega arith)

pub encode_nonempty : (x : Item) → IsItem x → 0 < length (encode x)
encode_nonempty x h =
    let (y, t, e, _) = encode_starts x h in omega (arith, ap {B = ℕ} (λ u. length u) e)

skip_step :
    (fuel : ℕ) (b : Bytes) (i : ℕ)
    → skip_within rfc8949 (suc fuel) b i
      ≡ skip_tagged rfc8949 fuel (skip_within rfc8949 fuel b) b i (read_tag rfc8949 b i)
unfolding skip_within
skip_step fuel b i = refl

upto-upto : (b : Bytes) (i m n : ℕ) → i + m ≤ length b → upto b (i + m) n ≡ upto b i (m + n)
upto-upto b i m n h = ground arith

upto_cut : (b : Bytes) (i m n : ℕ) → length b < i + m → upto b i (m + n) ≡ e_unexpected_eof
upto_cut b i m n h = ground arith

pub skip_cut :
    (b : Bytes) (i fuel t : ℕ)
    → read_tag rfc8949 b i ≡ (t, pos 0, e_unexpected_eof)
    → skip_within rfc8949 (suc fuel) b i ≡ some e_unexpected_eof
skip_cut b i fuel t e = rw (skip_step, e) (unfold skip_tagged in refl)

-- A head, and then what `skip` does with its tag and number.
pub head_then :
    (b s : Bytes) (i fuel major m : ℕ) (w : Width) (n : ℕ)
    → major < 7
    → Fits w n
    → View b i (head major w n ++ s)
    → (i + length (head major w n) ≤ length b
        → skip_tagged rfc8949 fuel
            (skip_within rfc8949 fuel b)
            b
            i
            (major * 32, to_int64 n, pos (i + length (head major w n)))
          ≡ some (upto b (i + length (head major w n)) m))
    → skip_within rfc8949 (suc fuel) b i ≡ some (upto b i (length (head major w n) + m))
head_then b s i fuel major m w n hm f v rest =
    elim (Bool-cases (leb (i + length (head major w n)) (length b))) [
      | inl whole ↦
          let fits : i + length (head major w n) ≤ length b = leb→le _ _ whole in
          rw (skip_step, read_tag-head b s i major w n hm f v fits, rest fits)
            (ap (λ z. some z) (upto-upto b i (length (head major w n)) m fits))
      | inr cut ↦
          let short : length b < i + length (head major w n) = ground arith in
          let (t, e) = read_tag_cut b s i major w n hm v short in
          skip_cut b i fuel t e
          ∙ ap (λ z. some z) (sym (upto_cut b i (length (head major w n)) m short))
    ]

-- The same for a single byte, given what `readTag` makes of it.
pub byte_then :
    (b : Bytes) (i fuel m t : ℕ) (sub : ℤ)
    → (i < length b → read_tag rfc8949 b i ≡ (t, sub, pos (i + 1)))
    → (i + 1 ≤ length b
        → skip_tagged rfc8949 fuel (skip_within rfc8949 fuel b) b i (t, sub, pos (i + 1))
          ≡ some (upto b (i + 1) m))
    → skip_within rfc8949 (suc fuel) b i ≡ some (upto b i (1 + m))
byte_then b i fuel m t sub e rest = elim (Bool-cases (leb (i + 1) (length b))) [
  | inl whole ↦
      let fits : i + 1 ≤ length b = leb→le _ _ whole in
      rw (skip_step, e (omega arith), rest fits) (ap (λ z. some z) (upto-upto b i 1 m fits))
  | inr cut ↦
      let short : length b < i + 1 = ground arith in
      skip_cut b i fuel 0 (read_tag_end b i (omega arith))
      ∙ ap (λ z. some z) (sym (upto_cut b i 1 m short))
]

pub to_int64-small : (n : ℕ) → n < 2 ^ 63 → to_int64 n ≡ pos n
unfolding to_int64
to_int64-small n h = ground arith

add_int64-small : (i n : ℕ) → i + n < 2 ^ 63 → add_int64 i (to_int64 n) ≡ pos (i + n)
unfolding add_int64
add_int64-small i n h = rw (to_int64-small n (omega arith), to_int64-small (i + n) h)

-- The cases of the `switch`.
module _ (fuel : ℕ) (sk : ℕ → Option ℤ) (b : Bytes) (st i : ℕ) (sub : ℤ) where
  tagged_number :
      (neg : Bool)
      → skip_tagged rfc8949 fuel sk b st ((if neg then 1 else 0) * 32, sub, pos i)
        ≡ some (finish b (pos i))
  unfolding skip_tagged
  tagged_number true = refl
  tagged_number false = refl

  tagged_text :
      (is_string : Bool)
      → skip_tagged rfc8949 fuel sk b st ((if is_string then 3 else 2) * 32, sub, pos i)
        ≡ some (finish b (add_int64 i sub))
  unfolding skip_tagged
  tagged_text true = refl
  tagged_text false = refl

  pub tagged_array :
      skip_tagged rfc8949 fuel sk b st (4 * 32, sub, pos i)
      ≡ skip_elements rfc8949 fuel sk b false sub 0 i
  unfolding skip_tagged
  tagged_array = refl

  pub tagged_map :
      skip_tagged rfc8949 fuel sk b st (5 * 32, sub, pos i)
      ≡ skip_elements rfc8949 fuel sk b true sub 0 i
  unfolding skip_tagged
  tagged_map = refl

  pub tagged_semantic : skip_tagged rfc8949 fuel sk b st (6 * 32, sub, pos i) ≡ sk i
  unfolding skip_tagged
  tagged_semantic = refl

  tagged_special :
      skip_tagged rfc8949 fuel sk b st (0xe0, sub, pos i)
      ≡ some (skip_special rfc8949 b (first_sub rfc8949 b st) i)
  unfolding skip_tagged
  tagged_special = refl

finish-here : (b : Bytes) (i : ℕ) → finish b (pos i) ≡ upto b i 0
unfolding finish
finish-here b i = ground arith

text_then :
    (fuel : ℕ) (sk : ℕ → Option ℤ) (b : Bytes) (st i n : ℕ) (is_string : Bool)
    → i + n < 2 ^ 63
    → skip_tagged rfc8949 fuel sk b st ((if is_string then 3 else 2) * 32, to_int64 n, pos i)
      ≡ some (upto b i n)
text_then fuel sk b st i n is_string h =
    rw (tagged_text, add_int64-small i n h) (ap (λ z. some z) (finish-upto b i n))

pub skip_text :
    (b t s : Bytes) (i fuel : ℕ) (is_string : Bool) (w : Width)
    → Fits w (length t)
    → i + (length (head (if is_string then 3 else 2) w (length t)) + length t) < 2 ^ 63
    → View b i (head (if is_string then 3 else 2) w (length t) ++ s)
    → skip_within rfc8949 (suc fuel) b i
      ≡ some (upto b i (length (head (if is_string then 3 else 2) w (length t)) + length t))
skip_text b t s i fuel true w f h v =
    head_then b s i fuel 3 (length t) w (length t) (omega arith) f v
      (λ fits. text_then fuel (skip_within rfc8949 fuel b) b i _ (length t) true (omega arith))
skip_text b t s i fuel false w f h v =
    head_then b s i fuel 2 (length t) w (length t) (omega arith) f v
      (λ fits. text_then fuel (skip_within rfc8949 fuel b) b i _ (length t) false (omega arith))

pub skip_number :
    (b s : Bytes) (i fuel : ℕ) (neg : Bool) (w : Width) (n : ℕ)
    → Fits w n
    → View b i (head (if neg then 1 else 0) w n ++ s)
    → skip_within rfc8949 (suc fuel) b i
      ≡ some (upto b i (length (head (if neg then 1 else 0) w n) + 0))
skip_number b s i fuel true w n f v =
    head_then b s i fuel 1 0 w n (omega arith) f v
      (λ fits. tagged_number fuel _ b i _ _ true ∙ ap (λ z. some z) (finish-here b _))
skip_number b s i fuel false w n f v =
    head_then b s i fuel 0 0 w n (omega arith) f v
      (λ fits. tagged_number fuel _ b i _ _ false ∙ ap (λ z. some z) (finish-here b _))

first_sub-byte :
    (b s : Bytes) (i c : ℕ)
    → c < 32
    → View b i ((7 * 32 + c) ∷ s)
    → i < length b
    → first_sub rfc8949 b i ≡ c
unfolding first_sub
first_sub-byte b s i c h v hi =
    ground (arith, View-head (7 * 32 + c) s v hi, low_five (7 * 32 + c) (omega arith))

pub special_literal :
    (b : Bytes) (i : ℕ) (l : Literal) → skip_special rfc8949 b (literal_code l) i ≡ upto b i 0
unfolding skip_special
special_literal b i Literal.lit_false = finish-here b i
special_literal b i _ = finish-here b i

pub special_float :
    (b : Bytes) (i : ℕ) (f : FloatSize)
    → skip_special rfc8949 b (float_code f) i ≡ upto b i (float_size f)
unfolding skip_special
special_float b i FloatSize.f8 = finish-upto b i 1
special_float b i FloatSize.f16 = finish-upto b i 2
special_float b i FloatSize.f32 = finish-upto b i 4
special_float b i FloatSize.f64 = finish-upto b i 8

pub skip_special_byte :
    (b s : Bytes) (i fuel c m : ℕ)
    → c < 32
    → View b i ((7 * 32 + c) ∷ s)
    → skip_special rfc8949 b c (i + 1) ≡ upto b (i + 1) m
    → skip_within rfc8949 (suc fuel) b i ≡ some (upto b i (1 + m))
skip_special_byte b s i fuel c m h v e =
    byte_then b i fuel m 0xe0 (pos 0) (λ hi. read_tag_special b s i c h v hi)
      (λ fits.
        tagged_special fuel _ b i (i + 1) (pos 0)
        ∙ rw (first_sub-byte b s i c h v (omega arith)) (ap (λ z. some z) e))
