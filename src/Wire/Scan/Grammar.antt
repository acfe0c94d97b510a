-- ===== src/Wire/Scan/Grammar.antt =====
-- The events of the wire format as trees, and their bytes: what `skip` of tlwire/reader.go is to
-- measure, described with no reading in it. A length may take more bytes than it needs.
use tlog.Base.{ℕ, zero, suc, ◌+◌, ◌*◌, ◌/◌, ◌%◌, ◌^◌, ◌<◌, ◌≡◌, refl, ◌∙◌, arith}
use tlog.Base.{Bool, [], ◌∷◌, ◌++◌, if◌then◌else◌, length, length-append}
use tlog.Base.Bits.{Bytes}
use tlog.Wire.Scan.{big_endian}
use native.Mathlib.Nat.{pow-suc}

-- How many bytes a length or a value takes: none of its own, 1, 2, 4 or 8.
pub data Width : Type 0 where
  direct one two four eight : Width

-- The simple values that stand for themselves, and the sizes of a float. A break is no event.
pub data Literal : Type 0 where
  lit_false lit_true lit_nil lit_undefined : Literal

pub data FloatSize : Type 0 where
  f8 f16 f32 f64 : FloatSize

mutual
  pub data Item : Type 0 where
    number : Bool → Width → ℕ → Item
    text : Bool → Width → Bytes → Item
    array : Width → Items → Item
    open_array : Items → Item
    map : Width → Pairs → Item
    open_map : Pairs → Item
    labelled : Width → ℕ → Item → Item
    literal : Literal → Item
    float : FloatSize → Bytes → Item

  pub data Items : Type 0 where
    nil : Items
    cons : Item → Items → Items

  pub data Pairs : Type 0 where
    end : Pairs
    pair : Item → Item → Pairs → Pairs

-- The lowest `w` bytes of a number, the highest byte first.
unfoldable pub to_bytes : ℕ → ℕ → Bytes
to_bytes zero n = []
to_bytes (suc w) n = to_bytes w (n / 256) ++ (n % 256 ∷ [])

abbrev pub width_size : Width → ℕ
width_size Width.direct = 0
width_size Width.one = 1
width_size Width.two = 2
width_size Width.four = 4
width_size Width.eight = 8

abbrev pub width_code : Width → ℕ
width_code Width.direct = 0
width_code Width.one = 24
width_code Width.two = 25
width_code Width.four = 26
width_code Width.eight = 27

-- The byte of the major type and the bytes of the number behind it.
unfoldable pub head : ℕ → Width → ℕ → Bytes
head major Width.direct n = (major * 32 + n) ∷ []
head major w n = (major * 32 + width_code w) ∷ to_bytes (width_size w) n

abbrev pub literal_code : Literal → ℕ
literal_code Literal.lit_false = 20
literal_code Literal.lit_true = 21
literal_code Literal.lit_nil = 22
literal_code Literal.lit_undefined = 23

abbrev pub float_code : FloatSize → ℕ
float_code FloatSize.f8 = 24
float_code FloatSize.f16 = 25
float_code FloatSize.f32 = 26
float_code FloatSize.f64 = 27

abbrev pub float_size : FloatSize → ℕ
float_size FloatSize.f8 = 1
float_size FloatSize.f16 = 2
float_size FloatSize.f32 = 4
float_size FloatSize.f64 = 8

unfoldable pub count_items : Items → ℕ
count_items nil = 0
count_items (cons x xs) = suc (count_items xs)

unfoldable pub count_pairs : Pairs → ℕ
count_pairs end = 0
count_pairs (pair x y xs) = suc (count_pairs xs)

abbrev pub break_byte : ℕ
break_byte = 0xff

unfoldable mutual
  unfolding head count_items count_pairs

  pub encode : Item → Bytes
  encode (number neg w n) = head (if neg then 1 else 0) w n
  encode (text is_string w s) = head (if is_string then 3 else 2) w (length s) ++ s
  encode (array w xs) = head 4 w (count_items xs) ++ encode_items xs
  encode (open_array xs) = 0x9f ∷ (encode_items xs ++ (break_byte ∷ []))
  encode (map w xs) = head 5 w (count_pairs xs) ++ encode_pairs xs
  encode (open_map xs) = 0xbf ∷ (encode_pairs xs ++ (break_byte ∷ []))
  encode (labelled w n x) = head 6 w n ++ encode x
  encode (literal l) = (7 * 32 + literal_code l) ∷ []
  encode (float w s) = (7 * 32 + float_code w) ∷ s

  pub encode_items : Items → Bytes
  encode_items nil = []
  encode_items (cons x xs) = encode x ++ encode_items xs

  pub encode_pairs : Pairs → Bytes
  encode_pairs end = []
  encode_pairs (pair x y xs) = encode x ++ (encode y ++ encode_pairs xs)

-- A number fits its width.
abbrev pub Fits : Width → ℕ → Type 0
Fits Width.direct n = n < 24
Fits Width.one n = n < 256
Fits Width.two n = n < 2 ^ 16
Fits Width.four n = n < 2 ^ 32
Fits Width.eight n = n < 2 ^ 64

unfoldable mutual
  pub IsItem : Item → Type 0
  IsItem (number neg w n) = Fits w n
  IsItem (text is_string w s) = Fits w (length s)
  IsItem (array w xs) = Fits w (count_items xs) × AreItems xs
  IsItem (open_array xs) = AreItems xs
  IsItem (map w xs) = Fits w (count_pairs xs) × ArePairs xs
  IsItem (open_map xs) = ArePairs xs
  IsItem (labelled w n x) = Fits w n × IsItem x
  IsItem (literal l) = Unit
  IsItem (float w s) = length s ≡ float_size w

  pub AreItems : Items → Type 0
  AreItems nil = Unit
  AreItems (cons x xs) = IsItem x × AreItems xs

  pub ArePairs : Pairs → Type 0
  ArePairs end = Unit
  ArePairs (pair x y xs) = IsItem x × IsItem y × ArePairs xs

-- Reading the bytes of a number back.
big_endian-append :
    (b : Bytes) (acc x : ℕ) → big_endian acc (b ++ (x ∷ [])) ≡ big_endian acc b * 256 + x
unfolding big_endian
big_endian-append [] acc x = refl
big_endian-append (y ∷ b) acc x = big_endian-append b (acc * 256 + y) x

pub big_endian-to_bytes : (w n : ℕ) → n < 256 ^ w → big_endian 0 (to_bytes w n) ≡ n
unfolding to_bytes
big_endian-to_bytes zero n h = unfold big_endian in omega arith
big_endian-to_bytes (suc w) n h =
    big_endian-append (to_bytes w (n / 256)) 0 (n % 256)
    ∙ omega (arith, big_endian-to_bytes w (n / 256) (omega (arith, pow-suc 256 w)))

pub length-to_bytes : (w n : ℕ) → length (to_bytes w n) ≡ w
unfolding to_bytes
length-to_bytes zero n = refl
length-to_bytes (suc w) n =
    length-append (to_bytes w (n / 256)) (n % 256 ∷ []) ∙ omega (arith, length-to_bytes w (n / 256))
