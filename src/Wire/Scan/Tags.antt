-- ===== src/Wire/Scan/Tags.antt =====
-- `readTag` of tlwire/reader.go on the first bytes of an event, whole or cut by the end of the buffer.
use tlog.Base.{ℕ, ◌+◌, ◌*◌, ◌^◌, ◌<◌, ◌≤◌, ◌≡◌, ◌∙◌, arith}
use tlog.Base.{[], ◌∷◌, ◌++◌, inl, inr, bit_and, length, take, drop}
use tlog.Base.{ltb, ltb→lt, lt→ltb, ltb-false, Bool-cases, get_elem?-none}
use tlog.Base.Bits.{Bytes, high_three, low_five}
use tlog.Wire.{rfc8949}
use tlog.Wire.Int64.{pos, negsuc, to_int64}
use tlog.Wire.Scan.{read_tag, read_length, e_unexpected_eof}
use tlog.Wire.Scan.Grammar.{Width, width_size, width_code, Fits, head, to_bytes}
use tlog.Wire.Scan.Grammar.{big_endian-to_bytes, length-to_bytes}
use tlog.Wire.Scan.View.{View, View-take, View-drop, View-head}

module _ (b s : Bytes) (i : ℕ) where
  -- The two halves of the first byte.
  masks :
      (major c : ℕ)
      → major < 8
      → c < 32
      → (bit_and (major * 32 + c) 0xe0 ≡ major * 32) × (bit_and (major * 32 + c) 0x1f ≡ c)
  masks major c hm hc = (
    high_three (major * 32 + c) (omega arith) ∙ omega arith,
    low_five (major * 32 + c) (omega arith) ∙ omega arith,
  )

  read_tag_direct :
      (major n : ℕ)
      → major < 7
      → n < 24
      → View b i ((major * 32 + n) ∷ s)
      → i < length b
      → read_tag rfc8949 b i ≡ (major * 32, pos n, pos (i + 1))
  unfolding read_tag
  read_tag_direct major n hm hn v h =
      let (t, l) = masks major n (omega arith) (omega arith) in
      ground (arith, View-head (major * 32 + n) s v h, t, l)

  pub read_tag_special :
      (c : ℕ)
      → c < 32
      → View b i ((7 * 32 + c) ∷ s)
      → i < length b
      → read_tag rfc8949 b i ≡ (0xe0, pos 0, pos (i + 1))
  unfolding read_tag
  read_tag_special c hc v h =
      let (t, l) = masks 7 c (omega arith) hc in ground (arith, View-head (7 * 32 + c) s v h, t, l)

  pub read_tag_open :
      (major : ℕ)
      → major < 7
      → View b i ((major * 32 + 31) ∷ s)
      → i < length b
      → read_tag rfc8949 b i ≡ (major * 32, negsuc 0, pos (i + 1))
  unfolding read_tag
  read_tag_open major hm v h =
      let (t, l) = masks major 31 (omega arith) (omega arith) in
      ground (arith, View-head (major * 32 + 31) s v h, t, l)

  read_tag_sized :
      (major : ℕ) (w : Width)
      → major < 7
      → 0 < width_size w
      → View b i ((major * 32 + width_code w) ∷ s)
      → i < length b
      → read_tag rfc8949 b i ≡ read_length (width_size w) (major * 32) b (i + 1)
  unfolding read_tag
  read_tag_sized major Width.direct hm hw v h = absurd (omega arith)
  read_tag_sized major Width.one hm hw v h =
      let (t, l) = masks major 24 (omega arith) (omega arith) in
      ground (arith, View-head (major * 32 + 24) s v h, t, l)
  read_tag_sized major Width.two hm hw v h =
      let (t, l) = masks major 25 (omega arith) (omega arith) in
      ground (arith, View-head (major * 32 + 25) s v h, t, l)
  read_tag_sized major Width.four hm hw v h =
      let (t, l) = masks major 26 (omega arith) (omega arith) in
      ground (arith, View-head (major * 32 + 26) s v h, t, l)
  read_tag_sized major Width.eight hm hw v h =
      let (t, l) = masks major 27 (omega arith) (omega arith) in
      ground (arith, View-head (major * 32 + 27) s v h, t, l)

  read_length_whole :
      (w n tag : ℕ)
      → n < 256 ^ w
      → View b i (to_bytes w n ++ s)
      → i + w ≤ length b
      → read_length w tag b i ≡ (tag, to_int64 n, pos (i + w))
  unfolding read_length
  read_length_whole w n tag hn v h =
      let size : length (to_bytes w n) ≡ w = length-to_bytes w n in
      let taken : take w (drop i b) ≡ to_bytes w n =
        rw size at (View-take (to_bytes w n) s v (omega arith)) in
      rw (ltb-false (length b) (i + w) h, taken, big_endian-to_bytes w n hn)

read_length_cut :
    (b : Bytes) (i w tag : ℕ)
    → length b < i + w
    → read_length w tag b i ≡ (tag, pos 0, e_unexpected_eof)
unfolding read_length
read_length_cut b i w tag h = rw (lt→ltb (length b) (i + w) h)

Fits-pow : (w : Width) (n : ℕ) → Fits w n → 0 < width_size w → n < 256 ^ width_size w
Fits-pow Width.direct n f h = absurd (omega arith)
Fits-pow Width.one n f h = f
Fits-pow Width.two n f h = f
Fits-pow Width.four n f h = f
Fits-pow Width.eight n f h = f

pub length-head : (major : ℕ) (w : Width) (n : ℕ) → length (head major w n) ≡ 1 + width_size w
unfolding head
length-head major Width.direct n = omega arith
length-head major Width.one n = omega (arith, length-to_bytes 1 n)
length-head major Width.two n = omega (arith, length-to_bytes 2 n)
length-head major Width.four n = omega (arith, length-to_bytes 4 n)
length-head major Width.eight n = omega (arith, length-to_bytes 8 n)

module _ (b s : Bytes) (i : ℕ) where
  sized_whole :
      (major : ℕ) (w : Width) (n : ℕ)
      → major < 7
      → 0 < width_size w
      → Fits w n
      → View b i ((major * 32 + width_code w) ∷ (to_bytes (width_size w) n ++ s))
      → i + (1 + width_size w) ≤ length b
      → read_tag rfc8949 b i ≡ (major * 32, to_int64 n, pos (i + (1 + width_size w)))
  sized_whole major w n hm hw f v h =
      let e : i + 1 + width_size w ≡ i + (1 + width_size w) = omega arith in
      read_tag_sized b (to_bytes (width_size w) n ++ s) i major w hm hw v (omega arith)
      ∙ read_length_whole b s (i + 1) (width_size w) n (major * 32) (Fits-pow w n f hw)
          (View-drop ((major * 32 + width_code w) ∷ []) (to_bytes (width_size w) n ++ s) v
            (omega arith))
          (omega arith)
      ∙ rw e

  sized_cut :
      (major : ℕ) (w : Width) (n : ℕ)
      → major < 7
      → 0 < width_size w
      → View b i ((major * 32 + width_code w) ∷ (to_bytes (width_size w) n ++ s))
      → i < length b
      → length b < i + (1 + width_size w)
      → read_tag rfc8949 b i ≡ (major * 32, pos 0, e_unexpected_eof)
  sized_cut major w n hm hw v hi h =
      read_tag_sized b (to_bytes (width_size w) n ++ s) i major w hm hw v hi
      ∙ read_length_cut b (i + 1) (width_size w) (major * 32) (omega arith)

  -- A whole head: its tag, its number, and the index behind it.
  pub read_tag-head :
      (major : ℕ) (w : Width) (n : ℕ)
      → major < 7
      → Fits w n
      → View b i (head major w n ++ s)
      → i + length (head major w n) ≤ length b
      → read_tag rfc8949 b i ≡ (major * 32, to_int64 n, pos (i + length (head major w n)))
  unfolding head
  read_tag-head major Width.direct n hm f v h =
      let e : to_int64 n ≡ pos n = unfold to_int64 in ground arith in
      rw e (read_tag_direct b s i major n hm f v (omega arith))
  read_tag-head major Width.one n hm f v h =
      rw (length-to_bytes 1 n)
        (sized_whole major Width.one n hm (omega arith) f v (omega (arith, length-to_bytes 1 n)))
  read_tag-head major Width.two n hm f v h =
      rw (length-to_bytes 2 n)
        (sized_whole major Width.two n hm (omega arith) f v (omega (arith, length-to_bytes 2 n)))
  read_tag-head major Width.four n hm f v h =
      rw (length-to_bytes 4 n)
        (sized_whole major Width.four n hm (omega arith) f v (omega (arith, length-to_bytes 4 n)))
  read_tag-head major Width.eight n hm f v h =
      rw (length-to_bytes 8 n)
        (sized_whole major Width.eight n hm (omega arith) f v (omega (arith, length-to_bytes 8 n)))

  cut_inside :
      (major : ℕ) (w : Width) (n : ℕ)
      → major < 7
      → View b i (head major w n ++ s)
      → i < length b
      → length b < i + length (head major w n)
      → read_tag rfc8949 b i ≡ (major * 32, pos 0, e_unexpected_eof)
  unfolding head
  cut_inside major Width.direct n hm v hi h = absurd (omega arith)
  cut_inside major Width.one n hm v hi h =
      sized_cut major Width.one n hm (omega arith) v hi (omega (arith, length-to_bytes 1 n))
  cut_inside major Width.two n hm v hi h =
      sized_cut major Width.two n hm (omega arith) v hi (omega (arith, length-to_bytes 2 n))
  cut_inside major Width.four n hm v hi h =
      sized_cut major Width.four n hm (omega arith) v hi (omega (arith, length-to_bytes 4 n))
  cut_inside major Width.eight n hm v hi h =
      sized_cut major Width.eight n hm (omega arith) v hi (omega (arith, length-to_bytes 8 n))

pub read_tag_end :
    (b : Bytes) (i : ℕ) → length b ≤ i → read_tag rfc8949 b i ≡ (0, pos 0, e_unexpected_eof)
unfolding read_tag
read_tag_end b i h = ground (arith, get_elem?-none b i h)

-- A head that the buffer does not hold to its end, or at all, asks for more.
pub read_tag_cut :
    (b s : Bytes) (i major : ℕ) (w : Width) (n : ℕ)
    → major < 7
    → View b i (head major w n ++ s)
    → length b < i + length (head major w n)
    → (t : ℕ) × (read_tag rfc8949 b i ≡ (t, pos 0, e_unexpected_eof))
read_tag_cut b s i major w n hm v h = elim (Bool-cases (ltb i (length b))) [
  | inl more ↦ (major * 32, cut_inside b s i major w n hm v (ltb→lt i (length b) more) h)
  | inr end ↦ (0, read_tag_end b i (ground arith))
]
