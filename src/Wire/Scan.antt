-- ===== src/Wire/Scan.antt =====
-- tlwire/reader.go: where an event of a buffer ends.
pub mod Grammar
pub mod View
pub mod Tags
pub mod Steps
pub mod Skip
pub mod Items
pub mod Events
pub mod Endless
use tlog.Base.{
  ℕ, zero, suc, ◌+◌, ◌-◌, ◌*◌, ◌≤◌, ◌⊎◌, inl, inr, bit_and, bit_or, Bool, true, false, ◌&&◌, ◌||◌,
  not,
}
use tlog.Base.{
  Option, none, some, List, [], ◌∷◌, ◌++◌, ltb, ◌==◌, if◌then◌else◌, length, get_elem?, take, drop,
}
use tlog.Base.Bits.{Bytes}
use tlog.Wire.{Consts}
use tlog.Wire.Int64.{ℤ, pos, negsuc, to_int64, add_int64}

-- `const (eUnexpectedEOF = -1 - iota; eBadFormat; eBadSpecial)`
abbrev pub e_unexpected_eof : ℤ
e_unexpected_eof = negsuc 0

abbrev pub e_bad_format : ℤ
e_bad_format = negsuc 1

abbrev pub e_bad_special : ℤ
e_bad_special = negsuc 2

-- The bytes of a length, the highest first, joined as `int64(b[i])<<8 | int64(b[i+1])` joins two.
unfoldable pub big_endian : ℕ → Bytes → ℕ
big_endian acc [] = acc
big_endian acc (x ∷ b) = big_endian (acc * 256 + x) b

-- `readTag` on a length of `n` bytes.
unfoldable pub read_length : ℕ → ℕ → Bytes → ℕ → ℕ × ℤ × ℤ
read_length n tag b i =
    if ltb (length b) (i + n)
    then (tag, pos 0, e_unexpected_eof)
    else (tag, to_int64 (big_endian 0 (take n (drop i b))), pos (i + n))

-- The end of `skip`: an index past the buffer asks for more.
unfoldable pub finish : Bytes → ℤ → ℤ
finish b (pos i) = if ltb (length b) i then e_unexpected_eof else pos i
finish b (negsuc e) = negsuc e

-- `i = d.skip(i); if i < 0 { return i }`, and what follows. `none` is a run that has not ended.
unfoldable pub proceed : Option ℤ → (ℕ → Option ℤ) → Option ℤ
proceed none next = none
proceed (some (pos i)) next = next i
proceed (some (negsuc e)) next = some (negsuc e)

-- `sub == -1` and `el < int(sub)`
unfoldable pub is_open : ℤ → Bool
is_open (pos n) = false
is_open (negsuc n) = n == 0

unfoldable pub below_sub : ℕ → ℤ → Bool
below_sub el (pos n) = ltb el n
below_sub el (negsuc n) = false

module _ (k : Consts) where
  -- `readTag`: the tag, the length or value `l`, and the index behind them or an error.
  unfoldable pub read_tag : Bytes → ℕ → ℕ × ℤ × ℤ
  read_tag b st = elim (get_elem? b st) [
    | none ↦ (0, pos 0, e_unexpected_eof)
    | some x ↦
        let tag = bit_and x k.tag_mask in
        let sub = bit_and x k.sub_mask in
        let i = st + 1 in
        if tag == k.tag_special
        then (tag, pos 0, pos i)
        else if ltb sub k.len_1
        then (tag, pos sub, pos i)
        else if sub == k.break_code
        then (tag, negsuc 0, pos i)
        else if sub == k.len_1
        then read_length 1 tag b i
        else if sub == k.len_2
        then read_length 2 tag b i
        else if sub == k.len_4
        then read_length 4 tag b i
        else if sub == k.len_8
        then read_length 8 tag b i
        else (tag, pos 0, e_bad_format)
  ]

  unfoldable pub is_break : Bytes → ℕ → Bool
  is_break b i = elim (get_elem? b i) [
    | none ↦ false
    | some x ↦ x == bit_or k.tag_special k.break_code
  ]

  -- The loop of `skip` over the elements of an array or a map, with `skip` for an element. It runs at
  -- most `rounds` rounds; where they do not do, the result is `none`.
  unfoldable pub skip_elements : ℕ → (ℕ → Option ℤ) → Bytes → Bool → ℤ → ℕ → ℕ → Option ℤ
  skip_elements zero skip b is_map sub el i = none
  skip_elements (suc rounds) skip b is_map sub el i =
      let onward = λ (i' : ℕ).
        proceed (skip i') (λ i''. skip_elements rounds skip b is_map sub (el + 1) i'') in
      if not (is_open sub || below_sub el sub)
      then some (finish b (pos i))
      else if i == length b
      then some e_unexpected_eof
      else if is_open sub && is_break b i
      then some (finish b (pos (i + 1)))
      else if is_map
      then proceed (skip i) onward
      else onward i

  -- The `Special` case of `skip`, for the low bits of its byte.
  unfoldable pub skip_special : Bytes → ℕ → ℕ → ℤ
  skip_special b sub i =
      if sub == k.special_false
        || sub == k.special_true
        || sub == k.special_nil
        || sub == k.special_undefined
        || sub == k.break_code
      then finish b (pos i)
      else if sub == k.float_8
      then finish b (pos (i + 1))
      else if sub == k.float_16
      then finish b (pos (i + 2))
      else if sub == k.float_32
      then finish b (pos (i + 4))
      else if sub == k.float_64
      then finish b (pos (i + 8))
      else e_bad_special

  unfoldable pub first_sub : Bytes → ℕ → ℕ
  first_sub b st = elim (get_elem? b st) [ none ↦ 0 | some x ↦ bit_and x k.sub_mask ]

  -- The `switch` of `skip` on what `readTag` returned.
  unfoldable pub skip_tagged : ℕ → (ℕ → Option ℤ) → Bytes → ℕ → ℕ × ℤ × ℤ → Option ℤ
  skip_tagged rounds skip b st (tag, sub, negsuc e) = some (negsuc e)
  skip_tagged rounds skip b st (tag, sub, pos i) =
      if tag == k.tag_int || tag == k.tag_neg
      then some (finish b (pos i))
      else if tag == k.tag_bytes || tag == k.tag_string
      then some (finish b (add_int64 i sub))
      else if tag == k.tag_array
      then skip_elements rounds skip b false sub 0 i
      else if tag == k.tag_map
      then skip_elements rounds skip b true sub 0 i
      else if tag == k.tag_semantic
      then skip i
      else if tag == k.tag_special
      then some (skip_special b (first_sub b st) i)
      else some (finish b (pos i))

  -- `skip` on fuel for the depth of the recursion and the rounds of its loops.
  unfoldable pub skip_within : ℕ → Bytes → ℕ → Option ℤ
  skip_within zero b st = none
  skip_within (suc fuel) b st = skip_tagged fuel (skip_within fuel b) b st (read_tag b st)

  unfoldable pub skip : Bytes → ℕ → Option ℤ
  skip b st = skip_within (suc (length b)) b st
