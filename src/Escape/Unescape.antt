-- ===== src/Escape/Unescape.antt =====
-- The text that low/safeadd.go escapes can be read back.
use tlog.Base.{
  ℕ, zero, suc, ◌+◌, ◌-◌, ◌*◌, ◌/◌, ◌<◌, ◌≤◌, ◌≡◌, ◌≢◌, refl, subst, ◌∙◌, arith, bit_and, ◌==◌, ltb,
}
use tlog.Base.{if◌then◌else◌, Bool, true, false, Bool-cases, Option, none, some, ◌⊎◌, inl, inr}
use tlog.Base.{[], ◌∷◌, ◌++◌, length, take, drop, All, take-append-drop, length-drop, drop-append}
use tlog.Base.Bits.{Bytes, IsByte, low_four}
use tlog.Escape.{
  backslash, is_plain, plain_count, escape_letter, continues, char_width, hex_digit, decoded,
}
use tlog.Escape.{hard_way, lettered, escape_rest, escape_loop, append_safe_string}

-- Where a reader of escaped text stands.
pub data Reading : Type 0 where
  outside after_backslash after_x : Reading
  after_digit : ℕ → Reading

unfoldable pub letter_value : ℕ → ℕ
letter_value e =
    if e == b'n'
    then 10
    else if e == b't'
    then 9
    else if e == b'v'
    then 11
    else if e == b'r'
    then 13
    else if e == b'a'
    then 7
    else if e == b'b'
    then 8
    else if e == b'f'
    then 12
    else e

unfoldable pub hex_value : ℕ → ℕ
hex_value c = if ltb c b'a' then c - b'0' else c - b'a' + 10

-- The text read back.
unfoldable pub unescape : Reading → Bytes → Bytes
unescape st [] = []
unescape outside (c ∷ s) =
    let on = c ∷ unescape outside s in
    let in_escape = unescape after_backslash s in if c == backslash then in_escape else on
unescape after_backslash (c ∷ s) =
    let hex = unescape after_x s in
    let on = letter_value c ∷ unescape outside s in if c == b'x' then hex else on
unescape after_x (c ∷ s) = unescape (after_digit (hex_value c)) s
unescape (after_digit d) (c ∷ s) = (d * 16 + hex_value c) ∷ unescape outside s

-- Bytes that are no backslash are read as they are.
unescape-raw :
    (p t : Bytes) → All (λ x. x ≢ backslash) p → unescape outside (p ++ t) ≡ p ++ unescape outside t
unfolding unescape
unescape-raw [] t h = refl
unescape-raw (x ∷ p) t h = ground (arith, unescape-raw p t h.1, h.0)

plain_apart : (s : Bytes) → All (λ x. x ≢ backslash) (take (plain_count s) s)
unfolding plain_count is_plain
plain_apart [] = tt
plain_apart (c ∷ s) = elim (Bool-cases (is_plain c)) [
  | inl plain ↦ rw plain (λ e. ground (arith, plain, e), plain_apart s)
  | inr other ↦ rw other tt
]

letter-escape_letter : (c e : ℕ) → escape_letter c ≡ some e → (e ≢ b'x') × (letter_value e ≡ c)
unfolding escape_letter letter_value
letter-escape_letter c e h = ground (arith, h)

hex_value-hex_digit : (d : ℕ) → d < 16 → hex_value (hex_digit d) ≡ d
unfolding hex_value hex_digit
hex_value-hex_digit d h = ground arith

continues_high :
    (s : Bytes) (lo hi n : ℕ)
    → 0x80 ≤ lo
    → continues lo hi s n ≡ true
    → All (λ x. x ≢ backslash) (take (suc n) s)
unfolding continues
continues_high [] lo hi n h e = tt
continues_high (x ∷ s) lo hi zero h e = ((λ q. ground (arith, e, q)), tt)
continues_high (x ∷ s) lo hi (suc n) h e =
    ((λ q. ground (arith, e, q)), continues_high s 0x80 0xbf n (omega arith) (ground (arith, e)))

-- A character of width `w` takes a byte at least, and has no backslash in it.
record Raw (s : Bytes) (w : ℕ) : Type 0 where
  taken : 0 < w
  apart : All (λ x. x ≢ backslash) (take w s)

-- A step of the tests on the first byte.
one_byte :
    (t : Bool) (w : ℕ) (rest : Option ℕ)
    → (if t then some 1 else rest) ≡ some w
    → (1 ≡ w) ⊎ (rest ≡ some w)
one_byte true w rest e = inl (cc e)
one_byte false w rest e = inr e

no_byte : (t : Bool) (w : ℕ) (rest : Option ℕ) → (if t then none else rest) ≡ some w → rest ≡ some w
no_byte true w rest e = ground (arith, e)
no_byte false w rest e = e

some_bytes :
    (t u : Bool) (k w : ℕ) (rest : Option ℕ)
    → (if t then (if u then some k else none) else rest) ≡ some w
    → ((u ≡ true) × (k ≡ w)) ⊎ (rest ≡ some w)
some_bytes true true k w rest e = inl (refl, cc e)
some_bytes true false k w rest e = ground (arith, e)
some_bytes false u k w rest e = inr e

continues-Raw :
    (c w : ℕ) (s : Bytes) (lo hi n : ℕ)
    → c ≢ backslash
    → 0x80 ≤ lo
    → (continues lo hi s n ≡ true) × (suc (suc n) ≡ w)
    → Raw (c ∷ s) w
continues-Raw c w s lo hi n h low (e, same) =
    subst (Raw (c ∷ s)) same
      (record { taken = omega arith; apart = (h, continues_high s lo hi n low e) })

char_width-Raw : (c w : ℕ) (s : Bytes) → c ≢ backslash → char_width (c ∷ s) ≡ some w → Raw (c ∷ s) w
unfolding char_width
char_width-Raw c w s h e =
    let lo₃ : ℕ = if c == 0xe0 then 0xa0 else 0x80 in
    let hi₃ : ℕ = if c == 0xed then 0x9f else 0xbf in
    let lo₄ : ℕ = if c == 0xf0 then 0x90 else 0x80 in
    let hi₄ : ℕ = if c == 0xf4 then 0x8f else 0xbf in
    elim (one_byte (ltb c 0x80) w _ e) [
      | inl one ↦ subst (Raw (c ∷ s)) one (record { taken = omega arith; apart = (h, tt) })
      | inr e₁ ↦
          elim (some_bytes (ltb c 0xe0) (continues 0x80 0xbf s 0) 2 w _
            (no_byte (ltb c 0xc2) w _ e₁)) [
              | inl two ↦ continues-Raw c w s 0x80 0xbf 0 h (omega arith) two
              | inr e₂ ↦ elim (some_bytes (ltb c 0xf0) (continues lo₃ hi₃ s 1) 3 w _ e₂) [
                | inl three ↦ continues-Raw c w s lo₃ hi₃ 1 h (ground arith) three
                | inr e₃ ↦ elim (some_bytes (ltb c 0xf5) (continues lo₄ hi₄ s 2) 4 w none e₃) [
                  | inl four ↦ continues-Raw c w s lo₄ hi₄ 2 h (ground arith) four
                  | inr e₄ ↦ ground (arith, e₄)
                ]
              ]
            ]
    ]

-- What stands for the first byte, or the first character, is read back as it.
decoded-unescape :
    (c : ℕ) (s t : Bytes) (o : Option ℕ)
    → c < 256
    → c ≢ backslash
    → char_width (c ∷ s) ≡ o
    → (unescape outside ((decoded c s o).0 ++ t)
        ≡ take (decoded c s o).1 (c ∷ s) ++ unescape outside t)
      × (0 < (decoded c s o).1)
unfolding decoded unescape
decoded-unescape c s t none b h e =
    let high = hex_value-hex_digit (c / 16) (omega arith) in
    let low = hex_value-hex_digit (bit_and c 0xf) (omega (arith, low_four c b)) in
    let whole : c / 16 * 16 + bit_and c 0xf ≡ c = omega (arith, low_four c b) in
    (rw (high, low, whole) refl, omega arith)
decoded-unescape c s t (some w) b h e =
    let raw = char_width-Raw c w s h e in (unescape-raw (take w (c ∷ s)) t raw.apart, raw.taken)

lettered-unescape :
    (c : ℕ) (s t : Bytes) (o : Option ℕ)
    → c < 256
    → escape_letter c ≡ o
    → (unescape outside ((lettered c s o).0 ++ t)
        ≡ take (lettered c s o).1 (c ∷ s) ++ unescape outside t)
      × (0 < (lettered c s o).1)
unfolding lettered unescape hard_way escape_letter
lettered-unescape c s t none b e =
    decoded-unescape c s t (char_width (c ∷ s)) b (λ q. ground (arith, e, q)) refl
lettered-unescape c s t (some x) b e =
    let (other, value) = letter-escape_letter c x e in (ground (arith, other, value), omega arith)

All-drop : (n : ℕ) (s : Bytes) → All IsByte s → All IsByte (drop n s)
All-drop zero s h = h
All-drop (suc n) [] h = tt
All-drop (suc n) (x ∷ s) h = All-drop n s h.1

rest-unescape :
    (again : Bytes → Bytes) (s : Bytes)
    → All IsByte s
    → ((n : ℕ) → 0 < n → 0 < length s → unescape outside (again (drop n s)) ≡ drop n s)
    → unescape outside (escape_rest again s) ≡ s
unfolding escape_rest
rest-unescape again [] b h = unfold unescape in refl
rest-unescape again (c ∷ s) b h =
    let (go, more) =
      lettered-unescape c s (again (drop (lettered c s (escape_letter c)).1 (c ∷ s)))
        (escape_letter c) b.0 refl in
    go
    ∙ rw (h (lettered c s (escape_letter c)).1 more (omega arith))
        (take-append-drop (lettered c s (escape_letter c)).1 (c ∷ s))

loop-unescape :
    (rounds : ℕ) (s : Bytes)
    → length s < rounds
    → All IsByte s
    → unescape outside (escape_loop rounds s) ≡ s
unfolding escape_loop
loop-unescape zero s h b = absurd (omega arith)
loop-unescape (suc rounds) s h b =
    let later : unescape outside (escape_rest (escape_loop rounds) (drop (plain_count s) s))
        ≡ drop (plain_count s) s =
      rest-unescape (escape_loop rounds) (drop (plain_count s) s) (All-drop (plain_count s) s b)
        (λ n more some_left.
          loop-unescape rounds (drop n (drop (plain_count s) s))
            (omega (arith, length-drop n (drop (plain_count s) s), length-drop (plain_count s) s))
            (All-drop n (drop (plain_count s) s) (All-drop (plain_count s) s b))) in
    unescape-raw (take (plain_count s) s) _ (plain_apart s)
    ∙ rw later (take-append-drop (plain_count s) s)

-- What `AppendSafeString` appends to a buffer is read back as the text, whatever bytes the text has: escapes,
-- bytes in hexadecimal and characters of UTF-8 alike. The rounds of the model are enough.
pub append_safe_string-unescape :
    (b s : Bytes) → All IsByte s → unescape outside (drop (length b) (append_safe_string b s)) ≡ s
unfolding append_safe_string
append_safe_string-unescape b s h =
    rw (drop-append b (escape_loop (suc (length s)) s))
      (loop-unescape (suc (length s)) s (omega arith) h)
