-- ===== src/Ident/Text.antt =====
-- What `FormatTo` of id.go writes, as the text of the identifier cut to the room in the buffer.
use tlog.Base.{ℕ, zero, suc, ◌+◌, ◌-◌, ◌*◌, ◌/◌, ◌%◌, ◌<◌, ◌≤◌, min, ◌≡◌, refl}
use tlog.Base.{Bool, ◌&&◌, [], ◌∷◌, ◌++◌, append_assoc}
use tlog.Base.{if◌then◌else◌, length, set, take, drop, All, arith}
use tlog.Base.{
  inl, inr, ◌∙◌, Bool-cases, lt→ltb, ltb-false, drop-drop, take-append-drop, length-take,
  length-drop, length-append_one, set-append, get_elem?-append, length-append,
}
use tlog.Base.Bits.{Bytes, IsByte, low_four}
use tlog.Base.Outcome.{Outcome, ok}
use tlog.Ident.{
  Verb, is_uuid, is_upper, digit, dash, dash_before, is_zero, zero_text, write_digits, format_loop,
  format_to, copy_at, IsIdent,
}

-- The digits of the bytes from byte `j` on, with the dashes of a UUID.
unfoldable pub hex_text : Bool → Bool → Bytes → ℕ → Bytes
hex_text uuid upper [] j = []
hex_text uuid upper (x ∷ id) j =
    let digits = digit upper (x / 16) ∷ digit upper (x % 16) ∷ hex_text uuid upper id (j + 1) in
    if uuid && dash_before j then dash ∷ digits else digits

set_after :
    (pre mid ys : Bytes) (y v i : ℕ)
    → i ≡ length pre + length mid
    → set (pre ++ (mid ++ (y ∷ ys))) i v ≡ pre ++ (mid ++ (v ∷ ys))
set_after pre mid ys y v i e =
    rw
      (← append_assoc pre mid (y ∷ ys), ← append_assoc pre mid (v ∷ ys), e, ← length-append pre mid)
      (set-append (pre ++ mid) ys y v)

-- The room that is left when the digits of a byte are written: none, for one of them, or for both.
module _ (upper : Bool) (done rest pre post : Bytes) (x i j limit : ℕ) where
  write_digits_none :
      (next : Bytes → ℕ → Outcome (Bytes × ℕ)) (b : Bytes)
      → i ≡ limit
      → write_digits upper (done ++ (x ∷ rest)) limit j next b i ≡ ok (b, limit)
  unfolding write_digits
  write_digits_none next b e = ground arith

  write_digits_one :
      (next : Bytes → ℕ → Outcome (Bytes × ℕ)) (a : ℕ)
      → j ≡ length done
      → i ≡ length pre
      → limit ≡ i + 1
      → write_digits upper (done ++ (x ∷ rest)) limit j next (pre ++ (a ∷ post)) i
        ≡ ok (pre ++ (digit upper (x / 16) ∷ post), limit)
  unfolding write_digits
  write_digits_one next a hj hi hl =
      ground (arith, get_elem?-append done rest x, set-append pre post a (digit upper (x / 16)))

  write_digits_both :
      (next : Bytes → ℕ → Outcome (Bytes × ℕ)) (a c : ℕ)
      → IsByte x
      → j ≡ length done
      → i ≡ length pre
      → i + 1 < limit
      → write_digits upper (done ++ (x ∷ rest)) limit j next (pre ++ (a ∷ c ∷ post)) i
        ≡ next (pre ++ (digit upper (x / 16) ∷ digit upper (x % 16) ∷ post)) (i + 2)
  unfolding write_digits
  write_digits_both next a c hb hj hi hl = ground (
    arith,
    get_elem?-append done rest x,
    set-append pre (c ∷ post) a (digit upper (x / 16)),
    set_after pre (digit upper (x / 16) ∷ []) post c (digit upper (x % 16)) (i + 1),
    low_four x,
  )

module _ (upper : Bool) (done rest pre post : Bytes) (x i j limit : ℕ) where
  -- Both digits, as far as there is room, and then the next round.
  write_digits_lem :
      (next : Bytes → ℕ → Outcome (Bytes × ℕ)) (mid tail : Bytes)
      → IsByte x
      → j ≡ length done
      → i ≡ length pre
      → limit ≡ i + length mid
      → ((ms : Bytes)
          → limit ≡ i + 2 + length ms
          → length ms < length mid
          → next (pre ++ (digit upper (x / 16) ∷ digit upper (x % 16) ∷ (ms ++ post))) (i + 2)
            ≡ ok (
              pre
                  ++ (digit upper (x / 16)
                      ∷ digit upper (x % 16)
                      ∷ (take (length ms) tail ++ post)),
              limit,
            ))
      → write_digits upper (done ++ (x ∷ rest)) limit j next (pre ++ (mid ++ post)) i
        ≡ ok (
          pre ++ (take (length mid) (digit upper (x / 16) ∷ digit upper (x % 16) ∷ tail) ++ post),
          limit,
        )
  write_digits_lem next [] tail hb hj hi hl ih =
      write_digits_none upper done rest pre post x i j limit next _ (omega arith)
  write_digits_lem next (a ∷ []) tail hb hj hi hl ih =
      write_digits_one upper done rest pre post x i j limit next a hj hi (omega arith)
  write_digits_lem next (a ∷ c ∷ ms) tail hb hj hi hl ih =
      write_digits_both upper done rest pre (ms ++ post) x i j limit next a c hb hj hi (omega arith)
      ∙ ih ms (omega arith) (omega arith)

module _ (uuid upper : Bool) where
  -- What the loop does with `fuel` rounds: from byte `j` of the identifier it fills `mid`.
  abbrev Writes : ℕ → Type 0
  Writes fuel =
      (done rest pre mid post : Bytes) (i j limit : ℕ)
      → All IsByte rest
      → i ≡ length pre
      → j ≡ length done
      → limit ≡ i + length mid
      → length mid ≤ fuel
      → length mid ≤ length (hex_text uuid upper rest j)
      → format_loop fuel uuid upper (done ++ rest) limit (pre ++ (mid ++ post)) i j
        ≡ ok (pre ++ (take (length mid) (hex_text uuid upper rest j) ++ post), limit)

  round-Writes :
      (fuel x : ℕ) (done rest pre mid post : Bytes) (i j limit : ℕ)
      → Writes fuel
      → All IsByte (x ∷ rest)
      → i ≡ length pre
      → j ≡ length done
      → limit ≡ i + length mid
      → length mid ≤ suc fuel
      → length mid ≤ suc (suc (length (hex_text uuid upper rest (j + 1))))
      → write_digits upper
          (done ++ (x ∷ rest))
          limit
          j
          (λ b' i'. format_loop fuel uuid upper (done ++ (x ∷ rest)) limit b' i' (j + 1))
          (pre ++ (mid ++ post))
          i
        ≡ ok (
          pre
              ++ (take
                    (length mid)
                    (digit upper (x / 16) ∷ digit upper (x % 16) ∷ hex_text uuid upper rest (j + 1))
                  ++ post),
          limit,
        )
  round-Writes fuel x done rest pre mid post i j limit ih hb hi hj hl hf hr =
      let pair : Bytes = digit upper (x / 16) ∷ digit upper (x % 16) ∷ [] in
      let tail : Bytes = hex_text uuid upper rest (j + 1) in
      write_digits_lem upper done rest pre post x i j limit _ mid tail hb.0 hj hi hl
        (λ ms e shorter.
          rw
            (
              append_assoc done (x ∷ []) rest,
              append_assoc pre pair (ms ++ post),
              append_assoc pre pair (take (length ms) tail ++ post),
            )
            at
            (ih (done ++ (x ∷ [])) rest (pre ++ pair) ms post (i + 2) (j + 1) limit hb.1
              (omega (arith, length-append pre pair)) (omega (arith, length-append_one done x))
              (omega arith) (omega arith) (omega arith)))

  format_loop-Writes : (fuel : ℕ) → Writes fuel
  unfolding format_loop hex_text
  format_loop-Writes zero done rest pre [] post i j limit hb hi hj hl hf hr = ground arith
  format_loop-Writes (suc fuel) done rest pre [] post i j limit hb hi hj hl hf hr = ground arith
  format_loop-Writes zero done rest pre (m ∷ mid) post i j limit hb hi hj hl hf hr =
      absurd (omega arith)
  format_loop-Writes (suc fuel) done [] pre (m ∷ mid) post i j limit hb hi hj hl hf hr =
      absurd (omega arith)
  format_loop-Writes (suc fuel) done (x ∷ rest) pre (m ∷ mid) post i j limit hb hi hj hl hf hr =
      elim (Bool-cases (uuid && dash_before j)) [
        | inl dashed ↦
            let room : suc (length mid)
                ≤ suc (suc (suc (length (hex_text uuid upper rest (j + 1))))) =
              rw dashed at hr in
            rw (dashed, lt→ltb i limit (omega arith), hi, set-append pre (mid ++ post) m dash)
              (rw (append_assoc pre (dash ∷ []) (mid ++ post), append_assoc pre (dash ∷ []) _) at
                (round-Writes fuel x done rest (pre ++ (dash ∷ [])) mid post (length pre + 1) j
                  limit (format_loop-Writes fuel) hb (omega (arith, length-append_one pre dash)) hj
                  (omega arith) (omega arith) (omega arith)))
        | inr plain ↦
            rw (plain, lt→ltb i limit (omega arith))
              (round-Writes fuel x done rest pre (m ∷ mid) post i j limit (format_loop-Writes fuel)
                hb hi hj hl (omega arith) (rw plain at hr))
      ]

-- The whole text of an identifier, and how long it is.
unfoldable pub text : Verb → Bytes → Bytes
text f id = if is_zero id then zero_text f else hex_text (is_uuid f) (is_upper f) id 0

abbrev pub text_size : Verb → ℕ
text_size f = if is_uuid f then 36 else 32

dashes : Bool → ℕ → ℕ → ℕ
dashes uuid zero j = 0
dashes uuid (suc n) j = (if uuid && dash_before j then 1 else 0) + dashes uuid n (j + 1)

length-hex_text :
    (uuid upper : Bool) (id : Bytes) (j : ℕ)
    → length (hex_text uuid upper id j) ≡ 2 * length id + dashes uuid (length id) j
unfolding hex_text dashes
length-hex_text uuid upper [] j = omega arith
length-hex_text uuid upper (x ∷ id) j = ground (arith, length-hex_text uuid upper id (j + 1))

dashes_sixteen : (f : Verb) → 2 * 16 + dashes (is_uuid f) 16 0 ≡ text_size f
unfolding dashes dash_before is_uuid
dashes_sixteen Verb.lower_v = refl
dashes_sixteen _ = refl

length-zero_text : (f : Verb) → length (zero_text f) ≡ text_size f
unfolding zero_text is_uuid
length-zero_text Verb.lower_v = refl
length-zero_text _ = refl

pub length-text : (f : Verb) (id : Bytes) → length id ≡ 16 → length (text f id) ≡ text_size f
unfolding text
length-text f id h = elim (Bool-cases (is_zero id)) [
  | inl z ↦ rw z (length-zero_text f)
  | inr n ↦ rw (n, length-hex_text (is_uuid f) (is_upper f) id 0, h) (dashes_sixteen f)
]

cut : (b : Bytes) (i n : ℕ) → take i b ++ (take n (drop i b) ++ drop (i + n) b) ≡ b
cut b i n = rw (← drop-drop i n b) (rw (take-append-drop n (drop i b)) (take-append-drop i b))

length-mid : (b : Bytes) (i n : ℕ) → i + n ≤ length b → length (take n (drop i b)) ≡ n
length-mid b i n h = omega (arith, length-take n (drop i b), length-drop i b)

format_loop_at :
    (uuid upper : Bool) (id b : Bytes) (i n : ℕ)
    → All IsByte id
    → i + n ≤ length b
    → n ≤ length (hex_text uuid upper id 0)
    → format_loop n uuid upper id (i + n) b i 0
      ≡ ok (take i b ++ (take n (hex_text uuid upper id 0) ++ drop (i + n) b), i + n)
format_loop_at uuid upper id b i n hb hi hn =
    let filled : length (take n (drop i b)) ≡ n = length-mid b i n hi in
    rw (cut b i n, filled) at
      (format_loop-Writes uuid upper n [] id (take i b) (take n (drop i b)) (drop (i + n) b) i 0
        (i + n) hb (omega (arith, length-take i b)) refl (omega arith) (omega arith) (omega arith))

-- `FormatTo` writes as much of the text as the buffer has room for at `i`, changes nothing else, and
-- returns the position after it.
pub format_to_writes :
    (id b : Bytes) (i : ℕ) (f : Verb)
    → IsIdent id
    → i ≤ length b
    → format_to id b i f
      ≡ ok (
        take i b
            ++ (take (min (length b - i) (text_size f)) (text f id)
                ++ drop (i + min (length b - i) (text_size f)) b),
        i + min (length b - i) (text_size f),
      )
unfolding format_to copy_at text
format_to_writes id b i f v h =
    let size : length (hex_text (is_uuid f) (is_upper f) id 0) ≡ text_size f =
      rw (length-hex_text (is_uuid f) (is_upper f) id 0, v.sized) (dashes_sixteen f) in
    elim (Bool-cases (is_zero id)) [
      | inl z ↦ rw (z, ltb-false (length b) i h, length-zero_text f) refl
      | inr n ↦
          rw (n, ltb-false (length b) i h)
            (format_loop_at (is_uuid f) (is_upper f) id b i _ v.bytes (omega arith)
              (omega (arith, size)))
    ]
