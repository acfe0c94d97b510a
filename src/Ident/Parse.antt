-- ===== src/Ident/Parse.antt =====
-- `IDFromString` of id.go on the texts that `FormatTo` writes, and on any other.
use tlog.Base.{ℕ, suc, ◌+◌, ◌*◌, ◌/◌, ◌%◌, ◌<◌, ◌≡◌, refl, ap}
use tlog.Base.{Bool, true, ◌&&◌, none, [], ◌∷◌, ◌++◌, append_assoc, append-nil}
use tlog.Base.{length, replicate, All, arith}
use tlog.Base.{inl, inr, ◌∙◌, Bool-cases, set-append, get_elem?-append, length-append_one}
use tlog.Base.Bits.{Bytes, IsByte, join_nibbles, high_nibble}
use tlog.Base.Outcome.{ok}
use tlog.Ident.{IsIdent, value, classify}
use tlog.Ident.{or_nibble, from_string_loop, from_string, empty_id, Verb, is_uuid, is_upper}
use tlog.Ident.{digit, dash, dash_before, is_zero, zero_text}
use tlog.Ident.Text.{hex_text, text}

classify-digit : (upper : Bool) (d : ℕ) → d < 16 → classify (digit upper d) ≡ value d
unfolding classify digit
classify-digit upper d h = ground arith

-- The two digits of a byte fill the next free place of the array.
or_nibble-high :
    (done tail : Bytes) (j d : ℕ)
    → j ≡ 2 * length done
    → d < 16
    → or_nibble (done ++ (0 ∷ tail)) j d ≡ ok (done ++ (d * 16 ∷ tail))
unfolding or_nibble
or_nibble-high done tail j d hj hd =
    let at : j / 2 ≡ length done = omega arith in
    let even : j % 2 ≡ 0 = omega arith in
    ground (arith, get_elem?-append done tail 0, set-append done tail 0 (d * 16), high_nibble d)

or_nibble-low :
    (done tail : Bytes) (j x : ℕ)
    → j ≡ 2 * length done + 1
    → IsByte x
    → or_nibble (done ++ (x / 16 * 16 ∷ tail)) j (x % 16) ≡ ok (done ++ (x ∷ tail))
unfolding or_nibble
or_nibble-low done tail j x hj hx =
    let at : j / 2 ≡ length done = omega arith in
    let odd : j % 2 ≡ 1 = omega arith in
    ground (
      arith,
      get_elem?-append done tail (x / 16 * 16),
      set-append done tail (x / 16 * 16) x,
      join_nibbles (x / 16) (x % 16),
    )

-- A byte's two digits, read into the next free place.
from_string_loop_byte :
    (upper : Bool) (done tail s : Bytes) (x j : ℕ)
    → IsByte x
    → j ≡ 2 * length done
    → from_string_loop (digit upper (x / 16) ∷ digit upper (x % 16) ∷ s) (done ++ (0 ∷ tail)) j
      ≡ from_string_loop s (done ++ (x ∷ tail)) (j + 1 + 1)
unfolding from_string_loop
from_string_loop_byte upper done tail s x j hx hj = ground (
  arith,
  classify-digit upper (x / 16) (omega arith),
  or_nibble-high done tail j (x / 16) hj (omega arith),
  classify-digit upper (x % 16) (omega arith),
  or_nibble-low done tail (j + 1) x (omega arith) hx,
)

from_string_loop-dash :
    (s id : Bytes) (j : ℕ) → from_string_loop (dash ∷ s) id j ≡ from_string_loop s id j
unfolding from_string_loop classify
from_string_loop-dash s id j = refl

-- The digits of the bytes `rest`, read into the places behind `done`.
pub from_string_loop-hex_text :
    (uuid upper : Bool) (rest done tail s : Bytes) (k j : ℕ)
    → All IsByte rest
    → j ≡ 2 * length done
    → from_string_loop
        (hex_text uuid upper rest k ++ s)
        (done ++ (replicate (length rest) 0 ++ tail))
        j
      ≡ from_string_loop s (done ++ (rest ++ tail)) (j + 2 * length rest)
unfolding hex_text
from_string_loop-hex_text uuid upper [] done tail s k j hb hj =
    ap (from_string_loop s (done ++ tail)) (omega arith)
from_string_loop-hex_text uuid upper (x ∷ rest) done tail s k j hb hj =
    let zeros : Bytes = replicate (length rest) 0 ++ tail in
    let byte =
      from_string_loop_byte upper done zeros (hex_text uuid upper rest (k + 1) ++ s) x j hb.0 hj in
    let onward =
      rw (append_assoc done (x ∷ []) zeros, append_assoc done (x ∷ []) (rest ++ tail)) at
        (from_string_loop-hex_text uuid upper rest (done ++ (x ∷ [])) tail s (k + 1) (j + 1 + 1)
          hb.1 (omega (arith, length-append_one done x))) in
    let last : j + 1 + 1 + 2 * length rest ≡ j + 2 * suc (length rest) = omega arith in
    elim (Bool-cases (uuid && dash_before k)) [
      | inl dashed ↦ rw (dashed, from_string_loop-dash) (byte ∙ onward ∙ rw last)
      | inr plain ↦ rw plain (byte ∙ onward ∙ rw last)
    ]

pub is_zero-empty_id : (id : Bytes) → is_zero id ≡ true → id ≡ replicate (length id) 0
unfolding is_zero
is_zero-empty_id [] h = refl
is_zero-empty_id (x ∷ id) h = ground (arith, is_zero-empty_id id)

from_string-zero_text :
    (f : Verb) (s : Bytes) → from_string (zero_text f ++ s) ≡ from_string_loop s empty_id 32
unfolding from_string from_string_loop classify or_nibble zero_text
from_string-zero_text Verb.lower_v s = refl
from_string-zero_text _ s = refl

from_string-hex_text :
    (uuid upper : Bool) (id s : Bytes)
    → IsIdent id
    → from_string (hex_text uuid upper id 0 ++ s) ≡ from_string_loop s id 32
unfolding from_string
from_string-hex_text uuid upper id s v =
    rw (v.sized, append-nil id) at
      (from_string_loop-hex_text uuid upper id [] [] s 0 0 v.bytes (omega arith))

-- After a whole text the 16 bytes are those of the identifier, and the next digit would be the 33rd.
from_string-text_rest :
    (f : Verb) (id s : Bytes) → IsIdent id → from_string (text f id ++ s) ≡ from_string_loop s id 32
unfolding text
from_string-text_rest f id s v = elim (Bool-cases (is_zero id)) [
  | inl z ↦ rw (z, is_zero-empty_id id z, v.sized) (from_string-zero_text f s)
  | inr n ↦ rw n (from_string-hex_text (is_uuid f) (is_upper f) id s v)
]

-- The text that `FormatTo` prints under any of its verbs is parsed back to the identifier, with no
-- error: dashes are skipped, both cases of the digits are read, and `_` counts for 0.
pub from_string-text :
    (f : Verb) (id : Bytes) → IsIdent id → from_string (text f id) ≡ ok (id, none)
from_string-text f id v =
    rw append-nil at (from_string-text_rest f id [] v) ∙ (unfold from_string_loop in refl)
