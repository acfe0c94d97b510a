-- ===== src/Escape/Controls.antt =====
-- The control bytes that low/safeadd.go lets through.
use tlog.Base.{◌⊎◌, inl, inr, append_shift, ℕ, ◌<◌, ◌≡◌, arith, none, some, [], ◌∷◌, ◌++◌}
use tlog.Base.Bits.{Bytes}
use tlog.Escape.{
  is_plain, plain_count, escape_letter, char_width, decoded, hard_way, lettered, escape_rest,
  escape_loop,
}
use tlog.Escape.{append_safe_string}

control_count : (c : ℕ) (s : Bytes) → c < 0x20 → plain_count (c ∷ s) ≡ 0
unfolding plain_count is_plain
control_count c s h = ground arith

control_width : (c : ℕ) (s : Bytes) → c < 0x20 → char_width (c ∷ s) ≡ some 1
unfolding char_width
control_width c s h = ground arith

control_letter : (c : ℕ) → c < 0x20 → (c < 7) ⊎ (13 < c) → escape_letter c ≡ none
unfolding escape_letter
control_letter c h (inl low) = ground (arith, low)
control_letter c h (inr high) = ground (arith, high)

-- At the beginning of any text, a control byte for which there is no letter, one that is not from 7 to 13, is
-- appended by `AppendSafeString` as it is, with no escape, and what follows it is escaped as a text of its own.
pub append_safe_string_control :
    (b : Bytes) (c : ℕ) (s : Bytes)
    → c < 0x20
    → (c < 7) ⊎ (13 < c)
    → append_safe_string b (c ∷ s) ≡ append_safe_string (b ++ (c ∷ [])) s
unfolding append_safe_string escape_loop escape_rest lettered hard_way decoded plain_count
append_safe_string_control b c s h e =
    rw (control_count c s h, control_letter c h e, control_width c s h) (append_shift b _ c)
