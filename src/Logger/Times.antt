-- ===== src/Logger/Times.antt =====
-- `Timestamp` and `Duration` of tlwire/decoder.go, which read the times that a logger writes.
mod Runs
use tlog.Base.{
  ℕ, zero, suc, ◌+◌, ◌^◌, ◌<◌, ◌≡◌, refl, sym, ap, ◌∙◌, arith, ◌==◌, if◌then◌else◌, Bool, true,
  false, ◌||◌,
}
use tlog.Base.{
  Option, none, some, List, [], ◌∷◌, ◌++◌, length, get_elem?, append_shift, length-append_one,
}
use tlog.Base.Bits.{Bytes}
use tlog.Base.Outcome.{Outcome, ok, panic, ◌>>=◌}
use tlog.Verbosity.{same_text}
use tlog.Wire.{rfc8949}
use tlog.Wire.Int64.{ℤ, pos, negsuc, to_int64}
use tlog.Kvs.{semantic}
use tlog.Kvs.Values.{expect, expect-here}
use tlog.Logger.{LogEncoder, Env, wire_time, wire_duration, append_timestamp}

-- The iterator of nikand.dev/go/cbor.
pub record TimeDecoder : Type 0 where
  pub read_tag : Bytes → ℕ → Outcome (ℕ × ℤ × ℕ)
  pub read_bytes : Bytes → ℕ → Outcome (Bytes × ℕ)
  pub signed : Bytes → ℕ → Outcome (ℤ × ℕ)
  pub skip : Bytes → ℕ → Outcome ℕ

-- `-v` on an `int64`
unfoldable pub negated : ℤ → ℤ
negated (pos zero) = pos 0
negated (pos (suc n)) = negsuc n
negated (negsuc n) = to_int64 (n + 1)

module _ (d : TimeDecoder) where
  -- A field of a time: the nanoseconds, or what is left out.
  unfoldable pub time_field : Bytes → ℤ → Bytes × ℕ → Outcome (ℤ × ℕ)
  time_field p ts (k, i) =
      if same_text k (b't' ∷ []) then d.signed p i else (d.skip p i >>= λ i'. ok (ts, i'))

  unfoldable pub time_fields : ℕ → Bytes → ℤ → ℕ → Outcome (ℤ × ℕ)
  time_fields zero p ts i = ok (ts, i)
  time_fields (suc n) p ts i =
      d.read_bytes p i >>= time_field p ts >>= λ (ts', i'). time_fields n p ts' i'

  unfoldable pub time_map : Bytes → ℤ → ℕ → Outcome (ℤ × ℕ)
  time_map p (pos n) i = time_fields n p (pos 0) i
  time_map p (negsuc zero) i = panic
  time_map p (negsuc (suc n)) i = ok (pos 0, i)

  unfoldable pub time_by : Bytes → ℕ × ℤ × ℕ → Outcome (ℤ × ℕ)
  time_by p (tag, sub, i) =
      if tag == rfc8949.tag_int
      then ok (sub, i)
      else if tag == rfc8949.tag_map
      then time_map p sub i
      else panic

  unfoldable pub timestamp : Bytes → ℕ → Outcome (ℤ × ℕ)
  timestamp p st = expect p st (semantic rfc8949 wire_time) >>= λ i. d.read_tag p i >>= time_by p

  unfoldable pub duration_by : ℕ × ℤ × ℕ → Outcome (ℤ × ℕ)
  duration_by (tag, v, i) =
      if tag == rfc8949.tag_int
      then ok (v, i)
      else if tag == rfc8949.tag_neg
      then ok (negated v, i)
      else panic

  unfoldable pub duration : Bytes → ℕ → Outcome (ℤ × ℕ)
  duration p st =
      expect p st (semantic rfc8949 wire_duration) >>= λ i. d.read_tag p i >>= duration_by

-- An `int64`.
abbrev pub IsInt64 : ℤ → Type 0
IsInt64 (pos n) = n < 2 ^ 63
IsInt64 (negsuc n) = n < 2 ^ 63

-- The head of an integer, as the iterator reads it: of a negative one the tag is known, and the end.
abbrev pub IntHead : LogEncoder → ℤ → ℕ → Outcome (ℕ × ℤ × ℕ) → Type 0
IntHead e (pos n) st r = r ≡ ok (0, pos n, st + length (e.append_int64 (pos n)))
IntHead e (negsuc n) st r = (v : ℤ) × (r ≡ ok (0x20, v, st + length (e.append_int64 (negsuc n))))

abbrev pub ReadsInts : LogEncoder → TimeDecoder → Type 0
ReadsInts e d =
    (t : ℤ) (pre rest : Bytes)
    → IsInt64 t
    → IntHead e t (length pre) (d.read_tag (pre ++ (e.append_int64 t ++ rest)) (length pre))

-- What `Timestamp` makes of a time, up to the given end.
unfoldable pub time_read : ℤ → ℕ → Outcome (ℤ × ℕ)
time_read (pos n) end = ok (pos n, end)
time_read (negsuc n) end = panic

module _ (e : LogEncoder) (env : Env) (d : TimeDecoder) (reads : ReadsInts e d) where
  time_by-time_read :
      (t : ℤ) (p : Bytes) (st : ℕ) (r : Outcome (ℕ × ℤ × ℕ))
      → IntHead e t st r
      → (r >>= time_by d p) ≡ time_read t (st + length (e.append_int64 t))
  unfolding time_by time_read
  time_by-time_read (pos n) p st r h = rw h refl
  time_by-time_read (negsuc n) p st r (v, h) = rw h refl

  -- `Timestamp` reads back a time that `AppendTimestamp` appended, whatever stands before and behind it, and
  -- returns the index behind it, where the time is not before 1970; it panics where it is, for an iterator
  -- that reads the head of an integer where its encoding starts.
  pub timestamp-append_timestamp :
      (t : ℤ) (pre rest : Bytes)
      → IsInt64 t
      → timestamp d (pre ++ (append_timestamp rfc8949 e env t ++ rest)) (length pre)
        ≡ time_read t (length pre + length (append_timestamp rfc8949 e env t))
  unfolding timestamp append_timestamp
  timestamp-append_timestamp t pre rest small =
      let x = semantic rfc8949 wire_time in
      let one : length (pre ++ (x ∷ [])) ≡ length pre + 1 =
        omega (arith, length-append_one pre x) in
      let head = reads t (pre ++ (x ∷ [])) rest small in
      let moved : IntHead e t (length pre + 1)
          (d.read_tag (pre ++ (x ∷ (e.append_int64 t ++ rest))) (length pre + 1)) =
        rw (← append_shift pre (e.append_int64 t ++ rest) x, one) at head in
      let end =
        time_by-time_read t (pre ++ (x ∷ (e.append_int64 t ++ rest))) (length pre + 1) _ moved in
      rw (expect-here pre (e.append_int64 t ++ rest) x) (end ∙ ap (time_read t) (omega arith))
