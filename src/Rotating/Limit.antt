-- ===== src/Rotating/Limit.antt =====
-- `Write` of rotating/file.go keeps the size of the file within its limit.
use tlog.Base.{ℕ, ◌+◌, ◌≤◌, ◌≡◌, ◌≢◌, refl, ap, arith}
use tlog.Base.{false, Bool-cases, Option, none, some, List, [], ◌∷◌, ◌⊎◌, inl, inr, length, All}
use tlog.Base.Bits.{Bytes}
use tlog.Base.Outcome.{Outcome, ok, panic, ◌>>=◌}
use tlog.Rotating.{Limits}
use tlog.Rotating.Current.{Numbers}
use tlog.Rotating.Writing.{
  Plan, Env, File, Rotated, Wrote, opened, open_next, numbered, planned, rotate_from, rotate,
}
use tlog.Rotating.Writing.{needs_rotation, grown, put, put_rotated, file_write}

-- What holds of the result of a call that returns.
abbrev Returns {ℓ} : {A : Type ℓ} → (A → Type 0) → Outcome A → Type 0
Returns P panic = Unit
Returns P (ok r) = P r

module _ (env : Env) (nums : Numbers) (l : Limits) where
  open env use {World, Ref, write, open_file, now, read_dir}

  -- A writer that says that it wrote no more than it was handed.
  abbrev pub Honest : Type 0
  Honest = (wd : World) (h : Ref) (p : Bytes) → (write wd h p).1 ≤ length p

  -- A rotation that succeeds begins with an empty file; one that fails leaves the size.
  Begins : ℕ → Rotated env nums l → Type 0
  Begins size r = ((r.2 ≡ none) × (r.1.size ≡ 0)) ⊎ ((r.2 ≢ none) × (r.1.size ≡ size))

  opened-Begins :
      (pl : Plan) (base fname : Bytes) (f : File Ref) (o : World × Option Ref × Option ℕ)
      → Begins f.size (opened env nums l pl base fname f o)
  unfolding opened Begins
  opened-Begins pl base fname f (wd, w, some e) = inr (λ q. ground (arith, q), refl)
  opened-Begins pl base fname f (wd, w, none) = inl (refl, refl)

  numbered-Begins :
      (wd : World) (pl : Plan) (f : File Ref) (o : Outcome ℕ)
      → Returns (Begins f.size) (numbered env nums l wd pl f o)
  unfolding numbered open_next
  numbered-Begins wd pl f panic = tt
  numbered-Begins wd pl f (ok top) = opened-Begins _ _ _ _ _

  planned-Begins :
      (wd : World) (pl : Plan) (f : File Ref) (o : List Bytes ⊎ ℕ)
      → Returns (Begins f.size) (planned env nums l wd pl f o)
  unfolding planned Begins
  planned-Begins wd pl f (inr e) = inr (λ q. ground (arith, q), refl)
  planned-Begins wd pl f (inl ns) = numbered-Begins wd pl f _

  rotate_from-Begins :
      (p : Option Plan) (wd : World) (f : File Ref)
      → Returns (Begins f.size) (rotate_from env nums l p wd f)
  unfolding rotate_from open_next
  rotate_from-Begins none wd f = planned-Begins wd _ f _
  rotate_from-Begins (some pl) wd f = opened-Begins _ _ _ _ _

  -- The size of the file after a `Write`.
  abbrev Within : ℕ → Wrote env nums l → Type 0
  Within bound r = r.1.size ≤ bound

  put-Within :
      (p : Bytes) (wd : World) (f : File Ref) (w : Option Ref) (bound : ℕ)
      → Honest
      → f.size + length p ≤ bound
      → Returns (Within bound) (put env nums l p wd f w)
  unfolding put grown
  put-Within p wd f none bound honest h = tt
  put-Within p wd f (some x) bound honest h = omega (arith, honest wd x p)

  put_rotated-Within :
      (p : Bytes) (size : ℕ) (o : Outcome (Rotated env nums l)) (bound : ℕ)
      → Honest
      → size ≤ bound
      → length p ≤ bound
      → Returns (Begins size) o
      → Returns (Within bound) (put_rotated env nums l p o)
  unfolding put_rotated Begins
  put_rotated-Within p size panic bound honest hs hp b = tt
  put_rotated-Within p size (ok (wd, f, some x)) bound honest hs hp (inl (q, z)) =
      absurd (ground (arith, q))
  put_rotated-Within p size (ok (wd, f, some x)) bound honest hs hp (inr (q, z)) = omega arith
  put_rotated-Within p size (ok (wd, f, none)) bound honest hs hp (inl (q, z)) =
      put-Within p wd f f.w bound honest (omega arith)
  put_rotated-Within p size (ok (wd, f, none)) bound honest hs hp (inr (q, z)) = absurd (q refl)

  stays_small :
      (wd : World) (f : File Ref) (size : ℕ)
      → l.max_file_size ≢ 0
      → needs_rotation env nums l wd f size ≡ false
      → (f.size ≡ 0) ⊎ (f.size + size ≤ l.max_file_size)
  unfolding needs_rotation
  stays_small wd f size limited n = ground arith

  file_write-Within :
      (wd : World) (f : File Ref) (p : Bytes) (bound : ℕ)
      → l.max_file_size ≢ 0
      → Honest
      → l.max_file_size ≤ bound
      → length p ≤ bound
      → f.size ≤ bound
      → Returns (Within bound) (file_write env nums l wd f p)
  unfolding file_write rotate
  file_write-Within wd f p bound limited honest hm hp hf =
      elim (Bool-cases (needs_rotation env nums l wd f (length p))) [
        | inl full ↦ rw full (
            put_rotated-Within p f.size (rotate_from env nums l f.plan wd f) bound honest hf hp
              (rotate_from-Begins f.plan wd f))
        | inr room ↦ rw room (
            put-Within p wd f f.w bound honest
              (omega (arith, stays_small wd f (length p) limited room)))
      ]

  -- The state after a list of writes, whatever they return.
  unfoldable pub file_writes : World → File Ref → List Bytes → Outcome (World × File Ref)
  file_writes wd f [] = ok (wd, f)
  file_writes wd f (p ∷ ps) =
      file_write env nums l wd f p >>= (λ (r : Wrote env nums l). file_writes r.0 r.1 ps)

  size_in : Outcome (World × File Ref) → ℕ
  size_in panic = 0
  size_in (ok (wd, f)) = f.size

  after_write :
      (o : Outcome (Wrote env nums l)) (ps : List Bytes) (bound : ℕ) (wd' : World) (f' : File Ref)
      → Returns (Within bound) o
      → ((wd : World) (f : File Ref)
          → f.size ≤ bound
          → file_writes wd f ps ≡ ok (wd', f')
          → f'.size ≤ bound)
      → (o >>= (λ (r : Wrote env nums l). file_writes r.0 r.1 ps)) ≡ ok (wd', f')
      → f'.size ≤ bound
  after_write panic ps bound wd' f' h next e = ground (arith, e)
  after_write (ok (wd, f, n, x)) ps bound wd' f' h next e = next wd f h e

  -- After any writes, with the rotations and the failures that come with them, the size of the file is at most
  -- `MaxFileSize`, or the length of the longest slice where that is more: a slice longer than the limit has
  -- a file of its own. It is given that there is a limit and that a writer returns no count above the length
  -- of its slice.
  pub file_writes-bound :
      (ps : List Bytes) (wd wd' : World) (f f' : File Ref) (bound : ℕ)
      → l.max_file_size ≢ 0
      → Honest
      → l.max_file_size ≤ bound
      → All (λ p. length p ≤ bound) ps
      → f.size ≤ bound
      → file_writes wd f ps ≡ ok (wd', f')
      → f'.size ≤ bound
  unfolding file_writes size_in
  file_writes-bound [] wd wd' f f' bound limited honest hm hp hf e =
      let same : f.size ≡ f'.size = ap size_in e in omega (arith, same)
  file_writes-bound (p ∷ ps) wd wd' f f' bound limited honest hm hp hf e =
      after_write (file_write env nums l wd f p) ps bound wd' f'
        (file_write-Within wd f p bound limited honest hm hp.0 hf)
        (λ wd₁ f₁ h₁ e₁. file_writes-bound ps wd₁ wd' f₁ f' bound limited honest hm hp.1 h₁ e₁) e
