-- ===== src/Tlio/Ring/Recent.antt =====
-- `RingWriter` of tlio/writers.go as a queue of the last writes.
use tlog.Base.{ℕ, zero, suc, ◌+◌, ◌-◌, ◌%◌, ◌<◌, ◌≡◌, refl, ap, sym, ◌∙◌, arith, Option, none, some}
use tlog.Base.{
  List, [], ◌∷◌, ◌++◌, inl, inr, length, get_elem?, set, drop, replicate, Bool-cases, ltb, ltb→lt,
}
use tlog.Base.{
  length-append, length-append_one, length-set, length-replicate, drop-all, get_elem?-append,
  get_elem?-some,
}
use tlog.Base.{append_shift, append-nil}
use tlog.Base.Bits.{Bytes}
use tlog.Base.Io.{Writer}
use tlog.Base.Outcome.{Outcome, ok}
use tlog.Tlio.Ring.{
  Ring, ring_new, slot, store, ring_write, ring_writes, Sent, sent, send, ring_write_to_loop,
  ring_write_to,
}
use tlog.Tlio.Ring.Mod.{mod-add_apart, get_elem?-set_same, get_elem?-set_other}
use native.Mathlib.Nat.{mod-eq_of_lt, mod-lt, add-mod_right}

-- The slots hold the last `n` of the slices `ys`.
pub record Holds (r : Ring) (ys : List Bytes) : Type 0 where
  pub positive : 0 < r.n
  pub sized : length r.buf ≡ r.n
  pub written : length ys ≡ r.i + r.n
  pub window : (d : ℕ) → d < r.n → get_elem? r.buf ((r.i + d) % r.n) ≡ get_elem? ys (r.i + d)

slot_in : (i n : ℕ) → 0 < n → slot i n ≡ ok (i % n)
unfolding slot
slot_in i zero h = absurd (omega arith)
slot_in i (suc m) h = refl

get_elem?-append_left {ℓ} :
    {A : Type ℓ} (xs ys : List A) (i : ℕ) → i < length xs → get_elem? (xs ++ ys) i ≡ get_elem? xs i
get_elem?-append_left [] ys i h = absurd (omega arith)
get_elem?-append_left (x ∷ xs) ys zero h = refl
get_elem?-append_left (x ∷ xs) ys (suc i) h = get_elem?-append_left xs ys i (omega arith)

ring_new-Holds : (n : ℕ) → 0 < n → Holds (ring_new n) (replicate n [])
unfolding ring_new
ring_new-Holds n h = record {
  positive = h;
  sized = length-replicate n [];
  written = length-replicate n [] ∙ omega arith;
  window = λ d hd.
      let same : (0 + d) % n ≡ 0 + d = mod-eq_of_lt (let b : 0 + d < n = omega arith in b) in
      ap (get_elem? (replicate n [])) same;
}

module _ (r : Ring) (ys : List Bytes) (p : Bytes) (h : Holds r ys) where
  abbrev after : Ring
  after = record r { i = suc r.i; buf = set r.buf (r.i % r.n) p }

  in_range : r.i % r.n < length r.buf
  in_range = omega (arith, mod-lt r.i h.positive, h.sized)

  window_after :
      (d : ℕ)
      → d < r.n
      → get_elem? after.buf ((suc r.i + d) % r.n) ≡ get_elem? (ys ++ (p ∷ [])) (suc r.i + d)
  window_after d hd = elim (Bool-cases (ltb (suc d) r.n)) [
    | inl more ↦
        let next : suc r.i + d ≡ r.i + suc d = omega arith in
        rw next (
          get_elem?-set_other r.buf (r.i % r.n) ((r.i + suc d) % r.n) p
            (λ e. mod-add_apart r.i (suc d) r.n (omega arith) (ltb→lt (suc d) r.n more) (sym e))
          ∙ h.window (suc d) (ltb→lt (suc d) r.n more)
          ∙ sym (get_elem?-append_left ys (p ∷ []) (r.i + suc d) (ground (arith, h.written, more))))
    | inr last ↦
        let here : suc r.i + d ≡ r.i + r.n = ground (arith, last) in
        let end : r.i + r.n ≡ length ys = sym h.written in
        rw (here, add-mod_right r.i r.n, end)
          (get_elem?-set_same r.buf (r.i % r.n) p in_range ∙ sym (get_elem?-append ys [] p))
  ]

  after-Holds : Holds after (ys ++ (p ∷ []))
  after-Holds = record {
    positive = h.positive;
    sized = length-set r.buf (r.i % r.n) p ∙ h.sized;
    written = length-append_one ys p ∙ omega (arith, h.written);
    window = window_after;
  }

  ring_write-after : ring_write r p ≡ ok (after, length p)
  unfolding ring_write store
  ring_write-after =
      let (b, there) = get_elem?-some r.buf (r.i % r.n) in_range in
      rw (slot_in r.i r.n h.positive, there, ring_write, store)

-- Writes fail nowhere, and leave the last `n` of everything that was written.
ring_writes-Holds :
    (ps ys : List Bytes) (r : Ring)
    → Holds r ys
    → (r' : Ring) × (ring_writes r ps ≡ ok r') × Holds r' (ys ++ ps) × (r'.n ≡ r.n)
unfolding ring_writes
ring_writes-Holds [] ys r h = (r, refl, rw (append-nil ys) h, refl)
ring_writes-Holds (p ∷ ps) ys r h =
    let (r', go, h', same) =
      ring_writes-Holds ps (ys ++ (p ∷ [])) (after r ys p h) (after-Holds r ys p h) in
    (r', rw (ring_write-after r ys p h) go, rw (append_shift ys ps p) h', same)

-- The slices of a list that are not empty.
unfoldable pub kept : List Bytes → List Bytes
kept [] = []
kept ([] ∷ bs) = kept bs
kept ((x ∷ b) ∷ bs) = (x ∷ b) ∷ kept bs

-- The last `n` of a list.
abbrev pub recent {ℓ} : {A : Type ℓ} → ℕ → List A → List A
recent n xs = drop (length xs - n) xs

kept-append : (xs ys : List Bytes) → kept (xs ++ ys) ≡ kept xs ++ kept ys
unfolding kept
kept-append [] ys = refl
kept-append ([] ∷ xs) ys = kept-append xs ys
kept-append ((x ∷ b) ∷ xs) ys = ap (λ t. (x ∷ b) ∷ t) (kept-append xs ys)

kept-drop-replicate : (k n : ℕ) → kept (drop k (replicate n [])) ≡ []
unfolding kept
kept-drop-replicate zero zero = refl
kept-drop-replicate zero (suc n) = kept-drop-replicate zero n
kept-drop-replicate (suc k) zero = refl
kept-drop-replicate (suc k) (suc n) = kept-drop-replicate k n

drop-append_over {ℓ} :
    {A : Type ℓ} (k : ℕ) (xs ys : List A) → drop k (xs ++ ys) ≡ drop k xs ++ drop (k - length xs) ys
drop-append_over zero [] ys = refl
drop-append_over zero (x ∷ xs) ys =
    let none_left : 0 - suc (length xs) ≡ 0 = omega arith in rw none_left refl
drop-append_over (suc k) [] ys = let all : suc k - 0 ≡ suc k = omega arith in rw all refl
drop-append_over (suc k) (x ∷ xs) ys =
    let one : suc k - suc (length xs) ≡ k - length xs = omega arith in
    rw one (drop-append_over k xs ys)

ring_new-n : (n : ℕ) → (ring_new n).n ≡ n
unfolding ring_new
ring_new-n n = refl

kept-drop :
    (n : ℕ) (ps : List Bytes) → kept (drop (length ps) (replicate n [] ++ ps)) ≡ kept (recent n ps)
kept-drop n ps =
    rw
      (
        drop-append_over (length ps) (replicate n []) ps,
        length-replicate {A = Bytes} n [],
        kept-append (drop (length ps) (replicate n [])) (drop (length ps - n) ps),
        kept-drop-replicate (length ps) n,
      )
      refl

drop_here {ℓ} :
    {A : Type ℓ} (xs : List A) (i : ℕ) (x : A)
    → get_elem? xs i ≡ some x
    → drop i xs ≡ x ∷ drop (suc i) xs
drop_here [] i x e = cc e
drop_here (y ∷ xs) zero x e = cc e
drop_here (y ∷ xs) (suc i) x e = drop_here xs i x e

module _ (wr : Writer) where
  open wr use {State, write}

  unfoldable pub go_on : ℕ → State × ℕ × Option ℕ → (State → ℕ → Sent wr) → Sent wr
  go_on total (w, m, none) next = next w (total + m)
  go_on total (w, m, some e) next = (w, total + m, some e)

  -- A `Write` for each slice up to the first that fails.
  unfoldable pub send_each : List Bytes → State → ℕ → Sent wr
  send_each [] w total = (w, total, none)
  send_each (b ∷ bs) w total = go_on total (write w b) (send_each bs)

  sent-ok :
      (s : State × ℕ × Option ℕ) (total : ℕ) (f : State → ℕ → Sent wr)
      (g : State → ℕ → Outcome (Sent wr))
      → ((w : State) (t : ℕ) → g w t ≡ ok (f w t))
      → sent wr total s g ≡ ok (go_on total s f)
  unfolding sent go_on
  sent-ok (w, m, none) total f g h = h w (total + m)
  sent-ok (w, m, some e) total f g h = refl

  send-ok :
      (b : Bytes) (bs : List Bytes) (w : State) (total : ℕ) (g : State → ℕ → Outcome (Sent wr))
      → ((w : State) (t : ℕ) → g w t ≡ ok (send_each (kept bs) w t))
      → send wr b w total g ≡ ok (send_each (kept (b ∷ bs)) w total)
  unfolding send send_each kept
  send-ok [] bs w total g h = h w total
  send-ok (x ∷ b) bs w total g h = sent-ok (write w (x ∷ b)) total (send_each (kept bs)) g h

  -- The rounds from position `i + d` to the end of the window.
  loop-Holds :
      (rounds d : ℕ) (r : Ring) (ys : List Bytes) (w : State) (total : ℕ)
      → Holds r ys
      → d + rounds ≡ r.n
      → ring_write_to_loop wr rounds (r.i + d) r w total
        ≡ ok (send_each (kept (drop (r.i + d) ys)) w total)
  unfolding ring_write_to_loop kept send_each
  loop-Holds zero d r ys w total h e =
      rw (drop-all ys (r.i + d) (omega (arith, h.written)), kept, send_each) refl
  loop-Holds (suc rounds) d r ys w total h e =
      let (b, there) = get_elem?-some ys (r.i + d) (omega (arith, h.written)) in
      let slot_holds : get_elem? r.buf ((r.i + d) % r.n) ≡ some b =
        h.window d (omega arith) ∙ there in
      let next : suc (r.i + d) ≡ r.i + suc d = omega arith in
      rw
        (
          slot_in (r.i + d) r.n h.positive,
          slot_holds,
          drop_here ys (r.i + d) b there,
          next,
          ring_write_to_loop,
        )
        (send-ok b (drop (r.i + suc d) ys) w total _
          (λ w' t. loop-Holds rounds (suc d) r ys w' t h (omega arith)))

  ring_write_to-Holds :
      (r : Ring) (ys : List Bytes) (w : State)
      → Holds r ys
      → ring_write_to wr r w ≡ ok (send_each (kept (drop r.i ys)) w 0)
  unfolding ring_write_to
  ring_write_to-Holds r ys w h =
      let start : r.i + 0 ≡ r.i = omega arith in
      rw start at (loop-Holds r.n 0 r ys w 0 h (omega arith))

  -- `RingWriter` keeps the last writes: after any list of slices was written to a new one of `n > 0` slots,
  -- `WriteTo` hands the writer the last `n` of them, those that are not empty, in the order in which they
  -- were written, up to the first that the writer fails on, and neither panics.
  pub ring_write_to-recent :
      (n : ℕ) (ps : List Bytes) (w : State)
      → 0 < n
      → (r : Ring) × (ring_writes (ring_new n) ps ≡ ok r)
        × (ring_write_to wr r w ≡ ok (send_each (kept (recent n ps)) w 0))
  ring_write_to-recent n ps w h =
      let (r, go, holds, same) =
        ring_writes-Holds ps (replicate n []) (ring_new n) (ring_new-Holds n h) in
      let position : r.i ≡ length ps = omega (
        arith,
        holds.written,
        same,
        ring_new-n n,
        length-append (replicate n []) ps,
        length-replicate {A = Bytes} n [],
      ) in
      (
        r,
        go,
        ring_write_to-Holds r (replicate n [] ++ ps) w holds ∙ rw (position, kept-drop n ps) refl,
      )
