-- ===== src/Flags/Writing/Closing.antt =====
-- ext/tlflag/flag.go: what the writers of `OpenWriter` close.
use tlog.Base.{ℕ, ◌≡◌, refl, sym, ap, ◌∙◌, arith, ◌==◌, if◌then◌else◌, Bool, true, false, ◌||◌}
use tlog.Base.{Option, none, some, List, [], ◌∷◌, ◌++◌, map, append-nil, ◌⊎◌, inl, inr, Bool-cases}
use tlog.Base.Bits.{Bytes}
use tlog.Verbosity.{same_text}
use tlog.Flags.Paths.{
  Url, file_text, unix_text, unixgram_text, Wrapper, dump, lines, compressed, as_json, as_logfmt,
  page, compressed_dump, Collected, collected, unsupported_format, out_of_fuel, formats,
  writer_choice,
}
use tlog.Flags.Writing.{
  Rotation, Sink, stdout, stderr, discard, rotating, dumper, eazy, eazy_dumper, json, logfmt,
  Handle, made, Event, opened, World, Result, good, failed, Env, id_of, same_id, same, zip_rotation,
  aliased, aliased_closer, is_closer, closing, write_closer_of, add_event, used_number, eazy_on,
  wrapped, wrap_all, file_opened, openwfile, openwurl, with_closer, openwriter, finished,
  wrapped_up, after_collecting, openw, Made, is_rotating, file_mode, write_flags,
}

-- The numbers of what was opened, as events and as what is to be closed.
abbrev pub opening : List ℕ → List Event
opening ids = map opened ids

abbrev pub handles : List ℕ → List Handle
handles ids = map made ids

pub map-append {ℓ κ} :
    {A : Type ℓ} {B : Type κ} (f : A → B) (xs ys : List A) → map f (xs ++ ys) ≡ map f xs ++ map f ys
map-append f [] ys = refl
map-append f (x ∷ xs) ys = ap (λ t. f x ∷ t) (map-append f xs ys)

module _ (env : Env) where
  -- What is closed by `tlio.Close`, which looks whether it has a closer.
  unfoldable pub closing_if : Sink → List Handle
  closing_if w = if is_closer env w then closing env w else []

  -- A writer and its closer, where the closer closes `hs`, and is the writer or another object.
  abbrev Held : List Handle → Sink → Option Sink → Type 0
  Held hs w none = hs ≡ []
  Held hs w (some c) =
      (is_closer env c ≡ true)
      × (closing env c ≡ hs)
      × (((w ≡ c) × (same w c ≡ true)) ⊎ (same w c ≡ false))

  write_closer_of-closing :
      (hs : List Handle) (w : Sink) (c : Option Sink)
      → Held hs w c
      → closing_if (write_closer_of env w c) ≡ hs
  unfolding closing_if write_closer_of closing is_closer
  write_closer_of-closing hs w none e = elim (Bool-cases (is_closer env w)) [
    | inl y ↦ rw (y, e) refl
    | inr n ↦ rw (n, n, e) refl
  ]
  write_closer_of-closing hs w (some c) (y, e, inl (eq, s)) = rw (s, eq, y) e
  write_closer_of-closing hs w (some c) (y, e, inr s) = rw s e

  Held-over :
      (hs : List Handle) (w w' : Sink) (c : Option Sink)
      → id_of w' ≡ none
      → Held hs w c
      → Held hs w' c
  unfolding same same_id
  Held-over hs w w' none n h = h
  Held-over hs w w' (some c) n (y, e, s) = (y, e, inr (rw n refl))

  aliased-other :
      (i : ℕ) (f : Rotation) (c : Sink) → same (rotating i f) c ≡ false → aliased i c ≡ c
  unfolding same same_id id_of aliased
  aliased-other i f (rotating j g) h = rw h refl
  aliased-other i f _ h = refl

  zip_rotation-Held :
      (hs : List Handle) (i : ℕ) (f : Rotation) (c : Option Sink)
      → Held hs (rotating i f) c
      → Held hs (rotating i (zip_rotation f)) (aliased_closer i c)
  unfolding same same_id id_of aliased aliased_closer is_closer closing
  zip_rotation-Held hs i f none h = h
  zip_rotation-Held hs i f (some c) (y, e, inl (eq, s)) =
      let s' : (i == i) ≡ true = rw (← eq) at s in
      rw (← eq, s') (refl, rw (← eq) at e, inl (refl, s'))
  zip_rotation-Held hs i f (some c) (y, e, inr s) = rw (aliased-other i f c s) (y, e, inr s)

  Keeps : World → List Handle → Made env → Type 0
  Keeps wd hs (wd', w, c) = (wd'.events ≡ wd.events) × Held hs w c

  eazy_on-Keeps :
      (hs : List Handle) (wd : World) (w : Sink) (c : Option Sink)
      → Held hs w c
      → Keeps wd hs (eazy_on env wd w c)
  unfolding eazy_on id_of Keeps
  eazy_on-Keeps hs wd (rotating i f) c h = (refl, zip_rotation-Held hs i f c h)
  eazy_on-Keeps hs wd w c h = (refl, Held-over hs w (eazy w) c refl h)

  wrapped-Keeps :
      (hs : List Handle) (u : Url) (f : Wrapper) (wd : World) (w : Sink) (c : Option Sink)
      → Held hs w c
      → Keeps wd hs (wrapped env u f wd w c)
  unfolding Keeps wrapped id_of
  wrapped-Keeps hs u dump wd w c h = (refl, Held-over hs w (dumper w) c refl h)
  wrapped-Keeps hs u lines wd w c h = (refl, Held-over hs w _ c refl h)
  wrapped-Keeps hs u compressed wd w c h = eazy_on-Keeps hs wd w c h
  wrapped-Keeps hs u as_json wd w c h = (refl, Held-over hs w (json w) c refl h)
  wrapped-Keeps hs u as_logfmt wd w c h = (refl, Held-over hs w (logfmt w) c refl h)
  wrapped-Keeps hs u page wd w c h =
      unfold is_closer closing closing_if used_number same same_id in
      (refl, (refl, write_closer_of-closing hs w c h, inl (refl, ground arith)))
  wrapped-Keeps hs u compressed_dump wd w c h =
      (refl, Held-over hs w (eazy (eazy_dumper w)) c refl h)

  wrap_all-Keeps :
      (hs : List Handle) (u : Url) (fs : List Wrapper) (wd : World) (w : Sink) (c : Option Sink)
      → Held hs w c
      → Keeps wd hs (wrap_all env u fs wd w c)
  unfolding Keeps wrap_all
  wrap_all-Keeps hs u [] wd w c h = (refl, h)
  wrap_all-Keeps hs u (f ∷ fs) wd w c h =
      let (wd', w', c') = wrapped env u f wd w c in
      let (same_events, held) = wrapped-Keeps hs u f wd w c h in
      let (later, held') = wrap_all-Keeps hs u fs wd' w' c' held in (later ∙ same_events, held')

  -- A run that opens the objects `ids` has added their events, and no other.
  abbrev pub Adds : World → List ℕ → World → Type 0
  Adds wd ids wd' = wd'.events ≡ wd.events ++ opening ids

  -- A writer with its closer, or an error and nothing opened.
  Sourced : World → World × Result (Sink × Option Sink) → Type 0
  Sourced wd (wd', failed e) = Adds wd [] wd'
  Sourced wd (wd', good (w, c)) = (ids : List ℕ) × Adds wd ids wd' × Held (handles ids) w c

  Fresh : World → World × Result Sink → Type 0
  Fresh wd (wd', failed e) = Adds wd [] wd'
  Fresh wd (wd', good w) =
      Adds wd (wd.next ∷ []) wd'
      × (is_closer env w ≡ true)
      × (closing env w ≡ made wd.next ∷ [])
      × (same w w ≡ true)

  file_opened-Fresh : (wd : World) (e : Option ℕ) → Fresh wd (file_opened env wd e)
  unfolding Fresh file_opened is_closer closing same same_id id_of add_event used_number
  file_opened-Fresh wd none = (refl, refl, refl, ground arith)
  file_opened-Fresh wd (some e) = sym (append-nil wd.events)

  openwfile-Fresh : (wd : World) (u : Url) → Fresh wd (openwfile env wd u)
  unfolding openwfile is_closer closing same same_id id_of add_event Fresh
  openwfile-Fresh wd u = elim (Bool-cases (is_rotating env u)) [
    | inl y ↦ rw y (refl, refl, refl, ground arith)
    | inr n ↦
        rw n (file_opened-Fresh wd (env.open_file wd.next u.path (write_flags env u) file_mode))
  ]

  openwurl-Fresh : (wd : World) (u : Url) → Fresh wd (openwurl env wd u)
  unfolding openwurl
  openwurl-Fresh wd u = elim (Bool-cases (same_text u.scheme file_text)) [
    | inl y ↦ rw y (openwfile-Fresh wd u)
    | inr n ↦ elim (Bool-cases (same_text u.scheme unix_text || same_text u.scheme unixgram_text)) [
      | inl y ↦
          unfold is_closer closing same same_id id_of add_event Fresh in
          rw (n, y) (refl, refl, refl, ground arith)
      | inr m ↦ unfold Fresh in rw (n, m) (sym (append-nil wd.events))
    ]
  ]

  with_closer-Sourced :
      (wd : World) (r : World × Result Sink) → Fresh wd r → Sourced wd (with_closer env r)
  unfolding Sourced Fresh with_closer
  with_closer-Sourced wd (wd', failed e) h = h
  with_closer-Sourced wd (wd', good w) (adds, y, c, s) =
      (wd.next ∷ [], adds, rw y (y, c, inl (refl, s)))

  std-Sourced : (wd : World) (w : Sink) → Sourced wd (wd, good (w, none))
  unfolding Sourced
  std-Sourced wd w = ([], sym (append-nil wd.events), refl)

  Sourced-if :
      (wd : World) (b : Bool) (x y : World × Result (Sink × Option Sink))
      → Sourced wd x
      → Sourced wd y
      → Sourced wd (if b then x else y)
  Sourced-if wd true x y hx hy = hx
  Sourced-if wd false x y hx hy = hy

  addressed-Fresh :
      (wd : World) (u : Url) (b : Bool)
      → Fresh wd (if b then openwurl env wd u else openwfile env wd u)
  addressed-Fresh wd u true = openwurl-Fresh wd u
  addressed-Fresh wd u false = openwfile-Fresh wd u

  openwriter-Sourced : (wd : World) (u : Url) (base : Bytes) → Sourced wd (openwriter env wd u base)
  unfolding openwriter
  openwriter-Sourced wd u base = Sourced-if wd _ _ _ (std-Sourced wd stdout) (
      Sourced-if wd _ _ _ (std-Sourced wd stderr) (
        Sourced-if wd _ _ _ (std-Sourced wd discard)
          (with_closer-Sourced wd _ (addressed-Fresh wd u _))))

  -- A writer that closes what was opened for it, or an error and nothing opened.
  unfoldable pub Owned : World → World × Result Sink → Type 0
  Owned wd (wd', failed e) = Adds wd [] wd'
  Owned wd (wd', good w) = (ids : List ℕ) × Adds wd ids wd' × (closing_if w ≡ handles ids)

  wrapped_up-Owned :
      (wd : World) (u : Url) (fs : List Wrapper) (r : World × Result (Sink × Option Sink))
      → Sourced wd r
      → Owned wd (wrapped_up env u fs r)
  unfolding Owned Sourced wrapped_up finished Keeps
  wrapped_up-Owned wd u fs (wd', failed e) h = h
  wrapped_up-Owned wd u fs (wd', good (w, c)) (ids, adds, held) =
      let (wd'', w', c') = wrap_all env u fs wd' w c in
      let (same_events, held') = wrap_all-Keeps (handles ids) u fs wd' w c held in
      (ids, same_events ∙ adds, write_closer_of-closing (handles ids) w' c' held')

  after_collecting-Owned :
      (wd : World) (u : Url) (p : Collected) → Owned wd (after_collecting env wd u p)
  unfolding Owned after_collecting
  after_collecting-Owned wd u (collected fs base) =
      wrapped_up-Owned wd u fs (openwriter env wd u base) (openwriter-Sourced wd u base)
  after_collecting-Owned wd u (unsupported_format ext) = sym (append-nil wd.events)
  after_collecting-Owned wd u out_of_fuel = sym (append-nil wd.events)

  pub openw-Owned : (wd : World) (u : Url) → Owned wd (openw env wd u)
  unfolding openw
  openw-Owned wd u = after_collecting-Owned wd u (formats writer_choice u.path)
