-- ===== src/Flags/Reading/Closing.antt =====
-- ext/tlflag/flag.go: what the reader of `OpenReader` closes.
use tlog.Base.{ℕ, ◌≡◌, refl, sym, if◌then◌else◌, Bool, true, false, ◌||◌}
use tlog.Base.{Option, none, some, List, [], ◌∷◌, ◌++◌, map, append-nil, ◌⊎◌, inl, inr, Bool-cases}
use tlog.Base.Bits.{Bytes}
use tlog.Verbosity.{same_text}
use tlog.Flags.Paths.{
  Url, UrlError, parse_url, file_text, pipe_text, fifo_text, Wrapper, Collected, collected,
  unsupported_format, out_of_fuel, formats, reader_choice,
}
use tlog.Flags.Writing.{opened, World, FlagError, seek_failed, Result, good, failed, same_id}
use tlog.Flags.Reading.{
  Source, stdin, os_file, re_reader, eazy, nop_closer, read_closer, Env, id_of, same, opened_next,
  open_result, is_closer, closing, os_open_file, re_readable, re_read, open_file_reader, openrfile,
  openrurl, parts, openreader, wrap_all, read_closer_of, wrapped_up, after_collecting, openr,
  read_closer_or_nop, open_parsed, open_reader,
}

module _ (env : Env) where
  -- Nothing was opened, or one file.
  abbrev Adds : World → List ℕ → World → Type 0
  Adds wd ids wd' = wd'.events ≡ wd.events ++ map opened ids

  -- An error: nothing was opened, or a file was, and its `Seek` failed.
  abbrev Lost : World → World → FlagError → Type 0
  Lost wd wd' e = Adds wd [] wd' ⊎ (Adds wd (wd.next ∷ []) wd' × ((n : ℕ) × (e ≡ seek_failed n)))

  -- The reader is a closer, and its `Close` closes what was opened for it, and nothing else.
  unfoldable pub Owned : World → World × Result Source → Type 0
  Owned wd (wd', failed e) = Lost wd wd' e
  Owned wd (wd', good r) =
      (ids : List ℕ) × Adds wd ids wd'
      × (is_closer env r ≡ true)
      × (closing env r ≡ map os_file ids)

  nothing_added : (wd : World) → Adds wd [] wd
  nothing_added wd = sym (append-nil wd.events)

  -- A file that was just opened, or an error and nothing opened.
  IsNew : World → World × Result Source → Type 0
  IsNew wd (wd', failed e) = Adds wd [] wd'
  IsNew wd (wd', good r) = Adds wd (wd.next ∷ []) wd' × (r ≡ os_file wd.next)

  open_result-IsNew : (wd : World) (e : Option ℕ) → IsNew wd (open_result wd e)
  unfolding IsNew open_result opened_next
  open_result-IsNew wd none = (refl, refl)
  open_result-IsNew wd (some e) = nothing_added wd

  -- What `openreader` gets: a file, or a `ReadCloser` of a file and a reader on it.
  Given : World → World × Result Source → Type 0
  Given wd (wd', failed e) = Lost wd wd' e
  Given wd (wd', good r) =
      Adds wd (wd.next ∷ []) wd'
      × ((r ≡ os_file wd.next) ⊎ (r ≡ read_closer (re_reader wd.next) (os_file wd.next)))

  IsNew-Given : (wd : World) (r : World × Result Source) → IsNew wd r → Given wd r
  unfolding IsNew Given
  IsNew-Given wd (wd', failed e) h = inl h
  IsNew-Given wd (wd', good r) (adds, e) = (adds, inl e)

  re_readable-Given :
      (wd wd' : World) (e : Option ℕ)
      → Adds wd (wd.next ∷ []) wd'
      → Given wd (re_readable env wd' (os_file wd.next) e)
  unfolding Given re_readable
  re_readable-Given wd wd' none h = (h, inr refl)
  re_readable-Given wd wd' (some e) h = inr (h, (e, refl))

  re_read-Given :
      (wd : World) (r : World × Result Source) → IsNew wd r → Given wd (re_read env r wd.next)
  unfolding IsNew Given re_read
  re_read-Given wd (wd', failed e) h = inl h
  re_read-Given wd (wd', good r) (adds, e) =
      rw e (re_readable-Given wd wd' (env.seek_current wd.next) adds)

  openrfile-Given : (wd : World) (u : Url) → Given wd (openrfile env wd u)
  unfolding openrfile open_file_reader os_open_file
  openrfile-Given wd u =
      re_read-Given wd (open_result wd (env.open_file wd.next u.path))
        (open_result-IsNew wd (env.open_file wd.next u.path))

  openrurl-Given : (wd : World) (u : Url) → Given wd (openrurl env wd u)
  unfolding openrurl os_open_file
  openrurl-Given wd u = elim (Bool-cases (same_text u.scheme file_text)) [
    | inl y ↦ rw y (openrfile-Given wd u)
    | inr n ↦ elim (Bool-cases (same_text u.scheme pipe_text || same_text u.scheme fifo_text)) [
      | inl y ↦ rw (n, y) (IsNew-Given wd _ (open_result-IsNew wd (env.open_file wd.next u.path)))
      | inr m ↦ unfold Given in rw (n, m) (inl (nothing_added wd))
    ]
  ]

  addressed-Given :
      (wd : World) (u : Url) (b : Bool)
      → Given wd (if b then openrurl env wd u else openrfile env wd u)
  addressed-Given wd u true = openrurl-Given wd u
  addressed-Given wd u false = openrfile-Given wd u

  -- A reader and its closer.
  abbrev Held : List ℕ → Source → Option Source → Type 0
  Held ids r none = ids ≡ []
  Held ids r (some c) =
      (is_closer env c ≡ true) × (closing env c ≡ map os_file ids) × ((r ≡ c) ⊎ (same r c ≡ false))

  Sourced : World → World × Result (Source × Option Source) → Type 0
  Sourced wd (wd', failed e) = Lost wd wd' e
  Sourced wd (wd', good (r, c)) = (ids : List ℕ) × Adds wd ids wd' × Held ids r c

  parts-Sourced : (wd : World) (r : World × Result Source) → Given wd r → Sourced wd (parts env r)
  unfolding Given Sourced parts is_closer closing same same_id id_of
  parts-Sourced wd (wd', failed e) h = h
  parts-Sourced wd (wd', good r) (adds, inl e) = rw e (wd.next ∷ [], adds, (refl, refl, inl refl))
  parts-Sourced wd (wd', good r) (adds, inr e) = rw e (wd.next ∷ [], adds, (refl, refl, inr refl))

  stdin-Sourced : (wd : World) → Sourced wd (wd, good (stdin, none))
  unfolding Sourced
  stdin-Sourced wd = ([], nothing_added wd, refl)

  openreader-Sourced : (wd : World) (u : Url) (base : Bytes) → Sourced wd (openreader env wd u base)
  unfolding openreader
  openreader-Sourced wd u base =
      Sourced-if wd _ _ _ (stdin-Sourced wd) (parts-Sourced wd _ (addressed-Given wd u _))
    where
      Sourced-if :
          (wd : World) (b : Bool) (x y : World × Result (Source × Option Source))
          → Sourced wd x
          → Sourced wd y
          → Sourced wd (if b then x else y)
      Sourced-if wd true x y hx hy = hx
      Sourced-if wd false x y hx hy = hy

  eazy-Held : (ids : List ℕ) (r : Source) (c : Option Source) → Held ids r c → Held ids (eazy r) c
  unfolding same same_id id_of
  eazy-Held ids r none h = h
  eazy-Held ids r (some c) (y, e, s) = (y, e, inr refl)

  wrap_all-Held :
      (fs : List Wrapper) (ids : List ℕ) (r : Source) (c : Option Source)
      → Held ids r c
      → Held ids (wrap_all env fs r) c
  unfolding wrap_all
  wrap_all-Held [] ids r c h = h
  wrap_all-Held (f ∷ fs) ids r c h = wrap_all-Held fs ids (eazy r) c (eazy-Held ids r c h)

  -- The closer that a reader is, once `OpenReader` has put a `NopCloser` on one that is none.
  abbrev whole : Source → Source
  whole r = if is_closer env r then r else nop_closer r

  read_closer_of-closing :
      (ids : List ℕ) (r : Source) (c : Option Source)
      → Held ids r c
      → (is_closer env (whole (read_closer_of env r c)) ≡ true)
        × (closing env (whole (read_closer_of env r c)) ≡ map os_file ids)
  unfolding read_closer_of is_closer closing
  read_closer_of-closing ids r none h = elim (Bool-cases (is_closer env r)) [
    | inl y ↦ rw (y, h) (refl, refl)
    | inr n ↦ rw (n, n, h) (refl, refl)
  ]
  read_closer_of-closing ids r (some c) (y, e, inl same_one) = elim (Bool-cases (same r c)) [
    | inl s ↦ rw (s, same_one, y) (y, e)
    | inr n ↦ rw n (refl, e)
  ]
  read_closer_of-closing ids r (some c) (y, e, inr n) = rw n (refl, e)

  wrapped_up-Owned :
      (wd : World) (fs : List Wrapper) (r : World × Result (Source × Option Source))
      → Sourced wd r
      → Owned wd (read_closer_or_nop env (wrapped_up env fs r))
  unfolding Owned Sourced wrapped_up read_closer_or_nop
  wrapped_up-Owned wd fs (wd', failed e) h = h
  wrapped_up-Owned wd fs (wd', good (r, c)) (ids, adds, held) =
      let (y, e) =
        read_closer_of-closing ids (wrap_all env fs r) c (wrap_all-Held fs ids r c held) in
      (ids, adds, y, e)

  after_collecting-Owned :
      (wd : World) (u : Url) (p : Collected)
      → Owned wd (read_closer_or_nop env (after_collecting env wd u p))
  unfolding after_collecting read_closer_or_nop Owned
  after_collecting-Owned wd u (collected fs base) =
      wrapped_up-Owned wd fs (openreader env wd u base) (openreader-Sourced wd u base)
  after_collecting-Owned wd u (unsupported_format ext) = inl (nothing_added wd)
  after_collecting-Owned wd u out_of_fuel = inl (nothing_added wd)

  open_parsed-Owned : (wd : World) (u : Url ⊎ UrlError) → Owned wd (open_parsed env wd u)
  unfolding open_parsed openr Owned
  open_parsed-Owned wd (inr e) = inl (nothing_added wd)
  open_parsed-Owned wd (inl u) = after_collecting-Owned wd u (formats reader_choice u.path)

  -- `OpenReader` returns a closer whose `Close` closes the file that was opened, if there is one, and nothing
  -- else: stdin stays open; where it fails no file was opened, or the one that was could not seek, which stays open.
  pub open_reader-Owned : (wd : World) (src : Bytes) → Owned wd (open_reader env wd src)
  unfolding open_reader
  open_reader-Owned wd src = open_parsed-Owned wd (parse_url env.join env.url_parse src)
