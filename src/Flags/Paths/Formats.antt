-- ===== src/Flags/Paths/Formats.antt =====
-- ext/tlflag/flag.go: the loop of `openwc` and `openrc` over the extensions of a path.
use tlog.Base.{ℕ, zero, suc, ◌+◌, ◌-◌, ◌≤◌, ◌<◌, ◌≡◌, ◌≢◌, refl, sym, ap, ◌∙◌, arith, ◌==◌}
use tlog.Base.{false, not, ◌&&◌, List, [], ◌∷◌, ◌++◌, All, Bool-cases, inl, inr}
use tlog.Base.{append_assoc, append-nil, replicate, length, length-append, take-append}
use tlog.Base.Bits.{Bytes}
use tlog.Rotating.Names.{has_suffix-append}
use tlog.Verbosity.{same_text}
use tlog.Flags.Paths.{
  is_empty, has_slash, path_ext, trim_suffix, Wrapper, compressed, Choice, plain, last, again,
  unsupported, Collected, collected, out_of_fuel, chosen, collect, formats, writer_choice,
  reader_choice, ez_ext, is_one_of,
}

trim_suffix-append : (p x : Bytes) → trim_suffix (p ++ x) x ≡ p
unfolding trim_suffix
trim_suffix-append p x =
    let e : length (p ++ x) - length x ≡ length p = omega (arith, length-append p x) in
    rw (has_suffix-append p x, e) (take-append p x)

-- A path is what stands before its extension, and the extension.
path_ext_cut : (s : Bytes) → (p : Bytes) × (s ≡ p ++ path_ext s)
unfolding path_ext
path_ext_cut [] = ([], refl)
path_ext_cut (c ∷ s) = elim (Bool-cases (not (is_empty (path_ext s)))) [
  | inl e ↦ let (p, cut) = path_ext_cut s in (c ∷ p, rw e (ap (λ x. c ∷ x) cut))
  | inr n ↦ elim (Bool-cases (c == b'.' && not (has_slash s))) [
    | inl d ↦ ([], rw (n, d) refl)
    | inr o ↦ (c ∷ s, rw (n, o) (ap (λ x. c ∷ x) (sym (append-nil s))))
  ]
]

trimmed_shorter : (s : Bytes) → path_ext s ≢ [] → length (trim_suffix s (path_ext s)) < length s
trimmed_shorter s n =
    let (p, cut) = path_ext_cut s in
    let e : trim_suffix s (path_ext s) ≡ p =
      ap (λ t. trim_suffix t (path_ext s)) cut ∙ trim_suffix-append p (path_ext s) in
    let l : length s ≡ length p + length (path_ext s) =
      ap length cut ∙ length-append p (path_ext s) in
    rw e (omega (arith, l, nonempty (path_ext s) n))
  where
    nonempty : (t : Bytes) → t ≢ [] → 0 < length t
    nonempty [] n = absurd (n refl)
    nonempty (c ∷ t) n = omega arith

-- No choice asks for another look where there is no extension.
abbrev Settles : (Bytes → Choice) → Type 0
Settles choice = (f : Wrapper) → choice [] ≢ again f

chosen-fuel :
    (wrap : List Wrapper) (base ext : Bytes) (c : Choice) (more : List Wrapper → Collected)
    → ((f : Wrapper) → c ≡ again f → more (wrap ++ (f ∷ [])) ≢ out_of_fuel)
    → chosen wrap base ext c more ≢ out_of_fuel
unfolding chosen
chosen-fuel wrap base ext plain more h = cc
chosen-fuel wrap base ext (last f) more h = cc
chosen-fuel wrap base ext (again f) more h = h f refl
chosen-fuel wrap base ext unsupported more h = cc

module _ (choice : Bytes → Choice) (settles : Settles choice) where
  collect-fuel :
      (fuel : ℕ) (wrap : List Wrapper) (base : Bytes)
      → length base < fuel
      → collect choice fuel wrap base ≢ out_of_fuel
  unfolding collect
  collect-fuel zero wrap base h = absurd (omega arith)
  collect-fuel (suc fuel) wrap base h =
      let base' = trim_suffix base (path_ext base) in
      chosen-fuel wrap base' (path_ext base) (choice (path_ext base))
        (λ wrap'. collect choice fuel wrap' base')
        (λ f e.
          collect-fuel fuel (wrap ++ (f ∷ [])) base'
            (omega (arith, trimmed_shorter base (λ n. settles f (sym (ap choice n) ∙ e)))))

-- The loops of `openwc` and `openrc` over the extensions of a path end: each jump to `more` has made the
-- path shorter.
pub formats-ends :
    (base : Bytes)
    → (formats writer_choice base ≢ out_of_fuel) × (formats reader_choice base ≢ out_of_fuel)
unfolding formats
formats-ends base = (
  collect-fuel writer_choice (λ f. unfold writer_choice is_one_of same_text in cc)
      (suc (length base)) [] base (omega arith),
  collect-fuel reader_choice (λ f. unfold reader_choice is_one_of same_text is_empty in cc)
      (suc (length base)) [] base (omega arith),
)

-- The letters of an extension.
abbrev pub IsLetter : ℕ → Type 0
IsLetter c = ((c == b'.') ≡ false) × ((c == b'/') ≡ false)

letters-no_slash : (t : Bytes) → All IsLetter t → has_slash t ≡ false
unfolding has_slash
letters-no_slash [] h = refl
letters-no_slash (c ∷ t) h = rw (h.0.1, letters-no_slash t h.1) refl

path_ext-letters : (t : Bytes) → All IsLetter t → path_ext t ≡ []
unfolding path_ext is_empty
path_ext-letters [] h = refl
path_ext-letters (c ∷ t) h = rw (path_ext-letters t h.1, h.0.0) refl

path_ext-append : (b t : Bytes) → All IsLetter t → path_ext (b ++ (b'.' ∷ t)) ≡ b'.' ∷ t
unfolding path_ext is_empty
path_ext-append [] t h = rw (path_ext-letters t h, letters-no_slash t h) refl
path_ext-append (c ∷ b) t h = rw (path_ext-append b t h) refl

-- A path with a number of `.ez` behind it.
unfoldable pub zipped : ℕ → Bytes → Bytes
zipped zero s = s
zipped (suc k) s = zipped k s ++ ez_ext

length-zipped : (k : ℕ) (s : Bytes) → k + length s ≤ length (zipped k s)
unfolding zipped
length-zipped zero s = omega arith
length-zipped (suc k) s = omega (arith, length-zipped k s, length-append (zipped k s) ez_ext)

ez_ext-letters : All IsLetter (b'e' ∷ b'z' ∷ [])
ez_ext-letters = ((refl, refl), ((refl, refl), tt))

choice_ez : writer_choice ez_ext ≡ again compressed
unfolding writer_choice is_one_of same_text
choice_ez = refl

collect-ez :
    (fuel : ℕ) (wrap : List Wrapper) (s : Bytes)
    → collect writer_choice (suc fuel) wrap (s ++ ez_ext)
      ≡ collect writer_choice fuel (wrap ++ (compressed ∷ [])) s
unfolding chosen collect
collect-ez fuel wrap s =
    rw (path_ext-append s (b'e' ∷ b'z' ∷ []) ez_ext-letters, trim_suffix-append s ez_ext, choice_ez)
      refl

replicate_shift :
    (k : ℕ) (wrap : List Wrapper) (s : List Wrapper)
    → (wrap ++ (compressed ∷ [])) ++ (replicate k compressed ++ s)
      ≡ wrap ++ (compressed ∷ (replicate k compressed ++ s))
replicate_shift k wrap s = append_assoc wrap (compressed ∷ []) (replicate k compressed ++ s)

collect-zipped :
    (k fuel : ℕ) (wrap : List Wrapper) (b t : Bytes) (f : Wrapper)
    → All IsLetter t
    → writer_choice (b'.' ∷ t) ≡ last f
    → k < fuel
    → collect writer_choice fuel wrap (zipped k (b ++ (b'.' ∷ t)))
      ≡ collected (wrap ++ (replicate k compressed ++ (f ∷ []))) b
unfolding zipped chosen collect
collect-zipped k zero wrap b t f h e lt = absurd (omega arith)
collect-zipped zero (suc fuel) wrap b t f h e lt =
    rw (path_ext-append b t h, trim_suffix-append b (b'.' ∷ t), e) refl
collect-zipped (suc k) (suc fuel) wrap b t f h e lt =
    collect-ez fuel wrap (zipped k (b ++ (b'.' ∷ t)))
    ∙ collect-zipped k fuel (wrap ++ (compressed ∷ [])) b t f h e (omega arith)
    ∙ ap (λ w. collected w b) (replicate_shift k wrap (f ∷ []))

-- A path with the extension of a format and any number of `.ez` behind it: the compressors stand next to
-- the file, and the format is put on them. `b` is what is looked at for stdout, stderr and discard.
pub formats-zipped :
    (k : ℕ) (b t : Bytes) (f : Wrapper)
    → All IsLetter t
    → writer_choice (b'.' ∷ t) ≡ last f
    → formats writer_choice (zipped k (b ++ (b'.' ∷ t)))
      ≡ collected (replicate k compressed ++ (f ∷ [])) b
unfolding formats
formats-zipped k b t f h e =
    collect-zipped k (suc (length (zipped k (b ++ (b'.' ∷ t))))) [] b t f h e
      (omega (arith, length-zipped k (b ++ (b'.' ∷ t))))
