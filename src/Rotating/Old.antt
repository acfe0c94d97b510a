-- ===== src/Rotating/Old.antt =====
-- `filesToRemove` of rotating/file.go: which files stay, described one by one.
use tlog.Base.{ℕ, zero, suc, ◌+◌, ◌-◌, ◌<◌, ◌≤◌, ◌≡◌, ◌≢◌, refl, arith, ◌==◌, leb, ltb, ltb→lt}
use tlog.Base.{
  Bool, true, false, ◌&&◌, ◌||◌, not, Bool-cases, Option-cases, Option, none, some, ◌⊎◌, inl, inr,
}
use tlog.Base.{List, length, get_elem?, take, get_elem?-some, length-take}
use tlog.Base.Bits.{Bytes}
use tlog.Base.Outcome.{ok}
use tlog.Rotating.{bytes_leb, Limits, Info, is_young, is_old, remove_up_to, goes_on}
use tlog.Rotating.{removal_loop, files_to_remove}
use tlog.Rotating.Before.{Sorted, get_elem?-take, get_elem?-bound, before_is, Last-before}

module _ (l : Limits) (stat : Bytes → Option Info) (now : ℕ) where
  -- Whether the age of a file with a time is within a limit, and whether it is above one.
  unfoldable pub age_within : ℕ → Option ℕ → Bool
  age_within limit none = false
  age_within limit (some c) = not (ltb (c + limit) now)

  unfoldable pub age_above : ℕ → Option ℕ → Bool
  age_above limit none = false
  age_above limit (some c) = ltb (c + limit) now

  is_young-age_within :
      (inf : Info) (limit : ℕ) → is_young now inf limit ≡ age_within limit inf.ctime
  unfolding is_young age_within
  is_young-age_within inf limit = elim (Option-cases inf.ctime) [
    | inl e ↦ rw e refl
    | inr (c, e) ↦ rw e (ground arith)
  ]

  is_old-age_above : (inf : Info) (limit : ℕ) → is_old now inf limit ≡ age_above limit inf.ctime
  unfolding is_old age_above
  is_old-age_above inf limit = elim (Option-cases inf.ctime) [
    | inl e ↦ rw e refl
    | inr (c, e) ↦ rw e refl
  ]

  -- A test that holds of the file at a position, and its size.
  unfoldable pub file_test : (Info → Bool) → List Bytes → ℕ → Bool
  file_test t files j = elim (get_elem? files j) [
    | none ↦ false
    | some n ↦ elim (stat n) [ none ↦ false | some inf ↦ t inf ]
  ]

  unfoldable pub weight : List Bytes → ℕ → ℕ
  weight files j = elim (get_elem? files j) [
    | none ↦ 0
    | some n ↦ elim (stat n) [ none ↦ 0 | some inf ↦ inf.size ]
  ]

  -- The sizes of the `count` files from position `j` on.
  unfoldable pub sizes : List Bytes → ℕ → ℕ → ℕ
  sizes files j zero = 0
  sizes files j (suc count) = weight files j + sizes files (suc j) count

  unfoldable pub within : ℕ → ℕ → Bool
  within limit n = limit == 0 || leb n limit

  -- Whether file `j` of `files`, the oldest first, may stay: with it and the newer ones the size is within its
  -- limit, and it is young, or it is not too old and not one too many.
  unfoldable pub stays : List Bytes → ℕ → Bool
  stays files j =
      within l.max_total_size (sizes files j (length files - j))
      && ((not (l.min_age == 0) && file_test (λ inf. age_within l.min_age inf.ctime) files j)
          || ((l.max_total_age == 0
                || not (file_test (λ inf. age_above l.max_total_age inf.ctime) files j))
              && within l.max_total_files (length files - j + 1)))

  file_test-found :
      (t : Info → Bool) (files : List Bytes) (j : ℕ) (n : Bytes) (inf : Info)
      → get_elem? files j ≡ some n
      → stat n ≡ some inf
      → file_test t files j ≡ t inf
  unfolding file_test
  file_test-found t files j n inf e s = rw (e, s, file_test) refl

  weight-found :
      (files : List Bytes) (j : ℕ) (n : Bytes) (inf : Info)
      → get_elem? files j ≡ some n
      → stat n ≡ some inf
      → weight files j ≡ inf.size
  unfolding weight
  weight-found files j n inf e s = rw (e, s, weight) refl

  goes_on-stays :
      (files : List Bytes) (j : ℕ) (n : Bytes) (inf : Info)
      → get_elem? files j ≡ some n
      → stat n ≡ some inf
      → goes_on l stat now (length files) j inf (sizes files j (length files - j)) ≡ stays files j
  unfolding goes_on stays within
  goes_on-stays files j n inf e s = ground (
    arith,
    is_young-age_within inf l.min_age,
    is_old-age_above inf l.max_total_age,
    file_test-found (λ inf. age_within l.min_age inf.ctime) files j n inf e s,
    file_test-found (λ inf. age_above l.max_total_age inf.ctime) files j n inf e s,
  )

  -- Every file can be looked at.
  abbrev pub Found : List Bytes → Type 0
  Found files = (j : ℕ) (n : Bytes) → get_elem? files j ≡ some n → stat n ≢ none

  -- The files from `q` on stay, and the one before them does not.
  pub record Parted (files : List Bytes) (p q : ℕ) : Type 0 where
    pub inside : q ≤ p
    pub stay : (j : ℕ) → q ≤ j → j < p → stays files j ≡ true
    pub first : (q ≡ 0) ⊎ (stays files (q - 1) ≡ false)

  sizes-step :
      (files : List Bytes) (j : ℕ)
      → j < length files
      → sizes files j (length files - j)
        ≡ weight files j + sizes files (suc j) (length files - suc j)
  unfolding sizes
  sizes-step files j h =
      let one : length files - j ≡ suc (length files - suc j) = omega arith in rw one refl

  Parted-next :
      (files : List Bytes) (prev q : ℕ)
      → stays files prev ≡ true
      → ((j : ℕ) → q ≤ j → j < prev → stays files j ≡ true)
      → (j : ℕ) → q ≤ j
      → j < suc prev
      → stays files j ≡ true
  Parted-next files prev q now_stays h j lo hi = elim (Bool-cases (ltb j prev)) [
    | inl below ↦ h j lo (ltb→lt j prev below)
    | inr here ↦ let same : j ≡ prev = ground (arith, here) in rw same now_stays
  ]

  loop-Parted :
      (files : List Bytes) (p : ℕ)
      → p ≤ length files
      → Found files
      → (q : ℕ) × (removal_loop l stat now files p (sizes files p (length files - p))
          ≡ ok (remove_up_to q))
        × Parted files p q
  unfolding removal_loop
  loop-Parted files zero h found = (
    0,
    refl,
    record { inside = omega arith; stay = λ j lo hi. absurd (omega arith); first = inl refl },
  )
  loop-Parted files (suc prev) h found =
      let (n, e) = get_elem?-some files prev (omega arith) in
      elim (Option-cases (stat n)) [
        | inl lost ↦ absurd (found prev n e lost)
        | inr (inf, s) ↦
            let more : sizes files (suc prev) (length files - suc prev) + inf.size
                ≡ sizes files prev (length files - prev) =
              omega
                (arith, sizes-step files prev (omega arith), weight-found files prev n inf e s) in
            elim (Bool-cases (stays files prev)) [
              | inl on ↦
                  let (q, go, parted) = loop-Parted files prev (omega arith) found in
                  (
                    q,
                    rw (e, s, more, goes_on-stays files prev n inf e s, on, removal_loop) go,
                    record {
                      inside = omega (arith, parted.inside);
                      stay = Parted-next files prev q on parted.stay;
                      first = parted.first;
                    },
                  )
              | inr stop ↦
                  let back : suc prev - 1 ≡ prev = omega arith in
                  (
                    suc prev,
                    rw (e, s, more, goes_on-stays files prev n inf e s, stop, removal_loop) refl,
                    record {
                      inside = omega arith;
                      stay = λ j lo hi. absurd (omega arith);
                      first = inr (rw back stop);
                    },
                  )
            ]
      ]

  -- `filesToRemove` never fails where every file can be looked at. In a sorted directory the first `p` files are
  -- those before `base`, and of these it returns the oldest, up to the newest that may not stay: each later one is
  -- within the limit of the size, and it is young, or neither too old nor one too many. Neither `base` nor a
  -- later file is returned.
  pub files_to_remove-Parted :
      (base : Bytes) (files : List Bytes)
      → Found files
      → Sorted files
      → (p q : ℕ) × (p ≤ length files)
        × ((i : ℕ) (a : Bytes) → get_elem? files i ≡ some a → i < p → bytes_leb base a ≡ false)
        × ((i : ℕ) (a : Bytes) → get_elem? files i ≡ some a → p ≤ i → bytes_leb base a ≡ true)
        × (files_to_remove l stat now base files ≡ ok (inl (take q (take p files))))
        × Parted (take p files) p q
  unfolding files_to_remove sizes
  files_to_remove-Parted base files found sorted =
      let (p, start, inside, last, from) = before_is base files (length files) (omega arith) in
      let size : length (take p files) ≡ p = omega (arith, length-take p files) in
      let (q, go, parted) =
        loop-Parted (take p files) p (omega (arith, size))
          (λ j n e. found j n (get_elem?-take p files j n e)) in
      let all : length (take p files) - p ≡ 0 = omega (arith, size) in
      (
        p,
        q,
        inside,
        (λ i a e lo. Last-before base files p i a sorted last lo e),
        (λ i a e lo. from i a e lo (get_elem?-bound files i a e)),
        rw (start, (rw all at go), files_to_remove) refl,
        parted,
      )
