-- ===== src/Agent/Places.antt =====
-- The files of agent/agent.go and the offsets that the agent keeps of them.
use tlog.Base.{ℕ, ◌+◌, ◌-◌, ◌%◌, ◌<◌, ◌≡◌, refl, ap, ◌∙◌, ◌==◌, ltb, true, false}
use tlog.Base.{◌&&◌, not, Bool-cases, Option, none, some, ◌⊎◌, inl, inr, length, replicate}
use tlog.Base.Bits.{Bytes}
use tlog.Agent.{
  Env, Sizes, File, Stream, Padded, Written, sought, truncated, filled, pad_file, put, put_first,
  indexed, put_block, after_padding, in_blocks, in_new_file, needs_file, to_file, compressed,
  write_file, AgentError, compress_failed, open_failed, truncate_failed, seek_failed,
  padding_failed, write_failed,
}
use tlog.Agent.Blocks.{Honest, Good, write_file-Good}

-- An error after which the file is as the agent knows it: no bytes of a `Write` that failed are in it, and it was
-- not cut with no `Seek` after it.
abbrev pub KeepsFile : Option AgentError → Type 0
KeepsFile none = Unit
KeepsFile (some (compress_failed e)) = Unit
KeepsFile (some (open_failed e)) = Unit
KeepsFile (some (truncate_failed e)) = Unit
KeepsFile (some (seek_failed e)) = true ≡ false
KeepsFile (some (padding_failed e)) = true ≡ false
KeepsFile (some (write_failed e)) = true ≡ false

module _ (env : Env) (sz : Sizes) where
  open env use {World, Ref, Zip, compress, open_file, write, truncate, seek, can_seek}

  -- Where the next `Write` to a file goes. A `Write` with no error moves it by its count, a cut and a `Seek` with no
  -- error set it, a file that is opened is new, and a call that failed to cut or to open leaves all files alone.
  pub record Places : Type 0 where
    pub at : World → Ref → ℕ
    pub written_at :
        (wd : World) (h : Ref) (b : Bytes)
        → (write wd h b).2 ≡ none
        → at (write wd h b).0 h ≡ at wd h + (write wd h b).1
    pub sought_at :
        (wd : World) (h : Ref) (off : ℕ)
        → (seek (truncate wd h off).0 h off).2 ≡ none
        → at (seek (truncate wd h off).0 h off).0 h ≡ (seek (truncate wd h off).0 h off).1
    pub uncut_at :
        (wd : World) (h : Ref) (off e : ℕ)
        → (truncate wd h off).1 ≡ some e
        → at (truncate wd h off).0 h ≡ at wd h
    pub new_at :
        (wd : World) (part ts : ℕ) (h : Ref)
        → (open_file wd part ts).1 ≡ inl h
        → at (open_file wd part ts).0 h ≡ 0
    pub unopened_at :
        (wd : World) (part ts e : ℕ) (h : Ref)
        → (open_file wd part ts).1 ≡ inr e
        → at (open_file wd part ts).0 h ≡ at wd h

  module _ (places : Places) where
    open places use {at, written_at, sought_at, uncut_at, new_at, unopened_at}

    abbrev pub InFile : World → Option (File Ref) → Type 0
    InFile wd none = Unit
    InFile wd (some f) = at wd f.w ≡ f.off

    abbrev pub Kept : Written env sz → Type 0
    Kept (wd, s, n, e) = KeepsFile e → InFile wd s.file

    abbrev PadKept : Padded env sz → Type 0
    PadKept (wd, f, e) = KeepsFile e → at wd f.w ≡ f.off

    put-Kept :
        (s : Stream Ref Zip) (f : File Ref) (size : ℕ) (r : World × ℕ × Option ℕ)
        → (r.2 ≡ none → at r.0 f.w ≡ f.off + r.1)
        → Kept (put env sz s f size r)
    unfolding put
    put-Kept s f size (wd, n, none) h k = h refl
    put-Kept s f size (wd, n, some e) h k = absurd (cc k)

    write-Kept :
        (wd : World) (s : Stream Ref Zip) (f : File Ref) (size : ℕ) (b : Bytes)
        → at wd f.w ≡ f.off
        → Kept (put env sz s f size (write wd f.w b))
    write-Kept wd s f size b here =
        put-Kept s f size (write wd f.w b)
          (λ done. written_at wd f.w b done ∙ ap (λ n. n + (write wd f.w b).1) here)

    put_first-Kept :
        (wd : World) (s : Stream Ref Zip) (f : File Ref) (size : ℕ) (r : Zip × Bytes × Option ℕ)
        → at wd f.w ≡ f.off
        → Kept (put_first env sz wd s f size r)
    unfolding put_first
    put_first-Kept wd s f size (z, b, none) here = write-Kept wd (record s { z = z }) f size b here
    put_first-Kept wd s f size (z, b, some e) here = λ k. here

    put_block-Kept :
        (wd : World) (s : Stream Ref Zip) (f : File Ref) (p zbuf : Bytes) (ts : ℕ)
        → at wd f.w ≡ f.off
        → Kept (put_block env sz wd s f p zbuf ts)
    unfolding put_block indexed
    put_block-Kept wd s f p zbuf ts here = elim (Bool-cases (s.boff == 0)) [
      | inl first ↦ rw first (put_first-Kept wd s (indexed env sz f ts) (length p) _ here)
      | inr later ↦ rw later (write-Kept wd s (indexed env sz f ts) (length p) zbuf here)
    ]

    sought-PadKept :
        (f : File Ref) (r : World × ℕ × Option ℕ)
        → (r.2 ≡ none → at r.0 f.w ≡ r.1)
        → PadKept (sought env sz f r)
    unfolding sought
    sought-PadKept f (wd, off, none) h k = h refl
    sought-PadKept f (wd, off, some e) h k = absurd (cc k)

    truncated-PadKept :
        (wd : World) (f : File Ref) (off : ℕ) (r : World × Option ℕ)
        → truncate wd f.w off ≡ r
        → at wd f.w ≡ f.off
        → PadKept (truncated env sz f off r)
    unfolding truncated
    truncated-PadKept wd f off (wd', none) cut here =
        sought-PadKept f (seek wd' f.w off) (rw cut at (sought_at wd f.w off))
    truncated-PadKept wd f off (wd', some e) cut here =
        λ k. rw cut at (uncut_at wd f.w off e (rw cut refl)) ∙ here

    filled-PadKept :
        (f : File Ref) (r : World × ℕ × Option ℕ)
        → (r.2 ≡ none → at r.0 f.w ≡ f.off + r.1)
        → PadKept (filled env sz f r)
    unfolding filled
    filled-PadKept f (wd, n, none) h k = h refl
    filled-PadKept f (wd, n, some e) h k = absurd (cc k)

    pad_file-PadKept :
        (wd : World) (f : File Ref) → at wd f.w ≡ f.off → PadKept (pad_file env sz wd f)
    unfolding pad_file
    pad_file-PadKept wd f here =
        let off : ℕ = f.off + sz.block_size - f.off % sz.block_size in
        let zeros : Bytes = replicate (off - f.off) 0 in
        elim (Bool-cases (f.off % sz.block_size == 0)) [
          | inl there ↦ rw there (λ k. here)
          | inr short ↦ elim (Bool-cases (can_seek f.w)) [
            | inl cut ↦ rw (short, cut) (truncated-PadKept wd f off _ refl here)
            | inr fill ↦
                rw (short, fill)
                  (filled-PadKept f (write wd f.w zeros) (λ done.
                    written_at wd f.w zeros done ∙ ap (λ n. n + (write wd f.w zeros).1) here))
          ]
        ]

    after_padding-Kept :
        (s : Stream Ref Zip) (p zbuf : Bytes) (ts : ℕ) (r : Padded env sz)
        → PadKept r
        → Kept (after_padding env sz s p zbuf ts r)
    unfolding after_padding
    after_padding-Kept s p zbuf ts (wd, f, none) h = put_block-Kept wd _ f p zbuf ts (h tt)
    after_padding-Kept s p zbuf ts (wd, f, some e) h = h

    in_blocks-Kept :
        (wd : World) (s : Stream Ref Zip) (f : File Ref) (p zbuf : Bytes) (ts : ℕ)
        → at wd f.w ≡ f.off
        → Kept (in_blocks env sz wd s f p zbuf ts)
    unfolding in_blocks
    in_blocks-Kept wd s f p zbuf ts here =
        elim (Bool-cases (ltb sz.block_size (s.boff + length zbuf) && not (s.boff == 0))) [
          | inl full ↦ rw full (after_padding-Kept s p zbuf ts _ (pad_file-PadKept wd f here))
          | inr room ↦ rw room (put_block-Kept wd s f p zbuf ts here)
        ]

    in_new_file-Kept :
        (wd : World) (s : Stream Ref Zip) (part : ℕ) (p zbuf : Bytes) (ts : ℕ)
        (r : World × (Ref ⊎ ℕ))
        → open_file wd part ts ≡ r
        → InFile wd s.file
        → Kept (in_new_file env sz s part p zbuf ts r)
    unfolding in_new_file
    in_new_file-Kept wd s part p zbuf ts (wd', inr e) opened here = λ k. unopened-InFile s.file here
      where
        unopened-InFile : (f : Option (File Ref)) → InFile wd f → InFile wd' f
        unopened-InFile none g = tt
        unopened-InFile (some f) g =
            rw opened at (unopened_at wd part ts e f.w (rw opened refl)) ∙ g
    in_new_file-Kept wd s part p zbuf ts (wd', inl h) opened here =
        in_blocks-Kept wd' _ _ p zbuf ts (rw opened at (new_at wd part ts h (rw opened refl)))

    to_file-Kept :
        (f : Option (File Ref)) (wd : World) (s : Stream Ref Zip) (p zbuf : Bytes) (ts : ℕ)
        → s.file ≡ f
        → InFile wd f
        → Kept (to_file env sz f wd s p zbuf ts)
    unfolding to_file
    to_file-Kept none wd s p zbuf ts same here =
        in_new_file-Kept wd s _ p zbuf ts _ refl (rw same here)
    to_file-Kept (some f) wd s p zbuf ts same here =
        elim (Bool-cases (needs_file env sz (some f) (env.part_of ts) (length zbuf))) [
          | inl fresh ↦ rw fresh (in_new_file-Kept wd s _ p zbuf ts _ refl (rw same here))
          | inr old ↦ rw old (in_blocks-Kept wd s f p zbuf ts here)
        ]

    compressed-Kept :
        (wd : World) (s : Stream Ref Zip) (p : Bytes) (ts : ℕ) (r : Zip × Bytes × Option ℕ)
        → InFile wd s.file
        → Kept (compressed env sz wd s p ts r)
    unfolding compressed
    compressed-Kept wd s p ts (z, b, some e) here = λ k. here
    compressed-Kept wd s p ts (z, b, none) here =
        to_file-Kept s.file wd (record s { z = z }) p b ts refl here

    -- After `writeFile`, with new files, padding and errors, the block that the stream is in begins at a multiple of the
    -- block size, by the offsets that the agent keeps, and the index has one entry at most, however many blocks
    -- there are. The offset that is kept is the place in the file where the next `Write` goes, unless a `Write`, of an
    -- event or of zeros, or the `Seek` behind a cut failed. It is given that all this was so before; that the block
    -- size is not 0; that a `Write` with no error wrote everything and a `Seek` goes where it is told; and that a
    -- file that is opened is new.
    pub write_file-Kept :
        (wd : World) (s : Stream Ref Zip) (p : Bytes) (ts : ℕ)
        → Honest env sz
        → 0 < sz.block_size
        → Good env sz s
        → InFile wd s.file
        → Good env sz (write_file env sz wd s p ts).1 × Kept (write_file env sz wd s p ts)
    unfolding write_file
    write_file-Kept wd s p ts honest size good here = (
      write_file-Good env sz wd s p ts honest size good,
      compressed-Kept wd s p ts (compress s.z p) here,
    )
