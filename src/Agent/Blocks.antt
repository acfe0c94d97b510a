-- ===== src/Agent/Blocks.antt =====
-- The blocks of the files of agent/agent.go: where they begin, and what the index knows of them.
use tlog.Base.{ℕ, ◌+◌, ◌-◌, ◌*◌, ◌/◌, ◌%◌, ◌<◌, ◌≤◌, ◌≡◌, refl, ◌∙◌, arith, ◌==◌, ltb}
use tlog.Base.{◌&&◌, not, Bool-cases, Option, none, some, List, [], ◌∷◌, ◌⊎◌, inl, inr, length}
use tlog.Base.{replicate, length-replicate}
use tlog.Base.Bits.{Bytes}
use tlog.Agent.{
  Env, Sizes, File, Stream, Padded, sought, truncated, filled, pad_file, put, put_first, extended,
  indexed,
}
use tlog.Agent.{
  put_block, after_padding, in_blocks, in_new_file, needs_file, to_file, compressed, write_file,
  AgentError,
}
use native.Mathlib.Nat.{mul-mod_right, div-add-mod, mod-lt, zero-mod}

next_block : (off b : ℕ) → 0 < b → (off + b - off % b) % b ≡ 0
next_block off b h =
    let split : b * (off / b) + off % b ≡ off = div-add-mod off b in
    let whole : off + b - off % b ≡ b * (off / b + 1) = grind (arith, split) in
    rw whole (mul-mod_right b (off / b + 1))

module _ (env : Env) (sz : Sizes) where
  open env use {World, Ref, Zip, compress, write, seek, can_seek}

  -- `Seek` returns the position it was asked for, and `Write` with no error wrote everything.
  pub record Honest : Type 0 where
    pub sought_there :
        (wd : World) (h : Ref) (off : ℕ) → (seek wd h off).2 ≡ none → (seek wd h off).1 ≡ off
    pub wrote_all :
        (wd : World) (h : Ref) (b : Bytes) → (write wd h b).2 ≡ none → (write wd h b).1 ≡ length b

  -- The block that the stream is in, of which `boff` bytes are written, begins at a multiple of the block size,
  -- and the index has one entry at most.
  pub record Blocked (f : File Ref) (boff : ℕ) : Type 0 where
    pub inside : boff ≤ f.off
    pub start : (f.off - boff) % sz.block_size ≡ 0
    pub single : length f.index ≤ 1

  abbrev pub Good : Stream Ref Zip → Type 0
  Good s = elim s.file [ none ↦ Unit | some f ↦ Blocked f s.boff ]

  put-Good :
      (s : Stream Ref Zip) (f : File Ref) (size : ℕ) (r : World × ℕ × Option ℕ)
      → Blocked f s.boff
      → Good (put env sz s f size r).1
  unfolding put
  put-Good s f size (wd, n, none) h =
      let same : f.off + n - (s.boff + n) ≡ f.off - s.boff = omega arith in
      record { inside = omega (arith, h.inside); start = rw same h.start; single = h.single }
  put-Good s f size (wd, n, some e) h = h

  put_first-Good :
      (wd : World) (s : Stream Ref Zip) (f : File Ref) (size : ℕ) (r : Zip × Bytes × Option ℕ)
      → Blocked f s.boff
      → Good (put_first env sz wd s f size r).1
  unfolding put_first
  put_first-Good wd s f size (z, b, none) h = put-Good (record s { z = z }) f size _ h
  put_first-Good wd s f size (z, b, some e) h = h

  extended_single :
      (ix : List (ℕ × ℕ)) (off ts : ℕ) → length ix ≤ 1 → length (extended env sz ix off ts) ≤ 1
  unfolding extended
  extended_single [] off ts h = omega arith
  extended_single (e ∷ es) off ts h = h

  indexed-Blocked :
      (f : File Ref) (ts boff : ℕ) → Blocked f boff → Blocked (indexed env sz f ts) boff
  unfolding indexed
  indexed-Blocked f ts boff h = record {
    inside = h.inside;
    start = h.start;
    single = extended_single f.index f.off ts h.single;
  }

  put_block-Good :
      (wd : World) (s : Stream Ref Zip) (f : File Ref) (p zbuf : Bytes) (ts : ℕ)
      → Blocked f s.boff
      → Good (put_block env sz wd s f p zbuf ts).1
  unfolding put_block
  put_block-Good wd s f p zbuf ts h = elim (Bool-cases (s.boff == 0)) [
    | inl first ↦ rw first (
        put_first-Good wd s (indexed env sz f ts) (length p) (compress s.z p)
          (indexed-Blocked f ts s.boff h))
    | inr later ↦ rw later (
        put-Good s (indexed env sz f ts) (length p) (write wd f.w zbuf)
          (indexed-Blocked f ts s.boff h))
  ]

  -- A file that was padded is at the end of a block; one that was not keeps its offset.
  abbrev Ends : File Ref → Padded env sz → Type 0
  Ends f r =
      (r.1.index ≡ f.index)
      × (r.2 ≡ none → r.1.off % sz.block_size ≡ 0)
      × ((e : AgentError) → r.2 ≡ some e → r.1.off ≡ f.off)

  sought-Ends :
      (f : File Ref) (off : ℕ) (r : World × ℕ × Option ℕ)
      → (r.2 ≡ none → r.1 ≡ off)
      → off % sz.block_size ≡ 0
      → Ends f (sought env sz f r)
  unfolding sought
  sought-Ends f off (wd, n, none) h whole =
      (refl, (λ q. rw (h refl) whole), λ e q. ground (arith, q))
  sought-Ends f off (wd, n, some x) h whole = (refl, (λ q. ground (arith, q)), λ e q. refl)

  truncated-Ends :
      (f : File Ref) (off : ℕ) (r : World × Option ℕ)
      → Honest
      → off % sz.block_size ≡ 0
      → Ends f (truncated env sz f off r)
  unfolding truncated
  truncated-Ends f off (wd, none) honest whole =
      sought-Ends f off (seek wd f.w off) (honest.sought_there wd f.w off) whole
  truncated-Ends f off (wd, some x) honest whole = (refl, (λ q. ground (arith, q)), λ e q. refl)

  filled-Ends :
      (f : File Ref) (count : ℕ) (r : World × ℕ × Option ℕ)
      → (r.2 ≡ none → r.1 ≡ count)
      → (f.off + count) % sz.block_size ≡ 0
      → Ends f (filled env sz f r)
  unfolding filled
  filled-Ends f count (wd, n, none) h whole =
      (refl, (λ q. rw (h refl) whole), λ e q. ground (arith, q))
  filled-Ends f count (wd, n, some x) h whole = (refl, (λ q. ground (arith, q)), λ e q. refl)

  pad_file-Ends :
      (wd : World) (f : File Ref) → Honest → 0 < sz.block_size → Ends f (pad_file env sz wd f)
  unfolding pad_file
  pad_file-Ends wd f honest h =
      let off : ℕ = f.off + sz.block_size - f.off % sz.block_size in
      let whole : off % sz.block_size ≡ 0 = next_block f.off sz.block_size h in
      let further : f.off + (off - f.off) ≡ off = omega (arith, mod-lt f.off h) in
      elim (Bool-cases (f.off % sz.block_size == 0)) [
        | inl there ↦ rw there (refl, (λ q. ground (arith, there)), λ e q. ground (arith, q))
        | inr short ↦ elim (Bool-cases (can_seek f.w)) [
          | inl cut ↦ rw (short, cut) (truncated-Ends f off _ honest whole)
          | inr fill ↦
              rw (short, fill)
                (filled-Ends f (off - f.off) (write wd f.w (replicate (off - f.off) 0))
                  (λ q.
                    honest.wrote_all wd f.w (replicate (off - f.off) 0) q
                    ∙ length-replicate (off - f.off) 0)
                  (rw further whole))
        ]
      ]

  after_padding-Good :
      (s : Stream Ref Zip) (f : File Ref) (p zbuf : Bytes) (ts : ℕ) (r : Padded env sz)
      → Blocked f s.boff
      → Ends f r
      → Good (after_padding env sz s p zbuf ts r).1
  unfolding after_padding
  after_padding-Good s f p zbuf ts (wd, f', none) h (ix, ends, keeps) =
      put_block-Good wd (record s { z = env.reset s.z; boff = 0 }) f' p zbuf ts
        (let same : f'.off - 0 ≡ f'.off = omega arith in
          record { inside = omega arith; start = rw same (ends refl); single = rw ix h.single })
  after_padding-Good s f p zbuf ts (wd, f', some x) h (ix, ends, keeps) = record {
    inside = rw (keeps x refl) h.inside;
    start = rw (keeps x refl) h.start;
    single = rw ix h.single;
  }

  in_blocks-Good :
      (wd : World) (s : Stream Ref Zip) (f : File Ref) (p zbuf : Bytes) (ts : ℕ)
      → Honest
      → 0 < sz.block_size
      → Blocked f s.boff
      → Good (in_blocks env sz wd s f p zbuf ts).1
  unfolding in_blocks
  in_blocks-Good wd s f p zbuf ts honest h b =
      elim (Bool-cases (ltb sz.block_size (s.boff + length zbuf) && not (s.boff == 0))) [
        | inl full ↦ rw full (
            after_padding-Good s f p zbuf ts (pad_file env sz wd f) b (pad_file-Ends wd f honest h))
        | inr room ↦ rw room (put_block-Good wd s f p zbuf ts b)
      ]

  in_new_file-Good :
      (s : Stream Ref Zip) (part : ℕ) (p zbuf : Bytes) (ts : ℕ) (r : World × (Ref ⊎ ℕ))
      → Honest
      → 0 < sz.block_size
      → Good s
      → Good (in_new_file env sz s part p zbuf ts r).1
  unfolding in_new_file
  in_new_file-Good s part p zbuf ts (wd, inr e) honest h g = g
  in_new_file-Good s part p zbuf ts (wd, inl w) honest h g =
      in_blocks-Good wd (record s { z = env.reset s.z; boff = 0 }) _ p zbuf ts honest h
        (record { inside = omega arith; start = zero-mod sz.block_size; single = omega arith })

  to_file-Good :
      (f : Option (File Ref)) (wd : World) (z : Zip) (boff : ℕ) (p zbuf : Bytes) (ts : ℕ)
      → Honest
      → 0 < sz.block_size
      → Good (record { file = f; z = z; boff = boff })
      → Good (to_file env sz f wd (record { file = f; z = z; boff = boff }) p zbuf ts).1
  unfolding to_file
  to_file-Good none wd z boff p zbuf ts honest h g = in_new_file-Good _ _ p zbuf ts _ honest h g
  to_file-Good (some f) wd z boff p zbuf ts honest h g =
      elim (Bool-cases (needs_file env sz (some f) (env.part_of ts) (length zbuf))) [
        | inl fresh ↦ rw fresh (in_new_file-Good _ (env.part_of ts) p zbuf ts _ honest h g)
        | inr same ↦ rw same (in_blocks-Good wd _ f p zbuf ts honest h g)
      ]

  compressed-Good :
      (wd : World) (s : Stream Ref Zip) (p : Bytes) (ts : ℕ) (r : Zip × Bytes × Option ℕ)
      → Honest
      → 0 < sz.block_size
      → Good s
      → Good (compressed env sz wd s p ts r).1
  unfolding compressed
  compressed-Good wd s p ts (z, b, none) honest h g =
      to_file-Good s.file wd z s.boff p b ts honest h g
  compressed-Good wd s p ts (z, b, some e) honest h g = g

  -- After `writeFile`, the block that the stream is in begins at a multiple of the block size, by the offsets that
  -- the agent keeps, and the index of the file has one entry at most, if this was so before. The block size is not
  -- 0, a `Write` with no error wrote everything, and `Seek` goes where it is told.
  pub write_file-Good :
      (wd : World) (s : Stream Ref Zip) (p : Bytes) (ts : ℕ)
      → Honest
      → 0 < sz.block_size
      → Good s
      → Good (write_file env sz wd s p ts).1
  unfolding write_file
  write_file-Good wd s p ts honest h g = compressed-Good wd s p ts (compress s.z p) honest h g
