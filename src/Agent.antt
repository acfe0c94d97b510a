-- ===== src/Agent.antt =====
-- agent/agent.go: the writing of an event to the file of its stream, in blocks.
pub mod Blocks
pub mod Places
pub mod Subs
pub mod Streams
mod Runs
use tlog.Base.{
  ℕ, zero, suc, ◌+◌, ◌-◌, ◌%◌, ◌==◌, ltb, if◌then◌else◌, Bool, true, false, ◌&&◌, ◌||◌, not,
}
use tlog.Base.{Option, none, some, List, [], ◌∷◌, ◌++◌, ◌⊎◌, inl, inr, length, replicate}
use tlog.Base.Bits.{Bytes}

-- The compressor of a stream, the files, and `time.Truncate` for the partition. A file that can be cut and
-- positioned is padded by `truncate` and `seek`, any other by zeros.
pub record Env : Type 1 where
  pub World : Type 0
  pub Ref : Type 0
  pub Zip : Type 0
  pub compress : Zip → Bytes → Zip × Bytes × Option ℕ
  pub reset : Zip → Zip
  pub part_of : ℕ → ℕ
  pub open_file : World → ℕ → ℕ → World × (Ref ⊎ ℕ)
  pub write : World → Ref → Bytes → World × ℕ × Option ℕ
  pub can_seek : Ref → Bool
  pub truncate : World → Ref → ℕ → World × Option ℕ
  pub seek : World → Ref → ℕ → World × ℕ × Option ℕ

pub record Sizes : Type 0 where
  pub file_size : ℕ
  pub block_size : ℕ

-- `file`; an entry of the index is an offset and a time.
pub record File (Ref : Type 0) : Type 0 where
  pub w : Ref
  pub part : ℕ
  pub ts : ℕ
  pub off : ℕ
  pub index : List (ℕ × ℕ)

-- `stream`
pub record Stream (Ref Zip : Type 0) : Type 0 where
  pub file : Option (File Ref)
  pub z : Zip
  pub boff : ℕ

pub data AgentError : Type 0 where
  compress_failed open_failed truncate_failed seek_failed padding_failed write_failed :
      ℕ → AgentError

module _ (env : Env) (sz : Sizes) where
  open env use {
    World, Ref, Zip, compress, reset, part_of, open_file, write, can_seek, truncate, seek,
  }

  -- What `writeFile` returns, with the state after it.
  abbrev pub Written : Type 0
  Written = World × Stream Ref Zip × ℕ × Option AgentError

  -- A stream that has its file: `s.file = f`.
  abbrev with_file : Stream Ref Zip → File Ref → Stream Ref Zip
  with_file s f = record s { file = some f }

  -- `padFile`: the file at the end of its block, or an error.
  abbrev pub Padded : Type 0
  Padded = World × File Ref × Option AgentError

  unfoldable pub sought : File Ref → World × ℕ × Option ℕ → Padded
  sought f (wd, off, none) = (wd, record f { off = off }, none)
  sought f (wd, off, some e) = (wd, f, some (seek_failed e))

  unfoldable pub truncated : File Ref → ℕ → World × Option ℕ → Padded
  truncated f off (wd, none) = sought f (seek wd f.w off)
  truncated f off (wd, some e) = (wd, f, some (truncate_failed e))

  unfoldable pub filled : File Ref → World × ℕ × Option ℕ → Padded
  filled f (wd, n, none) = (wd, record f { off = f.off + n }, none)
  filled f (wd, n, some e) = (wd, f, some (padding_failed e))

  unfoldable pub pad_file : World → File Ref → Padded
  pad_file wd f =
      let off = f.off + sz.block_size - f.off % sz.block_size in
      if f.off % sz.block_size == 0
      then (wd, f, none)
      else if can_seek f.w
      then truncated f off (truncate wd f.w off)
      else filled f (write wd f.w (replicate (off - f.off) 0))

  -- `f.w.Write(s.zbuf)` and the offsets.
  unfoldable pub put : Stream Ref Zip → File Ref → ℕ → World × ℕ × Option ℕ → Written
  put s f size (wd, n, none) =
      (wd, record (with_file s (record f { off = f.off + n })) { boff = s.boff + n }, size, none)
  put s f size (wd, n, some e) = (wd, with_file s f, n, some (write_failed e))

  -- The second compression, at the beginning of a block.
  unfoldable pub put_first :
      World → Stream Ref Zip → File Ref → ℕ → Zip × Bytes × Option ℕ → Written
  put_first wd s f size (z, b, none) = put (record s { z = z }) f size (write wd f.w b)
  put_first wd s f size (z, b, some e) =
      (wd, record (with_file s f) { z = z }, 0, some (compress_failed e))

  -- The entry of the index. The outer `nextBlock` is always false: the inner one has another scope.
  unfoldable pub extended : List (ℕ × ℕ) → ℕ → ℕ → List (ℕ × ℕ)
  extended [] off ts = (off, ts) ∷ []
  extended (e ∷ es) off ts = e ∷ es

  unfoldable pub indexed : File Ref → ℕ → File Ref
  indexed f ts = record f { index = extended f.index f.off ts }

  unfoldable pub put_block : World → Stream Ref Zip → File Ref → Bytes → Bytes → ℕ → Written
  put_block wd s f p zbuf ts =
      if s.boff == 0
      then put_first wd s (indexed f ts) (length p) (compress s.z p)
      else put s (indexed f ts) (length p) (write wd f.w zbuf)

  unfoldable pub after_padding : Stream Ref Zip → Bytes → Bytes → ℕ → Padded → Written
  after_padding s p zbuf ts (wd, f, none) =
      put_block wd (record s { z = reset s.z; boff = 0 }) f p zbuf ts
  after_padding s p zbuf ts (wd, f, some e) = (wd, with_file s f, 0, some e)

  -- `writeFile` from the padding on.
  unfoldable pub in_blocks : World → Stream Ref Zip → File Ref → Bytes → Bytes → ℕ → Written
  in_blocks wd s f p zbuf ts =
      if ltb sz.block_size (s.boff + length zbuf) && not (s.boff == 0)
      then after_padding s p zbuf ts (pad_file wd f)
      else put_block wd s f p zbuf ts

  unfoldable pub in_new_file : Stream Ref Zip → ℕ → Bytes → Bytes → ℕ → World × (Ref ⊎ ℕ) → Written
  in_new_file s part p zbuf ts (wd, inr e) = (wd, s, 0, some (open_failed e))
  in_new_file s part p zbuf ts (wd, inl h) =
      in_blocks wd (record s { z = reset s.z; boff = 0 })
        (record { w = h; part = part; ts = ts; off = 0; index = [] }) p zbuf ts

  unfoldable pub needs_file : Option (File Ref) → ℕ → ℕ → Bool
  needs_file none part size = true
  needs_file (some f) part size =
      not (f.part == part) || (ltb sz.file_size (f.off + size) && not (f.off == 0))

  -- `writeFile` once the event is compressed.
  unfoldable pub to_file : Option (File Ref) → World → Stream Ref Zip → Bytes → Bytes → ℕ → Written
  to_file none wd s p zbuf ts = in_new_file s (part_of ts) p zbuf ts (open_file wd (part_of ts) ts)
  to_file (some f) wd s p zbuf ts =
      if needs_file (some f) (part_of ts) (length zbuf)
      then in_new_file s (part_of ts) p zbuf ts (open_file wd (part_of ts) ts)
      else in_blocks wd s f p zbuf ts

  unfoldable pub compressed : World → Stream Ref Zip → Bytes → ℕ → Zip × Bytes × Option ℕ → Written
  compressed wd s p ts (z, b, some e) = (wd, record s { z = z }, 0, some (compress_failed e))
  compressed wd s p ts (z, b, none) = to_file s.file wd (record s { z = z }) p b ts

  unfoldable pub write_file : World → Stream Ref Zip → Bytes → ℕ → Written
  write_file wd s p ts = compressed wd s p ts (compress s.z p)
