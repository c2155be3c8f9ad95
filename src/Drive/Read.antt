-- ===== src/Drive/Read.antt =====
-- internal/drive/file.go: the block arithmetic and the loop of ReadAt, over whatever gets a block.
-- A byte is a number; a destination slice is known by its length, and what is copied into it is the
-- list of bytes returned.
pub mod Prefix
pub mod Complete
pub mod Masked
pub mod Aligned
use proton_drive_linux_fs.Base.{
  ℕ, zero, suc, ◌+◌, ◌-◌, ◌*◌, ◌/◌, Option, none, some, List, [], ◌++◌, ltb, leb, ◌==◌,
  if◌then◌else◌, length, take, drop,
}
use proton_drive_linux_fs.Drive.Errors.{Err, Result, ok, err, eof, negative_offset}

-- An int64 as Go code gets it from the kernel: `negsuc n` is -(n + 1).
pub data Offset : Type 0 where
  pos : ℕ → Offset
  negsuc : ℕ → Offset

abbrev pub Bytes : Type 0
Bytes = List ℕ

-- Shut, so that no list is measured against four million.
unfoldable pub block_size : ℕ
block_size = 4194304

-- The 1-based index of the block that covers an offset.
unfoldable pub block_index_for_offset : ℕ → ℕ
block_index_for_offset off = off / block_size + 1

-- Proton numbers the blocks from 1. At 0, where the source would go below zero, this is 0.
unfoldable pub block_byte_offset : ℕ → ℕ
block_byte_offset idx = (idx - 1) * block_size

-- What ReadAt returns: the bytes copied, and the error (`none` is nil).
abbrev pub Reply : Type 0
Reply = Bytes × Option Err

-- The end of ReadAt, after the loop.
abbrev pub finish : ℕ → Bytes → Reply
finish len out = if ltb (length out) len then (out, some eof) else (out, none)

-- `S` is the state that getBlock reads and changes.
module _ {S : Type 0} where
  -- One round of the loop, after getBlock; `again` is the next round.
  pub on_block :
      (S → Bytes → Option (Reply × S)) → ℕ → ℕ → Bytes → Result Bytes × S → Option (Reply × S)
  on_block again len off out (err e, s) =
      if length out == 0 then some (([], some e), s) else some (finish len out, s)
  on_block again len off out (ok block, s) =
      let cur = off + length out in
      let in_block_off = cur - block_byte_offset (block_index_for_offset cur) in
      let copied = take (len - length out) (drop in_block_off block) in
      let next = again s (out ++ copied) in
      if leb (length block) in_block_off
      then if length out == 0 then some (([], some eof), s) else some (finish len out, s)
      else next

-- `size` is f.size.
module _ {S : Type 0} (get_block : S → ℕ → Result Bytes × S) (size : ℕ) where
  -- `none` means that the fuel ran out.
  pub read_loop : ℕ → ℕ → ℕ → S → Bytes → Option (Reply × S)
  unfolding on_block
  read_loop zero len off s out = none
  read_loop (suc fuel) len off s out =
      let got = get_block s (block_index_for_offset (off + length out)) in
      let round = on_block (λ t more. read_loop fuel len off t more) len off out got in
      if leb len (length out)
      then some (finish len out, s)
      else if leb size (off + length out)
      then some (finish len out, s)
      else round

  -- Every round copies a byte, so one more round than the slice has bytes is enough.
  unfoldable pub read_at : ℕ → Offset → S → Option (Reply × S)
  unfolding read_loop
  read_at len (negsuc n) s = some (([], some negative_offset), s)
  read_at len (pos off) s =
      let body = read_loop (suc len) len off s [] in
      if leb size off then some (([], some eof), s) else body
