-- ===== src/Drive/Read/Masked.antt =====
-- internal/drive/file.go: ReadAt when a block after the first one fails.
use proton_drive_linux_fs.Base.{
  ℕ, zero, suc, ◌+◌, ◌-◌, ◌<◌, ◌≡◌, ◌∙◌, some, [], length, take, drop, arith, lt→leb-false,
  length-take, length-drop,
}
use proton_drive_linux_fs.Drive.Errors.{Err, Result, ok, err, eof}
use proton_drive_linux_fs.Drive.Read.{
  Bytes, block_index_for_offset, block_byte_offset, on_block, read_loop, read_at, pos,
}

-- The round after some bytes were copied, when its block fails.
late_failure :
    {S : Type 0} (get_block : S → ℕ → Result Bytes × S) (fuel size len off : ℕ) (t u : S)
    (out : Bytes) (e : Err)
    → 0 < length out
    → length out < len
    → off + length out < size
    → get_block t (block_index_for_offset (off + length out)) ≡ (err e, u)
    → read_loop get_block size (suc fuel) len off t out ≡ some ((out, some eof), u)
unfolding read_loop on_block
late_failure get_block fuel size len off t u out e some_bytes short goes_on failed =
    rw (lt→leb-false len (length out) short, lt→leb-false size (off + length out) goes_on, failed)
      (ground arith)

-- The first round of a read, when its block is there.
first_round :
    {S : Type 0} (get_block : S → ℕ → Result Bytes × S) (fuel size len off : ℕ) (s t : S)
    (block : Bytes)
    → 0 < len
    → off < size
    → get_block s (block_index_for_offset off) ≡ (ok block, t)
    → off - block_byte_offset (block_index_for_offset off) < length block
    → read_loop get_block size (suc fuel) len off s []
      ≡ read_loop get_block size fuel len off t
          (take len (drop (off - block_byte_offset (block_index_for_offset off)) block))
unfolding read_loop on_block
first_round get_block fuel size len off s t block room within got inside = rw (
  lt→leb-false len 0 room,
  here,
  lt→leb-false size off within,
  got,
  here,
  lt→leb-false (length block) (off - block_byte_offset (block_index_for_offset off)) inside,
  all,
)
  where
    here : off + 0 ≡ off
    here = omega arith

    all : len - 0 ≡ len
    all = omega arith

-- What the first round copies.
abbrev pub first_copy : ℕ → ℕ → Bytes → Bytes
first_copy len off block =
    take len (drop (off - block_byte_offset (block_index_for_offset off)) block)

-- A read below the size of the file that copies something of its first block, but neither all it
-- was asked for nor up to the end of the file, and then fails on the next block, returns what it
-- copied with EOF: the error is dropped, although the file goes on.
pub read_at_hides_error :
    {S : Type 0} (get_block : S → ℕ → Result Bytes × S) (size len off : ℕ) (s t u : S)
    (block : Bytes) (e : Err)
    → off < size
    → get_block s (block_index_for_offset off) ≡ (ok block, t)
    → 0 < length (first_copy len off block)
    → length (first_copy len off block) < len
    → off + length (first_copy len off block) < size
    → get_block t (block_index_for_offset (off + length (first_copy len off block))) ≡ (err e, u)
    → read_at get_block size len (pos off) s ≡ some ((first_copy len off block, some eof), u)
unfolding read_at
read_at_hides_error get_block size zero off s t u block e h first some_bytes short goes_on second =
    absurd (omega arith)
read_at_hides_error get_block size (suc len) off s t u block e h first some_bytes short goes_on
      second =
    rw (lt→leb-false size off h) (
      first_round get_block (suc len) size (suc len) off s t block (omega arith) h first (
        omega (
          arith,
          length-take (suc len) (drop (off - block_byte_offset (block_index_for_offset off)) block),
          length-drop (off - block_byte_offset (block_index_for_offset off)) block,
        ))
      ∙ late_failure get_block len size (suc len) off t u
          (take (suc len) (drop (off - block_byte_offset (block_index_for_offset off)) block)) e
          some_bytes short goes_on second)
