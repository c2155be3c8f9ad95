-- ===== src/Drive/Read/Complete.antt =====
-- internal/drive/file.go: ReadAt when no block fails.
use proton_drive_linux_fs.Base.{ℕ, ◌<◌, ◌≡◌, length, take, drop}
use proton_drive_linux_fs.Drive.Errors.{Result, ok}
use proton_drive_linux_fs.Drive.Read.{Bytes, block_byte_offset, Reply, finish}
use proton_drive_linux_fs.Drive.Read.Prefix.{chunk, Prefix}

module _ {S : Type 0} (Inv : S → Type 0) (get_block : S → ℕ → Result Bytes × S) (content : Bytes)
    (live : (s : S) (idx : ℕ)
      → Inv s
      → block_byte_offset idx < length content
      → (get_block s idx).0 ≡ ok (chunk content idx) × Inv (get_block s idx).1) where
  abbrev Filled : ℕ → ℕ → Reply → S → Type 0
  Filled len off r s = (r ≡ finish len (take len (drop off content))) × Inv s
