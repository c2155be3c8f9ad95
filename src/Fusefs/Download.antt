-- ===== src/Fusefs/Download.antt =====
-- internal/fusefs/fusefs.go: downloadInto, which copies a file of the drive into a temp file, over
-- ReadAt of internal/drive/file.go. `S` is the state of the open file, `T` that of the temp file.

pub mod Whole
use proton_drive_linux_fs.Base.{ℕ, zero, suc, ◌+◌, Option, none, some, ltb, if◌then◌else◌, length}
use proton_drive_linux_fs.Drive.Errors.{Err, Result, eof}
use proton_drive_linux_fs.Drive.Read.{Bytes, Reply, read_at, pos}

-- Shut, so that nothing is measured against it.
unfoldable pub download_chunk : ℕ
download_chunk = 262144

-- What downloadInto returns, and the files after it.
pub record Downloaded (S T : Type 0) : Type 0 where
  pub moved : ℕ
  pub error : Option Err
  pub file : S
  pub tmp : T

-- `moved` is BytesTransferred, and `write_at` is WriteAt of the temp file.
module _ {S T : Type 0} (moved : S → ℕ) (write_at : Bytes → ℕ → T → Option Err × T) where
  stopped : Option Err → S → T → Option (Downloaded S T)
  stopped e s t = some (record { moved = moved s; error = e; file = s; tmp = t })

  -- The tests at the end of a round.
  pub next :
      (ℕ → S → T → Option (Downloaded S T)) → ℕ → Option Err → S → T → Option (Downloaded S T)
  unfolding stopped
  next again off none s t = again off s t
  next again off (some eof) s t = stopped none s t
  next again off (some e) s t = stopped (some e) s t

  pub on_write :
      (ℕ → S → T → Option (Downloaded S T))
      → ℕ
      → Option Err
      → S
      → Option Err × T
      → Option (Downloaded S T)
  unfolding stopped next
  on_write again off e s (some w, t) = stopped (some w) s t
  on_write again off e s (none, t) = next again off e s t

  -- One round, after ReadAt.
  pub on_read :
      (ℕ → S → T → Option (Downloaded S T)) → ℕ → T → Option (Reply × S) → Option (Downloaded S T)
  unfolding on_write next
  on_read again off t none = none
  on_read again off t (some ((data', e), s)) =
      if ltb 0 (length data')
      then on_write again (off + length data') e s (write_at data' off t)
      else next again off e s t

  -- `none` means that the fuel ran out.
  pub download_loop : (S → ℕ → Result Bytes × S) → ℕ → ℕ → ℕ → S → T → Option (Downloaded S T)
  unfolding on_read
  download_loop get_block size zero off s t = none
  download_loop get_block size (suc fuel) off s t =
      on_read (λ o u v. download_loop get_block size fuel o u v) off t
        (read_at get_block size download_chunk (pos off) s)

  -- Every round but the last copies a byte, so one more round than the file has bytes is enough.
  unfoldable pub download_into : (S → ℕ → Result Bytes × S) → ℕ → S → T → Option (Downloaded S T)
  unfolding download_loop
  download_into get_block size s t = download_loop get_block size (suc size) 0 s t
