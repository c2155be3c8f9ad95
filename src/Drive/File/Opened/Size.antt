-- ===== src/Drive/File/Opened/Size.antt =====
-- internal/drive/file.go: the size that correctSizeFromBlocks computes.
use proton_drive_linux_fs.Base.{ℕ, ◌≡◌, length}
use proton_drive_linux_fs.Drive.Errors.{Result, ok, err}
use proton_drive_linux_fs.Drive.Read.{Bytes}
use proton_drive_linux_fs.Drive.File.{State}

-- A size that was computed is that of the content.
abbrev pub Sized : Bytes → {W : Type 0} → Result ℕ × State W → Type 0
Sized content (err e, s) = Unit {0}
Sized content (ok size, s) = size ≡ length content
