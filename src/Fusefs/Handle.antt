-- ===== src/Fusefs/Handle.antt =====
-- internal/fusefs/fusefs.go: a file's attributes, and reads, writes and truncation through a handle
-- with a temp file. The calls on the temp file itself are the operating system's.
use proton_drive_linux_fs.Base.{[], ℕ, Bool, true, false, Option, none, some, if◌then◌else◌, length}
use proton_drive_linux_fs.Drive.Errors.{Err, eof, rate_limited}
use proton_drive_linux_fs.Drive.Read.{Bytes, Reply}
use proton_drive_linux_fs.Fusefs.Buffer.{Buffer}
use proton_drive_linux_fs.Fusefs.Release.{Errno, success, eio, etimedout, ebadf}

-- What Truncate, WriteAt, ReadAt and Stat of a temp file do: an error, and the content after.
pub record TmpCalls : Type 0 where
  pub truncates : ℕ → Bytes → Option Err × Bytes
  pub writes : Bytes → ℕ → Bytes → Option Err × Bytes
  pub reads : ℕ → ℕ → Bytes → Reply
  pub stats : Bool

-- What Getattr reads of the node of a file on the drive, once its attributes are resolved.
pub record NodeAttr : Type 0 where
  pub size : ℕ
  pub mod_time : ℕ

-- Size and time as `out` gets them; a time of 0 is one that is not set.
pub record Attr : Type 0 where
  pub size : ℕ
  pub time : ℕ

abbrev has_tmp : Option Bytes → Bool
has_tmp none = false
has_tmp (some c) = true

unfoldable pub tmp_size : TmpCalls → Option Bytes → Option ℕ
tmp_size os none = none
tmp_size os (some c) = if os.stats then some (length c) else none

abbrev time_of : Option NodeAttr → ℕ
time_of none = 0
time_of (some n) = n.mod_time

node_attr : Option NodeAttr → Attr
node_attr none = record { size = 0; time = 0 }
node_attr (some n) = record { size = n.size; time = n.mod_time }

-- The temp file of the file's write handle, if it has one.
abbrev pub writer_tmp : Buffer → Option Bytes
writer_tmp b = if b.handle then b.tmp else none

unfoldable pub getattr : TmpCalls → Option NodeAttr → Buffer → Attr
unfolding tmp_size node_attr
getattr os node b = elim (tmp_size os (writer_tmp b)) [
  | some size ↦ record { size = size; time = time_of node }
  | none ↦ node_attr node
]

truncated : Buffer → Option Err × Bytes → Option Err × Buffer
truncated b (none, c) = (none, record b { tmp = some c; dirty = true })
truncated b (some e, c) = (some e, record b { tmp = some c })

-- `no_tmp` is the error for a handle without a temp file.
unfoldable pub truncate : Err → TmpCalls → ℕ → Buffer → Option Err × Buffer
unfolding truncated
truncate no_tmp os size b = elim b.tmp [
  | none ↦ (some no_tmp, b)
  | some c ↦ truncated b (os.truncates size c)
]

attr_after : TmpCalls → Option NodeAttr → Option Err × Buffer → (Attr × Errno) × Buffer
attr_after os attrs (none, b) = ((getattr os attrs b, success), b)
attr_after os attrs (some e, b) = ((node_attr none, eio), b)

-- Setattr, for the file's one write handle: whichever descriptor the kernel passes, the handle that
-- is truncated is that one.
unfoldable pub setattr :
    Err → TmpCalls → Option NodeAttr → Option ℕ → Buffer → (Attr × Errno) × Buffer
unfolding attr_after node_attr
setattr no_tmp os node size b = elim size [
  | none ↦ ((getattr os node b, success), b)
  | some n ↦
      if b.handle then attr_after os node (truncate no_tmp os n b) else ((node_attr none, eio), b)
]

written : ℕ → Buffer → Option Err × Bytes → (ℕ × Errno) × Buffer
written n b (none, c) = ((n, success), record b { tmp = some c; dirty = true })
written n b (some e, c) = ((0, eio), record b { tmp = some c })

unfoldable pub write : TmpCalls → Bytes → ℕ → Buffer → (ℕ × Errno) × Buffer
unfolding written
write os data' off b = elim b.tmp [
  | none ↦ ((0, ebadf), b)
  | some c ↦ written (length data') b (os.writes data' off c)
]

from_tmp : Reply → Bytes × Errno
from_tmp (out, none) = (out, success)
from_tmp (out, some eof) = (out, success)
from_tmp (out, some e) = ([], eio)

-- `late` says that the deadline of the read had passed.
from_drive : Bool → Reply → Bytes × Errno
from_drive late (out, none) = (out, success)
from_drive late (out, some eof) = (out, success)
from_drive late (out, some (rate_limited e)) = ([], etimedout)
from_drive late (out, some e) = if late then ([], etimedout) else ([], eio)

-- Read of a handle: from its temp file, or with ReadAt of the drive's file.
unfoldable pub read : TmpCalls → Bool → (ℕ → ℕ → Reply) → Option Bytes → ℕ → ℕ → Bytes × Errno
unfolding from_tmp from_drive
read os late read_at tmp len off = elim tmp [
  | some c ↦ from_tmp (os.reads len off c)
  | none ↦ from_drive late (read_at len off)
]
