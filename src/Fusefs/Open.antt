-- ===== src/Fusefs/Open.antt =====
-- internal/fusefs/fusefs.go: Open of a file, on its write buffer and the file on the drive.
pub mod Current
use proton_drive_linux_fs.Base.{
  ◌⊎◌, inl, inr, ◌&&◌, ℕ, String, Bool, true, false, not, Option, none, some, List, [], ltb,
  if◌then◌else◌,
}
use proton_drive_linux_fs.Drive.Errors.{Err, Result, ok, err, is_not_found}
use proton_drive_linux_fs.Drive.Read.{Bytes}
use proton_drive_linux_fs.Fusefs.Transfers.{RecentTransfer, record_finished}
use proton_drive_linux_fs.Fusefs.Buffer.{Node, Buffer, unpark}
use proton_drive_linux_fs.Fusefs.Release.{Errno, eio, etimedout, enoent, eacces, ebusy, Labels}
use proton_drive_linux_fs.Fusefs.Handle.{TmpCalls, truncate, writer_tmp}

-- What Open read of its flags.
pub record Flags : Type 0 where
  pub read_only : Bool
  pub truncates : Bool

-- What the outside answers during an Open. `tmp_opens` says that the writer's temp file could be
-- opened, `tmp_created` that a new one could be made, `late` that the deadline had passed, `raced`
-- that another open set the file's write handle while this one downloaded. `opened` is OpenFile's
-- content or error, `downloaded` what downloadInto copied or its error, and `moved` its bytes.
pub record Answers : Type 0 where
  pub no_tmp : Err
  pub tmp_opens : Bool
  pub denied : Bool
  pub tmp_created : Bool
  pub late : Bool
  pub raced : Bool
  pub opened : Result Bytes
  pub downloaded : Result Bytes
  pub moved : ℕ
  pub now : ℕ

-- The handle that Open returns: the write handle that was parked, a new write handle, a reader of
-- the writer's temp file (with direct I/O), or of the drive's file (with the kernel's cache).
pub data Opened : Type 0 where
  parked_writer new_writer : Opened
  tmp_reader drive_reader : Bytes → Opened

-- The buffer, the finished transfers, and whether the parent's listing was expired.
pub record State : Type 0 where
  pub buffer : Buffer
  pub recent : List RecentTransfer
  pub expired : Bool

abbrev pub Outcome : Type 0
Outcome = Opened ⊎ Errno

-- openErrno
unfoldable pub open_errno : Bool → Err → State → Errno × State
open_errno late e s =
    if is_not_found e
    then (enoent, record s { expired = true })
    else if late
    then (etimedout, s)
    else (eio, s)

pub fail : Errno × State → Outcome × State
fail (errno, s) = (inr errno, s)

pub taken_over : TmpCalls → Flags → Answers → State → Outcome × State
taken_over os flags a s =
    let (e, b) = truncate a.no_tmp os 0 s.buffer in
    let failed : Outcome × State =
      (elim e [ none ↦ inl parked_writer | some _ ↦ inr eio ], record s { buffer = b }) in
    if flags.truncates then failed else (inl parked_writer, s)

-- readerOf
unfoldable pub reader_of : Answers → Buffer → Option Bytes
reader_of a b = if a.tmp_opens then writer_tmp b else none

-- A file that is not on the drive has only its write handle's buffer.
pub open_pending : Flags → Answers → State → Outcome × State
unfolding reader_of
open_pending flags a s = elim (if flags.read_only then reader_of a s.buffer else none) [
  | some c ↦ (inl (tmp_reader c), s)
  | none ↦ (inr eio, s)
]

pub open_remote : Answers → State → Result Bytes → Outcome × State
unfolding fail open_errno
open_remote a s (ok c) = (inl (drive_reader c), s)
open_remote a s (err e) = fail (open_errno a.late e s)

pub open_reading : Answers → State → Outcome × State
unfolding open_remote reader_of
open_reading a s = elim (reader_of a s.buffer) [
  | some c ↦ (inl (tmp_reader c), s)
  | none ↦ open_remote a s a.opened
]

pub transfer : Labels → Answers → Buffer → String → String → RecentTransfer
transfer labels a b status error = record {
  path = labels.display_path b.parent b.name;
  action = "download";
  status = status;
  bytes = a.moved;
  finished = a.now;
  error = error;
}

-- The file's new write handle, on a temp file that holds `c`.
unfoldable pub new_handle : Bytes → Buffer → Buffer
new_handle c b = record b {
  tmp = some c;
  dirty = false;
  owns = true;
  parked = false;
  timer = false;
  due = false;
  retry_in = 0;
  failed = false;
  handle = true;
  delayed = false;
  kept = false;
}

-- Another open may have set the write handle meanwhile.
pub install : Answers → Bytes → State → Outcome × State
unfolding new_handle
install a c s =
    if a.raced
    then (inr ebusy, s)
    else (inl new_writer, record s { buffer = new_handle c s.buffer })

pub after_download : Labels → Answers → State → Result Bytes → Outcome × State
unfolding install transfer fail open_errno
after_download labels a s (err e) =
    let noted = transfer labels a s.buffer "failed" (labels.message false e) in
    fail (open_errno a.late e (record s { recent = record_finished noted s.recent }))
after_download labels a s (ok c) =
    let noted = transfer labels a s.buffer "done" "" in
    let counted =
      if ltb 0 a.moved then record s { recent = record_finished noted s.recent } else s in
    install a c counted

pub open_writing : Labels → Flags → Answers → State → Outcome × State
unfolding install after_download
open_writing labels flags a s =
    if s.buffer.handle
    then (inr ebusy, s)
    else if not a.tmp_created
    then (inr eio, s)
    else if flags.truncates
    then install a [] s
    else after_download labels a s a.downloaded

pub open_node : Labels → Flags → Answers → State → Outcome × State
unfolding open_pending open_reading open_writing
open_node labels flags a s = elim s.buffer.node [
  | none ↦ open_pending flags a s
  | some _ ↦
      if a.denied
      then (inr eacces, s)
      else if flags.read_only
      then open_reading a s
      else open_writing labels flags a s
]

-- parkedHandle and unpark.
unfoldable pub open_file : TmpCalls → Labels → Flags → Answers → State → Outcome × State
unfolding taken_over open_node
open_file os labels flags a s =
    if s.buffer.handle && s.buffer.parked && not flags.read_only
    then taken_over os flags a (record s { buffer = (unpark true s.buffer).1 })
    else open_node labels flags a s
