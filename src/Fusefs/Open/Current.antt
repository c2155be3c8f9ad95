-- ===== src/Fusefs/Open/Current.antt =====
-- internal/fusefs/fusefs.go: what a handle that Open returned reads, and what Open does to a buffer
-- that the file already has.
use proton_drive_linux_fs.Base.{
  ◌≡◌, ◌≢◌, inl, inr, refl, true, false, Option, none, some, arith, if-cases, Option-cases,
}
use proton_drive_linux_fs.Drive.Errors.{Result, ok, err}
use proton_drive_linux_fs.Drive.Read.{Bytes}
use proton_drive_linux_fs.Fusefs.Buffer.{Buffer, unpark}
use proton_drive_linux_fs.Fusefs.Handle.{TmpCalls, writer_tmp}
use proton_drive_linux_fs.Fusefs.Release.{Labels}
use proton_drive_linux_fs.Fusefs.Open.{
  Flags, Answers, Opened, parked_writer, new_writer, tmp_reader, drive_reader, State, Outcome, fail,
  open_file, open_errno, reader_of, new_handle, open_node, taken_over, open_pending, open_reading,
  open_writing, open_remote, after_download, install,
}

-- What a handle reads, with the buffer after Open.
abbrev pub serves : Buffer → Opened → Option Bytes
serves b parked_writer = b.tmp
serves b new_writer = b.tmp
serves b (tmp_reader c) = some c
serves b (drive_reader c) = some c

-- The current content of a file: its write buffer, or else what the drive has.
abbrev pub current : Buffer → Bytes → Option Bytes
current b content = elim (writer_tmp b) [ some c ↦ some c | none ↦ some content ]

-- OpenFile and downloadInto give the content of the drive, if they give anything.
abbrev pub Serves : Answers → Bytes → Type 0
Serves a content =
    ((c : Bytes) → a.opened ≡ ok c → c ≡ content)
    × ((c : Bytes) → a.downloaded ≡ ok c → c ≡ content)

abbrev pub ReadsCurrent : Bytes → Buffer → Outcome × State → Type 0
ReadsCurrent content b (inl o, s) = serves s.buffer o ≡ current b content
ReadsCurrent content b (inr e, s) = s.buffer ≡ b

-- Besides, no other handle was put in the place of one that the file had.
abbrev pub Reads : Bytes → Buffer → Outcome × State → Type 0
Reads content b r = ReadsCurrent content b r × (b.handle ≡ true → r.1.buffer.tmp ≡ b.tmp)

open_remote-ReadsCurrent :
    (a : Answers) (s : State) (content : Bytes) (r : Result Bytes)
    → ((c : Bytes) → r ≡ ok c → c ≡ content)
    → writer_tmp s.buffer ≡ none
    → ReadsCurrent content s.buffer (open_remote a s r)
unfolding open_remote open_errno fail
open_remote-ReadsCurrent a s content (ok c) o h = let same = o c refl in ground arith
open_remote-ReadsCurrent a s content (err e) o h = ground arith

after_download-ReadsCurrent :
    (labels : Labels) (a : Answers) (s : State) (content : Bytes) (r : Result Bytes)
    → ((c : Bytes) → r ≡ ok c → c ≡ content)
    → s.buffer.handle ≡ false
    → ReadsCurrent content s.buffer (after_download labels a s r)
unfolding after_download open_errno fail install new_handle
after_download-ReadsCurrent labels a s content (ok c) o h = let same = o c refl in ground arith
after_download-ReadsCurrent labels a s content (err e) o h = ground arith

open_writing-ReadsCurrent :
    (labels : Labels) (flags : Flags) (a : Answers) (s : State) (content : Bytes)
    → flags.truncates ≡ false
    → Serves a content
    → ReadsCurrent content s.buffer (open_writing labels flags a s)
unfolding open_writing
open_writing-ReadsCurrent labels flags a s content keep (o, d) =
    if-cases (ReadsCurrent content s.buffer) s.buffer.handle (λ busy. refl)
      (λ free.
        let down = after_download-ReadsCurrent labels a s content a.downloaded d free in
        ground arith)

open_reading-ReadsCurrent :
    (a : Answers) (s : State) (content : Bytes)
    → a.tmp_opens ≡ true
    → Serves a content
    → ReadsCurrent content s.buffer (open_reading a s)
unfolding open_reading reader_of
open_reading-ReadsCurrent a s content opens (o, d) = elim (Option-cases (writer_tmp s.buffer)) [
  | inl bare ↦ let remote = open_remote-ReadsCurrent a s content a.opened o bare in ground arith
  | inr (c, held) ↦ ground arith
]

open_node-ReadsCurrent :
    (labels : Labels) (flags : Flags) (a : Answers) (s : State) (content : Bytes)
    → flags.truncates ≡ false
    → a.tmp_opens ≡ true
    → Serves a content
    → ReadsCurrent content s.buffer (open_node labels flags a s)
unfolding open_node open_pending reader_of
open_node-ReadsCurrent labels flags a s content keep opens v =
    let reading = open_reading-ReadsCurrent a s content opens v in
    let writing = open_writing-ReadsCurrent labels flags a s content keep v in ground arith

-- Where OpenFile and downloadInto give nothing but the drive's content of the file, the temp file
-- of its writer can be opened, and a parked handle has its temp file, an Open without O_TRUNC that
-- succeeds returns a handle that reads the file's current content, which is its write buffer if it
-- has one and what the drive has otherwise; an Open that fails leaves the buffer as it was; and in
-- both cases a write handle that the file had keeps the bytes of its temp file.
pub open_file-ReadsCurrent :
    (os : TmpCalls) (labels : Labels) (flags : Flags) (a : Answers) (s : State) (content : Bytes)
    → flags.truncates ≡ false
    → a.tmp_opens ≡ true
    → Serves a content
    → (s.buffer.parked ≡ true → s.buffer.tmp ≢ none)
    → Reads content s.buffer (open_file os labels flags a s)
unfolding open_file taken_over unpark
open_file-ReadsCurrent os labels flags a s content keep opens v held =
    let other = open_node-ReadsCurrent labels flags a s content keep opens v in ground arith
