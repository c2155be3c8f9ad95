-- ===== src/Fusefs/Steps.antt =====
-- internal/fusefs/fusefs.go: the calls that reach one write buffer, in any order: the kernel's
-- writes, truncations and close, the timer, a rename, a second open, an unlink, a rename of another file over
-- this one, the progress of an upload, and unmount.
pub mod Retake
pub mod Invariant
pub mod Saved
pub mod Kept
use proton_drive_linux_fs.Base.{
  ℕ, String, Bool, true, false, not, ◌&&◌, ◌||◌, Option, none, some, List, [], ◌∷◌, if◌then◌else◌,
}
use proton_drive_linux_fs.Drive.Errors.{Err, Result}
use proton_drive_linux_fs.Drive.Read.{Bytes}
use proton_drive_linux_fs.Fusefs.Buffer.{Node, Buffer, Env, unpark, abandon, unlink_pending}
use proton_drive_linux_fs.Fusefs.Release.{
  Errno, success, Job, Phase, idle, waiting, uploading, Save, Labels, Answers, release,
  upload_start, upload_end,
}

-- settle, without the context.
unfoldable pub settle : Env → Option Err → Save → Save
settle env prepared s =
    let b = s.buffer in
    let due_now = record b {
      parked = false;
      timer = false;
      dirty = true;
      due = true;
      delayed = false;
    } in
    if not b.parked || not b.timer
    then s
    else (release env prepared (record s { buffer = due_now })).0

-- Takes a parked buffer back and releases it again, as Rename, renamePending, replace and Unlink do.
pub again : Env → Option Err → Save → Bool × Buffer → Save
again env prepared s (false, b) = record s { buffer = b }
again env prepared s (true, b) = (release env prepared (record s { buffer = b })).0

-- The part of renamePending, and of Rename for a file on the drive, that is about the buffer:
-- `existing` is the drive's file under the new name, whose next revision the buffer becomes.
unfoldable pub rename_to : Env → Option Err → String → ℕ → Option Node → Save → Save
unfolding again
rename_to env prepared new_name new_parent existing s =
    let b = s.buffer in
    let node : Option Node = elim existing [ none ↦ b.node | some n ↦ some n ] in
    let moved = record b { name = new_name; parent = new_parent; node = node } in
    again env prepared (record s { buffer = moved }) (unpark true moved)

-- replace: another file is renamed over this one.
unfoldable pub replaced : Env → Option Err → Save → Save
unfolding again
replaced env prepared s =
    let b = s.buffer in
    let lost = record b { gone = true } in
    if b.handle then again env prepared (record s { buffer = lost }) (unpark false lost) else s

pub still_pending : Save → Save
still_pending s = record s { buffer = (unlink_pending s.buffer).1 }

-- Unlink: whether there is nothing left to trash on the drive, and the buffer after it.
pub after_drop : Save → Bool × Save
unfolding still_pending
after_drop s = elim s.buffer.node [
  | none ↦ (true, s)
  | some _ ↦ ((unlink_pending s.buffer).0, still_pending s)
]

unlinked : Env → Option Err → Save → Bool × Buffer → Bool × Save
unfolding after_drop
unlinked env prepared s (true, b) = after_drop (release env prepared (record s { buffer = b })).0
unlinked env prepared s (false, b) = ((unlink_pending b).0, still_pending (record s { buffer = b }))

unfoldable pub unlink : Env → Option Err → Save → Bool × Save
unfolding unlinked still_pending
unlink env prepared s =
    if s.buffer.handle
    then unlinked env prepared s (unpark false s.buffer)
    else ((unlink_pending s.buffer).0, still_pending s)

-- Open for writing takes a parked buffer over.
unfoldable pub reopen : Save → Save
reopen s = record s { buffer = (unpark true s.buffer).1 }

-- A call, with what the outside answers.
pub data Call : Type 0 where
  write : Bytes → Call
  close : Option Err → Call
  timer_fires : Option Err → Call
  rename : Option Err → String → ℕ → Option Node → Call
  open_write : Call
  rename_over : Option Err → Call
  unlinks : Option Err → Call
  slot : Option Err → Call
  answer : Answers → Result (Option Node) → Call
  unmounting : Call
  abandons : Call

-- A descriptor is open for writing: the buffer is neither parked nor on its way up.
abbrev is_open : Phase → Buffer → Bool
is_open idle b = not b.parked
is_open _ b = false

-- The bytes that Write, or truncate of Setattr, leaves in the temp file, whether it is open, parked or
-- on its way up: an upload in flight is of that file.
with_bytes : Bytes → Phase → Phase
with_bytes c idle = idle
with_bytes c (waiting job) = waiting (record job { tmp = c })
with_bytes c (uploading job) = uploading (record job { tmp = c })

write_tmp : Bytes → Option Bytes → Save → Save
unfolding with_bytes
write_tmp c none s = s
write_tmp c (some _) s = record s {
  buffer = record s.buffer { tmp = some c; dirty = true };
  phase = with_bytes c s.phase;
}

unfoldable pub at_slot : Env → Option Err → Phase → Save → Save
at_slot env refused (waiting job) s = (upload_start env refused job s).0
at_slot env refused _ s = s

unfoldable pub at_answer : Env → Labels → Answers → Result (Option Node) → Phase → Save → Save
at_answer env labels a r (uploading job) s = (upload_end env labels a r job s).0
at_answer env labels a r _ s = s

unfoldable pub step : Env → Labels → Call → Save → Save
unfolding write_tmp at_slot at_answer
step env labels (write c) s = write_tmp c s.buffer.tmp s
step env labels (close prepared) s =
    if is_open s.phase s.buffer then (release env prepared s).0 else s
step env labels (timer_fires prepared) s = settle env prepared s
step env labels (rename prepared name parent existing) s =
    rename_to env prepared name parent existing s
step env labels open_write s = reopen s
step env labels (rename_over prepared) s = replaced env prepared s
step env labels (unlinks prepared) s = (unlink env prepared s).1
step env labels (slot refused) s = at_slot env refused s.phase s
step env labels (answer a r) s = at_answer env labels a r s.phase s
step env labels unmounting s = record s { buffer = record s.buffer { closing = true } }
step env labels abandons s = record s { buffer = abandon env s.buffer }

unfoldable pub run : Env → Labels → List Call → Save → Save
run env labels [] s = s
run env labels (c ∷ cs) s = run env labels cs (step env labels c s)
