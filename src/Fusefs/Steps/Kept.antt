-- ===== src/Fusefs/Steps/Kept.antt =====
-- internal/fusefs/fusefs.go: what becomes of the bytes that were written to a buffer.
use proton_drive_linux_fs.Base.{
  ◌≡◌, refl, inl, inr, Bool, true, false, Option, List, [], ◌∷◌, arith, if-cases, All,
}
use proton_drive_linux_fs.Drive.Errors.{Err}
use proton_drive_linux_fs.Drive.Read.{Bytes}
use proton_drive_linux_fs.Fusefs.Buffer.{Env}
use proton_drive_linux_fs.Fusefs.Release.{Save, Labels, release}
use proton_drive_linux_fs.Fusefs.Steps.{
  Call, step, run, write, close, timer_fires, rename, open_write, rename_over, unlinks, slot,
  answer, unmounting, abandons, is_open,
}
use proton_drive_linux_fs.Fusefs.Steps.Invariant.{is_open_lem, step-IsValid}
use proton_drive_linux_fs.Fusefs.Steps.Retake.{IsValid}
use proton_drive_linux_fs.Fusefs.Steps.Saved.{
  Kept, LocalWorks, release-Placed, release-Kept, settle-Placed, settle-Kept, rename_to-Placed,
  rename_to-Kept, reopen-Kept, abandon-Kept, dispatch-Kept, slot-Kept,
}

-- What neither writes over the bytes nor takes the file's name away.
abbrev pub keeps_file : Call → Bool
keeps_file (write c) = false
keeps_file (rename_over prepared) = false
keeps_file (unlinks prepared) = false
keeps_file _ = true

close-Kept :
    (env : Env) (prepared : Option Err) (c : Bytes) (s : Save)
    → IsValid env s
    → s.buffer.parked ≡ false
    → Kept c s.buffer
    → Kept c (release env prepared s).0.buffer
close-Kept env prepared c s v free (inl w) = release-Kept env prepared c s v.owner (ground arith) w
close-Kept env prepared c s v free (inr p) = inr (release-Placed env prepared c s p)

pub step-Kept :
    (env : Env) (labels : Labels) (call : Call) (c : Bytes) (s : Save)
    → LocalWorks env
    → IsValid env s
    → keeps_file call ≡ true
    → Kept c s.buffer
    → Kept c (step env labels call s).buffer
unfolding step
step-Kept env labels (write d) c s works v h k = absurd (ground arith)
step-Kept env labels (close prepared) c s works v h k =
    if-cases (λ (t : Save). Kept c t.buffer) (is_open s.phase s.buffer)
      (λ open_now. close-Kept env prepared c s v (is_open_lem s.phase s.buffer open_now).1 k)
      (λ closed. k)
step-Kept env labels (timer_fires prepared) c s works v h (inl w) =
    settle-Kept env prepared c s v.owner w
step-Kept env labels (timer_fires prepared) c s works v h (inr p) =
    inr (settle-Placed env prepared c s p)
step-Kept env labels (rename prepared name parent existing) c s works v h (inl w) =
    rename_to-Kept env prepared name parent existing c s v.owner w
step-Kept env labels (rename prepared name parent existing) c s works v h (inr p) =
    inr (rename_to-Placed env prepared name parent existing c s p)
step-Kept env labels open_write c s works v h k = reopen-Kept c s k
step-Kept env labels (rename_over prepared) c s works v h k = absurd (ground arith)
step-Kept env labels (unlinks prepared) c s works v h k = absurd (ground arith)
step-Kept env labels (slot refused) c s works v h k = slot-Kept env refused c s.phase s refl v k
step-Kept env labels (answer a r) c s works v h k =
    dispatch-Kept env labels a r c s.phase s refl v k
step-Kept env labels unmounting c s works v h (inl w) =
    inl (record { tmp = w.tmp; wanted = w.wanted; pending = w.pending })
step-Kept env labels unmounting c s works v h (inr p) = inr p
step-Kept env labels abandons c s works v h k = abandon-Kept env c s.buffer works v.buffer k

-- From a write handle in a valid state, whose bytes are in its temp file and still to be uploaded
-- (or already placed), with a local store that works, any sequence of closes, timers, renames of
-- the file, opens for writing, upload starts, upload answers, unmounting and abandonments, in any
-- order and with any answers from outside, leaves those bytes still waiting in the temp file, or on
-- the drive, in the unsaved directory, in the temp directory where that move failed, or in the
-- local store.
pub run-Kept :
    (env : Env) (labels : Labels) (calls : List Call) (c : Bytes) (s : Save)
    → LocalWorks env
    → IsValid env s
    → All (λ call. keeps_file call ≡ true) calls
    → Kept c s.buffer
    → Kept c (run env labels calls s).buffer
unfolding run
run-Kept env labels [] c s works v h k = k
run-Kept env labels (call ∷ calls) c s works v (h, hs) k =
    run-Kept env labels calls c _ works (step-IsValid env labels call s v) hs
      (step-Kept env labels call c s works v h k)
