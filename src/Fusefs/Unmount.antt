-- ===== src/Fusefs/Unmount.antt =====
-- internal/fusefs/fusefs.go: flushDelayed, which unmount runs over all write handles: two passes that
-- upload what waits out a delay, the grace for uploads that were cancelled, and the buffers that are
-- left. Handles do not share state, so each is followed on its own.
pub mod Mounted
pub mod Safe
use proton_drive_linux_fs.Base.{
  Bool, true, false, ◌||◌, Option, none, some, List, [], ◌∷◌, if◌then◌else◌,
}
use proton_drive_linux_fs.Drive.Errors.{Err, Result}
use proton_drive_linux_fs.Fusefs.Buffer.{Node, Env, abandon}
use proton_drive_linux_fs.Fusefs.Release.{Save, Labels, Answers}
use proton_drive_linux_fs.Fusefs.Steps.{settle, step, slot, answer, unmounting}

-- How far a handle's upload comes before a deadline, and what it is answered on the way: the stat of
-- its temp file, an upload slot or the error of its context, and the end of the upload.
pub record Progress : Type 0 where
  pub prepared : Option Err
  pub slot : Option (Option Err)
  pub answer : Option (Answers × Result (Option Node))

-- What happens to one handle: in the two passes and in the grace after them.
pub record Plan : Type 0 where
  pub first : Progress
  pub second : Progress
  pub grace : Progress

slot_step : Env → Labels → Option (Option Err) → Save → Save
slot_step env labels none s = s
slot_step env labels (some refused) s = step env labels (slot refused) s

answer_step : Env → Labels → Option (Answers × Result (Option Node)) → Save → Save
answer_step env labels none s = s
answer_step env labels (some (a, r)) s = step env labels (answer a r) s

-- The rest of an upload, as far as it comes.
pub carry_on : Env → Labels → Progress → Save → Save
unfolding slot_step answer_step
carry_on env labels p s = answer_step env labels p.answer (slot_step env labels p.slot s)

-- settleDelayed, for one handle.
unfoldable pub settle_delayed : Env → Labels → Progress → Save → Save
unfolding carry_on
settle_delayed env labels p s =
    if s.buffer.delayed then carry_on env labels p (settle env p.prepared s) else s

-- abandonKept, for one handle.
unfoldable pub abandon_kept : Env → Save → Save
abandon_kept env s =
    if s.buffer.kept || s.buffer.delayed then record s { buffer = abandon env s.buffer } else s

-- `in_time` says that the first pass ended before the deadline.
unfoldable pub flush_handle : Env → Labels → Bool → Plan → Save → Save
unfolding settle_delayed carry_on abandon_kept
flush_handle env labels in_time plan s =
    let first = settle_delayed env labels plan.first s in
    let second = settle_delayed env labels plan.second first in
    let settled = if in_time then second else first in
    let cancelled = carry_on env labels plan.grace (step env labels unmounting settled) in
    abandon_kept env cancelled

unfoldable pub flush_delayed : Env → Labels → Bool → List (Plan × Save) → List Save
flush_delayed env labels in_time [] = []
flush_delayed env labels in_time ((plan, s) ∷ handles) =
    flush_handle env labels in_time plan s ∷ flush_delayed env labels in_time handles
