-- ===== src/Fusefs/Release/Settled.antt =====
-- internal/fusefs/fusefs.go: what is left of a buffer whose upload succeeded.
use proton_drive_linux_fs.Base.{
  ◌≡◌, refl, Bool, true, false, Option, none, some, List, ◌∷◌, arith, if-cases,
}
use proton_drive_linux_fs.Drive.Errors.{ok}
use proton_drive_linux_fs.Fusefs.Buffer.{Node, Buffer, Env, uploaded, removed, drop_buffer, claim}
use proton_drive_linux_fs.Fusefs.Release.{
  idle, Job, Save, Labels, Answers, Errno, Patch, move_link, upload_end, after_move, settle_name,
  unclaimed, claimed, dropped, note_done,
}

-- The fields of a buffer that say whether something still waits for it.
abbrev pub Same : Buffer → Buffer → Type 0
Same b c =
    (c.parked ≡ b.parked)
    × (c.timer ≡ b.timer)
    × (c.delayed ≡ b.delayed)
    × (c.kept ≡ b.kept)
    × (c.retry_in ≡ b.retry_in)
    × (c.owns ≡ b.owns)
    × (c.places ≡ b.places)

Same-refl : (b : Buffer) → Same b b
Same-refl b = (refl, refl, refl, refl, refl, refl, refl)

after_move-Same :
    (r : (Errno × Option Node) × List Patch) (s : Save) → Same s.buffer (after_move r s).0.buffer
unfolding after_move
after_move-Same ((errno, none), ps) s = Same-refl s.buffer
after_move-Same ((errno, some moved), ps) s = Same-refl s.buffer

settle_name-Same :
    (a : Answers) (job : Job) (up : Option Node) (s : Save)
    → Same s.buffer (settle_name a job up s).0.buffer
unfolding settle_name
settle_name-Same a job none s =
    if-cases (λ (r : Save × Errno). Same s.buffer r.0.buffer) _ (λ h. Same-refl s.buffer)
      (λ h. Same-refl s.buffer)
settle_name-Same a job (some n) s =
    if-cases (λ (r : Save × Errno). Same s.buffer r.0.buffer) _
      (λ h. after_move-Same (move_link a n job.parent job.name s.buffer.parent s.buffer.name) s)
      (λ h. Same-refl s.buffer)

unclaimed-Same :
    (job : Job) (up : Option Node) (s : Save) → Same s.buffer (unclaimed job up s).buffer
unfolding unclaimed
unclaimed-Same job none s = ground arith
unclaimed-Same job (some n) s = ground arith

claimed-Same :
    (a : Answers) (job : Job) (up : Option Node) (s : Save) (c : Bool × Buffer)
    → Same s.buffer c.1
    → Same s.buffer (claimed a job up s c).0.buffer
unfolding claimed
claimed-Same a job up s (true, b) h =
    ground (arith, settle_name-Same a job up (record s { buffer = b }))
claimed-Same a job up s (false, b) h =
    ground (arith, unclaimed-Same job up (record s { buffer = b }))

claim-Same : (n : Option Node) (b : Buffer) → Same b (claim n b).1
unfolding claim
claim-Same none b = ground arith
claim-Same (some n) b = ground arith

-- What an upload that worked leaves, besides the listings and the trash: the phase is over, the temp
-- file is gone, its content was sent to the drive, and nothing else of the buffer waits or moved.
pub record Uploaded (job : Job) (s t : Save) : Type 0 where
  pub over : t.phase ≡ idle
  pub let_go : t.buffer.tmp ≡ none
  pub parked : t.buffer.parked ≡ s.buffer.parked
  pub timer : t.buffer.timer ≡ s.buffer.timer
  pub delayed : t.buffer.delayed ≡ s.buffer.delayed
  pub kept : t.buffer.kept ≡ s.buffer.kept
  pub retry_in : t.buffer.retry_in ≡ s.buffer.retry_in
  pub owns : t.buffer.owns ≡ s.buffer.owns
  pub places : t.buffer.places ≡ uploaded job.name job.tmp ∷ removed job.tmp ∷ s.buffer.places

dropped-Uploaded :
    (job : Job) (s : Save) (r : Save × Errno)
    → Same s.buffer r.0.buffer
    → Uploaded job s (dropped job r).0
unfolding dropped drop_buffer
dropped-Uploaded job s (t, errno) h = ground arith

-- After an upload that succeeded, whatever became of the file meanwhile.
pub upload_end-Uploaded :
    (env : Env) (labels : Labels) (a : Answers) (up : Option Node) (job : Job) (s : Save)
    → Uploaded job s (upload_end env labels a (ok up) job s).0
unfolding upload_end
upload_end-Uploaded env labels a up job s =
    let noted = note_done labels a job s in
    dropped-Uploaded job s (claimed a job up noted (claim up s.buffer))
      (claimed-Same a job up noted (claim up s.buffer) (claim-Same up s.buffer))
