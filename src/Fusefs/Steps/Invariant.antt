-- ===== src/Fusefs/Steps/Invariant.antt =====
-- internal/fusefs/fusefs.go: the invariant of a write buffer, through any sequence of calls.
use proton_drive_linux_fs.Base.{
  ◌≡◌, refl, ◌∙◌, Bool, true, false, Option, none, some, List, [], ◌∷◌, arith, subst, if-cases,
  Bool-cases, inl, inr,
}
use proton_drive_linux_fs.Drive.Errors.{Err, Result, ok, err}
use proton_drive_linux_fs.Drive.Read.{Bytes}
use proton_drive_linux_fs.Fusefs.Buffer.{
  Node, Buffer, Env, keep_unsaved, abandon, park, keep_for_retry, discard, drop_buffer,
}
use proton_drive_linux_fs.Fusefs.Buffer.Membership.{
  unpark_free, keep_for_retry-Inv, unpark-Inv, abandon-Inv,
}
use proton_drive_linux_fs.Fusefs.Release.Settled.{Uploaded, upload_end-Uploaded}
use proton_drive_linux_fs.Fusefs.Release.{
  Phase, idle, waiting, uploading, Job, Save, Labels, Answers, upload_start, upload_end,
}
use proton_drive_linux_fs.Fusefs.Steps.{
  Call, unlink, reopen, step, run, write, close, timer_fires, rename, open_write, rename_over,
  unlinks, slot, answer, unmounting, abandons, again, at_slot, at_answer, unlinked, is_open,
  with_bytes, write_tmp,
}
use proton_drive_linux_fs.Fusefs.Steps.Retake.{
  Holds, IsValid, release-IsValid, parked_idle, settle-IsValid, retake-IsValid, rename_to-IsValid,
  replaced-IsValid, still_pending-IsValid, after_drop-IsValid,
}

unlinked-IsValid :
    (env : Env) (prepared : Option Err) (s : Save) (got : Bool × Buffer)
    → IsValid env (again env prepared s got)
    → IsValid env (unlinked env prepared s got).1
unfolding unlinked again
unlinked-IsValid env prepared s (true, b) v = after_drop-IsValid env _ v
unlinked-IsValid env prepared s (false, b) v = still_pending-IsValid env _ v

unlink-IsValid :
    (env : Env) (prepared : Option Err) (s : Save)
    → IsValid env s
    → IsValid env (unlink env prepared s).1
unfolding unlink
unlink-IsValid env prepared s v =
    if-cases (λ (r : Bool × Save). IsValid env r.1) s.buffer.handle
      (λ held.
        unlinked-IsValid env prepared s _
          (retake-IsValid env prepared false s (parked_idle env s v) v.buffer.sets v.holds v.owner))
      (λ loose. still_pending-IsValid env s v)

upload_start-IsValid :
    (env : Env) (refused : Option Err) (job : Job) (s : Save)
    → s.phase ≡ waiting job
    → IsValid env s
    → IsValid env (upload_start env refused job s).0
unfolding upload_start discard drop_buffer keep_for_retry park
upload_start-IsValid env refused job s w v =
    let held = subst (λ q. Holds q s.buffer.parked s.buffer.tmp) w v.holds in ground arith

keep_for_retry-owns :
    (env : Env) (tmp : Bytes) (e : Err) (b : Buffer) → (keep_for_retry env tmp e b).owns ≡ b.owns
unfolding keep_for_retry
keep_for_retry-owns env tmp e b = ground arith

ended-IsValid :
    (env : Env) (job : Job) (s t : Save)
    → Uploaded job s t
    → Holds (uploading job) s.buffer.parked s.buffer.tmp
    → IsValid env s
    → IsValid env t
ended-IsValid env job s t u held v = record {
  buffer = ground arith;
  holds = rw u.over tt;
  owner = u.owns ∙ v.owner;
}

upload_end-IsValid :
    (env : Env) (labels : Labels) (a : Answers) (r : Result (Option Node)) (job : Job) (s : Save)
    → s.phase ≡ uploading job
    → IsValid env s
    → IsValid env (upload_end env labels a r job s).0
unfolding upload_end
upload_end-IsValid env labels a (err e) job s w v =
    let held = subst (λ q. Holds q s.buffer.parked s.buffer.tmp) w v.holds in
    record {
      buffer = keep_for_retry-Inv env job.tmp e s.buffer held.0 v.buffer;
      holds = tt;
      owner = keep_for_retry-owns env job.tmp e s.buffer ∙ v.owner;
    }
upload_end-IsValid env labels a (ok up) job s w v =
    ended-IsValid env job s _ (upload_end-Uploaded env labels a up job s)
      (subst (λ q. Holds q s.buffer.parked s.buffer.tmp) w v.holds) v

at_slot-IsValid :
    (env : Env) (refused : Option Err) (p : Phase) (s : Save)
    → s.phase ≡ p
    → IsValid env s
    → IsValid env (at_slot env refused p s)
unfolding at_slot
at_slot-IsValid env refused (waiting job) s e v = upload_start-IsValid env refused job s e v
at_slot-IsValid env refused idle s e v = v
at_slot-IsValid env refused (uploading job) s e v = v

at_answer-IsValid :
    (env : Env) (labels : Labels) (a : Answers) (r : Result (Option Node)) (p : Phase) (s : Save)
    → s.phase ≡ p
    → IsValid env s
    → IsValid env (at_answer env labels a r p s)
unfolding at_answer
at_answer-IsValid env labels a r (uploading job) s e v = upload_end-IsValid env labels a r job s e v
at_answer-IsValid env labels a r idle s e v = v
at_answer-IsValid env labels a r (waiting job) s e v = v

pub is_open_lem : (p : Phase) (b : Buffer) → is_open p b ≡ true → (p ≡ idle) × (b.parked ≡ false)
is_open_lem idle b h = (refl, ground arith)
is_open_lem (waiting job) b h = cc
is_open_lem (uploading job) b h = cc

with_bytes-Holds :
    (c old : Bytes) (p : Phase) (parked : Bool)
    → Holds p parked (some old)
    → Holds (with_bytes c p) parked (some c)
unfolding with_bytes
with_bytes-Holds c old idle parked h = tt
with_bytes-Holds c old (waiting job) parked h = (h.0, refl)
with_bytes-Holds c old (uploading job) parked h = (h.0, refl)

write_tmp-IsValid :
    (env : Env) (c : Bytes) (tmp : Option Bytes) (s : Save)
    → s.buffer.tmp ≡ tmp
    → IsValid env s
    → IsValid env (write_tmp c tmp s)
unfolding write_tmp
write_tmp-IsValid env c none s e v = v
write_tmp-IsValid env c (some old) s e v = record {
  buffer = ground arith;
  holds =
      with_bytes-Holds c old s.phase s.buffer.parked
        (subst (λ t. Holds s.phase s.buffer.parked t) e v.holds);
  owner = v.owner;
}

reopen-IsValid : (env : Env) (s : Save) → IsValid env s → IsValid env (reopen s)
unfolding reopen
reopen-IsValid env s v =
    let (taken, free, same) = unpark-Inv env true s.buffer v.buffer.sets in
    elim (Bool-cases s.buffer.parked) [
      | inl parked ↦ record {
        buffer = taken;
        holds = rw (parked_idle env s v parked) tt;
        owner = same ∙ v.owner;
      }
      | inr unparked ↦ rw (unpark_free true s.buffer unparked) v
    ]

abandon_free : (env : Env) (b : Buffer) → b.parked ≡ false → abandon env b ≡ b
unfolding abandon
abandon_free env b h = ground arith

abandon-owns : (env : Env) (b : Buffer) → (abandon env b).owns ≡ b.owns
unfolding abandon keep_unsaved drop_buffer
abandon-owns env b = ground arith

abandon-IsValid :
    (env : Env) (s : Save)
    → IsValid env s
    → IsValid env (record s { buffer = abandon env s.buffer })
abandon-IsValid env s v = elim (Bool-cases s.buffer.parked) [
  | inl parked ↦ record {
    buffer = (abandon-Inv env s.buffer v.buffer).0;
    holds = rw (parked_idle env s v parked) tt;
    owner = abandon-owns env s.buffer ∙ v.owner;
  }
  | inr free ↦ rw (abandon_free env s.buffer free) v
]

-- Whatever calls reach a buffer, it stays in exactly the sets that its timer says, has its temp
-- file while parked or on its way up, and waits at most half an hour for its next retry.
pub step-IsValid :
    (env : Env) (labels : Labels) (c : Call) (s : Save)
    → IsValid env s
    → IsValid env (step env labels c s)
unfolding step
step-IsValid env labels (write c) s v = write_tmp-IsValid env c s.buffer.tmp s refl v
step-IsValid env labels (close prepared) s v =
    if-cases (IsValid env) (is_open s.phase s.buffer)
      (λ open_now.
        let (i, free) = is_open_lem s.phase s.buffer open_now in
        release-IsValid env prepared s i free v)
      (λ closed. v)
step-IsValid env labels (timer_fires prepared) s v = settle-IsValid env prepared s v
step-IsValid env labels (rename prepared name parent existing) s v =
    rename_to-IsValid env prepared name parent existing s v
step-IsValid env labels open_write s v = reopen-IsValid env s v
step-IsValid env labels (rename_over prepared) s v = replaced-IsValid env prepared s v
step-IsValid env labels (unlinks prepared) s v = unlink-IsValid env prepared s v
step-IsValid env labels (slot refused) s v = at_slot-IsValid env refused s.phase s refl v
step-IsValid env labels (answer a r) s v = at_answer-IsValid env labels a r s.phase s refl v
step-IsValid env labels unmounting s v = record {
  buffer = ground arith;
  holds = v.holds;
  owner = v.owner;
}
step-IsValid env labels abandons s v = abandon-IsValid env s v

-- Whatever calls reach a valid write handle, in any order, with writes and truncations of its temp
-- file at any time, also while it is parked or on its way up, it stays valid: parked it is in the
-- delayed set exactly when it has a timer and in the kept set exactly when it has none, else in
-- neither; parked, it has its temp file; with no timer it failed for good or has an excluded name;
-- the wait between retries is at most half an hour; and while an upload waits or runs the handle is
-- not parked and holds the temp file that is uploaded.
pub run-IsValid :
    (env : Env) (labels : Labels) (cs : List Call) (s : Save)
    → IsValid env s
    → IsValid env (run env labels cs s)
unfolding run
run-IsValid env labels [] s v = v
run-IsValid env labels (c ∷ cs) s v = run-IsValid env labels cs _ (step-IsValid env labels c s v)
