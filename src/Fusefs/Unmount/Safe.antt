-- ===== src/Fusefs/Unmount/Safe.antt =====
-- internal/fusefs/fusefs.go: what unmount leaves of the bytes that were written.
use proton_drive_linux_fs.Base.{
  ◌≡◌, refl, ◌⊎◌, inl, inr, Bool, false, ◌||◌, Option, none, some, List, [], ◌∷◌, arith, if-cases,
}
use proton_drive_linux_fs.Drive.Errors.{Err, Result, ok, err}
use proton_drive_linux_fs.Drive.Read.{Bytes}
use proton_drive_linux_fs.Fusefs.Buffer.{
  Node, Buffer, Env, park, drop_buffer, discard, keep_unsaved, keep_for_retry, abandon,
}
use proton_drive_linux_fs.Fusefs.Buffer.Membership.{InSets}
use proton_drive_linux_fs.Fusefs.Release.{
  Phase, idle, waiting, uploading, Job, Save, Labels, Answers, release, upload_start, upload_end,
}
use proton_drive_linux_fs.Fusefs.Release.Settled.{upload_end-Uploaded}
use proton_drive_linux_fs.Fusefs.Steps.{
  settle, step, slot, answer, timer_fires, unmounting, at_slot, at_answer,
}
use proton_drive_linux_fs.Fusefs.Steps.Invariant.{step-IsValid}
use proton_drive_linux_fs.Fusefs.Steps.Retake.{IsValid}
use proton_drive_linux_fs.Fusefs.Steps.Saved.{Kept, Placed, LocalWorks, abandon-Kept}
use proton_drive_linux_fs.Fusefs.Steps.Kept.{step-Kept}
use proton_drive_linux_fs.Fusefs.Unmount.{
  Progress, Plan, slot_step, answer_step, carry_on, settle_delayed, abandon_kept, flush_handle,
  flush_delayed,
}

-- No descriptor is open for writing: the handle is parked, on its way up, or let go of.
abbrev pub Closed : Save → Type 0
Closed s = s.phase ≡ idle → s.buffer.parked ≡ false → s.buffer.tmp ≡ none

-- What every step of the flush keeps.
pub record Flushing (env : Env) (c : Bytes) (s : Save) : Type 0 where
  pub valid : IsValid env s
  pub closed : Closed s
  pub kept : Kept c s.buffer

settle-Closed :
    (env : Env) (prepared : Option Err) (s : Save)
    → IsValid env s
    → Closed s
    → Closed (settle env prepared s)
unfolding settle release park discard drop_buffer keep_for_retry
settle-Closed env prepared s v h = ground arith

upload_start-Closed :
    (env : Env) (refused : Option Err) (job : Job) (s : Save)
    → s.phase ≡ waiting job
    → IsValid env s
    → Closed (upload_start env refused job s).0
unfolding upload_start discard drop_buffer keep_for_retry park keep_unsaved
upload_start-Closed env refused job s e v = ground arith

keep_for_retry-Closed :
    (env : Env) (tmp : Bytes) (e : Err) (b : Buffer)
    → (keep_for_retry env tmp e b).parked ≡ false
    → (keep_for_retry env tmp e b).tmp ≡ none
unfolding discard drop_buffer keep_for_retry park keep_unsaved
keep_for_retry-Closed env tmp e b = ground arith

abandon-Placed :
    (env : Env) (c : Bytes) (b : Buffer)
    → (b.parked ≡ false → b.tmp ≡ none)
    → Kept c (abandon env b)
    → Placed c (abandon env b).places
unfolding abandon drop_buffer keep_unsaved
abandon-Placed env c b h (inl w) = absurd (ground (arith, w.tmp))
abandon-Placed env c b h (inr p) = p

upload_end-Closed :
    (env : Env) (labels : Labels) (a : Answers) (r : Result (Option Node)) (job : Job) (s : Save)
    → Closed (upload_end env labels a r job s).0
unfolding upload_end
upload_end-Closed env labels a (err e) job s =
    λ i free. keep_for_retry-Closed env job.tmp e s.buffer free
upload_end-Closed env labels a (ok up) job s =
    λ i free. (upload_end-Uploaded env labels a up job s).let_go

at_slot-Closed :
    (env : Env) (refused : Option Err) (p : Phase) (s : Save)
    → s.phase ≡ p
    → IsValid env s
    → Closed s
    → Closed (at_slot env refused p s)
unfolding at_slot
at_slot-Closed env refused (waiting job) s e v h = upload_start-Closed env refused job s e v
at_slot-Closed env refused idle s e v h = h
at_slot-Closed env refused (uploading job) s e v h = h

at_answer-Closed :
    (env : Env) (labels : Labels) (a : Answers) (r : Result (Option Node)) (p : Phase) (s : Save)
    → Closed s
    → Closed (at_answer env labels a r p s)
unfolding at_answer
at_answer-Closed env labels a r (uploading job) s h = upload_end-Closed env labels a r job s
at_answer-Closed env labels a r idle s h = h
at_answer-Closed env labels a r (waiting job) s h = h

not_parked :
    (c : Bytes) (b : Buffer)
    → (b.parked ≡ false → b.tmp ≡ none)
    → InSets b
    → b.kept || b.delayed ≡ false
    → Kept c b
    → Placed c b.places
not_parked c b h sets loose (inl w) = absurd (ground (arith, w.tmp, sets.in_delayed, sets.in_kept))
not_parked c b h sets loose (inr p) = p

module _ (env : Env) (labels : Labels) (c : Bytes) (works : LocalWorks env) where
  settle-Flushing :
      (prepared : Option Err) (s : Save) → Flushing env c s → Flushing env c (settle env prepared s)
  unfolding step
  settle-Flushing prepared s f = record {
    valid = step-IsValid env labels (timer_fires prepared) s f.valid;
    closed = settle-Closed env prepared s f.valid f.closed;
    kept = step-Kept env labels (timer_fires prepared) c s works f.valid refl f.kept;
  }

  slot-Flushing :
      (o : Option (Option Err)) (s : Save)
      → Flushing env c s
      → Flushing env c (slot_step env labels o s)
  unfolding slot_step step
  slot-Flushing none s f = f
  slot-Flushing (some refused) s f = record {
    valid = step-IsValid env labels (slot refused) s f.valid;
    closed = at_slot-Closed env refused s.phase s refl f.valid f.closed;
    kept = step-Kept env labels (slot refused) c s works f.valid refl f.kept;
  }

  answer-Flushing :
      (o : Option (Answers × Result (Option Node))) (s : Save)
      → Flushing env c s
      → Flushing env c (answer_step env labels o s)
  unfolding answer_step step
  answer-Flushing none s f = f
  answer-Flushing (some (a, r)) s f = record {
    valid = step-IsValid env labels (answer a r) s f.valid;
    closed = at_answer-Closed env labels a r s.phase s f.closed;
    kept = step-Kept env labels (answer a r) c s works f.valid refl f.kept;
  }

  carry_on-Flushing :
      (p : Progress) (s : Save) → Flushing env c s → Flushing env c (carry_on env labels p s)
  unfolding carry_on
  carry_on-Flushing p s f = answer-Flushing p.answer _ (slot-Flushing p.slot s f)

  settle_delayed-Flushing :
      (p : Progress) (s : Save) → Flushing env c s → Flushing env c (settle_delayed env labels p s)
  unfolding settle_delayed
  settle_delayed-Flushing p s f =
      if-cases (Flushing env c) s.buffer.delayed
        (λ waits. carry_on-Flushing p _ (settle-Flushing p.prepared s f)) (λ other. f)

  closing-Flushing : (s : Save) → Flushing env c s → Flushing env c (step env labels unmounting s)
  unfolding step
  closing-Flushing s f = record {
    valid = step-IsValid env labels unmounting s f.valid;
    closed = f.closed;
    kept = step-Kept env labels unmounting c s works f.valid refl f.kept;
  }

  -- Where no upload is running any more, the bytes have a place.
  abbrev Saved : Save → Type 0
  Saved s = s.phase ≡ idle → Placed c s.buffer.places

  abandon_kept-Saved : (s : Save) → Flushing env c s → Saved (abandon_kept env s)
  unfolding abandon_kept
  abandon_kept-Saved s f =
      if-cases Saved (s.buffer.kept || s.buffer.delayed)
        (λ held i.
          abandon-Placed env c s.buffer (f.closed i)
            (abandon-Kept env c s.buffer works f.valid.buffer f.kept))
        (λ loose i. not_parked c s.buffer (f.closed i) f.valid.buffer.sets loose f.kept)

  flush_handle-Saved :
      (in_time : Bool) (plan : Plan) (s : Save)
      → Flushing env c s
      → Saved (flush_handle env labels in_time plan s)
  unfolding flush_handle
  flush_handle-Saved in_time plan s f =
      let first = settle_delayed-Flushing plan.first s f in
      let second = settle_delayed-Flushing plan.second _ first in
      abandon_kept-Saved _ (
        carry_on-Flushing plan.grace _
          (closing-Flushing _ (if-cases (Flushing env c) in_time (λ _. second) (λ _. first))))

-- An upload that did not return within the grace.
abbrev pub StillRuns : Phase → Type 0
StillRuns idle = ⊥
StillRuns _ = Unit {0}

abbrev pub AllFlushing : Env → List Bytes → List (Plan × Save) → Type 0
AllFlushing env [] [] = Unit {0}
AllFlushing env (c ∷ cs) ((plan, s) ∷ handles) = Flushing env c s × AllFlushing env cs handles
AllFlushing env _ _ = ⊥

abbrev pub AllPlaced : List Bytes → List Save → Type 0
AllPlaced [] [] = Unit {0}
AllPlaced (c ∷ cs) (t ∷ ts) = (StillRuns t.phase ⊎ Placed c t.buffer.places) × AllPlaced cs ts
AllPlaced _ _ = ⊥

running_or_idle : (p : Phase) → StillRuns p ⊎ (p ≡ idle)
running_or_idle idle = inr refl
running_or_idle (waiting job) = inl tt
running_or_idle (uploading job) = inl tt

module _ (env : Env) (labels : Labels) (works : LocalWorks env) where
  -- With a local store that works, for write handles in a valid state, each parked, on its way up
  -- or let go of, whose bytes wait for upload or have a place already: after flushDelayed, however
  -- far the uploads of its two passes and of the grace come and whatever they are answered, and
  -- whether or not the first pass ended in time, the bytes of every handle are on the drive, in the
  -- unsaved directory, in the temp directory where that move failed, or in the local store, or else
  -- its upload is one that did not return within the grace.
  pub flush_delayed-AllPlaced :
      (in_time : Bool) (contents : List Bytes) (handles : List (Plan × Save))
      → AllFlushing env contents handles
      → AllPlaced contents (flush_delayed env labels in_time handles)
  unfolding flush_delayed
  flush_delayed-AllPlaced in_time [] [] f = tt
  flush_delayed-AllPlaced in_time [] (h ∷ handles) f = absurd f
  flush_delayed-AllPlaced in_time (c ∷ cs) [] f = absurd f
  flush_delayed-AllPlaced in_time (c ∷ cs) ((plan, s) ∷ handles) (f, fs) = (
    elim (running_or_idle (flush_handle env labels in_time plan s).phase) [
      | inl runs ↦ inl runs
      | inr over ↦ inr (flush_handle-Saved env labels c works in_time plan s f over)
    ],
    flush_delayed-AllPlaced in_time cs handles fs,
  )
