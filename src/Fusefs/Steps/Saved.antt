-- ===== src/Fusefs/Steps/Saved.antt =====
-- internal/fusefs/fusefs.go: what each operation does to the bytes that were written to a buffer.
use proton_drive_linux_fs.Base.{
  ◌≡◌, refl, ◌⊎◌, inl, inr, String, Bool, true, false, not, ◌||◌, ℕ, Option, none, some, List, [],
  ◌∷◌, arith, Bool-cases, subst,
}
use proton_drive_linux_fs.Drive.Errors.{Err, Result, ok, err}
use proton_drive_linux_fs.Drive.Read.{Bytes}
use proton_drive_linux_fs.Fusefs.Buffer.{
  Node, Buffer, Env, Place, removed, unsaved, stranded, local_store, uploaded, park, drop_buffer,
  discard, keep_unsaved, keep_for_retry, unpark, abandon,
}
use proton_drive_linux_fs.Fusefs.Buffer.Membership.{unpark_free, Inv}
use proton_drive_linux_fs.Fusefs.Release.Settled.{Uploaded, upload_end-Uploaded}
use proton_drive_linux_fs.Fusefs.Release.{
  Phase, idle, waiting, uploading, Job, Save, Labels, Answers, release, upload_start, upload_end,
}
use proton_drive_linux_fs.Fusefs.Steps.{settle, rename_to, reopen, again, at_slot, at_answer}
use proton_drive_linux_fs.Fusefs.Steps.Retake.{IsValid, Holds}

-- A place that still has the bytes.
abbrev pub SafeIn : Bytes → Place → Type 0
SafeIn c (removed d) = ⊥
SafeIn c (unsaved name d) = d ≡ c
SafeIn c (stranded d) = d ≡ c
SafeIn c (local_store name d) = d ≡ c
SafeIn c (uploaded name d) = d ≡ c

abbrev pub Placed : Bytes → List Place → Type 0
Placed c [] = ⊥
Placed c (p ∷ ps) = SafeIn c p ⊎ Placed c ps

-- The bytes are in the temp file, which is still to be uploaded.
pub record Waits (c : Bytes) (b : Buffer) : Type 0 where
  pub tmp : b.tmp ≡ some c
  pub wanted : b.gone ≡ false
  pub pending : (b.dirty || b.parked) ≡ true

abbrev pub Kept : Bytes → Buffer → Type 0
Kept c b = Waits c b ⊎ Placed c b.places

-- What moves an excluded file to the local store at unmount works.
abbrev pub LocalWorks : Env → Type 0
LocalWorks env =
    (env.has_local ≡ true) × ((name : String) (c : Bytes) → env.local_works name c ≡ true)

pub release-Placed :
    (env : Env) (prepared : Option Err) (c : Bytes) (s : Save)
    → Placed c s.buffer.places
    → Placed c (release env prepared s).0.buffer.places
unfolding release park discard drop_buffer keep_for_retry
release-Placed env prepared c s p = ground arith

pub release-Kept :
    (env : Env) (prepared : Option Err) (c : Bytes) (s : Save)
    → s.buffer.owns ≡ true
    → s.buffer.dirty ≡ true
    → Waits c s.buffer
    → Kept c (release env prepared s).0.buffer
unfolding release park discard drop_buffer keep_for_retry
release-Kept env prepared c s own d w = ground arith

-- Taking the buffer back.
retake-Placed :
    (env : Env) (prepared : Option Err) (c : Bytes) (s : Save) (got : Bool × Buffer)
    → Placed c got.1.places
    → Placed c (again env prepared s got).buffer.places
unfolding again
retake-Placed env prepared c s (false, b) p = p
retake-Placed env prepared c s (true, b) p =
    release-Placed env prepared c (record s { buffer = b }) p

unpark-places : (dirty : Bool) (b : Buffer) → (unpark dirty b).1.places ≡ b.places
unfolding unpark
unpark-places dirty b = ground arith

unpark_taken :
    (c : Bytes) (b : Buffer)
    → b.parked ≡ true
    → b.owns ≡ true
    → Waits c b
    → ((unpark true b).0 ≡ true)
      × ((unpark true b).1.owns ≡ true)
      × ((unpark true b).1.dirty ≡ true)
      × Waits c (unpark true b).1
unfolding unpark
unpark_taken c b p own w = ground arith

again-Kept :
    (env : Env) (prepared : Option Err) (c : Bytes) (s : Save) (got : Bool × Buffer)
    → (got.0 ≡ true) × (got.1.owns ≡ true) × (got.1.dirty ≡ true) × Waits c got.1
    → Kept c (again env prepared s got).buffer
unfolding again
again-Kept env prepared c s (true, b) (here, own, dirty, w) =
    release-Kept env prepared c (record s { buffer = b }) own dirty w
again-Kept env prepared c s (false, b) (here, own, dirty, w) = inl w

untaken-Kept :
    (env : Env) (prepared : Option Err) (c : Bytes) (s : Save)
    → Waits c s.buffer
    → Kept c (again env prepared s (false, s.buffer)).buffer
unfolding again
untaken-Kept env prepared c s w = inl w

retake-Kept :
    (env : Env) (prepared : Option Err) (c : Bytes) (s : Save)
    → s.buffer.owns ≡ true
    → Waits c s.buffer
    → Kept c (again env prepared s (unpark true s.buffer)).buffer
retake-Kept env prepared c s own w = elim (Bool-cases s.buffer.parked) [
  | inl parked ↦ again-Kept env prepared c s _ (unpark_taken c s.buffer parked own w)
  | inr free ↦ rw (unpark_free true s.buffer free) (untaken-Kept env prepared c s w)
]

pub settle-Placed :
    (env : Env) (prepared : Option Err) (c : Bytes) (s : Save)
    → Placed c s.buffer.places
    → Placed c (settle env prepared s).buffer.places
unfolding settle
settle-Placed env prepared c s p = elim (Bool-cases (not s.buffer.parked || not s.buffer.timer)) [
  | inl no_timer ↦ rw (no_timer, settle) p
  | inr due ↦ rw (due, settle) (release-Placed env prepared c _ p)
]

pub settle-Kept :
    (env : Env) (prepared : Option Err) (c : Bytes) (s : Save)
    → s.buffer.owns ≡ true
    → Waits c s.buffer
    → Kept c (settle env prepared s).buffer
unfolding settle
settle-Kept env prepared c s own w = elim (Bool-cases (not s.buffer.parked || not s.buffer.timer)) [
  | inl no_timer ↦ rw (no_timer, settle) (inl w)
  | inr due ↦
      rw (due, settle)
        (release-Kept env prepared c _ own refl
          (record { tmp = w.tmp; wanted = w.wanted; pending = refl }))
]

pub rename_to-Placed :
    (env : Env) (prepared : Option Err) (name : String) (parent : ℕ) (existing : Option Node)
    (c : Bytes) (s : Save)
    → Placed c s.buffer.places
    → Placed c (rename_to env prepared name parent existing s).buffer.places
unfolding rename_to
rename_to-Placed env prepared name parent existing c s p =
    let node : Option Node = elim existing [ none ↦ s.buffer.node | some n ↦ some n ] in
    let moved = record s.buffer { name = name; parent = parent; node = node } in
    retake-Placed env prepared c (record s { buffer = moved }) (unpark true moved)
      (rw (unpark-places true moved) p)

pub rename_to-Kept :
    (env : Env) (prepared : Option Err) (name : String) (parent : ℕ) (existing : Option Node)
    (c : Bytes) (s : Save)
    → s.buffer.owns ≡ true
    → Waits c s.buffer
    → Kept c (rename_to env prepared name parent existing s).buffer
unfolding rename_to
rename_to-Kept env prepared name parent existing c s own w =
    retake-Kept env prepared c _ own
      (record { tmp = w.tmp; wanted = w.wanted; pending = w.pending })

pub reopen-Kept : (c : Bytes) (s : Save) → Kept c s.buffer → Kept c (reopen s).buffer
unfolding reopen unpark
reopen-Kept c s (inl w) = ground arith
reopen-Kept c s (inr p) = ground arith

upload_start-Kept :
    (env : Env) (refused : Option Err) (c : Bytes) (job : Job) (s : Save)
    → Kept c s.buffer
    → s.buffer.tmp ≡ some job.tmp
    → Kept c (upload_start env refused job s).0.buffer
unfolding upload_start discard drop_buffer keep_for_retry park
upload_start-Kept env refused c job s (inl w) t = ground arith
upload_start-Kept env refused c job s (inr p) t = ground arith

keep_for_retry-Kept :
    (env : Env) (tmp : Bytes) (e : Err) (c : Bytes) (b : Buffer)
    → b.tmp ≡ some tmp
    → Kept c b
    → Kept c (keep_for_retry env tmp e b)
unfolding keep_for_retry park discard keep_unsaved drop_buffer
keep_for_retry-Kept env tmp e c b t (inl w) = ground arith
keep_for_retry-Kept env tmp e c b t (inr p) = ground arith

ended-Kept :
    (c : Bytes) (job : Job) (s t : Save)
    → Uploaded job s t
    → s.buffer.tmp ≡ some job.tmp
    → Kept c s.buffer
    → Kept c t.buffer
ended-Kept c job s t u h (inl w) = inr (rw u.places (inl (ground (arith, w.tmp, h))))
ended-Kept c job s t u h (inr p) = inr (rw u.places (inr (inr p)))

upload_end-Kept :
    (env : Env) (labels : Labels) (a : Answers) (r : Result (Option Node)) (c : Bytes) (job : Job)
    (s : Save)
    → Kept c s.buffer
    → s.buffer.tmp ≡ some job.tmp
    → Kept c (upload_end env labels a r job s).0.buffer
unfolding upload_end
upload_end-Kept env labels a (err e) c job s k t = keep_for_retry-Kept env job.tmp e c s.buffer t k
upload_end-Kept env labels a (ok up) c job s k t =
    ended-Kept c job s _ (upload_end-Uploaded env labels a up job s) t k

pub abandon-Kept :
    (env : Env) (c : Bytes) (b : Buffer)
    → LocalWorks env
    → Inv env b
    → Kept c b
    → Kept c (abandon env b)
unfolding abandon drop_buffer keep_unsaved
abandon-Kept env c b works v (inl w) = ground (arith, works.1 b.name c)
abandon-Kept env c b works v (inr p) = ground arith

pub dispatch-Kept :
    (env : Env) (labels : Labels) (a : Answers) (r : Result (Option Node)) (c : Bytes) (p : Phase)
    (s : Save)
    → s.phase ≡ p
    → IsValid env s
    → Kept c s.buffer
    → Kept c (at_answer env labels a r p s).buffer
unfolding at_answer
dispatch-Kept env labels a r c idle s e v k = k
dispatch-Kept env labels a r c (waiting job) s e v k = k
dispatch-Kept env labels a r c (uploading job) s e v k =
    upload_end-Kept env labels a r c job s k
      (subst (λ q. Holds q s.buffer.parked s.buffer.tmp) e v.holds).1

pub slot-Kept :
    (env : Env) (refused : Option Err) (c : Bytes) (p : Phase) (s : Save)
    → s.phase ≡ p
    → IsValid env s
    → Kept c s.buffer
    → Kept c (at_slot env refused p s).buffer
unfolding at_slot
slot-Kept env refused c idle s e v k = k
slot-Kept env refused c (uploading job) s e v k = k
slot-Kept env refused c (waiting job) s e v k =
    upload_start-Kept env refused c job s k
      (subst (λ q. Holds q s.buffer.parked s.buffer.tmp) e v.holds).1
