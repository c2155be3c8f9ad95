-- ===== src/Fusefs/Steps/Retake.antt =====
-- internal/fusefs/fusefs.go: a write buffer that is released, or taken back and released again.
use proton_drive_linux_fs.Base.{
  ℕ, ◌≡◌, refl, ◌∙◌, String, Bool, true, false, not, Option, some, arith, subst, ◌||◌, if-cases,
  Option-cases, Bool-cases, inl, inr,
}
use proton_drive_linux_fs.Drive.Errors.{Err}
use proton_drive_linux_fs.Drive.Read.{Bytes}
use proton_drive_linux_fs.Fusefs.Buffer.{
  Node, Buffer, Env, unpark, park, keep_for_retry, discard, drop_buffer, unlink_pending,
}
use proton_drive_linux_fs.Fusefs.Buffer.Membership.{InSets, unpark_free, Inv, unpark-Inv}
use proton_drive_linux_fs.Fusefs.Release.{Phase, idle, waiting, uploading, Save, release}
use proton_drive_linux_fs.Fusefs.Steps.{
  settle, rename_to, replaced, again, still_pending, after_drop,
}

-- While an upload waits or runs, the buffer is not parked and holds what is uploaded.
abbrev pub Holds : Phase → Bool → Option Bytes → Type 0
Holds idle parked tmp = Unit {0}
Holds (waiting job) parked tmp = (parked ≡ false) × (tmp ≡ some job.tmp)
Holds (uploading job) parked tmp = (parked ≡ false) × (tmp ≡ some job.tmp)

pub record IsValid (env : Env) (s : Save) : Type 0 where
  pub buffer : Inv env s.buffer
  pub holds : Holds s.phase s.buffer.parked s.buffer.tmp
  pub owner : s.buffer.owns ≡ true

pub release-IsValid :
    (env : Env) (prepared : Option Err) (s : Save)
    → s.phase ≡ idle
    → s.buffer.parked ≡ false
    → IsValid env s
    → IsValid env (release env prepared s).0
unfolding release park discard drop_buffer keep_for_retry
release-IsValid env prepared s i free v = ground arith

pub parked_idle : (env : Env) (s : Save) → IsValid env s → s.buffer.parked ≡ true → s.phase ≡ idle
parked_idle env s v h = go s.phase refl
  where
    go : (p : Phase) → s.phase ≡ p → s.phase ≡ idle
    go idle e = e
    go (waiting job) e =
        absurd (ground (arith, subst (λ q. Holds q s.buffer.parked s.buffer.tmp) e v.holds))
    go (uploading job) e =
        absurd (ground (arith, subst (λ q. Holds q s.buffer.parked s.buffer.tmp) e v.holds))

pub settle-IsValid :
    (env : Env) (prepared : Option Err) (s : Save)
    → IsValid env s
    → IsValid env (settle env prepared s)
unfolding settle
settle-IsValid env prepared s v = elim (Bool-cases (not s.buffer.parked || not s.buffer.timer)) [
  | inl no_timer ↦ rw (no_timer, settle) v
  | inr due ↦
      let parked : s.buffer.parked ≡ true = ground arith in
      let i = parked_idle env s v parked in
      rw (due, settle)
        (release-IsValid env prepared _ i refl
          (record { buffer = ground arith; holds = rw i tt; owner = v.owner }))
]

again-IsValid :
    (env : Env) (prepared : Option Err) (s : Save) (got : Bool × Buffer)
    → s.phase ≡ idle
    → Inv env got.1
    → got.1.parked ≡ false
    → got.1.owns ≡ true
    → IsValid env (again env prepared s got)
unfolding again
again-IsValid env prepared s (false, b) i v free own = record {
  buffer = v;
  holds = rw i tt;
  owner = own;
}
again-IsValid env prepared s (true, b) i v free own =
    release-IsValid env prepared _ i free (record { buffer = v; holds = rw i tt; owner = own })

-- Taking a buffer back and releasing it again, whatever was changed of its name and node before.
pub retake-IsValid :
    (env : Env) (prepared : Option Err) (dirty : Bool) (s : Save)
    → (s.buffer.parked ≡ true → s.phase ≡ idle)
    → InSets s.buffer
    → Holds s.phase s.buffer.parked s.buffer.tmp
    → s.buffer.owns ≡ true
    → IsValid env (again env prepared s (unpark dirty s.buffer))
unfolding again
retake-IsValid env prepared dirty s i v held own =
    let (taken, free, same) = unpark-Inv env dirty s.buffer v in
    elim (Bool-cases s.buffer.parked) [
      | inl parked ↦
          again-IsValid env prepared s (unpark dirty s.buffer) (i parked) taken free (same ∙ own)
      | inr unparked ↦
          rw (unpark_free dirty s.buffer unparked, again)
            (record {
              buffer = subst (λ g. Inv env g.1) (unpark_free dirty s.buffer unparked) taken;
              holds = held;
              owner = own;
            })
    ]

pub rename_to-IsValid :
    (env : Env) (prepared : Option Err) (name : String) (parent : ℕ) (existing : Option Node)
    (s : Save)
    → IsValid env s
    → IsValid env (rename_to env prepared name parent existing s)
unfolding rename_to
rename_to-IsValid env prepared name parent existing s v =
    retake-IsValid env prepared true _ (parked_idle env s v) (ground arith) v.holds v.owner

pub replaced-IsValid :
    (env : Env) (prepared : Option Err) (s : Save)
    → IsValid env s
    → IsValid env (replaced env prepared s)
unfolding replaced
replaced-IsValid env prepared s v =
    if-cases (IsValid env) s.buffer.handle
      (λ held.
        retake-IsValid env prepared false (record s { buffer = record s.buffer { gone = true } })
          (parked_idle env s v) (ground arith) v.holds v.owner)
      (λ loose. v)

-- What marks the buffer gone, or nothing, leaves it valid.
pub still_pending-IsValid : (env : Env) (s : Save) → IsValid env s → IsValid env (still_pending s)
unfolding still_pending unlink_pending
still_pending-IsValid env s v = elim (Option-cases s.buffer.node) [
  | inl pending ↦
      rw (pending, unlink_pending)
        (if-cases (λ (r : Bool × Buffer). IsValid env (record s { buffer = r.1 })) s.buffer.handle
          (λ held. record { buffer = ground arith; holds = v.holds; owner = v.owner }) (λ loose. v))
  | inr (n, there) ↦ rw (there, unlink_pending) v
]

pub after_drop-IsValid : (env : Env) (s : Save) → IsValid env s → IsValid env (after_drop s).1
unfolding after_drop
after_drop-IsValid env s v = elim (Option-cases s.buffer.node) [
  | inl pending ↦ rw (pending, after_drop) v
  | inr (n, there) ↦ rw (there, after_drop) (still_pending-IsValid env s v)
]
