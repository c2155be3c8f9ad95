-- ===== src/Fusefs/Buffer/Membership.antt =====
-- internal/fusefs/fusefs.go: the sets that a parked buffer is in.
use proton_drive_linux_fs.Base.{ℕ, ◌≤◌, ◌≡◌, ◌≢◌, Bool, true, false, not, ◌&&◌, none, arith}
use proton_drive_linux_fs.Drive.Errors.{Err}
use proton_drive_linux_fs.Drive.Read.{Bytes}
use proton_drive_linux_fs.Fusefs.Buffer.{
  Buffer, Env, park, drop_buffer, keep_unsaved, discard, keep_for_retry, upload_retry_max, unpark,
  abandon,
}

-- In `delayed` with a timer, in `kept` without, in neither unless parked; a parked buffer has its
-- temp file, and the wait between retries is capped.
pub record InSets (b : Buffer) : Type 0 where
  pub in_delayed : b.delayed ≡ (b.parked && b.timer)
  pub in_kept : b.kept ≡ (b.parked && not b.timer)
  pub timed : b.timer ≡ true → b.parked ≡ true
  pub has_tmp : b.parked ≡ true → b.tmp ≢ none
  pub backoff : b.retry_in ≤ upload_retry_max

-- Besides, a buffer parked with no timer failed for good or has an excluded name.
pub record Inv (env : Env) (b : Buffer) : Type 0 where
  pub sets : InSets b
  pub held_name : b.parked ≡ true → b.timer ≡ false → b.failed ≡ false → env.excluded b.name ≡ true

pub park-Inv :
    (env : Env) (tmp : Bytes) (delay : ℕ) (b : Buffer)
    → (delay ≡ 0 → b.failed ≡ false → env.excluded b.name ≡ true)
    → b.parked ≡ false
    → Inv env b
    → Inv env (park tmp delay b)
unfolding park
park-Inv env tmp delay b named free v = ground arith

pub drop_buffer-Inv :
    (env : Env) (tmp : Bytes) (b : Buffer)
    → b.parked ≡ false
    → Inv env b
    → Inv env (drop_buffer tmp b)
unfolding drop_buffer
drop_buffer-Inv env tmp b free v = ground arith

pub keep_unsaved-Inv :
    (env : Env) (tmp : Bytes) (b : Buffer)
    → b.parked ≡ false
    → Inv env b
    → Inv env (keep_unsaved env tmp b)
unfolding keep_unsaved
keep_unsaved-Inv env tmp b free v = ground arith

pub discard-Inv :
    (env : Env) (tmp : Bytes) (b : Buffer)
    → b.parked ≡ false
    → Inv env b
    → Inv env (discard env tmp b)
unfolding discard
discard-Inv env tmp b free v = ground arith

pub keep_for_retry-Inv :
    (env : Env) (tmp : Bytes) (e : Err) (b : Buffer)
    → b.parked ≡ false
    → Inv env b
    → Inv env (keep_for_retry env tmp e b)
unfolding keep_for_retry
keep_for_retry-Inv env tmp e b free v = ground arith

-- Whatever its name, a buffer is in order once it was taken back.
pub unpark-Inv :
    (env : Env) (again : Bool) (b : Buffer)
    → InSets b
    → Inv env (unpark again b).1
      × ((unpark again b).1.parked ≡ false)
      × ((unpark again b).1.owns ≡ b.owns)
unfolding unpark
unpark-Inv env again b v = ground arith

pub unpark_free : (again : Bool) (b : Buffer) → b.parked ≡ false → unpark again b ≡ (false, b)
unfolding unpark
unpark_free again b h = ground arith

pub abandon-Inv :
    (env : Env) (b : Buffer)
    → Inv env b
    → Inv env (abandon env b) × ((abandon env b).parked ≡ false)
unfolding abandon
abandon-Inv env b v = ground arith
