-- ===== src/Fusefs/Transfers.antt =====
-- internal/fusefs/fusefs.go: the ring of finished transfers and the upload counters of mountState.
pub mod Window
pub mod Drained
use proton_drive_linux_fs.Base.{
  ℕ, ◌+◌, ◌-◌, String, Bool, ◌||◌, List, [], ◌∷◌, ◌++◌, ltb, ◌==◌, if◌then◌else◌, length, drop,
}

pub record RecentTransfer : Type 0 where
  pub path : String
  pub action : String
  pub status : String
  pub bytes : ℕ
  pub finished : ℕ
  pub error : String

abbrev pub recent_cap : ℕ
recent_cap = 50

unfoldable pub record_finished : RecentTransfer → List RecentTransfer → List RecentTransfer
record_finished rt recent =
    let longer = recent ++ rt ∷ [] in
    if ltb recent_cap (length longer) then drop (length longer - recent_cap) longer else longer

-- The loop of recentTransfers, which fills the result from its end.
fill_back : List RecentTransfer → List RecentTransfer → List RecentTransfer
fill_back [] out = out
fill_back (rt ∷ rts) out = fill_back rts (rt ∷ out)

-- Most recent first.
unfoldable pub recent_transfers : List RecentTransfer → List RecentTransfer
unfolding fill_back
recent_transfers recent = fill_back recent []

-- counterResetIdle, in nanoseconds.
abbrev pub counter_reset_idle : ℕ
counter_reset_idle = 30000000000

-- The atomic counters of mountState; `drained_at` is a time in nanoseconds, 0 for none.
pub record Counters : Type 0 where
  pub uploads_queued : ℕ
  pub uploads_done : ℕ
  pub uploads_failed : ℕ
  pub drained_at : ℕ

-- What uploadCounters publishes: queued, done, failed.
abbrev pub Progress : Type 0
Progress = ℕ × ℕ × ℕ

unfoldable pub upload_counters : ℕ → Counters → Progress × Counters
upload_counters now c =
    let shown : Progress = (c.uploads_queued, c.uploads_done, c.uploads_failed) in
    if c.uploads_queued == 0 || ltb (c.uploads_done + c.uploads_failed) c.uploads_queued
    then (shown, record c { drained_at = 0 })
    else if c.drained_at == 0
    then (shown, record c { drained_at = now })
    else if ltb (now - c.drained_at) counter_reset_idle
    then (shown, c)
    else (
      (0, 0, 0),
      record {
        uploads_queued = c.uploads_queued - c.uploads_queued;
        uploads_done = c.uploads_done - c.uploads_done;
        uploads_failed = c.uploads_failed - c.uploads_failed;
        drained_at = 0;
      },
    )
