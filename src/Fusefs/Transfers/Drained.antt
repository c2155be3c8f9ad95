-- ===== src/Fusefs/Transfers/Drained.antt =====
-- internal/fusefs/fusefs.go: when the upload counters go back to zero.
use proton_drive_linux_fs.Base.{ℕ, ◌+◌, ◌≤◌, ◌<◌, ◌≡◌, ◌⊎◌, arith}
use proton_drive_linux_fs.Fusefs.Transfers.{Counters, counter_reset_idle, upload_counters}

-- Every upload handed over has finished or given up.
abbrev pub IsDrained : Counters → Type 0
IsDrained c = c.uploads_queued ≤ c.uploads_done + c.uploads_failed

-- uploadCounters returns the counters as they are, or it resets them, and that only when the queue
-- is drained and was first seen so at least thirty seconds before.
pub upload_counters_reset :
    (now : ℕ) (c : Counters)
    → ((upload_counters now c).0 ≡ (c.uploads_queued, c.uploads_done, c.uploads_failed))
      ⊎ (IsDrained c
          × (0 < c.drained_at)
          × (c.drained_at + counter_reset_idle ≤ now)
          × (upload_counters now c ≡ (
            (0, 0, 0),
            record { uploads_queued = 0; uploads_done = 0; uploads_failed = 0; drained_at = 0 },
          )))
unfolding upload_counters
upload_counters_reset now c = ground arith

-- A queue that is not drained stops the clock, and a drained one keeps the time it was first seen.
pub upload_counters_clock :
    (now : ℕ) (c : Counters)
    → 0 < now
    → let d = (upload_counters now c).1.drained_at in
      (d ≡ 0) ⊎ (IsDrained c × ((d ≡ now) ⊎ (d ≡ c.drained_at)))
unfolding upload_counters
upload_counters_clock now c h = ground arith
