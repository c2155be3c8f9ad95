-- ===== src/Drive/File/Flight.antt =====
-- internal/drive/file.go: several callers of getBlock on one open file at once. Each caller's steps
-- are those between which others run; the fetch itself is one step, since only its changes to the
-- File, which it makes under f.mu, are seen by the others.
pub mod Claims
pub mod Single
pub mod Steps
pub mod Ends
pub mod Honest
use proton_drive_linux_fs.Base.{
  set_at, ℕ, zero, suc, ◌<◌, ◌≡◌, Bool, true, false, Option, none, some, List, [], ◌==◌,
  if◌then◌else◌, lookup, insert, delete, nat_key,
}
use proton_drive_linux_fs.Drive.Errors.{Err, Result, ok, err, fetch_missing}
use proton_drive_linux_fs.Drive.Read.{Bytes}
use proton_drive_linux_fs.Drive.File.{Remote, State, fetch_and_cache_block}

-- Where a caller stands in getBlock.
pub data Phase : Type 0 where
  started : Phase  -- before the look into the cache
  missed : Phase  -- before claimBlock
  fetching : Phase  -- before and in fetchAndCacheBlock
  fetched : Result Bytes → Phase  -- before releaseBlock
  unclaimed : Result Bytes → Phase  -- in releaseBlock, after the Delete
  waiting : (winner : ℕ) → Phase  -- in the select
  woken : Phase  -- before the second look into the cache
  returned : Result Bytes → Phase

pub record Caller : Type 0 where
  pub idx : ℕ
  pub phase : Phase

-- `inflight` names for a block the caller who claimed it, whose blockFetch the others wait on.
-- `fetches` is what stands in each caller's blockFetch once its channel is closed.
pub record Flight (W : Type 0) : Type 0 where
  pub state : State W
  pub inflight : List (ℕ × ℕ)
  pub fetches : ℕ → Option (Option Err)
  pub callers : ℕ → Caller

-- The err that releaseBlock is called with.
pub error_of : Result Bytes → Option Err
error_of (ok block) = none
error_of (err e) = some e

pub cached : Option Bytes → Phase → Phase
cached (some block) otherwise = returned (ok block)
cached none otherwise = otherwise

-- The select of a caller who waits, and the check of fetch.err: `ctx` is ctx.Err() if the context
-- is done and its case is taken.
pub answered : Option Err → Option (Option Err) → Option Phase
answered (some e) closed = some (returned (err e))
answered none none = none
answered none (some (some e)) = some (returned (err e))
answered none (some none) = some woken

module _ {W : Type 0} where
  unfoldable pub claim_block : ℕ → ℕ → Flight W → Phase × Flight W
  claim_block i idx fl = elim (lookup idx fl.inflight) [
    | some winner ↦ (waiting winner, fl)
    | none ↦ (fetching, record fl { inflight = insert idx i fl.inflight })
  ]

  unfoldable pub unclaim_block : ℕ → Flight W → Flight W
  unclaim_block idx fl = record fl { inflight = delete idx fl.inflight }

  unfoldable pub close_fetch : ℕ → Option Err → Flight W → Flight W
  close_fetch i e fl = record fl { fetches = set_at i (some e) fl.fetches }

  pub with_flight : Option Phase → Flight W → Option (Phase × Flight W)
  with_flight none fl = none
  with_flight (some p) fl = some (p, fl)

  fetch_result : Result Bytes × State W → Flight W → Phase × Flight W
  fetch_result (r, s) fl = (fetched r, record fl { state = s })

  pub set_phase : ℕ → ℕ → Option (Phase × Flight W) → Option (Flight W)
  set_phase i idx none = none
  set_phase i idx (some (p, fl)) =
      some (record fl { callers = set_at i (record { idx = idx; phase = p }) fl.callers })

module _ {W : Type 0} (remote : Remote W) where
  -- What caller `i` does next; none if it waits or has returned.
  act : ℕ → Option Err → ℕ → Phase → Flight W → Option (Phase × Flight W)
  unfolding cached claim_block fetch_result unclaim_block close_fetch with_flight answered error_of
  act i ctx idx started fl = some (cached (lookup idx fl.state.file.cache) missed, fl)
  act i ctx idx missed fl = some (claim_block i idx fl)
  act i ctx idx fetching fl = some (fetch_result (fetch_and_cache_block remote fl.state idx) fl)
  act i ctx idx (fetched r) fl = some (unclaimed r, unclaim_block idx fl)
  act i ctx idx (unclaimed r) fl = some (returned r, close_fetch i (error_of r) fl)
  act i ctx idx (waiting winner) fl = with_flight (answered ctx (fl.fetches winner)) fl
  act i ctx idx woken fl =
      some (cached (lookup idx fl.state.file.cache) (returned (err fetch_missing)), fl)
  act i ctx idx (returned r) fl = none

  unfoldable pub turn : ℕ → Option Err → Flight W → Option (Flight W)
  unfolding act set_phase
  turn i ctx fl =
      let caller = fl.callers i in set_phase i caller.idx (act i ctx caller.idx caller.phase fl)

  -- The flights that `n` callers reach by `k` steps, in any order.
  pub data Reach (n : ℕ) (first : Flight W) : ℕ → Flight W → Type 0 where
    begun : Reach n first zero first
    later :
        {k : ℕ} {fl next : Flight W} (i : ℕ) (ctx : Option Err)
        → i < n
        → Reach n first k fl
        → turn i ctx fl ≡ some next
        → Reach n first (suc k) next

-- Caller `i` asks for block `which i`, and nobody has begun.
abbrev pub all_started : {W : Type 0} → State W → (ℕ → ℕ) → Flight W
all_started s which = record {
  state = s;
  inflight = [];
  fetches = λ i. none;
  callers = λ i. record { idx = which i; phase = started };
}
