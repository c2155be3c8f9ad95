-- ===== src/Fusefs/Listing/Persisted.antt =====
-- internal/fusefs/fusefs.go: what is written of a listing, and what an unmount finds to write.
use proton_drive_linux_fs.Base.{
  ℕ, zero, suc, ◌+◌, ◌≤◌, ◌≡◌, refl, true, Option, none, some, List, [], ◌∷◌, arith, All,
}
use proton_drive_linux_fs.Fusefs.Buffer.{Node}
use proton_drive_linux_fs.Fusefs.Release.{Errno}
use proton_drive_linux_fs.Fusefs.Listing.{
  Listing, Flush, idle, taken, written, patch_in, patch_out, expire, begin_load, serve_disk,
  start_fetch, finish_load, flush_take, flush_write, flush_untrack, discard_listing,
  schedule_persist, publish, persist_listing, persist_fetched, chosen_write, other_writes,
  written_by, Op, upserts, removes, schedules, expires_now, loads, serves_disk, fetch_starts,
  fetch_ends, persists, takes, writes, untracks, discards, step, run, fetch_ended,
}

abbrev pub Started : Option (Option ℕ) → ℕ → Type 0
Started (some (some g)) gen = g ≤ gen
Started _ gen = Unit {0}

-- What a flush has taken is no older than what was written last, and no newer than the listing.
abbrev pub InFlight : Flush → ℕ → ℕ → Type 0
InFlight (taken children g) persisted gen = (persisted ≤ g) × (g ≤ gen)
InFlight _ persisted gen = Unit {0}

-- The writes of fetches that wait are no newer than the listing.
abbrev pub AreOlder : List (List Node × ℕ) → ℕ → Type 0
AreOlder ws gen = All (λ w. w.1 ≤ gen) ws

-- A timer is one that an unmount finds; what was written is no newer than the listing, and no fetch
-- or write on its way is.
pub record IsPersisted (d : Listing) : Type 0 where
  pub found : d.persist_timer ≡ true → d.tracked ≡ true
  pub persisted : d.persisted_gen ≤ d.gen
  pub started : Started d.loading d.gen
  pub flight : InFlight d.flushing d.persisted_gen d.gen
  pub waiting : AreOlder d.writes d.gen

-- The new state is in order, and its generation last written is not lower.
abbrev Goes : Listing → Listing → Type 0
Goes d e = IsPersisted e × (d.persisted_gen ≤ e.persisted_gen)

AreOlder-raised : (ws : List (List Node × ℕ)) (gen : ℕ) → AreOlder ws gen → AreOlder ws (gen + 1)
AreOlder-raised [] gen h = tt
AreOlder-raised (w ∷ ws) gen (h, hs) = (omega (arith, h), AreOlder-raised ws gen hs)

other_writes-AreOlder :
    (i : ℕ) (ws : List (List Node × ℕ)) (gen : ℕ)
    → AreOlder ws gen
    → AreOlder (other_writes i ws) gen
unfolding other_writes
other_writes-AreOlder i [] gen h = tt
other_writes-AreOlder zero (w ∷ ws) gen (h, hs) = hs
other_writes-AreOlder (suc i) (w ∷ ws) gen (h, hs) = (h, other_writes-AreOlder i ws gen hs)

chosen_write-le :
    (i : ℕ) (ws : List (List Node × ℕ)) (gen : ℕ) (w : List Node × ℕ)
    → AreOlder ws gen
    → chosen_write i ws ≡ some w
    → w.1 ≤ gen
unfolding chosen_write
chosen_write-le i [] gen w h e = absurd (cc)
chosen_write-le zero (v ∷ ws) gen w (h, hs) e = ground (arith, h, e)
chosen_write-le (suc i) (v ∷ ws) gen w (h, hs) e = chosen_write-le i ws gen w hs e

written_by-IsPersisted :
    (w : Option (List Node × ℕ)) (d : Listing)
    → ((v : List Node × ℕ) → w ≡ some v → v.1 ≤ d.gen)
    → d.flushing ≡ idle
    → IsPersisted d
    → Goes d (written_by w d)
unfolding written_by persist_listing
written_by-IsPersisted none d le free v = (v, omega arith)
written_by-IsPersisted (some (children, g)) d le free v =
    let older : g ≤ d.gen = le (children, g) refl in ground (arith, older, free)

persist_fetched-IsPersisted :
    (i : ℕ) (d : Listing) (f : Flush)
    → d.flushing ≡ f
    → IsPersisted d
    → Goes d (persist_fetched i d)
unfolding persist_fetched
persist_fetched-IsPersisted i d idle e v =
    let left = record d { writes = other_writes i d.writes } in
    let valid : IsPersisted left = record {
      found = v.found;
      persisted = v.persisted;
      started = v.started;
      flight = v.flight;
      waiting = other_writes-AreOlder i d.writes d.gen v.waiting;
    } in
    rw (e, persist_fetched)
      (written_by-IsPersisted (chosen_write i d.writes) left
        (λ w. chosen_write-le i d.writes d.gen w v.waiting) e valid)
persist_fetched-IsPersisted i d (taken children g) e v = rw (e, persist_fetched) (v, omega arith)
persist_fetched-IsPersisted i d written e v = rw (e, persist_fetched) (v, omega arith)

fetch_ended-IsPersisted :
    (ttl now : ℕ) (errno : Option Errno) (fetched : List Node) (l : Option (Option ℕ)) (d : Listing)
    → Started l d.gen
    → IsPersisted d
    → Goes d (fetch_ended ttl now errno fetched l d)
unfolding fetch_ended finish_load publish
fetch_ended-IsPersisted ttl now errno fetched none d s v = (v, ground arith)
fetch_ended-IsPersisted ttl now errno fetched (some none) d s v = (v, ground arith)
fetch_ended-IsPersisted ttl now none fetched (some (some g)) d s v = ground arith
fetch_ended-IsPersisted ttl now (some errno) fetched (some (some g)) d s v = ground arith

pub step-IsPersisted : (op : Op) (d : Listing) → IsPersisted d → Goes d (step op d)
unfolding step patch_in patch_out expire begin_load serve_disk start_fetch flush_take flush_write
    flush_untrack discard_listing schedule_persist persist_listing
step-IsPersisted (upserts n) d v = ground (arith, AreOlder-raised d.writes d.gen v.waiting)
step-IsPersisted (removes name) d v = ground (arith, AreOlder-raised d.writes d.gen v.waiting)
step-IsPersisted schedules d v = ground arith
step-IsPersisted expires_now d v = ground arith
step-IsPersisted (loads now) d v = ground arith
step-IsPersisted (serves_disk children) d v = ground arith
step-IsPersisted fetch_starts d v = ground arith
step-IsPersisted (fetch_ends ttl now errno fetched) d v =
    fetch_ended-IsPersisted ttl now errno fetched d.loading d v.started v
step-IsPersisted (persists i) d v = persist_fetched-IsPersisted i d d.flushing refl v
step-IsPersisted takes d v = ground arith
step-IsPersisted writes d v = ground arith
step-IsPersisted untracks d v = ground arith
step-IsPersisted discards d v = ground arith

pub run-IsPersisted :
    (ops : List Op) (d : Listing)
    → IsPersisted d
    → IsPersisted (run ops d) × (d.persisted_gen ≤ (run ops d).persisted_gen)
unfolding run
run-IsPersisted [] d v = (v, ground arith)
run-IsPersisted (op ∷ ops) d v =
    let (valid, grows) = step-IsPersisted op d v in
    let (all_valid, all_grow) = run-IsPersisted ops (step op d) valid in (all_valid, omega arith)
