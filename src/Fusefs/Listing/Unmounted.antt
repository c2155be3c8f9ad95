-- ===== src/Fusefs/Listing/Unmounted.antt =====
-- internal/fusefs/fusefs.go: what flushListings at unmount leaves on disk.
use proton_drive_linux_fs.Base.{
  ℕ, ◌≡◌, refl, ◌∙◌, subst, Bool, true, false, Option, none, some, List, [], ◌∷◌, arith, All,
}
use proton_drive_linux_fs.Fusefs.Buffer.{Node}
use proton_drive_linux_fs.Fusefs.Release.{Errno}
use proton_drive_linux_fs.Fusefs.Listing.{
  Listing, Flush, idle, taken, written, patch_in, patch_out, expire, begin_load, serve_disk,
  start_fetch, finish_load, flush_take, flush_write, flush_untrack, flush_listing, flush_listings,
  discard_listing, schedule_persist, publish, persist_listing, persist_fetched, Op, upserts,
  removes, schedules, expires_now, loads, serves_disk, fetch_starts, fetch_ends, persists, takes,
  writes, untracks, discards, step, run, fetch_ended,
}
use proton_drive_linux_fs.Fusefs.Listing.Persisted.{
  IsPersisted, InFlight, step-IsPersisted, run-IsPersisted,
}

-- An operation that may run while a flush has taken the listing: any but that flush's own stretches.
abbrev pub leaves_flush : Op → Bool
leaves_flush writes = false
leaves_flush untracks = false
leaves_flush _ = true

fetch_ended-flushing :
    (ttl now : ℕ) (errno : Option Errno) (fetched : List Node) (l : Option (Option ℕ)) (d : Listing)
    → (fetch_ended ttl now errno fetched l d).flushing ≡ d.flushing
unfolding fetch_ended finish_load publish
fetch_ended-flushing ttl now errno fetched none d = refl
fetch_ended-flushing ttl now errno fetched (some none) d = refl
fetch_ended-flushing ttl now none fetched (some (some g)) d = ground arith
fetch_ended-flushing ttl now (some errno) fetched (some (some g)) d = ground arith

step-flushing :
    (op : Op) (d : Listing) (children : Option (List Node)) (g : ℕ)
    → leaves_flush op ≡ true
    → d.flushing ≡ taken children g
    → (step op d).flushing ≡ taken children g
unfolding step patch_in patch_out expire begin_load serve_disk start_fetch flush_take
    discard_listing schedule_persist persist_fetched
step-flushing (upserts n) d c g k e = ground (arith, e)
step-flushing (removes name) d c g k e = ground (arith, e)
step-flushing schedules d c g k e = ground (arith, e)
step-flushing expires_now d c g k e = ground (arith, e)
step-flushing (loads now) d c g k e = ground (arith, e)
step-flushing (serves_disk children) d c g k e = ground (arith, e)
step-flushing fetch_starts d c g k e = ground (arith, e)
step-flushing (fetch_ends ttl now errno fetched) d c g k e =
    fetch_ended-flushing ttl now errno fetched d.loading d ∙ e
step-flushing (persists i) d c g k e = rw (e, persist_fetched) e
step-flushing takes d c g k e = rw (e, flush_take) e
step-flushing writes d c g k e = absurd (cc)
step-flushing untracks d c g k e = absurd (cc)
step-flushing discards d c g k e = ground (arith, e)

run-flushing :
    (ops : List Op) (d : Listing) (children : Option (List Node)) (g : ℕ)
    → All (λ op. leaves_flush op ≡ true) ops
    → d.flushing ≡ taken children g
    → (run ops d).flushing ≡ taken children g
unfolding run
run-flushing [] d c g k e = e
run-flushing (op ∷ ops) d c g (k, ks) e =
    run-flushing ops (step op d) c g ks (step-flushing op d c g k e)

flush_write-taken :
    (d : Listing) (children : Option (List Node)) (g : ℕ)
    → IsPersisted d
    → d.flushing ≡ taken children g
    → (flush_write d).disk ≡ children
unfolding flush_write persist_listing
flush_write-taken d c g v e =
    rw (e, flush_write) (ground (arith, subst (λ f. InFlight f d.persisted_gen d.gen) e v.flight))

-- A flush lets the next one in, with its timer, if it was armed again, and its listing.
finished :
    (d : Listing)
    → d.persist_timer ≡ true
    → ((flush_untrack (flush_write d)).flushing ≡ idle)
      × ((flush_untrack (flush_write d)).persist_timer ≡ true)
      × ((flush_untrack (flush_write d)).children ≡ d.children)
unfolding flush_untrack flush_write persist_listing
finished d h = by_flight d.flushing refl
  where
    by_flight :
        (f : Flush)
        → d.flushing ≡ f
        → ((flush_untrack (flush_write d)).flushing ≡ idle)
          × ((flush_untrack (flush_write d)).persist_timer ≡ true)
          × ((flush_untrack (flush_write d)).children ≡ d.children)
    by_flight idle e = ground (arith, e, h)
    by_flight written e = ground (arith, e, h)
    by_flight (taken c g) e = ground (arith, e, h)

took :
    (d : Listing)
    → d.flushing ≡ idle
    → d.persist_timer ≡ true
    → (flush_take d).flushing ≡ taken d.children d.gen
unfolding flush_take
took d e h = rw (e, h, flush_take) refl

took_timer :
    (d : Listing)
    → d.flushing ≡ idle
    → d.persist_timer ≡ true
    → (flush_take d).persist_timer ≡ false
unfolding flush_take
took_timer d e h = rw (e, h, flush_take) refl

ended_timer :
    (d : Listing) → d.persist_timer ≡ false → (flush_untrack (flush_write d)).persist_timer ≡ false
unfolding flush_untrack flush_write persist_listing
ended_timer d h = by_flight d.flushing refl
  where
    by_flight : (f : Flush) → d.flushing ≡ f → (flush_untrack (flush_write d)).persist_timer ≡ false
    by_flight idle e = ground (arith, e, h)
    by_flight written e = ground (arith, e, h)
    by_flight (taken c g) e = ground (arith, e, h)

disk-flush_untrack : (d : Listing) → (flush_untrack d).disk ≡ d.disk
unfolding flush_untrack
disk-flush_untrack d = ground arith

-- A flush that waited for the one in flight and has taken the listing.
abbrev pub waited_and_took : Listing → Listing
waited_and_took d = flush_take (flush_untrack (flush_write d))

waited_and_took-IsPersisted : (d : Listing) → IsPersisted d → IsPersisted (waited_and_took d)
unfolding step
waited_and_took-IsPersisted d v =
    let w = (step-IsPersisted writes d v).0 in
    let u = (step-IsPersisted untracks (flush_write d) w).0 in
    (step-IsPersisted takes (flush_untrack (flush_write d)) u).0

-- What a flush takes is written, whatever runs before its write.
take_writes :
    (during : List Op) (d : Listing)
    → IsPersisted d
    → d.persist_timer ≡ true
    → All (λ op. leaves_flush op ≡ true) during
    → (flush_write (run during (waited_and_took d))).disk ≡ d.children
take_writes during d v h k =
    let (free, armed, same) = finished d h in
    let u = flush_untrack (flush_write d) in
    let still = run-flushing during (waited_and_took d) u.children u.gen k (took u free armed) in
    let valid = (run-IsPersisted during (waited_and_took d) (waited_and_took-IsPersisted d v)).0 in
    flush_write-taken (run during (waited_and_took d)) u.children u.gen valid still ∙ same

-- After any stretches of operations on a listing in order, with a timer set: flushListings at
-- unmount, which waits for a flush in flight, writes the listing as it is then and leaves no timer,
-- when nothing else runs; and if after its first stretch anything but its own stretches runs, its
-- write still puts on disk the listing as it was at that first stretch.
pub unmount_writes :
    (before during : List Op) (d : Listing)
    → IsPersisted d
    → (run before d).persist_timer ≡ true
    → All (λ op. leaves_flush op ≡ true) during
    → ((flush_listings (run before d)).disk ≡ (run before d).children)
      × ((flush_listings (run before d)).persist_timer ≡ false)
      × ((flush_write (run during (waited_and_took (run before d)))).disk ≡ (run before d).children)
unfolding flush_listings flush_listing run
unmount_writes before during d v h k =
    let r = run before d in
    let valid = (run-IsPersisted before d v).0 in
    let (free, armed, same) = finished r h in
    let tracked = valid.found h in
    rw (tracked, flush_listings)
      (
        disk-flush_untrack (flush_write (waited_and_took r)) ∙ take_writes [] r valid h tt,
        ended_timer (waited_and_took r) (took_timer (flush_untrack (flush_write r)) free armed),
        take_writes during r valid h k,
      )
