-- ===== src/Fusefs/Listing.antt =====
-- internal/fusefs/fusefs.go: the cached listing of one directory: dirNode's load and its parts, the
-- patches of handlers, and the listing on disk. Each step is one stretch under d.mu, or the write
-- under d.persistMu, but for the end of a fetch, which puts the errno and the listing into one; what
-- runs between them is any sequence of others. Times are milliseconds, and the zero time is 0.
pub mod Entries
pub mod Fetches
pub mod Persisted
pub mod Unmounted
use proton_drive_linux_fs.Base.{
  ℕ, zero, suc, ◌+◌, String, Bool, true, false, not, ◌&&◌, ◌||◌, Option, none, some, List, [], ◌∷◌,
  ◌++◌, arith, ltb, ◌==◌, if◌then◌else◌, min, str_eq,
}
use proton_drive_linux_fs.Fusefs.Buffer.{Node}
use proton_drive_linux_fs.Fusefs.Release.{Errno, success, etimedout}

-- A flushListing that holds persistMu: with the listing and the generation that it took, before its
-- write, and then before its last look at the timer. One that waits for persistMu has done nothing.
pub data Flush : Type 0 where
  idle : Flush
  taken : Option (List Node) → ℕ → Flush
  written : Flush

-- `loading` is the channel of the fetch in flight: none, or some with d.gen as it was when the fetch
-- read it, which is nothing before that. `disk` is the listing on disk; `tracked` is
-- membership in mountState's dirtyListings; `writes` are the persistListing calls of fetches that
-- wait for persistMu.
pub record Listing : Type 0 where
  pub children : Option (List Node)
  pub expires : ℕ
  pub gen : ℕ
  pub loading : Option (Option ℕ)
  pub load_errno : Errno
  pub persisted_gen : ℕ
  pub persist_timer : Bool
  pub tracked : Bool
  pub disk : Option (List Node)
  pub flushing : Flush
  pub writes : List (List Node × ℕ)

abbrev pub failed_load_cooldown : ℕ
failed_load_cooldown = 5000

unfoldable pub upsert_node : List Node → Node → List Node
upsert_node [] n = n ∷ []
upsert_node (ch ∷ children) n =
    let rest = upsert_node children n in
    if str_eq ch.link_id n.link_id || str_eq ch.name n.name then n ∷ children else ch ∷ rest

kept_back : Node → Option Node × List Node → Option Node × List Node
kept_back ch (none, rest) = (none, ch ∷ rest)
kept_back ch (some n, rest) = (some n, ch ∷ rest)

unfoldable pub remove_node : List Node → String → Option Node × List Node
unfolding kept_back
remove_node [] name = (none, [])
remove_node (ch ∷ children) name =
    let rest = remove_node children name in
    if str_eq ch.name name then (some ch, children) else kept_back ch rest

abbrev pub or_empty : Option (List Node) → List Node
or_empty none = []
or_empty (some children) = children

-- schedulePersist
unfoldable pub schedule_persist : Listing → Listing
schedule_persist d =
    if d.persist_timer then d else record d { persist_timer = true; tracked = true }

-- upsertChild and removeChild, less the parents map and the thumbnails: the stretch that patches the
-- listing, and the whole, when nothing runs between it and schedulePersist. A nil listing that loses
-- a name stays nil.
unfoldable pub patch_in : Node → Listing → Listing
patch_in n d = record d { children = some (upsert_node (or_empty d.children) n); gen = d.gen + 1 }

unfoldable pub patch_out : String → Listing → Listing
patch_out name d =
    let children : Option (List Node) = elim d.children [
      | none ↦ none
      | some there ↦ some (remove_node there name).1
    ] in
    record d { children = children; gen = d.gen + 1 }

unfoldable pub upsert_child : Node → Listing → Listing
unfolding patch_in schedule_persist
upsert_child n d = schedule_persist (patch_in n d)

unfoldable pub remove_child : String → Listing → Listing
unfolding patch_out schedule_persist
remove_child name d = schedule_persist (patch_out name d)

unfoldable pub expire : Listing → Listing
expire d = record d { expires = 0 }

pub data StaleDecision : Type 0 where
  serve_stale fail_rate_limited fail_refresh : StaleDecision

unfoldable pub decide_stale : Bool → Bool → Bool → StaleDecision
decide_stale has_cached refresh_failed rate_limited =
    if has_cached && (refresh_failed || rate_limited)
    then serve_stale
    else if rate_limited
    then fail_rate_limited
    else fail_refresh

-- What a caller of load does: it has its answer, it starts the fetch, or it waits for one.
pub data Turn : Type 0 where
  answered : Option (List Node) → Errno → Turn
  owns_fetch waits : Turn

-- load's test of the rate limit, with the answer when there is one.
unfoldable pub answer_limited : Listing → Turn
unfolding decide_stale
answer_limited d = elim d.children [
  | none ↦ elim (decide_stale false false true) [
    | serve_stale ↦ answered none success
    | _ ↦ answered none etimedout
  ]
  | some children ↦ elim (decide_stale true false true) [
    | serve_stale ↦ answered (some children) success
    | _ ↦ answered none etimedout
  ]
]

-- Whether there is a listing that has not expired.
unfoldable pub is_fresh : ℕ → Listing → Bool
is_fresh now d = elim d.children [ none ↦ false | some _ ↦ ltb now d.expires ]

-- beginLoad
unfoldable pub begin_load : ℕ → Listing → Turn × Listing
unfolding is_fresh
begin_load now d = if is_fresh now d then (answered d.children success, d) else elim d.loading [
  | some _ ↦ (waits, d)
  | none ↦ (owns_fetch, record d { loading = some none })
]

-- serveFromDiskCache: its first look, and its second once the listing on disk was read.
unfoldable pub is_cold : Listing → Bool
is_cold d = elim d.children [
  | some _ ↦ false
  | none ↦ elim d.loading [ none ↦ true | some _ ↦ false ]
]

unfoldable pub serve_disk : List Node → Listing → Turn × Listing
unfolding is_cold
serve_disk children d =
    if is_cold d
    then (
      answered (some children) success,
      record d { children = some children; expires = 0; loading = some none },
    )
    else (answered (some children) success, d)

-- finishLoad's first lines.
unfoldable pub start_fetch : Listing → Listing
start_fetch d = elim d.loading [ some none ↦ record d { loading = some (some d.gen) } | _ ↦ d ]

unfoldable pub should_publish : Bool → ℕ → ℕ → Bool
should_publish had_children start_gen cur_gen = not had_children || start_gen == cur_gen

abbrev pub had_children : Listing → Bool
had_children d = elim d.children [ none ↦ false | some _ ↦ true ]

-- publish; `ttl` is d.ttl, and the fetch is nothing when it failed.
unfoldable pub publish : ℕ → ℕ → Option (List Node) → ℕ → Listing → Listing
unfolding should_publish
publish ttl now none start_gen d = record d {
  loading = none;
  expires = now + min ttl failed_load_cooldown;
}
publish ttl now (some fetched) start_gen d =
    let kept =
      if should_publish (had_children d) start_gen d.gen then some fetched else d.children in
    record d { loading = none; children = kept; expires = now + ttl }

-- persistListingLocked
unfoldable pub persist_listing : Option (List Node) → ℕ → Listing → Listing
persist_listing children gen d =
    if ltb gen d.persisted_gen then d else record d { persisted_gen = gen; disk = children }

-- finishLoad, once the fetch has answered: the errno of a failure is recorded, then the listing is
-- published and, if there is one, its write asks for persistMu.
unfoldable pub finish_load : ℕ → ℕ → Option Errno → List Node → ℕ → Listing → Listing
unfolding publish
finish_load ttl now (some errno) fetched start_gen d =
    publish ttl now none start_gen (record d { load_errno = errno })
finish_load ttl now none fetched start_gen d =
    let d = publish ttl now (some fetched) start_gen (record d { load_errno = success }) in
    record d { writes = (fetched, start_gen) ∷ d.writes }

chosen_write : ℕ → List (List Node × ℕ) → Option (List Node × ℕ)
chosen_write i [] = none
chosen_write zero (w ∷ ws) = some w
chosen_write (suc i) (w ∷ ws) = chosen_write i ws

other_writes : ℕ → List (List Node × ℕ) → List (List Node × ℕ)
other_writes i [] = []
other_writes zero (w ∷ ws) = ws
other_writes (suc i) (w ∷ ws) = w ∷ other_writes i ws

written_by : Option (List Node × ℕ) → Listing → Listing
unfolding persist_listing
written_by none d = d
written_by (some (children, gen)) d = persist_listing (some children) gen d

-- persistListing of a fetch, which one of those that wait, when no flush holds persistMu.
unfoldable pub persist_fetched : ℕ → Listing → Listing
unfolding chosen_write other_writes written_by
persist_fetched i d = elim d.flushing [
  | idle ↦ written_by (chosen_write i d.writes) (record d { writes = other_writes i d.writes })
  | _ ↦ d
]

-- loadResult, at the time `now`.
is_success : Errno → Bool
is_success success = true
is_success _ = false

stale_answer : List Node → Listing → Turn
unfolding decide_stale is_success
stale_answer children d = elim (decide_stale true (not (is_success d.load_errno)) false) [
  | serve_stale ↦ answered (some children) success
  | _ ↦ answered none d.load_errno
]

unfoldable pub load_result : ℕ → Listing → Turn
unfolding stale_answer
load_result now d = elim d.children [
  | none ↦ answered none d.load_errno
  | some children ↦
      if ltb now d.expires then answered (some children) success else stale_answer children d
]

-- flushListing: its first stretch under d.mu, once it holds persistMu; its write; its second stretch
-- under d.mu, after which it lets go of persistMu.
unfoldable pub flush_take : Listing → Listing
flush_take d = elim d.flushing [
  | idle ↦
      if not d.persist_timer
      then d
      else record d { persist_timer = false; flushing = taken d.children d.gen }
  | _ ↦ d
]

unfoldable pub flush_write : Listing → Listing
unfolding persist_listing
flush_write d = elim d.flushing [
  | taken children gen ↦ persist_listing children gen (record d { flushing = written })
  | _ ↦ d
]

unfoldable pub flush_untrack : Listing → Listing
flush_untrack d = elim d.flushing [
  | written ↦
      if d.persist_timer
      then record d { flushing = idle }
      else record d { flushing = idle; tracked = false }
  | _ ↦ d
]

-- The whole, with nothing between the stretches: the flush in flight comes to its end, and lets the
-- next one through.
unfoldable pub flush_listing : Listing → Listing
unfolding flush_take flush_write flush_untrack
flush_listing d = flush_untrack (flush_write (flush_take (flush_untrack (flush_write d))))

unfoldable pub discard_listing : Listing → Listing
discard_listing d =
    if not d.persist_timer then d else record d { persist_timer = false; tracked = false }

-- flushListings: only what is tracked is flushed.
unfoldable pub flush_listings : Listing → Listing
unfolding flush_listing
flush_listings d = if d.tracked then flush_listing d else d

-- What reaches a listing, with what the outside answers: the patches and the schedulePersist after
-- each, the time, the directory's ttl, the
-- listing on disk, and the fetch's result; the writes of fetches, and the stretches of a flush.
pub data Op : Type 0 where
  upserts : Node → Op
  removes : String → Op
  schedules : Op
  expires_now : Op
  loads : ℕ → Op
  serves_disk : List Node → Op
  fetch_starts : Op
  fetch_ends : ℕ → ℕ → Option Errno → List Node → Op
  persists : ℕ → Op
  takes writes untracks : Op
  discards : Op

fetch_ended : ℕ → ℕ → Option Errno → List Node → Option (Option ℕ) → Listing → Listing
unfolding finish_load
fetch_ended ttl now errno fetched (some (some start_gen)) d =
    finish_load ttl now errno fetched start_gen d
fetch_ended ttl now errno fetched _ d = d

unfoldable pub step : Op → Listing → Listing
unfolding fetch_ended
step (upserts n) d = patch_in n d
step (removes name) d = patch_out name d
step schedules d = schedule_persist d
step expires_now d = expire d
step (loads now) d = (begin_load now d).1
step (serves_disk children) d = (serve_disk children d).1
step fetch_starts d = start_fetch d
step (fetch_ends ttl now errno fetched) d = fetch_ended ttl now errno fetched d.loading d
step (persists i) d = persist_fetched i d
step takes d = flush_take d
step writes d = flush_write d
step untracks d = flush_untrack d
step discards d = discard_listing d

unfoldable pub run : List Op → Listing → Listing
run [] d = d
run (op ∷ ops) d = run ops (step op d)
