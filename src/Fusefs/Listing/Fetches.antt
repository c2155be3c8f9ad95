-- ===== src/Fusefs/Listing/Fetches.antt =====
-- internal/fusefs/fusefs.go: what a caller of load gets, and what a fetch does to a listing.
use proton_drive_linux_fs.Base.{
  ℕ, ◌≤◌, ◌<◌, ◌≡◌, ◌≢◌, ◌∙◌, Bool, true, false, Option, none, some, List, [], ◌∷◌, arith, All,
}
use proton_drive_linux_fs.Fusefs.Buffer.{Node}
use proton_drive_linux_fs.Fusefs.Release.{Errno, success}
use proton_drive_linux_fs.Fusefs.Listing.{
  Listing, answered, upsert_child, upsert_node, expire, begin_load, serve_disk, start_fetch,
  finish_load, patch_in, patch_out, persist_fetched, chosen_write, other_writes, written_by,
  flush_take, flush_write, flush_untrack, discard_listing, load_result, answer_limited,
  schedule_persist, is_success, had_children, publish, persist_listing, Op, upserts, removes,
  expires_now, loads, serves_disk, fetch_starts, fetch_ends, schedules, persists, takes, writes,
  untracks, discards, step, run, stale_answer, decide_stale,
}

-- After a fetch that failed, or while Proton limits the rate, load answers with the cached listing
-- whenever there is one, however old it is.
pub cached_listing_served :
    (now : ℕ) (children : List Node) (d : Listing)
    → d.children ≡ some children
    → d.load_errno ≢ success
    → (load_result now d ≡ answered (some children) success)
      × (answer_limited d ≡ answered (some children) success)
unfolding load_result answer_limited stale_answer decide_stale is_success
cached_listing_served now children d h e = ground arith

-- No fetch ends.
abbrev pub ends_no_fetch : Op → Bool
ends_no_fetch (fetch_ends ttl now errno fetched) = false
ends_no_fetch _ = true

written_by_newer :
    (w : Option (List Node × ℕ)) (g : ℕ) (d : Listing)
    → g < d.gen
    → had_children d ≡ true
    → (g < (written_by w d).gen) × (had_children (written_by w d) ≡ true)
unfolding written_by persist_listing
written_by_newer none g d h c = (h, c)
written_by_newer (some (children, gen)) g d h c = ground arith

persist_fetched_newer :
    (i g : ℕ) (d : Listing)
    → g < d.gen
    → had_children d ≡ true
    → (g < (persist_fetched i d).gen) × (had_children (persist_fetched i d) ≡ true)
unfolding persist_fetched
persist_fetched_newer i g d h c =
    let left = record d { writes = other_writes i d.writes } in
    let kept = written_by_newer (chosen_write i d.writes) g left h c in ground (arith, kept)

-- Besides, what is there stays newer than the fetch.
step_newer :
    (op : Op) (g : ℕ) (d : Listing)
    → ends_no_fetch op ≡ true
    → g < d.gen
    → had_children d ≡ true
    → (g < (step op d).gen) × (had_children (step op d) ≡ true)
unfolding step patch_in patch_out expire begin_load serve_disk start_fetch flush_take flush_write
    flush_untrack discard_listing schedule_persist persist_listing
step_newer (upserts n) g d k h c = ground arith
step_newer (removes name) g d k h c = ground arith
step_newer expires_now g d k h c = ground arith
step_newer (loads now) g d k h c = ground arith
step_newer (serves_disk children) g d k h c = ground arith
step_newer fetch_starts g d k h c = ground arith
step_newer (fetch_ends ttl now errno fetched) g d k h c = absurd (ground arith)
step_newer schedules g d k h c = ground arith
step_newer (persists i) g d k h c = persist_fetched_newer i g d h c
step_newer takes g d k h c = ground arith
step_newer writes g d k h c = ground arith
step_newer untracks g d k h c = ground arith
step_newer discards g d k h c = ground arith

run_newer :
    (ops : List Op) (g : ℕ) (d : Listing)
    → All (λ op. ends_no_fetch op ≡ true) ops
    → g < d.gen
    → had_children d ≡ true
    → (g < (run ops d).gen) × (had_children (run ops d) ≡ true)
unfolding run
run_newer [] g d k h c = (h, c)
run_newer (op ∷ ops) g d (k, ks) h c =
    let (newer, there) = step_newer op g d k h c in run_newer ops g (step op d) ks newer there

ended_older :
    (ttl now : ℕ) (errno : Option Errno) (fetched : List Node) (g : ℕ) (d : Listing)
    → g < d.gen
    → had_children d ≡ true
    → (finish_load ttl now errno fetched g d).children ≡ d.children
unfolding finish_load publish
ended_older ttl now none fetched g d h c = ground arith
ended_older ttl now (some errno) fetched g d h c = ground arith

upserted_newer :
    (g : ℕ) (n : Node) (d : Listing)
    → g ≤ d.gen
    → (g < (patch_in n d).gen) × (had_children (patch_in n d) ≡ true)
unfolding patch_in
upserted_newer g n d h = ground arith

-- A fetch that read the listing's generation before an entry was patched in, and ends after any
-- further patches, expiries, loads, flushes and discards, leaves the entries of the listing as
-- those made them, whether it succeeds or fails.
pub fetch-keeps_patches :
    (ttl now : ℕ) (errno : Option Errno) (fetched : List Node) (start_gen : ℕ) (n : Node)
    (ops : List Op) (d : Listing)
    → start_gen ≤ d.gen
    → All (λ op. ends_no_fetch op ≡ true) ops
    → (finish_load ttl now errno fetched start_gen (run ops (patch_in n d))).children
      ≡ (run ops (patch_in n d)).children
fetch-keeps_patches ttl now errno fetched start_gen n ops d h k =
    let (newer, there) = upserted_newer start_gen n d h in
    let (still, children) = run_newer ops start_gen (patch_in n d) k newer there in
    ended_older ttl now errno fetched start_gen _ still children

after_patch_newer : (g : ℕ) (n : Node) (d : Listing) → g ≤ d.gen → g < (upsert_child n d).gen
unfolding upsert_child patch_in schedule_persist
after_patch_newer g n d h = ground arith

after_patch_children : (n : Node) (d : Listing) → had_children (upsert_child n d) ≡ true
unfolding upsert_child patch_in schedule_persist
after_patch_children n d = ground arith

upserted_alone :
    (n : Node) (d : Listing) → d.children ≡ none → (upsert_child n d).children ≡ some (n ∷ [])
unfolding upsert_child patch_in schedule_persist upsert_node
upserted_alone n d h = ground arith

-- When the first entry is patched into a directory that has no listing, while its fetch is in
-- flight, the listing after the fetch is that entry alone, whatever was fetched.
pub patch_hides_first_fetch :
    (ttl now start_gen : ℕ) (errno : Option Errno) (n : Node) (fetched : List Node) (d : Listing)
    → d.children ≡ none
    → start_gen ≤ d.gen
    → (finish_load ttl now errno fetched start_gen (upsert_child n d)).children ≡ some (n ∷ [])
patch_hides_first_fetch ttl now start_gen errno n fetched d h le =
    ended_older ttl now errno fetched start_gen (upsert_child n d)
      (after_patch_newer start_gen n d le) (after_patch_children n d)
    ∙ upserted_alone n d h
