-- ===== src/Fusefs/Previews/Claims.antt =====
-- internal/fusefs/previews.go: the marks of thumbInflight against the jobs that are on their way.
use proton_drive_linux_fs.Base.{
  not, ◌||◌, ◌&&◌, ℕ, zero, suc, ◌+◌, ◌≡◌, ◌≢◌, refl, String, Bool, true, false, Option, none, some,
  List, [], ◌∷◌, ◌++◌, arith, if◌then◌else◌, lookup, string_key, lookup-insert, lookup-delete,
  str_eq, ltb, length, ap, eq_iff, subst, if-cases,
}
use proton_drive_linux_fs.Drive.Errors.{Err, Result, ok, err}
use proton_drive_linux_fs.Drive.Read.{Bytes}
use proton_drive_linux_fs.Fusefs.Previews.{
  write_thumb, transient_thumb_err, thumb_queue_size, external_thumb_queue_size, Node, Job,
  ExternalJob, Env, Previews, thumb_key, claim_as, mark, claim_thumb, release_thumb, queue_job,
  queue_external, queue_thumb, queue_thumbs, take_from, take_job, take_external_from, take_external,
  settle_mark, with_image, finish_thumb, retry_at, retried, Event, listing, takes, takes_external,
  finishes, finishes_external, retry, finish_running, finish_external, step, run,
}

abbrev pub node_count : String → Node → ℕ
node_count k n = if str_eq (thumb_key n) k then 1 else 0

abbrev pub nodes_count : String → List Node → ℕ
nodes_count k [] = 0
nodes_count k (n ∷ ns) = node_count k n + nodes_count k ns

abbrev pub jobs_count : String → List Job → ℕ
jobs_count k [] = 0
jobs_count k (j ∷ js) = node_count k j.node + jobs_count k js

abbrev pub externals_count : String → List ExternalJob → ℕ
externals_count k [] = 0
externals_count k (e ∷ es) = node_count k e.job.node + externals_count k es

abbrev pub running_count : String → Option Job → ℕ
running_count k none = 0
running_count k (some j) = node_count k j.node

abbrev pub external_count : String → Option ExternalJob → ℕ
external_count k none = 0
external_count k (some e) = node_count k e.job.node

-- The jobs, timers and failures for good of one revision.
abbrev pub outstanding : String → Previews → ℕ
outstanding k p =
    jobs_count k p.jobs
    + externals_count k p.external_jobs
    + running_count k p.running
    + external_count k p.external_running
    + nodes_count k p.retries
    + nodes_count k p.gave_up

abbrev pub marks : String → List (String × Bool) → ℕ
marks k m = elim (lookup k m) [ none ↦ 0 | some _ ↦ 1 ]

-- A revision is marked exactly if one job, timer or failure of it is there, and never more.
abbrev pub IsClaimed : Previews → Type 0
IsClaimed p =
    (k : String) → (outstanding k p ≡ marks k p.inflight) × (lookup k p.inflight ≢ some false)

jobs_count-append :
    (k : String) (js : List Job) (j : Job)
    → jobs_count k (js ++ j ∷ []) ≡ jobs_count k js + node_count k j.node
jobs_count-append k [] j = omega arith
jobs_count-append k (i ∷ js) j = omega (arith, jobs_count-append k js j)

externals_count-append :
    (k : String) (js : List ExternalJob) (j : ExternalJob)
    → externals_count k (js ++ j ∷ []) ≡ externals_count k js + node_count k j.job.node
externals_count-append k [] j = omega arith
externals_count-append k (i ∷ js) j = omega (arith, externals_count-append k js j)

-- After a claim that was granted, one mark is ahead.
abbrev Granted : Node → Bool × Previews → Type 0
Granted n (granted, p) =
    (k : String)
    → (outstanding k p + (if granted then node_count k n else 0) ≡ marks k p.inflight)
      × (lookup k p.inflight ≢ some false)

claim_as-Granted :
    (n : Node) (p : Previews) (o : Option Bool)
    → lookup (thumb_key n) p.inflight ≡ o
    → IsClaimed p
    → Granted n (claim_as n p o)
unfolding claim_as mark
claim_as-Granted n p none h v = λ k.
    let there = v k in
    let free = absent k in
    ground (arith, lookup-insert (thumb_key n) k true p.inflight, there, free)
  where
    absent : (k : String) → str_eq (thumb_key n) k ≡ true → lookup k p.inflight ≡ none
    absent k e = subst (λ j. lookup j p.inflight ≡ none) ((eq_iff (thumb_key n) k).0 e) h
claim_as-Granted n p (some true) h v = λ k. let there = v k in ground (arith, there)
claim_as-Granted n p (some false) h v = absurd ((v (thumb_key n)).1 h)

claim_thumb-Granted : (n : Node) (p : Previews) → IsClaimed p → Granted n (claim_thumb n p)
unfolding claim_thumb
claim_thumb-Granted n p v = claim_as-Granted n p _ refl v

release_thumb-IsClaimed :
    (n : Node) (p : Previews) → Granted n (true, p) → IsClaimed (release_thumb n p)
unfolding release_thumb
release_thumb-IsClaimed n p v =
    λ k. let there = v k in ground (arith, lookup-delete (thumb_key n) k p.inflight)

queue_job-IsClaimed :
    (job : Job) (got : Bool × Previews) → Granted job.node got → IsClaimed (queue_job job got)
unfolding queue_job
queue_job-IsClaimed job (false, p) v = λ k. let there = v k in ground (arith, there)
queue_job-IsClaimed job (true, p) v =
    if-cases IsClaimed (ltb (length p.jobs) thumb_queue_size)
      (λ room k. let there = v k in ground (arith, there, jobs_count-append k p.jobs job))
      (λ full. release_thumb-IsClaimed job.node p v)

queue_external-IsClaimed :
    (e : ExternalJob) (got : Bool × Previews)
    → Granted e.job.node got
    → IsClaimed (queue_external e got)
unfolding queue_external
queue_external-IsClaimed e (false, p) v = λ k. let there = v k in ground (arith, there)
queue_external-IsClaimed e (true, p) v =
    if-cases IsClaimed (ltb (length p.external_jobs) external_thumb_queue_size)
      (λ room k.
        let there = v k in ground (arith, there, externals_count-append k p.external_jobs e))
      (λ full. release_thumb-IsClaimed e.job.node p v)

-- What queueThumbs does with a child: nothing, or one of the two sends.
branch-IsClaimed :
    (fresh own off unknown large : Bool) (p : Previews) (job : Job) (e : ExternalJob)
    (got : Bool × Previews)
    → IsClaimed p
    → Granted job.node got
    → Granted e.job.node got
    → IsClaimed (
        if fresh
        then p
        else if own
        then queue_job job got
        else if off
        then p
        else if unknown
        then p
        else if large
        then p
        else queue_external e got)
branch-IsClaimed true own off unknown large p job e got v g h = v
branch-IsClaimed false true off unknown large p job e got v g h = queue_job-IsClaimed job got g
branch-IsClaimed false false true unknown large p job e got v g h = v
branch-IsClaimed false false false true large p job e got v g h = v
branch-IsClaimed false false false false true p job e got v g h = v
branch-IsClaimed false false false false false p job e got v g h = queue_external-IsClaimed e got h

queue_thumb-IsClaimed :
    (env : Env) (dir : String) (ch : Node) (p : Previews)
    → IsClaimed p
    → IsClaimed (queue_thumb env dir ch p)
unfolding queue_thumb
queue_thumb-IsClaimed env dir ch p v =
    let rel = env.join dir ch.name in
    let job : Job = record { node = ch; rel_path = rel; parent_id = env.old_parent ch.link_id } in
    let ext = env.extension ch.name in
    let got = claim_thumb-Granted ch p v in
    branch-IsClaimed (env.fresh rel ch.mod_time) ch.has_thumbnail
      (not env.has_external || ch.is_dir) (not (env.for_ext ext))
      (ltb 0 env.large_file && ltb env.large_file ch.size) p job (record { job = job; ext = ext })
      (claim_thumb ch p) v got got

queue_thumbs-IsClaimed :
    (env : Env) (dir : String) (children : List Node) (p : Previews)
    → IsClaimed p
    → IsClaimed (queue_thumbs env dir children p)
unfolding queue_thumbs
queue_thumbs-IsClaimed env dir [] p v = v
queue_thumbs-IsClaimed env dir (ch ∷ children) p v =
    queue_thumbs-IsClaimed env dir children _ (queue_thumb-IsClaimed env dir ch p v)

take_job-IsClaimed : (p : Previews) → IsClaimed p → IsClaimed (take_job p)
unfolding take_job take_from
take_job-IsClaimed p v = λ k. let there = v k in ground (arith, there)

take_external-IsClaimed : (p : Previews) → IsClaimed p → IsClaimed (take_external p)
unfolding take_external take_external_from
take_external-IsClaimed p v = λ k. let there = v k in ground (arith, there)

-- What a worker's result leaves alone.
with_image-Granted :
    (env : Env) (listed : Bool) (job : Job) (r : Result Bytes) (p : Previews)
    → Granted job.node (true, p)
    → Granted job.node (true, (with_image env listed job r p).1)
unfolding with_image write_thumb
with_image-Granted env listed job (err e) p v = v
with_image-Granted env listed job (ok img) p v = λ k. let there = v k in ground (arith, there)

settle_mark-IsClaimed :
    (env : Env) (n : Node) (got : Option Err × Previews)
    → Granted n (true, got.1)
    → IsClaimed (settle_mark env n got)
unfolding settle_mark
settle_mark-IsClaimed env n (none, p) v = release_thumb-IsClaimed n p v
settle_mark-IsClaimed env n (some e, p) v =
    if-cases IsClaimed (transient_thumb_err env e)
      (λ again k. let there = v k in ground (arith, there))
      (λ never k. let there = v k in ground (arith, there))

finish_running-IsClaimed :
    (env : Env) (listed : Bool) (r : Result Bytes) (running : Option Job) (p : Previews)
    → p.running ≡ running
    → IsClaimed p
    → IsClaimed (finish_running env listed r running p)
unfolding finish_running finish_thumb
finish_running-IsClaimed env listed r none p e v = v
finish_running-IsClaimed env listed r (some j) p e v = settle_mark-IsClaimed env j.node _ (
    with_image-Granted env listed j r _
      (λ k. let there = v k in let now = ap (running_count k) e in ground (arith, there, now)))

finish_external-IsClaimed :
    (env : Env) (listed : Bool) (r : Result Bytes) (running : Option ExternalJob) (p : Previews)
    → p.external_running ≡ running
    → IsClaimed p
    → IsClaimed (finish_external env listed r running p)
unfolding finish_external finish_thumb
finish_external-IsClaimed env listed r none p e v = v
finish_external-IsClaimed env listed r (some j) p e v = settle_mark-IsClaimed env j.job.node _ (
    with_image-Granted env listed j.job r _
      (λ k. let there = v k in let now = ap (external_count k) e in ground (arith, there, now)))

found_count : String → Option Node → ℕ
found_count k none = 0
found_count k (some n) = node_count k n

retry_at-counts :
    (k : String) (i : ℕ) (ns : List Node)
    → nodes_count k ns ≡ found_count k (retry_at i ns).0 + nodes_count k (retry_at i ns).1
unfolding retry_at found_count
retry_at-counts k i [] = omega arith
retry_at-counts k zero (n ∷ ns) = omega arith
retry_at-counts k (suc i) (n ∷ ns) = omega (arith, retry_at-counts k i ns)

retried-IsClaimed :
    (p : Previews) (got : Option Node × List Node)
    → ((k : String) → nodes_count k p.retries ≡ found_count k got.0 + nodes_count k got.1)
    → IsClaimed p
    → IsClaimed (retried got p)
unfolding retried found_count
retried-IsClaimed p (none, left) h v = v
retried-IsClaimed p (some n, left) h v =
    release_thumb-IsClaimed n (record p { retries = left })
      (λ k. let there = v k in let less = h k in ground (arith, there, less))

step-IsClaimed : (env : Env) (e : Event) (p : Previews) → IsClaimed p → IsClaimed (step env e p)
unfolding step
step-IsClaimed env (listing dir children) p v = queue_thumbs-IsClaimed env dir children p v
step-IsClaimed env takes p v = take_job-IsClaimed p v
step-IsClaimed env takes_external p v = take_external-IsClaimed p v
step-IsClaimed env (finishes listed r) p v =
    finish_running-IsClaimed env listed r p.running p refl v
step-IsClaimed env (finishes_external listed r) p v =
    finish_external-IsClaimed env listed r p.external_running p refl v
step-IsClaimed env (retry i) p v =
    retried-IsClaimed p (retry_at i p.retries) (λ k. retry_at-counts k i p.retries) v

-- From a state in which it holds, any sequence of listings, of jobs taken and finished by the two
-- workers with any result, and of retries keeps this: a revision is marked exactly if one of the
-- jobs queued or running, one waiting retry, or one failure for good is of it, and never more than
-- one; so no revision is fetched twice at a time, and no mark is left behind.
pub run-IsClaimed :
    (env : Env) (es : List Event) (p : Previews) → IsClaimed p → IsClaimed (run env es p)
unfolding run
run-IsClaimed env [] p v = v
run-IsClaimed env (e ∷ es) p v = run-IsClaimed env es _ (step-IsClaimed env e p v)
