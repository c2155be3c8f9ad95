-- ===== src/Fusefs/Previews.antt =====
-- internal/fusefs/previews.go: the previews of listed files, from a listing to the preview cache.
-- The marks of thumbInflight, the two queues, the job each of the two workers has, the timers of
-- retryThumbLater, and `gave_up`, the revisions that stay marked for good (the code keeps no list).
pub mod Claims
use Prim.Native.String.{◌++◌ as str_append}
use proton_drive_linux_fs.Base.{
  zero, suc, ℕ, String, Bool, true, false, not, ◌&&◌, ◌||◌, Option, none, some, List, [], ◌∷◌, ◌++◌,
  ltb, leb, ◌==◌, if◌then◌else◌, length, lookup, insert, delete, string_key, str_eq,
}
use proton_drive_linux_fs.Drive.Errors.{
  Err, Result, ok, err, ApiError, as_api_error, canceled, deadline_exceeded, rate_limited,
}
use proton_drive_linux_fs.Drive.Read.{Bytes}

abbrev pub thumb_queue_size : ℕ
thumb_queue_size = 4096

abbrev pub external_thumb_queue_size : ℕ
external_thumb_queue_size = 256

-- What the code reads of a drive.Node; `revision` is the id of the active revision of a file.
pub record Node : Type 0 where
  pub link_id : String
  pub revision : Option String
  pub name : String
  pub mod_time : ℕ
  pub size : ℕ
  pub has_thumbnail : Bool
  pub is_dir : Bool

pub record Job : Type 0 where
  pub node : Node
  pub rel_path : String
  pub parent_id : String

pub record ExternalJob : Type 0 where
  pub job : Job
  pub ext : String

-- What the previews use of the rest, as it answers at one moment: the preview cache (internal/thumbs
-- Fresh, Write), path.Join and filepath.Ext, the parent known for a link, whether the registry has a
-- thumbnailer for an extension, and the large-file limit. An error that is a net.Error is one of
-- `is_net`.
pub record Env : Type 0 where
  pub fresh : String → ℕ → Bool
  pub write_preview : String → Bytes → Option Err
  pub join : String → String → String
  pub extension : String → String
  pub old_parent : String → String
  pub has_external : Bool
  pub for_ext : String → Bool
  pub large_file : ℕ
  pub is_net : Err → Bool

-- `removed` are the paths whose previews were taken out again, last first.
pub record Previews : Type 0 where
  pub inflight : List (String × Bool)
  pub jobs : List Job
  pub external_jobs : List ExternalJob
  pub running : Option Job
  pub external_running : Option ExternalJob
  pub retries : List Node
  pub gave_up : List Node
  pub removed : List String

-- A revision of a file, or the link of what has none.
unfoldable pub thumb_key : Node → String
thumb_key n = elim n.revision [
  | none ↦ n.link_id
  | some rev ↦ str_append n.link_id (str_append "/" rev)
]

mark : Node → Previews → Previews
mark n p = record p { inflight = insert (thumb_key n) true p.inflight }

pub claim_as : Node → Previews → Option Bool → Bool × Previews
unfolding mark
claim_as n p none = (true, mark n p)
claim_as n p (some marked) = if marked then (false, p) else (true, mark n p)

unfoldable pub claim_thumb : Node → Previews → Bool × Previews
unfolding claim_as
claim_thumb n p = claim_as n p (lookup (thumb_key n) p.inflight)

unfoldable pub release_thumb : Node → Previews → Previews
release_thumb n p = record p { inflight = delete (thumb_key n) p.inflight }

-- The two sends to a channel, which drop the claim when the channel is full.
pub queue_job : Job → Bool × Previews → Previews
unfolding release_thumb
queue_job job (false, p) = p
queue_job job (true, p) =
    if ltb (length p.jobs) thumb_queue_size
    then record p { jobs = p.jobs ++ job ∷ [] }
    else release_thumb job.node p

pub queue_external : ExternalJob → Bool × Previews → Previews
unfolding release_thumb
queue_external e (false, p) = p
queue_external e (true, p) =
    if ltb (length p.external_jobs) external_thumb_queue_size
    then record p { external_jobs = p.external_jobs ++ e ∷ [] }
    else release_thumb e.job.node p

-- One child of a listing.
unfoldable pub queue_thumb : Env → String → Node → Previews → Previews
unfolding claim_thumb queue_job queue_external
queue_thumb env dir ch p =
    let rel = env.join dir ch.name in
    let job : Job = record { node = ch; rel_path = rel; parent_id = env.old_parent ch.link_id } in
    let ext = env.extension ch.name in
    let claimed = claim_thumb ch p in
    if env.fresh rel ch.mod_time
    then p
    else if ch.has_thumbnail
    then queue_job job claimed
    else if not env.has_external || ch.is_dir
    then p
    else if not (env.for_ext ext)
    then p
    else if ltb 0 env.large_file && ltb env.large_file ch.size
    then p
    else queue_external (record { job = job; ext = ext }) claimed

unfoldable pub queue_thumbs : Env → String → List Node → Previews → Previews
queue_thumbs env dir [] p = p
queue_thumbs env dir (ch ∷ children) p = queue_thumbs env dir children (queue_thumb env dir ch p)

-- A worker takes the next job of its queue when it has none.
pub take_from : List Job → Previews → Previews
take_from [] p = p
take_from (j ∷ js) p = record p { jobs = js; running = some j }

unfoldable pub take_job : Previews → Previews
unfolding take_from
take_job p = elim p.running [ some _ ↦ p | none ↦ take_from p.jobs p ]

pub take_external_from : List ExternalJob → Previews → Previews
take_external_from [] p = p
take_external_from (j ∷ js) p = record p { external_jobs = js; external_running = some j }

unfoldable pub take_external : Previews → Previews
unfolding take_external_from
take_external p = elim p.external_running [
  | some _ ↦ p
  | none ↦ take_external_from p.external_jobs p
]

server_side : Option ApiError → Bool
server_side none = false
server_side (some e) = leb 500 e.status

unfoldable pub transient_thumb_err : Env → Err → Bool
unfolding as_api_error server_side
transient_thumb_err env deadline_exceeded = true
transient_thumb_err env canceled = true
transient_thumb_err env (rate_limited e) = true
transient_thumb_err env e = if env.is_net e then true else server_side (as_api_error e)

-- writeThumb; `listed` is what stillListed finds after the write.
write_thumb : Env → Bool → Job → Bytes → Previews → Option Err × Previews
write_thumb env listed job img p = elim (env.write_preview job.rel_path img) [
  | some e ↦ (some e, p)
  | none ↦ if listed then (none, p) else (none, record p { removed = job.rel_path ∷ p.removed })
]

pub settle_mark : Env → Node → Option Err × Previews → Previews
unfolding release_thumb transient_thumb_err
settle_mark env n (none, p) = release_thumb n p
settle_mark env n (some e, p) =
    if transient_thumb_err env e
    then record p { retries = n ∷ p.retries }
    else record p { gave_up = n ∷ p.gave_up }

pub with_image : Env → Bool → Job → Result Bytes → Previews → Option Err × Previews
unfolding write_thumb
with_image env listed job (err e) p = (some e, p)
with_image env listed job (ok img) p = write_thumb env listed job img p

unfoldable pub finish_thumb : Env → Bool → Job → Result Bytes → Previews → Previews
unfolding settle_mark with_image
finish_thumb env listed job result p = settle_mark env job.node (with_image env listed job result p)

-- stillListed, with the links and names of the listing of the job's folder, if it is registered.
named : String → String → List (String × String) → Bool
named link name [] = false
named link name ((l, n) ∷ rest) =
    let later = named link name rest in if str_eq l link then str_eq n name else later

unfoldable pub still_listed : String → String → Option (List (String × String)) → Bool
unfolding named
still_listed link name none = false
still_listed link name (some children) = named link name children

-- The timer of retryThumbLater for the revision at a place among the waiting ones.
pub retry_at : ℕ → List Node → Option Node × List Node
retry_at k [] = (none, [])
retry_at zero (n ∷ ns) = (some n, ns)
retry_at (suc k) (n ∷ ns) = let (found, left) = retry_at k ns in (found, n ∷ left)

pub retried : Option Node × List Node → Previews → Previews
unfolding release_thumb
retried (none, left) p = p
retried (some n, left) p = release_thumb n (record p { retries = left })

-- What can happen to the previews: a listing, a worker taking or finishing a job, a retry's timer.
pub data Event : Type 0 where
  listing : String → List Node → Event
  takes takes_external : Event
  finishes finishes_external : Bool → Result Bytes → Event
  retry : ℕ → Event

pub finish_running : Env → Bool → Result Bytes → Option Job → Previews → Previews
unfolding finish_thumb
finish_running env listed r none p = p
finish_running env listed r (some j) p = finish_thumb env listed j r (record p { running = none })

pub finish_external : Env → Bool → Result Bytes → Option ExternalJob → Previews → Previews
unfolding finish_thumb
finish_external env listed r none p = p
finish_external env listed r (some e) p =
    finish_thumb env listed e.job r (record p { external_running = none })

unfoldable pub step : Env → Event → Previews → Previews
unfolding finish_running finish_external retried
step env (listing dir children) p = queue_thumbs env dir children p
step env takes p = take_job p
step env takes_external p = take_external p
step env (finishes listed r) p = finish_running env listed r p.running p
step env (finishes_external listed r) p = finish_external env listed r p.external_running p
step env (retry k) p = retried (retry_at k p.retries) p

unfoldable pub run : Env → List Event → Previews → Previews
run env [] p = p
run env (e ∷ es) p = run env es (step env e p)
