-- ===== src/Fusefs/Buffer.antt =====
-- internal/fusefs/fusefs.go: the write buffer of a file, from Create or Open to the upload: the
-- fields of fileHandle and fileNode, and what parks, retries, takes back and lets go of a buffer.
-- One file with its one write handle (Open refuses a second writer); a set of handles that
-- mountState keeps is seen as this handle's membership in it.
pub mod Membership
use proton_drive_linux_fs.Base.{
  ℕ, ◌*◌, String, Bool, true, false, not, ◌&&◌, Option, none, some, List, ◌∷◌, ◌==◌, if◌then◌else◌,
  min, max,
}
use proton_drive_linux_fs.Drive.Errors.{
  Err, ApiError, as_api_error, status_unprocessable_entity, a_file_or_folder_name_exist,
  paid_plan_required,
}
use proton_drive_linux_fs.Drive.Read.{Bytes}

-- What the code reads of a drive.Node.
pub record Node : Type 0 where
  pub link_id : String
  pub name : String

-- Where the content of a temp file went once nothing points at it any more.
pub data Place : Type 0 where
  -- closed and removed
  removed : Bytes → Place
  -- moved into state.UnsavedDir, under a name that ends in this one
  unsaved : String → Bytes → Place
  -- the move there failed: still in the temp dir
  stranded : Bytes → Place
  -- moved into the local store
  local_store : String → Bytes → Place
  -- sent to the drive, under this name; a new file that was replaced or unlinked meanwhile then goes
  -- to the trash (upload_end)
  uploaded : String → Bytes → Place

-- `tmp` is h.tmp with its content; a timer is set or nil; `handle` says that the node points at this
-- handle; `delayed` and `kept` that mountState's sets hold it. Times are in milliseconds.
pub record Buffer : Type 0 where
  pub tmp : Option Bytes
  pub dirty : Bool
  pub owns : Bool
  pub parked : Bool
  pub timer : Bool
  pub due : Bool
  pub retry_in : ℕ
  pub failed : Bool
  pub gone : Bool
  pub node : Option Node
  pub name : String
  pub parent : ℕ
  pub handle : Bool
  pub pinned : Bool
  pub delayed : Bool
  pub kept : Bool
  pub closing : Bool
  pub places : List Place

-- What the operations use of the mount: the exclude patterns, the delay of a name, whether there is
-- a local store, and whether a move into state.UnsavedDir or into the local store succeeds.
pub record Env : Type 0 where
  pub excluded : String → Bool
  pub delay_for : String → ℕ
  pub has_local : Bool
  pub save_works : String → Bytes → Bool
  pub local_works : String → Bytes → Bool

abbrev pub upload_retry_delay : ℕ
upload_retry_delay = 30000

abbrev pub upload_retry_max : ℕ
upload_retry_max = 1800000

-- park: the sets of trackKept and trackDelayed only change by adding.
unfoldable pub park : Bytes → ℕ → Buffer → Buffer
park tmp delay b =
    let held = record b { tmp = some tmp; parked = true } in
    if delay == 0 then record held { kept = true } else record held { delayed = true; timer = true }

unfoldable pub unpin : Buffer → Buffer
unpin b = record b { pinned = false }

unfoldable pub detach : Buffer → Buffer
unfolding unpin
detach b =
    let held = record b { tmp = none } in
    if b.handle then unpin (record held { handle = false }) else held

unfoldable pub drop_buffer : Bytes → Buffer → Buffer
unfolding detach
drop_buffer tmp b = let d = detach b in record d { places = removed tmp ∷ d.places }

unfoldable pub keep_unsaved : Env → Bytes → Buffer → Buffer
unfolding detach
keep_unsaved env tmp b =
    let d = detach b in
    let where_to = if env.save_works b.name tmp then unsaved b.name tmp else stranded tmp in
    record d { places = where_to ∷ d.places }

unfoldable pub keep_local : Env → Bytes → Buffer → Buffer
unfolding detach
keep_local env tmp b =
    let d = detach b in
    let where_to = if env.local_works b.name tmp then local_store b.name tmp else removed tmp in
    record d { places = where_to ∷ d.places }

unfoldable pub discard : Env → Bytes → Buffer → Buffer
unfolding keep_unsaved drop_buffer
discard env tmp b = if b.failed then keep_unsaved env tmp b else drop_buffer tmp b

permanent_status : Option ApiError → Bool
permanent_status none = false
permanent_status (some e) =
    if e.code == a_file_or_folder_name_exist && e.status == status_unprocessable_entity
    then true
    else e.code == paid_plan_required

unfoldable pub permanent_upload_error : Err → Bool
unfolding as_api_error permanent_status
permanent_upload_error e = permanent_status (as_api_error e)

unfoldable pub next_retry : ℕ → ℕ
next_retry retry_in = min (max (2 * retry_in) upload_retry_delay) upload_retry_max

unfoldable pub keep_for_retry : Env → Bytes → Err → Buffer → Buffer
unfolding discard keep_unsaved park next_retry permanent_upload_error
keep_for_retry env tmp e b =
    if b.gone
    then discard env tmp b
    else if b.closing
    then keep_unsaved env tmp b
    else if permanent_upload_error e
    then park tmp 0 (record b { failed = true })
    else let delay = next_retry b.retry_in in park tmp delay (record b { retry_in = delay })

unfoldable pub unpark : Bool → Buffer → Bool × Buffer
unpark again b =
    let free = record b { parked = false; dirty = again; timer = false } in
    let taken = if again then record free { retry_in = 0; failed = false } else free in
    if b.parked
    then if b.timer
      then (true, record taken { delayed = false })
      else (true, record taken { kept = false })
    else (false, b)

-- The end of abandon, with what the handle held when it was let go of.
let_go : Env → Bool → Bool → Option Bytes → Buffer → Buffer
unfolding keep_local drop_buffer keep_unsaved
let_go env timer failed none b = b
let_go env timer failed (some tmp) b =
    if not timer && not failed
    then if env.has_local && env.excluded b.name then keep_local env tmp b else drop_buffer tmp b
    else keep_unsaved env tmp b

unfoldable pub abandon : Env → Buffer → Buffer
unfolding let_go
abandon env b =
    if b.parked
    then let_go env b.timer b.failed b.tmp
        (record b { parked = false; timer = false; kept = false; delayed = false })
    else b

-- unlinkPending, under f.mu.
unfoldable pub unlink_pending : Buffer → Bool × Buffer
unlink_pending b = elim b.node [
  | some _ ↦ (false, b)
  | none ↦ if b.handle then (true, record b { gone = true }) else (false, b)
]

-- claim: the node that the upload returned, if it could be read back. The wait chain that it ends
-- is part of Release below.
unfoldable pub claim : Option Node → Buffer → Bool × Buffer
claim n b =
    if b.gone
    then (false, b)
    else (true, elim n [ none ↦ b | some there ↦ record b { node = some there } ])
