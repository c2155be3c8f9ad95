-- ===== src/Fusefs/Release.antt =====
-- internal/fusefs/fusefs.go: Release of a write handle. It is cut where other calls can come in
-- between: `release` up to the wait for replaced uploads, `upload_start` from there to the start
-- of the upload, and `upload_end` with the drive's answer.
pub mod Settled
pub mod Trashed
use proton_drive_linux_fs.Base.{
  ℕ, suc, ◌+◌, String, Bool, true, false, not, ◌&&◌, ◌||◌, Option, none, some, List, [], ◌∷◌, ◌++◌,
  ltb, ◌==◌, if◌then◌else◌, length, str_eq,
}
use proton_drive_linux_fs.Drive.Errors.{Err, Result, ok, err}
use proton_drive_linux_fs.Drive.Read.{Bytes}
use proton_drive_linux_fs.Fusefs.Transfers.{RecentTransfer, Counters, record_finished}
use proton_drive_linux_fs.Fusefs.Buffer.{
  Node, Buffer, Env, Place, uploaded, park, drop_buffer, discard, keep_for_retry, claim,
  permanent_upload_error,
}

pub data Errno : Type 0 where
  success eio etimedout eintr enoent eacces ebusy ebadf enotempty erofs exdev : Errno

-- What Release read before the upload: `existing`, `name`, `parent`; and the temp file as it is now.
-- What a write or a truncation leaves while the upload runs counts as what is uploaded.
pub record Job : Type 0 where
  pub tmp : Bytes
  pub existing : Option Node
  pub name : String
  pub parent : ℕ

pub data Phase : Type 0 where
  idle : Phase
  waiting uploading : Job → Phase

-- What an upload does to the cached listings, by directory: `removed` and `upserted` are
-- removeChild and upsertChild, `expired` is expire, `trashed` a link whose trashing was asked for, and
-- `unlinked` is unlinkTrashed of the file under a name.
pub data Patch : Type 0 where
  expired : ℕ → Patch
  upserted : ℕ → Node → Patch
  removed : ℕ → String → Patch
  trashed : ℕ → Node → Patch
  unlinked : ℕ → String → Node → Patch

pub record Save : Type 0 where
  pub buffer : Buffer
  pub phase : Phase
  pub counters : Counters
  pub recent : List RecentTransfer
  pub patches : List Patch

-- displayPath of a name in a directory, and the text of an error, which says more once the upload
-- has given up.
pub record Labels : Type 0 where
  pub display_path : ℕ → String → String
  pub message : Bool → Err → String

abbrev with_buffer : Save → Buffer → Save
with_buffer s b = record s { buffer = b }

-- From the stat and the seek of the temp file on; `prepared` is their error, if any.
prepare : Env → Option Err → Bytes → Save → Save × Errno
prepare env (some e) tmp s = (with_buffer s (keep_for_retry env tmp e s.buffer), eio)
prepare env none tmp s = (
  record s {
    phase = waiting (record {
      tmp = tmp;
      existing = s.buffer.node;
      name = s.buffer.name;
      parent = s.buffer.parent;
    });
  },
  success,
)

-- The write handle, after the handle's fields are read; `due` is its value before the reset.
release_owner : Env → Option Err → Bool → Bytes → Save → Save × Errno
unfolding prepare
release_owner env prepared due tmp s =
    let b = s.buffer in
    let delay = env.delay_for b.name in
    if b.gone
    then (with_buffer s (discard env tmp b), success)
    else if b.dirty && env.excluded b.name
    then (with_buffer s (park tmp 0 b), success)
    else if b.dirty && not due && ltb 0 delay
    then (with_buffer s (park tmp delay b), success)
    else if not b.dirty
    then (with_buffer s (drop_buffer tmp b), success)
    else prepare env prepared tmp s

with_tmp : Env → Option Err → Bool → Option Bytes → Save → Save × Errno
unfolding release_owner
with_tmp env prepared due none s = (s, success)
with_tmp env prepared due (some tmp) s =
    if s.buffer.owns
    then release_owner env prepared due tmp s
    else (with_buffer s (record s.buffer { tmp = none }), success)

unfoldable pub release : Env → Option Err → Save → Save × Errno
unfolding with_tmp
release env prepared s =
    with_tmp env prepared s.buffer.due s.buffer.tmp
      (with_buffer s (record s.buffer { due = false }))

abbrev count_queued : Save → Save
count_queued s = record s {
  counters = record s.counters { uploads_queued = s.counters.uploads_queued + 1 };
}

abbrev count_failed : Save → Save
count_failed s = record s {
  counters = record s.counters { uploads_failed = s.counters.uploads_failed + 1 };
}

abbrev count_done : Save → Save
count_done s = record s {
  counters = record s.counters { uploads_done = s.counters.uploads_done + 1 };
}

-- `refused` is the context's error when no upload slot came before it was done.
acquired : Env → Option Err → Job → Save → Save × Errno
acquired env none job s = (record s { phase = uploading job }, success)
acquired env (some e) job s =
    let f = count_failed s in
    (record f { buffer = keep_for_retry env job.tmp e f.buffer; phase = idle }, eintr)

unfoldable pub upload_start : Env → Option Err → Job → Save → Save × Errno
unfolding acquired
upload_start env refused job s =
    if s.buffer.gone
    then (record s { buffer = discard env job.tmp s.buffer; phase = idle }, success)
    else acquired env refused job (count_queued s)

-- What the outside answers while an upload ends: the time, whether the upload's deadline had
-- passed, the node found under the new name of a file renamed meanwhile, whether its trashing works,
-- the error of the move and whether its deadline had passed.
pub record Answers : Type 0 where
  pub now : ℕ
  pub late : Bool
  pub found : Option Node
  pub trash_works : Bool
  pub move_error : Option Err
  pub move_late : Bool

finished : Labels → String → ℕ → String → Job → RecentTransfer
finished labels status now error job = record {
  path = labels.display_path job.parent job.name;
  action = "upload";
  status = status;
  bytes = length job.tmp;
  finished = now;
  error = error;
}

upload_failed : Env → Labels → Answers → Err → Job → Save → Save × Errno
unfolding finished
upload_failed env labels a e job s =
    let f = count_failed s in
    let error = labels.message (permanent_upload_error e) e in
    let noted = record_finished (finished labels "failed" a.now error job) f.recent in
    (
      record f { buffer = keep_for_retry env job.tmp e f.buffer; phase = idle; recent = noted },
      (if a.late then etimedout else eio),
    )

-- moveLink: the errno, or the node as it now is, and what becomes of the listings.
trash_first : Answers → Node → ℕ → String → Option (List Patch)
trash_first a target new_dir new_name = elim a.found [
  | none ↦ some []
  | some old ↦
      if str_eq old.link_id target.link_id
      then some []
      else if a.trash_works
      then some (removed new_dir new_name ∷ trashed new_dir old ∷ [])
      else none
]

back_out : Answers → Node → ℕ → String → List Patch
back_out a target new_dir new_name = elim a.found [
  | none ↦ []
  | some old ↦ if str_eq old.link_id target.link_id then [] else unlinked new_dir new_name old ∷ []
]

moved_to :
    Answers
    → Node
    → ℕ
    → String
    → ℕ
    → String
    → Option (List Patch)
    → (Errno × Option Node) × List Patch
unfolding back_out
moved_to a target dir name new_dir new_name none = ((eio, none), [])
moved_to a target dir name new_dir new_name (some patches) = elim a.move_error [
  | some e ↦ (
    ((if a.move_late then etimedout else eio), none),
    back_out a target new_dir new_name ++ patches,
  )
  | none ↦
      let moved : Node = record { link_id = target.link_id; name = new_name } in
      ((success, some moved), upserted new_dir moved ∷ removed dir name ∷ patches)
]

unfoldable pub move_link :
    Answers → Node → ℕ → String → ℕ → String → (Errno × Option Node) × List Patch
unfolding trash_first moved_to
move_link a target dir name new_dir new_name =
    moved_to a target dir name new_dir new_name (trash_first a target new_dir new_name)

abbrev patch : List Patch → Save → Save
patch ps s = record s { patches = ps ++ s.patches }

-- setNode
abbrev set_node : Node → Save → Save
set_node n s = with_buffer s (record s.buffer { node = some n; name = n.name })

-- The upload of a file that a rename put another one over, or that was unlinked, meanwhile.
unclaimed : Job → Option Node → Save → Save
unclaimed job up s = elim job.existing [
  | some _ ↦ s
  | none ↦ elim up [
    | none ↦ patch (expired job.parent ∷ []) s
    | some n ↦ patch (trashed job.parent n ∷ []) s
  ]
]

after_move : (Errno × Option Node) × List Patch → Save → Save × Errno
after_move ((errno, none), ps) s = (patch ps s, errno)
after_move ((errno, some moved), ps) s = (set_node moved (patch ps s), errno)

-- Once claimed: the file may have a new name or directory by now.
settle_name : Answers → Job → Option Node → Save → Save × Errno
unfolding after_move
settle_name a job up s =
    let new_name = s.buffer.name in
    let new_parent = s.buffer.parent in
    if not (str_eq new_name job.name) || not (new_parent == job.parent)
    then elim up [
      | none ↦ (patch (expired new_parent ∷ expired job.parent ∷ []) s, success)
      | some n ↦ after_move (move_link a n job.parent job.name new_parent new_name) s
    ]
    else elim up [
      | none ↦ (patch (expired new_parent ∷ []) s, success)
      | some n ↦ (patch (upserted new_parent n ∷ []) (set_node n s), success)
    ]

claimed : Answers → Job → Option Node → Save → Bool × Buffer → Save × Errno
unfolding settle_name unclaimed
claimed a job up s (true, b) = settle_name a job up (with_buffer s b)
claimed a job up s (false, b) = (unclaimed job up (with_buffer s b), success)

-- The deferred drop of a buffer that was uploaded.
dropped : Job → Save × Errno → Save × Errno
dropped job (s, errno) =
    let b = drop_buffer job.tmp s.buffer in
    (
      record s {
        buffer = record b { places = uploaded job.name job.tmp ∷ b.places };
        phase = idle;
      },
      errno,
    )

note_done : Labels → Answers → Job → Save → Save
unfolding finished
note_done labels a job s =
    let d = count_done s in
    record d { recent = record_finished (finished labels "done" a.now "" job) d.recent }

unfoldable pub upload_end :
    Env → Labels → Answers → Result (Option Node) → Job → Save → Save × Errno
unfolding upload_failed claimed dropped note_done
upload_end env labels a (err e) job s = upload_failed env labels a e job s
upload_end env labels a (ok up) job s =
    let noted = note_done labels a job s in
    dropped job (claimed a job up noted (claim up noted.buffer))
