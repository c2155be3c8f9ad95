-- ===== src/Witness/Saves.antt =====
-- A write buffer of internal/fusefs/fusefs.go through closes, timers, uploads and renames.
use mathlib.Core.List.{reverse}
use proton_drive_linux_fs.Base.{
  ◌≡◌, refl, String, true, false, none, some, List, [], ◌∷◌, arith, All, ◌&&◌, ◌||◌, str_eq, inl,
}
use proton_drive_linux_fs.Drive.Errors.{ok, err, canceled}
use proton_drive_linux_fs.Drive.Read.{Bytes}
use proton_drive_linux_fs.Fusefs.Buffer.{Node, Buffer, Env}
use proton_drive_linux_fs.Fusefs.Release.{idle, uploading, Job, Save, Labels, Answers, upload_end}
use proton_drive_linux_fs.Fusefs.Release.Settled.{Uploaded}
use proton_drive_linux_fs.Fusefs.Release.Trashed.{asks, is_new, upload_end-trashes}
use proton_drive_linux_fs.Fusefs.Steps.{
  write, Call, close, timer_fires, rename, slot, answer, unmounting, abandons, run,
}
use proton_drive_linux_fs.Fusefs.Steps.Invariant.{run-IsValid}
use proton_drive_linux_fs.Fusefs.Steps.Retake.{IsValid}
use proton_drive_linux_fs.Fusefs.Steps.Kept.{keeps_file, run-Kept}
use proton_drive_linux_fs.Fusefs.Steps.Saved.{Kept, Waits}
use proton_drive_linux_fs.Fusefs.Unmount.{Progress, Plan, flush_delayed}
use proton_drive_linux_fs.Fusefs.Unmount.Safe.{Flushing, AllPlaced, flush_delayed-AllPlaced}
use proton_drive_linux_fs.Fusefs.Transfers.{RecentTransfer, Counters, recent_transfers}
use proton_drive_linux_fs.Fusefs.Transfers.Window.{record_all, last_of, recent_transfers-record_all}

abbrev env : Env
env = record {
  excluded = λ name. str_eq name "x.tmp";
  delay_for = λ name. 60000;
  has_local = true;
  save_works = λ name c. true;
  local_works = λ name c. true;
}

abbrev labels : Labels
labels = record { display_path = λ dir name. name; message = λ gave_up e. "failed" }

abbrev bytes : Bytes
bytes = 1 ∷ 2 ∷ []

abbrev buffer : Buffer
buffer = record {
  tmp = some bytes;
  dirty = true;
  owns = true;
  parked = false;
  timer = false;
  due = false;
  retry_in = 0;
  failed = false;
  gone = false;
  node = none;
  name = "x.tmp";
  parent = 1;
  handle = true;
  pinned = true;
  delayed = false;
  kept = false;
  closing = false;
  places = [];
}

abbrev counters : Counters
counters = record { uploads_queued = 0; uploads_done = 0; uploads_failed = 0; drained_at = 0 }

abbrev save : Save
save = record { buffer = buffer; phase = idle; counters = counters; recent = []; patches = [] }

abbrev answers : Answers
answers = record {
  now = 7;
  late = false;
  found = none;
  trash_works = true;
  move_error = none;
  move_late = false;
}

abbrev uploaded_node : Node
uploaded_node = record { link_id = "l1"; name = "x.3mf" }

-- Closed under an excluded name, renamed, uploaded in vain, and uploaded again.
-- Cut while an upload runs, and while it is parked after that failed.
abbrev cut_calls : List Call
cut_calls =
    close none
    ∷ rename none "x.3mf" 1 none
    ∷ timer_fires none
    ∷ slot none
    ∷ write []
    ∷ answer answers (err canceled)
    ∷ write (1 ∷ [])
    ∷ timer_fires none
    ∷ []

abbrev calls : List Call
calls =
    close none
    ∷ rename none "x.3mf" 1 none
    ∷ timer_fires none
    ∷ slot none
    ∷ answer answers (err canceled)
    ∷ timer_fires none
    ∷ slot none
    ∷ answer answers (ok (some uploaded_node))
    ∷ unmounting
    ∷ abandons
    ∷ []

save-IsValid : IsValid env save
save-IsValid = record { buffer = ground arith; holds = tt; owner = refl }

save-Waits : Waits bytes buffer
save-Waits = record { tmp = refl; wanted = refl; pending = refl }

calls-All : All (λ call. keeps_file call ≡ true) calls
calls-All = (refl, (refl, (refl, (refl, (refl, (refl, (refl, (refl, (refl, (refl, tt))))))))))

run-Kept_example : Kept bytes (run env labels calls save).buffer
run-Kept_example =
    run-Kept env labels calls bytes save (refl, λ name c. refl) save-IsValid calls-All
      (inl save-Waits)

run-IsValid_example : IsValid env (run env labels cut_calls save)
run-IsValid_example = run-IsValid env labels cut_calls save save-IsValid

abbrev job : Job
job = record { tmp = bytes; existing = none; name = "x.3mf"; parent = 1 }

abbrev uploading_save : Save
uploading_save = record save { phase = uploading job }

upload_end-trashes_example :
    Uploaded job uploading_save
      (upload_end env labels answers (ok (some uploaded_node)) job uploading_save).0
    × (asks "l1"
          (upload_end env labels answers (ok (some uploaded_node)) job uploading_save).0.patches
        ≡ (false && is_new none || asks "l1" []))
upload_end-trashes_example = upload_end-trashes env labels answers uploaded_node job uploading_save

abbrev transfer : String → RecentTransfer
transfer name = record {
  path = name;
  action = "upload";
  status = "done";
  bytes = 2;
  finished = 7;
  error = "";
}

recent_transfers-record_all_example :
    recent_transfers (record_all [] (transfer "a" ∷ transfer "b" ∷ []))
    ≡ reverse (last_of (transfer "a" ∷ transfer "b" ∷ []))
recent_transfers-record_all_example = recent_transfers-record_all (transfer "a" ∷ transfer "b" ∷ [])

abbrev drained : Counters
drained = record { uploads_queued = 2; uploads_done = 1; uploads_failed = 1; drained_at = 5 }

-- Parked for its delay; the first upload of unmount fails, the second is not answered in time.
abbrev parked_save : Save
parked_save = record save {
  buffer = record buffer { parked = true; timer = true; delayed = true; name = "x.3mf" };
}

abbrev refused : Progress
refused = record { prepared = none; slot = some none; answer = some (answers, err canceled) }

abbrev cut_off : Progress
cut_off = record { prepared = none; slot = some (some canceled); answer = none }

abbrev plan : Plan
plan = record { first = refused; second = cut_off; grace = cut_off }

parked_save-Flushing : Flushing env bytes parked_save
parked_save-Flushing = record {
  valid = record { buffer = ground arith; holds = tt; owner = refl };
  closed = λ i free. cc;
  kept = inl (record { tmp = refl; wanted = refl; pending = refl });
}

flush_delayed-AllPlaced_example :
    AllPlaced (bytes ∷ []) (flush_delayed env labels true ((plan, parked_save) ∷ []))
flush_delayed-AllPlaced_example =
    flush_delayed-AllPlaced env labels (refl, λ name c. refl) true (bytes ∷ [])
      ((plan, parked_save) ∷ []) (parked_save-Flushing, tt)
