-- ===== src/Witness/Marks.antt =====
-- Previews, PNG texts and the published status at concrete values.
use proton_drive_linux_fs.Base.{
  same_bytes, ◌≡◌, ◌≢◌, refl, true, false, none, some, List, [], ◌∷◌, ◌++◌, ℕ, String, Option, All,
  arith, eq_iff, lookup, string_key,
}
use proton_drive_linux_fs.Drive.Errors.{ok, err, canceled}
use proton_drive_linux_fs.Drive.Read.{Bytes}
use proton_drive_linux_fs.Fusefs.Previews.{
  Node, Env as PreviewEnv, Previews, Event, listing, takes, finishes, retry, run,
}
use proton_drive_linux_fs.Fusefs.Previews.Claims.{IsClaimed, run-IsClaimed}
use proton_drive_linux_fs.Thumbs.Png.{max_text_chunk, insert_png_text, read_png_text}
use proton_drive_linux_fs.Thumbs.Png.Chunk.{Chunk, all_onto}
use proton_drive_linux_fs.Thumbs.Png.Walk.{Plain, IsEnd}
use proton_drive_linux_fs.Thumbs.Png.RoundTrip.{IsText, value_of, insert-read_png_text}
use proton_drive_linux_fs.State.{
  Disk, Env, Status, WriteCalls, failed, status_path, dir, write_status,
}
use proton_drive_linux_fs.State.Published.{Published, write_status-Published}

abbrev preview_env : PreviewEnv
preview_env = record {
  fresh = λ path time. false;
  write_preview = λ path img. none;
  join = λ dir name. name;
  extension = λ name. "";
  old_parent = λ link. "root";
  has_external = false;
  for_ext = λ ext. false;
  large_file = 0;
  is_net = λ e. false;
}

abbrev picture : Node
picture = record {
  link_id = "p";
  revision = some "1";
  name = "p.jpg";
  mod_time = 1;
  size = 10;
  has_thumbnail = true;
  is_dir = false;
}

abbrev nothing : Previews
nothing = record {
  inflight = [];
  jobs = [];
  external_jobs = [];
  running = none;
  external_running = none;
  retries = [];
  gave_up = [];
  removed = [];
}

-- Listed twice, a fetch that times out, a retry, and a fetch that works.
abbrev events : List Event
events =
    listing "" (picture ∷ picture ∷ [])
    ∷ takes
    ∷ finishes true (err canceled)
    ∷ listing "" (picture ∷ [])
    ∷ retry 0
    ∷ listing "" (picture ∷ [])
    ∷ takes
    ∷ finishes true (ok (1 ∷ []))
    ∷ []

nothing-IsClaimed : IsClaimed nothing
unfolding lookup
nothing-IsClaimed k = (refl, λ h. cc)

run-IsClaimed_example : IsClaimed (run preview_env events nothing)
run-IsClaimed_example = run-IsClaimed preview_env events nothing nothing-IsClaimed

abbrev signature : Bytes
signature = 137 ∷ 80 ∷ 78 ∷ 71 ∷ 13 ∷ 10 ∷ 26 ∷ 10 ∷ []

abbrev pixels : Chunk
pixels = record { kind = 73 ∷ 68 ∷ 65 ∷ 84 ∷ []; body = 1 ∷ 2 ∷ []; check = 0 ∷ 0 ∷ 0 ∷ 0 ∷ [] }

abbrev end_chunk : Bytes
end_chunk = 0 ∷ 0 ∷ 0 ∷ 0 ∷ 73 ∷ 69 ∷ 78 ∷ 68 ∷ 174 ∷ 66 ∷ 96 ∷ 130 ∷ []

-- "k" and "v"
abbrev texts : List (Bytes × Bytes)
texts = (107 ∷ [], 118 ∷ []) ∷ []

abbrev crc : Bytes → ℕ
crc payload = 9

pixels-Plain : All Plain (pixels ∷ [])
unfolding same_bytes
pixels-Plain = ((record { kind = refl; check = refl; body = omega arith }, refl, refl), tt)

texts-IsText : All IsText texts
unfolding max_text_chunk
texts-IsText = (((λ h. cc, tt), omega arith, omega arith, omega arith), tt)

end_chunk-IsEnd : IsEnd end_chunk
unfolding same_bytes
end_chunk-IsEnd = (omega arith, refl)

insert-read_png_text_example :
    (out : Bytes) × (insert_png_text crc (signature ++ all_onto (pixels ∷ []) end_chunk) texts
      ≡ some out)
    × ((keyword : Bytes) → read_png_text out keyword ≡ value_of keyword texts)
insert-read_png_text_example =
    insert-read_png_text crc (pixels ∷ []) texts signature end_chunk refl pixels-Plain texts-IsText
      end_chunk-IsEnd

abbrev env : Env
env = record { runtime_dir = "/run"; state_home = ""; home = none; join = λ dir name. name }

abbrev status : Status
status = record { pid = 3; mountpoint = "/m"; updated = 4; rest = [] }

-- The rename fails.
abbrev calls : WriteCalls
calls = record {
  mkdir = none;
  create = none;
  chmod = none;
  write = none;
  closes = none;
  rename = some failed;
  removes = none;
  tmp = "status-1.tmp";
  written = [];
}

abbrev disk : Disk
disk = record { files = []; locked = [] }

abbrev marshal : Status → Bytes
marshal s = s.pid ∷ []

abbrev unmarshal : Bytes → Option Status
unmarshal [] = none
unmarshal (pid ∷ rest) = some (record { pid = pid; mountpoint = "/m"; updated = 4; rest = [] })

differ : ◌≢◌ {A = String} "status.json" "status-1.tmp"
differ e = ground (arith, eq_iff "status.json" "status-1.tmp", e)

not_status : status_path env ≢ some calls.tmp
unfolding status_path dir
not_status h = differ (some_inj h)
  where
    some_inj : {a b : String} → some a ≡ some b → a ≡ b
    some_inj e = cc

unused : lookup calls.tmp disk.files ≡ none
unfolding lookup
unused = refl

write_status-Published_example :
    Published marshal unmarshal env calls status disk
      (write_status marshal unmarshal env calls status disk)
write_status-Published_example =
    write_status-Published marshal unmarshal env calls status disk refl not_status unused
