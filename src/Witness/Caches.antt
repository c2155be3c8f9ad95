-- ===== src/Witness/Caches.antt =====
-- A block cache of internal/drive/cache.go, an upload of write.go, and GETs of http.go.
use proton_drive_linux_fs.Base.{
  ◌≢◌, ℕ, ◌+◌, ◌≤◌, ◌≡◌, refl, true, false, none, some, List, [], ◌∷◌, arith, lookup, delete,
}
use proton_drive_linux_fs.Drive.Errors.{ok, err, ApiError, api_ptr}
use proton_drive_linux_fs.Drive.Read.{Bytes}
use proton_drive_linux_fs.Drive.BlockCache.Layout.{Layout, old, settled, migrate_layout, starts}
use proton_drive_linux_fs.Drive.BlockCache.Layout.Stuck.{cut_migration_sticks}
use proton_drive_linux_fs.Drive.BlockCache.{
  CachePath, block, listing, temp_listing, File, Cache, Answers, Access, path_key, same_path,
  evict_loop, sort, entries, place, remove_entry, remove_empty_parents, evict, put,
}
use proton_drive_linux_fs.Drive.BlockCache.Sizes.{IsCounted, bytes_on_disk}
use proton_drive_linux_fs.Drive.BlockCache.Stores.{put-IsCounted}
use proton_drive_linux_fs.Drive.BlockCache.Eviction.{AllWorks, evict_fits, evict_removes_oldest}
use proton_drive_linux_fs.Drive.BlockCache.Race.{interleaved, put_listing_race}
use proton_drive_linux_fs.Drive.Upload.{Reader, Outside, upload}
use proton_drive_linux_fs.Drive.Upload.Committed.{Promise, Works, upload-Promise, upload_succeeds}
use proton_drive_linux_fs.Drive.Http.{Round, Log, get_raw_retrying}
use proton_drive_linux_fs.Drive.Http.Retries.{Bounded, get_raw_retrying-Bounded}

abbrev file : ℕ → Bytes → File
file t content = record { content = content; mod_time = t }

abbrev old_block : CachePath
old_block = block "l" "r" 1

abbrev new_listing : CachePath
new_listing = listing "l"

abbrev files : List (CachePath × File)
files = (old_block, file 1 (1 ∷ 2 ∷ [])) ∷ (new_listing, file 2 (3 ∷ [])) ∷ []

abbrev cache : Cache
cache = record { enabled = true; limit = 2; size = 3; files = files; dirs = [] }

cache-IsCounted : IsCounted cache
unfolding lookup same_path
cache-IsCounted = record { counted = refl; distinct = (refl, (refl, tt)) }

abbrev access : Access
access = record { readable = λ p. true; removable = λ p. true }

access-AllWorks : AllWorks access
access-AllWorks = record { reads = λ p. refl; removes = λ p. refl }

abbrev answers : Answers
answers = record {
  mkdir_works = true;
  create_works = true;
  write_works = true;
  close_works = true;
  chmod_works = true;
  rename_works = true;
}

put-IsCounted_example : IsCounted (put answers access 5 0 "l" "r" 1 (4 ∷ []) cache)
put-IsCounted_example = put-IsCounted answers access 5 0 "l" "r" 1 (4 ∷ []) cache cache-IsCounted

evict_fits_example : (evict access cache).size ≤ 2
evict_fits_example = evict_fits access cache access-AllWorks cache-IsCounted

evict_removes_oldest_example : 1 ≤ 2
unfolding evict lookup same_path evict_loop sort entries place remove_entry remove_empty_parents
    delete
evict_removes_oldest_example =
    evict_removes_oldest access cache access-AllWorks cache-IsCounted old_block new_listing
      (file 1 (1 ∷ 2 ∷ [])) (file 2 (3 ∷ [])) refl refl refl refl

abbrev racing : Cache
racing = record {
  enabled = true;
  limit = 9;
  size = 0;
  files = (temp_listing 1, file 1 (1 ∷ [])) ∷ (temp_listing 2, file 2 (2 ∷ 3 ∷ [])) ∷ [];
  dirs = [];
}

racing-IsCounted : IsCounted racing
unfolding lookup same_path
racing-IsCounted = record { counted = refl; distinct = (refl, (refl, tt)) }

put_listing_race_example :
    (interleaved
      (temp_listing 1)
      (temp_listing 2)
      new_listing
      (file 1 (1 ∷ []))
      (file 2 (2 ∷ 3 ∷ []))
      racing).size
    ≡ bytes_on_disk
        (interleaved
          (temp_listing 1)
          (temp_listing 2)
          new_listing
          (file 1 (1 ∷ []))
          (file 2 (2 ∷ 3 ∷ []))
          racing).files
      + 1
unfolding lookup same_path
put_listing_race_example =
    put_listing_race (temp_listing 1) (temp_listing 2) new_listing (file 1 (1 ∷ []))
      (file 2 (2 ∷ 3 ∷ [])) racing racing-IsCounted refl refl refl (λ same. absurd (ground arith))
      refl refl refl

abbrev outside : Outside
outside = record {
  started = ok ("l", "r");
  upload_block = λ index chunk. ok (7 ∷ []);
  commit = λ sizes manifest. none;
  read_back = some "l";
}

outside-Works : Works outside ("l", "r")
outside-Works = record {
  starts = refl;
  uploads = λ index chunk. (7 ∷ [], refl);
  commits = λ sizes manifest. refl;
}

abbrev reader : Reader
reader = record { content = 1 ∷ 2 ∷ 3 ∷ []; error = none }

upload-Promise_example : Promise outside true 3 reader (upload outside true 3 reader)
upload-Promise_example = upload-Promise outside true 3 reader

upload_succeeds_example : (upload outside true 3 reader).result ≡ ok (some "l")
upload_succeeds_example = upload_succeeds outside ("l", "r") true 3 (1 ∷ 2 ∷ 3 ∷ []) outside-Works

abbrev refusal : ApiError
refusal = record { status = 429; code = 0 }

abbrev busy : Round
busy = record {
  no_slot = none;
  response = record { body = err (api_ptr refusal); status = 429; retry_after = 2000 };
  ctx_done = false;
  jitter = 5;
  now = 100;
  wait_ends = none;
  hint = none;
}

abbrev log : Log
log = record { until = 0; events = [] }

get_raw_retrying-Bounded_example :
    Bounded 4 (get_raw_retrying true (busy ∷ busy ∷ busy ∷ busy ∷ []) log)
get_raw_retrying-Bounded_example =
    get_raw_retrying-Bounded true (busy ∷ busy ∷ busy ∷ busy ∷ []) log (omega arith) tt

-- A cache of the old layout with two links, whose migration ends after the first rename.
abbrev old_layout : Layout
old_layout = record { top = old "a" ∷ old "b" ∷ []; moved = []; blocks = none }

cut_migration_sticks_example :
    (migrate_layout 9 (starts (3 ∷ []) (migrate_layout 1 old_layout).1)).0 ≢ settled
unfolding migrate_layout
cut_migration_sticks_example = cut_migration_sticks 1 9 (3 ∷ []) old_layout refl refl
