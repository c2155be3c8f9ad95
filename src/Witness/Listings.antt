-- ===== src/Witness/Listings.antt =====
-- A cached listing of internal/fusefs/fusefs.go.
use proton_drive_linux_fs.Base.{
  true, String, Bool, str_eq, inr, ◌≡◌, refl, false, none, some, List, [], ◌∷◌, arith,
}
use proton_drive_linux_fs.Fusefs.Shown.{
  Child, Local, Entry, drive_file, pending_file, local_store, among, readdir, lookup_entry,
}
use proton_drive_linux_fs.Fusefs.Shown.Agree.{first_named, found, is_stored, readdir-lookup_entry}
use proton_drive_linux_fs.Fusefs.Buffer.{Node}
use proton_drive_linux_fs.Fusefs.Release.{success}
use proton_drive_linux_fs.Fusefs.Listing.{
  Listing, upsert_child, finish_load, flush_listings, Op, upserts, removes, loads, fetch_starts,
  fetch_ends, run, schedules, persists, takes, writes, untracks, idle, patch_in, patch_out,
  schedule_persist, persist_fetched, flush_take, flush_write, step, start_fetch, begin_load,
}
use proton_drive_linux_fs.Fusefs.Listing.Entries.{find_child, Unique}
use proton_drive_linux_fs.Fusefs.Listing.Fetches.{fetch-keeps_patches, patch_hides_first_fetch}
use proton_drive_linux_fs.Fusefs.Listing.Persisted.{IsPersisted}
use proton_drive_linux_fs.Fusefs.Listing.Unmounted.{waited_and_took, unmount_writes}

abbrev a_file : Node
a_file = record { link_id = "1"; name = "a" }

abbrev b_file : Node
b_file = record { link_id = "2"; name = "b" }

abbrev children : List Node
children = a_file ∷ []

abbrev listed : Listing
listed = record {
  children = some children;
  expires = 5;
  gen = 0;
  loading = none;
  load_errno = success;
  persisted_gen = 0;
  persist_timer = false;
  tracked = false;
  disk = none;
  flushing = idle;
  writes = [];
}

listed-IsPersisted : IsPersisted listed
listed-IsPersisted = record {
  found = λ h. absurd (ground arith);
  persisted = omega arith;
  started = tt;
  flight = tt;
  waiting = tt;
}

children-Unique : Unique children
unfolding find_child
children-Unique = (refl, tt)

fetch-keeps_patches_example :
    (finish_load 10 3 none children 0 (
      run
        (removes "a" ∷ takes ∷ schedules ∷ writes ∷ untracks ∷ [])
        (patch_in b_file listed))).children
    ≡ (run
        (removes "a" ∷ takes ∷ schedules ∷ writes ∷ untracks ∷ [])
        (patch_in b_file listed)).children
fetch-keeps_patches_example =
    fetch-keeps_patches 10 3 none children 0 b_file
      (removes "a" ∷ takes ∷ schedules ∷ writes ∷ untracks ∷ []) listed (omega arith)
      (refl, (refl, (refl, (refl, (refl, tt)))))

abbrev cold : Listing
cold = record listed { children = none; loading = some (some 0) }

patch_hides_first_fetch_example :
    (finish_load 10 3 none children 0 (upsert_child b_file cold)).children ≡ some (b_file ∷ [])
patch_hides_first_fetch_example =
    patch_hides_first_fetch 10 3 0 none b_file children cold refl (omega arith)

abbrev ops : List Op
ops =
    loads 6
    ∷ fetch_starts
    ∷ fetch_ends 10 7 none children
    ∷ upserts b_file
    ∷ persists 0
    ∷ schedules
    ∷ takes
    ∷ removes "a"
    ∷ schedules
    ∷ []

unmount_writes_example :
    ((flush_listings (run ops listed)).disk ≡ (run ops listed).children)
    × ((flush_listings (run ops listed)).persist_timer ≡ false)
    × ((flush_write (
          run
            (upserts b_file ∷ schedules ∷ persists 0 ∷ [])
            (waited_and_took (run ops listed)))).disk
        ≡ (run ops listed).children)
unfolding run step patch_in patch_out schedule_persist start_fetch begin_load persist_fetched
    flush_take
unmount_writes_example =
    unmount_writes ops (upserts b_file ∷ schedules ∷ persists 0 ∷ []) listed listed-IsPersisted refl
      (refl, (refl, (refl, tt)))

-- A file of the drive, a folder of an excluded name, and two copies in the local store.
abbrev shown_children : List Child
shown_children =
    record { name = "a"; is_dir = false } ∷ record { name = ".git"; is_dir = true } ∷ []

abbrev shown_locals : List Local
shown_locals =
    record { name = "a"; has_info = true } ∷ record { name = ".git"; has_info = true } ∷ []

abbrev is_git : String → Bool
is_git name = str_eq name ".git"

abbrev shown_entries : List Entry
shown_entries =
    record { name = "a"; origin = drive_file }
    ∷ record { name = "n"; origin = pending_file }
    ∷ record { name = ".git"; origin = local_store }
    ∷ []

readdir-lookup_entry_example :
    first_named ".git" shown_entries
    ≡ found (
        lookup_entry is_git is_git
          (inr shown_children)
          (among ".git" ("n" ∷ []))
          (is_stored is_git is_git ".git" shown_locals)
          ".git")
unfolding readdir among
readdir-lookup_entry_example =
    readdir-lookup_entry is_git is_git ".git" shown_children ("n" ∷ []) shown_locals shown_entries
      refl
