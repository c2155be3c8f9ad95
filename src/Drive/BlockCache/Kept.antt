-- ===== src/Drive/BlockCache/Kept.antt =====
-- internal/drive/cache.go: a listing that is put and got.
use proton_drive_linux_fs.Base.{
  ℕ, ◌+◌, ◌≤◌, ◌≡◌, refl, ◌∙◌, ap, String, Bool, true, some, arith, leb, length, lookup, insert,
  delete, lookup-insert, if-cases, not,
}
use proton_drive_linux_fs.Drive.Read.{Bytes}
use proton_drive_linux_fs.Drive.BlockCache.{
  CachePath, listing, temp_listing, same_path_iff, path_key, File, Cache, Answers, Access, get,
  write_temp, old_size, rename_file, count, evict, replace, put_listing, chmod_written,
}

-- Every call of the file system works.
abbrev pub working : Answers
working = record {
  mkdir_works = true;
  create_works = true;
  write_works = true;
  close_works = true;
  chmod_works = true;
  rename_works = true;
}

lookup-rename_file :
    (tmp path : CachePath) (f : File) (c : Cache)
    → lookup path (rename_file tmp path (record c { files = insert tmp f c.files })).files ≡ some f
unfolding rename_file
lookup-rename_file tmp path f c = ground (
  arith,
  lookup-insert tmp tmp f c.files,
  lookup-insert path path f (delete tmp (insert tmp f c.files)),
  same_path_iff tmp tmp,
  same_path_iff path path,
)

size-rename_file :
    (tmp path : CachePath) (c : Cache)
    → ((rename_file tmp path c).size ≡ c.size)
      × ((rename_file tmp path c).limit ≡ c.limit)
      × ((rename_file tmp path c).enabled ≡ c.enabled)
unfolding rename_file
size-rename_file tmp path c = ground arith

evict_none : (access : Access) (c : Cache) → c.size ≤ c.limit → evict access c ≡ c
unfolding evict
evict_none access c h =
    if-cases (λ d. d ≡ c) (leb c.size c.limit) (λ fits. refl) (λ over. absurd (ground arith))

get-found :
    (touched : Bool) (now : ℕ) (path : CachePath) (f : File) (c : Cache)
    → lookup path c.files ≡ some f
    → c.enabled ≡ true
    → (get touched now path c).0 ≡ some f.content
unfolding get
get-found touched now path f c found on = ground (arith, found, on)

get-replace :
    (access : Access) (touched : Bool) (later : ℕ) (tmp path : CachePath) (data_in : Bytes)
    (f : File) (c : Cache)
    → c.enabled ≡ true
    → c.size + length data_in ≤ c.limit
    → (get touched later path
        (replace working access tmp path data_in (record c { files = insert tmp f c.files }))).0
      ≡ some f.content
unfolding replace count
get-replace access touched later tmp path data_in f c on room =
    let d = record c { files = insert tmp f c.files } in
    let (same, cap, still) = size-rename_file tmp path d in
    let e = count (length data_in) (old_size path d) (rename_file tmp path d) in
    ap (λ x. (get touched later path x).0) (evict_none access e (omega (arith, same, cap, room)))
    ∙ get-found touched later path f e (lookup-rename_file tmp path f c) (still ∙ on)

-- A listing that fits is there, with its bytes.
pub get-put_listing :
    (access : Access) (touched : Bool) (later now n : ℕ) (link : String) (data_in : Bytes)
    (c : Cache)
    → c.enabled ≡ true
    → c.size + length data_in ≤ c.limit
    → (get touched later (listing link) (put_listing working access now n link data_in c)).0
      ≡ some data_in
unfolding put_listing chmod_written write_temp
get-put_listing access touched later now n link data_in c on room =
    if-cases (λ x. (get touched later (listing link) x).0 ≡ some data_in) (not c.enabled)
      (λ off. absurd (ground (arith, on, off)))
      (λ enabled.
        get-replace access touched later (temp_listing n) (listing link) data_in
          (record { content = data_in; mod_time = now }) c on room)
