-- ===== src/Drive/BlockCache.antt =====
-- internal/drive/cache.go: BlockCache, the decrypted blocks and the directory listings on disk under
-- one byte budget. Files and directories are those under the cache's dir; times are milliseconds.
-- What the file system answers is an argument of each operation.
pub mod Sizes
pub mod Accounting
pub mod Stores
pub mod Eviction
pub mod Race
pub mod Layout
pub mod Kept
use proton_drive_linux_fs.Base.{
  ℕ, ◌+◌, ◌-◌, ◌↔◌, ◌≡◌, String, Bool, true, false, not, ◌&&◌, ◌||◌, Option, none, some, List, [],
  ◌∷◌, arith, ltb, leb, ◌==◌, if◌then◌else◌, length, str_eq, eq_iff, Key, lookup, insert, delete,
}
use proton_drive_linux_fs.Drive.Read.{Bytes}

-- blocks/<link>/<rev>/<index>, listings/<link>.json, and the temp files of writeTemp beside them,
-- told apart by the number in their name.
pub data CachePath : Type 0 where
  block : String → String → ℕ → CachePath
  listing : String → CachePath
  temp_block : String → String → ℕ → CachePath
  temp_listing : ℕ → CachePath

-- blocks/<link>/<rev> and blocks/<link>
pub data Dir : Type 0 where
  revision_dir : String → String → Dir
  link_dir : String → Dir

pub record File : Type 0 where
  pub content : Bytes
  pub mod_time : ℕ

unfoldable pub same_path : CachePath → CachePath → Bool
same_path (block l r n) (block k q m) = str_eq l k && str_eq r q && n == m
same_path (listing l) (listing k) = str_eq l k
same_path (temp_block l r n) (temp_block k q m) = str_eq l k && str_eq r q && n == m
same_path (temp_listing n) (temp_listing m) = n == m
same_path _ _ = false

pub same_path_iff : (a b : CachePath) → (same_path a b ≡ true) ↔ (a ≡ b)
unfolding same_path
same_path_iff (block l r n) (block k q m) = ground (arith, eq_iff l k, eq_iff r q)
same_path_iff (listing l) (listing k) = ground (arith, eq_iff l k)
same_path_iff (temp_block l r n) (temp_block k q m) = ground (arith, eq_iff l k, eq_iff r q)
same_path_iff (temp_listing n) (temp_listing m) = ground arith
same_path_iff a b = ground arith

instance abbrev pub path_key : Key CachePath
path_key = record { same = same_path; same_iff = same_path_iff }

abbrev pub is_temp_file : CachePath → Bool
is_temp_file (block l r n) = false
is_temp_file (listing l) = false
is_temp_file (temp_block l r n) = true
is_temp_file (temp_listing n) = true

pub record Cache : Type 0 where
  pub enabled : Bool
  pub limit : ℕ
  pub size : ℕ
  pub files : List (CachePath × File)
  pub dirs : List Dir

-- Get and GetListing: the content, and the cache with the file's time bumped; `touched` says
-- whether Chtimes worked. Decoding a listing's JSON is left to the caller.
unfoldable pub get : Bool → ℕ → CachePath → Cache → Option Bytes × Cache
get touched now path c = elim (lookup path c.files) [
  | none ↦ (none, c)
  | some f ↦ if not c.enabled then (none, c) else (
    some f.content,
    if touched then record c { files = insert path (record f { mod_time = now }) c.files } else c,
  )
]

-- What the file system answers: whether the directory can be made, whether writeTemp's create,
-- write and close work, whether the mode of a listing can be set, and whether the rename works.
pub record Answers : Type 0 where
  pub mkdir_works : Bool
  pub create_works : Bool
  pub write_works : Bool
  pub close_works : Bool
  pub chmod_works : Bool
  pub rename_works : Bool

-- writeTemp leaves nothing behind when it fails.
unfoldable pub write_temp : Answers → CachePath → File → Cache → Option Cache
write_temp a tmp f c =
    if not a.create_works
    then none
    else if not a.write_works
    then none
    else if not a.close_works
    then none
    else some (record c { files = insert tmp f c.files })

unfoldable pub old_size : CachePath → Cache → ℕ
old_size path c = elim (lookup path c.files) [ none ↦ 0 | some f ↦ length f.content ]

unfoldable pub rename_file : CachePath → CachePath → Cache → Cache
rename_file tmp path c = elim (lookup tmp c.files) [
  | none ↦ c
  | some f ↦ record c { files = insert path f (delete tmp c.files) }
]

unfoldable pub count : ℕ → ℕ → Cache → Cache
count len old c = record c { size = c.size + len - old }

-- removeEmptyParents: os.Remove refuses a directory that has something in it.
abbrev pub file_inside : Dir → CachePath → Bool
file_inside (revision_dir l r) (block k q n) = str_eq l k && str_eq r q
file_inside (revision_dir l r) (temp_block k q n) = str_eq l k && str_eq r q
file_inside (link_dir l) _ = false
file_inside (revision_dir l r) _ = false

abbrev pub dir_inside : Dir → Dir → Bool
dir_inside (link_dir l) (revision_dir k q) = str_eq l k
dir_inside _ _ = false

abbrev any : {A : Type 0} → (A → Bool) → List A → Bool
any p [] = false
any p (x ∷ xs) = p x || any p xs

abbrev filter : {A : Type 0} → (A → Bool) → List A → List A
filter p [] = []
filter p (x ∷ xs) = let rest = filter p xs in if p x then x ∷ rest else rest

abbrev same_dir : Dir → Dir → Bool
same_dir (revision_dir l r) (revision_dir k q) = str_eq l k && str_eq r q
same_dir (link_dir l) (link_dir k) = str_eq l k
same_dir _ _ = false

-- Whether the directory went, and the cache without it.
remove_dir : Dir → Cache → Bool × Cache
remove_dir d c =
    if any (λ (e : CachePath × File). file_inside d e.0) c.files || any (dir_inside d) c.dirs
    then (false, c)
    else (any (same_dir d) c.dirs, record c { dirs = filter (λ e. not (same_dir d e)) c.dirs })

then_link : String → Bool × Cache → Cache
unfolding remove_dir
then_link l (true, c) = (remove_dir (link_dir l) c).1
then_link l (false, c) = c

unfoldable pub remove_empty_parents : CachePath → Cache → Cache
unfolding then_link
remove_empty_parents (block l r n) c = then_link l (remove_dir (revision_dir l r) c)
remove_empty_parents _ c = c

-- What evict's walk can stat, and what os.Remove works on.
pub record Access : Type 0 where
  pub readable : CachePath → Bool
  pub removable : CachePath → Bool

abbrev pub evictable : Access → CachePath → Bool
evictable a p = not (is_temp_file p) && a.readable p

unfoldable pub entries : Access → List (CachePath × File) → List (CachePath × File)
entries a [] = []
entries a ((p, f) ∷ es) = let rest = entries a es in if evictable a p then (p, f) ∷ rest else rest

-- The order of sort.Slice by time, in which files of the same time keep their order here.
unfoldable pub place : CachePath × File → List (CachePath × File) → List (CachePath × File)
place e [] = e ∷ []
place e (d ∷ ds) =
    let rest = place e ds in if leb e.1.mod_time d.1.mod_time then e ∷ d ∷ ds else d ∷ rest

unfoldable pub sort : List (CachePath × File) → List (CachePath × File)
sort [] = []
sort (e ∷ es) = place e (sort es)

unfoldable pub remove_entry : Access → CachePath × File → Cache → Cache
remove_entry a (p, f) c =
    if a.removable p
    then remove_empty_parents p
        (record c { files = delete p c.files; size = c.size - length f.content })
    else c

unfoldable pub evict_loop : Access → List (CachePath × File) → Cache → Cache
evict_loop a [] c = c
evict_loop a (e ∷ es) c =
    let rest = evict_loop a es (remove_entry a e c) in if leb c.size c.limit then c else rest

unfoldable pub evict : Access → Cache → Cache
evict a c = if leb c.size c.limit then c else evict_loop a (sort (entries a c.files)) c

-- From writeTemp's file on: the stat, the rename and the count, and the eviction.
unfoldable pub replace : Answers → Access → CachePath → CachePath → Bytes → Cache → Cache
replace a access tmp path data_in c =
    if a.rename_works
    then evict access (count (length data_in) (old_size path c) (rename_file tmp path c))
    else record c { files = delete tmp c.files }

abbrev make_dirs : String → String → Cache → Cache
make_dirs l r c =
    let link = if any (same_dir (link_dir l)) c.dirs then c.dirs else link_dir l ∷ c.dirs in
    record c {
      dirs = if any (same_dir (revision_dir l r)) link then link else revision_dir l r ∷ link;
    }

written : Answers → Access → CachePath → CachePath → Bytes → Cache → Option Cache → Cache
unfolding replace
written a access tmp path data_in c none = c
written a access tmp path data_in c (some d) = replace a access tmp path data_in d

-- Put; `n` is the number in the temp file's name.
unfoldable pub put : Answers → Access → ℕ → ℕ → String → String → ℕ → Bytes → Cache → Cache
unfolding written
put a access now n link rev index data_in c =
    if not c.enabled
    then c
    else if not a.mkdir_works
    then c
    else let d = make_dirs link rev c in
      let tmp = temp_block link rev n in
      let f : File = record { content = data_in; mod_time = now } in
      written a access tmp (block link rev index) data_in d (write_temp a tmp f d)

-- PutListing, with the encoded listing.
chmod_written : Answers → Access → CachePath → CachePath → Bytes → Cache → Option Cache → Cache
unfolding replace
chmod_written a access tmp path data_in c none = c
chmod_written a access tmp path data_in c (some d) =
    if a.chmod_works
    then replace a access tmp path data_in d
    else record d { files = delete tmp d.files }

unfoldable pub put_listing : Answers → Access → ℕ → ℕ → String → Bytes → Cache → Cache
unfolding chmod_written
put_listing a access now n link data_in c =
    if not c.enabled
    then c
    else if not a.mkdir_works
    then c
    else let tmp = temp_listing n in
      let f : File = record { content = data_in; mod_time = now } in
      chmod_written a access tmp (listing link) data_in c (write_temp a tmp f c)

-- What OpenBlockCache's walk meets: a file, one that is gone, or an error.
pub data Seen : Type 0 where
  seen vanished failed : Seen

abbrev pub stale_temp_age : ℕ
stale_temp_age = 3600000

kept_by_walk : ℕ → CachePath × File → ℕ × List (CachePath × File) → ℕ × List (CachePath × File)
kept_by_walk now (p, f) r =
    if is_temp_file p
    then if ltb stale_temp_age (now - f.mod_time) then r else (r.0, (p, f) ∷ r.1)
    else (r.0 + length f.content, (p, f) ∷ r.1)

met :
    ℕ
    → CachePath × File
    → Seen
    → Option (ℕ × List (CachePath × File))
    → Option (ℕ × List (CachePath × File))
unfolding kept_by_walk
met now e failed rest = none
met now e vanished rest = rest
met now e seen none = none
met now e seen (some r) = some (kept_by_walk now e r)

-- The files left and their size, or nothing when the walk stops at an error.
unfoldable pub walk :
    (CachePath → Seen) → ℕ → List (CachePath × File) → Option (ℕ × List (CachePath × File))
unfolding met
walk look now [] = some (0, [])
walk look now (e ∷ es) = met now e (look e.0) (walk look now es)

-- OpenBlockCache, from the walk on.
unfoldable pub open_block_cache :
    (CachePath → Seen) → ℕ → ℕ → List (CachePath × File) → List Dir → Option Cache
open_block_cache look now limit files dirs =
    if limit == 0
    then some (record { enabled = false; limit = 0; size = 0; files = files; dirs = dirs })
    else elim (walk look now files) [
      | none ↦ none
      | some r ↦
          some (record { enabled = true; limit = limit; size = r.0; files = r.1; dirs = dirs })
    ]
