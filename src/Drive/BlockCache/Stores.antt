-- ===== src/Drive/BlockCache/Stores.antt =====
-- internal/drive/cache.go: what BlockCache's operations do to its size, and what they leave to find.
use proton_drive_linux_fs.Base.{
  ℕ, ◌+◌, ◌-◌, ◌≡◌, ◌⊎◌, refl, String, Bool, true, false, not, Option, none, some, List, [], ◌∷◌,
  arith, ltb, ◌==◌, if-cases, Bool-cases, Option-cases, inl, inr, length, lookup, insert, delete,
  lookup-insert, lookup-delete, Distinct, insert-Distinct, delete-Distinct,
}
use proton_drive_linux_fs.Drive.Read.{Bytes}
use proton_drive_linux_fs.Drive.BlockCache.{
  CachePath, File, Dir, Cache, Answers, Access, Seen, seen, vanished, failed, path_key,
  is_temp_file, same_path_iff, old_size, rename_file, count, replace, get, put, put_listing,
  write_temp, written, chmod_written, walk, met, kept_by_walk, stale_temp_age, open_block_cache,
  block, listing, temp_block, temp_listing,
}
use proton_drive_linux_fs.Drive.BlockCache.Accounting.{evict-IsCounted}
use proton_drive_linux_fs.Drive.BlockCache.Sizes.{
  bytes_of, bytes_on_disk, bytes-insert, bytes-delete, IsCounted,
}

pub get-IsCounted :
    (touched : Bool) (now : ℕ) (path : CachePath) (c : Cache)
    → IsCounted c
    → IsCounted (get touched now path c).1
unfolding get
get-IsCounted touched now path c v = elim (Option-cases (lookup path c.files)) [
  | inl miss ↦ rw (miss, get) v
  | inr (f, hit) ↦
      rw (hit, get)
        (record {
          counted = ground (arith, v, hit, bytes-insert path (record f { mod_time = now }) c.files);
          distinct = ground (arith, v, insert-Distinct path (record f { mod_time = now }) c.files);
        })
]

insert_temp-IsCounted :
    (tmp : CachePath) (f : File) (c : Cache)
    → is_temp_file tmp ≡ true
    → IsCounted c
    → IsCounted (record c { files = insert tmp f c.files })
insert_temp-IsCounted tmp f c h v = record {
  counted = ground (arith, v, bytes-insert tmp f c.files, Option-cases (lookup tmp c.files));
  distinct = insert-Distinct tmp f c.files v.distinct;
}

delete_temp-IsCounted :
    (tmp : CachePath) (c : Cache)
    → is_temp_file tmp ≡ true
    → IsCounted c
    → IsCounted (record c { files = delete tmp c.files })
delete_temp-IsCounted tmp c h v = record {
  counted =
      ground (arith, v, bytes-delete tmp c.files v.distinct, Option-cases (lookup tmp c.files));
  distinct = delete-Distinct tmp c.files v.distinct;
}

-- The rename of a temp file onto a path that counts, with its count.
renamed-IsCounted :
    (tmp path : CachePath) (f : File) (c : Cache)
    → is_temp_file tmp ≡ true
    → is_temp_file path ≡ false
    → lookup tmp c.files ≡ some f
    → IsCounted c
    → IsCounted (count (length f.content) (old_size path c) (rename_file tmp path c))
unfolding count old_size rename_file
renamed-IsCounted tmp path f c t p h v =
    let left = delete tmp c.files in
    rw (h, rename_file)
      (record {
        counted = ground (
          arith,
          v,
          h,
          bytes-delete tmp c.files v.distinct,
          bytes-insert path f left,
          lookup-delete tmp path c.files,
          same_path_iff tmp path,
          Option-cases (lookup path c.files),
        );
        distinct = insert-Distinct path f left (delete-Distinct tmp c.files v.distinct);
      })

replace-IsCounted :
    (a : Answers) (access : Access) (tmp path : CachePath) (f : File) (c : Cache)
    → is_temp_file tmp ≡ true
    → is_temp_file path ≡ false
    → lookup tmp c.files ≡ some f
    → IsCounted c
    → IsCounted (replace a access tmp path f.content c)
unfolding replace
replace-IsCounted a access tmp path f c t p h v =
    if-cases IsCounted a.rename_works
      (λ works. evict-IsCounted access _ (renamed-IsCounted tmp path f c t p h v))
      (λ fails. delete_temp-IsCounted tmp c t v)

write_temp_lem :
    (a : Answers) (tmp : CachePath) (f : File) (c : Cache)
    → (write_temp a tmp f c ≡ none)
      ⊎ (write_temp a tmp f c ≡ some (record c { files = insert tmp f c.files }))
unfolding write_temp
write_temp_lem a tmp f c = ground arith

lookup-insert_same :
    (tmp : CachePath) (f : File) (files : List (CachePath × File))
    → lookup tmp (insert tmp f files) ≡ some f
lookup-insert_same tmp f files =
    ground (arith, lookup-insert tmp tmp f files, same_path_iff tmp tmp)

written-IsCounted :
    (a : Answers) (access : Access) (tmp path : CachePath) (f : File) (c : Cache)
    → is_temp_file tmp ≡ true
    → is_temp_file path ≡ false
    → IsCounted c
    → IsCounted (written a access tmp path f.content c (write_temp a tmp f c))
unfolding written
written-IsCounted a access tmp path f c t p v = elim (write_temp_lem a tmp f c) [
  | inl fails ↦ rw (fails, written) v
  | inr works ↦
      rw (works, written)
        (replace-IsCounted a access tmp path f _ t p (lookup-insert_same tmp f c.files)
          (insert_temp-IsCounted tmp f c t v))
]

chmod_written-IsCounted :
    (a : Answers) (access : Access) (tmp path : CachePath) (f : File) (c : Cache)
    → is_temp_file tmp ≡ true
    → is_temp_file path ≡ false
    → IsCounted c
    → IsCounted (chmod_written a access tmp path f.content c (write_temp a tmp f c))
unfolding chmod_written
chmod_written-IsCounted a access tmp path f c t p v = elim (write_temp_lem a tmp f c) [
  | inl fails ↦ rw (fails, chmod_written) v
  | inr works ↦
      let here = insert_temp-IsCounted tmp f c t v in
      rw (works, chmod_written)
        (if-cases IsCounted a.chmod_works
          (λ set.
            replace-IsCounted a access tmp path f _ t p (lookup-insert_same tmp f c.files) here)
          (λ unset. delete_temp-IsCounted tmp _ t here))
]

-- Put, whatever fails on the way and whatever evict can read and remove, keeps the cache's size
-- equal to the bytes of the blocks and listings on disk, temp files not counted.
pub put-IsCounted :
    (a : Answers) (access : Access) (now n : ℕ) (link rev : String) (index : ℕ) (data_in : Bytes)
    (c : Cache)
    → IsCounted c
    → IsCounted (put a access now n link rev index data_in c)
unfolding put
put-IsCounted a access now n link rev index data_in c v =
    if-cases IsCounted (not c.enabled) (λ off. v)
      (λ on.
        if-cases IsCounted (not a.mkdir_works) (λ no_dir. v)
          (λ dir.
            written-IsCounted a access (temp_block link rev n) (block link rev index)
              (record { content = data_in; mod_time = now }) _ refl refl
              (record { counted = v.counted; distinct = v.distinct })))

-- PutListing, running alone, whatever fails on the way and whatever evict can read and remove,
-- keeps the cache's size equal to the bytes of the blocks and listings on disk.
pub put_listing-IsCounted :
    (a : Answers) (access : Access) (now n : ℕ) (link : String) (data_in : Bytes) (c : Cache)
    → IsCounted c
    → IsCounted (put_listing a access now n link data_in c)
unfolding put_listing
put_listing-IsCounted a access now n link data_in c v =
    if-cases IsCounted (not c.enabled) (λ off. v)
      (λ on.
        if-cases IsCounted (not a.mkdir_works) (λ no_dir. v)
          (λ dir.
            chmod_written-IsCounted a access (temp_listing n) (listing link)
              (record { content = data_in; mod_time = now }) c refl refl v))

-- What the walk leaves is counted, and only names that were there.
record Walked (files : List (CachePath × File)) (r : ℕ × List (CachePath × File)) : Type 0 where
  size : r.0 ≡ bytes_on_disk r.1
  distinct : Distinct r.1
  names : (p : CachePath) → lookup p files ≡ none → lookup p r.1 ≡ none

walk_vanished :
    (p : CachePath) (f : File) (files : List (CachePath × File)) (r : ℕ × List (CachePath × File))
    → Walked files r
    → Walked ((p, f) ∷ files) r
unfolding lookup
walk_vanished p f files r w = record {
  size = w.size;
  distinct = w.distinct;
  names = λ q h. w.names q (ground arith);
}

walk_kept :
    (now : ℕ) (p : CachePath) (f : File) (files : List (CachePath × File))
    (r : ℕ × List (CachePath × File))
    → lookup p files ≡ none
    → Walked files r
    → Walked ((p, f) ∷ files) (kept_by_walk now (p, f) r)
unfolding lookup kept_by_walk
walk_kept now p f files r h w =
    let cons : ℕ × List (CachePath × File) = (r.0 + bytes_of p f, (p, f) ∷ r.1) in
    let here : Walked ((p, f) ∷ files) cons = record {
      size = ground (arith, w.size);
      distinct = (w.names p h, w.distinct);
      names = λ q g. ground (arith, w.names q);
    } in
    elim (Bool-cases (is_temp_file p)) [
      | inl temp ↦
          rw (temp, kept_by_walk)
            (if-cases (Walked ((p, f) ∷ files)) (ltb stale_temp_age (now - f.mod_time))
              (λ stale. walk_vanished p f files r w)
              (λ fresh. record {
                size = ground (arith, here.size);
                distinct = here.distinct;
                names = here.names;
              }))
      | inr counts ↦
          rw (counts, kept_by_walk)
            (record {
              size = ground (arith, here.size);
              distinct = here.distinct;
              names = here.names;
            })
    ]

-- Nothing, or what was counted.
abbrev Counts : List (CachePath × File) → Option (ℕ × List (CachePath × File)) → Type 0
Counts files none = Unit {0}
Counts files (some r) = Walked files r

met_lem :
    (now : ℕ) (p : CachePath) (f : File) (s : Seen) (files : List (CachePath × File))
    (rest : Option (ℕ × List (CachePath × File)))
    → lookup p files ≡ none
    → Counts files rest
    → Counts ((p, f) ∷ files) (met now (p, f) s rest)
unfolding met
met_lem now p f failed files rest h w = tt
met_lem now p f vanished files none h w = tt
met_lem now p f vanished files (some r) h w = walk_vanished p f files r w
met_lem now p f seen files none h w = tt
met_lem now p f seen files (some r) h w = walk_kept now p f files r h w

walk-Counts :
    (look : CachePath → Seen) (now : ℕ) (files : List (CachePath × File))
    → Distinct files
    → Counts files (walk look now files)
unfolding walk lookup
walk-Counts look now [] d = record { size = refl; distinct = tt; names = λ p h. refl }
walk-Counts look now ((p, f) ∷ files) d =
    met_lem now p f (look p) files _ d.0 (walk-Counts look now files d.1)

-- What is opened, if anything is, is counted.
abbrev pub Opened : Option Cache → Type 0
Opened none = Unit {0}
Opened (some c) = (c.enabled ≡ false) ⊎ IsCounted c

-- OpenBlockCache over files of different names gives nothing, a disabled cache, or one whose size
-- is that of the blocks and listings its walk left.
pub open_block_cache-IsCounted :
    (look : CachePath → Seen) (now limit : ℕ) (files : List (CachePath × File)) (dirs : List Dir)
    → Distinct files
    → Opened (open_block_cache look now limit files dirs)
unfolding open_block_cache
open_block_cache-IsCounted look now limit files dirs d =
    if-cases Opened (limit == 0) (λ off. inl refl)
      (λ on. opened (walk look now files) (walk-Counts look now files d))
  where
    opened :
        (w : Option (ℕ × List (CachePath × File)))
        → Counts files w
        → Opened (elim w [
          | none ↦ none
          | some r ↦
              some (record { enabled = true; limit = limit; size = r.0; files = r.1; dirs = dirs })
        ])
    opened none w = tt
    opened (some r) w = inr (record { counted = w.size; distinct = w.distinct })
