-- ===== src/Drive/BlockCache/Sizes.antt =====
-- internal/drive/cache.go: the bytes on disk, and the list that evict goes through.
use proton_drive_linux_fs.Base.{
  ℕ, ◌+◌, ◌≡◌, refl, ◌∙◌, ap, true, Option, none, some, List, [], ◌∷◌, arith, if◌then◌else◌,
  if-cases, length, lookup, insert, delete, lookup-delete, Distinct, delete_absent,
}
use proton_drive_linux_fs.Drive.BlockCache.{
  CachePath, File, Cache, path_key, is_temp_file, same_path, same_path_iff, Access, evictable,
  entries, place, sort, remove_empty_parents, then_link, remove_dir, block, listing, temp_block,
  temp_listing,
}

abbrev pub bytes_of : CachePath → File → ℕ
bytes_of p f = if is_temp_file p then 0 else length f.content

abbrev pub bytes_at : CachePath → Option File → ℕ
bytes_at p none = 0
bytes_at p (some f) = bytes_of p f

-- The bytes of the blocks and listings, temp files aside.
abbrev pub bytes_on_disk : List (CachePath × File) → ℕ
bytes_on_disk [] = 0
bytes_on_disk ((p, f) ∷ es) = bytes_of p f + bytes_on_disk es

pub bytes-insert :
    (p : CachePath) (f : File) (es : List (CachePath × File))
    → bytes_on_disk (insert p f es) + bytes_at p (lookup p es) ≡ bytes_on_disk es + bytes_of p f
unfolding insert lookup
bytes-insert p f [] = ground arith
bytes-insert p f ((q, g) ∷ es) = ground (arith, same_path_iff q p, bytes-insert p f es)

pub bytes-delete :
    (p : CachePath) (es : List (CachePath × File))
    → Distinct es
    → bytes_on_disk (delete p es) + bytes_at p (lookup p es) ≡ bytes_on_disk es
unfolding delete lookup
bytes-delete p [] d = refl
bytes-delete p ((q, g) ∷ es) d =
    ground (arith, same_path_iff q p, bytes-delete p es d.1, delete_absent p es)

-- The size is that of the files, which have names of their own.
pub record IsCounted (c : Cache) : Type 0 where
  pub counted : c.size ≡ bytes_on_disk c.files
  pub distinct : Distinct c.files

-- What a directory's removal leaves alone.
pub remove_empty_parents-keeps :
    (p : CachePath) (c : Cache)
    → ((remove_empty_parents p c).files ≡ c.files)
      × ((remove_empty_parents p c).size ≡ c.size)
      × ((remove_empty_parents p c).limit ≡ c.limit)
unfolding remove_empty_parents remove_dir then_link
remove_empty_parents-keeps (block l r n) c = ground arith
remove_empty_parents-keeps (listing l) c = (refl, refl, refl)
remove_empty_parents-keeps (temp_block l r n) c = (refl, refl, refl)
remove_empty_parents-keeps (temp_listing n) c = (refl, refl, refl)

-- What evict's list says of the files still there.
abbrev pub Lists : Access → List (CachePath × File) → List (CachePath × File) → Type 0
Lists a es files =
    Distinct es × ((p : CachePath) → lookup p es ≡ (if evictable a p then lookup p files else none))

lookup-entries :
    (a : Access) (files : List (CachePath × File)) (p : CachePath)
    → lookup p (entries a files) ≡ (if evictable a p then lookup p files else none)
unfolding entries lookup
lookup-entries a [] p = ground arith
lookup-entries a ((q, f) ∷ files) p =
    if-cases
      (λ (es : List (CachePath × File)).
        lookup p es ≡ (if evictable a p then lookup p ((q, f) ∷ files) else none))
      (evictable a q) (λ e. ground (arith, same_path_iff q p, lookup-entries a files p))
      (λ e. ground (arith, same_path_iff q p, lookup-entries a files p))

entries-Distinct :
    (a : Access) (files : List (CachePath × File)) → Distinct files → Distinct (entries a files)
unfolding entries
entries-Distinct a [] d = tt
entries-Distinct a ((q, f) ∷ files) d =
    ground (arith, lookup-entries a files q, entries-Distinct a files d.1)

lookup-place :
    (p : CachePath) (f : File) (es : List (CachePath × File)) (q : CachePath)
    → lookup p es ≡ none
    → lookup q (place (p, f) es) ≡ lookup q ((p, f) ∷ es)
unfolding place lookup
lookup-place p f [] q h = refl
lookup-place p f ((r, g) ∷ es) q h = ground (
  arith,
  same_path_iff r p,
  same_path_iff p r,
  same_path_iff p q,
  same_path_iff r q,
  lookup-place p f es q,
)

place-Distinct :
    (p : CachePath) (f : File) (es : List (CachePath × File))
    → Distinct ((p, f) ∷ es)
    → Distinct (place (p, f) es)
unfolding place lookup
place-Distinct p f [] d = d
place-Distinct p f ((r, g) ∷ es) d =
    ground
      (arith, same_path_iff r p, same_path_iff p r, lookup-place p f es r, place-Distinct p f es)

lookup-tail :
    (p : CachePath) (f : File) (ds es : List (CachePath × File)) (q : CachePath)
    → lookup q ds ≡ lookup q es
    → lookup q ((p, f) ∷ ds) ≡ lookup q ((p, f) ∷ es)
unfolding lookup
lookup-tail p f ds es q h = ap (λ (r : Option File). if same_path p q then some f else r) h

sort-Same :
    (es : List (CachePath × File))
    → Distinct es
    → Distinct (sort es) × ((q : CachePath) → lookup q (sort es) ≡ lookup q es)
unfolding sort
sort-Same [] d = (tt, λ q. refl)
sort-Same ((p, f) ∷ es) d =
    let (distinct, same) = sort-Same es d.1 in
    (
      place-Distinct p f (sort es) (same p ∙ d.0, distinct),
      λ q. lookup-place p f (sort es) q (same p ∙ d.0) ∙ lookup-tail p f (sort es) es q (same q),
    )

-- The sorted list evict starts with.
pub sorted-Lists :
    (a : Access) (files : List (CachePath × File))
    → Distinct files
    → Lists a (sort (entries a files)) files
sorted-Lists a files d =
    let (distinct, same) = sort-Same (entries a files) (entries-Distinct a files d) in
    (distinct, λ p. same p ∙ lookup-entries a files p)

-- The head of the list is a file that counts, and the tail lists what is left without it.
pub head-Lists :
    (a : Access) (p : CachePath) (f : File) (es files : List (CachePath × File))
    → Lists a ((p, f) ∷ es) files
    → (evictable a p ≡ true) × (lookup p files ≡ some f) × (lookup p es ≡ none)
unfolding lookup
head-Lists a p f es files (d, l) = ground (arith, l p, same_path_iff p p)

pub tail-Lists :
    (a : Access) (p : CachePath) (f : File) (es files : List (CachePath × File))
    → Lists a ((p, f) ∷ es) files
    → Lists a es (delete p files)
unfolding lookup
tail-Lists a p f es files (d, l) =
    (d.1, λ q. ground (arith, l q, lookup-delete p q files, same_path_iff p q, d.0))
