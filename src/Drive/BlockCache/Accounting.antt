-- ===== src/Drive/BlockCache/Accounting.antt =====
-- internal/drive/cache.go: the size that BlockCache keeps, through an eviction.
use proton_drive_linux_fs.Base.{
  ◌-◌, ◌≡◌, sym, ◌∙◌, ap, true, some, List, [], ◌∷◌, arith, leb, if◌then◌else◌, if-cases, length,
  lookup, delete, lookup-delete, Distinct, delete-Distinct,
}
use proton_drive_linux_fs.Drive.BlockCache.{
  CachePath, File, Cache, path_key, same_path_iff, Access, evictable, remove_entry, evict_loop,
  evict,
}
use proton_drive_linux_fs.Drive.BlockCache.Sizes.{
  bytes_on_disk, bytes-delete, IsCounted, remove_empty_parents-keeps, Lists, sorted-Lists,
}

-- Removing one file that counts.
remove_entry-IsCounted :
    (a : Access) (p : CachePath) (f : File) (c : Cache)
    → evictable a p ≡ true
    → lookup p c.files ≡ some f
    → IsCounted c
    → IsCounted (remove_entry a (p, f) c)
unfolding remove_entry
remove_entry-IsCounted a p f c e h v =
    if-cases IsCounted (a.removable p)
      (λ gone.
        let d : Cache = record c { files = delete p c.files; size = c.size - length f.content } in
        let (files, size, limit) = remove_empty_parents-keeps p d in
        record {
          counted =
              size
              ∙ ground (arith, v, bytes-delete p c.files v.distinct)
              ∙ ap bytes_on_disk (sym files);
          distinct = rw files (delete-Distinct p c.files v.distinct);
        })
      (λ stays. v)

pub remove_entry-files :
    (a : Access) (p : CachePath) (f : File) (c : Cache)
    → (remove_entry a (p, f) c).files ≡ (if a.removable p then delete p c.files else c.files)
unfolding remove_entry
remove_entry-files a p f c =
    if-cases (λ (d : Cache). d.files ≡ (if a.removable p then delete p c.files else c.files))
      (a.removable p)
      (λ gone. ground (
        arith,
        remove_empty_parents-keeps p
            (record c { files = delete p c.files; size = c.size - length f.content }),
      ))
      (λ stays. ground arith)

-- The tail lists what counts of the files left, whether the head went or not.
abbrev Listed : Access → List (CachePath × File) → List (CachePath × File) → Type 0
Listed a es files =
    Distinct es
    × ((p : CachePath) (f : File)
        → lookup p es ≡ some f
        → (evictable a p ≡ true) × (lookup p files ≡ some f))

next-Listed :
    (a : Access) (p : CachePath) (f : File) (es : List (CachePath × File)) (c : Cache)
    → Listed a ((p, f) ∷ es) c.files
    → (evictable a p ≡ true)
      × (lookup p c.files ≡ some f)
      × Listed a es (remove_entry a (p, f) c).files
unfolding lookup
next-Listed a p f es c (d, l) =
    let (here, there) = l p f (ground (arith, same_path_iff p p)) in
    (
      here,
      there,
      (
        d.1,
        λ q g h. ground (
          arith,
          l q g,
          d.0,
          same_path_iff p q,
          lookup-delete p q c.files,
          remove_entry-files a p f c,
        ),
      ),
    )

evict_loop-IsCounted :
    (a : Access) (es : List (CachePath × File)) (c : Cache)
    → Listed a es c.files
    → IsCounted c
    → IsCounted (evict_loop a es c)
unfolding evict_loop
evict_loop-IsCounted a [] c l v = v
evict_loop-IsCounted a ((p, f) ∷ es) c l v =
    let (e, h, t) = next-Listed a p f es c l in
    if-cases IsCounted (leb c.size c.limit) (λ fits. v)
      (λ over. evict_loop-IsCounted a es _ t (remove_entry-IsCounted a p f c e h v))

Lists-Listed :
    (a : Access) (es files : List (CachePath × File)) → Lists a es files → Listed a es files
Lists-Listed a es files (d, l) = (d, λ p f h. ground (arith, l p, h))

pub evict-IsCounted : (a : Access) (c : Cache) → IsCounted c → IsCounted (evict a c)
unfolding evict
evict-IsCounted a c v =
    if-cases IsCounted (leb c.size c.limit) (λ fits. v)
      (λ over.
        evict_loop-IsCounted a _ c (Lists-Listed a _ c.files (sorted-Lists a c.files v.distinct)) v)
