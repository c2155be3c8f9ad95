-- ===== src/Drive/BlockCache/Race.antt =====
-- internal/drive/cache.go: two PutListing of one directory at once. Put holds c.mu from its stat to
-- its count; PutListing does its stat and its rename without it.
use proton_drive_linux_fs.Base.{
  ◌+◌, ◌≡◌, ◌≢◌, refl, true, false, none, some, arith, length, lookup, delete, lookup-insert,
  lookup-delete, Distinct, insert-Distinct, delete-Distinct, Option-cases, inl, inr, ◌∙◌, ap,
}
use proton_drive_linux_fs.Drive.BlockCache.{
  CachePath, File, Cache, path_key, is_temp_file, same_path_iff, old_size, rename_file, count,
}
use proton_drive_linux_fs.Drive.BlockCache.Sizes.{
  bytes_on_disk, IsCounted, bytes-insert, bytes-delete,
}

-- Both stat the listing, both rename, both count: the interleaving with the two stats first.
unfoldable pub interleaved : CachePath → CachePath → CachePath → File → File → Cache → Cache
interleaved tmp_1 tmp_2 path f_1 f_2 c =
    let old_1 = old_size path c in
    let old_2 = old_size path c in
    let renamed = rename_file tmp_2 path (rename_file tmp_1 path c) in
    count (length f_2.content) old_2 (count (length f_1.content) old_1 renamed)

rename_file-bytes :
    (tmp path : CachePath) (f : File) (c : Cache)
    → Distinct c.files
    → is_temp_file tmp ≡ true
    → is_temp_file path ≡ false
    → lookup tmp c.files ≡ some f
    → (bytes_on_disk (rename_file tmp path c).files + old_size path c
        ≡ bytes_on_disk c.files + length f.content)
      × ((rename_file tmp path c).size ≡ c.size)
      × (old_size path (rename_file tmp path c) ≡ length f.content)
unfolding rename_file old_size
rename_file-bytes tmp path f c d t p h =
    let left = delete tmp c.files in
    rw (h, rename_file)
      (
        ground (
          arith,
          h,
          bytes-delete tmp c.files d,
          bytes-insert path f left,
          lookup-delete tmp path c.files,
          same_path_iff tmp path,
          Option-cases (lookup path c.files),
        ),
        refl,
        ground (arith, lookup-insert path path f left, same_path_iff path path),
      )

rename_file-Distinct :
    (tmp path : CachePath) (c : Cache) → Distinct c.files → Distinct (rename_file tmp path c).files
unfolding rename_file
rename_file-Distinct tmp path c d = elim (Option-cases (lookup tmp c.files)) [
  | inl e ↦ rw (e, rename_file) d
  | inr (f, e) ↦ rw (e, rename_file) (insert-Distinct path f _ (delete-Distinct tmp c.files d))
]

rename_file-other :
    (tmp path q : CachePath) (c : Cache)
    → q ≢ tmp
    → q ≢ path
    → lookup q (rename_file tmp path c).files ≡ lookup q c.files
unfolding rename_file
rename_file-other tmp path q c n m = elim (Option-cases (lookup tmp c.files)) [
  | inl e ↦ rw (e, rename_file) refl
  | inr (f, e) ↦
      rw (e, rename_file)
        (ground (
          arith,
          lookup-insert path q f (delete tmp c.files),
          lookup-delete tmp q c.files,
          same_path_iff path q,
          same_path_iff tmp q,
        ))
]

old_size_absent : (path : CachePath) (c : Cache) → lookup path c.files ≡ none → old_size path c ≡ 0
unfolding old_size
old_size_absent path c h = rw (h, old_size) refl

-- Two PutListing of one listing that was not on disk, whose stats both come before the renames,
-- leave the cache's size above the bytes on disk by the whole of the first listing written.
pub put_listing_race :
    (tmp_1 tmp_2 path : CachePath) (f_1 f_2 : File) (c : Cache)
    → IsCounted c
    → is_temp_file tmp_1 ≡ true
    → is_temp_file tmp_2 ≡ true
    → is_temp_file path ≡ false
    → tmp_2 ≢ tmp_1
    → lookup tmp_1 c.files ≡ some f_1
    → lookup tmp_2 c.files ≡ some f_2
    → lookup path c.files ≡ none
    → (interleaved tmp_1 tmp_2 path f_1 f_2 c).size
      ≡ bytes_on_disk (interleaved tmp_1 tmp_2 path f_1 f_2 c).files + length f_1.content
unfolding interleaved count
put_listing_race tmp_1 tmp_2 path f_1 f_2 c v t_1 t_2 p n h_1 h_2 fresh =
    let first = rename_file tmp_1 path c in
    let other : tmp_2 ≢ path = λ same. absurd (ground (arith, ap is_temp_file same)) in
    let h : lookup tmp_2 first.files ≡ some f_2 =
      rename_file-other tmp_1 path tmp_2 c n other ∙ h_2 in
    let (bytes_1, size_1, left_1) = rename_file-bytes tmp_1 path f_1 c v.distinct t_1 p h_1 in
    let (bytes_2, size_2, left_2) =
      rename_file-bytes tmp_2 path f_2 first (rename_file-Distinct tmp_1 path c v.distinct) t_2 p
        h in
    ground
      (arith, old_size_absent path c fresh, size_1, size_2, v.counted, bytes_1, bytes_2, left_1)
