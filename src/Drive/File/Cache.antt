-- ===== src/Drive/File/Cache.antt =====
-- internal/drive/file.go: the in-memory block cache and its queue.
use proton_drive_linux_fs.Base.{
  ℕ, ◌≤◌, ◌<◌, ◌≡◌, refl, ap, none, some, List, [], ◌∷◌, ◌++◌, ◌∙◌, arith, length, lookup, delete,
  keys, keys-insert_absent, delete_first, length-keys, Bool-cases, leb-true, leb-false, ◌⊎◌,
  Distinct, insert-Distinct, lookup-insert, lookup-delete, nat_same_iff, nat_key, length-append,
  Option-cases, inl, inr, leb,
}
use proton_drive_linux_fs.Drive.Read.{Bytes}
use proton_drive_linux_fs.Drive.File.{
  File, max_cached_blocks, evict_oldest, make_room, put_new, cache_put,
}

-- The queue lists the cached blocks, oldest first, each once, and at most four.
pub record IsBounded (f : File) : Type 0 where
  pub queued : keys f.cache ≡ f.cache_lru
  pub distinct : Distinct f.cache
  pub bounded : length f.cache_lru ≤ max_cached_blocks

evict_oldest-IsBounded :
    (lru : List ℕ) (cache : List (ℕ × Bytes)) (f : File)
    → keys cache ≡ lru
    → Distinct cache
    → f.cache ≡ cache
    → 0 < length lru
    → length lru ≤ max_cached_blocks
    → IsBounded (evict_oldest lru f) × (length (evict_oldest lru f).cache_lru < max_cached_blocks)
unfolding evict_oldest
evict_oldest-IsBounded [] cache f q d e h b = absurd (omega arith)
evict_oldest-IsBounded (o ∷ rest) [] f q d e h b = absurd (cc)
evict_oldest-IsBounded (o ∷ rest) ((k, v) ∷ m) f q d e h b = (
  record { queued = rw left (ground arith); distinct = rw left d.1; bounded = omega arith },
  omega arith,
)
  where
    left : delete o f.cache ≡ m
    left = rw (e, oldest) (delete_first k v m d)
      where
        oldest : o ≡ k
        oldest = ground arith

make_room-IsBounded :
    (f : File)
    → IsBounded f
    → IsBounded (make_room f) × (length (make_room f).cache_lru < max_cached_blocks)
unfolding make_room
make_room-IsBounded f v = elim (Bool-cases (leb max_cached_blocks (length f.cache_lru))) [
  | inl full ↦ rw full (
      evict_oldest-IsBounded f.cache_lru f.cache f v.queued v.distinct refl
        (omega (arith, leb-true 4 (length f.cache_lru) full)) v.bounded)
  | inr room ↦ rw room (v, leb-false 4 (length f.cache_lru) room)
]

-- What a block is cached as does not come from making room for another.
evict_oldest-lookup :
    (lru : List ℕ) (f : File) (k : ℕ)
    → (lookup k (evict_oldest lru f).cache ≡ none)
      ⊎ (lookup k (evict_oldest lru f).cache ≡ lookup k f.cache)
unfolding evict_oldest
evict_oldest-lookup [] f k = inr refl
evict_oldest-lookup (o ∷ rest) f k = ground (arith, lookup-delete o k f.cache)

blocks-evict_oldest : (lru : List ℕ) (f : File) → (evict_oldest lru f).blocks ≡ f.blocks
unfolding evict_oldest
blocks-evict_oldest [] f = refl
blocks-evict_oldest (o ∷ rest) f = refl

make_room-lookup :
    (f : File) (k : ℕ)
    → (lookup k (make_room f).cache ≡ none) ⊎ (lookup k (make_room f).cache ≡ lookup k f.cache)
unfolding make_room
make_room-lookup f k = ground (arith, evict_oldest-lookup f.cache_lru f k)

pub blocks-cache_put :
    (idx : ℕ) (block : Bytes) (f : File) → (cache_put idx block f).blocks ≡ f.blocks
unfolding cache_put put_new make_room
blocks-cache_put idx block f = ground (arith, blocks-evict_oldest f.cache_lru f)

-- The block put is found afterwards, unless one stood there under its index already, and what is
-- found under any other index was there before.
pub lookup-cache_put :
    (idx : ℕ) (block : Bytes) (f : File) (k : ℕ) (found : Bytes)
    → lookup k (cache_put idx block f).cache ≡ some found
    → (lookup k f.cache ≡ some found) ⊎ ((k ≡ idx) × (found ≡ block) × (lookup idx f.cache ≡ none))
unfolding cache_put put_new
lookup-cache_put idx block f k found h =
    ground (
      arith,
      make_room-lookup f k,
      lookup-insert idx k block (make_room f).cache,
      nat_same_iff idx k,
    )

put_new-IsBounded :
    (idx : ℕ) (block : Bytes) (f : File)
    → IsBounded f
    → length f.cache_lru < max_cached_blocks
    → lookup idx f.cache ≡ none
    → IsBounded (put_new idx block f)
unfolding put_new
put_new-IsBounded idx block f v room absent = record {
  queued = keys-insert_absent idx block f.cache absent ∙ ap (λ q. q ++ idx ∷ []) v.queued;
  distinct = insert-Distinct idx block f.cache v.distinct;
  bounded = omega (arith, length-append f.cache_lru (idx ∷ []));
}

length-cache : (f : File) → IsBounded f → length f.cache ≤ max_cached_blocks
length-cache f v = omega (arith, length-keys f.cache, ap length v.queued, v.bounded)

-- cachePut on a File whose queue names its cached blocks in order keeps that so, with at most four
-- blocks, and afterwards there is under the index the block put, or the one that was there before.
pub cache_put-IsBounded :
    (idx : ℕ) (block : Bytes) (f : File)
    → IsBounded f
    → IsBounded (cache_put idx block f)
      × (length (cache_put idx block f).cache ≤ max_cached_blocks)
      × (lookup idx (cache_put idx block f).cache
          ≡ (elim (lookup idx f.cache) [ none ↦ some block | some old ↦ some old ]))
unfolding cache_put put_new
cache_put-IsBounded idx block f v = elim (Option-cases (lookup idx f.cache)) [
  | inl absent ↦
      let (w, room) = make_room-IsBounded f v in
      let empty : lookup idx (make_room f).cache ≡ none = ground (arith, make_room-lookup f idx) in
      let kept = put_new-IsBounded idx block (make_room f) w room empty in
      rw (absent, cache_put) (kept, length-cache _ kept, found)
  | inr (old, present) ↦ rw (present, cache_put) (v, length-cache f v, present)
]
  where
    found : lookup idx (put_new idx block (make_room f)).cache ≡ some block
    found = ground (arith, lookup-insert idx idx block (make_room f).cache, nat_same_iff idx idx)
