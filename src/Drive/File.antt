-- ===== src/Drive/File.antt =====
-- internal/drive/file.go: an open file, its in-memory block cache, and how a block is got: from
-- memory, from the disk cache, or over the network, with a refresh of the storage tokens.
pub mod Cache
pub mod Blocks
pub mod Opened
pub mod Flight
use proton_drive_linux_fs.Base.{
  ℕ, suc, String, Bool, true, false, ◌&&◌, ◌||◌, Option, none, some, List, [], ◌∷◌, ◌++◌, ◌==◌, leb,
  if◌then◌else◌, length, lookup, insert, delete, nat_key,
}
use proton_drive_linux_fs.Drive.Errors.{
  Err, Result, ok, err, no_download_slot, block_not_found, download_failed, storage_token_rejected,
}
use proton_drive_linux_fs.Drive.Activity.{Activity, Transfer, begin, end_transfer, add}
use proton_drive_linux_fs.Drive.Read.{Bytes, Offset, Reply, read_at}

-- proton.Block, of the go-proton-api library.
pub record Block : Type 0 where
  pub index : ℕ
  pub bare_url : String
  pub token : String

abbrev pub max_cached_blocks : ℕ
max_cached_blocks = 4

-- The maps are association lists. `transfer` is the id of the registered transfer.
pub record File : Type 0 where
  pub blocks : List (ℕ × Block)
  pub size : ℕ
  pub link_id : String
  pub rev_id : String
  pub path : String
  pub cache : List (ℕ × Bytes)
  pub cache_lru : List ℕ
  pub transfer : Option ℕ
  pub closed : Bool
  pub failed : Bool

-- What a File uses of the rest: the clock, the Proton API, the download of one block with its slot
-- (the Boolean says whether a slot was granted, when the slot's callback ran), the decryption with
-- the session key, and the disk cache, over a state `W` of all these.
pub record Remote (W : Type 0) : Type 0 where
  pub now : W → ℕ
  pub revision_all_blocks : String → String → W → Result (List Block) × W
  pub fetch_block : Block → W → (Result Bytes × Bool) × W
  pub decrypt : Bytes → Result Bytes
  pub has_disk : Bool
  pub large_file : ℕ
  pub disk_get : String → String → ℕ → W → Option Bytes × W
  pub disk_put : String → String → ℕ → Bytes → W → W

pub record State (W : Type 0) : Type 0 where
  pub file : File
  pub activity : Activity
  pub world : W

evict_oldest : List ℕ → File → File
evict_oldest [] f = f
evict_oldest (oldest ∷ rest) f = record f { cache_lru = rest; cache = delete oldest f.cache }

make_room : File → File
unfolding evict_oldest
make_room f = if leb max_cached_blocks (length f.cache_lru) then evict_oldest f.cache_lru f else f

put_new : ℕ → Bytes → File → File
put_new idx block f = record f {
  cache = insert idx block f.cache;
  cache_lru = f.cache_lru ++ idx ∷ [];
}

unfoldable pub cache_put : ℕ → Bytes → File → File
unfolding make_room put_new
cache_put idx block f = elim (lookup idx f.cache) [
  | some _ ↦ f
  | none ↦ put_new idx block (make_room f)
]

-- Sizes are not negative, and no threshold is 0.
unfoldable pub cache_on_disk : ℕ → ℕ → Bool
cache_on_disk size large_file = large_file == 0 || leb size large_file

-- The map that revisionBlocks builds.
unfoldable pub by_index : List Block → List (ℕ × Block) → List (ℕ × Block)
by_index [] m = m
by_index (b ∷ bs) m = by_index bs (insert b.index b m)

module _ {W : Type 0} (remote : Remote W) where
  open remote use {now, revision_all_blocks, fetch_block, decrypt, disk_get, disk_put}

  keep_index : Result (List Block) × W → Result (List (ℕ × Block)) × W
  keep_index (ok bs, w) = (ok (by_index bs []), w)
  keep_index (err e, w) = (err e, w)

  unfoldable pub revision_blocks : String → String → W → Result (List (ℕ × Block)) × W
  unfolding keep_index
  revision_blocks link rev w = keep_index (revision_all_blocks link rev w)

  refreshed : ℕ → State W → Result (List (ℕ × Block)) × W → Result Block × State W
  refreshed idx s (err e, w) = (err e, record s { world = w })
  refreshed idx s (ok blocks, w) =
      let t = record s { file = record s.file { blocks = blocks }; world = w } in
      (elim (lookup idx blocks) [ none ↦ err block_not_found | some b ↦ ok b ], t)

  unfoldable pub refresh_block : ℕ → State W → Result Block × State W
  unfolding refreshed
  refresh_block idx s = refreshed idx s (revision_blocks s.file.link_id s.file.rev_id s.world)

  registered : Option ℕ → State W → Option ℕ × State W
  registered (some id) s = (some id, s)
  registered none s =
      let (t, activity) = begin s.file.path "download" s.file.size (now s.world) s.activity in
      (some t.id, record s { file = record s.file { transfer = some t.id }; activity = activity })

  -- The id of the transfer to count into; none after Close, when nobody sees the counts.
  unfoldable pub ensure_transfer : State W → Option ℕ × State W
  unfolding registered
  ensure_transfer s = if s.file.closed then (none, s) else registered s.file.transfer s

  granted_slot : (Result Bytes × Bool) × W → State W → Result Bytes × State W
  granted_slot ((r, false), w) s = (r, record s { world = w })
  granted_slot ((r, true), w) s = (r, (ensure_transfer (record s { world = w })).1)

  unfoldable pub download_block : Block → State W → Result Bytes × State W
  unfolding granted_slot
  download_block blk s = granted_slot (fetch_block blk s.world) s

  second_try : Result Block × State W → Result Bytes × State W
  second_try (err e, s) = (err e, s)
  second_try (ok blk, s) = download_block blk s

  with_refresh : ℕ → Result Bytes × State W → Result Bytes × State W
  unfolding second_try
  with_refresh idx (ok c, s) = (ok c, s)
  with_refresh idx (err e, s) =
      if storage_token_rejected e then second_try (refresh_block idx s) else (err e, s)

  count_bytes : Option ℕ → ℕ → State W → State W
  count_bytes none n s = s
  count_bytes (some id) n s = record s { activity = add id n s.activity }

  set_failed : State W → State W
  set_failed s = record s { file = record s.file { failed = true } }

  store_disk : Bool → ℕ → Bytes → State W → State W
  store_disk false idx block s = s
  store_disk true idx block s = record s {
    world = disk_put s.file.link_id s.file.rev_id idx block s.world;
  }

  abbrev use_disk : State W → Bool
  use_disk s = remote.has_disk && cache_on_disk s.file.size remote.large_file

  decrypted : ℕ → Result Bytes → Option ℕ × State W → Result Bytes × State W
  unfolding count_bytes set_failed store_disk
  decrypted idx (err e) (t, s) = (err e, set_failed s)
  decrypted idx (ok block) (t, s) =
      let kept = store_disk (use_disk s) idx block (count_bytes t (length block) s) in
      (ok block, record kept { file = cache_put idx block kept.file })

  -- After the download: giving up in the queue for a slot is no failed download.
  downloaded : ℕ → Result Bytes × State W → Result Bytes × State W
  unfolding decrypted set_failed
  downloaded idx (err no_download_slot, s) = (err no_download_slot, s)
  downloaded idx (err e, s) = (err e, set_failed s)
  downloaded idx (ok c, s) = decrypted idx (decrypt c) (ensure_transfer s)

  from_network : ℕ → Option Block → State W → Result Bytes × State W
  unfolding with_refresh downloaded
  from_network idx none s = (err block_not_found, s)
  from_network idx (some blk) s = downloaded idx (with_refresh idx (download_block blk s))

  from_disk : ℕ → Option Bytes × W → State W → Result Bytes × State W
  unfolding from_network
  from_disk idx (some block, w) s =
      (ok block, record s { file = cache_put idx block s.file; world = w })
  from_disk idx (none, w) s = from_network idx (lookup idx s.file.blocks) (record s { world = w })

  unfoldable pub fetch_and_cache_block : State W → ℕ → Result Bytes × State W
  unfolding from_disk
  fetch_and_cache_block s idx =
      if use_disk s
      then from_disk idx (disk_get s.file.link_id s.file.rev_id idx s.world) s
      else from_network idx (lookup idx s.file.blocks) s

  -- getBlock for a caller who is alone, and so wins the claim; Flight has several.
  unfoldable pub get_block : State W → ℕ → Result Bytes × State W
  get_block s idx = elim (lookup idx s.file.cache) [
    | some block ↦ (ok block, s)
    | none ↦ fetch_and_cache_block s idx
  ]

  unfoldable pub file_read_at : ℕ → Offset → State W → Option (Reply × State W)
  file_read_at len off s = read_at get_block s.file.size len off s

  ended : Option ℕ → State W → Option Err × State W
  ended none s = (none, s)
  ended (some id) s = (
    (if s.file.failed then some download_failed else none),
    record s { activity = end_transfer id s.activity },
  )

  unfoldable pub close : State W → Option Err × State W
  unfolding ended
  close s =
      ended s.file.transfer (record s { file = record s.file { transfer = none; closed = true } })

  moved : Option Transfer → ℕ
  moved none = 0
  moved (some t) = t.bytes

  unfoldable pub bytes_transferred : State W → ℕ
  unfolding moved
  bytes_transferred s = elim s.file.transfer [
    | none ↦ 0
    | some id ↦ moved (lookup id s.activity.current)
  ]
