-- ===== src/Drive/Nodes/Names/Stored.antt =====
-- internal/drive/drive.go and cache.go: CachedChildren and CacheListing over the block cache.
use proton_drive_linux_fs.Base.{
  ℕ, ◌+◌, ◌≤◌, ◌≡◌, refl, ◌∙◌, ap, Bool, true, Option, none, some, List, All, String, map, length,
}
use proton_drive_linux_fs.Drive.Errors.{Result, ok}
use proton_drive_linux_fs.Drive.Read.{Bytes}
use proton_drive_linux_fs.Drive.BlockCache.{Answers, Access, Cache, listing, get, put_listing}
use proton_drive_linux_fs.Drive.BlockCache.Kept.{working, get-put_listing}
use proton_drive_linux_fs.Drive.Nodes.{Link, Node, Library, Listings, ListingEntry, Store, keyring}
use proton_drive_linux_fs.Drive.Nodes.Names.{entries_of, cached_children, cache_listing}
use proton_drive_linux_fs.Drive.Nodes.Names.Cached.{
  listed, ReadsBack, cached_children-cache_listing,
}

-- `encode` and `decode` are those of encoding/json, for a list of entries.
module _ (encode : List ListingEntry → Option Bytes)
    (decode : Bytes → Option (List ListingEntry)) where
  -- A listing that JSON does not read is a miss, and its time is not bumped.
  decoded : Cache → Option Bytes × Cache → Option (List ListingEntry) × Cache
  decoded before (none, after) = (none, after)
  decoded before (some raw, after) = elim (decode raw) [
    | none ↦ (none, before)
    | some entries ↦ (some entries, after)
  ]

  encoded : Answers → Access → ℕ → ℕ → String → Option Bytes → Cache → Cache
  encoded a access now n id none c = c
  encoded a access now n id (some raw) c = put_listing a access now n id raw c

  -- BlockCache.GetListing and PutListing as the client calls them: the answers of the file system,
  -- whether Chtimes works, the time, and the number of the temp file.
  unfoldable pub block_listings :
      (String → Cache → Result (List Link) × Cache)
      → Answers
      → Access
      → Bool
      → ℕ
      → ℕ
      → Listings Cache
  unfolding decoded encoded
  block_listings list_children a access touched now n = record {
    list_children = list_children;
    has_cache = true;
    get_listing = λ id c. decoded c (get touched now (listing id) c);
    put_listing = λ id entries c. encoded a access now n id (encode entries) c;
  }

  module _ {K : Type 0} (lib : Library K)
      (list_children : String → Cache → Result (List Link) × Cache) (access : Access)
      (touched : Bool) (now n : ℕ) where
    abbrev pub cached : Listings Cache
    cached = block_listings list_children working access touched now n

    decoded-get :
        (before : Cache) (r : Option Bytes × Cache) (raw : Bytes) (entries : List ListingEntry)
        → r.0 ≡ some raw
        → decode raw ≡ some entries
        → (decoded before r).0 ≡ some entries
    unfolding decoded
    decoded-get before (none, c) raw entries h read = absurd (cc)
    decoded-get before (some data_in, c) raw entries h read =
        ap (λ es. (shown es).0) (ap decode (some_inj h) ∙ read)
      where
        some_inj : {a b : Bytes} → some a ≡ some b → a ≡ b
        some_inj e = cc

        shown : Option (List ListingEntry) → Option (List ListingEntry) × Cache
        shown es = elim es [ none ↦ (none, before) | some entries ↦ (some entries, c) ]

    -- Over the block cache, enabled, with room for the bytes of the listing besides what it holds,
    -- and a file system whose calls all work, where JSON reads back the links of the children and
    -- the list of entries as they were written, and the parent's keyring unlocks: CachedChildren
    -- after CacheListing gives the same links and names in the same order, their keyrings locked
    -- and their attributes those of the links.
    pub cached_children-block_listings :
        (p : ℕ) (parent_kr : K) (children : List (Node K)) (raw : Bytes) (s : Store K Cache)
        → All (λ c. ReadsBack lib c.link) children
        → encode (entries_of lib children) ≡ some raw
        → decode raw ≡ some (entries_of lib children)
        → s.world.enabled ≡ true
        → s.world.size + length raw ≤ s.world.limit
        → (keyring lib p s).0 ≡ ok parent_kr
        → (cached_children lib cached p (cache_listing lib cached p children s)).0
          ≡ some (map (listed parent_kr) children)
    unfolding block_listings encoded
    cached_children-block_listings p parent_kr children raw s json written read on room opens =
        cached_children-cache_listing lib cached p parent_kr children s refl json stored opens
      where
        id : String
        id = (s.nodes p).link.link_id

        put : Option Bytes → Cache
        put e = encoded working access now n id e s.world

        stored :
            (decoded
              (put (encode (entries_of lib children)))
              (get touched now (listing id) (put (encode (entries_of lib children))))).0
            ≡ some (entries_of lib children)
        stored =
            ap (λ e. (decoded (put e) (get touched now (listing id) (put e))).0) written
            ∙ decoded-get _ _ raw (entries_of lib children)
                (get-put_listing access touched now now n id raw s.world on room) read
