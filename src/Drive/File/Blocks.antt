-- ===== src/Drive/File/Blocks.antt =====
-- internal/drive/file.go: what getBlock returns, wherever it comes from.
use proton_drive_linux_fs.Base.{
  ℕ, ◌≡◌, refl, ap, String, Bool, true, false, Option, none, some, List, [], ◌∷◌, arith, length,
  lookup, insert, All, lookup-insert, nat_same_iff, nat_key, Option-cases, Bool-cases, inl, inr,
  ◌∙◌, ◌==◌, subst,
}
use proton_drive_linux_fs.Drive.Errors.{
  Result, ok, err, no_download_slot, block_not_found, storage_token_rejected,
}
use proton_drive_linux_fs.Drive.Read.{Bytes, pos}
use proton_drive_linux_fs.Drive.Read.Prefix.{chunk, Returns, Honest, read_at-Sound}
use proton_drive_linux_fs.Drive.File.Cache.{lookup-cache_put, blocks-cache_put}
use proton_drive_linux_fs.Drive.File.{
  Block, Remote, State, cache_put, by_index, revision_blocks, refresh_block, ensure_transfer,
  registered, download_block, with_refresh, second_try, refreshed, keep_index, use_disk,
  granted_slot, decrypted, downloaded, from_network, from_disk, fetch_and_cache_block, get_block,
  file_read_at, set_failed, store_disk, count_bytes,
}

-- What a read relies on: every entry of a revision's block list serves the block of its index, a
-- download of it decrypts to that block, and the disk cache gives back what was put. `Clean` is what
-- these hold of the state outside, which every call keeps.
pub record Trusted {W : Type 0} (remote : Remote W) (content : Bytes) : Type 1 where
  pub Clean : W → Type 0
  pub Serves : Block → ℕ → Type 0
  pub listed :
      (link rev : String) (w : W)
      → Clean w
      → Clean (remote.revision_all_blocks link rev w).1
        × ((bs : List Block)
            → (remote.revision_all_blocks link rev w).0 ≡ ok bs
            → All (λ b. Serves b b.index) bs)
  pub fetched :
      (b : Block) (idx : ℕ) (w : W)
      → Clean w
      → Serves b idx
      → Clean (remote.fetch_block b w).1
        × ((c p : Bytes)
            → (remote.fetch_block b w).0.0 ≡ ok c
            → remote.decrypt c ≡ ok p
            → p ≡ chunk content idx)
  pub disk_hit :
      (link rev : String) (idx : ℕ) (w : W)
      → Clean w
      → Clean (remote.disk_get link rev idx w).1
        × ((block : Bytes)
            → (remote.disk_get link rev idx w).0 ≡ some block
            → block ≡ chunk content idx)
  pub disk_stored :
      (link rev : String) (idx : ℕ) (w : W)
      → Clean w
      → Clean (remote.disk_put link rev idx (chunk content idx) w)

module _ {W : Type 0} (remote : Remote W) (content : Bytes) (trusted : Trusted remote content) where
  open trusted use {Clean, Serves, listed, fetched, disk_hit, disk_stored}

  abbrev Serving : List (ℕ × Block) → Type 0
  Serving blocks = (idx : ℕ) (b : Block) → lookup idx blocks ≡ some b → Serves b idx

  -- Every block in memory is the file's, every entry of the block list serves its block, and the
  -- state outside is as the assumptions need it.
  pub record IsCoherent (s : State W) : Type 0 where
    pub cached :
        (idx : ℕ) (block : Bytes) → lookup idx s.file.cache ≡ some block → block ≡ chunk content idx
    pub serving : Serving s.file.blocks
    pub clean : Clean s.world

  insert-Serving :
      (b : Block) (m : List (ℕ × Block))
      → Serves b b.index
      → Serving m
      → Serving (insert b.index b m)
  insert-Serving b m now v idx c h = elim (Bool-cases (b.index == idx)) [
    | inl hit ↦
        let at : b.index ≡ idx = (nat_same_iff b.index idx).0 hit in
        let it : b ≡ c = ground (arith, lookup-insert b.index idx b m) in
        subst (λ i. Serves c i) at (subst (λ x. Serves x b.index) it now)
    | inr miss ↦ v idx c (ground (arith, lookup-insert b.index idx b m))
  ]

  by_index-Serving :
      (bs : List Block) (m : List (ℕ × Block))
      → All (λ b. Serves b b.index) bs
      → Serving m
      → Serving (by_index bs m)
  unfolding by_index
  by_index-Serving [] m a v = v
  by_index-Serving (b ∷ bs) m a v =
      by_index-Serving bs (insert b.index b m) a.1 (insert-Serving b m a.0 v)

  -- A block, if one comes back, is the file's; a ciphertext decrypts to it, if to anything.
  abbrev Right : ℕ → Result Bytes × State W → Type 0
  Right idx (r, s) = IsCoherent s × ((block : Bytes) → r ≡ ok block → block ≡ chunk content idx)

  abbrev Sealed : ℕ → Result Bytes × State W → Type 0
  Sealed idx (r, s) =
      IsCoherent s × ((c p : Bytes) → r ≡ ok c → remote.decrypt c ≡ ok p → p ≡ chunk content idx)

  abbrev Found : ℕ → Result Block × State W → Type 0
  Found idx (r, s) = IsCoherent s × ((b : Block) → r ≡ ok b → Serves b idx)

  lookup-nil : (i : ℕ) (b : Block) → lookup {V = Block} i [] ≡ some b → ⊥
  unfolding lookup
  lookup-nil i b h = cc

  -- Changes that leave the cache, the block list and the state outside alone.
  same-IsCoherent :
      (s t : State W)
      → t.file.cache ≡ s.file.cache
      → t.file.blocks ≡ s.file.blocks
      → Clean t.world
      → IsCoherent s
      → IsCoherent t
  same-IsCoherent s t c b w v = record {
    cached = λ idx block h. v.cached idx block (rw (← c) h);
    serving = λ idx blk h. v.serving idx blk (rw (← b) h);
    clean = w;
  }

  cache_put-IsCoherent :
      (idx : ℕ) (block : Bytes) (s t : State W)
      → t.file ≡ cache_put idx block s.file
      → block ≡ chunk content idx
      → Clean t.world
      → IsCoherent s
      → IsCoherent t
  cache_put-IsCoherent idx block s t e right w v = record {
    cached = λ k found h.
        elim (lookup-cache_put idx block s.file k found
          (subst (λ f. lookup k f.cache ≡ some found) e h)) [
            | inl old ↦ v.cached k found old
            | inr (at, it, new) ↦ rw (it, at) right
          ];
    serving = λ k b h. v.serving k b (
        subst (λ m. lookup k m ≡ some b) (ap (λ f. f.blocks) e ∙ blocks-cache_put idx block s.file)
          h);
    clean = w;
  }

  registered-IsCoherent :
      (o : Option ℕ) (s : State W) → IsCoherent s → IsCoherent (registered remote o s).1
  unfolding registered
  registered-IsCoherent (some id) s v = v
  registered-IsCoherent none s v = same-IsCoherent s _ refl refl v.clean v

  ensure_transfer-IsCoherent :
      (s : State W) → IsCoherent s → IsCoherent (ensure_transfer remote s).1
  unfolding ensure_transfer
  ensure_transfer-IsCoherent s v = elim (Bool-cases s.file.closed) [
    | inl shut ↦ simp shut v
    | inr open_still ↦ simp open_still (registered-IsCoherent s.file.transfer s v)
  ]

  granted_slot-IsCoherent :
      (got : (Result Bytes × Bool) × W) (s : State W)
      → Clean got.1
      → IsCoherent s
      → IsCoherent (granted_slot remote got s).1 × ((granted_slot remote got s).0 ≡ got.0.0)
  unfolding granted_slot
  granted_slot-IsCoherent ((r, false), w) s c v = (same-IsCoherent s _ refl refl c v, refl)
  granted_slot-IsCoherent ((r, true), w) s c v =
      (ensure_transfer-IsCoherent _ (same-IsCoherent s _ refl refl c v), refl)

  download_block-Sealed :
      (b : Block) (idx : ℕ) (s : State W)
      → Serves b idx
      → IsCoherent s
      → Sealed idx (download_block remote b s)
  unfolding download_block
  download_block-Sealed b idx s serves v =
      let got = fetched b idx s.world v.clean serves in
      let kept = granted_slot-IsCoherent (remote.fetch_block b s.world) s got.0 v in
      (kept.0, λ c p h. got.1 c p (rw (← kept.1) h))

  refreshed-Found :
      (idx : ℕ) (s : State W) (got : Result (List Block) × W)
      → Clean got.1
      → ((bs : List Block) → got.0 ≡ ok bs → All (λ b. Serves b b.index) bs)
      → IsCoherent s
      → Found idx (refreshed remote idx s (keep_index remote got))
  unfolding refreshed keep_index
  refreshed-Found idx s (err e, w) c all v = (same-IsCoherent s _ refl refl c v, λ b h. cc)
  refreshed-Found idx s (ok bs, w) c all v =
      let serving : Serving (by_index bs []) = by_index-Serving bs [] (all bs refl) nothing in
      (record { cached = v.cached; serving = serving; clean = c }, λ b h. serving idx b (found b h))
    where
      nothing : Serving []
      nothing = λ i b h. absurd (lookup-nil i b h)

      found :
          (b : Block)
          → (elim (lookup idx (by_index bs [])) [ none ↦ err block_not_found | some x ↦ ok x ])
            ≡ ok b
          → lookup idx (by_index bs []) ≡ some b
      found b h = ground arith

  refresh_block-Found :
      (idx : ℕ) (s : State W) → IsCoherent s → Found idx (refresh_block remote idx s)
  unfolding refresh_block revision_blocks
  refresh_block-Found idx s v =
      let got = listed s.file.link_id s.file.rev_id s.world v.clean in
      refreshed-Found idx s (remote.revision_all_blocks s.file.link_id s.file.rev_id s.world) got.0
        got.1 v

  second_try-Sealed :
      (idx : ℕ) (got : Result Block × State W) → Found idx got → Sealed idx (second_try remote got)
  unfolding second_try
  second_try-Sealed idx (err e, s) v = (v.0, λ c p h. cc)
  second_try-Sealed idx (ok b, s) v = download_block-Sealed b idx s (v.1 b refl) v.0

  with_refresh-Sealed :
      (idx : ℕ) (got : Result Bytes × State W)
      → Sealed idx got
      → Sealed idx (with_refresh remote idx got)
  unfolding with_refresh
  with_refresh-Sealed idx (ok c, s) v = v
  with_refresh-Sealed idx (err e, s) v = elim (Bool-cases (storage_token_rejected e)) [
    | inl stale ↦ rw stale (second_try-Sealed idx _ (refresh_block-Found idx s v.0))
    | inr gone ↦ rw gone (v.0, λ c p h. cc)
  ]

  store_disk-IsCoherent :
      (on : Bool) (idx : ℕ) (s : State W) (block : Bytes)
      → block ≡ chunk content idx
      → IsCoherent s
      → IsCoherent (store_disk remote on idx block s)
        × ((store_disk remote on idx block s).file ≡ s.file)
  unfolding store_disk
  store_disk-IsCoherent false idx s block e v = (v, refl)
  store_disk-IsCoherent true idx s block e v = (
    same-IsCoherent s _ refl refl
        (rw e (disk_stored s.file.link_id s.file.rev_id idx s.world v.clean)) v,
    refl,
  )

  count_bytes-IsCoherent :
      (t : Option ℕ) (n : ℕ) (s : State W) → IsCoherent s → IsCoherent (count_bytes remote t n s)
  unfolding count_bytes
  count_bytes-IsCoherent none n s v = v
  count_bytes-IsCoherent (some id) n s v = same-IsCoherent s _ refl refl v.clean v

  decrypted-Right :
      (idx : ℕ) (r : Result Bytes) (got : Option ℕ × State W)
      → ((p : Bytes) → r ≡ ok p → p ≡ chunk content idx)
      → IsCoherent got.1
      → Right idx (decrypted remote idx r got)
  unfolding decrypted set_failed
  decrypted-Right idx (err e) (t, s) right v = (same-IsCoherent s _ refl refl v.clean v, λ b h. cc)
  decrypted-Right idx (ok block) (t, s) right v =
      let this = right block refl in
      let counted = count_bytes-IsCoherent t (length block) s v in
      let kept =
        store_disk-IsCoherent _ idx (count_bytes remote t (length block) s) block this counted in
      (cache_put-IsCoherent idx block _ _ refl this kept.0.clean kept.0, λ b h. ok_inj h ∙ this)
    where
      ok_inj : {a b : Bytes} → ok a ≡ ok b → b ≡ a
      ok_inj h = cc

  downloaded-Right :
      (idx : ℕ) (got : Result Bytes × State W)
      → Sealed idx got
      → Right idx (downloaded remote idx got)
  unfolding downloaded set_failed
  downloaded-Right idx (err no_download_slot, s) v = (v.0, λ b h. cc)
  downloaded-Right idx (ok c, s) v =
      decrypted-Right idx (remote.decrypt c) (ensure_transfer remote s) (λ p h. v.1 c p refl h)
        (ensure_transfer-IsCoherent s v.0)
  downloaded-Right idx (err e, s) v = (same-IsCoherent s _ refl refl v.0.clean v.0, λ b h. cc)

  from_network-Right :
      (idx : ℕ) (o : Option Block) (s : State W)
      → lookup idx s.file.blocks ≡ o
      → IsCoherent s
      → Right idx (from_network remote idx o s)
  unfolding from_network
  from_network-Right idx none s e v = (v, λ b h. cc)
  from_network-Right idx (some blk) s e v =
      downloaded-Right idx _
        (with_refresh-Sealed idx _ (download_block-Sealed blk idx s (v.serving idx blk e) v))

  from_disk-Right :
      (idx : ℕ) (got : Option Bytes × W) (s : State W)
      → Clean got.1
      → ((block : Bytes) → got.0 ≡ some block → block ≡ chunk content idx)
      → IsCoherent s
      → Right idx (from_disk remote idx got s)
  unfolding from_disk
  from_disk-Right idx (some block, w) s c right v = (
    cache_put-IsCoherent idx block s _ refl (right block refl) c v,
    λ b h. right b (ground arith),
  )
  from_disk-Right idx (none, w) s c right v =
      from_network-Right idx _ _ refl (same-IsCoherent s _ refl refl c v)

  pub fetch_and_cache_block-Right :
      (s : State W) (idx : ℕ) → IsCoherent s → Right idx (fetch_and_cache_block remote s idx)
  unfolding fetch_and_cache_block
  fetch_and_cache_block-Right s idx v = elim (Bool-cases (use_disk remote s)) [
    | inl on ↦
        let got = disk_hit s.file.link_id s.file.rev_id idx s.world v.clean in
        simp on (from_disk-Right idx _ s got.0 got.1 v)
    | inr off ↦ simp off (from_network-Right idx _ s refl v)
  ]

  -- Whatever the network and the disk cache answer, getBlock keeps the file coherent, and a block
  -- that it returns is the file's.
  pub get_block-Right : (s : State W) (idx : ℕ) → IsCoherent s → Right idx (get_block remote s idx)
  unfolding get_block
  get_block-Right s idx v = elim (Option-cases (lookup idx s.file.cache)) [
    | inl miss ↦ rw (miss, get_block) (fetch_and_cache_block-Right s idx v)
    | inr (block, hit) ↦ rw (hit, get_block) (v, λ b h. v.cached idx b (hit ∙ ap some (ok_inj h)))
  ]
    where
      ok_inj : {a b : Bytes} → ok a ≡ ok b → a ≡ b
      ok_inj h = cc

  -- For a File whose caches hold only blocks of the content, over a remote that serves for each
  -- block the bytes of the content at its place, ReadAt at any offset returns: some bytes of the
  -- content from that offset on, no more than asked for, and no error only when it returns all that
  -- was asked for; and the File's caches still hold only blocks of the content.
  pub file_read_at-Honest :
      (len off : ℕ) (s : State W)
      → IsCoherent s
      → Returns
          (λ r t. Honest content len off r × IsCoherent t)
          (file_read_at remote len (pos off) s)
  unfolding file_read_at
  file_read_at-Honest len off s v =
      read_at-Sound IsCoherent (get_block remote) content s.file.size
        (λ t idx w. get_block-Right t idx w) len off s v
