-- ===== src/Drive/Nodes/Names/Cached.antt =====
-- internal/drive/drive.go: a listing persisted and read back.
use proton_drive_linux_fs.Base.{
  ◌≡◌, refl, ap, ◌∙◌, true, some, none, Option, List, [], ◌∷◌, All, String, ℕ, map, Option-cases,
  inl, inr,
}
use proton_drive_linux_fs.Drive.Errors.{Result, ok, err}
use proton_drive_linux_fs.Drive.Nodes.{
  Link, Node, Library, Listings, ListingEntry, Store, new_node, keyring, unlocked,
}
use proton_drive_linux_fs.Drive.Nodes.Names.{
  entries_of, nodes_of, with_entry, from_entry, under_keyring, from_cache, cached_children,
  cache_listing,
}

-- A node as a listing gives it: its keyring locked, its attributes those of its link.
pub listed : {K : Type 0} → K → Node K → Node K
listed parent_kr n = new_node n.link n.name parent_kr

-- encoding/json reads back what it wrote of a link.
abbrev pub ReadsBack : {K : Type 0} → Library K → Link → Type 0
ReadsBack lib link =
    (raw : String) × (lib.marshal link ≡ some raw) × (lib.unmarshal raw ≡ some link)

entries_of-nodes_of :
    {K : Type 0} (lib : Library K) (parent_kr : K) (children : List (Node K))
    → All (λ n. ReadsBack lib n.link) children
    → nodes_of lib parent_kr (entries_of lib children) ≡ map (listed parent_kr) children
unfolding nodes_of entries_of with_entry from_entry listed
entries_of-nodes_of lib parent_kr [] json = refl
entries_of-nodes_of lib parent_kr (n ∷ children) (this, others) =
    let (raw, written, read) = this in
    let rest = entries_of-nodes_of lib parent_kr children others in
    rw (written, nodes_of, read) (ap (λ ns. listed parent_kr n ∷ ns) rest)

module _ {K W : Type 0} (lib : Library K) where
  -- Unlocking does not look at the world.
  keyring-world :
      (p : ℕ) (s : Store K W) (w : W)
      → (keyring lib p (record s { world = w })).0 ≡ (keyring lib p s).0
  unfolding keyring unlocked
  keyring-world p s w = elim (Option-cases (s.nodes p).kr) [
    | inr (kr, have) ↦ rw (have, keyring) refl
    | inl locked ↦
        rw (locked, keyring)
          (unlocked-world (lib.get_key_ring (s.nodes p).link (s.nodes p).parent_kr))
  ]
    where
      unlocked-world :
          (r : Result K) → (unlocked p r (record s { world = w })).0 ≡ (unlocked p r s).0
      unlocked-world (ok kr) = refl
      unlocked-world (err e) = refl

module _ {K W : Type 0} (lib : Library K) (listings : Listings W) where
  under_keyring-ok :
      (entries : List ListingEntry) (r : Result K × Store K W) (kr : K)
      → r.0 ≡ ok kr
      → (under_keyring lib listings entries r).0 ≡ some (nodes_of lib kr entries)
  unfolding under_keyring
  under_keyring-ok entries (ok k, s) kr h = ap (λ x. some (nodes_of lib x entries)) (ok_inj h)
    where
      ok_inj : {a b : K} → ok a ≡ ok b → a ≡ b
      ok_inj e = cc
  under_keyring-ok entries (err e, s) kr h = absurd (cc)

  from_cache-ok :
      (p : ℕ) (found : Option (List ListingEntry) × W) (s : Store K W) (entries : List ListingEntry)
      (kr : K)
      → found.0 ≡ some entries
      → (keyring lib p s).0 ≡ ok kr
      → (from_cache lib listings p found s).0 ≡ some (nodes_of lib kr entries)
  unfolding from_cache
  from_cache-ok p (none, w) s entries kr h opens = absurd (cc)
  from_cache-ok p (some es, w) s entries kr h opens =
      under_keyring-ok es _ kr (keyring-world lib p s w ∙ opens)
      ∙ ap (λ x. some (nodes_of lib kr x)) (some_inj h)
    where
      some_inj : {a b : List ListingEntry} → some a ≡ some b → a ≡ b
      some_inj e = cc

  -- Where the cache gives back the listing that was put, the children are read back from it.
  pub cached_children-cache_listing :
      (p : ℕ) (parent_kr : K) (children : List (Node K)) (s : Store K W)
      → listings.has_cache ≡ true
      → All (λ n. ReadsBack lib n.link) children
      → (listings.get_listing
          (s.nodes p).link.link_id
          (listings.put_listing (s.nodes p).link.link_id (entries_of lib children) s.world)).0
        ≡ some (entries_of lib children)
      → (keyring lib p s).0 ≡ ok parent_kr
      → (cached_children lib listings p (cache_listing lib listings p children s)).0
        ≡ some (map (listed parent_kr) children)
  unfolding cached_children cache_listing
  cached_children-cache_listing p parent_kr children s on json stored opens =
      let id = (s.nodes p).link.link_id in
      let entries = entries_of lib children in
      let kept = record s { world = listings.put_listing id entries s.world } in
      rw (on, cached_children, cache_listing)
        (from_cache-ok p (listings.get_listing id kept.world) kept entries parent_kr stored
            (keyring-world lib p s kept.world ∙ opens)
          ∙ ap some (entries_of-nodes_of lib parent_kr children json))
