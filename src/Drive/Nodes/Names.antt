-- ===== src/Drive/Nodes/Names.antt =====
-- internal/drive/drive.go: the children of a folder, with their names decrypted by several goroutines,
-- and as the persisted listing gives them.
pub mod Order
pub mod Cached
pub mod Stored
use proton_drive_linux_fs.Base.{
  ℕ, zero, suc, String, Bool, true, false, Option, none, some, List, [], ◌∷◌, if◌then◌else◌, set_at,
}
use proton_drive_linux_fs.Drive.Errors.{Result, ok, err}
use proton_drive_linux_fs.Drive.Nodes.{
  Link, Node, Library, Listings, ListingEntry, Store, Call, ◌>>=◌, pure, link_of, outside, new_node,
  keyring,
}

-- The names that decrypt, and the nodes of their links.
pub named : {K : Type 0} → Link → K → Result String → Option (Node K)
named link parent_kr (ok name) = some (new_node link name parent_kr)
named link parent_kr (err e) = none

pub write_slot : {K : Type 0} → ℕ → Option (Node K) → (ℕ → Option (Node K)) → ℕ → Option (Node K)
write_slot i none slots = slots
write_slot i (some n) slots = set_at i (some n) slots

pub prepend : {K : Type 0} → Option (Node K) → List (Node K) → List (Node K)
prepend none rest = rest
prepend (some n) rest = n ∷ rest

pub without_nil : {K : Type 0} → ℕ → List Link → (ℕ → Option (Node K)) → List (Node K)
unfolding prepend
without_nil i [] slots = []
without_nil i (link ∷ links) slots = prepend (slots i) (without_nil (suc i) links slots)

unfoldable pub active_links : List Link → List Link
active_links [] = []
active_links (link ∷ links) =
    let rest = active_links links in if link.active then link ∷ rest else rest

module _ {K : Type 0} (lib : Library K) where
  open lib use {get_name, marshal, unmarshal}

  -- What is written for link `i`; where the name does not decrypt the slot keeps its nil.
  pub slot_of : List Link → K → ℕ → Option (Node K)
  unfolding named
  slot_of [] parent_kr i = none
  slot_of (link ∷ links) parent_kr zero = named link parent_kr (get_name link parent_kr)
  slot_of (link ∷ links) parent_kr (suc i) = slot_of links parent_kr i

  -- The goroutines get done with the indices in some `order`.
  pub fill : List ℕ → List Link → K → (ℕ → Option (Node K)) → ℕ → Option (Node K)
  unfolding write_slot
  fill [] links parent_kr slots = slots
  fill (i ∷ order) links parent_kr slots =
      fill order links parent_kr (write_slot i (slot_of links parent_kr i) slots)

  unfoldable pub decrypt_names : List ℕ → List Link → K → List (Node K)
  unfolding fill without_nil
  decrypt_names order links parent_kr = without_nil 0 links (fill order links parent_kr (λ i. none))

  with_entry : Option String → String → List ListingEntry → List ListingEntry
  with_entry none name rest = rest
  with_entry (some raw) name rest = record { name = name; link = raw } ∷ rest

  unfoldable pub entries_of : List (Node K) → List ListingEntry
  unfolding with_entry
  entries_of [] = []
  entries_of (n ∷ children) = with_entry (marshal n.link) n.name (entries_of children)

  from_entry : K → String → Option Link → List (Node K) → List (Node K)
  from_entry parent_kr name none rest = rest
  from_entry parent_kr name (some link) rest = new_node link name parent_kr ∷ rest

  unfoldable pub nodes_of : K → List ListingEntry → List (Node K)
  unfolding from_entry
  nodes_of parent_kr [] = []
  nodes_of parent_kr (e ∷ entries) =
      from_entry parent_kr e.name (unmarshal e.link) (nodes_of parent_kr entries)

module _ {K W : Type 0} (lib : Library K) (listings : Listings W) where
  open listings use {list_children, has_cache, get_listing, put_listing}

  unfoldable pub children : List ℕ → ℕ → Call K W (List (Node K))
  children order p = do
    parent_kr ← keyring lib p
    parent ← link_of p
    links ← outside (list_children parent.link_id)
    pure (decrypt_names lib order (active_links links) parent_kr)

  under_keyring : List ListingEntry → Result K × Store K W → Option (List (Node K)) × Store K W
  under_keyring entries (ok parent_kr, s) = (some (nodes_of lib parent_kr entries), s)
  under_keyring entries (err e, s) = (none, s)

  from_cache : ℕ → Option (List ListingEntry) × W → Store K W → Option (List (Node K)) × Store K W
  unfolding under_keyring
  from_cache p (none, w) s = (none, record s { world = w })
  from_cache p (some entries, w) s = under_keyring entries (keyring lib p (record s { world = w }))

  unfoldable pub cached_children : ℕ → Store K W → Option (List (Node K)) × Store K W
  unfolding from_cache
  cached_children p s =
      if has_cache then from_cache p (get_listing (s.nodes p).link.link_id s.world) s else (none, s)

  unfoldable pub cache_listing : ℕ → List (Node K) → Store K W → Store K W
  cache_listing p children s =
      let id = (s.nodes p).link.link_id in
      if has_cache then record s { world = put_listing id (entries_of lib children) s.world } else s
