-- ===== src/Drive/Nodes.antt =====
-- internal/drive/drive.go: the nodes of the drive tree, their keyrings and attributes, and the
-- children of a folder, listed or from the cache.
pub mod Names
pub mod Share
use proton_drive_linux_fs.Base.{
  ℕ, zero, suc, ◌+◌, ◌==◌, ltb, String, Bool, true, false, not, ◌||◌, Option, none, some, List, [],
  ◌∷◌, if◌then◌else◌, str_eq, set_at,
}
use proton_drive_linux_fs.Drive.Errors.{Err, Result, ok, err}

-- proton.Link, of the go-proton-api library, as far as it is used here: `xattr` is none where the
-- link has no FileProperties. Times are Unix seconds.
pub data LinkType : Type 0 where
  folder file : LinkType

pub record Link : Type 0 where
  pub link_id : String
  pub parent_link_id : String
  pub link_type : LinkType
  pub name : String
  pub hash : String
  pub node_passphrase : String
  pub active : Bool
  pub size : ℕ
  pub modify_time : ℕ
  pub xattr : Option String

-- proton.RevisionXAttrCommon; a size below 0 counts as 0, as the code's tests make no difference.
pub record Common : Type 0 where
  pub modification_time : String
  pub size : ℕ

-- What is used of gopenpgp, of the Link's methods and of encoding/json, with keyrings `K`; the
-- address keyring and the signer's are the client's, and always the same.
pub record Library (K : Type 0) : Type 0 where
  pub get_key_ring : Link → K → Result K
  pub get_name : Link → K → Result String
  pub decrypt_message : K → String → Result String
  pub parse_common : String → Result Common
  pub parse_time : String → Option ℕ
  pub marshal : Link → Option String
  pub unmarshal : String → Option Link

pub record Node (K : Type 0) : Type 0 where
  pub link : Link
  pub name : String
  pub parent_kr : K
  pub kr : Option K
  pub attrs_known : Bool
  pub size : ℕ
  pub mod_time : ℕ

pub record ListingEntry : Type 0 where
  pub name : String
  pub link : String

-- The API's listing of a folder, and the cached listings where there is a cache.
pub record Listings (W : Type 0) : Type 0 where
  pub list_children : String → W → Result (List Link) × W
  pub has_cache : Bool
  pub get_listing : String → W → Option (List ListingEntry) × W
  pub put_listing : String → List ListingEntry → W → W

-- The nodes by their addresses, and the rest of the world.
pub record Store (K W : Type 0) : Type 0 where
  pub nodes : ℕ → Node K
  pub world : W

-- A call that may fail, on the store.
abbrev pub Call : Type 0 → Type 0 → Type 0 → Type 0
Call K W A = Store K W → Result A × Store K W

unfoldable pub then_call :
    {K W A B : Type 0} → (A → Call K W B) → Result A × Store K W → Result B × Store K W
then_call f (ok a, s) = f a s
then_call f (err e, s) = (err e, s)

infixl 5 ◌>>=◌ ◌>>◌
abbrev pub ◌>>=◌ : {K W A B : Type 0} → Call K W A → (A → Call K W B) → Call K W B
◌>>=◌ call f s = then_call f (call s)

abbrev pub ◌>>◌ : {K W B : Type 0} → Call K W (Unit {0}) → Call K W B → Call K W B
◌>>◌ call rest s = then_call (λ u. rest) (call s)

abbrev pub pure : {K W A : Type 0} → A → Call K W A
pure a s = (ok a, s)

abbrev pub lift : {K W A : Type 0} → Result A → Call K W A
lift r s = (r, s)

unfoldable pub in_world : {K W A : Type 0} → Store K W → Result A × W → Result A × Store K W
in_world s (r, w) = (r, record s { world = w })

unfoldable pub outside : {K W A : Type 0} → (W → Result A × W) → Call K W A
unfolding in_world
outside call s = in_world s (call s.world)

abbrev pub link_of : {K W : Type 0} → ℕ → Call K W Link
link_of p s = (ok (s.nodes p).link, s)

unfoldable pub new_node : {K : Type 0} → Link → String → K → Node K
new_node link name parent_kr = record {
  link = link;
  name = name;
  parent_kr = parent_kr;
  kr = none;
  attrs_known = false;
  size = link.size;
  mod_time = link.modify_time;
}

unfoldable pub set_plaintext_size : {K : Type 0} → ℕ → Node K → Node K
set_plaintext_size size n = record n { size = size; attrs_known = true }

unfoldable pub inherit_attrs : {K : Type 0} → Node K → Node K → Node K
inherit_attrs src n = record n {
  size = src.size;
  mod_time = src.mod_time;
  attrs_known = src.attrs_known;
}

or_time : Option ℕ → ℕ → ℕ
or_time none t = t
or_time (some u) t = u

is_plain_file : LinkType → Option String → Bool
is_plain_file LinkType.file (some xattr) = true
is_plain_file _ _ = false

unfoldable pub unlocked : {K W : Type 0} → ℕ → Result K → Call K W K
unlocked p (err e) s = (err e, s)
unlocked p (ok kr) s =
    (ok kr, record s { nodes = set_at p (record (s.nodes p) { kr = some kr }) s.nodes })

with_attrs : {K W : Type 0} → ℕ → ℕ × ℕ × Bool → Store K W → Store K W
with_attrs p (size, mod_time, resolved) s =
    let n = record (s.nodes p) { size = size; mod_time = mod_time; attrs_known = resolved } in
    record s { nodes = set_at p n s.nodes }

abbrev no_common : Common
no_common = record { modification_time = ""; size = 0 }

module _ {K : Type 0} (lib : Library K) where
  open lib use {decrypt_message, parse_common, parse_time}

  parsed : Result String → Result Common
  parsed (ok text) = parse_common text
  parsed (err e) = err e

  unfoldable pub decrypt_xattr : K → String → Result Common
  unfolding parsed
  decrypt_xattr kr armored =
      if str_eq armored "" then ok no_common else parsed (decrypt_message kr armored)

  from_common : Link → Result Common → ℕ × ℕ × Bool
  unfolding or_time
  from_common link (err e) = (link.size, link.modify_time, false)
  from_common link (ok common) = (
    (if ltb 0 common.size then common.size else link.size),
    or_time (parse_time common.modification_time) link.modify_time,
    ltb 0 common.size,
  )

  file_attrs : Link → LinkType → Option String → K → ℕ × ℕ × Bool
  unfolding from_common
  file_attrs link LinkType.file (some xattr) kr = from_common link (decrypt_xattr kr xattr)
  file_attrs link _ _ kr = (link.size, link.modify_time, false)

  unfoldable pub resolve_file_attrs : Link → K → ℕ × ℕ × Bool
  unfolding file_attrs
  resolve_file_attrs link kr = file_attrs link link.link_type link.xattr kr

module _ {K W : Type 0} (lib : Library K) where
  open lib use {get_key_ring}

  -- A node is named by its address.
  unfoldable pub keyring : ℕ → Call K W K
  unfolding unlocked
  keyring p s = elim (s.nodes p).kr [
    | some kr ↦ (ok kr, s)
    | none ↦ unlocked p (get_key_ring (s.nodes p).link (s.nodes p).parent_kr) s
  ]

  attrs_resolved : ℕ → Result K × Store K W → Store K W
  unfolding with_attrs
  attrs_resolved p (err e, s) = s
  attrs_resolved p (ok kr, s) = with_attrs p (resolve_file_attrs lib (s.nodes p).link kr) s

  unfoldable pub resolve_attrs : ℕ → Store K W → Store K W
  unfolding is_plain_file attrs_resolved
  resolve_attrs p s =
      let n = s.nodes p in
      if n.attrs_known || not (is_plain_file n.link.link_type n.link.xattr)
      then s
      else attrs_resolved p (keyring p s)
