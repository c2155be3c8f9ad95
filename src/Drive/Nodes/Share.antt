-- ===== src/Drive/Nodes/Share.antt =====
-- internal/drive/drive.go: how the client finds the primary share, its signer and its root.
use proton_drive_linux_fs.Base.{
  ℕ, String, Bool, true, Option, none, some, List, [], ◌∷◌, if◌then◌else◌, str_eq,
}
use proton_drive_linux_fs.Drive.Errors.{Err, Result, ok, err}
use proton_drive_linux_fs.Drive.Nodes.{
  Link, Library, Node, Call, ◌>>=◌, pure, lift, outside, resolve_file_attrs,
}

-- proton.ShareMetadata, and the share behind it; `primary` tells if its flag is PrimaryShare.
pub record ShareEntry : Type 0 where
  pub share_id : String
  pub volume_id : String
  pub primary : Bool

pub record Share : Type 0 where
  pub address_id : String
  pub link_id : String

pub record Address : Type 0 where
  pub id : String
  pub email : String

-- auth.Keys: the account's addresses, the unlocked keyrings by address, and all of them merged.
pub record Keys (K : Type 0) : Type 0 where
  pub addresses : List Address
  pub by_address_id : String → Option K
  pub merged : K

pub record Shares (K W : Type 0) : Type 0 where
  pub list_shares : W → Result (List ShareEntry) × W
  pub get_share : String → W → Result Share × W
  pub share_key_ring : Share → K → Result K
  pub get_link : String → String → W → Result Link × W

pub record Client (K : Type 0) : Type 0 where
  pub share_id : String
  pub volume_id : String
  pub address_id : String
  pub sign_email : String
  pub sign_kr : K

-- The errors that the code makes itself here.
abbrev no_share : Err
no_share = Err.other 1

abbrev no_address : Err
no_address = Err.other 2

abbrev no_keyring : Err
no_keyring = Err.other 3

unfoldable pub first_primary : List ShareEntry → String × String
first_primary [] = ("", "")
first_primary (s ∷ shares) =
    let rest = first_primary shares in if s.primary then (s.share_id, s.volume_id) else rest

found_share : String × String → Result (String × String)
found_share (share_id, volume_id) =
    if str_eq share_id "" then err no_share else ok (share_id, volume_id)

signer : {K : Type 0} → String → Option K → Result (String × K)
signer email none = err no_keyring
signer email (some kr) = ok (email, kr)

module _ {K : Type 0} (keys : Keys K) where
  signer_among : String → List Address → Result (String × K)
  unfolding signer
  signer_among id [] = err no_address
  signer_among id (a ∷ addresses) =
      let later = signer_among id addresses in
      if str_eq a.id id then signer a.email (keys.by_address_id id) else later

  unfoldable pub resolve_signer : String → Result (String × K)
  unfolding signer_among
  resolve_signer id = signer_among id keys.addresses

module _ {K W : Type 0} (lib : Library K) (shares : Shares K W) (keys : Keys K) where
  -- The root has no parent. Its keyring is there from the start, so its parent's is never used.
  root_node : Link → K → ℕ × ℕ × Bool → Node K
  root_node link kr (size, mod_time, resolved) = record {
    link = link;
    name = "/";
    parent_kr = kr;
    kr = some kr;
    attrs_known = true;
    size = size;
    mod_time = mod_time;
  }

  unfoldable pub open_drive : Call K W (Client K × Node K)
  unfolding found_share root_node
  open_drive = do
    entries ← outside shares.list_shares
    (share_id, volume_id) ← lift (found_share (first_primary entries))
    share ← outside (shares.get_share share_id)
    (sign_email, sign_kr) ← lift (resolve_signer keys share.address_id)
    share_kr ← lift (shares.share_key_ring share keys.merged)
    link ← outside (shares.get_link share_id share.link_id)
    root_kr ← lift (lib.get_key_ring link share_kr)
    let client : Client K = record {
      share_id = share_id;
      volume_id = volume_id;
      address_id = share.address_id;
      sign_email = sign_email;
      sign_kr = sign_kr;
    }
    pure (client, root_node link root_kr (resolve_file_attrs lib link root_kr))
