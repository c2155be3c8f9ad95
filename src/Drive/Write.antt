-- ===== src/Drive/Write.antt =====
-- internal/drive/write.go and crypto.go: new folders, draft files and revisions, moves, and the keys that
-- they need.
pub mod Chain
pub mod Moved
pub mod Rewrapped
use proton_drive_linux_fs.Base.{
  ℕ, String, Bool, Option, none, some, List, [], ◌∷◌, str_eq, if◌then◌else◌,
}
use proton_drive_linux_fs.Drive.Errors.{Err, Result, ok, err}
use proton_drive_linux_fs.Drive.Nodes.{
  Link, Node, Library, Store, Call, ◌>>=◌, ◌>>◌, pure, lift, link_of, outside, new_node,
  inherit_attrs, keyring,
}

-- A node key, its passphrase for the parent, and the passphrase's signature, all armored.
pub record NodeKeys : Type 0 where
  pub node_key : String
  pub node_passphrase : String
  pub signature : String

-- proton.CreateFolderReq and CreateFileReq; the packet and the MIME type are the file's.
pub record CreateReq : Type 0 where
  pub parent_link_id : String
  pub keys : NodeKeys
  pub name : String
  pub hash : String

pub record MoveLinkReq : Type 0 where
  pub name : String
  pub hash : String
  pub parent_link_id : String
  pub node_passphrase : String

-- What is used of gopenpgp and of the requests' and links' methods, over a world `W` that has the
-- randomness; the signer's keyring is the client's.
pub record Pgp (K W : Type 0) : Type 0 where
  pub random_token : W → Result String × W
  pub base64 : String → String
  pub generate_key : String → W → Result String × W
  pub encrypt : K → String → W → Result String × W
  pub armor : String → Result String
  pub from_armored : String → Result String
  pub decrypt : K → String → Result String
  pub sign : String → W → Result String × W
  pub verify : String → String → Option Err
  pub key_from_armored : String → Result String
  pub unlock : String → String → Result String
  pub new_key_ring : String → Result K
  pub split_message : String → Result (String × String)
  pub join_message : String → String → Result String
  pub decrypt_session_key : K → String → Result String
  pub encrypt_session_key : K → String → W → Result String × W
  pub set_name : String → K → W → Result String × W
  pub get_hash_key : Link → K → Result String
  pub set_hash : String → String → Result String
  pub set_node_hash_key : K → W → Result String × W
  pub set_content_key : K → W → Result (String × String) × W
  pub get_session_key : Link → K → Result String

-- The API's requests. The hash key of a new folder and the content key packet of a new file stand
-- beside the other fields.
pub record Api (W : Type 0) : Type 0 where
  pub get_link : String → W → Result Link × W
  pub create_folder : CreateReq → String → W → Result String × W
  pub create_file : CreateReq → String → String → W → Result (String × String) × W
  pub create_revision : String → W → Result String × W
  pub move_link : String → MoveLinkReq → W → Option Err × W
  pub mime_type_for : String → String

abbrev pub checked : {K W : Type 0} → Option Err → Call K W (Unit {0})
checked none s = (ok tt, s)
checked (some e) s = (err e, s)

unfoldable pub as_result : {W : Type 0} → Option Err × W → Result (Unit {0}) × W
as_result (none, w) = (ok tt, w)
as_result (some e, w) = (err e, w)

abbrev pub node_of : {K W : Type 0} → ℕ → Call K W (Node K)
node_of p s = (ok (s.nodes p), s)

module _ {K W : Type 0} (pgp : Pgp K W) where
  unfoldable pub generate_passphrase : Call K W String
  generate_passphrase = do token ← outside pgp.random_token; pure (pgp.base64 token)

  unfoldable pub encrypt_with_signature : K → String → Call K W (String × String)
  encrypt_with_signature kr text = do
    sealed ← outside (pgp.encrypt kr text)
    sealed_armored ← lift (pgp.armor sealed)
    signature ← outside (pgp.sign text)
    signature_armored ← lift (pgp.armor signature)
    pure (sealed_armored, signature_armored)

  unfoldable pub generate_node_keys : K → Call K W NodeKeys
  generate_node_keys parent_kr = do
    passphrase ← generate_passphrase
    key ← outside (pgp.generate_key passphrase)
    (sealed, signature) ← encrypt_with_signature parent_kr passphrase
    pure (record { node_key = key; node_passphrase = sealed; signature = signature })

  unfoldable pub unlock_node_kr : K → NodeKeys → Call K W K
  unlock_node_kr parent_kr keys = do
    sealed ← lift (pgp.from_armored keys.node_passphrase)
    passphrase ← lift (pgp.decrypt parent_kr sealed)
    signature ← lift (pgp.from_armored keys.signature)
    checked (pgp.verify passphrase signature)
    locked ← lift (pgp.key_from_armored keys.node_key)
    key ← lift (pgp.unlock locked passphrase)
    lift (pgp.new_key_ring key)

  unfoldable pub reencrypt_passphrase : K → K → String → Call K W String
  reencrypt_passphrase old_kr new_kr passphrase = do
    (key_packet, data_packet) ← lift (pgp.split_message passphrase)
    session_key ← lift (pgp.decrypt_session_key old_kr key_packet)
    new_packet ← outside (pgp.encrypt_session_key new_kr session_key)
    lift (pgp.join_message new_packet data_packet)

-- The link as the move leaves it.
abbrev pub moved_link : Link → MoveLinkReq → Link
moved_link link req = record link {
  name = req.name;
  hash = req.hash;
  parent_link_id = req.parent_link_id;
  node_passphrase = req.node_passphrase;
}

module _ {K W : Type 0} (lib : Library K) (pgp : Pgp K W) (api : Api W) where
  unfoldable pub node_from_link : Link → ℕ → Call K W (Node K)
  node_from_link link parent = do
    parent_kr ← keyring lib parent
    name ← lift (lib.get_name link parent_kr)
    pure (new_node link name parent_kr)

  unfoldable pub fetch_node : String → ℕ → Call K W (Node K)
  fetch_node id parent = do link ← outside (api.get_link id); node_from_link link parent

  unfoldable pub create_dir : ℕ → String → Call K W (Node K)
  create_dir parent name = do
    parent_kr ← keyring lib parent
    keys ← generate_node_keys pgp parent_kr
    sealed_name ← outside (pgp.set_name name parent_kr)
    link ← link_of parent
    hash_key ← lift (pgp.get_hash_key link parent_kr)
    hash ← lift (pgp.set_hash name hash_key)
    folder_kr ← unlock_node_kr pgp parent_kr keys
    node_hash_key ← outside (pgp.set_node_hash_key folder_kr)
    let req : CreateReq = record {
      parent_link_id = link.link_id;
      keys = keys;
      name = sealed_name;
      hash = hash;
    }
    id ← outside (api.create_folder req node_hash_key)
    fetch_node id parent

  unfoldable pub create_file : ℕ → String → Call K W (String × String × K × String)
  create_file parent name = do
    parent_kr ← keyring lib parent
    keys ← generate_node_keys pgp parent_kr
    node_kr ← unlock_node_kr pgp parent_kr keys
    link ← link_of parent
    (session_key, packet) ← outside (pgp.set_content_key node_kr)
    sealed_name ← outside (pgp.set_name name parent_kr)
    hash_key ← lift (pgp.get_hash_key link parent_kr)
    hash ← lift (pgp.set_hash name hash_key)
    let req : CreateReq = record {
      parent_link_id = link.link_id;
      keys = keys;
      name = sealed_name;
      hash = hash;
    }
    (id, revision) ← outside (api.create_file req packet (api.mime_type_for name))
    pure (id, revision, node_kr, session_key)

  revise : ℕ → Call K W (String × String × K × String)
  revise existing = do
    kr ← keyring lib existing
    link ← link_of existing
    session_key ← lift (pgp.get_session_key link kr)
    revision ← outside (api.create_revision link.link_id)
    pure (link.link_id, revision, kr, session_key)

  -- The ids, the keyring and the session key to upload with.
  unfoldable pub start_revision : ℕ → String → Option ℕ → Call K W (String × String × K × String)
  unfolding revise
  start_revision parent name none = create_file parent name
  start_revision parent name (some existing) = revise existing

  unfoldable pub move : ℕ → ℕ → ℕ → String → Call K W (Node K)
  move p old_parent new_parent new_name = do
    old_kr ← keyring lib old_parent
    new_kr ← keyring lib new_parent
    parent ← link_of new_parent
    name ← outside (pgp.set_name new_name new_kr)
    hash_key ← lift (pgp.get_hash_key parent new_kr)
    hash ← lift (pgp.set_hash new_name hash_key)
    n ← node_of p
    passphrase ← reencrypt_passphrase pgp old_kr new_kr n.link.node_passphrase
    let req : MoveLinkReq = record {
      name = name;
      hash = hash;
      parent_link_id = parent.link_id;
      node_passphrase = passphrase;
    }
    outside (λ w. as_result (api.move_link n.link.link_id req w))
    pure (inherit_attrs n (new_node (moved_link n.link req) new_name new_kr))
