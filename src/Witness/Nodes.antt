-- ===== src/Witness/Nodes.antt =====
-- A drive whose keyrings are strings and whose messages are kept as they are.
use proton_drive_linux_fs.Base.{
  String, ◌≡◌, refl, sym, true, false, none, some, List, [], ◌∷◌, arith, map, Bool, ap, eq_iff,
  str_eq, if◌then◌else◌,
}
use mathlib.Core.Path.{ap₂}
use proton_drive_linux_fs.Drive.Errors.{Err, Result, ok, err}
use proton_drive_linux_fs.Drive.Nodes.{
  Link, LinkType, Library, Node, ListingEntry, Listings, Store, new_node, inherit_attrs, keyring,
  then_call, outside,
}
use proton_drive_linux_fs.Drive.BlockCache.{Cache, Access}
use proton_drive_linux_fs.Drive.Read.{Bytes}
use proton_drive_linux_fs.Drive.Nodes.Names.Stored.{cached, cached_children-block_listings}
use proton_drive_linux_fs.Drive.Nodes.Names.{entries_of, cached_children, cache_listing}
use proton_drive_linux_fs.Drive.Nodes.Names.Cached.{listed}
use proton_drive_linux_fs.Drive.Nodes.Names.Order.{readable}
use proton_drive_linux_fs.Drive.Write.{Pgp, Api, move, reencrypt_passphrase}
use proton_drive_linux_fs.Drive.Write.Rewrapped.{opened, reencrypt_passphrase-opened}

abbrev link : Link
link = record {
  link_id = "l";
  parent_link_id = "a";
  link_type = LinkType.file;
  name = "x";
  hash = "h";
  node_passphrase = "p";
  active = true;
  size = 3;
  modify_time = 7;
  xattr = none;
}

abbrev lib : Library String
lib = record {
  get_key_ring = λ l kr. ok l.node_passphrase;
  get_name = λ l kr. ok l.name;
  decrypt_message = λ kr text. ok text;
  parse_common = λ text. ok (record { modification_time = text; size = 3 });
  parse_time = λ text. none;
  marshal = λ l. some "{}";
  unmarshal = λ text. some link;
}

-- The world is the link on the drive, and the cached listing.
abbrev World : Type 0
World = Link × List ListingEntry

abbrev node : Node String
node = new_node link "x" "k"

abbrev store : Store String World
store = record { nodes = λ p. node; world = (link, []) }

abbrev pgp : Pgp String World
pgp = record {
  random_token = λ w. (ok "r", w);
  base64 = λ text. text;
  generate_key = λ text w. (ok text, w);
  encrypt = λ kr text w. (ok text, w);
  armor = λ text. ok text;
  from_armored = λ text. ok text;
  decrypt = λ kr text. ok text;
  sign = λ text w. (ok text, w);
  verify = λ text signature. none;
  key_from_armored = λ text. ok text;
  unlock = λ key text. ok key;
  new_key_ring = λ key. ok key;
  split_message = λ text. ok (text, "d");
  join_message = λ packet text. if str_eq text "d" then ok packet else err Err.eof;
  decrypt_session_key = λ kr packet. ok packet;
  encrypt_session_key = λ kr key w. (ok key, w);
  set_name = λ name kr w. (ok name, w);
  get_hash_key = λ l kr. ok "h";
  set_hash = λ name key. ok name;
  set_node_hash_key = λ kr w. (ok "h", w);
  set_content_key = λ kr w. (ok ("k", "p"), w);
  get_session_key = λ l kr. ok "k";
}

abbrev api : Api World
api = record {
  get_link = λ id w. (ok w.0, w);
  create_folder = λ req key w. (ok "f", w);
  create_file = λ req packet mime w. (ok ("f", "r"), w);
  create_revision = λ id w. (ok "r", w);
  move_link = λ id req w. (
    none,
    (
      record link {
        name = req.name;
        hash = req.hash;
        parent_link_id = req.parent_link_id;
        node_passphrase = req.node_passphrase;
      },
      w.1,
    ),
  );
  mime_type_for = λ name. "text/plain";
}

ok_inj : {A : Type 0} {a b : A} → ok a ≡ ok b → a ≡ b
ok_inj h = cc

-- A block cache in which a listing of a byte for each entry fits.
abbrev cache : Cache
cache = record { enabled = true; limit = 5; size = 0; files = []; dirs = [] }

abbrev cached_store : Store String Cache
cached_store = record { nodes = λ p. node; world = cache }

abbrev encode : List ListingEntry → Bytes
encode [] = []
encode (e ∷ es) = 1 ∷ encode es

abbrev decode : Bytes → List ListingEntry
decode [] = []
decode (b ∷ bytes) = record { name = "x"; link = "{}" } ∷ decode bytes

abbrev access : Access
access = record { readable = λ path. true; removable = λ path. true }

abbrev list_children : String → Cache → Result (List Link) × Cache
list_children id c = (ok (link ∷ []), c)

abbrev listings : Listings Cache
listings =
    cached (λ es. some (encode es)) (λ raw. some (decode raw)) lib list_children access true 7 0

cached_children-block_listings_example :
    (cached_children lib listings 0 (cache_listing lib listings 0 (node ∷ []) cached_store)).0
    ≡ some (map (listed "p") (node ∷ []))
unfolding keyring new_node entries_of
cached_children-block_listings_example =
    cached_children-block_listings (λ es. some (encode es)) (λ raw. some (decode raw)) lib
      list_children access true 7 0 0 "p" (node ∷ []) (1 ∷ []) cached_store (("{}", refl, refl), tt)
      refl refl refl (omega arith) refl

abbrev moved : Node String
moved = inherit_attrs node (
    new_node (record link { name = "y"; hash = "y"; parent_link_id = "l"; node_passphrase = "p" })
      "y" "p")

abbrev moved_store : Store String World
moved_store = record {
  nodes = (move lib pgp api 0 1 2 "y" store).1.nodes;
  world = (moved.link, []);
}

reencrypt_passphrase-opened_example : opened pgp "n" "t" ≡ opened pgp "o" "t"
unfolding reencrypt_passphrase then_call outside
reencrypt_passphrase-opened_example =
    reencrypt_passphrase-opened pgp "o" "n" "t" "t" store store joined
      (λ kr key packet w v sealed. ap (λ x. x.0) (sym sealed)) refl
  where
    joined :
        (packet content text : String)
        → pgp.join_message packet content ≡ ok text
        → pgp.split_message text ≡ ok (packet, content)
    joined packet content text h = by_content (str_eq content "d") refl h
      where
        by_content :
            (b : Bool)
            → str_eq content "d" ≡ b
            → (if b then ok packet else err Err.eof) ≡ ok text
            → pgp.split_message text ≡ ok (packet, content)
        by_content true e same =
            ap₂ (λ x y. ok (x, y)) (sym (ok_inj same)) (sym ((eq_iff content "d").0 e))
        by_content false e same = absurd (cc)
