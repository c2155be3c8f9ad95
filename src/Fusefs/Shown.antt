-- ===== src/Fusefs/Shown.antt =====
-- internal/fusefs/fusefs.go: the entries that Readdir lists and Lookup finds, of the drive's listing, of
-- files that are not uploaded yet, and of the local store.
pub mod Agree
use proton_drive_linux_fs.Base.{
  String, Bool, false, not, ◌||◌, List, [], ◌∷◌, ◌++◌, ◌⊎◌, inl, inr, if◌then◌else◌, str_eq,
}
use proton_drive_linux_fs.Fusefs.Release.{Errno, enoent}

-- Where an entry comes from.
pub data Origin : Type 0 where
  drive_file drive_folder pending_file local_store : Origin

pub record Entry : Type 0 where
  pub name : String
  pub origin : Origin

-- A child in the drive's listing, and an entry of the local copy of the folder, which may have gone
-- before its Info.
pub record Child : Type 0 where
  pub name : String
  pub is_dir : Bool

pub record Local : Type 0 where
  pub name : String
  pub has_info : Bool

unfoldable pub among : String → List String → Bool
among name [] = false
among name (n ∷ names) = str_eq n name || among name names

abbrev origin_of : Child → Origin
origin_of ch = if ch.is_dir then drive_folder else drive_file

module _ (excluded keeps_local : String → Bool) where
  from_drive : List Child → List Entry
  from_drive [] = []
  from_drive (ch ∷ children) =
      let rest = from_drive children in
      if excluded ch.name then rest else record { name = ch.name; origin = origin_of ch } ∷ rest

  -- `listed` are the names listed so far; the names of pending children come in go-fuse's order.
  from_pending : List String → List String → List Entry
  from_pending listed [] = []
  from_pending listed (n ∷ names) =
      let rest = from_pending listed names in
      let more = from_pending (n ∷ listed) names in
      if among n listed then rest else record { name = n; origin = pending_file } ∷ more

  from_local : List String → List Local → List Entry
  from_local listed [] = []
  from_local listed (e ∷ locals) =
      let rest = from_local listed locals in
      if among e.name listed || not (keeps_local e.name)
      then rest
      else if not e.has_info
      then rest
      else record { name = e.name; origin = local_store } ∷ rest

  names_of : List Entry → List String
  names_of [] = []
  names_of (e ∷ es) = e.name ∷ names_of es

  listing_of : List Child → List String → List Local → List Entry
  unfolding from_drive from_pending from_local names_of
  listing_of children pending locals =
      let drive = from_drive children in
      let saved = from_pending (names_of drive) pending in
      drive ++ saved ++ from_local (names_of (drive ++ saved)) locals

  -- `loaded` is what load gives; `pending` are the names of the children that are not uploaded yet.
  unfoldable pub readdir : Errno ⊎ List Child → List String → List Local → Errno ⊎ List Entry
  unfolding listing_of
  readdir (inl errno) pending locals = inl errno
  readdir (inr children) pending locals = inr (listing_of children pending locals)

  -- lookupLocal: `stored` says that storedPath finds the name.
  lookup_local : Bool → String → Errno ⊎ Entry
  lookup_local stored name =
      if stored then inr (record { name = name; origin = local_store }) else inl enoent

  pending_or_local : Bool → Bool → String → Errno ⊎ Entry
  unfolding lookup_local
  pending_or_local pending stored name =
      if pending
      then inr (record { name = name; origin = pending_file })
      else lookup_local stored name

  search : Bool → Bool → String → List Child → Errno ⊎ Entry
  unfolding pending_or_local
  search pending stored name [] = pending_or_local pending stored name
  search pending stored name (ch ∷ children) =
      let later = search pending stored name children in
      if str_eq ch.name name then inr (record { name = name; origin = origin_of ch }) else later

  looked_up : Bool → Bool → String → Errno ⊎ List Child → Errno ⊎ Entry
  unfolding search
  looked_up pending stored name (inl errno) = inl errno
  looked_up pending stored name (inr children) = search pending stored name children

  unfoldable pub lookup_entry : Errno ⊎ List Child → Bool → Bool → String → Errno ⊎ Entry
  unfolding looked_up pending_or_local
  lookup_entry loaded pending stored name =
      if excluded name
      then pending_or_local pending stored name
      else looked_up pending stored name loaded
