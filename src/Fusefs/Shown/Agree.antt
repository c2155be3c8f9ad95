-- ===== src/Fusefs/Shown/Agree.antt =====
-- internal/fusefs/fusefs.go: what Readdir lists and what Lookup finds, of one state of a directory.
use proton_drive_linux_fs.Base.{
  String, Bool, true, false, not, ◌&&◌, ◌||◌, ◌≡◌, refl, ap, sym, ◌∙◌, Option, none, some, List, [],
  ◌∷◌, ◌++◌, ◌⊎◌, inl, inr, if◌then◌else◌, str_eq, arith, eq_iff,
}
use proton_drive_linux_fs.Fusefs.Release.{Errno}
use proton_drive_linux_fs.Fusefs.Shown.{
  pending_file, local_store, Entry, Child, Local, among, origin_of, from_drive, from_pending,
  from_local, names_of, listing_of, readdir, lookup_local, pending_or_local, search, looked_up,
  lookup_entry,
}

-- The first entry of a listing under a name.
pub first_named : String → List Entry → Option Entry
first_named name [] = none
first_named name (e ∷ es) =
    let later = first_named name es in if str_eq e.name name then some e else later

pub found : Errno ⊎ Entry → Option Entry
found (inl errno) = none
found (inr e) = some e

module _ (excluded keeps_local : String → Bool) where
  -- What storedPath finds: an entry that is still there, of a name that belongs to the local store.
  pub is_stored : String → List Local → Bool
  is_stored name [] = false
  is_stored name (l ∷ locals) =
      let later = is_stored name locals in
      str_eq l.name name && keeps_local l.name && l.has_info || later

  first_named-append :
      (name : String) (a b : List Entry)
      → first_named name (a ++ b)
        ≡ (elim (first_named name a) [ none ↦ first_named name b | some e ↦ some e ])
  unfolding first_named
  first_named-append name [] b = refl
  first_named-append name (e ∷ a) b = ground (arith, first_named-append name a b)

  among-names_of :
      (name : String) (es : List Entry)
      → among name (names_of excluded keeps_local es)
        ≡ (elim (first_named name es) [ none ↦ false | some e ↦ true ])
  unfolding among names_of first_named
  among-names_of name [] = refl
  among-names_of name (e ∷ es) = ground (arith, among-names_of name es)

  first_child : String → List Child → Option Entry
  first_child name [] = none
  first_child name (ch ∷ children) =
      let later = first_child name children in
      if str_eq ch.name name then some (record { name = name; origin = origin_of ch }) else later

  first_named-from_drive :
      (name : String) (children : List Child)
      → first_named name (from_drive excluded keeps_local children)
        ≡ (if excluded name then none else first_child name children)
  unfolding first_named from_drive first_child
  first_named-from_drive name [] = ground arith
  first_named-from_drive name (ch ∷ children) =
      ground (arith, first_named-from_drive name children, eq_iff ch.name name, ap excluded)

  search-first_child :
      (pending stored : Bool) (name : String) (children : List Child)
      → search excluded keeps_local pending stored name children
        ≡ (elim (first_child name children) [
          | none ↦ pending_or_local excluded keeps_local pending stored name
          | some e ↦ inr e
        ])
  unfolding search first_child
  search-first_child pending stored name [] = refl
  search-first_child pending stored name (ch ∷ children) =
      ground (arith, search-first_child pending stored name children)

  first_named-from_pending :
      (name : String) (listed names : List String)
      → first_named name (from_pending excluded keeps_local listed names) ≡ (
          if not (among name listed) && among name names
          then some (record { name = name; origin = pending_file })
          else none)
  unfolding first_named from_pending among
  first_named-from_pending name listed [] = ground arith
  first_named-from_pending name listed (n ∷ names) =
      let same : n ≡ name → among n listed ≡ among name listed = ap (λ x. among x listed) in
      ground (
        arith,
        first_named-from_pending name listed names,
        first_named-from_pending name (n ∷ listed) names,
        eq_iff n name,
        same,
      )

  first_named-from_local :
      (name : String) (listed : List String) (locals : List Local)
      → first_named name (from_local excluded keeps_local listed locals) ≡ (
          if not (among name listed) && is_stored name locals
          then some (record { name = name; origin = local_store })
          else none)
  unfolding first_named from_local is_stored
  first_named-from_local name listed [] = ground arith
  first_named-from_local name listed (l ∷ locals) =
      let same : l.name ≡ name → among l.name listed ≡ among name listed =
        ap (λ x. among x listed) in
      ground (arith, first_named-from_local name listed locals, eq_iff l.name name, same)

  first_named-listing_of :
      (name : String) (children : List Child) (pending : List String) (locals : List Local)
      → first_named name (listing_of excluded keeps_local children pending locals)
        ≡ found (
            lookup_entry excluded keeps_local
              (inr children)
              (among name pending)
              (is_stored name locals)
              name)
  unfolding listing_of lookup_entry looked_up found pending_or_local lookup_local
  first_named-listing_of name children pending locals =
      let drive = from_drive excluded keeps_local children in
      let names = names_of excluded keeps_local drive in
      let saved = from_pending excluded keeps_local names pending in
      let shown = names_of excluded keeps_local (drive ++ saved) in
      ground (
        arith,
        first_named-append name drive saved,
        first_named-append name (drive ++ saved) (from_local excluded keeps_local shown locals),
        among-names_of name drive,
        among-names_of name (drive ++ saved),
        first_named-from_drive name children,
        first_named-from_pending name names pending,
        first_named-from_local name shown locals,
        search-first_child (among name pending) (is_stored name locals) name children,
      )

  -- Of one state of a directory whose listing could be loaded, where a name is stored if its local
  -- copy is still there and it belongs to the local store: the first entry that Readdir lists under
  -- a name is the one that Lookup finds, from the drive, from the pending files or from the local
  -- store, and a name that Readdir does not list is one that Lookup does not find.
  pub readdir-lookup_entry :
      (name : String) (children : List Child) (pending : List String) (locals : List Local)
      (listing : List Entry)
      → readdir excluded keeps_local (inr children) pending locals ≡ inr listing
      → first_named name listing
        ≡ found (
            lookup_entry excluded keeps_local
              (inr children)
              (among name pending)
              (is_stored name locals)
              name)
  unfolding readdir
  readdir-lookup_entry name children pending locals listing h =
      ap (first_named name) (sym (inr_inj h)) ∙ first_named-listing_of name children pending locals
    where
      inr_inj : {a b : List Entry} → ◌≡◌ {A = Errno ⊎ List Entry} (inr a) (inr b) → a ≡ b
      inr_inj e = cc
