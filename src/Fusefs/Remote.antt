-- ===== src/Fusefs/Remote.antt =====
-- internal/fusefs/fusefs.go: what a remote event does: mountState's dirs and parentOf, and
-- handle with its parts. The dentries that invalidate has the kernel drop are left out.
pub mod Expired
use proton_drive_linux_fs.Base.{
  String, Bool, true, false, not, ◌&&◌, ◌||◌, Option, none, some, List, [], ◌∷◌, ◌++◌,
  if◌then◌else◌, str_eq, lookup, insert, delete, string_key,
}
use proton_drive_linux_fs.Drive.Events.{Kind, deleted, updated, Event, Delivery, change, refreshed}

-- A registered directory: whether its listing has expired, and the links in it.
pub record Dir : Type 0 where
  pub is_expired : Bool
  pub children : List String

-- `has_child` is whether go-fuse's GetChild finds an inode for a link; `dropped` are the links whose
-- cached pages the kernel was told to drop, last first.
pub record Mount : Type 0 where
  pub dirs : List (String × Dir)
  pub parent_of : List (String × String)
  pub has_child : String → Bool
  pub dropped : List String

unfoldable pub parents_to_invalidate : String → String → List String
parents_to_invalidate new_parent old_parent =
    let new_ones = if str_eq new_parent "" then [] else new_parent ∷ [] in
    if not (str_eq old_parent "") && not (str_eq old_parent new_parent)
    then new_ones ++ old_parent ∷ []
    else new_ones

abbrev pub expired : Dir → Dir
expired d = record d { is_expired = true }

unfoldable pub invalidate_dir : String → Mount → Mount
invalidate_dir id m = elim (lookup id m.dirs) [
  | none ↦ m
  | some d ↦ record m { dirs = insert id (expired d) m.dirs }
]

unfoldable pub invalidate_dirs : List String → Mount → Mount
invalidate_dirs [] m = m
invalidate_dirs (id ∷ ids) m = invalidate_dirs ids (invalidate_dir id m)

abbrev pub all_expired : List (String × Dir) → List (String × Dir)
all_expired [] = []
all_expired ((id, d) ∷ ds) = (id, expired d) ∷ all_expired ds

unfoldable pub invalidate_all : Mount → Mount
invalidate_all m = record m { dirs = all_expired m.dirs }

-- st.parentOf[childID], which is "" for an unknown child.
unfoldable pub old_parent : String → Mount → String
old_parent child m = elim (lookup child m.parent_of) [ none ↦ "" | some p ↦ p ]

-- forgetChildrenLocked
unfoldable pub forget_in : String → List String → List (String × String) → List (String × String)
forget_in parent [] ps = ps
forget_in parent (ch ∷ children) ps =
    let kept : List (String × String) = elim (lookup ch ps) [
      | none ↦ ps
      | some p ↦ if str_eq p parent then delete ch ps else ps
    ] in
    forget_in parent children kept

unfoldable pub forget_children : String → Mount → Mount
forget_children link m = elim (lookup link m.dirs) [
  | none ↦ m
  | some d ↦ record m { parent_of = forget_in link d.children m.parent_of }
]

unfoldable pub forget_parent : String → Mount → Mount
forget_parent child m = record m { parent_of = delete child m.parent_of }

abbrev pub is_in : String → List String → Bool
is_in id [] = false
is_in id (x ∷ xs) = str_eq x id || is_in id xs

-- invalidateFileContent
unfoldable pub invalidate_file_content : Event → Mount → Mount
invalidate_file_content ev m = elim (lookup ev.parent_id m.dirs) [
  | none ↦ m
  | some d ↦
      if is_in ev.link_id d.children && m.has_child ev.link_id
      then record m { dropped = ev.link_id ∷ m.dropped }
      else m
]

content_changed : Kind → Event → Mount → Mount
content_changed updated ev m = if ev.is_dir then m else invalidate_file_content ev m
content_changed _ ev m = m

forget_deleted : Kind → String → Mount → Mount
forget_deleted deleted link m = forget_children link (forget_parent link m)
forget_deleted _ link m = m

unfoldable pub handle : Delivery → Mount → Mount
unfolding content_changed forget_deleted
handle refreshed m = invalidate_all m
handle (change ev) m =
    let ids = parents_to_invalidate ev.parent_id (old_parent ev.link_id m) in
    forget_deleted ev.kind ev.link_id (content_changed ev.kind ev (invalidate_dirs ids m))
