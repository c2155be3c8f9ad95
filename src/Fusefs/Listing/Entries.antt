-- ===== src/Fusefs/Listing/Entries.antt =====
-- internal/fusefs/fusefs.go: what upsertNode and removeNode leave under each name.
use proton_drive_linux_fs.Base.{
  ◌≡◌, ◌≢◌, refl, String, Option, none, some, List, [], ◌∷◌, arith, if◌then◌else◌, str_eq, eq_iff,
  All,
}
use proton_drive_linux_fs.Fusefs.Buffer.{Node}
use proton_drive_linux_fs.Fusefs.Listing.{upsert_node, remove_node, kept_back}

-- findChild's search of a listing.
unfoldable pub find_child : String → List Node → Option Node
find_child name [] = none
find_child name (ch ∷ children) =
    let rest = find_child name children in if str_eq ch.name name then some ch else rest

-- After upsertNode a name finds the new entry if it is that entry's name, and otherwise what it
-- found before, provided that no entry with the new entry's link has the name that is looked up.
pub find-upsert_node :
    (n : Node) (m : String) (children : List Node)
    → All (λ ch. ch.link_id ≡ n.link_id → ch.name ≢ m) children
    → find_child m (upsert_node children n)
      ≡ (if str_eq n.name m then some n else find_child m children)
unfolding find_child upsert_node
find-upsert_node n m [] h = refl
find-upsert_node n m (ch ∷ children) h = ground (
  arith,
  find-upsert_node n m children,
  eq_iff ch.link_id n.link_id,
  eq_iff ch.name n.name,
  eq_iff n.name m,
  eq_iff ch.name m,
)

-- After upsertNode, looking up the new entry's name finds the new entry.
pub find_upserted :
    (n : Node) (children : List Node) → find_child n.name (upsert_node children n) ≡ some n
unfolding find_child upsert_node
find_upserted n [] = ground (arith, eq_iff n.name n.name)
find_upserted n (ch ∷ children) =
    ground (arith, find_upserted n children, eq_iff n.name n.name, eq_iff ch.name n.name)

-- The names of a listing differ.
abbrev pub Unique : List Node → Type 0
Unique [] = Unit {0}
Unique (ch ∷ children) = (find_child ch.name children ≡ none) × Unique children

-- In a listing whose names differ, removeNode returns what its name found, after which that name
-- finds nothing and every other name finds what it found before.
pub find-remove_node :
    (name m : String) (children : List Node)
    → Unique children
    → ((remove_node children name).0 ≡ find_child name children)
      × (find_child m (remove_node children name).1
          ≡ (if str_eq name m then none else find_child m children))
unfolding find_child remove_node kept_back
find-remove_node name m [] u = ground arith
find-remove_node name m (ch ∷ children) u = ground (
  arith,
  find-remove_node name m children u.1,
  eq_iff ch.name name,
  eq_iff name m,
  eq_iff ch.name m,
)

pub remove_node-Unique :
    (name : String) (children : List Node) → Unique children → Unique (remove_node children name).1
unfolding find_child remove_node kept_back
remove_node-Unique name [] u = tt
remove_node-Unique name (ch ∷ children) u =
    ground (arith, remove_node-Unique name children u.1, find-remove_node name ch.name children u.1)
