-- ===== src/Drive/BlockCache/Layout.antt =====
-- internal/drive/cache.go: migrateLayout, which moves a cache of the old layout under blocks, and what
-- is left when the process ends in the middle of it.
pub mod Stuck
use proton_drive_linux_fs.Base.{
  ℕ, zero, suc, ◌≡◌, ◌≢◌, refl, sym, ap, ◌∙◌, String, Bool, true, false, ◌||◌, Option, none, some,
  List, [], ◌∷◌, ◌++◌, str_eq, if◌then◌else◌, arith,
}

-- An entry of the cache's directory: what the old layout kept there, or blocks.migrating.
pub data Entry : Type 0 where
  old : String → Entry
  migrating : Entry

-- The entries as ReadDir gives them, what is in blocks.migrating, and in blocks if there is one.
pub record Layout : Type 0 where
  pub top : List Entry
  pub moved : List String
  pub blocks : Option (List String)

-- How a run ended: with the layout in place, with an error, or with the process.
pub data Ending : Type 0 where
  settled failed cut : Ending

unfoldable pub has_migrating : List Entry → Bool
has_migrating [] = false
has_migrating (migrating ∷ es) = true
has_migrating (old name ∷ es) = has_migrating es

-- os.MkdirAll
make_tmp : Layout → Layout
make_tmp l = if has_migrating l.top then l else record l { top = l.top ++ migrating ∷ [] }

without_old : String → List Entry → List Entry
without_old name [] = []
without_old name (migrating ∷ es) = migrating ∷ without_old name es
without_old name (old other ∷ es) =
    let rest = without_old name es in if str_eq name other then rest else old other ∷ rest

without_migrating : List Entry → List Entry
without_migrating [] = []
without_migrating (migrating ∷ es) = without_migrating es
without_migrating (old name ∷ es) = old name ∷ without_migrating es

move_old : String → Layout → Layout
unfolding without_old
move_old name l = record l { top = without_old name l.top; moved = l.moved ++ name ∷ [] }

put_in_place : Layout → Layout
unfolding without_migrating
put_in_place l = record l { top = without_migrating l.top; moved = []; blocks = some l.moved }

-- The loop over the entries that were read and the rename at its end; the process ends before the
-- rename number `left`. A directory cannot be renamed into itself.
move_entries : ℕ → List Entry → Layout → Ending × Layout
unfolding move_old put_in_place
move_entries zero entries l = (cut, l)
move_entries (suc left) [] l = (settled, put_in_place l)
move_entries (suc left) (migrating ∷ entries) l = (failed, l)
move_entries (suc left) (old name ∷ entries) l = move_entries left entries (move_old name l)

unread : ℕ → List Entry → Layout → Ending × Layout
unfolding make_tmp move_entries
unread left [] l = (settled, l)
unread left (e ∷ entries) l = move_entries left (e ∷ entries) (make_tmp l)

migrate_from : Option (List String) → ℕ → Layout → Ending × Layout
unfolding unread
migrate_from (some names) left l = (settled, l)
migrate_from none left l = unread left l.top l

unfoldable pub migrate_layout : ℕ → Layout → Ending × Layout
unfolding migrate_from
migrate_layout left l = migrate_from l.blocks left l

-- Several starts of the program, each with the renames that it lives to do.
unfoldable pub starts : List ℕ → Layout → Layout
starts [] l = l
starts (left ∷ lefts) l = starts lefts (migrate_layout left l).1
