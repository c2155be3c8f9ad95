-- ===== src/Drive/BlockCache/Layout/Stuck.antt =====
-- internal/drive/cache.go: a migration of the layout that the process did not live to end.
use proton_drive_linux_fs.Base.{
  ℕ, zero, suc, ◌≡◌, ◌≢◌, refl, ◌∙◌, String, true, Option, none, some, List, [], ◌∷◌, ◌++◌, arith,
  Bool-cases, inl, inr,
}
use proton_drive_linux_fs.Drive.BlockCache.Layout.{
  Entry, old, migrating, Layout, settled, cut, has_migrating, make_tmp, without_old, move_old,
  move_entries, unread, migrate_from, migrate_layout, starts,
}

-- There is a blocks.migrating, and no blocks.
record Stuck (l : Layout) : Type 0 where
  begun : has_migrating l.top ≡ true
  missing : l.blocks ≡ none

without_old-has_migrating :
    (name : String) (es : List Entry) → has_migrating (without_old name es) ≡ has_migrating es
unfolding without_old has_migrating
without_old-has_migrating name [] = refl
without_old-has_migrating name (migrating ∷ es) = refl
without_old-has_migrating name (old other ∷ es) = ground (arith, without_old-has_migrating name es)

move_old-Stuck : (name : String) (l : Layout) → Stuck l → Stuck (move_old name l)
unfolding move_old
move_old-Stuck name l v = record {
  begun = without_old-has_migrating name l.top ∙ v.begun;
  missing = v.missing;
}

append-has_migrating : (es : List Entry) → has_migrating (es ++ migrating ∷ []) ≡ true
unfolding has_migrating
append-has_migrating [] = refl
append-has_migrating (migrating ∷ es) = refl
append-has_migrating (old name ∷ es) = append-has_migrating es

make_tmp-Stuck : (l : Layout) → l.blocks ≡ none → Stuck (make_tmp l)
unfolding make_tmp
make_tmp-Stuck l missing = elim (Bool-cases (has_migrating l.top)) [
  | inl there ↦ rw (there, make_tmp) (record { begun = there; missing = missing })
  | inr not_there ↦
      rw (not_there, make_tmp) (record { begun = append-has_migrating l.top; missing = missing })
]

-- A loop that is cut leaves blocks.migrating.
move_entries-cut :
    (left : ℕ) (entries : List Entry) (l : Layout)
    → Stuck l
    → (move_entries left entries l).0 ≡ cut
    → Stuck (move_entries left entries l).1
unfolding move_entries
move_entries-cut zero entries l v h = v
move_entries-cut (suc left) [] l v h = absurd (cc)
move_entries-cut (suc left) (migrating ∷ entries) l v h = v
move_entries-cut (suc left) (old name ∷ entries) l v h =
    move_entries-cut left entries (move_old name l) (move_old-Stuck name l v) h

-- A loop that comes to blocks.migrating itself does not get past it.
move_entries-Stuck :
    (left : ℕ) (entries : List Entry) (l : Layout)
    → has_migrating entries ≡ true
    → Stuck l
    → ((move_entries left entries l).0 ≢ settled) × Stuck (move_entries left entries l).1
unfolding move_entries has_migrating
move_entries-Stuck zero entries l m v = ((λ h. cc), v)
move_entries-Stuck (suc left) [] l m v = absurd (cc)
move_entries-Stuck (suc left) (migrating ∷ entries) l m v = ((λ h. cc), v)
move_entries-Stuck (suc left) (old name ∷ entries) l m v =
    move_entries-Stuck left entries (move_old name l) m (move_old-Stuck name l v)

unread-Stuck :
    (left : ℕ) (entries : List Entry) (l : Layout)
    → has_migrating entries ≡ true
    → l.blocks ≡ none
    → ((unread left entries l).0 ≢ settled) × Stuck (unread left entries l).1
unfolding unread has_migrating
unread-Stuck left [] l m missing = absurd (cc)
unread-Stuck left (e ∷ entries) l m missing =
    move_entries-Stuck left (e ∷ entries) (make_tmp l) m (make_tmp-Stuck l missing)

unread-cut :
    (left : ℕ) (entries : List Entry) (l : Layout)
    → l.blocks ≡ none
    → (unread left entries l).0 ≡ cut
    → Stuck (unread left entries l).1
unfolding unread
unread-cut left [] l missing h = absurd (cc)
unread-cut left (e ∷ entries) l missing h =
    move_entries-cut left (e ∷ entries) (make_tmp l) (make_tmp-Stuck l missing) h

migrate_layout-Stuck :
    (left : ℕ) (l : Layout)
    → Stuck l
    → ((migrate_layout left l).0 ≢ settled) × Stuck (migrate_layout left l).1
unfolding migrate_layout migrate_from
migrate_layout-Stuck left l v = from l.blocks v.missing
  where
    from :
        (o : Option (List String))
        → o ≡ none
        → ((migrate_from o left l).0 ≢ settled) × Stuck (migrate_from o left l).1
    from none e = unread-Stuck left l.top l v.begun v.missing
    from (some names) e = absurd (cc)

migrate_layout-cut :
    (left : ℕ) (l : Layout)
    → l.blocks ≡ none
    → (migrate_layout left l).0 ≡ cut
    → Stuck (migrate_layout left l).1
unfolding migrate_layout migrate_from
migrate_layout-cut left l missing h = from l.blocks missing h
  where
    from :
        (o : Option (List String))
        → o ≡ none
        → (migrate_from o left l).0 ≡ cut
        → Stuck (migrate_from o left l).1
    from none e k = unread-cut left l.top l missing k
    from (some names) e k = absurd (cc)

starts-Stuck : (lefts : List ℕ) (l : Layout) → Stuck l → Stuck (starts lefts l)
unfolding starts
starts-Stuck [] l v = v
starts-Stuck (left ∷ lefts) l v =
    starts-Stuck lefts (migrate_layout left l).1 (migrate_layout-Stuck left l v).1

-- If a start of the program finds no blocks directory and ends in the middle of migrateLayout,
-- after any number of renames, then however many starts follow, each of which may end in the middle
-- as well, none of them comes to the end of migrateLayout without an error.
pub cut_migration_sticks :
    (left again : ℕ) (lefts : List ℕ) (l : Layout)
    → l.blocks ≡ none
    → (migrate_layout left l).0 ≡ cut
    → (migrate_layout again (starts lefts (migrate_layout left l).1)).0 ≢ settled
cut_migration_sticks left again lefts l missing h =
    let later =
      starts-Stuck lefts (migrate_layout left l).1 (migrate_layout-cut left l missing h) in
    (migrate_layout-Stuck again (starts lefts (migrate_layout left l).1) later).0
