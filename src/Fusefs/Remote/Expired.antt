-- ===== src/Fusefs/Remote/Expired.antt =====
-- internal/fusefs/fusefs.go: which listings a remote event expires.
use proton_drive_linux_fs.Base.{
  ◌≡◌, refl, ◌∙◌, ap, String, Bool, not, ◌&&◌, ◌||◌, some, List, [], ◌∷◌, if◌then◌else◌, str_eq,
  eq_iff, lookup, string_key, lookup-insert, Option-cases, inl, inr, arith,
}
use proton_drive_linux_fs.Drive.Events.{
  Kind, deleted, updated, other_kind, Event, change, refreshed,
}
use proton_drive_linux_fs.Fusefs.Remote.{
  Dir, Mount, expired, parents_to_invalidate, invalidate_dir, invalidate_dirs, invalidate_all,
  all_expired, old_parent, forget_children, forget_parent, forget_deleted, content_changed,
  invalidate_file_content, is_in, handle,
}

lookup-invalidate_dir :
    (id k : String) (d : Dir) (m : Mount)
    → lookup k m.dirs ≡ some d
    → lookup k (invalidate_dir id m).dirs ≡ some (if str_eq id k then expired d else d)
unfolding invalidate_dir
lookup-invalidate_dir id k d m h = elim (Option-cases (lookup id m.dirs)) [
  | inl e ↦ rw (e, invalidate_dir) (ground (arith, h, e, eq_iff id k))
  | inr (x, e) ↦
      rw (e, invalidate_dir)
        (ground (arith, h, e, eq_iff id k, lookup-insert id k (expired x) m.dirs))
]

lookup-invalidate_dirs :
    (ids : List String) (k : String) (d : Dir) (m : Mount)
    → lookup k m.dirs ≡ some d
    → lookup k (invalidate_dirs ids m).dirs ≡ some (if is_in k ids then expired d else d)
unfolding invalidate_dirs
lookup-invalidate_dirs [] k d m h = h
lookup-invalidate_dirs (id ∷ ids) k d m h = ground (
  arith,
  lookup-invalidate_dir id k d m h,
  lookup-invalidate_dirs ids k (if str_eq id k then expired d else d) (invalidate_dir id m),
)

forget_deleted-dirs :
    (kind : Kind) (link : String) (m : Mount) → (forget_deleted kind link m).dirs ≡ m.dirs
unfolding forget_deleted forget_children forget_parent
forget_deleted-dirs deleted link m = ground arith
forget_deleted-dirs updated link m = refl
forget_deleted-dirs other_kind link m = refl

content_changed-dirs :
    (kind : Kind) (ev : Event) (m : Mount) → (content_changed kind ev m).dirs ≡ m.dirs
unfolding content_changed invalidate_file_content
content_changed-dirs updated ev m = ground arith
content_changed-dirs deleted ev m = refl
content_changed-dirs other_kind ev m = refl

-- Whether an event concerns a directory.
abbrev pub concerns : String → Event → Mount → Bool
concerns k ev m = not (str_eq k "") && (str_eq ev.parent_id k || str_eq (old_parent ev.link_id m) k)

is_in-parents :
    (k new_parent old : String)
    → is_in k (parents_to_invalidate new_parent old)
      ≡ (not (str_eq k "") && (str_eq new_parent k || str_eq old k))
unfolding parents_to_invalidate
is_in-parents k new_parent old = ground (
  arith,
  eq_iff k "",
  eq_iff new_parent "",
  eq_iff old "",
  eq_iff old new_parent,
  eq_iff new_parent k,
  eq_iff old k,
)

-- After an event other than a refresh, a registered directory has expired if it is the event's
-- parent or the parent known for its link before, and is otherwise as it was.
pub handle_expires :
    (ev : Event) (k : String) (d : Dir) (m : Mount)
    → lookup k m.dirs ≡ some d
    → lookup k (handle (change ev) m).dirs ≡ some (if concerns k ev m then expired d else d)
unfolding handle
handle_expires ev k d m h =
    ap (lookup k) (forget_deleted-dirs ev.kind ev.link_id _ ∙ content_changed-dirs ev.kind ev _)
    ∙ lookup-invalidate_dirs (parents_to_invalidate ev.parent_id (old_parent ev.link_id m)) k d m h
    ∙ ap (λ b. some (if b then expired d else d))
        (is_in-parents k ev.parent_id (old_parent ev.link_id m))

lookup-all_expired :
    (k : String) (d : Dir) (ds : List (String × Dir))
    → lookup k ds ≡ some d
    → lookup k (all_expired ds) ≡ some (expired d)
unfolding lookup
lookup-all_expired k d [] h = absurd (ground arith)
lookup-all_expired k d ((id, x) ∷ ds) h = ground (arith, lookup-all_expired k d ds)

-- After a refresh event every registered directory has expired.
pub refresh_expires :
    (k : String) (d : Dir) (m : Mount)
    → lookup k m.dirs ≡ some d
    → lookup k (handle refreshed m).dirs ≡ some (expired d)
unfolding handle invalidate_all
refresh_expires k d m h = lookup-all_expired k d m.dirs h
