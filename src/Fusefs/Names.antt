-- ===== src/Fusefs/Names.antt =====
-- internal/fusefs/fusefs.go: Mkdir, Unlink, Rmdir and Rename of a directory's entries, between the
-- drive and the local store. What they do is a list of effects, last first.
use proton_drive_linux_fs.Base.{
  String, Bool, true, false, not, ◌&&◌, ◌||◌, Option, none, some, List, [], ◌∷◌, ◌++◌, ◌⊎◌, inl,
  inr, if◌then◌else◌,
}
use proton_drive_linux_fs.Fusefs.Release.{Errno, success, eio, etimedout, enoent, exdev}

pub record Node : Type 0 where
  pub link_id : String
  pub name : String
  pub is_dir : Bool

-- What one directory's operations find: storedPath and localPath of a name, excluded names, and
-- findChild.
pub record Directory : Type 0 where
  pub stored : String → Option String
  pub local_path : String → Option String
  pub excluded : String → Bool
  pub keeps_local : String → Bool
  pub has_local : Bool
  pub find : String → Errno ⊎ Node

pub data Effect : Type 0 where
  -- on local disk
  made_parents local_made local_unlinked local_removed : String → Effect
  local_moved : String → String → Effect
  -- on the drive and in the cached listing
  folder_made trashed : String → Effect
  child_upserted child_removed : String → Effect

abbrev pub Outcome : Type 0
Outcome = Errno × List Effect

-- A call on the drive: whether it failed, and whether its deadline had passed.
pub record DriveCall : Type 0 where
  pub failed : Bool
  pub late : Bool

abbrev is_success : Errno → Bool
is_success success = true
is_success _ = false

abbrev is_enoent : Errno ⊎ Node → Bool
is_enoent (inl enoent) = true
is_enoent _ = false

unfoldable pub on_drive : Directory → String → Bool
on_drive d name = not (is_enoent (d.find name))

unfoldable pub local_entry : Directory → String → Option String
local_entry d name = elim (d.stored name) [
  | none ↦ none
  | some p ↦ if d.excluded name || not (on_drive d name) then some p else none
]

abbrev drive_errno : DriveCall → Errno
drive_errno call = if call.late then etimedout else eio

-- `mkdir_all` and `mkdir` are the errnos of the calls on local disk, `looked_up` that of lookupLocal.
unfoldable pub mkdir : Directory → DriveCall → Errno → Errno → Errno → String → Outcome
mkdir d call mkdir_all made looked_up name = elim (d.local_path name) [
  | some p ↦
      if not (is_success mkdir_all)
      then (mkdir_all, [])
      else if not (is_success made)
      then (made, made_parents p ∷ [])
      else (looked_up, local_made p ∷ made_parents p ∷ [])
  | none ↦
      if call.failed
      then (drive_errno call, [])
      else (success, child_upserted name ∷ folder_made name ∷ [])
]

-- `mirror` is removeLocalMirror of the target's path in the local store.
removed_node : Directory → DriveCall → Errno → String → Errno ⊎ Node → Outcome
removed_node d call mirror name (inl errno) = (errno, [])
removed_node d call mirror name (inr target) =
    if target.is_dir && d.has_local && not (is_success mirror)
    then (mirror, [])
    else if call.failed
    then (drive_errno call, [])
    else (success, child_removed name ∷ trashed target.link_id ∷ [])

unfoldable pub remove : Directory → DriveCall → Errno → String → Outcome
unfolding removed_node
remove d call mirror name = removed_node d call mirror name (d.find name)

-- `settled` says that the file's write handle was all there was to remove (Steps.unlink).
unfoldable pub unlink : Directory → DriveCall → Errno → Errno → Bool → String → Outcome
unlink d call mirror unlinked settled name =
    let other : Outcome = elim (local_entry d name) [
      | some p ↦ (unlinked, (if is_success unlinked then local_unlinked p ∷ [] else []))
      | none ↦ remove d call mirror name
    ] in
    if settled then (success, []) else other

unfoldable pub rmdir : Directory → DriveCall → Errno → Errno → String → Outcome
rmdir d call mirror removed name = elim (local_entry d name) [
  | some p ↦ (removed, (if is_success removed then local_removed p ∷ [] else []))
  | none ↦ remove d call mirror name
]

-- A local-only entry: into a directory of the drive that would not keep it, it can only be copied.
local_rename : Option Directory → (String → String) → Errno → Errno → String → String → Outcome
local_rename to joined mkdir_all renamed src new_name =
    let dst = joined new_name in
    let moved : Outcome = if not (is_success mkdir_all) then (mkdir_all, []) else (
      renamed,
      (if is_success renamed then local_moved src dst ∷ [] else []) ++ made_parents dst ∷ [],
    ) in
    elim to [ none ↦ moved | some dir ↦ if dir.keeps_local new_name then moved else (exdev, []) ]

-- How Rename goes on, once its flags are known to be plain: with a move on local disk, with
-- renamePending of a file that is not on the drive, with moveLink of a node, or not at all.
pub data Way : Type 0 where
  on_disk : Outcome → Way
  pending_file : Way
  on_the_drive : Node → Way
  no_way : Errno → Way

drive_rename : Option Directory → String → Errno ⊎ Node → Way
drive_rename none new_name found = no_way exdev
drive_rename (some dir) new_name (inl enoent) = pending_file
drive_rename (some dir) new_name (inl errno) = no_way errno
drive_rename (some dir) new_name (inr target) =
    if dir.has_local && dir.excluded new_name then no_way exdev else on_the_drive target

-- `to` is the new parent, none when it is a local-only folder, and `joined` where a name of it is in the
-- local store; `pending` says that the file under the old name is not on the drive yet.
unfoldable pub rename_way :
    Directory → Option Directory → (String → String) → Errno → Errno → Bool → String → String → Way
unfolding local_rename drive_rename
rename_way d to joined mkdir_all renamed pending name new_name =
    let other = drive_rename to new_name (d.find name) in
    elim (local_entry d name) [
      | none ↦ other
      | some src ↦
          if pending then other else on_disk (local_rename to joined mkdir_all renamed src new_name)
    ]
