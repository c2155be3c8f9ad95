-- ===== src/Tray.antt =====
-- internal/tray/tray.go: what the tray shows: its icon's state, the status line, the tooltip, the menu.
-- `show` prints a number in decimal; `show_size` is FormatSize.
use Prim.Native.String.{◌++◌ as str_append}
use proton_drive_linux_fs.Base.{
  ℕ, ◌+◌, ◌*◌, ◌/◌, String, Bool, not, ◌&&◌, List, [], ◌∷◌, ltb, ◌==◌, if◌then◌else◌, length,
  str_eq,
}

pub data Shown : Type 0 where
  logged_out paused unmounted syncing online : Shown

unfoldable pub pick_state : Bool → Bool → Bool → ℕ → Bool → Shown
pick_state logged_in mounted is_paused transfers fresh =
    if not logged_in
    then logged_out
    else if is_paused
    then paused
    else if not mounted
    then unmounted
    else if fresh && ltb 0 transfers
    then syncing
    else online

-- state.CurrentTransfer and state.RecentTransfer
pub record CurrentTransfer : Type 0 where
  pub path : String
  pub action : String
  pub bytes : ℕ
  pub total : ℕ

pub record RecentTransfer : Type 0 where
  pub path : String
  pub status : String
  pub bytes : ℕ
  pub error : String

pub record Snapshot : Type 0 where
  pub logged_in : Bool
  pub mounted : Bool
  pub is_paused : Bool
  pub transfers : ℕ
  pub fresh : Bool
  pub uploads_queued : ℕ
  pub uploads_done : ℕ
  pub uploads_failed : ℕ
  pub current : List CurrentTransfer
  pub own_version : String
  pub daemon_version : String

unfoldable pub state : Snapshot → Shown
state sn = pick_state sn.logged_in sn.mounted sn.is_paused sn.transfers sn.fresh

unfoldable pub uploading : Snapshot → Bool
uploading sn = ltb (sn.uploads_done + sn.uploads_failed) sn.uploads_queued

unfoldable pub daemon_mismatch : Snapshot → Bool
daemon_mismatch sn =
    sn.fresh
    && not (str_eq sn.daemon_version "")
    && not (str_eq sn.own_version "")
    && not (str_eq sn.daemon_version sn.own_version)

module _ (show show_size : ℕ → String) where
  -- The middle of the status line.
  activity : Snapshot → String
  activity sn =
      let progress =
        str_append ", syncing "
          (str_append (show sn.uploads_done) (str_append "/" (show sn.uploads_queued))) in
      if sn.is_paused
      then " (paused)"
      else if sn.fresh && uploading sn
      then progress
      else if sn.fresh && ltb 0 sn.transfers
      then " (syncing)"
      else ""

  unfoldable pub status_line : Snapshot → String → String
  unfolding activity
  status_line sn mountpoint =
      let failures =
        if sn.fresh && ltb 0 sn.uploads_failed
        then str_append ", " (str_append (show sn.uploads_failed) " failed")
        else "" in
      let restart =
        if daemon_mismatch sn
        then str_append " (daemon " (str_append sn.daemon_version ", restart needed)")
        else "" in
      let line =
        str_append "Mounted at "
          (str_append mountpoint (str_append (activity sn) (str_append failures restart))) in
      if not sn.logged_in
      then "Not logged in"
      else if str_eq mountpoint ""
      then "No mountpoint configured"
      else if not sn.mounted
      then "Not mounted"
      else line

  unfoldable pub transfer_line : CurrentTransfer → String
  transfer_line t =
      let verb = if str_eq t.action "download" then "Downloading" else "Uploading" in
      let plain = str_append verb (str_append " " t.path) in
      if t.total == 0
      then plain
      else str_append plain (str_append " " (str_append (show (t.bytes * 100 / t.total)) "%"))

  tooltip_of : String → List CurrentTransfer → String
  unfolding transfer_line
  tooltip_of line [] = line
  tooltip_of line (t ∷ []) = transfer_line t
  tooltip_of line (t ∷ u ∷ more) =
      str_append (transfer_line t)
        (str_append " and " (str_append (show (length (u ∷ more))) " more"))

  unfoldable pub tooltip_for : Snapshot → String → String
  unfolding tooltip_of
  tooltip_for sn mountpoint = tooltip_of (status_line sn mountpoint) sn.current

  unfoldable pub recent_line : RecentTransfer → String
  recent_line rt =
      if str_eq rt.status "failed"
      then str_append "✗ " (str_append rt.path (str_append ": " rt.error))
      else str_append "✓ "
          (str_append rt.path (str_append " (" (str_append (show_size rt.bytes) ")")))

-- In seconds.
unfoldable pub refresh_interval : Snapshot → ℕ
refresh_interval sn = if ltb 0 (length sn.current) then 1 else 2

pub record MenuVisibility : Type 0 where
  pub mount : Bool
  pub unmount : Bool
  pub restart : Bool
  pub pause : Bool
  pub open_folder : Bool
  pub login : Bool
  pub logout : Bool

unfoldable pub visibility_for : Bool → Bool → Bool → MenuVisibility
visibility_for logged_in mounted configured = record {
  mount = logged_in && not mounted && configured;
  unmount = mounted && configured;
  restart = mounted && configured;
  pause = mounted && configured;
  open_folder = mounted && configured;
  login = not logged_in;
  logout = logged_in;
}
