-- ===== src/Cmd/Unmount.antt =====
-- cmd/proton-drive-fs/main.go: the unmount command, and the end of a previous daemon. Times are in
-- milliseconds. What fusermount, the clock and the other processes answer is an argument.
pub mod Ends
use proton_drive_linux_fs.Base.{
  ℕ, zero, suc, ◌+◌, ◌-◌, Bool, true, false, not, ◌&&◌, ◌||◌, Option, none, some, List, [], ◌∷◌,
  ◌++◌, ltb, ◌==◌, if◌then◌else◌, same_bytes,
}
use proton_drive_linux_fs.Cmd.Mounts.{Text}

-- One run of fusermount: its output and whether it failed.
pub record Attempt : Type 0 where
  pub out : Text
  pub failed : Bool

-- "not found in" and "busy"
abbrev pub not_found_text : Text
not_found_text = 110 ∷ 111 ∷ 116 ∷ 32 ∷ 102 ∷ 111 ∷ 117 ∷ 110 ∷ 100 ∷ 32 ∷ 105 ∷ 110 ∷ []

abbrev pub busy_text : Text
busy_text = 98 ∷ 117 ∷ 115 ∷ 121 ∷ []

-- A process that uses the mountpoint.
pub record Holder : Type 0 where
  pub pid : ℕ
  pub comm : Text

-- How the command ended: unmounted, or not mounted any more; given up at an error; detached lazily
-- while the holders go on, or not even that.
pub data Outcome : Type 0 where
  unmounted already : Outcome
  refused : Attempt → Outcome
  detached stuck : List Holder → Outcome

unfoldable pub exit_code : Outcome → ℕ
exit_code unmounted = 0
exit_code already = 0
exit_code (refused a) = 1
exit_code (detached holders) = 0
exit_code (stuck holders) = 1

-- `contains` and `lower` are those of strings.
module _ (contains : Text → Text → Bool) (lower : Text → Text) where
  unfoldable pub not_mounted : Text → Bool
  not_mounted out = contains out not_found_text

  unfoldable pub is_busy : Attempt → Bool
  is_busy a = a.failed && contains (lower a.out) busy_text

  -- `lazy_fails` is whether the lazy unmount fails.
  unfoldable pub unmount_lazy_with_holders : List Holder → Bool → Outcome
  unmount_lazy_with_holders holders lazy_fails =
      if lazy_fails then stuck holders else detached holders

  -- The answer to a plain unmount that ends the loop; `none` is another round.
  unfoldable pub answer : Attempt → Option Outcome
  unfolding not_mounted is_busy
  answer a =
      if not a.failed
      then some unmounted
      else if not_mounted a.out
      then some already
      else if not (is_busy a)
      then some (refused a)
      else none

  next : Option Outcome → Option (Outcome × ℕ) → ℕ → Option (Outcome × ℕ)
  next none rest made = rest
  next (some o) rest made = some (o, made)

  -- The loop of runUnmount from attempt `made` on: `clock` is the time before an attempt, `attempts`
  -- what it answers. The outcome comes with the number of attempts; `none` means that the fuel ran
  -- out.
  pub unmount_loop : (ℕ → ℕ) → (ℕ → Attempt) → Outcome → ℕ → ℕ → ℕ → Option (Outcome × ℕ)
  unfolding next answer
  unmount_loop clock attempts lazily deadline zero made = none
  unmount_loop clock attempts lazily deadline (suc fuel) made =
      let rest = unmount_loop clock attempts lazily deadline fuel (suc made) in
      let tried = next (answer (attempts made)) rest (suc made) in
      if made == 0
      then tried
      else if not (ltb (clock made) deadline)
      then some (lazily, made)
      else tried

  -- runUnmount without -force: `clock 0` is the time when the deadline is set.
  unfoldable pub run_unmount :
      (ℕ → ℕ) → (ℕ → Attempt) → List Holder → Bool → ℕ → ℕ → Option (Outcome × ℕ)
  unfolding unmount_loop unmount_lazy_with_holders
  run_unmount clock attempts holders lazy_fails wait fuel =
      unmount_loop clock attempts (unmount_lazy_with_holders holders lazy_fails) (clock 0 + wait)
        fuel 0

-- runUnmountForce: the exit code, from whether the lazy unmount failed, whether the connection was
-- found, and whether its abort file was there and could be written.
unfoldable pub abort_fuse_connection : Bool → Bool → Bool
abort_fuse_connection there written = there && written

unfoldable pub run_unmount_force : Bool → Bool → Bool → Bool → ℕ
unfolding abort_fuse_connection
run_unmount_force lazy_failed found there written =
    let aborted = found && abort_fuse_connection there written in
    if not lazy_failed || aborted then 0 else 1

-- A target at the mountpoint or below it; `has_prefix` is strings.HasPrefix.
unfoldable pub under_mount : (Text → Text → Bool) → Text → Text → Bool
under_mount has_prefix mountpoint target =
    same_bytes target mountpoint || has_prefix target (mountpoint ++ 47 ∷ [])

any_under : (Text → Bool) → List (Option Text) → Bool
any_under under [] = false
any_under under (none ∷ targets) = any_under under targets
any_under under (some t ∷ targets) = under t || any_under under targets

-- The targets of cwd, root and exe, and of the descriptors, where they can be read.
unfoldable pub process_holds :
    (Text → Bool) → List (Option Text) → Option (List (Option Text)) → Bool
unfolding any_under
process_holds under links fds =
    if any_under under links
    then true
    else elim fds [ none ↦ false | some targets ↦ any_under under targets ]

-- An entry of /proc: its number, if it has one, its links and descriptors, and its trimmed comm.
pub record Process : Type 0 where
  pub pid : Option ℕ
  pub links : List (Option Text)
  pub fds : Option (List (Option Text))
  pub comm : Option Text

holder_of : (Text → Bool) → Process → Option ℕ → Option Text → List Holder
unfolding process_holds
holder_of under p none comm = []
holder_of under p (some pid) none = []
holder_of under p (some pid) (some comm) =
    if process_holds under p.links p.fds then record { pid = pid; comm = comm } ∷ [] else []

unfoldable pub mount_holders : (Text → Text → Bool) → Text → List Process → List Holder
unfolding holder_of under_mount
mount_holders has_prefix mountpoint [] = []
mount_holders has_prefix mountpoint (p ∷ ps) =
    holder_of (under_mount has_prefix mountpoint) p p.pid p.comm
    ++ mount_holders has_prefix mountpoint ps
