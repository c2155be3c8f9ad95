-- ===== src/Witness/Commands.antt =====
-- Commands of cmd/proton-drive-fs at concrete inputs.
use proton_drive_linux_fs.Base.{
  ◌≡◌, ◌≤◌, ◌+◌, ◌/◌, refl, Bool, true, false, ◌||◌, [], ◌∷◌, ℕ, zero, suc, ◌*◌, ◌==◌, arith, inl,
  inr, same_bytes,
}
use proton_drive_linux_fs.Cmd.Mounts.{Text, fuse_type, mounted_at}
use proton_drive_linux_fs.Cmd.Mounts.Found.{
  Entry, proc_mounts, has_mount, Spaces, IsEntry, mounted_at-has_mount,
}
use proton_drive_linux_fs.Fusefs.Unmount.Mounted.{is_mounted, has_blank, is_mounted_misses}
use proton_drive_linux_fs.Cmd.Unmount.{Attempt, run_unmount, detached, busy_text}
use proton_drive_linux_fs.Cmd.Unmount.Ends.{Returns, run_unmount-Returns}

abbrev is_space : ℕ → Bool
is_space c = c == 32 || c == 10 || c == 9

-- "/a b" of the program's type.
abbrev entry : Entry
entry = record {
  device = 112 ∷ [];
  mountpoint = 47 ∷ 97 ∷ 32 ∷ 98 ∷ [];
  kind = fuse_type;
  rest = 114 ∷ 119 ∷ 32 ∷ 48 ∷ [];
}

is_space-Spaces : Spaces is_space
is_space-Spaces = record {
  space = refl;
  newline = refl;
  escapes = (refl, (refl, (refl, (refl, (refl, (refl, tt))))));
}

entry-IsEntry : IsEntry is_space entry
entry-IsEntry = record {
  device = ground arith;
  kind = ground arith;
  mountpoint = ((λ e. cc), (inl refl, (inl refl, (inr (inl refl), (inl refl, tt)))));
  rest = (refl, (refl, (refl, (refl, tt))));
}

mounted_at-has_mount_example :
    mounted_at is_space (proc_mounts (entry ∷ [])) entry.mountpoint
    ≡ has_mount entry.mountpoint (entry ∷ [])
mounted_at-has_mount_example =
    mounted_at-has_mount is_space is_space-Spaces entry.mountpoint (entry ∷ []) (entry-IsEntry, tt)

abbrev contains : Text → Text → Bool
contains s t = same_bytes s t

abbrev lower : Text → Text
lower s = s

-- Busy once, then free.
abbrev attempts : ℕ → Attempt
attempts zero = record { out = busy_text; failed = true }
attempts (suc n) = record { out = []; failed = false }

abbrev clock : ℕ → ℕ
clock i = 500 * i

forward : clock 0 ≤ clock 1
forward = omega arith

sleeps : (i : ℕ) → 1 ≤ i → clock i + 500 ≤ clock (suc i)
sleeps i h = omega arith

run_unmount-Returns_example :
    Returns contains lower clock attempts
      (detached [])
      (clock 0 + 5000)
      (5000 / 500 + 2)
      (run_unmount contains lower clock attempts [] false 5000 (5000 / 500 + 3))
run_unmount-Returns_example =
    run_unmount-Returns contains lower clock attempts [] false 5000 forward sleeps

is_mounted_misses_example :
    (is_mounted is_space (proc_mounts (entry ∷ [])) entry.mountpoint ≡ false)
    × (mounted_at is_space (proc_mounts (entry ∷ [])) entry.mountpoint
        ≡ has_mount entry.mountpoint (entry ∷ []))
unfolding has_blank
is_mounted_misses_example =
    is_mounted_misses is_space entry.mountpoint (entry ∷ []) is_space-Spaces (entry-IsEntry, tt)
      refl
