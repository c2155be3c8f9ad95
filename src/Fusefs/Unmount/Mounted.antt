-- ===== src/Fusefs/Unmount/Mounted.antt =====
-- internal/fusefs/fusefs.go: isMounted, which the unmount asks at its end, on the file that the kernel
-- writes.
use proton_drive_linux_fs.Base.{
  ℕ, Bool, true, false, ◌≡◌, refl, ap, sym, ◌∙◌, ◌||◌, ◌==◌, List, [], ◌∷◌, All, same_bytes, arith,
  Bool-cases, same_index, nat_same_iff, inl, inr,
}
use proton_drive_linux_fs.Cmd.Mounts.{Text, split_lines, fields, mounted_at}
use proton_drive_linux_fs.Cmd.Mounts.Unspaced.{Unspaced, fields-Unspaced}
use proton_drive_linux_fs.Cmd.Mounts.Found.{
  Entry, proc_mounts, has_mount, Spaces, IsEntry, mounted_at-has_mount,
}

-- The second field of a line is the path.
is_at : Text → List Text → Bool
is_at path (device ∷ at ∷ rest) = same_bytes at path
is_at path _ = false

-- Whether a path has the blank.
unfoldable pub has_blank : Text → Bool
has_blank [] = false
has_blank (c ∷ s) = let later = has_blank s in c == 32 || later

module _ (is_space : ℕ → Bool) where
  any_at : Text → List Text → Bool
  unfolding is_at
  any_at path [] = false
  any_at path (line ∷ lines) =
      let later = any_at path lines in is_at path (fields is_space line) || later

  -- `path` is the absolute path, or the path as given where that fails.
  unfoldable pub is_mounted : Text → Text → Bool
  unfolding any_at
  is_mounted text path = any_at path (split_lines text)

  differs :
      (s path : Text)
      → is_space 32 ≡ true
      → Unspaced is_space s
      → has_blank path ≡ true
      → same_bytes s path ≡ false
  unfolding same_bytes has_blank
  differs [] [] space h b = absurd (cc)
  differs [] (d ∷ path) space h b = refl
  differs (c ∷ s) [] space h b = refl
  differs (c ∷ s) (d ∷ path) space (h, hs) b = elim (Bool-cases (d == 32)) [
    | inl blank ↦ elim (same_index c d) [
      | inl (same, e) ↦ absurd (clash (e ∙ ((nat_same_iff d 32).0 blank)))
      | inr (away, apart) ↦ rw away refl
    ]
    | inr other ↦
        let later = sym (ap (λ x. x || has_blank path) other) ∙ b in
        let rest = differs s path space hs later in ground (arith, rest)
  ]
    where
      clash : c ≡ 32 → ⊥
      clash e = let k = sym h ∙ ap is_space e ∙ space in cc k

  any_at-blank :
      (path : Text) (lines : List Text)
      → is_space 32 ≡ true
      → has_blank path ≡ true
      → any_at path lines ≡ false
  unfolding any_at
  any_at-blank path [] space b = refl
  any_at-blank path (line ∷ lines) space b =
      let later = any_at-blank path lines space b in
      let here = is_at-blank (fields is_space line) (fields-Unspaced is_space line) in
      ground (arith, here, later)
    where
      is_at-blank : (fs : List Text) → All (Unspaced is_space) fs → is_at path fs ≡ false
      is_at-blank [] h = refl
      is_at-blank (device ∷ []) h = refl
      is_at-blank (device ∷ at ∷ rest) (h, (k, l)) = differs at path space k b

  -- Where space and newline are spaces and the characters of an octal escape are not, on the lines
  -- that the kernel writes for mounts as mountedAt expects them: of a mountpoint with a blank
  -- isMounted says that it is not mounted, whatever is mounted, while mountedAt says true exactly
  -- if it is and is of this program's type.
  pub is_mounted_misses :
      (mountpoint : Text) (es : List Entry)
      → Spaces is_space
      → All (IsEntry is_space) es
      → has_blank mountpoint ≡ true
      → (is_mounted (proc_mounts es) mountpoint ≡ false)
        × (mounted_at is_space (proc_mounts es) mountpoint ≡ has_mount mountpoint es)
  unfolding is_mounted
  is_mounted_misses mountpoint es v h b = (
    any_at-blank mountpoint (split_lines (proc_mounts es)) v.space b,
    mounted_at-has_mount is_space v mountpoint es h,
  )
