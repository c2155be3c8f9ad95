-- ===== src/Cmd/Mounts/Escape.antt =====
-- cmd/proton-drive-fs/main.go: escaped mount fields.
use proton_drive_linux_fs.Base.{
  ℕ, ◌≡◌, ◌∙◌, ap, refl, false, ◌&&◌, [], ◌∷◌, ◌++◌, ◌==◌, same_bytes, arith,
}
use proton_drive_linux_fs.Cmd.Mounts.{Text, escape_char, escape_mount_field}

same-escape_char :
    (x y : ℕ) (u v : Text)
    → same_bytes (escape_char x ++ u) (escape_char y ++ v) ≡ (x == y && same_bytes u v)
unfolding escape_char same_bytes
same-escape_char x y u v = ground arith

never_empty :
    (y : ℕ) (v : Text)
    → (same_bytes [] (escape_char y ++ v) ≡ false) × (same_bytes (escape_char y ++ v) [] ≡ false)
unfolding escape_char same_bytes
never_empty y v = ground arith

-- Different strings have different escaped forms.
pub same-escape_mount_field :
    (a b : Text) → same_bytes (escape_mount_field a) (escape_mount_field b) ≡ same_bytes a b
unfolding escape_mount_field same_bytes
same-escape_mount_field [] [] = refl
same-escape_mount_field [] (y ∷ b) = (never_empty y (escape_mount_field b)).0
same-escape_mount_field (x ∷ a) [] = (never_empty x (escape_mount_field a)).1
same-escape_mount_field (x ∷ a) (y ∷ b) =
    same-escape_char x y (escape_mount_field a) (escape_mount_field b)
    ∙ ap (λ r. x == y && r) (same-escape_mount_field a b)
