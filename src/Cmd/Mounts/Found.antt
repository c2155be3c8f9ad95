-- ===== src/Cmd/Mounts/Found.antt =====
-- cmd/proton-drive-fs/main.go: mountedAt on the file that the kernel writes.
use proton_drive_linux_fs.Base.{
  Bool-cases, ℕ, ◌≡◌, ◌≢◌, ◌⊎◌, inl, inr, ◌∙◌, ap, refl, sym, subst, Bool, true, false, ◌&&◌, ◌||◌,
  List, [], ◌∷◌, ◌++◌, ◌==◌, same_bytes, arith, All, append_assoc, append-nil, nat_same_iff, ◌+◌,
  ◌/◌, ◌%◌, if◌then◌else◌,
}
use proton_drive_linux_fs.Cmd.Mounts.{
  Text, escape_char, escape_mount_field, fuse_type, on_first, split_lines, flush, fields_from,
  fields, is_mount, any_mount, mounted_at,
}
use proton_drive_linux_fs.Cmd.Mounts.Escape.{same-escape_mount_field}

-- A line of /proc/self/mounts: the device, the mountpoint, the type, and the rest of the line.
pub record Entry : Type 0 where
  pub device : Text
  pub mountpoint : Text
  pub kind : Text
  pub rest : Text

-- The kernel's escapes in a mount's path: blank, tab, newline and backslash as three octal digits.
abbrev pub kernel_char : ℕ → Text
kernel_char c =
    if c == 32 || c == 9 || c == 10 || c == 92
    then 92 ∷ (48 + c / 64) ∷ (48 + c / 8 % 8) ∷ (48 + c % 8) ∷ []
    else c ∷ []

abbrev pub kernel_field : Text → Text
kernel_field [] = []
kernel_field (c ∷ s) = kernel_char c ++ kernel_field s

abbrev pub line : Entry → Text
line e = e.device ++ 32 ∷ (kernel_field e.mountpoint ++ 32 ∷ (e.kind ++ 32 ∷ e.rest))

-- As the kernel writes it.
abbrev pub proc_mounts : List Entry → Text
proc_mounts [] = []
proc_mounts (e ∷ es) = line e ++ 10 ∷ proc_mounts es

-- Whether one of the mounts is of that mountpoint and of the program's type.
abbrev pub has_mount : Text → List Entry → Bool
has_mount mountpoint [] = false
has_mount mountpoint (e ∷ es) =
    same_bytes e.mountpoint mountpoint && same_bytes e.kind fuse_type || has_mount mountpoint es

-- Space and newline are spaces; the backslash and the octal digits that stand for one are not.
pub record Spaces (is_space : ℕ → Bool) : Type 0 where
  pub space : is_space 32 ≡ true
  pub newline : is_space 10 ≡ true
  pub escapes : All (λ c. is_space c ≡ false) (92 ∷ 48 ∷ 49 ∷ 50 ∷ 51 ∷ 52 ∷ [])

abbrev pub Solid : (ℕ → Bool) → Text → Type 0
Solid is_space s = (s ≢ []) × All (λ c. is_space c ≡ false) s

-- The mountpoint has no spaces but those that are escaped.
pub record IsEntry (is_space : ℕ → Bool) (e : Entry) : Type 0 where
  pub device : Solid is_space e.device
  pub kind : Solid is_space e.kind
  pub mountpoint :
      (e.mountpoint ≢ [])
      × All (λ c. (is_space c ≡ false) ⊎ (c ≡ 32) ⊎ (c ≡ 9) ⊎ (c ≡ 10)) e.mountpoint
  pub rest : All (λ c. (c == 10) ≡ false) e.rest

kernel_char-escape_char : (c : ℕ) → kernel_char c ≡ escape_char c
unfolding escape_char
kernel_char-escape_char c =
    ground (arith, nat_same_iff c 32, nat_same_iff c 9, nat_same_iff c 10, nat_same_iff c 92)

kernel_field-escape_mount_field : (s : Text) → kernel_field s ≡ escape_mount_field s
unfolding escape_mount_field
kernel_field-escape_mount_field [] = refl
kernel_field-escape_mount_field (c ∷ s) =
    ap (λ x. x ++ kernel_field s) (kernel_char-escape_char c)
    ∙ ap (λ x. escape_char c ++ x) (kernel_field-escape_mount_field s)

abbrev whole_line : Entry → Text → Text
whole_line e path = e.device ++ 32 ∷ (path ++ 32 ∷ (e.kind ++ 32 ∷ e.rest))

All-append : (P : ℕ → Type 0) (xs ys : Text) → All P xs → All P ys → All P (xs ++ ys)
All-append P [] ys h k = k
All-append P (x ∷ xs) ys (h, hs) k = (h, All-append P xs ys hs k)

split_lines-append :
    (l s : Text) → All (λ c. (c == 10) ≡ false) l → split_lines (l ++ 10 ∷ s) ≡ l ∷ split_lines s
unfolding split_lines on_first
split_lines-append [] s h = refl
split_lines-append (c ∷ l) s (h, hs) = rw h (ap (on_first c) (split_lines-append l s hs))

flush_word : (w : Text) (rest : List Text) → w ≢ [] → flush w rest ≡ w ∷ rest
unfolding flush
flush_word [] rest h = absurd (h refl)
flush_word (c ∷ w) rest h = refl

module _ (is_space : ℕ → Bool) (v : Spaces is_space) where
  fields_from-append :
      (word w s : Text)
      → All (λ c. is_space c ≡ false) w
      → fields_from is_space word (w ++ 32 ∷ s) ≡ flush (word ++ w) (fields_from is_space [] s)
  unfolding fields_from
  fields_from-append word [] s h =
      rw v.space (ap (λ x. flush x (fields_from is_space [] s)) (sym (append-nil word)))
  fields_from-append word (c ∷ w) s (h, hs) = rw h (
      fields_from-append (word ++ c ∷ []) w s hs
      ∙ ap (λ x. flush x (fields_from is_space [] s)) (append_assoc word (c ∷ []) w))

  fields-append :
      (w s : Text) → Solid is_space w → fields is_space (w ++ 32 ∷ s) ≡ w ∷ fields is_space s
  unfolding fields
  fields-append w s (some_char, h) =
      fields_from-append [] w s h ∙ flush_word w (fields_from is_space [] s) some_char

  escape_char-Solid :
      (c : ℕ)
      → (is_space c ≡ false) ⊎ (c ≡ 32) ⊎ (c ≡ 9) ⊎ (c ≡ 10)
      → All (λ d. is_space d ≡ false) (escape_char c)
  unfolding escape_char
  escape_char-Solid c h = let e = v.escapes in ground (arith, e)

  escaped-Solid :
      (s : Text)
      → All (λ c. (is_space c ≡ false) ⊎ (c ≡ 32) ⊎ (c ≡ 9) ⊎ (c ≡ 10)) s
      → All (λ c. is_space c ≡ false) (escape_mount_field s)
  unfolding escape_mount_field
  escaped-Solid [] h = tt
  escaped-Solid (c ∷ s) (h, hs) =
      All-append (λ d. is_space d ≡ false) (escape_char c) _ (escape_char-Solid c h)
        (escaped-Solid s hs)

  not_newline : (c : ℕ) → is_space c ≡ false → (c == 10) ≡ false
  not_newline c h = elim (Bool-cases (c == 10)) [
    | inl same ↦ absurd (clash (subst (λ d. is_space d ≡ false) (nat c same) h))
    | inr other ↦ other
  ]
    where
      nat : (d : ℕ) → (d == 10) ≡ true → d ≡ 10
      nat d e = ground arith

      clash : is_space 10 ≡ false → ⊥
      clash e = let n = v.newline in cc

  no_newline : (s : Text) → All (λ c. is_space c ≡ false) s → All (λ c. (c == 10) ≡ false) s
  no_newline [] h = tt
  no_newline (c ∷ s) (h, hs) = (not_newline c h, no_newline s hs)

  escape-nonempty : (s : Text) → s ≢ [] → escape_mount_field s ≢ []
  unfolding escape_mount_field escape_char
  escape-nonempty [] h = absurd (h refl)
  escape-nonempty (c ∷ s) h = λ e. ground (arith, e)

  escaped_mountpoint :
      (e : Entry) → IsEntry is_space e → Solid is_space (escape_mount_field e.mountpoint)
  escaped_mountpoint e i =
      (escape-nonempty e.mountpoint i.mountpoint.0, escaped-Solid e.mountpoint i.mountpoint.1)

  line-fields :
      (e : Entry)
      → IsEntry is_space e
      → fields is_space (line e)
        ≡ e.device ∷ escape_mount_field e.mountpoint ∷ e.kind ∷ fields is_space e.rest
  line-fields e i =
      ap (λ path. fields is_space (whole_line e path))
        (kernel_field-escape_mount_field e.mountpoint)
      ∙ fields-append e.device _ i.device
      ∙ ap (◌∷◌ e.device) (
          fields-append (escape_mount_field e.mountpoint) _ (escaped_mountpoint e i)
          ∙ ap (◌∷◌ (escape_mount_field e.mountpoint)) (fields-append e.kind e.rest i.kind))

  line_whole : (e : Entry) → IsEntry is_space e → All (λ c. (c == 10) ≡ false) (line e)
  line_whole e i =
      let P : ℕ → Type 0 = λ c. (c == 10) ≡ false in
      subst (λ path. All P (whole_line e path)) (sym (kernel_field-escape_mount_field e.mountpoint))
        (All-append P e.device _ (no_newline e.device i.device.1) (
          refl,
          All-append P (escape_mount_field e.mountpoint) _
              (no_newline (escape_mount_field e.mountpoint) (escaped_mountpoint e i).1)
              (refl, All-append P e.kind _ (no_newline e.kind i.kind.1) (refl, i.rest)),
        ))

  any_mount-has_mount :
      (mountpoint : Text) (es : List Entry)
      → All (IsEntry is_space) es
      → any_mount is_space (escape_mount_field mountpoint) (split_lines (proc_mounts es))
        ≡ has_mount mountpoint es
  unfolding any_mount is_mount split_lines fields fields_from flush
  any_mount-has_mount mountpoint [] h = refl
  any_mount-has_mount mountpoint (e ∷ es) (i, is) =
      ap (any_mount is_space escaped)
        (split_lines-append (line e) (proc_mounts es) (line_whole e i))
      ∙ ap (λ fs. is_mount is_space escaped fs || later) (line-fields e i)
      ∙ ap (λ b. b && same_bytes e.kind fuse_type || later)
          (same-escape_mount_field e.mountpoint mountpoint)
      ∙ ap (λ b. same_bytes e.mountpoint mountpoint && same_bytes e.kind fuse_type || b)
          (any_mount-has_mount mountpoint es is)
    where
      escaped : Text
      escaped = escape_mount_field mountpoint

      later : Bool
      later = any_mount is_space escaped (split_lines (proc_mounts es))

  -- Where space and newline are spaces and the characters of an octal escape are not: on the lines
  -- that the kernel writes, with a blank, tab, newline or backslash of a mountpoint as a backslash
  -- and three octal digits, for mounts whose device and type are not empty and have no space, whose
  -- mountpoint is not empty and has no space but the blank, the tab and the newline, and whose
  -- remaining fields have no newline, mountedAt says true exactly if one of the mounts has the
  -- mountpoint asked for and the type of this program.
  pub mounted_at-has_mount :
      (mountpoint : Text) (es : List Entry)
      → All (IsEntry is_space) es
      → mounted_at is_space (proc_mounts es) mountpoint ≡ has_mount mountpoint es
  unfolding mounted_at
  mounted_at-has_mount mountpoint es h = any_mount-has_mount mountpoint es h
