-- ===== src/Cmd/Mounts.antt =====
-- cmd/proton-drive-fs/main.go: how a mount is found in /proc/self/mounts. A string is the list of its
-- code points.
pub mod Escape
pub mod Found
pub mod Unspaced
use proton_drive_linux_fs.Base.{
  ℕ, Bool, true, false, ◌&&◌, ◌||◌, List, [], ◌∷◌, ◌++◌, ◌==◌, if◌then◌else◌, same_bytes,
}

abbrev pub Text : Type 0
Text = List ℕ

-- Backslash, space, tab and newline as a backslash and three octal digits.
unfoldable pub escape_char : ℕ → Text
escape_char c =
    if c == 92
    then 92 ∷ 49 ∷ 51 ∷ 52 ∷ []
    else if c == 32
    then 92 ∷ 48 ∷ 52 ∷ 48 ∷ []
    else if c == 9
    then 92 ∷ 48 ∷ 49 ∷ 49 ∷ []
    else if c == 10
    then 92 ∷ 48 ∷ 49 ∷ 50 ∷ []
    else c ∷ []

unfoldable pub escape_mount_field : Text → Text
unfolding escape_char
escape_mount_field [] = []
escape_mount_field (c ∷ s) = escape_char c ++ escape_mount_field s

-- "fuse.proton-drive-fs"
abbrev pub fuse_type : Text
fuse_type =
    102 ∷ 117 ∷ 115 ∷ 101 ∷ 46 ∷ 112 ∷ 114 ∷ 111 ∷ 116 ∷ 111 ∷ 110 ∷ 45 ∷ 100 ∷ 114 ∷ 105 ∷ 118
    ∷ 101 ∷ 45 ∷ 102 ∷ 115 ∷ []

on_first : ℕ → List Text → List Text
on_first c [] = (c ∷ []) ∷ []
on_first c (l ∷ ls) = (c ∷ l) ∷ ls

-- strings.Split at newlines.
unfoldable pub split_lines : Text → List Text
unfolding on_first
split_lines [] = [] ∷ []
split_lines (c ∷ s) = let rest = split_lines s in if c == 10 then [] ∷ rest else on_first c rest

flush : Text → List Text → List Text
flush [] rest = rest
flush (c ∷ word) rest = (c ∷ word) ∷ rest

-- `is_space` is unicode.IsSpace.
module _ (is_space : ℕ → Bool) where
  -- strings.Fields, with the field begun.
  pub fields_from : Text → Text → List Text
  unfolding flush
  fields_from word [] = flush word []
  fields_from word (c ∷ s) =
      let next = fields_from [] s in
      let longer = fields_from (word ++ c ∷ []) s in if is_space c then flush word next else longer

  unfoldable pub fields : Text → List Text
  unfolding fields_from
  fields s = fields_from [] s

  is_mount : Text → List Text → Bool
  is_mount escaped (device ∷ at ∷ kind ∷ rest) = same_bytes at escaped && same_bytes kind fuse_type
  is_mount escaped _ = false

  pub any_mount : Text → List Text → Bool
  unfolding is_mount
  any_mount escaped [] = false
  any_mount escaped (line ∷ lines) =
      let later = any_mount escaped lines in is_mount escaped (fields line) || later

  unfoldable pub mounted_at : Text → Text → Bool
  unfolding any_mount
  mounted_at proc_mounts mountpoint =
      any_mount (escape_mount_field mountpoint) (split_lines proc_mounts)
