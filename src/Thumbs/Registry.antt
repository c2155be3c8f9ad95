-- ===== src/Thumbs/Registry.antt =====
-- internal/thumbs/registry.go: the thumbnailers that are installed, by MIME type.
use proton_drive_linux_fs.Base.{
  String, Bool, true, false, not, ◌&&◌, ◌||◌, Option, none, some, List, [], ◌∷◌, ◌++◌,
  if◌then◌else◌, str_eq, lookup, insert, string_key,
}

-- What the registry uses of strings, exec, mime and filepath. `cut` is Cut at "=", `split` Split at
-- ";", `first_field` the first of Fields, `by_extension` TypeByExtension up to its parameters.
pub record Library : Type 0 where
  pub trim : String → String
  pub has_prefix : String → String → Bool
  pub has_suffix : String → String → Bool
  pub cut : String → Option (String × String)
  pub split : String → List String
  pub look_path : String → Bool
  pub by_extension : String → String
  pub first_field : String → Option String
  pub base : String → String

-- The values read so far, and whether the section is that of the thumbnailer.
pub record Fields : Type 0 where
  pub exec_line : String
  pub mime_types : String
  pub try_exec : String
  pub in_section : Bool

abbrev pub ByMime : Type 0
ByMime = List (String × String)

module _ (lib : Library) where
  open lib use {trim, has_prefix, cut, split, look_path, by_extension, first_field, base}

  assign : Option (String × String) → Fields → Fields
  assign none f = f
  assign (some (k, v)) f =
      if str_eq k "Exec"
      then record f { exec_line = v }
      else if str_eq k "MimeType"
      then record f { mime_types = v }
      else if str_eq k "TryExec"
      then record f { try_exec = v }
      else f

  read_line : String → Fields → Fields
  unfolding assign
  read_line line f =
      if str_eq line "[Thumbnailer Entry]"
      then record f { in_section = true }
      else if has_prefix line "["
      then record f { in_section = false }
      else if not f.in_section
      then f
      else assign (cut line) f

  read_lines : List String → Fields → Fields
  unfolding read_line
  read_lines [] f = f
  read_lines (l ∷ ls) f = read_lines ls (read_line (trim l) f)

  register_types : String → List String → ByMime → ByMime
  register_types exec_line [] m = m
  register_types exec_line (t ∷ ts) m =
      let kept = if str_eq (trim t) "" then m else insert (trim t) exec_line m in
      register_types exec_line ts kept

  registered : Fields → ByMime → ByMime
  unfolding register_types
  registered f m =
      if str_eq f.exec_line "" || str_eq f.mime_types ""
      then m
      else if not (str_eq f.try_exec "") && not (look_path f.try_exec)
      then m
      else register_types f.exec_line (split f.mime_types) m

  -- The lines of a file, or nothing when it cannot be opened.
  unfoldable pub load_file : Option (List String) → ByMime → ByMime
  unfolding read_lines registered
  load_file none m = m
  load_file (some lines) m =
      registered
        (read_lines lines
          (record { exec_line = ""; mime_types = ""; try_exec = ""; in_section = false }))
        m

  load_files : List (String × Option (List String)) → ByMime → ByMime
  unfolding load_file
  load_files [] m = m
  load_files ((name, lines) ∷ files) m =
      load_files files (if lib.has_suffix name ".thumbnailer" then load_file lines m else m)

  -- The files of a directory with their lines, or nothing when it cannot be read.
  unfoldable pub load_dir : Option (List (String × Option (List String))) → ByMime → ByMime
  unfolding load_files
  load_dir none m = m
  load_dir (some files) m = load_files files m

  unfoldable pub for_ext : String → ByMime → String
  for_ext ext m =
      let found : String = elim (lookup (by_extension ext) m) [ none ↦ "" | some line ↦ line ] in
      if str_eq ext "" || str_eq (by_extension ext) "" then "" else found

  unfoldable pub exec_basename : String → String
  exec_basename line = elim (first_field line) [ none ↦ "" | some f ↦ base f ]

  seen : String → List String → Bool
  seen name [] = false
  seen name (n ∷ names) = str_eq n name || seen name names

  names_from : List String → ByMime → List String
  unfolding seen
  names_from names [] = names
  names_from names ((t, line) ∷ m) =
      let name = exec_basename line in
      let kept = if str_eq name "" || seen name names then names else names ++ name ∷ [] in
      names_from kept m

  unfoldable pub process_names : ByMime → List String
  unfolding names_from
  process_names m = names_from [] m
