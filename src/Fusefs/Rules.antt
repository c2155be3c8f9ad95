-- ===== src/Fusefs/Rules.antt =====
-- internal/fusefs/fusefs.go and internal/fusefs/previews.go: the rules by name, size and kind of
-- operation: excluded names, upload delays, the trash, deadlines, denied readers. A string is the
-- list of its bytes.
use proton_drive_linux_fs.Base.{
  ℕ, zero, suc, ◌-◌, ◌*◌, ◌/◌, Bool, true, false, not, ◌&&◌, ◌||◌, Option, none, some, List, [],
  ◌∷◌, ltb, leb, ◌==◌, if◌then◌else◌, length, take, drop, same_bytes,
}
use proton_drive_linux_fs.Drive.Read.{Bytes}
use proton_drive_linux_fs.Fusefs.Release.{Errno, success, enotempty}

unfoldable pub has_prefix : Bytes → Bytes → Bool
has_prefix s [] = true
has_prefix [] (p ∷ prefix) = false
has_prefix (c ∷ s) (p ∷ prefix) = c == p && has_prefix s prefix

-- "re:" and ".Trash"
abbrev pub regexp_prefix : Bytes
regexp_prefix = 114 ∷ 101 ∷ 58 ∷ []

abbrev pub trash_prefix : Bytes
trash_prefix = 46 ∷ 84 ∷ 114 ∷ 97 ∷ 115 ∷ 104 ∷ []

abbrev pub Matcher : Type 0
Matcher = Bytes → Bool

-- regexp.Compile and filepath.Match; a malformed glob matches nothing.
pub record Patterns : Type 0 where
  pub compile : Bytes → Option Matcher
  pub glob : Bytes → Matcher
  pub duration : Bytes → Option ℕ

module _ (patterns : Patterns) where
  with_regexp : Option Matcher → List Matcher → List Matcher
  with_regexp none rest = rest
  with_regexp (some m) rest = m ∷ rest

  unfoldable pub parse_excludes : List Bytes → List Matcher
  unfolding with_regexp
  parse_excludes [] = []
  parse_excludes (p ∷ ps) =
      let rest = parse_excludes ps in
      if has_prefix p regexp_prefix
      then with_regexp (patterns.compile (drop 3 p)) rest
      else patterns.glob p ∷ rest

  -- strings.LastIndex of a byte, as the parts before and after it.
  unfoldable pub cut_last : ℕ → Bytes → Option (Bytes × Bytes)
  cut_last sep [] = none
  cut_last sep (c ∷ s) =
      let here : Option (Bytes × Bytes) = if c == sep then some ([], s) else none in
      elim (cut_last sep s) [ none ↦ here | some kv ↦ some (c ∷ kv.0, kv.1) ]

  pub record DelayRule : Type 0 where
    pub match : Matcher
    pub delay : ℕ

  with_delay : List Matcher → Option ℕ → List DelayRule → List DelayRule
  with_delay matchers none rest = rest
  with_delay [] (some delay) rest = rest
  with_delay (m ∷ ms) (some delay) rest = record { match = m; delay = delay } ∷ rest

  -- A rule without a pattern or without "=" is skipped.
  with_rule : Option (Bytes × Bytes) → List DelayRule → List DelayRule
  unfolding with_delay parse_excludes
  with_rule none rest = rest
  with_rule (some ([], value)) rest = rest
  with_rule (some (c ∷ pattern', value)) rest =
      with_delay (parse_excludes ((c ∷ pattern') ∷ [])) (patterns.duration value) rest

  unfoldable pub parse_delay_rules : List Bytes → List DelayRule
  unfolding with_rule
  parse_delay_rules [] = []
  parse_delay_rules (r ∷ rs) = with_rule (cut_last 61 r) (parse_delay_rules rs)

  unfoldable pub delay_for : ℕ → List DelayRule → Bytes → ℕ
  delay_for upload_delay [] name = upload_delay
  delay_for upload_delay (r ∷ rs) name =
      let later = delay_for upload_delay rs name in if r.match name then r.delay else later

unfoldable pub excluded : List Matcher → Bytes → Bool
excluded [] name = false
excluded (m ∷ ms) name = m name || excluded ms name

-- strings.Cut at the first slash, the part before it.
first_part : Bytes → Bytes
first_part [] = []
first_part (c ∷ rel) = if c == 47 then [] else c ∷ first_part rel

unfoldable pub in_trash : Bytes → Bool
unfolding first_part
in_trash rel = has_prefix (first_part rel) trash_prefix

unfoldable pub keeps_local : Bool → List Matcher → Bytes → Bytes → Bool
keeps_local has_local excludes rel_path name =
    has_local && (excluded excludes name || in_trash rel_path)

-- The path in the local store, if `stat` finds it there; `local_dir` is localDir of the joined path.
unfoldable pub stored_path :
    Bool → List Matcher → (Bytes → Bytes → Bytes) → (Bytes → Bool) → Bytes → Bytes → Option Bytes
stored_path has_local excludes local_dir stat rel_path name =
    let p = local_dir rel_path name in
    if not (keeps_local has_local excludes rel_path name)
    then none
    else if stat p
    then some p
    else none

unfoldable pub local_path : List Matcher → (Bytes → Bytes → Bytes) → Bytes → Bytes → Option Bytes
local_path excludes local_dir rel_path name =
    if excluded excludes name then some (local_dir rel_path name) else none

-- What WalkDir shows of a local folder's tree, without the folder itself.
pub record Walked : Type 0 where
  pub name : Bytes
  pub is_dir : Bool

unfoldable pub only_folders : List Matcher → List Walked → Bool
only_folders excludes [] = true
only_folders excludes (e ∷ es) =
    let rest = only_folders excludes es in
    if not e.is_dir || excluded excludes e.name then false else rest

-- `walk` is what the walk finds: nothing there, an error, or the entries; `removes` is the errno of
-- RemoveAll.
pub data Walk : Type 0 where
  missing : Walk
  walk_failed : Errno → Walk
  walked : List Walked → Walk

unfoldable pub remove_local_mirror : List Matcher → Walk → Errno → Errno
remove_local_mirror excludes missing removes = success
remove_local_mirror excludes (walk_failed e) removes = e
remove_local_mirror excludes (walked es) removes =
    if only_folders excludes es then removes else enotempty

-- Times are in nanoseconds; past 2 PB the product overflows an int64, which is not followed here.
unfoldable pub upload_timeout : ℕ → ℕ → ℕ
upload_timeout size base =
    let per_byte = size / 262144 * 1000000000 in
    if size == 0 then base else if ltb base per_byte then per_byte else base

-- "readdir", "mkdir", "remove" and "rename".
unfoldable pub meta_op : Bytes → Bool
meta_op op =
    same_bytes op (114 ∷ 101 ∷ 97 ∷ 100 ∷ 100 ∷ 105 ∷ 114 ∷ [])
    || same_bytes op (109 ∷ 107 ∷ 100 ∷ 105 ∷ 114 ∷ [])
    || same_bytes op (114 ∷ 101 ∷ 109 ∷ 111 ∷ 118 ∷ 101 ∷ [])
    || same_bytes op (114 ∷ 101 ∷ 110 ∷ 97 ∷ 109 ∷ 101 ∷ [])

unfoldable pub stale_threshold : Bytes → ℕ → ℕ → ℕ
stale_threshold op op_timeout meta_timeout = if meta_op op then 2 * meta_timeout else 2 * op_timeout

-- An operation in flight: its kind and when it began.
pub record InflightOp : Type 0 where
  pub op : Bytes
  pub started : ℕ

-- The operations that logStuckOps reports.
unfoldable pub stuck_ops : ℕ → ℕ → ℕ → List InflightOp → List InflightOp
stuck_ops now op_timeout meta_timeout [] = []
stuck_ops now op_timeout meta_timeout (o ∷ os) =
    let rest = stuck_ops now op_timeout meta_timeout os in
    if ltb (stale_threshold o.op op_timeout meta_timeout) (now - o.started) then o ∷ rest else rest

-- utf8.RuneStart: no continuation byte.
unfoldable pub rune_start : ℕ → Bool
rune_start b = ltb b 128 || leb 192 b

-- The byte at an index, or 0 past the end.
byte_at : ℕ → Bytes → ℕ
byte_at i [] = 0
byte_at zero (b ∷ bs) = b
byte_at (suc i) (b ∷ bs) = byte_at i bs

pub back_to_start : Bytes → ℕ → ℕ
unfolding byte_at
back_to_start name zero = zero
back_to_start name (suc cut) =
    let back = back_to_start name cut in
    if rune_start (byte_at (suc cut) name) then suc cut else back

unfoldable pub truncate_name : Bytes → ℕ → Bytes
unfolding back_to_start
truncate_name name most =
    if leb (length name) most then name else take (back_to_start name most) name

abbrev pub comm_max : ℕ
comm_max = 15

unfoldable pub name_matches : Bytes → Bytes → Bool
name_matches deny name =
    if same_bytes deny name then true else length name == comm_max && has_prefix deny name

any_matches : List Bytes → Bytes → Bool
any_matches [] name = false
any_matches (d ∷ denied) name = name_matches d name || any_matches denied name

-- The loop over the caller's names.
first_denied : Bool → List Bytes → List Bytes → List Bytes → Option Bytes
unfolding any_matches
first_denied size_gated thumbnailers readers [] = none
first_denied size_gated thumbnailers readers (n ∷ names) =
    let later = first_denied size_gated thumbnailers readers names in
    if any_matches thumbnailers n || size_gated && any_matches readers n then some n else later

is_empty : List Bytes → Bool
is_empty [] = true
is_empty (x ∷ xs) = false

-- `caller` is the names of the calling process, none when the context has no caller.
unfoldable pub denied_reader : List Bytes → List Bytes → ℕ → ℕ → Option (List Bytes) → Option Bytes
unfolding first_denied is_empty
denied_reader thumbnailers readers limit size caller =
    let size_gated = not (is_empty readers) && ltb 0 limit && ltb limit size in
    let found : Option Bytes = elim caller [
      | none ↦ none
      | some names ↦ first_denied size_gated thumbnailers readers names
    ] in
    if not size_gated && is_empty thumbnailers then none else found
