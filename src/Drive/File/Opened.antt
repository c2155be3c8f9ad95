-- ===== src/Drive/File/Opened.antt =====
-- internal/drive/file.go: OpenFile, and the size of a file whose attributes are unknown.
pub mod Size
use proton_drive_linux_fs.Base.{
  ℕ, ◌+◌, String, Bool, true, false, not, ◌&&◌, Option, none, some, List, [], ◌∷◌, if◌then◌else◌,
  length, max, str_eq,
}
use proton_drive_linux_fs.Drive.Errors.{Err, Result, ok, err}
use proton_drive_linux_fs.Drive.Activity.{Activity}
use proton_drive_linux_fs.Drive.Read.{Bytes, block_byte_offset}
use proton_drive_linux_fs.Drive.File.{Block, File, Remote, State, revision_blocks, get_block}

-- What OpenFile reads of a node, once its attributes are resolved; `key` is the error of its keyring or
-- of its session key, if any.
pub record Node : Type 0 where
  pub is_file : Bool
  pub key : Option Err
  pub link_id : String
  pub rev_id : String
  pub name : String
  pub size : ℕ
  pub attrs_known : Bool

unfoldable pub last_index : List (ℕ × Block) → ℕ
last_index [] = 0
last_index ((idx, b) ∷ blocks) = max idx (last_index blocks)

unfoldable pub has_blocks : List (ℕ × Block) → Bool
has_blocks [] = false
has_blocks (b ∷ bs) = true

module _ {W : Type 0} (remote : Remote W) where
  sized : ℕ → Result Bytes × State W → Result ℕ × State W
  sized idx (err e, s) = (err e, s)
  sized idx (ok block, s) = (ok (block_byte_offset idx + length block), s)

  unfoldable pub correct_size_from_blocks : State W → Result ℕ × State W
  unfolding sized
  correct_size_from_blocks s =
      let last = last_index s.file.blocks in
      if has_blocks s.file.blocks then sized last (get_block remote s last) else (ok 0, s)

  resized : Result ℕ × State W → State W
  resized (err e, s) = s
  resized (ok size, s) = record s { file = record s.file { size = size } }

  -- The file with its block list, and its size if that is not known.
  with_blocks : Node → String → Activity → Result (List (ℕ × Block)) × W → Result (State W) × W
  unfolding resized correct_size_from_blocks
  with_blocks n path activity (err e, w) = (err e, w)
  with_blocks n path activity (ok blocks, w) =
      let file : File = record {
        blocks = blocks;
        size = n.size;
        link_id = n.link_id;
        rev_id = n.rev_id;
        path = path;
        cache = [];
        cache_lru = [];
        transfer = none;
        closed = false;
        failed = false;
      } in
      let s : State W = record { file = file; activity = activity; world = w } in
      let fixed = resized (correct_size_from_blocks s) in
      if not n.attrs_known && has_blocks blocks then (ok fixed, fixed.world) else (ok s, w)

  -- `no_file` is the error for a node that is no file; the state comes with the activity it begins.
  unfoldable pub open_file : Err → Node → String → Activity → W → Result (State W) × W
  unfolding with_blocks
  open_file no_file n path activity w =
      let shown = if str_eq path "" then n.name else path in
      let opened = with_blocks n shown activity (revision_blocks remote n.link_id n.rev_id w) in
      let keyed : Result (State W) × W = elim n.key [ none ↦ opened | some e ↦ (err e, w) ] in
      if n.is_file then keyed else (err no_file, w)
