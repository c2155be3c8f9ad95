-- ===== src/Drive/Upload.antt =====
-- internal/drive/write.go: Upload and its parts. The Proton API, the keys and the ciphers are
-- arguments; the calls that reach the API are a log, first first.
pub mod Sent
pub mod Committed
use proton_drive_linux_fs.Base.{
  ℕ, zero, suc, ◌+◌, ◌-◌, String, Bool, true, false, not, Option, none, some, List, [], ◌∷◌, ◌++◌,
  ltb, ◌==◌, if◌then◌else◌, length, take, drop, arith,
}
use proton_drive_linux_fs.Drive.Errors.{Err, Result, ok, err}
use proton_drive_linux_fs.Drive.Read.{Bytes, block_size}

-- The requests that change the drive, whether or not they are answered with an error, but for a
-- block that failed: a block under its index, with the bytes it was made from; a
-- commit with the sizes of the blocks, the manifest and the file's size; and the two clean-ups.
pub data Call : Type 0 where
  block_uploaded : ℕ → Bytes → Call
  committed : List ℕ → Bytes → ℕ → Call
  children_deleted revision_deleted : String → Call

-- What the reader gives: its content, and the error after it, which is none at its end.
pub record Reader : Type 0 where
  pub content : Bytes
  pub error : Option Err

-- What the outside does: startRevision's link and revision, the upload of a block by its index (its
-- digest or an error), the error of a commit, and whether the link can be read back.
pub record Outside : Type 0 where
  pub started : Result (String × String)
  pub upload_block : ℕ → Bytes → Result Bytes
  pub commit : List ℕ → Bytes → Option Err
  pub read_back : Option String

pub record Blocks : Type 0 where
  pub sizes : List ℕ
  pub hashes : List Bytes

-- What a part returns, and the calls it made, first first.
pub record Run (A : Type 0) : Type 0 where
  pub result : Result A
  pub calls : List Call

abbrev stop : {A : Type 0} → Result A → Run A
stop r = record { result = r; calls = [] }

add_block : ℕ → Bytes → Result Blocks → Result Blocks
add_block n hash (err e) = err e
add_block n hash (ok b) = ok (record { sizes = n ∷ b.sizes; hashes = hash ∷ b.hashes })

pub with_block : ℕ → Bytes → Result Bytes → Run Blocks → Run Blocks
unfolding add_block
with_block index chunk (err e) next = stop (err e)
with_block index chunk (ok hash) next = record {
  result = add_block (length chunk) hash next.result;
  calls = block_uploaded index chunk ∷ next.calls;
}

-- A short read is the end of the content, or an error.
pub at_end : Option Err → Run Blocks
at_end none = stop (ok (record { sizes = []; hashes = [] }))
at_end (some e) = stop (err e)

-- uploadBlocks from block `index` on: each round reads a full block or what is left. On fuel.
unfoldable pub blocks_from : ℕ → Outside → ℕ → Bytes → Option Err → Run Blocks
unfolding with_block at_end
blocks_from zero o index content e = stop (err (Err.other 0))
blocks_from (suc fuel) o index content e =
    let rest = blocks_from fuel o (suc index) (drop block_size content) e in
    let chunk = take block_size content in
    let next = if ltb (length chunk) block_size then at_end e else rest in
    if ltb 0 (length chunk) then with_block index chunk (o.upload_block index chunk) next else next

unfoldable pub upload_blocks : Outside → Reader → Run Blocks
upload_blocks o r = blocks_from (suc (length r.content)) o 1 r.content r.error

abbrev pub block_manifest : List Bytes → Bytes
block_manifest [] = []
block_manifest (h ∷ hashes) = h ++ block_manifest hashes

-- cleanupFailedUpload
unfoldable pub cleanup_failed_upload : Bool → String × String → Call
cleanup_failed_upload new_file (link, revision) =
    if new_file then children_deleted link else revision_deleted revision

commit_revision :
    Outside → Bool → ℕ → String × String → List Call → Blocks → Option Err → Run (Option String)
unfolding cleanup_failed_upload
commit_revision o new_file size ids calls b (some e) = record {
  result = err e;
  calls =
      calls
      ++ committed b.sizes (block_manifest b.hashes) size ∷ cleanup_failed_upload new_file ids ∷ [];
}
commit_revision o new_file size ids calls b none = record {
  result = ok o.read_back;
  calls = calls ++ committed b.sizes (block_manifest b.hashes) size ∷ [];
}

uploaded : Outside → Bool → ℕ → String × String → List Call → Result Blocks → Run (Option String)
unfolding commit_revision
uploaded o new_file size ids calls (err e) = record {
  result = err e;
  calls = calls ++ cleanup_failed_upload new_file ids ∷ [];
}
uploaded o new_file size ids calls (ok b) =
    commit_revision o new_file size ids calls b (o.commit b.sizes (block_manifest b.hashes))

started_upload : Outside → Bool → ℕ → Reader → Result (String × String) → Run (Option String)
unfolding uploaded
started_upload o new_file size r (err e) = stop (err e)
started_upload o new_file size r (ok ids) =
    let b = upload_blocks o r in uploaded o new_file size ids b.calls b.result

-- Upload; a result without a node means that the read-back failed.
unfoldable pub upload : Outside → Bool → ℕ → Reader → Run (Option String)
unfolding started_upload
upload o new_file size r = started_upload o new_file size r o.started
