-- ===== src/Drive/Upload/Committed.antt =====
-- internal/drive/write.go: what Upload has committed when it returns, and what it cleaned up.
use proton_drive_linux_fs.Base.{
  ℕ, zero, suc, ◌≤◌, ◌<◌, ◌≡◌, refl, sym, ap, ◌∙◌, append_assoc, false, String, Bool, true, Option,
  none, some, List, [], ◌∷◌, ◌++◌, ltb, arith, if◌then◌else◌, if-cases, length, take, drop, All,
  length-take, length-drop, ◌⊎◌, inl, inr,
}
use proton_drive_linux_fs.Drive.Errors.{Err, Result, ok, err}
use proton_drive_linux_fs.Drive.Read.{Bytes, block_size}
use proton_drive_linux_fs.Drive.Upload.{
  Call, committed, children_deleted, revision_deleted, Reader, Outside, Blocks, Run, with_block,
  at_end, add_block, blocks_from, upload_blocks, block_manifest, cleanup_failed_upload,
  commit_revision, uploaded, started_upload, upload,
}
use proton_drive_linux_fs.Drive.Upload.Sent.{
  Blockwise, is_block, Sent, block_size-pos, blocks_from-Sent,
}

-- The request that takes back a new file's link, or the revision of an existing one.
abbrev pub undo : Bool → String → String → Call
undo true link revision = children_deleted link
undo false link revision = revision_deleted revision

-- Before the clean-up there were blocks alone, or all of the content and a commit that failed.
abbrev pub Unfinished : Outside → ℕ → Reader → Err → List Call → Type 0
Unfinished o size r e calls =
    All (λ c. is_block c ≡ true) calls
    ⊎ ((b : Blocks) × (sent : List Call) × (calls
          ≡ sent ++ committed b.sizes (block_manifest b.hashes) size ∷ [])
        × (r.error ≡ none)
        × Blockwise 1 sent r.content b.sizes
        × (o.commit b.sizes (block_manifest b.hashes) ≡ some e))

-- What is promised of an upload: committed with all of the content, or cleaned up, or not begun.
abbrev pub Promise : Outside → Bool → ℕ → Reader → Run (Option String) → Type 0
Promise o new_file size r run = elim run.result [
  | ok back ↦
      (b : Blocks) × (calls : List Call) × (run.calls
        ≡ calls ++ committed b.sizes (block_manifest b.hashes) size ∷ [])
      × (r.error ≡ none)
      × Blockwise 1 calls r.content b.sizes
      × (o.commit b.sizes (block_manifest b.hashes) ≡ none)
      × (back ≡ o.read_back)
  | err e ↦
      ((run.calls ≡ []) × (o.started ≡ err e))
      ⊎ ((link : String) × (revision : String) × (calls : List Call) × (o.started
            ≡ ok (link, revision))
          × (run.calls ≡ calls ++ undo new_file link revision ∷ [])
          × Unfinished o size r e calls)
]

cleanup_failed_upload-undo :
    (new_file : Bool) (ids : String × String)
    → cleanup_failed_upload new_file ids ≡ undo new_file ids.0 ids.1
unfolding cleanup_failed_upload
cleanup_failed_upload-undo true ids = refl
cleanup_failed_upload-undo false ids = refl

commit-Promise :
    (o : Outside) (new_file : Bool) (size : ℕ) (r : Reader) (ids : String × String)
    (calls : List Call) (b : Blocks) (e : Option Err)
    → o.started ≡ ok ids
    → r.error ≡ none
    → Blockwise 1 calls r.content b.sizes
    → o.commit b.sizes (block_manifest b.hashes) ≡ e
    → Promise o new_file size r (commit_revision o new_file size ids calls b e)
unfolding commit_revision
commit-Promise o new_file size r ids calls b none s h w c = (b, calls, refl, h, w, c, refl)
commit-Promise o new_file size r ids calls b (some e) s h w c =
    let commit = committed b.sizes (block_manifest b.hashes) size in
    inr (
      ids.0,
      ids.1,
      calls ++ commit ∷ [],
      s,
      sym (append_assoc calls (commit ∷ []) (cleanup_failed_upload new_file ids ∷ []))
          ∙ ap (λ c. calls ++ commit ∷ [] ++ c ∷ []) (cleanup_failed_upload-undo new_file ids),
      inr (b, calls, refl, h, w, c),
    )

uploaded-Promise :
    (o : Outside) (new_file : Bool) (size : ℕ) (r : Reader) (ids : String × String)
    (calls : List Call) (res : Result Blocks)
    → o.started ≡ ok ids
    → Sent 1 r.content r.error (record { result = res; calls = calls })
    → Promise o new_file size r (uploaded o new_file size ids calls res)
unfolding uploaded
uploaded-Promise o new_file size r ids calls (ok b) s (h, w) =
    commit-Promise o new_file size r ids calls b (o.commit b.sizes (block_manifest b.hashes)) s h w
      refl
uploaded-Promise o new_file size r ids calls (err e) s h = inr (
  ids.0,
  ids.1,
  calls,
  s,
  ap (λ c. calls ++ c ∷ []) (cleanup_failed_upload-undo new_file ids),
  inl h,
)

started-Promise :
    (o : Outside) (new_file : Bool) (size : ℕ) (r : Reader) (s : Result (String × String))
    → o.started ≡ s
    → Promise o new_file size r (started_upload o new_file size r s)
unfolding started_upload upload_blocks
started-Promise o new_file size r (err e) h = inl (refl, h)
started-Promise o new_file size r (ok ids) h =
    let sent = blocks_from-Sent (suc (length r.content)) o 1 r.content r.error (omega arith) in
    uploaded-Promise o new_file size r ids _ _ h sent

-- Upload returns without an error only after a commit that worked, its last call, of blocks that
-- are numbered from 1, have between one byte and the size of a block, and make up, in order, the
-- content of the reader, which ended without an error. With an error it has either not begun, since
-- starting the revision failed, or its last call deletes the link of a new file or the revision of
-- an existing one, and before it there are blocks alone, or all of the content and a commit that
-- failed with that error.
pub upload-Promise :
    (o : Outside) (new_file : Bool) (size : ℕ) (r : Reader)
    → Promise o new_file size r (upload o new_file size r)
unfolding upload
upload-Promise o new_file size r = started-Promise o new_file size r o.started refl

-- What an outside does that refuses nothing.
pub record Works (o : Outside) (ids : String × String) : Type 0 where
  pub starts : o.started ≡ ok ids
  pub uploads :
      (index : ℕ) (chunk : Bytes) → (hash : Bytes) × (o.upload_block index chunk ≡ ok hash)
  pub commits : (sizes : List ℕ) (manifest : Bytes) → o.commit sizes manifest ≡ none

with_block-ok :
    (index : ℕ) (chunk : Bytes) (r : Result Bytes) (hash : Bytes) (next : Run Blocks) (b : Blocks)
    → r ≡ ok hash
    → next.result ≡ ok b
    → (d : Blocks) × ((with_block index chunk r next).result ≡ ok d)
unfolding with_block add_block
with_block-ok index chunk r hash next b h k =
    (record { sizes = length chunk ∷ b.sizes; hashes = hash ∷ b.hashes }, ground arith)

abbrev IsDone : Run Blocks → Type 0
IsDone r = (b : Blocks) × (r.result ≡ ok b)

round-ok :
    (o : Outside) (ids : String × String) (index : ℕ) (chunk : Bytes) (rest : Run Blocks)
    → Works o ids
    → (block_size ≤ length chunk → IsDone rest)
    → IsDone (
        let next = if ltb (length chunk) block_size then at_end none else rest in
        if ltb 0 (length chunk)
        then with_block index chunk (o.upload_block index chunk) next
        else next)
unfolding at_end
round-ok o ids index chunk rest w k =
    let (hash, sent) = w.uploads index chunk in
    let next = if ltb (length chunk) block_size then at_end none else rest in
    let (b, done) : IsDone next =
      if-cases IsDone (ltb (length chunk) block_size)
        (λ short. (record { sizes = []; hashes = [] }, refl)) (λ full. k (ground arith)) in
    if-cases IsDone (ltb 0 (length chunk))
      (λ pos. with_block-ok index chunk _ hash next b sent done) (λ no_more. (b, done))

blocks_from-ok :
    (fuel : ℕ) (o : Outside) (ids : String × String) (index : ℕ) (content : Bytes)
    → Works o ids
    → length content < fuel
    → (b : Blocks) × ((blocks_from fuel o index content none).result ≡ ok b)
unfolding blocks_from
blocks_from-ok zero o ids index content w h = absurd (omega arith)
blocks_from-ok (suc fuel) o ids index content w h =
    round-ok o ids index (take block_size content) _ w (λ full.
      let pos = block_size-pos in
      blocks_from-ok fuel o ids (suc index) (drop block_size content) w
        (omega (arith, full, length-take block_size content, length-drop block_size content)))

uploaded_ok :
    (o : Outside) (ids : String × String) (new_file : Bool) (size : ℕ) (other : String × String)
    (b : Blocks) (calls : List Call) (res : Result Blocks)
    → res ≡ ok b
    → Works o ids
    → (uploaded o new_file size other calls res).result ≡ ok o.read_back
unfolding uploaded commit_revision
uploaded_ok o ids new_file size other b calls (err e) k w = absurd (ground arith)
uploaded_ok o ids new_file size other b calls (ok c) k w =
    rw (w.commits c.sizes (block_manifest c.hashes), commit_revision) refl

started_ok :
    (o : Outside) (ids : String × String) (new_file : Bool) (size : ℕ) (r : Reader) (b : Blocks)
    (s : Result (String × String))
    → s ≡ ok ids
    → (upload_blocks o r).result ≡ ok b
    → Works o ids
    → (started_upload o new_file size r s).result ≡ ok o.read_back
unfolding started_upload
started_ok o ids new_file size r b (err e) h k w = absurd (ground arith)
started_ok o ids new_file size r b (ok other) h k w =
    uploaded_ok o ids new_file size other b _ _ k w

-- If starting the revision, every block's upload and the commit work, Upload of any content whose
-- reader gives no error succeeds, with what reading the link back gives.
pub upload_succeeds :
    (o : Outside) (ids : String × String) (new_file : Bool) (size : ℕ) (content : Bytes)
    → Works o ids
    → (upload o new_file size (record { content = content; error = none })).result ≡ ok o.read_back
unfolding upload started_upload upload_blocks
upload_succeeds o ids new_file size content w =
    let (b, done) = blocks_from-ok (suc (length content)) o ids 1 content w (omega arith) in
    started_ok o ids new_file size (record { content = content; error = none }) b o.started w.starts
      done w
