-- ===== src/Witness/Blocks.antt =====
-- A file of internal/drive/file.go, of one block, and the transfers of activity.go.
use proton_drive_linux_fs.Base.{
  ℕ, zero, suc, ◌≤◌, ◌≡◌, refl, sym, ◌∙◌, ap, true, false, none, some, List, [], ◌∷◌, arith, All,
  length, take, drop, subst, lookup, nat_key, take_of_length-le,
}
use proton_drive_linux_fs.Drive.Errors.{Result, ok, err, eof, canceled}
use proton_drive_linux_fs.Drive.Read.{
  Bytes, block_size, block_index_for_offset, block_byte_offset, pos, read_at,
}
use proton_drive_linux_fs.Drive.Read.Prefix.{chunk, Returns, Honest}
use proton_drive_linux_fs.Drive.Read.Masked.{first_copy, read_at_hides_error}
use proton_drive_linux_fs.Drive.Activity.{Transfer, Activity}
use proton_drive_linux_fs.Drive.Activity.Counted.{Inv}
use proton_drive_linux_fs.Drive.File.{
  Block, File, Remote, State, file_read_at, cache_put, max_cached_blocks,
}
use proton_drive_linux_fs.Drive.File.Cache.{IsBounded, cache_put-IsBounded}
use proton_drive_linux_fs.Drive.File.Blocks.{Trusted, IsCoherent, file_read_at-Honest}

abbrev pub content : Bytes
content = 1 ∷ 2 ∷ 3 ∷ []

short : length content ≤ block_size
unfolding block_size
short = omega arith

at_start : (idx : ℕ) → idx ≡ 1 → 0 ≡ block_byte_offset idx
unfolding block_byte_offset
at_start idx h = rw h (omega arith)

pub block_one : (idx : ℕ) → idx ≡ 1 → content ≡ chunk content idx
block_one idx h =
    sym (take_of_length-le block_size content short)
    ∙ ap (λ n. take block_size (drop n content)) (at_start idx h)

abbrev block : Block
block = record { index = 1; bare_url = "u"; token = "t" }

abbrev pub remote : Remote (Unit {0})
remote = record {
  now = λ w. 5;
  revision_all_blocks = λ link rev w. (ok (block ∷ []), w);
  fetch_block = λ b w. ((ok content, true), w);
  decrypt = λ c. ok c;
  has_disk = false;
  large_file = 0;
  disk_get = λ link rev idx w. (none, w);
  disk_put = λ link rev idx c w. w;
}

pub ok_inj : {a b : Bytes} → ok a ≡ ok b → a ≡ b
ok_inj h = cc

pub list_inj : {a b : List Block} → ok a ≡ ok b → a ≡ b
list_inj h = cc

pub one_block : (bs : List Block) → block ∷ [] ≡ bs → All (λ b. b.index ≡ 1) bs
one_block bs h = subst (All (λ b. b.index ≡ 1)) h (refl, tt)

abbrev pub remote-Trusted : Trusted remote content
remote-Trusted = record {
  Clean = λ w. Unit {0};
  Serves = λ b idx. idx ≡ 1;
  listed = λ link rev w clean. (tt, λ bs h. one_block bs (list_inj h));
  fetched = λ b idx w clean serves.
      (tt, λ c p got plain. sym (ok_inj got ∙ ok_inj plain) ∙ block_one idx serves);
  disk_hit = λ link rev idx w clean. (tt, λ c h. absurd (ground arith));
  disk_stored = λ link rev idx w clean. tt;
}

abbrev file : File
file = record {
  blocks = [];
  size = 3;
  link_id = "l";
  rev_id = "r";
  path = "a";
  cache = [];
  cache_lru = [];
  transfer = none;
  closed = false;
  failed = false;
}

abbrev activity : Activity
activity = record { next_transfer_id = 0; transfers = 0; current = [] }

abbrev state : State (Unit {0})
state = record { file = file; activity = activity; world = tt }

state-IsCoherent : IsCoherent remote content remote-Trusted state
unfolding lookup
state-IsCoherent = record {
  cached = λ idx b h. absurd (ground arith);
  serving = λ idx b h. absurd (ground arith);
  clean = tt;
}

file_read_at-Honest_example :
    Returns
      (λ r t. Honest content 2 1 r × IsCoherent remote content remote-Trusted t)
      (file_read_at remote 2 (pos 1) state)
file_read_at-Honest_example =
    file_read_at-Honest remote content remote-Trusted 2 1 state state-IsCoherent

file-IsBounded : IsBounded file
file-IsBounded = record { queued = refl; distinct = tt; bounded = omega arith }

cache_put-IsBounded_example :
    IsBounded (cache_put 1 content file)
    × (length (cache_put 1 content file).cache ≤ max_cached_blocks)
    × (lookup 1 (cache_put 1 content file).cache
        ≡ (elim (lookup 1 file.cache) [ none ↦ some content | some old ↦ some old ]))
cache_put-IsBounded_example = cache_put-IsBounded 1 content file file-IsBounded

activity-Inv : Inv activity
unfolding lookup
activity-Inv = record { counted = refl; distinct = tt; fresh = λ id h. refl }

abbrev transfer : Transfer
transfer = record { id = 1; path = "a"; action = "upload"; total = 3; started = 5; bytes = 0 }

abbrev running : Activity
running = record { next_transfer_id = 1; transfers = 1; current = (1, transfer) ∷ [] }

running-Inv : Inv running
unfolding lookup
running-Inv = record { counted = refl; distinct = (refl, tt); fresh = λ id h. ground arith }

abbrev honest_block : Unit {0} → ℕ → Result Bytes × Unit {0}
honest_block s idx = (ok (chunk content idx), s)

-- The first block comes, and no other.
abbrev first_only : ℕ → ℕ → Result Bytes × ℕ
first_only zero idx = (ok content, 1)
first_only (suc n) idx = (err canceled, 2)

read_at_hides_error_example :
    read_at first_only 10 5 (pos 0) 0 ≡ some ((first_copy 5 0 content, some eof), 2)
unfolding block_byte_offset block_index_for_offset block_size
read_at_hides_error_example =
    read_at_hides_error first_only 10 5 0 0 1 2 content canceled (omega arith) refl (omega arith)
      (omega arith) (omega arith) refl

abbrev pub listed_state : State (Unit {0})
listed_state = record state { file = record file { blocks = (1, block) ∷ [] } }

pub listed_state-IsCoherent : IsCoherent remote content remote-Trusted listed_state
unfolding lookup
listed_state-IsCoherent = record {
  cached = λ idx b h. absurd (ground arith);
  serving = λ idx b h. ground (arith, h);
  clean = tt;
}
