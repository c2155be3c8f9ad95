-- ===== src/Thumbs/Png.antt =====
-- internal/thumbs/thumbs.go: the tEXt chunks of a preview, which Write puts into the encoded PNG and
-- Fresh reads back. A byte is a number below 256, and a Go string the list of its bytes.
pub mod Chunk
pub mod Walk
pub mod RoundTrip
use proton_drive_linux_fs.Base.{
  ℕ, zero, suc, ◌+◌, ◌-◌, ◌*◌, ◌/◌, ◌%◌, Bool, true, false, not, ◌&&◌, ◌||◌, Option, none, some,
  List, [], ◌∷◌, ◌++◌, ltb, ◌==◌, if◌then◌else◌, same_bytes, length, take, drop,
}
use proton_drive_linux_fs.Drive.Read.{Bytes}

abbrev pub png_signature_len : ℕ
png_signature_len = 8

-- Shut, so that no list is measured against it.
unfoldable pub max_text_chunk : ℕ
max_text_chunk = 65536

-- "IEND" and "tEXt"
abbrev pub iend_type : Bytes
iend_type = 73 ∷ 69 ∷ 78 ∷ 68 ∷ []

abbrev pub text_type : Bytes
text_type = 116 ∷ 69 ∷ 88 ∷ 116 ∷ []

-- AppendUint32 and Uint32 of binary.BigEndian, the former of a number converted to uint32.
unfoldable pub big_endian : ℕ → Bytes
big_endian n = n / 16777216 % 256 ∷ n / 65536 % 256 ∷ n / 256 % 256 ∷ n % 256 ∷ []

unfoldable pub uint32 : Bytes → ℕ
uint32 (a ∷ b ∷ c ∷ d ∷ rest) = 16777216 * a + 65536 * b + 256 * c + d
uint32 _ = 0

-- bytes.Cut at the first NUL; `none` when there is none.
unfoldable pub cut : Bytes → Option (Bytes × Bytes)
cut [] = none
cut (x ∷ xs) =
    let rest : Option (Bytes × Bytes) = elim (cut xs) [
      | none ↦ none
      | some kv ↦ some (x ∷ kv.0, kv.1)
    ] in
    if x == 0 then some ([], xs) else rest

found : Bytes → Option (Bytes × Bytes) → Option Bytes → Option Bytes
found keyword none later = later
found keyword (some (key, value)) later = if same_bytes key keyword then some value else later

-- The loop of readPNGText, on what is left of the file. A seek past the end leaves nothing.
pub read_chunks : ℕ → Bytes → Bytes → Option Bytes
unfolding found
read_chunks zero keyword rest = none
read_chunks (suc fuel) keyword rest =
    let len = uint32 rest in
    let chunk_type = take 4 (drop 4 rest) in
    let body = drop 8 rest in
    let later = read_chunks fuel keyword (drop (len + 4) body) in
    if ltb (length rest) 8
    then none
    else if same_bytes chunk_type iend_type
    then none
    else if not (same_bytes chunk_type text_type) || ltb max_text_chunk len
    then later
    else if ltb (length body) (len + 4)
    then none
    else found keyword (cut (take len body)) later

-- Every round reads eight bytes, so the length of the file is fuel enough.
unfoldable pub read_png_text : Bytes → Bytes → Option Bytes
unfolding read_chunks
read_png_text png keyword = read_chunks (length png) keyword (drop png_signature_len png)

-- The loop of findIEND; `none` is -1.
pub find_from : ℕ → ℕ → Bytes → Option ℕ
find_from zero off png = none
find_from (suc fuel) off png =
    let rest = drop off png in
    let len = uint32 rest in
    let later = find_from fuel (off + (8 + len + 4)) png in
    if ltb (length png) (off + 8)
    then none
    else if same_bytes (take 4 (drop 4 rest)) iend_type
    then some off
    else if ltb (length png) (off + 8 + len + 4)
    then none
    else later

unfoldable pub find_iend : Bytes → Option ℕ
unfolding find_from
find_iend png = find_from (length png) png_signature_len png

-- `crc` is crc32.ChecksumIEEE; `none` is an error.
module _ (crc : Bytes → ℕ) where
  unfoldable pub text_chunk : Bytes → Bytes → Option Bytes
  text_chunk keyword value =
      let payload = text_type ++ keyword ++ 0 ∷ value in
      let chunk = big_endian (length payload - 4) ++ payload ++ big_endian (crc payload) in
      if length keyword == 0 || ltb 79 (length keyword) then none else some chunk

  more : Option Bytes → Option Bytes → Option Bytes
  more none rest = none
  more (some c) none = none
  more (some c) (some rest) = some (c ++ rest)

  unfoldable pub text_chunks : List (Bytes × Bytes) → Option Bytes
  unfolding more
  text_chunks [] = some []
  text_chunks ((k, v) ∷ text) = more (text_chunk k v) (text_chunks text)

  insert_at : Bytes → ℕ → Option Bytes → Option Bytes
  insert_at png iend none = none
  insert_at png iend (some chunks) = some (take iend png ++ chunks ++ drop iend png)

  inserted : Bytes → Option Bytes → Option ℕ → Option Bytes
  unfolding insert_at
  inserted png chunks none = none
  inserted png chunks (some iend) = insert_at png iend chunks

  unfoldable pub insert_png_text : Bytes → List (Bytes × Bytes) → Option Bytes
  unfolding inserted
  insert_png_text png text = inserted png (text_chunks text) (find_iend png)
