-- ===== src/Drive/Read/Prefix.antt =====
-- internal/drive/file.go: what ReadAt returns.
use proton_drive_linux_fs.Base.{
  Bool-cases, leb-false, inl, inr, ℕ, zero, suc, ◌+◌, ◌-◌, ◌≤◌, ◌<◌, ◌≡◌, refl, Option, none, some,
  [], ◌∷◌, ◌++◌, leb, length, take, drop, arith, min, length-take, length-drop, length-append,
  drop-drop, drop-take, take-take, take-append-take, ap, ◌∙◌,
}
use proton_drive_linux_fs.Drive.Errors.{Result, ok, err}
use proton_drive_linux_fs.Drive.Read.{
  Bytes, block_size, block_index_for_offset, block_byte_offset, Reply, finish, on_block, read_loop,
  read_at, pos,
}

-- Block `idx` of a file's plaintext.
abbrev pub chunk : Bytes → ℕ → Bytes
chunk content idx = take block_size (drop (block_byte_offset idx) content)

-- The block of an offset starts at or before it and ends after it.
pub block_covers :
    (cur : ℕ)
    → (block_byte_offset (block_index_for_offset cur) ≤ cur)
      × (cur < block_byte_offset (block_index_for_offset cur) + block_size)
unfolding block_byte_offset block_index_for_offset block_size
block_covers cur = omega arith

-- What a round copies out of the right block are the next bytes of the file.
pub copied_lem :
    (content : Bytes) (cur start room : ℕ)
    → start ≤ cur
    → take room (drop (cur - start) (take block_size (drop start content)))
      ≡ take (min room (block_size - (cur - start))) (drop cur content)
copied_lem content cur start room h =
    rw
      (
        drop-take (cur - start) block_size (drop start content),
        take-take room (block_size - (cur - start)) (drop (cur - start) (drop start content)),
        drop-drop (cur - start) start content,
      )
      (ap (λ k. take (min room (block_size - (cur - start))) (drop k content)) same)
  where
    same : start + (cur - start) ≡ cur
    same = omega arith

-- `out` is the part of the file from `off` on, as far as it goes.
abbrev pub Prefix : Bytes → ℕ → Bytes → Type 0
Prefix content off out = out ≡ take (length out) (drop off content)

-- The loop ended, with a reply and a state as `P` says.
abbrev pub Returns : {S : Type 0} → (Reply → S → Type 0) → Option (Reply × S) → Type 0
Returns P none = ⊥
Returns P (some (r, s)) = P r s

-- A reply that holds what the file has, and is without an error only if it is full.
abbrev pub Honest : Bytes → ℕ → ℕ → Reply → Type 0
Honest content len off (data', e) =
    Prefix content off data' × (length data' ≤ len) × (e ≡ none → length data' ≡ len)

finish-Honest :
    (content : Bytes) (len off : ℕ) (out : Bytes)
    → Prefix content off out
    → length out ≤ len
    → Honest content len off (finish len out)
finish-Honest content len off out p h = ground arith

pub take-length : (k : ℕ) (ys : Bytes) → take k ys ≡ take (length (take k ys)) ys
take-length zero ys = refl
take-length (suc k) [] = refl
take-length (suc k) (y ∷ ys) = ap (◌∷◌ y) (take-length k ys)

-- A round of the loop adds the next bytes of the file.
Prefix-append :
    (content : Bytes) (off c : ℕ) (out : Bytes)
    → Prefix content off out
    → Prefix content off (out ++ take c (drop (off + length out) content))
Prefix-append content off c out p = rw joined (take-length (length out + c) (drop off content))
  where
    joined :
        out ++ take c (drop (off + length out) content) ≡ take (length out + c) (drop off content)
    joined =
        ap (λ o. o ++ take c (drop (off + length out) content)) p
        ∙ rw (← drop-drop (length out) off content)
            (take-append-take (length out) c (drop off content))

-- One round with the right block, whatever the slice still has room for.
pub round_copies :
    (content : Bytes) (len off : ℕ) (out block : Bytes)
    → block ≡ chunk content (block_index_for_offset (off + length out))
    → Prefix content off out
    → let cur = off + length out in
      let in_off = cur - block_byte_offset (block_index_for_offset cur) in
      let more = out ++ take (len - length out) (drop in_off block) in
      Prefix content off more
      × (length more ≡ length out + min (len - length out) (length block - in_off))
round_copies content len off out block right p = (rw same (Prefix-append content off _ out p), long)
  where
    cur : ℕ
    cur = off + length out

    in_off : ℕ
    in_off = cur - block_byte_offset (block_index_for_offset cur)

    copied : Bytes
    copied = take (len - length out) (drop in_off block)

    same : copied ≡ take (min (len - length out) (block_size - in_off)) (drop cur content)
    same =
        ap (λ b. take (len - length out) (drop in_off b)) right
        ∙ copied_lem content cur (block_byte_offset (block_index_for_offset cur)) (len - length out)
            (block_covers cur).0

    long : length (out ++ copied) ≡ length out + min (len - length out) (length block - in_off)
    long = omega (
      arith,
      length-append out copied,
      length-take (len - length out) (drop in_off block),
      length-drop in_off block,
    )

module _ {S : Type 0} (Inv : S → Type 0) (get_block : S → ℕ → Result Bytes × S) (content : Bytes)
    (size : ℕ)
    (sound : (s : S) (idx : ℕ)
      → Inv s
      → Inv (get_block s idx).1
        × ((block : Bytes) → (get_block s idx).0 ≡ ok block → block ≡ chunk content idx)) where
  abbrev Sound : ℕ → ℕ → Reply → S → Type 0
  Sound len off r s = Honest content len off r × Inv s

  on_block-Sound :
      (again : S → Bytes → Option (Reply × S)) (len off : ℕ) (out : Bytes) (got : Result Bytes × S)
      → ((t : S) (more : Bytes)
          → Inv t
          → Prefix content off more
          → length out < length more
          → length more ≤ len
          → Returns (Sound len off) (again t more))
      → Inv got.1
      → ((block : Bytes)
          → got.0 ≡ ok block
          → block ≡ chunk content (block_index_for_offset (off + length out)))
      → Prefix content off out
      → length out < len
      → Returns (Sound len off) (on_block again len off out got)
  unfolding on_block
  on_block-Sound again len off out (err e, s) ih v right p h = ground arith
  on_block-Sound again len off out (ok block, s) ih v right p h =
      elim (Bool-cases (leb (length block) in_off)) [
        | inl short ↦ rw short (ground arith)
        | inr more ↦
            let (q, long) = round_copies content len off out block (right block refl) p in
            rw more (
              ih s _ v q (omega (arith, long, leb-false (length block) in_off more))
                (omega (arith, long)))
      ]
    where
      in_off : ℕ
      in_off = off + length out - block_byte_offset (block_index_for_offset (off + length out))

  read_loop-Sound :
      (fuel len off : ℕ) (s : S) (out : Bytes)
      → len < fuel + length out
      → Inv s
      → Prefix content off out
      → length out ≤ len
      → Returns (Sound len off) (read_loop get_block size fuel len off s out)
  unfolding read_loop
  read_loop-Sound zero len off s out f v p h = absurd (omega arith)
  read_loop-Sound (suc fuel) len off s out f v p h = elim (Bool-cases (leb len (length out))) [
    | inl full ↦ rw full (finish-Honest content len off out p h, v)
    | inr room ↦ elim (Bool-cases (leb size (off + length out))) [
      | inl end ↦ rw (room, end) (finish-Honest content len off out p h, v)
      | inr within ↦
          rw (room, within)
            (on_block-Sound (λ t more. read_loop get_block size fuel len off t more) len off out
              (get_block s (block_index_for_offset (off + length out)))
              (λ t more w q l b. read_loop-Sound fuel len off t more (omega arith) w q b)
              (sound s _ v).0 (sound s _ v).1 p (leb-false len (length out) room))
    ]
  ]

  -- Whatever getBlock does, as long as the blocks it returns are those of the file: ReadAt ends, the
  -- bytes it returns are those of the file from the offset on, no more than asked for, and a nil
  -- error means that the whole slice was filled.
  pub read_at-Sound :
      (len off : ℕ) (s : S)
      → Inv s
      → Returns (Sound len off) (read_at get_block size len (pos off) s)
  unfolding read_at
  read_at-Sound len off s v = elim (Bool-cases (leb size off)) [
    | inl end ↦ rw end ((refl, omega arith, λ e. cc), v)
    | inr within ↦
        rw within (read_loop-Sound (suc len) len off s [] (omega arith) v refl (omega arith))
  ]
