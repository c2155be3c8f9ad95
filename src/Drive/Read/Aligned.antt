-- ===== src/Drive/Read/Aligned.antt =====
-- internal/drive/file.go: ReadAt of a slice that lies within one block.
use proton_drive_linux_fs.Base.{
  subst, sym, min, ℕ, zero, suc, ◌+◌, ◌-◌, ◌≤◌, ◌<◌, ◌≡◌, ◌≢◌, ap, none, true, ◌∙◌, refl, some, [],
  length, take, drop, arith, lt→leb-false, length-take, length-drop, Bool-cases, leb, leb-false,
  inl, inr,
}
use proton_drive_linux_fs.Drive.Errors.{Err, Result, ok, err, eof}
use proton_drive_linux_fs.Drive.Read.{
  Bytes, Reply, block_size, block_index_for_offset, block_byte_offset, finish, on_block, read_loop,
  read_at, pos,
}
use proton_drive_linux_fs.Drive.Read.Prefix.{chunk, Returns, copied_lem, block_covers}

-- A reply without an error is the whole slice, and one with EOF holds all that is left of the file;
-- `Cause` holds of any other error.
abbrev pub Complete : (Err → Type 0) → Bytes → ℕ → ℕ → Reply → Type 0
Complete Cause content len off (out, none) =
    (out ≡ take len (drop off content)) × (length out ≡ len)
Complete Cause content len off (out, some e) =
    (e ≡ eof → (out ≡ take len (drop off content)) × (length content ≤ off + length out))
    × (e ≢ eof → Cause e)

finish-Complete :
    (Cause : Err → Type 0) (content : Bytes) (len off : ℕ) (out : Bytes)
    → out ≡ take len (drop off content)
    → Complete Cause content len off (finish len out)
finish-Complete Cause content len off out p =
    ground (arith, ap length p, length-take len (drop off content), length-drop off content)

-- A slice that lies in one block is complete after the first round.
second_round :
    {S : Type 0} (get_block : S → ℕ → Result Bytes × S) (content : Bytes) (fuel len off : ℕ) (t : S)
    (out : Bytes)
    → out ≡ take len (drop off content)
    → read_loop get_block (length content) (suc fuel) len off t out ≡ some (finish len out, t)
unfolding read_loop
second_round get_block content fuel len off t out p = elim (Bool-cases (leb len (length out))) [
  | inl full ↦ rw full refl
  | inr room ↦ rw (room, ended (leb-false len (length out) room)) refl
]
  where
    reached : length out < len → length content ≤ off + length out
    reached h =
        omega (arith, ap length p, length-take len (drop off content), length-drop off content)

    ended : length out < len → leb (length content) (off + length out) ≡ true
    ended h = ground (arith, reached h)

module _ {S : Type 0} (Cause : Err → Type 0) (Inv : S → Type 0)
    (get_block : S → ℕ → Result Bytes × S) (content : Bytes)
    (sound : (s : S) (idx : ℕ)
      → Inv s
      → Inv (get_block s idx).1
        × ((block : Bytes) → (get_block s idx).0 ≡ ok block → block ≡ chunk content idx)
        × ((e : Err) → (get_block s idx).0 ≡ err e → (e ≢ eof) × Cause e)) where
  abbrev Full : ℕ → ℕ → Reply → S → Type 0
  Full len off r t = Complete Cause content len off r × Inv t

  first_block :
      (len off : ℕ) (s : S) (got : Result Bytes × S)
      → off < length content
      → off - block_byte_offset (block_index_for_offset off) + suc len ≤ block_size
      → Inv got.1
      → ((block : Bytes) → got.0 ≡ ok block → block ≡ chunk content (block_index_for_offset off))
      → ((e : Err) → got.0 ≡ err e → (e ≢ eof) × Cause e)
      → Returns (Full (suc len) off) (
          on_block
            (λ t more. read_loop get_block (length content) (suc len) (suc len) off t more)
            (suc len)
            off
            []
            got)
  unfolding on_block
  first_block len off s (err e, t) inside fits v right plain =
      ((λ same. absurd ((plain e refl).0 same), λ d. (plain e refl).1), v)
  first_block len off s (ok block, t) inside fits v right plain =
      rw (here, lt→leb-false (length block) in_off enough)
        (subst (Returns (Full (suc len) off))
          (sym (second_round get_block content len (suc len) off t _ copied))
          (finish-Complete Cause content (suc len) off _ copied, v))
    where
      in_off : ℕ
      in_off = off - block_byte_offset (block_index_for_offset off)

      here : off + 0 ≡ off
      here = omega arith

      block_is : block ≡ chunk content (block_index_for_offset off)
      block_is = right block refl

      enough : in_off < length block
      enough = omega (
        arith,
        ap length block_is,
        length-take block_size (drop (block_byte_offset (block_index_for_offset off)) content),
        length-drop (block_byte_offset (block_index_for_offset off)) content,
        block_covers off,
      )

      copied : take (suc len - 0) (drop in_off block) ≡ take (suc len) (drop off content)
      copied =
          ap (λ n. take n (drop in_off block)) all
          ∙ ap (λ b. take (suc len) (drop in_off b)) block_is
          ∙ copied_lem content off (block_byte_offset (block_index_for_offset off)) (suc len)
              (block_covers off).0
          ∙ ap (λ n. take n (drop off content)) whole
        where
          all : suc len - 0 ≡ suc len
          all = omega arith

          whole : min (suc len) (block_size - in_off) ≡ suc len
          whole = omega arith

  first_round :
      (fuel len off : ℕ) (s : S)
      → off < length content
      → Returns (Full (suc len) off) (
          on_block
            (λ t more. read_loop get_block (length content) fuel (suc len) off t more)
            (suc len)
            off
            []
            (get_block s (block_index_for_offset off)))
      → Returns
          (Full (suc len) off)
          (read_loop get_block (length content) (suc fuel) (suc len) off s [])
  unfolding read_loop
  first_round fuel len off s inside rest =
      rw (lt→leb-false (suc len) 0 (omega arith), here, lt→leb-false (length content) off inside)
        rest
    where
      here : off + 0 ≡ off
      here = omega arith

  -- ReadAt of a slice that lies within one block, at an offset of the file, copies all of it or all
  -- that is left of the file.
  pub read_at-Complete :
      (len off : ℕ) (s : S)
      → off < length content
      → 0 < len
      → off - block_byte_offset (block_index_for_offset off) + len ≤ block_size
      → Inv s
      → Returns (Full len off) (read_at get_block (length content) len (pos off) s)
  unfolding read_at read_loop
  read_at-Complete zero off s inside room fits v = absurd (omega arith)
  read_at-Complete (suc len) off s inside room fits v =
      let (kept, right, plain) = sound s (block_index_for_offset off) v in
      rw (lt→leb-false (length content) off inside) (
        first_round (suc len) len off s inside (
          first_block len off s (get_block s (block_index_for_offset off)) inside fits kept right
            plain))

pub read_at_past :
    {S : Type 0} (get_block : S → ℕ → Result Bytes × S) (size len off : ℕ) (s : S)
    → size ≤ off
    → read_at get_block size len (pos off) s ≡ some (([], some eof), s)
unfolding read_at
read_at_past get_block size len off s h = ground (arith, h)
