-- ===== src/Thumbs/Png/Chunk.antt =====
-- internal/thumbs/thumbs.go: one chunk of a PNG, as insertPNGText and readPNGText see it.
use proton_drive_linux_fs.Base.{
  same_bytes, drop-drop, ℕ, suc, ◌+◌, ◌≤◌, ◌<◌, ◌≡◌, ◌≢◌, ◌∙◌, ap, refl, sym, subst, true, false,
  some, List, [], ◌∷◌, ◌++◌, ltb, if◌then◌else◌, length, take, drop, arith, All, length-append,
  append_assoc,
}
use proton_drive_linux_fs.Drive.Read.{Bytes}
use proton_drive_linux_fs.Thumbs.Png.{
  max_text_chunk, iend_type, text_type, big_endian, uint32, cut, found, read_chunks, find_from,
}

-- A chunk of a PNG, without its length field, which is that of its body.
pub record Chunk : Type 0 where
  pub kind : Bytes
  pub body : Bytes
  pub check : Bytes

-- The chunk, and what comes after it.
abbrev pub onto : Chunk → Bytes → Bytes
onto c rest = big_endian (length c.body) ++ (c.kind ++ (c.body ++ (c.check ++ rest)))

abbrev pub all_onto : List Chunk → Bytes → Bytes
all_onto [] rest = rest
all_onto (c ∷ cs) rest = onto c (all_onto cs rest)

-- Type and checksum have four bytes, and the length fits its field.
pub record IsChunk (c : Chunk) : Type 0 where
  pub kind : length c.kind ≡ 4
  pub check : length c.check ≡ 4
  pub body : length c.body < 4294967296

drop-append : (xs ys : Bytes) → drop (length xs) (xs ++ ys) ≡ ys
drop-append [] ys = refl
drop-append (x ∷ xs) ys = drop-append xs ys

take-append : (xs ys : Bytes) → take (length xs) (xs ++ ys) ≡ xs
take-append [] ys = refl
take-append (x ∷ xs) ys = ap (◌∷◌ x) (take-append xs ys)

pub drop_exact : (n : ℕ) (xs ys : Bytes) → length xs ≡ n → drop n (xs ++ ys) ≡ ys
drop_exact n xs ys h = subst (λ m. drop m (xs ++ ys) ≡ ys) h (drop-append xs ys)

pub take_exact : (n : ℕ) (xs ys : Bytes) → length xs ≡ n → take n (xs ++ ys) ≡ xs
take_exact n xs ys h = subst (λ m. take m (xs ++ ys) ≡ xs) h (take-append xs ys)

same_bytes_refl : (xs : Bytes) → same_bytes xs xs ≡ true
unfolding same_bytes
same_bytes_refl [] = refl
same_bytes_refl (x ∷ xs) = ground (arith, same_bytes_refl xs)

uint32-big_endian : (n : ℕ) (rest : Bytes) → n < 4294967296 → uint32 (big_endian n ++ rest) ≡ n
unfolding uint32 big_endian
uint32-big_endian n rest h = omega arith

-- The keyword has no NUL.
abbrev pub NoNul : Bytes → Type 0
NoNul k = All (λ x. x ≢ 0) k

cut-append : (k v : Bytes) → NoNul k → cut (k ++ 0 ∷ v) ≡ some (k, v)
unfolding cut
cut-append [] v h = ground arith
cut-append (x ∷ k) v (h, hs) = ground (arith, cut-append k v hs)

text_not_end : same_bytes text_type iend_type ≡ false
unfolding same_bytes
text_not_end = refl

pub onto-append : (c : Chunk) (xs ys : Bytes) → onto c xs ++ ys ≡ onto c (xs ++ ys)
onto-append c xs ys = simp append_assoc refl

-- What the readers take of a chunk at the start of the rest of the file.
module _ (c : Chunk) (rest : Bytes) (v : IsChunk c) where
  header_len : uint32 (onto c rest) ≡ length c.body
  unfolding big_endian
  header_len = uint32-big_endian (length c.body) (c.kind ++ (c.body ++ (c.check ++ rest))) v.body

  header_kind : take 4 (drop 4 (onto c rest)) ≡ c.kind
  unfolding big_endian
  header_kind = take_exact 4 c.kind (c.body ++ (c.check ++ rest)) v.kind

  header_body : drop 8 (onto c rest) ≡ c.body ++ (c.check ++ rest)
  unfolding big_endian
  header_body = drop_exact 4 c.kind (c.body ++ (c.check ++ rest)) v.kind

  after_chunk : drop (length c.body + 4) (c.body ++ (c.check ++ rest)) ≡ rest
  after_chunk =
      ap (drop (length c.body + 4)) (sym (append_assoc c.body c.check rest))
      ∙ drop_exact (length c.body + 4) (c.body ++ c.check) rest
          (omega (arith, length-append c.body c.check, v.check))

  pub long : 12 + length c.body + length rest ≡ length (onto c rest)
  unfolding big_endian
  long = omega (
    arith,
    length-append c.kind (c.body ++ (c.check ++ rest)),
    length-append c.body (c.check ++ rest),
    length-append c.check rest,
    v.kind,
    v.check,
  )

  pub past_chunk : drop (8 + length c.body + 4) (onto c rest) ≡ rest
  past_chunk =
      ap (λ n. drop n (onto c rest)) split
      ∙ sym (drop-drop (length c.body + 4) 8 (onto c rest))
      ∙ ap (drop (length c.body + 4)) header_body
      ∙ after_chunk
    where
      split : 8 + length c.body + 4 ≡ 8 + (length c.body + 4)
      split = omega arith

  -- A chunk of another kind is passed over.
  pub read_other :
      (fuel : ℕ) (keyword : Bytes)
      → same_bytes c.kind iend_type ≡ false
      → same_bytes c.kind text_type ≡ false
      → read_chunks (suc fuel) keyword (onto c rest) ≡ read_chunks fuel keyword rest
  unfolding read_chunks
  read_other fuel keyword other plain =
      rw (enough, header_kind, other, plain, header_len, header_body, after_chunk) refl
    where
      enough : ltb (length (onto c rest)) 8 ≡ false
      enough = ground (arith, long)

  -- findIEND passes over it, wherever it stands in a file.
  pub find_other :
      (fuel off : ℕ) (png : Bytes)
      → drop off png ≡ onto c rest
      → length png ≡ off + length (onto c rest)
      → same_bytes c.kind iend_type ≡ false
      → find_from (suc fuel) off png ≡ find_from fuel (off + (8 + length c.body + 4)) png
  unfolding find_from
  find_other fuel off png here all other =
      rw (here, header_kind, other, header_len, room, fits) refl
    where
      room : ltb (length png) (off + 8) ≡ false
      room = ground (arith, long)

      fits : ltb (length png) (off + 8 + length c.body + 4) ≡ false
      fits = ground (arith, long)

  -- A chunk with a text is read if it has the keyword.
  pub read_text :
      (fuel : ℕ) (keyword k value : Bytes)
      → c.kind ≡ text_type
      → c.body ≡ k ++ 0 ∷ value
      → NoNul k
      → length c.body ≤ max_text_chunk
      → read_chunks (suc fuel) keyword (onto c rest)
        ≡ (if same_bytes k keyword then some value else read_chunks fuel keyword rest)
  unfolding read_chunks found
  read_text fuel keyword k value kind body nul small =
      rw
        (
          enough, header_kind, not_end, is_text, header_len, header_body, after_chunk, fits, all,
          holds,
        )
        refl
    where
      enough : ltb (length (onto c rest)) 8 ≡ false
      enough = ground (arith, long)

      not_end : same_bytes c.kind iend_type ≡ false
      not_end = subst (λ t. same_bytes t iend_type ≡ false) (sym kind) text_not_end

      is_text : same_bytes c.kind text_type ≡ true
      is_text = subst (λ t. same_bytes t text_type ≡ true) (sym kind) (same_bytes_refl text_type)

      fits : ltb max_text_chunk (length c.body) ≡ false
      fits = ground (arith, small)

      all : ltb (length (c.body ++ (c.check ++ rest))) (length c.body + 4) ≡ false
      all =
          ground
            (arith, length-append c.body (c.check ++ rest), length-append c.check rest, v.check)

      holds : cut (take (length c.body) (c.body ++ (c.check ++ rest))) ≡ some (k, value)
      holds = ap cut (take-append c.body (c.check ++ rest) ∙ body) ∙ cut-append k value nul
