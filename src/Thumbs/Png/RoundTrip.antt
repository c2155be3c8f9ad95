-- ===== src/Thumbs/Png/RoundTrip.antt =====
-- internal/thumbs/thumbs.go: a tEXt chunk that was inserted into a PNG is read back.
use proton_drive_linux_fs.Base.{
  same_bytes, ℕ, suc, ◌+◌, ◌-◌, ◌≤◌, ◌<◌, ◌≡◌, ◌∙◌, ap, refl, sym, false, ◌||◌, Option, none, some,
  List, [], ◌∷◌, ◌++◌, ltb, ◌==◌, if◌then◌else◌, length, take, drop, arith, All, length-append,
  append_assoc,
}
use proton_drive_linux_fs.Drive.Read.{Bytes}
use proton_drive_linux_fs.Thumbs.Png.{
  png_signature_len, max_text_chunk, text_type, big_endian, read_chunks, read_png_text, find_from,
  find_iend, text_chunk, more, text_chunks, insert_at, inserted, insert_png_text,
}
use proton_drive_linux_fs.Thumbs.Png.Chunk.{
  Chunk, onto, all_onto, IsChunk, drop_exact, take_exact, NoNul, long, read_text,
}
use proton_drive_linux_fs.Thumbs.Png.Walk.{
  Plain, IsEnd, all_onto-append, find_end, read_over, read_end,
}

-- A keyword that the standard allows, and a text that readPNGText does not find too long.
abbrev pub IsText : Bytes × Bytes → Type 0
IsText (k, v) =
    NoNul k × (0 < length k) × (length k ≤ 79) × (length k + 1 + length v ≤ max_text_chunk)

-- The value of the first pair with a keyword.
abbrev pub value_of : Bytes → List (Bytes × Bytes) → Option Bytes
value_of keyword [] = none
value_of keyword ((k, v) ∷ text) =
    let later = value_of keyword text in if same_bytes k keyword then some v else later

module _ (crc : Bytes → ℕ) where
  chunk_of : Bytes × Bytes → Chunk
  chunk_of (k, v) = record {
    kind = text_type;
    body = k ++ 0 ∷ v;
    check = big_endian (crc (text_type ++ k ++ 0 ∷ v));
  }

  chunks_of : List (Bytes × Bytes) → List Chunk
  chunks_of [] = []
  chunks_of (kv ∷ text) = chunk_of kv ∷ chunks_of text

  chunk_of-IsChunk : (kv : Bytes × Bytes) → IsText kv → IsChunk (chunk_of kv)
  unfolding chunk_of big_endian max_text_chunk
  chunk_of-IsChunk (k, v) (nul, some_key, short, small) = record {
    kind = refl;
    check = refl;
    body = omega (arith, length-append k (0 ∷ v));
  }

  text_chunk-onto :
      (k v rest : Bytes)
      → IsText (k, v)
      → (ch : Bytes) × (text_chunk crc k v ≡ some ch) × (ch ++ rest ≡ onto (chunk_of (k, v)) rest)
  unfolding text_chunk chunk_of
  text_chunk-onto k v rest (nul, some_key, short, small) =
      (chunk, ap (λ b. if b then none else some chunk) allowed, joined)
    where
      payload : Bytes
      payload = text_type ++ k ++ 0 ∷ v

      chunk : Bytes
      chunk = big_endian (length payload - 4) ++ payload ++ big_endian (crc payload)

      allowed : length k == 0 || ltb 79 (length k) ≡ false
      allowed = ground arith

      len : length payload - 4 ≡ length (k ++ 0 ∷ v)
      len = omega arith

      joined : chunk ++ rest ≡ onto (chunk_of (k, v)) rest
      joined =
          ap (λ n. big_endian n ++ payload ++ big_endian (crc payload) ++ rest) len
          ∙ simp append_assoc refl

  text_chunks-onto :
      (text : List (Bytes × Bytes)) (rest : Bytes)
      → All IsText text
      → (cs : Bytes) × (text_chunks crc text ≡ some cs)
        × (cs ++ rest ≡ all_onto (chunks_of text) rest)
  unfolding text_chunks more chunks_of
  text_chunks-onto [] rest h = ([], refl, refl)
  text_chunks-onto ((k, v) ∷ text) rest (h, hs) =
      let (cs, made, joined) = text_chunks-onto text rest hs in
      let (c, one, first) = text_chunk-onto k v (cs ++ rest) h in
      (
        c ++ cs,
        rw (one, made) refl,
        append_assoc c cs rest ∙ first ∙ ap (onto (chunk_of (k, v))) joined,
      )

  read_texts :
      (text : List (Bytes × Bytes)) (fuel : ℕ) (keyword rest : Bytes)
      → All IsText text
      → IsEnd rest
      → read_chunks (length text + fuel) keyword (all_onto (chunks_of text) rest)
        ≡ value_of keyword text
  unfolding chunks_of chunk_of
  read_texts [] fuel keyword rest h end = read_end _ keyword rest end
  read_texts ((k, v) ∷ text) fuel keyword rest (h, hs) end =
      ap (λ n. read_chunks n keyword (all_onto (chunks_of ((k, v) ∷ text)) rest)) more_fuel
      ∙ read_text (chunk_of (k, v)) (all_onto (chunks_of text) rest) (chunk_of-IsChunk (k, v) h)
          (length text + fuel) keyword k v refl refl h.0 small
      ∙ ap (λ later. if same_bytes k keyword then some v else later)
          (read_texts text fuel keyword rest hs end)
    where
      more_fuel : length ((k, v) ∷ text) + fuel ≡ suc (length text + fuel)
      more_fuel = omega arith

      small : length (k ++ 0 ∷ v) ≤ max_text_chunk
      small = omega (arith, length-append k (0 ∷ v), h)

  length-all_onto :
      (cs : List Chunk) (rest : Bytes)
      → All IsChunk cs
      → length cs + length rest ≤ length (all_onto cs rest)
  length-all_onto [] rest h = omega arith
  length-all_onto (c ∷ cs) rest (v, vs) =
      omega (arith, long c (all_onto cs rest) v, length-all_onto cs rest vs)

  length-chunks_of :
      (text : List (Bytes × Bytes)) (rest : Bytes)
      → All IsText text
      → length text + length rest ≤ length (all_onto (chunks_of text) rest)
  unfolding chunks_of chunk_of
  length-chunks_of [] rest h = omega arith
  length-chunks_of (kv ∷ text) rest (h, hs) = omega (
    arith,
    long (chunk_of kv) (all_onto (chunks_of text) rest) (chunk_of-IsChunk kv h),
    length-chunks_of text rest hs,
  )

  Plain-IsChunk : (cs : List Chunk) → All Plain cs → All IsChunk cs
  Plain-IsChunk [] h = tt
  Plain-IsChunk (c ∷ cs) (h, hs) = (h.0, Plain-IsChunk cs hs)

  -- The whole file, with the texts in their place.
  read_all :
      (cs : List Chunk) (text : List (Bytes × Bytes)) (signature rest keyword : Bytes)
      → length signature ≡ 8
      → All Plain cs
      → All IsText text
      → IsEnd rest
      → read_png_text (signature ++ all_onto cs (all_onto (chunks_of text) rest)) keyword
        ≡ value_of keyword text
  unfolding read_png_text
  read_all cs text signature rest keyword eight plain ok_text end =
      ap (read_chunks (length png) keyword) (drop_exact 8 signature _ eight)
      ∙ ap (λ n. read_chunks n keyword (all_onto cs (all_onto (chunks_of text) rest))) enough
      ∙ read_over cs (length text + spare) keyword (all_onto (chunks_of text) rest) plain
      ∙ read_texts text spare keyword rest ok_text end
    where
      png : Bytes
      png = signature ++ all_onto cs (all_onto (chunks_of text) rest)

      spare : ℕ
      spare = length png - (length cs + length text)

      enough : length png ≡ length cs + (length text + spare)
      enough = omega (
        arith,
        length-append signature (all_onto cs (all_onto (chunks_of text) rest)),
        length-all_onto cs (all_onto (chunks_of text) rest) (Plain-IsChunk cs plain),
        length-chunks_of text rest ok_text,
      )

  -- For a PNG of a signature of eight bytes, chunks that are neither tEXt nor IEND, and an IEND
  -- chunk, and for texts whose keywords have one to 79 bytes and no NUL and that fit in the largest
  -- chunk that is read: insertPNGText succeeds, and readPNGText of the result gives for every
  -- keyword the value of its first text, or nothing if there is none.
  pub insert-read_png_text :
      (cs : List Chunk) (text : List (Bytes × Bytes)) (signature rest : Bytes)
      → length signature ≡ png_signature_len
      → All Plain cs
      → All IsText text
      → IsEnd rest
      → (out : Bytes) × (insert_png_text crc (signature ++ all_onto cs rest) text ≡ some out)
        × ((keyword : Bytes) → read_png_text out keyword ≡ value_of keyword text)
  unfolding insert_png_text inserted insert_at find_iend
  insert-read_png_text cs text signature rest eight plain ok_text end =
      let (chunks, made, joined) = text_chunks-onto text rest ok_text in
      (
        take iend png ++ chunks ++ drop iend png,
        ap (inserted crc png (text_chunks crc text)) place ∙ ap (insert_at crc png iend) made,
        λ keyword.
            ap (λ out. read_png_text out keyword) (whole chunks joined)
            ∙ read_all cs text signature rest keyword eight plain ok_text end,
      )
    where
      png : Bytes
      png = signature ++ all_onto cs rest

      front : Bytes
      front = signature ++ all_onto cs []

      iend : ℕ
      iend = 8 + length (all_onto cs [])

      cut_there : png ≡ front ++ rest
      cut_there =
          ap (◌++◌ signature) (all_onto-append cs rest)
          ∙ sym (append_assoc signature (all_onto cs []) rest)

      front_long : length front ≡ iend
      front_long = omega (arith, length-append signature (all_onto cs []), eight)

      place : find_from (length png) 8 png ≡ some iend
      place =
          find_end cs rest (length png) 8 png plain end (drop_exact 8 signature _ eight)
            (omega (arith, length-append signature (all_onto cs rest), eight))
            (omega (
              arith,
              length-append signature (all_onto cs rest),
              length-all_onto cs rest (Plain-IsChunk cs plain),
              eight,
            ))

      whole :
          (chunks : Bytes)
          → chunks ++ rest ≡ all_onto (chunks_of text) rest
          → take iend png ++ chunks ++ drop iend png
            ≡ signature ++ all_onto cs (all_onto (chunks_of text) rest)
      whole chunks joined =
          ap (λ p. take iend p ++ chunks ++ drop iend p) cut_there
          ∙ ap (λ p. p ++ chunks ++ drop iend (front ++ rest))
              (take_exact iend front rest front_long)
          ∙ ap (◌++◌ (front ++ chunks)) (drop_exact iend front rest front_long)
          ∙ append_assoc front chunks rest
          ∙ ap (◌++◌ front) joined
          ∙ append_assoc signature (all_onto cs []) _
          ∙ ap (◌++◌ signature) (sym (all_onto-append cs _))
