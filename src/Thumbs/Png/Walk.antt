-- ===== src/Thumbs/Png/Walk.antt =====
-- internal/thumbs/thumbs.go: findIEND and readPNGText on the chunks of a PNG.
use proton_drive_linux_fs.Base.{
  same_bytes, drop-drop, ℕ, zero, suc, ◌+◌, ◌≤◌, ◌<◌, ◌≡◌, ◌∙◌, ap, refl, sym, true, false, none,
  some, List, [], ◌∷◌, ◌++◌, ltb, length, take, drop, arith, All,
}
use proton_drive_linux_fs.Drive.Read.{Bytes}
use proton_drive_linux_fs.Thumbs.Png.{iend_type, text_type, read_chunks, find_from}
use proton_drive_linux_fs.Thumbs.Png.Chunk.{
  Chunk, onto, all_onto, IsChunk, onto-append, long, past_chunk, read_other, find_other,
}

-- What the encoder writes between the signature and the IEND chunk.
abbrev pub Plain : Chunk → Type 0
Plain c = IsChunk c × (same_bytes c.kind iend_type ≡ false) × (same_bytes c.kind text_type ≡ false)

-- The IEND chunk, with whatever follows its type.
abbrev pub IsEnd : Bytes → Type 0
IsEnd rest = (12 ≤ length rest) × (same_bytes (take 4 (drop 4 rest)) iend_type ≡ true)

pub all_onto-append : (cs : List Chunk) (rest : Bytes) → all_onto cs rest ≡ all_onto cs [] ++ rest
all_onto-append [] rest = refl
all_onto-append (c ∷ cs) rest =
    ap (onto c) (all_onto-append cs rest) ∙ sym (onto-append c (all_onto cs []) rest)

-- findIEND finds the IEND chunk.
pub find_end :
    (cs : List Chunk) (rest : Bytes) (fuel off : ℕ) (png : Bytes)
    → All Plain cs
    → IsEnd rest
    → drop off png ≡ all_onto cs rest
    → length png ≡ off + length (all_onto cs rest)
    → length cs < fuel
    → find_from fuel off png ≡ some (off + length (all_onto cs []))
unfolding find_from
find_end cs rest zero off png plain end here all h = absurd (omega arith)
find_end [] rest (suc fuel) off png plain (room, end) here all h =
    rw (here, end, wide) (ap some (omega arith))
  where
    wide : ltb (length png) (off + 8) ≡ false
    wide = ground (arith, all, room)
find_end (c ∷ cs) rest (suc fuel) off png ((v, other, text), plains) end here all h =
    find_other c (all_onto cs rest) v fuel off png here all other
    ∙ find_end cs rest fuel (off + (8 + length c.body + 4)) png plains end there size (omega arith)
    ∙ ap some (omega (arith, long c (all_onto cs []) v))
  where
    there : drop (off + (8 + length c.body + 4)) png ≡ all_onto cs rest
    there =
        sym (drop-drop (8 + length c.body + 4) off png)
        ∙ ap (drop (8 + length c.body + 4)) here
        ∙ past_chunk c (all_onto cs rest) v

    size : length png ≡ off + (8 + length c.body + 4) + length (all_onto cs rest)
    size = omega (arith, all, long c (all_onto cs rest) v)

pub read_over :
    (cs : List Chunk) (fuel : ℕ) (keyword rest : Bytes)
    → All Plain cs
    → read_chunks (length cs + fuel) keyword (all_onto cs rest) ≡ read_chunks fuel keyword rest
read_over [] fuel keyword rest h = ap (λ n. read_chunks n keyword rest) (omega arith)
read_over (c ∷ cs) fuel keyword rest ((v, end, text), hs) =
    ap (λ n. read_chunks n keyword (all_onto (c ∷ cs) rest)) more_fuel
    ∙ read_other c (all_onto cs rest) v (length cs + fuel) keyword end text
    ∙ read_over cs fuel keyword rest hs
  where
    more_fuel : length (c ∷ cs) + fuel ≡ suc (length cs + fuel)
    more_fuel = omega arith

pub read_end : (fuel : ℕ) (keyword rest : Bytes) → IsEnd rest → read_chunks fuel keyword rest ≡ none
unfolding read_chunks
read_end zero keyword rest h = refl
read_end (suc fuel) keyword rest (room, end) = rw end (ground arith)
