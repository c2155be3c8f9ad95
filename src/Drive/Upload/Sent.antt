-- ===== src/Drive/Upload/Sent.antt =====
-- internal/drive/write.go: the blocks that uploadBlocks sends.
use proton_drive_linux_fs.Base.{
  ℕ, zero, suc, ◌≤◌, ◌<◌, ◌≡◌, refl, sym, ◌∙◌, ap, Bool, true, false, Option, none, some, List, [],
  ◌∷◌, ltb, arith, if◌then◌else◌, if-cases, length, take, drop, All, min, length-take, length-drop,
  drop_of_length-le, take_of_length-le, subst, inl, inr, Bool-cases,
}
use proton_drive_linux_fs.Drive.Errors.{Err, Result, ok, err}
use proton_drive_linux_fs.Drive.Read.{Bytes, block_size}
use proton_drive_linux_fs.Drive.Upload.{
  Call, block_uploaded, Outside, Blocks, Run, with_block, at_end, add_block, blocks_from,
}

-- The bytes of the blocks, which are numbered from `index` on, and their sizes.
abbrev pub Blockwise : ℕ → List Call → Bytes → List ℕ → Type 0
Blockwise index [] content sizes = (content ≡ []) × (sizes ≡ [])
Blockwise index (block_uploaded i chunk ∷ calls) content [] = ⊥
Blockwise index (block_uploaded i chunk ∷ calls) content (n ∷ sizes) =
    (i ≡ index)
    × (n ≡ length chunk)
    × (n ≤ block_size)
    × (0 < n)
    × (chunk ≡ take n content)
    × Blockwise (suc index) calls (drop n content) sizes
Blockwise index (c ∷ calls) content sizes = ⊥

abbrev pub is_block : Call → Bool
is_block (block_uploaded i chunk) = true
is_block _ = false

-- What is promised of the blocks.
abbrev pub Sent : ℕ → Bytes → Option Err → Run Blocks → Type 0
Sent index content e r = elim r.result [
  | ok b ↦ (e ≡ none) × Blockwise index r.calls content b.sizes
  | err f ↦ All (λ c. is_block c ≡ true) r.calls
]

at_end-Sent : (index : ℕ) (e : Option Err) → Sent index [] e (at_end e)
unfolding at_end
at_end-Sent index none = (refl, (refl, refl))
at_end-Sent index (some e) = tt

with_block-Sent :
    (index : ℕ) (content chunk : Bytes) (e : Option Err) (r : Result Bytes) (next : Run Blocks)
    → 0 < length chunk
    → length chunk ≤ block_size
    → chunk ≡ take (length chunk) content
    → Sent (suc index) (drop (length chunk) content) e next
    → Sent index content e (with_block index chunk r next)
unfolding with_block
with_block-Sent index content chunk e (err f) next pos le same s = tt
with_block-Sent index content chunk e (ok hash) next pos le same s = go next.result refl s
  where
    go :
        (res : Result Blocks)
        → next.result ≡ res
        → Sent
            (suc index)
            (drop (length chunk) content)
            e
            (record { result = res; calls = next.calls })
        → Sent index content e (record {
          result = add_block (length chunk) hash res;
          calls = block_uploaded index chunk ∷ next.calls;
        })
    go (ok b) h (none_left, there) = (none_left, (refl, refl, le, pos, same, there))
    go (err f) h there = (refl, there)

take-min : (content : Bytes) (n : ℕ) → take (min n (length content)) content ≡ take n content
take-min content n = elim (Bool-cases (ltb (length content) n)) [
  | inl short ↦
      take_of_length-le (min n (length content)) content (ground arith)
      ∙ sym (take_of_length-le n content (ground arith))
  | inr long ↦ ap (λ m. take m content) (ground arith)
]

nil_of_length : (xs : Bytes) → length xs ≡ 0 → xs ≡ []
nil_of_length [] h = refl
nil_of_length (x ∷ xs) h = absurd (omega arith)

pub block_size-pos : 0 < block_size
unfolding block_size
block_size-pos = omega arith

-- What follows a block read from the content.
next-Sent :
    (index : ℕ) (content : Bytes) (n : ℕ) (e : Option Err) (rest : Run Blocks)
    → n ≡ min block_size (length content)
    → (block_size ≤ length content → Sent (suc index) (drop block_size content) e rest)
    → Sent (suc index) (drop n content) e (if ltb n block_size then at_end e else rest)
next-Sent index content n e rest h k =
    if-cases (Sent (suc index) (drop n content) e) (ltb n block_size)
      (λ short.
        let all : length content ≤ n = ground (arith, h) in
        rw (drop_of_length-le n content all) (at_end-Sent (suc index) e))
      (λ full.
        let le : block_size ≤ length content = ground (arith, h) in
        let same : n ≡ block_size = ground (arith, h) in
        subst (λ m. Sent (suc index) (drop m content) e rest) (sym same) (k le))

round-Sent :
    (index : ℕ) (content chunk : Bytes) (e : Option Err) (r : Result Bytes) (rest : Run Blocks)
    → chunk ≡ take block_size content
    → (block_size ≤ length content → Sent (suc index) (drop block_size content) e rest)
    → Sent index content e (
        let next = if ltb (length chunk) block_size then at_end e else rest in
        if ltb 0 (length chunk) then with_block index chunk r next else next)
round-Sent index content chunk e r rest c k =
    let size : length chunk ≡ min block_size (length content) =
      ap length c ∙ length-take block_size content in
    let self : chunk ≡ take (length chunk) content =
      c ∙ sym (take-min content block_size) ∙ ap (λ n. take n content) (sym size) in
    if-cases (Sent index content e) (ltb 0 (length chunk))
      (λ pos.
        with_block-Sent index content chunk e r _ (ground arith) (ground (arith, size)) self
          (next-Sent index content (length chunk) e rest size k))
      (λ none_left.
        let pos = block_size-pos in
        let empty : content ≡ [] = nil_of_length content (ground (arith, size)) in
        if-cases (Sent index content e) (ltb (length chunk) block_size)
          (λ short. rw empty (at_end-Sent index e)) (λ full. absurd (ground arith)))

pub blocks_from-Sent :
    (fuel : ℕ) (o : Outside) (index : ℕ) (content : Bytes) (e : Option Err)
    → length content < fuel
    → Sent index content e (blocks_from fuel o index content e)
unfolding blocks_from
blocks_from-Sent zero o index content e h = absurd (omega arith)
blocks_from-Sent (suc fuel) o index content e h =
    let chunk = take block_size content in
    round-Sent index content chunk e (o.upload_block index chunk) _ refl (λ le.
      let pos = block_size-pos in
      blocks_from-Sent fuel o (suc index) (drop block_size content) e
        (omega (arith, length-drop block_size content)))
