-- ===== src/Fusefs/Download/Whole.antt =====
-- internal/fusefs/fusefs.go: what downloadInto leaves in the temp file.
use proton_drive_linux_fs.Base.{
  ltb, true, Bool-cases, leb, leb-true, leb-false, inl, inr, take-nil, drop_of_length-le, subst, ℕ,
  zero, suc, ◌+◌, ◌-◌, ◌*◌, ◌≤◌, ◌<◌, ◌≡◌, ◌≢◌, ◌∙◌, ap, refl, sym, Option, none, some, [], ◌++◌,
  length, take, drop, ◌∷◌, take_of_length-le, arith, length-take, length-drop, take-append-take,
}
use proton_drive_linux_fs.Drive.Errors.{Err, Result, ok, err, eof}
use proton_drive_linux_fs.Drive.Read.{
  Bytes, Reply, block_size, block_index_for_offset, block_byte_offset, read_at, pos,
}
use proton_drive_linux_fs.Drive.Read.Prefix.{chunk, Returns, take-length}
use proton_drive_linux_fs.Drive.Read.Aligned.{Complete, read_at_past, read_at-Complete}
use proton_drive_linux_fs.Fusefs.Download.{
  download_chunk, Downloaded, next, on_write, on_read, download_loop, download_into,
}

-- A chunk that starts at a multiple of its size ends in the block it starts in.
within_block :
    (k : ℕ)
    → let off = download_chunk * k in
      off - block_byte_offset (block_index_for_offset off) + download_chunk ≤ block_size
unfolding download_chunk block_byte_offset block_index_for_offset block_size
within_block k = omega arith

chunk_positive : 0 < download_chunk
unfolding download_chunk
chunk_positive = omega arith

nonempty : (xs : Bytes) → ltb 0 (suc (length xs)) ≡ true
nonempty xs = ground arith

-- It ended, and `P` says how.
abbrev pub Ended : {S T : Type 0} → (Downloaded S T → Type 0) → Option (Downloaded S T) → Type 0
Ended P none = ⊥
Ended P (some d) = P d

module _ {S T : Type 0} (moved : S → ℕ) (write_at : Bytes → ℕ → T → Option Err × T)
    (reads : T → Bytes) (Cause : Err → Type 0)
    (refused : (data' : Bytes) (off : ℕ) (t : T) (e : Err)
      → (write_at data' off t).0 ≡ some e
      → Cause e)
    (appended : (data' : Bytes) (off : ℕ) (t : T)
      → off ≡ length (reads t)
      → (write_at data' off t).0 ≡ none
      → reads (write_at data' off t).1 ≡ reads t ++ data')
    (Inv : S → Type 0) (get_block : S → ℕ → Result Bytes × S) (content : Bytes)
    (sound : (s : S) (idx : ℕ)
      → Inv s
      → Inv (get_block s idx).1
        × ((block : Bytes) → (get_block s idx).0 ≡ ok block → block ≡ chunk content idx)
        × ((e : Err) → (get_block s idx).0 ≡ err e → (e ≢ eof) × Cause e)) where
  -- Without an error the temp file is the file.
  abbrev Whole : Downloaded S T → Type 0
  Whole d =
      Inv d.file
      × (d.error ≡ none → reads d.tmp ≡ content)
      × ((e : Err) → d.error ≡ some e → Cause e)

  -- What the temp file holds between two rounds.
  abbrev Copied : ℕ → T → Type 0
  Copied off t = (reads t ≡ take off content) × (off ≤ length content)

  next-Whole :
      (again : ℕ → S → T → Option (Downloaded S T)) (off : ℕ) (e : Option Err) (s : S) (t : T)
      → Inv s
      → (e ≡ none → Ended Whole (again off s t))
      → (e ≡ some eof → reads t ≡ content)
      → ((x : Err) → e ≡ some x → x ≢ eof → Cause x)
      → Ended Whole (next moved write_at again off e s t)
  unfolding next
  next-Whole again off none s t v goes_on done other = goes_on refl
  next-Whole again off (some eof) s t v goes_on done other = (v, λ e. done refl, λ y h. cc)
  next-Whole again off (some e) s t v goes_on done other = (v, λ n. cc, λ y h. other y h (λ b. cc))

  -- A write at the end of the temp file.
  grown :
      (off : ℕ) (t : T) (data' : Bytes)
      → Copied off t
      → data' ≡ take download_chunk (drop off content)
      → (write_at data' off t).0 ≡ none
      → Copied (off + length data') (write_at data' off t).1
  grown off t data' (held, within) p works = (joined, fits)
    where
      long : off ≡ length (reads t)
      long = omega (arith, ap length held, length-take off content)

      fits : off + length data' ≤ length content
      fits = omega (
        arith,
        ap length p,
        length-take download_chunk (drop off content),
        length-drop off content,
      )

      exact : data' ≡ take (length data') (drop off content)
      exact =
          p
          ∙ take-length download_chunk (drop off content)
          ∙ ap (λ d. take (length d) (drop off content)) (sym p)

      joined : reads (write_at data' off t).1 ≡ take (off + length data') content
      joined =
          appended data' off t long works
          ∙ ap (λ d. d ++ data') held
          ∙ ap (◌++◌ (take off content)) exact
          ∙ take-append-take off (length data') content

  on_write-Whole :
      (again : ℕ → S → T → Option (Downloaded S T)) (off : ℕ) (e : Option Err) (s : S)
      (w : Option Err × T)
      → Inv s
      → ((x : Err) → w.0 ≡ some x → Cause x)
      → (w.0 ≡ none → Ended Whole (next moved write_at again off e s w.1))
      → Ended Whole (on_write moved write_at again off e s w)
  unfolding on_write
  on_write-Whole again off e s (some x, t) v bad rest = (v, λ n. cc, λ y h. bad y h)
  on_write-Whole again off e s (none, t) v bad rest = rest refl

  -- With EOF all of the file has been copied.
  whole_file : (off : ℕ) (t : T) → Copied off t → length content ≤ off → reads t ≡ content
  whole_file off t (held, within) h = held ∙ take_of_length-le off content h

  on_read-Whole :
      (again : ℕ → S → T → Option (Downloaded S T)) (off : ℕ) (t : T) (r : Reply) (s : S)
      → Inv s
      → Complete Cause content download_chunk off r
      → Copied off t
      → ((u : T) → Copied (off + download_chunk) u → Ended Whole (again (off + download_chunk) s u))
      → Ended Whole (on_read moved write_at again off t (some (r, s)))
  unfolding on_read
  on_read-Whole again off t ([], none) s v (p, long) held ih =
      absurd (omega (arith, chunk_positive))
  on_read-Whole again off t ([], some e) s v c held ih =
      next-Whole again off (some e) s t v (λ n. cc)
        (λ same. whole_file off t held (omega (arith, (c.0 (some_inj same)).1)))
        (λ x same d. subst Cause (some_inj same) (c.1 (λ b. d (sym (some_inj same) ∙ b))))
    where
      some_inj : {a b : Err} → some a ≡ some b → a ≡ b
      some_inj h = cc
  on_read-Whole again off t (x ∷ xs, none) s v (p, long) held ih = rw (nonempty xs) (
      on_write-Whole again (off + length (x ∷ xs)) none s (write_at (x ∷ xs) off t) v
        (refused _ off t)
        (λ works.
          next-Whole again (off + length (x ∷ xs)) none s _ v (λ n. on_chunk works) (λ n. cc)
            (λ x n. cc)))
    where
      more : ℕ
      more = off + length (x ∷ xs)

      there : more ≡ off + download_chunk
      there = omega arith

      written : T
      written = (write_at (x ∷ xs) off t).1

      on_chunk :
          (write_at (x ∷ xs) off t).0 ≡ none
          → Ended Whole (again more s (write_at (x ∷ xs) off t).1)
      on_chunk works =
          subst (λ o. Copied o written → Ended Whole (again o s written)) (sym there) (ih written)
            (grown off t (x ∷ xs) held p works)
  on_read-Whole again off t (x ∷ xs, some e) s v c held ih = rw (nonempty xs) (
      on_write-Whole again (off + length (x ∷ xs)) (some e) s (write_at (x ∷ xs) off t) v
        (refused _ off t)
        (λ works.
          next-Whole again (off + length (x ∷ xs)) (some e) s _ v (λ n. cc)
            (λ same.
              let (p, end) = c.0 (some_inj same) in
              whole_file (off + length (x ∷ xs)) _ (grown off t (x ∷ xs) held p works) end)
            (λ x same d. subst Cause (some_inj same) (c.1 (λ b. d (sym (some_inj same) ∙ b))))))
    where
      some_inj : {a b : Err} → some a ≡ some b → a ≡ b
      some_inj h = cc

  abbrev Got : ℕ → Reply → S → Type 0
  Got off r u = Complete Cause content download_chunk off r × Inv u

  chunk_read :
      (k : ℕ) (s : S)
      → Inv s
      → Returns
          (Got (download_chunk * k))
          (read_at get_block (length content) download_chunk (pos (download_chunk * k)) s)
  chunk_read k s v = elim (Bool-cases (leb (length content) (download_chunk * k))) [
    | inl end ↦
        let past = leb-true (length content) (download_chunk * k) end in
        rw (read_at_past get_block (length content) download_chunk (download_chunk * k) s past)
          (((λ e. (nothing past, omega (arith, past))), λ d. absurd (d refl)), v)
    | inr inside ↦
        read_at-Complete Cause Inv get_block content sound download_chunk (download_chunk * k) s
          (leb-false (length content) (download_chunk * k) inside) chunk_positive (within_block k) v
  ]
    where
      nothing :
          length content ≤ download_chunk * k
          → [] ≡ take download_chunk (drop (download_chunk * k) content)
      nothing past =
          sym (take-nil download_chunk)
          ∙ ap (take download_chunk) (sym (drop_of_length-le (download_chunk * k) content past))

  on_result :
      (again : ℕ → S → T → Option (Downloaded S T)) (off : ℕ) (t : T) (o : Option (Reply × S))
      → Returns (Got off) o
      → Copied off t
      → ((s : S) (u : T)
          → Inv s
          → Copied (off + download_chunk) u
          → Ended Whole (again (off + download_chunk) s u))
      → Ended Whole (on_read moved write_at again off t o)
  on_result again off t none got held ih = absurd got
  on_result again off t (some (r, s)) (c, v) held ih =
      on_read-Whole again off t r s v c held (λ u. ih s u v)

  download_loop-Whole :
      (fuel k : ℕ) (s : S) (t : T)
      → length content < fuel + download_chunk * k
      → Inv s
      → Copied (download_chunk * k) t
      → Ended Whole
          (download_loop moved write_at get_block (length content) fuel (download_chunk * k) s t)
  unfolding download_loop
  download_loop-Whole zero k s t f v held = absurd (omega (arith, held.1))
  download_loop-Whole (suc fuel) k s t f v held =
      on_result (λ o u w. download_loop moved write_at get_block (length content) fuel o u w)
        (download_chunk * k) t _ (chunk_read k s v) held
        (λ u w i c.
          subst
            (λ o. Ended Whole (download_loop moved write_at get_block (length content) fuel o u w))
            (sym there)
            (download_loop-Whole fuel (suc k) u w more i (subst (λ o. Copied o w) there c)))
    where
      there : download_chunk * k + download_chunk ≡ download_chunk * suc k
      there = omega arith

      more : length content < fuel + download_chunk * suc k
      more = omega (arith, there, chunk_positive)

  -- Where the blocks that getBlock returns are those of the file, no error of getBlock is EOF
  -- itself, and a WriteAt at the end of the temp file that gives no error appends: downloadInto
  -- into an empty temp file ends, keeps what holds of the open file, leaves exactly the file in the
  -- temp file if it returns no error, and returns no error other than one of getBlock or of
  -- WriteAt.
  pub download_into-Whole :
      (s : S) (t : T)
      → Inv s
      → reads t ≡ []
      → Ended Whole (download_into moved write_at get_block (length content) s t)
  unfolding download_into
  download_into-Whole s t v empty =
      subst
        (λ o.
          Ended Whole
            (download_loop moved write_at get_block (length content) (suc (length content)) o s t))
        start
        (download_loop-Whole (suc (length content)) 0 s t (omega arith) v
          (empty ∙ ap (λ n. take n content) (sym start), omega arith))
    where
      start : download_chunk * 0 ≡ 0
      start = omega arith
