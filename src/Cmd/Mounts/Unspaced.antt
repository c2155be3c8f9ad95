-- ===== src/Cmd/Mounts/Unspaced.antt =====
-- cmd/proton-drive-fs/main.go: a field of a line has no space in it.
use proton_drive_linux_fs.Base.{ℕ, Bool, false, ◌≡◌, List, [], ◌∷◌, ◌++◌, All, Bool-cases, inl, inr}
use proton_drive_linux_fs.Cmd.Mounts.{Text, flush, fields_from, fields}

abbrev pub Unspaced : (ℕ → Bool) → Text → Type 0
Unspaced is_space s = All (λ c. is_space c ≡ false) s

module _ (is_space : ℕ → Bool) where
  snoc-Unspaced :
      (word : Text) (c : ℕ)
      → Unspaced is_space word
      → is_space c ≡ false
      → Unspaced is_space (word ++ c ∷ [])
  snoc-Unspaced [] c h k = (k, tt)
  snoc-Unspaced (d ∷ word) c (h, hs) k = (h, snoc-Unspaced word c hs k)

  flush-Unspaced :
      (word : Text) (rest : List Text)
      → Unspaced is_space word
      → All (Unspaced is_space) rest
      → All (Unspaced is_space) (flush word rest)
  unfolding flush
  flush-Unspaced [] rest h k = k
  flush-Unspaced (c ∷ word) rest h k = (h, k)

  fields_from-Unspaced :
      (word s : Text)
      → Unspaced is_space word
      → All (Unspaced is_space) (fields_from is_space word s)
  unfolding fields_from
  fields_from-Unspaced word [] h = flush-Unspaced word [] h tt
  fields_from-Unspaced word (c ∷ s) h =
      let next = fields_from-Unspaced [] s tt in
      let goes_on = λ (k : is_space c ≡ false).
        fields_from-Unspaced (word ++ c ∷ []) s (snoc-Unspaced word c h k) in
      elim (Bool-cases (is_space c)) [
        | inl space ↦ rw space (flush-Unspaced word _ h next)
        | inr other ↦ rw other (goes_on other)
      ]

  pub fields-Unspaced : (s : Text) → All (Unspaced is_space) (fields is_space s)
  unfolding fields
  fields-Unspaced s = fields_from-Unspaced [] s tt
