-- ===== src/Drive/BlockCache/Eviction.antt =====
-- internal/drive/cache.go: what evict leaves.
use proton_drive_linux_fs.Base.{
  ℕ, ◌+◌, ◌-◌, ◌≤◌, ◌≡◌, refl, sym, ◌∙◌, ap, subst, true, false, none, some, List, [], ◌∷◌, arith,
  leb, if-cases, Bool-cases, inl, inr, length, lookup, delete, lookup-delete, leb-true, leb-false,
  All,
}
use proton_drive_linux_fs.Drive.BlockCache.{
  CachePath, File, Cache, Access, path_key, is_temp_file, same_path, same_path_iff, entries, place,
  sort, remove_entry, evict_loop, evict,
}
use proton_drive_linux_fs.Drive.BlockCache.Sizes.{
  bytes_on_disk, IsCounted, remove_empty_parents-keeps, Lists, sorted-Lists, head-Lists, tail-Lists,
}

-- The walk can stat every file, and os.Remove works.
pub record AllWorks (a : Access) : Type 0 where
  pub reads : (p : CachePath) → a.readable p ≡ true
  pub removes : (p : CachePath) → a.removable p ≡ true

abbrev total : List (CachePath × File) → ℕ
total [] = 0
total ((p, f) ∷ es) = length f.content + total es

total-place :
    (e : CachePath × File) (es : List (CachePath × File)) → total (place e es) ≡ total (e ∷ es)
unfolding place
total-place e [] = refl
total-place e (d ∷ es) = ground (arith, total-place e es)

total-sort : (es : List (CachePath × File)) → total (sort es) ≡ total es
unfolding sort
total-sort [] = refl
total-sort (e ∷ es) = ground (arith, total-place e (sort es), total-sort es)

total-entries :
    (a : Access) (files : List (CachePath × File))
    → AllWorks a
    → total (entries a files) ≡ bytes_on_disk files
unfolding entries
total-entries a [] works = refl
total-entries a ((p, f) ∷ files) works = ground (arith, total-entries a files works, works.reads p)

remove_entry_lem :
    (a : Access) (p : CachePath) (f : File) (c : Cache)
    → AllWorks a
    → ((remove_entry a (p, f) c).files ≡ delete p c.files)
      × ((remove_entry a (p, f) c).size ≡ c.size - length f.content)
      × ((remove_entry a (p, f) c).limit ≡ c.limit)
unfolding remove_entry
remove_entry_lem a p f c works = rw (works.removes p, remove_entry) (remove_empty_parents-keeps p _)

evict_loop_fits :
    (a : Access) (es : List (CachePath × File)) (c : Cache)
    → AllWorks a
    → c.size ≡ total es
    → (evict_loop a es c).size ≤ c.limit
unfolding evict_loop
evict_loop_fits a [] c works h = ground arith
evict_loop_fits a ((p, f) ∷ es) c works h =
    let (files, size, limit) = remove_entry_lem a p f c works in
    if-cases (λ (d : Cache). d.size ≤ c.limit) (leb c.size c.limit)
      (λ fits. leb-true c.size c.limit fits)
      (λ over.
        subst (λ n. (evict_loop a es (remove_entry a (p, f) c)).size ≤ n) limit
          (evict_loop_fits a es _ works (ground arith)))

-- Where the size is that of the files on disk, and evict can read and remove every file, the cache
-- is within its limit after evict.
pub evict_fits : (a : Access) (c : Cache) → AllWorks a → IsCounted c → (evict a c).size ≤ c.limit
unfolding evict
evict_fits a c works v =
    if-cases (λ (d : Cache). d.size ≤ c.limit) (leb c.size c.limit)
      (λ fits. leb-true c.size c.limit fits)
      (λ over.
        evict_loop_fits a _ c works
          (v.counted ∙ sym (total-sort (entries a c.files) ∙ total-entries a c.files works)))

abbrev NotBefore : ℕ → CachePath × File → Type 0
NotBefore t (p, f) = t ≤ f.mod_time

-- Oldest first.
abbrev IsSorted : List (CachePath × File) → Type 0
IsSorted [] = Unit {0}
IsSorted ((p, f) ∷ es) = All (NotBefore f.mod_time) es × IsSorted es

NotBefore-place :
    (t : ℕ) (e : CachePath × File) (es : List (CachePath × File))
    → NotBefore t e
    → All (NotBefore t) es
    → All (NotBefore t) (place e es)
unfolding place
NotBefore-place t e [] h s = (h, tt)
NotBefore-place t e (d ∷ es) h s =
    if-cases (All (NotBefore t)) (leb e.1.mod_time d.1.mod_time) (λ first. (h, s))
      (λ later. (s.0, NotBefore-place t e es h s.1))

NotBefore-trans :
    (t u : ℕ) (es : List (CachePath × File)) → t ≤ u → All (NotBefore u) es → All (NotBefore t) es
NotBefore-trans t u [] h s = tt
NotBefore-trans t u ((p, f) ∷ es) h s = (omega arith, NotBefore-trans t u es h s.1)

place-IsSorted :
    (p : CachePath) (f : File) (es : List (CachePath × File))
    → IsSorted es
    → IsSorted (place (p, f) es)
unfolding place
place-IsSorted p f [] s = (tt, tt)
place-IsSorted p f ((r, g) ∷ es) s =
    if-cases IsSorted (leb f.mod_time g.mod_time)
      (λ first.
        let le = leb-true f.mod_time g.mod_time first in
        ((le, NotBefore-trans f.mod_time g.mod_time es le s.0), s))
      (λ later. (
        NotBefore-place g.mod_time (p, f) es (ground (arith, leb-false f.mod_time g.mod_time later))
            s.0,
        place-IsSorted p f es s.1,
      ))

sort-IsSorted : (es : List (CachePath × File)) → IsSorted (sort es)
unfolding sort
sort-IsSorted [] = tt
sort-IsSorted ((p, f) ∷ es) = place-IsSorted p f (sort es) (sort-IsSorted es)

NotBefore-lookup :
    (t : ℕ) (q : CachePath) (g : File) (es : List (CachePath × File))
    → All (NotBefore t) es
    → lookup q es ≡ some g
    → t ≤ g.mod_time
unfolding lookup
NotBefore-lookup t q g [] s h = absurd (ground arith)
NotBefore-lookup t q g ((r, f) ∷ es) s h = ground (arith, NotBefore-lookup t q g es)

loop_absent :
    (a : Access) (p : CachePath) (es : List (CachePath × File)) (c : Cache)
    → AllWorks a
    → lookup p es ≡ none
    → lookup p (evict_loop a es c).files ≡ lookup p c.files
unfolding evict_loop lookup
loop_absent a p [] c works h = refl
loop_absent a p ((q, f) ∷ es) c works h =
    let (files, size, limit) = remove_entry_lem a q f c works in
    if-cases (λ (d : Cache). lookup p d.files ≡ lookup p c.files) (leb c.size c.limit)
      (λ fits. refl)
      (λ over.
        loop_absent a p es _ works (ground arith)
        ∙ ap (lookup p) files
        ∙ ground (arith, lookup-delete q p c.files))

loop_only_deletes :
    (a : Access) (p : CachePath) (g : File) (es : List (CachePath × File)) (c : Cache)
    → AllWorks a
    → lookup p (evict_loop a es c).files ≡ some g
    → lookup p c.files ≡ some g
unfolding evict_loop lookup
loop_only_deletes a p g [] c works h = h
loop_only_deletes a p g ((q, f) ∷ es) c works h = elim (Bool-cases (leb c.size c.limit)) [
  | inl fits ↦ ground arith
  | inr over ↦
      let (files, size, limit) = remove_entry_lem a q f c works in
      ground (
        arith,
        loop_only_deletes a p g es (remove_entry a (q, f) c) works,
        lookup-delete q p c.files,
      )
]

head_oldest :
    (r p : CachePath) (e f g : File) (files : List (CachePath × File))
    → e.mod_time ≤ g.mod_time
    → same_path r p ≡ true
    → lookup r files ≡ some e
    → lookup p files ≡ some f
    → f.mod_time ≤ g.mod_time
head_oldest r p e f g files le same h k = ground (arith, same_path_iff r p, h, k)

-- What was removed is no newer than what is left.
loop_oldest :
    (a : Access) (es : List (CachePath × File)) (c : Cache)
    → AllWorks a
    → Lists a es c.files
    → IsSorted es
    → (p q : CachePath) (f g : File) → lookup p c.files ≡ some f
    → lookup p (evict_loop a es c).files ≡ none
    → is_temp_file q ≡ false
    → lookup q (evict_loop a es c).files ≡ some g
    → f.mod_time ≤ g.mod_time
unfolding evict_loop
loop_oldest a [] c works l s p q f g h gone t there = absurd (ground arith)
loop_oldest a ((r, e) ∷ es) c works l s p q f g h gone t there =
    elim (Bool-cases (leb c.size c.limit)) [
      | inl fits ↦ absurd (ground arith)
      | inr over ↦
          let (files, size, limit) = remove_entry_lem a r e c works in
          let rest = remove_entry a (r, e) c in
          let gone_rest : lookup p (evict_loop a es rest).files ≡ none = ground arith in
          let there_rest : lookup q (evict_loop a es rest).files ≡ some g = ground arith in
          let before = loop_only_deletes a q g es rest works there_rest in
          elim (Bool-cases (same_path r p)) [
            | inl same ↦
                let (counts, found, fresh) = head-Lists a r e es c.files l in
                let (distinct, lists) = tail-Lists a r e es c.files l in
                let in_tail : lookup q es ≡ some g =
                  ground (arith, lists q, works.reads q, before, ap (lookup q) files) in
                let e_le : e.mod_time ≤ g.mod_time =
                  NotBefore-lookup e.mod_time q g es s.0 in_tail in
                head_oldest r p e f g c.files e_le same found h
            | inr other ↦
                loop_oldest a es rest works
                  (subst (Lists a es) (sym files) (tail-Lists a r e es c.files l)) s.1 p q f g
                  (ap (lookup p) files ∙ ground (arith, lookup-delete r p c.files)) gone_rest t
                  there_rest
          ]
    ]

-- Where the size is that of the files on disk, and evict can read and remove every file, a file
-- that evict removed is no newer than any block or listing that it left.
pub evict_removes_oldest :
    (a : Access) (c : Cache)
    → AllWorks a
    → IsCounted c
    → (p q : CachePath) (f g : File) → lookup p c.files ≡ some f
    → lookup p (evict a c).files ≡ none
    → is_temp_file q ≡ false
    → lookup q (evict a c).files ≡ some g
    → f.mod_time ≤ g.mod_time
unfolding evict
evict_removes_oldest a c works v p q f g h gone t there = elim (Bool-cases (leb c.size c.limit)) [
  | inl fits ↦ absurd (ground arith)
  | inr over ↦
      loop_oldest a _ c works (sorted-Lists a c.files v.distinct)
        (sort-IsSorted (entries a c.files)) p q f g h (ground arith) t (ground arith)
]
