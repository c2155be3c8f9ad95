-- ===== src/Fusefs/Release/Trashed.antt =====
-- internal/fusefs/fusefs.go: which uploads Release sends to the trash again.
use proton_drive_linux_fs.Base.{
  ℕ, ◌≡◌, refl, ◌∙◌, ap, sym, String, Bool, true, false, not, ◌&&◌, ◌||◌, Option, none, some, List,
  [], ◌∷◌, ◌++◌, arith, if-cases, Bool-cases, inl, inr, str_eq, eq_iff, ◌==◌,
}
use proton_drive_linux_fs.Drive.Errors.{Err, ok}
use proton_drive_linux_fs.Fusefs.Buffer.{Node, Buffer, Env, claim}
use proton_drive_linux_fs.Fusefs.Release.{
  Job, Save, Labels, Answers, Errno, Patch, expired, upserted, removed, trashed, unlinked,
  move_link, trash_first, moved_to, back_out, upload_end, after_move, settle_name, unclaimed,
  claimed, dropped, note_done,
}
use proton_drive_linux_fs.Fusefs.Release.Settled.{Uploaded, upload_end-Uploaded}

-- Whether the trashing of a link was asked for.
abbrev pub asks : String → List Patch → Bool
asks id [] = false
asks id (trashed dir n ∷ ps) = str_eq n.link_id id || asks id ps
asks id (expired dir ∷ ps) = asks id ps
asks id (upserted dir n ∷ ps) = asks id ps
asks id (removed dir name ∷ ps) = asks id ps
asks id (unlinked dir name n ∷ ps) = asks id ps

abbrev pub is_new : Option Node → Bool
is_new none = true
is_new (some n) = false

asks-append : (id : String) (ps qs : List Patch) → asks id (ps ++ qs) ≡ (asks id ps || asks id qs)
asks-append id [] qs = refl
asks-append id (trashed dir n ∷ ps) qs = ground (arith, asks-append id ps qs)
asks-append id (expired dir ∷ ps) qs = asks-append id ps qs
asks-append id (upserted dir n ∷ ps) qs = asks-append id ps qs
asks-append id (removed dir name ∷ ps) qs = asks-append id ps qs
asks-append id (unlinked dir name n ∷ ps) qs = asks-append id ps qs

-- A move trashes what is in the way, which is another link.
move_link-spares :
    (a : Answers) (n : Node) (dir : ℕ) (name : String) (new_dir : ℕ) (new_name : String)
    → asks n.link_id (move_link a n dir name new_dir new_name).1 ≡ false
unfolding move_link trash_first moved_to back_out
move_link-spares a n dir name new_dir new_name = by_found a.found refl a.move_error refl
  where
    by_found :
        (f : Option Node)
        → a.found ≡ f
        → (m : Option Err) → a.move_error ≡ m
        → asks n.link_id (move_link a n dir name new_dir new_name).1 ≡ false
    by_found none e none h = ground (arith, e, h)
    by_found none e (some x) h = ground (arith, e, h)
    by_found (some old) e none h = ground (arith, e, h)
    by_found (some old) e (some x) h = ground (arith, e, h)

after_move-spares :
    (id : String) (r : (Errno × Option Node) × List Patch) (s : Save)
    → asks id r.1 ≡ false
    → asks id (after_move r s).0.patches ≡ asks id s.patches
unfolding after_move
after_move-spares id ((errno, none), ps) s h = ground (arith, asks-append id ps s.patches, h)
after_move-spares id ((errno, some moved), ps) s h = ground (arith, asks-append id ps s.patches, h)

settle_name-spares :
    (a : Answers) (job : Job) (n : Node) (s : Save)
    → asks n.link_id (settle_name a job (some n) s).0.patches ≡ asks n.link_id s.patches
unfolding settle_name
settle_name-spares a job n s =
    if-cases (λ (r : Save × Errno). asks n.link_id r.0.patches ≡ asks n.link_id s.patches)
      (not (str_eq s.buffer.name job.name) || not (s.buffer.parent == job.parent))
      (λ h.
        after_move-spares n.link_id
          (move_link a n job.parent job.name s.buffer.parent s.buffer.name) s
          (move_link-spares a n job.parent job.name s.buffer.parent s.buffer.name))
      (λ h. refl)

unclaimed-trashes :
    (job : Job) (n : Node) (s : Save)
    → asks n.link_id (unclaimed job (some n) s).patches
      ≡ (is_new job.existing || asks n.link_id s.patches)
unfolding unclaimed
unclaimed-trashes job n s = by_existing job.existing refl
  where
    by_existing :
        (o : Option Node)
        → job.existing ≡ o
        → asks n.link_id (unclaimed job (some n) s).patches
          ≡ (is_new job.existing || asks n.link_id s.patches)
    by_existing none e = ground (arith, e, eq_iff n.link_id n.link_id)
    by_existing (some old) e = ground (arith, e)

claim-gone : (n : Node) (b : Buffer) → b.gone ≡ true → claim (some n) b ≡ (false, b)
unfolding claim
claim-gone n b h = if-cases (λ c. c ≡ (false, b)) b.gone (λ gone. refl) (λ there. absurd (cc))

claim-there :
    (n : Node) (b : Buffer) → b.gone ≡ false → claim (some n) b ≡ (true, record b { node = some n })
unfolding claim
claim-there n b h =
    if-cases (λ c. c ≡ (true, record b { node = some n })) b.gone (λ gone. absurd (cc))
      (λ there. refl)

claimed-trashes :
    (a : Answers) (job : Job) (n : Node) (s : Save)
    → asks n.link_id (claimed a job (some n) s (claim (some n) s.buffer)).0.patches
      ≡ (s.buffer.gone && is_new job.existing || asks n.link_id s.patches)
unfolding claimed
claimed-trashes a job n s =
    let after = λ (c : Bool × Buffer). asks n.link_id (claimed a job (some n) s c).0.patches in
    let expected = λ (g : Bool). g && is_new job.existing || asks n.link_id s.patches in
    elim (Bool-cases s.buffer.gone) [
      | inl gone ↦
          ap after (claim-gone n s.buffer gone) ∙ unclaimed-trashes job n s ∙ ap expected (sym gone)
      | inr there ↦
          ap after (claim-there n s.buffer there)
          ∙ settle_name-spares a job n (record s { buffer = record s.buffer { node = some n } })
          ∙ ap expected (sym there)
    ]

-- After an upload whose link could be read back, the temp file is let go of and removed from disk
-- and the handle's timer, sets and retry wait are as they were, however the file was renamed,
-- replaced or unlinked meanwhile; and Release has asked for that link to be trashed exactly if the
-- file was replaced or unlinked and had no link before, or it was asked for before.
pub upload_end-trashes :
    (env : Env) (labels : Labels) (a : Answers) (n : Node) (job : Job) (s : Save)
    → Uploaded job s (upload_end env labels a (ok (some n)) job s).0
      × (asks n.link_id (upload_end env labels a (ok (some n)) job s).0.patches
          ≡ (s.buffer.gone && is_new job.existing || asks n.link_id s.patches))
unfolding upload_end dropped note_done
upload_end-trashes env labels a n job s = (
  upload_end-Uploaded env labels a (some n) job s,
  claimed-trashes a job n (note_done labels a job s),
)
