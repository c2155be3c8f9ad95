-- ===== src/Witness/Remotes.antt =====
-- Remote events of internal/drive/events.go and what they do to a mount.
use proton_drive_linux_fs.Base.{
  ◌≡◌, ◌≢◌, refl, String, true, false, some, List, [], ◌∷◌, if◌then◌else◌, str_eq, eq_iff, lookup,
  string_key, arith, ℕ, ◌≤◌, length, drop, ◌++◌, ◌⊎◌, inr, Bool, subst,
}
use proton_drive_linux_fs.Drive.Errors.{Result, ok, err, canceled}
use proton_drive_linux_fs.Drive.Events.{
  deleted, Event, Delivery, change, Page, Session, Tick, run_ticks, tick,
}
use proton_drive_linux_fs.Drive.Events.Followed.{
  Follows, IsPage, IsHonest, told, segment, run_ticks-Follows,
}
use proton_drive_linux_fs.Drive.Events.CaughtUp.{IsComplete, tick-CaughtUp}
use proton_drive_linux_fs.Fusefs.Remote.{Dir, Mount}

abbrev event : Event
event = record { kind = deleted; link_id = "f"; parent_id = "d"; is_dir = false }

abbrev serve : String → Page
serve id = record {
  event_id = "2";
  events = if str_eq id "2" then [] else event ∷ [];
  refresh = false;
}

abbrev history : List Delivery
history = change event ∷ []

-- The place of an id in that history.
abbrev at : String → ℕ
at id = if str_eq id "2" then 1 else 0

abbrev session : Session
session = record { last = "1"; delivered = []; stopped = false }

abbrev answers : String → Result Page
answers id = ok (serve id)

abbrev fails : String → Result Page
fails id = err canceled

abbrev ticks : List Tick
ticks =
    record { paused = false; latest = ok "1"; calls = answers ∷ fails ∷ [] }
    ∷ record { paused = false; latest = ok "1"; calls = answers ∷ answers ∷ [] }
    ∷ []

named : ◌≢◌ {A = String} "2" ""
named h = absurd (ground (arith, (eq_iff "2" "").1 h))

one : ◌≢◌ {A = String} "1" ""
one h = absurd (ground (arith, (eq_iff "1" "").1 h))

within : (id : String) → at id ≤ length history
within id = ground (arith)

serve-IsPage : (id : String) → IsPage history at id (serve id)
serve-IsPage id = record {
  named = named;
  forward = ground arith;
  tells = told_between (str_eq id "2");
}
  where
    told_between :
        (b : Bool)
        → told (if b then [] else event ∷ []) false ≡ segment (if b then 1 else 0) (at "2") history
    told_between true = refl
    told_between false = refl

answers-IsHonest : IsHonest history at answers
answers-IsHonest from p got = subst (λ x. IsPage history at from x) (ok_inj got) (serve-IsPage from)
  where
    ok_inj : {a b : Page} → ok a ≡ ok b → a ≡ b
    ok_inj e = cc

fails-IsHonest : IsHonest history at fails
fails-IsHonest from p got = absurd (cc)

answers-IsComplete : IsComplete history at answers
answers-IsComplete from = (serve from, refl, serve-IsPage from, moved_or_end (str_eq from "2"))
  where
    moved_or_end : (b : Bool) → ((if b then [] else event ∷ []) ≢ []) ⊎ (at "2" ≡ length history)
    moved_or_end b = inr refl

run_ticks-Follows_example : Follows history at session (run_ticks true ticks session)
run_ticks-Follows_example =
    run_ticks-Follows history at true ticks session
      ((answers-IsHonest, (fails-IsHonest, tt)), ((answers-IsHonest, (answers-IsHonest, tt)), tt))
      one

tick-CaughtUp_example :
    ((tick true false (ok "1") (answers ∷ answers ∷ []) session).delivered
      ≡ session.delivered ++ drop (at session.last) history)
    × (at (tick true false (ok "1") (answers ∷ answers ∷ []) session).last ≡ length history)
tick-CaughtUp_example =
    tick-CaughtUp history at within true (ok "1") (answers ∷ answers ∷ []) session refl one
      (answers-IsComplete, (answers-IsComplete, tt)) (omega arith)

abbrev dir : Dir
dir = record { is_expired = false; children = "f" ∷ [] }

abbrev mount : Mount
mount = record {
  dirs = ("d", dir) ∷ [];
  parent_of = ("f", "d") ∷ [];
  has_child = λ id. true;
  dropped = [];
}

found : lookup "d" mount.dirs ≡ some dir
unfolding lookup
found = refl
