-- ===== src/Drive/Events.antt =====
-- internal/drive/events.go: the polling of volume events. The Proton API is an argument: each call
-- answers an id with a page of events or an error, and no two calls need to answer alike.
-- `delivered` is what fn was called with, first first, and `notify` whether onAuthFailed is set.
pub mod Followed
pub mod CaughtUp
use proton_drive_linux_fs.Base.{
  String, Bool, true, false, ◌&&◌, Option, none, some, List, [], ◌∷◌, ◌++◌, if◌then◌else◌, str_eq,
}
use proton_drive_linux_fs.Drive.Errors.{Err, Result, ok, err, is_unrecoverable_auth}

-- proton.LinkEventType, as far as the code tells its values apart.
pub data Kind : Type 0 where
  deleted updated other_kind : Kind

pub record Event : Type 0 where
  pub kind : Kind
  pub link_id : String
  pub parent_id : String
  pub is_dir : Bool

-- Event.Refresh leaves the other fields empty.
pub data Delivery : Type 0 where
  change : Event → Delivery
  refreshed : Delivery

pub record Page : Type 0 where
  pub event_id : String
  pub events : List Event
  pub refresh : Bool

pub record Session : Type 0 where
  pub last : String
  pub delivered : List Delivery
  pub stopped : Bool

abbrev pub changes : List Event → List Delivery
changes [] = []
changes (e ∷ es) = change e ∷ changes es

abbrev pub deliveries : Page → List Delivery
deliveries p = changes p.events ++ (if p.refresh then refreshed ∷ [] else [])

abbrev is_empty : List Event → Bool
is_empty [] = true
is_empty (e ∷ es) = false

-- An error stops the polling for good, if there is somebody to tell (onAuthFailed) and no way to
-- recover, or ends the tick.
unfoldable pub unrecoverable_auth : Bool → Err → Session → Session
unrecoverable_auth notify e s =
    if notify && is_unrecoverable_auth e then record s { stopped = true } else s

-- The inner loop of a tick: each call of the API is what the server answers to an id at that time.
unfoldable pub poll_pages : Bool → List (String → Result Page) → Session → Session
poll_pages notify [] s = s
poll_pages notify (call ∷ calls) s = elim (call s.last) [
  | err e ↦ unrecoverable_auth notify e s
  | ok page ↦
      let t = record s { last = page.event_id; delivered = s.delivered ++ deliveries page } in
      let rest = poll_pages notify calls t in if is_empty page.events then t else rest
]

with_latest : Bool → List (String → Result Page) → Result String → Session → Session
with_latest notify calls (err e) s = unrecoverable_auth notify e s
with_latest notify calls (ok latest) s = poll_pages notify calls (record s { last = latest })

-- One tick: whether it is paused, the answer about the latest event id, and the calls after it.
unfoldable pub tick : Bool → Bool → Result String → List (String → Result Page) → Session → Session
unfolding with_latest
tick notify paused latest calls s =
    if s.stopped
    then s
    else if paused
    then s
    else if str_eq s.last ""
    then with_latest notify calls latest s
    else poll_pages notify calls s

pub record Tick : Type 0 where
  pub paused : Bool
  pub latest : Result String
  pub calls : List (String → Result Page)

unfoldable pub run_ticks : Bool → List Tick → Session → Session
run_ticks notify [] s = s
run_ticks notify (t ∷ ts) s = run_ticks notify ts (tick notify t.paused t.latest t.calls s)

-- Before the first tick: the latest event id, if the API tells it.
abbrev pub start_polling : Bool → Result String → Session
start_polling notify (ok latest) = record { last = latest; delivered = []; stopped = false }
start_polling notify (err e) =
    unrecoverable_auth notify e (record { last = ""; delivered = []; stopped = false })

-- Events, up to the tick at which the context is done.
unfoldable pub poll_events : Bool → Result String → List Tick → Session
unfolding run_ticks
poll_events notify latest ticks = run_ticks notify ticks (start_polling notify latest)
