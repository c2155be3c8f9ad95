-- ===== src/Witness/Flights.antt =====
-- Two callers of internal/drive/file.go's getBlock who ask for one block.
use proton_drive_linux_fs.Base.{
  set_at, ℕ, ◌*◌, ◌≤◌, ◌<◌, ◌≡◌, refl, none, some, arith, ◌⊎◌, Option, lookup, insert, delete,
}
use proton_drive_linux_fs.Drive.Read.Prefix.{chunk}
use proton_drive_linux_fs.Drive.File.{fetch_and_cache_block, cache_put, download_block}
use proton_drive_linux_fs.Drive.File.Flight.{
  Flight, Reach, begun, later, turn, all_started, claim_block, unclaim_block, close_fetch,
}
use proton_drive_linux_fs.Drive.File.Flight.Single.{fetches_once}
use proton_drive_linux_fs.Drive.File.Flight.Ends.{HasReturned, flight_ends}
use proton_drive_linux_fs.Drive.File.Flight.Honest.{flight_honest}
use proton_drive_linux_fs.Witness.Blocks.{
  content, remote, remote-Trusted, listed_state, listed_state-IsCoherent,
}

abbrev which : ℕ → ℕ
which i = 1

abbrev first : Flight (Unit {0})
first = all_started listed_state which

otherwise : Flight (Unit {0}) → Option (Flight (Unit {0})) → Flight (Unit {0})
otherwise fl none = fl
otherwise fl (some next) = next

after : ℕ → Flight (Unit {0}) → Flight (Unit {0})
unfolding otherwise
after i fl = otherwise fl (turn remote i none fl)

-- The first caller fetches, and the second waits for it.
abbrev second_waits : Flight (Unit {0})
second_waits = after 1 (after 1 (after 0 (after 0 first)))

abbrev first_returned : Flight (Unit {0})
first_returned = after 0 (after 0 (after 0 second_waits))

waits : Reach remote 2 first 4 second_waits
unfolding turn after set_at lookup insert delete claim_block fetch_and_cache_block unclaim_block
    close_fetch cache_put download_block
waits =
    later 1 none (omega arith)
      (later 1 none (omega arith)
        (later 0 none (omega arith) (later 0 none (omega arith) begun refl) refl) refl)
      refl

returns : Reach remote 2 first 7 first_returned
unfolding turn after set_at lookup insert delete claim_block fetch_and_cache_block unclaim_block
    close_fetch cache_put download_block
returns =
    later 0 none (omega arith)
      (later 0 none (omega arith) (later 0 none (omega arith) waits refl) refl) refl

fetches_once_example : ◌≡◌ {A = ℕ} 0 0
unfolding turn after set_at lookup insert delete claim_block fetch_and_cache_block unclaim_block
    close_fetch cache_put download_block
fetches_once_example = fetches_once remote listed_state which 0 0 waits refl refl refl

flight_ends_example :
    (4 ≤ 5 * 2)
    × (((i : ℕ) → i < 2 → HasReturned (second_waits.callers i))
        ⊎ ((j : ℕ) × (j < 2)
            × ((next : Flight (Unit {0})) × (turn remote j none second_waits ≡ some next))))
flight_ends_example = flight_ends remote listed_state which waits

flight_honest_example : content ≡ chunk content 1
unfolding turn after set_at lookup insert delete claim_block fetch_and_cache_block unclaim_block
    close_fetch cache_put download_block
flight_honest_example =
    flight_honest remote content remote-Trusted listed_state which 0 content listed_state-IsCoherent
      returns refl
