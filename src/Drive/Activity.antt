-- ===== src/Drive/Activity.antt =====
-- internal/drive/activity.go: the transfers in flight, which the tray and the local API show.
pub mod Counted
use proton_drive_linux_fs.Base.{
  ℕ, ◌+◌, ◌-◌, ◌%◌, ◌^◌, String, Option, none, some, List, map, lookup, insert, delete, nat_key,
}

pub record Transfer : Type 0 where
  pub id : ℕ
  pub path : String
  pub action : String
  pub total : ℕ
  pub started : ℕ
  pub bytes : ℕ

abbrev pub u64_mod : ℕ
u64_mod = 2 ^ 64

-- nextTransferID, and the fields `transfers` and `current` of Client.
pub record Activity : Type 0 where
  pub next_transfer_id : ℕ
  pub transfers : ℕ
  pub current : List (ℕ × Transfer)

-- `now` is time.Now().
unfoldable pub begin : String → String → ℕ → ℕ → Activity → Transfer × Activity
begin path action total now a =
    let next = (a.next_transfer_id + 1) % u64_mod in
    let t : Transfer = record {
      id = next;
      path = path;
      action = action;
      total = total;
      started = now;
      bytes = 0;
    } in
    (
      t,
      record {
        next_transfer_id = next;
        transfers = a.transfers + 1;
        current = insert next t a.current;
      },
    )

-- `end` in the source. The counter is at least one whenever this runs, so `-` is exact: it is
-- called for a transfer that `begin` returned, once.
unfoldable pub end_transfer : ℕ → Activity → Activity
end_transfer id a = record a { transfers = a.transfers - 1; current = delete id a.current }

abbrev with_bytes : ℕ → ℕ → Option Transfer → List (ℕ × Transfer) → List (ℕ × Transfer)
with_bytes id n none m = m
with_bytes id n (some t) m = insert id (record t { bytes = t.bytes + n }) m

-- Transfer.Add, on the transfer that `current` holds under this id. One that is registered nowhere
-- (ended already, or handed out after Close) is seen by nobody.
unfoldable pub add : ℕ → ℕ → Activity → Activity
add id n a = record a { current = with_bytes id n (lookup id a.current) a.current }

-- CurrentTransfers, in the order of registration; the source's order is that of a sync.Map.
unfoldable pub current_transfers : Activity → List Transfer
current_transfers a = map (λ e. e.1) a.current
