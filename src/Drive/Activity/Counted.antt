-- ===== src/Drive/Activity/Counted.antt =====
-- internal/drive/activity.go: the counter and the list of transfers.
use proton_drive_linux_fs.Base.{
  ℕ, suc, ◌+◌, ◌<◌, ◌≡◌, String, none, some, arith, length, lookup, nat_key, Distinct,
  insert-Distinct, delete-Distinct, length-delete, length-insert_absent, length-insert_present,
  lookup-insert, lookup-delete, inl, inr, ◌∙◌, ◌%◌, Option-cases,
}
use proton_drive_linux_fs.Drive.Activity.{Transfer, Activity, u64_mod, begin, end_transfer, add}

-- Ids are given out in order, no two transfers share one, and the counter counts the list.
pub record Inv (a : Activity) : Type 0 where
  pub counted : a.transfers ≡ length a.current
  pub distinct : Distinct a.current
  pub fresh : (id : ℕ) → a.next_transfer_id < id → lookup id a.current ≡ none

-- begin keeps the number of transfers equal to that of the transfers shown, ids different and none
-- above the last given out, while fewer than 2 ^ 64 ids were given out.
pub begin-Inv :
    (path action : String) (total now : ℕ) (a : Activity)
    → a.next_transfer_id + 1 < u64_mod
    → Inv a
    → Inv (begin path action total now a).1
unfolding begin
begin-Inv path action total now a room v = record {
  counted = omega (arith, v.counted, length-insert_absent next _ a.current absent);
  distinct = insert-Distinct next _ a.current v.distinct;
  fresh = λ id h. lookup-insert next id _ a.current ∙ ground (arith, v.fresh id);
}
  where
    next : ℕ
    next = (a.next_transfer_id + 1) % u64_mod

    absent : lookup next a.current ≡ none
    absent = v.fresh next (omega arith)

-- Ending a transfer that is shown keeps the number of transfers equal to that of the transfers
-- shown, and makes it one less.
pub end_transfer-Inv :
    (id : ℕ) (t : Transfer) (a : Activity)
    → lookup id a.current ≡ some t
    → Inv a
    → Inv (end_transfer id a) × (suc (end_transfer id a).transfers ≡ a.transfers)
unfolding end_transfer
end_transfer-Inv id t a h v = (
  record {
    counted = omega (arith, v.counted, length-delete id t a.current v.distinct h);
    distinct = delete-Distinct id a.current v.distinct;
    fresh = λ j k. lookup-delete id j a.current ∙ ground (arith, v.fresh j);
  },
  omega (arith, v.counted, length-delete id t a.current v.distinct h),
)

pub add-Inv : (id n : ℕ) (a : Activity) → Inv a → Inv (add id n a)
unfolding add
add-Inv id n a v = elim (Option-cases (lookup id a.current)) [
  | inl e ↦ rw e v
  | inr (t, e) ↦ rw e (record {
    counted = omega (
      arith,
      v.counted,
      length-insert_present id (record t { bytes = t.bytes + n }) t a.current e,
    );
    distinct = insert-Distinct id _ a.current v.distinct;
    fresh = λ j k. lookup-insert id j _ a.current ∙ ground (arith, v.fresh j);
  })
]
