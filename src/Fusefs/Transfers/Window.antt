-- ===== src/Fusefs/Transfers/Window.antt =====
-- internal/fusefs/fusefs.go: what the ring of finished transfers shows.
use proton_drive_linux_fs.Base.{
  ℕ, zero, suc, ◌+◌, ◌-◌, ◌≤◌, ◌≡◌, ◌∙◌, refl, false, ap, sym, List, [], ◌∷◌, ◌++◌, ltb, length,
  drop, arith, Bool-cases, inl, inr, length-append, length-drop, drop-drop, append_assoc,
  append-nil,
}
use mathlib.Core.List.{reverse, reverse-cons}
use proton_drive_linux_fs.Fusefs.Transfers.{
  RecentTransfer, recent_cap, record_finished, recent_transfers, fill_back,
}

-- Every transfer of a history, recorded in turn.
pub record_all : List RecentTransfer → List RecentTransfer → List RecentTransfer
record_all recent [] = recent
record_all recent (rt ∷ rts) = record_all (record_finished rt recent) rts

-- The last fifty of a history.
abbrev pub last_of : List RecentTransfer → List RecentTransfer
last_of hs = drop (length hs - recent_cap) hs

drop-append :
    (n : ℕ) (xs ys : List RecentTransfer) → n ≤ length xs → drop n xs ++ ys ≡ drop n (xs ++ ys)
drop-append zero xs ys h = refl
drop-append (suc n) [] ys h = absurd (omega arith)
drop-append (suc n) (x ∷ xs) ys h = drop-append n xs ys (omega arith)

none_over : (n : ℕ) → ltb recent_cap n ≡ false → 0 ≡ n - recent_cap
none_over n h = ground arith

-- With or without the test, what is over the cap goes.
record_finished-drop :
    (rt : RecentTransfer) (recent : List RecentTransfer)
    → record_finished rt recent ≡ last_of (recent ++ rt ∷ [])
unfolding record_finished
record_finished-drop rt recent = elim (Bool-cases (ltb recent_cap (length (recent ++ rt ∷ [])))) [
  | inl over ↦ rw over
  | inr fits ↦
      rw fits (ap (λ n. drop n (recent ++ rt ∷ [])) (none_over (length (recent ++ rt ∷ [])) fits))
]

record_finished-last_of :
    (hs : List RecentTransfer) (rt : RecentTransfer)
    → record_finished rt (last_of hs) ≡ last_of (hs ++ rt ∷ [])
record_finished-last_of hs rt =
    record_finished-drop rt (last_of hs)
    ∙ ap (drop (length (last_of hs ++ rt ∷ []) - recent_cap))
        (drop-append (length hs - recent_cap) hs (rt ∷ []) (omega arith))
    ∙ drop-drop (length (last_of hs ++ rt ∷ []) - recent_cap) (length hs - recent_cap)
        (hs ++ rt ∷ [])
    ∙ ap (λ n. drop n (hs ++ rt ∷ [])) total
  where
    total :
        length hs - recent_cap + (length (last_of hs ++ rt ∷ []) - recent_cap)
        ≡ length (hs ++ rt ∷ []) - recent_cap
    total = omega (
      arith,
      length-append hs (rt ∷ []),
      length-append (last_of hs) (rt ∷ []),
      length-drop (length hs - recent_cap) hs,
    )

record_all-last_of :
    (hs rts : List RecentTransfer) → record_all (last_of hs) rts ≡ last_of (hs ++ rts)
unfolding record_all
record_all-last_of hs [] = ap last_of (sym (append-nil hs))
record_all-last_of hs (rt ∷ rts) =
    ap (λ r. record_all r rts) (record_finished-last_of hs rt)
    ∙ record_all-last_of (hs ++ rt ∷ []) rts
    ∙ ap last_of (append_assoc hs (rt ∷ []) rts)

fill_back-reverse : (rts out : List RecentTransfer) → fill_back rts out ≡ reverse rts ++ out
unfolding fill_back
fill_back-reverse [] out = refl
fill_back-reverse (rt ∷ rts) out =
    fill_back-reverse rts (rt ∷ out)
    ∙ sym (ap (λ r. r ++ out) (reverse-cons rt rts) ∙ append_assoc (reverse rts) (rt ∷ []) out)

-- After any history of finished transfers, recentTransfers returns its last fifty, the most recent
-- first.
pub recent_transfers-record_all :
    (hs : List RecentTransfer) → recent_transfers (record_all [] hs) ≡ reverse (last_of hs)
unfolding recent_transfers
recent_transfers-record_all hs =
    ap (λ r. fill_back r []) (record_all-last_of [] hs)
    ∙ fill_back-reverse (last_of hs) []
    ∙ append-nil (reverse (last_of hs))
