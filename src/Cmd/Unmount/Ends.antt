-- ===== src/Cmd/Unmount/Ends.antt =====
-- cmd/proton-drive-fs/main.go: the loop of the unmount command ends.
use proton_drive_linux_fs.Base.{
  ℕ, zero, suc, ◌+◌, ◌-◌, ◌*◌, ◌/◌, ◌≤◌, ◌<◌, ◌≡◌, true, if◌then◌else◌, subst, ◌⊎◌, inl, inr, refl,
  Bool, false, not, Option, none, some, List, arith, if-cases, Bool-cases, ltb, ◌==◌,
}
use proton_drive_linux_fs.Cmd.Mounts.{Text}
use proton_drive_linux_fs.Cmd.Unmount.{
  Attempt, Holder, Outcome, unmounted, already, refused, detached, stuck, not_found_text, busy_text,
  not_mounted, is_busy, unmount_lazy_with_holders, answer, next, unmount_loop, run_unmount,
}

module _ (contains : Text → Text → Bool) (lower : Text → Text) (clock : ℕ → ℕ)
    (attempts : ℕ → Attempt) where
  -- A plain unmount failed for a mount that is there, and the error said that it is busy.
  abbrev pub Busy : Attempt → Type 0
  Busy a =
      (a.failed ≡ true)
      × (contains a.out not_found_text ≡ false)
      × (contains (lower a.out) busy_text ≡ true)

  -- What one attempt means: it worked, nothing was mounted, or it failed for another reason.
  abbrev pub Decided : Attempt → Outcome → Type 0
  Decided a unmounted = a.failed ≡ false
  Decided a already = (a.failed ≡ true) × (contains a.out not_found_text ≡ true)
  Decided a (refused b) =
      (b ≡ a)
      × (a.failed ≡ true)
      × (contains a.out not_found_text ≡ false)
      × (contains (lower a.out) busy_text ≡ false)
  Decided a (detached holders) = ⊥
  Decided a (stuck holders) = ⊥

  answer-Busy : (a : Attempt) → answer contains lower a ≡ none → Busy a
  unfolding answer not_mounted is_busy
  answer-Busy a h = ground arith

  answer-Decided : (a : Attempt) (o : Outcome) → answer contains lower a ≡ some o → Decided a o
  unfolding answer not_mounted is_busy
  answer-Decided a unmounted h = ground arith
  answer-Decided a already h = ground arith
  answer-Decided a (refused b) h = ground arith
  answer-Decided a (detached holders) h = ground arith
  answer-Decided a (stuck holders) h = ground arith

  -- The attempts from one on up to another were all refused as busy.
  abbrev pub BusyUpTo : ℕ → Type 0
  BusyUpTo n = (i : ℕ) → i < n → Busy (attempts i)

  -- The last attempt decided, or the deadline had passed and the mount was detached lazily; all the
  -- attempts before were busy.
  abbrev pub EndedWell : Outcome → ℕ → Outcome × ℕ → Type 0
  EndedWell lazily deadline (o, made) =
      ((last : ℕ) × (made ≡ suc last) × BusyUpTo last × Decided (attempts last) o)
      ⊎ ((o ≡ lazily) × BusyUpTo made × (deadline ≤ clock made))

  abbrev pub Returns : Outcome → ℕ → ℕ → Option (Outcome × ℕ) → Type 0
  Returns lazily deadline most none = ⊥
  Returns lazily deadline most (some (o, made)) =
      EndedWell lazily deadline (o, made) × (made ≤ most)

  one_more : (n : ℕ) → BusyUpTo n → Busy (attempts n) → BusyUpTo (suc n)
  one_more n busy now i h = elim (Bool-cases (ltb i n)) [
    | inl below ↦ busy i (ground arith)
    | inr here ↦ subst (λ k. Busy (attempts k)) (same here) now
  ]
    where
      same : ltb i n ≡ false → n ≡ i
      same e = ground arith

  next-Returns :
      (lazily : Outcome) (deadline most m : ℕ) (o : Option Outcome) (rest : Option (Outcome × ℕ))
      → answer contains lower (attempts m) ≡ o
      → BusyUpTo m
      → suc m ≤ most
      → (o ≡ none → Returns lazily deadline most rest)
      → Returns lazily deadline most (next contains lower o rest (suc m))
  unfolding next
  next-Returns lazily deadline most m none rest e busy room goes_on = goes_on refl
  next-Returns lazily deadline most m (some o) rest e busy room goes_on =
      (inl (m, refl, busy, answer-Decided (attempts m) o e), room)

  module _ (lazily : Outcome) (wait : ℕ) (forward : clock 0 ≤ clock 1)
      (sleeps : (i : ℕ) → 1 ≤ i → clock i + 500 ≤ clock (suc i)) where
    -- The clock before an attempt that is not the first.
    abbrev Late : ℕ → Type 0
    Late m = 1 ≤ m → clock 0 + 500 * (m - 1) ≤ clock m

    later : (m : ℕ) → Late m → Late (suc m)
    later zero h one = omega (arith, forward)
    later (suc m) h one = omega (arith, h (omega arith), sleeps (suc m) (omega arith))

    unmount_loop-Returns :
        (fuel m : ℕ)
        → wait / 500 + 3 ≤ m + fuel
        → m ≤ wait / 500 + 2
        → Late m
        → BusyUpTo m
        → Returns lazily
            (clock 0 + wait)
            (wait / 500 + 2)
            (unmount_loop contains lower clock attempts lazily (clock 0 + wait) fuel m)
    unfolding unmount_loop
    unmount_loop-Returns zero m f most late busy = absurd (omega arith)
    unmount_loop-Returns (suc fuel) m f most late busy =
        let goes_on = λ (small : suc m ≤ wait / 500 + 2).
          next-Returns lazily (clock 0 + wait) (wait / 500 + 2) m
            (answer contains lower (attempts m))
            (unmount_loop contains lower clock attempts lazily (clock 0 + wait) fuel (suc m)) refl
            busy small
            (λ none_yet.
              unmount_loop-Returns fuel (suc m) (omega arith) small (later m late)
                (one_more m busy (answer-Busy (attempts m) none_yet))) in
        if-cases (Returns lazily (clock 0 + wait) (wait / 500 + 2)) (m == 0)
          (λ first. goes_on (ground arith))
          (λ again.
            if-cases (Returns lazily (clock 0 + wait) (wait / 500 + 2))
              (not (ltb (clock m) (clock 0 + wait)))
              (λ past. (inr (refl, busy, ground arith), most))
              (λ before. goes_on (room (ground arith) (late (ground arith)))))
      where
        room : clock m < clock 0 + wait → clock 0 + 500 * (m - 1) ≤ clock m → suc m ≤ wait / 500 + 2
        room before at = omega arith

  -- Where the clock does not go back before the second attempt and is at least 500 ms on at each
  -- later one, and with fuel for three rounds more than 500 ms fit into the wait: the unmount
  -- command ends after at most two attempts more than that, and every attempt but a deciding last
  -- one failed for a mount that is there, with an error that says busy. Either the last attempt
  -- decides: unmounted if it worked, not mounted if its error says so, refused with it if its error
  -- says neither; or the wait is over and the outcome is that of a lazy unmount, detached or stuck
  -- with the holders.
  pub run_unmount-Returns :
      (holders : List Holder) (lazy_fails : Bool) (wait : ℕ)
      → clock 0 ≤ clock 1
      → ((i : ℕ) → 1 ≤ i → clock i + 500 ≤ clock (suc i))
      → Returns
          (if lazy_fails then stuck holders else detached holders)
          (clock 0 + wait)
          (wait / 500 + 2)
          (run_unmount contains lower clock attempts holders lazy_fails wait (wait / 500 + 3))
  unfolding run_unmount unmount_lazy_with_holders
  run_unmount-Returns holders lazy_fails wait forward sleeps =
      unmount_loop-Returns (unmount_lazy_with_holders contains lower holders lazy_fails) wait
        forward sleeps (wait / 500 + 3) 0 (omega arith) (omega arith) (λ one. absurd (omega arith))
        (λ i h. absurd (omega arith))
