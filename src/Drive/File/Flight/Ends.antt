-- ===== src/Drive/File/Flight/Ends.antt =====
-- internal/drive/file.go: every caller of getBlock returns, whatever the order of their steps.
use proton_drive_linux_fs.Base.{
  set_at, same_index, ℕ, zero, suc, ◌*◌, ◌≤◌, ◌<◌, ◌≡◌, refl, ap, sym, ◌∙◌, Option-cases, true,
  none, some, arith, ◌⊎◌, inl, inr, subst, nat_same_iff, nat_key,
}
use proton_drive_linux_fs.Drive.Errors.{Result}
use proton_drive_linux_fs.Drive.Read.{Bytes}
use proton_drive_linux_fs.Drive.File.{Remote, State}
use proton_drive_linux_fs.Drive.File.Flight.{
  Phase, Caller, Flight, Reach, begun, later, turn, act, set_phase, with_flight, answered,
  all_started,
}
use proton_drive_linux_fs.Drive.File.Flight.Claims.{holds, will_close, is_closed}
use proton_drive_linux_fs.Drive.File.Flight.Single.{Reach-IsClaimed, all_started-IsClaimed}
use proton_drive_linux_fs.Drive.File.Flight.Steps.{
  steps_left, below_or_not, closed-answered, turn-Moved, Reach-total_left, total_left-all_started,
}

pub HasReturned : Caller → Type 0
HasReturned c = (r : Result Bytes) × (c.phase ≡ Phase.returned r)

returned_cases : (p : Phase) → ((r : Result Bytes) × (p ≡ Phase.returned r)) ⊎ (0 < steps_left p)
unfolding steps_left
returned_cases (Phase.returned r) = inl (r, refl)
returned_cases Phase.started = inr (omega arith)
returned_cases Phase.missed = inr (omega arith)
returned_cases Phase.fetching = inr (omega arith)
returned_cases (Phase.fetched r) = inr (omega arith)
returned_cases (Phase.unclaimed r) = inr (omega arith)
returned_cases (Phase.waiting w) = inr (omega arith)
returned_cases Phase.woken = inr (omega arith)

unreturned :
    (n : ℕ) (f : ℕ → Caller)
    → ((i : ℕ) → i < n → HasReturned (f i)) ⊎ ((i : ℕ) × (i < n) × (0 < steps_left (f i).phase))
unfolding HasReturned
unreturned zero f = inl (λ i h. absurd (omega arith))
unreturned (suc n) f = elim (unreturned n f) [
  | inr (i, below, left) ↦ inr (i, omega arith, left)
  | inl before ↦ elim (returned_cases (f n).phase) [
    | inr left ↦ inr (n, omega arith, left)
    | inl last ↦ inl (λ i h. elim (same_index i n) [
      | inl (same, at) ↦ subst (λ j. HasReturned (f j)) (sym at) last
      | inr (other, away) ↦ before i (omega arith)
    ])
  ]
]

module _ {W : Type 0} (remote : Remote W) where
  -- Those who are not among the callers do not begin.
  Reach-outside :
      {n : ℕ} {first : Flight W} {k : ℕ} {fl : Flight W}
      → Reach remote n first k fl
      → (j : ℕ) → n ≤ j
      → fl.callers j ≡ first.callers j
  unfolding set_at
  Reach-outside begun j out = refl
  Reach-outside {n} (later {fl} i ctx below r h) j out =
      let (q, moved, less) = turn-Moved remote i ctx fl _ h in
      ap (λ f. f j) moved ∙ ground (arith, nat_same_iff i j, Reach-outside r j out)

  can_act :
      (i : ℕ) (idx : ℕ) (p : Phase) (fl : Flight W)
      → ((r : Result Bytes) × (p ≡ Phase.returned r))
        ⊎ ((w : ℕ) × (p ≡ Phase.waiting w) × (fl.fetches w ≡ none))
        ⊎ ((next : Flight W) × (set_phase i idx (act remote i none idx p fl) ≡ some next))
  unfolding act set_phase answered with_flight
  can_act i idx (Phase.returned r) fl = inl (r, refl)
  can_act i idx (Phase.waiting w) fl = elim (Option-cases (fl.fetches w)) [
    | inl nothing ↦ inr (inl (w, refl, nothing))
    | inr (e, closed) ↦
        let (p, goes) = closed-answered (fl.fetches w) e closed in
        inr (inr (_, ap (λ a. set_phase i idx (with_flight a fl)) goes))
  ]
  can_act i idx Phase.started fl = inr (inr (_, refl))
  can_act i idx Phase.missed fl = inr (inr (_, refl))
  can_act i idx Phase.fetching fl = inr (inr (_, refl))
  can_act i idx (Phase.fetched r) fl = inr (inr (_, refl))
  can_act i idx (Phase.unclaimed r) fl = inr (inr (_, refl))
  can_act i idx Phase.woken fl = inr (inr (_, refl))

  -- A caller who is to close a fetch waits for nobody.
  closer_acts :
      (w : ℕ) (fl : Flight W)
      → will_close (fl.callers w).phase ≡ true
      → (next : Flight W) × (turn remote w none fl ≡ some next)
  unfolding turn will_close holds
  closer_acts w fl h = elim (can_act w (fl.callers w).idx (fl.callers w).phase fl) [
    | inl (r, back) ↦ absurd (ground (arith, h, ap will_close back))
    | inr (inl (x, waits, open_yet)) ↦ absurd (ground (arith, h, ap will_close waits))
    | inr (inr goes) ↦ goes
  ]

  closer_below :
      {n k : ℕ} {fl : Flight W} (s : State W) (which : ℕ → ℕ)
      → Reach remote n (all_started s which) k fl
      → (w : ℕ) → will_close (fl.callers w).phase ≡ true
      → w < n
  unfolding will_close holds
  closer_below {n} {fl} s which r w h = elim (below_or_not w n) [
    | inl below ↦ below
    | inr out ↦ absurd (ground (arith, h, ap (λ c. will_close c.phase) (Reach-outside r w out)))
  ]

  goes_on :
      {n k : ℕ} {fl : Flight W} (s : State W) (which : ℕ → ℕ)
      → Reach remote n (all_started s which) k fl
      → (i : ℕ) → i < n
      → 0 < steps_left (fl.callers i).phase
      → (j : ℕ) × (j < n) × ((next : Flight W) × (turn remote j none fl ≡ some next))
  unfolding turn steps_left is_closed will_close holds
  goes_on {n} {fl} s which r i below left =
      elim (can_act i (fl.callers i).idx (fl.callers i).phase fl) [
        | inl (x, back) ↦ absurd (omega (arith, left, ap steps_left back))
        | inr (inr goes) ↦ (i, below, goes)
        | inr (inl (w, waits, still)) ↦
            elim ((Reach-IsClaimed remote (all_started-IsClaimed remote s which) r).awaited i w
              waits) [
                | inl closing ↦ (w, closer_below s which r w closing, closer_acts w fl closing)
                | inr closed ↦ absurd (ground (arith, closed, ap is_closed still))
              ]
      ]

  -- However the steps of n calls of getBlock on one File interleave, with whatever contexts done:
  -- all together they take at most five steps for each call, and as long as one of them has not
  -- returned there is one that can take a step although no context is done; so none waits for a
  -- fetch that nobody ends.
  pub flight_ends :
      {n k : ℕ} {fl : Flight W} (s : State W) (which : ℕ → ℕ)
      → Reach remote n (all_started s which) k fl
      → (k ≤ 5 * n)
        × (((i : ℕ) → i < n → HasReturned (fl.callers i))
            ⊎ ((j : ℕ) × (j < n) × ((next : Flight W) × (turn remote j none fl ≡ some next))))
  flight_ends {n} {fl} s which r = (
    omega (arith, Reach-total_left remote r, total_left-all_started remote n s which),
    elim (unreturned n fl.callers) [
      | inl all ↦ inl all
      | inr (i, below, left) ↦ inr (goes_on s which r i below left)
    ],
  )
