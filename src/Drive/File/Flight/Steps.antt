-- ===== src/Drive/File/Flight/Steps.antt =====
-- internal/drive/file.go: how many steps the callers of getBlock have before them.
use proton_drive_linux_fs.Base.{
  set_at, same_index, ℕ, zero, suc, ◌+◌, ◌*◌, ◌≤◌, ◌<◌, ◌≡◌, refl, ap, sym, ◌∙◌, Option, none, some,
  arith, ◌⊎◌, inl, inr, subst, nat_same_iff, nat_key, lookup,
}
use proton_drive_linux_fs.Drive.Errors.{Err, err, fetch_missing}
use proton_drive_linux_fs.Drive.Read.{Bytes}
use proton_drive_linux_fs.Drive.File.{Remote, State}
use proton_drive_linux_fs.Drive.File.Flight.{
  Phase, Caller, Flight, Reach, begun, later, turn, act, set_phase, with_flight, cached, answered,
  all_started, claim_block, fetch_result, unclaim_block, close_fetch,
}
use proton_drive_linux_fs.Drive.File.Flight.Claims.{some_inj}

-- How many steps a caller has before it at most.
unfoldable pub steps_left : Phase → ℕ
steps_left Phase.started = 5
steps_left Phase.missed = 4
steps_left Phase.fetching = 3
steps_left (Phase.fetched r) = 2
steps_left (Phase.unclaimed r) = 1
steps_left (Phase.waiting w) = 2
steps_left Phase.woken = 1
steps_left (Phase.returned r) = 0

pub total_left : ℕ → (ℕ → Caller) → ℕ
total_left zero f = 0
total_left (suc n) f = total_left n f + steps_left (f n).phase

pub below_or_not : (i n : ℕ) → (i < n) ⊎ (n ≤ i)
below_or_not i n = ground arith

total_left-set_at_outside :
    (n : ℕ) (f : ℕ → Caller) (i : ℕ) (c : Caller)
    → n ≤ i
    → total_left n (set_at i c f) ≡ total_left n f
unfolding total_left set_at
total_left-set_at_outside zero f i c h = refl
total_left-set_at_outside (suc n) f i c h =
    ground (arith, total_left-set_at_outside n f i c, nat_same_iff i n)

total_left-set_at :
    (n : ℕ) (f : ℕ → Caller) (i : ℕ) (c : Caller)
    → i < n
    → total_left n (set_at i c f) + steps_left (f i).phase ≡ total_left n f + steps_left c.phase
unfolding total_left set_at
total_left-set_at zero f i c h = absurd (omega arith)
total_left-set_at (suc n) f i c h = elim (same_index i n) [
  | inl (same, last) ↦ ground (arith, total_left-set_at_outside n f i c (omega arith), same, last)
  | inr (other, away) ↦ ground (arith, total_left-set_at n f i c (omega arith), other)
]

cached-steps_left :
    (o : Option Bytes) (p : Phase) (n : ℕ) → steps_left p < suc n → steps_left (cached o p) < suc n
unfolding cached steps_left
cached-steps_left (some block) p n h = omega arith
cached-steps_left none p n h = h

answered-steps_left :
    (ctx : Option Err) (o : Option (Option Err)) (p : Phase)
    → answered ctx o ≡ some p
    → steps_left p < 2
unfolding answered steps_left
answered-steps_left (some e) o p h = subst (λ q. steps_left q < 2) (some_inj h) (omega arith)
answered-steps_left none none p h = absurd (cc)
answered-steps_left none (some (some e)) p h =
    subst (λ q. steps_left q < 2) (some_inj h) (omega arith)
answered-steps_left none (some none) p h = subst (λ q. steps_left q < 2) (some_inj h) (omega arith)

pub closed-answered :
    (o : Option (Option Err)) (e : Option Err)
    → o ≡ some e
    → (p : Phase) × (answered none o ≡ some p)
unfolding answered
closed-answered none e h = absurd (cc)
closed-answered (some none) e h = (_, refl)
closed-answered (some (some x)) e h = (_, refl)

module _ {W : Type 0} where
  carried :
      (n : ℕ) (fl : Flight W) (p q : Phase) (t u : Flight W)
      → steps_left p < n
      → t.callers ≡ fl.callers
      → ◌≡◌ {A = Option (Phase × Flight W)} (some (p, t)) (some (q, u))
      → (steps_left q < n) × (u.callers ≡ fl.callers)
  carried n fl p q t u less same h =
      subst (λ x. (steps_left x.0 < n) × (x.1.callers ≡ fl.callers)) (some_inj h) (less, same)

  claim_block-steps_left :
      (i idx : ℕ) (fl : Flight W)
      → (steps_left (claim_block i idx fl).0 < 4) × ((claim_block i idx fl).1.callers ≡ fl.callers)
  unfolding claim_block steps_left
  claim_block-steps_left i idx fl = ground arith

  with_flight-steps_left :
      (o : Option Phase) (fl : Flight W) (q : Phase) (u : Flight W)
      → ((p : Phase) → o ≡ some p → steps_left p < 2)
      → with_flight o fl ≡ some (q, u)
      → (steps_left q < 2) × (u.callers ≡ fl.callers)
  unfolding with_flight
  with_flight-steps_left none fl q u less h = absurd (cc)
  with_flight-steps_left (some p) fl q u less h = carried 2 fl p q fl u (less p refl) refl h

module _ {W : Type 0} (remote : Remote W) where
  act-steps_left :
      (i : ℕ) (ctx : Option Err) (idx : ℕ) (p : Phase) (fl : Flight W) (q : Phase) (u : Flight W)
      → act remote i ctx idx p fl ≡ some (q, u)
      → (steps_left q < steps_left p) × (u.callers ≡ fl.callers)
  unfolding act steps_left fetch_result unclaim_block close_fetch
  act-steps_left i ctx idx Phase.started fl q u h =
      carried 5 fl _ q _ u
        (cached-steps_left (lookup idx fl.state.file.cache) Phase.missed 4 (omega arith)) refl h
  act-steps_left i ctx idx Phase.missed fl q u h =
      let claim = claim_block-steps_left i idx fl in carried 4 fl _ q _ u claim.0 claim.1 h
  act-steps_left i ctx idx Phase.fetching fl q u h = carried 3 fl _ q _ u (omega arith) refl h
  act-steps_left i ctx idx (Phase.fetched r) fl q u h = carried 2 fl _ q _ u (omega arith) refl h
  act-steps_left i ctx idx (Phase.unclaimed r) fl q u h = carried 1 fl _ q _ u (omega arith) refl h
  act-steps_left i ctx idx (Phase.waiting w) fl q u h =
      with_flight-steps_left _ fl q u (answered-steps_left ctx (fl.fetches w)) h
  act-steps_left i ctx idx Phase.woken fl q u h =
      carried 1 fl _ q _ u
        (cached-steps_left (lookup idx fl.state.file.cache) (Phase.returned (err fetch_missing)) 0
          (omega arith))
        refl h
  act-steps_left i ctx idx (Phase.returned r) fl q u h = absurd (cc)

  set_phase-Moved :
      (i idx : ℕ) (p : Phase) (fl next : Flight W) (o : Option (Phase × Flight W))
      → ((q : Phase) (u : Flight W)
          → o ≡ some (q, u)
          → (steps_left q < steps_left p) × (u.callers ≡ fl.callers))
      → set_phase i idx o ≡ some next
      → (q : Phase) × (next.callers ≡ set_at i (record { idx = idx; phase = q }) fl.callers)
        × (steps_left q < steps_left p)
  unfolding set_phase
  set_phase-Moved i idx p fl next none moves h = absurd (cc)
  set_phase-Moved i idx p fl next (some (q, u)) moves h =
      let (less, same) = moves q u refl in
      let shown = ap (λ f. set_at i (record { idx = idx; phase = q }) f) same in
      (q, sym (ap (λ x. x.callers) (some_inj h)) ∙ shown, less)

  pub turn-Moved :
      (i : ℕ) (ctx : Option Err) (fl next : Flight W)
      → turn remote i ctx fl ≡ some next
      → (q : Phase) × (next.callers
          ≡ set_at i (record { idx = (fl.callers i).idx; phase = q }) fl.callers)
        × (steps_left q < steps_left (fl.callers i).phase)
  unfolding turn
  turn-Moved i ctx fl next h =
      let idx = (fl.callers i).idx in
      let p = (fl.callers i).phase in
      set_phase-Moved i idx p fl next _ (act-steps_left i ctx idx p fl) h

  turn-total_left :
      (n i : ℕ) (ctx : Option Err) (fl next : Flight W)
      → i < n
      → turn remote i ctx fl ≡ some next
      → total_left n next.callers < total_left n fl.callers
  turn-total_left n i ctx fl next below h =
      let (q, moved, less) = turn-Moved i ctx fl next h in
      let idx = (fl.callers i).idx in
      omega (
        arith,
        ap (total_left n) moved,
        total_left-set_at n fl.callers i (record { idx = idx; phase = q }) below,
        less,
      )

  pub total_left-all_started :
      (n : ℕ) (s : State W) (which : ℕ → ℕ) → total_left n (all_started s which).callers ≡ 5 * n
  unfolding total_left steps_left
  total_left-all_started zero s which = refl
  total_left-all_started (suc n) s which = omega (arith, total_left-all_started n s which)

  pub Reach-total_left :
      {n : ℕ} {first : Flight W} {k : ℕ} {fl : Flight W}
      → Reach remote n first k fl
      → k + total_left n fl.callers ≤ total_left n first.callers
  Reach-total_left begun = omega arith
  Reach-total_left {n} (later i ctx below r h) =
      omega (arith, Reach-total_left r, turn-total_left n i ctx _ _ below h)
