-- ===== src/Drive/File/Flight/Honest.antt =====
-- internal/drive/file.go: what callers of getBlock get who run at once.
use proton_drive_linux_fs.Base.{
  set_at, same_index, ℕ, ◌≡◌, refl, ap, sym, Option, none, some, inl, inr, subst, nat_key, lookup,
  Option-cases,
}
use proton_drive_linux_fs.Drive.Errors.{Err, Result, ok, err}
use proton_drive_linux_fs.Drive.Read.{Bytes}
use proton_drive_linux_fs.Drive.Read.Prefix.{chunk}
use proton_drive_linux_fs.Drive.File.{Remote, State, fetch_and_cache_block}
use proton_drive_linux_fs.Drive.File.Blocks.{Trusted, IsCoherent, fetch_and_cache_block-Right}
use proton_drive_linux_fs.Drive.File.Flight.{
  Phase, Caller, Flight, Reach, begun, later, turn, act, set_phase, with_flight, cached, answered,
  all_started, claim_block, fetch_result, unclaim_block, close_fetch,
}
use proton_drive_linux_fs.Drive.File.Flight.Claims.{some_inj}

-- A result that is no error is the content's block, in whatever phase a caller carries it.
pub RightResult : Bytes → ℕ → Result Bytes → Type 0
RightResult content idx (ok block) = block ≡ chunk content idx
RightResult content idx (err e) = Unit {0}

pub RightPhase : Bytes → ℕ → Phase → Type 0
RightPhase content idx (Phase.fetched r) = RightResult content idx r
RightPhase content idx (Phase.unclaimed r) = RightResult content idx r
RightPhase content idx (Phase.returned r) = RightResult content idx r
RightPhase content idx _ = Unit {0}

answered-Right :
    (content : Bytes) (idx : ℕ) (ctx : Option Err) (o : Option (Option Err)) (p : Phase)
    → answered ctx o ≡ some p
    → RightPhase content idx p
unfolding answered RightPhase RightResult
answered-Right content idx (some e) o p h = subst (RightPhase content idx) (some_inj h) tt
answered-Right content idx none none p h = absurd (cc)
answered-Right content idx none (some (some e)) p h = subst (RightPhase content idx) (some_inj h) tt
answered-Right content idx none (some none) p h = subst (RightPhase content idx) (some_inj h) tt

cached-Right :
    (content : Bytes) (idx : ℕ) (o : Option Bytes) (p : Phase)
    → ((block : Bytes) → o ≡ some block → block ≡ chunk content idx)
    → RightPhase content idx p
    → RightPhase content idx (cached o p)
unfolding cached RightPhase RightResult
cached-Right content idx (some block) p right h = right block refl
cached-Right content idx none p right h = h

module _ {W : Type 0} (remote : Remote W) (content : Bytes) (trusted : Trusted remote content) where
  -- Step results of caller `i` after `fl`: the File stays right, and so does what the caller has.
  StaysRight : ℕ → Flight W → Phase × Flight W → Type 0
  StaysRight idx fl (p, next) =
      IsCoherent remote content trusted next.state
      × RightPhase content idx p
      × (next.callers ≡ fl.callers)

  claimed-StaysRight :
      (i idx : ℕ) (fl : Flight W)
      → IsCoherent remote content trusted fl.state
      → StaysRight idx fl (claim_block i idx fl)
  unfolding StaysRight claim_block RightPhase
  claimed-StaysRight i idx fl v = elim (Option-cases (lookup idx fl.inflight)) [
    | inl absent ↦ rw (absent, claim_block) (v, tt, refl)
    | inr (w, found) ↦ rw (found, claim_block) (v, tt, refl)
  ]

  fetched-StaysRight :
      (idx : ℕ) (fl : Flight W)
      → IsCoherent remote content trusted fl.state
      → StaysRight idx fl (fetch_result (fetch_and_cache_block remote fl.state idx) fl)
  unfolding StaysRight fetch_result RightPhase RightResult
  fetched-StaysRight idx fl v =
      let kept = fetch_and_cache_block-Right remote content trusted fl.state idx v in
      (kept.0, result _ kept.1, refl)
    where
      result :
          (r : Result Bytes)
          → ((b : Bytes) → r ≡ ok b → b ≡ chunk content idx)
          → RightResult content idx r
      result (ok b) h = h b refl
      result (err e) h = tt

  waited-StaysRight :
      (idx : ℕ) (o : Option Phase) (fl : Flight W) (x : Phase × Flight W)
      → IsCoherent remote content trusted fl.state
      → ((p : Phase) → o ≡ some p → RightPhase content idx p)
      → with_flight o fl ≡ some x
      → StaysRight idx fl x
  unfolding with_flight StaysRight
  waited-StaysRight idx none fl x v right h = absurd (cc)
  waited-StaysRight idx (some p) fl x v right h =
      subst (StaysRight idx fl) (some_inj h) (v, right p refl, refl)

  act-StaysRight :
      (i : ℕ) (ctx : Option Err) (idx : ℕ) (p : Phase) (fl : Flight W) (x : Phase × Flight W)
      → IsCoherent remote content trusted fl.state
      → RightPhase content idx p
      → act remote i ctx idx p fl ≡ some x
      → StaysRight idx fl x
  unfolding act StaysRight RightPhase RightResult unclaim_block close_fetch
  act-StaysRight i ctx idx Phase.started fl x v right h =
      subst (StaysRight idx fl) (some_inj h)
        (v, cached-Right content idx (lookup idx fl.state.file.cache) _ (v.cached idx) tt, refl)
  act-StaysRight i ctx idx Phase.missed fl x v right h =
      subst (StaysRight idx fl) (some_inj h) (claimed-StaysRight i idx fl v)
  act-StaysRight i ctx idx Phase.fetching fl x v right h =
      subst (StaysRight idx fl) (some_inj h) (fetched-StaysRight idx fl v)
  act-StaysRight i ctx idx (Phase.fetched r) fl x v right h =
      subst (StaysRight idx fl) (some_inj h) (v, right, refl)
  act-StaysRight i ctx idx (Phase.unclaimed r) fl x v right h =
      subst (StaysRight idx fl) (some_inj h) (v, right, refl)
  act-StaysRight i ctx idx (Phase.waiting w) fl x v right h =
      waited-StaysRight idx _ fl x v (answered-Right content idx ctx (fl.fetches w)) h
  act-StaysRight i ctx idx Phase.woken fl x v right h =
      subst (StaysRight idx fl) (some_inj h)
        (v, cached-Right content idx (lookup idx fl.state.file.cache) _ (v.cached idx) tt, refl)
  act-StaysRight i ctx idx (Phase.returned r) fl x v right h = absurd (cc)

  pub record IsHonest (which : ℕ → ℕ) (fl : Flight W) : Type 0 where
    pub coherent : IsCoherent remote content trusted fl.state
    pub asked : (i : ℕ) → (fl.callers i).idx ≡ which i
    pub right : (i : ℕ) → RightPhase content (which i) (fl.callers i).phase

  set_phase-IsHonest :
      (which : ℕ → ℕ) (i : ℕ) (o : Option (Phase × Flight W)) (fl next : Flight W)
      → ((x : Phase × Flight W) → o ≡ some x → StaysRight (which i) fl x)
      → IsHonest which fl
      → set_phase i (which i) o ≡ some next
      → IsHonest which next
  unfolding set_phase StaysRight set_at
  set_phase-IsHonest which i none fl next stays v h = absurd (cc)
  set_phase-IsHonest which i (some (p, u)) fl next stays v h =
      let (coherent, right, same) = stays (p, u) refl in
      subst (IsHonest which) (some_inj h) (record {
        coherent = coherent;
        asked = λ j.
            subst
              (λ f. (set_at {A = Caller} i (record { idx = which i; phase = p }) f j).idx ≡ which j)
              (sym same) (ask p j);
        right = λ j.
            subst
              (λ f.
                RightPhase content (which j)
                  (set_at {A = Caller} i (record { idx = which i; phase = p }) f j).phase)
              (sym same) (kept p j right);
      })
    where
      ask :
          (p : Phase) (j : ℕ)
          → (set_at {A = Caller} i (record { idx = which i; phase = p }) fl.callers j).idx ≡ which j
      ask p j = elim (same_index i j) [
        | inl (same, at) ↦ rw same (ap which at)
        | inr (other, away) ↦ rw other (v.asked j)
      ]

      kept :
          (p : Phase) (j : ℕ)
          → RightPhase content (which i) p
          → RightPhase content
              (which j)
              (set_at i (record { idx = which i; phase = p }) fl.callers j).phase
      kept p j right = elim (same_index i j) [
        | inl (same, at) ↦ rw same (subst (λ k. RightPhase content (which k) p) at right)
        | inr (other, away) ↦ rw other (v.right j)
      ]

  turn-IsHonest :
      (which : ℕ → ℕ) (i : ℕ) (ctx : Option Err) (fl next : Flight W)
      → IsHonest which fl
      → turn remote i ctx fl ≡ some next
      → IsHonest which next
  unfolding turn
  turn-IsHonest which i ctx fl next v h =
      set_phase-IsHonest which i _ fl next
        (λ x. act-StaysRight i ctx (which i) (fl.callers i).phase fl x v.coherent (v.right i)) v
        (rw (← v.asked i) h)

  Reach-IsHonest :
      {which : ℕ → ℕ} {n : ℕ} {first : Flight W} {k : ℕ} {fl : Flight W}
      → IsHonest which first
      → Reach remote n first k fl
      → IsHonest which fl
  Reach-IsHonest v begun = v
  Reach-IsHonest {which} v (later i ctx below r h) =
      turn-IsHonest which i ctx _ _ (Reach-IsHonest v r) h

  -- Where the File's caches and block list are those of a content, over a remote that serves the
  -- content's blocks, and however the steps of calls of getBlock on it interleave: a block that one
  -- of them returns, as the winner, after a wait or from the cache, is the content's block of the
  -- index it asked for.
  pub flight_honest :
      {n k : ℕ} {fl : Flight W} (s : State W) (which : ℕ → ℕ) (i : ℕ) (block : Bytes)
      → IsCoherent remote content trusted s
      → Reach remote n (all_started s which) k fl
      → (fl.callers i).phase ≡ Phase.returned (ok block)
      → block ≡ chunk content (which i)
  unfolding RightPhase RightResult
  flight_honest s which i block v r h =
      let first : IsHonest which (all_started s which) = record {
        coherent = v;
        asked = λ j. refl;
        right = λ j. tt;
      } in
      subst (RightPhase content (which i)) h ((Reach-IsHonest first r).right i)
