-- ===== src/Drive/File/Flight/Single.antt =====
-- internal/drive/file.go: at most one caller fetches a block, and nobody waits for a fetch that no
-- one will end.
use proton_drive_linux_fs.Base.{
  set_at, ℕ, ◌≡◌, refl, ap, sym, Option, some, [], lookup, nat_key, ◌∙◌, subst,
}
use proton_drive_linux_fs.Drive.Errors.{Err}
use proton_drive_linux_fs.Drive.File.{Remote, State}
use proton_drive_linux_fs.Drive.File.Flight.{
  Phase, Flight, Reach, begun, later, turn, act, set_phase, unclaim_block, close_fetch,
  fetch_result, error_of, all_started,
}
use proton_drive_linux_fs.Drive.File.Flight.Claims.{
  holds, will_close, IsClaimed, returned-Free, missed-Free, cached-Free, answered-Free, some_inj,
  idle_move-IsClaimed, joined-IsClaimed, gave_claim-IsClaimed, closed-IsClaimed, moved-IsClaimed,
  same_claims-IsClaimed, parts-claim_block, waited-IsClaimed,
}

module _ {W : Type 0} (remote : Remote W) where
  act-IsClaimed :
      (i : ℕ) (ctx : Option Err) (p : Phase) (fl next : Flight W)
      → (fl.callers i).phase ≡ p
      → IsClaimed fl
      → set_phase i (fl.callers i).idx (act remote i ctx (fl.callers i).idx p fl) ≡ some next
      → IsClaimed next
  unfolding act set_phase fetch_result unclaim_block close_fetch holds will_close
  act-IsClaimed i ctx Phase.started fl next e v h =
      subst IsClaimed (some_inj h)
        (idle_move-IsClaimed i _ fl (cached-Free _ _ missed-Free) (ap holds e) (ap will_close e) v)
  act-IsClaimed i ctx Phase.missed fl next e v h =
      let parts = parts-claim_block i (fl.callers i).idx fl in
      subst IsClaimed (some_inj h) (
        same_claims-IsClaimed _ _ refl (sym parts.0)
          (ap (set_at i (record { idx = (fl.callers i).idx; phase = _ })) (sym parts.1))
          (joined-IsClaimed i fl e v))
  act-IsClaimed i ctx Phase.fetching fl next e v h = subst IsClaimed (some_inj h) (
      same_claims-IsClaimed _ _ refl refl refl (
        moved-IsClaimed i (Phase.fetched _) fl (sym (ap holds e)) (sym (ap will_close e))
          (λ w same. absurd (cc)) v))
  act-IsClaimed i ctx (Phase.fetched r) fl next e v h =
      subst IsClaimed (some_inj h) (gave_claim-IsClaimed i r fl e v)
  act-IsClaimed i ctx (Phase.unclaimed r) fl next e v h =
      subst IsClaimed (some_inj h) (closed-IsClaimed i r (error_of r) fl e v)
  act-IsClaimed i ctx (Phase.waiting w) fl next e v h =
      waited-IsClaimed i _ fl next (answered-Free ctx (fl.fetches w)) (ap holds e) (ap will_close e)
        h v
  act-IsClaimed i ctx Phase.woken fl next e v h = subst IsClaimed (some_inj h) (
      idle_move-IsClaimed i _ fl (cached-Free _ _ (returned-Free _)) (ap holds e) (ap will_close e)
        v)
  act-IsClaimed i ctx (Phase.returned r) fl next e v h = absurd (cc)

  turn-IsClaimed :
      (i : ℕ) (ctx : Option Err) (fl next : Flight W)
      → IsClaimed fl
      → turn remote i ctx fl ≡ some next
      → IsClaimed next
  unfolding turn
  turn-IsClaimed i ctx fl next v h = act-IsClaimed i ctx (fl.callers i).phase fl next refl v h

  pub all_started-IsClaimed : (s : State W) (which : ℕ → ℕ) → IsClaimed (all_started s which)
  unfolding holds lookup
  all_started-IsClaimed s which = record {
    held = λ i h. absurd (cc);
    holder = λ b i h. absurd (nothing b i h);
    awaited = λ i w h. absurd (cc);
  }
    where
      nothing : (b i : ℕ) → lookup {V = ℕ} b [] ≡ some i → ⊥
      nothing b i h = cc

  pub Reach-IsClaimed :
      {n : ℕ} {first : Flight W} {k : ℕ} {fl : Flight W}
      → IsClaimed first
      → Reach remote n first k fl
      → IsClaimed fl
  Reach-IsClaimed v begun = v
  Reach-IsClaimed v (later i ctx below r h) = turn-IsClaimed i ctx _ _ (Reach-IsClaimed v r) h

  -- However the steps of calls of getBlock on one File interleave, two of them that are fetching
  -- the same block at once are one and the same call.
  pub fetches_once :
      {n k : ℕ} {fl : Flight W} (s : State W) (which : ℕ → ℕ) (i j : ℕ)
      → Reach remote n (all_started s which) k fl
      → (fl.callers i).phase ≡ Phase.fetching
      → (fl.callers j).phase ≡ Phase.fetching
      → (fl.callers i).idx ≡ (fl.callers j).idx
      → i ≡ j
  unfolding holds
  fetches_once {fl} s which i j r at_i at_j same =
      let v = Reach-IsClaimed (all_started-IsClaimed s which) r in
      some_inj (
        sym (v.held i (ap holds at_i))
        ∙ ap (λ b. lookup b fl.inflight) same
        ∙ v.held j (ap holds at_j))
