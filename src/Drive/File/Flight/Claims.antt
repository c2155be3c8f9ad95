-- ===== src/Drive/File/Flight/Claims.antt =====
-- internal/drive/file.go: who has claimed a block, and who waits for whom.
use proton_drive_linux_fs.Base.{
  set_at, ℕ, ◌≡◌, ◌≢◌, refl, ap, sym, ◌∙◌, Bool, true, false, subst, Option, none, some, List,
  arith, lookup, insert, delete, lookup-insert, lookup-delete, nat_same_iff, nat_key, ◌⊎◌, inl, inr,
  Option-cases,
}
use proton_drive_linux_fs.Drive.Errors.{Err, Result, ok, err}
use proton_drive_linux_fs.Drive.Read.{Bytes}
use proton_drive_linux_fs.Drive.File.Flight.{
  Phase, Flight, set_phase, claim_block, with_flight, cached, answered,
}

-- Whether a caller holds the claim of its block, and whether it will still close its blockFetch.
unfoldable pub holds : Phase → Bool
holds Phase.fetching = true
holds (Phase.fetched _) = true
holds _ = false

unfoldable pub will_close : Phase → Bool
will_close (Phase.unclaimed _) = true
will_close p = holds p

unfoldable pub is_closed : Option (Option Err) → Bool
is_closed none = false
is_closed (some e) = true

pub some_inj : {A : Type 0} {a b : A} → some a ≡ some b → a ≡ b
some_inj h = cc

-- A phase in which a caller holds no claim, has no fetch to close, and waits for nobody.
abbrev pub Free : Phase → Type 0
Free p = (holds p ≡ false) × (will_close p ≡ false) × ((winner : ℕ) → p ≢ Phase.waiting winner)

pub returned-Free : (r : Result Bytes) → Free (Phase.returned r)
unfolding holds will_close
returned-Free r = (refl, refl, λ w e. cc)

pub missed-Free : Free Phase.missed
unfolding holds will_close
missed-Free = (refl, refl, λ w e. cc)

pub cached-Free : (o : Option Bytes) (p : Phase) → Free p → Free (cached o p)
unfolding cached
cached-Free (some block) p free = returned-Free (ok block)
cached-Free none p free = free

pub answered-Free :
    (ctx : Option Err) (o : Option (Option Err)) (p : Phase) → answered ctx o ≡ some p → Free p
unfolding answered holds will_close
answered-Free (some e) o p h = subst Free (some_inj h) (returned-Free (err e))
answered-Free none none p h = absurd (cc)
answered-Free none (some (some e)) p h = subst Free (some_inj h) (returned-Free (err e))
answered-Free none (some none) p h = subst Free (some_inj h) (refl, refl, λ w e. cc)

module _ {W : Type 0} where
  -- The claims are those of the callers who hold one, each of one block, and whoever waits does so
  -- for a blockFetch that is closed or will be.
  pub record IsClaimed (fl : Flight W) : Type 0 where
    pub held :
        (i : ℕ) → holds (fl.callers i).phase ≡ true → lookup (fl.callers i).idx fl.inflight ≡ some i
    pub holder :
        (b i : ℕ)
        → lookup b fl.inflight ≡ some i
        → (holds (fl.callers i).phase ≡ true) × ((fl.callers i).idx ≡ b)
    pub awaited :
        (i winner : ℕ)
        → (fl.callers i).phase ≡ Phase.waiting winner
        → (will_close (fl.callers winner).phase ≡ true) ⊎ (is_closed (fl.fetches winner) ≡ true)

  -- Caller `i` goes on to `p`, with the claims and the closed fetches as given.
  abbrev pub moved : ℕ → Phase → List (ℕ × ℕ) → (ℕ → Option (Option Err)) → Flight W → Flight W
  moved i p inflight fetches fl = record fl {
    inflight = inflight;
    fetches = fetches;
    callers = set_at i (record { idx = (fl.callers i).idx; phase = p }) fl.callers;
  }

  pub moved-IsClaimed :
      (i : ℕ) (p : Phase) (fl : Flight W)
      → holds p ≡ holds (fl.callers i).phase
      → will_close p ≡ will_close (fl.callers i).phase
      → ((w : ℕ)
          → p ≡ Phase.waiting w
          → (will_close (fl.callers w).phase ≡ true) ⊎ (is_closed (fl.fetches w) ≡ true))
      → IsClaimed fl
      → IsClaimed (moved i p fl.inflight fl.fetches fl)
  unfolding set_at holds will_close is_closed
  moved-IsClaimed i p fl same closing waits v = record {
    held = λ j h. ground (arith, v.held i, v.held j);
    holder = λ b j h. ground (arith, v.holder b j);
    awaited = λ j w h. ground (arith, v.awaited j w, waits w);
  }

  took_claim-IsClaimed :
      (i : ℕ) (fl : Flight W)
      → holds (fl.callers i).phase ≡ false
      → will_close (fl.callers i).phase ≡ false
      → lookup (fl.callers i).idx fl.inflight ≡ none
      → IsClaimed fl
      → IsClaimed (moved i Phase.fetching (insert (fl.callers i).idx i fl.inflight) fl.fetches fl)
  unfolding set_at holds will_close is_closed
  took_claim-IsClaimed i fl free closing absent v = record {
    held = λ j h. ground (
      arith,
      v.held j,
      nat_same_iff i j,
      lookup-insert (fl.callers i).idx (fl.callers j).idx i fl.inflight,
      lookup-insert (fl.callers i).idx (fl.callers i).idx i fl.inflight,
      nat_same_iff (fl.callers i).idx (fl.callers j).idx,
      nat_same_iff (fl.callers i).idx (fl.callers i).idx,
    );
    holder = λ b j h. ground (
      arith,
      v.holder b j,
      nat_same_iff i j,
      lookup-insert (fl.callers i).idx b i fl.inflight,
      nat_same_iff (fl.callers i).idx b,
    );
    awaited = λ j w h. ground (arith, v.awaited j w);
  }

  pub gave_claim-IsClaimed :
      (i : ℕ) (r : Result (List ℕ)) (fl : Flight W)
      → (fl.callers i).phase ≡ Phase.fetched r
      → IsClaimed fl
      → IsClaimed
          (moved i (Phase.unclaimed r) (delete (fl.callers i).idx fl.inflight) fl.fetches fl)
  unfolding set_at holds will_close is_closed
  gave_claim-IsClaimed i r fl e v = record {
    held = λ j h. ground (
      arith,
      v.held i,
      v.held j,
      e,
      nat_same_iff i j,
      ap holds e,
      lookup-delete (fl.callers i).idx (fl.callers j).idx fl.inflight,
      nat_same_iff (fl.callers i).idx (fl.callers j).idx,
    );
    holder = λ b j h. ground (
      arith,
      v.held i,
      v.holder b j,
      e,
      nat_same_iff i j,
      ap holds e,
      lookup-delete (fl.callers i).idx b fl.inflight,
      nat_same_iff (fl.callers i).idx b,
    );
    awaited = λ j w h. ground (arith, e, v.awaited j w);
  }

  pub closed-IsClaimed :
      (i : ℕ) (r : Result (List ℕ)) (o : Option Err) (fl : Flight W)
      → (fl.callers i).phase ≡ Phase.unclaimed r
      → IsClaimed fl
      → IsClaimed (moved i (Phase.returned r) fl.inflight (set_at i (some o) fl.fetches) fl)
  unfolding set_at holds will_close is_closed
  closed-IsClaimed i r o fl e v = record {
    held = λ j h. ground (arith, v.held j, e, ap holds e);
    holder = λ b j h. ground (arith, v.holder b j, e, ap holds e, nat_same_iff i j);
    awaited = λ j w h. ground (arith, e, v.awaited j w, nat_same_iff i w);
  }

  pub idle_move-IsClaimed :
      (i : ℕ) (p : Phase) (fl : Flight W)
      → Free p
      → holds (fl.callers i).phase ≡ false
      → will_close (fl.callers i).phase ≡ false
      → IsClaimed fl
      → IsClaimed (moved i p fl.inflight fl.fetches fl)
  idle_move-IsClaimed i p fl (free, closing, waits) h c v =
      moved-IsClaimed i p fl (free ∙ sym h) (closing ∙ sym c) (λ w e. absurd (waits w e)) v

  pub joined-IsClaimed :
      (i : ℕ) (fl : Flight W)
      → (fl.callers i).phase ≡ Phase.missed
      → IsClaimed fl
      → IsClaimed (
          moved i
            (claim_block i (fl.callers i).idx fl).0
            (claim_block i (fl.callers i).idx fl).1.inflight
            fl.fetches
            fl)
  unfolding claim_block holds will_close
  joined-IsClaimed i fl e v = elim (Option-cases (lookup (fl.callers i).idx fl.inflight)) [
    | inl absent ↦
        rw (absent, claim_block) (took_claim-IsClaimed i fl (ap holds e) (ap will_close e) absent v)
    | inr (winner, found) ↦
        let holding = (v.holder (fl.callers i).idx winner found).0 in
        rw (found, claim_block)
          (moved-IsClaimed i (Phase.waiting winner) fl (sym (ap holds e)) (sym (ap will_close e))
            (λ w same. inl (ground (arith, holding))) v)
  ]

  -- Neither the file nor the rest of the state matters.
  pub same_claims-IsClaimed :
      (a b : Flight W)
      → a.inflight ≡ b.inflight
      → a.fetches ≡ b.fetches
      → a.callers ≡ b.callers
      → IsClaimed a
      → IsClaimed b
  same_claims-IsClaimed a b m f c v =
      subst (λ x. IsClaimed (record b { callers = x })) c
        (subst (λ x. IsClaimed (record b { fetches = x; callers = a.callers })) f
          (subst
            (λ x. IsClaimed (record b { inflight = x; fetches = a.fetches; callers = a.callers })) m
            (record { held = v.held; holder = v.holder; awaited = v.awaited })))

  pub parts-claim_block :
      (i idx : ℕ) (fl : Flight W)
      → ((claim_block i idx fl).1.fetches ≡ fl.fetches)
        × ((claim_block i idx fl).1.callers ≡ fl.callers)
  unfolding claim_block
  parts-claim_block i idx fl = ground arith

  pub waited-IsClaimed :
      (i : ℕ) (o : Option Phase) (fl next : Flight W)
      → ((p : Phase) → o ≡ some p → Free p)
      → holds (fl.callers i).phase ≡ false
      → will_close (fl.callers i).phase ≡ false
      → set_phase i (fl.callers i).idx (with_flight o fl) ≡ some next
      → IsClaimed fl
      → IsClaimed next
  unfolding with_flight set_phase
  waited-IsClaimed i none fl next free h c e v = absurd (cc)
  waited-IsClaimed i (some p) fl next free h c e v =
      subst IsClaimed (some_inj e) (idle_move-IsClaimed i p fl (free p refl) h c v)
