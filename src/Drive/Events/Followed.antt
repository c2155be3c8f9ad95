-- ===== src/Drive/Events/Followed.antt =====
-- internal/drive/events.go: what a polling session has told of the history of the volume.
use proton_drive_linux_fs.Base.{
  ℕ, zero, suc, ◌+◌, ◌-◌, ◌≤◌, ◌≡◌, refl, ◌∙◌, ap, sym, String, Bool, true, false, List, [], ◌∷◌,
  ◌++◌, append_assoc, append-nil, subst, ◌≢◌, ◌⊎◌, inl, inr, drop_of_length-le, if-cases, str_eq,
  eq_iff, arith, take, drop, All, take_of_length-le, if◌then◌else◌,
}
use proton_drive_linux_fs.Drive.Errors.{Err, Result, ok, err, is_unrecoverable_auth}
use proton_drive_linux_fs.Drive.Events.{
  Event, Page, Delivery, change, refreshed, changes, Session, Tick, deliveries, unrecoverable_auth,
  poll_pages, tick, run_ticks, is_empty,
}

-- What a page tells: its events in their order, then a refresh if it asks for one.
abbrev pub told : List Event → Bool → List Delivery
told [] true = refreshed ∷ []
told [] false = []
told (e ∷ es) refresh = change e ∷ told es refresh

-- The part of a list from one place up to another.
abbrev pub segment : ℕ → ℕ → List Delivery → List Delivery
segment i j history = take (j - i) (drop i history)

deliveries-told : (p : Page) → deliveries p ≡ told p.events p.refresh
deliveries-told p = go p.events p.refresh
  where
    go :
        (es : List Event) (refresh : Bool)
        → changes es ++ (if refresh then refreshed ∷ [] else []) ≡ told es refresh
    go [] true = refl
    go [] false = refl
    go (e ∷ es) refresh = ap (◌∷◌ (change e)) (go es refresh)

suc_add : (m n : ℕ) → suc m + n ≡ suc (m + n)
suc_add m n = omega arith

Result-cases : {A : Type 0} (r : Result A) → ((e : Err) × (r ≡ err e)) ⊎ ((a : A) × (r ≡ ok a))
Result-cases (ok a) = inr (a, refl)
Result-cases (err e) = inl (e, refl)

take_nil : (n : ℕ) → ◌≡◌ {A = List Delivery} (take n []) []
take_nil n = take_of_length-le n [] (omega arith)

drop_nil : (n : ℕ) → ◌≡◌ {A = List Delivery} (drop n []) []
drop_nil n = drop_of_length-le n [] (omega arith)

take-take : (m n : ℕ) (h : List Delivery) → take m h ++ take n (drop m h) ≡ take (m + n) h
unfolding take drop
take-take zero n h = ap (λ k. take k h) (omega arith)
take-take (suc m) n [] = take_nil n ∙ sym (take_nil (suc m + n))
take-take (suc m) n (x ∷ h) =
    ap (◌∷◌ x) (take-take m n h) ∙ ap (λ k. take k (x ∷ h)) (sym (suc_add m n))

drop-drop : (m n : ℕ) (h : List Delivery) → drop n (drop m h) ≡ drop (m + n) h
unfolding drop
drop-drop zero n h = ap (λ k. drop k h) (omega arith)
drop-drop (suc m) n [] = drop_nil n ∙ sym (drop_nil (suc m + n))
drop-drop (suc m) n (x ∷ h) = drop-drop m n h ∙ ap (λ k. drop k (x ∷ h)) (sym (suc_add m n))

segment_self : (i : ℕ) (h : List Delivery) → segment i i h ≡ []
unfolding take
segment_self i h = ap (λ n. take n (drop i h)) nothing
  where
    nothing : i - i ≡ 0
    nothing = omega arith

segment-append :
    (i j k : ℕ) (h : List Delivery) → i ≤ j → j ≤ k → segment i j h ++ segment j k h ≡ segment i k h
segment-append i j k h le more =
    ap (λ n. segment i j h ++ take (k - j) (drop n h)) (sym there)
    ∙ ap (λ d. segment i j h ++ take (k - j) d) (sym (drop-drop i (j - i) h))
    ∙ take-take (j - i) (k - j) (drop i h)
    ∙ ap (λ n. take n (drop i h)) whole
  where
    there : i + (j - i) ≡ j
    there = omega (arith, le)

    whole : j - i + (k - j) ≡ k - i
    whole = omega (arith, le, more)

module _ (history : List Delivery) (at : String → ℕ) where
  -- A page answered to an id has an id that is not empty and not earlier in the history, and tells
  -- what the history has between the two.
  pub record IsPage (from : String) (p : Page) : Type 0 where
    pub named : p.event_id ≢ ""
    pub forward : at from ≤ at p.event_id
    pub tells : told p.events p.refresh ≡ segment (at from) (at p.event_id) history

  abbrev pub IsHonest : (String → Result Page) → Type 0
  IsHonest call = (from : String) (p : Page) → call from ≡ ok p → IsPage from p

  -- From s to t exactly what lies between their ids was told.
  pub record Follows (s t : Session) : Type 0 where
    pub named : t.last ≢ ""
    pub forward : at s.last ≤ at t.last
    pub delivered : t.delivered ≡ s.delivered ++ segment (at s.last) (at t.last) history

  Follows-refl :
      (s t : Session) → s.last ≢ "" → t.last ≡ s.last → t.delivered ≡ s.delivered → Follows s t
  Follows-refl s t named l d = record {
    named = subst (λ id. id ≢ "") (sym l) named;
    forward = subst (λ id. at s.last ≤ at id) (sym l) (omega arith);
    delivered =
        d
        ∙ sym (append-nil s.delivered)
        ∙ ap (λ x. s.delivered ++ x) (sym (segment_self (at s.last) history))
        ∙ ap (λ id. s.delivered ++ segment (at s.last) (at id) history) (sym l);
  }

  Follows-trans : (s t u : Session) → Follows s t → Follows t u → Follows s u
  Follows-trans s t u f g = record {
    named = g.named;
    forward = omega (arith, f.forward, g.forward);
    delivered =
        g.delivered
        ∙ ap (λ x. x ++ segment (at t.last) (at u.last) history) f.delivered
        ∙ append_assoc s.delivered _ _
        ∙ ap (λ x. s.delivered ++ x)
            (segment-append (at s.last) (at t.last) (at u.last) history f.forward g.forward);
  }

  Follows-page :
      (s : Session) (p : Page)
      → IsPage s.last p
      → Follows s (record s { last = p.event_id; delivered = s.delivered ++ deliveries p })
  Follows-page s p h = record {
    named = h.named;
    forward = h.forward;
    delivered = ap (λ x. s.delivered ++ x) (deliveries-told p ∙ h.tells);
  }

  unrecoverable_auth-Follows :
      (notify : Bool) (e : Err) (s : Session)
      → s.last ≢ ""
      → Follows s (unrecoverable_auth notify e s)
  unfolding unrecoverable_auth
  unrecoverable_auth-Follows true e s named =
      if-cases (Follows s) (is_unrecoverable_auth e) (λ stop. Follows-refl s _ named refl refl)
        (λ on. Follows-refl s s named refl refl)
  unrecoverable_auth-Follows false e s named = Follows-refl s s named refl refl

  pub poll_pages-Follows :
      (notify : Bool) (calls : List (String → Result Page)) (s : Session)
      → All IsHonest calls
      → s.last ≢ ""
      → Follows s (poll_pages notify calls s)
  unfolding poll_pages
  poll_pages-Follows notify [] s honest named = Follows-refl s s named refl refl
  poll_pages-Follows notify (call ∷ calls) s (honest, rest) named =
      elim (Result-cases (call s.last)) [
        | inl (e, failed) ↦ rw (failed, poll_pages) (unrecoverable_auth-Follows notify e s named)
        | inr (p, got) ↦
            let t = record s { last = p.event_id; delivered = s.delivered ++ deliveries p } in
            let page = Follows-page s p (honest s.last p got) in
            rw (got, poll_pages)
              (if-cases (Follows s) (is_empty p.events) (λ caught_up. page)
                (λ more.
                  Follows-trans s t _ page (poll_pages-Follows notify calls t rest page.named)))
      ]

  tick-Follows :
      (notify paused : Bool) (latest : Result String) (calls : List (String → Result Page))
      (s : Session)
      → All IsHonest calls
      → s.last ≢ ""
      → Follows s (tick notify paused latest calls s)
  unfolding tick
  tick-Follows notify paused latest calls s honest named =
      if-cases (Follows s) s.stopped (λ stopped. Follows-refl s s named refl refl)
        (λ going.
          if-cases (Follows s) paused (λ waits. Follows-refl s s named refl refl)
            (λ on.
              if-cases (Follows s) (str_eq s.last "")
                (λ unnamed. absurd (named ((eq_iff s.last "").0 unnamed)))
                (λ from. poll_pages-Follows notify calls s honest named)))

  -- Where the ids have places in a history, and a page that answers an id, at whatever time, has an
  -- id that is not empty, at the same or a later place, and tells what the history has between the
  -- two: then from a session with an id, any ticks, paused or not, whether or not onAuthFailed is
  -- set, and with any failures of their calls, tell exactly what the history has between the
  -- session's id and its id afterwards, which is not earlier, in order, so that nothing is lost or
  -- told twice.
  pub run_ticks-Follows :
      (notify : Bool) (ticks : List Tick) (s : Session)
      → All (λ t. All IsHonest t.calls) ticks
      → s.last ≢ ""
      → Follows s (run_ticks notify ticks s)
  unfolding run_ticks
  run_ticks-Follows notify [] s honest h = Follows-refl s s h refl refl
  run_ticks-Follows notify (t ∷ ts) s (honest, rest) h =
      let next = tick notify t.paused t.latest t.calls s in
      let first = tick-Follows notify t.paused t.latest t.calls s honest h in
      Follows-trans s next _ first (run_ticks-Follows notify ts next rest first.named)
