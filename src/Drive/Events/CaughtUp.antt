-- ===== src/Drive/Events/CaughtUp.antt =====
-- internal/drive/events.go: a tick whose calls are all answered tells all that is left.
use proton_drive_linux_fs.Base.{
  ℕ, ◌+◌, ◌-◌, ◌≤◌, ◌<◌, ◌≡◌, refl, ◌∙◌, ap, sym, String, Bool, true, false, List, [], ◌∷◌, ◌++◌,
  subst, ◌≢◌, ◌⊎◌, inl, inr, if-cases, str_eq, eq_iff, arith, length, drop, All, length-take,
  length-drop, take_of_length-le,
}
use proton_drive_linux_fs.Drive.Errors.{Result, ok}
use proton_drive_linux_fs.Drive.Events.{
  Event, Page, Delivery, Session, deliveries, poll_pages, tick, is_empty,
}
use proton_drive_linux_fs.Drive.Events.Followed.{
  told, segment, IsPage, IsHonest, poll_pages-Follows,
}

module _ (history : List Delivery) (at : String → ℕ) where
  -- A page with no events is of an id at the end of the history.
  abbrev pub IsComplete : (String → Result Page) → Type 0
  IsComplete call =
      (from : String)
      → (p : Page) × (call from ≡ ok p)
        × IsPage history at from p
        × ((p.events ≢ []) ⊎ (at p.event_id ≡ length history))

  told-pos : (p : Page) → p.events ≢ [] → 0 < length (told p.events p.refresh)
  told-pos p some_events = go p.events some_events
    where
      go : (es : List Event) → es ≢ [] → 0 < length (told es p.refresh)
      go [] h = absurd (h refl)
      go (e ∷ es) h = omega arith

  -- A page with events moves on.
  page-moves :
      (from : String) (p : Page)
      → IsPage history at from p
      → p.events ≢ []
      → at from < at p.event_id
  page-moves from p h some_events = omega (
    arith,
    told-pos p some_events,
    ap length h.tells,
    length-take (at p.event_id - at from) (drop (at from) history),
  )

  module _ (within : (id : String) → at id ≤ length history) where
    poll_pages-CaughtUp :
        (notify : Bool) (calls : List (String → Result Page)) (s : Session)
        → All IsComplete calls
        → length history < at s.last + length calls
        → at (poll_pages notify calls s).last ≡ length history
    unfolding poll_pages
    poll_pages-CaughtUp notify [] s answers enough =
        let most = within s.last in absurd (omega (arith, most, enough))
    poll_pages-CaughtUp notify (call ∷ calls) s (answers, rest) enough =
        let (p, got, page, all) = answers s.last in
        let t = record s { last = p.event_id; delivered = s.delivered ++ deliveries p } in
        let P : Session → Type 0 = λ u. at u.last ≡ length history in
        rw (got, poll_pages)
          (if-cases P (is_empty p.events) (λ empty. last_page p all empty)
            (λ more.
              let moves = page-moves s.last p page (nonempty p.events more) in
              poll_pages-CaughtUp notify calls t rest (omega (arith, moves, enough))))
      where
        nonempty : (es : List Event) → is_empty es ≡ false → es ≢ []
        nonempty [] h = absurd (cc)
        nonempty (e ∷ es) h = λ n. cc

        last_page :
            (p : Page)
            → (p.events ≢ []) ⊎ (at p.event_id ≡ length history)
            → is_empty p.events ≡ true
            → at p.event_id ≡ length history
        last_page p (inr e) h = e
        last_page p (inl n) h = absurd (n (empty p.events h))
          where
            empty : (es : List Event) → is_empty es ≡ true → es ≡ []
            empty [] h = refl
            empty (e ∷ es) h = absurd (cc)

    IsComplete-IsHonest : (call : String → Result Page) → IsComplete call → IsHonest history at call
    IsComplete-IsHonest call answers from p got =
        let (q, same, page, all) = answers from in
        subst (λ x. IsPage history at from x) (ok_inj (sym same ∙ got)) page
      where
        ok_inj : {a b : Page} → ok a ≡ ok b → a ≡ b
        ok_inj e = cc

    all-IsHonest :
        (calls : List (String → Result Page))
        → All IsComplete calls
        → All (IsHonest history at) calls
    all-IsHonest [] h = tt
    all-IsHonest (call ∷ calls) (h, hs) = (IsComplete-IsHonest call h, all-IsHonest calls hs)

    segment_rest : (i : ℕ) → segment i (length history) history ≡ drop i history
    segment_rest i =
        take_of_length-le (length history - i) (drop i history)
          (omega (arith, length-drop i history))

    tick_polls :
        (notify : Bool) (latest : Result String) (calls : List (String → Result Page)) (s : Session)
        → s.stopped ≡ false
        → s.last ≢ ""
        → tick notify false latest calls s ≡ poll_pages notify calls s
    unfolding tick
    tick_polls notify latest calls s going named =
        let P : Session → Type 0 = λ u. u ≡ poll_pages notify calls s in
        if-cases P s.stopped (λ stopped. absurd (cc))
          (λ on.
            if-cases P (str_eq s.last "") (λ unnamed. absurd (named ((eq_iff s.last "").0 unnamed)))
              (λ from. refl))

    -- Where the ids have places in a history, none past its end, a tick that is not paused, of a
    -- session that has an id and was not stopped, whose calls are all answered and are more than
    -- what is left of the history, each with a page that has an id that is not empty, at the same
    -- or a later place, tells what the history has between the two, and has no events only if its
    -- id is at the end: the tick tells exactly what is left, and comes to the end.
    pub tick-CaughtUp :
        (notify : Bool) (latest : Result String) (calls : List (String → Result Page)) (s : Session)
        → s.stopped ≡ false
        → s.last ≢ ""
        → All IsComplete calls
        → length history < at s.last + length calls
        → ((tick notify false latest calls s).delivered ≡ s.delivered ++ drop (at s.last) history)
          × (at (tick notify false latest calls s).last ≡ length history)
    tick-CaughtUp notify latest calls s going named answers enough =
        let end = poll_pages-CaughtUp notify calls s answers enough in
        let f = poll_pages-Follows history at notify calls s (all-IsHonest calls answers) named in
        subst
          (λ u.
            (u.delivered ≡ s.delivered ++ drop (at s.last) history) × (at u.last ≡ length history))
          (sym (tick_polls notify latest calls s going named))
          (
            f.delivered
                ∙ ap (λ n. s.delivered ++ segment (at s.last) n history) end
                ∙ ap (λ x. s.delivered ++ x) (segment_rest (at s.last)),
            end,
          )
