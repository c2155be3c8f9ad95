-- ===== src/Drive/Http/Retries.antt =====
-- internal/drive/http.go: how often a GET is tried, how long it waits, and when the shared window of
-- the rate limit opens.
use proton_drive_linux_fs.Base.{
  ℕ, zero, suc, ◌+◌, ◌-◌, ◌*◌, ◌^◌, ◌≤◌, ◌<◌, ◌≡◌, refl, Bool, true, false, not, ◌&&◌, Option, none,
  some, List, [], ◌∷◌, arith, ◌==◌, if◌then◌else◌, if-cases, length,
}
use proton_drive_linux_fs.Drive.Errors.{Err}
use proton_drive_linux_fs.Drive.Http.{
  Round, Event, acquired, released, requested, waited, Log, Next, finished, again, Outcome,
  after_wait, answered, after_slot, round, requests, api_error_of, failed, is_some, wait_for,
  get_raw_from, get_raw_retrying, get_raw_attempts, max_rate_limit_wait, max_rate_limit_backoff,
  note_rate_limit_status, rate_limited_for, limits_rate,
}

abbrev pub requests_in : List Event → ℕ
requests_in [] = 0
requests_in (requested ∷ es) = suc (requests_in es)
requests_in (e ∷ es) = requests_in es

-- Slots taken and not given back, and no wait or end of a round while one is held.
abbrev pub Balanced : List Event → Type 0
Balanced [] = Unit {0}
Balanced (released ∷ requested ∷ acquired ∷ es) = Balanced es
Balanced (requested ∷ es) = Balanced es
Balanced (waited n ∷ es) = (n ≤ max_rate_limit_wait) × Balanced es
Balanced _ = ⊥

-- After a 429 or a 503 is noted, with any Retry-After and any hint, RateLimited at that time
-- reports at most five minutes left.
pub note_rate_limit_window :
    (status : ℕ) (is_api : Bool) (hint : Option ℕ) (retry_after now : ℕ) (log : Log)
    → limits_rate status ≡ true
    → (rate_limited_for now (note_rate_limit_status status is_api hint retry_after now log)).0
      ≤ max_rate_limit_backoff
unfolding note_rate_limit_status rate_limited_for
note_rate_limit_window status is_api hint retry_after now log h = ground arith

-- What a round leaves of the log, with the most requests it may hold.
abbrev Rounded : ℕ → ℕ → Next → Type 0
Rounded attempt n (finished res status done) = Balanced done.events × (requests_in done.events ≤ n)
Rounded attempt n (again more) =
    Balanced more.events × (requests_in more.events ≤ n) × (attempt < get_raw_attempts)

note-events :
    (status : ℕ) (is_api : Bool) (hint : Option ℕ) (retry_after now : ℕ) (log : Log)
    → (note_rate_limit_status status is_api hint retry_after now log).events ≡ log.events
unfolding note_rate_limit_status
note-events status is_api hint retry_after now log = ground arith

transport_wait_lem :
    (attempt : ℕ) → 0 < attempt → attempt < 4 → 100 * 2 ^ (attempt - 1) ≤ max_rate_limit_wait
transport_wait_lem zero p h = absurd (omega arith)
transport_wait_lem (suc zero) p h = omega arith
transport_wait_lem (suc (suc zero)) p h = omega arith
transport_wait_lem (suc (suc (suc zero))) p h = omega arith
transport_wait_lem (suc (suc (suc (suc n)))) p h = absurd (omega arith)

wait_for_lem :
    (limited : Bool) (attempt retry_after jitter : ℕ)
    → 0 < attempt
    → attempt < get_raw_attempts
    → wait_for limited attempt retry_after jitter ≤ max_rate_limit_wait
wait_for_lem true attempt retry_after jitter p h = ground arith
wait_for_lem false attempt retry_after jitter p h = transport_wait_lem attempt p h

after_wait-Rounded :
    (r : Round) (limited is_api : Bool) (attempt n : ℕ) (e : Option Err) (log : Log)
    → 0 < attempt
    → attempt < get_raw_attempts
    → Balanced log.events
    → requests_in log.events ≤ n
    → Rounded attempt n (after_wait r limited is_api attempt e log)
unfolding after_wait
after_wait-Rounded r limited is_api attempt n none log p h b le =
    ((wait_for_lem limited attempt r.response.retry_after r.jitter p h, b), le, h)
after_wait-Rounded r limited is_api attempt n (some e) log p h b le =
    if-cases (λ (l : Log). Balanced l.events × (requests_in l.events ≤ n)) limited
      (λ noted.
        rw (note-events r.response.status is_api r.hint r.response.retry_after r.now log) (b, le))
      (λ unnoted. (b, le))

answered-Rounded :
    (r : Round) (attempt n : ℕ) (log : Log)
    → 0 < attempt
    → attempt ≤ get_raw_attempts
    → Balanced log.events
    → requests_in log.events ≤ n
    → Rounded attempt n (answered r attempt log)
unfolding answered
answered-Rounded r attempt n log p h b le =
    let res = r.response in
    let api = api_error_of res.body in
    let transport = failed res.body && not (is_some api) in
    if-cases (Rounded attempt n) (failed res.body && r.ctx_done) (λ done. (b, le))
      (λ undone.
        if-cases (Rounded attempt n) (not transport && not (limits_rate res.status))
          (λ settled. (b, le))
          (λ retried.
            if-cases (Rounded attempt n) (attempt == get_raw_attempts)
              (λ last.
                if-cases (Rounded attempt n) transport (λ at_end. (b, le))
                  (λ limited.
                    rw (note-events res.status (is_some api) r.hint res.retry_after r.now log)
                      (b, le)))
              (λ more. after_wait-Rounded r _ _ attempt n r.wait_ends log p (ground arith) b le)))

requests-Balanced :
    (slotted : Bool) (log : Log)
    → Balanced log.events
    → Balanced (requests slotted log).events
      × (requests_in (requests slotted log).events ≡ suc (requests_in log.events))
requests-Balanced true log b = (b, refl)
requests-Balanced false log b = (b, refl)

after_slot-Rounded :
    (slotted : Bool) (r : Round) (attempt : ℕ) (e : Option Err) (log : Log)
    → 0 < attempt
    → attempt ≤ get_raw_attempts
    → Balanced log.events
    → Rounded attempt (suc (requests_in log.events)) (after_slot slotted r attempt e log)
unfolding after_slot
after_slot-Rounded slotted r attempt none log p h b =
    let (balanced, one_more) = requests-Balanced slotted log b in
    answered-Rounded r attempt _ (requests slotted log) p h balanced (omega arith)
after_slot-Rounded slotted r attempt (some e) log p h b = (b, omega arith)

-- An outcome, within a number of requests.
abbrev pub Bounded : ℕ → Option Outcome → Type 0
Bounded n none = ⊥
Bounded n (some o) = Balanced o.log.events × (requests_in o.log.events ≤ n)

get_raw_from-Bounded :
    (slotted : Bool) (attempt : ℕ) (rs : List Round) (log : Log) (n : ℕ)
    → 0 < attempt
    → attempt ≤ get_raw_attempts
    → get_raw_attempts < attempt + length rs
    → Balanced log.events
    → requests_in log.events + (5 - attempt) ≤ n
    → Bounded n (get_raw_from slotted attempt rs log)
unfolding get_raw_from round
get_raw_from-Bounded slotted attempt [] log n p h l b le = absurd (omega arith)
get_raw_from-Bounded slotted attempt (r ∷ rs) log n p h l b le =
    go (round slotted r attempt log)
      (after_slot-Rounded slotted r attempt (if slotted then r.no_slot else none) log p h b)
      (λ more early balanced few.
        get_raw_from-Bounded slotted (suc attempt) rs more n (omega arith) (omega arith)
          (omega arith) balanced (omega arith))
  where
    go :
        (next : Next)
        → Rounded attempt (suc (requests_in log.events)) next
        → ((more : Log)
            → attempt < get_raw_attempts
            → Balanced more.events
            → requests_in more.events ≤ suc (requests_in log.events)
            → Bounded n (get_raw_from slotted (suc attempt) rs more))
        → Bounded n (elim next [
          | finished res status done ↦ some (record { result = res; status = status; log = done })
          | again more ↦ get_raw_from slotted (suc attempt) rs more
        ])
    go (finished res status done) (balanced, few) rest = (balanced, omega arith)
    go (again more) (balanced, few, early) rest = rest more early balanced few

-- Given at least four rounds of answers and a log of earlier events in which the following holds,
-- getRawRetrying ends with an outcome, has made at most four more requests, and the following still
-- holds: every slot was taken for one request and given back right after it, so that no wait falls
-- into a held slot, and no wait was longer than a minute.
pub get_raw_retrying-Bounded :
    (slotted : Bool) (rs : List Round) (log : Log)
    → get_raw_attempts ≤ length rs
    → Balanced log.events
    → Bounded (requests_in log.events + get_raw_attempts) (get_raw_retrying slotted rs log)
unfolding get_raw_retrying
get_raw_retrying-Bounded slotted rs log l b =
    get_raw_from-Bounded slotted 1 rs log _ (omega arith) (omega arith) (omega arith) b
      (omega arith)
