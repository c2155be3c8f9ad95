-- ===== src/Drive/Http.antt =====
-- internal/drive/http.go and the rate limit of internal/drive/backoff.go: the raw GETs with their
-- retries and slots, the JSON PUT, and the window that a 429 or 503 opens. The server and the
-- context are arguments: a list of what each attempt meets. Times are milliseconds.
pub mod Retries
use proton_drive_linux_fs.Base.{
  ℕ, suc, ◌+◌, ◌-◌, ◌*◌, ◌^◌, Bool, true, false, not, ◌&&◌, ◌||◌, Option, none, some, List, [], ◌∷◌,
  ltb, ◌==◌, if◌then◌else◌, min,
}
use proton_drive_linux_fs.Drive.Errors.{
  Err, ApiError, Result, ok, err, rate_limited, as_api_error, status_unauthorized,
  status_too_many_requests, status_service_unavailable,
}
use proton_drive_linux_fs.Drive.Read.{Bytes}

-- getRawOnce's answer: the body or the error, the status, and the Retry-After.
pub record Response : Type 0 where
  pub body : Result Bytes
  pub status : ℕ
  pub retry_after : ℕ

-- One round of the loop: the error of acquire (nothing when a slot came, or when none is asked for),
-- the response, whether the context is done after it, the jitter, the time, and the context's error
-- if it ends the wait.
pub record Round : Type 0 where
  pub no_slot : Option Err
  pub response : Response
  pub ctx_done : Bool
  pub jitter : ℕ
  pub now : ℕ
  pub wait_ends : Option Err
  -- the hint that the error's details hold, as retryAfterHint reads it
  pub hint : Option ℕ

-- What happened, last first: requests with their slots, and waits.
pub data Event : Type 0 where
  acquired released requested : Event
  waited : ℕ → Event

pub record Log : Type 0 where
  pub until : ℕ
  pub events : List Event

abbrev pub get_raw_attempts : ℕ
get_raw_attempts = 4

abbrev pub max_rate_limit_wait : ℕ
max_rate_limit_wait = 60000

abbrev pub rate_limit_default_wait : ℕ
rate_limit_default_wait = 10000

abbrev pub transport_retry_base : ℕ
transport_retry_base = 100

abbrev pub default_rate_limit_backoff : ℕ
default_rate_limit_backoff = 30000

abbrev pub max_rate_limit_backoff : ℕ
max_rate_limit_backoff = 300000

abbrev pub limits_rate : ℕ → Bool
limits_rate status = status == status_too_many_requests || status == status_service_unavailable

abbrev or_hint : Bool → Option ℕ → ℕ
or_hint true (some hint) = hint
or_hint _ _ = default_rate_limit_backoff

-- noteRateLimitStatus; `is_api` says whether the error is an API error.
unfoldable pub note_rate_limit_status : ℕ → Bool → Option ℕ → ℕ → ℕ → Log → Log
note_rate_limit_status status is_api hint retry_after now log =
    if not (limits_rate status)
    then log
    else let wait = if ltb 0 retry_after then retry_after else or_hint is_api hint in
      let capped = if ltb max_rate_limit_backoff wait then max_rate_limit_backoff else wait in
      record log { until = now + capped }

-- RateLimited
unfoldable pub rate_limited_for : ℕ → Log → ℕ × Bool
rate_limited_for now log = if ltb now log.until then (log.until - now, true) else (0, false)

abbrev is_some : {A : Type 0} → Option A → Bool
is_some none = false
is_some (some a) = true

abbrev api_error_of : Result Bytes → Option ApiError
api_error_of (ok b) = none
api_error_of (err e) = as_api_error e

abbrev failed : Result Bytes → Bool
failed (ok b) = false
failed (err e) = true

abbrev requests : Bool → Log → Log
requests slotted log = record log {
  events = if slotted then released ∷ requested ∷ acquired ∷ log.events else requested ∷ log.events;
}

abbrev error_or : Err → Result Bytes → Err
error_or e (ok b) = e
error_or e (err f) = f

-- fmt.Errorf("%w: %w", ErrRateLimited, *apiErr)
abbrev limited_error : Result Bytes → Option ApiError → Result Bytes
limited_error r (some e) = err (rate_limited e)
limited_error r none = r

abbrev wait_for : Bool → ℕ → ℕ → ℕ → ℕ
wait_for limited attempt retry_after jitter =
    if limited
    then min ((if ltb 0 retry_after then retry_after else rate_limit_default_wait) + jitter)
        max_rate_limit_wait
    else transport_retry_base * 2 ^ (attempt - 1)

-- What a round decides: a result with the status, or another attempt.
pub data Next : Type 0 where
  finished : Result Bytes → ℕ → Log → Next
  again : Log → Next

after_wait : Round → Bool → Bool → ℕ → Option Err → Log → Next
after_wait r limited is_api attempt none log = again (record log {
  events = waited (wait_for limited attempt r.response.retry_after r.jitter) ∷ log.events;
})
after_wait r limited is_api attempt (some e) log = finished (err e) r.response.status (
    if limited
    then note_rate_limit_status r.response.status is_api r.hint r.response.retry_after r.now log
    else log)

-- Once a response is there.
answered : Round → ℕ → Log → Next
unfolding after_wait
answered r attempt log =
    let res = r.response in
    let api = api_error_of res.body in
    let transport = failed res.body && not (is_some api) in
    let limited = limits_rate res.status in
    if failed res.body && r.ctx_done
    then finished res.body res.status log
    else if not transport && not limited
    then finished res.body res.status log
    else if attempt == get_raw_attempts
    then if transport
      then finished res.body res.status log
      else finished (limited_error res.body api) res.status
          (note_rate_limit_status res.status (is_some api) r.hint res.retry_after r.now log)
    else after_wait r limited (is_some api) attempt r.wait_ends log

after_slot : Bool → Round → ℕ → Option Err → Log → Next
unfolding answered
after_slot slotted r attempt none log = answered r attempt (requests slotted log)
after_slot slotted r attempt (some e) log = finished (err e) 0 log

unfoldable pub round : Bool → Round → ℕ → Log → Next
unfolding after_slot
round slotted r attempt log = after_slot slotted r attempt (if slotted then r.no_slot else none) log

pub record Outcome : Type 0 where
  pub result : Result Bytes
  pub status : ℕ
  pub log : Log

-- getRawRetrying from an attempt on; it is nothing when the rounds given do not reach its end.
unfoldable pub get_raw_from : Bool → ℕ → List Round → Log → Option Outcome
get_raw_from slotted attempt [] log = none
get_raw_from slotted attempt (r ∷ rs) log = elim (round slotted r attempt log) [
  | finished res status done ↦ some (record { result = res; status = status; log = done })
  | again more ↦ get_raw_from slotted (suc attempt) rs more
]

unfoldable pub get_raw_retrying : Bool → List Round → Log → Option Outcome
get_raw_retrying slotted rs log = get_raw_from slotted 1 rs log

-- getRawSlotted: the second try, once GetUser has refreshed the token.
unfoldable pub get_raw_slotted : Bool → Bool → List Round → List Round → Log → Option Outcome
get_raw_slotted slotted refreshed first second log = elim (get_raw_retrying slotted first log) [
  | none ↦ none
  | some o ↦
      if not (o.status == status_unauthorized)
      then some o
      else if not refreshed
      then some o
      else get_raw_retrying slotted second o.log
]

-- putJSON: the status and error of an attempt, whether the refresh works, and those of the second.
unfoldable pub put_json : ℕ × Option Err → Bool → ℕ × Option Err → Option Err × ℕ
put_json (status, e) refreshed (again_status, again_e) =
    if not (status == status_unauthorized)
    then (e, 1)
    else if not refreshed
    then (e, 1)
    else (again_e, 2)
