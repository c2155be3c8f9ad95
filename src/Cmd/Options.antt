-- ===== src/Cmd/Options.antt =====
-- cmd/proton-drive-fs/main.go: values of options, the verification method of a login, and the end of a
-- previous daemon.
use proton_drive_linux_fs.Base.{
  ℕ, zero, suc, String, Bool, true, false, not, ◌||◌, Option, none, some, List, [], ◌∷◌, ◌==◌,
  if◌then◌else◌, str_eq,
}

-- What parsing uses of strings and strconv: TrimSpace, the text before a suffix if it has it, and
-- ParseFloat with the product by a unit as an int64, which is not negative here.
pub record Parse : Type 0 where
  pub trim : String → String
  pub before : String → String → Option String
  pub scaled : String → ℕ → Option ℕ
  pub whole : String → Option ℕ
  pub lower : String → String

-- The suffixes in the order in which they are tried.
abbrev pub units : List (String × ℕ)
units =
    ("KiB", 1024)
    ∷ ("MiB", 1048576)
    ∷ ("GiB", 1073741824)
    ∷ ("K", 1024)
    ∷ ("M", 1048576)
    ∷ ("G", 1073741824)
    ∷ []

-- `none` is an error.
try_units : Parse → String → List (String × ℕ) → Option ℕ
try_units parse s [] = parse.whole s
try_units parse s ((suffix, mult) ∷ rest) =
    let later = try_units parse s rest in
    elim (parse.before s suffix) [ none ↦ later | some number ↦ parse.scaled number mult ]

unfoldable pub parse_cache_size : Parse → String → Option ℕ
unfolding try_units
parse_cache_size parse text =
    let s = parse.trim text in
    let size = try_units parse s units in if str_eq s "" then none else size

pub data Level : Type 0 where
  debug info warn error : Level

unfoldable pub parse_log_level : Parse → String → Option Level
parse_log_level parse text =
    let s = parse.lower (parse.trim text) in
    if str_eq s "debug"
    then some debug
    else if str_eq s "info"
    then some info
    else if str_eq s "warn" || str_eq s "warning"
    then some warn
    else if str_eq s "error"
    then some error
    else none

unfoldable pub contains : List String → String → Bool
contains [] x = false
contains (y ∷ ys) x = str_eq y x || contains ys x

first_offered : List String → List String → Option String
first_offered offered [] = none
first_offered offered (m ∷ ms) =
    let later = first_offered offered ms in if contains offered m then some m else later

unfoldable pub pick_hv_method : List String → String → Option String
unfolding first_offered
pick_hv_method offered forced =
    let picked = first_offered offered ("email" ∷ "sms" ∷ "captcha" ∷ []) in
    if not (str_eq forced "") then if contains offered forced then some forced else none else picked

unfoldable pub detached_args : List String → List String
detached_args args = "mount" ∷ "-foreground" ∷ args

unfoldable pub yes_no : Bool → String
yes_no b = if b then "yes" else "no"

-- What stopPreviousDaemon does to the other process, last first.
pub data Signal : Type 0 where
  sigterm sigkill warned : Signal

-- The polls of signal 0, 100 ms apart, while the clock is before a deadline: `early` says so before a
-- poll, and `gone` whether the signal then failed. It returns whether the process was seen to be gone,
-- and the number of the next poll. `fuel` is one more than the polls that fit into the time.
poll_until : (ℕ → Bool) → (ℕ → Bool) → ℕ → ℕ → Bool × ℕ
poll_until early gone zero poll = (false, poll)
poll_until early gone (suc fuel) poll =
    let later = poll_until early gone fuel (suc poll) in
    if not (early poll) then (false, poll) else if gone poll then (true, suc poll) else later

after_kill : (ℕ → Bool) → Bool × ℕ → List Signal
after_kill gone (true, poll) = sigkill ∷ sigterm ∷ []
after_kill gone (false, poll) =
    if gone poll then sigkill ∷ sigterm ∷ [] else warned ∷ sigkill ∷ sigterm ∷ []

after_term : (ℕ → Bool) → (ℕ → Bool) → Bool × ℕ → List Signal
unfolding poll_until after_kill
after_term early_kill gone (true, poll) = sigterm ∷ []
after_term early_kill gone (false, poll) =
    let killed = after_kill gone (poll_until early_kill gone 21 (suc poll)) in
    if gone poll then sigterm ∷ [] else killed

-- `alive` and `pid` are those of FindRunningDaemon, `own` is our pid, `found` and `reached` whether
-- FindProcess and the first signal work; `early` and `early_kill` are the clock before the five seconds
-- after SIGTERM and the two after SIGKILL are over.
unfoldable pub stop_previous_daemon :
    Bool → ℕ → ℕ → Bool → Bool → (ℕ → Bool) → (ℕ → Bool) → (ℕ → Bool) → List Signal
unfolding after_term poll_until
stop_previous_daemon alive pid own found reached early early_kill gone =
    let polled = after_term early_kill gone (poll_until early gone 51 0) in
    if not alive || pid == own
    then []
    else if not found
    then []
    else if not reached
    then []
    else polled
