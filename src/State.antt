-- ===== src/State.antt =====
-- internal/state/state.go: the files of the runtime directory by which the mount, the tray and the
-- command line know of each other: the status snapshot, the pause marker and the lock.
pub mod Published
use proton_drive_linux_fs.Base.{
  ℕ, ◌+◌, ◌-◌, String, Bool, true, false, not, ◌&&◌, ◌||◌, Option, none, some, List, [], ◌∷◌, ◌++◌,
  ltb, leb, ◌==◌, if◌then◌else◌, lookup, insert, delete, string_key, str_eq, ◌⊎◌, inl, inr,
}
use proton_drive_linux_fs.Drive.Read.{Bytes}

-- The files by their path, and the one whose lock another open file holds.
pub record Disk : Type 0 where
  pub files : List (String × Bytes)
  pub locked : List (String × Bool)

-- An error of the operating system: that a file does not exist, that a lock would block, or another.
pub data OsError : Type 0 where
  not_exist would_block failed : OsError

pub data StateError : Type 0 where
  os : OsError → StateError
  no_home err_locked : StateError

-- The variables XDG_RUNTIME_DIR and XDG_STATE_HOME, "" when not set, the home directory, if there
-- is one, and filepath.Join.
pub record Env : Type 0 where
  pub runtime_dir : String
  pub state_home : String
  pub home : Option String
  pub join : String → String → String

-- The parts of the snapshot that these functions read; `rest` stands for the others.
pub record Status : Type 0 where
  pub pid : ℕ
  pub mountpoint : String
  pub updated : ℕ
  pub rest : Bytes

-- StaleAfter, in seconds.
abbrev pub stale_after : ℕ
stale_after = 10

-- Times are in seconds, and `now` is not before `updated`.
unfoldable pub fresh : ℕ → Status → Bool
fresh now s = ltb 0 s.updated && ltb (now - s.updated) stale_after

unfoldable pub resolve_dir : Env → String → String → String → String
resolve_dir env runtime_dir state_home home =
    let base = if str_eq runtime_dir "" then state_home else runtime_dir in
    let found = if str_eq base "" then env.join home (env.join ".local" "state") else base in
    env.join found "proton-drive-fs"

abbrev home_or_empty : Option String → String
home_or_empty none = ""
home_or_empty (some h) = h

abbrev is_none : Option String → Bool
is_none none = true
is_none (some h) = false

unfoldable pub dir : Env → Option String
unfolding resolve_dir
dir env =
    if is_none env.home && str_eq env.runtime_dir "" && str_eq env.state_home ""
    then none
    else some (resolve_dir env env.runtime_dir env.state_home (home_or_empty env.home))

unfoldable pub persistent_dir : Env → String → Option String
unfolding resolve_dir
persistent_dir env sub =
    if is_none env.home && str_eq env.state_home ""
    then none
    else some (env.join (resolve_dir env "" env.state_home (home_or_empty env.home)) sub)

within : Env → String → Option String → Option String
within env name none = none
within env name (some d) = some (env.join d name)

unfoldable pub status_path : Env → Option String
unfolding within
status_path env = within env "status.json" (dir env)

unfoldable pub pause_path : Env → Option String
unfolding within
pause_path env = within env "paused" (dir env)

unfoldable pub lock_path : Env → Option String
unfolding within
lock_path env = within env "mount.lock" (dir env)

-- `stat_error` is whether the stat of the marker fails although it exists.
unfoldable pub paused : Env → Bool → Disk → Bool
paused env stat_error disk = elim (pause_path env) [
  | none ↦ false
  | some path ↦ elim (lookup path disk.files) [ none ↦ false | some _ ↦ not stat_error ]
]

-- What the calls on the pause marker answer: MkdirAll, OpenFile, Close and Remove.
pub record PauseCalls : Type 0 where
  pub mkdir : Option OsError
  pub opens : Option OsError
  pub closes : Option OsError
  pub removes : Option OsError

touch : String → Disk → Disk
touch path disk = elim (lookup path disk.files) [
  | none ↦ record disk { files = insert path [] disk.files }
  | some _ ↦ disk
]

abbrev remove_file : String → Disk → Disk
remove_file path disk = record disk { files = delete path disk.files }

-- os.Remove of a file that is not there fails with ErrNotExist, which is no error here.
pub unpause : String → Option OsError → Disk → Option StateError × Disk
unpause path none disk = (none, remove_file path disk)
unpause path (some not_exist) disk = (none, disk)
unpause path (some e) disk = (some (os e), disk)

pub pause : String → PauseCalls → Disk → Option StateError × Disk
unfolding touch
pause path calls disk = elim calls.mkdir [
  | some e ↦ (some (os e), disk)
  | none ↦ elim calls.opens [
    | some e ↦ (some (os e), disk)
    | none ↦ (elim calls.closes [ none ↦ none | some e ↦ some (os e) ], touch path disk)
  ]
]

unfoldable pub set_paused : Env → PauseCalls → Bool → Disk → Option StateError × Disk
unfolding unpause pause
set_paused env calls paused disk = elim (pause_path env) [
  | none ↦ (some no_home, disk)
  | some path ↦ if paused then pause path calls disk else unpause path calls.removes disk
]

-- What the calls of WriteStatus answer, `removes` that of the deferred Remove; `written` is what a failed Write left in the temp file, and
-- `tmp` the name that CreateTemp chose.
pub record WriteCalls : Type 0 where
  pub mkdir : Option OsError
  pub create : Option OsError
  pub chmod : Option OsError
  pub write : Option OsError
  pub closes : Option OsError
  pub rename : Option OsError
  pub removes : Option OsError
  pub tmp : String
  pub written : Bytes

-- `marshal` and `unmarshal` are those of encoding/json, for a Status.
module _ (marshal : Status → Bytes) (unmarshal : Bytes → Option Status) where
  pub read_from : Option String → Disk → Option Status
  read_from none disk = none
  read_from (some path) disk = elim (lookup path disk.files) [
    | none ↦ none
    | some data' ↦ unmarshal data'
  ]

  unfoldable pub read_status : Env → Disk → Option Status
  unfolding read_from
  read_status env disk = read_from (status_path env) disk

  renamed : String → WriteCalls → Bytes → Disk → Option StateError × Disk
  renamed path calls data' disk = elim calls.rename [
    | some e ↦ (some (os e), disk)
    | none ↦ (none, record disk { files = insert path data' (delete calls.tmp disk.files) })
  ]

  -- From Chmod on, with the temp file on disk.
  filled : String → WriteCalls → Status → Disk → Option StateError × Disk
  unfolding renamed
  filled path calls s disk =
      let data' = marshal s in
      let full = record disk { files = insert calls.tmp data' disk.files } in
      let partly = record disk { files = insert calls.tmp calls.written disk.files } in
      elim calls.chmod [
        | some e ↦ (some (os e), disk)
        | none ↦ elim calls.write [
          | some e ↦ (some (os e), partly)
          | none ↦ elim calls.closes [
            | some e ↦ (some (os e), full)
            | none ↦ renamed path calls data' full
          ]
        ]
      ]

  -- The deferred Remove of the temp file, whose error is not looked at: the file then stays.
  cleaned : WriteCalls → Option StateError × Disk → Option StateError × Disk
  cleaned calls (e, disk) =
      (e, elim calls.removes [ none ↦ remove_file calls.tmp disk | some x ↦ disk ])

  pub write_to : Option String → WriteCalls → Status → Disk → Option StateError × Disk
  unfolding filled cleaned
  write_to none calls s disk = (some no_home, disk)
  write_to (some path) calls s disk = elim calls.mkdir [
    | some e ↦ (some (os e), disk)
    | none ↦ elim calls.create [
      | some e ↦ (some (os e), disk)
      | none ↦
          cleaned calls
            (filled path calls s (record disk { files = insert calls.tmp [] disk.files }))
    ]
  ]

  unfoldable pub write_status : Env → WriteCalls → Status → Disk → Option StateError × Disk
  unfolding write_to
  write_status env calls s disk = write_to (status_path env) calls s disk

  unfoldable pub remove_status : Env → Disk → Disk
  remove_status env disk = elim (status_path env) [
    | none ↦ disk
    | some path ↦ remove_file path disk
  ]

  -- `alive` is processAlive.
  unfoldable pub find_running_daemon : Env → (ℕ → Bool) → Disk → ℕ × String × Bool
  unfolding read_status
  find_running_daemon env alive disk = elim (read_status env disk) [
    | none ↦ (0, "", false)
    | some s ↦ if s.pid == 0 then (0, "", false) else (s.pid, s.mountpoint, alive s.pid)
  ]

-- What processAlive asks: FindProcess, signal 0, and the base name of the executable, if it can be
-- read; `name` is DaemonExeName.
unfoldable pub process_alive : Bool → Bool → Option String → String → Bool
process_alive found signal exe name =
    found && signal && (elim exe [ none ↦ false | some base ↦ str_eq base name ])

-- What AcquireLock's calls answer; the flock is the kernel's, which refuses a lock that is held.
pub record LockCalls : Type 0 where
  pub mkdir : Option OsError
  pub opens : Option OsError
  pub flock : Option OsError

flocked : String → Option OsError → Disk → (StateError ⊎ String) × Disk
flocked path (some would_block) disk = (inl err_locked, disk)
flocked path (some e) disk = (inl (os e), disk)
flocked path none disk = elim (lookup path disk.locked) [
  | some _ ↦ (inl err_locked, disk)
  | none ↦ (inr path, record disk { locked = insert path true disk.locked })
]

unfoldable pub acquire_lock : Env → LockCalls → Disk → (StateError ⊎ String) × Disk
unfolding flocked touch
acquire_lock env calls disk = elim (lock_path env) [
  | none ↦ (inl no_home, disk)
  | some path ↦ elim calls.mkdir [
    | some e ↦ (inl (os e), disk)
    | none ↦ elim calls.opens [
      | some e ↦ (inl (os e), disk)
      | none ↦ flocked path calls.flock (touch path disk)
    ]
  ]
]
