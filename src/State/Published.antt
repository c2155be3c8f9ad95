-- ===== src/State/Published.antt =====
-- internal/state/state.go: what readers see of a published status.
use proton_drive_linux_fs.Base.{
  ◌≡◌, ◌≢◌, ap, subst, refl, ◌⊎◌, inl, String, Option, none, some, List, [], arith, lookup, insert,
  delete, string_key, lookup-insert, lookup-delete, eq_iff,
}
use proton_drive_linux_fs.Drive.Read.{Bytes}
use proton_drive_linux_fs.State.{
  Disk, Env, Status, WriteCalls, StateError, read_from, write_to, status_path, read_status,
  write_status, filled, renamed, cleaned,
}

-- Without an error the snapshot is the new one; with an error it is what it was. Either way every
-- other file is as it was, and no temp file is left unless removing it failed.
abbrev pub PublishedAt :
    (Status → Bytes)
    → (Bytes → Option Status)
    → Option String
    → WriteCalls
    → Status
    → Disk
    → Option StateError × Disk
    → Type 0
PublishedAt marshal unmarshal path calls s before (e, after) =
    (e ≡ none → read_from marshal unmarshal path after ≡ some s)
    × ((x : StateError)
        → e ≡ some x
        → read_from marshal unmarshal path after ≡ read_from marshal unmarshal path before)
    × ((lookup calls.tmp after.files ≡ none) ⊎ (calls.removes ≢ none))

abbrev pub Published :
    (Status → Bytes)
    → (Bytes → Option Status)
    → Env
    → WriteCalls
    → Status
    → Disk
    → Option StateError × Disk
    → Type 0
Published marshal unmarshal env calls s before (e, after) =
    (e ≡ none → read_status marshal unmarshal env after ≡ some s)
    × ((x : StateError)
        → e ≡ some x
        → read_status marshal unmarshal env after ≡ read_status marshal unmarshal env before)
    × ((lookup calls.tmp after.files ≡ none) ⊎ (calls.removes ≢ none))

-- Before the temp file is removed.
abbrev Filled : Bytes → String → Option Bytes → Option StateError × Disk → Type 0
Filled new path old (e, disk) =
    (e ≡ none → lookup path disk.files ≡ some new)
    × ((x : StateError) → e ≡ some x → lookup path disk.files ≡ old)

other_insert :
    (path tmp : String) (d : Bytes) (files : List (String × Bytes))
    → path ≢ tmp
    → lookup path (insert tmp d files) ≡ lookup path files
other_insert path tmp d files apart =
    ground (arith, lookup-insert tmp path d files, eq_iff tmp path)

other_delete :
    (path tmp : String) (files : List (String × Bytes))
    → path ≢ tmp
    → lookup path (delete tmp files) ≡ lookup path files
other_delete path tmp files apart = ground (arith, lookup-delete tmp path files, eq_iff tmp path)

own_insert :
    (path : String) (d : Bytes) (files : List (String × Bytes))
    → lookup path (insert path d files) ≡ some d
own_insert path d files = ground (arith, lookup-insert path path d files, eq_iff path path)

own_delete :
    (path : String) (files : List (String × Bytes)) → lookup path (delete path files) ≡ none
own_delete path files = ground (arith, lookup-delete path path files, eq_iff path path)

module _ (marshal : Status → Bytes) (unmarshal : Bytes → Option Status) where
  filled-Filled :
      (path : String) (calls : WriteCalls) (s : Status) (disk : Disk)
      → path ≢ calls.tmp
      → Filled
          (marshal s)
          path
          (lookup path disk.files)
          (filled marshal unmarshal path calls s disk)
  unfolding filled renamed
  filled-Filled path calls s disk apart =
      let full = other_insert path calls.tmp (marshal s) disk.files apart in
      let partly = other_insert path calls.tmp calls.written disk.files apart in
      let new =
        own_insert path (marshal s) (delete calls.tmp (insert calls.tmp (marshal s) disk.files)) in
      ground (arith, full, partly, new)

  cleaned-Published :
      (calls : WriteCalls) (s : Status) (before : Disk) (path : String)
      (got : Option StateError × Disk)
      → unmarshal (marshal s) ≡ some s
      → path ≢ calls.tmp
      → Filled (marshal s) path (lookup path before.files) got
      → PublishedAt marshal unmarshal
          (some path)
          calls
          s
          before
          (cleaned marshal unmarshal calls got)
  unfolding cleaned read_from
  cleaned-Published calls s before path (e, disk) codec apart (new, old) =
      let kept = other_delete path calls.tmp disk.files apart in
      let gone = own_delete calls.tmp disk.files in ground (arith, kept, gone, codec, new, old)

  write_to-Published :
      (o : Option String) (calls : WriteCalls) (s : Status) (before : Disk)
      → unmarshal (marshal s) ≡ some s
      → o ≢ some calls.tmp
      → lookup calls.tmp before.files ≡ none
      → PublishedAt marshal unmarshal o calls s before (write_to marshal unmarshal o calls s before)
  unfolding write_to
  write_to-Published none calls s before codec apart unused = (λ n. cc, λ x h. refl, inl unused)
  write_to-Published (some path) calls s before codec apart unused =
      let done =
        cleaned-Published calls s before path (filled marshal unmarshal path calls s begun) codec
          other same in
      ground (arith, done)
    where
      other : path ≢ calls.tmp
      other e = apart (ap some e)

      begun : Disk
      begun = record before { files = insert calls.tmp [] before.files }

      same :
          Filled
            (marshal s)
            path
            (lookup path before.files)
            (filled marshal unmarshal path calls s begun)
      same =
          subst (λ old. Filled (marshal s) path old (filled marshal unmarshal path calls s begun))
            (other_insert path calls.tmp [] before.files other)
            (filled-Filled path calls s begun other)

  -- Where decoding an encoded status gives it back, and CreateTemp's name is not that of the
  -- snapshot and was unused: whichever of its calls fail, WriteStatus leaves the new status to be
  -- read if it returns no error, and the same as before if it returns one, and it leaves no temp
  -- file unless removing that failed.
  pub write_status-Published :
      (env : Env) (calls : WriteCalls) (s : Status) (before : Disk)
      → unmarshal (marshal s) ≡ some s
      → status_path env ≢ some calls.tmp
      → lookup calls.tmp before.files ≡ none
      → Published marshal unmarshal env calls s before
          (write_status marshal unmarshal env calls s before)
  unfolding write_status read_status
  write_status-Published env calls s before codec apart unused =
      write_to-Published (status_path env) calls s before codec apart unused
