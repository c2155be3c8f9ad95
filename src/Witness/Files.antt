-- ===== src/Witness/Files.antt =====
-- Opens and downloads of internal/fusefs/fusefs.go at concrete files.
use proton_drive_linux_fs.Base.{
  ◌≡◌, ◌≢◌, ap, refl, true, false, none, some, [], ◌∷◌, ◌++◌, ℕ, Option, arith, length, take,
  take_of_length-le, zero, suc,
}
use proton_drive_linux_fs.Drive.Errors.{Err, Result, ok, err, eof, other}
use proton_drive_linux_fs.Drive.Read.{Bytes}
use proton_drive_linux_fs.Drive.Read.Prefix.{chunk}
use proton_drive_linux_fs.Fusefs.Buffer.{Buffer, Node}
use proton_drive_linux_fs.Fusefs.Download.{download_into}
use proton_drive_linux_fs.Fusefs.Download.Whole.{Ended, download_into-Whole}
use proton_drive_linux_fs.Fusefs.Handle.{TmpCalls}
use proton_drive_linux_fs.Fusefs.Open.{Flags, Answers, State, open_file}
use proton_drive_linux_fs.Fusefs.Open.Current.{Reads, open_file-ReadsCurrent}
use proton_drive_linux_fs.Fusefs.Release.{Labels}

abbrev content : Bytes
content = 1 ∷ 2 ∷ 3 ∷ []

-- The second fetch of a file's block fails; the state counts the fetches.
abbrev get_block : ℕ → ℕ → Result Bytes × ℕ
get_block zero idx = (ok (chunk content idx), 1)
get_block (suc n) idx = (err (other 7), 2)

abbrev write_at : Bytes → ℕ → Bytes → Option Err × Bytes
write_at data' off t = (none, take off t ++ data')

abbrev Always : ℕ → Type 0
Always n = Unit {0}

abbrev Seven : Err → Type 0
Seven e = e ≡ other 7

refused :
    (data' : Bytes) (off : ℕ) (t : Bytes) (e : Err) → (write_at data' off t).0 ≡ some e → Seven e
refused data' off t e h = cc

appended :
    (data' : Bytes) (off : ℕ) (t : Bytes)
    → off ≡ length t
    → (write_at data' off t).0 ≡ none
    → (write_at data' off t).1 ≡ t ++ data'
appended data' off t long works =
    ap (λ front. front ++ data') (take_of_length-le off t (omega arith))

sound :
    (s idx : ℕ)
    → Always s
    → Always (get_block s idx).1
      × ((block : Bytes) → (get_block s idx).0 ≡ ok block → block ≡ chunk content idx)
      × ((e : Err) → (get_block s idx).0 ≡ err e → (e ≢ eof) × Seven e)
sound s idx v = ground arith

download_into-Whole_example :
    Ended
      (λ d.
        Always d.file
        × (d.error ≡ none → d.tmp ≡ content)
        × ((e : Err) → d.error ≡ some e → Seven e))
      (download_into (λ n. n) write_at get_block (length content) 0 [])
download_into-Whole_example =
    download_into-Whole (λ n. n) write_at (λ t. t) Seven refused appended Always get_block content
      sound 0 [] tt refl

abbrev node : Node
node = record { link_id = "l"; name = "a.txt" }

abbrev buffer : Buffer
buffer = record {
  tmp = some (7 ∷ []);
  dirty = true;
  owns = true;
  parked = true;
  timer = true;
  due = false;
  retry_in = 0;
  failed = false;
  gone = false;
  node = some node;
  name = "a.txt";
  parent = 1;
  handle = true;
  pinned = false;
  delayed = true;
  kept = false;
  closing = false;
  places = [];
}

abbrev answers : Answers
answers = record {
  no_tmp = other 1;
  tmp_opens = true;
  denied = false;
  tmp_created = true;
  late = false;
  raced = false;
  opened = ok content;
  downloaded = ok content;
  moved = 3;
  now = 5;
}

abbrev calls : TmpCalls
calls = record {
  truncates = λ n c. (none, take n c);
  writes = λ data' off c. (none, take off c ++ data');
  reads = λ len off c. (c, none);
  stats = true;
}

abbrev labels : Labels
labels = record { display_path = λ dir name. name; message = λ gave_up e. "failed" }

abbrev writing : Flags
writing = record { read_only = false; truncates = false }

abbrev state : State
state = record { buffer = buffer; recent = []; expired = false }

open_file-ReadsCurrent_example : Reads content buffer (open_file calls labels writing answers state)
open_file-ReadsCurrent_example =
    open_file-ReadsCurrent calls labels writing answers state content refl refl
      (λ c h. cc, λ c h. cc) (λ parked. λ h. cc)
