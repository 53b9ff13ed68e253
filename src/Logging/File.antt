-- ===== src/Logging/File.antt =====
-- src/logging.c: the file that the log goes to. `nFic` is `none` for NULL. What the C library's
-- `fopen` and `fclose` do on an error is a parameter.
pub mod Kept
use restaurante_so.Prelude.{
  ℕ, Bool, true, false, ◌&&◌, ◌==◌, Option, none, some, List, [], ◌∷◌, ◌++◌, if◌then◌else◌,
}
use restaurante_so.Problem.{FullStat}
use restaurante_so.Logging.{create_log, state_line}

-- What has been written to the standard output, and the files by their names.
pub record Disk : Type 0 where
  pub out : List ℕ
  pub files : List ℕ → Option (List ℕ)

-- "w" and "a"
pub data Mode : Type 0 where
  for_writing for_appending : Mode

pub data Stream : Type 0 where
  stdout : Stream
  file : List ℕ → Stream

-- Whether a call succeeds.
pub record FileCalls : Type 0 where
  pub fopen : Mode → List ℕ → Disk → Bool
  pub fclose : List ℕ → Disk → Bool

unfoldable pub same_name : List ℕ → List ℕ → Bool
same_name [] [] = true
same_name [] (b ∷ t) = false
same_name (a ∷ s) [] = false
same_name (a ∷ s) (b ∷ t) = (a == b) && same_name s t

unfoldable pub set_file : List ℕ → List ℕ → Disk → Disk
unfolding same_name
set_file name text d = record d {
  files = λ other. if same_name other name then some text else d.files other;
}

-- What a file that is opened holds: "w" empties it, and both make it if it is not there.
unfoldable pub text_at_open : Mode → Option (List ℕ) → List ℕ
text_at_open for_writing old = []
text_at_open for_appending none = []
text_at_open for_appending (some text) = text

-- A call that opens the log, or one that writes to it; `exits` is `exit (EXIT_FAILURE)`.
pub data Opened : Type 0 where
  opened : Stream → Disk → Opened
  cannot_open : Opened

pub data Logged : Type 0 where
  logged : Disk → Logged
  exit_failure : Logged

unfoldable pub open_log : FileCalls → Option (List ℕ) → Mode → Disk → Opened
unfolding set_file text_at_open
open_log sys none mode d = opened stdout d
open_log sys (some []) mode d = opened stdout d
open_log sys (some (c ∷ s)) mode d =
    if sys.fopen mode (c ∷ s) d
    then opened (file (c ∷ s)) (set_file (c ∷ s) (text_at_open mode (d.files (c ∷ s))) d)
    else cannot_open

unfoldable pub close_log : FileCalls → Stream → Disk → Logged
close_log sys stdout d = logged d
close_log sys (file name) d = if sys.fclose name d then logged d else exit_failure

-- `fprintf` puts its text at the end of an open stream.
unfoldable pub print : Stream → List ℕ → Disk → Disk
unfolding set_file text_at_open
print stdout text d = record d { out = d.out ++ text }
print (file name) text d = set_file name (text_at_open for_appending (d.files name) ++ text) d

unfoldable pub print_and_close : FileCalls → List ℕ → Opened → Logged
unfolding print close_log
print_and_close sys text (opened stream d) = close_log sys stream (print stream text d)
print_and_close sys text cannot_open = exit_failure

-- `createLog` and `saveState` with their file.
unfoldable pub create_log_file : FileCalls → Option (List ℕ) → FullStat → Disk → Logged
unfolding open_log print_and_close create_log
create_log_file sys name f d = print_and_close sys (create_log f) (open_log sys name for_writing d)

unfoldable pub save_state_file : FileCalls → Option (List ℕ) → FullStat → Disk → Logged
unfolding open_log print_and_close state_line
save_state_file sys name f d =
    print_and_close sys (state_line f) (open_log sys name for_appending d)
