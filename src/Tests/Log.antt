-- ===== src/Tests/Log.antt =====
-- The theorems about the log, at a run of two groups.
use restaurante_so.Prelude.{
  ℕ, Option, some, true, false, ◌∷◌, ◌≡◌, List, [], ◌++◌, length, All, arith, pos, refl,
}
use restaurante_so.Problem.{FullStat}
use restaurante_so.Logging.{state_line, create_log}
use restaurante_so.Logging.Widths.{Fits}
use restaurante_so.Logging.Reading.{read_row, row_of, read_row-state_line}
use restaurante_so.Setup.{Config, initial_status}
use restaurante_so.Safety.Exclusion.{group, receptionist}
use restaurante_so.Schedule.{Run, run, times}
use restaurante_so.History.Changes.{group_status}
use restaurante_so.History.Rows.{History}
use restaurante_so.History.Reached.{status_follows_place}
use restaurante_so.Logging.File.{Disk, FileCalls, logged, exit_failure, save_state_file}
use restaurante_so.Logging.File.Kept.{shown, kept, RestKept, write_log, log_in_file}
use restaurante_so.History.Log.{log_tells, log_reads_back, lines, read_rows, rows_of, Aligned}

abbrev pair : Config
pair = record { n_groups = 2; start_time = λ _. pos 0; eat_time = λ _. pos 0 }

-- Group 0 has its table, and group 1 has asked for one.
abbrev seated : Run pair
seated =
    run pair
      (times 10 (group 0) (times 20 receptionist (times 10 (group 0) (times 6 (group 1) []))))

seated_statuses :
    (seated.last.shared.f_st.st.group_stat 0 ≡ 3) × (seated.last.shared.f_st.st.group_stat 1 ≡ 2)
unfolding run
seated_statuses = (refl, refl)

status_follows_place_example :
    seated.last.shared.f_st.st.group_stat 1 ≡ group_status (seated.last.groups 1)
status_follows_place_example = status_follows_place seated.reach 1 (omega arith)

log_tells_example :
    (last : FullStat) × History pair last seated.last.shared.log
    × (last.st ≡ seated.last.shared.f_st.st)
log_tells_example = log_tells seated.reach

log_reads_back_example :
    (fs : List FullStat) × (seated.last.shared.log ≡ create_log (initial_status pair) ++ lines fs)
    × All (Aligned 2) fs
    × (read_rows 2 (length fs) (lines fs) ≡ (rows_of fs, []))
log_reads_back_example = log_reads_back seated.reach (omega arith)

abbrev row_state : FullStat
row_state = record (initial_status pair) { groups_waiting = 1 }

row_state-Fits : Fits row_state
unfolding initial_status
row_state-Fits = record {
  chef = omega arith;
  waiter = omega arith;
  receptionist = omega arith;
  groups = λ g lt. omega arith;
  waiting = omega arith;
  tables = λ g lt t e. ground (arith, e);
}

read_row-state_line_example :
    read_row row_state.n_groups (state_line row_state ++ []) ≡ (row_of row_state, [])
read_row-state_line_example = read_row-state_line row_state [] row_state-Fits

-- The file "log" has an old text, and nothing was written to the standard output but "o".
abbrev calls : FileCalls
calls = record { fopen = λ mode name d. true; fclose = λ name d. true }

abbrev old_disk : Disk
old_disk = record { out = b'o' ∷ []; files = λ name. some (b'x' ∷ []) }

abbrev log_name : Option (List ℕ)
log_name = some (b'l' ∷ b'o' ∷ b'g' ∷ [])

log_in_file_example :
    (fs : List FullStat) × (e : Disk) × (seated.last.shared.log
      ≡ create_log (initial_status pair) ++ lines fs)
    × (write_log calls log_name (initial_status pair) fs old_disk ≡ logged e)
    × (shown log_name e ≡ some (kept log_name old_disk ++ seated.last.shared.log))
    × RestKept log_name old_disk e
log_in_file_example =
    log_in_file seated.reach (omega arith) calls
      (record { opens = λ mode name d. refl; closes = λ name d. refl }) log_name old_disk

-- A log that cannot be opened ends the process that writes to it.
failed_open :
    save_state_file (record calls { fopen = λ mode name d. false }) log_name row_state old_disk
    ≡ exit_failure
unfolding save_state_file
failed_open = refl
