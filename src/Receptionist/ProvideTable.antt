-- ===== src/Receptionist/ProvideTable.antt =====
-- `provideTableOrWaitingRoom` of src/semSharedMemReceptionist.c.
use restaurante_so.Prelude.{ℕ, ◌+◌, Option, none, some, ◌&&◌, ltb, update, if◌then◌else◌}
use restaurante_so.Problem.{max_groups, assign_table, set_receptionist_stat}
use restaurante_so.Semaphore.{
  Shared, Outcome, next, fault, Call, inside, done, save_state, sem_down, sem_up, mutex,
  wait_for_table,
}
use restaurante_so.Receptionist.Seating.{wait, at_table, decide_table_or_wait}

pub data ProvideTablePc : Type 0 where
  enter write signal exit : ProvideTablePc

-- A step of the function also gives the new `groupRecord`.
abbrev pub ProvideCall : Type 0
ProvideCall = Call ProvideTablePc (Unit {0}) × (ℕ → ℕ)

-- The group waits, or is seated at the table that was decided.
unfoldable pub seat_or_wait : ℕ → Option ℕ → (ℕ → ℕ) → Shared → Outcome ProvideCall
seat_or_wait g none groups sh =
    next (record sh { f_st = record (sh.f_st) { groups_waiting = sh.f_st.groups_waiting + 1 } })
      (inside exit, update groups g wait)
seat_or_wait g (some t) groups sh =
    next
      (record sh {
        f_st = record (sh.f_st) { assigned_table = update sh.f_st.assigned_table g (some t) };
      })
      (inside signal, update groups g at_table)

-- The critical section up to `semUp (waitForTable)`. An index outside of `groupRecord` and a failed
-- `assert (groupRecord[group_id] < 2)` are faults.
unfoldable pub provide_table_write : ℕ → (ℕ → ℕ) → Shared → Outcome ProvideCall
unfolding seat_or_wait decide_table_or_wait
provide_table_write g groups sh =
    let a = save_state (record sh { f_st = set_receptionist_stat sh.f_st assign_table }) in
    if ltb g max_groups && ltb (groups g) 2
    then seat_or_wait g (decide_table_or_wait a.f_st) groups a
    else fault

unfoldable pub provide_table_step : ℕ → ProvideTablePc → (ℕ → ℕ) → Shared → Outcome ProvideCall
unfolding sem_down sem_up provide_table_write
provide_table_step g enter groups sh = sem_down mutex sh (inside write, groups)
provide_table_step g write groups sh = provide_table_write g groups sh
provide_table_step g signal groups sh = sem_up (wait_for_table g) sh (inside exit, groups)
provide_table_step g exit groups sh = sem_up mutex sh (done, groups)
