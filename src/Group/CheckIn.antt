-- ===== src/Group/CheckIn.antt =====
-- `checkInAtReception` of src/semSharedMemGroup.c.
use restaurante_so.Prelude.{ℕ}
use restaurante_so.Problem.{table_req, at_reception, set_group_stat}
use restaurante_so.Semaphore.{
  Shared, Outcome, next, Call, inside, done, save_state, sem_down, sem_up, mutex, receptionist_req,
  receptionist_request_possible, wait_for_table,
}

pub data CheckInPc : Type 0 where
  await_receptionist enter write signal exit await_table : CheckInPc

-- The critical section: the new state is saved, then the request is left for the receptionist.
unfoldable pub check_in_write : ℕ → Shared → Shared
check_in_write g sh =
    let a = save_state (record sh { f_st = set_group_stat sh.f_st g at_reception }) in
    record a {
      f_st = record (a.f_st) {
        receptionist_request = record { req_type = table_req; req_group = g };
      };
    }

unfoldable pub check_in_step : ℕ → CheckInPc → Shared → Outcome (Call CheckInPc (Unit {0}))
unfolding sem_down sem_up check_in_write
check_in_step g await_receptionist sh = sem_down receptionist_request_possible sh (inside enter)
check_in_step g enter sh = sem_down mutex sh (inside write)
check_in_step g write sh = next (check_in_write g sh) (inside signal)
check_in_step g signal sh = sem_up receptionist_req sh (inside exit)
check_in_step g exit sh = sem_up mutex sh (inside await_table)
check_in_step g await_table sh = sem_down (wait_for_table g) sh done
