-- ===== src/Group/CheckOut.antt =====
-- `checkOutAtReception` of src/semSharedMemGroup.c.
use restaurante_so.Prelude.{ℕ, Option}
use restaurante_so.Problem.{bill_req, checkout, leaving, set_group_stat}
use restaurante_so.Semaphore.{
  Shared, Outcome, next, Call, inside, done, save_state, sem_down, sem_up, table_down, mutex,
  receptionist_req, receptionist_request_possible, table_done,
}

pub data CheckOutPc : Type 0 where
  await_receptionist enter write : CheckOutPc
  signal : Option ℕ → CheckOutPc
  exit : Option ℕ → CheckOutPc
  await_payment : Option ℕ → CheckOutPc
  enter_again write_again exit_again : CheckOutPc

unfoldable pub check_out_write : ℕ → Shared → Shared
check_out_write g sh =
    let a = save_state (record sh { f_st = set_group_stat sh.f_st g checkout }) in
    record a {
      f_st = record (a.f_st) {
        receptionist_request = record { req_type = bill_req; req_group = g };
      };
    }

unfoldable pub check_out_leave : ℕ → Shared → Shared
check_out_leave g sh = save_state (record sh { f_st = set_group_stat sh.f_st g leaving })

unfoldable pub check_out_step : ℕ → CheckOutPc → Shared → Outcome (Call CheckOutPc (Unit {0}))
unfolding sem_down sem_up table_down check_out_write check_out_leave
check_out_step g await_receptionist sh = sem_down receptionist_request_possible sh (inside enter)
check_out_step g enter sh = sem_down mutex sh (inside write)
check_out_step g write sh = next (check_out_write g sh) (inside (signal (sh.f_st.assigned_table g)))
check_out_step g (signal t) sh = sem_up receptionist_req sh (inside (exit t))
check_out_step g (exit t) sh = sem_up mutex sh (inside (await_payment t))
check_out_step g (await_payment t) sh = table_down table_done t sh (inside enter_again)
check_out_step g enter_again sh = sem_down mutex sh (inside write_again)
check_out_step g write_again sh = next (check_out_leave g sh) (inside exit_again)
check_out_step g exit_again sh = sem_up mutex sh done
