-- ===== src/Receptionist/WaitForGroup.antt =====
-- `waitForGroup` of src/semSharedMemReceptionist.c.
use restaurante_so.Problem.{Request, wait_for_request, set_receptionist_stat}
use restaurante_so.Semaphore.{
  Shared, Outcome, next, Call, inside, returned, save_state, sem_down, sem_up, mutex,
  receptionist_req, receptionist_request_possible,
}

-- The local `ret` is carried by the places after its reading.
pub data WaitForGroupPc : Type 0 where
  enter write exit await_request enter_again read : WaitForGroupPc
  exit_again : Request → WaitForGroupPc
  signal_possible : Request → WaitForGroupPc

unfoldable pub wait_for_group_write : Shared → Shared
wait_for_group_write sh =
    save_state (record sh { f_st = set_receptionist_stat sh.f_st wait_for_request })

unfoldable pub wait_for_group_step : WaitForGroupPc → Shared → Outcome (Call WaitForGroupPc Request)
unfolding sem_down sem_up wait_for_group_write
wait_for_group_step enter sh = sem_down mutex sh (inside write)
wait_for_group_step write sh = next (wait_for_group_write sh) (inside exit)
wait_for_group_step exit sh = sem_up mutex sh (inside await_request)
wait_for_group_step await_request sh = sem_down receptionist_req sh (inside enter_again)
wait_for_group_step enter_again sh = sem_down mutex sh (inside read)
wait_for_group_step read sh = next sh (inside (exit_again sh.f_st.receptionist_request))
wait_for_group_step (exit_again ret) sh = sem_up mutex sh (inside (signal_possible ret))
wait_for_group_step (signal_possible ret) sh =
    sem_up receptionist_request_possible sh (returned ret)
