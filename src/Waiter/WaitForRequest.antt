-- ===== src/Waiter/WaitForRequest.antt =====
-- `waitForClientOrChef` of src/semSharedMemWaiter.c.
use restaurante_so.Problem.{Request, wait_for_request, set_waiter_stat}
use restaurante_so.Semaphore.{
  Shared, Outcome, next, Call, inside, returned, save_state, sem_down, sem_up, mutex,
  waiter_request, waiter_request_possible,
}

-- The local `req` is carried by the places after its reading.
pub data WaitForRequestPc : Type 0 where
  enter write exit await_request enter_again read : WaitForRequestPc
  exit_again : Request → WaitForRequestPc
  signal_possible : Request → WaitForRequestPc

unfoldable pub wait_for_request_write : Shared → Shared
wait_for_request_write sh =
    save_state (record sh { f_st = set_waiter_stat sh.f_st wait_for_request })

unfoldable pub wait_for_request_step :
    WaitForRequestPc → Shared → Outcome (Call WaitForRequestPc Request)
unfolding sem_down sem_up wait_for_request_write
wait_for_request_step enter sh = sem_down mutex sh (inside write)
wait_for_request_step write sh = next (wait_for_request_write sh) (inside exit)
wait_for_request_step exit sh = sem_up mutex sh (inside await_request)
wait_for_request_step await_request sh = sem_down waiter_request sh (inside enter_again)
wait_for_request_step enter_again sh = sem_down mutex sh (inside read)
wait_for_request_step read sh = next sh (inside (exit_again sh.f_st.waiter_request))
wait_for_request_step (exit_again req) sh = sem_up mutex sh (inside (signal_possible req))
wait_for_request_step (signal_possible req) sh = sem_up waiter_request_possible sh (returned req)
