-- ===== src/Chef/ProcessOrder.antt =====
-- `processOrder` of src/semSharedMemChef.c.
use restaurante_so.Prelude.{ℕ}
use restaurante_so.Problem.{food_ready, wait_for_order, set_chef_stat}
use restaurante_so.Semaphore.{
  Shared, Outcome, next, Call, inside, done, save_state, sem_down, sem_up, mutex, waiter_request,
  waiter_request_possible,
}

-- How long the chef cooks is left open.
pub data ProcessOrderPc : Type 0 where
  cooking await_waiter enter write exit signal : ProcessOrderPc

unfoldable pub process_order_write : ℕ → Shared → Shared
process_order_write g sh =
    let a = record sh {
      f_st = record (sh.f_st) { waiter_request = record { req_type = food_ready; req_group = g } };
    } in
    save_state (record a { f_st = set_chef_stat a.f_st wait_for_order })

unfoldable pub process_order_step :
    ProcessOrderPc → ℕ → Shared → Outcome (Call ProcessOrderPc (Unit {0}))
unfolding sem_down sem_up process_order_write
process_order_step cooking g sh = next sh (inside await_waiter)
process_order_step await_waiter g sh = sem_down waiter_request_possible sh (inside enter)
process_order_step enter g sh = sem_down mutex sh (inside write)
process_order_step write g sh = next (process_order_write g sh) (inside exit)
process_order_step exit g sh = sem_up mutex sh (inside signal)
process_order_step signal g sh = sem_up waiter_request sh done
