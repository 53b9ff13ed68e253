-- ===== src/Chef/WaitForOrder.antt =====
-- `waitForOrder` of src/semSharedMemChef.c.
use restaurante_so.Prelude.{ℕ}
use restaurante_so.Problem.{cook, set_chef_stat}
use restaurante_so.Semaphore.{
  Shared, Outcome, next, Call, inside, done, save_state, sem_down, sem_up, mutex, wait_order,
  order_received,
}

pub data WaitForOrderPc : Type 0 where
  await_order enter write exit acknowledge : WaitForOrderPc

unfoldable pub wait_for_order_write : Shared → Shared
wait_for_order_write sh =
    let a = record sh { f_st = record (sh.f_st) { food_order = 0 } } in
    save_state (record a { f_st = set_chef_stat a.f_st cook })

-- The second argument is `lastGroup`, which the critical section sets.
unfoldable pub wait_for_order_step :
    WaitForOrderPc → ℕ → Shared → Outcome (Call WaitForOrderPc (Unit {0}) × ℕ)
unfolding sem_down sem_up wait_for_order_write
wait_for_order_step await_order g sh = sem_down wait_order sh (inside enter, g)
wait_for_order_step enter g sh = sem_down mutex sh (inside write, g)
wait_for_order_step write g sh = next (wait_for_order_write sh) (inside exit, sh.f_st.food_group)
wait_for_order_step exit g sh = sem_up mutex sh (inside acknowledge, g)
wait_for_order_step acknowledge g sh = sem_up order_received sh (done, g)
