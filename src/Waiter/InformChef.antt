-- ===== src/Waiter/InformChef.antt =====
-- `informChef` of src/semSharedMemWaiter.c.
use restaurante_so.Prelude.{ℕ, Option, ltb, if◌then◌else◌}
use restaurante_so.Problem.{max_groups, inform_chef, set_waiter_stat}
use restaurante_so.Semaphore.{
  Shared, Outcome, next, fault, Call, inside, done, save_state, sem_down, sem_up, table_up, mutex,
  wait_order, order_received, request_received,
}

pub data InformChefPc : Type 0 where
  enter write : InformChefPc
  exit : Option ℕ → InformChefPc
  signal_received : Option ℕ → InformChefPc
  signal_order await_chef : InformChefPc

unfoldable pub inform_chef_write : ℕ → Shared → Shared
inform_chef_write g sh =
    let a = save_state (record sh { f_st = set_waiter_stat sh.f_st inform_chef }) in
    record a { f_st = record (a.f_st) { food_order = 1; food_group = g } }

-- Reading `assignedTable` from `max_groups` on is outside of the array.
unfoldable pub inform_chef_step : ℕ → InformChefPc → Shared → Outcome (Call InformChefPc (Unit {0}))
unfolding sem_down sem_up table_up inform_chef_write
inform_chef_step g enter sh = sem_down mutex sh (inside write)
inform_chef_step g write sh =
    if ltb g max_groups
    then next (inform_chef_write g sh) (inside (exit (sh.f_st.assigned_table g)))
    else fault
inform_chef_step g (exit t) sh = sem_up mutex sh (inside (signal_received t))
inform_chef_step g (signal_received t) sh = table_up request_received t sh (inside signal_order)
inform_chef_step g signal_order sh = sem_up wait_order sh (inside await_chef)
inform_chef_step g await_chef sh = sem_down order_received sh done
