-- ===== src/Waiter/TakeFood.antt =====
-- `takeFoodToTable` of src/semSharedMemWaiter.c.
use restaurante_so.Prelude.{ℕ, Option, ltb, if◌then◌else◌}
use restaurante_so.Problem.{max_groups, take_to_table, set_waiter_stat}
use restaurante_so.Semaphore.{
  Shared, Outcome, next, fault, Call, inside, done, save_state, sem_down, sem_up, table_up, mutex,
  food_arrived,
}

pub data TakeFoodPc : Type 0 where
  enter write : TakeFoodPc
  signal_food : Option ℕ → TakeFoodPc
  exit : TakeFoodPc

unfoldable pub take_food_write : Shared → Shared
take_food_write sh = save_state (record sh { f_st = set_waiter_stat sh.f_st take_to_table })

unfoldable pub take_food_step : ℕ → TakeFoodPc → Shared → Outcome (Call TakeFoodPc (Unit {0}))
unfolding sem_down sem_up table_up take_food_write
take_food_step g enter sh = sem_down mutex sh (inside write)
take_food_step g write sh =
    if ltb g max_groups
    then next (take_food_write sh) (inside (signal_food (sh.f_st.assigned_table g)))
    else fault
take_food_step g (signal_food t) sh = table_up food_arrived t sh (inside exit)
take_food_step g exit sh = sem_up mutex sh done
