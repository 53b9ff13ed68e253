-- ===== src/Group/WaitFood.antt =====
-- `waitFood` of src/semSharedMemGroup.c.
use restaurante_so.Prelude.{ℕ, Option}
use restaurante_so.Problem.{wait_for_food, eating, set_group_stat}
use restaurante_so.Semaphore.{
  Shared, Outcome, next, Call, inside, done, save_state, sem_down, sem_up, table_down, mutex,
  food_arrived,
}

pub data WaitFoodPc : Type 0 where
  enter write : WaitFoodPc
  exit : Option ℕ → WaitFoodPc
  await_food : Option ℕ → WaitFoodPc
  enter_again write_again exit_again : WaitFoodPc

unfoldable pub wait_food_write : ℕ → Shared → Shared
wait_food_write g sh = save_state (record sh { f_st = set_group_stat sh.f_st g wait_for_food })

unfoldable pub wait_food_eat : ℕ → Shared → Shared
wait_food_eat g sh = save_state (record sh { f_st = set_group_stat sh.f_st g eating })

unfoldable pub wait_food_step : ℕ → WaitFoodPc → Shared → Outcome (Call WaitFoodPc (Unit {0}))
unfolding sem_down sem_up table_down wait_food_write wait_food_eat
wait_food_step g enter sh = sem_down mutex sh (inside write)
wait_food_step g write sh = next (wait_food_write g sh) (inside (exit (sh.f_st.assigned_table g)))
wait_food_step g (exit t) sh = sem_up mutex sh (inside (await_food t))
wait_food_step g (await_food t) sh = table_down food_arrived t sh (inside enter_again)
wait_food_step g enter_again sh = sem_down mutex sh (inside write_again)
wait_food_step g write_again sh = next (wait_food_eat g sh) (inside exit_again)
wait_food_step g exit_again sh = sem_up mutex sh done
