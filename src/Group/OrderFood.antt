-- ===== src/Group/OrderFood.antt =====
-- `orderFood` of src/semSharedMemGroup.c.
use restaurante_so.Prelude.{ℕ, Option}
use restaurante_so.Problem.{food_req, food_request, set_group_stat}
use restaurante_so.Semaphore.{
  Shared, Outcome, next, Call, inside, done, save_state, sem_down, sem_up, table_down, mutex,
  waiter_request, waiter_request_possible, request_received,
}

-- The local `table_id` is carried by the places after its reading.
pub data OrderFoodPc : Type 0 where
  await_waiter enter write signal order : OrderFoodPc
  exit : Option ℕ → OrderFoodPc
  await_receipt : Option ℕ → OrderFoodPc

unfoldable pub order_food_write : ℕ → Shared → Shared
order_food_write g sh = record sh {
  f_st = record (sh.f_st) { waiter_request = record { req_type = food_req; req_group = g } };
}

unfoldable pub order_food_order : ℕ → Shared → Shared
order_food_order g sh = save_state (record sh { f_st = set_group_stat sh.f_st g food_request })

unfoldable pub order_food_step : ℕ → OrderFoodPc → Shared → Outcome (Call OrderFoodPc (Unit {0}))
unfolding sem_down sem_up table_down order_food_write order_food_order
order_food_step g await_waiter sh = sem_down waiter_request_possible sh (inside enter)
order_food_step g enter sh = sem_down mutex sh (inside write)
order_food_step g write sh = next (order_food_write g sh) (inside signal)
order_food_step g signal sh = sem_up waiter_request sh (inside order)
order_food_step g order sh = next (order_food_order g sh) (inside (exit (sh.f_st.assigned_table g)))
order_food_step g (exit t) sh = sem_up mutex sh (inside (await_receipt t))
order_food_step g (await_receipt t) sh = table_down request_received t sh done
