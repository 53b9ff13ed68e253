-- ===== src/SemLayout.antt =====
-- The numbers of the semaphores in the set: the macros of src/sharedDataSync.h, as `main` of
-- src/probSemSharedMemRestaurant.c stores them, and the operations of src/semaphore.c on the set.
pub mod Refines
use restaurante_so.Prelude.{ℕ, ◌+◌, ◌-◌, ◌*◌, Option, none, some, update, ◌==◌, if◌then◌else◌}
use restaurante_so.Problem.{num_tables}
use restaurante_so.Semaphore.{
  Sem, mutex, receptionist_req, receptionist_request_possible, waiter_request,
  waiter_request_possible, wait_order, order_received, wait_for_table, food_arrived,
  request_received, table_done,
}

-- `SEM_NU`, `FOODARRIVED`, `REQUESTRECEIVED` and `TABLEDONE` with `n` groups
unfoldable pub sem_nu : ℕ → ℕ
sem_nu n = 7 + n + 3 * num_tables

unfoldable pub food_arrived_base : ℕ → ℕ
food_arrived_base n = 8 + n

unfoldable pub request_received_base : ℕ → ℕ
unfolding food_arrived_base
request_received_base n = food_arrived_base n + num_tables

unfoldable pub table_done_base : ℕ → ℕ
unfolding request_received_base
table_done_base n = request_received_base n + num_tables

unfoldable pub sem_id : ℕ → Sem → ℕ
unfolding food_arrived_base request_received_base table_done_base
sem_id n mutex = 1
sem_id n receptionist_req = 2
sem_id n receptionist_request_possible = 3
sem_id n waiter_request = 4
sem_id n waiter_request_possible = 5
sem_id n wait_order = 6
sem_id n order_received = 7
sem_id n (wait_for_table g) = 8 + g
sem_id n (food_arrived t) = food_arrived_base n + t
sem_id n (request_received t) = request_received_base n + t
sem_id n (table_done t) = table_done_base n + t

-- `semDown` and `semUp` on the values of a set: `none` where `semop` waits.
unfoldable pub down_at : ℕ → (ℕ → ℕ) → Option (ℕ → ℕ)
down_at i values = if values i == 0 then none else some (update values i (values i - 1))

unfoldable pub up_at : ℕ → (ℕ → ℕ) → ℕ → ℕ
up_at i values = update values i (values i + 1)
