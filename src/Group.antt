-- ===== src/Group.antt =====
-- src/semSharedMemGroup.c: one group, a semaphore operation or a critical section at a time. Each
-- function of the file has its places and its step; `group_step` is `main`.
mod CheckIn
mod OrderFood
mod WaitFood
mod CheckOut
unfoldable pub use CheckIn.*
unfoldable pub use OrderFood.*
unfoldable pub use WaitFood.*
unfoldable pub use CheckOut.*
use restaurante_so.Prelude.{ℕ, leb, if◌then◌else◌}
use restaurante_so.Problem.{max_groups}
use restaurante_so.Semaphore.{Shared, Outcome, next, blocked, calling}

-- Where a group's `main` stands. Before `starting` comes only the connection to the shared memory.
pub data GroupPc : Type 0 where
  starting : GroupPc  -- the test of the group's number
  travelling : GroupPc  -- `goToRestaurant`
  checking_in : CheckInPc → GroupPc
  ordering : OrderFoodPc → GroupPc
  awaiting_food : WaitFoodPc → GroupPc
  dining : GroupPc  -- `eat`
  checking_out : CheckOutPc → GroupPc
  finished : GroupPc  -- EXIT_SUCCESS
  failed : GroupPc  -- EXIT_FAILURE

-- The life cycle. How long a group sleeps in `goToRestaurant` and in `eat` is left open.
unfoldable pub group_step : ℕ → GroupPc → Shared → Outcome GroupPc
unfolding calling check_in_step order_food_step wait_food_step check_out_step
group_step g starting sh = next sh (if leb max_groups g then failed else travelling)
group_step g travelling sh = next sh (checking_in CheckInPc.await_receptionist)
group_step g (checking_in p) sh =
    calling checking_in (λ _. ordering OrderFoodPc.await_waiter) (check_in_step g p sh)
group_step g (ordering p) sh =
    calling ordering (λ _. awaiting_food WaitFoodPc.enter) (order_food_step g p sh)
group_step g (awaiting_food p) sh = calling awaiting_food (λ _. dining) (wait_food_step g p sh)
group_step g dining sh = next sh (checking_out CheckOutPc.await_receptionist)
group_step g (checking_out p) sh = calling checking_out (λ _. finished) (check_out_step g p sh)
group_step g finished sh = blocked
group_step g failed sh = blocked
