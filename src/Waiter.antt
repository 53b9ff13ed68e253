-- ===== src/Waiter.antt =====
-- src/semSharedMemWaiter.c: the waiter, a semaphore operation or a critical section at a time.
-- `waiter_step` is the loop of `main`.
mod WaitForRequest
mod InformChef
mod TakeFood
unfoldable pub use WaitForRequest.*
unfoldable pub use InformChef.*
unfoldable pub use TakeFood.*
use restaurante_so.Prelude.{ℕ, ◌+◌, ◌*◌, ltb, ◌==◌, if◌then◌else◌}
use restaurante_so.Problem.{Request, food_req, food_ready}
use restaurante_so.Semaphore.{Shared, Outcome, next, blocked, calling}

pub data WaiterPc : Type 0 where
  testing : WaiterPc  -- the test of the `while`
  waiting_for_request : WaitForRequestPc → WaiterPc
  informing : ℕ → InformChefPc → WaiterPc
  taking : ℕ → TakeFoodPc → WaiterPc
  finished : WaiterPc

-- The process: its place and `nReq`.
pub record Waiter : Type 0 where
  pub pc : WaiterPc
  pub n_req : ℕ

-- The `switch` on the request; a request of another type is only counted.
unfoldable pub waiter_dispatch : Request → Waiter → Waiter
waiter_dispatch req w =
    if req.req_type == food_req
    then record w { pc = informing req.req_group InformChefPc.enter }
    else if req.req_type == food_ready
    then record w { pc = taking req.req_group TakeFoodPc.enter }
    else record { pc = testing; n_req = w.n_req + 1 }

-- `nReq++` after the return of a handler.
abbrev waiter_counted : Waiter → Waiter
waiter_counted w = record { pc = testing; n_req = w.n_req + 1 }

unfoldable pub waiter_at : WaiterPc → Waiter → Shared → Outcome Waiter
unfolding calling waiter_dispatch wait_for_request_step inform_chef_step take_food_step
waiter_at testing w sh = next sh (record w {
  pc =
      if ltb w.n_req (sh.f_st.n_groups * 2)
      then waiting_for_request WaitForRequestPc.enter
      else finished;
})
waiter_at (waiting_for_request p) w sh =
    calling (λ q. record w { pc = waiting_for_request q }) (λ req. waiter_dispatch req w)
      (wait_for_request_step p sh)
waiter_at (informing g p) w sh =
    calling (λ q. record w { pc = informing g q }) (λ _. waiter_counted w) (inform_chef_step g p sh)
waiter_at (taking g p) w sh =
    calling (λ q. record w { pc = taking g q }) (λ _. waiter_counted w) (take_food_step g p sh)
waiter_at finished w sh = blocked

unfoldable pub waiter_step : Waiter → Shared → Outcome Waiter
unfolding waiter_at
waiter_step w sh = waiter_at w.pc w sh
