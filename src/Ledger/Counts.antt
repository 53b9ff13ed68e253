-- ===== src/Ledger/Counts.antt =====
-- The requests that have been made, and those that are being handled, at each place.
use restaurante_so.Prelude.{ℕ, ◌+◌, ◌*◌, ◌≤◌, ◌<◌, ◌==◌, if◌then◌else◌}
use restaurante_so.Problem.{Request, food_req, max_groups}
use restaurante_so.Semaphore.{Shared, waiter_request}
use restaurante_so.Group.{
  GroupPc, starting, travelling, checking_in, ordering, awaiting_food, dining, checking_out, failed,
  CheckInPc, OrderFoodPc, CheckOutPc,
}
use restaurante_so.Receptionist.{
  ReceptionistPc, waiting_for_group, providing, receiving, WaitForGroupPc,
}
use restaurante_so.Waiter.{
  WaiterPc, waiting_for_request, informing, taking, WaitForRequestPc, InformChefPc,
}
use restaurante_so.Chef.{ChefPc, waiting_for_order, processing, WaitForOrderPc}
use restaurante_so.Service.View.{hearing}

-- The requests that a group has signalled to the receptionist.
abbrev pub desk_requests : GroupPc → ℕ
desk_requests starting = 0
desk_requests travelling = 0
desk_requests (checking_in CheckInPc.exit) = 1
desk_requests (checking_in CheckInPc.await_table) = 1
desk_requests (checking_in _) = 0
desk_requests (checking_out CheckOutPc.await_receptionist) = 1
desk_requests (checking_out CheckOutPc.enter) = 1
desk_requests (checking_out CheckOutPc.write) = 1
desk_requests (checking_out (CheckOutPc.signal _)) = 1
desk_requests (checking_out _) = 2
desk_requests GroupPc.finished = 2
desk_requests failed = 0
desk_requests _ = 1

-- 1 after a group has signalled its request for food to the waiter
abbrev pub food_requests : GroupPc → ℕ
food_requests (ordering OrderFoodPc.order) = 1
food_requests (ordering (OrderFoodPc.exit _)) = 1
food_requests (ordering (OrderFoodPc.await_receipt _)) = 1
food_requests (awaiting_food _) = 1
food_requests dining = 1
food_requests (checking_out _) = 1
food_requests GroupPc.finished = 1
food_requests _ = 0

-- 1 from the down of `receptionist_req` to `nReq++`
abbrev pub attending : ReceptionistPc → ℕ
attending (waiting_for_group WaitForGroupPc.enter_again) = 1
attending (waiting_for_group WaitForGroupPc.read) = 1
attending (waiting_for_group (WaitForGroupPc.exit_again _)) = 1
attending (waiting_for_group (WaitForGroupPc.signal_possible _)) = 1
attending (providing _ _) = 1
attending (receiving _ _) = 1
attending _ = 0

-- 1 from the down of `waiter_request` to `nReq++`
abbrev pub serving : WaiterPc → ℕ
serving (waiting_for_request WaitForRequestPc.enter_again) = 1
serving (waiting_for_request WaitForRequestPc.read) = 1
serving (waiting_for_request (WaitForRequestPc.exit_again _)) = 1
serving (waiting_for_request (WaitForRequestPc.signal_possible _)) = 1
serving (informing _ _) = 1
serving (taking _ _) = 1
serving _ = 0

-- 1 from the down of `wait_order` to `nOrders++`
abbrev pub cooking : ChefPc → ℕ
cooking (waiting_for_order WaitForOrderPc.await_order) = 0
cooking (waiting_for_order _) = 1
cooking (processing _) = 1
cooking _ = 0

abbrev pub is_food : Request → ℕ
is_food q = if q.req_type == food_req then 1 else 0

-- 1 if the waiter has a request for food that it has not passed on to the chef
abbrev pub has_food_req : WaiterPc → ℕ
has_food_req (waiting_for_request (WaitForRequestPc.exit_again q)) = is_food q
has_food_req (waiting_for_request (WaitForRequestPc.signal_possible q)) = is_food q
has_food_req (informing _ InformChefPc.await_chef) = 0
has_food_req (informing _ _) = 1
has_food_req _ = 0

-- The requests for food that the chef has not been told of.
abbrev pub untold : Shared → WaiterPc → ℕ
untold sh p =
    (if sh.sems waiter_request + hearing p == 0 then 0 else is_food sh.f_st.waiter_request)
    + has_food_req p

-- The tests of the loops, which are made again when a request has been counted.
abbrev pub ReceptionistLoops : ℕ → ReceptionistPc → ℕ → Type 0
ReceptionistLoops n ReceptionistPc.testing k = Unit
ReceptionistLoops n ReceptionistPc.finished k = n * 2 ≤ k
ReceptionistLoops n _ k = k < n * 2

abbrev pub WaiterLoops : ℕ → WaiterPc → ℕ → Type 0
WaiterLoops n WaiterPc.testing k = Unit
WaiterLoops n WaiterPc.finished k = n * 2 ≤ k
WaiterLoops n _ k = k < n * 2

abbrev pub ChefLoops : ℕ → ChefPc → ℕ → Type 0
ChefLoops n ChefPc.testing k = Unit
ChefLoops n ChefPc.finished k = n ≤ k
ChefLoops n _ k = k < n

-- Only a group whose number is too high fails.
abbrev pub GroupFails : ℕ → GroupPc → Type 0
GroupFails g failed = max_groups ≤ g
GroupFails g _ = Unit
