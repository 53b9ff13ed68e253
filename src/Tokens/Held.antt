-- ===== src/Tokens/Held.antt =====
-- Where a process holds a unit of a semaphore. A unit of `mutex` is held in the critical section.
-- The slot for a request to the receptionist is `receptionist_request_possible` or, when a request
-- is signalled, `receptionist_req`; between these it is held. So too the waiter's slot, and the
-- order of the waiter for the chef.
use restaurante_so.Prelude.{ℕ}
use restaurante_so.Group.{
  GroupPc, checking_in, ordering, awaiting_food, checking_out, CheckInPc, OrderFoodPc, WaitFoodPc,
  CheckOutPc,
}
use restaurante_so.Receptionist.{
  ReceptionistPc, waiting_for_group, providing, receiving, WaitForGroupPc, ProvideTablePc,
  ReceivePaymentPc,
}
use restaurante_so.Waiter.{
  WaiterPc, waiting_for_request, informing, taking, WaitForRequestPc, InformChefPc, TakeFoodPc,
}
use restaurante_so.Chef.{ChefPc, waiting_for_order, processing, WaitForOrderPc, ProcessOrderPc}

-- 1 inside of the critical section, 0 elsewhere
abbrev pub group_region : GroupPc → ℕ
group_region (checking_in CheckInPc.write) = 1
group_region (checking_in CheckInPc.signal) = 1
group_region (checking_in CheckInPc.exit) = 1
group_region (ordering OrderFoodPc.write) = 1
group_region (ordering OrderFoodPc.signal) = 1
group_region (ordering OrderFoodPc.order) = 1
group_region (ordering (OrderFoodPc.exit _)) = 1
group_region (awaiting_food WaitFoodPc.write) = 1
group_region (awaiting_food (WaitFoodPc.exit _)) = 1
group_region (awaiting_food WaitFoodPc.write_again) = 1
group_region (awaiting_food WaitFoodPc.exit_again) = 1
group_region (checking_out CheckOutPc.write) = 1
group_region (checking_out (CheckOutPc.signal _)) = 1
group_region (checking_out (CheckOutPc.exit _)) = 1
group_region (checking_out CheckOutPc.write_again) = 1
group_region (checking_out CheckOutPc.exit_again) = 1
group_region _ = 0

-- 1 from the down of `receptionist_request_possible` to the up of `receptionist_req`
abbrev pub group_reception : GroupPc → ℕ
group_reception (checking_in CheckInPc.enter) = 1
group_reception (checking_in CheckInPc.write) = 1
group_reception (checking_in CheckInPc.signal) = 1
group_reception (checking_out CheckOutPc.enter) = 1
group_reception (checking_out CheckOutPc.write) = 1
group_reception (checking_out (CheckOutPc.signal _)) = 1
group_reception _ = 0

-- 1 from the down of `waiter_request_possible` to the up of `waiter_request`
abbrev pub group_service : GroupPc → ℕ
group_service (ordering OrderFoodPc.enter) = 1
group_service (ordering OrderFoodPc.write) = 1
group_service (ordering OrderFoodPc.signal) = 1
group_service _ = 0

abbrev pub receptionist_region : ReceptionistPc → ℕ
receptionist_region (waiting_for_group WaitForGroupPc.write) = 1
receptionist_region (waiting_for_group WaitForGroupPc.exit) = 1
receptionist_region (waiting_for_group WaitForGroupPc.read) = 1
receptionist_region (waiting_for_group (WaitForGroupPc.exit_again _)) = 1
receptionist_region (providing _ ProvideTablePc.write) = 1
receptionist_region (providing _ ProvideTablePc.signal) = 1
receptionist_region (providing _ ProvideTablePc.exit) = 1
receptionist_region (receiving _ ReceivePaymentPc.write) = 1
receptionist_region (receiving _ (ReceivePaymentPc.signal_next _ _)) = 1
receptionist_region (receiving _ (ReceivePaymentPc.hand_over _ _)) = 1
receptionist_region (receiving _ (ReceivePaymentPc.exit _)) = 1
receptionist_region _ = 0

-- 1 from the down of `receptionist_req` to the up of `receptionist_request_possible`
abbrev pub receptionist_reception : ReceptionistPc → ℕ
receptionist_reception (waiting_for_group WaitForGroupPc.enter_again) = 1
receptionist_reception (waiting_for_group WaitForGroupPc.read) = 1
receptionist_reception (waiting_for_group (WaitForGroupPc.exit_again _)) = 1
receptionist_reception (waiting_for_group (WaitForGroupPc.signal_possible _)) = 1
receptionist_reception _ = 0

abbrev pub waiter_region : WaiterPc → ℕ
waiter_region (waiting_for_request WaitForRequestPc.write) = 1
waiter_region (waiting_for_request WaitForRequestPc.exit) = 1
waiter_region (waiting_for_request WaitForRequestPc.read) = 1
waiter_region (waiting_for_request (WaitForRequestPc.exit_again _)) = 1
waiter_region (informing _ InformChefPc.write) = 1
waiter_region (informing _ (InformChefPc.exit _)) = 1
waiter_region (taking _ TakeFoodPc.write) = 1
waiter_region (taking _ (TakeFoodPc.signal_food _)) = 1
waiter_region (taking _ TakeFoodPc.exit) = 1
waiter_region _ = 0

-- 1 from the down of `waiter_request` to the up of `waiter_request_possible`
abbrev pub waiter_service : WaiterPc → ℕ
waiter_service (waiting_for_request WaitForRequestPc.enter_again) = 1
waiter_service (waiting_for_request WaitForRequestPc.read) = 1
waiter_service (waiting_for_request (WaitForRequestPc.exit_again _)) = 1
waiter_service (waiting_for_request (WaitForRequestPc.signal_possible _)) = 1
waiter_service _ = 0

-- 1 from the up of `wait_order` to the down of `order_received`
abbrev pub waiter_order : WaiterPc → ℕ
waiter_order (informing _ InformChefPc.await_chef) = 1
waiter_order _ = 0

abbrev pub chef_region : ChefPc → ℕ
chef_region (waiting_for_order WaitForOrderPc.write) = 1
chef_region (waiting_for_order WaitForOrderPc.exit) = 1
chef_region (processing ProcessOrderPc.write) = 1
chef_region (processing ProcessOrderPc.exit) = 1
chef_region _ = 0

-- 1 from the down of `waiter_request_possible` to the up of `waiter_request`
abbrev pub chef_service : ChefPc → ℕ
chef_service (processing ProcessOrderPc.enter) = 1
chef_service (processing ProcessOrderPc.write) = 1
chef_service (processing ProcessOrderPc.exit) = 1
chef_service (processing ProcessOrderPc.signal) = 1
chef_service _ = 0

-- 1 from the down of `wait_order` to the up of `order_received`
abbrev pub chef_order : ChefPc → ℕ
chef_order (waiting_for_order WaitForOrderPc.enter) = 1
chef_order (waiting_for_order WaitForOrderPc.write) = 1
chef_order (waiting_for_order WaitForOrderPc.exit) = 1
chef_order (waiting_for_order WaitForOrderPc.acknowledge) = 1
chef_order _ = 0

-- What a process holds, as four numbers; `owed` is what it waits for.
pub record Held : Type 0 where
  pub region : ℕ
  pub reception : ℕ
  pub service : ℕ
  pub order : ℕ
  pub owed : ℕ

abbrev pub group_held : GroupPc → Held
group_held p = record {
  region = group_region p;
  reception = group_reception p;
  service = group_service p;
  order = 0;
  owed = 0;
}

abbrev pub receptionist_held : ReceptionistPc → Held
receptionist_held p = record {
  region = receptionist_region p;
  reception = receptionist_reception p;
  service = 0;
  order = 0;
  owed = 0;
}

abbrev pub waiter_held : WaiterPc → Held
waiter_held p = record {
  region = waiter_region p;
  reception = 0;
  service = waiter_service p;
  order = 0;
  owed = waiter_order p;
}

abbrev pub chef_held : ChefPc → Held
chef_held p = record {
  region = chef_region p;
  reception = 0;
  service = chef_service p;
  order = chef_order p;
  owed = 0;
}
