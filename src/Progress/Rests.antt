-- ===== src/Progress/Rests.antt =====
-- Where a process can wait for ever, and what it then waits for.
use restaurante_so.Prelude.{ℕ, ◌≡◌, none, some, arith}
use restaurante_so.Semaphore.{
  Shared, Outcome, blocked, mutex, receptionist_req, receptionist_request_possible, waiter_request,
  waiter_request_possible, wait_order, order_received, wait_for_table, food_arrived,
  request_received, table_done,
}
use restaurante_so.Group.{
  GroupPc, checking_in, ordering, awaiting_food, checking_out, failed, CheckInPc, OrderFoodPc,
  WaitFoodPc, CheckOutPc, group_step,
}
use restaurante_so.Receptionist.{
  Receptionist, ReceptionistPc, waiting_for_group, providing, receiving, WaitForGroupPc,
  ProvideTablePc, ReceivePaymentPc, receptionist_at,
}
use restaurante_so.Waiter.{
  Waiter, WaiterPc, waiting_for_request, informing, taking, WaitForRequestPc, InformChefPc,
  TakeFoodPc, waiter_at,
}
use restaurante_so.Chef.{
  Chef, ChefPc, waiting_for_order, processing, WaitForOrderPc, ProcessOrderPc, chef_at,
}
use restaurante_so.Tokens.{
  group_region, group_reception, group_service, receptionist_region, receptionist_reception,
  waiter_region, waiter_service, chef_region, chef_service, chef_order,
}

-- The process waits in `semop`, or has ended.
abbrev pub Waits : {P : Type 0} → Outcome P → Type 0
Waits blocked = Unit
Waits _ = ⊥

-- What a group waits for, `mutex` apart; no place of a critical section is here.
abbrev pub GroupRests : ℕ → Shared → GroupPc → Type 0
GroupRests g sh (checking_in CheckInPc.await_receptionist) =
    sh.sems receptionist_request_possible ≡ 0
GroupRests g sh (checking_in CheckInPc.await_table) = sh.sems (wait_for_table g) ≡ 0
GroupRests g sh (ordering OrderFoodPc.await_waiter) = sh.sems waiter_request_possible ≡ 0
GroupRests g sh (ordering (OrderFoodPc.await_receipt (some t))) = sh.sems (request_received t) ≡ 0
GroupRests g sh (awaiting_food (WaitFoodPc.await_food (some t))) = sh.sems (food_arrived t) ≡ 0
GroupRests g sh (checking_out CheckOutPc.await_receptionist) =
    sh.sems receptionist_request_possible ≡ 0
GroupRests g sh (checking_out (CheckOutPc.await_payment (some t))) = sh.sems (table_done t) ≡ 0
GroupRests g sh GroupPc.finished = Unit
GroupRests g sh failed = Unit
GroupRests g sh _ = ⊥

abbrev pub DeskRests : Shared → ReceptionistPc → Type 0
DeskRests sh (waiting_for_group WaitForGroupPc.await_request) = sh.sems receptionist_req ≡ 0
DeskRests sh ReceptionistPc.finished = Unit
DeskRests sh _ = ⊥

abbrev pub WaiterRests : Shared → WaiterPc → Type 0
WaiterRests sh (waiting_for_request WaitForRequestPc.await_request) = sh.sems waiter_request ≡ 0
WaiterRests sh (informing _ InformChefPc.await_chef) = sh.sems order_received ≡ 0
WaiterRests sh WaiterPc.finished = Unit
WaiterRests sh _ = ⊥

abbrev pub ChefRests : Shared → ChefPc → Type 0
ChefRests sh (waiting_for_order WaitForOrderPc.await_order) = sh.sems wait_order ≡ 0
ChefRests sh (processing ProcessOrderPc.await_waiter) = sh.sems waiter_request_possible ≡ 0
ChefRests sh ChefPc.finished = Unit
ChefRests sh _ = ⊥

-- A process that waits is in no critical section.
module _ (g : ℕ) (sh : Shared) where
  pub group-Waits_outside : (p : GroupPc) → Waits (group_step g p sh) → group_region p ≡ 0
  unfolding group_step
  group-Waits_outside (checking_in CheckInPc.enter) w = ground arith
  group-Waits_outside (checking_in _) w = ground arith
  group-Waits_outside (ordering OrderFoodPc.enter) w = ground arith
  group-Waits_outside (ordering _) w = ground arith
  group-Waits_outside (awaiting_food WaitFoodPc.enter) w = ground arith
  group-Waits_outside (awaiting_food _) w = ground arith
  group-Waits_outside (checking_out CheckOutPc.enter) w = ground arith
  group-Waits_outside (checking_out _) w = ground arith
  group-Waits_outside _ w = ground arith

  pub group_rests :
      (p : GroupPc) → sh.sems mutex ≡ 1 → Waits (group_step g p sh) → GroupRests g sh p
  unfolding group_step
  group_rests (checking_in CheckInPc.enter) e w = ground arith
  group_rests (checking_in _) e w = ground arith
  group_rests (ordering OrderFoodPc.enter) e w = ground arith
  group_rests (ordering (OrderFoodPc.await_receipt none)) e w = w
  group_rests (ordering (OrderFoodPc.await_receipt (some t))) e w = ground arith
  group_rests (ordering _) e w = ground arith
  group_rests (awaiting_food WaitFoodPc.enter) e w = ground arith
  group_rests (awaiting_food (WaitFoodPc.await_food none)) e w = w
  group_rests (awaiting_food (WaitFoodPc.await_food (some t))) e w = ground arith
  group_rests (awaiting_food _) e w = ground arith
  group_rests (checking_out CheckOutPc.enter) e w = ground arith
  group_rests (checking_out (CheckOutPc.await_payment none)) e w = w
  group_rests (checking_out (CheckOutPc.await_payment (some t))) e w = ground arith
  group_rests (checking_out _) e w = ground arith
  group_rests _ e w = ground arith

module _ (sh : Shared) where
  pub desk-Waits_outside :
      (p : ReceptionistPc) (r : Receptionist)
      → Waits (receptionist_at p r sh)
      → receptionist_region p ≡ 0
  unfolding receptionist_at
  desk-Waits_outside (waiting_for_group WaitForGroupPc.enter) r w = ground arith
  desk-Waits_outside (waiting_for_group _) r w = ground arith
  desk-Waits_outside (providing h ProvideTablePc.enter) r w = ground arith
  desk-Waits_outside (providing h _) r w = ground arith
  desk-Waits_outside (receiving h ReceivePaymentPc.enter) r w = ground arith
  desk-Waits_outside (receiving h _) r w = ground arith
  desk-Waits_outside _ r w = ground arith

  pub desk_rests :
      (p : ReceptionistPc) (r : Receptionist)
      → sh.sems mutex ≡ 1
      → Waits (receptionist_at p r sh)
      → DeskRests sh p
  unfolding receptionist_at
  desk_rests (waiting_for_group WaitForGroupPc.enter) r e w = ground arith
  desk_rests (waiting_for_group _) r e w = ground arith
  desk_rests (providing h ProvideTablePc.enter) r e w = ground arith
  desk_rests (providing h _) r e w = ground arith
  desk_rests (receiving h (ReceivePaymentPc.signal_done none)) r e w = w
  desk_rests (receiving h (ReceivePaymentPc.signal_done (some t))) r e w = ground arith
  desk_rests (receiving h ReceivePaymentPc.enter) r e w = ground arith
  desk_rests (receiving h _) r e w = ground arith
  desk_rests _ r e w = ground arith

  pub waiter-Waits_outside :
      (p : WaiterPc) (w : Waiter) → Waits (waiter_at p w sh) → waiter_region p ≡ 0
  unfolding waiter_at
  waiter-Waits_outside (waiting_for_request WaitForRequestPc.enter) v w = ground arith
  waiter-Waits_outside (waiting_for_request _) v w = ground arith
  waiter-Waits_outside (informing h InformChefPc.enter) v w = ground arith
  waiter-Waits_outside (informing h _) v w = ground arith
  waiter-Waits_outside (taking h (TakeFoodPc.signal_food none)) v w = absurd w
  waiter-Waits_outside (taking h (TakeFoodPc.signal_food (some t))) v w = ground arith
  waiter-Waits_outside (taking h TakeFoodPc.enter) v w = ground arith
  waiter-Waits_outside (taking h _) v w = ground arith
  waiter-Waits_outside _ v w = ground arith

  pub waiter_rests :
      (p : WaiterPc) (w : Waiter) → sh.sems mutex ≡ 1 → Waits (waiter_at p w sh) → WaiterRests sh p
  unfolding waiter_at
  waiter_rests (waiting_for_request WaitForRequestPc.enter) v e w = ground arith
  waiter_rests (waiting_for_request _) v e w = ground arith
  waiter_rests (informing h (InformChefPc.signal_received none)) v e w = w
  waiter_rests (informing h (InformChefPc.signal_received (some t))) v e w = ground arith
  waiter_rests (informing h InformChefPc.enter) v e w = ground arith
  waiter_rests (informing h _) v e w = ground arith
  waiter_rests (taking h (TakeFoodPc.signal_food none)) v e w = w
  waiter_rests (taking h (TakeFoodPc.signal_food (some t))) v e w = ground arith
  waiter_rests (taking h TakeFoodPc.enter) v e w = ground arith
  waiter_rests (taking h _) v e w = ground arith
  waiter_rests _ v e w = ground arith

  pub chef-Waits_outside : (p : ChefPc) (c : Chef) → Waits (chef_at p c sh) → chef_region p ≡ 0
  unfolding chef_at
  chef-Waits_outside (waiting_for_order WaitForOrderPc.enter) c w = ground arith
  chef-Waits_outside (waiting_for_order _) c w = ground arith
  chef-Waits_outside (processing ProcessOrderPc.enter) c w = ground arith
  chef-Waits_outside (processing _) c w = ground arith
  chef-Waits_outside _ c w = ground arith

  pub chef_rests :
      (p : ChefPc) (c : Chef) → sh.sems mutex ≡ 1 → Waits (chef_at p c sh) → ChefRests sh p
  unfolding chef_at
  chef_rests (waiting_for_order WaitForOrderPc.enter) c e w = ground arith
  chef_rests (waiting_for_order _) c e w = ground arith
  chef_rests (processing ProcessOrderPc.enter) c e w = ground arith
  chef_rests (processing _) c e w = ground arith
  chef_rests _ c e w = ground arith

-- A process at rest has no unit of a slot.
pub rests_free :
    (g : ℕ) (sh : Shared) (p : GroupPc)
    → GroupRests g sh p
    → (group_reception p ≡ 0) × (group_service p ≡ 0)
rests_free g sh (checking_in CheckInPc.enter) w = ground arith
rests_free g sh (checking_in _) w = ground arith
rests_free g sh (ordering OrderFoodPc.enter) w = ground arith
rests_free g sh (ordering _) w = ground arith
rests_free g sh _ w = ground arith

pub desk_free : (sh : Shared) (p : ReceptionistPc) → DeskRests sh p → receptionist_reception p ≡ 0
desk_free sh (waiting_for_group WaitForGroupPc.enter) w = ground arith
desk_free sh (waiting_for_group _) w = ground arith
desk_free sh _ w = ground arith

pub waiter_free : (sh : Shared) (p : WaiterPc) → WaiterRests sh p → waiter_service p ≡ 0
waiter_free sh (waiting_for_request WaitForRequestPc.enter) w = ground arith
waiter_free sh (waiting_for_request _) w = ground arith
waiter_free sh _ w = ground arith

pub chef_free :
    (sh : Shared) (p : ChefPc) → ChefRests sh p → (chef_service p ≡ 0) × (chef_order p ≡ 0)
chef_free sh (waiting_for_order WaitForOrderPc.enter) w = ground arith
chef_free sh (waiting_for_order _) w = ground arith
chef_free sh (processing ProcessOrderPc.enter) w = ground arith
chef_free sh (processing _) w = ground arith
chef_free sh _ w = ground arith
