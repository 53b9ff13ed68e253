-- ===== src/Termination/Left.antt =====
-- The number of steps that a process can still take, as a function of its place.
use restaurante_so.Prelude.{ℕ, ◌+◌, ◌-◌, ◌*◌}
use restaurante_so.Group.{
  GroupPc, starting, travelling, checking_in, ordering, awaiting_food, dining, checking_out,
  CheckInPc, OrderFoodPc, WaitFoodPc, CheckOutPc,
}
use restaurante_so.Receptionist.{
  Receptionist, ReceptionistPc, waiting_for_group, providing, receiving, WaitForGroupPc,
  ProvideTablePc, ReceivePaymentPc,
}
use restaurante_so.Waiter.{
  Waiter, WaiterPc, waiting_for_request, informing, taking, WaitForRequestPc, InformChefPc,
  TakeFoodPc,
}
use restaurante_so.Chef.{
  Chef, ChefPc, waiting_for_order, processing, WaitForOrderPc, ProcessOrderPc,
}

abbrev pub group_left : GroupPc → ℕ
group_left starting = 32
group_left travelling = 31
group_left (checking_in CheckInPc.await_receptionist) = 30
group_left (checking_in CheckInPc.enter) = 29
group_left (checking_in CheckInPc.write) = 28
group_left (checking_in CheckInPc.signal) = 27
group_left (checking_in CheckInPc.exit) = 26
group_left (checking_in CheckInPc.await_table) = 25
group_left (ordering OrderFoodPc.await_waiter) = 24
group_left (ordering OrderFoodPc.enter) = 23
group_left (ordering OrderFoodPc.write) = 22
group_left (ordering OrderFoodPc.signal) = 21
group_left (ordering OrderFoodPc.order) = 20
group_left (ordering (OrderFoodPc.exit _)) = 19
group_left (ordering (OrderFoodPc.await_receipt _)) = 18
group_left (awaiting_food WaitFoodPc.enter) = 17
group_left (awaiting_food WaitFoodPc.write) = 16
group_left (awaiting_food (WaitFoodPc.exit _)) = 15
group_left (awaiting_food (WaitFoodPc.await_food _)) = 14
group_left (awaiting_food WaitFoodPc.enter_again) = 13
group_left (awaiting_food WaitFoodPc.write_again) = 12
group_left (awaiting_food WaitFoodPc.exit_again) = 11
group_left dining = 10
group_left (checking_out CheckOutPc.await_receptionist) = 9
group_left (checking_out CheckOutPc.enter) = 8
group_left (checking_out CheckOutPc.write) = 7
group_left (checking_out (CheckOutPc.signal _)) = 6
group_left (checking_out (CheckOutPc.exit _)) = 5
group_left (checking_out (CheckOutPc.await_payment _)) = 4
group_left (checking_out CheckOutPc.enter_again) = 3
group_left (checking_out CheckOutPc.write_again) = 2
group_left (checking_out CheckOutPc.exit_again) = 1
group_left _ = 0

-- within one round of the loop
abbrev receptionist_round : ReceptionistPc → ℕ
receptionist_round (providing _ ProvideTablePc.enter) = 5
receptionist_round (providing _ ProvideTablePc.write) = 4
receptionist_round (providing _ ProvideTablePc.signal) = 3
receptionist_round (providing _ ProvideTablePc.exit) = 2
receptionist_round (receiving _ ReceivePaymentPc.enter) = 7
receptionist_round (receiving _ ReceivePaymentPc.write) = 6
receptionist_round (receiving _ (ReceivePaymentPc.signal_next _ _)) = 5
receptionist_round (receiving _ (ReceivePaymentPc.hand_over _ _)) = 4
receptionist_round (receiving _ (ReceivePaymentPc.exit _)) = 3
receptionist_round (receiving _ (ReceivePaymentPc.signal_done _)) = 2
receptionist_round (waiting_for_group WaitForGroupPc.enter) = 15
receptionist_round (waiting_for_group WaitForGroupPc.write) = 14
receptionist_round (waiting_for_group WaitForGroupPc.exit) = 13
receptionist_round (waiting_for_group WaitForGroupPc.await_request) = 12
receptionist_round (waiting_for_group WaitForGroupPc.enter_again) = 11
receptionist_round (waiting_for_group WaitForGroupPc.read) = 10
receptionist_round (waiting_for_group (WaitForGroupPc.exit_again _)) = 9
receptionist_round (waiting_for_group (WaitForGroupPc.signal_possible _)) = 8
receptionist_round ReceptionistPc.finished = 0
receptionist_round ReceptionistPc.testing = 1

-- with `n` groups and `k` requests handled
abbrev receptionist_rounds : ReceptionistPc → ℕ → ℕ → ℕ
receptionist_rounds ReceptionistPc.testing n k = (n * 2 - k) * 15
receptionist_rounds ReceptionistPc.finished n k = 0
receptionist_rounds _ n k = (n * 2 - k - 1) * 15

unfoldable pub receptionist_left : ℕ → Receptionist → ℕ
receptionist_left n r = receptionist_rounds r.pc n r.n_req + receptionist_round r.pc

-- within one round of the loop
abbrev waiter_round : WaiterPc → ℕ
waiter_round (informing _ InformChefPc.enter) = 7
waiter_round (informing _ InformChefPc.write) = 6
waiter_round (informing _ (InformChefPc.exit _)) = 5
waiter_round (informing _ (InformChefPc.signal_received _)) = 4
waiter_round (informing _ InformChefPc.signal_order) = 3
waiter_round (informing _ InformChefPc.await_chef) = 2
waiter_round (taking _ TakeFoodPc.enter) = 5
waiter_round (taking _ TakeFoodPc.write) = 4
waiter_round (taking _ (TakeFoodPc.signal_food _)) = 3
waiter_round (taking _ TakeFoodPc.exit) = 2
waiter_round (waiting_for_request WaitForRequestPc.enter) = 15
waiter_round (waiting_for_request WaitForRequestPc.write) = 14
waiter_round (waiting_for_request WaitForRequestPc.exit) = 13
waiter_round (waiting_for_request WaitForRequestPc.await_request) = 12
waiter_round (waiting_for_request WaitForRequestPc.enter_again) = 11
waiter_round (waiting_for_request WaitForRequestPc.read) = 10
waiter_round (waiting_for_request (WaitForRequestPc.exit_again _)) = 9
waiter_round (waiting_for_request (WaitForRequestPc.signal_possible _)) = 8
waiter_round WaiterPc.finished = 0
waiter_round WaiterPc.testing = 1

abbrev waiter_rounds : WaiterPc → ℕ → ℕ → ℕ
waiter_rounds WaiterPc.testing n k = (n * 2 - k) * 15
waiter_rounds WaiterPc.finished n k = 0
waiter_rounds _ n k = (n * 2 - k - 1) * 15

unfoldable pub waiter_left : ℕ → Waiter → ℕ
waiter_left n w = waiter_rounds w.pc n w.n_req + waiter_round w.pc

-- within one round of the loop
abbrev chef_round : ChefPc → ℕ
chef_round (waiting_for_order WaitForOrderPc.await_order) = 12
chef_round (waiting_for_order WaitForOrderPc.enter) = 11
chef_round (waiting_for_order WaitForOrderPc.write) = 10
chef_round (waiting_for_order WaitForOrderPc.exit) = 9
chef_round (waiting_for_order WaitForOrderPc.acknowledge) = 8
chef_round (processing ProcessOrderPc.cooking) = 7
chef_round (processing ProcessOrderPc.await_waiter) = 6
chef_round (processing ProcessOrderPc.enter) = 5
chef_round (processing ProcessOrderPc.write) = 4
chef_round (processing ProcessOrderPc.exit) = 3
chef_round (processing ProcessOrderPc.signal) = 2
chef_round ChefPc.finished = 0
chef_round ChefPc.testing = 1

abbrev chef_rounds : ChefPc → ℕ → ℕ → ℕ
chef_rounds ChefPc.testing n k = (n - k) * 12
chef_rounds ChefPc.finished n k = 0
chef_rounds _ n k = (n - k - 1) * 12

unfoldable pub chef_left : ℕ → Chef → ℕ
chef_left n c = chef_rounds c.pc n c.n_orders + chef_round c.pc
