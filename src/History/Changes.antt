-- ===== src/History/Changes.antt =====
-- What each step writes to the log and to `st`: at a few places the new status of the process that
-- moves, and nothing at all others.
use restaurante_so.Prelude.{
  ℕ, suc, ◌+◌, ◌==◌, if◌then◌else◌, refl, ◌≡◌, Option, none, some, List, ◌++◌, update, arith,
}
use restaurante_so.Problem.{
  Stat, go_to_rest, at_reception, food_request, wait_for_food, eating, checkout, leaving, cook,
  wait_for_order, wait_for_request, inform_chef, take_to_table, assign_table, recv_pay,
}
use restaurante_so.Logging.{state_line}
use restaurante_so.Semaphore.{Shared}
use restaurante_so.Tokens.{After}
use restaurante_so.Group.{
  GroupPc, checking_in, ordering, awaiting_food, checking_out, CheckInPc, OrderFoodPc, WaitFoodPc,
  CheckOutPc, group_step,
}
use restaurante_so.Receptionist.{
  Receptionist, ReceptionistPc, waiting_for_group, providing, receiving, WaitForGroupPc,
  ProvideTablePc, ReceivePaymentPc, receptionist_at, receptionist_step,
}
use restaurante_so.Waiter.{
  Waiter, WaiterPc, waiting_for_request, informing, taking, WaitForRequestPc, InformChefPc,
  TakeFoodPc, waiter_at, waiter_step,
}
use restaurante_so.Chef.{
  Chef, ChefPc, waiting_for_order, processing, WaitForOrderPc, ProcessOrderPc, chef_at, chef_step,
}

-- The status of a group by its place.
abbrev pub group_status : GroupPc → ℕ
group_status GroupPc.starting = go_to_rest
group_status GroupPc.travelling = go_to_rest
group_status (checking_in CheckInPc.await_receptionist) = go_to_rest
group_status (checking_in CheckInPc.enter) = go_to_rest
group_status (checking_in CheckInPc.write) = go_to_rest
group_status (checking_in _) = at_reception
group_status (ordering (OrderFoodPc.exit _)) = food_request
group_status (ordering (OrderFoodPc.await_receipt _)) = food_request
group_status (ordering _) = at_reception
group_status (awaiting_food WaitFoodPc.enter) = food_request
group_status (awaiting_food WaitFoodPc.write) = food_request
group_status (awaiting_food WaitFoodPc.exit_again) = eating
group_status (awaiting_food _) = wait_for_food
group_status GroupPc.dining = eating
group_status (checking_out CheckOutPc.await_receptionist) = eating
group_status (checking_out CheckOutPc.enter) = eating
group_status (checking_out CheckOutPc.write) = eating
group_status (checking_out CheckOutPc.exit_again) = leaving
group_status (checking_out _) = checkout
group_status GroupPc.finished = leaving
group_status GroupPc.failed = go_to_rest

-- 1 at a place whose step writes the group's next status.
abbrev pub group_writes : GroupPc → ℕ
group_writes (checking_in CheckInPc.write) = 1
group_writes (ordering OrderFoodPc.order) = 1
group_writes (awaiting_food WaitFoodPc.write) = 1
group_writes (awaiting_food WaitFoodPc.write_again) = 1
group_writes (checking_out CheckOutPc.write) = 1
group_writes (checking_out CheckOutPc.write_again) = 1
group_writes _ = 0

-- The `st` that a step writes, if it writes one.
abbrev pub group_change : ℕ → GroupPc → Stat → Option Stat
group_change g p st =
    if group_writes p == 0
    then none
    else some (record st { group_stat = update st.group_stat g (suc (group_status p)) })

-- The places at which the receptionist, the waiter and the chef write a status, and which.
abbrev pub receptionist_change : ReceptionistPc → Stat → Option Stat
receptionist_change (waiting_for_group WaitForGroupPc.write) st =
    some (record st { receptionist_stat = wait_for_request })
receptionist_change (providing g ProvideTablePc.write) st =
    some (record st { receptionist_stat = assign_table })
receptionist_change (receiving g ReceivePaymentPc.write) st =
    some (record st { receptionist_stat = recv_pay })
receptionist_change _ st = none

abbrev pub waiter_change : WaiterPc → Stat → Option Stat
waiter_change (waiting_for_request WaitForRequestPc.write) st =
    some (record st { waiter_stat = wait_for_request })
waiter_change (informing g InformChefPc.write) st = some (record st { waiter_stat = inform_chef })
waiter_change (taking g TakeFoodPc.write) st = some (record st { waiter_stat = take_to_table })
waiter_change _ st = none

abbrev pub chef_change : ChefPc → Stat → Option Stat
chef_change (waiting_for_order WaitForOrderPc.write) st = some (record st { chef_stat = cook })
chef_change (processing ProcessOrderPc.write) st = some (record st { chef_stat = wait_for_order })
chef_change _ st = none

-- The log and the statuses after a step from `sh` that writes `change`.
abbrev pub log_after : Option Stat → Shared → List ℕ
log_after none sh = sh.log
log_after (some new) sh = sh.log ++ state_line (record (sh.f_st) { st = new })

abbrev pub stat_after : Option Stat → Shared → Stat
stat_after none sh = sh.f_st.st
stat_after (some new) sh = new

abbrev pub Writes : Option Stat → Shared → Shared → Type 0
Writes change sh sh' = (sh'.log ≡ log_after change sh) × (sh'.f_st.st ≡ stat_after change sh)

abbrev GroupWrites : ℕ → GroupPc → Shared → Type 0
GroupWrites g p sh =
    After
      (λ sh' p'.
        Writes (group_change g p sh.f_st.st) sh sh'
        × (group_status p' ≡ group_writes p + group_status p))
      (group_step g p sh)

pub group-Writes : (g : ℕ) (p : GroupPc) (sh : Shared) → GroupWrites g p sh
unfolding group_step
group-Writes g GroupPc.starting sh = ground arith
group-Writes g GroupPc.travelling sh = ground arith
group-Writes g (checking_in CheckInPc.enter) sh = ground arith
group-Writes g (checking_in _) sh = ground arith
group-Writes g (ordering OrderFoodPc.enter) sh = ground arith
group-Writes g (ordering _) sh = ground arith
group-Writes g (awaiting_food WaitFoodPc.enter) sh = ground arith
group-Writes g (awaiting_food _) sh = ground arith
group-Writes g (checking_out CheckOutPc.enter) sh = ground arith
group-Writes g (checking_out _) sh = ground arith
group-Writes g _ sh = ground arith

receptionist_at-Writes :
    (p : ReceptionistPc) (r : Receptionist) (sh : Shared)
    → After (λ sh' _. Writes (receptionist_change p sh.f_st.st) sh sh') (receptionist_at p r sh)
unfolding receptionist_at
receptionist_at-Writes (waiting_for_group WaitForGroupPc.enter) r sh = ground arith
receptionist_at-Writes (waiting_for_group _) r sh = ground arith
receptionist_at-Writes (providing g ProvideTablePc.enter) r sh = ground arith
receptionist_at-Writes (providing g _) r sh = ground arith
receptionist_at-Writes (receiving g ReceivePaymentPc.enter) r sh = ground arith
receptionist_at-Writes (receiving g _) r sh = ground arith
receptionist_at-Writes _ r sh = ground arith

pub receptionist-Writes :
    (r : Receptionist) (sh : Shared)
    → After (λ sh' _. Writes (receptionist_change r.pc sh.f_st.st) sh sh') (receptionist_step r sh)
unfolding receptionist_step
receptionist-Writes r sh = receptionist_at-Writes r.pc r sh

waiter_at-Writes :
    (p : WaiterPc) (w : Waiter) (sh : Shared)
    → After (λ sh' _. Writes (waiter_change p sh.f_st.st) sh sh') (waiter_at p w sh)
unfolding waiter_at
waiter_at-Writes (waiting_for_request WaitForRequestPc.enter) w sh = ground arith
waiter_at-Writes (waiting_for_request _) w sh = ground arith
waiter_at-Writes (informing g InformChefPc.enter) w sh = ground arith
waiter_at-Writes (informing g _) w sh = ground arith
waiter_at-Writes (taking g TakeFoodPc.enter) w sh = ground arith
waiter_at-Writes (taking g _) w sh = ground arith
waiter_at-Writes _ w sh = ground arith

pub waiter-Writes :
    (w : Waiter) (sh : Shared)
    → After (λ sh' _. Writes (waiter_change w.pc sh.f_st.st) sh sh') (waiter_step w sh)
unfolding waiter_step
waiter-Writes w sh = waiter_at-Writes w.pc w sh

chef_at-Writes :
    (p : ChefPc) (c : Chef) (sh : Shared)
    → After (λ sh' _. Writes (chef_change p sh.f_st.st) sh sh') (chef_at p c sh)
unfolding chef_at state_line
chef_at-Writes (waiting_for_order WaitForOrderPc.enter) c sh = ground arith
chef_at-Writes (waiting_for_order WaitForOrderPc.write) c sh = (refl, refl)
chef_at-Writes (waiting_for_order _) c sh = ground arith
chef_at-Writes (processing ProcessOrderPc.enter) c sh = ground arith
chef_at-Writes (processing ProcessOrderPc.write) c sh = (refl, refl)
chef_at-Writes (processing _) c sh = ground arith
chef_at-Writes _ c sh = ground arith

pub chef-Writes :
    (c : Chef) (sh : Shared)
    → After (λ sh' _. Writes (chef_change c.pc sh.f_st.st) sh sh') (chef_step c sh)
unfolding chef_step
chef-Writes c sh = chef_at-Writes c.pc c sh
