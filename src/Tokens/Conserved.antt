-- ===== src/Tokens/Conserved.antt =====
-- Every step of every process keeps the sum of what the semaphores have and what it holds.
use restaurante_so.Prelude.{ℕ, ◌+◌, ◌≡◌, arith}
use restaurante_so.Semaphore.{
  Shared, Outcome, next, blocked, fault, mutex, receptionist_req, receptionist_request_possible,
  waiter_request, waiter_request_possible, wait_order, order_received,
}
use restaurante_so.Group.{
  GroupPc, checking_in, ordering, awaiting_food, checking_out, CheckInPc, OrderFoodPc, WaitFoodPc,
  CheckOutPc, group_step,
}
use restaurante_so.Receptionist.{
  Receptionist, ReceptionistPc, waiting_for_group, providing, receiving, WaitForGroupPc,
  ProvideTablePc, ReceivePaymentPc, receptionist_at, receptionist_step,
}
use restaurante_so.Waiter.{
  Waiter, WaiterPc, waiting_for_request, informing, taking, WaitForRequestPc, InformChefPc,
  TakeFoodPc, waiter_at, waiter_step,
}
use restaurante_so.Chef.{
  Chef, ChefPc, waiting_for_order, processing, WaitForOrderPc, ProcessOrderPc, chef_at, chef_step,
}
use restaurante_so.Tokens.Held.{Held, group_held, receptionist_held, waiter_held, chef_held}

-- A step from `sh`, with `a` held, to `sh'`, with `b` held.
pub record Conserves (sh sh' : Shared) (a b : Held) : Type 0 where
  pub region : sh'.sems mutex + b.region ≡ sh.sems mutex + a.region
  pub reception :
      sh'.sems receptionist_request_possible + sh'.sems receptionist_req + b.reception
      ≡ sh.sems receptionist_request_possible + sh.sems receptionist_req + a.reception
  pub service :
      sh'.sems waiter_request_possible + sh'.sems waiter_request + b.service
      ≡ sh.sems waiter_request_possible + sh.sems waiter_request + a.service
  pub order :
      sh'.sems wait_order + sh'.sems order_received + b.order + a.owed
      ≡ sh.sems wait_order + sh.sems order_received + a.order + b.owed
  pub same_groups : sh'.f_st.n_groups ≡ sh.f_st.n_groups

-- A statement about where a step leads.
abbrev pub After : {P : Type 0} → (Shared → P → Type 0) → Outcome P → Type 0
After Q (next sh p) = Q sh p
After Q blocked = Unit
After Q fault = Unit

abbrev GroupConserves : ℕ → GroupPc → Shared → Type 0
GroupConserves g p sh =
    After (λ sh' p'. Conserves sh sh' (group_held p) (group_held p')) (group_step g p sh)

checking_in-Conserves : (g : ℕ) (p : CheckInPc) (sh : Shared) → GroupConserves g (checking_in p) sh
unfolding group_step
checking_in-Conserves g CheckInPc.await_receptionist sh = ground arith
checking_in-Conserves g _ sh = ground arith

ordering-Conserves : (g : ℕ) (p : OrderFoodPc) (sh : Shared) → GroupConserves g (ordering p) sh
unfolding group_step
ordering-Conserves g OrderFoodPc.await_waiter sh = ground arith
ordering-Conserves g _ sh = ground arith

awaiting_food-Conserves :
    (g : ℕ) (p : WaitFoodPc) (sh : Shared) → GroupConserves g (awaiting_food p) sh
unfolding group_step
awaiting_food-Conserves g WaitFoodPc.enter sh = ground arith
awaiting_food-Conserves g _ sh = ground arith

checking_out-Conserves :
    (g : ℕ) (p : CheckOutPc) (sh : Shared) → GroupConserves g (checking_out p) sh
unfolding group_step
checking_out-Conserves g CheckOutPc.await_receptionist sh = ground arith
checking_out-Conserves g _ sh = ground arith

pub group-Conserves : (g : ℕ) (p : GroupPc) (sh : Shared) → GroupConserves g p sh
unfolding group_step
group-Conserves g (checking_in p) sh = checking_in-Conserves g p sh
group-Conserves g (ordering p) sh = ordering-Conserves g p sh
group-Conserves g (awaiting_food p) sh = awaiting_food-Conserves g p sh
group-Conserves g (checking_out p) sh = checking_out-Conserves g p sh
group-Conserves g _ sh = ground arith

abbrev ReceptionistConserves : ReceptionistPc → Receptionist → Shared → Type 0
ReceptionistConserves p r sh =
    After (λ sh' r'. Conserves sh sh' (receptionist_held p) (receptionist_held r'.pc))
      (receptionist_at p r sh)

waiting_for_group-Conserves :
    (p : WaitForGroupPc) (r : Receptionist) (sh : Shared)
    → ReceptionistConserves (waiting_for_group p) r sh
unfolding receptionist_at
waiting_for_group-Conserves WaitForGroupPc.enter r sh = ground arith
waiting_for_group-Conserves _ r sh = ground arith

providing-Conserves :
    (g : ℕ) (p : ProvideTablePc) (r : Receptionist) (sh : Shared)
    → ReceptionistConserves (providing g p) r sh
unfolding receptionist_at
providing-Conserves g ProvideTablePc.enter r sh = ground arith
providing-Conserves g _ r sh = ground arith

receiving-Conserves :
    (g : ℕ) (p : ReceivePaymentPc) (r : Receptionist) (sh : Shared)
    → ReceptionistConserves (receiving g p) r sh
unfolding receptionist_at
receiving-Conserves g ReceivePaymentPc.enter r sh = ground arith
receiving-Conserves g _ r sh = ground arith

receptionist_at-Conserves :
    (p : ReceptionistPc) (r : Receptionist) (sh : Shared) → ReceptionistConserves p r sh
unfolding receptionist_at
receptionist_at-Conserves (waiting_for_group p) r sh = waiting_for_group-Conserves p r sh
receptionist_at-Conserves (providing g p) r sh = providing-Conserves g p r sh
receptionist_at-Conserves (receiving g p) r sh = receiving-Conserves g p r sh
receptionist_at-Conserves _ r sh = ground arith

pub receptionist-Conserves :
    (r : Receptionist) (sh : Shared)
    → After
        (λ sh' r'. Conserves sh sh' (receptionist_held r.pc) (receptionist_held r'.pc))
        (receptionist_step r sh)
unfolding receptionist_step
receptionist-Conserves r sh = receptionist_at-Conserves r.pc r sh

abbrev WaiterConserves : WaiterPc → Waiter → Shared → Type 0
WaiterConserves p w sh =
    After (λ sh' w'. Conserves sh sh' (waiter_held p) (waiter_held w'.pc)) (waiter_at p w sh)

waiting_for_request-Conserves :
    (p : WaitForRequestPc) (w : Waiter) (sh : Shared) → WaiterConserves (waiting_for_request p) w sh
unfolding waiter_at
waiting_for_request-Conserves WaitForRequestPc.enter w sh = ground arith
waiting_for_request-Conserves _ w sh = ground arith

informing-Conserves :
    (g : ℕ) (p : InformChefPc) (w : Waiter) (sh : Shared) → WaiterConserves (informing g p) w sh
unfolding waiter_at
informing-Conserves g InformChefPc.enter w sh = ground arith
informing-Conserves g _ w sh = ground arith

taking-Conserves :
    (g : ℕ) (p : TakeFoodPc) (w : Waiter) (sh : Shared) → WaiterConserves (taking g p) w sh
unfolding waiter_at
taking-Conserves g TakeFoodPc.enter w sh = ground arith
taking-Conserves g _ w sh = ground arith

waiter_at-Conserves : (p : WaiterPc) (w : Waiter) (sh : Shared) → WaiterConserves p w sh
unfolding waiter_at
waiter_at-Conserves (waiting_for_request p) w sh = waiting_for_request-Conserves p w sh
waiter_at-Conserves (informing g p) w sh = informing-Conserves g p w sh
waiter_at-Conserves (taking g p) w sh = taking-Conserves g p w sh
waiter_at-Conserves _ w sh = ground arith

pub waiter-Conserves :
    (w : Waiter) (sh : Shared)
    → After (λ sh' w'. Conserves sh sh' (waiter_held w.pc) (waiter_held w'.pc)) (waiter_step w sh)
unfolding waiter_step
waiter-Conserves w sh = waiter_at-Conserves w.pc w sh

abbrev ChefConserves : ChefPc → Chef → Shared → Type 0
ChefConserves p c sh =
    After (λ sh' c'. Conserves sh sh' (chef_held p) (chef_held c'.pc)) (chef_at p c sh)

waiting_for_order-Conserves :
    (p : WaitForOrderPc) (c : Chef) (sh : Shared) → ChefConserves (waiting_for_order p) c sh
unfolding chef_at
waiting_for_order-Conserves WaitForOrderPc.await_order c sh = ground arith
waiting_for_order-Conserves _ c sh = ground arith

processing-Conserves :
    (p : ProcessOrderPc) (c : Chef) (sh : Shared) → ChefConserves (processing p) c sh
unfolding chef_at
processing-Conserves ProcessOrderPc.cooking c sh = ground arith
processing-Conserves _ c sh = ground arith

chef_at-Conserves : (p : ChefPc) (c : Chef) (sh : Shared) → ChefConserves p c sh
unfolding chef_at
chef_at-Conserves (waiting_for_order p) c sh = waiting_for_order-Conserves p c sh
chef_at-Conserves (processing p) c sh = processing-Conserves p c sh
chef_at-Conserves _ c sh = ground arith

pub chef-Conserves :
    (c : Chef) (sh : Shared)
    → After (λ sh' c'. Conserves sh sh' (chef_held c.pc) (chef_held c'.pc)) (chef_step c sh)
unfolding chef_step
chef-Conserves c sh = chef_at-Conserves c.pc c sh
