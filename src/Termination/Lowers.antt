-- ===== src/Termination/Lowers.antt =====
-- Each step of each process lowers what it has left.
use restaurante_so.Prelude.{ℕ, ◌<◌, arith}
use restaurante_so.Semaphore.{Shared}
use restaurante_so.Group.{
  GroupPc, checking_in, ordering, awaiting_food, checking_out, CheckInPc, OrderFoodPc, WaitFoodPc,
  CheckOutPc, group_step,
}
use restaurante_so.Receptionist.{
  Receptionist, ReceptionistPc, waiting_for_group, providing, receiving, WaitForGroupPc,
  ProvideTablePc, ReceivePaymentPc, receptionist_at, receptionist_step,
}
use restaurante_so.Waiter.{
  Waiter, WaiterPc, waiting_for_request, informing, taking, WaitForRequestPc, InformChefPc,
  TakeFoodPc, waiter_at, waiter_step,
}
use restaurante_so.Chef.{
  Chef, ChefPc, waiting_for_order, processing, WaitForOrderPc, ProcessOrderPc, chef_at, chef_step,
}
use restaurante_so.Tokens.{After}
use restaurante_so.Termination.Left.{group_left, receptionist_left, waiter_left, chef_left}

abbrev GroupLowers : ℕ → GroupPc → Shared → Type 0
GroupLowers g p sh = After (λ sh' p'. group_left p' < group_left p) (group_step g p sh)

checking_in_lowers : (g : ℕ) (p : CheckInPc) (sh : Shared) → GroupLowers g (checking_in p) sh
unfolding group_step
checking_in_lowers g CheckInPc.await_receptionist sh = ground arith
checking_in_lowers g _ sh = ground arith

ordering_lowers : (g : ℕ) (p : OrderFoodPc) (sh : Shared) → GroupLowers g (ordering p) sh
unfolding group_step
ordering_lowers g OrderFoodPc.await_waiter sh = ground arith
ordering_lowers g _ sh = ground arith

awaiting_food_lowers : (g : ℕ) (p : WaitFoodPc) (sh : Shared) → GroupLowers g (awaiting_food p) sh
unfolding group_step
awaiting_food_lowers g WaitFoodPc.enter sh = ground arith
awaiting_food_lowers g _ sh = ground arith

checking_out_lowers : (g : ℕ) (p : CheckOutPc) (sh : Shared) → GroupLowers g (checking_out p) sh
unfolding group_step
checking_out_lowers g CheckOutPc.await_receptionist sh = ground arith
checking_out_lowers g _ sh = ground arith

pub group_lowers : (g : ℕ) (p : GroupPc) (sh : Shared) → GroupLowers g p sh
unfolding group_step
group_lowers g (checking_in p) sh = checking_in_lowers g p sh
group_lowers g (ordering p) sh = ordering_lowers g p sh
group_lowers g (awaiting_food p) sh = awaiting_food_lowers g p sh
group_lowers g (checking_out p) sh = checking_out_lowers g p sh
group_lowers g _ sh = ground arith

abbrev ReceptionistLowers : ReceptionistPc → Receptionist → Shared → Type 0
ReceptionistLowers p r sh =
    let n = sh.f_st.n_groups in
    After (λ sh' r'. receptionist_left n r' < receptionist_left n (record r { pc = p }))
      (receptionist_at p r sh)

waiting_for_group_lowers :
    (p : WaitForGroupPc) (r : Receptionist) (sh : Shared)
    → ReceptionistLowers (waiting_for_group p) r sh
unfolding receptionist_at receptionist_left
waiting_for_group_lowers WaitForGroupPc.enter r sh = ground arith
waiting_for_group_lowers _ r sh = ground arith

providing_lowers :
    (g : ℕ) (p : ProvideTablePc) (r : Receptionist) (sh : Shared)
    → ReceptionistLowers (providing g p) r sh
unfolding receptionist_at receptionist_left
providing_lowers g ProvideTablePc.enter r sh = ground arith
providing_lowers g _ r sh = ground arith

receiving_lowers :
    (g : ℕ) (p : ReceivePaymentPc) (r : Receptionist) (sh : Shared)
    → ReceptionistLowers (receiving g p) r sh
unfolding receptionist_at receptionist_left
receiving_lowers g ReceivePaymentPc.enter r sh = ground arith
receiving_lowers g _ r sh = ground arith

receptionist_at_lowers :
    (p : ReceptionistPc) (r : Receptionist) (sh : Shared) → ReceptionistLowers p r sh
unfolding receptionist_at receptionist_left
receptionist_at_lowers (waiting_for_group p) r sh = waiting_for_group_lowers p r sh
receptionist_at_lowers (providing g p) r sh = providing_lowers g p r sh
receptionist_at_lowers (receiving g p) r sh = receiving_lowers g p r sh
receptionist_at_lowers _ r sh = ground arith

pub receptionist_lowers :
    (r : Receptionist) (sh : Shared)
    → After
        (λ sh' r'. receptionist_left sh.f_st.n_groups r' < receptionist_left sh.f_st.n_groups r)
        (receptionist_step r sh)
unfolding receptionist_step receptionist_left
receptionist_lowers r sh = receptionist_at_lowers r.pc r sh

abbrev WaiterLowers : WaiterPc → Waiter → Shared → Type 0
WaiterLowers p w sh =
    let n = sh.f_st.n_groups in
    After (λ sh' w'. waiter_left n w' < waiter_left n (record w { pc = p })) (waiter_at p w sh)

waiting_for_request_lowers :
    (p : WaitForRequestPc) (w : Waiter) (sh : Shared) → WaiterLowers (waiting_for_request p) w sh
unfolding waiter_at waiter_left
waiting_for_request_lowers WaitForRequestPc.enter w sh = ground arith
waiting_for_request_lowers _ w sh = ground arith

informing_lowers :
    (g : ℕ) (p : InformChefPc) (w : Waiter) (sh : Shared) → WaiterLowers (informing g p) w sh
unfolding waiter_at waiter_left
informing_lowers g InformChefPc.enter w sh = ground arith
informing_lowers g _ w sh = ground arith

taking_lowers : (g : ℕ) (p : TakeFoodPc) (w : Waiter) (sh : Shared) → WaiterLowers (taking g p) w sh
unfolding waiter_at waiter_left
taking_lowers g TakeFoodPc.enter w sh = ground arith
taking_lowers g _ w sh = ground arith

waiter_at_lowers : (p : WaiterPc) (w : Waiter) (sh : Shared) → WaiterLowers p w sh
unfolding waiter_at waiter_left
waiter_at_lowers (waiting_for_request p) w sh = waiting_for_request_lowers p w sh
waiter_at_lowers (informing g p) w sh = informing_lowers g p w sh
waiter_at_lowers (taking g p) w sh = taking_lowers g p w sh
waiter_at_lowers _ w sh = ground arith

pub waiter_lowers :
    (w : Waiter) (sh : Shared)
    → After
        (λ sh' w'. waiter_left sh.f_st.n_groups w' < waiter_left sh.f_st.n_groups w)
        (waiter_step w sh)
unfolding waiter_step waiter_left
waiter_lowers w sh = waiter_at_lowers w.pc w sh

abbrev ChefLowers : ChefPc → Chef → Shared → Type 0
ChefLowers p c sh =
    let n = sh.f_st.n_groups in
    After (λ sh' c'. chef_left n c' < chef_left n (record c { pc = p })) (chef_at p c sh)

waiting_for_order_lowers :
    (p : WaitForOrderPc) (c : Chef) (sh : Shared) → ChefLowers (waiting_for_order p) c sh
unfolding chef_at chef_left
waiting_for_order_lowers WaitForOrderPc.await_order c sh = ground arith
waiting_for_order_lowers _ c sh = ground arith

processing_lowers : (p : ProcessOrderPc) (c : Chef) (sh : Shared) → ChefLowers (processing p) c sh
unfolding chef_at chef_left
processing_lowers ProcessOrderPc.cooking c sh = ground arith
processing_lowers _ c sh = ground arith

chef_at_lowers : (p : ChefPc) (c : Chef) (sh : Shared) → ChefLowers p c sh
unfolding chef_at chef_left
chef_at_lowers (waiting_for_order p) c sh = waiting_for_order_lowers p c sh
chef_at_lowers (processing p) c sh = processing_lowers p c sh
chef_at_lowers _ c sh = ground arith

pub chef_lowers :
    (c : Chef) (sh : Shared)
    → After
        (λ sh' c'. chef_left sh.f_st.n_groups c' < chef_left sh.f_st.n_groups c)
        (chef_step c sh)
unfolding chef_step chef_left
chef_lowers c sh = chef_at_lowers c.pc c sh
