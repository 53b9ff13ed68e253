-- ===== src/Reception/ServantKeeps.antt =====
-- The waiter and the chef change nothing that the desk sees.
use restaurante_so.Prelude.{ℕ, ◌≡◌, arith}
use restaurante_so.Semaphore.{Shared, receptionist_req, wait_for_table}
use restaurante_so.Receptionist.{Receptionist}
use restaurante_so.Waiter.{
  Waiter, WaiterPc, waiting_for_request, informing, taking, WaitForRequestPc, InformChefPc,
  TakeFoodPc, waiter_at, waiter_step,
}
use restaurante_so.Chef.{
  Chef, ChefPc, waiting_for_order, processing, WaitForOrderPc, ProcessOrderPc, chef_at, chef_step,
}
use restaurante_so.Tokens.{After}
use restaurante_so.Reception.View.{desk_view}

-- What the desk of the groups reads of the shared memory.
pub record SameDesk (sh sh' : Shared) : Type 0 where
  pub requests : sh'.f_st.receptionist_request ≡ sh.f_st.receptionist_request
  pub tables : sh'.f_st.assigned_table ≡ sh.f_st.assigned_table
  pub waiting : sh'.f_st.groups_waiting ≡ sh.f_st.groups_waiting
  pub signal : sh'.sems receptionist_req ≡ sh.sems receptionist_req
  pub calls : (g : ℕ) → sh'.sems (wait_for_table g) ≡ sh.sems (wait_for_table g)

abbrev WaiterKeeps : WaiterPc → Waiter → Shared → Type 0
WaiterKeeps p w sh = After (λ sh' _. SameDesk sh sh') (waiter_at p w sh)

waiting_for_request_keeps :
    (p : WaitForRequestPc) (w : Waiter) (sh : Shared) → WaiterKeeps (waiting_for_request p) w sh
unfolding waiter_at
waiting_for_request_keeps WaitForRequestPc.enter w sh = ground arith
waiting_for_request_keeps _ w sh = ground arith

informing_keeps :
    (g : ℕ) (p : InformChefPc) (w : Waiter) (sh : Shared) → WaiterKeeps (informing g p) w sh
unfolding waiter_at
informing_keeps g InformChefPc.enter w sh = ground arith
informing_keeps g _ w sh = ground arith

taking_keeps : (g : ℕ) (p : TakeFoodPc) (w : Waiter) (sh : Shared) → WaiterKeeps (taking g p) w sh
unfolding waiter_at
taking_keeps g TakeFoodPc.enter w sh = ground arith
taking_keeps g _ w sh = ground arith

waiter_at_keeps : (p : WaiterPc) (w : Waiter) (sh : Shared) → WaiterKeeps p w sh
unfolding waiter_at
waiter_at_keeps (waiting_for_request p) w sh = waiting_for_request_keeps p w sh
waiter_at_keeps (informing g p) w sh = informing_keeps g p w sh
waiter_at_keeps (taking g p) w sh = taking_keeps g p w sh
waiter_at_keeps _ w sh = ground arith

pub waiter_keeps : (w : Waiter) (sh : Shared) → After (λ sh' _. SameDesk sh sh') (waiter_step w sh)
unfolding waiter_step
waiter_keeps w sh = waiter_at_keeps w.pc w sh

abbrev ChefKeeps : ChefPc → Chef → Shared → Type 0
ChefKeeps p c sh = After (λ sh' _. SameDesk sh sh') (chef_at p c sh)

waiting_for_order_keeps :
    (p : WaitForOrderPc) (c : Chef) (sh : Shared) → ChefKeeps (waiting_for_order p) c sh
unfolding chef_at
waiting_for_order_keeps WaitForOrderPc.await_order c sh = ground arith
waiting_for_order_keeps _ c sh = ground arith

processing_keeps : (p : ProcessOrderPc) (c : Chef) (sh : Shared) → ChefKeeps (processing p) c sh
unfolding chef_at
processing_keeps ProcessOrderPc.cooking c sh = ground arith
processing_keeps _ c sh = ground arith

chef_at_keeps : (p : ChefPc) (c : Chef) (sh : Shared) → ChefKeeps p c sh
unfolding chef_at
chef_at_keeps (waiting_for_order p) c sh = waiting_for_order_keeps p c sh
chef_at_keeps (processing p) c sh = processing_keeps p c sh
chef_at_keeps _ c sh = ground arith

pub chef_keeps : (c : Chef) (sh : Shared) → After (λ sh' _. SameDesk sh sh') (chef_step c sh)
unfolding chef_step
chef_keeps c sh = chef_at_keeps c.pc c sh

-- The view of a group is the same, whatever the receptionist does meanwhile.
pub SameDesk-view :
    (g : ℕ) (r : Receptionist) {sh sh' : Shared}
    → SameDesk sh sh'
    → desk_view g sh' r ≡ desk_view g sh r
SameDesk-view g r same = ground (arith, same.calls g)
