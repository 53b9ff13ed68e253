-- ===== src/Ledger/ServantCounts.antt =====
-- What a step of the waiter and of the chef counts.
use restaurante_so.Prelude.{ℕ, ◌+◌, ◌≤◌, ◌≡◌, arith}
use restaurante_so.Semaphore.{Shared, waiter_request, wait_order}
use restaurante_so.Waiter.{
  Waiter, WaiterPc, waiting_for_request, informing, taking, WaitForRequestPc, InformChefPc,
  TakeFoodPc, waiter_at,
}
use restaurante_so.Chef.{
  Chef, ChefPc, waiting_for_order, processing, WaitForOrderPc, ProcessOrderPc, chef_at,
}
use restaurante_so.Tokens.{After, waiter_service, chef_service}
use restaurante_so.Service.View.{hearing}
use restaurante_so.Ledger.Counts.{serving, cooking, untold, is_food, WaiterLoops, ChefLoops}

pub record WaiterCounts (n : ℕ) (p : WaiterPc) (w : Waiter) (sh sh' : Shared) (w' : Waiter)
    : Type 0 where
  pub counted :
      w'.n_req + serving w'.pc + sh'.sems waiter_request
      ≡ w.n_req + serving p + sh.sems waiter_request
  pub told : untold sh' w'.pc + sh'.sems wait_order ≡ untold sh p + sh.sems wait_order
  pub loops : WaiterLoops n w'.pc w'.n_req

module _ (n : ℕ) where
  abbrev Counts : WaiterPc → Waiter → Shared → Type 0
  Counts p w sh =
      sh.f_st.n_groups ≡ n
      → sh.sems waiter_request + waiter_service p ≤ 1
      → WaiterLoops n p w.n_req
      → After (λ sh' w'. WaiterCounts n p w sh sh' w') (waiter_at p w sh)

  waiting-Counts :
      (p : WaitForRequestPc) (w : Waiter) (sh : Shared) → Counts (waiting_for_request p) w sh
  unfolding waiter_at
  waiting-Counts WaitForRequestPc.enter w sh e o l = ground arith
  waiting-Counts _ w sh e o l = ground arith

  informing-Counts :
      (h : ℕ) (p : InformChefPc) (w : Waiter) (sh : Shared) → Counts (informing h p) w sh
  unfolding waiter_at
  informing-Counts h InformChefPc.enter w sh e o l = ground arith
  informing-Counts h _ w sh e o l = ground arith

  taking-Counts : (h : ℕ) (p : TakeFoodPc) (w : Waiter) (sh : Shared) → Counts (taking h p) w sh
  unfolding waiter_at
  taking-Counts h TakeFoodPc.enter w sh e o l = ground arith
  taking-Counts h _ w sh e o l = ground arith

  pub waiter-Counts : (p : WaiterPc) (w : Waiter) (sh : Shared) → Counts p w sh
  unfolding waiter_at
  waiter-Counts (waiting_for_request p) w sh e o l = waiting-Counts p w sh e o l
  waiter-Counts (informing h p) w sh e o l = informing-Counts h p w sh e o l
  waiter-Counts (taking h p) w sh e o l = taking-Counts h p w sh e o l
  waiter-Counts WaiterPc.testing w sh e o l = ground arith
  waiter-Counts WaiterPc.finished w sh e o l = tt

pub record ChefCounts (n : ℕ) (w : WaiterPc) (p : ChefPc) (c : Chef) (sh sh' : Shared) (c' : Chef)
    : Type 0 where
  pub counted :
      c'.n_orders + cooking c'.pc + sh'.sems wait_order
      ≡ c.n_orders + cooking p + sh.sems wait_order
  pub signalled : sh'.sems waiter_request + c.n_orders ≡ sh.sems waiter_request + c'.n_orders
  pub told : untold sh' w ≡ untold sh w
  pub loops : ChefLoops n c'.pc c'.n_orders

-- The chef's own request is none for food.
abbrev pub AsksNoFood : ChefPc → Shared → Type 0
AsksNoFood (processing ProcessOrderPc.signal) sh = is_food sh.f_st.waiter_request ≡ 0
AsksNoFood _ sh = Unit

module _ (n : ℕ) (w : WaiterPc) where
  abbrev Cooks : ChefPc → Chef → Shared → Type 0
  Cooks p c sh =
      sh.f_st.n_groups ≡ n
      → sh.sems waiter_request + hearing w + chef_service p ≤ 1
      → AsksNoFood p sh
      → ChefLoops n p c.n_orders
      → After (λ sh' c'. ChefCounts n w p c sh sh' c') (chef_at p c sh)

  waiting-Cooks : (p : WaitForOrderPc) (c : Chef) (sh : Shared) → Cooks (waiting_for_order p) c sh
  unfolding chef_at
  waiting-Cooks WaitForOrderPc.enter c sh e o a l = ground arith
  waiting-Cooks _ c sh e o a l = ground arith

  processing-Cooks : (p : ProcessOrderPc) (c : Chef) (sh : Shared) → Cooks (processing p) c sh
  unfolding chef_at
  processing-Cooks ProcessOrderPc.enter c sh e o a l = ground arith
  processing-Cooks _ c sh e o a l = ground arith

  pub chef-Cooks : (p : ChefPc) (c : Chef) (sh : Shared) → Cooks p c sh
  unfolding chef_at
  chef-Cooks (waiting_for_order p) c sh e o a l = waiting-Cooks p c sh e o a l
  chef-Cooks (processing p) c sh e o a l = processing-Cooks p c sh e o a l
  chef-Cooks ChefPc.testing c sh e o a l = ground arith
  chef-Cooks ChefPc.finished c sh e o a l = tt
