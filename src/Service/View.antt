-- ===== src/Service/View.antt =====
-- Where the order of one group is, as numbers: `ServeView`; and what these numbers must be at each
-- place of the group: `Serve`.
use restaurante_so.Prelude.{ℕ, ◌+◌, ◌≡◌, ◌≢◌, ◌⊎◌, Option, none, some, suc, ◌==◌, if◌then◌else◌}
use restaurante_so.Problem.{food_req, food_ready}
use restaurante_so.Semaphore.{
  Sem, Shared, waiter_request, wait_order, request_received, food_arrived,
}
use restaurante_so.Group.{GroupPc, ordering, awaiting_food, OrderFoodPc, WaitFoodPc}
use restaurante_so.Waiter.{
  WaiterPc, waiting_for_request, informing, taking, WaitForRequestPc, InformChefPc, TakeFoodPc,
}
use restaurante_so.Chef.{Chef, ChefPc, waiting_for_order, processing, WaitForOrderPc}
use restaurante_so.Reception.View.{one_if, is_req}

-- 1 after the waiter has taken the signal of a request that it has not read
abbrev pub hearing : WaiterPc → ℕ
hearing (waiting_for_request WaitForRequestPc.enter_again) = 1
hearing (waiting_for_request WaitForRequestPc.read) = 1
hearing _ = 0

-- 1 if a request of type `k` from `g` stands in `waiter_request` and is signalled
abbrev pub in_mail : ℕ → ℕ → Shared → WaiterPc → ℕ
in_mail k g sh p =
    if sh.sems waiter_request + hearing p == 0 then 0 else is_req k g sh.f_st.waiter_request

-- 1 if the waiter has read this request, and has not acted on it
abbrev pub in_hand : ℕ → ℕ → WaiterPc → ℕ
in_hand k g (waiting_for_request (WaitForRequestPc.exit_again q)) = is_req k g q
in_hand k g (waiting_for_request (WaitForRequestPc.signal_possible q)) = is_req k g q
in_hand k g (informing h InformChefPc.enter) = if food_req == k then one_if h g else 0
in_hand k g (informing h InformChefPc.write) = if food_req == k then one_if h g else 0
in_hand k g (taking h TakeFoodPc.enter) = if food_ready == k then one_if h g else 0
in_hand k g (taking h TakeFoodPc.write) = if food_ready == k then one_if h g else 0
in_hand k g _ = 0

-- 1 if the waiter is to acknowledge the request of `g`
abbrev pub owed_receipt : ℕ → WaiterPc → ℕ
owed_receipt g (informing h (InformChefPc.exit _)) = one_if h g
owed_receipt g (informing h (InformChefPc.signal_received _)) = one_if h g
owed_receipt g _ = 0

-- 1 if the waiter has written the order of `g` for the chef, and not signalled it
abbrev pub owed_order : ℕ → WaiterPc → ℕ
owed_order g (informing h (InformChefPc.exit _)) = one_if h g
owed_order g (informing h (InformChefPc.signal_received _)) = one_if h g
owed_order g (informing h InformChefPc.signal_order) = one_if h g
owed_order g _ = 0

-- 1 if the waiter is to signal the food of `g`
abbrev pub owed_food : ℕ → WaiterPc → ℕ
owed_food g (taking h (TakeFoodPc.signal_food _)) = one_if h g
owed_food g _ = 0

-- 1 after the chef has taken the signal of an order that it has not read
abbrev pub reading : ChefPc → ℕ
reading (waiting_for_order WaitForOrderPc.enter) = 1
reading (waiting_for_order WaitForOrderPc.write) = 1
reading _ = 0

-- 1 from the reading of an order to the signal that its food is ready
abbrev pub busy : ChefPc → ℕ
busy (waiting_for_order WaitForOrderPc.exit) = 1
busy (waiting_for_order WaitForOrderPc.acknowledge) = 1
busy (processing _) = 1
busy _ = 0

abbrev pub at_chef : ℕ → Shared → ChefPc → ℕ
at_chef g sh p = if sh.sems wait_order + reading p == 0 then 0 else one_if sh.f_st.food_group g

-- The value of a semaphore that is indexed by a table.
abbrev pub at_table_sem : (ℕ → Sem) → Shared → Option ℕ → ℕ
at_table_sem s sh none = 0
at_table_sem s sh (some t) = sh.sems (s t)

pub record ServeView : Type 0 where
  pub posted : ℕ  -- a request for food stands in memory, signalled or not
  pub asks : ℕ  -- a signalled request for food, not acted on
  pub to_receive : ℕ
  pub received : ℕ  -- the value of `requestReceived` for the group's table
  pub to_order : ℕ
  pub ordered : ℕ  -- a signalled order, not read
  pub cooking : ℕ
  pub ready : ℕ  -- a signalled request to take the food, not acted on
  pub to_serve : ℕ
  pub served : ℕ  -- the value of `foodArrived` for the group's table

abbrev pub serve_view : ℕ → Shared → WaiterPc → Chef → ServeView
serve_view g sh p c = record {
  posted = is_req food_req g sh.f_st.waiter_request;
  asks = in_mail food_req g sh p + in_hand food_req g p;
  to_receive = owed_receipt g p;
  received = at_table_sem request_received sh (sh.f_st.assigned_table g);
  to_order = owed_order g p;
  ordered = at_chef g sh c.pc;
  cooking = if busy c.pc == 0 then 0 else one_if c.last_group g;
  ready = in_mail food_ready g sh p + in_hand food_ready g p;
  to_serve = owed_food g p;
  served = at_table_sem food_arrived sh (sh.f_st.assigned_table g);
}

-- What a group waits for.
pub data Want : Type 0 where
  nothing asking receipt food : Want

abbrev pub want : GroupPc → Want
want (ordering OrderFoodPc.signal) = asking
want (ordering OrderFoodPc.order) = receipt
want (ordering (OrderFoodPc.exit _)) = receipt
want (ordering (OrderFoodPc.await_receipt _)) = receipt
want (awaiting_food WaitFoodPc.enter) = food
want (awaiting_food WaitFoodPc.write) = food
want (awaiting_food (WaitFoodPc.exit _)) = food
want (awaiting_food (WaitFoodPc.await_food _)) = food
want _ = nothing

-- An acknowledgement on its way, and an order or its food.
abbrev pub answers : ServeView → ℕ
answers v = v.asks + v.to_receive + v.received

abbrev pub orders : ServeView → ℕ
orders v = v.asks + v.to_order + v.ordered + v.cooking + v.ready + v.to_serve + v.served

pub record Expects (a b : ℕ) (v : ServeView) : Type 0 where
  pub answer : answers v ≡ a
  pub order : orders v ≡ b

abbrev pub Serve : Want → ServeView → Type 0
Serve nothing v = Expects 0 0 v
Serve asking v = Expects 0 0 v × (v.posted ≡ 1)
Serve receipt v = Expects 1 1 v
Serve food v = Expects 0 1 v

-- The two groups have no table in common.
abbrev pub table_code : Option ℕ → ℕ
table_code none = 0
table_code (some t) = suc t

abbrev pub IsApart : Option ℕ → Option ℕ → Type 0
IsApart a b = (table_code a ≡ 0) ⊎ (table_code a ≢ table_code b)
