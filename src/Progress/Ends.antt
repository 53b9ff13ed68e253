-- ===== src/Progress/Ends.antt =====
-- Where all processes are at rest, all have finished.
use restaurante_so.Prelude.{ℕ, ◌<◌, ◌≡◌, refl, ap, none, some, arith}
use restaurante_so.Problem.{max_groups}
use restaurante_so.Semaphore.{
  Shared, receptionist_req, receptionist_request_possible, waiter_request, waiter_request_possible,
  wait_order, table_done, request_received, food_arrived,
}
use restaurante_so.Group.{
  GroupPc, checking_in, ordering, awaiting_food, checking_out, failed, CheckInPc, OrderFoodPc,
  WaitFoodPc, CheckOutPc,
}
use restaurante_so.Receptionist.{Receptionist, ReceptionistPc, waiting_for_group, WaitForGroupPc}
use restaurante_so.Waiter.{WaiterPc, waiting_for_request, informing, WaitForRequestPc, InformChefPc}
use restaurante_so.Chef.{
  Chef, ChefPc, waiting_for_order, processing, WaitForOrderPc, ProcessOrderPc,
}
use restaurante_so.Reception.View.{phase, Desk, desk_view, DeskView, table_kind}
use restaurante_so.Reception.DeskSteps.{at_place}
use restaurante_so.Seats.Book.{waits}
use restaurante_so.Seats.Facts.{carried, pending}
use restaurante_so.Service.View.{want, Serve, ServeView, serve_view, at_table_sem}
use restaurante_so.Service.GroupKeeps.{Carries}
use restaurante_so.Service.ChefKeeps.{chef_in}
use restaurante_so.Ledger.Counts.{GroupFails}
use restaurante_so.Payments.Counts.{pays_at, bill_in_mail, bill_in_hand, owed_receipt}
use restaurante_so.Progress.Rests.{GroupRests, DeskRests, WaiterRests, ChefRests}

-- What the kitchen and the desk say of a group at rest: nothing is on its way.
pub record KitchenQuiet (v : ServeView) : Type 0 where
  pub asks : v.asks ≡ 0
  pub to_receive : v.to_receive ≡ 0
  pub to_order : v.to_order ≡ 0
  pub ordered : v.ordered ≡ 0
  pub cooking : v.cooking ≡ 0
  pub ready : v.ready ≡ 0
  pub to_serve : v.to_serve ≡ 0

kitchen_quiet_waiter :
    (g : ℕ) (sh : Shared) (p : WaiterPc) (c : Chef)
    → WaiterRests sh p
    → sh.sems waiter_request ≡ 0
    → ((serve_view g sh p c).asks ≡ 0)
      × ((serve_view g sh p c).to_receive ≡ 0)
      × ((serve_view g sh p c).to_order ≡ 0)
      × ((serve_view g sh p c).ready ≡ 0)
      × ((serve_view g sh p c).to_serve ≡ 0)
kitchen_quiet_waiter g sh (waiting_for_request WaitForRequestPc.enter) c w e = absurd w
kitchen_quiet_waiter g sh (waiting_for_request _) c w e = ground arith
kitchen_quiet_waiter g sh (informing h InformChefPc.enter) c w e = absurd w
kitchen_quiet_waiter g sh (informing h _) c w e = ground arith
kitchen_quiet_waiter g sh _ c w e = ground arith

kitchen_quiet_chef :
    (g : ℕ) (sh : Shared) (p : WaiterPc) (d : ChefPc) (c : Chef)
    → ChefRests sh d
    → sh.sems wait_order ≡ 0
    → sh.sems waiter_request_possible ≡ 1
    → ((serve_view g sh p (chef_in d c)).ordered ≡ 0)
      × ((serve_view g sh p (chef_in d c)).cooking ≡ 0)
kitchen_quiet_chef g sh p (waiting_for_order WaitForOrderPc.enter) c w e f = absurd w
kitchen_quiet_chef g sh p (waiting_for_order _) c w e f = ground arith
kitchen_quiet_chef g sh p (processing ProcessOrderPc.enter) c w e f = absurd w
kitchen_quiet_chef g sh p (processing _) c w e f = ground arith
kitchen_quiet_chef g sh p _ c w e f = ground arith

pub KitchenQuiet-of_rest :
    (g : ℕ) (sh : Shared) (p : WaiterPc) (c : Chef)
    → WaiterRests sh p
    → ChefRests sh c.pc
    → sh.sems waiter_request ≡ 0
    → sh.sems wait_order ≡ 0
    → sh.sems waiter_request_possible ≡ 1
    → KitchenQuiet (serve_view g sh p c)
KitchenQuiet-of_rest g sh p c w d e f k =
    let a = kitchen_quiet_waiter g sh p c w e in
    let b = kitchen_quiet_chef g sh p c.pc c d f k in
    record {
      asks = a.0;
      to_receive = a.1;
      to_order = a.2;
      ordered = b.0;
      cooking = b.1;
      ready = a.3;
      to_serve = a.4;
    }

pub record DeskQuiet (v : DeskView) : Type 0 where
  pub asks_table : v.asks_table ≡ 0
  pub asks_bill : v.asks_bill ≡ 0
  pub to_call : v.to_call ≡ 0
  pub to_hand : v.to_hand ≡ 0

pub DeskQuiet-of_rest :
    (g : ℕ) (sh : Shared) (p : ReceptionistPc) (r : Receptionist)
    → DeskRests sh p
    → sh.sems receptionist_req ≡ 0
    → DeskQuiet (desk_view g sh (at_place p r))
DeskQuiet-of_rest g sh (waiting_for_group WaitForGroupPc.enter) r w e = absurd w
DeskQuiet-of_rest g sh (waiting_for_group _) r w e = ground arith
DeskQuiet-of_rest g sh _ r w e = ground arith

-- Nothing is paid and no table is carried.
pub desk_idle :
    (t : ℕ) (sh : Shared) (p : ReceptionistPc)
    → DeskRests sh p
    → sh.sems receptionist_req ≡ 0
    → (bill_in_mail t sh p ≡ 0)
      × (bill_in_hand t sh.f_st.assigned_table p ≡ 0)
      × (owed_receipt t p ≡ 0)
      × (carried p ≡ none)
      × (pending p ≡ 0)
desk_idle t sh (waiting_for_group WaitForGroupPc.enter) w e = absurd w
desk_idle t sh (waiting_for_group _) w e = ground arith
desk_idle t sh _ w e = ground arith

-- Where a group can still be.
abbrev pub IsLeft : GroupPc → Type 0
IsLeft (checking_in CheckInPc.await_table) = Unit
IsLeft GroupPc.finished = Unit
IsLeft _ = ⊥

pub record Surroundings (g : ℕ) (sh : Shared) (v : ServeView) (p : GroupPc) : Type 0 where
  pub desk_open : sh.sems receptionist_request_possible ≡ 1
  pub kitchen_open : sh.sems waiter_request_possible ≡ 1
  pub quiet : KitchenQuiet v
  pub receipt : v.received ≡ at_table_sem request_received sh (sh.f_st.assigned_table g)
  pub food : v.served ≡ at_table_sem food_arrived sh (sh.f_st.assigned_table g)
  pub serve : Serve (want p) v
  pub carries : Carries p sh g
  pub paid : (t : ℕ) → sh.sems (table_done t) ≡ 0 → pays_at t p ≡ 0
  pub fails : GroupFails g p
  pub in_bounds : g < max_groups

pub IsLeft-of_rest :
    (g : ℕ) (sh : Shared) (v : ServeView) (p : GroupPc)
    → Surroundings g sh v p
    → GroupRests g sh p
    → IsLeft p
IsLeft-of_rest g sh v (checking_in CheckInPc.await_receptionist) a w =
    absurd (omega (arith, a.desk_open, w))
IsLeft-of_rest g sh v (checking_in CheckInPc.await_table) a w = tt
IsLeft-of_rest g sh v (checking_in _) a w = w
IsLeft-of_rest g sh v (ordering OrderFoodPc.await_waiter) a w =
    absurd (omega (arith, a.kitchen_open, w))
IsLeft-of_rest g sh v (ordering (OrderFoodPc.await_receipt none)) a w = w
IsLeft-of_rest g sh v (ordering (OrderFoodPc.await_receipt (some t))) a w =
    absurd (
      omega
        (arith, w, a.quiet, a.serve, a.receipt, ap (at_table_sem request_received sh) a.carries))
IsLeft-of_rest g sh v (ordering OrderFoodPc.enter) a w = w
IsLeft-of_rest g sh v (ordering _) a w = w
IsLeft-of_rest g sh v (awaiting_food (WaitFoodPc.await_food none)) a w = w
IsLeft-of_rest g sh v (awaiting_food (WaitFoodPc.await_food (some t))) a w =
    absurd (omega (arith, w, a.quiet, a.serve, a.food, ap (at_table_sem food_arrived sh) a.carries))
IsLeft-of_rest g sh v (awaiting_food WaitFoodPc.enter) a w = w
IsLeft-of_rest g sh v (awaiting_food _) a w = w
IsLeft-of_rest g sh v (checking_out CheckOutPc.await_receptionist) a w =
    absurd (omega (arith, a.desk_open, w))
IsLeft-of_rest g sh v (checking_out (CheckOutPc.await_payment none)) a w = w
IsLeft-of_rest g sh v (checking_out (CheckOutPc.await_payment (some t))) a w =
    absurd (ground (arith, a.paid t w))
IsLeft-of_rest g sh v (checking_out CheckOutPc.enter) a w = w
IsLeft-of_rest g sh v (checking_out _) a w = w
IsLeft-of_rest g sh v GroupPc.finished a w = tt
IsLeft-of_rest g sh v failed a w = absurd (omega (arith, a.fails, a.in_bounds))
IsLeft-of_rest g sh v _ a w = w

-- A group that waits for a table, or has finished, has none.
pub left_has_none :
    (g : ℕ) (sh : Shared) (r : Receptionist) (p : GroupPc)
    → IsLeft p
    → GroupRests g sh p
    → Desk (phase p) (desk_view g sh r)
    → DeskQuiet (desk_view g sh r)
    → table_kind (sh.f_st.assigned_table g) ≡ 0
left_has_none g sh r (checking_in CheckInPc.await_table) i w d q =
    omega (arith, w, d.call, d.seat, q)
left_has_none g sh r (checking_in CheckInPc.enter) i w d q = absurd i
left_has_none g sh r (checking_in _) i w d q = absurd i
left_has_none g sh r GroupPc.finished i w d q = ground (arith, d.bill, q.asks_bill)
left_has_none g sh r (ordering p) i w d q = absurd i
left_has_none g sh r (awaiting_food p) i w d q = absurd i
left_has_none g sh r (checking_out p) i w d q = absurd i
left_has_none g sh r _ i w d q = absurd i

-- A group that waits for a table is recorded as waiting.
pub finished_of_left :
    (g : ℕ) (sh : Shared) (r : Receptionist) (p : GroupPc)
    → IsLeft p
    → GroupRests g sh p
    → Desk (phase p) (desk_view g sh r)
    → DeskQuiet (desk_view g sh r)
    → waits (r.group_record g) ≡ 0
    → p ≡ GroupPc.finished
finished_of_left g sh r (checking_in CheckInPc.await_table) i w d q no_wait =
    absurd (ground (arith, d.asking, d.call, d.not_settled, q.asks_table, q.to_call))
finished_of_left g sh r (checking_in CheckInPc.enter) i w d q no_wait = absurd i
finished_of_left g sh r (checking_in _) i w d q no_wait = absurd i
finished_of_left g sh r GroupPc.finished i w d q no_wait = refl
finished_of_left g sh r (ordering p) i w d q no_wait = absurd i
finished_of_left g sh r (awaiting_food p) i w d q no_wait = absurd i
finished_of_left g sh r (checking_out p) i w d q no_wait = absurd i
finished_of_left g sh r _ i w d q no_wait = absurd i
