-- ===== src/Safety/Orders.antt =====
-- Orders, requests and payments are neither lost nor doubled.
use restaurante_so.Prelude.{ℕ, ◌+◌, ◌<◌, ◌≡◌, total, arith}
use restaurante_so.Setup.{Config}
use restaurante_so.Semaphore.{receptionist_req, waiter_request, wait_order, table_done}
use restaurante_so.System.{System, Reach}
use restaurante_so.Service.{Reach-Service}
use restaurante_so.Service.View.{want, Serve, serve_view}
use restaurante_so.Ledger.{Reach-Ledger}
use restaurante_so.Ledger.Counts.{desk_requests, food_requests, attending, serving, cooking, untold}
use restaurante_so.Payments.{Reach-Paid}
use restaurante_so.Payments.Counts.{pays_at, bill_in_mail, bill_in_hand, owed_receipt}

-- From the signal of its request for food to the receipt of the waiter's answer, each group has
-- exactly one answer on its way (its request, the waiter's intention, or a unit of the semaphore),
-- and from that signal to the arrival of the food exactly one order on its way (its request, the
-- order for the chef, the dish, the request to take it, or a unit of `foodArrived`). At all other
-- times it has none of them.
pub order_in_one_place :
    {c : Config} {k : ℕ} {s : System}
    → Reach c k s
    → (g : ℕ) → g < c.n_groups
    → Serve (want (s.groups g)) (serve_view g s.shared s.waiter.pc s.chef)
order_in_one_place r = (Reach-Service r).serve

-- The counters of the loops are right: the requests that the receptionist has counted, is handling
-- and has not taken are those that the groups have made; those of the waiter are the requests for
-- food and the orders that the chef has made; and the orders that the chef has made, is making, has
-- not taken and has not been told of are the requests for food.
pub requests_counted :
    {c : Config} {k : ℕ} {s : System}
    → Reach c k s
    → (s.receptionist.n_req + attending s.receptionist.pc + s.shared.sems receptionist_req
        ≡ total desk_requests c.n_groups s.groups)
      × (s.waiter.n_req + serving s.waiter.pc + s.shared.sems waiter_request
          ≡ total food_requests c.n_groups s.groups + s.chef.n_orders)
      × (s.chef.n_orders
            + cooking s.chef.pc
            + s.shared.sems wait_order
            + untold s.shared s.waiter.pc
          ≡ total food_requests c.n_groups s.groups)
requests_counted r = let l = Reach-Ledger r in (l.desk, l.food, omega (arith, l.told))

-- At each table, the units of `tableDone`, the receipts that the receptionist is to signal and the
-- bills that it has not acted on are as many as the groups that have asked for the bill there and
-- have not passed `tableDone`.
pub receipts_match :
    {c : Config} {k : ℕ} {s : System}
    → Reach c k s
    → (t : ℕ)
    → s.shared.sems (table_done t)
        + bill_in_mail t s.shared s.receptionist.pc
        + bill_in_hand t s.shared.f_st.assigned_table s.receptionist.pc
        + owed_receipt t s.receptionist.pc
      ≡ total (pays_at t) c.n_groups s.groups
receipts_match r = Reach-Paid r
