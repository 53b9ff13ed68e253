-- ===== src/Progress/Kitchen.antt =====
-- Where all processes wait or have finished, the kitchen is empty.
use restaurante_so.Prelude.{ℕ, ◌+◌, ◌*◌, ◌≤◌, ◌≡◌, total-le, arith}
use restaurante_so.Setup.{Config}
use restaurante_so.Semaphore.{
  Shared, waiter_request, waiter_request_possible, wait_order, order_received,
}
use restaurante_so.Waiter.{
  WaiterPc, waiting_for_request, informing, taking, WaitForRequestPc, InformChefPc,
}
use restaurante_so.Chef.{ChefPc, waiting_for_order, processing, WaitForOrderPc, ProcessOrderPc}
use restaurante_so.System.{System, Reach}
use restaurante_so.Tokens.{waiter_order}
use restaurante_so.Reception.View.{phase}
use restaurante_so.Safety.Seating.{dining_at_most_tables}
use restaurante_so.Service.View.{want}
use restaurante_so.Ledger.Counts.{food_requests, serving, cooking, untold, WaiterLoops, ChefLoops}
use restaurante_so.Progress.Rests.{WaiterRests, ChefRests}
use restaurante_so.Progress.Slots.{
  Known, Reach-Known, AllRest, SlotsFree, SlotsFree-of_AllRest, food_requests-le,
}
use restaurante_so.Progress.Jam.{IsJam, no_jam_at, orders-le, orders-IsDining}

-- The waiter waits for a request or has finished, and no request and no order is left.
abbrev pub IsEmpty : Shared → WaiterPc → Type 0
IsEmpty sh p = (sh.sems waiter_request ≡ 0) × (sh.sems wait_order ≡ 0) × (waiter_order p ≡ 0)

-- The equations of the slots and of the counts, as numbers.
record Sums (n : ℕ) (sh : Shared) (p : WaiterPc) (d : ChefPc) (n_req n_orders asked : ℕ)
    : Type 0 where
  pub service : sh.sems waiter_request_possible + sh.sems waiter_request ≡ 1
  pub order : sh.sems wait_order + sh.sems order_received ≡ waiter_order p
  pub food : n_req + serving p + sh.sems waiter_request ≡ asked + n_orders
  pub told : untold sh p + sh.sems wait_order + cooking d + n_orders ≡ asked
  pub few : asked ≤ n * 1
  pub waiter_loops : WaiterLoops n p n_req
  pub chef_loops : ChefLoops n d n_orders

IsEmpty-at :
    (n : ℕ) (sh : Shared) (p : WaiterPc) (d : ChefPc) (k j asked : ℕ)
    → Sums n sh p d k j asked
    → WaiterRests sh p
    → ChefRests sh d
    → (IsJam sh p d → ⊥)
    → IsEmpty sh p
IsEmpty-at n sh (waiting_for_request WaitForRequestPc.await_request) d k j asked e w c free =
    omega (arith, e.order, w)
IsEmpty-at n sh (waiting_for_request WaitForRequestPc.enter) d k j asked e w c free = absurd w
IsEmpty-at n sh (waiting_for_request _) d k j asked e w c free = absurd w
IsEmpty-at n sh (informing h InformChefPc.await_chef) (waiting_for_order WaitForOrderPc.await_order)
      k j asked e w c free =
    absurd (omega (arith, e.order, w, c))
IsEmpty-at n sh (informing h InformChefPc.await_chef) (waiting_for_order WaitForOrderPc.enter) k j
      asked e w c free =
    absurd c
IsEmpty-at n sh (informing h InformChefPc.await_chef) (waiting_for_order _) k j asked e w c free =
    absurd c
IsEmpty-at n sh (informing h InformChefPc.await_chef) (processing ProcessOrderPc.await_waiter) k j
      asked e w c free =
    absurd (free (omega (arith, e.service, c), omega (arith, e.order, w)))
IsEmpty-at n sh (informing h InformChefPc.await_chef) (processing ProcessOrderPc.enter) k j asked e
      w c free =
    absurd c
IsEmpty-at n sh (informing h InformChefPc.await_chef) (processing _) k j asked e w c free = absurd c
IsEmpty-at n sh (informing h InformChefPc.await_chef) ChefPc.testing k j asked e w c free = absurd c
IsEmpty-at n sh (informing h InformChefPc.await_chef) ChefPc.finished k j asked e w c free =
    absurd (omega (arith, e.order, w, e.told, e.few, e.chef_loops))
IsEmpty-at n sh (informing h InformChefPc.enter) d k j asked e w c free = absurd w
IsEmpty-at n sh (informing h _) d k j asked e w c free = absurd w
IsEmpty-at n sh (taking h p) d k j asked e w c free = absurd w
IsEmpty-at n sh WaiterPc.testing d k j asked e w c free = absurd w
IsEmpty-at n sh WaiterPc.finished d k j asked e w c free =
    omega (arith, e.order, e.food, e.told, e.few, e.waiter_loops)

-- Where all processes are at rest, no request and no order is left in the kitchen.
pub kitchen-IsEmpty :
    {c : Config} {k : ℕ} {s : System}
    → Reach c k s
    → AllRest c.n_groups s
    → IsEmpty s.shared s.waiter.pc
kitchen-IsEmpty {c} {s} r a =
    IsEmpty-at c.n_groups s.shared s.waiter.pc s.chef.pc s.waiter.n_req s.chef.n_orders _
      (record {
        service = slots.service;
        order = slots.order;
        food = known.ledger.food;
        told = known.ledger.told;
        few = total-le food_requests 1 c.n_groups s.groups food_requests-le;
        waiter_loops = known.ledger.waiter_loops;
        chef_loops = known.ledger.chef_loops;
      })
      a.waiter a.chef
      (no_jam_at c.n_groups s.shared s.waiter.pc s.chef.pc s.chef (λ g. phase (s.groups g))
        known.service.mail known.service.order_knows known.service.chef_knows
        (λ g lt. orders-le (want (s.groups g)) _ (known.service.serve g lt))
        (λ g lt. orders-IsDining (s.groups g) _ (known.service.serve g lt))
        (dining_at_most_tables r))
  where
    known : Known c.n_groups s
    known = Reach-Known r

    slots : SlotsFree s
    slots = SlotsFree-of_AllRest known.protocol.balance a
