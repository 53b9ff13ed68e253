-- ===== src/Progress/Slots.antt =====
-- What the semaphores of the slots are when no process can move.
use restaurante_so.Prelude.{ℕ, ◌+◌, ◌*◌, ◌≤◌, ◌<◌, ◌≡◌, refl, total, total-zero, total-le, arith}
use restaurante_so.Setup.{Config}
use restaurante_so.Semaphore.{
  Shared, mutex, receptionist_req, receptionist_request_possible, waiter_request,
  waiter_request_possible, wait_order, order_received,
}
use restaurante_so.Group.{GroupPc, group_step}
use restaurante_so.Receptionist.{
  ReceptionistPc, waiting_for_group, WaitForGroupPc, receptionist_step,
}
use restaurante_so.Waiter.{waiter_step}
use restaurante_so.Chef.{chef_step}
use restaurante_so.System.{System, Reach}
use restaurante_so.Tokens.{group_region, group_reception, group_service, waiter_order, Balance}
use restaurante_so.Reception.{Protocol, Reach-Protocol}
use restaurante_so.Seats.{Booked, Reach-Booked}
use restaurante_so.Service.{Service, Reach-Service}
use restaurante_so.Ledger.{Ledger, Reach-Ledger}
use restaurante_so.Ledger.Counts.{desk_requests, food_requests, attending, ReceptionistLoops}
use restaurante_so.Payments.{Paid, Reach-Paid}
use restaurante_so.Progress.Rests.{
  Waits, GroupRests, DeskRests, WaiterRests, ChefRests, group-Waits_outside, group_rests,
  desk-Waits_outside, desk_rests, waiter-Waits_outside, waiter_rests, chef-Waits_outside,
  chef_rests, rests_free, desk_free, waiter_free, chef_free,
}

-- All that is known of a reachable state.
pub record Known (n : ℕ) (s : System) : Type 0 where
  pub protocol : Protocol n s
  pub booked : Booked n s
  pub service : Service n s
  pub ledger : Ledger n s
  pub paid : Paid n s

pub Reach-Known : {c : Config} {k : ℕ} {s : System} → Reach c k s → Known c.n_groups s
Reach-Known r = record {
  protocol = Reach-Protocol r;
  booked = Reach-Booked r;
  service = Reach-Service r;
  ledger = Reach-Ledger r;
  paid = Reach-Paid r;
}

pub record AllWait (n : ℕ) (s : System) : Type 0 where
  pub groups : (g : ℕ) → g < n → Waits (group_step g (s.groups g) s.shared)
  pub desk : Waits (receptionist_step s.receptionist s.shared)
  pub waiter : Waits (waiter_step s.waiter s.shared)
  pub chef : Waits (chef_step s.chef s.shared)

pub record AllRest (n : ℕ) (s : System) : Type 0 where
  pub groups : (g : ℕ) → g < n → GroupRests g s.shared (s.groups g)
  pub desk : DeskRests s.shared s.receptionist.pc
  pub waiter : WaiterRests s.shared s.waiter.pc
  pub chef : ChefRests s.shared s.chef.pc

-- Where all wait, no process is in its critical section, and `mutex` is free.
pub AllRest-of_AllWait : {n : ℕ} {s : System} → Balance n s → AllWait n s → AllRest n s
unfolding receptionist_step waiter_step chef_step
AllRest-of_AllWait {n} {s} b w = record {
  groups = λ g lt. group_rests g s.shared (s.groups g) free (w.groups g lt);
  desk = desk_rests s.shared s.receptionist.pc s.receptionist free w.desk;
  waiter = waiter_rests s.shared s.waiter.pc s.waiter free w.waiter;
  chef = chef_rests s.shared s.chef.pc s.chef free w.chef;
}
  where
    outside : total group_region n s.groups ≡ 0
    outside =
        total-zero group_region n s.groups
          (λ g lt. group-Waits_outside g s.shared (s.groups g) (w.groups g lt))

    free : s.shared.sems mutex ≡ 1
    free = omega (
      arith,
      b.region,
      outside,
      desk-Waits_outside s.shared s.receptionist.pc s.receptionist w.desk,
      waiter-Waits_outside s.shared s.waiter.pc s.waiter w.waiter,
      chef-Waits_outside s.shared s.chef.pc s.chef w.chef,
    )

-- The two semaphores of each slot, and the order, where all are at rest.
pub record SlotsFree (s : System) : Type 0 where
  pub reception : s.shared.sems receptionist_request_possible + s.shared.sems receptionist_req ≡ 1
  pub service : s.shared.sems waiter_request_possible + s.shared.sems waiter_request ≡ 1
  pub order : s.shared.sems wait_order + s.shared.sems order_received ≡ waiter_order s.waiter.pc

pub SlotsFree-of_AllRest : {n : ℕ} {s : System} → Balance n s → AllRest n s → SlotsFree s
SlotsFree-of_AllRest {n} {s} b a =
    let chef = chef_free s.shared s.chef.pc a.chef in
    record {
      reception = omega (
        arith,
        b.reception,
        total-zero group_reception n s.groups
            (λ g lt. (rests_free g s.shared (s.groups g) (a.groups g lt)).0),
        desk_free s.shared s.receptionist.pc a.desk,
      );
      service = omega (
        arith,
        b.service,
        total-zero group_service n s.groups
            (λ g lt. (rests_free g s.shared (s.groups g) (a.groups g lt)).1),
        waiter_free s.shared s.waiter.pc a.waiter,
        chef,
      );
      order = omega (arith, b.order, chef);
    }

desk_requests-le : (p : GroupPc) → desk_requests p ≤ 2
desk_requests-le p = ground arith

pub food_requests-le : (p : GroupPc) → food_requests p ≤ 1
food_requests-le p = ground arith

-- No request to the receptionist is left.
desk_empty_at :
    (n : ℕ) (sh : Shared) (p : ReceptionistPc) (k req asked : ℕ)
    → sh.sems receptionist_req ≡ req
    → DeskRests sh p
    → ReceptionistLoops n p k
    → k + attending p + req ≡ asked
    → asked ≤ n * 2
    → req ≡ 0
desk_empty_at n sh (waiting_for_group WaitForGroupPc.await_request) k req asked same a l e le =
    omega arith
desk_empty_at n sh (waiting_for_group WaitForGroupPc.enter) k req asked same a l e le = absurd a
desk_empty_at n sh (waiting_for_group _) k req asked same a l e le = absurd a
desk_empty_at n sh ReceptionistPc.finished k req asked same a l e le = omega arith
desk_empty_at n sh _ k req asked same a l e le = absurd a

pub desk_empty :
    {n : ℕ} {s : System} → Ledger n s → AllRest n s → s.shared.sems receptionist_req ≡ 0
desk_empty {n} {s} l a =
    desk_empty_at n s.shared s.receptionist.pc s.receptionist.n_req _ _ refl a.desk l.desk_loops
      l.desk (total-le desk_requests 2 n s.groups desk_requests-le)
