-- ===== src/Service/Steps.antt =====
-- Every step keeps the orders of all groups, and they are right in every reachable state.
use restaurante_so.Prelude.{ℕ, ◌≡◌, arith}
use restaurante_so.Setup.{Config, set_up}
use restaurante_so.Semaphore.{Shared, next}
use restaurante_so.System.{
  System, launch, Step, group_moves, receptionist_moves, waiter_moves, chef_moves, Reach, start,
  later,
}
use restaurante_so.Reception.{Protocol, Reach-Protocol}
use restaurante_so.Seats.{Booked, Reach-Booked}
use restaurante_so.Service.Protocols.{Service, group_keeps_Service}
use restaurante_so.Service.ServantSteps.{waiter_keeps_Service, chef_keeps_Service}
use restaurante_so.Service.DeskSteps.{receptionist_keeps_Service}

pub Step-Service :
    {n : ℕ} {s t : System} → Protocol n s → Booked n s → Service n s → Step s t → Service n t
Step-Service {n} i b v (group_moves g lt moves) =
    group_keeps_Service i b v g (omega (arith, i.balance.same_groups, lt)) moves
Step-Service i b v (receptionist_moves moves) = receptionist_keeps_Service i b v moves
Step-Service i b v (waiter_moves moves) = waiter_keeps_Service i b v moves
Step-Service i b v (chef_moves moves) = chef_keeps_Service i b v moves

launch-Service : (c : Config) {sh : Shared} → set_up c ≡ next sh tt → Service c.n_groups (launch sh)
unfolding set_up launch
launch-Service c e = record {
  serve = λ g lt. ground arith;
  carries = λ g lt. tt;
  waiter_carries = tt;
  chef_posts = tt;
  bare = λ t free. ground arith;
  mail = λ h. ground arith;
  waiter_knows = tt;
  order_knows = λ h. ground arith;
  chef_knows = λ h. absurd (omega arith);
}

pub Reach-Service : {c : Config} {k : ℕ} {s : System} → Reach c k s → Service c.n_groups s
Reach-Service {c} (start e) = launch-Service c e
Reach-Service (later r st) = Step-Service (Reach-Protocol r) (Reach-Booked r) (Reach-Service r) st
