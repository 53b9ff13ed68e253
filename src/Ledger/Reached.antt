-- ===== src/Ledger/Reached.antt =====
-- The counts in every reachable state.
use restaurante_so.Prelude.{
  ℕ, ◌+◌, ◌<◌, ◌≡◌, refl, update_elim, total, total-update, total-const, arith,
}
use restaurante_so.Problem.{Request, food_req, food_ready}
use restaurante_so.Setup.{Config, set_up}
use restaurante_so.Semaphore.{Shared, next, receptionist_req, waiter_request, wait_order}
use restaurante_so.Group.{GroupPc, ordering, OrderFoodPc}
use restaurante_so.Receptionist.{receptionist_step}
use restaurante_so.Waiter.{WaiterPc, waiter_step}
use restaurante_so.Chef.{Chef, ChefPc, chef_step, processing, ProcessOrderPc}
use restaurante_so.System.{
  System, launch, Step, group_moves, receptionist_moves, waiter_moves, chef_moves, Reach, start,
  later,
}
use restaurante_so.Tokens.{after_next}
use restaurante_so.Reception.{Protocol, Reach-Protocol}
use restaurante_so.Reception.View.{is_req}
use restaurante_so.Reception.ServantKeeps.{waiter_keeps, chef_keeps}
use restaurante_so.Seats.{Booked, Reach-Booked}
use restaurante_so.Service.{Service, Reach-Service, one_request, chef_clear, stays}
use restaurante_so.Service.View.{want, Serve, serve_view}
use restaurante_so.Service.ChefKeeps.{ChefPosts}
use restaurante_so.Service.Places.{group_leaves}
use restaurante_so.Ledger.Counts.{
  desk_requests, food_requests, attending, serving, cooking, is_food, untold, ReceptionistLoops,
  WaiterLoops, ChefLoops, GroupFails,
}
use restaurante_so.Ledger.GroupCounts.{AsksFood, group-Adds, receptionist-Counts}
use restaurante_so.Ledger.ServantCounts.{waiter-Counts, AsksNoFood, chef-Cooks}

pub record Ledger (n : ℕ) (s : System) : Type 0 where
  pub desk :
      s.receptionist.n_req + attending s.receptionist.pc + s.shared.sems receptionist_req
      ≡ total desk_requests n s.groups
  pub food :
      s.waiter.n_req + serving s.waiter.pc + s.shared.sems waiter_request
      ≡ total food_requests n s.groups + s.chef.n_orders
  pub told :
      untold s.shared s.waiter.pc + s.shared.sems wait_order + cooking s.chef.pc + s.chef.n_orders
      ≡ total food_requests n s.groups
  pub desk_loops : ReceptionistLoops n s.receptionist.pc s.receptionist.n_req
  pub waiter_loops : WaiterLoops n s.waiter.pc s.waiter.n_req
  pub chef_loops : ChefLoops n s.chef.pc s.chef.n_orders
  pub fails : (g : ℕ) → g < n → GroupFails g (s.groups g)

food_of : (g : ℕ) (q : Request) → is_req food_req g q ≡ 1 → is_food q ≡ 1
food_of g q e = ground arith

no_food_of : (g : ℕ) (q : Request) → is_req food_ready g q ≡ 1 → is_food q ≡ 0
no_food_of g q e = ground arith

asks_food :
    (p : GroupPc) (g : ℕ) (sh : Shared) (w : WaiterPc) (c : Chef)
    → Serve (want p) (serve_view g sh w c)
    → AsksFood p sh
asks_food (ordering OrderFoodPc.signal) g sh w c d = food_of g sh.f_st.waiter_request d.1
asks_food (ordering _) g sh w c d = tt
asks_food _ g sh w c d = tt

asks_no_food : (p : ChefPc) (g : ℕ) (sh : Shared) → ChefPosts p g sh → AsksNoFood p sh
asks_no_food (processing ProcessOrderPc.signal) g sh k = no_food_of g sh.f_st.waiter_request k
asks_no_food (processing _) g sh k = tt
asks_no_food _ g sh k = tt

pub Step-Ledger :
    {n : ℕ} {s t : System}
    → Protocol n s
    → Booked n s
    → Service n s
    → Ledger n s
    → Step s t
    → Ledger n t
unfolding receptionist_step waiter_step chef_step
Step-Ledger {n} {s} i b v l (group_moves g {sh} {p} below moves) =
    let lt : g < n = omega (arith, i.balance.same_groups, below) in
    let adds =
      after_next _ _
        (group-Adds g s.waiter.pc (s.groups g) s.shared (one_request i b v g lt)
          (asks_food (s.groups g) g s.shared s.waiter.pc s.chef (v.serve g lt)))
        moves in
    let left = after_next _ _ (group_leaves g (s.groups g) s.shared) moves in
    record {
      desk = omega (arith, l.desk, adds.desk, total-update desk_requests n s.groups g p lt);
      food = omega (arith, l.food, adds.food, total-update food_requests n s.groups g p lt);
      told = omega (
        arith,
        l.told,
        adds.told,
        left.order_signal,
        total-update food_requests n s.groups g p lt,
      );
      desk_loops = l.desk_loops;
      waiter_loops = l.waiter_loops;
      chef_loops = l.chef_loops;
      fails =
          λ j lj. update_elim (λ k q. GroupFails k q) s.groups g p j adds.fails (λ _. l.fails j lj);
    }
Step-Ledger {n} {s} i b v l (receptionist_moves {sh} moves) =
    let counts =
      after_next _ _
        (receptionist-Counts n s.receptionist s.receptionist.pc s.shared i.balance.same_groups
          l.desk_loops)
        moves in
    let same = (stays i b v moves).0 in
    record {
      desk = omega (arith, l.desk, counts.counted);
      food = omega (arith, l.food, same.signal);
      told = rw (same.request, same.signal, same.order_signal) l.told;
      desk_loops = counts.loops;
      waiter_loops = l.waiter_loops;
      chef_loops = l.chef_loops;
      fails = l.fails;
    }
Step-Ledger {n} {s} i b v l (waiter_moves moves) =
    let counts =
      after_next _ _
        (waiter-Counts n s.waiter.pc s.waiter s.shared i.balance.same_groups
          (omega (arith, i.balance.service)) l.waiter_loops)
        moves in
    let same = after_next _ _ (waiter_keeps s.waiter s.shared) moves in
    record {
      desk = omega (arith, l.desk, same.signal);
      food = omega (arith, l.food, counts.counted);
      told = omega (arith, l.told, counts.told);
      desk_loops = l.desk_loops;
      waiter_loops = counts.loops;
      chef_loops = l.chef_loops;
      fails = l.fails;
    }
Step-Ledger {n} {s} i b v l (chef_moves moves) =
    let counts =
      after_next _ _
        (chef-Cooks n s.waiter.pc s.chef.pc s.chef s.shared i.balance.same_groups
          (chef_clear i b v).request
          (asks_no_food s.chef.pc s.chef.last_group s.shared v.chef_posts) l.chef_loops)
        moves in
    let same = after_next _ _ (chef_keeps s.chef s.shared) moves in
    record {
      desk = omega (arith, l.desk, same.signal);
      food = omega (arith, l.food, counts.signalled);
      told = omega (arith, l.told, counts.told, counts.counted);
      desk_loops = l.desk_loops;
      waiter_loops = l.waiter_loops;
      chef_loops = counts.loops;
      fails = l.fails;
    }

launch-Ledger : (c : Config) {sh : Shared} → set_up c ≡ next sh tt → Ledger c.n_groups (launch sh)
unfolding set_up launch
launch-Ledger c e = record {
  desk = ground (arith, total-const desk_requests c.n_groups GroupPc.starting refl);
  food = ground (arith, total-const food_requests c.n_groups GroupPc.starting refl);
  told = ground (arith, total-const food_requests c.n_groups GroupPc.starting refl);
  desk_loops = tt;
  waiter_loops = tt;
  chef_loops = tt;
  fails = λ g lt. tt;
}

pub Reach-Ledger : {c : Config} {k : ℕ} {s : System} → Reach c k s → Ledger c.n_groups s
Reach-Ledger {c} (start e) = launch-Ledger c e
Reach-Ledger (later r st) =
    Step-Ledger (Reach-Protocol r) (Reach-Booked r) (Reach-Service r) (Reach-Ledger r) st
