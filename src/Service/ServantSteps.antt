-- ===== src/Service/ServantSteps.antt =====
-- A step of the waiter or of the chef keeps the orders of all groups.
use restaurante_so.Prelude.{
  ℕ, ◌≤◌, ◌<◌, ◌≡◌, ◌≢◌, inl, inr, sym, ◌∙◌, some, Bool-cases, ◌==◌, le-total, arith,
}
use restaurante_so.Semaphore.{Shared, next}
use restaurante_so.Receptionist.Seating.Decisions.{IsFree}
use restaurante_so.Waiter.{
  Waiter, WaiterPc, waiter_step, informing, taking, InformChefPc, TakeFoodPc,
}
use restaurante_so.Chef.{Chef, ChefPc, chef_step, processing, ProcessOrderPc}
use restaurante_so.System.{System}
use restaurante_so.Tokens.{group_service, waiter_order, after_next}
use restaurante_so.Reception.{Protocol}
use restaurante_so.Reception.ServantKeeps.{waiter_keeps, chef_keeps}
use restaurante_so.Seats.{Booked}
use restaurante_so.Service.View.{want}
use restaurante_so.Service.WaiterKeeps.{WaiterCarries, serves, IsApartFrom, WaiterClear}
use restaurante_so.Service.WaiterKeeps
use restaurante_so.Service.ChefKeeps
use restaurante_so.Service.ChefKeeps.{ChefPosts, ChefClear}
use restaurante_so.Service.Places.{WaiterKnows}
use restaurante_so.Service.ServantPlaces.{signals, waiter_leaves, chef_leaves, WaiterHas, ChefHas}
use restaurante_so.Service.Transfers.{SameSums-Serve, Carries-stays, WaiterCarries-stays}
use restaurante_so.Service.Protocols.{
  Service, hearing-le, reading-le, posts-le, ne_asking, IsApart-tables,
}

waiter_order-le : (p : WaiterPc) → waiter_order p ≤ 1
waiter_order-le p = ground arith

pub chef_posts_stay :
    (p : ChefPc) (last : ℕ) (sh sh' : Shared)
    → sh'.f_st.waiter_request ≡ sh.f_st.waiter_request
    → ChefPosts p last sh
    → ChefPosts p last sh'
chef_posts_stay (processing ProcessOrderPc.exit) last sh sh' e k = rw e k
chef_posts_stay (processing ProcessOrderPc.signal) last sh sh' e k = rw e k
chef_posts_stay (processing _) last sh sh' e k = tt
chef_posts_stay _ last sh sh' e k = tt

-- The table that the waiter signals is the one of the group that it serves.
signals_table :
    (n : ℕ) (p : WaiterPc) (sh : Shared) (t : ℕ)
    → WaiterKnows n p
    → WaiterCarries p sh
    → IsFree sh.f_st.assigned_table n t
    → signals p ≢ some t
signals_table n (informing h (InformChefPc.signal_received o)) sh t k y free e =
    free h k (sym y.0 ∙ e)
signals_table n (informing h _) sh t k y free e = cc
signals_table n (taking h (TakeFoodPc.signal_food o)) sh t k y free e = free h k (sym y ∙ e)
signals_table n (taking h _) sh t k y free e = cc
signals_table n _ sh t k y free e = cc

serves_apart :
    (n g : ℕ) (p : WaiterPc) (sh : Shared)
    → WaiterKnows n p
    → ((h : ℕ) → h < n → IsApartFrom g sh (some h))
    → IsApartFrom g sh (serves p)
serves_apart n g (informing h p) sh k all = all h k
serves_apart n g (taking h p) sh k all = all h k
serves_apart n g _ sh k all = tt

module _ {n : ℕ} {s : System} (i : Protocol n s) (b : Booked n s) (v : Service n s) where
  open i use {balance}

  apart_from : (g : ℕ) → g < n → IsApartFrom g s.shared (serves s.waiter.pc)
  apart_from g lt = serves_apart n g s.waiter.pc s.shared v.waiter_knows λ h lh.
      elim (Bool-cases (h == g)) [
        | inl same ↦ inl (ground arith)
        | inr other ↦ inr (ground arith, IsApart-tables i b v g h (ground arith) lt lh)
      ]

  waiter_clear : (g : ℕ) → g < n → WaiterClear g s.waiter.pc s.shared s.chef
  waiter_clear g lt = record {
    request = omega (arith, balance.service);
    order = omega (arith, balance.order, reading-le s.chef.pc);
    carries = v.waiter_carries;
    apart = apart_from g lt;
  }

  waiter_has : WaiterHas n s.chef s.waiter.pc s.shared
  waiter_has = record {
    one = omega (arith, balance.service);
    carries = v.waiter_carries;
    mail = v.mail;
    knows = v.waiter_knows;
    order = v.order_knows;
    orders = omega (arith, balance.order, reading-le s.chef.pc);
  }

  pub waiter_keeps_Service :
      {sh : Shared} {w : Waiter}
      → waiter_step s.waiter s.shared ≡ next sh w
      → Service n (record s { shared = sh; waiter = w })
  unfolding waiter_step
  waiter_keeps_Service {sh} {w} moves =
      let left =
        after_next _ _ (waiter_leaves n s.chef s.waiter.pc s.waiter s.shared waiter_has) moves in
      let same = after_next _ _ (waiter_keeps s.waiter s.shared) moves in
      record {
        serve = λ g lt.
            SameSums-Serve (want (s.groups g)) (inr (rw left.request))
              (after_next _ _
                (WaiterKeeps.waiter_moves g s.chef s.waiter.pc s.waiter s.shared
                  (waiter_clear g lt))
                moves)
              (v.serve g lt);
        carries = λ g lt.
            Carries-stays (s.groups g) g s.shared sh (inr (rw same.tables)) (v.carries g lt);
        waiter_carries = left.carries;
        chef_posts =
            chef_posts_stay s.chef.pc s.chef.last_group s.shared sh left.request v.chef_posts;
        bare = λ t free.
            let free' : IsFree s.shared.f_st.assigned_table n t = rw same.tables at free in
            left.bare t
              (signals_table n s.waiter.pc s.shared t v.waiter_knows v.waiter_carries free')
              (v.bare t free');
        mail = left.mail;
        waiter_knows = left.knows;
        order_knows = left.order;
        chef_knows = v.chef_knows;
      }

  pub chef_clear : ChefClear s.chef.pc s.chef.last_group s.shared s.waiter.pc
  chef_clear = record {
    request = omega (arith, balance.service, hearing-le s.waiter.pc);
    order = omega (arith, balance.order, reading-le s.chef.pc, waiter_order-le s.waiter.pc);
    posts = v.chef_posts;
  }

  chef_has : ChefHas n s.waiter.pc s.chef.pc s.chef.last_group s.shared
  chef_has = record {
    clear = chef_clear;
    mail = v.mail;
    order = v.order_knows;
    knows = v.chef_knows;
  }

  pub chef_keeps_Service :
      {sh : Shared} {c : Chef}
      → chef_step s.chef s.shared ≡ next sh c
      → Service n (record s { shared = sh; chef = c })
  unfolding chef_step
  chef_keeps_Service {sh} {c} moves =
      let left =
        after_next _ _ (chef_leaves n s.waiter.pc s.chef.pc s.chef s.shared chef_has) moves in
      let same = after_next _ _ (chef_keeps s.chef s.shared) moves in
      record {
        serve = λ g lt.
            SameSums-Serve (want (s.groups g))
              (elim left.request [
                | inl writes ↦ inl (
                    ne_asking (want (s.groups g)) (
                      omega (
                        arith,
                        balance.service,
                        le-total group_service n s.groups g lt,
                        posts-le (s.groups g),
                      )))
                | inr same_request ↦ inr (rw same_request)
              ])
              (after_next _ _
                (ChefKeeps.chef_moves g s.waiter.pc s.chef.pc s.chef s.shared chef_clear) moves)
              (v.serve g lt);
        carries = λ g lt.
            Carries-stays (s.groups g) g s.shared sh (inr (rw same.tables)) (v.carries g lt);
        waiter_carries =
            WaiterCarries-stays s.waiter.pc s.shared sh left.group (λ h e. rw same.tables)
              v.waiter_carries;
        chef_posts = left.posts;
        bare = λ t free. left.bare t (v.bare t (rw same.tables at free));
        mail = left.mail;
        waiter_knows = v.waiter_knows;
        order_knows = left.order;
        chef_knows = left.knows;
      }
