-- ===== src/Tokens/Balanced.antt =====
-- The sums over the whole system: they hold at the start and every step keeps them.
use restaurante_so.Prelude.{ℕ, ◌+◌, ◌<◌, ◌≡◌, refl, arith, total, total-update, total-const}
use restaurante_so.Setup.{Config, set_up}
use restaurante_so.Semaphore.{
  Shared, Outcome, next, mutex, receptionist_req, receptionist_request_possible, waiter_request,
  waiter_request_possible, wait_order, order_received,
}
use restaurante_so.Group.{GroupPc}
use restaurante_so.System.{
  System, launch, Step, group_moves, receptionist_moves, waiter_moves, chef_moves, Reach, start,
  later,
}
use restaurante_so.Tokens.Held.{
  group_region, group_reception, group_service, receptionist_region, receptionist_reception,
  waiter_region, waiter_service, waiter_order, chef_region, chef_service, chef_order,
}
use restaurante_so.Tokens.Conserved.{
  After, group-Conserves, receptionist-Conserves, waiter-Conserves, chef-Conserves,
}

pub record Balance (n : ℕ) (s : System) : Type 0 where
  pub region :
      s.shared.sems mutex
        + total group_region n s.groups
        + receptionist_region s.receptionist.pc
        + waiter_region s.waiter.pc
        + chef_region s.chef.pc
      ≡ 1
  pub reception :
      s.shared.sems receptionist_request_possible
        + s.shared.sems receptionist_req
        + total group_reception n s.groups
        + receptionist_reception s.receptionist.pc
      ≡ 1
  pub service :
      s.shared.sems waiter_request_possible
        + s.shared.sems waiter_request
        + total group_service n s.groups
        + waiter_service s.waiter.pc
        + chef_service s.chef.pc
      ≡ 1
  pub order :
      s.shared.sems wait_order + s.shared.sems order_received + chef_order s.chef.pc
      ≡ waiter_order s.waiter.pc
  pub same_groups : s.shared.f_st.n_groups ≡ n

-- What holds after a step holds of the state that the step leads to.
pub after_next :
    {P : Type 0} (Q : Shared → P → Type 0) (o : Outcome P) {sh : Shared} {p : P}
    → After Q o
    → o ≡ next sh p
    → Q sh p
after_next Q o h e = rw e at h

pub Step-Balance : {n : ℕ} {s t : System} → Balance n s → Step s t → Balance n t
Step-Balance {n} {s} b (group_moves g {sh} {p} lt e) =
    let c = after_next _ _ (group-Conserves g (s.groups g) s.shared) e in
    let i : g < n = omega arith in
    omega (
      arith,
      c,
      total-update group_region n s.groups g p i,
      total-update group_reception n s.groups g p i,
      total-update group_service n s.groups g p i,
    )
Step-Balance {s} b (receptionist_moves e) =
    let c = after_next _ _ (receptionist-Conserves s.receptionist s.shared) e in omega arith
Step-Balance {s} b (waiter_moves e) =
    let c = after_next _ _ (waiter-Conserves s.waiter s.shared) e in omega arith
Step-Balance {s} b (chef_moves e) =
    let c = after_next _ _ (chef-Conserves s.chef s.shared) e in omega arith

-- `main` leaves one unit in `mutex` and one in each of the two semaphores of the request slots.
pub launch-Balance :
    (c : Config) {sh : Shared} → set_up c ≡ next sh tt → Balance c.n_groups (launch sh)
unfolding set_up launch
launch-Balance c e = ground (
  arith,
  total-const group_region c.n_groups GroupPc.starting refl,
  total-const group_reception c.n_groups GroupPc.starting refl,
  total-const group_service c.n_groups GroupPc.starting refl,
)

pub Reach-Balance : {c : Config} {k : ℕ} {s : System} → Reach c k s → Balance c.n_groups s
Reach-Balance {c} (start e) = launch-Balance c e
Reach-Balance (later r st) = Step-Balance (Reach-Balance r) st
