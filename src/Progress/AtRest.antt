-- ===== src/Progress/AtRest.antt =====
-- Where every process waits or has finished, all have finished.
use restaurante_so.Prelude.{
  ℕ, ◌+◌, ◌*◌, ◌≤◌, ◌<◌, ◌≡◌, inl, inr, refl, ap, ◌∙◌, some, true, total-all, le-total, Bool-cases,
  arith, ◌==◌,
}
use restaurante_so.Problem.{max_groups}
use restaurante_so.Setup.{Config}
use restaurante_so.Semaphore.{
  Shared, receptionist_req, waiter_request, waiter_request_possible, table_done,
}
use restaurante_so.Group.{GroupPc}
use restaurante_so.Receptionist.{ReceptionistPc, waiting_for_group, WaitForGroupPc}
use restaurante_so.Waiter.{WaiterPc, waiting_for_request, informing, WaitForRequestPc, InformChefPc}
use restaurante_so.Chef.{ChefPc, waiting_for_order, processing, WaitForOrderPc, ProcessOrderPc}
use restaurante_so.System.{System, Reach}
use restaurante_so.Tokens.{waiter_order}
use restaurante_so.Reception.View.{table_kind}
use restaurante_so.Seats.Book.{waits}
use restaurante_so.Seats.Facts.{carried}
use restaurante_so.Ledger.Counts.{
  desk_requests, food_requests, attending, serving, cooking, untold, ReceptionistLoops, WaiterLoops,
  ChefLoops,
}
use restaurante_so.Payments.Counts.{pays_at}
use restaurante_so.Progress.Rests.{DeskRests, WaiterRests, ChefRests}
use restaurante_so.Progress.Slots.{
  Known, Reach-Known, AllRest, SlotsFree, SlotsFree-of_AllRest, desk_empty,
}
use restaurante_so.Progress.Kitchen.{IsEmpty, kitchen-IsEmpty}
use restaurante_so.Progress.Ends.{
  KitchenQuiet-of_rest, DeskQuiet-of_rest, desk_idle, IsLeft, IsLeft-of_rest, left_has_none,
  finished_of_left,
}

-- All processes have finished.
pub record IsOver (n : ℕ) (s : System) : Type 0 where
  pub groups : (g : ℕ) → g < n → s.groups g ≡ GroupPc.finished
  pub receptionist : s.receptionist.pc ≡ ReceptionistPc.finished
  pub waiter : s.waiter.pc ≡ WaiterPc.finished
  pub chef : s.chef.pc ≡ ChefPc.finished

desk_over :
    (n k req : ℕ) (sh : Shared) (p : ReceptionistPc)
    → DeskRests sh p
    → ReceptionistLoops n p k
    → k + attending p + req ≡ n * 2
    → req ≡ 0
    → p ≡ ReceptionistPc.finished
desk_over n k req sh (waiting_for_group WaitForGroupPc.await_request) w l e z = absurd (omega arith)
desk_over n k req sh (waiting_for_group WaitForGroupPc.enter) w l e z = absurd w
desk_over n k req sh (waiting_for_group _) w l e z = absurd w
desk_over n k req sh ReceptionistPc.finished w l e z = refl
desk_over n k req sh _ w l e z = absurd w

waiter_over :
    (n k req : ℕ) (sh : Shared) (p : WaiterPc)
    → WaiterRests sh p
    → waiter_order p ≡ 0
    → WaiterLoops n p k
    → k + serving p + req ≡ n * 2
    → req ≡ 0
    → p ≡ WaiterPc.finished
waiter_over n k req sh (waiting_for_request WaitForRequestPc.await_request) w o l e z =
    absurd (omega arith)
waiter_over n k req sh (waiting_for_request WaitForRequestPc.enter) w o l e z = absurd w
waiter_over n k req sh (waiting_for_request _) w o l e z = absurd w
waiter_over n k req sh (informing h InformChefPc.await_chef) w o l e z = absurd (omega arith)
waiter_over n k req sh (informing h InformChefPc.enter) w o l e z = absurd w
waiter_over n k req sh (informing h _) w o l e z = absurd w
waiter_over n k req sh WaiterPc.finished w o l e z = refl
waiter_over n k req sh _ w o l e z = absurd w

-- The chef has made all orders.
chef_over :
    (n j : ℕ) (sh : Shared) (p : ChefPc)
    → ChefRests sh p
    → sh.sems waiter_request_possible ≡ 1
    → ChefLoops n p j
    → cooking p + j ≡ n
    → (p ≡ ChefPc.finished) × (j ≡ n)
chef_over n j sh (waiting_for_order WaitForOrderPc.await_order) w o l e = absurd (omega arith)
chef_over n j sh (waiting_for_order WaitForOrderPc.enter) w o l e = absurd w
chef_over n j sh (waiting_for_order _) w o l e = absurd w
chef_over n j sh (processing ProcessOrderPc.await_waiter) w o l e = absurd (omega arith)
chef_over n j sh (processing ProcessOrderPc.enter) w o l e = absurd w
chef_over n j sh (processing _) w o l e = absurd w
chef_over n j sh ChefPc.finished w o l e = (refl, omega arith)
chef_over n j sh _ w o l e = absurd w

untold_zero :
    (sh : Shared) (p : WaiterPc) → WaiterRests sh p → sh.sems waiter_request ≡ 0 → untold sh p ≡ 0
untold_zero sh (waiting_for_request WaitForRequestPc.enter) w e = absurd w
untold_zero sh (waiting_for_request _) w e = ground arith
untold_zero sh (informing h InformChefPc.enter) w e = absurd w
untold_zero sh (informing h _) w e = ground arith
untold_zero sh _ w e = ground arith

module _ {c : Config} {k : ℕ} {s : System} (r : Reach c k s) (few : c.n_groups ≤ max_groups)
    (a : AllRest c.n_groups s) where
  known : Known c.n_groups s
  known = Reach-Known r

  slots : SlotsFree s
  slots = SlotsFree-of_AllRest known.protocol.balance a

  no_request : s.shared.sems receptionist_req ≡ 0
  no_request = desk_empty known.ledger a

  empty : IsEmpty s.shared s.waiter.pc
  empty = kitchen-IsEmpty r a

  unpaid :
      (g : ℕ)
      → g < c.n_groups
      → (t : ℕ) → s.shared.sems (table_done t) ≡ 0
      → pays_at t (s.groups g) ≡ 0
  unpaid g lt t e = omega (
    arith,
    known.paid t,
    desk_idle t s.shared s.receptionist.pc a.desk no_request,
    le-total (pays_at t) c.n_groups s.groups g lt,
    e,
  )

  left : (g : ℕ) → g < c.n_groups → IsLeft (s.groups g)
  left g lt =
      IsLeft-of_rest g s.shared _ (s.groups g)
        (record {
          desk_open = omega (arith, slots.reception, no_request);
          kitchen_open = omega (arith, slots.service, empty);
          quiet =
              KitchenQuiet-of_rest g s.shared s.waiter.pc s.chef a.waiter a.chef empty.0 empty.1
                (omega (arith, slots.service, empty));
          receipt = refl;
          food = refl;
          serve = known.service.serve g lt;
          carries = known.service.carries g lt;
          paid = unpaid g lt;
          fails = known.ledger.fails g lt;
          in_bounds = omega (arith, few, lt);
        })
        (a.groups g lt)

  no_table : (g : ℕ) → g < c.n_groups → table_kind (s.shared.f_st.assigned_table g) ≡ 0
  no_table g lt =
      left_has_none g s.shared s.receptionist (s.groups g) (left g lt) (a.groups g lt)
        (known.protocol.desk g lt)
        (DeskQuiet-of_rest g s.shared s.receptionist.pc s.receptionist a.desk no_request)

  -- If a group waited, the first table would be held.
  none_waits : (g : ℕ) → g < c.n_groups → waits (s.receptionist.group_record g) ≡ 0
  none_waits g lt = elim (Bool-cases (s.receptionist.group_record g == 1)) [
    | inr other ↦ rw other refl
    | inl waiting ↦
        elim (known.booked.full 0 (omega arith) (
          omega (
            arith,
            le-total waits c.n_groups s.receptionist.group_record g lt,
            one_waits g waiting,
          ))) [
            | inl (h, lh, e) ↦ absurd (omega (arith, no_table h lh, ap table_kind e))
            | inr e ↦ absurd (no_carried e)
          ]
  ]
    where
      one_waits :
          (h : ℕ)
          → (s.receptionist.group_record h == 1) ≡ true
          → waits (s.receptionist.group_record h) ≡ 1
      one_waits h e = rw e refl

      no_carried : carried s.receptionist.pc ≡ some 0 → ⊥
      no_carried e = ground (arith, desk_idle 0 s.shared s.receptionist.pc a.desk no_request)

  all_finished : (g : ℕ) → g < c.n_groups → s.groups g ≡ GroupPc.finished
  all_finished g lt =
      finished_of_left g s.shared s.receptionist (s.groups g) (left g lt) (a.groups g lt)
        (known.protocol.desk g lt)
        (DeskQuiet-of_rest g s.shared s.receptionist.pc s.receptionist a.desk no_request)
        (none_waits g lt)

  chef_done : (s.chef.pc ≡ ChefPc.finished) × (s.chef.n_orders ≡ c.n_groups)
  chef_done =
      chef_over c.n_groups s.chef.n_orders s.shared s.chef.pc a.chef
        (omega (arith, slots.service, empty)) known.ledger.chef_loops
        (omega (
          arith,
          known.ledger.told,
          untold_zero s.shared s.waiter.pc a.waiter empty.0,
          empty,
          total-all food_requests GroupPc.finished c.n_groups s.groups all_finished,
        ))

  pub IsOver-of_rest : IsOver c.n_groups s
  IsOver-of_rest = record {
    groups = all_finished;
    receptionist =
        desk_over c.n_groups s.receptionist.n_req _ s.shared s.receptionist.pc a.desk
          known.ledger.desk_loops
          (known.ledger.desk
            ∙ total-all desk_requests GroupPc.finished c.n_groups s.groups all_finished)
          no_request;
    waiter =
        waiter_over c.n_groups s.waiter.n_req _ s.shared s.waiter.pc a.waiter empty.2
          known.ledger.waiter_loops
          (omega (
            arith,
            known.ledger.food,
            chef_done.1,
            total-all food_requests GroupPc.finished c.n_groups s.groups all_finished,
          ))
          empty.0;
    chef = chef_done.0;
  }
