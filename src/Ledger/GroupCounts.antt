-- ===== src/Ledger/GroupCounts.antt =====
-- What a step of a group and of the receptionist counts.
use restaurante_so.Prelude.{ℕ, ◌+◌, ◌≡◌, arith}
use restaurante_so.Semaphore.{Shared, receptionist_req, waiter_request}
use restaurante_so.Group.{
  GroupPc, checking_in, ordering, awaiting_food, checking_out, CheckInPc, OrderFoodPc, WaitFoodPc,
  CheckOutPc, group_step,
}
use restaurante_so.Receptionist.{
  Receptionist, ReceptionistPc, waiting_for_group, providing, receiving, WaitForGroupPc,
  ProvideTablePc, ReceivePaymentPc, receptionist_at,
}
use restaurante_so.Waiter.{WaiterPc}
use restaurante_so.Tokens.{After}
use restaurante_so.Service.GroupKeeps.{OneRequest}
use restaurante_so.Ledger.Counts.{
  desk_requests, food_requests, attending, is_food, untold, ReceptionistLoops, GroupFails,
}

pub record GroupAdds (g : ℕ) (w : WaiterPc) (p : GroupPc) (sh sh' : Shared) (p' : GroupPc)
    : Type 0 where
  pub desk :
      sh'.sems receptionist_req + desk_requests p ≡ sh.sems receptionist_req + desk_requests p'
  pub food : sh'.sems waiter_request + food_requests p ≡ sh.sems waiter_request + food_requests p'
  pub told : untold sh' w + food_requests p ≡ untold sh w + food_requests p'
  pub fails : GroupFails g p'

-- The request that a group is about to signal is one for food.
abbrev pub AsksFood : GroupPc → Shared → Type 0
AsksFood (ordering OrderFoodPc.signal) sh = is_food sh.f_st.waiter_request ≡ 1
AsksFood _ sh = Unit

module _ (g : ℕ) (w : WaiterPc) where
  abbrev Adds : GroupPc → Shared → Type 0
  Adds p sh =
      OneRequest p sh w
      → AsksFood p sh
      → After (λ sh' p'. GroupAdds g w p sh sh' p') (group_step g p sh)

  checking_in-Adds : (p : CheckInPc) (sh : Shared) → Adds (checking_in p) sh
  unfolding group_step
  checking_in-Adds CheckInPc.enter sh o a = ground arith
  checking_in-Adds _ sh o a = ground arith

  ordering-Adds : (p : OrderFoodPc) (sh : Shared) → Adds (ordering p) sh
  unfolding group_step
  ordering-Adds OrderFoodPc.enter sh o a = ground arith
  ordering-Adds _ sh o a = ground arith

  awaiting-Adds : (p : WaitFoodPc) (sh : Shared) → Adds (awaiting_food p) sh
  unfolding group_step
  awaiting-Adds WaitFoodPc.enter sh o a = ground arith
  awaiting-Adds _ sh o a = ground arith

  checking_out-Adds : (p : CheckOutPc) (sh : Shared) → Adds (checking_out p) sh
  unfolding group_step
  checking_out-Adds CheckOutPc.enter sh o a = ground arith
  checking_out-Adds _ sh o a = ground arith

  pub group-Adds : (p : GroupPc) (sh : Shared) → Adds p sh
  unfolding group_step
  group-Adds (checking_in p) sh o a = checking_in-Adds p sh o a
  group-Adds (ordering p) sh o a = ordering-Adds p sh o a
  group-Adds (awaiting_food p) sh o a = awaiting-Adds p sh o a
  group-Adds (checking_out p) sh o a = checking_out-Adds p sh o a
  group-Adds _ sh o a = ground arith

pub record DeskCounts (n : ℕ) (p : ReceptionistPc) (r : Receptionist) (sh sh' : Shared)
    (r' : Receptionist) : Type 0 where
  pub counted :
      r'.n_req + attending r'.pc + sh'.sems receptionist_req
      ≡ r.n_req + attending p + sh.sems receptionist_req
  pub loops : ReceptionistLoops n r'.pc r'.n_req

module _ (n : ℕ) (r : Receptionist) where
  abbrev Counts : ReceptionistPc → Shared → Type 0
  Counts p sh =
      sh.f_st.n_groups ≡ n
      → ReceptionistLoops n p r.n_req
      → After (λ sh' r'. DeskCounts n p r sh sh' r') (receptionist_at p r sh)

  waiting-Counts : (p : WaitForGroupPc) (sh : Shared) → Counts (waiting_for_group p) sh
  unfolding receptionist_at
  waiting-Counts WaitForGroupPc.enter sh e l = ground arith
  waiting-Counts _ sh e l = ground arith

  providing-Counts : (h : ℕ) (p : ProvideTablePc) (sh : Shared) → Counts (providing h p) sh
  unfolding receptionist_at
  providing-Counts h ProvideTablePc.enter sh e l = ground arith
  providing-Counts h _ sh e l = ground arith

  receiving-Counts : (h : ℕ) (p : ReceivePaymentPc) (sh : Shared) → Counts (receiving h p) sh
  unfolding receptionist_at
  receiving-Counts h ReceivePaymentPc.enter sh e l = ground arith
  receiving-Counts h _ sh e l = ground arith

  pub receptionist-Counts : (p : ReceptionistPc) (sh : Shared) → Counts p sh
  unfolding receptionist_at
  receptionist-Counts (waiting_for_group p) sh e l = waiting-Counts p sh e l
  receptionist-Counts (providing h p) sh e l = providing-Counts h p sh e l
  receptionist-Counts (receiving h p) sh e l = receiving-Counts h p sh e l
  receptionist-Counts ReceptionistPc.testing sh e l = ground arith
  receptionist-Counts ReceptionistPc.finished sh e l = tt
