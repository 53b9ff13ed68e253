-- ===== src/Payments/GroupPays.antt =====
-- A step of a group keeps the payments of each table in balance.
use restaurante_so.Prelude.{ℕ, ◌+◌, ◌≤◌, ◌≡◌, arith}
use restaurante_so.Problem.{bill_req}
use restaurante_so.Semaphore.{Shared, receptionist_req, table_done}
use restaurante_so.Group.{
  GroupPc, checking_in, ordering, awaiting_food, checking_out, CheckInPc, OrderFoodPc, WaitFoodPc,
  CheckOutPc, group_step,
}
use restaurante_so.Receptionist.{ReceptionistPc}
use restaurante_so.Tokens.{After, group_reception}
use restaurante_so.Reception.View.{listening}
use restaurante_so.Payments.Counts.{pays_at, bill_in_mail}

-- A request for a bill in memory is from the group that has written it.
abbrev pub Bills : GroupPc → ℕ → Shared → Type 0
Bills (checking_in CheckInPc.signal) g sh = sh.f_st.receptionist_request.req_type ≡ 1
Bills (checking_out (CheckOutPc.signal o)) g sh =
    (sh.f_st.receptionist_request.req_type ≡ bill_req)
    × (sh.f_st.receptionist_request.req_group ≡ g)
    × (o ≡ sh.f_st.assigned_table g)
Bills _ g sh = Unit

module _ (g t : ℕ) (r : ReceptionistPc) where
  abbrev Pays : GroupPc → Shared → Type 0
  Pays p sh =
      sh.sems receptionist_req + listening r + group_reception p ≤ 1
      → Bills p g sh
      → After
          (λ sh' p'.
            (sh'.sems (table_done t) + bill_in_mail t sh' r + pays_at t p
              ≡ sh.sems (table_done t) + bill_in_mail t sh r + pays_at t p'))
          (group_step g p sh)

  checking_in-Pays : (p : CheckInPc) (sh : Shared) → Pays (checking_in p) sh
  unfolding group_step
  checking_in-Pays CheckInPc.enter sh o k = ground arith
  checking_in-Pays _ sh o k = ground arith

  ordering-Pays : (p : OrderFoodPc) (sh : Shared) → Pays (ordering p) sh
  unfolding group_step
  ordering-Pays OrderFoodPc.enter sh o k = ground arith
  ordering-Pays _ sh o k = ground arith

  awaiting-Pays : (p : WaitFoodPc) (sh : Shared) → Pays (awaiting_food p) sh
  unfolding group_step
  awaiting-Pays WaitFoodPc.enter sh o k = ground arith
  awaiting-Pays _ sh o k = ground arith

  checking_out-Pays : (p : CheckOutPc) (sh : Shared) → Pays (checking_out p) sh
  unfolding group_step
  checking_out-Pays CheckOutPc.enter sh o k = ground arith
  checking_out-Pays _ sh o k = ground arith

  pub group-Pays : (p : GroupPc) (sh : Shared) → Pays p sh
  unfolding group_step
  group-Pays (checking_in p) sh o k = checking_in-Pays p sh o k
  group-Pays (ordering p) sh o k = ordering-Pays p sh o k
  group-Pays (awaiting_food p) sh o k = awaiting-Pays p sh o k
  group-Pays (checking_out p) sh o k = checking_out-Pays p sh o k
  group-Pays _ sh o k = ground arith
