-- ===== src/Reception/GroupKeeps.antt =====
-- A step of a group keeps what the desk knows of it, and of any other group.
use restaurante_so.Prelude.{ℕ, ◌+◌, ◌≤◌, ◌≡◌, ◌≢◌, ◌⊎◌, arith}
use restaurante_so.Problem.{Request, table_req, bill_req}
use restaurante_so.Semaphore.{Shared, mutex, receptionist_req}
use restaurante_so.Group.{
  GroupPc, checking_in, ordering, awaiting_food, checking_out, CheckInPc, OrderFoodPc, WaitFoodPc,
  CheckOutPc, group_step,
}
use restaurante_so.Receptionist.{Receptionist}
use restaurante_so.Tokens.{After, group_reception, receptionist_region}
use restaurante_so.Reception.View.{
  Phase, arriving, posting, billing, phase, Desk, is_req, DeskView, desk_view, listening,
  owed_table,
}

-- The receptionist owes a table only inside of its critical section.
pub owed_table-le : (g : ℕ) (r : Receptionist) → owed_table g r.pc ≤ receptionist_region r.pc
owed_table-le g r = ground arith

-- What the counts of the semaphores say to a group at `p`.
pub record Clear (p : GroupPc) (sh : Shared) (r : Receptionist) : Type 0 where
  pub region : sh.sems mutex + receptionist_region r.pc ≤ 1
  pub reception : sh.sems receptionist_req + listening r.pc + group_reception p ≤ 1

module _ (g : ℕ) (r : Receptionist) where
  abbrev KeepsOwn : GroupPc → Shared → Type 0
  KeepsOwn p sh =
      Clear p sh r
      → Desk (phase p) (desk_view g sh r)
      → After (λ sh' p'. Desk (phase p') (desk_view g sh' r)) (group_step g p sh)

  checking_in_own : (p : CheckInPc) (sh : Shared) → KeepsOwn (checking_in p) sh
  unfolding group_step
  checking_in_own CheckInPc.await_receptionist sh c d = ground arith
  checking_in_own _ sh c d = ground arith

  ordering_own : (p : OrderFoodPc) (sh : Shared) → KeepsOwn (ordering p) sh
  unfolding group_step
  ordering_own OrderFoodPc.enter sh c d = ground (arith, owed_table-le g r)
  ordering_own _ sh c d = ground arith

  awaiting_food_own : (p : WaitFoodPc) (sh : Shared) → KeepsOwn (awaiting_food p) sh
  unfolding group_step
  awaiting_food_own WaitFoodPc.enter sh c d = ground arith
  awaiting_food_own _ sh c d = ground arith

  checking_out_own : (p : CheckOutPc) (sh : Shared) → KeepsOwn (checking_out p) sh
  unfolding group_step
  checking_out_own CheckOutPc.await_receptionist sh c d = ground arith
  checking_out_own _ sh c d = ground arith

  pub group_own : (p : GroupPc) (sh : Shared) → KeepsOwn p sh
  unfolding group_step
  group_own (checking_in p) sh c d = checking_in_own p sh c d
  group_own (ordering p) sh c d = ordering_own p sh c d
  group_own (awaiting_food p) sh c d = awaiting_food_own p sh c d
  group_own (checking_out p) sh c d = checking_out_own p sh c d
  group_own _ sh c d = ground arith

-- 1 between the writing of a request and its signal
abbrev pub posts : Phase → ℕ
posts posting = 1
posts billing = 1
posts _ = 0

-- Two views that a group in phase `q` does not tell apart.
pub record Alike (q : Phase) (v v' : DeskView) : Type 0 where
  pub recorded : v'.recorded ≡ v.recorded
  pub asks_table : v'.asks_table ≡ v.asks_table
  pub asks_bill : v'.asks_bill ≡ v.asks_bill
  pub called : v'.called ≡ v.called
  pub to_call : v'.to_call ≡ v.to_call
  pub to_hand : v'.to_hand ≡ v.to_hand
  pub table : v'.table ≡ v.table
  pub posted :
      (posts q ≡ 0) ⊎ ((v'.table_posted ≡ v.table_posted) × (v'.bill_posted ≡ v.bill_posted))

pub Alike-Desk : (q : Phase) {v v' : DeskView} → Alike q v v' → Desk q v → Desk q v'
Alike-Desk arriving a d = ground arith
Alike-Desk _ a d = ground arith

-- A request of `h` is none of `g`.
pub is_req_other : (k j g h : ℕ) (m : Request) → g ≢ h → is_req k h m ≡ 1 → is_req j g m ≡ 0
is_req_other k j g h m other e = ground arith

-- A group `g` in phase `q`, while another group `h` makes a step from `p`.
module _ (g h : ℕ) (other : g ≢ h) (q : Phase) (r : Receptionist) where
  -- What the step of `h` rests on; `posted` is what `Desk` says of `h`.
  pub record Apart (p : GroupPc) (sh : Shared) : Type 0 where
    pub clear : Clear p sh r
    pub one : posts q + group_reception p ≤ 1
    pub posted : Desk (phase p) (desk_view h sh r)

  abbrev KeepsOther : GroupPc → Shared → Type 0
  KeepsOther p sh =
      Apart p sh
      → After (λ sh' p'. Alike q (desk_view g sh r) (desk_view g sh' r)) (group_step h p sh)

  checking_in_other : (p : CheckInPc) (sh : Shared) → KeepsOther (checking_in p) sh
  unfolding group_step
  checking_in_other CheckInPc.signal sh a = ground (
    arith,
    is_req_other table_req table_req g h sh.f_st.receptionist_request other a.posted.1,
    is_req_other table_req bill_req g h sh.f_st.receptionist_request other a.posted.1,
  )
  checking_in_other CheckInPc.write sh a = ground (arith, a.clear, a.one)
  checking_in_other _ sh a = ground arith

  ordering_other : (p : OrderFoodPc) (sh : Shared) → KeepsOther (ordering p) sh
  unfolding group_step
  ordering_other OrderFoodPc.enter sh a = ground arith
  ordering_other _ sh a = ground arith

  awaiting_food_other : (p : WaitFoodPc) (sh : Shared) → KeepsOther (awaiting_food p) sh
  unfolding group_step
  awaiting_food_other WaitFoodPc.enter sh a = ground arith
  awaiting_food_other _ sh a = ground arith

  checking_out_other : (p : CheckOutPc) (sh : Shared) → KeepsOther (checking_out p) sh
  unfolding group_step
  checking_out_other (CheckOutPc.signal t) sh a = ground (
    arith,
    is_req_other bill_req table_req g h sh.f_st.receptionist_request other a.posted.1,
    is_req_other bill_req bill_req g h sh.f_st.receptionist_request other a.posted.1,
  )
  checking_out_other CheckOutPc.write sh a = ground (arith, a.clear, a.one)
  checking_out_other _ sh a = ground arith

  pub group_other : (p : GroupPc) (sh : Shared) → KeepsOther p sh
  unfolding group_step
  group_other (checking_in p) sh a = checking_in_other p sh a
  group_other (ordering p) sh a = ordering_other p sh a
  group_other (awaiting_food p) sh a = awaiting_food_other p sh a
  group_other (checking_out p) sh a = checking_out_other p sh a
  group_other _ sh a = ground arith
