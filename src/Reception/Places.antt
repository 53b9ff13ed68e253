-- ===== src/Reception/Places.antt =====
-- What the local variables hold at each place: the numbers of groups are those of groups, and the
-- numbers of tables are those of tables.
use restaurante_so.Prelude.{ℕ, ◌+◌, ◌<◌, ◌≡◌, arith}
use restaurante_so.Problem.{Request, table_req, bill_req}
use restaurante_so.Semaphore.{Shared, Outcome, next, blocked, fault, receptionist_req}
use restaurante_so.Group.{
  GroupPc, checking_in, ordering, awaiting_food, checking_out, CheckInPc, OrderFoodPc, WaitFoodPc,
  CheckOutPc, group_step,
}
use restaurante_so.Receptionist.{
  Receptionist, ReceptionistPc, waiting_for_group, providing, receiving, WaitForGroupPc,
  ReceivePaymentPc,
}
use restaurante_so.Tokens.{After}
use restaurante_so.Reception.View.{phase, Desk, desk_view, listening, table_kind, is_req}
use restaurante_so.Reception.DeskSteps.{HandsAt}
use restaurante_so.Reception.GroupKeeps.{Clear}

-- The tables that a group carries.
abbrev pub GroupKnows : GroupPc → Type 0
GroupKnows (ordering (OrderFoodPc.exit t)) = table_kind t ≡ 1
GroupKnows (ordering (OrderFoodPc.await_receipt t)) = table_kind t ≡ 1
GroupKnows (awaiting_food (WaitFoodPc.exit t)) = table_kind t ≡ 1
GroupKnows (awaiting_food (WaitFoodPc.await_food t)) = table_kind t ≡ 1
GroupKnows (checking_out (CheckOutPc.signal t)) = table_kind t ≡ 1
GroupKnows (checking_out (CheckOutPc.exit t)) = table_kind t ≡ 1
GroupKnows (checking_out (CheckOutPc.await_payment t)) = table_kind t ≡ 1
GroupKnows _ = Unit

-- The groups and tables that the receptionist carries.
abbrev pub ReceptionistKnows : ℕ → ReceptionistPc → Type 0
ReceptionistKnows n (waiting_for_group (WaitForGroupPc.exit_again q)) = q.req_group < n
ReceptionistKnows n (waiting_for_group (WaitForGroupPc.signal_possible q)) = q.req_group < n
ReceptionistKnows n (providing h _) = h < n
ReceptionistKnows n (receiving h (ReceivePaymentPc.signal_next k t)) =
    (h < n) × (k < n) × (table_kind t ≡ 1)
ReceptionistKnows n (receiving h (ReceivePaymentPc.hand_over k t)) =
    (h < n) × (k < n) × (table_kind t ≡ 1)
ReceptionistKnows n (receiving h (ReceivePaymentPc.exit t)) = (h < n) × (table_kind t ≡ 1)
ReceptionistKnows n (receiving h (ReceivePaymentPc.signal_done t)) = (h < n) × (table_kind t ≡ 1)
ReceptionistKnows n (receiving h _) = h < n
ReceptionistKnows n _ = Unit

-- The group of a signalled request that has not been read.
abbrev pub MailKnows : ℕ → Shared → ReceptionistPc → Type 0
MailKnows n sh pc =
    sh.sems receptionist_req + listening pc ≡ 1 → sh.f_st.receptionist_request.req_group < n

pub hands_at : (n : ℕ) (p : ReceptionistPc) → ReceptionistKnows n p → HandsAt p
hands_at n (receiving h (ReceivePaymentPc.hand_over k t)) d = d.2
hands_at n (receiving h _) d = tt
hands_at n _ d = tt

-- A group learns its table while it is seated.
pub group_learns :
    (g : ℕ) (p : GroupPc) (sh : Shared) (r : Receptionist)
    → GroupKnows p
    → Desk (phase p) (desk_view g sh r)
    → After (λ _ p'. GroupKnows p') (group_step g p sh)
unfolding group_step
group_learns g (checking_in CheckInPc.enter) sh r k d = ground arith
group_learns g (checking_in _) sh r k d = ground arith
group_learns g (ordering OrderFoodPc.enter) sh r k d = ground arith
group_learns g (ordering _) sh r k d = ground arith
group_learns g (awaiting_food WaitFoodPc.enter) sh r k d = ground arith
group_learns g (awaiting_food _) sh r k d = ground arith
group_learns g (checking_out CheckOutPc.enter) sh r k d = ground arith
group_learns g (checking_out _) sh r k d = ground arith
group_learns g _ sh r k d = ground arith

-- What is not a fault.
abbrev pub IsSound : {P : Type 0} → Outcome P → Type 0
IsSound (next sh p) = Unit
IsSound blocked = Unit
IsSound fault = ⊥

pub group-IsSound :
    (g : ℕ) (p : GroupPc) (sh : Shared)
    → g < sh.f_st.n_groups
    → GroupKnows p
    → IsSound (group_step g p sh)
unfolding group_step
group-IsSound g (checking_in CheckInPc.enter) sh lt k = ground arith
group-IsSound g (checking_in _) sh lt k = ground arith
group-IsSound g (ordering OrderFoodPc.enter) sh lt k = ground arith
group-IsSound g (ordering _) sh lt k = ground arith
group-IsSound g (awaiting_food WaitFoodPc.enter) sh lt k = ground arith
group-IsSound g (awaiting_food _) sh lt k = ground arith
group-IsSound g (checking_out CheckOutPc.enter) sh lt k = ground arith
group-IsSound g (checking_out _) sh lt k = ground arith
group-IsSound g _ sh lt k = ground arith

-- The request that a group leaves in memory is its own.
group_of_req : (k g : ℕ) (q : Request) → is_req k g q ≡ 1 → q.req_group ≡ g
group_of_req k g q e = ground arith

module _ (n g : ℕ) (lt : g < n) (r : Receptionist) where
  abbrev Mails : GroupPc → Shared → Type 0
  Mails p sh =
      Clear p sh r
      → Desk (phase p) (desk_view g sh r)
      → MailKnows n sh r.pc
      → After (λ sh' _. MailKnows n sh' r.pc) (group_step g p sh)

  checking_in-Mails : (p : CheckInPc) (sh : Shared) → Mails (checking_in p) sh
  unfolding group_step
  checking_in-Mails CheckInPc.signal sh c d m =
      λ e. omega (arith, lt, group_of_req table_req g sh.f_st.receptionist_request d.1)
  checking_in-Mails CheckInPc.write sh c d m = λ e. absurd (omega arith)
  checking_in-Mails _ sh c d m = ground arith

  checking_out-Mails : (p : CheckOutPc) (sh : Shared) → Mails (checking_out p) sh
  unfolding group_step
  checking_out-Mails (CheckOutPc.signal t) sh c d m =
      λ e. omega (arith, lt, group_of_req bill_req g sh.f_st.receptionist_request d.1)
  checking_out-Mails CheckOutPc.write sh c d m = λ e. absurd (omega arith)
  checking_out-Mails _ sh c d m = ground arith

  pub group-Mails : (p : GroupPc) (sh : Shared) → Mails p sh
  unfolding group_step
  group-Mails (checking_in p) sh c d m = checking_in-Mails p sh c d m
  group-Mails (checking_out p) sh c d m = checking_out-Mails p sh c d m
  group-Mails (ordering OrderFoodPc.enter) sh c d m = ground arith
  group-Mails (ordering _) sh c d m = ground arith
  group-Mails (awaiting_food WaitFoodPc.enter) sh c d m = ground arith
  group-Mails (awaiting_food _) sh c d m = ground arith
  group-Mails _ sh c d m = ground arith
