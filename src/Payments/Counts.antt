-- ===== src/Payments/Counts.antt =====
-- The payments at one table `t`: who waits for a receipt there, and what is on its way.
use restaurante_so.Prelude.{ℕ, ◌+◌, Option, ◌==◌, if◌then◌else◌}
use restaurante_so.Problem.{Request, bill_req}
use restaurante_so.Semaphore.{Shared, receptionist_req}
use restaurante_so.Group.{GroupPc, checking_out, CheckOutPc}
use restaurante_so.Receptionist.{
  ReceptionistPc, waiting_for_group, receiving, WaitForGroupPc, ReceivePaymentPc, is_table,
}
use restaurante_so.Reception.View.{listening}

-- 1 if the table is `t`
abbrev pub is_at : ℕ → Option ℕ → ℕ
is_at t o = if is_table o t then 1 else 0

-- 1 for a group that has signalled its request for the bill and waits at `tableDone[t]`
abbrev pub pays_at : ℕ → GroupPc → ℕ
pays_at t (checking_out (CheckOutPc.exit o)) = is_at t o
pays_at t (checking_out (CheckOutPc.await_payment o)) = is_at t o
pays_at t _ = 0

-- 1 if the request asks for a bill and its group has the table `t`
abbrev pub bill_at : ℕ → (ℕ → Option ℕ) → Request → ℕ
bill_at t assigned q = if q.req_type == bill_req then is_at t (assigned q.req_group) else 0

-- A bill for `t` that is signalled, and not acted on.
abbrev pub bill_in_mail : ℕ → Shared → ReceptionistPc → ℕ
bill_in_mail t sh p =
    if sh.sems receptionist_req + listening p == 0
    then 0
    else bill_at t sh.f_st.assigned_table sh.f_st.receptionist_request

abbrev pub bill_in_hand : ℕ → (ℕ → Option ℕ) → ReceptionistPc → ℕ
bill_in_hand t assigned (waiting_for_group (WaitForGroupPc.exit_again q)) = bill_at t assigned q
bill_in_hand t assigned (waiting_for_group (WaitForGroupPc.signal_possible q)) =
    bill_at t assigned q
bill_in_hand t assigned (receiving h ReceivePaymentPc.enter) = is_at t (assigned h)
bill_in_hand t assigned (receiving h ReceivePaymentPc.write) = is_at t (assigned h)
bill_in_hand t assigned _ = 0

-- 1 if the receptionist is to signal `tableDone[t]`
abbrev pub owed_receipt : ℕ → ReceptionistPc → ℕ
owed_receipt t (receiving _ (ReceivePaymentPc.signal_next _ o)) = is_at t o
owed_receipt t (receiving _ (ReceivePaymentPc.hand_over _ o)) = is_at t o
owed_receipt t (receiving _ (ReceivePaymentPc.exit o)) = is_at t o
owed_receipt t (receiving _ (ReceivePaymentPc.signal_done o)) = is_at t o
owed_receipt t _ = 0
