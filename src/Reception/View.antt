-- ===== src/Reception/View.antt =====
-- What the shared memory and the receptionist say about one group, as numbers: `DeskView`; and what
-- these numbers must be while the group is in each phase of its visit: `Desk`.
use restaurante_so.Prelude.{ℕ, ◌+◌, ◌≤◌, ◌≡◌, ◌⊎◌, Option, none, some, ltb, ◌==◌, if◌then◌else◌}
use restaurante_so.Problem.{Request, num_tables, table_req, bill_req}
use restaurante_so.Semaphore.{Shared, receptionist_req, wait_for_table}
use restaurante_so.Group.{
  GroupPc, checking_in, ordering, awaiting_food, dining, checking_out, finished, CheckInPc,
  OrderFoodPc, CheckOutPc,
}
use restaurante_so.Receptionist.{
  Receptionist, ReceptionistPc, waiting_for_group, providing, receiving, WaitForGroupPc,
  ProvideTablePc, ReceivePaymentPc,
}

abbrev pub one_if : ℕ → ℕ → ℕ
one_if a b = if a == b then 1 else 0

-- 1 if the request is of type `k` and from group `g`
abbrev pub is_req : ℕ → ℕ → Request → ℕ
is_req k g q = if q.req_type == k then one_if q.req_group g else 0

-- 1 after the receptionist has taken the signal of a request that it has not read
abbrev pub listening : ReceptionistPc → ℕ
listening (waiting_for_group WaitForGroupPc.enter_again) = 1
listening (waiting_for_group WaitForGroupPc.read) = 1
listening _ = 0

-- 1 if the receptionist has read this request, and has not acted on it
abbrev pub in_hand : ℕ → ℕ → ReceptionistPc → ℕ
in_hand k g (waiting_for_group (WaitForGroupPc.exit_again q)) = is_req k g q
in_hand k g (waiting_for_group (WaitForGroupPc.signal_possible q)) = is_req k g q
in_hand k g (providing h ProvideTablePc.enter) = if table_req == k then one_if h g else 0
in_hand k g (providing h ProvideTablePc.write) = if table_req == k then one_if h g else 0
in_hand k g (receiving h ReceivePaymentPc.enter) = if bill_req == k then one_if h g else 0
in_hand k g (receiving h ReceivePaymentPc.write) = if bill_req == k then one_if h g else 0
in_hand k g _ = 0

-- 1 if the receptionist is to signal a table to the group
abbrev pub owed_signal : ℕ → ReceptionistPc → ℕ
owed_signal g (providing h ProvideTablePc.signal) = one_if h g
owed_signal g (receiving _ (ReceivePaymentPc.signal_next h _)) = one_if h g
owed_signal g _ = 0

-- 1 if the receptionist is to write the table of the group, which it has chosen
abbrev pub owed_table : ℕ → ReceptionistPc → ℕ
owed_table g (receiving _ (ReceivePaymentPc.signal_next h _)) = one_if h g
owed_table g (receiving _ (ReceivePaymentPc.hand_over h _)) = one_if h g
owed_table g _ = 0

-- 0 for -1, 1 for a table, 2 for what is neither
abbrev pub table_kind : Option ℕ → ℕ
table_kind none = 0
table_kind (some t) = if ltb t num_tables then 1 else 2

-- 1 if a request stands in `receptionist_request` and is signalled
abbrev pub in_mail : ℕ → ℕ → Shared → ReceptionistPc → ℕ
in_mail k g sh pc =
    if sh.sems receptionist_req + listening pc == 0
    then 0
    else is_req k g sh.f_st.receptionist_request

pub record DeskView : Type 0 where
  pub recorded : ℕ  -- `groupRecord[g]`
  pub table_posted : ℕ  -- a request for a table stands in memory, signalled or not
  pub bill_posted : ℕ
  pub asks_table : ℕ  -- a signalled request for a table, not acted on
  pub asks_bill : ℕ
  pub called : ℕ  -- the value of `waitForTable[g]`
  pub to_call : ℕ
  pub to_hand : ℕ
  pub table : ℕ  -- the kind of `assignedTable[g]`

abbrev pub desk_view : ℕ → Shared → Receptionist → DeskView
desk_view g sh r = record {
  recorded = r.group_record g;
  table_posted = is_req table_req g sh.f_st.receptionist_request;
  bill_posted = is_req bill_req g sh.f_st.receptionist_request;
  asks_table = in_mail table_req g sh r.pc + in_hand table_req g r.pc;
  asks_bill = in_mail bill_req g sh r.pc + in_hand bill_req g r.pc;
  called = sh.sems (wait_for_table g);
  to_call = owed_signal g r.pc;
  to_hand = owed_table g r.pc;
  table = table_kind (sh.f_st.assigned_table g);
}

-- The phases of a visit.
pub data Phase : Type 0 where
  arriving posting queuing called_in seated billing settling : Phase

abbrev pub phase : GroupPc → Phase
phase (checking_in CheckInPc.signal) = posting
phase (checking_in CheckInPc.exit) = queuing
phase (checking_in CheckInPc.await_table) = queuing
phase (ordering OrderFoodPc.await_waiter) = called_in
phase (ordering OrderFoodPc.enter) = called_in
phase (ordering _) = seated
phase (awaiting_food _) = seated
phase dining = seated
phase (checking_out CheckOutPc.await_receptionist) = seated
phase (checking_out CheckOutPc.enter) = seated
phase (checking_out CheckOutPc.write) = seated
phase (checking_out (CheckOutPc.signal _)) = billing
phase (checking_out _) = settling
phase finished = settling
phase _ = arriving

-- Nothing is asked, owed or signalled.
pub record IsQuiet (v : DeskView) : Type 0 where
  pub no_table_asked : v.asks_table ≡ 0
  pub no_bill_asked : v.asks_bill ≡ 0
  pub not_called : v.called ≡ 0
  pub no_call_owed : v.to_call ≡ 0
  pub no_table_owed : v.to_hand ≡ 0

-- A group that the receptionist knows nothing of.
pub record IsUnknown (v : DeskView) : Type 0 where
  pub quiet : IsQuiet v
  pub to_arrive : v.recorded ≡ 0
  pub no_table : v.table ≡ 0

pub record IsQueuing (v : DeskView) : Type 0 where
  pub no_bill_asked : v.asks_bill ≡ 0
  pub not_settled : v.recorded ≤ 2
  pub asking : v.asks_table ≡ one_if v.recorded 0
  pub call : v.called + v.to_call ≡ one_if v.recorded 2
  pub seat : v.table + v.to_hand ≡ one_if v.recorded 2

pub record IsCalled (v : DeskView) : Type 0 where
  pub no_table_asked : v.asks_table ≡ 0
  pub no_bill_asked : v.asks_bill ≡ 0
  pub not_called : v.called ≡ 0
  pub no_call_owed : v.to_call ≡ 0
  pub at_table : v.recorded ≡ 2
  pub seat : v.table + v.to_hand ≡ 1

pub record IsSeated (v : DeskView) : Type 0 where
  pub quiet : IsQuiet v
  pub at_table : v.recorded ≡ 2
  pub seat : v.table ≡ 1

-- The bill is asked for, or has been paid.
pub record IsSettling (v : DeskView) : Type 0 where
  pub no_table_asked : v.asks_table ≡ 0
  pub not_called : v.called ≡ 0
  pub no_call_owed : v.to_call ≡ 0
  pub no_table_owed : v.to_hand ≡ 0
  pub bill :
      ((v.recorded ≡ 2) × (v.asks_bill ≡ 1) × (v.table ≡ 1))
      ⊎ ((v.recorded ≡ 3) × (v.asks_bill ≡ 0) × (v.table ≡ 0))

abbrev pub Desk : Phase → DeskView → Type 0
Desk arriving v = IsUnknown v
Desk posting v = IsUnknown v × (v.table_posted ≡ 1)
Desk queuing v = IsQueuing v
Desk called_in v = IsCalled v
Desk seated v = IsSeated v
Desk billing v = IsSeated v × (v.bill_posted ≡ 1)
Desk settling v = IsSettling v
