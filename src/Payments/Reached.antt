-- ===== src/Payments/Reached.antt =====
-- The payments of each table in every reachable state.
use restaurante_so.Prelude.{
  ℕ, ◌≤◌, ◌<◌, ◌≡◌, ◌≢◌, ◌⊎◌, inl, inr, refl, ap, Option, total, total-update, total-const,
  le-total, Bool-cases, ◌==◌, if◌then◌else◌, arith,
}
use restaurante_so.Problem.{Request, bill_req, table_req}
use restaurante_so.Setup.{Config, set_up}
use restaurante_so.Semaphore.{Shared, next, table_done}
use restaurante_so.Group.{GroupPc, checking_in, checking_out, CheckInPc, CheckOutPc}
use restaurante_so.Receptionist.{
  Receptionist, ReceptionistPc, receptionist_step, providing, receiving, ProvideTablePc,
  ReceivePaymentPc,
}
use restaurante_so.Waiter.{
  Waiter, WaiterPc, waiting_for_request, informing, taking, WaitForRequestPc, InformChefPc,
  TakeFoodPc, waiter_at, waiter_step,
}
use restaurante_so.Chef.{
  Chef, ChefPc, waiting_for_order, processing, WaitForOrderPc, ProcessOrderPc, chef_at, chef_step,
}
use restaurante_so.System.{
  System, launch, Step, group_moves, receptionist_moves, waiter_moves, chef_moves, Reach, start,
  later,
}
use restaurante_so.Tokens.{After, after_next, group_reception, receptionist_reception}
use restaurante_so.Reception.{Protocol, Reach-Protocol}
use restaurante_so.Reception.View.{
  Phase, arriving, phase, Desk, desk_view, is_req, in_mail, listening,
}
use restaurante_so.Reception.DeskSteps.{at_place}
use restaurante_so.Reception.Places.{ReceptionistKnows}
use restaurante_so.Reception.ServantKeeps.{waiter_keeps, chef_keeps}
use restaurante_so.Service.{Service, Reach-Service}
use restaurante_so.Service.GroupKeeps.{Carries}
use restaurante_so.Service.Places.{group_leaves}
use restaurante_so.Payments.Counts.{pays_at, bill_in_hand}
use restaurante_so.Payments.GroupPays.{Bills, group-Pays}
use restaurante_so.Payments.DeskPays.{MaySeat, receptionist-Pays, sum_at}

-- For each table: the receipts there, on their way or still to be written are as many as the groups
-- that have asked for a bill there and have not passed `tableDone`.
abbrev pub Paid : ℕ → System → Type 0
Paid n s = (t : ℕ) → sum_at t s.shared s.receptionist.pc ≡ total (pays_at t) n s.groups

no_bill :
    (k m : ℕ) (q : Request)
    → (if m == 0 then 0 else is_req bill_req k q) ≡ 0
    → (m ≡ 0) ⊎ (q.req_type ≢ bill_req) ⊎ (q.req_group ≢ k)
no_bill k m q e = elim (Bool-cases (m == 0)) [
  | inl none ↦ inl (ground arith)
  | inr some ↦ elim (Bool-cases (q.req_type == bill_req)) [
    | inr other ↦ inr (inl (ground arith))
    | inl bill ↦ inr (inr (ground arith))
  ]
]

providing_no_bill :
    (h : ℕ) (q : Phase) (sh : Shared) (r : Receptionist)
    → Desk q (desk_view h sh (at_place (providing h ProvideTablePc.write) r))
    → in_mail bill_req h sh (providing h ProvideTablePc.write) ≡ 0
providing_no_bill h arriving sh r d = ground arith
providing_no_bill h _ sh r d = ground arith

receiving_no_bill :
    (h : ℕ) (q : Phase) (sh : Shared) (r : Receptionist)
    → Desk q (desk_view h sh (at_place (receiving h ReceivePaymentPc.write) r))
    → in_mail bill_req h sh (receiving h ReceivePaymentPc.write) ≡ 0
receiving_no_bill h arriving sh r d = ground arith
receiving_no_bill h _ sh r d = ground arith

handing_no_bill :
    (h k : ℕ) (q : Phase) (sh : Shared) (r : Receptionist) (t : Option ℕ)
    → Desk q (desk_view k sh (at_place (receiving h (ReceivePaymentPc.hand_over k t)) r))
    → in_mail bill_req k sh (receiving h (ReceivePaymentPc.hand_over k t)) ≡ 0
handing_no_bill h k arriving sh r t d = ground arith
handing_no_bill h k _ sh r t d = ground arith

MaySeat-of_Desk :
    (n : ℕ) (p : ReceptionistPc) (sh : Shared) (r : Receptionist) (phases : ℕ → Phase)
    → ReceptionistKnows n p
    → ((g : ℕ) → g < n → Desk (phases g) (desk_view g sh (at_place p r)))
    → MaySeat p sh
MaySeat-of_Desk n (providing h ProvideTablePc.write) sh r phases k d =
    no_bill h _ sh.f_st.receptionist_request (providing_no_bill h (phases h) sh r (d h k))
MaySeat-of_Desk n (providing h _) sh r phases k d = tt
MaySeat-of_Desk n (receiving h ReceivePaymentPc.write) sh r phases k d =
    no_bill h _ sh.f_st.receptionist_request (receiving_no_bill h (phases h) sh r (d h k))
MaySeat-of_Desk n (receiving h (ReceivePaymentPc.hand_over j t)) sh r phases k d =
    no_bill j _ sh.f_st.receptionist_request (handing_no_bill h j (phases j) sh r t (d j k.1))
MaySeat-of_Desk n (receiving h _) sh r phases k d = tt
MaySeat-of_Desk n _ sh r phases k d = tt

table_posted_type : (g : ℕ) (q : Request) → is_req table_req g q ≡ 1 → q.req_type ≡ 1
table_posted_type g q e = ground arith

bill_posted_type :
    (g : ℕ) (q : Request) → is_req bill_req g q ≡ 1 → (q.req_type ≡ bill_req) × (q.req_group ≡ g)
bill_posted_type g q e = ground arith

Bills-of_Desk :
    (g : ℕ) (p : GroupPc) (sh : Shared) (r : Receptionist)
    → Carries p sh g
    → Desk (phase p) (desk_view g sh r)
    → Bills p g sh
Bills-of_Desk g (checking_in CheckInPc.signal) sh r k d =
    table_posted_type g sh.f_st.receptionist_request d.1
Bills-of_Desk g (checking_in _) sh r k d = tt
Bills-of_Desk g (checking_out (CheckOutPc.signal o)) sh r k d =
    let e = bill_posted_type g sh.f_st.receptionist_request d.1 in (e.0, e.1, k)
Bills-of_Desk g (checking_out _) sh r k d = tt
Bills-of_Desk g _ sh r k d = tt

-- The waiter and the chef touch no receipt.
abbrev SameReceipts : Shared → Shared → Type 0
SameReceipts sh sh' = (t : ℕ) → sh'.sems (table_done t) ≡ sh.sems (table_done t)

waiter_receipts :
    (p : WaiterPc) (w : Waiter) (sh : Shared)
    → After (λ sh' _. SameReceipts sh sh') (waiter_at p w sh)
unfolding waiter_at
waiter_receipts (waiting_for_request WaitForRequestPc.enter) w sh = ground arith
waiter_receipts (waiting_for_request _) w sh = ground arith
waiter_receipts (informing h InformChefPc.enter) w sh = ground arith
waiter_receipts (informing h _) w sh = ground arith
waiter_receipts (taking h TakeFoodPc.enter) w sh = ground arith
waiter_receipts (taking h _) w sh = ground arith
waiter_receipts _ w sh = ground arith

chef_receipts :
    (p : ChefPc) (c : Chef) (sh : Shared) → After (λ sh' _. SameReceipts sh sh') (chef_at p c sh)
unfolding chef_at
chef_receipts (waiting_for_order WaitForOrderPc.enter) c sh = ground arith
chef_receipts (waiting_for_order _) c sh = ground arith
chef_receipts (processing ProcessOrderPc.enter) c sh = ground arith
chef_receipts (processing _) c sh = ground arith
chef_receipts _ c sh = ground arith

listening-le : (p : ReceptionistPc) → listening p ≤ receptionist_reception p
listening-le p = ground arith

pub Step-Paid : {n : ℕ} {s t : System} → Protocol n s → Service n s → Paid n s → Step s t → Paid n t
unfolding receptionist_step waiter_step chef_step
Step-Paid {n} {s} i v l (group_moves g {sh} {p} below moves) t =
    let lt : g < n = omega (arith, i.balance.same_groups, below) in
    let left = after_next _ _ (group_leaves g (s.groups g) s.shared) moves in
    let pays =
      after_next _ _
        (group-Pays g t s.receptionist.pc (s.groups g) s.shared
          (omega (
            arith,
            i.balance.reception,
            le-total group_reception n s.groups g lt,
            listening-le s.receptionist.pc,
          ))
          (Bills-of_Desk g (s.groups g) s.shared s.receptionist (v.carries g lt) (i.desk g lt)))
        moves in
    omega (
      arith,
      l t,
      pays,
      total-update (pays_at t) n s.groups g p lt,
      ap (λ (a : ℕ → Option ℕ). bill_in_hand t a s.receptionist.pc) left.tables,
    )
Step-Paid {n} {s} i v l (receptionist_moves moves) t =
    let pays =
      after_next _ _
        (receptionist-Pays t s.receptionist s.receptionist.pc s.shared
          (omega (arith, i.balance.reception))
          (MaySeat-of_Desk n s.receptionist.pc s.shared s.receptionist (λ g. phase (s.groups g))
            i.knows i.desk))
        moves in
    omega (arith, l t, pays)
Step-Paid {n} {s} i v l (waiter_moves moves) t =
    let same = after_next _ _ (waiter_keeps s.waiter s.shared) moves in
    let receipts = after_next _ _ (waiter_receipts s.waiter.pc s.waiter s.shared) moves in
    rw (same.tables, same.requests, same.signal, receipts t) (l t)
Step-Paid {n} {s} i v l (chef_moves moves) t =
    let same = after_next _ _ (chef_keeps s.chef s.shared) moves in
    let receipts = after_next _ _ (chef_receipts s.chef.pc s.chef s.shared) moves in
    rw (same.tables, same.requests, same.signal, receipts t) (l t)

launch-Paid : (c : Config) {sh : Shared} → set_up c ≡ next sh tt → Paid c.n_groups (launch sh)
unfolding set_up launch
launch-Paid c e t = ground (arith, total-const (pays_at t) c.n_groups GroupPc.starting refl)

pub Reach-Paid : {c : Config} {k : ℕ} {s : System} → Reach c k s → Paid c.n_groups s
Reach-Paid {c} (start e) = launch-Paid c e
Reach-Paid (later r st) = Step-Paid (Reach-Protocol r) (Reach-Service r) (Reach-Paid r) st
