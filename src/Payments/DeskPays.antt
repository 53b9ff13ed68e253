-- ===== src/Payments/DeskPays.antt =====
-- A step of the receptionist keeps the payments of each table in balance.
use restaurante_so.Prelude.{
  ℕ, ◌+◌, ◌≤◌, ◌≡◌, ◌≢◌, ◌⊎◌, inl, inr, Option, none, some, ltb, ◌&&◌, Bool-cases, update, arith,
}
use restaurante_so.Problem.{max_groups, bill_req, assign_table, recv_pay, set_receptionist_stat}
use restaurante_so.Semaphore.{Shared, save_state, receptionist_req, table_done}
use restaurante_so.Receptionist.{
  Receptionist, ReceptionistPc, waiting_for_group, providing, receiving, WaitForGroupPc,
  ProvideTablePc, ReceivePaymentPc, receptionist_at, after_provide, after_receive, seat_or_wait,
  choose_next, decide_table_or_wait, settled,
}
use restaurante_so.Tokens.{After, receptionist_reception}
use restaurante_so.Reception.View.{listening}
use restaurante_so.Payments.Counts.{bill_in_mail, bill_in_hand, owed_receipt}

-- No signalled bill is from the group `k`.
abbrev pub NoBillOf : ℕ → Shared → ReceptionistPc → Type 0
NoBillOf k sh p =
    (sh.sems receptionist_req + listening p ≡ 0)
    ⊎ (sh.f_st.receptionist_request.req_type ≢ bill_req)
    ⊎ (sh.f_st.receptionist_request.req_group ≢ k)

-- What the step from a place rests on.
abbrev pub MaySeat : ReceptionistPc → Shared → Type 0
MaySeat (providing h ProvideTablePc.write) sh = NoBillOf h sh (providing h ProvideTablePc.write)
MaySeat (receiving h ReceivePaymentPc.write) sh = NoBillOf h sh (receiving h ReceivePaymentPc.write)
MaySeat (receiving h (ReceivePaymentPc.hand_over k o)) sh =
    NoBillOf k sh (receiving h (ReceivePaymentPc.hand_over k o))
MaySeat _ sh = Unit

-- What is on its way at `t`, from its parts.
abbrev pub sum_at : ℕ → Shared → ReceptionistPc → ℕ
sum_at t sh p =
    sh.sems (table_done t)
    + bill_in_mail t sh p
    + bill_in_hand t sh.f_st.assigned_table p
    + owed_receipt t p

module _ (t : ℕ) (r : Receptionist) where
  abbrev Pays : ReceptionistPc → Shared → Type 0
  Pays p sh =
      sh.sems receptionist_req + receptionist_reception p ≤ 1
      → MaySeat p sh
      → After (λ sh' r'. sum_at t sh' r'.pc ≡ sum_at t sh p) (receptionist_at p r sh)

  waiting-Pays : (p : WaitForGroupPc) (sh : Shared) → Pays (waiting_for_group p) sh
  unfolding receptionist_at
  waiting-Pays WaitForGroupPc.enter sh o k = ground arith
  waiting-Pays _ sh o k = ground arith

  seat_pays :
      (h : ℕ) (o : Option ℕ) (sh : Shared)
      → NoBillOf h sh (providing h ProvideTablePc.write)
      → After
          (λ sh' r'. sum_at t sh' r'.pc ≡ sum_at t sh (providing h ProvideTablePc.write))
          (after_provide r h (seat_or_wait h o r.group_record sh))
  unfolding after_provide seat_or_wait
  seat_pays h none sh k = ground arith
  seat_pays h (some u) sh k = ground arith

  providing-Pays : (h : ℕ) (p : ProvideTablePc) (sh : Shared) → Pays (providing h p) sh
  unfolding receptionist_at
  providing-Pays h ProvideTablePc.write sh o k =
      elim (Bool-cases (ltb h max_groups && ltb (r.group_record h) 2)) [
        | inl sound ↦ rw sound (seat_pays h (decide_table_or_wait assigning.f_st) assigning k)
        | inr unsound ↦ rw unsound tt
      ]
    where
      assigning : Shared
      assigning = save_state (record sh { f_st = set_receptionist_stat sh.f_st assign_table })
  providing-Pays h ProvideTablePc.enter sh o k = ground arith
  providing-Pays h _ sh o k = ground arith

  choose_pays :
      (h : ℕ) (o : Option ℕ) (groups : ℕ → ℕ) (sh : Shared)
      → NoBillOf h sh (receiving h ReceivePaymentPc.write)
      → After
          (λ sh' r'. sum_at t sh' r'.pc ≡ sum_at t sh (receiving h ReceivePaymentPc.write))
          (after_receive r h (
            choose_next o (sh.f_st.assigned_table h) groups (record sh {
              f_st = record (sh.f_st) { assigned_table = update sh.f_st.assigned_table h none };
            })))
  unfolding after_receive choose_next
  choose_pays h none groups sh k = ground arith
  choose_pays h (some j) groups sh k = ground arith

  receiving-Pays : (h : ℕ) (p : ReceivePaymentPc) (sh : Shared) → Pays (receiving h p) sh
  unfolding receptionist_at
  receiving-Pays h ReceivePaymentPc.write sh o k = elim (Bool-cases (ltb h max_groups)) [
    | inl sound ↦ elim (Bool-cases (ltb 0 sh.f_st.groups_waiting)) [
      | inl full ↦ rw sound (rw full (choose_pays h _ (update r.group_record h settled) paying k))
      | inr empty ↦
          rw sound (rw empty (choose_pays h none (update r.group_record h settled) paying k))
    ]
    | inr unsound ↦ rw unsound tt
  ]
    where
      paying : Shared
      paying = save_state (record sh { f_st = set_receptionist_stat sh.f_st recv_pay })
  receiving-Pays h (ReceivePaymentPc.signal_done none) sh o k = tt
  receiving-Pays h (ReceivePaymentPc.signal_done (some u)) sh o k = ground arith
  receiving-Pays h ReceivePaymentPc.enter sh o k = ground arith
  receiving-Pays h _ sh o k = ground arith

  pub receptionist-Pays : (p : ReceptionistPc) (sh : Shared) → Pays p sh
  unfolding receptionist_at
  receptionist-Pays (waiting_for_group p) sh o k = waiting-Pays p sh o k
  receptionist-Pays (providing h p) sh o k = providing-Pays h p sh o k
  receptionist-Pays (receiving h p) sh o k = receiving-Pays h p sh o k
  receptionist-Pays _ sh o k = ground arith
