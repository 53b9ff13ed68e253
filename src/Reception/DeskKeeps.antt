-- ===== src/Reception/DeskKeeps.antt =====
-- A step of the receptionist keeps what the desk must know of each group.
use restaurante_so.Prelude.{
  ltb, ◌&&◌, ℕ, ◌+◌, ◌≤◌, inl, inr, Option, none, some, Bool-cases, update, arith,
}
use restaurante_so.Problem.{
  FullStat, num_tables, max_groups, assign_table, recv_pay, set_receptionist_stat,
}
use restaurante_so.Semaphore.{Shared, save_state, receptionist_req}
use restaurante_so.Receptionist.{
  Receptionist, ReceptionistPc, waiting_for_group, providing, receiving, ProvideTablePc,
  ReceivePaymentPc, receptionist_at, decide_table_or_wait, decide_next_group, settled,
}
use restaurante_so.Receptionist.Seating.Decisions.{
  Decided, Chosen, decide_table_or_wait_lem, decide_next_group_lem,
}
use restaurante_so.Tokens.{receptionist_reception}
use restaurante_so.Reception.View.{Phase, table_kind}
use restaurante_so.Reception.DeskSteps.{
  WaitsIn, KeepsDesk, waiting_for_group_alike, testing_alike, After-Alike, seats, free_table,
  providing_signal_keeps, pays, chooses, receiving_signal_keeps, receiving_hand_over_keeps,
  HandsTable, HandsAt,
}

-- A table that is decided is a table.
kind_of_Decided :
    (assigned : ℕ → Option ℕ) (n : ℕ) (o : Option ℕ)
    → Decided assigned n 0 num_tables o
    → table_kind o ≤ 1
kind_of_Decided assigned n none d = omega arith
kind_of_Decided assigned n (some t) d = ground (arith, d.1)

module _ (g : ℕ) (q : Phase) (h : ℕ) (r : Receptionist) where
  providing_write_keeps : (sh : Shared) → KeepsDesk g q r (providing h ProvideTablePc.write) sh
  unfolding receptionist_at
  providing_write_keeps sh d = elim (Bool-cases (ltb h max_groups && ltb (r.group_record h) 2)) [
    | inl sound ↦ rw sound (
        seats g h r q (decide_table_or_wait assigning.f_st) assigning
          (kind_of_Decided _ _ _ (decide_table_or_wait_lem assigning.f_st)) d)
    | inr unsound ↦ rw unsound tt
  ]
    where
      assigning : Shared
      assigning = save_state (record sh { f_st = set_receptionist_stat sh.f_st assign_table })

  providing_keeps : (p : ProvideTablePc) (sh : Shared) → KeepsDesk g q r (providing h p) sh
  unfolding receptionist_at
  providing_keeps ProvideTablePc.write sh d = providing_write_keeps sh d
  providing_keeps ProvideTablePc.enter sh d =
      After-Alike g q _ (receptionist_at (providing h ProvideTablePc.enter) r sh) d (ground arith)
  providing_keeps ProvideTablePc.signal sh d = providing_signal_keeps g h r q sh d
  providing_keeps ProvideTablePc.exit sh d =
      After-Alike g q _ (receptionist_at (providing h ProvideTablePc.exit) r sh) d (ground arith)

  -- The group that is chosen waits.
  waits_if_Chosen : (groups : ℕ → ℕ) (n : ℕ) (o : Option ℕ) → Chosen groups 0 n o → WaitsIn groups o
  waits_if_Chosen groups n none c = tt
  waits_if_Chosen groups n (some k) c = c.2

  next_waits : (groups : ℕ → ℕ) (f : FullStat) → WaitsIn groups (decide_next_group groups f)
  next_waits groups f = elim (decide_next_group_lem groups f) [
    | inl (empty, e) ↦ rw e tt
    | inr (some_wait, c) ↦ waits_if_Chosen groups f.n_groups _ c
  ]

  receiving_write_keeps : (sh : Shared) → KeepsDesk g q r (receiving h ReceivePaymentPc.write) sh
  unfolding receptionist_at
  receiving_write_keeps sh d = elim (Bool-cases (ltb h max_groups)) [
    | inl sound ↦ elim (Bool-cases (ltb 0 sh.f_st.groups_waiting)) [
      | inl full ↦ rw sound (
          rw full (
            chooses g h r q (decide_next_group groups cleared.f_st) _ cleared
              (next_waits groups cleared.f_st) (pays g h r q receiving_memory d)))
      | inr empty ↦ rw sound (rw empty (pays g h r q receiving_memory d))
    ]
    | inr unsound ↦ rw unsound tt
  ]
    where
      receiving_memory : Shared
      receiving_memory = save_state (record sh { f_st = set_receptionist_stat sh.f_st recv_pay })

      cleared : Shared
      cleared = free_table g h r receiving_memory

      groups : ℕ → ℕ
      groups = update r.group_record h settled

  -- `kind` is what the place says of the table that it carries.
  receiving_keeps :
      (p : ReceivePaymentPc) (sh : Shared) → HandsTable p → KeepsDesk g q r (receiving h p) sh
  unfolding receptionist_at
  receiving_keeps ReceivePaymentPc.write sh kind d = receiving_write_keeps sh d
  receiving_keeps (ReceivePaymentPc.signal_next k t) sh kind d =
      receiving_signal_keeps g h r k t q sh d
  receiving_keeps (ReceivePaymentPc.hand_over k t) sh kind d =
      receiving_hand_over_keeps g h r k t q sh kind d
  receiving_keeps ReceivePaymentPc.enter sh kind d =
      After-Alike g q _ (receptionist_at (receiving h ReceivePaymentPc.enter) r sh) d (ground arith)
  receiving_keeps (ReceivePaymentPc.exit t) sh kind d =
      After-Alike g q _ (receptionist_at (receiving h (ReceivePaymentPc.exit t)) r sh) d
        (ground arith)
  receiving_keeps (ReceivePaymentPc.signal_done t) sh kind d =
      After-Alike g q _ (receptionist_at (receiving h (ReceivePaymentPc.signal_done t)) r sh) d
        (ground arith)

pub receptionist_at_keeps :
    (g : ℕ) (q : Phase) (p : ReceptionistPc) (r : Receptionist) (sh : Shared)
    → sh.sems receptionist_req + receptionist_reception p ≤ 1
    → HandsAt p
    → KeepsDesk g q r p sh
unfolding receptionist_at
receptionist_at_keeps g q (waiting_for_group p) r sh one kind d =
    After-Alike g q _ (receptionist_at (waiting_for_group p) r sh) d
      (waiting_for_group_alike g q r p sh one)
receptionist_at_keeps g q (providing h p) r sh one kind d = providing_keeps g q h r p sh d
receptionist_at_keeps g q (receiving h p) r sh one kind d = receiving_keeps g q h r p sh kind d
receptionist_at_keeps g q ReceptionistPc.testing r sh one kind d =
    After-Alike g q _ (receptionist_at ReceptionistPc.testing r sh) d (testing_alike g q r sh one)
receptionist_at_keeps g q ReceptionistPc.finished r sh one kind d = tt
