-- ===== src/Reception/DeskSteps.antt =====
-- The single steps of the receptionist that change what the desk knows of a group.
use restaurante_so.Prelude.{ℕ, ◌+◌, ◌≤◌, ◌≡◌, Option, none, some, update, arith}
use restaurante_so.Semaphore.{Shared, Outcome, next, blocked, fault, receptionist_req}
use restaurante_so.Receptionist.{
  Receptionist, ReceptionistPc, waiting_for_group, providing, receiving, WaitForGroupPc,
  ProvideTablePc, ReceivePaymentPc, receptionist_at, after_provide, seat_or_wait, after_receive,
  choose_next, settled, wait,
}
use restaurante_so.Tokens.{After, receptionist_reception}
use restaurante_so.Reception.View.{Phase, arriving, Desk, DeskView, desk_view, table_kind}
use restaurante_so.Reception.GroupKeeps.{Alike, Alike-Desk}

-- The receptionist at a place `p` that it is about to leave.
abbrev pub at_place : ReceptionistPc → Receptionist → Receptionist
at_place p r = record r { pc = p }

abbrev pub WaitsIn : (ℕ → ℕ) → Option ℕ → Type 0
WaitsIn groups none = Unit
WaitsIn groups (some k) = groups k ≡ wait

module _ (g : ℕ) (q : Phase) (r : Receptionist) where
  abbrev pub StaysAlike : ReceptionistPc → Shared → Type 0
  StaysAlike p sh =
      sh.sems receptionist_req + receptionist_reception p ≤ 1
      → After (λ sh' r'. Alike q (desk_view g sh (at_place p r)) (desk_view g sh' r'))
          (receptionist_at p r sh)

  pub waiting_for_group_alike :
      (p : WaitForGroupPc) (sh : Shared) → StaysAlike (waiting_for_group p) sh
  unfolding receptionist_at
  waiting_for_group_alike WaitForGroupPc.enter sh one = ground arith
  waiting_for_group_alike _ sh one = ground arith

  pub testing_alike : (sh : Shared) → StaysAlike ReceptionistPc.testing sh
  unfolding receptionist_at
  testing_alike sh one = ground arith

  abbrev pub KeepsDesk : ReceptionistPc → Shared → Type 0
  KeepsDesk p sh =
      Desk q (desk_view g sh (at_place p r))
      → After (λ sh' r'. Desk q (desk_view g sh' r')) (receptionist_at p r sh)

-- Where a step goes on with a view that is alike, the desk is kept.
pub After-Alike :
    (g : ℕ) (q : Phase) (v : DeskView) (o : Outcome Receptionist)
    → Desk q v
    → After (λ sh' r'. Alike q v (desk_view g sh' r')) o
    → After (λ sh' r'. Desk q (desk_view g sh' r')) o
After-Alike g q v (next sh r) d a = Alike-Desk q a d
After-Alike g q v blocked d a = tt
After-Alike g q v fault d a = tt

-- Seating or queuing the group `h`, at the table that was decided.
module _ (g h : ℕ) (r : Receptionist) where
  abbrev pub Seats : Phase → Option ℕ → Shared → Type 0
  Seats q o sh =
      table_kind o ≤ 1
      → Desk q (desk_view g sh (at_place (providing h ProvideTablePc.write) r))
      → After (λ sh' r'. Desk q (desk_view g sh' r'))
          (after_provide r h (seat_or_wait h o r.group_record sh))

  pub seats : (q : Phase) (o : Option ℕ) (sh : Shared) → Seats q o sh
  unfolding after_provide seat_or_wait
  seats arriving none sh k d = ground arith
  seats arriving (some t) sh k d = ground arith
  seats _ none sh k d = ground arith
  seats _ (some t) sh k d = ground arith

  pub providing_signal_keeps :
      (q : Phase) (sh : Shared) → KeepsDesk g q r (providing h ProvideTablePc.signal) sh
  unfolding receptionist_at
  providing_signal_keeps arriving sh d = ground arith
  providing_signal_keeps _ sh d = ground arith

  -- The payment of `h`: its table is free, and it is settled.
  abbrev pub free_table : Shared → Shared
  free_table sh = record sh {
    f_st = record (sh.f_st) { assigned_table = update sh.f_st.assigned_table h none };
  }

  abbrev pub paid : Receptionist
  paid = record r {
    pc = receiving h (ReceivePaymentPc.exit none);
    group_record = update r.group_record h settled;
  }

  pub pays :
      (q : Phase) (sh : Shared)
      → Desk q (desk_view g sh (at_place (receiving h ReceivePaymentPc.write) r))
      → Desk q (desk_view g (free_table sh) paid)
  pays arriving sh d = ground arith
  pays _ sh d = ground arith

  -- The choice of the next group, which waits.
  pub chooses :
      (q : Phase) (o t : Option ℕ) (sh : Shared)
      → WaitsIn (update r.group_record h settled) o
      → Desk q (desk_view g sh paid)
      → After
          (λ sh' r'. Desk q (desk_view g sh' r'))
          (after_receive r h (choose_next o t (update r.group_record h settled) sh))
  unfolding after_receive choose_next
  chooses arriving none t sh w d = ground arith
  chooses arriving (some k) t sh w d = ground arith
  chooses _ none t sh w d = ground arith
  chooses _ (some k) t sh w d = ground arith

  pub receiving_signal_keeps :
      (k : ℕ) (t : Option ℕ) (q : Phase) (sh : Shared)
      → KeepsDesk g q r (receiving h (ReceivePaymentPc.signal_next k t)) sh
  unfolding receptionist_at
  receiving_signal_keeps k t arriving sh d = ground arith
  receiving_signal_keeps k t _ sh d = ground arith

  pub receiving_hand_over_keeps :
      (k : ℕ) (t : Option ℕ) (q : Phase) (sh : Shared)
      → table_kind t ≡ 1
      → KeepsDesk g q r (receiving h (ReceivePaymentPc.hand_over k t)) sh
  unfolding receptionist_at
  receiving_hand_over_keeps k t arriving sh kind d = ground arith
  receiving_hand_over_keeps k t _ sh kind d = ground arith

-- `hand_over` carries a table.
abbrev pub HandsTable : ReceivePaymentPc → Type 0
HandsTable (ReceivePaymentPc.hand_over k t) = table_kind t ≡ 1
HandsTable _ = Unit

abbrev pub HandsAt : ReceptionistPc → Type 0
HandsAt (receiving h p) = HandsTable p
HandsAt _ = Unit
