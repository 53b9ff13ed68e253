-- ===== src/Service/TablesMove.antt =====
-- What a step of the receptionist does to the tables, and that it leaves the kitchen alone.
use restaurante_so.Prelude.{
  ℕ, ◌≡◌, ◌≢◌, ◌⊎◌, ==_refl, inl, inr, refl, Option, none, some, ltb, ◌&&◌, Bool-cases, update,
  arith,
}
use restaurante_so.Problem.{
  Request, max_groups, num_tables, assign_table, recv_pay, set_receptionist_stat,
}
use restaurante_so.Semaphore.{
  Sem, Shared, save_state, waiter_request, wait_order, request_received, food_arrived,
}
use restaurante_so.Receptionist.{
  Receptionist, ReceptionistPc, waiting_for_group, providing, receiving, WaitForGroupPc,
  ProvideTablePc, ReceivePaymentPc, receptionist_at, after_provide, after_receive, seat_or_wait,
  choose_next, decide_table_or_wait, settled,
}
use restaurante_so.Receptionist.Seating.Decisions.{IsFree, Decided}
use restaurante_so.Tokens.{After}
use restaurante_so.Reception.View.{Phase, arriving, seated, billing, IsQuiet, Desk, desk_view}
use restaurante_so.Reception.DeskSteps.{at_place}
use restaurante_so.Seats.Facts.{IsBooked}
use restaurante_so.Seats.Keeps.{decide-Decided}

-- What the waiter, the chef and the groups at their tables read.
pub record KitchenIs (q : Request) (group : ℕ) (sems : Sem → ℕ) (sh : Shared) : Type 0 where
  pub request : sh.f_st.waiter_request ≡ q
  pub order : sh.f_st.food_group ≡ group
  pub signal : sh.sems waiter_request ≡ sems waiter_request
  pub order_signal : sh.sems wait_order ≡ sems wait_order
  pub receipts : (t : ℕ) → sh.sems (request_received t) ≡ sems (request_received t)
  pub food : (t : ℕ) → sh.sems (food_arrived t) ≡ sems (food_arrived t)

abbrev pub SameKitchen : Shared → Shared → Type 0
SameKitchen sh sh' = KitchenIs sh.f_st.waiter_request sh.f_st.food_group sh.sems sh'

-- The group whose table the step may write.
abbrev pub touched : ReceptionistPc → Option ℕ
touched (providing h ProvideTablePc.write) = some h
touched (receiving h ReceivePaymentPc.write) = some h
touched (receiving _ (ReceivePaymentPc.hand_over k _)) = some k
touched _ = none

-- All groups but `k` keep theirs.
abbrev pub OthersStay : Option ℕ → (ℕ → Option ℕ) → Shared → Type 0
OthersStay k assigned sh = (g : ℕ) → k ≢ some g → sh.f_st.assigned_table g ≡ assigned g

-- The group `k` keeps its own, or has none, or one that no group had.
abbrev pub NewTable : ℕ → (ℕ → Option ℕ) → Option ℕ → Option ℕ → Type 0
NewTable n assigned old none = Unit
NewTable n assigned old (some t) = (old ≡ some t) ⊎ IsFree assigned n t

abbrev pub TouchedStays : ℕ → Option ℕ → (ℕ → Option ℕ) → Shared → Type 0
TouchedStays n none assigned sh = Unit
TouchedStays n (some k) assigned sh = NewTable n assigned (assigned k) (sh.f_st.assigned_table k)

abbrev pub Stays : ℕ → Option ℕ → Shared → Shared → Type 0
Stays n k sh sh' =
    SameKitchen sh sh'
    × OthersStay k sh.f_st.assigned_table sh'
    × TouchedStays n k sh.f_st.assigned_table sh'

-- A table that is not changed.
same_table : (n : ℕ) (assigned : ℕ → Option ℕ) (o : Option ℕ) → NewTable n assigned o o
same_table n assigned none = tt
same_table n assigned (some t) = inl refl

module _ (n : ℕ) (r : Receptionist) where
  abbrev Moves : ReceptionistPc → Shared → Type 0
  Moves p sh =
      sh.f_st.n_groups ≡ n
      → IsBooked n sh (at_place p r)
      → After (λ sh' _. Stays n (touched p) sh sh') (receptionist_at p r sh)

  waiting_stays : (p : WaitForGroupPc) (sh : Shared) → Moves (waiting_for_group p) sh
  unfolding receptionist_at
  waiting_stays WaitForGroupPc.enter sh e b = ground arith
  waiting_stays _ sh e b = ground arith

  seat-Stays :
      (h : ℕ) (o : Option ℕ) (sh : Shared)
      → Decided sh.f_st.assigned_table n 0 num_tables o
      → After
          (λ sh' _. Stays n (some h) sh sh')
          (after_provide r h (seat_or_wait h o r.group_record sh))
  unfolding after_provide seat_or_wait
  seat-Stays h none sh d = (
    ground arith,
    λ g other. refl,
    same_table n sh.f_st.assigned_table (sh.f_st.assigned_table h),
  )
  seat-Stays h (some t) sh d =
      (ground arith, λ g other. ground arith, rw (==_refl {a = h} refl) (inr d.2))

  providing_stays : (h : ℕ) (p : ProvideTablePc) (sh : Shared) → Moves (providing h p) sh
  unfolding receptionist_at
  providing_stays h ProvideTablePc.write sh e b =
      elim (Bool-cases (ltb h max_groups && ltb (r.group_record h) 2)) [
        | inl sound ↦ rw sound (
            seat-Stays h (decide_table_or_wait assigning.f_st) assigning
              (decide-Decided n assigning.f_st e))
        | inr unsound ↦ rw unsound tt
      ]
    where
      assigning : Shared
      assigning = save_state (record sh { f_st = set_receptionist_stat sh.f_st assign_table })
  providing_stays h ProvideTablePc.enter sh e b = ground arith
  providing_stays h _ sh e b = ground arith

  choose-Stays :
      (h : ℕ) (o t : Option ℕ) (groups : ℕ → ℕ) (sh : Shared)
      → After
          (λ sh' _. Stays n (some h) sh sh')
          (after_receive r h (
            choose_next o t groups (record sh {
              f_st = record (sh.f_st) { assigned_table = update sh.f_st.assigned_table h none };
            })))
  unfolding after_receive choose_next
  choose-Stays h none t groups sh =
      (ground arith, λ g other. ground arith, rw (==_refl {a = h} refl) tt)
  choose-Stays h (some k) t groups sh =
      (ground arith, λ g other. ground arith, rw (==_refl {a = h} refl) tt)

  receiving_stays : (h : ℕ) (p : ReceivePaymentPc) (sh : Shared) → Moves (receiving h p) sh
  unfolding receptionist_at
  receiving_stays h ReceivePaymentPc.write sh e b = elim (Bool-cases (ltb h max_groups)) [
    | inl sound ↦ elim (Bool-cases (ltb 0 sh.f_st.groups_waiting)) [
      | inl full ↦ rw sound (rw full (choose-Stays h _ _ (update r.group_record h settled) paying))
      | inr empty ↦
          rw sound (rw empty (choose-Stays h none none (update r.group_record h settled) paying))
    ]
    | inr unsound ↦ rw unsound tt
  ]
    where
      paying : Shared
      paying = save_state (record sh { f_st = set_receptionist_stat sh.f_st recv_pay })
  receiving_stays h (ReceivePaymentPc.hand_over k none) sh e b =
      (ground arith, λ g other. ground arith, rw (==_refl {a = k} refl) tt)
  receiving_stays h (ReceivePaymentPc.hand_over k (some t)) sh e b = (
    ground arith,
    λ g other. ground arith,
    rw (==_refl {a = k} refl) (inr (λ g lt. b.promised g t lt refl)),
  )
  receiving_stays h ReceivePaymentPc.enter sh e b = ground arith
  receiving_stays h _ sh e b = ground arith

  pub receptionist_stays : (p : ReceptionistPc) (sh : Shared) → Moves p sh
  unfolding receptionist_at
  receptionist_stays (waiting_for_group p) sh e b = waiting_stays p sh e b
  receptionist_stays (providing h p) sh e b = providing_stays h p sh e b
  receptionist_stays (receiving h p) sh e b = receiving_stays h p sh e b
  receptionist_stays _ sh e b = ground arith

-- The table of a group at its table is not touched.
abbrev pub IsIdle : Phase → Type 0
IsIdle seated = ⊥
IsIdle billing = ⊥
IsIdle _ = Unit

touched_quiet :
    (g : ℕ) (p : ReceptionistPc) (sh : Shared) (r : Receptionist)
    → touched p ≡ some g
    → IsQuiet (desk_view g sh (at_place p r))
    → ⊥
touched_quiet g (providing h ProvideTablePc.write) sh r e d = ground arith
touched_quiet g (providing h _) sh r e d = cc
touched_quiet g (receiving h ReceivePaymentPc.write) sh r e d = ground arith
touched_quiet g (receiving h (ReceivePaymentPc.hand_over k t)) sh r e d = ground arith
touched_quiet g (receiving h _) sh r e d = cc
touched_quiet g (waiting_for_group p) sh r e d = cc
touched_quiet g _ sh r e d = cc

pub touched-IsIdle :
    (g : ℕ) (q : Phase) (p : ReceptionistPc) (sh : Shared) (r : Receptionist)
    → touched p ≡ some g
    → Desk q (desk_view g sh (at_place p r))
    → IsIdle q
touched-IsIdle g seated p sh r e d = touched_quiet g p sh r e d.quiet
touched-IsIdle g billing p sh r e d = touched_quiet g p sh r e d.0.quiet
touched-IsIdle g arriving p sh r e d = tt
touched-IsIdle g _ p sh r e d = tt
