-- ===== src/Seats/Reached.antt =====
-- The book in every reachable state, and what it says of the tables.
use restaurante_so.Prelude.{ℕ, ◌≡◌, total-same, arith}
use restaurante_so.Setup.{Config, set_up}
use restaurante_so.Semaphore.{Shared, next}
use restaurante_so.Group.{
  GroupPc, checking_in, ordering, awaiting_food, checking_out, CheckInPc, OrderFoodPc, WaitFoodPc,
  CheckOutPc, group_step,
}
use restaurante_so.Receptionist.{receptionist_step}
use restaurante_so.System.{
  System, launch, Step, group_moves, receptionist_moves, waiter_moves, chef_moves, Reach, start,
  later,
}
use restaurante_so.Tokens.{After, after_next}
use restaurante_so.Reception.{Protocol, Reach-Protocol}
use restaurante_so.Reception.View.{phase}
use restaurante_so.Reception.ServantKeeps.{waiter_keeps, chef_keeps}
use restaurante_so.Seats.Book.{waits}
use restaurante_so.Seats.Keeps.{receptionist_at-Book}
use restaurante_so.Seats.Facts.{IsBooked, MayBook-of_Desk}

-- The groups write neither the tables nor the count.
abbrev SameSeats : Shared → Shared → Type 0
SameSeats sh sh' =
    (sh'.f_st.assigned_table ≡ sh.f_st.assigned_table)
    × (sh'.f_st.groups_waiting ≡ sh.f_st.groups_waiting)

pub group-SameSeats :
    (g : ℕ) (p : GroupPc) (sh : Shared) → After (λ sh' _. SameSeats sh sh') (group_step g p sh)
unfolding group_step
group-SameSeats g (checking_in CheckInPc.enter) sh = ground arith
group-SameSeats g (checking_in _) sh = ground arith
group-SameSeats g (ordering OrderFoodPc.enter) sh = ground arith
group-SameSeats g (ordering _) sh = ground arith
group-SameSeats g (awaiting_food WaitFoodPc.enter) sh = ground arith
group-SameSeats g (awaiting_food _) sh = ground arith
group-SameSeats g (checking_out CheckOutPc.enter) sh = ground arith
group-SameSeats g (checking_out _) sh = ground arith
group-SameSeats g _ sh = ground arith

abbrev pub Booked : ℕ → System → Type 0
Booked n s = IsBooked n s.shared s.receptionist

Step-Booked : {n : ℕ} {s t : System} → Protocol n s → Booked n s → Step s t → Booked n t
unfolding receptionist_step
Step-Booked {n} {s} i b (group_moves g lt m) =
    let same = after_next _ _ (group-SameSeats g (s.groups g) s.shared) m in rw (same.0, same.1) b
Step-Booked {n} {s} i b (receptionist_moves m) =
    after_next _ _
      (receptionist_at-Book n s.receptionist s.receptionist.pc s.shared i.balance.same_groups
        i.knows
        (MayBook-of_Desk n s.receptionist.pc s.shared s.receptionist (λ g. phase (s.groups g))
          i.knows i.desk)
        b)
      m
Step-Booked {n} {s} i b (waiter_moves m) =
    let same = after_next _ _ (waiter_keeps s.waiter s.shared) m in rw (same.tables, same.waiting) b
Step-Booked {n} {s} i b (chef_moves m) =
    let same = after_next _ _ (chef_keeps s.chef s.shared) m in rw (same.tables, same.waiting) b

launch-Booked : (c : Config) {sh : Shared} → set_up c ≡ next sh tt → Booked c.n_groups (launch sh)
unfolding set_up launch
launch-Booked c e = record {
  exclusive = λ g h t lg lh eg eh. ground arith;
  promised = λ g t lg e. cc;
  counted = ground (arith, total-same waits c.n_groups 0);
  full = λ t lt pos. absurd (omega (arith, total-same waits c.n_groups 0));
}

pub Reach-Booked : {c : Config} {k : ℕ} {s : System} → Reach c k s → Booked c.n_groups s
Reach-Booked {c} (start e) = launch-Booked c e
Reach-Booked (later r st) = Step-Booked (Reach-Protocol r) (Reach-Booked r) st
