-- ===== src/History/Rows.antt =====
-- The rows of the log: what each row may show, and how it follows from the row before.
use restaurante_so.Prelude.{
  ℕ, suc, ◌+◌, ◌≤◌, ◌<◌, ◌≡◌, inl, inr, Option, some, List, ◌++◌, refl, update, update_elim, total,
  total-le, total-lt, arith,
}
use restaurante_so.Problem.{
  Stat, FullStat, num_tables, max_groups, go_to_rest, leaving, cook, take_to_table, recv_pay,
}
use restaurante_so.Logging.{state_line}
use restaurante_so.Logging.Widths.{Fits}
use restaurante_so.Setup.{Config, initial_status, created}
use restaurante_so.Receptionist.{Receptionist, ReceptionistPc, receiving, ReceivePaymentPc}
use restaurante_so.System.{System, Reach}
use restaurante_so.Semaphore.{Shared}
use restaurante_so.Reception.{Reach-Protocol}
use restaurante_so.Reception.View.{
  Phase, arriving, posting, queuing, called_in, seated, billing, settling, phase, Desk, DeskView,
  desk_view, owed_table,
}
use restaurante_so.Reception.Places.{ReceptionistKnows}
use restaurante_so.Seats.{Reach-Booked}
use restaurante_so.Seats.Book.{waits}
use restaurante_so.Seats.Facts.{pending}

-- One process shows a status: the chef, the waiter and the receptionist one of theirs, and a group
-- the next one of its life cycle.
pub data Shows (n : ℕ) (old new : Stat) : Type 0 where
  chef_shows : (v : ℕ) → v ≤ cook → new ≡ record old { chef_stat = v } → Shows n old new
  waiter_shows :
      (v : ℕ) → v ≤ take_to_table → new ≡ record old { waiter_stat = v } → Shows n old new
  receptionist_shows :
      (v : ℕ) → v ≤ recv_pay → new ≡ record old { receptionist_stat = v } → Shows n old new
  group_shows :
      (g : ℕ)
      → g < n
      → old.group_stat g < leaving
      → new ≡ record old { group_stat = update old.group_stat g (suc (old.group_stat g)) }
      → Shows n old new

-- The statuses are those of their processes.
pub record InRange (n : ℕ) (st : Stat) : Type 0 where
  pub chef : st.chef_stat ≤ cook
  pub waiter : st.waiter_stat ≤ take_to_table
  pub receptionist : st.receptionist_stat ≤ recv_pay
  pub groups : (g : ℕ) → g < n → (go_to_rest ≤ st.group_stat g) × (st.group_stat g ≤ leaving)

-- The seats that a row shows: the count is at most the number of groups, each table is one of the
-- tables, and no two groups have the same.
pub record SeatsRight (n : ℕ) (waiting : ℕ) (assigned : ℕ → Option ℕ) : Type 0 where
  pub counted : waiting ≤ n
  pub tables : (g t : ℕ) → g < n → assigned g ≡ some t → t < num_tables
  pub exclusive : (g h t : ℕ) → g < n → h < n → assigned g ≡ some t → assigned h ≡ some t → g ≡ h

pub record RowRight (n : ℕ) (f : FullStat) : Type 0 where
  pub same_groups : f.n_groups ≡ n
  pub statuses : InRange n f.st
  pub seats : SeatsRight n f.groups_waiting f.assigned_table

-- A log whose last row is that of the given state.
pub data History (c : Config) : FullStat → List ℕ → Type 0 where
  opening : (log : List ℕ) → log ≡ (created c).log → History c (initial_status c) log
  next_row :
      {f : FullStat} {log : List ℕ} (g : FullStat) (longer : List ℕ)
      → History c f log
      → Shows c.n_groups f.st g.st
      → RowRight c.n_groups g
      → longer ≡ log ++ state_line g
      → History c g longer

pub InRange-Shows : {n : ℕ} {old new : Stat} → InRange n old → Shows n old new → InRange n new
InRange-Shows a (chef_shows v le e) =
    rw e (record { chef = le; waiter = a.waiter; receptionist = a.receptionist; groups = a.groups })
InRange-Shows a (waiter_shows v le e) =
    rw e (record { chef = a.chef; waiter = le; receptionist = a.receptionist; groups = a.groups })
InRange-Shows a (receptionist_shows v le e) =
    rw e (record { chef = a.chef; waiter = a.waiter; receptionist = le; groups = a.groups })
InRange-Shows {old} a (group_shows g lt below e) = rw e (record {
  chef = a.chef;
  waiter = a.waiter;
  receptionist = a.receptionist;
  groups = λ h lh.
      update_elim (λ _ v. (go_to_rest ≤ v) × (v ≤ leaving)) old.group_stat g
        (suc (old.group_stat g)) h (omega (arith, below)) (λ other. a.groups h lh);
})

-- With at most MAXGROUPS groups what a row shows fits in its columns.
pub Fits-of_RowRight : {n : ℕ} {f : FullStat} → n ≤ max_groups → RowRight n f → Fits f
Fits-of_RowRight {n} {f} few a = record {
  chef = omega (arith, a.statuses.chef);
  waiter = omega (arith, a.statuses.waiter);
  receptionist = omega (arith, a.statuses.receptionist);
  groups = λ g lt. omega (arith, a.statuses.groups g (omega (arith, lt, a.same_groups)));
  waiting = omega (arith, a.seats.counted, few);
  tables = λ g lt t e. omega (arith, a.seats.tables g t (omega (arith, lt, a.same_groups)) e);
}

kind-le : (q : Phase) (v : DeskView) → Desk q v → v.table ≤ 1
kind-le arriving v d = omega (arith, d.no_table)
kind-le posting v d = omega (arith, d.0.no_table)
kind-le queuing v d = ground (arith, d.seat)
kind-le called_in v d = omega (arith, d.seat)
kind-le seated v d = omega (arith, d.seat)
kind-le billing v d = omega (arith, d.0.seat)
kind-le settling v d = elim (d.bill) [
  | inl held ↦ omega (arith, held)
  | inr paid ↦ omega (arith, paid)
]

-- A group that is to be handed a table is not recorded as waiting.
handed_waits :
    (q : Phase) (g : ℕ) (sh : Shared) (r : Receptionist)
    → Desk q (desk_view g sh r)
    → owed_table g r.pc ≡ 1
    → waits (r.group_record g) ≡ 0
handed_waits arriving g sh r d e = ground (arith, d.to_arrive)
handed_waits posting g sh r d e = ground (arith, d.0.to_arrive)
handed_waits queuing g sh r d e = ground (arith, d.seat)
handed_waits called_in g sh r d e = ground (arith, d.at_table)
handed_waits seated g sh r d e = ground (arith, d.at_table)
handed_waits billing g sh r d e = ground (arith, d.0.at_table)
handed_waits settling g sh r d e = absurd (omega (arith, d.no_table_owed, e))

waits-le : (v : ℕ) → waits v ≤ 1
waits-le v = ground arith

module _ {c : Config} {k : ℕ} {s : System} (r : Reach c k s) where
  Desk-of :
      (g : ℕ) → g < c.n_groups → Desk (phase (s.groups g)) (desk_view g s.shared s.receptionist)
  Desk-of = (Reach-Protocol r).desk

  -- The group that is handed a table is no longer counted as waiting.
  handed_counts :
      (g : ℕ)
      → g < c.n_groups
      → owed_table g s.receptionist.pc ≡ 1
      → total waits c.n_groups s.receptionist.group_record < c.n_groups
  handed_counts g lt e =
      total-lt waits c.n_groups s.receptionist.group_record g waits-le lt
        (handed_waits (phase (s.groups g)) g s.shared s.receptionist (Desk-of g lt) e)

  waiting_at :
      (p : ReceptionistPc)
      → s.receptionist.pc ≡ p
      → ReceptionistKnows c.n_groups p
      → total waits c.n_groups s.receptionist.group_record + pending p ≤ c.n_groups
  waiting_at (receiving h (ReceivePaymentPc.signal_next g t)) e knows =
      omega (arith, handed_counts g knows.1 (rw e (ground arith)))
  waiting_at (receiving h (ReceivePaymentPc.hand_over g t)) e knows =
      omega (arith, handed_counts g knows.1 (rw e (ground arith)))
  waiting_at (receiving h _) e knows =
      omega (arith, total-le waits 1 c.n_groups s.receptionist.group_record waits-le)
  waiting_at _ e knows =
      omega (arith, total-le waits 1 c.n_groups s.receptionist.group_record waits-le)

  pub Reach-SeatsRight :
      SeatsRight c.n_groups s.shared.f_st.groups_waiting s.shared.f_st.assigned_table
  Reach-SeatsRight = record {
    counted = omega (
      arith,
      (Reach-Booked r).counted,
      waiting_at s.receptionist.pc refl (Reach-Protocol r).knows,
    );
    tables = λ g t lt e. ground (
      arith,
      kind-le (phase (s.groups g)) (desk_view g s.shared s.receptionist) (Desk-of g lt),
      e,
    );
    exclusive = (Reach-Booked r).exclusive;
  }
