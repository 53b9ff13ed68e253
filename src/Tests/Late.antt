-- ===== src/Tests/Late.antt =====
-- A run in which a group takes the acknowledgement of another group's payment, and states of it.
use restaurante_so.Prelude.{pos, ℕ, ◌+◌, ◌<◌, ◌≡◌, ◌⊎◌, refl, List, [], none, some, arith, total}
use restaurante_so.Problem.{leaving, num_tables}
use restaurante_so.Semaphore.{table_done}
use restaurante_so.Setup.{Config}
use restaurante_so.Group.{GroupPc, checking_out, CheckOutPc}
use restaurante_so.Receptionist.Seating.{at_table}
use restaurante_so.Receptionist.Seating.Decisions.{IsHeld}
use restaurante_so.Safety.Exclusion.{Process, group, receptionist, waiter, chef}
use restaurante_so.Safety.Seating.{
  tables_exclusive, waiting_counted, no_idle_table, dining_has_table, dining_at_most_tables,
}
use restaurante_so.Seats.Book.{waits}
use restaurante_so.Seats.Facts.{carried, pending}
use restaurante_so.Schedule.{Run, run, times}

abbrev three : Config
three = record { n_groups = 3; start_time = λ _. pos 0; eat_time = λ _. pos 0 }

-- A group goes on until it waits for the desk, and the desk until it waits for a request.
abbrev visit : ℕ → List Process → List Process
visit g rest = times 10 (group g) (times 20 receptionist rest)

-- A seated group is served, eats and asks for the bill.
abbrev dine : ℕ → List Process → List Process
dine g rest =
    times 10 (group g) (times 30 waiter (times 20 chef (times 30 waiter (times 40 (group g) rest))))

-- Groups 0 and 1 are seated, and group 2 waits.
abbrev arrivals : Run three
arrivals = run three (visit 0 (visit 1 (visit 2 [])))

-- Groups 0 and 1 have their tables and have asked for food.
abbrev at_tables : Run three
at_tables =
    run three (visit 0 (visit 1 (times 10 (group 0) (times 30 waiter (times 10 (group 1) [])))))

abbrev first : ℕ
first = 0

tables_exclusive_example : first ≡ first
unfolding run
tables_exclusive_example =
    tables_exclusive arrivals.reach 0 0 0 (omega arith) (omega arith) refl refl

waiting_counted_example :
    arrivals.last.shared.f_st.groups_waiting
    ≡ total waits 3 arrivals.last.receptionist.group_record + pending arrivals.last.receptionist.pc
waiting_counted_example = waiting_counted arrivals.reach

no_idle_table_example :
    IsHeld arrivals.last.shared.f_st.assigned_table 3 0
    ⊎ (carried arrivals.last.receptionist.pc ≡ some 0)
unfolding run
no_idle_table_example = no_idle_table arrivals.reach 0 (omega arith) (omega arith)

dining_has_table_example :
    (t : ℕ) × (t < num_tables) × (at_tables.last.shared.f_st.assigned_table 0 ≡ some t)
unfolding run
dining_has_table_example = dining_has_table at_tables.reach 0 (omega arith) _

dining_at_most_tables_example : (first ≡ 1) ⊎ (1 ≡ first) ⊎ (first ≡ first)
unfolding run
dining_at_most_tables_example =
    dining_at_most_tables at_tables.reach 0 1 0 (omega arith) (omega arith) (omega arith) _ _ _

-- The receptionist hands table 0 to group 2, which dines and leaves.
abbrev late : Run three
late = run three (visit 0 (visit 1 (visit 2 (dine 0 (times 20 receptionist (dine 2 []))))))

arrivals_seats :
    (arrivals.last.shared.f_st.assigned_table 0 ≡ some 0)
    × (arrivals.last.shared.f_st.assigned_table 1 ≡ some 1)
    × (arrivals.last.shared.f_st.assigned_table 2 ≡ none)
    × (arrivals.last.shared.f_st.groups_waiting ≡ 1)
unfolding run
arrivals_seats = (refl, refl, refl, refl)

-- Group 2 has left, while the receptionist has it still at its table and its bill unpaid, and group 0,
-- whose payment was received, waits at the semaphore.
late_leaves :
    (late.last.groups 2 ≡ GroupPc.finished)
    × (late.last.shared.f_st.st.group_stat 2 ≡ leaving)
    × (late.last.receptionist.group_record 2 ≡ at_table)
    × (late.last.groups 0 ≡ checking_out (CheckOutPc.await_payment (some 0)))
    × (late.last.shared.sems (table_done 0) ≡ 0)
unfolding run
late_leaves = (refl, refl, refl, refl, refl)
