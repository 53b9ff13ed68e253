-- ===== src/Tests.antt =====
-- Runs of small configurations, and the theorems at states that these runs reach.
mod Late
mod Program
mod Log
mod Start
mod Ends
use restaurante_so.Prelude.{
  pos, ℕ, zero, suc, ◌+◌, ◌*◌, ◌≤◌, ◌<◌, ◌≡◌, ◌≢◌, refl, List, [], ◌∷◌, arith, none, some, ◌⊎◌,
  if◌then◌else◌, ◌==◌, true, ◌-◌, length,
}
use restaurante_so.Problem.{FullStat, num_tables}
use restaurante_so.Receptionist.Seating.{wait, at_table, decide_table_or_wait, decide_next_group}
use restaurante_so.Receptionist.Seating.Decisions.{
  Decided, Chosen, decide_table_or_wait_lem, decide_next_group_lem,
}
use restaurante_so.Setup.{Config, initial_status}
use restaurante_so.Semaphore.{
  fault, mutex, receptionist_req, receptionist_request_possible, waiter_request,
  waiter_request_possible, wait_order, order_received, wait_for_table, table_done, next, blocked,
  sem_up, sem_down, set_sem, sem_eq,
}
use restaurante_so.Group.{GroupPc, group_step}
use restaurante_so.Receptionist.{ReceptionistPc, receptionist_step}
use restaurante_so.Waiter.{WaiterPc}
use restaurante_so.Chef.{ChefPc}
use restaurante_so.Safety.Exclusion.{
  Process, group, receptionist, waiter, chef, mutual_exclusion, reception_exclusive,
  service_exclusive, sems_binary,
}
use restaurante_so.Safety.Faults.{group_never_faults, receptionist_never_faults}
use restaurante_so.Logging.{state_line, header_line}
use restaurante_so.Logging.Widths.{Fits, state_line-aligned}
use restaurante_so.SemLayout.{sem_id, sem_nu, down_at, up_at}
use restaurante_so.SemLayout.Refines.{
  named, with_values, with_sem, sem_id_range, sem_id_injective, sem_up_refines, sem_down_refines,
}
use restaurante_so.Termination.{run_length}
use restaurante_so.Schedule.{Run, run, times}

abbrev groups_of : ℕ → Config
groups_of n = record { n_groups = n; start_time = λ _. pos 0; eat_time = λ _. pos 0 }

-- Round robin, `n` times.
abbrev rounds : ℕ → List Process
rounds zero = []
rounds (suc n) = group 0 ∷ group 1 ∷ group 2 ∷ receptionist ∷ waiter ∷ chef ∷ rounds n

-- Three groups at two tables: all processes finish.
abbrev three_groups : Run (groups_of 3)
three_groups = run (groups_of 3) (rounds 230)

three_groups_finish :
    (three_groups.last.groups 0 ≡ GroupPc.finished)
    × (three_groups.last.groups 1 ≡ GroupPc.finished)
    × (three_groups.last.groups 2 ≡ GroupPc.finished)
    × (three_groups.last.receptionist.pc ≡ ReceptionistPc.finished)
    × (three_groups.last.waiter.pc ≡ WaiterPc.finished)
    × (three_groups.last.chef.pc ≡ ChefPc.finished)
unfolding run
three_groups_finish = (refl, refl, refl, refl, refl, refl)

-- Group 1 has taken the right to write a request to the receptionist, and is in the critical section.
abbrev asking : Run (groups_of 2)
asking = run (groups_of 2) (times 4 (group 1) [])

mutual_exclusion_example : group 1 ≡ group 1
unfolding run
mutual_exclusion_example =
    mutual_exclusion asking.reach (group 1) (group 1) (omega arith) (omega arith) refl refl

reception_exclusive_example :
    (group 1 ≡ group 1)
    × (asking.last.shared.sems receptionist_req ≡ 0)
    × (asking.last.shared.sems receptionist_request_possible ≡ 0)
unfolding run
reception_exclusive_example =
    reception_exclusive asking.reach (group 1) (group 1) (omega arith) (omega arith) refl refl

run_length_example : asking.count ≤ 104 * 2 + 3
run_length_example = run_length asking.reach

group_never_faults_example : group_step 1 (asking.last.groups 1) asking.last.shared ≢ fault
group_never_faults_example = group_never_faults asking.reach 1 (omega arith)

receptionist_never_faults_example :
    receptionist_step asking.last.receptionist asking.last.shared ≢ fault
receptionist_never_faults_example = receptionist_never_faults asking.reach (omega arith)

sems_binary_example :
    (asking.last.shared.sems mutex ≤ 1)
    × (asking.last.shared.sems receptionist_req
          + asking.last.shared.sems receptionist_request_possible
        ≤ 1)
    × (asking.last.shared.sems waiter_request + asking.last.shared.sems waiter_request_possible ≤ 1)
    × (asking.last.shared.sems wait_order + asking.last.shared.sems order_received ≤ 1)
sems_binary_example = sems_binary asking.reach

-- Group 0 has a table and is about to write its request for food.
abbrev ordering : Run (groups_of 1)
ordering = run (groups_of 1) (times 7 (group 0) (times 14 receptionist (times 4 (group 0) [])))

service_exclusive_example :
    (group 0 ≡ group 0)
    × (ordering.last.shared.sems waiter_request ≡ 0)
    × (ordering.last.shared.sems waiter_request_possible ≡ 0)
unfolding run
service_exclusive_example =
    service_exclusive ordering.reach (group 0) (group 0) (omega arith) (omega arith) refl refl

-- Group 0 has table 0; group 1 waits, and group 2 too.
abbrev half_full : FullStat
half_full = record (initial_status (groups_of 3)) {
  assigned_table = λ g. if g == 0 then some 0 else none;
  groups_waiting = 2;
}

decide_table_or_wait_example :
    Decided half_full.assigned_table 3 0 num_tables (decide_table_or_wait half_full)
unfolding initial_status
decide_table_or_wait_example = decide_table_or_wait_lem half_full

abbrev two_wait : ℕ → ℕ
two_wait g = if g == 0 then at_table else wait

decide_next_group_example :
    ((half_full.groups_waiting ≡ 0) × (decide_next_group two_wait half_full ≡ none))
    ⊎ ((0 < half_full.groups_waiting) × Chosen two_wait 0 3 (decide_next_group two_wait half_full))
unfolding initial_status
decide_next_group_example = decide_next_group_lem two_wait half_full

-- A set of eight and more semaphores, all with one unit but the one of group 0 to wait for its table.
abbrev units : ℕ → ℕ
units i = if i == 8 then 0 else 1

sem_id_range_example : (1 ≤ sem_id 3 (table_done 1)) × (sem_id 3 (table_done 1) ≤ sem_nu 3)
sem_id_range_example = sem_id_range 3 (table_done 1) refl

sem_id_injective_example : sem_eq (wait_for_table 2) (wait_for_table 2) ≡ true
sem_id_injective_example = sem_id_injective 3 (wait_for_table 2) (wait_for_table 2) refl refl refl

sem_up_refines_example :
    (sem_up mutex (with_values asking.last.shared units) true
      ≡ next (with_sem asking.last.shared units mutex (named 2 units mutex + 1)) true)
    × (named 2 (up_at (sem_id 2 mutex) units) (table_done 0)
        ≡ set_sem (named 2 units) mutex (named 2 units mutex + 1) (table_done 0))
unfolding run
sem_up_refines_example = sem_up_refines asking.last.shared true units mutex (table_done 0) refl refl

sem_down_refines_example :
    ((down_at (sem_id 2 (wait_for_table 0)) units ≡ none)
      × (sem_down (wait_for_table 0) (with_values asking.last.shared units) true ≡ blocked))
    ⊎ ((left : ℕ → ℕ) × (down_at (sem_id 2 (wait_for_table 0)) units ≡ some left)
        × (sem_down (wait_for_table 0) (with_values asking.last.shared units) true
            ≡ next
                (with_sem asking.last.shared units
                  (wait_for_table 0)
                  (named 2 units (wait_for_table 0) - 1))
                true)
        × (named 2 left mutex
            ≡ set_sem
                (named 2 units)
                (wait_for_table 0)
                (named 2 units (wait_for_table 0) - 1)
                mutex))
unfolding run
sem_down_refines_example =
    sem_down_refines asking.last.shared true units (wait_for_table 0) mutex refl refl

half_full-Fits : Fits half_full
unfolding initial_status
half_full-Fits = record {
  chef = omega arith;
  waiter = omega arith;
  receptionist = omega arith;
  groups = λ g lt. omega arith;
  waiting = omega arith;
  tables = λ g lt t e. ground arith;
}

state_line-aligned_example : length (state_line half_full) ≡ length (header_line 3)
unfolding initial_status
state_line-aligned_example = state_line-aligned half_full (omega arith) half_full-Fits
