-- ===== src/Problem.antt =====
-- The constants of src/probConst.h and the data of src/probDataStruct.h. The C `int` and `unsigned`
-- fields that never go below 0 are ℕ, the times are ℤ; in `assigned_table` the C value -1 is
-- `none`. An array is a function of its index.
use restaurante_so.Prelude.{ℕ, ℤ, Option, update}

abbrev pub max_groups : ℕ
max_groups = 16

abbrev pub num_tables : ℕ
num_tables = 2

-- request ids
abbrev pub table_req : ℕ
table_req = 1

abbrev pub bill_req : ℕ
bill_req = 2

abbrev pub food_req : ℕ
food_req = 3

abbrev pub food_ready : ℕ
food_ready = 4

-- group states
abbrev pub go_to_rest : ℕ
go_to_rest = 1

abbrev pub at_reception : ℕ
at_reception = 2

abbrev pub food_request : ℕ
food_request = 3

abbrev pub wait_for_food : ℕ
wait_for_food = 4

abbrev pub eating : ℕ
eating = 5

abbrev pub checkout : ℕ
checkout = 6

abbrev pub leaving : ℕ
leaving = 7

-- chef states
abbrev pub wait_for_order : ℕ
wait_for_order = 0

abbrev pub cook : ℕ
cook = 1

-- waiter states; the receptionist shares the first
abbrev pub wait_for_request : ℕ
wait_for_request = 0

abbrev pub inform_chef : ℕ
inform_chef = 1

abbrev pub take_to_table : ℕ
take_to_table = 2

-- receptionist states
abbrev pub assign_table : ℕ
assign_table = 1

abbrev pub recv_pay : ℕ
recv_pay = 2

-- `request`
pub record Request : Type 0 where
  pub req_type : ℕ
  pub req_group : ℕ

-- `STAT`
pub record Stat : Type 0 where
  pub receptionist_stat : ℕ
  pub waiter_stat : ℕ
  pub chef_stat : ℕ
  pub group_stat : ℕ → ℕ

-- `FULL_STAT`
pub record FullStat : Type 0 where
  pub st : Stat
  pub n_groups : ℕ
  pub groups_waiting : ℕ
  pub start_time : ℕ → ℤ
  pub eat_time : ℕ → ℤ
  pub assigned_table : ℕ → Option ℕ
  pub food_order : ℕ
  pub food_group : ℕ
  pub receptionist_request : Request
  pub waiter_request : Request

-- The writes of one field of `st`, as `sh->fSt.st.groupStat[g] = v`.
abbrev pub set_group_stat : FullStat → ℕ → ℕ → FullStat
set_group_stat f g v = record f { st = record (f.st) { group_stat = update f.st.group_stat g v } }

abbrev pub set_receptionist_stat : FullStat → ℕ → FullStat
set_receptionist_stat f v = record f { st = record (f.st) { receptionist_stat = v } }

abbrev pub set_waiter_stat : FullStat → ℕ → FullStat
set_waiter_stat f v = record f { st = record (f.st) { waiter_stat = v } }

abbrev pub set_chef_stat : FullStat → ℕ → FullStat
set_chef_stat f v = record f { st = record (f.st) { chef_stat = v } }
