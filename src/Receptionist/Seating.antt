-- ===== src/Receptionist/Seating.antt =====
-- `decideTableOrWait` and `decideNextGroup` of src/semSharedMemReceptionist.c. A result of -1 is
-- `none`.
pub mod Decisions
use restaurante_so.Prelude.{
  ℕ, zero, suc, Bool, true, false, Option, none, some, ltb, leb, ◌==◌, if◌then◌else◌,
}
use restaurante_so.Problem.{FullStat, num_tables}

-- the values of `groupRecord`
abbrev pub to_arrive : ℕ
to_arrive = 0

abbrev pub wait : ℕ
wait = 1

abbrev pub at_table : ℕ
at_table = 2

abbrev pub settled : ℕ
settled = 3

-- `sh->fSt.assignedTable[group] == table`
abbrev pub is_table : Option ℕ → ℕ → Bool
is_table none t = false
is_table (some u) t = u == t

-- The inner loop, from `group`, with `left` rounds to go: the group at which it breaks, or the
-- number of groups.
unfoldable pub find_holder : (ℕ → Option ℕ) → ℕ → ℕ → ℕ → ℕ
find_holder assigned t group zero = group
find_holder assigned t group (suc left) =
    let rest = find_holder assigned t (suc group) left in
    if is_table (assigned group) t then group else rest

-- The outer loop, from `table`, with `left` rounds to go.
unfoldable pub find_table : (ℕ → Option ℕ) → ℕ → ℕ → ℕ → Option ℕ
unfolding find_holder
find_table assigned n t zero = none
find_table assigned n t (suc left) =
    let rest = find_table assigned n (suc t) left in
    if find_holder assigned t 0 n == n then some t else rest

-- `decideTableOrWait` after its `assert`, which `provide_table_write` makes.
unfoldable pub decide_table_or_wait : FullStat → Option ℕ
unfolding find_table
decide_table_or_wait f = find_table f.assigned_table f.n_groups 0 num_tables

-- The loop of `decideNextGroup`.
unfoldable pub find_waiting : (ℕ → ℕ) → ℕ → ℕ → Option ℕ
find_waiting groups g zero = none
find_waiting groups g (suc left) =
    let rest = find_waiting groups (suc g) left in if groups g == wait then some g else rest

unfoldable pub decide_next_group : (ℕ → ℕ) → FullStat → Option ℕ
unfolding find_waiting
decide_next_group groups f =
    if leb f.groups_waiting 0 then none else find_waiting groups 0 f.n_groups
