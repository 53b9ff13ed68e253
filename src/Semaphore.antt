-- ===== src/Semaphore.antt =====
-- src/semaphore.c over the named semaphores of src/sharedDataSync.h, and the shared memory.
-- `semop` is the system's: it is taken as documented, a down waits while the value is 0 and then
-- takes one from it, an up adds one. A call that fails ends its process (`exit`), which from then on
-- takes no step: that is a run in which the process is not scheduled again.
use restaurante_so.Prelude.{
  ℕ, ◌+◌, ◌-◌, Bool, true, false, Option, none, some, List, ◌++◌, ltb, ◌==◌, if◌then◌else◌,
}
use restaurante_so.Problem.{FullStat, num_tables}
use restaurante_so.Logging.{state_line}

-- The semaphore ids of `SHARED_DATA`, by name; `SemLayout` has their numbers.
pub data Sem : Type 0 where
  mutex receptionist_req receptionist_request_possible : Sem
  waiter_request waiter_request_possible wait_order order_received : Sem
  wait_for_table : ℕ → Sem
  food_arrived : ℕ → Sem
  request_received : ℕ → Sem
  table_done : ℕ → Sem

abbrev pub sem_eq : Sem → Sem → Bool
sem_eq mutex mutex = true
sem_eq receptionist_req receptionist_req = true
sem_eq receptionist_request_possible receptionist_request_possible = true
sem_eq waiter_request waiter_request = true
sem_eq waiter_request_possible waiter_request_possible = true
sem_eq wait_order wait_order = true
sem_eq order_received order_received = true
sem_eq (wait_for_table g) (wait_for_table h) = g == h
sem_eq (food_arrived t) (food_arrived u) = t == u
sem_eq (request_received t) (request_received u) = t == u
sem_eq (table_done t) (table_done u) = t == u
sem_eq _ _ = false

-- `SHARED_DATA`, the values of its semaphores, and what has been written to the log.
pub record Shared : Type 0 where
  pub f_st : FullStat
  pub sems : Sem → ℕ
  pub log : List ℕ

-- What one step of a process does: it goes on at a new place, it waits in `semop`, or it leaves
-- what C defines, by a failed `assert` or an index outside of an array.
pub data Outcome (P : Type 0) : Type 0 where
  next : Shared → P → Outcome P
  blocked : Outcome P
  fault : Outcome P

-- `saveState (nFic, &sh->fSt)`, where the log can be opened and closed; Logging.File has its errors.
abbrev pub save_state : Shared → Shared
save_state sh = record sh { log = sh.log ++ state_line sh.f_st }

-- Whether an index names a semaphore of `n` groups. From `n` on `waitForTable` holds no id but 0,
-- which the `assert (sindex > 0)` of `semUp` and `semDown` refuses.
abbrev pub is_sem : ℕ → Sem → Bool
is_sem n (wait_for_table g) = ltb g n
is_sem n (food_arrived t) = ltb t num_tables
is_sem n (request_received t) = ltb t num_tables
is_sem n (table_done t) = ltb t num_tables
is_sem n _ = true

-- The write of one semaphore's value.
abbrev pub set_sem : (Sem → ℕ) → Sem → ℕ → Sem → ℕ
set_sem v s k r = if sem_eq s r then k else v r

-- `semDown`; the process goes on at `p`.
unfoldable pub sem_down : {P : Type 0} → Sem → Shared → P → Outcome P
sem_down s sh p =
    if is_sem sh.f_st.n_groups s
    then if sh.sems s == 0
      then blocked
      else next (record sh { sems = set_sem sh.sems s (sh.sems s - 1) }) p
    else fault

-- `semUp`
unfoldable pub sem_up : {P : Type 0} → Sem → Shared → P → Outcome P
sem_up s sh p =
    if is_sem sh.f_st.n_groups s
    then next (record sh { sems = set_sem sh.sems s (sh.sems s + 1) }) p
    else fault

-- An up or a down at the index of a table, where -1 is no index of the array.
unfoldable pub table_down : {P : Type 0} → (ℕ → Sem) → Option ℕ → Shared → P → Outcome P
unfolding sem_down
table_down s none sh p = fault
table_down s (some t) sh p = sem_down (s t) sh p

unfoldable pub table_up : {P : Type 0} → (ℕ → Sem) → Option ℕ → Shared → P → Outcome P
unfolding sem_up
table_up s none sh p = fault
table_up s (some t) sh p = sem_up (s t) sh p

-- A call of a function: it stands at a place inside of it, or has returned.
pub data Call (P R : Type 0) : Type 0 where
  inside : P → Call P R
  returned : R → Call P R

abbrev pub done : {P : Type 0} → Call P (Unit {0})
done = returned tt

-- The caller while the callee runs, and after its return.
unfoldable pub calling : {P R Q : Type 0} → (P → Q) → (R → Q) → Outcome (Call P R) → Outcome Q
calling within k (next sh (returned r)) = next sh (k r)
calling within k (next sh (inside p)) = next sh (within p)
calling within k blocked = blocked
calling within k fault = fault
