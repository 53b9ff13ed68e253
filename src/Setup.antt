-- ===== src/Setup.antt =====
-- The set-up in `main` of src/probSemSharedMemRestaurant.c, from a configuration that has been read.
use restaurante_so.Prelude.{ℕ, ℤ, none}
use restaurante_so.Problem.{Request, FullStat, go_to_rest, wait_for_order, wait_for_request}
use restaurante_so.Logging.{create_log}
use restaurante_so.Semaphore.{
  Sem, Shared, Outcome, next, blocked, fault, save_state, sem_up, mutex, waiter_request_possible,
  receptionist_request_possible,
}

-- What `config.txt` holds: the number of groups, and the two times of each.
pub record Config : Type 0 where
  pub n_groups : ℕ
  pub start_time : ℕ → ℤ
  pub eat_time : ℕ → ℤ

-- A new block of shared memory is all zeros.
abbrev no_request : Request
no_request = record { req_type = 0; req_group = 0 }

unfoldable pub initial_status : Config → FullStat
initial_status c = record {
  st = record {
    receptionist_stat = wait_for_request;
    waiter_stat = wait_for_request;
    chef_stat = wait_for_order;
    group_stat = λ _. go_to_rest;
  };
  n_groups = c.n_groups;
  groups_waiting = 0;
  start_time = c.start_time;
  eat_time = c.eat_time;
  assigned_table = λ _. none;
  food_order = 0;
  food_group = 0;
  receptionist_request = no_request;
  waiter_request = no_request;
}

-- The memory when the semaphore set has just been created: the log holds its header and one line.
unfoldable pub created : Config → Shared
unfolding initial_status
created c =
    save_state
      (record { f_st = initial_status c; sems = λ _. 0; log = create_log (initial_status c) })

-- The next statement, if there was no fault before.
infixl 5 ◌then_up◌
abbrev pub ◌then_up◌ : Outcome (Unit {0}) → Sem → Outcome (Unit {0})
next sh _ then_up s = sem_up s sh tt
blocked then_up s = blocked
fault then_up s = fault

-- The three ups of `main`, before the processes are started. The ids of the semaphores before them are
-- written in the bounds of their arrays with at most MAXGROUPS groups; with more, Boot ends earlier.
unfoldable pub set_up : Config → Outcome (Unit {0})
unfolding created sem_up
set_up c =
    next (created c) tt
    then_up mutex
    then_up waiter_request_possible
    then_up receptionist_request_possible
