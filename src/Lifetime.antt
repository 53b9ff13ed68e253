-- ===== src/Lifetime.antt =====
-- The whole program, from the end of the set-up in `main` of src/probSemSharedMemRestaurant.c to
-- its return: `main` starts the processes one after the other,
-- each of them connects to the set in its own `main`, and `main` waits for the end of all of them.
-- The calls of `fork`, `execl` and `wait` are taken to succeed.
pub mod Phases
pub mod Exits
pub mod Runs
pub mod Joined
pub mod Ends
pub mod Moves
use restaurante_so.Prelude.{ℕ, suc, ◌+◌, ◌<◌, ◌≡◌, Option, none, ltb, update, if◌then◌else◌}
use restaurante_so.Setup.{Config, set_up}
use restaurante_so.Semaphore.{Shared, next}
use restaurante_so.StartGate.{go, sem_create, sem_connect, sem_signal, sem_destroy}
use restaurante_so.Group.{GroupPc}
use restaurante_so.Receptionist.{ReceptionistPc}
use restaurante_so.Waiter.{WaiterPc}
use restaurante_so.Chef.{ChefPc}
use restaurante_so.System.{
  System, launch, Step, group_moves, receptionist_moves, waiter_moves, chef_moves,
}

-- Where `main` stands after `semCreate`.
pub data MainPc : Type 0 where
  forking : ℕ → MainPc  -- the number of processes that it has started
  waiting : ℕ → MainPc  -- `m` in the loop of `wait`
  destroying : MainPc
  over : MainPc

-- What has become of a process that `main` starts; `reaped` once `wait` has reported its end.
pub data Stage : Type 0 where
  absent connecting running ended reaped : Stage

-- The value of semaphore 0, and the processes by the order of their start.
pub record Program : Type 0 where
  pub main : MainPc
  pub gate : Option ℕ
  pub stages : ℕ → Stage
  pub system : System

-- `3 + sh->fSt.nGroups`
abbrev pub n_processes : System → ℕ
n_processes s = 3 + s.shared.f_st.n_groups

-- The place of the process that moves: the groups are started first, then the waiter, the chef and
-- the receptionist.
unfoldable pub number : {s t : System} → Step s t → ℕ
number (group_moves g below e) = g
number {s} (waiter_moves e) = s.shared.f_st.n_groups
number {s} (chef_moves e) = 1 + s.shared.f_st.n_groups
number {s} (receptionist_moves e) = 2 + s.shared.f_st.n_groups

-- The `main` of process `k` has come to its end.
pub data HasExited (n : ℕ) (s : System) (k : ℕ) : Type 0 where
  group_exits : k < n → s.groups k ≡ GroupPc.finished → HasExited n s k
  group_fails : k < n → s.groups k ≡ GroupPc.failed → HasExited n s k
  waiter_exits : k ≡ n → s.waiter.pc ≡ WaiterPc.finished → HasExited n s k
  chef_exits : k ≡ 1 + n → s.chef.pc ≡ ChefPc.finished → HasExited n s k
  receptionist_exits : k ≡ 2 + n → s.receptionist.pc ≡ ReceptionistPc.finished → HasExited n s k

-- `m += 1`, and the test of the loop.
unfoldable pub count_child : ℕ → ℕ → MainPc
count_child n m = if ltb (m + 1) (3 + n) then waiting (m + 1) else destroying

-- A step of `main` or of one of the processes.
pub data Advance (p : Program) : Program → Type 0 where
  forks :
      {k : ℕ}
      → p.main ≡ forking k
      → k < n_processes p.system
      → Advance p (record p { main = forking (suc k); stages = update p.stages k connecting })
  signals :
      {g : Option ℕ}
      → p.main ≡ forking (n_processes p.system)
      → sem_signal p.gate ≡ go g
      → Advance p (record p { main = waiting 0; gate = g })
  reaps :
      {m : ℕ} (k : ℕ)
      → p.main ≡ waiting m
      → k < n_processes p.system
      → p.stages k ≡ ended
      → Advance p (record p {
        main = count_child p.system.shared.f_st.n_groups m;
        stages = update p.stages k reaped;
      })
  destroys :
      {g : Option ℕ}
      → p.main ≡ destroying
      → sem_destroy p.gate ≡ go g
      → Advance p (record p { main = over; gate = g })
  connects :
      (k : ℕ) {g : Option ℕ}
      → k < n_processes p.system
      → p.stages k ≡ connecting
      → sem_connect p.gate ≡ go g
      → Advance p (record p { gate = g; stages = update p.stages k running })
  runs :
      {t : System} (st : Step p.system t)
      → p.stages (number st) ≡ running
      → Advance p (record p { system = t })
  exits :
      (k : ℕ)
      → k < n_processes p.system
      → p.stages k ≡ running
      → HasExited p.system.shared.f_st.n_groups p.system k
      → Advance p (record p { stages = update p.stages k ended })

-- A state of the program under the configuration `c`.
pub data Comes (c : Config) : Program → Type 0 where
  created_set :
      {g : Option ℕ} {sh : Shared}
      → sem_create none ≡ go g
      → set_up c ≡ next sh tt
      → Comes c (record { main = forking 0; gate = g; stages = λ _. absent; system = launch sh })
  advanced : {p q : Program} → Comes c p → Advance p q → Comes c q
