-- ===== src/System.antt =====
-- The running program: the shared memory and all its processes, interleaved in any order. The
-- processes of src/ are started by `main` of src/probSemSharedMemRestaurant.c after the set-up.
use restaurante_so.Prelude.{ℕ, suc, ◌<◌, ◌≡◌, update}
use restaurante_so.Setup.{Config, set_up}
use restaurante_so.Semaphore.{Shared, next}
use restaurante_so.Group.{GroupPc, group_step}
use restaurante_so.Receptionist.{Receptionist, ReceptionistPc, receptionist_step}
use restaurante_so.Waiter.{Waiter, WaiterPc, waiter_step}
use restaurante_so.Chef.{Chef, ChefPc, chef_step}

-- Group `g` runs at index `g`; an index from the number of groups on names no process.
pub record System : Type 0 where
  pub shared : Shared
  pub groups : ℕ → GroupPc
  pub receptionist : Receptionist
  pub waiter : Waiter
  pub chef : Chef

-- The processes as they are started. Static variables are 0, and so `groupRecord` is `TOARRIVE`.
unfoldable pub launch : Shared → System
launch sh = record {
  shared = sh;
  groups = λ _. GroupPc.starting;
  receptionist = record { pc = ReceptionistPc.testing; group_record = λ _. 0; n_req = 0 };
  waiter = record { pc = WaiterPc.testing; n_req = 0 };
  chef = record { pc = ChefPc.testing; last_group = 0; n_orders = 0 };
}

-- One step of one process, which the scheduler picks.
pub data Step (s : System) : System → Type 0 where
  group_moves :
      (g : ℕ) {sh : Shared} {p : GroupPc}
      → g < s.shared.f_st.n_groups
      → group_step g (s.groups g) s.shared ≡ next sh p
      → Step s (record s { shared = sh; groups = update s.groups g p })
  receptionist_moves :
      {sh : Shared} {r : Receptionist}
      → receptionist_step s.receptionist s.shared ≡ next sh r
      → Step s (record s { shared = sh; receptionist = r })
  waiter_moves :
      {sh : Shared} {w : Waiter}
      → waiter_step s.waiter s.shared ≡ next sh w
      → Step s (record s { shared = sh; waiter = w })
  chef_moves :
      {sh : Shared} {c : Chef}
      → chef_step s.chef s.shared ≡ next sh c
      → Step s (record s { shared = sh; chef = c })

-- A state of a run under the configuration `c`, with the number of steps that led to it.
pub data Reach (c : Config) : ℕ → System → Type 0 where
  start : {sh : Shared} → set_up c ≡ next sh tt → Reach c 0 (launch sh)
  later : {k : ℕ} {s t : System} → Reach c k s → Step s t → Reach c (suc k) t
