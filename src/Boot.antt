-- ===== src/Boot.antt =====
-- `main` of src/probSemSharedMemRestaurant.c up to the start of the processes, with its error exits.
pub mod Booted
use restaurante_so.Prelude.{ℕ, Option, none, some, List, [], ◌∷◌, ltb, if◌then◌else◌, length, ℤ}
use restaurante_so.Setup.{Config, set_up}
use restaurante_so.Semaphore.{Shared, Outcome, next, blocked, fault}
use restaurante_so.StartGate.{Reply, go, waits, error, sem_create}
use restaurante_so.SharedMemory.{MemorySystem, is_minus_one, shmem_create, shmem_attach}
use restaurante_so.ConfigFile.{Reading, configured, negative, out_of_bounds, read_config}

-- The system as `main` finds it: the calls for shared memory, the result of `ftok`, the size of
-- `SHARED_DATA`, semaphore 0 of a set that the key already has, and the text of config.txt, if it can
-- be opened. The `semUp` of a set that was just created does not fail.
pub record Machine : Type 0 where
  pub memory : MemorySystem
  pub key : ℤ
  pub size : ℕ
  pub old_set : Option ℕ
  pub config : Option (List ℕ)

pub data BootFailure : Type 0 where
  no_key no_block no_mapping no_config no_set : BootFailure

-- `main` exits, leaves what C defines (an array overflows, or `sh` is used without a value), has read
-- a negative number of groups, which is not modelled further, or comes to start the processes with a
-- number of groups from 0 to MAXGROUPS.
pub data Boot : Type 0 where
  failed : BootFailure → Boot
  crashed : Boot
  negative_groups : Boot
  booted : ℤ → Shared → Boot

unfoldable pub ready : ℤ → Outcome (Unit {0}) → Boot
ready key (next sh _) = booted key sh
ready key blocked = crashed
ready key fault = crashed

unfoldable pub with_set : ℤ → Config → Reply → Boot
unfolding ready set_up
with_set key c (go gate) = ready key (set_up c)
with_set key c waits = failed no_set
with_set key c error = failed no_set

unfoldable pub with_reading : Machine → Reading → Boot
unfolding with_set sem_create
with_reading m (configured c) = with_set m.key c (sem_create m.old_set)
with_reading m negative = negative_groups
with_reading m out_of_bounds = crashed

unfoldable pub with_config : Machine → Option (List ℕ) → Boot
unfolding with_reading read_config
with_config m none = failed no_config
with_config m (some text) = with_reading m (read_config text)

-- The first use of `sh` is the initialization of the statuses.
unfoldable pub with_pointer : Machine → Option ℕ → Boot
unfolding with_config
with_pointer m none = crashed
with_pointer m (some add) = with_config m m.config

unfoldable pub with_mapping : Machine → ℤ × Option ℕ → Boot
unfolding with_pointer is_minus_one
with_mapping m (result, sh) = if is_minus_one result then failed no_mapping else with_pointer m sh

unfoldable pub with_block : Machine → ℤ → Boot
unfolding with_mapping shmem_attach is_minus_one
with_block m shmid =
    if is_minus_one shmid
    then failed no_block
    else with_mapping m (shmem_attach m.memory shmid none)

-- The name of the log: the argument, if there is just one.
unfoldable pub log_name : List (List ℕ) → List ℕ
log_name (program ∷ name ∷ []) = name
log_name _ = []

unfoldable pub boot : Machine → List (List ℕ) → Boot
unfolding with_block log_name shmem_create is_minus_one
boot m argv =
    if ltb 50 (length (log_name argv))
    then crashed
    else if is_minus_one m.key
    then failed no_key
    else with_block m (shmem_create m.memory m.key m.size)
