-- ===== src/StartGate.antt =====
-- The part of src/semaphore.c that main and the processes use around a run: semaphore 0 of the set,
-- at which each process waits for the start. `semget`, `semop` and `semctl` belong to the system and
-- are taken as documented.
use restaurante_so.Prelude.{ℕ, ◌+◌, ◌-◌, Option, none, some, ◌==◌, if◌then◌else◌}

-- What a call gives: the set after it, by the value of its semaphore 0 (`none` where there is no
-- set), or that it waits, or the -1 of an error.
pub data Reply : Type 0 where
  go : Option ℕ → Reply
  waits : Reply
  error : Reply

-- `semCreate`; `IPC_EXCL` refuses a key that has a set.
unfoldable pub sem_create : Option ℕ → Reply
sem_create none = go (some 0)
sem_create (some v) = error

-- `semConnect`: the down and the up of semaphore 0 are one operation.
unfoldable pub sem_connect : Option ℕ → Reply
sem_connect none = error
sem_connect (some v) = if v == 0 then waits else go (some (v - 1 + 1))

-- `semSignal`
unfoldable pub sem_signal : Option ℕ → Reply
sem_signal none = error
sem_signal (some v) = go (some (v + 1))

-- `semDestroy`
unfoldable pub sem_destroy : Option ℕ → Reply
sem_destroy none = error
sem_destroy (some v) = go none
