-- ===== src/StartUp.antt =====
-- What the `main` of each process does before its life cycle: the checks of its arguments and the
-- connection to the semaphore set and the shared memory (src/semSharedMemGroup.c,
-- src/semSharedMemReceptionist.c, src/semSharedMemWaiter.c, src/semSharedMemChef.c), and the
-- arguments that src/probSemSharedMemRestaurant.c gives it. Texts are character codes.
pub mod Arguments
pub mod Failures
use restaurante_so.Prelude.{
  ℕ, suc, Bool, true, false, ◌||◌, Option, none, some, List, [], ◌∷◌, ◌++◌, ltb, leb, if◌then◌else◌,
  length, ℤ, pos, negsuc,
}
use restaurante_so.Problem.{max_groups}
use restaurante_so.Logging.{decimal, zero_pad}
use restaurante_so.Clib.{strtol, to_int}
use restaurante_so.StartGate.{Reply, go, waits, error, sem_connect}
use restaurante_so.SharedMemory.{MemorySystem, is_minus_one, shmem_connect, shmem_attach}

-- The error exits, by their messages.
pub data Failure : Type 0 where
  wrong_parameters wrong_number wrong_key no_semaphores no_memory no_mapping : Failure

-- A process exits, waits at the gate, or starts with its number and the pointer `sh`, a static
-- variable, which is 0 (`none`) at first. A name of the log that is too long for `nFic` overflows it.
pub data StartUp : Type 0 where
  exits : Failure → StartUp
  at_gate : StartUp
  started : ℤ → Option ℕ → StartUp
  overflow : StartUp

-- `*tinp != '\0'`
unfoldable pub goes_on : List ℕ → Bool
goes_on [] = false
goes_on (c ∷ s) = true

-- `n >= MAXGROUPS` of two `int`s
unfoldable pub too_large : ℤ → Bool
too_large (pos n) = leb max_groups n
too_large (negsuc n) = false

unfoldable pub mapped : ℤ → ℤ × Option ℕ → StartUp
unfolding is_minus_one
mapped n (result, sh) = if is_minus_one result then exits no_mapping else started n sh

unfoldable pub in_memory : MemorySystem → ℤ → ℤ → StartUp
unfolding is_minus_one mapped shmem_attach
in_memory sys n shmid =
    if is_minus_one shmid then exits no_memory else mapped n (shmem_attach sys shmid none)

unfoldable pub connected : MemorySystem → ℤ → ℤ → Reply → StartUp
unfolding in_memory shmem_connect
connected sys key n error = exits no_semaphores
connected sys key n waits = at_gate
connected sys key n (go gate) = in_memory sys n (shmem_connect sys key)

-- The connections of a process with the number `n`; `gate` is semaphore 0 of the set.
unfoldable pub connect : MemorySystem → Option ℕ → ℤ → ℤ → StartUp
unfolding connected sem_connect
connect sys gate n key = connected sys key n (sem_connect gate)

-- `strcpy (nFic, ...)` and the key.
unfoldable pub with_key : MemorySystem → Option ℕ → ℤ → List ℕ → ℤ × List ℕ → StartUp
unfolding connect goes_on to_int
with_key sys gate n name (key, rest) =
    if ltb 50 (length name)
    then overflow
    else if goes_on rest
    then exits wrong_key
    else connect sys gate n (to_int key)

unfoldable pub with_number : MemorySystem → Option ℕ → List ℕ → List ℕ → ℤ × List ℕ → StartUp
unfolding with_key goes_on too_large to_int strtol
with_number sys gate name key (n, rest) =
    if goes_on rest || too_large (to_int n)
    then exits wrong_number
    else with_key sys gate (to_int n) name (strtol key)

unfoldable pub group_start : MemorySystem → Option ℕ → List (List ℕ) → StartUp
unfolding with_number strtol
group_start sys gate (program ∷ number ∷ name ∷ key ∷ errors ∷ []) =
    with_number sys gate name key (strtol number)
group_start sys gate _ = exits wrong_parameters

-- The other processes have no number.
unfoldable pub staff_start : MemorySystem → Option ℕ → List (List ℕ) → StartUp
unfolding with_key strtol
staff_start sys gate (program ∷ name ∷ key ∷ errors ∷ []) =
    with_key sys gate (pos 0) name (strtol key)
staff_start sys gate _ = exits wrong_parameters

unfoldable pub receptionist_start : MemorySystem → Option ℕ → List (List ℕ) → StartUp
unfolding staff_start
receptionist_start = staff_start

unfoldable pub waiter_start : MemorySystem → Option ℕ → List (List ℕ) → StartUp
unfolding staff_start
waiter_start = staff_start

unfoldable pub chef_start : MemorySystem → Option ℕ → List (List ℕ) → StartUp
unfolding staff_start
chef_start = staff_start

-- "%d" of an `int`
unfoldable pub decimal_int : ℤ → List ℕ
unfolding decimal
decimal_int (pos n) = decimal n
decimal_int (negsuc n) = b'-' ∷ decimal (suc n)

abbrev pub error_name : ℕ → ℕ → List ℕ
error_name a b = b'e' ∷ b'r' ∷ b'r' ∷ b'o' ∷ b'r' ∷ b'_' ∷ a ∷ b ∷ []

-- The arguments of `execl` for group `g`, and for the other processes by the name of the program and
-- the two letters of its error file.
unfoldable pub group_argv : List ℕ → ℤ → ℕ → List (List ℕ)
unfolding decimal decimal_int zero_pad
group_argv name key g =
    (b'.' ∷ b'/' ∷ b'g' ∷ b'r' ∷ b'o' ∷ b'u' ∷ b'p' ∷ [])
    ∷ decimal g
    ∷ name
    ∷ decimal_int key
    ∷ (error_name b'G' b'R' ++ zero_pad 2 (decimal g))
    ∷ []

unfoldable pub staff_argv : List ℕ → List ℕ → ℤ → ℕ → ℕ → List (List ℕ)
unfolding decimal_int
staff_argv program name key a b = program ∷ name ∷ decimal_int key ∷ error_name a b ∷ []
