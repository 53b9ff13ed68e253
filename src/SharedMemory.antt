-- ===== src/SharedMemory.antt =====
-- src/sharedMemory.c. The calls of the system are parameters, with the `int` that each gives; an
-- address is a number, and `shmat` gives `none` for its error (void *) -1.
use restaurante_so.Prelude.{ℕ, zero, Bool, true, false, Option, none, some, ℤ, pos, negsuc}

pub record MemorySystem : Type 0 where
  pub shmget : ℤ → ℕ → Bool → ℤ  -- the key, the size, and whether IPC_CREAT | IPC_EXCL are set
  pub shmat : ℤ → Option ℕ
  pub shmdt : ℕ → ℤ
  pub shmctl_rmid : ℤ → ℤ

-- the test of a result against -1
unfoldable pub is_minus_one : ℤ → Bool
is_minus_one (negsuc zero) = true
is_minus_one _ = false

unfoldable pub shmem_create : MemorySystem → ℤ → ℕ → ℤ
shmem_create sys key size = sys.shmget key size true

unfoldable pub shmem_connect : MemorySystem → ℤ → ℤ
shmem_connect sys key = sys.shmget key 1 false

unfoldable pub shmem_destroy : MemorySystem → ℤ → ℤ
shmem_destroy sys shmid = sys.shmctl_rmid shmid

-- The result, and the pointer variable, which had the value `old`.
unfoldable pub store_address : Option ℕ → Option ℕ → ℤ × Option ℕ
store_address old (some add) = (pos 0, some add)
store_address old none = (pos 1, old)

unfoldable pub shmem_attach : MemorySystem → ℤ → Option ℕ → ℤ × Option ℕ
unfolding store_address
shmem_attach sys shmid old = store_address old (sys.shmat shmid)

unfoldable pub shmem_dettach : MemorySystem → ℕ → ℤ
shmem_dettach sys add = sys.shmdt add
