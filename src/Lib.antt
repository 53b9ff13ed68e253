-- ===== src/Lib.antt =====
-- The restaurant simulation: groups of guests, a receptionist, a waiter and a chef, each a process of
-- its own, which synchronise by semaphores and a block of shared memory.
--
-- The program's parts, and the files that model them.
--   src/probConst.h, src/probDataStruct.h: Problem.antt. The constants, and the records `Request`,
--     `Stat` and `FullStat` with the fields of `request`, `STAT` and `FULL_STAT`. An array is a
--     function of its index. In `assigned_table` the C value -1 is `none`; the other `int` fields never
--     go below 0 and are ℕ, but for the times of config.txt, which are ℤ.
--   src/logging.c: Logging.antt. The text that `createLog` and `saveState` write, as character codes;
--     `Shared.log` is all that has been written. Logging/Widths.antt has the lengths of its lines, and
--     Logging/Reading.antt a reader of its rows by their columns. Logging/File.antt has the file that
--     `openLog` and `closeLog` open and close at each call, with `fopen` and `fclose` as parameters.
--   src/sharedDataSync.h, src/semaphore.c: Semaphore.antt. `Shared` is `SHARED_DATA` with the values of
--     the semaphores, which are named by `Sem`; `sem_down` and `sem_up` are `semDown` and `semUp`.
--     SemLayout.antt has the numbers of the semaphores in the set, and the operations on numbers.
--   src/sharedMemory.c: SharedMemory.antt, with the calls of the system as parameters.
--   src/probSemSharedMemRestaurant.c: ConfigFile.antt, the reading of config.txt; Setup.antt, the set-up
--     in `main` from a configuration that has been read; Boot.antt, `main` up to the first `fork` with
--     its error exits; System.antt, the processes that `main` starts; Lifetime.antt, the whole program
--     from the first `fork` to the return of `main`, with `semCreate`, `semConnect`, `semSignal` and
--     `semDestroy` of src/semaphore.c in StartGate.antt.
--   The beginning of `main` in the other four programs: StartUp.antt, the checks of the arguments and the
--     connection, and the arguments that src/probSemSharedMemRestaurant.c gives.
--   src/semSharedMemGroup.c: Group.antt and its children, one for each of `checkInAtReception`,
--     `orderFood`, `waitFood` and `checkOutAtReception`.
--   src/semSharedMemReceptionist.c: Receptionist.antt and its children: Seating (`decideTableOrWait`,
--     `decideNextGroup`), WaitForGroup, ProvideTable (`provideTableOrWaitingRoom`), ReceivePayment.
--   src/semSharedMemWaiter.c: Waiter.antt and its children WaitForRequest (`waitForClientOrChef`),
--     InformChef, TakeFood (`takeFoodToTable`).
--   src/semSharedMemChef.c: Chef.antt and its children WaitForOrder, ProcessOrder.
--
-- How a run is modelled. Each function of a process has a type of places, with the local variables
-- that are live there, and a step function. A step is one semaphore operation, or the code between two
-- of them, and gives an `Outcome`: `next` with the new memory and place, `blocked` where `semop` waits,
-- or `fault` where C leaves its defined behaviour (a failed `assert`, an index outside of an array).
-- The code between two operations that touches the shared memory stands in the critical section, and
-- Safety.Exclusion shows that no other process is in its own meanwhile, so that one step for it hides
-- no interleaving. `Step` picks any process that can move, and `Reach c k s` says that a run under the
-- configuration `c` leads to `s` in `k` steps. The loops of the processes are the places `testing`, so
-- that the model has no fuel but in `decimal`, where the number itself is enough.
--
-- `semop` belongs to the system and is taken as documented. A call of it that fails makes its process
-- exit. A process may stop to be scheduled at any place, and all that is shown for every run is shown
-- for the runs in which a process has so ended.
--
-- How the proofs are built. Tokens counts, for each of the semaphores without an index, the units that
-- it has and that the processes hold. Reception is the protocol between the groups and the
-- receptionist: `Desk` says, for each phase of a group's visit, what the request in memory, the
-- receptionist's record, the group's table and its semaphore must be. Seats is the receptionist's
-- book: which group has which table, and how `groupsWaiting` and `groupRecord` agree. Service is the
-- protocol between the groups, the waiter and the chef: where the order of each group is. Ledger counts
-- the requests, and Payments the receipts at each table. Progress uses all of these: where no process
-- can move, each is at one of a few places, and the counts leave only the end. That needs NUMTABLES to
-- be 2: with three groups at tables the waiter could wait for the chef in `informChef` while the chef
-- waits in `processOrder` for the slot that a third request fills. Termination gives each place the
-- number of steps that are left. Schedule runs the model in a given order, and Tests has the theorems
-- at states that are so reached.
--
-- Lifetime adds `main` and the gate to System: `Advance` is a step of `main` or of a process, and
-- `Comes c p` says that the program comes to `p`. Phases has what holds at each place of `main`, Runs
-- the invariant, and Joined the way between the states of System and of Lifetime. There the calls of
-- `fork`, `execl` and `wait` succeed, and a process that has connected goes on as in System until it
-- exits.
--
-- Boot, StartUp and ConfigFile come before that. Clib has what they use of the C library, on texts
-- as character codes: `strtol` with base 0 and its clamp to a `long` of 64 bits, and `fscanf` with
-- "%d", "%*[^\n]" and blanks. A scan that meets no number leaves its variable, as in C. For a "%d"
-- outside of `int`, which C leaves undefined, the model stores what glibc does, the low 32 bits of
-- the clamped number; ConfigFile.Texts is about texts whose numbers are in the range. `Boot.boot`
-- and `StartUp.group_start` give the error exit that is taken, or what the process starts with.
-- Their parameters are the results of the system's calls: `MemorySystem` has those for the shared
-- memory, `Machine` also the key, the semaphore set that the key has already, and the text of
-- config.txt. A write outside of an array, or through `sh` without a value, is an outcome of its own
-- (`overflow`, `out_of_bounds`, `crashed`), and so is a negative number of groups (`negative`,
-- `negative_groups`): with it `main` goes on to start the waiter, the chef and the receptionist, and
-- that run is not modelled.
--
-- History takes the log as the history of a run. Changes has which status each step writes, Rows what
-- a row may show and how it follows from the row before, Told and Reached the invariant, and Log what
-- follows for the text.
--
-- Not modelled: the times that a process sleeps (`normalRand`), what is printed to the error files,
-- the run of the program with a negative number of groups in config.txt, the exit of a process in
-- its critical section when `fopen` or `fclose` of the log fails (Logging/File.antt has that exit
-- for one call; a run takes the calls to succeed), and the failure of `semUp` on a new set, of
-- `fork`, `execl`, `wait` and of the calls that remove the shared memory at the end, whose exits are
-- left out.
pub mod Prelude
pub mod Problem
pub mod Logging
pub mod Semaphore
pub mod Group
pub mod Receptionist
pub mod Waiter
pub mod Chef
pub mod SemLayout
pub mod Setup
pub mod System
pub mod Tokens
pub mod Safety
pub mod Termination
pub mod Schedule
pub mod Tests
pub mod Reception
pub mod Seats
pub mod Service
pub mod Ledger
pub mod Payments
pub mod Progress
pub mod StartGate
pub mod Lifetime
pub mod History
pub mod Clib
pub mod ConfigFile
pub mod SharedMemory
pub mod StartUp
pub mod Boot
