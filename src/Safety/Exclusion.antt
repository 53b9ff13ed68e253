-- ===== src/Safety/Exclusion.antt =====
-- Mutual exclusion, and the slots for the requests and for the order.
use restaurante_so.Prelude.{ℕ, ◌+◌, ◌≤◌, ◌<◌, ◌≡◌, refl, arith, total, le-total, two-le-total}
use restaurante_so.Setup.{Config}
use restaurante_so.Semaphore.{
  mutex, receptionist_req, receptionist_request_possible, waiter_request, waiter_request_possible,
  wait_order, order_received,
}
use restaurante_so.Group.{GroupPc}
use restaurante_so.System.{System, Reach}
use restaurante_so.Tokens.{
  group_region, group_reception, group_service, receptionist_region, receptionist_reception,
  waiter_region, waiter_service, chef_region, chef_service, Reach-Balance,
}

pub data Process : Type 0 where
  group : ℕ → Process
  receptionist waiter chef : Process

-- The processes of a run with `n` groups.
abbrev pub IsProcess : ℕ → Process → Type 0
IsProcess n (group g) = g < n
IsProcess n _ = Unit

-- 1 if the process stands between its down and its up of `mutex`, else 0
abbrev pub in_region : System → Process → ℕ
in_region s (group g) = group_region (s.groups g)
in_region s receptionist = receptionist_region s.receptionist.pc
in_region s waiter = waiter_region s.waiter.pc
in_region s chef = chef_region s.chef.pc

-- 1 if the process has taken the right to write `receptionist_request`, or to read it
abbrev pub in_reception : System → Process → ℕ
in_reception s (group g) = group_reception (s.groups g)
in_reception s receptionist = receptionist_reception s.receptionist.pc
in_reception s _ = 0

-- 1 if the process has taken the right to write `waiter_request`, or to read it
abbrev pub in_service : System → Process → ℕ
in_service s (group g) = group_service (s.groups g)
in_service s receptionist = 0
in_service s waiter = waiter_service s.waiter.pc
in_service s chef = chef_service s.chef.pc

-- A unit that is at `a`, or is held by one of the groups or of the three single processes.
module _ (n a : ℕ) (weight : GroupPc → ℕ) (s : System) (hold : System → Process → ℕ)
    (sum : a + total weight n s.groups + hold s receptionist + hold s waiter + hold s chef ≡ 1)
    (of_group : (g : ℕ) → hold s (group g) ≡ weight (s.groups g)) where
  one_holder : (p q : Process) → IsProcess n p → IsProcess n q → hold s p ≡ 1 → hold s q ≡ 1 → p ≡ q
  one_holder (group g) (group h) ig ih eg eh =
      ground (arith, two-le-total weight n s.groups g h ig ih, of_group g, of_group h)
  one_holder (group g) receptionist ig iq eg eq =
      ground (arith, le-total weight n s.groups g ig, of_group g)
  one_holder (group g) waiter ig iq eg eq =
      ground (arith, le-total weight n s.groups g ig, of_group g)
  one_holder (group g) chef ig iq eg eq =
      ground (arith, le-total weight n s.groups g ig, of_group g)
  one_holder receptionist (group h) ip ih ep eh =
      ground (arith, le-total weight n s.groups h ih, of_group h)
  one_holder waiter (group h) ip ih ep eh =
      ground (arith, le-total weight n s.groups h ih, of_group h)
  one_holder chef (group h) ip ih ep eh =
      ground (arith, le-total weight n s.groups h ih, of_group h)
  one_holder receptionist receptionist ip iq ep eq = refl
  one_holder waiter waiter ip iq ep eq = refl
  one_holder chef chef ip iq ep eq = refl
  one_holder _ _ ip iq ep eq = absurd (omega arith)

  none_left : (p : Process) → IsProcess n p → hold s p ≡ 1 → a ≡ 0
  none_left (group g) ig eg = omega (arith, le-total weight n s.groups g ig, of_group g)
  none_left receptionist ip ep = omega arith
  none_left waiter ip ep = omega arith
  none_left chef ip ep = omega arith

-- No two processes are in the critical section at the same time.
pub mutual_exclusion :
    {c : Config} {k : ℕ} {s : System}
    → Reach c k s
    → (p q : Process) → IsProcess c.n_groups p
    → IsProcess c.n_groups q
    → in_region s p ≡ 1
    → in_region s q ≡ 1
    → p ≡ q
mutual_exclusion {c} {s} r =
    one_holder c.n_groups (s.shared.sems mutex) group_region s in_region
      (omega (arith, Reach-Balance r)) (λ g. refl)

-- The request to the receptionist is not overwritten. A process has the slot from a group's down of
-- `receptionist_request_possible` to its up of `receptionist_req`, or from the receptionist's down
-- of `receptionist_req` to its up of `receptionist_request_possible`. At most one process has it,
-- and while one has it both semaphores are 0.
pub reception_exclusive :
    {c : Config} {k : ℕ} {s : System}
    → Reach c k s
    → (p q : Process) → IsProcess c.n_groups p
    → IsProcess c.n_groups q
    → in_reception s p ≡ 1
    → in_reception s q ≡ 1
    → (p ≡ q)
      × (s.shared.sems receptionist_req ≡ 0)
      × (s.shared.sems receptionist_request_possible ≡ 0)
reception_exclusive {c} {s} r p q ip iq ep eq = (
  one_holder _ _ _ s in_reception sum (λ g. refl) p q ip iq ep eq,
  omega (arith, none),
  omega (arith, none),
)
  where
    free : ℕ
    free = s.shared.sems receptionist_request_possible + s.shared.sems receptionist_req

    sum : free + total group_reception c.n_groups s.groups + in_reception s receptionist + 0 + 0 ≡ 1
    sum = omega (arith, Reach-Balance r)

    none : free ≡ 0
    none = none_left _ free group_reception s in_reception sum (λ g. refl) p ip ep

-- The request to the waiter is not overwritten: at most one of the groups, the chef and the waiter
-- has the slot between `waiter_request_possible` and `waiter_request`, and while one has it both
-- semaphores are 0.
pub service_exclusive :
    {c : Config} {k : ℕ} {s : System}
    → Reach c k s
    → (p q : Process) → IsProcess c.n_groups p
    → IsProcess c.n_groups q
    → in_service s p ≡ 1
    → in_service s q ≡ 1
    → (p ≡ q) × (s.shared.sems waiter_request ≡ 0) × (s.shared.sems waiter_request_possible ≡ 0)
service_exclusive {c} {s} r p q ip iq ep eq = (
  one_holder _ _ _ s in_service sum (λ g. refl) p q ip iq ep eq,
  omega (arith, none),
  omega (arith, none),
)
  where
    free : ℕ
    free = s.shared.sems waiter_request_possible + s.shared.sems waiter_request

    sum :
        free + total group_service c.n_groups s.groups + 0 + in_service s waiter + in_service s chef
        ≡ 1
    sum = omega (arith, Reach-Balance r)

    none : free ≡ 0
    none = none_left _ free group_service s in_service sum (λ g. refl) p ip ep

-- `mutex` is at most 1, and so is the sum of the two semaphores of each slot for a request and of
-- the two by which the waiter gives an order to the chef.
pub sems_binary :
    {c : Config} {k : ℕ} {s : System}
    → Reach c k s
    → (s.shared.sems mutex ≤ 1)
      × (s.shared.sems receptionist_req + s.shared.sems receptionist_request_possible ≤ 1)
      × (s.shared.sems waiter_request + s.shared.sems waiter_request_possible ≤ 1)
      × (s.shared.sems wait_order + s.shared.sems order_received ≤ 1)
sems_binary {s} r = ground (arith, Reach-Balance r)
