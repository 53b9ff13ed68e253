-- ===== src/Safety/Faults.antt =====
-- No process leaves what C defines: the `assert`s hold, and every index is in its array.
use restaurante_so.Prelude.{ℕ, ◌≤◌, ◌<◌, ◌≢◌, arith}
use restaurante_so.Problem.{max_groups}
use restaurante_so.Setup.{Config}
use restaurante_so.Semaphore.{Outcome, fault}
use restaurante_so.Group.{group_step}
use restaurante_so.Receptionist.{receptionist_step}
use restaurante_so.System.{System, Reach}
use restaurante_so.Reception.{Protocol, Reach-Protocol, receptionist-Sound, IsReady-of_Desk}
use restaurante_so.Reception.View.{phase}
use restaurante_so.Reception.Places.{IsSound, group-IsSound}

pub ne_fault : {P : Type 0} (o : Outcome P) → IsSound o → o ≢ fault
ne_fault o sound e = rw e at sound

-- No group faults: whatever table it carries is one of the tables, so that each `semDown` and
-- `semUp` of a group gets the id of a semaphore.
pub group_never_faults :
    {c : Config} {k : ℕ} {s : System}
    → Reach c k s
    → (g : ℕ) → g < c.n_groups
    → group_step g (s.groups g) s.shared ≢ fault
group_never_faults {c} {s} r g lt = ne_fault _ (
    group-IsSound g (s.groups g) s.shared (omega (arith, i.balance.same_groups))
      (i.group_knows g lt))
  where
    i : Protocol c.n_groups s
    i = Reach-Protocol r

-- With at most MAXGROUPS groups the receptionist never faults: the `assert` that a group that asks
-- for a table has not been seated holds, each request names a group, and the table that a payment
-- frees is one of the tables.
pub receptionist_never_faults :
    {c : Config} {k : ℕ} {s : System}
    → Reach c k s
    → c.n_groups ≤ max_groups
    → receptionist_step s.receptionist s.shared ≢ fault
unfolding receptionist_step
receptionist_never_faults {c} {s} r few = ne_fault _ (
    receptionist-Sound c.n_groups s.receptionist s.receptionist.pc s.shared i.balance.same_groups
      few i.knows
      (IsReady-of_Desk c.n_groups s.receptionist.pc s.shared s.receptionist
        (λ g. phase (s.groups g)) i.knows i.desk))
  where
    i : Protocol c.n_groups s
    i = Reach-Protocol r
