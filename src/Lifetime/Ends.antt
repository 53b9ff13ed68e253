-- ===== src/Lifetime/Ends.antt =====
-- The order in which the whole program begins and ends.
use native.Mathlib.Decide.{dec_lt}
use restaurante_so.Prelude.{
  ℕ, ◌+◌, ◌≤◌, ◌<◌, ◌≡◌, refl, subst, ap, Option, none, some, arith, total, total-full, ◌≢◌,
}
use restaurante_so.Problem.{max_groups}
use restaurante_so.Setup.{Config, set_up}
use restaurante_so.Semaphore.{Shared, next}
use restaurante_so.Ledger.Counts.{GroupFails}
use restaurante_so.Progress.Slots.{Reach-Known}
use restaurante_so.Progress.AtRest.{IsOver}
use restaurante_so.System.{System, Reach, launch}
use restaurante_so.Lifetime.{
  MainPc, forking, waiting, destroying, over, Stage, absent, connecting, running, ended, reaped,
  Program, HasExited, group_exits, group_fails, waiter_exits, chef_exits, receptionist_exits, Comes,
}
use restaurante_so.Lifetime.Phases.{Phase, Starting, has_connected, is_past, is_reaped}
use restaurante_so.Lifetime.Runs.{Comes-Life}

-- While main starts the processes, none of them has connected, and the memory and the processes are
-- as they were set up.
pub untouched_before_signal :
    {c : Config} {p : Program} {k : ℕ}
    → Comes c p
    → p.main ≡ forking k
    → ((sh : Shared) × (set_up c ≡ next sh tt) × (p.system ≡ launch sh))
      × ((j : ℕ) → has_connected (p.stages j) ≡ 0)
unfolding Phase
untouched_before_signal {c} {p} {k} r e = (starting.untouched, waits_all)
  where
    starting : Starting c p.stages p.gate p.system k
    starting = subst (Phase c p.stages p.gate p.system) e (Comes-Life r).phase

    waits_all : (j : ℕ) → has_connected (p.stages j) ≡ 0
    waits_all j = elim (dec_lt j k) [
      | yes lt ↦ ap has_connected (starting.begun j lt)
      | no ge ↦ ap has_connected (starting.left j (omega arith))
    ]

reaped-le : (t : Stage) → is_reaped t ≤ 1
reaped-le absent = omega arith
reaped-le connecting = omega arith
reaped-le running = omega arith
reaped-le ended = omega arith
reaped-le reaped = omega arith

past_of_reaped : (t : Stage) → is_reaped t ≡ 1 → is_past t ≡ 1
past_of_reaped absent e = e
past_of_reaped connecting e = e
past_of_reaped running e = e
past_of_reaped ended e = refl
past_of_reaped reaped e = e

-- Processes that have all exited are over: with at most MAXGROUPS groups none has failed.
IsOver-of_exits :
    {c : Config} {k : ℕ} {s : System}
    → Reach c k s
    → c.n_groups ≤ max_groups
    → ((j : ℕ) → j < 3 + c.n_groups → HasExited c.n_groups s j)
    → IsOver c.n_groups s
IsOver-of_exits {c} {k} {s} r few all = record {
  groups = λ g lt. elim (all g (omega (arith, lt))) [
    | group_exits below e ↦ e
    | group_fails below e ↦
        absurd (omega (arith, few, lt, subst (GroupFails g) e ((Reach-Known r).ledger.fails g lt)))
    | waiter_exits at e ↦ absurd (omega (arith, lt, at))
    | chef_exits at e ↦ absurd (omega (arith, lt, at))
    | receptionist_exits at e ↦ absurd (omega (arith, lt, at))
  ];
  receptionist = elim (all (2 + c.n_groups) (omega arith)) [
    | receptionist_exits at e ↦ e
    | group_exits below e ↦ absurd (omega (arith, below))
    | group_fails below e ↦ absurd (omega (arith, below))
    | waiter_exits at e ↦ absurd (omega (arith, at))
    | chef_exits at e ↦ absurd (omega (arith, at))
  ];
  waiter = elim (all c.n_groups (omega arith)) [
    | waiter_exits at e ↦ e
    | group_exits below e ↦ absurd (omega (arith, below))
    | group_fails below e ↦ absurd (omega (arith, below))
    | receptionist_exits at e ↦ absurd (omega (arith, at))
    | chef_exits at e ↦ absurd (omega (arith, at))
  ];
  chef = elim (all (1 + c.n_groups) (omega arith)) [
    | chef_exits at e ↦ e
    | group_exits below e ↦ absurd (omega (arith, below))
    | group_fails below e ↦ absurd (omega (arith, below))
    | waiter_exits at e ↦ absurd (omega (arith, at))
    | receptionist_exits at e ↦ absurd (omega (arith, at))
  ];
}

gate_value : {v : ℕ} {gate : Option ℕ} → gate ≡ some v → gate ≢ none
gate_value e gone = ground arith

full_of_removed :
    (c : Config) (p : Program) (m : MainPc)
    → Phase c p.stages p.gate p.system m
    → p.gate ≡ none
    → total is_reaped (3 + c.n_groups) p.stages ≡ 3 + c.n_groups
unfolding Phase
full_of_removed c p (forking k) a gone = absurd (gate_value a.shut gone)
full_of_removed c p (waiting m) a gone = absurd (gate_value a.0.held gone)
full_of_removed c p destroying a gone = absurd (gate_value a.held gone)
full_of_removed c p over a gone = a.1

-- With at most MAXGROUPS groups main removes the semaphore set only when all processes have finished.
pub removed_when-IsOver :
    {c : Config} {p : Program}
    → Comes c p
    → c.n_groups ≤ max_groups
    → p.gate ≡ none
    → IsOver c.n_groups p.system
removed_when-IsOver {c} {p} r few gone =
    let a = Comes-Life r in
    let full = full_of_removed c p p.main a.phase gone in
    IsOver-of_exits a.run.1 few (λ j lt.
      a.past j lt
        (past_of_reaped (p.stages j) (total-full is_reaped _ p.stages reaped-le full j lt)))
