-- ===== src/Progress/Completes.antt =====
-- No deadlock: while a process has not finished some process can move, and so every run can be
-- carried on to the end.
use restaurante_so.Prelude.{
  ℕ, zero, suc, ◌+◌, ◌*◌, ◌≤◌, ◌<◌, ◌≡◌, ◌≢◌, ◌⊎◌, inl, inr, refl, subst, Bool-cases, arith, ◌==◌,
}
use restaurante_so.Problem.{max_groups}
use restaurante_so.Setup.{Config}
use restaurante_so.Semaphore.{Shared, Outcome, next, blocked, fault}
use restaurante_so.Group.{group_step}
use restaurante_so.Receptionist.{receptionist_step}
use restaurante_so.Waiter.{waiter_step}
use restaurante_so.Chef.{chef_step}
use restaurante_so.System.{
  System, Reach, Step, group_moves, receptionist_moves, waiter_moves, chef_moves, later,
}
use restaurante_so.Safety.Faults.{group_never_faults, receptionist_never_faults}
use restaurante_so.Safety.Servants.{servants_never_fault}
use restaurante_so.Seats.Book.{waits}
use restaurante_so.Progress.Rests.{Waits}
use restaurante_so.Progress.Slots.{Reach-Known, AllRest-of_AllWait}
use restaurante_so.Termination.{run_length}
use restaurante_so.Progress.AtRest.{IsOver, IsOver-of_rest}

-- An outcome that is no fault is a step or a wait.
moves_or_Waits :
    {P : Type 0} (o : Outcome P) → o ≢ fault → ((sh : Shared) × (p : P) × (o ≡ next sh p)) ⊎ Waits o
moves_or_Waits (next sh p) sound = inl (sh, p, refl)
moves_or_Waits blocked sound = inr tt
moves_or_Waits fault sound = absurd (sound refl)

module _ {c : Config} {k : ℕ} {s : System} (r : Reach c k s) (few : c.n_groups ≤ max_groups) where
  -- One of the first `m` groups can move, or all of them wait.
  groups_move :
      (m : ℕ)
      → m ≤ c.n_groups
      → ((t : System) × Step s t) ⊎ ((g : ℕ) → g < m → Waits (group_step g (s.groups g) s.shared))
  groups_move zero le = inr (λ g lt. absurd (omega arith))
  groups_move (suc m) le = elim (groups_move m (omega arith)) [
    | inl moves ↦ inl moves
    | inr wait ↦
        elim (moves_or_Waits (group_step m (s.groups m) s.shared)
          (group_never_faults r m (omega arith))) [
            | inl (sh, p, e) ↦
                inl
                  (_, group_moves m (omega (arith, (Reach-Known r).protocol.balance.same_groups)) e)
            | inr waits ↦ inr (λ g lt. elim (Bool-cases (g == m)) [
              | inl same ↦
                  subst (λ j. Waits (group_step j (s.groups j) s.shared)) (ground arith) waits
              | inr other ↦ wait g (ground arith)
            ])
          ]
  ]

  -- With at most MAXGROUPS groups there is no deadlock: in a reachable state all processes have
  -- finished, or some process can move.
  pub no_deadlock : IsOver c.n_groups s ⊎ ((t : System) × Step s t)
  no_deadlock = elim (groups_move c.n_groups (omega arith)) [
    | inl moves ↦ inr moves
    | inr groups ↦
        elim (moves_or_Waits (receptionist_step s.receptionist s.shared)
          (receptionist_never_faults r few)) [
            | inl (sh, p, e) ↦ inr (_, receptionist_moves e)
            | inr desk ↦
                elim (moves_or_Waits (waiter_step s.waiter s.shared)
                  (servants_never_fault r few).0) [
                    | inl (sh, p, e) ↦ inr (_, waiter_moves e)
                    | inr waiter ↦
                        elim (moves_or_Waits (chef_step s.chef s.shared)
                          (servants_never_fault r few).1) [
                            | inl (sh, p, e) ↦ inr (_, chef_moves e)
                            | inr chef ↦ inl (
                                IsOver-of_rest r few (
                                  AllRest-of_AllWait (Reach-Known r).protocol.balance (record {
                                    groups = groups;
                                    desk = desk;
                                    waiter = waiter;
                                    chef = chef;
                                  })))
                          ]
                  ]
          ]
  ]

-- A run from the first state to the second.
pub data Continues : System → System → Type 0 where
  here : (s : System) → Continues s s
  onward : {s t u : System} → Step s t → Continues t u → Continues s u

completes_within :
    {c : Config} (fuel : ℕ) {k : ℕ} {s : System}
    → c.n_groups ≤ max_groups
    → Reach c k s
    → 104 * c.n_groups + 3 < k + fuel
    → (t : System) × Continues s t × IsOver c.n_groups t
completes_within zero few r enough = absurd (omega (arith, run_length r))
completes_within (suc fuel) {k} {s} few r enough = elim (no_deadlock r few) [
  | inl over ↦ (s, here s, over)
  | inr (t, st) ↦
      let (u, on, over) = completes_within fuel few (later r st) (omega arith) in
      (u, onward st on, over)
]

-- With at most MAXGROUPS groups every run can be carried on to a state in which all processes have
-- finished.
pub run_completes :
    {c : Config} {k : ℕ} {s : System}
    → Reach c k s
    → c.n_groups ≤ max_groups
    → (t : System) × Continues s t × IsOver c.n_groups t
run_completes {c} r few = completes_within (104 * c.n_groups + 4) few r (omega arith)
