-- ===== src/Schedule.antt =====
-- Runs by evaluation: the processes take their steps in a given order, and a process that cannot
-- move is passed over.
use mathlib.Core.List.{foldl}
use native.Mathlib.Decide.{dec_lt}
use restaurante_so.Prelude.{ℕ, zero, suc, ◌≡◌, refl, ◌⊎◌, inl, inr, List, ◌∷◌}
use restaurante_so.Setup.{Config, set_up}
use restaurante_so.Semaphore.{Shared, Outcome, next, blocked, fault}
use restaurante_so.Group.{group_step}
use restaurante_so.Receptionist.{receptionist_step}
use restaurante_so.Waiter.{waiter_step}
use restaurante_so.Chef.{chef_step}
use restaurante_so.System.{
  System, launch, Step, group_moves, receptionist_moves, waiter_moves, chef_moves, Reach, start,
  later,
}
use restaurante_so.Safety.Exclusion.{Process, group, receptionist, waiter, chef}

Outcome-cases :
    {P : Type 0} (o : Outcome P) → ((sh : Shared) × (p : P) × (o ≡ next sh p)) ⊎ Unit {0}
Outcome-cases (next sh p) = inl (sh, p, refl)
Outcome-cases blocked = inr tt
Outcome-cases fault = inr tt

pub record Run (c : Config) : Type 0 where
  pub count : ℕ
  pub last : System
  pub reach : Reach c count last

advance : {c : Config} (r : Run c) {t : System} → Step r.last t → Run c
advance r {t} st = record { count = suc r.count; last = t; reach = later r.reach st }

turn : {c : Config} → Run c → Process → Run c
unfolding Outcome-cases advance
turn r (group g) = elim (dec_lt g r.last.shared.f_st.n_groups) [
  | yes lt ↦ elim (Outcome-cases (group_step g (r.last.groups g) r.last.shared)) [
    | inl (sh, p, e) ↦ advance r (group_moves g lt e)
    | inr _ ↦ r
  ]
  | no _ ↦ r
]
turn r receptionist = elim (Outcome-cases (receptionist_step r.last.receptionist r.last.shared)) [
  | inl (sh, p, e) ↦ advance r (receptionist_moves e)
  | inr _ ↦ r
]
turn r waiter = elim (Outcome-cases (waiter_step r.last.waiter r.last.shared)) [
  | inl (sh, p, e) ↦ advance r (waiter_moves e)
  | inr _ ↦ r
]
turn r chef = elim (Outcome-cases (chef_step r.last.chef r.last.shared)) [
  | inl (sh, p, e) ↦ advance r (chef_moves e)
  | inr _ ↦ r
]

begin : (c : Config) → Run c
unfolding set_up
begin c = record { count = 0; last = _; reach = start refl }

unfoldable pub run : (c : Config) → List Process → Run c
unfolding begin turn dec_lt group_step receptionist_step waiter_step chef_step launch
run c order = foldl turn (begin c) order

-- A process `n` times in a row.
abbrev pub times : ℕ → Process → List Process → List Process
times zero p rest = rest
times (suc n) p rest = p ∷ times n p rest
