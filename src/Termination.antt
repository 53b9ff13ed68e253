-- ===== src/Termination.antt =====
-- Every run is finite: each step lowers the number of steps that are left.
mod Left
mod Lowers
pub use Left.*
use restaurante_so.Prelude.{
  ℕ, suc, ◌+◌, ◌*◌, ◌≤◌, ◌<◌, ◌≡◌, refl, arith, total, total-update, total-same,
}
use restaurante_so.Setup.{Config, set_up}
use restaurante_so.Semaphore.{Shared, next}
use restaurante_so.Group.{GroupPc}
use restaurante_so.System.{
  System, launch, Step, group_moves, receptionist_moves, waiter_moves, chef_moves, Reach, start,
  later,
}
use restaurante_so.Tokens.{after_next, Reach-Balance}
use Lowers.{group_lowers, receptionist_lowers, waiter_lowers, chef_lowers}

-- What all processes together have left, with `n` groups.
abbrev pub steps_left : ℕ → System → ℕ
steps_left n s =
    total group_left n s.groups
    + receptionist_left n s.receptionist
    + waiter_left n s.waiter
    + chef_left n s.chef

-- A step from a state with the right number of groups lowers the sum.
Step-lowers :
    (n : ℕ) {s t : System} → s.shared.f_st.n_groups ≡ n → Step s t → steps_left n t < steps_left n s
Step-lowers n {s} e (group_moves g {p} lt m) =
    let l = after_next _ _ (group_lowers g (s.groups g) s.shared) m in
    omega (arith, total-update group_left n s.groups g p (omega arith))
Step-lowers n {s} e (receptionist_moves m) =
    omega (arith, rw e at (after_next _ _ (receptionist_lowers s.receptionist s.shared) m))
Step-lowers n {s} e (waiter_moves m) =
    omega (arith, rw e at (after_next _ _ (waiter_lowers s.waiter s.shared) m))
Step-lowers n {s} e (chef_moves m) =
    omega (arith, rw e at (after_next _ _ (chef_lowers s.chef s.shared) m))

launch-steps_left :
    (c : Config) {sh : Shared}
    → set_up c ≡ next sh tt
    → steps_left c.n_groups (launch sh) ≤ 104 * c.n_groups + 3
unfolding launch receptionist_left waiter_left chef_left
launch-steps_left c e = omega (arith, total-same group_left c.n_groups GroupPc.starting)

run_left :
    {c : Config} {k : ℕ} {s : System}
    → Reach c k s
    → k + steps_left c.n_groups s ≤ 104 * c.n_groups + 3
run_left {c} (start e) = omega (arith, launch-steps_left c e)
run_left {c} (later r st) =
    omega (arith, run_left r, Step-lowers c.n_groups (Reach-Balance r).same_groups st)

-- No run takes more than 104 n + 3 steps, with n groups, so that no run goes on for ever.
pub run_length : {c : Config} {k : ℕ} {s : System} → Reach c k s → k ≤ 104 * c.n_groups + 3
run_length r = omega (arith, run_left r)
