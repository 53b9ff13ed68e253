-- ===== src/Tests/Program.antt =====
-- The theorems about the whole program, at states of it.
use restaurante_so.Prelude.{
  pos, ℕ, zero, suc, ◌<◌, ◌≡◌, ◌↔◌, sym, subst, update, ◌⊎◌, refl, [], none, some, arith,
}
use restaurante_so.Setup.{Config, set_up}
use restaurante_so.Semaphore.{Shared, next}
use restaurante_so.StartGate.{sem_create, sem_destroy}
use restaurante_so.Group.{GroupPc}
use restaurante_so.Receptionist.{ReceptionistPc}
use restaurante_so.Waiter.{WaiterPc}
use restaurante_so.Chef.{ChefPc}
use restaurante_so.System.{System, Reach, launch}
use restaurante_so.Lifetime.{
  Stage, reaped, ended, connecting, count_child, HasExited, reaped, ended, connecting, count_child,
  HasExited, Program, forking, waiting, over, absent, Comes, created_set, advanced, forks, reaps,
  exits, destroys, Advance, group_exits, waiter_exits, chef_exits, receptionist_exits,
}
use restaurante_so.Lifetime.Phases.{has_connected}
use restaurante_so.Lifetime.Joined.{joined, joined_at, gathered, Comes-gathered, same_states}
use restaurante_so.Lifetime.Ends.{untouched_before_signal, removed_when-IsOver}
use restaurante_so.Lifetime.Moves.{program_moves}
use restaurante_so.Progress.AtRest.{IsOver}
use restaurante_so.Safety.Exclusion.{group, receptionist, waiter, chef}
use restaurante_so.Schedule.{Run, run, times}

abbrev one : Config
one = record { n_groups = 1; start_time = λ _. pos 0; eat_time = λ _. pos 0 }

-- The only group eats, pays and leaves.
abbrev served : Run one
served = run one (
    times 10 (group 0) (
      times 20 receptionist (
        times 10 (group 0) (
          times 30 waiter (
            times 20 chef (
              times 30 waiter (
                times 40 (group 0) (
                  times 30 receptionist
                    (times 20 (group 0) (times 5 waiter (times 5 chef [])))))))))))

served_over :
    (served.last.groups 0 ≡ GroupPc.finished)
    × (served.last.receptionist.pc ≡ ReceptionistPc.finished)
    × (served.last.waiter.pc ≡ WaiterPc.finished)
    × (served.last.chef.pc ≡ ChefPc.finished)
unfolding run
served_over = (refl, refl, refl, refl)

-- The stages when all four processes have exited, and when main has reaped them.
abbrev exited : ℕ → Stage
exited = update (update (update (update (joined 4 4) 0 ended) 1 ended) 2 ended) 3 ended

abbrev all_gone : ℕ → Stage
all_gone = update (update (update (update exited 0 reaped) 1 reaped) 2 reaped) 3 reaped

module _ {s : System} (same : s.shared.f_st.n_groups ≡ 1) where
  four_exit :
      Comes one (gathered one s)
      → ((k : ℕ) → k < 4 → HasExited 1 s k)
      → Comes one (record { main = waiting 0; gate = some 1; stages = exited; system = s })
  four_exit r out =
      advanced
        (advanced
          (advanced
            (advanced r (
              exits 0 (omega (arith, same)) (joined_at 4 4 0 (omega arith))
                (exit_at 0 (omega arith))))
            (exits 1 (omega (arith, same)) (joined_at 4 4 1 (omega arith))
              (exit_at 1 (omega arith))))
          (exits 2 (omega (arith, same)) (joined_at 4 4 2 (omega arith)) (exit_at 2 (omega arith))))
        (exits 3 (omega (arith, same)) (joined_at 4 4 3 (omega arith)) (exit_at 3 (omega arith)))
    where
      exit_at : (k : ℕ) → k < 4 → HasExited s.shared.f_st.n_groups s k
      exit_at k lt = subst (λ n. HasExited n s k) (sym same) (out k lt)

  four_reaped :
      Comes one (record { main = waiting 0; gate = some 1; stages = exited; system = s })
      → Comes one (record { main = over; gate = none; stages = all_gone; system = s })
  unfolding count_child sem_destroy
  four_reaped r =
      advanced
        (advanced
          (advanced
            (advanced (advanced r (reaps 0 refl (omega (arith, same)) refl))
              (reaps {m = 1} 1 (rw same refl) (omega (arith, same)) refl))
            (reaps {m = 2} 2 (rw same refl) (omega (arith, same)) refl))
          (reaps {m = 3} 3 (rw same refl) (omega (arith, same)) refl))
        (destroys (rw same refl) refl)

-- Main has returned.
abbrev closed : Program
closed = record { main = over; gate = none; stages = all_gone; system = served.last }

served_groups : served.last.shared.f_st.n_groups ≡ 1
unfolding run
served_groups = refl

served_exits : (k : ℕ) → k < 4 → HasExited 1 served.last k
served_exits zero lt = group_exits (omega arith) served_over.0
served_exits (suc zero) lt = waiter_exits refl served_over.2
served_exits (suc (suc zero)) lt = chef_exits refl served_over.3
served_exits (suc (suc (suc zero))) lt = receptionist_exits refl served_over.1
served_exits (suc (suc (suc (suc k)))) lt = absurd (omega arith)

closed-Comes : Comes one closed
closed-Comes =
    four_reaped served_groups (four_exit served_groups (Comes-gathered served.reach) served_exits)

removed_when-IsOver_example : IsOver 1 served.last
removed_when-IsOver_example = removed_when-IsOver closed-Comes (omega arith) refl

-- All processes are at the end of their work, and none has exited.
program_moves_example : (waiting 0 ≡ over) ⊎ ((q : Program) × Advance (gathered one served.last) q)
program_moves_example = program_moves (Comes-gathered served.reach) (omega arith)

same_states_example :
    ((k : ℕ) × Reach one k served.last) ↔ ((p : Program) × Comes one p × (p.system ≡ served.last))
same_states_example = same_states one served.last

-- Two of the four processes have been started.
abbrev first_state : System
first_state = (run one []).last

half_memory : set_up one ≡ next first_state.shared tt
unfolding run set_up
half_memory = refl

abbrev half : Program
half = record {
  main = forking 2;
  gate = some 0;
  stages = update (update (λ _. absent) 0 connecting) 1 connecting;
  system = launch first_state.shared;
}

half-Comes : Comes one half
unfolding sem_create launch run set_up
half-Comes =
    advanced (advanced (created_set refl half_memory) (forks refl (omega arith)))
      (forks refl (omega arith))

untouched_before_signal_example :
    ((sh : Shared) × (set_up one ≡ next sh tt) × (half.system ≡ launch sh))
    × ((j : ℕ) → has_connected (half.stages j) ≡ 0)
untouched_before_signal_example = untouched_before_signal half-Comes refl
