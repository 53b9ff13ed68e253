-- ===== src/Lifetime/Runs.antt =====
-- The invariant of the whole program: the processes run as in System.antt, and what is past its end
-- has come to the end of its `main`.
use restaurante_so.Prelude.{
  ℕ, suc, ◌+◌, ◌<◌, ◌≡◌, ◌≢◌, sym, subst, ap, ◌∙◌, refl, Option, none, some, arith, update,
  update_elim,
}
use restaurante_so.Setup.{Config}
use restaurante_so.System.{Reach, start, later}
use restaurante_so.Tokens.{Reach-Balance}
use restaurante_so.StartGate.{go, sem_destroy}
use restaurante_so.Lifetime.{
  MainPc, forking, Stage, connecting, running, ended, reaped, Program, number, count_child,
  HasExited, Advance, forks, signals, reaps, destroys, connects, runs, exits, Comes, created_set,
  advanced,
}
use restaurante_so.Lifetime.Phases.{
  Phase, Starting-first, Starting-fork, Open-signal, Phase-move, opened_of_running, Phase-run,
  Phase-count, connect_same, is_past, is_reaped,
}
use restaurante_so.Lifetime.Exits.{HasExited-kept}

-- What is left of the set after `semDestroy`.
destroyed : (gate : Option ℕ) {g : Option ℕ} → gate ≡ some 1 → sem_destroy gate ≡ go g → g ≡ none
unfolding sem_destroy
destroyed none e gone = cc
destroyed (some v) e gone = cc

pub record Life (c : Config) (p : Program) : Type 0 where
  pub run : (k : ℕ) × Reach c k p.system
  pub phase : Phase c p.stages p.gate p.system p.main
  pub past :
      (k : ℕ) → k < 3 + c.n_groups → is_past (p.stages k) ≡ 1 → HasExited c.n_groups p.system k

pub same_groups : {c : Config} {p : Program} → Life c p → p.system.shared.f_st.n_groups ≡ c.n_groups
same_groups a = (Reach-Balance a.run.1).same_groups

module _ {c : Config} {p : Program} (a : Life c p) where
  -- After the change of one process's stage.
  past_kept :
      (k : ℕ) (new : Stage)
      → (is_past new ≡ 1 → HasExited c.n_groups p.system k)
      → (j : ℕ) → j < 3 + c.n_groups
      → is_past (update p.stages k new j) ≡ 1
      → HasExited c.n_groups p.system j
  past_kept k new out j lt =
      update_elim (λ i t. is_past t ≡ 1 → HasExited c.n_groups p.system i) p.stages k new j out
        (λ other. a.past j lt)

  running_first : {k : ℕ} (j : ℕ) → k ≡ j → p.stages k ≡ running → is_past (p.stages j) ≢ 1
  running_first j same e old =
      absurd (omega (arith, old, ap (λ i. is_past (p.stages i)) same, ap is_past e))

  at_main : {m : MainPc} → p.main ≡ m → Phase c p.stages p.gate p.system m
  at_main e = subst (Phase c p.stages p.gate p.system) e a.phase

  Life-advance : {q : Program} → Advance p q → Life c q
  unfolding Phase
  Life-advance (forks {k} e lt) = record {
    run = a.run;
    phase = Starting-fork (at_main e) (omega (arith, lt, same_groups a));
    past = past_kept k connecting (λ young. cc);
  }
  Life-advance (signals e up) = record {
    run = a.run;
    phase = (Open-signal (at_main (e ∙ ap (λ n. forking (3 + n)) (same_groups a))) up, omega arith);
    past = a.past;
  }
  Life-advance (reaps {m} k e lt gone) = record {
    run = a.run;
    phase =
        subst (λ n. Phase c (update p.stages k reaped) p.gate p.system (count_child n m))
          (sym (same_groups a))
          (Phase-count c p.stages p.gate p.system p.system m k (at_main e)
            (omega (arith, lt, same_groups a)) gone);
    past = past_kept k reaped (λ _. a.past k (omega (arith, lt, same_groups a)) (ap is_past gone));
  }
  Life-advance (destroys {g} e gone) = record {
    run = a.run;
    phase = (destroyed p.gate (at_main e).held gone, (at_main e).counted);
    past = a.past;
  }
  Life-advance (connects k {g} lt e pass) = record {
    run = a.run;
    phase =
        subst (λ v. Phase c (update p.stages k running) v p.system p.main)
          (sym (connect_same p.gate pass).0)
          (Phase-move c p.stages p.gate p.system p.system p.main k running a.phase
            (connect_same p.gate pass).1 (omega (arith, lt, same_groups a)) (ap is_reaped e) refl
            (λ absence. cc));
    past = past_kept k running (λ young. cc);
  }
  Life-advance (runs {t} st e) = record {
    run = (suc a.run.0, later a.run.1 st);
    phase =
        Phase-run c p.stages p.gate p.system t p.main a.phase
          (opened_of_running c p.stages p.gate p.system t p.main (number st) a.phase e);
    past = λ j below old.
        HasExited-kept (same_groups a) st j (λ same. running_first j same e old)
          (a.past j below old);
  }
  Life-advance (exits k lt e out) = record {
    run = a.run;
    phase =
        Phase-move c p.stages p.gate p.system p.system p.main k ended a.phase
          (opened_of_running c p.stages p.gate p.system p.system p.main k a.phase e)
          (omega (arith, lt, same_groups a)) (ap is_reaped e) refl (λ absence. cc);
    past = past_kept k ended (λ _. subst (λ n. HasExited n p.system k) (same_groups a) out);
  }

pub Comes-Life : {c : Config} {p : Program} → Comes c p → Life c p
unfolding Phase
Comes-Life (created_set e up) = record {
  run = (0, start up);
  phase = Starting-first e up;
  past = λ k lt old. cc;
}
Comes-Life (advanced r st) = Life-advance (Comes-Life r) st
