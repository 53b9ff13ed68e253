-- ===== src/Lifetime/Joined.antt =====
-- The states of the runs of System.antt are the states of the processes in the whole program.
use restaurante_so.Prelude.{
  ℕ, zero, suc, ◌+◌, ◌≤◌, ◌<◌, ◌≡◌, ◌↔◌, refl, sym, subst, ap, some, arith, update, update_elim,
}
use restaurante_so.Setup.{Config, set_up}
use restaurante_so.Semaphore.{Shared, next}
use restaurante_so.StartGate.{sem_create, sem_connect, sem_signal}
use restaurante_so.System.{System, launch, Reach, start, later}
use restaurante_so.Tokens.{Reach-Balance}
use restaurante_so.Lifetime.{
  forking, waiting, Stage, absent, connecting, running, Program, number, forks, signals, connects,
  runs, Comes, created_set, advanced,
}
use restaurante_so.Lifetime.Exits.{number-below}
use restaurante_so.Lifetime.Runs.{Comes-Life}

-- The stages when `k` processes have been started, and when `k` of all `n` have connected.
forked : ℕ → ℕ → Stage
forked zero = λ _. absent
forked (suc k) = update (forked k) k connecting

pub joined : ℕ → ℕ → ℕ → Stage
joined n zero = forked n
joined n (suc k) = update (joined n k) k running

forked_at : (k j : ℕ) → j < k → forked k j ≡ connecting
unfolding forked
forked_at zero j lt = absurd (omega arith)
forked_at (suc k) j lt =
    update_elim (λ _ t. t ≡ connecting) (forked k) k connecting j refl
      (λ other. forked_at k j (omega arith))

joined_left : (n k j : ℕ) → k ≤ j → j < n → joined n k j ≡ connecting
unfolding joined
joined_left n zero j le lt = forked_at n j lt
joined_left n (suc k) j le lt =
    update_elim (λ i t. k < i → t ≡ connecting) (joined n k) k running j
      (λ below. absurd (omega arith)) (λ other below. joined_left n k j (omega arith) lt)
      (omega arith)

pub joined_at : (n k j : ℕ) → j < k → joined n k j ≡ running
unfolding joined
joined_at n zero j lt = absurd (omega arith)
joined_at n (suc k) j lt =
    update_elim (λ _ t. t ≡ running) (joined n k) k running j refl
      (λ other. joined_at n k j (omega arith))

abbrev pub gathered : Config → System → Program
gathered c s = record {
  main = waiting 0;
  gate = some 1;
  stages = joined (3 + c.n_groups) (3 + c.n_groups);
  system = s;
}

module _ (c : Config) {sh : Shared} (up : set_up c ≡ next sh tt) where
  same : sh.f_st.n_groups ≡ c.n_groups
  unfolding launch
  same = (Reach-Balance (start up)).same_groups

  Comes-forked :
      (k : ℕ)
      → k ≤ 3 + c.n_groups
      → Comes c (record { main = forking k; gate = some 0; stages = forked k; system = launch sh })
  unfolding forked sem_create launch
  Comes-forked zero le = created_set refl up
  Comes-forked (suc k) le =
      advanced (Comes-forked k (omega arith)) (forks refl (omega (arith, same)))

  Comes-joined :
      (k : ℕ)
      → k ≤ 3 + c.n_groups
      → Comes c (record {
        main = waiting 0;
        gate = some 1;
        stages = joined (3 + c.n_groups) k;
        system = launch sh;
      })
  unfolding joined sem_signal sem_connect launch
  Comes-joined zero le =
      advanced (Comes-forked (3 + c.n_groups) (omega arith))
        (signals (ap (λ n. forking (3 + n)) (sym same)) refl)
  Comes-joined (suc k) le = advanced (Comes-joined k (omega arith)) (
      connects k (omega (arith, same))
        (joined_left (3 + c.n_groups) k k (omega arith) (omega arith)) refl)

pub Comes-gathered : {c : Config} {k : ℕ} {s : System} → Reach c k s → Comes c (gathered c s)
Comes-gathered {c} (start up) = Comes-joined c up (3 + c.n_groups) (omega arith)
Comes-gathered {c} (later r st) = advanced (Comes-gathered r) (
    runs st (
      joined_at (3 + c.n_groups) (3 + c.n_groups) (number st)
        (number-below (Reach-Balance r).same_groups st)))

-- The processes come to the same states whether they start one by one or all at once: a state is
-- reached by a run exactly when it is the processes' part of a state of the whole program.
pub same_states :
    (c : Config) (s : System)
    → ((k : ℕ) × Reach c k s) ↔ ((p : Program) × Comes c p × (p.system ≡ s))
same_states c s = (
  λ (k, r). (gathered c s, Comes-gathered r, refl),
  λ (p, r, e). subst (λ t. (k : ℕ) × Reach c k t) e (Comes-Life r).run,
)
