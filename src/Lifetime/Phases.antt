-- ===== src/Lifetime/Phases.antt =====
-- What holds at each place of `main` of src/probSemSharedMemRestaurant.c: the value of semaphore 0,
-- and how far the processes have come.
use native.Mathlib.Decide.{dec_lt}
use restaurante_so.Prelude.{
  ℕ, suc, ◌+◌, ◌≤◌, ◌<◌, ◌≡◌, ◌≢◌, refl, subst, ap, inl, inr, Option, none, some, arith, total,
  total-update, total-zero, update, update_elim, Bool-cases, ltb,
}
use restaurante_so.Setup.{Config, set_up}
use restaurante_so.Semaphore.{Shared, next}
use restaurante_so.StartGate.{go, sem_create, sem_connect, sem_signal}
use restaurante_so.System.{System, launch}
use restaurante_so.Lifetime.{
  MainPc, forking, waiting, destroying, over, Stage, absent, connecting, running, ended, reaped,
  count_child,
}

-- Whether a process has been reaped, and whether it has come to its end.
abbrev pub is_reaped : Stage → ℕ
is_reaped reaped = 1
is_reaped _ = 0

abbrev pub is_past : Stage → ℕ
is_past reaped = 1
is_past ended = 1
is_past _ = 0

-- A process that is connected to the semaphore set, or was.
abbrev pub has_connected : Stage → ℕ
has_connected absent = 0
has_connected connecting = 0
has_connected _ = 1

-- While `main` starts processes, none of them has passed the gate.
pub record Starting (c : Config) (stage : ℕ → Stage) (gate : Option ℕ) (s : System) (k : ℕ)
    : Type 0 where
  pub shut : gate ≡ some 0
  pub bound : k ≤ 3 + c.n_groups
  pub begun : (j : ℕ) → j < k → stage j ≡ connecting
  pub left : (j : ℕ) → k ≤ j → stage j ≡ absent
  pub untouched : (sh : Shared) × (set_up c ≡ next sh tt) × (s ≡ launch sh)

-- After the start the gate stays unshut, and `m` counts the processes that were reaped.
pub record Open (c : Config) (stage : ℕ → Stage) (gate : Option ℕ) (m : ℕ) : Type 0 where
  pub held : gate ≡ some 1
  pub started : (j : ℕ) → j < 3 + c.n_groups → stage j ≢ absent
  pub counted : total is_reaped (3 + c.n_groups) stage ≡ m

unfoldable pub Phase : Config → (ℕ → Stage) → Option ℕ → System → MainPc → Type 0
Phase c stage gate s (forking k) = Starting c stage gate s k
Phase c stage gate s (waiting m) = Open c stage gate m × (m < 3 + c.n_groups)
Phase c stage gate s destroying = Open c stage gate (3 + c.n_groups)
Phase c stage gate s over =
    (gate ≡ none) × (total is_reaped (3 + c.n_groups) stage ≡ 3 + c.n_groups)

-- Before the first start.
pub Starting-first :
    {c : Config} {g : Option ℕ} {sh : Shared}
    → sem_create none ≡ go g
    → set_up c ≡ next sh tt
    → Starting c (λ _. absent) g (launch sh) 0
unfolding sem_create
Starting-first {c} {g} {sh} e up = record {
  shut = cc;
  bound = omega arith;
  begun = λ j lt. absurd (omega (arith, lt));
  left = λ j le. refl;
  untouched = (sh, up, refl);
}

module _ {c : Config} {stage : ℕ → Stage} {gate : Option ℕ} {s : System} where
  pub Starting-fork :
      {k : ℕ}
      → Starting c stage gate s k
      → k < 3 + c.n_groups
      → Starting c (update stage k connecting) gate s (suc k)
  Starting-fork {k} a lt = record {
    shut = a.shut;
    bound = omega (arith, lt);
    begun = λ j below.
        update_elim (λ _ t. t ≡ connecting) stage k connecting j refl
          (λ other. a.begun j (omega arith));
    left = λ j le.
        update_elim (λ i t. k < i → t ≡ absent) stage k connecting j (λ lt. absurd (omega arith))
          (λ other lt. a.left j (omega arith)) (omega arith);
    untouched = a.untouched;
  }

  -- The signal opens the gate, when all processes have been started.
  pub Open-signal :
      {g : Option ℕ}
      → Starting c stage gate s (3 + c.n_groups)
      → sem_signal gate ≡ go g
      → Open c stage g 0
  unfolding sem_signal
  Open-signal {g} a e = record {
    held = opened gate a.shut e;
    started = λ j lt absence. cc (a.begun j lt);
    counted = total-zero is_reaped (3 + c.n_groups) stage (λ j lt. ap is_reaped (a.begun j lt));
  }
    where
      opened : (v : Option ℕ) → v ≡ some 0 → sem_signal v ≡ go g → g ≡ some 1
      opened v shut e = ground arith

module _ {c : Config} {stage : ℕ → Stage} {gate : Option ℕ} where
  -- A process that was not reaped goes on to another stage.
  Open-move :
      {m : ℕ} (k : ℕ) (new : Stage)
      → Open c stage gate m
      → k < 3 + c.n_groups
      → is_reaped (stage k) ≡ 0
      → new ≢ absent
      → Open c (update stage k new) gate (m + is_reaped new)
  Open-move k new a lt before present = record {
    held = a.held;
    started = λ j below.
        update_elim (λ _ t. t ≢ absent) stage k new j present (λ other. a.started j below);
    counted =
        omega (arith, a.counted, total-update is_reaped (3 + c.n_groups) stage k new lt, before);
  }

module _ (c : Config) (stage : ℕ → Stage) (gate : Option ℕ) (s t : System) where
  pub Phase-move :
      (pc : MainPc) (k : ℕ) (new : Stage)
      → Phase c stage gate s pc
      → gate ≢ some 0
      → k < 3 + c.n_groups
      → is_reaped (stage k) ≡ 0
      → is_reaped new ≡ 0
      → new ≢ absent
      → Phase c (update stage k new) gate t pc
  unfolding Phase
  Phase-move (forking i) k new a unshut lt before after present = absurd (unshut a.shut)
  Phase-move (waiting m) k new (a, below) unshut lt before after present = (
    subst (Open c (update stage k new) gate) (omega (arith, after))
        (Open-move k new a lt before present),
    below,
  )
  Phase-move destroying k new a unshut lt before after present =
      subst (Open c (update stage k new) gate) (omega (arith, after))
        (Open-move k new a lt before present)
  Phase-move over k new a unshut lt before after present = (
    a.0,
    omega (arith, a.1, total-update is_reaped (3 + c.n_groups) stage k new lt, before, after),
  )

  -- A process that runs has passed the gate.
  pub opened_of_running :
      (pc : MainPc) (k : ℕ) → Phase c stage gate s pc → stage k ≡ running → gate ≢ some 0
  unfolding Phase
  opened_of_running (forking i) k a e shut = elim (dec_lt k i) [
    | yes lt ↦ cc (a.begun k lt)
    | no ge ↦ cc (a.left k (omega arith))
  ]
  opened_of_running (waiting m) k a e shut = ground (arith, a.0.held)
  opened_of_running destroying k a e shut = ground (arith, a.held)
  opened_of_running over k a e shut = ground (arith, a.0)

  pub Phase-run : (pc : MainPc) → Phase c stage gate s pc → gate ≢ some 0 → Phase c stage gate t pc
  unfolding Phase
  Phase-run (forking i) a unshut = absurd (unshut a.shut)
  Phase-run (waiting m) a unshut = a
  Phase-run destroying a unshut = a
  Phase-run over a unshut = a

  pub Phase-count :
      (m k : ℕ)
      → Open c stage gate m × (m < 3 + c.n_groups)
      → k < 3 + c.n_groups
      → stage k ≡ ended
      → Phase c (update stage k reaped) gate t (count_child c.n_groups m)
  unfolding Phase count_child
  Phase-count m k (a, lt) below e = elim (Bool-cases (ltb (m + 1) (3 + c.n_groups))) [
    | inl more ↦ rw more (counted, ground arith)
    | inr last ↦ rw last (subst (Open c (update stage k reaped) gate) (ground arith) counted)
  ]
    where
      counted : Open c (update stage k reaped) gate (m + 1)
      counted = Open-move k reaped a below (ap is_reaped e) (λ e. cc)

-- A process that gets past the gate leaves it as it was.
pub connect_same :
    (gate : Option ℕ) {g : Option ℕ} → sem_connect gate ≡ go g → (g ≡ gate) × (gate ≢ some 0)
unfolding sem_connect
connect_same none e = cc
connect_same (some v) e = ground arith
