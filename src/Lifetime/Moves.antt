-- ===== src/Lifetime/Moves.antt =====
-- No deadlock of the whole program: `main`, or a process that it started, can always move.
use native.Mathlib.Decide.{dec_lt}
use restaurante_so.Prelude.{
  ℕ, ◌∙◌, Bool-cases, ◌==◌, ◌+◌, ◌-◌, ◌≤◌, ◌<◌, ◌≡◌, refl, sym, subst, ap, ◌⊎◌, inl, inr, Option,
  none, some, arith, total-gap, ◌≢◌,
}
use restaurante_so.Problem.{max_groups}
use restaurante_so.Setup.{Config}
use restaurante_so.Progress.AtRest.{IsOver}
use restaurante_so.Progress.Completes.{no_deadlock}
use restaurante_so.StartGate.{go, sem_connect, sem_signal, sem_destroy}
use restaurante_so.System.{System}
use restaurante_so.Lifetime.{
  MainPc, forking, waiting, destroying, over, Stage, absent, connecting, running, ended, reaped,
  Program, number, HasExited, group_exits, waiter_exits, chef_exits, receptionist_exits, Advance,
  forks, signals, reaps, destroys, connects, runs, exits, Comes,
}
use restaurante_so.Lifetime.Phases.{Phase, Starting, Open, is_past, is_reaped}
use restaurante_so.Lifetime.Exits.{number-below, exited_stays}
use restaurante_so.Lifetime.Runs.{Life, same_groups, Comes-Life}

exits_of_over : {n : ℕ} {s : System} → IsOver n s → (k : ℕ) → k < 3 + n → HasExited n s k
exits_of_over {n} a k lt = elim (dec_lt k n) [
  | yes fits ↦ group_exits fits (a.groups k fits)
  | no ge ↦ elim (Bool-cases (k == n)) [
    | inl e ↦ waiter_exits (ground arith) a.waiter
    | inr below ↦ elim (Bool-cases (k == 1 + n)) [
      | inl e ↦ chef_exits (ground arith) a.chef
      | inr late ↦ receptionist_exits (ground arith) a.receptionist
    ]
  ]
]

-- The calls of main and of a process that connects do not wait.
signal_goes : (gate : Option ℕ) → gate ≡ some 0 → (g : Option ℕ) × (sem_signal gate ≡ go g)
unfolding sem_signal
signal_goes none e = (none, cc)
signal_goes (some v) e = (_, refl)

connect_goes : (gate : Option ℕ) → gate ≡ some 1 → (g : Option ℕ) × (sem_connect gate ≡ go g)
unfolding sem_connect
connect_goes none e = (none, cc)
connect_goes (some v) e = (some (v - 1 + 1), ground arith)

destroy_goes : (gate : Option ℕ) → gate ≡ some 1 → (g : Option ℕ) × (sem_destroy gate ≡ go g)
unfolding sem_destroy
destroy_goes none e = (none, cc)
destroy_goes (some v) e = (_, refl)

module _ {c : Config} {p : Program} (a : Life c p) where
  -- `main` waits: a process that is left connects, exits, is reaped, or moves by `go_on`.
  moves_at :
      {m : ℕ} (k : ℕ)
      → p.main ≡ waiting m
      → Open c p.stages p.gate m
      → k < 3 + c.n_groups
      → (p.stages k ≡ running → (q : Program) × Advance p q)
      → (t : Stage) → p.stages k ≡ t
      → is_reaped t ≡ 0
      → (q : Program) × Advance p q
  moves_at k e gates lt go_on absent at left = absurd (gates.started k lt at)
  moves_at k e gates lt go_on connecting at left =
      (_, connects k (omega (arith, lt, same_groups a)) at (connect_goes p.gate gates.held).1)
  moves_at k e gates lt go_on running at left = go_on at
  moves_at k e gates lt go_on ended at left = (_, reaps k e (omega (arith, lt, same_groups a)) at)
  moves_at k e gates lt go_on reaped at left = absurd (omega (arith, left))

  waiting_moves :
      {m : ℕ}
      → c.n_groups ≤ max_groups
      → p.main ≡ waiting m
      → Open c p.stages p.gate m
      → m < 3 + c.n_groups
      → (q : Program) × Advance p q
  waiting_moves few e gates lt = elim (no_deadlock a.run.1 few) [
    | inl all ↦
        let (k, below, left) =
          total-gap is_reaped (3 + c.n_groups) p.stages (omega (arith, lt, gates.counted)) in
        moves_at k e gates below
          (λ runs_on. (
            _,
            exits k (omega (arith, below, same_groups a)) runs_on (
                subst (λ n. HasExited n p.system k) (sym (same_groups a))
                  (exits_of_over all k below)),
          ))
          (p.stages k) refl left
    | inr (t, st) ↦
        let below = number-below (same_groups a) st in
        moves_at (number st) e gates below (λ runs_on. (_, runs st runs_on)) (p.stages (number st))
          refl
          (not_reaped (p.stages (number st))
            (λ past. exited_stays (same_groups a) st (a.past (number st) below past)))
  ]
    where
      not_reaped : (t : Stage) → is_past t ≢ 1 → is_reaped t ≡ 0
      not_reaped absent young = refl
      not_reaped connecting young = refl
      not_reaped running young = refl
      not_reaped ended young = refl
      not_reaped reaped young = absurd (young refl)

  forking_moves :
      {k : ℕ}
      → p.main ≡ forking k
      → Starting c p.stages p.gate p.system k
      → (q : Program) × Advance p q
  forking_moves {k} e starting = elim (dec_lt k (3 + c.n_groups)) [
    | yes lt ↦ (_, forks e (omega (arith, lt, same_groups a)))
    | no last ↦ (
      _,
      signals (e ∙ ap forking (omega (arith, starting.bound, same_groups a)))
          (signal_goes p.gate starting.shut).1,
    )
  ]

  main_moves :
      (m : MainPc)
      → c.n_groups ≤ max_groups
      → p.main ≡ m
      → Phase c p.stages p.gate p.system m
      → (p.main ≡ over) ⊎ ((q : Program) × Advance p q)
  unfolding Phase
  main_moves (forking k) few e starting = inr (forking_moves e starting)
  main_moves (waiting m) few e (gates, lt) = inr (waiting_moves few e gates lt)
  main_moves destroying few e gates = inr (_, destroys e (destroy_goes p.gate gates.held).1)
  main_moves over few e gone = inl e

-- With at most MAXGROUPS groups the whole program has no deadlock: main has returned, or main or a
-- process that it started can move.
pub program_moves :
    {c : Config} {p : Program}
    → Comes c p
    → c.n_groups ≤ max_groups
    → (p.main ≡ over) ⊎ ((q : Program) × Advance p q)
program_moves {p = p} r few = let a = Comes-Life r in main_moves a p.main few refl a.phase
