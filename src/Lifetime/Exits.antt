-- ===== src/Lifetime/Exits.antt =====
-- A process that has come to the end of its `main` takes no step, and no step of another process
-- brings it back.
use restaurante_so.Prelude.{ℕ, ◌+◌, ◌<◌, ◌≡◌, ◌≢◌, sym, ap, ◌∙◌, arith, ==_ne}
use restaurante_so.Semaphore.{Shared, next, blocked}
use restaurante_so.Group.{GroupPc, group_step}
use restaurante_so.Receptionist.{Receptionist, ReceptionistPc, receptionist_step, receptionist_at}
use restaurante_so.Waiter.{Waiter, WaiterPc, waiter_step, waiter_at}
use restaurante_so.Chef.{Chef, ChefPc, chef_step, chef_at}
use restaurante_so.System.{System, Step, group_moves, receptionist_moves, waiter_moves, chef_moves}
use restaurante_so.Lifetime.{
  number, HasExited, group_exits, group_fails, waiter_exits, chef_exits, receptionist_exits,
}

blocked-next : {P : Type 0} (sh : Shared) (p : P) → blocked ≡ next sh p → ⊥
blocked-next sh p e = cc

group_stays :
    (g : ℕ) (sh sh' : Shared) (p : GroupPc)
    → (group_step g GroupPc.finished sh ≢ next sh' p)
      × (group_step g GroupPc.failed sh ≢ next sh' p)
unfolding group_step
group_stays g sh sh' p = (blocked-next sh' p, blocked-next sh' p)

waiter_stays :
    (w : Waiter) (sh sh' : Shared) (v : Waiter)
    → w.pc ≡ WaiterPc.finished
    → waiter_step w sh ≢ next sh' v
unfolding waiter_step waiter_at
waiter_stays w sh sh' v over e = blocked-next sh' v (sym (ap (λ p. waiter_at p w sh) over) ∙ e)

chef_stays :
    (c : Chef) (sh sh' : Shared) (v : Chef) → c.pc ≡ ChefPc.finished → chef_step c sh ≢ next sh' v
unfolding chef_step chef_at
chef_stays c sh sh' v over e = blocked-next sh' v (sym (ap (λ p. chef_at p c sh) over) ∙ e)

receptionist_stays :
    (r : Receptionist) (sh sh' : Shared) (v : Receptionist)
    → r.pc ≡ ReceptionistPc.finished
    → receptionist_step r sh ≢ next sh' v
unfolding receptionist_step receptionist_at
receptionist_stays r sh sh' v over e =
    blocked-next sh' v (sym (ap (λ p. receptionist_at p r sh) over) ∙ e)

module _ {n : ℕ} {s : System} (same : s.shared.f_st.n_groups ≡ n) where
  pub number-below : {t : System} (st : Step s t) → number st < 3 + n
  unfolding number
  number-below (group_moves g below e) = omega (arith, below, same)
  number-below (waiter_moves e) = omega (arith, same)
  number-below (chef_moves e) = omega (arith, same)
  number-below (receptionist_moves e) = omega (arith, same)

  pub exited_stays : {t : System} (st : Step s t) → HasExited n s (number st) → ⊥
  unfolding number
  exited_stays (group_moves g {sh} {p} below e) (group_exits lt over) =
      (group_stays g s.shared sh p).0 (sym (ap (λ q. group_step g q s.shared) over) ∙ e)
  exited_stays (group_moves g {sh} {p} below e) (group_fails lt over) =
      (group_stays g s.shared sh p).1 (sym (ap (λ q. group_step g q s.shared) over) ∙ e)
  exited_stays (group_moves g below e) (waiter_exits at over) = omega (arith, below, same, at)
  exited_stays (group_moves g below e) (chef_exits at over) = omega (arith, below, same, at)
  exited_stays (group_moves g below e) (receptionist_exits at over) = omega (arith, below, same, at)
  exited_stays (waiter_moves {sh} {w} e) (waiter_exits at over) =
      waiter_stays s.waiter s.shared sh w over e
  exited_stays (waiter_moves e) (group_exits lt over) = omega (arith, lt, same)
  exited_stays (waiter_moves e) (group_fails lt over) = omega (arith, lt, same)
  exited_stays (waiter_moves e) (chef_exits at over) = omega (arith, at, same)
  exited_stays (waiter_moves e) (receptionist_exits at over) = omega (arith, at, same)
  exited_stays (chef_moves {sh} {c} e) (chef_exits at over) = chef_stays s.chef s.shared sh c over e
  exited_stays (chef_moves e) (group_exits lt over) = omega (arith, lt, same)
  exited_stays (chef_moves e) (group_fails lt over) = omega (arith, lt, same)
  exited_stays (chef_moves e) (waiter_exits at over) = omega (arith, at, same)
  exited_stays (chef_moves e) (receptionist_exits at over) = omega (arith, at, same)
  exited_stays (receptionist_moves {sh} {r} e) (receptionist_exits at over) =
      receptionist_stays s.receptionist s.shared sh r over e
  exited_stays (receptionist_moves e) (group_exits lt over) = omega (arith, lt, same)
  exited_stays (receptionist_moves e) (group_fails lt over) = omega (arith, lt, same)
  exited_stays (receptionist_moves e) (waiter_exits at over) = omega (arith, at, same)
  exited_stays (receptionist_moves e) (chef_exits at over) = omega (arith, at, same)

  pub HasExited-kept :
      {t : System} (st : Step s t) (k : ℕ) → number st ≢ k → HasExited n s k → HasExited n t k
  unfolding number
  HasExited-kept (group_moves g below e) k other (group_exits lt over) =
      group_exits lt (rw (==_ne other) over)
  HasExited-kept (group_moves g below e) k other (group_fails lt over) =
      group_fails lt (rw (==_ne other) over)
  HasExited-kept (group_moves g below e) k other (waiter_exits at over) = waiter_exits at over
  HasExited-kept (group_moves g below e) k other (chef_exits at over) = chef_exits at over
  HasExited-kept (group_moves g below e) k other (receptionist_exits at over) =
      receptionist_exits at over
  HasExited-kept (waiter_moves e) k other (group_exits lt over) = group_exits lt over
  HasExited-kept (waiter_moves e) k other (group_fails lt over) = group_fails lt over
  HasExited-kept (waiter_moves e) k other (waiter_exits at over) = absurd (other (same ∙ sym at))
  HasExited-kept (waiter_moves e) k other (chef_exits at over) = chef_exits at over
  HasExited-kept (waiter_moves e) k other (receptionist_exits at over) = receptionist_exits at over
  HasExited-kept (chef_moves e) k other (group_exits lt over) = group_exits lt over
  HasExited-kept (chef_moves e) k other (group_fails lt over) = group_fails lt over
  HasExited-kept (chef_moves e) k other (waiter_exits at over) = waiter_exits at over
  HasExited-kept (chef_moves e) k other (chef_exits at over) =
      absurd (other (omega (arith, same, at)))
  HasExited-kept (chef_moves e) k other (receptionist_exits at over) = receptionist_exits at over
  HasExited-kept (receptionist_moves e) k other (group_exits lt over) = group_exits lt over
  HasExited-kept (receptionist_moves e) k other (group_fails lt over) = group_fails lt over
  HasExited-kept (receptionist_moves e) k other (waiter_exits at over) = waiter_exits at over
  HasExited-kept (receptionist_moves e) k other (chef_exits at over) = chef_exits at over
  HasExited-kept (receptionist_moves e) k other (receptionist_exits at over) =
      absurd (other (omega (arith, same, at)))
