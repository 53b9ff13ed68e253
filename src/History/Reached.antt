-- ===== src/History/Reached.antt =====
-- The log and the statuses in every reachable state.
use restaurante_so.Prelude.{
  ℕ, suc, ◌+◌, ◌≤◌, ◌<◌, ◌≡◌, ==_ne, sym, ap, ◌∙◌, inl, inr, ◌==◌, Bool-cases, update, update_elim,
  arith,
}
use restaurante_so.Problem.{Stat, FullStat}
use restaurante_so.Setup.{Config, initial_status, created, set_up}
use restaurante_so.Semaphore.{Shared, next}
use restaurante_so.Tokens.{Reach-Balance, after_next}
use restaurante_so.Group.{GroupPc}
use restaurante_so.System.{
  System, launch, Step, group_moves, receptionist_moves, waiter_moves, chef_moves, Reach, start,
  later,
}
use restaurante_so.History.Changes.{
  group_status, group_writes, group_change, receptionist_change, waiter_change, chef_change, Writes,
  group-Writes, receptionist-Writes, waiter-Writes, chef-Writes,
}
use restaurante_so.History.Rows.{Reach-SeatsRight, opening}
use restaurante_so.History.Told.{
  Told, InStep, Told-write, InStep-write, group_change-Shows, receptionist_change-Shows,
  waiter_change-Shows, chef_change-Shows, receptionist_change-SameGroups, waiter_change-SameGroups,
  chef_change-SameGroups,
}

abbrev bumped : ℕ → GroupPc → Stat → Stat
bumped g p st = record st { group_stat = update st.group_stat g (suc (group_status p)) }

writes-le : (p : GroupPc) → group_writes p ≤ 1
writes-le p = ground arith

-- What a group writes is its status at the place that it comes to.
InStep-group :
    (n : ℕ) (sh sh' : Shared) (groups : ℕ → GroupPc) (g : ℕ) (p : GroupPc)
    → g < n
    → InStep n sh.f_st.st groups
    → Writes (group_change g (groups g) sh.f_st.st) sh sh'
    → group_status p ≡ group_writes (groups g) + group_status (groups g)
    → InStep n sh'.f_st.st (update groups g p)
InStep-group n sh sh' groups g p lt a w after = elim (Bool-cases (group_writes (groups g) == 0)) [
  | inl quiet ↦
      let same : sh'.f_st.st ≡ sh.f_st.st = rw quiet at (w.1) in
      λ h lh.
        update_elim (λ i q. sh'.f_st.st.group_stat i ≡ group_status q) groups g p h
          (ap (λ (x : Stat). x.group_stat g) same ∙ a g lt ∙ ground (arith, after, quiet))
          (λ other. ap (λ (x : Stat). x.group_stat h) same ∙ a h lh)
  | inr writes ↦
      let new : sh'.f_st.st ≡ bumped g (groups g) sh.f_st.st = rw writes at (w.1) in
      λ h lh.
        update_elim (λ i q. sh'.f_st.st.group_stat i ≡ group_status q) groups g p h
          (ap (λ (x : Stat). x.group_stat g) new
            ∙ ground (arith, after, writes, writes-le (groups g)))
          (λ other.
            ap (λ (x : Stat). x.group_stat h) new ∙ rw (==_ne (λ e. other (sym e))) (a h lh))
]

Step-InStep :
    {c : Config} {k : ℕ} {s t : System}
    → Reach c k s
    → InStep c.n_groups s.shared.f_st.st s.groups
    → Step s t
    → InStep c.n_groups t.shared.f_st.st t.groups
Step-InStep {c} {s} r a (group_moves g {sh} {p} lt e) =
    let w = after_next _ _ (group-Writes g (s.groups g) s.shared) e in
    InStep-group c.n_groups s.shared sh s.groups g p
      (omega (arith, lt, (Reach-Balance r).same_groups)) a w.0 w.1
Step-InStep {c} {s} r a (receptionist_moves {sh} e) =
    InStep-write c.n_groups s.shared sh s.groups
      (receptionist_change s.receptionist.pc s.shared.f_st.st) a
      (receptionist_change-SameGroups s.receptionist.pc s.shared.f_st.st)
      (after_next _ _ (receptionist-Writes s.receptionist s.shared) e)
Step-InStep {c} {s} r a (waiter_moves {sh} e) =
    InStep-write c.n_groups s.shared sh s.groups (waiter_change s.waiter.pc s.shared.f_st.st) a
      (waiter_change-SameGroups s.waiter.pc s.shared.f_st.st)
      (after_next _ _ (waiter-Writes s.waiter s.shared) e)
Step-InStep {c} {s} r a (chef_moves {sh} e) =
    InStep-write c.n_groups s.shared sh s.groups (chef_change s.chef.pc s.shared.f_st.st) a
      (chef_change-SameGroups s.chef.pc s.shared.f_st.st)
      (after_next _ _ (chef-Writes s.chef s.shared) e)

-- The status of each group in memory is that of its place in its life cycle.
pub status_follows_place :
    {c : Config} {k : ℕ} {s : System}
    → Reach c k s
    → (g : ℕ) → g < c.n_groups
    → s.shared.f_st.st.group_stat g ≡ group_status (s.groups g)
unfolding set_up launch
status_follows_place (start e) g lt = ground (arith, e)
status_follows_place (later r st) g lt = Step-InStep r (status_follows_place r) st g lt

Step-Told :
    {c : Config} {k : ℕ} {s t : System} → Reach c k s → Told c s.shared → Step s t → Told c t.shared
Step-Told {c} {s} r a (group_moves g lt e) =
    let w = after_next _ _ (group-Writes g (s.groups g) s.shared) e in
    let below : g < c.n_groups = omega (arith, lt, (Reach-Balance r).same_groups) in
    Told-write (group_change g (s.groups g) s.shared.f_st.st) (Reach-Balance r).same_groups
      (Reach-SeatsRight r) a
      (group_change-Shows g (s.groups g) s.shared.f_st.st below (status_follows_place r g below))
      w.0
Step-Told {c} {s} r a (receptionist_moves e) =
    Told-write (receptionist_change s.receptionist.pc s.shared.f_st.st)
      (Reach-Balance r).same_groups (Reach-SeatsRight r) a
      (receptionist_change-Shows c.n_groups s.receptionist.pc s.shared.f_st.st)
      (after_next _ _ (receptionist-Writes s.receptionist s.shared) e)
Step-Told {c} {s} r a (waiter_moves e) =
    Told-write (waiter_change s.waiter.pc s.shared.f_st.st) (Reach-Balance r).same_groups
      (Reach-SeatsRight r) a (waiter_change-Shows c.n_groups s.waiter.pc s.shared.f_st.st)
      (after_next _ _ (waiter-Writes s.waiter s.shared) e)
Step-Told {c} {s} r a (chef_moves e) =
    Told-write (chef_change s.chef.pc s.shared.f_st.st) (Reach-Balance r).same_groups
      (Reach-SeatsRight r) a (chef_change-Shows c.n_groups s.chef.pc s.shared.f_st.st)
      (after_next _ _ (chef-Writes s.chef s.shared) e)

launched :
    (c : Config) {sh : Shared}
    → set_up c ≡ next sh tt
    → (sh.log ≡ (created c).log) × (sh.f_st ≡ initial_status c)
unfolding set_up
launched c e = ground (arith, e)

launch-Told : (c : Config) {sh : Shared} → set_up c ≡ next sh tt → Told c (launch sh).shared
unfolding launch initial_status
launch-Told c {sh} e =
    let (same_log, same) = launched c e in
    record {
      last = initial_status c;
      history = opening sh.log same_log;
      current = ap (λ (f : FullStat). f.st) (sym same);
      range = rw same (omega arith);
    }

pub Reach-Told : {c : Config} {k : ℕ} {s : System} → Reach c k s → Told c s.shared
Reach-Told {c} (start e) = launch-Told c e
Reach-Told (later r st) = Step-Told r (Reach-Told r) st
