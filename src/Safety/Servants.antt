-- ===== src/Safety/Servants.antt =====
-- The waiter and the chef: they make no fault, and each order is in one place.
use restaurante_so.Prelude.{ℕ, ◌≤◌, ◌<◌, ◌≡◌, ◌≢◌, ◌⊎◌, inl, inr, refl, ◌∙◌, ap, subst, some, arith}
use restaurante_so.Problem.{max_groups}
use restaurante_so.Setup.{Config}
use restaurante_so.Semaphore.{Shared, fault}
use restaurante_so.Waiter.{
  Waiter, WaiterPc, waiting_for_request, informing, taking, WaitForRequestPc, InformChefPc,
  TakeFoodPc, waiter_at, waiter_step,
}
use restaurante_so.Chef.{
  Chef, ChefPc, waiting_for_order, processing, WaitForOrderPc, ProcessOrderPc, chef_at, chef_step,
}
use restaurante_so.System.{System, Reach}
use restaurante_so.Reception.{Protocol, Reach-Protocol}
use restaurante_so.Reception.View.{Phase, seated, billing, phase, table_kind}
use restaurante_so.Reception.Places.{IsSound}
use restaurante_so.Safety.Faults.{ne_fault}
use restaurante_so.Safety.Seating.{IsDining, has_table}
use restaurante_so.Service.{Service, Reach-Service}
use restaurante_so.Service.View.{want, nothing, Serve, serve_view}
use restaurante_so.Service.TablesMove.{IsIdle}
use restaurante_so.Service.WaiterKeeps.{WaiterCarries}
use restaurante_so.Service.Places.{WaiterKnows}
use restaurante_so.Service.Transfers.{idle_want, holds, held_wants, holds-lt}

-- The table that the waiter is about to signal is one.
abbrev Signals : WaiterPc → Type 0
Signals (informing h (InformChefPc.signal_received t)) = table_kind t ≡ 1
Signals (taking h (TakeFoodPc.signal_food t)) = table_kind t ≡ 1
Signals _ = Unit

module _ (n : ℕ) (w : Waiter) (sh : Shared) (few : n ≤ max_groups) where
  waiter-IsSound : (p : WaiterPc) → WaiterKnows n p → Signals p → IsSound (waiter_at p w sh)
  unfolding waiter_at
  waiter-IsSound (waiting_for_request WaitForRequestPc.enter) k t = ground arith
  waiter-IsSound (waiting_for_request _) k t = ground arith
  waiter-IsSound (informing h InformChefPc.enter) k t = ground arith
  waiter-IsSound (informing h _) k t = ground arith
  waiter-IsSound (taking h TakeFoodPc.enter) k t = ground arith
  waiter-IsSound (taking h _) k t = ground arith
  waiter-IsSound _ k t = ground arith

chef-IsSound : (p : ChefPc) (c : Chef) (sh : Shared) → IsSound (chef_at p c sh)
unfolding chef_at
chef-IsSound (waiting_for_order WaitForOrderPc.enter) c sh = ground arith
chef-IsSound (waiting_for_order _) c sh = ground arith
chef-IsSound (processing ProcessOrderPc.enter) c sh = ground arith
chef-IsSound (processing _) c sh = ground arith
chef-IsSound _ c sh = ground arith

pub IsDining-or_IsIdle : (q : Phase) → IsDining q ⊎ IsIdle q
IsDining-or_IsIdle seated = inl tt
IsDining-or_IsIdle billing = inl tt
IsDining-or_IsIdle _ = inr tt

module _ {n : ℕ} {s : System} (i : Protocol n s) (v : Service n s) where
  -- A group that wants something has a table.
  pub wanting_has_table :
      (g : ℕ)
      → g < n
      → want (s.groups g) ≢ nothing
      → table_kind (s.shared.f_st.assigned_table g) ≡ 1
  wanting_has_table g lt wants = elim (IsDining-or_IsIdle (phase (s.groups g))) [
    | inl dines ↦ has_table (phase (s.groups g)) g s.shared s.receptionist dines (i.desk g lt)
    | inr idle ↦ absurd (wants (idle_want (s.groups g) idle))
  ]

  held_has_table :
      (h : ℕ) → holds s.waiter.pc ≡ some h → table_kind (s.shared.f_st.assigned_table h) ≡ 1
  held_has_table h e =
      let lt = holds-lt n s.waiter.pc h v.waiter_knows e in
      wanting_has_table h lt λ w.
        held_wants s.waiter.pc h s.shared s.chef e
          (subst (λ q. Serve q (serve_view h s.shared s.waiter.pc s.chef)) w (v.serve h lt))

waiter-Signals :
    (p : WaiterPc) (sh : Shared)
    → WaiterCarries p sh
    → ((h : ℕ) → holds p ≡ some h → table_kind (sh.f_st.assigned_table h) ≡ 1)
    → Signals p
waiter-Signals (informing h (InformChefPc.signal_received t)) sh k has =
    ap table_kind k.0 ∙ has h refl
waiter-Signals (informing h _) sh k has = tt
waiter-Signals (taking h (TakeFoodPc.signal_food t)) sh k has = ap table_kind k ∙ has h refl
waiter-Signals (taking h _) sh k has = tt
waiter-Signals _ sh k has = tt

-- With at most MAXGROUPS groups neither the waiter nor the chef faults in any reachable state: the
-- requests name groups, and the table of each group that is served is one of the tables.
pub servants_never_fault :
    {c : Config} {k : ℕ} {s : System}
    → Reach c k s
    → c.n_groups ≤ max_groups
    → (waiter_step s.waiter s.shared ≢ fault) × (chef_step s.chef s.shared ≢ fault)
unfolding waiter_step chef_step
servants_never_fault {c} {s} r few =
    let v = Reach-Service r in
    (
      ne_fault _ (
          waiter-IsSound c.n_groups s.waiter s.shared few s.waiter.pc v.waiter_knows (
            waiter-Signals s.waiter.pc s.shared v.waiter_carries
              (held_has_table (Reach-Protocol r) v))),
      ne_fault _ (chef-IsSound s.chef.pc s.chef s.shared),
    )
