-- ===== src/Service/WaiterKeeps.antt =====
-- A step of the waiter keeps what is known of the order of each group.
use restaurante_so.Prelude.{ℕ, ◌+◌, ◌≤◌, ◌≡◌, ◌≢◌, ◌⊎◌, Option, none, some, arith}
use restaurante_so.Problem.{Request}
use restaurante_so.Semaphore.{Shared, waiter_request, wait_order}
use restaurante_so.Waiter.{
  Waiter, WaiterPc, waiting_for_request, informing, taking, WaitForRequestPc, InformChefPc,
  TakeFoodPc, waiter_at,
}
use restaurante_so.Chef.{Chef}
use restaurante_so.Tokens.{After, waiter_service, waiter_order}
use restaurante_so.Service.View.{ServeView, serve_view, answers, orders, reading, IsApart}

-- What the waiter carries for the group `h`.
abbrev pub WaiterCarries : WaiterPc → Shared → Type 0
WaiterCarries (informing h (InformChefPc.exit t)) sh =
    (t ≡ sh.f_st.assigned_table h) × (sh.f_st.food_group ≡ h)
WaiterCarries (informing h (InformChefPc.signal_received t)) sh =
    (t ≡ sh.f_st.assigned_table h) × (sh.f_st.food_group ≡ h)
WaiterCarries (informing h InformChefPc.signal_order) sh = sh.f_st.food_group ≡ h
WaiterCarries (taking h (TakeFoodPc.signal_food t)) sh = t ≡ sh.f_st.assigned_table h
WaiterCarries _ sh = Unit

-- The group that the waiter serves.
abbrev pub serves : WaiterPc → Option ℕ
serves (informing h _) = some h
serves (taking h _) = some h
serves _ = none

abbrev pub IsApartFrom : ℕ → Shared → Option ℕ → Type 0
IsApartFrom g sh none = Unit
IsApartFrom g sh (some h) =
    (h ≡ g) ⊎ ((h ≢ g) × IsApart (sh.f_st.assigned_table g) (sh.f_st.assigned_table h))

-- What the waiter's step from `p` rests on; `g` is the group that is looked at.
pub record WaiterClear (g : ℕ) (p : WaiterPc) (sh : Shared) (c : Chef) : Type 0 where
  pub request : sh.sems waiter_request + waiter_service p ≤ 1
  pub order : sh.sems wait_order + reading c.pc ≤ waiter_order p
  pub carries : WaiterCarries p sh
  pub apart : IsApartFrom g sh (serves p)

-- The order of the group moves on, and is neither lost nor doubled.
pub record SameSums (v v' : ServeView) : Type 0 where
  pub answer : answers v' ≡ answers v
  pub order : orders v' ≡ orders v

module _ (g : ℕ) (c : Chef) where
  abbrev WaiterMoves : WaiterPc → Waiter → Shared → Type 0
  WaiterMoves p w sh =
      WaiterClear g p sh c
      → After (λ sh' w'. SameSums (serve_view g sh p c) (serve_view g sh' w'.pc c))
          (waiter_at p w sh)

  hears_moves :
      (w : Waiter) (sh : Shared)
      → WaiterMoves (waiting_for_request WaitForRequestPc.await_request) w sh
  unfolding waiter_at
  hears_moves w sh a = ground arith

  reads_moves :
      (w : Waiter) (sh : Shared) → WaiterMoves (waiting_for_request WaitForRequestPc.read) w sh
  unfolding waiter_at
  reads_moves w sh a = ground arith

  acts_moves :
      (r : Request) (w : Waiter) (sh : Shared)
      → WaiterMoves (waiting_for_request (WaitForRequestPc.signal_possible r)) w sh
  unfolding waiter_at
  acts_moves r w sh a = ground arith

  waiting_moves :
      (p : WaitForRequestPc) (w : Waiter) (sh : Shared) → WaiterMoves (waiting_for_request p) w sh
  unfolding waiter_at
  waiting_moves WaitForRequestPc.enter w sh a = ground arith
  waiting_moves WaitForRequestPc.await_request w sh a = hears_moves w sh a
  waiting_moves WaitForRequestPc.read w sh a = reads_moves w sh a
  waiting_moves (WaitForRequestPc.signal_possible r) w sh a = acts_moves r w sh a
  waiting_moves _ w sh a = ground arith

  informing_moves :
      (h : ℕ) (p : InformChefPc) (w : Waiter) (sh : Shared) → WaiterMoves (informing h p) w sh
  unfolding waiter_at
  informing_moves h InformChefPc.enter w sh a = ground arith
  informing_moves h _ w sh a = ground arith

  taking_moves : (h : ℕ) (p : TakeFoodPc) (w : Waiter) (sh : Shared) → WaiterMoves (taking h p) w sh
  unfolding waiter_at
  taking_moves h TakeFoodPc.enter w sh a = ground arith
  taking_moves h _ w sh a = ground arith

  pub waiter_moves : (p : WaiterPc) (w : Waiter) (sh : Shared) → WaiterMoves p w sh
  unfolding waiter_at
  waiter_moves (waiting_for_request p) w sh a = waiting_moves p w sh a
  waiter_moves (informing h p) w sh a = informing_moves h p w sh a
  waiter_moves (taking h p) w sh a = taking_moves h p w sh a
  waiter_moves _ w sh a = ground arith
