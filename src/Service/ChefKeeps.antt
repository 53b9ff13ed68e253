-- ===== src/Service/ChefKeeps.antt =====
-- A step of the chef keeps what is known of the order of each group.
use restaurante_so.Prelude.{ℕ, ◌+◌, ◌≤◌, ◌≡◌, arith}
use restaurante_so.Problem.{food_ready}
use restaurante_so.Semaphore.{Shared, waiter_request, wait_order}
use restaurante_so.Waiter.{WaiterPc}
use restaurante_so.Chef.{
  Chef, ChefPc, waiting_for_order, processing, WaitForOrderPc, ProcessOrderPc, chef_at,
}
use restaurante_so.Tokens.{After, chef_service}
use restaurante_so.Reception.View.{is_req}
use restaurante_so.Service.View.{serve_view, hearing, reading}
use restaurante_so.Service.WaiterKeeps.{SameSums}

-- The request that the chef has written, and not signalled.
abbrev pub ChefPosts : ChefPc → ℕ → Shared → Type 0
ChefPosts (processing ProcessOrderPc.exit) g sh = is_req food_ready g sh.f_st.waiter_request ≡ 1
ChefPosts (processing ProcessOrderPc.signal) g sh = is_req food_ready g sh.f_st.waiter_request ≡ 1
ChefPosts _ g sh = Unit

-- What the chef's step from `p` rests on.
pub record ChefClear (p : ChefPc) (last : ℕ) (sh : Shared) (w : WaiterPc) : Type 0 where
  pub request : sh.sems waiter_request + hearing w + chef_service p ≤ 1
  pub order : sh.sems wait_order + reading p ≤ 1
  pub posts : ChefPosts p last sh

abbrev pub chef_in : ChefPc → Chef → Chef
chef_in p c = record c { pc = p }

module _ (g : ℕ) (w : WaiterPc) where
  abbrev ChefMoves : ChefPc → Chef → Shared → Type 0
  ChefMoves p c sh =
      ChefClear p c.last_group sh w
      → After (λ sh' c'. SameSums (serve_view g sh w (chef_in p c)) (serve_view g sh' w c'))
          (chef_at p c sh)

  waiting_moves :
      (p : WaitForOrderPc) (c : Chef) (sh : Shared) → ChefMoves (waiting_for_order p) c sh
  unfolding chef_at
  waiting_moves WaitForOrderPc.enter c sh a = ground arith
  waiting_moves _ c sh a = ground arith

  processing_moves : (p : ProcessOrderPc) (c : Chef) (sh : Shared) → ChefMoves (processing p) c sh
  unfolding chef_at
  processing_moves ProcessOrderPc.enter c sh a = ground arith
  processing_moves _ c sh a = ground arith

  pub chef_moves : (p : ChefPc) (c : Chef) (sh : Shared) → ChefMoves p c sh
  unfolding chef_at
  chef_moves (waiting_for_order p) c sh a = waiting_moves p c sh a
  chef_moves (processing p) c sh a = processing_moves p c sh a
  chef_moves _ c sh a = ground arith
