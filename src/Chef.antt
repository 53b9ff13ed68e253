-- ===== src/Chef.antt =====
-- src/semSharedMemChef.c: the chef, a semaphore operation or a critical section at a time.
-- `chef_step` is the loop of `main`.
mod WaitForOrder
mod ProcessOrder
unfoldable pub use WaitForOrder.*
unfoldable pub use ProcessOrder.*
use restaurante_so.Prelude.{ℕ, ◌+◌, ltb, if◌then◌else◌}
use restaurante_so.Semaphore.{
  Shared, Outcome, next, blocked, fault, Call, inside, returned, calling,
}

pub data ChefPc : Type 0 where
  testing : ChefPc  -- the test of the `while`
  waiting_for_order : WaitForOrderPc → ChefPc
  processing : ProcessOrderPc → ChefPc
  finished : ChefPc

-- The process: its place, `lastGroup` and `nOrders`.
pub record Chef : Type 0 where
  pub pc : ChefPc
  pub last_group : ℕ
  pub n_orders : ℕ

-- `waitForOrder`, whose steps also give the new `lastGroup`, and what `main` does after it.
unfoldable pub after_order : Chef → Outcome (Call WaitForOrderPc (Unit {0}) × ℕ) → Outcome Chef
after_order c (next sh (inside p, g)) =
    next sh (record c { pc = waiting_for_order p; last_group = g })
after_order c (next sh (returned _, g)) =
    next sh (record c { pc = processing ProcessOrderPc.cooking; last_group = g })
after_order c blocked = blocked
after_order c fault = fault

unfoldable pub chef_at : ChefPc → Chef → Shared → Outcome Chef
unfolding after_order calling wait_for_order_step process_order_step
chef_at testing c sh = next sh (record c {
  pc =
      if ltb c.n_orders sh.f_st.n_groups
      then waiting_for_order WaitForOrderPc.await_order
      else finished;
})
chef_at (waiting_for_order p) c sh = after_order c (wait_for_order_step p c.last_group sh)
chef_at (processing p) c sh =
    calling (λ q. record c { pc = processing q })
      (λ _. record c { pc = testing; n_orders = c.n_orders + 1 })
      (process_order_step p c.last_group sh)
chef_at finished c sh = blocked

unfoldable pub chef_step : Chef → Shared → Outcome Chef
unfolding chef_at
chef_step c sh = chef_at c.pc c sh
