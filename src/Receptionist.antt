-- ===== src/Receptionist.antt =====
-- src/semSharedMemReceptionist.c: the receptionist, a semaphore operation or a critical section at a
-- time. `receptionist_step` is the loop of `main`.
pub mod Seating
mod WaitForGroup
mod ProvideTable
mod ReceivePayment
unfoldable pub use Seating.*
unfoldable pub use WaitForGroup.*
unfoldable pub use ProvideTable.*
unfoldable pub use ReceivePayment.*
use restaurante_so.Prelude.{ℕ, ◌+◌, ◌*◌, ltb, ◌==◌, if◌then◌else◌}
use restaurante_so.Problem.{Request, table_req, bill_req}
use restaurante_so.Semaphore.{Shared, Outcome, next, blocked, fault, Call, inside, returned}

pub data ReceptionistPc : Type 0 where
  testing : ReceptionistPc  -- the test of the `while`
  waiting_for_group : WaitForGroupPc → ReceptionistPc
  providing : ℕ → ProvideTablePc → ReceptionistPc
  receiving : ℕ → ReceivePaymentPc → ReceptionistPc
  finished : ReceptionistPc

-- The process: its place, `groupRecord` and `nReq`.
pub record Receptionist : Type 0 where
  pub pc : ReceptionistPc
  pub group_record : ℕ → ℕ
  pub n_req : ℕ

-- The `switch` on the request; a request of another type is only counted.
unfoldable pub receptionist_dispatch : Request → Receptionist → Receptionist
receptionist_dispatch req r =
    if req.req_type == table_req
    then record r { pc = providing req.req_group ProvideTablePc.enter }
    else if req.req_type == bill_req
    then record r { pc = receiving req.req_group ReceivePaymentPc.enter }
    else record r { pc = testing; n_req = r.n_req + 1 }

-- The three calls, each with what `main` does after its return.
unfoldable pub after_wait :
    Receptionist → Outcome (Call WaitForGroupPc Request) → Outcome Receptionist
unfolding receptionist_dispatch
after_wait r (next sh (inside p)) = next sh (record r { pc = waiting_for_group p })
after_wait r (next sh (returned req)) = next sh (receptionist_dispatch req r)
after_wait r blocked = blocked
after_wait r fault = fault

unfoldable pub after_provide :
    Receptionist → ℕ → Outcome (Call ProvideTablePc (Unit {0}) × (ℕ → ℕ)) → Outcome Receptionist
after_provide r g (next sh (inside p, groups)) =
    next sh (record r { pc = providing g p; group_record = groups })
after_provide r g (next sh (returned _, groups)) =
    next sh (record { pc = testing; group_record = groups; n_req = r.n_req + 1 })
after_provide r g blocked = blocked
after_provide r g fault = fault

unfoldable pub after_receive :
    Receptionist → ℕ → Outcome (Call ReceivePaymentPc (Unit {0}) × (ℕ → ℕ)) → Outcome Receptionist
after_receive r g (next sh (inside p, groups)) =
    next sh (record r { pc = receiving g p; group_record = groups })
after_receive r g (next sh (returned _, groups)) =
    next sh (record { pc = testing; group_record = groups; n_req = r.n_req + 1 })
after_receive r g blocked = blocked
after_receive r g fault = fault

unfoldable pub receptionist_at : ReceptionistPc → Receptionist → Shared → Outcome Receptionist
unfolding after_wait after_provide after_receive wait_for_group_step provide_table_step
    receive_payment_step
receptionist_at testing r sh = next sh (record r {
  pc =
      if ltb r.n_req (sh.f_st.n_groups * 2)
      then waiting_for_group WaitForGroupPc.enter
      else finished;
})
receptionist_at (waiting_for_group p) r sh = after_wait r (wait_for_group_step p sh)
receptionist_at (providing g p) r sh = after_provide r g (provide_table_step g p r.group_record sh)
receptionist_at (receiving g p) r sh =
    after_receive r g (receive_payment_step g p r.group_record sh)
receptionist_at finished r sh = blocked

unfoldable pub receptionist_step : Receptionist → Shared → Outcome Receptionist
unfolding receptionist_at
receptionist_step r sh = receptionist_at r.pc r sh
