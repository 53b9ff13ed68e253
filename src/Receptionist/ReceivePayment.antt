-- ===== src/Receptionist/ReceivePayment.antt =====
-- `receivePayment` of src/semSharedMemReceptionist.c.
use restaurante_so.Prelude.{ℕ, ◌-◌, Option, none, some, ltb, update, if◌then◌else◌}
use restaurante_so.Problem.{max_groups, recv_pay, set_receptionist_stat}
use restaurante_so.Semaphore.{
  Shared, Outcome, next, fault, Call, inside, done, save_state, sem_down, sem_up, table_up, mutex,
  wait_for_table, table_done,
}
use restaurante_so.Receptionist.Seating.{at_table, settled, decide_next_group}

-- The locals `new_group_id` and `table_id` are carried by the places after their reading.
pub data ReceivePaymentPc : Type 0 where
  enter write : ReceivePaymentPc
  signal_next : ℕ → Option ℕ → ReceivePaymentPc
  hand_over : ℕ → Option ℕ → ReceivePaymentPc
  exit : Option ℕ → ReceivePaymentPc
  signal_done : Option ℕ → ReceivePaymentPc

abbrev pub ReceiveCall : Type 0
ReceiveCall = Call ReceivePaymentPc (Unit {0}) × (ℕ → ℕ)

-- The group that was decided is to have the table; without one the table stays free.
unfoldable pub choose_next : Option ℕ → Option ℕ → (ℕ → ℕ) → Shared → Outcome ReceiveCall
choose_next none t groups sh = next sh (inside (exit t), groups)
choose_next (some h) t groups sh = next sh (inside (signal_next h t), update groups h at_table)

-- The critical section up to `semUp (waitForTable)`.
unfoldable pub receive_payment_write : ℕ → (ℕ → ℕ) → Shared → Outcome ReceiveCall
unfolding choose_next decide_next_group
receive_payment_write g groups sh =
    let a = save_state (record sh { f_st = set_receptionist_stat sh.f_st recv_pay }) in
    let paid = update groups g settled in
    let t = a.f_st.assigned_table g in
    let b = record a {
      f_st = record (a.f_st) { assigned_table = update a.f_st.assigned_table g none };
    } in
    if ltb g max_groups
    then if ltb 0 b.f_st.groups_waiting
      then choose_next (decide_next_group paid b.f_st) t paid b
      else next b (inside (exit t), paid)
    else fault

-- `groupsWaiting--` is reached only when it is not 0, so the truncated `-` is exact.
unfoldable pub receive_payment_hand_over : ℕ → Option ℕ → Shared → Shared
receive_payment_hand_over h t sh = record sh {
  f_st = record (sh.f_st) {
    groups_waiting = sh.f_st.groups_waiting - 1;
    assigned_table = update sh.f_st.assigned_table h t;
  };
}

unfoldable pub receive_payment_step : ℕ → ReceivePaymentPc → (ℕ → ℕ) → Shared → Outcome ReceiveCall
unfolding sem_down sem_up table_up receive_payment_write receive_payment_hand_over
receive_payment_step g enter groups sh = sem_down mutex sh (inside write, groups)
receive_payment_step g write groups sh = receive_payment_write g groups sh
receive_payment_step g (signal_next h t) groups sh =
    sem_up (wait_for_table h) sh (inside (hand_over h t), groups)
receive_payment_step g (hand_over h t) groups sh =
    next (receive_payment_hand_over h t sh) (inside (exit t), groups)
receive_payment_step g (exit t) groups sh = sem_up mutex sh (inside (signal_done t), groups)
receive_payment_step g (signal_done t) groups sh = table_up table_done t sh (done, groups)
