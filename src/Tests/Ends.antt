-- ===== src/Tests/Ends.antt =====
-- The theorems about the orders, the payments and the end of a run, at states of runs.
use restaurante_so.Prelude.{pos, ◌+◌, ◌≡◌, ◌≢◌, ◌⊎◌, refl, [], arith, total}
use restaurante_so.Semaphore.{fault, receptionist_req, waiter_request, wait_order, table_done}
use restaurante_so.Setup.{Config}
use restaurante_so.Waiter.{waiter_step}
use restaurante_so.Chef.{chef_step}
use restaurante_so.System.{System, Step}
use restaurante_so.Safety.Exclusion.{group, receptionist, waiter, chef}
use restaurante_so.Safety.Servants.{servants_never_fault}
use restaurante_so.Safety.Orders.{order_in_one_place, requests_counted, receipts_match}
use restaurante_so.Service.View.{want, Serve, serve_view}
use restaurante_so.Ledger.Counts.{desk_requests, food_requests, attending, serving, cooking, untold}
use restaurante_so.Payments.Counts.{pays_at, bill_in_mail, bill_in_hand, owed_receipt}
use restaurante_so.Progress.AtRest.{IsOver}
use restaurante_so.Progress.Completes.{Continues, no_deadlock, run_completes}
use restaurante_so.Schedule.{Run, run, times}

abbrev two : Config
two = record { n_groups = 2; start_time = λ _. pos 0; eat_time = λ _. pos 0 }

-- Group 0 has its table and has asked for food; the waiter has given its order to the chef, who has
-- not taken it.
abbrev ordered : Run two
ordered =
    run two (times 10 (group 0) (times 20 receptionist (times 10 (group 0) (times 14 waiter []))))

ordered_order : ordered.last.shared.sems wait_order ≡ 1
unfolding run
ordered_order = refl

-- Group 0 has been served, has eaten and waits for its receipt.
abbrev billed : Run two
billed = run two (
    times 10 (group 0) (
      times 20 receptionist (
        times 10 (group 0)
          (times 14 waiter (times 20 chef (times 30 waiter (times 40 (group 0) [])))))))

billed_waits : pays_at 0 (billed.last.groups 0) ≡ 1
unfolding run
billed_waits = refl

servants_never_fault_example :
    (waiter_step ordered.last.waiter ordered.last.shared ≢ fault)
    × (chef_step ordered.last.chef ordered.last.shared ≢ fault)
servants_never_fault_example = servants_never_fault ordered.reach (omega arith)

order_in_one_place_example :
    Serve
      (want (ordered.last.groups 0))
      (serve_view 0 ordered.last.shared ordered.last.waiter.pc ordered.last.chef)
order_in_one_place_example = order_in_one_place ordered.reach 0 (omega arith)

requests_counted_example :
    (ordered.last.receptionist.n_req
        + attending ordered.last.receptionist.pc
        + ordered.last.shared.sems receptionist_req
      ≡ total desk_requests 2 ordered.last.groups)
    × (ordered.last.waiter.n_req
          + serving ordered.last.waiter.pc
          + ordered.last.shared.sems waiter_request
        ≡ total food_requests 2 ordered.last.groups + ordered.last.chef.n_orders)
    × (ordered.last.chef.n_orders
          + cooking ordered.last.chef.pc
          + ordered.last.shared.sems wait_order
          + untold ordered.last.shared ordered.last.waiter.pc
        ≡ total food_requests 2 ordered.last.groups)
requests_counted_example = requests_counted ordered.reach

receipts_match_example :
    billed.last.shared.sems (table_done 0)
      + bill_in_mail 0 billed.last.shared billed.last.receptionist.pc
      + bill_in_hand 0 billed.last.shared.f_st.assigned_table billed.last.receptionist.pc
      + owed_receipt 0 billed.last.receptionist.pc
    ≡ total (pays_at 0) 2 billed.last.groups
receipts_match_example = receipts_match billed.reach 0

no_deadlock_example : IsOver 2 ordered.last ⊎ ((t : System) × Step ordered.last t)
no_deadlock_example = no_deadlock ordered.reach (omega arith)

run_completes_example : (t : System) × Continues ordered.last t × IsOver 2 t
run_completes_example = run_completes ordered.reach (omega arith)
