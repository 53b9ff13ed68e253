-- ===== src/Service/Places.antt =====
-- What the waiter and the chef know: the groups that they serve are groups, and each table that they
-- carry is the table of the group.
use restaurante_so.Prelude.{ℕ, ◌+◌, ◌≤◌, ◌<◌, ◌≡◌, ◌⊎◌, inl, refl, arith}
use restaurante_so.Problem.{Request, food_req, food_ready}
use restaurante_so.Semaphore.{Shared, waiter_request, wait_order, request_received, food_arrived}
use restaurante_so.Group.{
  GroupPc, checking_in, ordering, awaiting_food, checking_out, CheckInPc, OrderFoodPc, WaitFoodPc,
  CheckOutPc, group_step,
}
use restaurante_so.Waiter.{WaiterPc, waiting_for_request, informing, taking, WaitForRequestPc}
use restaurante_so.Chef.{Chef, ChefPc}
use restaurante_so.Tokens.{After, group_service, chef_service}
use restaurante_so.Reception.View.{is_req}
use restaurante_so.Service.View.{want, Serve, serve_view, hearing, reading, busy}
use restaurante_so.Service.GroupKeeps.{Carries, OneRequest}
use restaurante_so.Service.ChefKeeps.{ChefPosts}

-- A request that the waiter serves, from a group.
abbrev pub IsServed : ℕ → Request → Type 0
IsServed n q = (q.req_group < n) × ((q.req_type ≡ food_req) ⊎ (q.req_type ≡ food_ready))

abbrev pub MailKnows : ℕ → Shared → WaiterPc → Type 0
MailKnows n sh p = sh.sems waiter_request + hearing p ≡ 1 → IsServed n sh.f_st.waiter_request

abbrev pub WaiterKnows : ℕ → WaiterPc → Type 0
WaiterKnows n (waiting_for_request (WaitForRequestPc.exit_again q)) = IsServed n q
WaiterKnows n (waiting_for_request (WaitForRequestPc.signal_possible q)) = IsServed n q
WaiterKnows n (informing h p) = h < n
WaiterKnows n (taking h p) = h < n
WaiterKnows n _ = Unit

abbrev pub OrderKnows : ℕ → Shared → ChefPc → Type 0
OrderKnows n sh p = sh.sems wait_order + reading p ≡ 1 → sh.f_st.food_group < n

abbrev pub ChefKnows : ℕ → Chef → Type 0
ChefKnows n c = busy c.pc ≡ 1 → c.last_group < n

-- No acknowledgement and no food is left at the table.
pub record IsBare (sh : Shared) (t : ℕ) : Type 0 where
  pub no_receipt : sh.sems (request_received t) ≡ 0
  pub no_food : sh.sems (food_arrived t) ≡ 0

-- What a step of a group leaves to the waiter and the chef.
pub record GroupLeaves (sh sh' : Shared) : Type 0 where
  pub tables : sh'.f_st.assigned_table ≡ sh.f_st.assigned_table
  pub order : sh'.f_st.food_group ≡ sh.f_st.food_group
  pub order_signal : sh'.sems wait_order ≡ sh.sems wait_order
  pub bare : (t : ℕ) → IsBare sh t → IsBare sh' t

abbrev GroupDoes : ℕ → GroupPc → Shared → Type 0
GroupDoes g p sh = After (λ sh' _. GroupLeaves sh sh') (group_step g p sh)

ordering_leaves : (g : ℕ) (p : OrderFoodPc) (sh : Shared) → GroupDoes g (ordering p) sh
unfolding group_step
ordering_leaves g OrderFoodPc.enter sh = ground arith
ordering_leaves g _ sh = ground arith

awaiting_leaves : (g : ℕ) (p : WaitFoodPc) (sh : Shared) → GroupDoes g (awaiting_food p) sh
unfolding group_step
awaiting_leaves g WaitFoodPc.enter sh = ground arith
awaiting_leaves g _ sh = ground arith

pub group_leaves : (g : ℕ) (p : GroupPc) (sh : Shared) → GroupDoes g p sh
unfolding group_step
group_leaves g (checking_in CheckInPc.enter) sh = ground arith
group_leaves g (checking_in _) sh = ground arith
group_leaves g (ordering p) sh = ordering_leaves g p sh
group_leaves g (awaiting_food p) sh = awaiting_leaves g p sh
group_leaves g (checking_out CheckOutPc.enter) sh = ground arith
group_leaves g (checking_out _) sh = ground arith
group_leaves g _ sh = ground arith

-- A group carries its own table.
pub group-Carries :
    (g : ℕ) (p : GroupPc) (sh : Shared)
    → Carries p sh g
    → After (λ sh' p'. Carries p' sh' g) (group_step g p sh)
unfolding group_step
group-Carries g (checking_in CheckInPc.enter) sh k = ground arith
group-Carries g (checking_in _) sh k = ground arith
group-Carries g (ordering OrderFoodPc.enter) sh k = ground arith
group-Carries g (ordering _) sh k = ground arith
group-Carries g (awaiting_food WaitFoodPc.enter) sh k = ground arith
group-Carries g (awaiting_food _) sh k = ground arith
group-Carries g (checking_out CheckOutPc.enter) sh k = ground arith
group-Carries g (checking_out _) sh k = ground arith
group-Carries g _ sh k = ground arith

-- The chef's unsignalled request is not overwritten by a group.
module _ (g last : ℕ) (c : ChefPc) where
  abbrev LeavesPost : GroupPc → Shared → Type 0
  LeavesPost p sh =
      group_service p + chef_service c ≤ 1
      → ChefPosts c last sh
      → After (λ sh' _. ChefPosts c last sh') (group_step g p sh)

  pub group-LeavesPost : (p : GroupPc) (sh : Shared) → LeavesPost p sh
  unfolding group_step
  group-LeavesPost (checking_in CheckInPc.enter) sh o k = ground arith
  group-LeavesPost (checking_in _) sh o k = ground arith
  group-LeavesPost (ordering OrderFoodPc.enter) sh o k = ground arith
  group-LeavesPost (ordering _) sh o k = ground arith
  group-LeavesPost (awaiting_food WaitFoodPc.enter) sh o k = ground arith
  group-LeavesPost (awaiting_food _) sh o k = ground arith
  group-LeavesPost (checking_out CheckOutPc.enter) sh o k = ground arith
  group-LeavesPost (checking_out _) sh o k = ground arith
  group-LeavesPost _ sh o k = ground arith

-- A request of the kind `k` from `g`.
pub IsServed-req :
    (n k g : ℕ) (q : Request)
    → (k ≡ food_req) ⊎ (k ≡ food_ready)
    → g < n
    → is_req k g q ≡ 1
    → IsServed n q
IsServed-req n k g q kind lt e = ground arith

module _ (n g : ℕ) (lt : g < n) (w : WaiterPc) (c : Chef) where
  abbrev Mails : GroupPc → Shared → Type 0
  Mails p sh =
      OneRequest p sh w
      → Serve (want p) (serve_view g sh w c)
      → MailKnows n sh w
      → After (λ sh' _. MailKnows n sh' w) (group_step g p sh)

  ordering-Mails : (p : OrderFoodPc) (sh : Shared) → Mails (ordering p) sh
  unfolding group_step
  ordering-Mails OrderFoodPc.signal sh o d m =
      λ e. IsServed-req n food_req g sh.f_st.waiter_request (inl refl) lt d.1
  ordering-Mails OrderFoodPc.write sh o d m = λ e. absurd (omega arith)
  ordering-Mails _ sh o d m = ground arith

  pub group-Mails : (p : GroupPc) (sh : Shared) → Mails p sh
  unfolding group_step
  group-Mails (ordering p) sh o d m = ordering-Mails p sh o d m
  group-Mails (checking_in CheckInPc.enter) sh o d m = ground arith
  group-Mails (checking_in _) sh o d m = ground arith
  group-Mails (awaiting_food WaitFoodPc.enter) sh o d m = ground arith
  group-Mails (awaiting_food _) sh o d m = ground arith
  group-Mails (checking_out CheckOutPc.enter) sh o d m = ground arith
  group-Mails (checking_out _) sh o d m = ground arith
  group-Mails _ sh o d m = ground arith
