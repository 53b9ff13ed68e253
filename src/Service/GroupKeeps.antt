-- ===== src/Service/GroupKeeps.antt =====
-- A step of a group keeps what is known of its order, and of any other group's.
use restaurante_so.Prelude.{
  ℕ, ◌+◌, ◌-◌, ◌≤◌, ◌<◌, ◌≡◌, ◌≢◌, ◌⊎◌, refl, true, false, ==_refl, inl, inr, Option, none, some,
  ltb, ◌==◌, if◌then◌else◌, Bool-cases, arith,
}
use restaurante_so.Problem.{Request, food_req, food_ready, num_tables}
use restaurante_so.Semaphore.{
  Sem, Shared, waiter_request, food_arrived, request_received, set_sem, sem_eq,
}
use restaurante_so.Group.{
  GroupPc, checking_in, ordering, awaiting_food, checking_out, CheckInPc, OrderFoodPc, WaitFoodPc,
  CheckOutPc, group_step,
}
use restaurante_so.Waiter.{WaiterPc}
use restaurante_so.Chef.{Chef}
use restaurante_so.Tokens.{After, group_service}
use restaurante_so.Reception.View.{is_req}
use restaurante_so.Reception.GroupKeeps.{is_req_other}
use restaurante_so.Service.View.{
  Want, nothing, asking, want, Serve, ServeView, serve_view, hearing, IsApart, at_table_sem,
}

-- The table that a group carries is the one that it has.
abbrev pub Carries : GroupPc → Shared → ℕ → Type 0
Carries (ordering (OrderFoodPc.exit t)) sh g = t ≡ sh.f_st.assigned_table g
Carries (ordering (OrderFoodPc.await_receipt t)) sh g = t ≡ sh.f_st.assigned_table g
Carries (awaiting_food (WaitFoodPc.exit t)) sh g = t ≡ sh.f_st.assigned_table g
Carries (awaiting_food (WaitFoodPc.await_food t)) sh g = t ≡ sh.f_st.assigned_table g
Carries (checking_out (CheckOutPc.signal t)) sh g = t ≡ sh.f_st.assigned_table g
Carries _ sh g = Unit

-- One request at most is signalled or being written.
abbrev pub OneRequest : GroupPc → Shared → WaiterPc → Type 0
OneRequest p sh w = sh.sems waiter_request + hearing w + group_service p ≤ 1

-- What a test for a signal gives when there is none, and when there is one.
pub unsignalled : (m x : ℕ) → m ≡ 0 → (if m == 0 then 0 else x) ≡ 0
unsignalled m x e = ground arith

pub signalled : (m x : ℕ) → m ≢ 0 → (if m == 0 then 0 else x) ≡ x
signalled m x e = ground arith

-- A request for food is no request to take food, and the other way.
pub other_kind : (j k g : ℕ) (q : Request) → j ≢ k → is_req j g q ≡ 1 → is_req k g q ≡ 0
other_kind j k g q other e = ground arith

pos_of_test : (n : ℕ) → (n == 0) ≡ false → 0 < n
pos_of_test n e = ground arith

-- The memory after the write of one semaphore.
abbrev pub set_at : Shared → Sem → ℕ → Shared
set_at sh x v = record sh { sems = set_sem sh.sems x v }

-- The write of the semaphore of the group's table, and of another one.
pub at_table_sem-set :
    (s : ℕ → Sem) (sh : Shared) (o : Option ℕ) (t v : ℕ)
    → ((u : ℕ) → sem_eq (s u) (s u) ≡ true)
    → some t ≡ o
    → (at_table_sem s (set_at sh (s t) v) o ≡ v) × (at_table_sem s sh o ≡ sh.sems (s t))
at_table_sem-set s sh none t v same e = absurd (cc)
at_table_sem-set s sh (some u) t v same e = ground (arith, same t)

pub at_table_sem-set_other :
    (s : ℕ → Sem) (x : Sem) (sh : Shared) (o : Option ℕ) (v : ℕ)
    → ((u : ℕ) → sem_eq x (s u) ≡ false)
    → at_table_sem s (set_at sh x v) o ≡ at_table_sem s sh o
at_table_sem-set_other s x sh none v other = refl
at_table_sem-set_other s x sh (some u) v other = rw (other u) refl

module _ (g : ℕ) (w : WaiterPc) (c : Chef) where
  abbrev KeepsOwn : GroupPc → Shared → Type 0
  KeepsOwn p sh =
      OneRequest p sh w
      → Carries p sh g
      → Serve (want p) (serve_view g sh w c)
      → After (λ sh' p'. Serve (want p') (serve_view g sh' w c)) (group_step g p sh)

  checking_in_own : (p : CheckInPc) (sh : Shared) → KeepsOwn (checking_in p) sh
  unfolding group_step
  checking_in_own CheckInPc.await_receptionist sh o k d = ground arith
  checking_in_own _ sh o k d = ground arith

  ordering_own : (p : OrderFoodPc) (sh : Shared) → KeepsOwn (ordering p) sh
  unfolding group_step
  ordering_own OrderFoodPc.enter sh o k d = ground arith
  ordering_own OrderFoodPc.signal sh o k d = omega (
    arith,
    unsignalled (sh.sems waiter_request + hearing w) (is_req food_req g sh.f_st.waiter_request),
    unsignalled (sh.sems waiter_request + hearing w) (is_req food_ready g sh.f_st.waiter_request),
    signalled (sh.sems waiter_request + 1 + hearing w) (is_req food_req g sh.f_st.waiter_request),
    signalled (sh.sems waiter_request + 1 + hearing w) (is_req food_ready g sh.f_st.waiter_request),
    other_kind food_req food_ready g sh.f_st.waiter_request,
  )
  ordering_own (OrderFoodPc.await_receipt none) sh o k d = tt
  ordering_own (OrderFoodPc.await_receipt (some t)) sh o k d =
      elim (Bool-cases (ltb t num_tables)) [
        | inr no_sem ↦ rw no_sem tt
        | inl is_one ↦ elim (Bool-cases (sh.sems (request_received t) == 0)) [
          | inl waits ↦ rw is_one (rw waits tt)
          | inr comes ↦ rw is_one (
              rw comes (
                omega (
                  arith,
                  at_table_sem-set request_received sh (sh.f_st.assigned_table g) t
                      (sh.sems (request_received t) - 1) (λ u. ==_refl refl) k,
                  at_table_sem-set_other food_arrived (request_received t) sh
                      (sh.f_st.assigned_table g) (sh.sems (request_received t) - 1) (λ u. refl),
                  pos_of_test _ comes,
                )))
        ]
      ]
  ordering_own _ sh o k d = ground arith

  awaiting_food_own : (p : WaitFoodPc) (sh : Shared) → KeepsOwn (awaiting_food p) sh
  unfolding group_step
  awaiting_food_own WaitFoodPc.enter sh o k d = ground arith
  awaiting_food_own (WaitFoodPc.await_food none) sh o k d = tt
  awaiting_food_own (WaitFoodPc.await_food (some t)) sh o k d =
      elim (Bool-cases (ltb t num_tables)) [
        | inr no_sem ↦ rw no_sem tt
        | inl is_one ↦ elim (Bool-cases (sh.sems (food_arrived t) == 0)) [
          | inl waits ↦ rw is_one (rw waits tt)
          | inr comes ↦ rw is_one (
              rw comes (
                omega (
                  arith,
                  at_table_sem-set food_arrived sh (sh.f_st.assigned_table g) t
                      (sh.sems (food_arrived t) - 1) (λ u. ==_refl refl) k,
                  at_table_sem-set_other request_received (food_arrived t) sh
                      (sh.f_st.assigned_table g) (sh.sems (food_arrived t) - 1) (λ u. refl),
                  pos_of_test _ comes,
                )))
        ]
      ]
  awaiting_food_own _ sh o k d = ground arith

  checking_out_own : (p : CheckOutPc) (sh : Shared) → KeepsOwn (checking_out p) sh
  unfolding group_step
  checking_out_own CheckOutPc.await_receptionist sh o k d = ground arith
  checking_out_own _ sh o k d = ground arith

  pub group_own : (p : GroupPc) (sh : Shared) → KeepsOwn p sh
  unfolding group_step
  group_own (checking_in p) sh o k d = checking_in_own p sh o k d
  group_own (ordering p) sh o k d = ordering_own p sh o k d
  group_own (awaiting_food p) sh o k d = awaiting_food_own p sh o k d
  group_own (checking_out p) sh o k d = checking_out_own p sh o k d
  group_own _ sh o k d = ground arith

-- Two views that differ in what stands in memory at most.
pub record Alike (q : Want) (v v' : ServeView) : Type 0 where
  pub asks : v'.asks ≡ v.asks
  pub to_receive : v'.to_receive ≡ v.to_receive
  pub received : v'.received ≡ v.received
  pub to_order : v'.to_order ≡ v.to_order
  pub ordered : v'.ordered ≡ v.ordered
  pub cooking : v'.cooking ≡ v.cooking
  pub ready : v'.ready ≡ v.ready
  pub to_serve : v'.to_serve ≡ v.to_serve
  pub served : v'.served ≡ v.served
  pub posted : (q ≢ asking) ⊎ (v'.posted ≡ v.posted)

pub Alike-Serve : (q : Want) {v v' : ServeView} → Alike q v v' → Serve q v → Serve q v'
Alike-Serve nothing a d = record { answer = omega (arith, a, d); order = omega (arith, a, d) }
Alike-Serve asking a d = ground arith
Alike-Serve _ a d = record { answer = omega (arith, a, d); order = omega (arith, a, d) }

-- 1 for a group that has written its request and not signalled it
abbrev pub posts : Want → ℕ
posts asking = 1
posts _ = 0

-- A group `g` that wants `q`, while another group `h` makes a step from `p`.
module _ (g h : ℕ) (other : g ≢ h) (q : Want) (w : WaiterPc) (c : Chef) where
  pub record Apart (p : GroupPc) (sh : Shared) : Type 0 where
    pub clear : OneRequest p sh w
    pub one : posts q + group_service p ≤ 1
    pub posted : Serve (want p) (serve_view h sh w c)
    pub carries : Carries p sh h
    pub apart : IsApart (sh.f_st.assigned_table g) (sh.f_st.assigned_table h)

  abbrev KeepsOther : GroupPc → Shared → Type 0
  KeepsOther p sh =
      Apart p sh
      → After (λ sh' p'. Alike q (serve_view g sh w c) (serve_view g sh' w c)) (group_step h p sh)

  checking_in_other : (p : CheckInPc) (sh : Shared) → KeepsOther (checking_in p) sh
  unfolding group_step
  checking_in_other CheckInPc.enter sh a = ground arith
  checking_in_other _ sh a = ground arith

  ordering_other : (p : OrderFoodPc) (sh : Shared) → KeepsOther (ordering p) sh
  unfolding group_step
  ordering_other OrderFoodPc.enter sh a = ground arith
  ordering_other OrderFoodPc.signal sh a = record {
    asks = omega (
      arith,
      a.clear,
      unsignalled (sh.sems waiter_request + hearing w) (is_req food_req g sh.f_st.waiter_request),
      signalled (sh.sems waiter_request + 1 + hearing w) (is_req food_req g sh.f_st.waiter_request),
      is_req_other food_req food_req g h sh.f_st.waiter_request other a.posted.1,
    );
    to_receive = refl;
    received =
        at_table_sem-set_other request_received waiter_request sh (sh.f_st.assigned_table g)
          (sh.sems waiter_request + 1) (λ u. refl);
    to_order = refl;
    ordered = refl;
    cooking = refl;
    ready = omega (
      arith,
      a.clear,
      unsignalled (sh.sems waiter_request + hearing w) (is_req food_ready g sh.f_st.waiter_request),
      signalled (sh.sems waiter_request + 1 + hearing w)
          (is_req food_ready g sh.f_st.waiter_request),
      is_req_other food_req food_ready g h sh.f_st.waiter_request other a.posted.1,
    );
    to_serve = refl;
    served =
        at_table_sem-set_other food_arrived waiter_request sh (sh.f_st.assigned_table g)
          (sh.sems waiter_request + 1) (λ u. refl);
    posted = inr refl;
  }
  ordering_other _ sh a = ground arith

  awaiting_food_other : (p : WaitFoodPc) (sh : Shared) → KeepsOther (awaiting_food p) sh
  unfolding group_step
  awaiting_food_other WaitFoodPc.enter sh a = ground arith
  awaiting_food_other _ sh a = ground arith

  checking_out_other : (p : CheckOutPc) (sh : Shared) → KeepsOther (checking_out p) sh
  unfolding group_step
  checking_out_other CheckOutPc.enter sh a = ground arith
  checking_out_other _ sh a = ground arith

  pub group_other : (p : GroupPc) (sh : Shared) → KeepsOther p sh
  unfolding group_step
  group_other (checking_in p) sh a = checking_in_other p sh a
  group_other (ordering p) sh a = ordering_other p sh a
  group_other (awaiting_food p) sh a = awaiting_food_other p sh a
  group_other (checking_out p) sh a = checking_out_other p sh a
  group_other _ sh a = ground arith
