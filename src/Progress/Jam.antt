-- ===== src/Progress/Jam.antt =====
-- The waiter and the chef do not block one another, since no three groups have a table.
use restaurante_so.Prelude.{
  ℕ, ◌+◌, ◌≤◌, ◌<◌, ◌≡◌, ◌≢◌, ◌⊎◌, inl, inr, refl, sym, subst, arith, ◌==◌, if◌then◌else◌,
}
use restaurante_so.Problem.{Request, food_req, food_ready}
use restaurante_so.Semaphore.{Shared, waiter_request, wait_order}
use restaurante_so.Group.{GroupPc}
use restaurante_so.Waiter.{WaiterPc, waiting_for_request, informing, taking, InformChefPc}
use restaurante_so.Chef.{Chef, ChefPc, waiting_for_order, processing, ProcessOrderPc}
use restaurante_so.Reception.View.{Phase, phase, one_if, is_req}
use restaurante_so.Safety.Seating.{IsDining}
use restaurante_so.Safety.Servants.{IsDining-or_IsIdle}
use restaurante_so.Service.View.{
  Want, nothing, asking, want, Serve, ServeView, serve_view, orders, busy,
}
use restaurante_so.Service.ChefKeeps.{chef_in}
use restaurante_so.Service.Places.{IsServed, OrderKnows, MailKnows}
use restaurante_so.Service.Transfers.{idle_want}

-- At most one order of a group is under way, and then the group is at its table.
pub orders-le : (q : Want) (v : ServeView) → Serve q v → orders v ≤ 1
orders-le nothing v d = omega arith
orders-le asking v d = omega arith
orders-le _ v d = omega arith

pub orders-IsDining :
    (p : GroupPc) (v : ServeView) → Serve (want p) v → 1 ≤ orders v → IsDining (phase p)
orders-IsDining p v d pos = elim (IsDining-or_IsIdle (phase p)) [
  | inl dines ↦ dines
  | inr idle ↦
      let none = subst (λ q. Serve q v) (idle_want p idle) d in absurd (omega (arith, none, pos))
]

one_if_eq : (a b : ℕ) → a ≡ b → one_if a b ≡ 1
one_if_eq a b e = ground arith

-- A signalled request counts for its group.
mail_counts :
    (n m g : ℕ) (q : Request)
    → IsServed n q
    → m ≢ 0
    → one_if q.req_group g
      ≤ (if m == 0 then 0 else is_req food_req g q) + (if m == 0 then 0 else is_req food_ready g q)
mail_counts n m g q k e = ground arith

signal_counts : (m x : ℕ) → m ≢ 0 → (if m == 0 then 0 else x) ≡ x
signal_counts m x e = ground arith

-- The waiter waits for the chef, who waits to signal that food is ready, with one more request
-- signalled to the waiter.
module _ (n h : ℕ) (sh : Shared) (c : Chef) (phases : ℕ → Phase) where
  abbrev jammed : ℕ → ServeView
  jammed g =
      serve_view g sh (informing h InformChefPc.await_chef)
        (chef_in (processing ProcessOrderPc.await_waiter) c)

  record Jam : Type 0 where
    pub request : sh.sems waiter_request ≡ 1
    pub order : sh.sems wait_order ≡ 1
    pub served : IsServed n sh.f_st.waiter_request
    pub ordered : sh.f_st.food_group < n
    pub cooked : c.last_group < n
    pub one : (g : ℕ) → g < n → orders (jammed g) ≤ 1
    pub dines : (g : ℕ) → g < n → 1 ≤ orders (jammed g) → IsDining (phases g)
    pub two_tables :
        (f g k : ℕ)
        → f < n
        → g < n
        → k < n
        → IsDining (phases f)
        → IsDining (phases g)
        → IsDining (phases k)
        → (f ≡ g) ⊎ (g ≡ k) ⊎ (f ≡ k)

  load :
      (g : ℕ)
      → Jam
      → one_if sh.f_st.waiter_request.req_group g
          + one_if sh.f_st.food_group g
          + one_if c.last_group g
        ≤ orders (jammed g)
  load g j = omega (
    arith,
    j.request,
    j.order,
    mail_counts n (sh.sems waiter_request + 0) g sh.f_st.waiter_request j.served,
    signal_counts (sh.sems wait_order + 0) (one_if sh.f_st.food_group g),
  )

  no_Jam : Jam → ⊥
  no_Jam j =
      let a = sh.f_st.waiter_request.req_group in
      let b = sh.f_st.food_group in
      let d = c.last_group in
      let la = load a j in
      let lb = load b j in
      let ld = load d j in
      let oa = one_if_eq a a refl in
      let ob = one_if_eq b b refl in
      let od = one_if_eq d d refl in
      elim (j.two_tables a b d j.served.0 j.ordered j.cooked
        (j.dines a j.served.0 (omega (arith, la, oa))) (j.dines b j.ordered (omega (arith, lb, ob)))
        (j.dines d j.cooked (omega (arith, ld, od)))) [
          | inl e ↦ omega (arith, la, oa, one_if_eq b a (sym e), j.one a j.served.0)
          | inr (inl e) ↦ omega (arith, lb, ob, one_if_eq d b (sym e), j.one b j.ordered)
          | inr (inr e) ↦ omega (arith, la, oa, one_if_eq d a (sym e), j.one a j.served.0)
        ]

-- The places of a jam.
abbrev pub IsJam : Shared → WaiterPc → ChefPc → Type 0
IsJam sh (informing h InformChefPc.await_chef) (processing ProcessOrderPc.await_waiter) =
    (sh.sems waiter_request ≡ 1) × (sh.sems wait_order ≡ 1)
IsJam sh _ _ = ⊥

pub no_jam_at :
    (n : ℕ) (sh : Shared) (p : WaiterPc) (d : ChefPc) (c : Chef) (phases : ℕ → Phase)
    → MailKnows n sh p
    → OrderKnows n sh d
    → (busy d ≡ 1 → c.last_group < n)
    → ((g : ℕ) → g < n → orders (serve_view g sh p (chef_in d c)) ≤ 1)
    → ((g : ℕ) → g < n → 1 ≤ orders (serve_view g sh p (chef_in d c)) → IsDining (phases g))
    → ((f g k : ℕ)
        → f < n
        → g < n
        → k < n
        → IsDining (phases f)
        → IsDining (phases g)
        → IsDining (phases k)
        → (f ≡ g) ⊎ (g ≡ k) ⊎ (f ≡ k))
    → IsJam sh p d
    → ⊥
no_jam_at n sh (informing h InformChefPc.await_chef) (processing ProcessOrderPc.await_waiter) c
      phases m o b one dines two jam =
    no_Jam n h sh c phases (record {
      request = jam.0;
      order = jam.1;
      served = m (omega (arith, jam));
      ordered = o (omega (arith, jam));
      cooked = b refl;
      one = one;
      dines = dines;
      two_tables = two;
    })
no_jam_at n sh (informing h InformChefPc.await_chef) (processing ProcessOrderPc.enter) c phases m o
      b one dines two jam =
    absurd jam
no_jam_at n sh (informing h InformChefPc.await_chef) (processing _) c phases m o b one dines two
      jam =
    absurd jam
no_jam_at n sh (informing h InformChefPc.await_chef) (waiting_for_order q) c phases m o b one dines
      two jam =
    absurd jam
no_jam_at n sh (informing h InformChefPc.await_chef) ChefPc.testing c phases m o b one dines two
      jam =
    absurd jam
no_jam_at n sh (informing h InformChefPc.await_chef) ChefPc.finished c phases m o b one dines two
      jam =
    absurd jam
no_jam_at n sh (informing h InformChefPc.enter) d c phases m o b one dines two jam = absurd jam
no_jam_at n sh (informing h _) d c phases m o b one dines two jam = absurd jam
no_jam_at n sh (waiting_for_request q) d c phases m o b one dines two jam = absurd jam
no_jam_at n sh (taking h q) d c phases m o b one dines two jam = absurd jam
no_jam_at n sh WaiterPc.testing d c phases m o b one dines two jam = absurd jam
no_jam_at n sh WaiterPc.finished d c phases m o b one dines two jam = absurd jam
