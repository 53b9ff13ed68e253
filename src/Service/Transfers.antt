-- ===== src/Service/Transfers.antt =====
-- How what is known of the orders passes from one memory to the next.
use restaurante_so.Prelude.{
  ℕ, ◌<◌, ◌≡◌, ◌≢◌, ◌⊎◌, inl, inr, refl, sym, ◌∙◌, Option, none, some, arith,
}
use restaurante_so.Semaphore.{Sem, Shared, request_received, food_arrived}
use restaurante_so.Group.{
  GroupPc, checking_in, ordering, awaiting_food, checking_out, OrderFoodPc, WaitFoodPc, CheckOutPc,
}
use restaurante_so.Waiter.{WaiterPc, informing, taking, InformChefPc, TakeFoodPc}
use restaurante_so.Chef.{Chef}
use restaurante_so.Receptionist.{
  ReceptionistPc, providing, receiving, ProvideTablePc, ReceivePaymentPc,
}
use restaurante_so.Receptionist.Seating.Decisions.{IsFree}
use restaurante_so.Reception.View.{phase}
use restaurante_so.Reception.Places.{ReceptionistKnows}
use restaurante_so.Service.View.{
  Want, nothing, asking, want, Expects, Serve, ServeView, serve_view, IsApart, at_table_sem,
}
use restaurante_so.Service.GroupKeeps.{Carries, Alike}
use restaurante_so.Service.WaiterKeeps.{SameSums, WaiterCarries}
use restaurante_so.Service.TablesMove.{SameKitchen, IsIdle, NewTable, touched}
use restaurante_so.Service.Places.{WaiterKnows, IsBare}

pub IsApart-of : (a b : Option ℕ) → ((t : ℕ) → a ≡ some t → b ≡ some t → ⊥) → IsApart a b
IsApart-of none b excl = inl refl
IsApart-of (some t) none excl = inr (omega arith)
IsApart-of (some t) (some u) excl = inr (λ e. excl t refl (ground arith))

pub SameSums-Serve :
    (q : Want) {v v' : ServeView}
    → (q ≢ asking) ⊎ (v'.posted ≡ v.posted)
    → SameSums v v'
    → Serve q v
    → Serve q v'
SameSums-Serve nothing p a d = record { answer = omega (arith, a, d); order = omega (arith, a, d) }
SameSums-Serve asking p a d = ground arith
SameSums-Serve _ p a d = record { answer = omega (arith, a, d); order = omega (arith, a, d) }

-- A group that is not at its table wants nothing.
pub idle_want : (p : GroupPc) → IsIdle (phase p) → want p ≡ nothing
idle_want (ordering OrderFoodPc.await_waiter) i = refl
idle_want (ordering OrderFoodPc.enter) i = refl
idle_want (ordering _) i = elim i [ ]
idle_want (awaiting_food p) i = elim i [ ]
idle_want (checking_in p) i = refl
idle_want (checking_out p) i = refl
idle_want _ i = refl

pub Carries-stays :
    (p : GroupPc) (g : ℕ) (sh sh' : Shared)
    → IsIdle (phase p) ⊎ (sh'.f_st.assigned_table g ≡ sh.f_st.assigned_table g)
    → Carries p sh g
    → Carries p sh' g
Carries-stays (ordering OrderFoodPc.enter) g sh sh' o k = tt
Carries-stays (ordering _) g sh sh' o k = ground arith
Carries-stays (awaiting_food WaitFoodPc.enter) g sh sh' o k = tt
Carries-stays (awaiting_food _) g sh sh' o k = ground arith
Carries-stays (checking_out CheckOutPc.enter) g sh sh' o k = tt
Carries-stays (checking_out _) g sh sh' o k = ground arith
Carries-stays (checking_in p) g sh sh' o k = tt
Carries-stays _ g sh sh' o k = tt

-- The group whose table the waiter carries.
abbrev pub holds : WaiterPc → Option ℕ
holds (informing h (InformChefPc.exit _)) = some h
holds (informing h (InformChefPc.signal_received _)) = some h
holds (taking h (TakeFoodPc.signal_food _)) = some h
holds _ = none

pub WaiterCarries-stays :
    (p : WaiterPc) (sh sh' : Shared)
    → sh'.f_st.food_group ≡ sh.f_st.food_group
    → ((h : ℕ) → holds p ≡ some h → sh'.f_st.assigned_table h ≡ sh.f_st.assigned_table h)
    → WaiterCarries p sh
    → WaiterCarries p sh'
WaiterCarries-stays (informing h (InformChefPc.exit t)) sh sh' e o k =
    (k.0 ∙ sym (o h refl), e ∙ k.1)
WaiterCarries-stays (informing h (InformChefPc.signal_received t)) sh sh' e o k =
    (k.0 ∙ sym (o h refl), e ∙ k.1)
WaiterCarries-stays (informing h InformChefPc.signal_order) sh sh' e o k = e ∙ k
WaiterCarries-stays (informing h _) sh sh' e o k = tt
WaiterCarries-stays (taking h (TakeFoodPc.signal_food t)) sh sh' e o k = k ∙ sym (o h refl)
WaiterCarries-stays (taking h _) sh sh' e o k = tt
WaiterCarries-stays _ sh sh' e o k = tt

-- That group is owed something.
pub held_wants :
    (p : WaiterPc) (h : ℕ) (sh : Shared) (c : Chef)
    → holds p ≡ some h
    → Expects 0 0 (serve_view h sh p c)
    → ⊥
held_wants (informing h (InformChefPc.exit t)) g sh c e d = ground arith
held_wants (informing h (InformChefPc.signal_received t)) g sh c e d = ground arith
held_wants (informing h _) g sh c e d = cc
held_wants (taking h (TakeFoodPc.signal_food t)) g sh c e d = ground arith
held_wants (taking h _) g sh c e d = cc
held_wants _ g sh c e d = cc

pub holds-lt : (n : ℕ) (p : WaiterPc) (h : ℕ) → WaiterKnows n p → holds p ≡ some h → h < n
holds-lt n (informing h (InformChefPc.exit t)) g k e = ground arith
holds-lt n (informing h (InformChefPc.signal_received t)) g k e = ground arith
holds-lt n (informing h _) g k e = cc
holds-lt n (taking h (TakeFoodPc.signal_food t)) g k e = ground arith
holds-lt n (taking h _) g k e = cc
holds-lt n _ g k e = cc

pub touched-lt :
    (n : ℕ) (p : ReceptionistPc) (k : ℕ) → ReceptionistKnows n p → touched p ≡ some k → k < n
touched-lt n (providing h ProvideTablePc.write) k y e = ground arith
touched-lt n (providing h _) k y e = cc
touched-lt n (receiving h ReceivePaymentPc.write) k y e = ground arith
touched-lt n (receiving h (ReceivePaymentPc.hand_over j t)) k y e = ground arith
touched-lt n (receiving h _) k y e = cc
touched-lt n _ k y e = cc

-- The receptionist changes the table of the group `g` from `o` to `o'`.
sem_at :
    (s : ℕ → Sem) (sh sh' : Shared) (o : Option ℕ)
    → ((t : ℕ) → sh'.sems (s t) ≡ sh.sems (s t))
    → at_table_sem s sh' o ≡ at_table_sem s sh o
sem_at s sh sh' none same = refl
sem_at s sh sh' (some t) same = same t

-- A group that keeps its table is seen as before.
pub SameKitchen-Alike :
    (g : ℕ) (q : Want) (sh sh' : Shared) (p : WaiterPc) (c : Chef)
    → SameKitchen sh sh'
    → sh'.f_st.assigned_table g ≡ sh.f_st.assigned_table g
    → Alike q (serve_view g sh p c) (serve_view g sh' p c)
SameKitchen-Alike g q sh sh' p c same e = record {
  asks = rw (same.request, same.signal);
  to_receive = refl;
  received = rw e (sem_at request_received sh sh' (sh.f_st.assigned_table g) same.receipts);
  to_order = refl;
  ordered = rw (same.order, same.order_signal);
  cooking = refl;
  ready = rw (same.request, same.signal);
  to_serve = refl;
  served = rw e (sem_at food_arrived sh sh' (sh.f_st.assigned_table g) same.food);
  posted = inr (rw same.request);
}

new_sem :
    (n : ℕ) (s : ℕ → Sem) (sh sh' : Shared) (o o' : Option ℕ)
    → ((t : ℕ) → sh'.sems (s t) ≡ sh.sems (s t))
    → NewTable n sh.f_st.assigned_table o o'
    → ((t : ℕ) → IsFree sh.f_st.assigned_table n t → sh.sems (s t) ≡ 0)
    → at_table_sem s sh o ≡ 0
    → at_table_sem s sh' o' ≡ 0
new_sem n s sh sh' o none same new bare e = refl
new_sem n s sh sh' o (some t) same (inl old) bare e = same t ∙ (rw old at e)
new_sem n s sh sh' o (some t) same (inr free) bare e = same t ∙ bare t free

-- A group that waits for nothing gets a table with nothing on it.
pub SameKitchen-new :
    (n g : ℕ) (sh sh' : Shared) (p : WaiterPc) (c : Chef)
    → SameKitchen sh sh'
    → NewTable n sh.f_st.assigned_table (sh.f_st.assigned_table g) (sh'.f_st.assigned_table g)
    → ((t : ℕ) → IsFree sh.f_st.assigned_table n t → IsBare sh t)
    → Expects 0 0 (serve_view g sh p c)
    → Expects 0 0 (serve_view g sh' p c)
SameKitchen-new n g sh sh' p c same new bare d =
    let receipt =
      new_sem n request_received sh sh' _ _ same.receipts new (λ t f. (bare t f).no_receipt)
        (omega (arith, d)) in
    let food =
      new_sem n food_arrived sh sh' _ _ same.food new (λ t f. (bare t f).no_food)
        (omega (arith, d)) in
    record { answer = omega (arith, now, receipt, d); order = omega (arith, now, food, d) }
  where
    unseated : Shared
    unseated = record sh' { f_st = record (sh'.f_st) { assigned_table = sh.f_st.assigned_table } }

    same' : SameKitchen sh unseated
    same' = record {
      request = same.request;
      order = same.order;
      signal = same.signal;
      order_signal = same.order_signal;
      receipts = same.receipts;
      food = same.food;
    }

    now : Alike nothing (serve_view g sh p c) (serve_view g unseated p c)
    now = SameKitchen-Alike g nothing sh unseated p c same' refl
