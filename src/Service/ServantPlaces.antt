-- ===== src/Service/ServantPlaces.antt =====
-- The waiter and the chef keep what is known of the groups that they serve.
use restaurante_so.Prelude.{ℕ, ◌+◌, ◌≤◌, ◌<◌, ◌≡◌, ◌≢◌, ◌⊎◌, inr, refl, Option, none, some, arith}
use restaurante_so.Problem.{food_ready}
use restaurante_so.Semaphore.{Shared, waiter_request, wait_order}
use restaurante_so.Waiter.{
  Waiter, WaiterPc, waiting_for_request, informing, taking, WaitForRequestPc, InformChefPc,
  TakeFoodPc, waiter_at,
}
use restaurante_so.Chef.{
  Chef, ChefPc, waiting_for_order, processing, WaitForOrderPc, ProcessOrderPc, chef_at,
}
use restaurante_so.Tokens.{After, waiter_service, waiter_order, chef_service}
use restaurante_so.Service.View.{reading, busy}
use restaurante_so.Service.WaiterKeeps.{WaiterCarries}
use restaurante_so.Service.ChefKeeps.{ChefPosts, ChefClear}
use restaurante_so.Service.Places.{
  IsServed-req, MailKnows, WaiterKnows, OrderKnows, ChefKnows, IsBare,
}

-- The table that the waiter is about to signal.
abbrev pub signals : WaiterPc → Option ℕ
signals (informing _ (InformChefPc.signal_received t)) = t
signals (taking _ (TakeFoodPc.signal_food t)) = t
signals _ = none

pub record WaiterLeaves (n : ℕ) (p : WaiterPc) (c : Chef) (sh sh' : Shared) (w' : Waiter)
    : Type 0 where
  pub request : sh'.f_st.waiter_request ≡ sh.f_st.waiter_request
  pub carries : WaiterCarries w'.pc sh'
  pub mail : MailKnows n sh' w'.pc
  pub knows : WaiterKnows n w'.pc
  pub order : OrderKnows n sh' c.pc
  pub bare : (t : ℕ) → signals p ≢ some t → IsBare sh t → IsBare sh' t

module _ (n : ℕ) (c : Chef) where
  pub record WaiterHas (p : WaiterPc) (sh : Shared) : Type 0 where
    pub one : sh.sems waiter_request + waiter_service p ≤ 1
    pub carries : WaiterCarries p sh
    pub mail : MailKnows n sh p
    pub knows : WaiterKnows n p
    pub order : OrderKnows n sh c.pc
    pub orders : sh.sems wait_order + reading c.pc ≤ waiter_order p

  abbrev WaiterDoes : WaiterPc → Waiter → Shared → Type 0
  WaiterDoes p w sh =
      WaiterHas p sh → After (λ sh' w'. WaiterLeaves n p c sh sh' w') (waiter_at p w sh)

  waiting_leaves :
      (p : WaitForRequestPc) (w : Waiter) (sh : Shared) → WaiterDoes (waiting_for_request p) w sh
  unfolding waiter_at
  waiting_leaves WaitForRequestPc.enter w sh a = ground arith
  waiting_leaves _ w sh a = ground arith

  informing_leaves :
      (h : ℕ) (p : InformChefPc) (w : Waiter) (sh : Shared) → WaiterDoes (informing h p) w sh
  unfolding waiter_at
  informing_leaves h InformChefPc.enter w sh a = ground arith
  informing_leaves h _ w sh a = ground arith

  taking_leaves : (h : ℕ) (p : TakeFoodPc) (w : Waiter) (sh : Shared) → WaiterDoes (taking h p) w sh
  unfolding waiter_at
  taking_leaves h TakeFoodPc.enter w sh a = ground arith
  taking_leaves h _ w sh a = ground arith

  pub waiter_leaves : (p : WaiterPc) (w : Waiter) (sh : Shared) → WaiterDoes p w sh
  unfolding waiter_at
  waiter_leaves (waiting_for_request p) w sh a = waiting_leaves p w sh a
  waiter_leaves (informing h p) w sh a = informing_leaves h p w sh a
  waiter_leaves (taking h p) w sh a = taking_leaves h p w sh a
  waiter_leaves _ w sh a = ground arith

pub record ChefLeaves (n : ℕ) (w : WaiterPc) (p : ChefPc) (sh sh' : Shared) (c' : Chef)
    : Type 0 where
  pub request : (chef_service p ≡ 1) ⊎ (sh'.f_st.waiter_request ≡ sh.f_st.waiter_request)
  pub group : sh'.f_st.food_group ≡ sh.f_st.food_group
  pub posts : ChefPosts c'.pc c'.last_group sh'
  pub mail : MailKnows n sh' w
  pub order : OrderKnows n sh' c'.pc
  pub knows : ChefKnows n c'
  pub bare : (t : ℕ) → IsBare sh t → IsBare sh' t

module _ (n : ℕ) (w : WaiterPc) where
  pub record ChefHas (p : ChefPc) (last : ℕ) (sh : Shared) : Type 0 where
    pub clear : ChefClear p last sh w
    pub mail : MailKnows n sh w
    pub order : OrderKnows n sh p
    pub knows : busy p ≡ 1 → last < n

  abbrev ChefDoes : ChefPc → Chef → Shared → Type 0
  ChefDoes p c sh =
      ChefHas p c.last_group sh → After (λ sh' c'. ChefLeaves n w p sh sh' c') (chef_at p c sh)

  waiting_for_order_leaves :
      (p : WaitForOrderPc) (c : Chef) (sh : Shared) → ChefDoes (waiting_for_order p) c sh
  unfolding chef_at
  waiting_for_order_leaves WaitForOrderPc.enter c sh a = ground arith
  waiting_for_order_leaves _ c sh a = ground arith

  processing_leaves : (p : ProcessOrderPc) (c : Chef) (sh : Shared) → ChefDoes (processing p) c sh
  unfolding chef_at
  processing_leaves ProcessOrderPc.signal c sh a = record {
    request = inr refl;
    group = refl;
    posts = tt;
    mail = λ e.
        IsServed-req n food_ready c.last_group sh.f_st.waiter_request (inr refl) (a.knows refl)
          a.clear.posts;
    order = λ e. a.order e;
    knows = λ e. absurd (omega arith);
    bare = λ t b. ground arith;
  }
  processing_leaves ProcessOrderPc.enter c sh a = ground arith
  processing_leaves _ c sh a = ground arith

  pub chef_leaves : (p : ChefPc) (c : Chef) (sh : Shared) → ChefDoes p c sh
  unfolding chef_at
  chef_leaves (waiting_for_order p) c sh a = waiting_for_order_leaves p c sh a
  chef_leaves (processing p) c sh a = processing_leaves p c sh a
  chef_leaves _ c sh a = ground arith
