-- ===== src/Service/DeskSteps.antt =====
-- A step of the receptionist keeps the orders of all groups.
use restaurante_so.Prelude.{
  ℕ, ◌<◌, ◌≡◌, ◌≢◌, ◌⊎◌, inl, inr, refl, sym, ◌∙◌, Option, none, some, false, Bool-cases, ◌==◌,
  subst, arith,
}
use restaurante_so.Semaphore.{Shared, next, request_received, food_arrived}
use restaurante_so.Receptionist.{Receptionist, receptionist_step}
use restaurante_so.Receptionist.Seating.{is_table}
use restaurante_so.Receptionist.Seating.Decisions.{IsFree, is_table-true}
use restaurante_so.System.{System}
use restaurante_so.Tokens.{after_next}
use restaurante_so.Reception.{Protocol}
use restaurante_so.Reception.View.{phase}
use restaurante_so.Seats.{Booked}
use restaurante_so.Service.View.{nothing, want, Expects, Serve, serve_view, at_table_sem}
use restaurante_so.Service.GroupKeeps.{Alike-Serve}
use restaurante_so.Service.TablesMove.{
  Stays, OthersStay, NewTable, IsIdle, touched, receptionist_stays, touched-IsIdle,
}
use restaurante_so.Service.Places.{IsBare}
use restaurante_so.Service.Transfers.{
  idle_want, Carries-stays, holds, WaiterCarries-stays, held_wants, holds-lt, touched-lt,
  SameKitchen-Alike, SameKitchen-new,
}
use restaurante_so.Service.Protocols.{Service}
use restaurante_so.Service.ServantSteps.{chef_posts_stay}

touched-cases : (o : Option ℕ) (g : ℕ) → (o ≡ some g) ⊎ (o ≢ some g)
touched-cases none g = inr (cc)
touched-cases (some k) g = elim (Bool-cases (k == g)) [
  | inl same ↦ inl (ground arith)
  | inr other ↦ inr (ground arith)
]

touched_new :
    (n g : ℕ) (o : Option ℕ) (sh sh' : Shared)
    → o ≡ some g
    → Stays n o sh sh'
    → NewTable n sh.f_st.assigned_table (sh.f_st.assigned_table g) (sh'.f_st.assigned_table g)
touched_new n g none sh sh' e st = cc
touched_new n g (some k) sh sh' e st =
    let same : k ≡ g = ground arith in
    subst
      (λ j.
        NewTable n sh.f_st.assigned_table (sh.f_st.assigned_table j) (sh'.f_st.assigned_table j))
      same st.2

has_table : (o : Option ℕ) (t : ℕ) → is_table o t ≡ false → o ≢ some t
has_table none t e = λ x. cc
has_table (some u) t e = λ x. ground arith

-- A table that is free after the step was free before, or was that of the touched group.
left_or_IsFree :
    (n : ℕ) (o : Option ℕ) (sh sh' : Shared) (t : ℕ)
    → OthersStay o sh.f_st.assigned_table sh'
    → IsFree sh'.f_st.assigned_table n t
    → ((k : ℕ) × (o ≡ some k) × (sh.f_st.assigned_table k ≡ some t))
      ⊎ IsFree sh.f_st.assigned_table n t
left_or_IsFree n none sh sh' t others free = inr (λ g lt e. free g lt (others g (cc) ∙ e))
left_or_IsFree n (some k) sh sh' t others free =
    elim (Bool-cases (is_table (sh.f_st.assigned_table k) t)) [
      | inl had ↦ inl (k, refl, is_table-true _ t had)
      | inr not_had ↦ inr (λ g lt e. elim (touched-cases (some k) g) [
        | inl mine ↦
            let same : k ≡ g = ground arith in
            has_table (sh.f_st.assigned_table g) t
              (subst (λ j. is_table (sh.f_st.assigned_table j) t ≡ false) same not_had) e
        | inr other ↦ free g lt (others g other ∙ e)
      ])
    ]

IsBare-of :
    (sh : Shared) (o : Option ℕ) (t : ℕ)
    → o ≡ some t
    → at_table_sem request_received sh o ≡ 0
    → at_table_sem food_arrived sh o ≡ 0
    → IsBare sh t
IsBare-of sh o t e receipt food = record { no_receipt = rw e at receipt; no_food = rw e at food }

module _ {n : ℕ} {s : System} (i : Protocol n s) (b : Booked n s) (v : Service n s) where
  open i use {balance}

  unfoldable pub place : Option ℕ
  place = touched s.receptionist.pc

  -- A group whose table may change wants nothing.
  touched_want : (g : ℕ) → g < n → place ≡ some g → want (s.groups g) ≡ nothing
  unfolding place
  touched_want g lt e = idle_want (s.groups g) (
      touched-IsIdle g (phase (s.groups g)) s.receptionist.pc s.shared s.receptionist e
        (i.desk g lt))

  idle_view :
      (g : ℕ) → g < n → place ≡ some g → Expects 0 0 (serve_view g s.shared s.waiter.pc s.chef)
  idle_view g lt e =
      subst (λ q. Serve q (serve_view g s.shared s.waiter.pc s.chef)) (touched_want g lt e)
        (v.serve g lt)

  module _ {sh : Shared} {r : Receptionist}
      (moves : receptionist_step s.receptionist s.shared ≡ next sh r) where
    pub stays : Stays n place s.shared sh
    unfolding place receptionist_step
    stays =
        after_next _ _
          (receptionist_stays n s.receptionist s.receptionist.pc s.shared balance.same_groups b)
          moves

    Serve-after : (g : ℕ) → g < n → Serve (want (s.groups g)) (serve_view g sh s.waiter.pc s.chef)
    Serve-after g lt = elim (touched-cases place g) [
      | inl mine ↦
          subst (λ q. Serve q (serve_view g sh s.waiter.pc s.chef)) (sym (touched_want g lt mine))
            (SameKitchen-new n g s.shared sh s.waiter.pc s.chef stays.0
              (touched_new n g place s.shared sh mine stays) v.bare (idle_view g lt mine))
      | inr other ↦
          Alike-Serve (want (s.groups g))
            (SameKitchen-Alike g (want (s.groups g)) s.shared sh s.waiter.pc s.chef stays.0
              (stays.1 g other))
            (v.serve g lt)
    ]

    same_or_IsIdle :
        (g : ℕ)
        → g < n
        → IsIdle (phase (s.groups g)) ⊎ (sh.f_st.assigned_table g ≡ s.shared.f_st.assigned_table g)
    unfolding place
    same_or_IsIdle g lt = elim (touched-cases place g) [
      | inl mine ↦ inl (
          touched-IsIdle g (phase (s.groups g)) s.receptionist.pc s.shared s.receptionist mine
            (i.desk g lt))
      | inr other ↦ inr (stays.1 g other)
    ]

    held_stays :
        (h : ℕ)
        → holds s.waiter.pc ≡ some h
        → sh.f_st.assigned_table h ≡ s.shared.f_st.assigned_table h
    held_stays h e = elim (touched-cases place h) [
      | inl mine ↦ absurd (
          held_wants s.waiter.pc h s.shared s.chef e
            (idle_view h (holds-lt n s.waiter.pc h v.waiter_knows e) mine))
      | inr other ↦ stays.1 h other
    ]

    -- A table that is free now was so before, or has just been left by a group that wants nothing.
    IsBare-before : (t : ℕ) → IsFree sh.f_st.assigned_table n t → IsBare s.shared t
    unfolding place
    IsBare-before t free = elim (left_or_IsFree n place s.shared sh t stays.1 free) [
      | inr before ↦ v.bare t before
      | inl (k, mine, had) ↦
          let lt = touched-lt n s.receptionist.pc k i.knows mine in
          let d = idle_view k lt mine in
          IsBare-of s.shared (s.shared.f_st.assigned_table k) t had (omega (arith, d))
            (omega (arith, d))
    ]

    IsBare-after : (t : ℕ) → IsFree sh.f_st.assigned_table n t → IsBare sh t
    IsBare-after t free = record {
      no_receipt = stays.0.receipts t ∙ (IsBare-before t free).no_receipt;
      no_food = stays.0.food t ∙ (IsBare-before t free).no_food;
    }

    pub receptionist_keeps_Service : Service n (record s { shared = sh; receptionist = r })
    receptionist_keeps_Service = record {
      serve = Serve-after;
      carries =
          λ g lt. Carries-stays (s.groups g) g s.shared sh (same_or_IsIdle g lt) (v.carries g lt);
      waiter_carries =
          WaiterCarries-stays s.waiter.pc s.shared sh stays.0.order held_stays v.waiter_carries;
      chef_posts =
          chef_posts_stay s.chef.pc s.chef.last_group s.shared sh stays.0.request v.chef_posts;
      bare = IsBare-after;
      mail = rw (stays.0.request, stays.0.signal) v.mail;
      waiter_knows = v.waiter_knows;
      order_knows = rw (stays.0.order, stays.0.order_signal) v.order_knows;
      chef_knows = v.chef_knows;
    }
