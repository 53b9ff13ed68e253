-- ===== src/Reception/PlacesOfDesk.antt =====
-- The receptionist's local variables, and that it makes no fault.
use restaurante_so.Prelude.{
  ℕ, ◌+◌, ◌≤◌, ◌<◌, ◌≡◌, inl, inr, Option, none, some, ltb, Bool-cases, update, arith,
}
use restaurante_so.Problem.{max_groups, FullStat, recv_pay, set_receptionist_stat}
use restaurante_so.Semaphore.{Shared, receptionist_req, save_state}
use restaurante_so.Receptionist.{
  Receptionist, ReceptionistPc, waiting_for_group, providing, receiving, WaitForGroupPc,
  ProvideTablePc, ReceivePaymentPc, receptionist_at, after_receive, choose_next, decide_next_group,
  settled,
}
use restaurante_so.Receptionist.Seating.Decisions.{Chosen, decide_next_group_lem}
use restaurante_so.Tokens.{After, receptionist_reception}
use restaurante_so.Reception.View.{Phase, arriving, Desk, desk_view, table_kind}
use restaurante_so.Reception.DeskSteps.{at_place}
use restaurante_so.Reception.Places.{ReceptionistKnows, MailKnows, IsSound}

-- What the receptionist may rely on when it acts on a request.
abbrev pub IsReady : ReceptionistPc → Shared → Receptionist → Type 0
IsReady (providing h ProvideTablePc.write) sh r = r.group_record h ≡ 0
IsReady (receiving h ReceivePaymentPc.write) sh r = table_kind (sh.f_st.assigned_table h) ≡ 1
IsReady _ sh r = Unit

providing_ready :
    (h : ℕ) (q : Phase) (sh : Shared) (r : Receptionist)
    → Desk q (desk_view h sh (at_place (providing h ProvideTablePc.write) r))
    → r.group_record h ≡ 0
providing_ready h arriving sh r d = ground arith
providing_ready h _ sh r d = ground arith

receiving_ready :
    (h : ℕ) (q : Phase) (sh : Shared) (r : Receptionist)
    → Desk q (desk_view h sh (at_place (receiving h ReceivePaymentPc.write) r))
    → table_kind (sh.f_st.assigned_table h) ≡ 1
receiving_ready h arriving sh r d = ground arith
receiving_ready h _ sh r d = ground arith

-- A request that the receptionist has in hand is one that its group made.
pub IsReady-of_Desk :
    (n : ℕ) (p : ReceptionistPc) (sh : Shared) (r : Receptionist) (phases : ℕ → Phase)
    → ReceptionistKnows n p
    → ((g : ℕ) → g < n → Desk (phases g) (desk_view g sh (at_place p r)))
    → IsReady p sh r
IsReady-of_Desk n (providing h ProvideTablePc.write) sh r phases k d =
    providing_ready h (phases h) sh r (d h k)
IsReady-of_Desk n (providing h _) sh r phases k d = tt
IsReady-of_Desk n (receiving h ReceivePaymentPc.write) sh r phases k d =
    receiving_ready h (phases h) sh r (d h k)
IsReady-of_Desk n (receiving h _) sh r phases k d = tt
IsReady-of_Desk n _ sh r phases k d = tt

module _ (n : ℕ) (r : Receptionist) where
  abbrev Learns : ReceptionistPc → Shared → Type 0
  Learns p sh =
      sh.f_st.n_groups ≡ n
      → sh.sems receptionist_req + receptionist_reception p ≤ 1
      → MailKnows n sh p
      → ReceptionistKnows n p
      → IsReady p sh r
      → After (λ sh' r'. MailKnows n sh' r'.pc × ReceptionistKnows n r'.pc) (receptionist_at p r sh)

  waiting-Learns : (p : WaitForGroupPc) (sh : Shared) → Learns (waiting_for_group p) sh
  unfolding receptionist_at
  waiting-Learns WaitForGroupPc.enter sh e one m k y = ground arith
  waiting-Learns WaitForGroupPc.read sh e one m k y = (λ h. m (omega arith), m (omega arith))
  waiting-Learns _ sh e one m k y = ground arith

  providing-Learns : (h : ℕ) (p : ProvideTablePc) (sh : Shared) → Learns (providing h p) sh
  unfolding receptionist_at
  providing-Learns h ProvideTablePc.enter sh e one m k y = ground arith
  providing-Learns h _ sh e one m k y = ground arith

  -- The group that is chosen is a group.
  IsGroup : Option ℕ → Type 0
  IsGroup none = Unit
  IsGroup (some k) = k < n

  IsGroup-if_Chosen :
      (groups : ℕ → ℕ) (m : ℕ) (o : Option ℕ) → m ≡ n → Chosen groups 0 m o → IsGroup o
  unfolding IsGroup
  IsGroup-if_Chosen groups m none e c = tt
  IsGroup-if_Chosen groups m (some k) e c = omega (arith, c.1)

  next_IsGroup :
      (groups : ℕ → ℕ) (f : FullStat) → f.n_groups ≡ n → IsGroup (decide_next_group groups f)
  unfolding IsGroup
  next_IsGroup groups f e = elim (decide_next_group_lem groups f) [
    | inl (empty, e') ↦ rw e' tt
    | inr (some_wait, c) ↦ IsGroup-if_Chosen groups f.n_groups _ e c
  ]

  choice-Learns :
      (h : ℕ) (o t : Option ℕ) (groups : ℕ → ℕ) (sh : Shared)
      → h < n
      → table_kind t ≡ 1
      → IsGroup o
      → MailKnows n sh ReceptionistPc.testing
      → After
          (λ sh' r'. MailKnows n sh' r'.pc × ReceptionistKnows n r'.pc)
          (after_receive r h (choose_next o t groups sh))
  unfolding after_receive choose_next IsGroup
  choice-Learns h none t groups sh lt kind g m = (m, (lt, kind))
  choice-Learns h (some k) t groups sh lt kind g m = (m, (lt, g, kind))

  receiving_write-Learns : (h : ℕ) (sh : Shared) → Learns (receiving h ReceivePaymentPc.write) sh
  unfolding receptionist_at
  receiving_write-Learns h sh e one m k y = elim (Bool-cases (ltb h max_groups)) [
    | inl sound ↦ elim (Bool-cases (ltb 0 sh.f_st.groups_waiting)) [
      | inl full ↦
          rw sound (
            rw full (choice-Learns h _ _ groups cleared k y (next_IsGroup groups cleared.f_st e) m))
      | inr empty ↦ rw sound (rw empty (m, (k, y)))
    ]
    | inr unsound ↦ rw unsound tt
  ]
    where
      saved : Shared
      saved = save_state (record sh { f_st = set_receptionist_stat sh.f_st recv_pay })

      cleared : Shared
      cleared = record saved {
        f_st = record (saved.f_st) { assigned_table = update sh.f_st.assigned_table h none };
      }

      groups : ℕ → ℕ
      groups = update r.group_record h settled

  receiving-Learns : (h : ℕ) (p : ReceivePaymentPc) (sh : Shared) → Learns (receiving h p) sh
  unfolding receptionist_at
  receiving-Learns h ReceivePaymentPc.write sh e one m k y = receiving_write-Learns h sh e one m k y
  receiving-Learns h ReceivePaymentPc.enter sh e one m k y = ground arith
  receiving-Learns h _ sh e one m k y = ground arith

  pub receptionist-Learns : (p : ReceptionistPc) (sh : Shared) → Learns p sh
  unfolding receptionist_at
  receptionist-Learns (waiting_for_group p) sh e one m k y = waiting-Learns p sh e one m k y
  receptionist-Learns (providing h p) sh e one m k y = providing-Learns h p sh e one m k y
  receptionist-Learns (receiving h p) sh e one m k y = receiving-Learns h p sh e one m k y
  receptionist-Learns ReceptionistPc.testing sh e one m k y = ground arith
  receptionist-Learns ReceptionistPc.finished sh e one m k y = tt

  -- The `assert` holds and every index is in its array.
  abbrev Sound : ReceptionistPc → Shared → Type 0
  Sound p sh =
      sh.f_st.n_groups ≡ n
      → n ≤ max_groups
      → ReceptionistKnows n p
      → IsReady p sh r
      → IsSound (receptionist_at p r sh)

  waiting-Sound : (p : WaitForGroupPc) (sh : Shared) → Sound (waiting_for_group p) sh
  unfolding receptionist_at
  waiting-Sound WaitForGroupPc.enter sh e few k y = ground arith
  waiting-Sound _ sh e few k y = ground arith

  providing-Sound : (h : ℕ) (p : ProvideTablePc) (sh : Shared) → Sound (providing h p) sh
  unfolding receptionist_at
  providing-Sound h ProvideTablePc.enter sh e few k y = ground arith
  providing-Sound h _ sh e few k y = ground arith

  receiving-Sound : (h : ℕ) (p : ReceivePaymentPc) (sh : Shared) → Sound (receiving h p) sh
  unfolding receptionist_at
  receiving-Sound h ReceivePaymentPc.enter sh e few k y = ground arith
  receiving-Sound h _ sh e few k y = ground arith

  pub receptionist-Sound : (p : ReceptionistPc) (sh : Shared) → Sound p sh
  unfolding receptionist_at
  receptionist-Sound (waiting_for_group p) sh e few k y = waiting-Sound p sh e few k y
  receptionist-Sound (providing h p) sh e few k y = providing-Sound h p sh e few k y
  receptionist-Sound (receiving h p) sh e few k y = receiving-Sound h p sh e few k y
  receptionist-Sound _ sh e few k y = tt
