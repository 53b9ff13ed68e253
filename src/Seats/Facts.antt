-- ===== src/Seats/Facts.antt =====
-- What the book reads of a state, what it relies on, and the steps of the receptionist that leave it.
use restaurante_so.Prelude.{ℕ, ◌<◌, ◌≡◌, Option, none, some, refl, arith}
use restaurante_so.Semaphore.{Shared, Outcome, next, blocked, fault}
use restaurante_so.Receptionist.{
  Receptionist, ReceptionistPc, waiting_for_group, providing, receiving, WaitForGroupPc,
  ProvideTablePc, ReceivePaymentPc, receptionist_at,
}
use restaurante_so.Tokens.{After}
use restaurante_so.Reception.View.{Phase, arriving, Desk, desk_view, table_kind}
use restaurante_so.Reception.DeskSteps.{at_place}
use restaurante_so.Reception.Places.{ReceptionistKnows}
use restaurante_so.Seats.Book.{Book}

-- The table that the receptionist is handing over.
abbrev pub carried : ReceptionistPc → Option ℕ
carried (receiving _ (ReceivePaymentPc.signal_next _ t)) = t
carried (receiving _ (ReceivePaymentPc.hand_over _ t)) = t
carried _ = none

-- 1 while `groupsWaiting` still counts the group that gets it
abbrev pub pending : ReceptionistPc → ℕ
pending (receiving _ (ReceivePaymentPc.signal_next _ _)) = 1
pending (receiving _ (ReceivePaymentPc.hand_over _ _)) = 1
pending _ = 0

abbrev pub IsBooked : ℕ → Shared → Receptionist → Type 0
IsBooked n sh r =
    Book n sh.f_st.assigned_table sh.f_st.groups_waiting r.group_record (carried r.pc)
      (pending r.pc)

-- What the book relies on when a table is given or taken.
abbrev pub MayBook : ReceptionistPc → Shared → Receptionist → Type 0
MayBook (providing h ProvideTablePc.write) sh r =
    (r.group_record h ≡ 0) × (sh.f_st.assigned_table h ≡ none)
MayBook (receiving h ReceivePaymentPc.write) sh r =
    (r.group_record h ≡ 2) × ((t : ℕ) × (sh.f_st.assigned_table h ≡ some t))
MayBook (receiving h (ReceivePaymentPc.hand_over k t)) sh r =
    (sh.f_st.assigned_table k ≡ none) × ((u : ℕ) × (t ≡ some u))
MayBook _ sh r = Unit

none_of_kind : (o : Option ℕ) → table_kind o ≡ 0 → o ≡ none
none_of_kind none e = refl
none_of_kind (some t) e = absurd (ground arith)

some_of_kind : (o : Option ℕ) → table_kind o ≡ 1 → (t : ℕ) × (o ≡ some t)
some_of_kind none e = absurd (ground arith)
some_of_kind (some t) e = (t, refl)

module _ (h : ℕ) (sh : Shared) (r : Receptionist) where
  asks_table_free :
      (q : Phase)
      → Desk q (desk_view h sh (at_place (providing h ProvideTablePc.write) r))
      → (r.group_record h ≡ 0) × (table_kind (sh.f_st.assigned_table h) ≡ 0)
  asks_table_free arriving d = ground arith
  asks_table_free _ d = ground arith

  asks_bill_seated :
      (q : Phase)
      → Desk q (desk_view h sh (at_place (receiving h ReceivePaymentPc.write) r))
      → (r.group_record h ≡ 2) × (table_kind (sh.f_st.assigned_table h) ≡ 1)
  asks_bill_seated arriving d = ground arith
  asks_bill_seated _ d = ground arith

  handed_free :
      (g : ℕ) (t : Option ℕ) (q : Phase)
      → Desk q (desk_view h sh (at_place (receiving g (ReceivePaymentPc.hand_over h t)) r))
      → table_kind (sh.f_st.assigned_table h) ≡ 0
  handed_free g t arriving d = ground arith
  handed_free g t _ d = ground arith

pub MayBook-of_Desk :
    (n : ℕ) (p : ReceptionistPc) (sh : Shared) (r : Receptionist) (phases : ℕ → Phase)
    → ReceptionistKnows n p
    → ((g : ℕ) → g < n → Desk (phases g) (desk_view g sh (at_place p r)))
    → MayBook p sh r
MayBook-of_Desk n (providing h ProvideTablePc.write) sh r phases k d =
    let (new, kind) = asks_table_free h sh r (phases h) (d h k) in (new, none_of_kind _ kind)
MayBook-of_Desk n (providing h _) sh r phases k d = tt
MayBook-of_Desk n (receiving h ReceivePaymentPc.write) sh r phases k d =
    let (old, kind) = asks_bill_seated h sh r (phases h) (d h k) in (old, some_of_kind _ kind)
MayBook-of_Desk n (receiving h (ReceivePaymentPc.hand_over j t)) sh r phases k d =
    (none_of_kind _ (handed_free j sh r h t (phases j) (d j k.1)), some_of_kind t k.2)
MayBook-of_Desk n (receiving h _) sh r phases k d = tt
MayBook-of_Desk n _ sh r phases k d = tt

-- What the book reads is the same.
pub record SameBook (sh : Shared) (r : Receptionist) (sh' : Shared) (r' : Receptionist)
    : Type 0 where
  pub tables : sh'.f_st.assigned_table ≡ sh.f_st.assigned_table
  pub count : sh'.f_st.groups_waiting ≡ sh.f_st.groups_waiting
  pub records : r'.group_record ≡ r.group_record
  pub same_carried : carried r'.pc ≡ carried r.pc
  pub same_pending : pending r'.pc ≡ pending r.pc

pub SameBook-Book :
    (n : ℕ) {sh sh' : Shared} {r r' : Receptionist}
    → SameBook sh r sh' r'
    → IsBooked n sh r
    → IsBooked n sh' r'
SameBook-Book n e b = rw (e.tables, e.count, e.records, e.same_carried, e.same_pending) b

pub After-SameBook :
    (n : ℕ) (sh : Shared) (r : Receptionist) (o : Outcome Receptionist)
    → IsBooked n sh r
    → After (λ sh' r'. SameBook sh r sh' r') o
    → After (λ sh' r'. IsBooked n sh' r') o
After-SameBook n sh r (next sh' r') b e = SameBook-Book n e b
After-SameBook n sh r blocked b e = tt
After-SameBook n sh r fault b e = tt

module _ (r : Receptionist) where
  abbrev LeavesBook : ReceptionistPc → Shared → Type 0
  LeavesBook p sh = After (λ sh' r'. SameBook sh (at_place p r) sh' r') (receptionist_at p r sh)

  pub waiting-LeavesBook : (p : WaitForGroupPc) (sh : Shared) → LeavesBook (waiting_for_group p) sh
  unfolding receptionist_at
  waiting-LeavesBook WaitForGroupPc.enter sh = ground arith
  waiting-LeavesBook _ sh = ground arith

  pub testing-LeavesBook : (sh : Shared) → LeavesBook ReceptionistPc.testing sh
  unfolding receptionist_at
  testing-LeavesBook sh = ground arith

  pub entering-LeavesBook : (h : ℕ) (sh : Shared) → LeavesBook (providing h ProvideTablePc.enter) sh
  unfolding receptionist_at
  entering-LeavesBook h sh = ground arith

  pub calling-LeavesBook : (h : ℕ) (sh : Shared) → LeavesBook (providing h ProvideTablePc.signal) sh
  unfolding receptionist_at
  calling-LeavesBook h sh = ground arith

  pub receiving-LeavesBook :
      (h : ℕ) (sh : Shared) → LeavesBook (receiving h ReceivePaymentPc.enter) sh
  unfolding receptionist_at
  receiving-LeavesBook h sh = ground arith

  pub signal-LeavesBook :
      (h k : ℕ) (t : Option ℕ) (sh : Shared)
      → LeavesBook (receiving h (ReceivePaymentPc.signal_next k t)) sh
  unfolding receptionist_at
  signal-LeavesBook h k t sh = ground arith

  pub done-LeavesBook :
      (h : ℕ) (t : Option ℕ) (sh : Shared)
      → LeavesBook (receiving h (ReceivePaymentPc.signal_done t)) sh
  unfolding receptionist_at
  done-LeavesBook h t sh = ground arith
