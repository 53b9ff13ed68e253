-- ===== src/Seats/Keeps.antt =====
-- Every step of the receptionist keeps its book.
use restaurante_so.Prelude.{
  ℕ, ◌<◌, ◌≡◌, inl, inr, Option, none, some, ap, subst, update, total-update, arith, ltb, ◌&&◌,
  Bool-cases,
}
use restaurante_so.Problem.{
  FullStat, num_tables, max_groups, recv_pay, assign_table, set_receptionist_stat,
}
use restaurante_so.Semaphore.{Shared, save_state}
use restaurante_so.Receptionist.{
  Receptionist, ReceptionistPc, waiting_for_group, providing, receiving, ProvideTablePc,
  ReceivePaymentPc, receptionist_at, after_provide, after_receive, seat_or_wait, choose_next,
  decide_next_group, decide_table_or_wait, settled,
}
use restaurante_so.Receptionist.Seating.Decisions.{
  Decided, Chosen, decide_table_or_wait_lem, decide_next_group_lem,
}
use restaurante_so.Tokens.{After}
use restaurante_so.Reception.DeskSteps.{at_place}
use restaurante_so.Reception.Places.{ReceptionistKnows}
use restaurante_so.Seats.Book.{
  waits, Book-seat, Book-queue, Book-free, Book-next, Book-hand, none_waits,
}
use restaurante_so.Seats.Facts.{
  IsBooked, MayBook, After-SameBook, waiting-LeavesBook, testing-LeavesBook, entering-LeavesBook,
  calling-LeavesBook, receiving-LeavesBook, signal-LeavesBook, done-LeavesBook,
}

pub decide-Decided :
    (n : ℕ) (f : FullStat)
    → f.n_groups ≡ n
    → Decided f.assigned_table n 0 num_tables (decide_table_or_wait f)
decide-Decided n f e =
    subst (λ m. Decided f.assigned_table m 0 num_tables (decide_table_or_wait f)) e
      (decide_table_or_wait_lem f)

decide-Chosen :
    (n : ℕ) (groups : ℕ → ℕ) (f : FullStat)
    → f.n_groups ≡ n
    → 0 < f.groups_waiting
    → Chosen groups 0 n (decide_next_group groups f)
decide-Chosen n groups f e pos = elim (decide_next_group_lem groups f) [
  | inl (empty, _) ↦ absurd (omega arith)
  | inr (_, chosen) ↦ subst (λ m. Chosen groups 0 m (decide_next_group groups f)) e chosen
]

module _ (n : ℕ) (r : Receptionist) where
  abbrev KeepsBook : ReceptionistPc → Shared → Type 0
  KeepsBook p sh =
      sh.f_st.n_groups ≡ n
      → ReceptionistKnows n p
      → MayBook p sh r
      → IsBooked n sh (at_place p r)
      → After (λ sh' r'. IsBooked n sh' r') (receptionist_at p r sh)

  -- What is decided for the group `h`, which has just come.
  seats-Book :
      (h : ℕ) (o : Option ℕ) (sh : Shared)
      → h < n
      → Decided sh.f_st.assigned_table n 0 num_tables o
      → MayBook (providing h ProvideTablePc.write) sh r
      → IsBooked n sh (at_place (providing h ProvideTablePc.write) r)
      → After (λ sh' r'. IsBooked n sh' r') (after_provide r h (seat_or_wait h o r.group_record sh))
  unfolding after_provide seat_or_wait
  seats-Book h none sh lt d y b = Book-queue h lt (λ t lu. d t (omega arith) lu) y.0 b
  seats-Book h (some t) sh lt d y b = Book-seat h t lt d.2 y.1 y.0 b

  providing_write-Book : (h : ℕ) (sh : Shared) → KeepsBook (providing h ProvideTablePc.write) sh
  unfolding receptionist_at
  providing_write-Book h sh e k y b =
      elim (Bool-cases (ltb h max_groups && ltb (r.group_record h) 2)) [
        | inl sound ↦ rw sound (
            seats-Book h (decide_table_or_wait assigning.f_st) assigning k
              (decide-Decided n assigning.f_st e) y b)
        | inr unsound ↦ rw unsound tt
      ]
    where
      assigning : Shared
      assigning = save_state (record sh { f_st = set_receptionist_stat sh.f_st assign_table })

  -- The payment of `h`, from the memory `sh` with the table of `h` already free.
  pays-Book :
      (h : ℕ) (o : Option ℕ) (sh : Shared)
      → sh.f_st.n_groups ≡ n
      → h < n
      → MayBook (receiving h ReceivePaymentPc.write) sh r
      → 0 < sh.f_st.groups_waiting
      → Chosen (update r.group_record h settled) 0 n o
      → IsBooked n sh (at_place (receiving h ReceivePaymentPc.write) r)
      → After
          (λ sh' r'. IsBooked n sh' r')
          (after_receive r h (
            choose_next o (sh.f_st.assigned_table h) (update r.group_record h settled) (record sh {
              f_st = record (sh.f_st) { assigned_table = update sh.f_st.assigned_table h none };
            })))
  unfolding after_receive choose_next
  pays-Book h none sh e lt (old, (t, had)) pos c b = absurd (
      omega (
        arith,
        b.counted,
        ap waits old,
        total-update waits n r.group_record h settled lt,
        none_waits n (update r.group_record h settled) (λ g lg. c g (omega arith) lg),
      ))
  pays-Book h (some k) sh e lt (old, (t, had)) pos c b =
      rw had (Book-next h k t lt c.1 old had c.2 b)

  receiving_write-Book : (h : ℕ) (sh : Shared) → KeepsBook (receiving h ReceivePaymentPc.write) sh
  unfolding receptionist_at
  receiving_write-Book h sh e k y b = elim (Bool-cases (ltb h max_groups)) [
    | inl sound ↦ elim (Bool-cases (ltb 0 sh.f_st.groups_waiting)) [
      | inl full ↦ rw sound (
          rw full (
            pays-Book h (decide_next_group groups cleared.f_st) paying e k y (ground arith)
              (decide-Chosen n groups cleared.f_st e (ground arith)) b))
      | inr empty ↦ rw sound (rw empty (Book-free h k y.0 (ground arith) b))
    ]
    | inr unsound ↦ rw unsound tt
  ]
    where
      paying : Shared
      paying = save_state (record sh { f_st = set_receptionist_stat sh.f_st recv_pay })

      cleared : Shared
      cleared = record paying {
        f_st = record (paying.f_st) { assigned_table = update sh.f_st.assigned_table h none };
      }

      groups : ℕ → ℕ
      groups = update r.group_record h settled

  hand_over-Book :
      (h k : ℕ) (t : Option ℕ) (sh : Shared)
      → KeepsBook (receiving h (ReceivePaymentPc.hand_over k t)) sh
  unfolding receptionist_at
  hand_over-Book h k none sh e d y b = absurd (ground arith)
  hand_over-Book h k (some t) sh e d y b = Book-hand k t d.1 y.0 b

  pub receptionist_at-Book : (p : ReceptionistPc) (sh : Shared) → KeepsBook p sh
  receptionist_at-Book (waiting_for_group p) sh e k y b =
      After-SameBook n sh _ _ b (waiting-LeavesBook r p sh)
  receptionist_at-Book (providing h ProvideTablePc.write) sh e k y b =
      providing_write-Book h sh e k y b
  receptionist_at-Book (providing h ProvideTablePc.enter) sh e k y b =
      After-SameBook n sh _ _ b (entering-LeavesBook r h sh)
  receptionist_at-Book (providing h ProvideTablePc.signal) sh e k y b =
      After-SameBook n sh _ _ b (calling-LeavesBook r h sh)
  receptionist_at-Book (providing h ProvideTablePc.exit) sh e k y b = unfold receptionist_at in b
  receptionist_at-Book (receiving h ReceivePaymentPc.write) sh e k y b =
      receiving_write-Book h sh e k y b
  receptionist_at-Book (receiving h (ReceivePaymentPc.hand_over j t)) sh e k y b =
      hand_over-Book h j t sh e k y b
  receptionist_at-Book (receiving h ReceivePaymentPc.enter) sh e k y b =
      After-SameBook n sh _ _ b (receiving-LeavesBook r h sh)
  receptionist_at-Book (receiving h (ReceivePaymentPc.signal_next j t)) sh e k y b =
      After-SameBook n sh _ _ b (signal-LeavesBook r h j t sh)
  receptionist_at-Book (receiving h (ReceivePaymentPc.exit t)) sh e k y b =
      unfold receptionist_at in b
  receptionist_at-Book (receiving h (ReceivePaymentPc.signal_done t)) sh e k y b =
      After-SameBook n sh _ _ b (done-LeavesBook r h t sh)
  receptionist_at-Book ReceptionistPc.testing sh e k y b =
      After-SameBook n sh _ _ b (testing-LeavesBook r sh)
  receptionist_at-Book ReceptionistPc.finished sh e k y b = unfold receptionist_at in tt
