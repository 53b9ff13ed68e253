-- ===== src/Safety/Seating.antt =====
-- The tables: who has one, who waits, and that none is idle while a group waits.
use restaurante_so.Prelude.{ℕ, ◌+◌, ◌<◌, ◌≡◌, ◌⊎◌, Option, none, some, refl, total, arith}
use restaurante_so.Problem.{num_tables}
use restaurante_so.Setup.{Config}
use restaurante_so.Semaphore.{Shared}
use restaurante_so.Receptionist.Seating.Decisions.{IsHeld}
use restaurante_so.Receptionist.{Receptionist}
use restaurante_so.System.{System, Reach}
use restaurante_so.Reception.{Reach-Protocol}
use restaurante_so.Reception.View.{Phase, seated, billing, phase, Desk, desk_view, table_kind}
use restaurante_so.Seats.{Reach-Booked}
use restaurante_so.Seats.Book.{waits}
use restaurante_so.Seats.Facts.{carried, pending}

-- No two groups have the same table.
pub tables_exclusive :
    {c : Config} {k : ℕ} {s : System}
    → Reach c k s
    → (g h t : ℕ) → g < c.n_groups
    → h < c.n_groups
    → s.shared.f_st.assigned_table g ≡ some t
    → s.shared.f_st.assigned_table h ≡ some t
    → g ≡ h
tables_exclusive r = (Reach-Booked r).exclusive

-- `groupsWaiting` is the number of groups that the receptionist has recorded as waiting, and one
-- more from the choice of the next group to the writing of its table.
pub waiting_counted :
    {c : Config} {k : ℕ} {s : System}
    → Reach c k s
    → s.shared.f_st.groups_waiting
      ≡ total waits c.n_groups s.receptionist.group_record + pending s.receptionist.pc
waiting_counted r = omega (arith, (Reach-Booked r).counted)

-- While a group waits, each table is held by a group, or is the one that the receptionist is just
-- handing over to the next group.
pub no_idle_table :
    {c : Config} {k : ℕ} {s : System}
    → Reach c k s
    → (t : ℕ) → t < num_tables
    → pending s.receptionist.pc < s.shared.f_st.groups_waiting
    → IsHeld s.shared.f_st.assigned_table c.n_groups t ⊎ (carried s.receptionist.pc ≡ some t)
no_idle_table r t lt more = (Reach-Booked r).full t lt (omega (arith, (Reach-Booked r).counted))

-- From the critical section in which it reads its table to the signal of its request for the bill.
abbrev pub IsDining : Phase → Type 0
IsDining seated = Unit
IsDining billing = Unit
IsDining _ = ⊥

pub has_table :
    (q : Phase) (g : ℕ) (sh : Shared) (r : Receptionist)
    → IsDining q
    → Desk q (desk_view g sh r)
    → table_kind (sh.f_st.assigned_table g) ≡ 1
has_table seated g sh r q d = d.seat
has_table billing g sh r q d = d.0.seat
has_table _ g sh r q d = absurd q

table_of_kind : (o : Option ℕ) → table_kind o ≡ 1 → (t : ℕ) × (t < num_tables) × (o ≡ some t)
table_of_kind none e = absurd (ground arith)
table_of_kind (some t) e = (t, ground arith, refl)

-- A group that has read its table, and has not yet signalled its request for the bill, has one of
-- the tables.
pub dining_has_table :
    {c : Config} {k : ℕ} {s : System}
    → Reach c k s
    → (g : ℕ) → g < c.n_groups
    → IsDining (phase (s.groups g))
    → (t : ℕ) × (t < num_tables) × (s.shared.f_st.assigned_table g ≡ some t)
dining_has_table {s} r g lt q =
    table_of_kind _
      (has_table (phase (s.groups g)) g s.shared s.receptionist q ((Reach-Protocol r).desk g lt))

-- At most NUMTABLES groups dine at the same time: of three that do, two are the same.
pub dining_at_most_tables :
    {c : Config} {k : ℕ} {s : System}
    → Reach c k s
    → (f g h : ℕ) → f < c.n_groups
    → g < c.n_groups
    → h < c.n_groups
    → IsDining (phase (s.groups f))
    → IsDining (phase (s.groups g))
    → IsDining (phase (s.groups h))
    → (f ≡ g) ⊎ (g ≡ h) ⊎ (f ≡ h)
dining_at_most_tables r f g h lf lg lh qf qg qh =
    let (t, lt, ef) = dining_has_table r f lf qf in
    let (u, lu, eg) = dining_has_table r g lg qg in
    let (v, lv, eh) = dining_has_table r h lh qh in
    ground (
      arith,
      tables_exclusive r f g t lf lg,
      tables_exclusive r g h u lg lh,
      tables_exclusive r f h t lf lh,
    )
