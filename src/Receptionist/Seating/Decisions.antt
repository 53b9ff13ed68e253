-- ===== src/Receptionist/Seating/Decisions.antt =====
-- What the two decisions of the receptionist mean.
use restaurante_so.Prelude.{
  ℕ, zero, suc, ◌+◌, ◌≤◌, ◌<◌, ◌≡◌, ◌≢◌, ◌⊎◌, inl, inr, true, Option, none, some, arith, ◌==◌,
  ==_refl, ==_ne, leb, Bool-cases,
}
use Prim.Native.Nat.add
use restaurante_so.Problem.{FullStat, num_tables}
use restaurante_so.Receptionist.Seating.{
  wait, is_table, find_holder, find_table, decide_table_or_wait, find_waiting, decide_next_group,
}

-- Some group below `n` has the table, and no group below `n` has it.
abbrev pub IsHeld : (ℕ → Option ℕ) → ℕ → ℕ → Type 0
IsHeld assigned n t = (g : ℕ) × (g < n) × (assigned g ≡ some t)

abbrev pub IsFree : (ℕ → Option ℕ) → ℕ → ℕ → Type 0
IsFree assigned n t = (g : ℕ) → g < n → assigned g ≢ some t

pub is_table-true : (o : Option ℕ) (t : ℕ) → is_table o t ≡ true → o ≡ some t
is_table-true none t e = cc
is_table-true (some u) t e = ground arith

-- The inner loop breaks at a group with the table, or passes all groups.
find_holder_lem :
    (assigned : ℕ → Option ℕ) (t group left : ℕ)
    → ((find_holder assigned t group left < group + left)
        × (group ≤ find_holder assigned t group left)
        × (assigned (find_holder assigned t group left) ≡ some t))
      ⊎ ((find_holder assigned t group left ≡ group + left)
          × ((g : ℕ) → group ≤ g → g < group + left → assigned g ≢ some t))
unfolding find_holder
find_holder_lem assigned t group zero = inr (omega arith, λ g h k. absurd (omega arith))
find_holder_lem assigned t group (suc left) = elim (Bool-cases (is_table (assigned group) t)) [
  | inl here ↦ inl (ground arith, ground arith, rw here (is_table-true _ t here))
  | inr not_here ↦ elim (find_holder_lem assigned t (suc group) left) [
    | inl (below, above, holds) ↦
        inl (rw not_here (omega arith), rw not_here (omega arith), rw not_here holds)
    | inr (last, free) ↦ inr (
      rw not_here (omega arith),
      λ g lo hi e. elim (Bool-cases (g == group)) [
        | inl same ↦ ground (arith)
        | inr other ↦ free g (ground arith) (omega arith) e
      ],
    )
  ]
]

-- The test after the inner loop: no group has the table, or one has.
holder_test :
    (assigned : ℕ → Option ℕ) (n t : ℕ)
    → ((find_holder assigned t 0 n ≡ n) × IsFree assigned n t)
      ⊎ ((find_holder assigned t 0 n ≢ n) × IsHeld assigned n t)
holder_test assigned n t = elim (find_holder_lem assigned t 0 n) [
  | inl (below, above, holds) ↦ inr (omega arith, (find_holder assigned t 0 n, omega arith, holds))
  | inr (last, free) ↦ inl (omega arith, λ g lt. free g (omega arith) (omega arith))
]

-- What the two loops over the tables find.
abbrev pub Decided : (ℕ → Option ℕ) → ℕ → ℕ → ℕ → Option ℕ → Type 0
Decided assigned n lo hi none = (t : ℕ) → lo ≤ t → t < hi → IsHeld assigned n t
Decided assigned n lo hi (some t) =
    (lo ≤ t) × (t < hi) × IsFree assigned n t × ((u : ℕ) → lo ≤ u → u < t → IsHeld assigned n u)

-- A table that is held may be added below.
held_below :
    (assigned : ℕ → Option ℕ) (n t hi hi' : ℕ) (o : Option ℕ)
    → hi' ≡ hi
    → IsHeld assigned n t
    → Decided assigned n (suc t) hi o
    → Decided assigned n t hi' o
held_below assigned n t hi hi' none e held all = λ u lo lt. elim (Bool-cases (t == u)) [
  | inl same ↦ ground (arith, held)
  | inr other ↦ all u (ground arith) (omega arith)
]
held_below assigned n t hi hi' (some v) e held (lo, lt, free, all) = (
  omega arith,
  omega arith,
  free,
  λ u below above. elim (Bool-cases (t == u)) [
    | inl same ↦ ground (arith, held)
    | inr other ↦ all u (ground arith) above
  ],
)

find_table_lem :
    (assigned : ℕ → Option ℕ) (n t left : ℕ)
    → Decided assigned n t (t + left) (find_table assigned n t left)
unfolding find_table
find_table_lem assigned n t zero = λ u lo hi. absurd (omega arith)
find_table_lem assigned n t (suc left) = elim (holder_test assigned n t) [
  | inl (all, free) ↦
      rw (==_refl all) (omega arith, omega arith, free, λ u lo hi. absurd (omega arith))
  | inr (stops, held) ↦ rw (==_ne stops) (
      held_below assigned n t (suc t + left) _ _ (omega arith) held
        (find_table_lem assigned n (suc t) left))
]

-- `decideTableOrWait` gives the first table that no group has, and -1 only if each table is held.
pub decide_table_or_wait_lem :
    (f : FullStat) → Decided f.assigned_table f.n_groups 0 num_tables (decide_table_or_wait f)
unfolding decide_table_or_wait
decide_table_or_wait_lem f = find_table_lem f.assigned_table f.n_groups 0 num_tables

-- What the loop over the groups finds.
abbrev pub Chosen : (ℕ → ℕ) → ℕ → ℕ → Option ℕ → Type 0
Chosen groups lo hi none = (g : ℕ) → lo ≤ g → g < hi → groups g ≢ wait
Chosen groups lo hi (some h) =
    (lo ≤ h) × (h < hi) × (groups h ≡ wait) × ((g : ℕ) → lo ≤ g → g < h → groups g ≢ wait)

not-Chosen :
    (groups : ℕ → ℕ) (g hi hi' : ℕ) (o : Option ℕ)
    → hi' ≡ hi
    → groups g ≢ wait
    → Chosen groups (suc g) hi o
    → Chosen groups g hi' o
not-Chosen groups g hi hi' none e other all = λ u lo lt. elim (Bool-cases (g == u)) [
  | inl same ↦ ground (arith, other)
  | inr later ↦ all u (ground arith) (omega arith)
]
not-Chosen groups g hi hi' (some h) e other (lo, lt, waits, all) = (
  omega arith,
  omega arith,
  waits,
  λ u below above. elim (Bool-cases (g == u)) [
    | inl same ↦ ground (arith, other)
    | inr later ↦ all u (ground arith) above
  ],
)

find_waiting_lem :
    (groups : ℕ → ℕ) (g left : ℕ) → Chosen groups g (g + left) (find_waiting groups g left)
unfolding find_waiting
find_waiting_lem groups g zero = λ u lo hi. absurd (omega arith)
find_waiting_lem groups g (suc left) = elim (Bool-cases (groups g == wait)) [
  | inl here ↦ rw here (omega arith, omega arith, ground arith, λ u lo hi. absurd (omega arith))
  | inr other ↦ rw other (
      not-Chosen groups g (suc g + left) _ _ (omega arith) (ground arith)
        (find_waiting_lem groups (suc g) left))
]

-- `decideNextGroup` gives the first group that waits, and -1 only if none waits or the count of
-- the groups that wait is 0.
pub decide_next_group_lem :
    (groups : ℕ → ℕ) (f : FullStat)
    → ((f.groups_waiting ≡ 0) × (decide_next_group groups f ≡ none))
      ⊎ ((0 < f.groups_waiting) × Chosen groups 0 f.n_groups (decide_next_group groups f))
unfolding decide_next_group
decide_next_group_lem groups f = elim (Bool-cases (leb f.groups_waiting 0)) [
  | inl empty ↦ inl (ground arith, rw empty)
  | inr some_wait ↦ inr (
    ground arith,
    rw some_wait (rw (add.zero f.n_groups) at (find_waiting_lem groups 0 f.n_groups)),
  )
]
