-- ===== src/Seats/Book.antt =====
-- What the receptionist's book must say, and the changes that it makes.
use restaurante_so.Prelude.{
  ℕ, ◌+◌, ◌-◌, ◌<◌, ◌≡◌, ◌≢◌, ◌⊎◌, inl, inr, Option, none, some, refl, update, total, total-update,
  total-zero, arith, ◌==◌, Bool-cases, if◌then◌else◌,
}
use restaurante_so.Problem.{num_tables}
use restaurante_so.Receptionist.Seating.{wait, at_table, settled}
use restaurante_so.Receptionist.Seating.Decisions.{IsHeld, IsFree}

-- 1 for a group that is recorded as waiting
abbrev pub waits : ℕ → ℕ
waits v = if v == wait then 1 else 0

-- `assigned` and `waiting` are `assignedTable` and `groupsWaiting`, `groups` is `groupRecord`. While
-- the receptionist hands a table over, `carried` is that table and `pending` is 1.
pub record Book (n : ℕ) (assigned : ℕ → Option ℕ) (waiting : ℕ) (groups : ℕ → ℕ)
    (carried : Option ℕ) (pending : ℕ) : Type 0 where
  pub exclusive : (g h t : ℕ) → g < n → h < n → assigned g ≡ some t → assigned h ≡ some t → g ≡ h
  pub promised : (g t : ℕ) → g < n → carried ≡ some t → assigned g ≢ some t
  pub counted : total waits n groups + pending ≡ waiting
  pub full :
      (t : ℕ) → t < num_tables → 0 < total waits n groups → IsHeld assigned n t ⊎ (carried ≡ some t)

module _ {n : ℕ} {assigned : ℕ → Option ℕ} {waiting : ℕ} {groups : ℕ → ℕ} where
  -- A group that has just come gets a free table.
  pub Book-seat :
      (h t : ℕ)
      → h < n
      → IsFree assigned n t
      → assigned h ≡ none
      → groups h ≡ 0
      → Book n assigned waiting groups none 0
      → Book n (update assigned h (some t)) waiting (update groups h at_table) none 0
  Book-seat h t lt free none_yet new b = record {
    exclusive = λ g k u lg lk eg ek. ground (arith, free g lg, free k lk, b.exclusive g k u lg lk);
    promised = λ g u lg e. cc;
    counted = omega (arith, total-update waits n groups h at_table lt, b.counted, same);
    full = λ u lu pos.
        elim (b.full u lu (omega (arith, total-update waits n groups h at_table lt, same))) [
          | inl (k, lk, e) ↦ inl (k, lk, ground arith)
          | inr e ↦ cc
        ];
  }
    where
      same : waits (groups h) ≡ 0
      same = rw new refl

  -- A group that has just come waits, since all tables are held.
  pub Book-queue :
      (h : ℕ)
      → h < n
      → ((t : ℕ) → t < num_tables → IsHeld assigned n t)
      → groups h ≡ 0
      → Book n assigned waiting groups none 0
      → Book n assigned (waiting + 1) (update groups h wait) none 0
  Book-queue h lt all new b = record {
    exclusive = b.exclusive;
    promised = b.promised;
    counted = omega (arith, total-update waits n groups h wait lt, b.counted, same);
    full = λ u lu pos. inl (all u lu);
  }
    where
      same : waits (groups h) ≡ 0
      same = rw new refl

  -- A group pays and nobody waits.
  pub Book-free :
      (h : ℕ)
      → h < n
      → groups h ≡ 2
      → waiting ≡ 0
      → Book n assigned waiting groups none 0
      → Book n (update assigned h none) waiting (update groups h settled) none 0
  Book-free h lt seated idle b = record {
    exclusive = λ g k u lg lk eg ek. ground (arith, b.exclusive g k u lg lk);
    promised = λ g u lg e. cc;
    counted = omega (arith, total-update waits n groups h settled lt, b.counted, same);
    full = λ u lu pos.
        absurd (omega (arith, total-update waits n groups h settled lt, b.counted, same));
  }
    where
      same : waits (groups h) ≡ 0
      same = rw seated refl

  -- A group pays and the table is handed on to a group that waits.
  pub Book-next :
      (h k t : ℕ)
      → h < n
      → k < n
      → groups h ≡ 2
      → assigned h ≡ some t
      → update groups h settled k ≡ wait
      → Book n assigned waiting groups none 0
      → Book n
          (update assigned h none)
          waiting
          (update (update groups h settled) k at_table)
          (some t)
          1
  Book-next h k t lh lk seated had queued b = record {
    exclusive = λ g j u lg lj eg ej. ground (arith, b.exclusive g j u lg lj);
    promised = λ g u lg e eg. ground (arith, b.exclusive g h u lg lh);
    counted = omega (arith, paid, chosen, b.counted, same, one);
    full = λ u lu pos. elim (b.full u lu (omega (arith, paid, chosen, same, one))) [
      | inl (j, lj, e) ↦ elim (Bool-cases (h == j)) [
        | inl here ↦ inr (ground arith)
        | inr other ↦ inl (j, lj, ground arith)
      ]
      | inr e ↦ cc
    ];
  }
    where
      same : waits (groups h) ≡ 0
      same = rw seated refl

      one : waits (update groups h settled k) ≡ 1
      one = rw queued refl

      paid :
          waits settled + total waits n groups
          ≡ waits (groups h) + total waits n (update groups h settled)
      paid = total-update waits n groups h settled lh

      chosen :
          waits at_table + total waits n (update groups h settled)
          ≡ waits (update groups h settled k)
            + total waits n (update (update groups h settled) k at_table)
      chosen = total-update waits n (update groups h settled) k at_table lk

  -- The table that was carried is written.
  pub Book-hand :
      (k t : ℕ)
      → k < n
      → assigned k ≡ none
      → Book n assigned waiting groups (some t) 1
      → Book n (update assigned k (some t)) (waiting - 1) groups none 0
  Book-hand k t lk none_yet b = record {
    exclusive = λ g j u lg lj eg ej.
        ground (arith, b.promised g t lg refl, b.promised j t lj refl, b.exclusive g j u lg lj);
    promised = λ g u lg e. cc;
    counted = omega (arith, b.counted);
    full = λ u lu pos. elim (b.full u lu pos) [
      | inl (j, lj, e) ↦ inl (j, lj, ground arith)
      | inr e ↦ inl (k, lk, ground arith)
    ];
  }

-- If no group is recorded as waiting, the count is 0.
pub none_waits :
    (n : ℕ) (groups : ℕ → ℕ) → ((g : ℕ) → g < n → groups g ≢ wait) → total waits n groups ≡ 0
none_waits n groups all = total-zero waits n groups (λ g lt. ground (arith, all g lt))
