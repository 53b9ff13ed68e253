-- ===== src/Logging/Reading.antt =====
-- A reader of the log by the columns that `printHeader` of src/logging.c names: a row shows the states
-- of the processes, the number of waiting groups and the table of each group.
use restaurante_so.Prelude.{
  ℕ, zero, suc, ◌+◌, ◌-◌, ◌*◌, ◌≤◌, ◌<◌, ◌≡◌, Option, none, some, List, [], ◌∷◌, ◌++◌, ◌==◌,
  if◌then◌else◌, refl, ap, ◌∙◌, arith, suc-add, length, replicate, All, append_assoc,
}
use restaurante_so.Problem.{FullStat}
use restaurante_so.Logging.{decimal, pad, columns_from, columns, table_text, state_line}
use restaurante_so.Logging.Digits.{IsDigit, value, value-decimal, All-decimal}
use restaurante_so.Logging.Widths.{Fits, length-decimal}

-- A field is a number, or a dot. Blanks before the number count for nothing.
pub read_char : Option ℕ → ℕ → Option ℕ
read_char none c = none
read_char (some v) c =
    if c == b'.' then none else if c == b' ' then some v else some (v * 10 + (c - b'0'))

-- The next `width` characters as one field, and the rest.
pub read_field : ℕ → Option ℕ → List ℕ → Option ℕ × List ℕ
read_field zero acc text = (acc, text)
read_field (suc width) acc [] = (acc, [])
read_field (suc width) acc (c ∷ text) = read_field width (read_char acc c) text

-- `left` fields of four characters.
pub read_fields : ℕ → List ℕ → List (Option ℕ) × List ℕ
read_fields zero text = ([], text)
read_fields (suc left) text =
    let (v, rest) = read_field 4 (some 0) text in
    let (vs, last) = read_fields left rest in (v ∷ vs, last)

-- What a row shows.
pub record Row : Type 0 where
  pub chef : Option ℕ
  pub waiter : Option ℕ
  pub receptionist : Option ℕ
  pub groups : List (Option ℕ)
  pub waiting : Option ℕ
  pub tables : List (Option ℕ)

-- A row of `n` groups, with the rest after its end of line.
pub read_row : ℕ → List ℕ → Row × List ℕ
read_row n text =
    let (chef, a) = read_field 3 (some 0) text in
    let (waiter, b) = read_field 3 (some 0) a in
    let (receptionist, c) = read_field 3 (some 0) b in
    let (groups, d) = read_fields n (read_field 1 none c).1 in
    let (waiting, e) = read_field 5 (some 0) d in
    let (tables, f) = read_fields n e in
    (
      record {
        chef = chef;
        waiter = waiter;
        receptionist = receptionist;
        groups = groups;
        waiting = waiting;
        tables = tables;
      },
      (read_field 1 none f).1,
    )

-- The values of `field` at g, g + 1, ...
pub entries {ℓ} : {A : Type ℓ} → (ℕ → A) → ℕ → ℕ → List A
entries field g zero = []
entries field g (suc left) = field g ∷ entries field (suc g) left

-- What a state shows in its row.
pub row_of : FullStat → Row
row_of f = record {
  chef = some f.st.chef_stat;
  waiter = some f.st.waiter_stat;
  receptionist = some f.st.receptionist_stat;
  groups = entries (λ g. some (f.st.group_stat g)) 0 f.n_groups;
  waiting = some f.groups_waiting;
  tables = entries f.assigned_table 0 f.n_groups;
}

read_blanks :
    (k w v : ℕ) (text : List ℕ)
    → read_field (k + w) (some v) (replicate k b' ' ++ text) ≡ read_field w (some v) text
unfolding read_field read_char
read_blanks zero w v text = ap (λ k. read_field k (some v) text) (omega arith)
read_blanks (suc k) w v text =
    ap (λ j. read_field j (some v) (b' ' ∷ replicate k b' ' ++ text)) (suc-add k w)
    ∙ read_blanks k w v text

read_digits :
    (digits : List ℕ) (v : ℕ) (rest : List ℕ)
    → All IsDigit digits
    → read_field (length digits) (some v) (digits ++ rest) ≡ (some (value v digits), rest)
unfolding read_field read_char value
read_digits [] v rest all = refl
read_digits (c ∷ s) v rest (d, all) = ground (arith, read_digits s (v * 10 + (c - b'0')) rest all)

pub read_number :
    (w n : ℕ) (rest : List ℕ)
    → length (decimal n) ≤ w
    → read_field w (some 0) (pad w (decimal n) ++ rest) ≡ (some n, rest)
unfolding pad
read_number w n rest le =
    ap (read_field w (some 0)) (append_assoc (replicate k b' ') (decimal n) rest)
    ∙ ap (λ j. read_field j (some 0) (replicate k b' ' ++ (decimal n ++ rest))) (omega (arith, le))
    ∙ read_blanks k (length (decimal n)) 0 (decimal n ++ rest)
    ∙ read_digits (decimal n) 0 rest (All-decimal n)
    ∙ ap (λ v. (some v, rest)) (value-decimal n)
  where
    k : ℕ
    k = w - length (decimal n)

read_table :
    (t : Option ℕ) (rest : List ℕ)
    → ((u : ℕ) → t ≡ some u → u < 10000)
    → read_field 4 (some 0) (table_text t ++ rest) ≡ (t, rest)
unfolding table_text pad read_field read_char
read_table none rest small = refl
read_table (some t) rest small = read_number 4 t rest (length-decimal t 3 (small t refl))

read_columns :
    (field : ℕ → List ℕ) (shown : ℕ → Option ℕ) (n g left : ℕ) (rest : List ℕ)
    → ((h : ℕ) (more : List ℕ) → h < n → read_field 4 (some 0) (field h ++ more) ≡ (shown h, more))
    → g + left ≤ n
    → read_fields left (columns_from field g left ++ rest) ≡ (entries shown g left, rest)
unfolding read_fields columns_from entries
read_columns field shown n g zero rest reads le = refl
read_columns field shown n g (suc left) rest reads le = rw (
  append_assoc (field g) (columns_from field (suc g) left) rest,
  reads g (columns_from field (suc g) left ++ rest) (omega arith),
  read_columns field shown n (suc g) left rest reads (omega arith),
)

-- The parts of a row, where each is read back.
read_parts :
    (n : ℕ) (a b c groups count tables rest : List ℕ) {va vb vc vw : Option ℕ}
    {vs ts : List (Option ℕ)}
    → ((more : List ℕ) → read_field 3 (some 0) (a ++ more) ≡ (va, more))
    → ((more : List ℕ) → read_field 3 (some 0) (b ++ more) ≡ (vb, more))
    → ((more : List ℕ) → read_field 3 (some 0) (c ++ more) ≡ (vc, more))
    → ((more : List ℕ) → read_fields n (groups ++ more) ≡ (vs, more))
    → ((more : List ℕ) → read_field 5 (some 0) (count ++ more) ≡ (vw, more))
    → ((more : List ℕ) → read_fields n (tables ++ more) ≡ (ts, more))
    → read_row n
        ((a ++ (b ++ (c ++ (b' ' ∷ [] ++ (groups ++ (count ++ (tables ++ b'\n' ∷ []))))))) ++ rest)
      ≡ (
        record {
          chef = va;
          waiter = vb;
          receptionist = vc;
          groups = vs;
          waiting = vw;
          tables = ts;
        },
        rest,
      )
unfolding read_row
read_parts n a b c groups count tables rest ra rb rc rg rw_count rt =
    simp (append_assoc, ra, rb, rc, rg, rw_count, rt, one_char)
  where
    one_char : (c : ℕ) (more : List ℕ) → (read_field 1 none (c ∷ more)).1 ≡ more
    one_char c more = unfold read_field in refl

-- If the numbers of a state fit in their fields, the row that saveState writes is read back as what
-- the state shows, whatever follows it.
pub read_row-state_line :
    (f : FullStat) (rest : List ℕ)
    → Fits f
    → read_row f.n_groups (state_line f ++ rest) ≡ (row_of f, rest)
unfolding state_line row_of columns
read_row-state_line f rest ok =
    read_parts f.n_groups _ _ _ _ _ _ rest
      (λ more. read_number 3 f.st.chef_stat more (length-decimal f.st.chef_stat 2 ok.chef))
      (λ more. read_number 3 f.st.waiter_stat more (length-decimal f.st.waiter_stat 2 ok.waiter))
      (λ more.
        read_number 3 f.st.receptionist_stat more
          (length-decimal f.st.receptionist_stat 2 ok.receptionist))
      (λ more.
        read_columns (λ g. pad 4 (decimal (f.st.group_stat g))) (λ g. some (f.st.group_stat g))
          f.n_groups 0 f.n_groups more
          (λ h next lt.
            read_number 4 (f.st.group_stat h) next
              (length-decimal (f.st.group_stat h) 3 (ok.groups h lt)))
          (omega arith))
      (λ more. read_number 5 f.groups_waiting more (length-decimal f.groups_waiting 4 ok.waiting))
      (λ more.
        read_columns (λ g. table_text (f.assigned_table g)) f.assigned_table f.n_groups 0 f.n_groups
          more (λ h next lt. read_table (f.assigned_table h) next (ok.tables h lt)) (omega arith))
