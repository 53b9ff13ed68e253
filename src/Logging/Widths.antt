-- ===== src/Logging/Widths.antt =====
-- The widths of what src/logging.c writes: the rows of states stand under the header.
use restaurante_so.Prelude.{
  ℕ, zero, suc, ◌+◌, ◌-◌, ◌*◌, ◌/◌, ◌%◌, ◌≤◌, ◌<◌, ◌≡◌, Option, none, some, List, [], ◌∷◌, ◌++◌,
  inl, inr, ltb, Bool-cases, refl, sym, ◌∙◌, arith, length, replicate, length-append,
  length-replicate,
}
use restaurante_so.Problem.{FullStat}
use restaurante_so.Logging.{
  decimal_from, decimal, pad, zero_pad, columns_from, columns, table_text, state_line, header_cell,
  header_line,
}

-- The power of ten with `k` zeros.
abbrev pub ten_to : ℕ → ℕ
ten_to zero = 1
ten_to (suc k) = 10 * ten_to k

-- A number below 10 ^ (k + 1) has at most `k + 1` digits.
length-decimal_from : (fuel n k : ℕ) → n < ten_to (suc k) → length (decimal_from fuel n) ≤ suc k
unfolding decimal_from
length-decimal_from zero n k lt = omega arith
length-decimal_from (suc fuel) n zero lt = ground arith
length-decimal_from (suc fuel) n (suc k) lt = elim (Bool-cases (ltb n 10)) [
  | inl short ↦ rw short (omega arith)
  | inr long ↦ rw long (
      omega (
        arith,
        length-append (decimal_from fuel (n / 10)) ((b'0' + n % 10) ∷ []),
        length-decimal_from fuel (n / 10) k (omega arith),
      ))
]

pub length-decimal : (n k : ℕ) → n < ten_to (suc k) → length (decimal n) ≤ suc k
unfolding decimal
length-decimal n k lt = length-decimal_from n n k lt

pub length-pad : (width : ℕ) (text : List ℕ) → length text ≤ width → length (pad width text) ≡ width
unfolding pad
length-pad width text le = omega (
  arith,
  length-append (replicate (width - length text) b' ') text,
  length-replicate {A = ℕ} (width - length text) b' ',
)

length-zero_pad :
    (width : ℕ) (text : List ℕ) → length text ≤ width → length (zero_pad width text) ≡ width
unfolding zero_pad
length-zero_pad width text le = omega (
  arith,
  length-append (replicate (width - length text) b'0') text,
  length-replicate {A = ℕ} (width - length text) b'0',
)

length-columns_from :
    (field : ℕ → List ℕ) (n g left : ℕ)
    → ((h : ℕ) → h < n → length (field h) ≡ 4)
    → g + left ≤ n
    → length (columns_from field g left) ≡ 4 * left
unfolding columns_from
length-columns_from field n g zero w le = refl
length-columns_from field n g (suc left) w le = omega (
  arith,
  length-append (field g) (columns_from field (suc g) left),
  w g (omega arith),
  length-columns_from field n (suc g) left w (omega arith),
)

length-columns :
    (field : ℕ → List ℕ) (n : ℕ)
    → ((h : ℕ) → h < n → length (field h) ≡ 4)
    → length (columns field n) ≡ 4 * n
unfolding columns
length-columns field n w = length-columns_from field n 0 n w (omega arith)

length-header_cell : (letter g : ℕ) → g < 100 → length (header_cell letter g) ≡ 4
unfolding header_cell
length-header_cell letter g lt =
    omega (arith, length-zero_pad 2 (decimal g) (length-decimal g 1 lt))

length-table_text : (t : Option ℕ) → ((u : ℕ) → t ≡ some u → u < 10000) → length (table_text t) ≡ 4
unfolding table_text
length-table_text none small = length-pad 4 (b'.' ∷ []) (omega arith)
length-table_text (some t) small = length-pad 4 (decimal t) (length-decimal t 3 (small t refl))

-- The numbers of a state fit in their fields.
pub record Fits (f : FullStat) : Type 0 where
  pub chef : f.st.chef_stat < 1000
  pub waiter : f.st.waiter_stat < 1000
  pub receptionist : f.st.receptionist_stat < 1000
  pub groups : (g : ℕ) → g < f.n_groups → f.st.group_stat g < 10000
  pub waiting : f.groups_waiting < 100000
  pub tables : (g : ℕ) → g < f.n_groups → (t : ℕ) → f.assigned_table g ≡ some t → t < 10000

-- The parts of a line, put together.
length-line :
    (a b c : List ℕ) (groups count tables : List ℕ)
    → length (a ++ (b ++ (c ++ (b' ' ∷ [] ++ (groups ++ (count ++ (tables ++ b'\n' ∷ [])))))))
      ≡ length a + length b + length c + length groups + length count + length tables + 2
length-line a b c groups count tables = omega (
  arith,
  length-append a (b ++ (c ++ (b' ' ∷ [] ++ (groups ++ (count ++ (tables ++ b'\n' ∷ [])))))),
  length-append b (c ++ (b' ' ∷ [] ++ (groups ++ (count ++ (tables ++ b'\n' ∷ []))))),
  length-append c (b' ' ∷ [] ++ (groups ++ (count ++ (tables ++ b'\n' ∷ [])))),
  length-append groups (count ++ (tables ++ b'\n' ∷ [])),
  length-append count (tables ++ b'\n' ∷ []),
  length-append tables (b'\n' ∷ []),
)

length-header_line : (n : ℕ) → n ≤ 100 → length (header_line n) ≡ 16 + 8 * n
unfolding header_line
length-header_line n le = omega (
  arith,
  length-line (pad 3 (b'C' ∷ b'H' ∷ [])) (pad 3 (b'W' ∷ b'T' ∷ [])) (pad 3 (b'R' ∷ b'C' ∷ []))
      (columns (header_cell b'G') n) (pad 5 (b'g' ∷ b'W' ∷ b'T' ∷ []))
      (columns (header_cell b'T') n),
  length-pad 3 (b'C' ∷ b'H' ∷ []) (omega arith),
  length-pad 3 (b'W' ∷ b'T' ∷ []) (omega arith),
  length-pad 3 (b'R' ∷ b'C' ∷ []) (omega arith),
  length-pad 5 (b'g' ∷ b'W' ∷ b'T' ∷ []) (omega arith),
  length-columns (header_cell b'G') n (λ g lt. length-header_cell b'G' g (omega arith)),
  length-columns (header_cell b'T') n (λ g lt. length-header_cell b'T' g (omega arith)),
)

length-state_line : (f : FullStat) → Fits f → length (state_line f) ≡ 16 + 8 * f.n_groups
unfolding state_line
length-state_line f ok = omega (
  arith,
  length-line (pad 3 (decimal f.st.chef_stat)) (pad 3 (decimal f.st.waiter_stat))
      (pad 3 (decimal f.st.receptionist_stat))
      (columns (λ g. pad 4 (decimal (f.st.group_stat g))) f.n_groups)
      (pad 5 (decimal f.groups_waiting))
      (columns (λ g. table_text (f.assigned_table g)) f.n_groups),
  length-pad 3 _ (length-decimal f.st.chef_stat 2 ok.chef),
  length-pad 3 _ (length-decimal f.st.waiter_stat 2 ok.waiter),
  length-pad 3 _ (length-decimal f.st.receptionist_stat 2 ok.receptionist),
  length-pad 5 _ (length-decimal f.groups_waiting 4 ok.waiting),
  length-columns (λ g. pad 4 (decimal (f.st.group_stat g))) f.n_groups
      (λ g lt. length-pad 4 _ (length-decimal (f.st.group_stat g) 3 (ok.groups g lt))),
  length-columns (λ g. table_text (f.assigned_table g)) f.n_groups
      (λ g lt. length-table_text (f.assigned_table g) (ok.tables g lt)),
)

-- With at most 100 groups, and numbers that fit in their fields, a row that `saveState` writes is as
-- long as the header that `createLog` writes.
pub state_line-aligned :
    (f : FullStat)
    → f.n_groups ≤ 100
    → Fits f
    → length (state_line f) ≡ length (header_line f.n_groups)
state_line-aligned f le ok = length-state_line f ok ∙ sym (length-header_line f.n_groups le)
