-- ===== src/History/Log.antt =====
-- What the log of every reachable state holds, and that it can be read back.
use restaurante_so.Prelude.{
  ℕ, suc, zero, ◌≤◌, ◌≡◌, refl, sym, subst, ap, ◌∙◌, List, [], ◌∷◌, ◌++◌, append_assoc, append-nil,
  length, All, All-append, arith,
}
use restaurante_so.Problem.{FullStat, max_groups}
use restaurante_so.Logging.{state_line, create_log, header_line}
use restaurante_so.Logging.Widths.{Fits, state_line-aligned}
use restaurante_so.Logging.Reading.{Row, row_of, read_row, read_row-state_line}
use restaurante_so.Setup.{Config, initial_status, created}
use restaurante_so.System.{System, Reach}
use restaurante_so.History.Rows.{History, opening, next_row, RowRight, Fits-of_RowRight}
use restaurante_so.History.Reached.{Reach-Told}

-- The log is its header and a row for each status that was shown: each row follows from the row
-- before by one status of one process, and shows a right state of the seats; the last row has the
-- present status of each process.
pub log_tells :
    {c : Config} {k : ℕ} {s : System}
    → Reach c k s
    → (last : FullStat) × History c last s.shared.log × (last.st ≡ s.shared.f_st.st)
log_tells r = let a = Reach-Told r in (a.last, a.history, a.current)

-- The text of some rows, and as many rows as `count` says, read one after the other.
abbrev pub lines : List FullStat → List ℕ
lines [] = []
lines (f ∷ fs) = state_line f ++ lines fs

abbrev pub read_rows : ℕ → ℕ → List ℕ → List Row × List ℕ
read_rows n zero text = ([], text)
read_rows n (suc count) text =
    let (row, rest) = read_row n text in
    let (rows, last) = read_rows n count rest in (row ∷ rows, last)

abbrev pub rows_of : List FullStat → List Row
rows_of [] = []
rows_of (f ∷ fs) = row_of f ∷ rows_of fs

lines-append : (fs gs : List FullStat) → lines (fs ++ gs) ≡ lines fs ++ lines gs
lines-append [] gs = refl
lines-append (f ∷ fs) gs =
    ap (λ t. state_line f ++ t) (lines-append fs gs)
    ∙ sym (append_assoc (state_line f) (lines fs) (lines gs))

-- A state whose row is as long as the header of `n` groups.
pub record Aligned (n : ℕ) (f : FullStat) : Type 0 where
  pub same_groups : f.n_groups ≡ n
  pub fits : Fits f
  pub as_long : length (state_line f) ≡ length (header_line n)

read_rows-lines :
    (n : ℕ) (fs : List FullStat)
    → All (Aligned n) fs
    → read_rows n (length fs) (lines fs) ≡ (rows_of fs, [])
read_rows-lines n [] all = refl
read_rows-lines n (f ∷ fs) (a, all) = rw (first_row, read_rows-lines n fs all)
  where
    first_row : read_row n (state_line f ++ lines fs) ≡ (row_of f, lines fs)
    first_row =
        subst (λ m. read_row m (state_line f ++ lines fs) ≡ (row_of f, lines fs)) a.same_groups
          (read_row-state_line f (lines fs) a.fits)

module _ (c : Config) (few : c.n_groups ≤ max_groups) where
  Aligned-of_RowRight : {f : FullStat} → RowRight c.n_groups f → Aligned c.n_groups f
  Aligned-of_RowRight {f} a = record {
    same_groups = a.same_groups;
    fits = Fits-of_RowRight few a;
    as_long =
        state_line-aligned f (omega (arith, a.same_groups, few)) (Fits-of_RowRight few a)
        ∙ ap (λ n. length (header_line n)) a.same_groups;
  }

  initial_right : RowRight c.n_groups (initial_status c)
  unfolding initial_status
  initial_right = record {
    same_groups = refl;
    statuses = omega arith;
    seats = record {
      counted = omega arith;
      tables = λ g t lt e. ground (arith, e);
      exclusive = λ g h t lg lh e k. cc;
    };
  }

  rows_of_History :
      {f : FullStat} {log : List ℕ}
      → History c f log
      → (fs : List FullStat) × (log ≡ create_log (initial_status c) ++ lines fs)
        × All (Aligned c.n_groups) fs
  unfolding created
  rows_of_History (opening log e) = (
    initial_status c ∷ [],
    e
        ∙ ap (λ t. create_log (initial_status c) ++ t)
            (sym (append-nil (state_line (initial_status c)))),
    (Aligned-of_RowRight initial_right, tt),
  )
  rows_of_History (next_row g longer h shows right e) =
      let (fs, text, all) = rows_of_History h in
      (
        fs ++ g ∷ [],
        e
            ∙ ap (λ t. t ++ state_line g) text
            ∙ append_assoc (create_log (initial_status c)) (lines fs) (state_line g)
            ∙ ap (λ t. create_log (initial_status c) ++ t)
                (ap (λ t. lines fs ++ t) (sym (append-nil (state_line g)))
                  ∙ sym (lines-append fs (g ∷ []))),
        All-append (Aligned c.n_groups) fs (g ∷ []) all (Aligned-of_RowRight right, tt),
      )

-- With at most MAXGROUPS groups the log is its header and rows that are all as long as the line of
-- titles, and reading the rows gives back what each of them shows.
pub log_reads_back :
    {c : Config} {k : ℕ} {s : System}
    → Reach c k s
    → c.n_groups ≤ max_groups
    → (fs : List FullStat) × (s.shared.log ≡ create_log (initial_status c) ++ lines fs)
      × All (Aligned c.n_groups) fs
      × (read_rows c.n_groups (length fs) (lines fs) ≡ (rows_of fs, []))
log_reads_back {c} r few =
    let (fs, text, all) = rows_of_History c few (Reach-Told r).history in
    (fs, text, all, read_rows-lines c.n_groups fs all)
