-- ===== src/ConfigFile/Texts.antt =====
-- Texts in the form of src/config.txt, and what the program reads from them.
use restaurante_so.Prelude.{
  ℕ, zero, suc, ◌+◌, ◌≤◌, ◌<◌, ◌^◌, ◌≡◌, false, none, some, List, [], ◌∷◌, ◌++◌, refl, ap, subst,
  true, ◌∙◌, ltb, ◌==◌, All, arith, pos, Bool-cases, inl, inr, if-true, if-false, update,
}
use restaurante_so.Problem.{max_groups}
use restaurante_so.Setup.{Config}
use restaurante_so.Logging.{decimal}
use restaurante_so.Clib.{is_space, scan_int, skip_line, skip_spaces}
use restaurante_so.ConfigFile.{
  Times, scan_eat, scan_times, read_times, configured, out_of_bounds, no_times, with_times,
  after_count, read_config,
}
use restaurante_so.ConfigFile.Gaps.{IsGap, skip_spaces-gap, Stops-gap, scan_int-gap}
use restaurante_so.ConfigFile.Counts.{read_times_beyond}

-- A line of comment holds no end of line.
abbrev pub IsLine : List ℕ → Type 0
IsLine = All (λ c. (c == b'\n') ≡ false)

-- What a file in the form of config.txt says: a line of titles, the number of groups, a line of titles
-- that begins with `mark`, and for each group a row of its two times. The gaps between the numbers are
-- free.
pub record Form : Type 0 where
  pub titles : List ℕ
  pub n : ℕ
  pub count_gap : List ℕ
  pub mark : ℕ
  pub columns : List ℕ
  pub start : ℕ → ℕ
  pub between : ℕ → List ℕ
  pub eat : ℕ → ℕ
  pub after : ℕ → List ℕ

-- The rows of the groups from `g` on.
abbrev pub rows : Form → ℕ → ℕ → List ℕ
rows t g zero = []
rows t g (suc left) =
    decimal (t.start g)
    ++ (t.between g ++ (decimal (t.eat g) ++ (t.after g ++ rows t (suc g) left)))

-- From the second line of titles on.
abbrev pub table : Form → List ℕ
table t = t.mark ∷ t.columns ++ b'\n' ∷ rows t 0 t.n

abbrev pub config_text : Form → List ℕ
config_text t = t.titles ++ b'\n' ∷ (decimal t.n ++ (t.count_gap ++ table t))

-- The lines of titles hold no end of line, the second one does not begin with a blank, each number is
-- followed by a gap, and the numbers are in the range of `int`.
pub record IsWritten (t : Form) : Type 0 where
  pub titled : IsLine t.titles
  pub count : t.n < 2 ^ 31
  pub count_apart : IsGap t.count_gap
  pub marked : is_space t.mark ≡ false
  pub lined : IsLine t.columns
  pub starts : (g : ℕ) → g < t.n → t.start g < 2 ^ 31
  pub apart : (g : ℕ) → g < t.n → IsGap (t.between g)
  pub eats : (g : ℕ) → g < t.n → t.eat g < 2 ^ 31
  pub ended : (g : ℕ) → g < t.n → IsGap (t.after g)

newline-IsGap : IsGap (b'\n' ∷ [])
unfolding is_space
newline-IsGap = (refl, tt)

module _ (t : Form) (w : IsWritten t) where
  -- The rows of the groups from `g` on have been read.
  pub record Filled (g left : ℕ) (old new : Times) : Type 0 where
    pub read :
        (h : ℕ)
        → g ≤ h
        → h < g + left
        → (new.start h ≡ pos (t.start h)) × (new.eat h ≡ pos (t.eat h))
    pub kept : (h : ℕ) → h < g → (new.start h ≡ old.start h) × (new.eat h ≡ old.eat h)

  abbrev one_row : ℕ → Times → Times
  one_row g times = record {
    start = update times.start g (pos (t.start g));
    eat = update times.eat g (pos (t.eat g));
  }

  -- The entries up to `g` after the row of `g`, if the rows that follow keep them.
  one_row_lem :
      (g : ℕ) (times new : Times)
      → (new.start g ≡ (one_row g times).start g) × (new.eat g ≡ (one_row g times).eat g)
      → (new.start g ≡ pos (t.start g)) × (new.eat g ≡ pos (t.eat g))
  one_row_lem g times new same = ground (arith, same)

  read_row :
      (g left : ℕ) (times : Times) (gap : List ℕ)
      → g < t.n
      → IsGap gap
      → scan_times g times (scan_int (gap ++ rows t g (suc left)))
        ≡ (one_row g times, t.after g ++ rows t (suc g) left)
  unfolding scan_times scan_eat
  read_row g left times gap lt a =
      let later = t.after g ++ rows t (suc g) left in
      let ends = Stops-gap (t.after g) (rows t (suc g) left) (w.ended g lt) in
      let between = Stops-gap (t.between g) (decimal (t.eat g) ++ later) (w.apart g lt) in
      ap (scan_times g times) (
        scan_int-gap gap (t.start g) (t.between g ++ (decimal (t.eat g) ++ later)) a (w.starts g lt)
          between)
      ∙ ap (scan_eat g (record times { start = update times.start g (pos (t.start g)) }))
          (scan_int-gap (t.between g) (t.eat g) later (w.apart g lt) (w.eats g lt) ends)

  read_rows :
      (left g : ℕ) (times : Times) (gap : List ℕ)
      → g + left ≤ max_groups
      → g + left ≡ t.n
      → IsGap gap
      → (new : Times) × (read_times left g times (gap ++ rows t g left) ≡ some new)
        × Filled g left times new
  unfolding read_times
  read_rows zero g times gap le all a = (
    times,
    refl,
    record { read = λ h le lt. absurd (omega (arith, le, lt)); kept = λ h lt. (refl, refl) },
  )
  read_rows (suc left) g times gap le all a =
      let lt : g < t.n = omega (arith, all) in
      let (new, e, filled) =
        read_rows left (suc g) (one_row g times) (t.after g) (omega (arith, le))
          (omega (arith, all)) (w.ended g lt) in
      let fits : ltb g max_groups ≡ true = ground (arith, le) in
      (
        new,
        if-true none fits
            ∙ ap (λ r. read_times left (suc g) r.0 r.1) (read_row g left times gap lt a)
            ∙ e,
        record {
          read = λ h from to. elim (Bool-cases (g == h)) [
            | inl same ↦
                subst (λ i. (new.start i ≡ pos (t.start i)) × (new.eat i ≡ pos (t.eat i)))
                  (ground arith) (one_row_lem g times new (filled.kept g (omega arith)))
            | inr other ↦ filled.read h (ground arith) (omega (arith, to))
          ];
          kept = λ h lt.
              let same = filled.kept h (omega (arith, lt)) in
              let other : (g == h) ≡ false = ground (arith, lt) in
              (same.0 ∙ if-false _ other, same.1 ∙ if-false _ other);
        },
      )

skip_line_lem : (line rest : List ℕ) → IsLine line → skip_line (line ++ b'\n' ∷ rest) ≡ b'\n' ∷ rest
unfolding skip_line
skip_line_lem [] rest all = refl
skip_line_lem (c ∷ line) rest (other, all) = if-false _ other ∙ skip_line_lem line rest all

no_newline : (c : ℕ) → is_space c ≡ false → (c == b'\n') ≡ false
unfolding is_space
no_newline c e = ground (arith, e)

-- A text in the form of config.txt is read as what it says, if it has at most MAXGROUPS groups; with
-- more the arrays of the shared memory are left. The form has two lines of titles, of which the second
-- does not begin with a blank, and decimal numbers from 0 to 2 ^ 31 - 1 with blanks behind each.
pub read_config-config_text :
    (t : Form)
    → IsWritten t
    → (t.n ≤ max_groups
        → (c : Config) × (read_config (config_text t) ≡ configured c)
          × (c.n_groups ≡ t.n)
          × ((g : ℕ)
              → g < t.n
              → (c.start_time g ≡ pos (t.start g)) × (c.eat_time g ≡ pos (t.eat g))))
      × (max_groups < t.n → read_config (config_text t) ≡ out_of_bounds)
unfolding read_config after_count skip_spaces
read_config-config_text t w = (
  λ few.
      let (times, e, filled) =
        read_rows t w t.n 0 no_times (b'\n' ∷ []) (omega (arith, few)) (omega arith)
          newline-IsGap in
      (
        record { n_groups = t.n; start_time = times.start; eat_time = times.eat },
        counted ∙ ap (with_times t.n) e,
        refl,
        λ g lt. filled.read g (omega arith) (omega (arith, lt)),
      ),
  λ many.
      counted
      ∙ ap (with_times t.n)
          (read_times_beyond t.n 0 no_times _ (omega arith) (omega (arith, many))),
)
  where
    to_rows : skip_line (skip_spaces (t.count_gap ++ table t)) ≡ b'\n' ∷ rows t 0 t.n
    to_rows =
        ap skip_line (skip_spaces-gap t.count_gap (table t) w.count_apart ∙ if-false _ w.marked)
        ∙ skip_line_lem (t.mark ∷ t.columns) (rows t 0 t.n) (no_newline t.mark w.marked, w.lined)

    counted :
        read_config (config_text t)
        ≡ with_times t.n (read_times t.n 0 no_times (b'\n' ∷ rows t 0 t.n))
    counted =
        ap (λ u. after_count (scan_int u)) (skip_line_lem t.titles _ w.titled)
        ∙ ap after_count (
            scan_int-gap (b'\n' ∷ []) t.n (t.count_gap ++ table t) newline-IsGap w.count
              (Stops-gap t.count_gap (table t) w.count_apart))
        ∙ ap (λ u. with_times t.n (read_times t.n 0 no_times u)) to_rows
