-- ===== src/Logging.antt =====
-- src/logging.c: the text that the log receives, as character codes.
pub mod Digits
pub mod Widths
pub mod Reading
pub mod File
use restaurante_so.Prelude.{
  ℕ, zero, suc, ◌+◌, ◌-◌, ◌/◌, ◌%◌, Option, none, some, List, [], ◌∷◌, ◌++◌, ltb, if◌then◌else◌,
  length, replicate,
}
use restaurante_so.Problem.{FullStat}

-- The decimal digits that `printf` writes for "%d", most significant first. The number itself is
-- fuel enough, since each round divides it by ten.
unfoldable decimal_from : ℕ → ℕ → List ℕ
decimal_from zero n = (b'0' + n % 10) ∷ []
decimal_from (suc fuel) n =
    let rest = decimal_from fuel (n / 10) ++ (b'0' + n % 10) ∷ [] in
    if ltb n 10 then (b'0' + n) ∷ [] else rest

unfoldable pub decimal : ℕ → List ℕ
unfolding decimal_from
decimal n = decimal_from n n

-- The blanks of a field width: "%4d", "%3s".
unfoldable pub pad : ℕ → List ℕ → List ℕ
pad width text = replicate (width - length text) b' ' ++ text

-- "%02d"
unfoldable pub zero_pad : ℕ → List ℕ → List ℕ
zero_pad width text = replicate (width - length text) b'0' ++ text

-- A loop `for (g = 0; g < n; g++)` that prints a field for each `g`; `left` counts the rounds.
unfoldable pub columns_from : (ℕ → List ℕ) → ℕ → ℕ → List ℕ
columns_from field g zero = []
columns_from field g (suc left) = field g ++ columns_from field (suc g) left

unfoldable pub columns : (ℕ → List ℕ) → ℕ → List ℕ
unfolding columns_from
columns field n = columns_from field 0 n

-- the test of `assignedTable[g] != -1`
unfoldable pub table_text : Option ℕ → List ℕ
unfolding decimal pad
table_text none = pad 4 (b'.' ∷ [])
table_text (some t) = pad 4 (decimal t)

-- what one call of `saveState` writes
unfoldable pub state_line : FullStat → List ℕ
unfolding decimal pad columns table_text
state_line f =
    pad 3 (decimal f.st.chef_stat)
    ++ (pad 3 (decimal f.st.waiter_stat)
        ++ (pad 3 (decimal f.st.receptionist_stat)
            ++ (b' ' ∷ []
                ++ (columns (λ g. pad 4 (decimal (f.st.group_stat g))) f.n_groups
                    ++ (pad 5 (decimal f.groups_waiting)
                        ++ (columns (λ g. table_text (f.assigned_table g)) f.n_groups
                            ++ b'\n' ∷ []))))))

-- " %s%02d"
unfoldable pub header_cell : ℕ → ℕ → List ℕ
unfolding decimal zero_pad
header_cell letter g = b' ' ∷ letter ∷ zero_pad 2 (decimal g)

-- `printHeader`
unfoldable pub header_line : ℕ → List ℕ
unfolding pad columns header_cell
header_line n =
    pad 3 (b'C' ∷ b'H' ∷ [])
    ++ (pad 3 (b'W' ∷ b'T' ∷ [])
        ++ (pad 3 (b'R' ∷ b'C' ∷ [])
            ++ (b' ' ∷ []
                ++ (columns (header_cell b'G') n
                    ++ (pad 5 (b'g' ∷ b'W' ∷ b'T' ∷ [])
                        ++ (columns (header_cell b'T') n ++ b'\n' ∷ []))))))

-- the text of the title line
abbrev title : List ℕ
title =
    b'R' ∷ b'e' ∷ b's' ∷ b't' ∷ b'a' ∷ b'u' ∷ b'r' ∷ b'a' ∷ b'n' ∷ b't' ∷ b' ' ∷ b'-' ∷ b' ' ∷ b'D'
    ∷ b'e' ∷ b's' ∷ b'c' ∷ b'r' ∷ b'i' ∷ b'p' ∷ b't' ∷ b'i' ∷ b'o' ∷ b'n' ∷ b' ' ∷ b'o' ∷ b'f'
    ∷ b' ' ∷ b't' ∷ b'h' ∷ b'e' ∷ b' ' ∷ b'i' ∷ b'n' ∷ b't' ∷ b'e' ∷ b'r' ∷ b'n' ∷ b'a' ∷ b'l'
    ∷ b' ' ∷ b's' ∷ b't' ∷ b'a' ∷ b't' ∷ b'e' ∷ []

-- `createLog`: the title, a blank line and the header
unfoldable pub create_log : FullStat → List ℕ
unfolding header_line
create_log f = replicate 31 b' ' ++ (title ++ (b'\n' ∷ b'\n' ∷ header_line f.n_groups))
