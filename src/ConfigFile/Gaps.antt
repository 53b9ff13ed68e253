-- ===== src/ConfigFile/Gaps.antt =====
-- Numbers between gaps, as `fscanf` reads them from config.txt.
use restaurante_so.Prelude.{
  ℕ, ◌<◌, ◌^◌, ◌≡◌, false, some, List, [], ◌∷◌, ◌++◌, ap, true, ◌∙◌, ltb, All, arith, pos, if-true,
}
use restaurante_so.Logging.{decimal}
use restaurante_so.Clib.{
  is_space, digit, scan_number, scan_signed, scan_int, skip_spaces, with_rest,
}
use restaurante_so.Clib.Numbers.{Stops, scan_int-decimal}

-- Blanks, at least one of them. An end of line is a blank too.
abbrev pub IsGap : List ℕ → Type 0
IsGap [] = ⊥
IsGap (c ∷ s) = (is_space c ≡ true) × All (λ d. is_space d ≡ true) s

pub skip_spaces-gap : (gap text : List ℕ) → IsGap gap → skip_spaces (gap ++ text) ≡ skip_spaces text
unfolding skip_spaces
skip_spaces-gap [] text a = absurd a
skip_spaces-gap (c ∷ []) text (here, more) = if-true _ here
skip_spaces-gap (c ∷ d ∷ gap) text (here, more) =
    if-true _ here ∙ skip_spaces-gap (d ∷ gap) text more

Stops-space : (c : ℕ) → is_space c ≡ true → ltb (digit c) 10 ≡ false
unfolding is_space digit
Stops-space c e = ground (arith, e)

pub Stops-gap : (gap text : List ℕ) → IsGap gap → Stops (gap ++ text)
Stops-gap [] text a = absurd a
Stops-gap (c ∷ gap) text (here, more) = Stops-space c here

-- A number between gaps.
pub scan_int-gap :
    (gap : List ℕ) (n : ℕ) (rest : List ℕ)
    → IsGap gap
    → n < 2 ^ 31
    → Stops rest
    → scan_int (gap ++ (decimal n ++ rest)) ≡ (some (pos n), rest)
unfolding scan_int
scan_int-gap gap n rest a small stops =
    ap (λ t. with_rest t (scan_signed (scan_number 10) t))
      (skip_spaces-gap gap (decimal n ++ rest) a)
    ∙ scan_int-decimal n rest small stops
