-- ===== src/ConfigFile/Counts.antt =====
-- The number of groups that is read from config.txt, against MAXGROUPS.
use native.Mathlib.Decide.{dec_lt}
use restaurante_so.Prelude.{
  negsuc, ℕ, zero, suc, ◌+◌, ◌≤◌, ◌<◌, ◌≡◌, Option, none, some, List, ◌∙◌, ltb, arith, ℤ, pos,
  Bool-cases, inl, inr, if-true, if-false,
}
use restaurante_so.Problem.{max_groups}
use restaurante_so.Setup.{Config}
use restaurante_so.Clib.{scan_int, skip_line}
use restaurante_so.ConfigFile.{
  Times, read_times, configured, no_times, with_times, after_count, read_config,
}

-- A number of groups above MAXGROUPS is read, and then the rows go out of the arrays.
pub read_times_beyond :
    (left g : ℕ) (times : Times) (text : List ℕ)
    → g ≤ max_groups
    → max_groups < g + left
    → read_times left g times text ≡ none
unfolding read_times
read_times_beyond zero g times text le beyond = absurd (omega arith)
read_times_beyond (suc left) g times text le beyond = elim (Bool-cases (ltb g max_groups)) [
  | inl more ↦
      if-true none more ∙ read_times_beyond left (suc g) _ _ (ground arith) (omega (arith, beyond))
  | inr last ↦ if-false _ last
]

-- A number of groups that was read is at most MAXGROUPS.
with_times-le :
    (n : ℕ) (o : Option Times) (c : Config)
    → (max_groups < n → o ≡ none)
    → with_times n o ≡ configured c
    → c.n_groups ≤ max_groups
unfolding with_times
with_times-le n none c beyond e = ground (arith, e)
with_times-le n (some times) c beyond e = elim (dec_lt max_groups n) [
  | yes many ↦ absurd (ground (arith, beyond many))
  | no few ↦ ground (arith, few, e)
]

counted-le :
    (o : Option ℤ × List ℕ) (c : Config) → after_count o ≡ configured c → c.n_groups ≤ max_groups
unfolding after_count
counted-le (none, rest) c e =
    with_times-le 0 (some no_times) c (λ many. absurd (omega (arith, many))) e
counted-le (some (pos n), rest) c e =
    with_times-le n _ c
      (λ many. read_times_beyond n 0 no_times _ (omega arith) (omega (arith, many))) e
counted-le (some (negsuc n), rest) c e = ground (arith, e)

pub configured-le :
    (text : List ℕ) (c : Config) → read_config text ≡ configured c → c.n_groups ≤ max_groups
unfolding read_config
configured-le text c e = counted-le (scan_int (skip_line text)) c e
