-- ===== src/ConfigFile.antt =====
-- The reading of config.txt in `main` of src/probSemSharedMemRestaurant.c.
pub mod Gaps
pub mod Counts
pub mod Texts
use restaurante_so.Prelude.{
  ℕ, zero, suc, Option, none, some, List, update, ltb, if◌then◌else◌, ℤ, pos, negsuc,
}
use restaurante_so.Problem.{max_groups}
use restaurante_so.Setup.{Config}
use restaurante_so.Clib.{scan_int, skip_line, skip_spaces}

-- The arrays `startTime` and `eatTime`.
pub record Times : Type 0 where
  pub start : ℕ → ℤ
  pub eat : ℕ → ℤ

-- `fscanf (fp, "%d %d", &startTime[g], &eatTime[g])`: a conversion that fails leaves its variable, and
-- the second one is tried only after the first.
unfoldable pub scan_eat : ℕ → Times → Option ℤ × List ℕ → Times × List ℕ
scan_eat g times (none, rest) = (times, rest)
scan_eat g times (some v, rest) = (record times { eat = update times.eat g v }, rest)

unfoldable pub scan_times : ℕ → Times → Option ℤ × List ℕ → Times × List ℕ
unfolding scan_eat scan_int
scan_times g times (none, rest) = (times, rest)
scan_times g times (some v, rest) =
    scan_eat g (record times { start = update times.start g v }) (scan_int rest)

-- The loop over the groups; `left` counts its rounds. `none` is a round that takes the address of an
-- entry from MAXGROUPS on.
unfoldable pub read_times : ℕ → ℕ → Times → List ℕ → Option Times
unfolding scan_times scan_int
read_times zero g times text = some times
read_times (suc left) g times text =
    let (now, rest) = scan_times g times (scan_int text) in
    let more = read_times left (suc g) now rest in if ltb g max_groups then more else none

-- What the file gives. A run with a negative number of groups, which the source goes on with, is not
-- modelled.
pub data Reading : Type 0 where
  configured : Config → Reading
  negative : Reading
  out_of_bounds : Reading

-- The memory is new, so its times are 0.
abbrev pub no_times : Times
no_times = record { start = λ _. pos 0; eat = λ _. pos 0 }

unfoldable pub with_times : ℕ → Option Times → Reading
with_times n none = out_of_bounds
with_times n (some times) =
    configured (record { n_groups = n; start_time = times.start; eat_time = times.eat })

-- After "%d " for `nGroups`. If that conversion fails, `nGroups` stays 0.
unfoldable pub after_count : Option ℤ × List ℕ → Reading
unfolding with_times read_times skip_line skip_spaces
after_count (none, rest) = with_times 0 (some no_times)
after_count (some (pos n), rest) =
    with_times n (read_times n 0 no_times (skip_line (skip_spaces rest)))
after_count (some (negsuc n), rest) = negative

unfoldable pub read_config : List ℕ → Reading
unfolding after_count scan_int skip_line
read_config text = after_count (scan_int (skip_line text))
