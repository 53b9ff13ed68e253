-- ===== src/Tests/Start.antt =====
-- The theorems about the start of the program, at concrete texts, arguments and results of calls.
use restaurante_so.Prelude.{
  ℕ, ◌≤◌, ◌<◌, ◌^◌, ◌≡◌, ◌≢◌, ◌⊎◌, refl, none, some, List, [], ◌∷◌, leb, false, if◌then◌else◌,
  arith, pos, negsuc, ℤ, zero, suc, ◌==◌, ◌||◌, Bool-cases, inl, inr,
}
use restaurante_so.Problem.{max_groups}
use restaurante_so.Setup.{Config, set_up}
use restaurante_so.Semaphore.{Shared, next}
use restaurante_so.Clib.{strtol, to_int, is_space}
use restaurante_so.SharedMemory.{MemorySystem, is_minus_one}
use restaurante_so.ConfigFile.{Reading, negative, configured, out_of_bounds, read_config}
use restaurante_so.ConfigFile.Texts.{Form, IsWritten, config_text, read_config-config_text}
use restaurante_so.ConfigFile.Gaps.{IsGap}
use restaurante_so.Logging.{decimal}
use restaurante_so.StartUp.{
  exits, started, wrong_number, no_mapping, too_large, connect, group_start, receptionist_start,
  waiter_start, chef_start, group_argv, staff_argv,
}
use restaurante_so.StartUp.Arguments.{arguments_arrive}
use restaurante_so.StartUp.Failures.{IsStarted, group_start_sound, mapping_error_unseen}
use restaurante_so.Boot.{Machine, crashed, booted, boot, log_name}
use restaurante_so.Boot.Booted.{IsReady, booted_program, boots}
use restaurante_so.Lifetime.{Program, Comes, Advance, over}
use restaurante_so.Progress.AtRest.{IsOver}

-- src/config.txt
abbrev config_file : List ℕ
config_file =
    b'#' ∷ b'n' ∷ b'g' ∷ b'r' ∷ b'o' ∷ b'u' ∷ b'p' ∷ b's' ∷ b'\n' ∷ b'5' ∷ b'\n' ∷ b'#' ∷ b's'
    ∷ b't' ∷ b'a' ∷ b'r' ∷ b't' ∷ b'T' ∷ b'i' ∷ b'm' ∷ b'e' ∷ b' ' ∷ b't' ∷ b'i' ∷ b'm' ∷ b'e'
    ∷ b'T' ∷ b'o' ∷ b'E' ∷ b'a' ∷ b't' ∷ b'\n' ∷ b'5' ∷ b'0' ∷ b'0' ∷ b'0' ∷ b'0' ∷ b' ' ∷ b'1'
    ∷ b'0' ∷ b'0' ∷ b'0' ∷ b'0' ∷ b'0' ∷ b' ' ∷ b'\n' ∷ b'1' ∷ b'0' ∷ b'0' ∷ b'0' ∷ b'0' ∷ b' '
    ∷ b'6' ∷ b'0' ∷ b'0' ∷ b'0' ∷ b'0' ∷ b'0' ∷ b'\n' ∷ b'1' ∷ b'0' ∷ b'0' ∷ b'0' ∷ b'0' ∷ b' '
    ∷ b'2' ∷ b'0' ∷ b'0' ∷ b'0' ∷ b'0' ∷ b'0' ∷ b' ' ∷ b'\n' ∷ b'2' ∷ b'0' ∷ b'0' ∷ b'0' ∷ b'0'
    ∷ b' ' ∷ b'1' ∷ b'0' ∷ b'0' ∷ b'0' ∷ b'0' ∷ b'0' ∷ b'\n' ∷ b'2' ∷ b'5' ∷ b'0' ∷ b'0' ∷ b'0'
    ∷ b' ' ∷ b'1' ∷ b'0' ∷ b'0' ∷ b'0' ∷ b'0' ∷ b'0' ∷ b'\n' ∷ []

-- What it says. The rows of the groups 0 and 2 end with a blank more.
abbrev shipped_start : ℕ → ℕ
shipped_start g =
    if g == 0 then 50000 else if g == 3 then 20000 else if g == 4 then 25000 else 10000

abbrev shipped_eat : ℕ → ℕ
shipped_eat g = if g == 1 then 600000 else if g == 2 then 200000 else 100000

abbrev shipped_after : ℕ → List ℕ
shipped_after g = if g == 0 || g == 2 then b' ' ∷ b'\n' ∷ [] else b'\n' ∷ []

abbrev shipped : Form
shipped = record {
  titles = b'#' ∷ b'n' ∷ b'g' ∷ b'r' ∷ b'o' ∷ b'u' ∷ b'p' ∷ b's' ∷ [];
  n = 5;
  count_gap = b'\n' ∷ [];
  mark = b'#';
  columns =
      b's' ∷ b't' ∷ b'a' ∷ b'r' ∷ b't' ∷ b'T' ∷ b'i' ∷ b'm' ∷ b'e' ∷ b' ' ∷ b't' ∷ b'i' ∷ b'm'
      ∷ b'e' ∷ b'T' ∷ b'o' ∷ b'E' ∷ b'a' ∷ b't' ∷ [];
  start = shipped_start;
  between = λ g. b' ' ∷ [];
  eat = shipped_eat;
  after = shipped_after;
}

shipped_text : config_text shipped ≡ config_file
unfolding decimal
shipped_text = refl

shipped_start-lt : (g : ℕ) → shipped_start g < 2 ^ 31
shipped_start-lt g = ground arith

shipped_eat-lt : (g : ℕ) → shipped_eat g < 2 ^ 31
shipped_eat-lt g = ground arith

shipped_after-IsGap : (g : ℕ) → IsGap (shipped_after g)
unfolding is_space
shipped_after-IsGap g = elim (Bool-cases (g == 0 || g == 2)) [
  | inl e ↦ rw e (refl, (refl, tt))
  | inr e ↦ rw e (refl, tt)
]

shipped-IsWritten : IsWritten shipped
unfolding is_space
shipped-IsWritten = record {
  titled = (refl, (refl, (refl, (refl, (refl, (refl, (refl, (refl, tt))))))));
  count = omega arith;
  count_apart = (refl, tt);
  marked = refl;
  lined = (
    refl,
    (
      refl,
      (
        refl,
        (
          refl,
          (
            refl,
            (
              refl,
              (
                refl,
                (
                  refl,
                  (
                    refl,
                    (
                      refl,
                      (refl, (refl, (refl, (refl, (refl, (refl, (refl, (refl, (refl, tt))))))))),
                    ),
                  ),
                ),
              ),
            ),
          ),
        ),
      ),
    ),
  );
  starts = λ g lt. shipped_start-lt g;
  apart = λ g lt. (refl, tt);
  eats = λ g lt. shipped_eat-lt g;
  ended = λ g lt. shipped_after-IsGap g;
}

read_config-config_text_example :
    (5 ≤ max_groups
      → (c : Config) × (read_config (config_text shipped) ≡ configured c)
        × (c.n_groups ≡ 5)
        × ((g : ℕ)
            → g < 5
            → (c.start_time g ≡ pos (shipped_start g)) × (c.eat_time g ≡ pos (shipped_eat g))))
    × (max_groups < 5 → read_config (config_text shipped) ≡ out_of_bounds)
read_config-config_text_example = read_config-config_text shipped shipped-IsWritten

-- A system in which each call succeeds, and one whose `shmat` fails.
abbrev good_memory : MemorySystem
good_memory = record {
  shmget = λ key size new. pos 7;
  shmat = λ id. some 4096;
  shmdt = λ add. pos 0;
  shmctl_rmid = λ id. pos 0;
}

abbrev bad_mapping : MemorySystem
bad_mapping = record good_memory { shmat = λ id. none }

abbrev log_file : List ℕ
log_file = b'l' ∷ b'o' ∷ b'g' ∷ []

arguments_arrive_example :
    ((g : ℕ)
      → g < 2 ^ 31
      → group_start good_memory (some 1) (group_argv log_file (pos 97) g) ≡ (
          if leb max_groups g
          then exits wrong_number
          else connect good_memory (some 1) (pos g) (pos 97)))
    × ((program : List ℕ) (a b : ℕ)
        → (receptionist_start good_memory (some 1) (staff_argv program log_file (pos 97) a b)
            ≡ connect good_memory (some 1) (pos 0) (pos 97))
          × (waiter_start good_memory (some 1) (staff_argv program log_file (pos 97) a b)
              ≡ connect good_memory (some 1) (pos 0) (pos 97))
          × (chef_start good_memory (some 1) (staff_argv program log_file (pos 97) a b)
              ≡ connect good_memory (some 1) (pos 0) (pos 97)))
arguments_arrive_example =
    arguments_arrive good_memory (some 1) log_file (pos 97) (omega arith) (omega arith)

-- The group starts with a null pointer when `shmat` has failed.
null_start :
    group_start bad_mapping (some 1) ([] ∷ (b'3' ∷ []) ∷ log_file ∷ (b'9' ∷ b'7' ∷ []) ∷ [] ∷ [])
    ≡ started (pos 3) none
unfolding group_start
null_start = refl

-- A number below 0 passes the test of the group's number.
negative_start :
    group_start good_memory
      (some 1)
      ([] ∷ (b'-' ∷ b'1' ∷ []) ∷ log_file ∷ (b'9' ∷ b'7' ∷ []) ∷ [] ∷ [])
    ≡ started (negsuc 0) (some 4096)
unfolding group_start
negative_start = refl

group_start_sound_example :
    ((strtol (b'3' ∷ [])).1 ≡ [])
    × ((strtol (b'9' ∷ b'7' ∷ [])).1 ≡ [])
    × (pos 3 ≡ to_int (strtol (b'3' ∷ [])).0)
    × (too_large (pos 3) ≡ false)
    × IsStarted bad_mapping (some 1) (to_int (strtol (b'9' ∷ b'7' ∷ [])).0) none
group_start_sound_example =
    group_start_sound bad_mapping (some 1) [] (b'3' ∷ []) log_file (b'9' ∷ b'7' ∷ []) [] null_start

-- An argument with more than a number ends the group.
no_number_start :
    group_start good_memory
      (some 1)
      ([] ∷ (b'3' ∷ b'a' ∷ []) ∷ log_file ∷ (b'9' ∷ b'7' ∷ []) ∷ [] ∷ [])
    ≡ exits wrong_number
unfolding group_start
no_number_start = refl

-- 2 ^ 63 is clamped, and its low bits are those of -1.
clamped_start :
    group_start good_memory
      (some 1)
      ([] ∷ decimal (2 ^ 63) ∷ log_file ∷ (b'9' ∷ b'7' ∷ []) ∷ [] ∷ [])
    ≡ started (negsuc 0) (some 4096)
unfolding group_start decimal
clamped_start = refl

abbrev three_argv : List (List ℕ)
three_argv = [] ∷ (b'3' ∷ []) ∷ log_file ∷ (b'9' ∷ b'7' ∷ []) ∷ [] ∷ []

mapping_error_unseen_example :
    (group_start bad_mapping (some 1) three_argv ≢ exits no_mapping)
    × (receptionist_start bad_mapping (some 1) three_argv ≢ exits no_mapping)
    × (waiter_start bad_mapping (some 1) three_argv ≢ exits no_mapping)
    × (chef_start bad_mapping (some 1) three_argv ≢ exits no_mapping)
mapping_error_unseen_example = mapping_error_unseen bad_mapping (some 1) three_argv

abbrev machine : Machine
machine = record {
  memory = good_memory;
  key = pos 97;
  size = 1000;
  old_set = none;
  config = some (config_text shipped);
}

machine-IsReady : IsReady machine
unfolding is_minus_one
machine-IsReady = record {
  has_key = refl;
  has_block = refl;
  address = 4096;
  has_mapping = refl;
  new_set = refl;
}

boots_example :
    (5 ≤ max_groups
      → (c : Config) × (sh : Shared) × (boot machine [] ≡ booted (pos 97) sh)
        × (set_up c ≡ next sh tt)
        × (c.n_groups ≡ 5)
        × ((g : ℕ)
            → g < 5
            → (c.start_time g ≡ pos (shipped_start g)) × (c.eat_time g ≡ pos (shipped_eat g))))
    × (max_groups < 5 → boot machine [] ≡ crashed)
unfolding log_name
boots_example = boots machine [] shipped machine-IsReady (omega arith) shipped-IsWritten refl

few_groups : 5 ≤ max_groups
few_groups = omega arith

abbrev shipped_memory : Shared
shipped_memory = (boots_example.0 few_groups).1

shipped_boot : boot machine [] ≡ booted (pos 97) shipped_memory
shipped_boot = (boots_example.0 few_groups).2

booted_program_example :
    (text : List ℕ) × (c : Config) × (machine.config ≡ some text)
    × (read_config text ≡ configured c)
    × (c.n_groups ≤ max_groups)
    × (set_up c ≡ next shipped_memory tt)
    × ((p : Program)
        → Comes c p
        → ((p.main ≡ over) ⊎ ((q : Program) × Advance p q))
          × (p.gate ≡ none → IsOver c.n_groups p.system))
booted_program_example = booted_program machine [] shipped_boot

abbrev group_times : Reading → List (ℤ × ℤ)
group_times (configured c) = times_from c.n_groups 0
  where
    times_from : ℕ → ℕ → List (ℤ × ℤ)
    times_from zero g = []
    times_from (suc left) g = (c.start_time g, c.eat_time g) ∷ times_from left (suc g)
group_times negative = []
group_times out_of_bounds = []

config_file_reads : group_times (read_config config_file) ≡ (
    (pos 50000, pos 100000)
    ∷ (pos 10000, pos 600000)
    ∷ (pos 10000, pos 200000)
    ∷ (pos 20000, pos 100000)
    ∷ (pos 25000, pos 100000)
    ∷ [])
unfolding read_config
config_file_reads = refl
