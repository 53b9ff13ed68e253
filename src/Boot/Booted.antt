-- ===== src/Boot/Booted.antt =====
-- What holds when `main` comes to start the processes.
use restaurante_so.Prelude.{
  ℕ, ◌≤◌, ◌<◌, ◌≡◌, refl, subst, ap, ◌∙◌, Bool, true, false, Option, none, some, List, ltb,
  if◌then◌else◌, length, arith, ℤ, pos, if-false, ◌⊎◌,
}
use restaurante_so.Problem.{max_groups}
use restaurante_so.Setup.{Config, set_up}
use restaurante_so.Semaphore.{Shared, Outcome, next, blocked, fault}
use restaurante_so.StartGate.{sem_create}
use restaurante_so.SharedMemory.{is_minus_one, shmem_create, shmem_attach, store_address}
use restaurante_so.ConfigFile.{Reading, configured, negative, out_of_bounds, read_config}
use restaurante_so.ConfigFile.Texts.{Form, IsWritten, config_text, read_config-config_text}
use restaurante_so.ConfigFile.Counts.{configured-le}
use restaurante_so.Lifetime.{Program, Comes, Advance, over}
use restaurante_so.Lifetime.Moves.{program_moves}
use restaurante_so.Lifetime.Ends.{removed_when-IsOver}
use restaurante_so.Progress.AtRest.{IsOver}
use restaurante_so.Boot.{
  Machine, Boot, failed, crashed, negative_groups, booted, ready, with_set, with_reading,
  with_config, with_pointer, with_mapping, with_block, log_name, boot,
}

-- What holds of a boot that gets as far as the start of the processes.
abbrev Sound : (ℤ → Shared → Type 0) → Boot → Type 0
Sound P (booted key sh) = P key sh
Sound P (failed e) = Unit
Sound P crashed = Unit
Sound P negative_groups = Unit

Sound-if :
    (P : ℤ → Shared → Type 0) (b : Bool) (x y : Boot)
    → Sound P x
    → Sound P y
    → Sound P (if b then x else y)
Sound-if P true x y p q = p
Sound-if P false x y p q = q

-- The configuration that was read, with the memory that the set-up gives for it.
pub record HasBooted (m : Machine) (key : ℤ) (sh : Shared) : Type 0 where
  pub same_key : key ≡ m.key
  pub text : List ℕ
  pub opened : m.config ≡ some text
  pub config : Config
  pub read : read_config text ≡ configured config
  pub few : config.n_groups ≤ max_groups
  pub new_set : m.old_set ≡ none
  pub set : set_up config ≡ next sh tt

module _ (m : Machine) where
  ready-Sound :
      (text : List ℕ) (c : Config)
      → m.config ≡ some text
      → read_config text ≡ configured c
      → m.old_set ≡ none
      → (o : Outcome (Unit {0})) → set_up c ≡ o
      → Sound (HasBooted m) (ready m.key o)
  unfolding ready
  ready-Sound text c opened e fresh (next sh done) up = record {
    same_key = refl;
    text = text;
    opened = opened;
    config = c;
    read = e;
    few = configured-le text c e;
    new_set = fresh;
    set = up;
  }
  ready-Sound text c opened e fresh blocked up = tt
  ready-Sound text c opened e fresh fault up = tt

  set-Sound :
      (text : List ℕ) (c : Config)
      → m.config ≡ some text
      → read_config text ≡ configured c
      → (old : Option ℕ) → m.old_set ≡ old
      → Sound (HasBooted m) (with_set m.key c (sem_create old))
  unfolding with_set sem_create
  set-Sound text c opened e none fresh = ready-Sound text c opened e fresh (set_up c) refl
  set-Sound text c opened e (some v) fresh = tt

  reading-Sound :
      (text : List ℕ) (r : Reading)
      → m.config ≡ some text
      → read_config text ≡ r
      → Sound (HasBooted m) (with_reading m r)
  unfolding with_reading
  reading-Sound text (configured c) opened e = set-Sound text c opened e m.old_set refl
  reading-Sound text negative opened e = tt
  reading-Sound text out_of_bounds opened e = tt

  config-Sound : (o : Option (List ℕ)) → m.config ≡ o → Sound (HasBooted m) (with_config m o)
  unfolding with_config
  config-Sound none e = tt
  config-Sound (some text) e = reading-Sound text (read_config text) e refl

  pointer-Sound : (sh : Option ℕ) → Sound (HasBooted m) (with_pointer m sh)
  unfolding with_pointer
  pointer-Sound none = tt
  pointer-Sound (some add) = config-Sound m.config refl

  mapping-Sound : (r : ℤ × Option ℕ) → Sound (HasBooted m) (with_mapping m r)
  unfolding with_mapping
  mapping-Sound (result, sh) =
      Sound-if (HasBooted m) (is_minus_one result) _ _ tt (pointer-Sound sh)

  block-Sound : (shmid : ℤ) → Sound (HasBooted m) (with_block m shmid)
  unfolding with_block
  block-Sound shmid =
      Sound-if (HasBooted m) (is_minus_one shmid) _ _ tt
        (mapping-Sound (shmem_attach m.memory shmid none))

  boot-Sound : (argv : List (List ℕ)) → Sound (HasBooted m) (boot m argv)
  unfolding boot
  boot-Sound argv = Sound-if (HasBooted m) (ltb 50 (length (log_name argv))) _ _ tt (
      Sound-if (HasBooted m) (is_minus_one m.key) _ _ tt
        (block-Sound (shmem_create m.memory m.key m.size)))

-- When main comes to start the processes, the configuration that it has read has at most MAXGROUPS
-- groups, the key had no semaphore set, and the memory is that of the set-up from the configuration.
pub boot_sound :
    (m : Machine) (argv : List (List ℕ)) {key : ℤ} {sh : Shared}
    → boot m argv ≡ booted key sh
    → HasBooted m key sh
boot_sound m argv e = subst (Sound (HasBooted m)) e (boot-Sound m argv)

-- If main comes to start the processes with a number of groups that is neither negative nor above
-- MAXGROUPS (these two have outcomes of their own), config.txt was read as a configuration with that
-- memory as its set-up, and from there the whole program has no deadlock and its processes finish
-- before the set is removed.
pub booted_program :
    (m : Machine) (argv : List (List ℕ)) {key : ℤ} {sh : Shared}
    → boot m argv ≡ booted key sh
    → (text : List ℕ) × (c : Config) × (m.config ≡ some text)
      × (read_config text ≡ configured c)
      × (c.n_groups ≤ max_groups)
      × (set_up c ≡ next sh tt)
      × ((p : Program)
          → Comes c p
          → ((p.main ≡ over) ⊎ ((q : Program) × Advance p q))
            × (p.gate ≡ none → IsOver c.n_groups p.system))
booted_program m argv e =
    let a = boot_sound m argv e in
    (
      a.text,
      a.config,
      a.opened,
      a.read,
      a.few,
      a.set,
      λ p r. (program_moves r a.few, removed_when-IsOver r a.few),
    )

-- No call of the system fails, and the key is new.
pub record IsReady (m : Machine) : Type 0 where
  pub has_key : is_minus_one m.key ≡ false
  pub has_block : is_minus_one (m.memory.shmget m.key m.size true) ≡ false
  pub address : ℕ
  pub has_mapping : m.memory.shmat (m.memory.shmget m.key m.size true) ≡ some address
  pub new_set : m.old_set ≡ none

boot_to_config :
    (m : Machine) (argv : List (List ℕ)) (text : List ℕ)
    → IsReady m
    → length (log_name argv) ≤ 50
    → m.config ≡ some text
    → boot m argv ≡ with_reading m (read_config text)
unfolding boot with_block with_mapping with_pointer with_config shmem_create shmem_attach
    store_address is_minus_one
boot_to_config m argv text ok short opened =
    if-false _ (fits short)
    ∙ if-false _ ok.has_key
    ∙ if-false _ ok.has_block
    ∙ ap (λ o. with_mapping m (store_address none o)) ok.has_mapping
    ∙ ap (with_config m) opened
  where
    fits : length (log_name argv) ≤ 50 → ltb 50 (length (log_name argv)) ≡ false
    fits le = ground (arith, le)

set_up_goes : (c : Config) → (sh : Shared) × (set_up c ≡ next sh tt)
unfolding set_up
set_up_goes c = (_, refl)

-- If no call fails, the key has no set yet, the name of the log has at most 50 characters and
-- config.txt has the form of src/config.txt, main comes to start the processes with that configuration
-- when it has at most MAXGROUPS groups, and leaves its arrays otherwise. The form has two lines of
-- titles, of which the second does not begin with a blank, and decimal numbers from 0 to 2 ^ 31 - 1
-- with blanks behind each.
pub boots :
    (m : Machine) (argv : List (List ℕ)) (t : Form)
    → IsReady m
    → length (log_name argv) ≤ 50
    → IsWritten t
    → m.config ≡ some (config_text t)
    → (t.n ≤ max_groups
        → (c : Config) × (sh : Shared) × (boot m argv ≡ booted m.key sh)
          × (set_up c ≡ next sh tt)
          × (c.n_groups ≡ t.n)
          × ((g : ℕ)
              → g < t.n
              → (c.start_time g ≡ pos (t.start g)) × (c.eat_time g ≡ pos (t.eat g))))
      × (max_groups < t.n → boot m argv ≡ crashed)
unfolding with_reading with_set sem_create ready
boots m argv t ok short w opened =
    let reads = read_config-config_text t w in
    let there = boot_to_config m argv (config_text t) ok short opened in
    (
      λ few.
          let (c, e, same, times) = reads.0 few in
          let (sh, up) = set_up_goes c in
          (
            c,
            sh,
            there
                ∙ ap (with_reading m) e
                ∙ ap (λ o. with_set m.key c (sem_create o)) ok.new_set
                ∙ ap (ready m.key) up,
            up,
            same,
            times,
          ),
      λ many. there ∙ ap (with_reading m) (reads.1 many),
    )
