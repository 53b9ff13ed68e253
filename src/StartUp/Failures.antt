-- ===== src/StartUp/Failures.antt =====
-- The errors of the start of a process: which of them end it, and which one does not.
use restaurante_so.Prelude.{
  ℕ, zero, suc, if◌then◌else◌, ◌-◌, ◌+◌, subst, ◌≡◌, ◌≢◌, refl, sym, ap, ◌∙◌, Bool, true, false,
  ◌||◌, Option, none, some, List, [], ◌∷◌, ltb, length, arith, ℤ, pos,
}
use restaurante_so.Clib.{strtol, to_int}
use restaurante_so.StartGate.{go, sem_connect}
use restaurante_so.SharedMemory.{
  MemorySystem, is_minus_one, shmem_connect, shmem_attach, store_address,
}
use restaurante_so.StartUp.{
  StartUp, Failure, exits, at_gate, started, overflow, no_mapping, goes_on, too_large, mapped,
  in_memory, connected, connect, with_key, with_number, group_start, staff_start,
  receptionist_start, waiter_start, chef_start,
}

-- What a process has when it starts: an open gate, a block of its key, and as `sh` whatever `shmat`
-- gave for that block.
pub record IsStarted (sys : MemorySystem) (gate : Option ℕ) (key : ℤ) (sh : Option ℕ) : Type 0 where
  pub value : ℕ
  pub unlocked : gate ≡ some (suc value)
  pub found : is_minus_one (sys.shmget key 1 false) ≡ false
  pub mapping : sh ≡ sys.shmat (sys.shmget key 1 false)

-- What holds of the result of the start.
abbrev pub Result : (ℤ → Option ℕ → Type 0) → StartUp → Type 0
Result P (started n sh) = P n sh
Result P (exits e) = e ≢ no_mapping
Result P at_gate = Unit
Result P overflow = Unit

Result-mono :
    {P Q : ℤ → Option ℕ → Type 0} (r : StartUp)
    → ((n : ℤ) (sh : Option ℕ) → P n sh → Q n sh)
    → Result P r
    → Result Q r
Result-mono (started n sh) f p = f n sh p
Result-mono (exits e) f p = p
Result-mono at_gate f p = tt
Result-mono overflow f p = tt

-- What holds of both branches holds of a test.
Result-if :
    (P : ℤ → Option ℕ → Type 0) (b : Bool) (x y : StartUp)
    → Result P x
    → (b ≡ false → Result P y)
    → Result P (if b then x else y)
Result-if P true x y p q = p
Result-if P false x y p q = q refl

-- An error of `shmat` is not -1 for the test of the caller.
mapped-Result :
    (n : ℤ) (add : Option ℕ)
    → Result (λ m sh. (m ≡ n) × (sh ≡ add)) (mapped n (store_address none add))
unfolding mapped store_address
mapped-Result n none = (refl, refl)
mapped-Result n (some a) = (refl, refl)

open_gate : (v : ℕ) → sem_connect (some (suc v)) ≡ go (some (suc v - 1 + 1))
unfolding sem_connect
open_gate v = ground arith

-- The scan has come to the end of the argument.
goes_on-false : (rest : List ℕ) → goes_on rest ≡ false → rest ≡ []
unfolding goes_on
goes_on-false [] e = refl
goes_on-false (c ∷ s) e = ground (arith, e)

module _ (sys : MemorySystem) where
  in_memory-Result :
      (n shmid : ℤ)
      → Result
          (λ m sh. (m ≡ n) × (is_minus_one shmid ≡ false) × (sh ≡ sys.shmat shmid))
          (in_memory sys n shmid)
  unfolding in_memory shmem_attach
  in_memory-Result n shmid =
      Result-if _ (is_minus_one shmid) _ _ (λ e. ground arith)
        (λ found.
          Result-mono (mapped n (store_address none (sys.shmat shmid)))
            (λ m sh p. (p.0, found, p.1)) (mapped-Result n (sys.shmat shmid)))

  connect-Result :
      (gate : Option ℕ) (n key : ℤ)
      → Result (λ m sh. (m ≡ n) × IsStarted sys gate key sh) (connect sys gate n key)
  unfolding connect connected shmem_connect
  connect-Result none n key = λ e. ground arith
  connect-Result (some zero) n key = tt
  connect-Result (some (suc v)) n key =
      subst
        (λ r.
          Result (λ m sh. (m ≡ n) × IsStarted sys (some (suc v)) key sh) (connected sys key n r))
        (sym (open_gate v))
        (Result-mono (in_memory sys n (sys.shmget key 1 false))
          (λ m sh p. (p.0, record { value = v; unlocked = refl; found = p.1; mapping = p.2 }))
          (in_memory-Result n (sys.shmget key 1 false)))

  with_key-Result :
      (gate : Option ℕ) (n : ℤ) (name : List ℕ) (key : ℤ × List ℕ)
      → Result
          (λ m sh. (m ≡ n) × (key.1 ≡ []) × IsStarted sys gate (to_int key.0) sh)
          (with_key sys gate n name key)
  unfolding with_key
  with_key-Result gate n name (key, rest) = Result-if _ (ltb 50 (length name)) _ _ tt (λ _.
      Result-if _ (goes_on rest) _ _ (λ e. ground arith)
        (λ ends.
          Result-mono (connect sys gate n (to_int key))
            (λ m sh p. (p.0, goes_on-false rest ends, p.1)) (connect-Result gate n (to_int key))))

  with_number-Result :
      (gate : Option ℕ) (name key : List ℕ) (number : ℤ × List ℕ)
      → Result
          (λ m sh.
            (too_large m ≡ false)
            × (m ≡ to_int number.0)
            × (number.1 ≡ [])
            × ((strtol key).1 ≡ [])
            × IsStarted sys gate (to_int (strtol key).0) sh)
          (with_number sys gate name key number)
  unfolding with_number
  with_number-Result gate name key (n, rest) =
      Result-if _ (goes_on rest || too_large (to_int n)) _ _ (λ e. ground arith)
        (λ small.
          Result-mono (with_key sys gate (to_int n) name (strtol key))
            (λ m sh p. (
              ap too_large p.0 ∙ (neither (goes_on rest) _ small).1,
              p.0,
              goes_on-false rest (neither (goes_on rest) _ small).0,
              p.1,
              p.2,
            ))
            (with_key-Result gate (to_int n) name (strtol key)))
    where
      neither : (a b : Bool) → (a || b) ≡ false → (a ≡ false) × (b ≡ false)
      neither a b e = ground arith

result_of :
    (P : ℤ → Option ℕ → Type 0) (r : StartUp) (n : ℤ) (sh : Option ℕ)
    → Result P r
    → r ≡ started n sh
    → P n sh
result_of P r n sh p e = subst (Result P) e p

exits_inj : {e f : Failure} → exits e ≡ exits f → e ≡ f
exits_inj h = cc

reports : (P : ℤ → Option ℕ → Type 0) (r : StartUp) → Result P r → r ≢ exits no_mapping
reports P (started n sh) p e = ground (arith, e)
reports P (exits f) p e = p (exits_inj e)
reports P at_gate p e = ground (arith, e)
reports P overflow p e = ground (arith, e)

group_reports :
    (sys : MemorySystem) (gate : Option ℕ) (argv : List (List ℕ))
    → group_start sys gate argv ≢ exits no_mapping
unfolding group_start
group_reports sys gate [] e = ground (arith, e)
group_reports sys gate (a ∷ []) e = ground (arith, e)
group_reports sys gate (a ∷ b ∷ []) e = ground (arith, e)
group_reports sys gate (a ∷ b ∷ c ∷ []) e = ground (arith, e)
group_reports sys gate (a ∷ b ∷ c ∷ d ∷ []) e = ground (arith, e)
group_reports sys gate (a ∷ number ∷ name ∷ key ∷ d ∷ []) e =
    reports _ _ (with_number-Result sys gate name key (strtol number)) e
group_reports sys gate (a ∷ b ∷ c ∷ d ∷ f ∷ g ∷ s) e = ground (arith, e)

staff_reports :
    (sys : MemorySystem) (gate : Option ℕ) (argv : List (List ℕ))
    → staff_start sys gate argv ≢ exits no_mapping
unfolding staff_start
staff_reports sys gate [] e = ground (arith, e)
staff_reports sys gate (a ∷ []) e = ground (arith, e)
staff_reports sys gate (a ∷ b ∷ []) e = ground (arith, e)
staff_reports sys gate (a ∷ b ∷ c ∷ []) e = ground (arith, e)
staff_reports sys gate (a ∷ name ∷ key ∷ d ∷ []) e =
    reports _ _ (with_key-Result sys gate (pos 0) name (strtol key)) e
staff_reports sys gate (a ∷ b ∷ c ∷ d ∷ f ∷ s) e = ground (arith, e)

-- If a group starts, `strtol` reads its first and its third argument to their ends (an empty one as
-- 0). Its number is the first one as an `int`, which is less than MAXGROUPS or below 0; the gate is
-- open, the key that is the third one as an `int` has a block, and `sh` is what `shmat` gave for it, 0
-- if that failed.
pub group_start_sound :
    (sys : MemorySystem) (gate : Option ℕ) (program number name key errors : List ℕ) {n : ℤ}
    {sh : Option ℕ}
    → group_start sys gate (program ∷ number ∷ name ∷ key ∷ errors ∷ []) ≡ started n sh
    → ((strtol number).1 ≡ [])
      × ((strtol key).1 ≡ [])
      × (n ≡ to_int (strtol number).0)
      × (too_large n ≡ false)
      × IsStarted sys gate (to_int (strtol key).0) sh
unfolding group_start
group_start_sound sys gate program number name key errors {n} {sh} e =
    let p =
      result_of
        (λ m s.
          (too_large m ≡ false)
          × (m ≡ to_int (strtol number).0)
          × ((strtol number).1 ≡ [])
          × ((strtol key).1 ≡ [])
          × IsStarted sys gate (to_int (strtol key).0) s)
        (with_number sys gate name key (strtol number)) n sh
        (with_number-Result sys gate name key (strtol number)) e in
    (p.2, p.3, p.1, p.0, p.4)

-- No process ever reports an error of `shmemAttach`: the code for it in each `main` is not reached.
pub mapping_error_unseen :
    (sys : MemorySystem) (gate : Option ℕ) (argv : List (List ℕ))
    → (group_start sys gate argv ≢ exits no_mapping)
      × (receptionist_start sys gate argv ≢ exits no_mapping)
      × (waiter_start sys gate argv ≢ exits no_mapping)
      × (chef_start sys gate argv ≢ exits no_mapping)
unfolding receptionist_start waiter_start chef_start
mapping_error_unseen sys gate argv = (
  group_reports sys gate argv,
  staff_reports sys gate argv,
  staff_reports sys gate argv,
  staff_reports sys gate argv,
)
