-- ===== src/StartUp/Arguments.antt =====
-- The arguments that `main` writes are the ones that the processes read.
use restaurante_so.Prelude.{
  ℕ, ◌≤◌, ◌<◌, ◌^◌, ◌≡◌, ap, ◌∙◌, Option, List, [], ltb, leb, false, if◌then◌else◌, length, arith,
  ℤ, pos, negsuc, if-false,
}
use restaurante_so.Problem.{max_groups}
use restaurante_so.Clib.{strtol, to_int}
use restaurante_so.Clib.Numbers.{strtol-decimal, strtol-minus, to_int-pos}
use restaurante_so.SharedMemory.{MemorySystem}
use restaurante_so.StartUp.{
  exits, wrong_number, goes_on, too_large, connect, with_key, with_number, group_start, staff_start,
  receptionist_start, waiter_start, chef_start, decimal_int, group_argv, staff_argv,
}

-- The range of `int`.
abbrev pub IsInt : ℤ → Type 0
IsInt (pos n) = n < 2 ^ 31
IsInt (negsuc n) = n < 2 ^ 31

strtol-decimal_int : (n : ℤ) → IsInt n → strtol (decimal_int n) ≡ (n, [])
unfolding decimal_int
strtol-decimal_int (pos n) lt = strtol-decimal n (omega (arith, lt))
strtol-decimal_int (negsuc n) lt = strtol-minus n (omega (arith, lt))

to_int_lem : (n : ℤ) → IsInt n → to_int n ≡ n
unfolding to_int
to_int_lem (pos n) lt = to_int-pos n lt
to_int_lem (negsuc n) lt = ground arith

module _ (sys : MemorySystem) (gate : Option ℕ) (name : List ℕ) (key : ℤ) where
  with_key_lem :
      (n : ℤ)
      → length name ≤ 50
      → IsInt key
      → with_key sys gate n name (strtol (decimal_int key)) ≡ connect sys gate n key
  unfolding with_key goes_on
  with_key_lem n short int =
      ap (with_key sys gate n name) (strtol-decimal_int key int)
      ∙ if-false _ too_long
      ∙ ap (connect sys gate n) (to_int_lem key int)
    where
      too_long : ltb 50 (length name) ≡ false
      too_long = ground (arith, short)

  -- If the name of the log has at most 50 characters and the key is an `int`, each process reads the
  -- key that `main` has written and, if it is a group with a number below 2 ^ 31, that number, and goes
  -- on to connect with them; a group whose number is MAXGROUPS or more exits instead.
  pub arguments_arrive :
      length name ≤ 50
      → IsInt key
      → ((g : ℕ)
          → g < 2 ^ 31
          → group_start sys gate (group_argv name key g)
            ≡ (if leb max_groups g then exits wrong_number else connect sys gate (pos g) key))
        × ((program : List ℕ) (a b : ℕ)
            → (receptionist_start sys gate (staff_argv program name key a b)
                ≡ connect sys gate (pos 0) key)
              × (waiter_start sys gate (staff_argv program name key a b)
                  ≡ connect sys gate (pos 0) key)
              × (chef_start sys gate (staff_argv program name key a b)
                  ≡ connect sys gate (pos 0) key))
  unfolding group_start with_number goes_on too_large receptionist_start waiter_start chef_start
      staff_start group_argv staff_argv
  arguments_arrive short int = (
    λ g small.
        ap (with_number sys gate name (decimal_int key)) (strtol-decimal g (omega (arith, small)))
        ∙ ap
            (λ n.
              if too_large n
              then exits wrong_number
              else with_key sys gate n name (strtol (decimal_int key)))
            (to_int-pos g small)
        ∙ ap (λ s. if leb max_groups g then exits wrong_number else s)
            (with_key_lem (pos g) short int),
    λ program a b. let same = with_key_lem (pos 0) short int in (same, same, same),
  )
