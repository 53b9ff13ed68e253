-- ===== src/Logging/Digits.antt =====
-- The decimal digits that `printf` writes for "%d", and the number that they spell.
use restaurante_so.Prelude.{
  ℕ, zero, suc, ◌+◌, ◌-◌, ◌*◌, ◌/◌, ◌%◌, ◌≤◌, ◌≡◌, ◌≢◌, List, [], ◌∷◌, ◌++◌, inl, inr, ltb,
  Bool-cases, refl, arith, All, All-append,
}
use restaurante_so.Logging.{decimal_from, decimal}

abbrev pub IsDigit : ℕ → Type 0
IsDigit c = (b'0' ≤ c) × (c ≤ b'9')

-- The number that digits spell behind `acc`.
unfoldable pub value : ℕ → List ℕ → ℕ
value acc [] = acc
value acc (c ∷ s) = value (acc * 10 + (c - b'0')) s

pub value-append : (acc : ℕ) (s t : List ℕ) → value acc (s ++ t) ≡ value (value acc s) t
unfolding value
value-append acc [] t = refl
value-append acc (c ∷ s) t = value-append (acc * 10 + (c - b'0')) s t

value-decimal_from : (fuel n : ℕ) → n ≤ fuel → value 0 (decimal_from fuel n) ≡ n
unfolding decimal_from value
value-decimal_from zero n le = omega arith
value-decimal_from (suc fuel) n le = elim (Bool-cases (ltb n 10)) [
  | inl short ↦ rw short (omega arith)
  | inr long ↦ rw long (
      omega (
        arith,
        value-append 0 (decimal_from fuel (n / 10)) ((b'0' + n % 10) ∷ []),
        value-decimal_from fuel (n / 10) (ground arith),
      ))
]

pub value-decimal : (n : ℕ) → value 0 (decimal n) ≡ n
unfolding decimal
value-decimal n = value-decimal_from n n (omega arith)

All-decimal_from : (fuel n : ℕ) → All IsDigit (decimal_from fuel n)
unfolding decimal_from
All-decimal_from zero n = omega arith
All-decimal_from (suc fuel) n = elim (Bool-cases (ltb n 10)) [
  | inl short ↦ rw short (ground arith)
  | inr long ↦ rw long (
      All-append IsDigit (decimal_from fuel (n / 10)) ((b'0' + n % 10) ∷ [])
        (All-decimal_from fuel (n / 10)) (omega arith))
]

pub All-decimal : (n : ℕ) → All IsDigit (decimal n)
unfolding decimal
All-decimal n = All-decimal_from n n

-- The first character of a text, or the one that ends a C string.
abbrev pub head : List ℕ → ℕ
head [] = 0
head (c ∷ s) = c

-- The digits of a number begin with a digit, which is 0 only for the number 0.
pub record Leads (n : ℕ) (s : List ℕ) : Type 0 where
  pub digit : IsDigit (head s)
  pub plain : n ≢ 0 → head s ≢ b'0'

Leads-append : {n m : ℕ} (s t : List ℕ) → Leads m s → (n ≢ 0 → m ≢ 0) → Leads n (s ++ t)
Leads-append [] t a h = absurd (omega (arith, a.digit))
Leads-append (c ∷ s) t a h = record { digit = a.digit; plain = λ e. a.plain (h e) }

Leads-decimal_from : (fuel n : ℕ) → n ≤ fuel → Leads n (decimal_from fuel n)
unfolding decimal_from
Leads-decimal_from zero n le = record { digit = omega arith; plain = λ e. absurd (e (omega arith)) }
Leads-decimal_from (suc fuel) n le = elim (Bool-cases (ltb n 10)) [
  | inl short ↦ rw short (record { digit = ground arith; plain = λ e z. e (omega arith) })
  | inr long ↦ rw long (
      Leads-append (decimal_from fuel (n / 10)) ((b'0' + n % 10) ∷ [])
        (Leads-decimal_from fuel (n / 10) (ground arith)) (λ e z. ground arith))
]

pub Leads-decimal : (n : ℕ) → Leads n (decimal n)
unfolding decimal
Leads-decimal n = Leads-decimal_from n n (omega arith)
