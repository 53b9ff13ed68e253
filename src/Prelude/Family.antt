-- ===== src/Prelude/Family.antt =====
-- Arrays and the processes of one kind, as functions of an index: the write of one entry, and the
-- sum of a weight over the first `n` entries.
use Prim.Native.Nat.{ℕ, zero, suc, ◌+◌, ◌*◌, ◌≤◌, ◌<◌}
use mathlib.Core.Path.{◌≡◌, refl, subst, ap}
use mathlib.Core.Logic.{◌≢◌, ◌⊎◌, inl, inr}
use native.Mathlib.Omega.{arith}
use native.Mathlib.Nat.{suc-mul}
use restaurante_so.Prelude.Tests.{Bool-cases, ◌==◌, if◌then◌else◌}

abbrev pub update {ℓ} : {A : Type ℓ} → (ℕ → A) → ℕ → A → ℕ → A
update f i a j = if i == j then a else f j

module _ {ℓ} {A : Type ℓ} (w : A → ℕ) where
  -- the sum of `w` over the entries 0 .. n - 1, the last entry first
  pub total : (n : ℕ) (entry : ℕ → A) → ℕ
  total zero entry = 0
  total (suc n) entry = w (entry n) + total n entry

  -- A write from `n` on is not seen by the sum.
  total-update_beyond :
      (n : ℕ) (entry : ℕ → A) (k : ℕ) (new : A)
      → n ≤ k
      → total n entry ≡ total n (update entry k new)
  unfolding total
  total-update_beyond zero entry k new beyond = refl
  total-update_beyond (suc n) entry k new beyond = ground (arith, total-update_beyond n entry k new)

  -- A write below `n` puts the new weight in the place of the old one.
  pub total-update :
      (n : ℕ) (entry : ℕ → A) (k : ℕ) (new : A)
      → k < n
      → w new + total n entry ≡ w (entry k) + total n (update entry k new)
  unfolding total
  total-update zero entry k new below = absurd (omega arith)
  total-update (suc n) entry k new below =
      ground (arith, total-update_beyond n entry k new, total-update n entry k new)

  -- One entry's weight is part of the sum, and so are two entries' weights.
  pub le-total : (n : ℕ) (f : ℕ → A) (i : ℕ) → i < n → w (f i) ≤ total n f
  unfolding total
  le-total zero f i h = absurd (omega arith)
  le-total (suc n) f i h = ground (arith, le-total n f i)

  pub two-le-total :
      (n : ℕ) (f : ℕ → A) (i j : ℕ) → i < n → j < n → (i ≡ j) ⊎ (w (f i) + w (f j) ≤ total n f)
  unfolding total
  two-le-total zero f i j h k = absurd (omega arith)
  two-le-total (suc n) f i j h k =
      ground (arith, two-le-total n f i j, le-total n f i, le-total n f j)

  pub total-const : (n : ℕ) (a : A) → w a ≡ 0 → total n (λ _. a) ≡ 0
  unfolding total
  total-const zero a h = refl
  total-const (suc n) a h = omega (arith, h, total-const n a h)

  pub total-same : (n : ℕ) (a : A) → total n (λ _. a) ≡ n * w a
  unfolding total
  total-same zero a = omega arith
  total-same (suc n) a = omega (arith, total-same n a)

-- A statement of each entry after a write: of the new entry, and of the others.
pub update_elim {ℓ κ} :
    {A : Type ℓ} (P : ℕ → A → Type κ) (f : ℕ → A) (i : ℕ) (a : A) (j : ℕ)
    → P i a
    → (j ≢ i → P j (f j))
    → P j (update f i a j)
update_elim P f i a j new old = elim (Bool-cases (i == j)) [
  | inl same ↦ rw same (subst (λ k. P k a) (ground arith) new)
  | inr other ↦ rw other (old (λ e. ground arith))
]

pub total-zero {ℓ} :
    {A : Type ℓ} (w : A → ℕ) (n : ℕ) (f : ℕ → A) → ((k : ℕ) → k < n → w (f k) ≡ 0) → total w n f ≡ 0
unfolding total
total-zero w zero f all = refl
total-zero w (suc n) f all =
    omega (arith, all n (omega arith), total-zero w n f (λ k lt. all k (omega arith)))

pub total-le {ℓ} :
    {A : Type ℓ} (w : A → ℕ) (k n : ℕ) (f : ℕ → A) → ((a : A) → w a ≤ k) → total w n f ≤ n * k
unfolding total
total-le w k zero f all = omega arith
total-le w k (suc n) f all = omega (arith, all (f n), total-le w k n f all, suc-mul n k)

pub total-all {ℓ} :
    {A : Type ℓ} (w : A → ℕ) (a : A) (n : ℕ) (f : ℕ → A)
    → ((i : ℕ) → i < n → f i ≡ a)
    → total w n f ≡ n * w a
unfolding total
total-all w a zero f all = omega arith
total-all w a (suc n) f all = omega (
  arith,
  ap w (all n (omega arith)),
  total-all w a n f (λ i lt. all i (omega arith)),
  suc-mul n (w a),
)

-- Weights of at most 1 that add up to their number are all 1, and if they add up to less, one is 0.
pub total-full {ℓ} :
    {A : Type ℓ} (w : A → ℕ) (n : ℕ) (f : ℕ → A)
    → ((a : A) → w a ≤ 1)
    → total w n f ≡ n
    → (k : ℕ) → k < n
    → w (f k) ≡ 1
unfolding total
total-full w zero f small full k lt = absurd (omega arith)
total-full w (suc n) f small full k lt = elim (Bool-cases (k == n)) [
  | inl same ↦ subst (λ i. w (f i) ≡ 1) (ground arith) last
  | inr other ↦ total-full w n f small (omega (arith, full, bound, small (f n))) k (ground arith)
]
  where
    bound : total w n f ≤ n * 1
    bound = total-le w 1 n f small

    last : w (f n) ≡ 1
    last = omega (arith, full, bound, small (f n))

pub total-gap {ℓ} :
    {A : Type ℓ} (w : A → ℕ) (n : ℕ) (f : ℕ → A)
    → total w n f < n
    → (k : ℕ) × (k < n) × (w (f k) ≡ 0)
unfolding total
total-gap w zero f few = absurd (omega arith)
total-gap w (suc n) f few = elim (Bool-cases (w (f n) == 0)) [
  | inl left ↦ (n, omega arith, ground arith)
  | inr gone ↦ let (k, lt, left) = total-gap w n f (ground arith) in (k, omega (arith, lt), left)
]

-- Weights of at most 1, with one of them 0, add up to less than their number.
pub total-lt {ℓ} :
    {A : Type ℓ} (w : A → ℕ) (n : ℕ) (f : ℕ → A) (k : ℕ)
    → ((a : A) → w a ≤ 1)
    → k < n
    → w (f k) ≡ 0
    → total w n f < n
unfolding total
total-lt w zero f k small lt e = absurd (omega arith)
total-lt w (suc n) f k small lt e = elim (Bool-cases (k == n)) [
  | inl same ↦
      let last : w (f n) ≡ 0 = subst (λ i. w (f i) ≡ 0) (ground arith) e in
      omega (arith, total-le w 1 n f small, last)
  | inr other ↦ omega (arith, total-lt w n f k small (ground arith) e, small (f n))
]
