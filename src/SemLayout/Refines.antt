-- ===== src/SemLayout/Refines.antt =====
-- The named semaphores stand for those of the set: the numbers are in range, no two names share one,
-- and the operations agree.
use restaurante_so.Prelude.{
  ℕ, ◌+◌, ◌-◌, ◌≤◌, ◌≡◌, ◌⊎◌, true, none, some, sym, ◌∙◌, ==_refl, arith, Bool-cases, inl, inr,
  update, ◌==◌,
}
use restaurante_so.Semaphore.{
  Sem, Shared, next, blocked, mutex, receptionist_req, sem_eq, is_sem, set_sem, sem_down, sem_up,
}
use restaurante_so.SemLayout.{sem_id, sem_nu, down_at, up_at}

-- Every id lies between 1 and the number of semaphores, so that the `assert (sindex > 0)` holds and
-- semaphore 0, which starts the operations, is not touched.
pub sem_id_range :
    (n : ℕ) (s : Sem) → is_sem n s ≡ true → (1 ≤ sem_id n s) × (sem_id n s ≤ sem_nu n)
unfolding sem_id sem_nu
sem_id_range n mutex v = ground arith
sem_id_range n _ v = ground arith

same_id :
    (n : ℕ) (s r : Sem)
    → is_sem n s ≡ true
    → is_sem n r ≡ true
    → (sem_id n s == sem_id n r) ≡ sem_eq s r
unfolding sem_id
same_id n mutex r v w = ground arith
same_id n receptionist_req r v w = ground arith
same_id n _ r v w = ground arith

-- Two names of semaphores with the same id are one.
pub sem_id_injective :
    (n : ℕ) (s r : Sem)
    → is_sem n s ≡ true
    → is_sem n r ≡ true
    → sem_id n s ≡ sem_id n r
    → sem_eq s r ≡ true
sem_id_injective n s r v w e = sym (same_id n s r v w) ∙ ==_refl e

-- The values of a set, by name, and a memory that has them.
abbrev pub named : ℕ → (ℕ → ℕ) → Sem → ℕ
named n values s = values (sem_id n s)

abbrev pub with_values : Shared → (ℕ → ℕ) → Shared
with_values sh values = record sh { sems = named sh.f_st.n_groups values }

abbrev pub with_sem : Shared → (ℕ → ℕ) → Sem → ℕ → Shared
with_sem sh values s k = record sh { sems = set_sem (named sh.f_st.n_groups values) s k }

-- A write at the id of `s` is read at the id of `r` as the named write is.
named-update :
    (n : ℕ) (values : ℕ → ℕ) (s r : Sem) (k : ℕ)
    → is_sem n s ≡ true
    → is_sem n r ≡ true
    → named n (update values (sem_id n s) k) r ≡ set_sem (named n values) s k r
named-update n values s r k v w = rw (same_id n s r v w)

-- `semUp` on the set does what `sem_up` does on the named semaphores, for all names of semaphores.
pub sem_up_refines :
    {P : Type 0} (sh : Shared) (p : P) (values : ℕ → ℕ) (s r : Sem)
    → is_sem sh.f_st.n_groups s ≡ true
    → is_sem sh.f_st.n_groups r ≡ true
    → let n = sh.f_st.n_groups in
      (sem_up s (with_values sh values) p ≡ next (with_sem sh values s (named n values s + 1)) p)
      × (named n (up_at (sem_id n s) values) r
          ≡ set_sem (named n values) s (named n values s + 1) r)
unfolding sem_up up_at
sem_up_refines sh p values s r v w = (rw v, named-update sh.f_st.n_groups values s r _ v w)

-- `semDown` on the set waits when `sem_down` does, and otherwise takes the same unit.
pub sem_down_refines :
    {P : Type 0} (sh : Shared) (p : P) (values : ℕ → ℕ) (s r : Sem)
    → is_sem sh.f_st.n_groups s ≡ true
    → is_sem sh.f_st.n_groups r ≡ true
    → let n = sh.f_st.n_groups in
      ((down_at (sem_id n s) values ≡ none) × (sem_down s (with_values sh values) p ≡ blocked))
      ⊎ ((left : ℕ → ℕ) × (down_at (sem_id n s) values ≡ some left)
          × (sem_down s (with_values sh values) p
              ≡ next (with_sem sh values s (named n values s - 1)) p)
          × (named n left r ≡ set_sem (named n values) s (named n values s - 1) r))
unfolding sem_down down_at
sem_down_refines sh p values s r v w = elim (Bool-cases (named sh.f_st.n_groups values s == 0)) [
  | inl empty ↦ inl (rw empty, rw v (rw empty))
  | inr free ↦ inr (
    update values (sem_id sh.f_st.n_groups s) (named sh.f_st.n_groups values s - 1),
    rw free,
    rw v (rw free),
    named-update sh.f_st.n_groups values s r _ v w,
  )
]
