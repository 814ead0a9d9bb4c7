-- ===== src/Pg/Pool/Waiters.antt =====
-- extensions/pg/src/PoolState.cc: lemmas on the queue of waiters, whose cancelled ones are skipped.
use coro_test.Common.{
  ℕ, suc, ◌≡◌, ◌≢◌, refl, ap, subst, List, [], ◌∷◌, ◌++◌, Bool, true, false, ◌||◌, length, ◌==◌,
  arith, inl, inr, ◌⊎◌, Bool-cases,
}
use coro_test.Pg.Pool.{mem, erase, skip_cancelled}

pub length-erase : (x : ℕ) (xs : List ℕ) → mem x xs ≡ true → suc (length (erase x xs)) ≡ length xs
unfolding mem erase
length-erase x [] h = absurd cc
length-erase x (y ∷ ys) h = elim (Bool-cases (x == y)) [
  | inl same ↦ rw same refl
  | inr other ↦ rw other (ap suc (length-erase x ys (rw other at h)))
]

-- Cancelling leaves fewer waiters.
pub skip_more :
    (w : ℕ) (cancelled waiters : List ℕ)
    → skip_cancelled cancelled waiters ≡ []
    → skip_cancelled (w ∷ cancelled) waiters ≡ []
unfolding skip_cancelled mem
skip_more w cancelled [] h = refl
skip_more w cancelled (v ∷ waiters) h = elim (Bool-cases (mem v cancelled)) [
  | inl gone ↦
      let either : (v == w || mem v cancelled) ≡ true = rw gone (or_true (v == w)) in
      rw either (skip_more w cancelled waiters (rw gone at h))
  | inr waits ↦ absurd (cc)
]
  where
    or_true : (b : Bool) → (b || true) ≡ true
    or_true true = refl
    or_true false = refl

pub skip-append :
    (cancelled waiters : List ℕ) (n : ℕ)
    → ((skip_cancelled cancelled waiters ≡ [])
        × (skip_cancelled cancelled (waiters ++ n ∷ []) ≡ skip_cancelled cancelled (n ∷ [])))
      ⊎ (skip_cancelled cancelled waiters ≢ [])
unfolding skip_cancelled
skip-append cancelled [] n = inl (refl, refl)
skip-append cancelled (w ∷ waiters) n = elim (Bool-cases (mem w cancelled)) [
  | inl gone ↦ rw gone (skip-append cancelled waiters n)
  | inr waits ↦ rw waits (inr (λ e. cc))
]

-- A queue of one has nobody behind its first.
pub skip_one :
    (cancelled : List ℕ) (n w : ℕ) (waiters : List ℕ)
    → skip_cancelled cancelled (n ∷ []) ≡ w ∷ waiters
    → skip_cancelled cancelled waiters ≡ []
unfolding skip_cancelled
skip_one cancelled n w waiters h = elim (Bool-cases (mem n cancelled)) [
  | inl gone ↦ absurd (ground (arith, rw gone at h))
  | inr waits ↦
      let nobody : [] ≡ waiters = ground (arith, rw waits at h) in
      subst (λ (ws : List ℕ). skip_cancelled cancelled ws ≡ []) nobody refl
]
