-- ===== src/Pg/Pool/Dispatch.antt =====
-- `PoolState::dispatch` keeps the count of connections and serves as many waiters as it can.
use coro_test.Common.{
  ℕ, suc, ◌+◌, ◌-◌, ◌≤◌, ◌≡◌, ◌≢◌, refl, ap, List, [], ◌∷◌, ◌++◌, length, ltb, arith, length-append,
  inl, inr, Bool-cases, ltb→lt, ltb-false→le,
}
use coro_test.Pg.Pool.{
  Answer, connection, connect_error, timed_out, PoolState, mem, skip_cancelled, serve, dispatch,
}

-- The connections that promises hold.
unfoldable pub held : List (ℕ × Answer) → ℕ
held [] = 0
held ((w, connection conn) ∷ answers) = suc (held answers)
held ((w, connect_error) ∷ answers) = held answers
held ((w, timed_out) ∷ answers) = held answers

pub held-append : (xs ys : List (ℕ × Answer)) → held (xs ++ ys) ≡ held xs + held ys
unfolding held
held-append [] ys = omega arith
held-append ((w, connection conn) ∷ xs) ys = omega (arith, held-append xs ys)
held-append ((w, connect_error) ∷ xs) ys = held-append xs ys
held-append ((w, timed_out) ∷ xs) ys = held-append xs ys

-- The connections that exist or are being opened.
abbrev pub in_use : PoolState → ℕ
in_use p = length p.idle + length p.connecting + held p.answers + length p.leased

-- The count is that of the connections, and within the limit.
abbrev pub IsCounted : PoolState → Type 0
IsCounted p = (p.total_count ≡ in_use p) × (p.total_count ≤ p.max_size)

-- What the pool could still give.
abbrev pub slack : PoolState → ℕ
slack p = length p.idle + (p.max_size - p.total_count)

-- The waiters that wait for something.
abbrev pub live : PoolState → List ℕ
live p = skip_cancelled p.cancelled p.waiters

-- Nobody waits while there is something to give.
abbrev pub IsServed : PoolState → Type 0
IsServed p = live p ≢ [] → slack p ≡ 0

pub serve-IsCounted :
    (p : PoolState) (waiters idle : List ℕ)
    → p.idle ≡ idle
    → IsCounted p
    → IsCounted (serve p waiters idle)
unfolding serve held
serve-IsCounted p [] idle e h = h
serve-IsCounted p (w ∷ waiters) (conn ∷ idle) e (count, fits) = (
  omega
      (arith, count, ap (length {A = ℕ}) e, held-append p.answers ((w, connection conn) ∷ []), one),
  fits,
)
  where
    one : held ((w, connection conn) ∷ []) ≡ 1
    one = refl
serve-IsCounted p (w ∷ waiters) [] e (count, fits) =
    elim (Bool-cases (ltb p.total_count p.max_size)) [
      | inl less ↦
          rw less (omega (arith, count, length-append p.connecting (w ∷ [])), ltb→lt _ _ less)
      | inr full ↦ rw full (count, fits)
    ]

pub dispatch-IsCounted : (p : PoolState) → IsCounted p → IsCounted (dispatch p)
unfolding dispatch
dispatch-IsCounted p h = serve-IsCounted p (live p) p.idle refl h

-- The skipping is done once.
pub skip_cancelled_twice :
    (cancelled waiters : List ℕ)
    → skip_cancelled cancelled (skip_cancelled cancelled waiters) ≡ skip_cancelled cancelled waiters
unfolding skip_cancelled
skip_cancelled_twice cancelled [] = refl
skip_cancelled_twice cancelled (w ∷ waiters) = elim (Bool-cases (mem w cancelled)) [
  | inl gone ↦ rw gone (skip_cancelled_twice cancelled waiters)
  | inr waits ↦ rw waits (rw (skip_cancelled, waits) refl)
]

-- Whoever stands behind the first waiter finds one thing to give at most.
abbrev pub IsNearlyServed : PoolState → Type 0
IsNearlyServed p =
    (w : ℕ) (waiters : List ℕ)
    → live p ≡ w ∷ waiters
    → skip_cancelled p.cancelled waiters ≢ []
    → slack p ≤ 1

serve-IsServed :
    (p : PoolState) (waiters idle : List ℕ)
    → p.idle ≡ idle
    → p.total_count ≤ p.max_size
    → live p ≡ waiters
    → IsNearlyServed p
    → IsServed (serve p waiters idle)
unfolding serve skip_cancelled
serve-IsServed p [] idle e fits first near = λ waits. absurd (waits refl)
serve-IsServed p (w ∷ waiters) (conn ∷ idle) e fits first near =
    λ waits. omega (arith, near w waiters first waits, ap (length {A = ℕ}) e)
serve-IsServed p (w ∷ waiters) [] e fits first near =
    elim (Bool-cases (ltb p.total_count p.max_size)) [
      | inl less ↦ rw less (λ waits.
          omega (arith, near w waiters first waits, ap (length {A = ℕ}) e, ltb→lt _ _ less))
      | inr full ↦ rw full (λ waits. omega (arith, ap (length {A = ℕ}) e, ltb-false→le _ _ full))
    ]

pub dispatch-IsServed :
    (p : PoolState) → p.total_count ≤ p.max_size → IsNearlyServed p → IsServed (dispatch p)
unfolding dispatch
dispatch-IsServed p fits near = serve-IsServed p (live p) p.idle refl fits refl near
