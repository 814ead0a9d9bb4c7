-- ===== src/Pg/Pool/Late.antt =====
-- A cancellation between the answer of a promise and the run of its coroutine.
use coro_test.Common.{
  ℕ, ◌≡◌, refl, List, [], ◌∷◌, ◌++◌, Bool, true, false, ◌||◌, some, ◌==◌, ==_refl,
}
use coro_test.Common.Error.{err}
use coro_test.Pg.Pool.{
  Answer, connection, PoolState, mem, connected, is_answered, cancel, promise_already_satisfied,
}

is_answered-append :
    (w : ℕ) (a : Answer) (answers : List (ℕ × Answer))
    → is_answered w (answers ++ (w, a) ∷ []) ≡ true
unfolding is_answered
is_answered-append w a [] = rw (==_refl w) refl
is_answered-append w a ((v, b) ∷ answers) = rw (is_answered-append w a answers) (or_true (w == v))
  where
    or_true : (b : Bool) → (b || true) ≡ true
    or_true true = refl
    or_true false = refl

-- When a waiter was given its new connection and is cancelled before its coroutine runs on, the callback
-- throws that the promise is set already.
pub cancel-connected :
    (p : PoolState) (w conn : ℕ)
    → mem w p.cancelled ≡ false
    → cancel w (connected w (some conn) p) ≡ err promise_already_satisfied
unfolding cancel connected
cancel-connected p w conn waits =
    rw waits (rw (waits, is_answered-append w (connection conn) p.answers) refl)
