-- ===== src/Pg/Pool.antt =====
-- extensions/pg/src/PoolState.cc, and what PgPool.cc and PooledConnection.cc do to its state. A waiter and a
-- connection go by their numbers; a waiter's number is that of its `acquire`, and `cancelled` lists the
-- waiters whose flag is set. `connecting` are the coroutines that `dispatch` spawned, `answers` the
-- promises that are set and whose coroutine has not run yet, and `leased` the connections in use.
pub mod Dispatch
pub mod Waiters
pub mod Invariant
pub mod Late
use coro_test.Common.{
  ℕ, zero, suc, ◌+◌, ◌-◌, ◌≡◌, List, [], ◌∷◌, ◌++◌, Bool, true, false, ◌||◌, Option, none, some,
  length, ltb, ◌==◌, if◌then◌else◌,
}
use coro_test.Common.Error.{Result, ok, err}

pub data Answer : Type 0 where
  connection : ℕ → Answer
  connect_error timed_out : Answer

pub data PoolFault : Type 0 where
  promise_already_satisfied : PoolFault

pub record PoolState : Type 0 where
  pub max_size : ℕ
  pub total_count : ℕ
  pub idle : List ℕ
  pub waiters : List ℕ
  pub cancelled : List ℕ
  pub connecting : List ℕ
  pub answers : List (ℕ × Answer)
  pub leased : List ℕ
  pub next_waiter : ℕ

unfoldable pub new_pool : ℕ → PoolState
new_pool max = record {
  max_size = max;
  total_count = 0;
  idle = [];
  waiters = [];
  cancelled = [];
  connecting = [];
  answers = [];
  leased = [];
  next_waiter = 0;
}

unfoldable pub mem : ℕ → List ℕ → Bool
mem x [] = false
mem x (y ∷ ys) = x == y || mem x ys

unfoldable pub erase : ℕ → List ℕ → List ℕ
erase x [] = []
erase x (y ∷ ys) = let rest = erase x ys in if x == y then ys else y ∷ rest

-- The loop that skips cancelled waiters.
unfoldable pub skip_cancelled : List ℕ → List ℕ → List ℕ
skip_cancelled cancelled [] = []
skip_cancelled cancelled (w ∷ waiters) =
    let rest = skip_cancelled cancelled waiters in if mem w cancelled then rest else w ∷ waiters

-- `dispatch` on the waiters that are left.
unfoldable pub serve : PoolState → List ℕ → List ℕ → PoolState
serve p [] idle = record p { waiters = [] }
serve p (w ∷ waiters) (conn ∷ idle) = record p {
  idle = idle;
  waiters = waiters;
  answers = p.answers ++ (w, connection conn) ∷ [];
}
serve p (w ∷ waiters) [] =
    if ltb p.total_count p.max_size
    then record p {
      total_count = suc p.total_count;
      waiters = waiters;
      connecting = p.connecting ++ w ∷ [];
    }
    else record p { waiters = w ∷ waiters }

unfoldable pub dispatch : PoolState → PoolState
dispatch p = serve p (skip_cancelled p.cancelled p.waiters) p.idle

-- `PgPool::acquire`, up to its wait for the promise. The callback of a token that is cancelled already
-- runs where it is registered.
unfoldable pub acquire : Bool → PoolState → PoolState
acquire false p =
    dispatch
      (record p { waiters = p.waiters ++ p.next_waiter ∷ []; next_waiter = suc p.next_waiter })
acquire true p = dispatch (record p {
  waiters = p.waiters ++ p.next_waiter ∷ [];
  next_waiter = suc p.next_waiter;
  cancelled = p.next_waiter ∷ p.cancelled;
  answers = p.answers ++ (p.next_waiter, timed_out) ∷ [];
})

-- The rest of the spawned coroutine of a waiter: `none` where the connect threw.
unfoldable pub connected : ℕ → Option ℕ → PoolState → PoolState
connected w none p =
    let answered =
      (if mem w p.cancelled then p.answers else p.answers ++ (w, connect_error) ∷ []) in
    dispatch (record p {
      total_count = p.total_count - 1;
      connecting = erase w p.connecting;
      answers = answered;
    })
connected w (some conn) p =
    if mem w p.cancelled
    then dispatch (record p { connecting = erase w p.connecting; idle = p.idle ++ conn ∷ [] })
    else record p {
      connecting = erase w p.connecting;
      answers = p.answers ++ (w, connection conn) ∷ [];
    }

-- The callback that `returnConnection` hands to the scheduler.
unfoldable pub return_connection : ℕ → Bool → PoolState → PoolState
return_connection conn true p =
    dispatch (record p { leased = erase conn p.leased; idle = p.idle ++ conn ∷ [] })
return_connection conn false p =
    dispatch (record p { leased = erase conn p.leased; total_count = p.total_count - 1 })

-- The callback of `detachConnection`
unfoldable pub detach_connection : ℕ → PoolState → PoolState
detach_connection conn p =
    dispatch (record p { leased = erase conn p.leased; total_count = p.total_count - 1 })

unfoldable pub is_answered : ℕ → List (ℕ × Answer) → Bool
is_answered w [] = false
is_answered w ((v, a) ∷ answers) = w == v || is_answered w answers

-- The cancel callback of `acquire`. It holds the waiter weakly, and does nothing once it is gone;
-- setting a promise that is set throws.
unfoldable pub cancel : ℕ → PoolState → Result PoolFault PoolState
cancel w p =
    if mem w p.cancelled
    then ok p
    else if is_answered w p.answers
    then err promise_already_satisfied
    else if mem w p.waiters || mem w p.connecting
    then ok (record p { cancelled = w ∷ p.cancelled; answers = p.answers ++ (w, timed_out) ∷ [] })
    else ok p

-- The coroutine of an `acquire` runs on when its promise is the first that was set: it owns the
-- connection, or throws.
unfoldable pub resume : PoolState → List (ℕ × Answer) → PoolState
resume p [] = p
resume p ((w, connection conn) ∷ answers) = record p { answers = answers; leased = conn ∷ p.leased }
resume p ((w, connect_error) ∷ answers) = record p { answers = answers }
resume p ((w, timed_out) ∷ answers) = record p { answers = answers }

-- What can happen to the pool, on its scheduler's thread.
pub data Step : PoolState → PoolState → Type 0 where
  acquires : (p : PoolState) (already : Bool) → Step p (acquire already p)
  connects :
      (p : PoolState) (w : ℕ) (result : Option ℕ)
      → mem w p.connecting ≡ true
      → Step p (connected w result p)
  returns :
      (p : PoolState) (conn : ℕ) (alive : Bool)
      → mem conn p.leased ≡ true
      → Step p (return_connection conn alive p)
  detaches :
      (p : PoolState) (conn : ℕ) → mem conn p.leased ≡ true → Step p (detach_connection conn p)
  cancels : (p q : PoolState) (w : ℕ) → cancel w p ≡ ok q → Step p q
  resumes : (p : PoolState) → Step p (resume p p.answers)

pub data Reaches : PoolState → PoolState → Type 0 where
  start : (p : PoolState) → Reaches p p
  then_step : (p q r : PoolState) → Reaches p q → Step q r → Reaches p r
