-- ===== src/Core/Mutex.antt =====
-- include/nitrocoro/core/Mutex.h, by its atomic accesses: other threads act between any two of them.
-- `state_` is the unlocked value or the stack of the awaiters that pushed themselves, the latest first
-- (none is the null pointer), and `waiters_` the queue that the lock's owner keeps. `holders` are the
-- coroutines that own the lock, `arrived` those that had to wait, in the order of their pushes, and
-- `resumed` those that were resumed, in that order.
pub mod Invariant
pub mod Safety
use coro_test.Common.{ℕ, ◌≡◌, List, [], ◌∷◌, ◌++◌, Bool, true, false}

pub data Word : Type 0 where
  unlocked : Word
  locked : List ℕ → Word

-- Where `unlock` stands: it has been entered, must take the stack, or has a queue to hand the lock on.
pub data Phase : Type 0 where
  outside entered must_take handing : Phase

pub record Mutex : Type 0 where
  pub state : Word
  pub waiters : List ℕ
  pub phase : Phase
  pub holders : List ℕ
  pub arrived : List ℕ
  pub resumed : List ℕ

abbrev pub new_mutex : Mutex
new_mutex = record {
  state = unlocked;
  waiters = [];
  phase = outside;
  holders = [];
  arrived = [];
  resumed = [];
}

-- The owner that calls `unlock` gives up the lock.
unfoldable pub others : List ℕ → List ℕ
others [] = []
others (who ∷ rest) = rest

-- `try_lock`: the exchange from the unlocked value to the null pointer.
unfoldable pub try_lock : ℕ → Mutex → Bool × Mutex
try_lock who m = elim m.state [
  | unlocked ↦ (true, record m { state = locked []; holders = who ∷ m.holders })
  | locked stack ↦ (false, m)
]

-- A round of `asynclockImpl` that does not fail: it locks, or pushes the awaiter. The answer is whether the
-- coroutine stays suspended.
unfoldable pub async_lock : ℕ → Mutex → Bool × Mutex
async_lock who m = elim m.state [
  | unlocked ↦ (false, record m { state = locked []; holders = who ∷ m.holders })
  | locked stack ↦
      (true, record m { state = locked (who ∷ stack); arrived = m.arrived ++ who ∷ [] })
]

-- The first test of `unlock`, on `waiters_`.
unfoldable pub unlock_enter : Mutex → Mutex
unlock_enter m = elim m.waiters [
  | [] ↦ record m { phase = entered }
  | waiter ∷ waiters ↦ record m { phase = handing }
]

-- The exchange from the null pointer to the unlocked value; it fails when a stack is there.
unfoldable pub unlock_release : Mutex → Mutex
unlock_release m = elim m.state [
  | unlocked ↦ record m { phase = must_take }
  | locked [] ↦ record m { state = unlocked; phase = outside; holders = others m.holders }
  | locked (waiter ∷ stack) ↦ record m { phase = must_take }
]

-- The loop that turns the stack over.
unfoldable pub reverse_onto : List ℕ → List ℕ → List ℕ
reverse_onto [] waiters_head = waiters_head
reverse_onto (waiter ∷ stack) waiters_head = reverse_onto stack (waiter ∷ waiters_head)

unfoldable pub stack_of : Word → List ℕ
stack_of unlocked = []
stack_of (locked stack) = stack

-- The exchange that takes the stack.
unfoldable pub unlock_take : Mutex → Mutex
unlock_take m = record m {
  state = locked [];
  waiters = reverse_onto (stack_of m.state) m.waiters;
  phase = handing;
}

-- The first of the queue is resumed, and owns the lock.
unfoldable pub unlock_hand : Mutex → Mutex
unlock_hand m = elim m.waiters [
  | [] ↦ m
  | waiter ∷ waiters ↦ record m {
    waiters = waiters;
    phase = outside;
    holders = waiter ∷ others m.holders;
    resumed = m.resumed ++ waiter ∷ [];
  }
]

-- The atomic steps of all coroutines. `unlock` is called by an owner, and not twice at once.
pub data Step : Mutex → Mutex → Type 0 where
  tries : (m : Mutex) (who : ℕ) → Step m (try_lock who m).1
  asks : (m : Mutex) (who : ℕ) → Step m (async_lock who m).1
  enters :
      (m : Mutex) (who : ℕ) (rest : List ℕ)
      → m.holders ≡ who ∷ rest
      → m.phase ≡ outside
      → Step m (unlock_enter m)
  releases : (m : Mutex) → m.phase ≡ entered → Step m (unlock_release m)
  takes : (m : Mutex) → m.phase ≡ must_take → Step m (unlock_take m)
  hands : (m : Mutex) → m.phase ≡ handing → Step m (unlock_hand m)

pub data Reaches : Mutex → Mutex → Type 0 where
  start : (m : Mutex) → Reaches m m
  then_step : (m n o : Mutex) → Reaches m n → Step n o → Reaches m o
