-- ===== src/Core/Mutex/Safety.antt =====
-- What the invariant gives: one owner, first come first served, nobody lost.
use coro_test.Common.{ℕ, ◌≤◌, ◌≡◌, ◌≢◌, ap, ◌∙◌, List, [], ◌++◌, length, arith, append-nil, subst}
use coro_test.Core.Mutex.{
  Word, unlocked, locked, Phase, outside, entered, must_take, handing, Mutex, new_mutex,
  reverse_onto, stack_of, Reaches,
}
use coro_test.Core.Mutex.Invariant.{Shape, queue, Reaches-IsValid}

one_at_most :
    (state : Word) (phase : Phase) (waiters holders : List ℕ)
    → Shape state phase waiters holders
    → length holders ≤ 1
one_at_most unlocked outside waiters holders (nobody, none_holds) =
    omega (arith, ap (length {A = ℕ}) none_holds)
one_at_most unlocked entered waiters holders h = absurd h
one_at_most unlocked must_take waiters holders h = absurd h
one_at_most unlocked handing waiters holders h = absurd h
one_at_most (locked stack) outside waiters holders one = omega arith
one_at_most (locked stack) entered waiters holders (one, h) = omega arith
one_at_most (locked stack) must_take waiters holders (one, h, h') = omega arith
one_at_most (locked stack) handing waiters holders (one, h) = omega arith

-- However the atomic accesses of the coroutines interleave, one coroutine owns the lock at most.
pub mutual_exclusion : (m : Mutex) → Reaches new_mutex m → length m.holders ≤ 1
mutual_exclusion m reached =
    one_at_most m.state m.phase m.waiters m.holders (Reaches-IsValid m reached).0

-- Coroutines that wait are resumed in the order in which they pushed themselves, and all that were not
-- resumed yet are in the queue: none is lost.
pub first_come : (m : Mutex) → Reaches new_mutex m → m.arrived ≡ m.resumed ++ queue m
first_come m reached = (Reaches-IsValid m reached).1

unlocked-Shape :
    (phase : Phase) (waiters holders : List ℕ) → Shape unlocked phase waiters holders → waiters ≡ []
unlocked-Shape outside waiters holders (nobody, none_holds) = nobody
unlocked-Shape entered waiters holders h = absurd h
unlocked-Shape must_take waiters holders h = absurd h
unlocked-Shape handing waiters holders h = absurd h

-- When the lock is free, every coroutine that waited has been resumed.
pub all_resumed : (m : Mutex) → Reaches new_mutex m → m.state ≡ unlocked → m.arrived ≡ m.resumed
unfolding reverse_onto stack_of
all_resumed m reached free =
    let (shape, order) = Reaches-IsValid m reached in
    let nobody =
      unlocked-Shape m.phase m.waiters m.holders
        (subst (λ (s : Word). Shape s m.phase m.waiters m.holders) free shape) in
    rw (nobody, free) at order ∙ append-nil m.resumed

must_take-Shape :
    (state : Word) (waiters holders : List ℕ)
    → Shape state must_take waiters holders
    → stack_of state ≢ []
unfolding stack_of
must_take-Shape unlocked waiters holders h = absurd h
must_take-Shape (locked stack) waiters holders (one, nobody, some_wait) = some_wait

handing-Shape :
    (state : Word) (waiters holders : List ℕ) → Shape state handing waiters holders → waiters ≢ []
handing-Shape unlocked waiters holders h = absurd h
handing-Shape (locked stack) waiters holders (one, some_wait) = some_wait

-- The assertions of `unlock` hold: when it takes the stack, there is one.
pub stack_to_take : (m : Mutex) → Reaches new_mutex m → m.phase ≡ must_take → stack_of m.state ≢ []
stack_to_take m reached at =
    must_take-Shape m.state m.waiters m.holders
      (subst (λ (p : Phase). Shape m.state p m.waiters m.holders) at (Reaches-IsValid m reached).0)

-- When `unlock` hands the lock on, there is somebody to hand it to.
pub waiter_to_resume : (m : Mutex) → Reaches new_mutex m → m.phase ≡ handing → m.waiters ≢ []
waiter_to_resume m reached at =
    handing-Shape m.state m.waiters m.holders
      (subst (λ (p : Phase). Shape m.state p m.waiters m.holders) at (Reaches-IsValid m reached).0)
