-- ===== src/Tests/Core.antt =====
-- include/nitrocoro/core/Mutex.h: two coroutines wait for the owner, and its `unlock` finds their stack.
use coro_test.Common.{◌≤◌, ◌≡◌, ◌≢◌, refl, [], ◌∷◌, ◌++◌, length}
use coro_test.Core.Mutex.{
  Mutex, new_mutex, try_lock, async_lock, unlock_enter, unlock_release, unlock_take, unlock_hand,
  reverse_onto, stack_of, others, Reaches, start, then_step, tries, asks, enters, releases, takes,
  hands,
}
use coro_test.Core.Mutex.Invariant.{queue}
use coro_test.Core.Mutex.Safety.{
  mutual_exclusion, first_come, all_resumed, stack_to_take, waiter_to_resume,
}

-- Coroutine 1 owns the lock; 2 and 3 wait.
abbrev waited : Mutex
unfolding try_lock async_lock
waited = (async_lock 3 (async_lock 2 (try_lock 1 new_mutex).1).1).1

abbrev refused : Mutex
unfolding try_lock async_lock unlock_enter unlock_release
refused = unlock_release (unlock_enter waited)

abbrev taken : Mutex
unfolding try_lock async_lock unlock_enter unlock_release unlock_take reverse_onto stack_of
taken = unlock_take refused

reaches_waited : Reaches new_mutex waited
unfolding waited try_lock async_lock
reaches_waited =
    then_step _ _ _
      (then_step _ _ _ (then_step _ _ _ (start new_mutex) (tries new_mutex 1))
        (asks (try_lock 1 new_mutex).1 2))
      (asks (async_lock 2 (try_lock 1 new_mutex).1).1 3)

reaches_refused : Reaches new_mutex refused
unfolding refused waited try_lock async_lock unlock_enter unlock_release
reaches_refused =
    then_step _ _ _ (then_step _ _ _ reaches_waited (enters waited 1 [] refl refl))
      (releases (unlock_enter waited) refl)

reaches_taken : Reaches new_mutex taken
unfolding taken refused waited try_lock async_lock unlock_enter unlock_release unlock_take
reaches_taken = then_step _ _ _ reaches_refused (takes refused refl)

-- The first that came is the next owner.
next_owner : (unlock_hand taken).holders ≡ 2 ∷ []
unfolding taken refused waited try_lock async_lock unlock_enter unlock_release unlock_take
    unlock_hand reverse_onto stack_of others
next_owner = refl

mutual_exclusion_example : length taken.holders ≤ 1
mutual_exclusion_example = mutual_exclusion taken reaches_taken

first_come_example : taken.arrived ≡ taken.resumed ++ queue taken
first_come_example = first_come taken reaches_taken

-- The lock goes to 2, to 3, and back.
abbrev freed : Mutex
unfolding taken unlock_enter unlock_release unlock_hand
freed = unlock_release (unlock_enter (unlock_hand (unlock_enter (unlock_hand taken))))

reaches_freed : Reaches new_mutex freed
unfolding freed taken refused waited try_lock async_lock unlock_enter unlock_release unlock_take
    unlock_hand reverse_onto stack_of others
reaches_freed =
    let second : Reaches new_mutex (unlock_hand taken) =
      then_step _ _ _ reaches_taken (hands taken refl) in
    let third : Reaches new_mutex (unlock_hand (unlock_enter (unlock_hand taken))) =
      then_step _ _ _ (then_step _ _ _ second (enters (unlock_hand taken) 2 [] refl refl))
        (hands (unlock_enter (unlock_hand taken)) refl) in
    then_step _ _ _
      (then_step _ _ _ third
        (enters (unlock_hand (unlock_enter (unlock_hand taken))) 3 [] refl refl))
      (releases (unlock_enter (unlock_hand (unlock_enter (unlock_hand taken)))) refl)

all_resumed_example : freed.arrived ≡ freed.resumed
unfolding freed taken refused waited try_lock async_lock unlock_enter unlock_release unlock_take
    unlock_hand reverse_onto stack_of others
all_resumed_example = all_resumed freed reaches_freed refl

stack_to_take_example : stack_of refused.state ≢ []
unfolding refused waited try_lock async_lock unlock_enter unlock_release
stack_to_take_example = stack_to_take refused reaches_refused refl

waiter_to_resume_example : taken.waiters ≢ []
unfolding taken refused waited try_lock async_lock unlock_enter unlock_release unlock_take
waiter_to_resume_example = waiter_to_resume taken reaches_taken refl
