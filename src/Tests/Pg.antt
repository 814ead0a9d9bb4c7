-- ===== src/Tests/Pg.antt =====
-- extensions/pg/src/PoolState.cc: a pool of one connection with two waiters.
use coro_test.Common.{◌≡◌, ◌⊎◌, refl, [], ◌∷◌, some, true, false}
use coro_test.Common.Error.{err}
use coro_test.Pg.Pool.{
  PoolState, new_pool, acquire, connected, cancel, dispatch, serve, skip_cancelled, mem, erase,
  Reaches, start, then_step, acquires, connects, promise_already_satisfied,
}
use coro_test.Pg.Pool.Dispatch.{IsCounted, live, slack}
use coro_test.Pg.Pool.Invariant.{Reaches-IsCounted}
use coro_test.Pg.Pool.Late.{cancel-connected}

abbrev two_waiters : PoolState
unfolding acquire dispatch serve new_pool skip_cancelled mem
two_waiters = acquire false (acquire false (new_pool 1))

abbrev served : PoolState
unfolding acquire dispatch serve new_pool skip_cancelled mem connected erase
served = connected 0 (some 7) two_waiters

connecting_lem : mem 0 two_waiters.connecting ≡ true
unfolding acquire dispatch serve new_pool skip_cancelled mem
connecting_lem = refl

-- The second waiter waits: the only connection is in use.
waiting : served.waiters ≡ 1 ∷ []
unfolding acquire dispatch serve new_pool skip_cancelled mem connected erase
waiting = refl

reached : Reaches (new_pool 1) served
unfolding acquire two_waiters connected served
reached =
    then_step (new_pool 1) two_waiters served
      (then_step (new_pool 1) (acquire false (new_pool 1)) two_waiters
        (then_step (new_pool 1) (new_pool 1) (acquire false (new_pool 1)) (start (new_pool 1))
          (acquires (new_pool 1) false))
        (acquires (acquire false (new_pool 1)) false))
      (connects two_waiters 0 (some 7) connecting_lem)

Reaches-IsCounted_example : IsCounted served × ((live served ≡ []) ⊎ (slack served ≡ 0))
Reaches-IsCounted_example = Reaches-IsCounted 1 served reached

not_cancelled : mem 0 two_waiters.cancelled ≡ false
unfolding acquire dispatch serve new_pool skip_cancelled mem
not_cancelled = refl

cancel-connected_example :
    cancel 0 (connected 0 (some 7) two_waiters) ≡ err promise_already_satisfied
cancel-connected_example = cancel-connected two_waiters 0 7 not_cancelled
