-- ===== src/Pg/Pool/Invariant.antt =====
-- What holds of the pool in every state that it reaches.
use coro_test.Common.{
  ℕ, suc, ◌≤◌, ◌≡◌, ◌≢◌, refl, ap, sym, subst, ◌∙◌, List, [], ◌∷◌, ◌++◌, Bool, true, false, ◌||◌,
  Option, none, some, length, arith, length-append, inl, inr, ◌⊎◌, Bool-cases,
}
use coro_test.Common.Error.{Result, ok}
use coro_test.Pg.Pool.{
  Answer, connection, connect_error, timed_out, PoolState, new_pool, mem, erase, skip_cancelled,
  dispatch, acquire, connected, return_connection, detach_connection, is_answered, cancel, resume,
  Step, acquires, connects, returns, detaches, cancels, resumes, Reaches, start, then_step,
  PoolFault,
}
use coro_test.Pg.Pool.Waiters.{length-erase, skip_more, skip-append, skip_one}
use coro_test.Pg.Pool.Dispatch.{
  held, in_use, held-append, IsCounted, slack, live, IsServed, IsNearlyServed, dispatch-IsCounted,
  dispatch-IsServed,
}

abbrev pub IsValid : PoolState → Type 0
IsValid p = IsCounted p × IsServed p

-- An event that gives the pool one thing more at most, before `dispatch`.
frees-IsValid :
    (p q : PoolState)
    → IsServed p
    → live q ≡ live p
    → slack q ≤ suc (slack p)
    → IsCounted q
    → IsValid (dispatch q)
frees-IsValid p q served same more counted =
    (dispatch-IsCounted q counted, dispatch-IsServed q counted.1 near)
  where
    near : IsNearlyServed q
    near w waiters first later =
        let some_wait : live p ≢ [] = λ e. cc in omega (arith, served some_wait, more)

-- A new waiter at the end of the queue stands behind somebody, or is alone.
push-IsNearlyServed :
    (q : PoolState) (before : List ℕ) (n : ℕ)
    → q.waiters ≡ before ++ n ∷ []
    → (skip_cancelled q.cancelled before ≢ [] → slack q ≡ 0)
    → IsNearlyServed q
push-IsNearlyServed q before n pushed served w waiters first later =
    elim (skip-append q.cancelled before n) [
      | inl (nobody, alone) ↦
          let single = sym alone ∙ ap (skip_cancelled q.cancelled) (sym pushed) ∙ first in
          absurd (later (skip_one q.cancelled n w waiters single))
      | inr waited ↦ omega (arith, served waited)
    ]

acquire-IsValid : (already : Bool) (p : PoolState) → IsValid p → IsValid (acquire already p)
unfolding acquire held
acquire-IsValid false p (counted, served) = (
  dispatch-IsCounted q counted,
  dispatch-IsServed q counted.1 (push-IsNearlyServed q p.waiters p.next_waiter refl served),
)
  where
    q : PoolState
    q = record p { waiters = p.waiters ++ p.next_waiter ∷ []; next_waiter = suc p.next_waiter }
acquire-IsValid true p ((count, fits), served) = (
  dispatch-IsCounted q (counted, fits),
  dispatch-IsServed q fits (
      push-IsNearlyServed q p.waiters p.next_waiter refl
        (λ waits. served (λ nobody. waits (skip_more p.next_waiter p.cancelled p.waiters nobody)))),
)
  where
    q : PoolState
    q = record p {
      waiters = p.waiters ++ p.next_waiter ∷ [];
      next_waiter = suc p.next_waiter;
      cancelled = p.next_waiter ∷ p.cancelled;
      answers = p.answers ++ (p.next_waiter, timed_out) ∷ [];
    }

    counted : p.total_count ≡ in_use q
    counted = omega (arith, count, held-append p.answers ((p.next_waiter, timed_out) ∷ []))

connected-IsValid :
    (p : PoolState) (w : ℕ) (result : Option ℕ)
    → mem w p.connecting ≡ true
    → IsValid p
    → IsValid (connected w result p)
unfolding connected held
connected-IsValid p w none here ((count, fits), served) = elim (Bool-cases (mem w p.cancelled)) [
  | inl gone ↦ rw gone (
      frees-IsValid p _ served refl (omega (arith, fewer, count))
        (omega (arith, fewer, count), omega arith))
  | inr waits ↦ rw waits (
      frees-IsValid p _ served refl (omega (arith, fewer, count))
        (omega (arith, fewer, count, held-append p.answers ((w, connect_error) ∷ [])), omega arith))
]
  where
    fewer : suc (length (erase w p.connecting)) ≡ length p.connecting
    fewer = length-erase w p.connecting here
connected-IsValid p w (some conn) here ((count, fits), served) =
    let fewer = length-erase w p.connecting here in
    elim (Bool-cases (mem w p.cancelled)) [
      | inl gone ↦
          let longer = length-append p.idle (conn ∷ []) in
          rw gone (
            frees-IsValid p _ served refl (omega (arith, longer))
              (omega (arith, fewer, count, longer), fits))
      | inr waits ↦
          let holds = held-append p.answers ((w, connection conn) ∷ []) in
          rw waits ((omega (arith, fewer, count, holds), fits), served)
    ]

return_connection-IsValid :
    (p : PoolState) (conn : ℕ) (alive : Bool)
    → mem conn p.leased ≡ true
    → IsValid p
    → IsValid (return_connection conn alive p)
unfolding return_connection
return_connection-IsValid p conn true here ((count, fits), served) =
    let fewer = length-erase conn p.leased here in
    let longer = length-append p.idle (conn ∷ []) in
    frees-IsValid p _ served refl (omega (arith, longer))
      (omega (arith, fewer, count, longer), fits)
return_connection-IsValid p conn false here ((count, fits), served) =
    let fewer = length-erase conn p.leased here in
    frees-IsValid p _ served refl (omega (arith, fewer, count))
      (omega (arith, fewer, count), omega arith)

detach_connection-IsValid :
    (p : PoolState) (conn : ℕ)
    → mem conn p.leased ≡ true
    → IsValid p
    → IsValid (detach_connection conn p)
unfolding detach_connection
detach_connection-IsValid p conn here ((count, fits), served) =
    let fewer = length-erase conn p.leased here in
    frees-IsValid p _ served refl (omega (arith, fewer, count))
      (omega (arith, fewer, count), omega arith)

cancelled-IsValid :
    (p : PoolState) (w : ℕ)
    → IsValid p
    → IsValid (record p { cancelled = w ∷ p.cancelled; answers = p.answers ++ (w, timed_out) ∷ [] })
unfolding held
cancelled-IsValid p w ((count, fits), served) = (
  (omega (arith, count, held-append p.answers ((w, timed_out) ∷ [])), fits),
  λ waits. served (λ nobody. waits (skip_more w p.cancelled p.waiters nobody)),
)

cancel-IsValid : (p q : PoolState) (w : ℕ) → cancel w p ≡ ok q → IsValid p → IsValid q
unfolding cancel
cancel-IsValid p q w e valid = elim (Bool-cases (mem w p.cancelled)) [
  | inl twice ↦ subst IsValid (same (rw twice at e)) valid
  | inr first ↦ elim (Bool-cases (is_answered w p.answers)) [
    | inl late ↦ absurd (ground (arith, rw (first, late) at e))
    | inr open_still ↦ elim (Bool-cases (mem w p.waiters || mem w p.connecting)) [
      | inl waits ↦
          subst IsValid (same (rw (first, open_still, waits) at e)) (cancelled-IsValid p w valid)
      | inr gone ↦ subst IsValid (same (rw (first, open_still, gone) at e)) valid
    ]
  ]
]
  where
    same : {x : PoolState} → Path (Result PoolFault PoolState) (ok x) (ok q) → x ≡ q
    same h = cc

resume-IsValid :
    (p : PoolState) (answers : List (ℕ × Answer))
    → p.answers ≡ answers
    → IsValid p
    → IsValid (resume p answers)
unfolding resume held
resume-IsValid p [] e valid = valid
resume-IsValid p ((w, connection conn) ∷ answers) e ((count, fits), served) =
    ((omega (arith, count, ap held e), fits), served)
resume-IsValid p ((w, connect_error) ∷ answers) e ((count, fits), served) =
    ((omega (arith, count, ap held e), fits), served)
resume-IsValid p ((w, timed_out) ∷ answers) e ((count, fits), served) =
    ((omega (arith, count, ap held e), fits), served)

Step-IsValid : (p q : PoolState) → Step p q → IsValid p → IsValid q
Step-IsValid _ _ (acquires p already) valid = acquire-IsValid already p valid
Step-IsValid _ _ (connects p w result here) valid = connected-IsValid p w result here valid
Step-IsValid _ _ (returns p conn alive here) valid =
    return_connection-IsValid p conn alive here valid
Step-IsValid _ _ (detaches p conn here) valid = detach_connection-IsValid p conn here valid
Step-IsValid _ _ (cancels p q w e) valid = cancel-IsValid p q w e valid
Step-IsValid _ _ (resumes p) valid = resume-IsValid p p.answers refl valid

new_pool-IsValid : (max : ℕ) → IsValid (new_pool max)
unfolding new_pool held skip_cancelled
new_pool-IsValid max = ((omega arith, omega arith), λ waits. absurd (waits refl))

Reaches-keeps : (p q : PoolState) → Reaches p q → IsValid p → IsValid q
Reaches-keeps p _ (start _) valid = valid
Reaches-keeps p _ (then_step _ q r before step) valid =
    Step-IsValid q r step (Reaches-keeps p q before valid)

List-cases : (xs : List ℕ) → (xs ≡ []) ⊎ (xs ≢ [])
List-cases [] = inl refl
List-cases (x ∷ xs) = inr (λ e. cc)

-- In every state that the pool reaches, its count is that of the connections that are idle, opened,
-- handed over or in use, and at most the configured size; and no `acquire` that is not cancelled waits
-- while a connection is idle or another one may be opened.
pub Reaches-IsCounted :
    (max : ℕ) (p : PoolState)
    → Reaches (new_pool max) p
    → IsCounted p × ((live p ≡ []) ⊎ (slack p ≡ 0))
Reaches-IsCounted max p reached =
    let (counted, served) = Reaches-keeps (new_pool max) p reached (new_pool-IsValid max) in
    (
      counted,
      elim (List-cases (live p)) [ inl nobody ↦ inl nobody | inr waits ↦ inr (served waits) ],
    )
