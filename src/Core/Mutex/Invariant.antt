-- ===== src/Core/Mutex/Invariant.antt =====
-- Mutual exclusion, order, and that no awaiter is lost.
use coro_test.Common.{
  ℕ, ◌≡◌, ◌≢◌, refl, ap, sym, ◌∙◌, List, [], ◌∷◌, ◌++◌, length, arith, append_assoc, append-nil,
  subst,
}
use coro_test.Core.Mutex.{
  Word, unlocked, locked, Phase, outside, entered, must_take, handing, Mutex, new_mutex, others,
  try_lock, async_lock, unlock_enter, unlock_release, reverse_onto, stack_of, unlock_take,
  unlock_hand, Step, tries, asks, enters, releases, takes, hands, Reaches, start, then_step,
}

-- One owner while the lock is taken, and what each phase of `unlock` knows.
abbrev pub Shape : Word → Phase → List ℕ → List ℕ → Type 0
Shape unlocked outside waiters holders = (waiters ≡ []) × (holders ≡ [])
Shape unlocked entered waiters holders = ⊥
Shape unlocked must_take waiters holders = ⊥
Shape unlocked handing waiters holders = ⊥
Shape (locked stack) outside waiters holders = length holders ≡ 1
Shape (locked stack) entered waiters holders = (length holders ≡ 1) × (waiters ≡ [])
Shape (locked stack) must_take waiters holders =
    (length holders ≡ 1) × (waiters ≡ []) × (stack ≢ [])
Shape (locked stack) handing waiters holders = (length holders ≡ 1) × (waiters ≢ [])

-- Those who wait, in the order in which they will be resumed.
abbrev pub queue : Mutex → List ℕ
queue m = m.waiters ++ reverse_onto (stack_of m.state) []

abbrev pub IsOrdered : Mutex → Type 0
IsOrdered m = m.arrived ≡ m.resumed ++ queue m

abbrev pub IsValid : Mutex → Type 0
IsValid m = Shape m.state m.phase m.waiters m.holders × IsOrdered m

reverse_onto-append : (stack acc : List ℕ) → reverse_onto stack acc ≡ reverse_onto stack [] ++ acc
unfolding reverse_onto
reverse_onto-append [] acc = refl
reverse_onto-append (w ∷ stack) acc =
    reverse_onto-append stack (w ∷ acc)
    ∙ sym (append_assoc (reverse_onto stack []) (w ∷ []) acc)
    ∙ ap (λ (xs : List ℕ). xs ++ acc) (sym (reverse_onto-append stack (w ∷ [])))

-- A push goes to the end of the queue.
push-queue :
    (resumed waiters stack arrived : List ℕ) (who : ℕ)
    → arrived ≡ resumed ++ (waiters ++ reverse_onto stack [])
    → arrived ++ who ∷ [] ≡ resumed ++ (waiters ++ reverse_onto (who ∷ stack) [])
unfolding reverse_onto
push-queue resumed waiters stack arrived who e =
    let last = reverse_onto-append stack (who ∷ []) in
    ap (λ (xs : List ℕ). xs ++ who ∷ []) e
    ∙ append_assoc resumed (waiters ++ reverse_onto stack []) (who ∷ [])
    ∙ ap (λ (xs : List ℕ). resumed ++ xs) (append_assoc waiters (reverse_onto stack []) (who ∷ []))
    ∙ ap (λ (xs : List ℕ). resumed ++ (waiters ++ xs)) (sym last)

push-Shape :
    (who : ℕ) (stack : List ℕ) (phase : Phase) (waiters holders : List ℕ)
    → Shape (locked stack) phase waiters holders
    → Shape (locked (who ∷ stack)) phase waiters holders
push-Shape who stack outside waiters holders h = h
push-Shape who stack entered waiters holders h = h
push-Shape who stack must_take waiters holders (one, none_yet, some_wait) = (one, none_yet, λ e. cc)
push-Shape who stack handing waiters holders h = h

first-Shape :
    (who : ℕ) (phase : Phase) (waiters holders : List ℕ)
    → Shape unlocked phase waiters holders
    → Shape (locked []) phase waiters (who ∷ holders)
first-Shape who outside waiters holders (nobody, none_holds) =
    omega (arith, ap (length {A = ℕ}) none_holds)
first-Shape who entered waiters holders h = absurd h
first-Shape who must_take waiters holders h = absurd h
first-Shape who handing waiters holders h = absurd h

abbrev mutex_of : Word → Phase → List ℕ → List ℕ → List ℕ → List ℕ → Mutex
mutex_of state phase waiters holders arrived resumed = record {
  state = state;
  waiters = waiters;
  phase = phase;
  holders = holders;
  arrived = arrived;
  resumed = resumed;
}

tries-IsValid :
    (state : Word) (phase : Phase) (waiters holders arrived resumed : List ℕ) (who : ℕ)
    → IsValid (mutex_of state phase waiters holders arrived resumed)
    → IsValid (try_lock who (mutex_of state phase waiters holders arrived resumed)).1
unfolding try_lock stack_of
tries-IsValid unlocked phase waiters holders arrived resumed who (shape, order) =
    (first-Shape who phase waiters holders shape, order)
tries-IsValid (locked stack) phase waiters holders arrived resumed who valid = valid

asks-IsValid :
    (state : Word) (phase : Phase) (waiters holders arrived resumed : List ℕ) (who : ℕ)
    → IsValid (mutex_of state phase waiters holders arrived resumed)
    → IsValid (async_lock who (mutex_of state phase waiters holders arrived resumed)).1
unfolding async_lock stack_of
asks-IsValid unlocked phase waiters holders arrived resumed who (shape, order) =
    (first-Shape who phase waiters holders shape, order)
asks-IsValid (locked stack) phase waiters holders arrived resumed who (shape, order) = (
  push-Shape who stack phase waiters holders shape,
  push-queue resumed waiters stack arrived who order,
)

enters-IsValid :
    (state : Word) (waiters holders arrived resumed : List ℕ) (who : ℕ) (rest : List ℕ)
    → holders ≡ who ∷ rest
    → IsValid (mutex_of state outside waiters holders arrived resumed)
    → IsValid (unlock_enter (mutex_of state outside waiters holders arrived resumed))
unfolding unlock_enter
enters-IsValid unlocked waiters holders arrived resumed who rest owns
      ((nobody, none_holds), order) =
    absurd cc
enters-IsValid (locked stack) [] holders arrived resumed who rest owns (one, order) =
    ((one, refl), order)
enters-IsValid (locked stack) (w ∷ waiters) holders arrived resumed who rest owns (one, order) =
    ((one, λ e. cc), order)

-- A sole owner that gives up the lock leaves none.
others_of_one : (holders : List ℕ) → length holders ≡ 1 → others holders ≡ []
unfolding others
others_of_one [] h = refl
others_of_one (who ∷ []) h = refl
others_of_one (who ∷ v ∷ holders) h = absurd (omega arith)

releases-IsValid :
    (state : Word) (waiters holders arrived resumed : List ℕ)
    → IsValid (mutex_of state entered waiters holders arrived resumed)
    → IsValid (unlock_release (mutex_of state entered waiters holders arrived resumed))
unfolding unlock_release stack_of
releases-IsValid unlocked waiters holders arrived resumed (shape, order) = absurd shape
releases-IsValid (locked []) waiters holders arrived resumed ((one, nobody), order) =
    ((nobody, others_of_one holders one), order)
releases-IsValid (locked (w ∷ stack)) waiters holders arrived resumed ((one, nobody), order) =
    ((one, nobody, λ e. cc), order)

reverse_onto-cons : (w : ℕ) (stack acc : List ℕ) → reverse_onto (w ∷ stack) acc ≢ []
unfolding reverse_onto
reverse_onto-cons w [] acc e = cc
reverse_onto-cons w (v ∷ stack) acc e = reverse_onto-cons v stack (w ∷ acc) e

turned_over :
    (waiters stack : List ℕ)
    → waiters ≡ []
    → waiters ++ reverse_onto stack [] ≡ reverse_onto stack waiters ++ reverse_onto [] []
unfolding reverse_onto
turned_over [] stack h = sym (append-nil (reverse_onto stack []))
turned_over (w ∷ waiters) stack h = absurd cc

takes-IsValid :
    (state : Word) (waiters holders arrived resumed : List ℕ)
    → IsValid (mutex_of state must_take waiters holders arrived resumed)
    → IsValid (unlock_take (mutex_of state must_take waiters holders arrived resumed))
unfolding unlock_take stack_of
takes-IsValid unlocked waiters holders arrived resumed (shape, order) = absurd shape
takes-IsValid (locked []) waiters holders arrived resumed ((one, nobody, some_wait), order) =
    absurd (some_wait refl)
takes-IsValid (locked (w ∷ stack)) waiters holders arrived resumed
      ((one, nobody, some_wait), order) =
    (
      (one, reverse_onto-cons w stack waiters),
      order ∙ ap (λ (xs : List ℕ). resumed ++ xs) (turned_over waiters (w ∷ stack) nobody),
    )

hands-IsValid :
    (state : Word) (waiters holders arrived resumed : List ℕ)
    → IsValid (mutex_of state handing waiters holders arrived resumed)
    → IsValid (unlock_hand (mutex_of state handing waiters holders arrived resumed))
unfolding unlock_hand others
hands-IsValid unlocked waiters holders arrived resumed (shape, order) = absurd shape
hands-IsValid (locked stack) [] holders arrived resumed ((one, some_wait), order) =
    absurd (some_wait refl)
hands-IsValid (locked stack) (w ∷ waiters) holders arrived resumed ((one, some_wait), order) = (
  omega (arith, ap (length {A = ℕ}) (others_of_one holders one)),
  order
      ∙ sym (append_assoc resumed (w ∷ []) (waiters ++ reverse_onto (stack_of (locked stack)) [])),
)

-- An operation of one phase.
keeps_at :
    (m : Mutex) (phase : Phase) (f : Mutex → Mutex)
    → m.phase ≡ phase
    → (IsValid (record m { phase = phase }) → IsValid (f (record m { phase = phase })))
    → IsValid m
    → IsValid (f m)
keeps_at m phase f at step valid =
    let e : m ≡ record m { phase = phase } = ap (λ (p : Phase). record m { phase = p }) at in
    subst (λ (n : Mutex). IsValid (f n)) (sym e) (step (subst IsValid e valid))

Step-IsValid : (m n : Mutex) → Step m n → IsValid m → IsValid n
Step-IsValid m _ (tries _ who) =
    tries-IsValid m.state m.phase m.waiters m.holders m.arrived m.resumed who
Step-IsValid m _ (asks _ who) =
    asks-IsValid m.state m.phase m.waiters m.holders m.arrived m.resumed who
Step-IsValid m _ (enters _ who rest owns at) =
    keeps_at m outside unlock_enter at
      (enters-IsValid m.state m.waiters m.holders m.arrived m.resumed who rest owns)
Step-IsValid m _ (releases _ at) =
    keeps_at m entered unlock_release at
      (releases-IsValid m.state m.waiters m.holders m.arrived m.resumed)
Step-IsValid m _ (takes _ at) =
    keeps_at m must_take unlock_take at
      (takes-IsValid m.state m.waiters m.holders m.arrived m.resumed)
Step-IsValid m _ (hands _ at) =
    keeps_at m handing unlock_hand at
      (hands-IsValid m.state m.waiters m.holders m.arrived m.resumed)

Reaches-keeps : (m n : Mutex) → Reaches m n → IsValid m → IsValid n
Reaches-keeps m _ (start _) valid = valid
Reaches-keeps m _ (then_step _ n o before step) valid =
    Step-IsValid n o step (Reaches-keeps m n before valid)

pub Reaches-IsValid : (m : Mutex) → Reaches new_mutex m → IsValid m
unfolding reverse_onto stack_of
Reaches-IsValid m reached = Reaches-keeps new_mutex m reached ((refl, refl), refl)
