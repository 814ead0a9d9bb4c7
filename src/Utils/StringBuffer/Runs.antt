-- ===== src/Utils/StringBuffer/Runs.antt =====
-- Runs of operations of the buffer against a queue of bytes.
use coro_test.Common.{
  ℕ, ◌-◌, ◌≤◌, ◌≡◌, refl, ap, sym, subst, append-nil, ◌∙◌, List, [], ◌∷◌, ◌++◌, Bytes, length, take,
  drop, leb, arith, Bool-cases, inl, inr, take-append_length,
}
use coro_test.Utils.StringBuffer.{
  StringBuffer, new_buffer, view, consume, append, reset, extract, resize, zeros,
}
use coro_test.Utils.StringBuffer.Queue.{
  Holds, Holds-view, append-Holds, consume-Holds, length-Holds,
}

pub data Operation : Type 0 where
  appends : ℕ → Bytes → Operation
  consumes : ℕ → Operation
  resets extracts : Operation

-- The buffer after an operation, and what it gives out.
unfoldable pub operate : Operation → StringBuffer → StringBuffer × Bytes
operate (appends len bytes) b = (append len bytes b, [])
operate (consumes n) b = (consume n b, [])
operate resets b = (reset b, [])
operate extracts b = let (out, b') = extract b in (b', out)

-- The same on a queue.
unfoldable pub expect : Operation → Bytes → Bytes × Bytes
expect (appends len bytes) queue = (queue ++ bytes, [])
expect (consumes n) queue = (drop n queue, [])
expect resets queue = ([], [])
expect extracts queue = ([], queue)

unfoldable pub operate_all : List Operation → StringBuffer → StringBuffer × List Bytes
operate_all [] b = (b, [])
operate_all (operation ∷ operations) b =
    let (b', out) = operate operation b in
    let (last, outs) = operate_all operations b' in (last, out ∷ outs)

unfoldable pub expect_all : List Operation → Bytes → Bytes × List Bytes
expect_all [] queue = (queue, [])
expect_all (operation ∷ operations) queue =
    let (queue', out) = expect operation queue in
    let (last, outs) = expect_all operations queue' in (last, out ∷ outs)

-- No more is written than there was room asked for, and no more consumed than there is.
abbrev pub IsAllowed : Operation → Bytes → Type 0
IsAllowed (appends len bytes) queue = length bytes ≤ len
IsAllowed (consumes n) queue = n ≤ length queue
IsAllowed resets queue = Unit {0}
IsAllowed extracts queue = Unit {0}

abbrev pub AreAllowed : List Operation → Bytes → Type 0
AreAllowed [] queue = Unit {0}
AreAllowed (operation ∷ operations) queue =
    IsAllowed operation queue × AreAllowed operations (expect operation queue).0

new_buffer-Holds : Holds new_buffer []
unfolding new_buffer
new_buffer-Holds = ([], [], refl, refl, omega arith)

reset-Holds : (b : StringBuffer) → Holds (reset b) []
unfolding reset
reset-Holds b = ([], b.buffer, refl, refl, omega arith)

no_dead : (dead : Bytes) (n : ℕ) → length dead ≡ n → n ≤ 0 → dead ≡ []
no_dead [] n e small = refl
no_dead (d ∷ dead) n e small = absurd (omega arith)

resize_within : (n : ℕ) (s : Bytes) → n ≤ length s → resize n s ≡ take n s
unfolding resize zeros
resize_within n s small =
    let none_more : n - length s ≡ 0 = omega arith in rw none_more (append-nil (take n s))

extract-queue : (b : StringBuffer) (queue : Bytes) → Holds b queue → (extract b).0 ≡ queue
unfolding extract view
extract-queue b queue holds = elim (Bool-cases (leb b.read_offset 0)) [
  | inr later ↦ rw later (Holds-view b queue holds)
  | inl at_start ↦
      let (dead, free, e, read, write) = holds in
      let nothing = no_dead dead b.read_offset read (ground arith) in
      let whole = e ∙ ap (λ (d : Bytes). d ++ (queue ++ free)) nothing in
      let size : b.write_offset ≡ length queue =
        omega (arith, ap (length {A = ℕ}) nothing, write) in
      rw at_start (
        resize_within b.write_offset b.buffer (length-Holds b queue holds)
        ∙ ap (λ (n : ℕ). take n b.buffer) size
        ∙ ap (λ (s : Bytes). take (length queue) s) whole
        ∙ take-append_length queue free)
]

extract-empties : (b : StringBuffer) → (extract b).1 ≡ new_buffer
unfolding extract
extract-empties b = elim (Bool-cases (leb b.read_offset 0)) [
  | inl at_start ↦ rw at_start refl
  | inr later ↦ rw later refl
]

operate-Holds :
    (operation : Operation) (b : StringBuffer) (queue : Bytes)
    → IsAllowed operation queue
    → Holds b queue
    → Holds (operate operation b).0 (expect operation queue).0
      × ((operate operation b).1 ≡ (expect operation queue).1)
unfolding operate expect
operate-Holds (appends len bytes) b queue allowed holds =
    (append-Holds len bytes b queue allowed holds, refl)
operate-Holds (consumes n) b queue allowed holds = (consume-Holds n b queue allowed holds, refl)
operate-Holds resets b queue allowed holds = (reset-Holds b, refl)
operate-Holds extracts b queue allowed holds = (
  subst (λ (c : StringBuffer). Holds c []) (sym (extract-empties b)) new_buffer-Holds,
  extract-queue b queue holds,
)

-- The buffer and the queue agree on what is left and on what was given out.
abbrev pub Agrees : StringBuffer × List Bytes → Bytes × List Bytes → Type 0
Agrees (b, outs) (queue, outs') = (view b ≡ queue) × (outs ≡ outs')

operate_all-Agrees :
    (operations : List Operation) (b : StringBuffer) (queue : Bytes)
    → AreAllowed operations queue
    → Holds b queue
    → Agrees (operate_all operations b) (expect_all operations queue)
unfolding operate_all expect_all
operate_all-Agrees [] b queue allowed holds = (Holds-view b queue holds, refl)
operate_all-Agrees (operation ∷ operations) b queue (first, later) holds =
    let (holds', out) = operate-Holds operation b queue first holds in
    let (left, outs) =
      operate_all-Agrees operations (operate operation b).0 (expect operation queue).0 later
        holds' in
    (left, rw (out, outs) refl)

-- Every run of writes, reads, resets and extractions, each within its room, leaves and gives out what the
-- same run on a queue of bytes does.
pub string_buffer-Agrees :
    (operations : List Operation)
    → AreAllowed operations []
    → Agrees (operate_all operations new_buffer) (expect_all operations [])
string_buffer-Agrees operations allowed =
    operate_all-Agrees operations new_buffer [] allowed new_buffer-Holds
