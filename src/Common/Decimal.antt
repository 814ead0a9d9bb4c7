-- ===== src/Common/Decimal.antt =====
-- `std::to_string` of an unsigned number.
use mathlib.Core.WellFounded.{Acc}
use mathlib.Core.Logic.{dite, dif_pos, dif_neg}
use native.Mathlib.Decide.{dec_lt}
use native.Mathlib.Bridge.{le_prop}
use native.Mathlib.Omega.{arith}
use mathlib.Core.List.{[], ◌∷◌, ◌++◌}
use Prim.Native.Nat.{ℕ, ◌+◌, ◌/◌, ◌%◌, ◌<◌}
use coro_test.Common.Tests.{Bytes, IsByte}
use coro_test.Common.Lists.{All, All-append}
use coro_test.Common.Order.{lt_wf}

pub tenth_smaller : (n : ℕ) → 9 < n → n / 10 < n
tenth_smaller n h = omega arith

decimal : (n : ℕ) → Acc ◌<◌ n → Bytes
decimal n (Acc.intro _ smaller) =
    let last = b'0' + n % 10 in
    dite (dec_lt 9 n) (λ more. decimal (n / 10) (smaller _ (tenth_smaller n more)) ++ (last ∷ []))
      (λ _. last ∷ [])

unfoldable pub to_string : ℕ → Bytes
unfolding decimal
to_string n = decimal n (lt_wf.apply n)

decimal-IsByte : (n : ℕ) (w : Acc ◌<◌ n) → All IsByte (decimal n w)
unfolding decimal
decimal-IsByte n (Acc.intro _ smaller) = elim (dec_lt 9 n) [
  | yes more ↦ rw (dif_pos _ le_prop more) (
      All-append IsByte (decimal (n / 10) (smaller _ (tenth_smaller n more))) _
        (decimal-IsByte (n / 10) (smaller _ (tenth_smaller n more))) (omega arith, tt))
  | no less ↦ rw (dif_neg _ less) (omega arith, tt)
]

pub to_string-IsByte : (n : ℕ) → All IsByte (to_string n)
unfolding to_string
to_string-IsByte n = decimal-IsByte n (lt_wf.apply n)
