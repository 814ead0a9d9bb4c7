-- ===== src/Common/SortedMap.antt =====
-- A `std::map` with string keys as its list of entries, in the order of the keys.
use coro_test.Common.Tests.{Bytes, bytes_eq, bytes_eq_iff, ltb, ◌==◌, if◌then◌else◌}
use mathlib.Core.Path.{◌≡◌, refl}
use mathlib.Core.Bool.{Bool, true, false, ◌&&◌, ◌||◌}
use mathlib.Core.Option.{Option, none, some}
use mathlib.Core.List.{List, [], ◌∷◌}
use native.Mathlib.Omega.{arith}

-- `std::less` on strings: by bytes, a proper prefix first.
unfoldable pub bytes_lt : Bytes → Bytes → Bool
bytes_lt xs [] = false
bytes_lt [] (y ∷ ys) = true
bytes_lt (x ∷ xs) (y ∷ ys) = ltb x y || (x == y && bytes_lt xs ys)

module _ {ℓ} {V : Type ℓ} where
  unfoldable pub lookup : Bytes → List (Bytes × V) → Option V
  lookup k [] = none
  lookup k ((j, v) ∷ m) = if bytes_eq j k then some v else lookup k m

  unfoldable pub insert_or_assign : Bytes → V → List (Bytes × V) → List (Bytes × V)
  insert_or_assign k v [] = (k, v) ∷ []
  insert_or_assign k v ((j, w) ∷ m) =
      let rest = insert_or_assign k v m in
      if bytes_eq j k
      then (k, v) ∷ m
      else if bytes_lt k j
      then (k, v) ∷ (j, w) ∷ m
      else (j, w) ∷ rest

  -- `emplace` leaves an entry that is there.
  unfoldable pub emplace : Bytes → V → List (Bytes × V) → List (Bytes × V)
  emplace k v m = elim (lookup k m) [ none ↦ insert_or_assign k v m | some w ↦ m ]

  pub lookup-insert_or_assign :
      (j k : Bytes) (v : V) (m : List (Bytes × V))
      → lookup j (insert_or_assign k v m) ≡ (if bytes_eq k j then some v else lookup j m)
  unfolding lookup insert_or_assign
  lookup-insert_or_assign j k v [] = refl
  lookup-insert_or_assign j k v ((i, w) ∷ m) =
      ground (
        arith,
        bytes_eq_iff k j,
        bytes_eq_iff i k,
        bytes_eq_iff i j,
        lookup-insert_or_assign j k v m,
      )
