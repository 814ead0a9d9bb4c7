-- ===== src/Hpack/Table.antt =====
-- extensions/http2/src/hpack/HpackTable.cc and HpackTable.h: the static and the dynamic table.
-- `size_t` sizes of strings and tables are plain numbers, since they count bytes in memory.
pub mod Static
pub mod Eviction
pub mod Search
use coro_test.Common.{
  ℕ, zero, suc, ◌+◌, ◌-◌, ◌≤◌, List, [], ◌∷◌, ◌++◌, Bool, true, false, Option, none, some, Bytes,
  bytes_eq, length, get_elem?, ltb, leb, ◌==◌, if◌then◌else◌, ◌||◌, ◌&&◌, ◌≡◌, not,
}
use coro_test.Common.Error.{Result, ok, err}
use coro_test.Common.Int.{ℤ, pos, negsuc}
use Static.{HeaderEntry, static_table, static_table_size}

unfoldable pub entry_size : HeaderEntry → ℕ
entry_size e = length e.name + length e.value + 32

-- The front of `dynamic` is the entry added last, with the index 62.
pub record HpackTable : Type 0 where
  pub max_size : ℕ
  pub current_size : ℕ
  pub dynamic : List HeaderEntry

abbrev pub default_max_size : ℕ
default_max_size = 4096

unfoldable pub new_table : ℕ → HpackTable
new_table n = record { max_size = n; current_size = 0; dynamic = [] }

-- The one exception of `get`, `std::out_of_range`.
pub data TableError : Type 0 where
  index_out_of_range : TableError

or_out_of_range : Option HeaderEntry → Result TableError HeaderEntry
or_out_of_range none = err index_out_of_range
or_out_of_range (some e) = ok e

-- `kStaticTable[i]` and `dynamic_[i]` are read in range only, by the first test.
unfoldable pub get : HpackTable → ℕ → Result TableError HeaderEntry
unfolding or_out_of_range
get t index =
    if index == 0 || ltb (static_table_size + length t.dynamic) index
    then err index_out_of_range
    else if leb index static_table_size
    then or_out_of_range (get_elem? static_table (index - 1))
    else or_out_of_range (get_elem? t.dynamic (index - static_table_size - 1))

-- Where one of the two loops of `find` stands when it ends: it returned, or it fell through with
-- the value of `nameOnlyIdx`.
pub data Scan : Type 0 where
  returned : ℕ → Scan
  fell_through : ℤ → Scan

is_zero : ℤ → Bool
is_zero (pos zero) = true
is_zero _ = false

-- The loop from the position `i` on; the index of that entry is `i + 1`, and minus it `negsuc i`.
unfoldable pub scan : Bytes → Bytes → List HeaderEntry → ℕ → ℤ → Scan
unfolding is_zero
scan name value [] i name_only = fell_through name_only
scan name value (e ∷ es) i name_only =
    let hit = bytes_eq e.name name in
    let next =
      scan name value es (i + 1) (if hit && is_zero name_only then negsuc i else name_only) in
    if hit && bytes_eq e.value value then returned (i + 1) else next

unfoldable pub find : HpackTable → Bytes → Bytes → ℤ
find t name value = elim (scan name value static_table 0 (pos 0)) [
  | returned i ↦ pos i
  | fell_through b ↦ elim (scan name value t.dynamic static_table_size b) [
    | returned i ↦ pos i
    | fell_through c ↦ c
  ]
]

-- `dynamic_.back()` counted, and `pop_back()`; neither is called on an empty deque.
unfoldable pub last_size : List HeaderEntry → ℕ
last_size [] = 0
last_size (e ∷ []) = entry_size e
last_size (e ∷ f ∷ es) = last_size (f ∷ es)

unfoldable pub pop_back : List HeaderEntry → List HeaderEntry
pop_back [] = []
pop_back (e ∷ []) = []
pop_back (e ∷ f ∷ es) = e ∷ pop_back (f ∷ es)

is_empty : List HeaderEntry → Bool
is_empty [] = true
is_empty (e ∷ es) = false

-- `while (currentSize_ > maxSize_ && !dynamic_.empty())`: each round takes one entry off.
unfoldable pub evict_loop : ℕ → HpackTable → HpackTable
unfolding is_empty
evict_loop zero t = t
evict_loop (suc fuel) t =
    let next = evict_loop fuel (record t {
      current_size = t.current_size - last_size t.dynamic;
      dynamic = pop_back t.dynamic;
    }) in
    if ltb t.max_size t.current_size && not (is_empty t.dynamic) then next else t

unfoldable pub evict : HpackTable → HpackTable
evict t = evict_loop (length t.dynamic) t

unfoldable pub insert : HpackTable → Bytes → Bytes → HpackTable
insert t name value =
    let sz = length name + length value + 32 in
    if ltb t.max_size sz
    then record t { dynamic = []; current_size = 0 }
    else evict (record t {
      dynamic = record { name = name; value = value } ∷ t.dynamic;
      current_size = t.current_size + sz;
    })

unfoldable pub set_max_size : HpackTable → ℕ → HpackTable
set_max_size t n = evict (record t { max_size = n })
