-- ===== src/Hpack/Table/Eviction.antt =====
-- The size accounting of the dynamic table, and which entries an eviction keeps.
use coro_test.Common.{
  ℕ, zero, suc, ◌+◌, ◌-◌, ◌*◌, ◌≤◌, ◌<◌, ◌≡◌, refl, List, [], ◌∷◌, Bytes, false, arith, length, ltb,
  leb, if◌then◌else◌, Bool-cases, inl, inr,
}
use coro_test.Hpack.Table.Static.{HeaderEntry}
use coro_test.Hpack.Table.{
  HpackTable, entry_size, last_size, pop_back, evict_loop, evict, insert, set_max_size, new_table,
}

-- The size of a list of entries (RFC 7541, section 4.1).
unfoldable pub total : List HeaderEntry → ℕ
total [] = 0
total (e ∷ es) = entry_size e + total es

-- The size that the table keeps is that of its entries, and is within the limit.
pub record IsValid (t : HpackTable) : Type 0 where
  pub counted : t.current_size ≡ total t.dynamic
  pub within : t.current_size ≤ t.max_size

-- The entries that are kept: those from the newest on, for as long as they fit the budget.
unfoldable pub fit : ℕ → List HeaderEntry → List HeaderEntry
fit budget [] = []
fit budget (e ∷ es) = if leb (entry_size e) budget then e ∷ fit (budget - entry_size e) es else []

total-pop_back : (es : List HeaderEntry) → total es ≡ total (pop_back es) + last_size es
unfolding total pop_back last_size
total-pop_back [] = refl
total-pop_back (e ∷ []) = omega arith
total-pop_back (e ∷ f ∷ es) = omega (arith, total-pop_back (f ∷ es))

length-pop_back : (es : List HeaderEntry) → length (pop_back es) ≡ length es - 1
unfolding pop_back
length-pop_back [] = refl
length-pop_back (e ∷ []) = refl
length-pop_back (e ∷ f ∷ es) = omega (arith, length-pop_back (f ∷ es))

fit_all : (budget : ℕ) (es : List HeaderEntry) → total es ≤ budget → fit budget es ≡ es
unfolding total fit
fit_all budget [] h = refl
fit_all budget (e ∷ es) h = ground (arith, fit_all (budget - entry_size e) es)

-- The last entry of a list that does not fit is not kept.
fit-pop_back :
    (budget : ℕ) (es : List HeaderEntry)
    → budget < total es
    → fit budget es ≡ fit budget (pop_back es)
unfolding total fit pop_back
fit-pop_back budget [] h = refl
fit-pop_back budget (e ∷ []) h = ground arith
fit-pop_back budget (e ∷ f ∷ es) h = ground (arith, fit-pop_back (budget - entry_size e) (f ∷ es))

total-fit-le : (budget : ℕ) (es : List HeaderEntry) → total (fit budget es) ≤ budget
unfolding total fit
total-fit-le budget [] = omega arith
total-fit-le budget (e ∷ es) = ground (arith, total-fit-le (budget - entry_size e) es)

-- An entry counts for 32 bytes at least.
pub length-le-total : (es : List HeaderEntry) → 32 * length es ≤ total es
unfolding total entry_size
length-le-total [] = omega arith
length-le-total (e ∷ es) = omega (arith, length-le-total es)

-- What an eviction leaves.
abbrev pub Fitted : HpackTable → HpackTable → Type 0
Fitted t u =
    (u.dynamic ≡ fit t.max_size t.dynamic)
    × (u.current_size ≡ total u.dynamic)
    × (u.max_size ≡ t.max_size)

evict_loop-Fitted :
    (fuel m c : ℕ) (es : List HeaderEntry)
    → c ≡ total es
    → length es ≤ fuel
    → let t : HpackTable = record { max_size = m; current_size = c; dynamic = es } in
      Fitted t (evict_loop fuel t)
unfolding evict_loop
evict_loop-Fitted zero m c [] h k = unfold fit in (refl, h, refl)
evict_loop-Fitted zero m c (e ∷ es) h k = absurd (omega arith)
evict_loop-Fitted (suc fuel) m c [] h k = unfold fit total in ground arith
evict_loop-Fitted (suc fuel) m c (e ∷ es) h k = elim (Bool-cases (ltb m c)) [
  | inl over ↦ ground (
    arith,
    total-pop_back (e ∷ es),
    length-pop_back (e ∷ es),
    fit-pop_back m (e ∷ es),
    evict_loop-Fitted fuel m (c - last_size (e ∷ es)) (pop_back (e ∷ es)),
  )
  | inr under ↦ ground (arith, fit_all m (e ∷ es))
]

pub evict-Fitted : (t : HpackTable) → t.current_size ≡ total t.dynamic → Fitted t (evict t)
unfolding evict
evict-Fitted t h =
    evict_loop-Fitted (length t.dynamic) t.max_size t.current_size t.dynamic h (omega arith)

Fitted-IsValid : (t u : HpackTable) → Fitted t u → IsValid u
Fitted-IsValid t u (kept, counted, same) =
    let bound : total u.dynamic ≤ t.max_size = rw kept (total-fit-le t.max_size t.dynamic) in
    record { counted = counted; within = omega (arith, bound) }

insert_small :
    (t : HpackTable) (name value : Bytes)
    → ltb t.max_size (entry_size (record { name = name; value = value })) ≡ false
    → insert t name value
      ≡ evict (record t {
        dynamic = record { name = name; value = value } ∷ t.dynamic;
        current_size = t.current_size + entry_size (record { name = name; value = value });
      })
unfolding insert entry_size
insert_small t name value h = rw h

-- An insertion keeps the newest entries that fit the limit, the new one before the old ones (an
-- entry larger than the limit empties the table); the size is again that of the entries and within
-- the limit, and the limit stays.
pub dynamic-insert :
    (t : HpackTable) (name value : Bytes)
    → IsValid t
    → ((insert t name value).dynamic
        ≡ fit t.max_size (record { name = name; value = value } ∷ t.dynamic))
      × IsValid (insert t name value)
      × ((insert t name value).max_size ≡ t.max_size)
dynamic-insert t name value v = elim (Bool-cases (ltb t.max_size (entry_size new))) [
  | inl large ↦ unfold insert entry_size fit total in ground arith
  | inr small ↦
      let u : HpackTable = record t {
        dynamic = new ∷ t.dynamic;
        current_size = t.current_size + entry_size new;
      } in
      let (kept, counted, same) = evict-Fitted u (unfold total in ground arith) in
      rw (insert_small t name value small)
        (kept, Fitted-IsValid u (evict u) (kept, counted, same), same)
]
  where
    new : HeaderEntry
    new = record { name = name; value = value }

-- A new limit evicts down to it.
pub dynamic-set_max_size :
    (t : HpackTable) (n : ℕ)
    → IsValid t
    → ((set_max_size t n).dynamic ≡ fit n t.dynamic)
      × IsValid (set_max_size t n)
      × ((set_max_size t n).max_size ≡ n)
unfolding set_max_size
dynamic-set_max_size t n v =
    let u : HpackTable = record t { max_size = n } in
    let (kept, counted, same) = evict-Fitted u v.counted in
    (kept, Fitted-IsValid u (evict u) (kept, counted, same), same)

pub new_table-IsValid : (n : ℕ) → IsValid (new_table n)
unfolding new_table total
new_table-IsValid n = record { counted = refl; within = omega arith }
