-- ===== src/Http/Router/Searches.antt =====
-- The searches among the children of a node, in `matchRadix` of extensions/http/src/RouterCore.cc.
use coro_test.Common.{
  ◌≡◌, ◌⊎◌, inl, inr, refl, sym, ◌∙◌, Bytes, true, false, Option, none, some, Bool-cases,
  Option-cases,
}
use mathlib.Core.Option.{some-injective}
use coro_test.Common.SortedMap.{insert_or_assign}
use coro_test.Http.Router.{PathParams, Entry, RadixNode, RadixNodeMap, node, nil, child}
use coro_test.Http.Router.Match.{
  Found, find_child, has_methods, entry_of, try_wildcards, try_params, or_else, try_static,
  match_segment, erase_param,
}

-- A node of a map, under any name.
pub data HasChild : RadixNode → RadixNodeMap → Type 0 where
  first : {name : Bytes} {n : RadixNode} {more : RadixNodeMap} → HasChild n (child name n more)
  later :
      {name : Bytes} {n m : RadixNode} {more : RadixNodeMap}
      → HasChild n more
      → HasChild n (child name m more)

-- A search that is right about a predicate: what it finds has it, and where it finds nothing, nothing has it.
pub data Decision (P : Entry → Type 0) : Option Entry → Type 0 where
  finds : {e : Entry} → P e → Decision P (some e)
  fails : ((e : Entry) → ¬ P e) → Decision P none

pub Decision-map :
    {P Q : Entry → Type 0} (o : Option Entry)
    → ((e : Entry) → P e → Q e)
    → ((e : Entry) → Q e → P e)
    → Decision P o
    → Decision Q o
Decision-map _ to from (finds {e} h) = finds (to e h)
Decision-map _ to from (fails no_such) = fails (λ e q. no_such e (from e q))

pub or_else-Decision :
    {P Q : Entry → Type 0} (params : PathParams) (o : Option Entry) (next : PathParams → Found)
    → Decision P o
    → ((ps : PathParams) → Decision Q (next ps).1)
    → Decision (λ e. P e ⊎ Q e) (or_else (params, o) next).1
unfolding or_else
or_else-Decision params _ next (finds h) k = finds (inl h)
or_else-Decision params _ next (fails no_such) k =
    Decision-map _ (λ e q. inr q) (λ e h. elim h [ inl p ↦ absurd (no_such e p) | inr q ↦ q ])
      (k params)

-- The entry of a child with methods.
abbrev pub Takes : RadixNodeMap → Entry → Type 0
Takes w e = (n : RadixNode) × HasChild n w × (entry_of n ≡ e) × (has_methods e ≡ true)

no_child : (n : RadixNode) → HasChild n nil → ⊥
no_child n h = elim h [ ]

Takes-inv :
    (name : Bytes) (m : RadixNode) (w : RadixNodeMap) (e : Entry)
    → Takes (child name m w) e
    → ((entry_of m ≡ e) × (has_methods e ≡ true)) ⊎ Takes w e
Takes-inv name m w e (_, first, same, has) = inl (same, has)
Takes-inv name m w e (n, later there, same, has) = inr (n, there, same, has)

pub try_wildcards-Decision :
    (w : RadixNodeMap) (value : Bytes) (params : PathParams)
    → Decision (Takes w) (try_wildcards w value params).1
unfolding try_wildcards
try_wildcards-Decision nil value params = fails (λ e (n, there, _, _). no_child n there)
try_wildcards-Decision (child name m w) value params =
    elim (Bool-cases (has_methods (entry_of m))) [
      | inl has ↦ rw has (finds (m, first, refl, has))
      | inr none_here ↦ rw none_here (
          Decision-map _ (λ e (n, there, same, has). (n, later there, same, has))
            (λ e h. elim (Takes-inv name m w e h) [
              | inl (same, has) ↦ absurd (clash e same none_here has)
              | inr t ↦ t
            ])
            (try_wildcards-Decision w value params))
    ]
  where
    clash :
        (e : Entry) → entry_of m ≡ e → has_methods (entry_of m) ≡ false → has_methods e ≡ true → ⊥
    clash e same without having = cc

-- A child for which the search succeeds.
abbrev pub Through : (RadixNode → Entry → Type 0) → RadixNodeMap → Entry → Type 0
Through P m e = (n : RadixNode) × HasChild n m × P n e

Through-inv :
    (P : RadixNode → Entry → Type 0) (name : Bytes) (m : RadixNode) (p : RadixNodeMap) (e : Entry)
    → Through P (child name m p) e
    → P m e ⊎ Through P p e
Through-inv P name m p e (_, first, h) = inl h
Through-inv P name m p e (n, later there, h) = inr (n, there, h)

try_params-Decision :
    (P : RadixNode → Entry → Type 0) (step : RadixNode → PathParams → Found)
    → ((n : RadixNode) (ps : PathParams) → Decision (P n) (step n ps).1)
    → (p : RadixNodeMap) (seg : Bytes) (params : PathParams)
    → Decision (Through P p) (try_params step p seg params).1
unfolding try_params
try_params-Decision P step right nil seg params = fails (λ e (n, there, _). no_child n there)
try_params-Decision P step right (child name m p) seg params =
    Decision-map _ to (Through-inv P name m p) (
      or_else-Decision _ _ _ (right m (insert_or_assign name seg params))
        (λ ps. try_params-Decision P step right p seg (erase_param name ps)))
  where
    to : (e : Entry) → P m e ⊎ Through P p e → Through P (child name m p) e
    to e (inl h) = (m, first, h)
    to e (inr (n, there, h)) = (n, later there, h)

-- The ways on from a node, at a segment.
abbrev pub ByName : (RadixNode → Entry → Type 0) → Bytes → RadixNodeMap → Entry → Type 0
ByName P seg s e = (n : RadixNode) × (find_child seg s ≡ some n) × P n e

try_static-Decision :
    (P : RadixNode → Entry → Type 0) (step : RadixNode → PathParams → Found)
    → ((n : RadixNode) (ps : PathParams) → Decision (P n) (step n ps).1)
    → (s : RadixNodeMap) (seg : Bytes) (params : PathParams)
    → Decision (ByName P seg s) (try_static step s seg params).1
unfolding try_static
try_static-Decision P step right s seg params = elim (Option-cases (find_child seg s)) [
  | inl missing ↦
      rw (missing, try_static) (fails (λ e (n, there, _). absurd (clash n missing there)))
  | inr (n, there) ↦
      rw (there, try_static)
        (Decision-map _ (λ e h. (n, there, h)) (λ e (m, again, h). moved m e there again h)
          (right n params))
]
  where
    clash : (n : RadixNode) → find_child seg s ≡ none → find_child seg s ≡ some n → ⊥
    clash n without having = cc

    moved :
        {n : RadixNode} (m : RadixNode) (e : Entry)
        → find_child seg s ≡ some n
        → find_child seg s ≡ some m
        → P m e
        → P n e
    moved {n} m e there again h = rw (some-injective m n (sym again ∙ there)) at h

pub match_segment-Decision :
    (P : RadixNode → Entry → Type 0) (step : RadixNode → PathParams → Found)
    → ((n : RadixNode) (ps : PathParams) → Decision (P n) (step n ps).1)
    → (e : Entry) (s p w : RadixNodeMap) (seg whole : Bytes) (params : PathParams)
    → Decision
        (λ e'. ByName P seg s e' ⊎ (Through P p e' ⊎ Takes w e'))
        (match_segment step (node e s p w) seg whole params).1
unfolding match_segment
match_segment-Decision P step right e s p w seg whole params =
    or_else-Decision _ _ _ (try_static-Decision P step right s seg params) (λ ps.
      or_else-Decision _ _ _ (try_params-Decision P step right p seg ps)
        (λ ps'. try_wildcards-Decision w whole ps'))
