-- ===== src/Http/Router/Decides.antt =====
-- `matchRadix` of extensions/http/src/RouterCore.cc finds a route exactly where the tree has one.
use coro_test.Common.{
  ℕ, zero, suc, ◌≡◌, ◌⊎◌, inl, inr, refl, sym, ap, ◌∙◌, [], ◌∷◌, Bytes, true, false, none, some,
  Bool-cases, if◌then◌else◌,
}
use coro_test.Http.Router.{PathParams, Entry, RadixNode, RadixNodeMap, node, next_segment}
use coro_test.Http.Router.Match.{
  find_child, has_methods, entry_of, match_end, match_at, match_radix,
}
use coro_test.Http.Router.Searches.{
  HasChild, Decision, finds, fails, Decision-map, or_else-Decision, Takes, try_wildcards-Decision,
  Through, ByName, match_segment-Decision,
}

-- The entries that a path leads to from a node, over `depth` nodes at most: the node's own at the
-- end of the path, those of its wildcards, and those of the child of the segment's name and of all parameters on
-- the rest of the path.
pub data Leads : ℕ → RadixNode → Bytes → Entry → Type 0 where
  ends :
      {depth : ℕ} {e : Entry} {s p w : RadixNodeMap} {path rest : Bytes}
      → next_segment path ≡ ([], rest)
      → has_methods e ≡ true
      → Leads (suc depth) (node e s p w) path e
  by_wildcard :
      {depth : ℕ} {e entry : Entry} {s p w : RadixNodeMap} {path : Bytes} {n : RadixNode}
      → HasChild n w
      → entry_of n ≡ entry
      → has_methods entry ≡ true
      → Leads (suc depth) (node e s p w) path entry
  by_name :
      {depth : ℕ} {e entry : Entry} {s p w : RadixNodeMap} {path cs rest : Bytes} {c : ℕ}
      {n : RadixNode}
      → next_segment path ≡ (c ∷ cs, rest)
      → find_child (c ∷ cs) s ≡ some n
      → Leads depth n rest entry
      → Leads (suc depth) (node e s p w) path entry
  by_param :
      {depth : ℕ} {e entry : Entry} {s p w : RadixNodeMap} {path cs rest : Bytes} {c : ℕ}
      {n : RadixNode}
      → next_segment path ≡ (c ∷ cs, rest)
      → HasChild n p
      → Leads depth n rest entry
      → Leads (suc depth) (node e s p w) path entry

-- What a node has at the end of a path.
abbrev AtEnd : Entry → Entry → Type 0
AtEnd own e = (own ≡ e) × (has_methods e ≡ true)

own_entry-Decision :
    (own : Entry) → Decision (AtEnd own) (if has_methods own then some own else none)
own_entry-Decision own = elim (Bool-cases (has_methods own)) [
  | inl has ↦ rw has (finds (refl, has))
  | inr lacks ↦ rw lacks (fails (λ e (same, has). clash e same has lacks))
]
  where
    clash : (e : Entry) → own ≡ e → has_methods e ≡ true → has_methods own ≡ false → ⊥
    clash e same having without = cc

match_end-Decision :
    (own : Entry) (s p w : RadixNodeMap) (params : PathParams)
    → Decision (λ e. Takes w e ⊎ AtEnd own e) (match_end (node own s p w) params).1
unfolding match_end
match_end-Decision own s p w params =
    or_else-Decision _ _ _ (try_wildcards-Decision w [] params) (λ ps. own_entry-Decision own)

abbrev front : Bytes × Bytes → Bytes
front (seg, rest) = seg

abbrev back : Bytes × Bytes → Bytes
back (seg, rest) = rest

-- A path has one first segment.
longer :
    {A : Type 0} (path rest : Bytes) {last : Bytes} {c : ℕ} (cs : Bytes)
    → next_segment path ≡ ([], rest)
    → next_segment path ≡ (c ∷ cs, last)
    → A
longer path rest {last} {c} cs q seg =
    let same : c ∷ cs ≡ [] = ap front (sym seg ∙ q) in absurd (nonempty same)
  where
    nonempty : c ∷ cs ≡ [] → ⊥
    nonempty same = cc

Leads-end_inv :
    (depth : ℕ) (own e : Entry) (s p w : RadixNodeMap) (path rest : Bytes)
    → next_segment path ≡ ([], rest)
    → Leads (suc depth) (node own s p w) path e
    → Takes w e ⊎ AtEnd own e
Leads-end_inv depth own _ s p w path rest q (ends _ has) = inr (refl, has)
Leads-end_inv depth own e s p w path rest q (by_wildcard {n} there same has) =
    inl (n, there, same, has)
Leads-end_inv depth own e s p w path rest q (by_name seg _ _) = absurd (longer path rest _ q seg)
Leads-end_inv depth own e s p w path rest q (by_param seg _ _) = absurd (longer path rest _ q seg)

Leads-segment_inv :
    (depth : ℕ) (own e : Entry) (s p w : RadixNodeMap) (path cs rest : Bytes) (c : ℕ)
    → next_segment path ≡ (c ∷ cs, rest)
    → Leads (suc depth) (node own s p w) path e
    → ByName (λ n. Leads depth n rest) (c ∷ cs) s e
      ⊎ (Through (λ n. Leads depth n rest) p e ⊎ Takes w e)
Leads-segment_inv depth own _ s p w path cs rest c q (ends seg has) = absurd (longer path _ _ seg q)
Leads-segment_inv depth own e s p w path cs rest c q (by_wildcard {n} there same has) =
    inr (inr (n, there, same, has))
Leads-segment_inv depth own e s p w path cs rest c q (by_name {n} seg there more) =
    let one = sym seg ∙ q in inl (n, rw (ap front one) at there, rw (ap back one) at more)
Leads-segment_inv depth own e s p w path cs rest c q (by_param {n} seg there more) =
    let one = sym seg ∙ q in inr (inl (n, there, rw (ap back one) at more))

match_at-Decision :
    (depth : ℕ) (own : Entry) (s p w : RadixNodeMap) (path seg rest : Bytes) (params : PathParams)
    → next_segment path ≡ (seg, rest)
    → ((n : RadixNode) (ps : PathParams)
        → Decision (Leads depth n rest) (match_radix depth n rest ps).1)
    → Decision
        (Leads (suc depth) (node own s p w) path)
        (match_at (λ m ps. match_radix depth m rest ps) (node own s p w) seg rest params).1
unfolding match_at
match_at-Decision depth own s p w path [] rest params q deeper =
    Decision-map _ to (λ e. Leads-end_inv depth own e s p w path rest q)
      (match_end-Decision own s p w params)
  where
    to : (e : Entry) → Takes w e ⊎ AtEnd own e → Leads (suc depth) (node own s p w) path e
    to e (inl (n, there, same, has)) = by_wildcard there same has
    to e (inr (same, has)) = rw (← same) (ends q (rw same has))
match_at-Decision depth own s p w path (c ∷ cs) rest params q deeper =
    Decision-map _ to (λ e. Leads-segment_inv depth own e s p w path cs rest c q)
      (match_segment-Decision (λ n. Leads depth n rest) _ deeper own s p w (c ∷ cs) _ params)
  where
    to :
        (e : Entry)
        → ByName (λ n. Leads depth n rest) (c ∷ cs) s e
          ⊎ (Through (λ n. Leads depth n rest) p e ⊎ Takes w e)
        → Leads (suc depth) (node own s p w) path e
    to e (inl (n, there, more)) = by_name q there more
    to e (inr (inl (n, there, more))) = by_param q there more
    to e (inr (inr (n, there, same, has))) = by_wildcard there same has

-- The search over at most `depth` nested calls returns an entry that the path leads to, and returns nothing only where
-- the path leads to no entry within that depth.
pub match_radix-Decision :
    (depth : ℕ) (n : RadixNode) (path : Bytes) (params : PathParams)
    → Decision (Leads depth n path) (match_radix depth n path params).1
unfolding match_radix
match_radix-Decision zero n path params = fails (λ e. no_depth e)
  where
    no_depth : (e : Entry) → Leads zero n path e → ⊥
    no_depth e h = elim h [ ]
match_radix-Decision (suc depth) (node own s p w) path params =
    match_at-Decision depth own s p w path (next_segment path).0 (next_segment path).1 params refl
      (λ n ps. match_radix-Decision depth n (next_segment path).1 ps)
