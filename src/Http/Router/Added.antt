-- ===== src/Http/Router/Added.antt =====
-- Routes with parameters and wildcards in extensions/http/src/RouterCore.cc: what `insertRadix` entered,
-- `matchRadix` reaches.
use coro_test.Common.{
  ℕ, zero, suc, ◌+◌, ◌≤◌, ◌<◌, ◌≡◌, ◌⊎◌, inl, inr, refl, List, [], ◌∷◌, Bytes, true, false, not,
  Option, none, some, arith, length, ◌==◌, Bool-cases, bytes_eq, bytes_eq_refl, if_elim,
  le→ltb-false,
}
use coro_test.Common.SortedMap.{bytes_lt, lookup}
use coro_test.Http.Router.{
  PathParams, Entry, RadixNode, RadixNodeMap, RouterCore, node, nil, child, new_node, next_segment,
  until_slash, has_method, no_method, has_mark, enter, enter_node, at_child, insert_at,
  insert_radix, add_route,
}
use coro_test.Http.Router.Match.{
  has_methods, entry_of, find_child, match_radix, match, lookup_method, max_path_segments,
  max_path_length,
}
use coro_test.Http.Router.Exact.{enter-route_id, enter_adds}
use coro_test.Http.Router.Decides.{
  Leads, ends, by_name, by_param, by_wildcard, match_radix-Decision,
}
use coro_test.Http.Router.Searches.{HasChild, first, later, Decision, finds, fails}

-- A path that fits a pattern, segment by segment.
pub data IsInstance : ℕ → Bytes → Bytes → Type 0 where
  at_end :
      {depth : ℕ} {pattern path rest rest' : Bytes}
      → next_segment pattern ≡ ([], rest)
      → next_segment path ≡ ([], rest')
      → IsInstance (suc depth) pattern path
  wildcard :
      {depth : ℕ} {pattern path name rest : Bytes}
      → next_segment pattern ≡ (b'*' ∷ name, rest)
      → IsInstance (suc depth) pattern path
  param :
      {depth c : ℕ} {pattern path name cs rest rest' : Bytes}
      → next_segment pattern ≡ (b':' ∷ name, rest)
      → next_segment path ≡ (c ∷ cs, rest')
      → IsInstance depth rest rest'
      → IsInstance (suc depth) pattern path
  static :
      {depth c : ℕ} {pattern path cs rest rest' : Bytes}
      → (c == b':') ≡ false
      → (c == b'*') ≡ false
      → next_segment pattern ≡ (c ∷ cs, rest)
      → next_segment path ≡ (c ∷ cs, rest')
      → IsInstance depth rest rest'
      → IsInstance (suc depth) pattern path

-- A segment takes its bytes off the path.
length-until_slash :
    (path : Bytes) → length (until_slash path).0 + length (until_slash path).1 ≡ length path
unfolding until_slash
length-until_slash [] = refl
length-until_slash (c ∷ cs) = ground (arith, length-until_slash cs)

length-next_segment :
    (path : Bytes) → length (next_segment path).0 + length (next_segment path).1 ≤ length path
unfolding next_segment
length-next_segment [] = omega arith
length-next_segment (c ∷ cs) =
    if_elim (λ (x : Bytes × Bytes). length x.0 + length x.1 ≤ suc (length cs)) (c == b'/')
      (λ _. omega (arith, length-until_slash cs)) (λ _. omega (arith, length-until_slash (c ∷ cs)))

-- `map[name]` after a change.
find_child-at_child :
    (name : Bytes) (change : RadixNode → RadixNode) (m : RadixNodeMap)
    → (n : RadixNode) × (find_child name (at_child name change m) ≡ some (change n))
unfolding find_child at_child
find_child-at_child name change nil = (new_node, rw (bytes_eq_refl name) refl)
find_child-at_child name change (child key n more) = elim (Bool-cases (bytes_eq key name)) [
  | inl same ↦ (n, rw (same, same) refl)
  | inr other ↦ elim (Bool-cases (bytes_lt name key)) [
    | inl before ↦ (new_node, rw (other, before, bytes_eq_refl name) refl)
    | inr after ↦
        let (k, e) = find_child-at_child name change more in (k, rw (other, after, other) e)
  ]
]

HasChild-at_child :
    (name : Bytes) (change : RadixNode → RadixNode) (m : RadixNodeMap)
    → (n : RadixNode) × HasChild (change n) (at_child name change m)
unfolding at_child
HasChild-at_child name change nil = (new_node, first)
HasChild-at_child name change (child key n more) = elim (Bool-cases (bytes_eq key name)) [
  | inl same ↦ (n, rw same first)
  | inr other ↦ elim (Bool-cases (bytes_lt name key)) [
    | inl before ↦ (new_node, rw (other, before) first)
    | inr after ↦
        let (k, there) = HasChild-at_child name change more in (k, rw (other, after) (later there))
  ]
]

has_method-has_methods : (m : ℕ) (e : Entry) → has_method m e.methods ≡ true → has_methods e ≡ true
unfolding has_methods
has_method-has_methods m e h = go e.methods h
  where
    go : (ks : List ℕ) → has_method m ks ≡ true → not (length ks == 0) ≡ true
    go [] h = unfold has_method in cc
    go (k ∷ ks) h = ground arith

shorter :
    (pattern cs rest : Bytes) (c fuel : ℕ)
    → next_segment pattern ≡ (c ∷ cs, rest)
    → length pattern < suc fuel
    → length rest < fuel
shorter pattern cs rest c fuel q h =
    let law : suc (length cs) + length rest ≤ length pattern =
      rw q at (length-next_segment pattern) in
    omega arith

module _ (names : ℕ → Bytes) (order : List ℕ → List ℕ) where
  -- The entry of a new route, with one of its methods.
  abbrev pub IsRoute : ℕ → ℕ → Entry → Type 0
  IsRoute id m e = (e.route_id ≡ id) × (has_method m e.methods ≡ true)

  enter-IsRoute :
      (e : Entry) (ms : List ℕ) (id m : ℕ)
      → has_method m ms ≡ true
      → IsRoute id m (enter names order e ms id)
  enter-IsRoute e ms id m h =
      (enter-route_id names order e ms id, enter_adds names order e ms id m h)

  entry_of-enter_node :
      (ms : List ℕ) (id : ℕ) (n : RadixNode)
      → entry_of (enter_node names order ms id n) ≡ enter names order (entry_of n) ms id
  unfolding enter_node
  entry_of-enter_node ms id (node e s p w) = refl

  insert_radix-Leads :
      (fuel depth : ℕ) (pattern path : Bytes) (ms : List ℕ) (id m : ℕ) (n : RadixNode)
      → length pattern < fuel
      → has_method m ms ≡ true
      → IsInstance depth pattern path
      → (e : Entry) × Leads depth (insert_radix names order fuel pattern ms id n) path e
        × IsRoute id m e
  unfolding insert_radix insert_at enter_node
  insert_radix-Leads zero depth pattern path ms id m n h has inst = absurd (omega arith)
  insert_radix-Leads (suc fuel) _ pattern path ms id m (node e s p w) h has (at_end q q') =
      let route = enter-IsRoute e ms id m has in
      (enter names order e ms id, rw q (ends q' (has_method-has_methods m _ route.1)), route)
  insert_radix-Leads (suc fuel) _ pattern path ms id m (node e s p w) h has (wildcard {name} q) =
      let (n, child_there) = HasChild-at_child name (enter_node names order ms id) w in
      let route = enter-IsRoute (entry_of n) ms id m has in
      (
        enter names order (entry_of n) ms id,
        rw q (
            by_wildcard child_there (entry_of-enter_node ms id n)
              (has_method-has_methods m _ route.1)),
        route,
      )
  insert_radix-Leads (suc fuel) _ pattern path ms id m (node e s p w) h has
        (param {depth} {name} {rest} {rest'} q q' inst) =
      let (n, child_there) = HasChild-at_child name (insert_radix names order fuel rest ms id) p in
      let (e', leads, route) =
        insert_radix-Leads fuel depth rest rest' ms id m n (shorter pattern name rest b':' fuel q h)
          has inst in
      (e', rw q (by_param q' child_there leads), route)
  insert_radix-Leads (suc fuel) _ pattern path ms id m (node e s p w) h has
        (static {depth} {c} {cs} {rest} {rest'} no_param no_wild q q' inst) =
      let (n, there) = find_child-at_child (c ∷ cs) (insert_radix names order fuel rest ms id) s in
      let (e', leads, route) =
        insert_radix-Leads fuel depth rest rest' ms id m n (shorter pattern cs rest c fuel q h) has
          inst in
      (e', rw (q, no_param, no_wild) (by_name q' there leads), route)

  abbrev pub HasMark : Bytes → Type 0
  HasMark pattern = (has_mark b':' pattern ≡ true) ⊎ (has_mark b'*' pattern ≡ true)

  add_route-marked :
      (core : RouterCore) (pattern : Bytes) (ms : List ℕ)
      → HasMark pattern
      → has_method no_method ms ≡ false
      → (add_route names order core pattern ms).0 ≡ record core {
        next_route_id = suc core.next_route_id;
        radix_root =
            insert_radix names order
              (suc (length pattern))
              pattern
              ms
              core.next_route_id
              core.radix_root;
      }
  unfolding add_route
  add_route-marked core pattern ms (inl marked) valid = rw (valid, marked) refl
  add_route-marked core pattern ms (inr marked) valid = elim (Bool-cases (has_mark b':' pattern)) [
    | inl both ↦ rw (valid, both) refl
    | inr one ↦ rw (valid, one, marked) refl
  ]

  module _ (regex_match : Bytes → Bytes → Option (List Bytes)) where
    -- What `match` answers where the tree decides.
    match-radix :
        (core : RouterCore) (method : ℕ) (path : Bytes) (e : Entry)
        → length path ≤ max_path_length
        → lookup path core.exact_routes ≡ none
        → (match_radix (suc max_path_segments) core.radix_root path []).1 ≡ some e
        → match regex_match core method path
          ≡ lookup_method method e (match_radix (suc max_path_segments) core.radix_root path []).0
    unfolding match
    match-radix core method path e short free found =
        let fits = le→ltb-false max_path_length (length path) short in rw (fits, free, found) refl

    reached :
        (n : RadixNode) (path : Bytes) (e : Entry) (o : Option Entry)
        → Leads (suc max_path_segments) n path e
        → Decision (Leads (suc max_path_segments) n path) o
        → (e' : Entry) × (o ≡ some e') × Leads (suc max_path_segments) n path e'
    reached n path e _ leads (finds {e = e'} h) = (e', refl, h)
    reached n path e _ leads (fails no_such) = absurd (no_such e leads)

    -- After `addRoute` of a pattern with parameters or a wildcard, `match` decides every path that fits the pattern (within 2048
    -- bytes and 32 segments, and where no exact route has it) by the entry of a route whose pattern the path fits, and
    -- never by the regular expressions or as not found.
    pub match-add_route_pattern :
        (core : RouterCore) (pattern path : Bytes) (ms : List ℕ) (method m : ℕ)
        → HasMark pattern
        → has_method no_method ms ≡ false
        → has_method m ms ≡ true
        → length path ≤ max_path_length
        → lookup path core.exact_routes ≡ none
        → IsInstance (suc max_path_segments) pattern path
        → let core' = (add_route names order core pattern ms).0 in
          (e : Entry) × (params : PathParams) × (match regex_match core' method path
            ≡ lookup_method method e params)
          × Leads (suc max_path_segments) core'.radix_root path e
    match-add_route_pattern core pattern path ms method m marked valid has short free inst =
        let id = core.next_route_id in
        let fuel = suc (length pattern) in
        let root = insert_radix names order fuel pattern ms id core.radix_root in
        let (e, leads, _) =
          insert_radix-Leads fuel (suc max_path_segments) pattern path ms id m core.radix_root
            (omega arith) has inst in
        let (e', found, leads') =
          reached root path e _ leads (match_radix-Decision (suc max_path_segments) root path []) in
        rw (add_route-marked core pattern ms marked valid) (
          e',
          (match_radix (suc max_path_segments) root path []).0,
          match-radix _ method path e' short free found,
          leads',
        )
