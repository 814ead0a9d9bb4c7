-- ===== src/Http/Router.antt =====
-- extensions/http: RouterCore.h and RouterCore.cc. The routes of a router: exact paths, a tree of
-- segments, and regular expressions. `names` is `HttpMethod::toString`, `order` the order in which an
-- `std::unordered_map` of methods is gone through, and `std::regex` is a parameter.
pub mod Match
pub mod Handlers
pub mod Searches
pub mod Decides
pub mod Exact
pub mod Added
use coro_test.Common.{
  ℕ, zero, suc, ◌+◌, List, [], ◌∷◌, ◌++◌, Bytes, Bool, true, false, not, ◌&&◌, ◌||◌, Option, none,
  some, length, ltb, ◌==◌, if◌then◌else◌, codes, bytes_eq,
}
use coro_test.Common.Error.{Result, ok, err}
use coro_test.Common.Decimal.{to_string}
use coro_test.Common.SortedMap.{lookup, insert_or_assign, bytes_lt}

abbrev pub PathParams : Type 0
PathParams = List (Bytes × Bytes)

pub record Entry : Type 0 where
  pub route_id : ℕ
  pub methods : List ℕ
  pub allowed_methods : Bytes

unfoldable pub new_entry : Entry
new_entry = record { route_id = 0; methods = []; allowed_methods = [] }

-- A node with its children by static segments, by parameters and by wildcards. The maps are in the
-- order of their keys.
mutual
  pub data RadixNode : Type 0 where
    node : Entry → RadixNodeMap → RadixNodeMap → RadixNodeMap → RadixNode

  pub data RadixNodeMap : Type 0 where
    nil : RadixNodeMap
    child : Bytes → RadixNode → RadixNodeMap → RadixNodeMap

unfoldable pub new_node : RadixNode
new_node = node new_entry nil nil nil

pub record RouterCore : Type 0 where
  pub exact_routes : List (Bytes × Entry)
  pub radix_root : RadixNode
  pub regex_routes : List (Bytes × Entry)
  pub next_route_id : ℕ

unfoldable pub new_router : RouterCore
new_router = record {
  exact_routes = [];
  radix_root = new_node;
  regex_routes = [];
  next_route_id = 1;
}

-- Up to the next slash, and from it on.
unfoldable pub until_slash : Bytes → Bytes × Bytes
until_slash [] = ([], [])
until_slash (c ∷ cs) =
    let (seg, rest) = until_slash cs in if c == b'/' then ([], c ∷ cs) else (c ∷ seg, rest)

-- `nextSegment`: the segment, and `path.substr(pos)` after it.
unfoldable pub next_segment : Bytes → Bytes × Bytes
next_segment [] = ([], [])
next_segment (c ∷ cs) = if c == b'/' then until_slash cs else until_slash (c ∷ cs)

abbrev pub get_method : ℕ
get_method = 0

abbrev pub head_method : ℕ
head_method = 1

abbrev pub no_method : ℕ
no_method = 9

-- `methods.contains`
unfoldable pub has_method : ℕ → List ℕ → Bool
has_method m [] = false
has_method m (k ∷ ks) = k == m || has_method m ks

-- `methods[m] = true`
unfoldable pub set_method : ℕ → List ℕ → List ℕ
set_method m ks = if has_method m ks then ks else m ∷ ks

-- `map[name]`, with a new node where there is none, changed by what follows.
unfoldable pub at_child : Bytes → (RadixNode → RadixNode) → RadixNodeMap → RadixNodeMap
at_child name change nil = child name (change new_node) nil
at_child name change (child key n more) =
    let rest = at_child name change more in
    if bytes_eq key name
    then child key (change n) more
    else if bytes_lt name key
    then child name (change new_node) (child key n more)
    else child key n rest

-- `isParamOrWild`: the mark at the start of a segment.
unfoldable pub has_mark_after : ℕ → ℕ → Bytes → Bool
has_mark_after mark before [] = false
has_mark_after mark before (c ∷ cs) = (c == mark && before == b'/') || has_mark_after mark c cs

unfoldable pub has_mark : ℕ → Bytes → Bool
has_mark mark [] = false
has_mark mark (c ∷ cs) = c == mark || has_mark_after mark c cs

pub data RouterFault : Type 0 where
  invalid_method regex_error : RouterFault

module _ (names : ℕ → Bytes) (order : List ℕ → List ℕ) where
  unfoldable pub allowed_loop : Bytes → List ℕ → Bytes
  allowed_loop text [] = text
  allowed_loop text (m ∷ ms) =
      allowed_loop ((if length text == 0 then text else text ++ codes ", ") ++ names m) ms

  unfoldable pub add_method_to_entry : Entry → ℕ → Entry
  add_method_to_entry e m =
      let ms = set_method m e.methods in
      let ms' =
        (if m == get_method && not (has_method head_method ms)
          then set_method head_method ms
          else ms) in
      record e { methods = ms'; allowed_methods = allowed_loop [] (order ms') }

  -- The assignment of `routeId`, and the loop over the methods.
  unfoldable pub add_methods : Entry → List ℕ → Entry
  add_methods e [] = e
  add_methods e (m ∷ ms) = add_methods (add_method_to_entry e m) ms

  unfoldable pub enter : Entry → List ℕ → ℕ → Entry
  enter e ms id = add_methods (record e { route_id = id }) ms

  unfoldable pub enter_node : List ℕ → ℕ → RadixNode → RadixNode
  enter_node ms id (node e s p w) = node (enter e ms id) s p w

  -- One round of the loop of `insertRadix`: by the segment, with `deeper` for the rounds that follow.
  unfoldable pub insert_at : List ℕ → ℕ → Bytes → (RadixNode → RadixNode) → RadixNode → RadixNode
  insert_at ms id [] deeper n = enter_node ms id n
  insert_at ms id (c ∷ name) deeper (node e s p w) =
      if c == b':'
      then node e s (at_child name deeper p) w
      else if c == b'*'
      then node e s p (at_child name (enter_node ms id) w)
      else node e (at_child (c ∷ name) deeper s) p w

  -- Each round takes a byte of the path at least.
  unfoldable pub insert_radix : ℕ → Bytes → List ℕ → ℕ → RadixNode → RadixNode
  insert_radix zero path ms id n = enter_node ms id n
  insert_radix (suc fuel) path ms id n =
      let (seg, rest) = next_segment path in insert_at ms id seg (insert_radix fuel rest ms id) n

  unfoldable pub add_route : RouterCore → Bytes → List ℕ → RouterCore × Result RouterFault ℕ
  add_route core path ms =
      let id = core.next_route_id in
      let core' : RouterCore = record core { next_route_id = suc id } in
      let entry : Entry = elim (lookup path core.exact_routes) [ none ↦ new_entry | some e ↦ e ] in
      if has_method no_method ms
      then (core, err invalid_method)
      else if not (has_mark b':' path) && not (has_mark b'*' path)
      then (
        record core' { exact_routes = insert_or_assign path (enter entry ms id) core.exact_routes },
        ok id,
      )
      else (
        record core' { radix_root = insert_radix (suc (length path)) path ms id core.radix_root },
        ok id,
      )

  -- The loop over the regular expressions: `none` where the pattern is new.
  unfoldable pub enter_regex :
      List (Bytes × Entry) → Bytes → List ℕ → ℕ → Option (List (Bytes × Entry))
  enter_regex [] pattern ms id = none
  enter_regex ((q, e) ∷ routes) pattern ms id =
      let rest = enter_regex routes pattern ms id in
      if bytes_eq q pattern
      then some ((q, enter e ms id) ∷ routes)
      else elim rest [ none ↦ none | some routes' ↦ some ((q, e) ∷ routes') ]

  unfoldable pub add_route_regex :
      (Bytes → Bool) → RouterCore → Bytes → List ℕ → RouterCore × Result RouterFault ℕ
  add_route_regex compiles core pattern ms =
      let id = core.next_route_id in
      let core' : RouterCore = record core { next_route_id = suc id } in
      let added =
        (if compiles pattern
          then (
            record core' {
              regex_routes = core.regex_routes ++ (pattern, enter new_entry ms id) ∷ [];
            },
            ok id,
          )
          else (core', err regex_error)) in
      if has_method no_method ms
      then (core, err invalid_method)
      else elim (enter_regex core.regex_routes pattern ms id) [
        | none ↦ added
        | some routes ↦ (record core' { regex_routes = routes }, ok id)
      ]
