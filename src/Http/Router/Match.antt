-- ===== src/Http/Router/Match.antt =====
-- `RouterCore::match` and `matchRadix` of extensions/http/src/RouterCore.cc, and `HttpRouter::route` of
-- HttpRouter.cc.
use coro_test.Common.{
  ℕ, zero, suc, List, [], ◌∷◌, ◌++◌, Bytes, Bool, true, false, not, Option, none, some, length, ltb,
  ◌==◌, if◌then◌else◌, codes, bytes_eq,
}
use coro_test.Common.Decimal.{to_string}
use coro_test.Common.SortedMap.{lookup, insert_or_assign}
use coro_test.Http.Router.{
  PathParams, Entry, RadixNode, RadixNodeMap, RouterCore, node, nil, child, next_segment,
  has_method,
}

-- `params.erase`
unfoldable pub erase_param : Bytes → PathParams → PathParams
erase_param name [] = []
erase_param name ((k, v) ∷ ps) =
    let rest = erase_param name ps in if bytes_eq k name then rest else (k, v) ∷ rest

unfoldable pub find_child : Bytes → RadixNodeMap → Option RadixNode
find_child name nil = none
find_child name (child key n more) = if bytes_eq key name then some n else find_child name more

unfoldable pub has_methods : Entry → Bool
has_methods e = not (length e.methods == 0)

-- The entry that was found, and the parameters as the search left them.
abbrev pub Found : Type 0
Found = PathParams × Option Entry

abbrev pub entry_of : RadixNode → Entry
entry_of (node e s p w) = e

-- A loop over the wildcards: the first with methods takes what is given.
unfoldable pub try_wildcards : RadixNodeMap → Bytes → PathParams → Found
try_wildcards nil value params = (params, none)
try_wildcards (child name n more) value params =
    if has_methods (entry_of n)
    then (insert_or_assign name value params, some (entry_of n))
    else try_wildcards more value params

-- A search, and another one with what it left where it found nothing.
unfoldable pub or_else : Found → (PathParams → Found) → Found
or_else (params, some e) next = (params, some e)
or_else (params, none) next = next params

-- The loop over the parameters, with `try` for the recursive call.
unfoldable pub try_params :
    (RadixNode → PathParams → Found) → RadixNodeMap → Bytes → PathParams → Found
try_params try nil seg params = (params, none)
try_params try (child name n more) seg params =
    or_else (try n (insert_or_assign name seg params))
      (λ params'. try_params try more seg (erase_param name params'))

-- `matchRadix` at the end of a path.
unfoldable pub match_end : RadixNode → PathParams → Found
match_end (node e s p w) params =
    or_else (try_wildcards w [] params)
      (λ params'. (params', (if has_methods e then some e else none)))

-- The child of the segment's name.
unfoldable pub try_static :
    (RadixNode → PathParams → Found) → RadixNodeMap → Bytes → PathParams → Found
try_static try s seg params = elim (find_child seg s) [
  | none ↦ (params, none)
  | some n ↦ try n params
]

-- `matchRadix` at a segment, `whole` being the path from the segment on.
unfoldable pub match_segment :
    (RadixNode → PathParams → Found) → RadixNode → Bytes → Bytes → PathParams → Found
match_segment try (node e s p w) seg whole params =
    or_else (try_static try s seg params) (λ params'.
      or_else (try_params try p seg params') (λ params''. try_wildcards w whole params''))

-- `matchRadix` by the segment and what is behind it.
unfoldable pub match_at :
    (RadixNode → PathParams → Found) → RadixNode → Bytes → Bytes → PathParams → Found
match_at try n [] rest params = match_end n params
match_at try n (c ∷ cs) rest params = match_segment try n (c ∷ cs) ((c ∷ cs) ++ rest) params

-- `matchRadix`, by how many calls may still nest: a call at a depth over 32 finds nothing.
unfoldable pub match_radix : ℕ → RadixNode → Bytes → PathParams → Found
match_radix zero n path params = (params, none)
match_radix (suc depth) n path params =
    let (seg, rest) = next_segment path in
    match_at (λ m params'. match_radix depth m rest params') n seg rest params

abbrev pub max_path_length : ℕ
max_path_length = 2048

abbrev pub max_path_segments : ℕ
max_path_segments = 32

pub record MatchResult : Type 0 where
  pub matched : Bool
  pub route_id : ℕ
  pub params : PathParams
  pub allowed_methods : Bytes

unfoldable pub no_match : MatchResult
no_match = record { matched = false; route_id = 0; params = []; allowed_methods = [] }

unfoldable pub lookup_method : ℕ → Entry → PathParams → MatchResult
lookup_method method e params =
    if has_method method e.methods
    then record { matched = true; route_id = e.route_id; params = params; allowed_methods = [] }
    else record {
      matched = false;
      route_id = 0;
      params = params;
      allowed_methods = e.allowed_methods;
    }

-- The captures of a regular expression, from the number `i` on.
unfoldable pub regex_params : ℕ → List Bytes → PathParams → PathParams
regex_params i [] params = params
regex_params i (m ∷ ms) params =
    regex_params (suc i) ms (insert_or_assign (codes "$" ++ to_string i) m params)

module _ (regex_match : Bytes → Bytes → Option (List Bytes)) where
  unfoldable pub match_regexes : ℕ → Bytes → List (Bytes × Entry) → MatchResult
  match_regexes method path [] = no_match
  match_regexes method path ((pattern, e) ∷ routes) = elim (regex_match pattern path) [
    | some groups ↦ lookup_method method e (regex_params 1 groups [])
    | none ↦ match_regexes method path routes
  ]

  unfoldable pub match : RouterCore → ℕ → Bytes → MatchResult
  match core method path =
      let radix = match_radix (suc max_path_segments) core.radix_root path [] in
      if ltb max_path_length (length path) then no_match else elim (lookup path core.exact_routes) [
        | some e ↦ lookup_method method e []
        | none ↦ elim radix.1 [
          | some e ↦ lookup_method method e radix.0
          | none ↦ match_regexes method path core.regex_routes
        ]
      ]
