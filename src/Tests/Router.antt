-- ===== src/Tests/Router.antt =====
-- extensions/http: RouterCore.cc and HttpRouter.cc, with routes and requests.
use coro_test.Common.{
  ℕ, suc, ◌≡◌, ◌⊎◌, inl, inr, refl, List, [], ◌∷◌, Bytes, true, Option, none, arith, codes, ◌==◌,
  if◌then◌else◌, bytes_eq,
}
use coro_test.Common.SortedMap.{lookup, insert_or_assign, bytes_lt}
use coro_test.Http.Router.{
  PathParams, Entry, RouterCore, new_router, new_node, new_entry, add_route, has_mark,
  has_mark_after, has_method, set_method, enter, add_methods, add_method_to_entry, allowed_loop,
  next_segment, until_slash, insert_radix, insert_at, at_child, enter_node,
}
use coro_test.Http.Router.Match.{
  match, match_radix, match_at, match_end, match_segment, try_static, try_params, try_wildcards,
  or_else, find_child, has_methods, lookup_method, max_path_segments, erase_param,
}
use coro_test.Http.Router.Decides.{Leads, match_radix-Decision}
use coro_test.Http.Router.Searches.{Decision}
use coro_test.Http.Router.Exact.{match-add_route}
use coro_test.Http.Router.Added.{IsInstance, param, static, at_end, match-add_route_pattern}

abbrev names : ℕ → Bytes
names m = if m == 0 then codes "GET" else if m == 1 then codes "HEAD" else codes "POST"

abbrev order : List ℕ → List ℕ
order ms = ms

abbrev no_regex : Bytes → Bytes → Option (List Bytes)
no_regex pattern path = none

abbrev get_and_post : RouterCore
get_and_post = (add_route names order new_router (codes "/x") (0 ∷ [])).0

-- "/x" is added for GET and then for POST: GET goes to the second route.
match-add_route_example :
    (match no_regex (add_route names order get_and_post (codes "/x") (2 ∷ [])).0 0 (codes "/x")
      ≡ record {
        matched = true;
        route_id = get_and_post.next_route_id;
        params = [];
        allowed_methods = [];
      })
    × ((codes "/y" ≡ codes "/x")
        ⊎ (match no_regex
              (add_route names order get_and_post (codes "/x") (2 ∷ [])).0
              0
              (codes "/y")
            ≡ match no_regex get_and_post 0 (codes "/y")))
unfolding has_mark has_mark_after has_method lookup add_route insert_or_assign bytes_eq enter
    add_methods add_method_to_entry set_method new_router new_entry
match-add_route_example =
    match-add_route names order no_regex get_and_post (codes "/x") (codes "/y") (2 ∷ []) 0
      (refl, refl) refl (omega arith) (inr refl)

abbrev users : RouterCore
users = (add_route names order new_router (codes "/users/:id") (0 ∷ [])).0

users-IsInstance : IsInstance (suc max_path_segments) (codes "/users/:id") (codes "/users/42")
unfolding next_segment until_slash
users-IsInstance = static refl refl refl refl (param refl refl (at_end refl refl))

match-add_route_pattern_example :
    (e : Entry) × (params : PathParams) × (match no_regex users 0 (codes "/users/42")
      ≡ lookup_method 0 e params)
    × Leads (suc max_path_segments) users.radix_root (codes "/users/42") e
unfolding has_mark has_mark_after has_method lookup new_router
match-add_route_pattern_example =
    match-add_route_pattern names order no_regex new_router (codes "/users/:id") (codes "/users/42")
      (0 ∷ []) 0 0 (inl refl) refl refl (omega arith) refl users-IsInstance

match_radix-Decision_example :
    Decision
      (Leads 3 users.radix_root (codes "/users/42"))
      (match_radix 3 users.radix_root (codes "/users/42") []).1
match_radix-Decision_example = match_radix-Decision 3 users.radix_root (codes "/users/42") []

-- The parameter is bound to its segment.
users_params : (match no_regex users 0 (codes "/users/42")).params ≡ (codes "id", codes "42") ∷ []
unfolding match match_radix match_at match_end match_segment try_static try_params try_wildcards
    or_else find_child has_methods lookup_method next_segment until_slash add_route has_mark
    has_mark_after has_method lookup new_router new_node new_entry insert_radix insert_at at_child
    enter_node enter add_methods add_method_to_entry set_method allowed_loop insert_or_assign
    bytes_eq bytes_lt erase_param
users_params = refl
