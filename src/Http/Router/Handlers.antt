-- ===== src/Http/Router/Handlers.antt =====
-- extensions/http: HttpRouter.h and HttpRouter.cc, the handlers of type `H` by the routes of the core.
use coro_test.Common.{
  ℕ, zero, suc, List, [], ◌∷◌, Bytes, Bool, Option, none, some, length, ◌==◌, if◌then◌else◌,
}
use coro_test.Common.Error.{Result}
use coro_test.Common.Error
use coro_test.Http.Router.{PathParams, RouterCore, RouterFault, add_route, add_route_regex}
use coro_test.Http.Router.Match.{match}

pub data Reason : Type 0 where
  ok not_found method_not_allowed : Reason

pub record HttpRouter (H : Type 0) : Type 0 where
  pub core : RouterCore
  pub handlers : List (Option H)

pub record RouteResult (H : Type 0) : Type 0 where
  pub handler : Option H
  pub params : PathParams
  pub reason : Reason
  pub allowed_methods : Bytes

-- `handlers_[i]`, `none` where it is null or there is no such handler.
unfoldable pub handler_at {ℓ} : {H : Type ℓ} → List (Option H) → ℕ → Option H
handler_at [] i = none
handler_at (h ∷ hs) zero = h
handler_at (h ∷ hs) (suc i) = handler_at hs i

-- `handlers_[routeId] = handler`, after a resize where it is needed.
unfoldable pub set_handler {ℓ} : {H : Type ℓ} → ℕ → H → List (Option H) → List (Option H)
set_handler zero h [] = some h ∷ []
set_handler zero h (_ ∷ hs) = some h ∷ hs
set_handler (suc i) h [] = none ∷ set_handler i h []
set_handler (suc i) h (k ∷ hs) = k ∷ set_handler i h hs

-- The answer without a handler.
unfoldable pub refusal : {H : Type 0} → Bytes → RouteResult H
refusal allowed =
    if length allowed == 0
    then record { handler = none; params = []; reason = not_found; allowed_methods = [] }
    else record {
      handler = none;
      params = [];
      reason = method_not_allowed;
      allowed_methods = allowed;
    }

unfoldable pub route :
    {H : Type 0} → (Bytes → Bytes → Option (List Bytes)) → HttpRouter H → ℕ → Bytes → RouteResult H
route regex_match router method path =
    let result = match regex_match router.core method path in
    if result.matched
    then elim (handler_at router.handlers result.route_id) [
      | some h ↦ record {
        handler = some h;
        params = result.params;
        reason = ok;
        allowed_methods = [];
      }
      | none ↦ refusal result.allowed_methods
    ]
    else refusal result.allowed_methods

-- A route with its handler, where the core took the route.
unfoldable pub with_handler :
    {H : Type 0}
    → HttpRouter H
    → H
    → RouterCore × Result RouterFault ℕ
    → HttpRouter H × Option RouterFault
with_handler router handler (core, Error.err fault) = (record router { core = core }, some fault)
with_handler router handler (core, Error.ok id) =
    (record { core = core; handlers = set_handler id handler router.handlers }, none)

module _ (names : ℕ → Bytes) (order : List ℕ → List ℕ) where
  -- `HttpRouter::addRoute`
  unfoldable pub add_handler :
      {H : Type 0} → HttpRouter H → Bytes → List ℕ → H → HttpRouter H × Option RouterFault
  add_handler router path ms handler =
      with_handler router handler (add_route names order router.core path ms)

  -- `HttpRouter::addRouteRegex`
  unfoldable pub add_handler_regex :
      {H : Type 0}
      → (Bytes → Bool)
      → HttpRouter H
      → Bytes
      → List ℕ
      → H
      → HttpRouter H × Option RouterFault
  add_handler_regex compiles router pattern ms handler =
      with_handler router handler (add_route_regex names order compiles router.core pattern ms)
