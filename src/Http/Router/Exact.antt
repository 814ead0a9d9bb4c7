-- ===== src/Http/Router/Exact.antt =====
-- Exact routes of extensions/http/src/RouterCore.cc: what `match` makes of what `addRoute` entered.
use coro_test.Common.{
  ℕ, suc, ◌≤◌, ◌≡◌, ◌⊎◌, inl, inr, refl, List, [], ◌∷◌, Bytes, true, false, Option, none, some,
  arith, length, ◌==◌, Bool-cases, ==_iff, if_elim, bytes_eq, bytes_eq_refl, bytes_eq→eq,
  le→ltb-false, sym, ap, ◌∙◌, ==_refl,
}
use coro_test.Common.SortedMap.{lookup, insert_or_assign, lookup-insert_or_assign}
use coro_test.Http.Router.{
  Entry, RouterCore, has_method, set_method, head_method, no_method, has_mark, add_method_to_entry,
  add_methods, enter, add_route, new_entry,
}
use coro_test.Http.Router.Match.{MatchResult, lookup_method, match, max_path_length}

has_method-set_method :
    (m k : ℕ) (ks : List ℕ) → has_method m ks ≡ true → has_method m (set_method k ks) ≡ true
unfolding set_method has_method
has_method-set_method m k ks h = ground arith

has_method-set_method_self : (m : ℕ) (ks : List ℕ) → has_method m (set_method m ks) ≡ true
unfolding set_method has_method
has_method-set_method_self m ks = ground (arith, ==_refl m)

module _ (names : ℕ → Bytes) (order : List ℕ → List ℕ) where
  -- No method is lost, and the new one is there.
  add_method_keeps :
      (e : Entry) (m k : ℕ)
      → has_method m e.methods ≡ true
      → has_method m (add_method_to_entry names order e k).methods ≡ true
  unfolding add_method_to_entry
  add_method_keeps e m k h =
      if_elim (λ ms. has_method m ms ≡ true) _
        (λ _. has_method-set_method m head_method _ (has_method-set_method m k e.methods h))
        (λ _. has_method-set_method m k e.methods h)

  add_method_adds :
      (e : Entry) (m : ℕ) → has_method m (add_method_to_entry names order e m).methods ≡ true
  unfolding add_method_to_entry
  add_method_adds e m =
      if_elim (λ ms. has_method m ms ≡ true) _
        (λ _. has_method-set_method m head_method _ (has_method-set_method_self m e.methods))
        (λ _. has_method-set_method_self m e.methods)

  add_methods_keeps :
      (e : Entry) (ms : List ℕ) (m : ℕ)
      → has_method m e.methods ≡ true
      → has_method m (add_methods names order e ms).methods ≡ true
  unfolding add_methods
  add_methods_keeps e [] m h = h
  add_methods_keeps e (k ∷ ks) m h =
      add_methods_keeps (add_method_to_entry names order e k) ks m (add_method_keeps e m k h)

  add_methods_adds :
      (e : Entry) (ms : List ℕ) (m : ℕ)
      → has_method m ms ≡ true
      → has_method m (add_methods names order e ms).methods ≡ true
  unfolding add_methods has_method
  add_methods_adds e [] m h = cc
  add_methods_adds e (k ∷ ks) m h = elim (Bool-cases (k == m)) [
    | inl same ↦
        let q : k ≡ m = (==_iff k m).0 same in
        add_methods_keeps (add_method_to_entry names order e k) ks m (rw q (add_method_adds e m))
    | inr other ↦
        add_methods_adds (add_method_to_entry names order e k) ks m (rw (other, has_method) at h)
  ]

  add_methods-route_id :
      (e : Entry) (ms : List ℕ) → (add_methods names order e ms).route_id ≡ e.route_id
  unfolding add_methods add_method_to_entry
  add_methods-route_id e [] = refl
  add_methods-route_id e (k ∷ ks) = add_methods-route_id (add_method_to_entry names order e k) ks

  -- An entry after `addRoute`: the new route, with its methods and those that were there.
  pub enter-route_id :
      (e : Entry) (ms : List ℕ) (id : ℕ) → (enter names order e ms id).route_id ≡ id
  unfolding enter
  enter-route_id e ms id = add_methods-route_id (record e { route_id = id }) ms

  pub enter_adds :
      (e : Entry) (ms : List ℕ) (id m : ℕ)
      → has_method m ms ≡ true
      → has_method m (enter names order e ms id).methods ≡ true
  unfolding enter
  enter_adds e ms id m h = add_methods_adds (record e { route_id = id }) ms m h

  pub enter_keeps :
      (e : Entry) (ms : List ℕ) (id m : ℕ)
      → has_method m e.methods ≡ true
      → has_method m (enter names order e ms id).methods ≡ true
  unfolding enter
  enter_keeps e ms id m h = add_methods_keeps (record e { route_id = id }) ms m h

  abbrev pub IsExact : Bytes → Type 0
  IsExact path = (has_mark b':' path ≡ false) × (has_mark b'*' path ≡ false)

  abbrev pub old_entry : RouterCore → Bytes → Entry
  old_entry core path = elim (lookup path core.exact_routes) [ none ↦ new_entry | some e ↦ e ]

  exact_routes-add_route :
      (core : RouterCore) (path : Bytes) (ms : List ℕ)
      → IsExact path
      → has_method no_method ms ≡ false
      → (add_route names order core path ms).0 ≡ record core {
        next_route_id = suc core.next_route_id;
        exact_routes =
            insert_or_assign path
              (enter names order (old_entry core path) ms core.next_route_id)
              core.exact_routes;
      }
  unfolding add_route
  exact_routes-add_route core path ms (no_param, no_wild) valid = rw (valid, no_param, no_wild) refl

  module _ (regex_match : Bytes → Bytes → Option (List Bytes)) where
    match_exact :
        (core : RouterCore) (method : ℕ) (path : Bytes) (e : Entry)
        → length path ≤ max_path_length
        → lookup path core.exact_routes ≡ some e
        → match regex_match core method path ≡ lookup_method method e []
    unfolding match
    match_exact core method path e short there =
        let fits = le→ltb-false max_path_length (length path) short in rw (fits, there) refl

    lookup_method_has :
        (method : ℕ) (e : Entry)
        → has_method method e.methods ≡ true
        → lookup_method method e []
          ≡ record { matched = true; route_id = e.route_id; params = []; allowed_methods = [] }
    unfolding lookup_method
    lookup_method_has method e has = rw has refl

    abbrev matched_route : ℕ → MatchResult
    matched_route id = record { matched = true; route_id = id; params = []; allowed_methods = [] }

    match_added :
        (core : RouterCore) (path : Bytes) (e : Entry) (next method : ℕ)
        → length path ≤ max_path_length
        → has_method method e.methods ≡ true
        → match regex_match
            (record core {
              next_route_id = next;
              exact_routes = insert_or_assign path e core.exact_routes;
            })
            method
            path
          ≡ record { matched = true; route_id = e.route_id; params = []; allowed_methods = [] }
    match_added core path e next method short has =
        match_exact _ method path e short
          (lookup-insert_or_assign path path e core.exact_routes ∙ rw (bytes_eq_refl path) refl)
        ∙ lookup_method_has method e has

    match_others :
        (core : RouterCore) (path other : Bytes) (e : Entry) (next method : ℕ)
        → bytes_eq path other ≡ false
        → match regex_match
            (record core {
              next_route_id = next;
              exact_routes = insert_or_assign path e core.exact_routes;
            })
            method
            other
          ≡ match regex_match core method other
    unfolding match
    match_others core path other e next method apart =
        rw (lookup-insert_or_assign other path e core.exact_routes, apart) refl

    -- An exact path that was added is matched with its new route: for its methods, and also for every method that
    -- an earlier route of this path had, whose handler is then never called again. The match of any other path is
    -- what it was.
    pub match-add_route :
        (core : RouterCore) (path other : Bytes) (ms : List ℕ) (method : ℕ)
        → IsExact path
        → has_method no_method ms ≡ false
        → length path ≤ max_path_length
        → (has_method method ms ≡ true) ⊎ (has_method method (old_entry core path).methods ≡ true)
        → let core' = (add_route names order core path ms).0 in
          (match regex_match core' method path ≡ record {
            matched = true;
            route_id = core.next_route_id;
            params = [];
            allowed_methods = [];
          })
          × ((other ≡ path)
              ⊎ (match regex_match core' method other ≡ match regex_match core method other))
    match-add_route core path other ms method exact valid short has =
        let id = core.next_route_id in
        let e = enter names order (old_entry core path) ms id in
        let there : has_method method e.methods ≡ true = elim has [
          | inl new ↦ enter_adds (old_entry core path) ms id method new
          | inr old ↦ enter_keeps (old_entry core path) ms id method old
        ] in
        rw (exact_routes-add_route core path ms exact valid) (
          match_added core path e (suc id) method short there
              ∙ ap matched_route (enter-route_id (old_entry core path) ms id),
          elim (Bool-cases (bytes_eq path other)) [
            | inl same ↦ inl (sym (bytes_eq→eq path other same))
            | inr apart ↦ inr (match_others core path other e (suc id) method apart)
          ],
        )
