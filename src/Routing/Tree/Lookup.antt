-- ===== src/Routing/Tree/Lookup.antt =====
-- Lookups after `rtRoutingTree_AddTopicRoute`.
use mathlib.Core.Option.{some-injective}
use rtmessage.Prelude.{
  ℕ, ◌≡◌, refl, ◌∙◌, ap, sym, Bool, true, Option-cases, inl, inr, some, List, [], ◌∷◌, ◌++◌,
}
use rtmessage.Error.{rt_ok}
use rtmessage.Routing.Tokens.{tokenize}
use rtmessage.Routing.Forest.{
  Name, Topic, Forest, find_topic, modify_topic, items, contains, add_pointer_to_list_once,
}
use rtmessage.Routing.Forest.Walk.{find-modify_topic}
use rtmessage.Routing.Forest.Above.{find-prefix, find-backpropagate_above}
use rtmessage.Routing.Tree.{
  Route, Tree, get_tree_route, ensure_route, last_is_missing, create_topics, add_topic_route,
  ends_with_dot, routes_of, get_topic_routes, push_route,
}
use rtmessage.Routing.Tree.Attach.{
  get_tree_route-set_topics, ensure_route_lem, attach-accepted, add_topic_route-eq, created_topic,
  name-push_route, find-attached, get_topic_routes-eq,
}

-- An accepted registration of the pointer `route` at a path whose tokens, `t ∷ ts`, fit the tokenizer's
-- arrays leaves a tree in
-- which the tokens lead to a topic whose `routeList` ends with the entry of `route`; a query for the
-- path is answered from that topic.
pub add_topic_route-found :
    (rt rt' : Tree) (path : List ℕ) (route : ℕ) (dup : Bool) (t : Name) (ts : List Name)
    → tokenize path ≡ some (t ∷ ts)
    → add_topic_route rt path route dup ≡ some (rt_ok, rt')
    → (p : Topic) × (k : Forest) × (entry : Route) × (before : List ℕ) × (find_topic rt'.topics t ts
        ≡ some (p, k))
      × (p.route_list ≡ some (before ++ (entry.id ∷ [])))
      × (get_topic_routes rt' path ≡ some (routes_of path p k))
      × (get_tree_route route rt'.route_list ≡ some entry)
unfolding create_topics
add_topic_route-found rt rt' path route dup t ts tokens ok =
    let entry = (ensure_route rt route).0 in
    let rt₁ = (ensure_route rt route).1 in
    let rt₂ = create_topics rt₁ t ts in
    let (p, k, found) = created_topic rt₁ t ts in
    let done = some-injective _ _ (sym (add_topic_route-eq rt path route dup t ts tokens) ∙ ok) in
    let (topics, routes) =
      attach-accepted rt₂ entry path dup (last_is_missing rt₁.topics t ts) t ts p k found
        (ap (λ w. w.0) done) in
    let (entry', registered, same) =
      get_tree_route-set_topics route entry.id (add_pointer_to_list_once entry.topic_list p.id)
        rt₂.route_list (ensure_route_lem rt route) in
    let arrives = find-attached entry.id rt₂.topics t ts found in
    rw (ap (λ w. w.1) (sym done)) (
      push_route entry.id p,
      k,
      entry',
      items p.route_list,
      rw topics arrives,
      rw same (unfold push_route in refl),
      get_topic_routes-eq _ path t ts tokens (rw topics arrives),
      rw routes registered,
    )

routes_of-partial :
    (partial : List ℕ) (p : Topic) (k : Forest) (x : ℕ)
    → ends_with_dot partial ≡ true
    → contains x (items p.route_list2) ≡ true
    → (l : List ℕ) × (routes_of partial p k ≡ some l) × (contains x l ≡ true)
unfolding routes_of
routes_of-partial partial p k x d c = elim (Option-cases p.route_list2) [
  | inl e ↦ absurd (no_items (rw e at c))
  | inr (l, e) ↦ (l, rw (d) e, rw e at c)
]
  where
    no_items : contains x [] ≡ true → ⊥
    no_items c = unfold contains in cc

-- After an accepted registration of `route` at a path whose tokens, `t ∷ us ++ v ∷ vs`, fit, a query that
-- ends in a dot and has the tokens `t ∷ us` of a topic further up is answered by a list that
-- holds the entry of `route`.
pub add_topic_route-partial :
    (rt rt' : Tree) (path partial : List ℕ) (route : ℕ) (dup : Bool) (t : Name) (us : List Name)
    (v : Name) (vs : List Name)
    → tokenize path ≡ some (t ∷ (us ++ (v ∷ vs)))
    → tokenize partial ≡ some (t ∷ us)
    → ends_with_dot partial ≡ true
    → add_topic_route rt path route dup ≡ some (rt_ok, rt')
    → (entry : Route) × (l : List ℕ) × (get_tree_route route rt'.route_list ≡ some entry)
      × (get_topic_routes rt' partial ≡ some (some l))
      × (contains entry.id l ≡ true)
unfolding create_topics
add_topic_route-partial rt rt' path partial route dup t us v vs tokens above dotted ok =
    let ts = us ++ (v ∷ vs) in
    let entry = (ensure_route rt route).0 in
    let rt₁ = (ensure_route rt route).1 in
    let rt₂ = create_topics rt₁ t ts in
    let (p, k, found) = created_topic rt₁ t ts in
    let done = some-injective _ _ (sym (add_topic_route-eq rt path route dup t ts tokens) ∙ ok) in
    let (topics, routes) =
      attach-accepted rt₂ entry path dup (last_is_missing rt₁.topics t ts) t ts p k found
        (ap (λ w. w.0) done) in
    let (entry', registered, same) =
      get_tree_route-set_topics route entry.id (add_pointer_to_list_once entry.topic_list p.id)
        rt₂.route_list (ensure_route_lem rt route) in
    let pushed =
      find-modify_topic (push_route entry.id) (name-push_route entry.id) rt₂.topics t ts found in
    let (q, l, passed) =
      find-prefix (modify_topic (push_route entry.id) rt₂.topics t ts) t us v vs pushed in
    let (q', l', arrives, held) =
      find-backpropagate_above entry.id (modify_topic (push_route entry.id) rt₂.topics t ts) t us v
        vs passed in
    let (list, answer, member) = routes_of-partial partial q' l' entry.id dotted held in
    rw (ap (λ w. w.1) (sym done)) (
      entry',
      list,
      rw routes registered,
      get_topic_routes-eq _ partial t us above (rw topics arrives) ∙ ap some answer,
      rw same member,
    )
