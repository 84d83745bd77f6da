-- ===== src/Routing/Tree/Attach.antt =====
-- `rtRoutingTree_AddTopicRoute` step by step: the entry, the topic, and what is attached to it.
use rtmessage.Prelude.{
  ℕ, ◌≡◌, refl, Bool, true, Bool-cases, Option-cases, inl, inr, none, some, List, [], ◌∷◌, ◌++◌,
  ==_self, ◌==◌, if◌then◌else◌, arith,
}
use rtmessage.Error.{rt_ok, rt_error_duplicate_entry}
use rtmessage.Routing.Tokens.{tokenize}
use rtmessage.Routing.Forest.{
  Name, Topic, Forest, find_topic, modify_topic, add_pointer_to_list_once, backpropagate,
}
use rtmessage.Routing.Forest.Walk.{find-create_path, find-modify_topic, find-backpropagate}
use rtmessage.Routing.Tree.{
  Route, Tree, get_tree_route, set_topics, ensure_route, attach, last_is_missing, create_topics,
  add_topic_route, routes_of, get_topic_routes, is_duplicate, push_route,
}

get_tree_route-append :
    (route : ℕ) (entries : List Route) (entry : Route)
    → get_tree_route route entries ≡ none
    → entry.route ≡ route
    → get_tree_route route (entries ++ (entry ∷ [])) ≡ some entry
unfolding get_tree_route
get_tree_route-append route [] entry e f = rw (f, ==_self route)
get_tree_route-append route (x ∷ entries) entry e f =
    ground (arith, get_tree_route-append route entries entry)

-- The entry that `ensure_route` returns is the one that the tree holds for the pointer.
pub ensure_route_lem :
    (rt : Tree) (route : ℕ)
    → get_tree_route route (ensure_route rt route).1.route_list ≡ some (ensure_route rt route).0
unfolding ensure_route
ensure_route_lem rt route = elim (Option-cases (get_tree_route route rt.route_list)) [
  | inl e ↦ rw (e, ensure_route) (get_tree_route-append route rt.route_list _ e refl)
  | inr (entry, e) ↦ rw (e, ensure_route) e
]

pub topics-ensure_route : (rt : Tree) (route : ℕ) → (ensure_route rt route).1.topics ≡ rt.topics
unfolding ensure_route
topics-ensure_route rt route = ground arith

pub get_tree_route-set_topics :
    (route id : ℕ) (l : List ℕ) (entries : List Route) {entry : Route}
    → get_tree_route route entries ≡ some entry
    → (entry' : Route) × (get_tree_route route (set_topics id l entries) ≡ some entry')
      × (entry'.id ≡ entry.id)
unfolding get_tree_route set_topics
get_tree_route-set_topics route id l [] e = cc
get_tree_route-set_topics route id l (x ∷ entries) {entry} e = elim (Bool-cases (x.id == id)) [
  | inl same ↦ elim (Bool-cases (x.route == route)) [
    | inl hit ↦ (record x { topic_list = l }, rw (same, get_tree_route, hit), ground arith)
    | inr miss ↦ (entry, rw (same, get_tree_route, miss) (rw miss at e), refl)
  ]
  | inr other ↦ elim (Bool-cases (x.route == route)) [
    | inl hit ↦ (x, rw (other, get_tree_route, hit), ground arith)
    | inr miss ↦
        let (entry', f, i) =
          get_tree_route-set_topics route id l entries {entry = entry} (rw miss at e) in
        (entry', rw (other, get_tree_route, miss) f, i)
  ]
]

module _ (rt : Tree) (entry : Route) (path : List ℕ) (dup created : Bool) (t : Name)
    (ts : List Name) (p : Topic) (k : Forest)
    (found : find_topic rt.topics t ts ≡ some (p, k)) where
  pub attach-eq : attach rt entry path dup created t ts ≡ (
      if is_duplicate path dup created p then (rt_error_duplicate_entry, rt) else (
        rt_ok,
        record rt {
          topics = backpropagate entry.id (modify_topic (push_route entry.id) rt.topics t ts) t ts;
          route_list =
              set_topics entry.id (add_pointer_to_list_once entry.topic_list p.id) rt.route_list;
        },
      ))
  unfolding attach
  attach-eq = rw (found, attach)

  pub attach-refused :
      is_duplicate path dup created p ≡ true
      → attach rt entry path dup created t ts ≡ (rt_error_duplicate_entry, rt)
  attach-refused d = rw (attach-eq, d)

  -- What an accepted registration leaves behind.
  pub attach-accepted :
      (attach rt entry path dup created t ts).0 ≡ rt_ok
      → let rt' = (attach rt entry path dup created t ts).1 in
        (rt'.topics
          ≡ backpropagate entry.id (modify_topic (push_route entry.id) rt.topics t ts) t ts)
        × (rt'.route_list
            ≡ set_topics entry.id (add_pointer_to_list_once entry.topic_list p.id) rt.route_list)
  attach-accepted ok = ground (arith, attach-eq)

pub add_topic_route-eq :
    (rt : Tree) (path : List ℕ) (route : ℕ) (dup : Bool) (t : Name) (ts : List Name)
    → tokenize path ≡ some (t ∷ ts)
    → let (entry, rt') = ensure_route rt route in
      add_topic_route rt path route dup
      ≡ some (attach (create_topics rt' t ts) entry path dup (last_is_missing rt'.topics t ts) t ts)
unfolding add_topic_route
add_topic_route-eq rt path route dup t ts tokens = rw (tokens, add_topic_route)

-- The topic that the registration finds or creates.
pub created_topic :
    (rt : Tree) (t : Name) (ts : List Name)
    → (p : Topic) × (k : Forest) × (find_topic (create_topics rt t ts).topics t ts ≡ some (p, k))
unfolding create_topics
created_topic rt t ts = find-create_path rt.fresh none rt.topics t ts

pub name-push_route : (r : ℕ) (p : Topic) → (push_route r p).name ≡ p.name
unfolding push_route
name-push_route r p = refl

pub find-attached :
    (r : ℕ) (f : Forest) (t : Name) (ts : List Name) {p : Topic} {k : Forest}
    → find_topic f t ts ≡ some (p, k)
    → find_topic (backpropagate r (modify_topic (push_route r) f t ts) t ts) t ts
      ≡ some (push_route r p, k)
find-attached r f t ts e =
    find-backpropagate r _ t ts (find-modify_topic (push_route r) (name-push_route r) f t ts e)

pub get_topic_routes-eq :
    (rt : Tree) (path : List ℕ) (t : Name) (ts : List Name) {p : Topic} {k : Forest}
    → tokenize path ≡ some (t ∷ ts)
    → find_topic rt.topics t ts ≡ some (p, k)
    → get_topic_routes rt path ≡ some (routes_of path p k)
unfolding get_topic_routes
get_topic_routes-eq rt path t ts tokens found = rw (tokens, get_topic_routes) (rw found)
