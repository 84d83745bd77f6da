-- ===== src/Routing/Tree/Duplicate.antt =====
-- Duplicate registrations.
use rtmessage.Prelude.{ℕ, ◌≡◌, ap, ◌∙◌, true, false, none, some, List, ◌∷◌}
use rtmessage.Error.{rt_error_duplicate_entry}
use rtmessage.Routing.Tokens.{tokenize}
use rtmessage.Routing.Forest.{Name, Topic, Forest, same_name, find_topic}
use rtmessage.Routing.Forest.Above.{create_path-found}
use rtmessage.Routing.Tree.{
  Tree, ensure_route, last_is_missing, create_topics, add_topic_route, get_topic_routes,
  advisory_topic, is_duplicate, has_list,
}
use rtmessage.Routing.Tree.Attach.{topics-ensure_route, attach-refused, add_topic_route-eq}

-- A query reads the topics alone.
get_topic_routes_topics :
    (a b : Tree) (path : List ℕ)
    → a.topics ≡ b.topics
    → get_topic_routes a path ≡ get_topic_routes b path
unfolding get_topic_routes
get_topic_routes_topics a b path e = rw e

topics-created :
    (rt : Tree) (route : ℕ) (t : Name) (ts : List Name) {p : Topic} {k : Forest}
    → find_topic rt.topics t ts ≡ some (p, k)
    → (create_topics (ensure_route rt route).1 t ts).topics ≡ rt.topics
unfolding create_topics
topics-created rt route t ts {p} {k} found =
    rw (topics-ensure_route rt route)
      (create_path-found (ensure_route rt route).1.fresh none rt.topics t ts {p = p} {k = k} found)

duplicate :
    (rt : Tree) (route : ℕ) (path : List ℕ) (t : Name) (ts : List Name) {p : Topic} {k : Forest}
    → find_topic rt.topics t ts ≡ some (p, k)
    → has_list p ≡ true
    → same_name path advisory_topic ≡ false
    → is_duplicate path true (last_is_missing (ensure_route rt route).1.topics t ts) p ≡ true
unfolding is_duplicate last_is_missing
duplicate rt route path t ts found listed plain =
    rw (topics-ensure_route rt route, found, last_is_missing, listed, plain)

-- With `err_on_dup`, a path whose topic already has a `routeList` is refused, unless it is the
-- advisory topic, and the topics stay as they were.
pub add_topic_route-duplicate :
    (rt : Tree) (path : List ℕ) (route : ℕ) (t : Name) (ts : List Name) (p : Topic) (k : Forest)
    → tokenize path ≡ some (t ∷ ts)
    → find_topic rt.topics t ts ≡ some (p, k)
    → has_list p ≡ true
    → same_name path advisory_topic ≡ false
    → (rt' : Tree) × (add_topic_route rt path route true ≡ some (rt_error_duplicate_entry, rt'))
      × (rt'.topics ≡ rt.topics)
      × ((other : List ℕ) → get_topic_routes rt' other ≡ get_topic_routes rt other)
add_topic_route-duplicate rt path route t ts p k tokens found listed plain =
    let entry = (ensure_route rt route).0 in
    let rt₁ = (ensure_route rt route).1 in
    let rt₂ = create_topics rt₁ t ts in
    let same : rt₂.topics ≡ rt.topics = topics-created rt route t ts found in
    let d : is_duplicate path true (last_is_missing rt₁.topics t ts) p ≡ true =
      duplicate rt route path t ts found listed plain in
    let e : add_topic_route rt path route true ≡ some (rt_error_duplicate_entry, rt₂) =
      add_topic_route-eq rt path route true t ts tokens
      ∙ ap some (
          attach-refused rt₂ entry path true (last_is_missing rt₁.topics t ts) t ts p k
            (rw same found) d) in
    (rt₂, e, same, λ other. get_topic_routes_topics rt₂ rt other same)
