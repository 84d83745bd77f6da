-- ===== src/Router/Subscribe.antt =====
-- A subscription of rtrouted.c, from the request to the routing tree.
use rtmessage.Prelude.{
  ℕ, ◌≡◌, ◌+◌, ◌∙◌, refl, ap, true, false, none, some, List, [], ◌∷◌, ◌++◌, take,
}
use rtmessage.Error.{rt_ok, rt_error_duplicate_entry}
use rtmessage.Routing.Tokens.{tokenize}
use rtmessage.Routing.Forest.{Name, Topic, Forest, find_topic, same_name}
use rtmessage.Routing.Tree.{
  Route, Tree, add_topic_route, is_duplicate, ensure_route, create_topics, last_is_missing,
  get_tree_route, get_topic_routes, routes_of, has_list, advisory_topic,
}
use rtmessage.Routing.Tree.Attach.{add_topic_route-eq, created_topic, attach-eq}
use rtmessage.Routing.Tree.Lookup.{add_topic_route-found}
use rtmessage.Routing.Tree.Duplicate.{add_topic_route-duplicate}
use rtmessage.Router.{
  Entry, Router, Request, complete, forward_message, max_expression_len, validate_string,
  find_subscription, subscribe, add_route, add_alias, on_message_subscribe,
}

-- Without `err_on_dup` every registration whose tokens fit is accepted.
pub add_topic_route-accepted :
    (rt : Tree) (path : List ℕ) (route : ℕ) (t : Name) (ts : List Name)
    → tokenize path ≡ some (t ∷ ts)
    → (rt' : Tree) × (add_topic_route rt path route false ≡ some (rt_ok, rt'))
unfolding is_duplicate
add_topic_route-accepted rt path route t ts tokens =
    let rt₁ = (ensure_route rt route).1 in
    let (p, k, found) = created_topic rt₁ t ts in
    (
      _,
      add_topic_route-eq rt path route false t ts tokens
          ∙ ap some (
              attach-eq (create_topics rt₁ t ts) (ensure_route rt route).0 path false
                (last_is_missing rt₁.topics t ts) t ts p k found),
    )

-- A valid request for a subscription that the sender does not have yet, whose tokens fit the arrays of the
-- tokenizer, is accepted: the last route
-- is the sender's, with the id and the expression of the request, and the tree leads from the
-- tokens of the topic to a topic whose `routeList` ends with the entry of that route, from which a
-- message for the topic is answered.
pub on_message_subscribe-new :
    (r : Router) (sender : ℕ) (m : Request) (t : Name) (ts : List Name)
    → validate_string m.topic max_expression_len ≡ true
    → m.add ≡ 1
    → find_subscription sender m.route_id r.routes ≡ none
    → tokenize m.topic ≡ some (t ∷ ts)
    → (r' : Router) × (p : Topic) × (k : Forest) × (entry : Route) × (before : List ℕ)
      × (on_message_subscribe r sender (complete m) ≡ some (rt_ok, r'))
      × (r'.routes
          ≡ r.routes
            ++ (record {
              id = r.next_entry;
              expression = take max_expression_len m.topic;
              handler = forward_message;
              has_subscription = true;
              subscription_id = m.route_id;
              client = sender;
            }
                ∷ []))
      × (get_tree_route r.next_entry r'.routing_tree.route_list ≡ some entry)
      × (find_topic r'.routing_tree.topics t ts ≡ some (p, k))
      × (p.route_list ≡ some (before ++ (entry.id ∷ [])))
      × (get_topic_routes r'.routing_tree m.topic ≡ some (routes_of m.topic p k))
unfolding on_message_subscribe subscribe add_route
on_message_subscribe-new r sender m t ts valid add none_yet tokens =
    let (rt', ok) = add_topic_route-accepted r.routing_tree m.topic r.next_entry t ts tokens in
    let (p, k, entry, before, found, listed, answer, registered) =
      add_topic_route-found r.routing_tree rt' m.topic r.next_entry false t ts tokens ok in
    let route : Entry = record {
      id = r.next_entry;
      expression = take max_expression_len m.topic;
      handler = forward_message;
      has_subscription = true;
      subscription_id = m.route_id;
      client = sender;
    } in
    (
      record {
        routes = r.routes ++ (route ∷ []);
        routing_tree = rt';
        next_entry = r.next_entry + 1;
      },
      p,
      k,
      entry,
      before,
      rw (valid, add, none_yet, subscribe, add_route, ok) refl,
      refl,
      registered,
      found,
      listed,
      answer,
    )

-- A valid request by a client that has the subscription already, for a topic that has routes, is
-- refused with RT_ERROR_DUPLICATE_ENTRY unless it is the advisory topic; neither the routes nor the
-- topics of the tree change.
on_message_subscribe-duplicate :
    (r : Router) (sender : ℕ) (m : Request) (route : Entry) (t : Name) (ts : List Name) (p : Topic)
    (k : Forest)
    → validate_string m.topic max_expression_len ≡ true
    → m.add ≡ 1
    → find_subscription sender m.route_id r.routes ≡ some route
    → tokenize m.topic ≡ some (t ∷ ts)
    → find_topic r.routing_tree.topics t ts ≡ some (p, k)
    → has_list p ≡ true
    → same_name m.topic advisory_topic ≡ false
    → (r' : Router) × (on_message_subscribe r sender (complete m)
        ≡ some (rt_error_duplicate_entry, r'))
      × (r'.routes ≡ r.routes)
      × (r'.routing_tree.topics ≡ r.routing_tree.topics)
unfolding on_message_subscribe subscribe add_alias
on_message_subscribe-duplicate r sender m route t ts p k valid add has tokens found listed plain =
    let (rt', refused, same, _) =
      add_topic_route-duplicate r.routing_tree m.topic route.id t ts p k tokens found listed
        plain in
    (
      record r { routing_tree = rt' },
      rw (valid, add, has, subscribe, add_alias, refused) refl,
      refl,
      same,
    )
