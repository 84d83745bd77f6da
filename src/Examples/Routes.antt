-- ===== src/Examples/Routes.antt =====
-- The routing tree and the router: the theorems at concrete inputs.
use rtmessage.Prelude.{
  ℕ, ◌≤◌, ◌≡◌, refl, true, false, none, some, List, [], ◌∷◌, ◌++◌, take, replicate, arith, codes,
}
use rtmessage.Error.{rt_ok}
use rtmessage.Routing.Tokens.{
  tokenize, split_expression, work_bytes, tokenize_loop, take_token, skip_dot, dot,
}
use rtmessage.Routing.Tokens.Laws.{tokenize-dots}
use rtmessage.Routing.Forest.{
  Topic, Forest, leaf, node, find_topic, contains, same_name, matches, remove_route, items,
  create_path, create_chain, new_topic, first_char, is_instance, modify_topic, backpropagate,
  add_pointer_to_list_once, is_missing,
}
use rtmessage.Routing.Tree.{
  Route, Tree, create, add_topic_route, get_tree_route, get_topic_routes, routes_of, ends_with_dot,
  ensure_route, create_topics, attach, is_duplicate, push_route, set_topics, last_is_missing,
  advisory_topic,
}
use rtmessage.Routing.Tree.Lookup.{add_topic_route-found, add_topic_route-partial}
use rtmessage.Routing.Removal.{remove_tree_route}
use rtmessage.Routing.Removal.Prune.{
  AllLists, count, without, remove_tree_route-clears, remove_tree_route-keeps,
}
use rtmessage.Router.{
  Entry, Router, Request, complete, forward_message, max_expression_len, validate_string, is_of,
  find_subscription, on_message_subscribe, clear_client_routes,
}
use rtmessage.Router.Clients.{others, clear_client_routes-others}
use rtmessage.Router.Subscribe.{on_message_subscribe-new}

tokenize-dots_example : tokenize (replicate 33 dot) ≡ none
tokenize-dots_example = tokenize-dots 33

tokens_ab : tokenize (codes "A.B") ≡ some (codes "A" ∷ codes "B" ∷ [])
unfolding tokenize split_expression tokenize_loop take_token skip_dot work_bytes
tokens_ab = refl

tokens_a : tokenize (codes "A.") ≡ some (codes "A" ∷ [])
unfolding tokenize split_expression tokenize_loop take_token skip_dot work_bytes
tokens_a = refl

-- The tree after the registration of the pointer 7 at `A.B`
abbrev pub topic_a : Topic
topic_a = record {
  id = 1;
  name = codes "A";
  full_name = codes "A";
  route_list = none;
  route_list2 = some (0 ∷ []);
  is_table = false;
}

abbrev pub topic_b : Topic
topic_b = record {
  id = 2;
  name = codes "B";
  full_name = codes "A.B";
  route_list = some (0 ∷ []);
  route_list2 = none;
  is_table = false;
}

abbrev pub entry_7 : Route
entry_7 = record { id = 0; route = 7; topic_list = 2 ∷ [] }

abbrev pub small : Tree
small = record {
  topics = node topic_a (node topic_b leaf leaf) leaf;
  route_list = entry_7 ∷ [];
  fresh = 3;
}

small_is_built : add_topic_route create (codes "A.B") 7 true ≡ some (rt_ok, small)
unfolding add_topic_route create tokenize split_expression tokenize_loop take_token skip_dot
    work_bytes ensure_route get_tree_route create_topics create_path create_chain new_topic attach
    find_topic matches same_name first_char is_instance is_duplicate push_route modify_topic
    backpropagate add_pointer_to_list_once contains set_topics last_is_missing is_missing
small_is_built = refl

add_topic_route-found_example :
    (p : Topic) × (k : Forest) × (entry : Route) × (before : List ℕ) × (find_topic small.topics
        (codes "A")
        (codes "B" ∷ [])
      ≡ some (p, k))
    × (p.route_list ≡ some (before ++ (entry.id ∷ [])))
    × (get_topic_routes small (codes "A.B") ≡ some (routes_of (codes "A.B") p k))
    × (get_tree_route 7 small.route_list ≡ some entry)
add_topic_route-found_example =
    add_topic_route-found create small (codes "A.B") 7 true (codes "A") (codes "B" ∷ []) tokens_ab
      small_is_built

add_topic_route-partial_example :
    (entry : Route) × (l : List ℕ) × (get_tree_route 7 small.route_list ≡ some entry)
    × (get_topic_routes small (codes "A.") ≡ some (some l))
    × (contains entry.id l ≡ true)
unfolding ends_with_dot
add_topic_route-partial_example =
    add_topic_route-partial create small (codes "A.B") (codes "A.") 7 true (codes "A") []
      (codes "B") [] tokens_ab tokens_a refl small_is_built

found_b : find_topic small.topics (codes "A") (codes "B" ∷ []) ≡ some (topic_b, leaf)
unfolding find_topic matches same_name first_char is_instance
found_b = refl

not_advisory : same_name (codes "A.B") advisory_topic ≡ false
unfolding same_name
not_advisory = refl

registered_7 : get_tree_route 7 small.route_list ≡ some entry_7
unfolding get_tree_route
registered_7 = refl

once_each : AllLists (λ l. count 0 l ≤ 1) small.topics
unfolding count
once_each = (omega arith, omega arith, (omega arith, omega arith, tt, tt), tt)

remove_tree_route-clears_example :
    AllLists (λ l. contains 0 l ≡ false) (remove_tree_route small 7).topics
remove_tree_route-clears_example = remove_tree_route-clears small 7 entry_7 registered_7 once_each

-- The same tree with a second route, 8, on `A.B`
abbrev shared_b : Topic
shared_b = record topic_b { route_list = some (0 ∷ 3 ∷ []) }

abbrev shared : Tree
shared = record {
  topics = node topic_a (node shared_b leaf leaf) leaf;
  route_list = entry_7 ∷ record { id = 3; route = 8; topic_list = 2 ∷ [] } ∷ [];
  fresh = 4;
}

registered_shared : get_tree_route 7 shared.route_list ≡ some entry_7
unfolding get_tree_route
registered_shared = refl

found_shared : find_topic shared.topics (codes "A") (codes "B" ∷ []) ≡ some (shared_b, leaf)
unfolding find_topic matches same_name first_char is_instance
found_shared = refl

holds_3 : contains 3 (items shared_b.route_list) ≡ true
unfolding contains
holds_3 = refl

remove_tree_route-keeps_example :
    find_topic (remove_tree_route shared 7).topics (codes "A") (codes "B" ∷ [])
    ≡ some (without 0 shared_b, remove_route 0 leaf)
remove_tree_route-keeps_example =
    remove_tree_route-keeps shared 7 entry_7 3 (codes "A") (codes "B" ∷ []) shared_b leaf
      registered_shared found_shared holds_3 (omega arith)

-- A router with a route of the client 5 on `A.B`
abbrev pub entry_of_5 : Entry
entry_of_5 = record {
  id = 7;
  expression = codes "A.B";
  handler = forward_message;
  has_subscription = true;
  subscription_id = 1;
  client = 5;
}

abbrev pub entry_of_6 : Entry
entry_of_6 = record {
  id = 8;
  expression = codes "C";
  handler = forward_message;
  has_subscription = true;
  subscription_id = 1;
  client = 6;
}

abbrev pub router : Router
router = record { routes = entry_of_5 ∷ entry_of_6 ∷ []; routing_tree = small; next_entry = 9 }

clear_client_routes-others_example : (clear_client_routes router 5).routes ≡ others 5 router.routes
clear_client_routes-others_example =
    clear_client_routes-others router 5 ((omega arith, tt), (tt, tt))

abbrev join_ab : ℕ → Request
join_ab id = record { add = 1; topic = codes "A.B"; route_id = id }

valid_ab : validate_string (codes "A.B") max_expression_len ≡ true
unfolding validate_string
valid_ab = refl

no_subscription : find_subscription 5 2 router.routes ≡ none
unfolding find_subscription is_of
no_subscription = refl

a_subscription : find_subscription 5 1 router.routes ≡ some entry_of_5
unfolding find_subscription is_of
a_subscription = refl

on_message_subscribe-new_example :
    (r' : Router) × (p : Topic) × (k : Forest) × (entry : Route) × (before : List ℕ)
    × (on_message_subscribe router 5 (complete (join_ab 2)) ≡ some (rt_ok, r'))
    × (r'.routes
        ≡ router.routes
          ++ (record {
            id = 9;
            expression = take max_expression_len (codes "A.B");
            handler = forward_message;
            has_subscription = true;
            subscription_id = 2;
            client = 5;
          }
              ∷ []))
    × (get_tree_route 9 r'.routing_tree.route_list ≡ some entry)
    × (find_topic r'.routing_tree.topics (codes "A") (codes "B" ∷ []) ≡ some (p, k))
    × (p.route_list ≡ some (before ++ (entry.id ∷ [])))
    × (get_topic_routes r'.routing_tree (codes "A.B") ≡ some (routes_of (codes "A.B") p k))
on_message_subscribe-new_example =
    on_message_subscribe-new router 5 (join_ab 2) (codes "A") (codes "B" ∷ []) valid_ab refl
      no_subscription tokens_ab
