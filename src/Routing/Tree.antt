-- ===== src/Routing/Tree.antt =====
-- rtRoutingTree.c: the public operations on a routing tree.
pub mod Attach
pub mod Lookup
pub mod Duplicate
use rtmessage.Prelude.{
  ℕ, suc, ◌+◌, Bool, true, false, not, ◌&&◌, Option, none, some, List, [], ◌∷◌, ◌++◌, length, ltb,
  ◌==◌, if◌then◌else◌, codes, ◌-◌, get_or,
}
use rtmessage.Error.{rt_ok, rt_error_duplicate_entry}
use rtmessage.Routing.Tokens.{dot, tokenize}
use rtmessage.Routing.Forest.{
  Name, Topic, Forest, leaf, node, same_name, matches, find_topic, is_missing, create_path,
  modify_topic, items, add_pointer_to_list_once, backpropagate, remove_pointer, remove_route,
  is_empty,
}

-- struct rtTreeRoute, with its address; `route` is the pointer that the caller registered.
pub record Route : Type 0 where
  pub id : ℕ
  pub route : ℕ
  pub topic_list : List ℕ

-- struct _rtRoutingTree; `topics` are the children of `topicRoot`, and `fresh` is above every
-- address in use.
pub record Tree : Type 0 where
  pub topics : Forest
  pub route_list : List Route
  pub fresh : ℕ

-- rtRoutingTree_Create
unfoldable pub create : Tree
create = record { topics = leaf; route_list = []; fresh = 0 }

-- getTreeRoute: the entry of a registered pointer
unfoldable pub get_tree_route : ℕ → List Route → Option Route
get_tree_route route [] = none
get_tree_route route (entry ∷ entries) =
    if entry.route == route then some entry else get_tree_route route entries

-- The entry at an address: `none` is a pointer to no entry, or to one that was freed.
unfoldable pub deref : ℕ → List Route → Option Route
deref id [] = none
deref id (entry ∷ entries) = if entry.id == id then some entry else deref id entries

-- A new `topicList` for the entry at an address.
unfoldable pub set_topics : ℕ → List ℕ → List Route → List Route
set_topics id topics [] = []
set_topics id topics (entry ∷ entries) =
    if entry.id == id
    then record entry { topic_list = topics } ∷ entries
    else entry ∷ set_topics id topics entries

-- rtList_RemoveItem of the entry at an address, and freeTreeRoute
unfoldable pub remove_entry : ℕ → List Route → List Route
remove_entry id [] = []
remove_entry id (entry ∷ entries) =
    if entry.id == id then entries else entry ∷ remove_entry id entries

-- The entry that `rtRoutingTree_AddTopicRoute` uses, and the tree that holds it.
unfoldable pub ensure_route : Tree → ℕ → Route × Tree
ensure_route rt route = elim (get_tree_route route rt.route_list) [
  | some entry ↦ (entry, rt)
  | none ↦
      let entry : Route = record { id = rt.fresh; route = route; topic_list = [] } in
      (entry, record rt { route_list = rt.route_list ++ (entry ∷ []); fresh = rt.fresh + 1 })
]

abbrev pub advisory_topic : List ℕ
advisory_topic = codes "_RTROUTED.ADVISORY"

-- `topic->routeList` is not NULL
abbrev pub has_list : Topic → Bool
has_list topic = elim topic.route_list [ none ↦ false | some _ ↦ true ]

-- The test for a duplicate registration; `isCreated` is for the last token.
unfoldable pub is_duplicate : List ℕ → Bool → Bool → Topic → Bool
is_duplicate topic_path err_on_dup is_created topic =
    err_on_dup && not is_created && has_list topic && not (same_name topic_path advisory_topic)

-- `rtList_PushBack(topic->routeList, route)`, with the list created if there is none
unfoldable pub push_route : ℕ → Topic → Topic
push_route route topic = record topic { route_list = some (items topic.route_list ++ (route ∷ [])) }

-- What is left to do once the topic has been found or created.
unfoldable pub attach : Tree → Route → List ℕ → Bool → Bool → Name → List Name → ℕ × Tree
attach rt entry topic_path err_on_dup is_created t ts = elim (find_topic rt.topics t ts) [
  | none ↦ (rt_ok, rt)
  | some (topic, kids) ↦
      if is_duplicate topic_path err_on_dup is_created topic
      then (rt_error_duplicate_entry, rt)
      else (
        rt_ok,
        record rt {
          topics = backpropagate entry.id (modify_topic (push_route entry.id) rt.topics t ts) t ts;
          route_list =
              set_topics entry.id (add_pointer_to_list_once entry.topic_list topic.id)
                rt.route_list;
        },
      )
]

-- Whether the walk with `create` makes a new topic for its last token.
unfoldable pub last_is_missing : Forest → Name → List Name → Bool
last_is_missing forest t ts = elim (find_topic forest t ts) [ none ↦ true | some _ ↦ false ]

-- The loop of `rtRoutingTree_AddTopicRoute` over the tokens. It takes as many addresses as there are
-- tokens, the most that it can need.
unfoldable pub create_topics : Tree → Name → List Name → Tree
create_topics rt t ts = record rt {
  topics = create_path rt.fresh none rt.topics t ts;
  fresh = rt.fresh + length (t ∷ ts);
}

-- rtRoutingTree_AddTopicRoute: `none` is a write of the tokenizer outside its arrays.
unfoldable pub add_topic_route : Tree → List ℕ → ℕ → Bool → Option (ℕ × Tree)
add_topic_route rt topic_path route err_on_dup = elim (tokenize topic_path) [
  | none ↦ none
  | some [] ↦ some (rt_ok, rt)
  | some (t ∷ ts) ↦
      let (entry, rt') = ensure_route rt route in
      some (
        attach (create_topics rt' t ts) entry topic_path err_on_dup
          (last_is_missing rt'.topics t ts) t ts)
]

unfoldable pub ends_with_dot : List ℕ → Bool
ends_with_dot expression = get_or expression (length expression - 1) 0 == dot

abbrev pub curly_name : Name
curly_name = codes "{i}"

-- What the last topic answers; `{i}` is looked up among its children.
unfoldable pub routes_of : List ℕ → Topic → Forest → Option (List ℕ)
routes_of expression topic kids =
    if ends_with_dot expression
    then topic.route_list2
    else if topic.is_table
    then elim (find_topic kids curly_name []) [ none ↦ none | some (curly, _) ↦ curly.route_list ]
    else topic.route_list

-- rtRoutingTree_GetTopicRoutes, without ENABLE_ROUTE2_QUICK_GET_OPTIMIZATION (not defined anywhere): the
-- list, or NULL as `some none`; `none` is a write of the tokenizer outside its arrays.
unfoldable pub get_topic_routes : Tree → List ℕ → Option (Option (List ℕ))
get_topic_routes rt expression = elim (tokenize expression) [
  | none ↦ none
  | some [] ↦ some none
  | some (t ∷ ts) ↦ elim (find_topic rt.topics t ts) [
    | none ↦ some none
    | some (topic, kids) ↦ some (routes_of expression topic kids)
  ]
]

-- rtRoutingTree_GetRouteTopics
unfoldable pub get_route_topics : Tree → ℕ → Option (List ℕ)
get_route_topics rt route = elim (get_tree_route route rt.route_list) [
  | none ↦ none
  | some entry ↦ some entry.topic_list
]
