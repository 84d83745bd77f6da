-- ===== src/Routing/Removal.antt =====
-- rtRoutingTree.c: `rtRoutingTree_RemoveRoute`, `rtRoutingTree_RemoveTopic` and their helpers.
pub mod Prune
use rtmessage.Prelude.{ℕ, Option, none, some, List, [], ◌∷◌, if◌then◌else◌}
use rtmessage.Routing.Tokens.{tokenize}
use rtmessage.Routing.Forest.{
  Name, Forest, leaf, node, same_name, matches, items, remove_pointer, remove_route, is_empty,
}
use rtmessage.Routing.Tree.{Route, Tree, get_tree_route, deref, set_topics, remove_entry}

-- rtRoutingTree_RemoveRoute
unfoldable pub remove_tree_route : Tree → ℕ → Tree
remove_tree_route rt route = elim (get_tree_route route rt.route_list) [
  | none ↦ rt
  | some entry ↦ record rt {
    topics = remove_route entry.id rt.topics;
    route_list = remove_entry entry.id rt.route_list;
  }
]

-- The first loop of removeTopicFromRoutes: `none` is a route that was freed before.
unfoldable pub drop_topic : ℕ → List ℕ → List Route → Option (List Route)
drop_topic topic [] entries = some entries
drop_topic topic (r ∷ rs) entries = elim (deref r entries) [
  | none ↦ none
  | some entry ↦
      let topics = remove_pointer topic entry.topic_list in
      drop_topic topic rs
        (if is_empty topics then remove_entry r entries else set_topics r topics entries)
]

-- removeTopicFromRoutes for each topic of a forest, the topic before its children
unfoldable pub drop_topics : Forest → List Route → Option (List Route)
drop_topics leaf entries = some entries
drop_topics (node topic kids next) entries =
    elim (drop_topic topic.id (items topic.route_list) entries) [
      | none ↦ none
      | some entries' ↦ elim (drop_topics kids entries') [
        | none ↦ none
        | some entries'' ↦ drop_topics next entries''
      ]
    ]

-- `getChildByName` with `remove` at the last token: the forest without the topic, and the topic with
-- its children as a forest of its own. A match that is not exact is not removed.
unfoldable pub cut_topic : Forest → Name → List Name → Forest × Forest
cut_topic leaf t ts = (leaf, leaf)
cut_topic (node topic kids next) t [] =
    let (next', cut) = cut_topic next t [] in
    if same_name topic.name t
    then (next, node topic kids leaf)
    else if matches topic t
    then (node topic kids next, leaf)
    else (node topic kids next', cut)
cut_topic (node topic kids next) t (u ∷ us) =
    let below = cut_topic kids u us in
    let rest = cut_topic next t (u ∷ us) in
    if matches topic t then (node topic below.0 next, below.1) else (node topic kids rest.0, rest.1)

-- rtRoutingTree_RemoveTopic: `none` is a use of a freed route, or a write of the tokenizer outside its arrays.
unfoldable pub remove_topic : Tree → List ℕ → Option Tree
remove_topic rt expression = elim (tokenize expression) [
  | none ↦ none
  | some [] ↦ some rt
  | some (t ∷ ts) ↦
      let (topics, cut) = cut_topic rt.topics t ts in
      elim (drop_topics cut rt.route_list) [
        | none ↦ none
        | some entries ↦ some (record rt { topics = topics; route_list = entries })
      ]
]
