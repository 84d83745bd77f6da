-- ===== src/Routing/Resolve.antt =====
-- rtRoutingTree.c: `rtRoutingTree_ResolvePartialPath` and `rtRoutingTree_LogStats`.
use rtmessage.Prelude.{ℕ, ◌+◌, Option, none, some, List, [], ◌∷◌, length, ltb, ◌==◌, if◌then◌else◌}
use rtmessage.Routing.Tokens.{tokenize}
use rtmessage.Routing.Forest.{Name, Topic, Forest, leaf, node, find_topic, items}
use rtmessage.Routing.Tree.{Tree, deref}

-- The topic at an address: `none` is a pointer to no topic, or to one that was freed.
unfoldable pub topic_at : ℕ → Forest → Option Topic
topic_at id leaf = none
topic_at id (node topic kids next) =
    let below = topic_at id kids in
    let rest = topic_at id next in
    if topic.id == id then some topic else elim below [ none ↦ rest | some p ↦ some p ]

-- The `fullName` of the first topic of a route: `none` is a NULL or freed pointer that is used.
unfoldable pub first_topic_name : Tree → ℕ → Option Name
first_topic_name rt r = elim (deref r rt.route_list) [
  | none ↦ none
  | some entry ↦ elim entry.topic_list [
    | [] ↦ none
    | id ∷ ids ↦ elim (topic_at id rt.topics) [ none ↦ none | some p ↦ some p.full_name ]
  ]
]

unfoldable pub first_topic_names : Tree → List ℕ → Option (List Name)
first_topic_names rt [] = some []
first_topic_names rt (r ∷ rs) =
    let rest = first_topic_names rt rs in
    elim (first_topic_name rt r) [
      | none ↦ none
      | some name ↦ elim rest [ none ↦ none | some names ↦ some (name ∷ names) ]
    ]

-- rtRoutingTree_ResolvePartialPath: the names that it puts behind the caller's list;
-- `none` is a use of a NULL or freed pointer, or a write of the tokenizer outside its arrays.
unfoldable pub resolve_partial_path : Tree → List ℕ → Option (List Name)
resolve_partial_path rt expression = elim (tokenize expression) [
  | none ↦ none
  | some [] ↦ some []
  | some (t ∷ ts) ↦ elim (find_topic rt.topics t ts) [
    | none ↦ some []
    | some (topic, kids) ↦ first_topic_names rt (items topic.route_list2)
  ]
]

-- getTreeTopicStats and rtRoutingTree_LogStats: topics, topics with routes, with several, and routes
pub record Stats : Type 0 where
  pub num_topics : ℕ
  pub num_topics_with_routes : ℕ
  pub num_topics_with_multiple_routes : ℕ
  pub num_routes : ℕ

unfoldable pub count_topic : Topic → Stats → Stats
count_topic topic stats =
    let n = length (items topic.route_list) in
    record stats {
      num_topics = stats.num_topics + 1;
      num_topics_with_routes = stats.num_topics_with_routes + (if ltb 0 n then 1 else 0);
      num_topics_with_multiple_routes =
          stats.num_topics_with_multiple_routes + (if ltb 1 n then 1 else 0);
    }

unfoldable pub count_topics : Forest → Stats → Stats
count_topics leaf stats = stats
count_topics (node topic kids next) stats =
    count_topics next (count_topics kids (count_topic topic stats))

unfoldable pub log_stats : Tree → Stats
log_stats rt =
    record (count_topics rt.topics (record {
      num_topics = 0;
      num_topics_with_routes = 0;
      num_topics_with_multiple_routes = 0;
      num_routes = 0;
    })) { num_routes = length rt.route_list }
