-- ===== src/Routing/Forest.antt =====
-- rtRoutingTree.c: the topics. The children of a topic are a forest: a topic, its own children, and
-- the next item of the same `childList`. An absent `childList` and an empty one behave alike.
-- A topic and a route are known by their addresses, `id`; a `rtList` that is NULL is `none`.
-- Where the code holds a pointer to a topic, the model walks the same names again.
pub mod Walk
pub mod Above
use rtmessage.Prelude.{
  ℕ, zero, suc, ◌+◌, Bool, true, false, ◌&&◌, ◌||◌, Option, none, some, List, [], ◌∷◌, ◌++◌, length,
  leb, ltb, ◌==◌, if◌then◌else◌,
}
use rtmessage.Routing.Tokens.{dot}

abbrev pub Name : Type 0
Name = List ℕ

-- `strcmp(a, b) == 0`
unfoldable pub same_name : Name → Name → Bool
same_name [] [] = true
same_name (a ∷ xs) (b ∷ ys) = a == b && same_name xs ys
same_name _ _ = false

-- The first byte of a C string: the terminator, if it is empty.
unfoldable pub first_char : Name → ℕ
first_char [] = 0
first_char (c ∷ _) = c

-- struct rtTreeTopic without `parent` and `childList`
pub record Topic : Type 0 where
  pub id : ℕ
  pub name : Name
  pub full_name : Name
  pub route_list : Option (List ℕ)
  pub route_list2 : Option (List ℕ)
  pub is_table : Bool

pub data Forest : Type 0 where
  leaf : Forest
  node : Topic → Forest → Forest → Forest

-- `isdigit(name[0]) || name[0] == '[' || name[0] == '*'`
unfoldable pub is_instance : Name → Bool
is_instance name = let c = first_char name in (leb b'0' c && leb c b'9') || c == b'[' || c == b'*'

-- The two tests of `getChildByName`.
unfoldable pub matches : Topic → Name → Bool
matches topic name =
    same_name topic.name name || (first_char topic.name == b'{' && is_instance name)

-- `getChildByName` along the tokens, with neither `create` nor `remove`: the topic reached, and its
-- children.
unfoldable pub find_topic : Forest → Name → List Name → Option (Topic × Forest)
find_topic leaf t ts = none
find_topic (node topic kids next) t [] =
    let rest = find_topic next t [] in if matches topic t then some (topic, kids) else rest
find_topic (node topic kids next) t (u ∷ us) =
    let below = find_topic kids u us in
    let rest = find_topic next t (u ∷ us) in if matches topic t then below else rest

-- createTreeTopic: the new topic, below a parent with this `fullName` (`none` for the root)
unfoldable pub new_topic : ℕ → Option Name → Name → Topic
new_topic id parent name = record {
  id = id;
  name = name;
  full_name = elim parent [ none ↦ name | some full ↦ full ++ (dot ∷ name) ];
  route_list = none;
  route_list2 = none;
  is_table = false;
}

-- The topics that are missing below an empty `childList`, one below the other. A topic whose new
-- child is named `{…}` is a table.
unfoldable pub create_chain : ℕ → Option Name → Name → List Name → Forest
create_chain id parent t [] = node (new_topic id parent t) leaf leaf
create_chain id parent t (u ∷ us) =
    let topic = new_topic id parent t in
    node (record topic { is_table = first_char u == b'{' })
      (create_chain (suc id) (some topic.full_name) u us) leaf

-- Whether the topic for `t` has to be created among these children.
unfoldable pub is_missing : Forest → Name → Bool
is_missing leaf t = true
is_missing (node topic kids next) t = if matches topic t then false else is_missing next t

-- `getChildByName` along the tokens with `create`: missing topics are put behind the children that
-- are there. New addresses are counted from `id`.
unfoldable pub create_path : ℕ → Option Name → Forest → Name → List Name → Forest
create_path id parent leaf t ts = create_chain id parent t ts
create_path id parent (node topic kids next) t [] =
    let rest = create_path id parent next t [] in
    if matches topic t then node topic kids next else node topic kids rest
create_path id parent (node topic kids next) t (u ∷ us) =
    let table = topic.is_table || (is_missing kids u && first_char u == b'{') in
    let below = create_path id (some topic.full_name) kids u us in
    let rest = create_path id parent next t (u ∷ us) in
    if matches topic t
    then node (record topic { is_table = table }) below next
    else node topic kids rest

-- A change of the topic that the tokens lead to.
unfoldable pub modify_topic : (Topic → Topic) → Forest → Name → List Name → Forest
modify_topic f leaf t ts = leaf
modify_topic f (node topic kids next) t [] =
    let rest = modify_topic f next t [] in
    if matches topic t then node (f topic) kids next else node topic kids rest
modify_topic f (node topic kids next) t (u ∷ us) =
    let below = modify_topic f kids u us in
    let rest = modify_topic f next t (u ∷ us) in
    if matches topic t then node topic below next else node topic kids rest

-- A `rtList` that is NULL has no items.
abbrev pub items : Option (List ℕ) → List ℕ
items none = []
items (some l) = l

unfoldable pub contains : ℕ → List ℕ → Bool
contains x [] = false
contains x (y ∷ ys) = x == y || contains x ys

-- addPointerToListOnce
unfoldable pub add_pointer_to_list_once : List ℕ → ℕ → List ℕ
add_pointer_to_list_once l x = if contains x l then l else l ++ (x ∷ [])

-- optimizeTopicsBackpropagate: every topic on the way to the last token, but not that one, has the
-- route in its `routeList2`, once.
unfoldable pub backpropagate : ℕ → Forest → Name → List Name → Forest
backpropagate route forest t [] = forest
backpropagate route leaf t (u ∷ us) = leaf
backpropagate route (node topic kids next) t (u ∷ us) =
    let topic' = record topic {
      route_list2 = some (add_pointer_to_list_once (items topic.route_list2) route);
    } in
    let below = backpropagate route kids u us in
    let rest = backpropagate route next t (u ∷ us) in
    if matches topic t then node topic' below next else node topic kids rest

-- rtList_RemoveItemByCompare with rtList_ComparePointer: the first item that is the pointer
unfoldable pub remove_pointer : ℕ → List ℕ → List ℕ
remove_pointer x [] = []
remove_pointer x (y ∷ ys) = if x == y then ys else y ∷ remove_pointer x ys

abbrev pub remove_from : ℕ → Option (List ℕ) → Option (List ℕ)
remove_from x none = none
remove_from x (some l) = some (remove_pointer x l)

abbrev pub is_leaf : Forest → Bool
is_leaf leaf = true
is_leaf (node topic kids next) = false

abbrev pub is_empty : List ℕ → Bool
is_empty [] = true
is_empty (_ ∷ _) = false

-- removeRouteFromTopicTree: the children first, then the lists of the topic; a topic with neither
-- children nor routes goes.
unfoldable pub remove_route : ℕ → Forest → Forest
remove_route route leaf = leaf
remove_route route (node topic kids next) =
    let kids' = remove_route route kids in
    let next' = remove_route route next in
    let topic' = record topic {
      route_list = remove_from route topic.route_list;
      route_list2 = remove_from route topic.route_list2;
    } in
    if is_leaf kids' && is_empty (items topic'.route_list) then next' else node topic' kids' next'
