-- ===== src/Routing/Removal/Prune.antt =====
-- `rtRoutingTree_RemoveRoute`: what leaves the tree, and what stays.
use rtmessage.Prelude.{
  ℕ, ◌+◌, ◌≤◌, ◌≡◌, ◌≢◌, refl, sym, subst, ap, ◌∙◌, Bool, true, false, ◌&&◌, Bool-cases, inl, inr,
  Option, none, some, List, [], ◌∷◌, ◌==◌, arith,
}
use mathlib.Core.Option.{some-injective}
use rtmessage.Routing.Forest.{
  Name, Topic, Forest, leaf, node, matches, find_topic, items, contains, remove_pointer,
  remove_from, is_leaf, is_empty, remove_route,
}
use rtmessage.Routing.Tree.{Route, Tree, get_tree_route}
use rtmessage.Routing.Removal.{remove_tree_route}

abbrev pub to_nat : Bool → ℕ
to_nat true = 1
to_nat false = 0

-- How often a pointer stands in a list.
unfoldable pub count : ℕ → List ℕ → ℕ
count x [] = 0
count x (y ∷ ys) = to_nat (x == y) + count x ys

contains-remove_pointer_ne :
    (x y : ℕ) (l : List ℕ) → x ≢ y → contains x (remove_pointer y l) ≡ contains x l
unfolding contains remove_pointer
contains-remove_pointer_ne x y [] h = refl
contains-remove_pointer_ne x y (z ∷ l) h = ground (arith, contains-remove_pointer_ne x y l)

contains-eq-false : (x : ℕ) (l : List ℕ) → count x l ≡ 0 → contains x l ≡ false
unfolding contains count
contains-eq-false x [] h = refl
contains-eq-false x (y ∷ l) h = ground (arith, contains-eq-false x l)

contains-remove_pointer_self :
    (x : ℕ) (l : List ℕ) → count x l ≤ 1 → contains x (remove_pointer x l) ≡ false
unfolding contains count remove_pointer
contains-remove_pointer_self x [] h = refl
contains-remove_pointer_self x (y ∷ l) h =
    ground (arith, contains-remove_pointer_self x l, contains-eq-false x l)

-- A property of both route lists of every topic.
abbrev pub AllLists : (List ℕ → Type 0) → Forest → Type 0
AllLists P leaf = Unit
AllLists P (node topic kids next) =
    P (items topic.route_list) × P (items topic.route_list2) × AllLists P kids × AllLists P next

items-remove_from :
    (r : ℕ) (o : Option (List ℕ)) → items (remove_from r o) ≡ remove_pointer r (items o)
unfolding remove_pointer
items-remove_from r none = refl
items-remove_from r (some l) = refl

-- Whether a topic goes once its children and its lists are done.
abbrev pub goes : ℕ → Topic → Forest → Bool
goes r topic kids =
    is_leaf (remove_route r kids) && is_empty (items (remove_from r topic.route_list))

remove_route-clears :
    (r : ℕ) (f : Forest)
    → AllLists (λ l. count r l ≤ 1) f
    → AllLists (λ l. contains r l ≡ false) (remove_route r f)
unfolding remove_route
remove_route-clears r leaf a = tt
remove_route-clears r (node topic kids next) (once, once2, below, beside) =
    elim (Bool-cases (goes r topic kids)) [
      | inl e ↦ rw e (remove_route-clears r next beside)
      | inr e ↦ rw e (
        rw items-remove_from (contains-remove_pointer_self r (items topic.route_list) once),
        rw items-remove_from (contains-remove_pointer_self r (items topic.route_list2) once2),
        remove_route-clears r kids below,
        remove_route-clears r next beside,
      )
    ]

-- The topic with the pointer taken out of its lists.
abbrev pub without : ℕ → Topic → Topic
without r p = record p {
  route_list = remove_from r p.route_list;
  route_list2 = remove_from r p.route_list2;
}

is_leaf_of_found :
    (f : Forest) (t : Name) (ts : List Name) {x : Topic × Forest}
    → find_topic f t ts ≡ some x
    → is_leaf f ≡ false
unfolding find_topic
is_leaf_of_found leaf t ts e = cc
is_leaf_of_found (node topic kids next) t ts e = refl

is_empty_of_contains : (q : ℕ) (l : List ℕ) → contains q l ≡ true → is_empty l ≡ false
unfolding contains
is_empty_of_contains q [] e = cc
is_empty_of_contains q (x ∷ l) e = refl

-- A topic with another route stays.
stays :
    (r q : ℕ) (p : Topic) (k : Forest)
    → contains q (items p.route_list) ≡ true
    → q ≢ r
    → goes r p k ≡ false
stays r q p k c h =
    let rest : is_empty (items (remove_from r p.route_list)) ≡ false =
      rw items-remove_from
        (is_empty_of_contains q _ (contains-remove_pointer_ne q r (items p.route_list) h ∙ c)) in
    ground (arith, rest)

matches-without : (r : ℕ) (p : Topic) (t : Name) → matches (without r p) t ≡ matches p t
unfolding matches
matches-without r p t = refl

find-remove_route :
    (r q : ℕ) (f : Forest) (t : Name) (ts : List Name) (p : Topic) (k : Forest)
    → find_topic f t ts ≡ some (p, k)
    → contains q (items p.route_list) ≡ true
    → q ≢ r
    → find_topic (remove_route r f) t ts ≡ some (without r p, remove_route r k)
unfolding find_topic remove_route
find-remove_route r q leaf t ts p k e c h = cc
find-remove_route r q (node topic kids next) t [] p k e c h = elim (Bool-cases (matches topic t)) [
  | inl m ↦
      let same : (topic, kids) ≡ (p, k) = some-injective _ _ (rw m at e) in
      let there : goes r topic kids ≡ false =
        subst (λ x. goes r x.0 x.1 ≡ false) (sym same) (stays r q p k c h) in
      rw (there, find_topic, matches-without r topic t, m)
        (ap (λ x. some (without r x.0, remove_route r x.1)) same)
  | inr m ↦
      let rest = find-remove_route r q next t [] p k (rw m at e) c h in
      elim (Bool-cases (goes r topic kids)) [
        | inl gone ↦ rw gone rest
        | inr there ↦ rw (there, find_topic, matches-without r topic t, m) rest
      ]
]
find-remove_route r q (node topic kids next) t (u ∷ us) p k e c h =
    elim (Bool-cases (matches topic t)) [
      | inl m ↦
          let below = find-remove_route r q kids u us p k (rw m at e) c h in
          let there : goes r topic kids ≡ false =
            ground (arith, is_leaf_of_found (remove_route r kids) u us below) in
          rw (there, find_topic, matches-without r topic t, m) below
      | inr m ↦
          let rest = find-remove_route r q next t (u ∷ us) p k (rw m at e) c h in
          elim (Bool-cases (goes r topic kids)) [
            | inl gone ↦ rw gone rest
            | inr there ↦ rw (there, find_topic, matches-without r topic t, m) rest
          ]
    ]

topics-remove_tree_route :
    (rt : Tree) (route : ℕ) (entry : Route)
    → get_tree_route route rt.route_list ≡ some entry
    → (remove_tree_route rt route).topics ≡ remove_route entry.id rt.topics
unfolding remove_tree_route
topics-remove_tree_route rt route entry e = rw (remove_tree_route, e) refl

-- `rtRoutingTree_RemoveRoute` of a registered route, when no list of the tree holds it twice: no
-- topic of the tree lists the route any more, neither in `routeList` nor in `routeList2`.
pub remove_tree_route-clears :
    (rt : Tree) (route : ℕ) (entry : Route)
    → get_tree_route route rt.route_list ≡ some entry
    → AllLists (λ l. count entry.id l ≤ 1) rt.topics
    → AllLists (λ l. contains entry.id l ≡ false) (remove_tree_route rt route).topics
remove_tree_route-clears rt route entry e once =
    rw (topics-remove_tree_route rt route entry e) (remove_route-clears entry.id rt.topics once)

-- `rtRoutingTree_RemoveRoute` of a registered route keeps every topic that has another route in its
-- `routeList`: the same names lead to it, its lists are as before without the removed route, and
-- below it stands what the removal leaves of its children.
pub remove_tree_route-keeps :
    (rt : Tree) (route : ℕ) (entry : Route) (other : ℕ) (t : Name) (ts : List Name) (topic : Topic)
    (kids : Forest)
    → get_tree_route route rt.route_list ≡ some entry
    → find_topic rt.topics t ts ≡ some (topic, kids)
    → contains other (items topic.route_list) ≡ true
    → other ≢ entry.id
    → find_topic (remove_tree_route rt route).topics t ts
      ≡ some (without entry.id topic, remove_route entry.id kids)
remove_tree_route-keeps rt route entry other t ts topic kids e found has h =
    rw (topics-remove_tree_route rt route entry e)
      (find-remove_route entry.id other rt.topics t ts topic kids found has h)
