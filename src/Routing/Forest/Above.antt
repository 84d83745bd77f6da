-- ===== src/Routing/Forest/Above.antt =====
-- The topics above the end of a walk, and walks that find nothing to create.
use rtmessage.Prelude.{
  ℕ, ◌≡◌, refl, Bool, true, false, ◌||◌, Bool-cases, inl, inr, Option, some, List, [], ◌∷◌, ◌++◌,
  ==_self, arith,
}
use rtmessage.Routing.Forest.{
  Name, Topic, Forest, leaf, node, matches, find_topic, is_missing, create_path, items, contains,
  add_pointer_to_list_once, backpropagate,
}

-- A walk that arrives passes every topic on the way.
pub find-prefix :
    (f : Forest) (t : Name) (us : List Name) (v : Name) (vs : List Name) {p : Topic} {k : Forest}
    → find_topic f t (us ++ (v ∷ vs)) ≡ some (p, k)
    → (q : Topic) × (l : Forest) × (find_topic f t us ≡ some (q, l))
unfolding find_topic
find-prefix leaf t us v vs e = cc
find-prefix (node topic kids next) t [] v vs {p} {k} e = elim (Bool-cases (matches topic t)) [
  | inl m ↦ (topic, kids, rw m)
  | inr m ↦ let (q, l, d) = find-prefix next t [] v vs {p = p} {k = k} (rw m at e) in (q, l, rw m d)
]
find-prefix (node topic kids next) t (u ∷ us) v vs {p} {k} e = elim (Bool-cases (matches topic t)) [
  | inl m ↦ let (q, l, d) = find-prefix kids u us v vs {p = p} {k = k} (rw m at e) in (q, l, rw m d)
  | inr m ↦
      let (q, l, d) = find-prefix next t (u ∷ us) v vs {p = p} {k = k} (rw m at e) in (q, l, rw m d)
]

contains-append : (x : ℕ) (l : List ℕ) → contains x (l ++ (x ∷ [])) ≡ true
unfolding contains
contains-append x [] = rw (==_self x)
contains-append x (y ∷ l) = ground (arith, contains-append x l)

contains-add_pointer_to_list_once :
    (l : List ℕ) (x : ℕ) → contains x (add_pointer_to_list_once l x) ≡ true
unfolding add_pointer_to_list_once
contains-add_pointer_to_list_once l x = ground (arith, contains-append x l)

-- Every topic on the way, but the last, has the route in its `routeList2`.
pub find-backpropagate_above :
    (r : ℕ) (f : Forest) (t : Name) (us : List Name) (v : Name) (vs : List Name) {p : Topic}
    {k : Forest}
    → find_topic f t us ≡ some (p, k)
    → (q : Topic) × (l : Forest) × (find_topic (backpropagate r f t (us ++ (v ∷ vs))) t us
        ≡ some (q, l))
      × (contains r (items q.route_list2) ≡ true)
unfolding find_topic backpropagate matches
find-backpropagate_above r leaf t us v vs e = cc
find-backpropagate_above r (node topic kids next) t [] v vs {p} {k} e =
    elim (Bool-cases (matches topic t)) [
      | inl m ↦ (
        record topic { route_list2 = some (add_pointer_to_list_once (items topic.route_list2) r) },
        backpropagate r kids v vs,
        rw (m, find_topic, m),
        contains-add_pointer_to_list_once (items topic.route_list2) r,
      )
      | inr m ↦
          let (q, l, d, c) =
            find-backpropagate_above r next t [] v vs {p = p} {k = k} (rw m at e) in
          (q, l, rw (m, find_topic, m) d, c)
    ]
find-backpropagate_above r (node topic kids next) t (u ∷ us) v vs {p} {k} e =
    elim (Bool-cases (matches topic t)) [
      | inl m ↦
          let (q, l, d, c) =
            find-backpropagate_above r kids u us v vs {p = p} {k = k} (rw m at e) in
          (q, l, rw (m, find_topic, m) d, c)
      | inr m ↦
          let (q, l, d, c) =
            find-backpropagate_above r next t (u ∷ us) v vs {p = p} {k = k} (rw m at e) in
          (q, l, rw (m, find_topic, m) d, c)
    ]

found-not_missing :
    (f : Forest) (t : Name) (ts : List Name) {p : Topic} {k : Forest}
    → find_topic f t ts ≡ some (p, k)
    → is_missing f t ≡ false
unfolding find_topic is_missing
found-not_missing leaf t ts e = cc
found-not_missing (node topic kids next) t [] {p} {k} e =
    ground (arith, found-not_missing next t [] {p = p} {k = k})
found-not_missing (node topic kids next) t (u ∷ us) {p} {k} e =
    ground (arith, found-not_missing next t (u ∷ us) {p = p} {k = k})

same_table : (topic : Topic) (b : Bool) → b ≡ topic.is_table → record topic { is_table = b } ≡ topic
same_table topic b e = rw e

or_false : (b : Bool) → b || false ≡ b
or_false true = refl
or_false false = refl

-- Where the walk arrives, `create` changes nothing.
pub create_path-found :
    (id : ℕ) (parent : Option Name) (f : Forest) (t : Name) (ts : List Name) {p : Topic}
    {k : Forest}
    → find_topic f t ts ≡ some (p, k)
    → create_path id parent f t ts ≡ f
unfolding find_topic create_path
create_path-found id parent leaf t ts e = cc
create_path-found id parent (node topic kids next) t [] {p} {k} e =
    ground (arith, create_path-found id parent next t [] {p = p} {k = k})
create_path-found id parent (node topic kids next) t (u ∷ us) {p} {k} e =
    elim (Bool-cases (matches topic t)) [
      | inl m ↦
          let below = rw m at e in
          rw (
            m,
            found-not_missing kids u us {p = p} {k = k} below,
            create_path-found id (some topic.full_name) kids u us {p = p} {k = k} below,
            or_false topic.is_table,
          )
      | inr m ↦ rw (m, create_path-found id parent next t (u ∷ us) {p = p} {k = k} (rw m at e))
    ]
