-- ===== src/Routing/Forest/Walk.antt =====
-- Walks along the same names before and after the changes that a registration makes.
use rtmessage.Prelude.{
  ℕ, suc, ◌≡◌, refl, Bool, true, Bool-cases, inl, inr, Option, none, some, List, [], ◌∷◌, ==_self,
  ◌==◌, arith,
}
use rtmessage.Routing.Forest.{
  Name, Topic, Forest, leaf, node, same_name, first_char, matches, find_topic, new_topic,
  create_chain, create_path, modify_topic, backpropagate,
}

pub same_name_refl : (a : Name) → same_name a a ≡ true
unfolding same_name
same_name_refl [] = refl
same_name_refl (c ∷ a) = rw (==_self c, same_name_refl a)

matches-new : (topic : Topic) (t : Name) → topic.name ≡ t → matches topic t ≡ true
unfolding matches
matches-new topic t e = rw (e, same_name_refl t)

-- `matches` looks at the name alone.
matches_name : (p q : Topic) (t : Name) → p.name ≡ q.name → matches p t ≡ matches q t
unfolding matches
matches_name p q t e = rw e

matches_table :
    (p : Topic) (b : Bool) (t : Name) → matches (record p { is_table = b }) t ≡ matches p t
unfolding matches
matches_table p b t = refl

find-create_chain :
    (id : ℕ) (parent : Option Name) (t : Name) (ts : List Name)
    → (p : Topic) × (k : Forest) × (find_topic (create_chain id parent t ts) t ts ≡ some (p, k))
      × (p.route_list ≡ none)
unfolding find_topic create_chain
find-create_chain id parent t [] = (
  new_topic id parent t,
  leaf,
  rw (matches-new (new_topic id parent t) t (unfold new_topic in refl)),
  unfold new_topic in refl,
)
find-create_chain id parent t (u ∷ us) =
    let topic = new_topic id parent t in
    let (p, k, e, n) = find-create_chain (suc id) (some topic.full_name) u us in
    (
      p,
      k,
      rw
          (matches-new (record topic { is_table = first_char u == b'{' }) t
            (unfold new_topic in refl))
          e,
      n,
    )

-- After `create_path` the walk arrives; where it arrived before, it arrives at the same topic, and
-- otherwise at one without routes.
pub find-create_path :
    (id : ℕ) (parent : Option Name) (f : Forest) (t : Name) (ts : List Name)
    → (p : Topic) × (k : Forest) × (find_topic (create_path id parent f t ts) t ts ≡ some (p, k))
unfolding find_topic create_path
find-create_path id parent leaf t ts =
    let (p, k, e, n) = find-create_chain id parent t ts in (p, k, e)
find-create_path id parent (node topic kids next) t [] = elim (Bool-cases (matches topic t)) [
  | inl m ↦ (topic, kids, rw (m, find_topic, m))
  | inr m ↦ let (p, k, e) = find-create_path id parent next t [] in (p, k, rw (m, find_topic, m) e)
]
find-create_path id parent (node topic kids next) t (u ∷ us) = elim (Bool-cases (matches topic t)) [
  | inl m ↦
      let (p, k, e) = find-create_path id (some topic.full_name) kids u us in
      (p, k, rw (m, find_topic, matches_table topic _ t, m) e)
  | inr m ↦
      let (p, k, e) = find-create_path id parent next t (u ∷ us) in (p, k, rw (m, find_topic, m) e)
]

module _ (g : Topic → Topic) (same : (p : Topic) → (g p).name ≡ p.name) where
  pub find-modify_topic :
      (f : Forest) (t : Name) (ts : List Name) {p : Topic} {k : Forest}
      → find_topic f t ts ≡ some (p, k)
      → find_topic (modify_topic g f t ts) t ts ≡ some (g p, k)
  unfolding find_topic modify_topic
  find-modify_topic leaf t ts e = cc
  find-modify_topic (node topic kids next) t [] {p} {k} e = ground (
    arith,
    matches_name (g topic) topic t (same topic),
    find-modify_topic next t [] {p = p} {k = k},
  )
  find-modify_topic (node topic kids next) t (u ∷ us) {p} {k} e = ground (
    arith,
    find-modify_topic kids u us {p = p} {k = k},
    find-modify_topic next t (u ∷ us) {p = p} {k = k},
  )

-- The topic at the end of the walk is not changed by the propagation to those above it.
pub find-backpropagate :
    (r : ℕ) (f : Forest) (t : Name) (ts : List Name) {p : Topic} {k : Forest}
    → find_topic f t ts ≡ some (p, k)
    → find_topic (backpropagate r f t ts) t ts ≡ some (p, k)
unfolding find_topic backpropagate matches
find-backpropagate r f t [] e = e
find-backpropagate r leaf t (u ∷ us) e = cc
find-backpropagate r (node topic kids next) t (u ∷ us) {p} {k} e = ground (
  arith,
  find-backpropagate r kids u us {p = p} {k = k},
  find-backpropagate r next t (u ∷ us) {p = p} {k = k},
)
