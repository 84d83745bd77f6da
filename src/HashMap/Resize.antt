-- ===== src/HashMap/Resize.antt =====
-- rtHashMap.c: a resize moves every node to the bucket of its hash for the new number of buckets.
use rtmessage.Prelude.{
  ℕ, zero, suc, ◌+◌, ◌*◌, ◌/◌, ◌≤◌, ◌<◌, ◌≡◌, refl, sym, ap, ◌∙◌, subst, Bool, true, none, some,
  List, [], length, replicate, get_elem?, if◌then◌else◌, arith, length-replicate,
}
use rtmessage.HashMap.{Node, Config, HashMap, find_node, flatten, get_node, resize}
use rtmessage.HashMap.Nodes.{IsHasher, or_else, count, with_key, Placed, find_node-flatten}
use rtmessage.HashMap.Buckets.{place_all-Extends, get_node-some, get_elem?-some}

abbrev empty : {K : Type 0} (V : Type 0) → ℕ → List (List (Node K V))
empty V n = replicate n []

empty-Placed :
    {K : Type 0} (V : Type 0) (c : Config K) (n first many : ℕ) → Placed c n first (empty V many)
empty-Placed V c n first zero = _
empty-Placed V c n first (suc many) = (_, empty-Placed V c n (suc first) many)

module _ {K V : Type 0} where
  pub record IsValid (c : Config K) (m : HashMap K V) : Type 0 where
    pub filled : 0 < length m.buckets
    pub placed : Placed c (length m.buckets) 0 m.buckets
    pub unique : (key : K) → count (with_key c key) (flatten m.buckets) ≤ 1
    pub counted : m.size ≡ count (λ x. true) (flatten m.buckets)

  -- A key is found in its bucket as in all of them.
  pub get_node-flatten :
      {c : Config K}
      → IsHasher c
      → (buckets : List (List (Node K V))) (key : K) → 0 < length buckets
      → Placed c (length buckets) 0 buckets
      → get_node c buckets key ≡ find_node c key (flatten buckets)
  get_node-flatten {c} h buckets key l p =
      let (b, e) = get_elem?-some buckets _ (h.bounded (length buckets) key l) in
      get_node-some c buckets key b e
      ∙ sym (find_node-flatten h (length buckets) 0 key buckets _ b p e (omega arith))

  get_elem?-empty : (n i : ℕ) → i < n → get_elem? (empty {K = K} V n) i ≡ some []
  get_elem?-empty zero i l = absurd (omega arith)
  get_elem?-empty (suc n) zero l = refl
  get_elem?-empty (suc n) (suc i) l = get_elem?-empty n i (omega arith)

  flatten-empty : (n : ℕ) → flatten (empty {K = K} V n) ≡ []
  unfolding flatten
  flatten-empty zero = refl
  flatten-empty (suc n) = flatten-empty n

  get_node-empty :
      {c : Config K} → IsHasher c → (n : ℕ) (key : K) → 0 < n → get_node c (empty V n) key ≡ none
  unfolding find_node
  get_node-empty {c} h n key l =
      let long : length (empty {K = K} V n) ≡ n = length-replicate n [] in
      get_node-some c (empty V n) key [] (
        subst (λ k. get_elem? (empty {K = K} V n) (c.key_hasher k key) ≡ some []) (sym long)
          (get_elem?-empty n (c.key_hasher n key) (h.bounded n key l)))

  -- What a resize to a number of buckets comes to.
  pub record Resized (c : Config K) (m : HashMap K V) (next_size : ℕ) (m' : HashMap K V)
      : Type 0 where
    pub long : length m'.buckets ≡ next_size
    pub nodes : (key : K) → get_node c m'.buckets key ≡ get_node c m.buckets key
    pub counts :
        (test : Node K V → Bool) → count test (flatten m'.buckets) ≡ count test (flatten m.buckets)
    pub placed : Placed c (length m'.buckets) 0 m'.buckets
    pub same_size : m'.size ≡ m.size

  abbrev pub next_size : Bool → HashMap K V → ℕ
  next_size grow m = if grow then length m.buckets * 2 else length m.buckets / 2

  pub resize-Resized :
      {c : Config K}
      → IsHasher c
      → (grow : Bool) (m : HashMap K V) → 0 < length m.buckets
      → Placed c (length m.buckets) 0 m.buckets
      → 0 < next_size grow m
      → (m' : HashMap K V) × (resize c grow m ≡ some m') × Resized c m (next_size grow m) m'
  unfolding resize
  resize-Resized {c} h grow m l p r =
      let n = next_size grow m in
      let long : length (empty {K = K} V n) ≡ n = length-replicate n [] in
      let zero_left : (test : Node K V → Bool)
          → 0 + count test (flatten m.buckets) ≡ count test (flatten m.buckets) =
        λ test. omega arith in
      let (bs, e, x) = place_all-Extends h (flatten m.buckets) (empty V n) (omega (arith, long)) in
      (
        record m { buckets = bs },
        rw (resize, e) refl,
        record {
          long = x.long ∙ long;
          nodes = λ key.
              x.nodes key
              ∙ (ap (λ o. or_else o (find_node c key (flatten m.buckets)))
                    (get_node-empty h n key r)
                  ∙ sym (get_node-flatten h m.buckets key l p));
          counts = λ test.
              x.counts test
              ∙ ap (λ w. count test w + count test (flatten m.buckets)) (flatten-empty n)
              ∙ zero_left test;
          placed =
              subst (λ k. Placed c k 0 bs) (sym x.long)
                (x.placed (empty-Placed V c (length (empty {K = K} V n)) 0 n));
          same_size = refl;
        },
      )
