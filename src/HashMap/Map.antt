-- ===== src/HashMap/Map.antt =====
-- rtHashMap.c as a map from keys to values.
use rtmessage.Prelude.{
  ℕ, ◌+◌, ◌≤◌, ◌<◌, ◌≡◌, refl, sym, ap, ◌∙◌, subst, Bool, true, false, Bool-cases, inl, inr, Option,
  none, some, List, length, get_elem?, set, if◌then◌else◌, arith, All, length-set,
}
use native.Mathlib.Decide.{ℕ_discrete}
use rtmessage.HashMap.{Node, Config, HashMap, find_node, get_node, resize, get}
use rtmessage.HashMap.Nodes.{
  IsHasher, count, with_key, flatten_count-set, Placed, Placed-get, Placed-set,
}
use rtmessage.HashMap.Buckets.{get_node-some, get_node-set, get_node-set_ne, get_elem?-some}
use rtmessage.HashMap.Resize.{IsValid, next_size, resize-Resized}

-- The map answers `o` for the key and what it answered before for the others.
abbrev pub Answers : {K V : Type 0} → Config K → HashMap K V → K → Option V → HashMap K V → Type 0
Answers {K} c m key o m' = (k : K) → get c m' k ≡ (if c.key_comparer key k then o else get c m k)

module _ {K V : Type 0} where
  abbrev pub value_of : Option (Node K V) → Option V
  value_of none = none
  value_of (some node) = some node.value

  -- The nodes that the keys have, with one key changed.
  abbrev pub NodeOf : Config K → HashMap K V → K → Option (Node K V) → HashMap K V → Type 0
  NodeOf c m key o m' =
      (k : K)
      → get_node c m'.buckets k ≡ (if c.key_comparer key k then o else get_node c m.buckets k)

  pub NodeOf-Answers :
      (c : Config K) (m : HashMap K V) (key : K) (o : Option (Node K V)) (m' : HashMap K V)
      → NodeOf c m key o m'
      → Answers c m key (value_of o) m'
  unfolding get
  NodeOf-Answers c m key o m' e k = elim (Bool-cases (c.key_comparer key k)) [
    | inl same ↦ ap value_of (e k) ∙ rw same refl
    | inr other ↦ ap value_of (e k) ∙ rw other refl
  ]

  -- The bucket of a key is changed for the key only.
  pub change_bucket :
      {c : Config K}
      → IsHasher c
      → (m : HashMap K V) (key : K) (b b' : List (Node K V)) (o : Option (Node K V)) (size : ℕ)
      → IsValid c m
      → get_elem? m.buckets (c.key_hasher (length m.buckets) key) ≡ some b
      → ((k : K) → find_node c k b' ≡ (if c.key_comparer key k then o else find_node c k b))
      → NodeOf c m key o
          (record { buckets = set m.buckets (c.key_hasher (length m.buckets) key) b'; size = size })
  change_bucket {c} h m key b b' o size v e f k =
      let i = c.key_hasher (length m.buckets) key in
      let l : i < length m.buckets = h.bounded (length m.buckets) key v.filled in
      elim (ℕ_discrete (c.key_hasher (length m.buckets) k) i) [
        | yes here ↦
            get_node-set c m.buckets i b' k l here
            ∙ (f k
                ∙ ap (λ w. if c.key_comparer key k then o else w)
                    (sym (get_node-some c m.buckets k b (ap (get_elem? m.buckets) here ∙ e))))
        | no away ↦
            get_node-set_ne c m.buckets i b' k away ∙ elim (Bool-cases (c.key_comparer key k)) [
              | inl same ↦
                  absurd (away (ap (c.key_hasher (length m.buckets)) (sym (h.same key k same))))
              | inr other ↦ rw other refl
            ]
      ]

  -- A changed bucket keeps the map valid if no key counts for more.
  pub change_bucket-IsValid :
      {c : Config K}
      → IsHasher c
      → (m : HashMap K V) (key : K) (b b' : List (Node K V)) (size : ℕ) → IsValid c m
      → get_elem? m.buckets (c.key_hasher (length m.buckets) key) ≡ some b
      → All (λ x. c.key_hasher (length m.buckets) x.key ≡ c.key_hasher (length m.buckets) key) b'
      → ((k : K) → count (with_key c k) b' ≤ count (with_key c k) b)
      → size + count (λ x. true) b ≡ m.size + count (λ x. true) b'
      → IsValid c
          (record { buckets = set m.buckets (c.key_hasher (length m.buckets) key) b'; size = size })
  change_bucket-IsValid {c} h m key b b' size v e a fewer s =
      let i = c.key_hasher (length m.buckets) key in
      let long : length (set m.buckets i b') ≡ length m.buckets = length-set m.buckets i b' in
      let zero_left : i ≡ 0 + i = omega arith in
      record {
        filled = omega (arith, long, v.filled);
        placed =
            subst (λ n. Placed c n 0 (set m.buckets i b')) (sym long)
              (Placed-set c (length m.buckets) 0 m.buckets i b' v.placed
                (subst (λ j. All (λ x. c.key_hasher (length m.buckets) x.key ≡ j) b') zero_left a));
        unique = λ k.
            omega (arith, fewer k, v.unique k, flatten_count-set (with_key c k) m.buckets i b b' e);
        counted = omega (arith, s, v.counted, flatten_count-set (λ x. true) m.buckets i b b' e);
      }

  pub bucket_of :
      {c : Config K}
      → IsHasher c
      → (m : HashMap K V) (key : K) → IsValid c m
      → (b : List (Node K V)) × (get_elem? m.buckets (c.key_hasher (length m.buckets) key) ≡ some b)
        × (get_node c m.buckets key ≡ find_node c key b)
        × All (λ x. c.key_hasher (length m.buckets) x.key ≡ c.key_hasher (length m.buckets) key) b
  bucket_of {c} h m key v =
      let i = c.key_hasher (length m.buckets) key in
      let (b, e) = get_elem?-some m.buckets i (h.bounded (length m.buckets) key v.filled) in
      let zero_left : 0 + i ≡ i = omega arith in
      (
        b,
        e,
        get_node-some c m.buckets key b e,
        subst (λ j. All (λ x. c.key_hasher (length m.buckets) x.key ≡ j) b) zero_left
            (Placed-get c (length m.buckets) 0 m.buckets i b v.placed e),
      )

  -- A map after a resize, or as it was.
  pub record Kept (c : Config K) (m m' : HashMap K V) : Type 0 where
    pub valid : IsValid c m'
    pub nodes : (key : K) → get_node c m'.buckets key ≡ get_node c m.buckets key
    pub same_size : m'.size ≡ m.size

  pub resize_if :
      {c : Config K}
      → IsHasher c
      → (needed grow : Bool) (m : HashMap K V) → IsValid c m
      → (needed ≡ true → 0 < next_size grow m)
      → (m' : HashMap K V) × ((if needed then resize c grow m else some m) ≡ some m') × Kept c m m'
  resize_if h false grow m v l =
      (m, refl, record { valid = v; nodes = λ k. refl; same_size = refl })
  resize_if {c} h true grow m v l =
      let (m', e, r) = resize-Resized h grow m v.filled v.placed (l refl) in
      (
        m',
        e,
        record {
          valid = record {
            filled = omega (arith, r.long, l refl);
            placed = r.placed;
            unique = λ key. omega (arith, r.counts (with_key c key), v.unique key);
            counted = omega (arith, r.same_size, r.counts (λ x. true), v.counted);
          };
          nodes = r.nodes;
          same_size = r.same_size;
        },
      )
