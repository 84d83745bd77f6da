-- ===== src/HashMap/Remove.antt =====
-- rtHashMap_Remove on a map from keys to values.
use rtmessage.Prelude.{
  ℕ, ◌+◌, ◌-◌, ◌/◌, ◌≤◌, ◌<◌, ◌≡◌, refl, sym, ap, ◌∙◌, subst, Bool, true, false, Bool-cases,
  Option-cases, inl, inr, Option, none, some, List, [], length, get_elem?, set, if◌then◌else◌,
  arith, All, ltb,
}
use rtmessage.HashMap.{
  Node, Config, HashMap, find_node, flatten, get_bucket, get_node, remove_node, too_empty, remove,
  contains, init_size,
}
use rtmessage.HashMap.Nodes.{IsHasher, count, with_key, flatten_count-set, find_node-none}
use rtmessage.HashMap.Resize.{IsValid}
use rtmessage.HashMap.Change.{count-remove_node, find_node-remove_node, remove_node-All}
use rtmessage.HashMap.Map.{
  Answers, NodeOf, NodeOf-Answers, change_bucket, change_bucket-IsValid, bucket_of, resize_if,
}

module _ {K V : Type 0} where
  -- A map shrinks only when it has more buckets than at first.
  too_empty-filled :
      (c : Config K) (m : HashMap K V) → too_empty c m ≡ true → 0 < length m.buckets / 2
  unfolding too_empty
  too_empty-filled c m e = elim (Bool-cases (ltb init_size (length m.buckets))) [
    | inl large ↦ ground arith
    | inr small ↦ absurd (false_true (rw small at e))
  ]
    where
      false_true : false ≡ true → ⊥
      false_true q = cc

  has : Option (Node K V) → Bool
  has none = false
  has (some node) = true

  -- A bucket has no more nodes than all of them.
  bucket_count :
      (test : Node K V → Bool) (buckets : List (List (Node K V))) (i : ℕ) (b : List (Node K V))
      → get_elem? buckets i ≡ some b
      → count test b ≤ count test (flatten buckets)
  bucket_count test buckets i b e = omega (arith, flatten_count-set test buckets i b [] e)

  abbrev without : Config K → HashMap K V → K → List (Node K V) → HashMap K V
  without c m key b = record {
    buckets = set m.buckets (c.key_hasher (length m.buckets) key) (remove_node c key b);
    size = m.size - 1;
  }

  -- The map before it may shrink.
  without-Answers :
      {c : Config K}
      → IsHasher c
      → (m : HashMap K V) (key : K) (b : List (Node K V)) (found : Node K V) → IsValid c m
      → get_elem? m.buckets (c.key_hasher (length m.buckets) key) ≡ some b
      → All (λ x. c.key_hasher (length m.buckets) x.key ≡ c.key_hasher (length m.buckets) key) b
      → find_node c key b ≡ some found
      → IsValid c (without c m key b) × NodeOf c m key none (without c m key b)
  without-Answers {c} h m key b found v e a f =
      let b' = remove_node c key b in
      let i = c.key_hasher (length m.buckets) key in
      let less : (k : K)
          → count (with_key c k) b' + (if c.key_comparer key k then 1 else 0)
            ≡ count (with_key c k) b =
        λ k.
          count-remove_node h (with_key c k) (c.key_comparer key k) key b found f
            (λ x q. ap (λ y. c.key_comparer y k) q) in
      let gone : count (with_key c key) b' ≡ 0 = omega (
        arith,
        rw (h.reflexive key) at (less key),
        v.unique key,
        bucket_count (with_key c key) m.buckets i b e,
      ) in
      (
        change_bucket-IsValid h m key b b' (m.size - 1) v e
            (remove_node-All c (λ x. c.key_hasher (length m.buckets) x.key ≡ i) key b a)
            (λ k. omega (arith, less k))
            (omega (
              arith,
              count-remove_node h (λ x. true) true key b found f (λ x q. refl),
              v.counted,
              bucket_count (λ x. true) m.buckets i b e,
            )),
        change_bucket h m key b b' none (m.size - 1) v e (λ k.
            elim (Bool-cases (c.key_comparer key k)) [
              | inl same ↦ rw same (
                  find_node-none c k b'
                    (subst (λ q. count (with_key c q) b' ≡ 0) (h.same key k same) gone))
              | inr other ↦ rw other (find_node-remove_node h key k b other)
            ]),
      )

  -- `rtHashMap_Remove` of a valid map succeeds, tells whether the key was there, and leaves a valid map,
  -- through its shrinking as well, in which the key has no value and every other key what it had, for
  -- any hash that is in range and any comparison that is equality.
  pub remove-Answers :
      {c : Config K}
      → IsHasher c
      → (m : HashMap K V) (key : K) → IsValid c m
      → (m' : HashMap K V) × (remove c m key ≡ some (contains c m key, m'))
        × IsValid c m'
        × Answers c m key none m'
  unfolding remove get_bucket contains has
  remove-Answers {c} h m key v =
      let (b, e, n, a) = bucket_of h m key v in
      elim (Option-cases (find_node c key b)) [
        | inl f ↦
            let absent : false ≡ contains c m key = sym (ap has (n ∙ f)) in
            (
              m,
              rw (remove, e, f) (ap (λ w. some (w, m)) absent),
              v,
              NodeOf-Answers c m key none m (λ w. elim (Bool-cases (c.key_comparer key w)) [
                | inl same ↦
                    subst (λ q. get_node c m.buckets q ≡ none) (h.same key w same) (n ∙ f)
                    ∙ rw same refl
                | inr other ↦ rw other refl
              ]),
            )
        | inr (found, f) ↦
            let present : true ≡ contains c m key = sym (ap has (n ∙ f)) in
            let left = without c m key b in
            let (valid, nodes) = without-Answers h m key b found v e a f in
            let (m', r, k) =
              resize_if h (too_empty c left) false left valid (too_empty-filled c left) in
            (
              m',
              rw (remove, e, f, r) (ap (λ w. some (w, m')) present),
              k.valid,
              NodeOf-Answers c m key none m' (λ w. k.nodes w ∙ nodes w),
            )
      ]
