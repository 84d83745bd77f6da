-- ===== src/HashMap/Insert.antt =====
-- rtHashMap_Set on a map from keys to values.
use rtmessage.Prelude.{
  ◌+◌, ◌≡◌, refl, sym, ap, ◌∙◌, subst, true, Bool-cases, Option-cases, inl, inr, Option, none, some,
  List, length, get_elem?, set, arith, All,
}
use rtmessage.HashMap.{
  Node, Config, HashMap, find_node, flatten, get_bucket, get_node, overwrite, too_full, add_node,
  insert,
}
use rtmessage.HashMap.Nodes.{IsHasher, or_else-none, count, with_key, Placed}
use rtmessage.HashMap.Buckets.{place-Extends}
use rtmessage.HashMap.Resize.{IsValid, get_node-flatten}
use rtmessage.HashMap.Change.{find_node-count, find_node-overwrite, count-overwrite, overwrite-All}
use rtmessage.HashMap.Map.{
  Answers, NodeOf, NodeOf-Answers, change_bucket, change_bucket-IsValid, bucket_of, Kept, resize_if,
}

module _ {K V : Type 0} where
  -- The map after an insertion that succeeds.
  Inserted : Config K → HashMap K V → K → V → Option (HashMap K V) → Type 0
  Inserted c m key value r =
      (m' : HashMap K V) × (r ≡ some m') × IsValid c m' × Answers c m key (some value) m'

  add_node-Inserted :
      {c : Config K}
      → IsHasher c
      → (m m1 : HashMap K V) (key : K) (value : V) → Kept c m m1
      → get_node c m.buckets key ≡ none
      → Inserted c m key value (add_node c (record { key = key; value = value }) (some m1))
  unfolding add_node Inserted find_node
  add_node-Inserted {c} h m m1 key value k e =
      let node : Node K V = record { key = key; value = value } in
      let v = k.valid in
      let (bs, p, x) = place-Extends h m1.buckets node v.filled in
      let m' : HashMap K V = record { buckets = bs; size = m1.size + 1 } in
      let absent : count (with_key c key) (flatten m1.buckets) ≡ 0 =
        find_node-count c key (flatten m1.buckets)
          (sym (get_node-flatten h m1.buckets key v.filled v.placed) ∙ (k.nodes key ∙ e)) in
      let nodes : NodeOf c m key (some node) m' = λ w. elim (Bool-cases (c.key_comparer key w)) [
        | inl same ↦
            let first : get_node c m1.buckets w ≡ none =
              subst (λ q. get_node c m1.buckets q ≡ none) (h.same key w same) (k.nodes key ∙ e) in
            x.nodes w ∙ rw (first, same) refl
        | inr other ↦ x.nodes w ∙ rw other (or_else-none (get_node c m1.buckets w) ∙ k.nodes w)
      ] in
      (
        m',
        rw (add_node, p) refl,
        record {
          filled = omega (arith, x.long, v.filled);
          placed = subst (λ n. Placed c n 0 bs) (sym x.long) (x.placed v.placed);
          unique = λ w. elim (Bool-cases (c.key_comparer key w)) [
            | inl same ↦
                let gone : count (with_key c w) (flatten m1.buckets) ≡ 0 =
                  subst (λ q. count (with_key c q) (flatten m1.buckets) ≡ 0) (h.same key w same)
                    absent in
                omega (arith, gone, rw same at (x.counts (with_key c w)))
            | inr other ↦ omega (arith, v.unique w, rw other at (x.counts (with_key c w)))
          ];
          counted = omega (arith, v.counted, x.counts (λ q. true));
        },
        NodeOf-Answers c m key (some node) m' nodes,
      )

  overwrite-Inserted :
      {c : Config K}
      → IsHasher c
      → (m : HashMap K V) (key : K) (value : V) (b : List (Node K V)) (found : Node K V)
      → IsValid c m
      → get_elem? m.buckets (c.key_hasher (length m.buckets) key) ≡ some b
      → All (λ x. c.key_hasher (length m.buckets) x.key ≡ c.key_hasher (length m.buckets) key) b
      → find_node c key b ≡ some found
      → Inserted c m key value (
          some (record m {
            buckets =
                set m.buckets
                  (c.key_hasher (length m.buckets) key)
                  (overwrite c (record { key = key; value = value }) b);
          }))
  unfolding Inserted
  overwrite-Inserted {c} h m key value b found v e a f =
      let node : Node K V = record { key = key; value = value } in
      let b' = overwrite c node b in
      let same_key : (w : K) → count (with_key c w) b' ≡ count (with_key c w) b =
        λ w. count-overwrite h (with_key c w) node b (λ x q. ap (λ y. c.key_comparer y w) q) in
      (
        _,
        refl,
        change_bucket-IsValid h m key b b' m.size v e
            (overwrite-All c
              (λ x. c.key_hasher (length m.buckets) x.key ≡ c.key_hasher (length m.buckets) key)
              node b refl a)
            (λ w. omega (arith, same_key w))
            (omega (arith, count-overwrite h (λ x. true) node b (λ x q. refl))),
        NodeOf-Answers c m key (some node) _ (
            change_bucket h m key b b' (some node) m.size v e
              (λ w. find_node-overwrite h node w b found f)),
      )

  -- `rtHashMap_Set` of a valid map succeeds and leaves a valid map, through its growing as well: the key
  -- then has the value, and every other key what it had, for any hash that is in range and any
  -- comparison that is equality.
  pub insert-Answers :
      {c : Config K}
      → IsHasher c
      → (m : HashMap K V) (key : K) (value : V) → IsValid c m
      → (m' : HashMap K V) × (insert c m key value ≡ some m')
        × IsValid c m'
        × Answers c m key (some value) m'
  unfolding insert get_bucket Inserted
  insert-Answers {c} h m key value v =
      let (b, e, n, a) = bucket_of h m key v in
      elim (Option-cases (find_node c key b)) [
        | inl f ↦
            let (m1, r, k) = resize_if h (too_full c m) true m v (λ q. omega (arith, v.filled)) in
            let (m', s, v', answers) = add_node-Inserted h m m1 key value k (n ∙ f) in
            (m', rw (insert, e, f, r) s, v', answers)
        | inr (found, f) ↦
            let (m', s, v', answers) = overwrite-Inserted h m key value b found v e a f in
            (m', rw (insert, e, f) s, v', answers)
      ]
