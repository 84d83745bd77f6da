-- ===== src/HashMap/Change.antt =====
-- rtHashMap.c: a bucket whose node is overwritten or removed.
use rtmessage.Prelude.{
  ◌+◌, ◌≡◌, refl, sym, ap, ◌∙◌, subst, Bool, true, false, Bool-cases, inl, inr, none, some, List,
  [], ◌∷◌, if◌then◌else◌, arith, All,
}
use rtmessage.HashMap.{Node, Config, find_node, overwrite, remove_node}
use rtmessage.HashMap.Nodes.{IsHasher, count, with_key}

-- The key of a node that is not found under `key` is not found under a key that is.
miss_key :
    {K : Type 0} {c : Config K}
    → IsHasher c
    → (a key k : K) → c.key_comparer a key ≡ true
    → c.key_comparer key k ≡ false
    → c.key_comparer a k ≡ false
miss_key {c} h a key k e f = subst (λ w. c.key_comparer w k ≡ false) (sym (h.same a key e)) f

module _ {K V : Type 0} where
  pub find_node-count :
      (c : Config K) (key : K) (xs : List (Node K V))
      → find_node c key xs ≡ none
      → count (with_key c key) xs ≡ 0
  unfolding find_node
  find_node-count c key [] e = refl
  find_node-count c key (x ∷ xs) e = elim (Bool-cases (c.key_comparer x.key key)) [
    | inl hit ↦ absurd (none_some (rw hit at e))
    | inr miss ↦ rw miss (omega (arith, find_node-count c key xs (rw miss at e)))
  ]
    where
      none_some : some x ≡ none → ⊥
      none_some q = cc

  pub find_node-overwrite :
      {c : Config K}
      → IsHasher c
      → (node : Node K V) (k : K) (xs : List (Node K V)) (found : Node K V)
      → find_node c node.key xs ≡ some found
      → find_node c k (overwrite c node xs)
        ≡ (if c.key_comparer node.key k then some node else find_node c k xs)
  unfolding find_node overwrite
  find_node-overwrite h node k [] found e = absurd (cc)
  find_node-overwrite {c} h node k (x ∷ xs) found e =
      elim (Bool-cases (c.key_comparer x.key node.key)) [
        | inl hit ↦ rw hit (elim (Bool-cases (c.key_comparer node.key k)) [
          | inl same ↦ rw same refl
          | inr other ↦ rw (other, miss_key h x.key node.key k hit other) refl
        ])
        | inr miss ↦
            let later = find_node-overwrite h node k xs found (rw miss at e) in
            rw miss (elim (Bool-cases (c.key_comparer node.key k)) [
              | inl same ↦
                  let off : c.key_comparer x.key k ≡ false =
                    subst (λ w. c.key_comparer x.key w ≡ false) (h.same node.key k same) miss in
                  rw (same, off) (later ∙ rw same refl)
              | inr other ↦
                  rw (other)
                    (ap (λ o. if c.key_comparer x.key k then some x else o) (later ∙ rw other refl))
            ])
      ]

  pub count-overwrite :
      {c : Config K}
      → IsHasher c
      → (test : Node K V → Bool) (node : Node K V) (xs : List (Node K V))
      → ((x : Node K V) → x.key ≡ node.key → test x ≡ test node)
      → count test (overwrite c node xs) ≡ count test xs
  unfolding overwrite
  count-overwrite h test node [] t = refl
  count-overwrite {c} h test node (x ∷ xs) t = elim (Bool-cases (c.key_comparer x.key node.key)) [
    | inl hit ↦
        rw hit
          (ap (λ b. (if b then 1 else 0) + count test xs) (sym (t x (h.same x.key node.key hit))))
    | inr miss ↦
        rw miss (ap (λ n. (if test x then 1 else 0) + n) (count-overwrite h test node xs t))
  ]

  pub overwrite-All :
      (c : Config K) (P : Node K V → Type 0) (node : Node K V) (xs : List (Node K V))
      → P node
      → All P xs
      → All P (overwrite c node xs)
  unfolding overwrite
  overwrite-All c P node [] p a = a
  overwrite-All c P node (x ∷ xs) p (q, a) = elim (Bool-cases (c.key_comparer x.key node.key)) [
    | inl hit ↦ rw hit (p, a)
    | inr miss ↦ rw miss (q, overwrite-All c P node xs p a)
  ]

  pub count-remove_node :
      {c : Config K}
      → IsHasher c
      → (test : Node K V → Bool) (v : Bool) (key : K) (xs : List (Node K V)) (found : Node K V)
      → find_node c key xs ≡ some found
      → ((x : Node K V) → x.key ≡ key → test x ≡ v)
      → count test (remove_node c key xs) + (if v then 1 else 0) ≡ count test xs
  unfolding find_node remove_node
  count-remove_node h test v key [] found e t = absurd (cc)
  count-remove_node {c} h test v key (x ∷ xs) found e t =
      elim (Bool-cases (c.key_comparer x.key key)) [
        | inl hit ↦ rw (hit, t x (h.same x.key key hit)) (omega arith)
        | inr miss ↦
            let later = count-remove_node h test v key xs found (rw miss at e) t in
            rw miss (omega (arith, later))
      ]

  pub find_node-remove_node :
      {c : Config K}
      → IsHasher c
      → (key k : K) (xs : List (Node K V)) → c.key_comparer key k ≡ false
      → find_node c k (remove_node c key xs) ≡ find_node c k xs
  unfolding find_node remove_node
  find_node-remove_node h key k [] d = refl
  find_node-remove_node {c} h key k (x ∷ xs) d = elim (Bool-cases (c.key_comparer x.key key)) [
    | inl hit ↦ rw (hit, miss_key h x.key key k hit d) refl
    | inr miss ↦ rw miss (
        ap (λ o. if c.key_comparer x.key k then some x else o) (find_node-remove_node h key k xs d))
  ]

  pub remove_node-All :
      (c : Config K) (P : Node K V → Type 0) (key : K) (xs : List (Node K V))
      → All P xs
      → All P (remove_node c key xs)
  unfolding remove_node
  remove_node-All c P key [] a = a
  remove_node-All c P key (x ∷ xs) (q, a) = elim (Bool-cases (c.key_comparer x.key key)) [
    | inl hit ↦ rw hit a
    | inr miss ↦ rw miss (q, remove_node-All c P key xs a)
  ]
