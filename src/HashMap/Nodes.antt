-- ===== src/HashMap/Nodes.antt =====
-- rtHashMap.c: searches and counts of nodes.
use rtmessage.Prelude.{
  ap₂, ℕ, zero, suc, ◌+◌, ◌<◌, ◌≡◌, ◌≢◌, refl, sym, ap, ◌∙◌, subst, Bool, true, Bool-cases, inl,
  inr, Option, none, some, List, [], ◌∷◌, ◌++◌, get_elem?, set, if◌then◌else◌, arith, All,
}
use mathlib.Core.Option.{some-injective}
use rtmessage.HashMap.{Node, Config, find_node, flatten}

-- What the map relies on: a hash is below the number of buckets, a key compares as equal to itself, and
-- keys that compare as equal are the same key.
pub record IsHasher {K : Type 0} (c : Config K) : Type 0 where
  pub bounded : (n : ℕ) (key : K) → 0 < n → c.key_hasher n key < n
  pub same : (a b : K) → c.key_comparer a b ≡ true → a ≡ b
  pub reflexive : (a : K) → c.key_comparer a a ≡ true

abbrev pub or_else {ℓ} : {A : Type ℓ} → Option A → Option A → Option A
or_else none o = o
or_else (some a) o = some a

pub or_else-none : {A : Type 0} (o : Option A) → or_else o none ≡ o
or_else-none none = refl
or_else-none (some a) = refl

pub or_else_assoc :
    {A : Type 0} (o p q : Option A) → or_else (or_else o p) q ≡ or_else o (or_else p q)
or_else_assoc none p q = refl
or_else_assoc (some a) p q = refl

module _ {K V : Type 0} where
  -- How many nodes pass a test.
  abbrev pub count : (Node K V → Bool) → List (Node K V) → ℕ
  count test [] = 0
  count test (x ∷ xs) = (if test x then 1 else 0) + count test xs

  abbrev pub with_key : Config K → K → Node K V → Bool
  with_key c key x = c.key_comparer x.key key

  pub count-append :
      (test : Node K V → Bool) (xs ys : List (Node K V))
      → count test (xs ++ ys) ≡ count test xs + count test ys
  count-append test [] ys = omega arith
  count-append test (x ∷ xs) ys = omega (arith, count-append test xs ys)

  pub find_node-append :
      (c : Config K) (key : K) (xs ys : List (Node K V))
      → find_node c key (xs ++ ys) ≡ or_else (find_node c key xs) (find_node c key ys)
  unfolding find_node
  find_node-append c key [] ys = refl
  find_node-append c key (x ∷ xs) ys = elim (Bool-cases (c.key_comparer x.key key)) [
    | inl hit ↦ rw (hit) refl
    | inr miss ↦ rw (miss) (find_node-append c key xs ys)
  ]

  pub find_node-none :
      (c : Config K) (key : K) (xs : List (Node K V))
      → count (with_key c key) xs ≡ 0
      → find_node c key xs ≡ none
  unfolding find_node
  find_node-none c key [] e = refl
  find_node-none c key (x ∷ xs) e = elim (Bool-cases (c.key_comparer x.key key)) [
    | inl hit ↦ absurd (omega (arith, rw hit at e))
    | inr miss ↦ rw miss (find_node-none c key xs (omega (arith, rw miss at e)))
  ]

  -- Another key than `key` is not found among nodes whose keys are elsewhere.
  find_node-elsewhere :
      {c : Config K}
      → IsHasher c
      → (n i : ℕ) (key : K) (xs : List (Node K V)) → All (λ x. c.key_hasher n x.key ≡ i) xs
      → c.key_hasher n key ≢ i
      → find_node c key xs ≡ none
  unfolding find_node
  find_node-elsewhere h n i key [] a d = refl
  find_node-elsewhere {c} h n i key (x ∷ xs) (e, a) d =
      elim (Bool-cases (c.key_comparer x.key key)) [
        | inl hit ↦ absurd (d (ap (c.key_hasher n) (sym (h.same x.key key hit)) ∙ e))
        | inr miss ↦ rw miss (find_node-elsewhere h n i key xs a d)
      ]

  pub flatten_count-set :
      (test : Node K V → Bool) (buckets : List (List (Node K V))) (i : ℕ) (b b' : List (Node K V))
      → get_elem? buckets i ≡ some b
      → count test (flatten (set buckets i b')) + count test b
        ≡ count test (flatten buckets) + count test b'
  unfolding flatten
  flatten_count-set test [] i b b' e = absurd (cc)
  flatten_count-set test (x ∷ buckets) zero b b' e =
      let same : count test x ≡ count test b = ap (count test) (some-injective x b e) in
      omega
        (arith, same, count-append test x (flatten buckets), count-append test b' (flatten buckets))
  flatten_count-set test (x ∷ buckets) (suc i) b b' e = omega (
    arith,
    flatten_count-set test buckets i b b' e,
    count-append test x (flatten buckets),
    count-append test x (flatten (set buckets i b')),
  )

  -- Each node stands in the bucket of its hash, counted from `first`.
  abbrev pub Placed : Config K → ℕ → ℕ → List (List (Node K V)) → Type 0
  Placed c n first [] = Unit
  Placed c n first (b ∷ buckets) =
      All (λ x. c.key_hasher n x.key ≡ first) b × Placed c n (suc first) buckets

  pub Placed-get :
      (c : Config K) (n first : ℕ) (buckets : List (List (Node K V))) (i : ℕ) (b : List (Node K V))
      → Placed c n first buckets
      → get_elem? buckets i ≡ some b
      → All (λ x. c.key_hasher n x.key ≡ first + i) b
  Placed-get c n first [] i b p e = absurd (cc)
  Placed-get c n first (x ∷ buckets) zero b p e =
      let here : first ≡ first + 0 = omega arith in
      subst (λ a. All (λ x. c.key_hasher n x.key ≡ a) b) here
        (subst (λ w. All (λ x. c.key_hasher n x.key ≡ first) w) (some-injective x b e) p.0)
  Placed-get c n first (x ∷ buckets) (suc i) b p e =
      let here : suc first + i ≡ first + suc i = omega arith in
      subst (λ a. All (λ x. c.key_hasher n x.key ≡ a) b) here
        (Placed-get c n (suc first) buckets i b p.1 e)

  pub Placed-set :
      (c : Config K) (n first : ℕ) (buckets : List (List (Node K V))) (i : ℕ) (b' : List (Node K V))
      → Placed c n first buckets
      → All (λ x. c.key_hasher n x.key ≡ first + i) b'
      → Placed c n first (set buckets i b')
  Placed-set c n first [] i b' p a = p
  Placed-set c n first (x ∷ buckets) zero b' p a =
      let here : first + 0 ≡ first = omega arith in
      (subst (λ k. All (λ x. c.key_hasher n x.key ≡ k) b') here a, p.1)
  Placed-set c n first (x ∷ buckets) (suc i) b' p a =
      let here : first + suc i ≡ suc first + i = omega arith in
      (
        p.0,
        Placed-set c n (suc first) buckets i b' p.1
            (subst (λ k. All (λ x. c.key_hasher n x.key ≡ k) b') here a),
      )

  find_node-before :
      {c : Config K}
      → IsHasher c
      → (n first : ℕ) (key : K) (buckets : List (List (Node K V))) → Placed c n first buckets
      → c.key_hasher n key < first
      → find_node c key (flatten buckets) ≡ none
  unfolding flatten find_node
  find_node-before h n first key [] p l = refl
  find_node-before {c} h n first key (b ∷ buckets) p l =
      find_node-append c key b (flatten buckets)
      ∙ ap₂ or_else (find_node-elsewhere h n first key b p.0 (λ e. omega arith))
          (find_node-before h n (suc first) key buckets p.1 (omega arith))

  -- A key is found in its bucket as in all of them.
  pub find_node-flatten :
      {c : Config K}
      → IsHasher c
      → (n first : ℕ) (key : K) (buckets : List (List (Node K V))) (i : ℕ) (b : List (Node K V))
      → Placed c n first buckets
      → get_elem? buckets i ≡ some b
      → c.key_hasher n key ≡ first + i
      → find_node c key (flatten buckets) ≡ find_node c key b
  unfolding flatten
  find_node-flatten h n first key [] i b p e k = absurd (cc)
  find_node-flatten {c} h n first key (x ∷ buckets) zero b p e k =
      find_node-append c key x (flatten buckets)
      ∙ (ap (or_else (find_node c key x))
            (find_node-before h n (suc first) key buckets p.1 (omega arith))
          ∙ (or_else-none (find_node c key x) ∙ ap (find_node c key) (some-injective x b e)))
  find_node-flatten {c} h n first key (x ∷ buckets) (suc i) b p e k =
      find_node-append c key x (flatten buckets)
      ∙ (ap (λ o. or_else o (find_node c key (flatten buckets)))
            (find_node-elsewhere h n first key x p.0 (λ q. omega arith))
          ∙ find_node-flatten h n (suc first) key buckets i b p.1 e (omega arith))
