-- ===== src/HashMap/Buckets.antt =====
-- rtHashMap.c: a node that is placed in its bucket, and many of them.
use rtmessage.Prelude.{
  ℕ, zero, suc, ◌+◌, ◌<◌, ◌≡◌, ◌≢◌, refl, sym, ap, ◌∙◌, subst, Bool, Bool-cases, inl, inr, some,
  List, [], ◌∷◌, ◌++◌, length, get_elem?, set, arith, All-append, length-set, get_elem?-set_self,
  get_elem?-set_ne,
}
use native.Mathlib.Decide.{ℕ_discrete}
use rtmessage.HashMap.{Node, Config, find_node, flatten, get_bucket, get_node, place, place_all}
use rtmessage.HashMap.Nodes.{
  IsHasher, or_else, or_else-none, or_else_assoc, count, count-append, find_node-append,
  flatten_count-set, Placed, Placed-get, Placed-set,
}

pub get_elem?-some :
    {A : Type 0} (xs : List A) (i : ℕ) → i < length xs → (x : A) × (get_elem? xs i ≡ some x)
get_elem?-some [] i l = absurd (omega arith)
get_elem?-some (x ∷ xs) zero l = (x, refl)
get_elem?-some (x ∷ xs) (suc i) l = get_elem?-some xs i (omega arith)

module _ {K V : Type 0} where
  -- What the buckets are after nodes are placed in them.
  pub record Extends (c : Config K) (buckets : List (List (Node K V))) (xs : List (Node K V))
      (buckets' : List (List (Node K V))) : Type 0 where
    pub long : length buckets' ≡ length buckets
    pub nodes :
        (key : K) → get_node c buckets' key ≡ or_else (get_node c buckets key) (find_node c key xs)
    pub counts :
        (test : Node K V → Bool)
        → count test (flatten buckets') ≡ count test (flatten buckets) + count test xs
    pub placed : Placed c (length buckets) 0 buckets → Placed c (length buckets) 0 buckets'

  -- The node of a key by the number of its bucket.
  pub get_node-some :
      (c : Config K) (buckets : List (List (Node K V))) (key : K) (b : List (Node K V))
      → get_elem? buckets (c.key_hasher (length buckets) key) ≡ some b
      → get_node c buckets key ≡ find_node c key b
  unfolding get_node get_bucket
  get_node-some c buckets key b e = rw (get_node, e) refl

  -- A search in buckets of which one is changed.
  pub get_node-set :
      (c : Config K) (buckets : List (List (Node K V))) (i : ℕ) (b' : List (Node K V)) (key : K)
      → i < length buckets
      → c.key_hasher (length buckets) key ≡ i
      → get_node c (set buckets i b') key ≡ find_node c key b'
  get_node-set c buckets i b' key l e = get_node-some c (set buckets i b') key b' (
      subst (λ n. get_elem? (set buckets i b') (c.key_hasher n key) ≡ some b')
        (sym (length-set buckets i b'))
        (subst (λ j. get_elem? (set buckets i b') j ≡ some b') (sym e)
          (get_elem?-set_self buckets i b' l)))

  pub get_node-set_ne :
      (c : Config K) (buckets : List (List (Node K V))) (i : ℕ) (b' : List (Node K V)) (key : K)
      → c.key_hasher (length buckets) key ≢ i
      → get_node c (set buckets i b') key ≡ get_node c buckets key
  unfolding get_node get_bucket
  get_node-set_ne c buckets i b' key d =
      let same : get_elem? (set buckets i b') (c.key_hasher (length (set buckets i b')) key)
          ≡ get_elem? buckets (c.key_hasher (length buckets) key) =
        ap (λ n. get_elem? (set buckets i b') (c.key_hasher n key)) (length-set buckets i b')
        ∙ get_elem?-set_ne buckets b' (λ e. d (sym e)) in
      rw (get_node, same) refl

  pub place-Extends :
      {c : Config K}
      → IsHasher c
      → (buckets : List (List (Node K V))) (x : Node K V) → 0 < length buckets
      → (buckets' : List (List (Node K V))) × (place c buckets x ≡ some buckets')
        × Extends c buckets (x ∷ []) buckets'
  unfolding place get_bucket find_node
  place-Extends {c} h buckets x l =
      let i = c.key_hasher (length buckets) x.key in
      let in_range : i < length buckets = h.bounded (length buckets) x.key l in
      let (b, e) = get_elem?-some buckets i in_range in
      let b' = b ++ (x ∷ []) in
      let zero_left : i ≡ 0 + i = omega arith in
      (
        set buckets i b',
        rw (place, e) refl,
        record {
          long = length-set buckets i b';
          nodes = λ key. elim (ℕ_discrete (c.key_hasher (length buckets) key) i) [
            | yes same ↦
                get_node-set c buckets i b' key in_range same
                ∙ (find_node-append c key b (x ∷ [])
                    ∙ ap (λ o. or_else o (find_node c key (x ∷ [])))
                        (sym (get_node-some c buckets key b (ap (get_elem? buckets) same ∙ e))))
            | no other ↦
                get_node-set_ne c buckets i b' key other
                ∙ (sym (or_else-none (get_node c buckets key))
                    ∙ ap (or_else (get_node c buckets key))
                        (elim (Bool-cases (c.key_comparer x.key key)) [
                          | inl hit ↦ absurd (
                              other
                                (ap (c.key_hasher (length buckets)) (sym (h.same x.key key hit))))
                          | inr miss ↦ rw miss refl
                        ]))
          ];
          counts = λ test.
              omega (arith, flatten_count-set test buckets i b b' e, count-append test b (x ∷ []));
          placed = λ p. Placed-set c (length buckets) 0 buckets i b' p (
              All-append _ b (x ∷ []) (Placed-get c (length buckets) 0 buckets i b p e)
                (zero_left, _));
        },
      )

  pub place_all-Extends :
      {c : Config K}
      → IsHasher c
      → (xs : List (Node K V)) (buckets : List (List (Node K V))) → 0 < length buckets
      → (buckets' : List (List (Node K V))) × (place_all c xs buckets ≡ some buckets')
        × Extends c buckets xs buckets'
  unfolding place_all find_node
  place_all-Extends {c} h [] buckets l = (
    buckets,
    refl,
    record {
      long = refl;
      nodes = λ key. sym (or_else-none (get_node c buckets key));
      counts = λ test. omega arith;
      placed = λ p. p;
    },
  )
  place_all-Extends {c} h (x ∷ xs) buckets l =
      let (b1, e1, r1) = place-Extends h buckets x l in
      let (b2, e2, r2) = place_all-Extends h xs b1 (omega (arith, r1.long)) in
      (
        b2,
        rw (place_all, e1) e2,
        record {
          long = r2.long ∙ r1.long;
          nodes = λ key.
              r2.nodes key
              ∙ (ap (λ o. or_else o (find_node c key xs)) (r1.nodes key)
                  ∙ (or_else_assoc (get_node c buckets key) _ _
                      ∙ ap (or_else (get_node c buckets key))
                          (sym (find_node-append c key (x ∷ []) xs))));
          counts = λ test. omega (arith, r1.counts test, r2.counts test);
          placed = λ p.
              subst (λ n. Placed c n 0 b2) r1.long
                (r2.placed (subst (λ n. Placed c n 0 b1) (sym r1.long) (r1.placed p)));
        },
      )
