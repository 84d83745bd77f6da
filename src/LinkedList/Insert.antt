-- ===== src/LinkedList/Insert.antt =====
-- rtList.c: where an item comes from, and a chain with an item put between two parts of it.
use rtmessage.Prelude.{
  Option, some, ℕ, ◌+◌, ◌≡◌, ◌≢◌, refl, sym, ap, ◌∙◌, subst, inl, inr, List, [], ◌∷◌, ◌++◌, ◌==◌,
  arith, true, false, map, length-append, Bool-cases, ==_iff,
}
use rtmessage.Error.{rt_ok}
use rtmessage.LinkedList.{Result, Linked, store, get_free_item, put_data, reuse_data}
use rtmessage.LinkedList.Chain.{
  In, Seg, Back, IsChain, ==_ne, Distinct-split, In-left, In-right, In-append, store_same, store_ne,
  Distinct-append, Seg-append, Back-append,
}

-- The item is of no list of the pair.
pub record IsSpare (item : ℕ) (items frees : List ℕ) : Type 0 where
  pub nonzero : item ≢ 0
  pub unlisted : ¬ In item items
  pub unfree : ¬ In item frees

-- The recycled items after one is taken.
abbrev pub rest : List ℕ → List ℕ
rest [] = []
rest (x ∷ xs) = xs

-- The item that is taken: the first recycled one, or the allocator's.
abbrev pub taken : ℕ → List ℕ → ℕ
taken granted [] = granted
taken granted (x ∷ xs) = x

-- What the allocator answers is not NULL and is no item of the list.
pub record Grants (granted : ℕ) (items : List ℕ) : Type 0 where
  pub nonzero : granted ≢ 0
  pub unlisted : ¬ In granted items

pub map-store :
    (f : ℕ → ℕ) (item v : ℕ) (xs : List ℕ) → (¬ In item xs) → map (store f item v) xs ≡ map f xs
map-store f item v [] n = refl
map-store f item v (x ∷ xs) n =
    ap (λ a. a ∷ map (store f item v) xs) (store_ne f item v x (λ e. n (inl (sym e))))
    ∙ ap (◌∷◌ (f x)) (map-store f item v xs (λ i. n (inr i)))

-- What `get_free_item` and `put_data` come to.
abbrev pub Takes : ℕ → List ℕ → List ℕ → Linked → ℕ → Linked → Type 0
Takes granted items frees l data_value l' =
    IsChain l' items (rest frees)
    × IsSpare (taken granted frees) items (rest frees)
    × (map l'.data_at items ≡ map l.data_at items)
    × (data_value ≢ reuse_data → l'.data_at (taken granted frees) ≡ data_value)

pub put_data-Takes :
    (granted : ℕ) (items frees : List ℕ) (l l1 : Linked) (data_value : ℕ)
    → IsChain l1 items (rest frees)
    → IsSpare (taken granted frees) items (rest frees)
    → map l1.data_at items ≡ map l.data_at items
    → Takes granted items frees l data_value (put_data l1 (taken granted frees) data_value)
unfolding put_data
put_data-Takes granted items frees l l1 data_value c s e =
    elim (Bool-cases (data_value == reuse_data)) [
      | inl same ↦ rw same (c, s, e, λ n. absurd (n ((==_iff data_value reuse_data).0 same)))
      | inr new ↦ rw new (
        record {
          forward = c.forward;
          backward = c.backward;
          recycled = c.recycled;
          distinct = c.distinct;
          distinct_frees = c.distinct_frees;
          apart = c.apart;
          counted = c.counted;
        },
        s,
        map-store l1.data_at _ data_value items s.unlisted ∙ e,
        λ n. store_same l1.data_at _ data_value,
      )
    ]

pub get_free_item-Takes :
    (granted : ℕ) (items frees : List ℕ) (l : Linked)
    → IsChain l items frees
    → Grants granted items
    → (l1 : Linked) × (get_free_item granted l ≡ (taken granted frees, l1))
      × IsChain l1 items (rest frees)
      × IsSpare (taken granted frees) items (rest frees)
      × (map l1.data_at items ≡ map l.data_at items)
unfolding get_free_item
get_free_item-Takes granted items [] l c g =
    let none_free : (l.free == 0) ≡ true = (==_iff l.free 0).1 c.recycled in
    let given : (granted == 0) ≡ false = ==_ne granted 0 g.nonzero in
    (
      record l { data_at = store l.data_at granted 0 },
      rw (none_free, given) refl,
      record {
        forward = c.forward;
        backward = c.backward;
        recycled = c.recycled;
        distinct = c.distinct;
        distinct_frees = c.distinct_frees;
        apart = c.apart;
        counted = c.counted;
      },
      record { nonzero = g.nonzero; unlisted = g.unlisted; unfree = λ i. i },
      map-store l.data_at granted 0 items g.unlisted,
    )
get_free_item-Takes granted items (x ∷ frees) l c g =
    let (e, n, more) = c.recycled in
    let (off, d) = c.distinct_frees in
    let some_free : (l.free == 0) ≡ false = ==_ne l.free 0 (λ z. n (sym e ∙ z)) in
    (
      record l { free = l.next l.free },
      rw some_free (ap (λ a. (a, record l { free = l.next l.free })) e),
      record {
        forward = c.forward;
        backward = c.backward;
        recycled = subst (λ a. Seg l.next (l.next a) frees 0) (sym e) more;
        distinct = c.distinct;
        distinct_frees = d;
        apart = λ z i j. c.apart z i (inr j);
        counted = c.counted;
      },
      record { nonzero = n; unlisted = λ i. c.apart x i (inl refl); unfree = off },
      refl,
    )

-- What an insertion between two parts comes to.
abbrev pub Inserts : ℕ → Linked → ℕ → List ℕ → List ℕ → List ℕ → Option Result → Type 0
Inserts granted l data_value xs ys frees r =
    (l' : Linked) × (r ≡ some (rt_ok, taken granted frees, l'))
    × IsChain l' (xs ++ taken granted frees ∷ ys) (rest frees)
    × (map l'.data_at (xs ++ ys) ≡ map l.data_at (xs ++ ys))
    × (data_value ≢ reuse_data → l'.data_at (taken granted frees) ≡ data_value)

-- A list with an item put between two parts, from how it is linked there.
pub insert-IsChain :
    {l l' : Linked} (xs ys : List ℕ) {frees : List ℕ} {item before after : ℕ}
    → IsChain l (xs ++ ys) frees
    → IsSpare item (xs ++ ys) frees
    → Seg l'.next l'.front xs item
    → l'.next item ≡ after
    → Seg l'.next after ys 0
    → Back l'.prev 0 xs before
    → l'.prev item ≡ before
    → Back l'.prev item ys l'.back
    → Seg l'.next l'.free frees 0
    → l'.size ≡ l.size + 1
    → IsChain l' (xs ++ item ∷ ys) frees
insert-IsChain {l' = l'} xs ys {frees} {item} {before} {after} c s fx fi fy bx bi by fr n =
    let (dx, dy, a) = Distinct-split xs ys c.distinct in
    record {
      forward =
          Seg-append l'.next xs (item ∷ ys) l'.front item 0 fx
            (refl, s.nonzero, subst (λ w. Seg l'.next w ys 0) (sym fi) fy);
      backward = Back-append l'.prev xs (item ∷ ys) 0 before l'.back bx (bi, by);
      recycled = fr;
      distinct =
          Distinct-append xs (item ∷ ys) dx ((λ i. s.unlisted (In-right item xs ys i)), dy)
            (λ z i j. elim j [
              | inl e ↦ s.unlisted (In-left item xs ys (subst (λ w. In w xs) e i))
              | inr k ↦ a z i k
            ]);
      distinct_frees = c.distinct_frees;
      apart = λ z i j. elim (In-append z xs (item ∷ ys) i) [
        | inl k ↦ c.apart z (In-left z xs ys k) j
        | inr (inl e) ↦ s.unfree (subst (λ w. In w frees) e j)
        | inr (inr k) ↦ c.apart z (In-right z xs ys k) j
      ];
      counted = omega (arith, n, c.counted, length-append xs (item ∷ ys), length-append xs ys);
    }
