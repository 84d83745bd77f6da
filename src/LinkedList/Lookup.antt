-- ===== src/LinkedList/Lookup.antt =====
-- rtList.c: the loops that look for data, against the sequence of the data.
use rtmessage.Prelude.{
  ℕ, zero, suc, ◌<◌, ◌≡◌, ◌≢◌, refl, sym, ap, ◌∙◌, subst, ◌⊎◌, inl, inr, List, [], ◌∷◌, ◌++◌,
  length, ◌==◌, arith, Bool, true, false, if◌then◌else◌, map, Bool-cases, Option, some,
}
use rtmessage.Error.{rt_ok}
use rtmessage.Vector.Contents.{remove_first, any}
use rtmessage.LinkedList.{Linked}
use rtmessage.LinkedList.Chain.{Seg, IsChain, ==_ne}
use rtmessage.LinkedList.Search.{search_item, find, remove_item_by_compare}
use rtmessage.LinkedList.Recycle.{remove_item-Removed}

-- The first data that passes the test, or NULL.
unfoldable pub first_data : (ℕ → Bool) → List ℕ → ℕ
first_data test [] = 0
first_data test (x ∷ xs) = if test x then x else first_data test xs

-- How a search among items ends: without a hit, or at an item behind others that are none.
Ends : Linked → (ℕ → Bool) → List ℕ → Option ℕ → Type 0
Ends l test items r =
    ((r ≡ some 0)
      × (any test (map l.data_at items) ≡ false)
      × (first_data test (map l.data_at items) ≡ 0))
    ⊎ ((item : ℕ) × (xs : List ℕ) × (ys : List ℕ) × (r ≡ some item)
        × (items ≡ xs ++ item ∷ ys)
        × (item ≢ 0)
        × (any test (map l.data_at items) ≡ true)
        × (first_data test (map l.data_at items) ≡ l.data_at item)
        × (remove_first test (map l.data_at items) ≡ map l.data_at (xs ++ ys)))

search_item-Ends :
    (fuel : ℕ) (l : Linked) (test : ℕ → Bool) (first : ℕ) (items : List ℕ)
    → Seg l.next first items 0
    → length items < fuel
    → Ends l test items (search_item fuel l test first)
unfolding search_item Ends any first_data remove_first
search_item-Ends zero l test first items s b = absurd (omega arith)
search_item-Ends (suc fuel) l test first [] s b = inl (rw s refl, refl, refl)
search_item-Ends (suc fuel) l test first (x ∷ items) (e, z, s) b =
    let here : (first == 0) ≡ false = ==_ne first 0 (λ q. z (sym e ∙ q)) in
    elim (Bool-cases (test (l.data_at x))) [
      | inl hit ↦
          inr (x, [], items, rw (here, e, hit) refl, refl, z, rw hit refl, rw hit refl, rw hit refl)
      | inr miss ↦ elim (search_item-Ends fuel l test (l.next x) items s (omega arith)) [
        | inl (r, none_any, none_first) ↦
            inl (rw (here, e, miss) r, rw miss none_any, rw miss none_first)
        | inr (item, xs, ys, r, split, n, some_any, some_first, left) ↦ inr (
          item,
          x ∷ xs,
          ys,
          rw (here, e, miss) r,
          ap (◌∷◌ x) split,
          n,
          rw miss some_any,
          rw miss some_first,
          rw miss (ap (◌∷◌ (l.data_at x)) left),
        )
      ]
    ]

remove_first-any : (test : ℕ → Bool) (xs : List ℕ) → any test xs ≡ false → remove_first test xs ≡ xs
unfolding remove_first any
remove_first-any test [] e = refl
remove_first-any test (x ∷ xs) e = elim (Bool-cases (test x)) [
  | inl hit ↦ absurd (cc)
  | inr miss ↦ rw miss (ap (◌∷◌ x) (remove_first-any test xs (rw miss at e)))
]

-- `rtList_Find` in a sound list ends within as many rounds as there are items and one more, and answers
-- the first data that passes the test, NULL when none does.
find-first_data :
    (fuel : ℕ) (l : Linked) (test : ℕ → Bool) (items frees : List ℕ)
    → IsChain l items frees
    → length items < fuel
    → find fuel l test ≡ some (first_data test (map l.data_at items))
unfolding find Ends
find-first_data fuel l test items frees c b =
    elim (search_item-Ends fuel l test l.front items c.forward b) [
      | inl (r, no_any, no_first) ↦ rw (find, r, no_first) refl
      | inr (item, xs, ys, r, split, n, some_any, some_first, left) ↦
          rw (find, r, some_first, ==_ne item 0 n) refl
    ]

-- `rtList_RemoveItemByCompare` on a sound list ends, succeeds and leaves a sound list, whose data are
-- those of before without the first that passes the test.
remove_item_by_compare-remove_first :
    (fuel : ℕ) (destroyer : Bool) (l : Linked) (test : ℕ → Bool) (items frees : List ℕ)
    → IsChain l items frees
    → length items < fuel
    → (l' : Linked) × (items' : List ℕ) × (frees' : List ℕ) × (remove_item_by_compare fuel destroyer
          l test
        ≡ some (rt_ok, l'))
      × IsChain l' items' frees'
      × (map l'.data_at items' ≡ remove_first test (map l.data_at items))
unfolding remove_item_by_compare Ends
remove_item_by_compare-remove_first fuel destroyer l test items frees c b =
    elim (search_item-Ends fuel l test l.front items c.forward b) [
      | inl (r, no_any, no_first) ↦ (
        l,
        items,
        frees,
        rw (remove_item_by_compare, r) refl,
        c,
        sym (remove_first-any test (map l.data_at items) no_any),
      )
      | inr (item, xs, ys, r, split, n, some_any, some_first, left) ↦
          let (l', e, (c', same, calls)) =
            remove_item-Removed destroyer l xs ys frees item
              (subst (λ w. IsChain l w frees) split c) in
          (
            l',
            xs ++ ys,
            item ∷ frees,
            rw (remove_item_by_compare, r, ==_ne item 0 n, e) refl,
            c',
            same ∙ sym left,
          )
    ]
