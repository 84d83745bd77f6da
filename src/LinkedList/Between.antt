-- ===== src/LinkedList/Between.antt =====
-- rtList.c: insertions before and after an item of the list.
use rtmessage.Prelude.{
  ap, map, ℕ, ◌+◌, ◌≡◌, ◌≢◌, refl, sym, ◌∙◌, subst, inl, inr, List, [], ◌∷◌, ◌++◌, ◌==◌, true,
  false, some, ==_iff,
}
use rtmessage.LinkedList.{insert_before, Linked, store, link_before}
use rtmessage.LinkedList.Chain.{
  In, Seg, Back, IsChain, ==_ne, store_same, store_ne, Seg-split, Back-split, Distinct-split,
  In-left, In-right, Seg-store, Back-store, Seg-redirect_cons, Distinct, Back-redirect, In-nonzero,
}
use rtmessage.LinkedList.Insert.{
  Grants, Inserts, taken, rest, get_free_item-Takes, put_data-Takes, IsSpare, insert-IsChain,
}

-- The links of an insertion before `at` make a list with the item there.
LinksBefore : Linked → ℕ → ℕ → List ℕ → List ℕ → List ℕ → Type 0
LinksBefore l item at xs ys frees =
    (l' : Linked) × (link_before l item at ≡ some l')
    × IsChain l' (xs ++ item ∷ at ∷ ys) frees
    × (l'.data_at ≡ l.data_at)

-- What both cases share, for `before` the item before `at`.
record Shared (l : Linked) (xs ys frees : List ℕ) (item at before : ℕ) : Type 0 where
  forward : Seg (store l.next item at) l.front xs at
  tail : Seg (store l.next item at) at (at ∷ ys) 0
  backward : Back (store (store l.prev item (l.prev at)) at item) 0 xs before
  here : store (store l.prev item (l.prev at)) at item item ≡ before
  behind : Back (store (store l.prev item (l.prev at)) at item) item (at ∷ ys) l.back
  recycled : Seg (store l.next item at) l.free frees 0
  distinct : Distinct xs
  outside : ¬ In at xs
  unlisted : ¬ In item xs
  before_ys : (x : ℕ) → In x xs → ¬ In x (at ∷ ys)

share :
    (l : Linked) (xs ys frees : List ℕ) (item at : ℕ)
    → IsChain l (xs ++ at ∷ ys) frees
    → IsSpare item (xs ++ at ∷ ys) frees
    → (before : ℕ) × Shared l xs ys frees item at before
share l xs ys frees item at c s =
    let (m, fx, (fm, z, fy)) = Seg-split l.next xs (at ∷ ys) l.front 0 c.forward in
    let (b, bx, (ba, by)) = Back-split l.prev xs (at ∷ ys) 0 l.back c.backward in
    let (dx, (ny, dy), apart) = Distinct-split xs (at ∷ ys) c.distinct in
    let not_at : item ≢ at = λ e. s.unlisted (In-right item xs (at ∷ ys) (inl e)) in
    let out : ¬ In item xs = λ i. s.unlisted (In-left item xs (at ∷ ys) i) in
    let away : ¬ In item ys = λ i. s.unlisted (In-right item xs (at ∷ ys) (inr i)) in
    let outside : ¬ In at xs = λ i. apart at i (inl refl) in
    (
      b,
      record {
        forward =
            Seg-store l.next item at xs l.front at out (subst (λ a. Seg l.next l.front xs a) fm fx);
        tail =
            Seg-store l.next item at (at ∷ ys) at 0 (λ i. s.unlisted (In-right item xs (at ∷ ys) i))
              (refl, z, fy);
        backward =
            Back-store (store l.prev item (l.prev at)) at item xs 0 b outside
              (Back-store l.prev item (l.prev at) xs 0 b out bx);
        here =
            store_ne (store l.prev item (l.prev at)) at item item not_at
            ∙ (store_same l.prev item (l.prev at) ∙ ba);
        behind =
            Back-redirect (store l.prev item (l.prev at)) item at ys (l.prev at) l.back
              (
                store_ne l.prev item (l.prev at) at (λ e. not_at (sym e)),
                Back-store l.prev item (l.prev at) ys at l.back away by,
              )
              (ny, dy);
        recycled = Seg-store l.next item at frees l.free 0 s.unfree c.recycled;
        distinct = dx;
        outside = outside;
        unlisted = out;
        before_ys = apart;
      },
    )

-- The list after the writes that both cases make.
abbrev linked : Linked → ℕ → ℕ → Linked
linked l item at = record l {
  next = store l.next item at;
  prev = store (store l.prev item (l.prev at)) at item;
  size = l.size + 1;
}

link_before-IsChain :
    (l : Linked) (xs ys frees : List ℕ) (item at : ℕ)
    → IsChain l (xs ++ at ∷ ys) frees
    → IsSpare item (xs ++ at ∷ ys) frees
    → LinksBefore l item at xs ys frees
unfolding link_before LinksBefore
link_before-IsChain l [] ys frees item at c s =
    let (b, k) = share l [] ys frees item at c s in
    let front : (at == l.front) ≡ true = (==_iff at l.front).1 (sym c.forward.0) in
    (
      record (linked l item at) { front = item },
      rw front refl,
      insert-IsChain [] (at ∷ ys) c s refl (store_same l.next item at) k.tail refl
          (k.here ∙ sym k.backward) k.behind k.recycled refl,
      refl,
    )
link_before-IsChain l (x ∷ xs) ys frees item at c s =
    let (b, k) = share l (x ∷ xs) ys frees item at c s in
    let (t, i) =
      Seg-redirect_cons (store l.next item at) (store (store l.prev item (l.prev at)) at item) item
        x xs l.front at 0 b k.forward k.backward k.distinct in
    let later : (at == l.front) ≡ false =
      ==_ne at l.front (λ e. k.outside (inl (e ∙ c.forward.0))) in
    let some_before : (b == 0) ≡ false =
      ==_ne b 0 (In-nonzero (store l.next item at) (x ∷ xs) l.front at b k.forward i) in
    let off : item ≢ b = λ e. k.unlisted (subst (λ w. In w (x ∷ xs)) (sym e) i) in
    (
      record (linked l item at) { next = store (store l.next item at) b item },
      rw (later, k.here, some_before) refl,
      insert-IsChain (x ∷ xs) (at ∷ ys) c s t
          (store_ne (store l.next item at) b item item off ∙ store_same l.next item at)
          (Seg-store (store l.next item at) b item (at ∷ ys) at 0 (k.before_ys b i) k.tail)
          k.backward k.here k.behind
          (Seg-store (store l.next item at) b item frees l.free 0
            (c.apart b (In-left b (x ∷ xs) (at ∷ ys) i)) k.recycled)
          refl,
      refl,
    )

-- On success, `rtList_InsertBefore` at an item of a sound list puts the new item before it and goes
-- through no NULL pointer; the links stay sound both ways, the other items keep their data, and the
-- new one has the given data unless that is rtListReuseData.
insert_before-Inserts :
    (granted at data_value : ℕ) (xs ys frees : List ℕ) (l : Linked)
    → IsChain l (xs ++ at ∷ ys) frees
    → Grants granted (xs ++ at ∷ ys)
    → Inserts granted l data_value xs (at ∷ ys) frees (insert_before granted l data_value at)
unfolding insert_before LinksBefore
insert_before-Inserts granted at data_value xs ys frees l c g =
    let (l1, e, c1, s, m) = get_free_item-Takes granted (xs ++ at ∷ ys) frees l c g in
    let (c2, s2, m2, d) = put_data-Takes granted (xs ++ at ∷ ys) frees l l1 data_value c1 s m in
    let (l', f, c3, same) = link_before-IsChain _ xs ys (rest frees) _ at c2 s2 in
    let listed : at ≢ 0 =
      In-nonzero l.next (xs ++ at ∷ ys) l.front 0 at c.forward
        (In-right at xs (at ∷ ys) (inl refl)) in
    (
      l',
      rw (==_ne at 0 listed, e, ==_ne (taken granted frees) 0 s.nonzero, f) refl,
      c3,
      ap (λ h. map h (xs ++ at ∷ ys)) same ∙ m2,
      λ n. ap (λ h. h (taken granted frees)) same ∙ d n,
    )
