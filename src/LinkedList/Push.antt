-- ===== src/LinkedList/Push.antt =====
-- rtList.c: pushes as insertions at the ends of a sequence.
use rtmessage.Prelude.{
  ap, map, if◌then◌else◌, ℕ, ◌≡◌, ◌≢◌, refl, sym, ◌∙◌, subst, inl, List, [], ◌∷◌, ◌++◌, ◌==◌, true,
  false, ==_iff, append-nil, some,
}
use rtmessage.LinkedList.{put_data, Linked, store, link_front, link_back, push_front, push_back}
use rtmessage.LinkedList.Chain.{
  Seg, Back, In, IsChain, ==_ne, store_same, store_ne, Seg-store, Back-store, Seg-redirect_cons,
  Back-redirect, In-nonzero,
}
use rtmessage.LinkedList.Insert.{
  IsSpare, Grants, taken, rest, Inserts, insert-IsChain, get_free_item-Takes, put_data-Takes,
}

link_back-IsChain :
    (l : Linked) (items frees : List ℕ) (item : ℕ)
    → IsChain l items frees
    → IsSpare item items frees
    → IsChain (link_back l item) (items ++ (item ∷ [])) frees
unfolding link_back
link_back-IsChain l [] frees item c s =
    let no_front : (l.front == 0) ≡ true = (==_iff l.front 0).1 c.forward in
    let no_back : (l.back == 0) ≡ true = (==_iff l.back 0).1 (sym c.backward) in
    insert-IsChain [] [] c s (rw no_front refl) (rw no_back (store_same l.next item 0)) refl refl
      (store_same l.prev item l.back ∙ sym c.backward) refl
      (rw no_back (Seg-store l.next item 0 frees l.free 0 s.unfree c.recycled)) refl
link_back-IsChain l (x ∷ xs) frees item c s =
    let (t, i) =
      Seg-redirect_cons (store l.next item 0) l.prev item x xs l.front 0 0 l.back
        (Seg-store l.next item 0 (x ∷ xs) l.front 0 s.unlisted c.forward) c.backward c.distinct in
    let some_back : (l.back == 0) ≡ false =
      ==_ne l.back 0 (In-nonzero l.next (x ∷ xs) l.front 0 l.back c.forward i) in
    let off : item ≢ l.back = λ e. s.unlisted (subst (λ w. In w (x ∷ xs)) (sym e) i) in
    let links : (link_back l item).next ≡ store (store l.next item 0) l.back item =
      ap (λ b. if b then store l.next item 0 else store (store l.next item 0) l.back item)
        some_back in
    let first : (link_back l item).front ≡ l.front =
      ap (λ b. if b then item else l.front)
        (==_ne l.front 0 (λ e. c.forward.1 (sym c.forward.0 ∙ e))) in
    insert-IsChain (x ∷ xs) [] (subst (λ w. IsChain l w frees) (sym (append-nil (x ∷ xs))) c)
      (subst (λ w. IsSpare item w frees) (sym (append-nil (x ∷ xs))) s)
      (subst (λ f. Seg f (link_back l item).front (x ∷ xs) item) (sym links)
        (subst (λ a. Seg (store (store l.next item 0) l.back item) a (x ∷ xs) item) (sym first) t))
      (ap (λ f. f item) links
        ∙ (store_ne (store l.next item 0) l.back item item off ∙ store_same l.next item 0))
      refl (Back-store l.prev item l.back (x ∷ xs) 0 l.back s.unlisted c.backward)
      (store_same l.prev item l.back) refl
      (subst (λ f. Seg f l.free frees 0) (sym links)
        (Seg-store (store l.next item 0) l.back item frees l.free 0 (c.apart l.back i)
          (Seg-store l.next item 0 frees l.free 0 s.unfree c.recycled)))
      refl

link_front-IsChain :
    (l : Linked) (items frees : List ℕ) (item : ℕ)
    → IsChain l items frees
    → IsSpare item items frees
    → IsChain (link_front l item) (item ∷ items) frees
unfolding link_front
link_front-IsChain l [] frees item c s =
    let no_front : (l.front == 0) ≡ true = (==_iff l.front 0).1 c.forward in
    let no_back : (l.back == 0) ≡ true = (==_iff l.back 0).1 (sym c.backward) in
    insert-IsChain [] [] c s refl (store_same l.next item l.front ∙ c.forward) refl refl
      (rw no_front (store_same l.prev item 0)) (rw no_back refl)
      (Seg-store l.next item l.front frees l.free 0 s.unfree c.recycled) refl
link_front-IsChain l (x ∷ xs) frees item c s =
    let (t, i) =
      Seg-redirect_cons l.next l.prev 0 x xs l.front 0 0 l.back c.forward c.backward c.distinct in
    let off : item ≢ x = λ e. s.unlisted (inl e) in
    let links : (link_front l item).prev ≡ store (store l.prev item 0) x item =
      ap (λ b. if b then store l.prev item 0 else store (store l.prev item 0) l.front item)
        (==_ne l.front 0 (λ e. c.forward.1 (sym c.forward.0 ∙ e)))
      ∙ ap (λ a. store (store l.prev item 0) a item) c.forward.0 in
    let last : (link_front l item).back ≡ l.back =
      ap (λ b. if b then item else l.back)
        (==_ne l.back 0 (In-nonzero l.next (x ∷ xs) l.front 0 l.back c.forward i)) in
    let linked =
      Back-redirect (store l.prev item 0) item x xs 0 l.back
        (Back-store l.prev item 0 (x ∷ xs) 0 l.back s.unlisted c.backward) c.distinct in
    insert-IsChain [] (x ∷ xs) c s refl (store_same l.next item l.front)
      (Seg-store l.next item l.front (x ∷ xs) l.front 0 s.unlisted c.forward) refl
      (ap (λ f. f item) links
        ∙ (store_ne (store l.prev item 0) x item item off ∙ store_same l.prev item 0))
      (subst (λ f. Back f item (x ∷ xs) (link_front l item).back) (sym links)
        (subst (λ a. Back (store (store l.prev item 0) x item) item (x ∷ xs) a) (sym last) linked))
      (Seg-store l.next item l.front frees l.free 0 s.unfree c.recycled) refl

-- On success, `rtList_PushBack` puts the item behind the others: the first recycled item, or the
-- allocator's when there is none. The links of the list stay sound both ways, the other items keep
-- their data, and the item has the given data unless that is rtListReuseData.
push_back-Inserts :
    (granted : ℕ) (items frees : List ℕ) (l : Linked) (data_value : ℕ)
    → IsChain l items frees
    → Grants granted items
    → Inserts granted l data_value items [] frees (some (push_back granted l data_value))
unfolding push_back link_back
push_back-Inserts granted items frees l data_value c g =
    let (l1, e, c1, s, m) = get_free_item-Takes granted items frees l c g in
    let (c2, s2, m2, d) = put_data-Takes granted items frees l l1 data_value c1 s m in
    (
      _,
      rw (e, push_back, ==_ne (taken granted frees) 0 s.nonzero) refl,
      link_back-IsChain _ items (rest frees) _ c2 s2,
      subst (λ w. map (put_data l1 (taken granted frees) data_value).data_at w ≡ map l.data_at w)
          (sym (append-nil items)) m2,
      d,
    )

-- On success, `rtList_PushFront` puts the item before the others, under the conditions and with the
-- promises of `push_back-Inserts`.
push_front-Inserts :
    (granted : ℕ) (items frees : List ℕ) (l : Linked) (data_value : ℕ)
    → IsChain l items frees
    → Grants granted items
    → Inserts granted l data_value [] items frees (some (push_front granted l data_value))
unfolding push_front link_front
push_front-Inserts granted items frees l data_value c g =
    let (l1, e, c1, s, m) = get_free_item-Takes granted items frees l c g in
    let (c2, s2, m2, d) = put_data-Takes granted items frees l l1 data_value c1 s m in
    (
      _,
      rw (e, push_front, ==_ne (taken granted frees) 0 s.nonzero) refl,
      link_front-IsChain _ items (rest frees) _ c2 s2,
      m2,
      d,
    )
