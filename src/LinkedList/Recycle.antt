-- ===== src/LinkedList/Recycle.antt =====
-- rtList.c: what a removal leaves.
use rtmessage.Prelude.{
  ℕ, ◌-◌, ◌≡◌, ◌≢◌, refl, sym, ap, ◌∙◌, subst, inl, inr, List, [], ◌∷◌, ◌++◌, ◌==◌, arith, Bool,
  true, false, if◌then◌else◌, map, length-append, Bool-cases, ==_iff, ◌&&◌, not, append-nil,
}
use rtmessage.Error.{rt_ok}
use rtmessage.LinkedList.{Linked, store, set_free_item, dispose, unlink, remove_item}
use rtmessage.LinkedList.Chain.{
  In, Distinct, Apart, Seg, Back, IsChain, ==_ne, store_same, Distinct-append, Distinct-split,
  Seg-append, Back-append, In-append, In-left, In-right, Seg-store, Back-store, In-nonzero,
}
use rtmessage.LinkedList.Remove.{skip_next-NextOut, skip_prev-PrevOut}
use rtmessage.LinkedList.Insert.{map-store}

-- A list of items that are linked both ways, with its recycled items.
record IsLinked (l : Linked) (items frees : List ℕ) : Type 0 where
  forward : Seg l.next l.front items 0
  backward : Back l.prev 0 items l.back
  recycled : Seg l.next l.free frees 0

unlink-IsLinked :
    (l : Linked) (xs ys frees : List ℕ) (item : ℕ)
    → IsChain l (xs ++ item ∷ ys) frees
    → IsLinked (unlink l item) (xs ++ ys) frees
unfolding unlink
unlink-IsLinked l xs ys frees item c =
    let n = skip_next-NextOut l xs ys frees item c in
    let p = skip_prev-PrevOut l xs ys frees item c in
    record {
      forward = Seg-append _ xs ys _ _ 0 n.left n.right;
      backward =
          subst
            (λ a. Back (if a == 0 then l.prev else store l.prev a (l.prev item)) 0 (xs ++ ys) (
              if l.back == item
              then (if a == 0 then l.prev else store l.prev a (l.prev item)) item
              else l.back))
            (sym n.here) (Back-append _ xs ys 0 _ _ p.left p.right);
      recycled = n.recycled;
    }

dispose-IsLinked :
    (destroyer : Bool) (l : Linked) (items frees : List ℕ) (item : ℕ)
    → IsLinked l items frees
    → IsLinked (dispose destroyer l item) items frees
unfolding dispose
dispose-IsLinked destroyer l items frees item k =
    elim (Bool-cases (destroyer && not (l.data_at item == 0))) [
      | inl calls ↦
          rw calls (record { forward = k.forward; backward = k.backward; recycled = k.recycled })
      | inr quiet ↦ rw quiet k
    ]

set_free_item-IsLinked :
    (l : Linked) (items frees : List ℕ) (item : ℕ)
    → IsLinked l items frees
    → item ≢ 0
    → (¬ In item items)
    → (¬ In item frees)
    → Apart items frees
    → IsLinked (set_free_item l item) items (item ∷ frees)
unfolding set_free_item
set_free_item-IsLinked l items [] item k z out new a =
    let empty : (l.free == 0) ≡ true = (==_iff l.free 0).1 k.recycled in
    rw empty (record {
      forward = Seg-store l.next item 0 items l.front 0 out k.forward;
      backward = Back-store l.prev item 0 items 0 l.back out k.backward;
      recycled = (refl, z, store_same l.next item 0);
    })
set_free_item-IsLinked l items (x ∷ frees) item k z out new a =
    let (e, n, more) = k.recycled in
    let some_free : (l.free == 0) ≡ false = ==_ne l.free 0 (λ q. n (sym e ∙ q)) in
    let free_out : ¬ In l.free items = λ i. a l.free i (inl e) in
    rw some_free (record {
      forward = Seg-store l.next item l.free items l.front 0 out k.forward;
      backward =
          Back-store (store l.prev l.free item) item 0 items 0 l.back out
            (Back-store l.prev l.free item items 0 l.back free_out k.backward);
      recycled = (
        refl,
        z,
        subst (λ w. Seg (store l.next item l.free) w (x ∷ frees) 0)
            (sym (store_same l.next item l.free))
            (Seg-store l.next item l.free (x ∷ frees) l.free 0 new k.recycled),
      );
    })

-- What the destroyer is called with for an item.
abbrev pub disposed : Bool → Linked → ℕ → List ℕ
disposed destroyer l item =
    if destroyer && not (l.data_at item == 0) then l.data_at item ∷ [] else []

-- What a removal comes to.
abbrev pub Removed : Bool → Linked → List ℕ → List ℕ → List ℕ → ℕ → Linked → Type 0
Removed destroyer l xs ys frees item l' =
    IsChain l' (xs ++ ys) (item ∷ frees)
    × (map l'.data_at (xs ++ ys) ≡ map l.data_at (xs ++ ys))
    × (l'.destroyed ≡ l.destroyed ++ disposed destroyer l item)

dispose_data :
    (destroyer : Bool) (l : Linked) (items : List ℕ) (item : ℕ)
    → (¬ In item items)
    → (map (dispose destroyer l item).data_at items ≡ map l.data_at items)
      × ((dispose destroyer l item).destroyed ≡ l.destroyed ++ disposed destroyer l item)
unfolding dispose
dispose_data destroyer l items item n = elim (Bool-cases (destroyer && not (l.data_at item == 0))) [
  | inl calls ↦ rw calls (map-store l.data_at item 0 items n, refl)
  | inr quiet ↦ rw quiet (refl, sym (append-nil l.destroyed))
]

-- The fields that `set_free_item`, `dispose` and `unlink` leave alone.
set_free_item_data :
    (l : Linked) (item : ℕ)
    → ((set_free_item l item).data_at ≡ l.data_at)
      × ((set_free_item l item).destroyed ≡ l.destroyed)
      × ((set_free_item l item).size ≡ l.size)
unfolding set_free_item
set_free_item_data l item = elim (Bool-cases (l.free == 0)) [
  | inl e ↦ rw e (refl, refl, refl)
  | inr e ↦ rw e (refl, refl, refl)
]

dispose_size : (destroyer : Bool) (l : Linked) (item : ℕ) → (dispose destroyer l item).size ≡ l.size
unfolding dispose
dispose_size destroyer l item = elim (Bool-cases (destroyer && not (l.data_at item == 0))) [
  | inl e ↦ rw e refl
  | inr e ↦ rw e refl
]

-- How the item stands to the others.
parts_of :
    (l : Linked) (xs ys frees : List ℕ) (item : ℕ)
    → IsChain l (xs ++ item ∷ ys) frees
    → (item ≢ 0)
      × (¬ In item (xs ++ ys))
      × (¬ In item frees)
      × Apart (xs ++ ys) frees
      × Distinct (xs ++ ys)
parts_of l xs ys frees item c =
    let here : In item (xs ++ item ∷ ys) = In-right item xs (item ∷ ys) (inl refl) in
    let (dx, (ny, dy), apart) = Distinct-split xs (item ∷ ys) c.distinct in
    (
      In-nonzero l.next (xs ++ item ∷ ys) l.front 0 item c.forward here,
      λ i. elim (In-append item xs ys i) [ inl j ↦ apart item j (inl refl) | inr j ↦ ny j ],
      c.apart item here,
      λ w i j. elim (In-append w xs ys i) [
        | inl k ↦ c.apart w (In-left w xs (item ∷ ys) k) j
        | inr k ↦ c.apart w (In-right w xs (item ∷ ys) (inr k)) j
      ],
      Distinct-append xs ys dx dy (λ w i j. apart w i (inr j)),
    )

-- `rtList_RemoveItem` of an item that stands in a sound list takes that item out and leaves the others
-- in their order, with their data and their links both ways; the item becomes the first recycled one,
-- and the destroyer, if given, is called once, with the item's data, unless that is NULL.
pub remove_item-Removed :
    (destroyer : Bool) (l : Linked) (xs ys frees : List ℕ) (item : ℕ)
    → IsChain l (xs ++ item ∷ ys) frees
    → (l' : Linked) × (remove_item destroyer l item ≡ (rt_ok, l'))
      × Removed destroyer l xs ys frees item l'
unfolding remove_item
remove_item-Removed destroyer l xs ys frees item c =
    let (z, out, new, others, distinct) = parts_of l xs ys frees item c in
    let l1 = unlink l item in
    let l2 = dispose destroyer l1 item in
    let k =
      set_free_item-IsLinked l2 (xs ++ ys) frees item
        (dispose-IsLinked destroyer l1 (xs ++ ys) frees item (unlink-IsLinked l xs ys frees item c))
        z out new others in
    let unlink_size : l1.size ≡ l.size = unfold unlink in refl in
    let unlink_data : map l1.data_at (xs ++ ys) ≡ map l.data_at (xs ++ ys) =
      unfold unlink in refl in
    let unlink_destroyed : l1.destroyed ++ disposed destroyer l1 item
        ≡ l.destroyed ++ disposed destroyer l item =
      unfold unlink in refl in
    let (d3, t3, s3) = set_free_item_data l2 item in
    let (d2, t2) = dispose_data destroyer l1 (xs ++ ys) item out in
    let l3 = set_free_item l2 item in
    (
      record l3 { size = l3.size - 1 },
      rw (==_ne item 0 z) refl,
      (
        record {
          forward = k.forward;
          backward = k.backward;
          recycled = k.recycled;
          distinct = distinct;
          distinct_frees = (new, c.distinct_frees);
          apart = λ w i j. elim j [
            | inl e ↦ out (subst (λ a. In a (xs ++ ys)) e i)
            | inr m ↦ others w i m
          ];
          counted = omega (
            arith,
            ap (λ a. a - 1) (s3 ∙ (dispose_size destroyer l1 item ∙ unlink_size)),
            c.counted,
            length-append xs ys,
            length-append xs (item ∷ ys),
          );
        },
        ap (λ f. map f (xs ++ ys)) d3 ∙ (d2 ∙ unlink_data),
        t3 ∙ (t2 ∙ unlink_destroyed),
      ),
    )
