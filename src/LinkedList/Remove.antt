-- ===== src/LinkedList/Remove.antt =====
-- rtList.c: a removal takes one item out of the sequence and recycles it.
use rtmessage.Prelude.{
  ℕ, ◌≡◌, ◌≢◌, refl, sym, ap, ◌∙◌, subst, inl, inr, List, [], ◌∷◌, ◌++◌, ◌==◌, true, false,
  if◌then◌else◌, ==_iff,
}
use rtmessage.LinkedList.{Linked, store}
use rtmessage.LinkedList.Chain.{
  In, Seg, Back, IsChain, ==_ne, store_ne, Distinct-split, Seg-split, Back-split, In-left,
  Seg-store, Back-store, Seg-redirect_cons, Back-redirect, In-nonzero,
}

-- The next fields of the list without the item, and its first item.
pub record NextOut (l : Linked) (xs ys frees : List ℕ) (item : ℕ) (n : ℕ → ℕ) (first : ℕ)
    : Type 0 where
  pub left : Seg n first xs (l.next item)
  pub right : Seg n (l.next item) ys 0
  pub here : n item ≡ l.next item
  pub recycled : Seg n l.free frees 0

-- The prev fields, and the last item.
pub record PrevOut (l : Linked) (xs ys : List ℕ) (item : ℕ) (p : ℕ → ℕ) (last : ℕ) : Type 0 where
  pub left : Back p 0 xs (l.prev item)
  pub right : Back p (l.prev item) ys last

abbrev pub skip_next : Linked → ℕ → ℕ → ℕ
skip_next l item = if l.prev item == 0 then l.next else store l.next (l.prev item) (l.next item)

abbrev pub skip_prev : Linked → ℕ → ℕ → ℕ
skip_prev l item = if l.next item == 0 then l.prev else store l.prev (l.next item) (l.prev item)

pub skip_next-NextOut :
    (l : Linked) (xs ys frees : List ℕ) (item : ℕ)
    → IsChain l (xs ++ item ∷ ys) frees
    → NextOut l xs ys frees item
        (skip_next l item)
        (if l.front == item then skip_next l item item else l.front)
skip_next-NextOut l [] ys frees item c =
    let (e, z, fy) = c.forward in
    let no_prev : (l.prev item == 0) ≡ true = (==_iff (l.prev item) 0).1 c.backward.0 in
    let front : (l.front == item) ≡ true = (==_iff l.front item).1 e in
    rw (no_prev, front) (record { left = refl; right = fy; here = refl; recycled = c.recycled })
skip_next-NextOut l (x ∷ xs) ys frees item c =
    let (m, fx, (fm, z, fy)) = Seg-split l.next (x ∷ xs) (item ∷ ys) l.front 0 c.forward in
    let (b, bx, (ba, by)) = Back-split l.prev (x ∷ xs) (item ∷ ys) 0 l.back c.backward in
    let (dx, (ny, dy), apart) = Distinct-split (x ∷ xs) (item ∷ ys) c.distinct in
    let (t, i) = Seg-redirect_cons l.next l.prev (l.next item) x xs l.front m 0 b fx bx dx in
    let links : skip_next l item ≡ store l.next b (l.next item) =
      ap (λ a. if a then l.next else store l.next (l.prev item) (l.next item))
        (==_ne (l.prev item) 0 (λ e. In-nonzero l.next (x ∷ xs) l.front m b fx i (sym ba ∙ e)))
      ∙ ap (λ a. store l.next a (l.next item)) ba in
    let first : (l.front == item) ≡ false =
      ==_ne l.front item (λ e. apart item (inl (sym e ∙ fx.0)) (inl refl)) in
    let off : item ≢ b = λ e. apart b i (inl (sym e)) in
    subst (λ n. NextOut l (x ∷ xs) ys frees item n (if l.front == item then n item else l.front))
      (sym links)
      (subst (λ a. NextOut l (x ∷ xs) ys frees item (store l.next b (l.next item)) a)
        (sym (ap (λ a. if a then store l.next b (l.next item) item else l.front) first))
        (record {
          left = t;
          right = Seg-store l.next b (l.next item) ys (l.next item) 0 (λ j. apart b i (inr j)) fy;
          here = store_ne l.next b (l.next item) item off;
          recycled =
              Seg-store l.next b (l.next item) frees l.free 0
                (c.apart b (In-left b (x ∷ xs) (item ∷ ys) i)) c.recycled;
        }))

pub skip_prev-PrevOut :
    (l : Linked) (xs ys frees : List ℕ) (item : ℕ)
    → IsChain l (xs ++ item ∷ ys) frees
    → PrevOut l xs ys item
        (skip_prev l item)
        (if l.back == item then skip_prev l item item else l.back)
skip_prev-PrevOut l xs [] frees item c =
    let (m, fx, (fm, z, fy)) = Seg-split l.next xs (item ∷ []) l.front 0 c.forward in
    let (b, bx, (ba, by)) = Back-split l.prev xs (item ∷ []) 0 l.back c.backward in
    let no_next : (l.next item == 0) ≡ true = (==_iff (l.next item) 0).1 fy in
    let back : (l.back == item) ≡ true = (==_iff l.back item).1 (sym by) in
    rw (no_next, back) (record { left = subst (λ a. Back l.prev 0 xs a) (sym ba) bx; right = refl })
skip_prev-PrevOut l xs (y ∷ ys) frees item c =
    let (m, fx, (fm, z, fy)) = Seg-split l.next xs (item ∷ y ∷ ys) l.front 0 c.forward in
    let (b, bx, (ba, by)) = Back-split l.prev xs (item ∷ y ∷ ys) 0 l.back c.backward in
    let (dx, (ny, dy), apart) = Distinct-split xs (item ∷ y ∷ ys) c.distinct in
    let (t, i) = Seg-redirect_cons l.next l.prev 0 y ys (l.next item) 0 item l.back fy by dy in
    let links : skip_prev l item ≡ store l.prev y (l.prev item) =
      ap (λ a. if a then l.prev else store l.prev (l.next item) (l.prev item))
        (==_ne (l.next item) 0 (λ e. fy.1 (sym fy.0 ∙ e)))
      ∙ ap (λ a. store l.prev a (l.prev item)) fy.0 in
    let last : (l.back == item) ≡ false =
      ==_ne l.back item (λ e. ny (subst (λ w. In w (y ∷ ys)) e i)) in
    subst (λ p. PrevOut l xs (y ∷ ys) item p (if l.back == item then p item else l.back))
      (sym links)
      (subst (λ a. PrevOut l xs (y ∷ ys) item (store l.prev y (l.prev item)) a)
        (sym (ap (λ a. if a then store l.prev y (l.prev item) item else l.back) last))
        (record {
          left =
              Back-store l.prev y (l.prev item) xs 0 (l.prev item) (λ j. apart y j (inr (inl refl)))
                (subst (λ a. Back l.prev 0 xs a) (sym ba) bx);
          right = Back-redirect l.prev (l.prev item) y ys item l.back by dy;
        }))
