-- ===== src/LinkedList/Chain.antt =====
-- rtList.c: the items of a list as a sequence of addresses, linked both ways, and the recycled items.
use rtmessage.Prelude.{
  ℕ, ◌≡◌, ◌≢◌, refl, sym, ◌∙◌, subst, ◌⊎◌, inl, inr, List, [], ◌∷◌, ◌++◌, length, ◌==◌, arith,
  false,
}
use rtmessage.LinkedList.{Linked, store}

abbrev pub In : ℕ → List ℕ → Type 0
In x [] = ⊥
In x (y ∷ ys) = (x ≡ y) ⊎ In x ys

abbrev pub Distinct : List ℕ → Type 0
Distinct [] = Unit
Distinct (x ∷ xs) = (¬ In x xs) × Distinct xs

-- No address stands in both lists.
abbrev pub Apart : List ℕ → List ℕ → Type 0
Apart xs ys = (x : ℕ) → In x xs → In x ys → ⊥

-- The items from one address, along a field, up to another.
abbrev pub Seg : (ℕ → ℕ) → ℕ → List ℕ → ℕ → Type 0
Seg f first [] end = first ≡ end
Seg f first (x ∷ xs) end = (first ≡ x) × (x ≢ 0) × Seg f (f x) xs end

-- Each item's field is the item before it; `before` stands before the first, `last` is the last.
abbrev pub Back : (ℕ → ℕ) → ℕ → List ℕ → ℕ → Type 0
Back g before [] last = before ≡ last
Back g before (x ∷ xs) last = (g x ≡ before) × Back g x xs last

pub record IsChain (l : Linked) (items frees : List ℕ) : Type 0 where
  pub forward : Seg l.next l.front items 0
  pub backward : Back l.prev 0 items l.back
  pub recycled : Seg l.next l.free frees 0
  pub distinct : Distinct items
  pub distinct_frees : Distinct frees
  pub apart : Apart items frees
  pub counted : l.size ≡ length items

pub ==_ne : (a b : ℕ) → a ≢ b → (a == b) ≡ false
==_ne a b n = ground arith

pub store_same : (f : ℕ → ℕ) (item v : ℕ) → store f item v item ≡ v
store_same f item v = ground arith

pub store_ne : (f : ℕ → ℕ) (item v b : ℕ) → b ≢ item → store f item v b ≡ f b
store_ne f item v b n = rw (==_ne b item n) refl

pub In-append : (x : ℕ) (xs ys : List ℕ) → In x (xs ++ ys) → In x xs ⊎ In x ys
In-append x [] ys i = inr i
In-append x (y ∷ xs) ys (inl e) = inl (inl e)
In-append x (y ∷ xs) ys (inr i) = elim (In-append x xs ys i) [ inl a ↦ inl (inr a) | inr b ↦ inr b ]

pub In-left : (x : ℕ) (xs ys : List ℕ) → In x xs → In x (xs ++ ys)
In-left x [] ys i = elim i [ ]
In-left x (y ∷ xs) ys (inl e) = inl e
In-left x (y ∷ xs) ys (inr i) = inr (In-left x xs ys i)

pub In-right : (x : ℕ) (xs ys : List ℕ) → In x ys → In x (xs ++ ys)
In-right x [] ys i = i
In-right x (y ∷ xs) ys i = inr (In-right x xs ys i)

pub Distinct-append :
    (xs ys : List ℕ) → Distinct xs → Distinct ys → Apart xs ys → Distinct (xs ++ ys)
Distinct-append [] ys dx dy a = dy
Distinct-append (x ∷ xs) ys (n, dx) dy a = (
  λ i. elim (In-append x xs ys i) [ inl j ↦ n j | inr j ↦ a x (inl refl) j ],
  Distinct-append xs ys dx dy (λ z i j. a z (inr i) j),
)

pub Distinct-split :
    (xs ys : List ℕ) → Distinct (xs ++ ys) → Distinct xs × Distinct ys × Apart xs ys
Distinct-split [] ys d = (_, d, λ x i j. i)
Distinct-split (x ∷ xs) ys (n, d) =
    let (dx, dy, a) = Distinct-split xs ys d in
    (
      ((λ i. n (In-left x xs ys i)), dx),
      dy,
      λ z i j. elim i [ inl e ↦ n (In-right x xs ys (subst (λ w. In w ys) e j)) | inr k ↦ a z k j ],
    )

pub Seg-append :
    (f : ℕ → ℕ) (xs ys : List ℕ) (first middle end : ℕ)
    → Seg f first xs middle
    → Seg f middle ys end
    → Seg f first (xs ++ ys) end
Seg-append f [] ys first middle end s t = subst (λ a. Seg f a ys end) (sym s) t
Seg-append f (x ∷ xs) ys first middle end (e, n, s) t =
    (e, n, Seg-append f xs ys (f x) middle end s t)

-- A segment cut before an item.
pub Seg-split :
    (f : ℕ → ℕ) (xs ys : List ℕ) (first end : ℕ)
    → Seg f first (xs ++ ys) end
    → (middle : ℕ) × Seg f first xs middle × Seg f middle ys end
Seg-split f [] ys first end s = (first, refl, s)
Seg-split f (x ∷ xs) ys first end (e, n, s) =
    let (middle, left, right) = Seg-split f xs ys (f x) end s in (middle, (e, n, left), right)

pub Back-append :
    (g : ℕ → ℕ) (xs ys : List ℕ) (before middle last : ℕ)
    → Back g before xs middle
    → Back g middle ys last
    → Back g before (xs ++ ys) last
Back-append g [] ys before middle last s t = subst (λ a. Back g a ys last) (sym s) t
Back-append g (x ∷ xs) ys before middle last (e, s) t = (e, Back-append g xs ys x middle last s t)

pub Back-split :
    (g : ℕ → ℕ) (xs ys : List ℕ) (before last : ℕ)
    → Back g before (xs ++ ys) last
    → (middle : ℕ) × Back g before xs middle × Back g middle ys last
Back-split g [] ys before last s = (before, refl, s)
Back-split g (x ∷ xs) ys before last (e, s) =
    let (middle, left, right) = Back-split g xs ys x last s in (middle, (e, left), right)

-- A write to an item that is not in the segment keeps it.
pub Seg-store :
    (f : ℕ → ℕ) (item v : ℕ) (xs : List ℕ) (first end : ℕ)
    → (¬ In item xs)
    → Seg f first xs end
    → Seg (store f item v) first xs end
Seg-store f item v [] first end n s = s
Seg-store f item v (x ∷ xs) first end n (e, z, s) =
    let same : store f item v x ≡ f x = store_ne f item v x (λ p. n (inl (sym p))) in
    (
      e,
      z,
      subst (λ a. Seg (store f item v) a xs end) (sym same)
          (Seg-store f item v xs (f x) end (λ i. n (inr i)) s),
    )

pub Back-store :
    (g : ℕ → ℕ) (item v : ℕ) (xs : List ℕ) (before last : ℕ)
    → (¬ In item xs)
    → Back g before xs last
    → Back (store g item v) before xs last
Back-store g item v [] before last n s = s
Back-store g item v (x ∷ xs) before last n (e, s) = (
  store_ne g item v x (λ p. n (inl (sym p))) ∙ e,
  Back-store g item v xs x last (λ i. n (inr i)) s,
)

-- The last item of a segment gets another next.
Seg-redirect :
    (f g : ℕ → ℕ) (v : ℕ) (xs : List ℕ) (first end before last : ℕ)
    → Seg f first xs end
    → Back g before xs last
    → Distinct xs
    → ((xs ≡ []) × (last ≡ before)) ⊎ (Seg (store f last v) first xs v × In last xs)
Seg-redirect f g v [] first end before last s b d = inl (refl, sym b)
Seg-redirect f g v (x ∷ xs) first end before last (e, z, s) (p, b) (n, d) =
    elim (Seg-redirect f g v xs (f x) end x last s b d) [
      | inl (empty, here) ↦ inr (
        (
          e,
          z,
          subst (λ a. Seg (store f a v) (store f a v x) xs v) (sym here)
              (subst (λ w. Seg (store f x v) (store f x v x) w v) (sym empty) (store_same f x v)),
        ),
        inl here,
      )
      | inr (t, i) ↦
          let off : x ≢ last = λ q. n (subst (λ a. In a xs) (sym q) i) in
          inr (
            (e, z, subst (λ a. Seg (store f last v) a xs v) (sym (store_ne f last v x off)) t),
            inr i,
          )
    ]

-- The first item of a list gets another item before it.
pub Back-redirect :
    (g : ℕ → ℕ) (v x : ℕ) (xs : List ℕ) (before last : ℕ)
    → Back g before (x ∷ xs) last
    → Distinct (x ∷ xs)
    → Back (store g x v) v (x ∷ xs) last
Back-redirect g v x xs before last (p, b) (n, d) =
    (store_same g x v, Back-store g x v xs x last n b)

pub In-nonzero : (f : ℕ → ℕ) (xs : List ℕ) (first end x : ℕ) → Seg f first xs end → In x xs → x ≢ 0
In-nonzero f [] first end x s i = elim i [ ]
In-nonzero f (y ∷ xs) first end x (e, z, s) (inl p) = λ q. z (sym p ∙ q)
In-nonzero f (y ∷ xs) first end x (e, z, s) (inr i) = In-nonzero f xs (f y) end x s i

-- The same, for a list that is not empty.
pub Seg-redirect_cons :
    (f g : ℕ → ℕ) (v x : ℕ) (xs : List ℕ) (first end before last : ℕ)
    → Seg f first (x ∷ xs) end
    → Back g before (x ∷ xs) last
    → Distinct (x ∷ xs)
    → Seg (store f last v) first (x ∷ xs) v × In last (x ∷ xs)
Seg-redirect_cons f g v x xs first end before last s b d =
    elim (Seg-redirect f g v (x ∷ xs) first end before last s b d) [
      | inl (empty, here) ↦ cc
      | inr r ↦ r
    ]
