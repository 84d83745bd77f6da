-- ===== src/Examples/Lists.antt =====
-- Linked lists: the theorems at concrete inputs.
use rtmessage.Prelude.{ℕ, ◌≡◌, ◌≢◌, refl, true, [], ◌∷◌, inl, inr, arith}
use rtmessage.Error.{rt_ok}
use rtmessage.LinkedList.{Linked, store, remove_item}
use rtmessage.LinkedList.Chain.{In, IsChain}
use rtmessage.LinkedList.Insert.{Grants}
use rtmessage.LinkedList.Recycle.{Removed, remove_item-Removed}

-- The items 10 and 20 with the data 5 and 6, and the recycled item 30.
abbrev pair : Linked
pair = record {
  data_at = store (store (store (λ a. 0) 10 5) 20 6) 30 7;
  next = store (λ a. 0) 10 20;
  prev = store (λ a. 0) 20 10;
  front = 10;
  back = 20;
  free = 30;
  size = 2;
  destroyed = [];
}

apart_pair : (a b : ℕ) → a ≢ b → ¬ In a (b ∷ [])
apart_pair a b n (inl e) = n e
apart_pair a b n (inr i) = i

pair-IsChain : IsChain pair (10 ∷ 20 ∷ []) (30 ∷ [])
pair-IsChain = record {
  forward = (refl, (λ e. omega arith), (refl, (λ e. omega arith), refl));
  backward = (refl, (refl, refl));
  recycled = (refl, (λ e. omega arith), refl);
  distinct = (apart_pair 10 20 (λ e. omega arith), ((λ i. i), _));
  distinct_frees = ((λ i. i), _);
  apart = λ x i j. elim i [
    | inl e ↦ elim j [ inl f ↦ omega arith | inr k ↦ k ]
    | inr (inl e) ↦ elim j [ inl f ↦ omega arith | inr k ↦ k ]
    | inr (inr k) ↦ k
  ];
  counted = refl;
}

spare : Grants 40 (10 ∷ 20 ∷ [])
spare = record {
  nonzero = λ e. omega arith;
  unlisted = λ i. elim i [ inl e ↦ omega arith | inr (inl e) ↦ omega arith | inr (inr k) ↦ k ];
}

remove_item-Removed_example :
    (l' : Linked) × (remove_item true pair 10 ≡ (rt_ok, l'))
    × Removed true pair [] (20 ∷ []) (30 ∷ []) 10 l'
remove_item-Removed_example = remove_item-Removed true pair [] (20 ∷ []) (30 ∷ []) 10 pair-IsChain
