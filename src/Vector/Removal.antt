-- ===== src/Vector/Removal.antt =====
-- rtVector_RemoveItem of rtVector.c on the sequence of pointers.
use rtmessage.Prelude.{
  ℕ, zero, suc, ◌-◌, ◌≤◌, ◌<◌, ◌≡◌, refl, sym, subst, ap, ◌∙◌, Bool, true, false, Bool-cases,
  Option-cases, inl, inr, some, List, [], ◌∷◌, length, replicate, take, arith, length-append,
  length-take, length-replicate, ◌⊎◌,
}
use rtmessage.Error.{rt_ok, rt_fail}
use rtmessage.Vector.{
  finish, Vector, Outcome, outside, returned, shift, Search, lost, missing, removed, behind,
  remove_cell, clear, remove_item, cells_of,
}
use rtmessage.Vector.Contents.{Holds, IsValid, contents, remove_first, any, take-append}

-- The loop that moves `m` cells down.
shift_lem :
    (m x : ℕ) (cells : List ℕ)
    → m ≤ length cells
    → (moved : List ℕ) × (shift m (x ∷ cells) ≡ some moved)
      × (length moved ≡ suc (length cells))
      × (take m moved ≡ take m cells)
unfolding shift
shift_lem zero x cells l = (x ∷ cells, refl, refl, refl)
shift_lem (suc m) x [] l = absurd (omega arith)
shift_lem (suc m) x (y ∷ cells) l =
    let (moved, e, size, same) = shift_lem m y cells (omega arith) in
    (y ∷ moved, rw e refl, ap suc size, ap (◌∷◌ y) same)

take-take-suc : (m : ℕ) (xs : List ℕ) → take m (take (suc m) xs) ≡ take m xs
take-take-suc zero xs = refl
take-take-suc (suc m) [] = refl
take-take-suc (suc m) (x ∷ xs) = ap (◌∷◌ x) (take-take-suc m xs)

take-suc : (m : ℕ) (xs ys : List ℕ) → take (suc m) xs ≡ take (suc m) ys → take m xs ≡ take m ys
take-suc m xs ys e = sym (take-take-suc m xs) ∙ (ap (take m) e ∙ take-take-suc m ys)

-- What the search and the shift come to: no item passes the test, or the first that does is gone.
RemovesCell : (ℕ → Bool) → ℕ → List ℕ → Search → Type 0
RemovesCell test n cells lost = ⊥
RemovesCell test n cells missing = any test (take n cells) ≡ false
RemovesCell test n cells (removed moved) =
    (m : ℕ) × (n ≡ suc m)
    × (any test (take n cells) ≡ true)
    × (length moved ≡ length cells)
    × (take m moved ≡ remove_first test (take n cells))

behind_lem :
    (test : ℕ → Bool) (n x : ℕ) (cells : List ℕ)
    → test x ≡ false
    → (s : Search) → RemovesCell test n cells s
    → RemovesCell test (suc n) (x ∷ cells) (behind x s)
unfolding behind RemovesCell any remove_first
behind_lem test n x cells miss lost r = r
behind_lem test n x cells miss missing r = rw miss r
behind_lem test n x cells miss (removed moved) r =
    let (m, e, found, size, same) = r in
    rw miss (suc m, ap suc e, found, ap suc size, ap (◌∷◌ x) same)

remove_cell_lem :
    (test : ℕ → Bool) (n : ℕ) (cells : List ℕ)
    → n < length cells
    → RemovesCell test n cells (remove_cell test n cells)
unfolding remove_cell RemovesCell any remove_first
remove_cell_lem test zero cells l = refl
remove_cell_lem test (suc n) [] l = absurd (omega arith)
remove_cell_lem test (suc n) (x ∷ cells) l = elim (Bool-cases (test x)) [
  | inl hit ↦
      let (moved, e, size, same) = shift_lem (suc n) x cells (omega arith) in
      rw (hit, remove_cell, e) (n, refl, rw hit refl, size, rw hit (take-suc n moved cells same))
  | inr miss ↦
      rw (miss, remove_cell)
        (behind_lem test n x cells miss _ (remove_cell_lem test n cells (omega arith)))
]

-- What `remove_item` comes to for the items of a vector.
abbrev pub Removes : Vector → (ℕ → Bool) → Outcome → Type 0
Removes v test outside = ⊥
Removes v test (returned code v') =
    ((code ≡ rt_fail) × (v' ≡ v) × (any test (contents v) ≡ false))
    ⊎ ((code ≡ rt_ok)
        × (any test (contents v) ≡ true)
        × (contents v' ≡ remove_first test (contents v))
        × IsValid v')

-- The cells after the last loop.
clear_lem :
    (v : Vector) (moved : List ℕ) (m : ℕ)
    → v.count ≡ suc m
    → length moved ≡ v.capacity
    → v.count < v.capacity
    → (take (v.count - 1) (clear v moved) ≡ take m moved) × (length (clear v moved) ≡ v.capacity)
unfolding clear
clear_lem v moved m e size room =
    let one : v.count - 1 ≡ m = omega arith in
    let long : length (take (suc m) moved) ≡ suc m = omega (arith, length-take (suc m) moved) in
    (
      rw (one, e) (take-append m (take (suc m) moved) _ (omega arith) ∙ take-take-suc m moved),
      rw e (
          omega (
            arith,
            long,
            length-append (take (suc m) moved) (replicate (v.capacity - suc m) 0),
            length-replicate {A = ℕ} (v.capacity - suc m) 0,
          )),
    )

finish-Removes :
    (v : Vector) (test : ℕ → Bool) (s : Search)
    → length (cells_of v) ≡ v.capacity
    → v.count < v.capacity
    → RemovesCell test v.count (cells_of v) s
    → Removes v test (finish v s)
unfolding finish RemovesCell
finish-Removes v test lost size room r = r
finish-Removes v test missing size room r = inl (refl, refl, r)
finish-Removes v test (removed moved) size room r =
    let (m, n, found, long, same) = r in
    let (items, width) = clear_lem v moved m n (long ∙ size) room in
    inr (refl, found, items ∙ same, record { holds = (width, omega arith) })

-- `rtVector_RemoveItem` of a valid vector stays within its cells. It fails, and changes nothing,
-- if no item passes the test; else the first item that does is gone, the others keep their
-- order, and the vector stays valid.
remove_item-contents :
    (v : Vector) (test : ℕ → Bool) → IsValid v → Removes v test (remove_item v test)
unfolding remove_item any
remove_item-contents v test i = elim (Option-cases v.data_cells) [
  | inl e ↦ by_none (subst (λ d. Holds d v.capacity v.count) e i.holds)
  | inr (cells, e) ↦
      let (size, room) = subst (λ d. Holds d v.capacity v.count) e i.holds in
      let all : cells_of v ≡ cells = rw e refl in
      finish-Removes v test _ (ap length all ∙ size) room
        (remove_cell_lem test v.count (cells_of v) (omega (arith, ap length all)))
]
  where
    by_none : v.count ≡ 0 → Removes v test (finish v (remove_cell test v.count (cells_of v)))
    by_none empty =
        subst (λ n. Removes v test (finish v (remove_cell test n (cells_of v)))) (sym empty)
          (unfold remove_cell finish in inl (refl, refl, rw empty refl))
