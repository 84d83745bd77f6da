-- ===== src/Vector/Contents.antt =====
-- rtVector.c as a sequence of pointers.
use rtmessage.Prelude.{
  ℕ, zero, suc, ◌+◌, ◌≤◌, ◌<◌, ◌≡◌, refl, sym, subst, ap, ◌∙◌, Bool, true, false, Bool-cases,
  Option-cases, inl, inr, Option, none, some, List, [], ◌∷◌, ◌++◌, length, replicate, take, get_or,
  set, ltb, leb, if◌then◌else◌, arith, length-append, length-set,
}
use rtmessage.Error.{rt_ok}
use rtmessage.Vector.{
  Vector, Outcome, returned, create, grow, append_item, push_back, cells_of, at, block_size,
}

-- There is always a cell behind the items.
abbrev pub Holds : Option (List ℕ) → ℕ → ℕ → Type 0
Holds none capacity count = count ≡ 0
Holds (some cells) capacity count = (length cells ≡ capacity) × (count < capacity)

pub record IsValid (v : Vector) : Type 0 where
  pub holds : Holds v.data_cells v.capacity v.count

-- The items of a vector, in order.
abbrev pub contents : Vector → List ℕ
contents v = take v.count (cells_of v)

-- The list without the first item that passes the test.
unfoldable pub remove_first : (ℕ → Bool) → List ℕ → List ℕ
remove_first test [] = []
remove_first test (x ∷ xs) = if test x then xs else x ∷ remove_first test xs

-- Whether an item passes the test.
unfoldable pub any : (ℕ → Bool) → List ℕ → Bool
any test [] = false
any test (x ∷ xs) = if test x then true else any test xs

pub create-IsValid : IsValid create
unfolding create
create-IsValid = record { holds = refl }

take-set :
    (n x : ℕ) (cells : List ℕ)
    → n < length cells
    → take (suc n) (set cells n x) ≡ take n cells ++ (x ∷ [])
take-set n x [] l = absurd (omega arith)
take-set zero x (y ∷ cells) l = refl
take-set (suc n) x (y ∷ cells) l = ap (◌∷◌ y) (take-set n x cells (omega arith))

pub take-append :
    (n : ℕ) (cells more : List ℕ) → n ≤ length cells → take n (cells ++ more) ≡ take n cells
take-append zero cells more l = refl
take-append (suc n) [] more l = absurd (omega arith)
take-append (suc n) (x ∷ cells) more l = ap (◌∷◌ x) (take-append n cells more (omega arith))

-- What `append_item` gives with room for the item.
Pushes : Vector → ℕ → Outcome → Type 0
Pushes v item r =
    (v' : Vector) × (r ≡ returned rt_ok v') × (contents v' ≡ contents v ++ (item ∷ [])) × IsValid v'

append_item-room :
    (v : Vector) (cells : List ℕ) (item : ℕ)
    → v.data_cells ≡ some cells
    → length cells ≡ v.capacity
    → v.count + 1 < v.capacity
    → Pushes v item (append_item v item)
unfolding append_item Pushes
append_item-room v cells item e l r =
    let room : ltb v.count (length cells) ≡ true = ground arith in
    let one : v.count + 1 ≡ suc v.count = omega arith in
    (
      record v { data_cells = some (set cells v.count item); count = v.count + 1 },
      rw (e, append_item, room) refl,
      rw (e, one) (take-set v.count item cells (omega arith)),
      record { holds = (length-set cells v.count item ∙ l, r) },
    )

-- A granted `rtVector_PushBack` of a valid vector puts the item behind the others, wherever the
-- cells are, writes within them, and leaves the vector valid.
push_back-contents :
    (v : Vector) (new : List ℕ) (item : ℕ)
    → IsValid v
    → length new ≡ block_size
    → (v' : Vector) × (push_back true new v item ≡ returned rt_ok v')
      × (contents v' ≡ contents v ++ (item ∷ []))
      × IsValid v'
unfolding push_back grow Pushes
push_back-contents v new item i l = elim (Option-cases v.data_cells) [
  | inl e ↦
      let empty : v.count ≡ 0 = subst (λ d. Holds d v.capacity v.count) e i.holds in
      let fresh : Vector = record {
        data_cells = some (replicate block_size 0);
        capacity = block_size;
        count = 0;
      } in
      let pushed = append_item-room fresh (replicate block_size 0) item refl refl (omega arith) in
      rw (e, push_back, grow, empty) pushed
  | inr (cells, e) ↦
      let (size, room) = subst (λ d. Holds d v.capacity v.count) e i.holds in
      elim (Bool-cases (leb v.capacity (v.count + 1))) [
        | inl full ↦
            let grown : Vector = record v {
              data_cells = some (cells ++ new);
              capacity = v.capacity + block_size;
            } in
            let pushed =
              append_item-room grown (cells ++ new) item refl
                (omega (arith, length-append cells new)) (omega arith) in
            let (v', r, c, k) = pushed in
            rw (e, push_back, grow, full)
              (
                v',
                r,
                c ∙ ap (λ l. l ++ (item ∷ [])) (take-append v.count cells new (omega arith)),
                k,
              )
        | inr free ↦
            let (v', r, c, k) = append_item-room v cells item e size (ground arith) in
            rw (e, push_back, grow, free) (v', r, rw e at c, k)
      ]
]

get_or-take :
    (n i : ℕ) (xs : List ℕ) → get_or (take n xs) i 0 ≡ (if leb n i then 0 else get_or xs i 0)
get_or-take zero i xs = ground arith
get_or-take (suc n) i [] = ground arith
get_or-take (suc n) zero (x ∷ xs) = ground arith
get_or-take (suc n) (suc i) (x ∷ xs) = ground (arith, get_or-take n i xs)

-- `rtVector_At` is the item at an index, and NULL behind the items.
at-contents : (v : Vector) (index : ℕ) → at v index ≡ get_or (contents v) index 0
unfolding at
at-contents v index = sym (get_or-take v.count index (cells_of v))
