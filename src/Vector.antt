-- ===== src/Vector.antt =====
-- rtVector.c: the growing array of pointers. A pointer is a number, 0 is NULL. The allocator is an
-- argument: whether it grants the block, and what `realloc` leaves in the new cells.
pub mod Contents
pub mod Removal
pub mod Failure
use rtmessage.Prelude.{
  ℕ, zero, suc, ◌+◌, ◌-◌, Bool, true, false, Option, none, some, List, [], ◌∷◌, ◌++◌, length,
  replicate, take, get_elem?, get_or, set, ltb, leb, ◌==◌, if◌then◌else◌,
}
use rtmessage.Error.{rt_ok, rt_fail, enomem, error_from_errno}

-- RTVECT_BLOCKSIZE
abbrev pub block_size : ℕ
block_size = 16

-- struct _rtVector; `data` is NULL or its cells.
pub record Vector : Type 0 where
  pub data_cells : Option (List ℕ)
  pub capacity : ℕ
  pub count : ℕ

-- What an operation does: an access outside the cells, or a result and the vector after it.
pub data Outcome : Type 0 where
  outside : Outcome
  returned : ℕ → Vector → Outcome

-- rtVector_Create, with the struct granted
unfoldable pub create : Vector
create = record { data_cells = none; capacity = 0; count = 0 }

-- The allocations of rtVector_PushBack. A block that `realloc` does not grant is lost.
unfoldable pub grow : Bool → List ℕ → Vector → Vector
grow granted new v = elim v.data_cells [
  | none ↦ record v {
    data_cells = if granted then some (replicate block_size 0) else none;
    capacity = block_size;
  }
  | some cells ↦
      if leb v.capacity (v.count + 1)
      then record v {
        data_cells = if granted then some (cells ++ new) else none;
        capacity = v.capacity + block_size;
      }
      else v
]

-- `v->data[v->count++] = item`
unfoldable pub append_item : Vector → ℕ → Outcome
append_item v item = elim v.data_cells [
  | none ↦ returned (error_from_errno enomem) v
  | some cells ↦
      if ltb v.count (length cells)
      then returned rt_ok
          (record v { data_cells = some (set cells v.count item); count = v.count + 1 })
      else outside
]

-- rtVector_PushBack of a vector that is not NULL
unfoldable pub push_back : Bool → List ℕ → Vector → ℕ → Outcome
push_back granted new v item = append_item (grow granted new v) item

-- The loop that moves `n` cells down by one, from the cell that goes; `none` is a read behind them.
unfoldable pub shift : ℕ → List ℕ → Option (List ℕ)
shift zero cells = some cells
shift (suc n) [] = none
shift (suc n) (x ∷ cells) = elim cells [
  | [] ↦ none
  | y ∷ more ↦ elim (shift n (y ∷ more)) [ none ↦ none | some moved ↦ some (y ∷ moved) ]
]

-- How a search for an item ended.
pub data Search : Type 0 where
  lost missing : Search
  removed : List ℕ → Search

unfoldable pub behind : ℕ → Search → Search
behind x lost = lost
behind x missing = missing
behind x (removed cells) = removed (x ∷ cells)

abbrev pub shifted : Option (List ℕ) → Search
shifted none = lost
shifted (some cells) = removed cells

-- The search among `n` cells, and the shift from the first hit.
unfoldable pub remove_cell : (ℕ → Bool) → ℕ → List ℕ → Search
remove_cell test zero cells = missing
remove_cell test (suc n) [] = lost
remove_cell test (suc n) (x ∷ cells) =
    let rest = remove_cell test n cells in
    if test x then shifted (shift (suc n) (x ∷ cells)) else behind x rest

-- The last loop: NULL from the old count up to the capacity.
unfoldable pub clear : Vector → List ℕ → List ℕ
clear v cells = take v.count cells ++ replicate (v.capacity - v.count) 0

-- The rest of a removal, after the search.
unfoldable pub finish : Vector → Search → Outcome
finish v lost = outside
finish v missing = returned rt_fail v
finish v (removed left) =
    returned rt_ok (record v { data_cells = some (clear v left); count = v.count - 1 })

abbrev pub cells_of : Vector → List ℕ
cells_of v = elim v.data_cells [ none ↦ [] | some cells ↦ cells ]

-- rtVector_RemoveItem and rtVector_RemoveItemByCompare, with the test of an item as an argument and
-- without the destroyer. NULL has no cells, and a read of one is a read outside.
unfoldable pub remove_item : Vector → (ℕ → Bool) → Outcome
remove_item v test = finish v (remove_cell test v.count (cells_of v))

-- rtVector_At
unfoldable pub at : Vector → ℕ → ℕ
at v index = if leb v.count index then 0 else get_or (cells_of v) index 0

-- rtVector_Size
unfoldable pub size : Vector → ℕ
size v = v.count

-- The loop of rtVector_Find over `n` cells. A read behind the cells, which a valid vector does not
-- make, answers NULL here and in `at`.
unfoldable pub find_cell : (ℕ → Bool) → ℕ → List ℕ → ℕ
find_cell test zero cells = 0
find_cell test (suc n) [] = 0
find_cell test (suc n) (x ∷ cells) = let rest = find_cell test n cells in if test x then x else rest

-- rtVector_Find
unfoldable pub find : Vector → (ℕ → Bool) → ℕ
find v test = find_cell test v.count (cells_of v)

-- rtVector_HasItem
unfoldable pub has_item : Vector → (ℕ → Bool) → Bool
has_item v test = if find v test == 0 then false else true
