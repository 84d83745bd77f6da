-- ===== src/Vector/Failure.antt =====
-- rtVector_PushBack when `realloc` fails: the old block is lost, the count is not.
use rtmessage.Prelude.{ℕ, ◌+◌, ◌≤◌, ◌≡◌, refl, true, false, none, some, List, leb, ltb, arith}
use rtmessage.Error.{enomem, error_from_errno}
use rtmessage.Vector.{Vector, outside, returned, block_size, grow, append_item, push_back}

-- A vector of at least 16 items that has to grow, and is refused the memory, answers that there is no
-- memory; the next push then gets a block of 16 cells for the same count, and
-- writes outside it.
push_back-outside :
    (v : Vector) (cells new : List ℕ) (x y : ℕ)
    → v.data_cells ≡ some cells
    → v.capacity ≤ v.count + 1
    → block_size ≤ v.count
    → (v' : Vector) × (push_back false new v x ≡ returned (error_from_errno enomem) v')
      × (push_back true new v' y ≡ outside)
unfolding push_back grow append_item
push_back-outside v cells new x y e full many =
    let grows : leb v.capacity (v.count + 1) ≡ true = ground arith in
    let over : ltb v.count 16 ≡ false = ground arith in
    (
      record v { data_cells = none; capacity = v.capacity + block_size },
      rw (e, push_back, grow, grows) refl,
      rw (over) refl,
    )
