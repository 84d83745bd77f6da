-- ===== src/LinkedList/Search.antt =====
-- rtList.c: the loops over the items, and what reads or writes one item. A loop has fuel, and answers
-- `none` when it is spent.
use rtmessage.Prelude.{
  ℕ, zero, suc, ◌++◌, ◌∷◌, [], List, ◌||◌, not, Bool, true, false, Option, none, some, ◌==◌,
  if◌then◌else◌,
}
use rtmessage.Error.{rt_ok, rt_error_invalid_arg}
use rtmessage.LinkedList.{Linked, store, dispose, set_free_item, remove_item}

-- The first item of a chain whose data passes the test, or NULL; `none` when the fuel is spent.
unfoldable pub search_item : ℕ → Linked → (ℕ → Bool) → ℕ → Option ℕ
search_item zero l test item = none
search_item (suc fuel) l test item =
    let rest = search_item fuel l test (l.next item) in
    if item == 0 then some 0 else if test (l.data_at item) then some item else rest

-- rtList_Find; without an item it answers NULL.
unfoldable pub find : ℕ → Linked → (ℕ → Bool) → Option ℕ
find fuel l test = elim (search_item fuel l test l.front) [
  | none ↦ none
  | some item ↦ some (if item == 0 then 0 else l.data_at item)
]

-- rtList_HasItem
unfoldable pub has_item : ℕ → Linked → (ℕ → Bool) → Option Bool
has_item fuel l test = elim (find fuel l test) [
  | none ↦ none
  | some found ↦ some (if found == 0 then false else true)
]

-- rtList_RemoveItemWithData
unfoldable pub remove_item_with_data : ℕ → Bool → Linked → ℕ → Option (ℕ × Linked)
remove_item_with_data fuel destroyer l data_value =
    elim (search_item fuel l (λ d. d == data_value) l.front) [
      | none ↦ none
      | some item ↦
          some (if item == 0 then (rt_error_invalid_arg, l) else remove_item destroyer l item)
    ]

-- rtList_RemoveItemByCompare, with the comparison as a test of the data
unfoldable pub remove_item_by_compare : ℕ → Bool → Linked → (ℕ → Bool) → Option (ℕ × Linked)
remove_item_by_compare fuel destroyer l test = elim (search_item fuel l test l.front) [
  | none ↦ none
  | some item ↦ some (rt_ok, if item == 0 then l else (remove_item destroyer l item).1)
]

-- The loop of rtList_RemoveAllItems
unfoldable pub remove_loop : ℕ → Bool → ℕ → Linked → Option Linked
remove_loop zero destroyer item l = none
remove_loop (suc fuel) destroyer item l =
    let rest =
      remove_loop fuel destroyer (l.next item) (set_free_item (dispose destroyer l item) item) in
    if item == 0 then some l else rest

-- rtList_RemoveAllItems
unfoldable pub remove_all_items : ℕ → Bool → Linked → Option Linked
remove_all_items fuel destroyer l = elim (remove_loop fuel destroyer l.front l) [
  | none ↦ none
  | some left ↦ some (record left { size = 0; front = 0; back = 0 })
]

-- rtList_GetSize, rtList_GetFront and rtList_GetBack
unfoldable pub get_size : Linked → ℕ
get_size l = l.size

unfoldable pub get_front : Linked → ℕ
get_front l = l.front

unfoldable pub get_back : Linked → ℕ
get_back l = l.back

-- rtListItem_GetData, rtListItem_SetData, rtListItem_GetNext and rtListItem_GetPrev: an error and the
-- answer, or the list after the write
unfoldable pub item_get_data : Linked → ℕ → ℕ × ℕ
item_get_data l item = if item == 0 then (rt_error_invalid_arg, 0) else (rt_ok, l.data_at item)

unfoldable pub item_set_data : Linked → ℕ → ℕ → ℕ × Linked
item_set_data l item data_value =
    if item == 0
    then (rt_error_invalid_arg, l)
    else (rt_ok, record l { data_at = store l.data_at item data_value })

unfoldable pub item_get_next : Linked → ℕ → ℕ × ℕ
item_get_next l item = if item == 0 then (rt_error_invalid_arg, 0) else (rt_ok, l.next item)

unfoldable pub item_get_prev : Linked → ℕ → ℕ × ℕ
item_get_prev l item = if item == 0 then (rt_error_invalid_arg, 0) else (rt_ok, l.prev item)

-- The calls of the destroyer in a loop of rtList_Destroy: over the items of the list for any data, over
-- the recycled items for data that is not NULL.
unfoldable pub destroy_loop : ℕ → Bool → Linked → ℕ → Option (List ℕ)
destroy_loop zero any l item = none
destroy_loop (suc fuel) any l item =
    let rest = destroy_loop fuel any l (l.next item) in
    if item == 0 then some [] else elim rest [
      | none ↦ none
      | some calls ↦
          some (if any || not (l.data_at item == 0) then l.data_at item ∷ calls else calls)
    ]

-- rtList_Destroy: what the destroyer is called with
unfoldable pub destroy : ℕ → Linked → Option (List ℕ)
destroy fuel l = elim (destroy_loop fuel true l l.front) [
  | none ↦ none
  | some calls ↦ elim (destroy_loop fuel false l l.free) [
    | none ↦ none
    | some more ↦ some (calls ++ more)
  ]
]
