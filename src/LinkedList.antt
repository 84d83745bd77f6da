-- ===== src/LinkedList.antt =====
-- rtList.c: the doubly linked list with its recycled items, on the fields of the items by address.
pub mod Search
pub mod Chain
pub mod Insert
pub mod Push
pub mod Between
pub mod Remove
pub mod Recycle
pub mod Lookup
use rtmessage.Prelude.{
  ℕ, zero, suc, ◌+◌, ◌-◌, ◌&&◌, not, Bool, true, false, Option, none, some, List, [], ◌∷◌, ◌++◌,
  ◌==◌, if◌then◌else◌,
}
use rtmessage.Error.{rt_ok, rt_error_invalid_arg, enomem, error_from_errno}

-- rtListReuseData
abbrev pub reuse_data : ℕ
reuse_data = 1

-- struct _rtListItem, each field by the address of its item, and struct _rtList. `destroyed` is what
-- the destroyer was called with. A field that the code leaves unset holds any number.
pub record Linked : Type 0 where
  pub data_at : ℕ → ℕ
  pub next : ℕ → ℕ
  pub prev : ℕ → ℕ
  pub front : ℕ
  pub back : ℕ
  pub free : ℕ
  pub size : ℕ
  pub destroyed : List ℕ

-- A field of the item at an address gets a value.
abbrev pub store : (ℕ → ℕ) → ℕ → ℕ → (ℕ → ℕ)
store field item value b = if b == item then value else field b

-- rtList_GetFreeItem, with what the allocator answers as an argument
unfoldable pub get_free_item : ℕ → Linked → ℕ × Linked
get_free_item granted l =
    if l.free == 0
    then (granted, (if granted == 0 then l else record l { data_at = store l.data_at granted 0 }))
    else (l.free, record l { free = l.next l.free })

-- rtList_SetFreeItem
unfoldable pub set_free_item : Linked → ℕ → Linked
set_free_item l item =
    if l.free == 0
    then record l { free = item; prev = store l.prev item 0; next = store l.next item 0 }
    else record l {
      prev = store (store l.prev l.free item) item 0;
      next = store l.next item l.free;
      free = item;
    }

-- `if(data != rtListReuseData) item->data = data`
unfoldable pub put_data : Linked → ℕ → ℕ → Linked
put_data l item data_value =
    if data_value == reuse_data then l else record l { data_at = store l.data_at item data_value }

-- rtList_Create, with the struct granted; `memory` is what the items' cells hold.
unfoldable pub create : (ℕ → ℕ) → Linked
create memory = record {
  data_at = memory;
  next = memory;
  prev = memory;
  front = 0;
  back = 0;
  free = 0;
  size = 0;
  destroyed = [];
}

-- An error, the item that is answered, and the list after the operation.
abbrev pub Result : Type 0
Result = ℕ × ℕ × Linked

abbrev pub no_memory : Linked → Result
no_memory l = (error_from_errno enomem, 0, l)

unfoldable pub link_front : Linked → ℕ → Linked
link_front l item = record l {
  prev = (if l.front == 0 then store l.prev item 0 else store (store l.prev item 0) l.front item);
  next = store l.next item l.front;
  front = item;
  back = if l.back == 0 then item else l.back;
  size = l.size + 1;
}

-- rtList_PushFront of a list that is not NULL, as the other operations below
unfoldable pub push_front : ℕ → Linked → ℕ → Result
push_front granted l data_value =
    let (item, l1) = get_free_item granted l in
    if item == 0 then no_memory l1 else (rt_ok, item, link_front (put_data l1 item data_value) item)

unfoldable pub link_back : Linked → ℕ → Linked
link_back l item = record l {
  next = (if l.back == 0 then store l.next item 0 else store (store l.next item 0) l.back item);
  prev = store l.prev item l.back;
  back = item;
  front = if l.front == 0 then item else l.front;
  size = l.size + 1;
}

-- rtList_PushBack
unfoldable pub push_back : ℕ → Linked → ℕ → Result
push_back granted l data_value =
    let (item, l1) = get_free_item granted l in
    if item == 0 then no_memory l1 else (rt_ok, item, link_back (put_data l1 item data_value) item)

-- The links of rtList_InsertBefore; `none` is an access through NULL.
unfoldable pub link_before : Linked → ℕ → ℕ → Option Linked
link_before l item at =
    let linked = record l {
      next = store l.next item at;
      prev = store (store l.prev item (l.prev at)) at item;
      size = l.size + 1;
    } in
    let before = linked.prev item in
    if at == l.front
    then some (record linked { front = item })
    else if before == 0
    then none
    else some (record linked { next = store linked.next before item })

abbrev pub answered : ℕ → Option Linked → Option Result
answered item none = none
answered item (some l) = some (rt_ok, item, l)

-- rtList_InsertBefore
unfoldable pub insert_before : ℕ → Linked → ℕ → ℕ → Option Result
insert_before granted l data_value at =
    if at == 0
    then some (rt_error_invalid_arg, 0, l)
    else (let (item, l1) = get_free_item granted l in
        if item == 0
        then some (no_memory l1)
        else answered item (link_before (put_data l1 item data_value) item at))

-- The links of rtList_InsertAfter
unfoldable pub link_after : Linked → ℕ → ℕ → Option Linked
link_after l item at =
    let linked = record l {
      next = store (store l.next item (l.next at)) at item;
      prev = store l.prev item at;
      size = l.size + 1;
    } in
    let after = linked.next item in
    if at == l.back
    then some (record linked { back = item })
    else if after == 0
    then none
    else some (record linked { prev = store linked.prev after item })

-- rtList_InsertAfter
unfoldable pub insert_after : ℕ → Linked → ℕ → ℕ → Option Result
insert_after granted l data_value at =
    if at == 0
    then some (rt_error_invalid_arg, 0, l)
    else (let (item, l1) = get_free_item granted l in
        if item == 0
        then some (no_memory l1)
        else answered item (link_after (put_data l1 item data_value) item at))

-- `if(destroyer && item->data)`: the destroyer is called, and the data is NULL.
unfoldable pub dispose : Bool → Linked → ℕ → Linked
dispose destroyer l item =
    if destroyer && not (l.data_at item == 0)
    then record l {
      destroyed = l.destroyed ++ (l.data_at item ∷ []);
      data_at = store l.data_at item 0;
    }
    else l

-- The links of rtList_RemoveItem
unfoldable pub unlink : Linked → ℕ → Linked
unlink l item =
    let next1 = if l.prev item == 0 then l.next else store l.next (l.prev item) (l.next item) in
    let prev1 = if next1 item == 0 then l.prev else store l.prev (next1 item) (l.prev item) in
    record l {
      next = next1;
      prev = prev1;
      front = if l.front == item then next1 item else l.front;
      back = if l.back == item then prev1 item else l.back;
    }

-- rtList_RemoveItem; the size is a `size_t`, and the list holds the item.
unfoldable pub remove_item : Bool → Linked → ℕ → ℕ × Linked
remove_item destroyer l item =
    if item == 0
    then (rt_error_invalid_arg, l)
    else (let left = set_free_item (dispose destroyer (unlink l item) item) item in
        (rt_ok, record left { size = left.size - 1 }))
