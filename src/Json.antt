-- ===== src/Json.antt =====
-- cJSON, which rtMessage.c is written over and which is not part of the repository: its operations as the
-- code calls them, and what its documentation says of them. An item that the caller gets is never NULL
-- but where the type says so; a text is the list of its bytes.
use rtmessage.Prelude.{
  ℕ, ◌+◌, ◌^◌, ◌<◌, ◌≡◌, Bool, true, Option, none, some, List, [], ◌∷◌, ◌==◌, if◌then◌else◌, leb,
  ◌&&◌, map,
}

pub record CJson : Type 1 where
  -- A cJSON item with all below it, and a number of C's type double
  pub Item : Type 0
  pub Double : Type 0
  -- The comparison of names, which does not regard case
  pub same_key : List ℕ → List ℕ → Bool
  pub create_object : Item
  pub create_array : Item
  pub create_string : List ℕ → Item
  -- The number of an int32_t, by its bit pattern
  pub create_number : ℕ → Item
  pub create_double : Double → Item
  pub create_bool : Bool → Item
  pub parse : List ℕ → Option Item
  pub print : Item → List ℕ
  pub print_buffered : Item → ℕ → List ℕ
  -- cJSON_GetObjectItem, and the object after a change of the item that it gives
  pub get_object_item : Item → List ℕ → Option Item
  pub with_object_item : Item → List ℕ → Item → Item
  pub add_item_to_object : Item → List ℕ → Item → Item
  -- cJSON_ReplaceItemInObject: the object, and the items that the call deletes
  pub replace_item_in_object : Item → List ℕ → Item → Item × List Item
  pub add_item_to_array : Item → Item → Item
  pub array_size : Item → ℕ
  pub array_item : Item → ℕ → Option Item
  pub value_string : Item → Option (List ℕ)
  pub value_int : Item → ℕ
  pub value_double : Item → Double
  pub is_true : Item → Bool

abbrev pub or_else {ℓ} : {A : Type ℓ} → Option A → Option A → Option A
or_else none other = other
or_else (some x) other = some x

-- A letter in lower case
abbrev pub lower : ℕ → ℕ
lower b = if leb b'A' b && leb b b'Z' then b + 32 else b

-- A new item goes behind the others; a read finds the first item of the name.
pub record IsLawful (c : CJson) : Type 0 where
  pub same_key_self : (name : List ℕ) → c.same_key name name ≡ true
  pub same_key-lower :
      (name other : List ℕ) → c.same_key name other ≡ true → map lower name ≡ map lower other
  pub get-create : (name : List ℕ) → c.get_object_item c.create_object name ≡ none
  pub get-add :
      (object item : c.Item) (name key : List ℕ)
      → c.get_object_item (c.add_item_to_object object name item) key
        ≡ or_else (c.get_object_item object key) (if c.same_key key name then some item else none)
  pub get-with :
      (object item old : c.Item) (name key : List ℕ)
      → c.get_object_item object name ≡ some old
      → c.get_object_item (c.with_object_item object name item) key
        ≡ (if c.same_key key name then some item else c.get_object_item object key)
  pub replace-deletes :
      (object item old : c.Item) (name : List ℕ)
      → c.get_object_item object name ≡ some old
      → (c.replace_item_in_object object name item).1 ≡ old ∷ []
  pub value_string-create : (text : List ℕ) → c.value_string (c.create_string text) ≡ some text
  pub value_int-create : (n : ℕ) → n < 2 ^ 32 → c.value_int (c.create_number n) ≡ n
  pub size-create : c.array_size c.create_array ≡ 0
  pub size-add :
      (array item : c.Item) → c.array_size (c.add_item_to_array array item) ≡ c.array_size array + 1
  pub item-add :
      (array item : c.Item) (i : ℕ)
      → c.array_item (c.add_item_to_array array item) i
        ≡ (if i == c.array_size array then some item else c.array_item array i)
