-- ===== src/Message/Items.antt =====
-- rtMessage.c: the topic, the arrays and the binary data of a message.
use rtmessage.Prelude.{
  ℕ, ◌^◌, Bool, ◌&&◌, Option, none, some, List, [], ◌∷◌, ◌++◌, ltb, leb, ◌==◌, if◌then◌else◌, codes,
}
use rtmessage.Error.{rt_ok, rt_fail, rt_error_invalid_arg, enomem, error_from_errno}
use rtmessage.Base64
use rtmessage.Json.{CJson}
use rtmessage.Message.{
  RtMessage, Made, fresh, get_item, add_item, set_string, rt_property_not_found,
}

-- "_topic"
abbrev pub topic_key : List ℕ
topic_key = codes "_topic"

module _ (c : CJson) where
  open c use {Item}

  -- rtMessage_GetSendTopic: the text that is copied; `none` is a read through NULL.
  unfoldable pub get_send_topic : RtMessage c → Option (ℕ × Option (List ℕ))
  get_send_topic m = elim (get_item c m topic_key) [
    | none ↦ some (rt_fail, none)
    | some item ↦ elim (c.value_string item) [ none ↦ none | some text ↦ some (rt_ok, some text) ]
  ]

  -- rtMessage_SetSendTopic: an error, the message and the items that are deleted, in order
  unfoldable pub set_send_topic : RtMessage c → List ℕ → ℕ × RtMessage c × List Item
  set_send_topic m topic = elim m.json [
    | none ↦ (rt_ok, m, [])
    | some object ↦ elim (c.get_object_item object topic_key) [
      | none ↦ (rt_ok, add_item c m topic_key (c.create_string topic), [])
      | some old ↦
          let (replaced, deleted) =
            c.replace_item_in_object object topic_key (c.create_string topic) in
          (rt_ok, record m { json = some replaced }, deleted ++ (old ∷ []))
    ]
  ]

  -- rtMessage_GetBinaryData: the error and the block; `none` is a read through NULL or outside the text.
  unfoldable pub get_binary_data : Bool → RtMessage c → List ℕ → Option (ℕ × Option (List ℕ))
  get_binary_data granted m name = elim (get_item c m name) [
    | none ↦ some (rt_fail, none)
    | some item ↦ elim (c.value_string item) [
      | none ↦ none
      | some text ↦ elim (Base64.decode granted text) [
        | Base64.outside ↦ none
        | Base64.returned code block ↦ some ((if code == rt_ok then rt_ok else rt_fail), block)
      ]
    ]
  ]

  -- The array of a name, which is made if it is not there, with one item more
  unfoldable pub append_item : RtMessage c → List ℕ → Item → RtMessage c
  append_item m name item = elim m.json [
    | none ↦ m
    | some object ↦ elim (c.get_object_item object name) [
      | none ↦ add_item c m name (c.add_item_to_array c.create_array item)
      | some array ↦ record m {
        json = some (c.with_object_item object name (c.add_item_to_array array item));
      }
    ]
  ]

  -- rtMessage_AddString
  unfoldable pub add_string : RtMessage c → List ℕ → List ℕ → ℕ × RtMessage c
  add_string m name value = (rt_ok, append_item m name (c.create_string value))

  -- rtMessage_AddBinaryData; `none` is a read outside the bytes.
  unfoldable pub add_binary_data : Bool → RtMessage c → List ℕ → List ℕ → Option (ℕ × RtMessage c)
  add_binary_data granted m name bytes = elim (Base64.encode granted bytes) [
    | Base64.outside ↦ none
    | Base64.returned code none ↦ some (rt_fail, m)
    | Base64.returned code (some text) ↦
        some (if code == rt_ok then (rt_ok, set_string c m name text) else (rt_fail, m))
  ]

  -- rtMessage_AddMessage; without an item to add, the array is made all the same.
  unfoldable pub add_message :
      Option (RtMessage c) → List ℕ → Option (RtMessage c) → ℕ × Option (RtMessage c)
  add_message none name other = (rt_error_invalid_arg, none)
  add_message (some m) name none = (rt_error_invalid_arg, some m)
  add_message (some m) name (some other) = elim other.json [
    | some item ↦ (rt_ok, some (append_item m name item))
    | none ↦ elim (get_item c m name) [
      | none ↦ (rt_ok, some (add_item c m name c.create_array))
      | some array ↦ (rt_ok, some m)
    ]
  ]

  -- rtMessage_GetArrayLength
  unfoldable pub get_array_length : RtMessage c → List ℕ → ℕ × ℕ
  get_array_length m name = elim (get_item c m name) [
    | none ↦ (rt_ok, 0)
    | some array ↦ (rt_ok, c.array_size array)
  ]

  -- `idx >= cJSON_GetArraySize(obj)` for an int
  unfoldable pub is_behind : ℕ → Item → Bool
  is_behind i array = ltb i (2 ^ 31) && leb (c.array_size array) i

  -- `cJSON_GetArrayItem(obj, idx)`, NULL for a negative int
  unfoldable pub item_at : Item → ℕ → Option Item
  item_at array i = if ltb i (2 ^ 31) then c.array_item array i else none

  -- rtMessage_GetStringItem
  unfoldable pub get_string_item : RtMessage c → List ℕ → ℕ → ℕ × Option (List ℕ)
  get_string_item m name i = elim (get_item c m name) [
    | none ↦ (rt_property_not_found, none)
    | some array ↦ if is_behind i array then (rt_fail, none) else (elim (item_at array i) [
      | none ↦ (rt_fail, none)
      | some item ↦ (rt_ok, c.value_string item)
    ])
  ]

  -- rtMessage_GetMessageItem
  unfoldable pub get_message_item : Bool → RtMessage c → List ℕ → ℕ → Made c
  get_message_item granted m name i = elim (get_item c m name) [
    | none ↦ (rt_property_not_found, none)
    | some array ↦
        if is_behind i array
        then (rt_fail, none)
        else if granted
        then (rt_ok, some (fresh c (item_at array i)))
        else (error_from_errno enomem, none)
  ]
