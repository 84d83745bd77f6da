-- ===== src/Message.antt =====
-- rtMessage.c: messages as reference-counted cJSON objects. The allocator's answer is an argument; an
-- int32_t is its bit pattern, and a text the list of its bytes.
pub mod Items
pub mod Fields
pub mod Arrays
use rtmessage.Prelude.{
  ℕ, ◌+◌, ◌-◌, ◌^◌, Bool, true, false, ◌&&◌, Option, none, some, List, [], ◌∷◌, ◌++◌, length, take,
  ltb, leb, ◌==◌, if◌then◌else◌, codes,
}
use rtmessage.Error.{rt_ok, rt_fail, rt_error_invalid_arg, enomem, error_from_errno}
use rtmessage.Header.{c_string}
use rtmessage.Json.{CJson}

-- RT_PROPERTY_NOT_FOUND
abbrev pub rt_property_not_found : ℕ
rt_property_not_found = 6

module _ (c : CJson) where
  open c use {Item, Double}

  -- struct _rtMessage; `none` is a NULL `json`.
  pub record RtMessage : Type 0 where
    pub json : Option Item
    pub count : ℕ

  -- A message that holds an item, with one reference
  unfoldable pub fresh : Option Item → RtMessage
  fresh item = record { json = item; count = 0 + 1 }

  -- The three functions that make a message: an error, and the message.
  abbrev pub Made : Type 0
  Made = ℕ × Option RtMessage

  -- rtMessage_Create
  unfoldable pub create : Bool → Made
  create granted =
      if granted
      then (rt_ok, some (fresh (some c.create_object)))
      else (error_from_errno enomem, none)

  -- rtMessage_Clone; `cJSON_Duplicate` of NULL is NULL.
  unfoldable pub clone : Bool → RtMessage → Made
  clone granted m =
      if granted then (rt_ok, some (fresh m.json)) else (error_from_errno enomem, none)

  -- rtMessage_FromBytes, which does not read `n`: `none` is a read behind the bytes.
  unfoldable pub from_bytes : Bool → List ℕ → Option Made
  from_bytes granted bytes =
      if granted
      then (elim (c_string bytes) [
        | none ↦ none
        | some text ↦ elim (c.parse text) [
          | none ↦ some (rt_fail, none)
          | some item ↦ some (rt_ok, some (fresh (some item)))
        ]
      ])
      else some (error_from_errno enomem, none)

  -- rtMessage_Destroy: the error, and whether the message is freed
  unfoldable pub destroy : Option RtMessage → ℕ × Bool
  destroy none = (rt_fail, false)
  destroy (some m) = if m.count == 0 then (rt_ok, true) else (rt_fail, false)

  -- rtMessage_Retain
  unfoldable pub retain : RtMessage → ℕ × RtMessage
  retain m = (rt_ok, record m { count = m.count + 1 })

  -- rtMessage_Release with no other thread between its steps: the message, if it is not freed
  unfoldable pub release : RtMessage → ℕ × Option RtMessage
  release m =
      let left = if m.count == 0 then m else record m { count = m.count - 1 } in
      if left.count == 0
      then (rt_ok, (if (destroy (some left)).1 then none else some left))
      else (rt_ok, some left)

  -- rtMessage_ToString and rtMessage_ToByteArray: the text and its length
  unfoldable pub to_string : Option RtMessage → ℕ × Option (List ℕ) × ℕ
  to_string none = (rt_fail, none, 0)
  to_string (some m) = elim m.json [
    | none ↦ (rt_fail, none, 0)
    | some item ↦ (rt_ok, some (c.print item), length (c.print item))
  ]

  -- rtMessage_ToByteArrayWithSize
  unfoldable pub to_byte_array_with_size : Item → ℕ → ℕ × List ℕ × ℕ
  to_byte_array_with_size item suggested =
      let text = c.print_buffered item suggested in (rt_ok, text, length text)

  -- `cJSON_GetObjectItem(message->json, name)`
  unfoldable pub get_item : RtMessage → List ℕ → Option Item
  get_item m name = elim m.json [ none ↦ none | some object ↦ c.get_object_item object name ]

  -- `cJSON_AddItemToObject(message->json, name, item)`
  unfoldable pub add_item : RtMessage → List ℕ → Item → RtMessage
  add_item m name item = elim m.json [
    | none ↦ m
    | some object ↦ record m { json = some (c.add_item_to_object object name item) }
  ]

  -- rtMessage_SetString
  unfoldable pub set_string : RtMessage → List ℕ → List ℕ → RtMessage
  set_string m name value = add_item m name (c.create_string value)

  -- rtMessage_SetInt32
  unfoldable pub set_int32 : RtMessage → List ℕ → ℕ → ℕ × RtMessage
  set_int32 m name value = (rt_ok, add_item m name (c.create_number value))

  -- rtMessage_SetBool
  unfoldable pub set_bool : RtMessage → List ℕ → Bool → ℕ × RtMessage
  set_bool m name value = (rt_ok, add_item m name (c.create_bool value))

  -- rtMessage_GetBool
  unfoldable pub get_bool : RtMessage → List ℕ → ℕ × Option Bool
  get_bool m name = elim (get_item m name) [
    | none ↦ (rt_fail, none)
    | some item ↦ (rt_ok, some (c.is_true item))
  ]

  -- rtMessage_SetDouble
  unfoldable pub set_double : RtMessage → List ℕ → Double → ℕ × RtMessage
  set_double m name value = (rt_ok, add_item m name (c.create_double value))

  -- rtMessage_SetMessage
  unfoldable pub set_message : Option RtMessage → List ℕ → Option RtMessage → ℕ × Option RtMessage
  set_message none name other = (rt_error_invalid_arg, none)
  set_message (some m) name none = (rt_error_invalid_arg, some m)
  set_message (some m) name (some other) = elim other.json [
    | none ↦ (rt_ok, some m)
    | some item ↦ (rt_ok, some (add_item m name item))
  ]

  -- rtMessage_GetString: the text is NULL for an item that is no string.
  unfoldable pub get_string : RtMessage → List ℕ → ℕ × Option (List ℕ)
  get_string m name = elim (get_item m name) [
    | none ↦ (rt_fail, none)
    | some item ↦ (rt_ok, c.value_string item)
  ]

  -- rtMessage_GetStringValue for a buffer of `n` bytes, `n` not negative: the error, and the text that the
  -- buffer gets; `none` is a read through NULL.
  unfoldable pub get_string_value : RtMessage → List ℕ → ℕ → Option (ℕ × Option (List ℕ))
  get_string_value m name n = elim (get_item m name) [
    | none ↦ some (rt_fail, none)
    | some item ↦ elim (c.value_string item) [
      | none ↦ none
      | some text ↦
          if leb (length text) n
          then some (rt_ok, (if n == 0 then none else some (take (n - 1) text)))
          else some (rt_fail, none)
    ]
  ]

  -- rtMessage_GetInt32
  unfoldable pub get_int32 : RtMessage → List ℕ → ℕ × Option ℕ
  get_int32 m name = elim (get_item m name) [
    | none ↦ (rt_fail, none)
    | some item ↦ (rt_ok, some (c.value_int item))
  ]

  -- rtMessage_GetDouble
  unfoldable pub get_double : RtMessage → List ℕ → ℕ × Option Double
  get_double m name = elim (get_item m name) [
    | none ↦ (rt_fail, none)
    | some item ↦ (rt_ok, some (c.value_double item))
  ]

  -- rtMessage_GetMessage
  unfoldable pub get_message : Bool → RtMessage → List ℕ → Made
  get_message granted m name = elim (get_item m name) [
    | none ↦ (rt_property_not_found, none)
    | some item ↦
        if granted then (rt_ok, some (fresh (some item))) else (error_from_errno enomem, none)
  ]
