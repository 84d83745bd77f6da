-- ===== src/Message/Fields.antt =====
-- What the getters of rtMessage.c read after the setters.
use rtmessage.Prelude.{
  ℕ, ◌-◌, ◌^◌, ◌<◌, ◌≡◌, refl, sym, ap, ◌∙◌, false, none, some, List, [], ◌∷◌, ◌++◌, length, take,
  ltb, ◌==◌, if◌then◌else◌, arith, take-all,
}
use rtmessage.Error.{rt_ok, rt_fail}
use rtmessage.Json.{CJson, IsLawful, or_else}
use rtmessage.Message.{
  RtMessage, get_item, add_item, set_string, set_int32, get_int32, get_string_value,
}
use rtmessage.Message.Items.{topic_key, set_send_topic}

module _ (c : CJson) (laws : IsLawful c) where
  pub get_item-add_item :
      (m : RtMessage c) (object item : c.Item) (name key : List ℕ)
      → m.json ≡ some object
      → get_item c (add_item c m name item) key
        ≡ or_else (get_item c m key) (if c.same_key key name then some item else none)
  unfolding get_item add_item
  get_item-add_item m object item name key e =
      rw (e, add_item, get_item) (laws.get-add object item name key)

  pub json-add_item :
      (m : RtMessage c) (object item : c.Item) (name : List ℕ)
      → m.json ≡ some object
      → (add_item c m name item).json ≡ some (c.add_item_to_object object name item)
  unfolding add_item
  json-add_item m object item name e = rw (e, add_item) refl

  -- A new field is found.
  pub get_item-add_item_self :
      (m : RtMessage c) (object item : c.Item) (name : List ℕ)
      → m.json ≡ some object
      → get_item c m name ≡ none
      → get_item c (add_item c m name item) name ≡ some item
  get_item-add_item_self m object item name e missing =
      ground (arith, get_item-add_item m object item name name e, laws.same_key_self name)

  -- A read of an int32_t after a set: an item that was there before is the one that is read.
  get_int32-set_int32 :
      (m : RtMessage c) (object : c.Item) (name key : List ℕ) (value : ℕ)
      → m.json ≡ some object
      → value < 2 ^ 32
      → get_int32 c (set_int32 c m name value).1 key ≡ elim (get_item c m key) [
        | some old ↦ get_int32 c m key
        | none ↦ if c.same_key key name then (rt_ok, some value) else (rt_fail, none)
      ]
  unfolding get_int32 set_int32
  get_int32-set_int32 m object name key value e l =
      let added = get_item-add_item m object (c.create_number value) name key e in
      ground (arith, added, laws.value_int-create value l)

  -- If `rtMessage_SetInt32` sets a field that was not there and then sets it again, `rtMessage_GetInt32` gives
  -- the value that was set first. A field of another name is read as before.
  get_int32-set_again :
      (m : RtMessage c) (object : c.Item) (name key : List ℕ) (first second : ℕ)
      → m.json ≡ some object
      → first < 2 ^ 32
      → second < 2 ^ 32
      → get_item c m name ≡ none
      → c.same_key key name ≡ false
      → let twice = (set_int32 c (set_int32 c m name first).1 name second).1 in
        (get_int32 c twice name ≡ (rt_ok, some first)) × (get_int32 c twice key ≡ get_int32 c m key)
  unfolding get_int32 set_int32 add_item
  get_int32-set_again m object name key first second e l k missing other =
      let m1 = add_item c m name (c.create_number first) in
      let found = get_item-add_item_self m object (c.create_number first) name e missing in
      let again =
        get_int32-set_int32 m1 _ name name second
          (json-add_item m object (c.create_number first) name e) k in
      let other_1 = get_int32-set_int32 m object name key first e l in
      let other_2 =
        get_int32-set_int32 m1 _ name key second
          (json-add_item m object (c.create_number first) name e) k in
      (
        ground (arith, again, found, laws.value_int-create first l),
        ground (arith, other_1, other_2),
      )

  -- `rtMessage_GetStringValue` of a text that the field was set to. A buffer with room for the terminator gets
  -- the text, one of just the text's size gets it without its last byte and RT_OK, and a smaller one nothing
  -- and RT_FAIL.
  get_string_value-set_string :
      (m : RtMessage c) (object : c.Item) (name text : List ℕ) (n : ℕ)
      → m.json ≡ some object
      → get_item c m name ≡ none
      → get_string_value c (set_string c m name text) name n
        ≡ some (
          (if ltb n (length text) then rt_fail else rt_ok),
          (if ltb n (length text)
              then none
              else if n == 0
              then none
              else if n == length text
              then some (take (length text - 1) text)
              else some text),
        )
  unfolding get_string_value set_string
  get_string_value-set_string m object name text n e missing = ground (
    arith,
    get_item-add_item_self m object (c.create_string text) name e missing,
    laws.value_string-create text,
    take-all (n - 1) text,
  )

  -- `rtMessage_SetSendTopic` of a message that has a topic deletes the old topic's item twice.
  set_send_topic-deletes :
      (m : RtMessage c) (object old : c.Item) (topic : List ℕ)
      → m.json ≡ some object
      → get_item c m topic_key ≡ some old
      → (set_send_topic c m topic).2 ≡ old ∷ old ∷ []
  unfolding set_send_topic get_item
  set_send_topic-deletes m object old topic e found =
      let found' : c.get_object_item object topic_key ≡ some old =
        ap (λ w. elim w [ none ↦ none | some o ↦ c.get_object_item o topic_key ]) (sym e) ∙ found in
      rw (e, set_send_topic, found')
        (ap (λ w. w ++ (old ∷ []))
          (laws.replace-deletes object (c.create_string topic) old topic_key found'))
