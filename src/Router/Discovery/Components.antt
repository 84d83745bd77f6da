-- ===== src/Router/Discovery/Components.antt =====
-- What a client reads from the response to rtRouted_OnMessageDiscoverRegisteredComponents.
use rtmessage.Prelude.{
  ℕ, ◌+◌, ◌^◌, ◌%◌, ◌<◌, ◌≡◌, refl, ap, ◌∙◌, true, false, Option-cases, Bool-cases, inl, inr, none,
  some, List, [], ◌∷◌, length, get_elem?, get_or, if◌then◌else◌, arith,
}
use rtmessage.Error.{rt_ok, rt_fail}
use rtmessage.Header.{Header}
use rtmessage.Json.{CJson, IsLawful}
use rtmessage.Message.{RtMessage, create, fresh, get_item, add_item, get_int32, set_int32}
use rtmessage.Message.Items.{append_item, add_string, get_array_length, get_string_item}
use rtmessage.Message.Fields.{get_item-add_item, json-add_item, get_item-add_item_self}
use rtmessage.Message.Arrays.{add_strings, get_string_item-add_strings}
use rtmessage.Router.{Entry, registered_components}
use rtmessage.Router.Discovery.{
  items_key, count_key, is_request, count_components, add_items, discover_registered_components,
}

-- The two passes agree.
count_components-registered_components :
    (routes : List Entry) (counter : ℕ)
    → count_components routes counter ≡ counter + length (registered_components routes)
unfolding count_components registered_components
count_components-registered_components [] counter = omega arith
count_components-registered_components (route ∷ rest) counter = ground (
  arith,
  count_components-registered_components rest counter,
  count_components-registered_components rest (counter + 1),
)

module _ (c : CJson) where
  add_items-add_strings :
      (texts : List (List ℕ)) (m : RtMessage c)
      → add_items c texts m ≡ add_strings c m items_key texts
  unfolding add_items add_strings
  add_items-add_strings [] m = refl
  add_items-add_strings (text ∷ texts) m = add_items-add_strings texts _

module _ (c : CJson) (laws : IsLawful c) where
  items-ne-count : c.same_key items_key count_key ≡ false
  items-ne-count = elim (Bool-cases (c.same_key items_key count_key)) [
    | inl same ↦
        let first = ap (λ w. get_or w 0 0) (laws.same_key-lower items_key count_key same) in
        absurd (omega (arith, first))
    | inr other ↦ other
  ]

  count-ne-items : c.same_key count_key items_key ≡ false
  count-ne-items = elim (Bool-cases (c.same_key count_key items_key)) [
    | inl same ↦
        let first = ap (λ w. get_or w 0 0) (laws.same_key-lower count_key items_key same) in
        absurd (omega (arith, first))
    | inr other ↦ other
  ]

  -- A text more in an array keeps the fields of other names.
  get_item-append_item_ne :
      (m : RtMessage c) (name key : List ℕ) (item found : c.Item)
      → c.same_key key name ≡ false
      → get_item c m key ≡ some found
      → get_item c (append_item c m name item) key ≡ some found
  unfolding get_item append_item add_item
  get_item-append_item_ne m name key item found other e = elim (Option-cases m.json) [
    | inl null ↦ ground (arith, null)
    | inr (object, is) ↦ elim (Option-cases (c.get_object_item object name)) [
      | inl missing ↦ ground (
        arith,
        is,
        missing,
        other,
        laws.get-add object (c.add_item_to_array c.create_array item) name key,
      )
      | inr (array, at) ↦ ground (
        arith,
        is,
        at,
        other,
        laws.get-with object (c.add_item_to_array array item) array name key at,
      )
    ]
  ]

  count-add_strings :
      (texts : List (List ℕ)) (m : RtMessage c) (found : c.Item)
      → get_item c m count_key ≡ some found
      → get_item c (add_strings c m items_key texts) count_key ≡ some found
  unfolding add_strings add_string
  count-add_strings [] m found e = e
  count-add_strings (text ∷ texts) m found e =
      count-add_strings texts _ found (
        get_item-append_item_ne m items_key count_key (c.create_string text) found count-ne-items e)

  -- If a request asks for the registered components, there is memory, and at least one route has a name that is
  -- not empty and does not begin with `_`, then the response holds under "count" the number of these
  -- routes, below 2 ^ 31, and its "items" are their names in the order of the routes: a read at an index
  -- gives the name of that place, RT_FAIL behind the last.
  pub discover_registered_components-reads :
      (hdr : Header) (routes : List Entry) (name : List ℕ) (names : List (List ℕ)) (i : ℕ)
      → is_request hdr ≡ true
      → registered_components routes ≡ name ∷ names
      → length (name ∷ names) < 2 ^ 31
      → i < 2 ^ 31
      → (response : RtMessage c) × (discover_registered_components c true hdr routes
          ≡ some response)
        × (get_int32 c response count_key ≡ (rt_ok, some (length (name ∷ names))))
        × (get_array_length c response items_key ≡ (rt_ok, length (name ∷ names)))
        × (get_string_item c response items_key i ≡ elim (get_elem? (name ∷ names) i) [
          | none ↦ (rt_fail, none)
          | some found ↦ (rt_ok, some found)
        ])
  unfolding discover_registered_components create fresh set_int32 get_int32 get_item
  discover_registered_components-reads hdr routes name names i asked listed small l =
      let n = length (name ∷ names) in
      let m0 = fresh c (some c.create_object) in
      let m1 = add_item c m0 count_key (c.create_number n) in
      let counted : count_components routes 0 % 2 ^ 32 ≡ n =
        omega (arith, count_components-registered_components routes 0, ap length listed) in
      let no_count : get_item c m0 count_key ≡ none = laws.get-create count_key in
      let no_items : get_item c m0 items_key ≡ none = laws.get-create items_key in
      let no_items' : get_item c m1 items_key ≡ none = ground (
        arith,
        get_item-add_item c laws m0 c.create_object (c.create_number n) count_key items_key refl,
        no_items,
        items-ne-count,
      ) in
      let has_count : get_item c m1 count_key ≡ some (c.create_number n) =
        get_item-add_item_self c laws m0 c.create_object (c.create_number n) count_key refl
          no_count in
      let (has_length, has_item) =
        get_string_item-add_strings c laws m1
          (c.add_item_to_object c.create_object count_key (c.create_number n)) items_key name names
          i (json-add_item c laws m0 c.create_object (c.create_number n) count_key refl) no_items'
          l in
      let kept = count-add_strings (name ∷ names) m1 _ has_count in
      (
        add_strings c m1 items_key (name ∷ names),
        ap
              (λ b.
                if b
                then some (
                    add_items c (registered_components routes) (
                      add_item c m0 count_key
                        (c.create_number (count_components routes 0 % 2 ^ 32))))
                else none)
              asked
            ∙ ap
                (λ k. some (
                  add_items c (registered_components routes)
                    (add_item c m0 count_key (c.create_number k))))
                counted
            ∙ ap (λ w. some (add_items c w m1)) listed
            ∙ ap some (add_items-add_strings c (name ∷ names) m1),
        ground (arith, kept, laws.value_int-create n),
        has_length,
        has_item,
      )
