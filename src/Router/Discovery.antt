-- ===== src/Router/Discovery.antt =====
-- The discovery requests of rtrouted.c: the response that each handler makes. A message is a cJSON
-- object, and a response is made if the request asks for one and there is memory.
pub mod Components
use rtmessage.Prelude.{
  ℕ, zero, suc, ◌+◌, ◌^◌, ◌%◌, Bool, not, Option, none, some, List, [], ◌∷◌, length, take, ltb,
  ◌==◌, if◌then◌else◌, bit_and, codes,
}
use rtmessage.Error.{rt_ok, rt_error}
use rtmessage.Header.{Header, flag_request}
use rtmessage.Routing.Forest.{same_name}
use rtmessage.Routing.Tree.{Tree, deref, get_route_topics, get_topic_routes}
use rtmessage.Routing.Resolve.{resolve_partial_path, topic_at}
use rtmessage.Json.{CJson}
use rtmessage.Message.{RtMessage, create, get_string, get_int32, set_int32}
use rtmessage.Message.Items.{add_string, get_string_item}
use rtmessage.Router.{Entry, Router, max_expression_len, validate_string, registered_components}

-- RTM_DISCOVERY_ITEMS, RTM_DISCOVERY_COUNT, RTM_DISCOVERY_EXPRESSION, RTM_DISCOVERY_RESULT
abbrev pub items_key : List ℕ
items_key = codes "items"

abbrev pub count_key : List ℕ
count_key = codes "count"

abbrev pub expression_key : List ℕ
expression_key = codes "expression"

abbrev pub result_key : List ℕ
result_key = codes "result"

abbrev pub is_request : Header → Bool
is_request hdr = not (bit_and hdr.flags flag_request == 0)

-- The first pass of rtRouted_OnMessageDiscoverRegisteredComponents
unfoldable pub count_components : List Entry → ℕ → ℕ
count_components [] counter = counter
count_components (route ∷ rest) counter =
    count_components rest (elim route.expression [
      | [] ↦ counter
      | b ∷ more ↦ if b == b'_' then counter else counter + 1
    ])

-- The route of an address: `none` is one that was freed.
unfoldable pub entry_at : ℕ → List Entry → Option Entry
entry_at id [] = none
entry_at id (entry ∷ entries) =
    let rest = entry_at id entries in if entry.id == id then some entry else rest

-- The first route whose expression is the same on 128 bytes
unfoldable pub entry_of : List ℕ → List Entry → Option Entry
entry_of exp [] = none
entry_of exp (entry ∷ entries) =
    let rest = entry_of exp entries in
    if same_name (take max_expression_len exp) (take max_expression_len entry.expression)
    then some entry
    else rest

-- The full names of topics: `none` is a topic that was freed.
unfoldable pub full_names : Tree → List ℕ → Option (List (List ℕ))
full_names tree [] = some []
full_names tree (id ∷ ids) = elim (topic_at id tree.topics) [
  | none ↦ none
  | some topic ↦ elim (full_names tree ids) [
    | none ↦ none
    | some names ↦ some (topic.full_name ∷ names)
  ]
]

-- The expressions of the routes of a topic, for their tree routes: `none` is a use of a freed one.
unfoldable pub route_expressions : Router → List ℕ → Option (List (List ℕ))
route_expressions r [] = some []
route_expressions r (id ∷ ids) = elim (deref id r.routing_tree.route_list) [
  | none ↦ none
  | some tree_route ↦ elim (entry_at tree_route.route r.routes) [
    | none ↦ none
    | some entry ↦ elim (route_expressions r ids) [
      | none ↦ none
      | some rest ↦ some (entry.expression ∷ rest)
    ]
  ]
]

module _ (c : CJson) where
  -- The loop of a handler that adds texts to its response
  unfoldable pub add_items : List (List ℕ) → RtMessage c → RtMessage c
  add_items [] m = m
  add_items (text ∷ texts) m = add_items texts (add_string c m items_key text).1

  unfoldable pub listing : List (List ℕ) → RtMessage c → RtMessage c
  listing texts m = add_items texts (set_int32 c m count_key (length texts % 2 ^ 32)).1

  -- rtRouted_OnMessageDiscoverRegisteredComponents: the response, if one is sent
  unfoldable pub discover_registered_components : Bool → Header → List Entry → Option (RtMessage c)
  discover_registered_components granted hdr routes =
      if is_request hdr
      then (elim (create c granted).1 [
        | none ↦ none
        | some m ↦ some (
            add_items (registered_components routes)
              (set_int32 c m count_key (count_components routes 0 % 2 ^ 32)).1)
      ])
      else none

  -- The answer to a discovery expression that is there and valid
  unfoldable pub resolve : Tree → List ℕ → RtMessage c → Option (RtMessage c)
  resolve tree exp response = elim (resolve_partial_path tree exp) [
    | none ↦ none
    | some names ↦ some (listing names (set_int32 c response result_key rt_ok).1)
  ]

  -- rtRouted_OnMessageDiscoverWildcardDestinations for a message that was read: `none` is a use of a freed
  -- topic or a write of the tokenizer outside its arrays, and inside it no response.
  unfoldable pub discover_wildcard_destinations :
      Bool → Header → RtMessage c → Tree → Option (Option (RtMessage c))
  discover_wildcard_destinations granted hdr m tree =
      if is_request hdr
      then (elim (create c granted).1 [
        | none ↦ some none
        | some response ↦ elim (get_string c m expression_key).1 [
          | none ↦ some (some (set_int32 c response result_key rt_error).1)
          | some exp ↦
              if validate_string exp max_expression_len
              then (elim (resolve tree exp response) [ none ↦ none | some done ↦ some (some done) ])
              else some (some (set_int32 c response result_key rt_error).1)
        ]
      ])
      else some none

  -- The elements of the object of an expression
  unfoldable pub list_elements : Router → List ℕ → RtMessage c → Option (RtMessage c)
  list_elements r exp response = elim (entry_of exp r.routes) [
    | none ↦ some (set_int32 c response count_key 0).1
    | some entry ↦ elim (get_route_topics r.routing_tree entry.id) [
      | none ↦ none
      | some ids ↦ elim (full_names r.routing_tree ids) [
        | none ↦ none
        | some names ↦ some (listing names response)
      ]
    ]
  ]

  -- rtRouted_OnMessageDiscoverObjectElements for a message that was read. Without an expression there is
  -- no response.
  unfoldable pub discover_object_elements :
      Bool → Header → RtMessage c → Router → Option (Option (RtMessage c))
  discover_object_elements granted hdr m r =
      if is_request hdr
      then (elim (create c granted).1 [
        | none ↦ some none
        | some response ↦ elim (get_string c m expression_key).1 [
          | none ↦ some none
          | some exp ↦ elim (list_elements r exp response) [
            | none ↦ none
            | some done ↦ some (some done)
          ]
        ]
      ])
      else some none

  -- The part of a response for an element without routes
  abbrev no_object : RtMessage c → RtMessage c
  no_object response = (add_string c (set_int32 c response count_key 1).1 items_key []).1

  -- The objects of an element, behind what the response has; `none` is a use of a freed route, or a write of
  -- the tokenizer outside its arrays.
  unfoldable pub trace_element : Router → List ℕ → RtMessage c → Option (RtMessage c)
  trace_element r exp response = elim (get_topic_routes r.routing_tree exp) [
    | none ↦ none
    | some none ↦ some (no_object response)
    | some (some ids) ↦
        let counted = (set_int32 c response count_key (length ids % 2 ^ 32)).1 in
        elim (route_expressions r ids) [
          | none ↦ none
          | some [] ↦ some (no_object counted)
          | some (text ∷ texts) ↦ some (add_items (text ∷ texts) counted)
        ]
  ]

  -- The loop of rtRouted_OnMessageDiscoverElementObjects from an index on: after an item that is no text,
  -- a new response, if there is memory for it, has the error alone.
  unfoldable pub trace_elements :
      Bool → Router → RtMessage c → ℕ → ℕ → RtMessage c → Option (Option (RtMessage c))
  trace_elements again r m zero i response = some (some response)
  trace_elements again r m (suc rounds) i response = elim (get_string_item c m items_key i).1 [
    | none ↦ elim (create c again).1 [
      | none ↦ some none
      | some other ↦ some (some (set_int32 c other result_key rt_error).1)
    ]
    | some exp ↦ elim (trace_element r exp response) [
      | none ↦ none
      | some more ↦ trace_elements again r m rounds (i + 1) more
    ]
  ]

  -- `RT_OK == rtMessage_GetInt32(msgIn, RTM_DISCOVERY_COUNT, &length) && (0 < length)`
  abbrev given_length : RtMessage c → ℕ
  given_length m = elim (get_int32 c m count_key).1 [
    | none ↦ 0
    | some n ↦ if ltb n (2 ^ 31) then n else 0
  ]

  -- rtRouted_OnMessageDiscoverElementObjects for a message that was read
  unfoldable pub discover_element_objects :
      Bool → Bool → Header → RtMessage c → Router → Option (Option (RtMessage c))
  discover_element_objects granted again hdr m r =
      if is_request hdr
      then (elim (create c granted).1 [
        | none ↦ some none
        | some response ↦
            if given_length m == 0
            then some (some (set_int32 c response result_key rt_error).1)
            else trace_elements again r m (given_length m) 0
                (set_int32 c response result_key rt_ok).1
      ])
      else some none
