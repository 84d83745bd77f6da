-- ===== src/Router.antt =====
-- rtrouted.c: the routes of the router and what its requests do to them. `routes` is the vector of
-- routes as the list of its items, and a route or a client is known by its address. Sending and
-- logging are left out, and so is what the messages hold besides the fields that are read.
pub mod Forward
pub mod Sending
pub mod Discovery
pub mod Responding
pub mod Handlers
pub mod Validate
pub mod Clients
pub mod Subscribe
use rtmessage.Prelude.{
  ℕ, zero, suc, ◌+◌, ◌-◌, Bool, true, false, ◌&&◌, not, Option, none, some, List, [], ◌∷◌, ◌++◌,
  length, take, get_elem?, ltb, leb, ◌==◌, if◌then◌else◌, bit_and, bit_or,
}
use rtmessage.Error.{rt_ok, rt_error, rt_error_invalid_arg}
use rtmessage.Header.{Header, flag_request, flag_response, flag_undeliverable, copy_into}
use rtmessage.Routing.Forest.{same_name, is_empty}
use rtmessage.Routing.Tree.{Route, Tree, deref, add_topic_route, get_topic_routes}
use rtmessage.Routing.Removal.{remove_tree_route, remove_topic}

-- RTMSG_MAX_EXPRESSION_LEN
abbrev pub max_expression_len : ℕ
max_expression_len = 128

-- The message handlers of a route.
pub data Handler : Type 0 where
  on_message forward_message traffic_monitor_log : Handler

-- rtRouteEntry with its rtSubscription, whose fields are the last two. The router's own routes have NULL
-- for it: `has_subscription` is false then, and the last two fields say nothing.
pub record Entry : Type 0 where
  pub id : ℕ
  pub expression : List ℕ
  pub handler : Handler
  pub has_subscription : Bool
  pub subscription_id : ℕ
  pub client : ℕ

-- `routes` and `routingTree`; `next_entry` is above every address in `routes`.
pub record Router : Type 0 where
  pub routes : List Entry
  pub routing_tree : Tree
  pub next_entry : ℕ

-- validate_string; bytes from 128 on are negative where `char` is signed, and above `~` elsewhere.
unfoldable pub validate_string : List ℕ → ℕ → Bool
validate_string s zero = false
validate_string [] (suc limit) = true
validate_string (c ∷ s) (suc limit) =
    let rest = validate_string s limit in if leb b' ' c && leb c b'~' then rest else false

-- rtRouted_AddRoute. `strncpy` stores at most 128 bytes of the expression. `none` is a write of the tokenizer
-- outside its arrays.
unfoldable pub add_route : Router → Handler → List ℕ → ℕ → ℕ → Option (ℕ × Router)
add_route r handler exp subscription_id client =
    let entry : Entry = record {
      id = r.next_entry;
      expression = take max_expression_len exp;
      handler = handler;
      has_subscription = true;
      subscription_id = subscription_id;
      client = client;
    } in
    elim (add_topic_route r.routing_tree exp entry.id false) [
      | none ↦ none
      | some (rc, tree) ↦ some (
        rt_ok,
        record {
          routes = r.routes ++ (entry ∷ []);
          routing_tree = tree;
          next_entry = r.next_entry + 1;
        },
      )
    ]

-- rtRouted_AddAlias, with `none` as in add_route
unfoldable pub add_alias : Router → List ℕ → Entry → Option (ℕ × Router)
add_alias r exp route = elim (add_topic_route r.routing_tree exp route.id true) [
  | none ↦ none
  | some (rc, tree) ↦ some (rc, record r { routing_tree = tree })
]

-- rtVector_RemoveItem of a route
unfoldable pub remove_route_entry : ℕ → List Entry → List Entry
remove_route_entry id [] = []
remove_route_entry id (entry ∷ entries) =
    let rest = remove_route_entry id entries in if entry.id == id then entries else entry ∷ rest

-- rtRouted_ClearRoute
unfoldable pub clear_route : Router → Entry → Router
clear_route r route = record r {
  routes = remove_route_entry route.id r.routes;
  routing_tree = remove_tree_route r.routing_tree route.id;
}

-- `route->subscription && route->subscription->client == clnt`
unfoldable pub is_of : ℕ → Entry → Bool
is_of client route = route.has_subscription && route.client == client

-- The loop of rtRouted_ClearClientRoutes over the vector `routes` as it is in each round, from an index on
-- and with fuel: the index stays where a route is cleared.
unfoldable pub clear_loop : ℕ → ℕ → ℕ → Router → Router
clear_loop client zero i r = r
clear_loop client (suc fuel) i r = elim (get_elem? r.routes i) [
  | none ↦ r
  | some route ↦
      let mine = is_of client route in
      clear_loop client fuel (if mine then i else i + 1) (if mine then clear_route r route else r)
]

-- rtRouted_ClearClientRoutes: each round takes a route from the vector or goes past one.
unfoldable pub clear_client_routes : Router → ℕ → Router
clear_client_routes r client = clear_loop client (length r.routes) 0 r

-- A subscription message whose fields are all there
pub record Request : Type 0 where
  pub add : ℕ
  pub topic : List ℕ
  pub route_id : ℕ

-- The route of a sender with a subscription id
unfoldable pub find_subscription : ℕ → ℕ → List Entry → Option Entry
find_subscription sender id [] = none
find_subscription sender id (route ∷ rest) =
    let later = find_subscription sender id rest in
    if is_of sender route && route.subscription_id == id then some route else later

-- The route of a sender with an expression, compared on at most 128 bytes
unfoldable pub find_expression : ℕ → List ℕ → List Entry → Option Entry
find_expression sender exp [] = none
find_expression sender exp (route ∷ rest) =
    let later = find_expression sender exp rest in
    if same_name (take max_expression_len route.expression) (take max_expression_len exp)
      && is_of sender route
    then some route
    else later

unfoldable pub subscribe : Router → ℕ → Request → Option (ℕ × Router)
subscribe r sender m = elim (find_subscription sender m.route_id r.routes) [
  | some route ↦ add_alias r m.topic route
  | none ↦ add_route r forward_message m.topic m.route_id sender
]

-- `none` is a use of a freed route, or a write of the tokenizer outside its arrays.
unfoldable pub unsubscribe : Router → ℕ → Request → Option (ℕ × Router)
unsubscribe r sender m = elim (find_expression sender m.topic r.routes) [
  | some route ↦ some (rt_ok, clear_route r route)
  | none ↦ elim (remove_topic r.routing_tree m.topic) [
    | none ↦ none
    | some tree ↦ some (rt_ok, record r { routing_tree = tree })
  ]
]

-- What `rtMessage_FromBytes` and the reads of the fields make of the bytes of a subscription.
pub data Incoming : Type 0 where
  unreadable incomplete : Incoming
  complete : Request → Incoming

-- rtRouted_OnMessageSubscribe without the response: the result code goes into it. `none` is as in unsubscribe.
unfoldable pub on_message_subscribe : Router → ℕ → Incoming → Option (ℕ × Router)
on_message_subscribe r sender unreadable = some (rt_error, r)
on_message_subscribe r sender incomplete = some (rt_error_invalid_arg, r)
on_message_subscribe r sender (complete m) =
    if validate_string m.topic max_expression_len
    then if m.add == 1 then subscribe r sender m else unsubscribe r sender m
    else some (rt_error_invalid_arg, r)

-- rtRouted_OnMessageHello
unfoldable pub on_message_hello : Router → ℕ → List ℕ → Option Router
on_message_hello r sender inbox = elim (add_route r forward_message inbox 0 sender) [
  | none ↦ none
  | some (rc, r') ↦ some r'
]

-- The expressions that rtRouted_OnMessageDiscoverRegisteredComponents lists
unfoldable pub registered_components : List Entry → List (List ℕ)
registered_components [] = []
registered_components (route ∷ rest) =
    let others = registered_components rest in
    elim route.expression [
      | [] ↦ others
      | c ∷ more ↦ if c == b'_' then others else route.expression ∷ others
    ]

-- The routes that a list of tree routes leads to: `none` is a use of a freed one.
unfoldable pub targets : List Route → List ℕ → Option (List ℕ)
targets entries [] = some []
targets entries (id ∷ ids) = elim (deref id entries) [
  | none ↦ none
  | some entry ↦ elim (targets entries ids) [ none ↦ none | some rest ↦ some (entry.route ∷ rest) ]
]

-- The same for the list of a topic, where `none` is also a write of the tokenizer outside its arrays
abbrev pub routes_to : Tree → List ℕ → Option (List ℕ)
routes_to tree topic = elim (get_topic_routes tree topic) [
  | none ↦ none
  | some none ↦ some []
  | some (some ids) ↦ targets tree.route_list ids
]

-- The header of a request that goes back to its sender: the reply topic, with its terminator, is
-- copied over the topic.
unfoldable pub turn_around : Header → List ℕ → Header
turn_around header reply_topic = record header {
  topic = copy_into header.topic (reply_topic ++ (0 ∷ []));
  flags =
      bit_or (bit_or (header.flags - bit_and header.flags flag_request) flag_response)
        flag_undeliverable;
  payload_length = 0;
}

-- rtRouter_DispatchMessageFromClient, up to the handlers: the header that is dispatched, and the
-- routes whose handlers get it, as if no handler changed the routes. The texts are those of the header's arrays.
unfoldable pub dispatch : Tree → Header → List ℕ → List ℕ → Option (Header × List ℕ)
dispatch tree header topic reply_topic = elim (routes_to tree topic) [
  | none ↦ none
  | some (route ∷ routes) ↦ some (header, route ∷ routes)
  | some [] ↦
      if bit_and header.flags flag_request == flag_request
      then (elim (routes_to tree reply_topic) [
        | none ↦ none
        | some routes ↦ some (turn_around header reply_topic, routes)
      ])
      else some (header, [])
]
