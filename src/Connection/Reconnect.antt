-- ===== src/Connection/Reconnect.antt =====
-- rtConnection_ConnectAndRegister of rtConnection.c: which thread reconnects, the attempts to connect, and
-- the subscriptions that are sent again.
use rtmessage.Prelude.{
  ℕ, zero, suc, ◌+◌, ◌≡◌, ◌≢◌, ◌<◌, refl, ap, sym, ◌∙◌, Bool, true, false, ◌&&◌, not, Option, none,
  some, List, [], ◌∷◌, ◌++◌, append_assoc, append-nil, All, take, ltb, ◌==◌, if◌then◌else◌, arith,
}
use rtmessage.Error.{rt_ok}
use rtmessage.Routing.Tokens.{tokenize, max_tokens}
use rtmessage.Routing.Tokens.Laws.{dots, tokenize-fits}
use rtmessage.Routing.Forest.{Name}
use rtmessage.Routing.Tree.{Tree, add_topic_route}
use rtmessage.Router.Validate.{length-validate_string}
use rtmessage.Router.Subscribe.{add_topic_route-accepted}
use rtmessage.Router.{
  Entry, Router, Request, complete, forward_message, max_expression_len, validate_string,
  find_subscription, subscribe, add_route, on_message_subscribe,
}
use rtmessage.Connection.{Connection, Listener}
use rtmessage.Connection.Reading.{rt_no_connection}

-- Whether a thread that has seen the loss of the connection at a time is the one to reconnect
unfoldable pub first_to_handle : Bool → ℕ → ℕ → Bool
first_to_handle in_progress seen last = not in_progress && ltb last seen

-- The loop over `connect`, with the retries that are left (`none` is no limit) and the last result; `none`
-- waits for `connect`.
unfoldable pub connect_loop : Option ℕ → Bool → List Bool → Option Bool
connect_loop (some zero) last tries = some last
connect_loop (some (suc left)) last [] = none
connect_loop (some (suc left)) last (true ∷ tries) = some true
connect_loop (some (suc left)) last (false ∷ tries) = connect_loop (some left) false tries
connect_loop none last [] = none
connect_loop none last (true ∷ tries) = some true
connect_loop none last (false ∷ tries) = connect_loop none false tries

-- The subscriptions of the listeners in use
unfoldable pub registrations : List (Option Listener) → List Request
registrations [] = []
registrations (none ∷ slots) = registrations slots
registrations (some l ∷ slots) =
    record { add = 1; topic = l.expression; route_id = l.subscription_id } ∷ registrations slots

-- rtConnection_ConnectAndRegister for a socket that `fcntl` and `setsockopt` accept: an error, and the
-- subscriptions that it sends. A thread that is not the first waits until the other is done.
unfoldable pub connect_and_register :
    Connection → Bool → Bool → Option ℕ → List Bool → Option (ℕ × List Request)
connect_and_register con is_first_connect first max_retries tries =
    let connected : Option (ℕ × List Request) = elim (connect_loop max_retries true tries) [
      | none ↦ none
      | some false ↦ some (rt_no_connection, [])
      | some true ↦ some (rt_ok, (if is_first_connect then [] else registrations con.listeners))
    ] in
    if is_first_connect then connected else if first then connected else some (rt_ok, [])

-- The router handles subscriptions of one sender one after the other, each with RT_OK.
unfoldable pub subscribe_all : Router → ℕ → List Request → Option Router
subscribe_all r sender [] = some r
subscribe_all r sender (m ∷ ms) = elim (on_message_subscribe r sender (complete m)) [
  | none ↦ none
  | some (code, r') ↦ if code == rt_ok then subscribe_all r' sender ms else none
]

-- The routes of subscriptions, with their addresses from one on
unfoldable pub routes_from : ℕ → ℕ → List Request → List Entry
routes_from id sender [] = []
routes_from id sender (m ∷ ms) =
    record {
      id = id;
      expression = take max_expression_len m.topic;
      handler = forward_message;
      has_subscription = true;
      subscription_id = m.route_id;
      client = sender;
    }
    ∷ routes_from (id + 1) sender ms

-- Subscriptions with valid expressions of fewer than 32 dots, and each id once
abbrev pub AreNew : List Request → Type 0
AreNew [] = Unit
AreNew (m ∷ ms) =
    (m.add ≡ 1)
    × (validate_string m.topic max_expression_len ≡ true)
    × (dots m.topic < max_tokens)
    × All (λ n. n.route_id ≢ m.route_id) ms
    × AreNew ms

-- No route of the sender has the id of one of the subscriptions.
abbrev pub AreUnknown : Router → ℕ → List Request → Type 0
AreUnknown r sender ms = All (λ m. find_subscription sender m.route_id r.routes ≡ none) ms

find_subscription-append :
    (sender id : ℕ) (routes : List Entry) (e : Entry)
    → e.subscription_id ≢ id
    → find_subscription sender id routes ≡ none
    → find_subscription sender id (routes ++ (e ∷ [])) ≡ none
unfolding find_subscription
find_subscription-append sender id [] e ne h = ground arith
find_subscription-append sender id (f ∷ fs) e ne h =
    ground (arith, find_subscription-append sender id fs e)

-- The route of a subscription
abbrev route_of : ℕ → ℕ → Request → Entry
route_of id sender m = record {
  id = id;
  expression = take max_expression_len m.topic;
  handler = forward_message;
  has_subscription = true;
  subscription_id = m.route_id;
  client = sender;
}

still_unknown :
    (r r' : Router) (sender : ℕ) (m : Request) (ms : List Request)
    → All (λ n. n.route_id ≢ m.route_id) ms
    → r'.routes ≡ r.routes ++ (route_of r.next_entry sender m ∷ [])
    → AreUnknown r sender ms
    → AreUnknown r' sender ms
still_unknown r r' sender m [] h e a = tt
still_unknown r r' sender m (n ∷ ms) h e a = (
  ap (find_subscription sender n.route_id) e
      ∙ find_subscription-append sender n.route_id r.routes _ (λ q. h.0 (sym q)) a.0,
  still_unknown r r' sender m ms h.1 e a.1,
)

registered :
    (rt : Tree) (path : List ℕ) (route : ℕ) (tokens : List Name)
    → tokenize path ≡ some tokens
    → (rt' : Tree) × (add_topic_route rt path route false ≡ some (rt_ok, rt'))
unfolding add_topic_route
registered rt path route [] e = (rt, rw (add_topic_route, e) refl)
registered rt path route (t ∷ ts) e = add_topic_route-accepted rt path route t ts e

accepted :
    (r : Router) (sender : ℕ) (m : Request)
    → m.add ≡ 1
    → validate_string m.topic max_expression_len ≡ true
    → dots m.topic < max_tokens
    → find_subscription sender m.route_id r.routes ≡ none
    → (r' : Router) × (on_message_subscribe r sender (complete m) ≡ some (rt_ok, r'))
      × (r'.routes ≡ r.routes ++ (route_of r.next_entry sender m ∷ []))
      × (r'.next_entry ≡ r.next_entry + 1)
unfolding on_message_subscribe subscribe add_route
accepted r sender m add valid few new =
    let short = length-validate_string m.topic max_expression_len valid in
    let fits = tokenize-fits m.topic (omega (arith, short)) few in
    let (rt', ok) = registered r.routing_tree m.topic r.next_entry _ fits in
    (
      record {
        routes = r.routes ++ (route_of r.next_entry sender m ∷ []);
        routing_tree = rt';
        next_entry = r.next_entry + 1;
      },
      rw (valid, add, new, subscribe, add_route, ok) refl,
      refl,
      refl,
    )

-- A router takes subscriptions of one sender one after the other, of which it knows none: if each adds, has
-- a valid expression with fewer than 32 dots, and an id that no other of them has, then it answers each
-- with RT_OK, and its routes are followed by one for each, with its id, expression and client, in
-- order.
pub subscribe_all-routes :
    (r : Router) (sender : ℕ) (ms : List Request)
    → AreNew ms
    → AreUnknown r sender ms
    → (r' : Router) × (subscribe_all r sender ms ≡ some r')
      × (r'.routes ≡ r.routes ++ routes_from r.next_entry sender ms)
unfolding subscribe_all routes_from
subscribe_all-routes r sender [] n a = (r, refl, sym (append-nil r.routes))
subscribe_all-routes r sender (m ∷ ms) (add, valid, few, others, n) (new, a) =
    let (r1, ok, one, next) = accepted r sender m add valid few new in
    let (r', all, routes) =
      subscribe_all-routes r1 sender ms n (still_unknown r r1 sender m ms others one a) in
    (
      r',
      rw (subscribe_all, ok) all,
      routes
          ∙ (ap (λ id. r1.routes ++ routes_from id sender ms) next
              ∙ (ap (λ w. w ++ routes_from (r.next_entry + 1) sender ms) one
                  ∙ append_assoc r.routes _ (routes_from (r.next_entry + 1) sender ms))),
    )
