-- ===== src/Router/Handlers/Dispatch.antt =====
-- rtRouter_DispatchMessageFromClient of rtrouted.c: the handlers that a message from a client goes to, and
-- what they leave behind for the ones that follow.
use rtmessage.Prelude.{
  ℕ, Bool, true, false, Option, none, some, List, [], ◌∷◌, ◌++◌, ◌==◌, if◌then◌else◌, bit_and,
}
use rtmessage.Error.{rt_ok, ebadf, error_from_errno}
use rtmessage.Header.{Header, flag_request}
use rtmessage.Routing.Tree.{deref, get_topic_routes}
use rtmessage.Json.{CJson}
use rtmessage.Router.{
  Entry, Handler, on_message, forward_message, traffic_monitor_log, clear_client_routes,
  turn_around,
}
use rtmessage.Router.Forward.{Answer, taken_frame, forward}
use rtmessage.Router.Discovery.{entry_at}
use rtmessage.Router.Handlers.{Handled, on_router_message}

module _ (c : CJson) (granted : Bool) (answers : ℕ → Answer) where
  -- `route->message_handler(...)`: its error, and what it leaves; a log that opens has no other effect.
  unfoldable pub handle :
      Handled → ℕ → Header → List ℕ → List ℕ → Entry → Handler → Option (ℕ × Handled)
  handle h sender hdr topic payload entry forward_message =
      elim (forward entry hdr payload (answers entry.client)) [
        | none ↦ none
        | some (code, client, frame) ↦
            some (code, record h { frames = h.frames ++ taken_frame (answers client) client frame })
      ]
  handle h sender hdr topic payload entry traffic_monitor_log =
      if entry.has_subscription then some (rt_ok, h) else none
  handle h sender hdr topic payload entry on_message =
      elim (on_router_message c granted answers h sender hdr topic payload) [
        | none ↦ none
        | some h' ↦ some (rt_ok, h')
      ]

  -- The test of the error of a handler
  unfoldable pub after_handler : ℕ → Handled → ℕ → Handled
  after_handler sender h code =
      if code == error_from_errno ebadf
      then record h { router = clear_client_routes h.router sender }
      else h

  -- The loop over the tree routes of the topic. The pointer to the next is read before the handler runs, so
  -- that a handler which frees the next one's route leaves a pointer to freed memory.
  unfoldable pub dispatch_loop : Handled → ℕ → Header → List ℕ → List ℕ → List ℕ → Option Handled
  dispatch_loop h sender hdr topic payload [] = some h
  dispatch_loop h sender hdr topic payload (id ∷ ids) =
      elim (deref id h.router.routing_tree.route_list) [
        | none ↦ none
        | some tree_route ↦ elim (entry_at tree_route.route h.router.routes) [
          | none ↦ none
          | some entry ↦ elim (handle h sender hdr topic payload entry entry.handler) [
            | none ↦ none
            | some (code, h') ↦
                dispatch_loop (after_handler sender h' code) sender hdr topic payload ids
          ]
        ]
      ]

  -- A round of rtRouter_DispatchMessageFromClient: whether a route was found, and what its handlers leave
  unfoldable pub dispatch_round : Handled → ℕ → Header → List ℕ → List ℕ → Option (Bool × Handled)
  dispatch_round h sender hdr topic payload = elim (get_topic_routes h.router.routing_tree topic) [
    | none ↦ none
    | some none ↦ some (false, h)
    | some (some []) ↦ some (false, h)
    | some (some (id ∷ ids)) ↦ elim (dispatch_loop h sender hdr topic payload (id ∷ ids)) [
      | none ↦ none
      | some h' ↦ some (true, h')
    ]
  ]

  -- rtRouter_DispatchMessageFromClient: a request that no route was found for goes back to its reply topic.
  unfoldable pub dispatch_message : Handled → ℕ → Header → List ℕ → List ℕ → List ℕ → Option Handled
  dispatch_message h sender hdr topic reply_topic payload =
      elim (dispatch_round h sender hdr topic payload) [
        | none ↦ none
        | some (true, h') ↦ some h'
        | some (false, h') ↦
            if bit_and hdr.flags flag_request == 0
            then some h'
            else (elim (dispatch_round h' sender (turn_around hdr reply_topic) reply_topic []) [
              | none ↦ none
              | some (found, h'') ↦ some h''
            ])
      ]
