-- ===== src/Router/Handlers/Failures.antt =====
-- Messages of a client that are forwarded to a closed socket.
use rtmessage.Prelude.{
  ℕ, ◌≡◌, refl, ap, ◌∙◌, true, some, List, [], ◌∷◌, length, ◌<◌, append-nil, arith,
}
use rtmessage.Error.{ebadf, error_from_errno}
use rtmessage.Header.{Header, c_string, encode, init, max_topic_length}
use rtmessage.Header.Text.{c_string-lt, stored_text}
use rtmessage.Header.Encode.{encode-eq}
use rtmessage.Routing.Tree.{Route, deref, get_topic_routes}
use rtmessage.Json.{CJson}
use rtmessage.Router.{Entry, forward_message, clear_client_routes}
use rtmessage.Router.Clients.{Distinct, others, clear_client_routes-others}
use rtmessage.Router.Forward.{taken_frame, Answer, refused, forward_header, send_code}
use rtmessage.Router.Sending.{forward-eq}
use rtmessage.Router.Discovery.{entry_at}
use rtmessage.Router.Handlers.{Handled}
use rtmessage.Router.Handlers.Dispatch.{
  handle, after_handler, dispatch_loop, dispatch_round, dispatch_message,
}

module _ (c : CJson) (answers : ℕ → Answer) where
  handle-refused :
      (h : Handled) (sender e : ℕ) (hdr sent : Header) (topic reply_topic payload bytes : List ℕ)
      (entry : Entry)
      → c_string hdr.topic ≡ some topic
      → c_string hdr.reply_topic ≡ some reply_topic
      → entry.has_subscription ≡ true
      → encode (forward_header hdr topic reply_topic entry.subscription_id) ≡ some (sent, bytes)
      → answers entry.client ≡ refused e
      → handle c true answers h sender hdr topic payload entry forward_message
        ≡ some (send_code (refused e), h)
  unfolding handle taken_frame
  handle-refused h sender e hdr sent topic reply_topic payload bytes entry t u own enc closed =
      let wrote = forward-eq entry hdr payload topic reply_topic _ (refused e) t u own enc in
      rw (handle, closed, wrote, closed, append-nil) refl

  -- If the one route of a topic forwards to a subscribed client whose socket is closed, the header has texts in
  -- arrays of 128 bytes, and no two routes have the same address, the router clears the
  -- routes of the client that sent the message, and keeps all others, among them that one if it is not
  -- the sender's.
  pub dispatch_message-ebadf :
      (h : Handled) (sender id : ℕ) (hdr : Header) (topic reply_topic payload : List ℕ)
      (tree_route : Route) (entry : Entry)
      → c_string hdr.topic ≡ some topic
      → c_string hdr.reply_topic ≡ some reply_topic
      → get_topic_routes h.router.routing_tree topic ≡ some (some (id ∷ []))
      → deref id h.router.routing_tree.route_list ≡ some tree_route
      → entry_at tree_route.route h.router.routes ≡ some entry
      → entry.handler ≡ forward_message
      → entry.has_subscription ≡ true
      → length hdr.topic ≡ max_topic_length
      → length hdr.reply_topic ≡ max_topic_length
      → answers entry.client ≡ refused ebadf
      → Distinct h.router.routes
      → (h' : Handled) × (dispatch_message c true answers h sender hdr topic reply_topic payload
          ≡ some h')
        × (h'.router.routes ≡ others sender h.router.routes)
        × (h'.frames ≡ h.frames)
  unfolding dispatch_message dispatch_round dispatch_loop forward_header init after_handler
      send_code error_from_errno
  dispatch_message-ebadf h sender id hdr topic reply_topic payload tree_route entry t u routes at
        here forwards own lt lr closed distinct =
      let tl : length topic < max_topic_length = omega (arith, c_string-lt hdr.topic topic t) in
      let ul : length reply_topic < max_topic_length =
        omega (arith, c_string-lt hdr.reply_topic reply_topic u) in
      let enc =
        encode-eq (forward_header hdr topic reply_topic entry.subscription_id)
          (stored_text hdr.topic topic t tl) (stored_text hdr.reply_topic reply_topic u ul) in
      let handled =
        ap (handle c true answers h sender hdr topic payload entry) forwards
        ∙ handle-refused h sender ebadf hdr _ topic reply_topic payload _ entry t u own enc
            closed in
      let cleared : Handled = record h { router = clear_client_routes h.router sender } in
      let looped : dispatch_loop c true answers h sender hdr topic payload (id ∷ [])
          ≡ some cleared =
        rw (dispatch_loop, at, here, handled) refl in
      (
        cleared,
        rw (dispatch_message, dispatch_round, routes, looped) refl,
        clear_client_routes-others h.router sender distinct,
        refl,
      )
