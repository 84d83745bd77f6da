-- ===== src/Router/Handlers.antt =====
-- rtRouted_OnMessage of rtrouted.c and its handlers, from the bytes of a message to the responses. One
-- answer of the allocator holds for a whole message. What a handler gives is `none` where it uses a NULL
-- pointer, a freed object or memory that was not written, or writes outside an array.
pub mod Dispatch
pub mod Failures
pub mod Responses
use rtmessage.Prelude.{
  ℕ, ◌%◌, ◌^◌, ◌+◌, ◌<◌, Bool, true, false, ◌&&◌, ◌||◌, not, Option, none, some, List, [], ◌∷◌,
  ◌++◌, length, take, ltb, leb, ◌==◌, if◌then◌else◌, codes,
}
use rtmessage.Error.{rt_ok, rt_error}
use rtmessage.Header.{Header, init, c_string}
use rtmessage.Routing.Forest.{same_name, is_empty}
use rtmessage.Routing.Tree.{Tree, advisory_topic}
use rtmessage.Json.{CJson}
use rtmessage.Message.{
  RtMessage, from_bytes, create, get_string, get_int32, set_int32, set_string, to_string,
}
use rtmessage.Router.{
  Entry, Router, Request, Incoming, incomplete, complete, max_expression_len, validate_string,
  find_subscription, on_message_subscribe, on_message_hello, routes_to,
}
use rtmessage.Router.Responding.{
  Frames, entries_for, has_part, client_connect, inbox_key, respond, send_advisory_message,
}
use rtmessage.Router.Forward.{Answer, copy_text, reply_header, send_message}
use rtmessage.Router.Discovery.{
  is_request, result_key, entry_at, discover_registered_components, discover_wildcard_destinations,
  discover_object_elements, discover_element_objects,
}

-- The switches of rtRouted_OnMessageDiagnostics
pub record Switches : Type 0 where
  pub verbose_logs : Bool
  pub traffic_monitor : Bool
  pub is_running : Bool

-- The router, its switches, the inbox of the sender, and what has been sent
pub record Handled : Type 0 where
  pub router : Router
  pub switches : Switches
  pub inbox : List ℕ
  pub frames : Frames

-- Whether a subscription makes the expression the sender's inbox
unfoldable pub names_inbox : Router → ℕ → List ℕ → Incoming → Bool
names_inbox r sender inbox incoming = elim incoming [
  | complete m ↦
      validate_string m.topic max_expression_len
      && m.add == 1
      && (elim (find_subscription sender m.route_id r.routes) [
        | none ↦ has_part (codes ".INBOX.") m.topic && is_empty inbox
        | some route ↦ false
      ])
  | _ ↦ false
]

unfoldable pub topic_of : Incoming → List ℕ
topic_of incoming = elim incoming [ complete m ↦ m.topic | _ ↦ [] ]

-- The commands of rtrouter_diag.h that change a switch
unfoldable pub run_command : List ℕ → Switches → Switches
run_command cmd s =
    if same_name (codes "enableVerboseLogs") cmd
    then record s { verbose_logs = true }
    else if same_name (codes "disableVerboseLogs") cmd
    then record s { verbose_logs = false }
    else if same_name (codes "enableTrafficMonitor") cmd
    then record s { traffic_monitor = true }
    else if same_name (codes "disableTrafficMonitor") cmd
    then record s { traffic_monitor = false }
    else if same_name (codes "shutdown") cmd
    then record s { is_running = false }
    else s

module _ (c : CJson) (granted : Bool) (answers : ℕ → Answer) where
  -- The fields of a subscription; a topic that is no text is not valid.
  unfoldable pub incoming_of : RtMessage c → Incoming
  incoming_of m = elim (get_int32 c m (codes "add")).1 [
    | none ↦ incomplete
    | some add ↦ elim (get_string c m (codes "topic")).1 [
      | none ↦ incomplete
      | some topic ↦ elim (get_int32 c m (codes "route_id")).1 [
        | none ↦ incomplete
        | some id ↦ complete (record { add = add; topic = topic; route_id = id })
      ]
    ]
  ]

  -- The advisory message of a subscription, if one is sent, and the inbox of the sender after it
  unfoldable pub advise_inbox : Router → Router → ℕ → List ℕ → Incoming → Option (List ℕ × Frames)
  advise_inbox before after sender inbox incoming =
      if names_inbox before sender inbox incoming
      then (elim (send_advisory_message c granted answers after sender (topic_of incoming)
          client_connect) [ none ↦ none | some frames ↦ some (topic_of incoming, frames) ])
      else some (inbox, [])

  -- The response of rtRouted_OnMessageSubscribe
  unfoldable pub respond_result : Router → Header → ℕ → Option Frames
  respond_result r hdr rc =
      if is_request hdr
      then (elim (create c granted).1 [
        | none ↦ none
        | some m ↦ respond c granted answers r hdr (set_int32 c m result_key rc).1
      ])
      else some []

  -- rtRouted_OnMessageSubscribe, for the message that was read
  unfoldable pub subscribe_read : Handled → ℕ → Header → Incoming → Option Handled
  subscribe_read h sender hdr incoming = elim (on_message_subscribe h.router sender incoming) [
    | none ↦ none
    | some (rc, r) ↦ elim (advise_inbox h.router r sender h.inbox incoming) [
      | none ↦ none
      | some (inbox, advised) ↦ elim (respond_result r hdr rc) [
        | none ↦ none
        | some sent ↦
            some (record h { router = r; inbox = inbox; frames = h.frames ++ (advised ++ sent) })
      ]
    ]
  ]

  -- rtRouted_OnMessageSubscribe. A message that was not read is NULL, and is released all the same.
  unfoldable pub on_subscribe : Handled → ℕ → Header → List ℕ → Option Handled
  on_subscribe h sender hdr payload = elim (from_bytes c granted payload) [
    | none ↦ none
    | some (code, none) ↦ none
    | some (code, some m) ↦ subscribe_read h sender hdr (incoming_of m)
  ]

  -- rtRouted_OnMessageHello; an inbox that is not there is NULL in rtRouted_AddRoute.
  unfoldable pub on_hello : Handled → ℕ → List ℕ → Option Handled
  on_hello h sender payload = elim (from_bytes c granted payload) [
    | none ↦ none
    | some (code, none) ↦ some h
    | some (code, some m) ↦ elim (get_string c m inbox_key).1 [
      | none ↦ none
      | some inbox ↦ elim (on_message_hello h.router sender inbox) [
        | none ↦ none
        | some r ↦ some (record h { router = r })
      ]
    ]
  ]

  -- What is left of a handler once it has made its response, if any
  unfoldable pub answer : Handled → Header → Option (RtMessage c) → Option Handled
  answer h hdr none = some h
  answer h hdr (some response) = elim (respond c granted answers h.router hdr response) [
    | none ↦ none
    | some sent ↦ some (record h { frames = h.frames ++ sent })
  ]

  -- A handler that reads its message first, and returns if it cannot
  unfoldable pub discover :
      (RtMessage c → Option (Option (RtMessage c))) → Handled → Header → List ℕ → Option Handled
  discover make h hdr payload = elim (from_bytes c granted payload) [
    | none ↦ none
    | some (code, none) ↦ some h
    | some (code, some m) ↦ elim (make m) [ none ↦ none | some response ↦ answer h hdr response ]
  ]

  -- rtRouted_OnMessageDiagnostics: a message that was not read is NULL and is read from, and without a
  -- command the pointer to it was not written.
  unfoldable pub on_diagnostics : Handled → List ℕ → Option Handled
  on_diagnostics h payload = elim (from_bytes c granted payload) [
    | none ↦ none
    | some (code, none) ↦ none
    | some (code, some m) ↦ elim (get_string c m (codes "_RTROUTED.INBOX.DIAG")).1 [
      | none ↦ none
      | some cmd ↦ some (record h { switches = run_command cmd h.switches })
    ]
  ]

  -- rtRouted_OnMessage, for the text of the topic in the header
  unfoldable pub on_router_message : Handled → ℕ → Header → List ℕ → List ℕ → Option Handled
  on_router_message h sender hdr topic payload =
      if same_name topic (codes "_RTROUTED.INBOX.SUBSCRIBE")
      then on_subscribe h sender hdr payload
      else if same_name topic (codes "_RTROUTED.INBOX.HELLO")
      then on_hello h sender payload
      else if same_name topic (codes "_registered_components")
      then answer h hdr (discover_registered_components c granted hdr h.router.routes)
      else if same_name topic (codes "_RTROUTED.INBOX.QUERY")
      then discover (λ m. discover_wildcard_destinations c granted hdr m h.router.routing_tree) h
          hdr payload
      else if same_name topic (codes "_enumerate_elements")
      then discover (λ m. discover_object_elements c granted hdr m h.router) h hdr payload
      else if same_name topic (codes "_trace_origin_object")
      then discover (λ m. discover_element_objects c granted granted hdr m h.router) h hdr payload
      else if same_name topic (codes "_RTROUTED.INBOX.DIAG")
      then on_diagnostics h payload
      else some h
