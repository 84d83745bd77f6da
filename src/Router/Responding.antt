-- ===== src/Router/Responding.antt =====
-- What the handlers of rtrouted.c send: rtRouted_SendMessage of a message that is made anew, for a response
-- or for rtRouted_SendAdvisoryMessage.
use rtmessage.Prelude.{
  ℕ, Bool, true, false, ◌&&◌, ◌||◌, Option, none, some, List, [], ◌∷◌, length, ◌==◌, codes,
}
use rtmessage.Header.{Header, init, c_string}
use rtmessage.Routing.Tree.{advisory_topic}
use rtmessage.Json.{CJson}
use rtmessage.Message.{RtMessage, create, set_int32, set_string, to_string}
use rtmessage.Router.{Entry, Router, routes_to}
use rtmessage.Router.Forward.{Answer, copy_text, reply_header, send_message}
use rtmessage.Router.Discovery.{entry_at}

-- Frames with their clients
abbrev pub Frames : Type 0
Frames = List (ℕ × List ℕ)

-- The routes at their addresses: `none` is one that was freed.
unfoldable pub entries_at : List ℕ → List Entry → Option (List Entry)
entries_at [] entries = some []
entries_at (id ∷ ids) entries = elim (entry_at id entries) [
  | none ↦ none
  | some entry ↦ elim (entries_at ids entries) [ none ↦ none | some rest ↦ some (entry ∷ rest) ]
]

-- The routes that `rtRouted_SendMessage` finds for a topic
unfoldable pub entries_for : Router → List ℕ → Option (List Entry)
entries_for r topic = elim (routes_to r.routing_tree topic) [
  | none ↦ none
  | some ids ↦ entries_at ids r.routes
]

-- `strstr`
unfoldable pub starts_with : List ℕ → List ℕ → Bool
starts_with [] text = true
starts_with (a ∷ more) [] = false
starts_with (a ∷ more) (b ∷ bs) = a == b && starts_with more bs

unfoldable pub has_part : List ℕ → List ℕ → Bool
has_part part [] = starts_with part []
has_part part (b ∷ bs) = starts_with part (b ∷ bs) || has_part part bs

-- RTMSG_ADVISE_EVENT, RTMSG_ADVISE_INBOX, rtAdviseClientConnect, rtAdviseClientDisconnect
abbrev pub event_key : List ℕ
event_key = codes "event"

abbrev pub inbox_key : List ℕ
inbox_key = codes "inbox"

abbrev pub client_connect : ℕ
client_connect = 0

abbrev pub client_disconnect : ℕ
client_disconnect = 1

-- The header of rtRouted_SendAdvisoryMessage
unfoldable pub advisory_header : Header
advisory_header = record init {
  topic_length = length advisory_topic;
  topic = copy_text advisory_topic;
}

module _ (c : CJson) (granted : Bool) (answers : ℕ → Answer) where
  -- `rtRouted_SendMessage` of a message, whose code is only logged
  unfoldable pub send : Router → Option ℕ → Header → List ℕ → RtMessage c → Option Frames
  send r skip hdr topic m = elim (to_string c (some m)).1 [
    | none ↦ none
    | some payload ↦ elim (entries_for r topic) [
      | none ↦ none
      | some entries ↦ elim (send_message answers skip hdr topic payload entries) [
        | none ↦ none
        | some (code, frames) ↦ some frames
      ]
    ]
  ]

  -- The end of a handler: the response to a request
  unfoldable pub respond : Router → Header → RtMessage c → Option Frames
  respond r hdr response = elim (c_string hdr.topic) [
    | none ↦ none
    | some topic ↦ elim (c_string hdr.reply_topic) [
      | none ↦ none
      | some reply_topic ↦ send r none (reply_header hdr topic reply_topic) reply_topic response
    ]
  ]

  -- rtRouted_SendAdvisoryMessage
  unfoldable pub send_advisory_message : Router → ℕ → List ℕ → ℕ → Option Frames
  send_advisory_message r client inbox event = elim (create c granted).1 [
    | none ↦ none
    | some m ↦
        send r (some client) advisory_header advisory_topic
          (set_string c (set_int32 c m event_key event).1 inbox_key inbox)
  ]
