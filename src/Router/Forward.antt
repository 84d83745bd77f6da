-- ===== src/Router/Forward.antt =====
-- rtRouted_ForwardMessage and rtRouted_SendMessage of rtrouted.c: the frames that the router writes. The
-- socket of a client takes a frame or refuses it with an error.
use rtmessage.Prelude.{
  ℕ, ◌-◌, Bool, false, Option, none, some, List, [], ◌∷◌, ◌++◌, length, take, ◌==◌, if◌then◌else◌,
}
use rtmessage.Error.{rt_ok, rt_fail, ebadf, error_from_errno}
use rtmessage.Header.{Header, init, encode, c_string, copy_into, max_topic_length, flag_response}
use rtmessage.Routing.Forest.{same_name}
use rtmessage.Routing.Tree.{advisory_topic}
use rtmessage.Router.{Entry}

-- `strncpy` of the text of an array to a fresh one, of which the last byte stays 0
abbrev pub copy_text : List ℕ → List ℕ
copy_text text = copy_into (init.topic) (take (max_topic_length - 1) text)

-- The header that rtRouted_ForwardMessage makes, for the texts of the topics of the one it got
unfoldable pub forward_header : Header → List ℕ → List ℕ → ℕ → Header
forward_header hdr topic reply_topic id = record init {
  version = hdr.version;
  header_length = hdr.header_length;
  sequence_number = hdr.sequence_number;
  control_data = id;
  payload_length = hdr.payload_length;
  topic_length = hdr.topic_length;
  reply_topic_length = hdr.reply_topic_length;
  flags = hdr.flags;
  topic = copy_text topic;
  reply_topic = copy_text reply_topic;
}

-- What `sendmsg` answers: the bytes are taken, or an error.
pub data Answer : Type 0 where
  taken : Answer
  refused : ℕ → Answer

unfoldable pub send_code : Answer → ℕ
send_code taken = rt_ok
send_code (refused e) = if e == ebadf then error_from_errno e else rt_fail

-- rtRouted_ForwardMessage: an error, and the client with the frame that is written to it. `none` is a read
-- behind an array without terminator, or a use of a NULL subscription.
unfoldable pub forward : Entry → Header → List ℕ → Answer → Option (ℕ × ℕ × List ℕ)
forward entry hdr payload answer = elim (c_string hdr.topic) [
  | none ↦ none
  | some topic ↦ elim (c_string hdr.reply_topic) [
    | none ↦ none
    | some reply_topic ↦
        if entry.has_subscription
        then (elim (encode (forward_header hdr topic reply_topic entry.subscription_id)) [
          | none ↦ none
          | some (sent, bytes) ↦ some (send_code answer, entry.client, bytes ++ payload)
        ])
        else none
  ]
]

-- prep_reply_header_from_request, for the texts of the request
unfoldable pub reply_header : Header → List ℕ → List ℕ → Header
reply_header request topic reply_topic = record init {
  version = request.version;
  header_length = request.header_length;
  sequence_number = request.sequence_number;
  flags = flag_response;
  topic = copy_text reply_topic;
  reply_topic = copy_text topic;
  topic_length = request.reply_topic_length;
  reply_topic_length = request.topic_length;
}

-- The code that rtRouted_SendMessage keeps after one client: a later error replaces it.
unfoldable pub keep_code : ℕ → Answer → ℕ
keep_code code taken = code
keep_code code (refused e) = send_code (refused e)

-- A frame that a socket has taken
unfoldable pub taken_frame : Answer → ℕ → List ℕ → List (ℕ × List ℕ)
taken_frame taken client frame = (client, frame) ∷ []
taken_frame (refused e) client frame = []

-- The loop of rtRouted_SendMessage over the routes of the topic, with what each socket answers: the code
-- and the frames that were taken, in order. The header keeps the id of the last route. `none` is a
-- read behind an array without terminator, or a use of a NULL subscription.
unfoldable pub send_to :
    (ℕ → Answer) → Option ℕ → Header → List ℕ → List Entry → ℕ → Option (ℕ × List (ℕ × List ℕ))
send_to answers skip hdr payload [] code = some (code, [])
send_to answers skip hdr payload (entry ∷ entries) code =
    let skipped : Bool = elim skip [ none ↦ false | some client ↦ client == entry.client ] in
    let next = record hdr { control_data = entry.subscription_id } in
    let without = send_to answers skip next payload entries code in
    let with_frame : Option (ℕ × List (ℕ × List ℕ)) = elim (encode next) [
      | none ↦ none
      | some (sent, bytes) ↦
          elim (send_to answers skip sent payload entries (keep_code code (answers entry.client))) [
            | none ↦ none
            | some (final, frames) ↦ some (
              final,
              taken_frame (answers entry.client) entry.client (bytes ++ payload) ++ frames,
            )
          ]
    ] in
    if entry.has_subscription then (if skipped then without else with_frame) else none

-- rtRouted_SendMessage to the routes that were found for the topic of the header
unfoldable pub send_message :
    (ℕ → Answer) → Option ℕ → Header → List ℕ → List ℕ → List Entry → Option (ℕ × List (ℕ × List ℕ))
send_message answers skip hdr topic payload [] =
    some ((if same_name topic advisory_topic then rt_ok else rt_fail), [])
send_message answers skip hdr topic payload (entry ∷ entries) =
    send_to answers skip (record hdr { payload_length = length payload }) payload (entry ∷ entries)
      rt_ok
