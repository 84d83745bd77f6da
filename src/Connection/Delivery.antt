-- ===== src/Connection/Delivery.antt =====
-- A message from the router's handler of a route to the callback of a client's listener.
use mathlib.Core.Option.{some-injective}
use rtmessage.Prelude.{
  ℕ, ◌^◌, ◌<◌, ◌≡◌, sym, ap, ◌∙◌, Bool, true, Option, none, some, List, [], ◌∷◌, ◌++◌, length,
  arith, append_assoc, bit_and, ◌==◌, if◌then◌else◌,
}
use rtmessage.Encoder.{u32_mod}
use rtmessage.Header.{Header, init, c_string, max_topic_length, flag_response}
use rtmessage.Header.Text.{c_string-lt, stored_text, stored_length}
use rtmessage.Header.Encode.{encode-eq}
use rtmessage.Header.Decode.{InRange}
use rtmessage.Router.{Entry}
use rtmessage.Router.Forward.{forward, forward_header, taken}
use rtmessage.Connection.{
  Connection, Listener, Message, find_by_id, on_message_read, run_callback, answer_request,
}
use rtmessage.Router.Sending.{forward-own, forward-eq}
use rtmessage.Connection.Stream.{Event, IsPlain, stream}
use rtmessage.Connection.Reading.{Reading, read_connection, deliver}
use rtmessage.Connection.Frame.{read_connection-encode}

-- A message that is no response waits behind the others; if there are none, it is the next to be taken to
-- its listener.
on_message_read-run_callback :
    (con : Connection) (m : Message) (l : Listener)
    → con.callback_message_list ≡ []
    → (bit_and m.header.flags flag_response == 0) ≡ true
    → find_by_id m.header.control_data con.listeners ≡ some l
    → run_callback (on_message_read con m) ≡ some (some (l.callback, m, l.closure), con)
unfolding run_callback on_message_read
on_message_read-run_callback con m l e plain found =
    let waiting : List Message → Connection = λ w. record con { callback_message_list = w } in
    let call : Option Listener → Option (ℕ × Message × ℕ) =
      λ w. elim w [ none ↦ none | some k ↦ some (k.callback, m, k.closure) ] in
    ap
      (λ b. run_callback (
        if b
        then waiting (con.callback_message_list ++ (m ∷ []))
        else record con { pending_requests_list = answer_request m con.pending_requests_list }))
      plain
    ∙ ap (λ w. run_callback (waiting (w ++ (m ∷ [])))) e
    ∙ ap (λ w. some (call w, waiting [])) found
    ∙ ap (λ w. some (some (l.callback, m, l.closure), waiting w)) (sym e)

-- What the client makes of a frame: one read, and one round of the callback thread.
abbrev pub Delivers : Connection → Reading → List ℕ → List ℕ → List ℕ → Listener → Type 0
Delivers con reading topic reply_topic payload l =
    (m : Message) × (run_callback (deliver con reading)
      ≡ some (some (l.callback, m, l.closure), con))
    × (m.data_bytes ≡ payload)
    × (c_string m.header.topic ≡ some topic)
    × (c_string m.header.reply_topic ≡ some reply_topic)

-- A message that is no response, whose header is in range and says the payload's length, is written by
-- `rtRouted_ForwardMessage` for a route. If a client without waiting messages, whose table has a listener
-- with the route's id, gets that frame in whatever pieces, then after one read its callback thread
-- calls that listener with the same payload, topic and reply topic.
pub forward-Delivers :
    (entry : Entry) (hdr : Header) (topic reply_topic payload tail buffer : List ℕ)
    (code client : ℕ) (frame : List ℕ) (con : Connection) (l : Listener) (running : Bool)
    (events : List Event)
    → InRange hdr
    → entry.subscription_id < u32_mod
    → length hdr.topic ≡ max_topic_length
    → length hdr.reply_topic ≡ max_topic_length
    → c_string hdr.topic ≡ some topic
    → c_string hdr.reply_topic ≡ some reply_topic
    → hdr.payload_length ≡ length payload
    → length payload < 2 ^ 31
    → (bit_and hdr.flags flag_response == 0) ≡ true
    → forward entry hdr payload taken ≡ some (code, client, frame)
    → con.callback_message_list ≡ []
    → find_by_id entry.subscription_id con.listeners ≡ some l
    → IsPlain events
    → stream events ≡ frame ++ tail
    → Delivers con (read_connection running buffer events) topic reply_topic payload l
unfolding forward_header init deliver
forward-Delivers entry hdr topic reply_topic payload tail buffer code client frame con l running
      events r id lt lr t u n pl plain fwd idle found p arrive =
    let tl : length topic < max_topic_length = omega (arith, c_string-lt hdr.topic topic t) in
    let ul : length reply_topic < max_topic_length =
      omega (arith, c_string-lt hdr.reply_topic reply_topic u) in
    let out = forward_header hdr topic reply_topic entry.subscription_id in
    let t' = stored_text hdr.topic topic t tl in
    let u' = stored_text hdr.reply_topic reply_topic u ul in
    let enc = encode-eq out t' u' in
    let own = forward-own entry hdr payload taken fwd in
    let wrote = forward-eq entry hdr payload topic reply_topic _ taken t u own enc in
    let frame_is = ap (λ w. w.2) (some-injective _ _ (sym wrote ∙ fwd)) in
    let (m, left, ends, data_same, agrees, rest, behind) =
      read_connection-encode out _ topic reply_topic _ payload tail buffer running events
        (record {
          sequence_number_lt = r.sequence_number_lt;
          flags_lt = r.flags_lt;
          control_data_lt = id;
          payload_length_lt = r.payload_length_lt;
        })
        (stored_length topic tl) (stored_length reply_topic ul) t' u' enc n pl p
        (arrive ∙ (ap (λ w. w ++ tail) (sym frame_is) ∙ append_assoc _ payload tail)) in
    (
      m,
      ap (λ w. run_callback (deliver con w)) ends
          ∙ on_message_read-run_callback con m l idle
              (ap (λ w. bit_and w flag_response == 0) agrees.same_flags ∙ plain)
              (ap (λ w. find_by_id w con.listeners) agrees.same_control_data ∙ found),
      data_same,
      agrees.same_topic,
      agrees.same_reply_topic,
    )
