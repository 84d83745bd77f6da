-- ===== src/Connection/Answering.antt =====
-- A request and the router's response to it.
use mathlib.Core.Option.{some-injective}
use rtmessage.Prelude.{
  ℕ, ◌^◌, ◌<◌, ◌≡◌, refl, sym, ap, ◌∙◌, Bool, none, some, List, [], ◌∷◌, ◌++◌, length, map, arith,
  append_assoc, bit_and, ◌==◌,
}
use rtmessage.Error.{rt_ok}
use rtmessage.Encoder.{u32_mod}
use rtmessage.Header.{Header, init, c_string, max_topic_length, flag_response, flag_undeliverable}
use rtmessage.Header.Text.{stored_text, stored_length}
use rtmessage.Header.Encode.{encode-eq}
use rtmessage.Router.{Entry}
use rtmessage.Router.Forward.{Answer, reply_header, send_message}
use rtmessage.Router.Sending.{others_than, takers, frame_for, send_message-own, send_message-frames}
use rtmessage.Connection.{Connection, Message, begin_request, end_request}
use rtmessage.Connection.Stream.{Event, IsPlain, stream}
use rtmessage.Connection.Reading.{read_connection, deliver}
use rtmessage.Connection.Frame.{read_connection-encode}
use rtmessage.Connection.Requests.{read_all, begin_request-answered}

-- If the only frame was taken, it is that of the only route.
takers-frame :
    (answers : ℕ → Answer) (to_frame : Entry → ℕ × List ℕ) (entry : Entry) {sent : ℕ × List ℕ}
    → map to_frame (takers answers (entry ∷ [])) ≡ sent ∷ []
    → to_frame entry ≡ sent
unfolding takers
takers-frame answers to_frame entry only = grind arith

-- A handler of the router answers a request: it makes a header from the request's and sends a payload to
-- the only route of the request's reply topic. If the request has the sequence number of a client's
-- new request and the client gets that frame in whatever pieces, then after one read the request, whose
-- wait succeeds, ends with RT_OK and that payload, on the reply topic.
pub send_message-end_request :
    (request : Header) (topic reply_topic payload tail buffer : List ℕ) (entry : Entry)
    (answers : ℕ → Answer) (code client : ℕ) (frame : List ℕ) (con : Connection) (running : Bool)
    (events : List Event)
    → c_string request.topic ≡ some topic
    → c_string request.reply_topic ≡ some reply_topic
    → length topic < max_topic_length
    → length reply_topic < max_topic_length
    → request.sequence_number ≡ con.sequence_number
    → con.sequence_number < u32_mod
    → entry.subscription_id < u32_mod
    → length payload < 2 ^ 31
    → send_message answers none
        (reply_header request topic reply_topic)
        reply_topic
        payload
        (entry ∷ [])
      ≡ some (code, (client, frame) ∷ [])
    → IsPlain events
    → stream events ≡ frame ++ tail
    → (m : Message) × (left : Connection) × (end_request
          (deliver (begin_request con).1 (read_connection running buffer events))
          con.sequence_number
          rt_ok
        ≡ (rt_ok, some m, left))
      × (m.data_bytes ≡ payload)
      × (c_string m.header.topic ≡ some reply_topic)
unfolding reply_header init others_than deliver read_all
send_message-end_request request topic reply_topic payload tail buffer entry answers code client
      frame con running events t u tl ul same small id pl sends plain arrive =
    let rh = reply_header request topic reply_topic in
    let hdr : Header = record rh {
      payload_length = length payload;
      control_data = entry.subscription_id;
    } in
    let t' = stored_text request.reply_topic reply_topic u ul in
    let u' = stored_text request.topic topic t tl in
    let enc = encode-eq hdr t' u' in
    let own = send_message-own answers rh reply_topic payload entry sends in
    let wrote =
      send_message-frames answers none rh reply_topic topic payload entry [] t' u' (own, tt) in
    let frame_is =
      takers-frame answers (frame_for hdr reply_topic topic payload) entry
        (ap (λ w. w.1) (some-injective _ _ (sym wrote ∙ sends))) in
    let (m, left, ends, data_same, agrees, rest, behind) =
      read_connection-encode hdr _ reply_topic topic _ payload tail buffer running events
        (record {
          sequence_number_lt = omega (arith, same);
          flags_lt = omega arith;
          control_data_lt = id;
          payload_length_lt = omega arith;
        })
        (stored_length reply_topic ul) (stored_length topic tl) t' u' enc refl pl plain
        (arrive ∙ (ap (λ w. w.1 ++ tail) (sym frame_is) ∙ append_assoc _ payload tail)) in
    let (after, answered) =
      begin_request-answered con [] [] m tt tt (agrees.same_sequence_number ∙ same)
        (ap (λ w. bit_and w flag_response == 0) agrees.same_flags)
        (ap (λ w. bit_and w flag_undeliverable == 0) agrees.same_flags) in
    (
      m,
      after,
      ap (λ w. end_request (deliver (begin_request con).1 w) con.sequence_number rt_ok) ends
          ∙ answered,
      data_same,
      agrees.same_topic,
    )
