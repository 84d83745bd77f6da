-- ===== src/Connection/RoundTrip.antt =====
-- rtConnection_SendInternal at one end and rtConnection_Read at the other.
use mathlib.Core.Option.{some-injective}
use rtmessage.Prelude.{
  ℕ, ◌^◌, ◌<◌, ◌≡◌, refl, sym, ap, ◌∙◌, Bool, some, List, [], ◌∷◌, ◌++◌, length, arith,
  append_assoc,
}
use rtmessage.Error.{rt_ok}
use rtmessage.Encoder.{u32_mod}
use rtmessage.Header.{init, c_string, max_topic_length}
use rtmessage.Header.Text.{stored_text, stored_length}
use rtmessage.Header.Encode.{encode-eq}
use rtmessage.Connection.{Message}
use rtmessage.Connection.Stream.{Event, IsPlain, stream}
use rtmessage.Connection.Reading.{read_connection, finished}
use rtmessage.Connection.Frame.{read_connection-encode}
use rtmessage.Connection.Sending.{Attempt, whole, message_header, send_internal, send_internal-once}

first_frame : List (List ℕ) → List ℕ
first_frame [] = []
first_frame (frame ∷ frames) = frame

-- If one `sendmsg` sends the whole frame of a message whose texts fit and whose numbers are in range, and
-- that frame and then more arrive in whatever pieces, one call of `rtConnection_Read` ends with RT_OK and
-- the message: the same payload, topic, reply topic, flags and sequence number.
pub send_internal-read_connection :
    (payload topic reply_topic array reply_array frame tail buffer : List ℕ) (flags number : ℕ)
    (more : List Attempt) (running : Bool) (events : List Event)
    → c_string array ≡ some topic
    → c_string reply_array ≡ some reply_topic
    → length topic < max_topic_length
    → length reply_topic < max_topic_length
    → flags < u32_mod
    → number < u32_mod
    → length payload < 2 ^ 31
    → send_internal payload topic reply_topic flags number (whole ∷ more) ≡ some (rt_ok, frame ∷ [])
    → IsPlain events
    → stream events ≡ frame ++ tail
    → (m : Message) × (left : List Event) × (read_connection running buffer events
        ≡ finished rt_ok (some m) left)
      × (m.data_bytes ≡ payload)
      × (c_string m.header.topic ≡ some topic)
      × (c_string m.header.reply_topic ≡ some reply_topic)
      × (m.header.flags ≡ flags)
      × (m.header.sequence_number ≡ number)
      × (stream left ≡ tail)
unfolding message_header init first_frame
send_internal-read_connection payload topic reply_topic array reply_array frame tail buffer flags
      number more running events t u tl ul fl nl pl sends plain arrive =
    let hdr = message_header topic reply_topic flags number (length payload) in
    let t' = stored_text array topic t tl in
    let u' = stored_text reply_array reply_topic u ul in
    let enc = encode-eq hdr t' u' in
    let once = send_internal-once payload topic reply_topic flags number more _ _ enc in
    let same = some-injective _ _ (sym once ∙ sends) in
    let frame_is = ap (λ w. first_frame w.1) same in
    let (m, left, ends, data_same, agrees, rest, behind) =
      read_connection-encode hdr _ topic reply_topic _ payload tail buffer running events
        (record {
          sequence_number_lt = nl;
          flags_lt = fl;
          control_data_lt = omega arith;
          payload_length_lt = omega arith;
        })
        (stored_length topic tl) (stored_length reply_topic ul) t' u' enc refl pl plain
        (arrive ∙ (ap (λ w. w ++ tail) (sym frame_is) ∙ append_assoc _ payload tail)) in
    (
      m, left, ends, data_same, agrees.same_topic, agrees.same_reply_topic, agrees.same_flags,
      agrees.same_sequence_number, behind,
    )
