-- ===== src/Examples/Frames.antt =====
-- Frames that the router writes: the theorems at concrete inputs.
use rtmessage.Prelude.{
  ℕ, ◌≡◌, refl, true, some, none, List, [], ◌∷◌, ◌++◌, drop, replicate, arith, codes, ◌==◌,
  if◌then◌else◌,
}
use rtmessage.Error.{rt_ok, error_from_errno}
use rtmessage.Encoder.{encode_uint16, encode_int32, encode_string, uint16_bytes, int32_bytes}
use rtmessage.Header.{Header, init, c_string, encode, put_fields}
use rtmessage.Router.{Entry, forward_message}
use rtmessage.Router.Forward.{
  Answer, forward, forward_header, taken, refused, send_code, send_message, taken_frame, send_to,
  keep_code, reply_header,
}
use rtmessage.Router.Sending.{others_than, last_refusal, code_or}
use rtmessage.Connection.Answering.{send_message-end_request}
use rtmessage.Connection.{
  Message, begin_request, end_request, Connection, Listener, create_internal, find_by_id,
}
use rtmessage.Connection.Stream.{chunk, interrupted}
use rtmessage.Connection.Reading.{read_connection, deliver}
use rtmessage.Connection.Delivery.{Delivers, forward-Delivers}

-- A client whose listener has the id 12, and its route. The text in the array of the topic has three bytes
-- and the array a remainder of 125.
abbrev listener_12 : Listener
listener_12 = record { expression = codes "A.B"; subscription_id = 12; callback = 70; closure = 80 }

abbrev listening_client : Connection
listening_client = record (create_internal (codes "app.INBOX") 5) {
  listeners = none ∷ some listener_12 ∷ [];
}

abbrev entry_12 : Entry
entry_12 = record {
  id = 7;
  expression = codes "A.B";
  handler = forward_message;
  has_subscription = true;
  subscription_id = 12;
  client = 5;
}

abbrev published : Header
published = record init {
  header_length = 36;
  sequence_number = 17;
  payload_length = 5;
  topic_length = 3;
  reply_topic_length = 1;
  topic = codes "A.B" ++ replicate 125 0;
  reply_topic = codes "R" ++ replicate 127 0;
}

-- The forwarded bytes: the id of the route is in front of the payload's length.
abbrev forwarded : List ℕ
forwarded =
    (170 ∷ 170 ∷ 0 ∷ 2 ∷ 0 ∷ 36 ∷ 0 ∷ 0 ∷ 0 ∷ 17 ∷ 0 ∷ 0 ∷ 0 ∷ 0 ∷ 0 ∷ 0 ∷ 0 ∷ 12 ∷ 0 ∷ 0 ∷ 0 ∷ 5
      ∷ 0 ∷ 0 ∷ 0 ∷ 3 ∷ [])
    ++ (codes "A.B" ++ ((0 ∷ 0 ∷ 0 ∷ 1 ∷ []) ++ (codes "R" ++ ((170 ∷ 170 ∷ []) ++ codes "hello"))))

published_topic : c_string published.topic ≡ some (codes "A.B")
unfolding c_string init
published_topic = refl

published_reply : c_string published.reply_topic ≡ some (codes "R")
unfolding c_string init
published_reply = refl

forwards : forward entry_12 published (codes "hello") taken ≡ some (rt_ok, 5, forwarded)
unfolding forward forward_header send_code encode c_string init put_fields encode_uint16
    encode_int32 encode_string uint16_bytes int32_bytes
forwards = refl

found_12 : find_by_id 12 listening_client.listeners ≡ some listener_12
unfolding find_by_id
found_12 = refl

forward-Delivers_example :
    Delivers listening_client
      (read_connection true
        (replicate 64 0)
        (chunk 170 (170 ∷ 0 ∷ []) ∷ interrupted ∷ chunk 2 (drop 4 forwarded ++ (9 ∷ [])) ∷ []))
      (codes "A.B")
      (codes "R")
      (codes "hello")
      listener_12
unfolding create_internal init
forward-Delivers_example =
    forward-Delivers entry_12 published (codes "A.B") (codes "R") (codes "hello") (9 ∷ [])
      (replicate 64 0) rt_ok 5 forwarded listening_client listener_12 true
      (chunk 170 (170 ∷ 0 ∷ []) ∷ interrupted ∷ chunk 2 (drop 4 forwarded ++ (9 ∷ [])) ∷ [])
      (record {
        sequence_number_lt = omega arith;
        flags_lt = omega arith;
        control_data_lt = omega arith;
        payload_length_lt = omega arith;
      })
      (omega arith) refl refl published_topic published_reply refl (omega arith) refl forwards refl
      found_12 tt refl

-- Of three routes one is the sender's own, and one client is gone.
abbrev listening : List Entry
listening =
    entry_12
    ∷ record entry_12 { id = 8; client = 6 }
    ∷ record entry_12 { id = 9; subscription_id = 3; client = 4 }
    ∷ []

abbrev one_refuses : ℕ → Answer
one_refuses client = if client == 4 then refused 9 else taken

one_frame_lost :
    code_or rt_ok (last_refusal one_refuses (others_than (some 6) listening)) ≡ error_from_errno 9
unfolding code_or last_refusal others_than send_code error_from_errno
one_frame_lost = refl

-- A client whose next request has the number 17
abbrev asking : Connection
asking = record (create_internal (codes "app.INBOX") 5) { sequence_number = 17 }

-- The response: the flag 2, the id 12, and the two topics in each other's place
abbrev responded : List ℕ
responded =
    (170 ∷ 170 ∷ 0 ∷ 2 ∷ 0 ∷ 36 ∷ 0 ∷ 0 ∷ 0 ∷ 17 ∷ 0 ∷ 0 ∷ 0 ∷ 2 ∷ 0 ∷ 0 ∷ 0 ∷ 12 ∷ 0 ∷ 0 ∷ 0 ∷ 5
      ∷ 0 ∷ 0 ∷ 0 ∷ 1 ∷ [])
    ++ (codes "R" ++ ((0 ∷ 0 ∷ 0 ∷ 3 ∷ []) ++ (codes "A.B" ++ ((170 ∷ 170 ∷ []) ++ codes "hello"))))

responds :
    send_message one_refuses none
      (reply_header published (codes "A.B") (codes "R"))
      (codes "R")
      (codes "hello")
      (entry_12 ∷ [])
    ≡ some (rt_ok, (5, responded) ∷ [])
unfolding send_message taken_frame send_to keep_code reply_header encode c_string init put_fields
    encode_uint16 encode_int32 encode_string uint16_bytes int32_bytes
responds = refl

send_message-end_request_example :
    (m : Message) × (left : Connection) × (end_request
        (deliver (begin_request asking).1 (
          read_connection true
            (replicate 64 0)
            (chunk 170 (170 ∷ 0 ∷ []) ∷ interrupted ∷ chunk 2 (drop 4 responded ++ (9 ∷ [])) ∷ [])))
        17
        rt_ok
      ≡ (rt_ok, some m, left))
    × (m.data_bytes ≡ codes "hello")
    × (c_string m.header.topic ≡ some (codes "R"))
unfolding create_internal init
send_message-end_request_example =
    send_message-end_request published (codes "A.B") (codes "R") (codes "hello") (9 ∷ [])
      (replicate 64 0) entry_12 one_refuses rt_ok 5 responded asking true
      (chunk 170 (170 ∷ 0 ∷ []) ∷ interrupted ∷ chunk 2 (drop 4 responded ++ (9 ∷ [])) ∷ [])
      published_topic published_reply (omega arith) (omega arith) refl (omega arith) (omega arith)
      (omega arith) responds tt refl
