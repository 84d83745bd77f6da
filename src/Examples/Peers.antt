-- ===== src/Examples/Peers.antt =====
-- Connections: the theorems at concrete inputs.
use rtmessage.Prelude.{
  ℕ, ◌≡◌, refl, true, some, none, List, [], ◌∷◌, ◌++◌, drop, replicate, arith, codes,
}
use rtmessage.Error.{rt_ok, error_from_errno}
use rtmessage.Encoder.{encode_uint16, encode_int32, encode_string, uint16_bytes, int32_bytes}
use rtmessage.Header.{Header, init, c_string, encode, put_fields}
use rtmessage.Routing.Tokens.{
  tokenize, split_expression, work_bytes, tokenize_loop, take_token, skip_dot,
}
use rtmessage.Router.{max_expression_len, Router, Request, validate_string, find_subscription}
use rtmessage.Routing.Tree.{create}
use rtmessage.Connection.{Connection, Message, create_internal, add_listener, find_by_expression}
use rtmessage.Connection.Listening.{Registers, add_listener-Registers}
use rtmessage.Connection.Stream.{Event, chunk, interrupted, stream}
use rtmessage.Connection.Reading.{should_reregister, read_connection, finished}
use rtmessage.Connection.Sending.{
  whole, failure, send_internal, send_loop, send_error, add_frame, message_header,
  send_internal-twice,
}
use rtmessage.Connection.RoundTrip.{send_internal-read_connection}

-- A frame with the sequence number 17, the flag of a request and the payload "hello".
abbrev head : List ℕ
head =
    170 ∷ 170 ∷ 0 ∷ 2 ∷ 0 ∷ 36 ∷ 0 ∷ 0 ∷ 0 ∷ 17 ∷ 0 ∷ 0 ∷ 0 ∷ 1 ∷ 0 ∷ 0 ∷ 0 ∷ 0 ∷ 0 ∷ 0 ∷ 0 ∷ 5 ∷ 0
    ∷ 0 ∷ 0 ∷ 3 ∷ []

abbrev frame : List ℕ
frame =
    head
    ++ (codes "A.B" ++ ((0 ∷ 0 ∷ 0 ∷ 1 ∷ []) ++ (codes "R" ++ ((170 ∷ 170 ∷ []) ++ codes "hello"))))

-- It arrives in two pieces with an interruption, and one byte of the next.
abbrev arriving : List Event
arriving = chunk 170 (170 ∷ 0 ∷ []) ∷ interrupted ∷ chunk 2 (drop 4 frame ++ (9 ∷ [])) ∷ []

sends_frame :
    send_internal (codes "hello") (codes "A.B") (codes "R") 1 17 (whole ∷ [])
    ≡ some (rt_ok, frame ∷ [])
unfolding send_internal message_header encode c_string init put_fields encode_uint16 encode_int32
    encode_string uint16_bytes int32_bytes send_loop send_error add_frame
sends_frame = refl

topic_array : c_string (codes "A.B" ++ (0 ∷ [])) ≡ some (codes "A.B")
unfolding c_string
topic_array = refl

reply_array : c_string (codes "R" ++ (0 ∷ [])) ≡ some (codes "R")
unfolding c_string
reply_array = refl

send_internal-read_connection_example :
    (m : Message) × (left : List Event) × (read_connection true (replicate 64 0) arriving
      ≡ finished rt_ok (some m) left)
    × (m.data_bytes ≡ codes "hello")
    × (c_string m.header.topic ≡ some (codes "A.B"))
    × (c_string m.header.reply_topic ≡ some (codes "R"))
    × (m.header.flags ≡ 1)
    × (m.header.sequence_number ≡ 17)
    × (stream left ≡ 9 ∷ [])
send_internal-read_connection_example =
    send_internal-read_connection (codes "hello") (codes "A.B") (codes "R")
      (codes "A.B" ++ (0 ∷ [])) (codes "R" ++ (0 ∷ [])) frame (9 ∷ []) (replicate 64 0) 1 17 [] true
      arriving topic_array reply_array (omega arith) (omega arith) (omega arith) (omega arith)
      (omega arith) sends_frame tt refl

abbrev peer : Connection
peer = create_internal (codes "app.INBOX") 5

abbrev router : Router
router = record { routes = []; routing_tree = create; next_entry = 1 }

abbrev other_message : Message
other_message = record { header = record init { sequence_number = 9 }; data_bytes = [] }

abbrev response : Message
response = record {
  header = record init { sequence_number = 1; flags = 2 };
  data_bytes = codes "yes";
}

fresh_expression : find_by_expression (codes "A.B") peer.listeners ≡ none
unfolding create_internal find_by_expression
fresh_expression = refl

valid_expression : validate_string (codes "A.B") max_expression_len ≡ true
unfolding validate_string
valid_expression = refl

tokens_ab : tokenize (codes "A.B") ≡ some (codes "A" ∷ codes "B" ∷ [])
unfolding tokenize split_expression tokenize_loop take_token skip_dot work_bytes
tokens_ab = refl

no_subscription : find_subscription 6 peer.next_id router.routes ≡ none
unfolding find_subscription
no_subscription = refl

add_listener-Registers_example :
    (con' : Connection) × (m : Request) × (r' : Router) × (add_listener peer (codes "A.B") 70 80
      ≡ (rt_ok, con', some m))
    × Registers peer (codes "A.B") 70 80 router 6 con' m r'
unfolding create_internal
add_listener-Registers_example =
    add_listener-Registers peer (codes "A.B") 70 80 router 6 (codes "A") (codes "B" ∷ [])
      fresh_expression (omega arith) tt valid_expression no_subscription tokens_ab

request_bytes :
    (sent : Header) × (bytes : List ℕ) × (encode (message_header (codes "A.B") (codes "R") 1 17 5)
      ≡ some (sent, bytes))
unfolding encode message_header c_string init
request_bytes = (_, _, refl)

send_internal-twice_example :
    send_internal (codes "hello") (codes "A.B") (codes "R") 1 17 (failure 11 ∷ whole ∷ whole ∷ [])
    ≡ some (
      error_from_errno 11,
      (request_bytes.1 ++ codes "hello") ∷ (request_bytes.1 ++ codes "hello") ∷ [],
    )
unfolding error_from_errno should_reregister
send_internal-twice_example =
    send_internal-twice (codes "hello") (codes "A.B") (codes "R") 1 17 11 [] request_bytes.0
      request_bytes.1 request_bytes.2 refl refl
