-- ===== src/Connection/Calls.antt =====
-- The functions of rtConnection.c that send: SendMessageDirect, SendBinaryDirect, SendResponse,
-- SendBinaryResponse and the functions over them.
use rtmessage.Prelude.{
  ℕ, ◌+◌, ◌%◌, ◌^◌, ◌<◌, ◌≡◌, refl, true, false, Option, none, some, List, [], ◌∷◌, ◌++◌, length,
  All, ◌==◌, if◌then◌else◌, arith,
}
use rtmessage.Error.{rt_ok, error_from_errno}
use rtmessage.Header.{Header, init, c_string, max_topic_length, flag_response}
use rtmessage.Header.Text.{stored_text}
use rtmessage.Header.Encode.{encode-eq}
use rtmessage.Connection.Stream.{enotconn, epipe}
use rtmessage.Connection.Reading.{rt_no_connection, should_reregister}
use rtmessage.Connection.Sending.{
  Attempt, whole, failure, message_header, send_internal, send_loop, send_error, add_frame,
  send_internal-once,
}

-- rtMessageFlags_RawBinary
abbrev pub flag_raw_binary : ℕ
flag_raw_binary = 16

-- What a round of a send function meets: what each `sendmsg` does, what rtConnection_ConnectAndRegister
-- returns, and how many subscriptions that sends, each with a sequence number.
pub record SendRound : Type 0 where
  pub attempts : List Attempt
  pub reconnect : ℕ
  pub resent : ℕ

-- An error and the frames of the message
abbrev pub Sent : Type 0
Sent = ℕ × List (List ℕ)

unfoldable pub behind : List (List ℕ) → Option Sent → Option Sent
behind frames none = none
behind frames (some (code, more)) = some (code, frames ++ more)

-- What a round makes of the result of rtConnection_SendInternal; `again` is the next round.
unfoldable pub after_send : SendRound → Option Sent → Option Sent → Option Sent
after_send round again none = none
after_send round again (some (err, frames)) =
    if err == rt_no_connection
    then if round.reconnect == rt_ok then behind frames again else some (round.reconnect, frames)
    else some (err, frames)

-- The loop of rtConnection_SendMessageDirect and rtConnection_SendBinaryDirect, with the next sequence
-- number of the connection
unfoldable pub send_direct : List ℕ → List ℕ → List ℕ → ℕ → ℕ → List SendRound → Option Sent
send_direct payload topic listener flags number [] = none
send_direct payload topic listener flags number (round ∷ rounds) =
    let again =
      send_direct payload topic listener flags ((number + 1 + round.resent) % 2 ^ 32) rounds in
    after_send round again (send_internal payload topic listener flags number round.attempts)

-- rtConnection_SendMessageDirect of the bytes of a message; rtConnection_SendMessage has no listener.
unfoldable pub send_message_direct : List ℕ → List ℕ → List ℕ → ℕ → List SendRound → Option Sent
send_message_direct payload topic listener number rounds =
    send_direct payload topic listener 0 number rounds

abbrev pub send_message : List ℕ → List ℕ → ℕ → List SendRound → Option Sent
send_message payload topic number rounds = send_message_direct payload topic [] number rounds

-- rtConnection_SendBinaryDirect, and rtConnection_SendBinary without a listener
unfoldable pub send_binary_direct : List ℕ → List ℕ → List ℕ → ℕ → List SendRound → Option Sent
send_binary_direct payload topic listener number rounds =
    send_direct payload topic listener flag_raw_binary number rounds

abbrev pub send_binary : List ℕ → List ℕ → ℕ → List SendRound → Option Sent
send_binary payload topic number rounds = send_binary_direct payload topic [] number rounds

-- The loop of rtConnection_SendResponse, for the texts of the request's header: each round sends with the
-- number of the request.
unfoldable pub send_response : Header → List ℕ → List ℕ → List ℕ → List SendRound → Option Sent
send_response request topic reply_topic payload [] = none
send_response request topic reply_topic payload (round ∷ rounds) =
    let again = send_response request topic reply_topic payload rounds in
    after_send round again
      (send_internal payload reply_topic topic flag_response request.sequence_number round.attempts)

-- rtConnection_SendBinaryResponse
unfoldable pub send_binary_response : Header → List ℕ → List ℕ → List ℕ → List Attempt → Option Sent
send_binary_response request topic reply_topic payload attempts =
    send_internal payload reply_topic topic (flag_response + flag_raw_binary)
      request.sequence_number attempts

lost_codes : (0 < error_from_errno enotconn) × (0 < error_from_errno epipe)
unfolding error_from_errno
lost_codes = (omega arith, omega arith)

reregister-ne-ok :
    (e : ℕ) → should_reregister (error_from_errno e) ≡ true → (error_from_errno e == rt_ok) ≡ false
unfolding should_reregister
reregister-ne-ok e lost = ground (arith, lost_codes.0, lost_codes.1)

-- In a round the connection is lost at the first `sendmsg`, and made again.
abbrev pub IsLost : SendRound → Type 0
IsLost round =
    (e : ℕ) × (more : List Attempt) × (round.attempts ≡ failure e ∷ more)
    × (should_reregister (error_from_errno e) ≡ true)
    × (round.reconnect ≡ rt_ok)

-- The sequence number after these rounds
unfoldable pub number_after : List SendRound → ℕ → ℕ
number_after [] number = number
number_after (round ∷ rounds) number = number_after rounds ((number + 1 + round.resent) % 2 ^ 32)

module _ (payload topic listener array listener_array : List ℕ) (flags : ℕ)
    (t : c_string array ≡ some topic) (u : c_string listener_array ≡ some listener)
    (tl : length topic < max_topic_length) (ul : length listener < max_topic_length) where
  -- The frame of a message with a sequence number
  pub send_internal-whole :
      (number : ℕ)
      → (frame : List ℕ) × ((more : List Attempt)
          → send_internal payload topic listener flags number (whole ∷ more)
            ≡ some (rt_ok, frame ∷ []))
  unfolding message_header init
  send_internal-whole number =
      let enc =
        encode-eq (message_header topic listener flags number (length payload))
          (stored_text array topic t tl) (stored_text listener_array listener u ul) in
      (_, λ more. send_internal-once payload topic listener flags number more _ _ enc)

  pub send_internal-lost :
      (number e : ℕ) (more : List Attempt)
      → should_reregister (error_from_errno e) ≡ true
      → send_internal payload topic listener flags number (failure e ∷ more)
        ≡ some (rt_no_connection, [])
  unfolding message_header init send_loop send_error add_frame send_internal
  send_internal-lost number e more lost =
      let enc =
        encode-eq (message_header topic listener flags number (length payload))
          (stored_text array topic t tl) (stored_text listener_array listener u ul) in
      rw (send_internal, enc, reregister-ne-ok e lost, lost) refl

  -- If the connection is lost at the first `sendmsg` of some rounds, and is made again after each, and the
  -- next `sendmsg` takes the whole frame, then the functions that send a message send one frame and return
  -- RT_OK: the frame with the sequence number that the connection has reached by then, which each
  -- round and each subscription that is sent again moves on by one.
  pub send_direct-lost :
      (rounds more_rounds : List SendRound) (last : SendRound) (more : List Attempt) (number : ℕ)
      → All IsLost rounds
      → last.attempts ≡ whole ∷ more
      → (frame : List ℕ) × (send_internal payload topic listener flags
            (number_after rounds number)
            (whole ∷ [])
          ≡ some (rt_ok, frame ∷ []))
        × (send_direct payload topic listener flags number (rounds ++ (last ∷ more_rounds))
            ≡ some (rt_ok, frame ∷ []))
  unfolding send_direct after_send number_after behind
  send_direct-lost [] more_rounds last more number h l =
      let (frame, sends) = send_internal-whole number in
      (frame, sends [], rw (send_direct, l, sends more) refl)
  send_direct-lost (round ∷ rounds) more_rounds last more number ((e, others, at, gone, again), h)
        l =
      let (frame, sends, rest) =
        send_direct-lost rounds more_rounds last more ((number + 1 + round.resent) % 2 ^ 32) h l in
      (
        frame,
        sends,
        rw (send_direct, at, send_internal-lost number e others gone, again, rest) refl,
      )
