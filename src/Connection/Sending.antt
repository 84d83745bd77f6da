-- ===== src/Connection/Sending.antt =====
-- rtConnection_SendInternal of rtConnection.c: the frame of a message, and the attempts to send it.
use rtmessage.Prelude.{
  ◌-◌, ℕ, zero, suc, ◌≡◌, refl, false, Option, none, some, List, [], ◌∷◌, ◌++◌, length, take, ◌==◌,
  if◌then◌else◌,
}
use rtmessage.Error.{rt_ok, rt_fail, error_from_errno}
use rtmessage.Header.{Header, init, encode, copy_into, max_topic_length}
use rtmessage.Connection.Reading.{rt_no_connection, should_reregister}

-- What `sendmsg` did: the whole frame, a part of it, or an error.
pub data Attempt : Type 0 where
  whole part : Attempt
  failure : ℕ → Attempt

-- The header of a message. `strncpy` stores at most 127 bytes of a text.
unfoldable pub message_header : List ℕ → List ℕ → ℕ → ℕ → ℕ → Header
message_header topic reply_topic flags sequence_number payload_length =
    let stored = take (max_topic_length - 1) topic in
    record init {
      payload_length = payload_length;
      topic = copy_into init.topic stored;
      topic_length = length stored;
      reply_topic = copy_into init.reply_topic (take (max_topic_length - 1) reply_topic);
      reply_topic_length = length reply_topic;
      sequence_number = sequence_number;
      flags = flags;
    }

-- `err` after a call of `sendmsg`
unfoldable pub send_error : ℕ → Attempt → ℕ
send_error err whole = err
send_error err part = rt_fail
send_error err (failure e) = error_from_errno e

-- One more frame if it was sent as a whole.
unfoldable pub add_frame :
    List ℕ → Attempt → Option (ℕ × List (List ℕ)) → Option (ℕ × List (List ℕ))
add_frame frame attempt none = none
add_frame frame whole (some (code, frames)) = some (code, frame ∷ frames)
add_frame frame part (some (code, frames)) = some (code, frames)
add_frame frame (failure e) (some (code, frames)) = some (code, frames)

-- The loop, with the number of attempts that are left: an error and the whole frames that were sent;
-- `none` waits for `sendmsg`.
unfoldable pub send_loop : ℕ → ℕ → List ℕ → List Attempt → Option (ℕ × List (List ℕ))
send_loop zero err frame attempts = some (err, [])
send_loop (suc rounds) err frame [] = none
send_loop (suc rounds) err frame (attempt ∷ attempts) =
    let err' = send_error err attempt in
    let rest = send_loop rounds err' frame attempts in
    add_frame frame attempt (
      if err' == rt_ok
      then some (rt_ok, [])
      else if should_reregister err'
      then some (rt_no_connection, [])
      else rest)

-- `max_attempts` is 2, and the first attempt is not counted.
abbrev pub max_sends : ℕ
max_sends = 3

-- rtConnection_SendInternal. The texts have terminators in their arrays, so that the header is encoded.
unfoldable pub send_internal :
    List ℕ → List ℕ → List ℕ → ℕ → ℕ → List Attempt → Option (ℕ × List (List ℕ))
send_internal payload topic reply_topic flags sequence_number attempts =
    elim (encode (message_header topic reply_topic flags sequence_number (length payload))) [
      | none ↦ none
      | some (sent, bytes) ↦ send_loop max_sends rt_ok (bytes ++ payload) attempts
    ]

-- If the first `sendmsg` fails with an error that is not a lost connection and the next two send the whole
-- frame, `rtConnection_SendInternal` has sent the frame twice and returns the error.
pub send_internal-twice :
    (payload topic reply_topic : List ℕ) (flags sequence_number e : ℕ) (more : List Attempt)
    (sent : Header) (bytes : List ℕ)
    → encode (message_header topic reply_topic flags sequence_number (length payload))
      ≡ some (sent, bytes)
    → (error_from_errno e == rt_ok) ≡ false
    → should_reregister (error_from_errno e) ≡ false
    → send_internal payload topic reply_topic flags sequence_number
        (failure e ∷ whole ∷ whole ∷ more)
      ≡ some (error_from_errno e, (bytes ++ payload) ∷ (bytes ++ payload) ∷ [])
unfolding send_internal send_loop send_error add_frame
send_internal-twice payload topic reply_topic flags sequence_number e more sent bytes enc bad kept =
    rw (send_internal, enc, bad, kept) refl

-- If the first `sendmsg` sends the whole frame, that is the only one, and the result is RT_OK.
pub send_internal-once :
    (payload topic reply_topic : List ℕ) (flags sequence_number : ℕ) (more : List Attempt)
    (sent : Header) (bytes : List ℕ)
    → encode (message_header topic reply_topic flags sequence_number (length payload))
      ≡ some (sent, bytes)
    → send_internal payload topic reply_topic flags sequence_number (whole ∷ more)
      ≡ some (rt_ok, (bytes ++ payload) ∷ [])
unfolding send_internal send_loop send_error add_frame
send_internal-once payload topic reply_topic flags sequence_number more sent bytes enc =
    rw (send_internal, enc) refl
