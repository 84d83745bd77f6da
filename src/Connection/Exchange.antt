-- ===== src/Connection/Exchange.antt =====
-- rtConnection_SendRequestInternal of rtConnection.c: the rounds of a request, each with its frame, its
-- wait and its end, and what they do to the mutex of the connection.
pub mod Guarding
pub mod Resending
use rtmessage.Prelude.{
  ℕ, ◌+◌, ◌%◌, ◌^◌, Bool, true, false, Option, none, some, List, [], ◌∷◌, ◌++◌, ◌==◌, if◌then◌else◌,
}
use rtmessage.Error.{rt_ok}
use rtmessage.Header.{flag_request}
use rtmessage.Connection.{Message, Connection, begin_request, end_request}
use rtmessage.Connection.Requests.{read_all}
use rtmessage.Connection.Reading.{rt_no_connection}
use rtmessage.Connection.Sending.{Attempt, send_internal}
use rtmessage.Connection.Calls.{flag_raw_binary}
use rtmessage.Connection.Nested.{ReadEnd, nested_wait}

-- Where the wait is: in another thread than the reader's, with what rtSemaphore_TimedWait returns and the
-- messages that the reader thread gets until then, or in the reader thread.
pub data Wait : Type 0 where
  on_semaphore : ℕ → List Message → Wait
  reading : List ReadEnd → Wait

-- The code of the wait, the timeout that is left, and the connection
unfoldable pub wait_for : ℕ → ℕ → Connection → Wait → Option (ℕ × ℕ × Connection)
wait_for number timeout con (on_semaphore code messages) =
    some (code, timeout, read_all con messages)
wait_for number timeout con (reading ends) = nested_wait number timeout con ends

-- What a round meets: what each `sendmsg` does, the wait, what rtConnection_ConnectAndRegister returns, and how
-- many subscriptions that sends, each with a sequence number.
pub record RequestRound : Type 0 where
  pub attempts : List Attempt
  pub wait : Wait
  pub reconnect : ℕ
  pub resent : ℕ

-- The calls of pthread_mutex_lock and pthread_mutex_unlock, and the changes of the list of pending requests
pub data Step : Type 0 where
  locks unlocks pushes removes : Step

-- The steps of a round, if the message was sent or not, and if the wait returned RT_OK or not
unfoldable pub round_steps : Bool → Bool → List Step
round_steps false waited = locks ∷ pushes ∷ removes ∷ unlocks ∷ []
round_steps true false = locks ∷ pushes ∷ unlocks ∷ removes ∷ unlocks ∷ []
round_steps true true = locks ∷ pushes ∷ unlocks ∷ locks ∷ removes ∷ unlocks ∷ []

-- How a request, or a round of it, ends: an error, the response, the connection, the timeout that is left,
-- the frames that were sent, and the steps.
pub record RequestEnd : Type 0 where
  pub code : ℕ
  pub response : Option Message
  pub left : Connection
  pub timeout : ℕ
  pub frames : List (List ℕ)
  pub steps : List Step

-- From the label dequeue_and_continue to the reconnect: `waited` is what the wait, or the sending, returned.
unfoldable pub dequeue : ℕ → ℕ → ℕ → Connection → List (List ℕ) → List Step → RequestEnd
dequeue number waited timeout con frames steps =
    let (code, response, left) = end_request con number waited in
    record {
      code = code;
      response = response;
      left = left;
      timeout = timeout;
      frames = frames;
      steps = steps;
    }

-- A round up to the reconnect; `none` waits.
unfoldable pub request_round :
    List ℕ → List ℕ → ℕ → ℕ → Connection → RequestRound → Option RequestEnd
request_round payload topic flags timeout con round =
    let (number, begun) = begin_request con in
    elim (send_internal payload topic con.inbox_name (flag_request + flags) number round.attempts) [
      | none ↦ none
      | some (err, frames) ↦
          if err == rt_ok
          then (elim (wait_for number timeout begun round.wait) [
            | none ↦ none
            | some (waited, timeout_left, con') ↦ some (
                dequeue number waited timeout_left con' frames (round_steps true (waited == rt_ok)))
          ])
          else some (dequeue number err timeout begun frames (round_steps false false))
    ]

-- A request that starts where a round ended
unfoldable pub after_round : RequestEnd → Option RequestEnd → Option RequestEnd
after_round first none = none
after_round first (some last) =
    some (record last { frames = first.frames ++ last.frames; steps = first.steps ++ last.steps })

-- The connection after rtConnection_ConnectAndRegister
unfoldable pub reconnected : RequestRound → Connection → Connection
reconnected round con = record con {
  sequence_number = (con.sequence_number + round.resent) % 2 ^ 32;
}

-- rtConnection_SendRequestInternal
unfoldable pub send_request_internal :
    List ℕ → List ℕ → ℕ → ℕ → Connection → List RequestRound → Option RequestEnd
send_request_internal payload topic flags timeout con [] = none
send_request_internal payload topic flags timeout con (round ∷ rounds) =
    elim (request_round payload topic flags timeout con round) [
      | none ↦ none
      | some end ↦
          let again =
            send_request_internal payload topic flags end.timeout (reconnected round end.left)
              rounds in
          if end.code == rt_no_connection
          then if round.reconnect == rt_ok
            then after_round end again
            else some (record end { code = round.reconnect })
          else some end
    ]

-- rtConnection_SendRequest of the bytes of a message, up to the bytes of the response
abbrev pub send_request : List ℕ → List ℕ → ℕ → Connection → List RequestRound → Option RequestEnd
send_request payload topic timeout con rounds =
    send_request_internal payload topic 0 timeout con rounds

-- rtConnection_SendBinaryRequest, up to the bytes of the response
abbrev pub send_binary_request :
    List ℕ → List ℕ → ℕ → Connection → List RequestRound → Option RequestEnd
send_binary_request payload topic timeout con rounds =
    send_request_internal payload topic flag_raw_binary timeout con rounds
