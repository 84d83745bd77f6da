-- ===== src/Connection/Exchange/Guarding.antt =====
-- rtConnection_SendRequestInternal: the mutex of the connection and the list of pending requests
use rtmessage.Prelude.{
  ◌≡◌, ◌+◌, ℕ, refl, Bool, true, false, Bool-cases, inl, inr, some, List, [], ◌∷◌, ◌==◌,
  if◌then◌else◌,
}
use rtmessage.Error.{rt_ok}
use rtmessage.Connection.{Connection, begin_request}
use rtmessage.Header.{flag_request}
use rtmessage.Connection.Sending.{send_internal}
use rtmessage.Connection.Exchange.{
  Step, locks, unlocks, pushes, removes, round_steps, RequestRound, RequestEnd, dequeue, wait_for,
  request_round,
}

-- Only the holder of the mutex unlocks it and changes the list, it does not lock it again, and it does not
-- hold it in the end. The first argument is if it holds it now.
unfoldable pub is_guarded : Bool → List Step → Bool
is_guarded true [] = false
is_guarded false [] = true
is_guarded true (locks ∷ steps) = false
is_guarded false (locks ∷ steps) = is_guarded true steps
is_guarded true (unlocks ∷ steps) = is_guarded false steps
is_guarded false (unlocks ∷ steps) = false
is_guarded true (pushes ∷ steps) = is_guarded true steps
is_guarded false (pushes ∷ steps) = false
is_guarded true (removes ∷ steps) = is_guarded true steps
is_guarded false (removes ∷ steps) = false

round_steps-guarded : (waited : Bool) → is_guarded false (round_steps true waited) ≡ waited
unfolding is_guarded round_steps
round_steps-guarded true = refl
round_steps-guarded false = refl

-- A round of a request keeps to the mutex exactly when its message is not sent or its wait returns RT_OK:
-- after a wait with any other code, it changes the list of pending requests without the mutex and
-- unlocks a mutex that it does not hold.
pub request_round-guarded :
    (payload topic : List ℕ) (flags timeout err waited timeout_left : ℕ) (con con' : Connection)
    (round : RequestRound) (frames : List (List ℕ))
    → send_internal payload topic con.inbox_name
        (flag_request + flags)
        (begin_request con).0
        round.attempts
      ≡ some (err, frames)
    → wait_for (begin_request con).0 timeout (begin_request con).1 round.wait
      ≡ some (waited, timeout_left, con')
    → (end : RequestEnd) × (request_round payload topic flags timeout con round ≡ some end)
      × (is_guarded false end.steps ≡ (if err == rt_ok then waited == rt_ok else true))
unfolding request_round dequeue is_guarded round_steps begin_request
request_round-guarded payload topic flags timeout err waited timeout_left con con' round frames
      sends waits =
    elim (Bool-cases (err == rt_ok)) [
      | inl sent ↦ (
        dequeue con.sequence_number waited timeout_left con' frames
            (round_steps true (waited == rt_ok)),
        rw (request_round, sends, sent, waits) refl,
        rw sent (round_steps-guarded (waited == rt_ok)),
      )
      | inr unsent ↦ (
        dequeue con.sequence_number err timeout (begin_request con).1 frames
            (round_steps false false),
        rw (request_round, sends, unsent) refl,
        rw unsent refl,
      )
    ]
