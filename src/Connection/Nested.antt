-- ===== src/Connection/Nested.antt =====
-- rtConnection_SendRequestInternal of rtConnection.c in the reader thread: a callback that sends a
-- request reads messages itself until its response has come.
use rtmessage.Prelude.{
  ℕ, ◌+◌, ◌-◌, ◌<◌, ◌≡◌, ◌∙◌, ap, refl, Bool, true, false, Bool-cases, inl, inr, Option, none, some,
  List, [], ◌∷◌, ◌++◌, map, All, ltb, leb, ◌==◌, if◌then◌else◌, arith, bit_and,
}
use rtmessage.Error.{rt_ok, rt_error, rt_error_timeout}
use rtmessage.Header.{flag_response}
use rtmessage.Connection.{Message, PendingRequest, Connection, on_message_read, find_request}
use rtmessage.Connection.Reading.{rt_no_connection}
use rtmessage.Connection.Requests.{
  IsOther, find_request-answer_request, on_message_read-other, on_message_read-response,
}

-- How a call of rtConnection_Read ends: with a message, with RT_OK and no message, or with another code.
-- A number is the milliseconds that have passed by then since the request began.
pub data ReadEnd : Type 0 where
  got : ℕ → Message → ReadEnd
  idle : ℕ → ReadEnd
  failed : ℕ → ReadEnd

-- `0 < sem_value`, for the semaphore of the request
unfoldable pub is_posted : ℕ → Connection → Bool
is_posted number con = elim (find_request number con.pending_requests_list) [
  | none ↦ false
  | some entry ↦ ltb 0 entry.sem
]

-- The loop for nested dispatching, for the request with a number: `ret` after it, the timeout that is left,
-- and the connection; `none` waits for a message. The timeout is not negative.
unfoldable pub nested_wait : ℕ → ℕ → Connection → List ReadEnd → Option (ℕ × ℕ × Connection)
nested_wait number timeout con [] = none
nested_wait number timeout con (failed code ∷ ends) =
    some (if code == rt_no_connection then rt_no_connection else rt_error, timeout, con)
nested_wait number timeout con (idle elapsed ∷ ends) =
    let rest = nested_wait number (timeout - elapsed) con ends in
    if is_posted number con
    then some (rt_ok, timeout, con)
    else if leb timeout elapsed
    then some (rt_error_timeout, timeout, con)
    else rest
nested_wait number timeout con (got elapsed m ∷ ends) =
    let con' = on_message_read con m in
    let rest = nested_wait number (timeout - elapsed) con' ends in
    if is_posted number con'
    then some (rt_ok, timeout, con')
    else if leb timeout elapsed
    then some (rt_error_timeout, timeout, con')
    else rest

-- A message and when it came
abbrev pub Arrival : Type 0
Arrival = ℕ × Message

abbrev pub got_at : Arrival → ReadEnd
got_at (elapsed, m) = got elapsed m

unfoldable pub total : List Arrival → ℕ
total [] = 0
total ((elapsed, m) ∷ arrivals) = elapsed + total arrivals

-- The request waits, and its semaphore was not posted.
abbrev pub IsWaiting : ℕ → Connection → Type 0
IsWaiting number con =
    (entry : PendingRequest) × (find_request number con.pending_requests_list ≡ some entry)
    × (entry.sem ≡ 0)

IsWaiting-is_posted :
    (number : ℕ) (con : Connection) → IsWaiting number con → is_posted number con ≡ false
unfolding is_posted
IsWaiting-is_posted number con (entry, found, zeros) = rw (is_posted, found, zeros) refl

is_posted-response :
    (number : ℕ) (con : Connection) (m : Message)
    → IsWaiting number con
    → m.header.sequence_number ≡ number
    → (bit_and m.header.flags flag_response == 0) ≡ false
    → is_posted number (on_message_read con m) ≡ true
unfolding is_posted
is_posted-response number con m (entry, found, zeros) e response =
    let (answered, f, with_m, count) =
      find_request-answer_request number m entry con.pending_requests_list e found in
    let now = ap (find_request number) (on_message_read-response con m response) ∙ f in
    rw (is_posted, now, count, zeros) refl

-- If the response comes after messages with other numbers, the request that waits ends with
-- RT_ERROR_TIMEOUT exactly when the times of these messages, each since the request began, add up to
-- the timeout or more; with RT_OK else.
pub nested_wait-sum :
    (number timeout elapsed : ℕ) (con : Connection) (others : List Arrival) (m : Message)
    (ends : List ReadEnd)
    → 0 < timeout
    → IsWaiting number con
    → All (λ a. IsOther number a.1) others
    → m.header.sequence_number ≡ number
    → (bit_and m.header.flags flag_response == 0) ≡ false
    → (timeout_left : ℕ) × (left : Connection) × (nested_wait number timeout con
          (map got_at others ++ (got elapsed m ∷ ends))
        ≡ some (if leb timeout (total others) then rt_error_timeout else rt_ok, timeout_left, left))
unfolding nested_wait total
nested_wait-sum number timeout elapsed con [] m ends h (entry, found, zeros) a e response =
    let late : leb timeout 0 ≡ false = ground arith in
    (
      timeout,
      on_message_read con m,
      rw (is_posted-response number con m (entry, found, zeros) e response, late) refl,
    )
nested_wait-sum number timeout elapsed con ((t, other) ∷ others) m ends h (entry, found, zeros)
      (n, a) e response =
    let con' = on_message_read con other in
    let waits : IsWaiting number con' =
      (entry, on_message_read-other number con other n ∙ found, zeros) in
    let quiet = IsWaiting-is_posted number con' waits in
    elim (Bool-cases (leb timeout t)) [
      | inl late ↦
          let too_late : leb timeout (t + total others) ≡ true = ground arith in
          (timeout, con', rw (quiet, late, too_late) refl)
      | inr early ↦
          let (rest, left, ends_so) =
            nested_wait-sum number (timeout - t) elapsed con' others m ends (ground arith) waits a e
              response in
          let same : leb timeout (t + total others) ≡ leb (timeout - t) (total others) =
            ground arith in
          (rest, left, rw (quiet, early, same) ends_so)
    ]
