-- ===== src/Examples/Rounds.antt =====
-- Requests with their waits: the theorems at concrete inputs.
use rtmessage.Prelude.{ℕ, ◌+◌, ◌≡◌, refl, true, false, some, List, [], ◌∷◌, ◌++◌, map, arith, codes}
use rtmessage.Error.{rt_ok, rt_error_timeout, error_from_errno}
use rtmessage.Header.{init, c_string, flag_request}
use rtmessage.Connection.{Connection, Message, create_internal, begin_request, find_request}
use rtmessage.Connection.Requests.{read_all}
use rtmessage.Connection.Reading.{should_reregister}
use rtmessage.Connection.Nested.{got, got_at, nested_wait, nested_wait-sum, total}
use rtmessage.Connection.Sending.{whole, failure, send_internal}
use rtmessage.Connection.Calls.{send_internal-whole}
use rtmessage.Connection.Exchange.{
  RequestRound, RequestEnd, on_semaphore, wait_for, request_round, send_request_internal,
}
use rtmessage.Connection.Exchange.Guarding.{is_guarded, request_round-guarded}
use rtmessage.Connection.Exchange.Resending.{number_after, send_request-lost}

abbrev peer : Connection
peer = create_internal (codes "R") 5

abbrev other_message : Message
other_message = record { header = record init { sequence_number = 9 }; data_bytes = [] }

-- The response to the request with a number
abbrev response_to : ℕ → Message
response_to number = record {
  header = record init { sequence_number = number; flags = 2 };
  data_bytes = codes "yes";
}

-- A timeout of 1000 ms has passed for the loop after 600 ms.
nested_wait-sum_example :
    (timeout_left : ℕ) × (left : Connection) × (nested_wait 1 1000 (begin_request peer).1 (
        map got_at ((500, other_message) ∷ (600, other_message) ∷ [])
        ++ (got 650 (response_to 1) ∷ []))
      ≡ some (rt_error_timeout, timeout_left, left))
unfolding total begin_request create_internal find_request init
nested_wait-sum_example =
    nested_wait-sum 1 1000 650 (begin_request peer).1
      ((500, other_message) ∷ (600, other_message) ∷ []) (response_to 1) [] (omega arith)
      (_, refl, refl) ((λ e. omega arith), ((λ e. omega arith), tt)) refl refl

epipe_lost : should_reregister (error_from_errno 32) ≡ true
unfolding should_reregister error_from_errno
epipe_lost = refl

expression_array : c_string (codes "A.B" ++ (0 ∷ [])) ≡ some (codes "A.B")
unfolding c_string
expression_array = refl

inbox_array : c_string (codes "R" ++ (0 ∷ [])) ≡ some (codes "R")
unfolding c_string
inbox_array = refl

-- The connection is lost, and made again with two subscriptions.
abbrev lost_request : RequestRound
lost_request = record {
  attempts = failure 32 ∷ [];
  wait = on_semaphore rt_ok [];
  reconnect = rt_ok;
  resent = 2;
}

abbrev answered_request : RequestRound
answered_request = record {
  attempts = whole ∷ [];
  wait = on_semaphore rt_ok (other_message ∷ response_to 4 ∷ []);
  reconnect = rt_ok;
  resent = 0;
}

send_request-lost_example :
    (frame : List ℕ) × (end : RequestEnd) × (send_internal
        (codes "hello")
        (codes "A.B")
        peer.inbox_name
        (flag_request + 0)
        4
        (whole ∷ [])
      ≡ some (rt_ok, frame ∷ []))
    × (send_request_internal
          (codes "hello")
          (codes "A.B")
          0
          1000
          peer
          (lost_request ∷ answered_request ∷ [])
        ≡ some end)
    × (end.code ≡ rt_ok)
    × (end.response ≡ some (response_to 4))
    × (end.frames ≡ frame ∷ [])
    × (is_guarded false end.steps ≡ true)
unfolding number_after create_internal init
send_request-lost_example =
    send_request-lost (codes "hello") (codes "A.B") 0
      (codes "A.B" ++ (0 ∷ []), expression_array, omega arith) (lost_request ∷ []) []
      answered_request 1000 peer (other_message ∷ []) [] (response_to 4) []
      ((32, [], refl, epipe_lost, refl), tt) (codes "R" ++ (0 ∷ []), inbox_array, omega arith) refl
      refl ((λ e. omega arith), tt) tt refl refl refl

-- The wait of this request times out.
abbrev late_request : RequestRound
late_request = record {
  attempts = whole ∷ [];
  wait = on_semaphore rt_error_timeout [];
  reconnect = rt_ok;
  resent = 0;
}

request_round-guarded_example :
    (end : RequestEnd) × (request_round (codes "hello") (codes "A.B") 0 1000 peer late_request
      ≡ some end)
    × (is_guarded false end.steps ≡ false)
unfolding create_internal begin_request wait_for read_all
request_round-guarded_example =
    request_round-guarded (codes "hello") (codes "A.B") 0 1000 rt_ok rt_error_timeout 1000 peer
      (begin_request peer).1 late_request _
      ((send_internal-whole (codes "hello") (codes "A.B") (codes "R") (codes "A.B" ++ (0 ∷ []))
          (codes "R" ++ (0 ∷ [])) flag_request expression_array inbox_array (omega arith)
          (omega arith) 1).1
        [])
      refl
