-- ===== src/Connection/Exchange/Resending.antt =====
-- rtConnection_SendRequestInternal when the connection is lost and made again
use rtmessage.Prelude.{
  ◌≡◌, ◌+◌, ◌%◌, ◌^◌, ◌<◌, ℕ, refl, true, false, some, none, List, [], ◌∷◌, ◌++◌, ◌==◌, ==_self,
  All, length, bit_and, ap, ◌∙◌,
}
use rtmessage.Error.{rt_ok, error_from_errno}
use rtmessage.Header.{c_string, max_topic_length, flag_request, flag_response, flag_undeliverable}
use rtmessage.Connection.{
  Message, Connection, begin_request, remove_request, end_request, on_message_read,
}
use rtmessage.Connection.Reading.{rt_no_connection, should_reregister}
use rtmessage.Connection.Requests.{read_all, IsOther, begin_request-answered}
use rtmessage.Connection.Sending.{Attempt, whole, failure, send_internal}
use rtmessage.Connection.Calls.{send_internal-whole, send_internal-lost}
use rtmessage.Connection.Exchange.{
  RequestRound, RequestEnd, on_semaphore, wait_for, dequeue, round_steps, request_round,
  after_round, reconnected, send_request_internal,
}
use rtmessage.Connection.Exchange.Guarding.{is_guarded}

-- In a round the connection is lost at the first `sendmsg`, and made again.
abbrev pub IsLost : RequestRound → Type 0
IsLost round =
    (e : ℕ) × (more : List Attempt) × (round.attempts ≡ failure e ∷ more)
    × (should_reregister (error_from_errno e) ≡ true)
    × (round.reconnect ≡ rt_ok)

-- The sequence number after these rounds
unfoldable pub number_after : List RequestRound → ℕ → ℕ
number_after [] number = number
number_after (round ∷ rounds) number =
    number_after rounds (((number + 1) % 2 ^ 32 + round.resent) % 2 ^ 32)

read_all-append :
    (con : Connection) (before after : List Message) (m : Message)
    → read_all con (before ++ (m ∷ after))
      ≡ read_all (on_message_read (read_all con before) m) after
unfolding read_all
read_all-append con [] after m = refl
read_all-append con (first ∷ before) after m =
    read_all-append (on_message_read con first) before after m

-- A text in an array of its own, short enough for a header
abbrev pub IsStored : List ℕ → Type 0
IsStored text = (array : List ℕ) × (c_string array ≡ some text) × (length text < max_topic_length)

module _ (payload topic : List ℕ) (flags : ℕ) (t : IsStored topic) where
  request_round-lost :
      (round : RequestRound) (timeout : ℕ) (con : Connection)
      → IsLost round
      → IsStored con.inbox_name
      → request_round payload topic flags timeout con round
        ≡ some (record {
          code = rt_no_connection;
          response = none;
          left = record con { sequence_number = (con.sequence_number + 1) % 2 ^ 32 };
          timeout = timeout;
          frames = [];
          steps = round_steps false false;
        })
  unfolding request_round begin_request dequeue end_request remove_request
  request_round-lost round timeout con (e, more, at, gone, again) u =
      let lost =
        send_internal-lost payload topic con.inbox_name t.0 u.0 (flag_request + flags) t.1 u.1 t.2
          u.2 con.sequence_number e more gone in
      rw
        (request_round, at, lost, dequeue, end_request, remove_request, ==_self con.sequence_number)
        refl

  -- If the connection is lost at the first `sendmsg` of some rounds, and is made again after each, and in
  -- the next round the first `sendmsg` takes the whole frame and the wait returns RT_OK, with the
  -- response among the messages of that wait and the others with other numbers, then the request sends one
  -- frame, with the number that the connection has reached by then, ends with RT_OK and the response, and
  -- keeps to the mutex.
  pub send_request-lost :
      (rounds more_rounds : List RequestRound) (last : RequestRound) (timeout : ℕ)
      (con : Connection) (before after : List Message) (m : Message) (more : List Attempt)
      → All IsLost rounds
      → IsStored con.inbox_name
      → last.attempts ≡ whole ∷ more
      → last.wait ≡ on_semaphore rt_ok (before ++ (m ∷ after))
      → All (IsOther (number_after rounds con.sequence_number)) before
      → All (IsOther (number_after rounds con.sequence_number)) after
      → m.header.sequence_number ≡ number_after rounds con.sequence_number
      → (bit_and m.header.flags flag_response == 0) ≡ false
      → (bit_and m.header.flags flag_undeliverable == 0) ≡ true
      → (frame : List ℕ) × (end : RequestEnd) × (send_internal payload topic con.inbox_name
            (flag_request + flags)
            (number_after rounds con.sequence_number)
            (whole ∷ [])
          ≡ some (rt_ok, frame ∷ []))
        × (send_request_internal payload topic flags timeout con (rounds ++ (last ∷ more_rounds))
            ≡ some end)
        × (end.code ≡ rt_ok)
        × (end.response ≡ some m)
        × (end.frames ≡ frame ∷ [])
        × (is_guarded false end.steps ≡ true)
  unfolding send_request_internal after_round number_after reconnected request_round wait_for
      dequeue round_steps is_guarded begin_request
  send_request-lost [] more_rounds last timeout con before after m more h u at w b a e response
        delivered =
      let (frame, sends) =
        send_internal-whole payload topic con.inbox_name t.0 u.0 (flag_request + flags) t.1 u.1 t.2
          u.2 con.sequence_number in
      let (left, answered) = begin_request-answered con before after m b a e response delivered in
      let got =
        ap (λ c. end_request c con.sequence_number rt_ok)
          (read_all-append (begin_request con).1 before after m)
        ∙ answered in
      (
        frame,
        record {
          code = rt_ok;
          response = some m;
          left = left;
          timeout = timeout;
          frames = frame ∷ [];
          steps = round_steps true true;
        },
        sends [],
        rw (send_request_internal, at, sends more, w, dequeue, got) refl,
        refl,
        refl,
        refl,
        refl,
      )
  send_request-lost (round ∷ rounds) more_rounds last timeout con before after m more (h, hs) u at w
        b a e response delivered =
      let next =
        reconnected round (record con { sequence_number = (con.sequence_number + 1) % 2 ^ 32 }) in
      let (frame, end, sends, rest, ok, answer, one, kept) =
        send_request-lost rounds more_rounds last timeout next before after m more hs u at w b a e
          response delivered in
      let lost = request_round-lost round timeout con h u in
      (
        frame,
        record end { frames = end.frames; steps = round_steps false false ++ end.steps },
        sends,
        rw (send_request_internal, lost, h.4, rest) refl,
        ok,
        answer,
        one,
        kept,
      )
