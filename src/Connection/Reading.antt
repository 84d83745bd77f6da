-- ===== src/Connection/Reading.antt =====
-- rtConnection_Read of rtConnection.c: a frame from the socket, with the retries; the block for the
-- payload is granted.
use rtmessage.Prelude.{
  ℕ, zero, suc, ◌-◌, ◌^◌, Bool, ◌||◌, Option, none, some, List, [], drop, ltb, ◌==◌, if◌then◌else◌,
}
use rtmessage.Error.{rt_ok, rt_error, rt_error_timeout, error_from_errno}
use rtmessage.Encoder.{decode_uint16}
use rtmessage.Header.{Header, init, decode, overrun, failed, decoded}
use rtmessage.Client.{splice}
use rtmessage.Connection.{Connection, Message, on_message_read}
use rtmessage.Connection.Stream.{Event, blocked, got, read_until, enotconn, epipe}

-- RT_NO_CONNECTION
abbrev pub rt_no_connection : ℕ
rt_no_connection = 9

-- RTMESSAGEHEADER_PREAMBLE_LENGTH and RTMESSAGEHEADER_HDR_LENGTH_OFFSET
abbrev pub preamble_length : ℕ
preamble_length = 6

abbrev pub hdr_length_offset : ℕ
hdr_length_offset = 4

-- rtConnection_ShouldReregister
unfoldable pub should_reregister : ℕ → Bool
should_reregister e = (error_from_errno enotconn == e) || (error_from_errno epipe == e)

-- One round of the loop: it waits for more events, reads outside a buffer, has no preamble, or comes to
-- an error with the header, the payload, the receive buffer and the events that are left.
pub data Round : Type 0 where
  waits outside : Round
  no_preamble : ℕ → List ℕ → List Event → Round
  ended : ℕ → Header → List ℕ → List ℕ → List Event → Round

-- The count of rtConnection_ReadUntil is an `int`, and a negative one reads nothing.
abbrev pub int_count : ℕ → ℕ
int_count n = if ltb n (2 ^ 31) then n else 0

unfoldable pub read_payload : Header → List ℕ → List Event → Round
read_payload hdr buffer events = elim (read_until (int_count hdr.payload_length) events) [
  | blocked ↦ waits
  | got code bytes left ↦ ended code hdr bytes buffer left
]

unfoldable pub decode_header : Header → List ℕ → List Event → Round
decode_header hdr buffer events = elim (decode hdr buffer) [
  | overrun ↦ outside
  | failed hdr' ↦ ended rt_error hdr' [] buffer events
  | decoded done hdr' left ↦ read_payload hdr' buffer events
]

unfoldable pub read_header : Header → ℕ → List ℕ → List Event → Round
read_header hdr len buffer events = elim (read_until (len - preamble_length) events) [
  | blocked ↦ waits
  | got code bytes left ↦
      let filled = splice buffer preamble_length bytes in
      if code == rt_ok
      then decode_header (record hdr { header_length = len }) filled left
      else ended code (record hdr { header_length = len }) [] filled left
]

unfoldable pub read_length : Header → List ℕ → List Event → Round
read_length hdr buffer events = elim (decode_uint16 (drop hdr_length_offset buffer)) [
  | none ↦ outside
  | some (len, behind) ↦ read_header hdr len buffer events
]

unfoldable pub read_round : Header → List ℕ → List Event → Round
read_round hdr buffer events = elim (read_until preamble_length events) [
  | blocked ↦ waits
  | got code bytes left ↦
      if code == rt_ok
      then read_length hdr (splice buffer 0 bytes) left
      else no_preamble code (splice buffer 0 bytes) left
]

-- The result of the call: an error, the message if one was read, and the events that are left.
pub data Reading : Type 0 where
  waiting overflow : Reading
  finished : ℕ → Option Message → List Event → Reading

-- The loop, with the number of rounds that are left. After the last failure the call returns RT_OK.
unfoldable pub read_loop : ℕ → Bool → Header → List ℕ → List Event → Reading
read_loop zero running hdr buffer events = finished rt_ok none events
read_loop (suc rounds) running hdr buffer events = elim (read_round hdr buffer events) [
  | waits ↦ waiting
  | outside ↦ overflow
  | no_preamble code filled left ↦
      let again = read_loop rounds running hdr filled left in
      if code == rt_error_timeout
      then finished code none left
      else if running
      then (if should_reregister code then finished rt_no_connection none left else again)
      else finished rt_ok none left
  | ended code hdr' bytes filled left ↦
      let again = read_loop rounds running hdr' filled left in
      if code == rt_ok
      then finished rt_ok (some (record { header = hdr'; data_bytes = bytes })) left
      else if should_reregister code
      then finished rt_no_connection none left
      else again
]

-- `max_attempts` is 4, and the first round is not counted.
abbrev pub max_rounds : ℕ
max_rounds = 5

unfoldable pub read_connection : Bool → List ℕ → List Event → Reading
read_connection running buffer events = read_loop max_rounds running init buffer events

-- What the connection is after a call of rtConnection_Read
unfoldable pub deliver : Connection → Reading → Connection
deliver con waiting = con
deliver con overflow = con
deliver con (finished code none events) = con
deliver con (finished code (some m) events) = on_message_read con m
