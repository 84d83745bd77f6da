-- ===== src/Connection.antt =====
-- rtConnection.c: the listeners of a client, the messages for their callbacks and the pending requests. A
-- text is a list of bytes; the functions that are called back, and their closures, are numbers.
pub mod Listening
pub mod Requests
pub mod Stream
pub mod Reading
pub mod Frame
pub mod Sending
pub mod RoundTrip
pub mod Delivery
pub mod Answering
pub mod Nested
pub mod Reconnect
pub mod Calls
pub mod Exchange
use rtmessage.Prelude.{
  ℕ, ◌+◌, ◌%◌, ◌^◌, bit_and, Option, none, some, List, [], ◌∷◌, ◌++◌, replicate, ◌==◌,
  if◌then◌else◌,
}
use rtmessage.Error.{rt_ok, rt_fail, rt_error, rt_error_invalid_arg, enomem, error_from_errno}
use rtmessage.Header.{Header, flag_response, flag_undeliverable}
use rtmessage.Routing.Forest.{same_name}
use rtmessage.Router.{Request}

-- RTMSG_LISTENERS_MAX
abbrev pub listeners_max : ℕ
listeners_max = 64

-- RT_OBJECT_NO_LONGER_AVAILABLE
abbrev pub rt_object_no_longer_available : ℕ
rt_object_no_longer_available = 7

-- struct _rtListener, in use
pub record Listener : Type 0 where
  pub expression : List ℕ
  pub subscription_id : ℕ
  pub callback : ℕ
  pub closure : ℕ

-- rtMessageInfo
pub record Message : Type 0 where
  pub header : Header
  pub data_bytes : List ℕ

-- pending_request, with the value of its semaphore
pub record PendingRequest : Type 0 where
  pub sequence_number : ℕ
  pub sem : ℕ
  pub response : Option Message

-- The part of struct _rtConnection that is not sockets and threads, with the counter of
-- rtConnection_GetNextSubscriptionId. A listener that is not in use is `none`.
pub record Connection : Type 0 where
  pub listeners : List (Option Listener)
  pub next_id : ℕ
  pub sequence_number : ℕ
  pub inbox_name : List ℕ
  pub pending_requests_list : List PendingRequest
  pub callback_message_list : List Message
  pub default_callback : ℕ
  pub default_closure : ℕ

-- rtConnection_CreateInternal
unfoldable pub create_internal : List ℕ → ℕ → Connection
create_internal inbox next = record {
  listeners = replicate listeners_max none;
  next_id = next;
  sequence_number = 1;
  inbox_name = inbox;
  pending_requests_list = [];
  callback_message_list = [];
  default_callback = 0;
  default_closure = 0;
}

-- The listener for an expression, which `strcmp` compares
unfoldable pub find_by_expression : List ℕ → List (Option Listener) → Option Listener
find_by_expression exp [] = none
find_by_expression exp (none ∷ slots) = find_by_expression exp slots
find_by_expression exp (some l ∷ slots) =
    let rest = find_by_expression exp slots in if same_name exp l.expression then some l else rest

-- The first open listener gets the new one; `none` if there is none.
unfoldable pub fill_slot : Listener → List (Option Listener) → Option (List (Option Listener))
fill_slot l [] = none
fill_slot l (none ∷ slots) = some (some l ∷ slots)
fill_slot l (some other ∷ slots) = elim (fill_slot l slots) [
  | none ↦ none
  | some filled ↦ some (some other ∷ filled)
]

-- An error, the connection after the call, and the message to the router.
abbrev pub Outcome : Type 0
Outcome = ℕ × Connection × Option Request

-- rtConnection_AddListener
unfoldable pub add_listener : Connection → List ℕ → ℕ → ℕ → Outcome
add_listener con exp callback closure = elim (find_by_expression exp con.listeners) [
  | some l ↦ (rt_fail, con, none)
  | none ↦
      elim (fill_slot
        (record {
          expression = exp;
          subscription_id = con.next_id;
          callback = callback;
          closure = closure;
        })
        con.listeners) [
          | none ↦ (error_from_errno enomem, con, none)
          | some filled ↦ (
            rt_ok,
            record con { listeners = filled; next_id = (con.next_id + 1) % 2 ^ 32 },
            some (record { add = 1; topic = exp; route_id = con.next_id }),
          )
        ]
]

-- The first listener for an expression goes out of use.
unfoldable pub empty_slot : List ℕ → List (Option Listener) → List (Option Listener)
empty_slot exp [] = []
empty_slot exp (none ∷ slots) = none ∷ empty_slot exp slots
empty_slot exp (some l ∷ slots) =
    let rest = empty_slot exp slots in
    if same_name exp l.expression then none ∷ slots else some l ∷ rest

-- rtConnection_RemoveListener
unfoldable pub remove_listener : Connection → List ℕ → Outcome
remove_listener con exp = elim (find_by_expression exp con.listeners) [
  | none ↦ (rt_error_invalid_arg, con, none)
  | some l ↦ (
    rt_ok,
    record con { listeners = empty_slot exp con.listeners },
    some (record { add = 0; topic = exp; route_id = l.subscription_id }),
  )
]

-- rtConnection_AddAlias, with the router's answer to the request as an argument
unfoldable pub add_alias : Connection → List ℕ → List ℕ → ℕ → ℕ × Option Request
add_alias con existing alias answer = elim (find_by_expression existing con.listeners) [
  | none ↦ (error_from_errno enomem, none)
  | some l ↦ (answer, some (record { add = 1; topic = alias; route_id = l.subscription_id }))
]

-- rtConnection_RemoveAlias
unfoldable pub remove_alias : Connection → List ℕ → List ℕ → ℕ × Option Request
remove_alias con existing alias = elim (find_by_expression existing con.listeners) [
  | none ↦ (error_from_errno enomem, none)
  | some l ↦ (rt_ok, some (record { add = 0; topic = alias; route_id = l.subscription_id }))
]

-- rtConnection_AddDefaultListener
unfoldable pub add_default_listener : Connection → ℕ → ℕ → Connection
add_default_listener con callback closure = record con {
  default_callback = callback;
  default_closure = closure;
}

-- The loop of rtConnection_CallbackThread that looks for the listener of a message
unfoldable pub find_by_id : ℕ → List (Option Listener) → Option Listener
find_by_id id [] = none
find_by_id id (none ∷ slots) = find_by_id id slots
find_by_id id (some l ∷ slots) =
    let rest = find_by_id id slots in if l.subscription_id == id then some l else rest

-- A round of rtConnection_CallbackThread: the call that it makes for the first message, if any, and the
-- connection without that message.
unfoldable pub run_callback : Connection → Option (Option (ℕ × Message × ℕ) × Connection)
run_callback con = elim con.callback_message_list [
  | [] ↦ none
  | m ∷ ms ↦ some (
    (elim (find_by_id m.header.control_data con.listeners) [
      | none ↦ none
      | some l ↦ some (l.callback, m, l.closure)
    ]),
    record con { callback_message_list = ms },
  )
]

-- The first pending request of a sequence number gets the response, and its semaphore is posted.
unfoldable pub answer_request : Message → List PendingRequest → List PendingRequest
answer_request m [] = []
answer_request m (entry ∷ entries) =
    let rest = answer_request m entries in
    if entry.sequence_number == m.header.sequence_number
    then record entry { response = some m; sem = entry.sem + 1 } ∷ entries
    else entry ∷ rest

-- The end of rtConnection_Read, for a message that was read without error
unfoldable pub on_message_read : Connection → Message → Connection
on_message_read con m =
    if bit_and m.header.flags flag_response == 0
    then record con { callback_message_list = con.callback_message_list ++ (m ∷ []) }
    else record con { pending_requests_list = answer_request m con.pending_requests_list }

-- rtConnection_SendRequestInternal up to its wait, when the message is sent: its sequence number
unfoldable pub begin_request : Connection → ℕ × Connection
begin_request con = (
  con.sequence_number,
  record con {
    sequence_number = (con.sequence_number + 1) % 2 ^ 32;
    pending_requests_list =
        record { sequence_number = con.sequence_number; sem = 0; response = none }
        ∷ con.pending_requests_list;
  },
)

unfoldable pub find_request : ℕ → List PendingRequest → Option PendingRequest
find_request number [] = none
find_request number (entry ∷ entries) =
    let rest = find_request number entries in
    if entry.sequence_number == number then some entry else rest

-- `rtList_RemoveItem(con->pending_requests_list, listItem, NULL)`
unfoldable pub remove_request : ℕ → List PendingRequest → List PendingRequest
remove_request number [] = []
remove_request number (entry ∷ entries) =
    let rest = remove_request number entries in
    if entry.sequence_number == number then entries else entry ∷ rest

-- The result of a request whose wait was not in vain
unfoldable pub request_result : Option PendingRequest → ℕ × Option Message
request_result none = (rt_error, none)
request_result (some entry) = elim entry.response [
  | none ↦ (rt_error, none)
  | some m ↦
      if bit_and m.header.flags flag_undeliverable == 0
      then (rt_ok, some m)
      else (rt_object_no_longer_available, none)
]

-- The rest of rtConnection_SendRequestInternal, after the wait: an error, the response, and the connection
-- without the request. `waited` is what the wait returned.
unfoldable pub end_request : Connection → ℕ → ℕ → ℕ × Option Message × Connection
end_request con number waited =
    let left = record con {
      pending_requests_list = remove_request number con.pending_requests_list;
    } in
    let (code, response) = request_result (find_request number con.pending_requests_list) in
    if waited == rt_ok then (code, response, left) else (waited, none, left)
