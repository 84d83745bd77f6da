-- ===== src/Connection/Requests.antt =====
-- The pending requests of rtConnection.c: a response finds its request whatever is read around it.
use mathlib.Core.Option.{some-injective}
use rtmessage.Prelude.{
  ℕ, ◌+◌, ◌≡◌, ◌≢◌, refl, sym, ap, ◌∙◌, subst, true, false, Bool-cases, inl, inr, none, some, List,
  [], ◌∷◌, ◌==◌, ==_self, arith, All, bit_and, if◌then◌else◌,
}
use rtmessage.Error.{rt_ok}
use rtmessage.Header.{flag_response, flag_undeliverable}
use rtmessage.Connection.{
  Message, PendingRequest, Connection, answer_request, on_message_read, begin_request, find_request,
  remove_request, request_result, end_request,
}

-- The reader thread reads messages one after the other.
unfoldable pub read_all : Connection → List Message → Connection
read_all con [] = con
read_all con (m ∷ ms) = read_all (on_message_read con m) ms

-- Another number than the request's
abbrev pub IsOther : ℕ → Message → Type 0
IsOther number m = m.header.sequence_number ≢ number

find_request-answer_request_ne :
    (number : ℕ) (m : Message) (entries : List PendingRequest)
    → IsOther number m
    → find_request number (answer_request m entries) ≡ find_request number entries
unfolding find_request answer_request
find_request-answer_request_ne number m [] n = refl
find_request-answer_request_ne number m (entry ∷ entries) n =
    elim (Bool-cases (entry.sequence_number == m.header.sequence_number)) [
      | inl hit ↦
          let off : (entry.sequence_number == number) ≡ false = ground arith in rw (hit, off) refl
      | inr miss ↦ rw miss (
          ap (λ r. if entry.sequence_number == number then some entry else r)
            (find_request-answer_request_ne number m entries n))
    ]

pub find_request-answer_request :
    (number : ℕ) (m : Message) (entry : PendingRequest) (entries : List PendingRequest)
    → m.header.sequence_number ≡ number
    → find_request number entries ≡ some entry
    → (answered : PendingRequest) × (find_request number (answer_request m entries) ≡ some answered)
      × (answered.response ≡ some m)
      × (answered.sem ≡ entry.sem + 1)
unfolding find_request answer_request
find_request-answer_request number m entry [] e f = absurd (cc)
find_request-answer_request number m entry (first ∷ entries) e f =
    elim (Bool-cases (first.sequence_number == number)) [
      | inl hit ↦
          let same : (first.sequence_number == m.header.sequence_number) ≡ true =
            subst (λ k. (first.sequence_number == k) ≡ true) (sym e) hit in
          (
            record first { response = some m; sem = first.sem + 1 },
            rw (same, hit) refl,
            refl,
            ap (λ o. o.sem + 1) (some-injective _ _ (rw hit at f)),
          )
      | inr miss ↦
          let off : (first.sequence_number == m.header.sequence_number) ≡ false =
            subst (λ k. (first.sequence_number == k) ≡ false) (sym e) miss in
          let (answered, g, response, count) =
            find_request-answer_request number m entry entries e (rw miss at f) in
          (answered, rw (off, miss) g, response, count)
    ]

pub on_message_read-other :
    (number : ℕ) (con : Connection) (m : Message)
    → IsOther number m
    → find_request number (on_message_read con m).pending_requests_list
      ≡ find_request number con.pending_requests_list
unfolding on_message_read
on_message_read-other number con m n =
    elim (Bool-cases (bit_and m.header.flags flag_response == 0)) [
      | inl request ↦ rw request refl
      | inr response ↦
          rw response (find_request-answer_request_ne number m con.pending_requests_list n)
    ]

read_all-other :
    (number : ℕ) (con : Connection) (ms : List Message)
    → All (IsOther number) ms
    → find_request number (read_all con ms).pending_requests_list
      ≡ find_request number con.pending_requests_list
unfolding read_all
read_all-other number con [] a = refl
read_all-other number con (m ∷ ms) (n, a) =
    read_all-other number (on_message_read con m) ms a ∙ on_message_read-other number con m n

pub on_message_read-response :
    (con : Connection) (m : Message)
    → (bit_and m.header.flags flag_response == 0) ≡ false
    → (on_message_read con m).pending_requests_list ≡ answer_request m con.pending_requests_list
unfolding on_message_read
on_message_read-response con m e = rw e refl

-- A request whose wait succeeds gets the message with its sequence number, if that is a response that
-- was delivered, whatever messages with other numbers were read before it and after it.
pub begin_request-answered :
    (con : Connection) (before after : List Message) (m : Message)
    → All (IsOther con.sequence_number) before
    → All (IsOther con.sequence_number) after
    → m.header.sequence_number ≡ con.sequence_number
    → (bit_and m.header.flags flag_response == 0) ≡ false
    → (bit_and m.header.flags flag_undeliverable == 0) ≡ true
    → (left : Connection) × (end_request
          (read_all (on_message_read (read_all (begin_request con).1 before) m) after)
          con.sequence_number
          rt_ok
        ≡ (rt_ok, some m, left))
unfolding begin_request end_request find_request request_result
begin_request-answered con before after m b a e response delivered =
    let number = con.sequence_number in
    let entry : PendingRequest = record { sequence_number = number; sem = 0; response = none } in
    let con1 = (begin_request con).1 in
    let con2 = read_all con1 before in
    let con3 = on_message_read con2 m in
    let con4 = read_all con3 after in
    let first : find_request number con1.pending_requests_list ≡ some entry =
      rw (==_self number) refl in
    let waiting : find_request number con2.pending_requests_list ≡ some entry =
      read_all-other number con1 before b ∙ first in
    let (answered, f, got, count) =
      find_request-answer_request number m entry con2.pending_requests_list e waiting in
    let final : find_request number con4.pending_requests_list ≡ some answered =
      read_all-other number con3 after a
      ∙ (ap (find_request number) (on_message_read-response con2 m response) ∙ f) in
    (
      record con4 { pending_requests_list = remove_request number con4.pending_requests_list },
      rw (end_request, final, request_result, got, delivered) refl,
    )
