-- ===== src/Router/Sending.antt =====
-- The frames of rtRouted_SendMessage, one for each route of the topic but those of the client to skip, and
-- the frame of rtRouted_ForwardMessage.
use rtmessage.Prelude.{
  ℕ, ◌+◌, ◌%◌, ◌≡◌, refl, Bool, true, false, Bool-cases, inl, inr, All, Option, none, some, List,
  [], ◌∷◌, ◌++◌, length, map, arith, ◌==◌, if◌then◌else◌,
}
use rtmessage.Error.{rt_ok}
use rtmessage.Encoder.{u16_mod}
use rtmessage.Header.{encode, Header, c_string, put_fields, size_without_strings}
use rtmessage.Header.Encode.{encode-eq}
use rtmessage.Router.{Entry}
use rtmessage.Router.Forward.{
  Answer, taken, refused, send_code, keep_code, taken_frame, send_to, send_message, forward,
  forward_header,
}

-- The routes that are not those of the client to skip
unfoldable pub others_than : Option ℕ → List Entry → List Entry
others_than skip [] = []
others_than skip (entry ∷ entries) =
    let rest = others_than skip entries in
    let skipped : Bool = elim skip [ none ↦ false | some client ↦ client == entry.client ] in
    if skipped then rest else entry ∷ rest

-- The code of the last socket that refuses a frame, if any does
unfoldable pub last_refusal : (ℕ → Answer) → List Entry → Option ℕ
last_refusal answers [] = none
last_refusal answers (entry ∷ entries) = elim (last_refusal answers entries) [
  | some code ↦ some code
  | none ↦ elim (answers entry.client) [ taken ↦ none | refused e ↦ some (send_code (refused e)) ]
]

unfoldable pub code_or : ℕ → Option ℕ → ℕ
code_or code none = code
code_or code (some other) = other

-- The frame for a route: the header with the route's id, then the payload.
abbrev pub frame_for : Header → List ℕ → List ℕ → List ℕ → Entry → ℕ × List ℕ
frame_for hdr topic reply_topic payload entry = (
  entry.client,
  put_fields
        (record hdr {
          control_data = entry.subscription_id;
          header_length = (size_without_strings + length topic + length reply_topic) % u16_mod;
        })
        topic reply_topic
      ++ payload,
)

-- The routes whose clients' sockets take the frame
unfoldable pub takers : (ℕ → Answer) → List Entry → List Entry
takers answers [] = []
takers answers (entry ∷ entries) =
    let rest = takers answers entries in
    elim (answers entry.client) [ taken ↦ entry ∷ rest | refused e ↦ rest ]

-- No route is one of the router's own.
abbrev pub Subscribed : List Entry → Type 0
Subscribed = All (λ entry. entry.has_subscription ≡ true)

keep_code-last_refusal :
    (answers : ℕ → Answer) (code : ℕ) (entry : Entry) (entries : List Entry)
    → code_or (keep_code code (answers entry.client)) (last_refusal answers entries)
      ≡ code_or code (last_refusal answers (entry ∷ entries))
unfolding keep_code code_or last_refusal
keep_code-last_refusal answers code entry entries = ground arith

send_to-frames :
    (answers : ℕ → Answer) (skip : Option ℕ) (hdr : Header) (topic reply_topic payload : List ℕ)
    (entries : List Entry) (code : ℕ)
    → c_string hdr.topic ≡ some topic
    → c_string hdr.reply_topic ≡ some reply_topic
    → Subscribed entries
    → send_to answers skip hdr payload entries code
      ≡ some (
        code_or code (last_refusal answers (others_than skip entries)),
        map (frame_for hdr topic reply_topic payload) (takers answers (others_than skip entries)),
      )
unfolding send_to others_than code_or last_refusal takers taken_frame
send_to-frames answers skip hdr topic reply_topic payload [] code t u s = refl
send_to-frames answers skip hdr topic reply_topic payload (entry ∷ entries) code t u (own, s) =
    let next : Header = record hdr { control_data = entry.subscription_id } in
    let enc = encode-eq next t u in
    let skipped = send_to-frames answers skip next topic reply_topic payload entries code t u s in
    let kept =
      send_to-frames answers skip
        (record next {
          header_length = (size_without_strings + length topic + length reply_topic) % u16_mod;
        })
        topic reply_topic payload entries (keep_code code (answers entry.client)) t u s in
    let codes_agree = keep_code-last_refusal answers code entry (others_than skip entries) in
    ground arith

-- If the arrays of a header hold the texts of its topics and the topic has a route, all with subscriptions,
-- `rtRouted_SendMessage` writes one frame for each route that does not belong to the client to skip and
-- whose socket takes it, in the order of the routes, to the route's client: the header with the route's id, the payload's length
-- and its own length, then the payload. The result is the code of the last socket that refuses its
-- frame, RT_OK if none does.
pub send_message-frames :
    (answers : ℕ → Answer) (skip : Option ℕ) (hdr : Header) (topic reply_topic payload : List ℕ)
    (entry : Entry) (entries : List Entry)
    → c_string hdr.topic ≡ some topic
    → c_string hdr.reply_topic ≡ some reply_topic
    → Subscribed (entry ∷ entries)
    → let kept = others_than skip (entry ∷ entries) in
      send_message answers skip hdr topic payload (entry ∷ entries)
      ≡ some (
        code_or rt_ok (last_refusal answers kept),
        map
            (frame_for (record hdr { payload_length = length payload }) topic reply_topic payload)
            (takers answers kept),
      )
unfolding send_message
send_message-frames answers skip hdr topic reply_topic payload entry entries t u s =
    send_to-frames answers skip (record hdr { payload_length = length payload }) topic reply_topic
      payload (entry ∷ entries) rt_ok t u s

-- A header with texts in its arrays is forwarded: the bytes of the new header, then the payload.
pub forward-eq :
    (entry : Entry) (hdr : Header) (payload topic reply_topic : List ℕ) (sent : Header × List ℕ)
    (answer : Answer)
    → c_string hdr.topic ≡ some topic
    → c_string hdr.reply_topic ≡ some reply_topic
    → entry.has_subscription ≡ true
    → encode (forward_header hdr topic reply_topic entry.subscription_id) ≡ some sent
    → forward entry hdr payload answer ≡ some (send_code answer, entry.client, sent.1 ++ payload)
unfolding forward
forward-eq entry hdr payload topic reply_topic sent answer t u own enc =
    rw (t, u, own, enc, forward)

-- A frame is forwarded only for a route with a subscription.
pub forward-own :
    (entry : Entry) (hdr : Header) (payload : List ℕ) (answer : Answer) {sent : ℕ × ℕ × List ℕ}
    → forward entry hdr payload answer ≡ some sent
    → entry.has_subscription ≡ true
unfolding forward
forward-own entry hdr payload answer sends = ground arith

-- A message is sent to the only route of a topic without a use of NULL only if it has a subscription.
pub send_message-own :
    (answers : ℕ → Answer) (hdr : Header) (topic payload : List ℕ) (entry : Entry)
    {sent : ℕ × List (ℕ × List ℕ)}
    → send_message answers none hdr topic payload (entry ∷ []) ≡ some sent
    → entry.has_subscription ≡ true
unfolding send_message send_to
send_message-own answers hdr topic payload entry sends = elim (Bool-cases entry.has_subscription) [
  | inl own ↦ own
  | inr foreign ↦ absurd (none-ne-some (rw foreign at sends))
]
  where
    none-ne-some : {w : ℕ × List (ℕ × List ℕ)} → none ≡ some w → ⊥
    none-ne-some e = cc
