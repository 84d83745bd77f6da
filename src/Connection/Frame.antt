-- ===== src/Connection/Frame.antt =====
-- rtConnection_Read reads back what rtMessageHeader_Encode and the sender of a payload wrote.
use mathlib.Core.Option.{some-injective}
use rtmessage.Prelude.{
  ℕ, suc, ◌+◌, ◌-◌, ◌*◌, ◌/◌, ◌^◌, ◌%◌, ◌<◌, ◌≡◌, refl, sym, ap, ◌∙◌, subst, Bool, some, List, [],
  ◌∷◌, ◌++◌, length, take, drop, arith, length-append, take-length_append, drop-length_append,
}
use rtmessage.Error.{rt_ok}
use rtmessage.Encoder.{
  decode_uint16, encode_uint16, encode_int32, encode_string, uint16_bytes, int32_bytes, u16_mod,
}
use rtmessage.Header.{
  Header, init, decode, decoded, put_fields, c_string, max_topic_length, encode,
  size_without_strings,
}
use rtmessage.Header.Text.{c_string-lt, c_string-copy_into}
use rtmessage.Header.Encode.{put_fields-wire, length-put_fields, encode-eq}
use rtmessage.Header.Decode.{InRange, Agrees, received, decode-wire}
use rtmessage.Client.{splice}
use rtmessage.Connection.{Message}
use rtmessage.Connection.Stream.{Event, got, read_until, IsPlain, stream, read_until-stream}
use rtmessage.Connection.Reading.{
  ended, read_payload, decode_header, read_header, read_length, read_round, read_loop,
  read_connection, finished, int_count,
}

-- A number of bytes that are in front of the stream.
read_until-front :
    (events : List Event) (front more : List ℕ)
    → IsPlain events
    → stream events ≡ front ++ more
    → (left : List Event) × (read_until (length front) events ≡ got rt_ok front left)
      × IsPlain left
      × (stream left ≡ more)
read_until-front events front more p e =
    let long : length (stream events) ≡ length front + length more =
      ap length e ∙ length-append front more in
    let (left, r, q, s) = read_until-stream (length front) events p (omega (arith, long)) in
    (
      left,
      r ∙ ap (λ w. got rt_ok w left) (ap (take (length front)) e ∙ take-length_append front more),
      q,
      s ∙ (ap (drop (length front)) e ∙ drop-length_append front more),
    )

read_payload-front :
    (hdr : Header) (buffer payload more : List ℕ) (events : List Event)
    → IsPlain events
    → stream events ≡ payload ++ more
    → hdr.payload_length ≡ length payload
    → length payload < 2 ^ 31
    → (left : List Event) × (read_payload hdr buffer events ≡ ended rt_ok hdr payload buffer left)
      × IsPlain left
      × (stream left ≡ more)
unfolding read_payload
read_payload-front hdr buffer payload more events p e n l =
    let (left, r, q, s) = read_until-front events payload more p e in
    let count : int_count hdr.payload_length ≡ length payload = ground (arith, n) in
    (left, rw (read_payload, count, r) refl, q, s)

-- The six bytes of a preamble whose last two are the header length.
abbrev pub preamble : ℕ → ℕ → List ℕ
preamble high low = 170 ∷ 170 ∷ 0 ∷ 2 ∷ high ∷ low ∷ []

read_round-frame :
    (buffer : List ℕ) (high low : ℕ) (rest payload more : List ℕ) (hdr : Header)
    (events : List Event)
    → IsPlain events
    → stream events ≡ preamble high low ++ (rest ++ (payload ++ more))
    → high * 2 ^ 8 + low ≡ 6 + length rest
    → ((tail : List ℕ)
        → decode
            (record init { header_length = high * 2 ^ 8 + low })
            (preamble high low ++ (rest ++ tail))
          ≡ decoded tt hdr tail)
    → hdr.payload_length ≡ length payload
    → length payload < 2 ^ 31
    → (filled : List ℕ) × (left : List Event) × (read_round init buffer events
        ≡ ended rt_ok hdr payload filled left)
      × IsPlain left
      × (stream left ≡ more)
unfolding read_round read_length read_header decode_header splice decode_uint16
read_round-frame buffer high low rest payload more hdr events p e len dec n l =
    let len1 = high * 2 ^ 8 + low in
    let (ev1, r1, p1, s1) =
      read_until-front events (preamble high low) (rest ++ (payload ++ more)) p e in
    let (ev2, r2, p2, s2) = read_until-front ev1 rest (payload ++ more) p1 s1 in
    let count : len1 - 6 ≡ length rest = omega (arith, len) in
    let tail1 = drop 6 buffer in
    let filled =
      preamble high low ++ (rest ++ drop (6 + length rest) (preamble high low ++ tail1)) in
    let (ev3, r3, p3, s3) = read_payload-front hdr filled payload more ev2 p2 s2 n l in
    let at_length : read_round init buffer events
        ≡ read_header init len1 (preamble high low ++ tail1) ev1 =
      rw (read_round, r1) refl in
    let at_header : read_header init len1 (preamble high low ++ tail1) ev1
        ≡ decode_header (record init { header_length = len1 }) filled ev2 =
      rw (read_header, count, r2) refl in
    let at_payload : decode_header (record init { header_length = len1 }) filled ev2
        ≡ read_payload hdr filled ev2 =
      rw (decode_header, dec (drop (6 + length rest) (preamble high low ++ tail1))) refl in
    (filled, ev3, at_length ∙ (at_header ∙ (at_payload ∙ r3)), p3, s3)

-- A frame as it stands on the wire.
abbrev rest_of : Header → List ℕ → List ℕ → List ℕ
rest_of sent topic reply_topic = drop 6 (put_fields sent topic reply_topic)

split_fields :
    (sent : Header) (topic reply_topic : List ℕ)
    → put_fields sent topic reply_topic
      ≡ preamble (sent.header_length / 2 ^ 8 % 2 ^ 8) (sent.header_length % 2 ^ 8)
        ++ rest_of sent topic reply_topic
unfolding put_fields encode_uint16 encode_int32 encode_string uint16_bytes int32_bytes
split_fields sent topic reply_topic = refl

-- What the sender's header and the receiver's have in common when the first has these texts.
agree :
    (hdr : Header) (topic reply_topic : List ℕ) (len : ℕ)
    → length topic < max_topic_length
    → length reply_topic < max_topic_length
    → c_string hdr.topic ≡ some topic
    → c_string hdr.reply_topic ≡ some reply_topic
    → Agrees
        (record hdr { header_length = len })
        (received init (record hdr { header_length = len }) topic reply_topic)
        topic
        reply_topic
unfolding init
agree hdr topic reply_topic len lt lu t u = record {
  same_version = refl;
  same_header_length = refl;
  same_sequence_number = refl;
  same_flags = refl;
  same_control_data = refl;
  same_payload_length = refl;
  same_topic = c_string-copy_into hdr.topic topic 128 t lt;
  same_reply_topic = c_string-copy_into hdr.reply_topic reply_topic 128 u lu;
}

read_loop-ended :
    (rounds : ℕ) (running : Bool) (hdr hdr' : Header) (buffer payload filled : List ℕ)
    (events left : List Event)
    → read_round hdr buffer events ≡ ended rt_ok hdr' payload filled left
    → read_loop (suc rounds) running hdr buffer events
      ≡ finished rt_ok (some (record { header = hdr'; data_bytes = payload })) left
unfolding read_loop
read_loop-ended rounds running hdr hdr' buffer payload filled events left e = rw (read_loop, e) refl

decode-preamble :
    (sent : Header) (topic reply_topic : List ℕ) (stored : ℕ)
    → InRange sent
    → sent.header_length < u16_mod
    → length topic < max_topic_length
    → length reply_topic < max_topic_length
    → (tail : List ℕ)
    → decode
        (record init { header_length = stored })
        (preamble (sent.header_length / 2 ^ 8 % 2 ^ 8) (sent.header_length % 2 ^ 8)
          ++ (rest_of sent topic reply_topic ++ tail))
      ≡ decoded tt (received init sent topic reply_topic) tail
decode-preamble sent topic reply_topic stored r l lt lu tail =
    let target : Header = record init { header_length = stored } in
    ap (λ w. decode target (w ++ tail)) (sym (split_fields sent topic reply_topic))
    ∙ (ap (decode target) (put_fields-wire sent topic reply_topic tail)
        ∙ decode-wire target sent topic reply_topic tail r l lt lu)

-- If the events bring the bytes that `rtMessageHeader_Encode` writes for a header whose fields are in
-- range and whose arrays of 128 bytes hold the texts `topic` and `reply_topic`, then the payload of the
-- header's length below 2 ^ 31, then more, in whatever pieces, one call of `rtConnection_Read` ends with
-- RT_OK and a message of that payload and of a header with the same fields and texts; the events that are
-- left bring the rest.
pub read_connection-encode :
    (hdr sent : Header) (topic reply_topic bytes payload more buffer : List ℕ) (running : Bool)
    (events : List Event)
    → InRange hdr
    → length hdr.topic ≡ max_topic_length
    → length hdr.reply_topic ≡ max_topic_length
    → c_string hdr.topic ≡ some topic
    → c_string hdr.reply_topic ≡ some reply_topic
    → encode hdr ≡ some (sent, bytes)
    → hdr.payload_length ≡ length payload
    → length payload < 2 ^ 31
    → IsPlain events
    → stream events ≡ bytes ++ (payload ++ more)
    → (m : Message) × (left : List Event) × (read_connection running buffer events
        ≡ finished rt_ok (some m) left)
      × (m.data_bytes ≡ payload)
      × Agrees sent m.header topic reply_topic
      × IsPlain left
      × (stream left ≡ more)
unfolding read_connection
read_connection-encode hdr sent topic reply_topic bytes payload more buffer running events r lt lr t
      u enc n l p e =
    let topic_lt : length topic < max_topic_length = omega (arith, c_string-lt hdr.topic topic t) in
    let reply_lt : length reply_topic < max_topic_length =
      omega (arith, c_string-lt hdr.reply_topic reply_topic u) in
    let len = (size_without_strings + length topic + length reply_topic) % u16_mod in
    let sent1 : Header = record hdr { header_length = len } in
    let same : (sent1, put_fields sent1 topic reply_topic) ≡ (sent, bytes) =
      some-injective (sent1, put_fields sent1 topic reply_topic) (sent, bytes)
        (sym (encode-eq hdr t u) ∙ enc) in
    let high = len / 2 ^ 8 % 2 ^ 8 in
    let low = len % 2 ^ 8 in
    let rest = rest_of sent1 topic reply_topic in
    let got1 = received init sent1 topic reply_topic in
    let split : put_fields sent1 topic reply_topic ≡ preamble high low ++ rest =
      split_fields sent1 topic reply_topic in
    let size : length (put_fields sent1 topic reply_topic) ≡ 6 + length rest =
      omega (arith, ap length split) in
    let total : high * 2 ^ 8 + low ≡ 6 + length rest =
      omega (arith, size, length-put_fields sent1 topic reply_topic) in
    let decodes =
      decode-preamble sent1 topic reply_topic (high * 2 ^ 8 + low)
        (record {
          sequence_number_lt = r.sequence_number_lt;
          flags_lt = r.flags_lt;
          control_data_lt = r.control_data_lt;
          payload_length_lt = r.payload_length_lt;
        })
        (omega arith) topic_lt reply_lt in
    let whole : stream events ≡ preamble high low ++ (rest ++ (payload ++ more)) =
      e
      ∙ (ap (λ w. w.1 ++ (payload ++ more)) (sym same) ∙ ap (λ w. w ++ (payload ++ more)) split) in
    let (filled, left, ends, q, s) =
      read_round-frame buffer high low rest payload more got1 events p whole total decodes n l in
    (
      record { header = got1; data_bytes = payload },
      left,
      read_loop-ended 4 running init got1 buffer payload filled events left ends,
      refl,
      subst (λ w. Agrees w.0 got1 topic reply_topic) same
          (agree hdr topic reply_topic len topic_lt reply_lt t u),
      q,
      s,
    )
