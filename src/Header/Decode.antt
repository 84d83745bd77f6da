-- ===== src/Header/Decode.antt =====
-- `rtMessageHeader_Decode` reads back what `rtMessageHeader_Encode` wrote.
use rtmessage.Prelude.{
  ℕ, ◌+◌, ◌%◌, ◌≤◌, ◌<◌, ◌≡◌, refl, some, List, ◌++◌, length, arith, ltb, Option, true,
}
use native.Mathlib.Nat.{mod-eq_of_lt}
use rtmessage.Encoder.{
  u16_mod, u32_mod, uint16_bytes, int32_bytes, decode_uint16, decode_uint32, decode_str,
}
use rtmessage.Encoder.RoundTrip.{decode_uint16-bytes, decode_int32-bytes, decode_str-append}
use rtmessage.Header.{
  Header, init, M, decoded, header_version, max_topic_length, size_without_strings, put_fields,
  encode, c_string, decode, copy_into, ◌>>=◌, read, ensure, store, ◌>>◌,
}
use rtmessage.Header.Encode.{wire, put_fields-wire, length-put_fields, encode-eq}
use rtmessage.Header.Text.{c_string-lt, c_string-copy_into}

-- The fields are in the range of their C types.
pub record InRange (h : Header) : Type 0 where
  pub sequence_number_lt : h.sequence_number < u32_mod
  pub flags_lt : h.flags < u32_mod
  pub control_data_lt : h.control_data < u32_mod
  pub payload_length_lt : h.payload_length < u32_mod

-- What a receiver has in `target` once it has read the header `h` with these two texts.
abbrev pub received : Header → Header → List ℕ → List ℕ → Header
received target h topic reply_topic = record {
  version = header_version;
  header_length = h.header_length;
  sequence_number = h.sequence_number;
  flags = h.flags;
  control_data = h.control_data;
  payload_length = h.payload_length;
  topic_length = length topic;
  topic = copy_into target.topic topic;
  reply_topic_length = length reply_topic;
  reply_topic = copy_into target.reply_topic reply_topic;
}

-- One statement of the decoder at a time, as equations that are used from left to right.
module _ {A : Type 0} (h : Header) (bytes : List ℕ) (k : M A) where
  store_step : (f : Header → Header) → (store f >> k) h bytes ≡ k (f h) bytes
  unfolding store ◌>>◌ ◌>>=◌
  store_step f = refl

  ensure_step : (ensure true >> k) h bytes ≡ k h bytes
  unfolding ensure ◌>>◌ ◌>>=◌
  ensure_step = refl

read_step :
    {A B : Type 0} (h : Header) (bytes rest : List ℕ) (f : List ℕ → Option (A × List ℕ)) (a : A)
    (k : A → M B)
    → f bytes ≡ some (a, rest)
    → (read f >>= k) h bytes ≡ k a h rest
unfolding read ◌>>=◌
read_step h bytes rest f a k e = rw (e, read, ◌>>=◌)

module _ {B : Type 0} (h : Header) (rest : List ℕ) where
  uint16_step :
      (k : ℕ → M B) (n : ℕ)
      → (read decode_uint16 >>= k) h (uint16_bytes n ++ rest) ≡ k (n % u16_mod) h rest
  uint16_step k n = read_step h _ rest _ (n % u16_mod) k (decode_uint16-bytes n rest)

  uint32_step :
      (k : ℕ → M B) (n : ℕ)
      → (read decode_uint32 >>= k) h (int32_bytes n ++ rest) ≡ k (n % u32_mod) h rest
  unfolding decode_uint32
  uint32_step k n = read_step h _ rest _ (n % u32_mod) k (decode_int32-bytes n rest)

  str_step :
      (k : List ℕ → M B) (s : List ℕ)
      → (read (decode_str (length s)) >>= k) h (s ++ rest) ≡ k s h rest
  str_step k s = read_step h _ rest _ s k (decode_str-append s rest)

ruleset steps = (store_step, ensure_step, uint16_step, uint32_step, str_step)

pub decode-wire :
    (target h : Header) (topic reply_topic rest : List ℕ)
    → InRange h
    → h.header_length < u16_mod
    → length topic < max_topic_length
    → length reply_topic < max_topic_length
    → decode target (wire h topic reply_topic rest)
      ≡ decoded tt (received target h topic reply_topic) rest
unfolding decode
decode-wire target h topic reply_topic rest r b t u =
    let topic_lt : ltb (length topic) max_topic_length ≡ true = ground arith in
    let reply_lt : ltb (length reply_topic) max_topic_length ≡ true = ground arith in
    let topic_mod : length topic % u32_mod ≡ length topic = omega arith in
    let reply_mod : length reply_topic % u32_mod ≡ length reply_topic = omega arith in
    simp
      (
        steps,
        topic_lt,
        reply_lt,
        topic_mod,
        reply_mod,
        mod-eq_of_lt b,
        mod-eq_of_lt r.sequence_number_lt,
        mod-eq_of_lt r.flags_lt,
        mod-eq_of_lt r.control_data_lt,
        mod-eq_of_lt r.payload_length_lt,
      )
      (unfold ensure in refl)

-- What the receiver's header `got` says of the sender's header `sent`.
pub record Agrees (sent got : Header) (topic reply_topic : List ℕ) : Type 0 where
  pub same_version : got.version ≡ header_version
  pub same_header_length : got.header_length ≡ sent.header_length
  pub same_sequence_number : got.sequence_number ≡ sent.sequence_number
  pub same_flags : got.flags ≡ sent.flags
  pub same_control_data : got.control_data ≡ sent.control_data
  pub same_payload_length : got.payload_length ≡ sent.payload_length
  pub same_topic : c_string got.topic ≡ some topic
  pub same_reply_topic : c_string got.reply_topic ≡ some reply_topic

-- A header whose fields are in range and whose arrays of 128 bytes hold the texts `topic` and
-- `reply_topic` is encoded. The stored `header_length` is the number of bytes written, at most 286. Decoded from
-- a fresh header, with any bytes behind them, these bytes are all taken and give the same fields and
-- texts, at version 2.
pub decode-encode :
    (hdr : Header) (topic reply_topic rest : List ℕ)
    → InRange hdr
    → length hdr.topic ≡ max_topic_length
    → length hdr.reply_topic ≡ max_topic_length
    → c_string hdr.topic ≡ some topic
    → c_string hdr.reply_topic ≡ some reply_topic
    → (sent : Header) × (bytes : List ℕ) × (got : Header) × (encode hdr ≡ some (sent, bytes))
      × (length bytes ≡ sent.header_length)
      × (length bytes ≤ 286)
      × (decode init (bytes ++ rest) ≡ decoded tt got rest)
      × Agrees sent got topic reply_topic
unfolding init
decode-encode hdr topic reply_topic rest r lt lr t u =
    let topic_lt : length topic < max_topic_length = omega (arith, c_string-lt hdr.topic topic t) in
    let reply_lt : length reply_topic < max_topic_length =
      omega (arith, c_string-lt hdr.reply_topic reply_topic u) in
    let sent : Header = record hdr {
      header_length = (size_without_strings + length topic + length reply_topic) % u16_mod;
    } in
    (
      sent,
      put_fields sent topic reply_topic,
      received init sent topic reply_topic,
      encode-eq hdr t u,
      omega (arith, length-put_fields sent topic reply_topic),
      omega (arith, length-put_fields sent topic reply_topic),
      rw (put_fields-wire sent topic reply_topic rest) (
          decode-wire init sent topic reply_topic rest (omega arith) (omega arith) topic_lt
            reply_lt),
      record {
        same_version = refl;
        same_header_length = refl;
        same_sequence_number = refl;
        same_flags = refl;
        same_control_data = refl;
        same_payload_length = refl;
        same_topic = c_string-copy_into hdr.topic topic 128 t topic_lt;
        same_reply_topic = c_string-copy_into hdr.reply_topic reply_topic 128 u reply_lt;
      },
    )
