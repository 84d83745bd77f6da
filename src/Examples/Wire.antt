-- ===== src/Examples/Wire.antt =====
-- Headers, streams and texts on the wire: the theorems at concrete inputs.
use rtmessage.Prelude.{
  ℕ, ◌≤◌, ◌≡◌, refl, sym, ap, subst, true, some, List, [], ◌∷◌, ◌++◌, length, replicate,
  length-replicate, arith, codes,
}
use mathlib.Core.Option.{some-injective}
use rtmessage.Error.{rt_ok, rt_error_stream_closed}
use rtmessage.Encoder.{decode_uint16, decode_uint32, decode_int32, decode_str}
use rtmessage.Header
use rtmessage.Header.{
  ◌>>=◌, ◌>>◌, continue, store, ensure, Header, init, encode, decode, decoded, c_string,
  header_marker, header_version,
}
use rtmessage.Header.Decode.{InRange, Agrees, decode-encode}
use rtmessage.Header.Accept.{Accepts, init-HasEnds, decode-Accepts}
use rtmessage.Client.{
  Client, Memory, bytes, nothing, overflow, replied, dispatch, asked, connect, splice,
  store_received, begin_header, begin_payload, read, read_header_preamble, read_header,
}
use rtmessage.Client.Validity.{IsValid, IsFramed, Keeps, connect-IsValid}
use rtmessage.Client.Bounds.{read-IsValid}
use rtmessage.Client.Frame
use rtmessage.Client.Lengths.{begin_header-overflow, begin_payload-empty}

abbrev request : Header
request = record {
  version = 2;
  header_length = 0;
  sequence_number = 17;
  flags = 1;
  control_data = 3;
  payload_length = 5;
  topic_length = 3;
  topic = codes "A.B" ++ replicate 125 0;
  reply_topic_length = 1;
  reply_topic = codes "R" ++ replicate 127 0;
}

request-InRange : InRange request
request-InRange = record {
  sequence_number_lt = omega arith;
  flags_lt = omega arith;
  control_data_lt = omega arith;
  payload_length_lt = omega arith;
}

topic_text : c_string request.topic ≡ some (codes "A.B")
unfolding c_string
topic_text = refl

reply_topic_text : c_string request.reply_topic ≡ some (codes "R")
unfolding c_string
reply_topic_text = refl

decode-encode_example :
    (sent : Header) × (wire : List ℕ) × (got : Header) × (encode request ≡ some (sent, wire))
    × (length wire ≡ sent.header_length)
    × (length wire ≤ 286)
    × (decode init (wire ++ (9 ∷ [])) ≡ decoded tt got (9 ∷ []))
    × Agrees sent got (codes "A.B") (codes "R")
decode-encode_example =
    decode-encode request (codes "A.B") (codes "R") (9 ∷ []) request-InRange refl refl topic_text
      reply_topic_text

decode-Accepts_example : Accepts (replicate 286 170) (decode init (replicate 286 170))
decode-Accepts_example =
    decode-Accepts init (replicate 286 170) init-HasEnds
      (omega (arith, length-replicate {A = ℕ} 286 170))

abbrev memory : Memory
memory = record {
  fill = λ n. replicate n 0;
  length-fill = λ n. length-replicate {A = ℕ} n 0;
  grants = λ n. true;
}

preamble-header_length :
    (tail : List ℕ) (start version n : ℕ) (p q r : List ℕ)
    → decode_uint16 (170 ∷ 170 ∷ 0 ∷ 2 ∷ 0 ∷ 40 ∷ tail) ≡ some (start, p)
    → decode_uint16 p ≡ some (version, q)
    → decode_uint16 q ≡ some (n, r)
    → n ≡ 40
unfolding decode_uint16
preamble-header_length tail start version n p q r e f g =
    let p_is : 0 ∷ 2 ∷ 0 ∷ 40 ∷ tail ≡ p = ap (λ x. x.1) (some-injective _ _ e) in
    let f' : some (2, 0 ∷ 40 ∷ tail) ≡ some (version, q) =
      subst (λ l. decode_uint16 l ≡ some (version, q)) (sym p_is) f in
    let q_is : 0 ∷ 40 ∷ tail ≡ q = ap (λ x. x.1) (some-injective _ _ f') in
    let g' : some (40, tail) ≡ some (n, r) =
      subst (λ l. decode_uint16 l ≡ some (n, r)) (sym q_is) g in
    ap (λ x. x.0) (sym (some-injective _ _ g'))

abbrev preamble : List ℕ
preamble = 170 ∷ 170 ∷ 0 ∷ 2 ∷ 0 ∷ 40 ∷ []

preamble-IsFramed : IsFramed (store_received connect preamble)
unfolding store_received connect splice
preamble-IsFramed = record {
  header_fits = λ start version n p q r full st e f g.
      let length_is = preamble-header_length _ start version n p q r e f g in
      (omega arith, omega arith);
  payload_fits = λ h rest full st e. absurd (preamble_state st);
}
  where
    preamble_state : read_header_preamble ≡ read_header → ⊥
    preamble_state e = cc

fits_first : length preamble ≤ asked connect
unfolding asked connect
fits_first = omega arith

read-IsValid_example : Keeps (read memory connect (bytes preamble))
read-IsValid_example =
    read-IsValid memory connect preamble connect-IsValid fits_first preamble-IsFramed

-- A client that has read the six bytes of a preamble
abbrev started : Client
started = record connect { bytes_read = 6 }

started-IsValid : IsValid started
unfolding connect
started-IsValid =
    let v = connect-IsValid in
    record {
      buffer_size = v.buffer_size;
      roomy = v.roomy;
      small = v.small;
      waiting = omega arith;
      in_buffer = v.in_buffer;
      ends = v.ends;
      preamble = refl;
    }

abbrev long_rest : List ℕ
long_rest = replicate 8994 1

long_rest_size : length long_rest ≡ 8994
long_rest_size = length-replicate {A = ℕ} 8994 1

begin_header-overflow_example :
    (c' : Client) × (begin_header started header_marker header_version 9000
      ≡ replied rt_ok c' nothing)
    × (length long_rest ≤ asked c')
    × (read memory c' (bytes long_rest) ≡ overflow)
unfolding connect
begin_header-overflow_example =
    begin_header-overflow memory started 9000 long_rest started-IsValid refl refl (omega arith)
      (omega (arith, long_rest_size)) (omega (arith, long_rest_size))

begin_payload-empty_example :
    (c' : Client) × (begin_payload memory started (record request { payload_length = 0 })
      ≡ replied rt_ok c' nothing)
    × (asked c' ≡ 0)
    × (read memory c' (bytes []) ≡ replied rt_error_stream_closed c' nothing)
unfolding connect
begin_payload-empty_example =
    begin_payload-empty memory started (record request { payload_length = 0 }) started-IsValid refl
      (omega arith) refl

-- The header of a message `hi` for the topic `A`, and the bytes behind its preamble
abbrev hello : Header
hello = record {
  version = 2;
  header_length = 33;
  sequence_number = 1;
  flags = 0;
  control_data = 0;
  payload_length = 2;
  topic_length = 1;
  topic = codes "A" ++ replicate 127 0;
  reply_topic_length = 0;
  reply_topic = replicate 128 0;
}

abbrev hello_rest : List ℕ
hello_rest =
    0 ∷ 0 ∷ 1 ∷ 0 ∷ 0 ∷ 0 ∷ 0 ∷ 0 ∷ 0 ∷ 0 ∷ 0 ∷ 0 ∷ 0 ∷ 0 ∷ 2 ∷ 0 ∷ 0 ∷ 0 ∷ 1 ∷ 65 ∷ 0 ∷ 0 ∷ 0 ∷ 0
    ∷ 170 ∷ 170 ∷ []

abbrev fresh_buffer : List ℕ
fresh_buffer = replicate 8192 0

hello_decodes :
    (tail : List ℕ)
    → decode init (Frame.preamble 0 33 ++ ((0 ∷ hello_rest) ++ tail)) ≡ decoded tt hello tail
unfolding decode init ◌>>=◌ ◌>>◌ continue Header.read store ensure decode_uint16 decode_uint32
    decode_int32 decode_str
hello_decodes tail = refl

read-dispatch_example :
    (c₁ : Client) × (c₂ : Client) × (c₃ : Client) × (asked (Frame.ready fresh_buffer) ≡ 6)
    × (read memory (Frame.ready fresh_buffer) (bytes (Frame.preamble 0 33))
        ≡ replied rt_ok c₁ nothing)
    × (asked c₁ ≡ length (0 ∷ hello_rest))
    × (read memory c₁ (bytes (0 ∷ hello_rest)) ≡ replied rt_ok c₂ nothing)
    × (asked c₂ ≡ 2)
    × (read memory c₂ (bytes (codes "hi")) ≡ replied rt_ok c₃ (dispatch hello (codes "hi")))
    × (c₃ ≡ Frame.ready c₃.read_buffer)
read-dispatch_example =
    Frame.read-dispatch memory fresh_buffer 0 33 0 hello_rest b'h' (codes "i") hello refl
      hello_decodes refl refl (omega arith)
