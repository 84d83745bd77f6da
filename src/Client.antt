-- ===== src/Client.antt =====
-- rtrouted.c: how the router reads a client's stream, `rtConnectedClient_Init`,
-- `rtConnectedClient_Reset` and `rtConnectedClient_Read`, without WITH_SPAKE2, MSG_ROUNDTRIP_TIME
-- and ENABLE_ROUTER_BENCHMARKING (their defaults).
-- An `int` is its bit pattern, below 2 ^ 32. The socket and the allocator are arguments.
pub mod Validity
pub mod Bounds
pub mod Lengths
pub mod Frame
use rtmessage.Prelude.{
  ℕ, zero, suc, ◌+◌, ◌-◌, ◌*◌, ◌%◌, ◌^◌, Bool, true, false, ◌&&◌, ◌≡◌, Option, none, some, List, [],
  ◌∷◌, ◌++◌, length, replicate, take, drop, ltb, leb, ◌==◌, if◌then◌else◌,
}
use rtmessage.Error.{rt_ok, rt_error_stream_closed, error_from_errno}
use rtmessage.Encoder.{u32_mod, decode_uint16}
use rtmessage.Header.{
  Header, init, preamble_length, header_marker, header_version, Decoded, overrun, failed, decoded,
  decode,
}

abbrev pub read_buffer_size : ℕ
read_buffer_size = 1024 * 8

-- rtConnectionState
pub data ReadState : Type 0 where
  read_header_preamble read_header read_payload : ReadState

-- The fields that reading uses. `read_buffer` holds `read_buffer_capacity` bytes.
pub record Client : Type 0 where
  pub read_buffer : List ℕ
  pub state : ReadState
  pub bytes_read : ℕ
  pub bytes_to_read : ℕ
  pub read_buffer_capacity : ℕ
  pub header : Header

-- What `malloc` puts in a new block of `n` bytes, and whether `realloc` to `n` bytes succeeds.
pub record Memory : Type 0 where
  pub fill : ℕ → List ℕ
  pub length-fill : (n : ℕ) → length (fill n) ≡ n
  pub grants : ℕ → Bool

-- What `recv` returned: -1 with `errno`, or bytes; no bytes is the end of the stream.
pub data Received : Type 0 where
  error : ℕ → Received
  bytes : List ℕ → Received

-- What a read leaves to the router: nothing, a message for `rtRouter_DispatchMessageFromClient`, or
-- a payload of so many bytes that `_rtConnection_ReadAndDropBytes` takes off the socket.
pub data Effect : Type 0 where
  nothing : Effect
  dispatch : Header → List ℕ → Effect
  drop_bytes : ℕ → Effect

-- `overflow` is an access outside the read buffer.
pub data Reply : Type 0 where
  overflow : Reply
  replied : ℕ → Client → Effect → Reply

-- rtConnectedClient_Init, which clears the buffer
unfoldable pub connect : Client
connect = record {
  read_buffer = replicate read_buffer_size 0;
  state = read_header_preamble;
  bytes_read = 0;
  bytes_to_read = preamble_length;
  read_buffer_capacity = read_buffer_size;
  header = init;
}

-- rtConnectedClient_Reset
unfoldable pub reset : Client → Client
reset c = record c {
  bytes_to_read = preamble_length;
  bytes_read = 0;
  state = read_header_preamble;
  header = init;
}

-- The length handed to `recv`: the `int` difference, converted to `size_t`.
unfoldable pub asked : Client → ℕ
asked c =
    let d = (c.bytes_to_read + u32_mod - c.bytes_read) % u32_mod in
    if ltb d (2 ^ 31) then d else 2 ^ 64 - (u32_mod - d)

-- The bytes that `recv` puts at an offset.
unfoldable pub splice : List ℕ → ℕ → List ℕ → List ℕ
splice buffer at new = take at buffer ++ (new ++ drop (at + length new) buffer)

-- `case rtConnectionState_ReadHeaderPreamble`, once the preamble is there
unfoldable pub begin_header : Client → ℕ → ℕ → ℕ → Reply
begin_header c start version header_length =
    if (start == header_marker) && (version == header_version)
    then replied rt_ok
        (record c {
          bytes_to_read = (c.bytes_to_read + header_length + u32_mod - preamble_length) % u32_mod;
          state = read_header;
        })
        nothing
    else replied rt_ok (reset c) nothing

unfoldable pub on_preamble : Client → Reply
on_preamble c = elim (decode_uint16 c.read_buffer) [
  | none ↦ overflow
  | some (start, p) ↦ elim (decode_uint16 p) [
    | none ↦ overflow
    | some (version, q) ↦ elim (decode_uint16 q) [
      | none ↦ overflow
      | some (header_length, r) ↦ begin_header c start version header_length
    ]
  ]
]

-- The header is decoded: make room for the payload.
unfoldable pub begin_payload : Memory → Client → Header → Reply
begin_payload mem c header =
    let to_read = (c.bytes_to_read + header.payload_length) % u32_mod in
    let incoming = (to_read + c.bytes_read) % u32_mod in
    let next = record c { header = header; bytes_to_read = to_read; state = read_payload } in
    if ltb incoming (2 ^ 31) && ltb c.read_buffer_capacity incoming
    then if mem.grants incoming
      then replied rt_ok
          (record next {
            read_buffer = c.read_buffer ++ mem.fill (incoming - c.read_buffer_capacity);
            read_buffer_capacity = incoming;
          })
          nothing
      else replied rt_ok (reset next) (drop_bytes header.payload_length)
    else replied rt_ok next nothing

-- `case rtConnectionState_ReadHeader`
unfoldable pub on_header : Memory → Client → Reply
on_header mem c = elim (decode c.header c.read_buffer) [
  | overrun ↦ overflow
  | failed header ↦ replied rt_ok (reset (record c { header = header })) nothing
  | decoded _ header rest ↦ begin_payload mem c header
]

-- `case rtConnectionState_ReadPayload`: dispatch, reset, and shrink an enlarged buffer
unfoldable pub on_payload : Memory → Client → Reply
on_payload mem c =
    let message = take c.header.payload_length (drop c.header.header_length c.read_buffer) in
    let done = reset c in
    replied rt_ok
      (if c.read_buffer_capacity == read_buffer_size then done else record done {
        read_buffer = mem.fill read_buffer_size;
        read_buffer_capacity = read_buffer_size;
      })
      (dispatch c.header message)

unfoldable pub on_complete : Memory → Client → ReadState → Reply
on_complete mem c read_header_preamble = on_preamble c
on_complete mem c read_header = on_header mem c
on_complete mem c read_payload = on_payload mem c

-- The switch: each case acts only once all the bytes that it waits for are there.
unfoldable pub advance : Memory → Client → Reply
advance mem c =
    if c.bytes_read == c.bytes_to_read then on_complete mem c c.state else replied rt_ok c nothing

-- The bytes are in the buffer, and counted.
unfoldable pub store_received : Client → List ℕ → Client
store_received c new = record c {
  read_buffer = splice c.read_buffer c.bytes_read new;
  bytes_read = (c.bytes_read + length new) % u32_mod;
}

-- rtConnectedClient_Read, given what its `recv` returned
unfoldable pub read : Memory → Client → Received → Reply
read mem c (error errno) = replied (error_from_errno errno) c nothing
read mem c (bytes []) = replied rt_error_stream_closed c nothing
read mem c (bytes (b ∷ more)) =
    let new = b ∷ more in
    if ltb c.read_buffer_capacity (c.bytes_read + length new)
    then overflow
    else advance mem (store_received c new)
