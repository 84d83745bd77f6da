-- ===== src/Client/Frame.antt =====
-- A whole frame through `rtConnectedClient_Read`, in the three pieces that it asks for.
use rtmessage.Prelude.{
  ℕ, ◌+◌, ◌*◌, ◌%◌, ◌^◌, ◌≤◌, ◌<◌, ◌≡◌, refl, sym, ap, ap₂, ◌∙◌, true, false, ◌&&◌, List, [], ◌∷◌,
  ◌++◌, length, take, drop, ltb, ◌==◌, arith, take-length_append, drop-length_append,
}
use rtmessage.Error.{rt_ok}
use rtmessage.Encoder.{u32_mod, decode_uint16}
use rtmessage.Header.{Header, init, decoded, decode}
use rtmessage.Client.{
  Client, Memory, bytes, replied, nothing, dispatch, ReadState, read_header_preamble, read_header,
  read_payload, read_buffer_size, asked, reset, splice, begin_header, on_preamble, begin_payload,
  on_header, on_payload, on_complete, advance, store_received, read,
}

-- A client that waits for a preamble, whatever its read buffer holds
abbrev pub ready : List ℕ → Client
ready buffer = record {
  read_buffer = buffer;
  state = read_header_preamble;
  bytes_read = 0;
  bytes_to_read = 6;
  read_buffer_capacity = read_buffer_size;
  header = init;
}

-- The marker, the version and the two bytes of the header length
abbrev pub preamble : ℕ → ℕ → List ℕ
preamble high low = 170 ∷ 170 ∷ 0 ∷ 2 ∷ high ∷ low ∷ []

abbrev pub in_header : List ℕ → ℕ → Client
in_header buffer n = record {
  read_buffer = buffer;
  state = read_header;
  bytes_read = 6;
  bytes_to_read = n;
  read_buffer_capacity = read_buffer_size;
  header = init;
}

abbrev pub in_payload : List ℕ → ℕ → ℕ → Header → Client
in_payload buffer n m header = record {
  read_buffer = buffer;
  state = read_payload;
  bytes_read = n;
  bytes_to_read = m;
  read_buffer_capacity = read_buffer_size;
  header = header;
}

read-preamble :
    (mem : Memory) (buffer : List ℕ) (high low n : ℕ)
    → high * 2 ^ 8 + low ≡ n
    → n < 2 ^ 16
    → read mem (ready buffer) (bytes (preamble high low))
      ≡ replied rt_ok (in_header (preamble high low ++ drop 6 buffer) n) nothing
unfolding read advance on_complete on_preamble begin_header store_received splice decode_uint16
read-preamble mem buffer high low n e small =
    ap (λ m. replied rt_ok (in_header (preamble high low ++ drop 6 buffer) m) nothing)
      (ground arith)

-- What stands behind the bytes of a header in the buffer
abbrev pub behind_header : List ℕ → ℕ → ℕ → List ℕ → List ℕ
behind_header buffer high low more = drop (6 + length more) (preamble high low ++ drop 6 buffer)

-- Bytes for which there is room are stored, and counted.
read-room :
    (mem : Memory) (c : Client) (b : ℕ) (new : List ℕ)
    → c.bytes_read + length (b ∷ new) ≤ c.read_buffer_capacity
    → read mem c (bytes (b ∷ new)) ≡ advance mem (store_received c (b ∷ new))
unfolding read
read-room mem c b new room =
    let fits : ltb c.read_buffer_capacity (c.bytes_read + length (b ∷ new)) ≡ false =
      ground arith in
    rw fits refl

advance_complete :
    (mem : Memory) (c : Client) (s : ReadState)
    → c.bytes_read ≡ c.bytes_to_read
    → c.state ≡ s
    → advance mem c ≡ on_complete mem c s
unfolding advance
advance_complete mem c s full st =
    let whole : (c.bytes_read == c.bytes_to_read) ≡ true = ground arith in
    rw whole (ap (on_complete mem c) st)

begin_payload-room :
    (mem : Memory) (c : Client) (got : Header)
    → c.bytes_to_read + got.payload_length + c.bytes_read ≤ c.read_buffer_capacity
    → c.read_buffer_capacity ≡ read_buffer_size
    → begin_payload mem c got
      ≡ replied rt_ok
          (record c {
            header = got;
            bytes_to_read = c.bytes_to_read + got.payload_length;
            state = read_payload;
          })
          nothing
unfolding begin_payload
begin_payload-room mem c got room size =
    let sum : (c.bytes_to_read + got.payload_length) % u32_mod
        ≡ c.bytes_to_read + got.payload_length =
      omega arith in
    let roomy : (ltb ((c.bytes_to_read + got.payload_length + c.bytes_read) % u32_mod) (2 ^ 31)
          && ltb c.read_buffer_capacity
              ((c.bytes_to_read + got.payload_length + c.bytes_read) % u32_mod))
        ≡ false =
      ground arith in
    rw (sum, roomy) refl

on_header-decoded :
    (mem : Memory) (c : Client) (got : Header) (rest : List ℕ)
    → decode c.header c.read_buffer ≡ decoded tt got rest
    → on_header mem c ≡ begin_payload mem c got
unfolding on_header
on_header-decoded mem c got rest e = rw (on_header, e) refl

read-header :
    (mem : Memory) (buffer : List ℕ) (high low b : ℕ) (rest : List ℕ) (got : Header)
    → decode init (preamble high low ++ ((b ∷ rest) ++ behind_header buffer high low (b ∷ rest)))
      ≡ decoded tt got (behind_header buffer high low (b ∷ rest))
    → 2 * (6 + length (b ∷ rest)) + got.payload_length ≤ read_buffer_size
    → read mem
        (in_header (preamble high low ++ drop 6 buffer) (6 + length (b ∷ rest)))
        (bytes (b ∷ rest))
      ≡ replied rt_ok
          (in_payload
            (preamble high low ++ ((b ∷ rest) ++ behind_header buffer high low (b ∷ rest)))
            (6 + length (b ∷ rest))
            (6 + length (b ∷ rest) + got.payload_length)
            got)
          nothing
unfolding on_complete store_received splice
read-header mem buffer high low b rest got e fits =
    let n = 6 + length (b ∷ rest) in
    let whole = preamble high low ++ ((b ∷ rest) ++ behind_header buffer high low (b ∷ rest)) in
    let stored = record (in_header whole n) { bytes_read = n } in
    read-room mem (in_header (preamble high low ++ drop 6 buffer) n) b rest (omega arith)
    ∙ (ap (λ m. advance mem (record (in_header whole n) { bytes_read = m })) (ground arith)
        ∙ (advance_complete mem stored read_header refl refl
            ∙ (on_header-decoded mem stored got _ e
                ∙ begin_payload-room mem stored got (omega arith) refl)))

-- The payload lies behind the header.
message_lem :
    (wire payload tail : List ℕ) (header_length payload_length : ℕ)
    → header_length ≡ length wire
    → payload_length ≡ length payload
    → take payload_length (
        drop header_length (
          take (length wire) (wire ++ tail)
          ++ (payload ++ drop (length wire + length payload) (wire ++ tail))))
      ≡ payload
message_lem wire payload tail h n e f =
    rw (e, f, take-length_append wire tail, drop-length_append wire) (take-length_append payload _)

read-payload :
    (mem : Memory) (wire tail : List ℕ) (p : ℕ) (payload : List ℕ) (got : Header)
    → got.header_length ≡ length wire
    → got.payload_length ≡ length (p ∷ payload)
    → length wire + length (p ∷ payload) ≤ read_buffer_size
    → (c : Client) × (read mem
          (in_payload (wire ++ tail) (length wire) (length wire + length (p ∷ payload)) got)
          (bytes (p ∷ payload))
        ≡ replied rt_ok c (dispatch got (p ∷ payload)))
      × (c ≡ ready c.read_buffer)
unfolding on_complete on_payload store_received splice reset
read-payload mem wire tail p payload got hl pl fits =
    let n = length wire + length (p ∷ payload) in
    (
      ready (splice (wire ++ tail) (length wire) (p ∷ payload)),
      read-room mem (in_payload (wire ++ tail) (length wire) n got) p payload (omega arith)
          ∙ (ap
                (λ m.
                  advance mem
                    (record (in_payload (splice (wire ++ tail) (length wire) (p ∷ payload)) n n
                      got) { bytes_read = m }))
                (ground arith)
              ∙ (advance_complete mem
                    (in_payload (splice (wire ++ tail) (length wire) (p ∷ payload)) n n got)
                    read_payload refl refl
                  ∙ ap
                      (λ m.
                        replied rt_ok (ready (splice (wire ++ tail) (length wire) (p ∷ payload)))
                          (dispatch got m))
                      (message_lem wire (p ∷ payload) tail got.header_length got.payload_length hl
                        pl))),
      refl,
    )

-- A client that is ready, whatever its read buffer holds, asks for the six bytes of the preamble, then
-- for the rest of the header, then for the payload. Given these, where the header decodes to `got`
-- whatever stands behind it, its lengths are those of the pieces, the payload is not empty, and
-- the header twice and the payload have at most 8192 bytes, it dispatches `got` with exactly that
-- payload, and is ready again.
pub read-dispatch :
    (mem : Memory) (buffer : List ℕ) (high low b : ℕ) (rest : List ℕ) (p : ℕ) (payload : List ℕ)
    (got : Header)
    → high * 2 ^ 8 + low ≡ 6 + length (b ∷ rest)
    → ((tail : List ℕ)
        → decode init (preamble high low ++ ((b ∷ rest) ++ tail)) ≡ decoded tt got tail)
    → got.header_length ≡ 6 + length (b ∷ rest)
    → got.payload_length ≡ length (p ∷ payload)
    → 2 * (6 + length (b ∷ rest)) + length (p ∷ payload) ≤ read_buffer_size
    → (c₁ : Client) × (c₂ : Client) × (c₃ : Client) × (asked (ready buffer) ≡ 6)
      × (read mem (ready buffer) (bytes (preamble high low)) ≡ replied rt_ok c₁ nothing)
      × (asked c₁ ≡ length (b ∷ rest))
      × (read mem c₁ (bytes (b ∷ rest)) ≡ replied rt_ok c₂ nothing)
      × (asked c₂ ≡ length (p ∷ payload))
      × (read mem c₂ (bytes (p ∷ payload)) ≡ replied rt_ok c₃ (dispatch got (p ∷ payload)))
      × (c₃ ≡ ready c₃.read_buffer)
unfolding asked
read-dispatch mem buffer high low b rest p payload got len decodes hl pl fits =
    let n = 6 + length (b ∷ rest) in
    let wire = preamble high low ++ (b ∷ rest) in
    let tail = behind_header buffer high low (b ∷ rest) in
    let m = n + length (p ∷ payload) in
    let size : length wire ≡ n = omega arith in
    let (c, delivered, again) =
      read-payload mem wire tail p payload got (hl ∙ sym size) pl (omega arith) in
    (
      in_header (preamble high low ++ drop 6 buffer) n,
      in_payload (wire ++ tail) n (n + got.payload_length) got,
      c,
      omega arith,
      read-preamble mem buffer high low n len (omega arith),
      ground arith,
      read-header mem buffer high low b rest got (decodes tail) (omega (arith, pl)),
      ground (arith, pl),
      ap₂ (λ i j. read mem (in_payload (wire ++ tail) i j got) (bytes (p ∷ payload))) (sym size)
            (ap₂ (◌+◌) (sym size) pl)
          ∙ delivered,
      again,
    )
