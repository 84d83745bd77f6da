-- ===== src/Client/Validity.antt =====
-- When the buffer and the counters of a client of rtrouted.c are valid, and its length fields sane.
use rtmessage.Prelude.{
  ℕ, ◌+◌, ◌-◌, ◌^◌, ◌≤◌, ◌<◌, ◌≡◌, refl, some, List, ◌++◌, length, take, drop, arith, length-append,
  length-take, length-drop, length-replicate,
}
use rtmessage.Encoder.{decode_uint16}
use rtmessage.Header.{Header, decode, decoded}
use rtmessage.Header.Accept.{HasEnds, init-HasEnds}
use rtmessage.Client.{
  Client, Received, error, bytes, Reply, overflow, replied, ReadState, read_header_preamble,
  read_header, read_payload, read_buffer_size, connect, reset, asked, splice, store_received,
}

-- While it waits for a preamble, the reader waits for 6 bytes.
abbrev pub Preamble : ReadState → ℕ → Type 0
Preamble read_header_preamble n = n ≡ 6
Preamble read_header n = Unit
Preamble read_payload n = Unit

-- The reader waits for at least one byte, which lies in the buffer.
pub record IsValid (c : Client) : Type 0 where
  pub buffer_size : length c.read_buffer ≡ c.read_buffer_capacity
  pub roomy : read_buffer_size ≤ c.read_buffer_capacity
  pub small : c.read_buffer_capacity < 2 ^ 30
  pub waiting : c.bytes_read ≤ c.bytes_to_read
  pub in_buffer : c.bytes_to_read ≤ c.read_buffer_capacity
  pub ends : HasEnds c.header
  pub preamble : Preamble c.state c.bytes_to_read

pub connect-IsValid : IsValid connect
unfolding connect
connect-IsValid = record {
  buffer_size = length-replicate {A = ℕ} read_buffer_size 0;
  roomy = omega arith;
  small = omega arith;
  waiting = omega arith;
  in_buffer = omega arith;
  ends = init-HasEnds;
  preamble = refl;
}

pub asked_lem : (c : Client) → IsValid c → asked c ≡ c.bytes_to_read - c.bytes_read
unfolding asked
asked_lem c v = ground arith

length-splice :
    (buffer : List ℕ) (at : ℕ) (new : List ℕ)
    → at + length new ≤ length buffer
    → length (splice buffer at new) ≡ length buffer
unfolding splice
length-splice buffer at new h = omega (
  arith,
  length-append (take at buffer) (new ++ drop (at + length new) buffer),
  length-append new (drop (at + length new) buffer),
  length-take at buffer,
  length-drop (at + length new) buffer,
)

-- `recv` returns no more than it was asked for.
abbrev pub Fits : Client → Received → Type 0
Fits c (error e) = Unit
Fits c (bytes new) = length new ≤ asked c

-- The length fields are sane once they are there: a header of 6 to `read_buffer_capacity` bytes, and a payload with
-- which the message stays below 2 ^ 30 bytes.
pub record IsFramed (c : Client) : Type 0 where
  pub header_fits :
      (start version n : ℕ) (p q r : List ℕ)
      → c.bytes_read ≡ c.bytes_to_read
      → c.state ≡ read_header_preamble
      → decode_uint16 c.read_buffer ≡ some (start, p)
      → decode_uint16 p ≡ some (version, q)
      → decode_uint16 q ≡ some (n, r)
      → (6 ≤ n) × (n ≤ c.read_buffer_capacity)
  pub payload_fits :
      (h : Header) (rest : List ℕ)
      → c.bytes_read ≡ c.bytes_to_read
      → c.state ≡ read_header
      → decode c.header c.read_buffer ≡ decoded tt h rest
      → c.bytes_to_read + h.payload_length + c.bytes_read < 2 ^ 30

abbrev pub Keeps : Reply → Type 0
Keeps overflow = ⊥
Keeps (replied code c e) = IsValid c

-- What a buffer needs for `reset` to be valid.
pub reset-IsValid :
    (c : Client)
    → length c.read_buffer ≡ c.read_buffer_capacity
    → read_buffer_size ≤ c.read_buffer_capacity
    → c.read_buffer_capacity < 2 ^ 30
    → IsValid (reset c)
unfolding reset
reset-IsValid c size room small = record {
  buffer_size = size;
  roomy = room;
  small = small;
  waiting = omega arith;
  in_buffer = omega arith;
  ends = init-HasEnds;
  preamble = refl;
}

pub store_received-IsValid :
    (c : Client) (new : List ℕ) → IsValid c → length new ≤ asked c → IsValid (store_received c new)
unfolding store_received
store_received-IsValid c new v f = record {
  buffer_size = omega (
    arith,
    asked_lem c v,
    length-splice c.read_buffer c.bytes_read new (omega (arith, asked_lem c v)),
  );
  roomy = v.roomy;
  small = v.small;
  waiting = omega (arith, asked_lem c v);
  in_buffer = v.in_buffer;
  ends = v.ends;
  preamble = v.preamble;
}
