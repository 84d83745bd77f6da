-- ===== src/Client/Lengths.antt =====
-- What the reader of rtrouted.c does with length fields that it does not check.
use rtmessage.Prelude.{
  ℕ, ◌+◌, ◌%◌, ◌^◌, ◌≤◌, ◌<◌, ◌≡◌, refl, true, false, List, [], ◌∷◌, length, ltb, arith, ◌&&◌, ◌-◌,
}
use rtmessage.Error.{rt_ok, rt_error_stream_closed}
use rtmessage.Encoder.{u32_mod}
use rtmessage.Header.{Header, header_marker, header_version, preamble_length}
use rtmessage.Client.{
  Client, Memory, bytes, overflow, replied, nothing, read_header_preamble, read_header,
  read_payload, asked, begin_header, begin_payload, read,
}
use rtmessage.Client.Validity.{IsValid}
use rtmessage.Client.Bounds.{preamble-at}

-- The client after a preamble with a good marker and version.
abbrev pub expecting : Client → ℕ → Client
expecting c n = record c {
  bytes_to_read = (c.bytes_to_read + n + u32_mod - preamble_length) % u32_mod;
  state = read_header;
}

asked-expecting :
    (c : Client) (n : ℕ)
    → c.bytes_read ≡ 6
    → c.bytes_to_read ≡ 6
    → 6 ≤ n
    → n < 2 ^ 16
    → asked (expecting c n) ≡ n - 6
unfolding asked
asked-expecting c n r t low high = ground arith

spills :
    (mem : Memory) (c : Client) (new : List ℕ)
    → c.read_buffer_capacity < c.bytes_read + length new
    → c.bytes_read ≤ c.read_buffer_capacity
    → read mem c (bytes new) ≡ overflow
unfolding read
spills mem c [] over low = absurd (omega arith)
spills mem c (b ∷ new) over low =
    let full : ltb c.read_buffer_capacity (c.bytes_read + length (b ∷ new)) ≡ true = ground arith in
    rw full refl

-- A valid client that has its preamble, with the right marker and version and a header length above
-- the size of the read buffer, goes on to ask `recv` for the rest of that header, and the
-- bytes that `recv` may return then are written behind the buffer as soon as they are too many for it.
pub begin_header-overflow :
    (mem : Memory) (c : Client) (n : ℕ) (new : List ℕ)
    → IsValid c
    → c.state ≡ read_header_preamble
    → c.bytes_read ≡ 6
    → n < 2 ^ 16
    → c.read_buffer_capacity < 6 + length new
    → 6 + length new ≤ n
    → (c' : Client) × (begin_header c header_marker header_version n ≡ replied rt_ok c' nothing)
      × (length new ≤ asked c')
      × (read mem c' (bytes new) ≡ overflow)
unfolding begin_header
begin_header-overflow mem c n new v st full high over fits =
    let six = preamble-at c v st in
    (
      expecting c n,
      refl,
      omega (arith, asked-expecting c n full six (omega arith) high),
      spills mem (expecting c n) new (omega arith) (omega (arith, v.roomy)),
    )

-- The client after a header that leaves the read buffer as it is.
abbrev pub awaiting : Client → Header → Client
awaiting c h = record c {
  header = h;
  bytes_to_read = (c.bytes_to_read + h.payload_length) % u32_mod;
  state = read_payload;
}

asked-awaiting :
    (c : Client) (h : Header)
    → c.bytes_read ≡ c.bytes_to_read
    → c.bytes_to_read < 2 ^ 30
    → h.payload_length ≡ 0
    → asked (awaiting c h) ≡ 0
unfolding asked
asked-awaiting c h full small none = ground arith

-- With a decoded header whose payload is empty, a valid client that has all the bytes of the header, and whose
-- buffer has room for twice as many, goes on to ask `recv` for no bytes at all, and what `recv` then
-- returns is taken for the end of the stream: the message is not dispatched.
pub begin_payload-empty :
    (mem : Memory) (c : Client) (h : Header)
    → IsValid c
    → c.bytes_read ≡ c.bytes_to_read
    → c.bytes_to_read + c.bytes_read ≤ c.read_buffer_capacity
    → h.payload_length ≡ 0
    → (c' : Client) × (begin_payload mem c h ≡ replied rt_ok c' nothing)
      × (asked c' ≡ 0)
      × (read mem c' (bytes []) ≡ replied rt_error_stream_closed c' nothing)
unfolding begin_payload read
begin_payload-empty mem c h v full room none =
    let fits : (ltb (((c.bytes_to_read + h.payload_length) % u32_mod + c.bytes_read) % u32_mod)
            (2 ^ 31)
          && ltb c.read_buffer_capacity
              (((c.bytes_to_read + h.payload_length) % u32_mod + c.bytes_read) % u32_mod))
        ≡ false =
      ground arith in
    (awaiting c h, rw fits refl, asked-awaiting c h full (omega (arith, v.small)) none, refl)
