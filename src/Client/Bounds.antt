-- ===== src/Client/Bounds.antt =====
-- The reader of rtrouted.c stays in its buffer as long as the length fields of the stream are sane.
use rtmessage.Prelude.{
  ℕ, ◌+◌, ◌-◌, ◌%◌, ◌^◌, ◌≤◌, ◌<◌, ◌≡◌, refl, subst, true, ◌&&◌, some, List, [], ◌∷◌, length, ltb,
  ◌==◌, arith, length-append, Bool-cases, inl, inr,
}
use rtmessage.Encoder.{u32_mod, decode_uint16}
use rtmessage.Header.{
  Header, header_marker, header_version, decode, Decoded, overrun, failed, decoded,
}
use rtmessage.Header.Accept.{HasEnds, decode-Within, Within, Any}
use rtmessage.Client.{
  Client, Memory, bytes, overflow, replied, nothing, ReadState, read_header_preamble, read_header,
  read_payload, read_buffer_size, reset, asked, begin_header, on_preamble, begin_payload, on_header,
  on_payload, on_complete, advance, store_received, read,
}
use rtmessage.Client.Validity.{
  Preamble, IsValid, asked_lem, IsFramed, Keeps, reset-IsValid, store_received-IsValid,
}

decode_uint16-some :
    (buffer : List ℕ)
    → 2 ≤ length buffer
    → (n : ℕ) × (rest : List ℕ) × (decode_uint16 buffer ≡ some (n, rest))
      × (length rest + 2 ≡ length buffer)
unfolding decode_uint16
decode_uint16-some [] h = absurd (omega arith)
decode_uint16-some (a ∷ []) h = absurd (omega arith)
decode_uint16-some (a ∷ b ∷ rest) h = (_, rest, refl, omega arith)

begin_header-Keeps :
    (c : Client) (start version n : ℕ)
    → IsValid c
    → c.bytes_to_read ≡ 6
    → c.bytes_read ≡ 6
    → (6 ≤ n) × (n ≤ c.read_buffer_capacity)
    → Keeps (begin_header c start version n)
unfolding begin_header
begin_header-Keeps c start version n v t b f =
    elim (Bool-cases ((start == header_marker) && (version == header_version))) [
      | inl e ↦ rw e (record {
        buffer_size = v.buffer_size;
        roomy = v.roomy;
        small = v.small;
        waiting = omega arith;
        in_buffer = omega arith;
        ends = v.ends;
        preamble = tt;
      })
      | inr e ↦ rw e (reset-IsValid c v.buffer_size v.roomy v.small)
    ]

pub preamble-at : (c : Client) → IsValid c → c.state ≡ read_header_preamble → c.bytes_to_read ≡ 6
preamble-at c v st = subst (λ s. Preamble s c.bytes_to_read) st v.preamble

on_preamble-Keeps :
    (c : Client)
    → IsValid c
    → c.state ≡ read_header_preamble
    → c.bytes_read ≡ c.bytes_to_read
    → IsFramed c
    → Keeps (on_preamble c)
unfolding on_preamble
on_preamble-Keeps c v st full f =
    let (start, p, e1, l1) =
      decode_uint16-some c.read_buffer (omega (arith, v.buffer_size, v.roomy)) in
    let (version, q, e2, l2) = decode_uint16-some p (omega (arith, v.buffer_size, v.roomy)) in
    let (n, r, e3, l3) = decode_uint16-some q (omega (arith, v.buffer_size, v.roomy)) in
    rw (e1, on_preamble)
      (rw (e2) (
        rw (e3) (
          begin_header-Keeps c start version n v (preamble-at c v st)
            (omega (arith, preamble-at c v st))
            (f.header_fits start version n p q r full st e1 e2 e3))))

begin_payload-Keeps :
    (mem : Memory) (c : Client) (h : Header)
    → IsValid c
    → HasEnds h
    → c.bytes_read ≡ c.bytes_to_read
    → c.bytes_to_read + h.payload_length + c.bytes_read < 2 ^ 30
    → Keeps (begin_payload mem c h)
unfolding begin_payload
begin_payload-Keeps mem c h v e full f =
    let to_read = (c.bytes_to_read + h.payload_length) % u32_mod in
    let incoming = (to_read + c.bytes_read) % u32_mod in
    let exact : incoming ≡ c.bytes_to_read + h.payload_length + c.bytes_read = omega arith in
    elim (Bool-cases (ltb incoming (2 ^ 31) && ltb c.read_buffer_capacity incoming)) [
      | inl big ↦ elim (Bool-cases (mem.grants incoming)) [
        | inl granted ↦
            rw (big, granted)
              (record {
                buffer_size = omega (
                  arith,
                  length-append c.read_buffer (mem.fill (incoming - c.read_buffer_capacity)),
                  mem.length-fill (incoming - c.read_buffer_capacity),
                  fits_above big,
                );
                roomy = omega (arith, fits_above big, v.roomy);
                small = omega arith;
                waiting = omega arith;
                in_buffer = omega arith;
                ends = e;
                preamble = tt;
              })
        | inr refused ↦ rw (big, refused) (reset-IsValid _ v.buffer_size v.roomy v.small)
      ]
      | inr small ↦ rw small (record {
        buffer_size = v.buffer_size;
        roomy = v.roomy;
        small = v.small;
        waiting = omega arith;
        in_buffer = ground arith;
        ends = e;
        preamble = tt;
      })
    ]
  where
    fits_above :
        let incoming = ((c.bytes_to_read + h.payload_length) % u32_mod + c.bytes_read) % u32_mod in
        (ltb incoming (2 ^ 31) && ltb c.read_buffer_capacity incoming) ≡ true
        → c.read_buffer_capacity < incoming
    fits_above b = ground arith

on_header-Keeps :
    (mem : Memory) (c : Client)
    → IsValid c
    → c.state ≡ read_header
    → c.bytes_read ≡ c.bytes_to_read
    → IsFramed c
    → Keeps (on_header mem c)
unfolding on_header
on_header-Keeps mem c v st full f =
    split (decode c.header c.read_buffer) refl
      (decode-Within c.header c.read_buffer v.ends (omega (arith, v.buffer_size, v.roomy)))
  where
    split :
        (d : Decoded (Unit {0}))
        → decode c.header c.read_buffer ≡ d
        → Within 286 c.read_buffer (Any {A = Unit {0}}) d
        → Keeps (elim d [
          | overrun ↦ overflow
          | failed header ↦ replied 0 (reset (record c { header = header })) nothing
          | decoded _ header rest ↦ begin_payload mem c header
        ])
    split overrun e w = w
    split (failed h) e w = reset-IsValid _ v.buffer_size v.roomy v.small
    split (decoded a h rest) e w =
        begin_payload-Keeps mem c h v w.0 full (f.payload_fits h rest full st e)

on_payload-Keeps : (mem : Memory) (c : Client) → IsValid c → Keeps (on_payload mem c)
unfolding on_payload reset
on_payload-Keeps mem c v = elim (Bool-cases (c.read_buffer_capacity == read_buffer_size)) [
  | inl same ↦ rw same (reset-IsValid c v.buffer_size v.roomy v.small)
  | inr other ↦ rw other (
      reset-IsValid (record c { read_buffer = _; read_buffer_capacity = read_buffer_size })
        (mem.length-fill read_buffer_size) (omega arith) (omega arith))
]

advance-Keeps : (mem : Memory) (c : Client) → IsValid c → IsFramed c → Keeps (advance mem c)
unfolding advance
advance-Keeps mem c v f = elim (Bool-cases (c.bytes_read == c.bytes_to_read)) [
  | inl e ↦ rw e (by_state c.state refl (ground arith))
  | inr e ↦ rw e v
]
  where
    by_state :
        (s : ReadState) → c.state ≡ s → c.bytes_read ≡ c.bytes_to_read → Keeps (on_complete mem c s)
    by_state read_header_preamble e full = unfold on_complete in on_preamble-Keeps c v e full f
    by_state read_header e full = unfold on_complete in on_header-Keeps mem c v e full f
    by_state read_payload e full = unfold on_complete in on_payload-Keeps mem c v

-- A read of a valid client whose `recv` returned no more than it was asked for, on a stream whose
-- length fields are sane where they are complete, makes no access outside the read buffer and
-- leaves the client valid.
pub read-IsValid :
    (mem : Memory) (c : Client) (new : List ℕ)
    → IsValid c
    → length new ≤ asked c
    → IsFramed (store_received c new)
    → Keeps (read mem c (bytes new))
unfolding read
read-IsValid mem c [] v f s = v
read-IsValid mem c (b ∷ more) v f s =
    elim (Bool-cases (ltb c.read_buffer_capacity (c.bytes_read + length (b ∷ more)))) [
      | inl over ↦ absurd (over_asked over)
      | inr fits ↦ rw fits (advance-Keeps mem _ (store_received-IsValid c (b ∷ more) v f) s)
    ]
  where
    over_asked : ltb c.read_buffer_capacity (c.bytes_read + length (b ∷ more)) ≡ true → ⊥
    over_asked o = ground (arith, asked_lem c v)
