-- ===== src/Header.antt =====
-- rtMessageHeader.h and rtMessageHeader.c, without MSG_ROUNDTRIP_TIME (its default in CMakeLists.txt).
-- A `char` array is the list of its bytes. `encode` returns the header with the length that it
-- stores, beside the bytes written. `decode` runs over the header and the bytes that are left.
pub mod Text
pub mod Encode
pub mod Decode
pub mod Accept
use rtmessage.Prelude.{
  ℕ, suc, ◌+◌, ◌%◌, ◌^◌, Bool, true, false, Option, none, some, List, [], ◌∷◌, ◌++◌, length, drop,
  replicate, ltb, ◌==◌, if◌then◌else◌, bit_and, bit_or,
}
use rtmessage.Encoder.{
  u16_mod, encode_uint16, encode_int32, encode_string, decode_uint16, decode_uint32, decode_str,
}

abbrev pub max_topic_length : ℕ
max_topic_length = 128

abbrev pub header_version : ℕ
header_version = 2

abbrev pub header_marker : ℕ
header_marker = 0xaaaa

abbrev pub preamble_length : ℕ
preamble_length = 6

-- rtMessageFlags
abbrev pub flag_request : ℕ
flag_request = 0x01

abbrev pub flag_response : ℕ
flag_response = 0x02

abbrev pub flag_undeliverable : ℕ
flag_undeliverable = 0x04

pub record Header : Type 0 where
  pub version : ℕ
  pub header_length : ℕ
  pub sequence_number : ℕ
  pub flags : ℕ
  pub control_data : ℕ
  pub payload_length : ℕ
  pub topic_length : ℕ
  pub topic : List ℕ
  pub reply_topic_length : ℕ
  pub reply_topic : List ℕ

-- rtMessageHeader_Init; every field is overwritten
unfoldable pub init : Header
init = record {
  version = header_version;
  header_length = 0;
  sequence_number = 0;
  flags = 0;
  control_data = 0;
  payload_length = 0;
  topic_length = 0;
  topic = replicate max_topic_length 0;
  reply_topic_length = 0;
  reply_topic = replicate max_topic_length 0;
}

-- The text in an array, which `strlen` measures: `none` if there is no terminator in the array.
unfoldable pub c_string : List ℕ → Option (List ℕ)
c_string [] = none
c_string (b ∷ bytes) =
    let rest : Option (List ℕ) = elim (c_string bytes) [ none ↦ none | some s ↦ some (b ∷ s) ] in
    if b == 0 then some [] else rest

-- The code counts 28 bytes of data and 4 of markers beside the two texts.
abbrev pub size_without_strings : ℕ
size_without_strings = 32

-- The fields in the order of the calls; `version` is not written, but the constant.
unfoldable pub put_fields : Header → List ℕ → List ℕ → List ℕ
put_fields hdr topic reply_topic =
    let p1 = encode_uint16 [] header_marker in
    let p2 = encode_uint16 p1 header_version in
    let p3 = encode_uint16 p2 hdr.header_length in
    let p4 = encode_int32 p3 hdr.sequence_number in
    let p5 = encode_int32 p4 hdr.flags in
    let p6 = encode_int32 p5 hdr.control_data in
    let p7 = encode_int32 p6 hdr.payload_length in
    let p8 = encode_string p7 topic in
    let p9 = encode_string p8 reply_topic in encode_uint16 p9 header_marker

unfoldable pub encode : Header → Option (Header × List ℕ)
encode hdr = elim (c_string hdr.topic) [
  | none ↦ none
  | some topic ↦ elim (c_string hdr.reply_topic) [
    | none ↦ none
    | some reply_topic ↦
        let len = (size_without_strings + length topic + length reply_topic) % u16_mod in
        some (
          record hdr { header_length = len },
          put_fields (record hdr { header_length = len }) topic reply_topic,
        )
  ]
]

-- `overrun` is a read beyond the buffer, `failed` the return of RT_ERROR; both keep no position.
pub data Decoded {ℓ} (A : Type ℓ) : Type ℓ where
  overrun : Decoded A
  failed : Header → Decoded A
  decoded : A → Header → List ℕ → Decoded A

abbrev pub M : Type 0 → Type 0
M A = Header → List ℕ → Decoded A

unfoldable pub continue : {A B : Type 0} → Decoded A → (A → M B) → Decoded B
continue overrun f = overrun
continue (failed h) f = failed h
continue (decoded a h rest) f = f a h rest

infixl 5 ◌>>=◌ ◌>>◌
unfoldable pub ◌>>=◌ : {A B : Type 0} → M A → (A → M B) → M B
unfolding continue
◌>>=◌ m f hdr bytes = continue (m hdr bytes) f

unfoldable pub ◌>>◌ : {B : Type 0} → M (Unit {0}) → M B → M B
m >> k = m >>= λ _. k

unfoldable pub read : {A : Type 0} → (List ℕ → Option (A × List ℕ)) → M A
read f hdr bytes = elim (f bytes) [ none ↦ overrun | some (a, rest) ↦ decoded a hdr rest ]

unfoldable pub store : (Header → Header) → M (Unit {0})
store f hdr bytes = decoded tt (f hdr) bytes

unfoldable pub ensure : Bool → M (Unit {0})
ensure true hdr bytes = decoded tt hdr bytes
ensure false hdr bytes = failed hdr

-- `memcpy` to the front of an array
abbrev pub copy_into : List ℕ → List ℕ → List ℕ
copy_into array s = s ++ drop (length s) array

-- `ptr` is never NULL, so the two tests of it are left out.
unfoldable pub decode : M (Unit {0})
decode = do
  marker ← read decode_uint16
  ensure (marker == header_marker)
  version ← read decode_uint16
  store (λ h. record h { version = version })
  header_length ← read decode_uint16
  store (λ h. record h { header_length = header_length })
  sequence_number ← read decode_uint32
  store (λ h. record h { sequence_number = sequence_number })
  flags ← read decode_uint32
  store (λ h. record h { flags = flags })
  control_data ← read decode_uint32
  store (λ h. record h { control_data = control_data })
  payload_length ← read decode_uint32
  store (λ h. record h { payload_length = payload_length })
  topic_length ← read decode_uint32
  store (λ h. record h { topic_length = topic_length })
  ensure (ltb topic_length max_topic_length)
  topic ← read (decode_str topic_length)
  store (λ h. record h { topic = copy_into h.topic topic })
  reply_topic_length ← read decode_uint32
  store (λ h. record h { reply_topic_length = reply_topic_length })
  ensure (ltb reply_topic_length max_topic_length)
  reply_topic ← read (decode_str reply_topic_length)
  store (λ h. record h { reply_topic = copy_into h.reply_topic reply_topic })
  end_marker ← read decode_uint16
  ensure (end_marker == header_marker)

-- rtMessageHeader_SetIsRequest
unfoldable pub set_is_request : Header → Header
set_is_request hdr = record hdr { flags = bit_or hdr.flags flag_request }

-- rtMessageHeader_IsRequest
unfoldable pub is_request : Header → Bool
is_request hdr = bit_and hdr.flags flag_request == flag_request
