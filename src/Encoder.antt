-- ===== src/Encoder.antt =====
-- rtEncoder.c: integers in network byte order and counted strings.
-- What `*itr` writes is appended to the bytes written so far. What it reads is taken from the bytes
-- that are left: `none` is a read beyond the end of the buffer.
pub mod RoundTrip
use rtmessage.Prelude.{
  ℕ, zero, suc, ◌+◌, ◌*◌, ◌/◌, ◌%◌, ◌^◌, Option, none, some, List, [], ◌∷◌, ◌++◌, length,
}

abbrev pub u16_mod : ℕ
u16_mod = 2 ^ 16

abbrev pub u32_mod : ℕ
u32_mod = 2 ^ 32

-- htons and memcpy: the high byte first
unfoldable pub uint16_bytes : ℕ → List ℕ
uint16_bytes n = (n / 2 ^ 8 % 2 ^ 8) ∷ (n % 2 ^ 8) ∷ []

unfoldable pub encode_uint16 : List ℕ → ℕ → List ℕ
encode_uint16 out n = out ++ uint16_bytes n

-- An `int32_t` is its bit pattern.
unfoldable pub int32_bytes : ℕ → List ℕ
int32_bytes n = (n / 2 ^ 24 % 2 ^ 8) ∷ (n / 2 ^ 16 % 2 ^ 8) ∷ (n / 2 ^ 8 % 2 ^ 8) ∷ (n % 2 ^ 8) ∷ []

unfoldable pub encode_int32 : List ℕ → ℕ → List ℕ
encode_int32 out n = out ++ int32_bytes n

unfoldable pub encode_uint32 : List ℕ → ℕ → List ℕ
encode_uint32 out n = encode_int32 out n

-- The text is what `strlen` counts, so it stands without its terminator. `n` is NULL in every call.
unfoldable pub encode_string : List ℕ → List ℕ → List ℕ
encode_string out s = encode_int32 out (length s % u32_mod) ++ s

unfoldable pub decode_uint16 : List ℕ → Option (ℕ × List ℕ)
decode_uint16 (a ∷ b ∷ rest) = some (a * 2 ^ 8 + b, rest)
decode_uint16 _ = none

unfoldable pub decode_int32 : List ℕ → Option (ℕ × List ℕ)
decode_int32 (a ∷ b ∷ c ∷ d ∷ rest) = some (a * 2 ^ 24 + b * 2 ^ 16 + c * 2 ^ 8 + d, rest)
decode_int32 _ = none

unfoldable pub decode_uint32 : List ℕ → Option (ℕ × List ℕ)
decode_uint32 bytes = decode_int32 bytes

-- rtEncoder_DecodeStr: `memcpy` of `len` bytes
unfoldable pub decode_str : ℕ → List ℕ → Option (List ℕ × List ℕ)
decode_str zero bytes = some ([], bytes)
decode_str (suc len) [] = none
decode_str (suc len) (b ∷ bytes) = elim (decode_str len bytes) [
  | none ↦ none
  | some (s, rest) ↦ some (b ∷ s, rest)
]

-- rtEncoder_DecodeString: the count, then that many bytes
unfoldable pub decode_string : List ℕ → Option (List ℕ × List ℕ)
decode_string bytes = elim (decode_int32 bytes) [
  | none ↦ none
  | some (len, rest) ↦ decode_str len rest
]
