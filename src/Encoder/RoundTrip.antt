-- ===== src/Encoder/RoundTrip.antt =====
-- What the encoder writes, the decoder reads back.
use rtmessage.Prelude.{
  ℕ, zero, ◌%◌, suc, ◌≤◌, ◌<◌, ◌≡◌, refl, ap, some, List, [], ◌∷◌, ◌++◌, length, arith,
  append_assoc,
}
use native.Mathlib.Nat.{mod-eq_of_lt}
use rtmessage.Encoder.{
  u16_mod, u32_mod, uint16_bytes, int32_bytes, encode_int32, encode_string, decode_uint16,
  decode_int32, decode_str, decode_string,
}

pub decode_uint16-bytes :
    (n : ℕ) (rest : List ℕ) → decode_uint16 (uint16_bytes n ++ rest) ≡ some (n % u16_mod, rest)
unfolding decode_uint16 uint16_bytes
decode_uint16-bytes n rest = ap (λ k. some (k, rest)) (omega arith)

pub decode_int32-bytes :
    (n : ℕ) (rest : List ℕ) → decode_int32 (int32_bytes n ++ rest) ≡ some (n % u32_mod, rest)
unfolding decode_int32 int32_bytes
decode_int32-bytes n rest = ap (λ k. some (k, rest)) (omega arith)

pub decode_str-append : (s rest : List ℕ) → decode_str (length s) (s ++ rest) ≡ some (s, rest)
unfolding decode_str
decode_str-append [] rest = refl
decode_str-append (b ∷ s) rest = rw (decode_str-append s rest)

-- A string shorter than 2 ^ 32 bytes that is encoded is decoded to itself, and what stands behind it
-- is left.
decode_string-encode_string :
    (s rest : List ℕ)
    → length s < u32_mod
    → decode_string (encode_string [] s ++ rest) ≡ some (s, rest)
unfolding decode_string encode_string encode_int32
decode_string-encode_string s rest h =
    rw (mod-eq_of_lt h, append_assoc, decode_int32-bytes, mod-eq_of_lt h, decode_string)
      (decode_str-append s rest)

pub length-uint16_bytes : (n : ℕ) → length (uint16_bytes n) ≡ 2
unfolding uint16_bytes
length-uint16_bytes n = refl

pub length-int32_bytes : (n : ℕ) → length (int32_bytes n) ≡ 4
unfolding int32_bytes
length-int32_bytes n = refl

-- A read of at most the bytes that are there succeeds, and leaves the others.
pub decode_str_total :
    (len : ℕ) (bytes : List ℕ)
    → len ≤ length bytes
    → (s : List ℕ) × (rest : List ℕ) × (decode_str len bytes ≡ some (s, rest))
      × (bytes ≡ s ++ rest)
      × (length s ≡ len)
unfolding decode_str
decode_str_total zero bytes h = ([], bytes, refl, refl, refl)
decode_str_total (suc len) [] h = elim h [ ]
decode_str_total (suc len) (b ∷ bytes) h =
    let (s, rest, e, p, l) = decode_str_total len bytes (omega arith) in
    (b ∷ s, rest, rw e, ap (◌∷◌ b) p, ap suc l)
