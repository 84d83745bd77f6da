-- ===== src/Base64/RoundTrip.antt =====
-- rtBase64.c: encoding, then decoding.
use rtmessage.Prelude.{
  ℕ, suc, ◌+◌, ◌-◌, ◌*◌, ◌/◌, ◌%◌, ◌≤◌, ◌<◌, ◌≡◌, refl, ap, ap₂, ◌∙◌, true, false, some, List, [],
  ◌∷◌, length, All, ltb, ◌==◌, if◌then◌else◌, arith,
}
use rtmessage.Error.{rt_ok}
use rtmessage.Base64.{
  pad, returned, encode_groups, encode_size, encode, decode_three, decode_last, joined,
  decode_groups, from_end, num_padding_bytes, decode, decoded_result, binary_data_size_limit,
  base64_data_size_limit,
}
use rtmessage.Base64.Groups.{
  decode_base64_char-lookup, decode_one-lookup, decode_two-lookup, decode_three-lookup,
}

abbrev pub IsByte : ℕ → Type 0
IsByte b = b < 256

-- How much padding the text of these bytes has.
abbrev pub padding_of : List ℕ → ℕ
padding_of [] = 0
padding_of (a ∷ []) = 2
padding_of (a ∷ b ∷ []) = 1
padding_of (a ∷ b ∷ c ∷ more) = padding_of more

-- There are at least four characters for at least one byte.
encode_groups-cons :
    (a : ℕ) (more : List ℕ)
    → (c : ℕ) × (rest : List ℕ) × (encode_groups (a ∷ more) ≡ c ∷ rest) × (2 ≤ length rest)
unfolding encode_groups
encode_groups-cons a [] = (_, _, refl, omega arith)
encode_groups-cons a (b ∷ []) = (_, _, refl, omega arith)
encode_groups-cons a (b ∷ c ∷ more) = (_, _, refl, omega arith)

decode_groups-more :
    (p a b c d : ℕ) (rest : List ℕ)
    → 0 < length rest
    → decode_groups p (a ∷ b ∷ c ∷ d ∷ rest) ≡ joined (decode_three a b c d) (decode_groups p rest)
unfolding decode_groups
decode_groups-more p a b c d [] l = absurd (omega arith)
decode_groups-more p a b c d (e ∷ rest) l = refl

decode_groups-encode_groups :
    (bytes : List ℕ)
    → All IsByte bytes
    → decode_groups (padding_of bytes) (encode_groups bytes) ≡ some bytes
unfolding encode_groups
decode_groups-encode_groups [] h = unfold decode_groups in refl
decode_groups-encode_groups (a ∷ []) h = unfold decode_groups decode_last in decode_one-lookup a h.0
decode_groups-encode_groups (a ∷ b ∷ []) h =
    unfold decode_groups decode_last in decode_two-lookup a b h.0 h.1.0
decode_groups-encode_groups (a ∷ b ∷ c ∷ []) h =
    unfold decode_groups decode_last in decode_three-lookup a b c h.0 h.1.0 h.1.1.0
decode_groups-encode_groups (a ∷ b ∷ c ∷ d ∷ more) h =
    let (e, rest, shape, long) = encode_groups-cons d more in
    decode_groups-more (padding_of (d ∷ more)) _ _ _ _ (encode_groups (d ∷ more))
      (omega (arith, ap length shape))
    ∙ ap₂ joined (decode_three-lookup a b c h.0 h.1.0 h.1.1.0)
        (decode_groups-encode_groups (d ∷ more) h.1.1.1)

-- Four characters in front change nothing at the end.
from_end-more :
    (a b c d k : ℕ) (rest : List ℕ)
    → k ≤ length rest
    → from_end (a ∷ b ∷ c ∷ d ∷ rest) k ≡ from_end rest k
unfolding from_end
from_end-more a b c d k rest l =
    let four : suc (suc (suc (suc (length rest)))) - k ≡ suc (suc (suc (suc (length rest - k)))) =
      omega arith in
    rw four refl

num_padding_bytes-more :
    (a b c d : ℕ) (rest : List ℕ)
    → 2 ≤ length rest
    → num_padding_bytes (a ∷ b ∷ c ∷ d ∷ rest) ≡ num_padding_bytes rest
unfolding num_padding_bytes
num_padding_bytes-more a b c d rest l =
    ap₂ (λ x y. if x == pad then 2 else if y == pad then 1 else 0) (from_end-more a b c d 2 rest l)
      (from_end-more a b c d 1 rest (omega arith))

num_padding_bytes-encode_groups :
    (a : ℕ) (bytes : List ℕ)
    → All IsByte (a ∷ bytes)
    → num_padding_bytes (encode_groups (a ∷ bytes)) ≡ padding_of (a ∷ bytes)
unfolding encode_groups num_padding_bytes from_end
num_padding_bytes-encode_groups a [] h = refl
num_padding_bytes-encode_groups a (b ∷ []) h =
    rw ((decode_base64_char-lookup (b % 16 * 4) (ground arith)).1) refl
num_padding_bytes-encode_groups a (b ∷ c ∷ []) h =
    rw
      (
        (decode_base64_char-lookup (b % 16 * 4 + c / 64) (ground arith)).1,
        (decode_base64_char-lookup (c % 64) (ground arith)).1,
      )
      refl
num_padding_bytes-encode_groups a (b ∷ c ∷ d ∷ more) h =
    let (e, rest, shape, long) = encode_groups-cons d more in
    num_padding_bytes-more _ _ _ _ (encode_groups (d ∷ more)) (omega (arith, ap length shape))
    ∙ num_padding_bytes-encode_groups d more h.1.1.1

-- The text is 4 characters for each group of 3 bytes that is begun.
length-encode_groups : (bytes : List ℕ) → length (encode_groups bytes) ≡ (length bytes + 2) / 3 * 4
unfolding encode_groups
length-encode_groups [] = refl
length-encode_groups (a ∷ []) = refl
length-encode_groups (a ∷ b ∷ []) = refl
length-encode_groups (a ∷ b ∷ c ∷ more) = ground (arith, length-encode_groups more)

-- The text and its terminator fit in the block that `rtBase64_encode` allocates.
encode_size-fits : (bytes : List ℕ) → length (encode_groups bytes) + 1 ≤ encode_size (length bytes)
unfolding encode_size
encode_size-fits bytes = ground (arith, length-encode_groups bytes)

-- From 1 to 1026 bytes are encoded, and with the memory granted their text decodes to the same
-- bytes.
pub decode-encode_base64 :
    (a : ℕ) (bytes : List ℕ)
    → All IsByte (a ∷ bytes)
    → length (a ∷ bytes) ≤ binary_data_size_limit
    → (encode true (a ∷ bytes) ≡ returned rt_ok (some (encode_groups (a ∷ bytes))))
      × (decode true (encode_groups (a ∷ bytes)) ≡ returned rt_ok (some (a ∷ bytes)))
unfolding encode decode
decode-encode_base64 a bytes h l =
    let size = length-encode_groups (a ∷ bytes) in
    let small : ltb binary_data_size_limit (length (a ∷ bytes)) ≡ false = ground arith in
    let short : ltb base64_data_size_limit (length (encode_groups (a ∷ bytes))) ≡ false =
      ground (arith, size) in
    let whole : (length (encode_groups (a ∷ bytes)) % 4 == 0) ≡ true = ground (arith, size) in
    let some_chars : (length (encode_groups (a ∷ bytes)) == 0) ≡ false = ground (arith, size) in
    (
      rw small refl,
      rw (short, whole, some_chars)
          (ap decoded_result (
            ap (λ p. decode_groups p (encode_groups (a ∷ bytes)))
              (num_padding_bytes-encode_groups a bytes h)
            ∙ decode_groups-encode_groups (a ∷ bytes) h)),
    )
