-- ===== src/Base64.antt =====
-- rtBase64.c. The bytes of a group are put together and taken apart by arithmetic: `x >> k` is
-- `x / 2 ^ k`, `x & (2 ^ k - 1)` is `x % 2 ^ k`, and an `|` of parts with no bit in common is their
-- sum; what is stored in a byte is reduced to 8 bits. The allocator is an argument.
pub mod Groups
pub mod RoundTrip
use rtmessage.Prelude.{
  ℕ, ◌+◌, ◌-◌, ◌*◌, ◌/◌, ◌%◌, Bool, true, false, ◌&&◌, not, Option, none, some, List, [], ◌∷◌, ◌++◌,
  length, get_or, ltb, leb, ◌==◌, if◌then◌else◌, codes,
}
use rtmessage.Error.{rt_ok, rt_error, rt_fail}

-- RBUS_BINARY_DATA_SIZE_LIMIT and RBUS_BASE64_DATA_SIZE_LIMIT
abbrev pub binary_data_size_limit : ℕ
binary_data_size_limit = 1026

abbrev pub base64_data_size_limit : ℕ
base64_data_size_limit = binary_data_size_limit * 4 / 3

abbrev pub pad : ℕ
pad = b'='

abbrev pub base64_lookup_table : List ℕ
base64_lookup_table = codes "ABCDEFGHIJKLMNOPQRSTUVWXYZabcdefghijklmnopqrstuvwxyz0123456789+/"

unfoldable pub lookup : ℕ → ℕ
lookup i = get_or base64_lookup_table i 0

-- decode_base64_char: `none` sets the error flag.
unfoldable pub decode_base64_char : ℕ → Option ℕ
decode_base64_char c =
    if leb b'A' c && leb c b'Z'
    then some (c - b'A')
    else if leb b'a' c && leb c b'z'
    then some (26 + c - b'a')
    else if leb b'0' c && leb c b'9'
    then some (52 + c - b'0')
    else if c == b'+'
    then some 62
    else if c == b'/'
    then some 63
    else none

-- What a call gives: a read outside its input, or an error code and the block at `*out`.
pub data Result : Type 0 where
  outside : Result
  returned : ℕ → Option (List ℕ) → Result

-- The loop of rtBase64_encode over the groups of three bytes, and its switch for the last group
unfoldable pub encode_groups : List ℕ → List ℕ
encode_groups [] = []
encode_groups (a ∷ []) = lookup (a / 4) ∷ lookup (a % 4 * 16) ∷ pad ∷ pad ∷ []
encode_groups (a ∷ b ∷ []) =
    lookup (a / 4) ∷ lookup (a % 4 * 16 + b / 16) ∷ lookup (b % 16 * 4) ∷ pad ∷ []
encode_groups (a ∷ b ∷ c ∷ more) =
    lookup (a / 4)
    ∷ lookup (a % 4 * 16 + b / 16)
    ∷ lookup (b % 16 * 4 + c / 64)
    ∷ lookup (c % 64)
    ∷ encode_groups more

-- The size that rtBase64_encode allocates and reports
unfoldable pub encode_size : ℕ → ℕ
encode_size in_size = in_size * 4 / 3 + 1 + (if in_size % 3 == 0 then 0 else 4)

-- rtBase64_encode: the block is the text, its terminator not shown.
unfoldable pub encode : Bool → List ℕ → Result
encode granted bytes =
    if ltb binary_data_size_limit (length bytes)
    then returned rt_error none
    else if granted
    then returned rt_ok (some (encode_groups bytes))
    else returned rt_fail none

-- The bytes of a group. The error flag of any character is the error of them all.
unfoldable pub decode_one : ℕ → ℕ → Option (List ℕ)
decode_one a b = elim (decode_base64_char a) [
  | none ↦ none
  | some x ↦ elim (decode_base64_char b) [
    | none ↦ none
    | some y ↦ some ((x * 4 % 256 + y / 16) ∷ [])
  ]
]

unfoldable pub decode_two : ℕ → ℕ → ℕ → Option (List ℕ)
decode_two a b c = elim (decode_one a b) [
  | none ↦ none
  | some bytes ↦ elim (decode_base64_char b) [
    | none ↦ none
    | some y ↦ elim (decode_base64_char c) [
      | none ↦ none
      | some z ↦ some (bytes ++ ((y * 16 % 256 + z / 4) ∷ []))
    ]
  ]
]

unfoldable pub decode_three : ℕ → ℕ → ℕ → ℕ → Option (List ℕ)
decode_three a b c d = elim (decode_two a b c) [
  | none ↦ none
  | some bytes ↦ elim (decode_base64_char c) [
    | none ↦ none
    | some z ↦ elim (decode_base64_char d) [
      | none ↦ none
      | some w ↦ some (bytes ++ ((z * 64 % 256 + w % 64) ∷ []))
    ]
  ]
]

-- The last group, with so many characters of padding
unfoldable pub decode_last : ℕ → ℕ → ℕ → ℕ → ℕ → Option (List ℕ)
decode_last padding a b c d =
    if padding == 2
    then decode_one a b
    else if padding == 1
    then decode_two a b c
    else decode_three a b c d

abbrev pub joined : Option (List ℕ) → Option (List ℕ) → Option (List ℕ)
joined none rest = none
joined (some bytes) none = none
joined (some bytes) (some more) = some (bytes ++ more)

-- The loop of rtBase64_decode over the groups of four characters, and what follows it for the last
-- group. The number of characters is a multiple of 4.
unfoldable pub decode_groups : ℕ → List ℕ → Option (List ℕ)
decode_groups padding (a ∷ b ∷ c ∷ d ∷ []) = decode_last padding a b c d
decode_groups padding (a ∷ b ∷ c ∷ d ∷ e ∷ more) =
    joined (decode_three a b c d) (decode_groups padding (e ∷ more))
decode_groups padding _ = some []

-- The character at a distance from the end
unfoldable pub from_end : List ℕ → ℕ → ℕ
from_end chars k = get_or chars (length chars - k) 0

-- `num_padding_bytes`
unfoldable pub num_padding_bytes : List ℕ → ℕ
num_padding_bytes chars =
    if from_end chars 2 == pad then 2 else if from_end chars 1 == pad then 1 else 0

abbrev pub decoded_result : Option (List ℕ) → Result
decoded_result none = returned rt_error none
decoded_result (some bytes) = returned rt_ok (some bytes)

-- rtBase64_decode. With no characters, `in[in_size - 2]` lies outside them.
unfoldable pub decode : Bool → List ℕ → Result
decode granted chars =
    if ltb base64_data_size_limit (length chars)
    then returned rt_error none
    else if not (length chars % 4 == 0)
    then returned rt_error none
    else if length chars == 0
    then outside
    else if granted
    then decoded_result (decode_groups (num_padding_bytes chars) chars)
    else returned rt_fail none
