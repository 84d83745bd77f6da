-- ===== src/Socket.antt =====
-- rtSocket.c: the addresses of sockets as text. What the C library and the network interfaces answer is an
-- argument.
pub mod Parsing
use rtmessage.Prelude.{
  ℕ, ◌+◌, ◌-◌, ◌%◌, ◌^◌, Bool, true, false, ◌&&◌, not, Option, none, some, List, [], ◌∷◌, ◌++◌,
  length, take, codes, ltb, leb, ◌==◌, if◌then◌else◌,
}
use rtmessage.Error.{rt_ok, rt_error_invalid_arg, error_from_errno}

-- `inet_pton`: 1 with an address, 0, or -1
pub data Pton : Type 0 where
  parsed : List ℕ → Pton
  malformed unsupported : Pton

-- `inet_pton` and `inet_ntop` for AF_INET and AF_INET6, `strtol` in base 10, as a 64-bit pattern,
-- rtSocket_InterfaceNameToAddress, and `errno` after a call that fails
pub record Network : Type 0 where
  pub inet_pton4 : List ℕ → Pton
  pub inet_pton6 : List ℕ → Pton
  pub inet_ntop4 : List ℕ → List ℕ
  pub strtol : List ℕ → ℕ
  pub interface_address : List ℕ → ℕ × List ℕ
  pub errno : ℕ

-- struct sockaddr_storage, by its family; `unset` is all zero.
pub data Endpoint : Type 0 where
  unset : Endpoint
  local : List ℕ → Endpoint
  v4 v6 : List ℕ → ℕ → Endpoint

-- `isdigit`
abbrev pub is_digit : ℕ → Bool
is_digit c = leb 48 c && leb c 57

-- The loop of rtSocket_IsNumeric, which tests `s[0]` in each round
unfoldable pub numeric_loop : ℕ → List ℕ → Bool
numeric_loop first [] = true
numeric_loop first (c ∷ s) =
    let rest = numeric_loop first s in if not (is_digit first) && not (c == 46) then false else rest

-- rtSocket_IsNumeric
unfoldable pub is_numeric : List ℕ → Bool
is_numeric [] = true
is_numeric (c ∷ s) = numeric_loop c (c ∷ s)

-- `strrchr`: the text before the last byte of this value, and the text behind it.
unfoldable pub split_last : ℕ → List ℕ → Option (List ℕ × List ℕ)
split_last c [] = none
split_last c (x ∷ s) = elim (split_last c s) [
  | some (before, behind) ↦ some (x ∷ before, behind)
  | none ↦ if x == c then some ([], s) else none
]

-- `strncmp` with a prefix: the text behind it.
unfoldable pub behind_prefix : List ℕ → List ℕ → Option (List ℕ)
behind_prefix [] text = some text
behind_prefix (a ∷ more) [] = none
behind_prefix (a ∷ more) (b ∷ text) =
    let rest = behind_prefix more text in if a == b then rest else none

abbrev pub colon : ℕ
colon = 58

-- rtSocketStorage_ParsePort: an error and the port.
unfoldable pub parse_port : Network → List ℕ → ℕ × ℕ
parse_port net s = elim (split_last colon s) [
  | none ↦ (rt_error_invalid_arg, 0)
  | some (before, behind) ↦ (rt_ok, net.strtol behind % 2 ^ 16)
]

-- An error and the endpoint, a text that fills `ip` without a terminator and is read behind its end, or one
-- that is written behind its end
pub data Parsed : Type 0 where
  ended : ℕ → Endpoint → Parsed
  unterminated outside : Parsed

-- The end of rtSocketStorage_FromString, from `inet_pton`
unfoldable pub set_address : Network → Endpoint → List ℕ → ℕ → Parsed
set_address net ss ip port = elim (net.inet_pton4 ip) [
  | parsed address ↦ ended rt_ok (v4 address port)
  | unsupported ↦ ended (error_from_errno net.errno) ss
  | malformed ↦ elim (net.inet_pton6 ip) [
    | parsed address ↦ ended rt_ok (v6 address port)
    | malformed ↦ ended rt_ok ss
    | unsupported ↦ ended rt_ok ss
  ]
]

-- rtSocketStorage_FromString from the test if `ip` is numeric
unfoldable pub set_host : Network → Endpoint → List ℕ → ℕ → Parsed
set_host net ss ip port =
    let (err, address) = net.interface_address ip in
    if is_numeric ip
    then set_address net ss ip port
    else if err == rt_ok
    then set_address net ss address port
    else ended err ss

-- The size of `ip`, with its terminator
abbrev pub ip_size : ℕ
ip_size = 128

-- The room for the bytes of a path in `sun_path`
abbrev pub path_max : ℕ
path_max = 107

-- The part of rtSocketStorage_FromString behind the call of rtSocketStorage_ParsePort, with its error and the
-- port, for the address behind the scheme
unfoldable pub with_port : Network → Endpoint → List ℕ → ℕ × ℕ → Parsed
with_port net ss rest (err, port) =
    if err == rt_ok
    then (elim (split_last colon rest) [
      | none ↦ ended rt_error_invalid_arg ss
      | some (host, behind) ↦
          if ltb (length host) ip_size
          then set_host net ss host port
          else if length host == ip_size
          then unterminated
          else outside
    ])
    else ended err ss

-- rtSocketStorage_FromString; the mode of the file of a local socket is left out.
unfoldable pub from_string : Network → Endpoint → List ℕ → Parsed
from_string net ss addr = elim (behind_prefix (codes "unix://") addr) [
  | some path ↦ ended rt_ok (local (take path_max path))
  | none ↦ elim (behind_prefix (codes "tcp://") addr) [
    | none ↦ ended rt_error_invalid_arg ss
    | some rest ↦ with_port net ss rest (parse_port net addr)
  ]
]

-- rtSocketStorage_GetLength, with the sizes of the structs on Linux; `none` is `abort`.
unfoldable pub get_length : Endpoint → Option ℕ
get_length unset = none
get_length (local path) = some 110
get_length (v4 address port) = some 16
get_length (v6 address port) = some 28

-- rtSocketStorage_ToString with a buffer of `n` bytes: the text and the port, where they are written
unfoldable pub to_string : Network → Endpoint → ℕ → Option (List ℕ × ℕ)
to_string net unset n = none
to_string net (v6 address port) n = none
to_string net (v4 address port) n = some (net.inet_ntop4 address, port)
to_string net (local path) n = some (take (n - 1) (codes "unix://" ++ path), 0)
