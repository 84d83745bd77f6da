-- ===== src/Socket/Parsing.antt =====
-- rtSocketStorage_FromString of rtSocket.c
use rtmessage.Prelude.{
  ◌≡◌, ◌≢◌, ◌∙◌, ◌+◌, ap, ◌<◌, ◌%◌, ◌^◌, ℕ, refl, true, false, some, none, List, [], ◌∷◌, ◌++◌,
  ◌==◌, ==_self, All, ◌⊎◌, inl, inr, length, codes, ltb, take, take-all, ◌≤◌, ◌-◌, if◌then◌else◌,
  arith,
}
use rtmessage.Error.{rt_ok}
use rtmessage.Socket.{
  Network, Endpoint, unset, malformed, parsed, v4, ended, unterminated, outside, is_digit,
  is_numeric, numeric_loop, split_last, behind_prefix, colon, parse_port, set_address, set_host,
  ip_size, with_port, from_string, get_length, to_string, local, path_max,
}

split_last-none : (c : ℕ) (s : List ℕ) → All (λ x. x ≢ c) s → split_last c s ≡ none
unfolding split_last
split_last-none c [] a = refl
split_last-none c (x ∷ s) (n, a) =
    let off : (x == c) ≡ false = ground arith in rw (split_last-none c s a, off) refl

split_last-join :
    (c : ℕ) (before behind : List ℕ)
    → All (λ x. x ≢ c) behind
    → split_last c (before ++ (c ∷ behind)) ≡ some (before, behind)
unfolding split_last
split_last-join c [] behind a = rw (split_last-none c behind a, ==_self c) refl
split_last-join c (x ∷ before) behind a = rw (split_last-join c before behind a) refl

-- The address of a host and a port, as the configuration has it
abbrev pub tcp_address : List ℕ → List ℕ → List ℕ
tcp_address host port = codes "tcp://" ++ (host ++ (colon ∷ port))

parse_port-tcp :
    (net : Network) (host port : List ℕ)
    → All (λ x. x ≢ colon) port
    → parse_port net (tcp_address host port) ≡ (rt_ok, net.strtol port % 2 ^ 16)
unfolding parse_port
parse_port-tcp net host port a =
    rw (parse_port, split_last-join colon (codes "tcp://" ++ host) port a) refl

from_string-host :
    (net : Network) (ss : Endpoint) (host port : List ℕ)
    → All (λ x. x ≢ colon) port
    → from_string net ss (tcp_address host port) ≡ (
        if ltb (length host) ip_size
        then set_host net ss host (net.strtol port % 2 ^ 16)
        else if length host == ip_size
        then unterminated
        else outside)
unfolding from_string with_port behind_prefix
from_string-host net ss host port a =
    ap (with_port net ss (host ++ (colon ∷ port))) (parse_port-tcp net host port a)
    ∙ rw (with_port, split_last-join colon host port a) refl

numeric_loop-digit : (c : ℕ) (s : List ℕ) → is_digit c ≡ true → numeric_loop c s ≡ true
unfolding numeric_loop
numeric_loop-digit c [] d = refl
numeric_loop-digit c (x ∷ s) d = rw d (numeric_loop-digit c s d)

numeric_loop-name :
    (c : ℕ) (s : List ℕ) → is_digit c ≡ false → c ≢ 46 → numeric_loop c (c ∷ s) ≡ false
unfolding numeric_loop
numeric_loop-name c s d n = let off : (c == 46) ≡ false = ground arith in rw (d, off) refl

-- What a host stands for: a text that begins with a digit is an address itself; one that begins with another
-- byte, but not a dot, is the name of an interface with that address.
abbrev pub Resolves : Network → ℕ → List ℕ → List ℕ → Type 0
Resolves net c host address =
    ((is_digit c ≡ true) × (net.inet_pton4 (c ∷ host) ≡ parsed address))
    ⊎ ((is_digit c ≡ false)
        × (c ≢ 46)
        × ((net.interface_address (c ∷ host)).0 ≡ rt_ok)
        × (net.inet_pton4 (net.interface_address (c ∷ host)).1 ≡ parsed address))

set_host-resolved :
    (net : Network) (ss : Endpoint) (c : ℕ) (host address : List ℕ) (port : ℕ)
    → Resolves net c host address
    → set_host net ss (c ∷ host) port ≡ ended rt_ok (v4 address port)
unfolding set_host set_address is_numeric
set_host-resolved net ss c host address port (inl (d, parses)) =
    rw (set_host, is_numeric, numeric_loop-digit c (c ∷ host) d, set_address, parses) refl
set_host-resolved net ss c host address port (inr (d, n, known, parses)) =
    rw (set_host, is_numeric, numeric_loop-name c host d n, known, set_address, parses) refl

-- The address of a host that resolves and a port without colons: if the host has fewer than 128 bytes, the
-- endpoint gets the host's address and the port as `strtol` reads it, modulo 2 ^ 16; a host of 128
-- bytes is read without a terminator, and a longer one is written behind the end of `ip`.
pub from_string-tcp :
    (net : Network) (ss : Endpoint) (c : ℕ) (host address port : List ℕ)
    → All (λ x. x ≢ colon) port
    → Resolves net c host address
    → from_string net ss (tcp_address (c ∷ host) port) ≡ (
        if ltb (length (c ∷ host)) ip_size
        then ended rt_ok (v4 address (net.strtol port % 2 ^ 16))
        else if length (c ∷ host) == ip_size
        then unterminated
        else outside)
from_string-tcp net ss c host address port a r =
    from_string-host net ss (c ∷ host) port a
    ∙ ap
        (λ w.
          if ltb (length (c ∷ host)) ip_size
          then w
          else if length (c ∷ host) == ip_size
          then unterminated
          else outside)
        (set_host-resolved net ss c host address (net.strtol port % 2 ^ 16) r)

-- A host that begins with a digit, has fewer than 128 bytes and is no address of either family: it is
-- not looked up as the name of an interface, whatever its other bytes are; the result is RT_OK, the
-- endpoint stays unset, and rtSocketStorage_GetLength then stops the process.
pub from_string-unset :
    (net : Network) (c : ℕ) (host port : List ℕ)
    → All (λ x. x ≢ colon) port
    → is_digit c ≡ true
    → length (c ∷ host) < ip_size
    → net.inet_pton4 (c ∷ host) ≡ malformed
    → net.inet_pton6 (c ∷ host) ≡ malformed
    → (from_string net unset (tcp_address (c ∷ host) port) ≡ ended rt_ok unset)
      × (get_length unset ≡ none)
unfolding set_host set_address is_numeric get_length
from_string-unset net c host port a d small no4 no6 =
    let fits : ltb (length (c ∷ host)) ip_size ≡ true = ground arith in
    (
      from_string-host net unset (c ∷ host) port a
          ∙ rw
              (fits, set_host, is_numeric, numeric_loop-digit c (c ∷ host) d, set_address, no4, no6)
              refl,
      refl,
    )

-- The address of a local socket, with a path of at most 107 bytes, is printed as it was parsed, into a buffer
-- with more bytes than it has.
to_string-from_string :
    (net : Network) (ss : Endpoint) (path : List ℕ) (n : ℕ)
    → length path ≤ path_max
    → length path + 7 < n
    → (endpoint : Endpoint) × (from_string net ss (codes "unix://" ++ path) ≡ ended rt_ok endpoint)
      × (to_string net endpoint n ≡ some (codes "unix://" ++ path, 0))
unfolding from_string behind_prefix to_string
to_string-from_string net ss path n h room = (
  local (take path_max path),
  refl,
  rw (to_string, take-all path_max path h, take-all (n - 1) (codes "unix://" ++ path) (omega arith))
      refl,
)
