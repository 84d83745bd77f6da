-- ===== src/Examples/Addresses.antt =====
-- Addresses of sockets: the theorems at concrete inputs.
use rtmessage.Prelude.{
  ℕ, ◌+◌, ◌*◌, ◌-◌, ◌≡◌, ◌≢◌, All, inr, refl, none, List, [], ◌∷◌, codes, arith, if◌then◌else◌,
}
use rtmessage.Error.{rt_ok}
use rtmessage.Routing.Forest.{same_name}
use rtmessage.Socket.{
  Network, Pton, parsed, malformed, unset, v4, ended, colon, from_string, get_length,
}
use rtmessage.Socket.Parsing.{tcp_address, from_string-tcp, from_string-unset}

-- The number of some digits
digits : ℕ → List ℕ → ℕ
digits n [] = n
digits n (c ∷ s) = digits (n * 10 + (c - 48)) s

loopback : List ℕ → Pton
loopback text =
    if same_name text (codes "127.0.0.1") then parsed (127 ∷ 0 ∷ 0 ∷ 1 ∷ []) else malformed

-- A host with one interface, whose address is the loopback's
abbrev one_host : Network
one_host = record {
  inet_pton4 = loopback;
  inet_pton6 = λ text. malformed;
  inet_ntop4 = λ address. codes "127.0.0.1";
  strtol = digits 0;
  interface_address = λ name. (rt_ok, codes "127.0.0.1");
  errno = 0;
}

no_colon : All (λ x. x ≢ colon) (codes "10001")
no_colon = (
  (λ e. omega arith),
  ((λ e. omega arith), ((λ e. omega arith), ((λ e. omega arith), ((λ e. omega arith), tt)))),
)

from_string-tcp_example :
    from_string one_host unset (tcp_address (codes "lo") (codes "10001"))
    ≡ ended rt_ok (v4 (127 ∷ 0 ∷ 0 ∷ 1 ∷ []) 10001)
unfolding loopback digits same_name
from_string-tcp_example =
    from_string-tcp one_host unset 108 (codes "o") (127 ∷ 0 ∷ 0 ∷ 1 ∷ []) (codes "10001") no_colon
      (inr (refl, (λ e. omega arith), refl, refl))

from_string-unset_example :
    (from_string one_host unset (tcp_address (codes "1eth") (codes "10001")) ≡ ended rt_ok unset)
    × (get_length unset ≡ none)
unfolding loopback same_name
from_string-unset_example =
    from_string-unset one_host 49 (codes "eth") (codes "10001") no_colon refl (omega arith) refl
      refl
