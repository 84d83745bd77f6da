-- ===== src/Examples/Reconnects.antt =====
-- Lost connections: the theorems at concrete inputs.
use rtmessage.Prelude.{ℕ, ◌≡◌, ◌<◌, refl, true, some, List, [], ◌∷◌, ◌++◌, arith, codes}
use rtmessage.Error.{rt_ok, error_from_errno}
use rtmessage.Header.{c_string}
use rtmessage.Routing.Tokens.{max_tokens}
use rtmessage.Routing.Tokens.Laws.{dots}
use rtmessage.Routing.Tree.{create}
use rtmessage.Router.{Router, Request, max_expression_len, validate_string, find_subscription}
use rtmessage.Connection.Reading.{should_reregister}
use rtmessage.Connection.Reconnect.{subscribe_all, routes_from, subscribe_all-routes}
use rtmessage.Connection.Sending.{whole, failure, send_internal}
use rtmessage.Connection.Calls.{SendRound, send_direct, number_after, send_direct-lost}

abbrev fresh_router : Router
fresh_router = record { routes = []; routing_tree = create; next_entry = 1 }

abbrev wishes : List Request
wishes =
    record { add = 1; topic = codes "A.B"; route_id = 1 }
    ∷ record { add = 1; topic = codes "C"; route_id = 2 }
    ∷ []

valid_ab : validate_string (codes "A.B") max_expression_len ≡ true
unfolding validate_string
valid_ab = refl

valid_c : validate_string (codes "C") max_expression_len ≡ true
unfolding validate_string
valid_c = refl

few_ab : dots (codes "A.B") < max_tokens
unfolding dots
few_ab = omega arith

few_c : dots (codes "C") < max_tokens
unfolding dots
few_c = omega arith

subscribe_all-routes_example :
    (r' : Router) × (subscribe_all fresh_router 5 wishes ≡ some r')
    × (r'.routes ≡ routes_from 1 5 wishes)
unfolding find_subscription
subscribe_all-routes_example =
    subscribe_all-routes fresh_router 5 wishes
      (refl, valid_ab, few_ab, (omega arith, tt), (refl, valid_c, few_c, tt, tt)) (refl, (refl, tt))

abbrev lost_round : SendRound
lost_round = record { attempts = failure 32 ∷ []; reconnect = rt_ok; resent = 2 }

abbrev last_round : SendRound
last_round = record { attempts = whole ∷ []; reconnect = rt_ok; resent = 0 }

epipe_is_lost : should_reregister (error_from_errno 32) ≡ true
unfolding should_reregister error_from_errno
epipe_is_lost = refl

text_ab : c_string (codes "A.B" ++ (0 ∷ [])) ≡ some (codes "A.B")
unfolding c_string
text_ab = refl

no_text : c_string (0 ∷ []) ≡ some []
unfolding c_string
no_text = refl

send_direct-lost_example :
    (frame : List ℕ) × (send_internal (codes "hello") (codes "A.B") [] 0 20 (whole ∷ [])
      ≡ some (rt_ok, frame ∷ []))
    × (send_direct (codes "hello") (codes "A.B") [] 0 17 (lost_round ∷ last_round ∷ [])
        ≡ some (rt_ok, frame ∷ []))
unfolding number_after
send_direct-lost_example =
    send_direct-lost (codes "hello") (codes "A.B") [] (codes "A.B" ++ (0 ∷ [])) (0 ∷ []) 0 text_ab
      no_text (omega arith) (omega arith) (lost_round ∷ []) [] last_round [] 17
      ((32, [], refl, epipe_is_lost, refl), tt) refl
