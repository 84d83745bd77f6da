-- ===== src/Connection/Listening.antt =====
-- A listener of rtConnection.c, from its table to the router and back to its callback.
use rtmessage.Prelude.{
  ℕ, suc, ◌+◌, ◌<◌, ◌≡◌, ◌≢◌, refl, ap, true, false, Option, none, some, List, [], ◌∷◌, ◌++◌, ◌==◌,
  ==_self, arith, take, if◌then◌else◌, ◌%◌, ◌^◌,
}
use rtmessage.Error.{rt_ok}
use rtmessage.Routing.Tokens.{tokenize}
use rtmessage.Routing.Forest.{Name}
use rtmessage.Router.{
  Router, Request, complete, forward_message, max_expression_len, validate_string,
  find_subscription, on_message_subscribe,
}
use rtmessage.Router.Subscribe.{on_message_subscribe-new}
use rtmessage.Connection.{
  Listener, Connection, find_by_expression, fill_slot, find_by_id, add_listener,
}

-- The listeners that are not in use
abbrev pub open_slots : List (Option Listener) → ℕ
open_slots [] = 0
open_slots (none ∷ slots) = suc (open_slots slots)
open_slots (some l ∷ slots) = open_slots slots

-- Every subscription id in the table is below a number.
abbrev pub IdsBelow : ℕ → List (Option Listener) → Type 0
IdsBelow n [] = Unit
IdsBelow n (none ∷ slots) = IdsBelow n slots
IdsBelow n (some l ∷ slots) = (l.subscription_id < n) × IdsBelow n slots

find_by_id-below :
    (n : ℕ) (slots : List (Option Listener)) → IdsBelow n slots → find_by_id n slots ≡ none
unfolding find_by_id
find_by_id-below n [] b = refl
find_by_id-below n (none ∷ slots) b = find_by_id-below n slots b
find_by_id-below n (some l ∷ slots) (b, bs) =
    let off : (l.subscription_id == n) ≡ false = ground arith in
    rw off (find_by_id-below n slots bs)

-- The table after a new listener is put in.
record Filled (l : Listener) (slots filled : List (Option Listener)) : Type 0 where
  here : find_by_id l.subscription_id filled ≡ some l
  elsewhere : (id : ℕ) → id ≢ l.subscription_id → find_by_id id filled ≡ find_by_id id slots

fill_slot-Filled :
    (l : Listener) (slots : List (Option Listener))
    → IdsBelow l.subscription_id slots
    → 0 < open_slots slots
    → (filled : List (Option Listener)) × (fill_slot l slots ≡ some filled) × Filled l slots filled
unfolding fill_slot find_by_id
fill_slot-Filled l [] b o = absurd (omega arith)
fill_slot-Filled l (none ∷ slots) b o = (
  some l ∷ slots,
  refl,
  record {
    here = rw (==_self l.subscription_id) refl;
    elsewhere = λ id n. let off : (l.subscription_id == id) ≡ false = ground arith in rw off refl;
  },
)
fill_slot-Filled l (some other ∷ slots) (b, bs) o =
    let (filled, e, f) = fill_slot-Filled l slots bs o in
    let off : (other.subscription_id == l.subscription_id) ≡ false = ground arith in
    (
      some other ∷ filled,
      rw (fill_slot, e) refl,
      record {
        here = rw off f.here;
        elsewhere = λ id n.
            ap (λ r. if other.subscription_id == id then some other else r) (f.elsewhere id n);
      },
    )

-- What a registration comes to at the client and at the router.
abbrev pub Registers :
    Connection → List ℕ → ℕ → ℕ → Router → ℕ → Connection → Request → Router → Type 0
Registers con exp callback closure r sender con' m r' =
    ((l : Listener) × (find_by_id m.route_id con'.listeners ≡ some l)
      × (l.expression ≡ exp)
      × (l.callback ≡ callback)
      × (l.closure ≡ closure))
    × ((id : ℕ) → id ≢ m.route_id → find_by_id id con'.listeners ≡ find_by_id id con.listeners)
    × (on_message_subscribe r sender (complete m) ≡ some (rt_ok, r'))
    × (r'.routes
        ≡ r.routes
          ++ (record {
            id = r.next_entry;
            expression = take max_expression_len exp;
            handler = forward_message;
            has_subscription = true;
            subscription_id = m.route_id;
            client = sender;
          }
              ∷ []))

-- With an open listener, no listener for the expression and ids below the counter, `rtConnection_AddListener`
-- succeeds. If the router, at which the client has no subscription with the id, gets the message that it
-- sends, for a valid expression whose tokens fit the tokenizer's arrays, it adds a route with that id for the client; and the callback thread
-- takes a message with that id to the new listener's callback, and any other where it took it before.
pub add_listener-Registers :
    (con : Connection) (exp : List ℕ) (callback closure : ℕ) (r : Router) (sender : ℕ) (t : Name)
    (ts : List Name)
    → find_by_expression exp con.listeners ≡ none
    → 0 < open_slots con.listeners
    → IdsBelow con.next_id con.listeners
    → validate_string exp max_expression_len ≡ true
    → find_subscription sender con.next_id r.routes ≡ none
    → tokenize exp ≡ some (t ∷ ts)
    → (con' : Connection) × (m : Request) × (r' : Router) × (add_listener con exp callback closure
        ≡ (rt_ok, con', some m))
      × Registers con exp callback closure r sender con' m r'
unfolding add_listener
add_listener-Registers con exp callback closure r sender t ts fresh room below valid new tokens =
    let l : Listener = record {
      expression = exp;
      subscription_id = con.next_id;
      callback = callback;
      closure = closure;
    } in
    let m : Request = record { add = 1; topic = exp; route_id = con.next_id } in
    let (filled, e, f) = fill_slot-Filled l con.listeners below room in
    let (r', p, k, entry, before, accepted, routes, registered, found, listed, answer) =
      on_message_subscribe-new r sender m t ts valid refl new tokens in
    (
      record con { listeners = filled; next_id = (con.next_id + 1) % 2 ^ 32 },
      m,
      r',
      rw (add_listener, fresh, e) refl,
      ((l, f.here, refl, refl, refl), f.elsewhere, accepted, routes),
    )
