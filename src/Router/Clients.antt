-- ===== src/Router/Clients.antt =====
-- What the router forgets of a client that goes.
use rtmessage.Prelude.{
  Bool, true, none, some, get_elem?, length, length-append, append-nil, ◌≤◌, ◌+◌, zero, suc, ℕ, ◌≡◌,
  ◌≢◌, refl, sym, ap, ◌∙◌, false, List, [], ◌∷◌, ◌++◌, ◌==◌, if◌then◌else◌, All, arith, Bool-cases,
  inl, inr, append_assoc, ==_self, All-append,
}
use rtmessage.Router.{
  Entry, Router, is_of, remove_route_entry, clear_route, clear_loop, clear_client_routes,
}

-- No two routes have the same address.
abbrev pub Distinct : List Entry → Type 0
Distinct [] = Unit
Distinct (e ∷ es) = All (λ f. f.id ≢ e.id) es × Distinct es

-- The routes of the other clients and those of the router itself, in order.
unfoldable pub others : ℕ → List Entry → List Entry
others client [] = []
others client (e ∷ es) = if is_of client e then others client es else e ∷ others client es

remove_route_entry-middle :
    (e : Entry) (kept rest : List Entry)
    → All (λ f. f.id ≢ e.id) kept
    → remove_route_entry e.id (kept ++ (e ∷ rest)) ≡ kept ++ rest
unfolding remove_route_entry
remove_route_entry-middle e [] rest h = rw (==_self e.id) refl
remove_route_entry-middle e (k ∷ kept) rest h =
    let other : (k.id == e.id) ≡ false = ground (arith, h.0) in
    rw other (ap (◌∷◌ k) (remove_route_entry-middle e kept rest h.1))

-- The addresses of the first list stand in no place of the second.
abbrev pub Apart : List Entry → List Entry → Type 0
Apart kept rest = All (λ e. All (λ f. f.id ≢ e.id) kept) rest

All-snoc :
    (x : Entry) (kept rest : List Entry)
    → All (λ f. f.id ≢ x.id) rest
    → Apart kept rest
    → Apart (kept ++ (x ∷ [])) rest
All-snoc x kept [] h a = tt
All-snoc x kept (e ∷ rest) h a = (
  All-append (λ f. f.id ≢ e.id) kept (x ∷ []) a.0 ((λ q. h.0 (sym q)), tt),
  All-snoc x kept rest h.1 a.1,
)

get_elem?-middle :
    (kept : List Entry) (x : Entry) (rest : List Entry)
    → get_elem? (kept ++ (x ∷ rest)) (length kept) ≡ some x
get_elem?-middle [] x rest = refl
get_elem?-middle (k ∷ kept) x rest = get_elem?-middle kept x rest

get_elem?-end : (kept : List Entry) → get_elem? kept (length kept) ≡ none
get_elem?-end [] = refl
get_elem?-end (k ∷ kept) = get_elem?-end kept

-- A round at a route of the vector
clear_loop-step :
    (client fuel i : ℕ) (x : Entry) (r : Router) (b : Bool)
    → get_elem? r.routes i ≡ some x
    → is_of client x ≡ b
    → clear_loop client (suc fuel) i r
      ≡ clear_loop client fuel (if b then i else i + 1) (if b then clear_route r x else r)
unfolding clear_loop
clear_loop-step client fuel i x r b at e = rw (clear_loop, at, e) refl

clear_loop-end :
    (client fuel i : ℕ) (r : Router) → get_elem? r.routes i ≡ none → clear_loop client fuel i r ≡ r
unfolding clear_loop
clear_loop-end client zero i r at = refl
clear_loop-end client (suc fuel) i r at = rw (clear_loop, at) refl

-- The loop from behind the routes that were kept, with fuel for the rest
clear_loop-others :
    (client fuel : ℕ) (kept rest : List Entry) (r : Router)
    → length rest ≤ fuel
    → r.routes ≡ kept ++ rest
    → Apart kept rest
    → Distinct rest
    → (clear_loop client fuel (length kept) r).routes ≡ kept ++ others client rest
unfolding others clear_route
clear_loop-others client fuel kept [] r l e a d =
    let at : get_elem? r.routes (length kept) ≡ none =
      ap (λ w. get_elem? w (length kept)) (e ∙ append-nil kept) ∙ get_elem?-end kept in
    rw (clear_loop-end client fuel (length kept) r at) e
clear_loop-others client zero kept (x ∷ rest) r l e a d = absurd (omega arith)
clear_loop-others client (suc fuel) kept (x ∷ rest) r l e a d =
    let at : get_elem? r.routes (length kept) ≡ some x =
      ap (λ w. get_elem? w (length kept)) e ∙ get_elem?-middle kept x rest in
    elim (Bool-cases (is_of client x)) [
      | inl mine ↦
          rw (clear_loop-step client fuel (length kept) x r true at mine, others, mine)
            (clear_loop-others client fuel kept rest (clear_route r x) (omega arith)
              (ap (remove_route_entry x.id) e ∙ remove_route_entry-middle x kept rest a.0) a.1 d.1)
      | inr other ↦
          let moved : length kept + 1 ≡ length (kept ++ (x ∷ [])) =
            sym (length-append kept (x ∷ [])) in
          rw (clear_loop-step client fuel (length kept) x r false at other, others, other, moved)
            (clear_loop-others client fuel (kept ++ (x ∷ [])) rest r (omega arith)
                (e ∙ sym (append_assoc kept (x ∷ []) rest)) (All-snoc x kept rest d.0 a.1) d.1
              ∙ append_assoc kept (x ∷ []) (others client rest))
    ]

nothing_kept : (rest : List Entry) → Apart [] rest
nothing_kept [] = tt
nothing_kept (e ∷ rest) = (tt, nothing_kept rest)

-- `rtRouted_ClearClientRoutes`, which walks the vector by index while it removes routes from it, leaves the
-- routes of the other clients and those without a subscription, in order, where no two routes have the
-- same address.
pub clear_client_routes-others :
    (r : Router) (client : ℕ)
    → Distinct r.routes
    → (clear_client_routes r client).routes ≡ others client r.routes
unfolding clear_client_routes
clear_client_routes-others r client d =
    clear_loop-others client (length r.routes) [] r.routes r (omega arith) refl
      (nothing_kept r.routes) d
