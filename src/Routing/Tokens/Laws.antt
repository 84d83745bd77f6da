-- ===== src/Routing/Tokens/Laws.antt =====
-- What the tokens of an expression are.
use rtmessage.Prelude.{
  ℕ, zero, suc, ◌+◌, ◌≤◌, ◌<◌, ◌≡◌, ◌≢◌, refl, sym, subst, true, false, ap, ◌∙◌, ◌⊎◌, inl, inr,
  Bool-cases, List, [], ◌∷◌, ◌++◌, length, All, ◌==◌, none, some, leb, if◌then◌else◌, replicate,
  length-append, length-replicate, arith,
}
use rtmessage.Routing.Tokens.{
  dot, take_token, skip_dot, tokenize_loop, tokenize, split_expression, work_bytes, max_tokens,
  work_buffer_size,
}

-- A token holds no dot.
abbrev pub IsName : List ℕ → Type 0
IsName = All (λ c. c ≢ dot)

-- The expression that puts a dot behind each name, and none behind the last unless `last` says so.
unfoldable pub join : List (List ℕ) → List ℕ
join [] = []
join (name ∷ []) = name
join (name ∷ next ∷ names) = name ++ (dot ∷ join (next ∷ names))

take_token-name :
    (name rest : List ℕ) → IsName name → take_token (name ++ (dot ∷ rest)) ≡ (name, dot ∷ rest)
unfolding take_token
take_token-name [] rest h = refl
take_token-name (c ∷ name) rest h = ground (arith, take_token-name name rest h.1)

take_token-last : (name : List ℕ) → IsName name → take_token name ≡ (name, [])
unfolding take_token
take_token-last [] h = refl
take_token-last (c ∷ name) h = ground (arith, take_token-last name h.1)

join-cons :
    (name : List ℕ) (names : List (List ℕ)) (last : List ℕ)
    → join (name ∷ (names ++ (last ∷ []))) ≡ name ++ (dot ∷ join (names ++ (last ∷ [])))
unfolding join
join-cons name [] last = refl
join-cons name (next ∷ names) last = refl

loop-name :
    (fuel : ℕ) (name rest : List ℕ)
    → IsName name
    → length name ≤ fuel
    → tokenize_loop (suc fuel) (name ++ (dot ∷ rest)) ≡ name ∷ tokenize_loop fuel rest
unfolding tokenize_loop skip_dot take_token
loop-name fuel [] rest h l = refl
loop-name fuel (c ∷ name) rest h l =
    rw (take_token-name (c ∷ name) rest h, tokenize_loop, skip_dot) refl

loop-nil : (fuel : ℕ) → tokenize_loop fuel [] ≡ []
unfolding tokenize_loop
loop-nil zero = refl
loop-nil (suc f) = refl

loop-last :
    (fuel : ℕ) (name : List ℕ)
    → IsName name
    → 0 < length name
    → tokenize_loop (suc fuel) name ≡ name ∷ []
unfolding tokenize_loop skip_dot
loop-last fuel [] h l = absurd (omega arith)
loop-last fuel (c ∷ name) h l =
    rw (take_token-last (c ∷ name) h, tokenize_loop, skip_dot) (ap (◌∷◌ (c ∷ name)) (loop-nil fuel))

-- Names without dots, the last of them not empty, come back from their expression with dots between
-- them.
loop-join_last :
    (fuel : ℕ) (last : List ℕ)
    → IsName last
    → 0 < length last
    → length last ≤ fuel
    → tokenize_loop fuel last ≡ last ∷ []
loop-join_last zero last h l f = absurd (omega arith)
loop-join_last (suc fuel) last h l f = loop-last fuel last h l

loop-join :
    (fuel : ℕ) (names : List (List ℕ)) (last : List ℕ)
    → All IsName names
    → IsName last
    → 0 < length last
    → length (join (names ++ (last ∷ []))) ≤ fuel
    → tokenize_loop fuel (join (names ++ (last ∷ []))) ≡ names ++ (last ∷ [])
unfolding join
loop-join fuel [] last a h l f = loop-join_last fuel last h l f
loop-join zero (name ∷ names) last a h l f = absurd (
    omega (
      arith,
      ap length (join-cons name names last),
      length-append name (dot ∷ join (names ++ (last ∷ []))),
    ))
loop-join (suc fuel) (name ∷ names) last a h l f =
    let size = ap length (join-cons name names last) in
    let split = length-append name (dot ∷ join (names ++ (last ∷ []))) in
    rw (join-cons name names last) (
      loop-name fuel name _ a.0 (omega (arith, size, split))
      ∙ ap (◌∷◌ name) (loop-join fuel names last a.1 h l (omega (arith, size, split))))

-- Names without dots, of which the last is not empty, are the tokens of the expression that puts a
-- dot between each two of them.
split_expression-join :
    (names : List (List ℕ)) (last : List ℕ)
    → All IsName names
    → IsName last
    → 0 < length last
    → split_expression (join (names ++ (last ∷ []))) ≡ names ++ (last ∷ [])
unfolding split_expression
split_expression-join names last a h l = loop-join _ names last a h l (omega arith)

-- The number of dots in an expression.
unfoldable pub dots : List ℕ → ℕ
dots [] = 0
dots (c ∷ cs) = if c == dot then suc (dots cs) else dots cs

take_token-dot : (c : ℕ) (e : List ℕ) → (c == dot) ≡ true → take_token (c ∷ e) ≡ ([], c ∷ e)
unfolding take_token
take_token-dot c e d = rw d refl

take_token-other :
    (c : ℕ) (e : List ℕ)
    → (c == dot) ≡ false
    → take_token (c ∷ e) ≡ (c ∷ (take_token e).0, (take_token e).1)
unfolding take_token
take_token-other c e d = rw d refl

skip_dot-dot : (c : ℕ) (e : List ℕ) → (c == dot) ≡ true → skip_dot (c ∷ e) ≡ e
unfolding skip_dot
skip_dot-dot c e d = rw d refl

dots-dot : (c : ℕ) (e : List ℕ) → (c == dot) ≡ true → dots (c ∷ e) ≡ suc (dots e)
unfolding dots
dots-dot c e d = rw d refl

dots-other : (c : ℕ) (e : List ℕ) → (c == dot) ≡ false → dots (c ∷ e) ≡ dots e
unfolding dots
dots-other c e d = rw d refl

-- One round of the loop: what the token and the rest have of the bytes and of the dots.
take_token-counts :
    (e : List ℕ)
    → (length (take_token e).0 + length (take_token e).1 ≡ length e)
      × (dots (take_token e).1 ≡ dots e)
take_token-counts [] = unfold take_token in (refl, refl)
take_token-counts (c ∷ e) = elim (Bool-cases (c == dot)) [
  | inl d ↦ rw (take_token-dot c e d) (omega arith, refl)
  | inr d ↦
      let (size, points) = take_token-counts e in
      rw (take_token-other c e d, dots-other c e d) (omega arith, points)
]

-- After a token comes the end, or a dot that the loop steps over.
abbrev pub Stepped : List ℕ → List ℕ → Type 0
Stepped rest next = (length next + 1 ≡ length rest) × (dots next + 1 ≡ dots rest)

skip_dot-counts :
    (e : List ℕ) → ((take_token e).1 ≡ []) ⊎ Stepped (take_token e).1 (skip_dot (take_token e).1)
skip_dot-counts [] = inl (unfold take_token in refl)
skip_dot-counts (c ∷ e) = elim (Bool-cases (c == dot)) [
  | inl d ↦
      rw (take_token-dot c e d, skip_dot-dot c e d)
        (inr (omega arith, omega (arith, dots-dot c e d)))
  | inr d ↦ rw (take_token-other c e d) (skip_dot-counts e)
]

abbrev pub Counts : List ℕ → List (List ℕ) → Type 0
Counts e names = (work_bytes names ≤ length e + 1) × (length names ≤ dots e + 1)

loop-step :
    (fuel c : ℕ) (e : List ℕ)
    → tokenize_loop (suc fuel) (c ∷ e)
      ≡ (take_token (c ∷ e)).0 ∷ tokenize_loop fuel (skip_dot (take_token (c ∷ e)).1)
unfolding tokenize_loop
loop-step fuel c e = refl

loop-Counts : (fuel : ℕ) (e : List ℕ) → Counts e (tokenize_loop fuel e)
unfolding work_bytes
loop-Counts fuel [] = subst (Counts []) (sym (loop-nil fuel)) (omega arith, omega arith)
loop-Counts zero (c ∷ e) = unfold tokenize_loop in (omega arith, omega arith)
loop-Counts (suc fuel) (c ∷ e) =
    let (bytes, points) = take_token-counts (c ∷ e) in
    let (more, names) = loop-Counts fuel (skip_dot (take_token (c ∷ e)).1) in
    subst (Counts (c ∷ e)) (sym (loop-step fuel c e)) (elim (skip_dot-counts (c ∷ e)) [
      | inl end ↦
          let none_left : tokenize_loop fuel (skip_dot (take_token (c ∷ e)).1) ≡ [] =
            rw end (unfold skip_dot in loop-nil fuel) in
          rw none_left (omega arith, omega arith)
      | inr (skipped, passed) ↦ (omega arith, omega arith)
    ])

-- The tokens of an expression and their terminators take at most one byte more than the expression,
-- and there is at most one token more than it has dots: an expression of at most 511 bytes with at most
-- 31 dots stays within `workBuffer` and `workTokens`.
pub tokenize-fits :
    (expression : List ℕ)
    → length expression < work_buffer_size
    → dots expression < max_tokens
    → tokenize expression ≡ some (split_expression expression)
unfolding tokenize split_expression
tokenize-fits expression l d =
    let (bytes, names) = loop-Counts (length expression) expression in ground (arith, bytes, names)

loop-dots : (n : ℕ) → tokenize_loop n (replicate n dot) ≡ replicate n []
unfolding tokenize_loop skip_dot take_token
loop-dots zero = refl
loop-dots (suc n) = ap (◌∷◌ []) (loop-dots n)

work_bytes-empty : (n : ℕ) → work_bytes (replicate n []) ≡ n
unfolding work_bytes
work_bytes-empty zero = refl
work_bytes-empty (suc n) = ground (arith, work_bytes-empty n)

-- The tokens of an expression of `n` dots are `n` empty ones if `n` is at most 32; with more dots, a write
-- goes behind `workTokens`.
pub tokenize-dots :
    (n : ℕ)
    → tokenize (replicate n dot) ≡ (if leb n max_tokens then some (replicate n []) else none)
unfolding tokenize split_expression
tokenize-dots n =
    let e : tokenize_loop (length (replicate n dot)) (replicate n dot) ≡ replicate n [] =
      rw (length-replicate n dot) (loop-dots n) in
    rw (tokenize, e, length-replicate {A = List ℕ} n [], work_bytes-empty n) (ground arith)
