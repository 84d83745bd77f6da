-- ===== src/Routing/Tokens.antt =====
-- rtRoutingTree.c: `tokenizeExpression`, which fills `workTokens` from an expression.
-- A C string is the list of its bytes, without the terminator.
pub mod Laws
use rtmessage.Prelude.{
  ℕ, zero, suc, ◌+◌, Bool, true, false, List, [], ◌∷◌, ◌++◌, length, leb, ◌&&◌, Option, none, some,
  ◌==◌, if◌then◌else◌,
}

abbrev pub dot : ℕ
dot = b'.'

-- The sizes of `workTokens` and `workBuffer`.
abbrev pub max_tokens : ℕ
max_tokens = 32

abbrev pub work_buffer_size : ℕ
work_buffer_size = 512

-- The inner loop: the bytes up to the next dot, and what `from` points to then.
unfoldable pub take_token : List ℕ → List ℕ × List ℕ
take_token [] = ([], [])
take_token (c ∷ from) =
    let (name, rest) = take_token from in if c == dot then ([], c ∷ from) else (c ∷ name, rest)

-- `if(*from == '.') from++`
unfoldable pub skip_dot : List ℕ → List ℕ
skip_dot [] = []
skip_dot (c ∷ from) = if c == dot then from else c ∷ from

-- The outer loop, on fuel: each round takes at least one byte of the expression.
unfoldable pub tokenize_loop : ℕ → List ℕ → List (List ℕ)
tokenize_loop fuel [] = []
tokenize_loop zero (c ∷ from) = []
tokenize_loop (suc fuel) (c ∷ from) =
    let (name, rest) = take_token (c ∷ from) in name ∷ tokenize_loop fuel (skip_dot rest)

-- The tokens that the loop comes to, if `workTokens` and `workBuffer` have room for them.
unfoldable pub split_expression : List ℕ → List (List ℕ)
split_expression expression = tokenize_loop (length expression) expression

-- The bytes that the loop puts into `workBuffer`: each token and its terminator.
unfoldable pub work_bytes : List (List ℕ) → ℕ
work_bytes [] = 0
work_bytes (name ∷ names) = length name + 1 + work_bytes names

-- tokenizeExpression: `none` is a write behind `workTokens` or `workBuffer`.
unfoldable pub tokenize : List ℕ → Option (List (List ℕ))
tokenize expression =
    let names = split_expression expression in
    if leb (length names) max_tokens && leb (work_bytes names) work_buffer_size
    then some names
    else none
