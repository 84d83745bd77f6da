-- ===== src/Router/Validate.antt =====
-- `validate_string` of rtrouted.c.
use rtmessage.Prelude.{
  ℕ, zero, suc, ◌≡◌, ◌<◌, refl, Bool, true, false, ◌&&◌, List, [], ◌∷◌, length, ltb, leb,
  if◌then◌else◌, arith,
}
use rtmessage.Router.{validate_string}

-- Whether every byte is between a space and a tilde.
unfoldable pub printable : List ℕ → Bool
printable [] = true
printable (c ∷ s) = if leb b' ' c && leb c b'~' then printable s else false

-- A string is valid exactly if it is shorter than the limit and every byte of it is printable.
validate_string-printable :
    (s : List ℕ) (limit : ℕ) → validate_string s limit ≡ (ltb (length s) limit && printable s)
unfolding validate_string printable
validate_string-printable [] zero = refl
validate_string-printable (c ∷ s) zero = ground arith
validate_string-printable [] (suc limit) = ground arith
validate_string-printable (c ∷ s) (suc limit) = ground (arith, validate_string-printable s limit)

pub length-validate_string :
    (s : List ℕ) (limit : ℕ) → validate_string s limit ≡ true → length s < limit
unfolding validate_string
length-validate_string s limit valid = ground (arith, valid, validate_string-printable s limit)
