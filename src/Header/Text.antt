-- ===== src/Header/Text.antt =====
-- Texts in `char` arrays: terminators, and `memcpy` to the front of an array.
use rtmessage.Prelude.{
  ℕ, zero, suc, ◌-◌, ◌≤◌, ◌<◌, ◌≡◌, ◌≢◌, ◌∙◌, refl, ap, some, List, [], ◌∷◌, ◌++◌, length, take,
  take-all, drop, get_elem?, replicate, arith, length-append, length-drop, length-replicate, inl,
  inr, ◌==◌, Bool-cases,
}
use rtmessage.Header.{c_string, copy_into, max_topic_length}

c_string-cons_inv :
    (b : ℕ) (array : List ℕ) (x : ℕ) (s : List ℕ)
    → c_string (b ∷ array) ≡ some (x ∷ s)
    → (x ≡ b) × (b ≢ 0) × (c_string array ≡ some s)
unfolding c_string
c_string-cons_inv b array x s e = ground arith

c_string-cons :
    (b : ℕ) (array : List ℕ) (s : List ℕ)
    → b ≢ 0
    → c_string array ≡ some s
    → c_string (b ∷ array) ≡ some (b ∷ s)
unfolding c_string
c_string-cons b array s h e = ground arith

pub c_string-lt : (array s : List ℕ) → c_string array ≡ some s → length s < length array
c_string-lt [] s e = unfold c_string in cc
c_string-lt (b ∷ array) [] e = omega arith
c_string-lt (b ∷ array) (x ∷ s) e =
    omega (arith, c_string-lt array s (c_string-cons_inv b array x s e).2)

-- The text that an array holds is read from any array that starts with it and a zero.
c_string-append_zero :
    (array s tail : List ℕ) → c_string array ≡ some s → c_string (s ++ 0 ∷ tail) ≡ some s
c_string-append_zero array [] tail e = unfold c_string in refl
c_string-append_zero [] (x ∷ s) tail e = unfold c_string in cc
c_string-append_zero (b ∷ array) (x ∷ s) tail e =
    let (p, q, r) = c_string-cons_inv b array x s e in
    c_string-cons x (s ++ 0 ∷ tail) s (rw p q) (c_string-append_zero array s tail r)

drop-replicate : (n m : ℕ) → n < m → drop n (replicate {A = ℕ} m 0) ≡ 0 ∷ replicate (m - n - 1) 0
drop-replicate zero (suc m) h = ap (λ k. 0 ∷ replicate {A = ℕ} k 0) (omega arith)
drop-replicate (suc n) (suc m) h =
    drop-replicate n m (omega arith) ∙ ap (λ k. 0 ∷ replicate {A = ℕ} k 0) (omega arith)
drop-replicate n zero h = elim h [ ]

pub c_string-copy_into :
    (array s : List ℕ) (n : ℕ)
    → c_string array ≡ some s
    → length s < n
    → c_string (copy_into (replicate n 0) s) ≡ some s
c_string-copy_into array s n e h =
    rw (drop-replicate (length s) n h) (c_string-append_zero array s _ e)

-- An array has a zero in its last place, so that every text in it ends.
pub record HasEnd (n : ℕ) (array : List ℕ) : Type 0 where
  pub size : length array ≡ suc n
  pub last : get_elem? array n ≡ some 0

drop-nil : (n : ℕ) → drop {A = ℕ} n [] ≡ []
drop-nil zero = refl
drop-nil (suc n) = refl

get_elem?-copy_into :
    (array s : List ℕ) (i : ℕ) → length s ≤ i → get_elem? (copy_into array s) i ≡ get_elem? array i
get_elem?-copy_into array [] i h = refl
get_elem?-copy_into [] (x ∷ s) (suc i) h =
    rw (drop-nil (length s)) at (get_elem?-copy_into [] s i (omega arith))
get_elem?-copy_into (b ∷ array) (x ∷ s) (suc i) h = get_elem?-copy_into array s i (omega arith)
get_elem?-copy_into array (x ∷ s) zero h = elim h [ ]

pub copy_into-HasEnd :
    {n : ℕ} {array : List ℕ} (s : List ℕ)
    → HasEnd n array
    → length s ≤ n
    → HasEnd n (copy_into array s)
copy_into-HasEnd {n} {array} s v h = record {
  size = omega (arith, length-append s (drop (length s) array), length-drop (length s) array);
  last = rw (get_elem?-copy_into array s n h) v.last;
}

pub replicate-HasEnd : (n : ℕ) → HasEnd n (replicate (suc n) 0)
replicate-HasEnd n = record { size = length-replicate (suc n) 0; last = last_zero n }
  where
    last_zero : (n : ℕ) → get_elem? (replicate {A = ℕ} (suc n) 0) n ≡ some 0
    last_zero = elim [ zero ↦ refl | suc (n → ih) ↦ ih ]

c_string_of_zero :
    (array : List ℕ) (i : ℕ) → get_elem? array i ≡ some 0 → (s : List ℕ) × (c_string array ≡ some s)
c_string_of_zero [] i e = cc
c_string_of_zero (b ∷ array) zero e = ([], unfold c_string in ground arith)
c_string_of_zero (b ∷ array) (suc i) e =
    let (s, p) = c_string_of_zero array i e in
    elim (Bool-cases (b == 0)) [
      | inl z ↦ ([], unfold c_string in rw z)
      | inr z ↦ (b ∷ s, c_string-cons b array s (ground arith) p)
    ]

pub HasEnd-c_string :
    {n : ℕ} {array : List ℕ} → HasEnd n array → (s : List ℕ) × (c_string array ≡ some s)
HasEnd-c_string {n} {array} v = c_string_of_zero array n v.last

-- The array that `strncpy` makes of a text that fits.
pub stored_text :
    (array text : List ℕ)
    → c_string array ≡ some text
    → length text < max_topic_length
    → c_string (copy_into (replicate 128 0) (take 127 text)) ≡ some text
stored_text array text e l =
    ap (λ w. c_string (copy_into (replicate 128 0) w)) (take-all 127 text (omega arith))
    ∙ c_string-copy_into array text 128 e l

pub stored_length :
    (text : List ℕ)
    → length text < max_topic_length
    → length (copy_into (replicate 128 0) (take 127 text)) ≡ 128
stored_length text l =
    ap (λ w. length (copy_into (replicate 128 0) w)) (take-all 127 text (omega arith))
    ∙ omega (
      arith,
      length-append text (drop (length text) (replicate 128 0)),
      length-drop (length text) (replicate {A = ℕ} 128 0),
      length-replicate {A = ℕ} 128 0,
    )
