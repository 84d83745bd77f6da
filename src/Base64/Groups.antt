-- ===== src/Base64/Groups.antt =====
-- The groups of rtBase64.c: what encoding a group writes, decoding reads back.
use rtmessage.Prelude.{
  sym, ℕ, zero, suc, ◌+◌, ◌*◌, ◌/◌, ◌%◌, ◌<◌, ◌≡◌, refl, ap, ap₂, ◌∙◌, subst, Bool, true, false,
  ◌&&◌, not, ==_iff, Bool-cases, inl, inr, Option, none, some, [], ◌∷◌, ◌==◌, if◌then◌else◌, arith,
}
use rtmessage.Base64.{lookup, pad, decode_base64_char, decode_one, decode_two, decode_three}

-- Whether a test holds below a number.
abbrev holds_below : ℕ → (ℕ → Bool) → Bool
holds_below zero p = true
holds_below (suc n) p = if p n then holds_below n p else false

holds_below_lem : (n : ℕ) (p : ℕ → Bool) (i : ℕ) → holds_below n p ≡ true → i < n → p i ≡ true
holds_below_lem zero p i h l = absurd (omega arith)
holds_below_lem (suc n) p i h l = elim (Bool-cases (p n)) [
  | inl t ↦ elim (Bool-cases (i == n)) [
    | inl e ↦ subst (λ j. p j ≡ true) (ground arith) t
    | inr e ↦ holds_below_lem n p i (rw t at h) (ground arith)
  ]
  | inr f ↦ absurd (no (rw f at h))
]
  where
    no : false ≡ true → ⊥
    no e = cc

-- A character of the table is read as its place, and is no padding.
unfoldable reads_back : ℕ → Bool
unfolding decode_base64_char lookup
reads_back i = elim (decode_base64_char (lookup i)) [
  | none ↦ false
  | some j ↦ (i == j) && not (lookup i == pad)
]

all_read_back : holds_below 64 reads_back ≡ true
unfolding reads_back
all_read_back = refl

both : (p q : Bool) → (p && not q) ≡ true → (p ≡ true) × (q ≡ false)
both true true e = absurd cc
both true false e = (refl, refl)
both false q e = absurd cc

pub decode_base64_char-lookup :
    (i : ℕ) → i < 64 → (decode_base64_char (lookup i) ≡ some i) × ((lookup i == pad) ≡ false)
unfolding reads_back
decode_base64_char-lookup i l = by_result _ refl (holds_below_lem 64 reads_back i all_read_back l)
  where
    by_result :
        (o : Option ℕ)
        → decode_base64_char (lookup i) ≡ o
        → (elim o [ none ↦ false | some j ↦ (i == j) && not (lookup i == pad) ]) ≡ true
        → (decode_base64_char (lookup i) ≡ some i) × ((lookup i == pad) ≡ false)
    by_result none e h = absurd cc
    by_result (some j) e h =
        let (same, other) = both (i == j) (lookup i == pad) h in
        (e ∙ ap some (sym ((==_iff i j).0 same)), other)

module _ (a b : ℕ) (x y : ℕ) (p : decode_base64_char a ≡ some x)
    (q : decode_base64_char b ≡ some y) where
  decode_one_lem : decode_one a b ≡ some ((x * 4 % 256 + y / 16) ∷ [])
  unfolding decode_one
  decode_one_lem = rw (p, decode_one, q) refl

  decode_two_lem :
      (c z : ℕ)
      → decode_base64_char c ≡ some z
      → decode_two a b c ≡ some ((x * 4 % 256 + y / 16) ∷ (y * 16 % 256 + z / 4) ∷ [])
  unfolding decode_two
  decode_two_lem c z r = rw (decode_one_lem, decode_two, q, r) refl

  decode_three_lem :
      (c z d w : ℕ)
      → decode_base64_char c ≡ some z
      → decode_base64_char d ≡ some w
      → decode_three a b c d
        ≡ some ((x * 4 % 256 + y / 16) ∷ (y * 16 % 256 + z / 4) ∷ (z * 64 % 256 + w % 64) ∷ [])
  unfolding decode_three
  decode_three_lem c z d w r t = rw (decode_two_lem c z r, decode_three, r, t) refl

abbrev pub reads : (i : ℕ) → i < 64 → decode_base64_char (lookup i) ≡ some i
reads i l = (decode_base64_char-lookup i l).0

pub decode_one-lookup :
    (a : ℕ) → a < 256 → decode_one (lookup (a / 4)) (lookup (a % 4 * 16)) ≡ some (a ∷ [])
decode_one-lookup a l =
    decode_one_lem _ _ _ _ (reads (a / 4) (ground arith)) (reads (a % 4 * 16) (ground arith))
    ∙ ap (λ x. some (x ∷ [])) (ground arith)

pub decode_two-lookup :
    (a b : ℕ)
    → a < 256
    → b < 256
    → decode_two (lookup (a / 4)) (lookup (a % 4 * 16 + b / 16)) (lookup (b % 16 * 4))
      ≡ some (a ∷ b ∷ [])
decode_two-lookup a b l m =
    decode_two_lem _ _ _ _ (reads (a / 4) (ground arith))
      (reads (a % 4 * 16 + b / 16) (ground arith)) _ _ (reads (b % 16 * 4) (ground arith))
    ∙ ap₂ (λ x y. some (x ∷ y ∷ [])) (ground arith) (ground arith)

pub decode_three-lookup :
    (a b c : ℕ)
    → a < 256
    → b < 256
    → c < 256
    → decode_three
        (lookup (a / 4))
        (lookup (a % 4 * 16 + b / 16))
        (lookup (b % 16 * 4 + c / 64))
        (lookup (c % 64))
      ≡ some (a ∷ b ∷ c ∷ [])
decode_three-lookup a b c l m n =
    decode_three_lem _ _ _ _ (reads (a / 4) (ground arith))
      (reads (a % 4 * 16 + b / 16) (ground arith)) _ _ _ _
      (reads (b % 16 * 4 + c / 64) (ground arith)) (reads (c % 64) (ground arith))
    ∙ three (ground arith) (ground arith) (ground arith)
  where
    three :
        {x y z u v w : ℕ} → x ≡ u → y ≡ v → z ≡ w → some (x ∷ y ∷ z ∷ []) ≡ some (u ∷ v ∷ w ∷ [])
    three p q r = cc
