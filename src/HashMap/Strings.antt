-- ===== src/HashMap/Strings.antt =====
-- rtHashMap.c: the defaults of rtHashMap_Create, for keys that are C strings.
use rtmessage.Prelude.{
  ℕ, ◌≡◌, refl, ap₂, true, false, Bool-cases, inl, inr, List, [], ◌∷◌, leb, arith,
}
use rtmessage.HashMap.{
  Config, hash_func_string, compare_func_string, string_config, create, flatten,
}
use rtmessage.HashMap.Nodes.{IsHasher}
use rtmessage.HashMap.Resize.{IsValid}

compare_func_string-same : (a b : List ℕ) → compare_func_string a b ≡ true → a ≡ b
unfolding compare_func_string
compare_func_string-same [] [] e = refl
compare_func_string-same [] (y ∷ ys) e = absurd (cc)
compare_func_string-same (x ∷ xs) [] e = absurd (cc)
compare_func_string-same (x ∷ xs) (y ∷ ys) e = elim (Bool-cases (leb x y)) [
  | inr more ↦ absurd (false_true (rw more at e))
  | inl below ↦ elim (Bool-cases (leb y x)) [
    | inr less ↦ absurd (false_true (rw (below, less) at e))
    | inl above ↦
        let same : x ≡ y = ground arith in
        ap₂ ◌∷◌ same (compare_func_string-same xs ys (rw (below, above) at e))
  ]
]
  where
    false_true : false ≡ true → ⊥
    false_true q = cc

compare_func_string_self : (a : List ℕ) → compare_func_string a a ≡ true
unfolding compare_func_string
compare_func_string_self [] = refl
compare_func_string_self (x ∷ xs) =
    let low : leb x x ≡ true = ground arith in rw low (compare_func_string_self xs)

-- The hash of a C string, whatever its bytes and for the least `int` as well, is below the number of
-- buckets, and two strings compare as equal exactly if they are the same string.
pub string_config-IsHasher : IsHasher string_config
unfolding hash_func_string
string_config-IsHasher = record {
  bounded = λ n key l. omega arith;
  same = compare_func_string-same;
  reflexive = compare_func_string_self;
}

-- rtHashMap_Create makes a valid map.
pub create-IsValid : {K V : Type 0} (c : Config K) → IsValid {V = V} c create
unfolding create flatten
create-IsValid c = record {
  filled = omega arith;
  placed = _;
  unique = λ key. omega arith;
  counted = refl;
}
