-- ===== src/Error/Texts.antt =====
-- rtError.c: the texts of the codes, and the last error of a thread.
use rtmessage.Prelude.{
  ℕ, zero, suc, ◌<◌, ◌≡◌, refl, Bool, true, false, ◌&&◌, Option, none, some, List, [], ◌∷◌, codes,
  ◌==◌, ==_iff, ==_self, ◌≢◌, ap, ◌∙◌, if◌then◌else◌, arith,
}
use rtmessage.Error.{
  error_class, error_code, error_from_errno, rt_error_class_builtin, rt_error_class_syserror,
}

-- The cases of the switch of rtStrError_BuiltIn, in its order
abbrev pub built_in_cases : List (ℕ × List ℕ)
built_in_cases =
    (0, codes "RT_OK")
    ∷ (1, codes "RT_FAIL")
    ∷ (2, codes "RT_ERROR_NOT_ENOUGH_ARGS")
    ∷ (3, codes "RT_ERROR_INVALID_ARG")
    ∷ (4, codes "RT_PROP_NOT_FOUND")
    ∷ (5, codes "RT_OBJECT_NOT_INITIALIZED")
    ∷ (6, codes "RT_PROPERTY_NOT_FOUND")
    ∷ (7, codes "RT_OBJECT_NO_LONGER_AVAILABLE")
    ∷ (8, codes "RT_RESOURCE_NOT_FOUND")
    ∷ (9, codes "RT_NO_CONNECTION")
    ∷ (10, codes "RT_ERROR_NOT_IMPLEMENTED")
    ∷ (11, codes "RT_ERROR_TYPE_MISMATCH")
    ∷ (1000, codes "RT_ERROR_TIMEOUT")
    ∷ (1001, codes "RT_ERROR_DUPLICATE_ENTRY")
    ∷ (1002, codes "RT_ERROR_OBJECT_NOT_FOUND")
    ∷ (1003, codes "RT_ERROR_PROTOCOL_ERROR")
    ∷ (1004, codes "RT_ERROR_INVALID_OPERATION")
    ∷ (1005, codes "RT_ERROR_IN_PROGRESS")
    ∷ (1006, codes "RT_ERROR_QUEUE_EMPTY")
    ∷ (1007, codes "RT_ERROR_STREAM_CLOSED")
    ∷ []

unfoldable pub text_of_case : ℕ → List (ℕ × List ℕ) → List ℕ
text_of_case e [] = codes "UNKNOWN"
text_of_case e ((n, text) ∷ cases) =
    let rest = text_of_case e cases in if n == e then text else rest

-- rtStrError_BuiltIn
unfoldable pub built_in_text : ℕ → List ℕ
built_in_text e = text_of_case e built_in_cases

-- rtStrError_SystemError: `memory` is if the thread has its buffer or gets one, and `strerror_r` writes a text or
-- fails. `none` is NULL.
unfoldable pub system_text : Bool → (ℕ → Option (List ℕ)) → ℕ → Option (List ℕ)
system_text memory strerror_r e = if memory then strerror_r e else none

-- rtStrError
unfoldable pub str_error : Bool → (ℕ → Option (List ℕ)) → ℕ → Option (List ℕ)
str_error memory strerror_r e =
    let class = error_class e in
    if class == rt_error_class_builtin
    then some (built_in_text (error_code e))
    else if class == rt_error_class_syserror
    then system_text memory strerror_r (error_code e)
    else some (codes "UNKNOWN_ERROR")

-- The last error of each thread that has an rtErrorThreadSpecific
abbrev pub Specific : Type 0
Specific = ℕ → Option ℕ

-- getThreadSpecific for a thread, with the answer of malloc: what the thread has then.
unfoldable pub get_thread_specific : Bool → Specific → ℕ → Option ℕ
get_thread_specific memory threads thread = elim (threads thread) [
  | some last ↦ some last
  | none ↦ if memory then some 0 else none
]

abbrev pub assign : Specific → ℕ → Option ℕ → Specific
assign threads thread value = λ t. if t == thread then value else threads t

-- rtErrorGetLastError
unfoldable pub get_last_error : Bool → Specific → ℕ → ℕ × Specific
get_last_error memory threads thread = elim (get_thread_specific memory threads thread) [
  | none ↦ (0, threads)
  | some last ↦ (last, assign threads thread (some last))
]

-- rtErrorSetLastError
unfoldable pub set_last_error : Bool → Specific → ℕ → ℕ → Specific
set_last_error memory threads thread e = elim (get_thread_specific memory threads thread) [
  | none ↦ threads
  | some last ↦ assign threads thread (some e)
]

holds_below : ℕ → (ℕ → Bool) → Bool
holds_below zero test = true
holds_below (suc n) test = test n && holds_below n test

holds_below-at :
    (n : ℕ) (test : ℕ → Bool) (x : ℕ) → holds_below n test ≡ true → x < n → test x ≡ true
unfolding holds_below
holds_below-at zero test x h lt = absurd (omega arith)
holds_below-at (suc n) test x h lt = ground (arith, holds_below-at n test x)

-- The errors of the system from 1 on
abbrev has_system_class : ℕ → Bool
has_system_class e = error_class (error_from_errno (suc e)) == rt_error_class_syserror

abbrev keeps_code : ℕ → Bool
keeps_code e = error_code (error_from_errno (suc e)) == suc e

abbrev has_built_in_class : ℕ → Bool
has_built_in_class e = error_class (suc e) == rt_error_class_builtin

abbrev is_code : ℕ → Bool
is_code e = error_code (suc e) == suc e

tables :
    (holds_below 4095 has_system_class ≡ true)
    × (holds_below 4095 keeps_code ≡ true)
    × (holds_below 4095 has_built_in_class ≡ true)
    × (holds_below 4095 is_code ≡ true)
unfolding holds_below error_class error_code error_from_errno
tables = (refl, refl, refl, refl)

-- The numbers of errors of Linux, from 1 to 4095, are mapped to codes of which rtStrError gives the text of
-- `strerror_r`; for a number itself it gives the text of the built-in code of the same value.
str_error-error_from_errno :
    (memory : Bool) (strerror_r : ℕ → Option (List ℕ)) (e : ℕ)
    → e < 4095
    → (str_error memory strerror_r (error_from_errno (suc e))
        ≡ system_text memory strerror_r (suc e))
      × (str_error memory strerror_r (suc e) ≡ some (built_in_text (suc e)))
unfolding str_error
str_error-error_from_errno memory strerror_r e h =
    let system = (==_iff _ _).0 (holds_below-at 4095 has_system_class e tables.0 h) in
    let code = (==_iff _ _).0 (holds_below-at 4095 keeps_code e tables.1 h) in
    let built_in = (==_iff _ _).0 (holds_below-at 4095 has_built_in_class e tables.2 h) in
    let same = (==_iff _ _).0 (holds_below-at 4095 is_code e tables.3 h) in
    (rw (str_error, system, code) refl, rw (str_error, built_in, same) refl)

set_last_error-eq :
    (threads : Specific) (thread e : ℕ) (had : Option ℕ)
    → threads thread ≡ had
    → set_last_error true threads thread e ≡ assign threads thread (some e)
unfolding set_last_error get_thread_specific
set_last_error-eq threads thread e none h = rw (set_last_error, get_thread_specific, h) refl
set_last_error-eq threads thread e (some last) h = rw (set_last_error, get_thread_specific, h) refl

-- After a set with memory, a get of the same thread returns the error, and what the others have is kept.
get_last_error-set_last_error :
    (memory : Bool) (threads : Specific) (thread other e : ℕ)
    → other ≢ thread
    → ((get_last_error memory (set_last_error true threads thread e) thread).0 ≡ e)
      × (set_last_error true threads thread e other ≡ threads other)
unfolding get_last_error get_thread_specific
get_last_error-set_last_error memory threads thread other e n =
    let same = set_last_error-eq threads thread e (threads thread) refl in
    let off : (other == thread) ≡ false = ground arith in
    (
      ap (λ w. (get_last_error memory w thread).0) same
          ∙ rw (get_last_error, get_thread_specific, ==_self thread) refl,
      ap (λ w. w other) same ∙ rw off refl,
    )
