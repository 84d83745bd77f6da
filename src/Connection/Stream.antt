-- ===== src/Connection/Stream.antt =====
-- rtConnection_ReadUntil of rtConnection.c: a number of bytes from a socket that gives them in pieces.
use rtmessage.Prelude.{
  ℕ, zero, suc, ◌-◌, ◌≤◌, ◌≡◌, refl, sym, ap, ◌∙◌, Bool-cases, inl, inr, List, [], ◌∷◌, ◌++◌,
  length, take, drop, leb, if◌then◌else◌, arith, length-append,
}
use rtmessage.Error.{rt_ok, rt_error_timeout, error_from_errno}

-- ENOTCONN and EPIPE as the Linux ABI numbers them
abbrev pub enotconn : ℕ
enotconn = 107

abbrev pub epipe : ℕ
epipe = 32

-- What `select` and `recv` do: bytes that have arrived, of which `recv` takes at most as many as it is
-- asked for, the end of the stream, EINTR, another error, or no bytes in time.
pub data Event : Type 0 where
  chunk : ℕ → List ℕ → Event
  closed interrupted timed_out : Event
  failure : ℕ → Event

-- An error, the bytes that were read, and the events that are left; `blocked` waits for more events.
pub data Read : Type 0 where
  blocked : Read
  got : ℕ → List ℕ → List Event → Read

unfoldable pub prepend : List ℕ → Read → Read
prepend bytes blocked = blocked
prepend bytes (got code more events) = got code (bytes ++ more) events

-- The bytes of a chunk that `recv` leaves for the next call
unfoldable pub leave_chunk : List ℕ → List Event → List Event
leave_chunk [] events = events
leave_chunk (b ∷ bytes) events = chunk b bytes ∷ events

-- rtConnection_ReadUntil, of a connection that is not NULL; a negative count reads as 0.
unfoldable pub read_until : ℕ → List Event → Read
read_until zero events = got rt_ok [] events
read_until (suc n) [] = blocked
read_until (suc n) (interrupted ∷ events) = read_until (suc n) events
read_until (suc n) (closed ∷ events) = got (error_from_errno enotconn) [] events
read_until (suc n) (timed_out ∷ events) = got rt_error_timeout [] events
read_until (suc n) (failure e ∷ events) = got (error_from_errno e) [] events
read_until (suc n) (chunk b bytes ∷ events) =
    let rest = read_until (n - length bytes) events in
    if leb (length bytes) n
    then prepend (b ∷ bytes) rest
    else got rt_ok (b ∷ take n bytes) (leave_chunk (drop n bytes) events)

-- The events bring bytes only, perhaps with interruptions.
abbrev pub IsPlain : List Event → Type 0
IsPlain [] = Unit
IsPlain (chunk b bytes ∷ events) = IsPlain events
IsPlain (interrupted ∷ events) = IsPlain events
IsPlain (closed ∷ events) = ⊥
IsPlain (timed_out ∷ events) = ⊥
IsPlain (failure e ∷ events) = ⊥

-- The bytes that they bring.
abbrev pub stream : List Event → List ℕ
stream [] = []
stream (chunk b bytes ∷ events) = b ∷ bytes ++ stream events
stream (interrupted ∷ events) = stream events
stream (closed ∷ events) = []
stream (timed_out ∷ events) = []
stream (failure e ∷ events) = []

take-append_le : (n : ℕ) (xs ys : List ℕ) → n ≤ length xs → take n (xs ++ ys) ≡ take n xs
take-append_le zero xs ys l = refl
take-append_le (suc n) [] ys l = absurd (omega arith)
take-append_le (suc n) (x ∷ xs) ys l = ap (◌∷◌ x) (take-append_le n xs ys (omega arith))

drop-append_le : (n : ℕ) (xs ys : List ℕ) → n ≤ length xs → drop n (xs ++ ys) ≡ drop n xs ++ ys
drop-append_le zero xs ys l = refl
drop-append_le (suc n) [] ys l = absurd (omega arith)
drop-append_le (suc n) (x ∷ xs) ys l = drop-append_le n xs ys (omega arith)

take-append_ge :
    (n : ℕ) (xs ys : List ℕ) → length xs ≤ n → take n (xs ++ ys) ≡ xs ++ take (n - length xs) ys
take-append_ge n [] ys l = ap (λ k. take k ys) (omega arith)
take-append_ge zero (x ∷ xs) ys l = absurd (omega arith)
take-append_ge (suc n) (x ∷ xs) ys l =
    ap (◌∷◌ x) (take-append_ge n xs ys (omega arith) ∙ ap (λ k. xs ++ take k ys) (omega arith))

drop-append_ge :
    (n : ℕ) (xs ys : List ℕ) → length xs ≤ n → drop n (xs ++ ys) ≡ drop (n - length xs) ys
drop-append_ge n [] ys l = ap (λ k. drop k ys) (omega arith)
drop-append_ge zero (x ∷ xs) ys l = absurd (omega arith)
drop-append_ge (suc n) (x ∷ xs) ys l =
    drop-append_ge n xs ys (omega arith) ∙ ap (λ k. drop k ys) (omega arith)

leave_chunk-stream :
    (bytes : List ℕ) (events : List Event)
    → IsPlain events
    → IsPlain (leave_chunk bytes events)
      × (stream (leave_chunk bytes events) ≡ bytes ++ stream events)
unfolding leave_chunk
leave_chunk-stream [] events p = (p, refl)
leave_chunk-stream (b ∷ bytes) events p = (p, refl)

-- If the events bring at least `n` bytes, in whatever pieces and with whatever interruptions,
-- `rtConnection_ReadUntil` ends without error, with the first `n` of them, and the events that are left
-- bring the others.
pub read_until-stream :
    (n : ℕ) (events : List Event)
    → IsPlain events
    → n ≤ length (stream events)
    → (left : List Event) × (read_until n events ≡ got rt_ok (take n (stream events)) left)
      × IsPlain left
      × (stream left ≡ drop n (stream events))
unfolding read_until prepend
read_until-stream zero events p l = (events, refl, p, refl)
read_until-stream (suc n) [] p l = absurd (omega arith)
read_until-stream (suc n) (interrupted ∷ events) p l = read_until-stream (suc n) events p l
read_until-stream (suc n) (closed ∷ events) p l = elim p [ ]
read_until-stream (suc n) (timed_out ∷ events) p l = elim p [ ]
read_until-stream (suc n) (failure e ∷ events) p l = elim p [ ]
read_until-stream (suc n) (chunk b bytes ∷ events) p l = elim (Bool-cases (leb (length bytes) n)) [
  | inl whole ↦
      let small : length bytes ≤ n = ground arith in
      let (left, e, q, s) =
        read_until-stream (n - length bytes) events p
          (omega (arith, length-append bytes (stream events))) in
      (
        left,
        rw (whole, e)
            (ap (λ w. got rt_ok (b ∷ w) left) (sym (take-append_ge n bytes (stream events) small))),
        q,
        s ∙ sym (drop-append_ge n bytes (stream events) small),
      )
  | inr part ↦
      let large : n ≤ length bytes = ground arith in
      let (q, s) = leave_chunk-stream (drop n bytes) events p in
      (
        leave_chunk (drop n bytes) events,
        rw part (
            ap (λ w. got rt_ok (b ∷ w) (leave_chunk (drop n bytes) events))
              (sym (take-append_le n bytes (stream events) large))),
        q,
        s ∙ sym (drop-append_le n bytes (stream events) large),
      )
]
