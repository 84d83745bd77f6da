-- ===== src/Header/Accept.antt =====
-- What `rtMessageHeader_Decode` accepts, and how far it reads.
use rtmessage.Prelude.{
  ℕ, ◌+◌, ◌≤◌, ◌<◌, ◌≡◌, refl, ap, some, List, [], ◌∷◌, length, arith, Bool, true, false,
  length-append,
}
use rtmessage.Encoder.{decode_uint16, decode_int32, decode_uint32, decode_str}
use rtmessage.Encoder.RoundTrip.{decode_str_total}
use rtmessage.Header.{
  Header, init, M, Decoded, overrun, failed, decoded, max_topic_length, decode, continue, ◌>>=◌,
  ◌>>◌, read, store, ensure, c_string,
}
use rtmessage.Header.Text.{HasEnd, copy_into-HasEnd, HasEnd-c_string, c_string-lt, replicate-HasEnd}

-- Both texts of a header end inside their arrays.
pub record HasEnds (h : Header) : Type 0 where
  pub topic_end : HasEnd 127 h.topic
  pub reply_topic_end : HasEnd 127 h.reply_topic

module _ {ℓ} {A : Type ℓ} where
  -- The run did not read beyond its buffer, took at most `n` bytes, and its value satisfies `Q`.
  abbrev pub Within : ℕ → List ℕ → (A → Type 0) → Decoded A → Type 0
  Within n bytes Q overrun = ⊥
  Within n bytes Q (failed h) = HasEnds h
  Within n bytes Q (decoded a h rest) = HasEnds h × Q a × (length bytes ≤ length rest + n)

-- From any header whose texts end and any `n` bytes the statement runs within those bytes.
abbrev pub Ends : {A : Type 0} → ℕ → (A → Type 0) → M A → Type 0
Ends n Q m =
    (h : Header) (bytes : List ℕ) → HasEnds h → n ≤ length bytes → Within n bytes Q (m h bytes)

abbrev pub Any : {A : Type 0} → A → Type 0
Any a = Unit

continue-Within :
    {A B : Type 0} (Q : A → Type 0) (R : B → Type 0) (n p : ℕ) (d : Decoded A) (k : A → M B)
    (bytes : List ℕ)
    → n + p ≤ length bytes
    → Within n bytes Q d
    → ((a : A) → Q a → Ends p R (k a))
    → Within (n + p) bytes R (continue d k)
unfolding continue
continue-Within Q R n p overrun k bytes l w ek = w
continue-Within Q R n p (failed h) k bytes l w ek = w
continue-Within Q R n p (decoded a h rest) k bytes l w ek =
    weaken (k a h rest) (ek a w.1 h rest w.0 (omega arith))
  where
    weaken : (d : Decoded _) → Within p rest R d → Within (n + p) bytes R d
    weaken overrun v = v
    weaken (failed g) v = v
    weaken (decoded b g more) v = (v.0, v.1, omega arith)

bind-Ends :
    {A B : Type 0} (Q : A → Type 0) (R : B → Type 0) (n p t : ℕ) (m : M A) (k : A → M B)
    → n + p ≡ t
    → Ends n Q m
    → ((a : A) → Q a → Ends p R (k a))
    → Ends t R (m >>= k)
unfolding ◌>>=◌
bind-Ends Q R n p t m k sum em ek h bytes e l =
    rw (← sum)
      (continue-Within Q R n p (m h bytes) k bytes (omega arith) (em h bytes e (omega arith)) ek)

store-Ends :
    (f : Header → Header) → ((h : Header) → HasEnds h → HasEnds (f h)) → Ends 0 Any (store f)
unfolding store
store-Ends f keep h bytes e l = (keep h e, tt, omega arith)

ensure-Ends : (b : Bool) → Ends 0 (λ _. b ≡ true) (ensure b)
unfolding ensure
ensure-Ends true h bytes e l = (e, refl, omega arith)
ensure-Ends false h bytes e l = e

read_uint16-Ends : Ends 2 Any (read decode_uint16)
unfolding read decode_uint16
read_uint16-Ends h [] e l = omega arith
read_uint16-Ends h (a ∷ []) e l = omega arith
read_uint16-Ends h (a ∷ b ∷ bytes) e l = (e, tt, omega arith)

read_uint32-Ends : Ends 4 Any (read decode_uint32)
unfolding read decode_uint32 decode_int32
read_uint32-Ends h [] e l = omega arith
read_uint32-Ends h (a ∷ []) e l = omega arith
read_uint32-Ends h (a ∷ b ∷ []) e l = omega arith
read_uint32-Ends h (a ∷ b ∷ c ∷ []) e l = omega arith
read_uint32-Ends h (a ∷ b ∷ c ∷ d ∷ bytes) e l = (e, tt, omega arith)

read_str-Ends : (len : ℕ) → len < 128 → Ends 127 (λ s. length s ≡ len) (read (decode_str len))
unfolding read
read_str-Ends len lt h bytes e l =
    let (s, rest, run, split, size) = decode_str_total len bytes (omega arith) in
    rw (run, read) (e, size, omega (arith, ap length split, length-append s rest))

-- A statement with the number of bytes that it may take, as a record, so that goals keep its shape.
record Runs (n : ℕ) (m : M (Unit {0})) : Type 0 where
  ends : Ends n (Any {A = Unit {0}}) m

-- The statements of `decode`, each with the number of bytes `p` that the rest may take.
module _ (p : ℕ) where
  uint16_Runs :
      (k : ℕ → M (Unit {0})) → ((a : ℕ) → Runs p (k a)) → Runs (2 + p) (read decode_uint16 >>= k)
  uint16_Runs k r = record {
    ends = bind-Ends Any Any 2 p (2 + p) _ k refl read_uint16-Ends (λ a _. (r a).ends);
  }

  uint32_Runs :
      (k : ℕ → M (Unit {0})) → ((a : ℕ) → Runs p (k a)) → Runs (4 + p) (read decode_uint32 >>= k)
  uint32_Runs k r = record {
    ends = bind-Ends Any Any 4 p (4 + p) _ k refl read_uint32-Ends (λ a _. (r a).ends);
  }

  str_Runs :
      (len : ℕ) (k : List ℕ → M (Unit {0}))
      → len < 128
      → ((s : List ℕ) → length s ≡ len → Runs p (k s))
      → Runs (127 + p) (read (decode_str len) >>= k)
  str_Runs len k lt r = record {
    ends =
        bind-Ends (λ s. length s ≡ len) Any 127 p (127 + p) _ k refl (read_str-Ends len lt)
          (λ s e. (r s e).ends);
  }

  store-Runs :
      (f : Header → Header) (k : M (Unit {0}))
      → ((h : Header) → HasEnds h → HasEnds (f h))
      → Runs p k
      → Runs p (store f >> k)
  unfolding ◌>>◌
  store-Runs f k keep r = record {
    ends =
        bind-Ends Any Any 0 p p (store f) (λ _. k) (omega arith) (store-Ends f keep)
          (λ _ _. r.ends);
  }

  ensure-Runs : (b : Bool) (k : M (Unit {0})) → (b ≡ true → Runs p k) → Runs p (ensure b >> k)
  unfolding ◌>>◌
  ensure-Runs b k r = record {
    ends =
        bind-Ends (λ _. b ≡ true) Any 0 p p (ensure b) (λ _. k) (omega arith) (ensure-Ends b)
          (λ _ t. (r t).ends);
  }

last_Runs : (b : Bool) → Runs 0 (ensure b)
unfolding ensure
last_Runs true = record { ends = λ h bytes e l. (e, tt, omega arith) }
last_Runs false = record { ends = λ h bytes e l. e }

decode-Runs : Runs 286 decode
unfolding decode
decode-Runs = uint16_Runs 284 _ λ _. ensure-Runs 284 _ _ λ _. uint16_Runs 282 _ λ _.
    store-Runs 282 _ _ (λ h e. ground arith)
      (uint16_Runs 280 _ λ _.
        store-Runs 280 _ _ (λ h e. ground arith)
          (uint32_Runs 276 _ λ _.
            store-Runs 276 _ _ (λ h e. ground arith)
              (uint32_Runs 272 _ λ _.
                store-Runs 272 _ _ (λ h e. ground arith)
                  (uint32_Runs 268 _ λ _.
                    store-Runs 268 _ _ (λ h e. ground arith)
                      (uint32_Runs 264 _ λ _.
                        store-Runs 264 _ _ (λ h e. ground arith)
                          (uint32_Runs 260 _ λ len.
                            store-Runs 260 _ _ (λ h e. ground arith)
                              (ensure-Runs 260 _ _ λ lt. str_Runs 133 len _ (ground arith) λ s l.
                                store-Runs 133 _ _
                                  (λ h e. record {
                                    topic_end = copy_into-HasEnd s e.topic_end (ground arith);
                                    reply_topic_end = e.reply_topic_end;
                                  })
                                  (uint32_Runs 129 _ λ reply_len.
                                    store-Runs 129 _ _ (λ h e. ground arith)
                                      (ensure-Runs 129 _ _ λ reply_lt.
                                        str_Runs 2 reply_len _ (ground arith) λ s l.
                                          store-Runs 2 _ _
                                            (λ h e. record {
                                              topic_end = e.topic_end;
                                              reply_topic_end =
                                                  copy_into-HasEnd s e.reply_topic_end
                                                    (ground arith);
                                            })
                                            (uint16_Runs 0 _ λ _. last_Runs _))))))))))

-- What a run of the decoder is worth: it stayed in its buffer, and if it accepted, then it took at
-- most 286 bytes and both arrays hold a text shorter than 128 bytes.
abbrev pub Accepts : List ℕ → Decoded (Unit {0}) → Type 0
Accepts bytes overrun = ⊥
Accepts bytes (failed h) = Unit
Accepts bytes (decoded a h rest) =
    (topic : List ℕ) × (reply_topic : List ℕ) × (c_string h.topic ≡ some topic)
    × (c_string h.reply_topic ≡ some reply_topic)
    × (length topic < max_topic_length)
    × (length reply_topic < max_topic_length)
    × (length bytes ≤ length rest + 286)

HasEnd-text :
    (array : List ℕ)
    → HasEnd 127 array
    → (s : List ℕ) × (c_string array ≡ some s) × (length s < max_topic_length)
HasEnd-text array e =
    let (s, p) = HasEnd-c_string e in (s, p, omega (arith, c_string-lt array s p, e.size))

Within-Accepts :
    (bytes : List ℕ) (d : Decoded (Unit {0}))
    → Within 286 bytes (Any {A = Unit {0}}) d
    → Accepts bytes d
Within-Accepts bytes overrun w = absurd w
Within-Accepts bytes (failed h) w = tt
Within-Accepts bytes (decoded a h rest) w =
    let (s, p, l) = HasEnd-text h.topic w.0.topic_end in
    let (t, q, m) = HasEnd-text h.reply_topic w.0.reply_topic_end in (s, t, p, q, l, m, w.2)

pub decode-Within :
    (target : Header) (bytes : List ℕ)
    → HasEnds target
    → 286 ≤ length bytes
    → Within 286 bytes (Any {A = Unit {0}}) (decode target bytes)
decode-Within = decode-Runs.ends

-- From a header whose two arrays end in a zero (as `rtMessageHeader_Init` leaves it) and a buffer of
-- at least 286 bytes, whatever they are, the decoder does not read beyond the buffer. If it accepts,
-- then it took at most 286 bytes, and both arrays hold a terminated text shorter than 128 bytes.
pub decode-Accepts :
    (target : Header) (bytes : List ℕ)
    → HasEnds target
    → 286 ≤ length bytes
    → Accepts bytes (decode target bytes)
decode-Accepts target bytes e l = Within-Accepts bytes _ (decode-Within target bytes e l)

pub init-HasEnds : HasEnds init
unfolding init
init-HasEnds = record { topic_end = replicate-HasEnd 127; reply_topic_end = replicate-HasEnd 127 }
