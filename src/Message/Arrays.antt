-- ===== src/Message/Arrays.antt =====
-- What rtMessage.c reads back from an array of texts and from binary data.
use rtmessage.Prelude.{
  ℕ, zero, suc, ◌^◌, ◌<◌, ◌≤◌, ◌≡◌, refl, sym, ap, ◌∙◌, true, none, some, List, [], ◌∷◌, ◌++◌,
  length, get_elem?, length-append, append_assoc, append-nil, subst, All, Option-cases, inl, inr,
  ◌==◌, if◌then◌else◌, arith,
}
use rtmessage.Error.{rt_ok, rt_fail}
use rtmessage.Base64.{encode_groups, binary_data_size_limit}
use rtmessage.Base64.RoundTrip.{IsByte, decode-encode_base64}
use rtmessage.Json.{CJson, IsLawful}
use rtmessage.Message.{RtMessage, get_item, add_item, set_string}
use rtmessage.Message.Items.{
  append_item, add_string, get_array_length, get_string_item, is_behind, item_at, add_binary_data,
  get_binary_data,
}
use rtmessage.Message.Fields.{get_item-add_item_self, json-add_item}

get_elem?-append {ℓ} :
    {A : Type ℓ} (xs : List A) (x : A) (i : ℕ)
    → get_elem? (xs ++ (x ∷ [])) i ≡ (if i == length xs then some x else get_elem? xs i)
get_elem?-append [] x zero = refl
get_elem?-append [] x (suc i) = ground arith
get_elem?-append (y ∷ ys) x zero = ground arith
get_elem?-append (y ∷ ys) x (suc i) = ground (arith, get_elem?-append ys x i)

get_elem?-none_le {ℓ} : {A : Type ℓ} (xs : List A) (i : ℕ) → get_elem? xs i ≡ none → length xs ≤ i
get_elem?-none_le [] i e = omega arith
get_elem?-none_le (x ∷ xs) zero e = cc
get_elem?-none_le (x ∷ xs) (suc i) e = omega (arith, get_elem?-none_le xs i e)

get_elem?-some_lt {ℓ} :
    {A : Type ℓ} (xs : List A) (i : ℕ) {x : A} → get_elem? xs i ≡ some x → i < length xs
get_elem?-some_lt [] i e = cc
get_elem?-some_lt (x ∷ xs) zero e = omega arith
get_elem?-some_lt (x ∷ xs) (suc i) e = omega (arith, get_elem?-some_lt xs i e)

module _ (c : CJson) where
  -- Texts that are added one after the other under a name
  unfoldable pub add_strings : RtMessage c → List ℕ → List (List ℕ) → RtMessage c
  add_strings m name [] = m
  add_strings m name (text ∷ texts) = add_strings (add_string c m name text).1 name texts

  -- The array of a name holds these texts.
  record HasTexts (m : RtMessage c) (name : List ℕ) (texts : List (List ℕ)) : Type 0 where
    array : c.Item
    object : c.Item
    is_object : m.json ≡ some object
    found : get_item c m name ≡ some array
    size : c.array_size array ≡ length texts
    holds :
        (i : ℕ)
        → i < length texts
        → c.array_item array i
          ≡ elim (get_elem? texts i) [ none ↦ none | some text ↦ some (c.create_string text) ]

module _ (c : CJson) (laws : IsLawful c) where
  first_text :
      (m : RtMessage c) (object : c.Item) (name text : List ℕ)
      → m.json ≡ some object
      → get_item c m name ≡ none
      → HasTexts c (add_string c m name text).1 name (text ∷ [])
  unfolding add_string append_item get_item
  first_text m object name text e missing =
      let array = c.add_item_to_array c.create_array (c.create_string text) in
      let missing' : c.get_object_item object name ≡ none =
        ap (λ w. elim w [ none ↦ none | some o ↦ c.get_object_item o name ]) (sym e) ∙ missing in
      let is_added : append_item c m name (c.create_string text) ≡ add_item c m name array =
        ground arith in
      record {
        array = array;
        object = c.add_item_to_object object name array;
        is_object = ap (λ w. w.json) is_added ∙ json-add_item c laws m object array name e;
        found =
            ap (λ w. get_item c w name) is_added
            ∙ get_item-add_item_self c laws m object array name e missing;
        size = omega (arith, laws.size-add c.create_array (c.create_string text), laws.size-create);
        holds = λ i l.
            ground (arith, laws.item-add c.create_array (c.create_string text) i, laws.size-create);
      }

  next_text :
      (m : RtMessage c) (name text : List ℕ) (texts : List (List ℕ))
      → HasTexts c m name texts
      → HasTexts c (add_string c m name text).1 name (texts ++ (text ∷ []))
  unfolding add_string append_item get_item
  next_text m name text texts h =
      let item = c.create_string text in
      let array = c.add_item_to_array h.array item in
      let object = c.with_object_item h.object name array in
      let is_there : c.get_object_item h.object name ≡ some h.array =
        ap (λ w. elim w [ none ↦ none | some o ↦ c.get_object_item o name ]) (sym h.is_object)
        ∙ h.found in
      let is_added : append_item c m name item ≡ record m { json = some object } =
        ground (arith, h.is_object) in
      let is_read : c.get_object_item object name ≡ some array =
        ground (
          arith,
          laws.get-with h.object array h.array name name is_there,
          laws.same_key_self name,
        ) in
      record {
        array = array;
        object = object;
        is_object = ap (λ w. w.json) is_added;
        found = ap (λ w. get_item c w name) is_added ∙ is_read;
        size = omega (arith, laws.size-add h.array item, h.size, length-append texts (text ∷ []));
        holds = λ i l. ground (
          arith,
          laws.item-add h.array item i,
          h.size,
          h.holds i,
          get_elem?-append texts text i,
          length-append texts (text ∷ []),
        );
      }

  add_strings-HasTexts :
      (m : RtMessage c) (name : List ℕ) (before texts : List (List ℕ))
      → HasTexts c m name before
      → HasTexts c (add_strings c m name texts) name (before ++ texts)
  unfolding add_strings
  add_strings-HasTexts m name before [] h = rw append-nil h
  add_strings-HasTexts m name before (text ∷ texts) h =
      let more =
        add_strings-HasTexts (add_string c m name text).1 name (before ++ (text ∷ [])) texts
          (next_text m name text before h) in
      subst (λ w. HasTexts c (add_strings c m name (text ∷ texts)) name w)
        (append_assoc before (text ∷ []) texts) more

  HasTexts-reads :
      (m : RtMessage c) (name : List ℕ) (texts : List (List ℕ)) (i : ℕ)
      → HasTexts c m name texts
      → i < 2 ^ 31
      → (get_array_length c m name ≡ (rt_ok, length texts))
        × (get_string_item c m name i
            ≡ elim (get_elem? texts i) [ none ↦ (rt_fail, none) | some text ↦ (rt_ok, some text) ])
  unfolding get_array_length get_string_item is_behind item_at
  HasTexts-reads m name texts i h l = elim (Option-cases (get_elem? texts i)) [
    | inl behind ↦ (
      ground (arith, h.found, h.size),
      ground (arith, h.found, h.size, get_elem?-none_le texts i behind),
    )
    | inr (text, at) ↦ (
      ground (arith, h.found, h.size),
      ground (
        arith,
        h.found,
        h.size,
        at,
        h.holds i (get_elem?-some_lt texts i at),
        get_elem?-some_lt texts i at,
        laws.value_string-create text,
      ),
    )
  ]

  -- If texts are added by `rtMessage_AddString` one after the other, at least one, to a message without a field
  -- of that name, `rtMessage_GetArrayLength` gives their number and `rtMessage_GetStringItem` with
  -- an index gives the text at that place, RT_FAIL behind the last.
  pub get_string_item-add_strings :
      (m : RtMessage c) (object : c.Item) (name text : List ℕ) (texts : List (List ℕ)) (i : ℕ)
      → m.json ≡ some object
      → get_item c m name ≡ none
      → i < 2 ^ 31
      → let m' = add_strings c m name (text ∷ texts) in
        (get_array_length c m' name ≡ (rt_ok, length (text ∷ texts)))
        × (get_string_item c m' name i ≡ elim (get_elem? (text ∷ texts) i) [
          | none ↦ (rt_fail, none)
          | some found ↦ (rt_ok, some found)
        ])
  unfolding add_strings
  get_string_item-add_strings m object name text texts i e missing l =
      HasTexts-reads _ name (text ∷ texts) i
        (add_strings-HasTexts (add_string c m name text).1 name (text ∷ []) texts
          (first_text m object name text e missing))
        l

  -- From 1 to 1026 bytes that `rtMessage_AddBinaryData` puts into a new field are the bytes that
  -- `rtMessage_GetBinaryData` reads, if both get their memory.
  pub get_binary_data-add_binary_data :
      (m : RtMessage c) (object : c.Item) (name bytes : List ℕ) (b : ℕ)
      → m.json ≡ some object
      → get_item c m name ≡ none
      → All IsByte (b ∷ bytes)
      → length (b ∷ bytes) ≤ binary_data_size_limit
      → (m' : RtMessage c) × (add_binary_data c true m name (b ∷ bytes) ≡ some (rt_ok, m'))
        × (get_binary_data c true m' name ≡ some (rt_ok, some (b ∷ bytes)))
  unfolding set_string add_binary_data get_binary_data
  get_binary_data-add_binary_data m object name bytes b e missing h l =
      let (written, read) = decode-encode_base64 b bytes h l in
      let text = encode_groups (b ∷ bytes) in
      let m' = set_string c m name text in
      let found = get_item-add_item_self c laws m object (c.create_string text) name e missing in
      (
        m',
        rw (written, add_binary_data) refl,
        rw (get_binary_data, set_string, found, laws.value_string-create text, read) refl,
      )
