-- ===== src/Examples/Documents.antt =====
-- A concrete tree of items that keeps the laws which rtMessage.c relies on.
use rtmessage.Prelude.{
  ℕ, zero, suc, ◌+◌, ◌≡◌, refl, ap, ◌∙◌, Bool, true, false, Bool-cases, inl, inr, Option, none,
  some, List, [], ◌∷◌, ◌==◌, if◌then◌else◌, arith, map, codes,
}
use rtmessage.Routing.Forest.{same_name}
use rtmessage.Routing.Forest.Walk.{same_name_refl}
use rtmessage.Json.{CJson, IsLawful, or_else, lower}

pub data Kind : Type 0 where
  object array : Kind
  text : List ℕ → Kind
  number : ℕ → Kind
  flag : Bool → Kind

-- Arrays and objects have their items in a chain; those of arrays have no name.
mutual
  pub data Item : Type 0 where
    node : Kind → Chain → Item

  pub data Chain : Type 0 where
    end : Chain
    link : List ℕ → Item → Chain → Chain

abbrev same_key : List ℕ → List ℕ → Bool
same_key a b = same_name (map lower a) (map lower b)

unfoldable pub find : List ℕ → Chain → Option Item
find key end = none
find key (link name item chain) =
    let rest = find key chain in if same_key key name then some item else rest

unfoldable pub change : List ℕ → Item → Chain → Chain
change key new end = end
change key new (link name item chain) =
    let rest = change key new chain in
    if same_key key name then link name new chain else link name item rest

unfoldable pub append : List ℕ → Item → Chain → Chain
append name new end = link name new end
append name new (link other item chain) = link other item (append name new chain)

unfoldable pub size : Chain → ℕ
size end = 0
size (link name item chain) = suc (size chain)

unfoldable pub nth : ℕ → Chain → Option Item
nth i end = none
nth zero (link name item chain) = some item
nth (suc i) (link name item chain) = nth i chain

abbrev chain_of : Item → Chain
chain_of (node kind chain) = chain

abbrev with_chain : (Chain → Chain) → Item → Item
with_chain f (node kind chain) = node kind (f chain)

abbrev listed : Option Item → List Item
listed none = []
listed (some item) = item ∷ []

abbrev text_of : Item → Option (List ℕ)
text_of (node (text s) chain) = some s
text_of (node _ chain) = none

abbrev number_of : Item → ℕ
number_of (node (number n) chain) = n
number_of (node _ chain) = 0

abbrev flag_of : Item → Bool
flag_of (node (flag b) chain) = b
flag_of (node _ chain) = false

abbrev field : Item → List ℕ → Item → Item
field item name new = with_chain (append name new) item

-- A brace and a topic are read as a subscription with the id 7, and nothing else is read.
abbrev pub subscription : List ℕ → Item
subscription topic =
    field
      (field (field (node object end) (codes "add") (node (number 1) end)) (codes "topic")
        (node (text topic) end))
      (codes "route_id") (node (number 7) end)

abbrev read_text : List ℕ → Option Item
read_text [] = none
read_text (b ∷ s) = if b == b'{' then some (subscription s) else none

abbrev pub documents : CJson
documents = record {
  Item = Item;
  Double = ℕ;
  same_key = same_key;
  create_object = node object end;
  create_array = node array end;
  create_string = λ s. node (text s) end;
  create_number = λ n. node (number n) end;
  create_double = λ n. node (number n) end;
  create_bool = λ b. node (flag b) end;
  parse = read_text;
  print = λ item. elim (text_of item) [ none ↦ [] | some s ↦ s ];
  print_buffered = λ item n. elim (text_of item) [ none ↦ [] | some s ↦ s ];
  get_object_item = λ item name. find name (chain_of item);
  with_object_item = λ item name new. with_chain (change name new) item;
  add_item_to_object = λ item name new. with_chain (append name new) item;
  replace_item_in_object =
      λ item name new. (with_chain (change name new) item, listed (find name (chain_of item)));
  add_item_to_array = λ item new. with_chain (append [] new) item;
  array_size = λ item. size (chain_of item);
  array_item = λ item i. nth i (chain_of item);
  value_string = text_of;
  value_int = number_of;
  value_double = number_of;
  is_true = flag_of;
}

same_name-eq : (a b : List ℕ) → same_name a b ≡ true → a ≡ b
unfolding same_name
same_name-eq [] [] e = refl
same_name-eq [] (y ∷ b) e = cc
same_name-eq (x ∷ a) [] e = cc
same_name-eq (x ∷ a) (y ∷ b) e = ground (arith, same_name-eq a b)

same_name_comm : (a b : List ℕ) → same_name a b ≡ same_name b a
unfolding same_name
same_name_comm [] [] = refl
same_name_comm [] (y ∷ b) = refl
same_name_comm (x ∷ a) [] = refl
same_name_comm (x ∷ a) (y ∷ b) = ground (arith, same_name_comm a b)

same_key-congr : (key a b : List ℕ) → same_key a b ≡ true → same_key key a ≡ same_key key b
same_key-congr key a b e =
    ap (same_name (map lower key)) (same_name-eq (map lower a) (map lower b) e)

find-append :
    (name key : List ℕ) (new : Item) (chain : Chain)
    → find key (append name new chain)
      ≡ or_else (find key chain) (if same_key key name then some new else none)
unfolding find append
find-append name key new end = refl
find-append name key new (link other item chain) = ground (arith, find-append name key new chain)

find-change :
    (name key : List ℕ) (new old : Item) (chain : Chain)
    → find name chain ≡ some old
    → find key (change name new chain) ≡ (if same_key key name then some new else find key chain)
unfolding find change
find-change name key new old end e = cc
find-change name key new old (link other item chain) e = elim (Bool-cases (same_key name other)) [
  | inl here ↦ ground (arith, here, same_key-congr key name other here)
  | inr not_here ↦ elim (Bool-cases (same_key key other)) [
    | inl first ↦ ground (
      arith,
      not_here,
      first,
      same_key-congr name key other first,
      same_name_comm (map lower key) (map lower name),
    )
    | inr not_first ↦ ground (arith, not_here, not_first, find-change name key new old chain)
  ]
]

size-append :
    (name : List ℕ) (new : Item) (chain : Chain) → size (append name new chain) ≡ size chain + 1
unfolding size append
size-append name new end = refl
size-append name new (link other item chain) = omega (arith, size-append name new chain)

nth-append :
    (i : ℕ) (name : List ℕ) (new : Item) (chain : Chain)
    → nth i (append name new chain) ≡ (if i == size chain then some new else nth i chain)
unfolding nth append size
nth-append zero name new end = refl
nth-append (suc i) name new end = ground arith
nth-append zero name new (link other item chain) = ground arith
nth-append (suc i) name new (link other item chain) = ground (arith, nth-append i name new chain)

chain_of-with_chain :
    (f : Chain → Chain) (item : Item) → chain_of (with_chain f item) ≡ f (chain_of item)
chain_of-with_chain f (node kind chain) = refl

pub documents-IsLawful : IsLawful documents
unfolding find size
documents-IsLawful = record {
  same_key_self = λ name. same_name_refl (map lower name);
  same_key-lower = λ name other e. same_name-eq (map lower name) (map lower other) e;
  get-create = λ name. refl;
  get-add = λ object item name key.
      ap (find key) (chain_of-with_chain (append name item) object)
      ∙ find-append name key item (chain_of object);
  get-with = λ object item old name key e.
      ap (find key) (chain_of-with_chain (change name item) object)
      ∙ find-change name key item old (chain_of object) e;
  replace-deletes = λ object item old name e. rw e refl;
  value_string-create = λ s. refl;
  value_int-create = λ n l. refl;
  size-create = refl;
  size-add = λ array item.
      ap size (chain_of-with_chain (append [] item) array) ∙ size-append [] item (chain_of array);
  item-add = λ array item i.
      ap (nth i) (chain_of-with_chain (append [] item) array)
      ∙ nth-append i [] item (chain_of array);
}
