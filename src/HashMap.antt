-- ===== src/HashMap.antt =====
-- rtHashMap.c: the map of buckets. A bucket, and the vector of the buckets, is the sequence of its items,
-- as rtVector.c keeps it; memory is granted. `none` is a use of a bucket that is NULL.
pub mod Nodes
pub mod Buckets
pub mod Resize
pub mod Change
pub mod Map
pub mod Insert
pub mod Remove
pub mod Strings
use rtmessage.Prelude.{
  ℕ, ◌+◌, ◌-◌, ◌*◌, ◌/◌, ◌%◌, ◌^◌, Bool, true, false, Option, none, some, List, [], ◌∷◌, ◌++◌,
  length, replicate, get_elem?, set, ltb, leb, if◌then◌else◌,
}

-- RTHASHMAP_INITSIZE
abbrev pub init_size : ℕ
init_size = 16

-- struct rtHashMapNode
pub record Node (K V : Type 0) : Type 0 where
  pub key : K
  pub value : V

-- The functions of struct _rtHashMap: the hash of a key for a number of buckets, whether two keys compare
-- as equal, and the load factor as a fraction.
pub record Config (K : Type 0) : Type 0 where
  pub key_hasher : ℕ → K → ℕ
  pub key_comparer : K → K → Bool
  pub load_num : ℕ
  pub load_den : ℕ

-- The rest of struct _rtHashMap
pub record HashMap (K V : Type 0) : Type 0 where
  pub buckets : List (List (Node K V))
  pub size : ℕ

module _ {K V : Type 0} where
  -- rtHashMap_GetBucket
  unfoldable pub get_bucket : Config K → List (List (Node K V)) → K → Option (List (Node K V))
  get_bucket c buckets key = get_elem? buckets (c.key_hasher (length buckets) key)

  -- `rtVector_Find(bucket, key, rtHashMap_Compare_Node)`
  unfoldable pub find_node : Config K → K → List (Node K V) → Option (Node K V)
  find_node c key [] = none
  find_node c key (x ∷ xs) =
      let rest = find_node c key xs in if c.key_comparer x.key key then some x else rest

  -- rtHashMap_GetNode
  unfoldable pub get_node : Config K → List (List (Node K V)) → K → Option (Node K V)
  get_node c buckets key = elim (get_bucket c buckets key) [
    | none ↦ none
    | some bucket ↦ find_node c key bucket
  ]

  -- A node is pushed behind the others of the bucket of its key.
  unfoldable pub place :
      Config K → List (List (Node K V)) → Node K V → Option (List (List (Node K V)))
  place c buckets node = elim (get_bucket c buckets node.key) [
    | none ↦ none
    | some bucket ↦
        some (set buckets (c.key_hasher (length buckets) node.key) (bucket ++ (node ∷ [])))
  ]

  unfoldable pub place_all :
      Config K → List (Node K V) → List (List (Node K V)) → Option (List (List (Node K V)))
  place_all c [] buckets = some buckets
  place_all c (x ∷ xs) buckets = elim (place c buckets x) [
    | none ↦ none
    | some placed ↦ place_all c xs placed
  ]

  -- The nodes of all buckets, in the order of the loops of rtHashMap_Resize.
  unfoldable pub flatten : List (List (Node K V)) → List (Node K V)
  flatten [] = []
  flatten (bucket ∷ buckets) = bucket ++ flatten buckets

  -- rtHashMap_Create and rtHashMap_CreateEx
  unfoldable pub create : HashMap K V
  create = record { buckets = replicate init_size []; size = 0 }

  -- rtHashMap_Resize
  unfoldable pub resize : Config K → Bool → HashMap K V → Option (HashMap K V)
  resize c grow m =
      let old_size = length m.buckets in
      let next_size = if grow then old_size * 2 else old_size / 2 in
      elim (place_all c (flatten m.buckets) (replicate next_size [])) [
        | none ↦ none
        | some buckets ↦ some (record m { buckets = buckets })
      ]

  -- The node of a key gets the new key and the new value.
  unfoldable pub overwrite : Config K → Node K V → List (Node K V) → List (Node K V)
  overwrite c node [] = []
  overwrite c node (x ∷ xs) =
      let rest = overwrite c node xs in
      if c.key_comparer x.key node.key then node ∷ xs else x ∷ rest

  -- `(size + 1) / (float)buckets > load_factor`
  unfoldable pub too_full : Config K → HashMap K V → Bool
  too_full c m = ltb (c.load_num * length m.buckets) ((m.size + 1) * c.load_den)

  unfoldable pub add_node : Config K → Node K V → Option (HashMap K V) → Option (HashMap K V)
  add_node c node none = none
  add_node c node (some m) = elim (place c m.buckets node) [
    | none ↦ none
    | some buckets ↦ some (record { buckets = buckets; size = m.size + 1 })
  ]

  -- rtHashMap_Set
  unfoldable pub insert : Config K → HashMap K V → K → V → Option (HashMap K V)
  insert c m key value =
      let node : Node K V = record { key = key; value = value } in
      elim (get_bucket c m.buckets key) [
        | none ↦ none
        | some bucket ↦ elim (find_node c key bucket) [
          | some found ↦ some (record m {
            buckets = set m.buckets (c.key_hasher (length m.buckets) key) (overwrite c node bucket);
          })
          | none ↦ add_node c node (if too_full c m then resize c true m else some m)
        ]
      ]

  -- rtHashMap_Get
  unfoldable pub get : Config K → HashMap K V → K → Option V
  get c m key = elim (get_node c m.buckets key) [ none ↦ none | some node ↦ some node.value ]

  -- rtHashMap_GetSize
  unfoldable pub get_size : HashMap K V → ℕ
  get_size m = m.size

  -- rtHashMap_Contains
  unfoldable pub contains : Config K → HashMap K V → K → Bool
  contains c m key = elim (get_node c m.buckets key) [ none ↦ false | some node ↦ true ]

  -- `rtVector_RemoveItemByCompare(bucket, key, rtHashMap_Compare_Node, rtHashMap_Node_Free)`
  unfoldable pub remove_node : Config K → K → List (Node K V) → List (Node K V)
  remove_node c key [] = []
  remove_node c key (x ∷ xs) =
      let rest = remove_node c key xs in if c.key_comparer x.key key then xs else x ∷ rest

  -- `size / nbuckets / 2.0f < load_factor`, where the first division is of integers
  unfoldable pub too_empty : Config K → HashMap K V → Bool
  too_empty c m =
      if ltb init_size (length m.buckets)
      then ltb (m.size / length m.buckets * c.load_den) (2 * c.load_num)
      else false

  abbrev pub removed : Option (HashMap K V) → Option (Bool × HashMap K V)
  removed none = none
  removed (some m) = some (true, m)

  -- rtHashMap_Remove: whether there was a node, and the map after it
  unfoldable pub remove : Config K → HashMap K V → K → Option (Bool × HashMap K V)
  remove c m key = elim (get_bucket c m.buckets key) [
    | none ↦ none
    | some bucket ↦ elim (find_node c key bucket) [
      | none ↦ some (false, m)
      | some found ↦
          let left : HashMap K V = record {
            buckets =
                set m.buckets (c.key_hasher (length m.buckets) key) (remove_node c key bucket);
            size = m.size - 1;
          } in
          removed (if too_empty c left then resize c false left else some left)
    ]
  ]

-- `hash * 31 + *skey` on an `int` that wraps, with the byte as a `char` that has a sign
unfoldable pub hash_bytes : ℕ → List ℕ → ℕ
hash_bytes hash [] = hash
hash_bytes hash (b ∷ bs) =
    hash_bytes ((hash * 31 + (if ltb b 128 then b else b + (2 ^ 32 - 256))) % 2 ^ 32) bs

-- `abs` as the conversion to a `size_t` sees it; the least `int` stays negative.
unfoldable pub abs_size : ℕ → ℕ
abs_size hash =
    if ltb hash (2 ^ 31) then hash else if ltb (2 ^ 31) hash then 2 ^ 32 - hash else 2 ^ 64 - 2 ^ 31

-- rtHashMap_Hash_Func_String
unfoldable pub hash_func_string : ℕ → List ℕ → ℕ
hash_func_string nbuckets skey = abs_size (hash_bytes 0 skey) % nbuckets

-- rtHashMap_Compare_Func_String: whether `strcmp` is 0
unfoldable pub compare_func_string : List ℕ → List ℕ → Bool
compare_func_string [] [] = true
compare_func_string [] (y ∷ ys) = false
compare_func_string (x ∷ xs) [] = false
compare_func_string (x ∷ xs) (y ∷ ys) =
    let rest = compare_func_string xs ys in
    if leb x y then (if leb y x then rest else false) else false

-- The defaults of rtHashMap_CreateEx; RTHASHMAP_LOAD_FACTOR is 0.75.
abbrev pub string_config : Config (List ℕ)
string_config = record {
  key_hasher = hash_func_string;
  key_comparer = compare_func_string;
  load_num = 3;
  load_den = 4;
}
