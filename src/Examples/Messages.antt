-- ===== src/Examples/Messages.antt =====
-- Messages: the theorems at concrete inputs.
use rtmessage.Prelude.{ℕ, ◌≡◌, refl, true, none, some, List, [], ◌∷◌, arith, codes}
use rtmessage.Error.{rt_ok}
use rtmessage.Message.{RtMessage, get_item}
use rtmessage.Message.Items.{get_array_length, get_string_item, add_binary_data, get_binary_data}
use rtmessage.Message.Arrays.{
  add_strings, get_string_item-add_strings, get_binary_data-add_binary_data,
}
use rtmessage.Examples.Documents.{documents, documents-IsLawful, find}

abbrev empty : RtMessage documents
empty = record { json = some documents.create_object; count = 1 }

missing : (name : List ℕ) → get_item documents empty name ≡ none
unfolding get_item find
missing name = refl

get_string_item-add_strings_example :
    let m = add_strings documents empty (codes "items") (codes "x" ∷ codes "y" ∷ []) in
    (get_array_length documents m (codes "items") ≡ (rt_ok, 2))
    × (get_string_item documents m (codes "items") 1 ≡ (rt_ok, some (codes "y")))
get_string_item-add_strings_example =
    get_string_item-add_strings documents documents-IsLawful empty documents.create_object
      (codes "items") (codes "x") (codes "y" ∷ []) 1 refl (missing (codes "items")) (omega arith)

get_binary_data-add_binary_data_example :
    (m : RtMessage documents) × (add_binary_data documents true empty (codes "b") (1 ∷ 255 ∷ [])
      ≡ some (rt_ok, m))
    × (get_binary_data documents true m (codes "b") ≡ some (rt_ok, some (1 ∷ 255 ∷ [])))
get_binary_data-add_binary_data_example =
    get_binary_data-add_binary_data documents documents-IsLawful empty documents.create_object
      (codes "b") (255 ∷ []) 1 refl (missing (codes "b")) (omega arith) (omega arith)
